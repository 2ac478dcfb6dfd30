-- ===== src/Reflection.antt =====
-- The reflection service, pkg/rpc/reflection/serverreflection.go: the file descriptors as protobuf's
-- getters give them, and the functions of the protobuf registry that the code calls.
pub mod Symbols
pub mod Files
pub mod Service
pub mod Client
use nats_grpc.Base.{
  ℕ, zero, suc, String, Option, none, some, List, [], ◌∷◌, ◌==◌, All, if◌then◌else◌,
}
use nats_grpc.Base.Text.{◌+++◌}
use nats_grpc.Wire.{Bytes, Error, other, Result, ok, err}

-- an enum: its name, and the names of its values
pub record EnumDescriptor : Type 0 where
  pub name : String
  pub values : List String

pub record MessageParts : Type 0 where
  pub enums : List EnumDescriptor
  pub extensions : List String
  pub fields : List String
  pub oneofs : List String

-- A message: its name, its nested messages and its other parts.
mutual
  pub data MessageDescriptor : Type 0 where
    message : String → Messages → MessageParts → MessageDescriptor

  pub data Messages : Type 0 where
    nil : Messages
    cons : MessageDescriptor → Messages → Messages

pub record ServiceDescriptor : Type 0 where
  pub name : String
  pub methods : List String

pub record FileDescriptor : Type 0 where
  pub name : String
  pub package_name : String
  pub messages : Messages
  pub enums : List EnumDescriptor
  pub extensions : List String
  pub services : List ServiceDescriptor
  pub dependencies : List String

-- What the code calls: `T` is the type of a Go type.
pub record Registry (T : Type 0) : Type 0 where
  -- proto.FileDescriptor, where nil is `none`
  pub file_descriptor : String → Option Bytes
  -- gzip.NewReader with ioutil.ReadAll
  pub gunzip : Bytes → Result Bytes
  -- proto.Unmarshal and proto.Marshal of a file descriptor
  pub unmarshal_file : Bytes → Result FileDescriptor
  pub marshal_file : FileDescriptor → Result Bytes
  -- proto.MessageType, where nil is `none`
  pub message_type : String → Option T
  -- the bytes of Descriptor(), where the type has that method
  pub type_descriptor : T → Option Bytes
  -- proto.RegisteredExtensions, each by its number with its file, where the type is a proto.Message
  pub registered_extensions : T → Option (List (ℕ × String))
  -- err.Error(), and %v, %q and %d of fmt
  pub error_text : Error → String
  pub type_text : T → String
  pub quoted : String → String
  pub number_text : ℕ → String

unfoldable pub fqn : String → String → String
fqn prefix name = if prefix == "" then name else prefix +++ "." +++ name

-- The ServiceInfo.Metadata of a registered service: a file name, a descriptor, or anything else.
pub data ServiceMetadata : Type 0 where
  file_name : String → ServiceMetadata
  descriptor : Bytes → ServiceMetadata
  unknown : ServiceMetadata

-- a nil slice is read as an empty one
abbrev pub slice : Option Bytes → Bytes
slice none = []
slice (some b) = b

module _ {T : Type 0} (registry : Registry T) where
  unfoldable pub decompress : Bytes → Result Bytes
  decompress enc = elim (registry.gunzip enc) [
    | ok b ↦ ok b
    | err e ↦ err (other ("bad gzipped descriptor: " +++ registry.error_text e))
  ]

  unfoldable pub unmarshalled_file : Result FileDescriptor → Result FileDescriptor
  unmarshalled_file (ok fd) = ok fd
  unmarshalled_file (err e) = err (other ("bad descriptor: " +++ registry.error_text e))

  unfoldable pub decode_file_desc : Bytes → Result FileDescriptor
  decode_file_desc enc = elim (decompress enc) [
    | ok b ↦ unmarshalled_file (registry.unmarshal_file b)
    | err e ↦ err (other ("failed to decompress enc: " +++ registry.error_text e))
  ]

  unfoldable pub parse_metadata : ServiceMetadata → Option Bytes
  parse_metadata (file_name f) = some (slice (registry.file_descriptor f))
  parse_metadata (descriptor b) = some b
  parse_metadata unknown = none

  abbrev pub with_decoded : Result FileDescriptor → List FileDescriptor → List FileDescriptor
  with_decoded (ok fd) more = fd ∷ more
  with_decoded (err e) more = more

  -- the loop over the dependencies, which passes over those that cannot be decoded
  unfoldable pub resolved : List String → List FileDescriptor
  resolved [] = []
  resolved (dep ∷ deps) =
      with_decoded (decode_file_desc (slice (registry.file_descriptor dep))) (resolved deps)

  -- `n` bounds the length of the chains of imports below a file.
  abbrev pub Acyclic : ℕ → FileDescriptor → Type 0
  Acyclic zero fd = ⊥
  Acyclic (suc n) fd = All (Acyclic n) (resolved fd.dependencies)

  -- `P` holds of a file and of what it imports, down to a depth.
  abbrev pub Imports : (FileDescriptor → Type 0) → ℕ → FileDescriptor → Type 0
  Imports P zero fd = P fd
  Imports P (suc n) fd = P fd × All (Imports P n) (resolved fd.dependencies)
