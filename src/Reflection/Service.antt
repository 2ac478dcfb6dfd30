-- ===== src/Reflection/Service.antt =====
-- ServerReflectionInfo and the functions that answer its requests,
-- pkg/rpc/reflection/serverreflection.go. `fuel` bounds the search for files.
use nats_grpc.Base.{
  ℕ, String, Bool, Option, none, some, List, [], ◌∷◌, ◌++◌, nat_eq, GoMap, lookup, if◌then◌else◌,
}
use nats_grpc.Base.Text.{◌+++◌}
use nats_grpc.Wire.{Bytes, Error, eof, other, Result, ok, err, status_with}
use nats_grpc.Wire.Code
use nats_grpc.Reflection.{ServiceMetadata, FileDescriptor, Registry, slice, decode_file_desc}
use nats_grpc.Reflection.Files.{Search, outcome, file_desc_with_dependencies}
use nats_grpc.Reflection.Symbols.{Index, get_symbols, sorted_names}

-- MessageRequest; `unset` is any other
pub data ReflectionRequest : Type 0 where
  file_by_filename file_containing_symbol all_extension_numbers_of_type : String → ReflectionRequest
  file_containing_extension : String → ℕ → ReflectionRequest
  list_services unset : ReflectionRequest

-- MessageResponse
pub data ReflectionAnswer : Type 0 where
  error_response : ℕ → String → ReflectionAnswer
  file_descriptors : List Bytes → ReflectionAnswer
  extension_numbers : String → List ℕ → ReflectionAnswer
  services : List String → ReflectionAnswer

pub record Incoming : Type 0 where
  pub host : String
  pub request : ReflectionRequest

-- ServerReflectionResponse
pub record Outgoing : Type 0 where
  pub valid_host : String
  pub original_request : Incoming
  pub answer : ReflectionAnswer

-- What stream.Recv returns, and what stream.Send then returns.
pub record Exchange : Type 0 where
  pub recv : Result Incoming
  pub send : Option Error

-- How far ServerReflectionInfo has come: it waits in Recv, or it has returned.
pub data Ended : Type 0 where
  waiting : Ended
  returned : Option Error → Ended

pub record Served : Type 0 where
  pub sent : List Outgoing
  pub ended : Ended

-- An answer of the functions below: `none` where the fuel does not last.
abbrev pub Found : Type 0
Found = Option (Result (List Bytes) × GoMap Bool)

-- An answer with sentFileDescriptors after it, or the error that ends the stream.
pub data Answered : Type 0 where
  answer_with : ReflectionAnswer → GoMap Bool → Answered
  refuse : Error → Answered

-- RegisteredExtensions(m)[ext]
abbrev pub extension_file : ℕ → List (ℕ × String) → Option String
extension_file ext [] = none
extension_file ext ((id, file) ∷ more) =
    if nat_eq id ext then some file else extension_file ext more

abbrev pub extension_ids : List (ℕ × String) → List ℕ
extension_ids [] = []
extension_ids ((id, file) ∷ more) = id ∷ extension_ids more

abbrev pub found_by : Option Search → Found
found_by none = none
found_by (some s) = some (outcome s, s.sent)

-- `names` are the sorted names of the services, and `index` the symbols, both of getSymbols
module _ {T : Type 0} (registry : Registry T) (fuel : ℕ) (names : List String) (index : Index) where
  unfoldable pub type_for_name : String → Result T
  type_for_name name = elim (registry.message_type name) [
    | none ↦ err (other ("unknown type: " +++ registry.quoted name))
    | some t ↦ ok t
  ]

  unfoldable pub file_desc_for_type : T → Result FileDescriptor
  file_desc_for_type t = elim (registry.type_descriptor t) [
    | none ↦ err (other ("failed to create message from type: " +++ registry.type_text t))
    | some enc ↦ decode_file_desc registry enc
  ]

  unfoldable pub extension_desc : ℕ → Option String → Result FileDescriptor
  extension_desc ext none = err (
      other
        ("failed to find registered extension for extension number " +++ registry.number_text ext))
  extension_desc ext (some file) = decode_file_desc registry (slice (registry.file_descriptor file))

  unfoldable pub file_desc_containing_extension : T → ℕ → Result FileDescriptor
  file_desc_containing_extension t ext = elim (registry.registered_extensions t) [
    | none ↦ err (other ("failed to create message from type: " +++ registry.type_text t))
    | some extensions ↦ extension_desc ext (extension_file ext extensions)
  ]

  unfoldable pub all_extension_numbers_for_type : T → Result (List ℕ)
  all_extension_numbers_for_type t = elim (registry.registered_extensions t) [
    | none ↦ err (other ("failed to create message from type: " +++ registry.type_text t))
    | some extensions ↦ ok (extension_ids extensions)
  ]

  unfoldable pub extension_numbers_of : Result T → Result (List ℕ)
  extension_numbers_of (err e) = err e
  extension_numbers_of (ok t) = all_extension_numbers_for_type t

  unfoldable pub all_extension_numbers_for_type_name : String → Result (List ℕ)
  all_extension_numbers_for_type_name name = extension_numbers_of (type_for_name name)

  -- a file and its dependencies, or the error of finding the file
  unfoldable pub search_from : Result FileDescriptor → GoMap Bool → Found
  search_from (err e) sent = some (err e, sent)
  search_from (ok fd) sent = found_by (file_desc_with_dependencies registry fuel fd sent)

  unfoldable pub file_desc_encoding_by_filename : String → GoMap Bool → Found
  file_desc_encoding_by_filename name sent = elim (registry.file_descriptor name) [
    | none ↦ some (err (other ("unknown file: " +++ name)), sent)
    | some enc ↦ search_from (decode_file_desc registry enc) sent
  ]

  -- the file of a type that is not in the index
  unfoldable pub type_file : String → Result T → Result FileDescriptor
  type_file name (ok t) = file_desc_for_type t
  type_file name (err e) = err (other ("unknown symbol: " +++ name))

  unfoldable pub file_desc_encoding_containing_symbol : String → GoMap Bool → Found
  file_desc_encoding_containing_symbol name sent = elim (lookup name index.symbols) [
    | some fd ↦ search_from (ok fd) sent
    | none ↦ search_from (type_file name (type_for_name name)) sent
  ]

  unfoldable pub extension_desc_of : Result T → ℕ → Result FileDescriptor
  extension_desc_of (err e) ext = err e
  extension_desc_of (ok t) ext = file_desc_containing_extension t ext

  unfoldable pub file_desc_encoding_containing_extension : String → ℕ → GoMap Bool → Found
  file_desc_encoding_containing_extension name ext sent =
      search_from (extension_desc_of (type_for_name name) ext) sent

  abbrev pub not_found : Error → ReflectionAnswer
  not_found e = error_response Code.not_found (registry.error_text e)

  unfoldable pub files_answer : Result (List Bytes) → ReflectionAnswer
  files_answer (err e) = not_found e
  files_answer (ok b) = file_descriptors b

  unfoldable pub numbers_answer : String → Result (List ℕ) → ReflectionAnswer
  numbers_answer name (err e) = not_found e
  numbers_answer name (ok numbers) = extension_numbers name numbers

  abbrev pub answer_found : Found → Option Answered
  answer_found none = none
  answer_found (some (r, sent)) = some (answer_with (files_answer r) sent)

  -- the switch over the request; `text` is the %v of the request that is none of them
  unfoldable pub answer_request : String → ReflectionRequest → GoMap Bool → Option Answered
  answer_request text (file_by_filename name) sent =
      answer_found (file_desc_encoding_by_filename name sent)
  answer_request text (file_containing_symbol name) sent =
      answer_found (file_desc_encoding_containing_symbol name sent)
  answer_request text (file_containing_extension name ext) sent =
      answer_found (file_desc_encoding_containing_extension name ext sent)
  answer_request text (all_extension_numbers_of_type name) sent =
      some (answer_with (numbers_answer name (all_extension_numbers_for_type_name name)) sent)
  answer_request text list_services sent = some (answer_with (services names) sent)
  answer_request text unset sent =
      some (refuse (status_with Code.invalid_argument ("invalid MessageRequest: " +++ text)))

  abbrev pub end_of : Error → Option Error
  end_of eof = none
  end_of e = some e

  abbrev pub served : List Outgoing → Option Error → Option Served
  served sent e = some (record { sent = sent; ended = returned e })

  abbrev pub outgoing : Incoming → ReflectionAnswer → Outgoing
  outgoing i a = record { valid_host = i.host; original_request = i; answer = a }

  -- The loop, over what the stream gives at each round: `none` where the fuel does not last.
  unfoldable pub server_reflection_info :
      (Incoming → String) → List Exchange → GoMap Bool → List Outgoing → Option Served
  server_reflection_info text [] sent out = some (record { sent = out; ended = waiting })
  server_reflection_info text (x ∷ more) sent out = elim x.recv [
    | err e ↦ served out (end_of e)
    | ok i ↦ elim (answer_request (text i) i.request sent) [
      | none ↦ none
      | some a ↦ elim a [
        | refuse e ↦ served out (some e)
        | answer_with r sent' ↦ elim x.send [
          | some e ↦ served out (some e)
          | none ↦ server_reflection_info text more sent' (out ++ outgoing i r ∷ [])
        ]
      ]
    ]
  ]

-- ServerReflectionInfo on a new stream, with the symbols that getSymbols makes of the services.
unfoldable pub serve_reflection :
    {T : Type 0}
    → Registry T
    → ℕ
    → GoMap ServiceMetadata
    → (Incoming → String)
    → List Exchange
    → Option Served
serve_reflection registry fuel registered text events =
    elim (get_symbols registry fuel registered) [
      | none ↦ none
      | some index ↦
          server_reflection_info registry fuel (sorted_names registered) index text events [] []
    ]
