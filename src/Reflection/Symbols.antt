-- ===== src/Reflection/Symbols.antt =====
-- The symbols of the registered services, pkg/rpc/reflection/serverreflection.go: processFile and
-- what it calls, and getSymbols. A symbol's file is the whole descriptor.
pub mod Declared
pub mod Covered
pub mod Sound
use Prim.Native.String.{compare}
use text.Mathlib.Text.{is_le}
use nats_grpc.Base.{
  if◌then◌else◌, ℕ, zero, suc, String, Bool, true, false, Option, none, some, List, [], ◌∷◌, GoMap,
}
use nats_grpc.Base.{lookup, insert}
use nats_grpc.Wire.{Bytes, Result, ok, err}
use nats_grpc.Reflection.{
  EnumDescriptor, MessageParts, MessageDescriptor, message, Messages, nil, cons, ServiceDescriptor,
  FileDescriptor, Registry, fqn, ServiceMetadata, decode_file_desc, parse_metadata, resolved,
}

-- ServerReflectionServer.symbols and the map `processed`, whose keys are a set
pub record Index : Type 0 where
  pub symbols : GoMap FileDescriptor
  pub processed : GoMap Bool

abbrev pub Symbols : Type 0
Symbols = GoMap FileDescriptor

module _ (fd : FileDescriptor) where
  unfoldable pub process_field : String → String → Symbols → Symbols
  process_field prefix name symbols = insert (fqn prefix name) fd symbols

  unfoldable pub process_fields : String → List String → Symbols → Symbols
  process_fields prefix [] symbols = symbols
  process_fields prefix (name ∷ names) symbols =
      process_fields prefix names (process_field prefix name symbols)

  unfoldable pub process_enum : String → EnumDescriptor → Symbols → Symbols
  process_enum prefix en symbols =
      process_fields (fqn prefix en.name) en.values (insert (fqn prefix en.name) fd symbols)

  unfoldable pub process_enums : String → List EnumDescriptor → Symbols → Symbols
  process_enums prefix [] symbols = symbols
  process_enums prefix (en ∷ more) symbols =
      process_enums prefix more (process_enum prefix en symbols)

  -- the parts of a message after its nested messages, in the order of the code
  unfoldable pub process_parts : String → MessageParts → Symbols → Symbols
  process_parts name parts symbols = process_fields name parts.oneofs (
      process_fields name parts.fields
        (process_fields name parts.extensions (process_enums name parts.enums symbols)))

  unfoldable mutual
    pub process_message : String → MessageDescriptor → Symbols → Symbols
    process_message prefix (message name nested parts) symbols =
        process_parts (fqn prefix name) parts
          (process_messages (fqn prefix name) nested (insert (fqn prefix name) fd symbols))

    pub process_messages : String → Messages → Symbols → Symbols
    process_messages prefix nil symbols = symbols
    process_messages prefix (cons msg more) symbols =
        process_messages prefix more (process_message prefix msg symbols)

  unfoldable pub process_service : String → ServiceDescriptor → Symbols → Symbols
  process_service prefix svc symbols =
      process_fields (fqn prefix svc.name) svc.methods (insert (fqn prefix svc.name) fd symbols)

  unfoldable pub process_services : String → List ServiceDescriptor → Symbols → Symbols
  process_services prefix [] symbols = symbols
  process_services prefix (svc ∷ more) symbols =
      process_services prefix more (process_service prefix svc symbols)

  -- the loops of processFile before its dependencies
  unfoldable pub process_symbols : Symbols → Symbols
  process_symbols symbols = process_services fd.package_name fd.services (
      process_fields fd.package_name fd.extensions (
        process_enums fd.package_name fd.enums
          (process_messages fd.package_name fd.messages symbols)))

abbrev pub marked : FileDescriptor → Index → Index
marked fd s = record {
  symbols = process_symbols fd s.symbols;
  processed = insert fd.name true s.processed;
}

-- sort.Strings of the names of the services
abbrev pub insert_sorted : String → List String → List String
insert_sorted s [] = s ∷ []
insert_sorted s (t ∷ ts) =
    let rest = insert_sorted s ts in if is_le (compare s t) then s ∷ t ∷ ts else t ∷ rest

abbrev pub sorted_names : GoMap ServiceMetadata → List String
sorted_names [] = []
sorted_names ((svc, md) ∷ more) = insert_sorted svc (sorted_names more)

-- a loop whose body may run out of fuel
abbrev pub each :
    (FileDescriptor → Index → Option Index) → List FileDescriptor → Index → Option Index
each body [] s = some s
each body (fd ∷ more) s = elim (body fd s) [ none ↦ none | some t ↦ each body more t ]

module _ {T : Type 0} (registry : Registry T) where
  -- `none` where the fuel does not last for the depth of the imports
  unfoldable pub process_file : ℕ → FileDescriptor → Index → Option Index
  process_file zero fd s = none
  process_file (suc n) fd s = elim (lookup fd.name s.processed) [
    | some u ↦ some s
    | none ↦ each (process_file n) (resolved registry fd.dependencies) (marked fd s)
  ]

  unfoldable pub process_decoded : ℕ → Result FileDescriptor → Index → Option Index
  process_decoded fuel (ok fd) s = process_file fuel fd s
  process_decoded fuel (err e) s = some s

  unfoldable pub process_metadata : ℕ → Option Bytes → Index → Option Index
  process_metadata fuel none s = some s
  process_metadata fuel (some enc) s = process_decoded fuel (decode_file_desc registry enc) s

  -- the loop of getSymbols over the services, each with its ServiceInfo.Metadata
  unfoldable pub process_registered : ℕ → GoMap ServiceMetadata → Index → Option Index
  process_registered fuel [] s = some s
  process_registered fuel ((svc, md) ∷ more) s =
      elim (process_metadata fuel (parse_metadata registry md) s) [
        | none ↦ none
        | some t ↦ process_registered fuel more t
      ]

  -- the symbols of getSymbols, which initSymbols makes once
  unfoldable pub get_symbols : ℕ → GoMap ServiceMetadata → Option Index
  get_symbols fuel services =
      process_registered fuel services (record { symbols = []; processed = [] })
