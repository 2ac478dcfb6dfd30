-- ===== src/Tests/ReflectionRuns.antt =====
-- Concrete runs of the reflection service, and its properties at concrete inputs. A file is encoded
-- as one byte, its place in a registry of two files, of which the first imports the second.
use nats_grpc.Base.{
  insert, ℕ, String, ◌≡◌, refl, Option, none, some, List, [], ◌∷◌, ◌==◌, nat_eq, map, GoMap, lookup,
  if◌then◌else◌,
}
use nats_grpc.Wire.{Bytes, Error, Result, ok, err}
use nats_grpc.Reflection.{
  MessageParts, message, nil, cons, FileDescriptor, Registry, ServiceMetadata, file_name, resolved,
  decode_file_desc, decompress, unmarshalled_file, parse_metadata, fqn,
}
use nats_grpc.Reflection.Files.{
  search_files, visit, encoded, is_sent, mark_sent, file_desc_with_dependencies,
}
use nats_grpc.Reflection.Symbols.{
  process_registered, process_metadata, process_decoded, process_file, process_messages,
  process_enums, process_fields, process_services, process_service, process_enum, process_field,
  process_parts, process_symbols, get_symbols,
}
use nats_grpc.Reflection.Service.{
  file_desc_encoding_by_filename, search_from, file_desc_encoding_containing_symbol, files_answer,
  type_file, type_for_name, Exchange, Served, ReflectionAnswer, services, list_services,
  file_by_filename, serve_reflection, server_reflection_info, file_containing_symbol,
  answer_request, file_descriptors,
}

abbrev no_parts : MessageParts
no_parts = record { enums = []; extensions = []; fields = "f" ∷ []; oneofs = [] }

-- message R of package p, with a nested message N
abbrev root : FileDescriptor
root = record {
  name = "root.proto";
  package_name = "p";
  messages = cons (message "R" (cons (message "N" nil no_parts) nil) no_parts) nil;
  enums = [];
  extensions = [];
  services = record { name = "S"; methods = "M" ∷ [] } ∷ [];
  dependencies = "leaf.proto" ∷ [];
}

abbrev leaf : FileDescriptor
leaf = record {
  name = "leaf.proto";
  package_name = "";
  messages = nil;
  enums = record { name = "E"; values = "V" ∷ [] } ∷ [];
  extensions = [];
  services = [];
  dependencies = [];
}

abbrev bytes_of : String → Option Bytes
bytes_of name =
    if name == "root.proto"
    then some (0 ∷ [])
    else (if name == "leaf.proto" then some (1 ∷ []) else none)

abbrev file_of : Bytes → Result FileDescriptor
file_of [] = err (Error.other "empty")
file_of (k ∷ b) = ok (if nat_eq k 0 then root else leaf)

abbrev encode : FileDescriptor → Bytes
encode fd = if fd.name == "root.proto" then 0 ∷ [] else 1 ∷ []

abbrev registry : Registry ℕ
registry = record {
  file_descriptor = bytes_of;
  gunzip = λ b. ok b;
  unmarshal_file = file_of;
  marshal_file = λ fd. ok (encode fd);
  message_type = λ name. none;
  type_descriptor = λ t. none;
  registered_extensions = λ t. none;
  error_text = λ e. "error";
  type_text = λ t. "type";
  quoted = λ s. s;
  number_text = λ n. "number";
}

abbrev registered : GoMap ServiceMetadata
registered = ("p.S", file_name "root.proto") ∷ []

some_injective : {g h : FileDescriptor} → some g ≡ some h → g ≡ h
some_injective e = cc

-- the names of the services come sorted, and a file that has been sent comes again only where it is
-- asked for
abbrev asked : List Exchange
asked =
    record { recv = ok (record { host = "h"; request = list_services }); send = none }
    ∷ record {
      recv = ok (record { host = "h"; request = file_by_filename "root.proto" });
      send = none;
    }
    ∷ record {
      recv = ok (record { host = "h"; request = file_containing_symbol "E.V" });
      send = none;
    }
    ∷ record { recv = err Error.eof; send = none }
    ∷ []

two_services : GoMap ServiceMetadata
two_services = ("q.S", file_name "none.proto") ∷ ("p.S", file_name "root.proto") ∷ []

answers : Option Served → List ReflectionAnswer
answers none = []
answers (some s) = map (λ o. o.answer) s.sent

serves :
    answers (serve_reflection registry 3 two_services (λ i. "") asked)
    ≡ services ("p.S" ∷ "q.S" ∷ [])
      ∷ file_descriptors ((0 ∷ []) ∷ (1 ∷ []) ∷ [])
      ∷ file_descriptors ((1 ∷ []) ∷ [])
      ∷ []
unfolding answers two_services serve_reflection server_reflection_info get_symbols
    process_registered process_metadata process_decoded process_file parse_metadata decode_file_desc
    decompress unmarshalled_file resolved lookup insert answer_request
    file_desc_encoding_by_filename search_from file_desc_with_dependencies search_files visit
    encoded is_sent mark_sent file_desc_encoding_containing_symbol files_answer type_file
    type_for_name process_symbols process_messages process_enums process_fields process_services
    process_service process_enum process_field process_parts fqn
serves = refl
