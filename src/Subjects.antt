-- ===== src/Subjects.antt =====
-- pkg/rpc/subjects.go, and the prefix and path of Server.RegisterService (pkg/rpc/server.go).
-- A text is a list of code points; the code replaces and compares ASCII characters only.
pub mod Routing
use Prim.Native.Char.{Char, code}
use Prim.Native.String.{[], ◌∷◌}
use nats_grpc.Base.{String, ◌==◌, nat_eq, if◌then◌else◌}
use nats_grpc.Base.Text.{◌+++◌}

-- one character of `strings.ReplaceAll(s, "/", ".")`
abbrev pub dot_of_slash : Char → Char
dot_of_slash c = if nat_eq (code c) b'/' then "." else c

unfoldable pub method_suffix : String → String
method_suffix [] = []
method_suffix (c ∷ s) = dot_of_slash c ∷ method_suffix s

unfoldable pub legacy_subject : String → String → String
legacy_subject svcid full_method =
    (if svcid == "" then "nrpc" else "nrpc" +++ "." +++ svcid) +++ method_suffix full_method

unfoldable pub modern_unary_subject : String → String → String
modern_unary_subject svcid full_method =
    "nrpc.unary" +++ "." +++ svcid +++ method_suffix full_method

unfoldable pub modern_stream_subject : String → String → String → String
modern_stream_subject svcid nid full_method =
    "nrpc.stream" +++ "." +++ svcid +++ "." +++ nid +++ method_suffix full_method

unfoldable pub modern_unary_queue_group : String → String → String
modern_unary_queue_group svcid full_service = "u:" +++ svcid +++ ":" +++ full_service

-- the prefix that RegisterService gives the subjects of a service
unfoldable pub service_prefix : String → String → String
service_prefix nid service =
    if nid == "" then "nrpc." +++ service else "nrpc." +++ nid +++ "." +++ service

-- the key under which RegisterService stores the handler of a method
unfoldable pub method_path : String → String → String → String
method_path nid service method = service_prefix nid service +++ "." +++ method

-- the subject that RegisterService subscribes to
unfoldable pub subscription : String → String → String
subscription nid service = service_prefix nid service +++ ".>"
