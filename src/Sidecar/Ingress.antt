-- ===== src/Sidecar/Ingress.antt =====
-- Registrations and unary calls from NATS, pkg/sidecar/ingress.go: openIngress, closeIngress,
-- subscribeService, the registration's streams, onUnary, and the translation of metadata.
pub mod Subjects
pub mod Bridge
pub mod Teardown
use nats_grpc.Base.{
  ℕ, suc, String, Bool, true, false, Option, none, some, List, [], ◌∷◌, ◌++◌, ◌==◌, GoMap, insert,
  delete, if◌then◌else◌,
}
use nats_grpc.Base.Text.{◌+++◌}
use nats_grpc.Wire.{
  Bytes, Status, Metadata, UnaryRequest, UnaryResponse, Request, Response, Error, other, Result, ok,
  err, Md, status_with,
}
use nats_grpc.Wire.Code
use nats_grpc.Env.{Env}
use nats_grpc.Metadata.{make_metadata, read_metadata}

-- nrpcMetadataToGRPC and makeNrpcMetadata; the decoder leaves no nil in a map
unfoldable pub nrpc_metadata_to_grpc : Option Metadata → Md
nrpc_metadata_to_grpc none = []
nrpc_metadata_to_grpc (some m) = read_metadata m

unfoldable pub make_nrpc_metadata : Option Md → Option Metadata
make_nrpc_metadata md = make_metadata md

-- One registration. A stream's cancel function is the number of its worker.
pub record Registration : Type 0 where
  pub id : String
  pub svcid : String
  pub upstream : String
  pub services : List String
  -- the subjects of the subscriptions that are held
  pub subs : List String
  pub stream_ctxs : GoMap ℕ
  pub torndown : Bool
  -- the workers whose context has been cancelled, and whether the connection is closed
  pub cancelled : List ℕ
  pub conn_closed : Bool

unfoldable pub add_stream : String → ℕ → Registration → Registration
add_stream reply worker r =
    if r.torndown
    then record r { cancelled = worker ∷ r.cancelled }
    else record r { stream_ctxs = insert reply worker r.stream_ctxs }

unfoldable pub remove_stream : String → Registration → Registration
remove_stream reply r = record r { stream_ctxs = delete reply r.stream_ctxs }

abbrev pub workers_of : GoMap ℕ → List ℕ
workers_of [] = []
workers_of ((reply, w) ∷ m) = w ∷ workers_of m

unfoldable pub teardown : Registration → Registration
teardown r = if r.torndown then r else record r {
  torndown = true;
  stream_ctxs = [];
  subs = [];
  cancelled = workers_of r.stream_ctxs ++ r.cancelled;
  conn_closed = true;
}

unfoldable pub unary_subscription : String → String → String
unary_subscription svcid service = "nrpc.unary." +++ svcid +++ "." +++ service +++ ".>"

unfoldable pub unary_queue : String → String → String
unary_queue svcid service = "u:" +++ svcid +++ ":" +++ service

unfoldable pub stream_subscription : String → String → String → String
stream_subscription svcid nid service =
    "nrpc.stream." +++ svcid +++ "." +++ nid +++ "." +++ service +++ ".>"

abbrev pub no_services : List String → Bool
no_services [] = true
no_services (s ∷ ss) = false

abbrev pub new_registration : String → String → String → List String → Registration
new_registration id svcid upstream services = record {
  id = id;
  svcid = svcid;
  upstream = upstream;
  services = services;
  subs = [];
  stream_ctxs = [];
  torndown = false;
  cancelled = [];
  conn_closed = false;
}

-- What openIngress returns: a registration, an error, or an error after a registration that it took
-- back.
pub data Opened : Type 0 where
  opened : Registration → Opened
  failed : Error → Opened
  undone : Registration → Error → Opened

-- `subscribe` is the error of the NATS connection for a subject, `quote` the %q of fmt.
module _ (nid : String) (subscribe : String → Option Error) (text : Error → String)
    (quote : String → String) where
  abbrev pub hold : String → Registration → Registration
  hold subject r = record r { subs = r.subs ++ subject ∷ [] }

  -- the second subscription, after the first
  unfoldable pub subscribe_stream : String → Registration → Registration × Option Error
  subscribe_stream subject r = elim (subscribe subject) [
    | some e ↦ (r, some e)
    | none ↦ (hold subject r, none)
  ]

  unfoldable pub subscribe_both : String → String → Registration → Registration × Option Error
  subscribe_both unary stream r = elim (subscribe unary) [
    | some e ↦ (r, some e)
    | none ↦ subscribe_stream stream (hold unary r)
  ]

  unfoldable pub subscribe_service : String → Registration → Registration × Option Error
  subscribe_service service r =
      subscribe_both (unary_subscription r.svcid service) (stream_subscription r.svcid nid service)
        r

  -- the loop of openIngress, which stops at the first service that fails
  unfoldable pub subscribe_all : List String → Registration → Registration × Option (String × Error)
  subscribe_all [] r = (r, none)
  subscribe_all (s ∷ ss) r = elim (subscribe_service s r).1 [
    | some e ↦ ((subscribe_service s r).0, some (s, e))
    | none ↦ subscribe_all ss (subscribe_service s r).0
  ]

  unfoldable pub on_subscribed : Registration × Option (String × Error) → Opened
  on_subscribed (r, none) = opened r
  on_subscribed (r, some (s, e)) =
      undone (teardown r) (status_with Code.internal ("subscribe " +++ quote s +++ ": " +++ text e))

  -- after the checks: `dial` is the error of grpc.NewClient, `id` is randomID()
  unfoldable pub dialled : Option Error → String → String → String → List String → Opened
  dialled (some e) id svcid upstream services =
      failed (status_with Code.internal ("dial upstream " +++ quote upstream +++ ": " +++ text e))
  dialled none id svcid upstream services =
      on_subscribed (subscribe_all services (new_registration id svcid upstream services))

  unfoldable pub open_ingress : Option Error → String → String → String → List String → Opened
  open_ingress dial id svcid upstream services =
      if svcid == ""
      then failed (status_with Code.invalid_argument "svcid is required")
      else (if upstream == ""
          then failed (status_with Code.invalid_argument "upstream is required")
          else (if no_services services
              then failed (status_with Code.invalid_argument "at least one service is required")
              else dialled dial id svcid upstream services))

-- Sidecar.registrations, and closeIngress
unfoldable pub keep_registration : Registration → GoMap Registration → GoMap Registration
keep_registration r rs = insert r.id r rs

unfoldable pub close_ingress : Registration → GoMap Registration → GoMap Registration × Registration
close_ingress r rs = (delete r.id rs, teardown r)

-- The call of the upstream: its header and trailer, and the frame that it returned or its error.
pub record Upstream : Type 0 where
  pub header : Option Md
  pub trailer : Option Md
  pub result : Result Bytes

abbrev pub unary_reply : Option Metadata → Option Metadata → Status → Bytes → Response
unary_reply header trailer st b =
    Response.unary (record { header = header; trailer = trailer; status = some st; payload = b })

abbrev pub plain_status : ℕ → String → Status
plain_status code message = record { code = code; message = message; details = [] }

-- `invoke` is reg.conn.Invoke, from the outgoing metadata, the method and the frame. status.FromError
-- gives the status that status.Convert gives.
module _ {M : Type 0} (env : Env M) (invoke : Md → String → Bytes → Upstream) where
  -- the bytes of the message that answers; `none` where nothing was sent
  unfoldable pub error_reply : ℕ → String → Option Bytes
  error_reply code message =
      elim (env.marshal_response (unary_reply none none (plain_status code message) [])) [
        | ok b ↦ some b
        | err e ↦ none
      ]

  unfoldable pub upstream_reply : Option Metadata → Option Metadata → Result Bytes → Response
  upstream_reply header trailer (ok b) = unary_reply header trailer (plain_status Code.ok "") b
  upstream_reply header trailer (err e) = unary_reply header trailer (env.convert e) []

  unfoldable pub marshalled_reply : Result Bytes → Option Bytes
  marshalled_reply (ok b) = some b
  marshalled_reply (err e) = error_reply Code.internal ("marshal response: " +++ env.error_text e)

  unfoldable pub answer_upstream : Upstream → Option Bytes
  answer_upstream u = marshalled_reply (
      env.marshal_response
        (upstream_reply (make_nrpc_metadata u.header) (make_nrpc_metadata u.trailer) u.result))

  unfoldable pub on_unary_request : Result Request → Option Bytes
  on_unary_request (err e) = error_reply Code.internal ("unmarshal request: " +++ env.error_text e)
  on_unary_request (ok (Request.unary u)) =
      answer_upstream (invoke (nrpc_metadata_to_grpc u.metadata) u.method u.payload)
  on_unary_request (ok _) = error_reply Code.invalid_argument "expected UnaryRequest"

  unfoldable pub on_unary : Bytes → Option Bytes
  on_unary b = on_unary_request (env.unmarshal_request b)
