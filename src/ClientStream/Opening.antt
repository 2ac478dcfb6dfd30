-- ===== src/ClientStream/Opening.antt =====
-- NewStream, streamer and NewStreamWithSvcID of Client in pkg/rpc/client.go.
use nats_grpc.Base.{ℕ, String, ◌≡◌, refl, Option, none, some, GoMap, lookup, lookup-insert_self}
use nats_grpc.Wire.{Result, ok, err, Md}
use nats_grpc.Stats.{Context, Log}
use nats_grpc.Subjects.{legacy_subject, method_path}
use nats_grpc.Subjects.Routing.{HasNoSlash, grpc_path, legacy_subject-eq-method_path}
use nats_grpc.Client.{Client}
use nats_grpc.ClientStream.{ClientFocus, stream_on_subject, stream_subject}

-- What a new stream starts from: the reply subject of NewInBox, its pointer, the time, what the options
-- point to, Client.streams and the log.
pub record Opening : Type 0 where
  pub inbox : String
  pub id : ℕ
  pub now : ℕ
  pub header : Option Md
  pub trailer : Option Md
  pub streams : GoMap ℕ
  pub log : Log

abbrev pub Streamer : Type 0
Streamer = Context → String → Opening → Result ClientFocus

-- grpc.StreamClientInterceptor
abbrev pub StreamInterceptor : Type 0
StreamInterceptor = Context → String → Streamer → Opening → Result ClientFocus

abbrev open_on : Client → Context → String → String → Opening → ClientFocus
open_on c ctx subject method o =
    stream_on_subject c ctx subject method o.inbox o.id o.now o.header o.trailer o.streams o.log

unfoldable pub streamer : Client → Streamer
streamer c ctx method o = ok (open_on c ctx (legacy_subject c.svcid method) method o)

unfoldable pub new_stream : Option StreamInterceptor → Client → Streamer
new_stream (some interceptor) c ctx method o = interceptor ctx method (streamer c) o
new_stream none c ctx method o = streamer c ctx method o

unfoldable pub new_stream_with_svcid :
    Client → Context → String → String → String → Opening → Result ClientFocus
new_stream_with_svcid c ctx svcid target_nid method o =
    elim (stream_subject svcid target_nid method) [
      | err e ↦ err e
      | ok subject ↦ ok (open_on c ctx subject method o)
    ]

-- The stream that NewStream opens with no interceptor is kept in Client.streams under its inbox, and
-- it publishes on the path under which a server whose nid is the client's svcid registers the method.
pub new_stream-method_path :
    (c : Client) (ctx : Context) (service method : String) (o : Opening)
    → HasNoSlash service
    → HasNoSlash method
    → (f : ClientFocus) × (new_stream none c ctx (grpc_path service method) o ≡ ok f)
      × (f.subject ≡ method_path c.svcid service method)
      × (lookup o.inbox f.streams ≡ some o.id)
unfolding new_stream streamer stream_on_subject
new_stream-method_path c ctx service method o hs hm = (
  open_on c ctx (legacy_subject c.svcid (grpc_path service method)) (grpc_path service method) o,
  refl,
  legacy_subject-eq-method_path c.svcid service method hs hm,
  lookup-insert_self o.inbox o.id o.streams,
)
