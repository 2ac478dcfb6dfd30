-- ===== src/Tests/SidecarRuns.antt =====
-- Concrete runs of the sidecar, and its properties at concrete inputs.
use nats_grpc.Base.{
  String, ◌≡◌, ◌⊎◌, refl, true, Option, none, some, List, [], ◌∷◌, ◌++◌, ◌==◌, any, nat_eq, lookup,
  if◌then◌else◌,
}
use nats_grpc.Base.Text.{◌+++◌}
use nats_grpc.Wire.{Bytes, Error, eof, canceled, ok, err, Md, status_error}
use nats_grpc.Metadata.{make_metadata}
use nats_grpc.Stats.{Log, tag_rpc}
use nats_grpc.Stats.Counts.{frames}
use nats_grpc.Client.{Client}
use nats_grpc.Sidecar.Headers.{
  first_header, is_reserved, strip_reserved_headers, lookup-strip_reserved_headers,
}
use nats_grpc.Sidecar.Egress.{LocalCall, answered, handle_egress, route, route_method, route_mode}
use nats_grpc.Sidecar.Ingress.{
  Registration, Upstream, new_registration, add_stream, unary_subscription, stream_subscription,
  unary_queue, upstream_reply, make_nrpc_metadata,
}
use nats_grpc.Sidecar.Ingress.Bridge.{bridge, egress_returns_frame, egress_returns_error}
use nats_grpc.Sidecar.Ingress.Subjects.{subjects-under-subscriptions}
use nats_grpc.Sidecar.Ingress.Teardown.{StreamAction, stream_run, torn_down_stops_stream}
use nats_grpc.Sidecar.Worker.{
  UpstreamCall, WorkerFocus, start_worker, Ready, deliver, deliver_on, offer_frame, run_round,
  round, take_frame, on_frame, new_worker,
}
use nats_grpc.Sidecar.Worker.Run.{WorkerAction, worker_step, worker_run}
use nats_grpc.Sidecar.Worker.Run.Fifo.{worker_run-in_order}
use nats_grpc.Sidecar.Worker.Run.Queue.{calls, handed, pending}
use nats_grpc.Sidecar.Worker.Run.Last.{EndsLast, worker_run-EndsLast}
use nats_grpc.Sidecar.Worker.Run.Draining.{pongs, draining_never_pongs}
use nats_grpc.Sidecar.Admin.{RegisterCall, handle_http_register}
use nats_grpc.Sidecar.Admin.Lease.{Leased, handle_http_register-Leased}
use nats_grpc.Subjects.{modern_unary_subject, modern_stream_subject, modern_unary_queue_group}
use nats_grpc.Tests.Samples.{
  unary_env, unary_env-StatusLaws, unary_env-ProtoLaws, stream_env, stats, plain,
}

-- metadata.MD.Get for names in lower case
abbrev or_nothing : Option (List String) → List String
or_nothing none = []
or_nothing (some vs) = vs

get : Md → String → List String
unfolding lookup
get md k = or_nothing (lookup k md)

abbrev quote : String → String
quote s = s

abbrev cli : Client
cli = record {
  svcid = "";
  nid = "sc";
  ping_interval = 5;
  pong_timeout = 15;
  stats_handlers = stats;
}

abbrev call : LocalCall
call = record {
  method = some "/S/M";
  metadata = some (("x-nats-svcid", "v" ∷ []) ∷ []);
  recv_msg = ok (7 ∷ []);
  send_msg = λ b. none;
}

abbrev upstream_ok : Md → String → Bytes → Upstream
upstream_ok md method b = record { header = none; trailer = none; result = ok (8 ∷ 9 ∷ []) }

abbrev upstream_err : Md → String → Bytes → Upstream
upstream_err md method b = record {
  header = none;
  trailer = none;
  result = err (status_error (plain 5));
}

egress_returns_frame_example :
    (after : Log) × (handle_egress get quote unary_env (bridge unary_env upstream_ok) cli call [] []
      ≡ answered none ((8 ∷ 9 ∷ []) ∷ []) after)
unfolding get route route_method first_header route_mode make_metadata tag_rpc
    strip_reserved_headers is_reserved upstream_reply make_nrpc_metadata
egress_returns_frame_example =
    egress_returns_frame unary_env upstream_ok unary_env-StatusLaws unary_env-ProtoLaws cli get
      quote call [] [] "v" "/S/M" (7 ∷ []) (7 ∷ []) (0 ∷ 8 ∷ 9 ∷ []) (8 ∷ 9 ∷ []) refl refl refl
      refl refl

egress_returns_error_example :
    (after : Log) × (handle_egress get quote unary_env
        (bridge unary_env upstream_err)
        cli
        call
        []
        []
      ≡ answered (some (status_error (plain 5))) [] after)
unfolding get route route_method first_header route_mode make_metadata tag_rpc
    strip_reserved_headers is_reserved upstream_reply make_nrpc_metadata
egress_returns_error_example =
    egress_returns_error unary_env upstream_err unary_env-StatusLaws unary_env-ProtoLaws cli get
      quote call [] [] "v" "/S/M" (7 ∷ []) (7 ∷ []) (5 ∷ []) (status_error (plain 5)) refl refl refl
      refl refl (λ e. cc)

abbrev registration : Registration
registration = new_registration "id" "v" "localhost:1" ("S" ∷ [])

-- a call with one payload each way, a Ping, and the upstream's end
abbrev worker_actions : List WorkerAction
worker_actions =
    WorkerAction.arrive (1 ∷ 7 ∷ [])
    ∷ WorkerAction.round Ready.frame
    ∷ WorkerAction.arrive (4 ∷ [])
    ∷ WorkerAction.round Ready.frame
    ∷ WorkerAction.pump (ok (8 ∷ []))
    ∷ WorkerAction.pump (err eof)
    ∷ WorkerAction.round Ready.upstream
    ∷ []

worker_run-EndsLast_example : EndsLast (
    frames
      (worker_run stream_env "sc" worker_actions
        (start_worker stream_env "sc" "inbox" "/S/M" 0 registration [] [])).log)
worker_run-EndsLast_example =
    worker_run-EndsLast stream_env "sc" "inbox" "/S/M" 0 registration [] worker_actions

worker_run-in_order_example :
    let start = start_worker stream_env "sc" "inbox" "/S/M" 0 registration [] [] in
    let last = worker_run stream_env "sc" worker_actions start in
    (rest : List UpstreamCall) × ((calls stream_env "sc"
          (handed stream_env "sc" worker_actions start)
        ≡ last.to_upstream ++ rest)
      × (last.running ≡ true → rest ≡ calls stream_env "sc" (pending last)))
unfolding start_worker new_worker add_stream
worker_run-in_order_example =
    worker_run-in_order stream_env "sc" "inbox" "/S/M" 0 registration [] worker_actions refl
      (tt, (tt, (tt, (tt, (tt, (tt, (tt, tt)))))))

-- the worker after the caller's half-close
abbrev drained : WorkerFocus
drained =
    worker_run stream_env "sc" (WorkerAction.arrive (2 ∷ []) ∷ WorkerAction.round Ready.frame ∷ [])
      (start_worker stream_env "sc" "inbox" "/S/M" 0 registration [] [])

abbrev later : List WorkerAction
later =
    WorkerAction.arrive (4 ∷ [])
    ∷ WorkerAction.round Ready.frame
    ∷ WorkerAction.pump (ok (8 ∷ []))
    ∷ []

draining_never_pongs_example :
    let g = worker_run stream_env "sc" later drained in
    (pongs (frames g.log) ≡ pongs (frames drained.log))
    × (g.running ≡ true)
    × (g.streams ≡ drained.streams)
unfolding worker_run worker_step deliver deliver_on offer_frame run_round round take_frame on_frame
    start_worker new_worker
draining_never_pongs_example =
    draining_never_pongs stream_env "sc" drained later refl refl refl (tt, (tt, (tt, tt)))

torn_down_stops_stream_example :
    let last = stream_run (StreamAction.tear_down ∷ []) (add_stream "inbox" 3 registration) in
    (last.torndown ≡ true → any (nat_eq 3) last.cancelled ≡ true)
    × ((lookup "inbox" last.stream_ctxs ≡ some 3) ⊎ (any (nat_eq 3) last.cancelled ≡ true))
torn_down_stops_stream_example =
    torn_down_stops_stream "inbox" 3 (StreamAction.tear_down ∷ []) registration (λ e. refl) (tt, tt)

-- a NATS connection that refuses one subject
abbrev subscribe : String → Option Error
subscribe s = if s == "nrpc.unary.v.T.>" then some canceled else none

abbrev text : Error → String
text e = "error"

subjects-under-subscriptions_example :
    ((unary_subscription "v" "S" ≡ "nrpc.unary.v.S." +++ ">")
      × (modern_unary_subject "v" "/S/M" ≡ "nrpc.unary.v.S." +++ "M"))
    × ((stream_subscription "v" "sc" "S" ≡ "nrpc.stream.v.sc.S." +++ ">")
        × (modern_stream_subject "v" "sc" "/S/M" ≡ "nrpc.stream.v.sc.S." +++ "M"))
    × (unary_queue "v" "S" ≡ modern_unary_queue_group "v" "S")
subjects-under-subscriptions_example =
    subjects-under-subscriptions "v" "sc" "S" "M" ((λ e. cc), tt) ((λ e. cc), tt)

abbrev headers : Md
headers = ("X-Nats-Mode", "unary" ∷ []) ∷ ("trace", "1" ∷ []) ∷ []

lookup-strip_reserved_headers_example :
    lookup "trace" (strip_reserved_headers headers) ≡ some ("1" ∷ [])
unfolding is_reserved lookup
lookup-strip_reserved_headers_example = lookup-strip_reserved_headers "trace" headers

abbrev registering : RegisterCall
registering = record {
  method = "POST";
  body = ok (record { svcid = "v"; upstream = "localhost:1"; services = "S" ∷ [] });
  can_flush = true;
  announce = none;
}

-- a registration that comes while the other one is held
abbrev next_one : Registration
next_one = new_registration "other" "w" "localhost:2" ("T" ∷ [])

handle_http_register-Leased_example :
    Leased "sc" []
      (("other", next_one) ∷ [])
      "v"
      ("S" ∷ [])
      (handle_http_register "sc" subscribe text quote none "id" registering [])
handle_http_register-Leased_example =
    handle_http_register-Leased "sc" subscribe text quote none "id" (("other", next_one) ∷ [])
      registering []
