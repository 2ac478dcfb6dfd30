-- ===== src/Tests/Runs.antt =====
-- Concrete runs of the server stream and of registration: tests, and the properties at concrete inputs.
use nats_grpc.Base.{ℕ, ◌≡◌, refl, true, false, Option, none, some, List, [], ◌∷◌, ◌++◌, lookup}
use nats_grpc.Wire.{Msg, Error, err}
use nats_grpc.Stats.{handle_rpc, tag_rpc}
use nats_grpc.Stats.Counts.{is_end, seen, registered}
use nats_grpc.Metadata.{read_optional}
use nats_grpc.Subjects.{legacy_subject, service_prefix}
use nats_grpc.ServerStream.{
  HandlerFunc, stream_func, ServerConf, Focus, fresh, new_server_stream, stats_begin,
  write_response, begin_maybe,
}
use nats_grpc.ServerStream.Frames.{
  enqueue, send_recv, is_error, start_call, call_handler, process_call, process_data, end_status,
  process_end, on_request, read_frame, work_on, work,
}
use nats_grpc.ServerStream.Handler.{
  take_recv, send_payload, send_begun, send_msg, recv_on, recv_msg,
}
use nats_grpc.ServerStream.Run.{Action, handler_call, while_running, step, run}
use nats_grpc.ServerStream.Run.Stable.{core}
use nats_grpc.ServerStream.Run.Lifecycle.{Lifecycle, run-Lifecycle}
use nats_grpc.ServerStream.Run.Ending.{IsClosed, finish_ends}
use nats_grpc.ServerStream.Run.Order.{IsReliable, Begun, run-Begun}
use nats_grpc.ServerStream.Run.Fifo.{payloads, coming, taken}
use nats_grpc.ServerStream.Run.Fifo.Mail.{mail}
use nats_grpc.ServerStream.Run.Delivery.{accepted_all, taken_while, read_all, run_delivers_in_order}
use nats_grpc.Server.{
  ServiceDesc, Server, Node, conf, focus, on_message, stop, register, add_methods, add_streams,
  register_service,
}
use nats_grpc.Server.Registration.{Kept, register_service-lookup}
use nats_grpc.Server.Dispatch.{late_frame_leaks}
use nats_grpc.Server.Shutdown.{stop_ends_streams}
use nats_grpc.Tests.Samples.{stream_env, sample_impl, stats}

-- a server stream: a Call, two Data frames, a half-close, and a handler that reads both payloads

abbrev srv : ServerConf
srv = record {
  nid = "n1";
  handlers = ("nrpc.n1.S.M", stream_func sample_impl) ∷ [];
  stats_handlers = stats;
}

abbrev exchange : List (Action ℕ)
exchange =
    Action.deliver false (0 ∷ [])
    ∷ Action.deliver false (1 ∷ 5 ∷ [])
    ∷ Action.work false
    ∷ Action.deliver false (1 ∷ 6 ∷ [])
    ∷ Action.work false
    ∷ Action.work false
    ∷ Action.recv false
    ∷ Action.send 7
    ∷ Action.deliver false (2 ∷ [])
    ∷ Action.work false
    ∷ Action.recv false
    ∷ []

abbrev started : Focus
started = fresh "nrpc.n1.S.M" "r" (("r", 0) ∷ [])

reads_both : read_all stream_env srv exchange started ≡ (5 ∷ []) ∷ (6 ∷ []) ∷ []
unfolding read_all taken_while taken step enqueue work work_on read_frame on_request process_call
    call_handler start_call process_data process_end end_status is_error send_recv while_running
    handler_call recv_msg recv_on take_recv send_msg send_begun begin_maybe write_response
    send_payload stats_begin tag_rpc handle_rpc read_optional new_server_stream lookup
reads_both = refl

run_delivers_in_order_example :
    read_all stream_env srv exchange started
      ++ coming stream_env [] (mail (run stream_env srv exchange started))
    ≡ payloads stream_env (accepted_all stream_env srv exchange started)
run_delivers_in_order_example =
    run_delivers_in_order stream_env srv "nrpc.n1.S.M" "r" (("r", 0) ∷ []) exchange

run-Lifecycle_example : Lifecycle "otel" stats (core (run stream_env srv exchange started))
run-Lifecycle_example =
    run-Lifecycle stream_env srv "otel" "nrpc.n1.S.M" "r" (("r", 0) ∷ []) exchange

stream_env-IsReliable : IsReliable stream_env
stream_env-IsReliable = record { encodes = λ r. ([], refl); accepts = λ log s b. refl }

run-Begun_example : Begun (core (run stream_env srv exchange started))
run-Begun_example =
    run-Begun stream_env stream_env-IsReliable srv "nrpc.n1.S.M" "r" (("r", 0) ∷ []) exchange

-- a stream that has begun, and whose handler returns an error
abbrev begun : Focus
begun = record started {
  stream = record started.stream {
    cancelled = false;
    ended = false;
    stats_begun = true;
    running = stream_func sample_impl ∷ [];
  };
}

finish_ends_example :
    let g = step stream_env srv (Action.finish (err Error.eof)) begun in
    IsClosed g × (seen "otel" is_end g.log ≡ registered "otel" stats)
unfolding seen
finish_ends_example =
    finish_ends stream_env srv (err Error.eof) (stream_func sample_impl) [] begun "otel" refl refl
      refl refl refl

-- a half-close for a stream that the server does not know, and a Data frame after it

abbrev node : Node
node = record {
  server = record {
    nid = "n1";
    handlers = [];
    unary_handlers = [];
    subs = [];
    services = [];
    stats_handlers = stats;
  };
  streams = [];
  objects = λ id. new_server_stream "" "";
  next = 0;
  tasks = [];
  log = [];
}

abbrev half_close : Msg
half_close = record { subject = "nrpc.n1.S.M"; reply = "r"; payload = 2 ∷ [] }

abbrev late_actions : List (Action ℕ)
late_actions = Action.work false ∷ Action.deliver false (1 ∷ 5 ∷ []) ∷ Action.work false ∷ []

closes : is_error none ≡ false
unfolding is_error
closes = refl

late_frame_leaks_example :
    let m = on_message stream_env false half_close node in
    let f = run stream_env (conf m.server) late_actions (focus 0 m) in
    (lookup "r" f.streams ≡ some 0) × (f.running ≡ []) × (f.cancelled ≡ false)
unfolding lookup
late_frame_leaks_example =
    late_frame_leaks stream_env false half_close node late_actions refl closes tt
      (tt, (tt, (tt, tt)))

-- registration of a service with one method and one stream

abbrev chat : ServiceDesc
chat = record {
  service_name = "Chat";
  methods = "Send" ∷ [];
  streams = record { stream_name = "Watch"; server_streams = true; client_streams = false } ∷ [];
  metadata = "chat.proto";
}

abbrev the_server : Option Server → Server
the_server none = node.server
the_server (some s) = s

abbrev registered_chat : Server
registered_chat = the_server (register_service chat node.server)

chat_is_registered : register_service chat node.server ≡ some registered_chat
unfolding register_service register add_streams add_methods lookup
chat_is_registered = refl

abbrev watch : HandlerFunc
watch = stream_func (record { service = "Chat"; method = "Watch" })

register_service-lookup_example :
    (lookup (legacy_subject "n1" "/Chat/Watch") registered_chat.handlers ≡ some watch)
    × (lookup (legacy_subject "n1" "/Chat/Watch") registered_chat.unary_handlers ≡ none)
    × Kept "nrpc.n1.S.M" "S" node.server registered_chat
unfolding legacy_subject lookup service_prefix
register_service-lookup_example =
    register_service-lookup chat node.server registered_chat "Watch" "nrpc.n1.S.M" "S"
      chat_is_registered ((λ e. cc), ((λ e. cc), ((λ e. cc), ((λ e. cc), tt))))
      ((λ e. cc), ((λ e. cc), ((λ e. cc), ((λ e. cc), ((λ e. cc), tt))))) refl refl refl

-- a server with one stream

abbrev busy : Node
busy = record node {
  streams = ("r", 0) ∷ [];
  objects = λ id. new_server_stream "nrpc.n1.S.M" "r";
  next = 1;
}

stop_ends_streams_example :
    let m = stop busy in
    ((m.objects 0).cancelled ≡ true) × ((m.objects 0).ended ≡ true) × (lookup "r" m.streams ≡ none)
unfolding lookup new_server_stream
stop_ends_streams_example = stop_ends_streams "r" 0 busy refl refl
