-- ===== src/Tests/StreamingRuns.antt =====
-- A client stream and a server stream at concrete inputs.
use nats_grpc.Base.{
  ℕ, ◌≡◌, refl, ap, sym, ◌∙◌, arith, true, false, none, some, List, [], ◌∷◌, ◌++◌, lookup,
}
use nats_grpc.Wire.{Bytes, Metadata, ok}
use nats_grpc.Stats.{tag_rpc, handle_rpc}
use nats_grpc.Env.{Env}
use nats_grpc.Metadata.{append_all, make_metadata, read_optional}
use nats_grpc.Client.{Client, message, body_bytes}
use nats_grpc.ClientStream.{ClientFocus, stream_on_subject, write_request, close_send}
use nats_grpc.ClientStream.Calls.{trailer}
use nats_grpc.ClientStream.Frames as ClientFrames
use nats_grpc.ClientStream.Frames.{
  ping_tick, monitor_tick, process_begin, process_end, call_maybe, send_data, send_msg, read_msg,
  read_live, read_on, stop_reading, on_response_frame,
}
use nats_grpc.ClientStream.Run.{ClientAction, client_step, client_run}
use nats_grpc.ClientStream.Run.Blocked.{blocked_reader_closes}
use nats_grpc.ClientStream.Run.Delivery.{
  arrived, arrived_all, received_all, client_run_delivers_in_order,
}
use nats_grpc.ClientStream.Run.Delivery.Intake.{inbox}
use nats_grpc.ClientStream.Run.Delivery.Rounds.{Starts, incoming, expected}
use nats_grpc.ClientStream.Run.Order.{IsReliable, Called, client_run-Called}
use nats_grpc.ClientStream.Run.Stable.{core}
use nats_grpc.ClientStream.Run.Trailer.{late_trailer_is_lost}
use nats_grpc.ServerStream.{
  ServerConf, Focus, stream_func, background, fresh, new_server_stream, stats_begin, begin_maybe,
  write_response,
}
use nats_grpc.ServerStream.Frames.{
  enqueue, send_recv, start_call, call_handler, process_call, process_data, on_request, read_frame,
  work_on, work,
}
use nats_grpc.ServerStream.Handler as Handler
use nats_grpc.ServerStream.Handler.{send_payload, send_begun}
use nats_grpc.ServerStream.Run.{Action, handler_call, while_running, step, run}
use nats_grpc.ServerStream.Run.Delivery.{accepted, accepted_all, read_all}
use nats_grpc.ServerStream.Run.Fifo.{coming}
use nats_grpc.ServerStream.Run.Fifo.Mail.{mail}
use nats_grpc.Streaming.Wire.{requests, responses}
use nats_grpc.Streaming.Sent.{handed_all}
use nats_grpc.Streaming.Replied.{replied_all}
use nats_grpc.Streaming.Uplink.{uplink_in_order}
use nats_grpc.Streaming.Downlink.{downlink_in_order}
use nats_grpc.Tests.Samples.{sample_impl, stats}
use nats_grpc.Tests.StreamSamples.{wire_env, wire_env-ProtoLaws}

abbrev pub client : Client
client = record {
  svcid = "v";
  nid = "c";
  ping_interval = 5;
  pong_timeout = 15;
  stats_handlers = stats;
}

abbrev pub srv : ServerConf
srv = record {
  nid = "n1";
  handlers = ("nrpc.n1.S.M", stream_func sample_impl) ∷ [];
  stats_handlers = stats;
}

abbrev pub opened : ClientFocus
opened = stream_on_subject client background "nrpc.n1.S.M" "/S/M" "r" 0 0 none none [] []

abbrev pub made : Focus
made = fresh "nrpc.n1.S.M" "r" (("r", 0) ∷ [])

-- the client sends two messages and half-closes
abbrev asks : List (ClientAction ℕ)
asks = ClientAction.send (message 5) ∷ ClientAction.send (message 6) ∷ ClientAction.half_close ∷ []

-- the server takes in the Call and both messages, and its handler reads one and answers
abbrev answers : List (Action ℕ)
answers =
    Action.deliver false (0 ∷ [])
    ∷ Action.work false
    ∷ Action.deliver false (1 ∷ 5 ∷ [])
    ∷ Action.deliver false (1 ∷ 6 ∷ [])
    ∷ Action.work false
    ∷ Action.recv false
    ∷ Action.send 7
    ∷ []

-- the client takes in the Begin and the answer, and reads it
abbrev reads : List (ClientAction ℕ)
reads =
    ClientAction.arrive (0 ∷ [])
    ∷ ClientAction.arrive (1 ∷ 7 ∷ [])
    ∷ ClientAction.read false 1
    ∷ ClientAction.read false 1
    ∷ ClientAction.recv false (message 0)
    ∷ []

asked :
    requests (client_run wire_env asks opened).log
    ≡ (0 ∷ []) ∷ (1 ∷ 5 ∷ []) ∷ (1 ∷ 6 ∷ []) ∷ (2 ∷ 0 ∷ []) ∷ []
unfolding requests client_run client_step send_msg call_maybe send_data write_request close_send
    make_metadata handle_rpc body_bytes stream_on_subject tag_rpc
asked = refl

accepts : accepted_all wire_env srv answers made ≡ (0 ∷ []) ∷ (1 ∷ 5 ∷ []) ∷ (1 ∷ 6 ∷ []) ∷ []
unfolding accepted_all accepted step enqueue work work_on read_frame on_request process_call
    call_handler start_call process_data send_recv stats_begin tag_rpc handle_rpc read_optional
    new_server_stream lookup while_running handler_call Handler.recv_msg Handler.recv_on
    Handler.take_recv Handler.send_msg send_begun begin_maybe write_response send_payload
accepts = refl

answered : responses (run wire_env srv answers made).log ≡ (0 ∷ []) ∷ (1 ∷ 7 ∷ []) ∷ []
unfolding responses run step enqueue work work_on read_frame on_request process_call call_handler
    start_call process_data send_recv stats_begin tag_rpc handle_rpc read_optional new_server_stream
    lookup while_running handler_call Handler.recv_msg Handler.recv_on Handler.take_recv
    Handler.send_msg send_begun begin_maybe write_response send_payload make_metadata
answered = refl

arrives : arrived_all wire_env reads opened ≡ (0 ∷ []) ∷ (1 ∷ 7 ∷ []) ∷ []
unfolding arrived_all arrived client_step read_msg stream_on_subject tag_rpc handle_rpc read_live
    read_on stop_reading ClientFrames.on_message on_response_frame process_begin
    ClientFrames.process_data ClientFrames.send_recv ClientFrames.recv_msg
arrives = refl

uplink_in_order_example :
    (rest : List Bytes) × (read_all wire_env srv answers made
        ++ (coming wire_env [] (mail (run wire_env srv answers made)) ++ rest)
      ≡ handed_all wire_env asks opened)
uplink_in_order_example =
    uplink_in_order wire_env client background "nrpc.n1.S.M" "/S/M" "r" 0 0 none none srv
      (("r", 0) ∷ []) wire_env-ProtoLaws asks answers ((2 ∷ 0 ∷ []) ∷ [])
      (ap (λ l. l ++ (2 ∷ 0 ∷ []) ∷ []) accepts ∙ sym asked)

downlink_in_order_example :
    (rest : List Bytes) × (received_all wire_env reads opened
        ++ (expected wire_env [] (inbox (client_run wire_env reads opened)) ++ rest)
      ≡ replied_all wire_env srv answers made)
downlink_in_order_example =
    downlink_in_order wire_env client background "nrpc.n1.S.M" "/S/M" "r" 0 0 none none srv
      (("r", 0) ∷ []) wire_env-ProtoLaws reads answers [] (ap (λ l. l ++ []) arrives ∙ sym answered)

client_run_delivers_in_order_example :
    Starts
      (client_run wire_env reads opened).reading
      (received_all wire_env reads opened
        ++ expected wire_env [] (inbox (client_run wire_env reads opened)))
      (incoming wire_env (arrived_all wire_env reads opened))
client_run_delivers_in_order_example =
    client_run_delivers_in_order wire_env client background "nrpc.n1.S.M" "/S/M" "r" 0 0 none none
      [] reads

-- every request is encoded as no bytes
abbrev reliable_env : Env ℕ
reliable_env = record wire_env { marshal_request = λ r. ok [] }

reliable_env-IsReliable : IsReliable reliable_env
reliable_env-IsReliable = record { encodes = λ r. ([], refl); accepts = λ log s b. refl }

client_run-Called_example : Called (core (client_run reliable_env asks opened))
client_run-Called_example =
    client_run-Called reliable_env reliable_env-IsReliable client background "nrpc.n1.S.M" "/S/M"
      "r" 0 0 none none [] asks

-- a trailer of the server's End
abbrev sent : Metadata
sent = record { md = ("k", record { values = "v" ∷ [] }) ∷ [] }

late_trailer_is_lost_example :
    ((trailer (client_run wire_env reads opened)).1 ≡ [])
    × ((trailer
          (process_end wire_env
            (record { status = none; trailer = some sent })
            (trailer opened).0).0).1
        ≡ append_all wire_env (trailer opened).1 sent.md)
late_trailer_is_lost_example =
    late_trailer_is_lost wire_env client background "nrpc.n1.S.M" "/S/M" "r" 0 0 none [] reads
      opened none sent

-- a payload fills the channel, and ReadMsg waits with the next one
abbrev stuck : ClientFocus
stuck = record opened {
  stream = record opened.stream { recv = (5 ∷ []) ∷ []; blocked = some (6 ∷ []) };
}

-- the server answers a Ping in time
abbrev answered_ping : List (ClientAction ℕ)
answered_ping =
    ClientAction.ping 5
    ∷ ClientAction.arrive (3 ∷ 5 ∷ [])
    ∷ ClientAction.read false 5
    ∷ ClientAction.monitor 15
    ∷ []

still_monitoring : (client_run wire_env answered_ping stuck).monitoring ≡ true
unfolding client_run client_step stream_on_subject ping_tick write_request read_msg monitor_tick
still_monitoring = refl

blocked_reader_closes_example :
    let g = client_run wire_env answered_ping stuck in
    (g.blocked ≡ some (6 ∷ []))
    × (g.last_pong ≡ stuck.last_pong)
    × ((client_step wire_env (ClientAction.monitor 20) g).closed ≡ true)
unfolding stream_on_subject
blocked_reader_closes_example =
    blocked_reader_closes wire_env (6 ∷ []) answered_ping stuck 20 refl (tt, (tt, (tt, (tt, tt))))
      (omega arith) still_monitoring
