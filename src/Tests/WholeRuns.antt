-- ===== src/Tests/WholeRuns.antt =====
-- A whole exchange of a client stream and a server stream at concrete inputs.
use nats_grpc.Base.{ℕ, ◌≡◌, refl, sym, ◌∙◌, true, subst, false, none, List, [], ◌∷◌, ◌++◌, lookup}
use nats_grpc.Stats.{tag_rpc, handle_rpc}
use nats_grpc.Metadata.{append_all, make_metadata, read_optional}
use nats_grpc.Client.{message, body_bytes}
use nats_grpc.ClientStream.{stream_on_subject, write_request, close_send}
use nats_grpc.ClientStream.Frames as ClientFrames
use nats_grpc.ClientStream.Frames.{
  process_begin, recv_live, set_last_err, join_begin, process_end, call_maybe, send_data, send_msg,
  read_msg, read_live, read_on, stop_reading, on_response_frame,
}
use nats_grpc.ClientStream.Run.{ClientAction, client_step, client_run}
use nats_grpc.ClientStream.Run.Delivery.{arrived, arrived_all, received_all}
use nats_grpc.ClientStream.Run.Delivery.Intake.{inbox}
use nats_grpc.ClientStream.Run.Delivery.Rounds.{expected}
use nats_grpc.ServerStream.{background, new_server_stream, stats_begin, begin_maybe, write_response}
use nats_grpc.ServerStream.Frames.{
  enqueue, send_recv, start_call, call_handler, process_call, process_data, on_request, read_frame,
  work_on, work,
}
use nats_grpc.ServerStream.Handler as Handler
use nats_grpc.ServerStream.Handler.{send_payload, send_begun}
use nats_grpc.ServerStream.Run.{Action, handler_call, while_running, step, run}
use nats_grpc.ServerStream.Run.Delivery.{accepted, accepted_all, read_all}
use nats_grpc.ServerStream.Run.Fifo.{coming}
use nats_grpc.ServerStream.Run.Fifo.Mail.{mail}
use nats_grpc.Streaming.Wire.{requests, responses, request_data, response_data, data_in}
use nats_grpc.Streaming.Sent.{handed_all}
use nats_grpc.Streaming.Replied.{replied_all}
use nats_grpc.Streaming.Whole.{EndsLast, half_closes, stops_reading, exchange_is_whole}
use nats_grpc.Tests.StreamingRuns.{client, srv, opened, made}
use nats_grpc.Tests.StreamSamples.{wire_env, wire_env-ProtoLaws}

-- the client sends two messages, half-closes, and reads the answer
abbrev calls : List (ClientAction ℕ)
calls =
    ClientAction.send (message 5)
    ∷ ClientAction.send (message 6)
    ∷ ClientAction.half_close
    ∷ ClientAction.arrive (0 ∷ [])
    ∷ ClientAction.read false 1
    ∷ ClientAction.arrive (1 ∷ 7 ∷ [])
    ∷ ClientAction.read false 1
    ∷ ClientAction.recv false (message 0)
    ∷ []

-- the server takes in all of it, and its handler reads one message and answers
abbrev serves : List (Action ℕ)
serves =
    Action.deliver false (0 ∷ [])
    ∷ Action.work false
    ∷ Action.deliver false (1 ∷ 5 ∷ [])
    ∷ Action.deliver false (1 ∷ 6 ∷ [])
    ∷ Action.work false
    ∷ Action.recv false
    ∷ Action.send 7
    ∷ Action.deliver false (2 ∷ 0 ∷ [])
    ∷ []

asked :
    requests (client_run wire_env calls opened).log
    ≡ (0 ∷ []) ∷ (1 ∷ 5 ∷ []) ∷ (1 ∷ 6 ∷ []) ∷ (2 ∷ 0 ∷ []) ∷ []
unfolding requests client_run client_step send_msg call_maybe send_data write_request close_send
    make_metadata handle_rpc body_bytes stream_on_subject tag_rpc read_msg read_live read_on
    stop_reading ClientFrames.on_message on_response_frame process_begin ClientFrames.process_data
    ClientFrames.send_recv ClientFrames.recv_msg ClientFrames.recv_on ClientFrames.take_recv
    recv_live set_last_err join_begin append_all
asked = refl

accepts :
    accepted_all wire_env srv serves made
    ≡ (0 ∷ []) ∷ (1 ∷ 5 ∷ []) ∷ (1 ∷ 6 ∷ []) ∷ (2 ∷ 0 ∷ []) ∷ []
unfolding accepted_all accepted step enqueue work work_on read_frame on_request process_call
    call_handler start_call process_data send_recv stats_begin tag_rpc handle_rpc read_optional
    new_server_stream lookup while_running handler_call Handler.recv_msg Handler.recv_on
    Handler.take_recv Handler.send_msg send_begun begin_maybe write_response send_payload
    make_metadata
accepts = refl

answered : responses (run wire_env srv serves made).log ≡ (0 ∷ []) ∷ (1 ∷ 7 ∷ []) ∷ []
unfolding responses run step enqueue work work_on read_frame on_request process_call call_handler
    start_call process_data send_recv stats_begin tag_rpc handle_rpc read_optional new_server_stream
    lookup while_running handler_call Handler.recv_msg Handler.recv_on Handler.take_recv
    Handler.send_msg send_begun begin_maybe write_response send_payload make_metadata
answered = refl

arrives : arrived_all wire_env calls opened ≡ (0 ∷ []) ∷ (1 ∷ 7 ∷ []) ∷ []
unfolding arrived_all arrived client_step send_msg call_maybe send_data write_request close_send
    make_metadata handle_rpc body_bytes stream_on_subject tag_rpc read_msg read_live read_on
    stop_reading ClientFrames.on_message on_response_frame process_begin ClientFrames.process_data
    ClientFrames.send_recv ClientFrames.recv_msg
arrives = refl

still_reading : (client_run wire_env calls opened).reading ≡ true
unfolding client_run client_step send_msg call_maybe send_data write_request close_send
    make_metadata handle_rpc body_bytes stream_on_subject tag_rpc read_msg read_live read_on
    stop_reading ClientFrames.on_message on_response_frame process_begin ClientFrames.process_data
    ClientFrames.send_recv ClientFrames.recv_msg ClientFrames.recv_on ClientFrames.take_recv
    recv_live set_last_err join_begin append_all
still_reading = refl

closes_last :
    EndsLast request_data half_closes wire_env.unmarshal_request
      ((0 ∷ []) ∷ (1 ∷ 5 ∷ []) ∷ (1 ∷ 6 ∷ []) ∷ (2 ∷ 0 ∷ []) ∷ [])
unfolding data_in
closes_last = (λ e. cc, (λ e. cc, (λ e. cc, (λ e. refl, tt))))

exchange_is_whole_example :
    (read_all wire_env srv serves made ++ coming wire_env [] (mail (run wire_env srv serves made))
      ≡ handed_all wire_env calls opened)
    × (received_all wire_env calls opened
          ++ expected wire_env [] (inbox (client_run wire_env calls opened))
        ≡ replied_all wire_env srv serves made)
exchange_is_whole_example =
    exchange_is_whole wire_env client background "nrpc.n1.S.M" "/S/M" "r" 0 0 none none srv
      (("r", 0) ∷ []) wire_env-ProtoLaws calls serves (accepts ∙ sym asked) (arrives ∙ sym answered)
      (subst (EndsLast request_data half_closes wire_env.unmarshal_request) (sym accepts)
        closes_last)
      (subst (EndsLast response_data stops_reading wire_env.unmarshal_response) (sym arrives)
        (λ e. cc, (λ e. cc, tt)))
      still_reading
