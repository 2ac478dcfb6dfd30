-- ===== src/Tests/ClientRuns.antt =====
-- Concrete runs of the client stream: tests, and the properties at concrete inputs.
use nats_grpc.Base.{
  ℕ, nat_eq, lookup, if◌then◌else◌, ◌≡◌, ◌≢◌, refl, true, false, none, some, List, [], ◌∷◌,
}
use nats_grpc.Wire.{Error, Bytes, Response, Result, ok, err, status_with, End}
use nats_grpc.Wire.Code
use nats_grpc.Env.{Env}
use nats_grpc.Client.{Client, message, read_body}
use nats_grpc.Stats.{StatsHandler}
use nats_grpc.ServerStream.{background}
use nats_grpc.ServerStream.Frames.{is_error}
use nats_grpc.ClientStream.{new_client_stream, keep_stream, ClientFocus, stream_on_subject}
use nats_grpc.ClientStream.Closing.{ClientNode, close_client, close_client_stream}
use nats_grpc.ClientStream.Closing.Snapshot.{Told, close_client-finishes}
use nats_grpc.ClientStream.Frames.{process_end, recv_msg}
use nats_grpc.ClientStream.Run.{ClientAction, client_run}
use nats_grpc.ClientStream.Run.Teardown.{Torn, Entry, client_run-Teardown}
use nats_grpc.ClientStream.Run.Heartbeat.{ticks, silent_server_closes}
use nats_grpc.ClientStream.Run.Completion.{recv_after_end}
use nats_grpc.Tests.Samples.{stream_env, bad, stats, plain}

-- the frames of a server: Data, and End with the code that the byte after it gives
abbrev end_frame : Bytes → Result Response
end_frame [] = bad
end_frame (c ∷ b) = ok (Response.end (record { status = some (plain c); trailer = none }))

abbrev decode_server_frame : Bytes → Result Response
decode_server_frame [] = bad
decode_server_frame (k ∷ b) = if nat_eq k 1 then ok (Response.payload b) else end_frame b

abbrev client_env : Env ℕ
client_env = record stream_env {
  marshal_request = λ r. ok [];
  unmarshal_response = decode_server_frame;
}

abbrev otel : StatsHandler
otel = record { name = "otel"; tag = λ ctx m. ctx }

abbrev client : Client
client = record {
  svcid = "v";
  nid = "c";
  ping_interval = 5;
  pong_timeout = 15;
  stats_handlers = stats;
}

abbrev opened : ClientFocus
opened = stream_on_subject client background "nrpc.n1.S.M" "/S/M" "inbox" 0 0 none none [] []

-- a call whose answer is one payload and an End
abbrev calls : List (ClientAction ℕ)
calls =
    ClientAction.send (message 4)
    ∷ ClientAction.half_close
    ∷ ClientAction.arrive (1 ∷ 7 ∷ [])
    ∷ ClientAction.arrive (2 ∷ 0 ∷ [])
    ∷ ClientAction.read false 1
    ∷ ClientAction.read false 1
    ∷ ClientAction.watch
    ∷ ClientAction.recv false (message 0)
    ∷ []

-- the context ends before the stream is inserted
abbrev early : List (ClientAction ℕ)
early = ClientAction.cancel Error.canceled ∷ ClientAction.watch ∷ []

client_run-Teardown_example :
    let f =
      client_run client_env early
        (new_client_stream client background "nrpc.n1.S.M" "/S/M" "inbox" 0 none none [] []) in
    let g = client_run client_env calls (keep_stream 0 f) in
    Torn "otel" g × Entry f.closed 0 g.closed g.reply g.streams
client_run-Teardown_example =
    client_run-Teardown client_env client background "nrpc.n1.S.M" "/S/M" "inbox" 0 0 none none []
      early calls "otel"

-- With 5 s and 15 s the fourth tick closes the stream, after 20 s.
silent_server_closes_example : (ticks client_env 4 opened).closed ≡ true
unfolding stream_on_subject
silent_server_closes_example = silent_server_closes client_env 4 opened refl refl

-- a payload waits when End comes
abbrev waiting : ClientFocus
waiting = record opened {
  stream = record opened.stream {
    recv = (7 ∷ []) ∷ [];
    closed = false;
    ctx_err = none;
    last_err = none;
  };
}

abbrev ok_end : End
ok_end = record { status = none; trailer = none }

recv_after_end_example :
    let g = (process_end client_env ok_end waiting).0 in
    ((recv_msg client_env false (message 0) g).1 ≡ some (ok (message 7)))
    × ((recv_msg client_env true (message 0) g).1
        ≡ some (err (status_with Code.canceled "context canceled")))
unfolding is_error read_body
recv_after_end_example = recv_after_end client_env (message 0) ok_end waiting refl refl refl refl

-- a client with a shorter heartbeat, a stats handler and an interceptor

-- a client with two streams, one of which is kept under "inbox"
abbrev two_streams : ClientNode
two_streams = record {
  client = client;
  streams = ("inbox", 0) ∷ ("other", 1) ∷ [];
  objects = λ id. opened.stream;
  log = [];
}

close_client-finishes_example :
    let m = close_client two_streams in
    (((m.objects 0).closed ≡ true)
      × ((m.objects 0).ctx_err ≢ none)
      × ((m.objects 0).ended ≡ true)
      × Told (m.objects 0) m.log
      × (lookup "inbox" m.streams ≡ none))
    × (close_client_stream "v" two_streams ≡ (m, true))
unfolding lookup stream_on_subject
close_client-finishes_example = close_client-finishes "inbox" 0 two_streams refl refl refl refl
