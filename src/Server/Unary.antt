-- ===== src/Server/Unary.antt =====
-- serverUnaryRequestHandler of pkg/rpc/server.go: a unary call, answered in one message.
use nats_grpc.Base.{String, Option, none, some, List, [], ◌∷◌, length}
use nats_grpc.Wire.{Bytes, Status, UnaryRequest, UnaryResponse, Response, Error, Result, ok, err}
use nats_grpc.Stats.{Context, RpcStats, StatsHandler, Frame, Effect, Log, tag_rpc, handle_rpc}
use nats_grpc.Env.{Env}
use nats_grpc.Metadata.{read_optional}
use nats_grpc.ServerStream.{Impl, incoming_context}

abbrev pub error_of {ℓ} : {A : Type ℓ} → Result A → Option Error
error_of (ok a) = none
error_of (err e) = some e

abbrev pub with_status : Option Status → Bytes → UnaryResponse
with_status st b = record { header = none; trailer = none; status = st; payload = b }

-- `handle` is the generated handler around the user's code and the interceptor: from the context and
-- what its decoder gives, the response or the error.
module _ {M : Type 0} (env : Env M) (hs : List StatsHandler)
    (handle : Impl → Context → Result M → Result M) where
  -- the response message, where the handler gave a response and it was marshalled or not
  unfoldable pub marshalled : Result Bytes → UnaryResponse
  marshalled (err e) = with_status (some (env.convert e)) []
  marshalled (ok b) = with_status env.convert_nil b

  unfoldable pub unary_response : Result M → UnaryResponse
  unary_response (err e) = with_status (some (env.convert e)) []
  unary_response (ok m) = marshalled (env.marshal m)

  -- the OutPayload event
  unfoldable pub sent_payload : Context → Result Bytes → Log → Log
  sent_payload ctx (err e) log = log
  sent_payload ctx (ok b) log = handle_rpc hs ctx (RpcStats.out_payload (length b)) log

  unfoldable pub response_stats : Context → Result M → Log → Log
  response_stats ctx (err e) log = log
  response_stats ctx (ok m) log = sent_payload ctx (env.marshal m) log

  -- msg.Respond; its error is logged
  unfoldable pub respond : String → UnaryResponse → Result Bytes → Log → Log
  respond reply u (err e) log = log
  respond reply u (ok b) log = elim (env.publish log reply b) [
    | some e ↦ log
    | none ↦ Effect.published reply "" (Frame.response (Response.unary u)) b ∷ log
  ]

  -- the context that the handler gets
  unfoldable pub unary_context : UnaryRequest → Context
  unary_context u = tag_rpc hs (incoming_context (read_optional u.metadata)) u.method

  unfoldable pub handler_result : Impl → UnaryRequest → Result M
  handler_result i u = handle i (unary_context u) (env.unmarshal u.payload)

  -- the events before the handler runs
  unfoldable pub received_stats : UnaryRequest → Log → Log
  received_stats u log =
      handle_rpc hs (unary_context u) (RpcStats.in_payload (length u.payload))
        (handle_rpc hs (unary_context u) RpcStats.begin log)

  -- The deferred End comes last, with the error of the handler.
  unfoldable pub serve_unary : Impl → String → UnaryRequest → Log → Log
  serve_unary i reply u log =
      let result = handler_result i u in
      let response = unary_response result in
      handle_rpc hs (unary_context u) (RpcStats.end (error_of result)) (
        respond reply response (env.marshal_response (Response.unary response))
          (response_stats (unary_context u) result (received_stats u log)))
