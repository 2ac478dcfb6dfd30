-- ===== src/Client/Answered.antt =====
-- A unary call whose request is answered: it comes down to finishReply on the response.
use nats_grpc.Base.{String, ◌≡◌, Option, List, GoMap}
use nats_grpc.Wire.{Bytes, UnaryResponse, Response, Error, Result, ok, Md}
use nats_grpc.Stats.{Context, StatsHandler, Log, tag_rpc}
use nats_grpc.Env.{Env}
use nats_grpc.Client.{
  Body, CallOption, Outcome, body_bytes, read_reply, finish_reply, on_response, on_answer,
  unary_request, send_request, send_body, with_end, invoke_on_subject,
}

module _ {M : Type 0} (env : Env M) (request : String → Bytes → Result Bytes)
    (hs : List StatsHandler) (ctx : Context) (subject method : String) (args old : Body M)
    (opts : List CallOption) (vars : GoMap Md) (log : Log) (ab qb wb : Bytes) (u : UnaryResponse)
    (args_bytes : body_bytes env args ≡ ok ab)
    (request_bytes : env.marshal_request (unary_request env hs (tag_rpc hs ctx method) method ab)
      ≡ ok qb)
    (answered : request subject qb ≡ ok wb)
    (response : env.unmarshal_response wb ≡ ok (Response.unary u)) where
  abbrev outcome : Outcome M
  outcome = invoke_on_subject env request hs ctx subject method args old opts vars log

  pub invoke-finish :
      (E : Option Error) (R : Body M)
      → ((c : Context) (v : GoMap Md) (l : Log)
          → let o =
              finish_reply env hs c u.status u.payload old v l
                (read_reply env u.status u.payload old) in
            (o.error ≡ E) × (o.reply ≡ R))
      → (outcome.error ≡ E) × (outcome.reply ≡ R)
  unfolding invoke_on_subject with_end send_body send_request on_answer on_response
  invoke-finish E R finish =
      rw
        (
          args_bytes, send_body, request_bytes, send_request, answered, on_answer, response,
          on_response,
        )
        (finish _ _ _)
