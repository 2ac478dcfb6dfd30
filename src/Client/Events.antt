-- ===== src/Client/Events.antt =====
-- The stats events of a unary call, on every way that it can end.
use nats_grpc.Base.{
  ℕ, ◌+◌, String, ◌≡◌, refl, ap, ◌∙◌, Bool, false, Option, List, [], ◌∷◌, arith, GoMap,
  if◌then◌else◌,
}
use nats_grpc.Wire.{Bytes, Status, Response, Result, ok, err, Md}
use nats_grpc.Stats.{Context, RpcStats, StatsHandler, Log, tag_rpc, handle_rpc}
use nats_grpc.Stats.Counts.{is_begin, is_end, seen, registered, seen-handle_rpc}
use nats_grpc.Env.{Env}
use nats_grpc.Client.{
  Body, CallOption, Outcome, body_bytes, body_stats, finish_reply, on_response, on_answer,
  unary_request, send_request, send_body, with_end, invoke_on_subject,
}

module _ {M : Type 0} (env : Env M) (hs : List StatsHandler) (ctx : Context) (h : String)
    (p : RpcStats → Bool) (no_in : (n : ℕ) → p (RpcStats.in_payload n) ≡ false)
    (no_out : (n : ℕ) → p (RpcStats.out_payload n) ≡ false) where
  seen-payload :
      (ev : RpcStats) (log : Log)
      → p ev ≡ false
      → seen h p (handle_rpc hs ctx ev log) ≡ seen h p log
  seen-payload ev log e = seen-handle_rpc h p hs ctx ev log ∙ rw e (omega arith)

  seen-body_stats : (b : Bytes) (log : Log) → seen h p (body_stats env hs ctx b log) ≡ seen h p log
  unfolding body_stats
  seen-body_stats [] log = refl
  seen-body_stats (x ∷ b) log = seen-payload _ log (no_in _)

  seen-finish_reply :
      (st : Option Status) (b : Bytes) (old : Body M) (vars : GoMap Md) (log : Log)
      (r : Result (Body M))
      → seen h p (finish_reply env hs ctx st b old vars log r).log ≡ seen h p log
  unfolding finish_reply
  seen-finish_reply st b old vars log (err e) = refl
  seen-finish_reply st b old vars log (ok reply) = seen-body_stats b log

  seen-on_response :
      (opts : List CallOption) (old : Body M) (vars : GoMap Md) (log : Log) (r : Result Response)
      → seen h p (on_response env hs ctx opts old vars log r).log ≡ seen h p log
  unfolding on_response
  seen-on_response opts old vars log (ok (Response.unary u)) =
      seen-finish_reply u.status u.payload old _ log _
  seen-on_response opts old vars log (err e) = refl
  seen-on_response opts old vars log _ = refl

  seen-on_answer :
      (opts : List CallOption) (old : Body M) (vars : GoMap Md) (log : Log) (r : Result Bytes)
      → seen h p (on_answer env hs ctx opts old vars log r).log ≡ seen h p log
  unfolding on_answer
  seen-on_answer opts old vars log (err e) = refl
  seen-on_answer opts old vars log (ok b) =
      seen-on_response opts old vars log (env.unmarshal_response b)

  seen-send_request :
      (request : String → Bytes → Result Bytes) (subject : String) (opts : List CallOption)
      (old : Body M) (vars : GoMap Md) (log : Log) (r : Result Bytes)
      → seen h p (send_request env hs ctx request subject opts old vars log r).log ≡ seen h p log
  unfolding send_request
  seen-send_request request subject opts old vars log (err e) = refl
  seen-send_request request subject opts old vars log (ok b) =
      seen-on_answer opts old vars log (request subject b)

  seen-send_body :
      (request : String → Bytes → Result Bytes) (subject method : String) (opts : List CallOption)
      (old : Body M) (vars : GoMap Md) (log : Log) (r : Result Bytes)
      → seen h p (send_body env hs ctx request subject method opts old vars log r).log
        ≡ seen h p log
  unfolding send_body
  seen-send_body request subject method opts old vars log (err e) = refl
  seen-send_body request subject method opts old vars log (ok b) =
      seen-send_request request subject opts old vars _
        (env.marshal_request (unary_request env hs ctx method b))
      ∙ seen-payload _ log (no_out _)

  seen-invoke_on_subject :
      (request : String → Bytes → Result Bytes) (untagged : Context) (subject method : String)
      (args reply : Body M) (opts : List CallOption) (vars : GoMap Md) (log : Log)
      → tag_rpc hs untagged method ≡ ctx
      → let o = invoke_on_subject env request hs untagged subject method args reply opts vars log in
        seen h p o.log
        ≡ (if p (RpcStats.end o.rpc_err) then registered h hs else 0)
          + ((if p RpcStats.begin then registered h hs else 0) + seen h p log)
  unfolding invoke_on_subject with_end
  seen-invoke_on_subject request untagged subject method args reply opts vars log e = rw (
    e,
    seen-handle_rpc,
    seen-send_body request subject method opts reply vars (handle_rpc hs ctx RpcStats.begin log)
        (body_bytes env args),
    seen-handle_rpc,
  )

-- On every return of a unary call rpcErr is the error that is returned.
module _ {M : Type 0} (env : Env M) (hs : List StatsHandler) (ctx : Context) where
  Told : Outcome M → Type 0
  Told o = o.rpc_err ≡ o.error

  finish_reply-Told :
      (st : Option Status) (b : Bytes) (old : Body M) (vars : GoMap Md) (log : Log)
      (r : Result (Body M))
      → Told (finish_reply env hs ctx st b old vars log r)
  unfolding finish_reply Told
  finish_reply-Told st b old vars log (err e) = refl
  finish_reply-Told st b old vars log (ok reply) = refl

  on_response-Told :
      (opts : List CallOption) (old : Body M) (vars : GoMap Md) (log : Log) (r : Result Response)
      → Told (on_response env hs ctx opts old vars log r)
  unfolding on_response Told
  on_response-Told opts old vars log (ok (Response.unary u)) =
      finish_reply-Told u.status u.payload old _ log _
  on_response-Told opts old vars log (err e) = refl
  on_response-Told opts old vars log _ = refl

  on_answer-Told :
      (opts : List CallOption) (old : Body M) (vars : GoMap Md) (log : Log) (r : Result Bytes)
      → Told (on_answer env hs ctx opts old vars log r)
  unfolding on_answer Told
  on_answer-Told opts old vars log (err e) = refl
  on_answer-Told opts old vars log (ok b) =
      on_response-Told opts old vars log (env.unmarshal_response b)

  send_request-Told :
      (request : String → Bytes → Result Bytes) (subject : String) (opts : List CallOption)
      (old : Body M) (vars : GoMap Md) (log : Log) (r : Result Bytes)
      → Told (send_request env hs ctx request subject opts old vars log r)
  unfolding send_request Told
  send_request-Told request subject opts old vars log (err e) = refl
  send_request-Told request subject opts old vars log (ok b) =
      on_answer-Told opts old vars log (request subject b)

  send_body-Told :
      (request : String → Bytes → Result Bytes) (subject method : String) (opts : List CallOption)
      (old : Body M) (vars : GoMap Md) (log : Log) (r : Result Bytes)
      → Told (send_body env hs ctx request subject method opts old vars log r)
  unfolding send_body Told
  send_body-Told request subject method opts old vars log (err e) = refl
  send_body-Told request subject method opts old vars log (ok b) =
      send_request-Told request subject opts old vars _
        (env.marshal_request (unary_request env hs ctx method b))

module _ {M : Type 0} (env : Env M) (request : String → Bytes → Result Bytes) where
  -- On every way that a unary call ends, each stats handler has seen one more Begin and one more End
  -- for each registration, whatever the transport answers, and End is the last event and carries the
  -- error that the call returns.
  pub invoke_events :
      (hs : List StatsHandler) (ctx : Context) (subject method : String) (args reply : Body M)
      (opts : List CallOption) (vars : GoMap Md) (log : Log) (h : String)
      → let o = invoke_on_subject env request hs ctx subject method args reply opts vars log in
        (seen h is_begin o.log ≡ registered h hs + seen h is_begin log)
        × (seen h is_end o.log ≡ registered h hs + seen h is_end log)
        × ((before : Log) × (o.log
              ≡ handle_rpc hs (tag_rpc hs ctx method) (RpcStats.end o.error) before))
  unfolding invoke_on_subject with_end Told
  invoke_events hs ctx subject method args reply opts vars log h = (
    omega (arith, count is_begin (λ n. refl) (λ n. refl)),
    omega (arith, count is_end (λ n. refl) (λ n. refl)),
    (
      (send_body env hs tagged request subject method opts reply vars started
          (body_bytes env args)).log,
      ap
          (λ e.
            handle_rpc hs tagged (RpcStats.end e)
              (send_body env hs tagged request subject method opts reply vars started
                (body_bytes env args)).log)
          (send_body-Told env hs tagged request subject method opts reply vars started
            (body_bytes env args)),
    ),
  )
    where
      tagged : Context
      tagged = tag_rpc hs ctx method

      started : Log
      started = handle_rpc hs tagged RpcStats.begin log

      count :
          (p : RpcStats → Bool)
          → ((n : ℕ) → p (RpcStats.in_payload n) ≡ false)
          → ((n : ℕ) → p (RpcStats.out_payload n) ≡ false)
          → let o = invoke_on_subject env request hs ctx subject method args reply opts vars log in
            seen h p o.log
            ≡ (if p (RpcStats.end o.rpc_err) then registered h hs else 0)
              + ((if p RpcStats.begin then registered h hs else 0) + seen h p log)
      count p no_in no_out =
          seen-invoke_on_subject env hs (tag_rpc hs ctx method) h p no_in no_out request ctx subject
            method args reply opts vars log refl
