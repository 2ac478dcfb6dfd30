-- ===== src/Client/EndToEnd.antt =====
-- A unary call of the client answered by serverUnaryRequestHandler, over a link that delivers the
-- request and the response as they were sent.
use nats_grpc.Base.{
  String, ◌≡◌, ◌≢◌, refl, true, false, Option, none, some, List, [], ◌∷◌, arith, GoMap,
}
use nats_grpc.Wire.{
  Bytes, Status, UnaryRequest, Request, Response, Error, status_error, timeout, Result, ok, err, Md,
}
use nats_grpc.Stats.{Context, StatsHandler, Log, tag_rpc}
use nats_grpc.Env.{Env, StatusLaws, ProtoLaws}
use nats_grpc.Metadata.{make_metadata}
use nats_grpc.ServerStream.{Impl}
use nats_grpc.ServerStream.Frames.{is_error}
use nats_grpc.Server.Unary.{with_status, marshalled, unary_response, unary_context, handler_result}
use nats_grpc.Client.Answered.{invoke-finish}
use nats_grpc.Client.{
  Body, message, CallOption, Outcome, body_bytes, read_body, read_reply, status_error_of,
  finish_reply, unary_request, invoke_on_subject,
}

module _ {M : Type 0} (env : Env M) (server_stats : List StatsHandler)
    (handle : Impl → Context → Result M → Result M) (i : Impl) where
  -- what the server's handler for a unary request sends back
  unfoldable pub answer : Result Request → Result Bytes
  answer (ok (Request.unary u)) = env.marshal_response (
      Response.unary
        (unary_response env server_stats handle (handler_result env server_stats handle i u)))
  answer _ = err timeout

  -- the transport: the request's bytes reach the server, and its response's bytes the client
  unfoldable pub link : String → Bytes → Result Bytes
  link subject b = answer (env.unmarshal_request b)

  module _ (proto : ProtoLaws env) (hs : List StatsHandler) (ctx : Context)
      (subject method : String) (a : M) (old : Body M) (opts : List CallOption) (vars : GoMap Md)
      (log : Log) (ab qb : Bytes) (args_bytes : env.marshal a ≡ ok ab)
      (request_bytes : env.marshal_request (unary_request env hs (tag_rpc hs ctx method) method ab)
        ≡ ok qb) where
    abbrev request : UnaryRequest
    request = record {
      method = method;
      metadata = make_metadata (tag_rpc hs ctx method).outgoing;
      payload = ab;
    }

    abbrev outcome : Outcome M
    outcome = invoke_on_subject env link hs ctx subject method (message a) old opts vars log

    -- the response of the server, with its encoding
    module _ (st : Option Status) (rb wb : Bytes)
        (served : unary_response env server_stats handle
            (handle i (unary_context env server_stats handle request) (ok a))
          ≡ with_status st rb)
        (response_bytes : env.marshal_response (Response.unary (with_status st rb)) ≡ ok wb) where
      link-request : link subject qb ≡ ok wb
      unfolding link answer handler_result
      link-request = rw (
        proto.unmarshal-marshal_request _ qb request_bytes,
        answer,
        proto.unmarshal-marshal a ab args_bytes,
        served,
        response_bytes,
      )

      outcome-finish :
          (E : Option Error) (R : Body M)
          → ((c : Context) (v : GoMap Md) (l : Log)
              → let o = finish_reply env hs c st rb old v l (read_reply env st rb old) in
                (o.error ≡ E) × (o.reply ≡ R))
          → (outcome.error ≡ E) × (outcome.reply ≡ R)
      unfolding body_bytes
      outcome-finish E R finish =
          invoke-finish env link hs ctx subject method (message a) old opts vars log ab qb wb
            (with_status st rb) args_bytes request_bytes link-request
            (proto.unmarshal-marshal_response _ wb response_bytes) E R finish

-- The reply after a successful call: an empty body leaves it as it was.
abbrev pub reply_with : {M : Type 0} → Bytes → M → M → M
reply_with [] m old = old
reply_with (x ∷ b) m old = m

is_error_ok : (s : Status) → s.code ≡ 0 → is_error (some s) ≡ false
unfolding is_error
is_error_ok s e = rw e

is_error_of_ne : (s : Status) → s.code ≢ 0 → is_error (some s) ≡ true
unfolding is_error
is_error_of_ne s h = ground arith

module _ {M : Type 0} (env : Env M) (laws : StatusLaws env) (hs : List StatsHandler) (c : Context)
    (v : GoMap Md) (l : Log) where
  finish_ok :
      (st : Option Status) (rb : Bytes) (m old : M)
      → ((s : Status) → st ≡ some s → s.code ≡ 0)
      → env.unmarshal rb ≡ ok m
      → let o =
          finish_reply env hs c st rb (message old) v l (read_reply env st rb (message old)) in
        (o.error ≡ none) × (o.reply ≡ message (reply_with rb m old))
  unfolding finish_reply read_reply status_error_of read_body is_error
  finish_ok none [] m old z e = (refl, refl)
  finish_ok none (x ∷ b) m old z e = rw (e, read_body, finish_reply) (refl, refl)
  finish_ok (some s) [] m old z e = (rw (is_error_ok s (z s refl)), refl)
  finish_ok (some s) (x ∷ b) m old z e =
      rw (is_error_ok s (z s refl), e, read_body, finish_reply)
        (rw (is_error_ok s (z s refl)), refl)

  pub finish_error :
      (s : Status) (old : Body M)
      → s.code ≢ 0
      → let o = finish_reply env hs c (some s) [] old v l (read_reply env (some s) [] old) in
        (o.error ≡ some (status_error s)) × (o.reply ≡ old)
  unfolding finish_reply read_reply status_error_of
  finish_error s old h = rw (is_error_of_ne s h) (laws.error_proto_status s h, refl)

module _ {M : Type 0} (env : Env M) (laws : StatusLaws env) (proto : ProtoLaws env)
    (server_stats hs : List StatsHandler) (handle : Impl → Context → Result M → Result M) (i : Impl)
    (ctx : Context) (subject method : String) (a old : M) (opts : List CallOption) (vars : GoMap Md)
    (log : Log) (ab qb : Bytes) where
  -- The context that the server's handler gets for the call.
  abbrev pub handler_context : Context
  handler_context = unary_context env server_stats handle (record {
    method = method;
    metadata = make_metadata (tag_rpc hs ctx method).outgoing;
    payload = ab;
  })

  abbrev pub call : Outcome M
  call =
      invoke_on_subject env (link env server_stats handle i) hs ctx subject method (message a)
        (message old) opts vars log

  -- Over a link that delivers, a unary call whose arguments the server's handler answers with the
  -- message `m` returns no error and leaves `m` in the reply (or the reply as it was, where `m` is
  -- encoded as no bytes). The handler gets the client's arguments, under the context with the
  -- client's outgoing metadata.
  pub invoke_returns_response :
      (m : M) (rb wb : Bytes)
      → env.marshal a ≡ ok ab
      → env.marshal_request (unary_request env hs (tag_rpc hs ctx method) method ab) ≡ ok qb
      → handle i handler_context (ok a) ≡ ok m
      → env.marshal m ≡ ok rb
      → env.marshal_response (Response.unary (with_status env.convert_nil rb)) ≡ ok wb
      → (call.error ≡ none) × (call.reply ≡ message (reply_with rb m old))
  unfolding unary_response marshalled
  invoke_returns_response m rb wb ea eq eh em ew =
      outcome-finish env server_stats handle i proto hs ctx subject method a (message old) opts vars
        log ab qb ea eq env.convert_nil rb wb (rw (eh, unary_response, em, marshalled)) ew none
        (message (reply_with rb m old))
        (λ c v l.
          finish_ok env laws hs c v l env.convert_nil rb m old laws.convert_nil_ok
            (proto.unmarshal-marshal m rb em))

  -- Over a link that delivers, a unary call that the server's handler answers with an error returns
  -- a status error with the code, message and details that status.Convert gives that error, and
  -- leaves the reply alone, unless the code is OK.
  pub invoke_returns_error :
      (e : Error) (wb : Bytes)
      → env.marshal a ≡ ok ab
      → env.marshal_request (unary_request env hs (tag_rpc hs ctx method) method ab) ≡ ok qb
      → handle i handler_context (ok a) ≡ err e
      → (env.convert e).code ≢ 0
      → env.marshal_response (Response.unary (with_status (some (env.convert e)) [])) ≡ ok wb
      → (call.error ≡ some (status_error (env.convert e))) × (call.reply ≡ message old)
  unfolding unary_response
  invoke_returns_error e wb ea eq eh ne ew =
      outcome-finish env server_stats handle i proto hs ctx subject method a (message old) opts vars
        log ab qb ea eq (some (env.convert e)) [] wb (rw (eh, unary_response)) ew
        (some (status_error (env.convert e))) (message old)
        (λ c v l. finish_error env laws hs c v l (env.convert e) (message old) ne)
