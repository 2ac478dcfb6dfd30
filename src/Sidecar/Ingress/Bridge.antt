-- ===== src/Sidecar/Ingress/Bridge.antt =====
-- Two sidecars: a call of an application, over the NATS request of its sidecar, to the upstream of the
-- other sidecar and back.
use nats_grpc.Base.{
  String, ◌≡◌, ◌≢◌, refl, ap, ◌∙◌, false, Option, none, some, List, [], ◌∷◌, ◌==◌, arith, GoMap,
  if_false,
}
use nats_grpc.Wire.{Bytes, Response, Error, status_error, timeout, Result, ok, err, Md}
use nats_grpc.Wire.Code
use nats_grpc.Stats.{Context, StatsHandler, Log, tag_rpc}
use nats_grpc.Env.{Env, StatusLaws, ProtoLaws}
use nats_grpc.Metadata.{make_metadata}
use nats_grpc.Subjects.{modern_unary_subject}
use nats_grpc.ServerStream.Frames.{is_error}
use nats_grpc.Client.{
  Client, raw, Outcome, body_bytes, read_body, read_reply, status_error_of, finish_reply,
  unary_request, invoke_on_subject, invoke_with_svcid,
}
use nats_grpc.Client.Answered.{invoke-finish}
use nats_grpc.Client.EndToEnd.{finish_error}
use nats_grpc.Pump.{PumpEvent}
use nats_grpc.Sidecar.Egress.{
  LocalCall, answered, to_service, route_stream, route_mode, route_method, route, egress_context,
  sent_frames, reply_local, invoke_local, dispatch_unary_egress, on_route, handle_egress,
}
use nats_grpc.Sidecar.Ingress.{
  nrpc_metadata_to_grpc, make_nrpc_metadata, Upstream, plain_status, upstream_reply,
  marshalled_reply, answer_upstream, on_unary_request, on_unary,
}

-- What the requester gets for what the other side sent: without an answer the request times out.
abbrev pub requested : Option Bytes → Result Bytes
requested none = err timeout
requested (some b) = ok b

module _ {M : Type 0} (env : Env M) (invoke : Md → String → Bytes → Upstream) where
  -- the NATS request of one sidecar, answered by onUnary of the other
  unfoldable pub bridge : String → Bytes → Result Bytes
  bridge subject b = requested (on_unary env invoke b)

  finish_raw :
      (hs : List StatsHandler) (c : Context) (v : GoMap Md) (l : Log) (b : Bytes)
      → let st = some (plain_status Code.ok "") in
        let o = finish_reply env hs c st b (raw []) v l (read_reply env st b (raw [])) in
        (o.error ≡ none) × (o.reply ≡ raw b)
  unfolding finish_reply read_reply status_error_of read_body is_error
  finish_raw hs c v l [] = (refl, refl)
  finish_raw hs c v l (x ∷ b) = (refl, refl)

  module _ (laws : StatusLaws env) (proto : ProtoLaws env) (cli : Client)
      (get : Md → String → List String) (quote : String → String) (call : LocalCall)
      (events : List PumpEvent) (log : Log) (svcid method : String) (b qb wb : Bytes) where
    -- the upstream's answer, to the frame of the application and its metadata without x-nats- headers
    abbrev pub upstream : Upstream
    upstream =
        invoke
          (nrpc_metadata_to_grpc (
            make_metadata
              (tag_rpc cli.stats_handlers (egress_context get quote call) method).outgoing))
          method b

    abbrev reply : Response
    reply =
        upstream_reply env invoke (make_nrpc_metadata upstream.header)
          (make_nrpc_metadata upstream.trailer) upstream.result

    bridge-request :
        env.marshal_request (
            unary_request env cli.stats_handlers
              (tag_rpc cli.stats_handlers (egress_context get quote call) method)
              method
              b)
          ≡ ok qb
        → env.marshal_response reply ≡ ok wb
        → (subject : String) → bridge subject qb ≡ ok wb
    unfolding bridge on_unary on_unary_request answer_upstream marshalled_reply
    bridge-request eq ew subject =
        rw (proto.unmarshal-marshal_request _ qb eq, on_unary_request, ew, marshalled_reply)

    abbrev invoked : Outcome M
    invoked =
        invoke_on_subject env bridge cli.stats_handlers (egress_context get quote call)
          (modern_unary_subject svcid method) method (raw b) (raw []) [] [] log

    route-svcid : route get quote call ≡ to_service svcid method → (svcid == "") ≡ false
    unfolding route route_method route_mode route_stream
    route-svcid h = ground arith

    -- the call comes down to the client's unary call
    handled :
        route get quote call ≡ to_service svcid method
        → call.recv_msg ≡ ok b
        → handle_egress get quote env bridge cli call events log
          ≡ reply_local get quote env bridge cli call invoked
    unfolding handle_egress on_route dispatch_unary_egress invoke_local invoke_with_svcid
    handled r e =
        ap (on_route get quote env bridge cli call events log) r
        ∙ ap (invoke_local get quote env bridge cli call svcid method log) e
        ∙ ap (reply_local get quote env bridge cli call)
            (if_false _ _ (svcid == "") (route-svcid r))

    reply_local-ok :
        (o : Outcome M) (out : Bytes)
        → (o.error ≡ none) × (o.reply ≡ raw out)
        → reply_local get quote env bridge cli call o
          ≡ answered
              (call.send_msg out)
              (sent_frames get quote env bridge cli (call.send_msg out) out)
              o.log
    unfolding reply_local
    reply_local-ok o out (e, p) = rw (e, reply_local, p) refl

    reply_local-err :
        (o : Outcome M) (x : Error)
        → o.error ≡ some x
        → reply_local get quote env bridge cli call o ≡ answered (some x) [] o.log
    unfolding reply_local
    reply_local-err o x e = rw (e, reply_local) refl

    -- Over a NATS request that reaches the other sidecar and comes back, a unary call that is routed to
    -- a service gets the frame that the upstream returns: it is sent to the application as it is, empty
    -- or not, and the call returns what that send returns. The upstream gets the application's frame,
    -- and its metadata without the x-nats- headers.
    pub egress_returns_frame :
        (out : Bytes)
        → route get quote call ≡ to_service svcid method
        → call.recv_msg ≡ ok b
        → env.marshal_request (
            unary_request env cli.stats_handlers
              (tag_rpc cli.stats_handlers (egress_context get quote call) method)
              method
              b)
          ≡ ok qb
        → env.marshal_response reply ≡ ok wb
        → upstream.result ≡ ok out
        → (after : Log) × (handle_egress get quote env bridge cli call events log
            ≡ answered
                (call.send_msg out)
                (sent_frames get quote env bridge cli (call.send_msg out) out)
                after)
    unfolding upstream_reply body_bytes
    egress_returns_frame out r e eq ew eu = (
      invoked.log,
      handled r e
          ∙ reply_local-ok invoked out (
              invoke-finish env bridge cli.stats_handlers (egress_context get quote call)
                (modern_unary_subject svcid method) method (raw b) (raw []) [] [] log b qb wb
                (record {
                  header = make_nrpc_metadata upstream.header;
                  trailer = make_nrpc_metadata upstream.trailer;
                  status = some (plain_status Code.ok "");
                  payload = out;
                })
                refl eq (bridge-request eq ew _)
                (proto.unmarshal-marshal_response _ wb ew
                  ∙ ap
                      (λ x. ok (
                        upstream_reply env invoke (make_nrpc_metadata upstream.header)
                          (make_nrpc_metadata upstream.trailer) x))
                      eu)
                none (raw out) (λ c v l. finish_raw cli.stats_handlers c v l out)),
    )

    -- Over the same request, a unary call that the upstream answers with an error of a code other than
    -- OK returns the status error with the code, message and details that status.Convert gives that
    -- error, and sends no frame to the application.
    pub egress_returns_error :
        (x : Error)
        → route get quote call ≡ to_service svcid method
        → call.recv_msg ≡ ok b
        → env.marshal_request (
            unary_request env cli.stats_handlers
              (tag_rpc cli.stats_handlers (egress_context get quote call) method)
              method
              b)
          ≡ ok qb
        → env.marshal_response reply ≡ ok wb
        → upstream.result ≡ err x
        → (env.convert x).code ≢ 0
        → (after : Log) × (handle_egress get quote env bridge cli call events log
            ≡ answered (some (status_error (env.convert x))) [] after)
    unfolding upstream_reply body_bytes
    egress_returns_error x r e eq ew eu ne = (
      invoked.log,
      handled r e
          ∙ reply_local-err invoked (status_error (env.convert x))
              (invoke-finish env bridge cli.stats_handlers (egress_context get quote call)
                (modern_unary_subject svcid method) method (raw b) (raw []) [] [] log b qb wb
                (record {
                  header = make_nrpc_metadata upstream.header;
                  trailer = make_nrpc_metadata upstream.trailer;
                  status = some (env.convert x);
                  payload = [];
                })
                refl eq (bridge-request eq ew _)
                (proto.unmarshal-marshal_response _ wb ew
                  ∙ ap
                      (λ y. ok (
                        upstream_reply env invoke (make_nrpc_metadata upstream.header)
                          (make_nrpc_metadata upstream.trailer) y))
                      eu)
                (some (status_error (env.convert x))) (raw [])
                (λ c v l.
                  finish_error env laws cli.stats_handlers c v l (env.convert x) (raw []) ne)).0,
    )
