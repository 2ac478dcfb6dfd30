-- ===== src/Streaming/Sent.antt =====
-- What a client stream has published is what SendMsg has accepted.
pub mod Quiet
use nats_grpc.Base.{
  ℕ, length, String, Bool, ◌&&◌, ◌||◌, ◌≡◌, refl, sym, ap, ◌∙◌, Option, none, some, List, [], ◌∷◌,
  ◌++◌, append-nil, append_assoc, GoMap, inl, inr, Option-cases, if_keeps,
}
use nats_grpc.Wire.{Bytes, Status, Request, Response, Error, Result, Result-cases, ok, err, Md}
use nats_grpc.Stats.{Context, RpcStats, handle_rpc}
use nats_grpc.Env.{Env, ProtoLaws}
use nats_grpc.Client.{Client, Body, body_bytes}
use nats_grpc.ServerStream.Frames.{is_error}
use nats_grpc.ClientStream.{
  ClientFocus, stream_on_subject, report_end, tear_down, done, write_request, publish_request_bytes,
  close_send, close, end_request,
}
use nats_grpc.ClientStream.Frames.{
  is_empty, process_begin, process_data, end_status, process_end, process_pong, on_response_frame,
  on_message, stop_reading, read_on, read_live, read_msg, set_last_err, call_maybe, send_data,
  send_msg, recv_on, recv_live, recv_msg, ping_tick, monitor_tick,
}
use nats_grpc.ClientStream.Run.{ClientAction, watch_on, client_step, client_run}
use nats_grpc.Streaming.Sent.Quiet.{
  done-Quiet, read_msg-Quiet, set_last_err-Quiet, recv_live-Quiet, watch_on-Quiet,
}
use nats_grpc.Streaming.Wire.{
  requests, requests-handle_rpc, request_data, data_in, data_in-snoc, sent_up,
}

-- what a call that returned this error has handed over
abbrev pub if_ok : Option Error → List Bytes → List Bytes
if_ok none xs = xs
if_ok (some e) xs = []

abbrev pub encoded : Result Bytes → List Bytes
encoded (ok b) = b ∷ []
encoded (err e) = []

pub if_ok-nil : (e : Option Error) (xs : List Bytes) → xs ++ if_ok e [] ≡ xs
if_ok-nil none xs = append-nil xs
if_ok-nil (some e) xs = append-nil xs

module _ {M : Type 0} (env : Env M) where
  -- the payload that an action hands over: that of a SendMsg which returns no error
  unfoldable pub handed : ClientAction M → ClientFocus → List Bytes
  handed (ClientAction.send m) f = if_ok (send_msg env m f).1 (encoded (body_bytes env m))
  handed _ f = []

  -- the payloads that SendMsg accepted, in the order of the calls
  unfoldable pub handed_all : List (ClientAction M) → ClientFocus → List Bytes
  handed_all [] f = []
  handed_all (a ∷ more) f = handed a f ++ handed_all more (client_step env a f)

  abbrev up : ClientFocus → List Bytes
  up f = sent_up env f.log

  quiet :
      {xs ys : List Bytes}
      → xs ≡ ys
      → data_in request_data env.unmarshal_request xs
        ≡ data_in request_data env.unmarshal_request ys
  quiet e = ap (data_in request_data env.unmarshal_request) e

  module _ (laws : ProtoLaws env) where
    publish-sent :
        (r : Request) (b : Bytes) (f : ClientFocus)
        → env.marshal_request r ≡ ok b
        → up (publish_request_bytes env r b f).0
          ≡ up f ++ if_ok (publish_request_bytes env r b f).1 (request_data (ok r))
    publish-sent r b f e = elim (Option-cases (env.publish f.log f.subject b)) [
      | inl q ↦
          rw (q, publish_request_bytes)
            (unfold requests in
              data_in-snoc request_data env.unmarshal_request (requests f.log) b
              ∙ ap (λ q. up f ++ request_data q) (laws.unmarshal-marshal_request r b e))
      | inr (x, q) ↦ rw (q, publish_request_bytes) (sym (append-nil (up f)))
    ]

    pub write_request-sent :
        (r : Request) (f : ClientFocus)
        → up (write_request env r f).0
          ≡ up f ++ if_ok (write_request env r f).1 (request_data (ok r))
    unfolding write_request
    write_request-sent r f = elim (Result-cases (env.marshal_request r)) [
      | inl (x, q) ↦ rw (q, write_request) (sym (append-nil (up f)))
      | inr (b, q) ↦ rw (q, write_request) (publish-sent r b f q)
    ]

    -- a Call, an End or a Ping carries no payload
    write_request-Quiet :
        (r : Request) (f : ClientFocus)
        → request_data (ok r) ≡ []
        → up (write_request env r f).0 ≡ up f
    write_request-Quiet r f e =
        write_request-sent r f
        ∙ ap (λ q. up f ++ if_ok (write_request env r f).1 q) e
        ∙ if_ok-nil (write_request env r f).1 (up f)

  module _ (laws : ProtoLaws env) where
    call_maybe-Quiet : (f : ClientFocus) → up (call_maybe env f) ≡ up f
    unfolding call_maybe
    call_maybe-Quiet f =
        if_keeps (λ g. up g ≡ up f) f.has_begun _ _ refl (write_request-Quiet laws _ _ refl)

    send_data-sent :
        (r : Result Bytes) (f : ClientFocus)
        → up (send_data env r f).0 ≡ up f ++ if_ok (send_data env r f).1 (encoded r)
    unfolding send_data
    send_data-sent (err e) f = sym (append-nil (up f))
    send_data-sent (ok b) f =
        let g = record f {
          log =
              handle_rpc f.client.stats_handlers f.stats_ctx (RpcStats.out_payload (length b))
                f.log;
        } in
        write_request-sent laws (Request.payload b) g
        ∙ ap (λ l. l ++ if_ok (write_request env (Request.payload b) g).1 (b ∷ []))
            (quiet (requests-handle_rpc f.client.stats_handlers f.stats_ctx _ f.log))

    send_msg-sent :
        (m : Body M) (f : ClientFocus)
        → up (send_msg env m f).0 ≡ up f ++ if_ok (send_msg env m f).1 (encoded (body_bytes env m))
    unfolding send_msg
    send_msg-sent m f =
        if_keeps
          (λ (r : ClientFocus × Option Error).
            up r.0 ≡ up f ++ if_ok r.1 (encoded (body_bytes env m)))
          f.closed _ _ (sym (append-nil (up f)))
          (send_data-sent (body_bytes env m) (call_maybe env f)
            ∙ ap
                (λ l.
                  l
                  ++ if_ok (send_data env (body_bytes env m) (call_maybe env f)).1
                      (encoded (body_bytes env m)))
                (call_maybe-Quiet f))

    close-Quiet : (e : Error) (f : ClientFocus) → up (close env e f) ≡ up f
    unfolding close
    close-Quiet e f =
        let g = record f { stream = record f.stream { end_err = some e } } in
        quiet (done-Quiet env (write_request env (end_request env (some e)) g).0)
        ∙ write_request-Quiet laws (end_request env (some e)) g refl

    monitor_tick-Quiet : (now : ℕ) (f : ClientFocus) → up (monitor_tick env now f) ≡ up f
    unfolding monitor_tick
    monitor_tick-Quiet now f = if_keeps (λ g. up g ≡ up f) _ _ _ (close-Quiet _ _) refl

    ping_tick-Quiet : (now : ℕ) (f : ClientFocus) → up (ping_tick env now f) ≡ up f
    unfolding ping_tick
    ping_tick-Quiet now f =
        if_keeps (λ g. up g ≡ up f) f.closed _ _ refl (write_request-Quiet laws _ _ refl)

    client_step-sent :
        (a : ClientAction M) (f : ClientFocus) → up (client_step env a f) ≡ up f ++ handed a f
    unfolding client_step handed close_send recv_msg
    client_step-sent (ClientAction.send m) f = send_msg-sent m f
    client_step-sent (ClientAction.arrive b) f =
        if_keeps (λ g. up g ≡ up f) f.closed _ _ refl refl ∙ sym (append-nil (up f))
    client_step-sent (ClientAction.read quit now) f =
        quiet (read_msg-Quiet env quit now f.blocked f) ∙ sym (append-nil (up f))
    client_step-sent ClientAction.record_error f =
        quiet (set_last_err-Quiet env f.last_err f.failed f) ∙ sym (append-nil (up f))
    client_step-sent (ClientAction.recv quit old) f =
        quiet (recv_live-Quiet env quit old f.ctx_err f) ∙ sym (append-nil (up f))
    client_step-sent ClientAction.half_close f =
        write_request-Quiet laws _ f refl ∙ sym (append-nil (up f))
    client_step-sent (ClientAction.ping now) f =
        if_keeps (λ g. up g ≡ up f) f.pinging _ _ (ping_tick-Quiet now f) refl
        ∙ sym (append-nil (up f))
    client_step-sent (ClientAction.monitor now) f =
        if_keeps (λ g. up g ≡ up f) f.monitoring _ _ (monitor_tick-Quiet now f) refl
        ∙ sym (append-nil (up f))
    client_step-sent (ClientAction.cancel e) f = sym (append-nil (up f))
    client_step-sent ClientAction.watch f =
        quiet (watch_on-Quiet env f.ctx_err f) ∙ sym (append-nil (up f))

    pub client_run-sent :
        (actions : List (ClientAction M)) (f : ClientFocus)
        → sent_up env (client_run env actions f).log ≡ sent_up env f.log ++ handed_all actions f
    unfolding client_run handed_all
    client_run-sent [] f = sym (append-nil (up f))
    client_run-sent (a ∷ more) f =
        client_run-sent more (client_step env a f)
        ∙ ap (λ l. l ++ handed_all more (client_step env a f)) (client_step-sent a f)
        ∙ append_assoc (up f) (handed a f) (handed_all more (client_step env a f))

    -- Over every interleaving from a new stream, with the encoding that protobuf promises, the payloads
    -- of the Data frames that the stream has published are the messages of the SendMsg calls that
    -- returned no error, in the order of the calls: none is doubled, none is lost.
    pub client_run_sends_in_order :
        (c : Client) (ctx : Context) (subject method inbox : String) (id now : ℕ)
        (header trailer : Option Md) (streams : GoMap ℕ) (actions : List (ClientAction M))
        → let f = stream_on_subject c ctx subject method inbox id now header trailer streams [] in
          sent_up env (client_run env actions f).log ≡ handed_all actions f
    unfolding stream_on_subject requests data_in
    client_run_sends_in_order c ctx subject method inbox id now header trailer streams actions =
        let f = stream_on_subject c ctx subject method inbox id now header trailer streams [] in
        client_run-sent actions f
        ∙ ap (λ l. l ++ handed_all actions f)
            (quiet (requests-handle_rpc c.stats_handlers f.stats_ctx RpcStats.begin []))
