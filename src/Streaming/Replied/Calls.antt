-- ===== src/Streaming/Replied/Calls.antt =====
-- The operations of a server stream, by the payloads that they publish.
use nats_grpc.Base.{
  length, Bool, ◌&&◌, ◌||◌, ◌≡◌, refl, sym, ap, ◌∙◌, Option, none, some, List, [], ◌∷◌, ◌++◌,
  append-nil, inl, inr, Option-cases, if_keeps, lookup, if◌then◌else◌,
}
use nats_grpc.Wire.{Bytes, Call, Status, Request, Response, Error, Result, Result-cases, ok, err}
use nats_grpc.Stats.{RpcStats, handle_rpc}
use nats_grpc.Env.{status_proto, Env, ProtoLaws}
use nats_grpc.Metadata.{make_metadata}
use nats_grpc.ServerStream.{
  HandlerFunc, unary_func, stream_func, ServerConf, Focus, set_begun, begin_response, end_response,
  stats_begin, end_once, finalize, write_response, publish_bytes, begin_maybe, write_end, close,
}
use nats_grpc.ServerStream.Frames.{
  is_error, start_call, call_handler, process_call, process_data, end_status, process_end,
  process_ping, on_request, read_frame,
}
use nats_grpc.ServerStream.Handler.{
  take_recv, send_payload, send_begun, send_msg, recv_on, close_sent, respond_unary, return_unary,
  return_stream,
}
use nats_grpc.ServerStream.Run.{Action, finish_handler}
use nats_grpc.Streaming.Wire.{
  responses, responses-handle_rpc, response_data, data_in, data_in-snoc, sent_down,
}
use nats_grpc.Streaming.Sent.{if_ok, if_ok-nil}

module _ {M : Type 0} (env : Env M) (srv : ServerConf) where
  abbrev pub down : Focus → List Bytes
  down f = sent_down env f.log

  -- the payload of a message that could be encoded, and whose Data frame the connection took
  abbrev pub data_sent : Result Bytes → Focus → List Bytes
  data_sent (err e) f = []
  data_sent (ok b) f =
      if_ok
        (write_response env (Response.payload b) (record f {
          log = handle_rpc srv.stats_handlers f.stats_ctx (RpcStats.out_payload (length b)) f.log;
        })).1
        (b ∷ [])

  -- nothing is sent where Begin could not be
  abbrev pub begun_sent : M → Focus × Option Error → List Bytes
  begun_sent m (f, some e) = []
  begun_sent m (f, none) = data_sent (env.marshal m) f

  unfoldable pub message_sent : M → Focus → List Bytes
  message_sent m f = begun_sent m (begin_maybe env srv f)

  -- SendMsg of a handler
  unfoldable pub replied_call : Action M → List HandlerFunc → Focus → List Bytes
  replied_call (Action.send m) (h ∷ hs) f = message_sent m f
  replied_call _ _ f = []

  -- the result of a unary handler
  unfoldable pub replied_result : Result M → List HandlerFunc → Focus → List Bytes
  replied_result (ok m) (unary_func i ∷ hs) f =
      if f.cancelled
      then []
      else message_sent m (record f { stream = record f.stream { running = hs } })
  replied_result _ _ f = []

  -- the payload that an action sends
  unfoldable pub replied : Action M → List HandlerFunc → Focus → List Bytes
  replied (Action.finish r) hs f = replied_result r hs f
  replied a hs f = replied_call a hs f

  abbrev Quiet : Focus → Focus → Type 0
  Quiet f g = responses g.log ≡ responses f.log

  pub quiet :
      {xs ys : List Bytes}
      → xs ≡ ys
      → data_in response_data env.unmarshal_response xs
        ≡ data_in response_data env.unmarshal_response ys
  quiet e = ap (data_in response_data env.unmarshal_response) e

  stats_begin-Quiet : (f : Focus) → Quiet f (stats_begin srv f)
  unfolding stats_begin
  stats_begin-Quiet f =
      if_keeps (Quiet f) f.stats_begun _ _ refl (responses-handle_rpc srv.stats_handlers _ _ f.log)

  end_once-Quiet : (e : Option Error) (f : Focus) → Quiet f (end_once srv e f)
  unfolding end_once
  end_once-Quiet e f =
      if_keeps (λ l. responses l ≡ responses f.log) f.stats_begun _ _
        (responses-handle_rpc srv.stats_handlers f.stats_ctx _ f.log) refl

  pub finalize-Quiet : (e : Option Error) (f : Focus) → Quiet f (finalize srv e f)
  unfolding finalize
  finalize-Quiet e f = if_keeps (Quiet f) f.ended _ _ refl (end_once-Quiet e f)

  process_data-Quiet : (b : Bytes) (f : Focus) → Quiet f (process_data env srv b f)
  unfolding process_data
  process_data-Quiet b f =
      if_keeps (Quiet f) f.recv_open _ _
        (responses-handle_rpc srv.stats_handlers _ _ (stats_begin srv f).log ∙ stats_begin-Quiet f)
        refl

  end_status-Quiet : (o : Option Status) (f : Focus) → Quiet f (end_status env srv o f)
  unfolding end_status
  end_status-Quiet none f = refl
  end_status-Quiet (some s) f =
      if_keeps (Quiet f) (is_error (some s)) _ _ (finalize-Quiet (env.error_proto s) f) refl

  pub recv_on-Quiet :
      (quit : Bool) (bs : List Bytes) (f : Focus) → Quiet f (recv_on env srv quit bs f).0
  unfolding recv_on take_recv
  recv_on-Quiet quit [] f =
      if_keeps Keeps (f.cancelled && (quit || f.recv_open)) _ _ refl
        (if_keeps Keeps f.recv_open _ _ refl refl)
    where
      Keeps : Focus × Option (Result M) → Type 0
      Keeps r = Quiet f r.0
  recv_on-Quiet quit (b ∷ bs) f =
      if_keeps (λ (r : Focus × Option (Result M)). Quiet f r.0) (f.cancelled && quit) _ _ refl refl

  module _ (laws : ProtoLaws env) where
    publish-down :
        (r : Response) (b : Bytes) (f : Focus)
        → env.marshal_response r ≡ ok b
        → down (publish_bytes env r b f).0
          ≡ down f ++ if_ok (publish_bytes env r b f).1 (response_data (ok r))
    publish-down r b f e = elim (Option-cases (env.publish f.log f.reply b)) [
      | inl q ↦
          rw (q, publish_bytes)
            (unfold responses in
              data_in-snoc response_data env.unmarshal_response (responses f.log) b
              ∙ ap (λ q. down f ++ response_data q) (laws.unmarshal-marshal_response r b e))
      | inr (x, q) ↦ rw (q, publish_bytes) (sym (append-nil (down f)))
    ]

    write_response-down :
        (r : Response) (f : Focus)
        → down (write_response env r f).0
          ≡ down f ++ if_ok (write_response env r f).1 (response_data (ok r))
    unfolding write_response
    write_response-down r f = elim (Result-cases (env.marshal_response r)) [
      | inl (x, q) ↦ rw (q, write_response) (sym (append-nil (down f)))
      | inr (b, q) ↦ rw (q, write_response) (publish-down r b f q)
    ]

    -- a Begin, an End or a Pong carries no payload
    write_response-Quiet :
        (r : Response) (f : Focus)
        → response_data (ok r) ≡ []
        → down (write_response env r f).0 ≡ down f
    write_response-Quiet r f e =
        write_response-down r f
        ∙ ap (λ q. down f ++ if_ok (write_response env r f).1 q) e
        ∙ if_ok-nil (write_response env r f).1 (down f)

    pub begin_maybe-down : (f : Focus) → down (begin_maybe env srv f).0 ≡ down f
    unfolding begin_maybe
    begin_maybe-down f =
        if_keeps (λ (r : Focus × Option Error). down r.0 ≡ down f) f.has_begun _ _ refl
          (write_response-Quiet (begin_response srv f) (set_begun f) refl)

    close-down : (e : Option Error) (f : Focus) → down (close env srv e f) ≡ down f
    unfolding close write_end
    close-down e f =
        let g = (begin_maybe env srv f).0 in
        let r = end_response (status_proto env e) (make_metadata g.trailer) in
        quiet (finalize-Quiet e (write_response env r g).0)
        ∙ write_response-Quiet r g refl
        ∙ begin_maybe-down f

    send_payload-down :
        (m : M) (r : Result Bytes) (f : Focus)
        → down (send_payload env srv m r f) ≡ down f ++ data_sent r f
    unfolding send_payload
    send_payload-down m (err e) f = sym (append-nil (down f))
    send_payload-down m (ok b) f =
        let g = record f {
          log = handle_rpc srv.stats_handlers f.stats_ctx (RpcStats.out_payload (length b)) f.log;
        } in
        write_response-down (Response.payload b) g
        ∙ ap (λ l. l ++ if_ok (write_response env (Response.payload b) g).1 (b ∷ []))
            (quiet (responses-handle_rpc srv.stats_handlers f.stats_ctx _ f.log))

    send_begun-down :
        (m : M) (r : Focus × Option Error)
        → down (send_begun env srv m r).0 ≡ down r.0 ++ begun_sent m r
    unfolding send_begun
    send_begun-down m (f, none) = send_payload-down m (env.marshal m) f
    send_begun-down m (f, some e) = close-down (some e) f ∙ sym (append-nil (down f))

    pub send_msg-down :
        (m : M) (f : Focus) → down (send_msg env srv m f).0 ≡ down f ++ message_sent m f
    unfolding send_msg message_sent
    send_msg-down m f =
        send_begun-down m (begin_maybe env srv f)
        ∙ ap (λ l. l ++ begun_sent m (begin_maybe env srv f)) (begin_maybe-down f)

    close_sent-down : (r : Focus × Option Error) → down (close_sent env srv r) ≡ down r.0
    unfolding close_sent
    close_sent-down (f, none) = close-down none f
    close_sent-down (f, some e) = refl

    pub finish-down :
        (r : Result M) (hs : List HandlerFunc) (f : Focus)
        → down (finish_handler env srv r hs f) ≡ down f ++ replied_result r hs f
    unfolding finish_handler return_unary return_stream respond_unary replied_result
    finish-down (ok m) [] f = sym (append-nil (down f))
    finish-down (err e) [] f = sym (append-nil (down f))
    finish-down (ok m) (unary_func i ∷ hs) f = choose f.cancelled
      where
        g : Focus
        g = record f { stream = record f.stream { running = hs } }

        choose :
            (b : Bool)
            → down (if b then g else close_sent env srv (send_msg env srv m g))
              ≡ down f ++ (if b then [] else message_sent m g)
        choose Bool.true = sym (append-nil (down f))
        choose Bool.false = close_sent-down (send_msg env srv m g) ∙ send_msg-down m g
    finish-down (err e) (unary_func i ∷ hs) f =
        if_keeps (λ g. down g ≡ down f) f.cancelled _ _ refl (close-down _ _)
        ∙ sym (append-nil (down f))
    finish-down (ok m) (stream_func i ∷ hs) f =
        if_keeps (λ g. down g ≡ down f) f.cancelled _ _ refl (close-down _ _)
        ∙ sym (append-nil (down f))
    finish-down (err e) (stream_func i ∷ hs) f =
        if_keeps (λ g. down g ≡ down f) f.cancelled _ _ refl (close-down _ _)
        ∙ sym (append-nil (down f))

    call_handler-down :
        (o : Option HandlerFunc) (c : Call) (f : Focus) → down (call_handler env srv o c f) ≡ down f
    unfolding call_handler start_call
    call_handler-down none c f = close-down _ f
    call_handler-down (some h) c f = quiet (stats_begin-Quiet _)

    pub read_frame-down : (r : Result Request) (f : Focus) → down (read_frame env srv r f) ≡ down f
    unfolding read_frame on_request process_call process_end process_ping
    read_frame-down (err e) f = refl
    read_frame-down (ok Request.unset) f = refl
    read_frame-down (ok (Request.unary u)) f = refl
    read_frame-down (ok (Request.call c)) f = call_handler-down (lookup f.method srv.handlers) c _
    read_frame-down (ok (Request.payload b)) f = quiet (process_data-Quiet b f)
    read_frame-down (ok (Request.end e)) f = quiet (end_status-Quiet e.status f)
    read_frame-down (ok (Request.ping t)) f = write_response-Quiet (Response.pong t) f refl
