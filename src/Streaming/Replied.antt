-- ===== src/Streaming/Replied.antt =====
-- What a server stream has published is what its handlers could send.
pub mod Calls
use nats_grpc.Base.{
  ℕ, ltb, length, String, Bool, not, ◌&&◌, ◌||◌, ◌≡◌, refl, sym, ap, ◌∙◌, Option, none, some, List,
  [], ◌∷◌, ◌++◌, append-nil, append_assoc, GoMap, inl, inr, Option-cases, if_keeps, lookup,
  if◌then◌else◌,
}
use nats_grpc.Wire.{
  Bytes, Call, Status, Request, Response, Error, Result, Result-cases, ok, err, Md,
}
use nats_grpc.Stats.{RpcStats, handle_rpc}
use nats_grpc.Env.{Env, ProtoLaws}
use nats_grpc.Metadata.{make_metadata}
use nats_grpc.ServerStream.{
  HandlerFunc, unary_func, stream_func, ServerConf, Focus, new_server_stream, fresh, set_begun,
  begin_response, end_response, stats_begin, end_once, finalize, done, write_response,
  publish_bytes, begin_maybe, write_end, close,
}
use nats_grpc.ServerStream.Frames.{
  enqueue, send_recv, is_error, start_call, call_handler, process_call, process_data, end_status,
  process_end, process_ping, on_request, read_frame, work_on, work,
}
use nats_grpc.ServerStream.Handler.{
  take_recv, set_header, begin_header, send_header, set_trailer, send_payload, send_begun, send_msg,
  recv_on, recv_msg, close_sent, respond_unary, return_unary, return_stream,
}
use nats_grpc.ServerStream.Run.{
  Action, stop_error, error_of, finish_handler, handler_call, while_running, step, run,
}
use nats_grpc.Streaming.Wire.{
  responses, responses-handle_rpc, response_data, data_in, data_in-snoc, sent_down,
}
use nats_grpc.Streaming.Sent.{if_ok, if_ok-nil}
use nats_grpc.Streaming.Replied.Calls.{
  replied, replied_call, down, quiet, finalize-Quiet, recv_on-Quiet, begin_maybe-down,
  send_msg-down, finish-down, read_frame-down,
}

module _ {M : Type 0} (env : Env M) (srv : ServerConf) where
  unfoldable pub replied_all : List (Action M) → Focus → List Bytes
  replied_all [] f = []
  replied_all (a ∷ more) f = replied env srv a f.running f ++ replied_all more (step env srv a f)

  module _ (laws : ProtoLaws env) where
    work_on-down :
        (quit : Bool) (o : Option Bytes) (bs : List Bytes) (f : Focus)
        → down env srv (work_on env srv quit o bs f) ≡ down env srv f
    unfolding work_on
    work_on-down quit (some b) bs f = refl
    work_on-down quit none [] f = refl
    work_on-down quit none (b ∷ bs) f = if_keeps Keeps (not f.working) _ _ refl (
        if_keeps Keeps (f.cancelled && quit) _ _ refl
          (read_frame-down env srv laws (env.unmarshal_request b) _))
      where
        Keeps : Focus → Type 0
        Keeps g = down env srv g ≡ down env srv f

    set_header-down :
        (md : Option Md) (f : Focus) → down env srv (set_header env srv md f).0 ≡ down env srv f
    unfolding set_header
    set_header-down md f =
        if_keeps (λ (r : Focus × Option Error). down env srv r.0 ≡ down env srv f) f.has_begun _ _
          refl refl

    begin_header-down :
        (r : Focus × Option Error) → down env srv (begin_header env srv r).0 ≡ down env srv r.0
    unfolding begin_header
    begin_header-down (f, none) = begin_maybe-down env srv laws f
    begin_header-down (f, some e) = refl

    -- a handler's call
    running-down :
        (a : Action M) (hs : List HandlerFunc) (f : Focus)
        → down env srv (while_running env srv a hs f)
          ≡ down env srv f ++ replied_call env srv a hs f
    unfolding while_running handler_call send_header set_trailer recv_msg replied_call
    running-down (Action.send m) [] f = sym (append-nil (down env srv f))
    running-down (Action.send m) (h ∷ hs) f = send_msg-down env srv laws m f
    running-down (Action.recv quit) (h ∷ hs) f =
        quiet env srv (recv_on-Quiet env srv quit f.recv f) ∙ sym (append-nil (down env srv f))
    running-down (Action.set_header md) (h ∷ hs) f =
        set_header-down md f ∙ sym (append-nil (down env srv f))
    running-down (Action.send_header md) (h ∷ hs) f =
        begin_header-down (set_header env srv md f)
        ∙ set_header-down md f
        ∙ sym (append-nil (down env srv f))
    running-down _ [] f = sym (append-nil (down env srv f))
    running-down _ (h ∷ hs) f = sym (append-nil (down env srv f))

    step-down :
        (a : Action M) (f : Focus)
        → down env srv (step env srv a f) ≡ down env srv f ++ replied env srv a f.running f
    unfolding step work done replied replied_call enqueue
    step-down (Action.deliver drop b) f =
        if_keeps (λ g. down env srv g ≡ down env srv f)
          (f.cancelled && (drop || not (ltb (length f.inbox) 8192))) _ _ refl refl
        ∙ sym (append-nil (down env srv f))
    step-down (Action.work quit) f =
        work_on-down quit f.blocked f.inbox f ∙ sym (append-nil (down env srv f))
    step-down (Action.finish r) f = finish-down env srv laws r f.running f
    step-down Action.stop f =
        quiet env srv (finalize-Quiet env srv (some stop_error) f)
        ∙ sym (append-nil (down env srv f))
    step-down Action.disconnect f =
        quiet env srv (finalize-Quiet env srv f.end_err f) ∙ sym (append-nil (down env srv f))
    step-down (Action.recv q) f = running-down (Action.recv q) f.running f
    step-down (Action.set_header md) f = running-down (Action.set_header md) f.running f
    step-down (Action.send_header md) f = running-down (Action.send_header md) f.running f
    step-down (Action.set_trailer md) f = running-down (Action.set_trailer md) f.running f
    step-down (Action.send m) f = running-down (Action.send m) f.running f

    pub run-down :
        (actions : List (Action M)) (f : Focus)
        → down env srv (run env srv actions f) ≡ down env srv f ++ replied_all actions f
    unfolding run replied_all
    run-down [] f = sym (append-nil (down env srv f))
    run-down (a ∷ more) f =
        run-down more (step env srv a f)
        ∙ ap (λ l. l ++ replied_all more (step env srv a f)) (step-down a f)
        ∙ append_assoc (down env srv f) (replied env srv a f.running f)
            (replied_all more (step env srv a f))

    -- Over every interleaving from a new stream, with the encoding that protobuf promises, the payloads
    -- of the Data frames that the stream has published are, in the order of the calls, the messages
    -- of SendMsg and of the results of unary handlers, where the Begin before it and its own Data
    -- frame could be encoded and the connection took them.
    pub run_replies_in_order :
        (method reply : String) (streams : GoMap ℕ) (actions : List (Action M))
        → let g = fresh method reply streams in
          sent_down env (run env srv actions g).log ≡ replied_all actions g
    unfolding responses data_in
    run_replies_in_order method reply streams actions =
        run-down actions (fresh method reply streams)
