-- ===== src/ClientStream/Run/Delivery/Stopped.antt =====
-- Once ReadMsg has stopped it makes no more rounds, over every interleaving.
use nats_grpc.Base.{
  ℕ, Bool, false, not, ◌&&◌, ◌||◌, ◌≡◌, refl, sym, ap, subst, ◌∙◌, Option, none, some, List, [],
  ◌∷◌, arith, if_keeps, if_false,
}
use nats_grpc.Wire.{Bytes, Error}
use nats_grpc.Env.{Env}
use nats_grpc.Client.{Body}
use nats_grpc.ClientStream.{ClientFocus, close_send, end_request}
use nats_grpc.ClientStream.Frames.{
  is_empty, take_recv, read_on, read_live, read_msg, recv_on, recv_live, recv_msg, ping_tick,
}
use nats_grpc.ClientStream.Run.{ClientAction, client_step, client_run}
use nats_grpc.ClientStream.Run.Delivery.Intake.{
  Inbox, watch_on-inbox, write_request-inbox, send_msg-inbox, set_last_err-inbox,
  monitor_tick-inbox,
}

reads : {m n : Inbox} → m ≡ n → m.reading ≡ n.reading
reads e = ap (λ m. m.reading) e

module _ {M : Type 0} (env : Env M) where
  abbrev Stopped : ClientFocus → Type 0
  Stopped f = f.reading ≡ false

  read_on-Stopped :
      (now : ℕ) (bs : List Bytes) (f : ClientFocus) → Stopped f → Stopped (read_on env now bs f)
  unfolding read_on
  read_on-Stopped now [] f e = ap (λ r. r && not f.closed) e
  read_on-Stopped now (b ∷ more) f e = subst Stopped (sym (if_false _ f f.reading e)) e

  read_msg-Stopped :
      (quit : Bool) (now : ℕ) (w : Option Bytes) (o : Option Error) (f : ClientFocus)
      → o ≡ f.ctx_err
      → Stopped f
      → Stopped (read_msg env quit now w f)
  unfolding read_msg
  read_msg-Stopped quit now (some b) o f i e = e
  read_msg-Stopped quit now none o f i e =
      subst (λ o. Stopped (read_live env quit now o f)) i (choose o)
    where
      choose : (o : Option Error) → Stopped (read_live env quit now o f)
      choose none = unfold read_live in read_on-Stopped now f.msgs f e
      choose (some x) =
          unfold read_live in
          if_keeps Stopped (quit || is_empty f.msgs) _ _ refl (read_on-Stopped now f.msgs f e)

  recv_reads :
      (quit : Bool) (old : Body M) (o : Option Error) (f : ClientFocus)
      → (recv_live env quit old o f).0.reading ≡ f.reading
  unfolding recv_live recv_on take_recv
  recv_reads quit old o f = ground arith

  -- Once ReadMsg has stopped it makes no more rounds.
  step-Stopped : (a : ClientAction M) (f : ClientFocus) → Stopped f → Stopped (client_step env a f)
  unfolding client_step close_send ping_tick recv_msg
  step-Stopped (ClientAction.arrive b) f e = if_keeps Stopped f.closed _ _ e e
  step-Stopped (ClientAction.read quit now) f e =
      read_msg-Stopped quit now f.blocked f.ctx_err f refl e
  step-Stopped (ClientAction.recv quit old) f e = recv_reads quit old f.ctx_err f ∙ e
  step-Stopped ClientAction.record_error f e =
      reads (set_last_err-inbox env f.last_err f.failed f) ∙ e
  step-Stopped (ClientAction.send m) f e = reads (send_msg-inbox env m f) ∙ e
  step-Stopped ClientAction.half_close f e =
      reads (write_request-inbox env (end_request env none) f) ∙ e
  step-Stopped (ClientAction.ping now) f e =
      if_keeps Stopped f.pinging _ _
        (if_keeps Stopped f.closed _ _ e (reads (write_request-inbox env _ f) ∙ e)) e
  step-Stopped (ClientAction.monitor now) f e =
      if_keeps Stopped f.monitoring _ _ (reads (monitor_tick-inbox env now f) ∙ e) e
  step-Stopped (ClientAction.cancel x) f e = e
  step-Stopped ClientAction.watch f e = reads (watch_on-inbox f.ctx_err f) ∙ e

  pub run-Stopped :
      (actions : List (ClientAction M)) (f : ClientFocus)
      → f.reading ≡ false
      → (client_run env actions f).reading ≡ false
  unfolding client_run
  run-Stopped [] f e = e
  run-Stopped (a ∷ more) f e = run-Stopped more (client_step env a f) (step-Stopped a f e)
