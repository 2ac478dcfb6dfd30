-- ===== src/ServerStream/Run/Delivery.antt =====
-- In-order delivery over every interleaving: what the handlers of a stream have read, and what they
-- have still to read, are together the payloads of the frames that the stream took in.
use nats_grpc.Base.{
  ℕ, String, ◌≡◌, refl, sym, ap, ◌∙◌, Bool, not, ◌&&◌, ◌||◌, some, List, [], ◌∷◌, ◌++◌,
  append_assoc, append-nil, ltb, length, inl, inr, Bool-cases, if◌then◌else◌, GoMap,
}
use nats_grpc.Wire.{Bytes}
use nats_grpc.Env.{Env}
use nats_grpc.ServerStream.{HandlerFunc, ServerConf, Focus, new_server_stream, fresh, done}
use nats_grpc.ServerStream.Frames.{enqueue, work}
use nats_grpc.ServerStream.Handler.{recv_msg, set_trailer}
use nats_grpc.ServerStream.Run.{Action, stop_error, handler_call, while_running, step, run}
use nats_grpc.ServerStream.Run.Fifo.{
  payloads, waiting, coming, taken, work_on-coming, recv_on-coming,
}
use nats_grpc.ServerStream.Run.Fifo.Mail.{
  mail, finalize-mail, finish_handler-mail, set_header-mail, send_header-mail, send_msg-mail,
}

module _ {M : Type 0} (env : Env M) (srv : ServerConf) where
  -- the frame that an action puts into the inbox
  unfoldable pub accepted : Action M → Focus → List Bytes
  accepted (Action.deliver drop b) f =
      if f.cancelled && (drop || not (ltb (length f.inbox) 8192)) then [] else b ∷ []
  accepted _ f = []

  unfoldable pub taken_while : Action M → List HandlerFunc → Focus → List Bytes
  taken_while (Action.recv quit) (h ∷ hs) f = taken env srv quit f.recv f
  taken_while _ _ f = []

  unfoldable pub accepted_all : List (Action M) → Focus → List Bytes
  accepted_all [] f = []
  accepted_all (a ∷ more) f = accepted a f ++ accepted_all more (step env srv a f)

  -- the payloads that the handlers read, in their order
  unfoldable pub read_all : List (Action M) → Focus → List Bytes
  read_all [] f = []
  read_all (a ∷ more) f = taken_while a f.running f ++ read_all more (step env srv a f)

  enqueue-coming :
      (later : List Bytes) (drop : Bool) (b : Bytes) (f : Focus)
      → coming env later (mail (enqueue drop b f))
        ≡ coming env (accepted (Action.deliver drop b) f ++ later) (mail f)
  unfolding enqueue accepted
  enqueue-coming later drop b f =
      elim (Bool-cases (f.cancelled && (drop || not (ltb (length f.inbox) 8192)))) [
        | inl e ↦ rw e refl
        | inr e ↦ rw e (
            ap
              (λ bs.
                f.recv ++ (waiting env f.blocked ++ (if f.recv_open then payloads env bs else [])))
              (append_assoc f.inbox (b ∷ []) later))
      ]

  call-coming :
      (later : List Bytes) (a : Action M) (hs : List HandlerFunc) (f : Focus)
      → taken_while a hs f ++ coming env later (mail (while_running env srv a hs f))
        ≡ coming env later (mail f)
  unfolding taken_while while_running handler_call recv_msg set_trailer
  call-coming later (Action.recv quit) [] f = refl
  call-coming later (Action.recv quit) (h ∷ hs) f = recv_on-coming env srv later quit f.recv f refl
  call-coming later (Action.set_header md) (h ∷ hs) f =
      ap (coming env later) (set_header-mail env srv md f)
  call-coming later (Action.send_header md) (h ∷ hs) f =
      ap (coming env later) (send_header-mail env srv md f)
  call-coming later (Action.send m) (h ∷ hs) f = ap (coming env later) (send_msg-mail env srv m f)
  call-coming later _ [] f = refl
  call-coming later _ (h ∷ hs) f = refl

  step-coming :
      (later : List Bytes) (a : Action M) (f : Focus)
      → taken_while a f.running f ++ coming env later (mail (step env srv a f))
        ≡ coming env (accepted a f ++ later) (mail f)
  unfolding step taken_while accepted work done
  step-coming later (Action.deliver drop b) f = enqueue-coming later drop b f
  step-coming later (Action.work quit) f =
      work_on-coming env srv later quit f.blocked f.inbox f refl refl
  step-coming later (Action.finish r) f =
      ap (coming env later) (finish_handler-mail env srv r f.running f)
  step-coming later Action.stop f = ap (coming env later) (finalize-mail srv (some stop_error) f)
  step-coming later Action.disconnect f = ap (coming env later) (finalize-mail srv f.end_err f)
  step-coming later (Action.recv q) f = call-coming later (Action.recv q) f.running f
  step-coming later (Action.set_header md) f = call-coming later (Action.set_header md) f.running f
  step-coming later (Action.send_header md) f =
      call-coming later (Action.send_header md) f.running f
  step-coming later (Action.set_trailer md) f =
      call-coming later (Action.set_trailer md) f.running f
  step-coming later (Action.send m) f = call-coming later (Action.send m) f.running f

  run-coming :
      (later : List Bytes) (actions : List (Action M)) (f : Focus)
      → read_all actions f ++ coming env later (mail (run env srv actions f))
        ≡ coming env (accepted_all actions f ++ later) (mail f)
  unfolding run read_all accepted_all
  run-coming later [] f = refl
  run-coming later (a ∷ more) f =
      append_assoc (taken_while a f.running f) (read_all more (step env srv a f)) _
      ∙ ap (λ l. taken_while a f.running f ++ l) (run-coming later more (step env srv a f))
      ∙ step-coming (accepted_all more (step env srv a f) ++ later) a f
      ∙ ap (λ l. coming env l (mail f))
          (sym (append_assoc (accepted a f) (accepted_all more (step env srv a f)) later))

  -- Over every interleaving of actions from a new stream, the payloads that the handlers have read,
  -- followed by those in the channel, by the one that the worker waits to send and by those of the
  -- frames in the inbox, are the payloads of the frames that the stream took in, in the order of
  -- the frames and up to a half-close: none is lost, none is read twice, and none overtakes.
  pub run_delivers_in_order :
      (method reply : String) (streams : GoMap ℕ) (actions : List (Action M))
      → let f = fresh method reply streams in
        read_all actions f ++ coming env [] (mail (run env srv actions f))
        ≡ payloads env (accepted_all actions f)
  run_delivers_in_order method reply streams actions =
      run-coming [] actions (fresh method reply streams)
      ∙ (unfold new_server_stream in
          ap (payloads env) (append-nil (accepted_all actions (fresh method reply streams))))
