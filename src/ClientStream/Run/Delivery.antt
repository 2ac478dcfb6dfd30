-- ===== src/ClientStream/Run/Delivery.antt =====
-- In-order delivery on the client over every interleaving: the payloads that the server sends reach
-- RecvMsg in the order of the messages.
pub mod Intake
pub mod Rounds
mod Stopped
use nats_grpc.Base.{
  ℕ, String, Bool, true, false, not, ◌&&◌, ◌||◌, ◌≡◌, refl, sym, ap, subst, ◌∙◌, Option, none, some,
  List, [], ◌∷◌, ◌++◌, append-nil, append_assoc, arith, GoMap, inl, inr, Bool-cases, if_keeps,
  if_same, if_true, if_false, if◌then◌else◌,
}
use nats_grpc.Wire.{Bytes, Error, Result, Md}
use nats_grpc.Stats.{Context}
use nats_grpc.Env.{Env}
use nats_grpc.Client.{Client, Body}
use nats_grpc.ClientStream.{ClientFocus, stream_on_subject, done, close_send, end_request}
use nats_grpc.ClientStream.Frames.{
  is_empty, take_recv, stop_reading, read_on, read_live, read_msg, recv_on, recv_live, recv_msg,
  ping_tick, done_error,
}
use nats_grpc.ClientStream.Run.{ClientAction, client_step, client_run}
use nats_grpc.ClientStream.Run.Delivery.Intake.{
  Inbox, inbox, done-inbox, watch_on-inbox, write_request-inbox, send_msg-inbox, set_last_err-inbox,
  monitor_tick-inbox,
}
use nats_grpc.ClientStream.Run.Delivery.Stopped.{run-Stopped}
use nats_grpc.ClientStream.Run.Delivery.Rounds.{
  Starts, incoming, expected, waiting, boxed, take-expected, same, read_msg-Round,
}

abbrev pub head : List Bytes → List Bytes
head [] = []
head (b ∷ bs) = b ∷ []

regroup :
    (got read x c d : List Bytes)
    → ((got ++ read) ++ x) ++ (d ++ c) ≡ (got ++ ((read ++ x) ++ d)) ++ c
regroup got read x c d = simp append_assoc

module _ {M : Type 0} (env : Env M) where
  -- the message that an action puts into the subscription's queue
  unfoldable pub arrived : ClientAction M → ClientFocus → List Bytes
  arrived (ClientAction.arrive b) f = if f.closed then [] else b ∷ []
  arrived _ f = []

  abbrev pub received_live : Bool → Option Error → ClientFocus → List Bytes
  received_live quit none f = head f.recv
  received_live quit (some e) f =
      if quit || (f.recv_open && is_empty f.recv) then [] else head f.recv

  -- the payload that a RecvMsg takes from the stream
  unfoldable pub received : ClientAction M → ClientFocus → List Bytes
  received (ClientAction.recv quit old) f = received_live quit f.ctx_err f
  received _ f = []

  unfoldable pub arrived_all : List (ClientAction M) → ClientFocus → List Bytes
  arrived_all [] f = []
  arrived_all (a ∷ more) f = arrived a f ++ arrived_all more (client_step env a f)

  unfoldable pub received_all : List (ClientAction M) → ClientFocus → List Bytes
  received_all [] f = []
  received_all (a ∷ more) f = received a f ++ received_all more (client_step env a f)

  -- one step: what it takes, and what is expected after it, start what was expected
  abbrev Moves : List Bytes → List Bytes → List Bytes → ClientFocus → ClientFocus → Type 0
  Moves later new got f g =
      Starts g.reading (got ++ expected env later (inbox g)) (expected env (new ++ later) (inbox f))

  alike :
      (later : List Bytes) (f : ClientFocus) {m : Inbox}
      → m ≡ inbox f
      → Starts m.reading (expected env later m) (expected env later (inbox f))
  alike later f {m} e = same env m.reading (ap (expected env later) e)

  recv_on-Moves :
      (later : List Bytes) (old : Body M) (bs : List Bytes) (f : ClientFocus)
      → bs ≡ f.recv
      → Moves later [] (head bs) f (recv_on env old bs f).0
  unfolding recv_on take_recv
  recv_on-Moves later old [] f e = same env f.reading refl
  recv_on-Moves later old (b ∷ rest) f e = same env f.reading (
      ap (λ l. b ∷ l) (take-expected env f.blocked rest _)
      ∙ ap (λ v. expected env later (boxed env v f.blocked f.recv_open f.msgs f.reading)) e)

  recv_live-Moves :
      (later : List Bytes) (quit : Bool) (old : Body M) (o : Option Error) (f : ClientFocus)
      → Moves later [] (received_live quit o f) f (recv_live env quit old o f).0
  unfolding recv_live
  recv_live-Moves later quit old none f = recv_on-Moves later old f.recv f refl
  recv_live-Moves later quit old (some e) f = choose (quit || (f.recv_open && is_empty f.recv))
    where
      choose :
          (b : Bool)
          → Moves later []
              (if b then [] else head f.recv)
              f
              (if b
                then (f, some (Result.err (done_error env f.last_err e)))
                else recv_on env old f.recv f).0
      choose true = same env f.reading refl
      choose false = recv_on-Moves later old f.recv f refl

  arrive-Moves :
      (later : List Bytes) (b : Bytes) (f : ClientFocus)
      → Moves later
          (arrived (ClientAction.arrive b) f)
          []
          f
          (client_step env (ClientAction.arrive b) f)
  unfolding arrived client_step
  arrive-Moves later b f = choose f.closed
    where
      choose :
          (c : Bool)
          → Moves later
              (if c then [] else b ∷ [])
              []
              f
              (if c then f else record f { stream = record f.stream { msgs = f.msgs ++ b ∷ [] } })
      choose true = same env f.reading refl
      choose false = same env f.reading (
          ap
            (λ l.
              f.recv
              ++ (waiting env f.blocked
                  ++ (if f.recv_open then (if f.reading then incoming env l else []) else [])))
            (append_assoc f.msgs (b ∷ []) later))

  client_step-Moves :
      (later : List Bytes) (a : ClientAction M) (f : ClientFocus)
      → Moves later (arrived a f) (received a f) f (client_step env a f)
  unfolding client_step received arrived recv_msg close_send ping_tick
  client_step-Moves later (ClientAction.arrive b) f = arrive-Moves later b f
  client_step-Moves later (ClientAction.read quit now) f =
      read_msg-Round env later quit now f.blocked f refl
  client_step-Moves later (ClientAction.recv quit old) f =
      recv_live-Moves later quit old f.ctx_err f
  client_step-Moves later ClientAction.record_error f =
      alike later f (set_last_err-inbox env f.last_err f.failed f)
  client_step-Moves later (ClientAction.send m) f = alike later f (send_msg-inbox env m f)
  client_step-Moves later ClientAction.half_close f = alike later f (write_request-inbox env _ f)
  client_step-Moves later (ClientAction.ping now) f =
      if_keeps (Moves later [] [] f) f.pinging _ _
        (if_keeps (Moves later [] [] f) f.closed _ _ (same env f.reading refl)
          (alike later f (write_request-inbox env _ f)))
        (same env f.reading refl)
  client_step-Moves later (ClientAction.monitor now) f =
      if_keeps (Moves later [] [] f) f.monitoring _ _ (alike later f (monitor_tick-inbox env now f))
        (same env f.reading refl)
  client_step-Moves later (ClientAction.cancel e) f = same env f.reading refl
  client_step-Moves later ClientAction.watch f = alike later f (watch_on-inbox f.ctx_err f)

  join :
      (new got later read : List Bytes) (f g h : ClientFocus)
      → (g.reading ≡ false → h.reading ≡ false)
      → Moves later new got f g
      → Starts h.reading (read ++ expected env [] (inbox h)) (expected env later (inbox g))
      → Starts h.reading
          ((got ++ read) ++ expected env [] (inbox h))
          (expected env (new ++ later) (inbox f))
  join new got later read f g h stopped (c, first, all) (d, next, rest) = (
    d ++ c,
    regroup got read _ c d ∙ ap (λ y. (got ++ y) ++ c) next ∙ first,
    λ e.
        rw (rest e)
          (elim (Bool-cases g.reading) [ inl r ↦ all r | inr r ↦ absurd (cc (stopped r)) ]),
  )

  client_run-Moves :
      (actions : List (ClientAction M)) (f : ClientFocus)
      → Starts
          (client_run env actions f).reading
          (received_all actions f ++ expected env [] (inbox (client_run env actions f)))
          (expected env (arrived_all actions f) (inbox f))
  unfolding client_run received_all arrived_all
  client_run-Moves [] f = same env f.reading refl
  client_run-Moves (a ∷ more) f =
      let g = client_step env a f in
      join (arrived a f) (received a f) (arrived_all more g) (received_all more g) f g
        (client_run env more g) (run-Stopped env more g)
        (client_step-Moves (arrived_all more g) a f) (client_run-Moves more g)

  -- Over every interleaving from a new stream, the payloads that RecvMsg has taken, followed by those
  -- that wait in the stream, are the start of the payloads of the messages that arrived while the stream
  -- was open, in their order and up to an End or a message that cannot be decoded; and they are all of
  -- these as long as ReadMsg has not stopped.
  pub client_run_delivers_in_order :
      (c : Client) (ctx : Context) (subject method reply : String) (id now : ℕ)
      (header trailer : Option Md) (streams : GoMap ℕ) (actions : List (ClientAction M))
      → let f = stream_on_subject c ctx subject method reply id now header trailer streams [] in
        Starts
          (client_run env actions f).reading
          (received_all actions f ++ expected env [] (inbox (client_run env actions f)))
          (incoming env (arrived_all actions f))
  client_run_delivers_in_order c ctx subject method reply id now header trailer streams actions =
      unfold stream_on_subject in
      client_run-Moves actions
        (stream_on_subject c ctx subject method reply id now header trailer streams [])
