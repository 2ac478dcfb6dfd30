-- ===== src/ServerStream/Run/Fifo.antt =====
-- The payloads of a stream reach its handler in the order of the frames.
pub mod Mail
use nats_grpc.Base.{
  String, ◌≡◌, refl, sym, ap, subst, ◌∙◌, Bool, true, false, not, ◌&&◌, ◌||◌, Option, none, some,
  List, [], ◌∷◌, ◌++◌, length, ltb, append_assoc, append-nil, arith, inl, inr, Bool-cases, if_keeps,
  if_true, if_false, if_same, if◌then◌else◌, GoMap, lookup,
}
use nats_grpc.Wire.{Bytes, Call, End, Status, Request, Response, Result, ok, err}
use nats_grpc.Env.{Env}
use nats_grpc.ServerStream.{
  HandlerFunc, ServerConf, ServerStream, Focus, new_server_stream, fresh, stats_begin, done,
  write_response,
}
use nats_grpc.ServerStream.Frames.{
  enqueue, send_recv, is_error, process_call, process_data, end_status, process_end, process_ping,
  on_request, read_frame, work_on, work,
}
use nats_grpc.ServerStream.Handler.{take_recv, recv_on, recv_msg, set_trailer}
use nats_grpc.ServerStream.Run.{
  Action, stop_error, finish_handler, handler_call, while_running, step, run,
}
use nats_grpc.ServerStream.Run.Fifo.Mail.{
  Mailbox, mail, finalize-mail, call_handler-mail, stats_begin-mail, write_response-mail,
  finish_handler-mail, set_header-mail, send_header-mail, send_msg-mail,
}

-- What one frame adds to the payloads `rest` that come after it: a payload, or with a half-close
-- the end of all.
unfoldable pub frame_payloads : Result Request → List Bytes → List Bytes
frame_payloads (ok (Request.payload p)) rest = p ∷ rest
frame_payloads (ok (Request.end e)) rest = if is_error e.status then rest else []
frame_payloads _ rest = rest

module _ {M : Type 0} (env : Env M) where
  -- the payloads that a sequence of frames carries
  unfoldable pub payloads : List Bytes → List Bytes
  payloads [] = []
  payloads (b ∷ bs) = frame_payloads (env.unmarshal_request b) (payloads bs)

  abbrev pub waiting : Option Bytes → List Bytes
  waiting none = []
  waiting (some b) = b ∷ []

  -- what the handler has still to read, if the frames `later` follow
  abbrev pub coming : List Bytes → Mailbox → List Bytes
  coming later m =
      m.recv ++ (waiting m.blocked ++ (if m.recv_open then payloads (m.inbox ++ later) else []))

  -- A mailbox whose worker does not wait.
  abbrev pub idle : List Bytes → Bool → List Bytes → Mailbox
  idle xs o bs = record { recv = xs; blocked = none; recv_open = o; inbox = bs }

  abbrev pub boxed : List Bytes → Option Bytes → Bool → List Bytes → Mailbox
  boxed xs w o bs = record { recv = xs; blocked = w; recv_open = o; inbox = bs }

  -- what the send on recvWrite makes of a mailbox
  abbrev push : Bytes → Mailbox → Mailbox
  push b m = record m {
    recv = elim m.recv [ [] ↦ b ∷ [] | c ∷ cs ↦ m.recv ];
    blocked = elim m.recv [ [] ↦ m.blocked | c ∷ cs ↦ some b ];
  }

  push-coming :
      (later bs xs : List Bytes) (p : Bytes)
      → coming later (push p (idle xs true bs)) ≡ xs ++ p ∷ payloads (bs ++ later)
  push-coming later bs [] p = refl
  push-coming later bs (x ∷ xs) p = refl

  -- what a receive leaves in the channel and lets a waiting worker add
  take-coming :
      (w : Option Bytes) (rest later : List Bytes)
      → (elim w as (λ _. List Bytes) [ none ↦ rest | some c ↦ rest ++ c ∷ [] ]) ++ later
        ≡ rest ++ (waiting w ++ later)
  take-coming none rest later = refl
  take-coming (some c) rest later = append_assoc rest (c ∷ []) later

  module _ (srv : ServerConf) where
    -- the payload that a receive takes from the channel
    unfoldable pub taken : Bool → List Bytes → Focus → List Bytes
    taken quit [] f = []
    taken quit (b ∷ rest) f = if f.cancelled && quit then [] else b ∷ []

    process_data-coming :
        (later bs xs : List Bytes) (o : Bool) (p : Bytes) (f : Focus)
        → mail f ≡ idle xs o bs
        → coming later (mail (process_data env srv p f))
          ≡ xs ++ (if o then p ∷ payloads (bs ++ later) else [])
    unfolding process_data send_recv
    process_data-coming later bs xs o p f e = choose o e
      where
        choose :
            (o : Bool)
            → mail f ≡ idle xs o bs
            → coming later (mail (process_data env srv p f))
              ≡ xs ++ (if o then p ∷ payloads (bs ++ later) else [])
        choose true h =
            ap (λ g. coming later (mail g)) (if_true _ f _ (ap (λ m. m.recv_open) h))
            ∙ ap (λ m. coming later (push p m)) (stats_begin-mail srv f ∙ h)
            ∙ push-coming later bs xs p
        choose false h =
            ap (λ g. coming later (mail g)) (if_false _ f _ (ap (λ m. m.recv_open) h))
            ∙ ap (coming later) h

    half_close-coming :
        (later bs xs : List Bytes) (o : Bool) (f : Focus)
        → mail f ≡ idle xs o bs
        → coming later (mail (record f { stream = record f.stream { recv_open = false } }))
          ≡ xs ++ (if o then [] else [])
    half_close-coming later bs xs o f h =
        ap (λ m. m.recv ++ (waiting m.blocked ++ [])) h ∙ ap (λ r. xs ++ r) (sym (if_same o []))

    end_status-coming :
        (later bs xs : List Bytes) (o : Bool) (st : Option Status) (f : Focus)
        → mail f ≡ idle xs o bs
        → coming later (mail (end_status env srv st f))
          ≡ xs ++ (if o then (if is_error st then payloads (bs ++ later) else []) else [])
    unfolding end_status is_error
    end_status-coming later bs xs o none f h = half_close-coming later bs xs o f h
    end_status-coming later bs xs o (some x) f h = elim (Bool-cases (is_error (some x))) [
      | inl e ↦ rw e (ap (coming later) (finalize-mail srv (env.error_proto x) f ∙ h))
      | inr e ↦ rw e (half_close-coming later bs xs o f h)
    ]

    -- a frame at the head of the inbox, processed by a worker that does not wait
    process-coming :
        (later bs xs : List Bytes) (o : Bool) (r : Result Request) (f : Focus)
        → mail f ≡ idle xs o bs
        → coming later (mail (read_frame env srv r f))
          ≡ xs ++ (if o then frame_payloads r (payloads (bs ++ later)) else [])
    unfolding read_frame on_request process_call process_end process_ping frame_payloads
    process-coming later bs xs o (err e) f h = ap (coming later) h
    process-coming later bs xs o (ok Request.unset) f h = ap (coming later) h
    process-coming later bs xs o (ok (Request.call c)) f h =
        ap (coming later) (call_handler-mail env srv (lookup f.method srv.handlers) c _ ∙ h)
    process-coming later bs xs o (ok (Request.payload p)) f h =
        process_data-coming later bs xs o p f h
    process-coming later bs xs o (ok (Request.end e)) f h =
        end_status-coming later bs xs o e.status f h
    process-coming later bs xs o (ok (Request.ping t)) f h =
        ap (coming later) (write_response-mail env (Response.pong t) f ∙ h)
    process-coming later bs xs o (ok (Request.unary u)) f h = ap (coming later) h

    pub work_on-coming :
        (later : List Bytes) (quit : Bool) (o : Option Bytes) (bs : List Bytes) (f : Focus)
        → o ≡ f.blocked
        → bs ≡ f.inbox
        → coming later (mail (work_on env srv quit o bs f)) ≡ coming later (mail f)
    unfolding work_on payloads
    work_on-coming later quit (some b) bs f _ _ = refl
    work_on-coming later quit none [] f _ _ = refl
    work_on-coming later quit none (b ∷ bs) f o i =
        if_keeps (λ g. coming later (mail g) ≡ coming later (mail f)) (not f.working) _ _ refl
          (if_keeps (λ g. coming later (mail g) ≡ coming later (mail f)) (f.cancelled && quit) _ _
            refl
            (process-coming later bs f.recv f.recv_open (env.unmarshal_request b) _
                (ap (λ w. boxed f.recv w f.recv_open bs) (sym o))
              ∙ ap (λ w. coming later (boxed f.recv w f.recv_open (b ∷ bs))) o
              ∙ ap (λ v. coming later (boxed f.recv f.blocked f.recv_open v)) i))

    -- a receive takes the head of what is coming
    pub recv_on-coming :
        (later : List Bytes) (quit : Bool) (xs : List Bytes) (f : Focus)
        → xs ≡ f.recv
        → taken quit xs f ++ coming later (mail (recv_on env srv quit xs f).0)
          ≡ coming later (mail f)
    unfolding taken recv_on take_recv
    recv_on-coming later quit [] f e =
        if_keeps Keeps (f.cancelled && (quit || f.recv_open)) _ _ refl
          (if_keeps Keeps f.recv_open _ _ refl refl)
      where
        Keeps : Focus × Option (Result M) → Type 0
        Keeps r = coming later (mail r.0) ≡ coming later (mail f)
    recv_on-coming later quit (b ∷ rest) f e = elim (Bool-cases (f.cancelled && quit)) [
      | inl c ↦ rw c refl
      | inr c ↦ rw c (
          ap (λ l. b ∷ l) (take-coming f.blocked rest _)
          ∙ ap (λ v. coming later (boxed v f.blocked f.recv_open f.inbox)) e)
    ]
