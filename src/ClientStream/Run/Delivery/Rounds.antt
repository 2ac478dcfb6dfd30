-- ===== src/ClientStream/Run/Delivery/Rounds.antt =====
-- One round of ReadMsg: what RecvMsg has still to return stays what it was, or the start of it.
use nats_grpc.Base.{
  ℕ, Bool, true, false, not, ◌&&◌, ◌||◌, ◌≡◌, refl, sym, ap, subst, ◌∙◌, Option, none, some, List,
  [], ◌∷◌, ◌++◌, append-nil, append_assoc, arith, inl, inr, Bool-cases, if_keeps, if_same, if_true,
  if_false, if◌then◌else◌,
}
use nats_grpc.Wire.{Bytes, Status, End, Response, Error, Result, ok, err}
use nats_grpc.Env.{Env}
use nats_grpc.ServerStream.Frames.{is_error}
use nats_grpc.ClientStream.{ClientFocus, done}
use nats_grpc.ClientStream.Frames.{
  is_empty, send_recv, process_begin, process_data, end_status, process_end, process_pong,
  on_response_frame, on_message, stop_reading, read_on, read_live, read_msg,
}
use nats_grpc.ClientStream.Run.Delivery.Intake.{Inbox, inbox, done-inbox}

-- What one message adds to the payloads `rest` that come after it: a payload, or the end of all.
unfoldable pub message_payloads : Result Response → List Bytes → List Bytes
message_payloads (ok (Response.payload p)) rest = p ∷ rest
message_payloads (ok (Response.end e)) rest = []
message_payloads (err e) rest = []
message_payloads _ rest = rest

-- `xs` is the start of `ys`, and all of it as long as `live`.
abbrev pub Starts : Bool → List Bytes → List Bytes → Type 0
Starts live xs ys = (c : List Bytes) × (xs ++ c ≡ ys) × (live ≡ true → c ≡ [])

module _ {M : Type 0} (env : Env M) where
  -- the payloads that a sequence of messages carries, up to an End or an undecodable one
  unfoldable pub incoming : List Bytes → List Bytes
  incoming [] = []
  incoming (b ∷ bs) = message_payloads (env.unmarshal_response b) (incoming bs)

  abbrev pub waiting : Option Bytes → List Bytes
  waiting none = []
  waiting (some b) = b ∷ []

  -- what RecvMsg has still to return, if the messages `later` follow
  abbrev pub expected : List Bytes → Inbox → List Bytes
  expected later m =
      m.recv
      ++ (waiting m.blocked
          ++ (if m.recv_open then (if m.reading then incoming (m.msgs ++ later) else []) else []))

  abbrev pub boxed : List Bytes → Option Bytes → Bool → List Bytes → Bool → Inbox
  boxed xs w o bs r = record { recv = xs; blocked = w; recv_open = o; msgs = bs; reading = r }

  -- what the send on recvWrite makes of the channel
  abbrev push : Bytes → Inbox → Inbox
  push b m = record m {
    recv = elim m.recv [ [] ↦ b ∷ [] | c ∷ cs ↦ m.recv ];
    blocked = elim m.recv [ [] ↦ m.blocked | c ∷ cs ↦ some b ];
  }

  push-expected :
      (later bs xs : List Bytes) (p : Bytes)
      → expected later (push p (boxed xs none true bs true)) ≡ xs ++ p ∷ incoming (bs ++ later)
  push-expected later bs [] p = refl
  push-expected later bs (x ∷ xs) p = refl

  -- what a receive leaves in the channel and lets a waiting ReadMsg add
  pub take-expected :
      (w : Option Bytes) (rest later : List Bytes)
      → (elim w as (λ _. List Bytes) [ none ↦ rest | some c ↦ rest ++ c ∷ [] ]) ++ later
        ≡ rest ++ (waiting w ++ later)
  take-expected none rest later = refl
  take-expected (some c) rest later = append_assoc rest (c ∷ []) later

  module _ (later bs xs : List Bytes) (o : Bool) where
    -- A message at the head of the subscription's queue has been taken, and nothing was lost.
    abbrev Taken : Result Response → ClientFocus → Type 0
    Taken r g =
        expected later (inbox g)
        ≡ xs ++ (if o then message_payloads r (incoming (bs ++ later)) else [])

    shut :
        (f : ClientFocus) (x : End)
        → inbox f ≡ boxed xs none o bs true
        → Taken
            (ok (Response.end x))
            (done (record f { stream = record f.stream { recv_open = false } }))
    unfolding message_payloads
    shut f x e =
        ap (expected later)
          (done-inbox (record f { stream = record f.stream { recv_open = false } }))
        ∙ ap (λ m. m.recv ++ (waiting m.blocked ++ [])) e
        ∙ ap (λ r. xs ++ r) (sym (if_same o []))

    end_status-expected :
        (s : Option Status) (x : End) (f : ClientFocus)
        → inbox f ≡ boxed xs none o bs true
        → Taken (ok (Response.end x)) (stop_reading env (end_status env s f))
    unfolding end_status stop_reading message_payloads
    end_status-expected none x f e = shut f x e
    end_status-expected (some s) x f e = elim (Bool-cases (is_error (some s))) [
      | inl k ↦ rw k (
          ap (λ m. expected later (record m { reading = false }))
            (done-inbox (record f { stream = record f.stream { end_err = env.error_proto s } })
              ∙ e))
      | inr k ↦ rw k (shut f x e)
    ]

    on_message-expected :
        (now : ℕ) (r : Result Response) (f : ClientFocus)
        → inbox f ≡ boxed xs none o bs true
        → Taken r (stop_reading env (on_message env now r f))
    unfolding on_message on_response_frame stop_reading process_begin process_end process_pong
        message_payloads
    on_message-expected now (err e) f h = ap (λ m. expected later (record m { reading = false })) h
    on_message-expected now (ok (Response.end x)) f h = end_status-expected x.status x _ h
    on_message-expected now (ok Response.unset) f h = ap (expected later) h
    on_message-expected now (ok (Response.begin b)) f h = ap (expected later) h
    on_message-expected now (ok (Response.pong t)) f h = ap (expected later) h
    on_message-expected now (ok (Response.unary u)) f h = ap (expected later) h
    on_message-expected now (ok (Response.payload p)) f h = choose o h
      where
        choose :
            (o : Bool)
            → inbox f ≡ boxed xs none o bs true
            → expected later (inbox (process_data env p f))
              ≡ xs ++ (if o then p ∷ incoming (bs ++ later) else [])
        choose true h =
            unfold process_data in
            ap (λ g. expected later (inbox g)) (if_true _ f _ (ap (λ m. m.recv_open) h))
            ∙ unfold send_recv in
              (ap (λ m. expected later (push p m)) h ∙ push-expected later bs xs p)
        choose false h =
            unfold process_data in
            ap (λ g. expected later (inbox g)) (if_false _ f _ (ap (λ m. m.recv_open) h))
            ∙ ap (expected later) h

  pub same : (live : Bool) {xs ys : List Bytes} → xs ≡ ys → Starts live xs ys
  same live {xs} e = ([], append-nil xs ∙ e, λ _. refl)

  -- A ReadMsg that stops leaves the rest unread.
  stops-Starts :
      (later : List Bytes) (m : Inbox) (r : Bool)
      → (r ≡ true → m.reading ≡ true)
      → Starts r (expected later (record m { reading = r })) (expected later m)
  stops-Starts later m true h = same true (
      ap
        (λ r.
          m.recv
          ++ (waiting m.blocked
              ++ (if m.recv_open then (if r then incoming (m.msgs ++ later) else []) else [])))
        (sym (h refl)))
  stops-Starts later m false h =
      let rest =
        if m.recv_open then (if m.reading then incoming (m.msgs ++ later) else []) else [] in
      (
        rest,
        append_assoc m.recv _ rest
            ∙ ap (λ l. m.recv ++ l)
                (append_assoc (waiting m.blocked) _ rest
                  ∙ ap (λ l. waiting m.blocked ++ (l ++ rest)) (if_same m.recv_open [])),
        λ e. cc,
      )

  -- How far a round of ReadMsg keeps what is expected.
  abbrev pub Round : List Bytes → ClientFocus → ClientFocus → Type 0
  Round later f g = Starts g.reading (expected later (inbox g)) (expected later (inbox f))

  read_next-Round :
      (later more : List Bytes) (now : ℕ) (b : Bytes) (f : ClientFocus)
      → f.blocked ≡ none
      → (b ∷ more) ≡ f.msgs
      → f.reading ≡ true
      → Round later f (
          stop_reading env (
            on_message env now
              (env.unmarshal_response b)
              (record f { stream = record f.stream { msgs = more } })))
  unfolding incoming
  read_next-Round later more now b f w i r = same _ (
      on_message-expected later more f.recv f.recv_open now (env.unmarshal_response b) _ (
        ap (λ w. boxed f.recv w f.recv_open more f.reading) w
        ∙ ap (λ r. boxed f.recv none f.recv_open more r) r)
      ∙ ap (λ r. expected later (boxed f.recv none f.recv_open (b ∷ more) r)) (sym r)
      ∙ ap (λ w. expected later (boxed f.recv w f.recv_open (b ∷ more) f.reading)) (sym w)
      ∙ ap (λ v. expected later (boxed f.recv f.blocked f.recv_open v f.reading)) i)

  read_on-Round :
      (later : List Bytes) (now : ℕ) (bs : List Bytes) (f : ClientFocus)
      → f.blocked ≡ none
      → bs ≡ f.msgs
      → Round later f (read_on env now bs f)
  unfolding read_on
  read_on-Round later now [] f w i =
      stops-Starts later (inbox f) (f.reading && not f.closed) (λ e. ground arith)
  read_on-Round later now (b ∷ more) f w i = elim (Bool-cases f.reading) [
    | inl r ↦
        subst (Round later f) (sym (if_true _ f f.reading r))
          (read_next-Round later more now b f w i r)
    | inr r ↦ subst (Round later f) (sym (if_false _ f f.reading r)) (same f.reading refl)
  ]

  read_live-Round :
      (later : List Bytes) (quit : Bool) (now : ℕ) (o : Option Error) (f : ClientFocus)
      → f.blocked ≡ none
      → Round later f (read_live env quit now o f)
  unfolding read_live
  read_live-Round later quit now none f w = read_on-Round later now f.msgs f w refl
  read_live-Round later quit now (some e) f w =
      if_keeps (Round later f) (quit || is_empty f.msgs) _ _
        (stops-Starts later (inbox f) false (λ e. cc)) (read_on-Round later now f.msgs f w refl)

  pub read_msg-Round :
      (later : List Bytes) (quit : Bool) (now : ℕ) (w : Option Bytes) (f : ClientFocus)
      → f.blocked ≡ w
      → Round later f (read_msg env quit now w f)
  unfolding read_msg
  read_msg-Round later quit now (some b) f w = same f.reading refl
  read_msg-Round later quit now none f w = read_live-Round later quit now f.ctx_err f w
