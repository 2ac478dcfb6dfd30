-- ===== src/Sidecar/Ingress/Teardown.antt =====
-- addStream, removeStream and teardown, in any order: a registration that is torn down leaves no
-- stream running.
use nats_grpc.Base.{
  ℕ, String, ◌≡◌, ◌≢◌, refl, ◌⊎◌, inl, inr, Bool, true, false, ◌||◌, some, List, [], ◌∷◌, ◌++◌,
  arith, eq_iff, nat_eq, any, All, GoMap, lookup, insert, delete, lookup-insert, lookup-insert_self,
  lookup-delete, if◌then◌else◌,
}
use nats_grpc.Sidecar.Ingress.{Registration, add_stream, remove_stream, workers_of, teardown}

pub data StreamAction : Type 0 where
  add : String → ℕ → StreamAction
  remove : String → StreamAction
  tear_down : StreamAction

unfoldable pub stream_step : StreamAction → Registration → Registration
stream_step (add reply w) r = add_stream reply w r
stream_step (remove reply) r = remove_stream reply r
stream_step tear_down r = teardown r

unfoldable pub stream_run : List StreamAction → Registration → Registration
stream_run [] r = r
stream_run (a ∷ more) r = stream_run more (stream_step a r)

-- an action about another stream, or a teardown
abbrev pub Elsewhere : String → StreamAction → Type 0
Elsewhere reply (add k w) = k ≢ reply
Elsewhere reply (remove k) = k ≢ reply
Elsewhere reply tear_down = Unit

-- a registration's streams are gone once it is torn down
abbrev pub Emptied : Registration → Type 0
Emptied r = r.torndown ≡ true → r.stream_ctxs ≡ []

any-append :
    (w : ℕ) (xs ys : List ℕ) → any (nat_eq w) (xs ++ ys) ≡ any (nat_eq w) xs || any (nat_eq w) ys
any-append w [] ys = refl
any-append w (x ∷ xs) ys = ground (arith, any-append w xs ys)

any-workers_of :
    (reply : String) (w : ℕ) (m : GoMap ℕ)
    → lookup reply m ≡ some w
    → any (nat_eq w) (workers_of m) ≡ true
unfolding lookup
any-workers_of reply w [] h = absurd (cc)
any-workers_of reply w ((k, x) ∷ m) h = ground (arith, any-workers_of reply w m)

-- Stream `reply` of worker `w` is in the registration, or the worker's context is cancelled.
Tracked : String → ℕ → Registration → Type 0
Tracked reply w r = (lookup reply r.stream_ctxs ≡ some w) ⊎ (any (nat_eq w) r.cancelled ≡ true)

cancelled-Tracked :
    (reply : String) (w : ℕ) (r : Registration)
    → any (nat_eq w) r.cancelled ≡ true
    → Tracked reply w r
unfolding Tracked
cancelled-Tracked reply w r h = inr h

add_stream-Tracked :
    (reply : String) (w : ℕ) (r : Registration) → Tracked reply w (add_stream reply w r)
unfolding add_stream Tracked
add_stream-Tracked reply w r = choose r.torndown refl
  where
    choose :
        (b : Bool)
        → r.torndown ≡ b
        → Tracked reply w (
            if b
            then record r { cancelled = w ∷ r.cancelled }
            else record r { stream_ctxs = insert reply w r.stream_ctxs })
    choose true e = inr (ground (arith, e))
    choose false e = inl (lookup-insert_self reply w r.stream_ctxs)

-- the invariants that an action keeps
Kept : String → ℕ → Registration → Type 0
Kept reply w r = Tracked reply w r × Emptied r

delete_nil : (k : String) (m : GoMap ℕ) → m ≡ [] → delete k m ≡ []
unfolding delete
delete_nil k m e = rw e refl

cancelled-append :
    (w : ℕ) (xs ys : List ℕ) → any (nat_eq w) ys ≡ true → any (nat_eq w) (xs ++ ys) ≡ true
cancelled-append w xs ys h = ground (arith, any-append w xs ys)

stream_kept-append :
    (w : ℕ) (xs ys : List ℕ) → any (nat_eq w) xs ≡ true → any (nat_eq w) (xs ++ ys) ≡ true
stream_kept-append w xs ys h = ground (arith, any-append w xs ys)

add-Kept :
    (reply : String) (w : ℕ) (k : String) (x : ℕ) (r : Registration)
    → k ≢ reply
    → Kept reply w r
    → Kept reply w (add_stream k x r)
unfolding Kept Tracked add_stream
add-Kept reply w k x r ne (t, e) = choose r.torndown refl
  where
    choose :
        (b : Bool)
        → r.torndown ≡ b
        → Kept reply w (
            if b
            then record r { cancelled = x ∷ r.cancelled }
            else record r { stream_ctxs = insert k x r.stream_ctxs })
    choose true h = (elim t [ inl found ↦ inl found | inr gone ↦ inr (ground arith) ], e)
    choose false h = (
      elim t [
        | inl found ↦ inl (ground (arith, lookup-insert k reply x r.stream_ctxs, eq_iff k reply))
        | inr gone ↦ inr gone
      ],
      (λ yes. ground (arith, h)),
    )

remove-Kept :
    (reply : String) (w : ℕ) (k : String) (r : Registration)
    → k ≢ reply
    → Kept reply w r
    → Kept reply w (remove_stream k r)
unfolding Kept Tracked remove_stream
remove-Kept reply w k r ne (t, e) = (
  elim t [
    | inl found ↦ inl (ground (arith, lookup-delete k reply r.stream_ctxs, eq_iff k reply))
    | inr gone ↦ inr gone
  ],
  (λ yes. delete_nil k r.stream_ctxs (e yes)),
)

teardown-Kept :
    (reply : String) (w : ℕ) (r : Registration) → Kept reply w r → Kept reply w (teardown r)
unfolding Kept Tracked teardown
teardown-Kept reply w r (t, e) = choose r.torndown
  where
    choose :
        (b : Bool)
        → Kept reply w (
            if b then r else record r {
              torndown = true;
              stream_ctxs = [];
              subs = [];
              cancelled = workers_of r.stream_ctxs ++ r.cancelled;
              conn_closed = true;
            })
    choose true = (t, e)
    choose false = (
      elim t [
        | inl found ↦ inr (
            stream_kept-append w (workers_of r.stream_ctxs) r.cancelled
              (any-workers_of reply w r.stream_ctxs found))
        | inr gone ↦ inr (cancelled-append w (workers_of r.stream_ctxs) r.cancelled gone)
      ],
      (λ yes. refl),
    )

stream_step-Kept :
    (reply : String) (w : ℕ) (a : StreamAction) (r : Registration)
    → Elsewhere reply a
    → Kept reply w r
    → Kept reply w (stream_step a r)
unfolding stream_step
stream_step-Kept reply w (add k x) r ne kept = add-Kept reply w k x r ne kept
stream_step-Kept reply w (remove k) r ne kept = remove-Kept reply w k r ne kept
stream_step-Kept reply w tear_down r ne kept = teardown-Kept reply w r kept

stream_run-Kept :
    (reply : String) (w : ℕ) (actions : List StreamAction) (r : Registration)
    → All (Elsewhere reply) actions
    → Kept reply w r
    → Kept reply w (stream_run actions r)
unfolding stream_run
stream_run-Kept reply w [] r _ k = k
stream_run-Kept reply w (a ∷ more) r (p, ps) k =
    stream_run-Kept reply w more (stream_step a r) ps (stream_step-Kept reply w a r p k)

add_stream-Emptied :
    (reply : String) (w : ℕ) (r : Registration) → Emptied r → Emptied (add_stream reply w r)
unfolding add_stream
add_stream-Emptied reply w r e = choose r.torndown refl
  where
    choose :
        (b : Bool)
        → r.torndown ≡ b
        → Emptied (
            if b
            then record r { cancelled = w ∷ r.cancelled }
            else record r { stream_ctxs = insert reply w r.stream_ctxs })
    choose true h = e
    choose false h = λ yes. ground (arith, h)

stopped :
    (reply : String) (w : ℕ) (r : Registration)
    → Kept reply w r
    → r.torndown ≡ true
    → any (nat_eq w) r.cancelled ≡ true
unfolding Kept Tracked lookup
stopped reply w r (inl found, e) down = ground (arith, found, e down)
stopped reply w r (inr gone, e) down = gone

-- A registration that holds no streams if it is torn down is given a stream `reply` of
-- worker `w`, while it is up or after it was torn down. Whatever streams of other reply subjects are then
-- added or removed, and whenever it is torn down, also more than once: at the end the context of `w` is cancelled
-- if the registration is torn down, and is else still to be found under `reply` for a teardown to cancel, or cancelled.
pub torn_down_stops_stream :
    (reply : String) (w : ℕ) (actions : List StreamAction) (r : Registration)
    → Emptied r
    → All (Elsewhere reply) actions
    → let last = stream_run actions (add_stream reply w r) in
      ((last.torndown ≡ true → any (nat_eq w) last.cancelled ≡ true)
        × ((lookup reply last.stream_ctxs ≡ some w) ⊎ (any (nat_eq w) last.cancelled ≡ true)))
unfolding Kept Tracked
torn_down_stops_stream reply w actions r e others =
    let k =
      stream_run-Kept reply w actions (add_stream reply w r) others
        (add_stream-Tracked reply w r, add_stream-Emptied reply w r e) in
    (stopped reply w (stream_run actions (add_stream reply w r)) k, k.0)
