-- ===== src/Pump/Rounds.antt =====
-- The copying goroutines lose nothing, and two rounds of the loop are enough.
use nats_grpc.Base.{
  ℕ, suc, ◌≡◌, refl, ap, Bool, true, false, Option, none, some, List, [], ◌∷◌, if◌then◌else◌,
}
use nats_grpc.Wire.{Bytes, Error, Result, ok, err}
use nats_grpc.Pump.{
  is_eof, then_sent, forward, PumpEvent, s2c, c2s, Pumped, normalize_eof, pump_rounds, pump_bidi,
}

-- The source ended with `e` after the frames `bs`.
abbrev pub received : List Bytes → Error → List (Result Bytes)
received [] e = err e ∷ []
received (b ∷ bs) e = ok b ∷ received bs e

-- A goroutine whose destination accepts every frame sends the frames that the source gave, in their
-- order, and then reports the source's error.
pub forward-received :
    (send : ℕ → Bytes → Option Error) (bs : List Bytes) (e : Error) (i : ℕ)
    → ((n : ℕ) (b : Bytes) → send n b ≡ none)
    → forward send i (received bs e) ≡ record { sent = bs; ended = some e }
unfolding forward
forward-received send [] e i h = refl
forward-received send (b ∷ bs) e i h =
    rw (h i b, forward) (ap (then_sent b) (forward-received send bs e (suc i) h))

-- Each goroutine puts one error into its channel: at most one event for each side.
pub data Once : Bool → Bool → List PumpEvent → Type 0 where
  quiet : {s c : Bool} → Once s c []
  server_ended :
      {c : Bool} (e : Error) {es : List PumpEvent} → Once false c es → Once true c (s2c e ∷ es)
  client_ended :
      {s : Bool} (e : Error) {es : List PumpEvent} → Once s false es → Once s true (c2s e ∷ es)

-- The loop with no bound on its rounds.
unfoldable pub pump_on : Bool → List PumpEvent → Pumped
pump_on half [] = record { half_closed = half; result = none }
pump_on half (s2c e ∷ es) =
    let next = pump_on true es in
    if is_eof e then next else record { half_closed = half; result = some (some e) }
pump_on half (c2s e ∷ es) = record { half_closed = half; result = some (normalize_eof e) }

one_round :
    (c half : Bool) (n : ℕ) (es : List PumpEvent)
    → Once false c es
    → pump_rounds (suc n) half es ≡ pump_on half es
unfolding pump_rounds pump_on
one_round c half n es quiet = refl
one_round c half n es (client_ended e o) = refl

-- Where each goroutine reports once, pumpBidi does what its loop would do with no bound on the rounds:
-- it never leaves the loop because the two rounds are over.
pub pump_bidi-eq-pump_on :
    (es : List PumpEvent) → Once true true es → pump_bidi es ≡ pump_on false es
unfolding pump_bidi pump_rounds pump_on
pump_bidi-eq-pump_on es quiet = refl
pump_bidi-eq-pump_on es (server_ended e {es = more} o) =
    ap (λ next. if is_eof e then next else record { half_closed = false; result = some (some e) })
      (one_round true true 0 more o)
pump_bidi-eq-pump_on es (client_ended e o) = refl
