-- ===== src/Pump.antt =====
-- The goroutines that copy frames between two gRPC streams, in pumpBidi of pkg/sidecar/egress.go and
-- in forwardServerToClient and forwardClientToServer of pkg/rpc/proxy/handler.go, and pumpBidi's loop
-- over their results.
pub mod Rounds
use nats_grpc.Base.{
  ℕ, zero, suc, Bool, true, false, Option, none, some, List, [], ◌∷◌, if◌then◌else◌,
}
use nats_grpc.Wire.{Bytes, Error, eof, Result, ok, err}

-- `err == io.EOF`
abbrev pub is_eof : Error → Bool
is_eof eof = true
is_eof _ = false

-- What a goroutine has done so far: the frames that the destination accepted, and the error that it
-- put into its channel when it ended.
pub record Forwarded : Type 0 where
  pub sent : List Bytes
  pub ended : Option Error

abbrev pub then_sent : Bytes → Forwarded → Forwarded
then_sent b f = record f { sent = b ∷ f.sent }

-- One goroutine, over what the source's RecvMsg returns in turn. `send` is the destination's SendMsg
-- for the frame of the given index.
unfoldable pub forward : (ℕ → Bytes → Option Error) → ℕ → List (Result Bytes) → Forwarded
forward send i [] = record { sent = []; ended = none }
forward send i (err e ∷ more) = record { sent = []; ended = some e }
forward send i (ok b ∷ more) = elim (send i b) [
  | some e ↦ record { sent = []; ended = some e }
  | none ↦ then_sent b (forward send (suc i) more)
]

-- The errors of the two goroutines, as they reach the loop: from the server's stream to the client's
-- and from the client's to the server's.
pub data PumpEvent : Type 0 where
  s2c c2s : Error → PumpEvent

-- What the loop has done: whether the client's stream was half-closed, and what it returned if it did.
pub record Pumped : Type 0 where
  pub half_closed : Bool
  pub result : Option (Option Error)

abbrev pub normalize_eof : Error → Option Error
normalize_eof e = if is_eof e then none else some e

-- the loop of pumpBidi, with the rounds that are left
unfoldable pub pump_rounds : ℕ → Bool → List PumpEvent → Pumped
pump_rounds zero half es = record { half_closed = half; result = some none }
pump_rounds (suc n) half [] = record { half_closed = half; result = none }
pump_rounds (suc n) half (s2c e ∷ es) =
    let next = pump_rounds n true es in
    if is_eof e then next else record { half_closed = half; result = some (some e) }
pump_rounds (suc n) half (c2s e ∷ es) = record {
  half_closed = half;
  result = some (normalize_eof e);
}

unfoldable pub pump_bidi : List PumpEvent → Pumped
pump_bidi es = pump_rounds 2 false es
