-- ===== src/Examples/Echo.antt =====
-- The Echo handler of examples/echo/server/main.go.
use nats_grpc.Base.{
  ℕ, zero, suc, ◌+◌, ◌≡◌, String, Option, none, some, List, [], ◌∷◌, length, leb, map, arith,
  if◌then◌else◌,
}
use nats_grpc.Base.Text.{◌+++◌}
use nats_grpc.Wire.{Error, Result, ok, err}

-- `show` is the %v of an int
module _ (show : ℕ → String) where
  abbrev pub reply : ℕ → String → String
  reply i msg = msg +++ (" world-" +++ show i)

  -- The loop after `i` rounds, over what Recv returns: the messages that it sends, and what it
  -- returns, or `none` while it waits in Recv. The errors of Send are dropped.
  unfoldable pub echo_from : ℕ → List (Result String) → List String × Option (Option Error)
  echo_from i [] = ([], none)
  echo_from i (err e ∷ more) = ([], some (some e))
  echo_from i (ok msg ∷ more) =
      let (sent, end) = echo_from (i + 1) more in
      if leb 100 (i + 1)
      then (reply (i + 1) msg ∷ [], some none)
      else (reply (i + 1) msg ∷ sent, end)

  unfoldable pub echo : List (Result String) → List String × Option (Option Error)
  unfolding echo_from
  echo = echo_from 0

  -- the first n messages, each with its number
  abbrev pub numbered : ℕ → ℕ → List String → List String
  numbered zero i msgs = []
  numbered (suc n) i [] = []
  numbered (suc n) i (m ∷ msgs) = reply (i + 1) m ∷ numbered n (i + 1) msgs

  echo_from-numbered :
      (n i : ℕ) (msgs : List String)
      → i + suc n ≡ 100
      → echo_from i (map ok msgs)
        ≡ (numbered (suc n) i msgs, if leb (suc n) (length msgs) then some none else none)
  unfolding echo_from
  echo_from-numbered n i [] e = ground arith
  echo_from-numbered zero i (m ∷ msgs) e = ground arith
  echo_from-numbered (suc n) i (m ∷ msgs) e = ground (arith, echo_from-numbered n (i + 1) msgs)

  -- While Recv gives messages, Echo answers the first hundred of them, the k-th with its text and the
  -- number k, and returns without an error after the hundredth; before that it waits for more.
  pub echo-numbered :
      (msgs : List String)
      → echo (map ok msgs)
        ≡ (numbered 100 0 msgs, if leb 100 (length msgs) then some none else none)
  unfolding echo
  echo-numbered msgs = echo_from-numbered 99 0 msgs (omega arith)
