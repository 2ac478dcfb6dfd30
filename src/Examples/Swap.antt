-- ===== src/Examples/Swap.antt =====
-- swapSenderTarget of examples/sidecar/docker-compose/go-server/main.go, over code points.
use nats_grpc.Base.{
  ℕ, zero, suc, ◌+◌, ◌≡◌, ◌≢◌, refl, ap, ◌∙◌, Bool, true, false, ◌&&◌, Option, none, some, List, [],
  ◌∷◌, ◌++◌, length, nat_eq, arith, All, if_true, if◌then◌else◌,
}
use nats_grpc.Base.Text.{codes}

abbrev pub Text : Type 0
Text = List ℕ

abbrev pub is_prefix : Text → Text → Bool
is_prefix [] s = true
is_prefix (p ∷ ps) [] = false
is_prefix (p ∷ ps) (c ∷ cs) = nat_eq p c && is_prefix ps cs

abbrev pub next : Option ℕ → Option ℕ
next none = none
next (some i) = some (suc i)

-- strings.Index, where -1 is `none`
unfoldable pub index : Text → Text → Option ℕ
index p [] = if is_prefix p [] then some 0 else none
index p (c ∷ cs) = let rest = index p cs in if is_prefix p (c ∷ cs) then some 0 else next rest

abbrev pub drop : ℕ → Text → Text
drop zero s = s
drop (suc n) [] = []
drop (suc n) (c ∷ cs) = drop n cs

abbrev pub take : ℕ → Text → Text
take zero s = []
take (suc n) [] = []
take (suc n) (c ∷ cs) = c ∷ take n cs

abbrev pub arrow : Text
arrow = codes " -> "

abbrev pub hash : Text
hash = codes " #"

-- the rest of the request after the arrow
unfoldable pub swap_rest : Text → Text → Text → Option ℕ → Text → Text
swap_rest req self sender none rest = req
swap_rest req self sender (some j) rest = self ++ (arrow ++ (sender ++ drop j rest))

unfoldable pub swap_at : Text → Text → Option ℕ → Text
unfolding swap_rest index
swap_at req self none = req
swap_at req self (some i) =
    let rest = drop (i + 4) req in swap_rest req self (take i req) (index hash rest) rest

unfoldable pub swap_sender_target : Text → Text → Text
unfolding swap_at index
swap_sender_target req self = swap_at req self (index arrow req)

-- A name in a request has no space.
abbrev pub IsName : Text → Type 0
IsName = All (λ c. c ≢ b' ')

is_prefix-append : (p r : Text) → is_prefix p (p ++ r) ≡ true
is_prefix-append [] r = refl
is_prefix-append (c ∷ p) r = ground (arith, is_prefix-append p r)

index-append :
    (p r s : Text) → IsName s → index (b' ' ∷ p) (s ++ (b' ' ∷ (p ++ r))) ≡ some (length s)
unfolding index
index-append p r [] h = if_true _ _ _ (is_prefix-append (b' ' ∷ p) r)
index-append p r (c ∷ s) h = ground (arith, index-append p r s h.1, h.0)

drop-append : (s r : Text) (k : ℕ) → drop (length s + k) (s ++ r) ≡ drop k r
drop-append [] r k = let e : 0 + k ≡ k = omega arith in ap (λ n. drop n r) e
drop-append (c ∷ s) r k =
    let e : suc (length s) + k ≡ suc (length s + k) = omega arith in
    ap (λ n. drop n (c ∷ (s ++ r))) e ∙ drop-append s r k

drop-length : (s r : Text) → drop (length s) (s ++ r) ≡ r
drop-length [] r = refl
drop-length (c ∷ s) r = drop-length s r

take-length : (s r : Text) → take (length s) (s ++ r) ≡ s
take-length [] r = refl
take-length (c ∷ s) r = ap (λ l. c ∷ l) (take-length s r)

-- "<sender> -> <target> #<n>"
abbrev pub message : Text → Text → Text → Text
message sender target n = sender ++ (arrow ++ (target ++ (hash ++ n)))

swap-message :
    (sender target n self : Text)
    → IsName sender
    → IsName target
    → swap_sender_target (message sender target n) self ≡ message self sender n
unfolding swap_sender_target swap_at swap_rest
swap-message sender target n self s t =
    ap (swap_at (message sender target n) self)
      (index-append (codes "-> ") (target ++ (hash ++ n)) sender s)
    ∙ ap
        (λ rest.
          swap_rest (message sender target n) self (take (length sender) (message sender target n))
            (index hash rest) rest)
        (drop-append sender (arrow ++ (target ++ (hash ++ n))) 4)
    ∙ ap
        (λ o.
          swap_rest (message sender target n) self (take (length sender) (message sender target n))
            o (target ++ (hash ++ n)))
        (index-append (codes "#") n target t)
    ∙ ap (λ l. self ++ (arrow ++ (l ++ drop (length target) (target ++ (hash ++ n)))))
        (take-length sender (arrow ++ (target ++ (hash ++ n))))
    ∙ ap (λ l. self ++ (arrow ++ (sender ++ l))) (drop-length target (hash ++ n))

-- A request "<sender> -> <target> #<n>" whose names have no space is answered with
-- "<self> -> <sender> #<n>", and where the receiver's name has no space either the sender, doing the
-- same with the answer, gets "<sender> -> <self> #<n>".
pub swap_sender_target-message :
    (sender target n self : Text)
    → IsName sender
    → IsName target
    → IsName self
    → (swap_sender_target (message sender target n) self ≡ message self sender n)
      × (swap_sender_target (swap_sender_target (message sender target n) self) sender
          ≡ message sender self n)
swap_sender_target-message sender target n self s t u = (
  swap-message sender target n self s t,
  ap (λ m. swap_sender_target m sender) (swap-message sender target n self s t)
      ∙ swap-message self sender n sender u s,
)
