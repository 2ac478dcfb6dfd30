-- ===== src/Examples/Benchmark.antt =====
-- examples/benchmark/server/main.go: the IDs of the servers of a pod, the shared NATS connections, and
-- how servers are spread over them. An int is the bit pattern of 64 bits.
use nats_grpc.Base.{
  ℕ, zero, suc, ◌+◌, ◌-◌, ◌*◌, ◌%◌, ◌<◌, ◌≡◌, ◌⊎◌, inl, inr, refl, ap, sym, subst, ◌∙◌, Bool, ◌&&◌,
  Option, none, some, List, [], ◌∷◌, ◌++◌, length, length-append, nat_eq, leb, ltb, arith,
  if◌then◌else◌,
}
use native.Mathlib.Decide.{dec_lt}
use nats_grpc.Wire.{Error, Result, Result-cases, ok, err}

abbrev pub Text : Type 0
Text = List ℕ

-- name[strings.LastIndex(name, "-")+1:], and `none` where there is no dash
unfoldable pub after_last_dash : Text → Option Text
after_last_dash [] = none
after_last_dash (c ∷ cs) = elim (after_last_dash cs) [
  | some rest ↦ some rest
  | none ↦ if nat_eq c b'-' then some cs else none
]

abbrev pub is_digit : ℕ → Bool
is_digit c = leb b'0' c && leb c b'9'

-- strconv.Atoi after a sign: digits only, and a result below 2^63
unfoldable pub digits : ℕ → Text → Option ℕ
digits acc [] = if ltb acc 0x8000000000000000 then some acc else none
digits acc (c ∷ cs) =
    let rest = digits (10 * acc + (c - b'0')) cs in if is_digit c then rest else none

-- strconv.Atoi of a text without a minus sign
unfoldable pub atoi : Text → Option ℕ
unfolding digits
atoi [] = none
atoi (c ∷ []) = digits 0 (c ∷ [])
atoi (c ∷ d ∷ cs) = if nat_eq c b'+' then digits 0 (d ∷ cs) else digits 0 (c ∷ d ∷ cs)

abbrev ordinal_of : Option Text → Option ℕ
ordinal_of none = none
ordinal_of (some t) = atoi t

abbrev pub or_zero : Option ℕ → ℕ → ℕ
or_zero none n = 0
or_zero (some o) n = (o * n) % 0x10000000000000000

-- the ordinal at the end of a pod's name
abbrev pub ordinal : Text → Option ℕ
ordinal name = ordinal_of (after_last_dash name)

-- podOrdinalOffset, over the value of POD_NAME
unfoldable pub pod_ordinal_offset : Text → ℕ → ℕ
pod_ordinal_offset [] n = 0
pod_ordinal_offset (c ∷ cs) n = or_zero (ordinal (c ∷ cs)) n

offset-ordinal :
    (name : Text) (n o : ℕ)
    → ordinal name ≡ some o
    → (o + 1) * n < 0x8000000000000000
    → pod_ordinal_offset name n ≡ o * n
unfolding pod_ordinal_offset after_last_dash
offset-ordinal [] n o e h = absurd (cc)
offset-ordinal (c ∷ cs) n o e h =
    ap (λ p. or_zero p n) e
    ∙ (let small : (o + 1) * n ≡ o * n + n = grind arith in omega (arith, small))

below : (o p n i j : ℕ) → i < n → o < p → o * n + i < p * n + j
below o p n i j h lt = grind arith

-- Two pods of a set whose names end in their ordinals never use one ID twice: the IDs that they give
-- their n servers are equal only for one pod and one index.
pub pod_ids_differ :
    (one two : Text) (n o p i j : ℕ)
    → ordinal one ≡ some o
    → ordinal two ≡ some p
    → (o + 1) * n < 0x8000000000000000
    → (p + 1) * n < 0x8000000000000000
    → i < n
    → j < n
    → pod_ordinal_offset one n + i ≡ pod_ordinal_offset two n + j
    → (o ≡ p) × (i ≡ j)
pod_ids_differ one two n o p i j a b c d h k e = elim (dec_lt o p) [
  | yes lt ↦ absurd (omega (arith, same, below o p n i j h lt))
  | no ge ↦ elim (dec_lt p o) [
    | yes lt ↦ absurd (omega (arith, same, below p o n j i k lt))
    | no le ↦ let q : o ≡ p = omega arith in (q, omega (arith, same, ap (λ (x : ℕ). x * n) q))
  ]
]
  where
    same : o * n + i ≡ p * n + j
    same =
        ap (λ x. x + i) (sym (offset-ordinal one n o a c))
        ∙ e
        ∙ ap (λ x. x + j) (offset-ordinal two n p b d)

module _ {C : Type 0} (connect : ℕ → Result C) (wrap : ℕ → Error → Error) where
  -- the loop of dialNATSPool with `rounds` left: its result, and the connections that it has closed
  unfoldable pub dial_from : ℕ → ℕ → List C → Result (List C) × List C
  dial_from i zero conns = (ok conns, [])
  dial_from i (suc rounds) conns = elim (connect i) [
    | err e ↦ (err (wrap i e), conns)
    | ok c ↦ dial_from (i + 1) rounds (conns ++ c ∷ [])
  ]

  unfoldable pub dial_nats_pool : ℕ → Result (List C) × List C
  unfolding dial_from
  dial_nats_pool n = dial_from 0 n []

  -- the connections `cs` are the next ones from `i`
  abbrev pub Opened : ℕ → List C → Type 0
  Opened i [] = Unit
  Opened i (c ∷ cs) = (connect i ≡ ok c) × Opened (i + 1) cs

  Opened-snoc :
      (i : ℕ) (cs : List C) (c : C)
      → Opened i cs
      → connect (i + length cs) ≡ ok c
      → Opened i (cs ++ c ∷ [])
  Opened-snoc i [] c h e = let same : i ≡ i + 0 = omega arith in (ap connect same ∙ e, tt)
  Opened-snoc i (x ∷ cs) c h e =
      let same : i + 1 + length cs ≡ i + suc (length cs) = omega arith in
      (h.0, Opened-snoc (i + 1) cs c h.1 (ap connect same ∙ e))

  -- n open connections and none closed, or an error and all closed that had been opened
  abbrev pub AllOrNothing : ℕ → Result (List C) × List C → Type 0
  AllOrNothing n (r, shut) =
      ((cs : List C) × (r ≡ ok cs) × (shut ≡ []) × Opened 0 cs × (length cs ≡ n))
      ⊎ ((e : Error) × (connect (length shut) ≡ err e)
          × (r ≡ err (wrap (length shut) e))
          × Opened 0 shut
          × (length shut < n))

  dial_from-AllOrNothing :
      (i rounds : ℕ) (conns : List C)
      → Opened 0 conns
      → length conns ≡ i
      → AllOrNothing (i + rounds) (dial_from i rounds conns)
  unfolding dial_from
  dial_from-AllOrNothing i zero conns h l = inl (conns, refl, refl, h, omega (arith, l))
  dial_from-AllOrNothing i (suc rounds) conns h l = elim (Result-cases (connect i)) [
    | inl (e, q) ↦
        rw (q, dial_from)
          (inr (e, ap connect l ∙ q, ap (λ k. err (wrap k e)) (sym l), h, omega (arith, l)))
    | inr (c, q) ↦
        let more : i + 1 + rounds ≡ i + suc rounds = omega arith in
        rw (q, dial_from)
          (subst (λ n. AllOrNothing n (dial_from (i + 1) rounds (conns ++ c ∷ []))) more
            (dial_from-AllOrNothing (i + 1) rounds (conns ++ c ∷ [])
              (Opened-snoc 0 conns c h (ap connect (omega (arith, l)) ∙ q))
              (omega (arith, length-append {0} conns (c ∷ []), l))))
  ]

  -- dialNATSPool returns the n connections that it has opened, in order, and has closed none; or it returns the
  -- error of the first that fails, with its number, and has closed all that it had opened.
  pub dial_nats_pool-AllOrNothing : (n : ℕ) → AllOrNothing n (dial_nats_pool n)
  unfolding dial_nats_pool
  dial_nats_pool-AllOrNothing n =
      let all : 0 + n ≡ n = omega arith in
      subst (λ k. AllOrNothing k (dial_from 0 n [])) all (dial_from-AllOrNothing 0 n [] tt refl)
