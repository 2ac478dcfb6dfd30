-- ===== src/Sidecar/Headers.antt =====
-- The reserved headers of pkg/sidecar/egress.go: firstHeader and stripReservedHeaders. Header names
-- are ASCII, so strings.ToLower is that of ASCII.
use nats_grpc.Base.{
  ℕ, ◌+◌, ◌-◌, ◌≤◌, String, ◌≡◌, refl, ap, ◌∙◌, Bool, true, false, ◌&&◌, ◌||◌, Option, none, some,
  List, [], ◌∷◌, arith, map, ◌==◌, eq_iff, leb, nat_eq, lookup, insert, lookup-insert,
  if◌then◌else◌,
}
use nats_grpc.Base.Text.{codes}
use nats_grpc.Wire.{Md}

-- strings.ToLower and strings.HasPrefix, on code points
unfoldable pub to_lower : ℕ → ℕ
to_lower c = if leb b'A' c && leb c b'Z' then c + 32 else c

unfoldable pub has_prefix : List ℕ → List ℕ → Bool
has_prefix s [] = true
has_prefix [] (c ∷ p) = false
has_prefix (d ∷ s) (c ∷ p) = nat_eq d c && has_prefix s p

unfoldable pub is_reserved : String → Bool
unfolding to_lower has_prefix
is_reserved k = has_prefix (map to_lower (codes k)) (codes "x-nats-")

unfoldable pub strip_reserved_headers : Md → Md
strip_reserved_headers [] = []
strip_reserved_headers ((k, vs) ∷ md) =
    let out = strip_reserved_headers md in if is_reserved k then out else insert k vs out

-- the first of `values`, or ""
abbrev pub first_value : List String → String
first_value [] = ""
first_value (v ∷ vs) = v

-- `get` is metadata.MD.Get; nil metadata has no header
unfoldable pub first_header : (Md → String → List String) → Option Md → String → String
first_header get none name = ""
first_header get (some md) name = first_value (get md name)

-- the letter `c` as a small or as a capital letter
abbrev letter : ℕ → ℕ → Bool
letter c d = nat_eq d c || nat_eq d (c - 32)

-- A text that starts with x-nats-, each letter of it small or capital.
abbrev pub starts_x_nats : List ℕ → Bool
starts_x_nats (x ∷ d ∷ n ∷ a ∷ t ∷ s ∷ e ∷ more) =
    letter b'x' x
    && (nat_eq d b'-'
        && (letter b'n' n
            && (letter b'a' a && (letter b't' t && (letter b's' s && nat_eq e b'-')))))
starts_x_nats _ = false

to_lower-letter : (c d : ℕ) → 97 ≤ c → c ≤ 122 → nat_eq (to_lower d) c ≡ letter c d
unfolding to_lower
to_lower-letter c d h k = ground arith

to_lower-dash : (d : ℕ) → nat_eq (to_lower d) b'-' ≡ nat_eq d b'-'
unfolding to_lower
to_lower-dash d = ground arith

has_prefix-starts : (k : List ℕ) → has_prefix (map to_lower k) (codes "x-nats-") ≡ starts_x_nats k
unfolding has_prefix
has_prefix-starts [] = refl
has_prefix-starts (x ∷ []) = ground arith
has_prefix-starts (x ∷ d ∷ []) = ground arith
has_prefix-starts (x ∷ d ∷ n ∷ []) = ground arith
has_prefix-starts (x ∷ d ∷ n ∷ a ∷ []) = ground arith
has_prefix-starts (x ∷ d ∷ n ∷ a ∷ t ∷ []) = ground arith
has_prefix-starts (x ∷ d ∷ n ∷ a ∷ t ∷ s ∷ []) = ground arith
has_prefix-starts (x ∷ d ∷ n ∷ a ∷ t ∷ s ∷ e ∷ more) =
    rw
      (
        to_lower-letter b'x' x (omega arith) (omega arith),
        to_lower-dash d,
        to_lower-letter b'n' n (omega arith) (omega arith),
        to_lower-letter b'a' a (omega arith) (omega arith),
        to_lower-letter b't' t (omega arith) (omega arith),
        to_lower-letter b's' s (omega arith) (omega arith),
        to_lower-dash e,
      )
      (ground arith)

lookup-strip :
    (k : String) (md : Md)
    → lookup k (strip_reserved_headers md) ≡ (if is_reserved k then none else lookup k md)
unfolding strip_reserved_headers lookup
lookup-strip k [] = ground arith
lookup-strip k ((j, vs) ∷ md) = ground (
  arith,
  lookup-strip k md,
  lookup-insert j k vs (strip_reserved_headers md),
  λ (e : (j == k) ≡ true). ap is_reserved ((eq_iff j k).0 e),
)

-- stripReservedHeaders leaves nothing under a name that starts with x-nats-, each letter small or
-- capital, and under every other name what was there.
pub lookup-strip_reserved_headers :
    (k : String) (md : Md)
    → lookup k (strip_reserved_headers md) ≡ (if starts_x_nats (codes k) then none else lookup k md)
unfolding is_reserved
lookup-strip_reserved_headers k md =
    lookup-strip k md ∙ ap (λ b. if b then none else lookup k md) (has_prefix-starts (codes k))
