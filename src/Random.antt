-- ===== src/Random.antt =====
-- RandInt, GenerateRandomBytes and GenerateRandomString of pkg/utils/utils.go. An int is its 64-bit
-- pattern, and `read` is rand.Read of crypto/rand.
use nats_grpc.Base.{
  refl, ap, ◌∙◌, ℕ, zero, suc, ◌+◌, ◌-◌, ◌*◌, ◌%◌, ◌≤◌, ◌<◌, ◌≡◌, true, false, [], ◌∷◌, map, arith,
  All, any, length, nat_eq, leb, if◌then◌else◌,
}
use nats_grpc.Base.Text.{codes}
use nats_grpc.Wire.{Bytes, other, Result, ok, err}

abbrev pub word : ℕ
word = 18446744073709551616

abbrev pub half_word : ℕ
half_word = 9223372036854775808

-- The patterns of the ints in their signed order.
abbrev pub rank : ℕ → ℕ
rank a = (a + half_word) % word

-- binary.BigEndian.Uint64
unfoldable pub big_endian : ℕ → Bytes → ℕ
big_endian acc [] = acc
big_endian acc (b ∷ bs) = big_endian (acc * 256 + b) bs

-- `uint64(max - min)`
unfoldable pub span : ℕ → ℕ → ℕ
span min max = (max + word - min) % word

-- `min + int(raw % span)`
unfoldable pub offset : ℕ → ℕ → ℕ → ℕ
unfolding span
offset min max raw = (min + raw % span min max) % word

abbrev pub letters : Bytes
letters = codes "0123456789ABCDEFGHIJKLMNOPQRSTUVWXYZabcdefghijklmnopqrstuvwxyz-_"

-- `letters[i]`; the default stands for a panic
unfoldable pub letter : ℕ → Bytes → ℕ
letter i [] = 0
letter zero (c ∷ cs) = c
letter (suc i) (c ∷ cs) = letter i cs

unfoldable pub spelled : Result Bytes → Result Bytes
spelled (err e) = err e
spelled (ok bs) = ok (map (λ b. letter (b % length letters) letters) bs)

module _ (read : ℕ → Result Bytes) where
  unfoldable pub drawn : ℕ → ℕ → Result Bytes → Result ℕ
  drawn min max (err e) = err e
  drawn min max (ok raw) = ok (offset min max (big_endian 0 raw))

  unfoldable pub rand_int : ℕ → ℕ → Result ℕ
  rand_int min max =
      if leb (rank max) (rank min)
      then err (other "RandInt: min must be < max")
      else drawn min max (read 8)

  unfoldable pub generate_random_bytes : ℕ → Result Bytes
  generate_random_bytes n = read n

  unfoldable pub generate_random_string : ℕ → Result Bytes
  generate_random_string n = spelled (generate_random_bytes n)

-- `min + int(r)` for an `r` below the span, with its wrap-around.
add_bounds :
    (min max r : ℕ)
    → min < word
    → max < word
    → rank min < rank max
    → r < (max + word - min) % word
    → (rank min ≤ rank ((min + r) % word)) × (rank ((min + r) % word) < rank max)
add_bounds min max r a b h k = omega arith

span_pos :
    (min max : ℕ) → min < word → max < word → rank min < rank max → 0 < (max + word - min) % word
span_pos min max a b h = omega arith

mod_lt : (n m : ℕ) → 0 < m → n % m < m
mod_lt n m h = grind arith

offset_bounds :
    (min max raw : ℕ)
    → min < word
    → max < word
    → rank min < rank max
    → (rank min ≤ rank (offset min max raw)) × (rank (offset min max raw) < rank max)
unfolding offset span
offset_bounds min max raw a b h =
    add_bounds min max (raw % ((max + word - min) % word)) a b h
      (mod_lt raw ((max + word - min) % word) (span_pos min max a b h))

module _ (read : ℕ → Result Bytes) (min max : ℕ) where
  -- RandInt refuses bounds with min >= max. For any other two ints, also where their difference is
  -- no int, it returns an int of [min, max) for every 8 bytes that the random source gives.
  pub rand_int_bounds :
      (raw : Bytes)
      → read 8 ≡ ok raw
      → min < word
      → max < word
      → (rank max ≤ rank min → rand_int read min max ≡ err (other "RandInt: min must be < max"))
        × (rank min < rank max
            → (r : ℕ) × (rand_int read min max ≡ ok r) × (rank min ≤ rank r) × (rank r < rank max))
  unfolding rand_int drawn
  rand_int_bounds raw e a b = (
    λ h. rw (le→leb (rank max) (rank min) h),
    λ h.
        let (low, high) = offset_bounds min max (big_endian 0 raw) a b h in
        (
          offset min max (big_endian 0 raw),
          rw (lt→leb (rank max) (rank min) h, e, drawn),
          low,
          high,
        ),
  )
    where
      le→leb : (x y : ℕ) → x ≤ y → leb x y ≡ true
      le→leb x y h = ground arith

      lt→leb : (x y : ℕ) → y < x → leb x y ≡ false
      lt→leb x y h = ground arith

get-any : (i : ℕ) (cs : Bytes) → i < length cs → any (λ c. nat_eq c (letter i cs)) cs ≡ true
unfolding letter
get-any i [] h = absurd (omega arith)
get-any zero (c ∷ cs) h = ground arith
get-any (suc i) (c ∷ cs) h = ground (arith, get-any i cs)

module _ (read : ℕ → Result Bytes) where
  length-spelled :
      (bs : Bytes) → length (map (λ b. letter (b % length letters) letters) bs) ≡ length bs
  length-spelled [] = refl
  length-spelled (b ∷ bs) = ap suc (length-spelled bs)

  abbrev pub IsLetter : ℕ → Type 0
  IsLetter c = any (λ l. nat_eq l c) letters ≡ true

  spelled-IsLetter : (bs : Bytes) → All IsLetter (map (λ b. letter (b % length letters) letters) bs)
  spelled-IsLetter [] = tt
  spelled-IsLetter (b ∷ bs) = (
    get-any (b % length letters) letters (mod_lt b (length letters) (omega arith)),
    spelled-IsLetter bs,
  )

  -- Where the random source gives as many bytes as it is asked for, GenerateRandomString returns a
  -- text of that length over the 64 letters, and no index is out of range.
  pub generate_random_string_bounds :
      (n : ℕ) (bs : Bytes)
      → read n ≡ ok bs
      → length bs ≡ n
      → (s : Bytes) × (generate_random_string read n ≡ ok s) × (length s ≡ n) × All IsLetter s
  unfolding generate_random_string spelled generate_random_bytes
  generate_random_string_bounds n bs e l = (
    map (λ b. letter (b % length letters) letters) bs,
    rw (e, spelled),
    length-spelled bs ∙ l,
    spelled-IsLetter bs,
  )
