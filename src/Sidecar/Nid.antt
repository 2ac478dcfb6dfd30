-- ===== src/Sidecar/Nid.antt =====
-- randomNid of pkg/sidecar/sidecar.go: eight random bytes in hexadecimal, as code points.
use nats_grpc.Base.{
  ℕ, ◌+◌, ◌-◌, ◌*◌, ◌/◌, ◌%◌, ◌<◌, ◌≡◌, ◌≢◌, refl, List, [], ◌∷◌, ◌++◌, length, All, arith, ltb,
  if◌then◌else◌,
}
use nats_grpc.Base.Text.{codes}
use nats_grpc.Wire.{Bytes}

-- encoding/hex writes a byte as two digits, the high one first
abbrev pub hex_digit : ℕ → ℕ
hex_digit n = if ltb n 10 then b'0' + n else b'a' + (n - 10)

unfoldable pub hex : Bytes → List ℕ
hex [] = []
hex (b ∷ bs) = hex_digit (b / 16) ∷ hex_digit (b % 16) ∷ hex bs

unfoldable pub random_nid : Bytes → List ℕ
unfolding hex
random_nid b = codes "sc-" ++ hex b

abbrev pub IsByte : ℕ → Type 0
IsByte b = b < 256

-- a character that does not end a token of a NATS subject, nor stands for others
abbrev pub IsTokenChar : ℕ → Type 0
IsTokenChar c = (c ≢ b'.') × (c ≢ b'*') × (c ≢ b'>') × (32 < c) × (c < 127)

hex_digit-char : (n : ℕ) → n < 16 → IsTokenChar (hex_digit n)
hex_digit-char n h = (ground arith, ground arith, ground arith, ground arith, ground arith)

hex-chars : (bs : Bytes) → All IsByte bs → All IsTokenChar (hex bs)
unfolding hex
hex-chars [] h = tt
hex-chars (b ∷ bs) h = (
  hex_digit-char (b / 16) (omega arith),
  (hex_digit-char (b % 16) (omega arith), hex-chars bs h.1),
)

length-hex : (bs : Bytes) → length (hex bs) ≡ 2 * length bs
unfolding hex
length-hex [] = refl
length-hex (b ∷ bs) = omega (arith, length-hex bs)

hex_digit-cancel : (m n : ℕ) → m < 16 → n < 16 → hex_digit m ≡ hex_digit n → m ≡ n
hex_digit-cancel m n h k e = ground arith

same_head : {x y : ℕ} {xs ys : List ℕ} → x ∷ xs ≡ y ∷ ys → x ≡ y
same_head e = cc

same_tail : {x y : ℕ} {xs ys : List ℕ} → x ∷ xs ≡ y ∷ ys → xs ≡ ys
same_tail e = cc

hex-cancel : (xs ys : Bytes) → All IsByte xs → All IsByte ys → hex xs ≡ hex ys → xs ≡ ys
unfolding hex
hex-cancel [] [] h k e = refl
hex-cancel [] (b ∷ bs) h k e = absurd (cc)
hex-cancel (a ∷ xs) [] h k e = absurd (cc)
hex-cancel (a ∷ xs) (b ∷ ys) h k e =
    let high = hex_digit-cancel (a / 16) (b / 16) (omega arith) (omega arith) (same_head e) in
    let low =
      hex_digit-cancel (a % 16) (b % 16) (omega arith) (omega arith) (same_head (same_tail e)) in
    let rest = hex-cancel xs ys h.1 k.1 (same_tail (same_tail e)) in
    let first : a ≡ b = omega (arith, high, low) in cc (first, rest)

-- From eight random bytes randomNid makes a text of 19 characters that can be one token of a NATS
-- subject: none of them is a dot, a wildcard, a space or a control character. Other bytes make
-- another text.
pub random_nid-is_token :
    (b c : Bytes)
    → All IsByte b
    → All IsByte c
    → length b ≡ 8
    → (length (random_nid b) ≡ 19)
      × All IsTokenChar (random_nid b)
      × (random_nid b ≡ random_nid c → b ≡ c)
unfolding random_nid
random_nid-is_token b c h k l = (
  omega (arith, length-hex b, l),
  (omega arith, (omega arith, (omega arith, hex-chars b h))),
  λ e. hex-cancel b c h k (same_tail (same_tail (same_tail e))),
)
