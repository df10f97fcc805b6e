-- ===== src/Relay/Config/Hex.antt =====
-- Hexadecimal text is read back.
use lcp_go.Common.{
  ℕ, ◌+◌, ◌/◌, ◌%◌, ◌<◌, ◌≡◌, refl, ap, Bytes, ◌&&◌, some, [], ◌∷◌, ◌++◌, All, codes, has_prefix,
  leb, ltb, arith, if◌then◌else◌,
}
use lcp_go.Result.{ok}
use lcp_go.Relay.Config.{hex_digit, hex_decode, to_lower, trim_prefix, decode_mrenclave_hex}

-- the digit of a value below 16, in lower case
abbrev pub digit_of : ℕ → ℕ
digit_of n = if ltb n 10 then 48 + n else 87 + n

-- the text of bytes, two digits for each
abbrev pub hex_text : Bytes → Bytes
hex_text [] = []
hex_text (b ∷ bs) = digit_of (b / 16) ∷ digit_of (b % 16) ∷ hex_text bs

hex_digit-digit_of : (n : ℕ) → n < 16 → hex_digit (digit_of n) ≡ some n
unfolding hex_digit
hex_digit-digit_of n h = ground arith

lower_digit :
    (n : ℕ)
    → n < 16
    → (if leb 65 (digit_of n) && leb (digit_of n) 90 then digit_of n + 32 else digit_of n)
      ≡ digit_of n
lower_digit n h = ground arith

to_lower-hex_text : (bs : Bytes) → All (λ b. b < 256) bs → to_lower (hex_text bs) ≡ hex_text bs
unfolding to_lower
to_lower-hex_text [] h = refl
to_lower-hex_text (b ∷ bs) h = cc (
  lower_digit (b / 16) (omega (arith, h.0)),
  lower_digit (b % 16) (omega arith),
  to_lower-hex_text bs (h.1),
)

hex_decode-hex_text : (bs : Bytes) → All (λ b. b < 256) bs → hex_decode (hex_text bs) ≡ ok bs
unfolding hex_decode
hex_decode-hex_text [] h = refl
hex_decode-hex_text (b ∷ bs) h =
    rw
      (
        hex_digit-digit_of (b / 16) (omega (arith, h.0)),
        hex_digit-digit_of (b % 16) (omega arith),
        hex_decode-hex_text bs (h.1),
      )
      (ap (λ n. ok (n ∷ bs)) (omega arith))

trim-hex_text : (bs : Bytes) → trim_prefix (codes "0x" ++ hex_text bs) (codes "0x") ≡ hex_text bs
unfolding trim_prefix has_prefix
trim-hex_text bs = refl

-- A measurement written in hexadecimal digits after "0x" is decoded to its bytes.
pub decode_mrenclave_hex-hex_text :
    (bs : Bytes) → All (λ b. b < 256) bs → decode_mrenclave_hex (codes "0x" ++ hex_text bs) ≡ ok bs
unfolding decode_mrenclave_hex
decode_mrenclave_hex-hex_text bs h =
    rw (trim-hex_text bs, to_lower-hex_text bs h, hex_decode-hex_text bs h) refl
