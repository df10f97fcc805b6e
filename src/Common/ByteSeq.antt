-- ===== src/Common/ByteSeq.antt =====
-- Byte sequences: `[]byte`, `[32]byte`, `string` and addresses are lists of byte values.
use Prim.Native.Nat.{ℕ, zero, suc, ◌+◌, ◌*◌, ◌/◌, ◌%◌, compare, Ordering}
use Prim.Native.Char.{code}
use Prim.Native.String.{String}
use mathlib.Core.Path.{◌≡◌, refl}
use mathlib.Core.Logic.{◌↔◌, ◌≢◌, inl, inr}
use mathlib.Core.Bool.{Bool, true, false, ◌&&◌}
use mathlib.Core.List.{List, [], ◌∷◌, ◌++◌}
use native.Mathlib.Omega.{arith}
use lcp_go.Common.Tests.{ltb, ◌==◌, Bool-cases, if◌then◌else◌}
use lcp_go.Common.Lists.{All}

abbrev pub Bytes : Type 0
Bytes = List ℕ

-- the bytes of a text in ASCII
abbrev pub codes : String → Bytes
codes String.[] = []
codes (String.◌∷◌ c s) = code c ∷ codes s

-- `bytes.Equal(a, b)`, and `a == b` on arrays and strings
unfoldable pub bytes_eq : Bytes → Bytes → Bool
bytes_eq [] [] = true
bytes_eq [] (b ∷ bs) = false
bytes_eq (a ∷ as') [] = false
bytes_eq (a ∷ as') (b ∷ bs) = (a == b) && bytes_eq as' bs

pub bytes_eq_refl : (a : Bytes) → bytes_eq a a ≡ true
unfolding bytes_eq
bytes_eq_refl [] = refl
bytes_eq_refl (a ∷ as') = ground (arith, bytes_eq_refl as')

pub bytes_eq_sound : (a b : Bytes) → bytes_eq a b ≡ true → a ≡ b
unfolding bytes_eq
bytes_eq_sound [] [] h = refl
bytes_eq_sound [] (b ∷ bs) h = cc
bytes_eq_sound (a ∷ as') [] h = cc
bytes_eq_sound (a ∷ as') (b ∷ bs) h = ground (arith, bytes_eq_sound as' bs)

pub bytes_eq_iff : (a b : Bytes) → (bytes_eq a b ≡ true) ↔ (a ≡ b)
bytes_eq_iff a b = (bytes_eq_sound a b, λ e. rw e (bytes_eq_refl b))

-- `bytes.Compare(a, b) > 0`
unfoldable pub bytes_gt : Bytes → Bytes → Bool
bytes_gt [] b = false
bytes_gt (a ∷ as') [] = true
bytes_gt (a ∷ as') (b ∷ bs) =
    let rest = bytes_gt as' bs in
    elim (compare a b) [ Ordering.gt ↦ true | Ordering.lt ↦ false | Ordering.eq ↦ rest ]

-- the big-endian value of a byte sequence: `binary.BigEndian.Uint16(bz[:2])`, `big.Int.SetBytes`
unfoldable pub big_endian_from : ℕ → Bytes → ℕ
big_endian_from acc [] = acc
big_endian_from acc (b ∷ bs) = big_endian_from (acc * 256 + b) bs

unfoldable pub big_endian : Bytes → ℕ
unfolding big_endian_from
big_endian bz = big_endian_from 0 bz

-- `strings.HasPrefix(s, prefix)`
unfoldable pub has_prefix : Bytes → Bytes → Bool
has_prefix s [] = true
has_prefix [] (p ∷ ps) = false
has_prefix (c ∷ s) (p ∷ ps) = (c == p) && has_prefix s ps

-- puts a byte in front of the first piece
abbrev pub cons_head : ℕ → List Bytes → List Bytes
cons_head c [] = (c ∷ []) ∷ []
cons_head c (p ∷ ps) = (c ∷ p) ∷ ps

-- `strings.Split(s, sep)` for a separator of one byte
unfoldable pub split : ℕ → Bytes → List Bytes
split sep [] = [] ∷ []
split sep (c ∷ s) = let rest = split sep s in if c == sep then [] ∷ rest else cons_head c rest

-- the decimal digits of a number below 10 ^ fuel
unfoldable pub digits : ℕ → ℕ → Bytes
digits zero n = []
digits (suc fuel) n =
    let rest = digits fuel (n / 10) in
    if ltb n 10 then (48 + n) ∷ [] else rest ++ (48 + n % 10) ∷ []

-- `fmt.Sprint(n)` of a `uint64`, which has at most 20 digits
unfoldable pub sprint : ℕ → Bytes
unfolding digits
sprint n = digits 20 n

pub bytes_eq-ne : (a b : Bytes) → (a ≡ b → ⊥) → bytes_eq a b ≡ false
bytes_eq-ne a b n = elim (Bool-cases (bytes_eq a b)) [
  | inl e ↦ absurd (n (bytes_eq_sound a b e))
  | inr e ↦ e
]

-- Text with a byte in it differs from text without.
pub bytes_eq-separator :
    (sep : ℕ) (a t b : Bytes) → All (λ c. c ≢ sep) b → bytes_eq (a ++ sep ∷ t) b ≡ false
unfolding bytes_eq
bytes_eq-separator sep [] t [] h = refl
bytes_eq-separator sep [] t (c ∷ b) h = ground arith
bytes_eq-separator sep (x ∷ a) t [] h = refl
bytes_eq-separator sep (x ∷ a) t (c ∷ b) h = ground (arith, bytes_eq-separator sep a t b h.1)

pub bytes_eq-separator_right :
    (sep : ℕ) (a t b : Bytes) → All (λ c. c ≢ sep) b → bytes_eq b (a ++ sep ∷ t) ≡ false
unfolding bytes_eq
bytes_eq-separator_right sep [] t [] h = refl
bytes_eq-separator_right sep [] t (c ∷ b) h = ground arith
bytes_eq-separator_right sep (x ∷ a) t [] h = refl
bytes_eq-separator_right sep (x ∷ a) t (c ∷ b) h =
    ground (arith, bytes_eq-separator_right sep a t b h.1)
