-- ===== src/Relay/Aggregation/Slices.antt =====
-- Parts of lists: what slices give, and how the parts of batches are put together.
use lcp_go.Common.{
  ℕ, zero, suc, ◌+◌, ◌-◌, ◌≤◌, ◌≡◌, refl, sym, ap, ◌∙◌, true, List, [], ◌∷◌, ◌++◌, length, take,
  drop, All, leb, arith,
}
use mathlib.Core.List.{append-nil, append_assoc}
use lcp_go.Result.{ok}
use lcp_go.Relay.Aggregation.{slice}

-- the parts of all batches, one after the other
abbrev pub join {ℓ κ} : {A : Type ℓ} {B : Type κ} → (A → List B) → List A → List B
join f [] = []
join f (x ∷ xs) = f x ++ join f xs

pub join-append_one {ℓ κ} :
    {A : Type ℓ} {B : Type κ} (f : A → List B) (xs : List A) (x : A)
    → join f (xs ++ x ∷ []) ≡ join f xs ++ f x
join-append_one f [] x = append-nil (f x)
join-append_one f (y ∷ xs) x =
    ap (λ r. f y ++ r) (join-append_one f xs x) ∙ sym (append_assoc (f y) (join f xs) (f x))

pub All-append_one {ℓ κ} :
    {A : Type ℓ} (P : A → Type κ) (xs : List A) (x : A) → All P xs → P x → All P (xs ++ x ∷ [])
All-append_one P [] x all px = (px, tt)
All-append_one P (y ∷ xs) x all px = (all.0, All-append_one P xs x (all.1) px)

take_nil {ℓ} : {A : Type ℓ} (n : ℕ) → take {A = A} n [] ≡ []
take_nil zero = refl
take_nil (suc n) = refl

pub take_add {ℓ} :
    {A : Type ℓ} (a b : ℕ) (xs : List A) → take (a + b) xs ≡ take a xs ++ take b (drop a xs)
take_add zero b xs = ap (λ n. take n xs) (omega arith)
take_add (suc a) b [] = take_nil (suc a + b) ∙ sym (take_nil b)
take_add (suc a) b (x ∷ xs) =
    let e : suc a + b ≡ suc (a + b) = omega arith in
    ap (λ n. take n (x ∷ xs)) e ∙ ap (λ r. x ∷ r) (take_add a b xs)

pub slice_lem {ℓ} :
    {A : Type ℓ} (xs : List A) (a b : ℕ)
    → a + b ≤ length xs
    → slice xs a (a + b) ≡ ok (take b (drop a xs))
unfolding slice
slice_lem xs a b h =
    let below : leb a (a + b) ≡ true = ground arith in
    let inside : leb (a + b) (length xs) ≡ true = ground arith in
    let size : a + b - a ≡ b = omega arith in rw (below, inside, size) refl
