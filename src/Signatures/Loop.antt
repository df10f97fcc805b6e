-- ===== src/Signatures/Loop.antt =====
-- The loop over operators and signatures: the count reaches the number of operators exactly when
-- every signature counts.
use lcp_go.Common.{
  AllPairs, ℕ, suc, ◌+◌, ◌%◌, ◌≤◌, ◌<◌, ◌≡◌, Bytes, Bool, true, List, [], ◌∷◌, length, arith,
}
use lcp_go.Common.Int.{two_64}
use lcp_go.Result.{Result, ok}
use lcp_go.Types.{Address}
use lcp_go.Signatures.{for_operators}

module _ (check : Address → Bytes → Result Bool) where
  abbrev pub Counts : Address → Bytes → Type 0
  Counts op sig = check op sig ≡ ok true

  pub for_operators-le :
      (operators : List Address) (signatures : List Bytes) (n r : ℕ)
      → n + length operators < two_64
      → for_operators check operators signatures n ≡ ok r
      → r ≤ n + length operators
  unfolding for_operators
  for_operators-le [] signatures n r small h = ground arith
  for_operators-le (op ∷ operators) [] n r small h = cc
  for_operators-le (op ∷ operators) (sig ∷ signatures) n r small h = ground (
    arith,
    for_operators-le operators signatures n r,
    for_operators-le operators signatures ((n + 1) % two_64) r,
  )

  -- A full count needs every signature.
  pub for_operators_full :
      (operators : List Address) (signatures : List Bytes) (n : ℕ)
      → n + length operators < two_64
      → for_operators check operators signatures n ≡ ok (n + length operators)
      → AllPairs Counts operators signatures
  unfolding for_operators
  for_operators_full [] signatures n small h = tt
  for_operators_full (op ∷ operators) [] n small h = cc
  for_operators_full (op ∷ operators) (sig ∷ signatures) n small h =
      let counts : check op sig ≡ ok true =
        ground (arith, for_operators-le operators signatures n (n + suc (length operators))) in
      (counts, for_operators_full operators signatures (n + 1) (omega arith) (ground arith))

  -- With every signature the count is full.
  pub for_operators_all :
      (operators : List Address) (signatures : List Bytes) (n : ℕ)
      → n + length operators < two_64
      → AllPairs Counts operators signatures
      → for_operators check operators signatures n ≡ ok (n + length operators)
  unfolding for_operators
  for_operators_all [] signatures n small h = ground arith
  for_operators_all (op ∷ operators) [] n small h = elim h [ ]
  for_operators_all (op ∷ operators) (sig ∷ signatures) n small h =
      ground (arith, h.0, for_operators_all operators signatures ((n + 1) % two_64))
