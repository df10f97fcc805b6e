-- ===== src/Operators/Order.antt =====
-- The test of operator lists: what it accepts.
use lcp_go.Common.{◌≡◌, refl, false, List, [], ◌∷◌, All, bytes_eq, bytes_gt}
use lcp_go.Result.{Error, ok, reject_if-eq-ok}
use lcp_go.Types.{Address}
use lcp_go.Eip712.{zero_address}
use lcp_go.Operators.{check_operators}

-- none is above the one after it; the first argument holds the one before, if there is one
abbrev pub AscendingFrom : List Address → List Address → Type 0
AscendingFrom prev [] = Unit
AscendingFrom [] (op ∷ rest) = AscendingFrom (op ∷ []) rest
AscendingFrom (prev ∷ _) (op ∷ rest) = (bytes_gt prev op ≡ false) × AscendingFrom (op ∷ []) rest

abbrev pub IsNonzero : Address → Type 0
IsNonzero op = bytes_eq op zero_address ≡ false

-- no operator is the zero address, and they stand in ascending order
abbrev pub AreOrdered : List Address → Type 0
AreOrdered ops = All IsNonzero ops × AscendingFrom [] ops

check_operators-from :
    (z o : Error) (prev ops : List Address)
    → check_operators z o prev ops ≡ ok tt
    → All IsNonzero ops × AscendingFrom prev ops
unfolding check_operators
check_operators-from z o [] [] h = (tt, tt)
check_operators-from z o (p ∷ _) [] h = (tt, tt)
check_operators-from z o [] (op ∷ rest) h =
    let (nonzero, h1) = reject_if-eq-ok _ _ _ h in
    let (others, ascending) = check_operators-from z o (op ∷ []) rest h1 in
    ((nonzero, others), ascending)
check_operators-from z o (p ∷ _) (op ∷ rest) h =
    let (nonzero, h1) = reject_if-eq-ok _ _ _ h in
    let (above, h2) = reject_if-eq-ok _ _ _ h1 in
    let (others, ascending) = check_operators-from z o (op ∷ []) rest h2 in
    ((nonzero, others), (above, ascending))

pub check_operators_sound :
    (z o : Error) (ops : List Address) → check_operators z o [] ops ≡ ok tt → AreOrdered ops
check_operators_sound z o ops h = check_operators-from z o [] ops h

check_operators-ok :
    (z o : Error) (prev ops : List Address)
    → All IsNonzero ops
    → AscendingFrom prev ops
    → check_operators z o prev ops ≡ ok tt
unfolding check_operators
check_operators-ok z o [] [] n a = refl
check_operators-ok z o (p ∷ _) [] n a = refl
check_operators-ok z o [] (op ∷ rest) n a = rw (n.0) (check_operators-ok z o (op ∷ []) rest (n.1) a)
check_operators-ok z o (p ∷ _) (op ∷ rest) n a =
    rw (n.0) (rw (a.0) (check_operators-ok z o (op ∷ []) rest (n.1) (a.1)))

pub check_operators_complete :
    (z o : Error) (ops : List Address) → AreOrdered ops → check_operators z o [] ops ≡ ok tt
check_operators_complete z o ops h = check_operators-ok z o [] ops (h.0) (h.1)
