-- ===== src/EnclaveKey/Status.antt =====
-- light-clients/lcp/types/update.go: which quote statuses and advisories pass.
use lcp_go.Common.{
  ◌≡◌, ◌≢◌, ◌⊎◌, inl, inr, refl, ap, sym, ◌∙◌, Bytes, Bool, true, false, List, [], ◌∷◌, ◌++◌,
  length, bytes_eq, bytes_eq_iff, bytes_eq_sound, not-eq-false, Bool-cases, ◌==◌, ==_iff,
  if◌then◌else◌,
}
use lcp_go.Result.{ok, reject_if-eq-ok, reject_if-last}
use lcp_go.Types.{ClientState}
use lcp_go.Packages.{Packages}
use lcp_go.Eip712.{quote_ok}
use lcp_go.EnclaveKey.{
  is_allowed_status_in, is_allowed_status, is_allowed_advisory_ids, check_quote_status,
}

-- a text stands in a list
abbrev pub IsIn : Bytes → List Bytes → Type 0
IsIn x xs = (front : List Bytes) × (back : List Bytes) × (xs ≡ front ++ x ∷ back)

pub is_allowed_status_in-IsIn :
    (status : Bytes) (statuses : List Bytes)
    → is_allowed_status_in status statuses ≡ true
    → IsIn status statuses
unfolding is_allowed_status_in
is_allowed_status_in-IsIn status [] h = cc
is_allowed_status_in-IsIn status (s ∷ rest) h =
    go (bytes_eq status s) refl (is_allowed_status_in-IsIn status rest) h
  where
    go :
        (same : Bool)
        → bytes_eq status s ≡ same
        → (is_allowed_status_in status rest ≡ true → IsIn status rest)
        → (if same then true else is_allowed_status_in status rest) ≡ true
        → IsIn status (s ∷ rest)
    go true e others t = ([], rest, ap (λ x. x ∷ rest) (sym (bytes_eq_sound status s e)))
    go false e others t =
        let (front, back, place) = others t in (s ∷ front, back, ap (λ r. s ∷ r) place)

pub length-eq-zero : (ids : List Bytes) → (length ids == 0) ≡ true → ids ≡ []
length-eq-zero [] h = refl
length-eq-zero (id ∷ ids) h = cc ((==_iff (length (id ∷ ids)) 0).0 h)

-- a status that is the good one or a listed one
pub status-cases :
    (status : Bytes) (statuses : List Bytes)
    → (if bytes_eq status quote_ok then true else is_allowed_status_in status statuses) ≡ true
    → (status ≡ quote_ok) ⊎ IsIn status statuses
status-cases status statuses h = go (bytes_eq status quote_ok) refl h
  where
    go :
        (good : Bool)
        → bytes_eq status quote_ok ≡ good
        → (if good then true else is_allowed_status_in status statuses) ≡ true
        → (status ≡ quote_ok) ⊎ IsIn status statuses
    go true e t = inl (bytes_eq_sound status quote_ok e)
    go false e t = inr (is_allowed_status_in-IsIn status statuses t)

-- no advisories, or advisories that pass a test of the configured ones
pub ids-cases :
    (ids : List Bytes) (test : Bool)
    → (if length ids == 0 then true else test) ≡ true
    → (ids ≡ []) ⊎ (test ≡ true)
ids-cases ids test h = go (length ids == 0) refl h
  where
    go :
        (empty : Bool)
        → (length ids == 0) ≡ empty
        → (if empty then true else test) ≡ true
        → (ids ≡ []) ⊎ (test ≡ true)
    go true e t = inl (length-eq-zero ids e)
    go false e t = inr t

module _ {S : Type 0} (p : Packages S) where
  -- The good status without advisories; or another one that the client state lists, without
  -- advisories or with advisories that its list contains.
  abbrev pub IsAllowedQuote : ClientState → Bytes → List Bytes → Type 0
  IsAllowedQuote cs status ids =
      ((status ≡ quote_ok) × (ids ≡ []))
      ⊎ ((status ≢ quote_ok)
          × IsIn status cs.allowed_quote_statuses
          × ((ids ≡ []) ⊎ (p.set_contains cs.allowed_advisory_ids ids ≡ true)))

  pub check_quote_status_sound :
      (cs : ClientState) (status : Bytes) (ids : List Bytes)
      → check_quote_status p cs status ids ≡ ok tt
      → IsAllowedQuote cs status ids
  unfolding check_quote_status is_allowed_status is_allowed_advisory_ids
  check_quote_status_sound cs status ids h = elim (Bool-cases (bytes_eq status quote_ok)) [
    | inl e ↦ inl (
      bytes_eq_sound status quote_ok e,
      length-eq-zero ids (not-eq-false _ (reject_if-last _ _ (rw e at h))),
    )
    | inr e ↦
        let (listed, h1) = reject_if-eq-ok _ _ _ (rw e at h) in
        let allowed = not-eq-false _ listed in
        let ids_allowed = not-eq-false _ (reject_if-last _ _ h1) in
        inr (
          λ same. cc (sym e ∙ (bytes_eq_iff status quote_ok).1 same),
          is_allowed_status_in-IsIn status cs.allowed_quote_statuses allowed,
          ids-cases ids _ ids_allowed,
        )
  ]
