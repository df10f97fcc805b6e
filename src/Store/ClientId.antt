-- ===== src/Store/ClientId.antt =====
-- The client id is read back from the prefix of the client's store.
use lcp_go.Common.{
  ℕ, suc, ◌-◌, ◌≡◌, ◌≢◌, ◌∙◌, refl, ap, subst, Bytes, true, false, some, List, [], ◌∷◌, ◌++◌, All,
  codes, length, length-append, get_or, split, cons_head, has_prefix, ltb, ◌==◌, Bool-cases, arith,
  inl, inr,
}
use lcp_go.Result.{ok}
use lcp_go.Packages.{Packages}
use lcp_go.Store.{client_type_lcp, validate_client_id, client_id_of_prefix, get_client_id}

cons_head-append :
    (c : ℕ) (xs ys : List Bytes) → xs ≢ [] → cons_head c (xs ++ ys) ≡ cons_head c xs ++ ys
cons_head-append c [] ys h = absurd (h refl)
cons_head-append c (x ∷ xs) ys h = refl

split-ne-nil : (sep : ℕ) (s : Bytes) → split sep s ≢ []
unfolding split
split-ne-nil sep [] h = cc
split-ne-nil sep (c ∷ s) h = ground arith

-- Splitting at a separator in the middle.
split-append : (sep : ℕ) (a t : Bytes) → split sep (a ++ sep ∷ t) ≡ split sep a ++ split sep t
unfolding split
split-append sep [] t = ground arith
split-append sep (c ∷ a) t = elim (Bool-cases (c == sep)) [
  | inl e ↦ rw e (ap (λ r. [] ∷ r) (split-append sep a t))
  | inr e ↦ rw e (
      ap (cons_head c) (split-append sep a t)
      ∙ cons_head-append c (split sep a) (split sep t) (split-ne-nil sep a))
]

split_one : (sep : ℕ) (s : Bytes) → All (λ c. c ≢ sep) s → split sep s ≡ s ∷ []
unfolding split
split_one sep [] h = refl
split_one sep (c ∷ s) h = ground (arith, split_one sep s h.1)

second_to_last :
    (xs : List Bytes) (id z d : Bytes)
    → get_or (xs ++ id ∷ z ∷ []) (length (xs ++ id ∷ z ∷ []) - 2) d ≡ id
second_to_last [] id z d = refl
second_to_last (x ∷ xs) id z d =
    let rest = xs ++ id ∷ z ∷ [] in
    let e : suc (length rest - 2) ≡ suc (length rest) - 2 =
      omega (arith, length-append xs (id ∷ z ∷ [])) in
    subst (λ n. get_or (x ∷ rest) n d ≡ id) e (second_to_last xs id z d)

module _ {S : Type 0} (p : Packages S) where
  -- a client id in the format of 02-client with the prefix of this client type, and without a slash
  pub record IsClientId (id : Bytes) : Type 0 where
    pub well_formed : p.ibc.is_valid_client_id id ≡ true
    pub lcp_prefix : has_prefix id client_type_lcp ≡ true
    pub no_slash : All (λ c. c ≢ 47) id

  split_prefix :
      (front id : Bytes)
      → All (λ c. c ≢ 47) id
      → split 47 (front ++ 47 ∷ (id ++ 47 ∷ [])) ≡ split 47 front ++ id ∷ [] ∷ []
  unfolding split
  split_prefix front id h =
      split-append 47 front (id ++ 47 ∷ [])
      ∙ ap (λ r. split 47 front ++ r)
          (split-append 47 id [] ∙ ap (λ r. r ++ [] ∷ []) (split_one 47 id h))

  not_short : (xs : List Bytes) (id : Bytes) → xs ≢ [] → ltb (length (xs ++ id ∷ [] ∷ [])) 3 ≡ false
  not_short [] id h = absurd (h refl)
  not_short (x ∷ xs) id h = ground (arith, length-append xs (id ∷ [] ∷ []))

  -- From a store whose prefix is "<front>/{id}/", whatever stands in front, the id is found.
  pub get_client_id-prefix :
      (s : S) (front id : Bytes)
      → p.kv.prefix s ≡ some (front ++ 47 ∷ (id ++ 47 ∷ []))
      → IsClientId id
      → get_client_id p s ≡ ok id
  unfolding get_client_id client_id_of_prefix validate_client_id
  get_client_id-prefix s front id e c = rw e (
      rw (split_prefix front id c.no_slash) (
        rw (not_short (split 47 front) id (split-ne-nil 47 front)) (
          rw (second_to_last (split 47 front) id [] (codes ""))
            (rw (c.well_formed) (rw (c.lcp_prefix) refl)))))
