-- ===== src/Signatures/Threshold.antt =====
-- A client with operators: what `VerifySignatures` accepts. The source multiplies the threshold's
-- denominator on both sides of its comparison.
use lcp_go.Common.{
  AllPairs, AllPairs-map, ℕ, ◌+◌, ◌*◌, ◌%◌, ◌<◌, ◌≤◌, ◌≡◌, ◌≢◌, ◌↔◌, refl, sym, ap, subst, ◌∙◌,
  not-eq-false, ==_iff, Bytes, Bool, true, false, not, Option, none, some, List, [], ◌∷◌, length,
  bytes_eq_iff, bytes_eq_refl, ltb, ◌==◌, arith, length-map, suc-ne-zero,
}
use native.Mathlib.Nat.{mod-eq_of_lt, zero-add, mul_comm}
use lcp_go.Common.Int.{two_64}
use lcp_go.Result.{
  Result, ok, err, panic, ◌>>=◌, ◌>>◌, reject_if, plain, ek_expired, operator_mismatch, >>=-eq-ok,
  reject_if-eq-ok,
}
use lcp_go.Types.{Address, ClientState, Context}
use lcp_go.Packages.{Packages}
use lcp_go.Eip712.{recover_address}
use lcp_go.EnclaveKey.{EkInfo, get_ek_info, require_ek, is_expired, is_match_operator}
use lcp_go.Signatures.{
  for_operators, check_operator, verify_by_operators, verify_signatures, get_operators,
}
use lcp_go.Signatures.Loop.{for_operators-le, for_operators_full, for_operators_all}
use lcp_go.Signatures.Permissionless.{SignedByKey}

length-eq-zero {ℓ} : {A : Type ℓ} (xs : List A) → xs ≢ [] → (length xs == 0) ≡ false
length-eq-zero [] h = absurd (h refl)
length-eq-zero (x ∷ xs) h = suc-ne-zero (length xs)

-- a count that meets the comparison of the source is full
pub full_of_threshold :
    (den n r : ℕ)
    → 0 < den
    → den * n < two_64
    → r ≤ n
    → ltb (r * den % two_64) (den * n % two_64) ≡ false
    → r ≡ n
full_of_threshold den n r pos_den small le h =
    let below : r * den ≤ den * n = grind arith in
    let reached : den * n ≤ r * den =
      ground (arith, mod-eq_of_lt {n = den * n} {m = two_64} small) in
    grind arith

module _ {S : Type 0} (p : Packages S) where
  -- an operator's signature by a registered, unexpired key that was registered for that operator
  pub record SignedFor (ctx : Context) (s : S) (commitment : Bytes) (op : Address) (sig : Bytes)
      : Type 0 where
    pub ek : Address
    pub info : EkInfo
    pub by_key : SignedByKey p ctx s commitment sig ek info
    pub bound : info.operator ≡ op

  abbrev operator_check : Context → Address → Result (Option EkInfo) → Result Bool
  operator_check ctx op found = do
    o ← found
    info ← require_ek p o
    reject_if (is_expired info ctx.block_time) (plain ek_expired)
    reject_if (not (is_match_operator info op)) (plain operator_mismatch)
    ok true

  operator_check_sound :
      (ctx : Context) (op : Address) (found : Result (Option EkInfo))
      → operator_check ctx op found ≡ ok true
      → (info : EkInfo) × (found ≡ ok (some info))
        × (is_expired info ctx.block_time ≡ false)
        × (info.operator ≡ op)
  unfolding require_ek is_match_operator
  operator_check_sound ctx op (ok (some info)) h =
      (info, refl, ground arith, ground (arith, bytes_eq_iff info.operator op))
  operator_check_sound ctx op (ok none) h = cc
  operator_check_sound ctx op (err e) h = cc
  operator_check_sound ctx op panic h = cc

  pub check_operator_sound :
      (ctx : Context) (s : S) (commitment : Bytes) (op : Address) (sig : Bytes)
      → check_operator p ctx s commitment op sig ≡ ok true
      → SignedFor ctx s commitment op sig
  unfolding check_operator
  check_operator_sound ctx s commitment op [] h = cc
  check_operator_sound ctx s commitment op (b ∷ sig) h =
      let (ek, r, h') =
        >>=-eq-ok (recover_address p commitment (b ∷ sig)) _ (rw (suc-ne-zero (length sig)) at h) in
      let (info, stored, fresh, bound) = operator_check_sound ctx op (get_ek_info p s ek) h' in
      record {
        ek = ek;
        info = info;
        by_key = record { recovers = r; stored = stored; unexpired = fresh };
        bound = bound;
      }

  pub check_operator_complete :
      (ctx : Context) (s : S) (commitment : Bytes) (op : Address) (sig : Bytes)
      → SignedFor ctx s commitment op sig
      → check_operator p ctx s commitment op sig ≡ ok true
  unfolding check_operator require_ek is_match_operator
  check_operator_complete ctx s commitment op [] k =
      absurd (unfold recover_address in ground (arith, k.by_key.recovers))
  check_operator_complete ctx s commitment op (b ∷ sig) k = rw (suc-ne-zero (length sig)) (
      rw (k.by_key.recovers)
        (rw (k.by_key.stored) (rw (k.by_key.unexpired) (rw (k.bound) (rw bytes_eq_refl refl)))))

  module _ (cs : ClientState) (ctx : Context) (s : S) (commitment : Bytes) (ops : List Address)
      (signatures : List Bytes) (pos_den : 0 < cs.operators_threshold_denominator)
      (few : length ops < two_64)
      (small : cs.operators_threshold_denominator * length ops < two_64) where
    verify_by_operators_sound :
        verify_by_operators p cs ctx s commitment ops signatures ≡ ok tt
        → (length ops ≡ length signatures) × AllPairs (SignedFor ctx s commitment) ops signatures
    unfolding verify_by_operators
    verify_by_operators_sound h =
        let check = check_operator p ctx s commitment in
        let few' : 0 + length ops < two_64 = rw (zero-add (length ops)) few in
        let (same, h') = reject_if-eq-ok _ _ _ h in
        let (r, counted, h'') = >>=-eq-ok (for_operators check ops signatures 0) _ h' in
        let (met, _) = reject_if-eq-ok _ _ _ h'' in
        let at_most : r ≤ length ops =
          subst (λ n. r ≤ n) (zero-add (length ops))
            (for_operators-le check ops signatures 0 r few' counted) in
        let full : r ≡ length ops =
          full_of_threshold cs.operators_threshold_denominator (length ops) r pos_den small at_most
            met in
        let all =
          for_operators_full check ops signatures 0 few'
            (counted ∙ ap ok (full ∙ sym (zero-add (length ops)))) in
        (
          (==_iff (length ops) (length signatures)).0 (not-eq-false _ same),
          AllPairs-map ops signatures (check_operator_sound ctx s commitment) all,
        )

    verify_by_operators_complete :
        length ops ≡ length signatures
        → AllPairs (SignedFor ctx s commitment) ops signatures
        → verify_by_operators p cs ctx s commitment ops signatures ≡ ok tt
    unfolding verify_by_operators
    verify_by_operators_complete same all =
        let few' : 0 + length ops < two_64 = rw (zero-add (length ops)) few in
        let check = check_operator p ctx s commitment in
        let counted : for_operators check ops signatures 0 ≡ ok (length ops) =
          for_operators_all check ops signatures 0 few'
            (AllPairs-map ops signatures (check_operator_complete ctx s commitment) all)
          ∙ ap ok (zero-add (length ops)) in
        rw ((==_iff (length ops) (length signatures)).1 same) (
          rw counted (rw (mul_comm (length ops) cs.operators_threshold_denominator) (ground arith)))

  pub length-get_operators : (cs : ClientState) → length (get_operators p cs) ≡ length cs.operators
  unfolding get_operators
  length-get_operators cs = length-map cs.operators p.eth.bytes_to_address

  by_operators :
      (cs : ClientState) (ctx : Context) (s : S) (commitment : Bytes) (signatures : List Bytes)
      → cs.operators ≢ []
      → verify_signatures p cs ctx s commitment signatures
        ≡ verify_by_operators p cs ctx s commitment (get_operators p cs) signatures
  unfolding verify_signatures
  by_operators cs ctx s commitment signatures some_left =
      rw (length-get_operators cs) (rw (length-eq-zero cs.operators some_left) refl)

  -- A client with operators, a positive threshold denominator, and a product of the denominator
  -- and the number of operators below 2^64 accepts signatures exactly when there are as many as
  -- operators and every operator has one at its place, by an enclave key that is registered for
  -- it and not expired.
  pub verify_signatures_operators :
      (cs : ClientState) (ctx : Context) (s : S) (commitment : Bytes) (signatures : List Bytes)
      → cs.operators ≢ []
      → 0 < cs.operators_threshold_denominator
      → cs.operators_threshold_denominator * length cs.operators < two_64
      → (verify_signatures p cs ctx s commitment signatures ≡ ok tt) ↔ (
          (length cs.operators ≡ length signatures)
          × AllPairs (SignedFor ctx s commitment) (get_operators p cs) signatures)
  verify_signatures_operators cs ctx s commitment signatures some_left pos_den small =
      let same = length-get_operators cs in
      let few : length cs.operators < two_64 = grind arith in
      let few' = subst (λ n. n < two_64) (sym same) few in
      let small' = subst (λ n. cs.operators_threshold_denominator * n < two_64) (sym same) small in
      let eq = by_operators cs ctx s commitment signatures some_left in
      (
        λ h.
            let (lengths, all) =
              verify_by_operators_sound cs ctx s commitment (get_operators p cs) signatures pos_den
                few' small' (sym eq ∙ h) in
            (sym same ∙ lengths, all),
        λ w.
            eq
            ∙ verify_by_operators_complete cs ctx s commitment (get_operators p cs) signatures
                pos_den few' small' (same ∙ w.0) w.1,
      )
