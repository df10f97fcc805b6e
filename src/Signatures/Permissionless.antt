-- ===== src/Signatures/Permissionless.antt =====
-- A client with no operators: one signature by any registered key that has not expired.
use lcp_go.Common.{
  ◌≡◌, ◌↔◌, refl, Bytes, true, false, Option, none, some, List, [], ◌∷◌, length, get_or,
  not-eq-false, ◌==◌, arith,
}
use lcp_go.Result.{
  Result, ok, err, panic, ◌>>=◌, ◌>>◌, reject_if, plain, ek_expired, >>=-eq-ok, reject_if-eq-ok,
}
use lcp_go.Types.{Address, ClientState, Context}
use lcp_go.Packages.{Packages}
use lcp_go.Eip712.{recover_address}
use lcp_go.EnclaveKey.{EkInfo, get_ek_info, require_ek, is_expired}
use lcp_go.Signatures.{check_permissionless, verify_signatures, get_operators}

module _ {S : Type 0} (p : Packages S) where
  -- a signature by an enclave key that the store holds and that has not expired
  pub record SignedByKey (ctx : Context) (s : S) (commitment sig : Bytes) (ek : Address)
      (info : EkInfo) : Type 0 where
    pub recovers : recover_address p commitment sig ≡ ok ek
    pub stored : get_ek_info p s ek ≡ ok (some info)
    pub unexpired : is_expired info ctx.block_time ≡ false

  abbrev key_check : Context → Result (Option EkInfo) → Result (Unit {0})
  key_check ctx found = do
    o ← found
    info ← require_ek p o
    reject_if (is_expired info ctx.block_time) (plain ek_expired)
    ok tt

  key_check_sound :
      (ctx : Context) (found : Result (Option EkInfo))
      → key_check ctx found ≡ ok tt
      → (info : EkInfo) × (found ≡ ok (some info)) × (is_expired info ctx.block_time ≡ false)
  unfolding require_ek
  key_check_sound ctx (ok (some info)) h = (info, refl, ground arith)
  key_check_sound ctx (ok none) h = cc
  key_check_sound ctx (err e) h = cc
  key_check_sound ctx panic h = cc

  pub check_permissionless_sound :
      (ctx : Context) (s : S) (commitment sig : Bytes)
      → check_permissionless p ctx s commitment sig ≡ ok tt
      → (ek : Address) × (info : EkInfo) × SignedByKey ctx s commitment sig ek info
  unfolding check_permissionless
  check_permissionless_sound ctx s commitment sig h =
      let (ek, r, h') = >>=-eq-ok (recover_address p commitment sig) _ h in
      let (info, stored, fresh) = key_check_sound ctx (get_ek_info p s ek) h' in
      (ek, info, record { recovers = r; stored = stored; unexpired = fresh })

  pub check_permissionless_complete :
      (ctx : Context) (s : S) (commitment sig : Bytes) (ek : Address) (info : EkInfo)
      → SignedByKey ctx s commitment sig ek info
      → check_permissionless p ctx s commitment sig ≡ ok tt
  unfolding check_permissionless require_ek
  check_permissionless_complete ctx s commitment sig ek info k =
      rw (k.recovers) (rw (k.stored) (rw (k.unexpired) refl))

  only_signature :
      (signatures : List Bytes)
      → (length signatures == 1) ≡ true
      → signatures ≡ get_or signatures 0 [] ∷ []
  only_signature [] h = cc
  only_signature (x ∷ []) h = refl
  only_signature (x ∷ y ∷ r) h = ground arith

  -- Without operators, signatures are accepted exactly when there is one, and it recovers to an
  -- enclave key that is registered and not expired.
  pub verify_signatures_permissionless :
      (cs : ClientState) (ctx : Context) (s : S) (commitment : Bytes) (signatures : List Bytes)
      → cs.operators ≡ []
      → (verify_signatures p cs ctx s commitment signatures ≡ ok tt) ↔ (
          (sig : Bytes) × (ek : Address) × (info : EkInfo) × (signatures ≡ sig ∷ [])
          × SignedByKey ctx s commitment sig ek info)
  unfolding verify_signatures get_operators
  verify_signatures_permissionless cs ctx s commitment signatures none_left = (
    λ h.
        let (one, h') = reject_if-eq-ok _ _ _ (rw none_left at h) in
        let (ek, info, k) =
          check_permissionless_sound ctx s commitment (get_or signatures 0 []) h' in
        (get_or signatures 0 [], ek, info, only_signature signatures (not-eq-false _ one), k),
    λ w. rw none_left (rw (w.3) (check_permissionless_complete ctx s commitment w.0 w.1 w.2 w.4)),
  )
