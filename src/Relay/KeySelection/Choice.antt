-- ===== src/Relay/KeySelection/Choice.antt =====
-- Which of the offered keys is taken.
use lcp_go.Common.{
  ◌≡◌, ◌⊎◌, ◌∙◌, refl, ap, subst, Bytes, Bool, true, false, not, List, [], ◌∷◌, ◌++◌, All,
  if◌then◌else◌,
}
use lcp_go.Result.{ok, >>=-eq-ok, reject_if-eq-ok, ok-injective}
use lcp_go.Packages.{Avr}
use lcp_go.Ias.{verify_report, parse_and_validate_avr}
use lcp_go.Eip712.{quote_ok}
use lcp_go.GoTime.{before}
use lcp_go.EnclaveKey.Status.{IsIn, status-cases, ids-cases}
use lcp_go.Relay.Config.{get_mrenclave}
use lcp_go.Relay.ActiveKey.Usable.{update_time_of, in_use_of}
use lcp_go.Relay.ActiveKey.{EnclaveKeyInfo}
use lcp_go.Relay.Prover.{Prover}
use lcp_go.Relay.KeySelection.{
  validate_isv_enclave_quote_status, validate_advisory_ids, is_update_needed, is_allowed_key,
  first_allowed_key, select_new_enclave_key,
}

module _ {S E F MsgId : Type 0} (pr : Prover S E F MsgId) where
  -- a key with a verified report, whose status is the good one or a configured one and whose
  -- advisories, if any, are all configured; it needs no update: half of the key expiration after its
  -- attestation has not passed, and the service knows it
  pub record IsAllowedKey (env : E) (eki : EnclaveKeyInfo) : Type 0 where
    pub avr : Avr
    pub verified :
        verify_report pr.packages eki.report eki.signature eki.signing_cert (pr.now env) ≡ ok tt
    pub parsed : parse_and_validate_avr pr.packages eki.report ≡ ok avr
    pub in_time : is_update_needed pr env eki ≡ ok false
    pub allowed_status :
        (avr.quote_status ≡ quote_ok) ⊎ IsIn avr.quote_status pr.config.allowed_quote_statuses
    pub allowed_ids :
        (avr.advisory_ids ≡ [])
        ⊎ (pr.no_difference avr.advisory_ids pr.config.allowed_advisory_ids ≡ true)
    pub early : before (update_time_of pr.config.key_expiration eki) (pr.now env) ≡ false
    pub known : (pr.services env).enclave_key eki.enclave_key_address ≡ ok tt

  tests_of :
      (needed status ids : Bool)
      → (if needed
          then false
          else (if not status then false else (if not ids then false else true)))
        ≡ true
      → (needed ≡ false) × (status ≡ true) × (ids ≡ true)
  tests_of true status ids h = cc
  tests_of false false ids h = cc
  tests_of false true false h = cc
  tests_of false true true h = (refl, refl, refl)

  is_allowed_key_sound :
      (env : E) (eki : EnclaveKeyInfo) → is_allowed_key pr env eki ≡ ok true → IsAllowedKey env eki
  unfolding is_allowed_key validate_isv_enclave_quote_status validate_advisory_ids is_update_needed
  is_allowed_key_sound env eki h =
      let (_, verified, h1) =
        >>=-eq-ok (verify_report pr.packages eki.report eki.signature eki.signing_cert (pr.now env))
          _ h in
      let (avr, parsed, h2) = >>=-eq-ok (parse_and_validate_avr pr.packages eki.report) _ h1 in
      let (needed, checked, h3) = >>=-eq-ok (is_update_needed pr env eki) _ h2 in
      let (n, status, ids) = tests_of needed _ _ (ok-injective _ true h3) in
      let early_known =
        in_use_of (pr.services env) pr.config.key_expiration (pr.now env) eki (checked ∙ ap ok n) in
      record {
        avr = avr;
        verified = verified;
        parsed = parsed;
        in_time = checked ∙ ap ok n;
        allowed_status = status-cases avr.quote_status pr.config.allowed_quote_statuses status;
        allowed_ids = ids-cases avr.advisory_ids _ ids;
        early = early_known.0;
        known = early_known.1;
      }

  -- where a key stands among those that are offered: the first that is allowed
  pub record IsChosen (env : E) (keys : List EnclaveKeyInfo) (eki : EnclaveKeyInfo) : Type 0 where
    pub front : List EnclaveKeyInfo
    pub back : List EnclaveKeyInfo
    pub place : keys ≡ front ++ eki ∷ back
    pub passed_over : All (λ k. is_allowed_key pr env k ≡ ok false) front
    pub chosen : IsAllowedKey env eki

  first_allowed_key-IsChosen :
      (env : E) (keys : List EnclaveKeyInfo) (eki : EnclaveKeyInfo)
      → first_allowed_key pr env keys ≡ ok eki
      → IsChosen env keys eki
  unfolding first_allowed_key
  first_allowed_key-IsChosen env [] eki h = cc
  first_allowed_key-IsChosen env (k ∷ rest) eki h =
      let (allowed, tested, h1) = >>=-eq-ok (is_allowed_key pr env k) _ h in
      go allowed (λ e. first_allowed_key-IsChosen env rest eki e) tested h1
    where
      go :
          (allowed : Bool)
          → (first_allowed_key pr env rest ≡ ok eki → IsChosen env rest eki)
          → is_allowed_key pr env k ≡ ok allowed
          → (elim allowed [ true ↦ ok k | false ↦ first_allowed_key pr env rest ]) ≡ ok eki
          → IsChosen env (k ∷ rest) eki
      go true others t e = subst (IsChosen env (k ∷ rest)) (ok-injective k eki e) (record {
        front = [];
        back = rest;
        place = refl;
        passed_over = tt;
        chosen = is_allowed_key_sound env k t;
      })
      go false others t e =
          let c = others e in
          record {
            front = k ∷ c.front;
            back = c.back;
            place = ap (λ r. k ∷ r) (c.place);
            passed_over = (t, c.passed_over);
            chosen = c.chosen;
          }

  -- The key that is selected is the first of those offered for the configured measurement that is
  -- allowed: its report is verified, its quote status is the good one or a configured one, it has no
  -- advisories or none outside the configured ones, half of the key expiration after its attestation
  -- has not passed, and the service knows it. Each key before it was tested and not allowed.
  pub select_new_enclave_key-IsChosen :
      (env : E) (eki : EnclaveKeyInfo)
      → select_new_enclave_key pr env ≡ ok eki
      → (mrenclave : Bytes) × (keys : List EnclaveKeyInfo) × (get_mrenclave pr.config
          ≡ ok mrenclave)
        × (pr.available_enclave_keys env mrenclave ≡ ok keys)
        × IsChosen env keys eki
  unfolding select_new_enclave_key
  select_new_enclave_key-IsChosen env eki h =
      let (m, configured, h1) = >>=-eq-ok (get_mrenclave pr.config) _ h in
      let (keys, offered, h2) = >>=-eq-ok (pr.available_enclave_keys env m) _ h1 in
      let (_, h3) = reject_if-eq-ok _ _ _ h2 in
      (m, keys, configured, offered, first_allowed_key-IsChosen env keys eki h3)
