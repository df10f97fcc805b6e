-- ===== src/Relay/KeySelection.antt =====
-- relay/lcp.go: `selectNewEnclaveKey`, the choice of an enclave key that the LCP service offers.
pub mod Choice
use lcp_go.Common.{
  Bytes, Bool, true, false, not, List, [], ◌∷◌, length, ◌==◌, bytes_eq, if◌then◌else◌, some,
}
use lcp_go.Result.{
  Result, ok, err, panic, ◌>>=◌, ◌>>◌, reject_if, plain, no_available_keys, all_keys_disallowed,
}
use lcp_go.Ias.{verify_report, parse_and_validate_avr}
use lcp_go.Eip712.{quote_ok}
use lcp_go.EnclaveKey.{is_allowed_status_in}
use lcp_go.Relay.Config.{get_mrenclave}
use lcp_go.Relay.ActiveKey.{EnclaveKeyInfo, check_eki_update_needed}
use lcp_go.Relay.Prover.{Prover}

module _ {S E F MsgId : Type 0} (pr : Prover S E F MsgId) where
  unfoldable pub validate_isv_enclave_quote_status : Bytes → Bool
  validate_isv_enclave_quote_status s =
      if bytes_eq s quote_ok then true else is_allowed_status_in s pr.config.allowed_quote_statuses

  unfoldable pub validate_advisory_ids : List Bytes → Bool
  validate_advisory_ids ids =
      if length ids == 0 then true else pr.no_difference ids pr.config.allowed_advisory_ids

  unfoldable pub is_update_needed : E → EnclaveKeyInfo → Result Bool
  is_update_needed env eki =
      check_eki_update_needed (pr.services env) pr.config.key_expiration (pr.now env) (some eki)

  -- the body of the loop: whether this key is taken
  unfoldable pub is_allowed_key : E → EnclaveKeyInfo → Result Bool
  is_allowed_key env eki = do
    verify_report pr.packages eki.report eki.signature eki.signing_cert (pr.now env)
    avr ← parse_and_validate_avr pr.packages eki.report
    needed ← is_update_needed env eki
    ok (
        if needed
        then false
        else (if not (validate_isv_enclave_quote_status avr.quote_status)
            then false
            else (if not (validate_advisory_ids avr.advisory_ids) then false else true)))

  -- the loop
  unfoldable pub first_allowed_key : E → List EnclaveKeyInfo → Result EnclaveKeyInfo
  first_allowed_key env [] = err (plain all_keys_disallowed)
  first_allowed_key env (eki ∷ rest) = is_allowed_key env eki >>= λ allowed. elim allowed [
    | true ↦ ok eki
    | false ↦ first_allowed_key env rest
  ]

  unfoldable pub select_new_enclave_key : E → Result EnclaveKeyInfo
  select_new_enclave_key env = do
    mrenclave ← get_mrenclave pr.config
    keys ← pr.available_enclave_keys env mrenclave
    reject_if (length keys == 0) (plain no_available_keys)
    first_allowed_key env keys
