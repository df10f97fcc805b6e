-- ===== src/Relay/Registering/KeyMessage.antt =====
-- relay/lcp.go: the message of `registerEnclaveKey`.
use lcp_go.Common.{Bytes, Bool, true, false, not, ◌&&◌, [], bytes_eq}
use lcp_go.Result.{
  Result, ok, ◌>>=◌, ◌>>◌, reject_if, map_err, plain, caused, report_unverified, avr_unparsed,
  quote_failed, ek_failed, operator_not_included, operator_mismatch, mrenclave_mismatch,
}
use lcp_go.Types
use lcp_go.Types.{Address, ClientState}
use lcp_go.Ias.{verify_report, parse_and_validate_avr, get_ek_and_operator}
use lcp_go.Eip712.{zero_address, compute_eip712_register_enclave_key_hash}
use lcp_go.Signatures.{get_operators}
use lcp_go.Relay.Config.{is_operator_enabled, get_signer_address}
use lcp_go.Relay.ActiveKey.{EnclaveKeyInfo}
use lcp_go.Relay.Prover.{Prover, SentMsg}
use lcp_go.Relay.Registering.Counterparty.{
  query_lcp_client_state, require_signer, contains_operator, message_for_client,
}

module _ {S E F MsgId : Type 0} (pr : Prover S E F MsgId) where
  -- the signature for the operator, or none where no operator is configured
  unfoldable pub operator_signature : Bool → ClientState → Address → Bytes → Result Bytes
  operator_signature false cs expected_operator report = ok []
  operator_signature true cs expected_operator report = do
    s ← require_signer pr
    operator ← get_signer_address pr.config_packages s
    reject_if (not (contains_operator (get_operators pr.packages cs) operator))
        (plain operator_not_included)
    reject_if
        (not (bytes_eq expected_operator zero_address) && not (bytes_eq operator expected_operator))
        (plain operator_mismatch)
    commitment ← compute_eip712_register_enclave_key_hash pr.packages report
    s.sign commitment

  unfoldable pub registration_message : E → EnclaveKeyInfo → Result SentMsg
  registration_message env eki = do
    map_err (caused report_unverified)
        (verify_report pr.packages eki.report eki.signature eki.signing_cert (pr.now env))
    avr ← map_err (caused avr_unparsed) (parse_and_validate_avr pr.packages eki.report)
    quote ← map_err (caused quote_failed) (pr.packages.ias.avr_quote avr)
    keys ← map_err (caused ek_failed) (get_ek_and_operator pr.packages quote)
    cs ← query_lcp_client_state pr env
    reject_if (not (bytes_eq cs.mrenclave quote.mrenclave)) (plain mrenclave_mismatch)
    sig ← operator_signature (is_operator_enabled pr.config) cs keys.1 eki.report
    message_for_client pr env (
        Types.register_enclave_key (record {
          report = eki.report;
          signature = eki.signature;
          signing_cert = eki.signing_cert;
          operator_signature = sig;
        }))
