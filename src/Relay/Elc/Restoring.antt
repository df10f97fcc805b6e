-- ===== src/Relay/Elc/Restoring.antt =====
-- relay/restore.go: `restoreELC`, which creates the LCP service's client anew from the state that the
-- counterparty's client has.
use lcp_go.Common.{ℕ, Bytes}
use lcp_go.Result.{caused, create_failed}
use lcp_go.Relay.Prover.{Prover, ProverState}
use lcp_go.Relay.Action.{Action, ◌>>=◌, ◌>>◌, pure, reads, with_error}
use lcp_go.Relay.KeySelection.{select_new_enclave_key}
use lcp_go.Relay.Elc.{call_create_client}
use lcp_go.Relay.Elc.RestoreChecks.{
  ensure_missing, state_to_restore, ensure_config_matches, origin_state, ensure_restored,
}

module _ {S E F MsgId : Type 0} (pr : Prover S E F MsgId) where
  unfoldable pub restore_elc : Bytes → ℕ → Action (ProverState E F MsgId) (Unit {0})
  restore_elc client_id height = do
    reads (λ st. ensure_missing pr client_id st.env)
    found ← reads (λ st. state_to_restore pr height st.env)
    pure (ensure_config_matches pr found.0)
    states ← reads (λ st. origin_state pr found.0 st.env)
    key ← reads (λ st. select_new_enclave_key pr st.env)
    response ← with_error (caused create_failed) (
        call_create_client pr (record {
          client_id = client_id;
          client_state = states.0;
          consensus_state = states.1;
          signer = key.enclave_key_address;
        }))
    pure (ensure_restored pr (found.1) (found.2) response)
