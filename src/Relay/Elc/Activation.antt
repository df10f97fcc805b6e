-- ===== src/Relay/Elc/Activation.antt =====
-- relay/lcp.go: `activateClient`, which brings the client on the counterparty to the latest header.
use lcp_go.Common.{ℕ, ◌+◌, ◌%◌, Bytes, true, List, length, ◌==◌}
use lcp_go.Common.Int.{two_64}
use lcp_go.Result.{ok, reject_if, plain, no_available_updates}
use lcp_go.Relay.Prover.{Prover, ProverState, Response}
use lcp_go.Relay.Action.{Action, ◌>>=◌, ◌>>◌, pure, reads}
use lcp_go.Relay.Registering.{send_messages}
use lcp_go.Relay.KeyUpdate.{update_eki_if_needed}
use lcp_go.Relay.Elc.{update_elc}
use lcp_go.Relay.Elc.UpdateMessages.{update_messages}

module _ {S E F MsgId : Type 0} (pr : Prover S E F MsgId) where
  -- one attempt to get updates
  unfoldable pub try_update : Action (ProverState E F MsgId) (List Response)
  try_update = do
    updates ← update_elc pr pr.config.elc_client_id true
    pure (reject_if (length updates == 0) (plain no_available_updates))
    pure (ok updates)

  -- `retry` is `retry.Do` of avast/retry-go, with the number of attempts
  unfoldable pub activate_client :
      (ℕ
        → Action (ProverState E F MsgId) (List Response)
        → Action (ProverState E F MsgId) (List Response))
      → Bytes
      → ℕ
      → Action (ProverState E F MsgId) (Unit {0})
  activate_client retry client_id retry_max_attempts = do
    update_eki_if_needed pr
    updates ← retry ((retry_max_attempts + 1) % two_64) try_update
    signer ← reads (λ st. pr.get_address st.env)
    msgs ← pure (update_messages pr client_id signer updates)
    ids ← send_messages pr msgs
    pure (ok tt)
