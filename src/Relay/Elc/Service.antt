-- ===== src/Relay/Elc/Service.antt =====
-- relay/lcp.go: what the prover reads for a call of the LCP service.
use lcp_go.Common.{Bytes, Option, none, some}
use lcp_go.Result.{Result, ok, panic, ◌>>=◌}
use lcp_go.Types.{Height}
use lcp_go.Packages.{AnyValue}
use lcp_go.Relay.Prover.{Prover, ProverState}

module _ {S E F MsgId : Type 0} (pr : Prover S E F MsgId) where
  -- `pr.activeEnclaveKey.EnclaveKeyAddress`, a panic where there is no key
  unfoldable pub active_key_address : ProverState E F MsgId → Result Bytes
  active_key_address st = elim st.keys.active_enclave_key [
    | none ↦ panic
    | some eki ↦ ok eki.enclave_key_address
  ]

  -- the part of `createELC` and `restoreELC` on the origin's initial state
  unfoldable pub initial_state :
      Option Height → ProverState E F MsgId → Result (AnyValue × AnyValue)
  initial_state height st = do
    states ← pr.create_initial_state st.env height
    any_client_state ← (states.0).packed
    any_consensus_state ← (states.1).packed
    ok (any_client_state, any_consensus_state)

  -- `LCPQuerier.QueryClientState`
  unfoldable pub lcp_query_client_state : E → Bytes → Result AnyValue
  lcp_query_client_state env client_id = do res ← pr.client env client_id; ok res.client_state
