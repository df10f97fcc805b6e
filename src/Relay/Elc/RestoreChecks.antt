-- ===== src/Relay/Elc/RestoreChecks.antt =====
-- relay/restore.go: what `restoreELC` reads from the counterparty and the origin, and what it compares.
use lcp_go.Common.{ℕ, Bytes, not, Option, none, some, length, ◌==◌, bytes_eq, if◌then◌else◌}
use lcp_go.Result.{
  Result, ok, panic, ◌>>=◌, ◌>>◌, map_err, reject_if, plain, caused, query_failed, already_exists,
  unpack_state_failed, mrenclave_mismatch, expiration_mismatch, statuses_mismatch,
  advisories_mismatch, initial_state_failed, unexpected_state_id, unexpected_height,
}
use lcp_go.Types.{Height, ClientState, ConsensusState}
use lcp_go.Packages.{AnyValue}
use lcp_go.Relay.Config.{get_mrenclave}
use lcp_go.Relay.Prover.{Prover, Response, ExportedClientState, ExportedConsensusState}
use lcp_go.Relay.Elc.Results.{decode_update_state}

-- `x.(*T)`
abbrev pub cast {ℓ} : {A : Type ℓ} → Option A → Result A
cast none = panic
cast (some a) = ok a

-- 0 is the client's latest height
unfoldable pub restore_height : Height → ℕ → Height
restore_height latest height =
    if height == 0 then latest else record latest { revision_height = height }

module _ {S E F MsgId : Type 0} (pr : Prover S E F MsgId) where
  unfoldable pub ensure_missing : Bytes → E → Result (Unit {0})
  ensure_missing client_id env = do
    res ← map_err (caused query_failed) (pr.client env client_id)
    reject_if res.found (plain already_exists)

  unfoldable pub counterparty_client_state : E → Height → Result ExportedClientState
  counterparty_client_state env latest = do
    any_state ← map_err (caused query_failed) (pr.query_client_state env latest)
    map_err (caused unpack_state_failed) (pr.unpack_client_state any_state)

  unfoldable pub counterparty_consensus_state : E → Height → Height → Result ExportedConsensusState
  counterparty_consensus_state env latest height = do
    any_state ← pr.query_consensus_state env latest height
    map_err (caused unpack_state_failed) (pr.unpack_consensus_state any_state)

  -- the comparison of the configuration with the client state
  unfoldable pub ensure_config_matches : ClientState → Result (Unit {0})
  ensure_config_matches cs = do
    mrenclave ← get_mrenclave pr.config
    reject_if (not (bytes_eq mrenclave cs.mrenclave)) (plain mrenclave_mismatch)
    reject_if (not (pr.config.key_expiration == cs.key_expiration)) (plain expiration_mismatch)
    reject_if (not (length pr.config.allowed_quote_statuses == length cs.allowed_quote_statuses))
        (plain statuses_mismatch)
    reject_if (not (pr.deep_equal pr.config.allowed_quote_statuses cs.allowed_quote_statuses))
        (plain advisories_mismatch)
    reject_if (not (pr.deep_equal pr.config.allowed_advisory_ids cs.allowed_advisory_ids))
        (plain advisories_mismatch)

  -- the state that the origin prover gives for the client's latest height
  unfoldable pub origin_state : ClientState → E → Result (AnyValue × AnyValue)
  origin_state cs env = do
    states ←
        map_err (caused initial_state_failed) (pr.create_initial_state env (some cs.latest_height))
    any_client_state ← (states.0).packed
    any_consensus_state ← (states.1).packed
    ok (any_client_state, any_consensus_state)

  -- the comparison of what was created with what was to be restored
  unfoldable pub ensure_restored : ConsensusState → Height → Response → Result (Unit {0})
  ensure_restored cons height response = do
    m ← decode_update_state pr response.message
    reject_if (not (bytes_eq m.post_state_id cons.state_id)) (plain unexpected_state_id)
    reject_if (not (pr.packages.ibc.height_eq m.post_height height)) (plain unexpected_height)

  -- what the counterparty has: the client state, and the consensus state at the height
  unfoldable pub state_to_restore : ℕ → E → Result (ClientState × ConsensusState × Height)
  state_to_restore height env = do
    latest ← pr.latest_height env
    cs ← counterparty_client_state env latest
    let at_height = restore_height cs.latest_height height
    cons ← counterparty_consensus_state env latest at_height
    client_state ← cast cs.as_lcp
    consensus_state ← cast cons.as_lcp
    ok (client_state, consensus_state, at_height)
