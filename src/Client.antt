-- ===== src/Client.antt =====
-- light-clients/lcp/types/client_state.go: creation, status, and the proofs of packets. The methods
-- that only panic ("not implemented") have no counterpart.
pub mod Initialization
pub mod Delay
pub mod Membership
use lcp_go.Common.{
  ℕ, ◌+◌, ◌%◌, Bytes, Bool, true, false, not, ◌&&◌, ◌||◌, Option, none, some, List, [], length,
  get_or, bytes_eq, split, ltb, ◌==◌, if◌then◌else◌,
}
use lcp_go.Common.Int.{bits_64, two_64}
use lcp_go.Result.{
  Result, ok, err, panic, ◌>>=◌, ◌>>◌, reject_if, map_err, plain, wrapped, wrap, invalid_client,
  invalid_consensus, invalid_height, consensus_state_not_found, invalid_state_commitment,
  processed_time_not_found, processed_height_not_found, delay_period_not_passed,
  key_expiration_zero, mrenclave_length, latest_height_not_zero, consensus_state_type,
  operators_nonce_not_zero, thresholds_zero, operator_zero, operators_not_ordered,
  numerator_above_denominator, height_above_latest, consensus_state_missing, height_mismatch,
  prefix_mismatch, path_mismatch, value_mismatch, state_id_mismatch, no_processed_time,
  no_processed_height, too_early_time, too_early_height,
}
use lcp_go.GoTime.{unix_nano}
use lcp_go.Types.{
  Height, ClientState, ConsensusState, AnyConsensusState, lcp, foreign_consensus, Context,
}
use lcp_go.Packages.{Packages}
use lcp_go.Message.{ElcVerifyMembershipMessage}
use lcp_go.Message.Decode.{
  eth_abi_decode_commitment_proofs, get_message, get_verify_membership_proxy_message,
}
use lcp_go.Store.{
  set_client_state, set_consensus_state, get_consensus_state, get_processed_time,
  get_processed_height,
}
use lcp_go.Signatures.{get_operators, verify_signatures}
use lcp_go.Operators.{check_operators}

abbrev pub mrenclave_size : ℕ
mrenclave_size = 32

-- the values of ibc-go's `exported.Status`
pub data Status : Type 0 where
  active frozen expired unknown unauthorized : Status

unfoldable pub validate : ClientState → Result (Unit {0})
validate cs = do
  reject_if (cs.key_expiration == 0) (wrapped invalid_client (plain key_expiration_zero))
  reject_if (not (length cs.mrenclave == mrenclave_size))
      (wrapped invalid_client (plain mrenclave_length))
  ok tt

module _ {S : Type 0} (p : Packages S) where
  unfoldable pub get_timestamp_at_height : S → Height → Result ℕ
  get_timestamp_at_height s height = do c ← get_consensus_state p s height; ok c.timestamp

  unfoldable pub as_initial : AnyConsensusState → Result ConsensusState
  as_initial (lcp c) = ok c
  as_initial foreign_consensus = err (wrapped invalid_consensus (plain consensus_state_type))

  -- `Initialize` after its call of `Validate`
  unfoldable pub initialize_valid : ClientState → S → AnyConsensusState → Result S
  unfolding as_initial
  initialize_valid cs s consensus_state = do
    reject_if (not (p.ibc.height_is_zero cs.latest_height))
        (wrapped invalid_client (plain latest_height_not_zero))
    cons ← as_initial consensus_state
    reject_if (not (cs.operators_nonce == 0))
        (wrapped invalid_client (plain operators_nonce_not_zero))
    reject_if
        (not (length cs.operators == 0)
          && ((cs.operators_threshold_numerator == 0) || (cs.operators_threshold_denominator == 0)))
        (wrapped invalid_client (plain thresholds_zero))
    check_operators (wrapped invalid_client (plain operator_zero))
        (wrapped invalid_client (plain operators_not_ordered)) [] (get_operators p cs)
    reject_if (ltb cs.operators_threshold_denominator cs.operators_threshold_numerator)
        (wrapped invalid_client (plain numerator_above_denominator))
    ok (set_consensus_state p (set_client_state p s cs) cons cs.latest_height)

  -- `if err := cs.Validate(); err != nil { return nil }`: a client that is not valid is no error, and
  -- nothing is stored.
  unfoldable pub initialize : ClientState → S → AnyConsensusState → Result S
  initialize cs s consensus_state = elim (validate cs) [
    | ok _ ↦ initialize_valid cs s consensus_state
    | err e ↦ ok s
    | panic ↦ panic
  ]

  unfoldable pub status : ClientState → Context → S → Status
  status cs ctx s = active

  -- the part of `verifyDelayPeriodPassed` for times
  unfoldable pub time_passed : Context → Option ℕ → ℕ → Result (Unit {0})
  time_passed ctx none delay = err (wrapped processed_time_not_found (plain no_processed_time))
  time_passed ctx (some processed_time) delay =
      reject_if (ltb (bits_64 (unix_nano ctx.block_time)) ((processed_time + delay) % two_64))
        (wrapped delay_period_not_passed (plain too_early_time))

  -- the part of `verifyDelayPeriodPassed` for heights
  unfoldable pub blocks_passed : Context → Option Height → ℕ → Result (Unit {0})
  blocks_passed ctx none delay =
      err (wrapped processed_height_not_found (plain no_processed_height))
  blocks_passed ctx (some processed_height) delay =
      let valid_height = record processed_height {
        revision_height = (processed_height.revision_height + delay) % two_64;
      } in
      reject_if (p.ibc.height_lt ctx.self_height valid_height)
        (wrapped delay_period_not_passed (plain too_early_height))

  unfoldable pub verify_delay_period_passed : Context → S → Height → ℕ → ℕ → Result (Unit {0})
  verify_delay_period_passed ctx s proof_height delay_time_period delay_block_period = do
    if not (delay_time_period == 0)
        then time_passed ctx (get_processed_time p s proof_height) delay_time_period
        else ok tt
    if not (delay_block_period == 0)
        then blocks_passed ctx (get_processed_height p s proof_height) delay_block_period
        else ok tt

  -- whether a path is "clients/{client_id}/consensusStates/{height}"
  unfoldable pub is_consensus_state_path : Bytes → Bool
  is_consensus_state_path commitment_path =
      let parts = split b'/' commitment_path in
      (length parts == 4)
      && (bytes_eq (get_or parts 0 []) p.ibc.key_client_store_prefix
          && bytes_eq (get_or parts 2 []) p.ibc.key_consensus_state_prefix)

  -- the comparisons of the message with what is to be proved
  unfoldable pub check_membership_message :
      Height → Bytes → Bytes → Bytes → Bytes → ElcVerifyMembershipMessage → Result (Unit {0})
  check_membership_message height prefix path hashed_value state_id msg = do
    reject_if (not (p.ibc.height_eq height msg.height))
        (wrapped invalid_state_commitment (plain height_mismatch))
    reject_if (not (bytes_eq prefix msg.prefix))
        (wrapped invalid_state_commitment (plain prefix_mismatch))
    reject_if (not (bytes_eq path msg.path))
        (wrapped invalid_state_commitment (plain path_mismatch))
    reject_if (not (bytes_eq hashed_value msg.value))
        (wrapped invalid_state_commitment (plain value_mismatch))
    reject_if (not (bytes_eq msg.state_id state_id))
        (wrapped invalid_state_commitment (plain state_id_mismatch))

  -- `VerifyMembership` behind the test of the path
  unfoldable pub verify_commitment :
      ClientState → Context → S → Height → Bytes → Bytes → Bytes → Bytes → Result (Unit {0})
  verify_commitment cs ctx s height proof prefix path value = do
    reject_if (p.ibc.height_lt cs.latest_height height)
        (wrapped invalid_height (plain height_above_latest))
    cons ←
        map_err (wrap consensus_state_not_found consensus_state_missing)
          (get_consensus_state p s height)
    proofs ← eth_abi_decode_commitment_proofs p.abi proof
    m ← get_message p.abi proofs
    msg ← get_verify_membership_proxy_message p.abi m
    check_membership_message height prefix path (p.eth.keccak256 value) cons.state_id msg
    verify_signatures p cs ctx s (p.eth.keccak256 proofs.message) proofs.signatures

  -- The path is the `KeyPath` of a `MerklePath`; another implementation of the interface would panic.
  unfoldable pub verify_membership :
      ClientState → Context → S → Height → ℕ → ℕ → Bytes → List Bytes → Bytes → Result (Unit {0})
  verify_membership cs ctx s height delay_time_period delay_block_period proof key_path value = do
    verify_delay_period_passed ctx s height delay_time_period delay_block_period
    let prefix = get_or key_path 0 []
    let path = get_or key_path 1 []
    if not (length key_path == 2)
        then panic
        else (if is_consensus_state_path path
            then ok tt
            else verify_commitment cs ctx s height proof prefix path value)

  unfoldable pub verify_non_membership :
      ClientState → Context → S → Height → ℕ → ℕ → Bytes → List Bytes → Result (Unit {0})
  verify_non_membership cs ctx s height delay_time_period delay_block_period proof key_path =
      verify_membership cs ctx s height delay_time_period delay_block_period proof key_path []
