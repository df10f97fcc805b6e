-- ===== src/Update.antt =====
-- light-clients/lcp/types/update.go and misbehaviour_handle.go: what a client message is checked for,
-- and what it changes. The height lists that the handlers return are always nil.
pub mod Heights
pub mod Misbehaviour
pub mod Freezing
pub mod Progress
pub mod Reachable
pub mod Delays
use lcp_go.Common.{
  ℕ, ◌%◌, Bytes, Bool, true, false, not, Option, none, some, List, [], ◌∷◌, length, bytes_eq, ◌==◌,
  if◌then◌else◌,
}
use lcp_go.Common.Int.{two_64}
use lcp_go.Result.{
  Result, ok, err, panic, ◌>>=◌, ◌>>◌, reject_if, map_err, or_panic, plain, wrapped, wrap,
  invalid_header, invalid_misbehaviour, invalid_message, no_emitted_states, prev_missing,
  get_consensus_failed, state_id_mismatch, invalid_context, unexpected_message,
  unknown_client_message,
}
use lcp_go.Types.{
  Height, StateId, ClientState, ConsensusState, UpdateClientMessage, ClientMessage, update_client,
  register_enclave_key, update_operators, foreign_message, Context,
}
use lcp_go.Packages.{Packages}
use lcp_go.Message.{
  UpdateStateProxyMessage, PrevState, MisbehaviourProxyMessage, ProxyMessage, update_state,
  misbehaviour,
}
use lcp_go.Message.ValidationContext.{validate}
use lcp_go.Message.Decode.{get_proxy_message}
use lcp_go.Store.{set_client_state, set_consensus_state, get_consensus_state}
use lcp_go.EnclaveKey
use lcp_go.EnclaveKey.{Event, verify_register_enclave_key}
use lcp_go.Signatures.{verify_signatures}
use lcp_go.Operators.{verify_update_operators, update_operators_state}

unfoldable pub new_consensus_state : UpdateStateProxyMessage → ConsensusState
new_consensus_state msg = record {
  state_id = msg.post_state_id;
  timestamp = msg.timestamp % two_64;
}

module _ {S : Type 0} (p : Packages S) where
  -- the test of the previous state, for a client that has a height
  unfoldable pub check_prev_state : S → Option Height → Option StateId → Result (Unit {0})
  check_prev_state s none prev_id = err (wrapped invalid_header (plain prev_missing))
  check_prev_state s (some h) none = err (wrapped invalid_header (plain prev_missing))
  check_prev_state s (some h) (some id) = do
    prev ← map_err (wrap invalid_header get_consensus_failed) (get_consensus_state p s h)
    reject_if (not (bytes_eq prev.state_id id)) (wrapped invalid_header (plain state_id_mismatch))

  unfoldable pub verify_update_client :
      ClientState → Context → S → UpdateStateProxyMessage → Result (Unit {0})
  verify_update_client cs ctx s pmsg = do
    if p.ibc.height_is_zero cs.latest_height
        then reject_if (length pmsg.emitted_states == 0)
            (wrapped invalid_header (plain no_emitted_states))
        else check_prev_state s pmsg.prev_height pmsg.prev_state_id
    map_err (wrap invalid_header invalid_context) (validate pmsg.context ctx.block_time)

  -- the loop of `verifyMisbehaviour`
  unfoldable pub check_prev_states : S → List PrevState → Result (Unit {0})
  check_prev_states s [] = ok tt
  check_prev_states s (state ∷ rest) = do
    cons ← get_consensus_state p s state.height
    reject_if (not (bytes_eq cons.state_id state.state_id))
        (wrapped invalid_misbehaviour (plain state_id_mismatch))
    check_prev_states s rest

  unfoldable pub verify_misbehaviour : Context → S → MisbehaviourProxyMessage → Result (Unit {0})
  verify_misbehaviour ctx s pmsg = do
    check_prev_states s pmsg.prev_states
    map_err (wrap invalid_misbehaviour invalid_context) (validate pmsg.context ctx.block_time)

  unfoldable pub verify_proxy_message : ClientState → Context → S → ProxyMessage → Result (Unit {0})
  verify_proxy_message cs ctx s (update_state m) = verify_update_client cs ctx s m
  verify_proxy_message cs ctx s (misbehaviour m) = verify_misbehaviour ctx s m

  -- `err.Error()` wrapped keeps the text of the error
  unfoldable pub verify_client_message :
      ClientState → Context → S → ClientMessage → Result (Unit {0})
  verify_client_message cs ctx s (update_client m) = do
    pmsg ← map_err (wrap invalid_header invalid_message) (get_proxy_message p.abi m)
    map_err (wrapped invalid_header)
        (verify_signatures p cs ctx s (p.eth.keccak256 m.proxy_message) m.signatures)
    verify_proxy_message cs ctx s pmsg
  verify_client_message cs ctx s (register_enclave_key m) = verify_register_enclave_key p cs ctx s m
  verify_client_message cs ctx s (update_operators m) = verify_update_operators p cs ctx s m
  verify_client_message cs ctx s foreign_message =
      err (wrapped invalid_header (plain unknown_client_message))

  unfoldable pub is_misbehaviour : Result ProxyMessage → Result Bool
  is_misbehaviour (ok (misbehaviour m)) = ok true
  is_misbehaviour (ok (update_state m)) = ok false
  is_misbehaviour (err e) = ok false
  is_misbehaviour panic = panic

  unfoldable pub check_for_misbehaviour : ClientMessage → Result Bool
  unfolding is_misbehaviour
  check_for_misbehaviour (update_client m) = is_misbehaviour (get_proxy_message p.abi m)
  check_for_misbehaviour _ = ok false

  unfoldable pub update_state_on_misbehaviour : ClientState → S → S
  update_state_on_misbehaviour cs s =
      p.kv.set s p.ibc.client_state_key (p.ibc.marshal_client_state (record cs { frozen = true }))

  -- the client state that `updateClient` writes
  unfoldable pub with_height : ClientState → Height → ClientState
  with_height cs post_height =
      if p.ibc.height_lt cs.latest_height post_height
      then record cs { latest_height = post_height }
      else cs

  unfoldable pub update_client_state : ClientState → S → UpdateStateProxyMessage → S
  update_client_state cs s msg =
      set_consensus_state p (set_client_state p s (with_height cs msg.post_height))
        (new_consensus_state msg) msg.post_height

  unfoldable pub apply_proxy_message : ClientState → S → ProxyMessage → Result (S × List Event)
  apply_proxy_message cs s (update_state m) = ok (update_client_state cs s m, [])
  apply_proxy_message cs s (misbehaviour m) = panic

  unfoldable pub update_state_of : ClientState → S → ClientMessage → Result (S × List Event)
  unfolding apply_proxy_message
  update_state_of cs s (update_client m) = do
    pmsg ← or_panic (get_proxy_message p.abi m)
    apply_proxy_message cs s pmsg
  update_state_of cs s (register_enclave_key m) = EnclaveKey.register_enclave_key p cs s m
  update_state_of cs s (update_operators m) = update_operators_state p cs s m
  update_state_of cs s foreign_message = panic
