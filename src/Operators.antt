-- ===== src/Operators.antt =====
-- light-clients/lcp/types/update.go and header.go: replacing the operators.
pub mod Order
pub mod Replacement
pub mod Effect
use lcp_go.Common.{
  ℕ, ◌+◌, ◌*◌, ◌%◌, Bytes, Bool, true, false, not, ◌&&◌, List, [], ◌∷◌, length, bytes_eq, bytes_gt,
  ltb, ◌==◌, if◌then◌else◌,
}
use lcp_go.Common.Int.{two_64}
use lcp_go.Result.{
  Error, Result, ok, err, panic, ◌>>=◌, ◌>>◌, reject_if, map_err, or_panic, plain, wrapped, wrap,
  invalid_header, operator_length, new_numerator_zero, new_denominator_zero,
  numerator_above_denominator, signatures_empty, invalid_message, permissionless_operators,
  invalid_nonce, new_operators_failed, operator_zero, operators_not_ordered, sign_bytes_failed,
  recover_failed, operator_mismatch, insufficient_signatures,
}
use lcp_go.Types.{Address, ClientState, Context, UpdateOperatorsMessage}
use lcp_go.Packages.{Packages}
use lcp_go.Store.{get_client_id, set_client_state}
use lcp_go.Eip712.{zero_address, compute_eip712_cosmos_update_operators, recover_address}
use lcp_go.EnclaveKey.{Event, operators_updated}
use lcp_go.Signatures.{for_operators, get_operators}

-- The loop of `Initialize` and of `verifyUpdateOperators`: no operator is zero, and none is above
-- the one after it. The first argument holds the operator before, if there is one.
unfoldable pub check_operators : Error → Error → List Address → List Address → Result (Unit {0})
check_operators zero_err order_err prev [] = ok tt
check_operators zero_err order_err [] (op ∷ rest) = do
  reject_if (bytes_eq op zero_address) zero_err
  check_operators zero_err order_err (op ∷ []) rest
check_operators zero_err order_err (prev ∷ _) (op ∷ rest) = do
  reject_if (bytes_eq op zero_address) zero_err
  reject_if (bytes_gt prev op) order_err
  check_operators zero_err order_err (op ∷ []) rest

unfoldable pub update_operators_validate_basic : UpdateOperatorsMessage → Result (Unit {0})
update_operators_validate_basic m = do
  reject_if (m.new_operators_threshold_numerator == 0) (plain new_numerator_zero)
  reject_if (m.new_operators_threshold_denominator == 0) (plain new_denominator_zero)
  reject_if (ltb m.new_operators_threshold_denominator m.new_operators_threshold_numerator)
      (plain numerator_above_denominator)
  reject_if (length m.signatures == 0) (plain signatures_empty)
  ok tt

module _ {S : Type 0} (p : Packages S) where
  -- the loop of `GetNewOperators`
  unfoldable pub to_addresses : List Bytes → Result (List Address)
  to_addresses [] = ok []
  to_addresses (op ∷ rest) = do
    reject_if (not (length op == 20)) (plain operator_length)
    ops ← to_addresses rest
    ok (p.eth.bytes_to_address op ∷ ops)

  unfoldable pub get_new_operators : UpdateOperatorsMessage → Result (List Address)
  get_new_operators m = to_addresses m.new_operators

  unfoldable pub check_operator_signature : Bytes → Address → Bytes → Result Bool
  check_operator_signature commitment op signature = if length signature == 0 then ok false else (do
    addr ← map_err (wrap invalid_header recover_failed) (recover_address p commitment signature)
    reject_if (not (bytes_eq addr op)) (wrapped invalid_header (plain operator_mismatch))
    ok true)

  unfoldable pub verify_update_operators :
      ClientState → Context → S → UpdateOperatorsMessage → Result (Unit {0})
  verify_update_operators cs ctx s message = do
    map_err (wrap invalid_header invalid_message) (update_operators_validate_basic message)
    reject_if (length cs.operators == 0) (wrapped invalid_header (plain permissionless_operators))
    client_id ← get_client_id p s
    let next_nonce = (cs.operators_nonce + 1) % two_64
    reject_if (not (message.nonce == next_nonce)) (wrapped invalid_header (plain invalid_nonce))
    new_operators ← map_err (wrap invalid_header new_operators_failed) (get_new_operators message)
    check_operators (wrapped invalid_header (plain operator_zero))
        (wrapped invalid_header (plain operators_not_ordered)) [] new_operators
    sign_bytes ← map_err (wrap invalid_header sign_bytes_failed) (
        compute_eip712_cosmos_update_operators p ctx.chain_id p.ibc.store_key client_id
          message.nonce new_operators message.new_operators_threshold_numerator
          message.new_operators_threshold_denominator)
    let commitment = p.eth.keccak256 sign_bytes
    success ←
        for_operators (check_operator_signature commitment) (get_operators p cs) message.signatures
          0
    reject_if
        (ltb (success * cs.operators_threshold_denominator % two_64)
          (cs.operators_threshold_denominator * length cs.operators % two_64))
        (wrapped invalid_header (plain insufficient_signatures))
    ok tt

  -- the client state that `updateOperators` writes
  unfoldable pub with_operators : ClientState → UpdateOperatorsMessage → ClientState
  with_operators cs message = record cs {
    operators = message.new_operators;
    operators_threshold_numerator = message.new_operators_threshold_numerator;
    operators_threshold_denominator = message.new_operators_threshold_denominator;
    operators_nonce = message.nonce;
  }

  -- `json.Marshal` of addresses does not fail, so its panic has no counterpart.
  unfoldable pub update_operators_state :
      ClientState → S → UpdateOperatorsMessage → Result (S × List Event)
  update_operators_state cs s message = do
    let s' = set_client_state p s (with_operators cs message)
    new_operators ← or_panic (get_new_operators message)
    ok (
      s',
      operators_updated message.nonce new_operators message.new_operators_threshold_numerator
            message.new_operators_threshold_denominator
          ∷ [],
    )
