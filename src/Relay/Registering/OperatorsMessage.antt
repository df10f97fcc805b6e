-- ===== src/Relay/Registering/OperatorsMessage.antt =====
-- relay/operator.go and relay/lcp.go: the message of `updateOperators`, and the document it signs.
use lcp_go.Common.{
  ℕ, Bytes, Bool, true, false, not, ◌||◌, Option, none, some, List, [], ◌∷◌, length, get_or, ltb,
  ◌==◌, bytes_eq,
}
use lcp_go.Common.Int.{int_64}
use lcp_go.Result.{
  Result, ok, panic, ◌>>=◌, ◌>>◌, reject_if, plain, operator_not_enabled, params_missing,
  nonce_zero, threshold_zero, numerator_above_denominator, permissionless_update, several_operators,
  operator_mismatch,
}
use lcp_go.Types
use lcp_go.Types.{Address}
use lcp_go.Eip712.{
  zero_address, chain_type_evm, put_uint16, compute_cosmos_chain_salt,
  compute_eip712_update_operators,
}
use lcp_go.Relay.Config.{
  ChainParams, evm_chain_params, cosmos_chain_params, Fraction, is_operator_enabled,
  get_signer_address,
}
use lcp_go.Relay.Prover.{Prover, SentMsg}
use lcp_go.Relay.Registering.Counterparty.{
  query_lcp_client_state, require_signer, message_for_client,
}

pub record Eip712DomainParams : Type 0 where
  pub chain_id : ℕ  -- uint64
  pub verifying_contract_addr : Address

abbrev pub is_none {ℓ} : {A : Type ℓ} → Option A → Bool
is_none none = true
is_none (some a) = false

module _ {S E F MsgId : Type 0} (pr : Prover S E F MsgId) where
  unfoldable pub domain_params_of : Option ChainParams → Result Eip712DomainParams
  domain_params_of (some (evm_chain_params id contract)) = ok (record {
    chain_id = id;
    verifying_contract_addr = pr.config_packages.hex_to_address contract;
  })
  domain_params_of (some (cosmos_chain_params id prefix)) =
      ok (record { chain_id = 0; verifying_contract_addr = zero_address })
  domain_params_of none = panic

  unfoldable pub get_domain_params : Result Eip712DomainParams
  get_domain_params = domain_params_of pr.config.operators_eip712_params

  unfoldable pub chain_salt_of : Option ChainParams → Result Bytes
  chain_salt_of (some (evm_chain_params id contract)) =
      ok (pr.packages.eth.keccak256 (put_uint16 chain_type_evm))
  chain_salt_of (some (cosmos_chain_params id prefix)) =
      ok (compute_cosmos_chain_salt pr.packages id prefix)
  chain_salt_of none = panic

  unfoldable pub compute_eip712_chain_salt : Result Bytes
  compute_eip712_chain_salt = chain_salt_of pr.config.operators_eip712_params

  unfoldable pub compute_eip712_update_operators_hash : ℕ → List Address → ℕ → ℕ → Result Bytes
  compute_eip712_update_operators_hash nonce new_operators num den = do
    params ← get_domain_params
    salt ← compute_eip712_chain_salt
    bz ←
        compute_eip712_update_operators pr.packages (int_64 params.chain_id)
          params.verifying_contract_addr salt pr.path_client_id nonce new_operators num den
    ok (pr.packages.eth.keccak256 bz)

  unfoldable pub operators_message : E → ℕ → List Address → Fraction → Result SentMsg
  operators_message env nonce new_operators threshold = do
    reject_if (not (is_operator_enabled pr.config)) (plain operator_not_enabled)
    reject_if (is_none pr.config.operators_eip712_params) (plain params_missing)
    reject_if (nonce == 0) (plain nonce_zero)
    reject_if ((threshold.numerator == 0) || (threshold.denominator == 0)) (plain threshold_zero)
    reject_if (ltb threshold.denominator threshold.numerator) (plain numerator_above_denominator)
    cs ← query_lcp_client_state pr env
    reject_if (length cs.operators == 0) (plain permissionless_update)
    reject_if (ltb 1 (length cs.operators)) (plain several_operators)
    s ← require_signer pr
    op_signer ← get_signer_address pr.config_packages s
    reject_if (not (bytes_eq (get_or cs.operators 0 []) op_signer)) (plain operator_mismatch)
    commitment ←
        compute_eip712_update_operators_hash nonce new_operators threshold.numerator
          threshold.denominator
    sig ← s.sign commitment
    message_for_client pr env (
        Types.update_operators (record {
          nonce = nonce;
          new_operators = new_operators;
          new_operators_threshold_numerator = threshold.numerator;
          new_operators_threshold_denominator = threshold.denominator;
          signatures = sig ∷ [];
        }))
