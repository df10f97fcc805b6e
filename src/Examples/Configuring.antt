-- ===== src/Examples/Configuring.antt =====
-- The prover's configuration, and the choice of a key.
use lcp_go.Common.{◌≡◌, refl, Bytes, List}
use lcp_go.Result.{ok}
use lcp_go.Relay.Config.{
  hex_digit, hex_decode, to_lower, trim_prefix, decode_mrenclave_hex, get_mrenclave,
  is_operator_enabled, get_operators_threshold, get_message_aggregation_batch_size,
  decode_operator_address, decode_operators, get_configured_operators, get_signer_address,
  validate_signer, validate_chain_params, validate_operators, validate_config,
}
use lcp_go.Relay.Config.Validation.{ValidConfig, validate_config_sound}
use lcp_go.Relay.ActiveKey.{EnclaveKeyInfo}
use lcp_go.Relay.KeySelection.{
  validate_isv_enclave_quote_status, validate_advisory_ids, is_update_needed, is_allowed_key,
  first_allowed_key, select_new_enclave_key,
}
use lcp_go.Relay.KeySelection.Choice.{IsChosen, select_new_enclave_key-IsChosen}
use lcp_go.Examples.Restarting.{relayed}
use lcp_go.Examples.SampleProver.{config, config_packages, prover, offered_key}

-- what an evaluation of the configuration and of the choice unfolds
unfoldable pub selects : Unit {0}
unfolding relayed hex_digit hex_decode to_lower trim_prefix decode_mrenclave_hex get_mrenclave
    is_operator_enabled get_operators_threshold get_message_aggregation_batch_size
    decode_operator_address decode_operators get_configured_operators get_signer_address
    validate_signer validate_chain_params validate_operators validate_config
    validate_isv_enclave_quote_status validate_advisory_ids is_update_needed is_allowed_key
    first_allowed_key select_new_enclave_key
selects = tt

pub config_ok : validate_config config_packages config ≡ ok tt
unfolding selects
config_ok = refl

validate_config_sound_example : ValidConfig config_packages config
validate_config_sound_example = validate_config_sound config_packages config config_ok

pub selected : select_new_enclave_key prover 0 ≡ ok offered_key
unfolding selects
selected = refl

select_new_enclave_key-IsChosen_example :
    (mrenclave : Bytes) × (keys : List EnclaveKeyInfo) × (get_mrenclave prover.config
      ≡ ok mrenclave)
    × (prover.available_enclave_keys 0 mrenclave ≡ ok keys)
    × IsChosen prover 0 keys offered_key
select_new_enclave_key-IsChosen_example =
    select_new_enclave_key-IsChosen prover 0 offered_key selected
