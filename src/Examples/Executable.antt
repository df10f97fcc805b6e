-- ===== src/Examples/Executable.antt =====
-- What an evaluation of the client unfolds.
use lcp_go.Common.{bytes_eq, bytes_gt, big_endian, big_endian_from, has_prefix, split, sprint}
use lcp_go.Common.Int.{bits_64, int_64, wrap_64, ◌+ℤ◌, ◌-ℤ◌, ◌*ℤ◌}
use lcp_go.GoTime.{
  unix_time, unix, unix_nano, before, truncate_second, add_sec, add_duration, seconds,
}
use lcp_go.Message.ValidationContext.{validate}
use lcp_go.Message.Decode.{
  eth_abi_decode_commitment_proofs, eth_abi_decode_headered_proxy_message,
  eth_abi_decode_validation_context, decode_emitted_states,
  eth_abi_decode_update_state_proxy_message, eth_abi_decode_misbehaviour_proxy_message,
  eth_abi_decode_verify_membership_proxy_message, get_message, get_update_state_proxy_message,
  get_misbehaviour_proxy_message, get_verify_membership_proxy_message, get_proxy_message,
}
use lcp_go.Store.{
  set_client_state, set_consensus_state, decode_consensus_state, as_lcp_consensus_state,
  get_consensus_state, processed_time_key, processed_height_key, decode_processed_time,
  decode_processed_height, parsed_or_none, get_processed_time, get_processed_height,
  set_processed_time, set_processed_height, validate_client_id, client_id_of_prefix, get_client_id,
}
use lcp_go.Ias.{
  get_ra_root_cert, get_timestamp, verify_report, parse_and_validate_avr, get_ek_and_operator,
}
use lcp_go.Eip712.{
  get_register_enclave_key_typed_data, get_update_operators_typed_data,
  compute_eip712_register_enclave_key, compute_eip712_register_enclave_key_hash,
  compute_eip712_update_operators, recover_address, compute_eip712_cosmos_update_operators,
}
use lcp_go.EnclaveKey
use lcp_go.EnclaveKey.{
  is_expired, is_match_operator, enclave_key_path, contains, decode_ek_info, get_ek_info,
  require_ek, ensure_ek_info_match, set_ek_info, report_operator, check_quote_status,
  verify_register_enclave_key,
}
use lcp_go.Signatures.{
  for_operators, get_operators, check_permissionless, check_operator, verify_by_operators,
  verify_signatures,
}
use lcp_go.Operators.{
  check_operators, update_operators_validate_basic, to_addresses, get_new_operators,
  check_operator_signature, verify_update_operators, with_operators, update_operators_state,
}
use lcp_go.Client
use lcp_go.Client.{
  as_initial, initialize_valid, initialize, time_passed, blocks_passed, verify_delay_period_passed,
  is_consensus_state_path, check_membership_message, verify_commitment, verify_membership,
}
use lcp_go.Update.{
  check_prev_state, verify_update_client, check_prev_states, verify_misbehaviour,
  verify_proxy_message, verify_client_message, is_misbehaviour, check_for_misbehaviour,
  update_state_on_misbehaviour, with_height, new_consensus_state, update_client_state,
  apply_proxy_message, update_state_of,
}

unfoldable pub executable : Unit {0}
unfolding bytes_eq bytes_gt big_endian big_endian_from has_prefix split sprint bits_64 int_64
    wrap_64 ◌+ℤ◌ ◌-ℤ◌ ◌*ℤ◌ unix_time unix unix_nano before truncate_second add_sec add_duration
    seconds validate eth_abi_decode_commitment_proofs eth_abi_decode_headered_proxy_message
    eth_abi_decode_validation_context decode_emitted_states
    eth_abi_decode_update_state_proxy_message eth_abi_decode_misbehaviour_proxy_message
    eth_abi_decode_verify_membership_proxy_message get_message get_update_state_proxy_message
    get_misbehaviour_proxy_message get_verify_membership_proxy_message get_proxy_message
    set_client_state set_consensus_state decode_consensus_state as_lcp_consensus_state
    get_consensus_state processed_time_key processed_height_key decode_processed_time
    decode_processed_height parsed_or_none get_processed_time get_processed_height
    set_processed_time set_processed_height validate_client_id client_id_of_prefix get_client_id
    get_ra_root_cert get_timestamp verify_report parse_and_validate_avr get_ek_and_operator
    get_register_enclave_key_typed_data get_update_operators_typed_data
    compute_eip712_register_enclave_key compute_eip712_register_enclave_key_hash
    compute_eip712_update_operators recover_address compute_eip712_cosmos_update_operators
    is_expired is_match_operator enclave_key_path contains decode_ek_info get_ek_info require_ek
    ensure_ek_info_match set_ek_info report_operator check_quote_status verify_register_enclave_key
    EnclaveKey.register_enclave_key for_operators get_operators check_permissionless check_operator
    verify_by_operators verify_signatures check_operators update_operators_validate_basic
    to_addresses get_new_operators check_operator_signature verify_update_operators with_operators
    update_operators_state Client.validate as_initial initialize_valid initialize time_passed
    blocks_passed verify_delay_period_passed is_consensus_state_path check_membership_message
    verify_commitment verify_membership check_prev_state verify_update_client check_prev_states
    verify_misbehaviour verify_proxy_message verify_client_message is_misbehaviour
    check_for_misbehaviour update_state_on_misbehaviour with_height new_consensus_state
    update_client_state apply_proxy_message update_state_of
executable = tt
