-- ===== src/EnclaveKey.antt =====
-- light-clients/lcp/types/update.go: enclave keys in the client's store, and their registration.
pub mod Info
pub mod Status
pub mod Registration
pub mod Effect
use lcp_go.Common.{
  ℕ, ◌+◌, Bytes, Bool, true, false, not, ◌&&◌, Option, none, some, List, [], ◌∷◌, ◌++◌, codes,
  length, take, drop, bytes_eq, ltb, ◌==◌, if◌then◌else◌,
}
use lcp_go.Common.Int.{int_64, bits_64}
use lcp_go.Result.{
  Result, ok, err, panic, ◌>>=◌, ◌>>◌, reject_if, map_err, or_panic, plain, caused, wrapped, wrap,
  invalid_header, ek_info_length, ek_not_found, operator_mismatch, expired_at_mismatch,
  invalid_message, invalid_avr, advisory_not_empty, disallowed_status, disallowed_advisory,
  mrenclave_mismatch, commitment_failed, recover_failed, ek_operator_failed, ek_info_mismatch,
}
use lcp_go.GoTime.{Time, unix_time, unix, before, seconds, add_duration}
use lcp_go.Types.{Address, ClientState, Context, RegisterEnclaveKeyMessage}
use lcp_go.Packages.{Packages}
use lcp_go.Ias.{verify_report, parse_and_validate_avr, get_ek_and_operator, get_timestamp}
use lcp_go.Eip712.{
  quote_ok, zero_address, compute_eip712_register_enclave_key_hash, recover_address,
}

pub record EkInfo : Type 0 where
  pub expired_at : ℕ  -- uint64
  pub operator : Address

-- the events of events.go; the times and addresses stand for their texts
pub data Event : Type 0 where
  registered : Address → Time → Address → Event
  operators_updated : ℕ → List Address → ℕ → ℕ → Event

unfoldable pub is_expired : EkInfo → Time → Bool
is_expired ei block_time = before (unix_time (int_64 ei.expired_at) 0) block_time

unfoldable pub is_match_operator : EkInfo → Address → Bool
is_match_operator ei operator = bytes_eq ei.operator operator

unfoldable pub is_allowed_status_in : Bytes → List Bytes → Bool
is_allowed_status_in status [] = false
is_allowed_status_in status (s ∷ rest) =
    let others = is_allowed_status_in status rest in if bytes_eq status s then true else others

unfoldable pub is_allowed_status : ClientState → Bytes → Bool
is_allowed_status cs status =
    if bytes_eq status quote_ok then true else is_allowed_status_in status cs.allowed_quote_statuses

abbrev pub stored_bytes : Option Bytes → Bytes
stored_bytes none = []
stored_bytes (some bz) = bz

module _ {S : Type 0} (p : Packages S) where
  unfoldable pub is_allowed_advisory_ids : ClientState → List Bytes → Bool
  is_allowed_advisory_ids cs adv_ids =
      if length adv_ids == 0 then true else p.set_contains cs.allowed_advisory_ids adv_ids

  unfoldable pub enclave_key_path : Address → Bytes
  enclave_key_path key = codes "aux/enclave_keys/" ++ p.eth.address_hex key

  unfoldable pub contains : S → Address → Bool
  contains s ek = p.kv.has s (enclave_key_path ek)

  unfoldable pub decode_ek_info : Bytes → Result (Option EkInfo)
  decode_ek_info bz = do
    reject_if (not (length bz == 8 + 20)) (plain ek_info_length)
    ok (
        some (record {
          expired_at = p.ibc.big_endian_to_uint64 (take 8 bz);
          operator = p.eth.bytes_to_address (drop 8 bz);
        }))

  unfoldable pub get_ek_info : S → Address → Result (Option EkInfo)
  unfolding decode_ek_info
  get_ek_info s ek =
      if not (contains s ek)
      then ok none
      else decode_ek_info (stored_bytes (p.kv.get s (enclave_key_path ek)))

  -- `if ekInfo == nil { return an error }`
  unfoldable pub require_ek : Option EkInfo → Result EkInfo
  require_ek none = err (plain ek_not_found)
  require_ek (some info) = ok info

  unfoldable pub ensure_ek_info_match : S → Address → Address → Time → Result (Unit {0})
  ensure_ek_info_match s ek operator expired_at = do
    found ← get_ek_info s ek
    info ← require_ek found
    reject_if (not (bytes_eq info.operator operator)) (plain operator_mismatch)
    reject_if (not (info.expired_at == bits_64 (unix expired_at))) (plain expired_at_mismatch)
    ok tt

  unfoldable pub set_ek_info : S → Address → Address → Time → S
  set_ek_info s ek operator expired_at =
      p.kv.set s (enclave_key_path ek)
        (p.ibc.uint64_to_big_endian (bits_64 (unix expired_at)) ++ operator)

  -- the operator that signed the report, or the zero address where there is no signature
  unfoldable pub report_operator : RegisterEnclaveKeyMessage → Result Address
  report_operator message =
      if ltb 0 (length message.operator_signature)
      then (do
        commitment ←
            map_err (wrap invalid_header commitment_failed)
              (compute_eip712_register_enclave_key_hash p message.report)
        map_err (wrap invalid_header recover_failed)
            (recover_address p commitment message.operator_signature))
      else ok zero_address

  unfoldable pub check_quote_status : ClientState → Bytes → List Bytes → Result (Unit {0})
  check_quote_status cs quote_status advisory_ids =
      if bytes_eq quote_status quote_ok
      then reject_if (not (length advisory_ids == 0))
          (wrapped invalid_header (plain advisory_not_empty))
      else (do
        reject_if (not (is_allowed_status cs quote_status))
            (wrapped invalid_header (plain disallowed_status))
        reject_if (not (is_allowed_advisory_ids cs advisory_ids))
            (wrapped invalid_header (plain disallowed_advisory)))

  unfoldable pub verify_register_enclave_key :
      ClientState → Context → S → RegisterEnclaveKeyMessage → Result (Unit {0})
  verify_register_enclave_key cs ctx s message = do
    map_err (wrap invalid_header invalid_message)
        (verify_report p message.report message.signature message.signing_cert ctx.block_time)
    avr ← map_err (wrap invalid_header invalid_avr) (parse_and_validate_avr p message.report)
    check_quote_status cs avr.quote_status avr.advisory_ids
    quote ← p.ias.avr_quote avr
    reject_if (not (bytes_eq cs.mrenclave quote.mrenclave))
        (wrapped invalid_header (plain mrenclave_mismatch))
    operator ← report_operator message
    keys ← map_err (wrap invalid_header ek_operator_failed) (get_ek_and_operator p quote)
    reject_if (not (bytes_eq keys.1 zero_address) && not (bytes_eq operator keys.1))
        (wrapped invalid_header (plain operator_mismatch))
    timestamp ← get_timestamp p avr
    let expired_at = add_duration timestamp (seconds cs.key_expiration)
    if contains s keys.0
        then map_err (wrap invalid_header ek_info_mismatch)
            (ensure_ek_info_match s keys.0 operator expired_at)
        else ok tt

  unfoldable pub register_enclave_key :
      ClientState → S → RegisterEnclaveKeyMessage → Result (S × List Event)
  register_enclave_key cs s message = do
    avr ← or_panic (parse_and_validate_avr p message.report)
    quote ← or_panic (p.ias.avr_quote avr)
    keys ← or_panic (get_ek_and_operator p quote)
    operator ← or_panic (report_operator message)
    timestamp ← get_timestamp p avr
    let expired_at = add_duration timestamp (seconds cs.key_expiration)
    if contains s keys.0
        then (do or_panic (ensure_ek_info_match s keys.0 operator expired_at); ok (s, []))
        else ok
            (set_ek_info s keys.0 operator expired_at, registered keys.0 expired_at operator ∷ [])
