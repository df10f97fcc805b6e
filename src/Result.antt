-- ===== src/Result.antt =====
-- The results of Go functions: a value, an error, or a panic, which is not caught by a caller.
use lcp_go.Common.{ℕ, ◌≡◌, refl, Bool, true, false}

-- the errors that this repository registers or takes from ibc-go and the Cosmos SDK
-- (`light-clients/lcp/types/errors.go`)
pub data Sentinel : Type 0 where
  invalid_state_commitment processed_time_not_found processed_height_not_found : Sentinel
  delay_period_not_passed invalid_misbehaviour retrieve_client_id : Sentinel
  invalid_client invalid_header invalid_consensus consensus_state_not_found : Sentinel
  invalid_height invalid_id : Sentinel

-- what an error's text says, one constructor for each kind of text
pub data Reason : Type 0 where
  -- client_state.go
  key_expiration_zero mrenclave_length latest_height_not_zero operators_nonce_not_zero : Reason
  consensus_state_type thresholds_zero operator_zero operators_not_ordered : Reason
  numerator_above_denominator height_above_latest consensus_state_missing : Reason
  height_mismatch prefix_mismatch path_mismatch value_mismatch state_id_mismatch : Reason
  no_processed_time no_processed_height too_early_time too_early_height : Reason
  -- store.go
  no_consensus_state unmarshal_failed not_prefix_store short_prefix client_id_in_prefix : Reason
  malformed_client_id no_lcp_prefix : Reason
  -- message.go and header.go
  unexpected_version unexpected_type unpack_failed context_bytes_not_empty context_type : Reason
  context_length context_decode after_trusting_period header_in_future : Reason
  new_numerator_zero new_denominator_zero signatures_empty operator_length : Reason
  -- update.go
  invalid_message invalid_avr advisory_not_empty disallowed_status disallowed_advisory : Reason
  mrenclave_mismatch commitment_failed recover_failed ek_operator_failed operator_mismatch : Reason
  ek_info_mismatch ek_info_length ek_not_found ek_expired expired_at_mismatch : Reason
  signature_count insufficient_signatures permissionless_operators invalid_nonce : Reason
  new_operators_failed sign_bytes_failed no_emitted_states prev_missing get_consensus_failed :
      Reason
  invalid_context unexpected_message unknown_client_message signature_length : Reason
  -- sgx.go
  chains_length certs_length unexpected_root avr_signature report_data_version : Reason
  -- relay/prover.go
  batch_size_below_two no_messages no_batches aggregation_failed lengths_differ : Reason
  -- relay/db.go
  enclave_key_info_not_found no_file file_failed json_failed msg_id_failed : Reason
  -- relay/config.go
  hex_invalid mrenclave_hex origin_config_invalid batch_size_one many_operators : Reason
  signer_missing signer_cast signer_config_invalid signer_build signer_address : Reason
  operator_decode signer_not_operator evm_chain_id_zero evm_contract_invalid : Reason
  cosmos_chain_id_empty cosmos_prefix_empty : Reason
  -- relay/operator.go
  operator_not_enabled params_missing nonce_zero threshold_zero unpack_state_failed : Reason
  client_cast permissionless_update several_operators operator_address_length : Reason
  -- relay/lcp.go
  report_unverified avr_unparsed quote_failed ek_failed operator_not_included : Reason
  msg_id_count no_available_keys all_keys_disallowed load_failed select_failed : Reason
  register_failed status_failed execution_failed client_not_found height_too_great : Reason
  no_available_updates decode_failed : Reason
  -- relay/restore.go
  query_failed already_exists expiration_mismatch statuses_mismatch : Reason
  advisories_mismatch initial_state_failed create_failed unexpected_state_id : Reason
  unexpected_height : Reason
  -- relay/prover.go, the methods
  create_elc_failed setup_failed pack_failed update_elc_failed prove_failed : Reason
  membership_failed encode_failed : Reason
  -- codes of other packages' errors
  foreign : ℕ → Reason

pub data Error : Type 0 where
  -- `fmt.Errorf(text)`, and errors of other packages
  plain : Reason → Error
  -- `fmt.Errorf("text: %w", err)`, or with `%v`
  caused : Reason → Error → Error
  -- `errorsmod.Wrapf(sentinel, text)`
  wrapped : Sentinel → Error → Error

pub data Result {ℓ} (A : Type ℓ) : Type ℓ where
  ok : A → Result A
  err : Error → Result A
  panic : Result A

infixl 5 ◌>>=◌ ◌>>◌
-- the early return of Go: what follows an error or a panic is not run
abbrev pub ◌>>=◌ {ℓ1 ℓ2} :
    {From : Type ℓ1} {To : Type ℓ2} → Result From → (From → Result To) → Result To
panic >>= rest = panic
err reason >>= rest = err reason
ok value >>= rest = rest value

abbrev pub ◌>>◌ {ℓ} : {To : Type ℓ} → Result (Unit {0}) → Result To → Result To
check >> rest = check >>= λ done. rest

-- `if bad { return e }`
abbrev pub reject_if : Bool → Error → Result (Unit {0})
reject_if true e = err e
reject_if false e = ok tt

-- `if err != nil { return f(err) }`
abbrev pub map_err {ℓ} : {A : Type ℓ} → (Error → Error) → Result A → Result A
map_err f (ok a) = ok a
map_err f (err e) = err (f e)
map_err f panic = panic

-- `if err != nil { panic(err) }`
abbrev pub or_panic {ℓ} : {A : Type ℓ} → Result A → Result A
or_panic (ok a) = ok a
or_panic (err e) = panic
or_panic panic = panic

abbrev pub wrap : Sentinel → Reason → Error → Error
wrap s r e = wrapped s (caused r e)

-- The first action of a chain that succeeds has itself succeeded, with the value that the rest read.
module _ {ℓ κ} {A : Type ℓ} {B : Type κ} where
  pub >>=-eq-ok :
      (first : Result A) (rest : A → Result B) {last : B}
      → (first >>= rest) ≡ ok last
      → (value : A) × (first ≡ ok value) × (rest value ≡ ok last)
  >>=-eq-ok panic rest h = cc
  >>=-eq-ok (err reason) rest h = cc
  >>=-eq-ok (ok value) rest h = (value, refl, h)

module _ {ℓ} {B : Type ℓ} where
  -- a guard that was passed
  pub reject_if-eq-ok :
      (bad : Bool) (e : Error) (k : Result B) {b : B}
      → (reject_if bad e >> k) ≡ ok b
      → (bad ≡ false) × (k ≡ ok b)
  reject_if-eq-ok true e k h = cc
  reject_if-eq-ok false e k h = (refl, h)

module _ {ℓ} {A : Type ℓ} where
  pub map_err-eq-ok : (f : Error → Error) (r : Result A) {a : A} → map_err f r ≡ ok a → r ≡ ok a
  map_err-eq-ok f (ok a) h = h
  map_err-eq-ok f (err e) h = cc
  map_err-eq-ok f panic h = cc

  pub or_panic-eq-ok : (r : Result A) {a : A} → r ≡ ok a → or_panic r ≡ ok a
  or_panic-eq-ok (ok a) h = h
  or_panic-eq-ok (err e) h = cc
  or_panic-eq-ok panic h = cc

  pub ok-injective : (a b : A) → ok a ≡ ok b → a ≡ b
  ok-injective a b h = cc

pub reject_if-last : (bad : Bool) (e : Error) → reject_if bad e ≡ ok tt → bad ≡ false
reject_if-last true e h = cc
reject_if-last false e h = refl
