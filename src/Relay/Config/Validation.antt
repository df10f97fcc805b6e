-- ===== src/Relay/Config/Validation.antt =====
-- What a validated configuration guarantees to the methods of the prover.
use lcp_go.Common.{
  ℕ, ◌≡◌, ◌≢◌, ◌≤◌, ◌⊎◌, inl, inr, refl, ap, ◌∙◌, Bytes, Bool, true, false, ◌&&◌, Option, none,
  some, List, [], ◌∷◌, length, get_or, ltb, ◌==◌, ==_iff, not-eq-false, bytes_eq_sound, suc-ne-zero,
  arith, if◌then◌else◌,
}
use lcp_go.Result.{
  ok, map_err, >>=-eq-ok, reject_if-eq-ok, map_err-eq-ok, or_panic-eq-ok, reject_if-last,
}
use lcp_go.Types.{Address}
use lcp_go.Packages.{AnyValue}
use lcp_go.Client.{mrenclave_size}
use lcp_go.Relay.Config.{
  ProverConfig, ConfigPackages, Signer, ChainParams, decode_mrenclave_hex, get_mrenclave,
  get_message_aggregation_batch_size, decode_operator_address, get_signer_address, validate_signer,
  validate_operators, validate_config,
}

-- the signer that the configuration builds is the operator
pub record IsSigner (cp : ConfigPackages) (signer : Option AnyValue) (operator : Bytes)
    : Type 0 where
  pub config : AnyValue
  pub is_set : signer ≡ some config
  pub built : Signer
  pub is_built : cp.build_signer config ≡ ok built
  pub address : Address
  pub of_signer : get_signer_address cp built ≡ ok address
  pub of_operator : decode_operator_address cp operator ≡ ok address

pub record ValidConfig (cp : ConfigPackages) (pc : ProverConfig) : Type 0 where
  pub mrenclave : Bytes
  pub of_hex : get_mrenclave pc ≡ ok mrenclave
  pub right_size : length mrenclave ≡ mrenclave_size
  pub expires : pc.key_expiration ≢ 0
  pub batches : pc.message_aggregation ≡ true → 2 ≤ get_message_aggregation_batch_size pc
  pub one_operator : length pc.operators ≤ 1
  pub signer_is_operator :
      (pc.operators ≡ []) ⊎ IsSigner cp pc.operator_signer (get_or pc.operators 0 [])

module _ (cp : ConfigPackages) where
  validate_signer_sound :
      (config : AnyValue) (operator : Bytes)
      → validate_signer cp config operator ≡ ok tt
      → IsSigner cp (some config) operator
  unfolding validate_signer
  validate_signer_sound config operator h =
      let (_, h1) = reject_if-eq-ok _ _ _ h in
      let (_, _, h2) = >>=-eq-ok (map_err _ (cp.validate_signer_config config)) _ h1 in
      let (s, built, h3) = >>=-eq-ok (map_err _ (cp.build_signer config)) _ h2 in
      let (addr, signs, h4) = >>=-eq-ok (map_err _ (get_signer_address cp s)) _ h3 in
      let (op, decoded, h5) = >>=-eq-ok (map_err _ (decode_operator_address cp operator)) _ h4 in
      let same : addr ≡ op = bytes_eq_sound _ _ (not-eq-false _ (reject_if-last _ _ h5)) in
      record {
        config = config;
        is_set = refl;
        built = s;
        is_built = map_err-eq-ok _ _ built;
        address = op;
        of_signer = map_err-eq-ok _ _ signs ∙ ap ok same;
        of_operator = map_err-eq-ok _ _ decoded;
      }

  validate_operators_sound :
      (signer : Option AnyValue) (params : Option ChainParams) (operator : Bytes)
      → validate_operators cp signer params operator ≡ ok tt
      → IsSigner cp signer operator
  unfolding validate_operators
  validate_operators_sound none params operator h = cc
  validate_operators_sound (some config) params operator h =
      let (_, signs, _) = >>=-eq-ok (validate_signer cp config operator) _ h in
      validate_signer_sound config operator signs

  batch_size_of :
      (aggregates : Bool) (n : ℕ)
      → (aggregates && (n == 1)) ≡ false
      → aggregates ≡ true
      → 2 ≤ (if n == 0 then 8 else n)
  batch_size_of aggregates n h a = ground arith

  operators_cases :
      (operators : List Bytes) (signer : Option AnyValue) (params : Option ChainParams)
      → (if length operators == 0
          then ok tt
          else validate_operators cp signer params (get_or operators 0 []))
        ≡ ok tt
      → (operators ≡ []) ⊎ IsSigner cp signer (get_or operators 0 [])
  operators_cases [] signer params h = inl refl
  operators_cases (op ∷ ops) signer params h =
      inr (validate_operators_sound signer params op (rw suc-ne-zero at h))

  -- A configuration that is validated has a measurement of 32 bytes and a key expiration, splits
  -- messages for the aggregation into batches of two at least, and has at most one operator, which is
  -- the address of the signer that it builds.
  pub validate_config_sound :
      (pc : ProverConfig) → validate_config cp pc ≡ ok tt → ValidConfig cp pc
  unfolding validate_config get_mrenclave get_message_aggregation_batch_size
  validate_config_sound pc h =
      let (_, _, h1) = >>=-eq-ok (map_err _ (cp.validate_origin_prover pc.origin_prover)) _ h in
      let (m, decoded, h2) = >>=-eq-ok (decode_mrenclave_hex pc.mrenclave) _ h1 in
      let (size, h3) = reject_if-eq-ok _ _ _ h2 in
      let (expires, h4) = reject_if-eq-ok (pc.key_expiration == 0) _ _ h3 in
      let (batch, h5) = reject_if-eq-ok _ _ _ h4 in
      let (few, h6) = reject_if-eq-ok (ltb 1 (length pc.operators)) _ _ h5 in
      record {
        mrenclave = m;
        of_hex = or_panic-eq-ok _ decoded;
        right_size = (==_iff _ _).0 (not-eq-false _ size);
        expires = ground (arith, expires);
        batches = batch_size_of pc.message_aggregation pc.message_aggregation_batch_size batch;
        one_operator = ground (arith, few);
        signer_is_operator =
            operators_cases pc.operators pc.operator_signer pc.operators_eip712_params h6;
      }
