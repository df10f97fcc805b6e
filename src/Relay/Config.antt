-- ===== src/Relay/Config.antt =====
-- relay/config.go and relay/operator.go: the prover's configuration, its validation, and what is read
-- from it. The configurations of the origin prover and of the signer are parameters.
pub mod Hex
pub mod Validation
use lcp_go.Common.{
  ℕ, suc, ◌+◌, ◌-◌, ◌*◌, Bytes, Bool, true, false, not, ◌&&◌, ◌||◌, Option, none, some, List, [],
  ◌∷◌, codes, length, drop, get_or, bytes_eq, has_prefix, ltb, leb, ◌==◌, if◌then◌else◌, map,
}
use lcp_go.Common.Int.{ℤ, pos, two_64}
use lcp_go.Result.{
  Result, ok, err, panic, ◌>>=◌, ◌>>◌, reject_if, map_err, or_panic, plain, caused, hex_invalid,
  mrenclave_hex, mrenclave_length, key_expiration_zero, origin_config_invalid, batch_size_one,
  many_operators, signer_missing, signer_cast, signer_config_invalid, signer_build, signer_address,
  operator_decode, signer_not_operator, evm_chain_id_zero, evm_contract_invalid,
  cosmos_chain_id_empty, cosmos_prefix_empty, operator_address_length,
}
use lcp_go.GoTime.{seconds}
use lcp_go.Types.{Address}
use lcp_go.Packages.{AnyValue}
use lcp_go.Eip712.{chain_type_evm, chain_type_cosmos}
use lcp_go.Client.{mrenclave_size}

pub record Fraction : Type 0 where
  pub numerator : ℕ  -- uint64
  pub denominator : ℕ  -- uint64

-- the `oneof` of `OperatorsEip712Params`
pub data ChainParams : Type 0 where
  evm_chain_params : ℕ → Bytes → ChainParams
  cosmos_chain_params : Bytes → Bytes → ChainParams

pub record ProverConfig : Type 0 where
  pub origin_prover : AnyValue
  pub lcp_service_dial_timeout : ℕ  -- uint64
  pub mrenclave : Bytes
  pub allowed_quote_statuses : List Bytes
  pub allowed_advisory_ids : List Bytes
  pub key_expiration : ℕ  -- uint64
  pub elc_client_id : Bytes
  pub message_aggregation : Bool
  pub message_aggregation_batch_size : ℕ  -- uint64
  pub operators : List Bytes
  pub operators_threshold : Fraction
  pub operator_signer : Option AnyValue
  pub operators_eip712_params : Option ChainParams

-- `signer.Signer` of the relayer framework
pub record Signer : Type 0 where
  pub get_public_key : Result Bytes
  pub sign : Bytes → Result Bytes

-- what go-ethereum and the relayer framework do for a configuration
pub record ConfigPackages : Type 0 where
  -- `GetCachedValue().(core.ProverConfig).Validate()`, a panic where the cast fails
  pub validate_origin_prover : AnyValue → Result (Unit {0})
  pub is_signer_config : AnyValue → Bool
  pub validate_signer_config : AnyValue → Result (Unit {0})
  pub build_signer : AnyValue → Result Signer
  pub decompress_pubkey : Bytes → Result Bytes
  pub pubkey_to_address : Bytes → Address
  pub is_hex_address : Bytes → Bool
  pub hex_to_address : Bytes → Address

-- the value of a hexadecimal digit, as `encoding/hex` reads it
unfoldable pub hex_digit : ℕ → Option ℕ
hex_digit c =
    if leb 48 c && leb c 57
    then some (c - 48)
    else (if leb 97 c && leb c 102
        then some (c - 87)
        else (if leb 65 c && leb c 70 then some (c - 55) else none))

abbrev pub hex_byte : Option ℕ → Option ℕ → Result ℕ
hex_byte (some a) (some b) = ok (a * 16 + b)
hex_byte _ _ = err (plain hex_invalid)

-- `hex.DecodeString`
unfoldable pub hex_decode : Bytes → Result Bytes
hex_decode [] = ok []
hex_decode (a ∷ []) = err (plain hex_invalid)
hex_decode (a ∷ b ∷ s) = do
  byte ← hex_byte (hex_digit a) (hex_digit b)
  rest ← hex_decode s
  ok (byte ∷ rest)

-- `strings.ToLower` on ASCII letters
unfoldable pub to_lower : Bytes → Bytes
to_lower s = map (λ c. if leb 65 c && leb c 90 then c + 32 else c) s

-- `strings.TrimPrefix`
unfoldable pub trim_prefix : Bytes → Bytes → Bytes
trim_prefix s prefix = if has_prefix s prefix then drop (length prefix) s else s

unfoldable pub decode_mrenclave_hex : Bytes → Result Bytes
decode_mrenclave_hex s =
    map_err (caused mrenclave_hex) (hex_decode (to_lower (trim_prefix s (codes "0x"))))

unfoldable pub get_dial_timeout : ProverConfig → ℤ
get_dial_timeout pc =
    if pc.lcp_service_dial_timeout == 0 then seconds 20 else seconds pc.lcp_service_dial_timeout

unfoldable pub get_mrenclave : ProverConfig → Result Bytes
get_mrenclave pc = or_panic (decode_mrenclave_hex pc.mrenclave)

unfoldable pub get_message_aggregation_batch_size : ProverConfig → ℕ
get_message_aggregation_batch_size pc =
    if pc.message_aggregation_batch_size == 0 then 8 else pc.message_aggregation_batch_size

unfoldable pub chain_type_of : Option ChainParams → Result ℕ
chain_type_of (some (evm_chain_params id contract)) = ok chain_type_evm
chain_type_of (some (cosmos_chain_params id prefix)) = ok chain_type_cosmos
chain_type_of none = panic

unfoldable pub chain_type : ProverConfig → Result ℕ
unfolding chain_type_of
chain_type pc = chain_type_of pc.operators_eip712_params

unfoldable pub is_operator_enabled : ProverConfig → Bool
is_operator_enabled pc = ltb 0 (length pc.operators)

unfoldable pub get_operators_threshold : ProverConfig → Fraction
get_operators_threshold pc =
    if (pc.operators_threshold.denominator == 0) && (pc.operators_threshold.numerator == 0)
    then record { numerator = 1; denominator = 1 }
    else pc.operators_threshold

module _ (cp : ConfigPackages) where
  unfoldable pub decode_operator_address : Bytes → Result Address
  decode_operator_address s = do
    reject_if (not (length (trim_prefix s (codes "0x")) == 40)) (plain operator_address_length)
    ok (cp.hex_to_address s)

  -- the loop of `GetOperators`
  unfoldable pub decode_operators : List Bytes → Result (List Address)
  decode_operators [] = ok []
  decode_operators (operator ∷ rest) = do
    addr ← map_err (caused operator_decode) (decode_operator_address operator)
    addrs ← decode_operators rest
    ok (addr ∷ addrs)

  unfoldable pub get_configured_operators : ProverConfig → Result (List Address)
  get_configured_operators pc = decode_operators pc.operators

  -- `EIP712Signer.GetSignerAddress`
  unfoldable pub get_signer_address : Signer → Result Address
  get_signer_address s = do
    pub_key ← s.get_public_key
    key ← cp.decompress_pubkey pub_key
    ok (cp.pubkey_to_address key)

  -- the part of `NewProver` on the signer
  unfoldable pub new_eip712_signer : Option AnyValue → Result (Option Signer)
  new_eip712_signer none = ok none
  new_eip712_signer (some signer_config) = do
    if cp.is_signer_config signer_config then ok tt else panic
    s ← cp.build_signer signer_config
    ok (some s)

  -- the part of `Validate` on the signer
  unfoldable pub validate_signer : AnyValue → Bytes → Result (Unit {0})
  validate_signer signer_config operator = do
    reject_if (not (cp.is_signer_config signer_config)) (plain signer_cast)
    map_err (caused signer_config_invalid) (cp.validate_signer_config signer_config)
    s ← map_err (caused signer_build) (cp.build_signer signer_config)
    addr ← map_err (caused signer_address) (get_signer_address s)
    op ← map_err (caused operator_decode) (decode_operator_address operator)
    reject_if (not (bytes_eq addr op)) (plain signer_not_operator)

  -- the part of `Validate` on the parameters of the chain
  unfoldable pub validate_chain_params : Option ChainParams → Result (Unit {0})
  validate_chain_params none = ok tt
  validate_chain_params (some (evm_chain_params id contract)) = do
    reject_if (id == 0) (plain evm_chain_id_zero)
    reject_if (not (cp.is_hex_address contract)) (plain evm_contract_invalid)
  validate_chain_params (some (cosmos_chain_params id prefix)) = do
    reject_if (length id == 0) (plain cosmos_chain_id_empty)
    reject_if (length prefix == 0) (plain cosmos_prefix_empty)

  -- the part of `Validate` for a configuration with an operator
  unfoldable pub validate_operators :
      Option AnyValue → Option ChainParams → Bytes → Result (Unit {0})
  validate_operators none params operator = err (plain signer_missing)
  validate_operators (some signer_config) params operator = do
    validate_signer signer_config operator
    validate_chain_params params

  unfoldable pub validate_config : ProverConfig → Result (Unit {0})
  validate_config pc = do
    map_err (caused origin_config_invalid) (cp.validate_origin_prover pc.origin_prover)
    mrenclave ← decode_mrenclave_hex pc.mrenclave
    reject_if (not (length mrenclave == mrenclave_size)) (plain mrenclave_length)
    reject_if (pc.key_expiration == 0) (plain key_expiration_zero)
    reject_if (pc.message_aggregation && (pc.message_aggregation_batch_size == 1))
        (plain batch_size_one)
    reject_if (ltb 1 (length pc.operators)) (plain many_operators)
    if length pc.operators == 0
        then ok tt
        else validate_operators pc.operator_signer pc.operators_eip712_params
            (get_or pc.operators 0 [])
