-- ===== src/Eip712.antt =====
-- light-clients/lcp/types/lcp.go: the EIP-712 documents that operators sign, and signature recovery.
use lcp_go.Common.{
  ℕ, ◌/◌, ◌%◌, Bytes, not, List, [], ◌∷◌, ◌++◌, map, length, codes, replicate, sprint, ◌==◌,
}
use lcp_go.Common.Int.{ℤ, pos}
use lcp_go.Result.{Result, ok, ◌>>=◌, ◌>>◌, reject_if, plain, signature_length}
use lcp_go.Types.{Address}
use lcp_go.Packages.{Packages, TypedData, TypedDataDomain, text, texts}

abbrev pub quote_ok : Bytes
quote_ok = codes "OK"

abbrev pub chain_type_evm : ℕ
chain_type_evm = 1

abbrev pub chain_type_cosmos : ℕ
chain_type_cosmos = 2

abbrev pub zero_address : Address
zero_address = replicate 20 0

abbrev pub zero_hash : Bytes
zero_hash = replicate 32 0

-- `binary.BigEndian.PutUint16`
unfoldable pub put_uint16 : ℕ → Bytes
put_uint16 n = (n / 256 % 256) ∷ (n % 256) ∷ []

abbrev domain_fields : List (Bytes × Bytes)
domain_fields =
    (codes "name", codes "string")
    ∷ (codes "version", codes "string")
    ∷ (codes "chainId", codes "uint256")
    ∷ (codes "verifyingContract", codes "address")
    ∷ (codes "salt", codes "bytes32")
    ∷ []

abbrev pub register_enclave_key_types : List (Bytes × List (Bytes × Bytes))
register_enclave_key_types =
    (codes "EIP712Domain", domain_fields)
    ∷ (codes "RegisterEnclaveKey", (codes "avr", codes "string") ∷ [])
    ∷ []

abbrev pub update_operators_types : List (Bytes × List (Bytes × Bytes))
update_operators_types =
    (codes "EIP712Domain", domain_fields)
    ∷ (
      codes "UpdateOperators",
      (codes "clientId", codes "string")
          ∷ (codes "nonce", codes "uint64")
          ∷ (codes "newOperators", codes "address[]")
          ∷ (codes "thresholdNumerator", codes "uint64")
          ∷ (codes "thresholdDenominator", codes "uint64")
          ∷ [],
    )
    ∷ []

module _ {S : Type 0} (p : Packages S) where
  unfoldable pub lcp_client_domain : ℤ → Address → Bytes → TypedDataDomain
  lcp_client_domain chain_id verifying_contract salt = record {
    name = codes "LCPClient";
    version = codes "1";
    chain_id = chain_id;
    verifying_contract = p.eth.address_hex verifying_contract;
    salt = p.eth.hash_hex salt;
  }

  unfoldable pub get_register_enclave_key_typed_data : Bytes → TypedData
  get_register_enclave_key_typed_data avr = record {
    primary_type = codes "RegisterEnclaveKey";
    types = register_enclave_key_types;
    domain = lcp_client_domain (pos 0) zero_address zero_hash;
    message = (codes "avr", text avr) ∷ [];
  }

  unfoldable pub get_update_operators_typed_data :
      ℤ → Address → Bytes → Bytes → ℕ → List Address → ℕ → ℕ → TypedData
  get_update_operators_typed_data chain_id contract salt client_id nonce new_operators num den =
      record {
        primary_type = codes "UpdateOperators";
        types = update_operators_types;
        domain = lcp_client_domain chain_id contract salt;
        message =
            (codes "clientId", text client_id)
            ∷ (codes "nonce", text (sprint nonce))
            ∷ (codes "newOperators", texts (map p.eth.address_hex new_operators))
            ∷ (codes "thresholdNumerator", text (sprint num))
            ∷ (codes "thresholdDenominator", text (sprint den))
            ∷ [];
      }

  unfoldable pub compute_eip712_register_enclave_key : Bytes → Result Bytes
  compute_eip712_register_enclave_key report =
      p.eth.typed_data_raw (get_register_enclave_key_typed_data report)

  unfoldable pub compute_eip712_register_enclave_key_hash : Bytes → Result Bytes
  compute_eip712_register_enclave_key_hash report = do
    bz ← compute_eip712_register_enclave_key report
    ok (p.eth.keccak256 bz)

  unfoldable pub compute_eip712_update_operators :
      ℤ → Address → Bytes → Bytes → ℕ → List Address → ℕ → ℕ → Result Bytes
  compute_eip712_update_operators chain_id contract salt client_id nonce new_operators num den =
      p.eth.typed_data_raw (
        get_update_operators_typed_data chain_id contract salt client_id nonce new_operators num
          den)

  unfoldable pub recover_address : Bytes → Bytes → Result Address
  recover_address commitment signature = do
    reject_if (not (length signature == 65)) (plain signature_length)
    pub_key ← p.eth.recover_pubkey commitment signature
    key ← p.eth.unmarshal_pubkey pub_key
    ok (p.eth.pubkey_to_address key)

  unfoldable pub verify_signature : Bytes → Bytes → Result Address
  verify_signature sign_bytes signature = recover_address (p.eth.keccak256 sign_bytes) signature

  unfoldable pub compute_cosmos_chain_salt : Bytes → Bytes → Bytes
  compute_cosmos_chain_salt chain_id prefix =
      p.eth.keccak256
        ((put_uint16 chain_type_cosmos ++ p.eth.keccak256 chain_id) ++ p.eth.keccak256 prefix)

  unfoldable pub compute_eip712_cosmos_update_operators :
      Bytes → Bytes → Bytes → ℕ → List Address → ℕ → ℕ → Result Bytes
  compute_eip712_cosmos_update_operators chain_id prefix client_id nonce new_operators num den =
      compute_eip712_update_operators (pos 0) zero_address
        (compute_cosmos_chain_salt chain_id prefix) client_id nonce new_operators num den
