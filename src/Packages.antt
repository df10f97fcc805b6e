-- ===== src/Packages.antt =====
-- The packages that the light client calls and that this repository does not hold: each is a record
-- of functions, a parameter of the model. What the code relies on is in Packages/Documented.
pub mod Documented
use lcp_go.Common.{ℕ, Bytes, Bool, Option, List}
use lcp_go.Common.Int.{ℤ}
use lcp_go.Result.{Result}
use lcp_go.GoTime.{Time}
use lcp_go.Types.{Height, Address, ClientState, ConsensusState, AnyConsensusState, TrustAnchors}

-- `storetypes.KVStore`; `prefix` is the private field of a `storeprefix.Store`, if the store is one
pub record KvStore (S : Type 0) : Type 0 where
  pub get : S → Bytes → Option Bytes
  pub has : S → Bytes → Bool
  pub set : S → Bytes → Bytes → S
  pub delete : S → Bytes → S
  pub prefix : S → Option Bytes

-- ibc-go: `clienttypes` and `host`
pub record Ibc : Type 0 where
  pub height_lt : Height → Height → Bool
  pub height_eq : Height → Height → Bool
  pub height_is_zero : Height → Bool
  pub height_string : Height → Bytes
  pub parse_height : Bytes → Result Height
  pub client_state_key : Bytes
  pub consensus_state_key : Height → Bytes
  pub key_client_store_prefix : Bytes
  pub key_consensus_state_prefix : Bytes
  pub store_key : Bytes
  pub is_valid_client_id : Bytes → Bool
  pub marshal_client_state : ClientState → Bytes
  pub marshal_consensus_state : ConsensusState → Bytes
  pub unmarshal_consensus_state : Bytes → Result AnyConsensusState
  -- `sdk.Uint64ToBigEndian`, `sdk.BigEndianToUint64`
  pub uint64_to_big_endian : ℕ → Bytes
  pub big_endian_to_uint64 : Bytes → ℕ

-- an EIP-712 document: go-ethereum's `apitypes.TypedData`
pub record TypedDataDomain : Type 0 where
  pub name : Bytes
  pub version : Bytes
  pub chain_id : ℤ
  pub verifying_contract : Bytes
  pub salt : Bytes

pub data FieldValue : Type 0 where
  text : Bytes → FieldValue
  texts : List Bytes → FieldValue

pub record TypedData : Type 0 where
  pub primary_type : Bytes
  pub types : List (Bytes × List (Bytes × Bytes))
  pub domain : TypedDataDomain
  pub message : List (Bytes × FieldValue)

-- go-ethereum: `common`, `crypto`, `secp256k1`, `apitypes`
pub record Ethereum : Type 0 where
  pub bytes_to_address : Bytes → Address
  pub address_hex : Address → Bytes
  pub hash_hex : Bytes → Bytes
  pub keccak256 : Bytes → Bytes
  pub recover_pubkey : Bytes → Bytes → Result Bytes
  pub unmarshal_pubkey : Bytes → Result Bytes
  pub pubkey_to_address : Bytes → Address
  pub typed_data_raw : TypedData → Result Bytes

-- the tuples that go-ethereum's `abi` unpacks, and the protobuf `Any`
pub record HeaderedTuple : Type 0 where
  pub header : Bytes
  pub message : Bytes

pub record ContextTuple : Type 0 where
  pub header : Bytes
  pub context_bytes : Bytes

pub record AnyValue : Type 0 where
  pub type_url : Bytes
  pub value : Bytes

pub record UpdateStateTuple : Type 0 where
  pub prev_height : Height
  pub prev_state_id : Bytes
  pub post_height : Height
  pub post_state_id : Bytes
  pub timestamp : ℕ
  pub context : Bytes
  pub emitted_states : List (Height × Bytes)

pub record MisbehaviourTuple : Type 0 where
  pub prev_states : List (Height × Bytes)
  pub context : Bytes
  pub client_message : Bytes

pub record VerifyMembershipTuple : Type 0 where
  pub prefix : Bytes
  pub path : Bytes
  pub value : Bytes
  pub height : Height
  pub state_id : Bytes

pub record Abi : Type 0 where
  pub unpack_commitment_proofs : Bytes → Result (Bytes × List Bytes)
  pub pack_commitment_proofs : Bytes → List Bytes → Result Bytes
  pub unpack_headered : Bytes → Result HeaderedTuple
  pub unpack_update_state : Bytes → Result UpdateStateTuple
  pub unpack_misbehaviour : Bytes → Result MisbehaviourTuple
  pub unpack_context : Bytes → Result ContextTuple
  pub unpack_trusting_period : Bytes → Result (Bytes × Bytes)
  pub unpack_verify_membership : Bytes → Result VerifyMembershipTuple
  pub any_unmarshal : Bytes → Result AnyValue

-- oasis-core: what the code reads of an attestation report and of a quote
pub record Avr : Type 0 where
  pub quote_status : Bytes
  pub advisory_ids : List Bytes
  pub timestamp : Bytes
  pub quote_body : Bytes

pub record Quote : Type 0 where
  pub mrenclave : Bytes
  pub report_data : Bytes

-- oasis-core's `ias`, and `crypto/x509`, where a certificate is known by its DER bytes
pub record Attestation : Type 0 where
  pub decode_avr : Bytes → Result Avr
  pub avr_quote : Avr → Result Quote
  pub quote_verify : Quote → Result (Unit {0})
  pub parse_timestamp : Bytes → Result Time
  pub parse_certificate : Bytes → Result Bytes
  pub verify_chains : Bytes → List Bytes → Time → Result (List (List Bytes))
  pub check_signature : Bytes → Bytes → Bytes → Result (Unit {0})

pub record Packages (S : Type 0) : Type 0 where
  pub kv : KvStore S
  pub ibc : Ibc
  pub eth : Ethereum
  pub abi : Abi
  pub ias : Attestation
  -- golang-set: whether a set made of the first list contains all elements of the second
  pub set_contains : List Bytes → List Bytes → Bool
  -- what `sgx/ias/cert.go` has put into the process
  pub anchors : TrustAnchors
