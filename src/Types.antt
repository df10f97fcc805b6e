-- ===== src/Types.antt =====
-- The protobuf messages of `light-clients/lcp/types/lcp.pb.go`, and the structs of ibc-go and the
-- Cosmos SDK that they hold.
use lcp_go.Common.{ℕ, Bytes, Bool, Option, List}
use lcp_go.GoTime.{Time}

-- `clienttypes.Height`
pub record Height : Type 0 where
  pub revision_number : ℕ
  pub revision_height : ℕ

-- `[20]byte`
abbrev pub Address : Type 0
Address = Bytes

abbrev pub StateId : Type 0
StateId = Bytes

pub record ClientState : Type 0 where
  pub mrenclave : Bytes
  pub key_expiration : ℕ  -- uint64
  pub frozen : Bool
  pub latest_height : Height
  pub allowed_quote_statuses : List Bytes
  pub allowed_advisory_ids : List Bytes
  pub operators : List Bytes
  pub operators_nonce : ℕ  -- uint64
  pub operators_threshold_numerator : ℕ  -- uint64
  pub operators_threshold_denominator : ℕ  -- uint64

pub record ConsensusState : Type 0 where
  pub state_id : Bytes
  pub timestamp : ℕ  -- uint64

-- the interface `exported.ConsensusState`
pub data AnyConsensusState : Type 0 where
  lcp : ConsensusState → AnyConsensusState
  foreign_consensus : AnyConsensusState

pub record UpdateClientMessage : Type 0 where
  pub proxy_message : Bytes
  pub signatures : List Bytes

pub record RegisterEnclaveKeyMessage : Type 0 where
  pub report : Bytes
  pub signature : Bytes
  pub signing_cert : Bytes
  pub operator_signature : Bytes

pub record UpdateOperatorsMessage : Type 0 where
  pub nonce : ℕ  -- uint64
  pub new_operators : List Bytes
  pub new_operators_threshold_numerator : ℕ  -- uint64
  pub new_operators_threshold_denominator : ℕ  -- uint64
  pub signatures : List Bytes

-- the interface `exported.ClientMessage`, as the type switches take it apart
pub data ClientMessage : Type 0 where
  update_client : UpdateClientMessage → ClientMessage
  register_enclave_key : RegisterEnclaveKeyMessage → ClientMessage
  update_operators : UpdateOperatorsMessage → ClientMessage
  foreign_message : ClientMessage

-- what the light client reads of `sdk.Context`; `self_height` is `clienttypes.GetSelfHeight(ctx)`
pub record Context : Type 0 where
  pub block_time : Time
  pub chain_id : Bytes
  pub self_height : Height

-- the variables `trustRARootCert` and `trustRARoots` of `sgx/ias/cert.go`
pub record TrustAnchors : Type 0 where
  pub root_cert : Option Bytes
  pub roots : List Bytes
