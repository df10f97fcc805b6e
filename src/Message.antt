-- ===== src/Message.antt =====
-- light-clients/lcp/types/message.go: the messages of the enclave and what they hold.
pub mod ValidationContext
pub mod Decode
pub mod TrustingPeriod
pub mod Version
use lcp_go.Common.{ℕ, Bytes, Option, List}
use lcp_go.Common.Int.{ℤ}
use lcp_go.GoTime.{Time}
use lcp_go.Types.{Height, StateId}
use lcp_go.Packages.{AnyValue}

abbrev pub lcp_message_version : ℕ
lcp_message_version = 1

abbrev pub lcp_message_type_update_state : ℕ
lcp_message_type_update_state = 1

abbrev pub lcp_message_type_state : ℕ
lcp_message_type_state = 2

abbrev pub lcp_message_type_misbehaviour : ℕ
lcp_message_type_misbehaviour = 3

abbrev pub lcp_message_context_type_empty : ℕ
lcp_message_context_type_empty = 0

abbrev pub lcp_message_context_type_trusting_period : ℕ
lcp_message_context_type_trusting_period = 1

pub record TrustingPeriodValidationContext : Type 0 where
  pub untrusted_header_timestamp : Time
  pub trusted_state_timestamp : Time
  pub trusting_period : ℤ  -- big.Int
  pub clock_drift : ℤ  -- big.Int

-- the interface `ValidationContext` with its two implementations
pub data AnyContext : Type 0 where
  empty : AnyContext
  trusting : TrustingPeriodValidationContext → AnyContext

pub record EmittedState : Type 0 where
  pub height : Height
  pub state : AnyValue

pub record UpdateStateProxyMessage : Type 0 where
  pub prev_height : Option Height
  pub prev_state_id : Option StateId
  pub post_height : Height
  pub post_state_id : StateId
  pub timestamp : ℕ  -- *big.Int, decoded from a uint128
  pub context : AnyContext
  pub emitted_states : List EmittedState

pub record PrevState : Type 0 where
  pub height : Height
  pub state_id : StateId

pub record MisbehaviourProxyMessage : Type 0 where
  pub prev_states : List PrevState
  pub context : AnyContext
  pub client_message : Bytes

pub record ElcVerifyMembershipMessage : Type 0 where
  pub prefix : Bytes
  pub path : Bytes
  pub value : Bytes
  pub height : Height
  pub state_id : StateId

pub record CommitmentProofs : Type 0 where
  pub message : Bytes
  pub signatures : List Bytes

pub record HeaderedProxyMessage : Type 0 where
  pub version : ℕ  -- uint16
  pub type : ℕ  -- uint16
  pub message : Bytes

-- the interface `ProxyMessage` of header.go, as the type switches take it apart
pub data ProxyMessage : Type 0 where
  update_state : UpdateStateProxyMessage → ProxyMessage
  misbehaviour : MisbehaviourProxyMessage → ProxyMessage
