-- ===== src/Relay/Prover.antt =====
-- relay/prover.go: the struct `Prover`, with what it calls, and its methods as actions on a state. The
-- chains, the LCP service, the origin prover, the codec and the clock are parameters; what they hold
-- and how time goes on is a state E. An action gives the new state also where it gives an error.
use lcp_go.Common.{Bytes, Bool, Option, List}
use lcp_go.Result.{Result}
use lcp_go.GoTime.{Time}
use lcp_go.Types.{Height, ClientState, ConsensusState, ClientMessage}
use lcp_go.Packages.{Packages, AnyValue}
use lcp_go.Relay.Config.{ConfigPackages, ProverConfig, Signer}
use lcp_go.Relay.ActiveKey.{EnclaveKeyInfo, Services, KeyState}
use lcp_go.Relay.Aggregation.{Aggregator}

-- what the code reads of `core.Header`: its height, and the result of `PackClientMessage`
pub record Header : Type 0 where
  pub height : Height
  pub packed : Result AnyValue

-- what the code reads of `exported.ClientState`: the latest height, the result of a cast to this
-- program's client state, and the result of `PackClientState`
pub record ExportedClientState : Type 0 where
  pub latest_height : Height
  pub as_lcp : Option ClientState
  pub packed : Result AnyValue

-- the same of `exported.ConsensusState`
pub record ExportedConsensusState : Type 0 where
  pub as_lcp : Option ConsensusState
  pub packed : Result AnyValue

-- `elc.QueryClientResponse`
pub record QueryClientResponse : Type 0 where
  pub found : Bool
  pub client_state : AnyValue
  pub consensus_state : AnyValue

pub record MsgCreateClient : Type 0 where
  pub client_id : Bytes
  pub client_state : AnyValue
  pub consensus_state : AnyValue
  pub signer : Bytes

pub record MsgUpdateClient : Type 0 where
  pub client_id : Bytes
  pub header : AnyValue
  pub include_state : Bool
  pub signer : Bytes

pub record MsgVerifyMembership : Type 0 where
  pub client_id : Bytes
  pub prefix : Bytes
  pub path : Bytes
  pub value : Bytes
  pub proof_height : Height
  pub proof : Bytes
  pub signer : Bytes

-- the response to each of the three messages
pub record Response : Type 0 where
  pub message : Bytes
  pub signature : Bytes

-- `clienttypes.MsgUpdateClient`, for a chain
pub record SentMsg : Type 0 where
  pub client_id : Bytes
  pub client_message : ClientMessage
  pub signer : Bytes

-- the chain that the origin prover is to set up headers for: `LCPQuerier`, or the counterparty
pub data Querier : Type 0 where
  lcp_querier : Bytes → Querier
  counterparty : Querier

pub record Prover (S E F MsgId : Type 0) : Type 0 where
  pub packages : Packages S
  pub config_packages : ConfigPackages
  pub config : ProverConfig
  pub eip712_signer : Option Signer
  pub path_client_id : Bytes
  pub now : E → Time
  pub services : E → Services F MsgId
  -- the LCP service
  pub available_enclave_keys : E → Bytes → Result (List EnclaveKeyInfo)
  pub client : E → Bytes → Result QueryClientResponse
  pub create_client : MsgCreateClient → E → E × Result Response
  pub update_client : MsgUpdateClient → E → E × Result Response
  pub membership : MsgVerifyMembership → E → E × Result Response
  pub aggregator : Aggregator
  -- the counterparty
  pub counterparty_client_id : Bytes
  pub latest_height : E → Result Height
  pub query_client_state : E → Height → Result AnyValue
  pub query_consensus_state : E → Height → Height → Result AnyValue
  pub get_address : E → Result Bytes
  pub new_msg_update_client : Bytes → ClientMessage → Bytes → Result SentMsg
  pub send_msgs : List SentMsg → E → E × Result (List MsgId)
  -- the origin prover
  pub latest_finalized_header : E → Result Header
  pub setup_headers : Querier → E → Header → Result (List Header)
  pub create_initial_state :
      E → Option Height → Result (ExportedClientState × ExportedConsensusState)
  pub origin_prove_state : E → Bytes → Bytes → Result (Bytes × Height)
  -- the codec, and golang-set: whether the first set without the second is empty
  pub unpack_client_state : AnyValue → Result ExportedClientState
  pub unpack_consensus_state : AnyValue → Result ExportedConsensusState
  pub no_difference : List Bytes → List Bytes → Bool
  -- `reflect.DeepEqual`, which also tells a nil slice from an empty one
  pub deep_equal : List Bytes → List Bytes → Bool

pub record ProverState (E F MsgId : Type 0) : Type 0 where
  pub keys : KeyState F MsgId
  pub env : E
