-- ===== src/Relay/Registering/Counterparty.antt =====
-- relay/lcp.go and relay/operator.go: the client state on the counterparty, and the signer.
use lcp_go.Common.{Bool, true, false, Option, none, some, List, [], ◌∷◌, bytes_eq, if◌then◌else◌}
use lcp_go.Result.{
  Result, ok, err, panic, ◌>>=◌, map_err, plain, caused, unpack_state_failed, client_cast,
}
use lcp_go.Types.{Address, ClientState, ClientMessage}
use lcp_go.Relay.Config.{Signer}
use lcp_go.Relay.Prover.{Prover, SentMsg}

unfoldable pub cast_client_state : Option ClientState → Result ClientState
cast_client_state none = err (plain client_cast)
cast_client_state (some cs) = ok cs

unfoldable pub contains_operator : List Address → Address → Bool
contains_operator [] operator = false
contains_operator (op ∷ operators) operator =
    let others = contains_operator operators operator in
    if bytes_eq op operator then true else others

module _ {S E F MsgId : Type 0} (pr : Prover S E F MsgId) where
  -- the steps that `registerEnclaveKey` and `updateOperators` both begin with
  unfoldable pub query_lcp_client_state : E → Result ClientState
  query_lcp_client_state env = do
    height ← pr.latest_height env
    any_state ← pr.query_client_state env height
    cs ← map_err (caused unpack_state_failed) (pr.unpack_client_state any_state)
    cast_client_state cs.as_lcp

  -- `pr.eip712Signer`, where nil is a panic
  unfoldable pub require_signer : Result Signer
  require_signer = elim pr.eip712_signer [ none ↦ panic | some s ↦ ok s ]

  -- the steps that both end with
  unfoldable pub message_for_client : E → ClientMessage → Result SentMsg
  message_for_client env message = do
    signer ← pr.get_address env
    pr.new_msg_update_client pr.counterparty_client_id message signer
