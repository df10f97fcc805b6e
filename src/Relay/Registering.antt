-- ===== src/Relay/Registering.antt =====
-- relay/lcp.go and relay/operator.go: `registerEnclaveKey` and `updateOperators`, which send a message
-- for the client to the counterparty.
mod Counterparty
pub mod KeyMessage
pub mod OperatorsMessage
pub mod Laws
pub mod KeyAcceptance
pub mod Replacement
pub mod OperatorsAcceptance
unfoldable pub use Counterparty.*
use lcp_go.Common.{◌≡◌, List, [], ◌∷◌, Bytes, ℕ}
use lcp_go.Result.{Result, ok, err, plain, msg_id_count}
use lcp_go.Types.{Address}
use lcp_go.Relay.Config.{Fraction}
use lcp_go.Relay.ActiveKey.{EnclaveKeyInfo}
use lcp_go.Relay.Prover.{Prover, ProverState, SentMsg}
use lcp_go.Relay.Action.{Action, ◌>>=◌, pure, reads}
use lcp_go.Relay.Registering.KeyMessage.{registration_message}
use lcp_go.Relay.Registering.OperatorsMessage.{operators_message}

unfoldable pub one_id {ℓ} : {MsgId : Type ℓ} → List MsgId → Result MsgId
one_id (id ∷ []) = ok id
one_id _ = err (plain msg_id_count)

module _ {S E F MsgId : Type 0} (pr : Prover S E F MsgId) where
  -- `counterparty.SendMsgs`
  unfoldable pub send_messages : List SentMsg → Action (ProverState E F MsgId) (List MsgId)
  send_messages msgs st =
      let (env, ids) = pr.send_msgs msgs st.env in (record st { env = env }, ids)

  unfoldable pub register_enclave_key : EnclaveKeyInfo → Action (ProverState E F MsgId) MsgId
  register_enclave_key eki = do
    msg ← reads (λ st. registration_message pr st.env eki)
    ids ← send_messages (msg ∷ [])
    pure (one_id ids)

  unfoldable pub update_operators :
      ℕ → List Address → Fraction → Action (ProverState E F MsgId) (Unit {0})
  update_operators nonce new_operators threshold = do
    msg ← reads (λ st. operators_message pr st.env nonce new_operators threshold)
    ids ← send_messages (msg ∷ [])
    pure (ok tt)
