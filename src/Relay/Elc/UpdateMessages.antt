-- ===== src/Relay/Elc/UpdateMessages.antt =====
-- relay/lcp.go: the messages that `activateClient` makes of the updates.
use lcp_go.Common.{Bytes, List, [], ◌∷◌}
use lcp_go.Result.{Result, ok, ◌>>=◌, ◌>>◌}
use lcp_go.Types
use lcp_go.Message.Decode.{update_client_validate_basic}
use lcp_go.Relay.Prover.{Prover, Response, SentMsg}

module _ {S E F MsgId : Type 0} (pr : Prover S E F MsgId) where
  unfoldable pub update_message : Bytes → Bytes → Response → Result SentMsg
  update_message client_id signer update = do
    let message : Types.UpdateClientMessage = record {
      proxy_message = update.message;
      signatures = update.signature ∷ [];
    }
    update_client_validate_basic pr.packages.abi message
    pr.new_msg_update_client client_id (Types.update_client message) signer

  -- the loop over the updates
  unfoldable pub update_messages : Bytes → Bytes → List Response → Result (List SentMsg)
  update_messages client_id signer [] = ok []
  update_messages client_id signer (update ∷ updates) = do
    msg ← update_message client_id signer update
    msgs ← update_messages client_id signer updates
    ok (msg ∷ msgs)
