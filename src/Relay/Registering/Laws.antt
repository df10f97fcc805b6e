-- ===== src/Relay/Registering/Laws.antt =====
-- What the acceptance of the prover's messages relies on: its signer signs for its address, and a
-- message for a chain carries what it was made of.
use lcp_go.Common.{◌≡◌, Bytes, some}
use lcp_go.Result.{ok}
use lcp_go.Types.{Address, ClientMessage}
use lcp_go.Eip712.{recover_address}
use lcp_go.Relay.Config.{Signer, get_signer_address}
use lcp_go.Relay.Prover.{Prover, SentMsg}

pub record ProverLaws {S E F MsgId : Type 0} (pr : Prover S E F MsgId) : Type 0 where
  pub recover-sign :
      (s : Signer) (commitment sig : Bytes) (operator : Address)
      → pr.eip712_signer ≡ some s
      → s.sign commitment ≡ ok sig
      → get_signer_address pr.config_packages s ≡ ok operator
      → recover_address pr.packages commitment sig ≡ ok operator
  pub new_msg_update_client_lem :
      (id : Bytes) (m : ClientMessage) (signer : Bytes) (msg : SentMsg)
      → pr.new_msg_update_client id m signer ≡ ok msg
      → msg ≡ record { client_id = id; client_message = m; signer = signer }
