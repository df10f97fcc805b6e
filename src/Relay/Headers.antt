-- ===== src/Relay/Headers.antt =====
-- relay/prover.go: the methods of `core.Prover`: the initial state of the client, the updates for the
-- counterparty, and the proofs of states.
pub mod Messages
pub mod Responses
pub mod Updates
pub mod Initial
pub mod Proofs
use lcp_go.Common.{Bytes, false, Option, none, some, List, [], ◌∷◌, length, ◌==◌, if◌then◌else◌}
use lcp_go.Result.{
  ok, map_err, caused, create_elc_failed, setup_failed, pack_failed, update_elc_failed,
  prove_failed, membership_failed, decode_failed,
}
use lcp_go.Types.{Height, ClientState, ConsensusState, UpdateClientMessage}
use lcp_go.Relay.Config.{ProverConfig}
use lcp_go.Relay.Prover.{
  Prover, ProverState, Header, Response, MsgUpdateClient, MsgVerifyMembership, counterparty,
}
use lcp_go.Relay.Action.{Action, ◌>>=◌, ◌>>◌, pure, reads, with_error}
use lcp_go.Relay.KeyUpdate.{update_eki_if_needed}
use lcp_go.Relay.Elc.Service.{active_key_address}
use lcp_go.Relay.Elc.{call_update_client, create_elc}
use lcp_go.Relay.Headers.Messages.{is_headered, updates_of, initial_client_state, membership_proof}

module _ {S E F MsgId : Type 0} (pr : Prover S E F MsgId) where
  unfoldable pub create_initial_light_client_state :
      Option Height → Action (ProverState E F MsgId) (ClientState × ConsensusState)
  create_initial_light_client_state height = do
    client_state ← pure (initial_client_state pr)
    created ← with_error (caused create_elc_failed) (create_elc pr pr.config.elc_client_id height)
    pure (ok (client_state, record { state_id = []; timestamp = 0 }))

  -- the loop of `SetupHeadersForUpdate`: the messages and their signatures
  unfoldable pub sign_headers :
      List Header → Action (ProverState E F MsgId) (List Bytes × List Bytes)
  sign_headers [] = pure (ok ([], []))
  sign_headers (header ∷ headers) = do
    any_header ← pure (map_err (caused pack_failed) header.packed)
    signer ← reads (active_key_address pr)
    response ← with_error (caused update_elc_failed) (
        call_update_client pr (record {
          client_id = pr.config.elc_client_id;
          header = any_header;
          include_state = false;
          signer = signer;
        }))
    pure (is_headered pr response.message)
    others ← sign_headers headers
    pure (ok (response.message ∷ others.0, response.signature ∷ others.1))

  unfoldable pub updates_for :
      List Header → Action (ProverState E F MsgId) (List UpdateClientMessage)
  updates_for headers = do
    signed ← sign_headers headers
    signer ← reads (active_key_address pr)
    pure (updates_of pr signer signed.0 signed.1)

  unfoldable pub setup_headers_for_update :
      Header → Action (ProverState E F MsgId) (List UpdateClientMessage)
  setup_headers_for_update latest = do
    update_eki_if_needed pr
    headers ←
        reads (λ st. map_err (caused setup_failed) (pr.setup_headers counterparty st.env latest))
    if length headers == 0 then pure (ok []) else updates_for headers

  unfoldable pub call_membership : MsgVerifyMembership → Action (ProverState E F MsgId) Response
  call_membership msg st =
      let (env, response) = pr.membership msg st.env in (record st { env = env }, response)

  unfoldable pub prove_state : Bytes → Bytes → Action (ProverState E F MsgId) (Bytes × Height)
  prove_state path value = do
    proven ← reads (λ st. map_err (caused prove_failed) (pr.origin_prove_state st.env path value))
    signer ← reads (active_key_address pr)
    response ← with_error (caused membership_failed) (
        call_membership (record {
          client_id = pr.config.elc_client_id;
          prefix = pr.packages.ibc.store_key;
          path = path;
          value = value;
          proof_height = proven.1;
          proof = proven.0;
          signer = signer;
        }))
    pure (membership_proof pr response)
