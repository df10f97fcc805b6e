-- ===== src/Relay/Elc.antt =====
-- relay/lcp.go: the prover's client in the LCP service, "ELC": its creation, updates and queries.
pub mod Service
pub mod Results
pub mod Commands
pub mod RestoreChecks
pub mod Restored
pub mod RestoreHeight
pub mod Restoring
pub mod UpdateMessages
pub mod Activation
pub mod Activated
use lcp_go.Common.{
  ℕ, Bytes, Bool, true, false, not, Option, none, some, List, [], ◌∷◌, length, ◌==◌, leb,
  if◌then◌else◌,
}
use lcp_go.Result.{Result, ok, err, panic, reject_if, plain, client_not_found}
use lcp_go.Types.{Height}
use lcp_go.Packages.{AnyValue}
use lcp_go.Relay.ActiveKey.{EnclaveKeyInfo, KeyState}
use lcp_go.Relay.Prover.{
  Prover, ProverState, Header, Response, MsgCreateClient, MsgUpdateClient, lcp_querier,
  QueryClientResponse,
}
use lcp_go.Relay.Action.{Action, ◌>>=◌, ◌>>◌, pure, reads}
use lcp_go.Relay.Elc.Service.{active_key_address, initial_state}
use lcp_go.Relay.KeySelection.{select_new_enclave_key}

module _ {S E F MsgId : Type 0} (pr : Prover S E F MsgId) where
  -- the calls of the LCP service that change its clients
  unfoldable pub call_create_client : MsgCreateClient → Action (ProverState E F MsgId) Response
  call_create_client msg st =
      let (env, response) = pr.create_client msg st.env in (record st { env = env }, response)

  unfoldable pub call_update_client : MsgUpdateClient → Action (ProverState E F MsgId) Response
  call_update_client msg st =
      let (env, response) = pr.update_client msg st.env in (record st { env = env }, response)

  -- the loop of `updateELC`
  unfoldable pub send_headers :
      Bytes → Bool → List Header → Action (ProverState E F MsgId) (List Response)
  send_headers client_id include_state [] = pure (ok [])
  send_headers client_id include_state (header ∷ headers) = do
    any_header ← pure header.packed
    signer ← reads (active_key_address pr)
    response ← call_update_client (record {
      client_id = client_id;
      header = any_header;
      include_state = include_state;
      signer = signer;
    })
    responses ← send_headers client_id include_state headers
    pure (ok (response ∷ responses))

  -- the part of `updateELC` for a client that is behind
  unfoldable pub send_new_headers :
      Bytes → Bool → Header → Action (ProverState E F MsgId) (List Response)
  send_new_headers client_id include_state latest = do
    headers ← reads (λ st. pr.setup_headers (lcp_querier client_id) st.env latest)
    if length headers == 0 then pure (ok []) else send_headers client_id include_state headers

  unfoldable pub update_elc : Bytes → Bool → Action (ProverState E F MsgId) (List Response)
  update_elc client_id include_state = do
    res ← reads (λ st. pr.client st.env client_id)
    pure (reject_if (not res.found) (plain client_not_found))
    latest ← reads (λ st. pr.latest_finalized_header st.env)
    client_state ← pure (pr.unpack_client_state res.client_state)
    if not (pr.packages.ibc.height_lt client_state.latest_height latest.height)
        then pure (ok [])
        else send_new_headers client_id include_state latest

  -- `none` where the client exists: nothing is done then
  unfoldable pub create_missing_elc :
      Bytes → Option Height → Bool → Action (ProverState E F MsgId) (Option Response)
  create_missing_elc client_id height true = pure (ok none)
  create_missing_elc client_id height false = do
    key ← reads (λ st. select_new_enclave_key pr st.env)
    states ← reads (initial_state pr height)
    response ← call_create_client (record {
      client_id = client_id;
      client_state = states.0;
      consensus_state = states.1;
      signer = key.enclave_key_address;
    })
    pure (ok (some response))

  unfoldable pub create_elc :
      Bytes → Option Height → Action (ProverState E F MsgId) (Option Response)
  create_elc client_id height = do
    res ← reads (λ st. pr.client st.env client_id)
    create_missing_elc client_id height res.found
