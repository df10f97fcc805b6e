-- ===== src/Relay/Elc/Commands.antt =====
-- relay/lcp.go: `doCreateELC` and `doUpdateELC`.
use lcp_go.Common.{ℕ, Bytes, false, Option, none, some, List}
use lcp_go.Result.{ok}
use lcp_go.Message.{UpdateStateProxyMessage}
use lcp_go.Relay.ActiveKey.{EnclaveKeyInfo}
use lcp_go.Relay.Prover.{Prover, ProverState}
use lcp_go.Relay.Action.{Action, ◌>>=◌, ◌>>◌, pure, reads}
use lcp_go.Relay.KeySelection.{select_new_enclave_key}
use lcp_go.Relay.Elc.{create_elc, update_elc}
use lcp_go.Relay.Elc.Results.{CreateElcResult, creation_height, create_result, decode_updates}

module _ {S E F MsgId : Type 0} (pr : Prover S E F MsgId) where
  unfoldable pub do_create_elc : Bytes → ℕ → Action (ProverState E F MsgId) CreateElcResult
  do_create_elc client_id height = do
    header ← reads (λ st. pr.latest_finalized_header st.env)
    h ← pure (creation_height header.height height)
    res ← create_elc pr client_id (some h)
    pure (create_result pr res)

  -- `pr.activeEnclaveKey = eki`
  unfoldable pub use_key : EnclaveKeyInfo → Action (ProverState E F MsgId) (Unit {0})
  use_key eki st = (record st { keys = record st.keys { active_enclave_key = some eki } }, ok tt)

  unfoldable pub ensure_key : Option EnclaveKeyInfo → Action (ProverState E F MsgId) (Unit {0})
  ensure_key (some eki) = pure (ok tt)
  ensure_key none = do eki ← reads (λ st. select_new_enclave_key pr st.env); use_key eki

  unfoldable pub do_update_elc :
      Bytes → Action (ProverState E F MsgId) (List UpdateStateProxyMessage)
  do_update_elc client_id = do
    key ← reads (λ st. ok st.keys.active_enclave_key)
    ensure_key key
    updates ← update_elc pr client_id false
    pure (decode_updates pr updates)
