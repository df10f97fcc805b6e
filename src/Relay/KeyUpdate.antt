-- ===== src/Relay/KeyUpdate.antt =====
-- relay/lcp.go: `UpdateEKIfNeeded`, after which the prover has an enclave key in use.
pub mod Keeping
pub mod Renewal
use lcp_go.Common.{◌≡◌, Bool, true, false, not, Option, none, some, if◌then◌else◌}
use lcp_go.Result.{
  Result, ok, err, panic, map_err, reject_if, plain, caused, load_failed, select_failed,
  register_failed, status_failed, execution_failed,
}
use lcp_go.Relay.ActiveKey.{
  EnclaveKeyInfo, KeyState, load_eki_and_check_update_needed, check_msg_status,
  save_finalized_enclave_key_info, save_unfinalized_enclave_key_info,
}
use lcp_go.Relay.Prover.{Prover, ProverState}
use lcp_go.Relay.Action.{Action, ◌>>=◌, ◌>>◌, pure, reads, with_error}
use lcp_go.Relay.KeySelection.{select_new_enclave_key}
use lcp_go.Relay.Registering.{register_enclave_key}

module _ {S E F MsgId : Type 0} (pr : Prover S E F MsgId) where
  -- the call of `loadEKIAndCheckUpdateNeeded`, on the prover's fields and files
  unfoldable pub load_keys : Action (ProverState E F MsgId) Bool
  load_keys st =
      let (keys, needed) =
        load_eki_and_check_update_needed (pr.services st.env) pr.config.key_expiration
          (pr.now st.env) st.keys in
      (record st { keys = keys }, map_err (caused load_failed) needed)

  -- `pr.activeEnclaveKey, pr.unfinalizedMsgID = nil, nil`
  unfoldable pub forget_keys : Action (ProverState E F MsgId) (Unit {0})
  forget_keys st = (
    record st { keys = record st.keys { active_enclave_key = none; unfinalized_msg_id = none } },
    ok tt,
  )

  unfoldable pub keep_finalized : EnclaveKeyInfo → Action (ProverState E F MsgId) (Unit {0})
  keep_finalized eki st =
      elim (save_finalized_enclave_key_info (pr.services st.env) pr.config.key_expiration
        st.keys.files eki) [
          | ok files ↦ (
            record st { keys = record st.keys { files = files; active_enclave_key = some eki } },
            ok tt,
          )
          | err e ↦ (st, err e)
          | panic ↦ (st, panic)
        ]

  unfoldable pub keep_unfinalized :
      EnclaveKeyInfo → MsgId → Action (ProverState E F MsgId) (Unit {0})
  keep_unfinalized eki id st =
      elim (save_unfinalized_enclave_key_info (pr.services st.env) pr.config.key_expiration
        st.keys.files eki id) [
          | ok files ↦ (
            record st {
              keys = record {
                files = files;
                active_enclave_key = some eki;
                unfinalized_msg_id = some id;
              };
            },
            ok tt,
          )
          | err e ↦ (st, err e)
          | panic ↦ (st, panic)
        ]

  -- the branches on whether the registration is final
  unfoldable pub keep_key :
      EnclaveKeyInfo → MsgId → Bool → Action (ProverState E F MsgId) (Unit {0})
  keep_key eki id true = keep_finalized eki
  keep_key eki id false = keep_unfinalized eki id

  -- the part where an update is needed
  unfoldable pub renew_key : Action (ProverState E F MsgId) (Unit {0})
  renew_key = do
    forget_keys
    eki ← reads (λ st. map_err (caused select_failed) (select_new_enclave_key pr st.env))
    id ← with_error (caused register_failed) (register_enclave_key pr eki)
    status ← reads (λ st.
        map_err (caused status_failed)
          (check_msg_status (pr.services st.env) pr.config.key_expiration id))
    pure (reject_if (not status.1) (plain execution_failed))
    keep_key eki id status.0

  unfoldable pub renew_if : Bool → Action (ProverState E F MsgId) (Unit {0})
  renew_if true = renew_key
  renew_if false = pure (ok tt)

  unfoldable pub update_eki_if_needed : Action (ProverState E F MsgId) (Unit {0})
  update_eki_if_needed = load_keys >>= renew_if
