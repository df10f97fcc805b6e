-- ===== src/Relay/ActiveKey/Restart.antt =====
-- What a restarted prover finds in its files after a registration was found to be final.
use lcp_go.Common.{
  ℕ, Option, ◌≡◌, ◌≢◌, ◌⊎◌, inl, inr, refl, ap, subst, Bool, true, false, none, some,
}
use lcp_go.Result.{Result, ok, err, panic}
use lcp_go.GoTime.{Time}
use lcp_go.Relay.ActiveKey.{
  EnclaveKeyInfo, Services, KeyState, load_last_unfinalized_enclave_key, remove_enclave_key_info,
  load_key, finalize, is_not_found, finalize_unless_needed, drop_unfinalized, check_loaded,
  on_msg_status, after_load, check_msg_status, check_eki_update_needed,
  load_eki_and_check_update_needed,
}
use lcp_go.Relay.ActiveKey.Finalized.{
  FileLaws, result-inv, finalize-IsFinal, load-missing, load_finalized-eq,
}

module _ {F MsgId : Type 0} (sv : Services F MsgId) (key_expiration : ℕ) (fl : FileLaws sv) where
  -- a prover that starts anew with these files loads this key, as a finalized one
  abbrev pub IsRestartedWith : EnclaveKeyInfo → F → Type 0
  IsRestartedWith eki files =
      load_key sv key_expiration
        (record { active_enclave_key = none; unfinalized_msg_id = none; files = files })
      ≡ (
        record { active_enclave_key = some eki; unfinalized_msg_id = none; files = files },
        ok false,
      )

  finalize-load_key :
      (st st' : KeyState F MsgId) (eki : EnclaveKeyInfo)
      → finalize sv key_expiration st (some eki) ≡ (st', ok false)
      → IsRestartedWith eki st'.files
  unfolding load_key is_not_found
  finalize-load_key st st' eki h =
      let v = finalize-IsFinal sv key_expiration fl st st' eki h in
      rw (load_key, load-missing sv key_expiration fl st'.files (v.removed))
        (load_finalized-eq sv key_expiration fl _ eki (v.written))

  unless_needed-load_key :
      (st st' : KeyState F MsgId) (eki : EnclaveKeyInfo) (r : Result Bool)
      → st.active_enclave_key ≡ some eki
      → finalize_unless_needed sv key_expiration st r ≡ (st', ok false)
      → IsRestartedWith eki st'.files
  unfolding finalize_unless_needed
  unless_needed-load_key st st' eki (ok true) a h =
      cc (ap (λ (y : KeyState F MsgId × Result Bool). y.1) h)
  unless_needed-load_key st st' eki (ok false) a h =
      finalize-load_key st st' eki
        (subst (λ k. finalize sv key_expiration st k ≡ (st', ok false)) a h)
  unless_needed-load_key st st' eki (err e) a h =
      cc (ap (λ (y : KeyState F MsgId × Result Bool). y.1) h)
  unless_needed-load_key st st' eki panic a h =
      cc (ap (λ (y : KeyState F MsgId × Result Bool). y.1) h)

  drop-ne-false :
      (st st' : KeyState F MsgId) → drop_unfinalized sv key_expiration st ≢ (st', ok false)
  unfolding drop_unfinalized
  drop-ne-false st st' h =
      result-inv (remove_enclave_key_info sv key_expiration st.files false) _ _ _ _
        (λ files removed e. cc (ap (λ (y : KeyState F MsgId × Result Bool). y.1) e))
        (λ x e. cc (ap (λ (y : KeyState F MsgId × Result Bool). y.1) e))
        (λ e. cc (ap (λ (y : KeyState F MsgId × Result Bool). y.1) e)) h

  check_loaded-load_key :
      (now : Time) (st st' : KeyState F MsgId) (eki : EnclaveKeyInfo) (id : MsgId)
      → st.active_enclave_key ≡ some eki
      → check_msg_status sv key_expiration id ≡ ok (true, true)
      → check_loaded sv key_expiration now st (some id) ≡ (st', ok false)
      → IsRestartedWith eki st'.files
  unfolding check_loaded on_msg_status
  check_loaded-load_key now st st' eki id active final h =
      result-inv (sv.get_msg_result id) _ _ _ _
        (λ r found e.
          unless_needed-load_key st st' eki
            (check_eki_update_needed sv key_expiration now st.active_enclave_key) active
            (subst (λ o. on_msg_status sv key_expiration now st o ≡ (st', ok false)) final e))
        (λ x e. absurd (drop-ne-false st st' e))
        (λ e. cc (ap (λ (y : KeyState F MsgId × Result Bool). y.1) e)) h

  -- the key and the message of its registration, in memory, or in the file where there is no key in
  -- memory
  abbrev pub IsPending : EnclaveKeyInfo → MsgId → KeyState F MsgId → Type 0
  IsPending eki id st =
      ((st.active_enclave_key ≡ some eki) × (st.unfinalized_msg_id ≡ some id))
      ⊎ ((st.active_enclave_key ≡ none)
          × (load_last_unfinalized_enclave_key sv key_expiration st.files ≡ ok (some eki, id)))

  load_key-stored :
      (st : KeyState F MsgId) (key : Option EnclaveKeyInfo) (id : MsgId)
      → load_last_unfinalized_enclave_key sv key_expiration st.files ≡ ok (key, id)
      → load_key sv key_expiration st
        ≡ (record st { active_enclave_key = key; unfinalized_msg_id = some id }, ok false)
  unfolding load_key
  load_key-stored st key id h = rw (load_key, h) refl

  module _ (now : Time) (st : KeyState F MsgId) {out : KeyState F MsgId × Result Bool} where
    in_memory :
        {eki : EnclaveKeyInfo}
        → st.active_enclave_key ≡ some eki
        → load_eki_and_check_update_needed sv key_expiration now st ≡ out
        → check_loaded sv key_expiration now st st.unfinalized_msg_id ≡ out
    unfolding load_eki_and_check_update_needed
    in_memory a h =
        subst
          (λ k.
            (elim k [
              | none ↦ after_load sv key_expiration now (load_key sv key_expiration st)
              | some eki ↦ check_loaded sv key_expiration now st st.unfinalized_msg_id
            ])
            ≡ out)
          a h

    from_file :
        st.active_enclave_key ≡ none
        → load_eki_and_check_update_needed sv key_expiration now st ≡ out
        → after_load sv key_expiration now (load_key sv key_expiration st) ≡ out
    unfolding load_eki_and_check_update_needed
    from_file a h =
        subst
          (λ k.
            (elim k [
              | none ↦ after_load sv key_expiration now (load_key sv key_expiration st)
              | some eki ↦ check_loaded sv key_expiration now st st.unfinalized_msg_id
            ])
            ≡ out)
          a h

  -- Take a key whose registration is pending, in memory or in its file, and let the message of the
  -- registration be final and executed. Where `loadEKIAndCheckUpdateNeeded` then reports that no update
  -- is needed, a prover that starts anew with the files it leaves loads this key, as a finalized one.
  pub load_eki_and_check_update_needed-load_key :
      (now : Time) (st st' : KeyState F MsgId) (eki : EnclaveKeyInfo) (id : MsgId)
      → IsPending eki id st
      → check_msg_status sv key_expiration id ≡ ok (true, true)
      → load_eki_and_check_update_needed sv key_expiration now st ≡ (st', ok false)
      → IsRestartedWith eki st'.files
  unfolding after_load
  load_eki_and_check_update_needed-load_key now st st' eki id (inl (active, pending)) final h =
      let checked : check_loaded sv key_expiration now st st.unfinalized_msg_id ≡ (st', ok false) =
        in_memory now st active h in
      check_loaded-load_key now st st' eki id active final
        (subst (λ o. check_loaded sv key_expiration now st o ≡ (st', ok false)) pending checked)
  load_eki_and_check_update_needed-load_key now st st' eki id (inr (none_there, stored)) final h =
      let loaded : after_load sv key_expiration now (load_key sv key_expiration st)
          ≡ (st', ok false) =
        from_file now st none_there h in
      check_loaded-load_key now
        (record st { active_enclave_key = some eki; unfinalized_msg_id = some id }) st' eki id refl
        final
        (subst (λ r. after_load sv key_expiration now r ≡ (st', ok false))
          (load_key-stored st (some eki) id stored) loaded)
