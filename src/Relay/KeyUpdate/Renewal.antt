-- ===== src/Relay/KeyUpdate/Renewal.antt =====
-- What the prover holds after `UpdateEKIfNeeded`.
use lcp_go.Common.{
  not-eq-false, ◌≡◌, ◌⊎◌, inl, inr, ◌∙◌, refl, sym, ap, subst, Bool, true, false, not, none, some,
  List, [], ◌∷◌,
}
use lcp_go.Result.{
  Result, ok, reject_if, reject_if-last, map_err-eq-ok, ok-injective, plain, execution_failed,
}
use lcp_go.Relay.ActiveKey.{
  EnclaveKeyInfo, KeyState, check_msg_status, load_eki_and_check_update_needed,
  check_eki_update_needed,
}
use lcp_go.Relay.ActiveKey.Usable.{load_eki_and_check_update_needed-usable}
use lcp_go.Relay.ActiveKey.Finalized.{FileLaws}
use lcp_go.Relay.Prover.{Prover, ProverState}
use lcp_go.Relay.Action.{pure, >>=-inv, reads-inv, pure-inv, with_error-inv}
use lcp_go.Relay.KeySelection.{is_update_needed, select_new_enclave_key}
use lcp_go.Relay.Registering.{one_id, send_messages, register_enclave_key}
use lcp_go.Relay.KeySelection.Choice.{IsAllowedKey, select_new_enclave_key-IsChosen}
use lcp_go.Relay.KeyUpdate.{load_keys, forget_keys, renew_key, renew_if, update_eki_if_needed}
use lcp_go.Relay.KeyUpdate.Keeping.{UnfinalizedLaws, IsRegistered, IsKept, keep_key-IsKept}

module _ {S E F MsgId : Type 0} (pr : Prover S E F MsgId)
    (fl : (env : E) → FileLaws (pr.services env))
    (ul : (env : E) → UnfinalizedLaws (pr.services env)) where
  one_id-inv : (ids : List MsgId) (id : MsgId) → one_id ids ≡ ok id → ids ≡ id ∷ []
  unfolding one_id
  one_id-inv [] id h = cc
  one_id-inv (i ∷ []) id h = ap (λ x. x ∷ []) (ok-injective i id h)
  one_id-inv (i ∷ j ∷ ids) id h = cc

  register_enclave_key-inv :
      (eki : EnclaveKeyInfo) (st st' : ProverState E F MsgId) (id : MsgId)
      → register_enclave_key pr eki st ≡ (st', ok id)
      → (st'.keys ≡ st.keys) × IsRegistered pr fl ul st.env eki id st'.env
  unfolding register_enclave_key send_messages
  register_enclave_key-inv eki st st' id h =
      let (msg, made, h1) = reads-inv _ _ st h in
      let (st1, ids, sent, h2) = >>=-inv _ _ st h1 in
      let (same, e) = pure-inv (one_id ids) st1 h2 in
      let at_end : st1 ≡ st' = same in
      (
        ap (λ (s : ProverState E F MsgId). s.keys) (sym same)
            ∙ ap (λ (x : ProverState E F MsgId × Result (List MsgId)). x.0.keys) (sym sent),
        (
          msg,
          made,
          ap (λ (x : ProverState E F MsgId × Result (List MsgId)). (x.0.env, x.1)) sent
              ∙ ap (λ (s : ProverState E F MsgId). (s.env, ok ids)) same
              ∙ ap (λ l. (st'.env, ok l)) (one_id-inv ids id e),
        ),
      )

  renew_key-IsKept :
      (st st' : ProverState E F MsgId)
      → renew_key pr st ≡ (st', ok tt)
      → (eki : EnclaveKeyInfo) × (st'.keys.active_enclave_key ≡ some eki)
        × IsKept pr fl ul st.env eki st'
        × IsAllowedKey pr st.env eki
  unfolding renew_key forget_keys
  renew_key-IsKept st st' h =
      let (st0, _, forgot, h0) = >>=-inv _ _ st h in
      let at_start = ap (λ (x : ProverState E F MsgId × Result (Unit {0})). x.0) forgot in
      let (eki, chosen, h1) = reads-inv _ _ st0 h0 in
      let (st1, id, registered, h2) = >>=-inv _ _ st0 h1 in
      let (status, checked, h3) = reads-inv _ _ st1 h2 in
      let (st2, _, executed, h4) = >>=-inv _ _ st1 h3 in
      let (same, success) =
        pure-inv (reject_if (not status.1) (plain execution_failed)) st1 executed in
      let (kept, sent) =
        register_enclave_key-inv eki st0 st1 id (with_error-inv _ _ st0 registered) in
      let started : st0.env ≡ st.env = ap (λ (s : ProverState E F MsgId). s.env) (sym at_start) in
      let new : st2.keys.unfinalized_msg_id ≡ none =
        ap (λ (s : ProverState E F MsgId). s.keys.unfinalized_msg_id) (sym same)
        ∙ ap (λ (k : KeyState F MsgId). k.unfinalized_msg_id) kept
        ∙ ap (λ (s : ProverState E F MsgId). s.keys.unfinalized_msg_id) (sym at_start) in
      let (_, _, _, _, c) =
        select_new_enclave_key-IsChosen pr st0.env eki
          (map_err-eq-ok _ (select_new_enclave_key pr st0.env) chosen) in
      let (active, same_env, as_file) = keep_key-IsKept pr fl ul eki id status.0 st2 st' new h4 in
      let at_end : st1.env ≡ st'.env =
        ap (λ (s : ProverState E F MsgId). s.env) same ∙ sym same_env in
      (
        eki,
        active,
        (
          id,
          status.0,
          subst (λ e. IsRegistered pr fl ul e eki id st'.env) started
              (subst (λ e. IsRegistered pr fl ul st0.env eki id e) at_end sent),
          subst
              (λ e.
                check_msg_status (pr.services e) pr.config.key_expiration id ≡ ok (status.0, true))
              at_end
              (map_err-eq-ok _ _ checked
                ∙ ap (λ b. ok (status.0, b)) (not-eq-false status.1 (reject_if-last _ _ success))),
          as_file,
        ),
        subst (λ (s : ProverState E F MsgId). IsAllowedKey pr s.env eki) (sym at_start) (c.chosen),
      )

  -- what the method leaves: a key in use that needs no update, which is either the one that was
  -- there, or one that was registered and written to the file for its status
  abbrev pub IsUpdated : ProverState E F MsgId → ProverState E F MsgId → Type 0
  IsUpdated st st' =
      (eki : EnclaveKeyInfo) × (st'.keys.active_enclave_key ≡ some eki)
      × (is_update_needed pr st.env eki ≡ ok false)
      × ((st'.env ≡ st.env) ⊎ (IsKept pr fl ul st.env eki st' × IsAllowedKey pr st.env eki))

  renew_if-IsUpdated :
      (needed : Bool) (st st1 st' : ProverState E F MsgId)
      → load_keys pr st ≡ (st1, ok needed)
      → renew_if pr needed st1 ≡ (st', ok tt)
      → IsUpdated st st'
  unfolding renew_if load_keys pure is_update_needed check_eki_update_needed
  renew_if-IsUpdated true st st1 st' loaded h =
      let same : st.env ≡ st1.env =
        ap (λ (x : ProverState E F MsgId × Result Bool). x.0.env) loaded in
      let (eki, active, kept, allowed) = renew_key-IsKept st1 st' h in
      let allowed' : IsAllowedKey pr st.env eki =
        subst (λ e. IsAllowedKey pr e eki) (sym same) allowed in
      (
        eki,
        active,
        allowed'.in_time,
        inr (subst (λ e. IsKept pr fl ul e eki st') (sym same) kept, allowed'),
      )
  renew_if-IsUpdated false st st1 st' loaded h =
      let moved : st1 ≡ st' = ap (λ (x : ProverState E F MsgId × Result (Unit {0})). x.0) h in
      let keys : KeyState F MsgId × Result Bool =
        load_eki_and_check_update_needed (pr.services st.env) pr.config.key_expiration
          (pr.now st.env) st.keys in
      let ok_false : keys.1 ≡ ok false =
        map_err-eq-ok _ keys.1 (ap (λ (x : ProverState E F MsgId × Result Bool). x.1) loaded) in
      let (eki, active, early, known) =
        load_eki_and_check_update_needed-usable (pr.services st.env) pr.config.key_expiration
          (pr.now st.env) st.keys keys.0 (ap (λ r. (keys.0, r)) ok_false) in
      (
        eki,
        ap (λ (s : ProverState E F MsgId). s.keys.active_enclave_key) (sym moved)
            ∙ ap (λ (x : ProverState E F MsgId × Result Bool). x.0.keys.active_enclave_key)
                (sym loaded)
            ∙ active,
        rw early (rw known refl),
        inl (
            ap (λ (s : ProverState E F MsgId). s.env) (sym moved)
            ∙ ap (λ (x : ProverState E F MsgId × Result Bool). x.0.env) (sym loaded)),
      )

  -- After the key was updated without an error, the prover has a key in use which needed no update at
  -- the start. Either nothing was sent, or the key is an allowed one: its registration was made, that
  -- message alone was sent, and the message with the id that this returned was found to be executed.
  -- If the registration is final, the key is what is read back from the file for final keys, and else
  -- the key and the message are what is read back from the other file.
  pub update_eki_if_needed-IsUpdated :
      (st st' : ProverState E F MsgId)
      → update_eki_if_needed pr st ≡ (st', ok tt)
      → IsUpdated st st'
  unfolding update_eki_if_needed
  update_eki_if_needed-IsUpdated st st' h =
      let (st1, needed, loaded, h1) = >>=-inv (load_keys pr) (renew_if pr) st h in
      renew_if-IsUpdated needed st st1 st' loaded h1
