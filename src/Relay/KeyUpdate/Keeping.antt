-- ===== src/Relay/KeyUpdate/Keeping.antt =====
-- What is written for a key that was registered.
use lcp_go.Common.{ℕ, ◌≡◌, [], ◌∷◌, refl, ap, subst, Bytes, Bool, true, false, none, some}
use lcp_go.Result.{Result, ok, map_err, >>=-eq-ok, map_err-eq-ok}
use lcp_go.Relay.ActiveKey.{
  EnclaveKeyInfo, UnfinalizedEki, Services, load_last_finalized_enclave_key,
  load_last_unfinalized_enclave_key, save_finalized_enclave_key_info,
  save_unfinalized_enclave_key_info, check_msg_status,
}
use lcp_go.Relay.ActiveKey.Finalized.{FileLaws, save-load, result-inv}
use lcp_go.Relay.Prover.{Prover, ProverState, SentMsg}
use lcp_go.Relay.Registering.KeyMessage.{registration_message}
use lcp_go.Relay.KeyUpdate.{keep_finalized, keep_unfinalized, keep_key}

-- the encodings of what is written for a key whose registration is not final
pub record UnfinalizedLaws {F MsgId : Type 0} (sv : Services F MsgId) : Type 0 where
  pub unmarshal-marshal_unfinalized :
      (u : UnfinalizedEki) (bz : Bytes)
      → sv.marshal_unfinalized u ≡ ok bz
      → sv.unmarshal_unfinalized bz ≡ ok u
  pub unmarshal-marshal_msg_id :
      (id : MsgId) (bz : Bytes) → sv.marshal_msg_id id ≡ ok bz → sv.unmarshal_msg_id bz ≡ ok id

module _ {F MsgId : Type 0} (sv : Services F MsgId) (key_expiration : ℕ) (fl : FileLaws sv)
    (ul : UnfinalizedLaws sv) where
  save-load_unfinalized :
      (files files' : F) (eki : EnclaveKeyInfo) (id : MsgId)
      → save_unfinalized_enclave_key_info sv key_expiration files eki id ≡ ok files'
      → load_last_unfinalized_enclave_key sv key_expiration files' ≡ ok (some eki, id)
  unfolding save_unfinalized_enclave_key_info load_last_unfinalized_enclave_key
  save-load_unfinalized files files' eki id h =
      let (idb, named, h1) = >>=-eq-ok (map_err _ (sv.marshal_msg_id id)) _ h in
      let (bz, marshalled, h2) =
        >>=-eq-ok
          (map_err _ (sv.marshal_unfinalized (record { info = some eki; msg_id_bytes = idb }))) _
          h1 in
      rw (fl.read-write files files' false bz (map_err-eq-ok _ _ h2)) (
        rw (ul.unmarshal-marshal_unfinalized _ bz (map_err-eq-ok _ _ marshalled))
          (rw (ul.unmarshal-marshal_msg_id id idb (map_err-eq-ok _ _ named)) refl))

module _ {S E F MsgId : Type 0} (pr : Prover S E F MsgId)
    (fl : (env : E) → FileLaws (pr.services env))
    (ul : (env : E) → UnfinalizedLaws (pr.services env)) where
  -- what is in the file for a registration that is final, and for one that is not
  abbrev pub KeptAs : EnclaveKeyInfo → MsgId → Bool → ProverState E F MsgId → Type 0
  KeptAs eki id true st =
      (st.keys.unfinalized_msg_id ≡ none)
      × (load_last_finalized_enclave_key (pr.services st.env) pr.config.key_expiration st.keys.files
          ≡ ok eki)
  KeptAs eki id false st =
      (st.keys.unfinalized_msg_id ≡ some id)
      × (load_last_unfinalized_enclave_key (pr.services st.env) pr.config.key_expiration
            st.keys.files
          ≡ ok (some eki, id))

  -- the one message that was sent is the key's registration, and its id is the one returned
  abbrev pub IsRegistered : E → EnclaveKeyInfo → MsgId → E → Type 0
  IsRegistered env eki id env' =
      (msg : SentMsg) × (registration_message pr env eki ≡ ok msg)
      × (pr.send_msgs (msg ∷ []) env ≡ (env', ok (id ∷ [])))

  -- the registration was sent and executed, and the key is in the file for its status
  abbrev pub IsKept : E → EnclaveKeyInfo → ProverState E F MsgId → Type 0
  IsKept env eki st =
      (id : MsgId) × (final : Bool) × IsRegistered env eki id st.env
      × (check_msg_status (pr.services st.env) pr.config.key_expiration id ≡ ok (final, true))
      × KeptAs eki id final st

  abbrev pub IsKeptActive : E → EnclaveKeyInfo → MsgId → Bool → ProverState E F MsgId → Type 0
  IsKeptActive env eki id final st =
      (st.keys.active_enclave_key ≡ some eki) × (st.env ≡ env) × KeptAs eki id final st

  keep_finalized-IsKept :
      (eki : EnclaveKeyInfo) (id : MsgId) (st st' : ProverState E F MsgId)
      → st.keys.unfinalized_msg_id ≡ none
      → keep_finalized pr eki st ≡ (st', ok tt)
      → IsKeptActive st.env eki id true st'
  unfolding keep_finalized
  keep_finalized-IsKept eki id st st' new h =
      result-inv
        (save_finalized_enclave_key_info (pr.services st.env) pr.config.key_expiration st.keys.files
          eki)
        _ _ _ _
        (λ files saved e.
          subst (IsKeptActive st.env eki id true)
            (ap (λ (x : ProverState E F MsgId × Result (Unit {0})). x.0) e)
            (
              refl,
              refl,
              (
                new,
                save-load (pr.services st.env) pr.config.key_expiration (fl st.env) st.keys.files
                    files eki saved,
              ),
            ))
        (λ x e. cc (ap (λ (y : ProverState E F MsgId × Result (Unit {0})). y.1) e))
        (λ e. cc (ap (λ (y : ProverState E F MsgId × Result (Unit {0})). y.1) e)) h

  keep_unfinalized-IsKept :
      (eki : EnclaveKeyInfo) (id : MsgId) (st st' : ProverState E F MsgId)
      → keep_unfinalized pr eki id st ≡ (st', ok tt)
      → IsKeptActive st.env eki id false st'
  unfolding keep_unfinalized
  keep_unfinalized-IsKept eki id st st' h =
      result-inv
        (save_unfinalized_enclave_key_info (pr.services st.env) pr.config.key_expiration
          st.keys.files eki id)
        _ _ _ _
        (λ files saved e.
          subst (IsKeptActive st.env eki id false)
            (ap (λ (x : ProverState E F MsgId × Result (Unit {0})). x.0) e)
            (
              refl,
              refl,
              (
                refl,
                save-load_unfinalized (pr.services st.env) pr.config.key_expiration (fl st.env)
                    (ul st.env) st.keys.files files eki id saved,
              ),
            ))
        (λ x e. cc (ap (λ (y : ProverState E F MsgId × Result (Unit {0})). y.1) e))
        (λ e. cc (ap (λ (y : ProverState E F MsgId × Result (Unit {0})). y.1) e)) h

  pub keep_key-IsKept :
      (eki : EnclaveKeyInfo) (id : MsgId) (final : Bool) (st st' : ProverState E F MsgId)
      → st.keys.unfinalized_msg_id ≡ none
      → keep_key pr eki id final st ≡ (st', ok tt)
      → IsKeptActive st.env eki id final st'
  unfolding keep_key
  keep_key-IsKept eki id true st st' new h = keep_finalized-IsKept eki id st st' new h
  keep_key-IsKept eki id false st st' new h = keep_unfinalized-IsKept eki id st st' h
