-- ===== src/Relay/ActiveKey/Finalized.antt =====
-- The files after a registration was found to be final: the key is in the finalized file alone.
use lcp_go.Common.{
  ℕ, ◌≡◌, refl, sym, ap, subst, Bytes, Bool, true, false, none, some, if◌then◌else◌,
}
use lcp_go.Result.{
  Result, Error, ok, err, panic, map_err, >>=-eq-ok, map_err-eq-ok, ok-injective, caused,
  file_failed, no_file, plain, enclave_key_info_not_found,
}
use lcp_go.Relay.ActiveKey.{
  EnclaveKeyInfo, Services, KeyState, load_last_finalized_enclave_key,
  load_last_unfinalized_enclave_key, save_finalized_enclave_key_info, remove_enclave_key_info,
  load_finalized_key, finalize,
}

-- files keep what was written, until it is written again or removed, and the encoding is undone
pub record FileLaws {F MsgId : Type 0} (sv : Services F MsgId) : Type 0 where
  pub read-write :
      (f f' : F) (which : Bool) (bz : Bytes)
      → sv.write_file f which bz ≡ ok f'
      → sv.read_file f' which ≡ ok (some bz)
  pub read-remove :
      (f f' : F) (which : Bool) → sv.remove_file f which ≡ ok f' → sv.read_file f' which ≡ ok none
  pub read-remove_other :
      (f f' : F) → sv.remove_file f false ≡ ok f' → sv.read_file f' true ≡ sv.read_file f true
  pub read_missing :
      (f : F) (which : Bool) → sv.file_exists f which ≡ ok false → sv.read_file f which ≡ ok none
  pub unmarshal-marshal :
      (eki : EnclaveKeyInfo) (bz : Bytes)
      → sv.marshal_info eki ≡ ok bz
      → sv.unmarshal_info bz ≡ ok eki

pub result-inv {ℓ} :
    {A B : Type 0} {P : Type ℓ} (r : Result A) (f : A → B) (g : Error → B) (b x : B)
    → ((a : A) → r ≡ ok a → f a ≡ x → P)
    → ((e : Error) → g e ≡ x → P)
    → (b ≡ x → P)
    → (elim r [ ok a ↦ f a | err e ↦ g e | panic ↦ b ]) ≡ x
    → P
result-inv (ok a) f g b x pf pg pb h = pf a refl h
result-inv (err e) f g b x pf pg pb h = pg e h
result-inv panic f g b x pf pg pb h = pb h

module _ {F MsgId : Type 0} (sv : Services F MsgId) (key_expiration : ℕ) (fl : FileLaws sv) where
  pub record IsFinal (files : F) (eki : EnclaveKeyInfo) : Type 0 where
    pub written : load_last_finalized_enclave_key sv key_expiration files ≡ ok eki
    pub removed : sv.read_file files false ≡ ok none

  pub save-load :
      (files files' : F) (eki : EnclaveKeyInfo)
      → save_finalized_enclave_key_info sv key_expiration files eki ≡ ok files'
      → load_last_finalized_enclave_key sv key_expiration files' ≡ ok eki
  unfolding save_finalized_enclave_key_info load_last_finalized_enclave_key
  save-load files files' eki h =
      let (bz, marshalled, h1) = >>=-eq-ok (map_err _ (sv.marshal_info eki)) _ h in
      rw (fl.read-write files files' true bz (map_err-eq-ok _ _ h1))
        (rw (fl.unmarshal-marshal eki bz (map_err-eq-ok _ _ marshalled)) refl)

  remove-cases :
      (files files' : F) (there : Bool)
      → sv.file_exists files false ≡ ok there
      → (if there then map_err (caused file_failed) (sv.remove_file files false) else ok files)
        ≡ ok files'
      → (sv.read_file files' false ≡ ok none) × (sv.read_file files' true ≡ sv.read_file files true)
  remove-cases files files' true e h =
      let gone = map_err-eq-ok _ (sv.remove_file files false) h in
      (fl.read-remove files files' false gone, fl.read-remove_other files files' gone)
  remove-cases files files' false e h = (
    subst (λ f. sv.read_file f false ≡ ok none) (ok-injective _ _ h)
        (fl.read_missing files false e),
    ap (λ f. sv.read_file f true) (sym (ok-injective _ _ h)),
  )

  remove-read :
      (files files' : F)
      → remove_enclave_key_info sv key_expiration files false ≡ ok files'
      → (sv.read_file files' false ≡ ok none) × (sv.read_file files' true ≡ sv.read_file files true)
  unfolding remove_enclave_key_info
  remove-read files files' h =
      let (there, e, h1) = >>=-eq-ok (map_err _ (sv.file_exists files false)) _ h in
      remove-cases files files' there (map_err-eq-ok _ _ e) h1

  load-same :
      (files files' : F) (eki : EnclaveKeyInfo)
      → sv.read_file files' true ≡ sv.read_file files true
      → load_last_finalized_enclave_key sv key_expiration files ≡ ok eki
      → load_last_finalized_enclave_key sv key_expiration files' ≡ ok eki
  unfolding load_last_finalized_enclave_key
  load-same files files' eki e h = rw e h

  pub finalize-IsFinal :
      (st st' : KeyState F MsgId) (eki : EnclaveKeyInfo)
      → finalize sv key_expiration st (some eki) ≡ (st', ok false)
      → IsFinal st'.files eki
  unfolding finalize
  finalize-IsFinal st st' eki h =
      result-inv (save_finalized_enclave_key_info sv key_expiration st.files eki) _ _ _ _
        (λ files saved.
          result-inv (remove_enclave_key_info sv key_expiration files false) _ _ _ _
            (λ files' removed e.
              let (gone, same) = remove-read files files' removed in
              let at_end : files' ≡ st'.files =
                ap (λ (x : KeyState F MsgId × Result Bool). x.0.files) e in
              subst (λ f. IsFinal f eki) at_end
                (record {
                  written = load-same files files' eki same (save-load st.files files eki saved);
                  removed = gone;
                }))
            (λ x e. cc (ap (λ (y : KeyState F MsgId × Result Bool). y.1) e))
            (λ e. cc (ap (λ (y : KeyState F MsgId × Result Bool). y.1) e)))
        (λ x e. cc (ap (λ (y : KeyState F MsgId × Result Bool). y.1) e))
        (λ e. cc (ap (λ (y : KeyState F MsgId × Result Bool). y.1) e)) h

  pub load-missing :
      (files : F)
      → sv.read_file files false ≡ ok none
      → load_last_unfinalized_enclave_key sv key_expiration files
        ≡ err (caused no_file (plain enclave_key_info_not_found))
  unfolding load_last_unfinalized_enclave_key
  load-missing files h = rw h refl

  pub load_finalized-eq :
      (st : KeyState F MsgId) (eki : EnclaveKeyInfo)
      → load_last_finalized_enclave_key sv key_expiration st.files ≡ ok eki
      → load_finalized_key sv key_expiration st
        ≡ (record st { active_enclave_key = some eki; unfinalized_msg_id = none }, ok false)
  unfolding load_finalized_key
  load_finalized-eq st eki h = rw (load_finalized_key, h) refl
