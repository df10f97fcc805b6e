-- ===== src/Relay/ActiveKey/Usable.antt =====
-- The key that is used without an update, and what a restart finds after its registration is final.
use lcp_go.Common.{ℕ, ◌≡◌, refl, subst, Bool, true, false, Option, none, some, if◌then◌else◌}
use lcp_go.Common.Int.{int_64}
use lcp_go.Result.{Result, Error, ok, err, panic}
use lcp_go.GoTime.{Time, before, add_duration, unix_time, seconds}
use lcp_go.Relay.ActiveKey.{
  EnclaveKeyInfo, Services, KeyState, save_finalized_enclave_key_info, remove_enclave_key_info,
  check_eki_update_needed, check_msg_status, load_key, drop_unfinalized, finalize,
  finalize_unless_needed, on_msg_status, check_loaded, after_load, load_eki_and_check_update_needed,
  half,
}

-- half of the key expiration after the attestation
abbrev pub update_time_of : ℕ → EnclaveKeyInfo → Time
update_time_of key_expiration eki =
    add_duration (unix_time (int_64 eki.attestation_time) 0) (half (seconds key_expiration))

result-holds {ℓ} :
    {A B : Type 0} (P : B → Type ℓ) (r : Result A) (f : A → B) (g : Error → B) (b : B)
    → ((a : A) → P (f a))
    → ((e : Error) → P (g e))
    → P b
    → P (elim r [ ok a ↦ f a | err e ↦ g e | panic ↦ b ])
result-holds P (ok a) f g b pf pg pb = pf a
result-holds P (err e) f g b pf pg pb = pg e
result-holds P panic f g b pf pg pb = pb

option-holds {ℓ} :
    {A B : Type 0} (P : B → Type ℓ) (o : Option A) (b : B) (f : A → B)
    → P b
    → ((a : A) → P (f a))
    → P (elim o [ none ↦ b | some a ↦ f a ])
option-holds P none b f pb pf = pb
option-holds P (some a) b f pb pf = pf a

module _ {F MsgId : Type 0} (sv : Services F MsgId) (key_expiration : ℕ) (now : Time) where
  -- the prover has a key in memory that needs no update
  IsUsable : KeyState F MsgId × Result Bool → Type 0
  IsUsable (st, ok false) =
      check_eki_update_needed sv key_expiration now st.active_enclave_key ≡ ok false
  IsUsable (st, _) = Unit

  checked-IsUsable :
      (st : KeyState F MsgId) (r : Result Bool)
      → check_eki_update_needed sv key_expiration now st.active_enclave_key ≡ r
      → IsUsable (st, r)
  unfolding IsUsable
  checked-IsUsable st (ok true) h = tt
  checked-IsUsable st (ok false) h = h
  checked-IsUsable st (err e) h = tt
  checked-IsUsable st panic h = tt

  drop-IsUsable : (st : KeyState F MsgId) → IsUsable (drop_unfinalized sv key_expiration st)
  unfolding IsUsable drop_unfinalized
  drop-IsUsable st =
      result-holds IsUsable (remove_enclave_key_info sv key_expiration st.files false) _ _ _
        (λ files. tt) (λ e. tt) tt

  finalize-IsUsable :
      (st : KeyState F MsgId) (key : Option EnclaveKeyInfo)
      → check_eki_update_needed sv key_expiration now st.active_enclave_key ≡ ok false
      → IsUsable (finalize sv key_expiration st key)
  unfolding IsUsable finalize
  finalize-IsUsable st none h = tt
  finalize-IsUsable st (some eki) h =
      result-holds IsUsable (save_finalized_enclave_key_info sv key_expiration st.files eki) _ _ _
        (λ files.
          result-holds IsUsable (remove_enclave_key_info sv key_expiration files false) _ _ _
            (λ files'. h) (λ e. tt) tt)
        (λ e. tt) tt

  unless_needed-IsUsable :
      (st : KeyState F MsgId) (r : Result Bool)
      → check_eki_update_needed sv key_expiration now st.active_enclave_key ≡ r
      → IsUsable (finalize_unless_needed sv key_expiration st r)
  unfolding IsUsable finalize_unless_needed
  unless_needed-IsUsable st (ok true) h = tt
  unless_needed-IsUsable st (ok false) h = finalize-IsUsable st st.active_enclave_key h
  unless_needed-IsUsable st (err e) h = tt
  unless_needed-IsUsable st panic h = tt

  on_msg_status-IsUsable :
      (st : KeyState F MsgId) (r : Result (Bool × Bool))
      → IsUsable (on_msg_status sv key_expiration now st r)
  unfolding IsUsable on_msg_status
  on_msg_status-IsUsable st (ok (finalized, false)) = drop-IsUsable st
  on_msg_status-IsUsable st (ok (true, true)) =
      unless_needed-IsUsable st
        (check_eki_update_needed sv key_expiration now st.active_enclave_key) refl
  on_msg_status-IsUsable st (ok (false, true)) = checked-IsUsable st _ refl
  on_msg_status-IsUsable st (err e) = tt
  on_msg_status-IsUsable st panic = tt

  check_loaded-IsUsable :
      (st : KeyState F MsgId) (id : Option MsgId)
      → IsUsable (check_loaded sv key_expiration now st id)
  unfolding IsUsable check_loaded
  check_loaded-IsUsable st none = checked-IsUsable st _ refl
  check_loaded-IsUsable st (some id) =
      result-holds IsUsable (sv.get_msg_result id) _ _ _
        (λ r. on_msg_status-IsUsable st (check_msg_status sv key_expiration id))
        (λ e. drop-IsUsable st) tt

  after_load-IsUsable :
      (r : KeyState F MsgId × Result Bool) → IsUsable (after_load sv key_expiration now r)
  unfolding IsUsable after_load
  after_load-IsUsable (st, ok true) = tt
  after_load-IsUsable (st, ok false) = check_loaded-IsUsable st st.unfinalized_msg_id
  after_load-IsUsable (st, err e) = tt
  after_load-IsUsable (st, panic) = tt

  load-IsUsable :
      (st : KeyState F MsgId) → IsUsable (load_eki_and_check_update_needed sv key_expiration now st)
  unfolding IsUsable load_eki_and_check_update_needed
  load-IsUsable st =
      option-holds IsUsable (st.active_enclave_key) _ _
        (after_load-IsUsable (load_key sv key_expiration st))
        (λ eki. check_loaded-IsUsable st st.unfinalized_msg_id)

  -- a key that needs no update is early enough, and the service knows it
  pub in_use_of :
      (eki : EnclaveKeyInfo)
      → check_eki_update_needed sv key_expiration now (some eki) ≡ ok false
      → (before (update_time_of key_expiration eki) now ≡ false)
        × (sv.enclave_key eki.enclave_key_address ≡ ok tt)
  unfolding check_eki_update_needed
  in_use_of eki h =
      usable_of (before (update_time_of key_expiration eki) now)
        (sv.enclave_key eki.enclave_key_address) h
    where
      usable_of :
          (late : Bool) (r : Result (Unit {0}))
          → (if late
              then ok true
              else (elim r [ ok _ ↦ ok false | err e ↦ ok true | panic ↦ panic ]))
            ≡ ok false
          → (late ≡ false) × (r ≡ ok tt)
      usable_of true r h = cc
      usable_of false (ok tt) h = (refl, refl)
      usable_of false (err e) h = cc
      usable_of false panic h = cc

  usable-inv :
      (key : Option EnclaveKeyInfo)
      → check_eki_update_needed sv key_expiration now key ≡ ok false
      → (eki : EnclaveKeyInfo) × (key ≡ some eki)
        × (before (update_time_of key_expiration eki) now ≡ false)
        × (sv.enclave_key eki.enclave_key_address ≡ ok tt)
  unfolding check_eki_update_needed
  usable-inv none h = cc
  usable-inv (some eki) h = let (early, known) = in_use_of eki h in (eki, refl, early, known)

  -- Where no update of the key is asked for, the prover has a key in memory. Half of the key
  -- expiration after its attestation has not passed, and the LCP service knows the key.
  pub load_eki_and_check_update_needed-usable :
      (st st' : KeyState F MsgId)
      → load_eki_and_check_update_needed sv key_expiration now st ≡ (st', ok false)
      → (eki : EnclaveKeyInfo) × (st'.active_enclave_key ≡ some eki)
        × (before (update_time_of key_expiration eki) now ≡ false)
        × (sv.enclave_key eki.enclave_key_address ≡ ok tt)
  unfolding IsUsable
  load_eki_and_check_update_needed-usable st st' h =
      usable-inv st'.active_enclave_key (subst IsUsable h (load-IsUsable st))
