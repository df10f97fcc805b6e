-- ===== src/Update/Misbehaviour.antt =====
-- Evidence of misbehaviour: when it is accepted.
use lcp_go.Common.{◌≡◌, ◌↔◌, refl, List, [], ◌∷◌, All, bytes_eq_sound, bytes_eq_refl, not-eq-false}
use lcp_go.Result.{ok, >>=-eq-ok, reject_if-eq-ok, map_err-eq-ok}
use lcp_go.Types.{ConsensusState, Context}
use lcp_go.Packages.{Packages}
use lcp_go.Message.{PrevState, MisbehaviourProxyMessage}
use lcp_go.Message.ValidationContext.{validate}
use lcp_go.Store.{get_consensus_state}
use lcp_go.Update.{check_prev_states, verify_misbehaviour}

module _ {S : Type 0} (p : Packages S) where
  -- the store holds a consensus state at the height, with this state id
  pub record IsStored (s : S) (state : PrevState) : Type 0 where
    pub cons : ConsensusState
    pub found : get_consensus_state p s state.height ≡ ok cons
    pub same_id : cons.state_id ≡ state.state_id

  check_prev_states_sound :
      (s : S) (states : List PrevState)
      → check_prev_states p s states ≡ ok tt
      → All (IsStored s) states
  unfolding check_prev_states
  check_prev_states_sound s [] h = tt
  check_prev_states_sound s (state ∷ rest) h =
      let (cons, found, h1) = >>=-eq-ok (get_consensus_state p s state.height) _ h in
      let (same, h2) = reject_if-eq-ok _ _ _ h1 in
      (
        record { cons = cons; found = found; same_id = bytes_eq_sound _ _ (not-eq-false _ same) },
        check_prev_states_sound s rest h2,
      )

  check_prev_states_complete :
      (s : S) (states : List PrevState)
      → All (IsStored s) states
      → check_prev_states p s states ≡ ok tt
  unfolding check_prev_states
  check_prev_states_complete s [] h = refl
  check_prev_states_complete s (state ∷ rest) h =
      rw (h.0.found) (rw (h.0.same_id) (rw bytes_eq_refl (check_prev_states_complete s rest h.1)))

  -- Evidence is accepted exactly when the store holds every previous state that it names, with the
  -- same state id, and its validation context holds at the block's time.
  pub verify_misbehaviour_iff :
      (ctx : Context) (s : S) (m : MisbehaviourProxyMessage)
      → (verify_misbehaviour p ctx s m ≡ ok tt)
        ↔ (All (IsStored s) m.prev_states × (validate m.context ctx.block_time ≡ ok tt))
  unfolding verify_misbehaviour
  verify_misbehaviour_iff ctx s m = (
    λ h.
        let (_, states, h1) = >>=-eq-ok (check_prev_states p s m.prev_states) _ h in
        (check_prev_states_sound s m.prev_states states, map_err-eq-ok _ _ h1),
    λ w. rw (check_prev_states_complete s m.prev_states w.0) (rw (w.1) refl),
  )
