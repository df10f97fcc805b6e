-- ===== src/Relay/Elc/RestoreHeight.antt =====
-- For which heights `restoreELC` succeeds.
use lcp_go.Common.{
  ℕ, ◌≡◌, ◌⊎◌, inl, inr, ◌∙◌, sym, ap, Bytes, Option, none, some, ◌==◌, ==_iff, Bool-cases,
}
use lcp_go.Result.{ok, map_err, >>=-eq-ok, map_err-eq-ok, ok-injective}
use lcp_go.Types.{Height, ClientState, ConsensusState}
use lcp_go.Packages.{AnyValue}
use lcp_go.Packages.Documented.{IbcLaws}
use lcp_go.Relay.Prover.{Prover, ProverState, ExportedClientState, ExportedConsensusState}
use lcp_go.Relay.Elc.RestoreChecks.{
  cast, counterparty_client_state, restore_height, counterparty_consensus_state, state_to_restore,
  origin_state,
}
use lcp_go.Relay.Elc.Restoring.{restore_elc}
use lcp_go.Relay.Elc.Restored.{RestoreLaws, Restored, restore_elc-Restored}

cast-inv : {A : Type 0} (o : Option A) (a : A) → cast o ≡ ok a → o ≡ some a
cast-inv none a h = cc
cast-inv (some b) a h = ap some (ok-injective b a h)

module _ {S E F MsgId : Type 0} (pr : Prover S E F MsgId) (laws : RestoreLaws pr)
    (il : IbcLaws pr.packages.ibc) where
  origin_state-inv :
      (cs : ClientState) (env : E) (states : AnyValue × AnyValue)
      → origin_state pr cs env ≡ ok states
      → (x : ExportedClientState) × (y : ExportedConsensusState) × (pr.create_initial_state env
            (some cs.latest_height)
          ≡ ok (x, y))
        × (x.latest_height ≡ cs.latest_height)
        × (x.packed ≡ ok states.0)
  unfolding origin_state
  origin_state-inv cs env states h =
      let ((x, y), created, h1) =
        >>=-eq-ok (map_err _ (pr.create_initial_state env (some cs.latest_height))) _ h in
      let (a, packed, h2) = >>=-eq-ok (x.packed) _ h1 in
      let (b, _, h3) = >>=-eq-ok (y.packed) _ h2 in
      (
        x,
        y,
        map_err-eq-ok _ _ created,
        laws.initial_height env _ x y (map_err-eq-ok _ _ created),
        packed ∙ ap (λ (s : AnyValue × AnyValue). ok (s.0)) (ok-injective (a, b) states h3),
      )

  state_to_restore-height :
      (height : ℕ) (env : E) (cs : ClientState) (cons : ConsensusState) (at_height : Height)
      → state_to_restore pr height env ≡ ok (cs, cons, at_height)
      → at_height ≡ restore_height cs.latest_height height
  unfolding state_to_restore counterparty_client_state
  state_to_restore-height height env cs cons at_height h =
      let (latest, _, h1) = >>=-eq-ok (pr.latest_height env) _ h in
      let (x, read, h2) = >>=-eq-ok (counterparty_client_state pr env latest) _ h1 in
      let (any_state, _, read1) = >>=-eq-ok (map_err _ (pr.query_client_state env latest)) _ read in
      let (y, _, h3) =
        >>=-eq-ok
          (counterparty_consensus_state pr env latest (restore_height x.latest_height height)) _
          h2 in
      let (c, casted, h4) = >>=-eq-ok (cast x.as_lcp) _ h3 in
      let (d, _, h5) = >>=-eq-ok (cast y.as_lcp) _ h4 in
      let e = ok-injective (c, d, restore_height x.latest_height height) (cs, cons, at_height) h5 in
      sym (ap (λ (r : ClientState × ConsensusState × Height). r.2) e)
      ∙ ap (λ l. restore_height l height)
          (laws.as_lcp_height any_state x c (map_err-eq-ok _ _ read1) (cast-inv x.as_lcp c casted)
            ∙ ap (λ (r : ClientState × ConsensusState × Height). r.0.latest_height) e)

  height_of_restore :
      (latest : Height) (height : ℕ)
      → latest ≡ restore_height latest height
      → (height ≡ 0) ⊎ (height ≡ latest.revision_height)
  unfolding restore_height
  height_of_restore latest height h = elim (Bool-cases (height == 0)) [
    | inl e ↦ inl ((==_iff _ _).0 e)
    | inr e ↦ inr (sym (ap (λ (x : Height). x.revision_height) (rw e at h)))
  ]

  -- A restoration succeeds only for the latest height of the counterparty's client: if no error is
  -- returned, the height that was asked for is 0, which stands for the latest one, or the latest one.
  pub restore_elc-height :
      (client_id : Bytes) (height : ℕ) (st st' : ProverState E F MsgId)
      → restore_elc pr client_id height st ≡ (st', ok tt)
      → (r : Restored pr client_id height st.env st'.env) × ((height ≡ 0)
          ⊎ (height ≡ r.client_state.latest_height.revision_height))
  restore_elc-height client_id height st st' h =
      let r = restore_elc-Restored pr laws il client_id height st st' h in
      let (x, y, initial, same, packed) =
        origin_state-inv r.client_state st.env r.states r.of_origin in
      let created =
        laws.created_height st.env st'.env _ r.response _ x y r.m initial r.sent packed r.decoded in
      (
        r,
        height_of_restore r.client_state.latest_height height (
            sym same
            ∙ sym created
            ∙ r.same_height
            ∙ state_to_restore-height height st.env r.client_state r.consensus_state r.at_height
                r.read),
      )
