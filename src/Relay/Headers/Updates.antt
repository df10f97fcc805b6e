-- ===== src/Relay/Headers/Updates.antt =====
-- What the updates for the counterparty hold.
use lcp_go.Common.{
  ℕ, suc, arith, ◌≡◌, ◌⊎◌, inl, inr, refl, sym, ap, ◌∙◌, subst, Bytes, Bool, true, false, Option,
  some, none, List, [], ◌∷◌, map, length, ◌==◌, Bool-cases, if◌then◌else◌,
}
use lcp_go.Result.{Result, ok, >>=-eq-ok, map_err-eq-ok, ok-injective}
use lcp_go.Types.{UpdateClientMessage}
use lcp_go.Relay.Config.{get_message_aggregation_batch_size}
use lcp_go.Relay.ActiveKey.{EnclaveKeyInfo, KeyState}
use lcp_go.Relay.ActiveKey.Finalized.{FileLaws}
use lcp_go.Relay.Aggregation.{aggregate_messages}
use lcp_go.Relay.Aggregation.Termination.{aggregate_messages_total}
use lcp_go.Relay.Prover.{Prover, ProverState, Header, Response, counterparty}
use lcp_go.Relay.Action.{pure, >>=-inv, reads-inv, pure-inv}
use lcp_go.Relay.KeyUpdate.{update_eki_if_needed}
use lcp_go.Relay.KeyUpdate.Keeping.{UnfinalizedLaws}
use lcp_go.Relay.KeyUpdate.Renewal.{update_eki_if_needed-IsUpdated}
use lcp_go.Relay.Elc.Service.{active_key_address}
use lcp_go.Relay.Headers.{sign_headers, updates_for, setup_headers_for_update}
use lcp_go.Relay.Headers.Messages.{updates_of, returned, single_updates, aggregate}
use lcp_go.Relay.Headers.Responses.{
  messages_of, signatures_of, AreResponses, no_header, active_key_address-eq,
  sign_headers-AreSigned,
}

filled : (n : ℕ) → (suc n == 0) ≡ false
filled n = ground arith

returned-inv :
    (o : Option (Result UpdateClientMessage)) (u : UpdateClientMessage)
    → returned o ≡ ok u
    → o ≡ some (ok u)
unfolding returned
returned-inv none u h = cc
returned-inv (some r) u h = ap some h

-- the update that carries one response
abbrev pub update_of : Response → UpdateClientMessage
update_of r = record { proxy_message = r.message; signatures = r.signature ∷ [] }

single_updates-map :
    (rs : List Response) (updates : List UpdateClientMessage)
    → single_updates (messages_of rs) (signatures_of rs) ≡ ok updates
    → updates ≡ map update_of rs
unfolding single_updates
single_updates-map [] updates h = sym (ok-injective [] updates h)
single_updates-map (r ∷ rs) updates h =
    let (us, rest, h1) = >>=-eq-ok (single_updates (messages_of rs) (signatures_of rs)) _ h in
    sym (ok-injective _ updates h1) ∙ ap (λ l. update_of r ∷ l) (single_updates-map rs us rest)

module _ {S E F MsgId : Type 0} (pr : Prover S E F MsgId) where
  -- the one update that the aggregation returns
  abbrev pub IsAggregated : Bytes → List Response → List UpdateClientMessage → Type 0
  IsAggregated signer rs updates =
      (u : UpdateClientMessage) × (updates ≡ u ∷ [])
      × (length u.signatures ≡ 1)
      × (aggregate_messages pr.aggregator (length (messages_of rs)) signer
            (get_message_aggregation_batch_size pr.config) (messages_of rs) (signatures_of rs)
          ≡ some (ok u))

  -- No update where there are no headers; else the one update of the aggregation of all messages and
  -- signatures, or an update for each response with its message and its signature.
  abbrev pub AreUpdates : Bytes → List Header → List Response → List UpdateClientMessage → Type 0
  AreUpdates signer headers rs updates =
      ((headers ≡ []) × (updates ≡ []))
      ⊎ ((pr.config.message_aggregation ≡ true) × IsAggregated signer rs updates)
      ⊎ ((pr.config.message_aggregation ≡ false) × (updates ≡ map update_of rs))

  aggregate-IsAggregated :
      (signer : Bytes) (rs : List Response) (updates : List UpdateClientMessage)
      → aggregate pr signer (messages_of rs) (signatures_of rs) ≡ ok updates
      → IsAggregated signer rs updates
  unfolding aggregate
  aggregate-IsAggregated signer rs updates h =
      let (u, made, h1) = >>=-eq-ok (returned _) _ h in
      let done = returned-inv _ u made in
      let (r, total, one) =
        aggregate_messages_total pr.aggregator signer (get_message_aggregation_batch_size pr.config)
          (messages_of rs) (signatures_of rs) in
      (u, sym (ok-injective (u ∷ []) updates h1), one u (cc (sym total ∙ done)), done)

  updates_of-AreUpdates :
      (signer : Bytes) (headers : List Header) (rs : List Response)
      (updates : List UpdateClientMessage)
      → updates_of pr signer (messages_of rs) (signatures_of rs) ≡ ok updates
      → AreUpdates signer headers rs updates
  unfolding updates_of
  updates_of-AreUpdates signer headers rs updates h =
      elim (Bool-cases pr.config.message_aggregation) [
        | inl e ↦ inr (inl (e, aggregate-IsAggregated signer rs updates (branch e)))
        | inr e ↦ inr (inr (e, single_updates-map rs updates (branch e)))
      ]
    where
      branch :
          {b : Bool}
          → pr.config.message_aggregation ≡ b
          → (if b
              then aggregate pr signer (messages_of rs) (signatures_of rs)
              else single_updates (messages_of rs) (signatures_of rs))
            ≡ ok updates
      branch e =
          subst
            (λ t.
              (if t
                then aggregate pr signer (messages_of rs) (signatures_of rs)
                else single_updates (messages_of rs) (signatures_of rs))
              ≡ ok updates)
            e h

  -- what `SetupHeadersForUpdate` makes of the headers
  abbrev pub ArePrepared : EnclaveKeyInfo → List Header → E → E → List UpdateClientMessage → Type 0
  ArePrepared eki headers env env' updates =
      (rs : List Response) × AreResponses pr eki.enclave_key_address headers env env' rs
      × AreUpdates eki.enclave_key_address headers rs updates

  updates_for-ArePrepared :
      (eki : EnclaveKeyInfo) (headers : List Header) (st st' : ProverState E F MsgId)
      (updates : List UpdateClientMessage)
      → st.keys.active_enclave_key ≡ some eki
      → updates_for pr headers st ≡ (st', ok updates)
      → ArePrepared eki headers st.env st'.env updates × (st'.keys ≡ st.keys)
  unfolding updates_for
  updates_for-ArePrepared eki headers st st' updates active h =
      let (st1, signed, signs, h1) = >>=-inv (sign_headers pr headers) _ st h in
      let (signer, by_key, h2) = reads-inv (active_key_address pr) _ st1 h1 in
      let (same, made) = pure-inv (updates_of pr signer signed.0 signed.1) st1 h2 in
      let v = sign_headers-AreSigned pr eki headers st st1 signed active signs in
      let active1 = ap (λ (k : KeyState F MsgId). k.active_enclave_key) (v.same_keys) ∙ active in
      let made_of : updates_of pr signer (messages_of v.responses) (signatures_of v.responses)
          ≡ ok updates =
        subst (λ (l : List Bytes × List Bytes). updates_of pr signer l.0 l.1 ≡ ok updates)
          (sym (v.listed)) made in
      (
        (
          v.responses,
          subst
              (λ (s : ProverState E F MsgId).
                AreResponses pr eki.enclave_key_address headers st.env s.env v.responses)
              same (v.answered),
          subst (λ a. AreUpdates a headers v.responses updates)
              (active_key_address-eq pr st1 eki signer active1 by_key)
              (updates_of-AreUpdates signer headers v.responses updates made_of),
        ),
        ap (λ (s : ProverState E F MsgId). s.keys) (sym same) ∙ v.same_keys,
      )

  updates_if-ArePrepared :
      (eki : EnclaveKeyInfo) (headers : List Header) (st st' : ProverState E F MsgId)
      (updates : List UpdateClientMessage)
      → st.keys.active_enclave_key ≡ some eki
      → (if length headers == 0 then pure (ok []) else updates_for pr headers) st
        ≡ (st', ok updates)
      → ArePrepared eki headers st.env st'.env updates × (st'.keys ≡ st.keys)
  updates_if-ArePrepared eki [] st st' updates active h =
      let (same, e) = pure-inv (ok []) st h in
      (
        (
          [],
          subst
              (λ (s : ProverState E F MsgId).
                AreResponses pr eki.enclave_key_address [] st.env s.env [])
              same no_header,
          inl (refl, sym (ok-injective [] updates e)),
        ),
        ap (λ (s : ProverState E F MsgId). s.keys) (sym same),
      )
  updates_if-ArePrepared eki (header ∷ headers) st st' updates active h =
      updates_for-ArePrepared eki (header ∷ headers) st st' updates active (
        subst
          (λ b.
            (if b then pure (ok []) else updates_for pr (header ∷ headers)) st ≡ (st', ok updates))
          (filled (length headers)) h)

  module _ (fl : (env : E) → FileLaws (pr.services env))
      (ul : (env : E) → UnfinalizedLaws (pr.services env)) where
    -- After the update of the key, which leaves a key in use, the headers are those that the origin
    -- prover sets up. Each was sent to the service in turn, to be signed with that key, and each
    -- response's message can be decoded. Without headers there are no updates. Else, where messages
    -- are aggregated, there is one update: what the aggregation of all messages and signatures under
    -- that key returns, with one signature; and where they are not, there is an update for each
    -- response, in order, with its message and its signature. The key in use stays.
    pub setup_headers_for_update-AreUpdates :
        (latest : Header) (st st' : ProverState E F MsgId) (updates : List UpdateClientMessage)
        → setup_headers_for_update pr latest st ≡ (st', ok updates)
        → (st1 : ProverState E F MsgId) × (eki : EnclaveKeyInfo) × (headers : List Header)
          × (update_eki_if_needed pr st ≡ (st1, ok tt))
          × (st1.keys.active_enclave_key ≡ some eki)
          × (st'.keys.active_enclave_key ≡ some eki)
          × (pr.setup_headers counterparty st1.env latest ≡ ok headers)
          × ArePrepared eki headers st1.env st'.env updates
    unfolding setup_headers_for_update
    setup_headers_for_update-AreUpdates latest st st' updates h =
        let (st1, _, updated, h1) = >>=-inv (update_eki_if_needed pr) _ st h in
        let (headers, set_up, h2) = reads-inv _ _ st1 h1 in
        let (eki, active, _, _) = update_eki_if_needed-IsUpdated pr fl ul st st1 updated in
        let (prepared, keys) = updates_if-ArePrepared eki headers st1 st' updates active h2 in
        (
          st1,
          eki,
          headers,
          updated,
          active,
          ap (λ (k : KeyState F MsgId). k.active_enclave_key) keys ∙ active,
          map_err-eq-ok _ _ set_up,
          prepared,
        )
