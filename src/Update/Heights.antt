-- ===== src/Update/Heights.antt =====
-- What an accepted header changes: the consensus state at its height, and the latest height.
use lcp_go.Common.{
  ◌%◌, ◌≤◌, ◌<◌, ◌≡◌, ◌≢◌, ◌⊎◌, inl, inr, ◌∙◌, refl, true, false, some, Bool-cases, arith,
}
use lcp_go.Common.Int.{two_64}
use lcp_go.Result.{ok}
use lcp_go.Types.{Height, Address, ClientState}
use lcp_go.Packages.{Packages}
use lcp_go.Packages.Documented.{KvStoreLaws, IbcLaws}
use lcp_go.Message.{UpdateStateProxyMessage}
use lcp_go.Store.{set_client_state, get_consensus_state}
use lcp_go.Store.Keys.{
  get_consensus-set_consensus_self, get_consensus-set_consensus_ne, get_consensus-set_client,
  client-set_client, client-set_consensus,
}
use lcp_go.EnclaveKey.{get_ek_info}
use lcp_go.EnclaveKey.Info.{get_ek_info-set_client, get_ek_info-set_consensus}
use lcp_go.Update.{with_height, new_consensus_state, update_client_state}

-- the order of heights: by revision number, then by height
abbrev pub ◌≤ʰ◌ : Height → Height → Type 0
◌≤ʰ◌ a b =
    (a.revision_number < b.revision_number)
    ⊎ ((a.revision_number ≡ b.revision_number) × (a.revision_height ≤ b.revision_height))

-- what stands in a store after a header was applied
pub record Updated {S : Type 0} (p : Packages S) (cs : ClientState) (s s' : S)
    (msg : UpdateStateProxyMessage) : Type 0 where
  pub at_post :
      get_consensus_state p s' msg.post_height
      ≡ ok (record { state_id = msg.post_state_id; timestamp = msg.timestamp % two_64 })
  pub elsewhere :
      (h : Height) → msg.post_height ≢ h → get_consensus_state p s' h ≡ get_consensus_state p s h
  pub stored :
      p.kv.get s' p.ibc.client_state_key
      ≡ some (p.ibc.marshal_client_state (with_height p cs msg.post_height))
  pub enclave_keys : (a : Address) → get_ek_info p s' a ≡ get_ek_info p s a

module _ {S : Type 0} (p : Packages S) (kl : KvStoreLaws p.kv) (il : IbcLaws p.ibc) where
  -- Applying a header stores the state id and the low 64 bits of the timestamp at the post height,
  -- keeps every other consensus state and every enclave key, and stores the client state with its new
  -- latest height.
  pub update_client_state-Updated :
      (cs : ClientState) (s : S) (msg : UpdateStateProxyMessage)
      → Updated p cs s (update_client_state p cs s msg) msg
  unfolding update_client_state new_consensus_state
  update_client_state-Updated cs s msg =
      let cs' = with_height p cs msg.post_height in
      let c = new_consensus_state msg in
      let s1 = set_client_state p s cs' in
      record {
        at_post = get_consensus-set_consensus_self p kl il s1 c msg.post_height;
        elsewhere = λ h n.
            get_consensus-set_consensus_ne p kl il s1 c msg.post_height h n
            ∙ get_consensus-set_client p kl il s cs' h;
        stored =
            client-set_consensus p kl il s1 c msg.post_height ∙ client-set_client p kl il s cs';
        enclave_keys = λ a.
            get_ek_info-set_consensus p kl il s1 c msg.post_height a
            ∙ get_ek_info-set_client p kl il s cs' a;
      }

  height_lt-true : (a b : Height) → p.ibc.height_lt a b ≡ true → ◌≤ʰ◌ a b
  height_lt-true a b h = ground (arith, il.height_lt_lem a b)

  height_lt-false : (a b : Height) → p.ibc.height_lt a b ≡ false → ◌≤ʰ◌ b a
  height_lt-false a b h = ground (arith, il.height_lt_lem a b)

  -- The latest height after a header is the higher of the two, so it never falls below the one
  -- before, nor below the header's; nothing else of the client state changes.
  pub with_height_max :
      (cs : ClientState) (h : Height)
      → let cs' = with_height p cs h in
        (◌≤ʰ◌ cs.latest_height cs'.latest_height)
        × (◌≤ʰ◌ h cs'.latest_height)
        × ((cs'.latest_height ≡ cs.latest_height) ⊎ (cs'.latest_height ≡ h))
        × (cs' ≡ record cs { latest_height = cs'.latest_height })
  unfolding with_height
  with_height_max cs h = elim (Bool-cases (p.ibc.height_lt cs.latest_height h)) [
    | inl e ↦ rw e (height_lt-true _ _ e, inr (refl, omega arith), inr refl, refl)
    | inr e ↦ rw e (inr (refl, omega arith), height_lt-false _ _ e, inl refl, refl)
  ]
