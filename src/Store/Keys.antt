-- ===== src/Store/Keys.antt =====
-- The keys of the client's store do not collide, so what one operation writes leaves the other
-- entries as they were. The keys are those of ICS 24 and of store.go.
use lcp_go.Common.{
  ◌≡◌, ◌≢◌, ◌∙◌, refl, ap, Bytes, false, some, codes, bytes_eq, bytes_eq_refl, bytes_eq-ne,
  bytes_eq-separator_right,
}
use lcp_go.Result.{ok}
use lcp_go.Types.{Height, ClientState, ConsensusState}
use lcp_go.Packages.{Packages}
use lcp_go.Packages.Documented.{KvStoreLaws, IbcLaws}
use lcp_go.Store.{
  set_client_state, set_consensus_state, get_consensus_state, processed_time_key,
  processed_height_key, get_processed_time, get_processed_height, decode_processed_time,
  decode_processed_height, decode_consensus_state,
}

module _ {S : Type 0} (p : Packages S) (kl : KvStoreLaws p.kv) where
  pub get-set_other :
      (s : S) (k v j : Bytes) → bytes_eq k j ≡ false → p.kv.get (p.kv.set s k v) j ≡ p.kv.get s j
  get-set_other s k v j h = rw (kl.get-set s k v j) (rw h)

  pub get-set_self : (s : S) (k v : Bytes) → p.kv.get (p.kv.set s k v) k ≡ some v
  get-set_self s k v = rw (kl.get-set s k v k) (rw bytes_eq_refl)

module _ {S : Type 0} (p : Packages S) (il : IbcLaws p.ibc) where
  client-ne-consensus :
      (h : Height) → bytes_eq p.ibc.client_state_key (p.ibc.consensus_state_key h) ≡ false
  unfolding bytes_eq
  client-ne-consensus h = rw (il.client_state_key_lem, il.consensus_state_key_lem h) refl

  consensus-ne-client :
      (h : Height) → bytes_eq (p.ibc.consensus_state_key h) p.ibc.client_state_key ≡ false
  unfolding bytes_eq
  consensus-ne-client h = rw (il.client_state_key_lem, il.consensus_state_key_lem h) refl

  consensus_eq-height_string :
      (g h : Height)
      → bytes_eq (p.ibc.consensus_state_key g) (p.ibc.consensus_state_key h)
        ≡ bytes_eq (p.ibc.height_string g) (p.ibc.height_string h)
  unfolding bytes_eq
  consensus_eq-height_string g h =
      rw (il.consensus_state_key_lem g, il.consensus_state_key_lem h) refl

  consensus-ne :
      (g h : Height)
      → g ≢ h
      → bytes_eq (p.ibc.consensus_state_key g) (p.ibc.consensus_state_key h) ≡ false
  consensus-ne g h n =
      consensus_eq-height_string g h ∙ bytes_eq-ne _ _ (λ e. n (il.height_string_injective g h e))

  client-ne-processed_time :
      (h : Height) → bytes_eq p.ibc.client_state_key (processed_time_key p h) ≡ false
  unfolding bytes_eq processed_time_key
  client-ne-processed_time h = rw (il.client_state_key_lem, il.consensus_state_key_lem h) refl

  client-ne-processed_height :
      (h : Height) → bytes_eq p.ibc.client_state_key (processed_height_key p h) ≡ false
  unfolding bytes_eq processed_height_key
  client-ne-processed_height h = rw (il.client_state_key_lem, il.consensus_state_key_lem h) refl

  consensus-ne-processed_time :
      (g h : Height) → bytes_eq (p.ibc.consensus_state_key g) (processed_time_key p h) ≡ false
  unfolding bytes_eq processed_time_key
  consensus-ne-processed_time g h =
      rw (il.consensus_state_key_lem g, il.consensus_state_key_lem h)
        (bytes_eq-separator_right 47 (p.ibc.height_string h) (codes "processedTime")
          (p.ibc.height_string g) (il.height_string_no_slash g))

  consensus-ne-processed_height :
      (g h : Height) → bytes_eq (p.ibc.consensus_state_key g) (processed_height_key p h) ≡ false
  unfolding bytes_eq processed_height_key
  consensus-ne-processed_height g h =
      rw (il.consensus_state_key_lem g, il.consensus_state_key_lem h)
        (bytes_eq-separator_right 47 (p.ibc.height_string h) (codes "processedHeight")
          (p.ibc.height_string g) (il.height_string_no_slash g))

-- What a read gives after a write.
module _ {S : Type 0} (p : Packages S) (kl : KvStoreLaws p.kv) (il : IbcLaws p.ibc) where
  pub get_consensus-set_consensus_self :
      (s : S) (c : ConsensusState) (h : Height)
      → get_consensus_state p (set_consensus_state p s c h) h ≡ ok c
  unfolding get_consensus_state set_consensus_state
  get_consensus-set_consensus_self s c h =
      rw (get-set_self p kl s (p.ibc.consensus_state_key h) (p.ibc.marshal_consensus_state c))
        (rw (il.unmarshal-marshal_consensus_state c) refl)

  pub get_consensus-set_consensus_ne :
      (s : S) (c : ConsensusState) (g h : Height)
      → g ≢ h
      → get_consensus_state p (set_consensus_state p s c g) h ≡ get_consensus_state p s h
  unfolding get_consensus_state set_consensus_state
  get_consensus-set_consensus_ne s c g h n =
      ap (decode_consensus_state p) (get-set_other p kl s _ _ _ (consensus-ne p il g h n))

  pub get_consensus-set_client :
      (s : S) (cs : ClientState) (h : Height)
      → get_consensus_state p (set_client_state p s cs) h ≡ get_consensus_state p s h
  unfolding get_consensus_state set_client_state
  get_consensus-set_client s cs h =
      ap (decode_consensus_state p) (get-set_other p kl s _ _ _ (client-ne-consensus p il h))

  pub client-set_client :
      (s : S) (cs : ClientState)
      → p.kv.get (set_client_state p s cs) p.ibc.client_state_key
        ≡ some (p.ibc.marshal_client_state cs)
  unfolding set_client_state
  client-set_client s cs = get-set_self p kl s _ _

  pub client-set_consensus :
      (s : S) (c : ConsensusState) (h : Height)
      → p.kv.get (set_consensus_state p s c h) p.ibc.client_state_key
        ≡ p.kv.get s p.ibc.client_state_key
  unfolding set_consensus_state
  client-set_consensus s c h = get-set_other p kl s _ _ _ (consensus-ne-client p il h)

  pub get_processed_time-set_client :
      (s : S) (cs : ClientState) (h : Height)
      → get_processed_time p (set_client_state p s cs) h ≡ get_processed_time p s h
  unfolding get_processed_time set_client_state
  get_processed_time-set_client s cs h =
      ap (decode_processed_time p) (get-set_other p kl s _ _ _ (client-ne-processed_time p il h))

  pub get_processed_time-set_consensus :
      (s : S) (c : ConsensusState) (g h : Height)
      → get_processed_time p (set_consensus_state p s c g) h ≡ get_processed_time p s h
  unfolding get_processed_time set_consensus_state
  get_processed_time-set_consensus s c g h =
      ap (decode_processed_time p)
        (get-set_other p kl s _ _ _ (consensus-ne-processed_time p il g h))

  pub get_processed_height-set_client :
      (s : S) (cs : ClientState) (h : Height)
      → get_processed_height p (set_client_state p s cs) h ≡ get_processed_height p s h
  unfolding get_processed_height set_client_state
  get_processed_height-set_client s cs h =
      ap (decode_processed_height p)
        (get-set_other p kl s _ _ _ (client-ne-processed_height p il h))

  pub get_processed_height-set_consensus :
      (s : S) (c : ConsensusState) (g h : Height)
      → get_processed_height p (set_consensus_state p s c g) h ≡ get_processed_height p s h
  unfolding get_processed_height set_consensus_state
  get_processed_height-set_consensus s c g h =
      ap (decode_processed_height p)
        (get-set_other p kl s _ _ _ (consensus-ne-processed_height p il g h))
