-- ===== src/Message/Version.antt =====
-- Which messages a client message may carry.
use lcp_go.Common.{◌≡◌, inl, inr, subst, ◌==◌, ==_iff, not-eq-false, Bool-cases, arith}
use lcp_go.Result.{ok, ◌>>=◌, >>=-eq-ok, reject_if-eq-ok, ok-injective}
use lcp_go.Types.{UpdateClientMessage}
use lcp_go.Packages.{Abi}
use lcp_go.Message.{
  lcp_message_version, lcp_message_type_update_state, lcp_message_type_misbehaviour,
  UpdateStateProxyMessage, MisbehaviourProxyMessage, HeaderedProxyMessage, ProxyMessage,
  update_state, misbehaviour,
}
use lcp_go.Message.Decode.{
  eth_abi_decode_headered_proxy_message, eth_abi_decode_update_state_proxy_message,
  eth_abi_decode_misbehaviour_proxy_message, get_update_state_proxy_message,
  get_misbehaviour_proxy_message, get_proxy_message,
}

module _ (abi : Abi) where
  -- the message is of the type that its header says, and was decoded as such
  pub data Carries (m : HeaderedProxyMessage) : ProxyMessage → Type 0 where
    an_update :
        (u : UpdateStateProxyMessage)
        → m.type ≡ lcp_message_type_update_state
        → eth_abi_decode_update_state_proxy_message abi m.message ≡ ok u
        → Carries m (update_state u)
    a_misbehaviour :
        (u : MisbehaviourProxyMessage)
        → m.type ≡ lcp_message_type_misbehaviour
        → eth_abi_decode_misbehaviour_proxy_message abi m.message ≡ ok u
        → Carries m (misbehaviour u)

  get_update-decoded :
      (m : HeaderedProxyMessage) (u : UpdateStateProxyMessage)
      → get_update_state_proxy_message abi m ≡ ok u
      → eth_abi_decode_update_state_proxy_message abi m.message ≡ ok u
  unfolding get_update_state_proxy_message
  get_update-decoded m u h = ground arith

  carried_update :
      (m : HeaderedProxyMessage) (pm : ProxyMessage)
      → m.type ≡ lcp_message_type_update_state
      → (do u ← get_update_state_proxy_message abi m; ok (update_state u)) ≡ ok pm
      → Carries m pm
  carried_update m pm t h =
      let (u, d, e) = >>=-eq-ok (get_update_state_proxy_message abi m) _ h in
      subst (Carries m) (ok-injective (update_state u) pm e)
        (an_update u t (get_update-decoded m u d))

  get_misbehaviour-decoded :
      (m : HeaderedProxyMessage) (u : MisbehaviourProxyMessage)
      → get_misbehaviour_proxy_message abi m ≡ ok u
      → eth_abi_decode_misbehaviour_proxy_message abi m.message ≡ ok u
  unfolding get_misbehaviour_proxy_message
  get_misbehaviour-decoded m u h = ground arith

  carried_misbehaviour :
      (m : HeaderedProxyMessage) (pm : ProxyMessage)
      → m.type ≡ lcp_message_type_misbehaviour
      → (do u ← get_misbehaviour_proxy_message abi m; ok (misbehaviour u)) ≡ ok pm
      → Carries m pm
  carried_misbehaviour m pm t h =
      let (u, d, e) = >>=-eq-ok (get_misbehaviour_proxy_message abi m) _ h in
      subst (Carries m) (ok-injective (misbehaviour u) pm e)
        (a_misbehaviour u t (get_misbehaviour-decoded m u d))

  -- A client message that yields a proxy message has a header of version 1, and is of the type 1 with
  -- an update of the state, or of the type 3 with evidence of misbehaviour, decoded from its body.
  pub get_proxy_message_sound :
      (ucm : UpdateClientMessage) (pm : ProxyMessage)
      → get_proxy_message abi ucm ≡ ok pm
      → (m : HeaderedProxyMessage) × (eth_abi_decode_headered_proxy_message abi ucm.proxy_message
          ≡ ok m)
        × (m.version ≡ lcp_message_version)
        × Carries m pm
  unfolding get_proxy_message
  get_proxy_message_sound ucm pm h =
      let (m, opened, h1) =
        >>=-eq-ok (eth_abi_decode_headered_proxy_message abi ucm.proxy_message) _ h in
      let (version, h2) = reject_if-eq-ok _ _ _ h1 in
      (
        m,
        opened,
        (==_iff _ _).0 (not-eq-false _ version),
        elim (Bool-cases (m.type == lcp_message_type_update_state)) [
          | inl e ↦ carried_update m pm ((==_iff _ _).0 e) (rw e at h2)
          | inr n ↦ elim (Bool-cases (m.type == lcp_message_type_misbehaviour)) [
            | inl e ↦ carried_misbehaviour m pm ((==_iff _ _).0 e) (rw (n, e) at h2)
            | inr e ↦ absurd (cc (rw (n, e) at h2))
          ]
        ],
      )
