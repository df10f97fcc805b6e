-- ===== src/Update/Reachable.antt =====
-- The client as a state machine: from its creation, by accepted messages and by freezing.
use lcp_go.Common.{◌≡◌, inl, inr, ◌∙◌, refl, ap, true, false, some, List, length}
use lcp_go.Result.{ok, or_panic, >>=-eq-ok}
use lcp_go.Types.{
  Height, Address, ClientState, Context, RegisterEnclaveKeyMessage, ClientMessage, update_client,
  register_enclave_key, update_operators, foreign_message,
}
use lcp_go.Packages.{Packages}
use lcp_go.Packages.Documented.{KvStoreLaws, IbcLaws, EthereumLaws}
use lcp_go.Message.{ProxyMessage, update_state, misbehaviour, UpdateStateProxyMessage}
use lcp_go.Message.Decode.{get_proxy_message}
use lcp_go.Store.{get_processed_time, get_processed_height, set_client_state}
use lcp_go.Store.Keys.{
  get_processed_time-set_client, get_processed_time-set_consensus, get_processed_height-set_client,
  get_processed_height-set_consensus,
}
use lcp_go.EnclaveKey.{EkInfo, Event, get_ek_info}
use lcp_go.EnclaveKey.Info.{
  get_ek_info-set_client, get_ek_info-set_consensus, get_processed_time-set_ek,
  get_processed_height-set_ek,
}
use lcp_go.EnclaveKey.Effect.{register_enclave_key-inv, Registered, register-keeps}
use lcp_go.EnclaveKey.Registration.{Reading}
use lcp_go.Operators.{update_operators_state, with_operators, get_new_operators}
use lcp_go.Update.{
  verify_client_message, check_for_misbehaviour, update_state_of, update_client_state,
  apply_proxy_message, update_state_on_misbehaviour, with_height, new_consensus_state,
}

-- what every update of the store leaves alone or only adds to
pub record Keeps {S : Type 0} (p : Packages S) (s s' : S) : Type 0 where
  pub times : (h : Height) → get_processed_time p s' h ≡ get_processed_time p s h
  pub heights : (h : Height) → get_processed_height p s' h ≡ get_processed_height p s h
  pub keys :
      (a : Address) (i : EkInfo)
      → length a ≡ 20
      → get_ek_info p s a ≡ ok (some i)
      → get_ek_info p s' a ≡ ok (some i)

module _ {S : Type 0} (p : Packages S) where
  Keeps-refl : (s : S) → Keeps p s s
  Keeps-refl s = record { times = λ h. refl; heights = λ h. refl; keys = λ a i la k. k }

  Keeps-eq : (s t : S) → t ≡ s → Keeps p s t
  Keeps-eq s t e = record {
    times = λ h. ap (λ x. get_processed_time p x h) e;
    heights = λ h. ap (λ x. get_processed_height p x h) e;
    keys = λ a i la k. ap (λ x. get_ek_info p x a) e ∙ k;
  }

  Keeps-trans : (s t u : S) → Keeps p s t → Keeps p t u → Keeps p s u
  Keeps-trans s t u f g = record {
    times = λ h. g.times h ∙ f.times h;
    heights = λ h. g.heights h ∙ f.heights h;
    keys = λ a i la k. g.keys a i la (f.keys a i la k);
  }

  -- One step of the chain: the client state in the store is read, a client message is verified and
  -- carried out, or evidence is verified and freezes the client.
  pub data Step (s : S) : S → Type 0 where
    update :
        (cs : ClientState) (ctx : Context) (m : ClientMessage) (s' : S) (ev : List Event)
        → p.kv.get s p.ibc.client_state_key ≡ some (p.ibc.marshal_client_state cs)
        → verify_client_message p cs ctx s m ≡ ok tt
        → check_for_misbehaviour p m ≡ ok false
        → update_state_of p cs s m ≡ ok (s', ev)
        → Step s s'
    freeze :
        (cs : ClientState) (ctx : Context) (m : ClientMessage)
        → p.kv.get s p.ibc.client_state_key ≡ some (p.ibc.marshal_client_state cs)
        → verify_client_message p cs ctx s m ≡ ok tt
        → check_for_misbehaviour p m ≡ ok true
        → Step s (update_state_on_misbehaviour p cs s)

  pub data Reach (s : S) : S → Type 0 where
    here : Reach s s
    next : {t u : S} → Reach s t → Step t u → Reach s u

module _ {S : Type 0} (p : Packages S) (kl : KvStoreLaws p.kv) (il : IbcLaws p.ibc) where
  set_client-Keeps : (s : S) (cs : ClientState) → Keeps p s (set_client_state p s cs)
  set_client-Keeps s cs = record {
    times = get_processed_time-set_client p kl il s cs;
    heights = get_processed_height-set_client p kl il s cs;
    keys = λ a i la k. get_ek_info-set_client p kl il s cs a ∙ k;
  }

  update_client-Keeps :
      (cs : ClientState) (s : S) (m : UpdateStateProxyMessage)
      → Keeps p s (update_client_state p cs s m)
  unfolding update_client_state
  update_client-Keeps cs s m =
      let s1 = set_client_state p s (with_height p cs m.post_height) in
      let c = new_consensus_state m in
      Keeps-trans p _ s1 _ (set_client-Keeps s (with_height p cs m.post_height)) (record {
        times = get_processed_time-set_consensus p kl il s1 c m.post_height;
        heights = get_processed_height-set_consensus p kl il s1 c m.post_height;
        keys = λ a i la k. get_ek_info-set_consensus p kl il s1 c m.post_height a ∙ k;
      })

  apply-Keeps :
      (cs : ClientState) (s s' : S) (m : ProxyMessage) (ev : List Event)
      → apply_proxy_message p cs s m ≡ ok (s', ev)
      → Keeps p s s'
  unfolding apply_proxy_message
  apply-Keeps cs s s' (update_state m) ev h =
      Keeps-trans p s _ s' (update_client-Keeps cs s m) (Keeps-eq p _ s' cc)
  apply-Keeps cs s s' (misbehaviour m) ev h = cc

module _ {S : Type 0} (p : Packages S) (kl : KvStoreLaws p.kv) (il : IbcLaws p.ibc)
    (el : EthereumLaws p.eth) where
  Registered-Keeps :
      (cs : ClientState) (s s' : S) (m : RegisterEnclaveKeyMessage) (r : Reading p cs m)
      (keys : (a : Address) (i : EkInfo)
        → length a ≡ 20
        → get_ek_info p s a ≡ ok (some i)
        → get_ek_info p s' a ≡ ok (some i))
      → Registered p s s' r
      → Keeps p s s'
  Registered-Keeps cs s s' m r keys (inl (same, _)) = Keeps-eq p s s' same
  Registered-Keeps cs s s' m r keys (inr (_, set)) = record {
    times =
        λ h. ap (λ x. get_processed_time p x h) set ∙ get_processed_time-set_ek p kl il s _ _ _ h;
    heights = λ h.
        ap (λ x. get_processed_height p x h) set ∙ get_processed_height-set_ek p kl il s _ _ _ h;
    keys = keys;
  }

  update_state-Keeps :
      (cs : ClientState) (s s' : S) (m : ClientMessage) (ev : List Event)
      → update_state_of p cs s m ≡ ok (s', ev)
      → Keeps p s s'
  unfolding update_state_of update_operators_state
  update_state-Keeps cs s s' (update_client m) ev h =
      let (pm, _, h1) = >>=-eq-ok (or_panic (get_proxy_message p.abi m)) _ h in
      apply-Keeps p kl il cs s s' pm ev h1
  update_state-Keeps cs s s' (register_enclave_key m) ev h =
      let (r, w) = register_enclave_key-inv p cs s s' m ev h in
      Registered-Keeps cs s s' m r (λ a i la k. register-keeps p kl il el cs s s' m ev a i la h k) w
  update_state-Keeps cs s s' (update_operators m) ev h =
      let (ops, _, h1) = >>=-eq-ok (or_panic (get_new_operators p m)) _ h in
      Keeps-trans p s _ s' (set_client-Keeps p kl il s (with_operators p cs m)) (Keeps-eq p _ s' cc)
  update_state-Keeps cs s s' foreign_message ev h = cc

  Step-Keeps : {s s' : S} → Step p s s' → Keeps p s s'
  unfolding update_state_on_misbehaviour set_client_state
  Step-Keeps (update cs ctx m s' ev _ _ _ h) = update_state-Keeps cs _ s' m ev h
  Step-Keeps {s} (freeze cs ctx m _ _ _) = set_client-Keeps p kl il s (record cs { frozen = true })

  pub Reach-Keeps : {s s' : S} → Reach p s s' → Keeps p s s'
  Reach-Keeps here = Keeps-refl p _
  Reach-Keeps (next r st) = Keeps-trans p _ _ _ (Reach-Keeps r) (Step-Keeps st)

  -- Once an enclave key with an address of 20 bytes is recorded, its operator and expiry stay as
  -- they are after any further steps of the client.
  pub Reach-enclave_key :
      {s s' : S} (a : Address) (i : EkInfo)
      → length a ≡ 20
      → get_ek_info p s a ≡ ok (some i)
      → Reach p s s'
      → get_ek_info p s' a ≡ ok (some i)
  Reach-enclave_key a i la k r = (Reach-Keeps r).keys a i la k
