-- ===== src/Update/Progress.antt =====
-- What was verified can be carried out: no panic follows an accepted client message.
use lcp_go.Common.{◌≡◌, refl, ap, false, List, []}
use lcp_go.Result.{ok, map_err, >>=-eq-ok, map_err-eq-ok}
use lcp_go.Types.{
  ClientState, Context, UpdateClientMessage, ClientMessage, update_client, register_enclave_key,
  update_operators, foreign_message,
}
use lcp_go.Packages.{Packages}
use lcp_go.Packages.Documented.{KvStoreLaws, IbcLaws, EthereumLaws}
use lcp_go.Message.{ProxyMessage, update_state, misbehaviour}
use lcp_go.Message.Decode.{get_proxy_message}
use lcp_go.EnclaveKey.{Event}
use lcp_go.EnclaveKey.Effect.{register-verified}
use lcp_go.Operators.Effect.{update_operators-verified}
use lcp_go.Update.{
  verify_client_message, check_for_misbehaviour, update_state_of, update_client_state,
  is_misbehaviour,
}

module _ {S : Type 0} (p : Packages S) (kl : KvStoreLaws p.kv) (il : IbcLaws p.ibc)
    (el : EthereumLaws p.eth) where
  progress_of :
      (cs : ClientState) (s : S) (m : UpdateClientMessage) (pm : ProxyMessage)
      → get_proxy_message p.abi m ≡ ok pm
      → is_misbehaviour p (get_proxy_message p.abi m) ≡ ok false
      → (s' : S) × (ev : List Event) × (update_state_of p cs s (update_client m) ≡ ok (s', ev))
  unfolding update_state_of is_misbehaviour
  progress_of cs s m (update_state u) e quiet = (update_client_state p cs s u, [], rw e refl)
  progress_of cs s m (misbehaviour u) e quiet = cc (quiet, ap (is_misbehaviour p) e)

  -- Every client message that is verified and is no evidence of misbehaviour is carried out without a
  -- panic, in the state in which it was verified.
  pub update_state-verified :
      (cs : ClientState) (ctx : Context) (s : S) (m : ClientMessage)
      → verify_client_message p cs ctx s m ≡ ok tt
      → check_for_misbehaviour p m ≡ ok false
      → (s' : S) × (ev : List Event) × (update_state_of p cs s m ≡ ok (s', ev))
  unfolding verify_client_message check_for_misbehaviour update_state_of
  update_state-verified cs ctx s (update_client m) h quiet =
      let (pm, e, _) = >>=-eq-ok (map_err _ (get_proxy_message p.abi m)) _ h in
      progress_of cs s m pm (map_err-eq-ok _ _ e) quiet
  update_state-verified cs ctx s (register_enclave_key m) h quiet =
      let (_, s', ev, done, _, _) = register-verified p kl il el cs ctx s m h in (s', ev, done)
  update_state-verified cs ctx s (update_operators m) h quiet =
      let (s', ev, done, _, _, _, _, _) = update_operators-verified p kl il cs ctx s m h in
      (s', ev, done)
  update_state-verified cs ctx s foreign_message h quiet = cc
