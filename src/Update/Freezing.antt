-- ===== src/Update/Freezing.antt =====
-- What freezing a client does: the flag is stored, and no check reads it.
use lcp_go.Common.{
  ℕ, ◌≡◌, ◌∙◌, refl, sym, ap, Bytes, true, Option, none, some, List, [], ◌∷◌, bytes_eq,
}
use mathlib.Core.Path.{fun_ext}
use lcp_go.Types.{
  Height, StateId, Address, ClientState, Context, ClientMessage, update_client,
  register_enclave_key, update_operators, foreign_message, RegisterEnclaveKeyMessage,
  UpdateOperatorsMessage,
}
use lcp_go.Packages.{Packages}
use lcp_go.Packages.Documented.{KvStoreLaws, IbcLaws, is_some}
use lcp_go.Message.{PrevState, ProxyMessage, update_state, misbehaviour}
use lcp_go.Store.{
  set_client_state, get_consensus_state, get_client_id, client_id_of_prefix, get_processed_time,
  get_processed_height,
}
use lcp_go.Store.Keys.{
  get-set_other, get_consensus-set_client, client-set_client, get_processed_time-set_client,
  get_processed_height-set_client,
}
use lcp_go.EnclaveKey.{
  get_ek_info, contains, ensure_ek_info_match, enclave_key_path, verify_register_enclave_key,
  check_quote_status, is_allowed_status, is_allowed_advisory_ids,
}
use lcp_go.EnclaveKey.Info.{get_ek_info-set_client}
use lcp_go.Signatures.{
  check_permissionless, check_operator, verify_by_operators, verify_signatures, get_operators,
}
use lcp_go.Operators.{verify_update_operators}
use lcp_go.Client.{
  status, active, verify_delay_period_passed, verify_commitment, verify_membership,
  verify_non_membership,
}
use lcp_go.Update.{
  check_prev_state, check_prev_states, verify_update_client, verify_misbehaviour,
  verify_proxy_message, verify_client_message, update_state_on_misbehaviour,
}

-- two stores that agree on all that the checks read
pub record SameView {S : Type 0} (p : Packages S) (s s' : S) : Type 0 where
  pub consensus : (h : Height) → get_consensus_state p s' h ≡ get_consensus_state p s h
  pub enclave_key : (a : Address) → get_ek_info p s' a ≡ get_ek_info p s a
  pub known : (a : Address) → contains p s' a ≡ contains p s a
  pub client_id : get_client_id p s' ≡ get_client_id p s
  pub processed_time : (h : Height) → get_processed_time p s' h ≡ get_processed_time p s h
  pub processed_height : (h : Height) → get_processed_height p s' h ≡ get_processed_height p s h

module _ {S : Type 0} (p : Packages S) (cs : ClientState) (ctx : Context) (s s' : S)
    (v : SameView p s s') where
  check_permissionless-SameView :
      (c sig : Bytes) → check_permissionless p ctx s' c sig ≡ check_permissionless p ctx s c sig
  unfolding check_permissionless
  check_permissionless-SameView c sig = simp (v.enclave_key)

  check_operator-SameView :
      (c : Bytes) (op : Address) (sig : Bytes)
      → check_operator p ctx s' c op sig ≡ check_operator p ctx s c op sig
  unfolding check_operator
  check_operator-SameView c op sig = simp (v.enclave_key)

  check_operator_same : (c : Bytes) → check_operator p ctx s' c ≡ check_operator p ctx s c
  check_operator_same c = fun_ext (λ op. fun_ext (λ sig. check_operator-SameView c op sig))

  verify_by_operators-SameView :
      (c : Bytes) (ops : List Address) (sigs : List Bytes)
      → verify_by_operators p (record cs { frozen = true }) ctx s' c ops sigs
        ≡ verify_by_operators p cs ctx s c ops sigs
  unfolding verify_by_operators
  verify_by_operators-SameView c ops sigs = simp (check_operator_same)

  verify_signatures-SameView :
      (c : Bytes) (sigs : List Bytes)
      → verify_signatures p (record cs { frozen = true }) ctx s' c sigs
        ≡ verify_signatures p cs ctx s c sigs
  unfolding verify_signatures get_operators
  verify_signatures-SameView c sigs =
      simp (check_permissionless-SameView, verify_by_operators-SameView)

  check_prev_states-SameView :
      (states : List PrevState) → check_prev_states p s' states ≡ check_prev_states p s states
  unfolding check_prev_states
  check_prev_states-SameView [] = refl
  check_prev_states-SameView (state ∷ rest) = simp (v.consensus, check_prev_states-SameView rest)

  check_prev_state-SameView :
      (h : Option Height) (id : Option StateId)
      → check_prev_state p s' h id ≡ check_prev_state p s h id
  unfolding check_prev_state
  check_prev_state-SameView none id = refl
  check_prev_state-SameView (some h) none = refl
  check_prev_state-SameView (some h) (some id) = simp (v.consensus)

  verify_proxy_message-SameView :
      (m : ProxyMessage)
      → verify_proxy_message p (record cs { frozen = true }) ctx s' m
        ≡ verify_proxy_message p cs ctx s m
  unfolding verify_proxy_message verify_update_client verify_misbehaviour
  verify_proxy_message-SameView (update_state m) = simp (check_prev_state-SameView)
  verify_proxy_message-SameView (misbehaviour m) = simp (check_prev_states-SameView)

  verify_register-SameView :
      (m : RegisterEnclaveKeyMessage)
      → verify_register_enclave_key p (record cs { frozen = true }) ctx s' m
        ≡ verify_register_enclave_key p cs ctx s m
  unfolding verify_register_enclave_key ensure_ek_info_match check_quote_status is_allowed_status
      is_allowed_advisory_ids
  verify_register-SameView m = simp (v.known, v.enclave_key)

  verify_update_operators-SameView :
      (m : UpdateOperatorsMessage)
      → verify_update_operators p (record cs { frozen = true }) ctx s' m
        ≡ verify_update_operators p cs ctx s m
  unfolding verify_update_operators get_operators
  verify_update_operators-SameView m = simp (v.client_id)

  verify_client_message-SameView :
      (m : ClientMessage)
      → verify_client_message p (record cs { frozen = true }) ctx s' m
        ≡ verify_client_message p cs ctx s m
  unfolding verify_client_message
  verify_client_message-SameView (update_client m) =
      simp (verify_signatures-SameView, verify_proxy_message-SameView)
  verify_client_message-SameView (register_enclave_key m) = verify_register-SameView m
  verify_client_message-SameView (update_operators m) = verify_update_operators-SameView m
  verify_client_message-SameView foreign_message = refl

  verify_delay-SameView :
      (h : Height) (dt db : ℕ)
      → verify_delay_period_passed p ctx s' h dt db ≡ verify_delay_period_passed p ctx s h dt db
  unfolding verify_delay_period_passed
  verify_delay-SameView h dt db = simp (v.processed_time, v.processed_height)

  verify_commitment-SameView :
      (h : Height) (proof prefix path value : Bytes)
      → verify_commitment p (record cs { frozen = true }) ctx s' h proof prefix path value
        ≡ verify_commitment p cs ctx s h proof prefix path value
  unfolding verify_commitment
  verify_commitment-SameView h proof prefix path value =
      simp (v.consensus, verify_signatures-SameView)

  verify_membership-SameView :
      (h : Height) (dt db : ℕ) (proof : Bytes) (key_path : List Bytes) (value : Bytes)
      → verify_membership p (record cs { frozen = true }) ctx s' h dt db proof key_path value
        ≡ verify_membership p cs ctx s h dt db proof key_path value
  unfolding verify_membership
  verify_membership-SameView h dt db proof key_path value =
      simp (verify_delay-SameView, verify_commitment-SameView)

module _ {S : Type 0} (p : Packages S) (kl : KvStoreLaws p.kv) (il : IbcLaws p.ibc) where
  contains-set_client :
      (s : S) (cs : ClientState) (a : Address)
      → contains p (set_client_state p s cs) a ≡ contains p s a
  unfolding contains set_client_state enclave_key_path bytes_eq
  contains-set_client s cs a =
      kl.has-get _ _
      ∙ ap is_some (get-set_other p kl s _ _ _ (rw il.client_state_key_lem refl))
      ∙ sym (kl.has-get _ _)

  set_client-SameView : (s : S) (cs : ClientState) → SameView p s (set_client_state p s cs)
  unfolding get_client_id set_client_state
  set_client-SameView s cs = record {
    consensus = get_consensus-set_client p kl il s cs;
    enclave_key = get_ek_info-set_client p kl il s cs;
    known = contains-set_client s cs;
    client_id = ap (client_id_of_prefix p) (kl.prefix-set s _ _);
    processed_time = get_processed_time-set_client p kl il s cs;
    processed_height = get_processed_height-set_client p kl il s cs;
  }

  -- Misbehaviour stores the client state with the frozen flag set, and no check reads this flag: on the
  -- frozen client and its store, the verification of every client message and of every proof of
  -- membership and of non-membership has the same outcome as before, and of the statuses that a client
  -- can report the client still reports active.
  pub frozen_ignored :
      (cs : ClientState) (ctx : Context) (s : S) (m : ClientMessage) (h : Height) (dt db : ℕ)
      (proof : Bytes) (key_path : List Bytes) (value : Bytes)
      → let frozen_cs = record cs { frozen = true } in
        let s' = update_state_on_misbehaviour p cs s in
        (p.kv.get s' p.ibc.client_state_key ≡ some (p.ibc.marshal_client_state frozen_cs))
        × (verify_client_message p frozen_cs ctx s' m ≡ verify_client_message p cs ctx s m)
        × (verify_membership p frozen_cs ctx s' h dt db proof key_path value
            ≡ verify_membership p cs ctx s h dt db proof key_path value)
        × (verify_non_membership p frozen_cs ctx s' h dt db proof key_path
            ≡ verify_non_membership p cs ctx s h dt db proof key_path)
        × (status p frozen_cs ctx s' ≡ active)
  unfolding update_state_on_misbehaviour set_client_state status verify_non_membership
  frozen_ignored cs ctx s m h dt db proof key_path value =
      let frozen_cs = record cs { frozen = true } in
      let v = set_client-SameView s frozen_cs in
      let s' = set_client_state p s frozen_cs in
      (
        client-set_client p kl il s frozen_cs,
        verify_client_message-SameView p cs ctx s s' v m,
        verify_membership-SameView p cs ctx s s' v h dt db proof key_path value,
        verify_membership-SameView p cs ctx s s' v h dt db proof key_path [],
        refl,
      )
