-- ===== src/Relay/Elc/Activated.antt =====
-- Which messages `activateClient` sends.
use lcp_go.Common.{
  ℕ, suc, ◌≡◌, ◌≢◌, ◌∙◌, sym, ap, subst, Bytes, true, false, ◌+◌, ◌%◌, List, [], ◌∷◌, length, ◌==◌,
  AllPairs, arith,
}
use lcp_go.Common.Int.{two_64}
use lcp_go.Result.{
  Result, ok, reject_if, >>=-eq-ok, reject_if-last, ok-injective, plain, no_available_updates,
}
use lcp_go.Types
use lcp_go.Types.{UpdateClientMessage}
use lcp_go.Message.Decode.{update_client_validate_basic}
use lcp_go.Relay.Prover.{Prover, ProverState, Response, SentMsg}
use lcp_go.Relay.Action.{Action, >>=-inv, reads-inv, pure-inv, pure_first-inv}
use lcp_go.Relay.Registering.{send_messages}
use lcp_go.Relay.KeyUpdate.{update_eki_if_needed}
use lcp_go.Relay.Elc.{update_elc}
use lcp_go.Relay.Elc.UpdateMessages.{update_message, update_messages}
use lcp_go.Relay.Elc.Activation.{try_update, activate_client}

module _ {S E F MsgId : Type 0} (pr : Prover S E F MsgId) where
  -- `retry.Do` gives what its last attempt gave
  pub record RetryLaws
      (retry : ℕ
        → Action (ProverState E F MsgId) (List Response)
        → Action (ProverState E F MsgId) (List Response))
      : Type 0 where
    pub last_attempt :
        (n : ℕ) (action : Action (ProverState E F MsgId) (List Response))
        (st st' : ProverState E F MsgId) (updates : List Response)
        → retry n action st ≡ (st', ok updates)
        → (st1 : ProverState E F MsgId) × (action st1 ≡ (st', ok updates))

  -- the update of a response, and the message that carries it
  abbrev pub update_of : Response → UpdateClientMessage
  update_of r = record { proxy_message = r.message; signatures = r.signature ∷ [] }

  pub record Carries (client_id signer : Bytes) (r : Response) (msg : SentMsg) : Type 0 where
    pub is_valid : update_client_validate_basic pr.packages.abi (update_of r) ≡ ok tt
    pub carried :
        pr.new_msg_update_client client_id (Types.update_client (update_of r)) signer ≡ ok msg

  -- the updates of the last attempt, and the messages that were sent for them
  pub record Sent (client_id : Bytes) (env' : E) : Type 0 where
    pub before : ProverState E F MsgId
    pub after : ProverState E F MsgId
    pub updates : List Response
    pub updated : update_elc pr pr.config.elc_client_id true before ≡ (after, ok updates)
    pub not_empty : length updates ≢ 0
    pub signer : Bytes
    pub msgs : List SentMsg
    pub same_number : length msgs ≡ length updates
    pub carry : AllPairs (Carries client_id signer) updates msgs
    pub ids : List MsgId
    pub sent : pr.send_msgs msgs after.env ≡ (env', ok ids)

  update_messages-Carries :
      (client_id signer : Bytes) (updates : List Response) (msgs : List SentMsg)
      → update_messages pr client_id signer updates ≡ ok msgs
      → (length msgs ≡ length updates) × AllPairs (Carries client_id signer) updates msgs
  unfolding update_messages update_message
  update_messages-Carries client_id signer [] msgs h =
      (ap (λ (x : List SentMsg). length x) (sym (ok-injective [] msgs h)), tt)
  update_messages-Carries client_id signer (r ∷ rs) msgs h =
      let (msg, made, h1) = >>=-eq-ok (update_message pr client_id signer r) _ h in
      let (rest, others, h2) = >>=-eq-ok (update_messages pr client_id signer rs) _ h1 in
      let (_, valid, carried) =
        >>=-eq-ok (update_client_validate_basic pr.packages.abi (update_of r)) _ made in
      let (n, pairs) = update_messages-Carries client_id signer rs rest others in
      subst
        (λ (x : List SentMsg).
          (length x ≡ length (r ∷ rs)) × AllPairs (Carries client_id signer) (r ∷ rs) x)
        (ok-injective (msg ∷ rest) msgs h2)
        (ap suc n, (record { is_valid = valid; carried = carried }, pairs))

  try_update-inv :
      (st st' : ProverState E F MsgId) (updates : List Response)
      → try_update pr st ≡ (st', ok updates)
      → (update_elc pr pr.config.elc_client_id true st ≡ (st', ok updates)) × (length updates ≢ 0)
  unfolding try_update
  try_update-inv st st' updates h =
      let (st1, us, updated, h1) = >>=-inv (update_elc pr pr.config.elc_client_id true) _ st h in
      let (_, some_left, h2) =
        pure_first-inv (reject_if (length us == 0) (plain no_available_updates)) _ st1 h1 in
      let (same, e) = pure-inv (ok us) st1 h2 in
      let same_updates = ok-injective us updates e in
      let left : (length us == 0) ≡ false = reject_if-last _ _ some_left in
      (
        updated ∙ ap (λ s. (s, ok us)) same ∙ ap (λ u. (st', ok u)) same_updates,
        subst (λ (u : List Response). length u ≢ 0) same_updates (ground (arith, left)),
      )

  send_messages-env :
      (msgs : List SentMsg) (st st' : ProverState E F MsgId) (ids : List MsgId)
      → send_messages pr msgs st ≡ (st', ok ids)
      → pr.send_msgs msgs st.env ≡ (st'.env, ok ids)
  unfolding send_messages
  send_messages-env msgs st st' ids h =
      ap (λ (x : ProverState E F MsgId × Result (List MsgId)). (x.0.env, x.1)) h

  -- If the client is activated without an error, the messages that were sent to the counterparty are
  -- one for each update of the prover's last attempt, of which there is one at least. Each of these
  -- updates passes the light client's basic validation, and has the signature of its response.
  pub activate_client-Sent :
      (retry : ℕ
        → Action (ProverState E F MsgId) (List Response)
        → Action (ProverState E F MsgId) (List Response))
      (client_id : Bytes) (attempts : ℕ) (st st' : ProverState E F MsgId)
      → RetryLaws retry
      → activate_client pr retry client_id attempts st ≡ (st', ok tt)
      → Sent client_id st'.env
  unfolding activate_client
  activate_client-Sent retry client_id attempts st st' rl h =
      let (st1, _, _, h1) = >>=-inv (update_eki_if_needed pr) _ st h in
      let (st2, updates, tried, h2) =
        >>=-inv (retry ((attempts + 1) % two_64) (try_update pr)) _ st1 h1 in
      let (before, attempt) = rl.last_attempt _ (try_update pr) st1 st2 updates tried in
      let (updated, not_empty) = try_update-inv before st2 updates attempt in
      let (signer, _, h3) = reads-inv _ _ st2 h2 in
      let (msgs, made, h4) =
        pure_first-inv (update_messages pr client_id signer updates) _ st2 h3 in
      let (st3, ids, sent, h5) = >>=-inv (send_messages pr msgs) _ st2 h4 in
      let (same, _) = pure-inv (ok tt) st3 h5 in
      let (n, pairs) = update_messages-Carries client_id signer updates msgs made in
      record {
        before = before;
        after = st2;
        updates = updates;
        updated = updated;
        not_empty = not_empty;
        signer = signer;
        msgs = msgs;
        same_number = n;
        carry = pairs;
        ids = ids;
        sent =
            send_messages-env msgs st2 st3 ids sent
            ∙ ap (λ (s : ProverState E F MsgId). (s.env, ok ids)) same;
      }
