-- ===== src/Operators/Effect.antt =====
-- What an accepted replacement of operators changes, and that it cannot be replayed.
use lcp_go.Common.{
  ℕ, ◌+◌, ◌%◌, ◌<◌, ◌≤◌, ◌≡◌, ◌≢◌, ◌∙◌, refl, sym, ap, subst, Bytes, some, List, [], ◌∷◌, map,
  length, All, not-eq-false, ==_iff, arith,
}
use lcp_go.Common.Int.{two_64}
use lcp_go.Result.{ok, >>=-eq-ok, reject_if-eq-ok, ok-injective}
use lcp_go.Types.{Address, ClientState, Context, UpdateOperatorsMessage}
use lcp_go.Packages.{Packages}
use lcp_go.Packages.Documented.{KvStoreLaws, IbcLaws}
use lcp_go.Store.{set_client_state}
use lcp_go.Store.Keys.{client-set_client}
use lcp_go.EnclaveKey.{Event, operators_updated}
use lcp_go.Signatures.{get_operators}
use lcp_go.Operators.{
  to_addresses, get_new_operators, verify_update_operators, with_operators, update_operators_state,
}
use lcp_go.Operators.Order.{AreOrdered}
use lcp_go.Operators.Replacement.{AcceptedOperators, verify_update_operators_sound}

module _ {S : Type 0} (p : Packages S) where
  -- What is decoded is the list of the addresses, and each had 20 bytes.
  to_addresses_sound :
      (raw : List Bytes) (ops : List Address)
      → to_addresses p raw ≡ ok ops
      → (ops ≡ map p.eth.bytes_to_address raw) × All (λ op. length op ≡ 20) raw
  unfolding to_addresses
  to_addresses_sound [] ops h = (sym (ok-injective [] ops h), tt)
  to_addresses_sound (op ∷ rest) ops h =
      let (long, h1) = reject_if-eq-ok _ _ _ h in
      let (others, decoded, h2) = >>=-eq-ok (to_addresses p rest) _ h1 in
      let (same, lengths) = to_addresses_sound rest others decoded in
      (
        sym (ok-injective _ ops h2) ∙ ap (λ r. p.eth.bytes_to_address op ∷ r) same,
        ((==_iff (length op) 20).0 (not-eq-false _ long), lengths),
      )

  -- a client whose operators are in order, with thresholds if it has operators
  pub record AreWellFormed (cs : ClientState) : Type 0 where
    pub ordered : AreOrdered (get_operators p cs)
    pub at_most : cs.operators_threshold_numerator ≤ cs.operators_threshold_denominator
    pub positive : cs.operators ≢ [] → 0 < cs.operators_threshold_numerator

  with_operators-AreWellFormed :
      (cs : ClientState) (ctx : Context) (m : UpdateOperatorsMessage)
      → AcceptedOperators p cs ctx m
      → AreWellFormed (with_operators p cs m)
  unfolding with_operators get_operators get_new_operators
  with_operators-AreWellFormed cs ctx m a = record {
    ordered =
        subst AreOrdered (to_addresses_sound m.new_operators a.new_operators a.decoded).0 a.ordered;
    at_most = a.thresholds.at_most;
    positive = λ _. a.thresholds.positive;
  }

  nonce_moves : (n : ℕ) → n < two_64 → n ≢ (n + 1) % two_64
  nonce_moves n h = ground arith

  -- A replacement with a nonce below 2^64 that was accepted is refused by the client with the
  -- new operators, whatever the store and the block.
  pub update_operators_no_replay :
      (cs : ClientState) (ctx ctx' : Context) (s s' : S) (m : UpdateOperatorsMessage)
      → m.nonce < two_64
      → verify_update_operators p cs ctx s m ≡ ok tt
      → verify_update_operators p (with_operators p cs m) ctx' s' m ≢ ok tt
  update_operators_no_replay cs ctx ctx' s s' m small h again = nonce_moves m.nonce small (
      unfold with_operators in
      (verify_update_operators_sound p (with_operators p cs m) ctx' s' m again).next_nonce)

module _ {S : Type 0} (p : Packages S) (kl : KvStoreLaws p.kv) (il : IbcLaws p.ibc) where
  -- After a replacement was verified, carrying it out succeeds. It stores the client state that has the
  -- operators, the threshold and the nonce of the message, and is otherwise the old one. The new
  -- operators are nonzero, in ascending order and of 20 bytes each, the numerator is positive, also
  -- where there are no new operators, and at most the denominator, and the stored nonce is the next
  -- one.
  pub update_operators-verified :
      (cs : ClientState) (ctx : Context) (s : S) (m : UpdateOperatorsMessage)
      → verify_update_operators p cs ctx s m ≡ ok tt
      → let cs' = record cs {
        operators = m.new_operators;
        operators_threshold_numerator = m.new_operators_threshold_numerator;
        operators_threshold_denominator = m.new_operators_threshold_denominator;
        operators_nonce = (cs.operators_nonce + 1) % two_64;
      } in
        (s' : S) × (ev : List Event) × (update_operators_state p cs s m ≡ ok (s', ev))
        × (p.kv.get s' p.ibc.client_state_key ≡ some (p.ibc.marshal_client_state cs'))
        × AreWellFormed p cs'
        × (0 < m.new_operators_threshold_numerator)
        × All (λ op. length op ≡ 20) m.new_operators
        × (m.nonce ≡ (cs.operators_nonce + 1) % two_64)
  unfolding update_operators_state get_new_operators with_operators
  update_operators-verified cs ctx s m h =
      let a = verify_update_operators_sound p cs ctx s m h in
      (
        set_client_state p s (with_operators p cs m),
        operators_updated m.nonce a.new_operators m.new_operators_threshold_numerator
              m.new_operators_threshold_denominator
            ∷ [],
        rw (a.decoded) refl,
        client-set_client p kl il s (with_operators p cs m)
            ∙ ap
                (λ n. some (
                  p.ibc.marshal_client_state
                    (record (with_operators p cs m) { operators_nonce = n })))
                a.next_nonce,
        subst (λ n. AreWellFormed p (record (with_operators p cs m) { operators_nonce = n }))
            a.next_nonce (with_operators-AreWellFormed p cs ctx m a),
        a.thresholds.positive,
        (to_addresses_sound p m.new_operators a.new_operators a.decoded).1,
        a.next_nonce,
      )
