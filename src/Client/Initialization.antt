-- ===== src/Client/Initialization.antt =====
-- What `Initialize` accepts, and what it stores.
use lcp_go.Common.{
  ℕ, ◌<◌, ◌≤◌, ◌≡◌, ◌≢◌, ◌⊎◌, inl, inr, ◌∙◌, refl, sym, ap, Bytes, true, false, not, ◌&&◌, ◌||◌,
  some, List, [], ◌∷◌, length, ltb, ◌==◌, ==_iff, not-eq-false, arith,
}
use lcp_go.Result.{Result, ok, err, panic, >>=-eq-ok, reject_if-eq-ok, ok-injective}
use lcp_go.Types.{ClientState, ConsensusState, AnyConsensusState, lcp, foreign_consensus}
use lcp_go.Packages.{Packages}
use lcp_go.Packages.Documented.{KvStoreLaws, IbcLaws}
use lcp_go.Store.{set_client_state, set_consensus_state, get_consensus_state}
use lcp_go.Store.Keys.{get_consensus-set_consensus_self, client-set_client, client-set_consensus}
use lcp_go.Signatures.{get_operators}
use lcp_go.Operators.{check_operators}
use lcp_go.Operators.Order.{check_operators_sound}
use lcp_go.Operators.Effect.{AreWellFormed}
use lcp_go.Client.{validate, as_initial, initialize_valid, initialize, mrenclave_size}

-- what `Validate` demands
pub record IsValid (cs : ClientState) : Type 0 where
  pub expires : cs.key_expiration ≢ 0
  pub enclave : length cs.mrenclave ≡ mrenclave_size

pub validate_sound : (cs : ClientState) → validate cs ≡ ok tt → IsValid cs
unfolding validate
validate_sound cs h =
    let (a, h1) = reject_if-eq-ok _ _ _ h in
    let (b, _) = reject_if-eq-ok _ _ _ h1 in
    record {
      expires = λ e. nonzero cs.key_expiration e a;
      enclave = (==_iff _ _).0 (not-eq-false _ b);
    }
  where
    nonzero : (n : ℕ) → n ≡ 0 → (n == 0) ≡ false → ⊥
    nonzero n e h = ground arith

validate_complete : (cs : ClientState) → IsValid cs → validate cs ≡ ok tt
unfolding validate
validate_complete cs v = ground (arith, v.expires, v.enclave)

validate-no_panic : (cs : ClientState) → validate cs ≢ panic
unfolding validate
validate-no_panic cs h = ground arith

-- Boolean test of `Initialize` on the thresholds
thresholds_of_test :
    (ops : List Bytes) (num den : ℕ)
    → (not (length ops == 0) && ((num == 0) || (den == 0))) ≡ false
    → ops ≢ []
    → 0 < num
thresholds_of_test [] num den h n = absurd (n refl)
thresholds_of_test (x ∷ ops) num den h n = ground arith

module _ {S : Type 0} (p : Packages S) (kl : KvStoreLaws p.kv) (il : IbcLaws p.ibc) where
  -- a client that was created from a valid client state
  pub record Created (cs : ClientState) (s : S) (consensus_state : AnyConsensusState) (s' : S)
      : Type 0 where
    pub valid : IsValid cs
    pub at_zero : p.ibc.height_is_zero cs.latest_height ≡ true
    pub no_nonce : cs.operators_nonce ≡ 0
    pub well_formed : AreWellFormed p cs
    pub cons : ConsensusState
    pub own_type : consensus_state ≡ lcp cons
    pub written : s' ≡ set_consensus_state p (set_client_state p s cs) cons cs.latest_height
    pub stored : p.kv.get s' p.ibc.client_state_key ≡ some (p.ibc.marshal_client_state cs)
    pub consensus_stored : get_consensus_state p s' cs.latest_height ≡ ok cons

  as_initial-inv : (a : AnyConsensusState) (c : ConsensusState) → as_initial p a ≡ ok c → a ≡ lcp c
  unfolding as_initial
  as_initial-inv (lcp c') c h = cc
  as_initial-inv foreign_consensus c h = cc

  le_of_test : (num den : ℕ) → ltb den num ≡ false → num ≤ den
  le_of_test num den h = ground arith

  initialize_valid_sound :
      (cs : ClientState) (s s' : S) (a : AnyConsensusState)
      → validate cs ≡ ok tt
      → initialize_valid p cs s a ≡ ok s'
      → Created cs s a s'
  unfolding initialize_valid
  initialize_valid_sound cs s s' a v h =
      let (zero_height, h1) = reject_if-eq-ok _ _ _ h in
      let (c, own, h2) = >>=-eq-ok (as_initial p a) _ h1 in
      let (nonce, h3) = reject_if-eq-ok _ _ _ h2 in
      let (test, h4) = reject_if-eq-ok _ _ _ h3 in
      let (_, ordered, h5) = >>=-eq-ok (check_operators _ _ [] (get_operators p cs)) _ h4 in
      let (le, h6) = reject_if-eq-ok _ _ _ h5 in
      let written = sym (ok-injective _ s' h6) in
      let s1 = set_client_state p s cs in
      record {
        valid = validate_sound cs v;
        at_zero = not-eq-false _ zero_height;
        no_nonce = (==_iff _ _).0 (not-eq-false _ nonce);
        well_formed = record {
          ordered = check_operators_sound _ _ _ ordered;
          at_most = le_of_test _ _ le;
          positive = thresholds_of_test cs.operators _ _ test;
        };
        cons = c;
        own_type = as_initial-inv a c own;
        written = written;
        stored =
            ap (λ t. p.kv.get t p.ibc.client_state_key) written
            ∙ client-set_consensus p kl il s1 c cs.latest_height
            ∙ client-set_client p kl il s cs;
        consensus_stored =
            ap (λ t. get_consensus_state p t cs.latest_height) written
            ∙ get_consensus-set_consensus_self p kl il s1 c cs.latest_height;
      }

  initialize-split :
      (cs : ClientState) (s s' : S) (a : AnyConsensusState) (v : Result Unit)
      → validate cs ≡ v
      → (elim v [ ok _ ↦ initialize_valid p cs s a | err e ↦ ok s | panic ↦ panic ]) ≡ ok s'
      → Created cs s a s' ⊎ ((IsValid cs → ⊥) × (s' ≡ s))
  initialize-split cs s s' a (ok _) e h = inl (initialize_valid_sound cs s s' a e h)
  initialize-split cs s s' a (err x) e h =
      inr (λ valid. cc (e, validate_complete cs valid), sym (ok-injective s s' h))
  initialize-split cs s s' a panic e h = cc

  -- A successful creation either stored a valid client, at the zero height with nonce zero, with
  -- nonzero operators in ascending order and a threshold of at most one, together with its consensus
  -- state; or the client state was not valid and nothing was stored.
  pub initialize_sound :
      (cs : ClientState) (s s' : S) (a : AnyConsensusState)
      → initialize p cs s a ≡ ok s'
      → Created cs s a s' ⊎ ((IsValid cs → ⊥) × (s' ≡ s))
  unfolding initialize
  initialize_sound cs s s' a h = initialize-split cs s s' a (validate cs) refl h

module _ {S : Type 0} (p : Packages S) where
  invalid_unchanged :
      (cs : ClientState) (s : S) (a : AnyConsensusState) (v : Result Unit)
      → validate cs ≡ v
      → (IsValid cs → ⊥)
      → (elim v [ ok _ ↦ initialize_valid p cs s a | err e ↦ ok s | panic ↦ panic ]) ≡ ok s
  invalid_unchanged cs s a (ok _) e n = absurd (n (validate_sound cs e))
  invalid_unchanged cs s a (err x) e n = refl
  invalid_unchanged cs s a panic e n = absurd (validate-no_panic cs e)

  -- A client state that is not valid, without a key expiration or with an enclave measurement of
  -- another length than 32, is accepted without an error, whatever its other fields and the consensus
  -- state are, and leaves the store empty of it.
  pub initialize_invalid :
      (cs : ClientState) (s : S) (a : AnyConsensusState)
      → (cs.key_expiration ≡ 0) ⊎ (length cs.mrenclave ≢ mrenclave_size)
      → initialize p cs s a ≡ ok s
  unfolding initialize
  initialize_invalid cs s a bad =
      invalid_unchanged cs s a (validate cs) refl
        (λ v. elim bad [ inl e ↦ v.expires e | inr n ↦ n v.enclave ])
