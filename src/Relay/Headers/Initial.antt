-- ===== src/Relay/Headers/Initial.antt =====
-- The counterparty creates the client from the initial state that the prover gives.
use lcp_go.Common.{
  suc, ◌≤◌, ◌≡◌, ◌≢◌, refl, sym, ap, ◌∙◌, subst, Bytes, true, false, not, ◌&&◌, ◌||◌, List, [], ◌∷◌,
  length, All, map, Option, ltb, ◌==◌, ==_iff, arith,
}
use lcp_go.Result.{ok, map_err, >>=-eq-ok, map_err-eq-ok, reject_if-eq-ok, ok-injective}
use lcp_go.Types.{Height, Address, ClientState, ConsensusState, lcp}
use lcp_go.Packages.{Packages}
use lcp_go.Packages.Documented.{IbcLaws, EthereumLaws}
use lcp_go.Store.{set_client_state, set_consensus_state}
use lcp_go.Signatures.{get_operators}
use lcp_go.Operators.Order.{IsNonzero, AreOrdered, check_operators_complete}
use lcp_go.Client.{validate, initialize, initialize_valid, as_initial}
use lcp_go.Relay.Config.{
  ConfigPackages, get_mrenclave, get_operators_threshold, get_configured_operators,
  decode_operator_address, decode_operators, validate_config,
}
use lcp_go.Relay.Config.Validation.{validate_config_sound}
use lcp_go.Relay.Prover.{Prover, ProverState}
use lcp_go.Relay.Action.{>>=-inv, pure-inv, pure_first-inv}
use lcp_go.Relay.Headers.{create_initial_light_client_state}
use lcp_go.Relay.Headers.Messages.{initial_client_state}

-- `common.HexToAddress` gives a `[20]byte`
pub record HexLaws (cp : ConfigPackages) : Type 0 where
  pub length-hex_to_address : (s : Bytes) → length (cp.hex_to_address s) ≡ 20

module _ (cp : ConfigPackages) (hl : HexLaws cp) where
  decode_operators-length :
      (operators : List Bytes) (ops : List Address)
      → decode_operators cp operators ≡ ok ops
      → (length ops ≡ length operators) × All (λ op. length op ≡ 20) ops
  unfolding decode_operators decode_operator_address
  decode_operators-length [] ops h =
      subst (λ (o : List Address). (length o ≡ 0) × All (λ op. length op ≡ 20) o)
        (ok-injective [] ops h) (refl, tt)
  decode_operators-length (o ∷ rest) ops h =
      let (addr, decoded, h1) = >>=-eq-ok (map_err _ (decode_operator_address cp o)) _ h in
      let (others, decodes, h2) = >>=-eq-ok (decode_operators cp rest) _ h1 in
      let (_, e) = reject_if-eq-ok _ _ _ (map_err-eq-ok _ (decode_operator_address cp o) decoded) in
      let (n, longs) = decode_operators-length rest others decodes in
      let long : length addr ≡ 20 =
        subst (λ (a : Address). length a ≡ 20) (ok-injective (cp.hex_to_address o) addr e)
          (hl.length-hex_to_address o) in
      subst (λ (x : List Address). (length x ≡ length (o ∷ rest)) × All (λ op. length op ≡ 20) x)
        (ok-injective (addr ∷ others) ops h2) (ap suc n, (long, longs))

few-AreOrdered : (ops : List Address) → length ops ≤ 1 → All IsNonzero ops → AreOrdered ops
few-AreOrdered [] few nonzero = (tt, tt)
few-AreOrdered (op ∷ []) few nonzero = (nonzero, tt)
few-AreOrdered (op ∷ x ∷ ops) few nonzero = let bad : ⊥ = omega (arith, few) in absurd bad

module _ {S : Type 0} (p : Packages S) (el : EthereumLaws p.eth) (il : IbcLaws p.ibc) where
  same_addresses :
      (ops : List Address) → All (λ op. length op ≡ 20) ops → map p.eth.bytes_to_address ops ≡ ops
  same_addresses [] h = refl
  same_addresses (op ∷ ops) h =
      rw (el.bytes_to_address_same op (h.0), same_addresses ops (h.1)) refl

  -- a client state that `Initialize` stores
  record IsInitial (cs : ClientState) : Type 0 where
    expires : cs.key_expiration ≢ 0
    right_size : length cs.mrenclave ≡ 32
    lowest : cs.latest_height ≡ record { revision_number = 0; revision_height = 0 }
    first_nonce : cs.operators_nonce ≡ 0
    numerator : cs.operators_threshold_numerator ≢ 0
    below : cs.operators_threshold_numerator ≤ cs.operators_threshold_denominator
    long : All (λ op. length op ≡ 20) cs.operators
    ordered : AreOrdered cs.operators

  validate_accepted : (cs : ClientState) → IsInitial cs → validate cs ≡ ok tt
  unfolding validate
  validate_accepted cs v =
      let expires : (cs.key_expiration == 0) ≡ false = ground (arith, v.expires) in
      let size : (length cs.mrenclave == 32) ≡ true = (==_iff _ _).1 (v.right_size) in
      rw expires (rw size refl)

  initialize_valid_accepted :
      (cs : ClientState) (s : S) (cons : ConsensusState)
      → IsInitial cs
      → initialize_valid p cs s (lcp cons)
        ≡ ok (set_consensus_state p (set_client_state p s cs) cons cs.latest_height)
  unfolding initialize_valid as_initial get_operators
  initialize_valid_accepted cs s cons v =
      let zero : p.ibc.height_is_zero cs.latest_height ≡ true =
        il.height_is_zero_lem cs.latest_height ∙ rw (v.lowest) refl in
      let nonce : (cs.operators_nonce == 0) ≡ true = (==_iff _ _).1 (v.first_nonce) in
      let some_thresholds : (not (length cs.operators == 0)
            && ((cs.operators_threshold_numerator == 0)
                || (cs.operators_threshold_denominator == 0)))
          ≡ false =
        ground (arith, v.numerator, v.below) in
      let above : ltb cs.operators_threshold_denominator cs.operators_threshold_numerator ≡ false =
        ground (arith, v.below) in
      rw zero (
        rw nonce (
          rw some_thresholds (
            rw (same_addresses cs.operators v.long)
              (rw (check_operators_complete _ _ cs.operators v.ordered) (rw above refl)))))

  initialize_accepted :
      (cs : ClientState) (s : S) (cons : ConsensusState)
      → IsInitial cs
      → initialize p cs s (lcp cons)
        ≡ ok (set_consensus_state p (set_client_state p s cs) cons cs.latest_height)
  unfolding initialize
  initialize_accepted cs s cons v =
      rw (initialize, validate_accepted cs v) (initialize_valid_accepted cs s cons v)

module _ {S E F MsgId : Type 0} (pr : Prover S E F MsgId) (hl : HexLaws pr.config_packages)
    (el : EthereumLaws pr.packages.eth) (il : IbcLaws pr.packages.ibc) where
  initial_client_state-IsInitial :
      (ops : List Address) (cs : ClientState)
      → validate_config pr.config_packages pr.config ≡ ok tt
      → (get_operators_threshold pr.config).numerator ≢ 0
      → (get_operators_threshold pr.config).numerator
        ≤ (get_operators_threshold pr.config).denominator
      → get_configured_operators pr.config_packages pr.config ≡ ok ops
      → All IsNonzero ops
      → initial_client_state pr ≡ ok cs
      → IsInitial pr.packages el il cs
  unfolding initial_client_state get_configured_operators
  initial_client_state-IsInitial ops cs valid num below configured nonzero h =
      let c = validate_config_sound pr.config_packages pr.config valid in
      let (few, long) =
        decode_operators-length pr.config_packages hl pr.config.operators ops configured in
      let (ops1, same, h1) =
        >>=-eq-ok (decode_operators pr.config_packages pr.config.operators) _ h in
      let (m, measured, h2) = >>=-eq-ok (get_mrenclave pr.config) _ h1 in
      let ops_same : ops ≡ ops1 = ok-injective ops ops1 (sym configured ∙ same) in
      let m_same : c.mrenclave ≡ m = ok-injective c.mrenclave m (sym (c.of_hex) ∙ measured) in
      subst (IsInitial pr.packages el il) (ok-injective _ cs h2) (record {
        expires = c.expires;
        right_size = ap (λ (b : Bytes). length b) (sym m_same) ∙ c.right_size;
        lowest = refl;
        first_nonce = refl;
        numerator = num;
        below = below;
        long = subst (λ (o : List Address). All (λ op. length op ≡ 20) o) ops_same long;
        ordered =
            subst AreOrdered ops_same
              (few-AreOrdered ops (omega (arith, few, c.one_operator)) nonzero);
      })

  -- The counterparty stores the client that the prover's initial state is for, at height zero: if the
  -- configuration is validated, the threshold is a nonzero fraction that is at most one, and the
  -- operator's address is not zero.
  pub create_initial_light_client_state_accepted :
      (height : Option Height) (st st' : ProverState E F MsgId) (cs : ClientState)
      (cons : ConsensusState) (ops : List Address) (s : S)
      → create_initial_light_client_state pr height st ≡ (st', ok (cs, cons))
      → validate_config pr.config_packages pr.config ≡ ok tt
      → (get_operators_threshold pr.config).numerator ≢ 0
      → (get_operators_threshold pr.config).numerator
        ≤ (get_operators_threshold pr.config).denominator
      → get_configured_operators pr.config_packages pr.config ≡ ok ops
      → All IsNonzero ops
      → initialize pr.packages cs s (lcp cons)
        ≡ ok (
            set_consensus_state pr.packages
              (set_client_state pr.packages s cs)
              cons
              (record { revision_number = 0; revision_height = 0 }))
  unfolding create_initial_light_client_state
  create_initial_light_client_state_accepted height st st' cs cons ops s h valid num below
        configured nonzero =
      let (cs1, made, h1) = pure_first-inv (initial_client_state pr) _ st h in
      let (st1, _, _, h2) = >>=-inv _ _ st h1 in
      let (_, e) = pure-inv _ st1 h2 in
      let same : cs1 ≡ cs =
        ap (λ (x : ClientState × ConsensusState). x.0) (ok-injective _ (cs, cons) e) in
      let v : IsInitial pr.packages el il cs =
        initial_client_state-IsInitial ops cs valid num below configured nonzero
          (made ∙ ap ok same) in
      initialize_accepted pr.packages el il cs s cons v
      ∙ ap (λ l. ok (set_consensus_state pr.packages (set_client_state pr.packages s cs) cons l))
          (v.lowest)
