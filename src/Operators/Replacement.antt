-- ===== src/Operators/Replacement.antt =====
-- Replacing the operators: what an accepted replacement rests on, and who has signed it.
use lcp_go.Common.{
  AllPairs, AllPairs-map, ℕ, ◌+◌, ◌*◌, ◌%◌, ◌<◌, ◌≤◌, ◌≡◌, ◌≢◌, ◌∙◌, sym, ap, subst, Bytes, true,
  false, List, [], ◌∷◌, length, bytes_eq_sound, not-eq-false, ltb, ◌==◌, ==_iff, suc-ne-zero, arith,
}
use native.Mathlib.Nat.{zero-add}
use lcp_go.Common.Int.{two_64}
use lcp_go.Result.{
  ok, map_err, >>=-eq-ok, reject_if-eq-ok, map_err-eq-ok, wrap, invalid_header, recover_failed,
}
use lcp_go.Types.{Address, ClientState, Context, UpdateOperatorsMessage}
use lcp_go.Packages.{Packages}
use lcp_go.Store.{get_client_id}
use lcp_go.Eip712.{recover_address, compute_eip712_cosmos_update_operators}
use lcp_go.Signatures.{for_operators, get_operators}
use lcp_go.Signatures.Loop.{for_operators-le, for_operators_full}
use lcp_go.Signatures.Threshold.{full_of_threshold, length-get_operators}
use lcp_go.Operators.{
  check_operators, update_operators_validate_basic, get_new_operators, check_operator_signature,
  verify_update_operators,
}
use lcp_go.Operators.Order.{AreOrdered, check_operators_sound}

-- thresholds that `ValidateBasic` accepts
pub record AreThresholds (num den : ℕ) : Type 0 where
  pub positive : 0 < num
  pub at_most : num ≤ den

validate_basic_sound :
    (m : UpdateOperatorsMessage)
    → update_operators_validate_basic m ≡ ok tt
    → AreThresholds m.new_operators_threshold_numerator m.new_operators_threshold_denominator
unfolding update_operators_validate_basic
validate_basic_sound m h =
    let (num, h1) = reject_if-eq-ok _ _ _ h in
    let (den, h2) = reject_if-eq-ok _ _ _ h1 in
    let (le, _) = reject_if-eq-ok _ _ _ h2 in
    thresholds m.new_operators_threshold_numerator m.new_operators_threshold_denominator num le
  where
    thresholds : (num den : ℕ) → (num == 0) ≡ false → ltb den num ≡ false → AreThresholds num den
    thresholds num den a b = record { positive = ground arith; at_most = ground arith }

module _ {S : Type 0} (p : Packages S) where
  check_operator_signature_sound :
      (c : Bytes) (op : Address) (sig : Bytes)
      → check_operator_signature p c op sig ≡ ok true
      → recover_address p c sig ≡ ok op
  unfolding check_operator_signature
  check_operator_signature_sound c op [] h = cc
  check_operator_signature_sound c op (b ∷ sig) h =
      let (addr, r, h1) =
        >>=-eq-ok (map_err (wrap invalid_header recover_failed) (recover_address p c (b ∷ sig))) _
          (rw (suc-ne-zero (length sig)) at h) in
      let (same, _) = reject_if-eq-ok _ _ _ h1 in
      map_err-eq-ok _ _ r ∙ ap ok (bytes_eq_sound addr op (not-eq-false _ same))

  -- what an accepted replacement rests on
  pub record AcceptedOperators (cs : ClientState) (ctx : Context) (m : UpdateOperatorsMessage)
      : Type 0 where
    pub thresholds :
        AreThresholds m.new_operators_threshold_numerator m.new_operators_threshold_denominator
    pub has_operators : cs.operators ≢ []
    pub next_nonce : m.nonce ≡ (cs.operators_nonce + 1) % two_64
    pub new_operators : List Address
    pub decoded : get_new_operators p m ≡ ok new_operators
    pub ordered : AreOrdered new_operators
    pub client_id : Bytes
    pub sign_bytes : Bytes
    pub to_sign :
        compute_eip712_cosmos_update_operators p ctx.chain_id p.ibc.store_key client_id m.nonce
          new_operators m.new_operators_threshold_numerator m.new_operators_threshold_denominator
        ≡ ok sign_bytes
    pub success : ℕ
    pub counted :
        for_operators
          (check_operator_signature p (p.eth.keccak256 sign_bytes))
          (get_operators p cs)
          m.signatures
          0
        ≡ ok success
    pub enough :
        ltb
          (success * cs.operators_threshold_denominator % two_64)
          (cs.operators_threshold_denominator * length cs.operators % two_64)
        ≡ false

  pub verify_update_operators_sound :
      (cs : ClientState) (ctx : Context) (s : S) (m : UpdateOperatorsMessage)
      → verify_update_operators p cs ctx s m ≡ ok tt
      → AcceptedOperators cs ctx m
  unfolding verify_update_operators
  verify_update_operators_sound cs ctx s m h =
      let (_, basic, h1) = >>=-eq-ok (map_err _ (update_operators_validate_basic m)) _ h in
      let (some_left, h2) = reject_if-eq-ok _ _ _ h1 in
      let (client_id, _, h3) = >>=-eq-ok (get_client_id p s) _ h2 in
      let (nonce, h4) = reject_if-eq-ok _ _ _ h3 in
      let (ops, decoded, h5) = >>=-eq-ok (map_err _ (get_new_operators p m)) _ h4 in
      let (_, ordered, h6) = >>=-eq-ok (check_operators _ _ [] ops) _ h5 in
      let (bytes, to_sign, h7) =
        >>=-eq-ok
          (map_err _ (
            compute_eip712_cosmos_update_operators p ctx.chain_id p.ibc.store_key client_id m.nonce
              ops m.new_operators_threshold_numerator m.new_operators_threshold_denominator))
          _ h6 in
      let (success, counted, h8) =
        >>=-eq-ok
          (for_operators (check_operator_signature p (p.eth.keccak256 bytes)) (get_operators p cs)
            m.signatures 0)
          _ h7 in
      let (enough, _) = reject_if-eq-ok _ _ _ h8 in
      record {
        thresholds = validate_basic_sound m (map_err-eq-ok _ _ basic);
        has_operators = λ e. nonempty cs.operators e some_left;
        next_nonce = (==_iff _ _).0 (not-eq-false _ nonce);
        new_operators = ops;
        decoded = map_err-eq-ok _ _ decoded;
        ordered = check_operators_sound _ _ ops ordered;
        client_id = client_id;
        sign_bytes = bytes;
        to_sign = map_err-eq-ok _ _ to_sign;
        success = success;
        counted = counted;
        enough = enough;
      }
    where
      nonempty : (xs : List Bytes) → xs ≡ [] → (length xs == 0) ≡ false → ⊥
      nonempty [] e h = cc
      nonempty (x ∷ xs) e h = cc

  -- With a positive threshold denominator, and a product of the denominator and the number of
  -- operators below 2^64, an accepted replacement of operators was signed by every operator of
  -- the client, each at its place, over the document that names the new operators, their
  -- thresholds and the nonce.
  pub verify_update_operators-signed :
      (cs : ClientState) (ctx : Context) (s : S) (m : UpdateOperatorsMessage)
      → 0 < cs.operators_threshold_denominator
      → cs.operators_threshold_denominator * length cs.operators < two_64
      → verify_update_operators p cs ctx s m ≡ ok tt
      → (client_id sign_bytes : Bytes) × (ops : List Address) × (get_new_operators p m ≡ ok ops)
        × (compute_eip712_cosmos_update_operators p ctx.chain_id p.ibc.store_key client_id m.nonce
              ops m.new_operators_threshold_numerator m.new_operators_threshold_denominator
            ≡ ok sign_bytes)
        × AllPairs
            (λ op sig. recover_address p (p.eth.keccak256 sign_bytes) sig ≡ ok op)
            (get_operators p cs)
            m.signatures
  verify_update_operators-signed cs ctx s m pos_den small h =
      let a = verify_update_operators_sound cs ctx s m h in
      let check = check_operator_signature p (p.eth.keccak256 a.sign_bytes) in
      let ops = get_operators p cs in
      let same : length ops ≡ length cs.operators = length-get_operators p cs in
      let few : length cs.operators < two_64 = grind arith in
      let few' : 0 + length ops < two_64 = rw (zero-add (length ops)) (rw same few) in
      let le : a.success ≤ length cs.operators =
        subst (λ n. a.success ≤ n) (zero-add (length ops) ∙ same)
          (for_operators-le check ops m.signatures 0 a.success few' a.counted) in
      let full : a.success ≡ 0 + length ops =
        full_of_threshold cs.operators_threshold_denominator (length cs.operators) a.success pos_den
          small le a.enough
        ∙ sym same
        ∙ sym (zero-add (length ops)) in
      (
        a.client_id,
        a.sign_bytes,
        a.new_operators,
        a.decoded,
        a.to_sign,
        AllPairs-map ops m.signatures
            (check_operator_signature_sound (p.eth.keccak256 a.sign_bytes))
            (for_operators_full check ops m.signatures 0 few' (a.counted ∙ ap ok full)),
      )
