-- ===== src/Relay/Registering/Replacement.antt =====
-- When the client accepts a replacement of its one operator.
use lcp_go.Common.{
  ◌+◌, ◌*◌, ◌%◌, ◌<◌, ◌≡◌, refl, ap, Bytes, true, false, ◌||◌, List, [], ◌∷◌, length, All, ltb,
  ◌==◌, ==_iff, bytes_eq_refl, get_or, arith,
}
use lcp_go.Common.Int.{two_64}
use lcp_go.Result.{ok}
use lcp_go.Types.{Address, ClientState, Context, UpdateOperatorsMessage}
use lcp_go.Packages.{Packages}
use lcp_go.Packages.Documented.{EthereumLaws}
use lcp_go.Store.{get_client_id}
use lcp_go.Eip712.{recover_address, compute_eip712_cosmos_update_operators}
use lcp_go.Signatures.{for_operators, get_operators}
use lcp_go.Operators.{
  to_addresses, get_new_operators, check_operator_signature, update_operators_validate_basic,
  verify_update_operators,
}
use lcp_go.Operators.Order.{AreOrdered, check_operators_complete}
use lcp_go.Relay.Registering.KeyAcceptance.{recovered_length}

module _ {S : Type 0} (p : Packages S) (el : EthereumLaws p.eth) where
  to_addresses_complete :
      (raw : List Bytes) → All (λ op. length op ≡ 20) raw → to_addresses p raw ≡ ok raw
  unfolding to_addresses
  to_addresses_complete [] h = refl
  to_addresses_complete (op ∷ rest) h =
      let long : (length op == 20) ≡ true = (==_iff _ _).1 (h.0) in
      rw (long, to_addresses_complete rest (h.1), el.bytes_to_address_same op (h.0)) refl

  one_signature :
      (c sig : Bytes) (op : Address)
      → recover_address p c sig ≡ ok op
      → for_operators (check_operator_signature p c) (op ∷ []) (sig ∷ []) 0 ≡ ok 1
  unfolding for_operators check_operator_signature
  one_signature c sig op h =
      let filled : (length sig == 0) ≡ false = ground (arith, recovered_length p c sig op h) in
      rw filled (rw h (rw bytes_eq_refl refl))

  -- a replacement for a client with one operator, which signed it
  pub record IsSignedByOne (cs : ClientState) (ctx : Context) (s : S) (m : UpdateOperatorsMessage)
      : Type 0 where
    pub op : Address
    pub sig : Bytes
    pub client_id : Bytes
    pub bz : Bytes
    pub one : cs.operators ≡ op ∷ []
    pub long : length op ≡ 20
    pub signed : m.signatures ≡ sig ∷ []
    pub in_store : get_client_id p s ≡ ok client_id
    pub document :
        compute_eip712_cosmos_update_operators p ctx.chain_id p.ibc.store_key client_id m.nonce
          m.new_operators m.new_operators_threshold_numerator m.new_operators_threshold_denominator
        ≡ ok bz
    pub recovered : recover_address p (p.eth.keccak256 bz) sig ≡ ok op

  pub replacement_accepted :
      (cs : ClientState) (ctx : Context) (s : S) (m : UpdateOperatorsMessage)
      → IsSignedByOne cs ctx s m
      → update_operators_validate_basic m ≡ ok tt
      → m.nonce ≡ (cs.operators_nonce + 1) % two_64
      → All (λ op. length op ≡ 20) m.new_operators
      → AreOrdered m.new_operators
      → cs.operators_threshold_denominator < two_64
      → verify_update_operators p cs ctx s m ≡ ok tt
  unfolding verify_update_operators get_operators get_new_operators
  replacement_accepted cs ctx s m w basic nonce lengths ordered small =
      let next : (m.nonce == (cs.operators_nonce + 1) % two_64) ≡ true = (==_iff _ _).1 nonce in
      let enough : ltb (1 * cs.operators_threshold_denominator % two_64)
            (cs.operators_threshold_denominator * 1 % two_64)
          ≡ false =
        ground arith in
      rw basic (
        rw (w.one) (
          rw (w.in_store) (
            rw next (
              rw (to_addresses_complete m.new_operators lengths) (
                rw (check_operators_complete _ _ m.new_operators ordered) (
                  rw (w.document) (
                    rw (w.signed, el.bytes_to_address_same w.op w.long)
                      (rw (one_signature (p.eth.keccak256 w.bz) w.sig w.op w.recovered)
                        (rw enough refl)))))))))

  pub basic_ok :
      (m : UpdateOperatorsMessage)
      → ((m.new_operators_threshold_numerator == 0) || (m.new_operators_threshold_denominator == 0))
        ≡ false
      → ltb m.new_operators_threshold_denominator m.new_operators_threshold_numerator ≡ false
      → (length m.signatures == 0) ≡ false
      → update_operators_validate_basic m ≡ ok tt
  unfolding update_operators_validate_basic
  basic_ok m thresholds below signed =
      let n : (m.new_operators_threshold_numerator == 0) ≡ false = ground (arith, thresholds) in
      let d : (m.new_operators_threshold_denominator == 0) ≡ false = ground (arith, thresholds) in
      rw n (rw d (rw below (rw signed refl)))

  pub only_operator :
      (ops : List Bytes) (op : Address)
      → (length ops == 0) ≡ false
      → ltb 1 (length ops) ≡ false
      → get_or ops 0 [] ≡ op
      → ops ≡ op ∷ []
  only_operator [] op some_left few e = cc
  only_operator (x ∷ []) op some_left few e = ap (λ y. y ∷ []) e
  only_operator (x ∷ y ∷ rest) op some_left few e = absurd (ground (arith, few))
