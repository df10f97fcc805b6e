-- ===== src/Relay/Registering/OperatorsAcceptance.antt =====
-- The client accepts the replacement of operators that the prover sends.
use lcp_go.Common.{
  subst, ℕ, ◌+◌, ◌%◌, ◌<◌, ◌≡◌, ◌∙◌, refl, sym, Bytes, false, not, ◌||◌, some, none, List, [], ◌∷◌,
  length, All, ltb, ◌==◌, bytes_eq, bytes_eq_sound, not-eq-false, get_or,
}
use lcp_go.Common.Int.{two_64, int_64, pos}
use lcp_go.Result.{ok, panic, >>=-eq-ok, reject_if-eq-ok, ok-injective}
use lcp_go.Types
use lcp_go.Types.{Address, ClientState, Context, UpdateOperatorsMessage}
use lcp_go.Packages.Documented.{EthereumLaws}
use lcp_go.Store.{get_client_id}
use lcp_go.Eip712.{
  zero_address, recover_address, compute_eip712_cosmos_update_operators,
  compute_eip712_update_operators, compute_cosmos_chain_salt,
}
use lcp_go.EnclaveKey.Effect.{length-recover_address}
use lcp_go.Operators.Order.{AreOrdered}
use lcp_go.Update.{verify_client_message}
use lcp_go.Relay.Config.{
  Signer, Fraction, cosmos_chain_params, is_operator_enabled, get_signer_address,
}
use lcp_go.Relay.Prover.{Prover, SentMsg}
use lcp_go.Relay.Registering.Counterparty.{
  query_lcp_client_state, require_signer, message_for_client,
}
use lcp_go.Relay.Registering.OperatorsMessage.{
  is_none, get_domain_params, domain_params_of, compute_eip712_chain_salt, chain_salt_of,
  compute_eip712_update_operators_hash, operators_message,
}
use lcp_go.Relay.Registering.Laws.{ProverLaws}
use lcp_go.Relay.Registering.KeyAcceptance.{signer_of, sent_message}
use lcp_go.Relay.Registering.Replacement.{
  IsSignedByOne, replacement_accepted, basic_ok, only_operator,
}

module _ {S E F MsgId : Type 0} (pr : Prover S E F MsgId) (laws : ProverLaws pr)
    (el : EthereumLaws pr.packages.eth) where
  document_of :
      (chain_id : Bytes) (nonce : ℕ) (ops : List Address) (num den : ℕ) (commitment : Bytes)
      → pr.config.operators_eip712_params
        ≡ some (cosmos_chain_params chain_id pr.packages.ibc.store_key)
      → compute_eip712_update_operators_hash pr nonce ops num den ≡ ok commitment
      → (bz : Bytes) × (compute_eip712_cosmos_update_operators pr.packages chain_id
            pr.packages.ibc.store_key pr.path_client_id nonce ops num den
          ≡ ok bz)
        × (commitment ≡ pr.packages.eth.keccak256 bz)
  unfolding compute_eip712_update_operators_hash get_domain_params domain_params_of
      compute_eip712_chain_salt chain_salt_of compute_eip712_cosmos_update_operators int_64
  document_of chain_id nonce ops num den commitment params h =
      let (bz, computed, e) =
        >>=-eq-ok
          (compute_eip712_update_operators pr.packages (pos 0) zero_address
            (compute_cosmos_chain_salt pr.packages chain_id pr.packages.ibc.store_key)
            pr.path_client_id nonce ops num den)
          _ (rw params at h) in
      (bz, computed, sym (ok-injective _ _ e))

  -- what the method has read and signed once it sends a message
  record IsMade (env : E) (nonce : ℕ) (ops : List Address) (threshold : Fraction) (msg : SentMsg)
      (cs : ClientState) : Type 0 where
    thresholds : ((threshold.numerator == 0) || (threshold.denominator == 0)) ≡ false
    below : ltb threshold.denominator threshold.numerator ≡ false
    signer : Signer
    is_set : pr.eip712_signer ≡ some signer
    op : Address
    address : get_signer_address pr.config_packages signer ≡ ok op
    one : cs.operators ≡ op ∷ []
    commitment : Bytes
    hash :
        compute_eip712_update_operators_hash pr nonce ops threshold.numerator threshold.denominator
        ≡ ok commitment
    sig : Bytes
    signed : signer.sign commitment ≡ ok sig
    sent :
        message_for_client pr env (
          Types.update_operators (record {
            nonce = nonce;
            new_operators = ops;
            new_operators_threshold_numerator = threshold.numerator;
            new_operators_threshold_denominator = threshold.denominator;
            signatures = sig ∷ [];
          }))
        ≡ ok msg

  operators_message-IsMade :
      (env : E) (nonce : ℕ) (ops : List Address) (threshold : Fraction) (msg : SentMsg)
      → operators_message pr env nonce ops threshold ≡ ok msg
      → (cs : ClientState) × (query_lcp_client_state pr env ≡ ok cs)
        × IsMade env nonce ops threshold msg cs
  unfolding operators_message require_signer
  operators_message-IsMade env nonce ops threshold msg h =
      let (_, h1) = reject_if-eq-ok (not (is_operator_enabled pr.config)) _ _ h in
      let (_, h2) = reject_if-eq-ok (is_none pr.config.operators_eip712_params) _ _ h1 in
      let (_, h3) = reject_if-eq-ok (nonce == 0) _ _ h2 in
      let (thresholds, h4) =
        reject_if-eq-ok ((threshold.numerator == 0) || (threshold.denominator == 0)) _ _ h3 in
      let (below, h5) = reject_if-eq-ok (ltb threshold.denominator threshold.numerator) _ _ h4 in
      let (cs, read, h6) = >>=-eq-ok (query_lcp_client_state pr env) _ h5 in
      let (some_left, h7) = reject_if-eq-ok (length cs.operators == 0) _ _ h6 in
      let (few, h8) = reject_if-eq-ok (ltb 1 (length cs.operators)) _ _ h7 in
      let (sg, is_set, h9) =
        >>=-eq-ok (elim pr.eip712_signer [ none ↦ panic | some s ↦ ok s ]) _ h8 in
      let (op, address, h10) = >>=-eq-ok (get_signer_address pr.config_packages sg) _ h9 in
      let (same, h11) = reject_if-eq-ok (not (bytes_eq (get_or cs.operators 0 []) op)) _ _ h10 in
      let (commitment, hash, h12) =
        >>=-eq-ok
          (compute_eip712_update_operators_hash pr nonce ops threshold.numerator
            threshold.denominator)
          _ h11 in
      let (sig, signed, h13) = >>=-eq-ok (sg.sign commitment) _ h12 in
      (
        cs,
        read,
        record {
          thresholds = thresholds;
          below = below;
          signer = sg;
          is_set = signer_of pr.eip712_signer sg is_set;
          op = op;
          address = address;
          one =
              only_operator pr.packages el cs.operators op some_left few
                (bytes_eq_sound _ _ (not-eq-false _ same));
          commitment = commitment;
          hash = hash;
          sig = sig;
          signed = signed;
          sent = h13;
        },
      )

  made_accepted :
      (env : E) (nonce : ℕ) (ops : List Address) (threshold : Fraction) (msg : SentMsg)
      (cs : ClientState) (ctx : Context) (s : S)
      → IsMade env nonce ops threshold msg cs
      → pr.config.operators_eip712_params
        ≡ some (cosmos_chain_params ctx.chain_id pr.packages.ibc.store_key)
      → get_client_id pr.packages s ≡ ok pr.path_client_id
      → nonce ≡ (cs.operators_nonce + 1) % two_64
      → All (λ op. length op ≡ 20) ops
      → AreOrdered ops
      → cs.operators_threshold_denominator < two_64
      → (msg.client_id ≡ pr.counterparty_client_id)
        × (verify_client_message pr.packages cs ctx s msg.client_message ≡ ok tt)
  unfolding verify_client_message
  made_accepted env nonce ops threshold msg cs ctx s r params in_store next lengths ordered small =
      let m : UpdateOperatorsMessage = record {
        nonce = nonce;
        new_operators = ops;
        new_operators_threshold_numerator = threshold.numerator;
        new_operators_threshold_denominator = threshold.denominator;
        signatures = r.sig ∷ [];
      } in
      let (carried, id) = sent_message pr laws env (Types.update_operators m) msg r.sent in
      let (bz, document, commits) =
        document_of ctx.chain_id nonce ops threshold.numerator threshold.denominator r.commitment
          params r.hash in
      let recovered : recover_address pr.packages (pr.packages.eth.keccak256 bz) r.sig ≡ ok r.op =
        rw (sym commits)
          (laws.recover-sign r.signer r.commitment r.sig r.op r.is_set r.signed r.address) in
      let w : IsSignedByOne pr.packages el cs ctx s m = record {
        op = r.op;
        sig = r.sig;
        client_id = pr.path_client_id;
        bz = bz;
        one = r.one;
        long =
            length-recover_address pr.packages el (pr.packages.eth.keccak256 bz) r.sig r.op
              recovered;
        signed = refl;
        in_store = in_store;
        document = document;
        recovered = recovered;
      } in
      (
        id,
        rw carried (
            replacement_accepted pr.packages el cs ctx s m w
              (basic_ok pr.packages el m r.thresholds r.below refl) next lengths ordered small),
      )

  -- The replacement of operators that the prover sends is accepted by the client of the counterparty,
  -- with the client state that the prover has read: if the prover is configured for this chain and
  -- its store key, the client has the id of the prover's path, the nonce is the next one, the new
  -- operators are nonzero addresses of 20 bytes in ascending order, and the denominator is below 2^64.
  pub operators_message_accepted :
      (env : E) (nonce : ℕ) (ops : List Address) (threshold : Fraction) (msg : SentMsg)
      (cs : ClientState) (ctx : Context) (s : S)
      → operators_message pr env nonce ops threshold ≡ ok msg
      → query_lcp_client_state pr env ≡ ok cs
      → pr.config.operators_eip712_params
        ≡ some (cosmos_chain_params ctx.chain_id pr.packages.ibc.store_key)
      → get_client_id pr.packages s ≡ ok pr.path_client_id
      → nonce ≡ (cs.operators_nonce + 1) % two_64
      → All (λ op. length op ≡ 20) ops
      → AreOrdered ops
      → cs.operators_threshold_denominator < two_64
      → (msg.client_id ≡ pr.counterparty_client_id)
        × (verify_client_message pr.packages cs ctx s msg.client_message ≡ ok tt)
  operators_message_accepted env nonce ops threshold msg cs ctx s h queried params in_store next
        lengths ordered small =
      let (cs0, read, made) = operators_message-IsMade env nonce ops threshold msg h in
      let same : cs0 ≡ cs = ok-injective cs0 cs (sym read ∙ queried) in
      made_accepted env nonce ops threshold msg cs ctx s
        (subst (λ (c : ClientState). IsMade env nonce ops threshold msg c) same made) params
        in_store next lengths ordered small
