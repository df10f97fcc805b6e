-- ===== src/Relay/Registering/KeyAcceptance.antt =====
-- The client accepts the registration that the prover sends.
use lcp_go.Common.{
  ◌≡◌, ◌⊎◌, inl, inr, refl, sym, ap, Bytes, Bool, true, false, not, ◌&&◌, some, none, Option, [],
  length, ltb, ◌==◌, bytes_eq, not-eq-false, arith,
}
use lcp_go.Result.{ok, panic, map_err, >>=-eq-ok, reject_if-eq-ok, ok-injective}
use lcp_go.GoTime.{Time}
use lcp_go.Types
use lcp_go.Types.{Address, ClientState, Context, ClientMessage, RegisterEnclaveKeyMessage}
use lcp_go.Packages.{Packages, Avr, Quote}
use lcp_go.Ias.{verify_report, parse_and_validate_avr, get_ek_and_operator, get_timestamp}
use lcp_go.Eip712.{zero_address, recover_address, compute_eip712_register_enclave_key_hash}
use lcp_go.EnclaveKey.{contains, check_quote_status, report_operator, verify_register_enclave_key}
use lcp_go.Update.{verify_client_message}
use lcp_go.Relay.Config.{Signer, is_operator_enabled, get_signer_address}
use lcp_go.Relay.ActiveKey.{EnclaveKeyInfo}
use lcp_go.Relay.Prover.{Prover, SentMsg}
use lcp_go.Relay.Registering.Counterparty.{
  query_lcp_client_state, require_signer, message_for_client,
}
use lcp_go.Relay.Registering.KeyMessage.{operator_signature, registration_message}
use lcp_go.Relay.Registering.Laws.{ProverLaws}

pub signer_of :
    (o : Option Signer) (s : Signer) → (elim o [ none ↦ panic | some s ↦ ok s ]) ≡ ok s → o ≡ some s
signer_of none s h = cc
signer_of (some t) s h = ap some (ok-injective t s h)

module _ {S : Type 0} (p : Packages S) where
  pub recovered_length :
      (c sig : Bytes) (a : Address) → recover_address p c sig ≡ ok a → ltb 0 (length sig) ≡ true
  unfolding recover_address
  recovered_length c sig a h =
      let (n, _) = reject_if-eq-ok (not (length sig == 65)) _ _ h in ground (arith, n)

  signed_report :
      (m : RegisterEnclaveKeyMessage) (c : Bytes) (a : Address)
      → compute_eip712_register_enclave_key_hash p m.report ≡ ok c
      → recover_address p c m.operator_signature ≡ ok a
      → report_operator p m ≡ ok a
  unfolding report_operator
  signed_report m c a hash recovered =
      rw (recovered_length c m.operator_signature a recovered) (rw hash (rw recovered refl))

  unsigned_report :
      (m : RegisterEnclaveKeyMessage)
      → m.operator_signature ≡ []
      → report_operator p m ≡ ok zero_address
  unfolding report_operator
  unsigned_report m h = rw h refl

  -- the test of the operator against the one in the report
  abbrev pub operator_differs : Address → Address → Bool
  operator_differs expected operator =
      not (bytes_eq expected zero_address) && not (bytes_eq operator expected)

  report_accepted :
      (cs : ClientState) (ctx : Context) (s : S) (m : RegisterEnclaveKeyMessage) (avr : Avr)
      (quote : Quote) (ek expected operator : Address) (t : Time)
      → verify_report p m.report m.signature m.signing_cert ctx.block_time ≡ ok tt
      → parse_and_validate_avr p m.report ≡ ok avr
      → check_quote_status p cs avr.quote_status avr.advisory_ids ≡ ok tt
      → p.ias.avr_quote avr ≡ ok quote
      → bytes_eq cs.mrenclave quote.mrenclave ≡ true
      → report_operator p m ≡ ok operator
      → get_ek_and_operator p quote ≡ ok (ek, expected)
      → operator_differs expected operator ≡ false
      → get_timestamp p avr ≡ ok t
      → contains p s ek ≡ false
      → verify_register_enclave_key p cs ctx s m ≡ ok tt
  unfolding verify_register_enclave_key
  report_accepted cs ctx s m avr quote ek expected operator t v a q qu me o k d ti c =
      rw v (rw a (rw q (rw qu (rw me (rw o (rw k (rw d (rw ti (rw c refl)))))))))

module _ {S E F MsgId : Type 0} (pr : Prover S E F MsgId) (laws : ProverLaws pr) where
  operator_signature_accepted :
      (enabled : Bool) (cs : ClientState) (expected : Address) (m : RegisterEnclaveKeyMessage)
      → (enabled ≡ true) ⊎ (expected ≡ zero_address)
      → operator_signature pr enabled cs expected m.report ≡ ok m.operator_signature
      → (operator : Address) × (report_operator pr.packages m ≡ ok operator)
        × (operator_differs pr.packages expected operator ≡ false)
  unfolding operator_signature require_signer bytes_eq
  operator_signature_accepted false cs expected m (inl e) h = cc
  operator_signature_accepted false cs expected m (inr e) h =
      (zero_address, unsigned_report pr.packages m (sym (ok-injective [] _ h)), rw e refl)
  operator_signature_accepted true cs expected m w h =
      let (s, is_set, h1) =
        >>=-eq-ok (elim pr.eip712_signer [ none ↦ panic | some s ↦ ok s ]) _ h in
      let (op, address, h2) = >>=-eq-ok (get_signer_address pr.config_packages s) _ h1 in
      let (_, h3) = reject_if-eq-ok _ _ _ h2 in
      let (same, h4) = reject_if-eq-ok (operator_differs pr.packages expected op) _ _ h3 in
      let (c, hash, signed) =
        >>=-eq-ok (compute_eip712_register_enclave_key_hash pr.packages m.report) _ h4 in
      (
        op,
        signed_report pr.packages m c op hash (
            laws.recover-sign s c m.operator_signature op (signer_of pr.eip712_signer s is_set)
              signed address),
        same,
      )

  pub sent_message :
      (env : E) (m : ClientMessage) (msg : SentMsg)
      → message_for_client pr env m ≡ ok msg
      → (msg.client_message ≡ m) × (msg.client_id ≡ pr.counterparty_client_id)
  unfolding message_for_client
  sent_message env m msg h =
      let (signer, _, h1) = >>=-eq-ok (pr.get_address env) _ h in
      let e = laws.new_msg_update_client_lem pr.counterparty_client_id m signer msg h1 in
      (ap (λ (x : SentMsg). x.client_message) e, ap (λ (x : SentMsg). x.client_id) e)

  -- The registration that the prover sends is accepted by the client of the counterparty, with the
  -- client state that the prover has read: if the prover has an operator or the report names none, the
  -- report is verified at the block's time and has a readable time, the client's test of its quote
  -- status passes, and the enclave key is not registered yet.
  pub registration_message_accepted :
      (env : E) (eki : EnclaveKeyInfo) (msg : SentMsg) (cs : ClientState) (ctx : Context) (s : S)
      (avr : Avr) (quote : Quote) (ek expected : Address) (t : Time)
      → registration_message pr env eki ≡ ok msg
      → query_lcp_client_state pr env ≡ ok cs
      → parse_and_validate_avr pr.packages eki.report ≡ ok avr
      → pr.packages.ias.avr_quote avr ≡ ok quote
      → get_ek_and_operator pr.packages quote ≡ ok (ek, expected)
      → (is_operator_enabled pr.config ≡ true) ⊎ (expected ≡ zero_address)
      → verify_report pr.packages eki.report eki.signature eki.signing_cert ctx.block_time ≡ ok tt
      → get_timestamp pr.packages avr ≡ ok t
      → check_quote_status pr.packages cs avr.quote_status avr.advisory_ids ≡ ok tt
      → contains pr.packages s ek ≡ false
      → (msg.client_id ≡ pr.counterparty_client_id)
        × (verify_client_message pr.packages cs ctx s msg.client_message ≡ ok tt)
  unfolding registration_message verify_client_message
  registration_message_accepted env eki msg cs ctx s avr quote ek expected t h queried parsed quoted
        keyed who verified timed status fresh =
      let (_, _, h1) =
        >>=-eq-ok
          (map_err _
            (verify_report pr.packages eki.report eki.signature eki.signing_cert (pr.now env)))
          _ h in
      let (other, h2) =
        reject_if-eq-ok (not (bytes_eq cs.mrenclave quote.mrenclave)) _ _
          (rw (parsed, quoted, keyed, queried) at h1) in
      let (sig, signed, h3) =
        >>=-eq-ok (operator_signature pr (is_operator_enabled pr.config) cs expected eki.report) _
          h2 in
      let m : RegisterEnclaveKeyMessage = record {
        report = eki.report;
        signature = eki.signature;
        signing_cert = eki.signing_cert;
        operator_signature = sig;
      } in
      let (op, reported, same) =
        operator_signature_accepted (is_operator_enabled pr.config) cs expected m who signed in
      let (carried, id) = sent_message env (Types.register_enclave_key m) msg h3 in
      (
        id,
        rw carried (
            report_accepted pr.packages cs ctx s m avr quote ek expected op t verified parsed status
              quoted (not-eq-false _ other) reported keyed same timed fresh),
      )
