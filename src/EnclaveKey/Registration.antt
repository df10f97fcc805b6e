-- ===== src/EnclaveKey/Registration.antt =====
-- What an accepted registration of an enclave key rests on.
use lcp_go.Common.{
  ◌≡◌, ◌⊎◌, inl, inr, refl, Bool, true, false, not, ◌&&◌, some, bytes_eq, bytes_eq_iff,
  bytes_eq_sound, not-eq-false, arith, if◌then◌else◌,
}
use lcp_go.Result.{
  ok, map_err, wrap, >>=-eq-ok, reject_if-eq-ok, map_err-eq-ok, invalid_header, ek_info_mismatch,
}
use lcp_go.GoTime.{Time, seconds, add_duration}
use lcp_go.Types.{Address, ClientState, Context, RegisterEnclaveKeyMessage}
use lcp_go.Packages.{Packages, Avr, Quote}
use lcp_go.Ias.{verify_report, parse_and_validate_avr, get_ek_and_operator, get_timestamp}
use lcp_go.Eip712.{zero_address}
use lcp_go.EnclaveKey.{
  contains, get_ek_info, ensure_ek_info_match, report_operator, check_quote_status,
  verify_register_enclave_key,
}
use lcp_go.EnclaveKey.Status.{IsAllowedQuote, check_quote_status_sound}
use lcp_go.EnclaveKey.Info.{info_of, ensure_sound}

module _ {S : Type 0} (p : Packages S) where
  -- what a registration message says, as both passes over it read it
  pub record Reading (cs : ClientState) (m : RegisterEnclaveKeyMessage) : Type 0 where
    pub avr : Avr
    pub quote : Quote
    pub ek : Address
    pub expected_operator : Address
    pub operator : Address
    pub timestamp : Time
    pub decoded : parse_and_validate_avr p m.report ≡ ok avr
    pub quoted : p.ias.avr_quote avr ≡ ok quote
    pub keys : get_ek_and_operator p quote ≡ ok (ek, expected_operator)
    pub signed : report_operator p m ≡ ok operator
    pub timed : get_timestamp p avr ≡ ok timestamp

  module _ {cs : ClientState} {m : RegisterEnclaveKeyMessage} where
    abbrev pub expires : Reading cs m → Time
    expires r = add_duration r.timestamp (seconds cs.key_expiration)

    -- The conditions under which a report is accepted.
    pub record Accepted (ctx : Context) (s : S) (r : Reading cs m) : Type 0 where
      pub attested : verify_report p m.report m.signature m.signing_cert ctx.block_time ≡ ok tt
      pub allowed : IsAllowedQuote p cs r.avr.quote_status r.avr.advisory_ids
      pub same_enclave : cs.mrenclave ≡ r.quote.mrenclave
      pub operator_bound : (r.expected_operator ≡ zero_address) ⊎ (r.operator ≡ r.expected_operator)
      pub fresh_or_same :
          (contains p s r.ek ≡ false)
          ⊎ (get_ek_info p s r.ek ≡ ok (some (info_of r.operator (expires r))))

  bound_cases :
      (expected operator : Address)
      → (not (bytes_eq expected zero_address) && not (bytes_eq operator expected)) ≡ false
      → (expected ≡ zero_address) ⊎ (operator ≡ expected)
  bound_cases expected operator h =
      ground (arith, bytes_eq_iff expected zero_address, bytes_eq_iff operator expected)

  fresh_cases :
      (s : S) (ek operator : Address) (t : Time) (b : Bool)
      → (if b
          then map_err
              (wrap invalid_header ek_info_mismatch)
              (ensure_ek_info_match p s ek operator t)
          else ok tt)
        ≡ ok tt
      → (b ≡ false) ⊎ (get_ek_info p s ek ≡ ok (some (info_of operator t)))
  fresh_cases s ek operator t true h = inr (ensure_sound p s ek operator t (map_err-eq-ok _ _ h))
  fresh_cases s ek operator t false h = inl refl

  -- A registration that is verified was attested by a report that the verification of reports accepts
  -- at the block's time. Its quote status is the good one, without advisories, or another one that the
  -- client state lists, with no advisories or with advisories that the client state's list contains.
  -- The report is by the client's enclave, for the operator that signed the report if the report names
  -- one; and the key is new or recorded with the same data.
  pub verify_register_enclave_key_sound :
      (cs : ClientState) (ctx : Context) (s : S) (m : RegisterEnclaveKeyMessage)
      → verify_register_enclave_key p cs ctx s m ≡ ok tt
      → (r : Reading cs m) × Accepted ctx s r
  unfolding verify_register_enclave_key
  verify_register_enclave_key_sound cs ctx s m h =
      let (_, attested, h1) =
        >>=-eq-ok (map_err _ (verify_report p m.report m.signature m.signing_cert ctx.block_time)) _
          h in
      let (avr, decoded, h2) = >>=-eq-ok (map_err _ (parse_and_validate_avr p m.report)) _ h1 in
      let (_, allowed, h3) =
        >>=-eq-ok (check_quote_status p cs avr.quote_status avr.advisory_ids) _ h2 in
      let (quote, quoted, h4) = >>=-eq-ok (p.ias.avr_quote avr) _ h3 in
      let (same, h5) = reject_if-eq-ok _ _ _ h4 in
      let (operator, signed, h6) = >>=-eq-ok (report_operator p m) _ h5 in
      let (keys, keyed, h7) = >>=-eq-ok (map_err _ (get_ek_and_operator p quote)) _ h6 in
      let (bound, h8) = reject_if-eq-ok _ _ _ h7 in
      let (timestamp, timed, h9) = >>=-eq-ok (get_timestamp p avr) _ h8 in
      (
        record {
          avr = avr;
          quote = quote;
          ek = keys.0;
          expected_operator = keys.1;
          operator = operator;
          timestamp = timestamp;
          decoded = map_err-eq-ok _ _ decoded;
          quoted = quoted;
          keys = map_err-eq-ok _ _ keyed;
          signed = signed;
          timed = timed;
        },
        record {
          attested = map_err-eq-ok _ _ attested;
          allowed = check_quote_status_sound p cs avr.quote_status avr.advisory_ids allowed;
          same_enclave = bytes_eq_sound _ _ (not-eq-false _ same);
          operator_bound = bound_cases _ _ bound;
          fresh_or_same = fresh_cases s keys.0 operator _ _ h9;
        },
      )
