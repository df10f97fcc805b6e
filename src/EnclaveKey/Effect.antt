-- ===== src/EnclaveKey/Effect.antt =====
-- What a registration changes: one new record at most, and none that is there.
use lcp_go.Common.{
  ◌≡◌, ◌≢◌, ◌⊎◌, inl, inr, ◌∙◌, refl, sym, ap, subst, Bytes, Bool, true, false, some, List, [], ◌∷◌,
  length, ltb, Bool-cases, arith, if◌then◌else◌,
}
use lcp_go.Result.{
  Result, ok, err, panic, ◌>>◌, map_err, or_panic, >>=-eq-ok, reject_if-eq-ok, map_err-eq-ok,
  ok-injective,
}
use lcp_go.GoTime.{Time}
use lcp_go.Types.{Address, ClientState, Context, RegisterEnclaveKeyMessage}
use lcp_go.Packages.{Packages, Quote}
use lcp_go.Packages.Documented.{KvStoreLaws, IbcLaws, EthereumLaws}
use lcp_go.Ias.{parse_and_validate_avr, get_ek_and_operator, get_timestamp}
use lcp_go.Eip712.{zero_address, recover_address, compute_eip712_register_enclave_key_hash}
use lcp_go.EnclaveKey.{
  EkInfo, Event, registered, contains, get_ek_info, ensure_ek_info_match, set_ek_info,
  report_operator, verify_register_enclave_key, register_enclave_key,
}
use lcp_go.EnclaveKey.Info.{
  info_of, get_ek_info-set_ek_self, get_ek_info-set_ek_ne, ensure_sound, ensure_complete,
}
use lcp_go.EnclaveKey.Registration.{Reading, Accepted, expires, verify_register_enclave_key_sound}

module _ {S : Type 0} (p : Packages S) where
  or_panic-inv {ℓ} : {A : Type ℓ} (r : Result A) {a : A} → or_panic r ≡ ok a → r ≡ ok a
  or_panic-inv (ok a) h = h
  or_panic-inv (err e) h = cc
  or_panic-inv panic h = cc

  -- the state after a registration, by the reading of the message
  abbrev pub Registered :
      {cs : ClientState} {m : RegisterEnclaveKeyMessage} → S → S → Reading p cs m → Type 0
  Registered s s' r =
      ((s' ≡ s) × (get_ek_info p s r.ek ≡ ok (some (info_of r.operator (expires p r)))))
      ⊎ ((contains p s r.ek ≡ false) × (s' ≡ set_ek_info p s r.ek r.operator (expires p r)))

  finish : S → Address → Address → Time → Bool → Result (S × List Event)
  finish s ek operator t b =
      if b
      then (do or_panic (ensure_ek_info_match p s ek operator t); ok (s, []))
      else ok (set_ek_info p s ek operator t, registered ek t operator ∷ [])

  finish-cases :
      (s s' : S) (ek operator : Address) (t : Time) (ev : List Event) (b : Bool)
      → finish s ek operator t b ≡ ok (s', ev)
      → ((s' ≡ s) × (get_ek_info p s ek ≡ ok (some (info_of operator t))))
        ⊎ ((b ≡ false) × (s' ≡ set_ek_info p s ek operator t))
  unfolding finish
  finish-cases s s' ek operator t ev true h =
      let (_, matched, h') = >>=-eq-ok (or_panic (ensure_ek_info_match p s ek operator t)) _ h in
      inl (cc, ensure_sound p s ek operator t (or_panic-inv _ matched))
  finish-cases s s' ek operator t ev false h = inr (refl, cc)

  pub register_enclave_key-inv :
      (cs : ClientState) (s s' : S) (m : RegisterEnclaveKeyMessage) (ev : List Event)
      → register_enclave_key p cs s m ≡ ok (s', ev)
      → (r : Reading p cs m) × Registered s s' r
  unfolding register_enclave_key finish
  register_enclave_key-inv cs s s' m ev h =
      let (avr, decoded, h1) = >>=-eq-ok (or_panic (parse_and_validate_avr p m.report)) _ h in
      let (quote, quoted, h2) = >>=-eq-ok (or_panic (p.ias.avr_quote avr)) _ h1 in
      let (keys, keyed, h3) = >>=-eq-ok (or_panic (get_ek_and_operator p quote)) _ h2 in
      let (operator, signed, h4) = >>=-eq-ok (or_panic (report_operator p m)) _ h3 in
      let (timestamp, timed, h5) = >>=-eq-ok (get_timestamp p avr) _ h4 in
      (
        record {
          avr = avr;
          quote = quote;
          ek = keys.0;
          expected_operator = keys.1;
          operator = operator;
          timestamp = timestamp;
          decoded = or_panic-inv _ decoded;
          quoted = or_panic-inv _ quoted;
          keys = or_panic-inv _ keyed;
          signed = or_panic-inv _ signed;
          timed = timed;
        },
        finish-cases s s' keys.0 operator _ ev (contains p s keys.0) h5,
      )

  register_enclave_key-eq :
      (cs : ClientState) (s : S) (m : RegisterEnclaveKeyMessage) (r : Reading p cs m)
      → register_enclave_key p cs s m ≡ finish s r.ek r.operator (expires p r) (contains p s r.ek)
  unfolding register_enclave_key finish
  register_enclave_key-eq cs s m r =
      rw (r.decoded) (rw (r.quoted) (rw (r.keys) (rw (r.signed) (rw (r.timed) refl))))

  finish-known :
      (s : S) (ek operator : Address) (t : Time) (b : Bool)
      → b ≡ true
      → get_ek_info p s ek ≡ ok (some (info_of operator t))
      → finish s ek operator t b ≡ ok (s, [])
  unfolding finish
  finish-known s ek operator t b e h = rw e (rw (ensure_complete p s ek operator t h) refl)

  finish-new :
      (s : S) (ek operator : Address) (t : Time) (b : Bool)
      → b ≡ false
      → finish s ek operator t b ≡ ok (set_ek_info p s ek operator t, registered ek t operator ∷ [])
  unfolding finish
  finish-new s ek operator t b e = rw e refl

module _ {S : Type 0} (p : Packages S) (el : EthereumLaws p.eth) where
  pub length-recover_address :
      (c sig : Bytes) (a : Address) → recover_address p c sig ≡ ok a → length a ≡ 20
  unfolding recover_address
  length-recover_address c sig a h =
      let (_, h1) = reject_if-eq-ok _ _ _ h in
      let (k, _, h2) = >>=-eq-ok (p.eth.recover_pubkey c sig) _ h1 in
      let (key, _, h3) = >>=-eq-ok (p.eth.unmarshal_pubkey k) _ h2 in
      subst (λ b. length b ≡ 20) (ok-injective _ _ h3) (el.length-pubkey_to_address key)

module _ {S : Type 0} (p : Packages S) (kl : KvStoreLaws p.kv) (il : IbcLaws p.ibc)
    (el : EthereumLaws p.eth) where
  length-report_operator :
      (m : RegisterEnclaveKeyMessage) (a : Address) → report_operator p m ≡ ok a → length a ≡ 20
  unfolding report_operator
  length-report_operator m a h = elim (Bool-cases (ltb 0 (length m.operator_signature))) [
    | inl e ↦
        let (c, _, h1) =
          >>=-eq-ok (map_err _ (compute_eip712_register_enclave_key_hash p m.report)) _
            (rw e at h) in
        length-recover_address p el c m.operator_signature a (map_err-eq-ok _ _ h1)
    | inr e ↦ subst (λ b. length b ≡ 20) (ok-injective zero_address a (rw e at h)) refl
  ]

  length-ek :
      (q : Quote) (ek operator : Address)
      → get_ek_and_operator p q ≡ ok (ek, operator)
      → length ek ≡ 20
  unfolding get_ek_and_operator
  length-ek q ek operator h =
      let (_, _, h1) = >>=-eq-ok (p.ias.quote_verify q) _ h in
      let (_, h2) = reject_if-eq-ok _ _ _ h1 in
      subst (λ b. length b ≡ 20) (ap (λ (k : Address × Address). k.0) (ok-injective _ _ h2))
        (el.length-bytes_to_address _)

  contains_of_info :
      (s : S) (ek : Address) (i : EkInfo)
      → get_ek_info p s ek ≡ ok (some i)
      → contains p s ek ≡ true
  unfolding get_ek_info
  contains_of_info s ek i h = ground arith

  register-Accepted :
      (cs : ClientState) (ctx : Context) (s : S) (m : RegisterEnclaveKeyMessage)
      (r : Reading p cs m) (a : Accepted p ctx s r)
      → (s' : S) × (ev : List Event) × (register_enclave_key p cs s m ≡ ok (s', ev))
        × Registered p s s' r
  register-Accepted cs ctx s m r a = elim a.fresh_or_same [
    | inl new ↦ (
      set_ek_info p s r.ek r.operator (expires p r),
      registered r.ek (expires p r) r.operator ∷ [],
      register_enclave_key-eq p cs s m r ∙ finish-new p s r.ek r.operator _ _ new,
      inr (new, refl),
    )
    | inr known ↦ (
      s,
      [],
      register_enclave_key-eq p cs s m r
          ∙ finish-known p s r.ek r.operator _ _ (contains_of_info s r.ek _ known) known,
      inl (refl, known),
    )
  ]

  -- what the store tells of enclave keys after a registration
  Registered-info :
      (cs : ClientState) (s s' : S) (m : RegisterEnclaveKeyMessage) (r : Reading p cs m)
      → Registered p s s' r
      → (get_ek_info p s' r.ek ≡ ok (some (info_of r.operator (expires p r))))
        × ((a : Address) → length a ≡ 20 → a ≢ r.ek → get_ek_info p s' a ≡ get_ek_info p s a)
  Registered-info cs s s' m r (inl (same, known)) =
      (ap (λ t. get_ek_info p t r.ek) same ∙ known, λ a la n. ap (λ t. get_ek_info p t a) same)
  Registered-info cs s s' m r (inr (new, set)) = (
    ap (λ t. get_ek_info p t r.ek) set
        ∙ get_ek_info-set_ek_self p kl il el s r.ek r.operator (expires p r)
            (length-report_operator m r.operator r.signed),
    λ a la n.
        ap (λ t. get_ek_info p t a) set
        ∙ get_ek_info-set_ek_ne p kl il el s r.ek a r.operator (expires p r)
            (length-ek r.quote r.ek r.expected_operator r.keys) la (λ e. n (sym e)),
  )

  -- After a registration was verified, carrying it out succeeds. The key of the report is then
  -- recorded with the operator that signed and with the report's time plus the key expiration,
  -- and what is recorded for every other address of 20 bytes is unchanged.
  pub register-verified :
      (cs : ClientState) (ctx : Context) (s : S) (m : RegisterEnclaveKeyMessage)
      → verify_register_enclave_key p cs ctx s m ≡ ok tt
      → (r : Reading p cs m) × (s' : S) × (ev : List Event) × (register_enclave_key p cs s m
          ≡ ok (s', ev))
        × (get_ek_info p s' r.ek ≡ ok (some (info_of r.operator (expires p r))))
        × ((a : Address) → length a ≡ 20 → a ≢ r.ek → get_ek_info p s' a ≡ get_ek_info p s a)
  register-verified cs ctx s m h =
      let (r, a) = verify_register_enclave_key_sound p cs ctx s m h in
      let (s', ev, done, w) = register-Accepted cs ctx s m r a in
      let (self, others) = Registered-info cs s s' m r w in (r, s', ev, done, self, others)

  contains-info_ne :
      (s : S) (ek : Address) (i : EkInfo)
      → contains p s ek ≡ false
      → get_ek_info p s ek ≡ ok (some i)
      → ⊥
  contains-info_ne s ek i new h = cc (new, contains_of_info s ek i h)

  -- A registration that succeeds, verified or not, leaves every record of an enclave key with an
  -- address of 20 bytes as it was: neither its expiry nor its operator can be changed.
  pub register-keeps :
      (cs : ClientState) (s s' : S) (m : RegisterEnclaveKeyMessage) (ev : List Event) (a : Address)
      (i : EkInfo)
      → length a ≡ 20
      → register_enclave_key p cs s m ≡ ok (s', ev)
      → get_ek_info p s a ≡ ok (some i)
      → get_ek_info p s' a ≡ ok (some i)
  register-keeps cs s s' m ev a i la h known =
      let (r, w) = register_enclave_key-inv p cs s s' m ev h in keep r w
    where
      keep : (r : Reading p cs m) → Registered p s s' r → get_ek_info p s' a ≡ ok (some i)
      keep r (inl (same, _)) = ap (λ t. get_ek_info p t a) same ∙ known
      keep r (inr (new, set)) =
          (Registered-info cs s s' m r (inr (new, set))).1 a la (λ e.
            contains-info_ne s r.ek i new (subst (λ b. get_ek_info p s b ≡ ok (some i)) e known))
          ∙ known
