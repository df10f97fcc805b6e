-- ===== src/Examples/SampleProverLaws.antt =====
-- The sample prover behaves as documented.
use lcp_go.Common.{
  ℕ, suc, ◌≡◌, refl, sym, ap, ◌∙◌, subst, Bytes, true, not, ◌&&◌, Option, none, some, List, [], ◌∷◌,
  codes, length, ◌==◌, ==_iff, bytes_eq, bytes_eq_sound, not-eq-false, arith,
}
use lcp_go.Result.{Result, ok, >>=-eq-ok, reject_if-eq-ok, ok-injective}
use lcp_go.Types.{Height, Address, ClientState}
use lcp_go.Packages.{AnyValue}
use lcp_go.Message.{HeaderedProxyMessage, UpdateStateProxyMessage, ElcVerifyMembershipMessage}
use lcp_go.Message.Decode.{
  eth_abi_decode_headered_proxy_message, get_verify_membership_proxy_message,
}
use lcp_go.Eip712.{recover_address}
use lcp_go.Relay.Config.{Signer, get_signer_address}
use lcp_go.Relay.ActiveKey.{EnclaveKeyInfo, UnfinalizedEki}
use lcp_go.Relay.ActiveKey.Finalized.{FileLaws}
use lcp_go.Relay.KeyUpdate.Keeping.{UnfinalizedLaws}
use lcp_go.Relay.Prover.{Response, MsgVerifyMembership, ExportedClientState, ExportedConsensusState}
use lcp_go.Relay.Registering.Laws.{ProverLaws}
use lcp_go.Relay.Elc.Results.{decode_update_state}
use lcp_go.Relay.Elc.Restored.{RestoreLaws}
use lcp_go.Relay.Headers.Initial.{HexLaws}
use lcp_go.Relay.Headers.Proofs.{ProofLaws}
use lcp_go.Examples.Sample.{address, signature_by}
use lcp_go.Examples.Executable.{executable}
use lcp_go.Examples.Restarting.{file_laws}
use lcp_go.Examples.SampleProver.{
  offered_key, marshal_offered, marshal_unfinal, unmarshal_id, key_services, prover_packages,
  signer, config_packages, prover, counterparty_client, exported_client, state_at,
  exported_consensus, created, any_value, pack_proofs, verified,
}

same_key :
    (i : EnclaveKeyInfo)
    → i.enclave_key_address ≡ offered_key.enclave_key_address
    → i.attestation_time ≡ offered_key.attestation_time
    → i.report ≡ offered_key.report
    → i.signature ≡ offered_key.signature
    → i.signing_cert ≡ offered_key.signing_cert
    → i.extension ≡ offered_key.extension
    → i ≡ offered_key
same_key i a t r s c x j = record {
  enclave_key_address = a j;
  attestation_time = t j;
  report = r j;
  signature = s j;
  signing_cert = c j;
  extension = x j;
}

marshal_offered_sound :
    (i : EnclaveKeyInfo) (bz : Bytes) → marshal_offered i ≡ ok bz → i ≡ offered_key
marshal_offered_sound i bz h =
    let (a, h1) =
      reject_if-eq-ok (not (bytes_eq i.enclave_key_address offered_key.enclave_key_address)) _ _
        h in
    let (t, h2) =
      reject_if-eq-ok (not (i.attestation_time == offered_key.attestation_time)) _ _ h1 in
    let (r, h3) = reject_if-eq-ok (not (bytes_eq i.report offered_key.report)) _ _ h2 in
    let (s, h4) = reject_if-eq-ok (not (bytes_eq i.signature offered_key.signature)) _ _ h3 in
    let (c, h5) = reject_if-eq-ok (not (bytes_eq i.signing_cert offered_key.signing_cert)) _ _ h4 in
    let (x, _) = reject_if-eq-ok (not (bytes_eq i.extension offered_key.extension)) _ _ h5 in
    same_key i (bytes_eq_sound _ _ (not-eq-false _ a)) ((==_iff _ _).0 (not-eq-false _ t))
      (bytes_eq_sound _ _ (not-eq-false _ r)) (bytes_eq_sound _ _ (not-eq-false _ s))
      (bytes_eq_sound _ _ (not-eq-false _ c)) (bytes_eq_sound _ _ (not-eq-false _ x))

some-injective : {A : Type 0} (a b : A) → some a ≡ some b → a ≡ b
some-injective a b h = cc

pub key_file_laws : FileLaws key_services
key_file_laws = record {
  read-write = file_laws.read-write;
  read-remove = file_laws.read-remove;
  read-remove_other = file_laws.read-remove_other;
  read_missing = file_laws.read_missing;
  unmarshal-marshal = λ i bz h. ap ok (sym (marshal_offered_sound i bz h));
}

unfinal_inv :
    (o : Option EnclaveKeyInfo) (id bz : Bytes)
    → marshal_unfinal o id ≡ ok bz
    → (o ≡ some offered_key) × (id ≡ bz)
unfinal_inv none id bz h = cc
unfinal_inv (some i) id bz h =
    let (b, marshalled, e) = >>=-eq-ok (marshal_offered i) _ h in
    (ap some (marshal_offered_sound i b marshalled), ok-injective id bz e)

unmarshal_unfinal :
    (u : UnfinalizedEki) (bz : Bytes)
    → marshal_unfinal u.info u.msg_id_bytes ≡ ok bz
    → ok (record { info = some offered_key; msg_id_bytes = bz }) ≡ ok u
unmarshal_unfinal u bz h =
    let (info, id) = unfinal_inv u.info u.msg_id_bytes bz h in
    ap ok (λ j. record { info = sym info j; msg_id_bytes = sym id j })

pub unfinalized_laws : UnfinalizedLaws key_services
unfinalized_laws = record {
  unmarshal-marshal_unfinalized = unmarshal_unfinal;
  unmarshal-marshal_msg_id =
      λ n bz h. subst (λ b. unmarshal_id b ≡ ok n) (ok-injective (n ∷ []) bz h) refl;
}

signed_by_3 : (c : Bytes) → recover_address prover_packages c (signature_by 3) ≡ ok (address 3)
unfolding executable
signed_by_3 c = refl

sample_signs :
    (s : Signer) (c sig : Bytes) (operator : Address)
    → some signer ≡ some s
    → s.sign c ≡ ok sig
    → get_signer_address config_packages s ≡ ok operator
    → recover_address prover_packages c sig ≡ ok operator
unfolding get_signer_address
sample_signs s c sig operator is_set signs address_of =
    let same : signer ≡ s = cc is_set in
    let signed : signature_by 3 ≡ sig =
      ok-injective (signature_by 3) sig (ap (λ (x : Signer). x.sign c) same ∙ signs) in
    let from : ok (address 3) ≡ ok operator =
      ap (λ (x : Signer). get_signer_address config_packages x) same ∙ address_of in
    ap (λ b. recover_address prover_packages c b) (sym signed) ∙ signed_by_3 c ∙ from

pub prover_laws : ProverLaws prover
prover_laws = record {
  recover-sign = λ s c sig operator is_set signs address_of.
      sample_signs s c sig operator is_set signs address_of;
  new_msg_update_client_lem = λ id m s msg h. sym (ok-injective _ msg h);
}

created-height :
    (h : Height) (m : UpdateStateProxyMessage)
    → decode_update_state prover (created (any_value h.revision_number h.revision_height)).message
      ≡ ok m
    → m.post_height ≡ h
unfolding executable decode_update_state
created-height h m decoded =
    ap (λ (x : UpdateStateProxyMessage). x.post_height) (sym (ok-injective _ m decoded))

created_lem :
    (a : AnyValue) (env env' : ℕ) (h : Height) (r : Response) (m : UpdateStateProxyMessage)
    → any_value h.revision_number h.revision_height ≡ a
    → ◌≡◌ {A = ℕ × Result Response} (suc env, ok (created a)) (env', ok r)
    → decode_update_state prover r.message ≡ ok m
    → m.post_height ≡ h
created_lem a env env' h r m e sent decoded =
    let same : created a ≡ r =
      ok-injective (created a) r (ap (λ (x : ℕ × Result Response). x.1) sent) in
    created-height h m (
      ap (λ v. decode_update_state prover (created v).message) e
      ∙ ap (λ (v : Response). decode_update_state prover v.message) same
      ∙ decoded)

deep_equal_sound : (a b : List Bytes) → ((length a == 0) && (length b == 0)) ≡ true → a ≡ b
deep_equal_sound [] [] h = refl
deep_equal_sound [] (x ∷ b) h = absurd (ground (arith, h))
deep_equal_sound (x ∷ a) b h = absurd (ground (arith, h))

pub hex_laws : HexLaws config_packages
hex_laws = record { length-hex_to_address = λ s. refl }

pub restore_laws : RestoreLaws prover
restore_laws = record {
  initial_height = λ env h cs cons e.
      ap (λ (x : ExportedClientState × ExportedConsensusState). x.0.latest_height)
        (sym (ok-injective (state_at h, exported_consensus) (cs, cons) e));
  created_height = λ env env' msg r h cs cons m initial sent packed decoded.
      let same : state_at h ≡ cs =
        ap (λ (x : ExportedClientState × ExportedConsensusState). x.0)
          (ok-injective (state_at h, exported_consensus) (cs, cons) initial) in
      let any_same : any_value h.revision_number h.revision_height ≡ msg.client_state =
        ok-injective _ msg.client_state
          (ap (λ (x : ExportedClientState). x.packed) same ∙ packed) in
      created_lem msg.client_state env env' h r m any_same sent decoded
      ∙ ap (λ (x : ExportedClientState). x.latest_height) same;
  as_lcp_height = λ a x cs e casted.
      let same : exported_client ≡ x = ok-injective exported_client x e in
      ap (λ (y : ExportedClientState). y.latest_height) (sym same)
      ∙ ap (λ (c : ClientState). c.latest_height)
          (some-injective counterparty_client cs
            (ap (λ (y : ExportedClientState). y.as_lcp) same ∙ casted));
  deep_equal_sound = deep_equal_sound;
}

verified_about :
    (msg : MsgVerifyMembership) (r : Response)
    → verified msg ≡ ok r
    → (codes "ibc" ≡ msg.prefix)
      × (8 ∷ [] ≡ msg.path)
      × (1 ∷ [] ≡ msg.value)
      × (r.message ≡ 1 ∷ 2 ∷ 5 ∷ 9 ∷ 8 ∷ 1 ∷ [])
verified_about msg r h =
    let (prefix, h1) = reject_if-eq-ok (not (bytes_eq msg.prefix (codes "ibc"))) _ _ h in
    let (path, h2) = reject_if-eq-ok (not (bytes_eq msg.path (8 ∷ []))) _ _ h1 in
    let (value, h3) = reject_if-eq-ok (not (bytes_eq msg.value (1 ∷ []))) _ _ h2 in
    (
      sym (bytes_eq_sound _ _ (not-eq-false _ prefix)),
      sym (bytes_eq_sound _ _ (not-eq-false _ path)),
      sym (bytes_eq_sound _ _ (not-eq-false _ value)),
      ap (λ (x : Response). x.message) (sym (ok-injective _ r h3)),
    )

abbrev statement : ElcVerifyMembershipMessage
statement = record {
  prefix = codes "ibc";
  path = 8 ∷ [];
  value = 1 ∷ [];
  height = record { revision_number = 0; revision_height = 5 };
  state_id = 9 ∷ [];
}

statement_of :
    (m : HeaderedProxyMessage) (sc : ElcVerifyMembershipMessage)
    → eth_abi_decode_headered_proxy_message prover_packages.abi (1 ∷ 2 ∷ 5 ∷ 9 ∷ 8 ∷ 1 ∷ []) ≡ ok m
    → get_verify_membership_proxy_message prover_packages.abi m ≡ ok sc
    → statement ≡ sc
unfolding executable
statement_of m sc headered typed = ok-injective statement sc (
    ap (λ x. get_verify_membership_proxy_message prover_packages.abi x) (ok-injective _ m headered)
    ∙ typed)

unpack-pack_proofs :
    (m : Bytes) (sigs : List Bytes) (bz : Bytes)
    → pack_proofs m sigs ≡ ok bz
    → prover_packages.abi.unpack_commitment_proofs bz ≡ ok (m, sigs)
unpack-pack_proofs (a ∷ b ∷ c ∷ d ∷ e ∷ f ∷ []) (s ∷ []) bz h =
    subst
      (λ x.
        prover_packages.abi.unpack_commitment_proofs x ≡ ok (a ∷ b ∷ c ∷ d ∷ e ∷ f ∷ [], s ∷ []))
      (ok-injective _ bz h) refl
unpack-pack_proofs [] sigs bz h = cc
unpack-pack_proofs (a ∷ []) sigs bz h = cc
unpack-pack_proofs (a ∷ b ∷ []) sigs bz h = cc
unpack-pack_proofs (a ∷ b ∷ c ∷ []) sigs bz h = cc
unpack-pack_proofs (a ∷ b ∷ c ∷ d ∷ []) sigs bz h = cc
unpack-pack_proofs (a ∷ b ∷ c ∷ d ∷ e ∷ []) sigs bz h = cc
unpack-pack_proofs (a ∷ b ∷ c ∷ d ∷ e ∷ f ∷ g ∷ m) sigs bz h = cc
unpack-pack_proofs (a ∷ b ∷ c ∷ d ∷ e ∷ f ∷ []) [] bz h = cc
unpack-pack_proofs (a ∷ b ∷ c ∷ d ∷ e ∷ f ∷ []) (s ∷ t ∷ sigs) bz h = cc

pub proof_laws : ProofLaws prover
proof_laws = record {
  about = λ env env' msg r m sc sent headered typed.
      let (prefix, path, value, message) =
        verified_about msg r (ap (λ (x : ℕ × Result Response). x.1) sent) in
      let same : statement ≡ sc =
        statement_of m sc
          (ap (λ b. eth_abi_decode_headered_proxy_message prover_packages.abi b) (sym message)
            ∙ headered)
          typed in
      (
        ap (λ (x : ElcVerifyMembershipMessage). x.prefix) (sym same) ∙ prefix,
        ap (λ (x : ElcVerifyMembershipMessage). x.path) (sym same) ∙ path,
        ap (λ (x : ElcVerifyMembershipMessage). x.value) (sym same) ∙ value,
      );
  unpack-pack_commitment_proofs = unpack-pack_proofs;
}
