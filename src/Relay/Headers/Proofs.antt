-- ===== src/Relay/Headers/Proofs.antt =====
-- What the client of the counterparty makes of the proof that the prover gives.
use lcp_go.Common.{
  ◌≡◌, refl, ap, ◌∙◌, Bytes, false, true, not, List, [], ◌∷◌, bytes_eq, bytes_eq_refl, ◌==◌, ==_iff,
}
use lcp_go.Result.{
  Result, ok, map_err, reject_if, ◌>>◌, >>=-eq-ok, map_err-eq-ok, ok-injective, wrapped, plain,
  invalid_state_commitment, state_id_mismatch,
}
use lcp_go.Types.{Height, ClientState, ConsensusState, Context}
use lcp_go.Packages.Documented.{IbcLaws}
use lcp_go.Message.{HeaderedProxyMessage, ElcVerifyMembershipMessage}
use lcp_go.Message.Decode.{
  eth_abi_decode_headered_proxy_message, get_verify_membership_proxy_message, get_message,
  eth_abi_encode_commitment_proofs, eth_abi_decode_commitment_proofs,
}
use lcp_go.Store.{get_consensus_state}
use lcp_go.Signatures.{verify_signatures}
use lcp_go.Client.{check_membership_message, verify_commitment}
use lcp_go.Relay.Prover.{Prover, ProverState, Response, MsgVerifyMembership}
use lcp_go.Relay.Action.{>>=-inv, reads-inv, pure-inv, with_error-inv}
use lcp_go.Relay.Headers.{call_membership, prove_state}
use lcp_go.Relay.Headers.Messages.{membership_proof}

-- The message that the LCP service signs is about what it was asked to verify, with the hash of the
-- value, and the ABI encoding of proofs is undone by its decoding.
pub record ProofLaws {S E F MsgId : Type 0} (pr : Prover S E F MsgId) : Type 0 where
  pub about :
      (env env' : E) (msg : MsgVerifyMembership) (r : Response) (m : HeaderedProxyMessage)
      (sc : ElcVerifyMembershipMessage)
      → pr.membership msg env ≡ (env', ok r)
      → eth_abi_decode_headered_proxy_message pr.packages.abi r.message ≡ ok m
      → get_verify_membership_proxy_message pr.packages.abi m ≡ ok sc
      → (sc.prefix ≡ msg.prefix)
        × (sc.path ≡ msg.path)
        × (sc.value ≡ pr.packages.eth.keccak256 msg.value)
  pub unpack-pack_commitment_proofs :
      (message : Bytes) (signatures : List Bytes) (bz : Bytes)
      → pr.packages.abi.pack_commitment_proofs message signatures ≡ ok bz
      → pr.packages.abi.unpack_commitment_proofs bz ≡ ok (message, signatures)

bytes_eq_of : (a b : Bytes) → a ≡ b → bytes_eq b a ≡ true
bytes_eq_of a b e = ap (λ l. bytes_eq b l) e ∙ bytes_eq_refl b

module _ {S E F MsgId : Type 0} (pr : Prover S E F MsgId) (laws : ProofLaws pr)
    (il : IbcLaws pr.packages.ibc) where
  -- the message in the proof, and what it is about
  record IsAbout (path value proof : Bytes) (height : Height) (r : Response)
      (m : HeaderedProxyMessage) (sc : ElcVerifyMembershipMessage) : Type 0 where
    headered : eth_abi_decode_headered_proxy_message pr.packages.abi r.message ≡ ok m
    typed : get_verify_membership_proxy_message pr.packages.abi m ≡ ok sc
    unpacked :
        eth_abi_decode_commitment_proofs pr.packages.abi proof
        ≡ ok (record { message = r.message; signatures = r.signature ∷ [] })
    same_height : sc.height ≡ height
    same_prefix : sc.prefix ≡ pr.packages.ibc.store_key
    same_path : sc.path ≡ path
    same_value : sc.value ≡ pr.packages.eth.keccak256 value

  height_eq_refl : (h : Height) → pr.packages.ibc.height_eq h h ≡ true
  height_eq_refl h =
      let same : (h.revision_number == h.revision_number) ≡ true = (==_iff _ _).1 refl in
      let same' : (h.revision_height == h.revision_height) ≡ true = (==_iff _ _).1 refl in
      il.height_eq_lem h h ∙ rw (same, same') refl

  decode-encode :
      (message : Bytes) (signatures : List Bytes) (proof : Bytes)
      → eth_abi_encode_commitment_proofs pr.packages.abi
          (record { message = message; signatures = signatures })
        ≡ ok proof
      → eth_abi_decode_commitment_proofs pr.packages.abi proof
        ≡ ok (record { message = message; signatures = signatures })
  unfolding eth_abi_encode_commitment_proofs eth_abi_decode_commitment_proofs
  decode-encode message signatures proof h =
      rw (laws.unpack-pack_commitment_proofs message signatures proof h) refl

  -- what the response of the service is turned into
  membership_proof-inv :
      (r : Response) (proof : Bytes) (height : Height)
      → membership_proof pr r ≡ ok (proof, height)
      → (m : HeaderedProxyMessage) × (sc : ElcVerifyMembershipMessage)
        × (eth_abi_decode_headered_proxy_message pr.packages.abi r.message ≡ ok m)
        × (get_verify_membership_proxy_message pr.packages.abi m ≡ ok sc)
        × (eth_abi_encode_commitment_proofs pr.packages.abi
              (record { message = r.message; signatures = r.signature ∷ [] })
            ≡ ok proof)
        × (sc.height ≡ height)
  unfolding membership_proof
  membership_proof-inv r proof height h =
      let (m, headered, h1) =
        >>=-eq-ok (map_err _ (eth_abi_decode_headered_proxy_message pr.packages.abi r.message)) _
          h in
      let (sc, typed, h2) =
        >>=-eq-ok (map_err _ (get_verify_membership_proxy_message pr.packages.abi m)) _ h1 in
      let (cp, encoded, h3) =
        >>=-eq-ok
          (map_err _ (
            eth_abi_encode_commitment_proofs pr.packages.abi
              (record { message = r.message; signatures = r.signature ∷ [] })))
          _ h2 in
      let e = ok-injective (cp, sc.height) (proof, height) h3 in
      (
        m,
        sc,
        map_err-eq-ok _ _ headered,
        map_err-eq-ok _ _ typed,
        map_err-eq-ok _ _ encoded ∙ ap (λ (x : Bytes × Height). ok (x.0)) e,
        ap (λ (x : Bytes × Height). x.1) e,
      )

  call_membership-env :
      (msg : MsgVerifyMembership) (st st' : ProverState E F MsgId) (r : Response)
      → call_membership pr msg st ≡ (st', ok r)
      → pr.membership msg st.env ≡ (st'.env, ok r)
  unfolding call_membership
  call_membership-env msg st st' r h =
      ap (λ (x : ProverState E F MsgId × Result Response). (x.0.env, x.1)) h

  prove_state-IsAbout :
      (path value proof : Bytes) (height : Height) (st st' : ProverState E F MsgId)
      → prove_state pr path value st ≡ (st', ok (proof, height))
      → (r : Response) × (m : HeaderedProxyMessage) × (sc : ElcVerifyMembershipMessage) × IsAbout
          path value proof height r m sc
  unfolding prove_state
  prove_state-IsAbout path value proof height st st' h =
      let (proven, _, h1) = reads-inv _ _ st h in
      let (signer, _, h2) = reads-inv _ _ st h1 in
      let (st1, r, called, h3) = >>=-inv _ _ st h2 in
      let (_, made) = pure-inv (membership_proof pr r) st1 h3 in
      let (m, sc, headered, typed, encoded, same_height) =
        membership_proof-inv r proof height made in
      let sent = call_membership-env _ st st1 r (with_error-inv _ _ st called) in
      let (prefix, same_path, hashed) = laws.about st.env st1.env _ r m sc sent headered typed in
      (
        r,
        m,
        sc,
        record {
          headered = headered;
          typed = typed;
          unpacked = decode-encode r.message (r.signature ∷ []) proof encoded;
          same_height = same_height;
          same_prefix = prefix;
          same_path = same_path;
          same_value = hashed;
        },
      )

  -- The client checks of the prover's proof only the state id and the signature: for a height with a
  -- consensus state, at most the latest one, the check of the proof under the store's key, the path
  -- and the value is the comparison of the state id in the message with that of the consensus state,
  -- and then the verification of the one signature on the message. The state id is the one of what the
  -- message in the proof is decoded to.
  pub prove_state-verify_commitment :
      (path value proof : Bytes) (height : Height) (st st' : ProverState E F MsgId)
      (cs : ClientState) (ctx : Context) (s : S) (cons : ConsensusState)
      → prove_state pr path value st ≡ (st', ok (proof, height))
      → pr.packages.ibc.height_lt cs.latest_height height ≡ false
      → get_consensus_state pr.packages s height ≡ ok cons
      → (message signature : Bytes) × (m : HeaderedProxyMessage) × (sc : ElcVerifyMembershipMessage)
        × (eth_abi_decode_commitment_proofs pr.packages.abi proof
            ≡ ok (record { message = message; signatures = signature ∷ [] }))
        × (eth_abi_decode_headered_proxy_message pr.packages.abi message ≡ ok m)
        × (get_verify_membership_proxy_message pr.packages.abi m ≡ ok sc)
        × (verify_commitment pr.packages cs ctx s height proof pr.packages.ibc.store_key path value
            ≡ (reject_if
                  (not (bytes_eq sc.state_id cons.state_id))
                  (wrapped invalid_state_commitment (plain state_id_mismatch))
                >> verify_signatures pr.packages cs ctx s
                    (pr.packages.eth.keccak256 message)
                    (signature ∷ [])))
  unfolding verify_commitment get_message check_membership_message
  prove_state-verify_commitment path value proof height st st' cs ctx s cons h low known =
      let (r, m, sc, v) = prove_state-IsAbout path value proof height st st' h in
      let same_height : pr.packages.ibc.height_eq height sc.height ≡ true =
        ap (λ l. pr.packages.ibc.height_eq height l) (v.same_height) ∙ height_eq_refl height in
      (
        r.message,
        r.signature,
        m,
        sc,
        v.unpacked,
        v.headered,
        v.typed,
        rw low (
            rw known (
              rw (v.unpacked) (
                rw (v.headered) (
                  rw (v.typed) (
                    rw same_height (
                      rw (bytes_eq_of sc.prefix _ v.same_prefix) (
                        rw (bytes_eq_of sc.path _ v.same_path)
                          (rw (bytes_eq_of sc.value _ v.same_value) refl)))))))),
      )
