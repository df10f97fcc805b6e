-- ===== src/Client/Membership.antt =====
-- What an accepted proof of a packet commits to.
use lcp_go.Common.{
  ℕ, ◌≡◌, ◌⊎◌, inl, inr, refl, Bytes, Bool, true, false, not, List, [], length, get_or,
  bytes_eq_sound, not-eq-false, ==_iff, arith, if◌then◌else◌,
}
use lcp_go.Result.{ok, panic, map_err, >>=-eq-ok, reject_if-eq-ok, map_err-eq-ok, reject_if-last}
use lcp_go.Types.{Height, ClientState, ConsensusState, Context}
use lcp_go.Packages.{Packages}
use lcp_go.Packages.Documented.{IbcLaws}
use lcp_go.Message.{
  CommitmentProofs, ElcVerifyMembershipMessage, HeaderedProxyMessage, lcp_message_version,
  lcp_message_type_state,
}
use lcp_go.Message.Decode.{
  eth_abi_decode_commitment_proofs, get_message, get_verify_membership_proxy_message,
  eth_abi_decode_headered_proxy_message, eth_abi_decode_verify_membership_proxy_message,
}
use lcp_go.Store.{get_consensus_state}
use lcp_go.Signatures.{verify_signatures}
use lcp_go.Client.{
  verify_delay_period_passed, is_consensus_state_path, check_membership_message, verify_commitment,
  verify_membership,
}

-- what is proved: under the path and at the height of a known consensus state, the enclave's keys
-- signed a message that commits to the hash of the value
pub record Proven {S : Type 0} (p : Packages S) (cs : ClientState) (ctx : Context) (s : S)
    (height : Height) (proof prefix path value : Bytes) : Type 0 where
  pub not_above : p.ibc.height_lt cs.latest_height height ≡ false
  pub cons : ConsensusState
  pub known : get_consensus_state p s height ≡ ok cons
  pub proofs : CommitmentProofs
  pub unpacked : eth_abi_decode_commitment_proofs p.abi proof ≡ ok proofs
  pub headered : HeaderedProxyMessage
  pub opened : eth_abi_decode_headered_proxy_message p.abi proofs.message ≡ ok headered
  pub version : headered.version ≡ lcp_message_version
  pub type : headered.type ≡ lcp_message_type_state
  pub msg : ElcVerifyMembershipMessage
  pub decoded : eth_abi_decode_verify_membership_proxy_message p.abi headered.message ≡ ok msg
  pub same_height : height ≡ msg.height
  pub same_prefix : prefix ≡ msg.prefix
  pub same_path : path ≡ msg.path
  pub same_value : p.eth.keccak256 value ≡ msg.value
  pub same_state : msg.state_id ≡ cons.state_id
  pub signed :
      verify_signatures p cs ctx s (p.eth.keccak256 proofs.message) proofs.signatures ≡ ok tt

module _ {S : Type 0} (p : Packages S) (il : IbcLaws p.ibc) where
  pub eq_of_height_eq : (a b : Height) → p.ibc.height_eq a b ≡ true → a ≡ b
  eq_of_height_eq a b h = ground (arith, il.height_eq_lem a b)

  record Typed (m : HeaderedProxyMessage) (msg : ElcVerifyMembershipMessage) : Type 0 where
    version : m.version ≡ lcp_message_version
    type : m.type ≡ lcp_message_type_state
    decoded : eth_abi_decode_verify_membership_proxy_message p.abi m.message ≡ ok msg

  get_verify_membership_sound :
      (m : HeaderedProxyMessage) (msg : ElcVerifyMembershipMessage)
      → get_verify_membership_proxy_message p.abi m ≡ ok msg
      → Typed m msg
  unfolding get_verify_membership_proxy_message
  get_verify_membership_sound m msg h =
      let (version, h1) = reject_if-eq-ok _ _ _ h in
      let (type, decoded) = reject_if-eq-ok _ _ _ h1 in
      record {
        version = (==_iff _ _).0 (not-eq-false _ version);
        type = (==_iff _ _).0 (not-eq-false _ type);
        decoded = decoded;
      }

  record Checked (height : Height) (prefix path hashed state_id : Bytes)
      (msg : ElcVerifyMembershipMessage) : Type 0 where
    same_height : height ≡ msg.height
    same_prefix : prefix ≡ msg.prefix
    same_path : path ≡ msg.path
    same_value : hashed ≡ msg.value
    same_state : msg.state_id ≡ state_id

  check_membership_message_sound :
      (height : Height) (prefix path hashed state_id : Bytes) (msg : ElcVerifyMembershipMessage)
      → check_membership_message p height prefix path hashed state_id msg ≡ ok tt
      → Checked height prefix path hashed state_id msg
  unfolding check_membership_message
  check_membership_message_sound height prefix path hashed state_id msg h =
      let (heights, h1) = reject_if-eq-ok _ _ _ h in
      let (prefixes, h2) = reject_if-eq-ok _ _ _ h1 in
      let (paths, h3) = reject_if-eq-ok _ _ _ h2 in
      let (values, h4) = reject_if-eq-ok _ _ _ h3 in
      record {
        same_height = eq_of_height_eq _ _ (not-eq-false _ heights);
        same_prefix = bytes_eq_sound _ _ (not-eq-false _ prefixes);
        same_path = bytes_eq_sound _ _ (not-eq-false _ paths);
        same_value = bytes_eq_sound _ _ (not-eq-false _ values);
        same_state = bytes_eq_sound _ _ (not-eq-false _ (reject_if-last _ _ h4));
      }

  verify_commitment_sound :
      (cs : ClientState) (ctx : Context) (s : S) (height : Height) (proof prefix path value : Bytes)
      → verify_commitment p cs ctx s height proof prefix path value ≡ ok tt
      → Proven p cs ctx s height proof prefix path value
  unfolding verify_commitment get_message
  verify_commitment_sound cs ctx s height proof prefix path value h =
      let (low, h1) = reject_if-eq-ok _ _ _ h in
      let (cons, known, h2) = >>=-eq-ok (map_err _ (get_consensus_state p s height)) _ h1 in
      let (proofs, unpacked, h3) = >>=-eq-ok (eth_abi_decode_commitment_proofs p.abi proof) _ h2 in
      let (m, opened, h4) =
        >>=-eq-ok (eth_abi_decode_headered_proxy_message p.abi proofs.message) _ h3 in
      let (msg, typed, h5) = >>=-eq-ok (get_verify_membership_proxy_message p.abi m) _ h4 in
      let (_, checked, signed) =
        >>=-eq-ok
          (check_membership_message p height prefix path (p.eth.keccak256 value) cons.state_id msg)
          _ h5 in
      let t = get_verify_membership_sound m msg typed in
      let c = check_membership_message_sound height prefix path _ _ msg checked in
      record {
        not_above = low;
        cons = cons;
        known = map_err-eq-ok _ _ known;
        proofs = proofs;
        unpacked = unpacked;
        headered = m;
        opened = opened;
        version = t.version;
        type = t.type;
        msg = msg;
        decoded = t.decoded;
        same_height = c.same_height;
        same_prefix = c.same_prefix;
        same_path = c.same_path;
        same_value = c.same_value;
        same_state = c.same_state;
        signed = signed;
      }

  membership_cases :
      (cs : ClientState) (ctx : Context) (s : S) (height : Height) (proof : Bytes)
      (key_path : List Bytes) (value : Bytes) (two exempt : Bool)
      → (if not two
          then panic
          else (if exempt
              then ok tt
              else verify_commitment p cs ctx s height proof
                  (get_or key_path 0 [])
                  (get_or key_path 1 [])
                  value))
        ≡ ok tt
      → (two ≡ true)
        × ((exempt ≡ true)
            ⊎ Proven p cs ctx s height proof (get_or key_path 0 []) (get_or key_path 1 []) value)
  membership_cases cs ctx s height proof key_path value false exempt h = cc
  membership_cases cs ctx s height proof key_path value true true h = (refl, inl refl)
  membership_cases cs ctx s height proof key_path value true false h =
      (refl, inr (verify_commitment_sound cs ctx s height proof _ _ value h))

  -- An accepted membership proof has a key path of two parts, and both delay periods have passed.
  -- Unless the path is that of a consensus state, the height is at most the latest one and has a
  -- consensus state, and a message of the version and type for memberships, signed as the client
  -- demands, names this height, prefix, path, the hash of the value and the state id of that
  -- consensus state.
  pub verify_membership_sound :
      (cs : ClientState) (ctx : Context) (s : S) (height : Height) (time blocks : ℕ) (proof : Bytes)
      (key_path : List Bytes) (value : Bytes)
      → verify_membership p cs ctx s height time blocks proof key_path value ≡ ok tt
      → (verify_delay_period_passed p ctx s height time blocks ≡ ok tt)
        × (length key_path ≡ 2)
        × ((is_consensus_state_path p (get_or key_path 1 []) ≡ true)
            ⊎ Proven p cs ctx s height proof (get_or key_path 0 []) (get_or key_path 1 []) value)
  unfolding verify_membership
  verify_membership_sound cs ctx s height time blocks proof key_path value h =
      let (_, delay, h1) = >>=-eq-ok (verify_delay_period_passed p ctx s height time blocks) _ h in
      let (two, rest) = membership_cases cs ctx s height proof key_path value _ _ h1 in
      (delay, (==_iff _ _).0 two, rest)
