-- ===== src/Message/Decode.antt =====
-- light-clients/lcp/types/message.go and header.go: messages decoded from their ABI encoding, which
-- go-ethereum's `abi` unpacks.
use lcp_go.Common.{
  Bytes, not, ◌||◌, none, some, List, [], ◌∷◌, map, length, take, drop, replicate, bytes_eq,
  big_endian, ◌==◌, if◌then◌else◌,
}
use lcp_go.Result.{
  Result, ok, err, panic, ◌>>=◌, ◌>>◌, reject_if, map_err, plain, caused, unpack_failed,
  unexpected_version, unexpected_type, context_bytes_not_empty, context_type, context_length,
  context_decode,
}
use lcp_go.Types.{Height, UpdateClientMessage}
use lcp_go.Packages.{Abi}
use lcp_go.Message.{
  lcp_message_version, lcp_message_type_update_state, lcp_message_type_state,
  lcp_message_type_misbehaviour, lcp_message_context_type_empty,
  lcp_message_context_type_trusting_period, TrustingPeriodValidationContext, AnyContext, empty,
  trusting, EmittedState, UpdateStateProxyMessage, PrevState, MisbehaviourProxyMessage,
  ElcVerifyMembershipMessage, CommitmentProofs, HeaderedProxyMessage, ProxyMessage, update_state,
  misbehaviour,
}
use lcp_go.Message.ValidationContext.{decode_trusting_period_validation_context}

abbrev pub zero_bytes32 : Bytes
zero_bytes32 = replicate 32 0

abbrev to_prev_state : Height × Bytes → PrevState
to_prev_state (h, id) = record { height = h; state_id = id }

module _ (abi : Abi) where
  unfoldable pub eth_abi_decode_commitment_proofs : Bytes → Result CommitmentProofs
  eth_abi_decode_commitment_proofs bz = do
    p ← map_err (caused unpack_failed) (abi.unpack_commitment_proofs bz)
    ok (record { message = p.0; signatures = p.1 })

  unfoldable pub eth_abi_encode_commitment_proofs : CommitmentProofs → Result Bytes
  eth_abi_encode_commitment_proofs p = abi.pack_commitment_proofs p.message p.signatures

  unfoldable pub eth_abi_decode_headered_proxy_message : Bytes → Result HeaderedProxyMessage
  eth_abi_decode_headered_proxy_message bz = do
    p ← map_err (caused unpack_failed) (abi.unpack_headered bz)
    ok (record {
      version = big_endian (take 2 p.header);
      type = big_endian (take 2 (drop 2 p.header));
      message = p.message;
    })

  unfoldable pub eth_abi_decode_trusting_period_validation_context :
      Bytes → Result TrustingPeriodValidationContext
  eth_abi_decode_trusting_period_validation_context bz = do
    reject_if (not (length bz == 64)) (plain context_length)
    p ← map_err (caused unpack_failed) (abi.unpack_trusting_period bz)
    decode_trusting_period_validation_context p.0 p.1

  unfoldable pub eth_abi_decode_validation_context : Bytes → Result AnyContext
  eth_abi_decode_validation_context bz = do
    p ← map_err (caused unpack_failed) (abi.unpack_context bz)
    let type = big_endian (take 2 p.header)
    if type == lcp_message_context_type_empty
        then (if not (length p.context_bytes == 0)
            then err (plain context_bytes_not_empty)
            else ok empty)
        else if type == lcp_message_context_type_trusting_period
        then (do
          c ← eth_abi_decode_trusting_period_validation_context p.context_bytes
          ok (trusting c))
        else err (plain context_type)

  -- the loop over the emitted states
  unfoldable pub decode_emitted_states : List (Height × Bytes) → Result (List EmittedState)
  decode_emitted_states [] = ok []
  decode_emitted_states ((h, bz) ∷ rest) = do
    state ← abi.any_unmarshal bz
    states ← decode_emitted_states rest
    ok (record { height = h; state = state } ∷ states)

  unfoldable pub eth_abi_decode_update_state_proxy_message : Bytes → Result UpdateStateProxyMessage
  eth_abi_decode_update_state_proxy_message bz = do
    p ← abi.unpack_update_state bz
    cctx ← eth_abi_decode_validation_context p.context
    states ← decode_emitted_states p.emitted_states
    ok (record {
      prev_height =
          (if not (p.prev_height.revision_number == 0) || not (p.prev_height.revision_height == 0)
            then some p.prev_height
            else none);
      prev_state_id =
          (if not (bytes_eq p.prev_state_id zero_bytes32) then some p.prev_state_id else none);
      post_height = p.post_height;
      post_state_id = p.post_state_id;
      timestamp = p.timestamp;
      context = cctx;
      emitted_states = states;
    })

  unfoldable pub eth_abi_decode_misbehaviour_proxy_message : Bytes → Result MisbehaviourProxyMessage
  eth_abi_decode_misbehaviour_proxy_message bz = do
    p ← map_err (caused unpack_failed) (abi.unpack_misbehaviour bz)
    cctx ← map_err (caused context_decode) (eth_abi_decode_validation_context p.context)
    ok (record {
      prev_states = map to_prev_state p.prev_states;
      context = cctx;
      client_message = p.client_message;
    })

  unfoldable pub eth_abi_decode_verify_membership_proxy_message :
      Bytes → Result ElcVerifyMembershipMessage
  eth_abi_decode_verify_membership_proxy_message bz = do
    p ← map_err (caused unpack_failed) (abi.unpack_verify_membership bz)
    ok (record {
      prefix = p.prefix;
      path = p.path;
      value = p.value;
      height = p.height;
      state_id = p.state_id;
    })

  unfoldable pub get_message : CommitmentProofs → Result HeaderedProxyMessage
  get_message p = eth_abi_decode_headered_proxy_message p.message

  unfoldable pub get_update_state_proxy_message :
      HeaderedProxyMessage → Result UpdateStateProxyMessage
  get_update_state_proxy_message c = do
    reject_if (not (c.version == lcp_message_version)) (plain unexpected_version)
    reject_if (not (c.type == lcp_message_type_update_state)) (plain unexpected_type)
    eth_abi_decode_update_state_proxy_message c.message

  unfoldable pub get_misbehaviour_proxy_message :
      HeaderedProxyMessage → Result MisbehaviourProxyMessage
  get_misbehaviour_proxy_message c = do
    reject_if (not (c.version == lcp_message_version)) (plain unexpected_version)
    reject_if (not (c.type == lcp_message_type_misbehaviour)) (plain unexpected_type)
    eth_abi_decode_misbehaviour_proxy_message c.message

  unfoldable pub get_verify_membership_proxy_message :
      HeaderedProxyMessage → Result ElcVerifyMembershipMessage
  get_verify_membership_proxy_message c = do
    reject_if (not (c.version == lcp_message_version)) (plain unexpected_version)
    reject_if (not (c.type == lcp_message_type_state)) (plain unexpected_type)
    eth_abi_decode_verify_membership_proxy_message c.message

  -- header.go: `UpdateClientMessage.GetProxyMessage`
  unfoldable pub get_proxy_message : UpdateClientMessage → Result ProxyMessage
  get_proxy_message ucm = do
    m ← eth_abi_decode_headered_proxy_message ucm.proxy_message
    reject_if (not (m.version == lcp_message_version)) (plain unexpected_version)
    if m.type == lcp_message_type_update_state
        then (do u ← get_update_state_proxy_message m; ok (update_state u))
        else if m.type == lcp_message_type_misbehaviour
        then (do u ← get_misbehaviour_proxy_message m; ok (misbehaviour u))
        else err (plain unexpected_type)

  -- header.go: `UpdateClientMessage.ValidateBasic`
  unfoldable pub update_client_validate_basic : UpdateClientMessage → Result (Unit {0})
  update_client_validate_basic ucm = do m ← get_proxy_message ucm; ok tt

  -- header.go: `UpdateClientMessage.GetHeight`
  unfoldable pub get_height : UpdateClientMessage → Result Height
  get_height ucm = height_of (get_proxy_message ucm)
    where
      height_of : Result ProxyMessage → Result Height
      height_of (ok (update_state m)) = ok m.post_height
      height_of (ok (misbehaviour m)) = panic
      height_of (err e) = panic
      height_of panic = panic
