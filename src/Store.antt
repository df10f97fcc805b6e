-- ===== src/Store.antt =====
-- light-clients/lcp/types/store.go: what the client keeps in its store, and under which keys.
pub mod Keys
pub mod ClientId
use lcp_go.Common.{
  ℕ, ◌+◌, ◌-◌, Bytes, Bool, true, false, not, Option, none, some, List, ◌++◌, codes, length, get_or,
  split, has_prefix, ltb, if◌then◌else◌,
}
use lcp_go.Result.{
  Result, ok, err, ◌>>=◌, ◌>>◌, reject_if, map_err, plain, caused, wrapped, wrap, invalid_id,
  invalid_consensus, consensus_state_not_found, retrieve_client_id, no_consensus_state,
  unmarshal_failed, consensus_state_type, not_prefix_store, short_prefix, client_id_in_prefix,
  malformed_client_id, no_lcp_prefix,
}
use lcp_go.Types.{Height, ClientState, ConsensusState, AnyConsensusState, lcp, foreign_consensus}
use lcp_go.Packages.{Packages}

abbrev pub client_type_lcp : Bytes
client_type_lcp = codes "lcp-client"

abbrev pub key_processed_time : Bytes
key_processed_time = codes "/processedTime"

abbrev pub key_processed_height : Bytes
key_processed_height = codes "/processedHeight"

-- the type assertion of `GetConsensusState`
unfoldable pub as_lcp_consensus_state : AnyConsensusState → Result ConsensusState
as_lcp_consensus_state (lcp c) = ok c
as_lcp_consensus_state foreign_consensus =
    err (wrapped invalid_consensus (plain consensus_state_type))

module _ {S : Type 0} (p : Packages S) where
  unfoldable pub set_client_state : S → ClientState → S
  set_client_state s cs = p.kv.set s p.ibc.client_state_key (p.ibc.marshal_client_state cs)

  unfoldable pub set_consensus_state : S → ConsensusState → Height → S
  set_consensus_state s consensus_state height =
      p.kv.set s (p.ibc.consensus_state_key height) (p.ibc.marshal_consensus_state consensus_state)

  unfoldable pub decode_consensus_state : Option Bytes → Result ConsensusState
  unfolding as_lcp_consensus_state
  decode_consensus_state none = err (wrapped consensus_state_not_found (plain no_consensus_state))
  decode_consensus_state (some bz) = do
    c ← map_err (wrap invalid_consensus unmarshal_failed) (p.ibc.unmarshal_consensus_state bz)
    as_lcp_consensus_state c

  unfoldable pub get_consensus_state : S → Height → Result ConsensusState
  unfolding decode_consensus_state
  get_consensus_state s height =
      decode_consensus_state (p.kv.get s (p.ibc.consensus_state_key height))

  unfoldable pub processed_time_key : Height → Bytes
  processed_time_key height = p.ibc.consensus_state_key height ++ key_processed_time

  unfoldable pub set_processed_time : S → Height → ℕ → S
  set_processed_time s height time_ns =
      p.kv.set s (processed_time_key height) (p.ibc.uint64_to_big_endian time_ns)

  unfoldable pub decode_processed_time : Option Bytes → Option ℕ
  decode_processed_time none = none
  decode_processed_time (some bz) = some (p.ibc.big_endian_to_uint64 bz)

  unfoldable pub get_processed_time : S → Height → Option ℕ
  get_processed_time s height = decode_processed_time (p.kv.get s (processed_time_key height))

  unfoldable pub delete_processed_time : S → Height → S
  delete_processed_time s height = p.kv.delete s (processed_time_key height)

  unfoldable pub processed_height_key : Height → Bytes
  processed_height_key height = p.ibc.consensus_state_key height ++ key_processed_height

  unfoldable pub set_processed_height : S → Height → Height → S
  set_processed_height s cons_height processed_height =
      p.kv.set s (processed_height_key cons_height) (p.ibc.height_string processed_height)

  unfoldable pub parsed_or_none : Result Height → Option Height
  parsed_or_none (ok h) = some h
  parsed_or_none _ = none

  unfoldable pub decode_processed_height : Option Bytes → Option Height
  decode_processed_height none = none
  decode_processed_height (some bz) = parsed_or_none (p.ibc.parse_height bz)

  unfoldable pub get_processed_height : S → Height → Option Height
  get_processed_height s height = decode_processed_height (p.kv.get s (processed_height_key height))

  unfoldable pub delete_processed_height : S → Height → S
  delete_processed_height s height = p.kv.delete s (processed_height_key height)

  unfoldable pub validate_client_id : Bytes → Result (Unit {0})
  validate_client_id client_id = do
    reject_if (not (p.ibc.is_valid_client_id client_id))
        (wrapped invalid_id (plain malformed_client_id))
    reject_if (not (has_prefix client_id client_type_lcp))
        (wrapped invalid_id (plain no_lcp_prefix))
    ok tt

  -- The field `prefix` is there whenever the type assertion succeeds, so the source's branch for a
  -- missing field has no counterpart.
  unfoldable pub client_id_of_prefix : Option Bytes → Result Bytes
  client_id_of_prefix none = err (wrapped retrieve_client_id (plain not_prefix_store))
  client_id_of_prefix (some prefix) = do
    let parts = split b'/' prefix
    reject_if (ltb (length parts) 3) (wrapped retrieve_client_id (plain short_prefix))
    let client_id = get_or parts (length parts - 2) (codes "")
    map_err (wrap retrieve_client_id client_id_in_prefix) (validate_client_id client_id)
    ok client_id

  unfoldable pub get_client_id : S → Result Bytes
  get_client_id s = client_id_of_prefix (p.kv.prefix s)
