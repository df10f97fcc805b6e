-- ===== src/Relay/Elc/Results.antt =====
-- relay/lcp.go: what the commands on the LCP service's client give: the results of `doCreateELC`
-- and `doUpdateELC`, `doQueryELC`, and `doAvailableEnclaveKeys`.
use lcp_go.Common.{
  ℕ, Bytes, Bool, true, false, Option, none, some, List, [], ◌∷◌, ◌==◌, leb, ◌&&◌, not,
  if◌then◌else◌,
}
use lcp_go.Result.{
  Result, ok, err, panic, ◌>>=◌, ◌>>◌, map_err, reject_if, plain, caused, decode_failed,
  height_too_great,
}
use lcp_go.Types.{Height}
use lcp_go.Packages.{AnyValue}
use lcp_go.Message.{UpdateStateProxyMessage}
use lcp_go.Message.Decode.{eth_abi_decode_headered_proxy_message, get_update_state_proxy_message}
use lcp_go.Relay.Config.{get_mrenclave}
use lcp_go.Relay.ActiveKey.{EnclaveKeyInfo}
use lcp_go.Relay.Prover.{
  Prover, Response, QueryClientResponse, ExportedClientState, ExportedConsensusState,
}

-- `CreateELCResult`, where `Created` is whether there is a message
pub record CreateElcResult : Type 0 where
  pub created : Bool
  pub message : Option UpdateStateProxyMessage

pub record QueryElcResult : Type 0 where
  pub found : Bool
  pub raw : Option (AnyValue × AnyValue)
  pub decoded : Option (ExportedClientState × ExportedConsensusState)

-- 0 is the latest height, and any other height has to be below it
unfoldable pub creation_height : Height → ℕ → Result Height
creation_height latest height = do
  reject_if (not (height == 0) && leb latest.revision_height height) (plain height_too_great)
  ok (record latest { revision_height = (if height == 0 then latest.revision_height else height) })

module _ {S E F MsgId : Type 0} (pr : Prover S E F MsgId) where
  unfoldable pub decode_update_state : Bytes → Result UpdateStateProxyMessage
  decode_update_state message = do
    m ← eth_abi_decode_headered_proxy_message pr.packages.abi message
    get_update_state_proxy_message pr.packages.abi m

  unfoldable pub create_result : Option Response → Result CreateElcResult
  create_result none = ok (record { created = false; message = none })
  create_result (some response) = do
    m ← decode_update_state response.message
    ok (record { created = true; message = some m })

  -- the loop over the responses
  unfoldable pub decode_updates : List Response → Result (List UpdateStateProxyMessage)
  decode_updates [] = ok []
  decode_updates (update ∷ updates) = do
    m ← map_err (caused decode_failed) (decode_update_state update.message)
    ms ← decode_updates updates
    ok (m ∷ ms)

  -- a state that cannot be decoded leaves the decoded part empty
  unfoldable pub decoded_states :
      Result ExportedClientState
      → Result ExportedConsensusState
      → Result (Option (ExportedClientState × ExportedConsensusState))
  decoded_states panic consensus_state = panic
  decoded_states (err e) consensus_state = ok none
  decoded_states (ok cs) panic = panic
  decoded_states (ok cs) (err e) = ok none
  decoded_states (ok cs) (ok cons) = ok (some (cs, cons))

  unfoldable pub query_result : QueryClientResponse → Result QueryElcResult
  query_result r =
      if not r.found then ok (record { found = false; raw = none; decoded = none }) else (do
        decoded ←
            decoded_states (pr.unpack_client_state r.client_state)
              (pr.unpack_consensus_state r.consensus_state)
        ok (record {
          found = true;
          raw = some (r.client_state, r.consensus_state);
          decoded = decoded;
        }))

  unfoldable pub do_query_elc : E → Bytes → Result QueryElcResult
  do_query_elc env client_id = do r ← pr.client env client_id; query_result r

  unfoldable pub do_available_enclave_keys : E → Result (List EnclaveKeyInfo)
  do_available_enclave_keys env = do
    mrenclave ← get_mrenclave pr.config
    pr.available_enclave_keys env mrenclave
