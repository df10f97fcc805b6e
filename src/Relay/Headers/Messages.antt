-- ===== src/Relay/Headers/Messages.antt =====
-- relay/prover.go: what the methods of `core.Prover` make of the responses of the LCP service.
use lcp_go.Common.{Bytes, false, Option, none, some, List, [], ◌∷◌, length, if◌then◌else◌}
use lcp_go.Result.{
  Result, ok, panic, ◌>>=◌, map_err, caused, decode_failed, unpack_failed, encode_failed,
}
use lcp_go.Types.{Height, ClientState, UpdateClientMessage}
use lcp_go.Message.Decode.{
  eth_abi_decode_headered_proxy_message, get_verify_membership_proxy_message,
  eth_abi_encode_commitment_proofs,
}
use lcp_go.Relay.Config.{
  get_mrenclave, get_operators_threshold, get_configured_operators,
  get_message_aggregation_batch_size,
}
use lcp_go.Relay.Aggregation.{aggregate_messages}
use lcp_go.Relay.Prover.{Prover, Response}

-- what the aggregation returns; it does not run out of passes
unfoldable pub returned : Option (Result UpdateClientMessage) → Result UpdateClientMessage
returned none = panic
returned (some r) = r

-- an update for each message, with its signature
unfoldable pub single_updates : List Bytes → List Bytes → Result (List UpdateClientMessage)
single_updates [] signatures = ok []
single_updates (message ∷ messages) [] = panic
single_updates (message ∷ messages) (signature ∷ signatures) = do
  updates ← single_updates messages signatures
  ok (record { proxy_message = message; signatures = signature ∷ [] } ∷ updates)

module _ {S E F MsgId : Type 0} (pr : Prover S E F MsgId) where
  -- the test that a message can be decoded
  unfoldable pub is_headered : Bytes → Result (Unit {0})
  is_headered message = do
    m ←
        map_err (caused decode_failed)
          (eth_abi_decode_headered_proxy_message pr.packages.abi message)
    ok tt

  unfoldable pub aggregate : Bytes → List Bytes → List Bytes → Result (List UpdateClientMessage)
  aggregate signer messages signatures = do
    update ← returned (
        aggregate_messages pr.aggregator (length messages) signer
          (get_message_aggregation_batch_size pr.config) messages signatures)
    ok (update ∷ [])

  unfoldable pub updates_of : Bytes → List Bytes → List Bytes → Result (List UpdateClientMessage)
  updates_of signer messages signatures =
      if pr.config.message_aggregation
      then aggregate signer messages signatures
      else single_updates messages signatures

  unfoldable pub initial_client_state : Result ClientState
  initial_client_state = do
    operators ← get_configured_operators pr.config_packages pr.config
    mrenclave ← get_mrenclave pr.config
    ok (record {
      mrenclave = mrenclave;
      key_expiration = pr.config.key_expiration;
      frozen = false;
      latest_height = record { revision_number = 0; revision_height = 0 };
      allowed_quote_statuses = pr.config.allowed_quote_statuses;
      allowed_advisory_ids = pr.config.allowed_advisory_ids;
      operators = operators;
      operators_nonce = 0;
      operators_threshold_numerator = (get_operators_threshold pr.config).numerator;
      operators_threshold_denominator = (get_operators_threshold pr.config).denominator;
    })

  unfoldable pub membership_proof : Response → Result (Bytes × Height)
  membership_proof response = do
    message ←
        map_err (caused decode_failed)
          (eth_abi_decode_headered_proxy_message pr.packages.abi response.message)
    sc ←
        map_err (caused unpack_failed) (get_verify_membership_proxy_message pr.packages.abi message)
    cp ← map_err (caused encode_failed) (
        eth_abi_encode_commitment_proofs pr.packages.abi
          (record { message = response.message; signatures = response.signature ∷ [] }))
    ok (cp, sc.height)
