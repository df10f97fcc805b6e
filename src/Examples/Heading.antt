-- ===== src/Examples/Heading.antt =====
-- The prover's initial state, updates and proofs, and what the client does with them.
use lcp_go.Common.{ℕ, ◌≡◌, refl, Bytes, not, none, some, List, [], ◌∷◌, codes, bytes_eq, arith}
use lcp_go.Result.{ok, reject_if, ◌>>◌, wrapped, plain, invalid_state_commitment, state_id_mismatch}
use lcp_go.Types.{ClientState, ConsensusState, UpdateClientMessage, lcp}
use lcp_go.Message.{HeaderedProxyMessage, ElcVerifyMembershipMessage}
use lcp_go.Message.Decode.{
  eth_abi_decode_commitment_proofs, eth_abi_encode_commitment_proofs,
  eth_abi_decode_headered_proxy_message, get_verify_membership_proxy_message,
}
use lcp_go.Store.{set_client_state, set_consensus_state}
use lcp_go.Signatures.{verify_signatures}
use lcp_go.Client.{initialize, verify_commitment}
use lcp_go.Relay.ActiveKey.{EnclaveKeyInfo}
use lcp_go.Relay.Aggregation.{
  slice, index, add_message, add_messages, add_rest, split_into_multi_batch, aggregate_batch,
  aggregate_batches, pass_of, pass, continue_with, aggregate_passes, aggregate_messages,
}
use lcp_go.Relay.Prover.{ProverState, Header, counterparty}
use lcp_go.Relay.KeyUpdate.{update_eki_if_needed}
use lcp_go.Relay.Elc.{call_create_client, call_update_client, create_missing_elc, create_elc}
use lcp_go.Relay.Elc.Service.{active_key_address, initial_state}
use lcp_go.Relay.Headers.{
  create_initial_light_client_state, sign_headers, updates_for, setup_headers_for_update,
  call_membership, prove_state,
}
use lcp_go.Relay.Headers.Messages.{
  returned, single_updates, is_headered, aggregate, updates_of, initial_client_state,
  membership_proof,
}
use lcp_go.Relay.Headers.Updates.{ArePrepared, setup_headers_for_update-AreUpdates}
use lcp_go.Relay.Headers.Initial.{create_initial_light_client_state_accepted}
use lcp_go.Relay.Headers.Proofs.{prove_state-verify_commitment}
use lcp_go.Examples.Sample.{Kv, address, signature_by, height, now, empty_store}
use lcp_go.Examples.Laws.{ibc_laws, eth_laws}
use lcp_go.Examples.Restarting.{Files}
use lcp_go.Examples.Configuring.{config_ok}
use lcp_go.Examples.Renewing.{renews, renewed}
use lcp_go.Examples.SampleProver.{
  prover, prover_packages, offered_key, started, header, counterparty_client,
}
use lcp_go.Examples.SampleProverLaws.{key_file_laws, unfinalized_laws, hex_laws, proof_laws}

unfoldable pub heads : Unit {0}
unfolding renews eth_abi_encode_commitment_proofs slice index add_message add_messages add_rest
    split_into_multi_batch aggregate_batch aggregate_batches pass_of pass continue_with
    aggregate_passes aggregate_messages call_create_client call_update_client create_missing_elc
    create_elc active_key_address initial_state create_initial_light_client_state sign_headers
    updates_for setup_headers_for_update call_membership prove_state returned single_updates
    is_headered aggregate updates_of initial_client_state membership_proof
heads = tt

abbrev update : UpdateClientMessage
update = record { proxy_message = 1 ∷ 1 ∷ 0 ∷ 9 ∷ 9 ∷ []; signatures = signature_by 5 ∷ [] }

abbrev updated : ProverState ℕ Files ℕ
updated = record renewed { env = 4 }

headers_done : setup_headers_for_update prover header started ≡ (updated, ok (update ∷ []))
unfolding heads
headers_done = refl

setup_headers_for_update-AreUpdates_example :
    (st1 : ProverState ℕ Files ℕ) × (eki : EnclaveKeyInfo) × (headers : List Header)
    × (update_eki_if_needed prover started ≡ (st1, ok tt))
    × (st1.keys.active_enclave_key ≡ some eki)
    × (some offered_key ≡ some eki)
    × (prover.setup_headers counterparty st1.env header ≡ ok headers)
    × ArePrepared prover eki headers st1.env 4 (update ∷ [])
setup_headers_for_update-AreUpdates_example =
    setup_headers_for_update-AreUpdates prover (λ env. key_file_laws) (λ env. unfinalized_laws)
      header started updated (update ∷ []) headers_done

abbrev initial : ClientState
initial = record counterparty_client { latest_height = height 0 0 }

abbrev no_consensus : ConsensusState
no_consensus = record { state_id = []; timestamp = 0 }

initial_done :
    create_initial_light_client_state prover none started
    ≡ (record started { env = 1 }, ok (initial, no_consensus))
unfolding heads
initial_done = refl

create_initial_light_client_state_accepted_example :
    initialize prover_packages initial empty_store (lcp no_consensus)
    ≡ ok (
        set_consensus_state prover_packages
          (set_client_state prover_packages empty_store initial)
          no_consensus
          (height 0 0))
unfolding heads
create_initial_light_client_state_accepted_example =
    create_initial_light_client_state_accepted prover hex_laws eth_laws ibc_laws none started
      (record started { env = 1 }) initial no_consensus (address 3 ∷ []) empty_store initial_done
      config_ok (λ e. cc) (omega arith) refl (refl, tt)

abbrev proof : Bytes
proof = 1 ∷ 2 ∷ 5 ∷ 9 ∷ 8 ∷ 1 ∷ signature_by 5

abbrev known : ConsensusState
known = record { state_id = 9 ∷ []; timestamp = 100 }

abbrev with_known : Kv
with_known = set_consensus_state prover_packages empty_store known (height 0 5)

prove_state-verify_commitment_example :
    (message signature : Bytes) × (m : HeaderedProxyMessage) × (sc : ElcVerifyMembershipMessage)
    × (eth_abi_decode_commitment_proofs prover_packages.abi proof
        ≡ ok (record { message = message; signatures = signature ∷ [] }))
    × (eth_abi_decode_headered_proxy_message prover_packages.abi message ≡ ok m)
    × (get_verify_membership_proxy_message prover_packages.abi m ≡ ok sc)
    × (verify_commitment prover_packages counterparty_client now with_known
          (height 0 5)
          proof
          (codes "ibc")
          (8 ∷ [])
          (1 ∷ [])
        ≡ (reject_if
              (not (bytes_eq sc.state_id (9 ∷ [])))
              (wrapped invalid_state_commitment (plain state_id_mismatch))
            >> verify_signatures prover_packages counterparty_client now with_known message
                (signature ∷ [])))
unfolding heads
prove_state-verify_commitment_example =
    prove_state-verify_commitment prover proof_laws ibc_laws (8 ∷ []) (1 ∷ []) proof (height 0 5)
      renewed (record renewed { env = 2 }) counterparty_client now with_known known refl refl refl
