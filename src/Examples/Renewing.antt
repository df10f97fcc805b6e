-- ===== src/Examples/Renewing.antt =====
-- A prover that starts without a key registers the one that is offered; and the aggregation of five
-- messages by a service that fails.
use lcp_go.Common.{ℕ, ◌≡◌, refl, true, none, some, [], ◌∷◌, length}
use lcp_go.Result.{Result, ok, err, plain, foreign}
use lcp_go.Types.{UpdateClientMessage}
use lcp_go.Relay.ActiveKey.{save_unfinalized_enclave_key_info}
use lcp_go.Relay.Aggregation.{Aggregator, aggregate_messages}
use lcp_go.Relay.Aggregation.Termination.{aggregate_messages_total}
use lcp_go.Relay.Prover.{ProverState}
use lcp_go.Relay.KeyUpdate.{
  load_keys, forget_keys, keep_finalized, keep_unfinalized, keep_key, renew_key, renew_if,
  update_eki_if_needed,
}
use lcp_go.Relay.KeyUpdate.Renewal.{IsUpdated, update_eki_if_needed-IsUpdated}
use lcp_go.Examples.Relaying.{messages, signatures}
use lcp_go.Examples.Restarting.{Files, put}
use lcp_go.Examples.Sending.{sends}
use lcp_go.Examples.SampleProver.{prover, offered_key, started}
use lcp_go.Examples.SampleProverLaws.{key_file_laws, unfinalized_laws}

unfoldable pub renews : Unit {0}
unfolding sends load_keys forget_keys keep_finalized keep_unfinalized keep_key renew_key renew_if
    update_eki_if_needed save_unfinalized_enclave_key_info
renews = tt

-- the message 7 was sent, and is final
abbrev pub renewed : ProverState ℕ Files ℕ
renewed = record {
  keys = record {
    active_enclave_key = some offered_key;
    unfinalized_msg_id = none;
    files = put (λ which. none) true (some (1 ∷ []));
  };
  env = 1;
}

update_done : update_eki_if_needed prover started ≡ (renewed, ok tt)
unfolding renews
update_done = refl

update_eki_if_needed-IsUpdated_example :
    IsUpdated prover (λ env. key_file_laws) (λ env. unfinalized_laws) started renewed
update_eki_if_needed-IsUpdated_example =
    update_eki_if_needed-IsUpdated prover (λ env. key_file_laws) (λ env. unfinalized_laws) started
      renewed update_done

abbrev failing : Aggregator
failing b = err (plain (foreign 6))

aggregate_messages_total_example :
    (r : Result UpdateClientMessage) × (aggregate_messages failing
        (length messages)
        (7 ∷ [])
        2
        messages
        signatures
      ≡ some r)
    × ((u : UpdateClientMessage) → r ≡ ok u → length u.signatures ≡ 1)
aggregate_messages_total_example = aggregate_messages_total failing (7 ∷ []) 2 messages signatures
