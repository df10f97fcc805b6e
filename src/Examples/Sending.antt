-- ===== src/Examples/Sending.antt =====
-- The messages that the prover sends, and the client that accepts them.
use lcp_go.Common.{◌≡◌, inl, refl, [], ◌∷◌, ◌++◌, codes, replicate, arith}
use lcp_go.Common.Int.{pos}
use lcp_go.Result.{ok}
use lcp_go.GoTime.{unix_time}
use lcp_go.Types
use lcp_go.Types.{RegisterEnclaveKeyMessage, UpdateOperatorsMessage}
use lcp_go.Packages.{Avr, Quote}
use lcp_go.Update.{verify_client_message}
use lcp_go.Relay.Prover.{SentMsg}
use lcp_go.Relay.Action.{◌>>=◌, pure, reads, with_error}
use lcp_go.Relay.Registering.{
  one_id, send_messages, register_enclave_key, cast_client_state, contains_operator,
  query_lcp_client_state, require_signer, message_for_client,
}
use lcp_go.Relay.Registering.KeyMessage.{operator_signature, registration_message}
use lcp_go.Relay.Registering.OperatorsMessage.{
  domain_params_of, get_domain_params, chain_salt_of, compute_eip712_chain_salt,
  compute_eip712_update_operators_hash, operators_message,
}
use lcp_go.Relay.Registering.KeyAcceptance.{registration_message_accepted}
use lcp_go.Relay.Registering.OperatorsAcceptance.{operators_message_accepted}
use lcp_go.Examples.Sample.{address, signature_by, now, empty_store}
use lcp_go.Examples.Laws.{eth_laws}
use lcp_go.Examples.Configuring.{selects}
use lcp_go.Examples.SampleProver.{prover, prover_packages, offered_key, counterparty_client}
use lcp_go.Examples.SampleProverLaws.{prover_laws}

unfoldable pub sends : Unit {0}
unfolding selects one_id send_messages register_enclave_key cast_client_state contains_operator
    query_lcp_client_state require_signer message_for_client operator_signature registration_message
    domain_params_of get_domain_params chain_salt_of compute_eip712_chain_salt
    compute_eip712_update_operators_hash operators_message ◌>>=◌ pure reads with_error
sends = tt

abbrev avr : Avr
avr = record {
  quote_status = codes "OK";
  advisory_ids = [];
  timestamp = codes "2024";
  quote_body = offered_key.report;
}

abbrev quote : Quote
quote = record { mrenclave = replicate 32 7; report_data = 1 ∷ (address 5 ++ address 3) }

abbrev registration_sent : SentMsg
registration_sent = record {
  client_id = codes "lcp-client-0";
  client_message = Types.register_enclave_key (record {
    report = offered_key.report;
    signature = [];
    signing_cert = 1 ∷ [];
    operator_signature = signature_by 3;
  });
  signer = 1 ∷ [];
}

registration_made : registration_message prover 0 offered_key ≡ ok registration_sent
unfolding sends
registration_made = refl

registration_message_accepted_example :
    (codes "lcp-client-0" ≡ codes "lcp-client-0")
    × (verify_client_message prover_packages counterparty_client now empty_store
          registration_sent.client_message
        ≡ ok tt)
unfolding sends
registration_message_accepted_example =
    registration_message_accepted prover prover_laws 0 offered_key registration_sent
      counterparty_client now empty_store avr quote (address 5) (address 3) (unix_time (pos 1000) 0)
      registration_made refl refl refl refl (inl refl) refl refl refl refl

abbrev replacement_sent : SentMsg
replacement_sent = record {
  client_id = codes "lcp-client-0";
  client_message = Types.update_operators (record {
    nonce = 1;
    new_operators = address 2 ∷ address 4 ∷ [];
    new_operators_threshold_numerator = 1;
    new_operators_threshold_denominator = 2;
    signatures = signature_by 3 ∷ [];
  });
  signer = 1 ∷ [];
}

operators_message_accepted_example :
    (codes "lcp-client-0" ≡ codes "lcp-client-0")
    × (verify_client_message prover_packages counterparty_client now empty_store
          replacement_sent.client_message
        ≡ ok tt)
unfolding sends
operators_message_accepted_example =
    operators_message_accepted prover prover_laws eth_laws 0 1 (address 2 ∷ address 4 ∷ [])
      (record { numerator = 1; denominator = 2 }) replacement_sent counterparty_client now
      empty_store refl refl refl refl refl (refl, (refl, tt)) ((refl, (refl, tt)), (refl, tt))
      (omega arith)
