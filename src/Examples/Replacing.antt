-- ===== src/Examples/Replacing.antt =====
-- The replacement of operators, at a concrete message that both operators signed.
use lcp_go.Common.{
  ◌<◌, AllPairs, ◌≡◌, ◌≢◌, ◌+◌, ◌%◌, refl, Bytes, some, List, [], ◌∷◌, length, arith, All,
}
use lcp_go.Common.Int.{two_64}
use lcp_go.Result.{ok}
use lcp_go.Types.{Address, UpdateOperatorsMessage, Context}
use lcp_go.Eip712.{compute_eip712_cosmos_update_operators, recover_address}
use lcp_go.EnclaveKey.{Event}
use lcp_go.Signatures.{get_operators}
use lcp_go.Operators.{
  get_new_operators, verify_update_operators, with_operators, update_operators_state,
}
use lcp_go.Operators.Replacement.{verify_update_operators-signed}
use lcp_go.Operators.Effect.{AreWellFormed, update_operators-verified, update_operators_no_replay}
use lcp_go.Examples.Sample.{
  Kv, kv, ibc, eth, packages, empty_store, address, signature_by, now, two_operators,
}
use lcp_go.Examples.Laws.{kv_laws, ibc_laws}
use lcp_go.Examples.Executable.{executable}

abbrev replacement : UpdateOperatorsMessage
replacement = record {
  nonce = 1;
  new_operators = address 3 ∷ [];
  new_operators_threshold_numerator = 1;
  new_operators_threshold_denominator = 1;
  signatures = signature_by 1 ∷ signature_by 2 ∷ [];
}

replacement_ok : verify_update_operators packages two_operators now empty_store replacement ≡ ok tt
unfolding executable
replacement_ok = refl

verify_update_operators-signed_example :
    (client_id sign_bytes : Bytes) × (ops : List Address) × (get_new_operators packages replacement
      ≡ ok ops)
    × (compute_eip712_cosmos_update_operators packages now.chain_id ibc.store_key client_id 1 ops 1
          1
        ≡ ok sign_bytes)
    × AllPairs
        (λ op sig. recover_address packages (eth.keccak256 sign_bytes) sig ≡ ok op)
        (get_operators packages two_operators)
        replacement.signatures
verify_update_operators-signed_example =
    verify_update_operators-signed packages two_operators now empty_store replacement (omega arith)
      (omega arith) replacement_ok

update_operators-verified_example :
    let cs' = record two_operators {
      operators = replacement.new_operators;
      operators_threshold_numerator = 1;
      operators_threshold_denominator = 1;
      operators_nonce = 1;
    } in
    (s' : Kv) × (ev : List Event) × (update_operators_state packages two_operators empty_store
        replacement
      ≡ ok (s', ev))
    × (kv.get s' ibc.client_state_key ≡ some (ibc.marshal_client_state cs'))
    × AreWellFormed packages cs'
    × (0 < 1)
    × All (λ op. length op ≡ 20) replacement.new_operators
    × (1 ≡ (two_operators.operators_nonce + 1) % two_64)
update_operators-verified_example =
    update_operators-verified packages kv_laws ibc_laws two_operators now empty_store replacement
      replacement_ok

-- ten blocks later
abbrev later : Context
later = record now { self_height = record { revision_number = 0; revision_height = 60 } }

update_operators_no_replay_example :
    verify_update_operators packages
      (with_operators packages two_operators replacement)
      later
      empty_store
      replacement
    ≢ ok tt
update_operators_no_replay_example =
    update_operators_no_replay packages two_operators now later empty_store empty_store replacement
      (omega arith) replacement_ok
