-- ===== src/Examples/Updating.antt =====
-- Headers and evidence at concrete messages, and the client's steps from its creation.
use lcp_go.Common.{codes, ◌≡◌, ◌↔◌, ◌⊎◌, inl, refl, true, false, none, some, List, [], ◌∷◌, All}
use lcp_go.Common.Int.{pos}
use lcp_go.Result.{ok, err}
use lcp_go.GoTime.{unix_time}
use lcp_go.Types.{
  ClientState, AnyConsensusState, lcp, UpdateClientMessage, ClientMessage, update_client,
}
use lcp_go.Message.{UpdateStateProxyMessage, MisbehaviourProxyMessage, empty}
use lcp_go.Message.ValidationContext.{validate}
use lcp_go.Store.{set_client_state}
use lcp_go.EnclaveKey.{Event, get_ek_info}
use lcp_go.EnclaveKey.Info.{info_of}
use lcp_go.Client.{initialize, verify_membership, verify_non_membership, status, active}
use lcp_go.Client.Initialization.{Created, IsValid, initialize_sound, initialize_invalid}
use lcp_go.Update.{
  verify_client_message, check_for_misbehaviour, update_state_of, update_client_state,
  update_state_on_misbehaviour, verify_misbehaviour, with_height,
}
use lcp_go.Update.Heights.{Updated, ◌≤ʰ◌, update_client_state-Updated, with_height_max}
use lcp_go.Update.Progress.{update_state-verified}
use lcp_go.Update.Misbehaviour.{IsStored, verify_misbehaviour_iff}
use lcp_go.Update.Freezing.{frozen_ignored}
use lcp_go.Update.Reachable.{Reach, here, next, update, Reach-enclave_key}
use lcp_go.Update.Delays.{NoneProcessed, missing, delay_never_passes}
use lcp_go.Examples.Sample.{
  Kv, kv, ibc, packages, empty_store, address, height, signature_by, now, permissionless,
}
use lcp_go.Examples.Laws.{kv_laws, ibc_laws, eth_laws}
use lcp_go.Examples.Executable.{executable}
use lcp_go.Examples.Signing.{two_keys}

-- a first header, to height 7 with state id 9 and time 1500, signed by key 11
abbrev header : UpdateClientMessage
header = record {
  proxy_message = 1 ∷ 1 ∷ 0 ∷ 0 ∷ 7 ∷ 9 ∷ 12 ∷ [];
  signatures = signature_by 11 ∷ [];
}

abbrev applied : UpdateStateProxyMessage
applied = record {
  prev_height = none;
  prev_state_id = some (0 ∷ []);
  post_height = height 0 7;
  post_state_id = 9 ∷ [];
  timestamp = 12;
  context = empty;
  emitted_states = [];
}

-- the client and two keys
abbrev created_store : Kv
created_store = set_client_state packages two_keys permissionless

header_ok :
    verify_client_message packages permissionless now created_store (update_client header) ≡ ok tt
unfolding executable
header_ok = refl

header_quiet : check_for_misbehaviour packages (update_client header) ≡ ok false
unfolding executable
header_quiet = refl

update_state-verified_example :
    (s' : Kv) × (ev : List Event) × (update_state_of packages permissionless created_store
        (update_client header)
      ≡ ok (s', ev))
update_state-verified_example =
    update_state-verified packages kv_laws ibc_laws eth_laws permissionless now created_store
      (update_client header) header_ok header_quiet

abbrev updated_store : Kv
updated_store = update_client_state packages permissionless created_store applied

header_done :
    update_state_of packages permissionless created_store (update_client header)
    ≡ ok (updated_store, [])
unfolding executable
header_done = refl

client_stored :
    kv.get created_store ibc.client_state_key ≡ some (ibc.marshal_client_state permissionless)
unfolding executable
client_stored = refl

abbrev one_step : Reach packages created_store updated_store
one_step = next here (
    update permissionless now (update_client header) updated_store [] client_stored header_ok
      header_quiet header_done)

key_11_created :
    get_ek_info packages created_store (address 11)
    ≡ ok (some (info_of (address 1) (unix_time (pos 5000) 0)))
unfolding executable
key_11_created = refl

Reach-enclave_key_example :
    get_ek_info packages updated_store (address 11)
    ≡ ok (some (info_of (address 1) (unix_time (pos 5000) 0)))
Reach-enclave_key_example =
    Reach-enclave_key packages kv_laws ibc_laws eth_laws (address 11)
      (info_of (address 1) (unix_time (pos 5000) 0)) refl key_11_created one_step

update_client_state-Updated_example :
    Updated packages permissionless created_store updated_store applied
update_client_state-Updated_example =
    update_client_state-Updated packages kv_laws ibc_laws permissionless created_store applied

with_height_max_example :
    let cs' = with_height packages permissionless (height 0 7) in
    (◌≤ʰ◌ (height 0 0) cs'.latest_height)
    × (◌≤ʰ◌ (height 0 7) cs'.latest_height)
    × ((cs'.latest_height ≡ height 0 0) ⊎ (cs'.latest_height ≡ height 0 7))
    × (cs' ≡ record permissionless { latest_height = cs'.latest_height })
with_height_max_example = with_height_max packages kv_laws ibc_laws permissionless (height 0 7)

-- evidence that names the state at height 7
abbrev evidence : MisbehaviourProxyMessage
evidence = record {
  prev_states = record { height = height 0 7; state_id = 9 ∷ [] } ∷ [];
  context = empty;
  client_message = [];
}

verify_misbehaviour_iff_example :
    (verify_misbehaviour packages now updated_store evidence ≡ ok tt) ↔ (
      All (IsStored packages updated_store) evidence.prev_states
      × (validate empty now.block_time ≡ ok tt))
verify_misbehaviour_iff_example = verify_misbehaviour_iff packages now updated_store evidence

abbrev signed_evidence : ClientMessage
signed_evidence =
    update_client (record { proxy_message = 1 ∷ 3 ∷ 7 ∷ 9 ∷ []; signatures = signature_by 11 ∷ [] })

frozen_ignored_example :
    let frozen_cs = record permissionless { frozen = true } in
    let s' = update_state_on_misbehaviour packages permissionless updated_store in
    (kv.get s' ibc.client_state_key ≡ some (ibc.marshal_client_state frozen_cs))
    × (verify_client_message packages frozen_cs now s' signed_evidence
        ≡ verify_client_message packages permissionless now updated_store signed_evidence)
    × (verify_membership packages frozen_cs now s'
          (height 0 7)
          0
          0
          (1 ∷ [])
          (codes "ibc" ∷ (8 ∷ []) ∷ [])
          (1 ∷ [])
        ≡ verify_membership packages permissionless now updated_store
            (height 0 7)
            0
            0
            (1 ∷ [])
            (codes "ibc" ∷ (8 ∷ []) ∷ [])
            (1 ∷ []))
    × (verify_non_membership packages frozen_cs now s'
          (height 0 7)
          0
          0
          (1 ∷ [])
          (codes "ibc" ∷ (8 ∷ []) ∷ [])
        ≡ verify_non_membership packages permissionless now updated_store
            (height 0 7)
            0
            0
            (1 ∷ [])
            (codes "ibc" ∷ (8 ∷ []) ∷ []))
    × (status packages frozen_cs now s' ≡ active)
frozen_ignored_example =
    frozen_ignored packages kv_laws ibc_laws permissionless now updated_store signed_evidence
      (height 0 7) 0 0 (1 ∷ []) (codes "ibc" ∷ (8 ∷ []) ∷ []) (1 ∷ [])

abbrev first_consensus : AnyConsensusState
first_consensus = lcp (record { state_id = []; timestamp = 0 })

-- the store that a creation leaves
abbrev new_store : Kv
new_store = λ k.
    kv.get
      (kv.set (set_client_state packages empty_store permissionless)
        (ibc.consensus_state_key (height 0 0)) (0 ∷ []))
      k

creation : initialize packages permissionless empty_store first_consensus ≡ ok new_store
unfolding executable
creation = refl

initialize_sound_example :
    Created packages kv_laws ibc_laws permissionless empty_store first_consensus new_store
    ⊎ ((IsValid permissionless → ⊥) × (new_store ≡ empty_store))
initialize_sound_example =
    initialize_sound packages kv_laws ibc_laws permissionless empty_store new_store first_consensus
      creation

-- without a key expiration, and with an operator that no threshold covers
abbrev invalid : ClientState
invalid = record permissionless { key_expiration = 0; operators = address 1 ∷ [] }

initialize_invalid_example :
    initialize packages invalid empty_store first_consensus ≡ ok empty_store
initialize_invalid_example =
    initialize_invalid packages invalid empty_store first_consensus (inl refl)

none_processed : NoneProcessed packages empty_store
unfolding executable
none_processed = record { time = λ h. refl; height = λ h. refl }

delay_never_passes_example :
    verify_membership packages permissionless now new_store (height 0 0) 10 0 [] [] []
    ≡ err (missing 10)
delay_never_passes_example =
    delay_never_passes packages kv_laws ibc_laws eth_laws permissionless permissionless now
      empty_store new_store new_store first_consensus (height 0 0) 10 0 [] [] [] none_processed
      creation here (λ e. cc)
