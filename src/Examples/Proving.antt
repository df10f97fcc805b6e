-- ===== src/Examples/Proving.antt =====
-- A membership proof at a concrete commitment, and the delays at concrete recorded times.
use lcp_go.Common.{ℕ, ◌≡◌, ◌↔◌, ◌⊎◌, refl, Bytes, true, List, [], ◌∷◌, ◌++◌, length, codes, arith}
use lcp_go.Result.{ok}
use lcp_go.Types.{ClientState}
use lcp_go.Store.{set_consensus_state, set_processed_time, get_client_id}
use lcp_go.Store.ClientId.{IsClientId, get_client_id-prefix}
use lcp_go.Client.{verify_delay_period_passed, is_consensus_state_path, verify_membership}
use lcp_go.Client.Delay.{TimeReached, HeightReached, verify_delay_period_passed_iff}
use lcp_go.Client.Membership.{Proven, verify_membership_sound}
use lcp_go.Examples.Sample.{Kv, packages, empty_store, height, signature_by, now, permissionless}
use lcp_go.Examples.Laws.{ibc_laws}
use lcp_go.Examples.Executable.{executable}
use lcp_go.Examples.Signing.{two_keys}

abbrev client : ClientState
client = record permissionless { latest_height = height 0 8 }

-- the state id 9 at height 7
abbrev store : Kv
store =
    set_consensus_state packages two_keys (record { state_id = 9 ∷ []; timestamp = 12 })
      (height 0 7)

-- the value 4 under the path 6
abbrev proof : Bytes
proof = (1 ∷ 2 ∷ 7 ∷ 9 ∷ 6 ∷ 4 ∷ []) ++ signature_by 11

abbrev key_path : List Bytes
key_path = codes "ibc" ∷ (6 ∷ []) ∷ []

proof_ok :
    verify_membership packages client now store (height 0 7) 0 0 proof key_path (4 ∷ []) ≡ ok tt
unfolding executable
proof_ok = refl

verify_membership_sound_example :
    (verify_delay_period_passed packages now store (height 0 7) 0 0 ≡ ok tt)
    × (length key_path ≡ 2)
    × ((is_consensus_state_path packages (6 ∷ []) ≡ true)
        ⊎ Proven packages client now store (height 0 7) proof (codes "ibc") (6 ∷ []) (4 ∷ []))
verify_membership_sound_example =
    verify_membership_sound packages ibc_laws client now store (height 0 7) 0 0 proof key_path
      (4 ∷ []) proof_ok

abbrev timed_store : Kv
timed_store = set_processed_time packages store (height 0 7) 100

verify_delay_period_passed_iff_example :
    (verify_delay_period_passed packages now timed_store (height 0 7) 50 0 ≡ ok tt) ↔ (
      ((◌≡◌ {A = ℕ} 50 0) ⊎ TimeReached packages now timed_store (height 0 7) 50)
      × ((◌≡◌ {A = ℕ} 0 0) ⊎ HeightReached packages now timed_store (height 0 7) 0))
verify_delay_period_passed_iff_example =
    verify_delay_period_passed_iff packages now timed_store (height 0 7) 50 0

lcp-IsClientId : IsClientId packages (codes "lcp-client-0")
unfolding executable
lcp-IsClientId = record { well_formed = refl; lcp_prefix = refl; no_slash = ground arith }

get_client_id-prefix_example : get_client_id packages empty_store ≡ ok (codes "lcp-client-0")
get_client_id-prefix_example =
    get_client_id-prefix packages empty_store (codes "clients") (codes "lcp-client-0") refl
      lcp-IsClientId
