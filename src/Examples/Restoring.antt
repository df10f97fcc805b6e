-- ===== src/Examples/Restoring.antt =====
-- The LCP service's client is restored at the height of the counterparty's client.
use lcp_go.Common.{ℕ, ◌≡◌, ◌⊎◌, refl, codes}
use lcp_go.Result.{ok}
use lcp_go.Relay.Prover.{ProverState}
use lcp_go.Relay.Elc.{call_create_client}
use lcp_go.Relay.Elc.Results.{decode_update_state}
use lcp_go.Relay.Elc.RestoreChecks.{
  ensure_missing, counterparty_client_state, restore_height, counterparty_consensus_state,
  state_to_restore, ensure_config_matches, origin_state, ensure_restored,
}
use lcp_go.Relay.Elc.Restoring.{restore_elc}
use lcp_go.Relay.Elc.Restored.{Restored}
use lcp_go.Relay.Elc.RestoreHeight.{restore_elc-height}
use lcp_go.Examples.Laws.{ibc_laws}
use lcp_go.Examples.Restarting.{Files}
use lcp_go.Examples.Sending.{sends}
use lcp_go.Examples.SampleProver.{prover, started}
use lcp_go.Examples.SampleProverLaws.{restore_laws}

unfoldable restores : Unit {0}
unfolding sends call_create_client decode_update_state ensure_missing counterparty_client_state
    restore_height counterparty_consensus_state state_to_restore ensure_config_matches origin_state
    ensure_restored restore_elc
restores = tt

abbrev restored : ProverState ℕ Files ℕ
restored = record started { env = 1 }

restore_done : restore_elc prover (codes "elc") 5 started ≡ (restored, ok tt)
unfolding restores
restore_done = refl

restore_elc-height_example :
    (r : Restored prover (codes "elc") 5 0 1) × (◌≡◌ {A = ℕ} 5 0
      ⊎ (5 ≡ r.client_state.latest_height.revision_height))
restore_elc-height_example =
    restore_elc-height prover restore_laws ibc_laws (codes "elc") 5 started restored restore_done
