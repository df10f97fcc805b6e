-- ===== src/Examples/Activating.antt =====
-- The client on the counterparty is activated with three updates.
use lcp_go.Common.{ℕ, zero, suc, ◌≡◌, ◌∙◌, refl, true, List, codes}
use lcp_go.Result.{Result, ok, err, panic, plain, foreign}
use lcp_go.Message.Decode.{update_client_validate_basic}
use lcp_go.Relay.Prover.{Prover, ProverState, Response}
use lcp_go.Relay.Action.{Action}
use lcp_go.Relay.Elc.{send_headers, send_new_headers, update_elc}
use lcp_go.Relay.Elc.UpdateMessages.{update_message, update_messages}
use lcp_go.Relay.Elc.Activation.{try_update, activate_client}
use lcp_go.Relay.Elc.Activated.{Sent, activate_client-Sent}
use lcp_go.Examples.Sample.{Kv}
use lcp_go.Examples.Restarting.{Files}
use lcp_go.Examples.Renewing.{renewed}
use lcp_go.Examples.Heading.{heads}
use lcp_go.Examples.SampleProver.{prover, any_value}

-- the LCP service has the client
abbrev with_client : Prover Kv ℕ Files ℕ
with_client = record prover {
  client = λ env id.
      ok (record { found = true; client_state = any_value 0 5; consensus_state = any_value 0 9 });
}

abbrev Updating : Type 0
Updating = Action (ProverState ℕ Files ℕ) (List Response)

abbrev again :
    Updating
    → ProverState ℕ Files ℕ × Result (List Response)
    → ProverState ℕ Files ℕ × Result (List Response)
again rest (st, ok updates) = (st, ok updates)
again rest (st, err e) = rest st
again rest (st, panic) = (st, panic)

-- attempts until one gives no error
abbrev retry : ℕ → Updating → Updating
retry zero action st = (st, err (plain (foreign 7)))
retry (suc n) action st = again (retry n action) (action st)

retry-last :
    (n : ℕ) (action : Updating) (st st' : ProverState ℕ Files ℕ) (updates : List Response)
    → retry n action st ≡ (st', ok updates)
    → (st1 : ProverState ℕ Files ℕ) × (action st1 ≡ (st', ok updates))
retry-last zero action st st' updates h = cc
retry-last (suc n) action st st' updates h =
    last (λ x g. retry-last n action x st' updates g) (action st) refl h
  where
    last :
        ((x : ProverState ℕ Files ℕ)
          → retry n action x ≡ (st', ok updates)
          → (st1 : ProverState ℕ Files ℕ) × (action st1 ≡ (st', ok updates)))
        → (r : ProverState ℕ Files ℕ × Result (List Response)) → action st ≡ r
        → again (retry n action) r ≡ (st', ok updates)
        → (st1 : ProverState ℕ Files ℕ) × (action st1 ≡ (st', ok updates))
    last rest (x, ok us) e g = (st, e ∙ g)
    last rest (x, err e') e g = rest x g
    last rest (x, panic) e g = cc

unfoldable activates : Unit {0}
unfolding heads update_client_validate_basic send_headers send_new_headers update_elc update_message
    update_messages try_update activate_client
activates = tt

abbrev activated : ProverState ℕ Files ℕ
activated = record renewed { env = 5 }

activate_done :
    activate_client with_client retry (codes "lcp-client-0") 2 renewed ≡ (activated, ok tt)
unfolding activates
activate_done = refl

activate_client-Sent_example : Sent with_client (codes "lcp-client-0") 5
activate_client-Sent_example =
    activate_client-Sent with_client retry (codes "lcp-client-0") 2 renewed activated
      (record { last_attempt = retry-last }) activate_done
