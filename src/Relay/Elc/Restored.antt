-- ===== src/Relay/Elc/Restored.antt =====
-- What a restoration of the LCP service's client guarantees, and for which heights there is one.
use lcp_go.Common.{
  ℕ, ◌≡◌, ◌∙◌, ap, Bytes, true, not, some, List, ◌==◌, ==_iff, bytes_eq, bytes_eq_sound,
  not-eq-false,
}
use lcp_go.Result.{Result, ok, >>=-eq-ok, reject_if-eq-ok, reject_if-last}
use lcp_go.Types.{Height, ClientState, ConsensusState}
use lcp_go.Packages.{AnyValue}
use lcp_go.Packages.Documented.{IbcLaws}
use lcp_go.Client.Membership.{eq_of_height_eq}
use lcp_go.Message.{UpdateStateProxyMessage}
use lcp_go.Relay.Config.{get_mrenclave}
use lcp_go.Relay.Prover.{
  Prover, ProverState, Response, MsgCreateClient, ExportedClientState, ExportedConsensusState,
}
use lcp_go.Relay.Action.{>>=-inv, reads-inv, pure-inv, pure_first-inv, with_error-inv}
use lcp_go.Relay.Elc.{call_create_client}
use lcp_go.Relay.Elc.Results.{decode_update_state}
use lcp_go.Relay.Elc.RestoreChecks.{
  ensure_missing, state_to_restore, ensure_config_matches, origin_state, ensure_restored,
}
use lcp_go.Relay.Elc.Restoring.{restore_elc}

module _ {S E F MsgId : Type 0} (pr : Prover S E F MsgId) where
  -- what the chains and the services promise: the origin's initial state is the one at the height
  -- that is asked for, the LCP service's message for a new client is about the height of the client
  -- state, and the latest height of this program's client state is its field
  pub record RestoreLaws : Type 0 where
    pub initial_height :
        (env : E) (h : Height) (cs : ExportedClientState) (cons : ExportedConsensusState)
        → pr.create_initial_state env (some h) ≡ ok (cs, cons)
        → cs.latest_height ≡ h
    pub created_height :
        (env env' : E) (msg : MsgCreateClient) (response : Response) (h : Height)
        (cs : ExportedClientState) (cons : ExportedConsensusState) (m : UpdateStateProxyMessage)
        → pr.create_initial_state env (some h) ≡ ok (cs, cons)
        → pr.create_client msg env ≡ (env', ok response)
        → cs.packed ≡ ok msg.client_state
        → decode_update_state pr response.message ≡ ok m
        → m.post_height ≡ cs.latest_height
    pub as_lcp_height :
        (any_state : AnyValue) (x : ExportedClientState) (cs : ClientState)
        → pr.unpack_client_state any_state ≡ ok x
        → x.as_lcp ≡ some cs
        → x.latest_height ≡ cs.latest_height
    pub deep_equal_sound : (a b : List Bytes) → pr.deep_equal a b ≡ true → a ≡ b

  -- the configuration is that of the client
  pub record ConfigMatches (cs : ClientState) : Type 0 where
    pub mrenclave : get_mrenclave pr.config ≡ ok cs.mrenclave
    pub key_expiration : pr.config.key_expiration ≡ cs.key_expiration
    pub allowed_quote_statuses : pr.config.allowed_quote_statuses ≡ cs.allowed_quote_statuses
    pub allowed_advisory_ids : pr.config.allowed_advisory_ids ≡ cs.allowed_advisory_ids

  -- the client that was created, and what the counterparty has
  pub record Restored (client_id : Bytes) (height : ℕ) (env env' : E) : Type 0 where
    pub missing : ensure_missing pr client_id env ≡ ok tt
    pub client_state : ClientState
    pub consensus_state : ConsensusState
    pub at_height : Height
    pub read : state_to_restore pr height env ≡ ok (client_state, consensus_state, at_height)
    pub matches : ConfigMatches client_state
    pub states : AnyValue × AnyValue
    pub of_origin : origin_state pr client_state env ≡ ok states
    pub signer : Bytes
    pub response : Response
    pub sent :
        pr.create_client
          (record {
            client_id = client_id;
            client_state = states.0;
            consensus_state = states.1;
            signer = signer;
          })
          env
        ≡ (env', ok response)
    pub m : UpdateStateProxyMessage
    pub decoded : decode_update_state pr response.message ≡ ok m
    pub same_state : m.post_state_id ≡ consensus_state.state_id
    pub same_height : m.post_height ≡ at_height

  module _ (laws : RestoreLaws) (il : IbcLaws pr.packages.ibc) where
    ensure_config_matches_sound :
        (cs : ClientState) → ensure_config_matches pr cs ≡ ok tt → ConfigMatches cs
    unfolding ensure_config_matches
    ensure_config_matches_sound cs h =
        let (m, decoded, h1) = >>=-eq-ok (get_mrenclave pr.config) _ h in
        let (same, h2) = reject_if-eq-ok (not (bytes_eq m cs.mrenclave)) _ _ h1 in
        let (expires, h3) =
          reject_if-eq-ok (not (pr.config.key_expiration == cs.key_expiration)) _ _ h2 in
        let (_, h4) = reject_if-eq-ok _ _ _ h3 in
        let (statuses, h5) =
          reject_if-eq-ok
            (not (pr.deep_equal pr.config.allowed_quote_statuses cs.allowed_quote_statuses)) _ _
            h4 in
        record {
          mrenclave = decoded ∙ ap ok (bytes_eq_sound _ _ (not-eq-false _ same));
          key_expiration = (==_iff _ _).0 (not-eq-false _ expires);
          allowed_quote_statuses = laws.deep_equal_sound _ _ (not-eq-false _ statuses);
          allowed_advisory_ids = laws.deep_equal_sound _ _ (not-eq-false _ (reject_if-last _ _ h5));
        }

    ensure_restored_sound :
        (cons : ConsensusState) (at_height : Height) (response : Response)
        → ensure_restored pr cons at_height response ≡ ok tt
        → (m : UpdateStateProxyMessage) × (decode_update_state pr response.message ≡ ok m)
          × (m.post_state_id ≡ cons.state_id)
          × (m.post_height ≡ at_height)
    unfolding ensure_restored
    ensure_restored_sound cons at_height response h =
        let (m, decoded, h1) = >>=-eq-ok (decode_update_state pr response.message) _ h in
        let (states, h2) = reject_if-eq-ok (not (bytes_eq m.post_state_id cons.state_id)) _ _ h1 in
        (
          m,
          decoded,
          bytes_eq_sound _ _ (not-eq-false _ states),
          eq_of_height_eq pr.packages il _ _ (not-eq-false _ (reject_if-last _ _ h2)),
        )

    -- the rest of the method once the counterparty was read
    Created : Bytes → ClientState → ConsensusState → Height → E → E → Type 0
    Created client_id cs cons at_height env env' =
        (states : AnyValue × AnyValue) × (origin_state pr cs env ≡ ok states)
        × (signer : Bytes) × (response : Response) × (pr.create_client
              (record {
                client_id = client_id;
                client_state = states.0;
                consensus_state = states.1;
                signer = signer;
              })
              env
            ≡ (env', ok response))
        × (ensure_restored pr cons at_height response ≡ ok tt)

    call_create_client-env :
        (msg : MsgCreateClient) (st st' : ProverState E F MsgId) (r : Response)
        → call_create_client pr msg st ≡ (st', ok r)
        → pr.create_client msg st.env ≡ (st'.env, ok r)
    unfolding call_create_client
    call_create_client-env msg st st' r h =
        ap (λ (x : ProverState E F MsgId × Result Response). (x.0.env, x.1)) h

    restore_elc-steps :
        (client_id : Bytes) (height : ℕ) (st st' : ProverState E F MsgId)
        → restore_elc pr client_id height st ≡ (st', ok tt)
        → (ensure_missing pr client_id st.env ≡ ok tt)
          × (cs : ClientState) × (cons : ConsensusState) × (at_height : Height) × (state_to_restore
                pr height st.env
              ≡ ok (cs, cons, at_height))
          × (ensure_config_matches pr cs ≡ ok tt)
          × Created client_id cs cons at_height st.env st'.env
    unfolding restore_elc Created
    restore_elc-steps client_id height st st' h =
        let (_, missing, h1) = reads-inv _ _ st h in
        let (found, read, h2) = reads-inv _ _ st h1 in
        let (_, matches, h3) = pure_first-inv (ensure_config_matches pr found.0) _ st h2 in
        let (states, of_origin, h4) = reads-inv _ _ st h3 in
        let (key, _, h5) = reads-inv _ _ st h4 in
        let (st2, response, created, h6) = >>=-inv _ _ st h5 in
        let (same, restored) = pure-inv (ensure_restored pr (found.1) (found.2) response) st2 h6 in
        (
          missing,
          found.0,
          found.1,
          found.2,
          read,
          matches,
          (
            states,
            of_origin,
            key.enclave_key_address,
            response,
            call_create_client-env _ st st2 response (with_error-inv _ _ st created)
                ∙ ap (λ (x : ProverState E F MsgId). (x.env, ok response)) same,
            restored,
          ),
        )

    -- A restoration without an error has created the client, which the LCP service did not have, from
    -- the origin's state. The counterparty's client is configured as the prover is, and the message
    -- for the new client has the state id of the counterparty's consensus state at the height to
    -- restore, and this height.
    pub restore_elc-Restored :
        (client_id : Bytes) (height : ℕ) (st st' : ProverState E F MsgId)
        → restore_elc pr client_id height st ≡ (st', ok tt)
        → Restored client_id height st.env st'.env
    unfolding Created
    restore_elc-Restored client_id height st st' h =
        let (
          missing,
          cs,
          cons,
          at_height,
          found,
          matches,
          (states, of_origin, signer, response, sent, e),
        ) =
          restore_elc-steps client_id height st st' h in
        let (m, decoded, same_state, same_height) =
          ensure_restored_sound cons at_height response e in
        record {
          missing = missing;
          client_state = cs;
          consensus_state = cons;
          at_height = at_height;
          read = found;
          matches = ensure_config_matches_sound cs matches;
          states = states;
          of_origin = of_origin;
          signer = signer;
          response = response;
          sent = sent;
          m = m;
          decoded = decoded;
          same_state = same_state;
          same_height = same_height;
        }
