-- ===== src/Relay/Headers/Responses.antt =====
-- The responses of the LCP service to the headers that `SetupHeadersForUpdate` sends.
use lcp_go.Common.{◌≡◌, refl, sym, ap, ◌∙◌, subst, Bytes, false, some, List, [], ◌∷◌, map}
use lcp_go.Result.{Result, ok, >>=-eq-ok, map_err-eq-ok, ok-injective}
use lcp_go.Packages.{AnyValue}
use lcp_go.Message.{HeaderedProxyMessage}
use lcp_go.Message.Decode.{eth_abi_decode_headered_proxy_message}
use lcp_go.Relay.ActiveKey.{EnclaveKeyInfo, KeyState}
use lcp_go.Relay.Prover.{Prover, ProverState, Header, Response, MsgUpdateClient}
use lcp_go.Relay.Action.{>>=-inv, reads-inv, pure-inv, pure_first-inv, with_error-inv}
use lcp_go.Relay.Elc.{call_update_client}
use lcp_go.Relay.Elc.Service.{active_key_address}
use lcp_go.Relay.Headers.{sign_headers}
use lcp_go.Relay.Headers.Messages.{is_headered}

abbrev pub messages_of : List Response → List Bytes
messages_of rs = map (λ (r : Response). r.message) rs

abbrev pub signatures_of : List Response → List Bytes
signatures_of rs = map (λ (r : Response). r.signature) rs

module _ {S E F MsgId : Type 0} (pr : Prover S E F MsgId) where
  -- The service was asked to update the ELC with each header in turn, to be signed with one key, and
  -- these are its responses; each of their messages can be decoded.
  pub data AreResponses (signer : Bytes) : List Header → E → E → List Response → Type 0 where
    no_header : {env : E} → AreResponses signer [] env env []
    next_header :
        {header : Header} {headers : List Header} {env env1 env' : E} {r : Response}
        {rs : List Response} (any : AnyValue) (m : HeaderedProxyMessage)
        → header.packed ≡ ok any
        → pr.update_client
            (record {
              client_id = pr.config.elc_client_id;
              header = any;
              include_state = false;
              signer = signer;
            })
            env
          ≡ (env1, ok r)
        → eth_abi_decode_headered_proxy_message pr.packages.abi r.message ≡ ok m
        → AreResponses signer headers env1 env' rs
        → AreResponses signer (header ∷ headers) env env' (r ∷ rs)

  pub active_key_address-eq :
      (st : ProverState E F MsgId) (eki : EnclaveKeyInfo) (signer : Bytes)
      → st.keys.active_enclave_key ≡ some eki
      → active_key_address pr st ≡ ok signer
      → signer ≡ eki.enclave_key_address
  unfolding active_key_address
  active_key_address-eq st eki signer active h =
      sym (ok-injective eki.enclave_key_address signer (rw active at h))

  call_update_client-inv :
      (msg : MsgUpdateClient) (st st' : ProverState E F MsgId) (r : Response)
      → call_update_client pr msg st ≡ (st', ok r)
      → (st'.keys ≡ st.keys) × (pr.update_client msg st.env ≡ (st'.env, ok r))
  unfolding call_update_client
  call_update_client-inv msg st st' r h = (
    sym (ap (λ (x : ProverState E F MsgId × Result Response). x.0.keys) h),
    ap (λ (x : ProverState E F MsgId × Result Response). (x.0.env, x.1)) h,
  )

  is_headered-inv :
      (message : Bytes)
      → is_headered pr message ≡ ok tt
      → (m : HeaderedProxyMessage) × (eth_abi_decode_headered_proxy_message pr.packages.abi message
          ≡ ok m)
  unfolding is_headered
  is_headered-inv message h =
      let (m, decoded, _) = >>=-eq-ok _ _ h in (m, map_err-eq-ok _ _ decoded)

  -- what the loop returns for the headers, with the key in use
  pub record AreSigned (eki : EnclaveKeyInfo) (headers : List Header)
      (st st' : ProverState E F MsgId) (signed : List Bytes × List Bytes) : Type 0 where
    pub responses : List Response
    pub answered : AreResponses eki.enclave_key_address headers st.env st'.env responses
    pub listed : (messages_of responses, signatures_of responses) ≡ signed
    pub same_keys : st'.keys ≡ st.keys

  pub sign_headers-AreSigned :
      (eki : EnclaveKeyInfo) (headers : List Header) (st st' : ProverState E F MsgId)
      (signed : List Bytes × List Bytes)
      → st.keys.active_enclave_key ≡ some eki
      → sign_headers pr headers st ≡ (st', ok signed)
      → AreSigned eki headers st st' signed
  unfolding sign_headers
  sign_headers-AreSigned eki [] st st' signed active h =
      let (same, e) = pure-inv (ok ([], [])) st h in
      subst (λ s. AreSigned eki [] st s signed) same
        (record {
          responses = [];
          answered = no_header;
          listed = ok-injective ([], []) signed e;
          same_keys = refl;
        })
  sign_headers-AreSigned eki (header ∷ headers) st st' signed active h =
      let (any, packed, h1) = pure_first-inv _ _ st h in
      let (signer, by_key, h2) = reads-inv (active_key_address pr) _ st h1 in
      let (st1, response, sent, h3) = >>=-inv _ _ st h2 in
      let (_, headered, h4) = pure_first-inv (is_headered pr response.message) _ st1 h3 in
      let (st2, others, signs, h5) = >>=-inv (sign_headers pr headers) _ st1 h4 in
      let (same, e) = pure-inv _ st2 h5 in
      let (keys, called) = call_update_client-inv _ st st1 response (with_error-inv _ _ st sent) in
      let active1 = ap (λ (k : KeyState F MsgId). k.active_enclave_key) keys ∙ active in
      let v = sign_headers-AreSigned eki headers st1 st2 others active1 signs in
      let (m, decoded) = is_headered-inv response.message headered in
      subst (λ s. AreSigned eki (header ∷ headers) st s signed) same
        (record {
          responses = response ∷ v.responses;
          answered =
              next_header any m (map_err-eq-ok _ _ packed)
                (subst
                  (λ a.
                    pr.update_client
                      (record {
                        client_id = pr.config.elc_client_id;
                        header = any;
                        include_state = false;
                        signer = a;
                      })
                      st.env
                    ≡ (st1.env, ok response))
                  (active_key_address-eq st eki signer active by_key) called)
                decoded (v.answered);
          listed =
              ap
                (λ (l : List Bytes × List Bytes).
                  (response.message ∷ l.0, response.signature ∷ l.1))
                (v.listed)
              ∙ ok-injective _ signed e;
          same_keys = v.same_keys ∙ keys;
        })
