-- ===== src/Update/Delays.antt =====
-- No step of the client records when a header was processed, so no delay period ever passes.
use lcp_go.Common.{
  ℕ, zero, suc, ◌+◌, ◌≡◌, ◌≢◌, ◌∙◌, inl, inr, refl, ap, Bytes, none, List, suc-ne-zero,
}
use lcp_go.Result.{
  Error, ok, err, wrapped, plain, processed_time_not_found, no_processed_time,
  processed_height_not_found, no_processed_height,
}
use lcp_go.Types.{Height, ClientState, AnyConsensusState, Context}
use lcp_go.Packages.{Packages}
use lcp_go.Packages.Documented.{KvStoreLaws, IbcLaws, EthereumLaws}
use lcp_go.Store.{get_processed_time, get_processed_height}
use lcp_go.Store.Keys.{
  get_processed_time-set_client, get_processed_time-set_consensus, get_processed_height-set_client,
  get_processed_height-set_consensus,
}
use lcp_go.Client.{
  initialize, verify_delay_period_passed, time_passed, blocks_passed, verify_membership,
}
use lcp_go.Client.Initialization.{Created, initialize_sound}
use lcp_go.Update.Reachable.{Reach, Reach-Keeps}

-- the store has no processed time and no processed height
pub record NoneProcessed {S : Type 0} (p : Packages S) (s : S) : Type 0 where
  pub time : (h : Height) → get_processed_time p s h ≡ none
  pub height : (h : Height) → get_processed_height p s h ≡ none

-- the error of a proof with a delay: of the time, if a time is asked for, else of the height
abbrev pub missing : ℕ → Error
missing zero = wrapped processed_height_not_found (plain no_processed_height)
missing (suc n) = wrapped processed_time_not_found (plain no_processed_time)

module _ {S : Type 0} (p : Packages S) where
  delay_missing :
      (ctx : Context) (s : S) (h : Height) (time blocks : ℕ)
      → NoneProcessed p s
      → time + blocks ≢ 0
      → verify_delay_period_passed p ctx s h time blocks ≡ err (missing time)
  unfolding verify_delay_period_passed time_passed blocks_passed
  delay_missing ctx s h zero zero n some_delay = absurd (some_delay refl)
  delay_missing ctx s h zero (suc b) n some_delay = rw (suc-ne-zero b) (rw (n.height h) refl)
  delay_missing ctx s h (suc t) b n some_delay = rw (suc-ne-zero t) (rw (n.time h) refl)

  membership_missing :
      (cs : ClientState) (ctx : Context) (s : S) (h : Height) (time blocks : ℕ) (proof : Bytes)
      (key_path : List Bytes) (value : Bytes) (e : Error)
      → verify_delay_period_passed p ctx s h time blocks ≡ err e
      → verify_membership p cs ctx s h time blocks proof key_path value ≡ err e
  unfolding verify_membership
  membership_missing cs ctx s h time blocks proof key_path value e d = rw d refl

module _ {S : Type 0} (p : Packages S) (kl : KvStoreLaws p.kv) (il : IbcLaws p.ibc)
    (el : EthereumLaws p.eth) where
  written-NoneProcessed :
      (cs : ClientState) (s s1 : S) (a : AnyConsensusState)
      → Created p kl il cs s a s1
      → NoneProcessed p s
      → NoneProcessed p s1
  written-NoneProcessed cs s s1 a c n = record {
    time = λ h.
        ap (λ x. get_processed_time p x h) c.written
        ∙ get_processed_time-set_consensus p kl il _ c.cons cs.latest_height h
        ∙ get_processed_time-set_client p kl il s cs h
        ∙ n.time h;
    height = λ h.
        ap (λ x. get_processed_height p x h) c.written
        ∙ get_processed_height-set_consensus p kl il _ c.cons cs.latest_height h
        ∙ get_processed_height-set_client p kl il s cs h
        ∙ n.height h;
  }

  created-NoneProcessed :
      (cs : ClientState) (s s1 : S) (a : AnyConsensusState)
      → initialize p cs s a ≡ ok s1
      → NoneProcessed p s
      → NoneProcessed p s1
  created-NoneProcessed cs s s1 a h n = elim (initialize_sound p kl il cs s s1 a h) [
    | inl c ↦ written-NoneProcessed cs s s1 a c n
    | inr (_, same) ↦ record {
      time = λ k. ap (λ x. get_processed_time p x k) same ∙ n.time k;
      height = λ k. ap (λ x. get_processed_height p x k) same ∙ n.height k;
    }
  ]

  -- On a client that was created in a store without processed times and heights, a membership proof
  -- with a delay period is refused after any steps of the client: the processed time, or the height
  -- where no time is asked for, is not found.
  pub delay_never_passes :
      (cs0 cs : ClientState) (ctx : Context) (s0 s1 s2 : S) (a : AnyConsensusState) (h : Height)
      (time blocks : ℕ) (proof : Bytes) (key_path : List Bytes) (value : Bytes)
      → NoneProcessed p s0
      → initialize p cs0 s0 a ≡ ok s1
      → Reach p s1 s2
      → time + blocks ≢ 0
      → verify_membership p cs ctx s2 h time blocks proof key_path value ≡ err (missing time)
  delay_never_passes cs0 cs ctx s0 s1 s2 a h time blocks proof key_path value n created r
        some_delay =
      let k = Reach-Keeps p kl il el r in
      let n1 = created-NoneProcessed cs0 s0 s1 a created n in
      let n2 : NoneProcessed p s2 = record {
        time = λ g. k.times g ∙ n1.time g;
        height = λ g. k.heights g ∙ n1.height g;
      } in
      membership_missing p cs ctx s2 h time blocks proof key_path value _
        (delay_missing p ctx s2 h time blocks n2 some_delay)
