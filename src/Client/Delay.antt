-- ===== src/Client/Delay.antt =====
-- The delay periods: when a packet's proof may be used.
use lcp_go.Common.{
  ℕ, zero, suc, suc-ne-zero, ◌+◌, ◌%◌, ◌≤◌, ◌≡◌, ◌↔◌, ◌⊎◌, inl, inr, refl, false, not, Option, none,
  some, ◌==◌, arith, if◌then◌else◌,
}
use lcp_go.Common.Int.{bits_64, two_64}
use lcp_go.Result.{Result, ok, >>=-eq-ok}
use lcp_go.GoTime.{unix_nano}
use lcp_go.Types.{Height, Context}
use lcp_go.Packages.{Packages}
use lcp_go.Store.{get_processed_time, get_processed_height}
use lcp_go.Client.{time_passed, blocks_passed, verify_delay_period_passed}

or_map {ℓ} : {A B C : Type ℓ} → A ⊎ B → (B → C) → A ⊎ C
or_map (inl a) f = inl a
or_map (inr b) f = inr (f b)

-- a check that is made unless its parameter is zero
unless_zero_sound :
    (n : ℕ) (r : Result (Unit {0}))
    → (if not (n == 0) then r else ok tt) ≡ ok tt
    → (n ≡ 0) ⊎ (r ≡ ok tt)
unless_zero_sound zero r h = inl refl
unless_zero_sound (suc n) r h = inr (rw (suc-ne-zero n) at h)

unless_zero_complete :
    (n : ℕ) (r : Result (Unit {0}))
    → (n ≡ 0) ⊎ (r ≡ ok tt)
    → (if not (n == 0) then r else ok tt) ≡ ok tt
unless_zero_complete zero r h = refl
unless_zero_complete (suc n) r (inl e) = absurd (omega arith)
unless_zero_complete (suc n) r (inr e) = rw (suc-ne-zero n) e

module _ {S : Type 0} (p : Packages S) where
  -- the processed time is recorded, and the block's time has reached it plus the delay
  pub record TimeReached (ctx : Context) (s : S) (h : Height) (delay : ℕ) : Type 0 where
    pub processed : ℕ
    pub recorded : get_processed_time p s h ≡ some processed
    pub reached : (processed + delay) % two_64 ≤ bits_64 (unix_nano ctx.block_time)

  -- the processed height is recorded, and the own height is not below it plus the delay
  pub record HeightReached (ctx : Context) (s : S) (h : Height) (delay : ℕ) : Type 0 where
    pub processed : Height
    pub recorded : get_processed_height p s h ≡ some processed
    pub reached :
        p.ibc.height_lt ctx.self_height
          (record processed { revision_height = (processed.revision_height + delay) % two_64 })
        ≡ false

  time_passed_sound :
      (ctx : Context) (s : S) (h : Height) (delay : ℕ) (o : Option ℕ)
      → get_processed_time p s h ≡ o
      → time_passed p ctx o delay ≡ ok tt
      → TimeReached ctx s h delay
  unfolding time_passed
  time_passed_sound ctx s h delay none e t = cc
  time_passed_sound ctx s h delay (some n) e t = record {
    processed = n;
    recorded = e;
    reached = ground arith;
  }

  time_passed_complete :
      (ctx : Context) (s : S) (h : Height) (delay : ℕ)
      → TimeReached ctx s h delay
      → time_passed p ctx (get_processed_time p s h) delay ≡ ok tt
  unfolding time_passed
  time_passed_complete ctx s h delay t = rw (t.recorded) (ground (arith, t.reached))

  blocks_passed_sound :
      (ctx : Context) (s : S) (h : Height) (delay : ℕ) (o : Option Height)
      → get_processed_height p s h ≡ o
      → blocks_passed p ctx o delay ≡ ok tt
      → HeightReached ctx s h delay
  unfolding blocks_passed
  blocks_passed_sound ctx s h delay none e t = cc
  blocks_passed_sound ctx s h delay (some n) e t = record {
    processed = n;
    recorded = e;
    reached = ground arith;
  }

  blocks_passed_complete :
      (ctx : Context) (s : S) (h : Height) (delay : ℕ)
      → HeightReached ctx s h delay
      → blocks_passed p ctx (get_processed_height p s h) delay ≡ ok tt
  unfolding blocks_passed
  blocks_passed_complete ctx s h delay t = rw (t.recorded) (rw (t.reached) refl)

  -- Both delays have passed exactly when each is zero or its processed value is recorded for the
  -- proof's height and, increased by the delay modulo 2^64, is not after the current block.
  pub verify_delay_period_passed_iff :
      (ctx : Context) (s : S) (h : Height) (time blocks : ℕ)
      → (verify_delay_period_passed p ctx s h time blocks ≡ ok tt)
        ↔ (((time ≡ 0) ⊎ TimeReached ctx s h time) × ((blocks ≡ 0) ⊎ HeightReached ctx s h blocks))
  unfolding verify_delay_period_passed
  verify_delay_period_passed_iff ctx s h time blocks = (
    λ passed.
        let (_, first, second) =
          >>=-eq-ok
            (if not (time == 0) then time_passed p ctx (get_processed_time p s h) time else ok tt) _
            passed in
        (
          or_map (unless_zero_sound time _ first)
              (time_passed_sound ctx s h time (get_processed_time p s h) refl),
          or_map (unless_zero_sound blocks _ second)
              (blocks_passed_sound ctx s h blocks (get_processed_height p s h) refl),
        ),
    λ w.
        rw (unless_zero_complete time _ (or_map (w.0) (time_passed_complete ctx s h time)))
          (unless_zero_complete blocks _ (or_map (w.1) (blocks_passed_complete ctx s h blocks))),
  )
