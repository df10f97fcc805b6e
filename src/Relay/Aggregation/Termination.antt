-- ===== src/Relay/Aggregation/Termination.antt =====
-- `aggregateMessages` ends for all inputs and all services.
use lcp_go.Common.{
  ℕ, zero, suc, ◌≤◌, ◌<◌, ◌≡◌, refl, sym, ap, ◌∙◌, inl, inr, Bytes, true, false, Option, some, List,
  [], ◌∷◌, length, ◌==◌, ltb, ==_iff, Bool-cases, arith,
}
use lcp_go.Result.{
  Result, ok, err, panic, >>=-eq-ok, reject_if-eq-ok, ok-injective, plain, batch_size_below_two,
  no_messages, lengths_differ,
}
use lcp_go.Types.{UpdateClientMessage}
use lcp_go.Relay.Aggregation.{
  MsgAggregateMessages, Aggregator, Pass, done, again, aggregate_batch, aggregate_batches, pass_of,
  pass, split_into_multi_batch, continue_with, aggregate_passes, aggregate_messages,
}
use lcp_go.Relay.Aggregation.Split.{IsDivision, split_into_multi_batch-IsDivision}

module _ (aggregator : Aggregator) where
  aggregate_batches-length :
      (bs : List MsgAggregateMessages) (r : List Bytes × List Bytes)
      → aggregate_batches aggregator bs ≡ ok r
      → (length r.0 ≡ length bs) × (length r.1 ≡ length bs)
  unfolding aggregate_batches
  aggregate_batches-length [] r h = (
    ap (λ x. length x.0) (sym (ok-injective ([], []) r h)),
    ap (λ x. length x.1) (sym (ok-injective ([], []) r h)),
  )
  aggregate_batches-length (b ∷ bs) r h =
      let (one, _, h1) = >>=-eq-ok (aggregate_batch aggregator b) _ h in
      let (others, served, h2) = >>=-eq-ok (aggregate_batches aggregator bs) _ h1 in
      let (m, s) = aggregate_batches-length bs others served in
      let e = ok-injective (one.0 ∷ others.0, one.1 ∷ others.1) r h2 in
      (rw (sym e) (ap suc m), rw (sym e) (ap suc s))

  -- what one pass leaves for the next: fewer messages, but some, with a signature each
  IsLess : ℕ → Pass → Type 0
  IsLess n (done update) = Unit
  IsLess n (again messages signatures) =
      (length messages < n) × (0 < length messages) × (length messages ≡ length signatures)

  pass_of-IsLess :
      (signer : Bytes) (size : ℕ) (messages signatures : List Bytes)
      (bs : List MsgAggregateMessages) (next : Pass)
      → IsDivision signer size messages signatures bs
      → pass_of aggregator bs ≡ ok next
      → IsLess (length messages) next
  unfolding pass_of IsLess
  pass_of-IsLess signer size messages signatures [] next d h = cc
  pass_of-IsLess signer size messages signatures (b ∷ []) next d h =
      let (_, h1) = reject_if-eq-ok (length b.messages == 0) _ _ h in
      let (r, _, h2) = >>=-eq-ok (aggregate_batch aggregator b) _ h1 in
      rw (sym (ok-injective (done (record { proxy_message = r.0; signatures = r.1 ∷ [] })) next h2))
        tt
  pass_of-IsLess signer size messages signatures (b ∷ c ∷ bs) next d h =
      let (r, served, h1) = >>=-eq-ok (aggregate_batches aggregator (b ∷ c ∷ bs)) _ h in
      let (m, s) = aggregate_batches-length (b ∷ c ∷ bs) r served in
      rw (sym (ok-injective (again r.0 r.1) next h1))
        (omega (arith, m, d.few), omega (arith, m), omega (arith, m, s))

  -- an outcome that is an update has one signature
  HasOne : Result UpdateClientMessage → Type 0
  HasOne (ok update) = length update.signatures ≡ 1
  HasOne (err e) = Unit
  HasOne panic = Unit

  IsOutcome : Option (Result UpdateClientMessage) → Type 0
  IsOutcome o = (r : Result UpdateClientMessage) × (o ≡ some r) × HasOne r

  module _ (signer : Bytes) (size : ℕ) where
    continue-IsOutcome :
        (n : ℕ) (r : Result Pass)
        (next : List Bytes → List Bytes → Option (Result UpdateClientMessage))
        → ((p : Pass) → r ≡ ok p → IsLess n p)
        → ((u : UpdateClientMessage) → r ≡ ok (done u) → length u.signatures ≡ 1)
        → ((ms ss : List Bytes)
            → length ms < n
            → 0 < length ms
            → length ms ≡ length ss
            → IsOutcome (next ms ss))
        → IsOutcome (continue_with aggregator r next)
    unfolding continue_with IsLess HasOne IsOutcome
    continue-IsOutcome n (ok (done u)) next less one rest = (ok u, refl, one u refl)
    continue-IsOutcome n (ok (again ms ss)) next less one rest =
        let (fewer, left, paired) = less (again ms ss) refl in rest ms ss fewer left paired
    continue-IsOutcome n (err e) next less one rest = (err e, refl, tt)
    continue-IsOutcome n panic next less one rest = (panic, refl, tt)

    pass_of-one :
        (bs : List MsgAggregateMessages) (u : UpdateClientMessage)
        → pass_of aggregator bs ≡ ok (done u)
        → length u.signatures ≡ 1
    unfolding pass_of
    pass_of-one [] u h = cc
    pass_of-one (b ∷ []) u h =
        let (_, h1) = reject_if-eq-ok (length b.messages == 0) _ _ h in
        let (r, _, h2) = >>=-eq-ok (aggregate_batch aggregator b) _ h1 in
        let made : UpdateClientMessage = record { proxy_message = r.0; signatures = r.1 ∷ [] } in
        let same : made ≡ u = cc (ok-injective (done made) (done u) h2) in
        ap (λ (x : UpdateClientMessage). length x.signatures) (sym same)
    pass_of-one (b ∷ c ∷ bs) u h =
        let (r, _, h1) = >>=-eq-ok (aggregate_batches aggregator (b ∷ c ∷ bs)) _ h in
        cc (ok-injective (again r.0 r.1) (done u) h1)

    passes-IsOutcome :
        (fuel : ℕ) (messages signatures : List Bytes)
        → 2 ≤ size
        → length messages ≤ fuel
        → 0 < length messages
        → length messages ≡ length signatures
        → IsOutcome (aggregate_passes aggregator fuel signer size messages signatures)
    unfolding aggregate_passes pass
    passes-IsOutcome zero messages signatures two le left same =
        let bad : ⊥ = omega (arith, le, left) in absurd bad
    passes-IsOutcome (suc fuel) messages signatures two le left same =
        let (bs, e, d) =
          split_into_multi_batch-IsDivision signer size messages signatures two same in
        rw e (
          continue-IsOutcome (length messages) (pass_of aggregator bs) _
            (λ p h. pass_of-IsLess signer size messages signatures bs p d h)
            (λ u h. pass_of-one bs u h)
            (λ ms ss l s k. passes-IsOutcome fuel ms ss two (omega (arith, l, le)) s k))

    small-IsOutcome :
        (fuel : ℕ) (messages signatures : List Bytes)
        → ltb size 2 ≡ true
        → 0 < fuel
        → IsOutcome (aggregate_passes aggregator fuel signer size messages signatures)
    unfolding aggregate_passes pass split_into_multi_batch continue_with IsOutcome HasOne
    small-IsOutcome zero messages signatures small left =
        let bad : ⊥ = omega (arith, left) in absurd bad
    small-IsOutcome (suc fuel) messages signatures small left =
        (err (plain batch_size_below_two), rw small refl, tt)

    one_of :
        (r : Result UpdateClientMessage)
        → HasOne r
        → (u : UpdateClientMessage) → r ≡ ok u
        → length u.signatures ≡ 1
    unfolding HasOne
    one_of (ok v) one u h =
        ap (λ (x : UpdateClientMessage). length x.signatures) (sym (ok-injective v u h)) ∙ one
    one_of (err e) one u h = cc
    one_of panic one u h = cc

    valid-IsOutcome :
        (messages signatures : List Bytes)
        → (length messages == 0) ≡ false
        → (length messages == length signatures) ≡ true
        → IsOutcome (aggregate_passes aggregator (length messages) signer size messages signatures)
    valid-IsOutcome messages signatures filled paired = elim (Bool-cases (ltb size 2)) [
      | inl small ↦
          small-IsOutcome (length messages) messages signatures small (ground (arith, filled))
      | inr large ↦
          passes-IsOutcome (length messages) messages signatures (ground (arith, large))
            (omega arith) (ground (arith, filled)) ((==_iff _ _).0 paired)
    ]

    tested-IsOutcome :
        (messages signatures : List Bytes)
        → IsOutcome
            (aggregate_messages aggregator (length messages) signer size messages signatures)
    unfolding aggregate_messages IsOutcome HasOne
    tested-IsOutcome messages signatures = elim (Bool-cases (length messages == 0)) [
      | inl e ↦ (err (plain no_messages), rw e refl, tt)
      | inr e ↦ elim (Bool-cases (length messages == length signatures)) [
        | inl paired ↦
            let (r, o, one) = valid-IsOutcome messages signatures e paired in
            (r, rw (e, paired) o, one)
        | inr n ↦ (err (plain lengths_differ), rw (e, n) refl, tt)
      ]
    ]

    -- The aggregation ends for all messages, signatures, batch sizes and services, after at most as
    -- many passes as there are messages. If the outcome is an update, it has one signature.
    pub aggregate_messages_total :
        (messages signatures : List Bytes)
        → (r : Result UpdateClientMessage) × (aggregate_messages aggregator
              (length messages)
              signer
              size
              messages
              signatures
            ≡ some r)
          × ((u : UpdateClientMessage) → r ≡ ok u → length u.signatures ≡ 1)
    unfolding IsOutcome
    aggregate_messages_total messages signatures =
        let (r, o, one) = tested-IsOutcome messages signatures in (r, o, one_of r one)
