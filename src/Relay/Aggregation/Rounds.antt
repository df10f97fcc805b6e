-- ===== src/Relay/Aggregation/Rounds.antt =====
-- The outer loop of `aggregateMessages` ends, with a message for all that was given.
use lcp_go.Common.{
  ℕ, zero, suc, ◌≤◌, ◌<◌, ◌≡◌, inl, inr, refl, sym, ap, ◌∙◌, Bytes, true, false, Option, some, List,
  [], ◌∷◌, ◌++◌, length, All, ◌==◌, ==_iff, Bool-cases, arith,
}
use mathlib.Core.List.{append-nil, append_assoc}
use lcp_go.Result.{Result, ok}
use lcp_go.Types.{UpdateClientMessage}
use lcp_go.Relay.Aggregation.{
  MsgAggregateMessages, Aggregator, index, aggregate_batch, aggregate_batches, pass_of, pass,
  continue_with, aggregate_passes, aggregate_messages,
}
use lcp_go.Relay.Aggregation.Slices.{join}
use lcp_go.Relay.Aggregation.Split.{IsBatch, IsDivision, split_into_multi_batch-IsDivision}

join-append {ℓ κ} :
    {A : Type ℓ} {B : Type κ} (f : A → List B) (xs ys : List A)
    → join f (xs ++ ys) ≡ join f xs ++ join f ys
join-append f [] ys = refl
join-append f (x ∷ xs) ys =
    ap (λ r. f x ++ r) (join-append f xs ys) ∙ sym (append_assoc (f x) (join f xs) (join f ys))

-- The service aggregates each batch of two messages or more, and its message has the content of the
-- batch.
pub record Serves {X : Type 0} (aggregator : Aggregator) (signer : Bytes) (size : ℕ)
    (content : Bytes → List X) : Type 0 where
  pub serves :
      (b : MsgAggregateMessages)
      → IsBatch signer size b
      → 1 < length b.messages
      → (message signature : Bytes) × (aggregator b ≡ ok (message, signature))
        × (content message ≡ join content b.messages)

index_one : (x : Bytes) (xs : List Bytes) → index (x ∷ xs) 0 ≡ ok x
unfolding index
index_one x xs = refl

module _ {X : Type 0} (aggregator : Aggregator) (signer : Bytes) (size : ℕ)
    (content : Bytes → List X) (service : Serves aggregator signer size content) where
  single :
      (by : Bytes) (messages signatures : List Bytes)
      → length messages ≡ 1
      → length messages ≡ length signatures
      → (message signature : Bytes) × (aggregate_batch aggregator
            (record { signer = by; messages = messages; signatures = signatures })
          ≡ ok (message, signature))
        × (content message ≡ join content messages)
  unfolding aggregate_batch index
  single by (m ∷ []) (s ∷ signatures) one same = (m, s, refl, sym (append-nil (content m)))
  single by [] signatures one same = let bad : ⊥ = omega (arith, one) in absurd bad
  single by (m ∷ n ∷ ms) signatures one same = let bad : ⊥ = omega (arith, one) in absurd bad
  single by (m ∷ []) [] one same = let bad : ⊥ = omega (arith, same) in absurd bad

  aggregate_batch-content :
      (b : MsgAggregateMessages)
      → IsBatch signer size b
      → (message signature : Bytes) × (aggregate_batch aggregator b ≡ ok (message, signature))
        × (content message ≡ join content b.messages)
  unfolding aggregate_batch
  aggregate_batch-content b v = elim (Bool-cases (length b.messages == 1)) [
    | inl e ↦ single b.signer b.messages b.signatures ((==_iff _ _).0 e) v.paired
    | inr e ↦
        let (message, signature, served, same) =
          service.serves b v (ground (arith, e, v.not_empty)) in
        (message, signature, rw (e, served) refl, same)
  ]

  aggregate_batches-content :
      (bs : List MsgAggregateMessages)
      → All (IsBatch signer size) bs
      → (messages signatures : List Bytes) × (aggregate_batches aggregator bs
          ≡ ok (messages, signatures))
        × (length messages ≡ length bs)
        × (length messages ≡ length signatures)
        × (join content messages ≡ join content (join (λ b. b.messages) bs))
  unfolding aggregate_batches
  aggregate_batches-content [] v = ([], [], refl, refl, refl, refl)
  aggregate_batches-content (b ∷ bs) v =
      let (m, s, e, c) = aggregate_batch-content b (v.0) in
      let (ms, ss, es, n, k, cs) = aggregate_batches-content bs (v.1) in
      (
        m ∷ ms,
        s ∷ ss,
        rw (e, es) refl,
        ap suc n,
        ap suc k,
        ap (λ r. r ++ join content ms) c
            ∙ ap (λ r. join content b.messages ++ r) cs
            ∙ sym (join-append content b.messages (join (λ b. b.messages) bs)),
      )

  -- the loop returned an update for these messages
  Returned : List Bytes → Option (Result UpdateClientMessage) → Type 0
  Returned messages r =
      (update : UpdateClientMessage) × (r ≡ some (ok update))
      × (content update.proxy_message ≡ join content messages)
      × (length update.signatures ≡ 1)

  pass-Returned :
      (fuel : ℕ) (messages signatures : List Bytes) (bs : List MsgAggregateMessages)
      → ((ms ss : List Bytes)
          → length ms ≤ fuel
          → 0 < length ms
          → length ms ≡ length ss
          → Returned ms (aggregate_passes aggregator fuel signer size ms ss))
      → length messages ≤ suc fuel
      → 0 < length messages
      → IsDivision signer size messages signatures bs
      → Returned messages (
          continue_with aggregator
            (pass_of aggregator bs)
            (aggregate_passes aggregator fuel signer size))
  unfolding Returned pass_of continue_with
  pass-Returned fuel messages signatures [] next le some_left d =
      let bad : ⊥ = omega (arith, some_left, ap (λ (l : List Bytes). length l) (d.all_messages)) in
      absurd bad
  pass-Returned fuel messages signatures (b ∷ []) next le some_left d =
      let (m, s, e, c) = aggregate_batch-content b (d.each.0) in
      let filled : (length b.messages == 0) ≡ false = ground (arith, d.each.0.not_empty) in
      (
        record { proxy_message = m; signatures = s ∷ [] },
        rw (filled, e) refl,
        c ∙ ap (join content) (sym (append-nil b.messages) ∙ d.all_messages),
        refl,
      )
  pass-Returned fuel messages signatures (b ∷ c ∷ bs) next le some_left d =
      let (ms, ss, e, n, k, same) = aggregate_batches-content (b ∷ c ∷ bs) (d.each) in
      let (update, r, content_of, one) =
        next ms ss (omega (arith, n, le, d.few)) (omega (arith, n)) k in
      (update, rw e r, content_of ∙ same ∙ ap (join content) (d.all_messages), one)

  aggregate_passes-Returned :
      (fuel : ℕ) (messages signatures : List Bytes)
      → 2 ≤ size
      → length messages ≤ fuel
      → 0 < length messages
      → length messages ≡ length signatures
      → Returned messages (aggregate_passes aggregator fuel signer size messages signatures)
  unfolding aggregate_passes pass
  aggregate_passes-Returned zero messages signatures two le some_left same =
      let bad : ⊥ = omega (arith, le, some_left) in absurd bad
  aggregate_passes-Returned (suc fuel) messages signatures two le some_left same =
      let (bs, e, d) = split_into_multi_batch-IsDivision signer size messages signatures two same in
      rw e (
        pass-Returned fuel messages signatures bs
          (λ ms ss l s k. aggregate_passes-Returned fuel ms ss two l s k) le some_left d)

  -- With a batch size of at least two, and messages with a signature each, the aggregation ends after
  -- at most as many passes as there are messages, if the service aggregates each batch. The one
  -- update has the content of all messages in their order, and one signature.
  pub aggregate_messages-content :
      (messages signatures : List Bytes)
      → 2 ≤ size
      → 0 < length messages
      → length messages ≡ length signatures
      → (update : UpdateClientMessage) × (aggregate_messages aggregator
            (length messages)
            signer
            size
            messages
            signatures
          ≡ some (ok update))
        × (content update.proxy_message ≡ join content messages)
        × (length update.signatures ≡ 1)
  unfolding aggregate_messages Returned
  aggregate_messages-content messages signatures two some_left same =
      let filled : (length messages == 0) ≡ false = ground (arith, some_left) in
      let paired : (length messages == length signatures) ≡ true = (==_iff _ _).1 same in
      rw (filled, paired)
        (aggregate_passes-Returned (length messages) messages signatures two (omega arith) some_left
          same)
