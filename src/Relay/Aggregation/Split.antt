-- ===== src/Relay/Aggregation/Split.antt =====
-- What `splitIntoMultiBatch` splits into: parts of at most the batch size that put together are the
-- messages and the signatures.
use lcp_go.Common.{
  ℕ, ◌+◌, ◌*◌, ◌≤◌, ◌<◌, ◌≡◌, inl, inr, refl, sym, ap, ◌∙◌, subst, Bytes, false, List, [], ◌∷◌,
  ◌++◌, length, take, drop, All, length-append, take_all, ltb, ◌==◌, ==_iff, Bool-cases, arith,
  length-take, length-drop,
}
use mathlib.Core.List.{append-nil, append_assoc}
use lcp_go.Result.{ok}
use lcp_go.Relay.Aggregation.{
  MsgAggregateMessages, SplitState, add_message, add_messages, add_rest, split_into_multi_batch,
}
use lcp_go.Relay.Aggregation.Slices.{join, join-append_one, All-append_one, take_add, slice_lem}

-- a batch for the service: not empty, of at most the batch size, with a signature for each message
pub record IsBatch (signer : Bytes) (size : ℕ) (b : MsgAggregateMessages) : Type 0 where
  pub same_signer : b.signer ≡ signer
  pub not_empty : 0 < length b.messages
  pub not_above : length b.messages ≤ size
  pub paired : length b.messages ≡ length b.signatures

module _ (signer : Bytes) (size : ℕ) (signatures : List Bytes) where
  -- after `i` messages, those in the argument
  record IsSplit (taken : List Bytes) (i : ℕ) (st : SplitState) : Type 0 where
    all_messages : join (λ b. b.messages) st.res ++ st.current_messages ≡ taken
    all_signatures : join (λ b. b.signatures) st.res ≡ take st.start_index signatures
    position : st.start_index + length st.current_messages ≡ i
    room : length st.current_messages < size
    few : 2 * length st.res ≤ st.start_index
    batches : All (IsBatch signer size) st.res

  length-append_one : (xs : List Bytes) (x : Bytes) → length (xs ++ x ∷ []) ≡ length xs + 1
  length-append_one xs x = length-append xs (x ∷ [])

  -- the batch of these messages and of the signatures from `start` on
  batch_at : List Bytes → ℕ → MsgAggregateMessages
  batch_at current start = record {
    signer = signer;
    messages = current;
    signatures = take (length current) (drop start signatures);
  }

  batch_at-IsBatch :
      (current : List Bytes) (start : ℕ)
      → 0 < length current
      → length current ≤ size
      → start + length current ≤ length signatures
      → IsBatch signer size (batch_at current start)
  unfolding batch_at
  batch_at-IsBatch current start some_left le inside = record {
    same_signer = refl;
    not_empty = some_left;
    not_above = le;
    paired =
        omega (
          arith,
          length-take (length current) (drop start signatures),
          length-drop start signatures,
        );
  }

  -- the state after a batch was put off
  closed : SplitState → List Bytes → ℕ → SplitState
  closed st current i = record {
    current_messages = [];
    start_index = i;
    res = st.res ++ batch_at current st.start_index ∷ [];
  }

  closed-IsSplit :
      (taken : List Bytes) (i : ℕ) (message : Bytes) (st : SplitState)
      → 2 ≤ size
      → IsSplit taken i st
      → i < length signatures
      → length (st.current_messages ++ message ∷ []) ≡ size
      → IsSplit
          (taken ++ message ∷ [])
          (i + 1)
          (closed st (st.current_messages ++ message ∷ []) (i + 1))
  unfolding closed batch_at
  closed-IsSplit taken i message st two v inside full =
      let current = st.current_messages ++ message ∷ [] in
      let b = batch_at current st.start_index in
      let n : length current ≡ length st.current_messages + 1 =
        length-append_one st.current_messages message in
      record {
        all_messages =
            append-nil _
            ∙ join-append_one (λ b. b.messages) st.res b
            ∙ sym (append_assoc _ st.current_messages (message ∷ []))
            ∙ ap (λ r. r ++ message ∷ []) (v.all_messages);
        all_signatures =
            join-append_one (λ b. b.signatures) st.res b
            ∙ ap (λ r. r ++ take (length current) (drop st.start_index signatures))
                (v.all_signatures)
            ∙ sym (take_add st.start_index (length current) signatures)
            ∙ ap (λ k. take k signatures) (omega (arith, n, v.position));
        position = omega arith;
        room = omega arith;
        few = omega (arith, n, v.position, v.few, length-append st.res (b ∷ []));
        batches = All-append_one (IsBatch signer size) st.res b (v.batches) (
            batch_at-IsBatch current st.start_index (omega (arith, n)) (omega (arith, full))
              (omega (arith, n, v.position)));
      }

  add_message-IsSplit :
      (taken : List Bytes) (i : ℕ) (message : Bytes) (st : SplitState)
      → 2 ≤ size
      → IsSplit taken i st
      → i < length signatures
      → (st' : SplitState) × (add_message signer size signatures i message st ≡ ok st')
        × IsSplit (taken ++ message ∷ []) (i + 1) st'
  unfolding add_message closed batch_at
  add_message-IsSplit taken i message st two v inside =
      let current = st.current_messages ++ message ∷ [] in
      let n : length current ≡ length st.current_messages + 1 =
        length-append_one st.current_messages message in
      elim (Bool-cases (length current == size)) [
        | inl e ↦
            let full : length current ≡ size = (==_iff _ _).0 e in
            (
              closed st current (i + 1),
              rw
                  (
                    e,
                    sym full,
                    slice_lem signatures st.start_index (length current)
                        (omega (arith, n, v.position)),
                  )
                  refl,
              closed-IsSplit taken i message st two v inside full,
            )
        | inr e ↦ (
          record st { current_messages = current },
          rw e refl,
          record {
            all_messages =
                sym (append_assoc _ st.current_messages (message ∷ []))
                ∙ ap (λ r. r ++ message ∷ []) (v.all_messages);
            all_signatures = v.all_signatures;
            position = omega (arith, n, v.position);
            room = ground (arith, n, v.room, e);
            few = v.few;
            batches = v.batches;
          },
        )
      ]

  add_messages-IsSplit :
      (taken : List Bytes) (i : ℕ) (messages : List Bytes) (st : SplitState)
      → 2 ≤ size
      → IsSplit taken i st
      → i + length messages ≤ length signatures
      → (st' : SplitState) × (add_messages signer size signatures i messages st ≡ ok st')
        × IsSplit (taken ++ messages) (i + length messages) st'
  unfolding add_messages
  add_messages-IsSplit taken i [] st two v le = (
    st,
    refl,
    subst (λ t. IsSplit t (i + 0) st) (sym (append-nil taken))
        (subst (λ k. IsSplit taken k st) (omega arith) v),
  )
  add_messages-IsSplit taken i (m ∷ messages) st two v le =
      let (st1, e1, v1) = add_message-IsSplit taken i m st two v (omega (arith, le)) in
      let (st2, e2, v2) =
        add_messages-IsSplit (taken ++ m ∷ []) (i + 1) messages st1 two v1 (omega (arith, le)) in
      let k : i + 1 + length messages ≡ i + length (m ∷ messages) = omega arith in
      (
        st2,
        rw e1 e2,
        subst (λ t. IsSplit t (i + length (m ∷ messages)) st2)
            (append_assoc taken (m ∷ []) messages)
            (subst (λ n. IsSplit ((taken ++ m ∷ []) ++ messages) n st2) k v2),
      )

-- the batches are a division of the messages and of the signatures, and fewer than the messages
pub record IsDivision (signer : Bytes) (size : ℕ) (messages signatures : List Bytes)
    (batches : List MsgAggregateMessages) : Type 0 where
  pub all_messages : join (λ b. b.messages) batches ≡ messages
  pub all_signatures : join (λ b. b.signatures) batches ≡ signatures
  pub each : All (IsBatch signer size) batches
  pub few : 2 * length batches ≤ length messages + 1

module _ (signer : Bytes) (size : ℕ) (messages signatures : List Bytes) where
  add_rest-IsDivision :
      (st : SplitState)
      → IsSplit signer size signatures messages (length messages) st
      → length messages ≡ length signatures
      → (bs : List MsgAggregateMessages) × (add_rest signer size signatures st ≡ ok bs)
        × IsDivision signer size messages signatures bs
  unfolding add_rest batch_at
  add_rest-IsDivision st v same = elim (Bool-cases (ltb 0 (length st.current_messages))) [
    | inl e ↦
        let b = batch_at signer size signatures (st.current_messages) (st.start_index) in
        let p : st.start_index + length st.current_messages ≡ length signatures =
          v.position ∙ same in
        (
          st.res ++ b ∷ [],
          rw
              (
                e,
                sym p,
                slice_lem signatures st.start_index (length st.current_messages) (omega (arith, p)),
              )
              refl,
          record {
            all_messages = join-append_one (λ b. b.messages) st.res b ∙ v.all_messages;
            all_signatures =
                join-append_one (λ b. b.signatures) st.res b
                ∙ ap (λ r. r ++ take (length st.current_messages) (drop st.start_index signatures))
                    (v.all_signatures)
                ∙ sym (take_add st.start_index (length st.current_messages) signatures)
                ∙ ap (λ k. take k signatures) p
                ∙ take_all signatures;
            each = All-append_one (IsBatch signer size) st.res b (v.batches) (
                batch_at-IsBatch signer size signatures (st.current_messages) (st.start_index)
                  (ground (arith, e)) (omega (arith, v.room)) (omega (arith, p)));
            few = ground (arith, e, v.few, v.position, length-append st.res (b ∷ []));
          },
        )
    | inr e ↦
        let none_left : length st.current_messages ≡ 0 = ground (arith, e) in
        let p : st.start_index ≡ length signatures = omega (arith, v.position, same, none_left) in
        (
          st.res,
          rw e refl,
          record {
            all_messages =
                sym (append-nil _)
                ∙ ap (λ r. join (λ b. b.messages) st.res ++ r)
                    (sym (nil_of st.current_messages none_left))
                ∙ v.all_messages;
            all_signatures = v.all_signatures ∙ ap (λ k. take k signatures) p ∙ take_all signatures;
            each = v.batches;
            few = omega (arith, v.few, v.position);
          },
        )
  ]
    where
      nil_of : (xs : List Bytes) → length xs ≡ 0 → xs ≡ []
      nil_of [] h = refl
      nil_of (x ∷ xs) h = let bad : ⊥ = omega (arith, h) in absurd bad

  -- With a batch size of at least two and a signature for each message, splitting succeeds. The
  -- batches put together are the messages and the signatures in their order; each has at least one
  -- message, at most as many as the batch size, and a signature for each; and twice their number is
  -- at most the number of messages plus one.
  pub split_into_multi_batch-IsDivision :
      2 ≤ size
      → length messages ≡ length signatures
      → (bs : List MsgAggregateMessages) × (split_into_multi_batch messages signatures signer size
          ≡ ok bs)
        × IsDivision signer size messages signatures bs
  unfolding split_into_multi_batch
  split_into_multi_batch-IsDivision two same =
      let large : ltb size 2 ≡ false = ground arith in
      let start : SplitState = record { current_messages = []; start_index = 0; res = [] } in
      let (st, e, v) =
        add_messages-IsSplit signer size signatures [] 0 messages start two
          (record {
            all_messages = refl;
            all_signatures = refl;
            position = refl;
            room = omega arith;
            few = omega arith;
            batches = tt;
          })
          (omega (arith, same)) in
      let (bs, e2, d) =
        add_rest-IsDivision st
          (subst (λ k. IsSplit signer size signatures messages k st) (omega arith) v) same in
      (bs, rw (large, e) e2, d)
