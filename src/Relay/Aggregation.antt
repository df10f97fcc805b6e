-- ===== src/Relay/Aggregation.antt =====
-- relay/prover.go: `aggregateMessages` and `splitIntoMultiBatch`, which turn many messages of the
-- enclave into one. The service that aggregates a batch is a parameter.
pub mod Slices
pub mod Split
pub mod Rounds
pub mod Termination
use lcp_go.Common.{
  ℕ, zero, suc, ◌+◌, ◌-◌, Bytes, Bool, not, ◌&&◌, Option, none, some, List, [], ◌∷◌, ◌++◌, length,
  take, drop, get_elem?, ltb, leb, ◌==◌, if◌then◌else◌,
}
use lcp_go.Result.{
  Result, ok, err, panic, ◌>>=◌, ◌>>◌, reject_if, map_err, plain, caused, batch_size_below_two,
  no_messages, no_batches, aggregation_failed, lengths_differ,
}
use lcp_go.Types.{UpdateClientMessage}

-- `elc.MsgAggregateMessages`
pub record MsgAggregateMessages : Type 0 where
  pub signer : Bytes
  pub messages : List Bytes
  pub signatures : List Bytes

-- `xs[a:b]`, for a slice without spare capacity
unfoldable pub slice {ℓ} : {A : Type ℓ} → List A → ℕ → ℕ → Result (List A)
slice xs a b = if leb a b && leb b (length xs) then ok (take (b - a) (drop a xs)) else panic

-- `xs[i]`
unfoldable pub index {ℓ} : {A : Type ℓ} → List A → ℕ → Result A
index xs i = elim (get_elem? xs i) [ none ↦ panic | some x ↦ ok x ]

-- the variables of the loop of `splitIntoMultiBatch`
pub record SplitState : Type 0 where
  pub current_messages : List Bytes
  pub start_index : ℕ  -- uint64
  pub res : List MsgAggregateMessages

module _ (signer : Bytes) (size : ℕ) (signatures : List Bytes) where
  -- The body of the loop. The end of the slice is `i + 1`, the length of a part of the messages, so
  -- that the sum does not wrap around.
  unfoldable pub add_message : ℕ → Bytes → SplitState → Result SplitState
  add_message i message st =
      let current = st.current_messages ++ message ∷ [] in
      if length current == size
      then (do
        part ← slice signatures st.start_index (st.start_index + size)
        ok (record {
          current_messages = [];
          start_index = i + 1;
          res = st.res ++ record { signer = signer; messages = current; signatures = part } ∷ [];
        }))
      else ok (record st { current_messages = current })

  unfoldable pub add_messages : ℕ → List Bytes → SplitState → Result SplitState
  add_messages i [] st = ok st
  add_messages i (message ∷ messages) st = do
    st' ← add_message i message st
    add_messages (i + 1) messages st'

  -- what is left over is a batch, too
  unfoldable pub add_rest : SplitState → Result (List MsgAggregateMessages)
  add_rest st =
      if ltb 0 (length st.current_messages)
      then (do
        part ← slice signatures st.start_index (length signatures)
        ok (
            st.res
            ++ record { signer = signer; messages = st.current_messages; signatures = part } ∷ []))
      else ok st.res

unfoldable pub split_into_multi_batch :
    List Bytes → List Bytes → Bytes → ℕ → Result (List MsgAggregateMessages)
split_into_multi_batch messages signatures signer size = do
  reject_if (ltb size 2) (plain batch_size_below_two)
  st ←
      add_messages signer size signatures 0 messages
        (record { current_messages = []; start_index = 0; res = [] })
  add_rest signer size signatures st

-- what a pass of the outer loop ends with: a message, or fewer messages for the next pass
pub data Pass : Type 0 where
  done : UpdateClientMessage → Pass
  again : List Bytes → List Bytes → Pass

-- a response, with the message and its signature
abbrev pub Aggregator : Type 0
Aggregator = MsgAggregateMessages → Result (Bytes × Bytes)

module _ (aggregator : Aggregator) where
  -- a batch of one message is not sent to the service
  unfoldable pub aggregate_batch : MsgAggregateMessages → Result (Bytes × Bytes)
  aggregate_batch b =
      if length b.messages == 1
      then (do
        message ← index b.messages 0
        signature ← index b.signatures 0
        ok (message, signature))
      else map_err (caused aggregation_failed) (aggregator b)

  unfoldable pub aggregate_batches : List MsgAggregateMessages → Result (List Bytes × List Bytes)
  aggregate_batches [] = ok ([], [])
  aggregate_batches (b ∷ bs) = do
    response ← aggregate_batch b
    others ← aggregate_batches bs
    ok (response.0 ∷ others.0, response.1 ∷ others.1)

  unfoldable pub pass_of : List MsgAggregateMessages → Result Pass
  pass_of [] = err (plain no_batches)
  pass_of (b ∷ []) = do
    reject_if (length b.messages == 0) (plain no_messages)
    response ← aggregate_batch b
    ok (done (record { proxy_message = response.0; signatures = response.1 ∷ [] }))
  pass_of (b ∷ c ∷ bs) = do
    responses ← aggregate_batches (b ∷ c ∷ bs)
    ok (again responses.0 responses.1)

  unfoldable pub pass : Bytes → ℕ → List Bytes → List Bytes → Result Pass
  pass signer size messages signatures = do
    batches ← split_into_multi_batch messages signatures signer size
    pass_of batches

  unfoldable pub continue_with :
      Result Pass
      → (List Bytes → List Bytes → Option (Result UpdateClientMessage))
      → Option (Result UpdateClientMessage)
  continue_with (ok (done update)) next = some (ok update)
  continue_with (ok (again messages signatures)) next = next messages signatures
  continue_with (err e) next = some (err e)
  continue_with panic next = some panic

  -- the outer loop, for at most so many passes as the first argument says
  unfoldable pub aggregate_passes :
      ℕ → Bytes → ℕ → List Bytes → List Bytes → Option (Result UpdateClientMessage)
  aggregate_passes zero signer size messages signatures = none
  aggregate_passes (suc fuel) signer size messages signatures =
      continue_with (pass signer size messages signatures) (aggregate_passes fuel signer size)

  unfoldable pub aggregate_messages :
      ℕ → Bytes → ℕ → List Bytes → List Bytes → Option (Result UpdateClientMessage)
  aggregate_messages fuel signer size messages signatures =
      if length messages == 0
      then some (err (plain no_messages))
      else (if not (length messages == length signatures)
          then some (err (plain lengths_differ))
          else aggregate_passes fuel signer size messages signatures)
