-- ===== src/Examples/Relaying.antt =====
-- The aggregation of five messages in batches of two.
use lcp_go.Common.{ℕ, ◌≡◌, refl, Bytes, some, List, [], ◌∷◌, length, arith}
use lcp_go.Result.{ok}
use lcp_go.Types.{UpdateClientMessage}
use lcp_go.Relay.Aggregation.{Aggregator, aggregate_messages}
use lcp_go.Relay.Aggregation.Slices.{join}
use lcp_go.Relay.Aggregation.Rounds.{Serves, aggregate_messages-content}

abbrev pub messages : List Bytes
messages = (1 ∷ []) ∷ (2 ∷ []) ∷ (3 ∷ []) ∷ (4 ∷ []) ∷ (5 ∷ []) ∷ []

abbrev pub signatures : List Bytes
signatures = (11 ∷ []) ∷ (12 ∷ []) ∷ (13 ∷ []) ∷ (14 ∷ []) ∷ (15 ∷ []) ∷ []

abbrev content : Bytes → List ℕ
content m = m

-- a service whose message is the messages of the batch, one after the other
abbrev joining : Aggregator
joining b = ok (join content b.messages, 0 ∷ [])

joining-Serves : Serves joining (7 ∷ []) 2 content
joining-Serves = record { serves = λ b v two. (join content b.messages, 0 ∷ [], refl, refl) }

aggregate_messages-content_example :
    (update : UpdateClientMessage) × (aggregate_messages joining 5 (7 ∷ []) 2 messages signatures
      ≡ some (ok update))
    × (content update.proxy_message ≡ join content messages)
    × (length update.signatures ≡ 1)
aggregate_messages-content_example =
    aggregate_messages-content joining (7 ∷ []) 2 content joining-Serves messages signatures
      (omega arith) (omega arith) refl
