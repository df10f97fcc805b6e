-- ===== src/Packages/Documented.antt =====
-- The documented behaviour of the packages on which the code relies, as named hypotheses.
use lcp_go.Common.{
  ℕ, ◌≡◌, ◌≢◌, ◌<◌, Bytes, Bool, true, false, ◌&&◌, ◌||◌, Option, none, some, ◌++◌, length, All,
  codes, bytes_eq, ltb, ◌==◌, if◌then◌else◌,
}
use lcp_go.Common.Int.{two_64}
use lcp_go.Result.{ok}
use lcp_go.Types.{Height, Address, ConsensusState, lcp}
use lcp_go.Packages.{KvStore, Ibc, Ethereum}

abbrev pub is_some {ℓ} : {A : Type ℓ} → Option A → Bool
is_some none = false
is_some (some a) = true

-- a store holds what was last written under a key, and its prefix is fixed
pub record KvStoreLaws {S : Type 0} (kv : KvStore S) : Type 0 where
  pub get-set :
      (s : S) (k v j : Bytes)
      → kv.get (kv.set s k v) j ≡ (if bytes_eq k j then some v else kv.get s j)
  pub get-delete :
      (s : S) (k j : Bytes) → kv.get (kv.delete s k) j ≡ (if bytes_eq k j then none else kv.get s j)
  pub has-get : (s : S) (k : Bytes) → kv.has s k ≡ is_some (kv.get s k)
  pub prefix-set : (s : S) (k v : Bytes) → kv.prefix (kv.set s k v) ≡ kv.prefix s

-- heights are ordered by revision and then by height; their text holds no slash; the keys are those
-- of ICS 24; the codec gives back what it encoded
pub record IbcLaws (ibc : Ibc) : Type 0 where
  pub height_lt_lem :
      (a b : Height)
      → ibc.height_lt a b ≡ (
          ltb a.revision_number b.revision_number
          || ((a.revision_number == b.revision_number) && ltb a.revision_height b.revision_height))
  pub height_eq_lem :
      (a b : Height)
      → ibc.height_eq a b
        ≡ ((a.revision_number == b.revision_number) && (a.revision_height == b.revision_height))
  pub height_is_zero_lem :
      (a : Height) → ibc.height_is_zero a ≡ ((a.revision_number == 0) && (a.revision_height == 0))
  pub height_string_injective : (a b : Height) → ibc.height_string a ≡ ibc.height_string b → a ≡ b
  pub height_string_no_slash : (a : Height) → All (λ c. c ≢ 47) (ibc.height_string a)
  pub parse-height_string : (a : Height) → ibc.parse_height (ibc.height_string a) ≡ ok a
  pub client_state_key_lem : ibc.client_state_key ≡ codes "clientState"
  pub consensus_state_key_lem :
      (h : Height) → ibc.consensus_state_key h ≡ codes "consensusStates/" ++ ibc.height_string h
  pub unmarshal-marshal_consensus_state :
      (c : ConsensusState)
      → ibc.unmarshal_consensus_state (ibc.marshal_consensus_state c) ≡ ok (lcp c)
  pub length-uint64_to_big_endian : (n : ℕ) → length (ibc.uint64_to_big_endian n) ≡ 8
  pub big_endian-uint64_to_big_endian :
      (n : ℕ) → n < two_64 → ibc.big_endian_to_uint64 (ibc.uint64_to_big_endian n) ≡ n

-- an address has 20 bytes, and its text determines it
pub record EthereumLaws (eth : Ethereum) : Type 0 where
  pub length-bytes_to_address : (b : Bytes) → length (eth.bytes_to_address b) ≡ 20
  pub bytes_to_address_same : (b : Bytes) → length b ≡ 20 → eth.bytes_to_address b ≡ b
  pub length-pubkey_to_address : (b : Bytes) → length (eth.pubkey_to_address b) ≡ 20
  pub address_hex_injective :
      (a b : Address)
      → length a ≡ 20
      → length b ≡ 20
      → eth.address_hex a ≡ eth.address_hex b
      → a ≡ b
