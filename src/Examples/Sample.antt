-- ===== src/Examples/Sample.antt =====
-- Small packages that run: keys and texts are short lists, the hash is the identity, and a signature
-- of 65 bytes begins with the address that it recovers to.
use lcp_go.Common.{
  ℕ, ◌+◌, ◌-◌, Bytes, false, ◌&&◌, ◌||◌, Option, none, some, [], ◌∷◌, ◌++◌, codes, length, take,
  drop, replicate, get_or, bytes_eq, ltb, ◌==◌, if◌then◌else◌,
}
use lcp_go.Common.Int.{pos}
use lcp_go.Result.{Result, ok, err, plain, foreign}
use lcp_go.GoTime.{unix_time}
use lcp_go.Types.{Height, Address, ClientState, AnyConsensusState, lcp, Context}
use lcp_go.Packages.{
  Packages, KvStore, Ibc, Ethereum, Abi, Attestation, Avr, Quote, HeaderedTuple, UpdateStateTuple,
  MisbehaviourTuple, VerifyMembershipTuple,
}
use lcp_go.Packages.Documented.{is_some}

abbrev pub Kv : Type 0
Kv = Bytes → Option Bytes

abbrev pub kv : KvStore Kv
kv = record {
  get = λ s k. s k;
  has = λ s k. is_some (s k);
  set = λ s k v j. if bytes_eq k j then some v else s j;
  delete = λ s k j. if bytes_eq k j then none else s j;
  prefix = λ s. some (codes "clients/lcp-client-0/");
}

abbrev pub height : ℕ → ℕ → Height
height r h = record { revision_number = r; revision_height = h }

abbrev pub height_text : Height → Bytes
height_text h = (h.revision_number + 48) ∷ 45 ∷ (h.revision_height + 48) ∷ []

abbrev failed {ℓ} : {A : Type ℓ} → Result A
failed = err (plain (foreign 0))

abbrev pub parse_height : Bytes → Result Height
parse_height (a ∷ _ ∷ b ∷ []) = ok (height (a - 48) (b - 48))
parse_height _ = failed

abbrev pub unmarshal_consensus : Bytes → Result AnyConsensusState
unmarshal_consensus [] = failed
unmarshal_consensus (t ∷ id) = ok (lcp (record { state_id = id; timestamp = t }))

abbrev pub word : ℕ → Bytes
word n = n ∷ replicate 7 0

abbrev pub ibc : Ibc
ibc = record {
  height_lt = λ a b.
      ltb a.revision_number b.revision_number
      || ((a.revision_number == b.revision_number) && ltb a.revision_height b.revision_height);
  height_eq =
      λ a b. (a.revision_number == b.revision_number) && (a.revision_height == b.revision_height);
  height_is_zero = λ a. (a.revision_number == 0) && (a.revision_height == 0);
  height_string = height_text;
  parse_height = parse_height;
  client_state_key = codes "clientState";
  consensus_state_key = λ h. codes "consensusStates/" ++ height_text h;
  key_client_store_prefix = codes "clients";
  key_consensus_state_prefix = codes "consensusStates";
  store_key = codes "ibc";
  is_valid_client_id = λ id. ltb 8 (length id);
  marshal_client_state = λ c. c.latest_height.revision_height ∷ c.operators_nonce ∷ c.mrenclave;
  marshal_consensus_state = λ c. c.timestamp ∷ c.state_id;
  unmarshal_consensus_state = unmarshal_consensus;
  uint64_to_big_endian = word;
  big_endian_to_uint64 = λ bz. get_or bz 0 0;
}

abbrev pub to_address : Bytes → Address
to_address b = take 20 (b ++ replicate 20 0)

abbrev pub eth : Ethereum
eth = record {
  bytes_to_address = to_address;
  address_hex = λ a. a;
  hash_hex = λ h. h;
  keccak256 = λ b. b;
  recover_pubkey = λ c sig. ok (take 20 sig);
  unmarshal_pubkey = λ b. ok b;
  pubkey_to_address = to_address;
  typed_data_raw = λ d. ok d.primary_type;
}

-- a message is its type, and the heights, times and single-byte state ids of its fields
abbrev unpack_headered : Bytes → Result HeaderedTuple
unpack_headered (version ∷ type ∷ rest) =
    ok (record { header = 0 ∷ version ∷ 0 ∷ type ∷ replicate 28 0; message = rest })
unpack_headered _ = failed

abbrev unpack_update_state : Bytes → Result UpdateStateTuple
unpack_update_state (prev ∷ prev_id ∷ post ∷ post_id ∷ t ∷ context) = ok (record {
  prev_height = height 0 prev;
  prev_state_id = prev_id ∷ [];
  post_height = height 0 post;
  post_state_id = post_id ∷ [];
  timestamp = t;
  context = context;
  emitted_states = (height 0 post, []) ∷ [];
})
unpack_update_state _ = failed

abbrev unpack_misbehaviour : Bytes → Result MisbehaviourTuple
unpack_misbehaviour (prev ∷ prev_id ∷ context) = ok (record {
  prev_states = (height 0 prev, prev_id ∷ []) ∷ [];
  context = context;
  client_message = [];
})
unpack_misbehaviour _ = failed

abbrev unpack_verify_membership : Bytes → Result VerifyMembershipTuple
unpack_verify_membership (h ∷ id ∷ key ∷ value) = ok (record {
  prefix = codes "ibc";
  path = key ∷ [];
  value = value;
  height = height 0 h;
  state_id = id ∷ [];
})
unpack_verify_membership _ = failed

abbrev pub abi : Abi
abi = record {
  unpack_commitment_proofs = λ bz. ok (take 6 bz, drop 6 bz ∷ []);
  pack_commitment_proofs = λ m sigs. ok (m ++ get_or sigs 0 []);
  unpack_headered = unpack_headered;
  unpack_update_state = unpack_update_state;
  unpack_misbehaviour = unpack_misbehaviour;
  unpack_context = λ bz. ok (record { header = replicate 32 0; context_bytes = bz });
  unpack_trusting_period = λ bz. ok (take 32 bz, drop 32 bz);
  unpack_verify_membership = unpack_verify_membership;
  any_unmarshal = λ bz. ok (record { type_url = []; value = bz });
}

-- a report is the enclave's first byte, and the first bytes of the key and of the operator
abbrev decode_avr : Bytes → Result Avr
decode_avr bz = ok (record {
  quote_status = codes "OK";
  advisory_ids = [];
  timestamp = codes "2024";
  quote_body = bz;
})

abbrev quote_of : Avr → Result Quote
quote_of avr =
    ok (record { mrenclave = take 32 avr.quote_body; report_data = 1 ∷ drop 32 avr.quote_body })

abbrev pub ias : Attestation
ias = record {
  decode_avr = decode_avr;
  avr_quote = quote_of;
  quote_verify = λ q. ok tt;
  parse_timestamp = λ t. ok (unix_time (pos 1000) 5);
  parse_certificate = λ der. ok der;
  verify_chains = λ cert roots now. ok ((cert ∷ roots) ∷ []);
  check_signature = λ cert report sig. ok tt;
}

abbrev pub packages : Packages Kv
packages = record {
  kv = kv;
  ibc = ibc;
  eth = eth;
  abi = abi;
  ias = ias;
  set_contains = λ allowed ids. false;
  anchors = record { root_cert = some (codes "root"); roots = codes "root" ∷ [] };
}

abbrev pub empty_store : Kv
empty_store k = none

abbrev pub address : ℕ → Address
address n = n ∷ replicate 19 0

abbrev pub signature_by : ℕ → Bytes
signature_by n = address n ++ replicate 45 0

abbrev pub now : Context
now = record {
  block_time = unix_time (pos 2000) 0;
  chain_id = codes "ibc-0";
  self_height = height 0 50;
}

abbrev pub permissionless : ClientState
permissionless = record {
  mrenclave = replicate 32 7;
  key_expiration = 3600;
  frozen = false;
  latest_height = height 0 0;
  allowed_quote_statuses = [];
  allowed_advisory_ids = [];
  operators = [];
  operators_nonce = 0;
  operators_threshold_numerator = 0;
  operators_threshold_denominator = 0;
}

abbrev pub two_operators : ClientState
two_operators = record permissionless {
  operators = address 1 ∷ address 2 ∷ [];
  operators_threshold_numerator = 1;
  operators_threshold_denominator = 2;
}
