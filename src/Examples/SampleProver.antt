-- ===== src/Examples/SampleProver.antt =====
-- A prover that runs: its counterparty has the sample client with one operator, for whom it signs, and
-- the LCP service offers one key. The state of the outside is the number of calls that changed it.
use lcp_go.Common.{
  ℕ, suc, ◌==◌, Bytes, true, false, not, Option, none, some, List, [], ◌∷◌, ◌++◌, codes, get_or,
  replicate, bytes_eq, length, ◌&&◌,
}
use lcp_go.Common.Int.{pos}
use lcp_go.Result.{Result, ok, err, ◌>>=◌, ◌>>◌, reject_if, plain, foreign}
use lcp_go.GoTime.{unix_time}
use lcp_go.Types.{Height, ClientState}
use lcp_go.Packages.{Packages, AnyValue, UpdateStateTuple}
use lcp_go.Relay.Config.{ConfigPackages, ProverConfig, Signer, cosmos_chain_params}
use lcp_go.Relay.ActiveKey.{EnclaveKeyInfo, Services}
use lcp_go.Relay.Aggregation.{Aggregator}
use lcp_go.Relay.Prover.{
  Prover, ProverState, Header, ExportedClientState, ExportedConsensusState, Response,
  MsgVerifyMembership,
}
use lcp_go.Examples.Sample.{Kv, packages, abi, address, signature_by, height, permissionless}
use lcp_go.Examples.Restarting.{Files, services}

abbrev failed {ℓ} : {A : Type ℓ} → Result A
failed = err (plain (foreign 3))

-- key 5 for operator 3, attested at 1000 by the client's enclave
abbrev pub offered_key : EnclaveKeyInfo
offered_key = record {
  enclave_key_address = address 5;
  attestation_time = 1000;
  report = replicate 32 7 ++ (address 5 ++ address 3);
  signature = [];
  signing_cert = 1 ∷ [];
  extension = [];
}

-- the encoding knows this key only
abbrev pub marshal_offered : EnclaveKeyInfo → Result Bytes
marshal_offered i = do
  reject_if (not (bytes_eq i.enclave_key_address offered_key.enclave_key_address))
      (plain (foreign 4))
  reject_if (not (i.attestation_time == offered_key.attestation_time)) (plain (foreign 4))
  reject_if (not (bytes_eq i.report offered_key.report)) (plain (foreign 4))
  reject_if (not (bytes_eq i.signature offered_key.signature)) (plain (foreign 4))
  reject_if (not (bytes_eq i.signing_cert offered_key.signing_cert)) (plain (foreign 4))
  reject_if (not (bytes_eq i.extension offered_key.extension)) (plain (foreign 4))
  ok (1 ∷ [])

abbrev pub marshal_unfinal : Option EnclaveKeyInfo → Bytes → Result Bytes
marshal_unfinal none id = failed
marshal_unfinal (some i) id = do bz ← marshal_offered i; ok id

abbrev pub unmarshal_id : Bytes → Result ℕ
unmarshal_id (n ∷ []) = ok n
unmarshal_id _ = failed

abbrev pub key_services : Services Files ℕ
key_services = record services {
  marshal_info = marshal_offered;
  unmarshal_info = λ bz. ok offered_key;
  marshal_unfinalized = λ u. marshal_unfinal u.info u.msg_id_bytes;
  unmarshal_unfinalized = λ bz. ok (record { info = some offered_key; msg_id_bytes = bz });
  marshal_msg_id = λ n. ok (n ∷ []);
  unmarshal_msg_id = unmarshal_id;
}

abbrev unpack_state : Bytes → Result UpdateStateTuple
unpack_state (r ∷ n ∷ id ∷ []) = ok (record {
  prev_height = height 0 0;
  prev_state_id = [];
  post_height = height r n;
  post_state_id = id ∷ [];
  timestamp = 100;
  context = [];
  emitted_states = [];
})
unpack_state _ = failed

-- proofs are a message of six bytes and one signature
abbrev pub pack_proofs : Bytes → List Bytes → Result Bytes
pack_proofs (a ∷ b ∷ c ∷ d ∷ e ∷ f ∷ []) (s ∷ []) = ok (a ∷ b ∷ c ∷ d ∷ e ∷ f ∷ s)
pack_proofs _ _ = failed

abbrev pub prover_packages : Packages Kv
prover_packages = record packages {
  abi = record abi { unpack_update_state = unpack_state; pack_commitment_proofs = pack_proofs };
}

abbrev pub signer : Signer
signer = record { get_public_key = ok (address 3); sign = λ c. ok (signature_by 3) }

abbrev pub config_packages : ConfigPackages
config_packages = record {
  validate_origin_prover = λ a. ok tt;
  is_signer_config = λ a. true;
  validate_signer_config = λ a. ok tt;
  build_signer = λ a. ok signer;
  decompress_pubkey = λ b. ok b;
  pubkey_to_address = λ b. b;
  hex_to_address = λ s. address 3;
  is_hex_address = λ s. true;
}

abbrev pub any_value : ℕ → ℕ → AnyValue
any_value r n = record { type_url = r ∷ []; value = n ∷ [] }

abbrev pub config : ProverConfig
config = record {
  origin_prover = any_value 1 1;
  lcp_service_dial_timeout = 0;
  mrenclave = codes "0x0707070707070707070707070707070707070707070707070707070707070707";
  allowed_quote_statuses = [];
  allowed_advisory_ids = [];
  key_expiration = 3600;
  elc_client_id = codes "elc";
  message_aggregation = true;
  message_aggregation_batch_size = 2;
  operators = codes "0x0300000000000000000000000000000000000000" ∷ [];
  operators_threshold = record { numerator = 1; denominator = 1 };
  operator_signer = some (any_value 1 2);
  operators_eip712_params = some (cosmos_chain_params (codes "ibc-0") (codes "ibc"));
}

-- the counterparty's client
abbrev pub counterparty_client : ClientState
counterparty_client = record permissionless {
  latest_height = height 0 5;
  operators = address 3 ∷ [];
  operators_threshold_numerator = 1;
  operators_threshold_denominator = 1;
}

abbrev pub exported_client : ExportedClientState
exported_client = record {
  latest_height = height 0 5;
  as_lcp = some counterparty_client;
  packed = ok (any_value 0 5);
}

abbrev pub exported_consensus : ExportedConsensusState
exported_consensus = record {
  as_lcp = some (record { state_id = 9 ∷ []; timestamp = 100 });
  packed = ok (any_value 0 9);
}

-- the origin's state at a height
abbrev pub state_at : Height → ExportedClientState
state_at h = record {
  latest_height = h;
  as_lcp = none;
  packed = ok (any_value h.revision_number h.revision_height);
}

abbrev pub height_of : Option Height → Height
height_of none = height 0 9
height_of (some h) = h

-- the message for a client of this state
abbrev pub created : AnyValue → Response
created a = record {
  message = 1 ∷ 1 ∷ get_or a.type_url 0 0 ∷ get_or a.value 0 0 ∷ 9 ∷ [];
  signature = signature_by 5;
}

-- one statement can be verified: the value 1 under the path 8
abbrev pub verified : MsgVerifyMembership → Result Response
verified m = do
  reject_if (not (bytes_eq m.prefix (codes "ibc"))) (plain (foreign 5))
  reject_if (not (bytes_eq m.path (8 ∷ []))) (plain (foreign 5))
  reject_if (not (bytes_eq m.value (1 ∷ []))) (plain (foreign 5))
  ok (record { message = 1 ∷ 2 ∷ 5 ∷ 9 ∷ 8 ∷ 1 ∷ []; signature = signature_by 5 })

abbrev first_of : Aggregator
first_of b = ok (get_or b.messages 0 [], signature_by 5)

abbrev pub header : Header
header = record { height = height 0 9; packed = ok (any_value 0 9) }

abbrev pub prover : Prover Kv ℕ Files ℕ
prover = record {
  packages = prover_packages;
  config_packages = config_packages;
  config = config;
  eip712_signer = some signer;
  path_client_id = codes "lcp-client-0";
  now = λ env. unix_time (pos 2000) 0;
  services = λ env. key_services;
  available_enclave_keys = λ env m. ok (offered_key ∷ []);
  client = λ env id.
      ok (record { found = false; client_state = any_value 0 5; consensus_state = any_value 0 9 });
  create_client = λ m env. (suc env, ok (created m.client_state));
  update_client = λ m env. (suc env, ok (created (any_value 0 9)));
  membership = λ m env. (suc env, verified m);
  aggregator = first_of;
  counterparty_client_id = codes "lcp-client-0";
  latest_height = λ env. ok (height 0 50);
  query_client_state = λ env h. ok (any_value 0 5);
  query_consensus_state = λ env h c. ok (any_value 0 9);
  get_address = λ env. ok (1 ∷ []);
  new_msg_update_client = λ id m s. ok (record { client_id = id; client_message = m; signer = s });
  send_msgs = λ msgs env. (suc env, ok (7 ∷ []));
  latest_finalized_header = λ env. ok header;
  setup_headers = λ q env h. ok (header ∷ header ∷ header ∷ []);
  create_initial_state = λ env h. ok (state_at (height_of h), exported_consensus);
  origin_prove_state = λ env path value. ok (2 ∷ [], height 0 5);
  unpack_client_state = λ a. ok exported_client;
  unpack_consensus_state = λ a. ok exported_consensus;
  no_difference = λ a b. false;
  deep_equal = λ a b. (length a == 0) && (length b == 0);
}

-- a prover that starts: no key in memory, and no files
abbrev pub started : ProverState ℕ Files ℕ
started = record {
  keys = record { active_enclave_key = none; unfinalized_msg_id = none; files = λ which. none };
  env = 0;
}
