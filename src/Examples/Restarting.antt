-- ===== src/Examples/Restarting.antt =====
-- The prover's key with files that run: a file for each of the two names, and an encoding that writes
-- out every field.
use lcp_go.Common.{
  ℕ, ◌≡◌, inr, refl, Bytes, Bool, true, false, Option, none, some, [], ◌∷◌, leb, ap, subst,
}
use lcp_go.Common.Int.{pos}
use lcp_go.Result.{Result, ok, err, plain, foreign, ok-injective}
use lcp_go.GoTime.{unix_time, before}
use lcp_go.Relay.ActiveKey.{
  EnclaveKeyInfo, Services, KeyState, half, is_not_found, load_last_finalized_enclave_key,
  load_last_unfinalized_enclave_key, save_finalized_enclave_key_info, remove_enclave_key_info,
  check_eki_update_needed, check_msg_status, load_finalized_key, load_key, drop_unfinalized,
  finalize, finalize_unless_needed, on_msg_status, check_loaded, after_load,
  load_eki_and_check_update_needed,
}
use lcp_go.Relay.ActiveKey.Usable.{update_time_of, load_eki_and_check_update_needed-usable}
use lcp_go.Relay.ActiveKey.Finalized.{FileLaws}
use lcp_go.Relay.ActiveKey.Restart.{load_eki_and_check_update_needed-load_key}
use lcp_go.Examples.Sample.{height}
use lcp_go.Examples.Executable.{executable}

-- the finalized and the unfinalized file
abbrev pub Files : Type 0
Files = Bool → Option Bytes

abbrev pub put : Files → Bool → Option Bytes → Files
put f true bz true = bz
put f true bz false = f false
put f false bz true = f true
put f false bz false = bz

abbrev pub exists_in : Option Bytes → Bool
exists_in none = false
exists_in (some bz) = true

-- a key with an address of one byte, and with no report
abbrev pub key : ℕ → ℕ → EnclaveKeyInfo
key n t = record {
  enclave_key_address = n ∷ [];
  attestation_time = t;
  report = [];
  signature = [];
  signing_cert = [];
  extension = [];
}

-- an encoding that fails for all other keys
abbrev pack : Bytes → ℕ → Bytes → Bytes → Bytes → Bytes → Result Bytes
pack (n ∷ []) t [] [] [] [] = ok (n ∷ t ∷ [])
pack _ t _ _ _ _ = err (plain (foreign 1))

abbrev unpack : Bytes → Result EnclaveKeyInfo
unpack (n ∷ t ∷ []) = ok (key n t)
unpack _ = err (plain (foreign 2))

pack-inv :
    (a : Bytes) (t : ℕ) (r s c x bz : Bytes)
    → pack a t r s c x ≡ ok bz
    → unpack bz
      ≡ ok (record {
        enclave_key_address = a;
        attestation_time = t;
        report = r;
        signature = s;
        signing_cert = c;
        extension = x;
      })
pack-inv (n ∷ []) t [] [] [] [] bz h =
    subst (λ b. unpack b ≡ ok (key n t)) (ok-injective _ _ h) refl
pack-inv [] t r s c x bz h = cc
pack-inv (n ∷ m ∷ a) t r s c x bz h = cc
pack-inv (n ∷ []) t (y ∷ r) s c x bz h = cc
pack-inv (n ∷ []) t [] (y ∷ s) c x bz h = cc
pack-inv (n ∷ []) t [] [] (y ∷ c) x bz h = cc
pack-inv (n ∷ []) t [] [] [] (y ∷ x) bz h = cc

-- every message is in block 5, the chain is final up to block 9, and the service knows all keys
abbrev pub services : Services Files ℕ
services = record {
  read_file = λ f which. ok (f which);
  write_file = λ f which bz. ok (put f which (some bz));
  file_exists = λ f which. ok (exists_in (f which));
  remove_file = λ f which. ok (put f which none);
  marshal_info = λ i.
      pack i.enclave_key_address i.attestation_time i.report i.signature i.signing_cert i.extension;
  unmarshal_info = unpack;
  marshal_unfinalized = λ u. ok u.msg_id_bytes;
  unmarshal_unfinalized = λ bz. ok (record { info = some (key 5 1000); msg_id_bytes = bz });
  marshal_msg_id = λ n. ok (n ∷ []);
  unmarshal_msg_id = λ bz. ok 7;
  latest_finalized_height = ok (height 0 9);
  get_msg_result = λ n. ok (record { is_success = true; block_height = height 0 5 });
  height_lte = λ a b. leb a.revision_height b.revision_height;
  enclave_key = λ a. ok tt;
}

put_same : (f : Files) (which : Bool) (bz : Option Bytes) → put f which bz which ≡ bz
put_same f true bz = refl
put_same f false bz = refl

missing_of : (o : Option Bytes) → exists_in o ≡ false → o ≡ none
missing_of none h = refl
missing_of (some bz) h = cc

pub file_laws : FileLaws services
file_laws = record {
  read-write = λ f f' which bz h.
      subst (λ g. ok (g which) ≡ ok (some bz)) (ok-injective _ _ h)
        (ap ok (put_same f which (some bz)));
  read-remove = λ f f' which h.
      subst (λ g. ok (g which) ≡ ok none) (ok-injective _ _ h) (ap ok (put_same f which none));
  read-remove_other = λ f f' h. subst (λ g. ok (g true) ≡ ok (f true)) (ok-injective _ _ h) refl;
  read_missing = λ f which h. ap ok (missing_of (f which) (ok-injective _ _ h));
  unmarshal-marshal = λ i bz h.
      pack-inv i.enclave_key_address i.attestation_time i.report i.signature i.signing_cert
        i.extension bz h;
}

unfoldable pub relayed : Unit {0}
unfolding executable half is_not_found load_last_finalized_enclave_key
    load_last_unfinalized_enclave_key save_finalized_enclave_key_info remove_enclave_key_info
    check_eki_update_needed check_msg_status load_finalized_key load_key drop_unfinalized finalize
    finalize_unless_needed on_msg_status check_loaded after_load load_eki_and_check_update_needed
relayed = tt

-- the registration of key 5 was sent, and nothing is final
abbrev files : Files
files = put (λ which. none) false (some (7 ∷ []))

abbrev final_files : Files
final_files = put (put files true (some (5 ∷ 1000 ∷ []))) false none

abbrev sent : KeyState Files ℕ
sent = record { active_enclave_key = some (key 5 1000); unfinalized_msg_id = some 7; files = files }

abbrev final : KeyState Files ℕ
final = record sent { unfinalized_msg_id = none; files = final_files }

loaded :
    load_eki_and_check_update_needed services 3600
      (unix_time (pos 2000) 0)
      (record sent { active_enclave_key = none; unfinalized_msg_id = none })
    ≡ (final, ok false)
unfolding relayed
loaded = refl

status_final : check_msg_status services 3600 7 ≡ ok (true, true)
unfolding relayed
status_final = refl

pending_file : load_last_unfinalized_enclave_key services 3600 files ≡ ok (some (key 5 1000), 7)
unfolding relayed
pending_file = refl

load_eki_and_check_update_needed-load_key_example :
    load_key services 3600
      (record { active_enclave_key = none; unfinalized_msg_id = none; files = final_files })
    ≡ (record final { active_enclave_key = some (key 5 1000) }, ok false)
load_eki_and_check_update_needed-load_key_example =
    load_eki_and_check_update_needed-load_key services 3600 file_laws (unix_time (pos 2000) 0)
      (record sent { active_enclave_key = none; unfinalized_msg_id = none }) final (key 5 1000) 7
      (inr (refl, pending_file)) status_final loaded

load_eki_and_check_update_needed-usable_example :
    (eki : EnclaveKeyInfo) × (some (key 5 1000) ≡ some eki)
    × (before (update_time_of 3600 eki) (unix_time (pos 2000) 0) ≡ false)
    × (services.enclave_key eki.enclave_key_address ≡ ok tt)
load_eki_and_check_update_needed-usable_example =
    load_eki_and_check_update_needed-usable services 3600 (unix_time (pos 2000) 0)
      (record sent { active_enclave_key = none; unfinalized_msg_id = none }) final loaded
