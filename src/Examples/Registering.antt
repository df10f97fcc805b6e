-- ===== src/Examples/Registering.antt =====
-- The registration of an enclave key, at concrete inputs.
use lcp_go.Common.{◌≡◌, ◌≢◌, refl, Bytes, some, List, [], ◌∷◌, ◌++◌, length, replicate}
use lcp_go.Common.Int.{pos}
use lcp_go.Result.{ok}
use lcp_go.GoTime.{unix_time}
use lcp_go.Types.{RegisterEnclaveKeyMessage}
use lcp_go.EnclaveKey.{
  Event, registered, get_ek_info, set_ek_info, verify_register_enclave_key, register_enclave_key,
}
use lcp_go.EnclaveKey.Info.{info_of}
use lcp_go.EnclaveKey.Registration.{Reading, Accepted, expires, verify_register_enclave_key_sound}
use lcp_go.EnclaveKey.Effect.{register-verified, register-keeps}
use lcp_go.Examples.Sample.{Kv, packages, address, signature_by, now, permissionless}
use lcp_go.Examples.Laws.{kv_laws, ibc_laws, eth_laws}
use lcp_go.Examples.Executable.{executable}
use lcp_go.Examples.Signing.{two_keys}

-- key 5 for operator 3, attested by the client's enclave
abbrev pub registration : RegisterEnclaveKeyMessage
registration = record {
  report = replicate 32 7 ++ (address 5 ++ address 3);
  signature = [];
  signing_cert = 1 ∷ [];
  operator_signature = signature_by 3;
}

pub registration_ok :
    verify_register_enclave_key packages permissionless now two_keys registration ≡ ok tt
unfolding executable
registration_ok = refl

verify_register_enclave_key_sound_example :
    (r : Reading packages permissionless registration) × Accepted packages now two_keys r
verify_register_enclave_key_sound_example =
    verify_register_enclave_key_sound packages permissionless now two_keys registration
      registration_ok

register-verified_example :
    (r : Reading packages permissionless registration) × (s' : Kv) × (ev : List Event)
    × (register_enclave_key packages permissionless two_keys registration ≡ ok (s', ev))
    × (get_ek_info packages s' r.ek ≡ ok (some (info_of r.operator (expires packages r))))
    × ((a : Bytes)
        → length a ≡ 20
        → a ≢ r.ek
        → get_ek_info packages s' a ≡ get_ek_info packages two_keys a)
register-verified_example =
    register-verified packages kv_laws ibc_laws eth_laws permissionless now two_keys registration
      registration_ok

-- the expiry is the report's time of 1000 seconds and the expiration of 3600
abbrev pub three_keys : Kv
three_keys = set_ek_info packages two_keys (address 5) (address 3) (unix_time (pos 4600) 0)

pub key_11 :
    get_ek_info packages two_keys (address 11)
    ≡ ok (some (info_of (address 1) (unix_time (pos 5000) 0)))
unfolding executable
key_11 = refl

registration_done :
    register_enclave_key packages permissionless two_keys registration
    ≡ ok (three_keys, registered (address 5) (unix_time (pos 4600) 0) (address 3) ∷ [])
unfolding executable
registration_done = refl

register-keeps_example :
    get_ek_info packages three_keys (address 11)
    ≡ ok (some (info_of (address 1) (unix_time (pos 5000) 0)))
register-keeps_example =
    register-keeps packages kv_laws ibc_laws eth_laws permissionless two_keys three_keys
      registration (registered (address 5) (unix_time (pos 4600) 0) (address 3) ∷ []) (address 11)
      (info_of (address 1) (unix_time (pos 5000) 0)) refl registration_done key_11
