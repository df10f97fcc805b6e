-- ===== src/Examples/Signing.antt =====
-- Signatures at concrete keys.
use lcp_go.Common.{AllPairs, ◌≡◌, refl, Bytes, List, [], ◌∷◌, length, replicate, arith, ◌↔◌}
use lcp_go.Common.Int.{pos}
use lcp_go.Result.{ok}
use lcp_go.GoTime.{unix_time}
use lcp_go.Signatures.{verify_signatures, get_operators}
use lcp_go.Signatures.Permissionless.{SignedByKey, verify_signatures_permissionless}
use lcp_go.Signatures.Threshold.{SignedFor, verify_signatures_operators}
use lcp_go.EnclaveKey.{EkInfo, set_ek_info}
use lcp_go.Examples.Sample.{
  Kv, packages, empty_store, address, signature_by, now, permissionless, two_operators,
}

-- two enclave keys, 11 for operator 1 and 12 for operator 2
abbrev pub two_keys : Kv
two_keys =
    set_ek_info packages
      (set_ek_info packages empty_store (address 11) (address 1) (unix_time (pos 5000) 0))
      (address 12) (address 2) (unix_time (pos 5000) 0)

abbrev pub commitment : Bytes
commitment = replicate 32 9

abbrev pub both : List Bytes
both = signature_by 11 ∷ signature_by 12 ∷ []

verify_signatures_permissionless_example :
    (verify_signatures packages permissionless now two_keys commitment both ≡ ok tt) ↔ (
      (sig : Bytes) × (ek : Bytes) × (info : EkInfo) × (both ≡ sig ∷ [])
      × SignedByKey packages now two_keys commitment sig ek info)
verify_signatures_permissionless_example =
    verify_signatures_permissionless packages permissionless now two_keys commitment both refl

verify_signatures_operators_example :
    (verify_signatures packages two_operators now two_keys commitment both ≡ ok tt) ↔ (
      (length two_operators.operators ≡ length both)
      × AllPairs
          (SignedFor packages now two_keys commitment)
          (get_operators packages two_operators)
          both)
verify_signatures_operators_example =
    verify_signatures_operators packages two_operators now two_keys commitment both (λ e. cc)
      (omega arith) (omega arith)
