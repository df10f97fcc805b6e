-- ===== src/Signatures.antt =====
-- light-clients/lcp/types/update.go: `VerifySignatures`, and the loops over the operators.
pub mod Loop
pub mod Threshold
pub mod Permissionless
use lcp_go.Common.{
  ℕ, suc, ◌+◌, ◌*◌, ◌%◌, Bytes, Bool, true, false, not, List, [], ◌∷◌, map, length, get_or, ltb,
  ◌==◌, if◌then◌else◌,
}
use lcp_go.Common.Int.{two_64}
use lcp_go.Result.{
  Result, ok, err, panic, ◌>>=◌, ◌>>◌, reject_if, plain, signature_count, ek_expired,
  operator_mismatch, insufficient_signatures,
}
use lcp_go.Types.{Address, ClientState, Context}
use lcp_go.Packages.{Packages}
use lcp_go.Eip712.{recover_address}
use lcp_go.EnclaveKey.{get_ek_info, require_ek, is_expired, is_match_operator}

-- `for i, op := range operators`, with `signatures[i]`, which panics where there is none. `check`
-- tells a signature that counts from one that is skipped.
unfoldable pub for_operators :
    (Address → Bytes → Result Bool) → List Address → List Bytes → ℕ → Result ℕ
for_operators check [] signatures success = ok success
for_operators check (op ∷ operators) [] success = panic
for_operators check (op ∷ operators) (signature ∷ signatures) success =
    check op signature >>= λ counts.
    for_operators check operators signatures (if counts then (success + 1) % two_64 else success)

module _ {S : Type 0} (p : Packages S) where
  unfoldable pub get_operators : ClientState → List Address
  get_operators cs = map p.eth.bytes_to_address cs.operators

  unfoldable pub check_permissionless : Context → S → Bytes → Bytes → Result (Unit {0})
  check_permissionless ctx s commitment signature = do
    ek ← recover_address p commitment signature
    found ← get_ek_info p s ek
    info ← require_ek p found
    reject_if (is_expired info ctx.block_time) (plain ek_expired)
    ok tt

  unfoldable pub check_operator : Context → S → Bytes → Address → Bytes → Result Bool
  check_operator ctx s commitment op signature = if length signature == 0 then ok false else (do
    ek ← recover_address p commitment signature
    found ← get_ek_info p s ek
    info ← require_ek p found
    reject_if (is_expired info ctx.block_time) (plain ek_expired)
    reject_if (not (is_match_operator info op)) (plain operator_mismatch)
    ok true)

  -- `VerifySignatures` for a client with operators
  unfoldable pub verify_by_operators :
      ClientState → Context → S → Bytes → List Address → List Bytes → Result (Unit {0})
  verify_by_operators cs ctx s commitment operators signatures = do
    let op_num = length operators
    reject_if (not (op_num == length signatures)) (plain signature_count)
    success ← for_operators (check_operator ctx s commitment) operators signatures 0
    reject_if
        (ltb (success * cs.operators_threshold_denominator % two_64)
          (cs.operators_threshold_denominator * op_num % two_64))
        (plain insufficient_signatures)
    ok tt

  unfoldable pub verify_signatures :
      ClientState → Context → S → Bytes → List Bytes → Result (Unit {0})
  verify_signatures cs ctx s commitment signatures =
      let operators = get_operators cs in
      if length operators == 0
      then (do
        reject_if (not (length signatures == 1)) (plain signature_count)
        check_permissionless ctx s commitment (get_or signatures 0 []))
      else verify_by_operators cs ctx s commitment operators signatures
