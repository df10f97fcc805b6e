-- ===== src/Ias.antt =====
-- sgx/ias/sgx.go and cert.go: attestation reports, and the trust anchors of the process.
pub mod Anchors
use lcp_go.Common.{
  ℕ, ◌+◌, Bytes, Bool, true, false, not, Option, none, some, List, [], ◌∷◌, length, take, drop,
  get_or, bytes_eq, ◌==◌,
}
use lcp_go.Result.{
  Result, ok, err, panic, ◌>>=◌, ◌>>◌, reject_if, map_err, or_panic, plain, caused, chains_length,
  certs_length, unexpected_root, avr_signature, report_data_version,
}
use lcp_go.GoTime.{Time, truncate_second}
use lcp_go.Types.{Address, TrustAnchors}
use lcp_go.Packages.{Packages, Avr, Quote}

abbrev pub report_data_version_1 : ℕ
report_data_version_1 = 1

unfoldable pub get_ra_root_cert : TrustAnchors → Result Bytes
get_ra_root_cert t = elim t.root_cert [ none ↦ panic | some c ↦ ok c ]

unfoldable pub set_ra_root_cert : TrustAnchors → Bytes → Result TrustAnchors
set_ra_root_cert t cert = elim t.root_cert [
  | some c ↦ panic
  | none ↦ ok (record { root_cert = some cert; roots = cert ∷ t.roots })
]

-- `initIAS`, and `initFromEnv` after its hex decoding, with the result of `ias.CertFromPEM`
unfoldable pub init_ias : Result (Option Bytes) → TrustAnchors → Result TrustAnchors
init_ias (ok (some cert)) t = set_ra_root_cert t cert
init_ias (ok none) t = panic
init_ias (err e) t = panic
init_ias panic t = panic

module _ {S : Type 0} (p : Packages S) where
  -- `AttestationVerificationReport.GetTimestamp`
  unfoldable pub get_timestamp : Avr → Result Time
  get_timestamp avr = do
    tm ← or_panic (p.ias.parse_timestamp avr.timestamp)
    ok (truncate_second tm)

  unfoldable pub verify_report : Bytes → Bytes → Bytes → Time → Result (Unit {0})
  verify_report report signature signing_cert_der current_time = do
    root_cert ← get_ra_root_cert p.anchors
    signing_cert ← p.ias.parse_certificate signing_cert_der
    chains ← p.ias.verify_chains signing_cert p.anchors.roots current_time
    reject_if (not (length chains == 1)) (plain chains_length)
    let chain = get_or chains 0 []
    reject_if (not (length chain == 2)) (plain certs_length)
    reject_if (not (bytes_eq root_cert (get_or chain 1 []))) (plain unexpected_root)
    map_err (caused avr_signature) (p.ias.check_signature signing_cert report signature)

  unfoldable pub parse_and_validate_avr : Bytes → Result Avr
  parse_and_validate_avr report = p.ias.decode_avr report

  unfoldable pub get_ek_and_operator : Quote → Result (Address × Address)
  get_ek_and_operator quote = do
    p.ias.quote_verify quote
    reject_if (not (get_or quote.report_data 0 0 == report_data_version_1))
        (plain report_data_version)
    ok (
      p.eth.bytes_to_address (take 20 (drop 1 quote.report_data)),
      p.eth.bytes_to_address (take 20 (drop 21 quote.report_data)),
    )
