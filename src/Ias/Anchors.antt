-- ===== src/Ias/Anchors.antt =====
-- The trust anchors of the process, and what an accepted report rests on.
use lcp_go.Common.{
  ◌≡◌, ◌∙◌, refl, sym, ap, subst, Bytes, true, Option, none, some, List, [], ◌∷◌, ◌++◌, length,
  take, drop, get_or, bytes_eq_sound, not-eq-false, take-append_self, drop-append_self, ◌==◌, arith,
}
use lcp_go.Result.{ok, panic, >>=-eq-ok, reject_if-eq-ok, map_err-eq-ok}
use lcp_go.GoTime.{Time}
use lcp_go.Types.{TrustAnchors}
use lcp_go.Packages.{Packages, Quote}
use lcp_go.Packages.Documented.{EthereumLaws}
use lcp_go.Ias.{
  get_ra_root_cert, set_ra_root_cert, verify_report, get_ek_and_operator, report_data_version_1,
}

-- The root certificate is set once: after it was set, it is the one that is read and the newest of
-- the roots, and setting it again panics, with whatever certificate.
pub set_ra_root_cert_once :
    (t t' : TrustAnchors) (cert other : Bytes)
    → set_ra_root_cert t cert ≡ ok t'
    → (get_ra_root_cert t' ≡ ok cert)
      × (t'.roots ≡ cert ∷ t.roots)
      × (set_ra_root_cert t' other ≡ panic)
unfolding set_ra_root_cert get_ra_root_cert
set_ra_root_cert_once t t' cert other h = ground arith

root_of :
    (o : Option Bytes) (root : Bytes)
    → (elim o [ none ↦ panic | some c ↦ ok c ]) ≡ ok root
    → o ≡ some root
root_of none root h = cc
root_of (some c) root h = cc

-- two certificates in one chain
only_chain :
    (chains : List (List Bytes)) (root : Bytes)
    → (length chains == 1) ≡ true
    → (length (get_or chains 0 []) == 2) ≡ true
    → root ≡ get_or (get_or chains 0 []) 1 []
    → (leaf : Bytes) × (chains ≡ (leaf ∷ root ∷ []) ∷ [])
only_chain ((leaf ∷ top ∷ []) ∷ []) root one two e = (leaf, ap (λ r. (leaf ∷ r ∷ []) ∷ []) (sym e))
only_chain chains root one two e = absurd (ground arith)

module _ {S : Type 0} (p : Packages S) where
  -- A report is accepted only if the root certificate is set, the signing certificate is verified at
  -- the given time by one chain, of a leaf and this root certificate, and its key signed the report.
  pub verify_report_sound :
      (report signature der : Bytes) (now : Time)
      → verify_report p report signature der now ≡ ok tt
      → (root cert leaf : Bytes) × (p.anchors.root_cert ≡ some root)
        × (p.ias.parse_certificate der ≡ ok cert)
        × (p.ias.verify_chains cert p.anchors.roots now ≡ ok ((leaf ∷ root ∷ []) ∷ []))
        × (p.ias.check_signature cert report signature ≡ ok tt)
  unfolding verify_report get_ra_root_cert
  verify_report_sound report signature der now h =
      let (root, set, h1) = >>=-eq-ok (get_ra_root_cert p.anchors) _ h in
      let (cert, parsed, h2) = >>=-eq-ok (p.ias.parse_certificate der) _ h1 in
      let (chains, verified, h3) = >>=-eq-ok (p.ias.verify_chains cert p.anchors.roots now) _ h2 in
      let (one, h4) = reject_if-eq-ok _ _ _ h3 in
      let (two, h5) = reject_if-eq-ok _ _ _ h4 in
      let (same, h6) = reject_if-eq-ok _ _ _ h5 in
      let (leaf, shape) =
        only_chain chains root (not-eq-false _ one) (not-eq-false _ two)
          (bytes_eq_sound _ _ (not-eq-false _ same)) in
      (
        root,
        cert,
        leaf,
        root_of p.anchors.root_cert root set,
        parsed,
        verified ∙ ap ok shape,
        map_err-eq-ok _ _ h6,
      )

  -- From report data of version 1, the two addresses that were laid out after the version are read,
  -- whatever follows them.
  pub get_ek_and_operator-layout :
      (el : EthereumLaws p.eth) (q : Quote) (ek operator rest : Bytes)
      → p.ias.quote_verify q ≡ ok tt
      → length ek ≡ 20
      → length operator ≡ 20
      → q.report_data ≡ report_data_version_1 ∷ (ek ++ (operator ++ rest))
      → get_ek_and_operator p q ≡ ok (ek, operator)
  unfolding get_ek_and_operator
  get_ek_and_operator-layout el q ek operator rest v le lo e =
      let first : take 20 (ek ++ (operator ++ rest)) ≡ ek =
        subst (λ n. take n (ek ++ (operator ++ rest)) ≡ ek) le
          (take-append_self ek (operator ++ rest)) in
      let later : drop 20 (ek ++ (operator ++ rest)) ≡ operator ++ rest =
        subst (λ n. drop n (ek ++ (operator ++ rest)) ≡ operator ++ rest) le
          (drop-append_self ek (operator ++ rest)) in
      let second : take 20 (operator ++ rest) ≡ operator =
        subst (λ n. take n (operator ++ rest) ≡ operator) lo (take-append_self operator rest) in
      rw v (
        rw e (
          rw (first, later)
            (rw second
              (rw (el.bytes_to_address_same ek le, el.bytes_to_address_same operator lo) refl))))
