-- ===== src/Webhooks/Signature.antt =====
-- verify_webhook_signature.go: the check of the certificate that a webhook delivery came with.
use integration_efi.Base.{
  ok_injective, ◌∷◌, ℕ, ◌≤◌, String, Bool, true, ◌&&◌, ◌||◌, some, List, Outcome, ok, err, ◌==◌,
  leb, ◌≡◌, ◌↔◌, ◌⊎◌, refl, arith, eq_iff, Bool-cases, inl, inr, if◌then◌else◌,
}
use mathlib.Core.Path.{subst}
use integration_efi.Value.{bool, string, Fields, field, end, text_at, get}
use integration_efi.World.{World, clock_read, History}
use integration_efi.Api.{Error, plain, wrap, Exec, raise}

-- x509.Certificate, the parts that are read; the time is in nanoseconds.
pub record Certificate : Type 0 where
  pub subject : String  -- Subject.CommonName
  pub issuer : String  -- Issuer.CommonName
  pub not_after : ℕ

-- base64.StdEncoding, x509 and the printing of a time.
pub record Certificates : Type 0 where
  pub decode_base64 : String → Outcome Error (List ℕ)
  pub parse_certificate : List ℕ → Outcome Error Certificate
  pub format_rfc3339 : ℕ → String

-- Whether a certificate is valid at an instant, for an issuer that may be blank.
unfoldable pub is_valid : Certificate → String → ℕ → Bool
is_valid cert expected_issuer instant =
    (expected_issuer == "" || cert.issuer == expected_issuer) && leb instant cert.not_after

-- The certificate of a delivery.
unfoldable pub certificate_of : Certificates → String → Outcome Error Certificate
certificate_of certs text = elim (certs.decode_base64 text) [
  | err e ↦ err (wrap "verify_webhook_signature: bad base64" e)
  | ok der ↦ elim (certs.parse_certificate der) [
    | err e ↦ err (wrap "verify_webhook_signature: parse cert" e)
    | ok cert ↦ ok cert
  ]
]

module _ (w : World) (certs : Certificates) where
  unfoldable pub verdict : Fields → Outcome Error Certificate → Exec Fields
  verdict input (err e) h = (err e, h)
  verdict input (ok cert) h = (
    ok (
        field "valid" (bool (is_valid cert (text_at input "expected_issuer") (w.now h))) (
          field "subject" (string cert.subject) (
            field "issuer" (string cert.issuer)
              (field "not_after" (string (certs.format_rfc3339 cert.not_after)) end)))),
    clock_read ∷ h,
  )

  -- VerifyWebhookSignature
  unfoldable pub verify_webhook_signature : Fields → Exec Fields
  verify_webhook_signature input =
      let text = text_at input "peer_cert_der" in
      if text == ""
      then raise (plain "verify_webhook_signature: peer_cert_der required")
      else verdict input (certificate_of certs text)

  -- What a verdict says of a certificate.
  record IsVerdict (input out : Fields) (h : History) : Type 0 where
    pub certificate : Certificate
    pub read : certificate_of certs (text_at input "peer_cert_der") ≡ ok certificate
    pub said : Bool
    pub given : get out "valid" ≡ some (bool said)
    pub valid_iff : (said ≡ true) ↔ (
        ((text_at input "expected_issuer" ≡ "")
          ⊎ (certificate.issuer ≡ text_at input "expected_issuer"))
        × (w.now h ≤ certificate.not_after))

  is_valid_iff :
      (cert : Certificate) (issuer : String) (instant : ℕ)
      → (is_valid cert issuer instant ≡ true)
        ↔ (((issuer ≡ "") ⊎ (cert.issuer ≡ issuer)) × (instant ≤ cert.not_after))
  unfolding is_valid
  is_valid_iff cert issuer instant = (
    λ h. ground (arith, eq_iff issuer "", eq_iff cert.issuer issuer),
    λ h. ground (arith, eq_iff issuer "", eq_iff cert.issuer issuer),
  )

  verdict-IsVerdict :
      (input out : Fields) (r : Outcome Error Certificate) (h : History)
      → certificate_of certs (text_at input "peer_cert_der") ≡ r
      → (verdict input r h).0 ≡ ok out
      → IsVerdict input out h
  unfolding verdict get
  verdict-IsVerdict input out (err e) h same good = cc good
  verdict-IsVerdict input out (ok cert) h same good = record {
    certificate = cert;
    read = same;
    said = is_valid cert (text_at input "expected_issuer") (w.now h);
    given =
        subst
          (λ o.
            get o "valid" ≡ some (bool (is_valid cert (text_at input "expected_issuer") (w.now h))))
          (ok_injective good) refl;
    valid_iff = is_valid_iff cert (text_at input "expected_issuer") (w.now h);
  }

  -- A certificate is called valid exactly when it has the expected issuer, or none is expected, and it
  -- is not over at that instant; and only a certificate that was read is called anything.
  verify_webhook_signature-IsVerdict :
      (input out : Fields) (h : History)
      → (verify_webhook_signature input h).0 ≡ ok out
      → IsVerdict input out h
  unfolding verify_webhook_signature
  verify_webhook_signature-IsVerdict input out h good =
      elim (Bool-cases (text_at input "peer_cert_der" == "")) [
        | inl blank ↦ ground (arith, blank, good)
        | inr there ↦ verdict-IsVerdict input out _ h refl (rw there at good)
      ]
