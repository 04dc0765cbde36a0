-- ===== src/Tests/Signatures.antt =====
-- Examples for the certificate of a delivery.
use integration_efi.Base.{◌≡◌, refl, true, [], ok}
use integration_efi.Value.{bool, string, Fields, field, end, text_at}
use integration_efi.Webhooks.Signature.{
  Certificates, verify_webhook_signature, certificate_of, is_valid, verdict,
}
use integration_efi.Tests.{good}

-- One certificate, which is over at the instant 5.
abbrev pub certificates : Certificates
certificates = record {
  decode_base64 = λ text. ok [];
  parse_certificate = λ der. ok (record { subject = "efi"; issuer = "ca"; not_after = 5 });
  format_rfc3339 = λ t. "then";
}

abbrev delivered : Fields
delivered = field "peer_cert_der" (string "der") (field "expected_issuer" (string "ca") end)

abbrev verdict_of_efi : Fields
verdict_of_efi = field "valid" (bool true) (
    field "subject" (string "efi")
      (field "issuer" (string "ca") (field "not_after" (string "then") end)))

judged : (verify_webhook_signature good certificates delivered []).0 ≡ ok verdict_of_efi
unfolding verify_webhook_signature text_at verdict certificate_of is_valid
judged = refl
