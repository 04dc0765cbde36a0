-- ===== src/Webhooks/Readiness/Evidence.antt =====
-- The output of observe_automatic_webhook_readiness.go.
use integration_efi.Base.{String, true, List, map, length, pos}
use integration_efi.Value.{
  Value, bool, int, string, texts, object, objects, Fields, field, end, put, from_rows,
}
use integration_efi.World.{World}
use integration_efi.Api.{Exec, return, ◌>>=◌}
use integration_efi.Contract.{keys_of}
use integration_efi.Webhooks.ReadinessInputs.{
  Tools, ReadinessConfig, ReadinessDeps, canonical_evidence_sha256,
}
use integration_efi.Webhooks.Readiness.{Found, found, address_probe}

-- A status that the adapter cannot see, and why.
abbrev not_observed : String → Value
not_observed reason =
    object (field "status" (string "not_observed") (field "reason" (string reason) end))

module _ (w : World) (t : Tools) (deps : ReadinessDeps) where
  -- Evidence with its own digest.
  abbrev digested : Fields → Fields
  digested m = put m "evidence_sha256" (string (canonical_evidence_sha256 w t m))

  module _ (f : Found w t deps) where
    abbrev fingerprints : List String
    fingerprints = t.sort_strings (keys_of (map (λ (x : String × String). x.1) f.probed))

    abbrev address_probes : Value
    address_probes = objects (from_rows (map (address_probe w t deps) f.probed))

    abbrev probe_count : Value
    probe_count = int (pos (length f.probed))

    abbrev expires_at : Value
    expires_at = string (t.format_rfc3339 f.principal_expires_at)

    abbrev authenticated_probe : Value
    authenticated_probe =
        not_observed
          "provider-authenticated callback acceptance is proven only when EFI processes the webhook registration PUT"

    unfoldable pub technical_identity : Fields
    technical_identity = digested (
        field "provider" (string "efi") (
          field "instance_id" (string f.configured.instance_id) (
            field "provider_base_url" (string f.configured.provider_base_url) (
              field "oauth_authenticated" (bool true) (
                field "client_certificate_sha256"
                  (string (t.sha256_hex f.configured.client_certificate)) end)))))

    -- What the evidence and the output share: the receiver, its addresses and their probes.
    abbrev addresses_before : Fields → Fields
    addresses_before rest = field "receiver_url" (string f.configured.receiver_url) (
        field "receiver_host" (string f.configured.receiver_host) (
          field "expected_dns_name" (string f.configured.expected_dns_name) (
            field "receiver_addresses" (texts f.receiver_addresses) (
              field "expected_addresses" (texts f.expected_addresses) (
                field "dns_matches_expected" (bool true) (
                  field "all_addresses_proven" (bool true) (
                    field "address_probe_count" probe_count (
                      field "address_probes" address_probes (
                        field "peer_certificate_sha256s" (texts fingerprints)
                          (field "provider_authenticated_probe" authenticated_probe rest))))))))))

    unfoldable pub webhook_evidence : Fields
    webhook_evidence = digested (
        addresses_before (
          field "event_principal_id" (string f.authorization.principal_id) (
            field "event_grant_form" (string f.authorization.grant_form) (
              field "event_grant_count" (int f.authorization.grant_count) (
                field "event_grant_set_sha256" (string f.authorization.grant_set_sha256)
                  (field "event_principal_expires_at" expires_at end))))))

    abbrev event_authorization : Fields
    event_authorization =
        let a = f.authorization in
        field "allowed" (bool a.allowed) (
          field "principal_id" (string a.principal_id) (
            field "provider" (string a.provider) (
              field "instance_id" (string a.instance_id) (
                field "event_type" (string a.event_type) (
                  field "grant_form" (string a.grant_form) (
                    field "grant_count" (int a.grant_count) (
                      field "grant_set_sha256" (string a.grant_set_sha256)
                        (field "principal_expires_at" expires_at end))))))))

    unfoldable pub readiness_output : Fields
    unfolding technical_identity webhook_evidence
    readiness_output = field "ready" (bool true) (
        addresses_before (
          field "clientless_certificate_requested" (bool true) (
            field "clientless_refused" (bool true) (
              field "authenticated_status" (int (pos 0)) (
                field "technical_identity_evidence" (object technical_identity) (
                  field "webhook_evidence" (object webhook_evidence) (
                    field "commercial_eligibility"
                      (not_observed
                        "OAuth, mTLS, DNS and event authorization prove technical readiness only")
                      (field "account_identity"
                        (not_observed
                          "the EFI adapter contract exposes no read-only authoritative account identity")
                        (field "event_authorization" (object event_authorization) end)))))))))

  -- observeAutomaticWebhookReadiness
  unfoldable pub observe_automatic_webhook_readiness : ReadinessConfig → Fields → Exec Fields
  observe_automatic_webhook_readiness cfg input = do
    f ← found w t deps cfg input
    return (readiness_output f)
