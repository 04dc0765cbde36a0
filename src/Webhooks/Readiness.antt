-- ===== src/Webhooks/Readiness.antt =====
-- observe_automatic_webhook_readiness.go: the evidence that automatic webhooks can be registered. The
-- resolver, the probe of an address and the authorization at the core are arguments, as in the source.
pub mod Evidence
pub mod Probed
pub mod Proven
use integration_efi.Base.{
  ℕ, String, true, ◌&&◌, not, Option, none, some, List, [], ◌∷◌, ok, err, ◌==◌, ltb, eqb,
  trim_space, if◌then◌else◌, pos,
}
use integration_efi.Value.{bool, int, string, Fields, field, end, size, string_at}
use integration_efi.World.{World, clock_read}
use integration_efi.Api.{◌>>=◌, ◌>>◌, Exec, return, require}
use integration_efi.Webhooks.ReadinessInputs.{
  Tools, ReadinessConfig, EventAuthorization, ReadinessDeps, fault, hiding, or_fault, is_nonempty,
  leaf_of, equal_string_sets, normalized_provider_base_url, normalized_dns_name,
  normalized_receiver_url, exact_authorization,
}

module _ (w : World) (t : Tools) where
  module _ (deps : ReadinessDeps) where
    -- The probes of the addresses, with the fingerprint that each gave.
    unfoldable pub probes : String → String → List String → Exec (List (String × String))
    probes receiver_url port [] = return []
    probes receiver_url port (address ∷ addresses) = do
      probed ←
          hiding "clientless mTLS refusal was not proven for every receiver address"
            (deps.clientless_probe receiver_url (t.join_host_port address port))
      let fingerprint = w.to_lower probed
      require (eqb (t.text_size fingerprint) 64 && t.is_hex fingerprint)
          (fault "clientless mTLS probe returned an invalid receiver certificate fingerprint")
      rest ← probes receiver_url port addresses
      return ((address, fingerprint) ∷ rest)

    -- The evidence of one address.
    unfoldable pub address_probe : String × String → Fields
    address_probe (address, fingerprint) = field "address" (string address) (
        field "clientless_certificate_requested" (bool true) (
          field "clientless_refused" (bool true) (
            field "authenticated_status" (int (pos 0))
              (field "peer_certificate_sha256" (string fingerprint) end))))

    -- What the input and the configuration say.
    pub record Configured : Type 0 where
      pub expected_dns_name : String
      pub receiver_url : String
      pub receiver_host : String
      pub receiver_port : String
      pub instance_id : String
      pub provider_base_url : String
      pub client_certificate : List ℕ

    -- What the checks before the evidence found.
    pub record Found : Type 0 where
      pub configured : Configured
      pub receiver_addresses : List String
      pub expected_addresses : List String
      pub probed : List (String × String)
      pub authorization : EventAuthorization
      pub principal_expires_at : ℕ

    -- The check of the input.
    unfoldable pub checked_input : Fields → Exec String
    checked_input input = do
      require (eqb (size input) 1) (fault "expected only expected_dns_name")
      name ← or_fault (string_at input "expected_dns_name") "expected_dns_name is required"
      or_fault (normalized_dns_name w t name) "invalid expected_dns_name"

    -- The lookups and the probes.
    unfoldable pub proven_addresses :
        String
        → String
        → String
        → String
        → Exec (List String × List String × List (String × String))
    proven_addresses receiver_url host port expected_dns_name = do
      addresses ← hiding "receiver DNS lookup failed" (deps.resolve_addresses host)
      require (is_nonempty addresses) (fault "receiver DNS lookup failed")
      expected ←
          hiding "expected load balancer DNS lookup failed"
            (deps.resolve_addresses expected_dns_name)
      require (is_nonempty expected) (fault "expected load balancer DNS lookup failed")
      require (equal_string_sets w t addresses expected)
          (fault "receiver DNS does not match the expected load balancer")
      probed ← probes receiver_url port addresses
      return (addresses, expected, probed)

    -- An instant that is after the clock's.
    unfoldable pub unexpired : Option ℕ → Exec ℕ
    unexpired none h = (err (fault "Core event principal expiry was invalid"), h)
    unexpired (some expiry) h = (
      if ltb (w.now h) expiry
          then ok expiry
          else err (fault "Core event principal expiry was invalid"),
      clock_read ∷ h,
    )

    -- The authorization at the core and its expiry.
    unfoldable pub proven_authorization : String → String → String → Exec (EventAuthorization × ℕ)
    proven_authorization core_url event_token instance_id = do
      authorization ←
          hiding "Core event authorization proof failed"
            (deps.authorize_event core_url event_token instance_id)
      expiry ← unexpired (w.parse_rfc3339 (trim_space authorization.principal_expires_at))
      require (exact_authorization w t authorization instance_id)
          (fault "Core event authorization proof was incomplete")
      return (authorization, expiry)

    -- The checks of the input and of the configuration.
    unfoldable pub configuration : ReadinessConfig → Fields → Exec Configured
    configuration cfg input = do
      expected_dns_name ← checked_input input
      (receiver_url, host, port) ←
          or_fault (normalized_receiver_url w t cfg.receiver_url)
            "configured receiver URL is invalid"
      chains ← or_fault cfg.tls_config "EFI client certificate is unavailable"
      require (is_nonempty chains) (fault "EFI client certificate is unavailable")
      require cfg.oauth_authenticated (fault "EFI OAuth authentication was not proven")
      let instance_id = trim_space cfg.instance_id
      require (not (instance_id == "")) (fault "integration instance is required")
      provider_base_url ←
          or_fault (normalized_provider_base_url w t cfg.provider_base_url)
            "configured EFI base URL is invalid"
      leaf ← or_fault (leaf_of chains) "EFI client certificate fingerprint is unavailable"
      return (record {
        expected_dns_name = expected_dns_name;
        receiver_url = receiver_url;
        receiver_host = host;
        receiver_port = port;
        instance_id = instance_id;
        provider_base_url = provider_base_url;
        client_certificate = leaf;
      })

    -- Every check, in the order of the source.
    unfoldable pub found : ReadinessConfig → Fields → Exec Found
    found cfg input = do
      c ← configuration cfg input
      (addresses, expected, probed) ←
          proven_addresses c.receiver_url c.receiver_host c.receiver_port c.expected_dns_name
      (authorization, expiry) ← proven_authorization cfg.core_url cfg.event_token c.instance_id
      return (record {
        configured = c;
        receiver_addresses = addresses;
        expected_addresses = expected;
        probed = probed;
        authorization = authorization;
        principal_expires_at = expiry;
      })
