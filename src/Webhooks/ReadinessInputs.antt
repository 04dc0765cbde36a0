-- ===== src/Webhooks/ReadinessInputs.antt =====
-- observe_automatic_webhook_readiness.go: its configuration and dependencies, and the names, URLs and
-- grants that it accepts.
use integration_efi.Base.{
  ℕ, String, Bool, true, false, ◌&&◌, ◌||◌, not, Option, none, some, List, [], ◌∷◌, Outcome, ok,
  err, ◌==◌, ◌<>◌, eqb, length, any_char, trim_space, trim_right, if◌then◌else◌, ℤ, pos,
}
use integration_efi.Value.{Value, object, Fields}
use integration_efi.World.{World, Url}
use integration_efi.Api.{Error, plain, Exec, return, raise}
use integration_efi.Webhooks.ReadinessText.{without_dot}

-- The packages sort, net, crypto and encoding behind this file.
pub record Tools : Type 0 where
  pub sort_strings : List String → List String
  pub join_host_port : String → String → String
  pub is_ip : String → Bool  -- net.ParseIP(value) != nil
  pub text_size : String → ℕ  -- len
  pub is_hex : String → Bool  -- hex.DecodeString succeeds
  pub sha256_hex : List ℕ → String
  pub marshal : Value → List ℕ
  pub format_rfc3339 : ℕ → String  -- UTC().Format(time.RFC3339)

-- AutomaticWebhookReadinessConfig; a TLS configuration is its certificate chains, none for nil
pub record ReadinessConfig : Type 0 where
  pub receiver_url : String
  pub provider_base_url : String
  pub tls_config : Option (List (List (List ℕ)))
  pub oauth_authenticated : Bool
  pub core_url : String
  pub event_token : String
  pub instance_id : String

-- automaticWebhookAuthorization
pub record EventAuthorization : Type 0 where
  pub allowed : Bool
  pub principal_id : String
  pub provider : String
  pub instance_id : String
  pub event_type : String
  pub grant_form : String
  pub grant_count : ℤ
  pub grant_set_sha256 : String
  pub principal_expires_at : String

-- automaticWebhookReadinessDeps, the TLS configuration of the probe left out
pub record ReadinessDeps : Type 0 where
  pub resolve_addresses : String → Exec (List String)
  pub clientless_probe : String → String → Exec String
  pub authorize_event : String → String → String → Exec EventAuthorization

abbrev pub fault : String → Error
fault t = plain ("observe_automatic_webhook_readiness: " <> t)

-- The error of a step is replaced.
abbrev pub replaced : {A : Type 0} → String → Outcome Error A → Outcome Error A
replaced t (ok a) = ok a
replaced t (err e) = err (fault t)

abbrev pub hiding : {A : Type 0} → String → Exec A → Exec A
hiding t m h = let (r, h') = m h in (replaced t r, h')

abbrev pub or_fault : {A : Type 0} → Option A → String → Exec A
or_fault none t = raise (fault t)
or_fault (some a) t = return a

abbrev pub is_nonempty : {A : Type 0} → List A → Bool
is_nonempty [] = false
is_nonempty (x ∷ xs) = true

abbrev same_texts : List String → List String → Bool
same_texts [] [] = true
same_texts (x ∷ xs) (y ∷ ys) = x == y && same_texts xs ys
same_texts _ _ = false

-- clientLeafCertificateSHA256, as the leaf
abbrev pub leaf_of : List (List (List ℕ)) → Option (List ℕ)
leaf_of ((leaf ∷ chain) ∷ chains) = some leaf
leaf_of _ = none

module _ (w : World) (t : Tools) where
  -- equalStringSets
  unfoldable pub equal_string_sets : List String → List String → Bool
  equal_string_sets left right =
      eqb (length left) (length right) && same_texts (t.sort_strings left) (t.sort_strings right)

  -- normalizedProviderBaseURL
  unfoldable pub normalized_provider_base_url : String → Option String
  normalized_provider_base_url value =
      let v = trim_right (λ c. eqb c b'/') (trim_space value) in
      elim (w.parse_url v) [
        | none ↦ none
        | some u ↦
            if u.scheme == "https"
              && not (u.hostname == "")
              && not u.has_user
              && u.raw_query == ""
              && u.fragment == ""
              && (u.path == "" || u.path == "/")
            then some v
            else none
      ]

  -- normalizedDNSName
  unfoldable pub normalized_dns_name : String → Option String
  normalized_dns_name value =
      let v = w.to_lower (without_dot (trim_space value)) in
      elim (w.parse_url ("https://" <> v)) [
        | none ↦ none
        | some u ↦
            if not (v == "")
              && not (t.is_ip v)
              && not (
                  any_char (λ c. eqb c b'/' || eqb c b':' || eqb c b'@' || eqb c b'?' || eqb c b'#')
                    v)
              && u.hostname == v
              && u.port == ""
              && u.path == ""
            then some v
            else none
      ]

  abbrev receiver_fits : Url → Bool
  receiver_fits u =
      u.scheme == "https"
      && not (u.hostname == "")
      && not u.has_user
      && u.raw_query == ""
      && u.fragment == ""
      && u.raw_path == ""
      && not (u.path == "" || u.path == "/")
      && (u.port == "" || u.port == "443")

  -- normalizedReceiverURL: the URL, its host and its port
  unfoldable pub normalized_receiver_url : String → Option (String × String × String)
  normalized_receiver_url value = elim (w.parse_url (trim_space value)) [
    | none ↦ none
    | some u ↦
        if receiver_fits u
        then elim (normalized_dns_name u.hostname) [
          | none ↦ none
          | some host ↦ some (w.format_url u, host, if u.port == "" then "443" else u.port)
        ]
        else none
  ]

  -- canonicalEvidenceSHA256
  unfoldable pub canonical_evidence_sha256 : Fields → String
  canonical_evidence_sha256 m = t.sha256_hex (t.marshal (object m))

  -- The authorization that the core must show for an instance.
  unfoldable pub exact_authorization : EventAuthorization → String → Bool
  exact_authorization a instance_id =
      a.allowed
      && a.principal_id == "integration-efi"
      && a.provider == "efi"
      && a.instance_id == instance_id
      && a.event_type == "efi.automatic_webhook.ensured"
      && a.grant_form == "exact"
      && (elim a.grant_count [ pos n ↦ eqb n 13 | _ ↦ false ])
      && a.grant_set_sha256 == "01de7f37235b2b4d306f8092cb3f5655c0e1fa929265b5ea07c86e7a5c030a14"
