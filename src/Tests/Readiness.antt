-- ===== src/Tests/Readiness.antt =====
-- Examples for the evidence of readiness.
use integration_efi.Webhooks.ReadinessText.{without_dot}
use integration_efi.Base.{
  ◌≡◌, refl, true, false, none, [], ◌∷◌, some, Outcome, ok, err, has_suffix, if◌then◌else◌, pos,
  any_char, trim_space, trim_right,
}
use integration_efi.Value.{string, Fields, field, end, size, string_at}
use integration_efi.World.{World, History, answered}
use integration_efi.Mtls.{Loader}
use integration_efi.Webhooks.ReadinessNetwork.{
  Network, network_deps, op_error, resolve_public_addresses, require_clientless_tls_refusal, judged,
  is_required_client_certificate_refusal, has_alert, observe_core_event_authorization,
  authorization_of,
}
use integration_efi.Contract.{keys_of}
use integration_efi.Webhooks.ReadinessNetwork.Refused.{
  AllClosed, IsPublic, observe_automatic_webhook_readiness-AllClosed,
}
use integration_efi.Api.{Error, return}
use integration_efi.Webhooks.ReadinessInputs.{
  Tools, ReadinessConfig, ReadinessDeps, EventAuthorization, equal_string_sets, normalized_dns_name,
  normalized_provider_base_url, normalized_receiver_url, exact_authorization,
}
use integration_efi.Webhooks.Readiness.{
  Found, checked_input, configuration, found, probes, proven_addresses, proven_authorization,
  unexpired,
}
use integration_efi.Webhooks.Readiness.Evidence.{
  observe_automatic_webhook_readiness, readiness_output,
}
use integration_efi.Tests.{good, hook, hook_url, library_with, registered}

abbrev parsing : World
parsing = record good {
  library = record (library_with registered) {
    parse_url = λ s. some (if has_suffix s "/efi" then hook_url else record hook_url { path = "" });
  };
}

abbrev pub tools : Tools
tools = record {
  sort_strings = λ ss. ss;
  join_host_port = λ host port. host;
  is_ip = λ s. false;
  text_size = λ s. 64;
  is_hex = λ s. true;
  sha256_hex = λ b. "digest";
  marshal = λ v. [];
  format_rfc3339 = λ n. "later";
}

abbrev grant : EventAuthorization
grant = record {
  allowed = true;
  principal_id = "integration-efi";
  provider = "efi";
  instance_id = "main";
  event_type = "efi.automatic_webhook.ensured";
  grant_form = "exact";
  grant_count = pos 13;
  grant_set_sha256 = "01de7f37235b2b4d306f8092cb3f5655c0e1fa929265b5ea07c86e7a5c030a14";
  principal_expires_at = "a";
}

abbrev pub deps : ReadinessDeps
deps = record {
  resolve_addresses = λ host. return ("192.0.2.1" ∷ []);
  clientless_probe = λ url address. return "fingerprint";
  authorize_event = λ core token instance_id. return grant;
}

-- One address, whose server ends the connection by the alert of TLS 1.3.
abbrev pub network : Network
network = record {
  lookup = λ h host. ok (
      record {
        text = "192.0.2.1";
        global_unicast = true;
        private = false;
        loopback = false;
        link_local_unicast = false;
        link_local_multicast = false;
        multicast = false;
      }
      ∷ []);
  builds = λ url. true;
  connect = λ h url address. record {
    responded = false;
    failure = some (op_error "remote error" (some "tls: certificate required") ∷ []);
    timed_out = false;
    requested = some 0x0304;
    peer = some (1 ∷ []);
  };
  ask_core = λ h url token body. answered 200 (1 ∷ []);
  read_authorization = λ bytes. some (grant, true);
  decimal = λ status. "status";
}

-- A loader that reads any certificate.
abbrev pub loader : Loader
loader = record {
  load_p12 =
      λ source. ok (record { certificates = ((1 ∷ []) ∷ []) ∷ []; roots = none; min_version = 0 });
  system_cert_pool = ok (some 0);
}

abbrev configured : ReadinessConfig
configured = record {
  receiver_url = hook;
  provider_base_url = "https://api.example";
  tls_config = some (((1 ∷ []) ∷ []) ∷ []);
  oauth_authenticated = true;
  core_url = "https://core.example";
  event_token = "token";
  instance_id = "main";
}

abbrev expecting : Fields
expecting = field "expected_dns_name" (string "hooks.example") end

abbrev from_ok : Outcome Error Fields → Fields
from_ok (ok m) = m
from_ok (err e) = end

-- The output of the run.
abbrev shown : Fields
shown = from_ok (observe_automatic_webhook_readiness parsing tools deps configured expecting []).0

-- The run over the network, and its output.
abbrev over_network : Outcome Error Fields × History
over_network =
    observe_automatic_webhook_readiness parsing tools
      (network_deps parsing tools network configured) configured expecting []

abbrev shown_over_network : Fields
shown_over_network = from_ok over_network.0

ready_over_network : over_network ≡ (ok shown_over_network, over_network.1)
unfolding observe_automatic_webhook_readiness found configuration checked_input size string_at
    normalized_dns_name without_dot trim_space any_char has_suffix normalized_receiver_url
    normalized_provider_base_url proven_addresses equal_string_sets probes proven_authorization
    unexpired exact_authorization network_deps resolve_public_addresses keys_of
    require_clientless_tls_refusal judged is_required_client_certificate_refusal has_alert
    observe_core_event_authorization authorization_of trim_right
ready_over_network = refl

observe_automatic_webhook_readiness-AllClosed_example :
    let run_deps = network_deps parsing tools network configured in
    (f : Found parsing tools run_deps) × (shown_over_network
      ≡ readiness_output parsing tools run_deps f)
    × IsPublic parsing tools network f.configured.receiver_host f.receiver_addresses
    × IsPublic parsing tools network f.configured.expected_dns_name f.expected_addresses
    × AllClosed parsing tools network f.configured.receiver_url f.configured.receiver_port
        f.receiver_addresses f.probed
observe_automatic_webhook_readiness-AllClosed_example =
    observe_automatic_webhook_readiness-AllClosed parsing tools network configured expecting
      shown_over_network [] over_network.1 ready_over_network
