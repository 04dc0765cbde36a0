-- ===== src/Webhooks/ReadinessNetwork.antt =====
-- observe_automatic_webhook_readiness.go: the lookup of public addresses, the probe without a client
-- certificate, and the authorization request to the core. What net, crypto/tls and net/http make of them is
-- the environment's answer.
pub mod Refused
use integration_efi.Base.{
  ℕ, ◌+◌, ◌*◌, String, Bool, true, false, ◌&&◌, ◌||◌, not, Option, none, some, List, [], ◌∷◌,
  Outcome, ok, err, ◌==◌, ◌<>◌, eqb, ltb, take, length, all, map, trim_space, trim_right,
  if◌then◌else◌, is_some,
}
use integration_efi.Value.{Value, object, string, Fields, field, end}
use integration_efi.World.{World, Url, Reply, failed, broken, answered, History}
use integration_efi.Api.{Error, plain, Exec, return, raise, require, lift, ◌>>=◌, ◌>>◌}
use integration_efi.Contract.{keys_of}
use integration_efi.Webhooks.ReadinessInputs.{
  Tools, EventAuthorization, ReadinessConfig, ReadinessDeps,
}

-- net.IP, by its own tests
pub record Address : Type 0 where
  pub text : String
  pub global_unicast : Bool
  pub private : Bool
  pub loopback : Bool
  pub link_local_unicast : Bool
  pub link_local_multicast : Bool
  pub multicast : Bool

-- One error of a chain, outermost first.
pub data Layer : Type 0 where
  op_error : String → Option String → Layer  -- *net.OpError, its Op, and the text of its Err
  other_error : Layer

-- What the one connection of a probe came to, with what the callbacks of its TLS configuration saw.
pub record Handshake : Type 0 where
  pub responded : Bool  -- an HTTP response came
  pub failure : Option (List Layer)  -- the error of Do
  pub timed_out : Bool  -- errors.As finds a net.Error that is a timeout
  pub requested : Option ℕ  -- the version, if the server asked for a certificate
  pub peer : Option (List ℕ)  -- the leaf that VerifyConnection saw last, without an error

pub record Network : Type 0 where
  pub lookup : History → String → Outcome Error (List Address)  -- net.DefaultResolver
  pub builds : String → Bool  -- http.NewRequest
  pub connect : History → String → String → Handshake  -- a URL at an address, without a certificate
  pub ask_core : History → String → String → Value → Reply  -- a URL, the bearer token and the body
  pub read_authorization : List ℕ → Option (EventAuthorization × Bool)  -- strict Decode, and whether EOF follows
  pub decimal : ℕ → String

abbrev pub is_public : Address → Bool
is_public a = not (
    not a.global_unicast
    || a.private
    || a.loopback
    || a.link_local_unicast
    || a.link_local_multicast
    || a.multicast)

-- The text of the alert that a server of a version sends when it wants a certificate.
abbrev pub expected_alert : ℕ → Option String
expected_alert version =
    if eqb version 0x0303
    then some "tls: handshake failure"
    else if eqb version 0x0304
    then some "tls: certificate required"
    else none

abbrev is_alert : String → Layer → Bool
is_alert alert other_error = false
is_alert alert (op_error op none) = false
is_alert alert (op_error op (some text)) = op == "remote error" && text == alert

unfoldable pub has_alert : String → List Layer → Bool
has_alert alert [] = false
has_alert alert (l ∷ ls) = is_alert alert l || has_alert alert ls

abbrev pub sends_alert : Option String → List Layer → Bool
sends_alert none chain = false
sends_alert (some alert) chain = has_alert alert chain

-- isRequiredClientCertificateRefusal
unfoldable pub is_required_client_certificate_refusal : List Layer → ℕ → Bool
is_required_client_certificate_refusal chain version = sends_alert (expected_alert version) chain

-- maxCoreAuthorizationResponseBytes
abbrev max_core_authorization_response_bytes : ℕ
max_core_authorization_response_bytes = 32 * 1024

module _ (w : World) (t : Tools) (n : Network) where
  -- The texts of an answer, each once, if all of it is public.
  abbrev pub public_texts : Outcome Error (List Address) → Outcome Error (List String)
  public_texts (err e) = err e
  public_texts (ok addresses) =
      if not (all is_public addresses)
      then err (plain "DNS answer is not publicly routable")
      else ok (t.sort_strings (keys_of (map (λ (a : Address). a.text) addresses)))

  -- resolvePublicAddresses
  unfoldable pub resolve_public_addresses : String → Exec (List String)
  resolve_public_addresses host h = (public_texts (n.lookup h host), h)

  abbrev pub fingerprint_of : Option (List ℕ) → Outcome Error String
  fingerprint_of none = err (plain "receiver certificate fingerprint unavailable")
  fingerprint_of (some leaf) =
      if t.sha256_hex leaf == ""
      then err (plain "receiver certificate fingerprint unavailable")
      else ok (t.sha256_hex leaf)

  -- The judgement of an error, with whether the context and the time had ended, and what was asked and shown.
  abbrev pub refused_by :
      Bool → Bool → Option (List Layer) → Option ℕ → Option (List ℕ) → Outcome Error String
  refused_by cancelled timed_out none requested peer =
      err (plain "server did not require a client certificate")
  refused_by cancelled timed_out (some chain) none peer =
      err (plain "server did not require a client certificate")
  refused_by cancelled timed_out (some chain) (some version) peer =
      if cancelled
      then err (plain "clientless HTTP probe context ended")
      else if timed_out
      then err (plain "clientless HTTP probe timed out")
      else if not (is_required_client_certificate_refusal chain version)
      then err (plain "server refusal was not a required-client-certificate TLS alert")
      else fingerprint_of peer

  -- The judgement of a connection.
  unfoldable pub judged : Bool → Handshake → Outcome Error String
  judged cancelled k =
      if k.responded
      then err (plain "server accepted an HTTP request without a client certificate")
      else refused_by cancelled k.timed_out k.failure k.requested k.peer

  abbrev pub is_receiver : Option Url → Bool
  is_receiver none = false
  is_receiver (some u) = u.scheme == "https" && not (u.hostname == "")

  -- requireClientlessTLSRefusal, with whether there is a TLS configuration
  unfoldable pub require_clientless_tls_refusal : Bool → String → String → Exec String
  require_clientless_tls_refusal base receiver_url address = do
    require (is_receiver (w.parse_url receiver_url)) (plain "invalid receiver URL")
    require base (plain "TLS config unavailable")
    require (n.builds receiver_url) (plain "net/http: invalid request")
    λ h. (judged (w.cancelled h) (n.connect h receiver_url address), h)

  abbrev is_core : Option Url → Bool
  is_core none = false
  is_core (some u) =
      (u.scheme == "http" || u.scheme == "https")
      && not (u.host == "")
      && not u.has_user
      && u.raw_query == ""
      && u.fragment == ""
      && (u.path == "" || u.path == "/")

  abbrev complete : Option (EventAuthorization × Bool) → Outcome Error EventAuthorization
  complete none = err (plain "decode Core authorization response")
  complete (some (a, true)) = ok a
  complete (some (a, false)) = err (plain "decode complete Core authorization response")

  -- What the core's answer says.
  unfoldable pub authorization_of : Reply → Outcome Error EventAuthorization
  authorization_of (failed text) = err (plain "Core authorization request failed")
  authorization_of (broken status text) =
      if eqb status 200
      then err (plain "read Core authorization response")
      else err (plain ("Core authorization rejected with status " <> n.decimal status))
  authorization_of (answered status bytes) =
      let raw = take (max_core_authorization_response_bytes + 1) bytes in
      if not (eqb status 200)
      then err (plain ("Core authorization rejected with status " <> n.decimal status))
      else if ltb max_core_authorization_response_bytes (length raw)
      then err (plain "read Core authorization response")
      else complete (n.read_authorization raw)

  -- observeCoreEventAuthorization
  unfoldable pub observe_core_event_authorization :
      String → String → String → Exec EventAuthorization
  observe_core_event_authorization core_url event_token instance_id = do
    let core = trim_space core_url
    let token = trim_space event_token
    let endpoint = trim_right (λ c. eqb c b'/') core <> "/api/v1/events/authorization"
    require (is_core (w.parse_url core) && not (token == ""))
        (plain "Core authorization endpoint is unavailable")
    require (n.builds endpoint) (plain "build Core authorization request")
    λ h. (
      authorization_of (
          n.ask_core h endpoint token (
            object (
              field "provider" (string "efi") (
                field "instance_id" (string instance_id)
                  (field "event_type" (string "efi.automatic_webhook.ensured") end))))),
      h,
    )

  -- The dependencies of ObserveAutomaticWebhookReadiness.
  unfoldable pub network_deps : ReadinessConfig → ReadinessDeps
  network_deps cfg = record {
    resolve_addresses = resolve_public_addresses;
    clientless_probe = require_clientless_tls_refusal (is_some cfg.tls_config);
    authorize_event = observe_core_event_authorization;
  }
