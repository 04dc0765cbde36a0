-- ===== src/Webhooks/Automatic.antt =====
-- automatic_webhook.go: the registrations of the Pix Automatico endpoints.
pub mod Ensure
pub mod Mutation
pub mod Storing
pub mod Success
use integration_efi.Base.{
  ℕ, String, Bool, true, false, ◌&&◌, ◌||◌, not, Option, none, some, List, [], ◌∷◌, Outcome, ok,
  err, ◌==◌, ◌<>◌, if◌then◌else◌, trim_space, trim_prefix,
}
use integration_efi.Value.{
  Value, bool, string, object, Fields, field, end, text_at, get, put, value_at, has, as_string,
  to_fields, string_at,
}
use integration_efi.World.{World, method_put, method_get, History}
use integration_efi.Api.{
  Error, plain, wrap, Exec, ◌>>=◌, ◌>>◌, after, lift, return, raise, require, within, Context,
  Client, do_raw,
}
use integration_efi.Charges.{is_not_found}
use integration_efi.Webhooks.Urls.{normalize_automatic_webhook_url, redact_url_secrets}

-- automaticWebhookEndpoints
unfoldable pub endpoint_of : String → Option String
endpoint_of kind =
    if kind == "rec"
    then some "/v2/webhookrec"
    else if kind == "cobr"
    then some "/v2/webhookcobr"
    else none

-- AutomaticWebhookResourceID
unfoldable pub automatic_webhook_resource_id : String → String
unfolding endpoint_of trim_prefix
automatic_webhook_resource_id kind = elim (endpoint_of kind) [
  | none ↦ ""
  | some path ↦ trim_prefix path "/v2/"
]

-- automaticWebhookState
pub record Registration : Type 0 where
  pub registered : Bool
  pub url : String
  pub created_at : String

abbrev pub unregistered : Registration
unregistered = record { registered = false; url = ""; created_at = "" }

-- refuseAutomaticWebhookInputs
unfoldable pub refuse_inputs : Fields → Outcome Error (Unit {0})
refuse_inputs input =
    if has input "skip_mtls_validation"
    then err (
        plain
          "skip_mtls_validation is not accepted: automatic webhook deliveries must be authenticated by mTLS")
    else if has input "chave"
    then err (
        plain
          "chave is not accepted: automatic webhooks are registered per API application, not per Pix key")
    else ok tt

-- automaticWebhookKind: the kind and its path
unfoldable pub automatic_webhook_kind : Fields → Outcome Error (String × String)
unfolding endpoint_of
automatic_webhook_kind input = elim (string_at input "kind") [
  | none ↦ err (plain "kind is required and must be \"rec\" or \"cobr\"")
  | some raw ↦ elim (endpoint_of (trim_space raw)) [
    | none ↦ err (plain "kind must be \"rec\" or \"cobr\"")
    | some path ↦ ok (trim_space raw, path)
  ]
]

-- What a successful response says.
unfoldable pub registration_of : Fields → Registration
registration_of resp =
    let url = text_at resp "webhookUrl" in
    if trim_space url == ""
    then unregistered
    else record { registered = true; url = url; created_at = text_at resp "criacao" }

unfoldable pub settle_read : Outcome Error Fields → Outcome Error Registration
unfolding registration_of
settle_read (ok resp) = ok (registration_of resp)
settle_read (err e) = if is_not_found e then ok unregistered else err e

-- the registration is there and points where it should
unfoldable pub points_at : Registration → String → Bool
points_at state url = state.registered && state.url == url

-- A readback that is not what it should be.
unfoldable pub unlike : String → String → Registration → Error
unlike kind name state = plain (
    kind
    <> " readback does not equal "
    <> name
    <> " (registered="
    <> (if state.registered then "true" else "false")
    <> ")")

module _ (w : World) (ctx : Context) (c : Client) where
  -- readAutomaticWebhook
  unfoldable pub read_automatic_webhook : String → Exec Registration
  unfolding settle_read
  read_automatic_webhook path h =
      let (r, h') = do_raw w ctx c method_get path none (some to_fields) h in (settle_read r, h')

  -- automaticWebhookOutput
  unfoldable pub automatic_webhook_output : String → String → Registration → Fields
  automatic_webhook_output kind path state =
      let out = field "kind" (string kind) (
        field "endpoint" (string path) (
          field "resource_id" (string (automatic_webhook_resource_id kind))
            (field "registered" (bool state.registered) end))) in
      if not state.registered
      then out
      else let shown = put out "webhook_url" (string (redact_url_secrets w state.url)) in
        if state.created_at == "" then shown else put shown "created_at" (string state.created_at)

  -- The PUT, when the registration is absent or points elsewhere. The result is `changed`.
  unfoldable pub register_if_needed : String → String → Registration → Exec Bool
  register_if_needed path desired current = if points_at current desired then return false else do
    do_raw w ctx c method_put path (some (object (field "webhookUrl" (string desired) end))) none
    return true

  -- The read back after the registration, and the output.
  unfoldable pub confirm : String → String → String → Bool → Exec Fields
  confirm kind path desired changed = do
    readback ←
        within
          ("read " <> kind
            <> " registration back (the registration may have been applied; observe before any new attempt)")
          (read_automatic_webhook path)
    require (points_at readback desired) (unlike kind "webhook_url" readback)
    return (
        put (put (automatic_webhook_output kind path readback) "ensured" (bool true)) "changed"
          (bool changed))

  -- EnsureAutomaticWebhook, behind its checks of the input
  unfoldable pub ensure_at : String → String → String → Exec Fields
  unfolding register_if_needed confirm
  ensure_at kind path desired = do
    current ←
        within ("read " <> kind <> " registration before mutation") (read_automatic_webhook path)
    changed ← within ("register " <> kind <> " webhook") (register_if_needed path desired current)
    confirm kind path desired changed

  -- EnsureAutomaticWebhook
  unfoldable pub ensure_automatic_webhook : Fields → Exec Fields
  ensure_automatic_webhook input = within "ensure_automatic_webhook" (do
    lift (refuse_inputs input)
    (kind, path) ← lift (automatic_webhook_kind input)
    desired ← lift (normalize_automatic_webhook_url w (text_at input "webhook_url") "webhook_url")
    ensure_at kind path desired)

  -- The optional expected_webhook_url: absent, or a URL that passes the checks.
  unfoldable pub expected_url : Fields → Outcome Error (Option String)
  expected_url input = elim (get input "expected_webhook_url") [
    | none ↦ ok none
    | some v ↦ elim (as_string v) [
      | none ↦ err (plain "expected_webhook_url must be a string")
      | some raw ↦ elim (normalize_automatic_webhook_url w raw "expected_webhook_url") [
        | err e ↦ err e
        | ok url ↦ ok (some url)
      ]
    ]
  ]

  -- The comparison with the expected URL, and the output.
  unfoldable pub report : String → String → Registration → Option String → Outcome Error Fields
  report kind path state none = ok (automatic_webhook_output kind path state)
  report kind path state (some url) =
      if points_at state url
      then ok (put (automatic_webhook_output kind path state) "matches_expected" (bool true))
      else err (unlike kind "expected_webhook_url" state)

  -- ObserveAutomaticWebhooks
  unfoldable pub observe_automatic_webhooks : Fields → Exec Fields
  unfolding report
  observe_automatic_webhooks input = within "observe_automatic_webhooks" (do
    lift (refuse_inputs input)
    (kind, path) ← lift (automatic_webhook_kind input)
    expected ← lift (expected_url input)
    state ← within ("read " <> kind <> " registration") (read_automatic_webhook path)
    lift (report kind path state expected))
