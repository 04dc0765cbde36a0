-- ===== src/Routing.antt =====
-- The execute path: the names of the operations in providers/efi/adapter/spec.go, and
-- ExecuteWithContext of adapter.go with the event of automatic_webhook_events.go and the reactor of
-- reactor/efi_webhook_received.go.
pub mod Served
use integration_efi.Base.{
  ℕ, String, Bool, true, false, ◌||◌, not, Option, none, some, List, [], ◌∷◌, Outcome, ok, err,
  ◌==◌, ◌<>◌, if◌then◌else◌, trim_space, any, is_some,
}
use integration_efi.Value.{
  Value, bool, string, object, Fields, field, end, Values, nil, cons, get, text_at, string_at,
  value_at, as_array, as_object, union,
}
use integration_efi.World.{World, Event, clock_read, published, History}
use integration_efi.Api.{
  Error, plain, wrap, sentinel, mutation_accepted, Exec, return, raise, lift, ◌>>=◌, ◌>>◌, after,
  within, require, Context, Client,
}
use integration_efi.Api.Confidential.{mutation_succeeded}
use integration_efi.Session.{Config, config_from_request, new_efi_client}
use integration_efi.Charges.{
  ensure_charge, ensure_due_charge, observe_charges, destroy_charge, refund_charge, create_payout,
  handle_chargeback,
}
use integration_efi.Webhooks.Subscription.{
  ensure_webhook_subscription, destroy_webhook_subscription,
}
use integration_efi.Webhooks.Observe.{observe_webhook_subscriptions}
use integration_efi.Webhooks.ReadinessInputs.{Tools, ReadinessConfig}
use integration_efi.Webhooks.ReadinessNetwork.{Network, network_deps}
use integration_efi.Mtls.{Loader, load_tls_config, is_loaded, chains_of}
use integration_efi.Webhooks.Readiness.Evidence.{observe_automatic_webhook_readiness}
use integration_efi.Webhooks.Signature.{Certificates, verify_webhook_signature}
use integration_efi.Webhooks.Automatic.{ensure_automatic_webhook, observe_automatic_webhooks}
use integration_efi.Surface.Queries.{on_surface_query}

-- NormalizeExecuteOperation
unfoldable pub normalize_execute_operation : String → String → String
normalize_execute_operation operation capability =
    let op = trim_space operation in if op == "" then trim_space capability else op

-- SupportedExecuteOperations
abbrev pub supported_execute_operations : List String
supported_execute_operations =
    "ensure_charge" ∷ "ensure_due_charge" ∷ "observe_charges" ∷ "destroy_charge" ∷ "refund_charge"
    ∷ "create_payout" ∷ "handle_chargeback" ∷ "ensure_webhook_subscription"
    ∷ "observe_webhook_subscriptions" ∷ "destroy_webhook_subscription" ∷ "verify_webhook_signature"
    ∷ "efi_webhook_received" ∷ "on_surface_query" ∷ "ensure_automatic_webhook"
    ∷ "observe_automatic_webhooks" ∷ "observe_automatic_webhook_readiness" ∷ []

-- SDKOnlyOperations
abbrev pub sdk_only_operations : List String
sdk_only_operations = "observe_due_charges" ∷ "destroy_due_charge" ∷ []

-- LegacyOperationAliases
abbrev pub legacy_operation_aliases : List (String × String)
legacy_operation_aliases =
    ("create_charge", "ensure_charge")
    ∷ ("create_due_charge", "ensure_due_charge")
    ∷ ("get_charge_status", "observe_charges")
    ∷ ("get_statement", "observe_charges")
    ∷ ("register_webhook_endpoint", "ensure_webhook_subscription")
    ∷ ("unregister_webhook_endpoint", "destroy_webhook_subscription")
    ∷ []

-- The first entry of a name.
abbrev pub find : {A : Type 0} → List (String × A) → String → Option A
find [] v = none
find ((k, op) ∷ table) v = if v == k then some op else find table v

unfoldable pub legacy_operation : String → Option String
legacy_operation v = find legacy_operation_aliases v

-- CanonicalOperationFor, its first result; the second only decides on a log line
unfoldable pub canonical_operation_for : String → String
canonical_operation_for v = elim (legacy_operation (trim_space v)) [
  | none ↦ trim_space v
  | some op ↦ op
]

abbrev pub is_one_of : List String → String → Bool
is_one_of names v = any (λ s. v == s) names

-- SupportsExecuteCapability
unfoldable pub supports_execute_capability : String → Bool
supports_execute_capability v =
    let name = trim_space v in
    is_one_of supported_execute_operations name
    || is_one_of sdk_only_operations name
    || is_some (legacy_operation name)
    || name == ""

-- contract.AdapterExecuteIntegrationRequest, the parts that are read
pub record ExecuteRequest : Type 0 where
  pub operation : String
  pub capability : String
  pub input : Fields
  pub credentials : Fields
  pub instance_config : Fields
  pub instance_name : String
  pub metadata : Fields

-- What stands behind this file: what loads certificates, the environment of the readiness evidence, the
-- network behind its lookups and probes, and the certificate parser.
pub record Others : Type 0 where
  pub loader : Loader
  pub certificates : Certificates
  pub core_url : String  -- YGGDRASIL_CORE_URL
  pub event_token : String  -- YGGDRASIL_RUN_TOKEN
  pub readiness_tools : Tools
  pub network : Network

-- EfiWebhookReceived with DefaultReactorEmit, which has no sink.
unfoldable pub efi_webhook_received : Fields → Exec Fields
efi_webhook_received input = elim (as_array (value_at input "pix")) [
  | none ↦ return (field "emitted" (bool false) end)
  | some nil ↦ return (field "emitted" (bool false) end)
  | some (cons first rest) ↦ elim (as_object first) [
    | none ↦ raise (plain "efi_webhook_received: pix[0] must be an object")
    | some m ↦ λ h. (
      err (
          wrap "efi_webhook_received: emit" (
            plain
              "no event sink is wired for efi_webhook_received; EFI Pix callbacks are handled by the service behind the registered webhook_url")),
      clock_read ∷ h,
    )
  ]
]

module _ (w : World) (fallback_instance : String) where
  -- emitEnsured, less its log lines: the event goes to the emitter, and without a caller's
  -- idempotency key the clock is read for one.
  unfoldable pub emit_ensured : ExecuteRequest → Fields → History → History
  emit_ensured req observed h =
      let named = trim_space req.instance_name in
      let instance_id = if named == "" then fallback_instance else named in
      let timed =
        if trim_space (text_at req.metadata "idempotency") == "" then clock_read ∷ h else h in
      if w.marshals (object observed)
      then published "efi.automatic_webhook.ensured" (text_at observed "resource_id") instance_id
          (object observed)
        ∷ timed
      else h

  module _ (others : Others) (ctx : Context) where
    -- EnsureAutomaticWebhook and the event of its success.
    unfoldable pub ensure_and_emit : Client → ExecuteRequest → Exec Fields
    unfolding emit_ensured
    ensure_and_emit c req = do
      got ← ensure_automatic_webhook w ctx c req.input
      λ h. (ok got, emit_ensured req got h)

    abbrev pub readiness_config : Config → ExecuteRequest → ReadinessConfig
    readiness_config cfg req = record {
      receiver_url = cfg.webhook_receiver_url;
      provider_base_url = cfg.base_url;
      tls_config = chains_of (load_tls_config others.loader cfg);
      oauth_authenticated = true;
      core_url = others.core_url;
      event_token = others.event_token;
      instance_id = req.instance_name;
    }

    -- The cases of the switch of ExecuteWithContext.
    abbrev pub cases : Config → Client → ExecuteRequest → List (String × Exec Fields)
    cases cfg c req =
        ("ensure_charge", ensure_charge w ctx c req.input)
        ∷ ("ensure_due_charge", ensure_due_charge w ctx c req.input)
        ∷ ("observe_charges", observe_charges w ctx c req.input)
        ∷ ("destroy_charge", destroy_charge w ctx c req.input)
        ∷ ("refund_charge", refund_charge w ctx c req.input)
        ∷ ("create_payout", create_payout w ctx c req.input)
        ∷ ("handle_chargeback", lift (handle_chargeback req.input))
        ∷ ("ensure_webhook_subscription", ensure_webhook_subscription w ctx c req.input)
        ∷ ("observe_webhook_subscriptions", observe_webhook_subscriptions w ctx c req.input)
        ∷ ("destroy_webhook_subscription", destroy_webhook_subscription w ctx c req.input)
        ∷ ("verify_webhook_signature", verify_webhook_signature w others.certificates req.input)
        ∷ ("efi_webhook_received", efi_webhook_received req.input)
        ∷ ("ensure_automatic_webhook", ensure_and_emit c req)
        ∷ ("observe_automatic_webhooks", observe_automatic_webhooks w ctx c req.input)
        ∷ (
          "observe_automatic_webhook_readiness",
          observe_automatic_webhook_readiness w others.readiness_tools
              (network_deps w others.readiness_tools others.network (readiness_config cfg req))
              (readiness_config cfg req) req.input,
        )
        ∷ ("on_surface_query", on_surface_query w ctx c req.input)
        ∷ []

    -- The switch; nothing for an operation that it does not know.
    unfoldable pub handler : Config → Client → ExecuteRequest → String → Option (Exec Fields)
    handler cfg c req op = find (cases cfg c req) op

    -- The deferred replacement of an error in a confidential context.
    unfoldable pub masked : Error → Error
    masked e =
        if not ctx.confidential
        then e
        else if mutation_succeeded e
        then sentinel mutation_accepted
        else plain "efi: confidential provider operation failed"

    abbrev pub masked_outcome : {A : Type 0} → Outcome Error A × History → Outcome Error A × History
    masked_outcome (ok a, h) = (ok a, h)
    masked_outcome (err e, h) = (err (masked e), h)

    -- ExecuteWithContext behind its client: the operation's output on top of the provider's name;
    -- the name in the error is quoted without the escapes of %q
    unfoldable pub run_handler : Option (Exec Fields) → String → Exec Fields
    run_handler none op = raise (plain ("unsupported operation \"" <> op <> "\""))
    run_handler (some m) op = do got ← m; return (union (field "provider" (string "efi") end) got)

    unfoldable pub execute_operation : (String → String) → ExecuteRequest → Exec Fields
    unfolding run_handler
    execute_operation env req = do
      let operation = normalize_execute_operation req.operation req.capability
      require (not (operation == "")) (plain "operation is required")
      let op = canonical_operation_for operation
      let cfg = config_from_request w env req.credentials req.instance_config
      within "load mTLS" (lift (is_loaded (load_tls_config others.loader cfg)))
      c ← within "authenticate to EFI" (new_efi_client w ctx cfg)
      run_handler (handler cfg c req op) op

    -- ExecuteWithContext
    unfoldable pub execute_with_context : (String → String) → ExecuteRequest → Exec Fields
    execute_with_context env req h = masked_outcome (execute_operation env req h)
