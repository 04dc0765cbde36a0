-- ===== src/Reconcile/Wiring.antt =====
-- WireReconcilers of providers/efi/adapter/reconcile.go, with the emitter of the mutation events, and
-- configureAutomaticWebhookEvents of automatic_webhook_events.go. The SDK keeps what is registered.
pub mod Admitted
use integration_efi.Base.{
  String, Bool, Option, none, some, List, [], ◌∷◌, ◌++◌, Outcome, ok, err, ◌==◌, ◌<>◌, trim_space,
  if◌then◌else◌,
}
use integration_efi.Api.{Error, plain, Context}
use integration_efi.Reconcile.{Resource, charge, due_charge, webhook_subscription}

-- events.Emitter of the SDK
pub data Emitter : Type 0 where
  noop_emitter http_emitter : Emitter
  confidential_safe_emitter : Emitter → Emitter  -- confidentialSafeEmitter

-- newEmitterFromEnv
unfoldable pub new_emitter_from_env : (String → String) → Emitter
new_emitter_from_env env = if env "YGGDRASIL_CORE_URL" == "" then noop_emitter else http_emitter

-- Emit of confidentialSafeEmitter, of what the wrapped emitter gave
unfoldable masked_delivery : Bool → Outcome Error (Unit {0}) → Outcome Error (Unit {0})
masked_delivery confidential (ok u) = ok u
masked_delivery confidential (err e) =
    if confidential then err (plain "efi: confidential mutation event delivery failed") else err e

-- automaticWebhookEventSink, without its log
pub record Sink : Type 0 where
  pub emitter : Emitter
  pub instance_id : String

-- configureAutomaticWebhookEvents; none is a nil emitter
unfoldable configure_automatic_webhook_events : Option Emitter → String → Sink
configure_automatic_webhook_events none instance_id = record {
  emitter = noop_emitter;
  instance_id = trim_space instance_id;
}
configure_automatic_webhook_events (some e) instance_id = record {
  emitter = e;
  instance_id = trim_space instance_id;
}

-- One call of reconcile.RegisterReconciler
pub record Registration : Type 0 where
  pub resource : String
  pub resource_type : String
  pub reconciler : Resource
  pub reconciler_instance : String  -- of newChargeReconciler and the like
  pub provider : String  -- WithProvider
  pub emitter : Emitter  -- WithEmitter
  pub instance_id : String  -- WithInstanceID
  pub legacy_names : List String  -- WithLegacyNames

abbrev registration :
    (String → String) → String → String → String → Resource → List String → Registration
registration env instance_id resource resource_type reconciler legacy_names = record {
  resource = resource;
  resource_type = resource_type;
  reconciler = reconciler;
  reconciler_instance = instance_id;
  provider = "efi";
  emitter = confidential_safe_emitter (new_emitter_from_env env);
  instance_id = instance_id;
  legacy_names = legacy_names;
}

module _ (env : String → String) (instance_id : String) where
  -- WireReconcilers, what it registers
  unfoldable pub wire_reconcilers : List Registration
  wire_reconcilers =
      registration env instance_id "charge" "charges" charge
        ("create_charge" ∷ "get_charge_status" ∷ "get_statement" ∷ [])
      ∷ registration env instance_id "due_charge" "due_charges" due_charge
          ("create_due_charge" ∷ [])
      ∷ registration env instance_id "webhook_subscription" "webhook_subscriptions"
          webhook_subscription ("register_webhook_endpoint" ∷ "unregister_webhook_endpoint" ∷ [])
      ∷ []

  -- WireReconcilers, the sink of the events that the execute path emits
  unfoldable wired_sink : Sink
  wired_sink =
      configure_automatic_webhook_events
        (some (confidential_safe_emitter (new_emitter_from_env env))) instance_id

-- The names under which the SDK dispatches to a registration: its documented naming.
abbrev dispatched_as : Registration → List String
dispatched_as r =
    ("ensure_" <> r.resource) ∷ ("observe_" <> r.resource_type) ∷ ("destroy_" <> r.resource) ∷ []

unfoldable pub dispatched_names : List Registration → List String
dispatched_names [] = []
dispatched_names (r ∷ rs) = dispatched_as r ++ dispatched_names rs

unfoldable pub legacy_names : List Registration → List String
legacy_names [] = []
legacy_names (r ∷ rs) = r.legacy_names ++ legacy_names rs
