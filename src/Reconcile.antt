-- ===== src/Reconcile.antt =====
-- providers/efi/adapter/reconcile.go: the reconcilers of the three managed resources, on top of the
-- dispatch of an operation. A nil payload reads as an empty one and is treated like one.
pub mod Destroy
pub mod Wiring
use integration_efi.Base.{
  ℕ, String, Bool, true, false, ◌&&◌, not, Option, none, some, List, [], ◌∷◌, Outcome, ok, err,
  ◌==◌, if◌then◌else◌, is_some,
}
use integration_efi.Value.{
  Value, string, array, object, objects, Fields, field, end, get, put, without, has, value_at,
  string_at, text_at, as_object, object_at, members_of, rows_of,
}
use integration_efi.World.{History}
use integration_efi.Api.{Error, Exec, ◌>>=◌, ◌>>◌, after, return, lift}

-- extractItemsByKey
unfoldable pub items_in : Value → List Fields
items_in (objects ms) = rows_of ms
items_in (array vs) = members_of vs
items_in _ = []

unfoldable pub extract_items_by_key : Fields → String → List Fields
unfolding items_in
extract_items_by_key resp k = items_in (value_at resp k)

-- The first of two lists that is not empty.
abbrev or_items : List Fields → List Fields → List Fields
or_items [] rest = rest
or_items (m ∷ ms) rest = m ∷ ms

-- extractObserveCharges
unfoldable pub extract_observe_charges : Fields → List Fields
extract_observe_charges resp = or_items (extract_items_by_key resp "cobs") (
    or_items (extract_items_by_key resp "items")
      (if is_some (string_at resp "txid") then resp ∷ [] else []))

-- extractWebhookSubscriptions
unfoldable pub extract_webhook_subscriptions : Fields → List Fields
extract_webhook_subscriptions resp = or_items (extract_items_by_key resp "webhooks") (
    or_items (extract_items_by_key resp "items") (
      if is_some (string_at resp "chave")
      then resp ∷ []
      else if is_some (string_at resp "webhookUrl")
      then resp ∷ []
      else []))

-- instanceFromDesired
unfoldable pub instance_from_desired : Fields → String → String
instance_from_desired desired fallback =
    let name = text_at desired "instance_id" in if name == "" then fallback else name

-- The input of a destroy: the reference, unless the payload has one.
unfoldable pub with_reference : Fields → String → String → Fields
with_reference desired k ref = if has desired k then desired else put desired k (string ref)

-- dispatchFn
abbrev pub Dispatch : Type 0
Dispatch = String → String → Fields → Exec Fields

-- What tells the three reconcilers apart: chargeReconciler, dueChargeReconciler and
-- webhookSubscriptionReconciler, the last outside a confidential call.
pub data Resource : Type 0 where
  charge due_charge webhook_subscription : Resource

abbrev ensure_operation : Resource → String
ensure_operation charge = "ensure_charge"
ensure_operation due_charge = "ensure_due_charge"
ensure_operation webhook_subscription = "ensure_webhook_subscription"

abbrev observe_operation : Resource → String
observe_operation charge = "observe_charges"
observe_operation due_charge = "observe_charges"
observe_operation webhook_subscription = "observe_webhook_subscriptions"

abbrev pub destroy_operation : Resource → String
destroy_operation charge = "destroy_charge"
destroy_operation due_charge = "destroy_charge"
destroy_operation webhook_subscription = "destroy_webhook_subscription"

abbrev pub reference_key : Resource → String
reference_key charge = "txid"
reference_key due_charge = "txid"
reference_key webhook_subscription = "chave"

abbrev items_of : Resource → Fields → List Fields
items_of charge out = extract_observe_charges out
items_of due_charge out = extract_observe_charges out
items_of webhook_subscription out = extract_webhook_subscriptions out

module _ (dispatch : Dispatch) (instance_id : String) where
  -- Ensure
  unfoldable pub ensure : Resource → Fields → Exec Fields
  ensure r desired = dispatch (ensure_operation r) instance_id desired

  -- Observe: the items and the cursor
  unfoldable pub observe : Resource → Fields → Exec (List Fields × String)
  observe r filter = do
    out ← dispatch (observe_operation r) instance_id filter
    return (items_of r out, text_at out "cursor")

  -- Destroy
  unfoldable pub destroy : Resource → String → Exec (Unit {0})
  destroy r ref = do
    dispatch (destroy_operation r) instance_id (field (reference_key r) (string ref) end)
    return tt

  -- DestroyWithDesired
  unfoldable pub destroy_with_desired : Resource → String → Fields → Exec (Unit {0})
  unfolding with_reference
  destroy_with_desired r ref desired = do
    let input = with_reference desired (reference_key r) ref
    dispatch (destroy_operation r) (instance_from_desired input instance_id) input
    return tt

-- The input without the metadata of the bridge.
unfoldable pub clean_input : Fields → Fields
clean_input input = without (without input "_integration") "instance_id"

-- The output of Execute as a payload.
unfoldable pub as_payload : Value → Fields
as_payload (object m) = m
as_payload v = field "output" v end

-- The context of an integration: contract.AdapterExecuteIntegrationContext, as encoding/json reads it
-- back from a map, and the two that hold only a name or nothing.
pub record Contexts (I : Type 0) : Type 0 where
  pub from_map : Fields → Option I
  pub named : String → I
  pub unnamed : I

module _ {I : Type 0} (contexts : Contexts I) where
  fallback_context : String → I
  fallback_context fallback = if fallback == "" then contexts.unnamed else contexts.named fallback

  instance_context : Fields → String → I
  unfolding fallback_context
  instance_context input fallback =
      let name = text_at input "instance_id" in
      if name == "" then fallback_context fallback else contexts.named name

  -- integrationFromPayload
  unfoldable pub integration_from_payload : Fields → String → I
  unfolding instance_context
  integration_from_payload input fallback = elim (object_at input "_integration") [
    | none ↦ instance_context input fallback
    | some raw ↦ elim (contexts.from_map raw) [
      | none ↦ instance_context input fallback
      | some context ↦ context
    ]
  ]

  -- defaultDispatch, over adapter.Execute
  unfoldable pub default_dispatch : (String → Fields → I → Exec Value) → Dispatch
  unfolding clean_input as_payload
  default_dispatch execute op instance_id input = do
    output ← execute op (clean_input input) (integration_from_payload input instance_id)
    return (as_payload output)
