-- ===== src/Message.antt =====
-- providers/efi/message/execute.go: the handler of a delivery, which tells sealed requests from plain
-- ones and passes both to the SDK's reconcile dispatch or to the execute path.
pub mod Secrecy
use integration_efi.Base.{
  ℕ, String, Bool, true, false, ◌&&◌, ◌||◌, not, Option, none, some, List, [], ◌∷◌, Outcome, ok,
  err, ◌==◌, ◌<>◌, any, all, equal_fold, without_char, has_infix, trim_space, if◌then◌else◌,
}
use integration_efi.Value.{
  Value, string, object, Fields, field, end, put, without, text_at, string_at, object_at, Json,
  Members, closed, member,
}
use integration_efi.World.{World, History}
use integration_efi.Api.{Error, plain, wrap, sentinel, Exec, Context, background}
use integration_efi.Api.Errors.{invalid, held}
use integration_efi.Webhooks.Urls.{webhook_observation_output}
use integration_efi.Routing.{
  ExecuteRequest, canonical_operation_for, execute_with_context, normalize_execute_operation,
  supports_execute_capability,
}
use integration_efi.Confidential.Data.{Bytes, Wire, Output}
use integration_efi.Confidential.Strict.{decode_strict}
use integration_efi.Confidential.Codec.{Receiver}
use integration_efi.Confidential.Prepare.{Setting, Call, prepare_confidential, context_of}
use integration_efi.Confidential.Observe.{observe_confidential, sdk_idempotency}

-- What encoding/json and the SDK do for the handler.
pub record Sdk : Type 0 where
  -- the members of the top-level object that the token decoder reads before the end or its first error
  pub top_members : Bytes → List (String × Json)
  pub values : Wire Value
  pub read_names : Bytes → Outcome Error (String × String)  -- operation and capability
  pub read_request : Bytes → Outcome Error ExecuteRequest
  pub integration_map : ExecuteRequest → Outcome Error Fields  -- Integration, through json, as a map
  pub marshal_delivery : Fields → Outcome Error Bytes
  pub dispatch : Context → Option Call → Bytes → Exec Bytes  -- reconcile.Dispatch, with the context's call
  pub read_output : Bytes → Value  -- a map, or the raw text in one
  pub output_value : Output → Value
  pub error_text : Error → String  -- Error()

-- The adapter's response, and what the handler makes of it or of an error.
pub record Response : Type 0 where
  pub operation : String
  pub capability : String
  pub output : Value
  pub via : String  -- Metadata["via"], "" for none

pub data Answer : Type 0 where
  success : Response → Answer
  failure : String → Error → Answer

abbrev pub is_marker : String → Bool
is_marker name = equal_fold (without_char b'_' name) "confidentialinput"

abbrev any_member : (String → Bool) → Members → Bool
any_member p closed = false
any_member p (member k j ms) = p k || any_member p ms

-- A map with a marker among its names.
abbrev holds_marker : Json → Bool
holds_marker (Json.object ms) = any_member is_marker ms
holds_marker _ = false

abbrev pub any_key : (String → Bool) → Fields → Bool
any_key p end = false
any_key p (field k v m) = p k || any_key p m

abbrev is_known_key : String → Bool
is_known_key k =
    any (λ s. s == k)
      ("operation" ∷ "capability" ∷ "input" ∷ "integration" ∷ "metadata" ∷ "auth" ∷ [])

abbrev is_there : {A : Type 0} → Option A → Bool
is_there none = false
is_there (some a) = true

-- NormalizeExecuteCapability
unfoldable pub normalize_execute_capability : String → String → String
normalize_execute_capability capability operation =
    let c = trim_space capability in if c == "" then normalize_execute_operation operation c else c

abbrev pub answer : {A : Type 0} → (A → Answer) → (Error → Error) → Outcome Error A → Answer
answer good hide (ok a) = good a
answer good hide (err e) = failure "execute_failed" (hide e)

abbrev pub as_held : Error → Error
as_held e = sentinel held

abbrev pub as_is : Error → Error
as_is e = e

-- The error of a request that is not read, unless the request is sealed.
abbrev pub hidden : Bool → Error → Error
hidden sealed e = if sealed then sentinel invalid else e

module _ (s : Setting) (sdk : Sdk) where
  -- confidentialEnvelope
  unfoldable pub confidential_envelope : Bytes → Bool
  confidential_envelope raw =
      any (λ (m : String × Json). equal_fold m.0 "input" && holds_marker m.1) (sdk.top_members raw)

  abbrev valid_outer : Value → Bool
  valid_outer (object m) =
      not (any_key (λ k. not (is_known_key k)) m)
      && is_there (string_at m "operation")
      && is_there (object_at m "input")
  valid_outer _ = false

  -- validConfidentialEnvelope
  unfoldable pub valid_confidential_envelope : Bytes → Bool
  valid_confidential_envelope raw = elim (decode_strict s.world s.platform sdk.values raw) [
    | ok v ↦ valid_outer v
    | err e ↦ false
  ]

  -- isUnsupportedReconcileOp, on an error that is there
  unfoldable pub is_unsupported_reconcile_op : Error → Bool
  is_unsupported_reconcile_op e =
      has_infix (sdk.error_text e) "reconcile: unsupported operation"
      || has_infix (sdk.error_text e) "reconcile: adapter has no registered Reconciler"

  -- The input of the SDK's delivery, behind the integration's map.
  abbrev pub sdk_input : ExecuteRequest → Fields → Fields
  sdk_input req integration =
      let copied = without (without req.input "instance_id") "_integration" in
      let name = trim_space req.instance_name in
      let named = if name == "" then copied else put copied "instance_id" (string name) in
      put named "_integration" (object integration)

  abbrev to_delivery : ExecuteRequest → Outcome Error Fields → Outcome Error Bytes
  to_delivery req (err e) = err e
  to_delivery req (ok integration) = sdk.marshal_delivery (
      field "operation" (string req.operation) (
        field "capability" (string req.capability) (
          field "instance_id" (string (trim_space req.instance_name)) (
            field "idempotency" (string (text_at req.metadata "idempotency"))
              (field "input" (object (sdk_input req integration)) end)))))

  -- buildSDKDelivery; the errors of the parameter are wrapped as the source does
  unfoldable pub build_sdk_delivery : ExecuteRequest → Outcome Error Bytes
  build_sdk_delivery req = to_delivery req (sdk.integration_map req)

  -- adapter.Execute
  abbrev legacy : ExecuteRequest → Exec Fields
  legacy req = execute_with_context s.world s.fallback_instance s.others background s.env req

  abbrev respond : ExecuteRequest → String → Value → Answer
  respond req via output = success (record {
    operation = req.operation;
    capability = req.capability;
    output = output;
    via = via;
  })

  -- The response of Execute itself.
  abbrev legacy_response : ExecuteRequest → Fields → Answer
  legacy_response req out =
      let op = canonical_operation_for (normalize_execute_operation req.operation req.capability) in
      success (record { operation = op; capability = op; output = object out; via = "" })

  -- What follows the dispatch of a request that is not sealed: its output, or the execute path for an
  -- operation that no reconciler has.
  unfoldable pub after_dispatch : ExecuteRequest → Outcome Error Bytes → History → Answer × History
  after_dispatch req (ok body) h = (respond req "reconcile" (sdk.read_output body), h)
  after_dispatch req (err e) h =
      if is_unsupported_reconcile_op e
      then (let (r, h') = legacy req h in (answer (λ out. legacy_response req out) as_is r, h'))
      else (failure "execute_failed" e, h)

  -- The bridge to the SDK, on the delivery that was built, with the call of a sealed request.
  unfoldable pub bridged :
      Option Call → ExecuteRequest → Outcome Error Bytes → History → Answer × History
  bridged call req (err e) h = (failure "bad_request" e, h)
  bridged none req (ok body) h =
      let (r, h') = sdk.dispatch background none body h in after_dispatch req r h'
  bridged (some c) req (ok body) h =
      let (r, h') = sdk.dispatch (context_of s c.request) (some c) body h in
      (answer (λ out. respond req "reconcile" (sdk.read_output out)) as_held r, h')

  unfoldable pub bridge : Option Call → ExecuteRequest → History → Answer × History
  bridge call req h = bridged call req (build_sdk_delivery req) h

  -- A sealed request that was prepared.
  unfoldable pub handle_call :
      String → ExecuteRequest → Outcome Error Call × History → Answer × History
  handle_call operation req (err e, h) = (failure "execute_failed" (sentinel held), h)
  handle_call operation req (ok call, h) =
      if operation == "observe_webhook_subscriptions"
      then (let (r, h') = observe_confidential s call h in
          (answer (λ out. respond req "observe" (sdk.output_value out)) as_held r, h'))
      else bridge (some call)
          (record req { metadata = field "idempotency" (string (sdk_idempotency s call)) end }) h

  -- A plain request.
  unfoldable pub handle_plain : String → ExecuteRequest → History → Answer × History
  handle_plain operation req h =
      if operation == "observe_webhook_subscriptions"
      then (let (r, h') = legacy req h in
          (
            answer (λ out. respond req "observe" (object (webhook_observation_output out))) as_is r,
            h',
          ))
      else bridge none req h

  module _ (receiver : Option Receiver) (seed : History → Option Bytes) where
    -- A request that was read; `sealed` is what its envelope showed.
    unfoldable pub handle_request : Bool → String → ExecuteRequest → History → Answer × History
    handle_request sealed operation req h =
        if sealed || any_key is_marker req.input
        then handle_call operation req (prepare_confidential s req receiver (seed h) h)
        else handle_plain operation req h

    unfoldable pub handle_read :
        Bool → String → Outcome Error ExecuteRequest → History → Answer × History
    handle_read sealed operation (err e) h = (failure "bad_request" (hidden sealed e), h)
    handle_read sealed operation (ok req) h = handle_request sealed operation req h

    -- A request whose names were read.
    unfoldable pub handle_named :
        Bool → Bytes → Outcome Error (String × String) → History → Answer × History
    handle_named sealed raw (err e) h = (failure "bad_request" (hidden sealed e), h)
    handle_named sealed raw (ok (named_operation, named_capability)) h =
        let operation = normalize_execute_operation named_operation named_capability in
        let capability = normalize_execute_capability named_capability operation in
        if not (supports_execute_capability capability)
        then (
          failure "unsupported_capability"
              (hidden sealed (plain ("unsupported capability \"" <> named_capability <> "\""))),
          h,
        )
        else handle_read sealed operation (sdk.read_request raw) h

    -- ExecuteHandler, on the bytes of a delivery; the name in the unsupported capability is quoted
    -- without the escapes of %q
    unfoldable pub execute_handler : Bytes → History → Answer × History
    execute_handler raw h =
        let sealed = confidential_envelope raw in
        if sealed && not (valid_confidential_envelope raw)
        then (failure "bad_request" (sentinel invalid), h)
        else handle_named sealed raw (sdk.read_names raw) h
