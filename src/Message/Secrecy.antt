-- ===== src/Message/Secrecy.antt =====
-- What the handler says of a sealed request.
use integration_efi.Base.{
  ◌≡◌, ◌⊎◌, inl, inr, refl, sym, ap, ◌∙◌, String, Bool, true, false, Option, some, Outcome, ok, err,
  ◌==◌, not, if◌then◌else◌,
}
use integration_efi.Value.{string, field, end}
use integration_efi.World.{History}
use integration_efi.Api.{Error, sentinel}
use integration_efi.Api.Errors.{invalid, held}
use integration_efi.Routing.{
  ExecuteRequest, normalize_execute_operation, supports_execute_capability,
}
use integration_efi.Confidential.Data.{Bytes}
use integration_efi.Confidential.Codec.{Receiver}
use integration_efi.Confidential.Prepare.{Setting, Call, prepare_confidential}
use integration_efi.Confidential.Observe.{sdk_idempotency}
use integration_efi.Message.{
  Sdk, Answer, Response, success, failure, confidential_envelope, valid_confidential_envelope,
  normalize_execute_capability, build_sdk_delivery, bridge, bridged, handle_read, handle_call,
  handle_request, handle_named, execute_handler, answer, as_held,
}

-- The error of buildSDKDelivery for a request that was read from a sealed delivery, with the idempotency key
-- of its call.
pub record IsUnbuilt (s : Setting) (sdk : Sdk) (raw : Bytes) (receiver : Option Receiver)
    (seed : History → Option Bytes) (start : History) (e : Error) : Type 0 where
  pub request : ExecuteRequest
  pub read : sdk.read_request raw ≡ ok request
  pub call : Call
  pub prepared : (prepare_confidential s request receiver (seed start) start).0 ≡ ok call
  pub unbuilt :
      build_sdk_delivery s sdk
        (record request { metadata = field "idempotency" (string (sdk_idempotency s call)) end })
      ≡ err e

-- An answer that gives no reason but the two fixed ones, each under its codes, and the one of
-- buildSDKDelivery.
abbrev pub IsSilent :
    Setting → Sdk → Bytes → Option Receiver → (History → Option Bytes) → History → Answer → Type 0
IsSilent s sdk raw receiver seed start (success r) = Unit
IsSilent s sdk raw receiver seed start (failure code e) =
    ((e ≡ sentinel invalid) × ((code ≡ "bad_request") ⊎ (code ≡ "unsupported_capability")))
    ⊎ ((e ≡ sentinel held) × (code ≡ "execute_failed"))
    ⊎ ((code ≡ "bad_request") × IsUnbuilt s sdk raw receiver seed start e)

module _ (s : Setting) (sdk : Sdk) (raw : Bytes) (receiver : Option Receiver)
    (seed : History → Option Bytes) (start : History) where
  if-IsSilent :
      (b : Bool) (x y : Answer × History)
      → IsSilent s sdk raw receiver seed start x.0
      → IsSilent s sdk raw receiver seed start y.0
      → IsSilent s sdk raw receiver seed start (if b then x else y).0
  if-IsSilent true x y kx ky = kx
  if-IsSilent false x y kx ky = ky

  held_answer :
      {A : Type 0} (good : A → Response) (r : Outcome Error A)
      → IsSilent s sdk raw receiver seed start (answer (λ a. success (good a)) as_held r)
  held_answer good (ok a) = tt
  held_answer good (err e) = inr (inl (refl, refl))

  bridged-IsSilent :
      (call : Call) (req request : ExecuteRequest) (r : Outcome Error Bytes) (h : History)
      → sdk.read_request raw ≡ ok request
      → req
        ≡ record request { metadata = field "idempotency" (string (sdk_idempotency s call)) end }
      → (prepare_confidential s request receiver (seed start) start).0 ≡ ok call
      → build_sdk_delivery s sdk req ≡ r
      → IsSilent s sdk raw receiver seed start (bridged s sdk (some call) req r h).0
  unfolding bridged
  bridged-IsSilent call req request (ok body) h read same prepared built = held_answer _ _
  bridged-IsSilent call req request (err e) h read same prepared built = inr (
      inr (
        refl,
        record {
          request = request;
          read = read;
          call = call;
          prepared = prepared;
          unbuilt = ap (build_sdk_delivery s sdk) (sym same) ∙ built;
        },
      ))

  handle_call-IsSilent :
      (operation : String) (req : ExecuteRequest) (x : Outcome Error Call × History)
      → sdk.read_request raw ≡ ok req
      → prepare_confidential s req receiver (seed start) start ≡ x
      → IsSilent s sdk raw receiver seed start (handle_call s sdk operation req x).0
  unfolding handle_call bridge
  handle_call-IsSilent operation req (err e, h) read prepared = inr (inl (refl, refl))
  handle_call-IsSilent operation req (ok call, h) read prepared =
      if-IsSilent (operation == "observe_webhook_subscriptions") _ _ (held_answer _ _)
        (bridged-IsSilent call _ req _ h read refl (ap (λ x. x.0) prepared) refl)

  handle_read-IsSilent :
      (operation : String) (r : Outcome Error ExecuteRequest)
      → sdk.read_request raw ≡ r
      → IsSilent s sdk raw receiver seed start
          (handle_read s sdk receiver seed true operation r start).0
  unfolding handle_read handle_request
  handle_read-IsSilent operation (err e) read = inl (refl, inl refl)
  handle_read-IsSilent operation (ok req) read = handle_call-IsSilent operation req _ read refl

  handle_named-IsSilent :
      (names : Outcome Error (String × String))
      → IsSilent s sdk raw receiver seed start
          (handle_named s sdk receiver seed true raw names start).0
  unfolding handle_named
  handle_named-IsSilent (err e) = inl (refl, inl refl)
  handle_named-IsSilent (ok (operation, capability)) =
      let op = normalize_execute_operation operation capability in
      if-IsSilent (not (supports_execute_capability (normalize_execute_capability capability op)))
        (failure "unsupported_capability" (sentinel invalid), start)
        (handle_read s sdk receiver seed true op (sdk.read_request raw) start)
        (inl (refl, inr refl)) (handle_read-IsSilent op (sdk.read_request raw) refl)

  -- Whatever a sealed request comes to, its answer is a success, or gives one of two fixed reasons under
  -- its codes, or a bad request whose reason is the error with which the delivery for the SDK could not
  -- be built from the request that was read. No other text of the request, none of the provider and
  -- none of the dispatch is in a failure. A request that only hides its marker behind a later duplicate
  -- counts as sealed.
  pub execute_handler-IsSilent :
      confidential_envelope s sdk raw ≡ true
      → IsSilent s sdk raw receiver seed start (execute_handler s sdk receiver seed raw start).0
  unfolding execute_handler
  execute_handler-IsSilent sealed = rw sealed (
      if-IsSilent (not (valid_confidential_envelope s sdk raw)) _ _ (inl (refl, inl refl))
        (handle_named-IsSilent (sdk.read_names raw)))
