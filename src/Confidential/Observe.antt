-- ===== src/Confidential/Observe.antt =====
-- ObserveConfidential of providers/efi/adapter/confidential.go, over ExecuteWithContext.
use integration_efi.Base.{String, none, Outcome, ok, err, ◌==◌, ◌<>◌, if◌then◌else◌}
use integration_efi.Value.{int, string, Fields, field, end}
use integration_efi.Api.{Error, Exec, sentinel, mutation_accepted, after, lift}
use integration_efi.Api.Errors.{held}
use integration_efi.Api.Confidential.{mutation_succeeded}
use integration_efi.Webhooks.Urls.{webhook_observation_output}
use integration_efi.Routing.{ExecuteRequest, execute_with_context}
use integration_efi.Confidential.Data.{◌>>=◌, Proof, Output, or_else}
use integration_efi.Confidential.Codec.{seal_output, fingerprint}
use integration_efi.Confidential.Calls.{list_proof, single_proof}
use integration_efi.Confidential.Prepare.{Call, Setting, context_of}

abbrev held_error : Error
held_error = sentinel held

abbrev pub with_proof : (Fields → Outcome Error Proof) → Fields → Outcome Error (Fields × Proof)
with_proof prove out = do proof ← prove out; ok (out, proof)

module _ (s : Setting) where
  module _ (call : Call) where
    -- SDKIdempotency
    unfoldable pub sdk_idempotency : String
    sdk_idempotency =
        "efi-confidential-v1:"
        <> fingerprint s.platform
            (s.platform.utf8 ("efi.webhook.idempotency.v1\0" <> call.request.intent_sha256))

    abbrev pub request_for : String → Fields → ExecuteRequest
    request_for operation input = record call.envelope {
      operation = operation;
      capability = operation;
      input = input;
    }

    -- The errors of a call: the accepted one, or held.
    unfoldable pub settled : String → Outcome Error Fields → Outcome Error Fields
    settled operation (err e) =
        err (if mutation_succeeded e then sentinel mutation_accepted else held_error)
    settled operation (ok out) = ok (
        if operation == "observe_webhook_subscriptions"
        then webhook_observation_output out
        else out)

    -- execute
    unfoldable pub execute : String → Fields → Exec Fields
    execute operation input h =
        let (r, h') =
          execute_with_context s.world s.fallback_instance s.others (context_of s call.request)
            s.env (request_for operation input) h in
        (settled operation r, h')

    -- list
    unfoldable pub list : Exec (Fields × Proof)
    list h =
        let q = call.request.intent.parameters in
        after
          (execute "observe_webhook_subscriptions"
            (field "inicio" (string q.start) (
              field "fim" (string q.stop)
                (field "page" (int q.page) (field "page_size" (int q.page_size) end))))
            h)
          (λ out. lift (
            with_proof (list_proof s.world s.platform call.request s.json.maps s.json.read_page)
              out))

    -- single
    unfoldable pub single : Exec (Fields × Proof)
    single h =
        after
          (execute "observe_webhook_subscriptions"
            (field "chave" (string call.request.intent.parameters.key) end) h)
          (λ out. lift (
            with_proof (single_proof s.world s.platform call.request s.json.maps s.json.read_page)
              out))

    -- What ObserveConfidential seals.
    unfoldable pub sealed_observation : Fields × Proof → Outcome Error Output
    sealed_observation (out, proof) = do
      raw ← or_else (s.json.maps.marshal out) held
      seal_output s.world s.platform s.json.plains call.request raw none none proof call.seal_seed

    -- ObserveConfidential
    unfoldable pub observe_confidential : Exec Output
    unfolding sealed_observation
    observe_confidential h =
        after ((if call.request.intent.binding.purpose == "list" then list else single) h)
          (λ seen. lift (sealed_observation seen))
