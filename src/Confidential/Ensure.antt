-- ===== src/Confidential/Ensure.antt =====
-- ensureConfidential of providers/efi/adapter/confidential.go: a guarded PUT and its confirmation.
use integration_efi.Base.{
  ◌+◌, String, Bool, true, false, ◌&&◌, ◌||◌, not, Option, none, some, List, [], ◌∷◌, Outcome, ok,
  err, ◌==◌, leb, length, pos, if◌then◌else◌,
}
use integration_efi.Value.{
  bool, string, Fields, field, end, put, string_at, value_at, as_bool, or_end,
}
use integration_efi.World.{clock_read}
use integration_efi.Api.{Error, Exec, sentinel, after}
use integration_efi.Api.Errors.{held, expired}
use integration_efi.Api.Confidential.{mutation_succeeded}
use integration_efi.Reconcile.{Dispatch, ensure, webhook_subscription}
use integration_efi.Confidential.Data.{
  ◌>>=◌, ◌>>◌, Bytes, Row, Proof, key_tag_domain, url_tag_domain, algorithm_name,
  max_output_plaintext, demand, or_else,
}
use integration_efi.Confidential.Codec.{decode32, tag, seal_output}
use integration_efi.Confidential.Time.{validate_time}
use integration_efi.Confidential.Prepare.{Call, Setting}
use integration_efi.Confidential.Observe.{execute, list, single}

abbrev pub unless_expired : Outcome Error (Unit {0}) → Bytes → Outcome Error Bytes
unless_expired (ok u) raw = ok raw
unless_expired (err e) raw = err (sentinel expired)

module _ (s : Setting) where
  module _ (call : Call) where
    -- The rows of a list under the key that is to be registered: at most one, and with the URL.
    unfoldable pub rows_agree : String → String → List Row → Bool → Bool
    rows_agree target address [] matched = true
    rows_agree target address (row ∷ rows) matched =
        let rest = rows_agree target address rows in
        if row.key_tag == target
        then not matched && row.url_tag == address && rest true
        else rest matched

    abbrev or_blank : Outcome Error String → String
    or_blank (ok t) = t
    or_blank (err e) = ""

    -- The tag of a text in this call, empty where Tag fails.
    unfoldable pub tag_in_call : String → String → String
    tag_in_call domain value = or_blank (do
      secret ← decode32 s.platform call.request.intent.comparison_secret
      tag s.platform s.world secret domain call.request.intent.binding.invocation_id value)

    abbrev pub key_tag_of_call : String
    key_tag_of_call = tag_in_call key_tag_domain call.request.intent.parameters.key

    abbrev pub url_tag_of_call : String
    url_tag_of_call = tag_in_call url_tag_domain call.request.intent.parameters.canonical_base

    abbrev pub rows_of_proof : Proof → List Row
    rows_of_proof proof = elim proof.rows [ none ↦ [] | some rows ↦ rows ]

    -- What the list must show before a PUT, as the text that is sealed later.
    unfoldable pub guard_text : Fields → Proof → Outcome Error Bytes
    guard_text seen proof = do
      demand (rows_agree key_tag_of_call url_tag_of_call (rows_of_proof proof) false) held
      raw ← or_else (s.json.maps.marshal seen) held
      demand (leb (length raw + 4096) max_output_plaintext) held
      ok raw

    -- The last look at the clock.
    unfoldable pub in_time : Outcome Error Bytes → Exec Bytes
    in_time (err e) h = (err e, h)
    in_time (ok raw) h = (
      unless_expired
          (validate_time s.world s.platform call.request.intent.binding (s.world.now h) false) raw,
      clock_read ∷ h,
    )

    -- The steps of ensureConfidential before its PUT.
    unfoldable pub guarded : Exec Bytes
    guarded h = after (list s call h) (λ seen. in_time (guard_text seen.0 seen.1))

    -- The PUT.
    unfoldable pub register : Exec Fields
    register = execute s call "ensure_webhook_subscription" (
        field "chave" (string call.request.intent.parameters.key) (
          field "webhook_url" (string call.request.intent.parameters.canonical_base)
            (field "skip_mtls_validation" (bool false) end)))

    -- heldEnsure
    unfoldable pub held_ensure : Fields
    held_ensure = or_end (
        s.json.as_map (record {
          id = call.request.intent.binding.audit_resource_id;
          privacy = record { version = pos 1; algorithm = algorithm_name; ciphertext = "" };
          proof = record {
            version = pos 1;
            kind = "ensure";
            outcome = "held";
            provider = "";
            cursor = none;
            parameters = none;
            page_provenance = none;
            rows = none;
            key_tag = "";
            url_tag = "";
            creation_valid = none;
            ensured = some false;
            noop = none;
            endpoint = "";
          };
        }))

    -- A setter's answer that says that it registered this key, under a known endpoint.
    unfoldable pub registered_at : Fields → Option String
    registered_at legacy = elim (string_at legacy "endpoint") [
      | none ↦ none
      | some endpoint ↦
          if (endpoint == "v2" || endpoint == "v3")
            && (elim (as_bool (value_at legacy "ensured")) [ none ↦ false | some b ↦ b ])
            && (elim (string_at legacy "chave") [
              | none ↦ false
              | some k ↦ k == call.request.intent.parameters.key
            ])
          then some endpoint
          else none
    ]

    -- The confirmed result of a PUT, if everything behind the PUT works out.
    unfoldable pub confirmed :
        Bytes → Fields → Outcome Error (Fields × Proof) → Outcome Error Fields
    confirmed guard_raw answer observed = do
      let legacy = put answer "noop" (bool false)
      (seen, p) ← observed
      endpoint ← or_else (registered_at legacy) held
      raw ← or_else (s.json.maps.marshal legacy) held
      confirmation_raw ← or_else (s.json.maps.marshal seen) held
      sealed ←
          seal_output s.world s.platform s.json.plains call.request raw (some guard_raw)
            (some confirmation_raw)
            (record {
              version = pos 1;
              kind = "ensure";
              outcome = "confirmed";
              provider = "";
              cursor = none;
              parameters = none;
              page_provenance = none;
              rows = none;
              key_tag = key_tag_of_call;
              url_tag = "";
              creation_valid = none;
              ensured = some true;
              noop = some false;
              endpoint = endpoint;
            })
            call.seal_seed
      or_else (s.json.as_map sealed) held

    abbrev or_held : Outcome Error Fields → Fields
    or_held (ok m) = m
    or_held (err e) = held_ensure

    -- The steps of ensureConfidential behind the answer to its PUT.
    unfoldable pub concluded : Bytes → Outcome Error Fields → Exec Fields
    concluded guard_raw (err e) h = (if mutation_succeeded e then ok held_ensure else err e, h)
    concluded guard_raw (ok answer) h =
        let (observed, h') = single s call h in
        (ok (or_held (confirmed guard_raw answer observed)), h')

    -- ensureConfidential
    unfoldable pub ensure_confidential : Exec Fields
    ensure_confidential h =
        after (guarded h) (λ guard_raw. λ h1. let (r, h2) = register h1 in concluded guard_raw r h2)

  -- Ensure of webhookSubscriptionReconciler, in a context that holds a call or none
  unfoldable pub ensure_subscription : Dispatch → String → Option Call → Fields → Exec Fields
  ensure_subscription dispatch instance_id none desired =
      ensure dispatch instance_id webhook_subscription desired
  ensure_subscription dispatch instance_id (some call) desired = ensure_confidential call
