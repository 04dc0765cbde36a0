-- ===== src/Tests/Calls.antt =====
-- Examples for the confidential calls: a provider that answers everything with 200, and a reader of
-- pages that finds one record of another key.
use integration_efi.Mtls.{load_tls_config, source_of}
use integration_efi.Api.Boundary.{requests}
use integration_efi.Api.Mutations.{not_gets}
use integration_efi.Webhooks.Subscription.{ensure_webhook_subscription, or_v3}
use integration_efi.Confidential.Time.{canonical_time, check_window, validate_time, remaining_time}
use integration_efi.Webhooks.Provenance.{decode_observation}
use integration_efi.Api.Http.{decode}
use integration_efi.Webhooks.Pagination.{
  in_bounds, ordered_range, page_number, pagination_input, parse_pagination_integer,
  webhook_time_range,
}
use integration_efi.Webhooks.Observe.{
  list_query, observe_webhook_subscriptions, address_fine, lookup_key,
}
use integration_efi.Api.Confidential.{
  read_provider_response, safe_confidential_error, success_status, too_large,
  confidential_mutation_allowed, mutation_request_context,
}
use integration_efi.Session.{new_efi_client, oauth_request, config_from_request, load}
use integration_efi.Routing.{
  canonical_operation_for, execute_operation, execute_with_context, handler, legacy_operation,
  normalize_execute_operation,
}
use integration_efi.Confidential.Codec.{canonical_uuid, decode32, tag}
use integration_efi.Webhooks.Urls.{observed_url_valid, normalize_webhook_base_url}
use integration_efi.Confidential.Strict.{canonical_json}
use mathlib.Core.Bool.{true≢false}
use integration_efi.Base.{
  ◌≡◌, ◌≢◌, refl, sym, ap, ◌∙◌, Bool, true, false, some, List, [], ◌∷◌, ok, pos, any_char,
  has_infix, trim_space, equal_fold, has_suffix,
}
use integration_efi.Value.{Fields, field, end, string, string_at, get, text_at, to_fields, put}
use integration_efi.World.{World}
use integration_efi.Api.{do_inner, do_raw, receive, send, do_request}
use integration_efi.Confidential.Data.{SealedRequest, Proof}
use integration_efi.Confidential.Calls.{
  Page, list_proof, checked_row, checked_rows, page_fits, row_of, valid_private_key,
}
use integration_efi.Confidential.Calls.Distinct.{IsWhole, list_proof-IsWhole}
use integration_efi.Confidential.Prepare.{Setting, Call, Json, context_of}
use integration_efi.Confidential.Observe.{list, execute, settled, single}
use integration_efi.Confidential.Ensure.{
  guarded, register, ensure_confidential, guard_text, in_time, rows_agree, tag_in_call, concluded,
}
use integration_efi.Confidential.Held.{
  ensure_confidential-is_taken, ensure_confidential-HasPrivate, HasPrivate, is_taken,
}
use integration_efi.Confidential.Guarded.{puts, only_puts}
use integration_efi.Confidential.Guarded.Put.{IsCleared, ensure_confidential-IsCleared}
use integration_efi.Tests.{good, hook, library_with, registered}
use integration_efi.Tests.Routes.{no_others, request}
use integration_efi.Tests.Toy.{toy, sealed_request, constant_wire, envelope, binding}
use integration_efi.Tests.Seals.{plain}

abbrev wide : World
wide = record good { library = record (library_with registered) { parse_uuid = λ s. some s } }

abbrev registering : SealedRequest
registering = record sealed_request {
  intent = record (sealed_request.intent) {
    binding = record binding { invocation_id = "i" };
    parameters = record (sealed_request.intent.parameters) {
      key = "k";
      canonical_base = hook;
      start = "a";
      stop = "abc";
    };
  };
}

abbrev record_of_list : Fields
record_of_list =
    field "chave" (string "o")
      (field "webhookUrl" (string hook) (field "criacao" (string "ab") end))

abbrev page : Page
page = record {
  provider = "efi";
  cursor = some "";
  parameters = some (record {
    start = "a";
    stop = "abc";
    pagination = record { page = pos 0; page_size = pos 1; pages = pos 1; total = pos 1 };
  });
  provenance = some (record { version = pos 1; validated = true; complete = true });
  webhooks = record_of_list ∷ [];
  items = record_of_list ∷ [];
}

abbrev json : Json
json = record {
  intents = constant_wire registering.intent;
  requests = constant_wire registering;
  plains = constant_wire plain;
  inputs = constant_wire envelope;
  maps = constant_wire end;
  read_page = λ raw. some page;
  as_map = λ out. some (field "id" (string out.id) end);
}

abbrev pub setting : Setting
setting = record {
  world = wide;
  platform = toy;
  json = json;
  fallback_instance = "main";
  others = no_others;
  env = λ name. "https://api.example";
}

abbrev call : Call
call = record { request = registering; envelope = request; seal_seed = [] }

proved_page :
    (proof : Proof) × (list_proof wide toy registering (constant_wire end) (λ raw. some page) end
      ≡ ok proof)
unfolding list_proof page_fits checked_rows checked_row string_at canonical_json row_of
    valid_private_key trim_space any_char observed_url_valid has_infix decode32 tag canonical_uuid
proved_page = (_, refl)

list_proof-IsWhole_example :
    IsWhole wide toy registering (constant_wire end) (λ raw. some page) end proved_page.0
list_proof-IsWhole_example =
    list_proof-IsWhole wide toy registering (constant_wire end) (λ raw. some page) end proved_page.0
      proved_page.1

ensure_confidential-HasPrivate_example : HasPrivate (ensure_confidential setting call []).0
ensure_confidential-HasPrivate_example = ensure_confidential-HasPrivate setting call []

cleared : guarded setting call [] ≡ (ok (1 ∷ []), (guarded setting call []).1)
unfolding guarded list execute settled execute_with_context execute_operation
    normalize_execute_operation trim_space new_efi_client safe_confidential_error
    read_provider_response context_of too_large success_status handler canonical_operation_for
    legacy_operation observe_webhook_subscriptions get list_query webhook_time_range string_at
    text_at ordered_range pagination_input parse_pagination_integer page_number in_bounds do_raw
    do_inner confidential_mutation_allowed mutation_request_context send receive decode
    decode_observation to_fields list_proof page_fits checked_rows checked_row canonical_json row_of
    valid_private_key any_char observed_url_valid has_infix decode32 tag canonical_uuid in_time
    guard_text rows_agree tag_in_call validate_time canonical_time check_window load_tls_config
    config_from_request load source_of
cleared = refl

taken : is_taken (register setting call (guarded setting call []).1).0 ≡ true
unfolding register execute settled execute_with_context execute_operation
    normalize_execute_operation trim_space new_efi_client safe_confidential_error
    read_provider_response context_of too_large success_status handler canonical_operation_for
    legacy_operation ensure_webhook_subscription text_at normalize_webhook_base_url equal_fold
    has_suffix or_v3 do_request do_inner confidential_mutation_allowed validate_time canonical_time
    check_window mutation_request_context remaining_time send receive decode load_tls_config
    config_from_request load source_of
taken = refl

ensure_confidential-is_taken_example :
    (m : Fields) × ((ensure_confidential setting call []).0 ≡ ok m)
ensure_confidential-is_taken_example =
    ensure_confidential-is_taken setting call [] (guarded setting call []).1 (1 ∷ []) cleared taken

abbrev is_empty : {A : Type 0} → List A → Bool
is_empty [] = true
is_empty (x ∷ xs) = false

sends_put : is_empty (puts (ensure_confidential setting call []).1) ≡ false
unfolding only_puts not_gets requests ensure_confidential guarded list execute settled
    execute_with_context execute_operation normalize_execute_operation trim_space new_efi_client
    safe_confidential_error read_provider_response context_of too_large success_status handler
    canonical_operation_for legacy_operation observe_webhook_subscriptions get list_query
    webhook_time_range string_at text_at ordered_range pagination_input parse_pagination_integer
    page_number in_bounds do_raw do_inner confidential_mutation_allowed mutation_request_context
    send receive decode decode_observation to_fields list_proof page_fits checked_rows checked_row
    canonical_json row_of valid_private_key any_char observed_url_valid has_infix decode32 tag
    canonical_uuid in_time guard_text rows_agree tag_in_call validate_time canonical_time
    check_window concluded register ensure_webhook_subscription normalize_webhook_base_url
    equal_fold has_suffix or_v3 remaining_time single lookup_key address_fine put oauth_request
    load_tls_config config_from_request load source_of
sends_put = refl

puts_moved : puts (ensure_confidential setting call []).1 ≢ puts []
unfolding only_puts not_gets requests
puts_moved same = true≢false (sym (ap is_empty same) ∙ sends_put)

ensure_confidential-IsCleared_example : IsCleared setting call []
ensure_confidential-IsCleared_example = ensure_confidential-IsCleared setting call [] puts_moved
