-- ===== src/Tests/Hooks.antt =====
-- Examples for the webhook capabilities.
use integration_efi.Api.Http.{decode}
use integration_efi.Api.Confidential.{
  confidential_mutation_allowed, limited, mutation_request_context, read_provider_response,
  safe_confidential_error, success_status,
}
use integration_efi.Base.{
  ℕ, ◌≡◌, ◌⊎◌, ◌↔◌, ◌≤◌, refl, String, true, some, [], ok, pos, trim_space, equal_fold, has_infix,
  has_prefix, has_suffix, last_segment, any_char,
}
use integration_efi.Value.{
  Value, object, string, float64, array, nil, cons, finite, int, Fields, field, end, text_at,
  to_fields, Json, Members, closed, member, get, put, string_at, object_at, is_whole, entries,
  value_at, above,
}
use integration_efi.Api.{background, Ensures, do_inner, do_raw, receive, send}
use integration_efi.Api.Mutations.{MutatesAtMost, mutations}
use integration_efi.Webhooks.Urls.{
  normalize_automatic_webhook_url, normalize_webhook_base_url, observed_url_valid,
}
use integration_efi.Webhooks.Automatic.{
  Registration, read_automatic_webhook, points_at, ensure_automatic_webhook, refuse_inputs,
  automatic_webhook_kind,
}
use integration_efi.Webhooks.Automatic.Ensure.{IsProven, ensure_automatic_webhook-IsProven}
use integration_efi.Webhooks.Automatic.Mutation.{
  put_request, ensure_automatic_webhook-MutatesAtMost, ensure_automatic_webhook-idempotent,
}
use integration_efi.Webhooks.Subscription.{ensure_webhook_subscription, put_webhook}
use integration_efi.Webhooks.Subscription.Laws.{IsV3Last, ensure_webhook_subscription-IsV3Last}
use integration_efi.Webhooks.Pagination.{
  parse_pagination_integer, page_number, webhook_time_range, ordered_range, pagination_input,
  in_bounds,
}
use integration_efi.Webhooks.Pagination.Denoted.{Denotes, IsConverted}
use integration_efi.Webhooks.Pagination.Bounds.{InBounds, parse_pagination_integer-InBounds_iff}
use integration_efi.Webhooks.Provenance.{
  decode_observation, page_evidence, requested_range, requested_page, requested_size,
  webhook_time_equals, read_page_count, webhook_page_integer, canonical_if_uuid, counts_agree,
  created_within, key_valid, row_key, row_passes, rows_evidence, rows_fit, same_range,
}
use integration_efi.Webhooks.Provenance.Page.{Evidence, page_evidence-Evidence}
use integration_efi.Webhooks.Provenance.Unambiguous.{
  levels, Unambiguous, IsObject, decode_observation-eq,
}
use integration_efi.Tests.{good, missing, client, hook, background_quiet}

abbrev pub input : Fields
input =
    field "kind" (string "rec")
      (field "chave_pix" (string "k") (field "webhook_url" (string hook) end))

pub input_fine : refuse_inputs input ≡ ok tt
unfolding refuse_inputs get
input_fine = refl

pub input_kind : automatic_webhook_kind input ≡ ok ("rec", "/v2/webhookrec")
unfolding automatic_webhook_kind string_at trim_space
input_kind = refl

pub input_url :
    normalize_automatic_webhook_url good (text_at input "webhook_url") "webhook_url" ≡ ok hook
unfolding normalize_automatic_webhook_url trim_space text_at has_prefix has_infix has_suffix
    last_segment
input_url = refl

abbrev found : Registration
found = record { registered = true; url = hook; created_at = "" }

input_read :
    read_automatic_webhook good background client "/v2/webhookrec" []
    ≡ (ok found, (read_automatic_webhook good background client "/v2/webhookrec" []).1)
unfolding read_automatic_webhook do_raw safe_confidential_error do_inner
    confidential_mutation_allowed mutation_request_context send receive read_provider_response
    success_status decode limited to_fields trim_space text_at put
input_read = refl

in_place : points_at found hook ≡ true
unfolding points_at
in_place = refl

ensure_automatic_webhook-IsProven_example :
    Ensures (ensure_automatic_webhook good background client input) (λ out end_of_run.
      (kind : String) × (path : String) × (desired : String) × (refuse_inputs input ≡ ok tt)
      × (automatic_webhook_kind input ≡ ok (kind, path))
      × (normalize_automatic_webhook_url good (text_at input "webhook_url") "webhook_url"
          ≡ ok desired)
      × IsProven good background client path desired end_of_run)
ensure_automatic_webhook-IsProven_example =
    ensure_automatic_webhook-IsProven good background client input

ensure_automatic_webhook-MutatesAtMost_example :
    MutatesAtMost
      (put_request good background client (background_quiet good) "/v2/webhookrec" hook)
      (ensure_automatic_webhook good background client input)
ensure_automatic_webhook-MutatesAtMost_example =
    ensure_automatic_webhook-MutatesAtMost good background client (background_quiet good) input
      "rec" "/v2/webhookrec" hook input_fine input_kind input_url

ensure_automatic_webhook-idempotent_example :
    mutations (ensure_automatic_webhook good background client input []).1 ≡ mutations []
ensure_automatic_webhook-idempotent_example =
    ensure_automatic_webhook-idempotent good background client (background_quiet good) input "rec"
      "/v2/webhookrec" hook found []
      (read_automatic_webhook good background client "/v2/webhookrec" []).1 input_fine input_kind
      input_url input_read in_place

abbrev subscription : Fields
subscription = field "chave" (string "k") (field "webhook_url" (string hook) end)

subscription_key : trim_space (text_at subscription "chave") ≡ "k"
unfolding trim_space text_at
subscription_key = refl

subscription_url : normalize_webhook_base_url missing (text_at subscription "webhook_url") ≡ ok hook
unfolding normalize_webhook_base_url trim_space text_at equal_fold has_suffix
subscription_url = refl

ensure_webhook_subscription-IsV3Last_example :
    let chave = trim_space (text_at subscription "chave") in
    IsV3Last missing background client subscription chave hook []
      (ensure_webhook_subscription missing background client subscription []).1
      (put_webhook missing background client subscription "/v2/webhook/" chave hook []).0
ensure_webhook_subscription-IsV3Last_example =
    ensure_webhook_subscription-IsV3Last missing background client (background_quiet missing)
      subscription hook [] (λ e. cc (subscription_key, e)) subscription_url

parse_pagination_integer-InBounds_iff_example :
    (parse_pagination_integer good (string " 7 ") 1 1000 ≡ ok (pos 7)) ↔ (
      (Denotes (string " 7 ") (pos 7) ⊎ IsConverted good (string " 7 ") (pos 7))
      × InBounds 1 1000 (pos 7))
parse_pagination_integer-InBounds_iff_example =
    parse_pagination_integer-InBounds_iff good (string " 7 ") 1 1000 (pos 7)

abbrev page_input : Fields
page_input =
    field "inicio" (string "a") (field "fim" (string "b") (field "page_size" (int (pos 10)) end))

abbrev whole_number : ℕ → Value
whole_number n = float64 (finite (pos n) 0)

-- The only page, with its one row.
abbrev page_response : Fields
page_response =
    field "parametros"
      (object (
        field "inicio" (string "a") (
          field "fim" (string "b") (
            field "paginacao"
              (object (
                field "paginaAtual" (whole_number 0) (
                  field "itensPorPagina" (whole_number 10) (
                    field "quantidadeDePaginas" (whole_number 1)
                      (field "quantidadeTotalDeItens" (whole_number 1) end)))))
              end))))
      (field "webhooks"
        (array (
          cons
            (object (
              field "chave" (string "k")
                (field "webhookUrl" (string hook) (field "criacao" (string "a") end))))
            nil))
        end)

page_is_whole : page_evidence good page_input page_response ≡ some true
unfolding page_evidence parse_pagination_integer page_number string_at trim_space text_at get
    requested_range requested_page requested_size webhook_time_equals read_page_count
    webhook_page_integer canonical_if_uuid counts_agree created_within key_valid row_key row_passes
    rows_evidence rows_fit same_range webhook_time_range ordered_range pagination_input in_bounds
    object_at is_whole entries value_at above any_char has_infix has_prefix observed_url_valid
page_is_whole = refl

page_evidence-Evidence_example : Evidence good page_input page_response true
page_evidence-Evidence_example =
    page_evidence-Evidence good page_input page_response true page_is_whole

-- A document whose member stands for two in a library that folds case.
abbrev twice : Members
twice = member "chave" (Json.string "a") (member "chave" (Json.string "b") closed)

decode_observation-eq_example : (decode_observation good (Json.object twice) ≡ some end) ↔ (
    IsObject (Json.object twice)
    × (levels (Json.object twice) ≤ 33)
    × Unambiguous good (Json.object twice)
    × (to_fields (Json.object twice) ≡ some end))
decode_observation-eq_example = decode_observation-eq good (Json.object twice) end
