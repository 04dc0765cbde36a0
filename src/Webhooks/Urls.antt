-- ===== src/Webhooks/Urls.antt =====
-- providers/efi/adapter/capabilities/webhook_url.go, the URL checks of webhook_page_provenance.go and
-- automatic_webhook.go, and webhook_observation_output.go.
use integration_efi.Base.{
  String, Bool, false, ◌&&◌, ◌||◌, not, Option, none, some, [], ◌∷◌, Outcome, ok, err, ◌==◌, ◌<>◌,
  if◌then◌else◌, trim_space, trim_right, has_prefix, has_suffix, has_infix, any_char, is_control,
  last_segment, equal_fold, eqb, map, is_some,
}
use integration_efi.Value.{
  Value, string, array, object, objects, Fields, Values, nil, cons, Objects, none_left, entry, get,
  put, string_at, has,
}
use integration_efi.World.{World, Url, Query}
use integration_efi.Api.{Error, plain}

abbrev refusal : String → Outcome Error String
refusal t = err (plain t)

module _ (w : World) where
  -- The checks of normalizeWebhookBaseURL behind url.Parse.
  unfoldable pub check_base : String → Url → Outcome Error String
  check_base normalized u =
      if u.scheme == "" || u.host == ""
      then refusal "webhook_url must be an absolute HTTPS URL"
      else if not (equal_fold u.scheme "https")
      then refusal "webhook_url must use HTTPS"
      else if u.has_user
      then refusal "webhook_url must not contain userinfo"
      else if not (u.fragment == "")
      then refusal "webhook_url must not contain a fragment"
      else if has_suffix (w.to_lower (trim_right (λ c. eqb c b'/') u.path)) "/pix"
      then refusal
          "webhook_url must be the receiver base URL without /pix because EFI appends /pix on delivery"
      else ok normalized

  -- normalizeWebhookBaseURL
  unfoldable pub normalize_webhook_base_url : String → Outcome Error String
  unfolding check_base
  normalize_webhook_base_url raw =
      let normalized = trim_space raw in
      if normalized == ""
      then refusal "webhook_url is required"
      else elim (w.parse_url normalized) [
        | none ↦ refusal "webhook_url must be an absolute HTTPS URL"
        | some u ↦ check_base normalized u
      ]

  -- The checks of normalizeAutomaticWebhookURL behind url.Parse.
  unfoldable pub check_automatic : String → String → Url → Outcome Error String
  check_automatic name normalized u =
      let last = w.to_lower (last_segment b'/' u.path) in
      if u.scheme == "" || u.hostname == "" || not (u.opaque == "")
      then refusal (name <> " must be an absolute HTTPS URL with a host")
      else if u.has_user
      then refusal (name <> " must not contain userinfo")
      else if not (u.raw_query == "") || u.force_query
      then refusal (
          name
          <> " must not contain a query: deliveries are authenticated by mTLS, not by a value in the URL")
      else if not (u.fragment == "") || has_infix normalized "#"
      then refusal (name <> " must not contain a fragment")
      else if not (u.raw_path == "")
      then refusal (name <> " must not contain an escaped path")
      else if has_suffix u.path "/"
      then refusal (name <> " must not end with a slash because EFI appends the delivery suffix")
      else if last == "rec" || last == "cobr" || last == "pix"
      then refusal (
          name
          <> " must be the receiver base URL without /rec, /cobr or /pix because EFI appends the delivery suffix")
      else ok normalized

  -- normalizeAutomaticWebhookURL
  unfoldable pub normalize_automatic_webhook_url : String → String → Outcome Error String
  unfolding check_automatic
  normalize_automatic_webhook_url raw name =
      let normalized = trim_space raw in
      if normalized == ""
      then refusal (name <> " is required")
      else if not (has_prefix normalized "https://")
      then refusal (name <> " must be an absolute URL starting with https://")
      else elim (w.parse_url normalized) [
        | none ↦ refusal (name <> " must be an absolute HTTPS URL with a host")
        | some u ↦ check_automatic name normalized u
      ]

  abbrev redacted_value : String → String
  redacted_value v = if v == "" then v else "[redacted]"

  -- Every value of every key of a query.
  unfoldable pub redact_query : Query → Query
  redact_query [] = []
  redact_query ((k, vs) ∷ q) = (k, map redacted_value vs) ∷ redact_query q

  -- The URL that redactURLSecrets prints, for one that parses.
  unfoldable pub redacted : Url → Url
  unfolding redact_query
  redacted u = record u {
    has_user = false;
    fragment = "";
    raw_query =
        if u.raw_query == "" then "" else w.encode_query (redact_query (w.read_query u.raw_query));
  }

  -- redactURLSecrets
  unfoldable pub redact_url_secrets : String → String
  redact_url_secrets raw = elim (w.parse_url raw) [
    | none ↦ "[redacted invalid webhook URL]"
    | some u ↦
        if u.scheme == "" || u.host == ""
        then "[redacted invalid webhook URL]"
        else w.format_url (redacted u)
  ]

  -- sanitizeWebhookURLField
  unfoldable pub sanitize_field : Fields → String → Fields
  sanitize_field m k = elim (string_at m k) [
    | none ↦ m
    | some raw ↦ if raw == "" then m else put m k (string (redact_url_secrets raw))
  ]

  sanitize_row : Fields → Fields
  sanitize_row m = sanitize_field (sanitize_field m "webhookUrl") "url"

  sanitize_values : Values → Values
  sanitize_values nil = nil
  sanitize_values (cons (object m) vs) = cons (object (sanitize_row m)) (sanitize_values vs)
  sanitize_values (cons v vs) = cons v (sanitize_values vs)

  sanitize_objects : Objects → Objects
  sanitize_objects none_left = none_left
  sanitize_objects (entry m ms) = entry (sanitize_row m) (sanitize_objects ms)

  sanitize_rows : Option Value → Fields → Fields
  sanitize_rows (some (array vs)) m = put m "webhooks" (array (sanitize_values vs))
  sanitize_rows (some (objects ms)) m = put m "webhooks" (objects (sanitize_objects ms))
  sanitize_rows _ m = m

  -- sanitizeObservedWebhookURLs: the rows are changed in place, and the map holds them
  unfoldable pub sanitize_observed_webhook_urls : Fields → Fields
  unfolding sanitize_row sanitize_values sanitize_objects sanitize_rows
  sanitize_observed_webhook_urls m =
      let top = sanitize_row m in sanitize_rows (get top "webhooks") top

  -- webhookObservedURLValid
  unfoldable pub observed_url_valid : String → Bool
  observed_url_valid raw =
      if raw == "" || not (raw == trim_space raw) || any_char is_control raw || has_infix raw "#"
      then false
      else elim (w.parse_url raw) [
        | none ↦ false
        | some u ↦
            u.scheme == "https"
            && not (u.hostname == "")
            && not u.has_user
            && u.fragment == ""
            && w.valid_query u.raw_query
      ]

  -- WebhookBaseURLValid
  unfoldable pub webhook_base_url_valid : String → Bool
  webhook_base_url_valid raw = elim (normalize_webhook_base_url raw) [
    | ok normalized ↦ normalized == raw
    | err e ↦ false
  ]

-- The rows that are maps.
unfoldable pub object_rows : Values → Values
object_rows nil = nil
object_rows (cons (object m) vs) = cons (object m) (object_rows vs)
object_rows (cons v vs) = object_rows vs

unfoldable pub listed_items : Fields → Values
unfolding object_rows
listed_items output = elim (get output "webhooks") [
  | some rows ↦ elim rows [ array vs ↦ object_rows vs | _ ↦ nil ]
  | none ↦
      if is_some (string_at output "chave") || is_some (string_at output "webhookUrl")
      then cons (object output) nil
      else nil
]

-- WebhookObservationOutput, on a map
unfoldable pub webhook_observation_output : Fields → Fields
unfolding listed_items
webhook_observation_output output =
    let with_items = put output "items" (array (listed_items output)) in
    if has with_items "cursor" then with_items else put with_items "cursor" (string "")
