-- ===== src/Confidential/Calls.antt =====
-- The checks and proofs of providers/efi/adapter/confidential.go: what a sealed request must say, and
-- what the answers of a list and of a single observation must show.
pub mod Distinct
use integration_efi.Base.{
  ℕ, String, Bool, true, false, ◌&&◌, ◌||◌, not, Option, none, some, List, [], ◌∷◌, Outcome, ok,
  err, ◌==◌, leb, ltb, eqb, leb_ℤ, pos, ℤ, negsuc, length, any, any_char, is_control, rune_count,
  trim_space, has_infix, if◌then◌else◌,
}
use integration_efi.Value.{
  Value, string, object, array, Fields, field, end, get, string_at, text_at, value_at, as_array,
  as_object, cons, nil, without, Values,
}
use integration_efi.World.{World}
use integration_efi.Api.{Error}
use integration_efi.Api.Errors.{invalid, held}
use integration_efi.Webhooks.Urls.{webhook_base_url_valid, observed_url_valid}
use integration_efi.Routing.{ExecuteRequest}
use integration_efi.Confidential.Data.{
  Bytes, Platform, Wire, Binding, Parameters, SealedRequest, PageParameters, PageProvenance, Row,
  Proof, key_tag_domain, url_tag_domain, ◌>>=◌, ◌>>◌, demand, or_else, eq_bytes,
}
use integration_efi.Confidential.Strict.{canonical_json}
use integration_efi.Confidential.Codec.{canonical_uuid, safe_text, decode32, tag, size}

-- The struct that listProof reads an observation into.
pub record Page : Type 0 where
  pub provider : String
  pub cursor : Option String
  pub parameters : Option PageParameters
  pub provenance : Option PageProvenance
  pub webhooks : List Fields
  pub items : List Fields

abbrev pub is_count : ℤ → ℕ → Bool
is_count (pos m) n = eqb m n
is_count _ n = false

abbrev pub is_text : Option String → String → Bool
is_text none s = false
is_text (some t) s = t == s

abbrev is_among : List String → String → Bool
is_among names s = any (λ t. t == s) names

abbrev pub as_held : {A : Type 0} → Outcome Error A → Outcome Error A
as_held (ok a) = ok a
as_held (err e) = err (Error.sentinel held)

module _ (w : World) (p : Platform) where
  unfoldable pub valid_private_key : String → Bool
  valid_private_key value =
      not (value == "")
      && leb (rune_count value) 77
      && trim_space value == value
      && not (any_char is_control value)
      && elim (w.parse_uuid value) [ none ↦ true | some id ↦ id == value ]

  unfoldable pub hex_value : String → ℕ → Bool
  hex_value s n = elim (p.hex_decode s) [
    | none ↦ false
    | some b ↦ eqb (size p s) n && p.hex_encode b == s
  ]

  -- The URL of a request.
  unfoldable pub valid_base : String → Bool
  valid_base base = elim (w.parse_url base) [
    | none ↦ false
    | some u ↦
        u.scheme == "https"
        && not (u.hostname == "")
        && not u.has_user
        && u.raw_query == ""
        && not u.force_query
        && u.fragment == ""
        && not (has_infix base "#")
        && not (any_char is_control base)
        && base == trim_space base
        && webhook_base_url_valid w base
  ]

  -- A range of two times, the first before the second.
  abbrev ordered : Option ℕ → Option ℕ → Bool
  ordered (some start) (some stop) = ltb start stop
  ordered _ _ = false

  unfoldable pub valid_parameters : Parameters → Bool
  unfolding valid_base
  valid_parameters q =
      valid_base q.canonical_base
      && ordered (w.parse_rfc3339 q.start) (w.parse_rfc3339 q.stop)
      && is_count q.page 0
      && leb_ℤ (pos 1) q.page_size
      && leb_ℤ q.page_size (pos 1000)
      && not q.skip_mtls_validation
      && valid_private_key q.key

  unfoldable pub valid_binding : Binding → Parameters → ExecuteRequest → Bool
  unfolding hex_value
  valid_binding b q envelope =
      canonical_uuid w b.invocation_id
      && canonical_uuid w b.audit_resource_id
      && not (b.audit_resource_id == q.key)
      && b.instance_name == envelope.instance_name
      && safe_text p b.instance_name 128
      && hex_value b.source_root 40
      && hex_value b.release_sha256 64
      && safe_text p b.mode 64
      && safe_text p b.workflow_id 128
      && leb_ℤ (pos 1) b.workflow_version
      && safe_text p b.step_id 128
      && b.operation == envelope.operation

  unfoldable pub valid_purpose : Binding → Parameters → Bool
  valid_purpose b q =
      if is_among ("list" ∷ "single" ∷ "confirm" ∷ []) b.purpose
      then b.operation == "observe_webhook_subscriptions" && q.before_state == ""
      else if b.purpose == "ensure"
      then b.operation == "ensure_webhook_subscription"
        && is_among ("absent" ∷ "canonical" ∷ []) q.before_state
      else false

  -- validateConfidentialRequest
  unfoldable pub validate_confidential_request :
      SealedRequest → ExecuteRequest → Outcome Error (Unit {0})
  unfolding valid_parameters valid_binding valid_purpose
  validate_confidential_request r envelope = do
    let (b, q) : Binding × Parameters = (r.intent.binding, r.intent.parameters)
    demand (valid_parameters q) invalid
    demand (valid_binding b q envelope) invalid
    demand (valid_purpose b q) invalid

  -- time.Parse, with the zero time for a text that is none; requests with such texts are not valid
  abbrev time_of : String → ℕ
  time_of text = elim (w.parse_rfc3339 text) [ none ↦ 0 | some t ↦ t ]

  abbrev created_within : Parameters → String → Bool
  created_within q created = elim (w.parse_rfc3339 created) [
    | none ↦ false
    | some t ↦ leb (time_of q.start) t && leb t (time_of q.stop)
  ]

  module _ (r : SealedRequest) where
    -- row
    unfoldable pub row_of : Fields → Outcome Error Row
    row_of m = do
      key ← or_else (string_at m "chave") held
      address ← or_else (string_at m "webhookUrl") held
      created ← or_else (string_at m "criacao") held
      demand (valid_private_key key) held
      demand (observed_url_valid w address) held
      demand (created_within r.intent.parameters created) held
      secret ← decode32 p r.intent.comparison_secret
      key_tag ← tag p w secret key_tag_domain r.intent.binding.invocation_id key
      url_tag ← tag p w secret url_tag_domain r.intent.binding.invocation_id address
      ok (record { key_tag = key_tag; url_tag = url_tag; creation_valid = true })

    module _ (maps : Wire Fields) (read_page : Bytes → Option Page) where
      -- What listProof asks of the page itself: the requested one, the only one, and complete.
      unfoldable pub page_fits : Page → PageParameters → PageProvenance → Bool
      page_fits page q provenance =
          page.provider == "efi"
          && is_text page.cursor ""
          && is_count provenance.version 1
          && provenance.validated
          && provenance.complete
          && q.start == r.intent.parameters.start
          && q.stop == r.intent.parameters.stop
          && is_count q.pagination.page 0
          && leb_ℤ q.pagination.page_size r.intent.parameters.page_size
          && leb_ℤ r.intent.parameters.page_size q.pagination.page_size
          && is_count q.pagination.pages 1
          && is_count q.pagination.total (length page.webhooks)
          && leb 1 (length page.webhooks)
          && eqb (length page.webhooks) (length page.items)
          && leb_ℤ (pos (length page.webhooks)) r.intent.parameters.page_size

      -- One record of the list and its projection; `seen` holds the key tags before it.
      unfoldable pub checked_row : Fields → Fields → List String → Outcome Error Row
      checked_row m projected seen = do
        demand (not (is_text (string_at m "chave") r.intent.binding.audit_resource_id)) held
        a ← canonical_json w p maps m
        b ← canonical_json w p maps projected
        demand (eq_bytes a b) held
        row ← row_of m
        demand (not (any (λ s. s == row.key_tag) seen)) held
        ok row

      -- The loop of listProof. The lists are of one length; the last clause is never reached.
      unfoldable pub checked_rows :
          List Fields → List Fields → List String → Outcome Error (List Row)
      checked_rows [] items seen = ok []
      checked_rows (m ∷ ms) (item ∷ items) seen = do
        row ← as_held (checked_row m item seen)
        rows ← checked_rows ms items (row.key_tag ∷ seen)
        ok (row ∷ rows)
      checked_rows (m ∷ ms) [] seen = err (Error.sentinel held)

      -- listProof
      unfoldable pub list_proof : Fields → Outcome Error Proof
      list_proof out = do
        raw ← or_else (maps.marshal out) held
        page ← or_else (read_page raw) held
        q ← or_else page.parameters held
        provenance ← or_else page.provenance held
        demand (page_fits page q provenance) held
        rows ← checked_rows page.webhooks page.items []
        ok (record {
          version = pos 1;
          kind = "list";
          outcome = "confirmed";
          provider = "efi";
          cursor = page.cursor;
          parameters = some q;
          page_provenance = some provenance;
          rows = some rows;
          key_tag = "";
          url_tag = "";
          creation_valid = none;
          ensured = none;
          noop = none;
          endpoint = "";
        })

      abbrev only_item : Option Values → Option Fields
      only_item (some (cons (object m) nil)) = some m
      only_item _ = none

      -- singleProof
      unfoldable pub single_proof : Fields → Outcome Error Proof
      single_proof out = do
        row ← as_held (row_of out)
        demand (is_text (string_at out "provider") "efi") held
        demand (is_text (string_at out "chave") r.intent.parameters.key) held
        demand (is_text (string_at out "webhookUrl") r.intent.parameters.canonical_base) held
        projected ← or_else (only_item (as_array (value_at out "items"))) held
        a ← as_held (canonical_json w p maps (without (without out "items") "cursor"))
        b ← as_held (canonical_json w p maps projected)
        demand (eq_bytes a b) held
        demand (is_text (string_at out "cursor") "") held
        ok (record {
          version = pos 1;
          kind = "single";
          outcome = "confirmed";
          provider = "efi";
          cursor = some "";
          parameters = none;
          page_provenance = none;
          rows = none;
          key_tag = row.key_tag;
          url_tag = row.url_tag;
          creation_valid = some true;
          ensured = none;
          noop = none;
          endpoint = "";
        })
