-- ===== src/Webhooks/Provenance.antt =====
-- webhook_page_provenance.go: the decoder that refuses ambiguous JSON, and the evidence that a listed
-- page is the requested one and complete.
pub mod Unambiguous
pub mod Rows
pub mod Page
use integration_efi.Base.{
  ℕ, zero, suc, ◌+◌, ◌-◌, ◌*◌, ◌/◌, ◌^◌, String, Bool, true, false, ◌&&◌, ◌||◌, not, Option, none,
  some, List, [], ◌∷◌, Outcome, ok, err, ◌==◌, if◌then◌else◌, trim_space, any_char, is_control,
  rune_count, leb, ltb, eqb, ℤ, pos, negsuc, any, is_some, length, ◌≡◌, refl,
}
use integration_efi.Value.{
  Value, null, bool, int, string, float64, object, Fields, field, end, Values, nil, cons, Float,
  finite, get, has, is_whole, above, truncated, as_string, as_object, as_array, string_at,
  object_at, value_at, entries, Json, Jsons, Members, empty, item, closed, member, to_fields,
}
use integration_efi.Value
use integration_efi.World.{World}
use integration_efi.Webhooks.Pagination.{
  webhook_time_range, pagination_input, parse_pagination_integer,
}
use integration_efi.Webhooks.Urls.{observed_url_valid}

module _ (w : World) where
  -- The scan of webhookObservationJSON: at most 33 levels, and no two members of an object that are
  -- the same name but for case.
  unfoldable mutual
    pub scan : ℕ → Json → Bool
    scan depth Json.null = leb depth 32
    scan depth (Json.bool b) = leb depth 32
    scan depth (Json.number x) = leb depth 32
    scan depth (Json.string s) = leb depth 32
    scan depth (Json.array js) = leb depth 32 && scan_items (suc depth) js
    scan depth (Json.object ms) = leb depth 32 && scan_members (suc depth) [] ms

    pub scan_items : ℕ → Jsons → Bool
    scan_items depth empty = true
    scan_items depth (item j js) = scan depth j && scan_items depth js

    pub scan_members : ℕ → List String → Members → Bool
    scan_members depth seen closed = true
    scan_members depth seen (member k j ms) =
        not (any (λ s. s == w.to_lower k) seen)
        && scan depth j
        && scan_members depth (w.to_lower k ∷ seen) ms

  -- (*webhookObservationJSON).UnmarshalJSON: null leaves no map
  unfoldable pub decode_observation : Json → Option Fields
  unfolding scan
  decode_observation Json.null = none
  decode_observation (Json.object ms) =
      if scan 0 (Json.object ms) then to_fields (Json.object ms) else none
  decode_observation _ = none

-- webhookPageInteger
unfoldable pub webhook_page_integer : Value → Option ℕ
webhook_page_integer (float64 (finite (pos n) k)) =
    if is_whole (finite (pos n) k) && not (above (finite (pos n) k) (2 ^ 31 - 1))
    then some (n / 2 ^ k)
    else none
webhook_page_integer _ = none

-- The numbers of a page, as the provider counts them.
pub record PageCount : Type 0 where
  pub current : ℕ
  pub size : ℕ
  pub pages : ℕ
  pub total : ℕ

infixl 5 ◌>>=◌
abbrev ◌>>=◌ {ℓ κ} : {A : Type ℓ} {B : Type κ} → Option A → (A → Option B) → Option B
none >>= k = none
some a >>= k = k a

abbrev check : Bool → Option (Unit {0})
check true = some tt
check false = none

unfoldable pub read_page_count : Fields → Option PageCount
read_page_count pagination = do
  current ← webhook_page_integer (value_at pagination "paginaAtual")
  size ← webhook_page_integer (value_at pagination "itensPorPagina")
  pages ← webhook_page_integer (value_at pagination "quantidadeDePaginas")
  total ← webhook_page_integer (value_at pagination "quantidadeTotalDeItens")
  some (record { current = current; size = size; pages = pages; total = total })

-- int64(n) == m, for a count
abbrev equals_int : ℕ → ℤ → Bool
equals_int n (pos m) = eqb n m
equals_int n (negsuc m) = false

-- The counts agree with the request, with each other and with the number of rows.
unfoldable pub counts_agree : PageCount → ℤ → ℤ → ℕ → Bool
counts_agree p page size rows =
    equals_int p.current page
    && equals_int p.size size
    && leb rows p.size
    && (if eqb p.total 0
        then eqb p.current 0 && (eqb p.pages 0 || eqb p.pages 1) && eqb rows 0
        else eqb p.pages ((p.total + p.size - 1) / p.size) && ltb p.current p.pages)
    && eqb rows
        (if ltb p.size (p.total - p.current * p.size) then p.size else p.total - p.current * p.size)

module _ (w : World) where
  -- An alternate spelling of a UUID would name another key.
  unfoldable pub canonical_if_uuid : String → Bool
  canonical_if_uuid key = elim (w.parse_uuid key) [ none ↦ true | some id ↦ id == key ]

  unfoldable pub key_valid : String → Bool
  unfolding canonical_if_uuid
  key_valid key =
      not (key == "")
      && leb (rune_count key) 77
      && key == trim_space key
      && not (any_char is_control key)
      && canonical_if_uuid key

  unfoldable pub created_within : ℕ → ℕ → String → Bool
  created_within start stop created = elim (w.parse_rfc3339_nano created) [
    | none ↦ false
    | some t ↦ not (ltb t start) && not (ltb stop t)
  ]

  -- The checks on the three texts of a row.
  unfoldable pub row_passes : ℕ → ℕ → List String → String → String → String → Bool
  row_passes start stop seen key address created =
      key_valid key
      && not (any (λ s. s == key) seen)
      && observed_url_valid w address
      && created_within start stop created

  -- One row of the loop: its key, if it is fit and new.
  unfoldable pub row_key : ℕ → ℕ → List String → Value → Option String
  unfolding row_passes
  row_key start stop seen row = do
    m ← as_object row
    key ← string_at m "chave"
    address ← string_at m "webhookUrl"
    created ← string_at m "criacao"
    _ ← check (row_passes start stop seen key address created)
    some key

  unfoldable pub rows_fit : ℕ → ℕ → List String → List Value → Bool
  rows_fit start stop seen [] = true
  rows_fit start stop seen (row ∷ rows) = elim (row_key start stop seen row) [
    | none ↦ false
    | some key ↦ rows_fit start stop (key ∷ seen) rows
  ]

  -- webhookTimeEquals
  unfoldable pub webhook_time_equals : Value → ℕ → Bool
  webhook_time_equals v requested = elim (as_string v) [
    | none ↦ false
    | some text ↦ elim (w.parse_rfc3339_nano text) [ none ↦ false | some t ↦ eqb t requested ]
  ]

  -- The page that is asked for: a cursor that is not blank stands above page, which is 0 if absent.
  unfoldable pub requested_page : Fields → Option ℤ
  requested_page input = elim (pagination_input w input "page" 0 0) [
    | err e ↦ none
    | ok page ↦
        let given : ℤ = elim page [ none ↦ pos 0 | some n ↦ n ] in
        elim (get input "cursor") [
          | none ↦ some given
          | some v ↦ elim (as_string v) [
            | none ↦ none
            | some text ↦
                if trim_space text == ""
                then some given
                else elim (parse_pagination_integer w (string (trim_space text)) 0 0) [
                  | err e ↦ none
                  | ok n ↦ some n
                ]
          ]
        ]
  ]

  unfoldable pub requested_size : Fields → Option ℤ
  requested_size input = elim (pagination_input w input "page_size" 1 1000) [
    | err e ↦ none
    | ok size ↦ size
  ]

  -- requestedStart and requestedEnd
  unfoldable pub requested_range : Fields → Option (ℕ × ℕ)
  requested_range input = elim (webhook_time_range w input) [
    | err e ↦ none
    | ok (inicio, fim) ↦ do
      start ← w.parse_rfc3339 inicio
      stop ← w.parse_rfc3339 fim
      some (start, stop)
  ]

  unfoldable pub same_range : Fields → ℕ → ℕ → Bool
  same_range parameters start stop =
      webhook_time_equals (value_at parameters "inicio") start
      && webhook_time_equals (value_at parameters "fim") stop

  -- The checks of the counts and of the rows: `complete`.
  unfoldable pub rows_evidence : ℕ → ℕ → ℤ → ℤ → PageCount → List Value → Option Bool
  rows_evidence start stop page size count rows =
      if counts_agree count page size (length rows) && rows_fit start stop [] rows
      then some (eqb count.current 0 && eqb count.pages 1 && eqb count.total (length rows))
      else none

  -- webhookPageProvenance: nothing, or the evidence `validated` with its `complete`
  unfoldable pub page_evidence : Fields → Fields → Option Bool
  unfolding same_range rows_evidence
  page_evidence input response = do
    (start, stop) ← requested_range input
    page ← requested_page input
    size ← requested_size input
    parameters ← object_at response "parametros"
    _ ← check (same_range parameters start stop)
    pagination ← object_at parameters "paginacao"
    count ← read_page_count pagination
    listed ← as_array (value_at response "webhooks")
    rows_evidence start stop page size count (entries listed)

  -- webhookPageEvidence as it is written into the response
  unfoldable pub webhook_page_provenance : Fields → Fields → Value
  unfolding page_evidence
  webhook_page_provenance input response =
      let found = page_evidence input response in
      object (
        field "schemaVersion" (int (pos 1)) (
          field "validated" (bool (is_some found))
            (field "complete" (bool (elim found [ none ↦ false | some b ↦ b ])) end)))
