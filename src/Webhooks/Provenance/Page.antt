-- ===== src/Webhooks/Provenance/Page.antt =====
-- What the evidence about a page means.
use integration_efi.Base.{
  ℕ, ◌+◌, ◌-◌, ◌*◌, ◌/◌, ◌≤◌, ◌<◌, ◌≡◌, ◌⊎◌, ◌↔◌, inl, inr, String, Bool, true, some, List, [],
  arith, ℤ, pos, length, Bool-cases, Option-cases, ltb, if◌then◌else◌,
}
use integration_efi.Value.{Value, Fields, Values, entries, object_at, value_at, as_array}
use integration_efi.World.{World}
use integration_efi.Webhooks.Provenance.{
  PageCount, counts_agree, read_page_count, same_range, rows_evidence, rows_fit, requested_page,
  requested_size, requested_range, page_evidence,
}
use integration_efi.Webhooks.Provenance.Rows.{Distinct, Listed, rows_fit-Keyed}

-- The counts of a page agree with the request: `size` rows fill every page but the last.
pub record Agrees (p : PageCount) (page size : ℤ) (rows : ℕ) : Type 0 where
  pub is_page : page ≡ pos p.current
  pub is_size : size ≡ pos p.size
  pub filled :
      rows
      ≡ (if ltb p.size (p.total - p.current * p.size) then p.size else p.total - p.current * p.size)
  pub bounded : rows ≤ p.size
  pub inside : (p.total ≡ 0) ⊎ (p.current < p.pages)
  pub covers : (p.total ≡ 0) ⊎ (p.pages ≡ (p.total + p.size - 1) / p.size)

counts_agree_sound :
    (p : PageCount) (page size : ℤ) (rows : ℕ)
    → counts_agree p page size rows ≡ true
    → Agrees p page size rows
unfolding counts_agree
counts_agree_sound p page size rows h = ground arith

module _ (w : World) where
  -- What the rows of a page with evidence are; complete when `whole`.
  pub record RowsProven (start stop : ℕ) (page size : ℤ) (count : PageCount) (rows : List Value)
      (whole : Bool) : Type 0 where
    pub agrees : Agrees count page size (length rows)
    pub keys : List String
    pub listed : Listed w start stop rows keys
    pub distinct : Distinct keys
    pub whole_iff :
        (whole ≡ true) ↔ ((count.current ≡ 0) × (count.pages ≡ 1) × (count.total ≡ length rows))

  rows_evidence-RowsProven :
      (start stop : ℕ) (page size : ℤ) (count : PageCount) (rows : List Value) (whole : Bool)
      → rows_evidence w start stop page size count rows ≡ some whole
      → RowsProven start stop page size count rows whole
  unfolding rows_evidence
  rows_evidence-RowsProven start stop page size count rows whole h =
      let keyed =
        rows_fit-Keyed w start stop [] rows
          (ground (arith, Bool-cases (rows_fit w start stop [] rows))) in
      record {
        agrees =
            counts_agree_sound count page size (length rows)
              (ground (arith, Bool-cases (counts_agree count page size (length rows))));
        keys = keyed.keys;
        listed = keyed.listed;
        distinct = keyed.distinct;
        whole_iff = ground arith;
      }

  -- What a page with evidence is: the page of the request.
  pub record Evidence (input response : Fields) (whole : Bool) : Type 0 where
    pub start : ℕ
    pub stop : ℕ
    pub page : ℤ
    pub size : ℤ
    pub parameters : Fields
    pub pagination : Fields
    pub count : PageCount
    pub rows : Values
    pub is_range : requested_range w input ≡ some (start, stop)
    pub is_page : requested_page w input ≡ some page
    pub is_size : requested_size w input ≡ some size
    pub has_parameters : object_at response "parametros" ≡ some parameters
    pub same : same_range w parameters start stop ≡ true
    pub has_pagination : object_at parameters "paginacao" ≡ some pagination
    pub has_count : read_page_count pagination ≡ some count
    pub has_rows : as_array (value_at response "webhooks") ≡ some rows
    pub proven : RowsProven start stop page size count (entries rows) whole

  -- The part of page_evidence behind the request's own values.
  response-Evidence :
      (input response : Fields) (whole : Bool) (start stop : ℕ) (page size : ℤ)
      (parameters : Fields)
      → requested_range w input ≡ some (start, stop)
      → requested_page w input ≡ some page
      → requested_size w input ≡ some size
      → object_at response "parametros" ≡ some parameters
      → page_evidence w input response ≡ some whole
      → Evidence input response whole
  unfolding page_evidence
  response-Evidence input response whole start stop page size parameters is_range is_page is_size
        has h =
      elim (Option-cases (object_at parameters "paginacao")) [
        | inl missing ↦ ground arith
        | inr (pagination, has_pagination) ↦ elim (Option-cases (read_page_count pagination)) [
          | inl missing ↦ ground arith
          | inr (count, has_count) ↦ elim (Option-cases (as_array (value_at response "webhooks"))) [
            | inl missing ↦ ground arith
            | inr (rows, has_rows) ↦ record {
              start = start;
              stop = stop;
              page = page;
              size = size;
              parameters = parameters;
              pagination = pagination;
              count = count;
              rows = rows;
              is_range = is_range;
              is_page = is_page;
              is_size = is_size;
              has_parameters = has;
              same = ground (arith, Bool-cases (same_range w parameters start stop));
              has_pagination = has_pagination;
              has_count = has_count;
              has_rows = has_rows;
              proven =
                  rows_evidence-RowsProven start stop page size count (entries rows) whole
                    (ground (arith, Bool-cases (same_range w parameters start stop)));
            }
          ]
        ]
      ]

  -- Evidence is written only for the page that was asked for: the range, page and size of the input
  -- parse and are those of the response, the counts agree with each other and with the number of
  -- rows, every row has a valid key and URL and was created in the range, and no key occurs twice.
  -- `complete` is written exactly when the only page holds all the items.
  pub page_evidence-Evidence :
      (input response : Fields) (whole : Bool)
      → page_evidence w input response ≡ some whole
      → Evidence input response whole
  unfolding page_evidence
  page_evidence-Evidence input response whole h = elim (Option-cases (requested_range w input)) [
    | inl missing ↦ ground arith
    | inr ((start, stop), is_range) ↦ elim (Option-cases (requested_page w input)) [
      | inl missing ↦ ground arith
      | inr (page, is_page) ↦ elim (Option-cases (requested_size w input)) [
        | inl missing ↦ ground arith
        | inr (size, is_size) ↦ elim (Option-cases (object_at response "parametros")) [
          | inl missing ↦ ground arith
          | inr (parameters, has) ↦
              response-Evidence input response whole start stop page size parameters is_range
                is_page is_size has h
        ]
      ]
    ]
  ]
