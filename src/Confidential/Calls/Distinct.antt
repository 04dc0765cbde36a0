-- ===== src/Confidential/Calls/Distinct.antt =====
-- What a list proof says, and of which page.
use integration_efi.Base.{
  ◌≡◌, ◌≢◌, ◌≤◌, ◌∙◌, ℕ, ℤ, pos, negsuc, leb_ℤ, eqb, eqb_iff, eq_iff, arith, and-eq-true, none,
  some_injective, refl, sym, ap, String, Bool, true, false, not, Option, some, List, [], ◌∷◌,
  Outcome, ok, err, any, length, ◌==◌, ok_injective,
}
use mathlib.Core.Bool.{true≢false}
use mathlib.Core.Path.{subst}
use integration_efi.Value.{Fields, string_at}
use integration_efi.World.{World}
use integration_efi.Api.{Error}
use integration_efi.Api.Errors.{held}
use integration_efi.Confidential.Strict.{canonical_json}
use integration_efi.Confidential.Data.{
  Bytes, Platform, Wire, SealedRequest, Row, Proof, PageParameters, PageProvenance, bind-eq-ok,
  demand-eq-ok, or_else-eq-ok, eq_bytes,
}
use integration_efi.Confidential.Calls.{
  Page, page_fits, checked_row, checked_rows, list_proof, as_held, row_of, is_text, is_count,
}

-- No two rows have the same key tag, and none has a tag that is in `seen`.
abbrev pub IsDistinct : List String → List Row → Type 0
IsDistinct seen [] = Unit
IsDistinct seen (row ∷ rows) =
    (any (λ t. t == row.key_tag) seen ≡ false) × IsDistinct (row.key_tag ∷ seen) rows

as_held-eq-ok : {A : Type 0} (m : Outcome Error A) (a : A) → as_held m ≡ ok a → m ≡ ok a
as_held-eq-ok (ok b) a h = h
as_held-eq-ok (err e) a h = cc h

not-eq-true : (b : Bool) → not b ≡ true → b ≡ false
not-eq-true false h = refl
not-eq-true true h = cc h

is_count-eq-true : (z : ℤ) (n : ℕ) → is_count z n ≡ true → z ≡ pos n
is_count-eq-true (pos m) n h = ground (arith, eqb_iff m n)
is_count-eq-true (negsuc m) n h = cc h

is_text-eq-true : (o : Option String) (s : String) → is_text o s ≡ true → o ≡ some s
is_text-eq-true none s h = cc h
is_text-eq-true (some t) s h = ap some ((eq_iff t s).0 h)

same_size : (a b : ℤ) → leb_ℤ a b ≡ true → leb_ℤ b a ≡ true → a ≡ b
same_size (pos m) (pos n) h k = ap pos (ground arith)
same_size (pos m) (negsuc n) h k = ground arith
same_size (negsuc m) (pos n) h k = ground arith
same_size (negsuc m) (negsuc n) h k = ap negsuc (ground arith)

-- The page that a request asks for: the first one, of its size and range, the only one, and complete.
pub record IsRequested (r : SealedRequest) (page : Page) (q : PageParameters)
    (provenance : PageProvenance) : Type 0 where
  pub of_efi : page.provider ≡ "efi"
  pub last : page.cursor ≡ some ""
  pub version : provenance.version ≡ pos 1
  pub validated : provenance.validated ≡ true
  pub complete : provenance.complete ≡ true
  pub start : q.start ≡ r.intent.parameters.start
  pub stop : q.stop ≡ r.intent.parameters.stop
  pub first : q.pagination.page ≡ pos 0
  pub sized : q.pagination.page_size ≡ r.intent.parameters.page_size
  pub only : q.pagination.pages ≡ pos 1
  pub counted : q.pagination.total ≡ pos (length page.webhooks)
  pub some_record : 1 ≤ length page.webhooks
  pub projected : length page.webhooks ≡ length page.items
  pub fitting : leb_ℤ (pos (length page.webhooks)) r.intent.parameters.page_size ≡ true

-- The proof of a list, with the cursor, the parameters, the provenance and the rows that it states.
abbrev pub list_statement : Option String → PageParameters → PageProvenance → List Row → Proof
list_statement cursor q provenance rows = record {
  version = pos 1;
  kind = "list";
  outcome = "confirmed";
  provider = "efi";
  cursor = cursor;
  parameters = some q;
  page_provenance = some provenance;
  rows = some rows;
  key_tag = "";
  url_tag = "";
  creation_valid = none;
  ensured = none;
  noop = none;
  endpoint = "";
}

same_bytes : (a b : Bytes) → eq_bytes a b ≡ true → a ≡ b
same_bytes [] [] h = refl
same_bytes [] (y ∷ b) h = cc h
same_bytes (x ∷ a) [] h = cc h
same_bytes (x ∷ a) (y ∷ b) h =
    let (first, rest) = and-eq-true (eqb x y) (eq_bytes a b) h in
    cc ((eqb_iff x y).0 first, same_bytes a b rest)

is_text-own : (o : Option String) (s : String) → o ≡ some s → is_text o s ≡ false → ⊥
is_text-own none s e h = cc e
is_text-own (some t) s e h = true≢false (sym ((eq_iff t s).1 (some_injective e)) ∙ h)

module _ (w : World) (p : Platform) (r : SealedRequest) (maps : Wire Fields)
    (read_page : Bytes → Option Page) where
  checked_row-fresh :
      (m projected : Fields) (seen : List String) (row : Row)
      → checked_row w p r maps read_page m projected seen ≡ ok row
      → any (λ t. t == row.key_tag) seen ≡ false
  unfolding checked_row
  checked_row-fresh m projected seen row h =
      let (h0, h1) =
        demand-eq-ok (not (is_text (string_at m "chave") r.intent.binding.audit_resource_id)) held _
          _ h in
      let (a, h2, h3) = bind-eq-ok (canonical_json w p maps m) _ _ h1 in
      let (b, h4, h5) = bind-eq-ok (canonical_json w p maps projected) _ _ h3 in
      let (h6, h7) = demand-eq-ok (eq_bytes a b) held _ _ h5 in
      let (found, h8, h9) = bind-eq-ok (row_of w p r m) _ _ h7 in
      let (fresh, h10) = demand-eq-ok (not (any (λ t. t == found.key_tag) seen)) held _ _ h9 in
      subst (λ x. any (λ t. t == x.key_tag) seen ≡ false) (ok_injective h10) (not-eq-true _ fresh)

  -- The row of a record, which is not about the key of the request's own record, and which the projection
  -- writes in the same way.
  pub record IsRow (m projected : Fields) (row : Row) : Type 0 where
    pub given : row_of w p r m ≡ ok row
    pub other : string_at m "chave" ≢ some r.intent.binding.audit_resource_id
    pub text : Bytes
    pub recorded : canonical_json w p maps m ≡ ok text
    pub shown : canonical_json w p maps projected ≡ ok text

  -- One row for each record and its projection.
  abbrev pub AreRows : List Fields → List Fields → List Row → Type 0
  AreRows [] items [] = Unit
  AreRows (m ∷ ms) (item ∷ items) (row ∷ rows) = IsRow m item row × AreRows ms items rows
  AreRows _ _ _ = ⊥

  checked_row-IsRow :
      (m projected : Fields) (seen : List String) (row : Row)
      → checked_row w p r maps read_page m projected seen ≡ ok row
      → IsRow m projected row
  unfolding checked_row
  checked_row-IsRow m projected seen row h =
      let (other, h1) =
        demand-eq-ok (not (is_text (string_at m "chave") r.intent.binding.audit_resource_id)) held _
          _ h in
      let (a, h2, h3) = bind-eq-ok (canonical_json w p maps m) _ _ h1 in
      let (b, h4, h5) = bind-eq-ok (canonical_json w p maps projected) _ _ h3 in
      let (h6, h7) = demand-eq-ok (eq_bytes a b) held _ _ h5 in
      let (found, h8, h9) = bind-eq-ok (row_of w p r m) _ _ h7 in
      let (fresh, h10) = demand-eq-ok (not (any (λ t. t == found.key_tag) seen)) held _ _ h9 in
      record {
        given = h8 ∙ h10;
        other = λ same.
            is_text-own (string_at m "chave") r.intent.binding.audit_resource_id same
              (not-eq-true _ other);
        text = a;
        recorded = h2;
        shown = h4 ∙ ap ok (sym (same_bytes a b h6));
      }

  -- The rows of the records, with distinct tags.
  checked_rows-IsDistinct :
      (ms items : List Fields) (seen : List String) (rows : List Row)
      → checked_rows w p r maps read_page ms items seen ≡ ok rows
      → AreRows ms items rows × IsDistinct seen rows
  unfolding checked_rows
  checked_rows-IsDistinct [] items seen rows h =
      subst (λ x. AreRows [] items x × IsDistinct seen x) (ok_injective h) (tt, tt)
  checked_rows-IsDistinct (m ∷ ms) [] seen rows h = cc h
  checked_rows-IsDistinct (m ∷ ms) (item ∷ items) seen rows h =
      let (row, found, h1) =
        bind-eq-ok (as_held (checked_row w p r maps read_page m item seen)) _ _ h in
      let (rest, later, h2) =
        bind-eq-ok (checked_rows w p r maps read_page ms items (row.key_tag ∷ seen)) _ _ h1 in
      let done = as_held-eq-ok _ row found in
      let fresh = checked_row-fresh m item seen row done in
      let is_row = checked_row-IsRow m item seen row done in
      let (made, distinct) = checked_rows-IsDistinct ms items (row.key_tag ∷ seen) rest later in
      subst (λ x. AreRows (m ∷ ms) (item ∷ items) x × IsDistinct seen x) (ok_injective h2)
        ((is_row, made), (fresh, distinct))

  page_fits-IsRequested :
      (page : Page) (q : PageParameters) (provenance : PageProvenance)
      → page_fits w p r maps read_page page q provenance ≡ true
      → IsRequested r page q provenance
  unfolding page_fits
  page_fits-IsRequested page q provenance fits =
      let (b13, a14) = and-eq-true _ _ fits in
      let (b12, a13) = and-eq-true _ _ b13 in
      let (b11, a12) = and-eq-true _ _ b12 in
      let (b10, a11) = and-eq-true _ _ b11 in
      let (b9, a10) = and-eq-true _ _ b10 in
      let (b8, a9) = and-eq-true _ _ b9 in
      let (b7, a8) = and-eq-true _ _ b8 in
      let (b6, a7) = and-eq-true _ _ b7 in
      let (b5, a6) = and-eq-true _ _ b6 in
      let (b4, a5) = and-eq-true _ _ b5 in
      let (b3, a4) = and-eq-true _ _ b4 in
      let (b2, a3) = and-eq-true _ _ b3 in
      let (b1, a2) = and-eq-true _ _ b2 in
      let (a0, a1) = and-eq-true _ _ b1 in
      record {
        of_efi = (eq_iff page.provider "efi").0 a0;
        last = is_text-eq-true page.cursor "" a1;
        version = is_count-eq-true provenance.version 1 a2;
        validated = a3;
        complete = a4;
        start = (eq_iff q.start r.intent.parameters.start).0 a5;
        stop = (eq_iff q.stop r.intent.parameters.stop).0 a6;
        first = is_count-eq-true q.pagination.page 0 a7;
        sized = same_size q.pagination.page_size r.intent.parameters.page_size a8 a9;
        only = is_count-eq-true q.pagination.pages 1 a10;
        counted = is_count-eq-true q.pagination.total (length page.webhooks) a11;
        some_record = ground (arith, a12);
        projected = ground (arith, eqb_iff (length page.webhooks) (length page.items), a13);
        fitting = a14;
      }

  -- What a list proof says, of the output that it was made of: the page in it is the requested one, the only
  -- one and complete; it has the row of each record, no two with the same key tag; and it names the parameters
  -- and the provenance of that page.
  pub record IsWhole (out : Fields) (proof : Proof) : Type 0 where
    pub raw : Bytes
    pub written : maps.marshal out ≡ some raw
    pub page : Page
    pub read : read_page raw ≡ some page
    pub parameters : PageParameters
    pub named : page.parameters ≡ some parameters
    pub provenance : PageProvenance
    pub proven : page.provenance ≡ some provenance
    pub requested : IsRequested r page parameters provenance
    pub rows : List Row
    pub made : AreRows page.webhooks page.items rows
    pub distinct : IsDistinct [] rows
    pub says : proof ≡ list_statement (some "") parameters provenance rows

  -- A list proof is only made of the output's page when that is the requested one, the only one and
  -- complete, and states exactly that page: its parameters, its provenance, and the row of each of its
  -- records, with no key tag twice.
  pub list_proof-IsWhole :
      (out : Fields) (proof : Proof)
      → list_proof w p r maps read_page out ≡ ok proof
      → IsWhole out proof
  unfolding list_proof
  list_proof-IsWhole out proof h =
      let (raw, h0, h1) = or_else-eq-ok (maps.marshal out) held _ _ h in
      let (page, h2, h3) = or_else-eq-ok (read_page raw) held _ _ h1 in
      let (q, h4, h5) = or_else-eq-ok page.parameters held _ _ h3 in
      let (provenance, h6, h7) = or_else-eq-ok page.provenance held _ _ h5 in
      let (fits, h8) =
        demand-eq-ok (page_fits w p r maps read_page page q provenance) held _ _ h7 in
      let (rows, found, h9) =
        bind-eq-ok (checked_rows w p r maps read_page page.webhooks page.items []) _ _ h8 in
      let (made, distinct) = checked_rows-IsDistinct page.webhooks page.items [] rows found in
      let requested = page_fits-IsRequested page q provenance fits in
      record {
        raw = raw;
        written = h0;
        page = page;
        read = h2;
        parameters = q;
        named = h4;
        provenance = provenance;
        proven = h6;
        requested = requested;
        rows = rows;
        made = made;
        distinct = distinct;
        says = sym (ok_injective h9) ∙ ap (λ c. list_statement c q provenance rows) requested.last;
      }
