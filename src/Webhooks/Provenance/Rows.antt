-- ===== src/Webhooks/Provenance/Rows.antt =====
-- What the rows of a page that pass the checks are.
use integration_efi.Base.{
  ℕ, ◌≡◌, ◌≢◌, inl, inr, refl, String, true, false, some, List, [], ◌∷◌, arith, ◌==◌, eq_iff, any,
  All, Bool-cases, Option-cases,
}
use integration_efi.Value.{Value, object, Fields, string_at}
use integration_efi.World.{World}
use integration_efi.Webhooks.Urls.{observed_url_valid}
use integration_efi.Webhooks.Provenance.{key_valid, created_within, row_key, row_passes, rows_fit}

-- No text occurs twice.
abbrev pub Distinct : List String → Type 0
Distinct [] = Unit
Distinct (k ∷ ks) = All (λ j. k ≢ j) ks × Distinct ks

module _ (w : World) where
  -- A row with a sound key and URL that was created in the window.
  pub record RowFits (start stop : ℕ) (row : Value) (key : String) : Type 0 where
    pub members : Fields
    pub is_row : row ≡ object members
    pub has_key : string_at members "chave" ≡ some key
    pub valid_key : key_valid w key ≡ true
    pub address : String
    pub has_address : string_at members "webhookUrl" ≡ some address
    pub valid_address : observed_url_valid w address ≡ true
    pub created : String
    pub has_created : string_at members "criacao" ≡ some created
    pub in_window : created_within w start stop created ≡ true

  -- The rows, with their keys.
  abbrev pub Listed : ℕ → ℕ → List Value → List String → Type 0
  Listed start stop [] [] = Unit
  Listed start stop (row ∷ rows) (k ∷ ks) = RowFits start stop row k × Listed start stop rows ks
  Listed start stop _ _ = ⊥

  abbrev pub IsNew : List String → String → Type 0
  IsNew seen key = All (λ s. s ≢ key) seen

  any-IsNew :
      (seen : List String) (key : String) → any (λ s. s == key) seen ≡ false → IsNew seen key
  any-IsNew [] key h = tt
  any-IsNew (s ∷ seen) key h =
      (λ e. cc (h, (eq_iff s key).1 e), any-IsNew seen key (ground (arith, Bool-cases (s == key))))

  -- A row that fits, with a key that no earlier row has.
  record Passes (start stop : ℕ) (seen : List String) (m : Fields) (key : String) : Type 0 where
    address : String
    created : String
    has_key : string_at m "chave" ≡ some key
    has_address : string_at m "webhookUrl" ≡ some address
    has_created : string_at m "criacao" ≡ some created
    passed : row_passes w start stop seen key address created ≡ true

  row_key-Passes :
      (start stop : ℕ) (seen : List String) (m : Fields) (key : String)
      → row_key w start stop seen (object m) ≡ some key
      → Passes start stop seen m key
  unfolding row_key
  row_key-Passes start stop seen m key h = elim (Option-cases (string_at m "chave")) [
    | inl missing ↦ ground arith
    | inr (k, has_key) ↦ elim (Option-cases (string_at m "webhookUrl")) [
      | inl missing ↦ ground arith
      | inr (a, has_address) ↦ elim (Option-cases (string_at m "criacao")) [
        | inl missing ↦ ground arith
        | inr (d, has_created) ↦ record {
          address = a;
          created = d;
          has_key = ground (arith, Bool-cases (row_passes w start stop seen k a d));
          has_address = has_address;
          has_created = has_created;
          passed = ground (arith, Bool-cases (row_passes w start stop seen k a d));
        }
      ]
    ]
  ]

  row_passes_sound :
      (start stop : ℕ) (seen : List String) (key address created : String)
      → row_passes w start stop seen key address created ≡ true
      → (key_valid w key ≡ true)
        × (any (λ s. s == key) seen ≡ false)
        × (observed_url_valid w address ≡ true)
        × (created_within w start stop created ≡ true)
  unfolding row_passes
  row_passes_sound start stop seen key address created h = (
    ground arith,
    ground (arith, Bool-cases (any (λ s. s == key) seen)),
    ground arith,
    ground arith,
  )

  row_fits :
      (start stop : ℕ) (seen : List String) (m : Fields) (key : String)
      → Passes start stop seen m key
      → RowFits start stop (object m) key × IsNew seen key
  row_fits start stop seen m key p =
      let (valid, fresh, sound, inside) =
        row_passes_sound start stop seen key p.address p.created p.passed in
      (
        record {
          members = m;
          is_row = refl;
          has_key = p.has_key;
          valid_key = valid;
          address = p.address;
          has_address = p.has_address;
          valid_address = sound;
          created = p.created;
          has_created = p.has_created;
          in_window = inside;
        },
        any-IsNew seen key fresh,
      )

  row_key_sound :
      (start stop : ℕ) (seen : List String) (row : Value) (key : String)
      → row_key w start stop seen row ≡ some key
      → RowFits start stop row key × IsNew seen key
  unfolding row_key
  row_key_sound start stop seen (object m) key h =
      row_fits start stop seen m key (row_key-Passes start stop seen m key h)
  row_key_sound start stop seen _ key h = cc

  rest_distinct :
      (key : String) (seen keys : List String)
      → All (λ k. IsNew (key ∷ seen) k) keys
      → All (λ j. key ≢ j) keys × All (λ k. IsNew seen k) keys
  rest_distinct key seen [] fresh = (tt, tt)
  rest_distinct key seen (k ∷ keys) ((apart, rest), others) =
      let (a, b) = rest_distinct key seen keys others in ((apart, a), (rest, b))

  -- The keys of the rows that fit: pairwise distinct, and none of them was seen before.
  pub record Keyed (start stop : ℕ) (seen : List String) (rows : List Value) : Type 0 where
    pub keys : List String
    pub listed : Listed start stop rows keys
    pub distinct : Distinct keys
    pub fresh : All (λ k. IsNew seen k) keys

  pub rows_fit-Keyed :
      (start stop : ℕ) (seen : List String) (rows : List Value)
      → rows_fit w start stop seen rows ≡ true
      → Keyed start stop seen rows
  unfolding rows_fit
  rows_fit-Keyed start stop seen [] h = record { keys = []; listed = tt; distinct = tt; fresh = tt }
  rows_fit-Keyed start stop seen (row ∷ rows) h =
      elim (Option-cases (row_key w start stop seen row)) [
        | inl missing ↦ ground arith
        | inr (key, found) ↦
            let (fits, is_new) = row_key_sound start stop seen row key found in
            let rest = rows_fit-Keyed start stop (key ∷ seen) rows (ground arith) in
            let (apart, others) = rest_distinct key seen rest.keys rest.fresh in
            record {
              keys = key ∷ rest.keys;
              listed = (fits, rest.listed);
              distinct = (apart, rest.distinct);
              fresh = (is_new, others);
            }
      ]
