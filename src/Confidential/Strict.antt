-- ===== src/Confidential/Strict.antt =====
-- DecodeStrict and CanonicalJSON of providers/efi/confidential/codec.go.
use integration_efi.Base.{
  ℕ, suc, String, Bool, true, ◌&&◌, not, some, List, [], ◌∷◌, Outcome, ◌==◌, leb, any, ◌≡◌, arith,
  refl, eqb_iff,
}
use integration_efi.Value.{Json, Jsons, Members, empty, item, closed, member}
use integration_efi.World.{World}
use integration_efi.Api.{Error}
use integration_efi.Api.Errors.{invalid}
use integration_efi.Confidential.Data.{
  Bytes, Platform, Wire, ◌>>=◌, ◌>>◌, demand, or_else, eq_bytes,
}

-- uniqueValue: at most 65 levels, and no two members of an object with the same name.
unfoldable mutual
  pub unique_value : ℕ → Json → Bool
  unique_value depth Json.null = leb depth 64
  unique_value depth (Json.bool b) = leb depth 64
  unique_value depth (Json.number x) = leb depth 64
  unique_value depth (Json.string s) = leb depth 64
  unique_value depth (Json.array js) = leb depth 64 && unique_items (suc depth) js
  unique_value depth (Json.object ms) = leb depth 64 && unique_members (suc depth) [] ms

  pub unique_items : ℕ → Jsons → Bool
  unique_items depth empty = true
  unique_items depth (item j js) = unique_value depth j && unique_items depth js

  pub unique_members : ℕ → List String → Members → Bool
  unique_members depth seen closed = true
  unique_members depth seen (member k j ms) =
      not (any (λ s. s == k) seen) && unique_value depth j && unique_members depth (k ∷ seen) ms

module _ (w : World) (p : Platform) {A : Type 0} (wire : Wire A) where
  -- CanonicalJSON
  unfoldable pub canonical_json : A → Outcome Error Bytes
  canonical_json a = do raw ← or_else (wire.marshal a) invalid; or_else (p.canonical raw) invalid

  -- CanonicalJSON of the generic value that the bytes hold.
  unfoldable pub canonical_text : Bytes → Outcome Error Bytes
  canonical_text raw = do
    generic ← or_else (p.canonical raw) invalid
    or_else (p.canonical generic) invalid

  -- DecodeStrict
  unfoldable pub decode_strict : Bytes → Outcome Error A
  decode_strict raw = do
    document ← or_else (w.parse_json raw) invalid
    demand (unique_value 0 document) invalid
    a ← or_else (wire.decode raw) invalid
    want ← canonical_text raw
    got ← canonical_json a
    demand (eq_bytes want got) invalid
    Outcome.ok a

  -- What encoding/json makes of a value reads back as it.
  pub record IsReadable (a : A) (raw : Bytes) : Type 0 where
    pub marshalled : wire.marshal a ≡ some raw
    pub document : Json
    pub parsed : w.parse_json raw ≡ some document
    pub unique : unique_value 0 document ≡ true
    pub decoded : wire.decode raw ≡ some a
    pub compact : Bytes
    pub canonical_once : p.canonical raw ≡ some compact
    pub canonical_twice : p.canonical compact ≡ some compact

  eq_bytes_refl : (xs : Bytes) → eq_bytes xs xs ≡ true
  eq_bytes_refl [] = refl
  eq_bytes_refl (x ∷ xs) = ground (arith, eqb_iff x x, eq_bytes_refl xs)

  pub decode_strict-IsReadable :
      (a : A) (raw : Bytes) → IsReadable a raw → decode_strict raw ≡ Outcome.ok a
  unfolding decode_strict canonical_text canonical_json
  decode_strict-IsReadable a raw r =
      rw
        (
          r.parsed,
          r.unique,
          r.decoded,
          r.canonical_once,
          r.canonical_twice,
          r.marshalled,
          r.canonical_once,
          eq_bytes_refl r.compact,
        )
        refl
