-- ===== src/Confidential/Public.antt =====
-- The public half of a receiver, of providers/efi/confidential/codec.go: NewReceiver, Metadata,
-- DecodePublic and validVersion.
use integration_efi.Base.{
  String, Bool, false, ◌&&◌, not, Option, some, List, [], ◌∷◌, Outcome, ok, ◌==◌, ◌||◌, leb, ltb,
  length, pos, any_char,
}
use integration_efi.World.{World}
use integration_efi.Api.{Error}
use integration_efi.Api.Errors.{invalid, held}
use integration_efi.Confidential.Data.{
  Bytes, Platform, Wire, schema_version, algorithm_name, max_public_metadata, RuntimePublic, ◌>>=◌,
  ◌>>◌, demand, or_else,
}
use integration_efi.Confidential.Strict.{decode_strict}
use integration_efi.Confidential.Codec.{Receiver, canonical_uuid, is_int, public_key_of, size}
use integration_efi.Confidential.Text.{parts_of}

module _ (p : Platform) where
  abbrev is_part : String → Bool
  is_part part =
      not (part == "") && leb (size p part) 8 && not (any_char (λ c. ltb c b'0' || ltb b'9' c) part)

  abbrev is_triple : List String → Bool
  is_triple (a ∷ b ∷ c ∷ []) = is_part a && is_part b && is_part c
  is_triple _ = false

  -- validVersion
  unfoldable pub valid_version : String → Bool
  valid_version value = leb (size p value) 32 && is_triple (parts_of b'.' value)

  -- Metadata
  unfoldable pub metadata : Receiver → RuntimePublic
  metadata receiver = receiver.public

  -- NewReceiver, with the key pair and the id that are drawn, none where that fails
  unfoldable pub new_receiver :
      Option (Bytes × Bytes) → Option String → String → Outcome Error Receiver
  new_receiver pair id version = do
    (public, secret) ← or_else pair held
    drawn ← or_else id held
    ok (record {
      public = record {
        version = pos schema_version;
        algorithm = algorithm_name;
        adapter_version = version;
        key_id = drawn;
        public_key = p.base64_encode public;
      };
      secret = some secret;
    })

  -- DecodePublic
  unfoldable pub decode_public : World → Wire RuntimePublic → Bytes → Outcome Error RuntimePublic
  decode_public w publics raw = do
    demand (leb (length raw) max_public_metadata) invalid
    public ← decode_strict w p publics raw
    demand (is_int public.version schema_version) invalid
    demand (public.algorithm == algorithm_name) invalid
    demand (canonical_uuid w public.key_id) invalid
    demand (valid_version public.adapter_version) invalid
    public_key_of p public.public_key
    ok public
