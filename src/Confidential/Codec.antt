-- ===== src/Confidential/Codec.antt =====
-- Keys, tags, seals and the opening of seals, of providers/efi/confidential/codec.go.
use integration_efi.Base.{
  ℕ, ◌+◌, ◌/◌, ◌%◌, ◌^◌, String, Bool, false, ◌&&◌, ◌||◌, not, Option, none, some, [], ◌∷◌, ◌++◌,
  Outcome, ok, ◌==◌, leb, eqb, if◌then◌else◌, length, pos, ℤ, trim_space, any_char,
}
use integration_efi.World.{World}
use integration_efi.Api.{Error}
use integration_efi.Api.Errors.{invalid, held}
use integration_efi.Confidential.Data.{
  Bytes, Platform, Wire, schema_version, algorithm_name, max_input_plaintext, max_output_plaintext,
  key_tag_domain, url_tag_domain, anonymous_overhead, RuntimePublic, InputEnvelope, Intent,
  SealedRequest, Proof, Output, PlainOutput, ◌>>=◌, ◌>>◌, demand, or_else,
}
use integration_efi.Confidential.Strict.{decode_strict, canonical_json}

-- n in an `int`
abbrev pub is_int : ℤ → ℕ → Bool
is_int (pos m) n = eqb m n
is_int _ n = false

-- canonicalUUID
unfoldable pub canonical_uuid : World → String → Bool
canonical_uuid w value = elim (w.parse_uuid value) [
  | none ↦ false
  | some id ↦ not (id == "00000000-0000-0000-0000-000000000000") && id == value
]

-- binary.BigEndian.PutUint32
unfoldable pub big_endian : ℕ → Bytes
big_endian n = n / 2 ^ 24 % 256 ∷ n / 2 ^ 16 % 256 ∷ n / 2 ^ 8 % 256 ∷ n % 256 ∷ []

-- An envelope of this version for this receiver.
unfoldable pub addressed : RuntimePublic → InputEnvelope → Bool
addressed public input =
    is_int input.version schema_version
    && input.algorithm == algorithm_name
    && input.recipient_key_id == public.key_id

-- The receiver's keys; `private` is none for a nil pointer.
pub record Receiver : Type 0 where
  pub public : RuntimePublic
  pub secret : Option Bytes  -- private

module _ (p : Platform) where
  abbrev pub size : String → ℕ
  size s = length (p.utf8 s)

  unfoldable pub fingerprint : Bytes → String
  fingerprint b = p.hex_encode (p.sha256 b)

  -- SafeText
  unfoldable pub safe_text : String → ℕ → Bool
  safe_text s maximum =
      not (s == "")
      && leb (size s) maximum
      && not (any_char (λ c. eqb c 0 || eqb c 13 || eqb c 10 || eqb c 9) s)
      && trim_space s == s

  unfoldable pub decode32 : String → Outcome Error Bytes
  decode32 encoded = do
    b ← or_else (p.base64_decode encoded) invalid
    demand (eqb (length b) 32) invalid
    demand (p.base64_encode b == encoded) invalid
    ok b

  abbrev probe : Bytes
  probe =
      1 ∷ 0 ∷ 0 ∷ 0 ∷ 0 ∷ 0 ∷ 0 ∷ 0 ∷ 0 ∷ 0 ∷ 0 ∷ 0 ∷ 0 ∷ 0 ∷ 0 ∷ 0 ∷ 0 ∷ 0 ∷ 0 ∷ 0 ∷ 0 ∷ 0 ∷ 0 ∷ 0
      ∷ 0 ∷ 0 ∷ 0 ∷ 0 ∷ 0 ∷ 0 ∷ 0 ∷ 0 ∷ []

  -- PublicKey
  unfoldable pub public_key_of : String → Outcome Error Bytes
  public_key_of encoded = do
    b ← decode32 encoded
    demand (p.is_public_key b) invalid
    demand (p.is_private_key probe) invalid
    demand (p.agrees probe b) invalid
    ok b

  -- One field of what Tag writes.
  unfoldable pub framed : String → Bytes
  unfolding big_endian
  framed value = big_endian (size value) ++ p.utf8 value

  -- What Tag writes.
  unfoldable pub tag_message : String → String → String → Bytes
  tag_message domain invocation value = framed domain ++ (framed invocation ++ framed value)

  -- The length of a field fits an uint32.
  abbrev pub fits_frame : String → Bool
  fits_frame value = leb (size value) (4294967295)

  -- Tag, with a secret that is there
  unfoldable pub tag : World → Bytes → String → String → String → Outcome Error String
  tag w secret domain invocation value = do
    demand (domain == key_tag_domain || domain == url_tag_domain) invalid
    demand (canonical_uuid w invocation) invalid
    demand (fits_frame domain && fits_frame invocation && fits_frame value) invalid
    ok (p.hex_encode (p.hmac_sha256 secret (tag_message domain invocation value)))

  unfoldable pub decode_ciphertext : String → ℕ → Outcome Error Bytes
  decode_ciphertext encoded maximum = do
    demand (leb (size encoded) (p.encoded_len (maximum + anonymous_overhead))) invalid
    b ← or_else (p.base64_decode encoded) invalid
    demand (leb anonymous_overhead (length b)) invalid
    demand (leb (length b) (maximum + anonymous_overhead)) invalid
    demand (p.base64_encode b == encoded) invalid
    ok b

  -- IntentHash
  unfoldable pub intent_hash : World → Wire Intent → Intent → Outcome Error String
  intent_hash w intents intent = do
    raw ← canonical_json w p intents intent
    demand (leb (length raw) max_input_plaintext) invalid
    ok (fingerprint raw)

module _ (w : World) (p : Platform) (intents : Wire Intent) (requests : Wire SealedRequest) where
  -- SealInput
  unfoldable pub seal_input : SealedRequest → RuntimePublic → Bytes → Outcome Error InputEnvelope
  seal_input request recipient randomness = do
    key ← public_key_of p recipient.public_key
    let binding = request.intent.binding
    demand (binding.receiver_key_id == recipient.key_id) invalid
    demand (binding.receiver_public_key_sha256 == fingerprint p key) invalid
    hash ← intent_hash p w intents request.intent
    demand (hash == request.intent_sha256) invalid
    raw ← or_else (requests.marshal request) invalid
    demand (leb (length raw) max_input_plaintext) invalid
    sealed ← or_else (p.seal_anonymous raw key randomness) held
    ok (record {
      version = pos schema_version;
      algorithm = algorithm_name;
      recipient_key_id = recipient.key_id;
      ciphertext = p.base64_encode sealed;
    })

  -- What OpenInput demands of a request that it decoded.
  unfoldable pub check_request : RuntimePublic → Bytes → SealedRequest → Outcome Error SealedRequest
  check_request public key request = do
    let binding = request.intent.binding
    hash ← intent_hash p w intents request.intent
    demand (hash == request.intent_sha256) invalid
    demand (is_int request.intent.version schema_version) invalid
    demand (binding.receiver_key_id == public.key_id) invalid
    demand (binding.receiver_public_key_sha256 == fingerprint p key) invalid
    result ← public_key_of p request.intent.result_public_key
    demand (fingerprint p result == binding.result_public_key_sha256) invalid
    secret ← decode32 p request.intent.comparison_secret
    demand (fingerprint p secret == binding.comparison_secret_sha256) invalid
    ok request

  -- OpenInput behind its look at the envelope.
  unfoldable pub open_ciphertext : RuntimePublic → Bytes → String → Outcome Error SealedRequest
  open_ciphertext public secret ciphertext = do
    sealed ← decode_ciphertext p ciphertext max_input_plaintext
    key ← public_key_of p public.public_key
    plain ← or_else (p.open_anonymous sealed key secret) invalid
    demand (leb (length plain) max_input_plaintext) invalid
    request ← decode_strict w p requests plain
    check_request public key request

  -- OpenInput, of a receiver that is there
  unfoldable pub open_input : Receiver → InputEnvelope → Outcome Error SealedRequest
  unfolding addressed
  open_input receiver input = do
    secret ← or_else receiver.secret invalid
    demand (addressed receiver.public input) invalid
    open_ciphertext receiver.public secret input.ciphertext

module _ (w : World) (p : Platform) (plains : Wire PlainOutput) where
  -- SealOutputWithConfirmation; SealOutput is the case without a confirmation
  unfoldable pub seal_output :
      SealedRequest → Bytes → Option Bytes → Option Bytes → Proof → Bytes → Outcome Error Output
  seal_output request legacy guard confirmation proof randomness = do
    key ← public_key_of p request.intent.result_public_key
    raw ←
        or_else
          (plains.marshal (record {
            version = pos schema_version;
            binding = request.intent.binding;
            intent_sha256 = request.intent_sha256;
            legacy_output = legacy;
            guard_observation = guard;
            guard_confirmation = confirmation;
          }))
          held
    demand (leb (length raw) max_output_plaintext) held
    sealed ← or_else (p.seal_anonymous raw key randomness) held
    ok (record {
      id =
          if request.intent.binding.purpose == "ensure"
          then request.intent.binding.audit_resource_id
          else "";
      privacy = record {
        version = pos schema_version;
        algorithm = algorithm_name;
        ciphertext = p.base64_encode sealed;
      };
      proof = proof;
    })

  -- OpenOutput, with keys that are there
  unfoldable pub open_output : Output → Bytes → Bytes → Outcome Error PlainOutput
  open_output output public secret = do
    demand (is_int output.privacy.version schema_version) invalid
    demand (output.privacy.algorithm == algorithm_name) invalid
    sealed ← decode_ciphertext p output.privacy.ciphertext max_output_plaintext
    raw ← or_else (p.open_anonymous sealed public secret) invalid
    demand (leb (length raw) max_output_plaintext) invalid
    plain ← decode_strict w p plains raw
    demand (is_int plain.version schema_version) invalid
    ok plain
