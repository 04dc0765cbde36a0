-- ===== src/Confidential/Data.antt =====
-- providers/efi/confidential/types.go, and the functions of other packages that codec.go calls. A JSON
-- text and a box are bytes.
use integration_efi.Base.{
  ℕ, ◌*◌, ℤ, String, Bool, true, false, ◌&&◌, Option, none, some, List, [], ◌∷◌, Outcome, ok, err,
  eqb, ◌≡◌, refl,
}
use integration_efi.Api.{Error, sentinel}
use integration_efi.Api.Errors.{Sentinel}

abbrev pub Bytes : Type 0
Bytes = List ℕ

-- base64.StdEncoding, sha256, hex, hmac, ecdh.X25519, box, time and the generic half of encoding/json.
pub record Platform : Type 0 where
  pub utf8 : String → Bytes  -- []byte(s)
  pub base64_encode : Bytes → String
  pub base64_decode : String → Option Bytes  -- StdEncoding.Strict().DecodeString
  pub encoded_len : ℕ → ℕ
  pub sha256 : Bytes → Bytes
  pub hex_encode : Bytes → String
  pub hex_decode : String → Option Bytes
  pub hmac_sha256 : Bytes → Bytes → Bytes  -- the key and what is written
  pub is_public_key : Bytes → Bool  -- ecdh.X25519().NewPublicKey succeeds
  pub is_private_key : Bytes → Bool  -- ecdh.X25519().NewPrivateKey succeeds
  pub agrees : Bytes → Bytes → Bool  -- the private key's ECDH with the public key succeeds
  pub seal_anonymous : Bytes → Bytes → Bytes → Option Bytes  -- message, key, randomness
  pub open_anonymous : Bytes → Bytes → Bytes → Option Bytes  -- box, public key, private key
  pub canonical : Bytes → Option Bytes  -- Decode into an any with UseNumber, then json.Marshal
  pub format_rfc3339_nano : ℕ → String  -- UTC().Format(time.RFC3339Nano)

-- encoding/json at one type.
pub record Wire (A : Type 0) : Type 0 where
  pub marshal : A → Option Bytes
  pub decode : Bytes → Option A  -- with DisallowUnknownFields and UseNumber

abbrev pub schema_version : ℕ
schema_version = 1

abbrev pub algorithm_name : String
algorithm_name = "nacl-box-seal-anonymous-v1"

abbrev pub max_input_plaintext : ℕ
max_input_plaintext = 8 * 1024

abbrev pub max_output_plaintext : ℕ
max_output_plaintext = 512 * 1024

abbrev pub max_public_metadata : ℕ
max_public_metadata = 4096

abbrev pub key_tag_domain : String
key_tag_domain = "efi.webhook.confidential.key.v1"

abbrev pub url_tag_domain : String
url_tag_domain = "efi.webhook.confidential.url.v1"

-- box.AnonymousOverhead
abbrev pub anonymous_overhead : ℕ
anonymous_overhead = 48

pub record RuntimePublic : Type 0 where
  pub version : ℤ  -- SchemaVersion
  pub algorithm : String
  pub adapter_version : String
  pub key_id : String
  pub public_key : String

pub record InputEnvelope : Type 0 where
  pub version : ℤ
  pub algorithm : String
  pub recipient_key_id : String
  pub ciphertext : String

pub record Binding : Type 0 where
  pub source_root : String
  pub release_sha256 : String
  pub invocation_id : String
  pub mode : String
  pub workflow_id : String
  pub workflow_version : ℤ
  pub step_id : String
  pub operation : String
  pub purpose : String
  pub instance_name : String
  pub receiver_key_id : String
  pub receiver_public_key_sha256 : String
  pub result_public_key_sha256 : String
  pub comparison_secret_sha256 : String
  pub audit_resource_id : String
  pub issued_at : String
  pub expires_at : String

pub record Parameters : Type 0 where
  pub key : String
  pub canonical_base : String
  pub start : String
  pub stop : String  -- End
  pub page : ℤ
  pub page_size : ℤ
  pub before_state : String
  pub skip_mtls_validation : Bool

pub record Intent : Type 0 where
  pub version : ℤ
  pub binding : Binding
  pub parameters : Parameters
  pub result_public_key : String
  pub comparison_secret : String

pub record SealedRequest : Type 0 where  -- Request
  pub intent : Intent
  pub intent_sha256 : String

pub record Pagination : Type 0 where
  pub page : ℤ
  pub page_size : ℤ
  pub pages : ℤ
  pub total : ℤ

pub record PageParameters : Type 0 where
  pub start : String
  pub stop : String
  pub pagination : Pagination

pub record PageProvenance : Type 0 where
  pub version : ℤ
  pub validated : Bool
  pub complete : Bool

pub record Row : Type 0 where
  pub key_tag : String
  pub url_tag : String
  pub creation_valid : Bool

pub record Proof : Type 0 where
  pub version : ℤ
  pub kind : String
  pub outcome : String
  pub provider : String
  pub cursor : Option String
  pub parameters : Option PageParameters
  pub page_provenance : Option PageProvenance
  pub rows : Option (List Row)
  pub key_tag : String
  pub url_tag : String
  pub creation_valid : Option Bool
  pub ensured : Option Bool
  pub noop : Option Bool
  pub endpoint : String

pub record Privacy : Type 0 where
  pub version : ℤ
  pub algorithm : String
  pub ciphertext : String

pub record Output : Type 0 where
  pub id : String
  pub privacy : Privacy
  pub proof : Proof

pub record PlainOutput : Type 0 where
  pub version : ℤ
  pub binding : Binding
  pub intent_sha256 : String
  pub legacy_output : Bytes
  pub guard_observation : Option Bytes
  pub guard_confirmation : Option Bytes

-- Results of codec.go: a value, or one of its three errors.
infixl 5 ◌>>=◌ ◌>>◌
abbrev pub ◌>>=◌ : {A B : Type 0} → Outcome Error A → (A → Outcome Error B) → Outcome Error B
ok a >>= k = k a
err e >>= k = err e

abbrev pub ◌>>◌ : {A B : Type 0} → Outcome Error A → Outcome Error B → Outcome Error B
m >> k = m >>= λ _. k

abbrev pub demand : Bool → Sentinel → Outcome Error (Unit {0})
demand true s = ok tt
demand false s = err (sentinel s)

abbrev pub or_else : {A : Type 0} → Option A → Sentinel → Outcome Error A
or_else none s = err (sentinel s)
or_else (some a) s = ok a

-- bytes.Equal
abbrev pub eq_bytes : Bytes → Bytes → Bool
eq_bytes [] [] = true
eq_bytes (x ∷ xs) (y ∷ ys) = eqb x y && eq_bytes xs ys
eq_bytes _ _ = false

-- What a result that is a value says of the steps before it.
pub demand-eq-ok :
    {A : Type 0} (fine : Bool) (s : Sentinel) (m : Outcome Error A) (a : A)
    → (demand fine s >> m) ≡ ok a
    → (fine ≡ true) × (m ≡ ok a)
demand-eq-ok true s m a h = (refl, h)
demand-eq-ok false s m a h = cc

pub bind-eq-ok :
    {A B : Type 0} (m : Outcome Error A) (k : A → Outcome Error B) (b : B)
    → (m >>= k) ≡ ok b
    → (a : A) × (m ≡ ok a) × (k a ≡ ok b)
bind-eq-ok (ok a) k b h = (a, refl, h)
bind-eq-ok (err e) k b h = cc

pub or_else-eq-ok :
    {A B : Type 0} (o : Option A) (s : Sentinel) (k : A → Outcome Error B) (b : B)
    → (or_else o s >>= k) ≡ ok b
    → (a : A) × (o ≡ some a) × (k a ≡ ok b)
or_else-eq-ok (some a) s k b h = (a, refl, h)
or_else-eq-ok none s k b h = cc
