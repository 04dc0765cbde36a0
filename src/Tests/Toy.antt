-- ===== src/Tests/Toy.antt =====
-- A platform for the examples of sealed requests and results. Numbers are written in unary, a box is its
-- message behind 48 zeros, and a digest is one fixed text.
use integration_efi.Base.{
  ℕ, zero, suc, ◌≡◌, refl, String, true, false, none, some, [], ◌∷◌, ◌++◌, if◌then◌else◌, eqb, pos,
  length, arith,
}
use integration_efi.Confidential.Data.{Bytes, Platform, Wire, InputEnvelope, Binding, SealedRequest}
use integration_efi.Confidential.Codec.{Receiver}
use integration_efi.Confidential.Sealing.{IsSealing}
use integration_efi.Tests.Unary.{unary, decode_from, marks, decode_from-unary, marks-unary}

abbrev pub encode : Bytes → String
encode [] = ""
encode (n ∷ ns) = unary n (encode ns)

decode-encode : (ns : Bytes) → decode_from 0 (encode ns) ≡ some ns
decode-encode [] = refl
decode-encode (n ∷ ns) = ground (arith, decode_from-unary 0 n (encode ns), decode-encode ns)

marks-encode : (ns : Bytes) → length (marks (encode ns)) ≡ length ns
marks-encode [] = refl
marks-encode (n ∷ ns) = ground (arith, marks-unary n (encode ns), marks-encode ns)

abbrev pub zeros : ℕ → Bytes
zeros zero = []
zeros (suc n) = 0 ∷ zeros n

abbrev pub drop : ℕ → Bytes → Bytes
drop zero xs = xs
drop (suc n) [] = []
drop (suc n) (x ∷ xs) = drop n xs

abbrev pub toy : Platform
toy = record {
  utf8 = marks;
  base64_encode = encode;
  base64_decode = decode_from 0;
  encoded_len = λ n. n;
  sha256 = λ b. b;
  hex_encode = λ b. "digest";
  hex_decode = λ s. none;
  hmac_sha256 = λ k m. m;
  is_public_key = λ b. true;
  is_private_key = λ b. true;
  agrees = λ a b. true;
  seal_anonymous = λ m k r. some (zeros 48 ++ m);
  open_anonymous = λ s k secret. some (drop 48 s);
  canonical = λ raw. some raw;
  format_rfc3339_nano = λ t. if eqb t 1 then "a" else "ab";
}

abbrev pub key_bytes : Bytes
key_bytes = zeros 32

abbrev pub key_text : String
key_text = "bbbbbbbbbbbbbbbbbbbbbbbbbbbbbbbb"

pub toy_law : IsSealing toy key_bytes key_bytes
toy_law = record {
  decode_encode = decode-encode;
  encode_size = marks-encode;
  encoded_len_monotone = λ m n h. h;
  sealed_length = λ m r s h. ground (arith, h);
  open_sealed = λ m r s h. cc h;
}

abbrev pub receiver : Receiver
receiver = record {
  public = record {
    version = pos 1;
    algorithm = "nacl-box-seal-anonymous-v1";
    adapter_version = "1.0.0";
    key_id = "k1";
    public_key = key_text;
  };
  secret = some key_bytes;
}

-- Issued at 1 and over at 2; nothing else of it is read here.
abbrev pub binding : Binding
binding = record {
  source_root = "";
  release_sha256 = "";
  invocation_id = "";
  mode = "";
  workflow_id = "";
  workflow_version = pos 1;
  step_id = "";
  operation = "";
  purpose = "ensure";
  instance_name = "";
  receiver_key_id = "k1";
  receiver_public_key_sha256 = "digest";
  result_public_key_sha256 = "digest";
  comparison_secret_sha256 = "digest";
  audit_resource_id = "";
  issued_at = "a";
  expires_at = "ab";
}

abbrev pub sealed_request : SealedRequest
sealed_request = record {
  intent = record {
    version = pos 1;
    binding = binding;
    parameters = record {
      key = "";
      canonical_base = "";
      start = "";
      stop = "";
      page = pos 0;
      page_size = pos 1;
      before_state = "absent";
      skip_mtls_validation = false;
    };
    result_public_key = key_text;
    comparison_secret = key_text;
  };
  intent_sha256 = "digest";
}

abbrev pub constant_wire : {A : Type 0} → A → Wire A
constant_wire a = record { marshal = λ x. some (1 ∷ []); decode = λ raw. some a }

abbrev pub envelope : InputEnvelope
envelope = record {
  version = pos 1;
  algorithm = "nacl-box-seal-anonymous-v1";
  recipient_key_id = "k1";
  ciphertext = encode (zeros 48 ++ (1 ∷ []));
}
