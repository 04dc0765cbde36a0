-- ===== src/Tests/Seals.antt =====
-- Examples for the sealed requests and results.
use integration_efi.Base.{◌≡◌, ◌↔◌, refl, true, false, none, some, [], ◌∷◌, ◌++◌, ok, pos}
use integration_efi.Confidential.Data.{Bytes, Proof, Output, PlainOutput}
use integration_efi.Confidential.Strict.{
  IsReadable, decode_strict, canonical_json, canonical_text, unique_value,
}
use integration_efi.Confidential.Time.{validate_time}
use integration_efi.Confidential.Codec.{
  public_key_of, decode32, seal_input, open_input, seal_output, open_output, check_request,
  decode_ciphertext, fingerprint, intent_hash, open_ciphertext,
}
use integration_efi.Confidential.Sealing.{
  IsAnswerable, open_input-seal_input, open_output-seal_output,
}
use integration_efi.Confidential.Bound.{IsBound, open_input-IsBound}
use integration_efi.Confidential.Window.{IsValid, validate_time-eq-ok_iff}
use integration_efi.Tests.{good, registered}
use integration_efi.Tests.Toy.{
  encode, zeros, toy, key_bytes, key_text, toy_law, receiver, binding, sealed_request,
  constant_wire, envelope,
}

key_read : public_key_of toy key_text ≡ ok key_bytes
unfolding public_key_of decode32
key_read = refl

answerable :
    IsAnswerable good toy
      (constant_wire sealed_request.intent)
      (constant_wire sealed_request)
      sealed_request
unfolding fingerprint decode32
answerable = record {
  current = refl;
  result_key = key_bytes;
  result_read = key_read;
  result_bound = refl;
  comparison = key_bytes;
  comparison_read = refl;
  comparison_bound = refl;
}

request-IsReadable :
    (raw : Bytes)
    → some (1 ∷ []) ≡ some raw
    → IsReadable good toy (constant_wire sealed_request) sealed_request raw
unfolding unique_value
request-IsReadable raw h = record {
  marshalled = h;
  document = registered;
  parsed = refl;
  unique = refl;
  decoded = refl;
  compact = raw;
  canonical_once = refl;
  canonical_twice = refl;
}

sealed :
    seal_input good toy
      (constant_wire sealed_request.intent)
      (constant_wire sealed_request)
      sealed_request
      receiver.public
      []
    ≡ ok envelope
unfolding seal_input public_key_of decode32 fingerprint intent_hash canonical_json
sealed = refl

open_input-seal_input_example :
    open_input good toy
      (constant_wire sealed_request.intent)
      (constant_wire sealed_request)
      receiver
      envelope
    ≡ ok sealed_request
open_input-seal_input_example =
    open_input-seal_input good toy (constant_wire sealed_request.intent)
      (constant_wire sealed_request) receiver key_bytes key_bytes toy_law key_read refl
      sealed_request [] envelope answerable request-IsReadable sealed

opened :
    open_input good toy
      (constant_wire sealed_request.intent)
      (constant_wire sealed_request)
      receiver
      envelope
    ≡ ok sealed_request
unfolding open_input open_ciphertext decode_ciphertext public_key_of decode32 decode_strict
    unique_value canonical_text canonical_json check_request intent_hash fingerprint
opened = refl

open_input-IsBound_example :
    IsBound good toy
      (constant_wire sealed_request.intent)
      (constant_wire sealed_request)
      receiver.public
      sealed_request
open_input-IsBound_example =
    open_input-IsBound good toy (constant_wire sealed_request.intent) (constant_wire sealed_request)
      receiver envelope sealed_request opened

abbrev bare_proof : Proof
bare_proof = record {
  version = pos 1;
  kind = "ensure";
  outcome = "confirmed";
  provider = "";
  cursor = none;
  parameters = none;
  page_provenance = none;
  rows = none;
  key_tag = "";
  url_tag = "";
  creation_valid = none;
  ensured = some true;
  noop = some false;
  endpoint = "v2";
}

abbrev pub output : Output
output = record {
  id = "";
  privacy = record {
    version = pos 1;
    algorithm = "nacl-box-seal-anonymous-v1";
    ciphertext = encode (zeros 48 ++ (1 ∷ []));
  };
  proof = bare_proof;
}

abbrev pub plain : PlainOutput
plain = record {
  version = pos 1;
  binding = binding;
  intent_sha256 = "digest";
  legacy_output = 2 ∷ [];
  guard_observation = none;
  guard_confirmation = none;
}

plain-IsReadable :
    (raw : Bytes) → some (1 ∷ []) ≡ some raw → IsReadable good toy (constant_wire plain) plain raw
unfolding unique_value
plain-IsReadable raw h = record {
  marshalled = h;
  document = registered;
  parsed = refl;
  unique = refl;
  decoded = refl;
  compact = raw;
  canonical_once = refl;
  canonical_twice = refl;
}

result_sealed :
    seal_output good toy (constant_wire plain) sealed_request (2 ∷ []) none none bare_proof []
    ≡ ok output
unfolding seal_output public_key_of decode32
result_sealed = refl

open_output-seal_output_example :
    open_output good toy (constant_wire plain) output key_bytes key_bytes ≡ ok plain
open_output-seal_output_example =
    open_output-seal_output good toy (constant_wire plain) sealed_request key_bytes key_bytes
      toy_law key_read (2 ∷ []) none none bare_proof [] output plain-IsReadable result_sealed

validate_time-eq-ok_iff_example :
    (validate_time good toy binding 1 false ≡ ok tt) ↔ IsValid good toy binding 1 false
validate_time-eq-ok_iff_example = validate_time-eq-ok_iff good toy binding 1 false
