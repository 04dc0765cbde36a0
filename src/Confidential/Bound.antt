-- ===== src/Confidential/Bound.antt =====
-- What an opened request is bound to.
use integration_efi.Base.{◌≡◌, ap, ◌∙◌, ok_injective, String, true, ok, ◌==◌, eq_iff, leb, length}
use mathlib.Core.Path.{subst}
use integration_efi.World.{World}
use integration_efi.Api.Errors.{invalid}
use integration_efi.Confidential.Data.{
  Bytes, Platform, Wire, max_input_plaintext, InputEnvelope, Intent, SealedRequest, demand-eq-ok,
  bind-eq-ok, or_else-eq-ok, RuntimePublic,
}
use integration_efi.Confidential.Strict.{decode_strict}
use integration_efi.Confidential.Codec.{
  Receiver, decode_ciphertext, fingerprint, decode32, public_key_of, intent_hash, check_request,
  open_input, open_ciphertext, addressed,
}

module _ (w : World) (p : Platform) (intents : Wire Intent) (requests : Wire SealedRequest) where
  -- A request that names the receiver's key, its own hash, the key of its result and the secret of its
  -- tags, each by the digest of what it holds.
  pub record IsBound (public : RuntimePublic) (request : SealedRequest) : Type 0 where
    pub hashed : intent_hash p w intents request.intent ≡ ok request.intent_sha256
    pub receiver_id : request.intent.binding.receiver_key_id ≡ public.key_id
    pub receiver_key : Bytes
    pub receiver_read : public_key_of p public.public_key ≡ ok receiver_key
    pub receiver_bound :
        request.intent.binding.receiver_public_key_sha256 ≡ fingerprint p receiver_key
    pub result_key : Bytes
    pub result_read : public_key_of p request.intent.result_public_key ≡ ok result_key
    pub result_bound : fingerprint p result_key ≡ request.intent.binding.result_public_key_sha256
    pub comparison : Bytes
    pub comparison_read : decode32 p request.intent.comparison_secret ≡ ok comparison
    pub comparison_bound :
        fingerprint p comparison ≡ request.intent.binding.comparison_secret_sha256

  same_text : (s t : String) → (s == t) ≡ true → s ≡ t
  same_text s t h = (eq_iff s t).0 h

  check_request-IsBound :
      (public : RuntimePublic) (key : Bytes) (request opened : SealedRequest)
      → public_key_of p public.public_key ≡ ok key
      → check_request w p intents requests public key request ≡ ok opened
      → IsBound public opened
  unfolding check_request
  check_request-IsBound public key request opened key_read h =
      let (hash, hashed, h1) = bind-eq-ok _ _ _ h in
      let (same_hash, h2) = demand-eq-ok _ _ _ _ h1 in
      let (current, h3) = demand-eq-ok _ _ _ _ h2 in
      let (same_id, h4) = demand-eq-ok _ _ _ _ h3 in
      let (same_key, h5) = demand-eq-ok _ _ _ _ h4 in
      let (result, result_read, h6) = bind-eq-ok _ _ _ h5 in
      let (same_result, h7) = demand-eq-ok _ _ _ _ h6 in
      let (secret, secret_read, h8) = bind-eq-ok _ _ _ h7 in
      let (same_secret, h9) = demand-eq-ok _ _ _ _ h8 in
      subst (IsBound public) (ok_injective h9) (record {
        hashed = hashed ∙ ap ok (same_text _ _ same_hash);
        receiver_id = same_text _ _ same_id;
        receiver_key = key;
        receiver_read = key_read;
        receiver_bound = same_text _ _ same_key;
        result_key = result;
        result_read = result_read;
        result_bound = same_text _ _ same_result;
        comparison = secret;
        comparison_read = secret_read;
        comparison_bound = same_text _ _ same_secret;
      })

  open_ciphertext-IsBound :
      (public : RuntimePublic) (secret : Bytes) (ciphertext : String) (request : SealedRequest)
      → open_ciphertext w p intents requests public secret ciphertext ≡ ok request
      → IsBound public request
  unfolding open_ciphertext
  open_ciphertext-IsBound public secret ciphertext request h =
      let (sealed, text, h8) =
        bind-eq-ok (decode_ciphertext p ciphertext max_input_plaintext) _ _ h in
      let (key, key_read, h9) = bind-eq-ok (public_key_of p public.public_key) _ _ h8 in
      let (plain, opened, h10) =
        or_else-eq-ok (p.open_anonymous sealed key secret) invalid _ _ h9 in
      let (short, h11) = demand-eq-ok (leb (length plain) max_input_plaintext) invalid _ _ h10 in
      let (decoded, read, h12) = bind-eq-ok (decode_strict w p requests plain) _ _ h11 in
      check_request-IsBound public key decoded request key_read h12

  -- Whatever ciphertext comes in, a request that OpenInput accepts is bound to this receiver: it
  -- carries the receiver's key id and the digest of its key, the hash of its own intent, and the digests
  -- of its result key and of its comparison secret, both of which decode.
  pub open_input-IsBound :
      (receiver : Receiver) (input : InputEnvelope) (request : SealedRequest)
      → open_input w p intents requests receiver input ≡ ok request
      → IsBound receiver.public request
  unfolding open_input
  open_input-IsBound receiver input request h =
      let (secret, held_secret, h1) = or_else-eq-ok receiver.secret invalid _ _ h in
      let (sent_here, h7) = demand-eq-ok (addressed receiver.public input) invalid _ _ h1 in
      open_ciphertext-IsBound receiver.public secret input.ciphertext request h7
