-- ===== src/Confidential/Sealing.antt =====
-- What is sealed opens to what was sealed.
use integration_efi.Base.{
  ℕ, ◌+◌, ◌≤◌, ◌≡◌, refl, sym, ap, ◌∙◌, String, true, Option, some, ok, ◌==◌, eq_refl, leb, leb→le,
  arith, length, pos, ok_injective,
}
use mathlib.Core.Path.{subst}
use integration_efi.World.{World}
use integration_efi.Confidential.Data.{
  Bytes, Platform, Wire, schema_version, algorithm_name, max_input_plaintext, max_output_plaintext,
  anonymous_overhead, RuntimePublic, InputEnvelope, Intent, SealedRequest, Proof, Output,
  PlainOutput, demand-eq-ok, bind-eq-ok, or_else-eq-ok,
}
use integration_efi.Confidential.Strict.{IsReadable, decode_strict-IsReadable}
use integration_efi.Confidential.Codec.{
  Receiver, size, fingerprint, decode32, public_key_of, decode_ciphertext, intent_hash, seal_input,
  check_request, open_input, open_ciphertext, addressed, seal_output, open_output,
}

-- base64 reads back what it wrote, and a box opens with the secret of the key that it was sealed for.
pub record IsSealing (p : Platform) (key secret : Bytes) : Type 0 where
  pub decode_encode : (b : Bytes) → p.base64_decode (p.base64_encode b) ≡ some b
  pub encode_size : (b : Bytes) → size p (p.base64_encode b) ≡ p.encoded_len (length b)
  pub encoded_len_monotone : (m n : ℕ) → m ≤ n → p.encoded_len m ≤ p.encoded_len n
  pub sealed_length :
      (m r s : Bytes) → p.seal_anonymous m key r ≡ some s → length s ≡ length m + anonymous_overhead
  pub open_sealed :
      (m r s : Bytes) → p.seal_anonymous m key r ≡ some s → p.open_anonymous s key secret ≡ some m

module _ (p : Platform) (key secret : Bytes) (law : IsSealing p key secret) where
  decode_ciphertext-sealed :
      (m r s : Bytes) (maximum : ℕ)
      → p.seal_anonymous m key r ≡ some s
      → leb (length m) maximum ≡ true
      → decode_ciphertext p (p.base64_encode s) maximum ≡ ok s
  unfolding decode_ciphertext
  decode_ciphertext-sealed m r s maximum h short =
      let long : length s ≡ length m + anonymous_overhead = law.sealed_length m r s h in
      let bound : length m ≤ maximum = leb→le (length m) maximum short in
      let fits : length s ≤ maximum + anonymous_overhead = omega (arith, long, bound) in
      let encoded = law.encoded_len_monotone (length s) (maximum + anonymous_overhead) fits in
      let sized = law.encode_size s in
      ground (arith, sized, encoded, law.decode_encode s, fits, long, eq_refl (p.base64_encode s))

module _ (w : World) (p : Platform) (intents : Wire Intent) (requests : Wire SealedRequest) where
  -- What a seal of a request was made of.
  record IsSealOf (request : SealedRequest) (recipient : RuntimePublic) (randomness : Bytes)
      (input : InputEnvelope) : Type 0 where
    key : Bytes
    key_read : public_key_of p recipient.public_key ≡ ok key
    same_id : (request.intent.binding.receiver_key_id == recipient.key_id) ≡ true
    same_key : (request.intent.binding.receiver_public_key_sha256 == fingerprint p key) ≡ true
    hash : String
    hashed : intent_hash p w intents request.intent ≡ ok hash
    same_hash : (hash == request.intent_sha256) ≡ true
    raw : Bytes
    marshalled : requests.marshal request ≡ some raw
    short : leb (length raw) max_input_plaintext ≡ true
    sealed : Bytes
    boxed : p.seal_anonymous raw key randomness ≡ some sealed
    made :
        record {
          version = pos schema_version;
          algorithm = algorithm_name;
          recipient_key_id = recipient.key_id;
          ciphertext = p.base64_encode sealed;
        }
        ≡ input

  seal_input-IsSealOf :
      (request : SealedRequest) (recipient : RuntimePublic) (randomness : Bytes)
      (input : InputEnvelope)
      → seal_input w p intents requests request recipient randomness ≡ ok input
      → IsSealOf request recipient randomness input
  unfolding seal_input
  seal_input-IsSealOf request recipient randomness input h =
      let (key, key_read, h1) = bind-eq-ok _ _ _ h in
      let (same_id, h2) = demand-eq-ok _ _ _ _ h1 in
      let (same_key, h3) = demand-eq-ok _ _ _ _ h2 in
      let (hash, hashed, h4) = bind-eq-ok _ _ _ h3 in
      let (same_hash, h5) = demand-eq-ok _ _ _ _ h4 in
      let (raw, marshalled, h6) = or_else-eq-ok _ _ _ _ h5 in
      let (short, h7) = demand-eq-ok _ _ _ _ h6 in
      let (sealed, boxed, h8) = or_else-eq-ok _ _ _ _ h7 in
      record {
        key = key;
        key_read = key_read;
        same_id = same_id;
        same_key = same_key;
        hash = hash;
        hashed = hashed;
        same_hash = same_hash;
        raw = raw;
        marshalled = marshalled;
        short = short;
        sealed = sealed;
        boxed = boxed;
        made = ok_injective h8;
      }

  -- What the receiver asks of a request beside what its sealing checks.
  pub record IsAnswerable (request : SealedRequest) : Type 0 where
    pub current : request.intent.version ≡ pos schema_version
    pub result_key : Bytes
    pub result_read : public_key_of p request.intent.result_public_key ≡ ok result_key
    pub result_bound : fingerprint p result_key ≡ request.intent.binding.result_public_key_sha256
    pub comparison : Bytes
    pub comparison_read : decode32 p request.intent.comparison_secret ≡ ok comparison
    pub comparison_bound :
        fingerprint p comparison ≡ request.intent.binding.comparison_secret_sha256

  check_request-sealed :
      (public : RuntimePublic) (request : SealedRequest) (randomness : Bytes)
      (input : InputEnvelope)
      → IsAnswerable request
      → (s : IsSealOf request public randomness input)
      → check_request w p intents requests public s.key request ≡ ok request
  unfolding check_request
  check_request-sealed public request randomness input a s =
      rw
        (
          s.hashed,
          s.same_hash,
          a.current,
          s.same_id,
          s.same_key,
          a.result_read,
          a.result_bound,
          a.comparison_read,
          a.comparison_bound,
          eq_refl (request.intent.binding.result_public_key_sha256),
          eq_refl (request.intent.binding.comparison_secret_sha256),
        )
        refl

  -- A sealed request opens to itself: what SealInput made for the receiver's public half is read by
  -- OpenInput as the same request, provided that the request is one that the receiver can answer,
  -- that JSON reads it back, and that the receiver holds the secret of its key.
  pub open_input-seal_input :
      (receiver : Receiver) (key secret : Bytes)
      → IsSealing p key secret
      → public_key_of p receiver.public.public_key ≡ ok key
      → receiver.secret ≡ some secret
      → (request : SealedRequest) (randomness : Bytes) (input : InputEnvelope)
      → IsAnswerable request
      → ((raw : Bytes) → requests.marshal request ≡ some raw → IsReadable w p requests request raw)
      → seal_input w p intents requests request receiver.public randomness ≡ ok input
      → open_input w p intents requests receiver input ≡ ok request
  unfolding open_input addressed open_ciphertext
  open_input-seal_input receiver key secret law key_read held_secret request randomness input a
        readable h =
      let s = seal_input-IsSealOf request receiver.public randomness input h in
      let same : key ≡ s.key = ok_injective (sym key_read ∙ s.key_read) in
      let checked = check_request-sealed receiver.public request randomness input a s in
      let boxed : p.seal_anonymous s.raw key randomness ≡ some s.sealed =
        ap (λ k. p.seal_anonymous s.raw k randomness) same ∙ s.boxed in
      let opened =
        subst (λ k. p.open_anonymous s.sealed k secret ≡ some s.raw) same
          (law.open_sealed s.raw randomness s.sealed boxed) in
      let text =
        decode_ciphertext-sealed p key secret law s.raw randomness s.sealed max_input_plaintext
          boxed s.short in
      let read =
        decode_strict-IsReadable w p requests request s.raw (readable s.raw s.marshalled) in
      subst (λ i. open_input w p intents requests receiver i ≡ ok request) s.made
        (rw
          (
            held_secret,
            eq_refl receiver.public.key_id,
            text,
            s.key_read,
            opened,
            s.short,
            read,
            checked,
          )
          refl)

-- The plaintext of a result.
abbrev pub plain_of : SealedRequest → Bytes → Option Bytes → Option Bytes → PlainOutput
plain_of request legacy guard confirmation = record {
  version = pos schema_version;
  binding = request.intent.binding;
  intent_sha256 = request.intent_sha256;
  legacy_output = legacy;
  guard_observation = guard;
  guard_confirmation = confirmation;
}

module _ (w : World) (p : Platform) (plains : Wire PlainOutput) where
  -- A sealed result opens, with the secret of the request's result key, to the request's binding and
  -- hash and to the three observations that were sealed, provided that JSON reads them back.
  pub open_output-seal_output :
      (request : SealedRequest) (key secret : Bytes)
      → IsSealing p key secret
      → public_key_of p request.intent.result_public_key ≡ ok key
      → (legacy : Bytes) (guard confirmation : Option Bytes) (proof : Proof) (randomness : Bytes)
        (output : Output)
      → ((raw : Bytes)
          → plains.marshal (plain_of request legacy guard confirmation) ≡ some raw
          → IsReadable w p plains (plain_of request legacy guard confirmation) raw)
      → seal_output w p plains request legacy guard confirmation proof randomness ≡ ok output
      → open_output w p plains output key secret ≡ ok (plain_of request legacy guard confirmation)
  unfolding seal_output open_output
  open_output-seal_output request key secret law key_read legacy guard confirmation proof randomness
        output readable h =
      let (k, k_read, h1) = bind-eq-ok _ _ _ h in
      let (raw, marshalled, h2) = or_else-eq-ok _ _ _ _ h1 in
      let (short, h3) = demand-eq-ok _ _ _ _ h2 in
      let (sealed, boxed, h4) = or_else-eq-ok _ _ _ _ h3 in
      let same : k ≡ key = ok_injective (sym k_read ∙ key_read) in
      let boxed_here : p.seal_anonymous raw key randomness ≡ some sealed =
        subst (λ x. p.seal_anonymous raw x randomness ≡ some sealed) same boxed in
      let opened = law.open_sealed raw randomness sealed boxed_here in
      let text =
        decode_ciphertext-sealed p key secret law raw randomness sealed max_output_plaintext
          boxed_here short in
      let read =
        decode_strict-IsReadable w p plains (plain_of request legacy guard confirmation) raw
          (readable raw marshalled) in
      subst
        (λ o. open_output w p plains o key secret ≡ ok (plain_of request legacy guard confirmation))
        (ok_injective h4) (rw (text, opened, short, read) refl)
