-- ===== src/Process/Runtime/Readable.antt =====
-- What a process publishes, its reader prints.
use integration_efi.Base.{
  ℕ, zero, suc, ◌+◌, ◌≤◌, some_injective, ◌≡◌, refl, ap, sym, ◌∙◌, String, Bool, true, false, ◌&&◌,
  ◌||◌, Option, none, some, [], ◌∷◌, Outcome, ok, err, ◌==◌, if◌then◌else◌, length, take, eqb, ltb,
  arith,
}
use mathlib.Core.Path.{subst}
use integration_efi.World.{World}
use integration_efi.Api.{Error}
use integration_efi.Confidential.Data.{Bytes, Platform, Wire, RuntimePublic}
use integration_efi.Confidential.Public.{decode_public}
use integration_efi.Process.Files.{Os, Log, holds}
use integration_efi.Process.Runtime.{
  checked_encoding, Stat, Opened, is_ok, to_option, confidential_runtime_max, encode_public_runtime,
  publish_public_runtime, read_between, read_public_runtime,
}
use integration_efi.Process.Runtime.Atomic.{publish_public_runtime-holds}

-- A reader that meets a regular file with these bytes, which does not change while it is read.
pub record IsShown (o : Opened) (held : Option Bytes) : Type 0 where
  pub opens : (o.directory_opens && o.file_opens && o.descriptor) ≡ true
  pub stat : Stat
  pub before : o.before ≡ some stat
  pub after : o.after ≡ some stat
  pub regular : stat.regular ≡ true
  pub raw : Bytes
  pub held_bytes : held ≡ some raw
  pub content : o.content ≡ some raw
  pub measured : stat.size ≡ length raw

take-all : (n : ℕ) (xs : Bytes) → length xs ≤ n → take n xs ≡ xs
take-all zero [] h = refl
take-all (suc n) [] h = refl
take-all zero (x ∷ xs) h = absurd (omega arith)
take-all (suc n) (x ∷ xs) h = ap (λ ys. x ∷ ys) (take-all n xs (omega arith))

module _ (w : World) (p : Platform) (publics : Wire RuntimePublic) where
  -- What is encoded is not empty, short, and decodes.
  record IsEncoded (metadata : RuntimePublic) (raw : Bytes) : Type 0 where
    marshalled : publics.marshal metadata ≡ some raw
    nonempty : eqb (length raw) 0 ≡ false
    large : ltb confidential_runtime_max (length raw) ≡ false
    decodes : is_ok (decode_public p w publics raw) ≡ true

  -- A short text that decodes is what the checks pass on.
  passed :
      (raw : Bytes) (empty large good : Bool) (out : Bytes)
      → (if empty || large then none else if good then some raw else none) ≡ some out
      → (empty ≡ false) × (large ≡ false) × (good ≡ true) × (raw ≡ out)
  passed raw true large good out e = cc e
  passed raw false true good out e = cc e
  passed raw false false false out e = cc e
  passed raw false false true out e = (refl, refl, refl, some_injective e)

  checked-IsEncoded :
      (metadata : RuntimePublic) (o : Option Bytes) (raw : Bytes)
      → publics.marshal metadata ≡ o
      → checked_encoding w p publics o ≡ some raw
      → IsEncoded metadata raw
  checked-IsEncoded metadata none raw m e = cc e
  checked-IsEncoded metadata (some b) raw m e =
      let (empty, large, good, same) =
        passed b (eqb (length b) 0) (ltb confidential_runtime_max (length b))
          (is_ok (decode_public p w publics b)) raw e in
      subst (IsEncoded metadata) same
        (record { marshalled = m; nonempty = empty; large = large; decodes = good })

  encode-IsEncoded :
      (metadata : RuntimePublic) (raw : Bytes)
      → encode_public_runtime w p publics metadata ≡ some raw
      → IsEncoded metadata raw
  unfolding encode_public_runtime
  encode-IsEncoded metadata raw e = checked-IsEncoded metadata (publics.marshal metadata) raw refl e

  -- An unchanged regular file of a fitting size is decoded.
  read_between-unchanged :
      (stat : Stat) (raw : Bytes)
      → stat.regular ≡ true
      → stat.size ≡ length raw
      → eqb (length raw) 0 ≡ false
      → ltb confidential_runtime_max (length raw) ≡ false
      → read_between w p publics (some stat) (some raw) (some stat)
        ≡ to_option (decode_public p w publics raw)
  unfolding read_between
  read_between-unchanged stat raw regular measured nonempty large =
      rw (take-all (confidential_runtime_max + 1) raw (ground (arith, large)))
        (ground (arith, regular, measured, nonempty, large))

  read-shown :
      (o : Opened) (metadata : RuntimePublic) (held : Option Bytes) (s : IsShown o held)
      → IsEncoded metadata s.raw
      → read_public_runtime w p publics o ≡ to_option (decode_public p w publics s.raw)
  unfolding read_public_runtime
  read-shown o metadata held s e =
      rw (s.opens, s.before, s.after, s.content)
        (read_between-unchanged s.stat s.raw s.regular s.measured e.nonempty e.large)

  decoded :
      (raw : Bytes) (metadata : RuntimePublic) (r : Outcome Error RuntimePublic)
      → decode_public p w publics raw ≡ r
      → is_ok r ≡ true
      → ((m : RuntimePublic) → decode_public p w publics raw ≡ ok m → m ≡ metadata)
      → to_option r ≡ some metadata
  decoded raw metadata (ok m) e fine same = ap some (same m e)
  decoded raw metadata (err x) e fine same = cc fine

  -- What a process publishes, its reader gets: after a successful publication, a reader that meets the file
  -- as it was left, a regular one that does not change, gets the metadata, if JSON reads back only what it
  -- wrote and CreateTemp never chooses the name of the file itself.
  pub read_public_runtime-publish_public_runtime :
      (os : Os) (path : String) (initial : String → Option Bytes) (metadata : RuntimePublic)
      (h : Log) (o : Opened)
      → ((log : Log) (name : String)
          → os.create_temp log (os.directory_of path) ≡ some name
          → (name == path) ≡ false)
      → ((raw : Bytes) (m : RuntimePublic)
          → publics.marshal metadata ≡ some raw
          → decode_public p w publics raw ≡ ok m
          → m ≡ metadata)
      → (publish_public_runtime w p publics os path metadata h).0 ≡ some tt
      → IsShown o (holds initial (publish_public_runtime w p publics os path metadata h).1 path)
      → read_public_runtime w p publics o ≡ some metadata
  read_public_runtime-publish_public_runtime os path initial metadata h o fresh reads_back done s =
      let (raw, encoded, held) =
        publish_public_runtime-holds w p publics os path initial fresh metadata h done in
      let same : s.raw ≡ raw = some_injective (sym s.held_bytes ∙ held) in
      let e = encode-IsEncoded metadata s.raw (encoded ∙ ap some (sym same)) in
      read-shown o metadata _ s e
      ∙ decoded s.raw metadata (decode_public p w publics s.raw) refl e.decodes
          (λ m. reads_back s.raw m e.marshalled)
