-- ===== src/Process/Runtime/Atomic.antt =====
-- The publication is atomic, and what it leaves behind.
use integration_efi.Base.{
  take-length, ℕ, ◌≡◌, ◌⊎◌, inl, inr, refl, ap, String, Bool, false, ◌&&◌, Option, none, some, [],
  ◌∷◌, ◌==◌, if◌then◌else◌, length, take, eqb, eqb_iff, eq_refl, Bool-cases, Option-cases,
  and-eq-true,
}
use integration_efi.World.{World}
use integration_efi.Confidential.Data.{Bytes, Platform, Wire, RuntimePublic}
use integration_efi.Process.Files.{
  Os, Log, created, restricted, synced, closed, renamed, synced_directory, removed, holds,
}
use integration_efi.Process.Runtime.{
  encode_public_runtime, directory_fits, write_all, fill_and_rename, publish_bytes, publish_encoded,
  publish_public_runtime,
}
use integration_efi.Process.Walks.{
  Throughout, begins, goes_on, Walks, >>-Walks, unless_failed-Walks, check-Walks, last,
  Throughout-map,
}

-- A path holds what it held, or all of the new bytes.
abbrev pub IsWhole : String → (String → Option Bytes) → Bytes → Option Bytes → Log → Type 0
IsWhole path initial raw old h = (holds initial h path ≡ old) ⊎ (holds initial h path ≡ some raw)

module _ (w : World) (p : Platform) (publics : Wire RuntimePublic) (os : Os) (path : String)
    (initial : String → Option Bytes) (raw : Bytes) (old : Option Bytes) (name : String)
    (fresh : (name == path) ≡ false) where
  abbrev Whole : Log → Type 0
  Whole = IsWhole path initial raw old

  -- The target is untouched and the temporary file holds these bytes.
  abbrev Staged : Bytes → Log → Type 0
  Staged bytes h = (holds initial h path ≡ old) × (holds initial h name ≡ some bytes)

  abbrev IsPublished : Log → Type 0
  IsPublished h = holds initial h path ≡ some raw

  wrote :
      (fine : Bool) (n : ℕ)
      → Path (Option (Unit {0})) (if fine && eqb n (length raw) then some tt else none) (some tt)
      → take n raw ≡ raw
  wrote fine n done = elim (Bool-cases (fine && eqb n (length raw))) [
    | inl all ↦
        let same = (eqb_iff n (length raw)).0 (and-eq-true fine (eqb n (length raw)) all).1 in
        rw same (take-length raw)
    | inr short ↦ cc (rw short at done)
  ]

  write_all-Walks : Walks Whole (Staged []) (write_all w p publics os path name raw) (Staged raw)
  unfolding write_all holds
  write_all-Walks = record {
    goes = λ start h run before. goes_on run (inl (rw fresh before.0));
    ends = λ h u before done.
        let n = (os.write h name raw).0 in
        let whole = wrote (os.write h name raw).1 n done in
        (rw fresh before.0, rw (eq_refl name, before.1) (ap some whole));
  }

  fill_and_rename-Walks :
      Walks Whole (Staged []) (fill_and_rename w p publics os path name raw) IsPublished
  unfolding fill_and_rename holds
  fill_and_rename-Walks =
      >>-Walks Whole _ _ (Staged []) (Staged []) IsPublished
        (unless_failed-Walks Whole (λ h. os.chmod h name) (restricted name) (Staged []) (Staged [])
          (λ h s. (inl s.0, s)))
        (>>-Walks Whole _ _ (Staged []) (Staged raw) IsPublished write_all-Walks (
          >>-Walks Whole _ _ (Staged raw) (Staged raw) IsPublished
            (unless_failed-Walks Whole (λ h. os.sync h name) (synced name) (Staged raw) (Staged raw)
              (λ h s. (inl s.0, s)))
            (>>-Walks Whole _ _ (Staged raw) (Staged raw) IsPublished
              (unless_failed-Walks Whole (λ h. os.close h name) (closed name) (Staged raw)
                (Staged raw) (λ h s. (inl s.0, s)))
              (>>-Walks Whole _ _ (Staged raw) IsPublished IsPublished
                (unless_failed-Walks Whole (λ h. os.rename h name path) (renamed name path)
                  (Staged raw) IsPublished
                  (λ h s. (inr (rw (eq_refl path) s.1), rw (eq_refl path) s.1)))
                (>>-Walks Whole _ _ IsPublished IsPublished IsPublished
                  (check-Walks Whole (λ h. os.open_directory h (os.directory_of path)) IsPublished)
                  (unless_failed-Walks Whole (λ h. os.sync_directory h (os.directory_of path))
                    (synced_directory (os.directory_of path)) IsPublished IsPublished
                    (λ h s. (inr s, s))))))))

  -- The deferred calls touch the temporary file only.
  cleaned-IsWhole :
      (start : Log) (r : Option (Unit {0}) × Log)
      → Throughout Whole start r.1
      → Whole r.1
      → Throughout Whole start (removed name ∷ closed name ∷ r.1)
  unfolding holds
  cleaned-IsWhole start r run whole = goes_on (goes_on run whole) (rw fresh whole)

module _ (w : World) (p : Platform) (publics : Wire RuntimePublic) (os : Os) (path : String)
    (initial : String → Option Bytes)
    (fresh : (h : Log) (name : String)
      → os.create_temp h (os.directory_of path) ≡ some name
      → (name == path) ≡ false) where
  -- What the target holds at a point of a publication: what it held, or the new bytes, whole.
  abbrev pub IsOldOrNew : RuntimePublic → Log → Log → Type 0
  IsOldOrNew metadata start log =
      (holds initial log path ≡ holds initial start path)
      ⊎ ((raw : Bytes) × (encode_public_runtime w p publics metadata ≡ some raw)
          × (holds initial log path ≡ some raw))

  widen :
      (metadata : RuntimePublic) (raw : Bytes) (start log : Log)
      → encode_public_runtime w p publics metadata ≡ some raw
      → IsWhole path initial raw (holds initial start path) log
      → IsOldOrNew metadata start log
  widen metadata raw start log encoded (inl same) = inl same
  widen metadata raw start log encoded (inr new) = inr (raw, encoded, new)

  publish_named :
      (raw : Bytes) (h : Log) (name : String)
      → (name == path) ≡ false
      → let r = fill_and_rename w p publics os path name raw (created name ∷ h) in
        Throughout
          (IsWhole path initial raw (holds initial h path))
          h
          (removed name ∷ closed name ∷ r.1)
        × (r.0 ≡ some tt → holds initial (removed name ∷ closed name ∷ r.1) path ≡ some raw)
  unfolding holds
  publish_named raw h name new =
      let old = holds initial h path in
      let walk = fill_and_rename-Walks w p publics os path initial raw old name new in
      let staged : (holds initial (created name ∷ h) path ≡ old)
          × (holds initial (created name ∷ h) name ≡ some []) =
        (rw new refl, rw (eq_refl name) refl) in
      let run =
        walk.goes h (created name ∷ h) (goes_on (begins (inl refl)) (inl staged.0)) staged in
      (
        cleaned-IsWhole w p publics os path initial raw old name new h
            (fill_and_rename w p publics os path name raw (created name ∷ h)) run (last run),
        λ done. rw new (walk.ends (created name ∷ h) tt staged done),
      )

  abbrev IsGood : RuntimePublic → Log → Option (Unit {0}) × Log → Type 0
  IsGood metadata start r =
      Throughout (IsOldOrNew metadata start) start r.1
      × (r.0 ≡ some tt
          → (raw : Bytes) × (encode_public_runtime w p publics metadata ≡ some raw)
            × (holds initial r.1 path ≡ some raw))

  publish_bytes-IsGood :
      (metadata : RuntimePublic) (raw : Bytes) (h : Log)
      → encode_public_runtime w p publics metadata ≡ some raw
      → IsGood metadata h (publish_bytes w p publics os path raw h)
  unfolding publish_bytes
  publish_bytes-IsGood metadata raw h encoded =
      elim (Bool-cases (directory_fits w p publics os path h)) [
        | inl there ↦ elim (Option-cases (os.create_temp h (os.directory_of path))) [
          | inl failed ↦ rw (there, failed) (begins (inl refl), λ e. cc e)
          | inr (name, made) ↦
              let (run, held) = publish_named raw h name (fresh h name made) in
              rw (there, made)
                (
                  Throughout-map _ (IsOldOrNew metadata h) h _
                      (λ log. λ whole. widen metadata raw h log encoded whole) run,
                  λ done. (raw, encoded, held done),
                )
        ]
        | inr gone ↦ rw gone (begins (inl refl), λ e. cc e)
      ]

  publish_encoded-IsGood :
      (metadata : RuntimePublic) (h : Log) (o : Option Bytes)
      → encode_public_runtime w p publics metadata ≡ o
      → IsGood metadata h (publish_encoded w p publics os path o h)
  publish_encoded-IsGood metadata h none e = (begins (inl refl), λ done. cc done)
  publish_encoded-IsGood metadata h (some raw) e = publish_bytes-IsGood metadata raw h e

  publish-IsGood :
      (metadata : RuntimePublic) (h : Log)
      → IsGood metadata h (publish_public_runtime w p publics os path metadata h)
  unfolding publish_public_runtime
  publish-IsGood metadata h =
      publish_encoded-IsGood metadata h (encode_public_runtime w p publics metadata) refl

  -- A publication is atomic: at every point of it, also when a call fails, the file holds what it held
  -- before or all of the encoded metadata, if CreateTemp never chooses the name of the file itself.
  pub publish_public_runtime-IsOldOrNew :
      (metadata : RuntimePublic) (h : Log)
      → Throughout
          (IsOldOrNew metadata h)
          h
          (publish_public_runtime w p publics os path metadata h).1
  publish_public_runtime-IsOldOrNew metadata h = (publish-IsGood metadata h).0

  -- After a success the file holds the encoded metadata.
  pub publish_public_runtime-holds :
      (metadata : RuntimePublic) (h : Log)
      → (publish_public_runtime w p publics os path metadata h).0 ≡ some tt
      → (raw : Bytes) × (encode_public_runtime w p publics metadata ≡ some raw)
        × (holds initial (publish_public_runtime w p publics os path metadata h).1 path ≡ some raw)
  publish_public_runtime-holds metadata h = (publish-IsGood metadata h).1
