-- ===== src/Process/Runtime.antt =====
-- cmd/adapter/public_runtime.go: the file with the receiver's public half, which is published at start and
-- printed by a command.
pub mod Atomic
pub mod Readable
use integration_efi.Base.{
  ℕ, ◌+◌, ◌*◌, String, Bool, true, false, ◌&&◌, ◌||◌, not, Option, none, some, List, [], ◌∷◌,
  Outcome, ok, err, ◌==◌, if◌then◌else◌, length, take, eqb, leb, ltb,
}
use integration_efi.World.{World}
use integration_efi.Confidential.Data.{Bytes, Platform, Wire, RuntimePublic}
use integration_efi.Confidential.Public.{decode_public}
use integration_efi.Process.Files.{
  Os, Files, Log, created, restricted, written, synced, closed, renamed, synced_directory, removed,
  ◌>>=◌, ◌>>◌, check, unless_failed,
}

-- confidentialRuntimeMax
abbrev pub confidential_runtime_max : ℕ
confidential_runtime_max = 4 * 1024

-- What a reader meets, in the order of its calls. A size is not negative.
pub record Stat : Type 0 where
  pub regular : Bool
  pub size : ℕ
  pub mod_time : ℕ
  pub file : ℕ  -- what os.SameFile compares

pub record Opened : Type 0 where
  pub directory_opens : Bool
  pub file_opens : Bool  -- relative to the directory, no symbolic link
  pub descriptor : Bool  -- os.NewFile
  pub before : Option Stat
  pub content : Option Bytes
  pub after : Option Stat

-- The checks of the first Stat.
abbrev pub stat_fits : Stat → Bool
stat_fits s = s.regular && not (eqb s.size 0) && leb s.size confidential_runtime_max

-- The two Stats are of one file that did not change while it was read.
abbrev pub unchanged : Stat → Stat → Bytes → Bool
unchanged a b raw =
    eqb a.file b.file && eqb a.size b.size && eqb a.mod_time b.mod_time && eqb (length raw) b.size

abbrev pub to_option : {A : Type 0} → Outcome A RuntimePublic → Option RuntimePublic
to_option (ok m) = some m
to_option (err e) = none

abbrev pub is_ok : {A : Type 0} → Outcome A RuntimePublic → Bool
is_ok (ok m) = true
is_ok (err e) = false

-- The error of this file is always errPublicRuntime, so none stands for it.
module _ (w : World) (p : Platform) (publics : Wire RuntimePublic) where
  -- The checks of what json.Marshal gave.
  abbrev pub checked_encoding : Option Bytes → Option Bytes
  checked_encoding none = none
  checked_encoding (some raw) =
      if eqb (length raw) 0 || ltb confidential_runtime_max (length raw)
      then none
      else if is_ok (decode_public p w publics raw)
      then some raw
      else none

  -- encodePublicRuntime
  unfoldable pub encode_public_runtime : RuntimePublic → Option Bytes
  encode_public_runtime metadata = checked_encoding (publics.marshal metadata)

  module _ (os : Os) (path : String) where
    abbrev directory : String
    directory = os.directory_of path

    -- The directory is there and is no symbolic link.
    unfoldable pub directory_fits : Log → Bool
    directory_fits h = elim (os.lstat h directory) [
      | none ↦ false
      | some (is_directory, is_link) ↦ is_directory && not is_link
    ]

    -- file.Write, which fails too where it wrote less than it was given
    unfoldable pub write_all : String → Bytes → Files (Unit {0})
    write_all name raw h =
        let (n, fine) = os.write h name raw in
        (if fine && eqb n (length raw) then some tt else none, written name (take n raw) ∷ h)

    -- The steps behind the creation of the temporary file.
    unfoldable pub fill_and_rename : String → Bytes → Files (Unit {0})
    unfolding write_all
    fill_and_rename name raw = do
      λ h. unless_failed (os.chmod h name) (restricted name) h
      write_all name raw
      λ h. unless_failed (os.sync h name) (synced name) h
      λ h. unless_failed (os.close h name) (closed name) h
      λ h. unless_failed (os.rename h name path) (renamed name path) h
      λ h. check (os.open_directory h directory) h
      λ h. unless_failed (os.sync_directory h directory) (synced_directory directory) h

    -- The deferred calls.
    abbrev cleaned : {A : Type 0} → String → Files A → Files A
    cleaned name m h = let (r, h') = m h in (r, removed name ∷ closed name ∷ h')

    -- publishPublicRuntime, behind the encoding
    unfoldable pub publish_bytes : Bytes → Files (Unit {0})
    publish_bytes raw h =
        if not (directory_fits h) then (none, h) else elim (os.create_temp h directory) [
          | none ↦ (none, h)
          | some name ↦ cleaned name (fill_and_rename name raw) (created name ∷ h)
        ]

    abbrev pub publish_encoded : Option Bytes → Files (Unit {0})
    publish_encoded none h = (none, h)
    publish_encoded (some raw) h = publish_bytes raw h

    -- publishPublicRuntime
    unfoldable pub publish_public_runtime : RuntimePublic → Files (Unit {0})
    publish_public_runtime metadata = publish_encoded (encode_public_runtime metadata)

  -- What is read, between the two Stats.
  unfoldable pub read_between : Option Stat → Option Bytes → Option Stat → Option RuntimePublic
  read_between (some before) (some content) (some after) =
      let raw = take (confidential_runtime_max + 1) content in
      if stat_fits before
        && not (eqb (length raw) 0)
        && leb (length raw) confidential_runtime_max
        && unchanged before after raw
      then to_option (decode_public p w publics raw)
      else none
  read_between _ _ _ = none

  -- readPublicRuntime
  unfoldable pub read_public_runtime : Opened → Option RuntimePublic
  read_public_runtime o =
      if o.directory_opens && o.file_opens && o.descriptor
      then read_between o.before o.content o.after
      else none
