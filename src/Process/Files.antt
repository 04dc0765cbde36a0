-- ===== src/Process/Files.antt =====
-- What package os does for the runtime file of cmd/adapter/public_runtime.go: each call that changed
-- something is an event, and the answers of the calls are the environment's.
use integration_efi.Base.{
  ℕ, String, Bool, true, false, Option, none, some, List, [], ◌∷◌, ◌++◌, ◌==◌, if◌then◌else◌,
}
use integration_efi.Confidential.Data.{Bytes}

pub data FileEvent : Type 0 where
  created : String → FileEvent  -- CreateTemp, with the name that it chose
  restricted : String → FileEvent  -- Chmod(0o600)
  written : String → Bytes → FileEvent  -- the bytes that reached the file
  synced : String → FileEvent
  closed : String → FileEvent
  renamed : String → String → FileEvent
  synced_directory : String → FileEvent
  removed : String → FileEvent

-- Newest first.
abbrev pub Log : Type 0
Log = List FileEvent

-- An answer is a function of what happened, so that it may differ every time.
pub record Os : Type 0 where
  pub directory_of : String → String  -- filepath.Dir
  pub lstat : Log → String → Option (Bool × Bool)  -- whether it is a directory, and a symbolic link
  pub create_temp : Log → String → Option String
  pub chmod : Log → String → Bool
  pub write : Log → String → Bytes → ℕ × Bool  -- how many bytes, and whether there was no error
  pub sync : Log → String → Bool
  pub close : Log → String → Bool
  pub rename : Log → String → String → Bool
  pub open_directory : Log → String → Bool
  pub sync_directory : Log → String → Bool

-- Code that works on files and may fail, with one error.
abbrev pub Files : Type 0 → Type 0
Files A = Log → Option A × Log

abbrev pub then_files : {A B : Type 0} → Option A × Log → (A → Files B) → Option B × Log
then_files (none, h) f = (none, h)
then_files (some a, h) f = f a h

infixl 5 ◌>>=◌ ◌>>◌
abbrev pub ◌>>=◌ : {A B : Type 0} → Files A → (A → Files B) → Files B
◌>>=◌ m f h = then_files (m h) f

abbrev pub ◌>>◌ : {A B : Type 0} → Files A → Files B → Files B
m >> k = m >>= λ _. k

abbrev pub check : Bool → Files (Unit {0})
check true h = (some tt, h)
check false h = (none, h)

-- A call that changes nothing where it fails.
abbrev pub unless_failed : Bool → FileEvent → Files (Unit {0})
unless_failed true e h = (some tt, e ∷ h)
unless_failed false e h = (none, h)

-- What a file holds: documented behaviour of the calls, where a rename replaces its target at once.
unfoldable pub holds : (String → Option Bytes) → Log → String → Option Bytes
holds initial [] q = initial q
holds initial (created n ∷ h) q = let old = holds initial h q in if n == q then some [] else old
holds initial (written n bytes ∷ h) q =
    let old = holds initial h q in
    if n == q then elim old [ none ↦ none | some before ↦ some (before ++ bytes) ] else old
holds initial (renamed a b ∷ h) q =
    let moved = holds initial h a in
    let old = holds initial h q in if b == q then moved else if a == q then none else old
holds initial (removed n ∷ h) q = let old = holds initial h q in if n == q then none else old
holds initial (restricted n ∷ h) q = holds initial h q
holds initial (synced n ∷ h) q = holds initial h q
holds initial (closed n ∷ h) q = holds initial h q
holds initial (synced_directory n ∷ h) q = holds initial h q
