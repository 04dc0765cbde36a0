-- ===== src/Process/Walks.antt =====
-- Rules for what holds at every point of a run over files, and at its end.
use integration_efi.Base.{◌≡◌, refl, Bool, true, false, Option, none, some, ◌∷◌}
use integration_efi.Process.Files.{FileEvent, Files, Log, ◌>>◌, check, unless_failed, then_files}

-- P holds at each point of a run that began at a log.
pub data Throughout (P : Log → Type 0) (start : Log) : Log → Type 0 where
  begins : P start → Throughout P start start
  goes_on :
      {h : Log} {e : FileEvent} → Throughout P start h → P (e ∷ h) → Throughout P start (e ∷ h)

-- From a log of the run, the code only goes to logs with P, and leaves `After` where it succeeds.
pub record Walks {A : Type 0} (P : Log → Type 0) (Before : Log → Type 0) (m : Files A)
    (After : Log → Type 0) : Type 0 where
  pub goes : (start h : Log) → Throughout P start h → Before h → Throughout P start (m h).1
  pub ends : (h : Log) (a : A) → Before h → (m h).0 ≡ some a → After (m h).1

module _ (P : Log → Type 0) where
  then_files-goes :
      {A B : Type 0} (x : Option A × Log) (k : Files B) (S T : Log → Type 0) (start : Log)
      → Throughout P start x.1
      → ((a : A) → x.0 ≡ some a → S x.1)
      → Walks P S k T
      → Throughout P start (then_files x (λ _. k)).1
  then_files-goes (none, h) k S T start run s second = run
  then_files-goes (some a, h) k S T start run s second = second.goes start h run (s a refl)

  then_files-ends :
      {A B : Type 0} (x : Option A × Log) (k : Files B) (S T : Log → Type 0) (b : B)
      → ((a : A) → x.0 ≡ some a → S x.1)
      → Walks P S k T
      → (then_files x (λ _. k)).0 ≡ some b
      → T (then_files x (λ _. k)).1
  then_files-ends (none, h) k S T b s second e = cc e
  then_files-ends (some a, h) k S T b s second e = second.ends h b (s a refl) e

  pub >>-Walks :
      {A B : Type 0} (m : Files A) (k : Files B) (R S T : Log → Type 0)
      → Walks P R m S
      → Walks P S k T
      → Walks P R (m >> k) T
  >>-Walks m k R S T first second = record {
    goes = λ start h run before.
        then_files-goes (m h) k S T start (first.goes start h run before)
          (λ a e. first.ends h a before e) second;
    ends = λ h b before e. then_files-ends (m h) k S T b (λ a e. first.ends h a before e) second e;
  }

  unless-goes :
      (fine : Bool) (e : FileEvent) (start h : Log)
      → Throughout P start h
      → P (e ∷ h)
      → Throughout P start (unless_failed fine e h).1
  unless-goes true e start h run here = goes_on run here
  unless-goes false e start h run here = run

  unless-ends :
      (fine : Bool) (e : FileEvent) (S : Log → Type 0) (h : Log) (u : Unit {0})
      → S (e ∷ h)
      → (unless_failed fine e h).0 ≡ some u
      → S (unless_failed fine e h).1
  unless-ends true e S h u s ok_ = s
  unless-ends false e S h u s ok_ = cc ok_

  -- A call that changes nothing where it fails.
  pub unless_failed-Walks :
      (fine : Log → Bool) (e : FileEvent) (R S : Log → Type 0)
      → ((h : Log) → R h → P (e ∷ h) × S (e ∷ h))
      → Walks P R (λ h. unless_failed (fine h) e h) S
  unless_failed-Walks fine e R S step = record {
    goes = λ start h run before. unless-goes (fine h) e start h run (step h before).0;
    ends = λ h u before done. unless-ends (fine h) e S h u (step h before).1 done;
  }

  check-goes :
      (fine : Bool) (start h : Log) → Throughout P start h → Throughout P start (check fine h).1
  check-goes true start h run = run
  check-goes false start h run = run

  check-ends : (fine : Bool) (S : Log → Type 0) (h : Log) → S h → S (check fine h).1
  check-ends true S h s = s
  check-ends false S h s = s

  pub check-Walks : (fine : Log → Bool) (R : Log → Type 0) → Walks P R (λ h. check (fine h) h) R
  check-Walks fine R = record {
    goes = λ start h run before. check-goes (fine h) start h run;
    ends = λ h u before done. check-ends (fine h) R h before;
  }

-- The last point of a run.
module _ {P : Log → Type 0} where
  pub last : {start h : Log} → Throughout P start h → P h
  last (begins here) = here
  last (goes_on run here) = here

pub Throughout-map :
    (P Q : Log → Type 0) (start h : Log)
    → ((log : Log) → P log → Q log)
    → Throughout P start h
    → Throughout Q start h
Throughout-map P Q start h f (begins here) = begins (f start here)
Throughout-map P Q start h f (goes_on run here) =
    goes_on (Throughout-map P Q start _ f run) (f h here)
