-- ===== src/Api/Effects.antt =====
-- Effectful code that may fail: the outcome, and the history with the new effects on top.
use integration_efi.Base.{◌≡◌, refl, String, Bool, true, false, Outcome, ok, err}
use integration_efi.World.{History}
use integration_efi.Api.Errors.{Error, wrap}

abbrev pub Exec : Type 0 → Type 0
Exec A = History → Outcome Error A × History

abbrev pub return : {A : Type 0} → A → Exec A
return a h = (ok a, h)

abbrev pub raise : {A : Type 0} → Error → Exec A
raise e h = (err e, h)

abbrev pub lift : {A : Type 0} → Outcome Error A → Exec A
lift r h = (r, h)

-- What follows a step: its continuation, or nothing after an error.
abbrev pub after :
    {A B : Type 0} → Outcome Error A × History → (A → Exec B) → Outcome Error B × History
after (ok a, h) f = f a h
after (err e, h) f = (err e, h)

infixl 5 ◌>>=◌ ◌>>◌
abbrev pub ◌>>=◌ : {A B : Type 0} → Exec A → (A → Exec B) → Exec B
◌>>=◌ m f h = after (m h) f

abbrev pub ◌>>◌ : {A B : Type 0} → Exec A → Exec B → Exec B
m >> k = m >>= λ _. k

-- fmt.Errorf("label: %w", err) around the error of a step
abbrev pub labelled : {A : Type 0} → String → Outcome Error A → Outcome Error A
labelled t (ok a) = ok a
labelled t (err e) = err (wrap t e)

abbrev pub within : {A : Type 0} → String → Exec A → Exec A
within t m h = let (r, h') = m h in (labelled t r, h')

-- An early return with an error.
abbrev pub require : Bool → Error → Exec (Unit {0})
require true e = return tt
require false e = raise e

-- What holds of the value and of the history whenever an action succeeds.
pub record Ensures {ℓ} {A : Type 0} (m : Exec A) (P : A → History → Type ℓ) : Type ℓ where
  pub at : (h : History) (a : A) → (m h).0 ≡ ok a → P a (m h).1

module _ {ℓ} {A B : Type 0} (P : B → History → Type ℓ) where
  after-Ensures :
      (p : Outcome Error A × History) (f : A → Exec B) (b : B)
      → ((a : A) → p.0 ≡ ok a → Ensures (f a) P)
      → (after p f).0 ≡ ok b
      → P b (after p f).1
  after-Ensures (ok a, h) f b k e = (k a refl).at h b e
  after-Ensures (err x, h) f b k e = cc

  -- The last step decides.
  pub bind-Ensures :
      (m : Exec A) (f : A → Exec B) → ((a : A) → Ensures (f a) P) → Ensures (m >>= f) P
  bind-Ensures m f k = record { at = λ h b e. after-Ensures (m h) f b (λ a _. k a) e }

  -- A pure check passes its result on.
  pub lift-Ensures :
      (r : Outcome Error A) (f : A → Exec B)
      → ((a : A) → r ≡ ok a → Ensures (f a) P)
      → Ensures (lift r >>= f) P
  lift-Ensures r f k = record { at = λ h b e. after-Ensures (r, h) f b k e }

module _ {ℓ} {A : Type 0} (P : A → History → Type ℓ) where
  labelled-Ensures : (t : String) (r : Outcome Error A) (a : A) → labelled t r ≡ ok a → r ≡ ok a
  labelled-Ensures t (ok b) a e = e
  labelled-Ensures t (err x) a e = cc

  pub within-Ensures : (t : String) (m : Exec A) → Ensures m P → Ensures (within t m) P
  within-Ensures t m k = record { at = λ h a e. k.at h a (labelled-Ensures t (m h).0 a e) }

pub require-eq-ok :
    {A : Type 0} (fine : Bool) (e : Error) (a b : A) (h : History)
    → ((require fine e >> return a) h).0 ≡ ok b
    → (fine ≡ true) × (((require fine e >> return a) h) ≡ (ok a, h))
require-eq-ok true e a b h p = (refl, refl)
require-eq-ok false e a b h p = cc

-- A sequence that ends in a value came through its first step.
pub after-eq-ok :
    {A B : Type 0} (x : Outcome Error A × History) (f : A → Exec B) (b : B) (h1 : History)
    → after x f ≡ (ok b, h1)
    → (a : A) × (h0 : History) × (x ≡ (ok a, h0)) × (f a h0 ≡ (ok b, h1))
after-eq-ok (ok a, h0) f b h1 e = (a, h0, refl, e)
after-eq-ok (err x, h0) f b h1 e = cc e
