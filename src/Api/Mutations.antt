-- ===== src/Api/Mutations.antt =====
-- Rules for what an action changes at the provider: the requests that are not GETs.
use integration_efi.Base.{
  ◌≡◌, ◌⊎◌, inl, refl, ◌∙◌, String, Bool, true, false, Option, List, [], ◌∷◌, Outcome, ok, err,
  arith, if◌then◌else◌,
}
use integration_efi.Value.{Value}
use integration_efi.World.{World, Method, method_get, Request, History}
use integration_efi.Api.Errors.{Error}
use integration_efi.Api.Effects.{Exec, raise, return, lift, after, ◌>>=◌, within, require}
use integration_efi.Api.Confidential.{Context}
use integration_efi.Api.Http.{Client, Decoder, do_raw}
use integration_efi.Api.Boundary.{requests, request_of, IsQuiet}
use integration_efi.Api.Sends.{do_raw-SendsAtMost}

abbrev pub is_get : Method → Bool
is_get method_get = true
is_get _ = false

-- The mutating requests among some, in their order.
unfoldable pub not_gets : List Request → List Request
not_gets [] = []
not_gets (r ∷ rs) = let rest = not_gets rs in if is_get r.method then rest else r ∷ rest

-- The mutating requests of a run, newest first.
abbrev pub mutations : History → List Request
mutations h = not_gets (requests h)

pub record Keeps {A : Type 0} (m : Exec A) : Type 0 where
  pub at : (h : History) → mutations (m h).1 ≡ mutations h

pub record MutatesAtMost {A : Type 0} (req : Request) (m : Exec A) : Type 0 where
  pub at :
      (h : History) → (mutations (m h).1 ≡ mutations h) ⊎ (mutations (m h).1 ≡ req ∷ mutations h)

module _ (w : World) (ctx : Context) (c : Client) where
  pub do_raw-Keeps :
      IsQuiet w ctx c
      → (path : String) (body : Option Value) (dest : Option Decoder)
      → Keeps (do_raw w ctx c method_get path body dest)
  unfolding not_gets request_of
  do_raw-Keeps q path body dest = record {
    at = λ h. ground (arith, do_raw-SendsAtMost w ctx c q method_get path body dest h);
  }

  pub do_raw-MutatesAtMost :
      IsQuiet w ctx c
      → (method : Method) (path : String) (body : Option Value) (dest : Option Decoder)
      → is_get method ≡ false
      → MutatesAtMost
          (request_of w ctx c method path body [])
          (do_raw w ctx c method path body dest)
  unfolding not_gets request_of
  do_raw-MutatesAtMost q method path body dest other = record {
    at = λ h. ground (arith, do_raw-SendsAtMost w ctx c q method path body dest h);
  }

module _ {A : Type 0} where
  pub within-Keeps : (t : String) (m : Exec A) → Keeps m → Keeps (within t m)
  within-Keeps t m k = record { at = k.at }

  pub within-MutatesAtMost :
      (t : String) (req : Request) (m : Exec A)
      → MutatesAtMost req m
      → MutatesAtMost req (within t m)
  within-MutatesAtMost t req m k = record { at = k.at }

  pub lift-Keeps : (r : Outcome Error A) → Keeps (lift r)
  lift-Keeps r = record { at = λ h. refl }

  pub return-Keeps : (a : A) → Keeps (return a)
  return-Keeps a = record { at = λ h. refl }

  pub raise-Keeps : (e : Error) → Keeps {A = A} (raise e)
  raise-Keeps e = record { at = λ h. refl }

  pub MutatesAtMost-of_Keeps : (req : Request) (m : Exec A) → Keeps m → MutatesAtMost req m
  MutatesAtMost-of_Keeps req m k = record { at = λ h. inl (k.at h) }

pub require-Keeps : (fine : Bool) (e : Error) → Keeps (require fine e)
require-Keeps true e = record { at = λ h. refl }
require-Keeps false e = record { at = λ h. refl }

module _ {A B : Type 0} where
  after-Keeps :
      (p : Outcome Error A × History) (f : A → Exec B)
      → ((a : A) → Keeps (f a))
      → mutations (after p f).1 ≡ mutations p.1
  after-Keeps (ok a, h) f k = (k a).at h
  after-Keeps (err e, h) f k = refl

  pub bind-Keeps :
      (m : Exec A) (f : A → Exec B) → Keeps m → ((a : A) → Keeps (f a)) → Keeps (m >>= f)
  bind-Keeps m f km kf = record { at = λ h. after-Keeps (m h) f kf ∙ km.at h }

  after-MutatesAtMost :
      (req : Request) (p : Outcome Error A × History) (f : A → Exec B)
      → ((a : A) → MutatesAtMost req (f a))
      → (mutations (after p f).1 ≡ mutations p.1) ⊎ (mutations (after p f).1 ≡ req ∷ mutations p.1)
  after-MutatesAtMost req (ok a, h) f k = (k a).at h
  after-MutatesAtMost req (err e, h) f k = inl refl

  -- A mutation behind a step that changes nothing.
  pub bind-MutatesAtMost :
      (req : Request) (m : Exec A) (f : A → Exec B)
      → Keeps m
      → ((a : A) → MutatesAtMost req (f a))
      → MutatesAtMost req (m >>= f)
  bind-MutatesAtMost req m f km kf = record {
    at = λ h. ground (arith, after-MutatesAtMost req (m h) f kf, km.at h);
  }

  -- A mutation before steps that change nothing.
  pub bind-MutatesAtMost_first :
      (req : Request) (m : Exec A) (f : A → Exec B)
      → MutatesAtMost req m
      → ((a : A) → Keeps (f a))
      → MutatesAtMost req (m >>= f)
  bind-MutatesAtMost_first req m f km kf = record {
    at = λ h. ground (arith, after-Keeps (m h) f kf, km.at h);
  }

pub ruleset keeping =
    (do_raw-Keeps, within-Keeps, lift-Keeps, return-Keeps, raise-Keeps, require-Keeps, bind-Keeps)
