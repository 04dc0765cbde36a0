-- ===== src/Api/Sends.antt =====
-- Rules for what an action sends: nothing or one given request, or nothing but reads.
use integration_efi.Base.{
  ◌≡◌, ◌⊎◌, inl, inr, refl, String, Bool, true, false, Option, [], ◌∷◌, if◌then◌else◌,
}
use integration_efi.Value.{Value}
use integration_efi.World.{World, Method, method_get, Request, History}
use integration_efi.Api.Errors.{Error}
use integration_efi.Api.Effects.{Exec, raise, ◌>>=◌, within, require}
use integration_efi.Api.Confidential.{Context}
use integration_efi.Api.Http.{Client, Decoder, do_raw}
use integration_efi.Api.Boundary.{requests, request_of, IsQuiet, do_request-requests}

-- Nothing is sent, or exactly the one request.
abbrev pub SendsAtMost : {A : Type 0} → Exec A → Request → Type 0
SendsAtMost m req =
    (h : History) → (requests (m h).1 ≡ requests h) ⊎ (requests (m h).1 ≡ req ∷ requests h)

-- At most one request is sent, and it is a GET.
pub record Reads {A : Type 0} (m : Exec A) : Type 0 where
  pub at :
      (h : History)
      → (requests (m h).1 ≡ requests h)
        ⊎ ((req : Request) × (req.method ≡ method_get) × (requests (m h).1 ≡ req ∷ requests h))

module _ (w : World) (ctx : Context) (c : Client) where
  pub do_raw-SendsAtMost :
      IsQuiet w ctx c
      → (method : Method) (path : String) (body : Option Value) (dest : Option Decoder)
      → SendsAtMost (do_raw w ctx c method path body dest) (request_of w ctx c method path body [])
  unfolding do_raw
  do_raw-SendsAtMost q method path body dest h =
      do_request-requests w ctx c method path body dest [] q h

  pub do_raw-Reads :
      IsQuiet w ctx c
      → (path : String) (body : Option Value) (dest : Option Decoder)
      → Reads (do_raw w ctx c method_get path body dest)
  unfolding request_of
  do_raw-Reads q path body dest = record {
    at = λ h. elim (do_raw-SendsAtMost q method_get path body dest h) [
      | inl e ↦ inl e
      | inr e ↦ inr (request_of w ctx c method_get path body [], refl, e)
    ];
  }

module _ {A : Type 0} where
  pub within-SendsAtMost :
      (t : String) (m : Exec A) (req : Request) → SendsAtMost m req → SendsAtMost (within t m) req
  within-SendsAtMost t m req sends h = sends h

  pub within-Reads : (t : String) (m : Exec A) → Reads m → Reads (within t m)
  within-Reads t m r = record { at = r.at }

  pub raise-Reads : (e : Error) → Reads {A = A} (raise e)
  raise-Reads e = record { at = λ h. inl refl }

  pub if-Reads : (b : Bool) (m n : Exec A) → Reads m → Reads n → Reads (if b then m else n)
  if-Reads true m n km kn = km
  if-Reads false m n km kn = kn

pub require-SendsAtMost :
    {A : Type 0} (fine : Bool) (e : Error) (m : Exec A) (req : Request)
    → SendsAtMost m req
    → SendsAtMost (require fine e >>= λ _. m) req
require-SendsAtMost true e m req sends h = sends h
require-SendsAtMost false e m req sends h = inl refl

pub ruleset sending = (do_raw-SendsAtMost, within-SendsAtMost, require-SendsAtMost)

pub ruleset reading = (do_raw-Reads, within-Reads, raise-Reads, if-Reads)
