-- ===== src/Api/Boundary.antt =====
-- What crosses the confidential boundary of providers/efi/efiapi: which requests go out, and which
-- errors come back.
use integration_efi.Base.{
  ℕ, ◌≡◌, ◌≢◌, ◌<>◌, ◌⊎◌, inl, inr, refl, String, true, false, Option, none, some, List, [], ◌∷◌,
  Outcome, ok, err, arith, Option-cases, err_injective, ℤ,
}
use mathlib.Core.Path.{subst}
use integration_efi.Value.{Value}
use integration_efi.World.{
  World, Method, method_put, bearer, Request, sent, clock_read, published, History,
}
use integration_efi.Api.Errors.{
  Error, api, sentinel, request_failed, response_too_large, mutation_refused, mutation_accepted,
  as_api,
}
use integration_efi.Api.Sanitize.{new_api_error}
use integration_efi.Api.Effects.{Exec}
use integration_efi.Api.Confidential.{
  Context, confidential_mutation_allowed, mutation_request_context, safe_error,
  safe_confidential_error, refused_on_error,
}
use integration_efi.Api.Http.{Client, Decoder, do_request, do_inner, send}

-- The requests of a run, newest first.
unfoldable pub requests : History → List Request
requests [] = []
requests (sent req ∷ h) = req ∷ requests h
requests (clock_read ∷ h) = requests h
requests (published e r i v ∷ h) = requests h

-- The errors that may leave a confidential call: a status with texts of the adapter's own and of
-- net/http, or one of four fixed values. None holds a byte of the provider's.
abbrev pub IsClosed : World → Error → Type 0
IsClosed w e =
    ((status : ℕ) × (e ≡ api (new_api_error w status "provider_error")))
    ⊎ (e ≡ sentinel mutation_accepted)
    ⊎ (e ≡ sentinel response_too_large)
    ⊎ (e ≡ sentinel mutation_refused)
    ⊎ (e ≡ sentinel request_failed)

safe_error-IsClosed :
    (w : World) (ctx : Context) (e : Error)
    → ctx.confidential ≡ true
    → IsClosed w (safe_error w ctx e)
unfolding safe_error
safe_error-IsClosed w ctx e c = elim (Option-cases (as_api e)) [
  | inl other ↦ rw (c, other) (ground arith)
  | inr (a, found) ↦ rw (c, found) (inl (a.status, refl))
]

pub safe_confidential_error-IsClosed :
    {A : Type 0} (w : World) (ctx : Context) (r : Outcome Error A) (e : Error)
    → ctx.confidential ≡ true
    → safe_confidential_error w ctx r ≡ err e
    → IsClosed w e
unfolding safe_confidential_error
safe_confidential_error-IsClosed w ctx (ok a) e c h = cc
safe_confidential_error-IsClosed w ctx (err x) e c h =
    subst (IsClosed w) (err_injective h) (safe_error-IsClosed w ctx x c)

module _ (w : World) (ctx : Context) (c : Client) where
  module _ (method : Method) (path : String) (body : Option Value) (dest : Option Decoder)
      (headers : List (String × String)) where
    -- In a confidential context every error of a provider call is one of the closed set, whatever
    -- the provider, the network or a callback answered.
    pub do_request-IsClosed :
        (h : History) (e : Error)
        → ctx.confidential ≡ true
        → (do_request w ctx c method path body dest headers h).0 ≡ err e
        → IsClosed w e
    unfolding do_request
    do_request-IsClosed h e conf wrong =
        safe_confidential_error-IsClosed w ctx (do_inner w ctx c method path body dest headers h).0
          e conf wrong

  -- The two callbacks of the context do no provider I/O, as their documentation demands.
  pub record IsQuiet : Type 0 where
    pub guard_quiet :
        (check : Exec (Unit {0}))
        → ctx.guard ≡ some check
        → (h : History) → requests (check h).1 ≡ requests h
    pub timeout_quiet :
        (remaining : History → ℤ × History)
        → ctx.timeout ≡ some (some remaining)
        → (h : History) → requests (remaining h).1 ≡ requests h

  allowed-requests :
      IsQuiet
      → (method : Method) (h : History)
      → requests (confidential_mutation_allowed w ctx method h).1 ≡ requests h
  unfolding confidential_mutation_allowed
  allowed-requests q method h = elim (Option-cases ctx.guard) [
    | inl missing ↦ rw missing (ground arith)
    | inr (check, found) ↦ rw found (ground (arith, q.guard_quiet check found h))
  ]

  timed-requests :
      IsQuiet
      → (method : Method) (h : History)
      → requests (mutation_request_context w ctx method h).1 ≡ requests h
  unfolding mutation_request_context
  timed-requests q method h = elim (Option-cases ctx.timeout) [
    | inl missing ↦ rw missing (ground arith)
    | inr (none, found) ↦ rw found (ground arith)
    | inr (some remaining, found) ↦ rw found (ground (arith, q.timeout_quiet remaining found h))
  ]

  unfoldable pub request_of : Method → String → Option Value → List (String × String) → Request
  request_of method path body headers = record {
    method = method;
    url = c.base_url <> path;
    authorization = bearer c.token;
    body = body;
    headers = headers;
  }

  module _ (method : Method) (path : String) (body : Option Value) (dest : Option Decoder)
      (headers : List (String × String)) where
    do_inner-requests :
        IsQuiet
        → (h : History)
        → (requests (do_inner w ctx c method path body dest headers h).1 ≡ requests h)
          ⊎ (requests (do_inner w ctx c method path body dest headers h).1
              ≡ request_of method path body headers ∷ requests h)
    unfolding do_inner send requests request_of
    do_inner-requests q h =
        let h1 = (confidential_mutation_allowed w ctx method h).1 in
        ground (arith, allowed-requests q method h, timed-requests q method h1)

    do_inner-guarded :
        IsQuiet
        → (h : History) → ctx.confidential ≡ true
        → method ≡ method_put
        → requests (do_inner w ctx c method path body dest headers h).1 ≢ requests h
        → (check : Exec (Unit {0})) × (ctx.guard ≡ some check)
          × ((check h).0 ≡ ok tt)
          × (w.cancelled h ≡ false)
    unfolding do_inner confidential_mutation_allowed refused_on_error
    do_inner-guarded q h conf put moved = elim (Option-cases ctx.guard) [
      | inl missing ↦ absurd (moved (rw (missing, conf, put) (ground arith)))
      | inr (check, found) ↦ (
        check,
        found,
        ground (arith, q.guard_quiet check found h),
        ground (arith, q.guard_quiet check found h),
      )
    ]

    -- A provider call sends nothing or exactly one request, the one that its arguments name.
    pub do_request-requests :
        IsQuiet
        → (h : History)
        → (requests (do_request w ctx c method path body dest headers h).1 ≡ requests h)
          ⊎ (requests (do_request w ctx c method path body dest headers h).1
              ≡ request_of method path body headers ∷ requests h)
    unfolding do_request
    do_request-requests q h = do_inner-requests q h

    -- A confidential PUT that went out had a guard, which allowed it, in a context that was alive.
    pub do_request-guarded :
        IsQuiet
        → (h : History) → ctx.confidential ≡ true
        → method ≡ method_put
        → requests (do_request w ctx c method path body dest headers h).1 ≢ requests h
        → (check : Exec (Unit {0})) × (ctx.guard ≡ some check)
          × ((check h).0 ≡ ok tt)
          × (w.cancelled h ≡ false)
    unfolding do_request
    do_request-guarded q h conf put moved = do_inner-guarded q h conf put moved
