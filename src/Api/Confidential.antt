-- ===== src/Api/Confidential.antt =====
-- providers/efi/efiapi/confidential.go: what a context carries across the provider boundary, and
-- the checks that stand before a confidential PUT and behind every response.
use integration_efi.Base.{
  ℕ, ◌*◌, String, Bool, true, false, ◌&&◌, ◌||◌, not, Option, none, some, List, Outcome, ok, err,
  ltb, leb, if◌then◌else◌, ℤ, pos, negsuc, take, length,
}
use integration_efi.World.{World, Method, method_put, History}
use integration_efi.Api.Errors.{
  Error, api, sentinel, plain, request_failed, response_too_large, mutation_refused,
  mutation_accepted, as_api, is_sentinel,
}
use integration_efi.Api.Sanitize.{new_api_error}
use integration_efi.Api.Effects.{Exec, return, raise}

pub record Context : Type 0 where
  pub confidential : Bool  -- confidentialDiagnosticsKey
  pub guard : Option (Exec (Unit {0}))  -- mutationGuardKey, none for a missing or nil one
  pub timeout : Option (Option (History → ℤ × History))  -- mutationTimeoutKey, or its nil callback

-- context.Background()
abbrev pub background : Context
background = record { confidential = false; guard = none; timeout = none }

abbrev pub is_put : Method → Bool
is_put method_put = true
is_put _ = false

-- MaxConfidentialResponseBytes, and the limit of the legacy path
abbrev pub max_confidential_response_bytes : ℕ
max_confidential_response_bytes = 512 * 1024

abbrev pub max_response_bytes : ℕ
max_response_bytes = 1024 * 1024

-- 5*time.Minute + 30*time.Second, in nanoseconds
abbrev pub max_send_time : ℕ
max_send_time = 330 * 1000000000

-- MutationSucceeded
abbrev pub mutation_succeeded : Error → Bool
mutation_succeeded e = is_sentinel mutation_accepted e

-- An error of a guard is replaced, whatever it was.
unfoldable pub refused_on_error : Outcome Error (Unit {0}) → Outcome Error (Unit {0})
refused_on_error (ok u) = ok tt
refused_on_error (err e) = err (sentinel mutation_refused)

abbrev pub in_send_time : ℤ → Bool
in_send_time (pos n) = ltb 0 n && leb n max_send_time
in_send_time (negsuc n) = false

module _ (w : World) where
  unfoldable pub confidential_mutation_allowed : Context → Method → Exec (Unit {0})
  unfolding refused_on_error
  confidential_mutation_allowed ctx method h =
      if not ctx.confidential || not (is_put method) then (ok tt, h) else elim ctx.guard [
        | none ↦ (err (sentinel mutation_refused), h)
        | some check ↦
            if w.cancelled h
            then (err (sentinel mutation_refused), h)
            else let (r, h') = check h in (refused_on_error r, h')
      ]

  -- The context that it returns only bounds the request, which is the environment's answer.
  unfoldable pub mutation_request_context : Context → Method → Exec (Unit {0})
  mutation_request_context ctx method =
      if not ctx.confidential || not (is_put method) then return tt else elim ctx.timeout [
        | none ↦ return tt
        | some none ↦ raise (sentinel mutation_refused)
        | some (some remaining) ↦ λ h.
            let (duration, h') = remaining h in
            if in_send_time duration then return tt h' else raise (sentinel mutation_refused) h'
      ]

  -- safeConfidentialError, on an error that is there
  unfoldable pub safe_error : Context → Error → Error
  safe_error ctx e = if not ctx.confidential then e else elim (as_api e) [
    | some a ↦ api (new_api_error w a.status "provider_error")
    | none ↦
        if mutation_succeeded e
        then sentinel mutation_accepted
        else if is_sentinel response_too_large e
        then sentinel response_too_large
        else if is_sentinel mutation_refused e
        then sentinel mutation_refused
        else sentinel request_failed
  ]

  unfoldable pub safe_confidential_error :
      {A : Type 0} → Context → Outcome Error A → Outcome Error A
  unfolding safe_error
  safe_confidential_error ctx (ok a) = ok a
  safe_confidential_error ctx (err e) = err (safe_error ctx e)

unfoldable pub success_status : ℕ → Bool
success_status status = leb 200 status && ltb status 300

unfoldable pub confidential_response_failure : Context → Method → ℕ → Error → Error
unfolding success_status
confidential_response_failure ctx method status e =
    if ctx.confidential && is_put method && success_status status
    then sentinel mutation_accepted
    else e

-- io.LimitReader of the legacy path
unfoldable pub limited : List ℕ → List ℕ
limited bytes = take max_response_bytes bytes

unfoldable pub too_large : List ℕ → Bool
too_large bytes = ltb max_confidential_response_bytes (length bytes)

-- The body was read, or broke off with the network's text.
unfoldable pub read_provider_response : Context → Outcome String (List ℕ) → Outcome Error (List ℕ)
read_provider_response ctx (err text) =
    err (if ctx.confidential then sentinel request_failed else plain text)
read_provider_response ctx (ok bytes) =
    if not ctx.confidential
    then ok (limited bytes)
    else if too_large bytes
    then err (sentinel response_too_large)
    else ok bytes
