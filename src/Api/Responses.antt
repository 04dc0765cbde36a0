-- ===== src/Api/Responses.antt =====
-- What a response means: a 2xx that cannot be read is an accepted mutation, never a plain failure,
-- and nothing else is reported as one.
use integration_efi.Base.{
  ℕ, ◌≡◌, ◌⊎◌, inl, inr, refl, String, true, false, Option, none, some, List, [], ◌∷◌, Outcome, ok,
  err, arith, Option-cases, err_injective,
}
use integration_efi.Value.{Value, Fields, end}
use integration_efi.World.{
  World, Method, method_put, Request, Reply, failed, broken, answered, sent, History,
}
use integration_efi.Api.Errors.{Error, sentinel, mutation_accepted, as_api, is_sentinel, plain}
use integration_efi.Api.Confidential.{
  Context, mutation_succeeded, confidential_mutation_allowed, mutation_request_context, safe_error,
  safe_confidential_error, refused_on_error, success_status, confidential_response_failure,
  read_provider_response,
}
use integration_efi.Api.Boundary.{request_of}
use integration_efi.Api.Http.{
  Client, Decoder, decode, with_status, do_request, do_inner, receive, send,
}

abbrev pub status_of : Reply → Option ℕ
status_of (failed text) = none
status_of (broken status text) = some status
status_of (answered status bytes) = some status

module _ (w : World) (ctx : Context) where
  failure_2xx :
      (status : ℕ) (e : Error)
      → ctx.confidential ≡ true
      → success_status status ≡ true
      → confidential_response_failure ctx method_put status e ≡ sentinel mutation_accepted
  unfolding confidential_response_failure
  failure_2xx status e conf good = ground arith

  safe_accepted :
      ctx.confidential ≡ true
      → safe_confidential_error w {A = Fields} ctx (err (sentinel mutation_accepted))
        ≡ err (sentinel mutation_accepted)
  unfolding safe_confidential_error safe_error as_api is_sentinel
  safe_accepted conf = ground arith

  -- A result, or the error that says that the provider accepted.
  abbrev pub IsHeld : Outcome Error Fields → Type 0
  IsHeld r = ((m : Fields) × (r ≡ ok m)) ⊎ (r ≡ err (sentinel mutation_accepted))

  decode-IsHeld :
      (dest : Option Decoder) (status : ℕ) (bytes : List ℕ)
      → ctx.confidential ≡ true
      → success_status status ≡ true
      → IsHeld (decode w ctx method_put status dest bytes)
  unfolding decode
  decode-IsHeld none status bytes conf good = inl (end, refl)
  decode-IsHeld (some decoder) status [] conf good = inl (end, refl)
  decode-IsHeld (some decoder) status (b ∷ bs) conf good =
      let lost = failure_2xx status (plain "efi: decode response") conf good in
      elim (Option-cases (w.parse_json (b ∷ bs))) [
        | inl bad ↦ inr (ground (arith, lost))
        | inr (json, parsed) ↦ elim (Option-cases (decoder json)) [
          | inl unfit ↦ inr (ground (arith, lost))
          | inr (m, fits) ↦ inl (m, ground arith)
        ]
      ]

  with_status-IsHeld :
      (dest : Option Decoder) (status : ℕ) (body : Outcome Error (List ℕ))
      → ctx.confidential ≡ true
      → success_status status ≡ true
      → IsHeld (with_status w ctx method_put status dest body)
  unfolding with_status
  with_status-IsHeld dest status (err e) conf good = inr (rw (failure_2xx status _ conf good))
  with_status-IsHeld dest status (ok bytes) conf good =
      rw good (decode-IsHeld dest status bytes conf good)

  safe-IsHeld :
      (r : Outcome Error Fields)
      → ctx.confidential ≡ true
      → IsHeld r
      → IsHeld (safe_confidential_error w ctx r)
  unfolding safe_confidential_error
  safe-IsHeld (ok m) conf h = inl (m, refl)
  safe-IsHeld (err e) conf h = inr (ground (arith, safe_accepted conf))

  -- The answer of a confidential PUT with a 2xx status is a result or the error that says that the
  -- provider accepted: also when its body breaks off, is too large or cannot be decoded.
  receive_2xx :
      (path : String) (dest : Option Decoder) (answer : Reply) (status : ℕ)
      → ctx.confidential ≡ true
      → status_of answer ≡ some status
      → success_status status ≡ true
      → IsHeld (safe_confidential_error w ctx (receive w ctx method_put path dest answer))
  unfolding receive
  receive_2xx path dest (failed text) status conf e good = cc
  receive_2xx path dest (broken s text) status conf e good =
      safe-IsHeld _ conf (with_status-IsHeld dest s _ conf (ground arith))
  receive_2xx path dest (answered s bytes) status conf e good =
      safe-IsHeld _ conf (with_status-IsHeld dest s _ conf (ground arith))

  decode-accepted :
      (method : Method) (dest : Option Decoder) (status : ℕ) (bytes : List ℕ) (e : Error)
      → decode w ctx method status dest bytes ≡ err e
      → mutation_succeeded e ≡ true
      → success_status status ≡ true
  unfolding decode confidential_response_failure is_sentinel
  decode-accepted method none status bytes e h acc = cc
  decode-accepted method (some decoder) status [] e h acc = cc
  decode-accepted method (some decoder) status (b ∷ bs) e h acc = ground arith

  read-accepted :
      (body : Outcome String (List ℕ)) (e : Error)
      → read_provider_response ctx body ≡ err e
      → mutation_succeeded e ≡ false
  unfolding read_provider_response is_sentinel
  read-accepted (err text) e h = ground arith
  read-accepted (ok bytes) e h = ground arith

  with_status-accepted :
      (method : Method) (dest : Option Decoder) (status : ℕ) (body : Outcome Error (List ℕ))
      (e : Error)
      → ((x : Error) → body ≡ err x → mutation_succeeded x ≡ false)
      → with_status w ctx method status dest body ≡ err e
      → mutation_succeeded e ≡ true
      → success_status status ≡ true
  unfolding with_status confidential_response_failure is_sentinel
  with_status-accepted method dest status (err x) e read h acc = ground (arith, read x refl)
  with_status-accepted method dest status (ok bytes) e read h acc =
      ground (arith, decode-accepted method dest status bytes e)

  receive-accepted :
      (method : Method) (path : String) (dest : Option Decoder) (answer : Reply) (e : Error)
      → receive w ctx method path dest answer ≡ err e
      → mutation_succeeded e ≡ true
      → (status : ℕ) × (status_of answer ≡ some status) × (success_status status ≡ true)
  unfolding receive is_sentinel
  receive-accepted method path dest (failed text) e h acc = ground arith
  receive-accepted method path dest (broken s text) e h acc =
      (s, refl, with_status-accepted method dest s _ e (read-accepted _) h acc)
  receive-accepted method path dest (answered s bytes) e h acc =
      (s, refl, with_status-accepted method dest s _ e (read-accepted _) h acc)

  safe_error-accepted :
      (e : Error) → mutation_succeeded (safe_error w ctx e) ≡ true → mutation_succeeded e ≡ true
  unfolding safe_error is_sentinel
  safe_error-accepted e h = ground arith

safe-accepted :
    (w : World) (ctx : Context) (r : Outcome Error Fields) (e : Error)
    → safe_confidential_error w ctx r ≡ err e
    → mutation_succeeded e ≡ true
    → (x : Error) × (r ≡ err x) × (mutation_succeeded x ≡ true)
unfolding safe_confidential_error
safe-accepted w ctx (ok m) e h acc = cc
safe-accepted w ctx (err x) e h acc =
    (x, refl, safe_error-accepted w ctx x (rw (err_injective h) acc))

module _ (w : World) (ctx : Context) (method : Method) (h : History) (e : Error) where
  allowed-accepted :
      (confidential_mutation_allowed w ctx method h).0 ≡ err e → mutation_succeeded e ≡ false
  unfolding confidential_mutation_allowed refused_on_error is_sentinel
  allowed-accepted wrong = ground arith

  timed-accepted :
      (mutation_request_context w ctx method h).0 ≡ err e → mutation_succeeded e ≡ false
  unfolding mutation_request_context is_sentinel
  timed-accepted wrong = ground arith

module _ (w : World) (ctx : Context) (c : Client) where
  module _ (method : Method) (path : String) (body : Option Value) (dest : Option Decoder)
      (headers : List (String × String)) (h : History) where
    do_inner-accepted :
        (e : Error)
        → (do_inner w ctx c method path body dest headers h).0 ≡ err e
        → mutation_succeeded e ≡ true
        → (before : History) × (req : Request) × (status : ℕ) × ((do_inner w ctx c method path body
              dest headers h).1
            ≡ sent req ∷ before)
          × (status_of (w.reply before req) ≡ some status)
          × (success_status status ≡ true)
    unfolding do_inner send request_of is_sentinel
    do_inner-accepted e wrong acc =
        let h1 = (confidential_mutation_allowed w ctx method h).1 in
        let h2 = (mutation_request_context w ctx method h1).1 in
        let req = request_of w ctx c method path body headers in
        let got : receive w ctx method path dest (w.reply h2 req) ≡ err e =
          ground (arith, allowed-accepted w ctx method h e, timed-accepted w ctx method h1 e) in
        let (status, has, good) =
          receive-accepted w ctx method path dest (w.reply h2 req) e got acc in
        (
          h2,
          req,
          status,
          ground (arith, allowed-accepted w ctx method h e, timed-accepted w ctx method h1 e),
          has,
          good,
        )

    -- A call that reports an accepted mutation has sent a request, and the provider's answer to it
    -- had a 2xx status: a refusal, a network failure or a local error is never reported so.
    pub do_request-accepted :
        (e : Error)
        → (do_request w ctx c method path body dest headers h).0 ≡ err e
        → mutation_succeeded e ≡ true
        → (before : History) × (req : Request) × (status : ℕ) × ((do_request w ctx c method path
              body dest headers h).1
            ≡ sent req ∷ before)
          × (status_of (w.reply before req) ≡ some status)
          × (success_status status ≡ true)
    unfolding do_request
    do_request-accepted e wrong acc =
        let inner = (do_inner w ctx c method path body dest headers h).0 in
        let (x, failed_so, acc') = safe-accepted w ctx inner e wrong acc in
        do_inner-accepted x failed_so acc'
