-- ===== src/Tests/Boundary.antt =====
-- Examples for efiapi.
use integration_efi.Base.{ℕ, ◌≡◌, ◌⊎◌, refl, true, false, none, some, [], ◌∷◌, ok, err}
use integration_efi.Value.{to_fields}
use integration_efi.World.{World, method_put, method_get, broken, sent, History, Request}
use integration_efi.Api.{api, sentinel, mutation_accepted, Exec, do_request}
use integration_efi.Api.Http.{do_inner, send, receive, with_status}
use integration_efi.Api.Confidential.{
  success_status, safe_confidential_error, safe_error, confidential_mutation_allowed,
  mutation_request_context, read_provider_response, confidential_response_failure, too_large,
}
use integration_efi.Api.Errors.{as_api, is_sentinel}
use integration_efi.Api.Sanitize.{new_api_error}
use integration_efi.Api.Boundary.{
  requests, request_of, IsClosed, do_request-IsClosed, do_request-requests, do_request-guarded,
}
use integration_efi.Api.Responses.{status_of, do_request-accepted}
use integration_efi.Tests.{good, missing, client, secret, secret_quiet, world_with, registered}

missing_fails :
    (do_request missing secret client method_get "/v2/webhookrec" none (some to_fields) [] []).0
    ≡ err (api (new_api_error missing 404 "provider_error"))
unfolding do_request do_inner send receive with_status confidential_mutation_allowed
    mutation_request_context safe_confidential_error safe_error success_status
    read_provider_response new_api_error too_large as_api
missing_fails = refl

do_request-IsClosed_example : IsClosed missing (api (new_api_error missing 404 "provider_error"))
do_request-IsClosed_example =
    do_request-IsClosed missing secret client method_get "/v2/webhookrec" none (some to_fields) []
      [] (api (new_api_error missing 404 "provider_error")) refl missing_fails

do_request-requests_example :
    (requests (do_request good secret client method_put "/v2/webhookrec" none none [] []).1 ≡ [])
    ⊎ (requests (do_request good secret client method_put "/v2/webhookrec" none none [] []).1
        ≡ request_of good secret client method_put "/v2/webhookrec" none [] ∷ [])
unfolding requests
do_request-requests_example =
    do_request-requests good secret client method_put "/v2/webhookrec" none none []
      (secret_quiet good) []

nothing_sent : requests [] ≡ []
unfolding requests
nothing_sent = refl

put_goes_out :
    requests (do_request good secret client method_put "/v2/webhookrec" none none [] []).1
    ≡ request_of good secret client method_put "/v2/webhookrec" none [] ∷ []
unfolding do_request do_inner send receive with_status confidential_mutation_allowed
    mutation_request_context safe_confidential_error safe_error success_status
    read_provider_response requests request_of
put_goes_out = refl

do_request-guarded_example :
    (check : Exec (Unit {0})) × (secret.guard ≡ some check)
    × ((check []).0 ≡ ok tt)
    × (good.cancelled [] ≡ false)
do_request-guarded_example =
    do_request-guarded good secret client method_put "/v2/webhookrec" none none []
      (secret_quiet good) [] refl refl (λ e. cc (put_goes_out, e, nothing_sent))

-- The provider accepts and the body breaks off.
abbrev cut : World
cut = world_with registered (broken 201 "reset")

cut_accepted :
    (do_request cut secret client method_put "/v2/webhookrec" none none [] []).0
    ≡ err (sentinel mutation_accepted)
unfolding do_request do_inner send receive with_status confidential_mutation_allowed
    mutation_request_context safe_confidential_error safe_error success_status
    read_provider_response confidential_response_failure as_api is_sentinel
cut_accepted = refl

do_request-accepted_example :
    (before : History) × (req : Request) × (status : ℕ) × ((do_request cut secret client method_put
        "/v2/webhookrec" none none [] []).1
      ≡ sent req ∷ before)
    × (status_of (cut.reply before req) ≡ some status)
    × (success_status status ≡ true)
unfolding is_sentinel
do_request-accepted_example =
    do_request-accepted cut secret client method_put "/v2/webhookrec" none none [] []
      (sentinel mutation_accepted) cut_accepted refl
