-- ===== src/Webhooks/Automatic/Mutation.antt =====
-- What ensure_automatic_webhook and observe_automatic_webhooks change at the provider.
use integration_efi.Base.{
  ◌≡◌, ◌∙◌, ◌<>◌, inl, inr, refl, String, Bool, true, false, none, some, [], ok, Bool-cases,
}
use integration_efi.Value.{object, string, Fields, field, end, text_at, to_fields}
use integration_efi.World.{World, method_put, Request, History}
use integration_efi.Api.{Context, Client, within, ◌>>=◌}
use integration_efi.Api.Boundary.{request_of, IsQuiet}
use integration_efi.Api.Mutations.{
  Keeps, MutatesAtMost, mutations, keeping, do_raw-MutatesAtMost, do_raw-Keeps, bind-MutatesAtMost,
  bind-MutatesAtMost_first, within-MutatesAtMost, MutatesAtMost-of_Keeps, return-Keeps, bind-Keeps,
  within-Keeps,
}
use integration_efi.Webhooks.Urls.{normalize_automatic_webhook_url}
use integration_efi.Webhooks.Automatic.{
  Registration, read_automatic_webhook, register_if_needed, points_at, confirm, ensure_at,
  ensure_automatic_webhook, refuse_inputs, automatic_webhook_kind, observe_automatic_webhooks,
}

module _ (w : World) (ctx : Context) (c : Client) (q : IsQuiet w ctx c) where
  read-Keeps : (path : String) → Keeps (read_automatic_webhook w ctx c path)
  unfolding read_automatic_webhook
  read-Keeps path = record { at = λ h. (do_raw-Keeps w ctx c q path none (some to_fields)).at h }

  abbrev pub put_request : String → String → Request
  put_request path desired =
      request_of w ctx c method_put path (some (object (field "webhookUrl" (string desired) end)))
        []

  register-MutatesAtMost :
      (path desired : String) (current : Registration)
      → MutatesAtMost (put_request path desired) (register_if_needed w ctx c path desired current)
  unfolding register_if_needed
  register-MutatesAtMost path desired current = elim (Bool-cases (points_at current desired)) [
    | inl here ↦ rw here (MutatesAtMost-of_Keeps _ _ (return-Keeps false))
    | inr elsewhere ↦ rw elsewhere (
        bind-MutatesAtMost_first _ _ _ (do_raw-MutatesAtMost w ctx c q method_put path _ none refl)
          (λ m. return-Keeps true))
  ]

  confirm-Keeps :
      (kind path desired : String) (changed : Bool)
      → Keeps (confirm w ctx c kind path desired changed)
  unfolding confirm
  confirm-Keeps kind path desired changed = search (keeping, read-Keeps) depth 8

  ensure_at-MutatesAtMost :
      (kind path desired : String)
      → MutatesAtMost (put_request path desired) (ensure_at w ctx c kind path desired)
  unfolding ensure_at
  ensure_at-MutatesAtMost kind path desired =
      bind-MutatesAtMost _ _ _ (within-Keeps _ _ (read-Keeps path)) λ current.
        bind-MutatesAtMost_first _ _ _
          (within-MutatesAtMost _ _ _ (register-MutatesAtMost path desired current))
          λ changed. confirm-Keeps kind path desired changed

  -- On an input that passes the checks, ensuring a registration changes nothing at the provider or
  -- sends exactly one mutating request: the PUT of the normalized webhook_url to the endpoint of the
  -- input's kind. It is never retried.
  pub ensure_automatic_webhook-MutatesAtMost :
      (input : Fields) (kind path desired : String)
      → refuse_inputs input ≡ ok tt
      → automatic_webhook_kind input ≡ ok (kind, path)
      → normalize_automatic_webhook_url w (text_at input "webhook_url") "webhook_url" ≡ ok desired
      → MutatesAtMost (put_request path desired) (ensure_automatic_webhook w ctx c input)
  unfolding ensure_automatic_webhook
  ensure_automatic_webhook-MutatesAtMost input kind path desired fine is_kind is_url =
      rw (fine, is_kind, is_url)
        (within-MutatesAtMost _ _ _ (ensure_at-MutatesAtMost kind path desired))

  -- Observing a registration changes nothing at the provider, on any input.
  observe_automatic_webhooks-Keeps :
      (input : Fields) → Keeps (observe_automatic_webhooks w ctx c input)
  unfolding observe_automatic_webhooks
  observe_automatic_webhooks-Keeps input = search (keeping, read-Keeps) depth 10

  in_place-Keeps :
      (kind path desired : String) (state : Registration)
      → points_at state desired ≡ true
      → Keeps (
          within ("register " <> kind <> " webhook") (register_if_needed w ctx c path desired state)
          >>= λ changed. confirm w ctx c kind path desired changed)
  unfolding register_if_needed
  in_place-Keeps kind path desired state here =
      rw here
        (bind-Keeps _ _ (return-Keeps false) λ changed. confirm-Keeps kind path desired changed)

  -- Ensuring is idempotent: where the first read finds the registration at the normalized
  -- webhook_url, no mutating request is sent.
  pub ensure_automatic_webhook-idempotent :
      (input : Fields) (kind path desired : String) (state : Registration) (h h1 : History)
      → refuse_inputs input ≡ ok tt
      → automatic_webhook_kind input ≡ ok (kind, path)
      → normalize_automatic_webhook_url w (text_at input "webhook_url") "webhook_url" ≡ ok desired
      → read_automatic_webhook w ctx c path h ≡ (ok state, h1)
      → points_at state desired ≡ true
      → mutations (ensure_automatic_webhook w ctx c input h).1 ≡ mutations h
  unfolding ensure_automatic_webhook ensure_at
  ensure_automatic_webhook-idempotent input kind path desired state h h1 fine is_kind is_url found
        here =
      let same : mutations h1 ≡ mutations h = cc (found, (read-Keeps path).at h) in
      rw (fine, is_kind, is_url, found) ((in_place-Keeps kind path desired state here).at h1 ∙ same)
