-- ===== src/Webhooks/Subscription.antt =====
-- ensure_webhook_subscription.go and destroy_webhook_subscription.go.
pub mod Laws
use integration_efi.Base.{
  String, Bool, true, false, not, Option, none, some, List, [], ◌∷◌, Outcome, ok, err, ◌==◌, ◌<>◌,
  if◌then◌else◌, trim_space, ◌≡◌, refl,
}
use integration_efi.Value.{
  Value, bool, string, object, Fields, field, end, text_at, get, value_at, as_bool,
}
use integration_efi.World.{World, method_put, method_delete, History}
use integration_efi.Api.{
  Error, plain, wrap, Exec, ◌>>=◌, ◌>>◌, after, lift, return, require, within, Context, Client,
  do_raw, do_request,
}
use integration_efi.Charges.{is_not_found, settle_destroy}
use integration_efi.Webhooks.Urls.{normalize_webhook_base_url}

-- skip, _ := in["skip_mtls_validation"].(bool)
abbrev asks_skip : Fields → Bool
asks_skip input = elim (as_bool (value_at input "skip_mtls_validation")) [
  | none ↦ false
  | some b ↦ b
]

abbrev pub skip_headers : Fields → List (String × String)
skip_headers input = if asks_skip input then ("x-skip-mtls-checking", "true") ∷ [] else []

abbrev pub ensured : String → String → Fields
ensured chave endpoint =
    field "ensured" (bool true)
      (field "chave" (string chave) (field "endpoint" (string endpoint) end))

module _ (w : World) (ctx : Context) (c : Client) where
  -- The PUT that registers the URL under one of the two paths.
  unfoldable pub put_webhook : Fields → String → String → String → Exec Fields
  put_webhook input path chave url =
      do_request w ctx c method_put (path <> w.path_escape chave)
        (some (object (field "webhookUrl" (string url) end))) none (skip_headers input)

  -- The outcome of the first PUT: done, a 404 that the second path may mend, or another error.
  unfoldable pub or_v3 : Fields → String → String → Outcome Error Fields → Exec Fields
  unfolding put_webhook
  or_v3 input chave url (ok m) = return (ensured chave "v2")
  or_v3 input chave url (err e) =
      if is_not_found e
      then within "ensure_webhook_subscription: v2 returned 404, v3 fallback also failed"
          (do put_webhook input "/v3/gn/webhook/" chave url; return (ensured chave "v3"))
      else lift (err (wrap "ensure_webhook_subscription" e))

  unfoldable pub ensure_webhook_subscription : Fields → Exec Fields
  ensure_webhook_subscription input = do
    let chave = trim_space (text_at input "chave")
    require (not (chave == "")) (plain "ensure_webhook_subscription: chave is required")
    url ←
        within "ensure_webhook_subscription"
          (lift (normalize_webhook_base_url w (text_at input "webhook_url")))
    λ h. let (r, h') = put_webhook input "/v2/webhook/" chave url h in or_v3 input chave url r h'

  unfoldable pub destroy_webhook_subscription : Fields → Exec Fields
  destroy_webhook_subscription input = do
    let chave = trim_space (text_at input "chave")
    require (not (chave == "")) (plain "destroy_webhook_subscription: chave is required")
    λ h.
        let (r, h') =
          do_raw w ctx c method_delete ("/v2/webhook/" <> w.path_escape chave) none none h in
        (
          settle_destroy "destroy_webhook_subscription"
              (field "destroyed" (bool true) (field "chave" (string chave) end)) r,
          h',
        )
