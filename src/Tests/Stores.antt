-- ===== src/Tests/Stores.antt =====
-- A provider that keeps a registration, for what ensure_automatic_webhook comes to.
use integration_efi.Base.{
  ◌≡◌, ◌≢◌, refl, ap, sym, String, Option, none, some, [], ◌∷◌, ok, trim_space,
}
use integration_efi.Value.{Fields, field, end, string, text_at, to_fields, put}
use integration_efi.World.{World, Method, method_get, Reply, answered, History}
use integration_efi.Api.{background}
use integration_efi.Api.Confidential.{limited}
use integration_efi.Api.Boundary.{request_of}
use integration_efi.Webhooks.Urls.{normalize_automatic_webhook_url}
use integration_efi.Webhooks.Automatic.{ensure_automatic_webhook}
use integration_efi.Webhooks.Automatic.Storing.{stored, IsStoring}
use integration_efi.Webhooks.Automatic.Success.{ensure_automatic_webhook_succeeds}
use integration_efi.Tests.{good, hook, client, registered}
use integration_efi.Tests.Hooks.{input, input_fine, input_kind, input_url}

abbrev address : String
address = "https://api.example/v2/webhookrec"

abbrev reply_to : Method → Option String → Reply
reply_to method_get none = answered 404 []
reply_to _ held = answered 200 (123 ∷ 125 ∷ [])

abbrev keeping : World
keeping = record good { reply = λ h r. reply_to r.method (stored none address h) }

abbrev IsHook : String → Type 0
IsHook s = s ≡ hook

keeping-IsStoring : IsStoring keeping background client "/v2/webhookrec" none IsHook
unfolding request_of limited to_fields text_at put
keeping-IsStoring = record {
  address = refl;
  writable = λ s. refl;
  accepts_put = λ h s takes. (123 ∷ 125 ∷ [], refl);
  absent = λ h e. ap (reply_to method_get) e;
  present = λ h s e takes. (
    123 ∷ 125 ∷ [],
    123,
    125 ∷ [],
    registered,
    field "webhookUrl" (string hook) end,
    ap (reply_to method_get) e,
    refl,
    refl,
    refl,
    sym takes,
  );
}

hook_there : trim_space hook ≢ ""
unfolding trim_space
hook_there h = cc h

ensure_automatic_webhook_succeeds_example :
    (out : Fields) × (h1 : History) × (ensure_automatic_webhook keeping background client input []
      ≡ (ok out, h1))
    × (stored none address h1 ≡ some hook)
unfolding normalize_automatic_webhook_url
ensure_automatic_webhook_succeeds_example =
    ensure_automatic_webhook_succeeds keeping background client input "rec" "/v2/webhookrec" hook
      none IsHook [] refl input_fine input_kind input_url hook_there keeping-IsStoring refl
      (λ s e. cc e)
