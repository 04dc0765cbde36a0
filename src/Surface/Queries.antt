-- ===== src/Surface/Queries.antt =====
-- onSurfaceQuery and its three queries, over the handlers that they read through.
pub mod Reading
pub mod Disclosure
use integration_efi.Base.{
  String, Bool, true, false, not, Option, none, some, List, [], ◌∷◌, Outcome, ◌==◌, ◌<>◌,
  if◌then◌else◌, trim_space, map,
}
use integration_efi.Value.{
  Value, null, string, object, objects, Fields, field, end, put, value_at, text_at, string_at,
  object_at, or_end, as_array, has, copy_keys, members_of, from_rows,
}
use integration_efi.World.{World}
use integration_efi.Api.{
  Exec, plain, return, raise, require, within, ◌>>=◌, ◌>>◌, after, Context, Client,
}
use integration_efi.Charges.{observe_charges}
use integration_efi.Webhooks.Observe.{observe_webhook_subscriptions}
use integration_efi.Surface.Project.{
  project_webhook_subscription, project_charge, project_charge_array, project_charge_detail,
}

abbrev is_null : Value → Bool
is_null null = true
is_null _ = false

-- The trimmed text of a key, if it is not blank.
unfoldable pub put_text : Fields → String → Fields → Fields
put_text params k m =
    let v = trim_space (text_at params k) in if v == "" then m else put m k (string v)

-- The input of the webhook query.
unfoldable pub webhook_filter : Fields → Fields
webhook_filter params =
    let chave = trim_space (text_at params "chave") in
    if chave == ""
    then copy_keys ("inicio" ∷ "fim" ∷ "page" ∷ "page_size" ∷ "cursor" ∷ []) params end
    else field "chave" (string chave) end

unfoldable pub webhook_rows : Fields → List Fields
webhook_rows raw = elim (as_array (value_at raw "webhooks")) [
  | some vs ↦ map project_webhook_subscription (members_of vs)
  | none ↦ if has raw "chave" then project_webhook_subscription raw ∷ [] else []
]

unfoldable pub webhook_page : Fields → Fields
unfolding webhook_rows
webhook_page raw =
    let out = field "items" (objects (from_rows (webhook_rows raw))) end in
    elim (string_at raw "cursor") [ none ↦ out | some cursor ↦ put out "cursor" (string cursor) ]

-- The input of the charge query.
unfoldable pub charge_filter : Fields → Fields
unfolding put_text
charge_filter params = copy_keys ("page" ∷ "page_size" ∷ []) params (
    put_text params "status"
      (put_text params "fim" (put_text params "inicio" (put_text params "txid" end))))

unfoldable pub charge_rows : Fields → List Fields
charge_rows raw = elim (as_array (value_at raw "cobs")) [
  | some vs ↦ project_charge_array vs
  | none ↦ elim (as_array (value_at raw "cobvs")) [
    | some vs ↦ project_charge_array vs
    | none ↦ if is_null (value_at raw "txid") then [] else project_charge raw ∷ []
  ]
]

module _ (w : World) (ctx : Context) (c : Client) where
  -- surfaceWebhookSubscriptions
  unfoldable pub surface_webhook_subscriptions : Fields → Exec Fields
  unfolding webhook_page
  surface_webhook_subscriptions params = do
    raw ← observe_webhook_subscriptions w ctx c (webhook_filter params)
    return (webhook_page raw)

  -- surfaceCharges
  unfoldable pub surface_charges : Fields → Exec Fields
  surface_charges params = do
    raw ← observe_charges w ctx c (charge_filter params)
    return (field "items" (objects (from_rows (charge_rows raw))) end)

  -- surfaceChargeDetail
  unfoldable pub surface_charge_detail : Fields → Exec Fields
  surface_charge_detail params = do
    let txid = trim_space (text_at params "txid")
    require (not (txid == "")) (plain "txid is required")
    raw ← observe_charges w ctx c (field "txid" (string txid) end)
    return (project_charge_detail raw)

  -- onSurfaceQuery; the name in the last error is quoted without the escapes of %q
  unfoldable pub on_surface_query : Fields → Exec Fields
  on_surface_query input =
      let name = trim_space (text_at input "query_name") in
      let params = or_end (object_at input "params") in
      if name == ""
      then raise (plain "query_name is required")
      else if name == "list-webhook-subscriptions"
      then within "list-webhook-subscriptions" (surface_webhook_subscriptions params)
      else if name == "list-charges"
      then within "list-charges" (surface_charges params)
      else if name == "charge-detail"
      then within "charge-detail" (surface_charge_detail params)
      else raise (plain ("unknown query: \"" <> name <> "\""))
