-- ===== src/Surface/Queries/Reading.antt =====
-- What a surface query changes at the provider.
use integration_efi.Base.{Bool, true, false, if◌then◌else◌}
use integration_efi.Value.{Fields}
use integration_efi.World.{World}
use integration_efi.Api.{Exec, Context, Client}
use integration_efi.Api.Boundary.{IsQuiet}
use integration_efi.Api.Mutations.{Keeps, keeping}
use integration_efi.Charges.{observe_charges, observe_charge_by_txid, observe_charges_by_range}
use integration_efi.Webhooks.Observe.Reading.{observe_webhook_subscriptions-Keeps}
use integration_efi.Surface.Queries.{
  on_surface_query, surface_webhook_subscriptions, surface_charges, surface_charge_detail,
}

if-Keeps : {A : Type 0} (b : Bool) (m n : Exec A) → Keeps m → Keeps n → Keeps (if b then m else n)
if-Keeps true m n km kn = km
if-Keeps false m n km kn = kn

module _ (w : World) (ctx : Context) (c : Client) (q : IsQuiet w ctx c) where
  webhooks-Keeps : (params : Fields) → Keeps (surface_webhook_subscriptions w ctx c params)
  unfolding surface_webhook_subscriptions
  webhooks-Keeps params = search (keeping, observe_webhook_subscriptions-Keeps w ctx c q) depth 6

  observe_charges-Keeps : (input : Fields) → Keeps (observe_charges w ctx c input)
  unfolding observe_charges observe_charge_by_txid observe_charges_by_range
  observe_charges-Keeps input = search (keeping, if-Keeps) depth 9

  charges-Keeps : (params : Fields) → Keeps (surface_charges w ctx c params)
  unfolding surface_charges
  charges-Keeps params = search (keeping, observe_charges-Keeps) depth 6

  detail-Keeps : (params : Fields) → Keeps (surface_charge_detail w ctx c params)
  unfolding surface_charge_detail
  detail-Keeps params = search (keeping, observe_charges-Keeps) depth 6

  -- A surface query changes nothing at the provider: whatever name and parameters it is sent, it
  -- adds no request but GETs to the run.
  on_surface_query-Keeps : (input : Fields) → Keeps (on_surface_query w ctx c input)
  unfolding on_surface_query
  on_surface_query-Keeps input =
      search (keeping, if-Keeps, webhooks-Keeps, charges-Keeps, detail-Keeps) depth 9
