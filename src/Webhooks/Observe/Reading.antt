-- ===== src/Webhooks/Observe/Reading.antt =====
-- What observe_webhook_subscriptions changes at the provider.
use integration_efi.Base.{inl, inr, Option-cases}
use integration_efi.Value.{Value, Fields, get}
use integration_efi.World.{World}
use integration_efi.Api.{Context, Client}
use integration_efi.Api.Boundary.{IsQuiet}
use integration_efi.Api.Mutations.{Keeps, keeping, within-Keeps}
use integration_efi.Webhooks.Observe.{
  observe_one, observe_list, observe_webhook_subscriptions, list_query,
}

module _ (w : World) (ctx : Context) (c : Client) (q : IsQuiet w ctx c) where
  observe_one-Keeps : (input : Fields) (v : Value) → Keeps (observe_one w ctx c input v)
  unfolding observe_one
  observe_one-Keeps input v = search keeping depth 9

  list_query-Keeps : (input : Fields) → Keeps (list_query w input)
  unfolding list_query
  list_query-Keeps input = search keeping depth 12

  observe_list-Keeps : (input : Fields) → Keeps (observe_list w ctx c input)
  unfolding observe_list
  observe_list-Keeps input = search (keeping, list_query-Keeps) depth 9

  -- Observing the subscriptions changes nothing at the provider, on any input.
  pub observe_webhook_subscriptions-Keeps :
      (input : Fields) → Keeps (observe_webhook_subscriptions w ctx c input)
  unfolding observe_webhook_subscriptions
  observe_webhook_subscriptions-Keeps input =
      within-Keeps _ _ (elim (Option-cases (get input "chave")) [
        | inl missing ↦ rw missing (observe_list-Keeps input)
        | inr (v, found) ↦ rw found (observe_one-Keeps input v)
      ])
