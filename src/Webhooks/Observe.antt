-- ===== src/Webhooks/Observe.antt =====
-- observe_webhook_subscriptions.go.
pub mod Reading
use integration_efi.Base.{
  ℕ, String, Bool, true, false, ◌&&◌, ◌||◌, not, Option, none, some, List, [], ◌∷◌, ◌++◌, Outcome,
  ok, err, ◌==◌, ◌<>◌, if◌then◌else◌, trim_space, itoa, ℤ, is_some,
}
use integration_efi.Value.{Value, string, Fields, get, put, as_string, text_at, string_at}
use integration_efi.World.{World, method_get, Query}
use integration_efi.Api.{
  Error, plain, wrap, Exec, ◌>>=◌, ◌>>◌, after, lift, return, raise, require, within, Context,
  Client, do_raw,
}
use integration_efi.Webhooks.Pagination.{
  has_any_input, webhook_time_range, pagination_input, parse_pagination_integer,
  next_webhook_page_cursor,
}
use integration_efi.Webhooks.Provenance.{decode_observation, webhook_page_provenance}
use integration_efi.Webhooks.Urls.{observed_url_valid, sanitize_observed_webhook_urls}

-- The single key of a lookup.
unfoldable pub lookup_key : Fields → Value → Outcome Error String
unfolding has_any_input
lookup_key input v = elim (as_string v) [
  | none ↦ err (plain "chave must be a non-empty string")
  | some chave ↦
      if trim_space chave == ""
      then err (plain "chave must be a non-empty string")
      else if has_any_input input ("inicio" ∷ "fim" ∷ "page" ∷ "page_size" ∷ "cursor" ∷ [])
      then err (plain "chave and time-range filters are mutually exclusive")
      else ok (trim_space chave)
]

module _ (w : World) where
  -- A registration that is there has a sound URL.
  unfoldable pub address_fine : Fields → Bool
  address_fine resp = elim (get resp "webhookUrl") [
    | none ↦ true
    | some v ↦ elim (as_string v) [ none ↦ false | some address ↦ observed_url_valid w address ]
  ]

  -- The trimmed cursor, "" for a missing one.
  unfoldable pub cursor_input : Fields → Outcome Error String
  cursor_input input = elim (get input "cursor") [
    | none ↦ ok ""
    | some v ↦ elim (as_string v) [
      | none ↦ err (plain "cursor: must be an integer string")
      | some text ↦ ok (trim_space text)
    ]
  ]

  -- The page to ask for: from page or from cursor, never from both.
  unfoldable pub chosen_page : Option ℤ → String → Outcome Error (Option ℤ)
  chosen_page page cursor =
      if is_some page && not (cursor == "")
      then err (plain "page and cursor are mutually exclusive")
      else if cursor == ""
      then ok page
      else elim (parse_pagination_integer w (string cursor) 0 0) [
        | err e ↦ err (wrap "cursor" e)
        | ok n ↦ ok (some n)
      ]

  abbrev int_param : String → Option ℤ → Query
  int_param k none = []
  int_param k (some n) = (k, itoa n ∷ []) ∷ []

  -- The query of the list, in the order of the checks.
  unfoldable pub list_query : Fields → Exec Query
  unfolding cursor_input chosen_page
  list_query input = do
    (inicio, fim) ← lift (webhook_time_range w input)
    given ← lift (pagination_input w input "page" 0 0)
    cursor ← lift (cursor_input input)
    page ← lift (chosen_page given cursor)
    size ← lift (pagination_input w input "page_size" 1 1000)
    return (
        ("inicio", inicio ∷ [])
        ∷ ("fim", fim ∷ [])
        ∷ (int_param "paginacao.paginaAtual" page ++ int_param "paginacao.itensPorPagina" size))

  -- What is added to a listed page: its evidence before the URLs are redacted, and the cursor.
  unfoldable pub finish_page : Fields → Fields → Fields
  finish_page input resp =
      let proven = put resp "page_provenance" (webhook_page_provenance w input resp) in
      let redacted = sanitize_observed_webhook_urls w proven in
      put redacted "cursor" (string (next_webhook_page_cursor w redacted))

  module _ (ctx : Context) (c : Client) where
    unfoldable pub observe_one : Fields → Value → Exec Fields
    observe_one input v = do
      chave ← lift (lookup_key input v)
      resp ←
          do_raw w ctx c method_get ("/v2/webhook/" <> w.path_escape chave) none
            (some (decode_observation w))
      require (address_fine resp) (plain "invalid observed webhook URL")
      return (sanitize_observed_webhook_urls w resp)

    unfoldable pub observe_list : Fields → Exec Fields
    observe_list input = do
      query ← list_query input
      resp ←
          do_raw w ctx c method_get ("/v2/webhook?" <> w.encode_query query) none
            (some (decode_observation w))
      return (finish_page input resp)

    -- ObserveWebhookSubscriptions
    unfoldable pub observe_webhook_subscriptions : Fields → Exec Fields
    unfolding observe_one observe_list
    observe_webhook_subscriptions input =
        within "observe_webhook_subscriptions"
          (elim (get input "chave") [ some v ↦ observe_one input v | none ↦ observe_list input ])
