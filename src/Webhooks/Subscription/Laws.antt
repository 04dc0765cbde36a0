-- ===== src/Webhooks/Subscription/Laws.antt =====
-- Which requests ensure_webhook_subscription sends.
use integration_efi.Base.{
  ◌≡◌, ◌≢◌, ◌∙◌, ap, ◌⊎◌, inl, inr, refl, String, true, false, none, some, ◌∷◌, Outcome, ok, err,
  ◌<>◌, ◌==◌, eq_iff, Bool-cases, trim_space,
}
use integration_efi.Value.{object, string, Fields, field, end, text_at}
use integration_efi.World.{World, method_put, Request, History}
use integration_efi.Api.{Error, Context, Client, after, return}
use integration_efi.Api.Boundary.{requests, request_of, IsQuiet, do_request-requests}
use integration_efi.Charges.{is_not_found}
use integration_efi.Webhooks.Urls.{normalize_webhook_base_url}
use integration_efi.Webhooks.Subscription.{
  put_webhook, or_v3, ensure_webhook_subscription, skip_headers, ensured,
}

module _ (w : World) (ctx : Context) (c : Client) where
  -- The PUT of the URL under a path, with the header that skips the mTLS check if the input asks so.
  abbrev pub webhook_request : Fields → String → String → String → Request
  webhook_request input path chave url =
      request_of w ctx c method_put (path <> w.path_escape chave)
        (some (object (field "webhookUrl" (string url) end))) (skip_headers input)

  put_webhook-requests :
      IsQuiet w ctx c
      → (input : Fields) (path chave url : String) (h : History)
      → (requests (put_webhook w ctx c input path chave url h).1 ≡ requests h)
        ⊎ (requests (put_webhook w ctx c input path chave url h).1
            ≡ webhook_request input path chave url ∷ requests h)
  unfolding put_webhook
  put_webhook-requests q input path chave url h =
      do_request-requests w ctx c method_put (path <> w.path_escape chave)
        (some (object (field "webhookUrl" (string url) end))) none (skip_headers input) q h

  -- What a run sent, given how its first call ended.
  abbrev pub IsV3Last : Fields → String → String → History → History → Outcome Error Fields → Type 0
  IsV3Last input chave url h end_of_run first =
      (requests end_of_run ≡ requests h)
      ⊎ (requests end_of_run ≡ webhook_request input "/v2/webhook/" chave url ∷ requests h)
      ⊎ ((e : Error) × (first ≡ err e)
          × (is_not_found e ≡ true)
          × ((requests end_of_run ≡ webhook_request input "/v3/gn/webhook/" chave url ∷ requests h)
              ⊎ (requests end_of_run
                  ≡ webhook_request input "/v3/gn/webhook/" chave url
                    ∷ webhook_request input "/v2/webhook/" chave url
                    ∷ requests h)))

  then_return :
      {A : Type 0} (p : Outcome Error A × History) (out : Fields)
      → (after p (λ _. return out)).1 ≡ p.1
  then_return (ok a, h) out = refl
  then_return (err e, h) out = refl

  second_call :
      IsQuiet w ctx c
      → (input : Fields) (chave url : String) (e : Error) (h h1 : History) → is_not_found e ≡ true
      → (requests (or_v3 w ctx c input chave url (err e) h1).1 ≡ requests h1)
        ⊎ (requests (or_v3 w ctx c input chave url (err e) h1).1
            ≡ webhook_request input "/v3/gn/webhook/" chave url ∷ requests h1)
  unfolding or_v3
  second_call q input chave url e h h1 absent =
      let p = put_webhook w ctx c input "/v3/gn/webhook/" chave url h1 in
      rw (absent, then_return p (ensured chave "v3"))
        (put_webhook-requests q input "/v3/gn/webhook/" chave url h1)

  or_v3-requests :
      IsQuiet w ctx c
      → (input : Fields) (chave url : String) (first : Outcome Error Fields) (h h1 : History)
      → (requests h1 ≡ requests h)
        ⊎ (requests h1 ≡ webhook_request input "/v2/webhook/" chave url ∷ requests h)
      → IsV3Last input chave url h (or_v3 w ctx c input chave url first h1).1 first
  unfolding or_v3
  or_v3-requests q input chave url (ok m) h h1 (inl none_sent) = inl none_sent
  or_v3-requests q input chave url (ok m) h h1 (inr one_sent) = inr (inl one_sent)
  or_v3-requests q input chave url (err e) h h1 before = elim (Bool-cases (is_not_found e)) [
    | inl absent ↦ elim (second_call q input chave url e h h1 absent) [
      | inl same ↦ elim before [ inl b ↦ inl (same ∙ b) | inr b ↦ inr (inl (same ∙ b)) ]
      | inr more ↦ elim before [
        | inl b ↦ inr (
            inr (
              e,
              refl,
              absent,
              inl (more ∙ ap (λ t. webhook_request input "/v3/gn/webhook/" chave url ∷ t) b),
            ))
        | inr b ↦ inr (
            inr (
              e,
              refl,
              absent,
              inr (more ∙ ap (λ t. webhook_request input "/v3/gn/webhook/" chave url ∷ t) b),
            ))
      ]
    ]
    | inr other ↦ rw other (elim before [ inl b ↦ inl b | inr b ↦ inr (inl b) ])
  ]

  -- Registering a subscription sends the PUT under /v2, and the one under /v3 only when the first
  -- was answered by a 404; each goes out at most once, with the normalized URL as its body.
  pub ensure_webhook_subscription-IsV3Last :
      IsQuiet w ctx c
      → (input : Fields) (url : String) (h : History) → trim_space (text_at input "chave") ≢ ""
      → normalize_webhook_base_url w (text_at input "webhook_url") ≡ ok url
      → let chave = trim_space (text_at input "chave") in
        IsV3Last input chave url h
          (ensure_webhook_subscription w ctx c input h).1
          (put_webhook w ctx c input "/v2/webhook/" chave url h).0
  unfolding ensure_webhook_subscription
  ensure_webhook_subscription-IsV3Last q input url h there is_url =
      let chave = trim_space (text_at input "chave") in
      let p = put_webhook w ctx c input "/v2/webhook/" chave url h in
      let no_match : (chave == "") ≡ false = elim (Bool-cases (chave == "")) [
        | inl e ↦ absurd (there ((eq_iff chave "").0 e))
        | inr e ↦ e
      ] in
      rw (no_match, is_url)
        (or_v3-requests q input chave url p.0 h p.1
          (put_webhook-requests q input "/v2/webhook/" chave url h))
