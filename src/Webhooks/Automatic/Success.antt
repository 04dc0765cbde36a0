-- ===== src/Webhooks/Automatic/Success.antt =====
-- Against a provider that keeps what is put, ensure_automatic_webhook succeeds.
use integration_efi.Base.{
  some_injective, ◌≡◌, ◌≢◌, ◌∙◌, ◌<>◌, inl, inr, refl, sym, String, Bool, true, false, Option, none,
  some, ◌∷◌, ok, Bool-cases, trim_space, eq_refl,
}
use mathlib.Core.Path.{subst}
use integration_efi.Value.{Fields, end, text_at, string_at, get, put, bool, value_at}
use integration_efi.World.{World, method_put, sent, History}
use integration_efi.Api.{Context, Client, do_raw}
use integration_efi.Api.Http.{with_status, decode, receive, marshal_fails}
use integration_efi.Api.Confidential.{read_provider_response, success_status}
use integration_efi.Api.Boundary.{request_of}
use integration_efi.Webhooks.Urls.{normalize_automatic_webhook_url}
use integration_efi.Webhooks.Automatic.{
  Registration, register_if_needed, points_at, confirm, ensure_at, automatic_webhook_output,
  ensure_automatic_webhook, refuse_inputs, automatic_webhook_kind,
}
use integration_efi.Webhooks.Automatic.Storing.{
  stored, registration_body, IsStoring, reading, writing, IsFound, do_raw-plain, reads_back_stored,
}

module _ (w : World) (ctx : Context) (c : Client) where
  module _ (open_ctx : ctx.confidential ≡ false) (path : String) (initial : Option String)
      (Takes : String → Type 0) (p : IsStoring w ctx c path initial Takes) where
    abbrev held : History → Option String
    held = stored initial (c.base_url <> path)

    put-answered :
        (desired : String) (h : History)
        → Takes desired
        → do_raw w ctx c method_put path (registration_body w ctx c desired) none h
          ≡ (ok end, sent (writing w ctx c path desired) ∷ h)
    unfolding receive with_status read_provider_response success_status decode marshal_fails
    put-answered desired h takes =
        let (bytes, answer) = p.accepts_put h desired takes in
        do_raw-plain w ctx c method_put path (registration_body w ctx c desired) none h open_ctx
          p.address (rw (p.writable desired) refl)
        ∙ rw (answer, open_ctx) refl

    put-held :
        (desired : String) (h : History)
        → held (sent (writing w ctx c path desired) ∷ h) ≡ some desired
    unfolding request_of string_at get value_at
    put-held desired h = rw (eq_refl (c.base_url <> path)) refl

    -- Once a URL is held, the read back confirms it.
    confirm-found :
        (kind desired : String) (changed : Bool) (h : History)
        → trim_space desired ≢ ""
        → Takes desired
        → held h ≡ some desired
        → (out : Fields) × (confirm w ctx c kind path desired changed h
            ≡ (ok out, sent (reading w ctx c path) ∷ h))
    unfolding confirm
    confirm-found kind desired changed h there takes same =
        let (state, read, found) =
          reads_back_stored w ctx c open_ctx path initial Takes p h
            (λ s e. subst Takes (some_injective (sym same ∙ e)) takes) in
        let fits = (found desired there).1 same in
        (
          put (put (automatic_webhook_output w ctx c kind path state) "ensured" (bool true))
              "changed" (bool changed),
          rw (read, fits) refl,
        )

    -- The PUT, if there is one, leaves the URL behind.
    register-held :
        (desired : String) (state : Registration) (h : History)
        → trim_space desired ≢ ""
        → Takes desired
        → IsFound w ctx c (held h) state
        → (changed : Bool) × (h1 : History) × (register_if_needed w ctx c path desired state h
            ≡ (ok changed, h1))
          × (held h1 ≡ some desired)
    unfolding register_if_needed
    register-held desired state h there takes found = elim (Bool-cases (points_at state desired)) [
      | inl here ↦ (false, h, rw here refl, (found desired there).0 here)
      | inr elsewhere ↦ (
        true,
        sent (writing w ctx c path desired) ∷ h,
        rw (elsewhere, put-answered desired h takes) refl,
        put-held desired h,
      )
    ]

  -- Ensuring a registration succeeds against a provider that keeps what is put: on an input that passes the
  -- checks and gives a URL that the provider takes, in a context that is not confidential, and after any run
  -- that left nothing there or such a URL, it returns a result, and the provider then holds the normalized
  -- webhook_url at the endpoint of the kind.
  pub ensure_automatic_webhook_succeeds :
      (input : Fields) (kind path desired : String) (initial : Option String)
      (Takes : String → Type 0) (h : History)
      → ctx.confidential ≡ false
      → refuse_inputs input ≡ ok tt
      → automatic_webhook_kind input ≡ ok (kind, path)
      → normalize_automatic_webhook_url w (text_at input "webhook_url") "webhook_url" ≡ ok desired
      → trim_space desired ≢ ""
      → IsStoring w ctx c path initial Takes
      → Takes desired
      → ((s : String) → stored initial (c.base_url <> path) h ≡ some s → Takes s)
      → (out : Fields) × (h1 : History) × (ensure_automatic_webhook w ctx c input h ≡ (ok out, h1))
        × (stored initial (c.base_url <> path) h1 ≡ some desired)
  unfolding ensure_automatic_webhook ensure_at request_of
  ensure_automatic_webhook_succeeds input kind path desired initial Takes h open_ctx fine is_kind
        is_url there p takes takes_held =
      let (state, read, found) =
        reads_back_stored w ctx c open_ctx path initial Takes p h takes_held in
      let (changed, h2, registered, kept) =
        register-held open_ctx path initial Takes p desired state (sent (reading w ctx c path) ∷ h)
          there takes found in
      let (out, confirmed) =
        confirm-found open_ctx path initial Takes p kind desired changed h2 there takes kept in
      (
        out,
        sent (reading w ctx c path) ∷ h2,
        rw (fine, is_kind, is_url, read, registered, confirmed) refl,
        kept,
      )
