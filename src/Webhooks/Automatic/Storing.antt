-- ===== src/Webhooks/Automatic/Storing.antt =====
-- A provider that keeps what is put, and what is read from it.
use integration_efi.Base.{
  some_injective, ◌≡◌, ◌≢◌, ◌↔◌, ◌∙◌, ◌<>◌, ◌==◌, ◌&&◌, inl, inr, refl, ap, sym, ℕ, String, true,
  false, Option, none, some, List, [], ◌∷◌, ok, Bool-cases, Option-cases, if◌then◌else◌, trim_space,
  eq_iff, is_none, Outcome, arith,
}
use integration_efi.Value.{
  Value, object, string, Fields, field, end, text_at, string_at, to_fields, Json,
}
use integration_efi.World.{
  World, Method, method_get, method_put, Request, answered, sent, Event, History,
}
use integration_efi.Api.{Error, Context, Client, do_raw, as_api}
use integration_efi.Api.Sanitize.{new_api_error}
use integration_efi.Api.Http.{
  do_request, do_inner, send, with_status, decode, receive, Decoder, marshal_fails,
}
use integration_efi.Api.Confidential.{
  read_provider_response, success_status, confidential_mutation_allowed, mutation_request_context,
  safe_confidential_error, is_put, limited,
}
use integration_efi.Api.Boundary.{request_of}
use integration_efi.Charges.{is_not_found}
use integration_efi.Webhooks.Automatic.{
  Registration, unregistered, read_automatic_webhook, points_at, settle_read, registration_of,
}

-- The URL that a body registers.
abbrev registers : Option Value → Option String
registers (some (object m)) = string_at m "webhookUrl"
registers _ = none

-- What an event leaves at a URL that held `old`.
abbrev left_by : String → Option String → Event → Option String
left_by url old (sent r) = if is_put r.method && r.url == url then registers r.body else old
left_by url old _ = old

-- What a provider holds at a URL after a run: the body of the last PUT there, or what was there.
abbrev pub stored : Option String → String → History → Option String
stored initial url [] = initial
stored initial url (e ∷ h) = left_by url (stored initial url h) e

module _ (w : World) (ctx : Context) (c : Client) where
  abbrev pub registration_body : String → Option Value
  registration_body desired = some (object (field "webhookUrl" (string desired) end))

  -- A provider that keeps the last URL that was put at a path and shows it, for the URLs that it takes.
  pub record IsStoring (path : String) (initial : Option String) (Takes : String → Type 0)
      : Type 0 where
    pub address : is_none (w.parse_url (c.base_url <> path)) ≡ false
    pub writable : (s : String) → w.marshals (object (field "webhookUrl" (string s) end)) ≡ true
    pub accepts_put :
        (h : History) (s : String)
        → Takes s
        → (bytes : List ℕ) × (w.reply h
              (request_of w ctx c method_put path (registration_body s) [])
            ≡ answered 200 bytes)
    pub absent :
        (h : History)
        → stored initial (c.base_url <> path) h ≡ none
        → w.reply h (request_of w ctx c method_get path none []) ≡ answered 404 []
    pub present :
        (h : History) (s : String)
        → stored initial (c.base_url <> path) h ≡ some s
        → Takes s
        → (bytes : List ℕ) × (b : ℕ) × (rest : List ℕ) × (json : Json) × (m : Fields) × (w.reply h
              (request_of w ctx c method_get path none [])
            ≡ answered 200 bytes)
          × (limited bytes ≡ b ∷ rest)
          × (w.parse_json (b ∷ rest) ≡ some json)
          × (to_fields json ≡ some m)
          × (text_at m "webhookUrl" ≡ s)

  pub do_raw-plain :
      (method : Method) (path : String) (body : Option Value) (dest : Option Decoder) (h : History)
      → ctx.confidential ≡ false
      → is_none (w.parse_url (c.base_url <> path)) ≡ false
      → marshal_fails w body ≡ false
      → do_raw w ctx c method path body dest h ≡ (
        receive w ctx method path dest (w.reply h (request_of w ctx c method path body [])),
        sent (request_of w ctx c method path body []) ∷ h,
      )
  unfolding do_raw do_request do_inner confidential_mutation_allowed mutation_request_context send
      request_of safe_confidential_error
  do_raw-plain method path body dest h open_ctx address fine =
      ground (arith, open_ctx, address, fine)

  abbrev pub reading : String → Request
  reading path = request_of w ctx c method_get path none []

  abbrev pub writing : String → String → Request
  writing path s = request_of w ctx c method_put path (registration_body s) []

  -- What a read finds: a registration that points at a URL exactly if the provider holds that URL.
  abbrev pub IsFound : Option String → Registration → Type 0
  IsFound held state =
      (d : String) → trim_space d ≢ "" → (points_at state d ≡ true) ↔ (held ≡ some d)

  module _ (open_ctx : ctx.confidential ≡ false) (path : String) (initial : Option String)
      (Takes : String → Type 0) (p : IsStoring path initial Takes) where
    abbrev held : History → Option String
    held = stored initial (c.base_url <> path)

    receive-absent :
        (h : History)
        → held h ≡ none
        → settle_read (receive w ctx method_get path (some to_fields) (w.reply h (reading path)))
          ≡ ok unregistered
    unfolding receive with_status read_provider_response success_status settle_read is_not_found
        as_api new_api_error
    receive-absent h e = rw (p.absent h e, open_ctx) (refl)

    decode-shown :
        (b : ℕ) (rest : List ℕ) (json : Json) (m : Fields)
        → w.parse_json (b ∷ rest) ≡ some json
        → to_fields json ≡ some m
        → decode w (record ctx { confidential = false }) method_get 200 (some to_fields) (b ∷ rest)
          ≡ ok m
    unfolding decode
    decode-shown b rest json m document members = ground (arith, document, members)

    receive-present :
        (h : History) (s : String)
        → held h ≡ some s
        → Takes s
        → (m : Fields) × (receive w ctx method_get path (some to_fields) (w.reply h (reading path))
            ≡ ok m)
          × (text_at m "webhookUrl" ≡ s)
    unfolding receive with_status read_provider_response success_status decode
    receive-present h s e takes =
        let (bytes, b, rest, json, m, answer, short, document, members, url) =
          p.present h s e takes in
        (m, rw (answer, open_ctx, short) (decode-shown b rest json m document members), url)

    registration_of-IsFound :
        (m : Fields) (s : String)
        → text_at m "webhookUrl" ≡ s
        → IsFound (some s) (registration_of m)
    unfolding registration_of points_at
    registration_of-IsFound m s shown d there = elim (Bool-cases (trim_space s == "")) [
      | inl blank ↦
          rw (shown, blank)
            (
              λ h. cc h,
              λ same. absurd (
                  there (
                    ap trim_space (sym (some_injective same))
                    ∙ (eq_iff (trim_space s) "").0 blank)),
            )
      | inr full ↦
          rw (shown, full)
            (λ h. ap some ((eq_iff s d).0 h), λ same. (eq_iff s d).1 (some_injective same))
    ]

    unregistered-IsFound : IsFound none unregistered
    unfolding points_at
    unregistered-IsFound d there = (λ h. cc h, λ h. cc h)

    read-eq :
        (h : History) (r : Outcome Error Fields) (state : Registration)
        → receive w ctx method_get path (some to_fields) (w.reply h (reading path)) ≡ r
        → settle_read r ≡ ok state
        → read_automatic_webhook w ctx c path h ≡ (ok state, sent (reading path) ∷ h)
    unfolding read_automatic_webhook
    read-eq h r state received settled =
        ap (λ (x : Outcome Error Fields × History). (settle_read x.0, x.1))
          (do_raw-plain method_get path none (some to_fields) h open_ctx p.address
            (unfold marshal_fails in refl))
        ∙ ap (λ x. (settle_read x, sent (reading path) ∷ h)) received
        ∙ ap (λ x. (x, sent (reading path) ∷ h)) settled

    pub reads_back_stored :
        (h : History)
        → ((s : String) → held h ≡ some s → Takes s)
        → (state : Registration) × (read_automatic_webhook w ctx c path h
            ≡ (ok state, sent (reading path) ∷ h))
          × IsFound (held h) state
    unfolding settle_read
    reads_back_stored h takes = elim (Option-cases (held h)) [
      | inl gone ↦ (
        unregistered,
        read-eq h _ unregistered refl (receive-absent h gone),
        rw gone unregistered-IsFound,
      )
      | inr (s, there) ↦
          let (m, received, shown) = receive-present h s there (takes s there) in
          (
            registration_of m,
            read-eq h (ok m) (registration_of m) received refl,
            rw there (registration_of-IsFound m s shown),
          )
    ]
