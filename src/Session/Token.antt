-- ===== src/Session/Token.antt =====
-- What a client is made from.
use integration_efi.Base.{
  ℕ, ◌≡◌, ◌≢◌, ◌⊎◌, inl, inr, ap, sym, refl, String, true, false, none, some, List, ◌∷◌, Outcome,
  ok, err, arith, ◌<>◌, eq_iff, trim_space, Bool-cases, Option-cases, ok_injective, err_injective,
}
use integration_efi.World.{World, Reply, failed, broken, answered, sent, History}
use integration_efi.Api.{Error, plain, ApiError, as_api, Context, Client}
use integration_efi.Api.Confidential.{
  limited, read_provider_response, safe_confidential_error, safe_error, success_status,
}
use integration_efi.Api.Sanitize.{new_api_error}
use integration_efi.Api.Boundary.{IsClosed, safe_confidential_error-IsClosed}
use integration_efi.Api.Responses.{status_of}
use integration_efi.Session.{
  Config, oauth_request, oauth_refused, decode_token, token_with_status, receive_token, client_of,
  new_efi_client,
}

module _ (w : World) (ctx : Context) where
  -- What a body was read as: all of it, or in an ordinary context as much as the limit lets through.
  abbrev pub IsReadAs : List ℕ → List ℕ → Type 0
  IsReadAs bytes body = (body ≡ bytes) ⊎ ((ctx.confidential ≡ false) × (body ≡ limited bytes))

  -- A token that is not blank, read from the bytes of an answer with a 2xx status.
  pub record IsGranted (answer : Reply) (token : String) : Type 0 where
    pub status : ℕ
    pub bytes : List ℕ
    pub body : List ℕ
    pub given : answer ≡ answered status bytes
    pub succeeded : success_status status ≡ true
    pub read : IsReadAs bytes body
    pub holds_token : w.read_access_token body ≡ some token
    pub not_blank : trim_space token ≢ ""

  decode_token_fine :
      (bytes : List ℕ) (token : String)
      → decode_token w ctx bytes ≡ ok token
      → (w.read_access_token bytes ≡ some token) × (trim_space token ≢ "")
  unfolding decode_token
  decode_token_fine bytes token h = elim (Option-cases (w.read_access_token bytes)) [
    | inl unfit ↦ ground arith
    | inr (t, found) ↦ (ground arith, ground (arith, eq_iff (trim_space t) ""))
  ]

  read-IsReadAs :
      (bytes body : List ℕ) → read_provider_response ctx (ok bytes) ≡ ok body → IsReadAs bytes body
  unfolding read_provider_response
  read-IsReadAs bytes body h = elim (Bool-cases ctx.confidential) [
    | inl sealed ↦ inl (ground arith)
    | inr plainly ↦ inr (plainly, ground arith)
  ]

  token_with_status_fine :
      (status : ℕ) (r : Outcome Error (List ℕ)) (token : String)
      → token_with_status w ctx status r ≡ ok token
      → (body : List ℕ) × (r ≡ ok body)
        × (success_status status ≡ true)
        × (w.read_access_token body ≡ some token)
        × (trim_space token ≢ "")
  unfolding token_with_status
  token_with_status_fine status (err e) token h = cc
  token_with_status_fine status (ok body) token h = elim (Bool-cases (success_status status)) [
    | inl good ↦
        let (holds, fine) = decode_token_fine body token (ground arith) in
        (body, refl, good, holds, fine)
    | inr bad ↦ ground arith
  ]

  receive_token-IsGranted :
      (answer : Reply) (token : String)
      → receive_token w ctx answer ≡ ok token
      → IsGranted answer token
  unfolding receive_token read_provider_response
  receive_token-IsGranted (failed text) token h = cc
  receive_token-IsGranted (broken status text) token h =
      let (body, read, good, holds, fine) =
        token_with_status_fine status (read_provider_response ctx (err text)) token h in
      cc read
  receive_token-IsGranted (answered status bytes) token h =
      let (body, read, good, holds, fine) =
        token_with_status_fine status (read_provider_response ctx (ok bytes)) token h in
      record {
        status = status;
        bytes = bytes;
        body = body;
        given = refl;
        succeeded = good;
        read = read-IsReadAs bytes body read;
        holds_token = holds;
        not_blank = fine;
      }

  safe_ok :
      (r : Outcome Error Client) (c : Client) → safe_confidential_error w ctx r ≡ ok c → r ≡ ok c
  unfolding safe_confidential_error
  safe_ok (ok d) c h = h
  safe_ok (err e) c h = cc

  client_of_ok :
      (cfg : Config) (r : Outcome Error String) (c : Client)
      → client_of w ctx cfg r ≡ ok c
      → (r ≡ ok c.token) × (c.base_url ≡ cfg.base_url)
  client_of_ok cfg (ok token) c h =
      (ap (λ d. ok d.token) (ok_injective h), ap (λ d. d.base_url) (sym (ok_injective h)))
  client_of_ok cfg (err e) c h = cc

  -- The outcome of the exchange, from an answer.
  client-IsGranted :
      (cfg : Config) (answer : Reply) (c : Client)
      → safe_confidential_error w ctx (client_of w ctx cfg (receive_token w ctx answer)) ≡ ok c
      → IsGranted answer c.token × (c.base_url ≡ cfg.base_url)
  client-IsGranted cfg answer c good =
      let (granted, same) =
        client_of_ok cfg (receive_token w ctx answer) c
          (safe_ok (client_of w ctx cfg (receive_token w ctx answer)) c good) in
      (receive_token-IsGranted answer c.token granted, same)

  -- A client has a token that is not blank, read from the bytes that the provider gave with a 2xx answer
  -- to the one request of the run: the POST to the configured host with the configured key and secret.
  pub new_efi_client-IsGranted :
      (cfg : Config) (h : History) (c : Client)
      → (new_efi_client w ctx cfg h).0 ≡ ok c
      → IsGranted (w.reply h (oauth_request w ctx cfg)) c.token
        × (c.base_url ≡ cfg.base_url)
        × ((new_efi_client w ctx cfg h).1 ≡ sent (oauth_request w ctx cfg) ∷ h)
  unfolding new_efi_client safe_confidential_error
  new_efi_client-IsGranted cfg h c good =
      elim (Option-cases (w.parse_url (cfg.base_url <> "/oauth/token"))) [
        | inl unfit ↦ ground arith
        | inr (url, parsed) ↦
            let (granted, same) =
              client-IsGranted cfg (w.reply h (oauth_request w ctx cfg)) c (ground arith) in
            (granted, same, rw parsed refl)
      ]

  -- A refused exchange: the texts are the adapter's own.
  abbrev IsOpaque : Reply → Error → Type 0
  IsOpaque answer e =
      (a : ApiError)
      → as_api e ≡ some a
      → (a.message ≡ "authentication failed") × (status_of answer ≡ some a.status)

  read-as_api :
      (body : Outcome String (List ℕ)) (x : Error)
      → read_provider_response ctx body ≡ err x
      → as_api x ≡ none
  unfolding read_provider_response as_api
  read-as_api (err text) x h = ground arith
  read-as_api (ok bytes) x h = ground arith

  decode-as_api : (bytes : List ℕ) (x : Error) → decode_token w ctx bytes ≡ err x → as_api x ≡ none
  unfolding decode_token as_api
  decode-as_api bytes x h = ground arith

  token_with_status-IsOpaque :
      (status : ℕ) (body : Outcome Error (List ℕ)) (e : Error)
      → ((x : Error) → body ≡ err x → as_api x ≡ none)
      → token_with_status w ctx status body ≡ err e
      → (a : ApiError) → as_api e ≡ some a
      → (a.message ≡ "authentication failed") × (some status ≡ some a.status)
  unfolding token_with_status as_api oauth_refused new_api_error
  token_with_status-IsOpaque status (err x) e quiet h a is_api = ground (arith, quiet x refl)
  token_with_status-IsOpaque status (ok bytes) e quiet h a is_api =
      elim (Bool-cases (success_status status)) [
        | inl good ↦ ground (arith, decode-as_api bytes e)
        | inr bad ↦ (ground arith, ground arith)
      ]

  receive_token-IsOpaque :
      (answer : Reply) (e : Error) → receive_token w ctx answer ≡ err e → IsOpaque answer e
  unfolding receive_token as_api
  receive_token-IsOpaque (failed text) e h a is_api = ground arith
  receive_token-IsOpaque (broken status text) e h a is_api =
      token_with_status-IsOpaque status (read_provider_response ctx (err text)) e
        (read-as_api (err text)) h a is_api
  receive_token-IsOpaque (answered status bytes) e h a is_api =
      token_with_status-IsOpaque status (read_provider_response ctx (ok bytes)) e
        (read-as_api (ok bytes)) h a is_api

  open_errors :
      (r : Outcome Error Client) (e : Error)
      → ctx.confidential ≡ false
      → safe_confidential_error w ctx r ≡ err e
      → r ≡ err e
  unfolding safe_confidential_error safe_error
  open_errors (ok c) e conf h = cc
  open_errors (err x) e conf h = ground arith

  client_of_err :
      (cfg : Config) (r : Outcome Error String) (e : Error)
      → client_of w ctx cfg r ≡ err e
      → r ≡ err e
  client_of_err cfg (ok token) e h = cc
  client_of_err cfg (err x) e h = ap err (err_injective h)

  no_api : (text : String) → as_api (plain text) ≡ none
  unfolding as_api
  no_api text = refl

  -- A client that could not be made leaves no text of the provider's: in a confidential context the
  -- error is one of the closed set, and otherwise an API error has the provider's status and a
  -- message of the adapter's own.
  new_efi_client-IsOpaque :
      (cfg : Config) (h : History) (e : Error)
      → (new_efi_client w ctx cfg h).0 ≡ err e
      → (ctx.confidential ≡ true → IsClosed w e)
        × (ctx.confidential ≡ false → IsOpaque (w.reply h (oauth_request w ctx cfg)) e)
  unfolding new_efi_client
  new_efi_client-IsOpaque cfg h e wrong =
      elim (Option-cases (w.parse_url (cfg.base_url <> "/oauth/token"))) [
        | inl unfit ↦
            let refused : safe_confidential_error w {A = Client} ctx
                  (err (plain "efi: build oauth request"))
                ≡ err e =
              ground arith in
            (
              λ conf. safe_confidential_error-IsClosed w ctx _ e conf refused,
              λ conf a is_api. cc (
                err_injective (open_errors _ e conf refused),
                no_api "efi: build oauth request",
                is_api,
              ),
            )
        | inr (url, parsed) ↦
            let answer = w.reply h (oauth_request w ctx cfg) in
            let refused : safe_confidential_error w ctx
                  (client_of w ctx cfg (receive_token w ctx answer))
                ≡ err e =
              ground arith in
            (
              λ conf. safe_confidential_error-IsClosed w ctx _ e conf refused,
              λ conf.
                  receive_token-IsOpaque answer e (
                    client_of_err cfg (receive_token w ctx answer) e
                      (open_errors _ e conf refused)),
            )
      ]
