-- ===== src/Api/Http.antt =====
-- providers/efi/efiapi/client.go and classifyPath of metrics.go.
use integration_efi.Base.{
  ℕ, String, Bool, false, ◌&&◌, ◌||◌, not, Option, none, some, List, [], ◌∷◌, Outcome, ok, err,
  if◌then◌else◌, ◌==◌, ◌<>◌, has_prefix, has_infix, is_none,
}
use integration_efi.Value.{Value, Fields, end, Json}
use integration_efi.World.{World, Method, bearer, Request, Reply, failed, broken, answered, sent}
use integration_efi.Api.Errors.{Error, api, transport, plain, wrap}
use integration_efi.Api.Sanitize.{new_api_error}
use integration_efi.Api.Effects.{Exec, raise, ◌>>=◌, ◌>>◌, lift}
use integration_efi.Api.Confidential.{
  Context, confidential_mutation_allowed, mutation_request_context, safe_confidential_error,
  confidential_response_failure, read_provider_response, success_status,
}

-- classifyPath
unfoldable pub classify_path : String → String
unfolding has_prefix has_infix
classify_path path =
    if has_prefix path "/oauth/token"
    then "oauth"
    else if has_prefix path "/v2/cobv"
    then "create_due_charge"
    else if has_prefix path "/v2/cob" && has_infix path "?"
    then "get_statement"
    else if has_prefix path "/v2/cob"
    then "cob"
    else if has_prefix path "/v2/pix/" && has_infix path "/devolucao/"
    then "refund_charge"
    else if has_prefix path "/v3/gn/pix/"
    then "create_payout"
    else if has_prefix path "/v2/webhook/" || has_prefix path "/v3/gn/webhook/"
    then "webhook"
    else if path == "/v2/webhookrec" || path == "/v2/webhookcobr"
    then "automatic_webhook"
    else "other"

-- The configuration that the client keeps, and its token.
pub record Client : Type 0 where
  pub base_url : String
  pub token : String

-- Where a response is decoded to: nowhere (dest == nil), a type with its own decoder, or the value
-- that json.Unmarshal finds unfit.
abbrev pub Decoder : Type 0
Decoder = Json → Option Fields

module _ (w : World) where
  -- http.Client.Do: the request goes out and the environment answers.
  unfoldable pub send : Request → Exec Reply
  send req h = (ok (w.reply h req), sent req ∷ h)

  body_of : Reply → Outcome String (List ℕ)
  body_of (failed text) = err text
  body_of (broken status text) = err text
  body_of (answered status bytes) = ok bytes

  -- The part of doInner that follows the answer. A body of no bytes is not decoded.
  unfoldable pub decode : Context → Method → ℕ → Option Decoder → List ℕ → Outcome Error Fields
  decode ctx method status none bytes = ok end
  decode ctx method status (some decoder) [] = ok end
  decode ctx method status (some decoder) (b ∷ bs) =
      let bad =
        err (confidential_response_failure ctx method status (plain "efi: decode response")) in
      elim (w.parse_json (b ∷ bs)) [
        | none ↦ bad
        | some json ↦ elim (decoder json) [ none ↦ bad | some m ↦ ok m ]
      ]

  unfoldable pub with_status :
      Context → Method → ℕ → Option Decoder → Outcome Error (List ℕ) → Outcome Error Fields
  with_status ctx method status dest (err e) =
      err (confidential_response_failure ctx method status (wrap "efi: read response body" e))
  with_status ctx method status dest (ok bytes) =
      if success_status status
      then decode ctx method status dest bytes
      else err (api (new_api_error w status "provider_error"))

  unfoldable pub receive : Context → Method → String → Option Decoder → Reply → Outcome Error Fields
  unfolding with_status
  receive ctx method path dest (failed text) = err (transport (classify_path path) (plain text))
  receive ctx method path dest (broken status text) =
      with_status ctx method status dest (read_provider_response ctx (err text))
  receive ctx method path dest (answered status bytes) =
      with_status ctx method status dest (read_provider_response ctx (ok bytes))

  unfoldable pub marshal_fails : Option Value → Bool
  marshal_fails none = false
  marshal_fails (some v) = not (w.marshals v)

  module _ (ctx : Context) (c : Client) where
    -- doInner
    unfoldable pub do_inner :
        Method → String → Option Value → Option Decoder → List (String × String) → Exec Fields
    unfolding marshal_fails
    do_inner method path body dest headers =
        if marshal_fails body
        then raise (plain "efi: marshal request body")
        else if is_none (w.parse_url (c.base_url <> path))
        then raise (plain "efi: build provider request")
        else do
          confidential_mutation_allowed w ctx method
          mutation_request_context w ctx method
          answer ← send (record {
            method = method;
            url = c.base_url <> path;
            authorization = bearer c.token;
            body = body;
            headers = headers;
          })
          lift (receive ctx method path dest answer)

    -- do, less its span and its metrics
    unfoldable pub do_request :
        Method → String → Option Value → Option Decoder → List (String × String) → Exec Fields
    do_request method path body dest headers h =
        let (r, h') = do_inner method path body dest headers h in
        (safe_confidential_error w ctx r, h')

    -- DoRaw
    unfoldable pub do_raw : Method → String → Option Value → Option Decoder → Exec Fields
    unfolding do_request
    do_raw method path body dest = do_request method path body dest []
