-- ===== src/Session.antt =====
-- How a run gets its client: providers/efi/config/config.go, configFromRequest of
-- providers/efi/adapter/adapter.go, and NewEfiClientWithContext of providers/efi/efiapi/client.go.
pub mod Token
use integration_efi.Base.{
  ℕ, String, Bool, true, false, ◌||◌, not, Option, none, some, List, [], ◌∷◌, Outcome, ok, err,
  ◌==◌, ◌<>◌, if◌then◌else◌, trim_space, is_none,
}
use integration_efi.Value.{Value, string, object, Fields, field, end, text_at, value_at, as_bool}
use integration_efi.World.{
  World, method_post, basic, Request, Reply, failed, broken, answered, sent, History,
}
use integration_efi.Api.{
  Error, api, transport, plain, wrap, ApiError, Exec, return, raise, lift, ◌>>=◌, ◌>>◌, after,
  Context, Client, send,
}
use integration_efi.Api.Confidential.{
  read_provider_response, safe_confidential_error, success_status,
}
use integration_efi.Api.Sanitize.{new_api_error}

-- config.Config
pub record Config : Type 0 where
  pub client_key_id : String
  pub client_secret : String
  pub certificate_path : String
  pub certificate_base64 : String
  pub base_url : String
  pub webhook_receiver_url : String
  pub mtls_enabled : Bool

-- The environment variables are a function of their names.
module _ (w : World) (env : String → String) where
  -- getEnv
  unfoldable pub get_env : String → String
  get_env k = trim_space (env k)

  -- getEnvDefault
  unfoldable pub get_env_default : String → String → String
  get_env_default k fallback = let v = get_env k in if v == "" then fallback else v

  -- getEnvBool
  unfoldable pub get_env_bool : String → Bool → Bool
  get_env_bool k fallback =
      let v = w.to_lower (get_env k) in
      if v == "true" || v == "1" || v == "yes"
      then true
      else if v == "false" || v == "0" || v == "no"
      then false
      else fallback

  -- Load
  unfoldable pub load : Config
  unfolding get_env get_env_default get_env_bool
  load = record {
    client_key_id = get_env "EFI_API_CLIENT_KEY_ID";
    client_secret = get_env "EFI_API_CLIENT_SECRET";
    certificate_path = get_env "EFI_CERTIFICATE";
    certificate_base64 = get_env "EFI_CERTIFICATE_BASE64";
    base_url = get_env_default "EFI_BASE_URL" "https://pix.api.efipay.com.br";
    webhook_receiver_url = get_env "EFI_WEBHOOK_RECEIVER_URL";
    mtls_enabled = get_env_bool "EFI_MTLS_ENABLED" true;
  }

  -- A text of the instance, or what is there.
  abbrev override : Fields → String → String → String
  override m k old = if text_at m k == "" then old else text_at m k

  -- configFromRequest: of the instance's credentials and configuration
  unfoldable pub config_from_request : Fields → Fields → Config
  config_from_request credentials instance_config = record {
    client_key_id = override credentials "efi_client_key_id" load.client_key_id;
    client_secret = override credentials "efi_client_secret" load.client_secret;
    certificate_path = load.certificate_path;
    certificate_base64 = override credentials "efi_certificate_base64" load.certificate_base64;
    base_url = override instance_config "base_url" load.base_url;
    webhook_receiver_url =
        override instance_config "webhook_receiver_url" load.webhook_receiver_url;
    mtls_enabled = elim (as_bool (value_at instance_config "mtls_enabled")) [
      | none ↦ load.mtls_enabled
      | some b ↦ b
    ];
  }

module _ (w : World) (ctx : Context) where
  -- The request for a token.
  unfoldable pub oauth_request : Config → Request
  oauth_request cfg = record {
    method = method_post;
    url = cfg.base_url <> "/oauth/token";
    authorization = basic cfg.client_key_id cfg.client_secret;
    body = some (object (field "grant_type" (string "client_credentials") end));
    headers = [];
  }

  -- A refusal, whose text is the adapter's own.
  unfoldable pub oauth_refused : ℕ → ApiError
  oauth_refused status = record (new_api_error w status "oauth_failed") {
    message = "authentication failed";
  }

  -- The token of a successful response.
  unfoldable pub decode_token : List ℕ → Outcome Error String
  decode_token bytes = elim (w.read_access_token bytes) [
    | none ↦ err (plain "efi: decode oauth response")
    | some token ↦
        if trim_space token == ""
        then err (plain "efi: oauth response had empty access_token")
        else ok token
  ]

  unfoldable pub token_with_status : ℕ → Outcome Error (List ℕ) → Outcome Error String
  unfolding oauth_refused decode_token
  token_with_status status (err e) = err (wrap "efi: read oauth response" e)
  token_with_status status (ok bytes) =
      if success_status status then decode_token bytes else err (api (oauth_refused status))

  unfoldable pub receive_token : Reply → Outcome Error String
  unfolding token_with_status
  receive_token (failed text) = err (transport "oauth" (plain text))
  receive_token (broken status text) =
      token_with_status status (read_provider_response ctx (err text))
  receive_token (answered status bytes) =
      token_with_status status (read_provider_response ctx (ok bytes))

  abbrev client_of : Config → Outcome Error String → Outcome Error Client
  client_of cfg (ok token) = ok (record { base_url = cfg.base_url; token = token })
  client_of cfg (err e) = err e

  -- NewEfiClientWithContext, less its transport
  unfoldable pub new_efi_client : Config → Exec Client
  unfolding receive_token
  new_efi_client cfg h =
      if is_none (w.parse_url (cfg.base_url <> "/oauth/token"))
      then (safe_confidential_error w ctx (err (plain "efi: build oauth request")), h)
      else (
        safe_confidential_error w ctx
            (client_of cfg (receive_token (w.reply h (oauth_request cfg)))),
        sent (oauth_request cfg) ∷ h,
      )
