-- ===== src/Tests/Sessions.antt =====
-- Examples for the making of a client.
use integration_efi.Api.Confidential.{
  read_provider_response, safe_confidential_error, success_status,
}
use integration_efi.Base.{◌≡◌, refl, true, [], ◌∷◌, ok, err, trim_space}
use integration_efi.World.{sent}
use integration_efi.Api.{api, background, Client}
use integration_efi.Session.{Config, oauth_request, oauth_refused, new_efi_client}
use integration_efi.Session.Token.{IsGranted, new_efi_client-IsGranted}
use integration_efi.Tests.{good, missing}

abbrev pub settings : Config
settings = record {
  client_key_id = "id";
  client_secret = "secret";
  certificate_path = "";
  certificate_base64 = "";
  base_url = "https://api.example";
  webhook_receiver_url = "";
  mtls_enabled = true;
}

abbrev made : Client
made = record { base_url = "https://api.example"; token = "token" }

good_makes : (new_efi_client good background settings []).0 ≡ ok made
unfolding new_efi_client safe_confidential_error read_provider_response success_status trim_space
good_makes = refl

new_efi_client-IsGranted_example :
    IsGranted good background (good.reply [] (oauth_request good background settings)) "token"
    × (made.base_url ≡ settings.base_url)
    × ((new_efi_client good background settings []).1
        ≡ sent (oauth_request good background settings) ∷ [])
new_efi_client-IsGranted_example =
    new_efi_client-IsGranted good background settings [] made good_makes

missing_refuses :
    (new_efi_client missing background settings []).0
    ≡ err (api (oauth_refused missing background 404))
unfolding new_efi_client safe_confidential_error read_provider_response success_status
missing_refuses = refl
