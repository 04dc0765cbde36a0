-- ===== src/Tests/Messages.antt =====
-- Examples for the handler of a delivery.
use integration_efi.Base.{◌≡◌, refl, true, none, [], ◌∷◌, ok, equal_fold, without_char}
use integration_efi.Value.{Value, end, Json, closed, member}
use integration_efi.Api.{plain, raise}
use integration_efi.Message.{Sdk, confidential_envelope, execute_handler}
use integration_efi.Message.Secrecy.{IsSilent, execute_handler-IsSilent}
use integration_efi.Tests.Calls.{setting}
use integration_efi.Tests.Routes.{request}
use integration_efi.Tests.Toy.{constant_wire}

-- Every delivery has an input with a marker in it.
abbrev sdk : Sdk
sdk = record {
  top_members =
      λ raw. ("Input", Json.object (member "Confidential_Input" (Json.string "") closed)) ∷ [];
  values = constant_wire Value.null;
  read_names = λ raw. ok ("ensure_webhook_subscription", "");
  read_request = λ raw. ok request;
  integration_map = λ req. ok end;
  marshal_delivery = λ m. ok [];
  dispatch = λ ctx call body. raise (plain "secret");
  read_output = λ body. Value.null;
  output_value = λ out. Value.null;
  error_text = λ e. "secret";
}

sealed : confidential_envelope setting sdk [] ≡ true
unfolding confidential_envelope equal_fold without_char
sealed = refl

execute_handler-IsSilent_example :
    IsSilent setting sdk [] none
      (λ h. none)
      []
      (execute_handler setting sdk none (λ h. none) [] []).0
execute_handler-IsSilent_example =
    execute_handler-IsSilent setting sdk [] none (λ h. none) [] sealed
