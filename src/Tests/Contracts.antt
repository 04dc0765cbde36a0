-- ===== src/Tests/Contracts.antt =====
-- Examples for the lint of a contract.
use integration_efi.Base.{◌≡◌, ◌↔◌, none, [], ◌∷◌, String, true, false}
use integration_efi.Manifest.{DescribeResponse}
use integration_efi.Describe.{describe}
use integration_efi.Tests.{good}
use integration_efi.Contract.{lint_describe_contract}
use integration_efi.Contract.Consistent.{IsConsistent, lint_describe_contract-eq-none_iff}

abbrev quiet : String → String
quiet k = ""

-- What the adapter advertises, but for two actions in place of its own, one of which has no resource type.
abbrev spec : DescribeResponse
spec = record (describe good quiet) {
  resource_types =
      record {
        name = "charge";
        canonical_prefix = "";
        identity_template = "";
        discoverable = false;
        default_actions = "ensure_charge" ∷ [];
      }
      ∷ [];
  action_catalog =
      record {
        name = "ensure_charge";
        description = "";
        resource_types = "charge" ∷ [];
        idempotent = true;
        category = "";
      }
      ∷ record {
        name = "refund_charge";
        description = "";
        resource_types = [];
        idempotent = false;
        category = "";
      }
      ∷ [];
}

abbrev identity : {A : Type 0} → A → A
identity a = a

lint_describe_contract-eq-none_iff_example :
    (lint_describe_contract identity identity spec ("ensure_charge" ∷ []) ≡ none)
    ↔ IsConsistent spec ("ensure_charge" ∷ [])
lint_describe_contract-eq-none_iff_example =
    lint_describe_contract-eq-none_iff identity identity spec ("ensure_charge" ∷ [])
