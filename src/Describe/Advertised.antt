-- ===== src/Describe/Advertised.antt =====
-- What the manifest advertises, and what the execute path serves.
use integration_efi.Base.{
  ◌≡◌, ◌≢◌, ◌↔◌, All, refl, sym, ◌∙◌, String, Bool, true, false, none, List, [], ◌∷◌, eq_iff, arith,
}
use mathlib.Core.Bool.{true≢false}
use integration_efi.World.{World}
use integration_efi.Api.{Context, Client}
use integration_efi.Session.{Config}
use integration_efi.Routing.{
  ExecuteRequest, Others, handler, is_one_of, supported_execute_operations,
}
use integration_efi.Routing.Served.{handler-eq-none_iff}
use integration_efi.Manifest.{ActionDefinition}
use integration_efi.Contract.{
  action_names, lint_describe_contract, issues_of, missing_from, keys_of, catalog_issues,
  action_issues, default_issues, is_in,
}
use integration_efi.Contract.Consistent.{IsIn, IsConsistent, lint_describe_contract-eq-none_iff}
use integration_efi.Describe.{describe}
use integration_efi.Describe.Catalog.{action_catalog, resource_types, idempotent_actions}

abbrev same_texts : List String → List String
same_texts xs = xs

abbrev unquoted : String → String
unquoted s = s

module _ (w : World) (env : String → String) where
  describe-IsClean :
      lint_describe_contract unquoted same_texts (describe w env) supported_execute_operations
      ≡ none
  unfolding lint_describe_contract issues_of missing_from keys_of catalog_issues action_issues
      default_issues describe action_catalog resource_types idempotent_actions
  describe-IsClean = refl

  describe-IsConsistent : IsConsistent (describe w env) supported_execute_operations
  describe-IsConsistent =
      (lint_describe_contract-eq-none_iff unquoted same_texts (describe w env)
          supported_execute_operations).0
        describe-IsClean

  -- An action is flagged as idempotent exactly if its name is among the idempotent actions.
  describe-AreFlagged :
      All
        (λ (a : ActionDefinition).
          a.idempotent ≡ is_in (describe w env).execution.idempotent_actions a.name)
        (describe w env).action_catalog
  unfolding describe action_catalog idempotent_actions
  describe-AreFlagged = (
    refl,
    (
      refl,
      (
        refl,
        (
          refl,
          (
            refl,
            (
              refl,
              (refl, (refl, (refl, (refl, (refl, (refl, (refl, (refl, (refl, (refl, tt)))))))))),
            ),
          ),
        ),
      ),
    ),
  )

is_one_of-eq-is_in : (xs : List String) (v : String) → is_one_of xs v ≡ is_in xs v
is_one_of-eq-is_in [] v = refl
is_one_of-eq-is_in (x ∷ xs) v = ground (arith, eq_iff x v, eq_iff v x, is_one_of-eq-is_in xs v)

-- The negation of a test.
not-eq_iff : (b c : Bool) → (b ≡ true → c ≡ true) → (c ≡ true → b ≡ true) → (b ≡ true) ↔ (c ≢ false)
not-eq_iff true c to from = (λ _ e. true≢false (sym (to refl) ∙ e), λ _. refl)
not-eq_iff false true to from = (λ e. cc e, λ _. from refl)
not-eq_iff false false to from = (λ e. cc e, λ no. absurd (no refl))

module _ (w : World) (fallback_instance : String) (others : Others) (ctx : Context) where
  -- The manifest advertises exactly the actions that the execute path serves, whatever the environment.
  pub describe-eq-served_iff :
      (env : String → String) (cfg : Config) (c : Client) (req : ExecuteRequest) (op : String)
      → IsIn op (action_names (describe w env))
        ↔ (handler w fallback_instance others ctx cfg c req op ≢ none)
  describe-eq-served_iff env cfg c req op =
      let fine = describe-IsConsistent w env in
      let (to, from) = handler-eq-none_iff w fallback_instance others ctx cfg c req op in
      let same = is_one_of-eq-is_in supported_execute_operations op in
      let (left, right) =
        not-eq_iff (is_in (action_names (describe w env)) op)
          (is_one_of supported_execute_operations op) (λ h. same ∙ fine.actions_supported op h)
          (λ h. fine.operations_listed op (sym same ∙ h)) in
      (λ listed none_found. left listed (to none_found), λ served. right (λ e. served (from e)))
