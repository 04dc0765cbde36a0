-- ===== src/Contract/Consistent.antt =====
-- What the lint accepts.
use integration_efi.Base.{
  ◌≡◌, ◌≢◌, ◌↔◌, ◌⊎◌, inl, inr, refl, sym, ◌∙◌, String, true, none, List, [], ◌∷◌, ◌++◌, All, arith,
  eq_iff, eq_refl, Bool-cases,
}
use mathlib.Core.Bool.{true≢false}
use mathlib.Core.Path.{subst}
use integration_efi.Manifest.{ResourceType, ActionDefinition, DescribeResponse}
use integration_efi.Contract.{
  is_in, keys_of, missing_from, is_empty, action_issues, catalog_issues, default_issues,
  action_names, resource_names, issues_of, lint_describe_contract,
}

abbrev pub IsIn : String → List String → Type 0
IsIn x names = is_in names x ≡ true

-- Every name of one list is in another.
abbrev pub IsWithin : List String → List String → Type 0
IsWithin xs names = (x : String) → IsIn x xs → IsIn x names

append-eq-nil_iff : {A : Type 0} (xs ys : List A) → (xs ++ ys ≡ []) ↔ ((xs ≡ []) × (ys ≡ []))
append-eq-nil_iff [] ys = (λ h. (refl, h), λ p. p.1)
append-eq-nil_iff (x ∷ xs) ys = (λ h. cc h, λ p. cc (p.0))

IsIn-cons : (x y : String) (ys : List String) → IsIn x (y ∷ ys) → (y ≡ x) ⊎ IsIn x ys
IsIn-cons x y ys p = ground (arith, eq_iff y x)

IsIn-head : (y : String) (ys : List String) → IsIn y (y ∷ ys)
IsIn-head y ys = ground (arith, eq_refl y)

IsIn-tail : (x y : String) (ys : List String) → IsIn x ys → IsIn x (y ∷ ys)
IsIn-tail x y ys p = ground (arith, p)

missing_from-cons_iff :
    (names : List String) (issue : String → String) (y : String) (ys : List String)
    → (missing_from names issue (y ∷ ys) ≡ []) ↔ (IsIn y names × (missing_from names issue ys ≡ []))
unfolding missing_from
missing_from-cons_iff names issue y ys = elim (Bool-cases (is_in names y)) [
  | inl there ↦ rw there (λ h. (refl, h), λ p. p.1)
  | inr gone ↦ rw gone (λ h. cc h, λ p. cc (p.0))
]

-- No issue is raised exactly when every name is in the set.
missing_from-eq-nil_iff :
    (names : List String) (issue : String → String) (xs : List String)
    → (missing_from names issue xs ≡ []) ↔ IsWithin xs names
missing_from-eq-nil_iff names issue [] = (λ h x p. cc p, λ h. unfold missing_from in refl)
missing_from-eq-nil_iff names issue (y ∷ ys) =
    let (to, from) = missing_from-eq-nil_iff names issue ys in
    let (split, join) = missing_from-cons_iff names issue y ys in
    (
      λ h x p. elim (IsIn-cons x y ys p) [
        | inl same ↦ subst (λ z. IsIn z names) same (split h).0
        | inr later ↦ to (split h).1 x later
      ],
      λ h. join (h y (IsIn-head y ys), from (λ x p. h x (IsIn-tail x y ys p))),
    )

is_in-keys_of : (xs : List String) (x : String) → is_in (keys_of xs) x ≡ is_in xs x
unfolding keys_of
is_in-keys_of [] x = refl
is_in-keys_of (y ∷ ys) x = ground (arith, is_in-keys_of ys x, Bool-cases (is_in ys y), eq_iff y x)

-- A map has the keys that were put in.
keys_of-IsWithin_iff : (xs names : List String) → IsWithin (keys_of xs) names ↔ IsWithin xs names
keys_of-IsWithin_iff xs names =
    (λ h x p. h x (is_in-keys_of xs x ∙ p), λ h x p. h x (sym (is_in-keys_of xs x) ∙ p))

-- An action has a resource type, and each one that it names is there.
abbrev pub IsSound : List String → ActionDefinition → Type 0
IsSound resources action = (action.resource_types ≢ []) × IsWithin action.resource_types resources

-- A contract without drift: the operations and the actions are the same names, each action has resource
-- types that exist, and the default and idempotent actions are operations.
pub record IsConsistent (spec : DescribeResponse) (supported_ops : List String) : Type 0 where
  pub operations_listed : IsWithin supported_ops (action_names spec)
  pub actions_supported : IsWithin (action_names spec) supported_ops
  pub actions_sound : All (IsSound (resource_names spec)) spec.action_catalog
  pub defaults_supported :
      All (λ (t : ResourceType). IsWithin t.default_actions supported_ops) spec.resource_types
  pub idempotent_supported : IsWithin spec.execution.idempotent_actions supported_ops

module _ (quote : String → String) where
  is_empty_iff : (xs : List String) → (is_empty xs ≡ true) ↔ (xs ≡ [])
  is_empty_iff [] = (λ h. refl, λ h. refl)
  is_empty_iff (x ∷ xs) = (λ h. cc h, λ h. cc h)

  action_issues-eq-nil_iff :
      (resources : List String) (action : ActionDefinition)
      → (action_issues quote resources action ≡ []) ↔ IsSound resources action
  unfolding action_issues
  action_issues-eq-nil_iff resources action =
      let refs = action.resource_types in
      elim (Bool-cases (is_empty refs)) [
        | inl empty ↦ rw empty (λ h. cc h, λ p. absurd (p.0 ((is_empty_iff refs).0 empty)))
        | inr full ↦ rw full (
          λ h. (
            λ e. true≢false (sym ((is_empty_iff refs).1 e) ∙ full),
            (missing_from-eq-nil_iff resources _ refs).0 h,
          ),
          λ p. (missing_from-eq-nil_iff resources _ refs).1 p.1,
        )
      ]

  catalog_issues-eq-nil_iff :
      (resources : List String) (actions : List ActionDefinition)
      → (catalog_issues quote resources actions ≡ []) ↔ All (IsSound resources) actions
  unfolding catalog_issues
  catalog_issues-eq-nil_iff resources [] = (λ h. tt, λ h. refl)
  catalog_issues-eq-nil_iff resources (action ∷ actions) =
      let (to, from) = catalog_issues-eq-nil_iff resources actions in
      let (here, back) = action_issues-eq-nil_iff resources action in
      let (split, join) =
        append-eq-nil_iff (action_issues quote resources action)
          (catalog_issues quote resources actions) in
      (λ h. (here (split h).0, to (split h).1), λ p. join (back p.0, from p.1))

  default_issues-eq-nil_iff :
      (operations : List String) (rts : List ResourceType)
      → (default_issues quote operations rts ≡ [])
        ↔ All (λ (t : ResourceType). IsWithin t.default_actions operations) rts
  unfolding default_issues
  default_issues-eq-nil_iff operations [] = (λ h. tt, λ h. refl)
  default_issues-eq-nil_iff operations (t ∷ rts) =
      let (to, from) = default_issues-eq-nil_iff operations rts in
      let (here, back) = missing_from-eq-nil_iff operations _ t.default_actions in
      let (split, join) = append-eq-nil_iff _ (default_issues quote operations rts) in
      (λ h. (here (split h).0, to (split h).1), λ p. join (back p.0, from p.1))

  issues_of-eq-nil_iff :
      (spec : DescribeResponse) (ops : List String)
      → (issues_of quote spec ops ≡ []) ↔ IsConsistent spec ops
  unfolding issues_of
  issues_of-eq-nil_iff spec ops =
      let (split1, join1) = append-eq-nil_iff (missing_from (action_names spec) _ ops) _ in
      let (split2, join2) =
        append-eq-nil_iff (missing_from ops _ (keys_of (action_names spec))) _ in
      let (split3, join3) =
        append-eq-nil_iff (catalog_issues quote (resource_names spec) spec.action_catalog) _ in
      let (split4, join4) = append-eq-nil_iff (default_issues quote ops spec.resource_types) _ in
      let listed = missing_from-eq-nil_iff (action_names spec) _ ops in
      let known = missing_from-eq-nil_iff ops _ (keys_of (action_names spec)) in
      let keys = keys_of-IsWithin_iff (action_names spec) ops in
      let sound = catalog_issues-eq-nil_iff (resource_names spec) spec.action_catalog in
      let defaults = default_issues-eq-nil_iff ops spec.resource_types in
      let idempotent = missing_from-eq-nil_iff ops _ spec.execution.idempotent_actions in
      (
        λ h. record {
          operations_listed = listed.0 (split1 h).0;
          actions_supported = keys.0 (known.0 (split2 (split1 h).1).0);
          actions_sound = sound.0 (split3 (split2 (split1 h).1).1).0;
          defaults_supported = defaults.0 (split4 (split3 (split2 (split1 h).1).1).1).0;
          idempotent_supported = idempotent.0 (split4 (split3 (split2 (split1 h).1).1).1).1;
        },
        λ c. join1 (
          listed.1 c.operations_listed,
          join2 (
            known.1 (keys.1 c.actions_supported),
            join3 (
              sound.1 c.actions_sound,
              join4 (defaults.1 c.defaults_supported, idempotent.1 c.idempotent_supported),
            ),
          ),
        ),
      )

  -- The lint raises no error exactly for a contract without drift: it implements the six rules that its
  -- documentation lists, in whatever order the maps are walked and the texts are sorted.
  pub lint_describe_contract-eq-none_iff :
      (sort_strings : List String → List String) (spec : DescribeResponse) (ops : List String)
      → (lint_describe_contract quote sort_strings spec ops ≡ none) ↔ IsConsistent spec ops
  unfolding lint_describe_contract
  lint_describe_contract-eq-none_iff sort_strings spec ops =
      let (to, from) = issues_of-eq-nil_iff spec ops in
      let empty = is_empty_iff (issues_of quote spec ops) in
      elim (Bool-cases (is_empty (issues_of quote spec ops))) [
        | inl none_found ↦ rw none_found (λ h. to (empty.0 none_found), λ c. refl)
        | inr some_found ↦ rw some_found (λ h. cc h, λ c. cc (some_found, empty.1 (from c)))
      ]
