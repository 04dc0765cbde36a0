-- ===== src/Contract.antt =====
-- pkg/contractcheck/contractcheck.go: the lint of a describe contract. A map is the list of its keys;
-- the order in which one is walked is not seen, since the issues are sorted.
pub mod Consistent
use integration_efi.Base.{
  String, Bool, true, false, Option, none, some, List, [], ◌∷◌, ◌++◌, ◌==◌, ◌<>◌, any, map,
  if◌then◌else◌,
}
use integration_efi.Manifest.{ResourceType, ActionDefinition, DescribeResponse}

abbrev pub is_in : List String → String → Bool
is_in names x = any (λ s. s == x) names

-- The keys of a map that is filled in this order.
unfoldable pub keys_of : List String → List String
keys_of [] = []
keys_of (x ∷ xs) = let rest = keys_of xs in if is_in xs x then rest else x ∷ rest

-- An issue for each name that is not in a set.
unfoldable pub missing_from : List String → (String → String) → List String → List String
missing_from names issue [] = []
missing_from names issue (x ∷ xs) =
    let rest = missing_from names issue xs in if is_in names x then rest else issue x ∷ rest

abbrev pub is_empty : List String → Bool
is_empty [] = true
is_empty (x ∷ xs) = false

abbrev pub action_names : DescribeResponse → List String
action_names spec = map (λ (a : ActionDefinition). a.name) spec.action_catalog

abbrev pub resource_names : DescribeResponse → List String
resource_names spec = map (λ (t : ResourceType). t.name) spec.resource_types

-- The texts of the issues go through strconv.Quote, and their list through sort.Strings.
module _ (quote : String → String) where
  unfoldable pub action_issues : List String → ActionDefinition → List String
  unfolding missing_from
  action_issues resources action =
      if is_empty action.resource_types
      then ("action " <> quote action.name <> " has no resource_types") ∷ []
      else missing_from resources
          (λ ref.
            "action " <> quote action.name <> " references unknown resource_type " <> quote ref)
          action.resource_types

  unfoldable pub catalog_issues : List String → List ActionDefinition → List String
  catalog_issues resources [] = []
  catalog_issues resources (action ∷ actions) =
      action_issues resources action ++ catalog_issues resources actions

  unfoldable pub default_issues : List String → List ResourceType → List String
  default_issues operations [] = []
  default_issues operations (rt ∷ rts) =
      missing_from operations
        (λ op.
          "resource_type "
          <> quote rt.name
          <> " default_actions references unknown operation "
          <> quote op)
        rt.default_actions
      ++ default_issues operations rts

  -- The issues in the order in which they are found.
  unfoldable pub issues_of : DescribeResponse → List String → List String
  issues_of spec supported_ops =
      missing_from (action_names spec)
        (λ op.
          "operation "
          <> quote op
          <> " in SupportedExecuteOperations is missing from ActionCatalog")
        supported_ops
      ++ (missing_from supported_ops
            (λ name.
              "action "
              <> quote name
              <> " in ActionCatalog is missing from SupportedExecuteOperations")
            (keys_of (action_names spec))
          ++ (catalog_issues (resource_names spec) spec.action_catalog
              ++ (default_issues supported_ops spec.resource_types
                  ++ missing_from supported_ops
                      (λ op. "idempotent_actions references unknown operation " <> quote op)
                      spec.execution.idempotent_actions)))

  -- strings.Join
  abbrev join : String → List String → String
  join sep [] = ""
  join sep (x ∷ []) = x
  join sep (x ∷ xs) = let rest = join sep xs in x <> sep <> rest

  -- LintDescribeContract: the text of its error, if it has one
  unfoldable pub lint_describe_contract :
      (List String → List String) → DescribeResponse → List String → Option String
  lint_describe_contract sort_strings spec supported_ops =
      let issues = issues_of spec supported_ops in
      if is_empty issues
      then none
      else some ("describe contract drift detected:\n  - " <> join "\n  - " (sort_strings issues))
