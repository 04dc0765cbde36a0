-- ===== src/Reconcile/Wiring/Admitted.antt =====
-- The wired reconcilers and the gate of the execute path.
use integration_efi.Base.{
  ◌≡◌, refl, sym, ◌∙◌, String, Bool, true, false, ◌||◌, List, [], ◌∷◌, ◌==◌, ◌++◌, trim_space, all,
  is_some, arith, Bool-cases, and-eq-true, ap, inl, inr, eq_iff,
}
use integration_efi.Routing.{
  is_one_of, supported_execute_operations, sdk_only_operations, legacy_operation,
  supports_execute_capability,
}
use integration_efi.Reconcile.Wiring.{wire_reconcilers, dispatched_names, legacy_names}

-- A list whose members are all in another.
is_one_of-sub :
    (xs ys : List String) (v : String)
    → all (λ x. is_one_of ys x) xs ≡ true
    → is_one_of xs v ≡ true
    → is_one_of ys v ≡ true
is_one_of-sub [] ys v held e = cc e
is_one_of-sub (x ∷ xs) ys v held e = elim (Bool-cases (v == x)) [
  | inl same ↦ ap (is_one_of ys) ((eq_iff v x).0 same) ∙ (and-eq-true _ _ held).0
  | inr other ↦ is_one_of-sub xs ys v (and-eq-true _ _ held).1 (rw other at e)
]

is_one_of-++ :
    (xs ys : List String) (v : String) → is_one_of (xs ++ ys) v ≡ (is_one_of xs v || is_one_of ys v)
is_one_of-++ [] ys v = refl
is_one_of-++ (x ∷ xs) ys v = ground (arith, is_one_of-++ xs ys v)

-- Two alternatives of a gate that stand for each other behind the first.
same_gate :
    (served only wired legacy blank : Bool)
    → (only ≡ true → wired ≡ true)
    → (wired ≡ true → (served || only) ≡ true)
    → (served || only || legacy || blank) ≡ (served || wired || legacy || blank)
same_gate true only wired legacy blank to from = refl
same_gate false true true legacy blank to from = refl
same_gate false true false legacy blank to from = sym (cc (to refl))
same_gate false false true legacy blank to from = cc (from refl)
same_gate false false false legacy blank to from = refl

module _ (env : String → String) (instance_id : String) where
  abbrev wired_names : List String
  wired_names = dispatched_names (wire_reconcilers env instance_id)

  abbrev wired_legacy_names : List String
  wired_legacy_names = legacy_names (wire_reconcilers env instance_id)

  legacy-same : (v : String) → is_some (legacy_operation v) ≡ is_one_of wired_legacy_names v
  unfolding wire_reconcilers legacy_names legacy_operation
  legacy-same v = ground arith

  wired-AreAdmitted :
      all (λ x. is_one_of (supported_execute_operations ++ sdk_only_operations) x) wired_names
      ≡ true
  unfolding wire_reconcilers dispatched_names
  wired-AreAdmitted = refl

  only-AreWired : all (λ x. is_one_of wired_names x) sdk_only_operations ≡ true
  unfolding wire_reconcilers dispatched_names
  only-AreWired = refl

  only-wired :
      (v : String) → is_one_of sdk_only_operations v ≡ true → is_one_of wired_names v ≡ true
  only-wired v = is_one_of-sub sdk_only_operations wired_names v only-AreWired

  wired_served :
      (v : String)
      → is_one_of wired_names v ≡ true
      → (is_one_of supported_execute_operations v || is_one_of sdk_only_operations v) ≡ true
  wired_served v e =
      sym (is_one_of-++ supported_execute_operations sdk_only_operations v)
      ∙ is_one_of-sub wired_names (supported_execute_operations ++ sdk_only_operations) v
          wired-AreAdmitted e

  -- The gate of the execute path admits exactly the names that are served there, dispatched to a wired
  -- reconciler, kept as a wired reconciler's legacy name, or blank, in every environment and instance.
  pub supports_execute_capability-eq-wired :
      (v : String)
      → let name = trim_space v in
        supports_execute_capability v ≡ (
          is_one_of supported_execute_operations name
          || is_one_of (dispatched_names (wire_reconcilers env instance_id)) name
          || is_one_of (legacy_names (wire_reconcilers env instance_id)) name
          || name == "")
  unfolding supports_execute_capability
  supports_execute_capability-eq-wired v =
      let name = trim_space v in
      rw (legacy-same name) (same_gate _ _ _ _ _ (only-wired name) (wired_served name))
