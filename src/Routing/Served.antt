-- ===== src/Routing/Served.antt =====
-- Which operations are served, and what an error of the execute path says.
use integration_efi.Base.{
  ◌≡◌, ◌≢◌, ◌⊎◌, ◌↔◌, inl, inr, refl, ap, sym, ◌∙◌, ◌++◌, String, Bool, true, false, ◌||◌, Option,
  none, some, List, [], ◌∷◌, Outcome, ok, err, arith, ◌==◌, eq_iff, trim_space, All, is_some,
  Bool-cases,
}
use integration_efi.World.{World, History}
use integration_efi.Api.{Error, plain, sentinel, mutation_accepted, Context, Client}
use integration_efi.Api.Confidential.{mutation_succeeded}
use integration_efi.Session.{Config}
use integration_efi.Routing.{
  ExecuteRequest, Others, handler, cases, is_one_of, find, legacy_operation_aliases,
  supported_execute_operations, sdk_only_operations, legacy_operation, canonical_operation_for,
  supports_execute_capability, masked, masked_outcome, execute_operation, execute_with_context,
}

abbrev IsSupported : String → Type 0
IsSupported op = is_one_of supported_execute_operations op ≡ true

-- A table of supported operations has no other entries.
find_served :
    (table : List (String × String)) (v op : String)
    → All (λ entry. IsSupported entry.1) table
    → find table v ≡ some op
    → IsSupported op
find_served [] v op good h = cc
find_served ((k, o) ∷ table) v op (good, rest) h = elim (Bool-cases (v == k)) [
  | inl same ↦ cc (same, h, good)
  | inr other ↦ find_served table v op rest (cc (other, h))
]

-- A legacy name stands for a supported operation.
legacy_served : (v op : String) → legacy_operation v ≡ some op → IsSupported op
unfolding legacy_operation
legacy_served v op h =
    find_served legacy_operation_aliases v op (refl, (refl, (refl, (refl, (refl, (refl, tt)))))) h

gate_sound :
    (served others : List String) (name : String) (legacy : Option String)
    → ((op : String) → legacy ≡ some op → is_one_of served op ≡ true)
    → (is_one_of served name || is_one_of others name || is_some legacy || name == "") ≡ true
    → name ≢ ""
    → let op : String = elim legacy [ none ↦ name | some op ↦ op ] in
      (is_one_of served op ≡ true) ⊎ (is_one_of others op ≡ true)
gate_sound served others name none good h there =
    ground (arith, Bool-cases (is_one_of served name), eq_iff name "")
gate_sound served others name (some op) good h there = inl (good op refl)

-- What the gate lets in, the execute path serves: a capability that passes it and is not blank has a
-- canonical operation that the switch knows, or one of the two of the SDK's own.
supports_execute_capability_sound :
    (v : String)
    → supports_execute_capability v ≡ true
    → trim_space v ≢ ""
    → (is_one_of supported_execute_operations (canonical_operation_for v) ≡ true)
      ⊎ (is_one_of sdk_only_operations (canonical_operation_for v) ≡ true)
unfolding supports_execute_capability canonical_operation_for
supports_execute_capability_sound v h there =
    gate_sound supported_execute_operations sdk_only_operations (trim_space v)
      (legacy_operation (trim_space v)) (legacy_served (trim_space v)) h there

abbrev names : {A : Type 0} → List (String × A) → List String
names [] = []
names ((k, a) ∷ table) = k ∷ names table

find-eq-none_iff :
    {A : Type 0} (table : List (String × A)) (v : String)
    → (find table v ≡ none) ↔ (is_one_of (names table) v ≡ false)
find-eq-none_iff [] v = (λ h. refl, λ h. refl)
find-eq-none_iff ((k, a) ∷ table) v =
    let (to, from) = find-eq-none_iff table v in
    elim (Bool-cases (v == k)) [
      | inl same ↦ rw same (λ h. cc h, λ h. cc h)
      | inr other ↦ rw other (to, from)
    ]

is_one_of-++ :
    (xs ys : List String) (v : String) → is_one_of (xs ++ ys) v ≡ (is_one_of xs v || is_one_of ys v)
is_one_of-++ [] ys v = refl
is_one_of-++ (x ∷ xs) ys v = ground (arith, is_one_of-++ xs ys v)

-- The names that the list and the switch have in the same order.
abbrev front : List String
front =
    "ensure_charge" ∷ "ensure_due_charge" ∷ "observe_charges" ∷ "destroy_charge" ∷ "refund_charge"
    ∷ "create_payout" ∷ "handle_chargeback" ∷ "ensure_webhook_subscription"
    ∷ "observe_webhook_subscriptions" ∷ "destroy_webhook_subscription" ∷ "verify_webhook_signature"
    ∷ "efi_webhook_received" ∷ []

abbrev listed : List String
listed =
    "on_surface_query" ∷ "ensure_automatic_webhook" ∷ "observe_automatic_webhooks"
    ∷ "observe_automatic_webhook_readiness" ∷ []

abbrev switched : List String
switched =
    "ensure_automatic_webhook" ∷ "observe_automatic_webhooks"
    ∷ "observe_automatic_webhook_readiness" ∷ "on_surface_query" ∷ []

or_last : (a b c d : Bool) → (a || (b || (c || (d || false)))) ≡ (b || (c || (d || (a || false))))
or_last a b c d = ground arith

same_names :
    (v : String) → is_one_of supported_execute_operations v ≡ is_one_of (front ++ switched) v
same_names v =
    let same : is_one_of listed v ≡ is_one_of switched v =
      or_last (v == "on_surface_query") (v == "ensure_automatic_webhook")
        (v == "observe_automatic_webhooks") (v == "observe_automatic_webhook_readiness") in
    is_one_of-++ front listed v
    ∙ ap (λ b. is_one_of front v || b) same
    ∙ sym (is_one_of-++ front switched v)

module _ (w : World) (fallback_instance : String) (others : Others) (ctx : Context) where
  -- The switch and the list of supported operations agree.
  pub handler-eq-none_iff :
      (cfg : Config) (c : Client) (req : ExecuteRequest) (op : String)
      → (handler w fallback_instance others ctx cfg c req op ≡ none)
        ↔ (is_one_of supported_execute_operations op ≡ false)
  unfolding handler
  handler-eq-none_iff cfg c req op =
      let (to, from) = find-eq-none_iff (cases w fallback_instance others ctx cfg c req) op in
      (λ h. same_names op ∙ to h, λ h. from (sym (same_names op) ∙ h))

  masked_two :
      {A : Type 0} (p : Outcome Error A × History) (e : Error)
      → ctx.confidential ≡ true
      → (masked_outcome w fallback_instance others ctx p).0 ≡ err e
      → (e ≡ sentinel mutation_accepted) ⊎ (e ≡ plain "efi: confidential provider operation failed")
  unfolding masked
  masked_two (ok a, h) e conf wrong = cc
  masked_two (err x, h) e conf wrong = ground (arith, Bool-cases (mutation_succeeded x))

  -- In a confidential context the execute path has two errors only, neither with a text of the
  -- provider's: that the mutation was accepted, and that the operation failed.
  pub execute_with_context-masked :
      (env : String → String) (req : ExecuteRequest) (h : History) (e : Error)
      → ctx.confidential ≡ true
      → (execute_with_context w fallback_instance others ctx env req h).0 ≡ err e
      → (e ≡ sentinel mutation_accepted) ⊎ (e ≡ plain "efi: confidential provider operation failed")
  unfolding execute_with_context
  execute_with_context-masked env req h e conf wrong =
      masked_two (execute_operation w fallback_instance others ctx env req h) e conf wrong
