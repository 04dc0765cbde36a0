-- ===== src/Tests/Resources.antt =====
-- An example for the reconcilers.
use integration_efi.Base.{
  ◌||◌, ◌==◌, trim_space, ◌≡◌, ◌≢◌, refl, String, none, some, ok, if◌then◌else◌,
}
use integration_efi.Value.{Value, null, string, object, Fields, field, end, get, has, object_at}
use integration_efi.World.{History}
use integration_efi.Api.{Exec, ◌>>=◌, return}
use integration_efi.Reconcile.{
  charge, Contexts, destroy_with_desired, reference_key, destroy_operation, default_dispatch,
}
use integration_efi.Routing.{is_one_of, supported_execute_operations, supports_execute_capability}
use integration_efi.Reconcile.Wiring.{wire_reconcilers, dispatched_names, legacy_names}
use integration_efi.Reconcile.Wiring.Admitted.{supports_execute_capability-eq-wired}
use integration_efi.Reconcile.Destroy.{destroy_with_desired-eq}

-- Integrations that are named by a text.
abbrev texts_as_contexts : Contexts String
texts_as_contexts = record { from_map = λ m. some "carried"; named = λ s. s; unnamed = "" }

abbrev run_nothing : String → Fields → String → Exec Value
run_nothing op input context h = (ok null, h)

abbrev desired : Fields
desired = field "_integration" (object end) (field "chave" (string "k") end)

desired_carries : object_at desired "_integration" ≡ some end
unfolding object_at
desired_carries = refl

destroy_with_desired-eq_example :
    (input : Fields) × ((h : History)
      → destroy_with_desired
          (default_dispatch texts_as_contexts run_nothing)
          "default"
          charge
          "tx1"
          desired
          h
        ≡ (run_nothing (destroy_operation charge) input "carried" >>= λ out. return tt) h)
    × (get input (reference_key charge) ≡ (
        if has desired (reference_key charge)
        then get desired (reference_key charge)
        else some (string "tx1")))
    × ((j : String)
        → j ≢ reference_key charge
        → j ≢ "_integration"
        → j ≢ "instance_id"
        → get input j ≡ get desired j)
    × (get input "_integration" ≡ none)
    × (get input "instance_id" ≡ none)
destroy_with_desired-eq_example =
    destroy_with_desired-eq texts_as_contexts run_nothing "default" charge "tx1" desired end
      "carried" desired_carries refl

abbrev production : String → String
production name = if name == "YGGDRASIL_CORE_URL" then "https://core.example" else ""

supports_execute_capability-eq-wired_example :
    supports_execute_capability " destroy_due_charge " ≡ (
      is_one_of supported_execute_operations (trim_space " destroy_due_charge ")
      || is_one_of
          (dispatched_names (wire_reconcilers production "main"))
          (trim_space " destroy_due_charge ")
      || is_one_of
          (legacy_names (wire_reconcilers production "main"))
          (trim_space " destroy_due_charge ")
      || trim_space " destroy_due_charge " == "")
supports_execute_capability-eq-wired_example =
    supports_execute_capability-eq-wired production "main" " destroy_due_charge "
