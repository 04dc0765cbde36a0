-- ===== src/Reconcile/Destroy.antt =====
-- What reaches adapter.Execute when a resource is destroyed with its desired payload.
use integration_efi.Base.{
  ◌≡◌, ◌≢◌, inl, inr, sym, refl, ◌∙◌, String, none, some, Outcome, ok, err, arith, ◌==◌, eq_iff,
  if◌then◌else◌, Option-cases,
}
use integration_efi.Value.{
  Value, string, Fields, get, without, has, object_at, value_at, get-put, get-without,
}
use integration_efi.World.{History}
use integration_efi.Api.{Error, Exec, ◌>>=◌, return, after}
use integration_efi.Reconcile.{
  Resource, charge, due_charge, webhook_subscription, Contexts, destroy_with_desired,
  with_reference, reference_key, destroy_operation, clean_input, default_dispatch, as_payload,
  integration_from_payload, instance_from_desired,
}

-- What an input has under a key that destroy uses: the caller's value, or the reference.
get-with_reference :
    (desired : Fields) (k ref j : String)
    → get (with_reference desired k ref) j ≡ (
        if has desired k
        then get desired j
        else if k == j
        then some (string ref)
        else get desired j)
unfolding with_reference
get-with_reference desired k ref j = elim (Option-cases (get desired k)) [
  | inl missing ↦ rw (missing, get-put desired k j (string ref)) refl
  | inr (v, found) ↦ rw found refl
]

get-clean_input :
    (input : Fields) (j : String)
    → j ≢ "_integration"
    → j ≢ "instance_id"
    → get (clean_input input) j ≡ get input j
unfolding clean_input
get-clean_input input j a b =
    rw
      (
        get-without (without input "_integration") "instance_id" j,
        get-without input "_integration" j,
      )
      (ground (arith, eq_iff "instance_id" j, eq_iff "_integration" j))

clean_input_meta :
    (input : Fields)
    → (get (clean_input input) "_integration" ≡ none)
      × (get (clean_input input) "instance_id" ≡ none)
unfolding clean_input
clean_input_meta input = (
  rw
      (
        get-without (without input "_integration") "instance_id" "_integration",
        get-without input "_integration" "_integration",
      )
      refl,
  rw (get-without (without input "_integration") "instance_id" "instance_id") refl,
)

-- The key of a reference is none of the two keys of the context.
reference_key_other :
    (r : Resource) → (reference_key r ≢ "_integration") × (reference_key r ≢ "instance_id")
reference_key_other charge = (λ e. cc e, λ e. cc e)
reference_key_other due_charge = (λ e. cc e, λ e. cc e)
reference_key_other webhook_subscription = (λ e. cc e, λ e. cc e)

with_reference_keeps :
    (desired : Fields) (k ref j : String)
    → k ≢ j
    → get (with_reference desired k ref) j ≡ get desired j
with_reference_keeps desired k ref j apart =
    rw (get-with_reference desired k ref j) (ground (arith, eq_iff k j))

object_at-cong : (m n : Fields) (k : String) → get m k ≡ get n k → object_at m k ≡ object_at n k
unfolding object_at value_at
object_at-cong m n k e = ground (arith, e)

module _ {I : Type 0} (contexts : Contexts I) (execute : String → Fields → I → Exec Value) where
  context_kept :
      (r : Resource) (ref name : String) (desired raw : Fields) (context : I)
      → object_at desired "_integration" ≡ some raw
      → contexts.from_map raw ≡ some context
      → integration_from_payload contexts (with_reference desired (reference_key r) ref) name
        ≡ context
  unfolding integration_from_payload
  context_kept r ref name desired raw context carried read =
      let same =
        object_at-cong (with_reference desired (reference_key r) ref) desired "_integration" (
          with_reference_keeps desired (reference_key r) ref "_integration"
            (reference_key_other r).0) in
      ground (arith, same, carried, read)

  forgets :
      (p : Outcome Error Value × History)
      → after (after p (λ output. return (as_payload output))) (λ out. return tt)
        ≡ after p (λ out. return tt)
  forgets (ok v, h) = refl
  forgets (err e, h) = refl

  -- Destroying a resource with its desired payload runs its destroy operation once, in the
  -- integration context that the payload carries. Execute sees the reference under the resource's
  -- key unless the caller gave one, every other key of the payload as it was, and neither of the
  -- two keys that carry the context.
  pub destroy_with_desired-eq :
      (instance_id : String) (r : Resource) (ref : String) (desired raw : Fields) (context : I)
      → object_at desired "_integration" ≡ some raw
      → contexts.from_map raw ≡ some context
      → (input : Fields) × ((h : History)
          → destroy_with_desired (default_dispatch contexts execute) instance_id r ref desired h
            ≡ (execute (destroy_operation r) input context >>= λ out. return tt) h)
        × (get input (reference_key r) ≡ (
            if has desired (reference_key r)
            then get desired (reference_key r)
            else some (string ref)))
        × ((j : String)
            → j ≢ reference_key r
            → j ≢ "_integration"
            → j ≢ "instance_id"
            → get input j ≡ get desired j)
        × (get input "_integration" ≡ none)
        × (get input "instance_id" ≡ none)
  unfolding destroy_with_desired default_dispatch
  destroy_with_desired-eq instance_id r ref desired raw context carried read =
      let input = with_reference desired (reference_key r) ref in
      let (no_integration, no_instance) = reference_key_other r in
      let name = instance_from_desired input instance_id in
      (
        clean_input input,
        λ h.
            rw (context_kept r ref name desired raw context carried read)
              (forgets (execute (destroy_operation r) (clean_input input) context h)),
        get-clean_input input (reference_key r) no_integration no_instance
            ∙ get-with_reference desired (reference_key r) ref (reference_key r)
            ∙ ground (arith, eq_iff (reference_key r) (reference_key r)),
        λ j a b c.
            get-clean_input input j b c
            ∙ with_reference_keeps desired (reference_key r) ref j (λ e. a (sym e)),
        (clean_input_meta input).0,
        (clean_input_meta input).1,
      )
