-- ===== src/Confidential/Guarded/Put.antt =====
-- When a confidential ensure sends a PUT.
use integration_efi.Base.{◌≡◌, ◌≢◌, inl, inr, refl, ap, ◌∙◌, true, false, Outcome, ok, err, ◌⊎◌}
use integration_efi.Value.{Fields}
use integration_efi.World.{History}
use integration_efi.Api.{Error, Exec, after, after-eq-ok}
use integration_efi.Api.Boundary.{requests}
use integration_efi.Routing.{execute_with_context, masked_outcome}
use integration_efi.Confidential.Data.{Bytes, Proof, demand-eq-ok}
use integration_efi.Confidential.Time.{validate_time}
use integration_efi.Confidential.Prepare.{Setting, Call, context_of}
use integration_efi.Confidential.Observe.{execute, request_for, list}
use integration_efi.Confidential.Ensure.{
  guard_text, rows_agree, key_tag_of_call, url_tag_of_call, rows_of_proof, in_time, guarded,
  ensure_confidential, unless_expired,
}
use integration_efi.Confidential.Guarded.{
  puts, KeepsPuts, observe_operation-KeepsPuts, lift-KeepsPuts, bind-KeepsPuts,
}

module _ (s : Setting) (call : Call) where
  masked-history :
      (x : Outcome Error Fields × History)
      → (masked_outcome s.world s.fallback_instance s.others (context_of s call.request) x).1 ≡ x.1
  masked-history (ok m, h) = refl
  masked-history (err e, h) = refl

  observing-KeepsPuts :
      (input : Fields) → KeepsPuts (execute s call "observe_webhook_subscriptions" input)
  unfolding execute execute_with_context
  observing-KeepsPuts input = record {
    at = λ h.
        ap puts (masked-history _)
        ∙ (observe_operation-KeepsPuts s call
              (request_for s call "observe_webhook_subscriptions" input)).at
            h;
  }

  list-KeepsPuts : KeepsPuts (list s call)
  unfolding list
  list-KeepsPuts = bind-KeepsPuts _ _ (observing-KeepsPuts _) (λ out. lift-KeepsPuts _)

  in_time-puts : (r : Outcome Error Bytes) → KeepsPuts (in_time s call r)
  unfolding in_time requests
  in_time-puts (ok raw) = record { at = λ h. refl }
  in_time-puts (err e) = record { at = λ h. refl }

  guarded-KeepsPuts : KeepsPuts (guarded s call)
  unfolding guarded
  guarded-KeepsPuts =
      bind-KeepsPuts _ _ list-KeepsPuts (λ seen. in_time-puts (guard_text s call seen.0 seen.1))

  -- What was seen before a PUT: a list that is the requested page, complete and with every record well
  -- formed, in which the key has no other URL; and after it, a clock within the authorization.
  pub record IsCleared (h : History) : Type 0 where
    pub seen : Fields
    pub proof : Proof
    pub listed_at : History
    pub listed : list s call h ≡ (ok (seen, proof), listed_at)
    pub agree :
        rows_agree s call
          (key_tag_of_call s call)
          (url_tag_of_call s call)
          (rows_of_proof s call proof)
          false
        ≡ true
    pub timely :
        validate_time s.world s.platform call.request.intent.binding (s.world.now listed_at) false
        ≡ ok tt

  timely_of :
      (r : Outcome Error (Unit {0})) (raw raw1 : Bytes) → unless_expired r raw ≡ ok raw1 → r ≡ ok tt
  timely_of (ok u) raw raw1 e = refl
  timely_of (err x) raw raw1 e = cc e

  in_time-timely :
      (r : Outcome Error Bytes) (raw : Bytes) (h h1 : History)
      → in_time s call r h ≡ (ok raw, h1)
      → (raw0 : Bytes) × (r ≡ ok raw0)
        × (validate_time s.world s.platform call.request.intent.binding (s.world.now h) false
            ≡ ok tt)
  unfolding in_time requests
  in_time-timely (ok raw0) raw h h1 e = (raw0, refl, timely_of _ raw0 raw (ap (λ x. x.0) e))
  in_time-timely (err x) raw h h1 e = cc e

  guarded-IsCleared : (h h1 : History) (raw : Bytes) → guarded s call h ≡ (ok raw, h1) → IsCleared h
  unfolding guarded guard_text
  guarded-IsCleared h h1 raw e =
      let ((seen, proof), h0, listed, rest) = after-eq-ok _ _ raw h1 e in
      let (raw0, text, timely) = in_time-timely _ raw h0 h1 rest in
      let (agree, more) = demand-eq-ok _ _ _ _ text in
      record {
        seen = seen;
        proof = proof;
        listed_at = h0;
        listed = listed;
        agree = agree;
        timely = timely;
      }

  pair-cases :
      (x : Outcome Error Bytes × History) (f : Bytes → Exec Fields)
      → ((raw : Bytes) × (h1 : History) × (x ≡ (ok raw, h1))) ⊎ ((after x f).1 ≡ x.1)
  pair-cases (ok raw, h1) f = inl (raw, h1, refl)
  pair-cases (err e, h1) f = inr refl

  -- A confidential ensure that sent a PUT had seen before it what a PUT demands.
  pub ensure_confidential-IsCleared :
      (h : History) → puts (ensure_confidential s call h).1 ≢ puts h → IsCleared h
  unfolding ensure_confidential
  ensure_confidential-IsCleared h moved = elim (pair-cases (guarded s call h) _) [
    | inl (raw, h1, e) ↦ guarded-IsCleared h h1 raw e
    | inr stopped ↦ absurd (moved (ap puts stopped ∙ guarded-KeepsPuts.at h))
  ]
