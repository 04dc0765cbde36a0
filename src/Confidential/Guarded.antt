-- ===== src/Confidential/Guarded.antt =====
-- What stands before the PUT of a confidential ensure.
pub mod Put
use mathlib.Core.Path.{subst}
use integration_efi.Base.{
  some_injective, ◌≡◌, ◌≢◌, ◌⊎◌, inl, inr, refl, sym, ap, ◌∙◌, ℕ, String, Bool, true, false, Option,
  none, some, List, [], ◌∷◌, Outcome, ok, err, arith, trim_space, ◌<>◌, is_none, Bool-cases,
  if◌then◌else◌, ℤ,
}
use integration_efi.Value.{Value, Fields}
use integration_efi.World.{World, Method, Request, History, method_post, clock_read}
use integration_efi.Api.{
  Error, Exec, Context, Client, after, lift, ◌>>=◌, within, require, raise, return,
}
use integration_efi.Api.Confidential.{is_put}
use integration_efi.Api.Boundary.{requests, IsQuiet}
use integration_efi.Api.Mutations.{Keeps, mutations, not_gets}
use integration_efi.Session.{Config, new_efi_client, oauth_request}
use integration_efi.Webhooks.Observe.{observe_webhook_subscriptions}
use integration_efi.Webhooks.Observe.Reading.{observe_webhook_subscriptions-Keeps}
use integration_efi.Routing.{
  ExecuteRequest, execute_operation, execute_with_context, normalize_execute_operation,
  canonical_operation_for, legacy_operation, handler, run_handler,
}
use integration_efi.Confidential.Data.{Bytes, SealedRequest}
use integration_efi.Confidential.Prepare.{Setting, Call, context_of, guard_of}

-- The PUTs among some requests, in their order.
unfoldable pub only_puts : List Request → List Request
only_puts [] = []
only_puts (r ∷ rs) = let rest = only_puts rs in if is_put r.method then r ∷ rest else rest

-- The PUTs of a run, newest first.
abbrev pub puts : History → List Request
puts h = only_puts (mutations h)

pub record KeepsPuts {A : Type 0} (m : Exec A) : Type 0 where
  pub at : (h : History) → puts (m h).1 ≡ puts h

module _ {A : Type 0} where
  KeepsPuts-of_Keeps : (m : Exec A) → Keeps m → KeepsPuts m
  KeepsPuts-of_Keeps m k = record { at = λ h. ap only_puts (k.at h) }

  within-KeepsPuts : (t : String) (m : Exec A) → KeepsPuts m → KeepsPuts (within t m)
  within-KeepsPuts t m k = record { at = k.at }

  pub lift-KeepsPuts : (r : Outcome Error A) → KeepsPuts (lift r)
  lift-KeepsPuts r = record { at = λ h. refl }

require-KeepsPuts : (fine : Bool) (e : Error) → KeepsPuts (require fine e)
require-KeepsPuts true e = record { at = λ h. refl }
require-KeepsPuts false e = record { at = λ h. refl }

pub after-KeepsPuts :
    {A B : Type 0} (x : Outcome Error A × History) (f : A → Exec B)
    → ((a : A) → KeepsPuts (f a))
    → puts (after x f).1 ≡ puts x.1
after-KeepsPuts (ok a, h) f k = (k a).at h
after-KeepsPuts (err e, h) f k = refl

pub bind-KeepsPuts :
    {A B : Type 0} (m : Exec A) (f : A → Exec B)
    → KeepsPuts m
    → ((a : A) → KeepsPuts (f a))
    → KeepsPuts (m >>= f)
bind-KeepsPuts m f km kf = record { at = λ h. after-KeepsPuts (m h) f kf ∙ km.at h }

new_efi_client-KeepsPuts :
    (w : World) (ctx : Context) (cfg : Config) → KeepsPuts (new_efi_client w ctx cfg)
unfolding new_efi_client oauth_request requests not_gets only_puts
new_efi_client-KeepsPuts w ctx cfg = record {
  at = λ h. elim (Bool-cases (is_none (w.parse_url (cfg.base_url <> "/oauth/token")))) [
    | inl missing ↦ rw missing refl
    | inr found ↦ rw found refl
  ];
}

-- The context of a sealed request reads the clock and does no more before a PUT.
pub context_of-IsQuiet :
    (s : Setting) (request : SealedRequest) (c : Client) → IsQuiet s.world (context_of s request) c
unfolding context_of requests
context_of-IsQuiet s request c = record {
  guard_quiet = λ check e h.
      subst (λ (g : Exec (Unit {0})). requests (g h).1 ≡ requests h) (some_injective e) refl;
  timeout_quiet = λ remaining e h.
      subst (λ (g : History → ℤ × History). requests (g h).1 ≡ requests h)
        (some_injective (some_injective e)) refl;
}

ruleset keeping_puts =
    (within-KeepsPuts, lift-KeepsPuts, require-KeepsPuts, bind-KeepsPuts, new_efi_client-KeepsPuts)

module _ (s : Setting) (call : Call) where
  observed-KeepsPuts :
      (c : Client) (input : Fields)
      → KeepsPuts (observe_webhook_subscriptions s.world (context_of s call.request) c input)
  observed-KeepsPuts c input = KeepsPuts-of_Keeps _ (
      observe_webhook_subscriptions-Keeps s.world (context_of s call.request) c
        (context_of-IsQuiet s call.request c) input)

  run_handler-KeepsPuts :
      (m : Exec Fields) (op : String)
      → KeepsPuts m
      → KeepsPuts
          (run_handler s.world s.fallback_instance s.others (context_of s call.request) (some m) op)
  unfolding run_handler
  run_handler-KeepsPuts m op k = bind-KeepsPuts m _ k (λ got. lift-KeepsPuts (ok _))

  pub observe_operation-KeepsPuts :
      (req : ExecuteRequest)
      → KeepsPuts (
          execute_operation s.world s.fallback_instance s.others
            (context_of s call.request)
            s.env
            (record req { operation = "observe_webhook_subscriptions" }))
  unfolding execute_operation normalize_execute_operation canonical_operation_for legacy_operation
      trim_space handler
  observe_operation-KeepsPuts req =
      search (keeping_puts, observed-KeepsPuts, run_handler-KeepsPuts) depth 12
