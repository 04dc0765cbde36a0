-- ===== src/Confidential/Held.antt =====
-- Which errors a confidential ensure has, and when it has none.
use integration_efi.Base.{
  ◌≡◌, ◌⊎◌, inl, inr, refl, sym, Bool, true, false, Option, none, some, List, [], ◌∷◌, Outcome, ok,
  err, arith, String, Bool-cases,
}
use mathlib.Core.Path.{subst}
use integration_efi.Value.{Fields}
use integration_efi.World.{World, History}
use integration_efi.Api.{Error, Exec, sentinel, mutation_accepted, after}
use integration_efi.Api.Errors.{held, expired}
use integration_efi.Api.Confidential.{mutation_succeeded}
use integration_efi.Confidential.Data.{
  Bytes, Platform, Wire, SealedRequest, Proof, ◌>>=◌, demand, or_else,
}
use integration_efi.Confidential.Calls.{Page, list_proof, checked_rows, as_held}
use integration_efi.Confidential.Prepare.{Setting, Call}
use integration_efi.Confidential.Observe.{execute, settled, list}
use integration_efi.Confidential.Ensure.{
  guard_text, guarded, unless_expired, register, concluded, ensure_confidential, held_ensure,
  in_time,
}

-- A result whose only error is the held one.
pub record IsHeld {A : Type 0} (m : Outcome Error A) : Type 0 where
  pub at : (e : Error) → m ≡ err e → e ≡ sentinel held

module _ {A : Type 0} where
  ok-IsHeld : (a : A) → IsHeld (Outcome.ok a)
  ok-IsHeld a = record { at = λ e h. cc h }

  as_held-IsHeld : (m : Outcome Error A) → IsHeld (as_held m)
  as_held-IsHeld (ok a) = record { at = λ e h. cc h }
  as_held-IsHeld (err x) = record { at = λ e h. cc h }

  or_else-IsHeld : (o : Option A) → IsHeld (or_else o held)
  or_else-IsHeld none = record { at = λ e h. cc h }
  or_else-IsHeld (some a) = record { at = λ e h. cc h }

  held-IsHeld : IsHeld {A = A} (err (sentinel held))
  held-IsHeld = record { at = λ e h. cc h }

demand-IsHeld : (fine : Bool) → IsHeld (demand fine held)
demand-IsHeld true = record { at = λ e h. cc h }
demand-IsHeld false = record { at = λ e h. cc h }

bind-IsHeld :
    {A B : Type 0} (m : Outcome Error A) (k : A → Outcome Error B)
    → IsHeld m
    → ((a : A) → IsHeld (k a))
    → IsHeld (m >>= k)
bind-IsHeld (ok a) k hm hk = hk a
bind-IsHeld (err x) k hm hk = record { at = λ e h. hm.at e (cc h) }

ruleset holding =
    (ok-IsHeld, as_held-IsHeld, or_else-IsHeld, held-IsHeld, demand-IsHeld, bind-IsHeld)

module _ (w : World) (p : Platform) (r : SealedRequest) (maps : Wire Fields)
    (read_page : Bytes → Option Page) where
  checked_rows-IsHeld :
      (ms items : List Fields) (seen : List String)
      → IsHeld (checked_rows w p r maps read_page ms items seen)
  unfolding checked_rows
  checked_rows-IsHeld [] items seen = ok-IsHeld []
  checked_rows-IsHeld (m ∷ ms) [] seen = held-IsHeld
  checked_rows-IsHeld (m ∷ ms) (item ∷ items) seen =
      search (holding, checked_rows-IsHeld ms items) depth 6

  list_proof-IsHeld : (out : Fields) → IsHeld (list_proof w p r maps read_page out)
  unfolding list_proof
  list_proof-IsHeld out = search (holding, checked_rows-IsHeld) depth 12

-- The errors of a confidential ensure: the operation was held, its authorization was over, or a PUT was
-- accepted. None holds a text.
abbrev pub IsPrivate : Error → Type 0
IsPrivate e = (e ≡ sentinel held) ⊎ (e ≡ sentinel expired) ⊎ (e ≡ sentinel mutation_accepted)

-- A PUT that the provider took: an answer, or the accepted error.
abbrev pub is_taken : Outcome Error Fields → Bool
is_taken (ok m) = true
is_taken (err e) = mutation_succeeded e

module _ (s : Setting) (call : Call) where
  settled-IsPrivate :
      (operation : String) (r : Outcome Error Fields) (e : Error)
      → settled s call operation r ≡ err e
      → IsPrivate e
  unfolding settled
  settled-IsPrivate operation (ok m) e h = cc h
  settled-IsPrivate operation (err x) e h = elim (Bool-cases (mutation_succeeded x)) [
    | inl yes_it_is ↦ ground (arith, h, yes_it_is)
    | inr no_it_is ↦ ground (arith, h, no_it_is)
  ]

  concluded-IsOk :
      (raw : Bytes) (r : Outcome Error Fields) (h : History)
      → is_taken r ≡ true
      → (m : Fields) × ((concluded s call raw r h).0 ≡ ok m)
  unfolding concluded
  concluded-IsOk raw (ok answer) h t = (_, refl)
  concluded-IsOk raw (err e) h t = (held_ensure s call, rw t refl)

  -- Once its PUT was taken, a confidential ensure never ends in an error that would make a caller
  -- repeat it: if the steps before the PUT succeeded and the PUT was answered or accepted, the result
  -- is a confirmed output or a held one.
  pub ensure_confidential-is_taken :
      (h h1 : History) (raw : Bytes)
      → guarded s call h ≡ (ok raw, h1)
      → is_taken (register s call h1).0 ≡ true
      → (m : Fields) × ((ensure_confidential s call h).0 ≡ ok m)
  unfolding ensure_confidential
  ensure_confidential-is_taken h h1 raw g t =
      subst
        (λ x.
          (m : Fields) × ((after x
              (λ v. λ j. concluded s call v (register s call j).0 (register s call j).1)).0
            ≡ ok m))
        (sym g) (concluded-IsOk raw (register s call h1).0 (register s call h1).1 t)

pub record HasPrivate {A : Type 0} (m : Outcome Error A) : Type 0 where
  pub at : (e : Error) → m ≡ err e → IsPrivate e

HasPrivate-of_IsHeld : {A : Type 0} (m : Outcome Error A) → IsHeld m → HasPrivate m
HasPrivate-of_IsHeld m k = record { at = λ e h. inl (k.at e h) }

after-HasPrivate :
    {A B : Type 0} (x : Outcome Error A × History) (f : A → Exec B)
    → HasPrivate x.0
    → ((a : A) (h : History) → HasPrivate (f a h).0)
    → HasPrivate (after x f).0
after-HasPrivate (ok a, h) f kx kf = kf a h
after-HasPrivate (err x, h) f kx kf = record { at = λ e p. kx.at e (cc p) }

unless_expired-HasPrivate :
    (r : Outcome Error (Unit {0})) (raw : Bytes) → HasPrivate (unless_expired r raw)
unless_expired-HasPrivate (ok u) raw = record { at = λ e p. cc p }
unless_expired-HasPrivate (err x) raw = record { at = λ e p. inr (inl (cc p)) }

module _ (s : Setting) (call : Call) where
  execute-HasPrivate :
      (operation : String) (input : Fields) (h : History)
      → HasPrivate (execute s call operation input h).0
  unfolding execute
  execute-HasPrivate operation input h = record {
    at = λ e p. settled-IsPrivate s call operation _ e p;
  }

  register-HasPrivate : (h : History) → HasPrivate (register s call h).0
  unfolding register
  register-HasPrivate h = execute-HasPrivate _ _ h

  list-HasPrivate : (h : History) → HasPrivate (list s call h).0
  unfolding list
  list-HasPrivate h = after-HasPrivate _ _ (execute-HasPrivate _ _ h) (λ out j.
      HasPrivate-of_IsHeld _ (
        bind-IsHeld _ _
          (list_proof-IsHeld s.world s.platform call.request s.json.maps s.json.read_page out)
          (λ proof. ok-IsHeld (out, proof))))

  guard_text-IsHeld : (seen : Fields) (proof : Proof) → IsHeld (guard_text s call seen proof)
  unfolding guard_text
  guard_text-IsHeld seen proof = search holding depth 8

  in_time-HasPrivate :
      (r : Outcome Error Bytes) (h : History) → IsHeld r → HasPrivate (in_time s call r h).0
  unfolding in_time
  in_time-HasPrivate (ok raw) h k = unless_expired-HasPrivate _ raw
  in_time-HasPrivate (err x) h k = HasPrivate-of_IsHeld _ k

  guarded-HasPrivate : (h : History) → HasPrivate (guarded s call h).0
  unfolding guarded
  guarded-HasPrivate h = after-HasPrivate _ _ (list-HasPrivate h) (λ seen j.
      in_time-HasPrivate (guard_text s call seen.0 seen.1) j (guard_text-IsHeld seen.0 seen.1))

  concluded-HasPrivate :
      (raw : Bytes) (r : Outcome Error Fields) (h : History)
      → HasPrivate r
      → HasPrivate (concluded s call raw r h).0
  unfolding concluded
  concluded-HasPrivate raw (ok m) h k = record { at = λ e p. cc p }
  concluded-HasPrivate raw (err x) h k = record {
    at = λ e p. k.at e (elim (Bool-cases (mutation_succeeded x)) [
      | inl taken ↦ ground (arith, taken, p)
      | inr refused ↦ ground (arith, refused, p)
    ]);
  }

  -- A confidential ensure has three errors only, each a fixed value, whatever the provider, the network
  -- or a handler answered.
  pub ensure_confidential-HasPrivate : (h : History) → HasPrivate (ensure_confidential s call h).0
  unfolding ensure_confidential
  ensure_confidential-HasPrivate h = after-HasPrivate _ _ (guarded-HasPrivate h) (λ raw j.
      concluded-HasPrivate raw (register s call j).0 (register s call j).1 (register-HasPrivate j))
