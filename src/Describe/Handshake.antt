-- ===== src/Describe/Handshake.antt =====
-- When the describe handler answers with the manifest.
use integration_efi.Base.{
  String, Bool, true, false, ◌&&◌, not, ok, ◌==◌, equal_fold, trim_space, ◌≡◌, ◌⊎◌, inl, inr, refl,
  eq_iff, Bool-cases, arith, sym, ◌∙◌, ok_injective, Outcome-cases, ap, ◌<>◌,
}
use mathlib.Core.Bool.{true≢false}
use mathlib.Core.Path.{subst}
use integration_efi.World.{World}
use integration_efi.Confidential.Data.{Bytes}
use integration_efi.Manifest.{DescribeRequest}
use integration_efi.Rpc.{success, failure}
use integration_efi.Describe.{describe, adapter_version}
use integration_efi.Describe.Handler.{
  Wires, describe_request, answer_request, answer_read, describe_handler,
}

-- A field that is blank or passes its test is not refused, and the other way round.
unnamed_or : (x : String) (k : Bool) → (x ≡ "") ⊎ (k ≡ true) → (not (x == "") && not k) ≡ false
unnamed_or x k (inl e) = let blank = (eq_iff x "").1 e in ground (arith, blank)
unnamed_or x true (inr e) = ground (arith, Bool-cases (x == ""))
unnamed_or x false (inr e) = cc e

or_unnamed : (x : String) (k : Bool) → (not (x == "") && not k) ≡ false → (x ≡ "") ⊎ (k ≡ true)
or_unnamed x true h = inr refl
or_unnamed x false h = elim (Bool-cases (x == "")) [
  | inl blank ↦ inl ((eq_iff x "").0 blank)
  | inr there ↦ cc (there, h)
]

-- A request that names this adapter and this version, or leaves them out.
abbrev pub IsFitting : DescribeRequest → Type 0
IsFitting req =
    ((trim_space req.provider ≡ "") ⊎ (equal_fold (trim_space req.provider) "efi" ≡ true))
    × ((trim_space req.expected_version ≡ "")
        ⊎ ((trim_space req.expected_version == adapter_version) ≡ true))

answer_request-cases :
    (w : World) (env : String → String) (io : Wires) (req : DescribeRequest)
    → (IsFitting req × (answer_request w env io req ≡ success io.marshal (describe w env)))
      ⊎ ((code : String) × (message : String) × (answer_request w env io req
            ≡ failure io.marshal code message)
          × ¬ IsFitting req)
unfolding answer_request
answer_request-cases w env io req =
    let p = trim_space req.provider in
    let v = trim_space req.expected_version in
    let known = equal_fold p "efi" in
    let current = v == adapter_version in
    elim (Bool-cases (not (p == "") && not known)) [
      | inl foreign ↦ inr (
        "bad_request",
        "unsupported provider " <> io.quote req.provider,
        rw foreign refl,
        λ fits. true≢false (sym foreign ∙ unnamed_or p known fits.0),
      )
      | inr ours ↦ elim (Bool-cases (not (v == "") && not current)) [
        | inl old ↦ inr (
          "version_mismatch",
          "expected version " <> io.quote v <> " but adapter is " <> io.quote adapter_version,
          rw (ours, old) refl,
          λ fits. true≢false (sym old ∙ unnamed_or v current fits.1),
        )
        | inr same ↦
            inl ((or_unnamed p known ours, or_unnamed v current same), rw (ours, same) refl)
      ]
    ]

module _ (w : World) (env : String → String) (io : Wires) where
  -- A delivery is answered with the manifest exactly if its body is blank, or reads as a request, which
  -- names this adapter and its version or leaves them out; every other one is answered with a failure.
  pub describe_handler-IsHandshake :
      (body : Bytes)
      → ((req : DescribeRequest) × (describe_request w env io body ≡ ok req)
          × IsFitting req
          × (describe_handler w env io body ≡ success io.marshal (describe w env)))
        ⊎ ((code : String) × (message : String) × (describe_handler w env io body
              ≡ failure io.marshal code message)
            × ((req : DescribeRequest) → describe_request w env io body ≡ ok req → ¬ IsFitting req))
  unfolding describe_handler
  describe_handler-IsHandshake body = elim (Outcome-cases (describe_request w env io body)) [
    | inl (req, read) ↦ elim (answer_request-cases w env io req) [
      | inl (fits, answered) ↦ inl (req, read, fits, ap (answer_read w env io) read ∙ answered)
      | inr (code, message, answered, unfit) ↦ inr (
        code,
        message,
        ap (answer_read w env io) read ∙ answered,
        λ r e. λ fits. unfit (subst (λ x. IsFitting x) (ok_injective (sym e ∙ read)) fits),
      )
    ]
    | inr (e, unread) ↦ inr (
      "bad_request",
      io.error_text e,
      ap (answer_read w env io) unread,
      λ r read. cc (read, unread),
    )
  ]
