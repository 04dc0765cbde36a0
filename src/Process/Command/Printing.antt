-- ===== src/Process/Command/Printing.antt =====
-- What the command line of the adapter prints.
use integration_efi.Base.{
  ℕ, ◌≡◌, ◌↔◌, inl, inr, refl, ap, String, Bool, true, false, ◌&&◌, Option, none, some, List, [],
  ◌∷◌, ◌++◌, ◌==◌, length, take, take-length, eqb, eqb_iff, eq_iff, Bool-cases, and-eq-true, arith,
}
use integration_efi.World.{World}
use integration_efi.Confidential.Data.{Bytes, Platform, Wire, RuntimePublic}
use integration_efi.Process.Runtime.{encode_public_runtime}
use integration_efi.Process.Command.{
  Exit, print_runtime_argument, write_line, print_encoded, print_metadata, dispatch_adapter_command,
}

module _ (w : World) (p : Platform) (publics : Wire RuntimePublic) (write : Bytes → ℕ × Bool) where
  -- The whole line of validated metadata was printed.
  pub record IsPrinted (read : Option RuntimePublic) (x : Exit) : Type 0 where
    pub published : RuntimePublic
    pub was_read : read ≡ some published
    pub raw : Bytes
    pub encoded : encode_public_runtime w p publics published ≡ some raw
    pub whole : x.printed ≡ raw ++ 10 ∷ []

  -- An exit without a start: a failure, or the line.
  abbrev IsFinished : Option RuntimePublic → Exit → Type 0
  IsFinished read x = (x.started ≡ false) × ((x.code ≡ 0) → IsPrinted read x)

  wrote :
      (line : Bytes) (fine : Bool) (n : ℕ)
      → (fine && eqb n (length line)) ≡ true
      → take n line ≡ line
  wrote line fine n h =
      let same = (eqb_iff n (length line)).0 (and-eq-true fine (eqb n (length line)) h).1 in
      rw same (take-length line)

  line-IsFinished :
      (m : RuntimePublic) (raw : Bytes)
      → encode_public_runtime w p publics m ≡ some raw
      → IsFinished (some m) (write_line w p publics write (raw ++ 10 ∷ []))
  unfolding write_line
  line-IsFinished m raw e =
      let line : Bytes = raw ++ 10 ∷ [] in
      let n = (write line).0 in
      elim (Bool-cases ((write line).1 && eqb n (length line))) [
        | inl all ↦ rw all (
          refl,
          λ z. record {
            published = m;
            was_read = refl;
            raw = raw;
            encoded = e;
            whole = wrote line (write line).1 n all;
          },
        )
        | inr part ↦ rw part (refl, λ z. absurd (omega (arith, z)))
      ]

  encoded-IsFinished :
      (m : RuntimePublic) (o : Option Bytes)
      → encode_public_runtime w p publics m ≡ o
      → IsFinished (some m) (print_encoded w p publics write o)
  encoded-IsFinished m none e = (refl, λ z. absurd (omega (arith, z)))
  encoded-IsFinished m (some raw) e = line-IsFinished m raw e

  metadata-IsFinished :
      (read : Option RuntimePublic) → IsFinished read (print_metadata w p publics write read)
  metadata-IsFinished none = (refl, λ z. absurd (omega (arith, z)))
  metadata-IsFinished (some m) = encoded-IsFinished m (encode_public_runtime w p publics m) refl

  -- The command line starts the adapter exactly without arguments. With arguments it succeeds only for the
  -- one argument that prints, and then the whole line of validated public metadata was printed.
  pub dispatch_adapter_command-IsPrinted :
      (args : List String) (read : Option RuntimePublic)
      → let x = dispatch_adapter_command w p publics write args read in
        ((x.started ≡ true) ↔ (args ≡ []))
        × (x.started ≡ false → x.code ≡ 0 → (args ≡ print_runtime_argument ∷ []) × IsPrinted read x)
  unfolding dispatch_adapter_command
  dispatch_adapter_command-IsPrinted [] read = ((λ h. refl, λ h. refl), λ h. cc h)
  dispatch_adapter_command-IsPrinted (a ∷ b ∷ args) read =
      ((λ h. cc h, λ h. cc h), λ h z. absurd (omega (arith, z)))
  dispatch_adapter_command-IsPrinted (a ∷ []) read =
      elim (Bool-cases (a == print_runtime_argument)) [
        | inl asked ↦
            let (closed, done) = metadata-IsFinished read in
            rw asked (
              (λ h. cc (h, closed), λ h. cc h),
              λ h z. (ap (λ s. s ∷ []) ((eq_iff a print_runtime_argument).0 asked), done z),
            )
        | inr other ↦ rw other ((λ h. cc h, λ h. cc h), λ h z. absurd (omega (arith, z)))
      ]
