-- ===== src/Process/Command.antt =====
-- dispatchAdapterCommand of cmd/adapter/public_runtime.go: the command line of the adapter.
pub mod Printing
use integration_efi.Base.{
  ℕ, String, Bool, true, false, ◌&&◌, not, Option, none, some, List, [], ◌∷◌, ◌++◌, ◌==◌,
  if◌then◌else◌, length, take, eqb,
}
use integration_efi.World.{World}
use integration_efi.Confidential.Data.{Bytes, Platform, Wire, RuntimePublic}
use integration_efi.Process.Runtime.{encode_public_runtime}

-- printRuntimeArgument
abbrev pub print_runtime_argument : String
print_runtime_argument = "--print-confidential-runtime"

-- What a run of the command came to.
pub record Exit : Type 0 where
  pub code : ℕ
  pub started : Bool  -- start was called
  pub printed : Bytes
  pub diagnostic : String

abbrev unavailable : Bytes → Exit
unavailable printed = record {
  code = 1;
  started = false;
  printed = printed;
  diagnostic = "confidential public runtime unavailable\n";
}

abbrev pub unsupported : Exit
unsupported = record {
  code = 2;
  started = false;
  printed = [];
  diagnostic = "unsupported adapter arguments\n";
}

abbrev pub adapter_ran : Exit
adapter_ran = record { code = 0; started = true; printed = []; diagnostic = "" }

module _ (w : World) (p : Platform) (publics : Wire RuntimePublic) (write : Bytes → ℕ × Bool) where
  -- out.Write, which fails too where it wrote less than it was given
  unfoldable pub write_line : Bytes → Exit
  write_line line =
      let (n, fine) = write line in
      if fine && eqb n (length line)
      then record { code = 0; started = false; printed = take n line; diagnostic = "" }
      else unavailable (take n line)

  abbrev pub print_encoded : Option Bytes → Exit
  print_encoded none = unavailable []
  print_encoded (some raw) = write_line (raw ++ 10 ∷ [])

  abbrev pub print_metadata : Option RuntimePublic → Exit
  print_metadata none = unavailable []
  print_metadata (some metadata) = print_encoded (encode_public_runtime w p publics metadata)

  -- dispatchAdapterCommand, with what its reader gives
  unfoldable pub dispatch_adapter_command : List String → Option RuntimePublic → Exit
  dispatch_adapter_command [] read = adapter_ran
  dispatch_adapter_command (a ∷ []) read =
      if a == print_runtime_argument then print_metadata read else unsupported
  dispatch_adapter_command (a ∷ b ∷ args) read = unsupported
