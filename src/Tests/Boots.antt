-- ===== src/Tests/Boots.antt =====
-- Examples for the process: a file system on which every call succeeds, and a boot without a failure.
use integration_efi.Base.{
  ◌∙◌, ◌≡◌, refl, sym, String, true, false, Option, none, some, [], ◌∷◌, ok, ◌==◌, length, pos,
  any_char, some_injective, ok_injective,
}
use mathlib.Core.Path.{subst}
use integration_efi.World.{World}
use integration_efi.Confidential.Data.{Bytes, Wire, RuntimePublic}
use integration_efi.Confidential.Codec.{public_key_of, decode32, canonical_uuid}
use integration_efi.Confidential.Strict.{
  decode_strict, unique_value, canonical_text, canonical_json,
}
use integration_efi.Confidential.Public.{decode_public, valid_version}
use integration_efi.Confidential.Text.{parts_of}
use integration_efi.Process.Files.{Os, Log, holds}
use integration_efi.Process.Walks.{Throughout}
use integration_efi.Process.Runtime.{
  Stat, Opened, encode_public_runtime, publish_bytes, directory_fits, fill_and_rename, write_all,
  publish_public_runtime, read_public_runtime,
}
use integration_efi.Process.Runtime.Atomic.{IsOldOrNew, publish_public_runtime-IsOldOrNew}
use integration_efi.Process.Runtime.Readable.{IsShown, read_public_runtime-publish_public_runtime}
use integration_efi.Tests.{good}
use integration_efi.Tests.Toy.{toy, key_text, constant_wire}

abbrev pub knowing : World
knowing = record good { library = record good.library { parse_uuid = λ s. some s } }

abbrev pub public : RuntimePublic
public = record {
  version = pos 1;
  algorithm = "nacl-box-seal-anonymous-v1";
  adapter_version = "2.5.7";
  key_id = "k1";
  public_key = key_text;
}

abbrev pub publics : Wire RuntimePublic
publics = constant_wire public

pub public_decodes : decode_public toy knowing publics (1 ∷ []) ≡ ok public
unfolding decode_public decode_strict unique_value canonical_text canonical_json canonical_uuid
    valid_version parts_of public_key_of decode32 any_char
public_decodes = refl

abbrev os : Os
os = record {
  directory_of = λ path. "run";
  lstat = λ h directory. some (true, false);
  create_temp = λ h directory. some "temporary";
  chmod = λ h name. true;
  write = λ h name bytes. (length bytes, true);
  sync = λ h name. true;
  close = λ h name. true;
  rename = λ h a b. true;
  open_directory = λ h directory. true;
  sync_directory = λ h directory. true;
}

abbrev path : String
path = "runtime.json"

abbrev nothing : String → Option Bytes
nothing name = none

os_fresh :
    (h : Log) (name : String)
    → os.create_temp h (os.directory_of path) ≡ some name
    → (name == path) ≡ false
os_fresh h name e = subst (λ n. (n == path) ≡ false) (some_injective e) refl

published : (publish_public_runtime knowing toy publics os path public []).0 ≡ some tt
unfolding publish_public_runtime encode_public_runtime publish_bytes directory_fits fill_and_rename
    write_all decode_public decode_strict unique_value canonical_text canonical_json canonical_uuid
    valid_version parts_of public_key_of decode32 any_char
published = refl

publish_public_runtime-IsOldOrNew_example :
    Throughout
      (IsOldOrNew knowing toy publics os path nothing os_fresh public [])
      []
      (publish_public_runtime knowing toy publics os path public []).1
publish_public_runtime-IsOldOrNew_example =
    publish_public_runtime-IsOldOrNew knowing toy publics os path nothing os_fresh public []

abbrev stat : Stat
stat = record { regular = true; size = 1; mod_time = 7; file = 3 }

abbrev opened : Opened
opened = record {
  directory_opens = true;
  file_opens = true;
  descriptor = true;
  before = some stat;
  content = some (1 ∷ []);
  after = some stat;
}

shown :
    IsShown opened
      (holds nothing (publish_public_runtime knowing toy publics os path public []).1 path)
unfolding holds publish_public_runtime encode_public_runtime publish_bytes directory_fits
    fill_and_rename write_all decode_public decode_strict unique_value canonical_text canonical_json
    canonical_uuid valid_version parts_of public_key_of decode32 any_char
shown = record {
  opens = refl;
  stat = stat;
  before = refl;
  after = refl;
  regular = refl;
  raw = 1 ∷ [];
  held_bytes = refl;
  content = refl;
  measured = refl;
}

public_reads_back :
    (raw : Bytes) (m : RuntimePublic)
    → publics.marshal public ≡ some raw
    → decode_public toy knowing publics raw ≡ ok m
    → m ≡ public
public_reads_back raw m written read =
    let same =
      subst (λ (b : Bytes). decode_public toy knowing publics b ≡ ok m)
        (sym (some_injective written)) read in
    ok_injective (sym same ∙ public_decodes)

read_public_runtime-publish_public_runtime_example :
    read_public_runtime knowing toy publics opened ≡ some public
read_public_runtime-publish_public_runtime_example =
    read_public_runtime-publish_public_runtime knowing toy publics os path nothing public [] opened
      os_fresh public_reads_back published shown
