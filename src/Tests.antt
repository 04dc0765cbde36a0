-- ===== src/Tests.antt =====
-- The environment of the examples: a small library, and a provider that gives every request the same
-- answer.
pub mod Boundary
pub mod Payments
pub mod Hooks
pub mod Resources
pub mod Sessions
pub mod Signatures
pub mod Readiness
pub mod Stores
pub mod Boots
pub mod Starts
pub mod Routes
pub mod Surfaces
pub mod Unary
pub mod Toy
pub mod Seals
pub mod Calls
pub mod Contracts
pub mod Messages
use integration_efi.Base.{
  ◌≡◌, refl, ap, sym, ℕ, String, Bool, true, false, Option, none, some, List, [], ◌∷◌, Outcome, ok,
  err, pos, rune_count,
}
use integration_efi.Value.{Value, string, Fields, field, end, Json, Members, closed, member}
use integration_efi.World.{Url, Query, Library, World, Reply, failed, answered, History}
use integration_efi.Api.{Exec, Context, Client, background}
use integration_efi.Api.Boundary.{requests, IsQuiet}

abbrev pub hook : String
hook = "https://hooks.example/efi"

abbrev pub hook_url : Url
hook_url = record {
  scheme = "https";
  opaque = "";
  has_user = false;
  host = "hooks.example";
  hostname = "hooks.example";
  port = "";
  path = "/efi";
  raw_path = "";
  raw_query = "";
  force_query = false;
  fragment = "";
}

-- A library that reads any bytes as one document and knows one URL and one instant.
abbrev pub library_with : Json → Library
library_with document = record {
  parse_json = λ bytes. some document;
  read_access_token = λ bytes. some "token";
  marshals = λ v. true;
  to_lower = λ s. s;
  parse_url = λ s. some hook_url;
  format_url = λ u. u.path;
  path_escape = λ s. s;
  valid_query = λ s. true;
  read_query = λ s. [];
  encode_query = λ q. "";
  parse_rfc3339 = λ s. some (rune_count s);
  parse_rfc3339_nano = λ s. some (rune_count s);
  parse_uuid = λ s. none;
  status_text = λ n. "text";
  unfit_int = λ x. pos 0;
}

abbrev pub world_with : Json → Reply → World
world_with document answer = record {
  library = library_with document;
  reply = λ h req. answer;
  now = λ h. 0;
  cancelled = λ h. false;
  accepts = λ h. true;
}

-- The provider holds a registration of `hook`.
abbrev pub registered : Json
registered = Json.object (member "webhookUrl" (Json.string hook) closed)

-- 200 with a body of two bytes
abbrev pub good : World
good = world_with registered (answered 200 (123 ∷ 125 ∷ []))

abbrev pub missing : World
missing = world_with registered (answered 404 [])

abbrev pub client : Client
client = record { base_url = "https://api.example"; token = "t" }

abbrev pub allowing : Exec (Unit {0})
allowing h = (ok tt, h)

abbrev pub secret : Context
secret = record { confidential = true; guard = some allowing; timeout = none }

pub background_quiet : (w : World) → IsQuiet w background client
background_quiet w = record {
  guard_quiet = λ check e h. cc e;
  timeout_quiet = λ remaining e h. cc e;
}

abbrev from_some : {A : Type 0} → A → Option A → A
from_some a none = a
from_some a (some b) = b

pub secret_quiet : (w : World) → IsQuiet w secret client
secret_quiet w = record {
  guard_quiet = λ check e h. ap (λ g. requests (from_some allowing g h).1) (sym e);
  timeout_quiet = λ remaining e h. cc e;
}
