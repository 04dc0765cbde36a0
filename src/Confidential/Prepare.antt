-- ===== src/Confidential/Prepare.antt =====
-- PrepareConfidential of providers/efi/adapter/confidential.go, and what its calls carry.
use integration_efi.Base.{ℕ, String, true, false, Option, none, some, ◌∷◌, Outcome, ok, err}
use integration_efi.Value.{Fields}
use integration_efi.World.{World, clock_read}
use integration_efi.Api.{Error, Exec, Context, sentinel}
use integration_efi.Api.Errors.{invalid, held}
use integration_efi.Routing.{ExecuteRequest, Others}
use integration_efi.Confidential.Data.{
  ◌>>=◌, ◌>>◌, Bytes, Platform, Wire, InputEnvelope, Intent, SealedRequest, Output, PlainOutput,
  or_else,
}
use integration_efi.Confidential.Strict.{decode_strict}
use integration_efi.Confidential.Codec.{Receiver, open_input}
use integration_efi.Confidential.Time.{validate_time, remaining_time}
use integration_efi.Confidential.Calls.{Page, validate_confidential_request}

-- What encoding/json does at the types of these calls.
pub record Json : Type 0 where
  pub intents : Wire Intent
  pub requests : Wire SealedRequest
  pub plains : Wire PlainOutput
  pub inputs : Wire InputEnvelope  -- Input, whose one member this is
  pub maps : Wire Fields
  pub read_page : Bytes → Option Page
  pub as_map : Output → Option Fields  -- json.Marshal, and json.Unmarshal into a map

-- ConfidentialCall
pub record Call : Type 0 where
  pub request : SealedRequest
  pub envelope : ExecuteRequest
  pub seal_seed : Bytes

-- What the process gives these calls.
pub record Setting : Type 0 where
  pub world : World
  pub platform : Platform
  pub json : Json
  pub fallback_instance : String
  pub others : Others
  pub env : String → String

abbrev as_invalid : Outcome Error (Unit {0}) → Outcome Error (Unit {0})
as_invalid (ok u) = ok tt
as_invalid (err e) = err (sentinel invalid)

module _ (s : Setting) where
  -- The clock of a call.
  abbrev pub now : Exec ℕ
  now h = (ok (s.world.now h), clock_read ∷ h)

  -- The guard that PrepareConfidential gives the context of a request.
  abbrev pub guard_of : SealedRequest → Exec (Unit {0})
  guard_of request h = (
    validate_time s.world s.platform request.intent.binding (s.world.now h) false,
    clock_read ∷ h,
  )

  -- The deadline of a request; the zero time for a text that is none.
  abbrev deadline_of : SealedRequest → ℕ
  deadline_of request = elim (s.world.parse_rfc3339_nano request.intent.binding.expires_at) [
    | none ↦ 0
    | some t ↦ t
  ]

  -- The context that PrepareConfidential makes.
  unfoldable pub context_of : SealedRequest → Context
  context_of request = record {
    confidential = true;
    guard = some (guard_of request);
    timeout =
        some (some (λ h. (remaining_time (deadline_of request) (s.world.now h), clock_read ∷ h)));
  }

  -- The request that PrepareConfidential opens, of the marshalled input, if it is valid.
  unfoldable pub opened_request : ExecuteRequest → Option Receiver → Outcome Error SealedRequest
  opened_request envelope receiver = do
    raw ← or_else (s.json.maps.marshal envelope.input) invalid
    input ← decode_strict s.world s.platform s.json.inputs raw
    known ← or_else receiver invalid
    request ← open_input s.world s.platform s.json.intents s.json.requests known input
    as_invalid (validate_confidential_request s.world s.platform request envelope)
    ok request

  -- The checks behind it, at an instant, with the random seed that is read, none where that fails.
  unfoldable pub checked_call :
      ExecuteRequest → Option Bytes → SealedRequest → ℕ → Outcome Error Call
  checked_call envelope seed request instant = do
    as_invalid (validate_time s.world s.platform request.intent.binding instant true)
    chosen ← or_else seed held
    ok (record { request = request; envelope = envelope; seal_seed = chosen })

  -- PrepareConfidential; the context that it returns is `context_of` of the request
  unfoldable pub prepare_confidential : ExecuteRequest → Option Receiver → Option Bytes → Exec Call
  prepare_confidential envelope receiver seed h = elim (opened_request envelope receiver) [
    | err e ↦ (err e, h)
    | ok request ↦ (checked_call envelope seed request (s.world.now h), clock_read ∷ h)
  ]
