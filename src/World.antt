-- ===== src/World.antt =====
-- What the adapter runs against and does not implement: the Go standard library's parsers and
-- printers, the HTTP transport with the provider behind it, and the clock. All are parameters of
-- the model. A run is a function of the history of its effects, so the provider and the clock may
-- answer each time anew.
use integration_efi.Base.{ℕ, ℤ, String, Bool, Option, List}
use integration_efi.Value.{Value, Json, Float}

-- net/url.URL, the parts that are read
pub record Url : Type 0 where
  pub scheme : String
  pub opaque : String
  pub has_user : Bool  -- User != nil
  pub host : String
  pub hostname : String
  pub port : String
  pub path : String
  pub raw_path : String
  pub raw_query : String
  pub force_query : Bool
  pub fragment : String

-- url.Values: the values of each key
abbrev pub Query : Type 0
Query = List (String × List String)

pub record Library : Type 0 where
  pub parse_json : List ℕ → Option Json  -- the syntax check of json.Unmarshal
  pub read_access_token : List ℕ → Option String  -- json.Unmarshal into a struct with access_token
  pub marshals : Value → Bool  -- json.Marshal succeeds
  pub to_lower : String → String  -- strings.ToLower
  pub parse_url : String → Option Url  -- url.Parse
  pub format_url : Url → String  -- (*URL).String
  pub path_escape : String → String  -- url.PathEscape
  pub valid_query : String → Bool  -- url.ParseQuery succeeds
  pub read_query : String → Query  -- (*URL).Query
  pub encode_query : Query → String  -- Values.Encode
  pub parse_rfc3339 : String → Option ℕ  -- time.Parse(time.RFC3339, _), in nanoseconds
  pub parse_rfc3339_nano : String → Option ℕ  -- time.Parse(time.RFC3339Nano, _)
  pub parse_uuid : String → Option String  -- uuid.Parse, as its String()
  pub status_text : ℕ → String  -- http.StatusText
  pub unfit_int : Float → ℤ  -- int(v) where no int holds the value: the platform's choice

pub data Method : Type 0 where
  method_get method_post method_put method_patch method_delete : Method

pub data Authorization : Type 0 where
  basic : String → String → Authorization
  bearer : String → Authorization

pub record Request : Type 0 where
  pub method : Method
  pub url : String
  pub authorization : Authorization
  pub body : Option Value
  pub headers : List (String × String)  -- those of the caller

-- What http.Client.Do and the reading of the body come to.
pub data Reply : Type 0 where
  failed : String → Reply  -- no response; the text is the network's
  broken : ℕ → String → Reply  -- status and headers came, the body did not
  answered : ℕ → List ℕ → Reply  -- status and the bytes of the body

-- The effects of a run.
pub data Event : Type 0 where
  sent : Request → Event
  clock_read : Event
  published : String → String → String → Value → Event  -- type, resource, instance, observed state

-- Newest first.
abbrev pub History : Type 0
History = List Event

pub record World : Type 0 where
  pub library : Library
  pub open library use *
  pub reply : History → Request → Reply
  pub now : History → ℕ
  pub cancelled : History → Bool  -- ctx.Err() != nil
  pub accepts : History → Bool  -- the emitter delivers the next event
