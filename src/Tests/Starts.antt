-- ===== src/Tests/Starts.antt =====
-- Examples for the boot, the command line and the manifest.
use integration_efi.Base.{
  ◌≡◌, ◌≢◌, ◌⊎◌, ◌↔◌, refl, String, Bool, true, false, none, some, List, [], ◌∷◌, ok, ◌==◌, ℕ,
  length, if◌then◌else◌, pos, trim_space,
}
use integration_efi.Session.{Config, load}
use integration_efi.Mtls.{TlsConfig, load_tls_config, source_of}
use integration_efi.Confidential.Data.{Bytes}
use integration_efi.Confidential.Codec.{Receiver}
use integration_efi.Confidential.Public.{new_receiver}
use integration_efi.Manifest.{DescribeRequest}
use integration_efi.Rpc.{success, failure}
use integration_efi.Routing.{handler}
use integration_efi.Contract.{action_names}
use integration_efi.Contract.Consistent.{IsIn}
use integration_efi.Describe.{describe, adapter_version}
use integration_efi.Describe.Advertised.{describe-eq-served_iff}
use integration_efi.Describe.Handler.{Wires, describe_request, describe_handler, no_request}
use integration_efi.Describe.Handshake.{IsFitting, describe_handler-IsHandshake}
use integration_efi.Process.Command.{dispatch_adapter_command, print_runtime_argument}
use integration_efi.Process.Command.Printing.{IsPrinted, dispatch_adapter_command-IsPrinted}
use integration_efi.Process.Boot.{
  listening_http, probe, Surroundings, chosen_transport, listen_on, env_or_default, run_adapter,
}
use integration_efi.Process.Boot.Live.{
  Reaches, IsProbedReady, IsBootable, run_adapter_becomes_ready,
}
use integration_efi.Process.Boot.Transport.{described, describe-chosen_transport}
use integration_efi.Tests.{good, client, secret}
use integration_efi.Tests.Toy.{toy, zeros, encode}
use integration_efi.Tests.Boots.{knowing, public, publics}
use integration_efi.Tests.Routes.{no_others, request}
use integration_efi.Tests.Readiness.{loader}
use integration_efi.Tests.Sessions.{settings}

abbrev unset : String → String
unset name = ""

abbrev surroundings : Surroundings
surroundings = record {
  logger_made = true;
  key_pair = some (zeros 2, zeros 2);
  key_id = some "k1";
  publishes = λ m. true;
  loader = loader;
  run = ok tt;
}

abbrev made : Receiver
made = record {
  public = record {
    version = pos 1;
    algorithm = "nacl-box-seal-anonymous-v1";
    adapter_version = adapter_version;
    key_id = "k1";
    public_key = encode (zeros 2);
  };
  secret = some (zeros 2);
}

receiver_made : new_receiver toy surroundings.key_pair surroundings.key_id adapter_version ≡ ok made
unfolding new_receiver
receiver_made = refl

-- Without mTLS nothing is loaded.
abbrev mock : String → String
mock name = if name == "EFI_MTLS_ENABLED" then "false" else ""

certificate_off : load_tls_config surroundings.loader (load good mock) ≡ ok none
unfolding load_tls_config load trim_space
certificate_off = refl

http_chosen : chosen_transport good toy mock ≡ ok (listening_http ":8081")
unfolding chosen_transport listen_on env_or_default trim_space
http_chosen = refl

run_adapter_becomes_ready_example :
    (Reaches IsProbedReady (run_adapter good toy mock surroundings []).1
      ↔ IsBootable good toy mock surroundings)
    × (probe (run_adapter good toy mock surroundings []).1 ≡ none)
run_adapter_becomes_ready_example = run_adapter_becomes_ready good toy mock surroundings

mock_boots : IsBootable good toy mock surroundings
mock_boots = record {
  heard = refl;
  receiver = made;
  made = receiver_made;
  published = refl;
  listener = listening_http ":8081";
  chosen = http_chosen;
  certificate = none;
  certified = certificate_off;
}

describe-chosen_transport_example :
    (describe good mock).adapter.transport ≡ described (listening_http ":8081")
describe-chosen_transport_example =
    describe-chosen_transport good toy mock (listening_http ":8081") http_chosen

abbrev writer : Bytes → ℕ × Bool
writer bytes = (length bytes, true)

dispatch_adapter_command-IsPrinted_example :
    let x =
      dispatch_adapter_command knowing toy publics writer
        (print_runtime_argument ∷ [])
        (some public) in
    ((x.started ≡ true) ↔ (◌≡◌ {A = List String} (print_runtime_argument ∷ []) []))
    × (x.started ≡ false
        → x.code ≡ 0
        → (◌≡◌ {A = List String} (print_runtime_argument ∷ []) (print_runtime_argument ∷ []))
          × IsPrinted knowing toy publics writer (some public) x)
dispatch_adapter_command-IsPrinted_example =
    dispatch_adapter_command-IsPrinted knowing toy publics writer (print_runtime_argument ∷ [])
      (some public)

describe-eq-served_iff_example :
    IsIn "refund_charge" (action_names (describe good unset))
    ↔ (handler good "main" no_others secret settings client request "refund_charge" ≢ none)
describe-eq-served_iff_example =
    describe-eq-served_iff good "main" no_others secret unset settings client request
      "refund_charge"

abbrev wires : Wires
wires = record {
  text = λ body. "";
  read = λ body. ok no_request;
  marshal = λ response. ok [];
  quote = λ s. s;
  error_text = λ e. "";
}

describe_handler-IsHandshake_example :
    ((req : DescribeRequest) × (describe_request good unset wires [] ≡ ok req)
      × IsFitting req
      × (describe_handler good unset wires [] ≡ success wires.marshal (describe good unset)))
    ⊎ ((code : String) × (message : String) × (describe_handler good unset wires []
          ≡ failure wires.marshal code message)
        × ((req : DescribeRequest)
            → describe_request good unset wires [] ≡ ok req
            → ¬ IsFitting req))
describe_handler-IsHandshake_example = describe_handler-IsHandshake good unset wires []

-- mTLS by a certificate of the environment's.
abbrev certificated : Config
certificated = record settings { certificate_base64 = "p12" }

abbrev certified : TlsConfig
certified = record { certificates = ((1 ∷ []) ∷ []) ∷ []; roots = some 0; min_version = 0x0303 }

settings_loaded : load_tls_config loader certificated ≡ ok (some certified)
unfolding load_tls_config source_of
settings_loaded = refl
