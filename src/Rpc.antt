-- ===== src/Rpc.antt =====
-- providers/efi/message/rpc.go: the envelope of an answer. The SDK acknowledges a delivery whose handler
-- returns one, also where it carries an error.
use integration_efi.Base.{String, Bool, true, false, Option, none, some, Outcome, ok, err}
use integration_efi.Api.{Error}
use integration_efi.Confidential.Data.{Bytes}

-- rpcError
pub record RpcError : Type 0 where
  pub code : String
  pub message : String

-- rpcResponse
pub record RpcResponse (A : Type 0) : Type 0 where
  pub ok_flag : Bool
  pub payload : Option A
  pub error : Option RpcError

-- A handler's result: the body with its content type, or an error, for which the SDK does not acknowledge.
abbrev pub Reply : Type 0
Reply = Outcome Error (Bytes × String)

abbrev typed : Outcome Error Bytes → Reply
typed (ok body) = ok (body, "application/json")
typed (err e) = err e

module _ {A : Type 0} (marshal : RpcResponse A → Outcome Error Bytes) where
  -- success
  unfoldable pub success : A → Reply
  success a = typed (marshal (record { ok_flag = true; payload = some a; error = none }))

  -- failure, without its log line
  unfoldable pub failure : String → String → Reply
  failure code message = typed (
      marshal (record {
        ok_flag = false;
        payload = none;
        error = some (record { code = code; message = message });
      }))
