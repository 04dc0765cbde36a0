-- ===== src/Describe/Handler.antt =====
-- providers/efi/message/describe.go: the handler of the describe capability.
use integration_efi.Base.{
  String, ◌&&◌, not, Outcome, ok, err, ◌==◌, ◌<>◌, equal_fold, trim_space, if◌then◌else◌,
}
use integration_efi.World.{World}
use integration_efi.Api.{Error}
use integration_efi.Confidential.Data.{Bytes}
use integration_efi.Manifest.{DescribeRequest, DescribeResponse}
use integration_efi.Rpc.{RpcResponse, Reply, success, failure}
use integration_efi.Describe.{describe, adapter_version}

-- What encoding/json and strconv do for this handler.
pub record Wires : Type 0 where
  pub text : Bytes → String  -- string(_)
  pub read : Bytes → Outcome Error DescribeRequest  -- json.Unmarshal
  pub marshal : RpcResponse DescribeResponse → Outcome Error Bytes  -- json.Marshal
  pub quote : String → String  -- %q
  pub error_text : Error → String  -- Error()

-- The request of a delivery with a blank body.
abbrev pub no_request : DescribeRequest
no_request = record { provider = ""; expected_version = "" }

module _ (w : World) (env : String → String) (io : Wires) where
  -- req, or the error of json.Unmarshal
  unfoldable pub describe_request : Bytes → Outcome Error DescribeRequest
  describe_request body = if trim_space (io.text body) == "" then ok no_request else io.read body

  -- The checks of the handler, and its answer.
  unfoldable pub answer_request : DescribeRequest → Reply
  answer_request req =
      let provider = trim_space req.provider in
      let expected = trim_space req.expected_version in
      if not (provider == "") && not (equal_fold provider "efi")
      then failure io.marshal "bad_request" ("unsupported provider " <> io.quote req.provider)
      else if not (expected == "") && not (expected == adapter_version)
      then failure io.marshal "version_mismatch" (
          "expected version "
          <> io.quote expected
          <> " but adapter is "
          <> io.quote adapter_version)
      else success io.marshal (describe w env)

  -- The answer behind the reading of a request.
  abbrev pub answer_read : Outcome Error DescribeRequest → Reply
  answer_read (err e) = failure io.marshal "bad_request" (io.error_text e)
  answer_read (ok req) = answer_request req

  -- DescribeHandler
  unfoldable pub describe_handler : Bytes → Reply
  describe_handler body = answer_read (describe_request body)
