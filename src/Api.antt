-- ===== src/Api.antt =====
-- providers/efi/efiapi: the authenticated HTTP client, its errors, and the confidential boundary.
pub mod Errors
mod Effects
pub mod Confidential
pub mod Http
pub mod Sanitize
pub mod Boundary
pub mod Responses
pub mod Sends
pub mod Mutations
pub use Errors.{
  Error, api, transport, sentinel, plain, wrap, Sentinel, request_failed, response_too_large,
  mutation_refused, mutation_accepted, invalid, expired, held, ApiError,
}
unfoldable pub use Errors.{as_api, is_sentinel, is_transient, is_transient_error}
pub use Effects.{
  after-eq-ok, Exec, return, raise, ◌>>=◌, ◌>>◌, lift, after, labelled, within, require, Ensures,
  bind-Ensures, lift-Ensures, within-Ensures, require-eq-ok,
}
pub use Confidential.{Context, background}
pub use Http.{Client, Decoder}
unfoldable pub use Http.{do_request, do_inner, do_raw, classify_path, send, receive}
