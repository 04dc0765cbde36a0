-- ===== src/Api/Errors.antt =====
-- The error values: *EfiAPIError, *EfiTransportError, the sentinels, and fmt.Errorf around them.
use integration_efi.Base.{ℕ, String, Bool, true, false, Option, none, some, ◌||◌, eqb}

-- errors.New values that are compared by identity: those of efiapi/confidential.go, then those of
-- confidential/codec.go.
pub data Sentinel : Type 0 where
  request_failed response_too_large mutation_refused mutation_accepted : Sentinel
  invalid expired held : Sentinel

pub record ApiError : Type 0 where
  pub status : ℕ
  pub name : String
  pub message : String

pub data Error : Type 0 where
  api : ApiError → Error
  transport : String → Error → Error  -- the operation, and the cause that Unwrap returns
  sentinel : Sentinel → Error
  plain : String → Error  -- errors.New, and fmt.Errorf without %w
  wrap : String → Error → Error  -- fmt.Errorf("text: %w", cause)

-- errors.As(err, &apiErr)
unfoldable pub as_api : Error → Option ApiError
as_api (api e) = some e
as_api (transport op cause) = as_api cause
as_api (sentinel s) = none
as_api (plain t) = none
as_api (wrap t cause) = as_api cause

abbrev same_sentinel : Sentinel → Sentinel → Bool
same_sentinel request_failed request_failed = true
same_sentinel response_too_large response_too_large = true
same_sentinel mutation_refused mutation_refused = true
same_sentinel mutation_accepted mutation_accepted = true
same_sentinel invalid invalid = true
same_sentinel expired expired = true
same_sentinel held held = true
same_sentinel _ _ = false

-- errors.Is(err, s)
unfoldable pub is_sentinel : Sentinel → Error → Bool
is_sentinel s (api e) = false
is_sentinel s (transport op cause) = is_sentinel s cause
is_sentinel s (sentinel r) = same_sentinel s r
is_sentinel s (plain t) = false
is_sentinel s (wrap t cause) = is_sentinel s cause

-- (*EfiAPIError).IsTransient
unfoldable pub is_transient : ApiError → Bool
is_transient e = eqb e.status 429 || eqb e.status 503 || eqb e.status 504

-- IsTransientError
unfoldable pub is_transient_error : Error → Bool
unfolding as_api is_transient
is_transient_error e = elim (as_api e) [ none ↦ false | some a ↦ is_transient a ]
