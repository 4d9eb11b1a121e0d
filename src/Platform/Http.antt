-- ===== src/Platform/Http.antt =====
-- The error value of the HTTP interfaces (pkg/platform/httpx/httpx.go). The message and the details
-- are text for the client and are left out.
use freshflow.Prelude.{ℕ, String}

pub record ApiError : Type 0 where
  pub status : ℕ
  pub code : String

abbrev pub error : ℕ → String → ApiError
error status code = record { status = status; code = code }

-- What `WriteError` answers when it is given no error.
abbrev pub internal_error : ApiError
internal_error = error 500 "internal_error"

-- What a handler writes: `WriteJSON` with its status, a bare 204, or `WriteError`.
pub data Reply (A : Type 0) : Type 0 where
  json : ℕ → A → Reply A
  no_content : Reply A
  failure : ApiError → Reply A

abbrev pub status_of : {A : Type 0} → Reply A → ℕ
status_of (json status _) = status
status_of no_content = 204
status_of (failure e) = e.status
