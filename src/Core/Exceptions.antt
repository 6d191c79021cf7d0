-- ===== src/Core/Exceptions.antt =====
-- The exceptions of api/core/exceptions.py, and what a handler can raise. A `detail` is the
-- source's message with its placeholders left in, so it names the message and not its arguments.
use Prim.Native.Nat.{ℕ}
use Prim.Native.String.{String}

pub record HttpException : Type 0 where
  pub status_code : ℕ
  pub detail : String

-- `integrity_error` carries the name of the violated constraint; `multiple_results_found` is
-- what SQLAlchemy's `scalar_one_or_none` raises for two rows or more, `invalid_request_error` what
-- its `refresh` raises for a row that is gone.
pub data Error : Type 0 where
  http : HttpException → Error
  integrity_error : String → Error
  multiple_results_found invalid_request_error : Error

pub data Result (A : Type 0) : Type 0 where
  ok : A → Result A
  err : Error → Result A

abbrev pub http_exception : ℕ → String → Error
http_exception code message = http (record { status_code = code; detail = message })

abbrev pub not_found_exception : String → Error
not_found_exception = http_exception 404

abbrev pub already_exists_exception : String → Error
already_exists_exception = http_exception 409

abbrev pub forbidden_exception : String → Error
forbidden_exception = http_exception 403
