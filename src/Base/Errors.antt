-- ===== src/Base/Errors.antt =====
-- services/domain/errors.py: the exceptions of the domain with their wire code and HTTP status, and
-- the other exception classes that the modelled code raises. An exception is modelled by its class;
-- its message text is dropped.
use Prim.Native.Nat.{ℕ}
use Prim.Native.String.{String}

pub data Error : Type 0 where
  domain authentication authorization conflict not_found unsupported_terms validation : Error
  durable stale_lease value_error runtime_error capacity_exceeded integrity injected_crash : Error
  provider_retryable provider_rejected provider_other : Error
  gmail_retryable ses_retryable key_error overflow_error type_error : Error

-- `code` of each class of domain/errors.py; other classes have none
pub code : Error → String
code Error.authentication = "authentication_required"
code Error.authorization = "resource_not_found"
code Error.conflict = "conflict"
code Error.not_found = "resource_not_found"
code Error.unsupported_terms = "manual_handling_required"
code Error.validation = "validation_error"
code _ = "domain_error"

pub status_code : Error → ℕ
status_code Error.authentication = 401
status_code Error.authorization = 404
status_code Error.conflict = 409
status_code Error.not_found = 404
status_code Error.unsupported_terms = 422
status_code Error.validation = 422
status_code _ = 400
