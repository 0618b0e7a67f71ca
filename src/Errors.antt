-- ===== src/Errors.antt =====
-- The errors of the service layer: apps/api/integrations/errors.py, with the codes and the
-- indicative statuses of apps/api/integrations/envelopes.py. The texts and the details of an error
-- are shown to people and are not modelled.
pub mod Codes
use mission_control_platform.Prelude.{ℕ, List, [], ◌∷◌}

pub data ErrorCode : Type 0 where
  unauthenticated credential_invalid credential_revoked permission_denied : ErrorCode
  tenant_required tenant_forbidden not_found validation_error conflict : ErrorCode
  idempotency_conflict sequence_out_of_order state_conflict approval_required : ErrorCode
  budget_exceeded rate_limited not_implemented internal_error : ErrorCode

unfoldable pub http_status_by_code : ErrorCode → ℕ
http_status_by_code ErrorCode.unauthenticated = 401
http_status_by_code ErrorCode.credential_invalid = 401
http_status_by_code ErrorCode.credential_revoked = 403
http_status_by_code ErrorCode.permission_denied = 403
http_status_by_code ErrorCode.tenant_required = 403
http_status_by_code ErrorCode.tenant_forbidden = 403
http_status_by_code ErrorCode.not_found = 404
http_status_by_code ErrorCode.validation_error = 422
http_status_by_code ErrorCode.conflict = 409
http_status_by_code ErrorCode.idempotency_conflict = 409
http_status_by_code ErrorCode.sequence_out_of_order = 409
http_status_by_code ErrorCode.state_conflict = 409
http_status_by_code ErrorCode.approval_required = 409
http_status_by_code ErrorCode.budget_exceeded = 409
http_status_by_code ErrorCode.rate_limited = 429
http_status_by_code ErrorCode.not_implemented = 501
http_status_by_code ErrorCode.internal_error = 500

-- One constructor for each exception class. `outside_catalog` is the `ValueError` that `emit_outbox`
-- raises, `not_a_text` what a text method or a text column raises of a value that is no text, and
-- `malformed_cursor` the `ValueError` of the date of a cursor, and `outside_column` what the database
-- raises of a number that its column cannot hold: none is an integration error.
pub data Error : Type 0 where
  host_integration_error identity_unresolved tenant_unresolved user_not_in_tenant : Error
  permission_denied credential_invalid credential_revoked validation_failed : Error
  resource_not_found state_conflict budget_exceeded conflict outside_catalog not_a_text
        malformed_cursor outside_column :
      Error

unfoldable pub code_of : Error → ErrorCode
code_of Error.host_integration_error = ErrorCode.internal_error
code_of Error.identity_unresolved = ErrorCode.unauthenticated
code_of Error.tenant_unresolved = ErrorCode.tenant_required
code_of Error.user_not_in_tenant = ErrorCode.tenant_forbidden
code_of Error.permission_denied = ErrorCode.permission_denied
code_of Error.credential_invalid = ErrorCode.credential_invalid
code_of Error.credential_revoked = ErrorCode.credential_revoked
code_of Error.validation_failed = ErrorCode.validation_error
code_of Error.resource_not_found = ErrorCode.not_found
code_of Error.state_conflict = ErrorCode.state_conflict
code_of Error.budget_exceeded = ErrorCode.budget_exceeded
code_of Error.conflict = ErrorCode.conflict
code_of Error.outside_catalog = ErrorCode.internal_error
code_of Error.not_a_text = ErrorCode.internal_error
code_of Error.malformed_cursor = ErrorCode.internal_error
code_of Error.outside_column = ErrorCode.internal_error

-- The class attribute `http_status`.
unfoldable pub http_status : Error → ℕ
http_status Error.host_integration_error = 500
http_status Error.identity_unresolved = 401
http_status Error.tenant_unresolved = 403
http_status Error.user_not_in_tenant = 403
http_status Error.permission_denied = 403
http_status Error.credential_invalid = 401
http_status Error.credential_revoked = 403
http_status Error.validation_failed = 422
http_status Error.resource_not_found = 404
http_status Error.state_conflict = 409
http_status Error.budget_exceeded = 409
http_status Error.conflict = 409
http_status Error.outside_catalog = 500
http_status Error.not_a_text = 500
http_status Error.malformed_cursor = 500
http_status Error.outside_column = 500

-- What a service gives back: the exception that it raises, or the value that it returns.
pub data Result {ℓ} (Value : Type ℓ) : Type ℓ where
  err : (raised : Error) → Result Value
  ok : (returned : Value) → Result Value

infixl 5 ◌>>◌ ◌>>=◌
-- Goes on with the value; an exception ends the chain.
abbrev pub ◌>>=◌ {ℓ κ} :
    {Value : Type ℓ} {Next : Type κ} → Result Value → (Value → Result Next) → Result Next
err raised >>= next = err raised
ok value >>= next = next value

-- A check, and what is done when it passes.
abbrev pub ◌>>◌ {ℓ} : {Next : Type ℓ} → Result (Unit {0}) → Result Next → Result Next
check >> next = check >>= λ passed. next
