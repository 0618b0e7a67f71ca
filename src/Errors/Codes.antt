-- ===== src/Errors/Codes.antt =====
-- The two sources of an error's HTTP status, apps/api/integrations/errors.py and envelopes.py.
use mission_control_platform.Prelude.{◌≡◌, refl}
use mission_control_platform.Errors.{Error, http_status, http_status_by_code, code_of}

-- For every error, the status that its class carries is the status that the contract gives for the
-- code of the error.
status_agrees : (e : Error) → http_status e ≡ http_status_by_code (code_of e)
unfolding http_status http_status_by_code code_of
status_agrees Error.host_integration_error = refl
status_agrees e = refl
