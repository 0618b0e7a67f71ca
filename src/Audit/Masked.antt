-- ===== src/Audit/Masked.antt =====
-- What reaches the audit log of apps/api/agent_control/operations/audit.py is masked.
use mission_control_platform.Prelude.{◌≡◌, Option, none, some, [], ◌∷◌, ◌++◌, All, All-append, refl}
use mission_control_platform.Json.{Json, Fields, obj}
use mission_control_platform.Redaction.{Unicode}
use mission_control_platform.Redaction.Mask.{IsMasked, redact-IsMasked}
use mission_control_platform.Access.{HostContext}
use mission_control_platform.Rows.{AuditLog}
use mission_control_platform.Store.{Env, Store}
use mission_control_platform.Audit.{AuditEntry, redact_present, redact_metadata, audit_from_context}

abbrev pub MaskedOrAbsent : Unicode → Option Json → Type 0
MaskedOrAbsent u none = Unit
MaskedOrAbsent u (some j) = IsMasked u j

-- The three structured columns of a line are masked.
abbrev pub LineMasked : Unicode → AuditLog → Type 0
LineMasked u l = MaskedOrAbsent u l.before × MaskedOrAbsent u l.after × IsMasked u l.audit_metadata

present_masked : (u : Unicode) (o : Option Fields) → MaskedOrAbsent u (redact_present u o)
unfolding redact_present
present_masked u none = tt
present_masked u (some fs) = (redact-IsMasked u (obj fs)).0

metadata-IsMasked : (u : Unicode) (o : Option Fields) → IsMasked u (redact_metadata u o)
unfolding redact_metadata
metadata-IsMasked u none = tt
metadata-IsMasked u (some fs) = (redact-IsMasked u (obj fs)).0

-- Writing a line adds one line after those that the log holds, which stay as they are, and a log
-- whose lines are masked has masked lines again, whatever the line was to say.
pub audit_from_context_masked :
    (env : Env) (ctx : HostContext) (entry : AuditEntry) (s : Store)
    → All (LineMasked env.unicode) s.audits
    → (l : AuditLog) × ((audit_from_context env ctx entry s).audits ≡ s.audits ++ l ∷ [])
      × All (LineMasked env.unicode) (audit_from_context env ctx entry s).audits
unfolding audit_from_context
audit_from_context_masked env ctx entry s h = (
  _,
  refl,
  All-append (LineMasked env.unicode) s.audits (_ ∷ []) h (
    (
      present_masked env.unicode entry.before,
      present_masked env.unicode entry.after,
      metadata-IsMasked env.unicode entry.metadata,
    ),
    tt,
  ),
)
