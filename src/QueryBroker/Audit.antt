-- ===== src/QueryBroker/Audit.antt =====
-- The audit log, engine/querybroker/audit.go.
-- The file is the list of its lines. Whether it takes a write is the file system's, and is a field
-- of the state; `json.Marshal` of an entry does not fail, since no field of it can.
use hermi_nas.Prelude.{Bool, List, Option, String, [], if◌then◌else◌, ℕ, ◌++◌, ◌∷◌}
use hermi_nas.Kernel.Errors
use hermi_nas.Kernel.Errors.{Error, Result}

pub record AuditEntry : Type 0 where
  pub user_id : String
  pub sql : String
  pub started_at : ℕ
  pub duration_ms : ℕ
  pub row_count : ℕ
  pub cached : Bool
  pub success : Bool
  pub error : Option Error  -- its text, in the source

pub record AuditLog : Type 0 where
  pub lines : List AuditEntry
  pub writable : Bool

-- `OpenAuditLog`, from what `os.OpenFile` gives.
unfoldable pub open_audit_log : Result AuditLog → Result AuditLog
open_audit_log (Errors.ok log) = Errors.ok log
open_audit_log (Errors.err e) =
    Errors.err (Errors.wrap Errors.internal (record { format = "open audit log"; args = [] }) e)

-- `Record`: a failed write is passed over.
unfoldable pub add : AuditEntry → AuditLog → AuditLog
add entry log = record log { lines = if log.writable then log.lines ++ entry ∷ [] else log.lines }
