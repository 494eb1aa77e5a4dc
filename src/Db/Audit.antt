-- ===== src/Db/Audit.antt =====
-- src/db/audit.rs: the audit log, with the newest entry first in place of the growing number.
use ruskery.Common.{ℕ, Option, List, ◌∷◌, Str, str_eq, filter, take, unwrap_or, option_map}
use ruskery.Common.{false}
use ruskery.Db.{Db, AuditRow}

-- `record`: what becomes of a write that fails is that nothing is written.
abbrev pub record_event : Db → Str → Option Str → Option Str → Str → Option Str → Option Str → Db
record_event db now actor_user_id org_id action target detail = record db {
  audit_log =
      record {
        ts = now;
        actor_user_id = actor_user_id;
        org_id = org_id;
        action = action;
        target = target;
        detail = detail;
      }
      ∷ db.audit_log;
}

-- `ORDER BY id DESC LIMIT ?`
unfoldable pub list : Db → Str → ℕ → List AuditRow
list db org_id limit = take limit (
    filter (λ (a : AuditRow). unwrap_or (option_map (λ o. str_eq o org_id) a.org_id) false)
      db.audit_log)
