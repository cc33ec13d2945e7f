-- ===== src/Queue/Submit/Resubmission.antt =====
-- A second result for a lease (apps/api/jobs.go).
use vpstools.Base.{String, Option, none, some}
use vpstools.Base.Table.{find}
use vpstools.Store.Rows.{Db, Receipt}
use vpstools.Runners.Reply.{Reply}
use vpstools.Queue.Submit.{Submission, is_receipt}

-- The stored body of the receipt for a lease.
abbrev body_of : Option Receipt → String
body_of (some r) = r.response_body
body_of none = ""

unfoldable pub stored_body : Submission → Db → String
stored_body q db = body_of (find (is_receipt q) db.receipts)
