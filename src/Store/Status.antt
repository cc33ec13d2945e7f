-- ===== src/Store/Status.antt =====
-- The status words of executions and of their targets, and the tests that the statements make.
use vpstools.Base.{String, Bool, true, false}

pub data Status : Type 0 where
  created queued pending running succeeded failed dead_letter cancelled : Status

-- The word that a column or an event holds.
abbrev pub word : Status → String
word created = "created"
word queued = "queued"
word pending = "pending"
word running = "running"
word succeeded = "succeeded"
word failed = "failed"
word dead_letter = "dead_letter"
word cancelled = "cancelled"

-- `status IN ('queued','running')`
abbrev pub is_live : Status → Bool
is_live queued = true
is_live running = true
is_live _ = false

-- `status IN ('created','queued')`
abbrev pub is_cancellable : Status → Bool
is_cancellable created = true
is_cancellable queued = true
is_cancellable _ = false

-- `status IN ('pending','running')`
abbrev pub is_open : Status → Bool
is_open pending = true
is_open running = true
is_open _ = false

-- `status IN ('failed','dead_letter')`
abbrev pub is_bad : Status → Bool
is_bad failed = true
is_bad dead_letter = true
is_bad _ = false

abbrev pub is_pending : Status → Bool
is_pending pending = true
is_pending _ = false

abbrev pub is_running : Status → Bool
is_running running = true
is_running _ = false

abbrev pub is_failed : Status → Bool
is_failed failed = true
is_failed _ = false

abbrev pub is_dead : Status → Bool
is_dead dead_letter = true
is_dead _ = false

-- `status = ?` for the status that a claim query returned, which is one of two.
abbrev pub same_open : Status → Status → Bool
same_open pending s = is_pending s
same_open running s = is_running s
same_open _ s = false
