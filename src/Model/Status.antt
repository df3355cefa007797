-- ===== src/Model/Status.antt =====
-- chronon-core/src/models/run.rs: the status of a run.
use chronon.Base.{Bool, true, false}

pub data RunStatus : Type 0 where
  queued claimed running success failed canceled timeout : RunStatus

pub RunStatus-discrete : Discrete RunStatus
RunStatus-discrete = hlevel

unfoldable pub is_terminal : RunStatus → Bool
is_terminal success = true
is_terminal failed = true
is_terminal canceled = true
is_terminal timeout = true
is_terminal _ = false

unfoldable pub is_active : RunStatus → Bool
is_active queued = true
is_active claimed = true
is_active running = true
is_active _ = false

-- `a == b`
abbrev pub eqb_status : RunStatus → RunStatus → Bool
eqb_status a b = elim (RunStatus-discrete a b) [ yes _ ↦ true | no _ ↦ false ]
