-- ===== src/Sql/Names.antt =====
-- chronon-backend-sql-common/src/row/mod.rs: the texts that stand for the enumerations in SQL.
use Prim.Native.String.{◌++◌ as append}
use chronon.Base.{String, ◌==◌, if◌then◌else◌}
use chronon.Model.Error.{Result, ok, err, storage_error}
use chronon.Model.Coordination.{WorkerStatus, online, draining, offline}
use chronon.Model.Job.{ScheduleKind, cron, run_once, manual}
use chronon.Model.Status.{RunStatus, queued, claimed, running, success, failed, canceled, timeout}

unfoldable pub schedule_kind_to_str : ScheduleKind → String
schedule_kind_to_str cron = "cron"
schedule_kind_to_str run_once = "run_once"
schedule_kind_to_str manual = "manual"

unfoldable pub parse_schedule_kind : String → Result ScheduleKind
parse_schedule_kind s =
    if s == "cron"
    then ok cron
    else if s == "run_once"
    then ok run_once
    else if s == "manual"
    then ok manual
    else err (storage_error (append "unknown schedule kind: " s))

unfoldable pub run_status_to_str : RunStatus → String
run_status_to_str queued = "queued"
run_status_to_str claimed = "claimed"
run_status_to_str running = "running"
run_status_to_str success = "success"
run_status_to_str failed = "failed"
run_status_to_str canceled = "canceled"
run_status_to_str timeout = "timeout"

unfoldable pub parse_run_status : String → Result RunStatus
parse_run_status s =
    if s == "queued"
    then ok queued
    else if s == "claimed"
    then ok claimed
    else if s == "running"
    then ok running
    else if s == "success"
    then ok success
    else if s == "failed"
    then ok failed
    else if s == "canceled"
    then ok canceled
    else if s == "timeout"
    then ok timeout
    else err (storage_error (append "unknown run status: " s))

unfoldable pub worker_status_to_str : WorkerStatus → String
worker_status_to_str online = "online"
worker_status_to_str draining = "draining"
worker_status_to_str offline = "offline"

unfoldable pub parse_worker_status : String → Result WorkerStatus
parse_worker_status s =
    if s == "online"
    then ok online
    else if s == "draining"
    then ok draining
    else if s == "offline"
    then ok offline
    else err (storage_error (append "unknown worker status: " s))
