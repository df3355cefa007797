-- ===== src/Sql/Parsing.antt =====
-- The texts of the enumerations are read back, and no other text is.
use Prim.Native.String.{◌++◌ as append}
use chronon.Base.{String, ◌≡◌, ◌≢◌, ◌∙◌, ap, ◌⊎◌, inl, inr, refl, text_discrete, arith}
use chronon.Model.Coordination.{WorkerStatus, online, draining, offline}
use chronon.Model.Error.{Result, ok, err, storage_error}
use chronon.Model.Job.{ScheduleKind, cron, run_once, manual}
use chronon.Model.Status.{RunStatus, queued, claimed, running, success, failed, canceled, timeout}
use chronon.Sql.Names.{
  run_status_to_str, parse_run_status, schedule_kind_to_str, parse_schedule_kind,
  worker_status_to_str, parse_worker_status,
}

pub parse-run_status_to_str : (st : RunStatus) → parse_run_status (run_status_to_str st) ≡ ok st
unfolding parse_run_status run_status_to_str text_discrete
parse-run_status_to_str queued = refl
parse-run_status_to_str claimed = refl
parse-run_status_to_str running = refl
parse-run_status_to_str success = refl
parse-run_status_to_str failed = refl
parse-run_status_to_str canceled = refl
parse-run_status_to_str timeout = refl

pub parse-schedule_kind_to_str :
    (kind : ScheduleKind) → parse_schedule_kind (schedule_kind_to_str kind) ≡ ok kind
unfolding parse_schedule_kind schedule_kind_to_str text_discrete
parse-schedule_kind_to_str cron = refl
parse-schedule_kind_to_str run_once = refl
parse-schedule_kind_to_str manual = refl

pub parse-worker_status_to_str :
    (st : WorkerStatus) → parse_worker_status (worker_status_to_str st) ≡ ok st
unfolding parse_worker_status worker_status_to_str text_discrete
parse-worker_status_to_str online = refl
parse-worker_status_to_str draining = refl
parse-worker_status_to_str offline = refl

-- What a parser does with a text: it reads the value that is written so, or refuses a text that is
-- no value's, by a storage error that names it.
abbrev pub Reads : {E : Type 0} → (E → String) → String → String → Result E → Type 0
Reads {E} to_str label s r =
    ((e : E) × (s ≡ to_str e) × (r ≡ ok e))
    ⊎ (((e : E) → s ≢ to_str e) × (r ≡ err (storage_error (append label s))))

module _ (s : String) (a : s ≢ "cron") (b : s ≢ "run_once") (c : s ≢ "manual") where
  refuse_schedule_kind :
      Reads schedule_kind_to_str "unknown schedule kind: " s (parse_schedule_kind s)
  unfolding parse_schedule_kind schedule_kind_to_str
  refuse_schedule_kind = inr (none_left, ground arith)
    where
      none_left : (e : ScheduleKind) → s ≢ schedule_kind_to_str e
      none_left cron = a
      none_left run_once = b
      none_left manual = c

read_schedule_kind :
    (s : String) (e : ScheduleKind)
    → s ≡ schedule_kind_to_str e
    → Reads schedule_kind_to_str "unknown schedule kind: " s (parse_schedule_kind s)
read_schedule_kind s e p = inl (e, p, ap parse_schedule_kind p ∙ parse-schedule_kind_to_str e)

-- Of a schedule kind.
pub parse_schedule_kind-Reads :
    (s : String) → Reads schedule_kind_to_str "unknown schedule kind: " s (parse_schedule_kind s)
unfolding schedule_kind_to_str
parse_schedule_kind-Reads s = elim (text_discrete s "cron") [
  | yes p ↦ read_schedule_kind s cron p
  | no a ↦ elim (text_discrete s "run_once") [
    | yes p ↦ read_schedule_kind s run_once p
    | no b ↦ elim (text_discrete s "manual") [
      | yes p ↦ read_schedule_kind s manual p
      | no c ↦ refuse_schedule_kind s a b c
    ]
  ]
]

module _ (s : String) (a : s ≢ "online") (b : s ≢ "draining") (c : s ≢ "offline") where
  refuse_worker_status :
      Reads worker_status_to_str "unknown worker status: " s (parse_worker_status s)
  unfolding parse_worker_status worker_status_to_str
  refuse_worker_status = inr (none_left, ground arith)
    where
      none_left : (e : WorkerStatus) → s ≢ worker_status_to_str e
      none_left online = a
      none_left draining = b
      none_left offline = c

read_worker_status :
    (s : String) (e : WorkerStatus)
    → s ≡ worker_status_to_str e
    → Reads worker_status_to_str "unknown worker status: " s (parse_worker_status s)
read_worker_status s e p = inl (e, p, ap parse_worker_status p ∙ parse-worker_status_to_str e)

-- Of a worker's status.
pub parse_worker_status-Reads :
    (s : String) → Reads worker_status_to_str "unknown worker status: " s (parse_worker_status s)
unfolding worker_status_to_str
parse_worker_status-Reads s = elim (text_discrete s "online") [
  | yes p ↦ read_worker_status s online p
  | no a ↦ elim (text_discrete s "draining") [
    | yes p ↦ read_worker_status s draining p
    | no b ↦ elim (text_discrete s "offline") [
      | yes p ↦ read_worker_status s offline p
      | no c ↦ refuse_worker_status s a b c
    ]
  ]
]

module _ (s : String) (a : s ≢ "queued") (b : s ≢ "claimed") (c : s ≢ "running") (d : s ≢ "success")
    (e : s ≢ "failed") (f : s ≢ "canceled") (g : s ≢ "timeout") where
  refuse_run_status : Reads run_status_to_str "unknown run status: " s (parse_run_status s)
  unfolding parse_run_status run_status_to_str
  refuse_run_status = inr (none_left, ground arith)
    where
      none_left : (e : RunStatus) → s ≢ run_status_to_str e
      none_left queued = a
      none_left claimed = b
      none_left running = c
      none_left success = d
      none_left failed = e
      none_left canceled = f
      none_left timeout = g

read_run_status :
    (s : String) (e : RunStatus)
    → s ≡ run_status_to_str e
    → Reads run_status_to_str "unknown run status: " s (parse_run_status s)
read_run_status s e p = inl (e, p, ap parse_run_status p ∙ parse-run_status_to_str e)

-- Any text read from the status column of a run: the text of one of the seven statuses is read as
-- that status; any other text is refused by a storage error that says `unknown run status` and the text.
pub parse_run_status-Reads :
    (s : String) → Reads run_status_to_str "unknown run status: " s (parse_run_status s)
unfolding run_status_to_str
parse_run_status-Reads s = elim (text_discrete s "queued") [
  | yes p ↦ read_run_status s queued p
  | no a ↦ elim (text_discrete s "claimed") [
    | yes p ↦ read_run_status s claimed p
    | no b ↦ elim (text_discrete s "running") [
      | yes p ↦ read_run_status s running p
      | no c ↦ elim (text_discrete s "success") [
        | yes p ↦ read_run_status s success p
        | no d ↦ elim (text_discrete s "failed") [
          | yes p ↦ read_run_status s failed p
          | no e ↦ elim (text_discrete s "canceled") [
            | yes p ↦ read_run_status s canceled p
            | no f ↦ elim (text_discrete s "timeout") [
              | yes p ↦ read_run_status s timeout p
              | no g ↦ refuse_run_status s a b c d e f g
            ]
          ]
        ]
      ]
    ]
  ]
]
