-- ===== src/Runtime/Worker/Ends.antt =====
-- A run that a worker serves ends (chronon-runtime/src/worker.rs over the in-memory store).
use chronon.Base.{
  ℕ, Option, none, some, String, ◌≡◌, ◌≢◌, refl, sym, Bool-cases, leb, ap, ◌∙◌, subst, Instant, ◌⊎◌,
  inl, inr, lookup, insert, lookup-insert_self, lookup-insert_ne,
}
use chronon.Model.Error.{ok, Io, Exit, returned, panicked, endless}
use chronon.Model.Job.{Job}
use chronon.Model.Run.{Run, complete, fail, start}
use chronon.Model.Status.{RunStatus, success, failed}
use chronon.Mem.Port.{mem_store}
use chronon.Mem.Jobs.{get_job}
use chronon.Mem.Runs.{update_run}
use chronon.Mem.State.{Store}
use chronon.Sanitize.{safe_message}
use chronon.Runtime.Retry.{Failures, CapturedLogs, finalize_failed_run}
use chronon.Runtime.Retry.Attempts.{
  failed_run-keeps, Finalizes, finalize_failed_run-Finalizes, ended,
}
use chronon.Runtime.Worker.{
  ScriptEnd, completed, finish, finish_or_wait, status_result, time_limit, run_script, started,
  serve_job, serve_for, serve,
}

-- Success, failure or timeout.
abbrev pub IsEnd : RunStatus → Type 0
IsEnd status = (status ≡ success) ⊎ (status ≡ failed) ⊎ (status ≡ RunStatus.timeout)

-- The row of the run has a status that ends it.
abbrev pub EndsRun : {V : Type 0} → String → Store V → Type 0
EndsRun {V} run_id s = (r : Run V) × (lookup run_id s.runs ≡ some r) × IsEnd r.status

-- The run has a row.
abbrev pub IsStored : {V : Type 0} → String → Store V → Type 0
IsStored {V} run_id s = (old : Run V) × (lookup run_id s.runs ≡ some old)

update_run-stores :
    {V : Type 0} (run : Run V) (s : Store V)
    → IsStored run.run_id s
    → update_run run s ≡ (ok tt, record s { runs = insert run.run_id run s.runs })
unfolding update_run
update_run-stores run s (old, e) = rw (e, update_run)

-- A write of an ended run ends it.
write-EndsRun :
    {V : Type 0} (run : Run V) (s : Store V)
    → IsStored run.run_id s
    → IsEnd run.status
    → EndsRun run.run_id (update_run run s).1
write-EndsRun run s held t =
    rw (update_run-stores run s held) (run, lookup-insert_self run.run_id run s.runs, t)

unended :
    (show : ℕ → String) (limit : Option ℕ) (ended : Option ScriptEnd)
    → status_result show limit ended ≡ none
    → (limit ≡ none) × (ended ≡ none)
unfolding status_result
unended show none none e = (refl, refl)
unended show none (some end) e = cc e
unended show (some ms) none e = cc e
unended show (some ms) (some end) e = elim (Bool-cases (leb end.took_ms ms)) [
  | inl t ↦ cc (rw (t, status_result) at e)
  | inr f ↦ cc (rw (f, status_result) at e)
]

module _ {V F : Type 0} (env : Failures V F) (show : ℕ → String)
    (execute : Run V → Job V → Io (Store V) (Option ScriptEnd)) (utc : ℕ → Instant)
    (next_id : String) where
  finalized-EndsRun :
      (utc : ℕ → Instant) (run : Run V) (job : Job V) (status : RunStatus) (message : String)
      (logs : Option CapturedLogs) (s t : Store V)
      → next_id ≢ run.run_id
      → Finalizes env utc next_id run job status message logs s t
      → EndsRun run.run_id t
  finalized-EndsRun utc run job status message logs s t fresh done =
      let last = ended env utc next_id run job status message logs s in
      let same = (failed_run-keeps env (utc 1) run status message logs).0 in
      let stored : lookup run.run_id (insert last.run_id last s.runs) ≡ some last =
        subst (λ k. lookup k (insert last.run_id last s.runs) ≡ some last) same
          (lookup-insert_self last.run_id last s.runs) in
      elim done.1 [
        | inl p ↦ (last, ap (λ (x : Store V). lookup run.run_id x.runs) p ∙ stored, inr done.0)
        | inr more ↦ (
          last,
          ap (λ (x : Store V). lookup run.run_id x.runs) (more.4)
              ∙ lookup-insert_ne next_id run.run_id _ _ fresh
              ∙ stored,
          inr done.0,
        )
      ]

  -- What the script came to, where it was run for the job from the rows `before`.
  abbrev pub script_result :
      Run V → Job V → Store V → Option (Option (RunStatus × String) × CapturedLogs)
  script_result run job before =
      status_result show (time_limit job.timeout_ms) (execute run job before).0

  -- The message of the script's failure or timeout is one whose rewriting panics.
  abbrev pub HasBadMessage : Option (Option (RunStatus × String) × CapturedLogs) → Type 0
  HasBadMessage came =
      (status : RunStatus) × (message : String) × (logs : CapturedLogs) × (came
        ≡ some (some (status, message), logs))
      × (safe_message message ≡ none)

  -- The run has ended; or its task panics on such a message.
  abbrev pub EndsOrPanics :
      String → Option (Option (RunStatus × String) × CapturedLogs) → Exit × Store V → Type 0
  EndsOrPanics run_id came out =
      ((out.0 ≡ returned) × EndsRun run_id out.1) ⊎ ((out.0 ≡ panicked) × HasBadMessage came)

  finalize-EndsOrPanics :
      (utc : ℕ → Instant) (run : Run V) (job : Job V) (status : RunStatus) (message : String)
      (logs : CapturedLogs) (s : Store V)
      → next_id ≢ run.run_id
      → IsStored run.run_id s
      → EndsOrPanics run.run_id
          (some (some (status, message), logs))
          (finalize_failed_run env (mem_store V) utc next_id run job status message (some logs) s)
  finalize-EndsOrPanics utc run job status message logs s fresh (old, e) =
      elim (finalize_failed_run-Finalizes env utc next_id run job status message (some logs) s old
        e) [
          | inl (bad, out) ↦
              inr (ap (λ (x : Exit × Store V). x.0) out, (status, message, logs, refl, bad))
          | inr (clean, _, done, ends) ↦
              inl (done, finalized-EndsRun utc run job status clean (some logs) s _ fresh ends)
        ]

  finish-EndsOrPanics :
      (run : Run V) (job : Job V) (result : Option (RunStatus × String) × CapturedLogs)
      (s : Store V)
      → next_id ≢ run.run_id
      → IsStored run.run_id s
      → EndsOrPanics run.run_id
          (some result)
          (finish env (mem_store V) show execute utc next_id run job result s)
  unfolding finish completed complete
  finish-EndsOrPanics run job (none, logs) s fresh held =
      inl (refl, write-EndsRun _ s held (inl refl))
  finish-EndsOrPanics run job (some (status, message), logs) s fresh held =
      finalize-EndsOrPanics _ _ job status message logs s fresh held

  -- The script of the job is run for the started run, from the rows as the start leaves them. Its
  -- message is one whose rewriting panics; or it never ends, and the job sets no limit.
  abbrev pub IsStuck : Run V → Store V → Job V → Exit → Type 0
  IsStuck run s job exit =
      let begun = started env (mem_store V) show execute utc next_id run in
      let before : Store V = record s { runs = insert run.run_id begun s.runs } in
      ((exit ≡ panicked) × HasBadMessage (script_result begun job before))
      ⊎ ((exit ≡ endless)
          × (time_limit job.timeout_ms ≡ none)
          × ((execute begun job before).0 ≡ none))

  -- The run has ended; or the job that it names is stored, and its script has the round stuck.
  abbrev pub Serves : Run V → Store V → Exit × Store V → Type 0
  Serves run s out =
      ((out.0 ≡ returned) × EndsRun run.run_id out.1)
      ⊎ ((job_id : String) × (job : Job V) × (run.job_id ≡ some job_id)
          × (lookup job_id s.jobs ≡ some job)
          × IsStuck run s job out.0)

  module _ (run : Run V) (s : Store V) (fresh : next_id ≢ run.run_id) (held : IsStored run.run_id s)
      (kept : (r : Run V) (job : Job V) (before : Store V)
        → IsStored run.run_id before
        → IsStored run.run_id (execute r job before).1) where
    abbrev begun : Run V
    begun = started env (mem_store V) show execute utc next_id run

    abbrev before : Store V
    before = record s { runs = insert run.run_id begun s.runs }

    came-Ends :
        (job : Job V) (came : Option (Option (RunStatus × String) × CapturedLogs)) (t : Store V)
        → came ≡ script_result begun job before
        → IsStored run.run_id t
        → (((finish_or_wait env (mem_store V) show execute utc next_id begun job came t).0
              ≡ returned)
            × EndsRun run.run_id
                (finish_or_wait env (mem_store V) show execute utc next_id begun job came t).1)
          ⊎ IsStuck run s job
              (finish_or_wait env (mem_store V) show execute utc next_id begun job came t).0
    unfolding finish_or_wait started start
    came-Ends job none t e there =
        let (limit, ended) =
          unended show (time_limit job.timeout_ms) (execute begun job before).0 (sym e) in
        inr (inr (refl, limit, ended))
    came-Ends job (some result) t e there =
        elim (finish-EndsOrPanics begun job result t fresh there) [
          | inl done ↦ inl done
          | inr (exit, bad) ↦ inr (inl (exit, subst HasBadMessage e bad))
        ]

    serve_job-Serves :
        (job_id : String) (row : Option (Job V))
        → run.job_id ≡ some job_id
        → lookup job_id s.jobs ≡ row
        → Serves run s (serve_job env (mem_store V) show execute utc next_id run row s)
    unfolding serve_job run_script fail started start
    serve_job-Serves job_id none i e =
        inl
          (refl, write-EndsRun (fail env.json run "job not found" (utc 4)) s held (inr (inl refl)))
    serve_job-Serves job_id (some job) i e =
        rw (update_run-stores begun s held, serve_job)
          elim (came-Ends job (script_result begun job before) (execute begun job before).1 refl
            (kept begun job before (begun, lookup-insert_self run.run_id begun s.runs))) [
              | inl done ↦ inl done
              | inr stuck ↦ inr (job_id, job, i, e, stuck)
            ]

    serve_for-Serves :
        (job_id : Option String)
        → run.job_id ≡ job_id
        → Serves run s (serve_for env (mem_store V) show execute utc next_id run job_id s)
    unfolding serve_for fail get_job
    serve_for-Serves none i =
        inl
          (refl, write-EndsRun (fail env.json run "missing job_id" (utc 2)) s held (inr (inl refl)))
    serve_for-Serves (some job_id) i = serve_job-Serves job_id (lookup job_id s.jobs) i refl

  -- Let a claimed run have its row in the in-memory store, and let no task take that row away while
  -- the script runs; let the id of a retry be a new one. Then one round returns and the run's row has
  -- the status success, failed or timeout, whether the job is missing, the script fails, is cut off or
  -- succeeds, and whoever has claimed the run meanwhile. The exceptions are of a stored job: the task
  -- panics where the message of the script's failure or timeout is one whose rewriting panics, and it
  -- never ends where the script never ends and the job sets no limit.
  pub serve-Serves :
      (run : Run V) (s : Store V)
      → next_id ≢ run.run_id
      → IsStored run.run_id s
      → ((r : Run V) (job : Job V) (before : Store V)
          → IsStored run.run_id before
          → IsStored run.run_id (execute r job before).1)
      → Serves run s (serve env (mem_store V) show execute utc next_id run s)
  unfolding serve
  serve-Serves run s fresh held kept = serve_for-Serves run s fresh held kept run.job_id refl
