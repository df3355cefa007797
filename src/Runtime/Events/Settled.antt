-- ===== src/Runtime/Events/Settled.antt =====
-- A run that has ended stays as it is, whatever events come (chronon-runtime/src/events.rs).
use chronon.Base.{
  ℕ, Option, none, some, true, false, List, [], ◌∷◌, String, ◌≡◌, refl, sym, subst, ◌≢◌, inl, inr,
  Instant, arith, All, lookup, lookup-insert,
}
use chronon.Model.Run.{Run}
use chronon.Model.Status.{RunStatus, is_terminal}
use chronon.Mem.State.{Store}
use chronon.Mem.Port.{mem_store}
use chronon.Mem.Runs.{get_run}
use chronon.Runtime.Retry.{Failures}
use chronon.Runtime.Events.{ExecutorEvent, apply_found, handle_executor_event, event_run_id}
use chronon.Runtime.Events.Steps.{
  StatusStep, starts_queued, starts_claimed, completes, fails, IsKeyed, put_run, Changes,
  event-Changes,
}

-- An event as it is handled: with the clock of the call and the fresh UUID of a retry.
pub record Delivery : Type 0 where
  pub utc : ℕ → Instant
  pub next_id : String
  pub event : ExecutorEvent

module _ {V F : Type 0} (env : Failures V F) where
  abbrev pub deliver : Delivery → Store V → Store V
  deliver d s = (handle_executor_event env (mem_store V) d.utc d.next_id d.event s).1

  abbrev pub deliver_all : List Delivery → Store V → Store V
  deliver_all [] s = s
  deliver_all (d ∷ ds) s = deliver_all ds (deliver d s)

  found-Changes :
      (d : Delivery) (s : Store V) (row : Option (Run V))
      → IsKeyed s
      → lookup (event_run_id env (mem_store V) d.event) s.runs ≡ row
      → Changes s d.next_id (apply_found env (mem_store V) d.utc d.next_id d.event row s).1
  unfolding apply_found
  found-Changes d s none w e = inl refl
  found-Changes d s (some run) w e =
      event-Changes env d.utc d.next_id s run
        (ground (arith, w (event_run_id env (mem_store V) d.event) run e)) d.event

  -- Where each run is stored under its id, an event changes nothing, or takes one stored run a step
  -- on: from queued or claimed to running, from running to success or to failed; and besides it
  -- queues at most one new run, under the fresh id.
  pub handle_executor_event-Changes :
      (d : Delivery) (s : Store V) → IsKeyed s → Changes s d.next_id (deliver d s)
  unfolding handle_executor_event get_run
  handle_executor_event-Changes d s w =
      found-Changes d s (lookup (event_run_id env (mem_store V) d.event) s.runs) w refl

  step_open : {a b : RunStatus} → StatusStep a b → is_terminal a ≡ false
  unfolding is_terminal
  step_open starts_queued = refl
  step_open starts_claimed = refl
  step_open completes = refl
  step_open fails = refl

  put_run-IsKeyed : (run : Run V) (s : Store V) → IsKeyed s → IsKeyed (put_run run s)
  put_run-IsKeyed run s w i r e = ground (arith, lookup-insert run.run_id i run s.runs, w i r)

  Changes-IsKeyed :
      (s : Store V) (next_id : String) (t : Store V) → IsKeyed s → Changes s next_id t → IsKeyed t
  Changes-IsKeyed s next_id t w (inl e) = subst IsKeyed (sym e) w
  Changes-IsKeyed s next_id t w (inr (old, run, _, _, inl e)) =
      subst IsKeyed (sym e) (put_run-IsKeyed run s w)
  Changes-IsKeyed s next_id t w (inr (old, run, _, _, inr (next, _, _, e))) =
      subst IsKeyed (sym e) (put_run-IsKeyed next (put_run run s) (put_run-IsKeyed run s w))

  -- The run has ended.
  abbrev pub HasEnded : String → Run V → Store V → Type 0
  HasEnded id run s = (lookup id s.runs ≡ some run) × (is_terminal run.status ≡ true)

  put_run-HasEnded :
      (id : String) (run new : Run V) (s : Store V)
      → new.run_id ≢ id
      → HasEnded id run s
      → HasEnded id run (put_run new s)
  put_run-HasEnded id run new s other h =
      (ground (arith, lookup-insert new.run_id id new s.runs, h.0), h.1)

  Changes-HasEnded :
      (id : String) (run : Run V) (s : Store V) (next_id : String) (t : Store V)
      → next_id ≢ id
      → HasEnded id run s
      → Changes s next_id t
      → HasEnded id run t
  Changes-HasEnded id run s next_id t fresh h (inl e) = subst (HasEnded id run) (sym e) h
  Changes-HasEnded id run s next_id t fresh h (inr (old, new, at, step, rest)) =
      let other : new.run_id ≢ id =
        λ same. let twin : old ≡ run = ground (arith, h.0) in ground (arith, step_open step, h.1) in
      let kept = put_run-HasEnded id run new s other h in
      elim rest [
        | inl e ↦ subst (HasEnded id run) (sym e) kept
        | inr (next, is_next, _, e) ↦
            subst (HasEnded id run) (sym e)
              (put_run-HasEnded id run next (put_run new s) (ground (arith, is_next)) kept)
      ]

  -- Where each run is stored under its id, a run that has ended keeps its row, whatever events come,
  -- late or forged, if no retry gets its id.
  pub ended_stays :
      (ds : List Delivery) (id : String) (run : Run V) (s : Store V)
      → IsKeyed s
      → lookup id s.runs ≡ some run
      → is_terminal run.status ≡ true
      → All (λ d. d.next_id ≢ id) ds
      → lookup id (deliver_all ds s).runs ≡ some run
  ended_stays [] id run s w e h fresh = e
  ended_stays (d ∷ ds) id run s w e h fresh =
      let c = handle_executor_event-Changes d s w in
      let kept = Changes-HasEnded id run s d.next_id (deliver d s) fresh.0 (e, h) c in
      ended_stays ds id run (deliver d s) (Changes-IsKeyed s d.next_id (deliver d s) w c) kept.0
        kept.1 fresh.1
