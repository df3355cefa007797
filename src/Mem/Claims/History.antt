-- ===== src/Mem/Claims/History.antt =====
-- Histories of the calls that change job rows, in any order and from any coordinators
-- (chronon-backend-mem/src/store/mod.rs, jobs.rs and claims.rs).
use chronon.Base.{
  ℕ, Option, some, true, false, List, [], ◌∷◌, String, ◌≡◌, refl, sym, subst, inl, inr, Instant,
  arith, lookup,
}
use chronon.Model.Job.{Job}
use chronon.Mem.State.{Store, new}
use chronon.Mem.Jobs.{upsert_job, delete_job, pause_job, resume_job, set_enabled}
use chronon.Mem.Jobs.Index.{
  IsIndexed, new-IsIndexed, write_job-IsIndexed, remove_job-IsIndexed, mutate_job_at-IsIndexed,
  mutate_found-IsIndexed,
}
use chronon.Mem.Claims.{
  try_claim_run_once, mark_run_once_completed, release_run_once_claim, claim_job_for_tick,
  release_job_tick_claim, persist_post_tick_job_state, complete_run_once, release_run_once,
  clear_tick_claim, set_post_tick,
}
use chronon.Mem.Claims.Outcomes.{
  once_claimed, try_claim_run_once-ClaimsOnce, tick_claimed, claim_job_for_tick-ClaimsTick,
}

-- The instant of a call is what the clock reads in it.
pub data JobCall (V : Type 0) : Type 0 where
  upserts : Job V → JobCall V
  deletes : String → JobCall V
  pauses resumes : Instant → String → JobCall V
  claims_once : String → String → Instant → ℕ → JobCall V
  completes_once : Instant → String → Instant → JobCall V
  releases_once : String → String → Instant → JobCall V
  claims_tick : String → String → Instant → ℕ → JobCall V
  releases_tick : Instant → String → JobCall V
  persists : Instant → String → Option Instant → JobCall V

module _ {V : Type 0} where
  unfoldable pub apply : JobCall V → Store V → Store V
  apply (upserts job) s = (upsert_job job s).1
  apply (deletes id) s = (delete_job id s).1
  apply (pauses utc id) s = (pause_job utc id s).1
  apply (resumes utc id) s = (resume_job utc id s).1
  apply (claims_once id by now ttl) s = (try_claim_run_once id by now ttl s).1
  apply (completes_once utc id at) s = (mark_run_once_completed utc id at s).1
  apply (releases_once id by now) s = (release_run_once_claim id by now s).1
  apply (claims_tick id claim now ttl) s = (claim_job_for_tick id claim now ttl s).1
  apply (releases_tick utc id) s = (release_job_tick_claim utc id s).1
  apply (persists utc id next) s = (persist_post_tick_job_state utc id next s).1

  unfoldable pub run_calls : List (JobCall V) → Store V → Store V
  run_calls [] s = s
  run_calls (c ∷ cs) s = run_calls cs (apply c s)

  apply-IsIndexed : (c : JobCall V) (s : Store V) → IsIndexed s → IsIndexed (apply c s)
  unfolding apply upsert_job delete_job pause_job resume_job mark_run_once_completed
      release_run_once_claim release_job_tick_claim persist_post_tick_job_state
  apply-IsIndexed (upserts job) s w = write_job-IsIndexed job s w
  apply-IsIndexed (deletes id) s w = remove_job-IsIndexed id s w
  apply-IsIndexed (pauses utc id) s w =
      mutate_job_at-IsIndexed id utc (set_enabled false) s (λ j. (refl, refl)) w
  apply-IsIndexed (resumes utc id) s w =
      mutate_job_at-IsIndexed id utc (set_enabled true) s (λ j. (refl, refl)) w
  apply-IsIndexed (claims_once id by now ttl) s w =
      elim (try_claim_run_once-ClaimsOnce id by now ttl s) [
        | inl (_, o) ↦ subst (λ r. IsIndexed r.1) (sym o) w
        | inr (job, e, _, o) ↦
            subst (λ r. IsIndexed r.1) (sym o)
              (mutate_found-IsIndexed id now (once_claimed id by now ttl s) job s e
                (λ j. (refl, refl)) w)
      ]
  apply-IsIndexed (completes_once utc id at) s w =
      mutate_job_at-IsIndexed id utc (complete_run_once at) s (λ j. (refl, refl)) w
  apply-IsIndexed (releases_once id by now) s w =
      mutate_job_at-IsIndexed id now (release_run_once by) s (λ j. ground arith) w
  apply-IsIndexed (claims_tick id claim now ttl) s w =
      elim (claim_job_for_tick-ClaimsTick id claim now ttl s) [
        | inl (_, o) ↦ subst (λ r. IsIndexed r.1) (sym o) w
        | inr (job, e, _, o) ↦
            subst (λ r. IsIndexed r.1) (sym o)
              (mutate_found-IsIndexed id now (tick_claimed id claim now ttl s) job s e
                (λ j. (refl, refl)) w)
      ]
  apply-IsIndexed (releases_tick utc id) s w =
      mutate_job_at-IsIndexed id utc clear_tick_claim s (λ j. (refl, refl)) w
  apply-IsIndexed (persists utc id next) s w =
      mutate_job_at-IsIndexed id utc (set_post_tick next) s (λ j. (refl, refl)) w

  run_calls-IsIndexed :
      (cs : List (JobCall V)) (s : Store V) → IsIndexed s → IsIndexed (run_calls cs s)
  unfolding run_calls
  run_calls-IsIndexed [] s w = w
  run_calls-IsIndexed (c ∷ cs) s w = run_calls-IsIndexed cs (apply c s) (apply-IsIndexed c s w)

  -- From an empty store, after any calls that change job rows, the rows and the name index agree:
  -- each id has one row, which bears it, the index leads from its name to it, and leads nowhere else.
  pub run_calls-new-IsIndexed : (cs : List (JobCall V)) → IsIndexed (run_calls cs (new V))
  run_calls-new-IsIndexed cs = run_calls-IsIndexed cs (new V) new-IsIndexed

  -- From an empty store, after any calls that change job rows, two rows that bear one name have one
  -- id.
  pub run_calls_unique_names :
      (cs : List (JobCall V)) (i k : String) (a b : Job V)
      → lookup i (run_calls cs (new V)).jobs ≡ some a
      → lookup k (run_calls cs (new V)).jobs ≡ some b
      → a.job_name ≡ b.job_name
      → i ≡ k
  run_calls_unique_names cs i k a b p q e =
      let w = run_calls-new-IsIndexed cs in ground (arith, w.named i a p, w.named k b q)
