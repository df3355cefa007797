-- ===== src/Mem/Runs/Claim.antt =====
-- Which run a claim takes, and what it changes (chronon-backend-mem/src/store/runs.rs).
use chronon.Base.{
  ℕ, ◌≤◌, Option, none, some, Bool, true, false, List, [], ◌∷◌, String, ◌≡◌, refl, ◌⊎◌, inl, inr,
  ◌&&◌, ltb, Instant, arith, All, Distinct, subst, lookup, lookup_of_All, insert, Bool-cases,
  Option-cases,
}
use chronon.Model.Error.{ok}
use chronon.Model.Run.{Run}
use chronon.Model.Status.{queued}
use chronon.Mem.State.{Store}
use chronon.Mem.Runs.{
  pick_candidate, is_claimable, claim, pool_ok, claim_next_queued, claim_run_by_id,
}

abbrev Entry : Type 0 → Type 0
Entry V = String × Run V

-- What the loop returns from a candidate and the entries still to come.
module _ {V : Type 0} (test : Run V → Bool) where
  abbrev Best : Option (Entry V) → List (Entry V) → Option (Entry V) → Type 0
  Best candidate rest none = (candidate ≡ none) × All (λ d. test d.1 ≡ false) rest
  Best candidate rest (some e) =
      ((candidate ≡ some e) ⊎ ((lookup e.0 rest ≡ some e.1) × (test e.1 ≡ true)))
      × All (λ d. test d.1 ≡ true → e.1.scheduled_for ≤ d.1.scheduled_for) rest
      × ((c : Entry V) → candidate ≡ some c → e.1.scheduled_for ≤ c.1.scheduled_for)

  skip-Best :
      (candidate : Option (Entry V)) (id : String) (run : Run V) (rest : List (Entry V))
      (out : Option (Entry V))
      → lookup id rest ≡ none
      → (test run ≡ true
          → (c : Entry V) × (candidate ≡ some c) × (c.1.scheduled_for ≤ run.scheduled_for))
      → Best candidate rest out
      → Best candidate ((id, run) ∷ rest) out
  unfolding lookup
  skip-Best candidate id run rest none fresh worse b = (b.0, (ground (arith, b.0, worse), b.1))
  skip-Best candidate id run rest (some e) fresh worse b =
      (ground arith, (λ t. let w = worse t in omega (arith, b.2 w.0 w.1, w.2), b.1), b.2)

  take-Best :
      (candidate : Option (Entry V)) (id : String) (run : Run V) (rest : List (Entry V))
      (out : Option (Entry V))
      → lookup id rest ≡ none
      → test run ≡ true
      → ((c : Entry V) → candidate ≡ some c → run.scheduled_for ≤ c.1.scheduled_for)
      → Best (some (id, run)) rest out
      → Best candidate ((id, run) ∷ rest) out
  unfolding lookup
  take-Best candidate id run rest none fresh t better b = absurd (cc (b.0))
  take-Best candidate id run rest (some e) fresh t better b =
      let first : e.1.scheduled_for ≤ run.scheduled_for = b.2 (id, run) refl in
      (inr (ground arith), (λ _. first, b.1), λ c h. omega (arith, better c h))

module _ {V : Type 0} (pool_id : String) (now : Instant) where
  pick_candidate-Best :
      (candidate : Option (Entry V)) (rest : List (Entry V))
      → Distinct rest
      → Best (is_claimable pool_id now) candidate rest (pick_candidate pool_id now candidate rest)
  unfolding pick_candidate
  pick_candidate-Best none [] d = (refl, tt)
  pick_candidate-Best (some e) [] d = (inl refl, tt, λ c h. ground arith)
  pick_candidate-Best none ((id, run) ∷ rest) d = elim (Bool-cases (is_claimable pool_id now run)) [
    | inl t ↦
        rw (t, pick_candidate)
          (take-Best _ none id run rest _ d.0 t (λ c h. cc)
            (pick_candidate-Best (some (id, run)) rest d.1))
    | inr f ↦
        rw (f, pick_candidate)
          (skip-Best _ none id run rest _ d.0 (λ t. cc) (pick_candidate-Best none rest d.1))
  ]
  pick_candidate-Best (some c) ((id, run) ∷ rest) d =
      elim (Bool-cases (is_claimable pool_id now run && ltb run.scheduled_for c.1.scheduled_for)) [
        | inl t ↦
            rw (t, pick_candidate)
              (take-Best _ (some c) id run rest _ d.0 (ground arith) (λ c h. ground arith)
                (pick_candidate-Best (some (id, run)) rest d.1))
        | inr f ↦
            rw (f, pick_candidate)
              (skip-Best _ (some c) id run rest _ d.0 (λ t. (c, refl, ground arith))
                (pick_candidate-Best (some c) rest d.1))
      ]

module _ {V : Type 0} (pool_id : String) (now : Instant) where
  -- What makes a run free for a worker of the pool: it waits, it is due, nobody's lease on it is
  -- live, and it belongs to the pool. A run with no pool belongs to "general".
  pub record IsFree (run : Run V) : Type 0 where
    pub waiting : run.status ≡ queued
    pub due : run.scheduled_for ≤ now
    pub unleased : (u : Instant) → run.claim_lease_until ≡ some u → u ≤ now
    pub pooled : (run.pool_id ≡ some pool_id) ⊎ ((pool_id ≡ "general") × (run.pool_id ≡ none))

  pub IsFree-of_claimable : (run : Run V) → is_claimable pool_id now run ≡ true → IsFree run
  unfolding is_claimable pool_ok
  IsFree-of_claimable run h = record {
    waiting = ground arith;
    due = ground arith;
    unleased = λ u e. ground arith;
    pooled = ground arith;
  }

  pub claimable_of_IsFree : (run : Run V) → IsFree run → is_claimable pool_id now run ≡ true
  unfolding is_claimable pool_ok
  claimable_of_IsFree run f = elim (Option-cases run.claim_lease_until) [
    | inl e ↦ ground arith
    | inr (u, e) ↦ ground (arith, f.unleased u e)
  ]

  not_claimable : (run : Run V) → is_claimable pool_id now run ≡ false → ¬ IsFree run
  not_claimable run h f = cc (claimable_of_IsFree run f)

  -- The run that a claim must take: a free one, and none of the free ones was due before it.
  pub record IsFirstFree (s : Store V) (id : String) (run : Run V) : Type 0 where
    pub stored : lookup id s.runs ≡ some run
    pub free : IsFree run
    pub first :
        (j : String) (q : Run V)
        → lookup j s.runs ≡ some q
        → IsFree q
        → run.scheduled_for ≤ q.scheduled_for

module _ {V : Type 0} (pool_id worker_id : String) (now : Instant) (ttl : ℕ) (s : Store V) where
  -- No run is free and the claim returns none and changes nothing, or it takes a free run than
  -- which none was due earlier, marks that run and no other, and returns it as marked.
  abbrev pub TakesFirst : Type 0
  TakesFirst =
      (¬ ((j : String) × (q : Run V) × (lookup j s.runs ≡ some q) × IsFree pool_id now q)
        × (claim_next_queued pool_id worker_id now ttl s ≡ (ok none, s)))
      ⊎ ((id : String) × (run : Run V) × IsFirstFree pool_id now s id run
          × (claim_next_queued pool_id worker_id now ttl s ≡ (
            ok (some (claim worker_id now ttl run)),
            record s { runs = insert id (claim worker_id now ttl run) s.runs },
          )))

  takes :
      (out : Option (Entry V))
      → pick_candidate pool_id now none s.runs ≡ out
      → Best (is_claimable pool_id now) none s.runs out
      → TakesFirst
  unfolding claim_next_queued
  takes none e b = inl (
    λ (j, q, h, f).
        not_claimable pool_id now q
          (lookup_of_All (λ _ r. is_claimable pool_id now r ≡ false) s.runs b.1 h) f,
    rw (e, claim_next_queued),
  )
  takes (some (id, run)) e (inl h, _, _) = cc
  takes (some (id, run)) e (inr h, least, _) = inr (
    id,
    run,
    record {
      stored = h.0;
      free = IsFree-of_claimable pool_id now run h.1;
      first = λ j q at f.
          lookup_of_All
            (λ _ r. is_claimable pool_id now r ≡ true → run.scheduled_for ≤ r.scheduled_for) s.runs
            least at (claimable_of_IsFree pool_id now q f);
    },
    rw (e, claim_next_queued),
  )

  -- With one row to a run id, `claim_next_queued` takes a free run of the pool that was due first,
  -- marks it claimed by the worker and changes nothing else; where no run is free it returns none.
  pub claim_next_queued-TakesFirst : Distinct s.runs → TakesFirst
  claim_next_queued-TakesFirst d = takes _ refl (pick_candidate-Best pool_id now none s.runs d)

  abbrev pub TakesRun : String → Type 0
  TakesRun id =
      (¬ ((q : Run V) × (lookup id s.runs ≡ some q) × IsFree pool_id now q)
        × (claim_run_by_id id pool_id worker_id now ttl s ≡ (ok none, s)))
      ⊎ ((run : Run V) × (lookup id s.runs ≡ some run)
          × IsFree pool_id now run
          × (claim_run_by_id id pool_id worker_id now ttl s ≡ (
            ok (some (claim worker_id now ttl run)),
            record s { runs = insert id (claim worker_id now ttl run) s.runs },
          )))

  -- A claim of one run takes it, marks its row and changes nothing else where it is stored and free;
  -- where it is not, the claim returns none and changes nothing.
  pub claim_run_by_id-TakesRun : (id : String) → TakesRun id
  unfolding claim_run_by_id
  claim_run_by_id-TakesRun id = elim (Option-cases (lookup id s.runs)) [
    | inl e ↦ inl (λ (q, h, f). cc, rw (e, claim_run_by_id))
    | inr (run, e) ↦ elim (Bool-cases (is_claimable pool_id now run)) [
      | inl t ↦ inr (run, e, IsFree-of_claimable pool_id now run t, rw (e, claim_run_by_id) (rw t))
      | inr f ↦ inl (
        λ (q, h, free).
            let same : run ≡ q = ground arith in
            subst (λ r. ¬ IsFree pool_id now r) same (not_claimable pool_id now run f) free,
        rw (e, claim_run_by_id) (rw f),
      )
    ]
  ]
