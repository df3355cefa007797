-- ===== src/Http/Paging.antt =====
-- What the list routes return: theorems on chronon-axum/src/handlers.rs.
use chronon.Base.{
  Bool, ℕ, zero, suc, ◌+◌, ◌-◌, ◌≤◌, min, Option, List, [], ◌∷◌, length, take, drop, filter, All,
  All-take, get_or, leb, ◌≡◌, true, refl, ap, sym, ◌∙◌, inl, inr, Bool-cases, arith, length-take-le,
  subst,
}
use chronon.Model.Job.{Job}
use chronon.Http.Jobs.{
  ListJobsQuery, listed_jobs, page, matches_query, clamp_list_limit, max_list_limit,
}

module _ {A : Type 0} where
  length-drop : (n : ℕ) (xs : List A) → length (drop n xs) ≡ length xs - n
  length-drop zero xs = omega arith
  length-drop (suc n) [] = omega arith
  length-drop (suc n) (x ∷ xs) = omega (arith, length-drop n xs)

  take_enough : (n : ℕ) (xs : List A) → length xs ≤ n → take n xs ≡ xs
  take_enough zero [] short = refl
  take_enough zero (x ∷ xs) short = absurd (omega arith)
  take_enough (suc n) [] short = refl
  take_enough (suc n) (x ∷ xs) short = ap (λ ys. x ∷ ys) (take_enough n xs (omega arith))

  take_nil : (n : ℕ) → ◌≡◌ {A = List A} (take n []) []
  take_nil zero = refl
  take_nil (suc n) = refl

  drop_all : (n : ℕ) (xs : List A) → length xs ≤ n → drop n xs ≡ []
  drop_all zero [] short = refl
  drop_all zero (x ∷ xs) short = absurd (omega arith)
  drop_all (suc n) [] short = refl
  drop_all (suc n) (x ∷ xs) short = drop_all n xs (omega arith)

  take_beyond : (n k : ℕ) (xs : List A) → length xs ≤ k → take (min n k) xs ≡ take n xs
  take_beyond n k xs short = elim (Bool-cases (leb n k)) [
    | inl t ↦ ap (λ m. take m xs) (ground arith)
    | inr f ↦ take_enough (min n k) xs (ground arith) ∙ sym (take_enough n xs (ground arith))
  ]

  -- A page is the window of the list at its offset: the limit bounds it, and the list's end.
  page_lem :
      (offset limit : Option ℕ) (xs : List A)
      → page offset limit xs ≡ take (clamp_list_limit limit) (drop (get_or offset 0) xs)
  unfolding page
  page_lem offset limit xs =
      let start : ℕ = get_or offset 0 in
      elim (Bool-cases (leb (length xs) start)) [
        | inl t ↦
            rw (t, page)
              (sym (
                ap (take (clamp_list_limit limit)) (drop_all start xs (ground arith))
                ∙ take_nil (clamp_list_limit limit)))
        | inr f ↦
            let window : min (start + clamp_list_limit limit) (length xs) - start
                ≡ min (clamp_list_limit limit) (length (drop start xs)) =
              grind (arith, length-drop start xs) in
            rw (f, page)
              (ap (λ n. take n (drop start xs)) window
                ∙ take_beyond (clamp_list_limit limit) (length (drop start xs)) (drop start xs)
                    (omega arith))
      ]

  filter-All : (test : A → Bool) (xs : List A) → All (λ x. test x ≡ true) (filter test xs)
  filter-All test [] = tt
  filter-All test (x ∷ xs) = elim (Bool-cases (test x)) [
    | inl t ↦ rw t (t, filter-All test xs)
    | inr f ↦ rw f (filter-All test xs)
  ]

  drop-All : (P : A → Type 0) (n : ℕ) (xs : List A) → All P xs → All P (drop n xs)
  drop-All P zero xs h = h
  drop-All P (suc n) [] h = tt
  drop-All P (suc n) (x ∷ xs) h = drop-All P n xs h.1

module _ {V : Type 0} where
  -- A list of jobs is the window, at the offset that the query asks for and else at the start, of the
  -- jobs that match the query in the order of the store; the window is as long as the query asks for,
  -- else 100, and never longer than 1000.
  pub listed_jobs-Windows :
      (query : ListJobsQuery) (jobs : List (Job V))
      → (listed_jobs query jobs
          ≡ take
              (clamp_list_limit query.limit)
              (drop (get_or query.offset 0) (filter (matches_query query) jobs)))
        × (length (listed_jobs query jobs) ≤ min (get_or query.limit 100) max_list_limit)
        × All (λ job. matches_query query job ≡ true) (listed_jobs query jobs)
  unfolding listed_jobs clamp_list_limit
  listed_jobs-Windows query jobs =
      let window : listed_jobs query jobs
          ≡ take (clamp_list_limit query.limit)
              (drop (get_or query.offset 0) (filter (matches_query query) jobs)) =
        page_lem query.offset query.limit (filter (matches_query query) jobs) in
      (
        window,
        rw window (length-take-le _ _),
        subst (All (λ job. matches_query query job ≡ true)) (sym window) (
            All-take (λ job. matches_query query job ≡ true) (clamp_list_limit query.limit)
              (drop (get_or query.offset 0) (filter (matches_query query) jobs))
              (drop-All (λ job. matches_query query job ≡ true) (get_or query.offset 0) _
                (filter-All (matches_query query) jobs))),
      )
