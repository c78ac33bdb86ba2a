-- ===== src/Silver/Distinct.antt =====
-- spark_jobs/silver_aggregator.py: no two queries that `main` starts share a checkpoint.
use coinwhale_data_pipeline.Prelude.{
  ◌≡◌, refl, fun_ext, ap, ◌∙◌, String, Bool, true, false, ◌&&◌, ◌⊎◌, inl, inr, List, [], ◌∷◌, map,
  all, keep, is_in, All, All-keep, if◌then◌else◌, arith, Pairwise, Pairwise-append, Pairwise-keep,
  all-All,
}
use coinwhale_data_pipeline.Gate.Topics.{is_hot_path_topic}
use coinwhale_data_pipeline.Silver.Plans.{Query, Job, Env, start}
use coinwhale_data_pipeline.Silver.Jobs.{
  silver_jobs, sort_jobs, is_included, is_filtered, parse_set, parse_job_filters,
  discover_silver_jobs, start_all, started_of, main_queries,
}
use coinwhale_data_pipeline.Silver.Checkpoints.{
  IsApart, places, places-append, listed, places-start, Apart, Apart-none, Apart-append, AreApart,
  sort_jobs-All, sort_jobs-Pairwise, own_test, jobs_test, apart_test, own_test-Pairwise,
  jobs_test-Pairwise,
}

abbrev trade_default : String
trade_default = "/opt/spark/work-dir/checkpoints/stream-cvd-trade-rollup"

abbrev book_default : String
book_default = "/opt/spark/work-dir/checkpoints/stream-price-bt-rollup"

-- The run of the tests, with and without the rollups.
tables_pass :
    (trades books : Bool)
    → (let xss = map (listed trades books trade_default book_default) silver_jobs in
        jobs_test xss && all own_test xss)
      ≡ true
unfolding jobs_test own_test apart_test is_hot_path_topic is_in
tables_pass true true = refl
tables_pass true false = refl
tables_pass false true = refl
tables_pass false false = refl

All-map :
    (f : Job → List String) (P : List String → Type 0) (jobs : List Job)
    → All P (map f jobs)
    → All (λ job. P (f job)) jobs
All-map f P [] held = tt
All-map f P (job ∷ jobs) held = (held.0, All-map f P jobs held.1)

Pairwise-map :
    (f : Job → List String) (jobs : List Job)
    → Pairwise AreApart (map f jobs)
    → Pairwise (λ j k. AreApart (f j) (f k)) jobs
Pairwise-map f [] pairs = tt
Pairwise-map f (job ∷ jobs) pairs =
    (All-map f (AreApart (f job)) jobs pairs.0, Pairwise-map f jobs pairs.1)

module _ (env : Env) where
  abbrev of_job : Job → List String
  of_job job = places (start env job)

  abbrev IsFine : List Job → Type 0
  IsFine jobs =
      All (λ job. Pairwise IsApart (of_job job)) jobs
      × Pairwise (λ j k. AreApart (of_job j) (of_job k)) jobs

  across :
      (xs : List String) (jobs : List Job)
      → All (λ job. AreApart xs (of_job job)) jobs
      → Apart xs (places (start_all env jobs))
  unfolding start_all
  across xs [] apart = Apart-none xs
  across xs (job ∷ jobs) apart = rw (places-append (start env job) (start_all env jobs)) (
      Apart-append xs (of_job job) (places (start_all env jobs)) apart.0.0 (across xs jobs apart.1))

  start_all-Pairwise :
      (jobs : List Job) → IsFine jobs → Pairwise IsApart (places (start_all env jobs))
  unfolding start_all
  start_all-Pairwise [] fine = tt
  start_all-Pairwise (job ∷ jobs) fine = rw (places-append (start env job) (start_all env jobs)) (
      Pairwise-append IsApart (of_job job) (places (start_all env jobs)) fine.0.0
        (start_all-Pairwise jobs (fine.0.1, fine.1.1)) (across (of_job job) jobs fine.1.0))

  keep-IsFine : (p : Job → Bool) (jobs : List Job) → IsFine jobs → IsFine (keep p jobs)
  keep-IsFine p jobs fine = (All-keep _ p jobs fine.0, Pairwise-keep _ p jobs fine.1)

  sort_jobs-IsFine : (jobs : List Job) → IsFine jobs → IsFine (sort_jobs jobs)
  sort_jobs-IsFine jobs fine = (
    sort_jobs-All _ jobs fine.0,
    sort_jobs-Pairwise (λ j k. AreApart (of_job j) (of_job k)) (λ j k both. (both.1, both.0)) jobs
        fine.1,
  )

  fine_by_default :
      (f : Job → List String) (trades books : Bool)
      → f ≡ listed trades books trade_default book_default
      → All (λ job. Pairwise IsApart (f job)) silver_jobs
        × Pairwise (λ j k. AreApart (f j) (f k)) silver_jobs
  fine_by_default f trades books same =
      let xss = map (listed trades books trade_default book_default) silver_jobs in
      let pass = tables_pass trades books in
      let parts : (jobs_test xss ≡ true) × (all own_test xss ≡ true) = ground arith in
      rw same (
        All-map (listed trades books trade_default book_default) (Pairwise IsApart) silver_jobs
            (all-All own_test (Pairwise IsApart) own_test-Pairwise xss parts.1),
        Pairwise-map (listed trades books trade_default book_default) silver_jobs
            (jobs_test-Pairwise xss parts.0),
      )

  -- The checkpoints of the rollups, where the environment does not set them.
  abbrev pub HasDefaults : Type 0
  HasDefaults =
      (env.trade_rollup_checkpoint ≡ trade_default)
      × (env.bookticker_rollup_checkpoint ≡ book_default)

  silver_jobs-IsFine : HasDefaults → IsFine silver_jobs
  silver_jobs-IsFine defaults =
      fine_by_default of_job env.use_trade_rollup env.use_bookticker_rollup same
    where
      same :
          of_job ≡ listed env.use_trade_rollup env.use_bookticker_rollup trade_default book_default
      same = fun_ext λ job.
          places-start env job
          ∙ ap
              (λ at.
                listed env.use_trade_rollup env.use_bookticker_rollup at
                  env.bookticker_rollup_checkpoint job)
              defaults.0
          ∙ ap (λ at. listed env.use_trade_rollup env.use_bookticker_rollup trade_default at job)
              defaults.1

  IsFine-chosen :
      (b : Bool) (jobs others : List Job)
      → IsFine jobs
      → IsFine others
      → IsFine (if b then jobs else others)
  IsFine-chosen true jobs others first second = first
  IsFine-chosen false jobs others first second = second

  discover-IsFine :
      (include exclude : String) (job_filters : List String) (jobs : List Job)
      → IsFine jobs
      → IsFine (discover_silver_jobs include exclude job_filters jobs)
  unfolding discover_silver_jobs
  discover-IsFine include exclude job_filters jobs fine =
      let included = is_included (parse_set include) (parse_set exclude) in
      let found = sort_jobs (keep included jobs) in
      let sorted = sort_jobs-IsFine (keep included jobs) (keep-IsFine included jobs fine) in
      IsFine-chosen _ found (keep (is_filtered job_filters) found) sorted
        (keep-IsFine (is_filtered job_filters) found sorted)

-- The checkpoints of all queries that were started, when any were.
abbrev pub StartedApart : List Query ⊎ String → Type 0
StartedApart (inl queries) = Pairwise IsApart (places queries)
StartedApart (inr error) = Unit

started :
    (env : Env) (b : Bool) (jobs : List Job)
    → Pairwise IsApart (places (start_all env jobs))
    → StartedApart (started_of env b jobs)
unfolding started_of
started env true [] apart = tt
started env false [] apart = tt
started env b (job ∷ jobs) apart = apart

-- Whatever tables the three lists of names choose, and whichever inputs the CVD and the price table
-- read, no two queries that `main` starts have the same checkpoint. The condition is that the checkpoints
-- of the two rollups are those of the defaults.
pub main-StartedApart :
    (env : Env) (include exclude raw_filters : String)
    → HasDefaults env
    → StartedApart (main_queries env include exclude raw_filters)
unfolding main_queries
main-StartedApart env include exclude raw_filters defaults =
    let filters = parse_job_filters raw_filters in
    let chosen = discover_silver_jobs include exclude filters silver_jobs in
    started env _ chosen (
      start_all-Pairwise env chosen
        (discover-IsFine env include exclude filters silver_jobs (silver_jobs-IsFine env defaults)))
