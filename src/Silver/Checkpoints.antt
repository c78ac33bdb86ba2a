-- ===== src/Silver/Checkpoints.antt =====
-- spark_jobs/silver and spark_jobs/silver_aggregator.py: the checkpoints of the queries that are started
-- together.
use coinwhale_data_pipeline.Prelude.{
  ◌≡◌, refl, ap, ◌∙◌, String, ◌<>◌, Bool, true, false, not, ◌&&◌, some, List, [], ◌∷◌, ◌++◌, map,
  all, All, All-append, All-chosen, ◌=ˢ◌, if◌then◌else◌, arith,
}
use coinwhale_data_pipeline.Prelude.{Pairwise, Pairwise-chosen, all-All}
use coinwhale_data_pipeline.Gate.Topics.{is_hot_path_topic}
use coinwhale_data_pipeline.Silver.Plans.{
  Query, Start, base_start, cvd_start, ls_ratio_start, price_start, Job, Env, output_query,
  quality_query, start_base, start_cvd_rollup, start_cvd_trades, start_ls_ratio, book_query,
  book_queries, start_price, start_by, start,
}
use coinwhale_data_pipeline.Silver.Jobs.{insert_job, sort_jobs}

abbrev pub IsApart : String → String → Type 0
IsApart s t = (s =ˢ t) ≡ false

-- The checkpoints of a table's queries, in their order.
abbrev pub locations : Bool → Bool → String → String → Job → Start → List String
locations trades books trade_rollup book_rollup job base_start =
    job.checkpoint
    ∷ (if is_hot_path_topic (some job.topic) then (job.checkpoint <> "-quality") ∷ [] else [])
locations trades books trade_rollup book_rollup job cvd_start =
    if trades
    then trade_rollup ∷ (trade_rollup <> "-quality") ∷ []
    else job.checkpoint
      ∷ (job.checkpoint <> "-quality-binance-trade")
      ∷ (job.checkpoint <> "-quality-spot-trade")
      ∷ []
locations trades books trade_rollup book_rollup job ls_ratio_start = job.checkpoint ∷ []
locations trades books trade_rollup book_rollup job price_start =
    (if books
      then book_rollup ∷ []
      else "/opt/spark/work-dir/checkpoints/stream-price-fbt"
        ∷ "/opt/spark/work-dir/checkpoints/stream-price-sbt" ∷ [])
    ++ job.checkpoint ∷ (job.checkpoint <> "-quality") ∷ []

abbrev pub places : List Query → List String
places queries = map (λ (q : Query). q.checkpoint_location) queries

pub places-append : (qs rs : List Query) → places (qs ++ rs) ≡ places qs ++ places rs
places-append [] rs = refl
places-append (q ∷ qs) rs = ap (λ ss. q.checkpoint_location ∷ ss) (places-append qs rs)

places_chosen :
    (b : Bool) (qs rs : List Query)
    → places (if b then qs else rs) ≡ (if b then places qs else places rs)
places_chosen true qs rs = refl
places_chosen false qs rs = refl

-- All texts of one list are apart from all of another.
abbrev pub Apart : List String → List String → Type 0
Apart xs ys = All (λ s. All (IsApart s) ys) xs

pub Apart-none : (xs : List String) → Apart xs []
Apart-none [] = tt
Apart-none (x ∷ xs) = (tt, Apart-none xs)

pub Apart-append : (xs ys zs : List String) → Apart xs ys → Apart xs zs → Apart xs (ys ++ zs)
Apart-append [] ys zs first second = tt
Apart-append (x ∷ xs) ys zs first second =
    (All-append (IsApart x) ys zs first.0 second.0, Apart-append xs ys zs first.1 second.1)

-- Sorting keeps what holds of all jobs, and what holds of all pairs in both orders.
insert_job-All {κ} :
    (P : Job → Type κ) (job : Job) (jobs : List Job)
    → P job
    → All P jobs
    → All P (insert_job job jobs)
unfolding insert_job
insert_job-All P job [] here rest = (here, tt)
insert_job-All P job (other ∷ jobs) here rest =
    let later = insert_job-All P job jobs here rest.1 in
    All-chosen P _ (other ∷ insert_job job jobs) (job ∷ other ∷ jobs) (rest.0, later)
      (here, (rest.0, rest.1))

pub sort_jobs-All {κ} : (P : Job → Type κ) (jobs : List Job) → All P jobs → All P (sort_jobs jobs)
unfolding sort_jobs
sort_jobs-All P [] held = tt
sort_jobs-All P (job ∷ jobs) held =
    insert_job-All P job (sort_jobs jobs) held.0 (sort_jobs-All P jobs held.1)

module _ {κ} (R : Job → Job → Type κ) (swap : (j k : Job) → R j k → R k j) where
  insert_job-Pairwise :
      (job : Job) (jobs : List Job)
      → All (R job) jobs
      → Pairwise R jobs
      → Pairwise R (insert_job job jobs)
  unfolding insert_job
  insert_job-Pairwise job [] here pairs = (tt, tt)
  insert_job-Pairwise job (other ∷ jobs) here pairs =
      let later = insert_job-Pairwise job jobs here.1 pairs.1 in
      let others = insert_job-All (R other) job jobs (swap job other here.0) pairs.0 in
      Pairwise-chosen R _ (other ∷ insert_job job jobs) (job ∷ other ∷ jobs) (others, later)
        (here, pairs)

  pub sort_jobs-Pairwise : (jobs : List Job) → Pairwise R jobs → Pairwise R (sort_jobs jobs)
  unfolding sort_jobs
  sort_jobs-Pairwise [] pairs = tt
  sort_jobs-Pairwise (job ∷ jobs) pairs =
      insert_job-Pairwise job (sort_jobs jobs) (sort_jobs-All (R job) jobs pairs.0)
        (sort_jobs-Pairwise jobs pairs.1)

abbrev pub listed : Bool → Bool → String → String → Job → List String
listed trades books trade_rollup book_rollup job =
    if job.enabled then locations trades books trade_rollup book_rollup job job.starter else []

module _ (env : Env) where
  abbrev own_locations : Job → Start → List String
  own_locations =
      locations env.use_trade_rollup env.use_bookticker_rollup env.trade_rollup_checkpoint
        env.bookticker_rollup_checkpoint

  places_of : (job : Job) (s : Start) → places (start_by env job s) ≡ own_locations job s
  unfolding start_by start_base start_cvd_rollup start_cvd_trades start_ls_ratio start_price
      book_queries book_query output_query quality_query
  places_of job base_start =
      ap (λ ss. job.checkpoint ∷ ss) (places_chosen (is_hot_path_topic (some job.topic)) _ _)
  places_of job cvd_start = places_chosen env.use_trade_rollup _ _
  places_of job ls_ratio_start = refl
  places_of job price_start =
      places-append (book_queries env job) _
      ∙ ap (λ ss. ss ++ job.checkpoint ∷ (job.checkpoint <> "-quality") ∷ [])
          (places_chosen env.use_bookticker_rollup _ _)

  pub places-start :
      (job : Job)
      → places (start env job)
        ≡ listed env.use_trade_rollup env.use_bookticker_rollup env.trade_rollup_checkpoint
            env.bookticker_rollup_checkpoint job
  unfolding start
  places-start job =
      places_chosen job.enabled (start_by env job job.starter) []
      ∙ ap (λ ss. if job.enabled then ss else []) (places_of job job.starter)

-- The tests that a run of the tables' own checkpoints passes.
unfoldable pub apart_test : List String → List String → Bool
apart_test xs ys = all (λ s. all (λ t. not (s =ˢ t)) ys) xs

unfoldable pub own_test : List String → Bool
own_test [] = true
own_test (x ∷ xs) = all (λ t. not (x =ˢ t)) xs && own_test xs

unfoldable pub jobs_test : List (List String) → Bool
jobs_test [] = true
jobs_test (xs ∷ rest) = all (λ ys. apart_test xs ys && apart_test ys xs) rest && jobs_test rest

apart_test-Apart : (xs ys : List String) → apart_test xs ys ≡ true → Apart xs ys
unfolding apart_test
apart_test-Apart xs ys held =
    all-All _ (λ s. All (IsApart s) ys)
      (λ s fine. all-All _ (IsApart s) (λ t h. ground arith) ys fine) xs held

pub own_test-Pairwise : (xs : List String) → own_test xs ≡ true → Pairwise IsApart xs
unfolding own_test
own_test-Pairwise [] held = tt
own_test-Pairwise (x ∷ xs) held =
    let parts : (all (λ t. not (x =ˢ t)) xs ≡ true) × (own_test xs ≡ true) = ground arith in
    (all-All _ (IsApart x) (λ t h. ground arith) xs parts.0, own_test-Pairwise xs parts.1)

abbrev pub AreApart : List String → List String → Type 0
AreApart xs ys = Apart xs ys × Apart ys xs

pub jobs_test-Pairwise : (xss : List (List String)) → jobs_test xss ≡ true → Pairwise AreApart xss
unfolding jobs_test
jobs_test-Pairwise [] held = tt
jobs_test-Pairwise (xs ∷ rest) held =
    let parts : (all (λ ys. apart_test xs ys && apart_test ys xs) rest ≡ true)
        × (jobs_test rest ≡ true) =
      ground arith in
    (
      all-All _ (AreApart xs) (λ ys fine. both_ways ys fine) rest parts.0,
      jobs_test-Pairwise rest parts.1,
    )
  where
    both_ways : (ys : List String) → apart_test xs ys && apart_test ys xs ≡ true → AreApart xs ys
    both_ways ys fine =
        let two : (apart_test xs ys ≡ true) × (apart_test ys xs ≡ true) = ground arith in
        (apart_test-Apart xs ys two.0, apart_test-Apart ys xs two.1)
