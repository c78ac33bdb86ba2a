-- ===== src/Silver/Jobs.antt =====
-- spark_jobs/silver_aggregator.py: the tables' classes, `discover_silver_jobs`, `wait_for_kafka`, and the
-- queries that `main` starts. Python's order of texts is by their characters' codes.
use coinwhale_data_pipeline.Prelude.{
  ℕ, zero, suc, ◌+◌, ◌*◌, ltb, String, Bool, true, false, not, ◌&&◌, ◌||◌, ◌⊎◌, inl, inr, List, [],
  ◌∷◌, ◌++◌, map, keep, ◌=ˢ◌, if◌then◌else◌, is_in, split, strip, lower,
}
use Prim.Native.Nat.{Ordering}
use Prim.Native.String.{compare}
use coinwhale_data_pipeline.Silver.Plans.{
  Query, base_start, cvd_start, ls_ratio_start, price_start, Job, Env, start,
}

abbrev pub base_job : String → String → String → String → String → Job
base_job name table topic checkpoint parser = record {
  class_name = name;
  table = table;
  topic = topic;
  checkpoint = checkpoint;
  enabled = true;
  trigger_interval = "5 seconds";
  parser = parser;
  starter = base_start;
}

abbrev pub cvd_insight : Job
cvd_insight =
    record (base_job "CVDInsight" "cvd" "binance-trade" "/opt/spark/work-dir/checkpoints/stream-cvd"
      "parse_trade_data") { starter = cvd_start }

abbrev pub funding_insight : Job
funding_insight =
    base_job "FundingInsight" "funding" "binance-markprice"
      "/opt/spark/work-dir/checkpoints/stream-funding" "parse_markprice_data"

abbrev pub liquidation_insight : Job
liquidation_insight =
    base_job "LiquidationInsight" "liquidation" "binance-liquidation"
      "/opt/spark/work-dir/checkpoints/stream-liquidation" "parse_liquidation_data"

abbrev pub ls_ratio_insight : Job
ls_ratio_insight =
    record (base_job "LSRatioInsight" "ls_ratio" "binance-ls-ratio"
      "/opt/spark/work-dir/checkpoints/stream-ls-ratio" "parse_ls_ratio_data") {
        trigger_interval = "30 seconds";
        starter = ls_ratio_start;
      }

abbrev pub market_metrics_insight : Job
market_metrics_insight =
    base_job "MarketMetricsInsight" "market_metrics" "binance-ticker"
      "/opt/spark/work-dir/checkpoints/stream-market-metrics" "parse_ticker_data"

-- The parser of the open interest is the class's own.
abbrev pub oi_insight : Job
oi_insight =
    base_job "OIInsight" "oi" "binance-openinterest" "/opt/spark/work-dir/checkpoints/stream-oi"
      "OIInsight.parse"

abbrev pub price_insight : Job
price_insight =
    record (base_job "PriceInsight" "price" "binance-markprice"
      "/opt/spark/work-dir/checkpoints/stream-price" "parse_markprice_data") {
        starter = price_start;
      }

-- The classes in the order of the modules of `silver`.
abbrev pub silver_jobs : List Job
silver_jobs =
    cvd_insight ∷ funding_insight ∷ liquidation_insight ∷ ls_ratio_insight ∷ market_metrics_insight
    ∷ oi_insight ∷ price_insight ∷ []

-- `{x.strip() for x in raw.split(",") if x.strip()}`
unfoldable pub parse_set : String → List String
parse_set raw = keep (λ item. not (item =ˢ "")) (map strip (split 44 (strip raw)))

unfoldable pub parse_job_filters : String → List String
unfolding parse_set
parse_job_filters raw = map lower (parse_set raw)

is_empty : List String → Bool
is_empty [] = true
is_empty (x ∷ xs) = false

-- `aliases.isdisjoint(names)`, where the aliases are the class and the table
is_disjoint : Job → List String → Bool
is_disjoint job names = not (is_in job.class_name names || is_in job.table names)

unfoldable pub is_included : List String → List String → Job → Bool
unfolding is_empty is_disjoint
is_included include exclude job =
    (is_empty include || not (is_disjoint job include))
    && (is_empty exclude || is_disjoint job exclude)

is_after : String → String → Bool
is_after s t = elim (compare s t) [ Ordering.gt ↦ true | _ ↦ false ]

unfoldable pub insert_job : Job → List Job → List Job
unfolding is_after
insert_job job [] = job ∷ []
insert_job job (other ∷ rest) =
    let later = insert_job job rest in
    if is_after job.table other.table then other ∷ later else job ∷ other ∷ rest

-- `found.sort(key=…)`, which is stable
unfoldable pub sort_jobs : List Job → List Job
unfolding insert_job
sort_jobs [] = []
sort_jobs (job ∷ rest) = insert_job job (sort_jobs rest)

unfoldable pub is_filtered : List String → Job → Bool
is_filtered job_filters job =
    is_in (lower job.table) job_filters || is_in (lower job.class_name) job_filters

unfoldable pub discover_silver_jobs : String → String → List String → List Job → List Job
unfolding sort_jobs is_included is_filtered is_empty
discover_silver_jobs include exclude job_filters jobs =
    let found = sort_jobs (keep (is_included (parse_set include) (parse_set exclude)) jobs) in
    if is_empty job_filters then found else keep (is_filtered job_filters) found

-- The queries of the tables in turn.
unfoldable pub start_all : Env → List Job → List Query
start_all env [] = []
start_all env (job ∷ rest) = start env job ++ start_all env rest

unfoldable pub started_of : Env → Bool → List Job → List Query ⊎ String
started_of env unfiltered [] = if unfiltered then inl [] else inr "RuntimeError"
started_of env unfiltered (job ∷ rest) = inl (start_all env (job ∷ rest))

-- `main`: the queries it starts, or the error of filters that no table meets.
unfoldable pub main_queries : Env → String → String → String → List Query ⊎ String
unfolding started_of is_empty
main_queries env include exclude raw_filters =
    let job_filters = parse_job_filters raw_filters in
    started_of env (is_empty job_filters)
      (discover_silver_jobs include exclude job_filters silver_jobs)

-- An attempt to connect: whether it succeeds, and how long it takes, in milliseconds.
pub record Attempt : Type 0 where
  pub connects : Bool
  pub took_ms : ℕ

pub data Waited : Type 0 where
  connected failed out_of_fuel : Waited

-- The loop of `wait_for_kafka` on fuel; between two attempts it sleeps for a second.
unfoldable pub wait_loop : ℕ → (ℕ → Attempt) → ℕ → ℕ → Waited
wait_loop zero attempts timeout_ms elapsed_ms = out_of_fuel
wait_loop (suc fuel) attempts timeout_ms elapsed_ms =
    let attempt = attempts elapsed_ms in
    let later = wait_loop fuel attempts timeout_ms (elapsed_ms + attempt.took_ms + 1000) in
    if ltb elapsed_ms timeout_ms then if attempt.connects then connected else later else failed

unfoldable pub wait_for_kafka : (ℕ → Attempt) → ℕ → Waited
wait_for_kafka attempts timeout = wait_loop (suc timeout) attempts (timeout * 1000) 0
