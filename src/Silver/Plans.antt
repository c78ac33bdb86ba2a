-- ===== src/Silver/Plans.antt =====
-- spark_jobs/silver: the streaming queries that `start` of each table starts, as the plans that Spark is
-- given. The offsets that `_get_optimal_max_offsets` chooses are a function of the environment.
use coinwhale_data_pipeline.Prelude.{
  String, ◌<>◌, Bool, true, false, Option, none, some, List, [], ◌∷◌, ◌++◌, ◌=ˢ◌, if◌then◌else◌,
}
use coinwhale_data_pipeline.Gate.{gate_mode}
use coinwhale_data_pipeline.Gate.Topics.{is_hot_path_topic}

-- A streaming frame: a topic with its offsets per trigger and its group, and what is done with it.
pub data Plan : Type 0 where
  read_from_kafka : String → String → Option String → Plan
  parsed : String → Plan → Plan
  with_source : String → Plan → Plan
  quality_gated : String → Plan → Plan
  valid_rows : Plan → Plan
  dropped_quality_columns : Plan → Plan
  union_by_name : Plan → Plan → Plan
  aggregated : String → Plan → Plan
  selected : String → Plan → Plan

-- What `foreachBatch` calls. A quality batch has a topic and a checkpoint.
pub data Sink : Type 0 where
  process_batch update_futures_bt update_spot_bt update_rollup_bt : Sink
  process_quality_batch : String → String → Sink

pub record Query : Type 0 where
  pub frame : Plan
  pub output_mode : String
  pub sink : Sink
  pub checkpoint_location : String
  pub trigger : String

-- Which `start` a table has.
pub data Start : Type 0 where
  base_start cvd_start ls_ratio_start price_start : Start

-- The attributes of a table's class.
pub record Job : Type 0 where
  pub class_name : String
  pub table : String
  pub topic : String
  pub checkpoint : String
  pub enabled : Bool
  pub trigger_interval : String
  pub parser : String
  pub starter : Start

pub record Env : Type 0 where
  pub dq_mode : String
  pub use_kafka_group_id : Bool
  pub max_offsets : String → Option String → String → String
  pub cvd_trigger_interval : String
  pub futures_max_offsets : String
  pub spot_max_offsets : String
  pub use_trade_rollup : Bool
  pub trade_rollup_topic : String
  pub trade_rollup_checkpoint : String
  pub trade_rollup_max_offsets : String
  pub bookticker_max_offsets : String
  pub bookticker_trigger_interval : String
  pub use_bookticker_rollup : Bool
  pub bookticker_rollup_topic : String
  pub bookticker_rollup_checkpoint : String
  pub bookticker_rollup_max_offsets : String
  pub bookticker_rollup_trigger_interval : String

-- `topic or self._quality_topic()`
unfoldable pub dq_topic_of : Job → String → String
dq_topic_of job topic = if topic =ˢ "" then job.topic else topic

unfoldable pub apply_quality_gate : Job → String → Plan → Plan
unfolding dq_topic_of
apply_quality_gate job topic p =
    if is_hot_path_topic (some (dq_topic_of job topic))
    then quality_gated (dq_topic_of job topic) p
    else p

-- `"_dq_is_valid" in df.columns`
unfoldable pub has_flag : Plan → Bool
has_flag (read_from_kafka topic offsets group) = false
has_flag (parsed parser p) = false
has_flag (with_source source p) = has_flag p
has_flag (quality_gated topic p) = true
has_flag (valid_rows p) = has_flag p
has_flag (dropped_quality_columns p) = false
has_flag (union_by_name p q) = if has_flag p then true else has_flag q
has_flag (aggregated table p) = false
has_flag (selected table p) = false

module _ (env : Env) where
  unfoldable pub prepare_for_aggregate : Plan → Plan
  unfolding has_flag
  prepare_for_aggregate p =
      if has_flag p
      then if gate_mode env.dq_mode =ˢ "observe"
        then dropped_quality_columns p
        else dropped_quality_columns (valid_rows p)
      else p

  -- `writeStream` of a table's rows, in the mode "update"
  unfoldable pub output_query : Job → String → String → String → Plan → Query
  output_query job method checkpoint trigger valid_input = record {
    frame = selected job.table (aggregated method valid_input);
    output_mode = "update";
    sink = process_batch;
    checkpoint_location = checkpoint;
    trigger = trigger;
  }

  unfoldable pub quality_query : String → String → String → String → Plan → Query
  quality_query topic recorded checkpoint trigger quality_input = record {
    frame = quality_input;
    output_mode = "append";
    sink = process_quality_batch topic recorded;
    checkpoint_location = checkpoint;
    trigger = trigger;
  }

  unfoldable pub group_of : Job → Option String
  group_of job = if env.use_kafka_group_id then some ("silver-" <> job.table) else none

  -- `SilverBase.start`; the batches of the quality query record the checkpoint of the table.
  unfoldable pub start_base : Job → List Query
  unfolding output_query quality_query group_of apply_quality_gate
  start_base job =
      let offsets = env.max_offsets job.checkpoint none "1000" in
      let raw = read_from_kafka job.topic offsets (group_of job) in
      let quality_input = apply_quality_gate job job.topic (parsed job.parser raw) in
      output_query job "aggregate" job.checkpoint job.trigger_interval
        (prepare_for_aggregate quality_input)
      ∷ (if is_hot_path_topic (some job.topic)
          then quality_query job.topic job.checkpoint (job.checkpoint <> "-quality")
              job.trigger_interval quality_input
            ∷ []
          else [])

  -- `CVDInsight.start` on the rollup of trades
  unfoldable pub start_cvd_rollup : Job → List Query
  unfolding output_query quality_query apply_quality_gate
  start_cvd_rollup job =
      let checkpoint = env.trade_rollup_checkpoint in
      let topic = env.trade_rollup_topic in
      let offsets = env.max_offsets checkpoint (some topic) env.trade_rollup_max_offsets in
      let rollup = parsed "parse_trade_cvd_rollup_data" (read_from_kafka topic offsets none) in
      let rollup_quality = apply_quality_gate job topic rollup in
      output_query job "aggregate_rollup" checkpoint env.cvd_trigger_interval
        (prepare_for_aggregate rollup_quality)
      ∷ quality_query topic (checkpoint <> "-quality") (checkpoint <> "-quality")
          env.cvd_trigger_interval rollup_quality
      ∷ []

  -- One of the two topics of trades, behind the gate.
  unfoldable pub trades : Job → String → String → String → String → Plan
  unfolding apply_quality_gate
  trades job topic parser source fallback =
      let offsets = env.max_offsets job.checkpoint (some topic) fallback in
      apply_quality_gate job topic
        (with_source source (parsed parser (read_from_kafka topic offsets none)))

  -- `CVDInsight.start` on the trades of both markets
  unfoldable pub start_cvd_trades : Job → List Query
  unfolding output_query quality_query trades
  start_cvd_trades job =
      let futures_quality =
        trades job "binance-trade" "parse_trade_data" "futures" env.futures_max_offsets in
      let spot_quality =
        trades job "spot-trade" "parse_spot_trade_data" "spot" env.spot_max_offsets in
      let futures_checkpoint = job.checkpoint <> "-quality-binance-trade" in
      let spot_checkpoint = job.checkpoint <> "-quality-spot-trade" in
      output_query job "aggregate" job.checkpoint env.cvd_trigger_interval
        (union_by_name (prepare_for_aggregate futures_quality) (prepare_for_aggregate spot_quality))
      ∷ quality_query "binance-trade" futures_checkpoint futures_checkpoint env.cvd_trigger_interval
          futures_quality
      ∷ quality_query "spot-trade" spot_checkpoint spot_checkpoint env.cvd_trigger_interval
          spot_quality
      ∷ []

  ls_topics : List String
  ls_topics = "binance-top-ls-account" ∷ "binance-top-ls-position" ∷ "binance-taker-ls-ratio" ∷ []

  -- The frame of a topic without a setting of its offsets, which `read_from_kafka` reads by 1000.
  ls_frame : Job → String → Plan
  ls_frame job topic = parsed job.parser (read_from_kafka topic "1000" none)

  union_all : Job → Plan → List String → Plan
  unfolding ls_frame
  union_all job unified [] = unified
  union_all job unified (topic ∷ topics) =
      union_all job (union_by_name unified (ls_frame job topic)) topics

  unfoldable pub start_ls_ratio : Job → List Query
  unfolding output_query union_all ls_frame ls_topics
  start_ls_ratio job =
      output_query job "aggregate" job.checkpoint job.trigger_interval
        (union_all job (ls_frame job "binance-ls-ratio") ls_topics)
      ∷ []

  -- A query that keeps a book: it has no aggregation, and no quality query beside it.
  unfoldable pub book_query : Job → String → String → String → String → String → Sink → Query
  unfolding apply_quality_gate
  book_query job topic parser checkpoint fallback trigger sink =
      let raw = read_from_kafka topic (env.max_offsets checkpoint none fallback) none in
      record {
        frame = prepare_for_aggregate (apply_quality_gate job topic (parsed parser raw));
        output_mode = "append";
        sink = sink;
        checkpoint_location = checkpoint;
        trigger = trigger;
      }

  unfoldable pub book_queries : Job → List Query
  unfolding book_query
  book_queries job =
      if env.use_bookticker_rollup
      then book_query job env.bookticker_rollup_topic "parse_bookticker_rollup_data"
          env.bookticker_rollup_checkpoint env.bookticker_rollup_max_offsets
          env.bookticker_rollup_trigger_interval update_rollup_bt
        ∷ []
      else book_query job "binance-bookticker" "parse_bookticker_data"
          "/opt/spark/work-dir/checkpoints/stream-price-fbt" env.bookticker_max_offsets
          env.bookticker_trigger_interval update_futures_bt
        ∷ book_query job "spot-bookticker" "parse_bookticker_data"
            "/opt/spark/work-dir/checkpoints/stream-price-sbt" env.bookticker_max_offsets
            env.bookticker_trigger_interval update_spot_bt
        ∷ []

  unfoldable pub start_price : Job → List Query
  unfolding output_query quality_query book_queries apply_quality_gate
  start_price job =
      let offsets = env.max_offsets job.checkpoint none "1000" in
      let raw = read_from_kafka job.topic offsets none in
      let quality_input = apply_quality_gate job job.topic (parsed job.parser raw) in
      let checkpoint = job.checkpoint <> "-quality" in
      book_queries job
      ++ output_query job "aggregate" job.checkpoint job.trigger_interval
          (prepare_for_aggregate quality_input)
        ∷ quality_query job.topic checkpoint checkpoint job.trigger_interval quality_input
        ∷ []

  unfoldable pub start_by : Job → Start → List Query
  unfolding start_base start_cvd_rollup start_cvd_trades start_ls_ratio start_price
  start_by job base_start = start_base job
  start_by job cvd_start =
      if env.use_trade_rollup then start_cvd_rollup job else start_cvd_trades job
  start_by job ls_ratio_start = start_ls_ratio job
  start_by job price_start = start_price job

  -- The queries that a table's `start` starts, in their order; none when it is not enabled.
  unfoldable pub start : Job → List Query
  unfolding start_by
  start job = if job.enabled then start_by job job.starter else []
