-- ===== src/Silver/Runs.antt =====
-- Runs of the started queries, with the default settings of the environment.
use coinwhale_data_pipeline.Prelude.{ℕ, ◌≡◌, refl, ◌⊎◌, true, false, ◌++◌, leb}
use coinwhale_data_pipeline.Silver.Plans.{Env, price_start, start}
use coinwhale_data_pipeline.Silver.Jobs.{
  Attempt, wait_for_kafka, connected, failed, main_queries, price_insight,
}
use coinwhale_data_pipeline.Silver.Distinct.{StartedApart, main-StartedApart}
use coinwhale_data_pipeline.Silver.Waiting.{wait_for_kafka_ends}
use coinwhale_data_pipeline.Silver.Recorded.{
  gated_topics, book_topics, recorded_topics, gated_topics_are_recorded,
}

abbrev env : Env
env = record {
  dq_mode = "shadow";
  use_kafka_group_id = false;
  max_offsets = λ checkpoint topic fallback. fallback;
  cvd_trigger_interval = "5 seconds";
  futures_max_offsets = "2000";
  spot_max_offsets = "800";
  use_trade_rollup = false;
  trade_rollup_topic = "rollup-trade-cvd-1s";
  trade_rollup_checkpoint = "/opt/spark/work-dir/checkpoints/stream-cvd-trade-rollup";
  trade_rollup_max_offsets = "5000";
  bookticker_max_offsets = "5000";
  bookticker_trigger_interval = "5 seconds";
  use_bookticker_rollup = true;
  bookticker_rollup_topic = "rollup-bookticker-1s";
  bookticker_rollup_checkpoint = "/opt/spark/work-dir/checkpoints/stream-price-bt-rollup";
  bookticker_rollup_max_offsets = "5000";
  bookticker_rollup_trigger_interval = "5 seconds";
}

main-StartedApart_example : StartedApart (main_queries env "" "oi" "price, CVD")
main-StartedApart_example = main-StartedApart env "" "oi" "price, CVD" (refl, refl)

-- Kafka comes up after three seconds.
abbrev attempts : ℕ → Attempt
attempts t = record { connects = leb 3000 t; took_ms = 20 }

wait_for_kafka_ends_example :
    (wait_for_kafka attempts 60 ≡ connected) ⊎ (wait_for_kafka attempts 60 ≡ failed)
wait_for_kafka_ends_example = wait_for_kafka_ends attempts 60

abbrev quotes : Env
quotes = record env { use_bookticker_rollup = false }

gated_topics_are_recorded_example :
    gated_topics (start quotes price_insight)
    ≡ book_topics quotes price_insight price_start
      ++ recorded_topics price_insight (start quotes price_insight)
gated_topics_are_recorded_example = gated_topics_are_recorded quotes price_insight refl
