-- ===== src/Silver/Examples.antt =====
-- Runs of the theorems on two symbols' open interest, an insert that fails, and a rollup of trades.
use coinwhale_data_pipeline.Prelude.{
  ◌≡◌, refl, pos, true, false, none, some, [], ◌∷◌, inl, map, All, is_in, lower, strip,
}
use coinwhale_data_pipeline.Value.{bits}
use coinwhale_data_pipeline.Gate.{gate_mode}
use coinwhale_data_pipeline.Gate.Topics.{is_hot_path_topic}
use coinwhale_data_pipeline.Gate.Sound.{Sound}
use coinwhale_data_pipeline.Silver.OpenInterest.{
  Doubles, OiRow, Insight, change_of, calc_change_pct, BatchEnv, frame_of, call_of, process_batch,
}
use coinwhale_data_pipeline.Silver.Retried.{
  insight_of, rerun_compares_with_itself, IsSettled, process_batch-IsSettled,
}
use coinwhale_data_pipeline.Silver.Quality.{
  prepare_for_aggregate, prepare_for_aggregate-Sound, Recorded, QualityEnv,
}
use coinwhale_data_pipeline.Fixtures.Rollup.{spark, limits, frame}
use coinwhale_data_pipeline.Fixtures.Store.{settings, libraries, new_writer, connecting}

abbrev doubles : Doubles
doubles = record {
  zero = bits 0;
  is_zero = λ x. false;
  hundred = bits 100;
  sub = λ a b. a;
  div = λ a b. a;
  mul = λ a b. b;
}

abbrev btc : OiRow
btc = record { ts = "2024-01-01 00:00:00"; symbol = "BTCUSDT"; open_interest = bits 120 }

abbrev eth : OiRow
eth = record { ts = "2024-01-01 00:00:00"; symbol = "ETHUSDT"; open_interest = bits 80 }

abbrev failing : BatchEnv
failing = record {
  rows = inl (btc ∷ eth ∷ []);
  client = connecting;
  insert_error = some "connection reset";
}

abbrev insight : Insight
insight = record { prev_oi = ("BTCUSDT", bits 100) ∷ []; writer = new_writer }

rerun_compares_with_itself_example :
    (calc_change_pct doubles
      (btc ∷ eth ∷ [])
      (insight_of doubles settings libraries (call_of "/chk/oi" (pos 3)) (
        process_batch doubles settings libraries
          (call_of "/chk/oi" (pos 3))
          failing
          insight)).prev_oi).0
    ≡ map (λ (r : OiRow). change_of doubles (some r.open_interest) r.open_interest) (btc ∷ eth ∷ [])
rerun_compares_with_itself_example =
    rerun_compares_with_itself doubles settings libraries (call_of "/chk/oi" (pos 3)) failing btc
      (eth ∷ []) insight refl ((refl, tt), (tt, tt))

process_batch-IsSettled_example :
    IsSettled doubles settings libraries
      (call_of "/chk/oi" (pos 3))
      (frame_of (btc ∷ eth ∷ []) (calc_change_pct doubles (btc ∷ eth ∷ []) insight.prev_oi).0)
      new_writer
      (process_batch doubles settings libraries (call_of "/chk/oi" (pos 3)) failing insight)
process_batch-IsSettled_example =
    process_batch-IsSettled doubles settings libraries (call_of "/chk/oi" (pos 3)) failing btc
      (eth ∷ []) insight refl

prepare_for_aggregate-Sound_example :
    All
      (Sound spark limits "rollup-trade-cvd-1s" frame.columns)
      (prepare_for_aggregate spark limits "shadow" "rollup-trade-cvd-1s" frame)
unfolding is_hot_path_topic gate_mode is_in lower strip
prepare_for_aggregate-Sound_example =
    prepare_for_aggregate-Sound spark limits "shadow" "rollup-trade-cvd-1s" frame refl refl

abbrev recorded : Recorded
recorded = record {
  store = record { client = false; last_healthcheck = 0; inserted = []; fallback = [] };
  quarantined = [];
  notices = [];
}

abbrev broken : QualityEnv
broken = record {
  looks = false;
  quarantine_writes = false;
  fallback_writes = true;
  summarizes = true;
  store = record {
    now = 100;
    ping_interval = 60;
    ping_answers = false;
    connects = false;
    inserts = false;
    writes = true;
  };
  max_ratio = none;
}
