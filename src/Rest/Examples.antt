-- ===== src/Rest/Examples.antt =====
-- Runs of the pollers' theorems on whole seconds.
use coinwhale_data_pipeline.Prelude.{◌+◌, ◌≡◌, refl, ◌⊎◌, pos, true, false, none, [], arith}
use coinwhale_data_pipeline.Value.{Float, bits, null}
use coinwhale_data_pipeline.Producer.{confluent, init}
use coinwhale_data_pipeline.Producer.Dlq.{FailureEnv, accepted}
use coinwhale_data_pipeline.Producer.Send.{SendEnv}
use coinwhale_data_pipeline.Rest.{
  BackoffState, max_float, or_zero, parse_retry_after, jittered_delay, compute_backoff_delay,
  record_failure, is_ban, min_float, is_limited, is_given, is_server_error, seconds_or_zero,
  exponential_delay,
}
use coinwhale_data_pipeline.Rest.Fetch.{answered, timed_out, json, Request}
use coinwhale_data_pipeline.Rest.OpenInterest.{Poller, crashes, turn, turn_of, handler, back_off}
use coinwhale_data_pipeline.Rest.LongShort.{Shared}
use coinwhale_data_pipeline.Rest.Steps.{
  Succeeded, Failed, turn_succeeds_or_fails, overflow_ends_the_poller,
}
use coinwhale_data_pipeline.Fixtures.{arithmetic, config, float_lt}

abbrev backoff : BackoffState
backoff = record {
  base_delay_seconds = bits 1;
  max_backoff_seconds = bits 300;
  ban_cooldown_seconds = bits 900;
  jitter_ratio = bits 0;
  consecutive_failures = 0;
  current_backoff_seconds = bits 0;
}

abbrev calm : FailureEnv
calm = record { answer = accepted; reports = []; first_write = true; second_write = true }

abbrev sending : SendEnv
sending = record {
  serializable = true;
  first = accepted;
  first_reports = [];
  full_reports = [];
  second = accepted;
  second_reports = [];
  failure = calm;
}

abbrev late : Request
late = record {
  reply = timed_out;
  ts_ms = pos 1000;
  random = bits 0;
  random_after = bits 0;
  validate = λ fs. none;
  is_json_serializable = true;
  bad_row = calm;
  send = sending;
}

abbrev empty : Request
empty = record late { reply = answered 200 none (json null) }

abbrev poller : Poller
poller = record {
  symbol = "BTCUSDT";
  interval = bits 5;
  running = true;
  total_count = 0;
  backoff = backoff;
  kafka = init confluent "binance-dlq";
}

abbrev worn : Poller
worn = record poller { backoff = record backoff { consecutive_failures = 9 } }

never_below_itself : (x : Float) → float_lt x x ≡ false
never_below_itself (bits n) = ground arith

abbrev slower : Poller
slower = record poller {
  backoff = record backoff { consecutive_failures = 1; current_backoff_seconds = bits 1 };
}

turn_succeeds_or_fails_example :
    Succeeded poller (bits 5) slower ⊎ Failed arithmetic poller (bits 5) slower
unfolding turn turn_of handler back_off record_failure compute_backoff_delay parse_retry_after
    jittered_delay max_float min_float or_zero is_ban is_limited is_given is_server_error
    seconds_or_zero exponential_delay
turn_succeeds_or_fails_example =
    turn_succeeds_or_fails arithmetic config late poller slower (bits 5) tt refl

overflow_ends_the_poller_example :
    turn arithmetic config late worn
    ≡ crashes (record worn { backoff = record worn.backoff { consecutive_failures = 9 + 1 } })
unfolding or_zero
overflow_ends_the_poller_example = overflow_ends_the_poller arithmetic config late worn refl refl

abbrev shared : Shared
shared = record { symbol = "BTCUSDT"; total_count = 0; kafka = init confluent "binance-dlq" }
