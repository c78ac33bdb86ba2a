-- ===== src/Producer/Examples.antt =====
-- Runs of the producer's theorems on a trade that is sent, reported as failed, and dead-lettered.
use coinwhale_data_pipeline.Prelude.{◌≡◌, refl, ◌⊎◌, true, some, [], ◌∷◌, ◌++◌, arith}
use coinwhale_data_pipeline.Value.{null}
use coinwhale_data_pipeline.Producer.{
  confluent, event, Message, Producer, init, record_delivery_failure, classify_error,
}
use coinwhale_data_pipeline.Producer.Dlq.{
  accepted, Report, FailureEnv, handle_delivery_failure, dead_letter, fallback_row,
}
use coinwhale_data_pipeline.Producer.Send.{returned, after, SendEnv, send}
use coinwhale_data_pipeline.Producer.Close.{flushed, close}
use coinwhale_data_pipeline.Producer.Accounting.{settled, HonestReports}
use coinwhale_data_pipeline.Producer.DeadLetters.{failure_leaves_a_trace}
use coinwhale_data_pipeline.Producer.Closing.{
  start, sends, closes, deliveries_add_up, send_after_close,
}

abbrev calm : FailureEnv
calm = record { answer = accepted; reports = []; first_write = true; second_write = true }

abbrev trade : Message
trade = record {
  topic = "binance-aggtrade";
  key = some "BTCUSDT";
  partition = some 3;
  collector = some "DepthKlineAggTrade";
  body = event null;
}

abbrev dead_trade : Message
dead_trade = record trade { topic = "binance-dlq" }

abbrev lost : Report
lost = record {
  message = trade;
  error = some "Local: Message timed out";
  first_write = true;
  second_write = true;
}

abbrev sending : SendEnv
sending = record {
  serializable = true;
  first = accepted;
  first_reports = [];
  full_reports = [];
  second = accepted;
  second_reports = [];
  failure = calm;
}

abbrev losing : SendEnv
losing = record sending { first_reports = lost ∷ [] }

abbrev opened : Producer
opened = init confluent "binance-dlq"

abbrev once : Producer
once = after (send sending trade opened)

abbrev twice : Producer
twice = after (send losing trade once)

sending-HonestReports : (p : Producer) → HonestReports sending p
sending-HonestReports p = record {
  first = omega arith;
  full = omega arith;
  second = omega arith;
  failure = omega arith;
}

losing-HonestReports : (p : Producer) → HonestReports losing p
losing-HonestReports p = record {
  first = omega arith;
  full = omega arith;
  second = omega arith;
  failure = omega arith;
}

deliveries_add_up_example : settled (close (flushed [] 0) twice) ≡ 2
deliveries_add_up_example =
    deliveries_add_up confluent "binance-dlq" 2 (close (flushed [] 0) twice) (
      closes
        (sends (sends start sending trade (sending-HonestReports opened) refl) losing trade
          (losing-HonestReports once) refl)
        (flushed [] 0) (omega arith))

send_after_close_example :
    send sending trade (close (flushed [] 0) twice)
    ≡ returned (record_delivery_failure (close (flushed [] 0) twice))
send_after_close_example = send_after_close (flushed [] 0) sending trade twice

failure_leaves_a_trace_example :
    ((handle_delivery_failure calm trade "timed out" opened).produced
      ≡ opened.produced ++ dead_letter opened.dlq_topic trade (classify_error "timed out") ∷ [])
    ⊎ ((handle_delivery_failure calm trade "timed out" opened).fallback
        ≡ opened.fallback ++ fallback_row trade (classify_error "timed out") ∷ [])
unfolding init
failure_leaves_a_trace_example = failure_leaves_a_trace calm trade "timed out" opened refl refl
