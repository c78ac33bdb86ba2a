-- ===== src/Producer/Close.antt =====
-- common/kafka_utils.py: `flush` and `close`.
use coinwhale_data_pipeline.Prelude.{ℕ, ◌+◌, true, List, if◌then◌else◌, ltb, ◌==◌}
use coinwhale_data_pipeline.Producer.{Backend, confluent, kafka_python, Producer}
use coinwhale_data_pipeline.Producer.Dlq.{Report, poll}

-- What the client's `flush` does: it serves reports, and returns the messages that remain (nothing is
-- as good as zero there) or raises.
pub data FlushAnswer : Type 0 where
  flushed : List Report → ℕ → FlushAnswer
  flush_raised : List Report → FlushAnswer

unfoldable pub count_flush_timeout : Producer → Producer
count_flush_timeout p = record p { flush_timeout_count = p.flush_timeout_count + 1 }

-- The test behind the call, by the backend. kafka-python runs its callbacks on a thread of its own;
-- they are steps of their own here, so no report is served in its `flush`.
unfoldable pub after_flush : Backend → List Report → ℕ → Producer → Producer
unfolding count_flush_timeout
after_flush confluent reports remaining p =
    let served = poll reports p in if remaining == 0 then served else count_flush_timeout served
after_flush kafka_python reports remaining p =
    if ltb 0 p.pending_deliveries then count_flush_timeout p else p

unfoldable pub flush_error : Backend → List Report → Producer → Producer
unfolding count_flush_timeout
flush_error confluent reports p = count_flush_timeout (poll reports p)
flush_error kafka_python reports p = count_flush_timeout p

unfoldable pub flush : FlushAnswer → Producer → Producer
unfolding after_flush flush_error
flush (flushed reports remaining) p = after_flush p.backend reports remaining p
flush (flush_raised reports) p = flush_error p.backend reports p

-- The client's own `close` is called on kafka-python, and its errors are logged.
unfoldable pub close : FlushAnswer → Producer → Producer
close answer p = if p.closed then p else flush answer (record p { closed = true })
