-- ===== src/Collector/Pool.antt =====
-- collectors/base_collector.py: the jobs that `run_in_executor` runs, beside the event loop.
use coinwhale_data_pipeline.Prelude.{some, List, ◌++◌, upper}
use coinwhale_data_pipeline.Producer.{Producer}
use coinwhale_data_pipeline.Producer.Dlq.{FailureEnv}
use coinwhale_data_pipeline.Producer.Send.{after, SendEnv, send}
use coinwhale_data_pipeline.Producer.BadRow.{send_bad_row}
use coinwhale_data_pipeline.Producer.Close.{FlushAnswer, flush}
use coinwhale_data_pipeline.Collector.{Settings, Job, send_job, bad_row_job, flush_job, Collector}

-- What the client libraries answer in a job.
pub record JobEnv : Type 0 where
  pub send : SendEnv
  pub bad_row : FailureEnv
  pub flush : FlushAnswer

-- An exception of `send` stays in the future, which nobody awaits.
unfoldable pub run_job : Settings → JobEnv → Job → Producer → Producer
run_job s env (send_job m) kafka = after (send env.send m kafka)
run_job s env (bad_row_job topic error_type) kafka =
    send_bad_row env.bad_row topic error_type (some (upper s.symbol)) (some s.dash_name) kafka
run_job s env flush_job kafka = flush env.flush kafka

-- A thread of the pool takes a job from the queue and runs it.
unfoldable pub run_one : Settings → JobEnv → List Job → Job → List Job → Collector → Collector
run_one s env before job rest c = record c {
  jobs = before ++ rest;
  kafka = run_job s env job c.kafka;
}
