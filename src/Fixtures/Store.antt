-- ===== src/Fixtures/Store.antt =====
-- A writer without a connection, what its calls for a client meet, and its settings.
use coinwhale_data_pipeline.Prelude.{inl, inr, true, false, none, some, [], ◌∷◌}
use coinwhale_data_pipeline.Writer.{Settings, connection, Writer, ClientEnv}
use coinwhale_data_pipeline.Writer.Audit.{Libraries}
use coinwhale_data_pipeline.Fixtures.{contract}

abbrev pub settings : Settings
settings = record {
  fail_fast_enabled = true;
  fail_fast_consecutive = 3;
  fail_fast_error_types = "*" ∷ [];
  raise_after_dlq_enabled = false;
  ping_interval = 60;
  dlq_cleanup_enabled = true;
  dlq_max_age_hours = 1;
  dlq_max_files = 2;
}

abbrev pub libraries : Libraries
libraries = record {
  contract = contract;
  null_columns = λ f. [];
  nan_columns = λ f. [];
  checksum = λ f. some "00ff";
  sanitize = λ s. some s;
}

abbrev pub new_writer : Writer
new_writer = record {
  client = none;
  last_healthcheck = 0;
  failure_counts = [];
  inserted = [];
  audit = [];
  dlq = [];
  last_cleanup_at = 0;
}

abbrev pub connecting : ClientEnv
connecting = record { now = 100; ping_answers = true; connect = inl (connection 1) }

abbrev pub refusing : ClientEnv
refusing = record { now = 100; ping_answers = false; connect = inr "connection refused" }
