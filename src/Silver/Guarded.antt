-- ===== src/Silver/Guarded.antt =====
-- spark_jobs/silver: what reaches the tables and the books through the started queries.
use coinwhale_data_pipeline.Prelude.{
  ◌≡◌, String, false, not, some, List, [], ◌∷◌, ◌++◌, keep, All, ◌=ˢ◌, is_in,
}
use coinwhale_data_pipeline.Gate.{gate_mode}
use coinwhale_data_pipeline.Gate.Topics.{is_hot_path_topic}
use coinwhale_data_pipeline.Silver.Plans.{
  Plan, read_from_kafka, parsed, with_source, quality_gated, valid_rows, dropped_quality_columns,
  union_by_name, aggregated, selected, process_quality_batch, Query, Job, Env, output_query,
}

-- The topics whose rows a frame has passed through the gate, flagged.
abbrev pub gates : Plan → List String
gates (read_from_kafka topic offsets group) = []
gates (parsed parser p) = gates p
gates (with_source source p) = gates p
gates (quality_gated topic p) = topic ∷ gates p
gates (valid_rows p) = gates p
gates (dropped_quality_columns p) = gates p
gates (union_by_name p q) = gates p ++ gates q
gates (aggregated table p) = gates p
gates (selected table p) = gates p

-- The topics whose rows a frame may have although the gate did not find them valid.
abbrev pub exposed : Plan → List String
exposed (read_from_kafka topic offsets group) = topic ∷ []
exposed (parsed parser p) = exposed p
exposed (with_source source p) = exposed p
exposed (quality_gated topic p) = exposed p
exposed (valid_rows p) = keep (λ topic. not (is_in topic (gates p))) (exposed p)
exposed (dropped_quality_columns p) = exposed p
exposed (union_by_name p q) = exposed p ++ exposed q
exposed (aggregated table p) = exposed p
exposed (selected table p) = exposed p

abbrev pub IsCold : String → Type 0
IsCold topic = is_hot_path_topic (some topic) ≡ false

-- The topics all of whose parsed rows are in a frame: no step took rows away.
abbrev pub unfiltered : Plan → List String
unfiltered (read_from_kafka topic offsets group) = topic ∷ []
unfiltered (parsed parser p) = unfiltered p
unfiltered (with_source source p) = unfiltered p
unfiltered (quality_gated topic p) = unfiltered p
unfiltered (valid_rows p) = []
unfiltered (dropped_quality_columns p) = unfiltered p
unfiltered (union_by_name p q) = unfiltered p ++ unfiltered q
unfiltered (aggregated table p) = []
unfiltered (selected table p) = []

-- A query for the quality has all rows of its topic, and no other topic's; any other query has of the hot
-- topics only valid rows.
abbrev pub IsGuarded : Query → Type 0
IsGuarded q = elim q.sink [
  | process_quality_batch topic checkpoint ↦ unfiltered q.frame ≡ topic ∷ []
  | _ ↦ All IsCold (exposed q.frame)
]

module _ (env : Env) (strict : (gate_mode env.dq_mode =ˢ "observe") ≡ false) where
  output_query-IsGuarded :
      (job : Job) (method checkpoint trigger : String) (p : Plan)
      → All IsCold (exposed p)
      → IsGuarded (output_query env job method checkpoint trigger p)
  unfolding output_query
  output_query-IsGuarded job method checkpoint trigger p cold = cold
