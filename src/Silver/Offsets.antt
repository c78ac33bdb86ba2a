-- ===== src/Silver/Offsets.antt =====
-- spark_jobs/silver/base.py: `_get_optimal_max_offsets` and `_lag_to_max_offsets`. The files of the
-- checkpoint and the lines of the metrics are parsed outside.
use coinwhale_data_pipeline.Prelude.{
  ℕ, ◌+◌, ltb, ℤ, ◌-ℤ◌, max_ℤ_ℕ, String, ◌&&◌, Option, none, some, List, [], ◌∷◌, ◌=ˢ◌,
  if◌then◌else◌, keep,
}

-- An offset of the checkpoint, and one of the metrics.
pub record Offset : Type 0 where
  pub topic : String
  pub partition : String
  pub offset : ℤ

unfoldable pub lag_to_max_offsets : ℕ → String → String
lag_to_max_offsets total_lag fallback =
    if ltb 10000000 total_lag
    then "50000"
    else if ltb 1000000 total_lag
    then "10000"
    else if ltb 100000 total_lag
    then "5000"
    else fallback

-- Of two metrics for a partition the later counts, as in the dict.
log_end : List Offset → Offset → Option ℤ
log_end [] o = none
log_end (m ∷ ms) o = elim (log_end ms o) [
  | some end_ ↦ some end_
  | none ↦ if (m.topic =ˢ o.topic) && (m.partition =ˢ o.partition) then some m.offset else none
]

lag_of : Option ℤ → Offset → ℕ
lag_of none o = 0
lag_of (some end_) o = max_ℤ_ℕ (end_ -ℤ o.offset) 0

unfoldable pub total_lag : List Offset → List Offset → ℕ
unfolding log_end lag_of
total_lag metrics [] = 0
total_lag metrics (o ∷ os) = lag_of (log_end metrics o) o + total_lag metrics os

-- The first of the answers to the requests that is a text and not empty.
first_text : List (Option String) → Option String
first_text [] = none
first_text (none ∷ rest) = first_text rest
first_text (some t ∷ rest) = if t =ˢ "" then first_text rest else some t

of_metrics : Option (List Offset) → List Offset → String → String
of_metrics none offsets fallback = fallback
of_metrics (some metrics) offsets fallback = lag_to_max_offsets (total_lag metrics offsets) fallback

for_topic : Option String → List Offset → List Offset
for_topic none offsets = offsets
for_topic (some topic) offsets =
    if topic =ˢ "" then offsets else keep (λ o. o.topic =ˢ topic) offsets

parsed_text : (String → Option (List Offset)) → Option String → Option (List Offset)
parsed_text parse none = none
parsed_text parse (some t) = parse t

-- The offsets of the latest file of the checkpoint, or none where it cannot be read; the answers of the
-- metrics' addresses; and the parser of the metrics, which may raise.
unfoldable pub get_optimal_max_offsets :
    Option (List Offset)
    → List (Option String)
    → (String → Option (List Offset))
    → Option String
    → String
    → String
unfolding of_metrics for_topic parsed_text first_text
get_optimal_max_offsets none answers parse topic_filter fallback = fallback
get_optimal_max_offsets (some all) answers parse topic_filter fallback =
    elim (for_topic topic_filter all) [
      | [] ↦ fallback
      | o ∷ os ↦ of_metrics (parsed_text parse (first_text answers)) (o ∷ os) fallback
    ]
