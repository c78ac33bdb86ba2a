-- ===== src/Routing/Csv.antt =====
-- common/config.py: comma-separated lists and the bootstrap servers.
use coinwhale_data_pipeline.Prelude.{
  String, Bool, true, false, not, Option, none, some, List, [], ◌∷◌, map, ◌=ˢ◌, if◌then◌else◌, keep,
  strip, split, join,
}

-- `[item.strip() for item in value.split(",") if item.strip()]`
unfoldable pub split_items : String → List String
split_items value = keep (λ item. not (item =ˢ "")) (map strip (split 44 value))

-- `None` is `none`, and the empty text is as false as it
unfoldable pub parse_csv : Option String → List String
unfolding split_items
parse_csv none = []
parse_csv (some value) = if value =ˢ "" then [] else split_items value

unfoldable pub seen_in : String → List String → Bool
seen_in x [] = false
seen_in x (y ∷ ys) = if x =ˢ y then true else seen_in x ys

-- The loop of `unique_csv`; `seen` holds what `result` holds.
unfoldable pub unique_from : List String → List String → List String
unique_from seen [] = []
unique_from seen (item ∷ items) =
    let old = unique_from seen items in
    let new = unique_from (item ∷ seen) items in if seen_in item seen then old else item ∷ new

unfoldable pub unique_csv : List String → List String
unfolding unique_from seen_in
unique_csv items = unique_from [] items

abbrev pub default_local_servers : String
default_local_servers = "localhost:9092"

unfoldable pub normalize_kafka_bootstrap_servers : Option String → String
normalize_kafka_bootstrap_servers raw = elim (unique_csv (parse_csv raw)) [
  | [] ↦ default_local_servers
  | server ∷ servers ↦ join "," (server ∷ servers)
]
