-- ===== src/Routing/Routes.antt =====
-- What `build_partition_route` returns, and when it raises.
use mathlib.Core.Option
use coinwhale_data_pipeline.Prelude.{
  ℕ, ◌+◌, ◌-◌, ◌%◌, ◌≤◌, ◌<◌, max, ℤ, pos, negsuc, ◌≡◌, refl, subst, split_once, Bool, true, ◌&&◌,
  ◌||◌, String, ◌<>◌, none, some, List, [], ◌∷◌, ◌++◌, arith, if◌then◌else◌, upper, show_ℕ,
  ends_with, strip, split, Option-cases, inl, inr, ap,
}
use native.Mathlib.Nat.{mod-lt}
use coinwhale_data_pipeline.Value.{PyFloats, Fields, get, truthy, or_else}
use coinwhale_data_pipeline.Routing.{
  Config, PartitionRoute, get_topic_partition_count, get_symbol_partition_span, clamp_lanes,
  get_active_lane_count, active_lane_overrides, seed_value, build_routing_seed, stable_hash,
  lane_route, route_of_seed, build_partition_route,
}
use coinwhale_data_pipeline.Routing.Lanes.{
  Overrides, raise, parse_token, collect_overrides, parse_active_lane_overrides,
}
use coinwhale_data_pipeline.Routing.Symbols.{IsSplit, get_symbol_partition_span_bounds}

clamp_lanes_bounds : (l : ℤ) (n : ℕ) → 1 ≤ n → (1 ≤ clamp_lanes l n) × (clamp_lanes l n ≤ n)
unfolding clamp_lanes
clamp_lanes_bounds (pos m) n h = omega arith
clamp_lanes_bounds (negsuc m) n h = omega arith

-- The lanes in use are at least one and at most the lanes of the span.
pub get_active_lane_count_bounds :
    (c : Config) (topic symbol : String) (shards : ℕ) {n : ℕ}
    → 1 ≤ shards
    → get_active_lane_count c topic symbol shards ≡ some n
    → (1 ≤ n) × (n ≤ shards)
unfolding get_active_lane_count
get_active_lane_count_bounds c topic symbol shards h e =
    ground (arith, λ (l : ℤ). clamp_lanes_bounds l shards h)

-- The number of lanes of a symbol's span.
abbrev pub span_lanes : Config → String → String → ℕ
span_lanes c topic symbol =
    let (start, stop) = get_symbol_partition_span c topic (upper symbol) in max (stop - start) 1

abbrev lane_of : Config → String → String → ℤ → Fields → ℕ → ℕ
lane_of c topic symbol ts payload active =
    stable_hash c (build_routing_seed c topic (upper symbol) ts payload) % active

-- The parts of a route on a topic that is split, from the span of the symbol.
pub record IsLaneRoute (c : Config) (topic symbol : String) (r : PartitionRoute) (q k : ℕ)
    : Type 0 where
  pub partition : r.partition ≡ some q
  pub shard : r.shard ≡ some k
  pub place : q ≡ (get_symbol_partition_span c topic (upper symbol)).0 + k
  pub in_span : q < (get_symbol_partition_span c topic (upper symbol)).1
  pub in_topic : q < r.partition_count
  pub active : k < r.active_shard_count
  pub shards : r.active_shard_count ≤ r.shard_count
  pub count : r.partition_count ≡ get_topic_partition_count c topic
  pub key : r.key ≡ upper symbol <> "-lane-" <> show_ℕ k

split_route :
    (c : Config) (topic symbol : String) (ts : ℤ) (payload : Fields)
    → IsSplit c topic
    → build_partition_route c topic symbol ts payload
      ≡ Option.map
          (lane_route c
            (upper symbol)
            (build_routing_seed c topic (upper symbol) ts payload)
            (get_topic_partition_count c topic)
            (get_symbol_partition_span c topic (upper symbol)).0
            (span_lanes c topic symbol))
          (get_active_lane_count c topic (upper symbol) (span_lanes c topic symbol))
unfolding build_partition_route
split_route c topic symbol ts payload (hot, many) = ground arith

lane_route_lem :
    (c : Config) (topic symbol : String) (ts : ℤ) (payload : Fields) (active : ℕ)
    → 1 ≤ active
    → active ≤ span_lanes c topic symbol
    → IsLaneRoute c topic symbol
        (lane_route c
          (upper symbol)
          (build_routing_seed c topic (upper symbol) ts payload)
          (get_topic_partition_count c topic)
          (get_symbol_partition_span c topic (upper symbol)).0
          (span_lanes c topic symbol)
          active)
        ((get_symbol_partition_span c topic (upper symbol)).0
          + lane_of c topic symbol ts payload active)
        (lane_of c topic symbol ts payload active)
unfolding lane_route
lane_route_lem c topic symbol ts payload active pos_active le =
    let (lt, fits) = get_symbol_partition_span_bounds c topic (upper symbol) in
    let small =
      mod-lt (stable_hash c (build_routing_seed c topic (upper symbol) ts payload)) pos_active in
    record {
      partition = refl;
      shard = refl;
      place = refl;
      in_span = omega arith;
      in_topic = omega arith;
      active = small;
      shards = le;
      count = refl;
      key = refl;
    }

returned_lane :
    (c : Config) (topic symbol : String) (ts : ℤ) (payload : Fields) (r : PartitionRoute)
    → IsSplit c topic
    → build_partition_route c topic symbol ts payload ≡ some r
    → (n : ℕ) × (get_active_lane_count c topic (upper symbol) (span_lanes c topic symbol) ≡ some n)
      × (lane_route c
            (upper symbol)
            (build_routing_seed c topic (upper symbol) ts payload)
            (get_topic_partition_count c topic)
            (get_symbol_partition_span c topic (upper symbol)).0
            (span_lanes c topic symbol)
            n
          ≡ r)
returned_lane c topic symbol ts payload r split e =
    elim (Option-cases (get_active_lane_count c topic (upper symbol) (span_lanes c topic symbol))) [
      | inl raised ↦ cc (split_route c topic symbol ts payload split, raised)
      | inr (n, found) ↦ (n, found, cc (split_route c topic symbol ts payload split))
    ]

-- On a hot topic with more than one partition, a route that is returned names a lane below the
-- active lanes of the symbol's span, and the partition is the start of the span plus the lane: it
-- lies within the span and within the topic. The key is the upper-case symbol with the lane.
pub build_partition_route-IsLaneRoute :
    (c : Config) (topic symbol : String) (ts : ℤ) (payload : Fields) (r : PartitionRoute)
    → IsSplit c topic
    → build_partition_route c topic symbol ts payload ≡ some r
    → (q : ℕ) × (k : ℕ) × IsLaneRoute c topic symbol r q k
build_partition_route-IsLaneRoute c topic symbol ts payload r split e =
    let (n, found, same) = returned_lane c topic symbol ts payload r split e in
    let (low, high) =
      get_active_lane_count_bounds c topic (upper symbol) (span_lanes c topic symbol) (omega arith)
        found in
    let k = lane_of c topic symbol ts payload n in
    let q = (get_symbol_partition_span c topic (upper symbol)).0 + k in
    (
      q,
      k,
      subst (λ (x : PartitionRoute). IsLaneRoute c topic symbol x q k) same
          (lane_route_lem c topic symbol ts payload n low high),
    )

-- The field that identifies an event on a hot topic: the trade id, or the book's update id.
unfoldable pub has_event_id : PyFloats → String → Fields → Bool
has_event_id py topic payload =
    if ends_with topic "trade"
    then truthy py (get payload "a")
    else (ends_with topic "depth" || ends_with topic "bookticker") && truthy py (get payload "u")

seed_value_ignores_time :
    (py : PyFloats) (topic : String) (ts ts' : ℤ) (payload : Fields)
    → has_event_id py topic payload ≡ true
    → seed_value py topic ts payload ≡ seed_value py topic ts' payload
unfolding seed_value has_event_id or_else
seed_value_ignores_time py topic ts ts' payload h = ground arith

seed_ignores_time :
    (c : Config) (topic symbol : String) (ts ts' : ℤ) (payload : Fields)
    → has_event_id c.py topic payload ≡ true
    → build_routing_seed c topic symbol ts payload ≡ build_routing_seed c topic symbol ts' payload
unfolding build_routing_seed
seed_ignores_time c topic symbol ts ts' payload h =
    rw (seed_value_ignores_time c.py topic ts ts' payload h)

-- A trade with an id, or a book event with an update id, has the same route whenever it is sent.
pub route_ignores_time :
    (c : Config) (topic symbol : String) (ts ts' : ℤ) (payload : Fields)
    → has_event_id c.py topic payload ≡ true
    → build_partition_route c topic symbol ts payload
      ≡ build_partition_route c topic symbol ts' payload
unfolding build_partition_route
route_ignores_time c topic symbol ts ts' payload h =
    ap (route_of_seed c topic (upper symbol))
      (seed_ignores_time c topic (upper symbol) ts ts' payload h)

raise_step :
    (x : String) (rest : List String) (o : Overrides)
    → ((o' : Overrides) → collect_overrides rest o' ≡ none)
    → collect_overrides (x ∷ rest) o ≡ none
unfolding collect_overrides
raise_step x rest o ih = grind (arith, ih)

collect_overrides_raise :
    (before : List String) (item : String) (after : List String) (o : Overrides)
    → parse_token (strip item) ≡ raise
    → collect_overrides (before ++ item ∷ after) o ≡ none
unfolding collect_overrides
collect_overrides_raise [] item after o h = rw (h, collect_overrides)
collect_overrides_raise (x ∷ before) item after o h =
    raise_step x (before ++ item ∷ after) o λ o'. collect_overrides_raise before item after o' h

bad_token :
    (token left value v w : String)
    → split_once 61 token ≡ some (left, value)
    → split_once 58 left ≡ none
    → split_once 58 value ≡ some (v, w)
    → parse_token token ≡ raise
unfolding parse_token
bad_token token left value v w equals no_colon colon = ground arith

lanes_raise :
    (c : Config) (topic symbol : String) (shards : ℕ)
    → 2 ≤ shards
    → c.active_lanes ≡ []
    → collect_overrides (split 44 c.active_lanes_env) [] ≡ none
    → get_active_lane_count c topic symbol shards ≡ none
unfolding get_active_lane_count active_lane_overrides parse_active_lane_overrides
lanes_raise c topic symbol shards h no_lanes raised = ground arith

-- One KAFKA_ACTIVE_LANES entry with an `=` and no colon in front of it, but one behind it, makes
-- `build_partition_route` raise for every symbol whose span on a hot topic has two lanes or more.
pub bad_lane_entry_raises :
    (c : Config) (topic symbol : String) (ts : ℤ) (payload : Fields) (before : List String)
    (item : String) (after : List String) (left value v w : String)
    → IsSplit c topic
    → c.active_lanes ≡ []
    → split 44 c.active_lanes_env ≡ before ++ item ∷ after
    → split_once 61 (strip item) ≡ some (left, value)
    → split_once 58 left ≡ none
    → split_once 58 value ≡ some (v, w)
    → 2 ≤ span_lanes c topic symbol
    → build_partition_route c topic symbol ts payload ≡ none
bad_lane_entry_raises c topic symbol ts payload before item after left value v w hot no_lanes items
      equals no_colon colon lanes =
    let raised =
      collect_overrides_raise before item after []
        (bad_token (strip item) left value v w equals no_colon colon) in
    rw (
      split_route c topic symbol ts payload hot,
      lanes_raise c topic (upper symbol) (span_lanes c topic symbol) lanes no_lanes
          (rw items raised),
    )
