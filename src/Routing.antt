-- ===== src/Routing.antt =====
-- common/config.py: the partition routing of `Config`. Class attributes are a record; the digest of
-- `hashlib.blake2b` is a parameter, and the environment variable KAFKA_ACTIVE_LANES a text.
pub mod Csv
pub mod Topics
pub mod Lanes
pub mod Spans
pub mod Symbols
pub mod Routes
mod Examples
use mathlib.Core.Option
use coinwhale_data_pipeline.Prelude.{
  ℕ, zero, suc, ◌+◌, ◌-◌, ◌*◌, ◌/◌, ◌%◌, min, max, ℤ, pos, negsuc, max_ℤ_ℕ, String, ◌<>◌, Bool,
  true, false, not, ◌&&◌, ◌||◌, Option, none, some, List, [], ◌∷◌, ◌++◌, map, ◌=ˢ◌, ◌==◌, ltb, leb,
  if◌then◌else◌, any, length, ends_with, upper, show_ℕ, show_ℤ,
}
use coinwhale_data_pipeline.Value.{
  Value, null, int, str, Fields, get, PyFloats, truthy, show, or_else,
}
use Topics.{is_hot}
use Lanes.{Overrides, parse_active_lane_overrides, lane_override}

-- `KafkaPartitionRoute`
pub record PartitionRoute : Type 0 where
  pub key : String
  pub partition : Option ℕ
  pub shard : Option ℕ
  pub shard_count : ℕ
  pub active_shard_count : ℕ
  pub partition_count : ℕ

-- The class attributes that routing reads, and the two things outside the repository that it asks.
pub record Config : Type 0 where
  pub default_partitions : ℤ
  pub hot_topic_partitions : ℤ
  pub active_lanes : Overrides
  pub active_lanes_env : String
  pub routing_symbols : List String
  -- the eight bytes of `hashlib.blake2b(text.encode("utf-8"), digest_size=8).digest()`
  pub blake2b : String → List ℕ
  pub py : PyFloats

unfoldable pub get_topic_partition_count : Config → String → ℕ
get_topic_partition_count c topic =
    if is_hot topic then max_ℤ_ℕ c.hot_topic_partitions 1 else max_ℤ_ℕ c.default_partitions 1

-- `x in xs` and `xs.index(x)`, which is the number of items before the first `x`
unfoldable pub member : String → List String → Bool
member x [] = false
member x (y ∷ ys) = if y =ˢ x then true else member x ys

unfoldable pub index : String → List String → ℕ
index x [] = 0
index x (y ∷ ys) = if y =ˢ x then 0 else suc (index x ys)

-- `[item.upper() for item in ROUTING_SYMBOLS] or [symbol]`, with the symbol added if it is missing
unfoldable pub with_symbol : List String → String → List String
with_symbol [] s = s ∷ []
with_symbol (x ∷ xs) s = if member s (x ∷ xs) then x ∷ xs else (x ∷ xs) ++ (s ∷ [])

unfoldable pub routing_universe : Config → String → List String
unfolding with_symbol
routing_universe c s = with_symbol (map upper c.routing_symbols) s

-- The span of the symbol at an index, out of `n` symbols on `p` partitions.
unfoldable pub span_of : ℕ → ℕ → ℕ → ℕ × ℕ
span_of p n i =
    if ltb p n
    then (i % p, i % p + 1)
    else (let start = p / n * i + min i (p % n) in
        (start, start + (p / n + (if ltb i (p % n) then 1 else 0))))

unfoldable pub get_symbol_partition_span : Config → String → String → ℕ × ℕ
get_symbol_partition_span c topic symbol =
    let p = get_topic_partition_count c topic in
    let symbols = routing_universe c (upper symbol) in
    if not (is_hot topic) || leb p 1
    then (0, p)
    else span_of p (length symbols) (index (upper symbol) symbols)

-- `none` is the `ValueError` of a malformed KAFKA_ACTIVE_LANES
unfoldable pub active_lane_overrides : Config → Option Overrides
active_lane_overrides c = elim c.active_lanes [
  | [] ↦ parse_active_lane_overrides c.active_lanes_env
  | lane ∷ lanes ↦ some (lane ∷ lanes)
]

-- `max(1, min(int(overrides[key]), shard_count))`
unfoldable pub clamp_lanes : ℤ → ℕ → ℕ
clamp_lanes (pos n) shard_count = max 1 (min n shard_count)
clamp_lanes (negsuc n) shard_count = 1

unfoldable pub get_active_lane_count : Config → String → String → ℕ → Option ℕ
unfolding clamp_lanes
get_active_lane_count c topic symbol shard_count =
    if leb shard_count 1 then some 1 else elim (active_lane_overrides c) [
      | none ↦ none
      | some overrides ↦ elim (lane_override overrides topic (upper symbol)) [
        | none ↦ some shard_count
        | some lanes ↦ some (clamp_lanes lanes shard_count)
      ]
    ]

-- `int.from_bytes(digest, byteorder="big", signed=False)`
unfoldable pub from_bytes : ℕ → List ℕ → ℕ
from_bytes acc [] = acc
from_bytes acc (b ∷ bs) = from_bytes (acc * 256 + b) bs

unfoldable pub stable_hash : Config → String → ℕ
unfolding from_bytes
stable_hash c raw = from_bytes 0 (c.blake2b raw)

-- `f"{payload.get('b')}-{payload.get('a')}-{ts_ms}"`
book_seed : PyFloats → Fields → ℤ → Value
book_seed py payload ts_ms =
    str (show py (get payload "b") <> "-" <> show py (get payload "a") <> "-" <> show_ℤ ts_ms)

-- The value behind the second bar of the seed, by the kind of the topic.
unfoldable pub seed_value : PyFloats → String → ℤ → Fields → Value
unfolding book_seed
seed_value py topic ts_ms payload =
    if ends_with topic "trade"
    then or_else py (get payload "a")
        (or_else py (get payload "T") (or_else py (get payload "E") (int ts_ms)))
    else if ends_with topic "depth"
    then or_else py (get payload "u") (
        or_else py (get payload "lastUpdateId")
          (or_else py (get payload "E") (book_seed py payload ts_ms)))
    else if ends_with topic "bookticker"
    then or_else py (get payload "u") (or_else py (get payload "E") (book_seed py payload ts_ms))
    else int ts_ms

unfoldable pub build_routing_seed : Config → String → String → ℤ → Fields → String
build_routing_seed c topic symbol ts_ms payload =
    topic <> "|" <> upper symbol <> "|" <> show c.py (seed_value c.py topic ts_ms payload)

-- The route on a hot topic, from the seed, the partitions, the span and the active lanes.
unfoldable pub lane_route : Config → String → String → ℕ → ℕ → ℕ → ℕ → PartitionRoute
lane_route c normalized seed p start shards active =
    let shard = stable_hash c seed % active in
    record {
      key = normalized <> "-lane-" <> show_ℕ shard;
      partition = some (start + shard);
      shard = some shard;
      shard_count = shards;
      active_shard_count = active;
      partition_count = p;
    }

unfoldable pub route_of_seed : Config → String → String → String → Option PartitionRoute
unfolding lane_route
route_of_seed c topic normalized seed =
    let p = get_topic_partition_count c topic in
    if not (is_hot topic) || leb p 1
    then some (record {
      key = normalized;
      partition = none;
      shard = some 0;
      shard_count = 1;
      active_shard_count = 1;
      partition_count = p;
    })
    else (let (start, stop) = get_symbol_partition_span c topic normalized in
        let shards = max (stop - start) 1 in
        Option.map (lane_route c normalized seed p start shards)
          (get_active_lane_count c topic normalized shards))

-- `none` is the `ValueError` of a malformed KAFKA_ACTIVE_LANES
unfoldable pub build_partition_route : Config → String → String → ℤ → Fields → Option PartitionRoute
unfolding route_of_seed
build_partition_route c topic symbol ts_ms payload =
    let normalized = upper symbol in
    route_of_seed c topic normalized (build_routing_seed c topic normalized ts_ms payload)

unfoldable pub build_partition_key : Config → String → String → ℤ → Fields → Option String
unfolding build_partition_route
build_partition_key c topic symbol ts_ms payload =
    Option.map (λ (r : PartitionRoute). r.key) (build_partition_route c topic symbol ts_ms payload)
