-- ===== src/Routing/Symbols.antt =====
-- The spans of `get_symbol_partition_span`, by symbol.
use coinwhale_data_pipeline.Prelude.{
  ℕ, suc, zero, ◌≤◌, ◌<◌, ◌≡◌, ◌≢◌, ◌⊎◌, inl, inr, true, false, String, List, [], ◌∷◌, ◌++◌, map,
  arith, length, upper, upper_idem, eq_iff, Bool-cases, ltb,
}
use coinwhale_data_pipeline.Routing.{
  Config, get_topic_partition_count, member, index, with_symbol, routing_universe, span_of,
  get_symbol_partition_span,
}
use coinwhale_data_pipeline.Routing.Topics.{is_hot}
use coinwhale_data_pipeline.Routing.Spans.{span_bounds, span_ordered, span_covers}

member-append_self : (s : String) (xs : List String) → member s (xs ++ s ∷ []) ≡ true
unfolding member
member-append_self s [] = ground (arith, eq_iff s s)
member-append_self s (x ∷ xs) = ground (arith, member-append_self s xs)

pub member-with_symbol : (xs : List String) (s : String) → member s (with_symbol xs s) ≡ true
unfolding with_symbol member
member-with_symbol [] s = ground (arith, eq_iff s s)
member-with_symbol (x ∷ xs) s = ground (arith, member-append_self s xs)

with_symbol_present : (xs : List String) (s : String) → member s xs ≡ true → with_symbol xs s ≡ xs
unfolding with_symbol member
with_symbol_present [] s h = cc
with_symbol_present (x ∷ xs) s h = ground arith

pub index-lt : (s : String) (xs : List String) → member s xs ≡ true → index s xs < length xs
unfolding member index
index-lt s [] h = cc
index-lt s (x ∷ xs) h = ground (arith, index-lt s xs)

pub index_injective :
    (s t : String) (xs : List String)
    → member s xs ≡ true
    → member t xs ≡ true
    → index s xs ≡ index t xs
    → s ≡ t
unfolding member index
index_injective s t [] h k e = cc
index_injective s t (x ∷ xs) h k e = ground (arith, eq_iff x s, eq_iff x t, index_injective s t xs)

-- A hot topic with more than one partition is the case that divides the partitions.
abbrev pub IsSplit : Config → String → Type 0
IsSplit c topic = (is_hot topic ≡ true) × (1 < get_topic_partition_count c topic)

split_span :
    (c : Config) (topic symbol : String)
    → IsSplit c topic
    → get_symbol_partition_span c topic symbol
      ≡ span_of
          (get_topic_partition_count c topic)
          (length (routing_universe c (upper symbol)))
          (index (upper symbol) (routing_universe c (upper symbol)))
unfolding get_symbol_partition_span
split_span c topic symbol (hot, many) = ground arith

partition_count_pos : (c : Config) (topic : String) → 0 < get_topic_partition_count c topic
unfolding get_topic_partition_count
partition_count_pos c topic = ground arith

-- Every symbol on every topic has a span of at least one partition, and the span ends within the
-- topic's partitions.
pub get_symbol_partition_span_bounds :
    (c : Config) (topic symbol : String)
    → ((get_symbol_partition_span c topic symbol).0 < (get_symbol_partition_span c topic symbol).1)
      × ((get_symbol_partition_span c topic symbol).1 ≤ get_topic_partition_count c topic)
unfolding get_symbol_partition_span routing_universe
get_symbol_partition_span_bounds c topic symbol = ground (
  arith,
  partition_count_pos c topic,
  span_bounds (get_topic_partition_count c topic)
      (length (with_symbol (map upper c.routing_symbols) (upper symbol)))
      (index (upper symbol) (with_symbol (map upper c.routing_symbols) (upper symbol)))
      (partition_count_pos c topic)
      (index-lt (upper symbol) (with_symbol (map upper c.routing_symbols) (upper symbol))
        (member-with_symbol (map upper c.routing_symbols) (upper symbol))),
)

-- No symbol stands twice.
abbrev pub AllDistinct : List String → Type 0
AllDistinct [] = Unit
AllDistinct (x ∷ xs) = (member x xs ≡ false) × AllDistinct xs

-- the symbol at an index
symbol_at :
    (xs : List String) (i : ℕ)
    → AllDistinct xs
    → i < length xs
    → (s : String) × (member s xs ≡ true) × (index s xs ≡ i)
unfolding member index
symbol_at [] i d h = absurd (omega arith)
symbol_at (x ∷ xs) zero d h = (x, ground (arith, eq_iff x x), ground (arith, eq_iff x x))
symbol_at (x ∷ xs) (suc i) (fresh, d) h =
    let (s, m, e) = symbol_at xs i d (omega arith) in
    (s, ground (arith, eq_iff x s), ground (arith, eq_iff x s))

upper_of_member : (s : String) (xs : List String) → member s (map upper xs) ≡ true → upper s ≡ s
unfolding member
upper_of_member s [] h = cc
upper_of_member s (x ∷ xs) h =
    ground (arith, eq_iff (upper x) s, upper_idem x, upper_of_member s xs)

module _ (c : Config) (topic : String) (split : IsSplit c topic) where
  known_span :
      (s : String)
      → member (upper s) (map upper c.routing_symbols) ≡ true
      → get_symbol_partition_span c topic s
        ≡ span_of
            (get_topic_partition_count c topic)
            (length (map upper c.routing_symbols))
            (index (upper s) (map upper c.routing_symbols))
  unfolding routing_universe
  known_span s h = rw (split_span c topic s split, with_symbol_present _ _ h)

  -- On a hot topic with at least as many partitions as routing symbols, two different routing
  -- symbols have spans that do not meet.
  pub spans_disjoint :
      (s t : String)
      → length (map upper c.routing_symbols) ≤ get_topic_partition_count c topic
      → member (upper s) (map upper c.routing_symbols) ≡ true
      → member (upper t) (map upper c.routing_symbols) ≡ true
      → upper s ≢ upper t
      → ((get_symbol_partition_span c topic s).1 ≤ (get_symbol_partition_span c topic t).0)
        ⊎ ((get_symbol_partition_span c topic t).1 ≤ (get_symbol_partition_span c topic s).0)
  spans_disjoint s t room hs ht ne =
      rw (known_span s hs, known_span t ht) (apart (Bool-cases (ltb i j)))
    where
      U : List String
      U = map upper c.routing_symbols

      p : ℕ
      p = get_topic_partition_count c topic

      i : ℕ
      i = index (upper s) U

      j : ℕ
      j = index (upper t) U

      different : i ≢ j
      different e = ne (index_injective (upper s) (upper t) U hs ht e)

      apart :
          (ltb i j ≡ true) ⊎ (ltb i j ≡ false)
          → ((span_of p (length U) i).1 ≤ (span_of p (length U) j).0)
            ⊎ ((span_of p (length U) j).1 ≤ (span_of p (length U) i).0)
      apart (inl lt) = inl (span_ordered p (length U) room i j (ground arith))
      apart (inr ge) = inr (span_ordered p (length U) room j i (ground (arith, different)))

  -- On a hot topic with at least as many partitions as routing symbols, each partition lies in the
  -- span of a routing symbol, if the routing symbols are distinct and there is one.
  pub spans_cover :
      (q : ℕ)
      → length (map upper c.routing_symbols) ≤ get_topic_partition_count c topic
      → 0 < length (map upper c.routing_symbols)
      → AllDistinct (map upper c.routing_symbols)
      → q < get_topic_partition_count c topic
      → (s : String) × (member s (map upper c.routing_symbols) ≡ true)
        × ((get_symbol_partition_span c topic s).0 ≤ q)
        × (q < (get_symbol_partition_span c topic s).1)
  spans_cover q room some_symbol distinct h =
      let p = get_topic_partition_count c topic in
      let U = map upper c.routing_symbols in
      let (i, l, start, stop) = span_covers p (length U) room some_symbol q h in
      let (s, m, e) = symbol_at U i distinct l in
      let u = upper_of_member s c.routing_symbols m in
      let span = known_span s (rw u m) in (s, m, rw (span, u, e) start, rw (span, u, e) stop)
