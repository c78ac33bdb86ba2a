-- ===== src/Runner/Streams.antt =====
-- collectors/run_all.py: the streams that `main` subscribes to.
use coinwhale_data_pipeline.Prelude.{
  ◌*◌, ◌≡◌, refl, sym, ap, ◌∙◌, String, Bool, true, false, not, ◌&&◌, Option, none, some, List, [],
  ◌∷◌, ◌++◌, map, all, All, length, ◌=ˢ◌, arith, lower, lower_idem, Pairwise, Pairwise-append,
  All-append,
}
use mathlib.Core.List.{append_assoc}
use coinwhale_data_pipeline.Routing.Topics.{public, market}
use coinwhale_data_pipeline.Runner.{
  BaseUrl, spot_url, futures_url, WsCollector, RestPoller, Tasks, Subscription, subscription,
  subscriptions, ws_collectors_for, create_collectors_for_symbol, tasks_of, oi_poller, ls_poller,
}

abbrev same_url : BaseUrl → BaseUrl → Bool
same_url spot_url spot_url = true
same_url (futures_url public) (futures_url public) = true
same_url (futures_url market) (futures_url market) = true
same_url u v = false

-- Two subscriptions that are not one and the same.
abbrev pub IsApart : Subscription → Subscription → Type 0
IsApart s t =
    ((s.stream =ˢ t.stream) && same_url s.base_url t.base_url) && (s.symbol =ˢ t.symbol) ≡ false

-- The streams of every symbol.
abbrev routes : List (BaseUrl × String)
routes =
    (futures_url public, "depth@100ms")
    ∷ (futures_url market, "kline_1m")
    ∷ (futures_url market, "aggTrade")
    ∷ (futures_url public, "bookTicker")
    ∷ (futures_url market, "markPrice@1s")
    ∷ (futures_url market, "forceOrder")
    ∷ (spot_url, "aggTrade")
    ∷ (spot_url, "bookTicker")
    ∷ (spot_url, "kline_1m")
    ∷ (spot_url, "depth@100ms")
    ∷ (spot_url, "miniTicker")
    ∷ (spot_url, "ticker")
    ∷ (futures_url market, "miniTicker")
    ∷ (futures_url market, "ticker")
    ∷ []

abbrev placed : String → BaseUrl × String → Subscription
placed symbol (url, stream) = record { base_url = url; symbol = symbol; stream = stream }

differ : BaseUrl × String → BaseUrl × String → Bool
differ (u, s) (v, t) = not ((s =ˢ t) && same_url u v)

all_differ : List (BaseUrl × String) → Bool
unfolding differ
all_differ [] = true
all_differ (r ∷ rs) = all (differ r) rs && all_differ rs

routes_differ : all_differ routes ≡ true
unfolding all_differ
routes_differ = refl

rests : (b c : Bool) → b ≡ false → b && c ≡ false
rests b c h = ground arith

last : (b c : Bool) → c ≡ false → b && c ≡ false
last b c h = ground arith

-- The streams of one symbol.
routed :
    (s : String) (r : BaseUrl × String) (rs : List (BaseUrl × String))
    → all (differ r) rs ≡ true
    → All (IsApart (placed s r)) (map (placed s) rs)
unfolding differ
routed s r [] h = tt
routed s (u, x) ((v, y) ∷ rs) h =
    let later = routed s (u, x) rs in (rests _ (s =ˢ s) (ground arith), later (ground arith))

routed-Pairwise :
    (s : String) (rs : List (BaseUrl × String))
    → all_differ rs ≡ true
    → Pairwise IsApart (map (placed s) rs)
unfolding all_differ
routed-Pairwise s [] h = tt
routed-Pairwise s (r ∷ rs) h = (routed s r rs (ground arith), routed-Pairwise s rs (ground arith))

-- A subscription for another symbol.
abbrev IsOther : String → Subscription → Type 0
IsOther s t = (s =ˢ t.symbol) ≡ false

-- Symbols that differ in lower case.
abbrev pub AreDistinct : String → String → Type 0
AreDistinct s t = (lower s =ˢ lower t) ≡ false

placed-IsOther :
    (s t : String) (rs : List (BaseUrl × String))
    → (s =ˢ t) ≡ false
    → All (IsOther s) (map (placed t) rs)
placed-IsOther s t [] h = tt
placed-IsOther s t (r ∷ rs) h = (h, placed-IsOther s t rs h)

placed-AllApart :
    (s : String) (r : BaseUrl × String) (ts : List Subscription)
    → All (IsOther s) ts
    → All (IsApart (placed s r)) ts
placed-AllApart s r [] h = tt
placed-AllApart s r (t ∷ ts) h = (last _ (s =ˢ t.symbol) h.0, placed-AllApart s r ts h.1)

across :
    (s : String) (rs : List (BaseUrl × String)) (ts : List Subscription)
    → All (IsOther s) ts
    → All (λ x. All (IsApart x) ts) (map (placed s) rs)
across s [] ts h = tt
across s (r ∷ rs) ts h = (placed-AllApart s r ts h, across s rs ts h)

-- The streams of all symbols.
abbrev expected : List String → List Subscription
expected [] = []
expected (s ∷ symbols) = map (placed (lower s)) routes ++ expected symbols

expected-Other :
    (s : String) (symbols : List String)
    → All (AreDistinct s) symbols
    → All (IsOther (lower s)) (expected symbols)
expected-Other s [] h = tt
expected-Other s (t ∷ symbols) h =
    All-append (IsOther (lower s)) (map (placed (lower t)) routes) (expected symbols)
      (placed-IsOther (lower s) (lower t) routes h.0) (expected-Other s symbols h.1)

expected-Pairwise :
    (symbols : List String) → Pairwise AreDistinct symbols → Pairwise IsApart (expected symbols)
expected-Pairwise [] h = tt
expected-Pairwise (s ∷ symbols) h =
    Pairwise-append IsApart (map (placed (lower s)) routes) (expected symbols)
      (routed-Pairwise (lower s) routes routes_differ) (expected-Pairwise symbols h.1)
      (across (lower s) routes (expected symbols) (expected-Other s symbols h.0))

length-expected : (symbols : List String) → length (expected symbols) ≡ 14 * length symbols
length-expected [] = refl
length-expected (s ∷ symbols) = omega (arith, length-expected symbols)

subscriptions-append :
    (cs ds : List WsCollector) → subscriptions (cs ++ ds) ≡ subscriptions cs ++ subscriptions ds
subscriptions-append [] ds = refl
subscriptions-append (c ∷ cs) ds =
    ap (λ ss. map (subscription c) c.streams ++ ss) (subscriptions-append cs ds)
    ∙ sym (append_assoc (map (subscription c) c.streams) (subscriptions cs) (subscriptions ds))

-- What the collectors of a run subscribe to.
Given : List Subscription → Option Tasks → Type 0
Given ss none = ⊥
Given ss (some t) = subscriptions t.all_ws_collectors ≡ ss

-- What the collectors of one symbol subscribe to.
Made : List Subscription → Option (List WsCollector) → Type 0
Made ss none = ⊥
Made ss (some ws) = subscriptions ws ≡ ss

created :
    (symbol : String) → Made (map (placed (lower symbol)) routes) (ws_collectors_for (lower symbol))
unfolding Made ws_collectors_for
created symbol = ap (λ s. map (placed s) routes) (lower_idem symbol)

joined :
    (made : Option (List WsCollector)) (pollers : List RestPoller) (here later : List Subscription)
    (o : Option Tasks)
    → Made here made
    → Given later o
    → let pairs : Option (List WsCollector × List RestPoller) = elim made [
      | none ↦ none
      | some ws ↦ some (ws, pollers)
    ] in
      Given (here ++ later) (elim pairs [
        | none ↦ none
        | some pair ↦ elim o [
          | none ↦ none
          | some t ↦ some (record {
            all_ws_collectors = pair.0 ++ t.all_ws_collectors;
            all_rest_pollers = pair.1 ++ t.all_rest_pollers;
          })
        ]
      ])
unfolding Given Made
joined none pollers here later o first second = absurd first
joined (some ws) pollers here later none first second = second
joined (some ws) pollers here later (some t) first second =
    subscriptions-append ws t.all_ws_collectors
    ∙ ap (λ ss. ss ++ subscriptions t.all_ws_collectors) first
    ∙ ap (λ ss. here ++ ss) second

tasks_of-Given : (symbols : List String) → Given (expected symbols) (tasks_of symbols)
unfolding Given tasks_of create_collectors_for_symbol
tasks_of-Given [] = refl
tasks_of-Given (s ∷ symbols) =
    joined (ws_collectors_for (lower s)) (oi_poller s ∷ ls_poller s ∷ [])
      (map (placed (lower s)) routes) (expected symbols) (tasks_of symbols) (created s)
      (tasks_of-Given symbols)

-- The run has its collectors, no two of its subscriptions are the same, and there are fourteen of each
-- symbol.
abbrev pub SubscribedOnce : List String → Option Tasks → Type 0
SubscribedOnce symbols none = ⊥
SubscribedOnce symbols (some t) =
    Pairwise IsApart (subscriptions t.all_ws_collectors)
    × (length (subscriptions t.all_ws_collectors) ≡ 14 * length symbols)

Given-SubscribedOnce :
    (symbols : List String) (o : Option Tasks)
    → Pairwise AreDistinct symbols
    → Given (expected symbols) o
    → SubscribedOnce symbols o
unfolding Given
Given-SubscribedOnce symbols none distinct given = given
Given-SubscribedOnce symbols (some t) distinct given =
    rw given (expected-Pairwise symbols distinct, length-expected symbols)

-- For symbols that differ in lower case, `main` creates all its collectors: no collector mixes the streams
-- of the two futures endpoints. No two subscriptions are for the same stream of the same symbol at the
-- same base URL, and there are exactly fourteen for each symbol.
pub main-SubscribedOnce :
    (symbols : List String)
    → Pairwise AreDistinct symbols
    → SubscribedOnce symbols (tasks_of symbols)
main-SubscribedOnce symbols distinct =
    Given-SubscribedOnce symbols (tasks_of symbols) distinct (tasks_of-Given symbols)
