-- ===== src/Silver/Priced.antt =====
-- spark_jobs/silver/price.py: the quotes of a price row after a batch of the bookticker rollup.
use coinwhale_data_pipeline.Prelude.{
  ◌≡◌, refl, sym, ◌∙◌, inl, inr, String, Bool, true, false, not, ◌&&◌, Option, none, some, List, [],
  ◌∷◌, ◌=ˢ◌, if◌then◌else◌, lookup, Bool-cases, arith,
}
use coinwhale_data_pipeline.Value.{Float}
use coinwhale_data_pipeline.Silver.Price.{
  Doubles, BookTickerSnapshot, Books, BookRow, snapshot_of, put, put_market, update_rollup_bt,
  Quote, PriceRow, PriceOut, is_fresh, or_zeros, quote_of, apply_bookticker_snapshot, spread_of,
  mid_of, fill, basis_of, priced, price_row,
}

abbrev pub or_else {ℓ} : {A : Type ℓ} → Option A → Option A → Option A
or_else none other = other
or_else (some a) other = some a

or_else_assoc {ℓ} :
    {A : Type ℓ} (a b c : Option A) → or_else a (or_else b c) ≡ or_else (or_else a b) c
or_else_assoc none b c = refl
or_else_assoc (some a) b c = refl

-- What a row of the rollup says of a symbol on one of the two markets.
abbrev says_of :
    Bool
    → String
    → Option String
    → Option String
    → Option BookTickerSnapshot
    → Option BookTickerSnapshot
says_of on_spot symbol none s snapshot = none
says_of on_spot symbol (some market) none snapshot = none
says_of true symbol (some market) (some s) snapshot =
    if (market =ˢ "spot") && (s =ˢ symbol) then snapshot else none
says_of false symbol (some market) (some s) snapshot =
    if not (market =ˢ "spot") && (s =ˢ symbol) then snapshot else none

-- The last complete row of a symbol on a market.
abbrev pub newest : Bool → String → List BookRow → Option BookTickerSnapshot
newest on_spot symbol [] = none
newest on_spot symbol (row ∷ rows) = or_else (newest on_spot symbol rows) (
    says_of on_spot symbol row.market row.symbol
      (snapshot_of row.bid_price row.ask_price row.event_time_sec))

abbrev pub side : Bool → Books → List (String × BookTickerSnapshot)
side true books = books.spot_book
side false books = books.futures_book

lookup-put :
    (symbol s : String) (snapshot : Option BookTickerSnapshot)
    (book : List (String × BookTickerSnapshot))
    → lookup symbol (put s snapshot book)
      ≡ or_else (if s =ˢ symbol then snapshot else none) (lookup symbol book)
unfolding lookup put
lookup-put symbol s none book = elim (Bool-cases (s =ˢ symbol)) [
  | inl same ↦ rw same refl
  | inr other ↦ rw other refl
]
lookup-put symbol s (some snapshot) book = elim (Bool-cases (s =ˢ symbol)) [
  | inl same ↦ rw same refl
  | inr other ↦ rw other refl
]

lookup-put_market :
    (on_spot : Bool) (symbol : String) (market s : Option String)
    (snapshot : Option BookTickerSnapshot) (books : Books)
    → lookup symbol (side on_spot (put_market market s snapshot books))
      ≡ or_else (says_of on_spot symbol market s snapshot) (lookup symbol (side on_spot books))
unfolding put_market
lookup-put_market on_spot symbol none s snapshot books = refl
lookup-put_market on_spot symbol (some market) none snapshot books = refl
lookup-put_market true symbol (some market) (some s) snapshot books =
    elim (Bool-cases (market =ˢ "spot")) [
      | inl spot ↦ rw spot (lookup-put symbol s snapshot books.spot_book)
      | inr futures ↦ rw futures refl
    ]
lookup-put_market false symbol (some market) (some s) snapshot books =
    elim (Bool-cases (market =ˢ "spot")) [
      | inl spot ↦ rw spot refl
      | inr futures ↦ rw futures (lookup-put symbol s snapshot books.futures_book)
    ]

lookup-update_rollup_bt :
    (on_spot : Bool) (symbol : String) (rows : List BookRow) (books : Books)
    → lookup symbol (side on_spot (update_rollup_bt rows books))
      ≡ or_else (newest on_spot symbol rows) (lookup symbol (side on_spot books))
unfolding update_rollup_bt
lookup-update_rollup_bt on_spot symbol [] books = refl
lookup-update_rollup_bt on_spot symbol (row ∷ rows) books =
    let snapshot = snapshot_of row.bid_price row.ask_price row.event_time_sec in
    let here = lookup-put_market on_spot symbol row.market row.symbol snapshot books in
    lookup-update_rollup_bt on_spot symbol rows (put_market row.market row.symbol snapshot books)
    ∙ rw here (
        or_else_assoc (newest on_spot symbol rows)
          (says_of on_spot symbol row.market row.symbol snapshot)
          (lookup symbol (side on_spot books)))

chosen_number :
    (d : Doubles) (b : Bool) (x y : Float)
    → d.is_nan x ≡ false
    → d.is_nan y ≡ false
    → d.is_nan (if b then x else y) ≡ false
chosen_number d true x y first second = first
chosen_number d false x y first second = second

other_chosen :
    (f s valid : Bool) (x y : Float) → f && s ≡ false → (if f && s && valid then x else y) ≡ y
other_chosen true true valid x y stale = ground arith
other_chosen true false valid x y stale = refl
other_chosen false s valid x y stale = refl

module _ (d : Doubles) (stale_after_sec now : Float) where
  -- The three columns of a market: those of a fresh snapshot, or zeros.
  abbrev Shows : Option BookTickerSnapshot → Float → Float → Float → Type 0
  Shows none bid ask spread = (bid ≡ d.zero) × (ask ≡ d.zero) × (spread ≡ d.zero)
  Shows (some q) bid ask spread =
      (is_fresh d stale_after_sec now q.event_time_sec ≡ true
        → (bid ≡ q.bid) × (ask ≡ q.ask) × (spread ≡ d.sub q.ask q.bid))
      × (is_fresh d stale_after_sec now q.event_time_sec ≡ false
          → (bid ≡ d.zero) × (ask ≡ d.zero) × (spread ≡ d.zero))

  abbrev fresh_snapshot : Option BookTickerSnapshot → Bool
  fresh_snapshot none = false
  fresh_snapshot (some q) = is_fresh d stale_after_sec now q.event_time_sec

  -- A row shows the two snapshots, and a basis that is a number, zero unless both are fresh.
  abbrev pub IsPriced : Option BookTickerSnapshot → Option BookTickerSnapshot → PriceOut → Type 0
  IsPriced futures spot out =
      Shows futures out.futures_bid out.futures_ask out.futures_spread
      × Shows spot out.spot_bid out.spot_ask out.spot_spread
      × (fresh_snapshot futures && fresh_snapshot spot ≡ false → out.basis_pct ≡ d.zero)
      × (d.is_nan out.basis_pct ≡ false)

  abbrev quoted : Option BookTickerSnapshot → Quote
  quoted s = quote_of d stale_after_sec now (or_zeros d stale_after_sec now s)

  quoted-Shows :
      (s : Option BookTickerSnapshot)
      → d.lt d.zero d.zero ≡ false
      → Shows s (quoted s).bid (quoted s).ask (spread_of d stale_after_sec now (quoted s))
        × ((quoted s).fresh ≡ fresh_snapshot s)
  unfolding quote_of or_zeros spread_of is_fresh
  quoted-Shows none irreflexive = rw irreflexive ((refl, refl, refl), refl)
  quoted-Shows (some q) irreflexive =
      ((λ fresh. rw fresh (refl, refl, refl), λ stale. rw stale (refl, refl, refl)), refl)

  fill-nan : (x : Float) → d.is_nan d.zero ≡ false → d.is_nan (fill d stale_after_sec now x) ≡ false
  unfolding fill
  fill-nan x number = elim (Bool-cases (d.is_nan x)) [
    | inl nan ↦ rw nan number
    | inr other ↦ rw other other
  ]

  basis-nan :
      (futures spot : Quote)
      → d.is_nan d.zero ≡ false
      → d.is_nan (basis_of d stale_after_sec now futures spot) ≡ false
  unfolding basis_of
  basis-nan futures spot number =
      chosen_number d _ _ _
        (fill-nan
          (d.mul
            (d.div
              (d.sub (mid_of d stale_after_sec now futures) (mid_of d stale_after_sec now spot))
              (mid_of d stale_after_sec now spot))
            d.hundred)
          number)
        (fill-nan d.zero number)

  basis-zero :
      (futures spot : Quote)
      → d.is_nan d.zero ≡ false
      → futures.fresh && spot.fresh ≡ false
      → basis_of d stale_after_sec now futures spot ≡ d.zero
  unfolding basis_of fill
  basis-zero futures spot number stale =
      other_chosen futures.fresh spot.fresh _ _ _ stale ∙ rw number refl

  priced-IsPriced :
      (futures spot : Option BookTickerSnapshot) (row : PriceRow)
      → d.lt d.zero d.zero ≡ false
      → d.is_nan d.zero ≡ false
      → IsPriced futures spot (priced d stale_after_sec now row (quoted futures) (quoted spot))
  unfolding priced
  priced-IsPriced futures spot row irreflexive number =
      let f = quoted-Shows futures irreflexive in
      let s = quoted-Shows spot irreflexive in
      (
        f.0,
        s.0,
        λ stale. basis-zero (quoted futures) (quoted spot) number (rw (f.1) (rw (s.1) stale)),
        basis-nan (quoted futures) (quoted spot) number,
      )

-- After a batch of the rollup, a price row shows on each market the last complete row of its symbol
-- there, or else the snapshot of before: its bid, its ask and their difference where it is fresh, and
-- zeros where it is stale or missing. The basis is never NaN, and is zero unless both are fresh. The
-- hypotheses are that of doubles zero is not below itself and is not NaN.
pub rollup_prices-IsPriced :
    (d : Doubles) (stale_after_sec now : Float) (rows : List BookRow) (books : Books)
    (row : PriceRow)
    → d.lt d.zero d.zero ≡ false
    → d.is_nan d.zero ≡ false
    → IsPriced d stale_after_sec now
        (or_else (newest false row.symbol rows) (lookup row.symbol books.futures_book))
        (or_else (newest true row.symbol rows) (lookup row.symbol books.spot_book))
        (price_row d stale_after_sec now (update_rollup_bt rows books) row)
unfolding price_row apply_bookticker_snapshot
rollup_prices-IsPriced d stale_after_sec now rows books row irreflexive number =
    rw (sym (lookup-update_rollup_bt false row.symbol rows books)) (
      rw (sym (lookup-update_rollup_bt true row.symbol rows books))
        (priced-IsPriced d stale_after_sec now _ _ row irreflexive number))
