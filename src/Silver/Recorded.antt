-- ===== src/Silver/Recorded.antt =====
-- spark_jobs/silver: which topics pass the gate in the started queries, and which of them the started
-- quality queries record.
use coinwhale_data_pipeline.Prelude.{
  ◌≡◌, refl, sym, ap, ◌∙◌, String, Bool, true, false, Option, none, some, inl, inr, List, [], ◌∷◌,
  ◌++◌, ◌=ˢ◌, if◌then◌else◌, Bool-cases, arith,
}
use mathlib.Core.List.{append_assoc, append-nil}
use coinwhale_data_pipeline.Gate.{gate_mode}
use coinwhale_data_pipeline.Gate.Topics.{is_hot_path_topic}
use coinwhale_data_pipeline.Silver.Guarded.{gates}
use coinwhale_data_pipeline.Silver.Plans.{
  Plan, read_from_kafka, parsed, group_of, process_quality_batch, update_spot_bt, Query, Job, Env,
  Start, base_start, cvd_start, ls_ratio_start, price_start, dq_topic_of, apply_quality_gate,
  has_flag, prepare_for_aggregate, output_query, quality_query, start_base, start_cvd_rollup,
  trades, start_cvd_trades, start_ls_ratio, book_query, book_queries, start_price, start_by, start,
}

-- The topic, under the name that a table gives it, if it is one of the hot topics.
abbrev hot_topic : Job → String → List String
hot_topic job topic =
    if is_hot_path_topic (some (dq_topic_of job topic)) then dq_topic_of job topic ∷ [] else []

-- The topics whose rows pass the gate on their way to a table or a book.
abbrev gated_by : Query → List String
gated_by q = elim q.sink [ process_quality_batch topic checkpoint ↦ [] | _ ↦ gates q.frame ]

abbrev pub gated_topics : List Query → List String
gated_topics [] = []
gated_topics (q ∷ queries) = gated_by q ++ gated_topics queries

-- The topics whose quality is recorded: `process_quality_batch` returns for a topic that is not hot.
abbrev recorded_by : Job → Query → List String
recorded_by job q = elim q.sink [
  | process_quality_batch topic checkpoint ↦ hot_topic job topic
  | _ ↦ []
]

abbrev pub recorded_topics : Job → List Query → List String
recorded_topics job [] = []
recorded_topics job (q ∷ queries) = recorded_by job q ++ recorded_topics job queries

-- The topics of the books of quotes, which only the price table has.
abbrev pub book_topics : Env → Job → Start → List String
book_topics env job price_start =
    if env.use_bookticker_rollup
    then hot_topic job env.bookticker_rollup_topic
    else hot_topic job "binance-bookticker" ++ hot_topic job "spot-bookticker"
book_topics env job _ = []

gated-append : (qs rs : List Query) → gated_topics (qs ++ rs) ≡ gated_topics qs ++ gated_topics rs
gated-append [] rs = refl
gated-append (q ∷ qs) rs =
    ap (λ ts. gated_by q ++ ts) (gated-append qs rs) ∙ sym (append_assoc (gated_by q) _ _)

recorded-append :
    (job : Job) (qs rs : List Query)
    → recorded_topics job (qs ++ rs) ≡ recorded_topics job qs ++ recorded_topics job rs
recorded-append job [] rs = refl
recorded-append job (q ∷ qs) rs =
    ap (λ ts. recorded_by job q ++ ts) (recorded-append job qs rs)
    ∙ sym (append_assoc (recorded_by job q) _ _)

gated_chosen :
    (b : Bool) (qs rs : List Query) (ts us : List String)
    → gated_topics qs ≡ ts
    → gated_topics rs ≡ us
    → gated_topics (if b then qs else rs) ≡ (if b then ts else us)
gated_chosen true qs rs ts us first second = first
gated_chosen false qs rs ts us first second = second

recorded_chosen :
    (job : Job) (b : Bool) (qs rs : List Query)
    → recorded_topics job qs ≡ []
    → recorded_topics job rs ≡ []
    → recorded_topics job (if b then qs else rs) ≡ []
recorded_chosen job true qs rs first second = first
recorded_chosen job false qs rs first second = second

module _ (env : Env) (job : Job) where
  gates-prepare_for_aggregate : (p : Plan) → gates (prepare_for_aggregate env p) ≡ gates p
  unfolding prepare_for_aggregate
  gates-prepare_for_aggregate p = elim (Bool-cases (has_flag p)) [
    | inl flagged ↦ rw flagged (elim (Bool-cases (gate_mode env.dq_mode =ˢ "observe")) [
      | inl observed ↦ rw observed refl
      | inr strict ↦ rw strict refl
    ])
    | inr bare ↦ rw bare refl
  ]

  -- A frame that passed no gate before passes that of its topic.
  gates-gate :
      (topic : String) (p : Plan)
      → gates p ≡ []
      → gates (prepare_for_aggregate env (apply_quality_gate job topic p)) ≡ hot_topic job topic
  unfolding apply_quality_gate
  gates-gate topic p free =
      gates-prepare_for_aggregate (apply_quality_gate job topic p)
      ∙ (elim (Bool-cases (is_hot_path_topic (some (dq_topic_of job topic)))) [
        | inl hot ↦ rw hot (ap (λ ts. dq_topic_of job topic ∷ ts) free)
        | inr cold ↦ rw cold free
      ])

  -- The topics of some queries that pass the gate are those of books, and the recorded ones.
  abbrev RecordedBut : List String → List Query → Type 0
  RecordedBut books queries = gated_topics queries ≡ books ++ recorded_topics job queries

  own_topic : dq_topic_of job job.topic ≡ job.topic
  unfolding dq_topic_of
  own_topic = ground arith

  cold_topic : is_hot_path_topic (some job.topic) ≡ false → hot_topic job job.topic ≡ []
  cold_topic cold = rw own_topic (rw cold refl)

  -- The frame of a table's own topic.
  abbrev own_frame : Option String → Plan
  own_frame group =
      parsed job.parser
        (read_from_kafka job.topic (env.max_offsets job.checkpoint none "1000") group)

  start_base-Recorded : RecordedBut [] (start_base env job)
  unfolding start_base output_query quality_query
  start_base-Recorded =
      let gated = gates-gate job.topic (own_frame (group_of env job)) refl in
      elim (Bool-cases (is_hot_path_topic (some job.topic))) [
        | inl hot ↦ rw hot (ap (λ ts. ts ++ []) gated)
        | inr cold ↦ rw cold (ap (λ ts. ts ++ []) (gated ∙ cold_topic cold))
      ]

  start_cvd_rollup-Recorded : RecordedBut [] (start_cvd_rollup env job)
  unfolding start_cvd_rollup output_query quality_query
  start_cvd_rollup-Recorded = ap (λ ts. ts ++ []) (gates-gate env.trade_rollup_topic _ refl)

  start_cvd_trades-Recorded : RecordedBut [] (start_cvd_trades env job)
  unfolding start_cvd_trades output_query quality_query trades
  start_cvd_trades-Recorded =
      ap
        (λ ts.
          (ts
            ++ gates (
                prepare_for_aggregate env (
                  trades env job "spot-trade" "parse_spot_trade_data" "spot" env.spot_max_offsets)))
          ++ [])
        (gates-gate "binance-trade" _ refl)
      ∙ ap (λ ts. (hot_topic job "binance-trade" ++ ts) ++ []) (gates-gate "spot-trade" _ refl)
      ∙ append_assoc (hot_topic job "binance-trade") _ _

  start_ls_ratio-Recorded : RecordedBut [] (start_ls_ratio env job)
  unfolding start_ls_ratio output_query
  start_ls_ratio-Recorded = refl

  book_queries-gated : gated_topics (book_queries env job) ≡ book_topics env job price_start
  unfolding book_queries book_query
  book_queries-gated =
      gated_chosen env.use_bookticker_rollup _ _ _ _
        (ap (λ ts. ts ++ []) (gates-gate env.bookticker_rollup_topic _ refl) ∙ append-nil _)
        (ap
            (λ ts.
              ts
              ++ gated_topics (
                  book_query env job "spot-bookticker" "parse_bookticker_data"
                    "/opt/spark/work-dir/checkpoints/stream-price-sbt" env.bookticker_max_offsets
                    env.bookticker_trigger_interval update_spot_bt
                  ∷ []))
            (gates-gate "binance-bookticker" _ refl)
          ∙ ap (λ ts. hot_topic job "binance-bookticker" ++ (ts ++ []))
              (gates-gate "spot-bookticker" _ refl)
          ∙ ap (λ ts. hot_topic job "binance-bookticker" ++ ts) (append-nil _))

  book_queries-recorded : recorded_topics job (book_queries env job) ≡ []
  unfolding book_queries book_query
  book_queries-recorded = recorded_chosen job env.use_bookticker_rollup _ _ refl refl

  start_price-Recorded : RecordedBut (book_topics env job price_start) (start_price env job)
  unfolding start_price output_query quality_query
  start_price-Recorded =
      let own = gates-gate job.topic (own_frame none) refl in
      gated-append (book_queries env job) _
      ∙ ap
          (λ ts.
            ts
            ++ (gates
                  (prepare_for_aggregate env (apply_quality_gate job job.topic (own_frame none)))
                ++ []))
          book_queries-gated
      ∙ ap (λ ts. book_topics env job price_start ++ (ts ++ [])) own
      ∙ ap (λ ts. book_topics env job price_start ++ ts)
          (sym (
            recorded-append job (book_queries env job) _
            ∙ ap (λ ts. ts ++ (hot_topic job job.topic ++ [])) book_queries-recorded))

  start_by-Recorded : (s : Start) → RecordedBut (book_topics env job s) (start_by env job s)
  unfolding start_by
  start_by-Recorded base_start = start_base-Recorded
  start_by-Recorded cvd_start =
      elim env.use_trade_rollup
        as (λ b.
          RecordedBut [] (if b then start_cvd_rollup env job else start_cvd_trades env job)) [
            | true ↦ start_cvd_rollup-Recorded
            | false ↦ start_cvd_trades-Recorded
          ]
  start_by-Recorded ls_ratio_start = start_ls_ratio-Recorded
  start_by-Recorded price_start = start_price-Recorded

-- For a table that is enabled, the hot topics whose rows pass the gate on their way to its rows or books
-- are, in their order, those whose quality its queries record, except for the price table: the topics of its
-- books, which are the rollup of quotes or the two bookticker topics, pass the gate and are not recorded.
pub gated_topics_are_recorded :
    (env : Env) (job : Job)
    → job.enabled ≡ true
    → gated_topics (start env job)
      ≡ book_topics env job job.starter ++ recorded_topics job (start env job)
unfolding start
gated_topics_are_recorded env job enabled = rw enabled (start_by-Recorded env job job.starter)
