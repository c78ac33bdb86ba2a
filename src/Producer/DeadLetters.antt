-- ===== src/Producer/DeadLetters.antt =====
-- common/kafka_utils.py: what becomes of a message that fails.
use coinwhale_data_pipeline.Prelude.{
  ◌≡◌, refl, ap, ◌∙◌, ◌⊎◌, String, Bool, true, false, Option, List, [], ◌∷◌, ◌++◌, arith,
  if◌then◌else◌, ◌=ˢ◌, ◌||◌, ◌&&◌, eq_iff,
}
use coinwhale_data_pipeline.Producer.{
  confluent, Body, event, dead, Message, Producer, accept, classify_error, decrement_pending,
  record_delivery_success, record_delivery_failure,
}
use coinwhale_data_pipeline.Producer.Dlq.{
  Answer, Report, is_confluent, FailureEnv, poll, serve, on_delivery, reported, handle_in_callback,
  record_dlq_delivery_failure, fallback_row, dlq_handler, dlq_in_callback, count_dlq_failure,
  write_fallback, dead_letter, produce_dead_letter, handle_delivery_failure,
}
use coinwhale_data_pipeline.Producer.BadRow.{send_bad_row, bad_row}

reported-produced :
    (r : Report) (e : Option String) (p : Producer) → (reported r e p).produced ≡ p.produced
unfolding reported record_delivery_success record_delivery_failure decrement_pending
    handle_in_callback dlq_in_callback dlq_handler write_fallback count_dlq_failure
reported-produced r e p = ground arith

serve-produced : (r : Report) (b : Body) (p : Producer) → (serve r b p).produced ≡ p.produced
unfolding serve on_delivery record_dlq_delivery_failure write_fallback count_dlq_failure
serve-produced r (event v) p =
    reported-produced r r.error (record p { in_delivery_callback = true })
serve-produced r (dead d) p = ground arith

-- The delivery callbacks that a poll runs hand no message to the client.
pub poll_produces_nothing : (rs : List Report) (p : Producer) → (poll rs p).produced ≡ p.produced
unfolding poll
poll_produces_nothing [] p = refl
poll_produces_nothing (r ∷ rs) p =
    poll_produces_nothing rs (serve r r.message.body p) ∙ serve-produced r r.message.body p

-- A failure of a message of the dead-letter topic is only counted: no dead letter of a dead letter,
-- whatever the client and the file system answer.
pub no_dead_letter_loop :
    (env : FailureEnv) (m : Message) (e : String) (p : Producer)
    → m.topic ≡ p.dlq_topic
    → handle_delivery_failure env m e p ≡ count_dlq_failure p
unfolding handle_delivery_failure
no_dead_letter_loop env m e p same =
    let found = (eq_iff m.topic p.dlq_topic).1 same in
    ap
      (λ b.
        if b
        then count_dlq_failure p
        else if is_confluent p.backend && p.in_delivery_callback
        then dlq_in_callback m (classify_error e) env.first_write env.second_write p
        else produce_dead_letter env m (classify_error e) p)
      found

in_callback-kept :
    (m : Message) (t : String) (first second : Bool) (p : Producer)
    → first || second ≡ true
    → (dlq_in_callback m t first second p).fallback ≡ p.fallback ++ fallback_row m t ∷ []
unfolding dlq_in_callback dlq_handler write_fallback count_dlq_failure
in_callback-kept m t first second p written = ground arith

produce-kept :
    (env : FailureEnv) (m : Message) (t : String) (p : Producer)
    → env.second_write ≡ true
    → ((produce_dead_letter env m t p).produced ≡ p.produced ++ dead_letter p.dlq_topic m t ∷ [])
      ⊎ ((produce_dead_letter env m t p).fallback ≡ p.fallback ++ fallback_row m t ∷ [])
unfolding produce_dead_letter dlq_handler write_fallback count_dlq_failure accept
produce-kept env m t p written =
    let polled = poll_produces_nothing env.reports (accept (dead_letter p.dlq_topic m t) p) in
    ground arith

-- A failed message of another topic than the dead letters' own leaves a trace with the class of its
-- error: the dead letter is the newest message at the client, or its row the newest of the fallback
-- file, provided that the file can be written at the second try.
pub failure_leaves_a_trace :
    (env : FailureEnv) (m : Message) (e : String) (p : Producer)
    → m.topic =ˢ p.dlq_topic ≡ false
    → env.second_write ≡ true
    → ((handle_delivery_failure env m e p).produced
        ≡ p.produced ++ dead_letter p.dlq_topic m (classify_error e) ∷ [])
      ⊎ ((handle_delivery_failure env m e p).fallback
          ≡ p.fallback ++ fallback_row m (classify_error e) ∷ [])
unfolding handle_delivery_failure
failure_leaves_a_trace env m e p other written =
    let produced = produce-kept env m (classify_error e) p written in
    let in_callback =
      in_callback-kept m (classify_error e) env.first_write env.second_write p (ground arith) in
    ground arith

-- The callback of a message is the general handling of a failure with the flag set, on
-- confluent-kafka, whatever a client would have answered: the branch that produces is not taken.
pub handle_in_callback_lem :
    (answer : Answer) (rs : List Report) (r : Report) (e : String) (p : Producer)
    → p.backend ≡ confluent
    → p.in_delivery_callback ≡ true
    → handle_delivery_failure
        (record {
          answer = answer;
          reports = rs;
          first_write = r.first_write;
          second_write = r.second_write;
        })
        r.message
        e
        p
      ≡ handle_in_callback r e p
unfolding handle_delivery_failure handle_in_callback
handle_in_callback_lem answer rs r e p backend inside = ground arith

-- A bad row is never lost silently either: its dead letter or its fallback row is the newest, on a
-- closed producer too, provided that the fallback file can be written.
pub bad_row_leaves_a_trace :
    (env : FailureEnv) (topic type : String) (key collector : Option String) (p : Producer)
    → env.first_write ≡ true
    → env.second_write ≡ true
    → ((send_bad_row env topic type key collector p).produced
        ≡ p.produced ++ dead_letter p.dlq_topic (bad_row topic key collector) type ∷ [])
      ⊎ ((send_bad_row env topic type key collector p).fallback
          ≡ p.fallback ++ fallback_row (bad_row topic key collector) type ∷ [])
unfolding send_bad_row dlq_handler write_fallback count_dlq_failure
bad_row_leaves_a_trace env topic type key collector p first second =
    let produced = produce-kept env (bad_row topic key collector) type p second in ground arith
