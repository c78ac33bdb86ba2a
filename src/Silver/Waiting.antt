-- ===== src/Silver/Waiting.antt =====
-- spark_jobs/silver_aggregator.py: the wait for Kafka ends.
use coinwhale_data_pipeline.Prelude.{
  ℕ, zero, suc, ◌+◌, ◌*◌, ◌≤◌, ◌<◌, ltb, ◌≡◌, refl, ◌⊎◌, inl, inr, Bool, true, false, if◌then◌else◌,
  arith,
}
use coinwhale_data_pipeline.Silver.Jobs.{
  Attempt, Waited, connected, failed, wait_loop, wait_for_kafka,
}

abbrev EndedWith : Waited → Type 0
EndedWith w = (w ≡ connected) ⊎ (w ≡ failed)

chosen_end :
    (b c : Bool) (later : Waited)
    → (b ≡ true → EndedWith later)
    → EndedWith (if b then if c then connected else later else failed)
chosen_end true true later ends = inl refl
chosen_end true false later ends = ends refl
chosen_end false c later ends = inr refl

in_time : (a b : ℕ) → ltb a b ≡ true → a < b
in_time a b h = ground arith

-- The loop ends when its fuel covers the time that is left, since every round takes a second or more.
wait_loop_ends :
    (fuel : ℕ) (attempts : ℕ → Attempt) (timeout_ms elapsed_ms : ℕ)
    → timeout_ms ≤ elapsed_ms + fuel * 1000
    → EndedWith (wait_loop (suc fuel) attempts timeout_ms elapsed_ms)
unfolding wait_loop
wait_loop_ends zero attempts timeout_ms elapsed_ms enough =
    chosen_end (ltb elapsed_ms timeout_ms) (attempts elapsed_ms).connects _
      λ early. let before = in_time elapsed_ms timeout_ms early in absurd (omega arith)
wait_loop_ends (suc fuel) attempts timeout_ms elapsed_ms enough =
    chosen_end (ltb elapsed_ms timeout_ms) (attempts elapsed_ms).connects _ λ early.
      wait_loop_ends fuel attempts timeout_ms (elapsed_ms + (attempts elapsed_ms).took_ms + 1000)
        (omega arith)

-- The wait for Kafka ends, by a connection or by its error, however long the attempts take: fuel of one
-- round for each second of the timeout, and one more, is enough.
pub wait_for_kafka_ends :
    (attempts : ℕ → Attempt) (timeout : ℕ)
    → (wait_for_kafka attempts timeout ≡ connected) ⊎ (wait_for_kafka attempts timeout ≡ failed)
unfolding wait_for_kafka
wait_for_kafka_ends attempts timeout =
    wait_loop_ends timeout attempts (timeout * 1000) 0 (omega arith)
