-- ===== src/PersistenceQueue/Tests.antt =====
-- Two producers' records, batches of two, and the theorems of the queue at them.
use anime_manager.Base.{
  ℕ, ◌+◌, ◌≡◌, refl, Bool, false, List, [], ◌∷◌, Option, none, some, arith, length, ◌==◌,
}
use anime_manager.PersistenceQueue.{
  State, Step, put_record, stop_worker, tick, drain_one, running, exited, new_state, step, run,
}
use anime_manager.PersistenceQueue.Conserved.{count, count_all, total, run-total}
use anime_manager.PersistenceQueue.Batches.{IsBounded, run-IsBounded}
use anime_manager.PersistenceQueue.Drained.{stopping, stopping-written}

-- A bound of three: the fourth record is dropped.
abbrev steps : List (Step ℕ)
steps =
    put_record (some 4)
    ∷ put_record (some 5)
    ∷ put_record (some 6)
    ∷ put_record (some 7)
    ∷ tick 10
    ∷ tick 11
    ∷ tick 12
    ∷ put_record (some 8)
    ∷ []

-- A flush callable that never raises, and one that raises in its first call.
abbrev calm : ℕ → List (Option ℕ) → Bool
calm k b = false

abbrev raises_once : ℕ → List (Option ℕ) → Bool
raises_once k b = k == 0

abbrev after : State ℕ
after = (run 2 250 3 steps (new_state calm)).1

batches : after.flushed ≡ (some 4 ∷ some 5 ∷ []) ∷ []
unfolding run step new_state
batches = refl

one_dropped : after.dropped ≡ 1
unfolding run step new_state
one_dropped = refl

abbrev is_eight : Option ℕ → Bool
is_eight none = false
is_eight (some n) = n == 8

run-total_example :
    total is_eight after
    ≡ total is_eight (new_state calm) + count is_eight (run 2 250 3 steps (new_state calm)).0
run-total_example = run-total 2 250 3 is_eight refl steps (new_state calm)

run-IsBounded_example : IsBounded 2 3 after
run-IsBounded_example = run-IsBounded 2 250 3 (omega arith) calm steps

in_loop : after.phase ≡ running
unfolding run step new_state
in_loop = refl

idle : after.taken ≡ []
unfolding run step new_state
idle = refl

stopping-written_example :
    let t = (run 2 250 3 (stopping (length after.queue)) after).1 in
    (t.phase ≡ exited)
    × (count_all is_eight t.flushed
          + count_all is_eight t.flushed_now
          + count_all is_eight t.lost
          + count_all is_eight t.lost_now
        ≡ count is_eight (run 2 250 3 steps (new_state calm)).0)
stopping-written_example = stopping-written 2 250 3 calm is_eight steps refl in_loop idle

-- A record None is accepted and written nowhere.
none_lost :
    (run {A = ℕ} 2 250 3
      (put_record none ∷ tick 10 ∷ stop_worker ∷ tick 20 ∷ drain_one ∷ [])
      (new_state calm)).1.flushed
    ≡ []
unfolding run step new_state
none_lost = refl

-- The batch of a flush that raises is lost but counted, and the worker goes on.
abbrev failing : State ℕ
failing =
    (run 1 50 10 (put_record (some 1) ∷ put_record (some 2) ∷ tick 10 ∷ tick 11 ∷ [])
      (new_state raises_once)).1

first_lost : failing.lost ≡ (some 1 ∷ []) ∷ []
unfolding run step new_state
first_lost = refl

second_written : failing.flushed ≡ (some 2 ∷ []) ∷ []
unfolding run step new_state
second_written = refl

both_counted : failing.processed ≡ 2
unfolding run step new_state
both_counted = refl
