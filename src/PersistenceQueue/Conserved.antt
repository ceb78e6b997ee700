-- ===== src/PersistenceQueue/Conserved.antt =====
-- Where an accepted record is.
use anime_manager.Base.{
  ℕ, ◌+◌, ◌≡◌, refl, ap, Bool, true, false, not, List, [], ◌∷◌, ◌++◌, Option, none, some, arith,
  if◌then◌else◌,
}
use anime_manager.PersistenceQueue.{
  State, Step, put_record, stop_worker, tick, drain_one, take_one, flush_taken, Phase, running,
  draining, exited, is_full, put, append_record, flush_batch, after_record, turn, leave, run_loop,
  drain, take_next, end_flush, run_worker, run_drain, step, run, noted, safe_flush, safe_flush_now,
}

module _ {A : Type 0} where
  -- How many of the records pass the test.
  unfoldable pub count : (Option A → Bool) → List (Option A) → ℕ
  count p [] = 0
  count p (x ∷ l) = (if p x then 1 else 0) + count p l

  unfoldable pub count_all : (Option A → Bool) → List (List (Option A)) → ℕ
  unfolding count
  count_all p [] = 0
  count_all p (l ∷ ls) = count p l + count_all p ls

  -- The records that are anywhere: written, lost with a raising flush, in a batch, taken by a call or
  -- waiting.
  unfoldable pub total : (Option A → Bool) → State A → ℕ
  unfolding count count_all
  total p s =
      count_all p s.flushed
      + count_all p s.flushed_now
      + count_all p s.lost
      + count_all p s.lost_now
      + count p s.batch
      + count p s.taken
      + count p s.queue

  count-append :
      (p : Option A → Bool) (l m : List (Option A)) → count p (l ++ m) ≡ count p l + count p m
  unfolding count
  count-append p [] m = omega arith
  count-append p (x ∷ l) m = omega (arith, count-append p l m)

  count_all-append :
      (p : Option A → Bool) (l m : List (List (Option A)))
      → count_all p (l ++ m) ≡ count_all p l + count_all p m
  unfolding count_all
  count_all-append p [] m = omega arith
  count_all-append p (x ∷ l) m = omega (arith, count_all-append p l m)

  -- A flush writes its batch or loses it.
  count_all-noted :
      (p : Option A → Bool) (raised : Bool) (r : List (Option A)) (f l : List (List (Option A)))
      → count_all p (noted (not raised) r f) + count_all p (noted raised r l)
        ≡ count_all p f + count_all p l + count p r
  unfolding noted count_all
  count_all-noted p true r f l = omega (arith, count_all-append p l (r ∷ []))
  count_all-noted p false r f l = omega (arith, count_all-append p f (r ∷ []))

  module _ (batch_size max_latency maxsize : ℕ) (p : Option A → Bool) (real : p none ≡ false) where
    flush_batch-total :
        (s : State A) → total p (flush_batch batch_size max_latency maxsize s) ≡ total p s
    unfolding flush_batch total safe_flush
    flush_batch-total s =
        omega (arith, count_all-noted p (s.raises s.calls s.batch) s.batch s.flushed s.lost)

    append_record-total :
        (now : ℕ) (r : Option A) (s : State A)
        → total p (append_record batch_size max_latency maxsize now r s)
          ≡ total p s + count p (r ∷ [])
    unfolding append_record total
    append_record-total now none s = ground (arith, real)
    append_record-total now (some x) s = omega (arith, count-append p s.batch (some x ∷ []))

    after_record-total :
        (now : ℕ) (s : State A)
        → total p (after_record batch_size max_latency maxsize now s) ≡ total p s
    unfolding after_record
    after_record-total now s = ground (arith, flush_batch-total s)

    turn-total :
        (now : ℕ) (queue : List (Option A)) (s : State A)
        → s.queue ≡ queue
        → total p (turn batch_size max_latency maxsize now queue s) ≡ total p s
    unfolding turn total count
    turn-total now [] s e = after_record-total now s
    turn-total now (r ∷ queue) s e =
        let popped : State A = record s { queue = queue } in
        omega (
          arith,
          after_record-total now (append_record batch_size max_latency maxsize now r popped),
          append_record-total now r popped,
          ap (count p) e,
        )

    leave-total :
        (batch : List (Option A)) (s : State A)
        → total p (leave batch_size max_latency maxsize batch s) ≡ total p s
    unfolding leave total
    leave-total [] s = refl
    leave-total (r ∷ batch) s = flush_batch-total s

    run_loop-total :
        (now : ℕ) (s : State A)
        → total p (run_loop batch_size max_latency maxsize now s) ≡ total p s
    unfolding run_loop
    run_loop-total now s = ground (arith, leave-total s.batch s, turn-total now s.queue s refl)

    run_worker-total :
        (now : ℕ) (phase : Phase) (s : State A)
        → total p (run_worker batch_size max_latency maxsize now phase s) ≡ total p s
    unfolding run_worker
    run_worker-total now running s = run_loop-total now s
    run_worker-total now draining s = refl
    run_worker-total now exited s = refl

    drain-total :
        (queue : List (Option A)) (s : State A)
        → s.queue ≡ queue
        → total p (drain batch_size max_latency maxsize queue s) ≡ total p s
    unfolding drain total count count_all safe_flush
    drain-total [] s e = refl
    drain-total (r ∷ queue) s e = omega (
      arith,
      count_all-noted p (s.raises s.calls (r ∷ [])) (r ∷ []) s.flushed s.lost,
      ap (count p) e,
    )

    run_drain-total :
        (phase : Phase) (s : State A)
        → total p (run_drain batch_size max_latency maxsize phase s) ≡ total p s
    unfolding run_drain
    run_drain-total running s = refl
    run_drain-total draining s = drain-total s.queue s refl
    run_drain-total exited s = refl

    take_next-total :
        (queue : List (Option A)) (s : State A)
        → s.queue ≡ queue
        → total p (take_next batch_size max_latency maxsize queue s) ≡ total p s
    unfolding take_next total count
    take_next-total [] s e = refl
    take_next-total (r ∷ queue) s e = omega (arith, count-append p s.taken (r ∷ []), ap (count p) e)

    end_flush-total :
        (taken : List (Option A)) (s : State A)
        → s.taken ≡ taken
        → total p (end_flush batch_size max_latency maxsize taken s) ≡ total p s
    unfolding end_flush total safe_flush_now count_all count
    end_flush-total [] s e = refl
    end_flush-total (r ∷ taken) s e = omega (
      arith,
      count_all-noted p (s.raises s.calls (r ∷ taken)) (r ∷ taken) s.flushed_now s.lost_now,
      ap (count p) e,
    )

    put-total :
        (r : Option A) (s : State A) (b : Bool)
        → is_full batch_size max_latency maxsize s ≡ b
        → total p (step batch_size max_latency maxsize (put_record r) s).1
          ≡ total p s + count p (step batch_size max_latency maxsize (put_record r) s).0
    unfolding step put
    put-total r s true e = rw e (unfold total count in omega arith)
    put-total r s false e =
        rw e (unfold total count in omega (arith, count-append p s.queue (r ∷ [])))

    step-total :
        (x : Step A) (s : State A)
        → total p (step batch_size max_latency maxsize x s).1
          ≡ total p s + count p (step batch_size max_latency maxsize x s).0
    unfolding step count
    step-total (put_record r) s = put-total r s (is_full batch_size max_latency maxsize s) refl
    step-total stop_worker s = unfold total in omega arith
    step-total (tick now) s = omega (arith, run_worker-total now s.phase s)
    step-total drain_one s = omega (arith, run_drain-total s.phase s)
    step-total take_one s = omega (arith, take_next-total s.queue s refl)
    step-total flush_taken s = omega (arith, end_flush-total s.taken s refl)

    -- In every interleaving of the steps each record that is accepted is in one place, as often as it was
    -- put: written by the worker or a call, lost with a batch whose flush raised, in the batch, taken by a
    -- call or waiting. None, which the worker takes for an empty queue, is excepted.
    pub run-total :
        (steps : List (Step A)) (s : State A)
        → total p (run batch_size max_latency maxsize steps s).1
          ≡ total p s + count p (run batch_size max_latency maxsize steps s).0
    unfolding run
    run-total [] s = unfold count in omega arith
    run-total (x ∷ steps) s =
        let now = step batch_size max_latency maxsize x s in
        omega (
          arith,
          step-total x s,
          run-total steps now.1,
          count-append p now.0 (run batch_size max_latency maxsize steps now.1).0,
        )
