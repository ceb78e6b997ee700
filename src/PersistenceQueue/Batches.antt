-- ===== src/PersistenceQueue/Batches.antt =====
-- The bounds of the queue and of the batches, and the counter of what is handed to the flush callable.
use anime_manager.Base.{
  ℕ, ◌+◌, ◌≤◌, ◌<◌, ◌≡◌, refl, ap, sym, subst, inl, inr, Bool, true, false, not, ◌&&◌, ◌||◌, List,
  [], ◌∷◌, ◌++◌, Option, none, some, arith, if◌then◌else◌, Bool-cases, length, length-append, All,
  All-append, leb,
}
use anime_manager.PersistenceQueue.{
  State, Step, put_record, stop_worker, tick, drain_one, take_one, flush_taken, Phase, running,
  draining, exited, new_state, is_full, is_nil, put, append_record, should_flush, deadline_passed,
  flush_batch, after_record, turn, leave, run_loop, drain, take_next, end_flush, run_worker,
  run_drain, step, run, noted, safe_flush, safe_flush_now,
}

module _ {A : Type 0} where
  unfoldable pub lengths : List (List (Option A)) → ℕ
  lengths [] = 0
  lengths (l ∷ ls) = length l + lengths ls

  lengths-append : (l m : List (List (Option A))) → lengths (l ++ m) ≡ lengths l + lengths m
  unfolding lengths
  lengths-append [] m = omega arith
  lengths-append (x ∷ l) m = omega (arith, lengths-append l m)

  lengths-noted :
      (raised : Bool) (r : List (Option A)) (f l : List (List (Option A)))
      → lengths (noted (not raised) r f) + lengths (noted raised r l)
        ≡ lengths f + lengths l + length r
  unfolding noted lengths
  lengths-noted true r f l = omega (arith, lengths-append l (r ∷ []))
  lengths-noted false r f l = omega (arith, lengths-append f (r ∷ []))

  All-noted :
      (P : List (Option A) → Type 0) (b : Bool) (r : List (Option A)) (l : List (List (Option A)))
      → All P l
      → (b ≡ true → P r)
      → All P (noted b r l)
  unfolding noted
  All-noted P true r l h k = All-append P l (r ∷ []) h (k refl, tt)
  All-noted P false r l h k = h

  -- Some call of the flush callable with the batch raises.
  abbrev pub Raised : (ℕ → List (Option A) → Bool) → List (Option A) → Type 0
  Raised raises b = (k : ℕ) × (raises k b ≡ true)

  -- Between two steps the worker's batch is not full, it has handed over no batch that is larger than the
  -- size, the queue is within its bound, a batch is lost only where its flush raised, and the counter is the
  -- number of the records that were handed over, written or lost.
  pub record IsBounded (batch_size maxsize : ℕ) (s : State A) : Type 0 where
    pub batch_small : length s.batch < batch_size
    pub flushed_small : All (λ b. length b ≤ batch_size) s.flushed
    pub lost_small : All (λ b. length b ≤ batch_size) s.lost
    pub lost_raised : All (Raised s.raises) s.lost
    pub lost_now_raised : All (Raised s.raises) s.lost_now
    pub queue_small : 0 < maxsize → length s.queue ≤ maxsize
    pub processed_all :
        s.processed
        ≡ lengths s.flushed + lengths s.flushed_now + lengths s.lost + lengths s.lost_now

  module _ (batch_size max_latency maxsize : ℕ) (positive : 0 < batch_size) where
    flush_batch-IsBounded :
        (s : State A)
        → length s.batch ≤ batch_size
        → All (λ b. length b ≤ batch_size) s.flushed
        → All (λ b. length b ≤ batch_size) s.lost
        → All (Raised s.raises) s.lost
        → All (Raised s.raises) s.lost_now
        → (0 < maxsize → length s.queue ≤ maxsize)
        → s.processed
          ≡ lengths s.flushed + lengths s.flushed_now + lengths s.lost + lengths s.lost_now
        → IsBounded batch_size maxsize (flush_batch batch_size max_latency maxsize s)
    unfolding flush_batch safe_flush
    flush_batch-IsBounded s b f ls lr ln q e = record {
      batch_small = positive;
      flushed_small =
          All-noted (λ l. length l ≤ batch_size) (not (s.raises s.calls s.batch)) s.batch s.flushed
            f (λ h. b);
      lost_small =
          All-noted (λ l. length l ≤ batch_size) (s.raises s.calls s.batch) s.batch s.lost ls
            (λ h. b);
      lost_raised =
          All-noted (Raised s.raises) (s.raises s.calls s.batch) s.batch s.lost lr
            (λ h. (s.calls, h));
      lost_now_raised = ln;
      queue_small = q;
      processed_all =
          unfold lengths in
          omega (arith, lengths-noted (s.raises s.calls s.batch) s.batch s.flushed s.lost);
    }

    small_batch :
        (now : ℕ) (s : State A)
        → should_flush batch_size max_latency maxsize now s ≡ false
        → length s.batch < batch_size
    unfolding should_flush
    small_batch now s h = go s.batch h
      where
        go :
            (b : List (Option A))
            → ((if is_nil b then false else true)
                && (leb batch_size (length b) || deadline_passed now s.batch_deadline))
              ≡ false
            → length b < batch_size
        go [] e = positive
        go (x ∷ b) e = unfold is_nil in ground arith

    after_record-IsBounded :
        (now : ℕ) (s : State A)
        → length s.batch ≤ batch_size
        → All (λ b. length b ≤ batch_size) s.flushed
        → All (λ b. length b ≤ batch_size) s.lost
        → All (Raised s.raises) s.lost
        → All (Raised s.raises) s.lost_now
        → (0 < maxsize → length s.queue ≤ maxsize)
        → s.processed
          ≡ lengths s.flushed + lengths s.flushed_now + lengths s.lost + lengths s.lost_now
        → IsBounded batch_size maxsize (after_record batch_size max_latency maxsize now s)
    unfolding after_record
    after_record-IsBounded now s b f ls lr ln q e =
        elim (Bool-cases (should_flush batch_size max_latency maxsize now s)) [
          | inl due ↦ rw due (flush_batch-IsBounded s b f ls lr ln q e)
          | inr early ↦ rw early record {
            batch_small = small_batch now s early;
            flushed_small = f;
            lost_small = ls;
            lost_raised = lr;
            lost_now_raised = ln;
            queue_small = q;
            processed_all = e;
          }
        ]

    turn-IsBounded :
        (now : ℕ) (queue : List (Option A)) (s : State A)
        → s.queue ≡ queue
        → IsBounded batch_size maxsize s
        → IsBounded batch_size maxsize (turn batch_size max_latency maxsize now queue s)
    unfolding turn append_record
    turn-IsBounded now [] s e v =
        after_record-IsBounded now s (omega (arith, v.batch_small)) v.flushed_small v.lost_small
          v.lost_raised v.lost_now_raised v.queue_small v.processed_all
    turn-IsBounded now (none ∷ queue) s e v =
        after_record-IsBounded now (record s { queue = queue }) (omega (arith, v.batch_small))
          v.flushed_small v.lost_small v.lost_raised v.lost_now_raised
          (λ h. omega (arith, v.queue_small h, ap length e)) v.processed_all
    turn-IsBounded now (some x ∷ queue) s e v =
        after_record-IsBounded now
          (append_record batch_size max_latency maxsize now (some x) (record s { queue = queue }))
          (omega (arith, v.batch_small, length-append s.batch (some x ∷ []))) v.flushed_small
          v.lost_small v.lost_raised v.lost_now_raised
          (λ h. omega (arith, v.queue_small h, ap length e)) v.processed_all

    leave-IsBounded :
        (batch : List (Option A)) (s : State A)
        → IsBounded batch_size maxsize s
        → IsBounded batch_size maxsize (leave batch_size max_latency maxsize batch s)
    unfolding leave
    leave-IsBounded [] s v = record {
      batch_small = v.batch_small;
      flushed_small = v.flushed_small;
      lost_small = v.lost_small;
      lost_raised = v.lost_raised;
      lost_now_raised = v.lost_now_raised;
      queue_small = v.queue_small;
      processed_all = v.processed_all;
    }
    leave-IsBounded (r ∷ batch) s v =
        let w =
          flush_batch-IsBounded s (omega (arith, v.batch_small)) v.flushed_small v.lost_small
            v.lost_raised v.lost_now_raised v.queue_small v.processed_all in
        record {
          batch_small = w.batch_small;
          flushed_small = w.flushed_small;
          lost_small = w.lost_small;
          lost_raised = w.lost_raised;
          lost_now_raised = w.lost_now_raised;
          queue_small = w.queue_small;
          processed_all = w.processed_all;
        }

    run_loop-IsBounded :
        (now : ℕ) (s : State A)
        → IsBounded batch_size maxsize s
        → IsBounded batch_size maxsize (run_loop batch_size max_latency maxsize now s)
    unfolding run_loop
    run_loop-IsBounded now s v = elim (Bool-cases s.stop_event) [
      | inl stopped ↦
          subst
            (λ b. IsBounded batch_size maxsize (
              if b
              then leave batch_size max_latency maxsize s.batch s
              else turn batch_size max_latency maxsize now s.queue s))
            (sym stopped) (leave-IsBounded s.batch s v)
      | inr going ↦
          subst
            (λ b. IsBounded batch_size maxsize (
              if b
              then leave batch_size max_latency maxsize s.batch s
              else turn batch_size max_latency maxsize now s.queue s))
            (sym going) (turn-IsBounded now s.queue s refl v)
    ]

    run_worker-IsBounded :
        (now : ℕ) (phase : Phase) (s : State A)
        → IsBounded batch_size maxsize s
        → IsBounded batch_size maxsize (run_worker batch_size max_latency maxsize now phase s)
    unfolding run_worker
    run_worker-IsBounded now running s v = run_loop-IsBounded now s v
    run_worker-IsBounded now draining s v = v
    run_worker-IsBounded now exited s v = v

    drain-IsBounded :
        (queue : List (Option A)) (s : State A)
        → s.queue ≡ queue
        → IsBounded batch_size maxsize s
        → IsBounded batch_size maxsize (drain batch_size max_latency maxsize queue s)
    unfolding drain safe_flush
    drain-IsBounded [] s e v = record {
      batch_small = v.batch_small;
      flushed_small = v.flushed_small;
      lost_small = v.lost_small;
      lost_raised = v.lost_raised;
      lost_now_raised = v.lost_now_raised;
      queue_small = v.queue_small;
      processed_all = v.processed_all;
    }
    drain-IsBounded (r ∷ queue) s e v = record {
      batch_small = v.batch_small;
      flushed_small =
          All-noted (λ l. length l ≤ batch_size) (not (s.raises s.calls (r ∷ []))) (r ∷ [])
            s.flushed v.flushed_small (λ h. positive);
      lost_small =
          All-noted (λ l. length l ≤ batch_size) (s.raises s.calls (r ∷ [])) (r ∷ []) s.lost
            v.lost_small (λ h. positive);
      lost_raised =
          All-noted (Raised s.raises) (s.raises s.calls (r ∷ [])) (r ∷ []) s.lost v.lost_raised
            (λ h. (s.calls, h));
      lost_now_raised = v.lost_now_raised;
      queue_small = λ h. omega (arith, v.queue_small h, ap length e);
      processed_all =
          unfold lengths in
          omega (
            arith,
            v.processed_all,
            lengths-noted (s.raises s.calls (r ∷ [])) (r ∷ []) s.flushed s.lost,
          );
    }

    run_drain-IsBounded :
        (phase : Phase) (s : State A)
        → IsBounded batch_size maxsize s
        → IsBounded batch_size maxsize (run_drain batch_size max_latency maxsize phase s)
    unfolding run_drain
    run_drain-IsBounded running s v = v
    run_drain-IsBounded draining s v = drain-IsBounded s.queue s refl v
    run_drain-IsBounded exited s v = v

    take_next-IsBounded :
        (queue : List (Option A)) (s : State A)
        → s.queue ≡ queue
        → IsBounded batch_size maxsize s
        → IsBounded batch_size maxsize (take_next batch_size max_latency maxsize queue s)
    unfolding take_next
    take_next-IsBounded [] s e v = v
    take_next-IsBounded (r ∷ queue) s e v = record {
      batch_small = v.batch_small;
      flushed_small = v.flushed_small;
      lost_small = v.lost_small;
      lost_raised = v.lost_raised;
      lost_now_raised = v.lost_now_raised;
      queue_small = λ h. omega (arith, v.queue_small h, ap length e);
      processed_all = v.processed_all;
    }

    end_flush-IsBounded :
        (taken : List (Option A)) (s : State A)
        → IsBounded batch_size maxsize s
        → IsBounded batch_size maxsize (end_flush batch_size max_latency maxsize taken s)
    unfolding end_flush safe_flush_now
    end_flush-IsBounded [] s v = v
    end_flush-IsBounded (r ∷ taken) s v = record {
      batch_small = v.batch_small;
      flushed_small = v.flushed_small;
      lost_small = v.lost_small;
      lost_raised = v.lost_raised;
      lost_now_raised =
          All-noted (Raised s.raises) (s.raises s.calls (r ∷ taken)) (r ∷ taken) s.lost_now
            v.lost_now_raised (λ h. (s.calls, h));
      queue_small = v.queue_small;
      processed_all =
          unfold lengths in
          omega (
            arith,
            v.processed_all,
            lengths-noted (s.raises s.calls (r ∷ taken)) (r ∷ taken) s.flushed_now s.lost_now,
          );
    }

    put-IsBounded :
        (r : Option A) (s : State A) (b : Bool)
        → is_full batch_size max_latency maxsize s ≡ b
        → IsBounded batch_size maxsize s
        → IsBounded batch_size maxsize (put batch_size max_latency maxsize r s).1
    unfolding put
    put-IsBounded r s true e v = rw e record {
      batch_small = v.batch_small;
      flushed_small = v.flushed_small;
      lost_small = v.lost_small;
      lost_raised = v.lost_raised;
      lost_now_raised = v.lost_now_raised;
      queue_small = v.queue_small;
      processed_all = v.processed_all;
    }
    put-IsBounded r s false e v = rw e record {
      batch_small = v.batch_small;
      flushed_small = v.flushed_small;
      lost_small = v.lost_small;
      lost_raised = v.lost_raised;
      lost_now_raised = v.lost_now_raised;
      queue_small = λ h. room h (length-append s.queue (r ∷ []));
      processed_all = v.processed_all;
    }
      where
        room :
            0 < maxsize
            → length (s.queue ++ r ∷ []) ≡ length s.queue + 1
            → length (s.queue ++ r ∷ []) ≤ maxsize
        room h l = fits e
          where
            fits :
                is_full batch_size max_latency maxsize s ≡ false
                → length (s.queue ++ r ∷ []) ≤ maxsize
            fits f = unfold is_full in ground arith

    step-IsBounded :
        (x : Step A) (s : State A)
        → IsBounded batch_size maxsize s
        → IsBounded batch_size maxsize (step batch_size max_latency maxsize x s).1
    unfolding step
    step-IsBounded (put_record r) s v =
        put-IsBounded r s (is_full batch_size max_latency maxsize s) refl v
    step-IsBounded stop_worker s v = record {
      batch_small = v.batch_small;
      flushed_small = v.flushed_small;
      lost_small = v.lost_small;
      lost_raised = v.lost_raised;
      lost_now_raised = v.lost_now_raised;
      queue_small = v.queue_small;
      processed_all = v.processed_all;
    }
    step-IsBounded (tick now) s v = run_worker-IsBounded now s.phase s v
    step-IsBounded drain_one s v = run_drain-IsBounded s.phase s v
    step-IsBounded take_one s v = take_next-IsBounded s.queue s refl v
    step-IsBounded flush_taken s v = end_flush-IsBounded s.taken s v

    run_from-IsBounded :
        (steps : List (Step A)) (s : State A)
        → IsBounded batch_size maxsize s
        → IsBounded batch_size maxsize (run batch_size max_latency maxsize steps s).1
    unfolding run
    run_from-IsBounded [] s v = v
    run_from-IsBounded (x ∷ steps) s v =
        run_from-IsBounded steps (step batch_size max_latency maxsize x s).1 (step-IsBounded x s v)

    -- With a positive batch size, in every interleaving of the steps from a new queue: the worker's batch is
    -- smaller than the size, every batch that the worker has handed to the flush callable is at most so
    -- large, the queue is within its bound if it has one, a batch is lost only where its flush raised, and
    -- the counter is the number of the records that were handed to the flush callable, whether they were
    -- written or lost.
    pub run-IsBounded :
        (raises : ℕ → List (Option A) → Bool) (steps : List (Step A))
        → IsBounded batch_size maxsize
            (run batch_size max_latency maxsize steps (new_state raises)).1
    run-IsBounded raises steps = run_from-IsBounded steps (new_state raises) start
      where
        start : IsBounded batch_size maxsize (new_state raises)
        start =
            unfold new_state lengths in
            record {
              batch_small = positive;
              flushed_small = tt;
              lost_small = tt;
              lost_raised = tt;
              lost_now_raised = tt;
              queue_small = λ h. omega arith;
              processed_all = refl;
            }
