-- ===== src/PersistenceQueue/Drained.antt =====
-- What a stop leaves behind.
use anime_manager.Base.{
  ℕ, zero, suc, ◌+◌, ◌≡◌, refl, ap, sym, subst, ◌∙◌, Bool, true, false, List, [], ◌∷◌, Option, none,
  arith, length,
}
use anime_manager.PersistenceQueue.{
  State, Step, stop_worker, tick, drain_one, running, draining, exited, new_state, flush_batch,
  leave, run_loop, drain, run_worker, run_drain, step, run, safe_flush,
}
use anime_manager.PersistenceQueue.Conserved.{count, count_all, total, run-total}

module _ {A : Type 0} where
  -- Turns of the loop that empties the queue.
  abbrev pub drains : ℕ → List (Step A)
  drains zero = []
  drains (suc n) = drain_one ∷ drains n

  -- The worker leaves its loop and empties the queue.
  abbrev pub stopping : ℕ → List (Step A)
  stopping n = stop_worker ∷ tick 0 ∷ drains (suc n)

  -- The worker is gone and the queue is empty; the batch and what a call has taken are as given.
  abbrev Emptied : List (Option A) → List (Option A) → State A → Type 0
  Emptied batch taken t =
      (t.phase ≡ exited) × (t.queue ≡ []) × (t.batch ≡ batch) × (t.taken ≡ taken)

  module _ (batch_size max_latency maxsize : ℕ) where
    drain_turn :
        (queue : List (Option A)) (s : State A)
        → s.queue ≡ queue
        → s.phase ≡ draining
        → (step batch_size max_latency maxsize drain_one s).1
          ≡ drain batch_size max_latency maxsize queue s
    unfolding step run_drain
    drain_turn queue s e d =
        ap (λ phase. run_drain batch_size max_latency maxsize phase s) d
        ∙ ap (λ q. drain batch_size max_latency maxsize q s) e

    drains-Emptied :
        (queue : List (Option A)) (s : State A)
        → s.queue ≡ queue
        → s.phase ≡ draining
        → Emptied s.batch s.taken
            (run batch_size max_latency maxsize (drains (suc (length queue))) s).1
    unfolding run drain safe_flush
    drains-Emptied [] s e d =
        subst (λ t. Emptied s.batch s.taken t) (sym (drain_turn [] s e d)) (refl, e, refl, refl)
    drains-Emptied (r ∷ queue) s e d =
        subst
          (λ t.
            Emptied s.batch s.taken
              (run batch_size max_latency maxsize (drains (suc (length queue))) t).1)
          (sym (drain_turn (r ∷ queue) s e d))
          (drains-Emptied queue (drain batch_size max_latency maxsize (r ∷ queue) s) refl d)

    drains_accept : (n : ℕ) (s : State A) → (run batch_size max_latency maxsize (drains n) s).0 ≡ []
    unfolding run step
    drains_accept zero s = refl
    drains_accept (suc n) s = drains_accept n (step batch_size max_latency maxsize drain_one s).1

    left : State A → State A
    left s = leave batch_size max_latency maxsize s.batch (record s { stop_event = true })

    left-draining :
        (batch : List (Option A)) (s : State A)
        → let t = leave batch_size max_latency maxsize batch s in
          (t.phase ≡ draining) × (t.queue ≡ s.queue) × (t.taken ≡ s.taken)
    unfolding leave flush_batch safe_flush
    left-draining [] s = (refl, refl, refl)
    left-draining (r ∷ batch) s = (refl, refl, refl)

    left-batch :
        (batch : List (Option A)) (s : State A)
        → s.batch ≡ batch
        → (leave batch_size max_latency maxsize batch s).batch ≡ []
    unfolding leave flush_batch safe_flush
    left-batch [] s e = e
    left-batch (r ∷ batch) s e = refl

    stopped_turn :
        (s : State A)
        → s.phase ≡ running
        → (step batch_size max_latency maxsize (tick 0) (record s { stop_event = true })).1 ≡ left s
    unfolding step run_worker run_loop left
    stopped_turn s e =
        ap
          (λ phase.
            run_worker batch_size max_latency maxsize 0 phase (record s { stop_event = true }))
          e

    stopping-Emptied :
        (s : State A)
        → s.phase ≡ running
        → Emptied [] s.taken (run batch_size max_latency maxsize (stopping (length s.queue)) s).1
    unfolding run step
    stopping-Emptied s e =
        subst
          (λ t.
            Emptied [] s.taken
              (run batch_size max_latency maxsize (drains (suc (length s.queue))) t).1)
          (sym (stopped_turn s e)) (unfold left in ends (left-draining s.batch stopped))
      where
        stopped : State A
        stopped = record s { stop_event = true }

        ends :
            let t = leave batch_size max_latency maxsize s.batch (record s { stop_event = true }) in
            (t.phase ≡ draining) × (t.queue ≡ s.queue) × (t.taken ≡ s.taken)
            → Emptied [] s.taken
                (run batch_size max_latency maxsize (drains (suc (length s.queue))) t).1
        ends (d, q, k) =
            let (gone, empty, batch, taken) = drains-Emptied s.queue _ q d in
            (
              gone,
              empty,
              batch ∙ left-batch s.batch (record s { stop_event = true }) refl,
              taken ∙ k,
            )

    stopping_accept :
        (n : ℕ) (s : State A) → (run batch_size max_latency maxsize (stopping n) s).0 ≡ []
    unfolding run step
    stopping_accept n s =
        drains_accept (suc n)
          (step batch_size max_latency maxsize (tick 0) (record s { stop_event = true })).1

    -- A stop from any state that a new queue can reach, with the worker in its loop and no call of
    -- `flush_now` under way: when nothing more is put, the worker ends after one turn for each waiting record
    -- and two more, and then every record that was ever accepted has been handed to the flush callable, as
    -- often as it was put: it is written, or lost with a batch whose flush raised. None, which the worker
    -- takes for an empty queue, is excepted.
    pub stopping-written :
        (raises : ℕ → List (Option A) → Bool) (p : Option A → Bool) (steps : List (Step A))
        → p none ≡ false
        → (run batch_size max_latency maxsize steps (new_state raises)).1.phase ≡ running
        → (run batch_size max_latency maxsize steps (new_state raises)).1.taken ≡ []
        → let r = run batch_size max_latency maxsize steps (new_state raises) in
          let t = (run batch_size max_latency maxsize (stopping (length r.1.queue)) r.1).1 in
          (t.phase ≡ exited)
          × (count_all p t.flushed
                + count_all p t.flushed_now
                + count_all p t.lost
                + count_all p t.lost_now
              ≡ count p r.0)
    stopping-written raises p steps real in_loop idle =
        let r = run batch_size max_latency maxsize steps (new_state raises) in
        let (gone, empty, batch, taken) = stopping-Emptied r.1 in_loop in
        let stop = stopping (length r.1.queue) in
        (
          gone,
          unfold total count count_all new_state in
              omega (
                arith,
                run-total batch_size max_latency maxsize p real steps (new_state raises),
                run-total batch_size max_latency maxsize p real stop r.1,
                ap (count p) (stopping_accept (length r.1.queue) r.1),
                ap (count p) empty,
                ap (count p) batch,
                ap (count p) (taken ∙ idle),
              ),
        )
