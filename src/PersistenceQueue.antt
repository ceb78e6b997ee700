-- ===== src/PersistenceQueue.antt =====
-- adapters/persistence/queue.py: the bounded queue whose worker flushes records in batches. A record may be
-- None. A step is what one thread does between two accesses to the queue. There is one worker and at most
-- one call of `flush_now` at a time, and a `put` does not block. The flush callable is a parameter of the
-- state: it is known by the calls that raise. A batch of such a call is lost, the error being swallowed.
pub mod Conserved
pub mod Batches
pub mod Drained
mod Tests
use anime_manager.Base.{
  ℕ, ◌+◌, ◌≡◌, Bool, true, false, ◌&&◌, ◌||◌, not, List, [], ◌∷◌, ◌++◌, Option, none, some,
  if◌then◌else◌, length, ltb, leb,
}

-- Where the worker is: in its loop, emptying the queue after it, or gone.
pub data Phase : Type 0 where
  running : Phase
  draining : Phase
  exited : Phase

pub record State (A : Type 0) : Type 0 where
  pub queue : List (Option A)
  pub batch : List (Option A)
  pub batch_deadline : Option ℕ
  pub taken : List (Option A)
  -- Whether the flush callable raises, by the number of the call and its batch.
  pub raises : ℕ → List (Option A) → Bool
  pub calls : ℕ
  -- The batches of the worker that were written, and those whose flush raised.
  pub flushed : List (List (Option A))
  pub lost : List (List (Option A))
  -- The same of `flush_now`.
  pub flushed_now : List (List (Option A))
  pub lost_now : List (List (Option A))
  pub processed : ℕ
  pub dropped : ℕ
  pub stop_event : Bool
  pub phase : Phase

pub data Step (A : Type 0) : Type 0 where
  put_record : Option A → Step A
  stop_worker : Step A
  tick : ℕ → Step A
  drain_one : Step A
  take_one : Step A
  flush_taken : Step A

unfoldable pub deadline_passed : ℕ → Option ℕ → Bool
deadline_passed now none = false
deadline_passed now (some d) = leb d now

module _ {A : Type 0} where
  unfoldable pub new_state : (ℕ → List (Option A) → Bool) → State A
  new_state raises = record {
    raises = raises;
    calls = 0;
    queue = [];
    batch = [];
    batch_deadline = none;
    taken = [];
    flushed = [];
    lost = [];
    flushed_now = [];
    lost_now = [];
    processed = 0;
    dropped = 0;
    stop_event = false;
    phase = running;
  }

  unfoldable pub is_nil : List (Option A) → Bool
  is_nil [] = true
  is_nil (x ∷ l) = false

  -- The batches, with one more if the test holds.
  unfoldable pub noted : Bool → List (Option A) → List (List (Option A)) → List (List (Option A))
  noted true records batches = batches ++ records ∷ []
  noted false records batches = batches

  -- _safe_flush, by the worker: the records are counted whether or not the call raises.
  unfoldable pub safe_flush : List (Option A) → State A → State A
  unfolding noted
  safe_flush records s = record s {
    calls = s.calls + 1;
    flushed = noted (not (s.raises s.calls records)) records s.flushed;
    lost = noted (s.raises s.calls records) records s.lost;
    processed = s.processed + length records;
  }

  -- _safe_flush, by flush_now
  unfoldable pub safe_flush_now : List (Option A) → State A → State A
  unfolding noted
  safe_flush_now records s = record s {
    calls = s.calls + 1;
    flushed_now = noted (not (s.raises s.calls records)) records s.flushed_now;
    lost_now = noted (s.raises s.calls records) records s.lost_now;
    processed = s.processed + length records;
  }

  module _ (batch_size max_latency maxsize : ℕ) where
    unfoldable pub is_full : State A → Bool
    is_full s = ltb 0 maxsize && leb maxsize (length s.queue)

    -- Whether the record is accepted.
    unfoldable pub put : Option A → State A → Bool × State A
    unfolding is_full
    put r s =
        if is_full s
        then (false, record s { dropped = s.dropped + 1 })
        else (true, record s { queue = s.queue ++ r ∷ [] })

    unfoldable pub append_record : ℕ → Option A → State A → State A
    append_record now none s = s
    append_record now (some x) s = record s {
      batch = s.batch ++ some x ∷ [];
      batch_deadline = if is_nil s.batch then some (now + max_latency) else s.batch_deadline;
    }

    unfoldable pub should_flush : ℕ → State A → Bool
    unfolding is_nil deadline_passed
    should_flush now s =
        (if is_nil s.batch then false else true)
        && (leb batch_size (length s.batch) || deadline_passed now s.batch_deadline)

    unfoldable pub flush_batch : State A → State A
    unfolding safe_flush
    flush_batch s = record (safe_flush s.batch s) { batch = []; batch_deadline = none }

    unfoldable pub after_record : ℕ → State A → State A
    unfolding should_flush flush_batch
    after_record now s = if should_flush now s then flush_batch s else s

    -- A turn of the loop: a record of the queue, or none when the wait for one times out.
    unfoldable pub turn : ℕ → List (Option A) → State A → State A
    unfolding append_record after_record
    turn now [] s = after_record now s
    turn now (r ∷ queue) s = after_record now (append_record now r (record s { queue = queue }))

    -- The batch that is left when the loop ends.
    unfoldable pub leave : List (Option A) → State A → State A
    unfolding flush_batch
    leave [] s = record s { phase = draining }
    leave (r ∷ batch) s = record (flush_batch s) { phase = draining }

    unfoldable pub run_loop : ℕ → State A → State A
    unfolding turn leave
    run_loop now s = if s.stop_event then leave s.batch s else turn now s.queue s

    unfoldable pub drain : List (Option A) → State A → State A
    unfolding safe_flush
    drain [] s = record s { phase = exited }
    drain (r ∷ queue) s = safe_flush (r ∷ []) (record s { queue = queue })

    unfoldable pub take_next : List (Option A) → State A → State A
    take_next [] s = s
    take_next (r ∷ queue) s = record s { queue = queue; taken = s.taken ++ r ∷ [] }

    unfoldable pub end_flush : List (Option A) → State A → State A
    unfolding safe_flush_now
    end_flush [] s = s
    end_flush (r ∷ taken) s = record (safe_flush_now (r ∷ taken) s) { taken = [] }

    unfoldable pub run_worker : ℕ → Phase → State A → State A
    unfolding run_loop
    run_worker now running s = run_loop now s
    run_worker now draining s = s
    run_worker now exited s = s

    unfoldable pub run_drain : Phase → State A → State A
    unfolding drain
    run_drain running s = s
    run_drain draining s = drain s.queue s
    run_drain exited s = s

    -- The records that a step puts into the queue, and the state after it.
    unfoldable pub step : Step A → State A → List (Option A) × State A
    unfolding put run_worker run_drain take_next end_flush
    step (put_record r) s = let (accepted, t) = put r s in (if accepted then r ∷ [] else [], t)
    step stop_worker s = ([], record s { stop_event = true })
    step (tick now) s = ([], run_worker now s.phase s)
    step drain_one s = ([], run_drain s.phase s)
    step take_one s = ([], take_next s.queue s)
    step flush_taken s = ([], end_flush s.taken s)

    unfoldable pub run : List (Step A) → State A → List (Option A) × State A
    run [] s = ([], s)
    run (x ∷ steps) s =
        let now = step x s in let later = run steps now.1 in (now.0 ++ later.0, later.1)
