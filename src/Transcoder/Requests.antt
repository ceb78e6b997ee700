-- ===== src/Transcoder/Requests.antt =====
-- Any sequence of calls on the pool.
use anime_manager.Base.{
  ℕ, ◌≤◌, List, [], ◌∷◌, Option, none, some, max, not, arith, length, length-keep-le,
}
use anime_manager.Base.Dict.{lookup, length-remove-le, Distinct, remove-Distinct}
use anime_manager.Base.Text.{Text, text_eq}
use anime_manager.Transcoder.{
  ActiveTranscode, Pool, Request, World, Outcome, reused, started, busy, spawn_failed,
  tools_missing, reap, terminate, ensure_hls_session, stop_found, stop_hls_session,
  is_hls_session_running, seconds_of, clamp_start,
}
use anime_manager.Transcoder.Ensured.{Ensured, ensure_hls_session-Ensured}
use anime_manager.Transcoder.Kept.{reap-Distinct, ensure_hls_session-Distinct}

pub data Call : Type 0 where
  ensure : World → Request → Call
  stop : Text → Call
  check : World → Text → Call

abbrev pub empty_pool : Pool
empty_pool = record { active = []; terminated = []; evicted = []; purged = [] }

unfoldable pub handle : ℕ → ℕ → Call → Pool → Pool
handle most default_seconds (ensure w r) p = (ensure_hls_session most default_seconds w r p).1
handle most default_seconds (stop session_id) p = stop_hls_session session_id p
handle most default_seconds (check w session_id) p = (is_hls_session_running w session_id p).1

unfoldable pub handle_all : ℕ → ℕ → List Call → Pool → Pool
unfolding handle
handle_all most default_seconds [] p = p
handle_all most default_seconds (c ∷ calls) p =
    handle_all most default_seconds calls (handle most default_seconds c p)

-- One encoder for each session, and no more than the pool may have.
pub record IsPool (most : ℕ) (p : Pool) : Type 0 where
  pub sessions : Distinct p.active
  pub bounded : length p.active ≤ max 1 most

Ensured-bounded :
    (w : World) (r : Request) (most seconds start : ℕ) (o : Outcome) (q : Pool)
    → Ensured w r most seconds start o q
    → length q.active ≤ most
Ensured-bounded w r most seconds start (reused a) q (_, _, _, h) = h
Ensured-bounded w r most seconds start (started a) q (_, _, _, h) = h
Ensured-bounded w r most seconds start busy q h = absurd h
Ensured-bounded w r most seconds start spawn_failed q (_, _, h) = h
Ensured-bounded w r most seconds start tools_missing q (_, h) = h

stop-IsPool :
    (most : ℕ) (session_id : Text) (o : Option ActiveTranscode) (p : Pool)
    → IsPool most p
    → IsPool most (stop_found session_id o p)
unfolding stop_found terminate
stop-IsPool most session_id none p v = v
stop-IsPool most session_id (some a) p v = record {
  sessions = remove-Distinct session_id p.active v.sessions;
  bounded = omega (arith, v.bounded, length-remove-le session_id p.active);
}

handle-IsPool :
    (most default_seconds : ℕ) (c : Call) (p : Pool)
    → IsPool most p
    → IsPool most (handle most default_seconds c p)
unfolding handle
handle-IsPool most default_seconds (ensure w r) p v =
    let seconds = seconds_of default_seconds r.segment_seconds in
    let u = ensure_hls_session most default_seconds w r p in
    record {
      sessions = ensure_hls_session-Distinct most default_seconds w r p v.sessions;
      bounded =
          Ensured-bounded w r (max 1 most) seconds
            (clamp_start r.duration_ms seconds r.start_segment_index) u.0 u.1
            (ensure_hls_session-Ensured most default_seconds w r p v.bounded).0;
    }
handle-IsPool most default_seconds (stop session_id) p v =
    unfold stop_hls_session in stop-IsPool most session_id (lookup session_id p.active) p v
handle-IsPool most default_seconds (check w session_id) p v =
    unfold is_hls_session_running in
    record {
      sessions = reap-Distinct w.exited p.active v.sessions;
      bounded =
          unfold reap in
          omega (arith, v.bounded, length-keep-le (λ e. not (w.exited e.1.process)) p.active);
    }

handle_from-IsPool :
    (most default_seconds : ℕ) (calls : List Call) (p : Pool)
    → IsPool most p
    → IsPool most (handle_all most default_seconds calls p)
unfolding handle_all
handle_from-IsPool most default_seconds [] p v = v
handle_from-IsPool most default_seconds (c ∷ calls) p v =
    handle_from-IsPool most default_seconds calls (handle most default_seconds c p)
      (handle-IsPool most default_seconds c p v)

-- After any calls on an empty pool, whatever they see of the processes, the pool has one encoder for each of
-- its sessions, and no more of them than it may have, with one as the least bound.
pub handle_all-IsPool :
    (most default_seconds : ℕ) (calls : List Call)
    → IsPool most (handle_all most default_seconds calls empty_pool)
handle_all-IsPool most default_seconds calls =
    handle_from-IsPool most default_seconds calls empty_pool
      (record { sessions = tt; bounded = omega arith })
