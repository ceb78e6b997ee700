-- ===== src/Transcoder/Tests.antt =====
-- A pool of one encoder, a restart of its session and a second session.
use anime_manager.Base.{
  ℕ, ◌≡◌, refl, ◌⊎◌, true, false, List, [], ◌∷◌, Option, none, some, max, arith,
}
use anime_manager.Base.Dict.{lookup, remove, Distinct, member}
use anime_manager.Base.Text.{Text, codes, text_eq, text_beq}
use anime_manager.Base.Dict.{nat_eq}
use anime_manager.Transcoder.{
  ActiveTranscode, Pool, Request, World, seconds_of, clamp_start, ensure_locked, ensure_hls_session,
  allows_reuse, make_room, evict_oldest, least, start_new,
}
use anime_manager.Transcoder.Ensured.{Ensured, ensure_hls_session-Ensured}
use anime_manager.Transcoder.Kept.{ensure_hls_session-keeps}
use anime_manager.Transcoder.Requests.{
  Call, ensure, stop, check, empty_pool, handle_all, IsPool, handle_all-IsPool,
}

abbrev request : Text → ℕ → Option ℕ → Request
request session_id start track = record {
  session_id = session_id;
  source_path = codes "a.mkv";
  output_dir = codes "out";
  audio_track = track;
  start_segment_index = start;
  segment_seconds = none;
  duration_ms = 1440000;
}

abbrev running : ℕ → World
running process = record {
  tools_available = true;
  exited = λ x. false;
  exited_later = λ x. false;
  activity = λ i. 0;
  now = process;
  spawned = some process;
}

-- The encoder of the session has exited when the call begins.
abbrev after_exit : ℕ → World
after_exit process = record (running process) { exited = λ x. true; exited_later = λ x. true }

abbrev encoder : ActiveTranscode
encoder = record {
  output_dir = codes "out";
  process = 10;
  started_at = 10;
  start_segment_index = 40;
  segment_seconds = 4;
  source_path = codes "a.mkv";
  audio_track = none;
}

abbrev pool : Pool
pool = record empty_pool { active = (codes "s", encoder) ∷ [] }

-- Another audio track invalidates the segments of an encoder that runs, and they are purged.
purged_running :
    (ensure_hls_session 1 4 (running 11) (request (codes "s") 0 (some 1)) pool).1.purged
    ≡ codes "out" ∷ []
unfolding ensure_hls_session ensure_locked lookup text_beq allows_reuse start_new make_room remove
purged_running = refl

-- The same restart after the encoder has exited purges nothing.
purged_exited :
    (ensure_hls_session 1 4 (after_exit 11) (request (codes "s") 0 (some 1)) pool).1.purged ≡ []
unfolding ensure_hls_session ensure_locked lookup text_beq allows_reuse start_new make_room
purged_exited = refl

second_evicts :
    (ensure_hls_session 1 4 (running 11) (request (codes "t") 0 none) pool).1.evicted
    ≡ codes "s" ∷ []
unfolding ensure_hls_session ensure_locked lookup text_beq allows_reuse start_new make_room
    evict_oldest least remove
second_evicts = refl

ensure_hls_session-Ensured_example :
    let u = ensure_hls_session 1 4 (running 11) (request (codes "t") 0 none) pool in
    Ensured
      (running 11)
      (request (codes "t") 0 none)
      (max 1 1)
      (seconds_of 4 none)
      (clamp_start 1440000 (seconds_of 4 none) 0)
      u.0
      u.1
    × (true ≡ false → u.1 ≡ pool)
ensure_hls_session-Ensured_example =
    ensure_hls_session-Ensured 1 4 (running 11) (request (codes "t") 0 none) pool (omega arith)

pool-Distinct : Distinct pool.active
unfolding lookup
pool-Distinct = (refl, tt)

encoding : lookup (codes "s") pool.active ≡ some encoder
unfolding lookup text_beq
encoding = refl

ensure_hls_session-keeps_example :
    let q = (ensure_hls_session 1 4 (running 11) (request (codes "t") 0 none) pool).1 in
    (lookup (codes "s") q.active ≡ some encoder) ⊎ (member 10 q.terminated ≡ true) ⊎ (false ≡ true)
ensure_hls_session-keeps_example =
    ensure_hls_session-keeps 1 4 (running 11) (request (codes "t") 0 none) pool (codes "s") encoder
      pool-Distinct encoding

abbrev calls : List Call
calls =
    ensure (running 11) (request (codes "s") 0 none)
    ∷ ensure (running 12) (request (codes "t") 5 none)
    ∷ stop (codes "t")
    ∷ check (running 13) (codes "s")
    ∷ []

handle_all-IsPool_example : IsPool 1 (handle_all 1 4 calls empty_pool)
handle_all-IsPool_example = handle_all-IsPool 1 4 calls
