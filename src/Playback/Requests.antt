-- ===== src/Playback/Requests.antt =====
-- The service under any sequence of calls of playback/service.py.
use anime_manager.Base.{ℕ, ◌≡◌, true, List, [], ◌∷◌, Option, none, some, arith}
use anime_manager.Base.Dict.{member, nat_eq}
use anime_manager.Base.Text.{Text}
use anime_manager.Playback.Service.{
  Service, PathSights, init, cleanup_stale_sessions, stop_session, heartbeat, resolve_media_path,
}
use anime_manager.Playback.Create.{CreateSights, Command, create_session}
use anime_manager.Playback.Service.Validity.{
  IsValid, init-IsValid, cleanup-IsValid, stop_session-IsValid, heartbeat-IsValid,
  resolve_media_path-IsValid,
}
use anime_manager.Playback.Create.Opened.{create_session-IsValid, create_session-Lasting}
use anime_manager.Playback.Service.Lifetimes.{
  Lasting, cleanup-Lasting, stop_session-Lasting, heartbeat-Lasting, resolve_media_path-Lasting,
}

-- A call with the time at which it runs and what it sees.
pub data Request : Type 0 where
  create : CreateSights → ℕ → Command → Request
  beat : ℕ → Text → Option ℕ → Request
  stop : Text → Request
  resolve : PathSights → ℕ → Text → Text → Text → Request
  cleanup : ℕ → Request

unfoldable pub with_time : Option ℕ → List ℕ → List ℕ
with_time none times = times
with_time (some t) times = t ∷ times

-- The times at which a call starts the life of a session, or starts it again.
unfoldable pub renewed_by : Request → List ℕ → List ℕ
unfolding with_time
renewed_by (create o now cmd) times = now ∷ times
renewed_by (beat now k position) times = now ∷ times
renewed_by (stop k) times = times
renewed_by (resolve o now k token name) times = with_time o.renewed times
renewed_by (cleanup now) times = times

unfoldable pub renewals : List Request → List ℕ
unfolding renewed_by
renewals [] = []
renewals (r ∷ rest) = renewed_by r (renewals rest)

member_first : (t : ℕ) (times : List ℕ) → member t (t ∷ times) ≡ true
unfolding member
member_first t times = ground arith

member_later : (t u : ℕ) (times : List ℕ) → member t times ≡ true → member t (u ∷ times) ≡ true
unfolding member
member_later t u times m = ground arith

with_time-grows :
    (o : Option ℕ) (times : List ℕ) (t : ℕ)
    → member t times ≡ true
    → member t (with_time o times) ≡ true
unfolding with_time
with_time-grows none times t m = m
with_time-grows (some u) times t m = member_later t u times m

renewed_by-grows :
    (r : Request) (times : List ℕ) (t : ℕ)
    → member t times ≡ true
    → member t (renewed_by r times) ≡ true
unfolding renewed_by
renewed_by-grows (create o now cmd) times t m = member_later t now times m
renewed_by-grows (beat now k position) times t m = member_later t now times m
renewed_by-grows (stop k) times t m = m
renewed_by-grows (resolve o now k token name) times t m = with_time-grows o.renewed times t m
renewed_by-grows (cleanup now) times t m = m

with_time-member :
    (o : Option ℕ) (times : List ℕ) (t : ℕ) → o ≡ some t → member t (with_time o times) ≡ true
unfolding with_time
with_time-member none times t e = absurd (cc)
with_time-member (some u) times t e = unfold member in ground arith

module _ (mac : Text → Text) where
  unfoldable pub step : Service → Request → Service
  step svc (create o now cmd) = (create_session mac o svc now cmd).service
  step svc (beat now k position) = (heartbeat mac svc now k position).service
  step svc (stop k) = (stop_session svc k).service
  step svc (resolve o now k token name) = (resolve_media_path mac o svc now k token name).service
  step svc (cleanup now) = (cleanup_stale_sessions now svc).0

  unfoldable pub run : Service → List Request → Service
  run svc [] = svc
  run svc (r ∷ rest) = run (step svc r) rest

  step-IsValid : (svc : Service) (r : Request) → IsValid svc → IsValid (step svc r)
  unfolding step
  step-IsValid svc (create o now cmd) v = create_session-IsValid mac o svc now cmd v
  step-IsValid svc (beat now k position) v = heartbeat-IsValid mac svc now k position v
  step-IsValid svc (stop k) v = stop_session-IsValid svc k v
  step-IsValid svc (resolve o now k token name) v =
      resolve_media_path-IsValid mac o svc now k token name v
  step-IsValid svc (cleanup now) v = cleanup-IsValid now svc v

  run_from-IsValid : (svc : Service) (rs : List Request) → IsValid svc → IsValid (run svc rs)
  unfolding run
  run_from-IsValid svc [] v = v
  run_from-IsValid svc (r ∷ rest) v = run_from-IsValid (step svc r) rest (step-IsValid svc r v)

  step-Lasting :
      (svc : Service) (r : Request) (times rest : List ℕ)
      → ((t : ℕ) → member t (renewed_by r rest) ≡ true → member t times ≡ true)
      → Lasting mac times svc.sessions
      → Lasting mac times (step svc r).sessions
  unfolding step renewed_by
  step-Lasting svc (create o now cmd) times rest h v =
      create_session-Lasting mac times o svc now cmd (h now (member_first now rest)) v
  step-Lasting svc (beat now k position) times rest h v =
      heartbeat-Lasting mac times svc now k position (h now (member_first now rest)) v
  step-Lasting svc (stop k) times rest h v = stop_session-Lasting mac times svc k v
  step-Lasting svc (resolve o now k token name) times rest h v =
      resolve_media_path-Lasting mac times o svc now k token name
        (λ t e. h t (with_time-member o.renewed rest t e)) v
  step-Lasting svc (cleanup now) times rest h v = cleanup-Lasting mac times now svc v

  run_from-Lasting :
      (svc : Service) (rs : List Request) (times : List ℕ)
      → ((t : ℕ) → member t (renewals rs) ≡ true → member t times ≡ true)
      → Lasting mac times svc.sessions
      → Lasting mac times (run svc rs).sessions
  unfolding run renewals
  run_from-Lasting svc [] times h v = v
  run_from-Lasting svc (r ∷ rest) times h v =
      run_from-Lasting (step svc r) rest times (λ t m. h t (renewed_by-grows r (renewals rest) t m))
        (step-Lasting svc r times (renewals rest) h v)

  init-Lasting : (ttl seg : ℕ) (times : List ℕ) → Lasting mac times (init ttl seg).sessions
  unfolding init
  init-Lasting ttl seg times = tt

  -- After any calls, each seeing anything at all, no id stands twice in the table; every session stands
  -- under its own id with its playhead not before its anchor, expires its time to live, which is a minute
  -- at least, after some creation or heartbeat among the calls or during one of them, and has the token
  -- for its id and its expiry.
  pub run-IsValid :
      (ttl seg : ℕ) (rs : List Request)
      → IsValid (run (init ttl seg) rs) × Lasting mac (renewals rs) (run (init ttl seg) rs).sessions
  run-IsValid ttl seg rs = (
    run_from-IsValid (init ttl seg) rs (init-IsValid ttl seg),
    run_from-Lasting (init ttl seg) rs (renewals rs) (λ t m. m)
        (init-Lasting ttl seg (renewals rs)),
  )
