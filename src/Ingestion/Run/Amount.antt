-- ===== src/Ingestion/Run/Amount.antt =====
-- How much a run keeps.
use anime_manager.Base.{
  ℕ, suc, ◌+◌, ◌*◌, ◌/◌, ◌≤◌, ◌<◌, ◌≡◌, refl, ap, ◌∙◌, inl, inr, max, Bool, true, false, List, [],
  ◌∷◌, Option, none, some, arith, if◌then◌else◌, length, length-append, Bool-cases,
}
use anime_manager.Base.Dict.{◌==◌ as eq, Eq, add}
use anime_manager.Base.Text.{Text, codes, text_eq}
use anime_manager.Base.Division.{div_window}
use anime_manager.Ingestion.Payload.{fingerprint_eq, payload_fingerprint}
use anime_manager.Ingestion.Workers.{ProviderSpec, Result, run_one, amount, run_one-amount}
use anime_manager.Ingestion.Dedupe.{unseen, deduplicate_payloads}
use anime_manager.Ingestion.Run.{
  Collected, Schedule, Sink, nothing_collected, with_failure, collect_future, collect_call,
  collect_finished, collect_calls, collect_pending, collect_timeout, collect, per_provider_limit,
  finish_run, no_run, run,
}

collect_future-amount :
    (name : Text) (r : Result) (c : Collected)
    → length (collect_future name r c).payloads ≤ length c.payloads + amount r
unfolding collect_future amount with_failure
collect_future-amount name (inr out) c = omega (arith, length-append c.payloads out)
collect_future-amount name (inl error) c = elim (Bool-cases (eq error (codes "TimeoutError"))) [
  | inl timeout ↦ rw timeout (omega arith)
  | inr other ↦ rw other (omega arith)
]

collect_call-amount :
    (name : Text) (r : Result) (c : Collected)
    → length (collect_call name r c).payloads ≤ length c.payloads + amount r
unfolding collect_call amount with_failure
collect_call-amount name (inr out) c = omega (arith, length-append c.payloads out)
collect_call-amount name (inl error) c = omega arith

more : (n a b c limit : ℕ) → a ≤ b + n * limit → b ≤ c + limit → a ≤ c + suc n * limit
more n a b c limit h k = grind arith

collect_finished-amount :
    (limit : ℕ) (specs : List ProviderSpec) (c : Collected)
    → 0 < limit
    → length (collect_finished limit specs c).payloads ≤ length c.payloads + length specs * limit
unfolding collect_finished
collect_finished-amount limit [] c h = omega arith
collect_finished-amount limit (spec ∷ specs) c h =
    let r = run_one limit spec in
    more (length specs)
      (length (collect_finished limit specs (collect_future spec.name r c)).payloads)
      (length (collect_future spec.name r c).payloads) (length c.payloads) limit
      (collect_finished-amount limit specs (collect_future spec.name r c) h)
      (omega (arith, collect_future-amount spec.name r c, run_one-amount limit spec h))

collect_calls-amount :
    (limit : ℕ) (specs : List ProviderSpec) (c : Collected)
    → 0 < limit
    → length (collect_calls limit specs c).payloads ≤ length c.payloads + length specs * limit
unfolding collect_calls
collect_calls-amount limit [] c h = omega arith
collect_calls-amount limit (spec ∷ specs) c h =
    let r = run_one limit spec in
    more (length specs) (length (collect_calls limit specs (collect_call spec.name r c)).payloads)
      (length (collect_call spec.name r c).payloads) (length c.payloads) limit
      (collect_calls-amount limit specs (collect_call spec.name r c) h)
      (omega (arith, collect_call-amount spec.name r c, run_one-amount limit spec h))

pending-amount :
    (name error : Text) (done : Bool) (c : Collected)
    → (if done then c else with_failure name error true c).payloads ≡ c.payloads
unfolding with_failure
pending-amount name error true c = refl
pending-amount name error false c = refl

collect_pending-amount :
    (specs : List (ProviderSpec × Bool)) (c : Collected)
    → (collect_pending specs c).payloads ≡ c.payloads
unfolding collect_pending
collect_pending-amount [] c = refl
collect_pending-amount ((spec, done) ∷ specs) c =
    collect_pending-amount specs
      (if done then c else with_failure spec.name (codes "deadline") true c)
    ∙ pending-amount spec.name (codes "deadline") done c

pub collect_timeout-amount :
    (o : Option (List (ProviderSpec × Bool))) (c : Collected)
    → (collect_timeout o c).payloads ≡ c.payloads
unfolding collect_timeout
collect_timeout-amount none c = refl
collect_timeout-amount (some specs) c =
    collect_pending-amount specs (record c { is_partial = true })

mul_mono : (a b c : ℕ) → a ≤ b → a * c ≤ b * c
mul_mono a b c h = grind arith

collect-amount :
    (parallel : Bool) (limit : ℕ) (specs : List ProviderSpec) (s : Schedule)
    → 0 < limit
    → length s.finished ≤ length specs
    → length (collect parallel limit specs s).payloads ≤ length specs * limit
unfolding collect nothing_collected
collect-amount true limit specs s h k = omega (
  arith,
  ap length
      (collect_timeout-amount s.timed_out (collect_finished limit s.finished nothing_collected)),
  collect_finished-amount limit s.finished nothing_collected h,
  mul_mono (length s.finished) (length specs) limit k,
)
collect-amount false limit specs s h k =
    omega (arith, collect_calls-amount limit specs nothing_collected h)

unseen-length :
    {A K : Type 0} ⦃e : Eq K⦄ (key : A → K) (xs : List A) (seen : List K)
    → length (unseen key seen xs) ≤ length xs
unfolding unseen
unseen-length key [] seen = omega arith
unseen-length key (x ∷ xs) seen =
    ground (arith, unseen-length key xs seen, unseen-length key xs (add (key x) seen))

per_provider_limit-pos : (b : Bool) (limit n : ℕ) → 0 < per_provider_limit b limit n
unfolding per_provider_limit
per_provider_limit-pos true limit n = omega arith
per_provider_limit-pos false limit n = omega arith

shared_limit : (limit n : ℕ) → 0 < n → n * per_provider_limit false limit n ≤ max n limit
unfolding per_provider_limit
shared_limit limit n h = grind (arith, div_window limit n h)

per_provider_limit-le : (b : Bool) (limit n : ℕ) → per_provider_limit b limit n ≤ max 1 limit
unfolding per_provider_limit
per_provider_limit-le true limit n = omega arith
per_provider_limit-le false limit n =
    shared (limit / max 1 n) (div_window limit (max 1 n) (omega arith)).0
  where
    shared : (q : ℕ) → q * max 1 n ≤ limit → max 1 q ≤ max 1 limit
    shared q h = omega (arith, scaled q (max 1 n) (omega arith), h)
      where
        scaled : (k d : ℕ) → 0 < d → k ≤ k * d
        scaled k d positive = grind arith

worker_amount :
    (b : Bool) (limit n : ℕ) (worker : ProviderSpec)
    → amount (run_one (per_provider_limit b limit n) worker) ≤ max 1 limit
worker_amount b limit n worker = omega (
  arith,
  run_one-amount (per_provider_limit b limit n) worker (per_provider_limit-pos b limit n),
  per_provider_limit-le b limit n,
)

-- Each worker of a run gives at most as many payloads as the limit of the call, and one where that is
-- zero. If no provider finishes twice, a run whose limit is meant for each provider keeps in all at most
-- the number of providers times that bound, and any other run keeps in all at most the limit of the call,
-- or one payload for each provider where these are more.
pub run-amount :
    (specs : List ProviderSpec) (limit : ℕ) (sink : Option Sink)
    (limit_per_provider parallel : Bool) (schedule : Schedule) (worker : ProviderSpec)
    → length schedule.finished ≤ length specs
    → let kept = length (run specs limit sink limit_per_provider parallel schedule).payloads in
      (amount (run_one (per_provider_limit limit_per_provider limit (length specs)) worker)
        ≤ max 1 limit)
      × (limit_per_provider ≡ true → kept ≤ length specs * max 1 limit)
      × (limit_per_provider ≡ false → kept ≤ max (length specs) limit)
unfolding run
run-amount [] limit sink limit_per_provider parallel schedule worker once = (
  worker_amount limit_per_provider limit 0 worker,
  unfold no_run in (λ h. omega arith),
  unfold no_run in (λ h. omega arith),
)
run-amount (spec ∷ specs) limit sink limit_per_provider parallel schedule worker once =
    let n = length (spec ∷ specs) in
    let per = per_provider_limit limit_per_provider limit n in
    let c = collect parallel per (spec ∷ specs) schedule in
    let (each, shared) = bounds {kept = length (finish_run sink n c).payloads} limit_per_provider (
      unfold deduplicate_payloads finish_run in
      omega (
        arith,
        unseen-length payload_fingerprint c.payloads [],
        collect-amount parallel per (spec ∷ specs) schedule
            (per_provider_limit-pos limit_per_provider limit n) once,
      )) in
    (worker_amount limit_per_provider limit n worker, each, shared)
  where
    bounds :
        {kept : ℕ} (b : Bool)
        → kept ≤ length (spec ∷ specs) * per_provider_limit b limit (length (spec ∷ specs))
        → (b ≡ true → kept ≤ length (spec ∷ specs) * max 1 limit)
          × (b ≡ false → kept ≤ max (length (spec ∷ specs)) limit)
    bounds {kept} true h = ((λ e. unfold per_provider_limit in h), λ e. absurd (cc))
    bounds {kept} false h = (
      (λ e. absurd (cc)),
      λ e. omega (arith, h, shared_limit limit (length (spec ∷ specs)) (omega arith)),
    )
