-- ===== src/Ingestion/Run/Status.antt =====
-- The status of a run, and the errors that it reports.
use anime_manager.Base.{
  ℕ, ◌<◌, ◌≡◌, refl, ◌↔◌, ◌⊎◌, inl, inr, ap, Bool, true, false, ◌&&◌, ◌||◌, List, [], ◌∷◌, ◌++◌,
  Option, none, some, arith, if◌then◌else◌, length, length-append, Bool-cases,
}
use anime_manager.Base.Dict.{◌==◌ as eq}
use anime_manager.Base.Text.{Text, codes, text_eq}
use anime_manager.Ingestion.Payload.{ProviderAnimePayload}
use anime_manager.Ingestion.Workers.{ProviderSpec, Result, run_one}
use anime_manager.Ingestion.Dedupe.{deduplicate_payloads}
use anime_manager.Ingestion.Run.{
  complete, Error, Collected, Schedule, Sink, nothing_collected, with_failure, collect_future,
  collect_call, collect_finished, collect_calls, collect_pending, collect_timeout, collect,
  per_provider_limit, flush, is_empty, status_of, error_list, is_some, finish_run, run,
}

-- Every failure has its error, and only a timeout makes a run partial without one.
record Tally (timed : Bool) (c : Collected) : Type 0 where
  count : c.failed_providers ≡ length c.errors
  flag : c.is_partial ≡ true → (0 < length c.errors) ⊎ (timed ≡ true)
  late : timed ≡ true → c.is_partial ≡ true

with_failure-Tally :
    (name error : Text) (makes_partial timed : Bool) (c : Collected)
    → Tally timed c
    → Tally timed (with_failure name error makes_partial c)
unfolding with_failure
with_failure-Tally name error makes_partial timed c t = record {
  count = ground (arith, t.count, length-append c.errors ((name, error) ∷ []));
  flag = λ h. inl (ground (arith, length-append c.errors ((name, error) ∷ [])));
  late = λ h. ground (arith, t.late h);
}

collect_future-Tally :
    (name : Text) (r : Result) (timed : Bool) (c : Collected)
    → Tally timed c
    → Tally timed (collect_future name r c)
unfolding collect_future
collect_future-Tally name (inr out) timed c t = record {
  count = t.count;
  flag = t.flag;
  late = t.late;
}
collect_future-Tally name (inl error) timed c t =
    elim (Bool-cases (eq error (codes "TimeoutError"))) [
      | inl timeout ↦ rw timeout (with_failure-Tally name (codes "timeout") true timed c t)
      | inr other ↦ rw other (with_failure-Tally name error false timed c t)
    ]

collect_call-Tally :
    (name : Text) (r : Result) (timed : Bool) (c : Collected)
    → Tally timed c
    → Tally timed (collect_call name r c)
unfolding collect_call
collect_call-Tally name (inr out) timed c t = record {
  count = t.count;
  flag = t.flag;
  late = t.late;
}
collect_call-Tally name (inl error) timed c t = with_failure-Tally name error true timed c t

collect_finished-Tally :
    (limit : ℕ) (specs : List ProviderSpec) (timed : Bool) (c : Collected)
    → Tally timed c
    → Tally timed (collect_finished limit specs c)
unfolding collect_finished
collect_finished-Tally limit [] timed c t = t
collect_finished-Tally limit (spec ∷ specs) timed c t =
    collect_finished-Tally limit specs timed (collect_future spec.name (run_one limit spec) c)
      (collect_future-Tally spec.name (run_one limit spec) timed c t)

collect_calls-Tally :
    (limit : ℕ) (specs : List ProviderSpec) (timed : Bool) (c : Collected)
    → Tally timed c
    → Tally timed (collect_calls limit specs c)
unfolding collect_calls
collect_calls-Tally limit [] timed c t = t
collect_calls-Tally limit (spec ∷ specs) timed c t =
    collect_calls-Tally limit specs timed (collect_call spec.name (run_one limit spec) c)
      (collect_call-Tally spec.name (run_one limit spec) timed c t)

pending-Tally :
    (spec : ProviderSpec) (done : Bool) (c : Collected)
    → Tally true c
    → Tally true (if done then c else with_failure spec.name (codes "deadline") true c)
pending-Tally spec true c t = t
pending-Tally spec false c t = with_failure-Tally spec.name (codes "deadline") true true c t

collect_pending-Tally :
    (specs : List (ProviderSpec × Bool)) (c : Collected)
    → Tally true c
    → Tally true (collect_pending specs c)
unfolding collect_pending
collect_pending-Tally [] c t = t
collect_pending-Tally ((spec, done) ∷ specs) c t =
    collect_pending-Tally specs
      (if done then c else with_failure spec.name (codes "deadline") true c)
      (pending-Tally spec done c t)

-- The wait for the workers timed out.
unfoldable pub gave_up : Option (List (ProviderSpec × Bool)) → Bool
gave_up none = false
gave_up (some specs) = true

collect_timeout-Tally :
    (o : Option (List (ProviderSpec × Bool))) (c : Collected)
    → Tally false c
    → Tally (gave_up o) (collect_timeout o c)
unfolding collect_timeout gave_up
collect_timeout-Tally none c t = t
collect_timeout-Tally (some specs) c t =
    collect_pending-Tally specs (record c { is_partial = true })
      (record { count = t.count; flag = λ h. inr refl; late = λ h. refl })

nothing-Tally : Tally false nothing_collected
unfolding nothing_collected
nothing-Tally = record { count = refl; flag = λ h. absurd (cc); late = λ h. absurd (cc) }

collect-Tally :
    (parallel : Bool) (limit : ℕ) (specs : List ProviderSpec) (s : Schedule)
    → Tally (parallel && gave_up s.timed_out) (collect parallel limit specs s)
unfolding collect
collect-Tally true limit specs s =
    collect_timeout-Tally s.timed_out (collect_finished limit s.finished nothing_collected)
      (collect_finished-Tally limit s.finished false nothing_collected nothing-Tally)
collect-Tally false limit specs s =
    collect_calls-Tally limit specs false nothing_collected nothing-Tally

status_of-complete :
    (deduped : List ProviderAnimePayload) (failures total : ℕ) (is_partial : Bool)
    → 0 < total
    → (status_of deduped failures total is_partial ≡ complete)
      ↔ ((is_partial ≡ false) × (failures ≡ 0))
unfolding status_of is_empty
status_of-complete [] failures total is_partial h = ground arith
status_of-complete (p ∷ deduped) failures total is_partial h = ground arith

no_errors :
    (timed : Bool) (c : Collected) (o : Option Error)
    → Tally timed c
    → (((c.is_partial || is_some o) ≡ false) × (c.failed_providers ≡ 0))
      ↔ ((c.errors ++ error_list o ≡ []) × (timed ≡ false))
unfolding is_some error_list
no_errors timed c o t = (there o, back o)
  where
    nil : (l : List Error) → length l ≡ 0 → l ≡ []
    nil [] e = refl
    nil (x ∷ l) e = absurd (omega arith)

    there :
        (o : Option Error)
        → ((c.is_partial || is_some o) ≡ false) × (c.failed_providers ≡ 0)
        → (c.errors ++ error_list o ≡ []) × (timed ≡ false)
    there none h = (
      nil (c.errors ++ []) (ground (arith, t.count, length-append c.errors [])),
      ground (arith, t.late),
    )
    there (some e) h = absurd (ground arith)

    back :
        (o : Option Error)
        → (c.errors ++ error_list o ≡ []) × (timed ≡ false)
        → ((c.is_partial || is_some o) ≡ false) × (c.failed_providers ≡ 0)
    back none h =
        let e : length c.errors ≡ 0 = omega (arith, ap length h.0, length-append c.errors []) in
        (ground (arith, t.flag), omega (arith, t.count))
    back (some e) h = absurd (omega (arith, ap length h.0, length-append c.errors (e ∷ [])))

finish_run-complete :
    (sink : Option Sink) (total : ℕ) (timed : Bool) (c : Collected)
    → 0 < total
    → Tally timed c
    → ((finish_run sink total c).status ≡ complete)
      ↔ (((finish_run sink total c).errors ≡ []) × (timed ≡ false))
unfolding finish_run
finish_run-complete sink total timed c h t =
    let deduped = deduplicate_payloads c.payloads in
    let sink_error = (flush sink deduped).1 in
    let s =
      status_of-complete deduped c.failed_providers total (c.is_partial || is_some sink_error) h in
    let n = no_errors timed c sink_error t in ((λ e. n.0 (s.0 e)), λ e. s.1 (n.1 e))

-- A run over some providers is complete exactly when it reports no error and its wait for the workers did
-- not time out, whatever the providers, the order in which they finish and the sink do.
pub run-complete :
    (spec : ProviderSpec) (specs : List ProviderSpec) (limit : ℕ) (sink : Option Sink)
    (limit_per_provider parallel : Bool) (schedule : Schedule)
    → let r = run (spec ∷ specs) limit sink limit_per_provider parallel schedule in
      (r.status ≡ complete) ↔ ((r.errors ≡ []) × ((parallel && gave_up schedule.timed_out) ≡ false))
unfolding run
run-complete spec specs limit sink limit_per_provider parallel schedule =
    let n = length (spec ∷ specs) in
    let per = per_provider_limit limit_per_provider limit n in
    finish_run-complete sink n (parallel && gave_up schedule.timed_out)
      (collect parallel per (spec ∷ specs) schedule) (omega arith)
      (collect-Tally parallel per (spec ∷ specs) schedule)
