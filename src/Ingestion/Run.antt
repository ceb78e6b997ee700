-- ===== src/Ingestion/Run.antt =====
-- application/services/ingestion_pipeline.py: `run`. The order in which the workers finish, and those that
-- have not been collected when the wait for them times out, are arguments. An error keeps the provider, and
-- the exception's type or what stands for it.
pub mod Status
pub mod Amount
pub mod Stream
use anime_manager.Base.{
  ℕ, zero, suc, ◌+◌, ◌*◌, ◌/◌, ◌≡◌, ◌⊎◌, inl, inr, Bool, true, false, not, ◌&&◌, ◌||◌, List, [],
  ◌∷◌, ◌++◌, map, Option, none, some, max, if◌then◌else◌, length, ltb, ◌==◌,
}
use anime_manager.Base.Dict.{◌==◌ as eq}
use anime_manager.Base.Text.{Text, codes, text_eq}
use anime_manager.Ingestion.Payload.{ProviderAnimePayload}
use anime_manager.Ingestion.Dedupe.{deduplicate_payloads}
use anime_manager.Ingestion.Workers.{ProviderSpec, Result, run_one}

pub data IngestionStatus : Type 0 where
  complete : IngestionStatus
  partial : IngestionStatus
  failed : IngestionStatus

abbrev pub Error : Type 0
Error = Text × Text

-- The state of the loop over the workers.
pub record Collected : Type 0 where
  pub payloads : List ProviderAnimePayload
  pub errors : List Error
  pub failed_providers : ℕ
  pub is_partial : Bool

pub record IngestionResult : Type 0 where
  pub status : IngestionStatus
  pub payloads : List ProviderAnimePayload
  pub failed_providers : ℕ
  pub total_providers : ℕ
  pub errors : List Error
  pub persisted_count : ℕ

-- The workers in the order in which they finish; when the wait times out, the others, and whether each of
-- them is done by then.
pub record Schedule : Type 0 where
  pub finished : List ProviderSpec
  pub timed_out : Option (List (ProviderSpec × Bool))

abbrev pub Sink : Type 0
Sink = List ProviderAnimePayload → Text ⊎ ℕ

unfoldable pub nothing_collected : Collected
nothing_collected = record { payloads = []; errors = []; failed_providers = 0; is_partial = false }

unfoldable pub with_failure : Text → Text → Bool → Collected → Collected
with_failure name error makes_partial c = record {
  payloads = c.payloads;
  errors = c.errors ++ (name, error) ∷ [];
  failed_providers = c.failed_providers + 1;
  is_partial = c.is_partial || makes_partial;
}

-- future.result() of a worker that is done
unfoldable pub collect_future : Text → Result → Collected → Collected
collect_future name (inr out) c = record c { payloads = c.payloads ++ out }
collect_future name (inl error) c =
    if eq error (codes "TimeoutError")
    then with_failure name (codes "timeout") true c
    else with_failure name error false c

-- The call of a worker in turn.
unfoldable pub collect_call : Text → Result → Collected → Collected
collect_call name (inr out) c = record c { payloads = c.payloads ++ out }
collect_call name (inl error) c = with_failure name error true c

unfoldable pub collect_finished : ℕ → List ProviderSpec → Collected → Collected
unfolding collect_future with_failure
collect_finished limit [] c = c
collect_finished limit (spec ∷ specs) c =
    collect_finished limit specs (collect_future spec.name (run_one limit spec) c)

unfoldable pub collect_calls : ℕ → List ProviderSpec → Collected → Collected
unfolding collect_call with_failure
collect_calls limit [] c = c
collect_calls limit (spec ∷ specs) c =
    collect_calls limit specs (collect_call spec.name (run_one limit spec) c)

unfoldable pub collect_pending : List (ProviderSpec × Bool) → Collected → Collected
unfolding with_failure
collect_pending [] c = c
collect_pending ((spec, done) ∷ specs) c =
    collect_pending specs (if done then c else with_failure spec.name (codes "deadline") true c)

unfoldable pub collect_timeout : Option (List (ProviderSpec × Bool)) → Collected → Collected
unfolding collect_pending
collect_timeout none c = c
collect_timeout (some specs) c = collect_pending specs (record c { is_partial = true })

unfoldable pub collect : Bool → ℕ → List ProviderSpec → Schedule → Collected
unfolding nothing_collected collect_finished collect_timeout collect_calls
collect parallel limit providers schedule =
    if parallel
    then collect_timeout schedule.timed_out
        (collect_finished limit schedule.finished nothing_collected)
    else collect_calls limit providers nothing_collected

unfoldable pub per_provider_limit : Bool → ℕ → ℕ → ℕ
per_provider_limit limit_per_provider limit n =
    if limit_per_provider then max 1 limit else max 1 (limit / max 1 n)

-- What the sink answers: the number of payloads that it stored, and an error.
unfoldable pub sink_result : Text ⊎ ℕ → ℕ × Option Error
sink_result (inl error) = (0, some (codes "sink", error))
sink_result (inr count) = (count, none)

unfoldable pub flush : Option Sink → List ProviderAnimePayload → ℕ × Option Error
unfolding sink_result
flush none deduped = (0, none)
flush (some sink) [] = (0, none)
flush (some sink) (p ∷ deduped) = sink_result (sink (p ∷ deduped))

unfoldable pub is_empty : List ProviderAnimePayload → Bool
is_empty [] = true
is_empty (p ∷ payloads) = false

unfoldable pub status_of : List ProviderAnimePayload → ℕ → ℕ → Bool → IngestionStatus
unfolding is_empty
status_of deduped failures total is_partial =
    if is_empty deduped && failures == total
    then failed
    else if is_partial || ltb 0 failures
    then partial
    else complete

unfoldable pub error_list : Option Error → List Error
error_list none = []
error_list (some error) = error ∷ []

unfoldable pub is_some : Option Error → Bool
is_some none = false
is_some (some error) = true

unfoldable pub finish_run : Option Sink → ℕ → Collected → IngestionResult
unfolding flush status_of error_list is_some
finish_run sink total c =
    let deduped = deduplicate_payloads c.payloads in
    let (persisted, sink_error) = flush sink deduped in
    record {
      status = status_of deduped c.failed_providers total (c.is_partial || is_some sink_error);
      payloads = deduped;
      failed_providers = c.failed_providers;
      total_providers = total;
      errors = c.errors ++ error_list sink_error;
      persisted_count = persisted;
    }

unfoldable pub no_run : IngestionResult
no_run = record {
  status = complete;
  payloads = [];
  failed_providers = 0;
  total_providers = 0;
  errors = [];
  persisted_count = 0;
}

unfoldable pub run : List ProviderSpec → ℕ → Option Sink → Bool → Bool → Schedule → IngestionResult
unfolding no_run collect finish_run per_provider_limit
run [] limit sink limit_per_provider parallel schedule = no_run
run (spec ∷ specs) limit sink limit_per_provider parallel schedule =
    let n = length (spec ∷ specs) in
    finish_run sink n
      (collect parallel (per_provider_limit limit_per_provider limit n) (spec ∷ specs) schedule)
