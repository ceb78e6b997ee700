-- ===== src/Ingestion/Run/Stream.antt =====
-- application/services/ingestion_pipeline.py: `stream`, which hands the payloads of each worker over as it
-- finishes.
use anime_manager.Base.{
  ℕ, ◌≡◌, refl, ◌∙◌, sym, ap, inl, inr, true, false, List, [], ◌∷◌, ◌++◌, Option, if◌then◌else◌,
  length, Bool-cases,
}
use mathlib.Core.List.{append_assoc, append-nil}
use anime_manager.Base.Dict.{◌==◌ as eq, member, add}
use anime_manager.Base.Text.{Text, codes, text_eq}
use anime_manager.Ingestion.Payload.{
  ProviderAnimePayload, Fingerprint, payload_fingerprint, fingerprint_eq,
}
use anime_manager.Ingestion.Dedupe.{unseen, deduplicate_payloads}
use anime_manager.Ingestion.Workers.{ProviderSpec, Result, run_one}
use anime_manager.Ingestion.Run.{
  Collected, Schedule, Sink, nothing_collected, with_failure, collect_future, collect_finished,
  collect, per_provider_limit, finish_run, no_run, run,
}
use anime_manager.Ingestion.Run.Amount.{collect_timeout-amount}

-- A batch that the stream yields: the provider, and its payloads that no earlier batch had.
abbrev pub Batch : Type 0
Batch = Text × List ProviderAnimePayload

-- The new payloads of a worker, and the fingerprints seen after it.
unfoldable pub fresh_of :
    List Fingerprint → List ProviderAnimePayload → List ProviderAnimePayload × List Fingerprint
fresh_of seen [] = ([], seen)
fresh_of seen (p ∷ batch) =
    let rest = fresh_of seen batch in
    let fresh = fresh_of (add (payload_fingerprint p) seen) batch in
    if member (payload_fingerprint p) seen then rest else (p ∷ fresh.0, fresh.1)

unfoldable pub cons_batch : Text → List ProviderAnimePayload → List Batch → List Batch
cons_batch name [] rest = rest
cons_batch name (p ∷ fresh) rest = (name, p ∷ fresh) ∷ rest

-- The payloads that a worker returned; its errors are skipped.
unfoldable pub returned : Result → List ProviderAnimePayload
returned (inl error) = []
returned (inr batch) = batch

unfoldable pub stream_finished : ℕ → List Fingerprint → List ProviderSpec → List Batch
unfolding cons_batch fresh_of returned
stream_finished limit seen [] = []
stream_finished limit seen (spec ∷ specs) =
    let step = fresh_of seen (returned (run_one limit spec)) in
    cons_batch spec.name step.0 (stream_finished limit step.1 specs)

unfoldable pub stream : List ProviderSpec → ℕ → Schedule → List Batch
unfolding stream_finished
stream [] limit schedule = []
stream (spec ∷ specs) limit schedule =
    stream_finished (per_provider_limit false limit (length (spec ∷ specs))) [] schedule.finished

-- All payloads that are yielded, in order; what the sink is given.
unfoldable pub streamed : List Batch → List ProviderAnimePayload
streamed [] = []
streamed ((name, fresh) ∷ batches) = fresh ++ streamed batches

unseen-append :
    (xs ys : List ProviderAnimePayload) (seen : List Fingerprint)
    → unseen payload_fingerprint seen (xs ++ ys)
      ≡ (fresh_of seen xs).0 ++ unseen payload_fingerprint (fresh_of seen xs).1 ys
unfolding unseen fresh_of
unseen-append [] ys seen = refl
unseen-append (p ∷ xs) ys seen = elim (Bool-cases (member (payload_fingerprint p) seen)) [
  | inl old ↦ rw old (unseen-append xs ys seen)
  | inr new ↦ rw new (ap (λ l. p ∷ l) (unseen-append xs ys (add (payload_fingerprint p) seen)))
]

streamed-cons_batch :
    (name : Text) (fresh : List ProviderAnimePayload) (rest : List Batch)
    → streamed (cons_batch name fresh rest) ≡ fresh ++ streamed rest
unfolding streamed cons_batch
streamed-cons_batch name [] rest = refl
streamed-cons_batch name (p ∷ fresh) rest = refl

-- The payloads of the workers, one after the other.
all_returned : ℕ → List ProviderSpec → List ProviderAnimePayload
all_returned limit [] = []
all_returned limit (spec ∷ specs) = returned (run_one limit spec) ++ all_returned limit specs

streamed_finished :
    (limit : ℕ) (specs : List ProviderSpec) (seen : List Fingerprint)
    → streamed (stream_finished limit seen specs)
      ≡ unseen payload_fingerprint seen (all_returned limit specs)
unfolding stream_finished all_returned streamed unseen
streamed_finished limit [] seen = refl
streamed_finished limit (spec ∷ specs) seen =
    let batch = returned (run_one limit spec) in
    let step = fresh_of seen batch in
    streamed-cons_batch spec.name step.0 (stream_finished limit step.1 specs)
    ∙ ap (λ l. step.0 ++ l) (streamed_finished limit specs step.1)
    ∙ sym (unseen-append batch (all_returned limit specs) seen)

collected_future :
    (name : Text) (r : Result) (c : Collected)
    → (collect_future name r c).payloads ≡ c.payloads ++ returned r
unfolding collect_future returned with_failure
collected_future name (inr out) c = refl
collected_future name (inl error) c = elim (Bool-cases (eq error (codes "TimeoutError"))) [
  | inl timeout ↦ rw timeout (sym (append-nil c.payloads))
  | inr other ↦ rw other (sym (append-nil c.payloads))
]

collected_finished :
    (limit : ℕ) (specs : List ProviderSpec) (c : Collected)
    → (collect_finished limit specs c).payloads ≡ c.payloads ++ all_returned limit specs
unfolding collect_finished all_returned
collected_finished limit [] c = sym (append-nil c.payloads)
collected_finished limit (spec ∷ specs) c =
    let r = run_one limit spec in
    collected_finished limit specs (collect_future spec.name r c)
    ∙ ap (λ l. l ++ all_returned limit specs) (collected_future spec.name r c)
    ∙ append_assoc c.payloads (returned r) (all_returned limit specs)

-- What a stream yields, all batches together, is what a parallel run of the same workers keeps, in the same
-- order, whatever errors and timeouts there are.
pub stream-run :
    (specs : List ProviderSpec) (limit : ℕ) (sink : Option Sink) (schedule : Schedule)
    → streamed (stream specs limit schedule) ≡ (run specs limit sink false true schedule).payloads
unfolding stream run
stream-run [] limit sink schedule = unfold no_run streamed in refl
stream-run (spec ∷ specs) limit sink schedule =
    let per = per_provider_limit false limit (length (spec ∷ specs)) in
    streamed_finished per schedule.finished [] ∙ sym (kept per)
  where
    kept :
        (per : ℕ)
        → (finish_run sink
            (length (spec ∷ specs))
            (collect true per (spec ∷ specs) schedule)).payloads
          ≡ unseen payload_fingerprint [] (all_returned per schedule.finished)
    kept per =
        unfold finish_run deduplicate_payloads collect nothing_collected in
        ap (λ l. unseen payload_fingerprint [] l)
          (collect_timeout-amount schedule.timed_out
              (collect_finished per schedule.finished nothing_collected)
            ∙ collected_finished per schedule.finished nothing_collected)
