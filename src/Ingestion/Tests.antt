-- ===== src/Ingestion/Tests.antt =====
-- A run over two concrete providers, and the theorems of the pipeline at it.
use anime_manager.Base.{
  ◌*◌, ◌≤◌, ◌≡◌, refl, ◌↔◌, inl, inr, max, true, false, ◌&&◌, [], ◌∷◌, none, some, length, arith,
}
use anime_manager.Base.Int.{pos}
use anime_manager.Base.Text.{codes}
use anime_manager.Ingestion.Payload.{
  ProviderAnimePayload, Fingerprint, payload_fingerprint, fingerprint_eq,
}
use anime_manager.Ingestion.Workers.{ProviderSpec, Yield, Raw, none_raw, adapted, raised, run_one}
use anime_manager.Ingestion.Workers.{amount}
use anime_manager.Ingestion.Run.{per_provider_limit, complete, Schedule, Sink, run}
use anime_manager.Ingestion.Run.Status.{gave_up, run-complete}
use anime_manager.Ingestion.Run.Amount.{run-amount}
use anime_manager.Ingestion.Run.Stream.{stream, streamed, stream-run}
use anime_manager.Ingestion.Dedupe.{
  DistinctKeys, first_with, deduplicate_payloads, deduplicate_payloads-first,
}

abbrev naruto : ProviderAnimePayload
naruto = record {
  title = codes "Naruto";
  external_ids = (codes "mal_id", pos 20) ∷ [];
  source_provider = codes "jikan";
}

abbrev on_time : Raw → Yield
on_time raw = record { past_deadline = false; raw = raw }

abbrev jikan : ProviderSpec
jikan = record {
  name = codes "jikan";
  late_start = false;
  yields =
      on_time none_raw ∷ on_time (adapted (some naruto)) ∷ on_time (adapted (some naruto)) ∷ [];
  search_error = none;
}

abbrev kitsu : ProviderSpec
kitsu = record {
  name = codes "kitsu";
  late_start = false;
  yields = on_time (raised (codes "ValueError")) ∷ [];
  search_error = none;
}

-- The second item stands past the limit of one, since the first was skipped.
one_payload : run_one 1 jikan ≡ inr (naruto ∷ [])
unfolding run_one
one_payload = refl

failing : run_one 5 kitsu ≡ inl (codes "ValueError")
unfolding run_one
failing = refl

abbrev schedule : Schedule
schedule = record { finished = kitsu ∷ jikan ∷ []; timed_out = none }

abbrev sink : Sink
sink payloads = inr (length payloads)

run-complete_example :
    let r = run (jikan ∷ kitsu ∷ []) 50 (some sink) false true schedule in
    (r.status ≡ complete) ↔ ((r.errors ≡ []) × ((true && gave_up none) ≡ false))
run-complete_example = run-complete jikan (kitsu ∷ []) 50 (some sink) false true schedule

run-amount_example :
    let kept = length (run (jikan ∷ kitsu ∷ []) 50 (some sink) false true schedule).payloads in
    (amount (run_one (per_provider_limit false 50 2) jikan) ≤ max 1 50)
    × (false ≡ true → kept ≤ 2 * max 1 50)
    × (false ≡ false → kept ≤ max 2 50)
run-amount_example =
    run-amount (jikan ∷ kitsu ∷ []) 50 (some sink) false true schedule jikan (omega arith)

stream-run_example :
    streamed (stream (jikan ∷ kitsu ∷ []) 50 schedule)
    ≡ (run (jikan ∷ kitsu ∷ []) 50 (some sink) false true schedule).payloads
stream-run_example = stream-run (jikan ∷ kitsu ∷ []) 50 (some sink) schedule

deduplicate_payloads-first_example :
    DistinctKeys payload_fingerprint (deduplicate_payloads (naruto ∷ naruto ∷ []))
    × ((f : Fingerprint)
        → first_with payload_fingerprint f (deduplicate_payloads (naruto ∷ naruto ∷ []))
          ≡ first_with payload_fingerprint f (naruto ∷ naruto ∷ []))
deduplicate_payloads-first_example = deduplicate_payloads-first (naruto ∷ naruto ∷ [])
