-- ===== src/Ingestion/Dedupe.antt =====
-- application/services/ingestion_pipeline.py: `_deduplicate_payloads`, which keeps the first payload of
-- every fingerprint.
use anime_manager.Base.{
  ◌≡◌, refl, ◌∙◌, true, List, [], ◌∷◌, Option, none, some, arith, if◌then◌else◌, Bool-cases, inl,
  inr,
}
use anime_manager.Base.Dict.{Eq, ◌==◌, member, add, member-add}
use anime_manager.Catalog.Ids.{int_eq}
use anime_manager.Ingestion.Payload.{
  ProviderAnimePayload, Fingerprint, payload_fingerprint, fingerprint_eq,
}

module _ {A K : Type 0} ⦃e : Eq K⦄ (key : A → K) where
  -- The loop, with the set `seen`.
  unfoldable pub unseen : List K → List A → List A
  unseen seen [] = []
  unseen seen (x ∷ xs) =
      let rest = unseen seen xs in
      let fresh = unseen (add (key x) seen) xs in if member (key x) seen then rest else x ∷ fresh

  -- The first member with the key.
  unfoldable pub first_with : K → List A → Option A
  first_with k [] = none
  first_with k (x ∷ xs) = if key x == k then some x else first_with k xs

  -- No member with the key.
  abbrev pub Absent : K → List A → Type 0
  Absent k xs = first_with k xs ≡ none

  abbrev pub DistinctKeys : List A → Type 0
  DistinctKeys [] = Unit
  DistinctKeys (x ∷ xs) = Absent (key x) xs × DistinctKeys xs

  pub first_with-unseen :
      (k : K) (xs : List A) (seen : List K)
      → first_with k (unseen seen xs) ≡ (if member k seen then none else first_with k xs)
  unfolding unseen first_with
  first_with-unseen k [] seen = ground arith
  first_with-unseen k (x ∷ xs) seen = ground (
    arith,
    first_with-unseen k xs seen,
    first_with-unseen k xs (add (key x) seen),
    member-add (key x) k seen,
    e.beq_iff (key x) k,
  )

  self_added : (k : K) (seen : List K) → member k (add k seen) ≡ true
  self_added k seen = ground (arith, member-add k k seen, e.beq_iff k k)

  pub unseen-DistinctKeys : (xs : List A) (seen : List K) → DistinctKeys (unseen seen xs)
  unfolding unseen
  unseen-DistinctKeys [] seen = tt
  unseen-DistinctKeys (x ∷ xs) seen = elim (Bool-cases (member (key x) seen)) [
    | inl old ↦ rw old (unseen-DistinctKeys xs seen)
    | inr new ↦ rw new (
      first_with-unseen (key x) xs (add (key x) seen) ∙ rw (self_added (key x) seen) refl,
      unseen-DistinctKeys xs (add (key x) seen),
    )
  ]

unfoldable pub deduplicate_payloads : List ProviderAnimePayload → List ProviderAnimePayload
unfolding unseen
deduplicate_payloads payloads = unseen payload_fingerprint [] payloads

-- Of every fingerprint exactly one payload is kept, the first one of the input.
pub deduplicate_payloads-first :
    (payloads : List ProviderAnimePayload)
    → DistinctKeys payload_fingerprint (deduplicate_payloads payloads)
      × ((f : Fingerprint)
          → first_with payload_fingerprint f (deduplicate_payloads payloads)
            ≡ first_with payload_fingerprint f payloads)
unfolding deduplicate_payloads
deduplicate_payloads-first payloads = (
  unseen-DistinctKeys payload_fingerprint payloads [],
  λ f. first_with-unseen payload_fingerprint f payloads [] ∙ (unfold member in refl),
)
