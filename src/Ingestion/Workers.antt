-- ===== src/Ingestion/Workers.antt =====
-- application/services/ingestion_pipeline.py: `_run_one`, the search of one provider. What the provider
-- yields is a list of items, each with the look at the clock before it, and how the provider ends.
use anime_manager.Base.{
  ℕ, suc, ◌+◌, ◌-◌, ◌≤◌, ◌<◌, ◌⊎◌, inl, inr, Bool, List, [], ◌∷◌, Option, none, some, arith, leb,
  if◌then◌else◌, length, Bool-cases,
}
use anime_manager.Base.Text.{Text}
use anime_manager.Ingestion.Payload.{ProviderAnimePayload}

-- An item of the provider with what the adapter makes of it, or an error of either.
pub data Raw : Type 0 where
  none_raw : Raw
  adapted : Option ProviderAnimePayload → Raw
  raised : Text → Raw

pub record Yield : Type 0 where
  pub past_deadline : Bool
  pub raw : Raw

pub record ProviderSpec : Type 0 where
  pub name : Text
  pub late_start : Bool
  pub yields : List Yield
  pub search_error : Option Text

-- The result of a worker, or the name of the exception's type.
abbrev pub Result : Type 0
Result = Text ⊎ List ProviderAnimePayload

unfoldable pub ended : Option Text → Result
ended none = inr []
ended (some error) = inl error

unfoldable pub cons_payload : ProviderAnimePayload → Result → Result
cons_payload p (inl error) = inl error
cons_payload p (inr out) = inr (p ∷ out)

-- One item: `rest` stands for the rest of the loop.
unfoldable pub run_item : ℕ → ℕ → Raw → Result → Result
unfolding cons_payload
run_item limit idx none_raw rest = rest
run_item limit idx (adapted none) rest = rest
run_item limit idx (adapted (some p)) rest =
    if leb limit (idx + 1) then inr (p ∷ []) else cons_payload p rest
run_item limit idx (raised error) rest = inl error

unfoldable pub run_items : ℕ → ℕ → List Yield → Option Text → Result
unfolding ended run_item
run_items limit idx [] error = ended error
run_items limit idx (y ∷ ys) error =
    let rest = run_items limit (suc idx) ys error in
    if y.past_deadline then inr [] else run_item limit idx y.raw rest

unfoldable pub run_one : ℕ → ProviderSpec → Result
unfolding run_items
run_one limit spec =
    let out = run_items limit 0 spec.yields spec.search_error in
    if spec.late_start then inr [] else out

-- The number of payloads of a worker.
unfoldable pub amount : Result → ℕ
amount (inl error) = 0
amount (inr out) = length out

run_item-amount :
    (limit idx : ℕ) (raw : Raw) (rest : Result)
    → amount rest ≤ suc (limit - suc (suc idx))
    → amount (run_item limit idx raw rest) ≤ suc (limit - suc idx)
unfolding run_item cons_payload amount
run_item-amount limit idx none_raw rest a = ground arith
run_item-amount limit idx (adapted none) rest a = ground arith
run_item-amount limit idx (adapted (some p)) (inl error) a = ground arith
run_item-amount limit idx (adapted (some p)) (inr out) a = ground arith
run_item-amount limit idx (raised error) rest a = ground arith

run_items-amount :
    (limit idx : ℕ) (ys : List Yield) (error : Option Text)
    → amount (run_items limit idx ys error) ≤ suc (limit - suc idx)
unfolding run_items
run_items-amount limit idx [] none = unfold ended amount in omega arith
run_items-amount limit idx [] (some error) = unfold ended amount in omega arith
run_items-amount limit idx (y ∷ ys) error = elim (Bool-cases y.past_deadline) [
  | inl late ↦ rw late (unfold amount in omega arith)
  | inr early ↦ rw early (
      run_item-amount limit idx y.raw (run_items limit (suc idx) ys error)
        (run_items-amount limit (suc idx) ys error))
]

-- A worker with a positive limit gives at most so many payloads, also where skipped items make it pass
-- the place of the limit.
pub run_one-amount :
    (limit : ℕ) (spec : ProviderSpec) → 0 < limit → amount (run_one limit spec) ≤ limit
unfolding run_one
run_one-amount limit spec positive = elim (Bool-cases spec.late_start) [
  | inl late ↦ rw late (unfold amount in omega arith)
  | inr early ↦ rw early (omega (arith, run_items-amount limit 0 spec.yields spec.search_error))
]
