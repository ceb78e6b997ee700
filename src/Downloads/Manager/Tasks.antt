-- ===== src/Downloads/Manager/Tasks.antt =====
-- The list of all tasks: looking one up after a change, and whether a hash belongs to a task that is
-- not finished.
use anime_manager.Base.{
  ℕ, zero, suc, ◌≡◌, refl, inl, inr, Bool, true, false, ◌&&◌, ◌||◌, not, List, [], ◌∷◌, ◌++◌,
  Option, none, some, if◌then◌else◌, length, arith, ◌==◌ as nat_beq, Bool-cases, ==_iff, ap, sym,
  ◌∙◌,
}
use anime_manager.Base.Dict.{Dict, member, nat_eq}
use anime_manager.Base.Text.{Text, text_eq}
use anime_manager.Downloads.Manager.{
  Task, Phase, waiting, submitted, registered, preparing, ending, finished, task_at, set_task,
  cancel_task, cancel_tasks, key_of, same_key,
}

pub task_at-set_task :
    (n j : ℕ) (t u : Task) (ts : List Task)
    → task_at n ts ≡ some u
    → task_at j (set_task n t ts) ≡ (if nat_beq n j then some t else task_at j ts)
unfolding task_at set_task
task_at-set_task n j t u [] e = absurd (cc)
task_at-set_task zero zero t u (v ∷ ts) e = ground arith
task_at-set_task zero (suc j) t u (v ∷ ts) e = ground arith
task_at-set_task (suc n) zero t u (v ∷ ts) e = ground arith
task_at-set_task (suc n) (suc j) t u (v ∷ ts) e = ground (arith, task_at-set_task n j t u ts e)

pub task_at-append :
    (j : ℕ) (t : Task) (ts : List Task)
    → task_at j (ts ++ t ∷ []) ≡ (if nat_beq (length ts) j then some t else task_at j ts)
unfolding task_at
task_at-append zero t [] = ground arith
task_at-append (suc j) t [] = ground arith
task_at-append zero t (v ∷ ts) = ground arith
task_at-append (suc j) t (v ∷ ts) = ground (arith, task_at-append j t ts)

unfoldable pub is_waiting : Phase → Bool
is_waiting waiting = true
is_waiting submitted = false
is_waiting registered = false
is_waiting preparing = false
is_waiting (ending b) = false
is_waiting finished = false

unfoldable pub is_finished : Phase → Bool
is_finished finished = true
is_finished waiting = false
is_finished submitted = false
is_finished registered = false
is_finished preparing = false
is_finished (ending b) = false

-- Whatever task waits is in the queue.
abbrev pub Waits : List Task → List ℕ → Type 0
Waits ts queue =
    (j : ℕ) (t : Task) → task_at j ts ≡ some t → is_waiting t.phase ≡ true → member j queue ≡ true

cancel_task-phase :
    (n j : ℕ) (o : Option Task) (ts : List Task) (t : Task)
    → task_at n ts ≡ o
    → task_at j (cancel_task n o ts) ≡ some t
    → (u : Task) × (task_at j ts ≡ some u) × (u.phase ≡ t.phase)
unfolding cancel_task
cancel_task-phase n j none ts t e at = (t, at, refl)
cancel_task-phase n j (some v) ts t e at = elim (Bool-cases (nat_beq n j)) [
  | inl same ↦
      (v, ap (λ i. task_at i ts) (sym ((==_iff n j).0 same)) ∙ e, changed (sym (set_at same) ∙ at))
  | inr other ↦ (t, sym (set_other other) ∙ at, refl)
]
  where
    set_at :
        nat_beq n j ≡ true
        → task_at j (set_task n (record v { cancelled = true }) ts)
          ≡ some (record v { cancelled = true })
    set_at same = task_at-set_task n j (record v { cancelled = true }) v ts e ∙ rw same refl

    set_other :
        nat_beq n j ≡ false
        → task_at j (set_task n (record v { cancelled = true }) ts) ≡ task_at j ts
    set_other other = task_at-set_task n j (record v { cancelled = true }) v ts e ∙ rw other refl

    changed : some (record v { cancelled = true }) ≡ some t → v.phase ≡ t.phase
    changed e' = cc

pub cancel_task-Waits :
    (n : ℕ) (o : Option Task) (ts : List Task) (queue : List ℕ)
    → task_at n ts ≡ o
    → Waits ts queue
    → Waits (cancel_task n o ts) queue
cancel_task-Waits n o ts queue e waits j t at is_w =
    let (u, at_u, same) = cancel_task-phase n j o ts t e at in
    waits j u at_u (ap is_waiting same ∙ is_w)

pub cancel_tasks-Waits :
    (d : Dict ℕ ℕ) (ts : List Task) (queue : List ℕ)
    → Waits ts queue
    → Waits (cancel_tasks d ts) queue
unfolding cancel_tasks
cancel_tasks-Waits [] ts queue waits = waits
cancel_tasks-Waits ((a, n) ∷ d) ts queue waits =
    cancel_tasks-Waits d _ queue (cancel_task-Waits n (task_at n ts) ts queue refl waits)

-- A task that no longer waits may leave the queue.
pub set_task-Waits :
    (n : ℕ) (t u : Task) (ts : List Task) (queue queue' : List ℕ)
    → task_at n ts ≡ some u
    → is_waiting t.phase ≡ false
    → ((j : ℕ) → nat_beq n j ≡ false → member j queue ≡ true → member j queue' ≡ true)
    → Waits ts queue
    → Waits (set_task n t ts) queue'
set_task-Waits n t u ts queue queue' e moved keeps waits j w at is_w =
    elim (Bool-cases (nat_beq n j)) [
      | inl same ↦ absurd (now (sym (set_at same) ∙ at))
      | inr other ↦ keeps j other (waits j w (sym (set_other other) ∙ at) is_w)
    ]
  where
    set_at : nat_beq n j ≡ true → task_at j (set_task n t ts) ≡ some t
    set_at same = task_at-set_task n j t u ts e ∙ rw same refl

    set_other : nat_beq n j ≡ false → task_at j (set_task n t ts) ≡ task_at j ts
    set_other other = task_at-set_task n j t u ts e ∙ rw other refl

    now : some t ≡ some w → ⊥
    now e' = cc

member-append : (j n : ℕ) (q : List ℕ) → member j (q ++ n ∷ []) ≡ (member j q || nat_beq n j)
unfolding member
member-append j n [] = ground arith
member-append j n (i ∷ q) = ground (arith, member-append j n q)

-- A new task stands at the end of the queue.
pub append-Waits :
    (t : Task) (ts : List Task) (queue : List ℕ)
    → Waits ts queue
    → Waits (ts ++ t ∷ []) (queue ++ length ts ∷ [])
append-Waits t ts queue waits j w at is_w = elim (Bool-cases (nat_beq (length ts) j)) [
  | inl same ↦ member-append j (length ts) queue ∙ rw same (ground arith)
  | inr other ↦
      member-append j (length ts) queue
      ∙ rw (waits j w (sym (task_at-append j t ts ∙ rw other refl) ∙ at) is_w) refl
]

module _ (b32decode : Text → Option (List ℕ)) where
  -- The task is not finished, and the key is its hash.
  unfoldable pub owns : Text → Task → Bool
  unfolding is_finished
  owns h t = not (is_finished t.phase) && same_key b32decode h (key_of b32decode t)

  unfoldable pub owned : Text → List Task → Bool
  owned h [] = false
  owned h (t ∷ ts) = owns h t || owned h ts

  pub owned-set_task :
      (h : Text) (n : ℕ) (t u : Task) (ts : List Task)
      → task_at n ts ≡ some u
      → (owns h u ≡ true → owns h t ≡ true)
      → owned h ts ≡ true
      → owned h (set_task n t ts) ≡ true
  unfolding task_at set_task owned
  owned-set_task h n t u [] e keeps o = absurd (cc)
  owned-set_task h zero t u (v ∷ ts) e keeps o = ground (arith, keeps)
  owned-set_task h (suc n) t u (v ∷ ts) e keeps o =
      ground (arith, owned-set_task h n t u ts e keeps)

  pub owned-append :
      (h : Text) (t : Task) (ts : List Task) → owned h (ts ++ t ∷ []) ≡ (owned h ts || owns h t)
  unfolding owned
  owned-append h t [] = ground arith
  owned-append h t (v ∷ ts) = ground (arith, owned-append h t ts)

  pub owned-cancel_task :
      (h : Text) (n : ℕ) (o : Option Task) (ts : List Task)
      → task_at n ts ≡ o
      → owned h ts ≡ true
      → owned h (cancel_task n o ts) ≡ true
  unfolding cancel_task
  owned-cancel_task h n none ts e o = o
  owned-cancel_task h n (some t) ts e o =
      owned-set_task h n (record t { cancelled = true }) t ts e
        (λ x. unfold owns in unfold owns key_of in x) o

  pub owned-cancel_tasks :
      (h : Text) (d : Dict ℕ ℕ) (ts : List Task)
      → owned h ts ≡ true
      → owned h (cancel_tasks d ts) ≡ true
  unfolding cancel_tasks
  owned-cancel_tasks h [] ts o = o
  owned-cancel_tasks h ((a, n) ∷ d) ts o =
      owned-cancel_tasks h d _ (owned-cancel_task h n (task_at n ts) ts refl o)

  -- A task that has not come to its end keeps its hash.
  pub owns-keep :
      (h : Text) (t u : Task)
      → is_finished u.phase ≡ false
      → (same_key b32decode h (key_of b32decode t) ≡ true → key_of b32decode u ≡ key_of b32decode t)
      → owns h t ≡ true
      → owns h u ≡ true
  unfolding owns
  owns-keep h t u live keeps o =
      let held : same_key b32decode h (key_of b32decode t) ≡ true = ground arith in
      rw (live, keeps held) held

  pub owns-other :
      (h : Text) (t : Task) → same_key b32decode h (key_of b32decode t) ≡ false → owns h t ≡ false
  unfolding owns
  owns-other h t other = ground arith
