-- ===== src/Base/Dict.antt =====
-- Python's `dict` and `set`: an association list in insertion order, and a list without order.
-- Keys have a Boolean equality.
use anime_manager.Base.{
  ℕ, ◌≡◌, refl, ◌↔◌, Bool, true, false, ◌||◌, List, [], ◌∷◌, Option, none, some, arith, ==_iff,
  ◌==◌ as nat_beq, if◌then◌else◌, ◌≤◌, length, Bool-cases, inl, inr, ◌∙◌, subst,
}

pub record Eq {ℓ} (K : Type ℓ) : Type ℓ where
  pub beq : K → K → Bool
  pub beq_iff : (a b : K) → (beq a b ≡ true) ↔ (a ≡ b)

infix 50 ◌==◌
abbrev pub ◌==◌ {ℓ} : {K : Type ℓ} ⦃e : Eq K⦄ → K → K → Bool
◌==◌ ⦃e⦄ = e.beq

instance abbrev pub nat_eq : Eq ℕ
nat_eq = record { beq = nat_beq; beq_iff = ==_iff }

pub beq_refl {ℓ} : {K : Type ℓ} ⦃e : Eq K⦄ → (k : K) → (k == k) ≡ true
beq_refl ⦃e⦄ k = (e.beq_iff k k).1 refl

abbrev pub Dict {ℓ} : Type ℓ → Type ℓ → Type ℓ
Dict K V = List (K × V)

module _ {ℓ} {K V : Type ℓ} ⦃e : Eq K⦄ where
  -- d.get(k)
  unfoldable pub lookup : K → Dict K V → Option V
  lookup k [] = none
  lookup k ((j, v) ∷ d) = if j == k then some v else lookup k d

  -- d[k] = v: an old key keeps its place, a new one goes to the end.
  unfoldable pub insert : K → V → Dict K V → Dict K V
  insert k v [] = (k, v) ∷ []
  insert k v ((j, w) ∷ d) = if j == k then (j, v) ∷ d else (j, w) ∷ insert k v d

  -- d.pop(k, None)
  unfoldable pub remove : K → Dict K V → Dict K V
  remove k [] = []
  remove k ((j, w) ∷ d) = if j == k then remove k d else (j, w) ∷ remove k d

  pub lookup-insert :
      (k j : K) (v : V) (d : Dict K V)
      → lookup j (insert k v d) ≡ (if k == j then some v else lookup j d)
  unfolding lookup insert
  lookup-insert k j v [] = refl
  lookup-insert k j v ((i, w) ∷ d) =
      ground (arith, lookup-insert k j v d, e.beq_iff i k, e.beq_iff i j, e.beq_iff k j)

  pub lookup-remove :
      (k j : K) (d : Dict K V) → lookup j (remove k d) ≡ (if k == j then none else lookup j d)
  unfolding lookup remove
  lookup-remove k j [] = ground arith
  lookup-remove k j ((i, w) ∷ d) =
      ground (arith, lookup-remove k j d, e.beq_iff i k, e.beq_iff i j, e.beq_iff k j)

  pub length-remove-le : (k : K) (d : Dict K V) → length (remove k d) ≤ length d
  unfolding remove
  length-remove-le k [] = omega arith
  length-remove-le k ((i, w) ∷ d) = ground (arith, length-remove-le k d)

pub ruleset dict_laws = (lookup-insert, lookup-remove, beq_refl)

module _ {ℓ} {K : Type ℓ} ⦃e : Eq K⦄ where
  -- k in s
  unfoldable pub member : K → List K → Bool
  member k [] = false
  member k (j ∷ s) = if j == k then true else member k s

  -- s.add(k)
  unfoldable pub add : K → List K → List K
  unfolding member
  add k s = if member k s then s else k ∷ s

  -- s.discard(k)
  unfoldable pub discard : K → List K → List K
  discard k [] = []
  discard k (j ∷ s) = if j == k then discard k s else j ∷ discard k s

  pub member-add : (k j : K) (s : List K) → member j (add k s) ≡ (k == j || member j s)
  unfolding add member
  member-add k j s = elim (Bool-cases (member k s)) [
    | inl old ↦ rw old (ground (arith, e.beq_iff k j))
    | inr new ↦ rw new (ground arith)
  ]

  pub member-discard :
      (k j : K) (s : List K) → member j (discard k s) ≡ (if k == j then false else member j s)
  unfolding discard member
  member-discard k j [] = ground arith
  member-discard k j (i ∷ s) =
      ground (arith, member-discard k j s, e.beq_iff i k, e.beq_iff i j, e.beq_iff k j)

module _ {ℓ} {K V : Type ℓ} ⦃e : Eq K⦄ where
  -- No key stands twice.
  abbrev pub Distinct : Dict K V → Type ℓ
  Distinct [] = Unit
  Distinct ((k, v) ∷ d) = (lookup k d ≡ none) × Distinct d

  pub insert-Distinct : (k : K) (v : V) (d : Dict K V) → Distinct d → Distinct (insert k v d)
  unfolding insert
  insert-Distinct k v [] h = (unfold lookup in refl, tt)
  insert-Distinct k v ((j, w) ∷ d) h = elim (Bool-cases (j == k)) [
    | inl old ↦ rw old h
    | inr new ↦ rw new ((lookup-insert k j v d ∙ other new h.0), insert-Distinct k v d h.1)
  ]
    where
      other : (j == k) ≡ false → lookup j d ≡ none → (if k == j then some v else lookup j d) ≡ none
      other ne absent = ground (arith, e.beq_iff j k, e.beq_iff k j)

  pub remove-Distinct : (k : K) (d : Dict K V) → Distinct d → Distinct (remove k d)
  unfolding remove
  remove-Distinct k [] h = h
  remove-Distinct k ((j, w) ∷ d) h = elim (Bool-cases (j == k)) [
    | inl old ↦ rw old (remove-Distinct k d h.1)
    | inr new ↦ rw new ((lookup-remove k j d ∙ gone h.0), remove-Distinct k d h.1)
  ]
    where
      gone : lookup j d ≡ none → (if k == j then none else lookup j d) ≡ none
      gone absent = ground arith

module _ {ℓ κ} {K V : Type ℓ} ⦃e : Eq K⦄ (P : K → V → Type κ) where
  -- Every entry satisfies the predicate.
  abbrev pub Entries : Dict K V → Type κ
  Entries [] = Unit
  Entries ((k, v) ∷ d) = P k v × Entries d

  pub insert-Entries : (k : K) (v : V) (d : Dict K V) → P k v → Entries d → Entries (insert k v d)
  unfolding insert
  insert-Entries k v [] p h = (p, tt)
  insert-Entries k v ((j, w) ∷ d) p h = elim (Bool-cases (j == k)) [
    | inl old ↦ rw old (rw ((e.beq_iff j k).0 old) p, h.1)
    | inr new ↦ rw new (h.0, insert-Entries k v d p h.1)
  ]

  pub remove-Entries : (k : K) (d : Dict K V) → Entries d → Entries (remove k d)
  unfolding remove
  remove-Entries k [] h = h
  remove-Entries k ((j, w) ∷ d) h = elim (Bool-cases (j == k)) [
    | inl old ↦ rw old (remove-Entries k d h.1)
    | inr new ↦ rw new (h.0, remove-Entries k d h.1)
  ]

  pub lookup-Entries : (k : K) (v : V) (d : Dict K V) → Entries d → lookup k d ≡ some v → P k v
  unfolding lookup
  lookup-Entries k v [] h found = absurd (ground arith)
  lookup-Entries k v ((j, w) ∷ d) h found = elim (Bool-cases (j == k)) [
    | inl old ↦
        let at : w ≡ v = ground arith in
        subst (λ x. P k x) at (subst (λ x. P x w) ((e.beq_iff j k).0 old) h.0)
    | inr new ↦ lookup-Entries k v d h.1 (ground arith)
  ]
