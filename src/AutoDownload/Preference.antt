-- ===== src/AutoDownload/Preference.antt =====
-- The vote on the preferred release.
use anime_manager.Base.{
  ◌≤◌, ◌≡◌, refl, ◌⊎◌, inl, inr, Bool, true, false, not, List, [], ◌∷◌, Option, none, some, arith,
  ==_iff, if◌then◌else◌, keep, Bool-cases, ◌==◌ as nat_beq,
}
use anime_manager.Base.Dict.{◌==◌, member}
use anime_manager.Base.Text.{Text}
use anime_manager.AutoDownload.Matching.{
  Parsed, TorrentRow, ReleasePreference, preference_beq_iff, preference_eq, distinct, count,
  best_count, last_tied, or_key, chosen, tied_keys, elect, ballots, infer_preference,
}

member-keep :
    (k : ReleasePreference) (f : ReleasePreference → Bool) (l : List ReleasePreference)
    → member k (keep f l) ≡ true
    → (member k l ≡ true) × (f k ≡ true)
unfolding member
member-keep k f [] h = absurd (cc)
member-keep k f (j ∷ l) h = (
  ground (arith, member-keep k f l, preference_beq_iff j k),
  ground (arith, member-keep k f l, preference_beq_iff j k),
)

keeps_member :
    (k : ReleasePreference) (f : ReleasePreference → Bool) (l : List ReleasePreference)
    → member k l ≡ true
    → f k ≡ true
    → member k (keep f l) ≡ true
unfolding member
keeps_member k f [] h g = h
keeps_member k f (j ∷ l) h g = ground (arith, keeps_member k f l, preference_beq_iff j k)

member-distinct :
    (k : ReleasePreference) (l : List ReleasePreference)
    → member k l ≡ true
    → member k (distinct l) ≡ true
unfolding member distinct
member-distinct k [] h = h
member-distinct k (j ∷ l) h = ground (
  arith,
  member-distinct k l,
  keeps_member k (λ i. not (i == j)) (distinct l),
  preference_beq_iff k j,
  preference_beq_iff j k,
)

count-absent :
    (k : ReleasePreference) (l : List ReleasePreference) → member k l ≡ false → count k l ≡ 0
unfolding member count
count-absent k [] h = refl
count-absent k (j ∷ l) h = ground (arith, count-absent k l)

best_count-max :
    (order : List ReleasePreference) (k : ReleasePreference) (keys : List ReleasePreference)
    → member k keys ≡ true
    → count k order ≤ best_count order keys
unfolding member best_count
best_count-max order k [] h = absurd (cc)
best_count-max order k (j ∷ keys) h =
    ground (arith, best_count-max order k keys, preference_beq_iff j k)

or_key-some :
    (o p : Option ReleasePreference) (k : ReleasePreference)
    → or_key o p ≡ some k
    → (o ≡ some k) ⊎ (p ≡ some k)
unfolding or_key
or_key-some none p k e = inr e
or_key-some (some j) p k e = inl e

last_tied-member :
    (tied l : List ReleasePreference) (k : ReleasePreference)
    → last_tied tied l ≡ some k
    → (member k tied ≡ true) × (member k l ≡ true)
unfolding last_tied member
last_tied-member tied [] k e = absurd (cc)
last_tied-member tied (j ∷ l) k e =
    elim (or_key-some (last_tied tied l) (if member j tied then some j else none) k e) [
      | inl later ↦ let (in_tied, in_l) = last_tied-member tied l k later in (in_tied, ground arith)
      | inr last ↦ (ground (arith, preference_beq_iff j k), ground (arith, preference_beq_iff j k))
    ]

chosen-member :
    (order tied : List ReleasePreference) (k : ReleasePreference)
    → chosen order tied ≡ some k
    → member k tied ≡ true
unfolding chosen member
chosen-member order [] k e = (last_tied-member [] order k e).0
chosen-member order (j ∷ []) k e = ground (arith, preference_beq_iff j k)
chosen-member order (j ∷ i ∷ tied) k e = (last_tied-member (j ∷ i ∷ tied) order k e).0

count-bounded :
    (order : List ReleasePreference) (q : ReleasePreference)
    → count q order ≤ best_count order (distinct order)
count-bounded order q = elim (Bool-cases (member q order)) [
  | inl there ↦ best_count-max order q (distinct order) (member-distinct q order there)
  | inr absent ↦ omega (arith, count-absent q order absent)
]

elect-majority :
    (order : List ReleasePreference) (k q : ReleasePreference)
    → elect order ≡ some k
    → count q order ≤ count k order
unfolding elect tied_keys
elect-majority [] k q e = absurd (cc)
elect-majority (j ∷ order) k q e =
    let (_, best) =
      member-keep k
        (λ i. nat_beq (count i (j ∷ order)) (best_count (j ∷ order) (distinct (j ∷ order))))
        (distinct (j ∷ order)) (chosen-member (j ∷ order) (tied_keys (j ∷ order)) k e) in
    omega (arith, count-bounded (j ∷ order) q, (==_iff _ _).0 best)

-- The preference that is inferred has at least as many votes as any other.
pub infer_preference-majority :
    (parse_title : Text → Option Parsed) (rows : List TorrentRow)
    (chosen_pair q : ReleasePreference)
    → infer_preference parse_title rows ≡ some chosen_pair
    → count q (ballots parse_title rows) ≤ count chosen_pair (ballots parse_title rows)
unfolding infer_preference
infer_preference-majority parse_title rows k q e = elect-majority (ballots parse_title rows) k q e
