-- ===== src/AutoDownload/Candidate.antt =====
-- Which search result is picked.
use anime_manager.Base.{
  ℕ, zero, suc, ◌≤◌, ◌<◌, ◌↔◌, subst, ◌≡◌, refl, ◌⊎◌, inl, inr, ◌∙◌, ap, sym, Bool, true, false,
  List, [], ◌∷◌, Option, none, some, arith, if◌then◌else◌, ltb, Bool-cases, All,
}
use anime_manager.Base.Text.{Text, codes, lower, text_eq, text_beq_iff}
use anime_manager.Base.Dict.{member}
use anime_manager.AutoDownload.Matching.{
  Parsed, SearchRow, ReleasePreference, norm, is_blank_text, same_episode, right_season,
  excluded_hashes, is_excluded, fits_facets, matches, better, scan_candidates,
  find_matching_candidate,
}

-- The row is one of the list.
abbrev pub Among : SearchRow → List SearchRow → Type 0
Among r [] = ⊥
Among r (row ∷ rows) = (row ≡ r) ⊎ Among r rows

some-seeds : (b r : SearchRow) → some b ≡ some r → b.seeds ≤ r.seeds
some-seeds b r e = ground arith

some_inj : {a b : SearchRow} → some a ≡ some b → a ≡ b
some_inj e = cc

module _ (p : SearchRow → Bool) where
  -- No matching row has more seeds.
  abbrev pub Outseeds : SearchRow → List SearchRow → Type 0
  Outseeds r rows = All (λ row. p row ≡ true → row.seeds ≤ r.seeds) rows

  better-seeds :
      (row : SearchRow) (best : Option SearchRow)
      → (row.seeds ≤ (better row best).seeds)
        × ((b : SearchRow) → best ≡ some b → b.seeds ≤ (better row best).seeds)
        × ((better row best ≡ row) ⊎ (best ≡ some (better row best)))
  unfolding better
  better-seeds row none = (omega arith, λ b e. absurd (cc), inl refl)
  better-seeds row (some b) = elim (Bool-cases (ltb b.seeds row.seeds)) [
    | inl more ↦ rw more (omega arith, λ c e. same_seeds c e more, inl refl)
    | inr less ↦ rw less (ground arith, λ c e. kept c e, inr refl)
  ]
    where
      same_seeds :
          (c : SearchRow) → some b ≡ some c → ltb b.seeds row.seeds ≡ true → c.seeds ≤ row.seeds
      same_seeds c e more = ground arith

      kept : (c : SearchRow) → some b ≡ some c → c.seeds ≤ b.seeds
      kept c e = ground arith

  scan_candidates-best :
      (best : Option SearchRow) (rows : List SearchRow) (r : SearchRow)
      → scan_candidates p best rows ≡ some r
      → ((best ≡ some r) ⊎ (Among r rows × (p r ≡ true)))
        × Outseeds r rows
        × ((b : SearchRow) → best ≡ some b → b.seeds ≤ r.seeds)
  unfolding scan_candidates
  scan_candidates-best best [] r e = (inl e, tt, λ b h. agree b h)
    where
      agree : (b : SearchRow) → best ≡ some b → b.seeds ≤ r.seeds
      agree b h = some-seeds b r (sym h ∙ e)
  scan_candidates-best best (row ∷ rows) r e = elim (Bool-cases (p row)) [
    | inl hit ↦
        let e' : scan_candidates p (some (better row best)) rows ≡ some r =
          ap (λ b. scan_candidates p (if b then some (better row best) else best) rows) (sym hit)
          ∙ e in
        let (found, rest, over) = scan_candidates-best (some (better row best)) rows r e' in
        let (over_row, over_best, which) = better-seeds row best in
        (
          picked hit found which,
          (λ h. omega (arith, over_row, over (better row best) refl), rest),
          λ b h. omega (arith, over_best b h, over (better row best) refl),
        )
    | inr miss ↦
        let e' : scan_candidates p best rows ≡ some r =
          ap (λ b. scan_candidates p (if b then some (better row best) else best) rows) (sym miss)
          ∙ e in
        let (found, rest, over) = scan_candidates-best best rows r e' in
        (further found, (λ h. absurd (cc), rest), over)
  ]
    where
      further :
          (best ≡ some r) ⊎ (Among r rows × (p r ≡ true))
          → (best ≡ some r) ⊎ (Among r (row ∷ rows) × (p r ≡ true))
      further (inl b) = inl b
      further (inr (later, ok)) = inr (inr later, ok)

      picked :
          p row ≡ true
          → (some (better row best) ≡ some r) ⊎ (Among r rows × (p r ≡ true))
          → (better row best ≡ row) ⊎ (best ≡ some (better row best))
          → (best ≡ some r) ⊎ (Among r (row ∷ rows) × (p r ≡ true))
      picked hit (inr (later, ok)) which = inr (inr later, ok)
      picked hit (inl now) (inr kept) = inl (kept ∙ now)
      picked hit (inl now) (inl new) =
          let same : row ≡ r = some_inj (ap some (sym new) ∙ now) in
          inr (inl same, ap p (sym same) ∙ hit)

  scan_candidates-none :
      (best : Option SearchRow) (rows : List SearchRow)
      → scan_candidates p best rows ≡ none
      → (best ≡ none) × All (λ row. p row ≡ false) rows
  unfolding scan_candidates
  scan_candidates-none best [] e = (e, tt)
  scan_candidates-none best (row ∷ rows) e = elim (Bool-cases (p row)) [
    | inl hit ↦
        let (gone, _) = scan_candidates-none (some (better row best)) rows (
          ap (λ b. scan_candidates p (if b then some (better row best) else best) rows) (sym hit)
          ∙ e) in
        absurd (cc)
    | inr miss ↦
        let (gone, rest) = scan_candidates-none best rows (
          ap (λ b. scan_candidates p (if b then some (better row best) else best) rows) (sym miss)
          ∙ e) in
        (gone, (miss, rest))
  ]

outseeded :
    (p : SearchRow → Bool) (r row : SearchRow) (rows : List SearchRow)
    → Outseeds p r rows
    → Among row rows
    → p row ≡ true
    → row.seeds ≤ r.seeds
outseeded p r row [] o a h = absurd a
outseeded p r row (x ∷ rows) o (inl same) h = subst (λ y. p y ≡ true → y.seeds ≤ r.seeds) same o.0 h
outseeded p r row (x ∷ rows) o (inr later) h = outseeded p r row rows o.1 later h

-- The season that a release states; an unmarked one, or season 0, is season 1.
abbrev pub RightSeason : Option ℕ → Option ℕ → Type 0
RightSeason season stated =
    (n : ℕ)
    → season ≡ some n
    → ((stated ≡ some n) × (0 < n)) ⊎ ((n ≡ 1) × ((stated ≡ none) ⊎ (stated ≡ some 0)))

-- A single episode that is asked for, in the release that is preferred, whose hash is not an excluded one
-- in whatever case this is written.
pub record Fits (preference : ReleasePreference) (episode : ℕ) (excluded : List Text)
    (season : Option ℕ) (row : SearchRow) : Type 0 where
  pub facets : Parsed
  pub parsed : row.parsed ≡ some facets
  pub not_batch : facets.is_batch ≡ false
  pub single : norm facets.kind ≡ codes "single"
  pub episode_asked : facets.episode ≡ some episode
  pub season_asked : RightSeason season facets.season
  pub publisher : norm facets.publisher ≡ preference.0
  pub resolution : norm facets.resolution ≡ preference.1
  pub not_excluded : All (λ h. lower h ≡ norm row.infohash → norm row.infohash ≡ []) excluded

right_season-RightSeason :
    (season stated : Option ℕ) → right_season season stated ≡ true → RightSeason season stated
unfolding right_season
right_season-RightSeason none stated h n e = absurd (cc)
right_season-RightSeason (some m) none h n e = inr (ground arith, inl refl)
right_season-RightSeason (some m) (some zero) h n e = inr (ground arith, inr refl)
right_season-RightSeason (some m) (some (suc k)) h n e = inl (ground arith, ground arith)

right_season_met :
    (m : ℕ) (stated : Option ℕ)
    → ((stated ≡ some m) × (0 < m)) ⊎ ((m ≡ 1) × ((stated ≡ none) ⊎ (stated ≡ some 0)))
    → right_season (some m) stated ≡ true
unfolding right_season
right_season_met m none (inl (e, pos)) = absurd (cc)
right_season_met m none (inr (one, _)) = ground arith
right_season_met m (some k) (inl (e, pos)) = ground arith
right_season_met m (some k) (inr (one, inl e)) = absurd (cc)
right_season_met m (some k) (inr (one, inr e)) = ground arith

RightSeason-right_season :
    (season stated : Option ℕ) → RightSeason season stated → right_season season stated ≡ true
RightSeason-right_season none stated h = unfold right_season in refl
RightSeason-right_season (some m) stated h = right_season_met m stated (h m refl)

is_excluded-All :
    (hash : Text) (excluded : List Text)
    → is_excluded hash (excluded_hashes excluded) ≡ false
    → All (λ h. lower h ≡ hash → hash ≡ []) excluded
unfolding is_excluded excluded_hashes member is_blank_text lower
is_excluded-All hash [] h = tt
is_excluded-All [] (x ∷ xs) h = (λ e. refl, is_excluded-All [] xs refl)
is_excluded-All (c ∷ t) ([] ∷ xs) h = (λ e. sym e, is_excluded-All (c ∷ t) xs h)
is_excluded-All (c ∷ t) ((b ∷ x) ∷ xs) h = (
  (λ e. absurd (ground (arith, text_beq_iff (lower (b ∷ x)) (c ∷ t)))),
  is_excluded-All (c ∷ t) xs (ground (arith, text_beq_iff (lower (b ∷ x)) (c ∷ t))),
)

All-is_excluded :
    (hash : Text) (excluded : List Text)
    → All (λ h. lower h ≡ hash → hash ≡ []) excluded
    → is_excluded hash (excluded_hashes excluded) ≡ false
unfolding is_excluded excluded_hashes member is_blank_text
All-is_excluded [] xs h = refl
All-is_excluded (c ∷ t) [] h = refl
All-is_excluded (c ∷ t) ([] ∷ xs) h = All-is_excluded (c ∷ t) xs h.1
All-is_excluded (c ∷ t) ((b ∷ x) ∷ xs) h =
    ground (arith, All-is_excluded (c ∷ t) xs h.1, text_beq_iff (lower (b ∷ x)) (c ∷ t), other)
  where
    other : lower (b ∷ x) ≡ c ∷ t → ⊥
    other e = no_text (h.0 e)
      where
        no_text : c ∷ t ≡ [] → ⊥
        no_text e' = cc

same_episode_eq : (n : ℕ) (o : Option ℕ) → same_episode n o ≡ true → o ≡ some n
unfolding same_episode
same_episode_eq n none h = cc
same_episode_eq n (some m) h = ground arith

fits_facets_facts :
    (publisher resolution : Text) (episode : ℕ) (season : Option ℕ) (p : Parsed)
    → fits_facets (publisher, resolution) episode season (some p) ≡ true
    → (p.is_batch ≡ false)
      × (norm p.kind ≡ codes "single")
      × (p.episode ≡ some episode)
      × (right_season season p.season ≡ true)
      × (norm p.publisher ≡ publisher)
      × (norm p.resolution ≡ resolution)
unfolding fits_facets
fits_facets_facts publisher resolution episode season p h = (
  ground arith,
  (text_beq_iff (norm p.kind) (codes "single")).0 (ground arith),
  same_episode_eq episode p.episode (ground arith),
  ground arith,
  (text_beq_iff (norm p.publisher) publisher).0 (ground arith),
  (text_beq_iff (norm p.resolution) resolution).0 (ground arith),
)

-- The guards of the loop let through exactly the rows that fit.
pub matches_iff :
    (preference : ReleasePreference) (episode : ℕ) (excluded : List Text) (season : Option ℕ)
    (row : SearchRow)
    → (matches preference episode (excluded_hashes excluded) season row ≡ true)
      ↔ Fits preference episode excluded season row
unfolding matches
matches_iff (publisher, resolution) episode excluded season row =
    (λ h. to row.parsed refl (ground arith) (ground arith), λ f. from f)
  where
    to :
        (o : Option Parsed)
        → row.parsed ≡ o
        → is_excluded (norm row.infohash) (excluded_hashes excluded) ≡ false
        → fits_facets (publisher, resolution) episode season row.parsed ≡ true
        → Fits (publisher, resolution) episode excluded season row
    to none e free fits = absurd (unfold fits_facets in cc)
    to (some p) e free fits =
        let (batch, kind, number, right, by, at) =
          fits_facets_facts publisher resolution episode season p
            (ap (λ o. fits_facets (publisher, resolution) episode season o) (sym e) ∙ fits) in
        record {
          facets = p;
          parsed = e;
          not_batch = batch;
          single = kind;
          episode_asked = number;
          season_asked = right_season-RightSeason season p.season right;
          publisher = by;
          resolution = at;
          not_excluded = is_excluded-All (norm row.infohash) excluded free;
        }

    from :
        Fits (publisher, resolution) episode excluded season row
        → matches (publisher, resolution) episode (excluded_hashes excluded) season row ≡ true
    from f =
        rw (All-is_excluded (norm row.infohash) excluded f.not_excluded, f.parsed)
          (unfold fits_facets same_episode in
            ground (
              arith,
              f.episode_asked,
              RightSeason-right_season season f.facets.season f.season_asked,
              (text_beq_iff (norm f.facets.kind) (codes "single")).1 f.single,
              (text_beq_iff (norm f.facets.publisher) publisher).1 f.publisher,
              (text_beq_iff (norm f.facets.resolution) resolution).1 f.resolution,
            ))

none-Fits :
    (preference : ReleasePreference) (episode : ℕ) (excluded : List Text) (season : Option ℕ)
    (rows : List SearchRow)
    → All (λ row. matches preference episode (excluded_hashes excluded) season row ≡ false) rows
    → All (λ row. Fits preference episode excluded season row → ⊥) rows
none-Fits preference episode excluded season [] h = tt
none-Fits preference episode excluded season (row ∷ rows) h =
    (clash h.0, none-Fits preference episode excluded season rows h.1)
  where
    clash :
        matches preference episode (excluded_hashes excluded) season row ≡ false
        → Fits preference episode excluded season row
        → ⊥
    clash miss f = let hit = (matches_iff preference episode excluded season row).1 f in absurd (cc)

-- The row that is picked is one of the results and fits what is asked for, and no result that fits has
-- more seeds.
pub find_matching_candidate-best :
    (rows : List SearchRow) (preference : ReleasePreference) (episode : ℕ) (excluded : List Text)
    (season : Option ℕ) (r : SearchRow)
    → find_matching_candidate rows preference episode excluded season ≡ some r
    → Among r rows
      × Fits preference episode excluded season r
      × ((row : SearchRow)
          → Among row rows
          → Fits preference episode excluded season row
          → row.seeds ≤ r.seeds)
unfolding find_matching_candidate
find_matching_candidate-best rows preference episode excluded season r e =
    let p = matches preference episode (excluded_hashes excluded) season in
    let (found, rest, _) = scan_candidates-best p none rows r e in
    elim found [
      | inl now ↦ absurd (cc)
      | inr (there, ok) ↦ (
        there,
        (matches_iff preference episode excluded season r).0 ok,
        λ row among fits.
            outseeded p r row rows rest among
              ((matches_iff preference episode excluded season row).1 fits),
      )
    ]

-- Nothing is picked only if no result fits what is asked for.
pub find_matching_candidate-none :
    (rows : List SearchRow) (preference : ReleasePreference) (episode : ℕ) (excluded : List Text)
    (season : Option ℕ)
    → find_matching_candidate rows preference episode excluded season ≡ none
    → All (λ row. Fits preference episode excluded season row → ⊥) rows
unfolding find_matching_candidate
find_matching_candidate-none rows preference episode excluded season e =
    none-Fits preference episode excluded season rows
      (scan_candidates-none (matches preference episode (excluded_hashes excluded) season) none rows
        e).1
