-- ===== src/Transcoder/Room.antt =====
-- The loop that evicts sessions makes room, and never finds the server busy.
use anime_manager.Base.{
  ℕ, zero, suc, ◌≤◌, ◌<◌, ◌≡◌, refl, sym, ap, subst, ◌∙◌, inl, inr, Bool, true, false, not, List,
  [], ◌∷◌, Option, none, some, arith, if◌then◌else◌, keep, length, All, All-map, Bool-cases, leb,
  leb→le,
}
use anime_manager.Base.Dict.{◌==◌, beq_refl, lookup, remove, lookup-remove, length-remove-le}
use anime_manager.Base.Text.{Text, text_eq}
use anime_manager.Transcoder.{
  Active, Pool, Entry, ranks_below, least, stop_victim, evict_one, evict_oldest, after_evict,
  make_room,
}

-- Stopping the session makes the pool smaller.
abbrev Shrinks : Active → Entry → Type 0
Shrinks active e = length (remove e.0 active) < length active

Shrinks-head : (e : Entry) (active : Active) → Shrinks (e ∷ active) e
unfolding remove
Shrinks-head (k, a) active = rw (beq_refl k) (omega (arith, length-remove-le k active))

Shrinks-tail : (f e : Entry) (active : Active) → Shrinks active e → Shrinks (f ∷ active) e
unfolding remove
Shrinks-tail (j, b) (k, a) active h = ground (arith, h)

All-shrink : (active : Active) → All (λ e. Shrinks active e) active
All-shrink [] = tt
All-shrink (f ∷ active) =
    (Shrinks-head f active, All-map (λ e h. Shrinks-tail f e active h) active (All-shrink active))

least-Shrinks :
    (activity : Text → ℕ) (entries : List Entry) (e : Entry) (active : Active)
    → Shrinks active e
    → All (λ f. Shrinks active f) entries
    → Shrinks active (least activity e entries)
unfolding least
least-Shrinks activity [] e active h all = h
least-Shrinks activity (f ∷ entries) e active h all =
    least-Shrinks activity entries (if ranks_below activity f e then f else e) active
      (chosen (ranks_below activity f e)) all.1
  where
    chosen : (b : Bool) → Shrinks active (if b then f else e)
    chosen true = all.0
    chosen false = h

keep-absent :
    (i : Text) (active : Active)
    → lookup i active ≡ none
    → keep (λ e. not (e.0 == i)) active ≡ active
unfolding lookup
keep-absent i [] h = refl
keep-absent i ((j, a) ∷ active) h = elim (Bool-cases (j == i)) [
  | inl same ↦ absurd (nowhere (ap (λ b. if b then some a else lookup i active) (sym same) ∙ h))
  | inr other ↦ rw other (
      ap (λ l. (j, a) ∷ l)
        (keep-absent i active (ap (λ b. if b then some a else lookup i active) (sym other) ∙ h)))
]
  where
    nowhere : some a ≡ none → ⊥
    nowhere e = cc

-- What an eviction leaves.
abbrev Evicted : Text → Pool → Option Pool → Type 0
Evicted excluding p o =
    (q : Pool) × (o ≡ some q)
    × (length q.active < length p.active)
    × (lookup excluding q.active ≡ none)

evict_one-Evicted :
    (activity : Text → ℕ) (excluding : Text) (entries : List Entry) (p : Pool)
    → entries ≡ p.active
    → 0 < length p.active
    → lookup excluding p.active ≡ none
    → Evicted excluding p (evict_one activity entries p)
unfolding evict_one stop_victim
evict_one-Evicted activity excluding [] p e h absent = absurd (omega (arith, ap length e))
evict_one-Evicted activity excluding (f ∷ entries) p e h absent =
    let victim = least activity f entries in (stop_victim victim p, refl, smaller, gone victim)
  where
    among : All (λ g. Shrinks p.active g) (f ∷ entries)
    among = subst (λ l. All (λ g. Shrinks p.active g) l) (sym e) (All-shrink p.active)

    smaller : Shrinks p.active (least activity f entries)
    smaller = least-Shrinks activity entries f p.active among.0 among.1

    gone : (victim : Entry) → lookup excluding (remove victim.0 p.active) ≡ none
    gone victim = lookup-remove victim.0 excluding p.active ∙ ground arith

evict_oldest-Evicted :
    (activity : Text → ℕ) (excluding : Text) (p : Pool)
    → 0 < length p.active
    → lookup excluding p.active ≡ none
    → Evicted excluding p (evict_oldest activity excluding p)
unfolding evict_oldest
evict_oldest-Evicted activity excluding p h absent =
    evict_one-Evicted activity excluding (keep (λ f. not (f.0 == excluding)) p.active) p
      (keep-absent excluding p.active absent) h absent

-- Where the session itself has no encoder, the loop ends with room for it after at most as many evictions as
-- there are encoders.
abbrev pub Roomy : Text → ℕ → Option Pool → Type 0
Roomy excluding most o =
    (q : Pool) × (o ≡ some q) × (length q.active < most) × (lookup excluding q.active ≡ none)

pub make_room-Roomy :
    (activity : Text → ℕ) (most : ℕ) (excluding : Text) (fuel : ℕ) (p : Pool)
    → 0 < most
    → length p.active ≤ fuel
    → lookup excluding p.active ≡ none
    → Roomy excluding most (make_room activity most excluding fuel p)
unfolding make_room
make_room-Roomy activity most excluding zero p h k absent = rw small (p, refl, omega arith, absent)
  where
    small : leb most (length p.active) ≡ false
    small = ground arith
make_room-Roomy activity most excluding (suc fuel) p h k absent =
    elim (Bool-cases (leb most (length p.active))) [
      | inl full ↦
          let (q, e, smaller, gone) =
            evict_oldest-Evicted activity excluding p
              (omega (arith, leb→le most (length p.active) full)) absent in
          subst (λ o. Roomy excluding most o) (sym (stepped full q e))
            (make_room-Roomy activity most excluding fuel q h (omega (arith, smaller)) gone)
      | inr room ↦ rw room (p, refl, ground arith, absent)
    ]
  where
    stepped :
        leb most (length p.active) ≡ true
        → (q : Pool) → evict_oldest activity excluding p ≡ some q
        → make_room activity most excluding (suc fuel) p ≡ make_room activity most excluding fuel q
    stepped full q e = rw (full, e) (unfold after_evict in refl)
