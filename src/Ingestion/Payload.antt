-- ===== src/Ingestion/Payload.antt =====
-- shared/contracts.py: the payload of a provider, as far as the pipeline looks at it, and its fingerprint.
use anime_manager.Base.{
  ◌≡◌, ◌↔◌, Bool, true, false, ◌&&◌, List, [], ◌∷◌, arith, ltb, if◌then◌else◌, ◌==◌ as nat_beq,
}
use anime_manager.Base.Int.{ℤ, ltb_ℤ}
use anime_manager.Base.Dict.{Eq, ◌==◌, Dict}
use anime_manager.Base.Text.{Text, text_eq, text_beq_iff, strip, lower}
use anime_manager.Catalog.Ids.{int_eq, int_beq_iff}

pub record ProviderAnimePayload : Type 0 where
  pub title : Text
  pub external_ids : Dict Text ℤ
  pub source_provider : Text

abbrev pub Item : Type 0
Item = Text × ℤ

abbrev pub item_beq : Item → Item → Bool
item_beq (k, v) (k', v') = k == k' && v == v'

pub items_beq : List Item → List Item → Bool
items_beq [] [] = true
items_beq [] (b ∷ l) = false
items_beq (a ∷ k) [] = false
items_beq (a ∷ k) (b ∷ l) = item_beq a b && items_beq k l

items_beq_iff : (k l : List Item) → (items_beq k l ≡ true) ↔ (k ≡ l)
unfolding items_beq
items_beq_iff [] [] = ground arith
items_beq_iff [] (b ∷ l) = (λ h. cc, λ h. cc)
items_beq_iff (a ∷ k) [] = (λ h. cc, λ h. cc)
items_beq_iff ((t, v) ∷ k) ((u, w) ∷ l) =
    ground (arith, text_beq_iff t u, int_beq_iff v w, items_beq_iff k l)

-- The order of Python's texts.
text_lt : Text → Text → Bool
text_lt [] [] = false
text_lt [] (y ∷ t) = true
text_lt (x ∷ s) [] = false
text_lt (x ∷ s) (y ∷ t) = let rest = text_lt s t in if nat_beq x y then rest else ltb x y

item_lt : Item → Item → Bool
unfolding text_lt
item_lt (k, v) (k', v') = if k == k' then ltb_ℤ v v' else text_lt k k'

insert_item : Item → List Item → List Item
unfolding item_lt
insert_item a [] = a ∷ []
insert_item a (b ∷ l) = if item_lt b a then b ∷ insert_item a l else a ∷ b ∷ l

-- sorted(external_ids.items())
unfoldable pub sorted_items : List Item → List Item
unfolding insert_item
sorted_items [] = []
sorted_items (a ∷ l) = insert_item a (sorted_items l)

pub data Fingerprint : Type 0 where
  ext : List Item → Fingerprint
  titled : Text → Text → Fingerprint

unfoldable pub fingerprint_beq : Fingerprint → Fingerprint → Bool
unfolding items_beq
fingerprint_beq (ext k) (ext l) = items_beq k l
fingerprint_beq (ext k) (titled p t) = false
fingerprint_beq (titled p t) (ext l) = false
fingerprint_beq (titled p t) (titled q u) = p == q && t == u

pub fingerprint_beq_iff : (a b : Fingerprint) → (fingerprint_beq a b ≡ true) ↔ (a ≡ b)
unfolding fingerprint_beq
fingerprint_beq_iff (ext k) (ext l) = ground (arith, items_beq_iff k l)
fingerprint_beq_iff (ext k) (titled p t) = (λ h. absurd (cc), λ h. absurd (cc))
fingerprint_beq_iff (titled p t) (ext l) = (λ h. absurd (cc), λ h. absurd (cc))
fingerprint_beq_iff (titled p t) (titled q u) = ground (arith, text_beq_iff p q, text_beq_iff t u)

instance abbrev pub fingerprint_eq : Eq Fingerprint
fingerprint_eq = record { beq = fingerprint_beq; beq_iff = fingerprint_beq_iff }

fingerprint_of : Text → Text → List Item → Fingerprint
fingerprint_of source title [] = titled source (lower (strip title))
fingerprint_of source title (a ∷ items) = ext (a ∷ items)

unfoldable pub payload_fingerprint : ProviderAnimePayload → Fingerprint
unfolding fingerprint_of
payload_fingerprint p = fingerprint_of p.source_provider p.title (sorted_items p.external_ids)
