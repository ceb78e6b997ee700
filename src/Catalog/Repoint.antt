-- ===== src/Catalog/Repoint.antt =====
-- What a repointing loop does to a table: the canonical id takes over every value of the duplicate.
use anime_manager.Base.{
  ◌≡◌, refl, Bool, false, ◌||◌, List, [], ◌∷◌, none, some, arith, if◌then◌else◌, Bool-cases, inl,
  inr,
}
use anime_manager.Base.Int.{ℤ}
use anime_manager.Base.Dict.{Eq, ◌==◌, member}
use anime_manager.Catalog.Ids.{int_eq, int_beq_iff}
use anime_manager.Catalog.Tables.{
  Table, has, move_row, value_is, values_of, repoint_value, repoint_values, repoint, has-delete_row,
  member-values_of,
}

module _ {V : Type 0} ⦃e : Eq V⦄ where
  -- Whether id `i` has the value once `c` has taken over those of `d`.
  unfoldable pub taken_over : ℤ → ℤ → ℤ → V → Table V → Bool
  taken_over d c i w rows =
      if i == c then has c w rows || has d w rows else if i == d then false else has i w rows

  has-move_row :
      (d c i : ℤ) (v w : V) (rows : Table V)
      → (d == c) ≡ false
      → has i w (move_row d c v rows) ≡ (if v == w then taken_over d c i w rows else has i w rows)
  unfolding has move_row value_is taken_over
  has-move_row d c i v w [] apart = ground arith
  has-move_row d c i v w ((j, none) ∷ rows) apart = ground (
    arith,
    has-move_row d c i v w rows apart,
    int_beq_iff j d,
    int_beq_iff j i,
    int_beq_iff d i,
    int_beq_iff c i,
    int_beq_iff i c,
    int_beq_iff i d,
    int_beq_iff j c,
    int_beq_iff d c,
  )
  has-move_row d c i v w ((j, some u) ∷ rows) apart = ground (
    arith,
    has-move_row d c i v w rows apart,
    int_beq_iff j d,
    int_beq_iff j i,
    int_beq_iff d i,
    int_beq_iff c i,
    int_beq_iff i c,
    int_beq_iff i d,
    int_beq_iff j c,
    int_beq_iff d c,
    e.beq_iff u v,
    e.beq_iff u w,
    e.beq_iff v w,
  )

  has-repoint_value :
      (d c i : ℤ) (v w : V) (rows : Table V)
      → (d == c) ≡ false
      → has i w (repoint_value d c v rows)
        ≡ (if v == w then taken_over d c i w rows else has i w rows)
  unfolding repoint_value taken_over
  has-repoint_value d c i v w rows apart = elim (Bool-cases (has c v rows)) [
    | inl there ↦ rw there (
        ground (
          arith,
          has-delete_row d i v w rows,
          e.beq_iff v w,
          int_beq_iff d i,
          int_beq_iff i d,
          int_beq_iff i c,
          int_beq_iff d c,
        ))
    | inr absent ↦ rw absent (has-move_row d c i v w rows apart)
  ]

  has-repoint_values :
      (d c i : ℤ) (vs : List V) (w : V) (rows : Table V)
      → (d == c) ≡ false
      → has i w (repoint_values d c vs rows)
        ≡ (if member w vs then taken_over d c i w rows else has i w rows)
  unfolding repoint_values member taken_over
  has-repoint_values d c i [] w rows apart = refl
  has-repoint_values d c i (v ∷ vs) w rows apart = ground (
    arith,
    has-repoint_values d c i vs w (repoint_value d c v rows) apart,
    has-repoint_value d c i v w rows apart,
    has-repoint_value d c c v w rows apart,
    has-repoint_value d c d v w rows apart,
    int_beq_iff d c,
    int_beq_iff c c,
    int_beq_iff d d,
    int_beq_iff i c,
    int_beq_iff i d,
  )

  -- Repointing moves the values of the duplicate to the canonical id, and touches no other id.
  pub has-repoint :
      (d c i : ℤ) (w : V) (rows : Table V)
      → (d == c) ≡ false
      → has i w (repoint d c rows) ≡ taken_over d c i w rows
  unfolding repoint taken_over
  has-repoint d c i w rows apart = ground (
    arith,
    has-repoint_values d c i (values_of d rows) w rows apart,
    member-values_of d w rows,
    int_beq_iff i c,
    int_beq_iff i d,
  )
