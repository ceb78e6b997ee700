-- ===== src/Catalog/Tables.antt =====
-- Tables with an id and a value, and the statements that the merge runs on them. A value may be NULL,
-- which equals nothing.
use anime_manager.Base.{
  ◌≡◌, refl, Bool, false, ◌&&◌, ◌||◌, List, [], ◌∷◌, Option, none, some, arith, if◌then◌else◌,
}
use anime_manager.Base.Int.{ℤ}
use anime_manager.Base.Dict.{Eq, ◌==◌, member}
use anime_manager.Catalog.Ids.{int_eq, int_beq_iff}

abbrev pub Table : Type 0 → Type 0
Table V = List (ℤ × Option V)

module _ {V : Type 0} ⦃e : Eq V⦄ where
  unfoldable pub value_is : V → Option V → Bool
  value_is v none = false
  value_is v (some w) = w == v

  -- SELECT EXISTS(SELECT 1 FROM table WHERE id=? AND value=?)
  unfoldable pub has : ℤ → V → Table V → Bool
  unfolding value_is
  has i v [] = false
  has i v ((j, w) ∷ rows) = j == i && value_is v w || has i v rows

  -- DELETE FROM table WHERE id=? AND value=?
  unfoldable pub delete_row : ℤ → V → Table V → Table V
  unfolding value_is
  delete_row i v [] = []
  delete_row i v ((j, w) ∷ rows) =
      let rest = delete_row i v rows in if j == i && value_is v w then rest else (j, w) ∷ rest

  -- UPDATE table SET id=? WHERE id=? AND value=?
  unfoldable pub move_row : ℤ → ℤ → V → Table V → Table V
  unfolding value_is
  move_row d c v [] = []
  move_row d c v ((j, w) ∷ rows) =
      (if j == d && value_is v w then c else j, w) ∷ move_row d c v rows

  -- DELETE FROM table WHERE id=?
  unfoldable pub delete_id : ℤ → Table V → Table V
  delete_id d [] = []
  delete_id d ((j, w) ∷ rows) =
      let rest = delete_id d rows in if j == d then rest else (j, w) ∷ rest

  -- The values of SELECT value FROM table WHERE id=?, without NULL.
  unfoldable pub values_of : ℤ → Table V → List V
  values_of d [] = []
  values_of d ((j, none) ∷ rows) = values_of d rows
  values_of d ((j, some w) ∷ rows) =
      let rest = values_of d rows in if j == d then w ∷ rest else rest

  -- One turn of the repointing loops.
  unfoldable pub repoint_value : ℤ → ℤ → V → Table V → Table V
  repoint_value d c v rows = if has c v rows then delete_row d v rows else move_row d c v rows

  unfoldable pub repoint_values : ℤ → ℤ → List V → Table V → Table V
  repoint_values d c [] rows = rows
  repoint_values d c (v ∷ vs) rows = repoint_values d c vs (repoint_value d c v rows)

  unfoldable pub repoint : ℤ → ℤ → Table V → Table V
  repoint d c rows = repoint_values d c (values_of d rows) rows

  pub has-delete_id :
      (d i : ℤ) (w : V) (rows : Table V)
      → has i w (delete_id d rows) ≡ (if d == i then false else has i w rows)
  unfolding has delete_id
  has-delete_id d i w [] = ground arith
  has-delete_id d i w ((j, v) ∷ rows) =
      ground (arith, has-delete_id d i w rows, int_beq_iff j d, int_beq_iff j i, int_beq_iff d i)

  pub has-delete_row :
      (d i : ℤ) (v w : V) (rows : Table V)
      → has i w (delete_row d v rows) ≡ (if d == i && v == w then false else has i w rows)
  unfolding has delete_row value_is
  has-delete_row d i v w [] = ground arith
  has-delete_row d i v w ((j, none) ∷ rows) =
      ground (arith, has-delete_row d i v w rows, int_beq_iff j d, int_beq_iff j i, int_beq_iff d i)
  has-delete_row d i v w ((j, some u) ∷ rows) = ground (
    arith,
    has-delete_row d i v w rows,
    int_beq_iff j d,
    int_beq_iff j i,
    int_beq_iff d i,
    e.beq_iff u v,
    e.beq_iff u w,
    e.beq_iff v w,
  )

  pub member-values_of :
      (d : ℤ) (w : V) (rows : Table V) → member w (values_of d rows) ≡ has d w rows
  unfolding member values_of has value_is
  member-values_of d w [] = refl
  member-values_of d w ((j, none) ∷ rows) = ground (arith, member-values_of d w rows)
  member-values_of d w ((j, some u) ∷ rows) = ground (arith, member-values_of d w rows)
