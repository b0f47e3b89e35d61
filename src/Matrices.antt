-- ===== src/Matrices.antt =====
-- src/StyioExtern/ExternLib.cpp: the matrices of integers behind the runtime's entry points, as
-- values. Arithmetic on int64_t that leaves its range is undefined behaviour. Whether memory for a
-- number of elements can be had is a parameter, since the constructor of a std::vector throws where
-- it is above max_size or cannot be allocated.
pub mod Loops
pub mod Entries
pub mod Products
pub mod Shapes
mod Tests
use styio.Prelude.{
  ℕ, zero, suc, ◌+◌, ◌*◌, ◌/◌, Bool, true, false, not, ◌&&◌, ◌||◌, Option, none, some, List, [],
  ◌∷◌, length, get_or, set, replicate, ltb, ◌==◌, if◌then◌else◌,
}
use styio.Prelude.Integers.{ℤ, pos, negsuc, ◌+ℤ◌, ◌-ℤ◌, ◌*ℤ◌, max_int, checked}

-- `StyioMatrixI64`
pub record Matrix : Type 0 where
  pub rows : ℕ
  pub cols : ℕ
  pub elems : List ℤ

-- What an entry point that makes a matrix comes to: the error that it reports, undefined behaviour,
-- the exception of the vector, or the matrix.
pub data Outcome : Type 0 where
  refused undefined_behaviour thrown : Outcome
  made : Matrix → Outcome

abbrev pub and_then : Outcome → (Matrix → Outcome) → Outcome
and_then (made m) f = f m
and_then refused f = refused
and_then undefined_behaviour f = undefined_behaviour
and_then thrown f = thrown

-- A matrix of zeros.
abbrev pub blank : ℕ → ℕ → Matrix
blank rows cols = record { rows = rows; cols = cols; elems = replicate (rows * cols) (pos 0) }

-- `check_matrix_dims`, with the dimensions that it lets pass
unfoldable pub check_matrix_dims : ℤ → ℤ → Option (ℕ × ℕ)
check_matrix_dims (pos zero) cols = none
check_matrix_dims (pos (suc r)) (pos zero) = none
check_matrix_dims (pos (suc r)) (pos (suc c)) =
    if ltb (max_int / suc c) (suc r) then none else some (suc r, suc c)
check_matrix_dims (pos (suc r)) (negsuc c) = none
check_matrix_dims (negsuc r) cols = none

abbrev pub matrix_offset : Matrix → ℕ → ℕ → ℕ
matrix_offset m row col = row * m.cols + col

-- `check_matrix_index`, with the offset that is then used
unfoldable pub checked_offset : Matrix → ℤ → ℤ → Option ℕ
checked_offset m (pos row) (pos col) =
    if not (ltb row m.rows) || not (ltb col m.cols) then none else some (matrix_offset m row col)
checked_offset m (pos row) (negsuc col) = none
checked_offset m (negsuc row) col = none

-- `none` is the error that is reported.
unfoldable pub matrix_get : Matrix → ℤ → ℤ → Option ℤ
unfolding checked_offset
matrix_get m row col = elim (checked_offset m row col) [
  | none ↦ none
  | some offset ↦ some (get_or m.elems offset (pos 0))
]

unfoldable pub matrix_set : Matrix → ℤ → ℤ → ℤ → Option Matrix
unfolding checked_offset
matrix_set m row col value = elim (checked_offset m row col) [
  | none ↦ none
  | some offset ↦ some record { rows = m.rows; cols = m.cols; elems = set m.elems offset value }
]

-- `same_matrix_shape`
abbrev pub same_matrix_shape : Matrix → Matrix → Bool
same_matrix_shape a b = a.rows == b.rows && a.cols == b.cols

-- The loops over all columns of a row, and over all rows, that write one element each round.
unfoldable pub columns_done : (ℕ → ℕ → ℕ) → (ℕ → ℕ → ℤ) → ℕ → ℕ → List ℤ → List ℤ
columns_done offset value row zero out = out
columns_done offset value row (suc col) out =
    set (columns_done offset value row col out) (offset row col) (value row col)

unfoldable pub rows_done : (ℕ → ℕ → ℕ) → (ℕ → ℕ → ℤ) → ℕ → ℕ → List ℤ → List ℤ
unfolding columns_done
rows_done offset value zero cols out = out
rows_done offset value (suc row) cols out =
    columns_done offset value row cols (rows_done offset value row cols out)

-- These loops with a value that may be undefined.
unfoldable pub columns_tried : (ℕ → ℕ → ℕ) → (ℕ → ℕ → Option ℤ) → ℕ → ℕ → List ℤ → Option (List ℤ)
columns_tried offset value row zero out = some out
columns_tried offset value row (suc col) out = elim (columns_tried offset value row col out) [
  | none ↦ none
  | some before ↦ elim (value row col) [
    | none ↦ none
    | some v ↦ some (set before (offset row col) v)
  ]
]

unfoldable pub rows_tried : (ℕ → ℕ → ℕ) → (ℕ → ℕ → Option ℤ) → ℕ → ℕ → List ℤ → Option (List ℤ)
unfolding columns_tried
rows_tried offset value zero cols out = some out
rows_tried offset value (suc row) cols out = elim (rows_tried offset value row cols out) [
  | none ↦ none
  | some before ↦ columns_tried offset value row cols before
]

-- The sum of the products of a row and a column, over the first elements of both.
unfoldable pub product_sum : Matrix → Matrix → ℕ → ℕ → ℕ → Option ℤ
product_sum a b r c zero = some (pos 0)
product_sum a b r c (suc k) = elim (product_sum a b r c k) [
  | none ↦ none
  | some sum ↦
      elim (checked (
        get_or a.elems (matrix_offset a r k) (pos 0)
        *ℤ get_or b.elems (matrix_offset b k c) (pos 0))) [
          | none ↦ none
          | some product ↦ checked (sum +ℤ product)
        ]
]

-- The loop over the elements of two matrices.
unfoldable pub zipped : (ℤ → ℤ → ℤ) → List ℤ → List ℤ → Option (List ℤ)
zipped f [] ys = some []
zipped f (x ∷ xs) [] = none
zipped f (x ∷ xs) (y ∷ ys) = elim (checked (f x y)) [
  | none ↦ none
  | some v ↦ elim (zipped f xs ys) [ none ↦ none | some rest ↦ some (v ∷ rest) ]
]

-- `out` with the elements that a loop wrote to it
abbrev pub filled : Matrix → Option (List ℤ) → Outcome
filled out none = undefined_behaviour
filled out (some elems) = made record { rows = out.rows; cols = out.cols; elems = elems }

module _ (allocates : ℕ → Bool) where
  -- The constructor. The number of the elements is a product of two int64_t.
  unfoldable pub zeros : ℕ → ℕ → Outcome
  zeros rows cols =
      if ltb max_int (rows * cols)
      then undefined_behaviour
      else if allocates (rows * cols)
      then made (blank rows cols)
      else thrown

  unfoldable pub new_matrix : ℤ → ℤ → Outcome
  unfolding check_matrix_dims zeros
  new_matrix rows cols = elim (check_matrix_dims rows cols) [
    | none ↦ refused
    | some (r, c) ↦ zeros r c
  ]

  unfoldable pub matrix_matmul : Matrix → Matrix → Outcome
  unfolding rows_tried product_sum zeros
  matrix_matmul a b =
      if not (a.cols == b.rows)
      then refused
      else and_then (zeros a.rows b.cols) (λ out. filled out (
          rows_tried (matrix_offset out) (λ r c. product_sum a b r c a.cols) a.rows b.cols
            out.elems))

  unfoldable pub matrix_transpose : Matrix → Outcome
  unfolding rows_done zeros
  matrix_transpose m = and_then (zeros m.cols m.rows) (λ out. filled out (
      some (
        rows_done (λ r c. matrix_offset out c r)
          (λ r c. get_or m.elems (matrix_offset m r c) (pos 0)) m.rows m.cols out.elems)))

  unfoldable pub elementwise : (ℤ → ℤ → ℤ) → Matrix → Matrix → Outcome
  unfolding zipped zeros
  elementwise f a b =
      if not (same_matrix_shape a b)
      then refused
      else and_then (zeros a.rows a.cols) (λ out. filled out (zipped f a.elems b.elems))

  abbrev pub matrix_add : Matrix → Matrix → Outcome
  matrix_add a b = elementwise (λ x y. x +ℤ y) a b

  abbrev pub matrix_sub : Matrix → Matrix → Outcome
  matrix_sub a b = elementwise (λ x y. x -ℤ y) a b

  abbrev pub matrix_hadamard : Matrix → Matrix → Outcome
  matrix_hadamard a b = elementwise (λ x y. x *ℤ y) a b
