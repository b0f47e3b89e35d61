-- ===== src/Matrices/Tests.antt =====
-- Runs of the matrices, and their theorems at concrete ones.
use styio.Prelude.{
  arith, ℕ, ◌<◌, zero, suc, Bool, true, false, leb, ◌&&◌, none, some, [], ◌∷◌, ◌≡◌, ◌≢◌, ◌⊎◌, refl,
  if◌then◌else◌,
}
use styio.Prelude.Integers.{ℤ, pos, negsuc, ◌+ℤ◌, ◌-ℤ◌, ◌*ℤ◌, max_int}
use styio.Matrices.{
  Matrix, refused, made, undefined_behaviour, thrown, zeros, new_matrix, check_matrix_dims,
  matrix_get, matrix_set, matrix_matmul, matrix_transpose, rows_done, columns_done, rows_tried,
  columns_tried, product_sum, matrix_add, matrix_sub, elementwise, zipped,
}
use styio.Matrices.Entries.{
  IsValid, InBounds, same_index, matrix_get-matrix_set, matrix_get-matrix_transpose,
}
use styio.Matrices.Products.{sum_below, along, SumsFit, matrix_matmul_lem}
use styio.Matrices.Shapes.{
  Fits, Zeros, Combines, area, computed, meaning, subtracts, new_matrix_lem, elementwise-Combines,
}

-- A machine that has the memory for a thousand elements.
abbrev memory : ℕ → Bool
memory n = leb n 1000

abbrev wide : Matrix
wide = record { rows = 2; cols = 3; elems = pos 1 ∷ pos 2 ∷ pos 3 ∷ pos 4 ∷ pos 5 ∷ pos 6 ∷ [] }

abbrev square : Matrix
square = record { rows = 2; cols = 2; elems = pos 1 ∷ negsuc 0 ∷ pos 0 ∷ pos 2 ∷ [] }

abbrev largest : Matrix
largest = record { rows = 1; cols = 1; elems = pos max_int ∷ [] }

transposed :
    matrix_transpose memory wide
    ≡ made record { rows = 3; cols = 2; elems = pos 1 ∷ pos 4 ∷ pos 2 ∷ pos 5 ∷ pos 3 ∷ pos 6 ∷ [] }
unfolding matrix_transpose zeros rows_done columns_done
transposed = refl

negative_products :
    matrix_matmul memory square wide
    ≡ made record {
      rows = 2;
      cols = 3;
      elems = negsuc 2 ∷ negsuc 2 ∷ negsuc 2 ∷ pos 8 ∷ pos 10 ∷ pos 12 ∷ [];
    }
unfolding matrix_matmul zeros rows_tried columns_tried product_sum ◌+ℤ◌ ◌*ℤ◌
negative_products = refl

shapes_differ : matrix_matmul memory wide wide ≡ refused
unfolding matrix_matmul
shapes_differ = refl

difference_zero :
    matrix_sub memory square square
    ≡ made record { rows = 2; cols = 2; elems = pos 0 ∷ pos 0 ∷ pos 0 ∷ pos 0 ∷ [] }
unfolding elementwise zeros zipped ◌-ℤ◌ ◌+ℤ◌
difference_zero = refl

sum_overflows : matrix_add memory largest largest ≡ undefined_behaviour
unfolding elementwise zeros zipped ◌+ℤ◌
sum_overflows = refl

no_rows : new_matrix memory (pos 0) (pos 3) ≡ refused
unfolding new_matrix check_matrix_dims
no_rows = refl

no_memory : new_matrix memory (pos 100) (pos 100) ≡ thrown
unfolding new_matrix check_matrix_dims zeros
no_memory = refl

matrix_get-matrix_set_example :
    ((¬ InBounds wide (pos 1) (pos 2))
      × (matrix_get wide (pos 1) (pos 2) ≡ none)
      × (matrix_set wide (pos 1) (pos 2) (pos 9) ≡ none))
    ⊎ (InBounds wide (pos 1) (pos 2)
        × (m' : Matrix) × (matrix_set wide (pos 1) (pos 2) (pos 9) ≡ some m')
        × IsValid m'
        × ((row' col' : ℤ)
            → matrix_get m' row' col' ≡ (
                if same_index (pos 1) row' && same_index (pos 2) col'
                then some (pos 9)
                else matrix_get wide row' col')))
matrix_get-matrix_set_example = matrix_get-matrix_set wide (pos 1) (pos 2) (pos 9) refl

matrix_get-matrix_transpose_example :
    (t : Matrix) × (matrix_transpose memory wide ≡ made t)
    × (t.rows ≡ 3)
    × (t.cols ≡ 2)
    × IsValid t
    × ((row col : ℤ) → matrix_get t col row ≡ matrix_get wide row col)
matrix_get-matrix_transpose_example = matrix_get-matrix_transpose memory wide (omega arith) refl

sums_fit : SumsFit square wide
unfolding ◌+ℤ◌ ◌*ℤ◌
sums_fit zero zero zero h l k = (refl, refl)
sums_fit zero zero (suc zero) h l k = (refl, refl)
sums_fit zero (suc zero) zero h l k = (refl, refl)
sums_fit zero (suc zero) (suc zero) h l k = (refl, refl)
sums_fit zero (suc (suc zero)) zero h l k = (refl, refl)
sums_fit zero (suc (suc zero)) (suc zero) h l k = (refl, refl)
sums_fit (suc zero) zero zero h l k = (refl, refl)
sums_fit (suc zero) zero (suc zero) h l k = (refl, refl)
sums_fit (suc zero) (suc zero) zero h l k = (refl, refl)
sums_fit (suc zero) (suc zero) (suc zero) h l k = (refl, refl)
sums_fit (suc zero) (suc (suc zero)) zero h l k = (refl, refl)
sums_fit (suc zero) (suc (suc zero)) (suc zero) h l k = (refl, refl)
sums_fit (suc (suc r)) c k h l m = absurd (omega arith)
sums_fit r (suc (suc (suc c))) k h l m = absurd (omega arith)
sums_fit r c (suc (suc k)) h l m = absurd (omega arith)

matrix_matmul_example :
    ((square.cols ≢ wide.rows) × (matrix_matmul memory square wide ≡ refused))
    ⊎ ((square.cols ≡ wide.rows)
        × (m : Matrix) × (matrix_matmul memory square wide ≡ made m)
        × (m.rows ≡ square.rows)
        × (m.cols ≡ wide.cols)
        × IsValid m
        × ((r c : ℕ)
            → r < square.rows
            → c < wide.cols
            → matrix_get m (pos r) (pos c) ≡ some (sum_below square.cols (along square wide r c))))
matrix_matmul_example = matrix_matmul_lem memory square wide (omega arith) refl sums_fit

new_matrix_example :
    (Fits (pos 2) (pos 3)
      × (memory (area (pos 2) (pos 3)) ≡ true)
      × Zeros (pos 2) (pos 3) (new_matrix memory (pos 2) (pos 3)))
    ⊎ (Fits (pos 2) (pos 3)
        × (memory (area (pos 2) (pos 3)) ≡ false)
        × (new_matrix memory (pos 2) (pos 3) ≡ thrown))
    ⊎ ((¬ Fits (pos 2) (pos 3)) × (new_matrix memory (pos 2) (pos 3) ≡ refused))
new_matrix_example = new_matrix_lem memory (pos 2) (pos 3)

elementwise-Combines_example :
    ((square.rows ≡ square.rows)
      × (square.cols ≡ square.cols)
      × Combines square square (meaning subtracts) (computed memory subtracts square square))
    ⊎ ((¬ ((square.rows ≡ square.rows) × (square.cols ≡ square.cols)))
        × (computed memory subtracts square square ≡ refused))
unfolding ◌-ℤ◌ ◌+ℤ◌
elementwise-Combines_example =
    elementwise-Combines memory subtracts square square refl refl (omega arith) refl
      (refl, (refl, (refl, (refl, tt))))
