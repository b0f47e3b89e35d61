-- ===== src/Matrices/Products.antt =====
-- The product of two matrices of src/StyioExtern/ExternLib.cpp.
use styio.Prelude.{
  ℕ, zero, suc, ◌+◌, ◌*◌, ◌<◌, ◌≤◌, Bool, true, false, not, ◌||◌, some, ltb, ◌==◌, ◌≡◌, ◌≢◌, ◌⊎◌,
  refl, ap, ◌∙◌, inl, inr, arith, ==_iff, Bool-cases,
}
use styio.Matrices.{
  Matrix, made, refused, blank, matrix_offset, checked_offset, matrix_get, rows_done, product_sum,
  matrix_matmul,
}
use styio.Prelude.Integers.{ℤ, pos, ◌+ℤ◌, ◌*ℤ◌, max_int, is_int64}
use styio.Matrices.Loops.{
  rows_tried-rows_done, offset_unique, offset_below, length-rows_done, get_or-rows_done,
}
use styio.Matrices.Entries.{IsValid, element, length-blank, zeros-blank}

-- The sum of the first values of a function.
abbrev pub sum_below : ℕ → (ℕ → ℤ) → ℤ
sum_below zero f = pos 0
sum_below (suc n) f = sum_below n f +ℤ f n

-- The products along a row and a column.
abbrev pub along : Matrix → Matrix → ℕ → ℕ → ℕ → ℤ
along a b r c i = element a r i *ℤ element b i c

-- No product and no sum of the first products leaves the range of an int64_t.
abbrev pub SumsFit : Matrix → Matrix → Type 0
SumsFit a b =
    (r c k : ℕ)
    → r < a.rows
    → c < b.cols
    → k < a.cols
    → (is_int64 (along a b r c k) ≡ true) × (is_int64 (sum_below (suc k) (along a b r c)) ≡ true)

product_sum-sum_below :
    (a b : Matrix) (r c k : ℕ)
    → SumsFit a b
    → r < a.rows
    → c < b.cols
    → k ≤ a.cols
    → product_sum a b r c k ≡ some (sum_below k (along a b r c))
unfolding product_sum
product_sum-sum_below a b r c zero f h l le = refl
product_sum-sum_below a b r c (suc k) f h l le =
    let (p, q) = f r c k h l (omega arith) in
    rw (product_sum-sum_below a b r c k f h l (omega arith), p, q) refl

abbrev product : Matrix → Matrix → Matrix
product a b = record {
  rows = a.rows;
  cols = b.cols;
  elems =
      rows_done (matrix_offset (blank a.rows b.cols)) (λ r c. sum_below a.cols (along a b r c))
        a.rows b.cols (blank a.rows b.cols).elems;
}

module _ (a b : Matrix) where
  abbrev offset : ℕ → ℕ → ℕ
  offset r c = r * b.cols + c

  abbrev sum_at : ℕ → ℕ → ℤ
  sum_at r c = sum_below a.cols (along a b r c)

  product_unique :
      (r c r' c' : ℕ)
      → r < a.rows
      → c < b.cols
      → r' < a.rows
      → c' < b.cols
      → offset r c ≡ offset r' c'
      → (r ≡ r') × (c ≡ c')
  product_unique r c r' c' h l h' l' q = offset_unique b.cols r c r' c' l l' q

  product-IsValid : IsValid (product a b)
  product-IsValid =
      length-rows_done offset sum_at a.rows b.cols (a.rows * b.cols) (offset_below a.rows b.cols)
        product_unique a.rows (blank a.rows b.cols).elems
      ∙ length-blank a.rows b.cols

  get-product :
      (r c : ℕ)
      → r < a.rows
      → c < b.cols
      → matrix_get (product a b) (pos r) (pos c) ≡ some (sum_at r c)
  unfolding matrix_get checked_offset
  get-product r c h l =
      let within : (not (ltb r a.rows) || not (ltb c b.cols)) ≡ false = ground arith in
      rw (matrix_get, checked_offset, within)
        (ap some (
          get_or-rows_done offset sum_at a.rows b.cols (a.rows * b.cols)
            (offset_below a.rows b.cols) product_unique r c (blank a.rows b.cols).elems h l
            (length-blank a.rows b.cols)))

module _ (allocates : ℕ → Bool) where
  -- Where the number of elements of a product, its products and its sums are in the range of an
  -- int64_t, and there is the memory: a product is refused exactly where the columns of the one are
  -- not as many as the rows of the other. Else it is a well formed matrix with the rows of the one and
  -- the columns of the other, and each element is the sum of the products along its row and its column.
  pub matrix_matmul_lem :
      (a b : Matrix)
      → a.rows * b.cols ≤ max_int
      → allocates (a.rows * b.cols) ≡ true
      → SumsFit a b
      → ((a.cols ≢ b.rows) × (matrix_matmul allocates a b ≡ refused))
        ⊎ ((a.cols ≡ b.rows)
            × (m : Matrix) × (matrix_matmul allocates a b ≡ made m)
            × (m.rows ≡ a.rows)
            × (m.cols ≡ b.cols)
            × IsValid m
            × ((r c : ℕ)
                → r < a.rows
                → c < b.cols
                → matrix_get m (pos r) (pos c) ≡ some (sum_below a.cols (along a b r c))))
  unfolding matrix_matmul
  matrix_matmul_lem a b n m f = elim (Bool-cases (a.cols == b.rows)) [
    | inr e ↦ inl (λ q. (ground arith), rw (matrix_matmul, e) refl)
    | inl e ↦
        let looped =
          rows_tried-rows_done (offset a b) (sum_at a b) (λ r c. product_sum a b r c a.cols) a.rows
            b.cols (λ r c h l. product_sum-sum_below a b r c a.cols f h l (omega arith)) a.rows
            (blank a.rows b.cols).elems (omega arith) in
        inr (
          (==_iff a.cols b.rows).0 e,
          product a b,
          rw (matrix_matmul, e, zeros-blank allocates a.rows b.cols n m, looped) refl,
          refl,
          refl,
          product-IsValid a b,
          get-product a b,
        )
  ]
