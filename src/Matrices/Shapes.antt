-- ===== src/Matrices/Shapes.antt =====
-- The shapes that the matrices of src/StyioExtern/ExternLib.cpp may have, and what the operations on
-- two matrices of one shape compute.
use native.Mathlib.Nat.{le-div_iff_mul-le}
use mathlib.Core.Logic.{◌↔◌}
use styio.Prelude.{
  ℕ, zero, suc, ◌+◌, ◌*◌, ◌≤◌, ◌<◌, Bool, true, false, not, ◌||◌, none, some, List, [], ◌∷◌, length,
  get_or, ltb, ◌/◌, ◌≡◌, ◌⊎◌, refl, sym, ap, ◌∙◌, inl, inr, arith, Bool-cases, ltb→lt,
}
use styio.Prelude.Integers.{ℤ, pos, negsuc, ◌+ℤ◌, ◌-ℤ◌, ◌*ℤ◌, max_int, is_int64}
use styio.Matrices.{
  Matrix, Outcome, made, refused, thrown, blank, zeros, matrix_offset, check_matrix_dims,
  checked_offset, matrix_get, new_matrix, same_matrix_shape, zipped, elementwise, matrix_add,
  matrix_sub, matrix_hadamard,
}
use styio.Matrices.Loops.{offset_below, get_or-replicate}
use styio.Matrices.Entries.{IsValid, element, length-blank, zeros-blank}

-- Positive dimensions whose product is an int64_t.
abbrev pub Fits : ℤ → ℤ → Type 0
Fits (pos r) (pos c) = (0 < r) × (0 < c) × (r * c ≤ max_int)
Fits (pos r) (negsuc c) = ⊥
Fits (negsuc r) cols = ⊥

-- The number of elements of such a matrix.
abbrev pub area : ℤ → ℤ → ℕ
area (pos r) (pos c) = r * c
area (pos r) (negsuc c) = 0
area (negsuc r) cols = 0

-- A well formed matrix of these dimensions, whose elements are zeros.
abbrev pub Zeros : ℤ → ℤ → Outcome → Type 0
Zeros rows cols result =
    (m : Matrix) × (result ≡ made m)
    × IsValid m
    × (pos m.rows ≡ rows)
    × (pos m.cols ≡ cols)
    × ((r c : ℕ) → r < m.rows → c < m.cols → matrix_get m (pos r) (pos c) ≡ some (pos 0))

check_matrix_dims_lem :
    (rows cols : ℤ)
    → (Fits rows cols
        × (r c : ℕ) × (rows ≡ pos r)
        × (cols ≡ pos c)
        × (r * c ≤ max_int)
        × (check_matrix_dims rows cols ≡ some (r, c)))
      ⊎ ((¬ Fits rows cols) × (check_matrix_dims rows cols ≡ none))
unfolding check_matrix_dims
check_matrix_dims_lem (pos zero) (pos c) = inr (λ f. (omega arith), refl)
check_matrix_dims_lem (pos zero) (negsuc c) = inr (λ f. f, refl)
check_matrix_dims_lem (pos (suc r)) (pos zero) = inr (λ f. (omega arith), refl)
check_matrix_dims_lem (pos (suc r)) (pos (suc c)) =
    let bound : (suc r ≤ max_int / suc c) ↔ (suc r * suc c ≤ max_int) =
      le-div_iff_mul-le (omega arith) in
    elim (Bool-cases (ltb (max_int / suc c) (suc r))) [
      | inl e ↦
          let over = ltb→lt (max_int / suc c) (suc r) e in
          inr (λ f. (let fit = bound.1 f.2 in omega arith), rw (check_matrix_dims, e) refl)
      | inr e ↦
          let fit = bound.0 (ground arith) in
          inl (
            (omega arith, omega arith, fit),
            suc r,
            suc c,
            refl,
            refl,
            fit,
            rw (check_matrix_dims, e) refl,
          )
    ]
check_matrix_dims_lem (pos (suc r)) (negsuc c) = inr (λ f. f, refl)
check_matrix_dims_lem (negsuc r) cols = inr (λ f. f, refl)

blank-Zeros :
    (r c : ℕ) (rows cols : ℤ) → rows ≡ pos r → cols ≡ pos c → Zeros rows cols (made (blank r c))
unfolding matrix_get checked_offset
blank-Zeros r c rows cols p q = (
  blank r c,
  refl,
  length-blank r c,
  sym p,
  sym q,
  λ i j h l.
      (let within : (not (ltb i r) || not (ltb j c)) ≡ false = ground arith in
        rw (matrix_get, checked_offset, within)
          (ap some (get_or-replicate (r * c) (matrix_offset (blank r c) i j) (pos 0)))),
)

-- A matrix is refused exactly where its dimensions are not positive or the number of its elements is
-- no int64_t. Else it is the well formed matrix of zeros with these dimensions where there is the
-- memory, and the exception where there is not.
pub new_matrix_lem :
    (allocates : ℕ → Bool) (rows cols : ℤ)
    → (Fits rows cols
        × (allocates (area rows cols) ≡ true)
        × Zeros rows cols (new_matrix allocates rows cols))
      ⊎ (Fits rows cols
          × (allocates (area rows cols) ≡ false)
          × (new_matrix allocates rows cols ≡ thrown))
      ⊎ ((¬ Fits rows cols) × (new_matrix allocates rows cols ≡ refused))
unfolding new_matrix zeros
new_matrix_lem allocates rows cols = elim (check_matrix_dims_lem rows cols) [
  | inr (f, e) ↦ inr (inr (f, rw (new_matrix, e) refl))
  | inl (f, r, c, p, q, l, e) ↦
      let small : ltb max_int (r * c) ≡ false = ground arith in
      let size : area rows cols ≡ r * c = rw (p, q) refl in
      elim (Bool-cases (allocates (r * c))) [
        | inl m ↦
            let result : new_matrix allocates rows cols ≡ made (blank r c) =
              rw (new_matrix, e, small, m) refl in
            inl (f, rw size m, rw result (blank-Zeros r c rows cols p q))
        | inr m ↦ inr (inl (f, rw size m, rw (new_matrix, e, small, m) refl))
      ]
]

-- The three entry points that work element by element, and what each computes.
pub data Operation : Type 0 where
  adds subtracts multiplies : Operation

abbrev pub computed : (ℕ → Bool) → Operation → Matrix → Matrix → Outcome
computed allocates adds a b = matrix_add allocates a b
computed allocates subtracts a b = matrix_sub allocates a b
computed allocates multiplies a b = matrix_hadamard allocates a b

abbrev pub meaning : Operation → ℤ → ℤ → ℤ
meaning adds x y = x +ℤ y
meaning subtracts x y = x -ℤ y
meaning multiplies x y = x *ℤ y

-- No result at two elements of one place leaves the range of an int64_t.
abbrev pub ResultsFit : (ℤ → ℤ → ℤ) → List ℤ → List ℤ → Type 0
ResultsFit f [] ys = Unit
ResultsFit f (x ∷ xs) [] = Unit
ResultsFit f (x ∷ xs) (y ∷ ys) = (is_int64 (f x y) ≡ true) × ResultsFit f xs ys

at_either :
    (f : ℤ → ℤ → ℤ) (x y : ℤ) (xs ys zs : List ℤ)
    → ((i : ℕ)
        → i < length xs
        → get_or zs i (pos 0) ≡ f (get_or xs i (pos 0)) (get_or ys i (pos 0)))
    → (i : ℕ) → i < suc (length xs)
    → get_or (f x y ∷ zs) i (pos 0) ≡ f (get_or (x ∷ xs) i (pos 0)) (get_or (y ∷ ys) i (pos 0))
at_either f x y xs ys zs at zero h = refl
at_either f x y xs ys zs at (suc i) h = at i (omega arith)

zipped_lem :
    (f : ℤ → ℤ → ℤ) (xs ys : List ℤ)
    → length xs ≡ length ys
    → ResultsFit f xs ys
    → (zs : List ℤ) × (zipped f xs ys ≡ some zs)
      × (length zs ≡ length xs)
      × ((i : ℕ)
          → i < length xs
          → get_or zs i (pos 0) ≡ f (get_or xs i (pos 0)) (get_or ys i (pos 0)))
unfolding zipped
zipped_lem f [] ys e fit = ([], refl, refl, λ i h. absurd (omega arith))
zipped_lem f (x ∷ xs) [] e fit = absurd (omega arith)
zipped_lem f (x ∷ xs) (y ∷ ys) e (one, fit) =
    let (zs, q, l, at) = zipped_lem f xs ys (omega arith) fit in
    (f x y ∷ zs, rw (zipped, one, q) refl, ap suc l, at_either f x y xs ys zs at)

-- The result of an operation has the shape of both, and each element is made of theirs.
abbrev pub Combines : Matrix → Matrix → (ℤ → ℤ → ℤ) → Outcome → Type 0
Combines a b f result =
    (m : Matrix) × (result ≡ made m)
    × IsValid m
    × (m.rows ≡ a.rows)
    × (m.cols ≡ a.cols)
    × ((r c : ℕ) → r < a.rows → c < a.cols → element m r c ≡ f (element a r c) (element b r c))

module _ (allocates : ℕ → Bool) (f : ℤ → ℤ → ℤ) (a b : Matrix) where
  elementwise_lem :
      IsValid a
      → IsValid b
      → a.rows * a.cols ≤ max_int
      → allocates (a.rows * a.cols) ≡ true
      → ResultsFit f a.elems b.elems
      → ((a.rows ≡ b.rows) × (a.cols ≡ b.cols) × Combines a b f (elementwise allocates f a b))
        ⊎ ((¬ ((a.rows ≡ b.rows) × (a.cols ≡ b.cols))) × (elementwise allocates f a b ≡ refused))
  unfolding elementwise
  elementwise_lem v w n h fit = elim (Bool-cases (same_matrix_shape a b)) [
    | inr e ↦ inr (λ (p, q). (ground arith), rw (elementwise, e) refl)
    | inl e ↦
        let p : a.rows ≡ b.rows = ground arith in
        let q : a.cols ≡ b.cols = ground arith in
        let sizes : length a.elems ≡ length b.elems = v ∙ (λ i. p i * q i) ∙ sym w in
        let (zs, done, l, at) = zipped_lem f a.elems b.elems sizes fit in
        inl (
          p,
          q,
          (
            record { rows = a.rows; cols = a.cols; elems = zs },
            rw (elementwise, e, zeros-blank allocates a.rows a.cols n h, done) refl,
            l ∙ v,
            refl,
            refl,
            λ r c g k.
                (let inside : matrix_offset a r c < length a.elems =
                    omega (arith, offset_below a.rows a.cols r c g k, v) in
                  at (matrix_offset a r c) inside
                  ∙ ap (λ k. f (element a r c) (get_or b.elems (r * k + c) (pos 0))) q),
          ),
        )
  ]

-- Sum, difference and elementwise product of two well formed matrices, where the results are in the
-- range of an int64_t and there is the memory: the operation is refused exactly where rows or columns
-- differ. Else the result has this shape, and each element is the sum, the difference or the product of
-- theirs.
pub elementwise-Combines :
    (allocates : ℕ → Bool) (op : Operation) (a b : Matrix)
    → IsValid a
    → IsValid b
    → a.rows * a.cols ≤ max_int
    → allocates (a.rows * a.cols) ≡ true
    → ResultsFit (meaning op) a.elems b.elems
    → ((a.rows ≡ b.rows)
        × (a.cols ≡ b.cols)
        × Combines a b (meaning op) (computed allocates op a b))
      ⊎ ((¬ ((a.rows ≡ b.rows) × (a.cols ≡ b.cols))) × (computed allocates op a b ≡ refused))
elementwise-Combines allocates adds a b v w n h fit =
    elementwise_lem allocates (λ x y. x +ℤ y) a b v w n h fit
elementwise-Combines allocates subtracts a b v w n h fit =
    elementwise_lem allocates (λ x y. x -ℤ y) a b v w n h fit
elementwise-Combines allocates multiplies a b v w n h fit =
    elementwise_lem allocates (λ x y. x *ℤ y) a b v w n h fit
