-- ===== src/Matrices/Entries.antt =====
-- The elements of the matrices of src/StyioExtern/ExternLib.cpp after each operation.
use mathlib.Core.Bool.{true≢false}
use styio.Prelude.{
  ℕ, ◌*◌, ◌<◌, ◌≤◌, Bool, true, false, not, ◌&&◌, ◌||◌, none, some, length, get_or, set, ltb, ◌==◌,
  if◌then◌else◌, ◌≡◌, ◌⊎◌, refl, sym, ap, ◌∙◌, inl, inr, arith, ==_iff, Bool-cases, length-set,
}
use styio.Matrices.{
  Matrix, made, blank, zeros, matrix_offset, checked_offset, matrix_get, matrix_set, rows_done,
  matrix_transpose,
}
use styio.Prelude.Integers.{ℤ, pos, negsuc, max_int}
use styio.Matrices.Loops.{
  get_or-set, length-replicate, offset_unique, offset_below, length-rows_done, get_or-rows_done,
}

-- There is an element for each place.
abbrev pub IsValid : Matrix → Type 0
IsValid m = length m.elems ≡ m.rows * m.cols

-- The element at a place.
abbrev pub element : Matrix → ℕ → ℕ → ℤ
element m r c = get_or m.elems (matrix_offset m r c) (pos 0)

abbrev pub same_index : ℤ → ℤ → Bool
same_index (pos a) (pos b) = a == b
same_index (pos a) (negsuc b) = false
same_index (negsuc a) (pos b) = false
same_index (negsuc a) (negsuc b) = a == b

-- Indices of a place.
abbrev pub InBounds : Matrix → ℤ → ℤ → Type 0
InBounds m (pos row) (pos col) = (row < m.rows) × (col < m.cols)
InBounds m (pos row) (negsuc col) = ⊥
InBounds m (negsuc row) col = ⊥

-- The place of two indices, if they are in bounds.
placed :
    (m : Matrix) (row col : ℤ)
    → ((¬ InBounds m row col) × (checked_offset m row col ≡ none))
      ⊎ ((r c : ℕ) × (row ≡ pos r)
          × (col ≡ pos c)
          × InBounds m row col
          × (r < m.rows)
          × (c < m.cols)
          × (checked_offset m row col ≡ some (matrix_offset m r c)))
unfolding checked_offset
placed m (pos r) (pos c) = elim (Bool-cases (not (ltb r m.rows) || not (ltb c m.cols))) [
  | inl e ↦ inl (λ (h, l). (ground arith), rw e refl)
  | inr e ↦
      let h : r < m.rows = ground arith in
      let l : c < m.cols = ground arith in inr (r, c, refl, refl, (h, l), h, l, rw e refl)
]
placed m (pos r) (negsuc c) = inl (λ h. h, refl)
placed m (negsuc r) col = inl (λ h. h, refl)

same_place :
    (m : Matrix) (r c r' c' : ℕ)
    → c < m.cols
    → c' < m.cols
    → (matrix_offset m r c == matrix_offset m r' c') ≡ (r == r' && c == c')
same_place m r c r' c' l l' = elim (Bool-cases (matrix_offset m r c == matrix_offset m r' c')) [
  | inl e ↦
      let (p, q) =
        offset_unique m.cols r c r' c' l l'
          ((==_iff (matrix_offset m r c) (matrix_offset m r' c')).0 e) in
      rw e (ground arith)
  | inr e ↦ elim (Bool-cases (r == r' && c == c')) [
    | inl t ↦
        let p : r ≡ r' = ground arith in
        let q : c ≡ c' = ground arith in
        let same : matrix_offset m r c ≡ matrix_offset m r' c' =
          (λ i. matrix_offset m (p i) (q i)) in
        absurd
          (true≢false (sym ((==_iff (matrix_offset m r c) (matrix_offset m r' c')).1 same) ∙ e))
    | inr t ↦ e ∙ sym t
  ]
]

abbrev written : Matrix → ℕ → ℤ → Matrix
written m at value = record { rows = m.rows; cols = m.cols; elems = set m.elems at value }

after_set :
    (m : Matrix) (r c : ℕ) (value : ℤ)
    → IsValid m
    → r < m.rows
    → c < m.cols
    → (row' col' : ℤ)
    → matrix_get (written m (matrix_offset m r c) value) row' col' ≡ (
        if same_index (pos r) row' && same_index (pos c) col'
        then some value
        else matrix_get m row' col')
unfolding matrix_get checked_offset
after_set m r c value v h l (pos r') (pos c') =
    elim (Bool-cases (not (ltb r' m.rows) || not (ltb c' m.cols))) [
      | inl e ↦
          let other : (r == r' && c == c') ≡ false = ground arith in
          rw (matrix_get, checked_offset, e, other) refl
      | inr e ↦
          let fits : matrix_offset m r c < length m.elems =
            omega (arith, offset_below m.rows m.cols r c h l, v) in
          let there = get_or-set m.elems (matrix_offset m r c) (matrix_offset m r' c') value fits in
          let place = same_place m r c r' c' l (ground arith) in
          elim (Bool-cases (r == r' && c == c')) [
            | inl t ↦ rw (matrix_get, checked_offset, e, t) (ap some (there ∙ rw (place, t) refl))
            | inr t ↦ rw (matrix_get, checked_offset, e, t) (ap some (there ∙ rw (place, t) refl))
          ]
    ]
after_set m r c value v h l (pos r') (negsuc c') = ground arith
after_set m r c value v h l (negsuc r') (pos c') = ground arith
after_set m r c value v h l (negsuc r') (negsuc c') = ground arith

-- A write at indices that are not those of a place is refused, as a read there is. Any other keeps a
-- well formed matrix, gives its place the value, and changes no other place.
pub matrix_get-matrix_set :
    (m : Matrix) (row col value : ℤ)
    → IsValid m
    → ((¬ InBounds m row col) × (matrix_get m row col ≡ none) × (matrix_set m row col value ≡ none))
      ⊎ (InBounds m row col
          × (m' : Matrix) × (matrix_set m row col value ≡ some m')
          × IsValid m'
          × ((row' col' : ℤ)
              → matrix_get m' row' col' ≡ (
                  if same_index row row' && same_index col col'
                  then some value
                  else matrix_get m row' col')))
unfolding matrix_get matrix_set checked_offset
matrix_get-matrix_set m row col value v = elim (placed m row col) [
  | inl (out, e) ↦ inl (out, rw (matrix_get, e) refl, rw (matrix_set, e) refl)
  | inr (r, c, p, q, within, h, l, e) ↦
      let at = matrix_offset m r c in
      let fits : at < length m.elems = omega (arith, offset_below m.rows m.cols r c h l, v) in
      inr (
        within,
        record { rows = m.rows; cols = m.cols; elems = set m.elems at value },
        rw (matrix_set, e) refl,
        length-set m.elems at value ∙ v,
        λ row' col'. rw (p, q) (after_set m r c value v h l row' col'),
      )
]

pub length-blank : (rows cols : ℕ) → length (blank rows cols).elems ≡ rows * cols
length-blank rows cols = length-replicate (rows * cols) (pos 0)

swapped_inside :
    (m : Matrix) (r c : ℕ)
    → r < m.rows
    → c < m.cols
    → matrix_offset (blank m.cols m.rows) c r < m.cols * m.rows
swapped_inside m r c h l = offset_below m.cols m.rows c r l h

swapped_unique :
    (m : Matrix) (r c r' c' : ℕ)
    → r < m.rows
    → c < m.cols
    → r' < m.rows
    → c' < m.cols
    → matrix_offset (blank m.cols m.rows) c r ≡ matrix_offset (blank m.cols m.rows) c' r'
    → (r ≡ r') × (c ≡ c')
swapped_unique m r c r' c' h l h' l' e =
    let (p, q) = offset_unique m.rows c r c' r' h h' e in (q, p)

abbrev swapped_offset : Matrix → ℕ → ℕ → ℕ
swapped_offset m r c = matrix_offset (blank m.cols m.rows) c r

abbrev transposed : Matrix → Matrix
transposed m = record {
  rows = m.cols;
  cols = m.rows;
  elems =
      rows_done (swapped_offset m) (λ r c. element m r c) m.rows m.cols (blank m.cols m.rows).elems;
}

transposed-IsValid : (m : Matrix) → IsValid (transposed m)
transposed-IsValid m =
    length-rows_done (swapped_offset m) (λ r c. element m r c) m.rows m.cols (m.cols * m.rows)
      (swapped_inside m) (swapped_unique m) m.rows (blank m.cols m.rows).elems
    ∙ length-blank m.cols m.rows

swapped : (m : Matrix) (row col : ℤ) → matrix_get (transposed m) col row ≡ matrix_get m row col
unfolding matrix_get checked_offset
swapped m (pos r) (pos c) = elim (Bool-cases (not (ltb r m.rows) || not (ltb c m.cols))) [
  | inl e ↦
      let out : (not (ltb c m.cols) || not (ltb r m.rows)) ≡ true = ground arith in
      rw (matrix_get, checked_offset, e, out) refl
  | inr e ↦
      let within : (not (ltb c m.cols) || not (ltb r m.rows)) ≡ false = ground arith in
      rw (matrix_get, checked_offset, e, within)
        (ap some (
          get_or-rows_done (swapped_offset m) (λ r c. element m r c) m.rows m.cols (m.cols * m.rows)
            (swapped_inside m) (swapped_unique m) r c (blank m.cols m.rows).elems (ground arith)
            (ground arith) (length-blank m.cols m.rows)))
]
swapped m (pos r) (negsuc c) = refl
swapped m (negsuc r) (pos c) = ground arith
swapped m (negsuc r) (negsuc c) = refl

module _ (allocates : ℕ → Bool) where
  pub zeros-blank :
      (rows cols : ℕ)
      → rows * cols ≤ max_int
      → allocates (rows * cols) ≡ true
      → zeros allocates rows cols ≡ made (blank rows cols)
  unfolding zeros
  zeros-blank rows cols l e =
      let small : ltb max_int (rows * cols) ≡ false = ground arith in rw (small, e) refl

  -- A matrix whose number of elements is an int64_t, and has the memory, is transposed to a well
  -- formed matrix that reads the same with the indices swapped, out of bounds as well.
  pub matrix_get-matrix_transpose :
      (m : Matrix)
      → m.cols * m.rows ≤ max_int
      → allocates (m.cols * m.rows) ≡ true
      → (t : Matrix) × (matrix_transpose allocates m ≡ made t)
        × (t.rows ≡ m.cols)
        × (t.cols ≡ m.rows)
        × IsValid t
        × ((row col : ℤ) → matrix_get t col row ≡ matrix_get m row col)
  unfolding matrix_transpose
  matrix_get-matrix_transpose m l e = (
    transposed m,
    rw (matrix_transpose, zeros-blank m.cols m.rows l e) refl,
    refl,
    refl,
    transposed-IsValid m,
    swapped m,
  )
