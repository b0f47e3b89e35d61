-- ===== src/Matrices/Loops.antt =====
-- What the loops of src/StyioExtern/ExternLib.cpp over the elements of a matrix write.
use styio.Prelude.{
  ℕ, zero, suc, ◌+◌, ◌*◌, ◌≤◌, ◌<◌, true, false, List, [], ◌∷◌, Option, some, length, get_or, set,
  replicate, ◌==◌, ltb, ◌&&◌, if◌then◌else◌, ◌≡◌, refl, sym, ap, ◌∙◌, inl, inr, arith, ==_iff,
  Bool-cases, length-set,
}
use mathlib.Core.Bool.{true≢false}
use styio.Prelude.Integers.{ℤ, pos}
use styio.Matrices.{columns_done, rows_done, columns_tried, rows_tried}

pub get_or-set :
    (xs : List ℤ) (i j : ℕ) (v : ℤ)
    → i < length xs
    → get_or (set xs i v) j (pos 0) ≡ (if i == j then v else get_or xs j (pos 0))
get_or-set [] i j v h = absurd (omega arith)
get_or-set (x ∷ xs) zero zero v h = refl
get_or-set (x ∷ xs) zero (suc j) v h = ground arith
get_or-set (x ∷ xs) (suc i) zero v h = ground arith
get_or-set (x ∷ xs) (suc i) (suc j) v h = ground (arith, get_or-set xs i j v)

pub length-replicate : (n : ℕ) (a : ℤ) → length (replicate n a) ≡ n
length-replicate zero a = refl
length-replicate (suc n) a = ap suc (length-replicate n a)

pub get_or-replicate : (n i : ℕ) (a : ℤ) → get_or (replicate n a) i a ≡ a
get_or-replicate zero i a = refl
get_or-replicate (suc n) zero a = refl
get_or-replicate (suc n) (suc i) a = get_or-replicate n i a

-- Places of a matrix with the same offset are the same.
pub offset_unique :
    (cols r c r' c' : ℕ)
    → c < cols
    → c' < cols
    → r * cols + c ≡ r' * cols + c'
    → (r ≡ r') × (c ≡ c')
offset_unique cols zero c zero c' h h' e = (refl, omega (arith, e))
offset_unique cols zero c (suc r') c' h h' e = absurd (omega arith)
offset_unique cols (suc r) c zero c' h h' e = absurd (omega arith)
offset_unique cols (suc r) c (suc r') c' h h' e =
    let (p, q) = offset_unique cols r c r' c' h h' (omega (arith, e)) in (ap suc p, q)

pub offset_below : (rows cols r c : ℕ) → r < rows → c < cols → r * cols + c < rows * cols
offset_below zero cols r c h h' = absurd (omega arith)
offset_below (suc rows) cols zero c h h' = omega arith
offset_below (suc rows) cols (suc r) c h h' =
    omega (arith, offset_below rows cols r c (omega arith) h')

-- Offsets of different places that are all in the list.
module _ (offset : ℕ → ℕ → ℕ) (value : ℕ → ℕ → ℤ) (rows cols size : ℕ)
    (inside : (r c : ℕ) → r < rows → c < cols → offset r c < size)
    (unique : (r c r' c' : ℕ)
      → r < rows
      → c < cols
      → r' < rows
      → c' < cols
      → offset r c ≡ offset r' c'
      → (r ≡ r') × (c ≡ c')) where
  length-columns_done :
      (r k : ℕ) (out : List ℤ) → length (columns_done offset value r k out) ≡ length out
  unfolding columns_done
  length-columns_done r zero out = refl
  length-columns_done r (suc k) out =
      length-set (columns_done offset value r k out) (offset r k) (value r k)
      ∙ length-columns_done r k out

  pub length-rows_done :
      (k : ℕ) (out : List ℤ) → length (rows_done offset value k cols out) ≡ length out
  unfolding rows_done
  length-rows_done zero out = refl
  length-rows_done (suc k) out =
      length-columns_done k cols (rows_done offset value k cols out) ∙ length-rows_done k out

  get_or-columns_done :
      (r k r' c' : ℕ) (out : List ℤ)
      → r < rows
      → k ≤ cols
      → r' < rows
      → c' < cols
      → length out ≡ size
      → get_or (columns_done offset value r k out) (offset r' c') (pos 0)
        ≡ (if r == r' && ltb c' k then value r' c' else get_or out (offset r' c') (pos 0))
  unfolding columns_done
  get_or-columns_done r zero r' c' out h k h' l' e = ground arith
  get_or-columns_done r (suc k) r' c' out h l h' l' e =
      let before = get_or-columns_done r k r' c' out h (omega arith) h' l' e in
      let fits : offset r k < length (columns_done offset value r k out) =
        omega (arith, length-columns_done r k out, inside r k h (omega arith)) in
      let step =
        get_or-set (columns_done offset value r k out) (offset r k) (offset r' c') (value r k)
          fits in
      elim (Bool-cases (offset r k == offset r' c')) [
        | inl p ↦
            let (s, t) =
              unique r k r' c' h (omega arith) h' l' ((==_iff (offset r k) (offset r' c')).0 p) in
            let same : (r == r' && ltb c' (suc k)) ≡ true = ground arith in
            step ∙ rw (p, same) (λ i. value (s i) (t i))
        | inr p ↦
            let other : (r == r' && ltb c' (suc k)) ≡ (r == r' && ltb c' k) = apart r k r' c' p in
            step ∙ rw (p, other) before
      ]
    where
      apart :
          (r k r' c' : ℕ)
          → (offset r k == offset r' c') ≡ false
          → (r == r' && ltb c' (suc k)) ≡ (r == r' && ltb c' k)
      apart r k r' c' p = elim (Bool-cases (r == r')) [
        | inr s ↦ rw s refl
        | inl s ↦ elim (Bool-cases (k == c')) [
          | inr t ↦ ground arith
          | inl t ↦
              let same : offset r k ≡ offset r' c' =
                (λ i. offset ((==_iff r r').0 s i) ((==_iff k c').0 t i)) in
              absurd (true≢false (sym ((==_iff (offset r k) (offset r' c')).1 same) ∙ p))
        ]
      ]

  -- After all rounds each place has its value.
  rows_so_far :
      (k r' c' : ℕ) (out : List ℤ)
      → k ≤ rows
      → r' < rows
      → c' < cols
      → length out ≡ size
      → get_or (rows_done offset value k cols out) (offset r' c') (pos 0)
        ≡ (if ltb r' k then value r' c' else get_or out (offset r' c') (pos 0))
  unfolding rows_done
  rows_so_far zero r' c' out h h' l' e = ground arith
  rows_so_far (suc k) r' c' out h h' l' e =
      let before = rows_so_far k r' c' out (omega arith) h' l' e in
      let step =
        get_or-columns_done k cols r' c' (rows_done offset value k cols out) (omega arith)
          (omega arith) h' l' (length-rows_done k out ∙ e) in
      ground (arith, before, step)

  pub get_or-rows_done :
      (r c : ℕ) (out : List ℤ)
      → r < rows
      → c < cols
      → length out ≡ size
      → get_or (rows_done offset value rows cols out) (offset r c) (pos 0) ≡ value r c
  get_or-rows_done r c out h l e =
      let all = rows_so_far rows r c out (omega arith) h l e in ground (arith, all)

-- Where all values are defined, the loops write them.
module _ (offset : ℕ → ℕ → ℕ) (value : ℕ → ℕ → ℤ) (tried : ℕ → ℕ → Option ℤ) (rows cols : ℕ)
    (defined : (r c : ℕ) → r < rows → c < cols → tried r c ≡ some (value r c)) where
  columns_tried-columns_done :
      (r k : ℕ) (out : List ℤ)
      → r < rows
      → k ≤ cols
      → columns_tried offset tried r k out ≡ some (columns_done offset value r k out)
  unfolding columns_tried columns_done
  columns_tried-columns_done r zero out h l = refl
  columns_tried-columns_done r (suc k) out h l =
      rw (columns_tried-columns_done r k out h (omega arith), defined r k h (omega arith)) refl

  pub rows_tried-rows_done :
      (k : ℕ) (out : List ℤ)
      → k ≤ rows
      → rows_tried offset tried k cols out ≡ some (rows_done offset value k cols out)
  unfolding rows_tried rows_done
  rows_tried-rows_done zero out l = refl
  rows_tried-rows_done (suc k) out l = rw (rows_tried-rows_done k out (omega arith)) (
      columns_tried-columns_done k cols (rows_done offset value k cols out) (omega arith)
        (omega arith))
