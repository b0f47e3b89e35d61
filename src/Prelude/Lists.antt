-- ===== src/Prelude/Lists.antt =====
-- Lists measured and indexed by native numbers, under the library's names.
use Prim.Native.Nat.{ℕ, zero, suc, ◌+◌, ◌-◌, ◌<◌}
use mathlib.Core.Path.{◌≡◌, refl, sym, ap, ◌∙◌}
use mathlib.Core.List.{List, [], ◌∷◌, ◌++◌}
use mathlib.Core.Option.{Option, none, some}
use native.Mathlib.Omega.{arith}
use styio.Prelude.Tests.{◌==◌, if◌then◌else◌}

module _ {ℓ} {A : Type ℓ} where
  abbrev pub length : List A → ℕ
  length [] = 0
  length (x ∷ xs) = suc (length xs)

  abbrev pub get_elem? : List A → ℕ → Option A
  get_elem? [] i = none
  get_elem? (x ∷ xs) zero = some x
  get_elem? (x ∷ xs) (suc i) = get_elem? xs i

  abbrev pub get_or : List A → ℕ → A → A
  get_or [] i d = d
  get_or (x ∷ xs) zero d = x
  get_or (x ∷ xs) (suc i) d = get_or xs i d

  -- A write out of bounds changes nothing.
  abbrev pub set : List A → ℕ → A → List A
  set [] i v = []
  set (x ∷ xs) zero v = v ∷ xs
  set (x ∷ xs) (suc i) v = x ∷ set xs i v

  abbrev pub take : ℕ → List A → List A
  take zero xs = []
  take (suc n) [] = []
  take (suc n) (x ∷ xs) = x ∷ take n xs

  abbrev pub drop : ℕ → List A → List A
  drop zero xs = xs
  drop (suc n) [] = []
  drop (suc n) (x ∷ xs) = drop n xs

  abbrev pub replicate : ℕ → A → List A
  replicate zero a = []
  replicate (suc n) a = a ∷ replicate n a

  pub length-append : (xs ys : List A) → length (xs ++ ys) ≡ length xs + length ys
  length-append [] ys = omega arith
  length-append (x ∷ xs) ys = omega (arith, length-append xs ys)

  pub length-set : (xs : List A) (i : ℕ) (v : A) → length (set xs i v) ≡ length xs
  length-set [] i v = refl
  length-set (x ∷ xs) zero v = refl
  length-set (x ∷ xs) (suc i) v = ap suc (length-set xs i v)

  pub length-drop : (n : ℕ) (xs : List A) → length (drop n xs) ≡ length xs - n
  length-drop zero xs = omega arith
  length-drop (suc n) [] = omega arith
  length-drop (suc n) (x ∷ xs) = omega (arith, length-drop n xs)

  pub take-append-drop : (n : ℕ) (xs : List A) → take n xs ++ drop n xs ≡ xs
  take-append-drop zero xs = refl
  take-append-drop (suc n) [] = refl
  take-append-drop (suc n) (x ∷ xs) = ap (◌∷◌ x) (take-append-drop n xs)

  take-nil : (n : ℕ) → take n [] ≡ []
  take-nil zero = refl
  take-nil (suc n) = refl

  -- A prefix that is taken in two pieces.
  pub take-add : (n m : ℕ) (xs : List A) → take (n + m) xs ≡ take n xs ++ take m (drop n xs)
  take-add zero m xs = ap (λ k. take k xs) (omega arith)
  take-add (suc n) m [] = take-nil (suc n + m) ∙ sym (take-nil m)
  take-add (suc n) m (x ∷ xs) =
      let step : suc n + m ≡ suc (n + m) = omega arith in rw step (ap (◌∷◌ x) (take-add n m xs))

  -- A read after a write, with a slot out of bounds written out.
  pub get_elem?-set :
      (xs : List A) (i j : ℕ) (v : A)
      → get_elem? (set xs i v) j ≡ (
          if i == j
          then (elim (get_elem? xs j) [ none ↦ none | some _ ↦ some v ])
          else get_elem? xs j)
  get_elem?-set [] i j v = ground arith
  get_elem?-set (x ∷ xs) zero zero v = refl
  get_elem?-set (x ∷ xs) zero (suc j) v = ground arith
  get_elem?-set (x ∷ xs) (suc i) zero v = ground arith
  get_elem?-set (x ∷ xs) (suc i) (suc j) v = ground (arith, get_elem?-set xs i j v)

  -- A read of a list with one element pushed at its end.
  pub get_elem?-concat :
      (xs : List A) (j : ℕ) (v : A)
      → get_elem? (xs ++ v ∷ []) j ≡ (if length xs == j then some v else get_elem? xs j)
  get_elem?-concat [] zero v = refl
  get_elem?-concat [] (suc j) v = ground arith
  get_elem?-concat (x ∷ xs) zero v = ground arith
  get_elem?-concat (x ∷ xs) (suc j) v = ground (arith, get_elem?-concat xs j v)

  pub get_elem?_end : (xs : List A) → get_elem? xs (length xs) ≡ none
  get_elem?_end [] = refl
  get_elem?_end (x ∷ xs) = get_elem?_end xs

  pub length-concat : (xs : List A) (x : A) → length (xs ++ x ∷ []) ≡ suc (length xs)
  length-concat [] x = refl
  length-concat (y ∷ xs) x = ap suc (length-concat xs x)

  pub get_elem?_bound : (xs : List A) (i : ℕ) (v : A) → get_elem? xs i ≡ some v → i < length xs
  get_elem?_bound [] i v h = ground arith
  get_elem?_bound (x ∷ xs) zero v h = omega arith
  get_elem?_bound (x ∷ xs) (suc i) v h = omega (arith, get_elem?_bound xs i v h)
