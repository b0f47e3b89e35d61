-- ===== src/Prelude/Texts.antt =====
-- Texts compared byte by byte, and maps from texts as association lists.
use mathlib.Core.Logic.{◌⊎◌, inl, inr}
use Prim.Native.Nat.{ℕ}
use mathlib.Core.Path.{◌≡◌, refl, sym, ap, ◌∙◌}
use mathlib.Core.Bool.{Bool, true, false, ◌&&◌}
use mathlib.Core.Option.{Option, none, some, some-injective}
use mathlib.Core.List.{List, [], ◌∷◌}
use native.Mathlib.Omega.{arith}
use styio.Prelude.Tests.{◌==◌, if◌then◌else◌, Bool-cases, if_split}

-- `a == b` on strings
unfoldable pub same_text : List ℕ → List ℕ → Bool
same_text [] [] = true
same_text (a ∷ s) (b ∷ t) = a == b && same_text s t
same_text _ _ = false

pub same_text_refl : (s : List ℕ) → same_text s s ≡ true
unfolding same_text
same_text_refl [] = refl
same_text_refl (c ∷ s) = ground (arith, same_text_refl s)

pub same_text→≡ : (s t : List ℕ) → same_text s t ≡ true → s ≡ t
unfolding same_text
same_text→≡ [] [] h = refl
same_text→≡ [] (b ∷ t) h = ground arith
same_text→≡ (a ∷ s) [] h = ground arith
same_text→≡ (a ∷ s) (b ∷ t) h = ground (arith, same_text→≡ s t)

module _ {ℓ} {A : Type ℓ} where
  -- `map.find(key)`
  unfoldable pub find_key : List (List ℕ × A) → List ℕ → Option A
  find_key [] key = none
  find_key ((k, v) ∷ entries) key =
      let later = find_key entries key in if same_text k key then some v else later

  -- `map[key] = value`, at the end where the key is new.
  unfoldable pub put_key : List (List ℕ × A) → List ℕ → A → List (List ℕ × A)
  put_key [] key value = (key, value) ∷ []
  put_key ((k, v) ∷ entries) key value =
      let later = put_key entries key value in
      if same_text k key then (k, value) ∷ entries else (k, v) ∷ later

  -- A look-up after a write.
  pub find_key-put_key :
      (entries : List (List ℕ × A)) (key k : List ℕ) (value : A)
      → find_key (put_key entries key value) k
        ≡ (if same_text key k then some value else find_key entries k)
  unfolding find_key put_key
  find_key-put_key [] key k value = refl
  find_key-put_key ((j, v) ∷ entries) key k value =
      let later = find_key-put_key entries key k value in
      elim (Bool-cases (same_text j key)) [
        | inl e ↦
            let same : same_text j k ≡ same_text key k =
              ap (λ x. same_text x k) (same_text→≡ j key e) in
            elim (Bool-cases (same_text key k)) [
              | inl h ↦ rw (e, same, h) refl
              | inr h ↦ rw (e, same, h) refl
            ]
        | inr e ↦ elim (Bool-cases (same_text key k)) [
          | inl h ↦
              let other : same_text j k ≡ false =
                ap (same_text j) (sym (same_text→≡ key k h)) ∙ e in
              rw (e, h, other) (later ∙ rw h refl)
          | inr h ↦ elim (Bool-cases (same_text j k)) [
            | inl g ↦ rw (e, h, g) refl
            | inr g ↦ rw (e, h, g) (later ∙ rw h refl)
          ]
        ]
      ]

  -- What is found after a write is what was written, at its key, or what was found before.
  pub found_after :
      (entries : List (List ℕ × A)) (key k : List ℕ) (value v : A)
      → find_key (put_key entries key value) k ≡ some v
      → ((key ≡ k) × (value ≡ v)) ⊎ (find_key entries k ≡ some v)
  found_after entries key k value v h =
      elim (if_split (same_text key k) (sym (find_key-put_key entries key k value) ∙ h)) [
        | inl (b, e) ↦ inl (same_text→≡ key k b, some-injective value v e)
        | inr (b, e) ↦ inr e
      ]
