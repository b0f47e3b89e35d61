-- ===== src/DictStorage/Position.antt =====
-- Where the keys of a dictionary of src/StyioExtern/ExternLib.cpp stand, and what a write changes.
use mathlib.Core.Option
use mathlib.Core.Option.{some-injective, some-ne-none}
use styio.Prelude.{
  ℕ, suc, ◌+◌, ◌<◌, ◌≡◌, refl, sym, ap, ◌∙◌, false, none, some, List, [], ◌∷◌, ◌++◌, length,
  get_elem?, set, if◌then◌else◌, Bool-cases, if_split, Option-cases, inl, inr, arith,
}
use styio.Prelude.Texts.{same_text, same_text→≡, find_key, put_key, find_key-put_key}
use styio.DictStorage.{position, index_from}

different : (s t : List ℕ) → same_text s t ≡ false → same_text t s ≡ false
unfolding same_text
different [] [] h = ground arith
different [] (b ∷ t) h = refl
different (a ∷ s) [] h = refl
different (a ∷ s) (b ∷ t) h = ground (arith, different s t)

module _ {A : Type 0} where
  -- A key that has no position is new: a write puts it at the end.
  pub absent :
      (entries : List (List ℕ × A)) (key : List ℕ) (value : A)
      → position entries key ≡ none
      → (find_key entries key ≡ none) × (put_key entries key value ≡ entries ++ (key, value) ∷ [])
  unfolding position find_key put_key
  absent [] key value h = (refl, refl)
  absent ((k, v) ∷ entries) key value h = ground (arith, absent entries key value)

  -- A key at a position: its value is there, and a write goes there.
  pub present :
      (entries : List (List ℕ × A)) (key : List ℕ) (i : ℕ)
      → position entries key ≡ some i
      → (entry : List ℕ × A) × (get_elem? entries i ≡ some entry)
        × (find_key entries key ≡ some entry.1)
        × (i < length entries)
        × ((value : A) → put_key entries key value ≡ set entries i (entry.0, value))
  unfolding position find_key put_key
  present [] key i h = absurd (some-ne-none i (sym h))
  present ((k, v) ∷ entries) key i h = elim (if_split (same_text k key) h) [
    | inl (b, e) ↦
        let at : 0 ≡ i = some-injective 0 i e in
        rw b (rw (← at) ((k, v), refl, refl, omega arith, λ value. refl))
    | inr (b, e) ↦ elim (Option-cases (position entries key)) [
      | inl n ↦ absurd (some-ne-none i (sym e ∙ ap (Option.map suc) n))
      | inr (m, n) ↦
          let at : suc m ≡ i = some-injective (suc m) i (sym (ap (Option.map suc) n) ∙ e) in
          let (entry, read, found, inside, written) = present entries key m n in
          rw b (
            rw (← at)
              (entry, read, found, omega (arith, inside), λ value. ap (◌∷◌ (k, v)) (written value)))
    ]
  ]

  -- The positions after a write.
  pub position-put_key :
      (entries : List (List ℕ × A)) (key j : List ℕ) (value : A)
      → position (put_key entries key value) j ≡ (elim (position entries j) [
        | some i ↦ some i
        | none ↦ if same_text key j then some (length entries) else none
      ])
  unfolding position put_key
  position-put_key [] key j value = refl
  position-put_key ((k, v) ∷ entries) key j value =
      let later = position-put_key entries key j value in
      elim (Bool-cases (same_text k key)) [
        | inl e ↦
            let same : same_text k j ≡ same_text key j =
              ap (λ x. same_text x j) (same_text→≡ k key e) in
            rw (e, same) (ground arith)
        | inr e ↦ rw e (ground (arith, later))
      ]

  -- No key stands twice.
  abbrev pub Distinct : List (List ℕ × A) → Type 0
  Distinct [] = Unit
  Distinct ((k, v) ∷ entries) = (position entries k ≡ none) × Distinct entries

  pub put_key-Distinct :
      (entries : List (List ℕ × A)) (key : List ℕ) (value : A)
      → Distinct entries
      → Distinct (put_key entries key value)
  unfolding put_key position
  put_key-Distinct [] key value d = (refl, tt)
  put_key-Distinct ((k, v) ∷ entries) key value d = elim (Bool-cases (same_text k key)) [
    | inl e ↦ rw e d
    | inr e ↦
        let other : same_text key k ≡ false = different k key e in
        rw e (
          position-put_key entries key k value ∙ rw (d.0, other) refl,
          put_key-Distinct entries key value d.1,
        )
  ]

  -- The index that is built from entries with distinct keys knows where each of them stands.
  pub find_key-index_from :
      (i : ℕ) (entries : List (List ℕ × A)) (index : List (List ℕ × ℕ)) (k : List ℕ)
      → Distinct entries
      → find_key (index_from i entries index) k
        ≡ (elim (position entries k) [ some p ↦ some (i + p) | none ↦ find_key index k ])
  unfolding index_from position
  find_key-index_from i [] index k d = refl
  find_key-index_from i ((j, v) ∷ entries) index k d =
      let later = find_key-index_from (suc i) entries (put_key index j i) k d.1 in
      let put = find_key-put_key index j k i in
      elim (Bool-cases (same_text j k)) [
        | inl e ↦
            let gone : position entries k ≡ none =
              ap (position entries) (sym (same_text→≡ j k e)) ∙ d.0 in
            let here : i + 0 ≡ i = omega arith in rw (e, here) (later ∙ rw gone (put ∙ rw e refl))
        | inr e ↦ elim (Option-cases (position entries k)) [
          | inl n ↦ rw (e, n) (later ∙ rw n (put ∙ rw e refl))
          | inr (p, n) ↦
              let along : i + suc p ≡ suc i + p = omega arith in
              rw (e, n, along) (later ∙ rw n refl)
        ]
      ]
