-- ===== src/DictStorage/Backends.antt =====
-- Both backends of the dictionaries of src/StyioExtern/ExternLib.cpp implement one map that keeps
-- the order in which its keys were first written.
use mathlib.Core.Option.{some-injective, some-ne-none}
use styio.Prelude.{
  ℕ, ◌+◌, ◌-◌, ◌≡◌, ◌≢◌, refl, sym, ap, ◌∙◌, true, none, some, List, [], ◌∷◌, ◌++◌, length,
  if◌then◌else◌, Bool-cases, Option-cases, if_split, lt→ltb, length-concat, inl, inr, subst, arith,
}
use styio.Prelude.Texts.{same_text, same_text→≡, find_key, put_key, find_key-put_key}
use styio.DictStorage.{
  DictRuntimeImpl, ordered_hash, linear, DictBackendSpec, DictStorage, same_impl,
  dict_backend_spec_by_impl, position, indexed, find_by_impl, write_at, append_by_impl, reindexed,
  set_by_impl,
}
use styio.DictStorage.Position.{
  absent, present, position-put_key, Distinct, put_key-Distinct, find_key-index_from,
}

-- The build has the backend.
abbrev pub IsSupported : List DictBackendSpec → DictRuntimeImpl → Type 0
IsSupported specs impl =
    (spec : DictBackendSpec) × (dict_backend_spec_by_impl specs impl ≡ some spec)

pub record IsValid {A : Type 0} (dict : DictStorage A) : Type 0 where
  pub distinct : Distinct dict.entries
  pub found :
      dict.runtime_impl ≡ ordered_hash
      → (k : List ℕ) → find_key dict.index_by_key k ≡ position dict.entries k

same_impl→≡ : (a b : DictRuntimeImpl) → same_impl a b ≡ true → a ≡ b
same_impl→≡ ordered_hash ordered_hash h = refl
same_impl→≡ ordered_hash linear h = cc
same_impl→≡ linear ordered_hash h = cc
same_impl→≡ linear linear h = refl

not_both : ordered_hash ≢ linear
not_both h = cc

-- The backend that the registry gives for an implementation is of that implementation.
pub backend_impl :
    (specs : List DictBackendSpec) (impl : DictRuntimeImpl) (spec : DictBackendSpec)
    → dict_backend_spec_by_impl specs impl ≡ some spec
    → spec.impl ≡ impl
unfolding dict_backend_spec_by_impl
backend_impl [] impl spec h = cc
backend_impl (s ∷ specs) impl spec h = elim (if_split (same_impl s.impl impl) h) [
  | inl (b, e) ↦ sym (ap (λ x. x.impl) (some-injective s spec e)) ∙ same_impl→≡ s.impl impl b
  | inr (b, e) ↦ backend_impl specs impl spec e
]

module _ {A : Type 0} where
  pub find_by_impl-position :
      (impl : DictRuntimeImpl) (dict : DictStorage A) (key : List ℕ)
      → dict.runtime_impl ≡ impl
      → IsValid dict
      → find_by_impl impl dict key ≡ position dict.entries key
  find_by_impl-position linear dict key h v = refl
  find_by_impl-position ordered_hash dict key h v =
      elim (Option-cases (position dict.entries key)) [
        | inl e ↦ rw (indexed, v.found h key, e) refl
        | inr (i, e) ↦
            let (entry, read, found, inside, written) = present dict.entries key i e in
            rw (indexed, v.found h key, e, lt→ltb i (length dict.entries) inside) refl
      ]

  write_at-put_key :
      (dict : DictStorage A) (key : List ℕ) (value : A) (i : ℕ)
      → position dict.entries key ≡ some i
      → write_at dict i value ≡ record {
        runtime_impl = dict.runtime_impl;
        entries = put_key dict.entries key value;
        index_by_key = dict.index_by_key;
      }
  write_at-put_key dict key value i h =
      let (entry, read, found, inside, written) = present dict.entries key i h in
      rw (write_at, read, written value) refl

  -- A write where the key has its place keeps the index right.
  kept-IsValid :
      (dict : DictStorage A) (key : List ℕ) (value : A) (i : ℕ)
      → position dict.entries key ≡ some i
      → IsValid dict
      → IsValid (record {
        runtime_impl = dict.runtime_impl;
        entries = put_key dict.entries key value;
        index_by_key = dict.index_by_key;
      })
  kept-IsValid dict key value i h v =
      let stays : (k : List ℕ)
          → (elim (position dict.entries k) [
            | some p ↦ some p
            | none ↦ if same_text key k then some (length dict.entries) else none
          ])
            ≡ position dict.entries k =
        λ k. elim (Option-cases (position dict.entries k)) [
          | inl e ↦ elim (Bool-cases (same_text key k)) [
            | inl b ↦
                absurd
                  (some-ne-none i (sym h ∙ ap (position dict.entries) (same_text→≡ key k b) ∙ e))
            | inr b ↦ rw (e, b) refl
          ]
          | inr (p, e) ↦ rw e refl
        ] in
      record {
        distinct = put_key-Distinct dict.entries key value v.distinct;
        found = λ o k. v.found o k ∙ sym (position-put_key dict.entries key k value ∙ stays k);
      }

  -- So does one at the end, with the new key.
  added-IsValid :
      (dict : DictStorage A) (key : List ℕ) (value : A)
      → position dict.entries key ≡ none
      → IsValid dict
      → IsValid (record {
        runtime_impl = dict.runtime_impl;
        entries = dict.entries ++ (key, value) ∷ [];
        index_by_key =
            put_key dict.index_by_key key (length (dict.entries ++ (key, value) ∷ []) - 1);
      })
  added-IsValid dict key value h v =
      let end : length (dict.entries ++ (key, value) ∷ []) - 1 ≡ length dict.entries =
        omega (arith, length-concat dict.entries (key, value)) in
      let same = sym (absent dict.entries key value h).1 in
      let fresh : (k : List ℕ)
          → (if same_text key k then some (length dict.entries) else position dict.entries k)
            ≡ (elim (position dict.entries k) [
              | some p ↦ some p
              | none ↦ if same_text key k then some (length dict.entries) else none
            ]) =
        λ k. elim (Bool-cases (same_text key k)) [
          | inl b ↦ rw (b, ap (position dict.entries) (sym (same_text→≡ key k b)) ∙ h) (rw b refl)
          | inr b ↦ elim (Option-cases (position dict.entries k)) [
            | inl e ↦ rw (b, e) (rw b refl)
            | inr (p, e) ↦ rw (b, e) refl
          ]
        ] in
      record {
        distinct = subst Distinct (sym same) (put_key-Distinct dict.entries key value v.distinct);
        found = λ o k.
            find_key-put_key dict.index_by_key key k
              (length (dict.entries ++ (key, value) ∷ []) - 1)
            ∙ rw (end, v.found o k) (fresh k)
            ∙ sym (position-put_key dict.entries key k value)
            ∙ ap (λ es. position es k) (sym same);
      }

  appended :
      (impl : DictRuntimeImpl) (dict : DictStorage A) (key : List ℕ) (value : A)
      → dict.runtime_impl ≡ impl
      → position dict.entries key ≡ none
      → IsValid dict
      → let after = append_by_impl impl dict key value in
        (after.entries ≡ put_key dict.entries key value)
        × (after.runtime_impl ≡ impl)
        × IsValid after
  appended ordered_hash dict key value h e v =
      (sym (absent dict.entries key value e).1, h, added-IsValid dict key value e v)
  appended linear dict key value h e v =
      let same = sym (absent dict.entries key value e).1 in
      (
        same,
        h,
        record {
          distinct = subst Distinct (sym same) (put_key-Distinct dict.entries key value v.distinct);
          found = λ o k. absurd (not_both (sym o ∙ h));
        },
      )

  pub absent_key :
      (entries : List (List ℕ × A)) (key : List ℕ)
      → position entries key ≡ none
      → find_key entries key ≡ none
  unfolding position find_key
  absent_key [] key h = refl
  absent_key ((k, v) ∷ entries) key h = ground (arith, absent_key entries key)

  from_zero :
      (entries : List (List ℕ × A)) (k : List ℕ)
      → (elim (position entries k) [ some p ↦ some (0 + p) | none ↦ find_key {A = ℕ} [] k ])
        ≡ position entries k
  unfolding find_key
  from_zero entries k = elim (Option-cases (position entries k)) [
    | inl e ↦ rw e refl
    | inr (p, e) ↦ rw e (ap some (omega arith))
  ]

  pub reindexed_lem :
      (own : DictRuntimeImpl) (dict : DictStorage A) (impl : DictRuntimeImpl)
      → own ≡ impl
      → IsValid dict
      → let clone =
          reindexed own
            (record { runtime_impl = impl; entries = dict.entries; index_by_key = [] }) in
        (clone.entries ≡ dict.entries) × (clone.runtime_impl ≡ impl) × IsValid clone
  reindexed_lem ordered_hash dict impl h v = (
    refl,
    refl,
    record {
      distinct = v.distinct;
      found = λ o k. find_key-index_from 0 dict.entries [] k v.distinct ∙ from_zero dict.entries k;
    },
  )
  reindexed_lem linear dict impl h v = (
    refl,
    refl,
    record { distinct = v.distinct; found = λ o k. absurd (not_both (sym o ∙ sym h)) },
  )

  pub set_by_impl-put_key :
      (impl : DictRuntimeImpl) (dict : DictStorage A) (key : List ℕ) (value : A)
      → dict.runtime_impl ≡ impl
      → IsValid dict
      → let after = set_by_impl impl dict key value in
        (after.entries ≡ put_key dict.entries key value)
        × (after.runtime_impl ≡ impl)
        × IsValid after
  set_by_impl-put_key impl dict key value h v =
      let at = find_by_impl-position impl dict key h v in
      elim (Option-cases (position dict.entries key)) [
        | inl e ↦ rw (set_by_impl, at, e) (appended impl dict key value h e v)
        | inr (i, e) ↦
            rw (set_by_impl, at, e)
              (rw (write_at-put_key dict key value i e)
                (refl, h, kept-IsValid dict key value i e v))
      ]
