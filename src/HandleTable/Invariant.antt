-- ===== src/HandleTable/Invariant.antt =====
-- The well-formedness of a handle table (src/StyioRuntime/HandleTable.hpp), which every
-- operation keeps: the free stack holds exactly the ids of the unoccupied slots, each once, and
-- a valid entry is occupied and has a pointer.
use styio.Prelude.{
  ℕ, zero, suc, ◌≡◌, refl, Bool, true, false, not, ◌&&◌, Option, none, some, List, [], ◌∷◌,
  get_elem?, get_elem?-set, get_elem?-concat, get_elem?_end, ◌==◌, if◌then◌else◌, Option-cases,
  Bool-cases, length, length-set, ◌∙◌, inl, inr, arith,
}
use styio.HandleTable.{
  HandleKind, unknown, HandleId, pos, negsuc, Entry, default_entry, HandleTable, empty, occupied,
  same_kind, entry_for, recycle_slot, recycle_handle, place_in, place, acquire, reserve_stub,
  invalidate, release, close, wrong_kind,
}

abbrev pub elem : ℕ → List ℕ → Bool
elem a [] = false
elem a (x ∷ xs) = if a == x then true else elem a xs

abbrev pub Distinct : List ℕ → Type 0
Distinct [] = Unit
Distinct (x ∷ xs) = (elem x xs ≡ false) × Distinct xs

abbrev pub free_slot : Option Entry → Bool
free_slot none = false
free_slot (some e) = not (occupied e)

abbrev pub has_ptr : Option ℕ → Bool
has_ptr none = false
has_ptr (some p) = true

abbrev pub sound_slot : Option Entry → Bool
sound_slot none = true
sound_slot (some e) = if e.valid then occupied e && has_ptr e.ptr else true

pub record IsValid (t : HandleTable) : Type 0 where
  pub covers : (i : ℕ) → elem (suc i) t.free_handles ≡ free_slot (get_elem? t.entries i)
  pub no_zero : elem 0 t.free_handles ≡ false
  pub once : Distinct t.free_handles
  pub sound : (i : ℕ) → sound_slot (get_elem? t.entries i) ≡ true

pub empty-IsValid : IsValid empty
empty-IsValid = record { covers = λ i. refl; no_zero = refl; once = tt; sound = λ i. refl }

-- The top of the free stack is a slot of the table, and it is not occupied.
pub free_top :
    (t : HandleTable) (id : ℕ) (rest : List ℕ)
    → t.free_handles ≡ id ∷ rest
    → IsValid t
    → (i : ℕ) × (id ≡ suc i) × (free_slot (get_elem? t.entries i) ≡ true)
free_top t zero rest h v = ground (arith, v.no_zero)
free_top t (suc i) rest h v = (i, refl, ground (arith, v.covers i))

place_in-IsValid :
    (t : HandleTable) (l : List ℕ) (e : Entry)
    → t.free_handles ≡ l
    → occupied e ≡ true
    → sound_slot (some e) ≡ true
    → IsValid t
    → IsValid (place_in t l e).0
place_in-IsValid t [] e h o s v = record {
  covers = λ i. ground (arith, get_elem?-concat t.entries i e, v.covers i, get_elem?_end t.entries);
  no_zero = v.no_zero;
  once = v.once;
  sound = λ i. ground (arith, get_elem?-concat t.entries i e, v.sound i);
}
place_in-IsValid t (zero ∷ rest) e h o s v = absurd (ground (arith, v.no_zero))
place_in-IsValid t (suc k ∷ rest) e h o s v = record {
  covers = λ i. ground (arith, get_elem?-set t.entries k i e, v.covers i, v.once);
  no_zero = ground (arith, v.no_zero);
  once = (rw h at v.once).1;
  sound = λ i. ground (arith, get_elem?-set t.entries k i e, v.sound i);
}

pub recycle_slot-IsValid :
    (t : HandleTable) (i : ℕ) (e : Entry)
    → get_elem? t.entries i ≡ some e
    → IsValid t
    → IsValid (recycle_slot t i e)
unfolding recycle_slot
recycle_slot-IsValid t i e h v = elim (Bool-cases (occupied e)) [
  | inl o ↦ rw o (record {
    covers = λ j. ground (arith, get_elem?-set t.entries i j default_entry, v.covers j);
    no_zero = ground (arith, v.no_zero);
    once = (ground (arith, v.covers i), v.once);
    sound = λ j. ground (arith, get_elem?-set t.entries i j default_entry, v.sound j);
  })
  | inr o ↦ rw o v
]

place-IsValid :
    (t : HandleTable) (e : Entry)
    → occupied e ≡ true
    → sound_slot (some e) ≡ true
    → IsValid t
    → IsValid (place t e).0
unfolding place
place-IsValid t e o s v = place_in-IsValid t t.free_handles e refl o s v

pub acquire-IsValid :
    (kind : HandleKind) (p : Option ℕ) (t : HandleTable)
    → same_kind kind unknown ≡ false
    → IsValid t
    → IsValid (acquire kind p t).0
unfolding acquire
acquire-IsValid kind none t k v = v
acquire-IsValid kind (some p) t k v = place-IsValid t _ (ground arith) (ground arith) v

pub reserve_stub-IsValid :
    (kind : HandleKind) (t : HandleTable)
    → same_kind kind unknown ≡ false
    → IsValid t
    → IsValid (reserve_stub kind t).0
unfolding reserve_stub
reserve_stub-IsValid kind t k v = place-IsValid t _ (ground arith) (ground arith) v

pub recycle_handle-IsValid :
    (t : HandleTable) (id : HandleId) → IsValid t → IsValid (recycle_handle t id (entry_for t id))
unfolding recycle_handle
recycle_handle-IsValid t (negsuc n) v = v
recycle_handle-IsValid t (pos zero) v = v
recycle_handle-IsValid t (pos (suc i)) v = elim (Option-cases (get_elem? t.entries i)) [
  | inl h ↦ rw h v
  | inr (e, h) ↦ rw h (recycle_slot-IsValid t i e h v)
]

pub invalidate-IsValid : (id : HandleId) (t : HandleTable) → IsValid t → IsValid (invalidate id t)
unfolding invalidate
invalidate-IsValid id t v = recycle_handle-IsValid t id v

-- An entry that `release` closes.
abbrev pub removable : HandleKind → Option Entry → Bool
removable expected none = false
removable expected (some e) = e.valid && not (wrong_kind expected e.kind)

abbrev pub entry_ptr : Option Entry → Option ℕ
entry_ptr none = none
entry_ptr (some e) = e.ptr

-- A closer that leaves a well formed table well formed, and makes no new slot. It may release other
-- handles of the table.
abbrev pub Keeps : {S : Type 0} → (ℕ → HandleTable × S → HandleTable × S) → Type 0
Keeps {S} closer =
    (p : ℕ) (t : HandleTable) (s : S)
    → IsValid t
    → IsValid (closer p (t, s)).0 × (length (closer p (t, s)).0.entries ≡ length t.entries)

-- A closer that does not use the table.
abbrev pub apart : {S : Type 0} → (ℕ → S → S) → ℕ → HandleTable × S → HandleTable × S
apart f p r = (r.0, f p r.1)

pub apart-Keeps : {S : Type 0} (f : ℕ → S → S) → Keeps (apart f)
apart-Keeps f p t s v = (v, refl)

pub length-recycle_slot :
    (t : HandleTable) (i : ℕ) (e : Entry) → length (recycle_slot t i e).entries ≡ length t.entries
unfolding recycle_slot
length-recycle_slot t i e = ground (arith, length-set t.entries i default_entry)

pub length-invalidate :
    (id : HandleId) (t : HandleTable) → length (invalidate id t).entries ≡ length t.entries
unfolding invalidate recycle_handle
length-invalidate (negsuc n) t = refl
length-invalidate (pos zero) t = refl
length-invalidate (pos (suc i)) t = elim (Option-cases (get_elem? t.entries i)) [
  | inl h ↦ rw h refl
  | inr (e, h) ↦ rw h (length-recycle_slot t i e)
]

module _ {S : Type 0} (closer : ℕ → HandleTable × S → HandleTable × S) where
  -- A release closes the pointer on the table without the entry, or does nothing.
  pub release_lem :
      (id : HandleId) (expected : HandleKind) (t : HandleTable) (s : S)
      → release closer id expected t s ≡ (
          if removable expected (entry_for t id)
          then (let r = close closer (entry_ptr (entry_for t id)) (invalidate id t, s) in
              (r.0, r.1, true))
          else (t, s, false))
  unfolding release invalidate
  release_lem id expected t s = elim (Option-cases (entry_for t id)) [
    | inl h ↦ rw h refl
    | inr (e, h) ↦ rw h (ground arith)
  ]

module _ {S : Type 0} (closer : ℕ → HandleTable × S → HandleTable × S) (k : Keeps closer) where
  pub close-Keeps :
      (p : Option ℕ) (t : HandleTable) (s : S)
      → IsValid t
      → IsValid (close closer p (t, s)).0
        × (length (close closer p (t, s)).0.entries ≡ length t.entries)
  close-Keeps none t s v = (v, refl)
  close-Keeps (some p) t s v = k p t s v

  pub release-IsValid :
      (id : HandleId) (expected : HandleKind) (t : HandleTable) (s : S)
      → IsValid t
      → IsValid (release closer id expected t s).0
        × (length (release closer id expected t s).0.entries ≡ length t.entries)
  release-IsValid id expected t s v =
      let ptr = entry_ptr (entry_for t id) in
      let (u, l) = close-Keeps ptr (invalidate id t) s (invalidate-IsValid id t v) in
      rw (release_lem closer id expected t s)
        (elim (Bool-cases (removable expected (entry_for t id))) [
          | inl e ↦ rw e (u, l ∙ length-invalidate id t)
          | inr e ↦ rw e (v, refl)
        ])
