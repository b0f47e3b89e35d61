-- ===== src/HandleTable/Abstract.antt =====
-- The contract of the handle table (src/StyioRuntime/HandleTable.hpp): a finite map from ids to
-- entries, in which an unoccupied slot is no entry, and the operations as updates of that map.
use styio.Prelude.{
  ℕ, zero, suc, ◌≡◌, refl, ap, Bool, true, false, Option, none, some, List, [], ◌∷◌, length,
  length-concat, get_elem?, get_elem?-set, get_elem?-concat, get_elem?_end, ◌==◌, if◌then◌else◌,
  Option-cases, Bool-cases, sym, ◌∙◌, ◌⊎◌, inl, inr, arith,
}
use styio.HandleTable.{
  HandleKind, unknown, HandleId, pos, negsuc, Entry, default_entry, HandleTable, occupied,
  same_kind, entry_for, recycle_slot, recycle_handle, place_in, acquire, reserve_stub, lookup_entry,
  lookup, contains, invalidate, close, release,
}
use styio.HandleTable.Invariant.{
  IsValid, sound_slot, invalidate-IsValid, removable, entry_ptr, apart, release_lem,
}

abbrev pub visible : Option Entry → Option Entry
visible none = none
visible (some e) = if occupied e then some e else none

abbrev pub is_some {ℓ} : {A : Type ℓ} → Option A → Bool
is_some none = false
is_some (some a) = true

-- What the table holds at an id.
abbrev pub view : HandleTable → HandleId → Option Entry
view t id = visible (entry_for t id)

abbrev pub same_id : HandleId → HandleId → Bool
same_id (pos a) (pos b) = a == b
same_id (negsuc a) (negsuc b) = a == b
same_id _ _ = false

abbrev pub index_id : ℕ → HandleId
index_id i = pos (suc i)

-- The map with `o` at `id`.
abbrev pub updated : HandleTable → HandleId → Option Entry → HandleId → Option Entry
updated t id o j = if same_id id j then o else view t j

-- The operation put `e` at an id that held nothing, and changed nothing else.
pub record Inserts (t : HandleTable) (e : Entry) (r : HandleTable × HandleId) : Type 0 where
  pub is_positive : (i : ℕ) × (r.1 ≡ pos (suc i))
  pub fresh : view t r.1 ≡ none
  pub inserted : (j : HandleId) → view r.0 j ≡ updated t r.1 (some e) j

place_in-Inserts :
    (t : HandleTable) (l : List ℕ) (e : Entry)
    → t.free_handles ≡ l
    → occupied e ≡ true
    → IsValid t
    → Inserts t e (place_in t l e)
place_in-Inserts t [] e h o v = record {
  is_positive = (length t.entries, ap pos (length-concat t.entries e));
  fresh = rw length-concat (ground (arith, get_elem?_end t.entries));
  inserted = elim [
    | pos zero ↦ rw length-concat (ground arith)
    | pos (suc j) ↦ rw length-concat (ground (arith, get_elem?-concat t.entries j e))
    | negsuc n ↦ refl
  ];
}
place_in-Inserts t (zero ∷ rest) e h o v = absurd (ground (arith, v.no_zero))
place_in-Inserts t (suc k ∷ rest) e h o v = record {
  is_positive = (k, refl);
  fresh = ground (arith, v.covers k);
  inserted = elim [
    | pos zero ↦ ground arith
    | pos (suc j) ↦ ground (arith, get_elem?-set t.entries k j e, v.covers k)
    | negsuc n ↦ refl
  ];
}

-- Acquiring a pointer hands out an id that was free, and maps it to the pointer and its kind.
pub acquire-Inserts :
    (kind : HandleKind) (p : ℕ) (t : HandleTable)
    → same_kind kind unknown ≡ false
    → IsValid t
    → Inserts t (record { kind = kind; ptr = some p; valid = true }) (acquire kind (some p) t)
unfolding acquire
acquire-Inserts kind p t k v = place_in-Inserts t t.free_handles _ refl (ground arith) v

pub reserve_stub-Inserts :
    (kind : HandleKind) (t : HandleTable)
    → same_kind kind unknown ≡ false
    → IsValid t
    → Inserts t (record { kind = kind; ptr = none; valid = false }) (reserve_stub kind t)
unfolding reserve_stub
reserve_stub-Inserts kind t k v = place_in-Inserts t t.free_handles _ refl (ground arith) v

pub view-recycle_slot :
    (t : HandleTable) (i : ℕ) (e : Entry) (j : HandleId)
    → get_elem? t.entries i ≡ some e
    → view (recycle_slot t i e) j ≡ updated t (index_id i) none j
unfolding recycle_slot
view-recycle_slot t i e (pos zero) h = ground arith
view-recycle_slot t i e (pos (suc j)) h = ground (arith, get_elem?-set t.entries i j default_entry)
view-recycle_slot t i e (negsuc n) h = ground arith

pub view-recycle_handle :
    (t : HandleTable) (id : HandleId) (j : HandleId)
    → view (recycle_handle t id (entry_for t id)) j ≡ updated t id none j
unfolding recycle_handle
view-recycle_handle t (negsuc n) (negsuc m) = ground arith
view-recycle_handle t (negsuc n) (pos m) = refl
view-recycle_handle t (pos zero) (pos zero) = refl
view-recycle_handle t (pos zero) (pos (suc m)) = ground arith
view-recycle_handle t (pos zero) (negsuc n) = refl
view-recycle_handle t (pos (suc i)) j = elim (Option-cases (get_elem? t.entries i)) [
  | inl h ↦ rw h (unchanged j h)
  | inr (e, h) ↦ rw h (view-recycle_slot t i e j h)
]
  where
    unchanged :
        (k : HandleId) → get_elem? t.entries i ≡ none → view t k ≡ updated t (pos (suc i)) none k
    unchanged (pos zero) h = ground arith
    unchanged (pos (suc m)) h = ground arith
    unchanged (negsuc n) h = refl

-- Invalidating an id removes it from the map, and changes nothing else.
pub view-invalidate :
    (id : HandleId) (t : HandleTable) (j : HandleId)
    → view (invalidate id t) j ≡ updated t id none j
unfolding invalidate
view-invalidate id t j = view-recycle_handle t id j

sound-at : (t : HandleTable) (id : HandleId) → IsValid t → sound_slot (entry_for t id) ≡ true
sound-at t (pos zero) v = refl
sound-at t (pos (suc i)) v = v.sound i
sound-at t (negsuc n) v = refl

-- `lookup` and `contains` read the map, and nothing behind it.
pub lookup-view :
    (t : HandleTable) (id : HandleId) (expected : HandleKind)
    → IsValid t
    → (lookup t id expected ≡ lookup_entry expected (view t id))
      × (contains t id ≡ is_some (view t id))
unfolding lookup contains
lookup-view t id expected v = ground (arith, sound-at t id v)

-- The outcome of a release, told by what the map holds at the id. The closer runs on a well formed
-- table that holds the id no more and all else as before, and what it returns is returned.
pub record Releases {S : Type 0} (closer : ℕ → HandleTable × S → HandleTable × S) (id : HandleId)
    (expected : HandleKind) (t : HandleTable) (s : S) (r : HandleTable × S × Bool) : Type 0 where
  pub result : r.2 ≡ removable expected (view t id)
  pub removed : HandleTable
  pub removed_IsValid : IsValid removed
  pub left : (j : HandleId) → view removed j ≡ updated t id none j
  pub closed :
      (r.0, r.1) ≡ (if r.2 then close closer (entry_ptr (view t id)) (removed, s) else (t, s))

-- A closer that takes entries off the map, or none, and changes no other.
abbrev pub OnlyTakes : {S : Type 0} → (ℕ → HandleTable × S → HandleTable × S) → Type 0
OnlyTakes {S} closer =
    (p : ℕ) (t : HandleTable) (s : S) (j : HandleId)
    → (view (closer p (t, s)).0 j ≡ none) ⊎ (view (closer p (t, s)).0 j ≡ view t j)

pub apart-OnlyTakes : {S : Type 0} (f : ℕ → S → S) → OnlyTakes (apart f)
apart-OnlyTakes f p t s j = inr refl

module _ {S : Type 0} (closer : ℕ → HandleTable × S → HandleTable × S) where
  -- On a well formed table a release succeeds exactly where the id holds a valid entry of the
  -- expected kind. Then its pointer is closed on a well formed table that holds the id no more and
  -- all else as before, whatever the closer then does to that table; otherwise nothing changes.
  pub release-Releases :
      (id : HandleId) (expected : HandleKind) (t : HandleTable) (s : S)
      → IsValid t
      → Releases closer id expected t s (release closer id expected t s)
  release-Releases id expected t s v =
      let sound = sound-at t id v in
      let seen : removable expected (entry_for t id) ≡ removable expected (view t id) =
        ground (arith, sound) in
      rw (release_lem closer id expected t s)
        (elim (Bool-cases (removable expected (entry_for t id))) [
          | inl e ↦ rw e (record {
            result = sym e ∙ seen;
            removed = invalidate id t;
            removed_IsValid = invalidate-IsValid id t v;
            left = λ j. view-invalidate id t j;
            closed =
                let same : entry_ptr (entry_for t id) ≡ entry_ptr (view t id) =
                  ground (arith, sound) in
                rw same refl;
          })
          | inr e ↦ rw e (record {
            result = sym e ∙ seen;
            removed = invalidate id t;
            removed_IsValid = invalidate-IsValid id t v;
            left = λ j. view-invalidate id t j;
            closed = refl;
          })
        ])

  pub close-OnlyTakes :
      (o : OnlyTakes closer) (p : Option ℕ) (t : HandleTable) (s : S) (j : HandleId)
      → (view (close closer p (t, s)).0 j ≡ none) ⊎ (view (close closer p (t, s)).0 j ≡ view t j)
  close-OnlyTakes o none t s j = inr refl
  close-OnlyTakes o (some p) t s j = o p t s j

  -- A release takes off entries alone where its closer does.
  pub release-OnlyTakes :
      (o : OnlyTakes closer) (id : HandleId) (expected : HandleKind) (t : HandleTable) (s : S)
      (j : HandleId)
      → (view (release closer id expected t s).0 j ≡ none)
        ⊎ (view (release closer id expected t s).0 j ≡ view t j)
  release-OnlyTakes o id expected t s j =
      let after = close-OnlyTakes o (entry_ptr (entry_for t id)) (invalidate id t) s j in
      let gone = view-invalidate id t j in
      rw (release_lem closer id expected t s)
        (elim (Bool-cases (removable expected (entry_for t id))) [
          | inr e ↦ rw e (inr refl)
          | inl e ↦ rw e (elim after [
            | inl n ↦ inl n
            | inr same ↦ elim (Bool-cases (same_id id j)) [
              | inl q ↦ inl (same ∙ gone ∙ rw q refl)
              | inr q ↦ inr (same ∙ gone ∙ rw q refl)
            ]
          ])
        ])
