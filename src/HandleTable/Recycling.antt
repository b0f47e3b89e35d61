-- ===== src/HandleTable/Recycling.antt =====
-- Sequences of operations on a handle table (src/StyioRuntime/HandleTable.hpp): every reachable
-- table is well formed, a released handle is dead, and its id may be the next to be handed out.
use styio.Prelude.{
  ℕ, zero, suc, ◌+◌, ◌≡◌, refl, ap, ◌∙◌, true, false, Option, none, some, List, [], ◌∷◌, ◌++◌,
  length, get_elem?, set, if◌then◌else◌, Option-cases, inl, inr, arith,
}
use styio.HandleTable.{
  HandleKind, unknown, HandleId, pos, negsuc, Entry, default_entry, HandleTable, empty, occupied,
  same_kind, recycle_slot, place_in, acquire, reserve_stub, lookup, lookup_entry, invalidate,
  contains, release, release_all, count_occupied, size,
}
use styio.HandleTable.Invariant.{
  IsValid, empty-IsValid, acquire-IsValid, reserve_stub-IsValid, invalidate-IsValid,
  release-IsValid, Keeps, apart, removable, entry_ptr,
}
use styio.HandleTable.Abstract.{
  view, same_id, release-Releases, lookup-view, OnlyTakes, close-OnlyTakes,
}
use styio.HandleTable.Closers.{release_all-IsValid}

-- A call of the table's interface.
pub data Call : Type 0 where
  acquires : HandleKind → Option ℕ → Call
  reserves : HandleKind → Call
  releases : HandleId → HandleKind → Call
  invalidates : HandleId → Call
  releases_all : HandleKind → Call

module _ {S : Type 0} (closer : ℕ → HandleTable × S → HandleTable × S) where
  -- `release_all` gets fuel for the slots of the table.
  unfoldable pub call : Call → HandleTable × S → Option (HandleTable × S)
  call (acquires kind p) (t, s) = some ((acquire kind p t).0, s)
  call (reserves kind) (t, s) = some ((reserve_stub kind t).0, s)
  call (releases id kind) (t, s) = let r = release closer id kind t s in some (r.0, r.1)
  call (invalidates id) (t, s) = some (invalidate id t, s)
  call (releases_all kind) (t, s) = elim (release_all closer (length t.entries) kind t s) [
    | none ↦ none
    | some r ↦ some (r.0, r.1)
  ]

  unfoldable pub calls : List Call → HandleTable × S → Option (HandleTable × S)
  unfolding call
  calls [] r = some r
  calls (c ∷ cs) r = elim (call c r) [ none ↦ none | some q ↦ calls cs q ]

-- A call does not create an entry of kind `Unknown`.
abbrev pub Kinded : Call → Type 0
Kinded (acquires kind p) = same_kind kind unknown ≡ false
Kinded (reserves kind) = same_kind kind unknown ≡ false
Kinded _ = Unit

abbrev pub AllKinded : List Call → Type 0
AllKinded [] = Unit
AllKinded (c ∷ cs) = Kinded c × AllKinded cs

same_id_refl : (id : HandleId) → same_id id id ≡ true
same_id_refl (pos n) = ground arith
same_id_refl (negsuc n) = ground arith

module _ {S : Type 0} (closer : ℕ → HandleTable × S → HandleTable × S) where
  call-IsValid :
      (k : Keeps closer) (c : Call) (r : HandleTable × S)
      → Kinded c
      → IsValid r.0
      → (q : HandleTable × S) × (call closer c r ≡ some q) × IsValid q.0
  unfolding call
  call-IsValid k (acquires kind p) r h v = (_, refl, acquire-IsValid kind p r.0 h v)
  call-IsValid k (reserves kind) r h v = (_, refl, reserve_stub-IsValid kind r.0 h v)
  call-IsValid k (releases id kind) r h v =
      (_, refl, (release-IsValid closer k id kind r.0 r.1 v).0)
  call-IsValid k (invalidates id) r h v = (_, refl, invalidate-IsValid id r.0 v)
  call-IsValid k (releases_all kind) (t, s) h v =
      let (r, e, w, l) = release_all-IsValid closer kind k (length t.entries) t s v (omega arith) in
      ((r.0, r.1), rw (call, e) refl, w)

  calls_keep :
      (k : Keeps closer) (cs : List Call) (r : HandleTable × S)
      → AllKinded cs
      → IsValid r.0
      → (q : HandleTable × S) × (calls closer cs r ≡ some q) × IsValid q.0
  unfolding calls
  calls_keep k [] r h v = (r, refl, v)
  calls_keep k (c ∷ cs) r h v =
      let (q, e, w) = call-IsValid k c r h.0 v in rw (calls, e) (calls_keep k cs q h.1 w)

  -- Any sequence of calls that creates no entry of kind `Unknown` ends, and takes the empty table to
  -- a well formed one. The closer may use the table, where it leaves a well formed table well formed
  -- and makes no new slot.
  pub calls-IsValid :
      (cs : List Call) (s : S)
      → Keeps closer
      → AllKinded cs
      → (r : HandleTable × S) × (calls closer cs (empty, s) ≡ some r) × IsValid r.0
  calls-IsValid cs s k h = calls_keep k cs (empty, s) h empty-IsValid

  -- What a release found is not there afterwards, if the closer only takes entries off.
  dead :
      (o : OnlyTakes closer) (id : HandleId) (expected : HandleKind) (t : HandleTable) (s : S)
      → IsValid t
      → (release closer id expected t s).2 ≡ true
      → view (release closer id expected t s).0 id ≡ none
  dead o id expected t s v h =
      let r = release-Releases closer id expected t s v in
      let gone : view r.removed id ≡ none = r.left id ∙ rw (same_id_refl id) refl in
      let closed = rw h at r.closed in
      let ran = ap (λ (q : HandleTable × S). view q.0 id) closed in
      elim (close-OnlyTakes closer o (entry_ptr (view t id)) r.removed s id) [
        | inl n ↦ ran ∙ n
        | inr q ↦ ran ∙ q ∙ gone
      ]

  -- A handle that was released is not found any more by `lookup`, and a second release fails and
  -- changes and closes nothing, whatever kinds these expect. The closer may take other entries off a
  -- well formed table, which it keeps well formed.
  pub release_twice :
      (id : HandleId) (k₁ k₂ : HandleKind) (t : HandleTable) (s : S)
      → Keeps closer
      → OnlyTakes closer
      → IsValid t
      → (release closer id k₁ t s).2 ≡ true
      → (lookup (release closer id k₁ t s).0 id k₂ ≡ none)
        × (release closer id k₂ (release closer id k₁ t s).0 (release closer id k₁ t s).1
            ≡ ((release closer id k₁ t s).0, (release closer id k₁ t s).1, false))
  release_twice id k₁ k₂ t s k o v h =
      let r = release closer id k₁ t s in
      let r-valid = (release-IsValid closer k id k₁ t s v).0 in
      let gone = dead o id k₁ t s v h in
      let second = release-Releases closer id k₂ r.0 r.1 r-valid in
      let failed = second.result ∙ ap (removable k₂) gone in
      let same = second.closed ∙ rw failed refl in
      (
        (lookup-view r.0 id k₂ r-valid).0 ∙ ap (lookup_entry k₂) gone,
        (λ i. ((same i).0, (same i).1, failed i)),
      )

-- The id of a handle released by a closer that does not use the table is the one that the next acquire
-- hands out.
pub acquire-release :
    {S : Type 0} (f : ℕ → S → S) (id : HandleId) (expected kind : HandleKind) (p : ℕ)
    (t : HandleTable) (s : S)
    → IsValid t
    → (release (apart f) id expected t s).2 ≡ true
    → (acquire kind (some p) (release (apart f) id expected t s).0).1 ≡ id
unfolding release acquire
acquire-release f (pos zero) expected kind p t s v h = ground arith
acquire-release f (pos (suc i)) expected kind p t s v h = ground (arith, v.sound i)
acquire-release f (negsuc n) expected kind p t s v h = ground arith

count_occupied-set :
    (es : List Entry) (i : ℕ) (e e' : Entry)
    → get_elem? es i ≡ some e
    → count_occupied (set es i e') + (if occupied e then 1 else 0)
      ≡ count_occupied es + (if occupied e' then 1 else 0)
unfolding count_occupied
count_occupied-set [] i e e' h = ground arith
count_occupied-set (x ∷ es) zero e e' h = ground arith
count_occupied-set (x ∷ es) (suc i) e e' h = ground (arith, count_occupied-set es i e e' h)

count_occupied-concat :
    (es : List Entry) (e : Entry)
    → count_occupied (es ++ e ∷ []) ≡ count_occupied es + (if occupied e then 1 else 0)
unfolding count_occupied
count_occupied-concat [] e = omega arith
count_occupied-concat (x ∷ es) e = omega (arith, count_occupied-concat es e)

size-place_in :
    (t : HandleTable) (l : List ℕ) (e : Entry)
    → t.free_handles ≡ l
    → occupied e ≡ true
    → IsValid t
    → count_occupied (place_in t l e).0.entries ≡ count_occupied t.entries + 1
size-place_in t [] e h o v = ground (arith, count_occupied-concat t.entries e)
size-place_in t (zero ∷ rest) e h o v = absurd (ground (arith, v.no_zero))
size-place_in t (suc k ∷ rest) e h o v = elim (Option-cases (get_elem? t.entries k)) [
  | inl g ↦ absurd (ground (arith, v.covers k))
  | inr (f, g) ↦ ground (arith, v.covers k, count_occupied-set t.entries k f e g)
]

-- Acquiring a pointer adds one to the size of the table.
pub size-acquire :
    (kind : HandleKind) (p : ℕ) (t : HandleTable)
    → same_kind kind unknown ≡ false
    → IsValid t
    → size (acquire kind (some p) t).0 ≡ size t + 1
unfolding acquire size
size-acquire kind p t k v = size-place_in t t.free_handles _ refl (ground arith) v

-- Invalidating an id takes one off the size where the id was held, and nothing elsewhere.
pub size-invalidate :
    (id : HandleId) (t : HandleTable)
    → size (invalidate id t) + (if contains t id then 1 else 0) ≡ size t
unfolding invalidate size contains recycle_slot
size-invalidate (pos zero) t = omega arith
size-invalidate (negsuc n) t = omega arith
size-invalidate (pos (suc i)) t = elim (Option-cases (get_elem? t.entries i)) [
  | inl g ↦ ground arith
  | inr (f, g) ↦ ground (arith, count_occupied-set t.entries i f default_entry g)
]
