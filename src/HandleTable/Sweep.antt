-- ===== src/HandleTable/Sweep.antt =====
-- `release_all` of src/StyioRuntime/HandleTable.hpp with a closer that does not use the table: what
-- the loop over the table closes, frees and leaves.
use mathlib.Core.List.{foldl}
use styio.Prelude.{
  ℕ, zero, suc, ◌+◌, ◌-◌, ◌≤◌, ◌≡◌, ◌≢◌, refl, ◌∙◌, ap, true, not, ◌&&◌, Option, none, some, List,
  [], ◌∷◌, length, get_elem?, get_elem?-set, ◌==◌, ltb, if◌then◌else◌, Bool-cases, lt→ltb,
  not_lt→ltb, inl, inr, arith,
}
use styio.HandleTable.{
  HandleKind, HandleId, pos, negsuc, Entry, default_entry, HandleTable, occupied, wrong_kind,
  recycle_slot, sweep_entry, sweep, release_all,
}
use styio.HandleTable.Invariant.{IsValid, sound_slot, apart}
use styio.HandleTable.Abstract.{visible, view}

-- The pointers of the valid entries of a kind, in the order of their slots.
abbrev pub live_ptr : HandleKind → Entry → List ℕ → List ℕ
live_ptr expected e rest =
    if occupied e && e.valid && not (wrong_kind expected e.kind)
    then (elim e.ptr [ none ↦ rest | some p ↦ p ∷ rest ])
    else rest

abbrev pub live_ptrs : HandleKind → List Entry → List ℕ
live_ptrs expected [] = []
live_ptrs expected (e ∷ es) = live_ptr expected e (live_ptrs expected es)

abbrev pub cleared : HandleKind → Option Entry → Option Entry
cleared expected none = none
cleared expected (some e) = if wrong_kind expected e.kind then some e else none

-- The entries from index `i` on are still those that the loop began with.
abbrev Agrees : HandleTable → ℕ → List Entry → Type 0
Agrees t i es = (m : ℕ) → i ≤ m → get_elem? t.entries m ≡ get_elem? es (m - i)

module _ {S : Type 0} (f : ℕ → S → S) (expected : HandleKind) where
  abbrev State : Type 0
  State = HandleTable × S × ℕ

  abbrev closer : ℕ → HandleTable × S → HandleTable × S
  closer = apart f

  -- The loop where the entries still to come are known beforehand.
  unfoldable listed : ℕ → List Entry → State → State
  listed i [] r = r
  listed i (e ∷ es) r = listed (suc i) es (sweep_entry closer expected i e r)

  get-sweep_entry :
      (i : ℕ) (e : Entry) (t : HandleTable) (s : S) (n m : ℕ)
      → i ≢ m
      → get_elem? (sweep_entry closer expected i e (t, s, n)).0.entries m ≡ get_elem? t.entries m
  unfolding sweep_entry recycle_slot
  get-sweep_entry i e t s n m h = ground (arith, get_elem?-set t.entries i m default_entry)

  visible-sweep_entry :
      (i : ℕ) (e : Entry) (t : HandleTable) (s : S) (n : ℕ)
      → get_elem? t.entries i ≡ some e
      → visible (get_elem? (sweep_entry closer expected i e (t, s, n)).0.entries i)
        ≡ cleared expected (visible (get_elem? t.entries i))
  unfolding sweep_entry recycle_slot
  visible-sweep_entry i e t s n h = ground (arith, get_elem?-set t.entries i i default_entry)

  at_end : (i : ℕ) (t : HandleTable) → Agrees t i [] → get_elem? t.entries i ≡ none
  at_end i t a = a i (omega arith)

  Agrees-step :
      (i : ℕ) (e : Entry) (es : List Entry) (t : HandleTable) (s : S) (n : ℕ)
      → Agrees t i (e ∷ es)
      → Agrees (sweep_entry closer expected i e (t, s, n)).0 (suc i) es
  Agrees-step i e es t s n a m le =
      let shift : m - i ≡ suc (m - suc i) = omega arith in
      get-sweep_entry i e t s n m (omega arith) ∙ a m (omega arith) ∙ ap (get_elem? (e ∷ es)) shift

  Agrees-head :
      (i : ℕ) (e : Entry) (es : List Entry) (t : HandleTable)
      → Agrees t i (e ∷ es)
      → get_elem? t.entries i ≡ some e
  Agrees-head i e es t a =
      let none_left : i - i ≡ 0 = omega arith in
      a i (omega arith) ∙ ap (get_elem? (e ∷ es)) none_left

  step_cases :
      (i m : ℕ) (x x' : Option Entry)
      → (i ≢ m → x' ≡ x)
      → (i ≡ m → x' ≡ cleared expected x)
      → (if ltb m (suc i) then x' else cleared expected x')
        ≡ (if ltb m i then x else cleared expected x)
  step_cases i m x x' other here = elim (Bool-cases (i == m)) [
    | inl d ↦
        let e = here (ground arith) in
        rw e (rw (lt→ltb m (suc i) (ground arith), not_lt→ltb m i (ground arith)))
    | inr d ↦
        let e = other (ground arith) in
        rw e (ap (λ b. if b then x else cleared expected x) (ground arith))
  ]

  visible-listed :
      (es : List Entry) (i : ℕ) (t : HandleTable) (s : S) (n m : ℕ)
      → Agrees t i es
      → visible (get_elem? (listed i es (t, s, n)).0.entries m) ≡ (
          if ltb m i
          then visible (get_elem? t.entries m)
          else cleared expected (visible (get_elem? t.entries m)))
  unfolding listed
  visible-listed [] i t s n m a = ground (arith, a m)
  visible-listed (e ∷ es) i t s n m a =
      let h = Agrees-head i e es t a in
      let r = sweep_entry closer expected i e (t, s, n) in
      visible-listed es (suc i) r.0 r.1 r.2 m (Agrees-step i e es t s n a)
      ∙ step_cases i m _ _ (λ d. ap visible (get-sweep_entry i e t s n m d))
          (λ d. rw (← d) (visible-sweep_entry i e t s n h))

  closed-sweep_entry :
      (i : ℕ) (e : Entry) (t : HandleTable) (s : S) (n : ℕ) (rest : List ℕ)
      → foldl (λ s' p. f p s') (sweep_entry closer expected i e (t, s, n)).1 rest
        ≡ foldl (λ s' p. f p s') s (live_ptr expected e rest)
  unfolding sweep_entry
  closed-sweep_entry i e t s n rest = ground arith

  count-sweep_entry :
      (i : ℕ) (e : Entry) (t : HandleTable) (s : S) (n : ℕ) (rest : List ℕ)
      → sound_slot (some e) ≡ true
      → (sweep_entry closer expected i e (t, s, n)).2 + length rest
        ≡ n + length (live_ptr expected e rest)
  unfolding sweep_entry
  count-sweep_entry i e t s n rest h = ground arith

  closed-listed :
      (es : List Entry) (i : ℕ) (t : HandleTable) (s : S) (n : ℕ)
      → (listed i es (t, s, n)).1 ≡ foldl (λ s' p. f p s') s (live_ptrs expected es)
  unfolding listed
  closed-listed [] i t s n = refl
  closed-listed (e ∷ es) i t s n =
      let r = sweep_entry closer expected i e (t, s, n) in
      closed-listed es (suc i) r.0 r.1 r.2 ∙ closed-sweep_entry i e t s n (live_ptrs expected es)

  count-listed :
      (es : List Entry) (i : ℕ) (t : HandleTable) (s : S) (n : ℕ)
      → ((m : ℕ) → sound_slot (get_elem? es m) ≡ true)
      → (listed i es (t, s, n)).2 ≡ n + length (live_ptrs expected es)
  unfolding listed
  count-listed [] i t s n v = omega arith
  count-listed (e ∷ es) i t s n v =
      let r = sweep_entry closer expected i e (t, s, n) in
      count-listed es (suc i) r.0 r.1 r.2 (λ m. v (suc m))
      ∙ count-sweep_entry i e t s n (live_ptrs expected es) (v 0)

  sweep-listed :
      (es : List Entry) (fuel i : ℕ) (t : HandleTable) (s : S) (n : ℕ)
      → Agrees t i es
      → length es ≤ fuel
      → sweep closer fuel expected i (t, s, n) ≡ some (listed i es (t, s, n))
  unfolding sweep listed
  sweep-listed [] zero i t s n a le = rw (sweep, at_end i t a) refl
  sweep-listed [] (suc fuel) i t s n a le = rw (sweep, at_end i t a) refl
  sweep-listed (e ∷ es) zero i t s n a le = absurd (omega arith)
  sweep-listed (e ∷ es) (suc fuel) i t s n a le =
      let h = Agrees-head i e es t a in
      let r = sweep_entry closer expected i e (t, s, n) in
      rw (sweep, h)
        (sweep-listed es fuel (suc i) r.0 r.1 r.2 (Agrees-step i e es t s n a) (omega arith))

-- The map, the closer's state and the count after `release_all`, told by the table before, for a
-- closer that is a function on its state.
pub record ReleasesAll {S : Type 0} (f : ℕ → S → S) (expected : HandleKind) (t : HandleTable)
    (s : S) (r : HandleTable × S × ℕ) : Type 0 where
  pub left : (j : HandleId) → view r.0 j ≡ cleared expected (view t j)
  pub closed : r.1 ≡ foldl (λ s' p. f p s') s (live_ptrs expected t.entries)
  pub counted : r.2 ≡ length (live_ptrs expected t.entries)

module _ {S : Type 0} (f : ℕ → S → S) (expected : HandleKind) where
  start-Agrees : (t : HandleTable) → Agrees t 0 t.entries
  start-Agrees t m le = let whole : m ≡ m - 0 = omega arith in ap (get_elem? t.entries) whole

  left-listed :
      (t : HandleTable) (s : S) (j : HandleId)
      → view (listed f expected 0 t.entries (t, s, 0)).0 j ≡ cleared expected (view t j)
  left-listed t s (pos zero) = refl
  left-listed t s (pos (suc i)) =
      ground (arith, visible-listed f expected t.entries 0 t s 0 i (start-Agrees t))
  left-listed t s (negsuc n) = refl

  -- On a well formed table, with fuel for its slots and a closer that does not use the table,
  -- `release_all` ends. It removes the entries of the expected kind and no others, closes the
  -- pointers of the valid ones once each in the order of their slots, and returns their number.
  pub release_all-ReleasesAll :
      (fuel : ℕ) (t : HandleTable) (s : S)
      → IsValid t
      → length t.entries ≤ fuel
      → (r : HandleTable × S × ℕ) × (release_all (apart f) fuel expected t s ≡ some r)
        × ReleasesAll f expected t s r
  release_all-ReleasesAll fuel t s v le = (
    listed f expected 0 t.entries (t, s, 0),
    unfold release_all in sweep-listed f expected t.entries fuel 0 t s 0 (start-Agrees t) le,
    record {
      left = left-listed t s;
      closed = closed-listed f expected t.entries 0 t s 0;
      counted = count-listed f expected t.entries 0 t s 0 v.sound ∙ omega arith;
    },
  )
