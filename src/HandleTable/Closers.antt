-- ===== src/HandleTable/Closers.antt =====
-- `release_all` of src/StyioRuntime/HandleTable.hpp with a closer that may release other handles of
-- the table while the loop runs, as `close_list` and `close_dict` of
-- src/StyioExtern/ExternLib.cpp do.
use mathlib.Core.Option.{some-injective, some-ne-none}
use styio.Prelude.{
  ℕ, zero, suc, ◌+◌, ◌≤◌, ◌≡◌, refl, sym, ap, ◌∙◌, ◌⊎◌, Option, none, some, List, [], ◌∷◌, length,
  get_elem?, get_elem?_bound, ◌==◌, Bool-cases, Option-cases, ==_iff, inl, inr, arith,
}
use styio.HandleTable.{
  HandleKind, HandleId, pos, negsuc, Entry, HandleTable, occupied, wrong_kind, recycle_slot,
  sweep_entry, sweep, release_all, close,
}
use styio.HandleTable.Invariant.{
  IsValid, Keeps, close-Keeps, recycle_slot-IsValid, length-recycle_slot,
}
use styio.HandleTable.Abstract.{
  view, index_id, same_id, OnlyTakes, close-OnlyTakes, view-recycle_slot,
}
use styio.HandleTable.Sweep.{cleared}

get_elem?-none : (es : List Entry) (i m : ℕ) → get_elem? es i ≡ none → i ≤ m → get_elem? es m ≡ none
get_elem?-none [] i m h le = refl
get_elem?-none (e ∷ es) zero m h le = absurd (ground arith)
get_elem?-none (e ∷ es) (suc i) zero h le = absurd (omega arith)
get_elem?-none (e ∷ es) (suc i) (suc m) h le = get_elem?-none es i m h (omega arith)

-- A place that holds nothing any more, or what it held before.
abbrev pub Thinner : HandleTable → HandleTable → Type 0
Thinner t t' = (j : HandleId) → (view t' j ≡ none) ⊎ (view t' j ≡ view t j)

-- The entry is gone, or it is untouched and of another kind.
abbrev pub Gone : HandleKind → Option Entry → Option Entry → Type 0
Gone expected before after =
    (after ≡ none) ⊎ ((after ≡ before) × (cleared expected before ≡ before))

Thinner-trans : (a b c : HandleTable) → Thinner a b → Thinner b c → Thinner a c
Thinner-trans a b c p q j = elim (q j) [
  | inl n ↦ inl n
  | inr e ↦ elim (p j) [ inl n ↦ inl (e ∙ n) | inr d ↦ inr (e ∙ d) ]
]

Gone-then :
    (expected : HandleKind) (a b c : Option Entry)
    → Gone expected a b
    → (c ≡ none) ⊎ (c ≡ b)
    → Gone expected a c
Gone-then expected a b c g (inl n) = inl n
Gone-then expected a b c (inl n) (inr e) = inl (e ∙ n)
Gone-then expected a b c (inr (same, kept)) (inr e) = inr (e ∙ same, kept)

Gone-after :
    (expected : HandleKind) (a b c : Option Entry)
    → (b ≡ none) ⊎ (b ≡ a)
    → Gone expected b c
    → Gone expected a c
Gone-after expected a b c p (inl n) = inl n
Gone-after expected a b c (inl n) (inr (same, kept)) = inl (same ∙ n)
Gone-after expected a b c (inr e) (inr (same, kept)) =
    inr (same ∙ e, ap (cleared expected) (sym e) ∙ kept ∙ e)

recycle_slot-Thinner :
    (t : HandleTable) (i : ℕ) (e : Entry)
    → get_elem? t.entries i ≡ some e
    → Thinner t (recycle_slot t i e)
recycle_slot-Thinner t i e h j = elim (Bool-cases (same_id (index_id i) j)) [
  | inl q ↦ inl (view-recycle_slot t i e j h ∙ rw q refl)
  | inr q ↦ inr (view-recycle_slot t i e j h ∙ rw q refl)
]

module _ {S : Type 0} (closer : ℕ → HandleTable × S → HandleTable × S) (expected : HandleKind) where
  -- What a round does where it does not skip.
  round_cases :
      (i : ℕ) (e : Entry) (t : HandleTable) (s : S) (n : ℕ)
      → get_elem? t.entries i ≡ some e
      → ((sweep_entry closer expected i e (t, s, n) ≡ (t, s, n))
          × (cleared expected (view t (index_id i)) ≡ view t (index_id i)))
        ⊎ ((p : Option ℕ) × ((sweep_entry closer expected i e (t, s, n)).0
              ≡ (close closer p (recycle_slot t i e, s)).0))
  unfolding sweep_entry
  round_cases i e t s n h = elim (Bool-cases (occupied e)) [
    | inr o ↦ inl (rw (sweep_entry, o) refl, rw (h, o) refl)
    | inl o ↦ elim (Bool-cases (wrong_kind expected e.kind)) [
      | inl w ↦ inl (rw (sweep_entry, o, w) refl, rw (h, o, w) refl)
      | inr w ↦ elim (Bool-cases e.valid) [
        | inl u ↦ inr (e.ptr, rw (sweep_entry, o, w, u) refl)
        | inr u ↦ inr (none, rw (sweep_entry, o, w, u) refl)
      ]
    ]
  ]

  module _ (k : Keeps closer) where
    sweep_entry-IsValid :
        (i : ℕ) (e : Entry) (t : HandleTable) (s : S) (n : ℕ)
        → get_elem? t.entries i ≡ some e
        → IsValid t
        → IsValid (sweep_entry closer expected i e (t, s, n)).0
          × (length (sweep_entry closer expected i e (t, s, n)).0.entries ≡ length t.entries)
    sweep_entry-IsValid i e t s n h v = elim (round_cases i e t s n h) [
      | inl (same, kept) ↦ rw same (v, refl)
      | inr (p, after) ↦
          let (u, l) =
            close-Keeps closer k p (recycle_slot t i e) s (recycle_slot-IsValid t i e h v) in
          rw after (u, l ∙ length-recycle_slot t i e)
    ]

    -- The loop ends with fuel for the slots that are left, on a well formed table.
    sweep_ends :
        (fuel i : ℕ) (t : HandleTable) (s : S) (n : ℕ)
        → IsValid t
        → length t.entries ≤ i + fuel
        → (r : HandleTable × S × ℕ) × (sweep closer fuel expected i (t, s, n) ≡ some r)
          × IsValid r.0
          × (length r.0.entries ≡ length t.entries)
    unfolding sweep
    sweep_ends zero i t s n v le = elim (Option-cases (get_elem? t.entries i)) [
      | inl h ↦ ((t, s, n), rw (sweep, h) refl, v, refl)
      | inr (e, h) ↦ absurd (omega (arith, get_elem?_bound t.entries i e h))
    ]
    sweep_ends (suc fuel) i t s n v le = elim (Option-cases (get_elem? t.entries i)) [
      | inl h ↦ ((t, s, n), rw (sweep, h) refl, v, refl)
      | inr (e, h) ↦
          let a = sweep_entry closer expected i e (t, s, n) in
          let (u, l) = sweep_entry-IsValid i e t s n h v in
          let (r, q, w, m) = sweep_ends fuel (suc i) a.0 a.1 a.2 u (omega arith) in
          (r, rw (sweep, h) q, w, m ∙ l)
    ]

    pub release_all-IsValid :
        (fuel : ℕ) (t : HandleTable) (s : S)
        → IsValid t
        → length t.entries ≤ fuel
        → (r : HandleTable × S × ℕ) × (release_all closer fuel expected t s ≡ some r)
          × IsValid r.0
          × (length r.0.entries ≡ length t.entries)
    unfolding release_all
    release_all-IsValid fuel t s v le = sweep_ends fuel 0 t s 0 v (omega arith)

  module _ (o : OnlyTakes closer) where
    sweep_entry-Thinner :
        (i : ℕ) (e : Entry) (t : HandleTable) (s : S) (n : ℕ)
        → get_elem? t.entries i ≡ some e
        → Thinner t (sweep_entry closer expected i e (t, s, n)).0
    sweep_entry-Thinner i e t s n h j = elim (round_cases i e t s n h) [
      | inl (same, kept) ↦ rw same (inr refl)
      | inr (p, after) ↦ rw after (
          Thinner-trans t (recycle_slot t i e) (close closer p (recycle_slot t i e, s)).0
            (recycle_slot-Thinner t i e h)
            (λ j. close-OnlyTakes closer o p (recycle_slot t i e) s j) j)
    ]

    sweep_entry-Gone :
        (i : ℕ) (e : Entry) (t : HandleTable) (s : S) (n : ℕ)
        → get_elem? t.entries i ≡ some e
        → Gone expected
            (view t (index_id i))
            (view (sweep_entry closer expected i e (t, s, n)).0 (index_id i))
    sweep_entry-Gone i e t s n h = elim (round_cases i e t s n h) [
      | inl (same, kept) ↦ rw same (inr (refl, kept))
      | inr (p, after) ↦
          let empty = view-recycle_slot t i e (index_id i) h ∙ ground arith in
          rw after (
            Gone-then expected (view t (index_id i)) none _ (inl refl)
              (elim (close-OnlyTakes closer o p (recycle_slot t i e) s (index_id i)) [
                | inl n ↦ inl n
                | inr q ↦ inl (q ∙ empty)
              ]))
    ]

    stopped :
        (i : ℕ) (t : HandleTable) (s : S) (n : ℕ) (r : HandleTable × S × ℕ)
        → get_elem? t.entries i ≡ none
        → (t, s, n) ≡ r
        → Thinner t r.0
          × ((m : ℕ) → i ≤ m → Gone expected (view t (index_id m)) (view r.0 (index_id m)))
    stopped i t s n r h q =
        rw (← q) (λ j. inr refl, λ m le. inr (refl, rw (get_elem?-none t.entries i m h le) refl))

    -- What the loop leaves where it ends.
    sweep-Gone :
        (fuel i : ℕ) (t : HandleTable) (s : S) (n : ℕ) (r : HandleTable × S × ℕ)
        → sweep closer fuel expected i (t, s, n) ≡ some r
        → Thinner t r.0
          × ((m : ℕ) → i ≤ m → Gone expected (view t (index_id m)) (view r.0 (index_id m)))
    unfolding sweep
    sweep-Gone zero i t s n r q = elim (Option-cases (get_elem? t.entries i)) [
      | inl h ↦ stopped i t s n r h (some-injective _ r (rw (sweep, h) at q))
      | inr (e, h) ↦ absurd (some-ne-none r (sym (rw (sweep, h) at q)))
    ]
    sweep-Gone (suc fuel) i t s n r q = elim (Option-cases (get_elem? t.entries i)) [
      | inl h ↦ stopped i t s n r h (some-injective _ r (rw (sweep, h) at q))
      | inr (e, h) ↦
          let a = sweep_entry closer expected i e (t, s, n) in
          let (thin, gone) = sweep-Gone fuel (suc i) a.0 a.1 a.2 r (rw (sweep, h) at q) in
          let first = sweep_entry-Thinner i e t s n h in
          (
            Thinner-trans t a.0 r.0 first thin,
            λ m le. elim (Bool-cases (i == m)) [
              | inl d ↦
                  rw (← (==_iff i m).0 d)
                    (Gone-then expected _ _ _ (sweep_entry-Gone i e t s n h) (thin (index_id i)))
              | inr d ↦ Gone-after expected _ _ _ (first (index_id m)) (gone m (ground arith))
            ],
          )
    ]

    left-release_all :
        (fuel : ℕ) (t : HandleTable) (s : S) (r : HandleTable × S × ℕ)
        → release_all closer fuel expected t s ≡ some r
        → (j : HandleId) → Gone expected (view t j) (view r.0 j)
    unfolding release_all
    left-release_all fuel t s r q (pos zero) = inl refl
    left-release_all fuel t s r q (pos (suc m)) = (sweep-Gone fuel 0 t s 0 r q).1 m (omega arith)
    left-release_all fuel t s r q (negsuc n) = inl refl

  -- On a well formed table, with fuel for its slots and a closer that keeps tables well formed, makes
  -- no slot and changes no entry but to take it off, `release_all` ends with a well formed table. An
  -- entry of the expected kind is gone then; one of another kind is gone or untouched.
  pub release_all-Gone :
      (fuel : ℕ) (t : HandleTable) (s : S)
      → Keeps closer
      → OnlyTakes closer
      → IsValid t
      → length t.entries ≤ fuel
      → (r : HandleTable × S × ℕ) × (release_all closer fuel expected t s ≡ some r)
        × IsValid r.0
        × ((j : HandleId) → Gone expected (view t j) (view r.0 j))
  release_all-Gone fuel t s k o v le =
      let (r, q, w, l) = release_all-IsValid k fuel t s v le in
      (r, q, w, left-release_all o fuel t s r q)
