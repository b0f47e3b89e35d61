-- ===== src/HandleTable/Tests.antt =====
-- Runs of the handle table (src/StyioRuntime/HandleTable.hpp) on concrete inputs.
use mathlib.Core.Option.{some-injective}
use styio.Prelude.{
  ℕ, ◌≡◌, refl, ◌+◌, true, false, none, some, List, [], ◌∷◌, ◌++◌, ◌==◌, if◌then◌else◌, Bool-cases,
  inl, inr, sym, ◌∙◌, subst, arith,
}
use styio.HandleTable.{
  file, list, unknown, pos, HandleId, HandleTable, default_entry, empty, acquire, reserve_stub,
  release, release_all, lookup, size,
}
use styio.HandleTable.Invariant.{IsValid, Keeps, apart, apart-Keeps, release-IsValid}
use styio.HandleTable.Abstract.{
  Inserts, Releases, acquire-Inserts, release-Releases, OnlyTakes, apart-OnlyTakes, view,
  release-OnlyTakes,
}
use styio.HandleTable.Closers.{Gone, release_all-Gone}
use styio.HandleTable.Sweep.{ReleasesAll, release_all-ReleasesAll}
use styio.HandleTable.Recycling.{
  Call, acquires, reserves, releases, calls, calls-IsValid, release_twice, acquire-release,
  size-acquire,
}

-- A closer that records what it closed.
abbrev log : ℕ → List ℕ → List ℕ
log p s = s ++ p ∷ []

-- A closer that does so, and releases what the list at address 8 holds, the file of handle 3.
abbrev close_nested : ℕ → HandleTable × List ℕ → HandleTable × List ℕ
close_nested p (t, s) =
    if p == 8
    then (let r = release (apart log) (pos 3) file t (log p s) in (r.0, r.1))
    else (t, log p s)

close_nested-Keeps : Keeps close_nested
close_nested-Keeps p t s v = elim (Bool-cases (p == 8)) [
  | inl e ↦ rw e (release-IsValid (apart log) (apart-Keeps log) (pos 3) file t (log p s) v)
  | inr e ↦ rw e (v, refl)
]

close_nested-OnlyTakes : OnlyTakes close_nested
close_nested-OnlyTakes p t s j = elim (Bool-cases (p == 8)) [
  | inl e ↦ rw e (release-OnlyTakes (apart log) (apart-OnlyTakes log) (pos 3) file t (log p s) j)
  | inr e ↦ rw e (inr refl)
]

abbrev script : List Call
script =
    acquires file (some 7)
    ∷ acquires list (some 8)
    ∷ releases (pos 1) file
    ∷ reserves list
    ∷ acquires file (some 9)
    ∷ []

-- The stub took the released handle 1, and the next file got a new slot.
abbrev table : HandleTable
table = record {
  entries =
      record { kind = list; ptr = none; valid = false }
      ∷ record { kind = list; ptr = some 8; valid = true }
      ∷ record { kind = file; ptr = some 9; valid = true }
      ∷ [];
  free_handles = [];
}

calls-script : calls close_nested script (empty, []) ≡ some (table, 7 ∷ [])
unfolding calls acquire reserve_stub release
calls-script = refl

table-IsValid : IsValid table
table-IsValid =
    let (r, e, v) =
      calls-IsValid close_nested script [] close_nested-Keeps
        (refl, (refl, (tt, (refl, (refl, tt))))) in
    let same = some-injective (table, 7 ∷ []) r (sym calls-script ∙ e) in
    let final : r.0 ≡ table = λ i. (sym same i).0 in subst IsValid final v

-- The list's release takes the file with it, whose handle is on top of the free stack then.
nested :
    let r = release close_nested (pos 2) list table [] in
    (r.1 ≡ 8 ∷ 9 ∷ []) × (r.0.free_handles ≡ 3 ∷ 2 ∷ []) × (size r.0 ≡ 1)
unfolding release size
nested = (refl, refl, refl)

-- Where the loop reaches handle 3, the closer of handle 2 has taken it off.
nested_in_the_loop :
    release_all close_nested 3 unknown table []
    ≡ some (
      record {
        entries = default_entry ∷ default_entry ∷ default_entry ∷ [];
        free_handles = 3 ∷ 2 ∷ 1 ∷ [];
      },
      8 ∷ 9 ∷ [],
      1,
    )
unfolding release_all release
nested_in_the_loop = refl

calls-IsValid_example :
    (r : HandleTable × List ℕ) × (calls close_nested script (empty, []) ≡ some r) × IsValid r.0
calls-IsValid_example =
    calls-IsValid close_nested script [] close_nested-Keeps (refl, (refl, (tt, (refl, (refl, tt)))))

acquire-Inserts_example :
    Inserts table (record { kind = file; ptr = some 5; valid = true }) (acquire file (some 5) table)
acquire-Inserts_example = acquire-Inserts file 5 table refl table-IsValid

release-Releases_example :
    Releases close_nested (pos 2) list table [] (release close_nested (pos 2) list table [])
release-Releases_example = release-Releases close_nested (pos 2) list table [] table-IsValid

release_all-ReleasesAll_example :
    (r : HandleTable × List ℕ × ℕ) × (release_all (apart log) 3 unknown table [] ≡ some r)
    × ReleasesAll log unknown table [] r
release_all-ReleasesAll_example =
    release_all-ReleasesAll log unknown 3 table [] table-IsValid (omega arith)

release_all-Gone_example :
    (r : HandleTable × List ℕ × ℕ) × (release_all close_nested 3 list table [] ≡ some r)
    × IsValid r.0
    × ((j : HandleId) → Gone list (view table j) (view r.0 j))
release_all-Gone_example =
    release_all-Gone close_nested list 3 table [] close_nested-Keeps close_nested-OnlyTakes
      table-IsValid (omega arith)

nested_released : (release close_nested (pos 2) unknown table []).2 ≡ true
unfolding release
nested_released = refl

release_twice_example :
    let r = release close_nested (pos 2) unknown table [] in
    (lookup r.0 (pos 2) list ≡ none)
    × (release close_nested (pos 2) list r.0 r.1 ≡ (r.0, r.1, false))
release_twice_example =
    release_twice close_nested (pos 2) unknown list table [] close_nested-Keeps
      close_nested-OnlyTakes table-IsValid nested_released

released : (release (apart log) (pos 2) unknown table []).2 ≡ true
unfolding release
released = refl

acquire-release_example :
    (acquire file (some 4) (release (apart log) (pos 2) unknown table []).0).1 ≡ pos 2
acquire-release_example = acquire-release log (pos 2) unknown file 4 table [] table-IsValid released

size-acquire_example : size (acquire list (some 6) table).0 ≡ size table + 1
size-acquire_example = size-acquire list 6 table refl table-IsValid

-- An entry of kind `Unknown` is not occupied, so a release does not free it, and the next release
-- closes its pointer once more.
unknown_closed_twice :
    let t = (acquire unknown (some 3) empty).0 in
    let r = release (apart log) (pos 1) unknown t [] in
    (release (apart log) (pos 1) unknown r.0 r.1).1 ≡ 3 ∷ 3 ∷ []
unfolding acquire release
unknown_closed_twice = refl
