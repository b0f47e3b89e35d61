-- ===== src/HandleTable.antt =====
-- src/StyioRuntime/HandleTable.hpp: the table that hands out the runtime's integer handles.
-- A pointer is an address, `none` for nullptr. A handle id is an integer; the ids on the free
-- stack are positive, since `recycle_handle` gets only ids that `entry_for` accepted, and are kept
-- as natural numbers, the back of the vector first. A closer is a function on the table and a state
-- of the caller's: it may call the table again.
pub mod Invariant
pub mod Recycling
pub mod Sweep
pub mod Closers
pub mod Abstract
mod Tests
use styio.Prelude.{
  ℕ, zero, suc, ◌+◌, ◌-◌, Bool, true, false, not, Option, none, some, List, [], ◌∷◌, ◌++◌, length,
  get_elem?, set, if◌then◌else◌,
}

pub data HandleKind : Type 0 where
  file resource list dict matrix task unknown : HandleKind

-- `HandleId`: int64_t; `negsuc n` is -(n + 1)
pub data HandleId : Type 0 where
  pos : ℕ → HandleId
  negsuc : ℕ → HandleId

pub record Entry : Type 0 where
  pub kind : HandleKind
  pub ptr : Option ℕ
  pub valid : Bool

-- `Entry{}`
abbrev pub default_entry : Entry
default_entry = record { kind = unknown; ptr = none; valid = false }

pub record HandleTable : Type 0 where
  pub entries : List Entry
  pub free_handles : List ℕ

abbrev pub empty : HandleTable
empty = record { entries = []; free_handles = [] }

-- `a == b` on the kinds
abbrev pub same_kind : HandleKind → HandleKind → Bool
same_kind file file = true
same_kind resource resource = true
same_kind list list = true
same_kind dict dict = true
same_kind matrix matrix = true
same_kind task task = true
same_kind unknown unknown = true
same_kind _ _ = false

-- `expected_kind != Unknown && entry.kind != expected_kind`
abbrev pub wrong_kind : HandleKind → HandleKind → Bool
wrong_kind unknown kind = false
wrong_kind expected kind = not (same_kind kind expected)

abbrev pub occupied : Entry → Bool
occupied e = not (same_kind e.kind unknown)

abbrev pub entry_for : HandleTable → HandleId → Option Entry
entry_for t (negsuc n) = none
entry_for t (pos zero) = none
entry_for t (pos (suc i)) = get_elem? t.entries i

-- `recycle_handle` at the entry of index `i`
unfoldable pub recycle_slot : HandleTable → ℕ → Entry → HandleTable
recycle_slot t i e =
    if occupied e
    then record { entries = set t.entries i default_entry; free_handles = suc i ∷ t.free_handles }
    else t

-- `recycle_handle`, which does nothing at a null entry
unfoldable pub recycle_handle : HandleTable → HandleId → Option Entry → HandleTable
unfolding recycle_slot
recycle_handle t (pos (suc i)) (some e) = recycle_slot t i e
recycle_handle t _ _ = t

-- The branch that `acquire` and `reserve_stub` share: the last freed handle, or a new slot.
abbrev place_in : HandleTable → List ℕ → Entry → HandleTable × HandleId
place_in t [] e = (record t { entries = t.entries ++ e ∷ [] }, pos (length (t.entries ++ e ∷ [])))
place_in t (id ∷ rest) e =
    (record { entries = set t.entries (id - 1) e; free_handles = rest }, pos id)

unfoldable pub place : HandleTable → Entry → HandleTable × HandleId
place t e = place_in t t.free_handles e

unfoldable pub acquire : HandleKind → Option ℕ → HandleTable → HandleTable × HandleId
unfolding place
acquire kind none t = (t, pos 0)
acquire kind (some p) t = place t (record { kind = kind; ptr = some p; valid = true })

unfoldable pub reserve_stub : HandleKind → HandleTable → HandleTable × HandleId
unfolding place
reserve_stub kind t = place t (record { kind = kind; ptr = none; valid = false })

abbrev pub lookup_entry : HandleKind → Option Entry → Option ℕ
lookup_entry expected none = none
lookup_entry expected (some e) =
    if not e.valid then none else if wrong_kind expected e.kind then none else e.ptr

unfoldable pub lookup : HandleTable → HandleId → HandleKind → Option ℕ
lookup t id expected = lookup_entry expected (entry_for t id)

unfoldable pub contains : HandleTable → HandleId → Bool
contains t id = elim (entry_for t id) [ none ↦ false | some e ↦ occupied e ]

unfoldable pub invalidate : HandleId → HandleTable → HandleTable
unfolding recycle_handle
invalidate id t = recycle_handle t id (entry_for t id)

unfoldable pub count_occupied : List Entry → ℕ
count_occupied [] = 0
count_occupied (e ∷ es) = (if occupied e then 1 else 0) + count_occupied es

unfoldable pub size : HandleTable → ℕ
unfolding count_occupied
size t = count_occupied t.entries

module _ {S : Type 0} (closer : ℕ → HandleTable × S → HandleTable × S) where
  -- `if (raw != nullptr) closer(raw)`
  abbrev pub close : Option ℕ → HandleTable × S → HandleTable × S
  close none r = r
  close (some p) r = closer p r

  release_entry : HandleTable → HandleId → HandleKind → Option Entry → S → HandleTable × S × Bool
  unfolding recycle_handle
  release_entry t id expected none s = (t, s, false)
  release_entry t id expected (some e) s =
      if not e.valid
      then (t, s, false)
      else if wrong_kind expected e.kind
      then (t, s, false)
      else (let r = close e.ptr (recycle_handle t id (some e), s) in (r.0, r.1, true))

  unfoldable pub release : HandleId → HandleKind → HandleTable → S → HandleTable × S × Bool
  unfolding release_entry
  release id expected t s = release_entry t id expected (entry_for t id) s

  -- one round of the loop of `release_all`, at index `i` with the entry there
  unfoldable pub sweep_entry : HandleKind → ℕ → Entry → HandleTable × S × ℕ → HandleTable × S × ℕ
  unfolding recycle_slot
  sweep_entry expected i e (t, s, released) =
      if not (occupied e)
      then (t, s, released)
      else if wrong_kind expected e.kind
      then (t, s, released)
      else if not e.valid
      then (recycle_slot t i e, s, released)
      else (let r = close e.ptr (recycle_slot t i e, s) in (r.0, r.1, released + 1))

  -- The loop from index `i` on, on fuel. A round reads the table that the closers left; `none` is
  -- fuel that ran out before the last entry.
  unfoldable pub sweep : ℕ → HandleKind → ℕ → HandleTable × S × ℕ → Option (HandleTable × S × ℕ)
  unfolding sweep_entry
  sweep zero expected i r = elim (get_elem? r.0.entries i) [ none ↦ some r | some e ↦ none ]
  sweep (suc fuel) expected i r = elim (get_elem? r.0.entries i) [
    | none ↦ some r
    | some e ↦ sweep fuel expected (suc i) (sweep_entry expected i e r)
  ]

  unfoldable pub release_all : ℕ → HandleKind → HandleTable → S → Option (HandleTable × S × ℕ)
  unfolding sweep
  release_all fuel expected t s = sweep fuel expected 0 (t, s, 0)
