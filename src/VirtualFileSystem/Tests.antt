-- ===== src/VirtualFileSystem/Tests.antt =====
-- The documents of src/StyioIDE/VFS.cpp on concrete calls.
use mathlib.Core.Option.{some-ne-none}
use styio.Prelude.Texts.{same_text, find_key}
use styio.Prelude.{
  ℕ, ◌*◌, ◌≡◌, refl, sym, true, false, some, List, [], ◌∷◌, length, if◌then◌else◌, arith,
}
use styio.Prelude.Scan.{codes}
use styio.VirtualFileSystem.{pos, DocumentDelta, VirtualFileSystem, new, apply_edits}
use styio.VirtualFileSystem.Operations.{
  normalize_path, open_document, update_delta, snapshot_for, ensure_document,
}
use styio.VirtualFileSystem.Evolution.{IsValid, Room, Evolves}
use styio.VirtualFileSystem.Outcomes.{Outcome, Stored, buffer_at, update_delta-Outcome}
use styio.VirtualFileSystem.Snapshots.{is_open_at, snapshot_for-text, open_document-snapshot_for}
use styio.VirtualFileSystem.Runs.{
  Call, opens, updates_delta, closes, snapshots, call, calls, calls-Evolves, call_others,
}
use styio.TextBuffer.{reset}

abbrev same_path : List ℕ → List ℕ
same_path path = path

-- Every file holds its own path.
abbrev own_path : List ℕ → List ℕ
own_path path = path

-- "abc" without its "b", and a "d" behind what is left.
abbrev two_edits : DocumentDelta
two_edits = record {
  is_full_sync = false;
  requires_full_resync = false;
  full_text = [];
  edits =
      record { range = record { start = 1; end = 2 }; replacement = [] }
      ∷ record { range = record { start = 2; end = 2 }; replacement = codes "d" }
      ∷ [];
  resync_reason = [];
}

edits_of_a_text : apply_edits two_edits.edits (codes "abc") [] ≡ some (codes "acd", two_edits.edits)
unfolding apply_edits
edits_of_a_text = refl

abbrev first_call : List Call
first_call = opens (codes "a") (codes "abc") (pos 1) ∷ []

abbrev opened : VirtualFileSystem
opened = calls same_path first_call new

abbrev session : List Call
session =
    updates_delta (codes "a") two_edits (pos 2)
    ∷ closes (codes "a")
    ∷ snapshots own_path (codes "a")
    ∷ snapshots own_path (codes "b")
    ∷ []

new-IsValid : IsValid new
unfolding find_key
new-IsValid = record {
  fresh = λ k s h. absurd (some-ne-none s (sym h));
  distinct = λ j k s t h g e. absurd (some-ne-none s (sym h));
}

differs : same_text (codes "b") (codes "a") ≡ false
unfolding same_text
differs = refl

opened-IsValid : IsValid opened
opened-IsValid =
    (calls-Evolves same_path first_call new new-IsValid (omega arith, omega arith, omega arith)).0

opened-Room : Room (2 * length session) opened
unfolding calls call open_document ensure_document find_key
opened-Room = (omega arith, omega arith, omega arith)

calls-Evolves_example :
    IsValid (calls same_path session opened) × Evolves opened (calls same_path session opened)
calls-Evolves_example = calls-Evolves same_path session opened opened-IsValid opened-Room

call_others_example :
    find_key (call same_path (closes (codes "b")) opened).documents (codes "a")
    ≡ find_key opened.documents (codes "a")
call_others_example = call_others same_path (closes (codes "b")) opened (codes "a") differs

update_delta-Outcome_example :
    Outcome two_edits
      (buffer_at opened (normalize_path same_path (codes "a")))
      (update_delta same_path opened (codes "a") two_edits (pos 2)).1
    × Stored
        (update_delta same_path opened (codes "a") two_edits (pos 2)).0
        (normalize_path same_path (codes "a"))
        (pos 2)
        (update_delta same_path opened (codes "a") two_edits (pos 2)).1.snapshot
update_delta-Outcome_example = update_delta-Outcome same_path opened (codes "a") two_edits (pos 2)

snapshot_for-text_example : (snapshot_for same_path own_path opened (codes "b")).1.buffer.text ≡ (
    if is_open_at opened (normalize_path same_path (codes "b"))
    then (buffer_at opened (normalize_path same_path (codes "b"))).text
    else own_path (normalize_path same_path (codes "b")))
snapshot_for-text_example = snapshot_for-text same_path own_path opened (codes "b") opened-IsValid

open_document-snapshot_for_example :
    (snapshot_for same_path own_path
        (open_document same_path new (codes "a") (codes "abc") (pos 1)).0
        (codes "a")
      ≡ open_document same_path new (codes "a") (codes "abc") (pos 1))
    × ((open_document same_path new (codes "a") (codes "abc") (pos 1)).1.buffer
        ≡ reset (codes "abc"))
    × ((open_document same_path new (codes "a") (codes "abc") (pos 1)).1.version ≡ pos 1)
    × ((open_document same_path new (codes "a") (codes "abc") (pos 1)).1.is_open ≡ true)
open_document-snapshot_for_example =
    open_document-snapshot_for same_path own_path new (codes "a") (codes "abc") (pos 1)
