-- ===== src/VirtualFileSystem.antt =====
-- src/StyioIDE/VFS.hpp and VFS.cpp: the documents that an editor has open, with the structures of
-- src/StyioIDE/Common.hpp that it hands around. A reference to a document is the normalized path
-- under which it is stored, and a shared pointer to a snapshot is the snapshot: it is never written
-- to. The map of documents is an association list. What
-- `std::filesystem::path::lexically_normal` makes of a path, and what a read of a file gives (no
-- text where it cannot be opened), are parameters.
pub mod Operations
pub mod Steps
pub mod Updates
pub mod Outcomes
pub mod Snapshots
pub mod Evolution
pub mod Runs
mod Tests
use styio.Prelude.{
  ℕ, zero, suc, ◌+◌, ◌-◌, ◌*◌, ◌%◌, ◌^◌, Bool, true, false, not, ◌&&◌, ◌||◌, Option, none, some,
  List, [], ◌∷◌, ◌++◌, length, take, drop, ltb, ◌==◌, if◌then◌else◌,
}
use styio.Prelude.Scan.{codes}
use styio.TextBuffer
use styio.TextBuffer.{TextBuffer, reset}

-- int64_t; `negsuc n` is -(n + 1)
pub data DocumentVersion : Type 0 where
  pos : ℕ → DocumentVersion
  negsuc : ℕ → DocumentVersion

pub record TextRange : Type 0 where
  pub start : ℕ
  pub end : ℕ

pub record TextEdit : Type 0 where
  pub range : TextRange
  pub replacement : List ℕ

pub record DocumentDelta : Type 0 where
  pub is_full_sync : Bool
  pub requires_full_resync : Bool
  pub full_text : List ℕ
  pub edits : List TextEdit
  pub resync_reason : List ℕ

-- `DocumentState`, and `DocumentSnapshot`, which has the same members.
pub record DocumentState : Type 0 where
  pub file_id : ℕ
  pub snapshot_id : ℕ
  pub version : DocumentVersion
  pub is_open : Bool
  pub path : List ℕ
  pub buffer : TextBuffer
  pub from_full_sync : Bool
  pub needs_full_resync : Bool
  pub applied_edits : List TextEdit
  pub resync_reason : List ℕ

pub record DocumentSnapshot : Type 0 where
  pub file_id : ℕ
  pub snapshot_id : ℕ
  pub path : List ℕ
  pub version : DocumentVersion
  pub buffer : TextBuffer
  pub is_open : Bool
  pub from_full_sync : Bool
  pub needs_full_resync : Bool
  pub applied_edits : List TextEdit
  pub resync_reason : List ℕ

pub record DocumentUpdateResult : Type 0 where
  pub snapshot : DocumentSnapshot
  pub applied_incremental : Bool
  pub used_full_sync : Bool
  pub needs_full_resync : Bool
  pub message : List ℕ

pub record VirtualFileSystem : Type 0 where
  pub next_file_id : ℕ
  pub next_snapshot_id : ℕ
  pub documents : List (List ℕ × DocumentState)

abbrev pub new : VirtualFileSystem
new = record { next_file_id = 1; next_snapshot_id = 1; documents = [] }

-- `TextRange::length`
abbrev pub range_length : TextRange → ℕ
range_length range = if ltb range.end range.start then 0 else range.end - range.start

-- `next_file_id_++` and `next_snapshot_id_++`
abbrev pub after_file_id : ℕ → ℕ
after_file_id n = (n + 1) % 4294967296

abbrev pub after_snapshot_id : ℕ → ℕ
after_snapshot_id n = (n + 1) % 18446744073709551616

-- The members of a document that `DocumentState state;` leaves at their initial values.
abbrev pub new_document : ℕ → List ℕ → DocumentState
new_document file_id normalized = record {
  file_id = file_id;
  snapshot_id = 0;
  version = pos 0;
  is_open = false;
  path = normalized;
  buffer = TextBuffer.empty;
  from_full_sync = false;
  needs_full_resync = false;
  applied_edits = [];
  resync_reason = [];
}

abbrev pub make_snapshot : DocumentState → DocumentSnapshot
make_snapshot state = record {
  file_id = state.file_id;
  snapshot_id = state.snapshot_id;
  path = state.path;
  version = state.version;
  buffer = state.buffer;
  is_open = state.is_open;
  from_full_sync = state.from_full_sync;
  needs_full_resync = state.needs_full_resync;
  applied_edits = state.applied_edits;
  resync_reason = state.resync_reason;
}

-- What `open` and `update` make of a document for a whole text.
abbrev pub synced : DocumentState → ℕ → List ℕ → DocumentVersion → DocumentState
synced state snapshot_id text version = record {
  file_id = state.file_id;
  snapshot_id = snapshot_id;
  version = version;
  is_open = true;
  path = state.path;
  buffer = reset text;
  from_full_sync = true;
  needs_full_resync = false;
  applied_edits = [];
  resync_reason = [];
}

-- What `update` makes of a document that the editor has to send again: its text stays.
abbrev pub resync : DocumentState → ℕ → List ℕ → DocumentVersion → DocumentState
resync state snapshot_id reason version = record {
  file_id = state.file_id;
  snapshot_id = snapshot_id;
  version = version;
  is_open = true;
  path = state.path;
  buffer = state.buffer;
  from_full_sync = false;
  needs_full_resync = true;
  applied_edits = [];
  resync_reason = reason;
}

-- What `update` makes of a document whose edits it applied.
abbrev pub edited : DocumentState → ℕ → List ℕ → List TextEdit → DocumentVersion → DocumentState
edited state snapshot_id text edits version = record {
  file_id = state.file_id;
  snapshot_id = snapshot_id;
  version = version;
  is_open = true;
  path = state.path;
  buffer = reset text;
  from_full_sync = false;
  needs_full_resync = false;
  applied_edits = edits;
  resync_reason = [];
}

-- What `snapshot_for` makes of a document whose file has another text: it stays closed.
abbrev pub reread : DocumentState → ℕ → List ℕ → DocumentState
reread state snapshot_id text = record {
  file_id = state.file_id;
  snapshot_id = snapshot_id;
  version = state.version;
  is_open = state.is_open;
  path = state.path;
  buffer = reset text;
  from_full_sync = true;
  needs_full_resync = false;
  applied_edits = [];
  resync_reason = [];
}

abbrev pub closed : DocumentState → DocumentState
closed state = record {
  file_id = state.file_id;
  snapshot_id = state.snapshot_id;
  version = state.version;
  is_open = false;
  path = state.path;
  buffer = state.buffer;
  from_full_sync = state.from_full_sync;
  needs_full_resync = state.needs_full_resync;
  applied_edits = state.applied_edits;
  resync_reason = state.resync_reason;
}

-- `std::string::replace`, in range
abbrev pub replace : List ℕ → TextRange → List ℕ → List ℕ
replace text range replacement =
    take range.start text ++ (replacement ++ drop (range.start + range_length range) text)

abbrev pub in_range : List ℕ → TextRange → Bool
in_range text range = not (ltb range.end range.start || ltb (length text) range.end)

-- The loop over the edits: each is applied to what those before it made of the text. `none` where
-- one is out of range.
unfoldable pub apply_edits :
    List TextEdit → List ℕ → List TextEdit → Option (List ℕ × List TextEdit)
apply_edits [] working_text applied = some (working_text, applied)
apply_edits (edit ∷ edits) working_text applied =
    let rest =
      apply_edits edits (replace working_text edit.range edit.replacement) (applied ++ edit ∷ []) in
    if in_range working_text edit.range then rest else none
