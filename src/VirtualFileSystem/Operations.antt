-- ===== src/VirtualFileSystem/Operations.antt =====
-- src/StyioIDE/VFS.cpp: the operations of `VirtualFileSystem`.
use styio.Prelude.Texts.{same_text, find_key, put_key}
use styio.Prelude.{ℕ, true, false, none, some, List, [], ◌∷◌, if◌then◌else◌}
use styio.Prelude.Scan.{codes}
use styio.VirtualFileSystem.{
  DocumentVersion, DocumentDelta, DocumentState, DocumentSnapshot, DocumentUpdateResult,
  VirtualFileSystem, after_file_id, after_snapshot_id, new_document, make_snapshot, synced, resync,
  edited, reread, closed, apply_edits,
}

-- A write to a document, without and with a new snapshot id.
abbrev pub write : VirtualFileSystem → List ℕ → DocumentState → VirtualFileSystem
write fs key state = record {
  next_file_id = fs.next_file_id;
  next_snapshot_id = fs.next_snapshot_id;
  documents = put_key fs.documents key state;
}

abbrev pub write_next : VirtualFileSystem → List ℕ → DocumentState → VirtualFileSystem
write_next fs key state = record {
  next_file_id = fs.next_file_id;
  next_snapshot_id = after_snapshot_id fs.next_snapshot_id;
  documents = put_key fs.documents key state;
}

-- `state.needs_full_resync` with the reason, as a result
abbrev pub resync_result : DocumentState → DocumentUpdateResult
resync_result state = record {
  snapshot = make_snapshot state;
  applied_incremental = false;
  used_full_sync = false;
  needs_full_resync = true;
  message = state.resync_reason;
}

abbrev pub invalid_range : List ℕ
invalid_range = codes "invalid incremental edit range"

abbrev pub reason_or_default : List ℕ → List ℕ
reason_or_default [] = invalid_range
reason_or_default (c ∷ reason) = c ∷ reason

module _ (lexically_normal : List ℕ → List ℕ) where
  abbrev pub normalize_path : List ℕ → List ℕ
  normalize_path [] = []
  normalize_path (c ∷ path) = lexically_normal (c ∷ path)

  unfoldable pub ensure_document : VirtualFileSystem → List ℕ → VirtualFileSystem × DocumentState
  ensure_document fs path =
      let normalized = normalize_path path in
      let state = new_document fs.next_file_id normalized in
      elim (find_key fs.documents normalized) [
        | some found ↦ (fs, found)
        | none ↦ (
          record {
            next_file_id = after_file_id fs.next_file_id;
            next_snapshot_id = fs.next_snapshot_id;
            documents = put_key fs.documents normalized state;
          },
          state,
        )
      ]

  -- `open`
  unfoldable pub open_document :
      VirtualFileSystem → List ℕ → List ℕ → DocumentVersion → VirtualFileSystem × DocumentSnapshot
  unfolding ensure_document
  open_document fs path text version =
      let (fs1, state) = ensure_document fs path in
      let state1 = synced state fs1.next_snapshot_id text version in
      (write_next fs1 (normalize_path path) state1, make_snapshot state1)

  unfoldable pub update :
      VirtualFileSystem → List ℕ → List ℕ → DocumentVersion → VirtualFileSystem × DocumentSnapshot
  unfolding ensure_document
  update fs path text version =
      let (fs1, state) = ensure_document fs path in
      let state1 = synced state fs1.next_snapshot_id text version in
      (write_next fs1 (normalize_path path) state1, make_snapshot state1)

  -- The overload on a delta, when a full sync is neither asked for nor given.
  abbrev pub update_edits :
      VirtualFileSystem
      → List ℕ
      → DocumentState
      → DocumentDelta
      → DocumentVersion
      → VirtualFileSystem × DocumentUpdateResult
  update_edits fs key state delta version =
      let failed = resync state fs.next_snapshot_id invalid_range version in
      elim (apply_edits delta.edits state.buffer.text []) [
        | none ↦ (write_next fs key failed, resync_result failed)
        | some r ↦
            let state1 = edited state fs.next_snapshot_id r.0 r.1 version in
            (
              write_next fs key state1,
              record {
                snapshot = make_snapshot state1;
                applied_incremental = true;
                used_full_sync = false;
                needs_full_resync = false;
                message = [];
              },
            )
      ]

  unfoldable pub update_delta :
      VirtualFileSystem
      → List ℕ
      → DocumentDelta
      → DocumentVersion
      → VirtualFileSystem × DocumentUpdateResult
  unfolding ensure_document update
  update_delta fs path delta version =
      let (fs1, state) = ensure_document fs path in
      let key = normalize_path path in
      let failed =
        resync state fs1.next_snapshot_id (reason_or_default delta.resync_reason) version in
      let whole = update fs1 path delta.full_text version in
      if delta.requires_full_resync
      then (write_next fs1 key failed, resync_result failed)
      else (if delta.is_full_sync
          then (
            whole.0,
            record {
              snapshot = whole.1;
              applied_incremental = false;
              used_full_sync = true;
              needs_full_resync = false;
              message = [];
            },
          )
          else update_edits fs1 key state delta version)

  unfoldable pub close : VirtualFileSystem → List ℕ → VirtualFileSystem
  close fs path =
      let normalized = normalize_path path in
      elim (find_key fs.documents normalized) [
        | none ↦ fs
        | some state ↦ write fs normalized (closed state)
      ]

  unfoldable pub snapshot_for :
      (List ℕ → List ℕ) → VirtualFileSystem → List ℕ → VirtualFileSystem × DocumentSnapshot
  unfolding ensure_document
  snapshot_for file_text fs path =
      let (fs1, state) = ensure_document fs path in
      let disk_text = file_text state.path in
      let state1 = reread state fs1.next_snapshot_id disk_text in
      if state.is_open
      then (fs1, make_snapshot state)
      else (if same_text state.buffer.text disk_text
          then (fs1, make_snapshot state)
          else (write_next fs1 (normalize_path path) state1, make_snapshot state1))

-- The paths of the open documents, in the order of the association list.
unfoldable pub open_paths : List (List ℕ × DocumentState) → List (List ℕ)
open_paths [] = []
open_paths ((key, state) ∷ documents) =
    let later = open_paths documents in if state.is_open then key ∷ later else later
