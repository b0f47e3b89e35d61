-- ===== src/VirtualFileSystem/Steps.antt =====
-- The operations of src/StyioIDE/VFS.cpp as steps on the documents: what each may change.
use styio.Prelude.Texts.{same_text, same_text_refl, find_key, put_key, find_key-put_key}
use styio.Prelude.{ℕ, ◌≡◌, refl, ◌∙◌, none, some, List, [], if_both, Option-cases, ◌⊎◌, inl, inr}
use styio.TextBuffer
use styio.TextBuffer.{TextBuffer, reset}
use styio.VirtualFileSystem.{
  DocumentVersion, DocumentDelta, DocumentSnapshot, DocumentUpdateResult, DocumentState,
  VirtualFileSystem, after_file_id, new_document, closed, apply_edits, resync, edited, reread,
  synced,
}
use styio.VirtualFileSystem.Operations.{
  write, write_next, normalize_path, ensure_document, open_document, update, update_edits,
  update_delta, close, snapshot_for, reason_or_default, invalid_range,
}

-- The line starts are those of the text, or the buffer was never given a text.
abbrev pub HasLines : TextBuffer → Type 0
HasLines buffer = (buffer ≡ TextBuffer.empty) ⊎ (buffer ≡ reset buffer.text)

-- A step at a key: nothing, a new document, a write that leaves the text and the snapshot id, or a
-- write under the next snapshot id.
pub data Step (key : List ℕ) (fs : VirtualFileSystem) : VirtualFileSystem → Type 0 where
  stays : Step key fs fs
  adds :
      find_key fs.documents key ≡ none
      → Step key fs (record {
        next_file_id = after_file_id fs.next_file_id;
        next_snapshot_id = fs.next_snapshot_id;
        documents = put_key fs.documents key (new_document fs.next_file_id key);
      })
  writes :
      (s s' : DocumentState)
      → find_key fs.documents key ≡ some s
      → s'.file_id ≡ s.file_id
      → s'.path ≡ s.path
      → s'.snapshot_id ≡ s.snapshot_id
      → s'.buffer ≡ s.buffer
      → Step key fs (write fs key s')
  writes_next :
      (s s' : DocumentState)
      → find_key fs.documents key ≡ some s
      → s'.file_id ≡ s.file_id
      → s'.path ≡ s.path
      → s'.snapshot_id ≡ fs.next_snapshot_id
      → (s'.buffer ≡ s.buffer) ⊎ (s'.buffer ≡ reset s'.buffer.text)
      → Step key fs (write_next fs key s')

-- Two steps at one key.
pub data Steps (key : List ℕ) (fs fs' : VirtualFileSystem) : Type 0 where
  steps : (fs1 : VirtualFileSystem) → Step key fs fs1 → Step key fs1 fs' → Steps key fs fs'

module _ (lexically_normal : List ℕ → List ℕ) where
  -- A reference is made by at most one step, and is found under the normalized path.
  pub ensure_document-Step :
      (fs : VirtualFileSystem) (path : List ℕ)
      → let r = ensure_document lexically_normal fs path in
        let key = normalize_path lexically_normal path in
        Step key fs r.0 × (find_key r.0.documents key ≡ some r.1)
  unfolding ensure_document
  ensure_document-Step fs path =
      let key = normalize_path lexically_normal path in
      elim (Option-cases (find_key fs.documents key)) [
        | inl e ↦
            rw (ensure_document, e)
              (
                adds e,
                find_key-put_key fs.documents key key (new_document fs.next_file_id key)
                    ∙ rw (same_text_refl key) refl,
              )
        | inr (s, e) ↦ rw (ensure_document, e) (stays, e)
      ]

  pub ensure_document_found :
      (fs : VirtualFileSystem) (path : List ℕ) (s : DocumentState)
      → find_key fs.documents (normalize_path lexically_normal path) ≡ some s
      → ensure_document lexically_normal fs path ≡ (fs, s)
  unfolding ensure_document
  ensure_document_found fs path s h = rw (ensure_document, h) refl

  update-Step :
      (fs : VirtualFileSystem) (path : List ℕ) (s : DocumentState) (text : List ℕ)
      (version : DocumentVersion)
      → find_key fs.documents (normalize_path lexically_normal path) ≡ some s
      → Step
          (normalize_path lexically_normal path)
          fs
          (update lexically_normal fs path text version).0
  unfolding update
  update-Step fs path s text version h =
      rw (update, ensure_document_found fs path s h)
        (writes_next s (synced s fs.next_snapshot_id text version) h refl refl refl (inr refl))

  pub open_document-Steps :
      (fs : VirtualFileSystem) (path text : List ℕ) (version : DocumentVersion)
      → Steps
          (normalize_path lexically_normal path)
          fs
          (open_document lexically_normal fs path text version).0
  unfolding open_document
  open_document-Steps fs path text version =
      let (fs1, state) = ensure_document lexically_normal fs path in
      let (step, found) = ensure_document-Step fs path in
      steps fs1 step (
        writes_next state (synced state fs1.next_snapshot_id text version) found refl refl refl
          (inr refl))

  pub update-Steps :
      (fs : VirtualFileSystem) (path text : List ℕ) (version : DocumentVersion)
      → Steps
          (normalize_path lexically_normal path)
          fs
          (update lexically_normal fs path text version).0
  unfolding update
  update-Steps fs path text version =
      let (fs1, state) = ensure_document lexically_normal fs path in
      let (step, found) = ensure_document-Step fs path in
      steps fs1 step (
        writes_next state (synced state fs1.next_snapshot_id text version) found refl refl refl
          (inr refl))

  update_edits-Step :
      (fs : VirtualFileSystem) (key : List ℕ) (state : DocumentState) (delta : DocumentDelta)
      (version : DocumentVersion)
      → find_key fs.documents key ≡ some state
      → Step key fs (update_edits lexically_normal fs key state delta version).0
  update_edits-Step fs key state delta version found =
      elim (Option-cases (apply_edits delta.edits state.buffer.text [])) [
        | inl e ↦
            rw (update_edits, e)
              (writes_next state (resync state fs.next_snapshot_id invalid_range version) found refl
                refl refl (inl refl))
        | inr (r, e) ↦
            rw (update_edits, e)
              (writes_next state (edited state fs.next_snapshot_id r.0 r.1 version) found refl refl
                refl (inr refl))
      ]

  pub close-Step :
      (fs : VirtualFileSystem) (path : List ℕ)
      → Step (normalize_path lexically_normal path) fs (close lexically_normal fs path)
  unfolding close
  close-Step fs path =
      elim (Option-cases (find_key fs.documents (normalize_path lexically_normal path))) [
        | inl e ↦ rw (close, e) stays
        | inr (s, e) ↦ rw (close, e) (writes s (closed s) e refl refl refl refl)
      ]

  pub snapshot_for-Steps :
      (file_text : List ℕ → List ℕ) (fs : VirtualFileSystem) (path : List ℕ)
      → Steps
          (normalize_path lexically_normal path)
          fs
          (snapshot_for lexically_normal file_text fs path).0
  unfolding snapshot_for
  snapshot_for-Steps file_text fs path =
      let (fs1, state) = ensure_document lexically_normal fs path in
      let (step, found) = ensure_document-Step fs path in
      let at_key = λ (r : VirtualFileSystem × DocumentSnapshot).
        Steps (normalize_path lexically_normal path) fs r.0 in
      let disk_text = file_text state.path in
      if_both at_key state.is_open (steps fs1 step stays) (
        if_both at_key (same_text state.buffer.text disk_text) (steps fs1 step stays) (
          steps fs1 step (
            writes_next state (reread state fs1.next_snapshot_id disk_text) found refl refl refl
              (inr refl))))

  pub update_delta-Steps :
      (fs : VirtualFileSystem) (path : List ℕ) (delta : DocumentDelta) (version : DocumentVersion)
      → Steps
          (normalize_path lexically_normal path)
          fs
          (update_delta lexically_normal fs path delta version).0
  unfolding update_delta
  update_delta-Steps fs path delta version =
      let key = normalize_path lexically_normal path in
      let (fs1, state) = ensure_document lexically_normal fs path in
      let (step, found) = ensure_document-Step fs path in
      let at_key = λ (r : VirtualFileSystem × DocumentUpdateResult). Steps key fs r.0 in
      if_both at_key delta.requires_full_resync
        (steps fs1 step (
          writes_next state
            (resync state fs1.next_snapshot_id (reason_or_default delta.resync_reason) version)
            found refl refl refl (inl refl)))
        (if_both at_key delta.is_full_sync
          (steps fs1 step (update-Step fs1 path state delta.full_text version found))
          (steps fs1 step (update_edits-Step fs1 key state delta version found)))
