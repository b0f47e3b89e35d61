-- ===== src/VirtualFileSystem/Snapshots.antt =====
-- The snapshots that src/StyioIDE/VFS.cpp hands out: the editor's text of an open document, and
-- the file's text of any other.
use styio.Prelude.Texts.{
  same_text, same_text_refl, same_text→≡, find_key, put_key, find_key-put_key,
}
use styio.Prelude.{
  ℕ, ◌≡◌, refl, sym, ap, ◌∙◌, Bool, true, false, none, some, List, if◌then◌else◌, if_cases,
  Option-cases, inl, inr,
}
use styio.TextBuffer.{reset}
use styio.VirtualFileSystem.{DocumentVersion, DocumentSnapshot, VirtualFileSystem, synced}
use styio.VirtualFileSystem.Operations.{
  write_next, normalize_path, ensure_document, open_document, snapshot_for,
}
use styio.VirtualFileSystem.Steps.{ensure_document_found}
use styio.VirtualFileSystem.Evolution.{IsValid}
use styio.VirtualFileSystem.Outcomes.{buffer_at, ensure_document-buffer_at}

abbrev pub is_open_at : VirtualFileSystem → List ℕ → Bool
is_open_at fs key = elim (find_key fs.documents key) [ none ↦ false | some s ↦ s.is_open ]

module _ (lexically_normal : List ℕ → List ℕ) where
  ensure_document-is_open_at :
      (fs : VirtualFileSystem) (path : List ℕ)
      → (ensure_document lexically_normal fs path).1.is_open
        ≡ is_open_at fs (normalize_path lexically_normal path)
  unfolding ensure_document
  ensure_document-is_open_at fs path =
      elim (Option-cases (find_key fs.documents (normalize_path lexically_normal path))) [
        | inl e ↦ rw (ensure_document, is_open_at, e) refl
        | inr (s, e) ↦ rw (ensure_document, is_open_at, e) refl
      ]

  ensure_document_path :
      (fs : VirtualFileSystem) (path : List ℕ)
      → IsValid fs
      → (ensure_document lexically_normal fs path).1.path ≡ normalize_path lexically_normal path
  unfolding ensure_document
  ensure_document_path fs path v =
      let key = normalize_path lexically_normal path in
      elim (Option-cases (find_key fs.documents key)) [
        | inl e ↦ rw (ensure_document, e) refl
        | inr (s, e) ↦ rw (ensure_document, e) (v.fresh key s e).2
      ]

  -- In a well formed state the snapshot of an open document has the text that is known of it,
  -- whatever its file holds, and any other has what its file holds under the normalized path.
  pub snapshot_for-text :
      (file_text : List ℕ → List ℕ) (fs : VirtualFileSystem) (path : List ℕ)
      → IsValid fs
      → let key = normalize_path lexically_normal path in
        (snapshot_for lexically_normal file_text fs path).1.buffer.text
        ≡ (if is_open_at fs key then (buffer_at fs key).text else file_text key)
  unfolding snapshot_for
  snapshot_for-text file_text fs path v =
      let key = normalize_path lexically_normal path in
      let state = (ensure_document lexically_normal fs path).1 in
      let open_same = ensure_document-is_open_at fs path in
      let text_same = ap (λ b. b.text) (ensure_document-buffer_at lexically_normal fs path) in
      let path_same = ensure_document_path fs path v in
      let P = λ (r : VirtualFileSystem × DocumentSnapshot).
        r.1.buffer.text ≡ (if is_open_at fs key then (buffer_at fs key).text else file_text key) in
      if_cases P state.is_open
        (λ o.
          text_same
          ∙ ap (λ b. if b then (buffer_at fs key).text else file_text key) (sym o ∙ open_same))
        (λ o.
          let closed_goal : file_text state.path
              ≡ (if is_open_at fs key then (buffer_at fs key).text else file_text key) =
            ap file_text path_same
            ∙ ap (λ b. if b then (buffer_at fs key).text else file_text key) (sym o ∙ open_same) in
          if_cases P (same_text state.buffer.text (file_text state.path))
            (λ e. same_text→≡ state.buffer.text (file_text state.path) e ∙ closed_goal)
            (λ e. closed_goal))

  -- Once a document is opened with a text, its snapshot is that text's, whatever its file holds,
  -- and asking for it changes nothing.
  pub open_document-snapshot_for :
      (file_text : List ℕ → List ℕ) (fs : VirtualFileSystem) (path text : List ℕ)
      (version : DocumentVersion)
      → let r = open_document lexically_normal fs path text version in
        (snapshot_for lexically_normal file_text r.0 path ≡ r)
        × (r.1.buffer ≡ reset text)
        × (r.1.version ≡ version)
        × (r.1.is_open ≡ true)
  unfolding snapshot_for open_document
  open_document-snapshot_for file_text fs path text version =
      let key = normalize_path lexically_normal path in
      let (fs1, state) = ensure_document lexically_normal fs path in
      let state1 = synced state fs1.next_snapshot_id text version in
      let found : find_key (put_key fs1.documents key state1) key ≡ some state1 =
        find_key-put_key fs1.documents key key state1 ∙ rw (same_text_refl key) refl in
      let again =
        ensure_document_found lexically_normal (write_next fs1 key state1) path state1 found in
      (rw (snapshot_for, again) refl, refl, refl, refl)
