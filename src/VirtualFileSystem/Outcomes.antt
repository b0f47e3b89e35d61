-- ===== src/VirtualFileSystem/Outcomes.antt =====
-- What the calls of src/StyioIDE/VFS.cpp answer, and that it is what they store.
use mathlib.Core.Option.{some-injective, some-ne-none}
use styio.Prelude.Texts.{same_text_refl, find_key, find_key-put_key}
use styio.Prelude.{
  ℕ, ◌≡◌, refl, sym, ap, ◌∙◌, subst, Bool, true, false, not, none, some, List, [], if_cases,
  Option-cases, inl, inr,
}
use styio.TextBuffer
use styio.TextBuffer.{TextBuffer, reset}
use styio.VirtualFileSystem.{
  DocumentVersion, TextEdit, DocumentDelta, DocumentState, DocumentSnapshot, DocumentUpdateResult,
  VirtualFileSystem, make_snapshot, apply_edits, resync, edited, synced,
}
use styio.VirtualFileSystem.Operations.{
  write_next, normalize_path, ensure_document, update, update_edits, update_delta,
  reason_or_default, invalid_range,
}
use styio.VirtualFileSystem.Steps.{ensure_document-Step, ensure_document_found}
use styio.VirtualFileSystem.Updates.{Applied, apply_edits_complete, apply_edits_sound}

-- The text that is known under a key: none where there is no document.
abbrev pub buffer_at : VirtualFileSystem → List ℕ → TextBuffer
buffer_at fs key = elim (find_key fs.documents key) [ none ↦ TextBuffer.empty | some s ↦ s.buffer ]

-- A delta is refused: the text stays and a full text is asked for.
abbrev pub Refused : TextBuffer → List ℕ → DocumentUpdateResult → Type 0
Refused before reason r =
    (r.snapshot.buffer ≡ before)
    × (r.snapshot.applied_edits ≡ [])
    × (r.needs_full_resync ≡ true)
    × (r.snapshot.needs_full_resync ≡ true)
    × (r.message ≡ reason)
    × (r.snapshot.resync_reason ≡ reason)

-- A text is taken over.
abbrev pub Accepted : List ℕ → List TextEdit → Bool → DocumentUpdateResult → Type 0
Accepted text edits incremental r =
    (r.snapshot.buffer ≡ reset text)
    × (r.snapshot.applied_edits ≡ edits)
    × (r.needs_full_resync ≡ false)
    × (r.snapshot.needs_full_resync ≡ false)
    × (r.applied_incremental ≡ incremental)
    × (r.used_full_sync ≡ not incremental)

pub data Outcome (delta : DocumentDelta) (before : TextBuffer) (r : DocumentUpdateResult)
    : Type 0 where
  asked :
      delta.requires_full_resync ≡ true
      → Refused before (reason_or_default delta.resync_reason) r
      → Outcome delta before r
  whole :
      delta.requires_full_resync ≡ false
      → delta.is_full_sync ≡ true
      → Accepted delta.full_text [] false r
      → Outcome delta before r
  by_edits :
      (text : List ℕ)
      → delta.requires_full_resync ≡ false
      → delta.is_full_sync ≡ false
      → Applied delta.edits before.text text
      → Accepted text delta.edits true r
      → Outcome delta before r
  out_of_range :
      delta.requires_full_resync ≡ false
      → delta.is_full_sync ≡ false
      → ((text : List ℕ) → ¬ Applied delta.edits before.text text)
      → Refused before invalid_range r
      → Outcome delta before r

-- A snapshot is of the document that is stored under a key, open and of a version.
abbrev pub Stored : VirtualFileSystem → List ℕ → DocumentVersion → DocumentSnapshot → Type 0
Stored fs key version snapshot =
    (s : DocumentState) × (find_key fs.documents key ≡ some s)
    × (make_snapshot s ≡ snapshot)
    × (s.is_open ≡ true)
    × (s.version ≡ version)

stored :
    (fs : VirtualFileSystem) (key : List ℕ) (s : DocumentState)
    → s.is_open ≡ true
    → Stored (write_next fs key s) key s.version (make_snapshot s)
stored fs key s o =
    (s, find_key-put_key fs.documents key key s ∙ rw (same_text_refl key) refl, refl, o, refl)

module _ (lexically_normal : List ℕ → List ℕ) where
  pub ensure_document-buffer_at :
      (fs : VirtualFileSystem) (path : List ℕ)
      → (ensure_document lexically_normal fs path).1.buffer
        ≡ buffer_at fs (normalize_path lexically_normal path)
  unfolding ensure_document
  ensure_document-buffer_at fs path =
      elim (Option-cases (find_key fs.documents (normalize_path lexically_normal path))) [
        | inl e ↦ rw (ensure_document, buffer_at, e) refl
        | inr (s, e) ↦ rw (ensure_document, buffer_at, e) refl
      ]

  update_edits-Outcome :
      (fs : VirtualFileSystem) (key : List ℕ) (state : DocumentState) (delta : DocumentDelta)
      (version : DocumentVersion)
      → delta.requires_full_resync ≡ false
      → delta.is_full_sync ≡ false
      → let r = update_edits lexically_normal fs key state delta version in
        Outcome delta state.buffer r.1 × Stored r.0 key version r.1.snapshot
  update_edits-Outcome fs key state delta version n m =
      elim (Option-cases (apply_edits delta.edits state.buffer.text [])) [
        | inl e ↦
            let failed = resync state fs.next_snapshot_id invalid_range version in
            let never : (text : List ℕ) → ¬ Applied delta.edits state.buffer.text text = λ text a.
              some-ne-none (text, delta.edits)
                (sym (apply_edits_complete delta.edits state.buffer.text text [] a) ∙ e) in
            rw (update_edits, e)
              (
                out_of_range n m never (refl, refl, refl, refl, refl, refl),
                stored fs key failed refl,
              )
        | inr ((text, all), e) ↦
            let a = apply_edits_sound delta.edits state.buffer.text text [] all e in
            let exact : all ≡ delta.edits =
              ap (λ r. r.1)
                (some-injective (text, all) (text, delta.edits)
                  (sym e ∙ apply_edits_complete delta.edits state.buffer.text text [] a)) in
            rw (update_edits, e)
              (
                by_edits text n m a (refl, exact, refl, refl, refl, refl),
                stored fs key (edited state fs.next_snapshot_id text all version) refl,
              )
      ]

  -- A delta is refused where it asks for a full text, or where an edit is out of range of what the
  -- edits before it made: the text stays, the edits are dropped and a full text is asked for, with
  -- the reason. A full sync gives the document its text, and edits that are all in range give it
  -- the text that they make one after the other. In each case the answer is a snapshot of the
  -- document that is stored from then on, open and with the new version.
  pub update_delta-Outcome :
      (fs : VirtualFileSystem) (path : List ℕ) (delta : DocumentDelta) (version : DocumentVersion)
      → let key = normalize_path lexically_normal path in
        let r = update_delta lexically_normal fs path delta version in
        Outcome delta (buffer_at fs key) r.1 × Stored r.0 key version r.1.snapshot
  unfolding update_delta update
  update_delta-Outcome fs path delta version =
      let key = normalize_path lexically_normal path in
      let (fs1, state) = ensure_document lexically_normal fs path in
      let before = ensure_document-buffer_at fs path in
      let P = λ (r : VirtualFileSystem × DocumentUpdateResult).
        Outcome delta state.buffer r.1 × Stored r.0 key version r.1.snapshot in
      let failed =
        resync state fs1.next_snapshot_id (reason_or_default delta.resync_reason) version in
      let taken = synced state fs1.next_snapshot_id delta.full_text version in
      let found = (ensure_document-Step lexically_normal fs path).1 in
      let again = ensure_document_found lexically_normal fs1 path state found in
      let r = update_delta lexically_normal fs path delta version in
      subst (λ b. Outcome delta b r.1 × Stored r.0 key version r.1.snapshot) before
        (if_cases P delta.requires_full_resync
          (λ e. (asked e (refl, refl, refl, refl, refl, refl), stored fs1 key failed refl))
          (λ n.
            if_cases P delta.is_full_sync
              (λ e.
                rw again
                  (whole n e (refl, refl, refl, refl, refl, refl), stored fs1 key taken refl))
              (λ m. update_edits-Outcome fs1 key state delta version n m)))
