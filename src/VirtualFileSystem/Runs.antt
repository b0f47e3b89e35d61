-- ===== src/VirtualFileSystem/Runs.antt =====
-- Any sequence of calls of src/StyioIDE/VFS.cpp.
use styio.Prelude.Texts.{same_text, find_key, find_key-put_key}
use styio.Prelude.{
  ℕ, suc, ◌+◌, ◌*◌, ◌≤◌, ◌<◌, ◌≡◌, refl, sym, ◌∙◌, subst, false, List, [], ◌∷◌, arith, ◌⊎◌, inl,
  inr, length,
}
use styio.TextBuffer.{reset}
use styio.VirtualFileSystem.{
  DocumentVersion, DocumentDelta, DocumentState, VirtualFileSystem, after_file_id,
  after_snapshot_id, new_document,
}
use styio.VirtualFileSystem.Operations.{
  normalize_path, open_document, update, update_delta, close, snapshot_for,
}
use styio.VirtualFileSystem.Steps.{
  HasLines, Step, stays, adds, writes, writes_next, Steps, steps, open_document-Steps, update-Steps,
  update_delta-Steps, close-Step, snapshot_for-Steps,
}
use styio.VirtualFileSystem.Evolution.{
  IsValid, Room, Later, Evolves, replaced-IsValid, replaced-Evolves, added-IsValid, added-Evolves,
}

-- A call of the interface; `snapshots` has what the files hold at its time.
pub data Call : Type 0 where
  opens : (path text : List ℕ) (version : DocumentVersion) → Call
  updates : (path text : List ℕ) (version : DocumentVersion) → Call
  updates_delta : (path : List ℕ) (delta : DocumentDelta) (version : DocumentVersion) → Call
  closes : (path : List ℕ) → Call
  snapshots : (file_text : List ℕ → List ℕ) (path : List ℕ) → Call

abbrev pub path_of : Call → List ℕ
path_of (opens path text version) = path
path_of (updates path text version) = path
path_of (updates_delta path delta version) = path
path_of (closes path) = path
path_of (snapshots file_text path) = path

next_id : (n k : ℕ) → n + suc k < 18446744073709551616 → after_snapshot_id n ≡ n + 1
next_id n k h = omega arith

next_file : (n k : ℕ) → n + suc k < 4294967296 → after_file_id n ≡ n + 1
next_file n k h = omega arith

-- What a step gives when there is room for it.
abbrev Good : ℕ → VirtualFileSystem → VirtualFileSystem → Type 0
Good n fs fs' = IsValid fs' × Room n fs' × Evolves fs fs'

Evolves-refl : (fs : VirtualFileSystem) → Evolves fs fs
Evolves-refl fs = record { counter = omega arith; kept = λ k s h. (s, h, (refl, inl (refl, refl))) }

Later-trans : (n m : ℕ) (s t u : DocumentState) → n ≤ m → Later n s t → Later m t u → Later n s u
Later-trans n m s t u h (f, inl (i, b)) (g, inl (j, c)) = (g ∙ f, inl (j ∙ i, c ∙ b))
Later-trans n m s t u h (f, inl e) (g, inr k) = (g ∙ f, inr (omega arith))
Later-trans n m s t u h (f, inr k) (g, inl (j, c)) = (g ∙ f, inr (omega arith))
Later-trans n m s t u h (f, inr k) (g, inr l) = (g ∙ f, inr (omega arith))

Evolves-trans : (fs fs1 fs2 : VirtualFileSystem) → Evolves fs fs1 → Evolves fs1 fs2 → Evolves fs fs2
Evolves-trans fs fs1 fs2 d e = record {
  counter = omega (arith, d.counter, e.counter);
  kept = λ k s h.
      let (t, found, later) = d.kept k s h in
      let (u, found', later') = e.kept k t found in
      (
        u,
        found',
        Later-trans fs.next_snapshot_id fs1.next_snapshot_id s t u d.counter later later',
      );
}

text_lines :
    (s s' : DocumentState)
    → (s'.buffer ≡ s.buffer) ⊎ (s'.buffer ≡ reset s'.buffer.text)
    → HasLines s.buffer
    → HasLines s'.buffer
text_lines s s' (inl e) h = subst HasLines (sym e) h
text_lines s s' (inr e) h = inr e

Step-others :
    (key k : List ℕ) (fs fs' : VirtualFileSystem)
    → same_text key k ≡ false
    → Step key fs fs'
    → find_key fs'.documents k ≡ find_key fs.documents k
Step-others key k fs fs' h stays = refl
Step-others key k fs fs' h (adds absent) =
    find_key-put_key fs.documents key k (new_document fs.next_file_id key) ∙ rw h refl
Step-others key k fs fs' h (writes s s' found file path id buffer) =
    find_key-put_key fs.documents key k s' ∙ rw h refl
Step-others key k fs fs' h (writes_next s s' found file path id buffer) =
    find_key-put_key fs.documents key k s' ∙ rw h refl

Steps-others :
    (key k : List ℕ) (fs fs' : VirtualFileSystem)
    → same_text key k ≡ false
    → Steps key fs fs'
    → find_key fs'.documents k ≡ find_key fs.documents k
Steps-others key k fs fs' h (steps fs1 first second) =
    Step-others key k fs1 fs' h second ∙ Step-others key k fs fs1 h first

Step-Good :
    (n : ℕ) (key : List ℕ) (fs fs' : VirtualFileSystem)
    → Step key fs fs'
    → IsValid fs
    → Room (suc n) fs
    → Good n fs fs'
Step-Good n key fs fs' stays v r = (v, (omega arith, omega arith, r.2), Evolves-refl fs)
Step-Good n key fs fs' (adds absent) v r = rw (next_file fs.next_file_id n r.0) (
  added-IsValid fs key v r.2,
  (omega arith, omega arith, r.2),
  added-Evolves fs key (new_document fs.next_file_id key) (fs.next_file_id + 1) absent,
)
Step-Good n key fs fs' (writes s s' found file path id buffer) v r =
    let old = v.fresh key s found in
    (
      replaced-IsValid fs key s s' fs.next_snapshot_id v found file path
          (subst HasLines (sym buffer) old.3) (omega arith) (omega arith),
      (omega arith, omega arith, r.2),
      replaced-Evolves fs key s s' fs.next_snapshot_id found (file, inl (id, buffer)) (omega arith),
    )
Step-Good n key fs fs' (writes_next s s' found file path id buffer) v r =
    let new_id : s'.snapshot_id < fs.next_snapshot_id + 1 = omega (arith, id) in
    let lines = text_lines s s' buffer (v.fresh key s found).3 in
    rw (next_id fs.next_snapshot_id n r.1) (
      replaced-IsValid fs key s s' (fs.next_snapshot_id + 1) v found file path lines (omega arith)
          new_id,
      (omega arith, omega arith, omega arith),
      replaced-Evolves fs key s s' (fs.next_snapshot_id + 1) found (file, inr (omega (arith, id)))
          (omega arith),
    )

Steps-Good :
    (n : ℕ) (key : List ℕ) (fs fs' : VirtualFileSystem)
    → Steps key fs fs'
    → IsValid fs
    → Room (suc (suc n)) fs
    → Good n fs fs'
Steps-Good n key fs fs' (steps fs1 first second) v r =
    let (v1, r1, e1) = Step-Good (suc n) key fs fs1 first v r in
    let (v2, r2, e2) = Step-Good n key fs1 fs' second v1 r1 in
    (v2, r2, Evolves-trans fs fs1 fs' e1 e2)

module _ (lexically_normal : List ℕ → List ℕ) where
  unfoldable pub call : Call → VirtualFileSystem → VirtualFileSystem
  call (opens path text version) fs = (open_document lexically_normal fs path text version).0
  call (updates path text version) fs = (update lexically_normal fs path text version).0
  call (updates_delta path delta version) fs =
      (update_delta lexically_normal fs path delta version).0
  call (closes path) fs = close lexically_normal fs path
  call (snapshots file_text path) fs = (snapshot_for lexically_normal file_text fs path).0

  call-Steps :
      (c : Call) (fs : VirtualFileSystem)
      → Steps (normalize_path lexically_normal (path_of c)) fs (call c fs)
  unfolding call
  call-Steps (opens path text version) fs =
      open_document-Steps lexically_normal fs path text version
  call-Steps (updates path text version) fs = update-Steps lexically_normal fs path text version
  call-Steps (updates_delta path delta version) fs =
      update_delta-Steps lexically_normal fs path delta version
  call-Steps (closes path) fs = steps fs stays (close-Step lexically_normal fs path)
  call-Steps (snapshots file_text path) fs = snapshot_for-Steps lexically_normal file_text fs path

  unfoldable pub calls : List Call → VirtualFileSystem → VirtualFileSystem
  calls [] fs = fs
  calls (c ∷ cs) fs = calls cs (call c fs)

  -- Where the counters can grow by two for each call without wrapping around, a sequence of calls
  -- takes a well formed state to a well formed one: every document is still there, under its file
  -- id, and either its snapshot id and its buffer are the same, or its snapshot id is not below
  -- the counter that the sequence started with.
  pub calls-Evolves :
      (cs : List Call) (fs : VirtualFileSystem)
      → IsValid fs
      → Room (2 * length cs) fs
      → IsValid (calls cs fs) × Evolves fs (calls cs fs)
  unfolding calls
  calls-Evolves [] fs v r = (v, Evolves-refl fs)
  calls-Evolves (c ∷ cs) fs v r =
      let key = normalize_path lexically_normal (path_of c) in
      let (v1, r1, e1) =
        Steps-Good (2 * length cs) key fs (call c fs) (call-Steps c fs) v
          (omega arith, omega arith, r.2) in
      let (v2, e2) = calls-Evolves cs (call c fs) v1 r1 in
      (v2, Evolves-trans fs (call c fs) (calls cs (call c fs)) e1 e2)

  -- A call leaves every document that is not at its normalized path as it is.
  pub call_others :
      (c : Call) (fs : VirtualFileSystem) (k : List ℕ)
      → same_text (normalize_path lexically_normal (path_of c)) k ≡ false
      → find_key (call c fs).documents k ≡ find_key fs.documents k
  call_others c fs k h =
      Steps-others (normalize_path lexically_normal (path_of c)) k fs (call c fs) h
        (call-Steps c fs)
