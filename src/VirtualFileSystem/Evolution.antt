-- ===== src/VirtualFileSystem/Evolution.antt =====
-- What every step of src/StyioIDE/VFS.cpp keeps of the documents.
use mathlib.Core.Option.{some-injective, some-ne-none}
use styio.Prelude.Texts.{same_text, same_text→≡, find_key, put_key, find_key-put_key, found_after}
use styio.Prelude.{
  ℕ, ◌+◌, ◌≤◌, ◌<◌, ◌≡◌, refl, sym, ap, ◌∙◌, subst, none, some, List, arith, Bool-cases, ◌⊎◌, inl,
  inr,
}
use styio.VirtualFileSystem.{DocumentState, VirtualFileSystem, new_document}
use styio.VirtualFileSystem.Steps.{HasLines}

pub record IsValid (fs : VirtualFileSystem) : Type 0 where
  pub fresh :
      (k : List ℕ) (s : DocumentState)
      → find_key fs.documents k ≡ some s
      → (s.file_id < fs.next_file_id)
        × (s.snapshot_id < fs.next_snapshot_id)
        × (s.path ≡ k)
        × HasLines s.buffer
  pub distinct :
      (j k : List ℕ) (s t : DocumentState)
      → find_key fs.documents j ≡ some s
      → find_key fs.documents k ≡ some t
      → s.file_id ≡ t.file_id
      → j ≡ k

-- The counters are `n` steps away from wrapping around.
abbrev pub Room : ℕ → VirtualFileSystem → Type 0
Room n fs =
    (fs.next_file_id + n < 4294967296)
    × (fs.next_snapshot_id + n < 18446744073709551616)
    × (0 < fs.next_snapshot_id)

-- A document stays under its key with its file id, and under its snapshot id the text stays too.
abbrev pub Later : ℕ → DocumentState → DocumentState → Type 0
Later next s s' =
    (s'.file_id ≡ s.file_id)
    × (((s'.snapshot_id ≡ s.snapshot_id) × (s'.buffer ≡ s.buffer)) ⊎ (next ≤ s'.snapshot_id))

pub record Evolves (fs fs' : VirtualFileSystem) : Type 0 where
  pub counter : fs.next_snapshot_id ≤ fs'.next_snapshot_id
  pub kept :
      (k : List ℕ) (s : DocumentState)
      → find_key fs.documents k ≡ some s
      → (s' : DocumentState) × (find_key fs'.documents k ≡ some s') × Later fs.next_snapshot_id s s'

-- A write that keeps the file id and the path of a document.
pub replaced-IsValid :
    (fs : VirtualFileSystem) (key : List ℕ) (s s' : DocumentState) (n : ℕ)
    → IsValid fs
    → find_key fs.documents key ≡ some s
    → s'.file_id ≡ s.file_id
    → s'.path ≡ s.path
    → HasLines s'.buffer
    → fs.next_snapshot_id ≤ n
    → s'.snapshot_id < n
    → IsValid (record {
      next_file_id = fs.next_file_id;
      next_snapshot_id = n;
      documents = put_key fs.documents key s';
    })
replaced-IsValid fs key s s' n v found file path lines grows below =
    let old = v.fresh key s found in
    record {
      fresh = λ k t h. elim (found_after fs.documents key k s' t h) [
        | inl (at, e) ↦
            subst
              (λ u.
                (u.file_id < fs.next_file_id)
                × (u.snapshot_id < n)
                × (u.path ≡ k)
                × HasLines u.buffer)
              e (omega arith, below, path ∙ old.2 ∙ at, lines)
        | inr f ↦ let o = v.fresh k t f in (o.0, omega arith, o.2, o.3)
      ];
      distinct = λ j k t u h g same. elim (found_after fs.documents key j s' t h) [
        | inl (at, e) ↦ elim (found_after fs.documents key k s' u g) [
          | inl (to, d) ↦ sym at ∙ to
          | inr d ↦ sym at ∙ v.distinct key k s u found d (sym file ∙ ap (λ x. x.file_id) e ∙ same)
        ]
        | inr e ↦ elim (found_after fs.documents key k s' u g) [
          | inl (to, d) ↦
              v.distinct j key t s e found (same ∙ sym (ap (λ x. x.file_id) d) ∙ file) ∙ to
          | inr d ↦ v.distinct j k t u e d same
        ]
      ];
    }

-- A write that keeps the file id of a document, and its text or makes its snapshot id new.
pub replaced-Evolves :
    (fs : VirtualFileSystem) (key : List ℕ) (s s' : DocumentState) (n : ℕ)
    → find_key fs.documents key ≡ some s
    → Later fs.next_snapshot_id s s'
    → fs.next_snapshot_id ≤ n
    → Evolves fs (record {
      next_file_id = fs.next_file_id;
      next_snapshot_id = n;
      documents = put_key fs.documents key s';
    })
replaced-Evolves fs key s s' n found later grows = record {
  counter = grows;
  kept = λ k t h. elim (Bool-cases (same_text key k)) [
    | inl b ↦
        let at = same_text→≡ key k b in
        let same = some-injective s t (sym found ∙ ap (find_key fs.documents) at ∙ h) in
        (
          s',
          find_key-put_key fs.documents key k s' ∙ rw b refl,
          subst (λ u. Later fs.next_snapshot_id u s') same later,
        )
    | inr b ↦ (t, find_key-put_key fs.documents key k s' ∙ rw b h, (refl, inl (refl, refl)))
  ];
}

pub added-Evolves :
    (fs : VirtualFileSystem) (key : List ℕ) (s' : DocumentState) (n : ℕ)
    → find_key fs.documents key ≡ none
    → Evolves fs (record {
      next_file_id = n;
      next_snapshot_id = fs.next_snapshot_id;
      documents = put_key fs.documents key s';
    })
added-Evolves fs key s' n absent = record {
  counter = omega arith;
  kept = λ k t h. elim (Bool-cases (same_text key k)) [
    | inl b ↦
        absurd
          (some-ne-none t (sym h ∙ sym (ap (find_key fs.documents) (same_text→≡ key k b)) ∙ absent))
    | inr b ↦ (t, find_key-put_key fs.documents key k s' ∙ rw b h, (refl, inl (refl, refl)))
  ];
}

pub added-IsValid :
    (fs : VirtualFileSystem) (key : List ℕ)
    → IsValid fs
    → 0 < fs.next_snapshot_id
    → IsValid (record {
      next_file_id = fs.next_file_id + 1;
      next_snapshot_id = fs.next_snapshot_id;
      documents = put_key fs.documents key (new_document fs.next_file_id key);
    })
added-IsValid fs key v positive =
    let s' = new_document fs.next_file_id key in
    record {
      fresh = λ k t h. elim (found_after fs.documents key k s' t h) [
        | inl (at, e) ↦
            subst
              (λ u.
                (u.file_id < fs.next_file_id + 1)
                × (u.snapshot_id < fs.next_snapshot_id)
                × (u.path ≡ k)
                × HasLines u.buffer)
              e (omega arith, positive, at, inl refl)
        | inr f ↦ let o = v.fresh k t f in (omega (arith, o.0), o.1, o.2, o.3)
      ];
      distinct = λ j k t u h g same. elim (found_after fs.documents key j s' t h) [
        | inl (at, e) ↦ elim (found_after fs.documents key k s' u g) [
          | inl (to, d) ↦ sym at ∙ to
          | inr d ↦
              let clash : fs.next_file_id ≡ u.file_id = ap (λ x. x.file_id) e ∙ same in
              absurd (omega (arith, clash, (v.fresh k u d).0))
        ]
        | inr e ↦ elim (found_after fs.documents key k s' u g) [
          | inl (to, d) ↦
              let clash : fs.next_file_id ≡ t.file_id = ap (λ x. x.file_id) d ∙ sym same in
              absurd (omega (arith, clash, (v.fresh j t e).0))
          | inr d ↦ v.distinct j k t u e d same
        ]
      ];
    }
