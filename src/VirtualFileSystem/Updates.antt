-- ===== src/VirtualFileSystem/Updates.antt =====
-- The texts that the updates of src/StyioIDE/VFS.cpp make.
use mathlib.Core.List.{append_assoc, append-nil}
use mathlib.Core.Option.{some-injective, some-ne-none}
use styio.Prelude.{
  ℕ, zero, suc, ◌+◌, ◌-◌, ◌≤◌, ◌≡◌, refl, sym, ap, ◌∙◌, subst, true, some, List, [], ◌∷◌, ◌++◌,
  length, take, drop, arith, if_split, inl, inr, length-append, length-drop, take-append-drop,
}
use styio.VirtualFileSystem.{TextRange, TextEdit, in_range, replace, range_length, apply_edits}

-- A text after edits: each takes a stretch out of what those before it made, from its start to its
-- end, and puts its replacement in that place.
pub data Applied : List TextEdit → List ℕ → List ℕ → Type 0 where
  done : (text : List ℕ) → Applied [] text text
  next :
      (edit : TextEdit) (edits : List TextEdit) (before removed after text out : List ℕ)
      → edit.range.start ≡ length before
      → edit.range.end ≡ length before + length removed
      → text ≡ before ++ (removed ++ after)
      → Applied edits (before ++ (edit.replacement ++ after)) out
      → Applied (edit ∷ edits) text out

take-length-append : (xs ys : List ℕ) → take (length xs) (xs ++ ys) ≡ xs
take-length-append [] ys = refl
take-length-append (x ∷ xs) ys = ap (◌∷◌ x) (take-length-append xs ys)

drop-length-append : (xs ys : List ℕ) → drop (length xs) (xs ++ ys) ≡ ys
drop-length-append [] ys = refl
drop-length-append (x ∷ xs) ys = drop-length-append xs ys

drop_nil : (n : ℕ) → drop {A = ℕ} n [] ≡ []
drop_nil zero = refl
drop_nil (suc n) = refl

drop-add : (n m : ℕ) (xs : List ℕ) → drop (n + m) xs ≡ drop m (drop n xs)
drop-add zero m xs = ap (λ k. drop k xs) (omega arith)
drop-add (suc n) m [] = drop_nil (suc n + m) ∙ sym (drop_nil m)
drop-add (suc n) m (x ∷ xs) =
    let step : suc n + m ≡ suc (n + m) = omega arith in rw step (drop-add n m xs)

length-take : (n : ℕ) (xs : List ℕ) → n ≤ length xs → length (take n xs) ≡ n
length-take zero xs h = refl
length-take (suc n) [] h = absurd (omega arith)
length-take (suc n) (x ∷ xs) h = ap suc (length-take n xs (omega arith))

-- An edit in range of a text that is put together of three pieces.
pieces :
    (range : TextRange) (before removed after replacement : List ℕ)
    → range.start ≡ length before
    → range.end ≡ length before + length removed
    → (in_range (before ++ (removed ++ after)) range ≡ true)
      × (replace (before ++ (removed ++ after)) range replacement
          ≡ before ++ (replacement ++ after))
pieces range before removed after replacement s e =
    let whole = length-append before (removed ++ after) in
    let rest = length-append removed after in
    let to_end : range.start + range_length range ≡ length before + length removed = ground arith in
    let tail : drop (length before + length removed) (before ++ (removed ++ after)) ≡ after =
      drop-add (length before) (length removed) (before ++ (removed ++ after))
      ∙ ap (drop (length removed)) (drop-length-append before (removed ++ after))
      ∙ drop-length-append removed after in
    (
      ground (arith, whole, rest),
      rw to_end (rw (s, tail, take-length-append before (removed ++ after)) refl),
    )

-- The pieces of a text that an edit in range splits it into.
split :
    (range : TextRange) (text : List ℕ)
    → in_range text range ≡ true
    → let before = take range.start text in
      let removed = take (range_length range) (drop range.start text) in
      let after = drop (range.start + range_length range) text in
      (range.start ≡ length before)
      × (range.end ≡ length before + length removed)
      × (text ≡ before ++ (removed ++ after))
split range text h =
    let ordered : range.start ≤ range.end = ground arith in
    let inside : range.end ≤ length text = ground arith in
    let size : range_length range ≡ range.end - range.start = ground arith in
    let before = length-take range.start text (omega arith) in
    let removed =
      length-take (range_length range) (drop range.start text)
        (omega (arith, size, length-drop range.start text)) in
    let rest = take-append-drop (range_length range) (drop range.start text) in
    (
      sym before,
      omega (arith, before, removed, size),
      sym (
          rw (drop-add range.start (range_length range) text, rest)
            (take-append-drop range.start text)),
    )

pub apply_edits_complete :
    (edits : List TextEdit) (text out : List ℕ) (applied : List TextEdit)
    → Applied edits text out
    → apply_edits edits text applied ≡ some (out, applied ++ edits)
unfolding apply_edits
apply_edits_complete edits text out applied (done t) =
    ap (λ e. some (text, e)) (sym (append-nil applied))
apply_edits_complete edits text out applied
      (next edit rest before removed after t o s e whole more) =
    let (fits, made) = pieces edit.range before removed after edit.replacement s e in
    let ends =
      apply_edits_complete rest (before ++ (edit.replacement ++ after)) out (applied ++ edit ∷ [])
        more in
    rw whole
      (rw (fits, made) (ends ∙ ap (λ a. some (out, a)) (append_assoc applied (edit ∷ []) rest)))

pub apply_edits_sound :
    (edits : List TextEdit) (text out : List ℕ) (applied all : List TextEdit)
    → apply_edits edits text applied ≡ some (out, all)
    → Applied edits text out
unfolding apply_edits
apply_edits_sound [] text out applied all h =
    subst (Applied [] text) (ap (λ r. r.0) (some-injective (text, applied) (out, all) h))
      (done text)
apply_edits_sound (edit ∷ edits) text out applied all h =
    elim (if_split (in_range text edit.range) h) [
      | inl (fits, e) ↦
          let (s, t, whole) = split edit.range text fits in
          next edit edits (take edit.range.start text)
            (take (range_length edit.range) (drop edit.range.start text))
            (drop (edit.range.start + range_length edit.range) text) text out s t whole
            (apply_edits_sound edits (replace text edit.range edit.replacement) out
              (applied ++ edit ∷ []) all e)
      | inr (out_of_range, e) ↦ absurd (some-ne-none (out, all) (sym e))
    ]
