-- ===== src/TextBuffer/Positions.antt =====
-- Offsets and positions of src/StyioIDE/Common.cpp agree with a walk through the text.
use styio.Prelude.{
  ℕ, zero, suc, ◌+◌, ◌-◌, ◌≤◌, ◌<◌, ◌≡◌, refl, List, [], ◌∷◌, length, get_or, ◌==◌, if◌then◌else◌,
  arith, sym, ◌∙◌, Bool-cases, not_lt→ltb, inl, inr,
}
use styio.TextBuffer.{
  Position, line_starts_from, reset, upper_bound, position_in, position_at, offset_in, offset_at,
  clamp,
}

-- A walk through the text from its start: a line feed begins a line, any other byte moves on by
-- one, and the text's end stops the walk.
unfoldable pub walk : ℕ → ℕ → ℕ → List ℕ → Position
walk line character zero text = record { line = line; character = character }
walk line character (suc n) [] = record { line = line; character = character }
walk line character (suc n) (c ∷ text) =
    let below = walk (suc line) 0 n text in
    let right = walk line (suc character) n text in if c == b'\n' then below else right

no_start_yet : (i j : ℕ) (text : List ℕ) → i ≤ j → upper_bound (line_starts_from j text) i ≡ 0
unfolding upper_bound line_starts_from
no_start_yet i j [] h = refl
no_start_yet i j (c ∷ text) h = ground (arith, no_start_yet i (suc j) text)

-- The first element does not exceed the offset: the line found does not either.
line_start-le :
    (s : ℕ) (starts : List ℕ) (offset : ℕ)
    → s ≤ offset
    → get_or (s ∷ starts) (upper_bound starts offset) 0 ≤ offset
unfolding upper_bound
line_start-le s [] offset h = h
line_start-le s (r ∷ starts) offset h = ground (arith, line_start-le r starts offset)

next_start-lt :
    (starts : List ℕ) (offset : ℕ)
    → upper_bound starts offset < length starts
    → offset < get_or starts (upper_bound starts offset) 0
unfolding upper_bound
next_start-lt [] offset h = absurd (omega arith)
next_start-lt (s ∷ starts) offset h = ground (arith, next_start-lt starts offset)

upper_bound-le : (starts : List ℕ) (offset : ℕ) → upper_bound starts offset ≤ length starts
unfolding upper_bound
upper_bound-le [] offset = omega arith
upper_bound-le (s ∷ starts) offset = ground (arith, upper_bound-le starts offset)

-- The position of an offset, when the line that starts at s is line l.
abbrev located : ℕ → ℕ → List ℕ → ℕ → Position
located l s starts offset =
    let line = upper_bound starts offset in
    record { line = l + line; character = offset - get_or (s ∷ starts) line 0 }

located-next :
    (l s r : ℕ) (starts : List ℕ) (offset : ℕ)
    → r ≤ offset
    → located l s (r ∷ starts) offset ≡ located (suc l) r starts offset
unfolding upper_bound
located-next l s r starts offset h = ground arith

walk_lem :
    (l s i k n : ℕ) (text : List ℕ)
    → s + k ≡ i
    → n ≤ length text
    → walk l k n text ≡ located l s (line_starts_from i text) (i + n)
unfolding walk line_starts_from
walk_lem l s i k zero text h m =
    let here : i + 0 ≡ i = omega arith in
    let same_line : l + 0 ≡ l = omega arith in
    let column : k ≡ i - s = omega arith in
    rw here (rw (no_start_yet i i text (omega arith)) (rw same_line (rw column refl)))
walk_lem l s i k (suc n) [] h m = absurd (omega arith)
walk_lem l s i k (suc n) (c ∷ text) h m =
    let along : i + suc n ≡ suc i + n = omega arith in
    elim (Bool-cases (c == b'\n')) [
      | inl e ↦ rw e (
          rw along (
            walk_lem (suc l) (suc i) (suc i) 0 n text (omega arith) (omega arith)
            ∙ sym (
                located-next l s (suc i) (line_starts_from (suc i) text) (suc i + n)
                  (omega arith))))
      | inr e ↦ rw e (rw along (walk_lem l s (suc i) (suc k) n text (omega arith) (omega arith)))
    ]

walk-clamp : (l k n : ℕ) (text : List ℕ) → walk l k (clamp (length text) n) text ≡ walk l k n text
unfolding walk
walk-clamp l k zero text = ground arith
walk-clamp l k (suc n) [] = ground arith
walk-clamp l k (suc n) (c ∷ text) =
    ground (arith, walk-clamp (suc l) 0 n text, walk-clamp l (suc k) n text)

position_in-located :
    (starts : List ℕ) (offset : ℕ)
    → position_in (0 ∷ starts) offset ≡ located 0 0 starts (0 + offset)
unfolding upper_bound
position_in-located starts offset =
    let same : 0 + offset ≡ offset = omega arith in
    let same_line : 0 + upper_bound starts offset ≡ upper_bound starts offset = omega arith in
    let found : suc (upper_bound starts offset) - 1 ≡ upper_bound starts offset = omega arith in
    rw (not_lt→ltb offset 0 (omega arith)) (rw same (rw same_line (rw found refl)))

-- The position of an offset is where a walk over as many bytes ends; an offset behind the text
-- has the position of its end.
pub position_at-walk :
    (text : List ℕ) (offset : ℕ) → position_at (reset text) offset ≡ walk 0 0 offset text
position_at-walk text offset =
    position_in-located (line_starts_from 0 text) (clamp (length text) offset)
    ∙ sym (walk_lem 0 0 0 0 (clamp (length text) offset) text (omega arith) (ground arith))
    ∙ walk-clamp 0 0 offset text

-- What stands at a line that was found leads back to the offset.
offset_in-position_in :
    (starts : List ℕ) (size offset : ℕ)
    → offset ≤ size
    → offset_in (0 ∷ starts) size (position_in (0 ∷ starts) offset) ≡ offset
unfolding upper_bound
offset_in-position_in starts size offset h = ground (
  arith,
  line_start-le 0 starts offset (omega arith),
  next_start-lt starts offset,
  upper_bound-le starts offset,
)

-- The offset of the position of an offset is that offset, or the text's end where it is behind it.
pub offset_at-position_at :
    (text : List ℕ) (offset : ℕ)
    → offset_at (reset text) (position_at (reset text) offset) ≡ clamp (length text) offset
offset_at-position_at text offset =
    offset_in-position_in (line_starts_from 0 text) (length text) (clamp (length text) offset)
      (ground arith)
