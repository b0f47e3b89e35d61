-- ===== src/TextBuffer.antt =====
-- src/StyioIDE/Common.hpp and Common.cpp: `TextBuffer`, the text of a document with the offsets
-- at which its lines start, and the two maps between offsets and positions.
pub mod Positions
pub mod Lines
mod Tests
use styio.Prelude.{
  ℕ, zero, suc, ◌+◌, ◌-◌, Bool, true, false, not, List, [], ◌∷◌, ◌++◌, length, get_or, ltb, ◌==◌,
  if◌then◌else◌,
}

pub record Position : Type 0 where
  pub line : ℕ
  pub character : ℕ

pub record TextBuffer : Type 0 where
  pub text : List ℕ
  pub line_starts : List ℕ

-- `rebuild_line_starts` from index i on
unfoldable pub line_starts_from : ℕ → List ℕ → List ℕ
line_starts_from i [] = []
line_starts_from i (c ∷ text) =
    let later = line_starts_from (suc i) text in if c == b'\n' then suc i ∷ later else later

abbrev pub rebuild_line_starts : List ℕ → List ℕ
rebuild_line_starts text = 0 ∷ line_starts_from 0 text

-- `TextBuffer::reset`, and the constructor from a text
abbrev pub reset : List ℕ → TextBuffer
reset text = record { text = text; line_starts = rebuild_line_starts text }

-- The buffer that `TextBuffer() = default` makes has no line at all.
abbrev pub empty : TextBuffer
empty = record { text = []; line_starts = [] }

abbrev pub min : ℕ → ℕ → ℕ
min a b = if ltb b a then b else a

-- `std::upper_bound`: how many elements stand before the first that is greater than the offset
unfoldable pub upper_bound : List ℕ → ℕ → ℕ
upper_bound [] offset = 0
upper_bound (s ∷ starts) offset =
    let later = upper_bound starts offset in if ltb offset s then 0 else suc later

-- The position of an offset that is inside the text.
abbrev pub position_in : List ℕ → ℕ → Position
position_in starts offset =
    let line = upper_bound starts offset - 1 in
    record { line = line; character = offset - get_or starts line 0 }

abbrev pub clamp : ℕ → ℕ → ℕ
clamp size offset = if ltb size offset then size else offset

abbrev pub position_at : TextBuffer → ℕ → Position
position_at buffer offset = elim buffer.line_starts [
  | [] ↦ record { line = 0; character = 0 }
  | s ∷ starts ↦ position_in (s ∷ starts) (clamp (length buffer.text) offset)
]

-- The end of a line: the start of the next, or the end of the text.
abbrev pub next_line_start : List ℕ → ℕ → ℕ → ℕ
next_line_start starts line size =
    if ltb (line + 1) (length starts) then get_or starts (line + 1) 0 else size

abbrev pub offset_in : List ℕ → ℕ → Position → ℕ
offset_in starts size position =
    let line = min position.line (length starts - 1) in
    let line_start = get_or starts line 0 in
    let line_len = next_line_start starts line size - line_start in
    line_start + min position.character line_len

abbrev pub offset_at : TextBuffer → Position → ℕ
offset_at buffer position = elim buffer.line_starts [
  | [] ↦ 0
  | s ∷ starts ↦ offset_in (s ∷ starts) (length buffer.text) position
]

pub record LineSep : Type 0 where
  pub start : ℕ
  pub len : ℕ

-- `!text_.empty() && text_.back() != '\n'`
abbrev pub ends_open : List ℕ → Bool
ends_open [] = false
ends_open (c ∷ []) = not (c == b'\n')
ends_open (c ∷ (d ∷ text)) = ends_open (d ∷ text)

-- The loop of `build_line_seps` with its counters, and what is pushed behind it.
unfoldable pub line_seps_from : Bool → ℕ → ℕ → List ℕ → List LineSep
line_seps_from last line_start line_len [] =
    if last then record { start = line_start; len = line_len } ∷ [] else []
line_seps_from last line_start line_len (c ∷ text) =
    let after = line_seps_from last (line_start + (line_len + 1)) 0 text in
    let longer = line_seps_from last line_start (line_len + 1) text in
    if c == b'\n' then record { start = line_start; len = line_len } ∷ after else longer

abbrev pub build_line_seps : TextBuffer → List LineSep
build_line_seps buffer = line_seps_from (ends_open buffer.text) 0 0 buffer.text
