-- ===== src/RuntimeText.antt =====
-- src/StyioExtern/ExternLib.cpp: texts of the runtime. `styio_string_lines` splits a text into lines,
-- and `append_list_handle_repr` prints a list, here one of texts or of Booleans. The text of a C
-- string is what stands before its zero byte; an index of a loop is what is left to read.
pub mod Lines
pub mod Literals
mod Tests
use styio.Prelude.{
  ℕ, suc, Bool, true, false, ◌&&◌, ◌||◌, List, [], ◌∷◌, ◌++◌, ltb, ◌==◌, if◌then◌else◌,
}
use styio.Prelude.Scan.{codes, next_is}

-- The loop, with `current`, `ended_with_separator`, and whether the next byte is passed over.
unfoldable pub lines_from : Bool → List ℕ → Bool → List ℕ → List (List ℕ)
lines_from skip current ended [] = if ended then [] else current ∷ []
lines_from true current ended (ch ∷ rest) = lines_from false current ended rest
lines_from false current ended (ch ∷ rest) =
    let after = lines_from (ch == b'\r' && next_is rest 0 b'\n') [] true rest in
    let onward = lines_from false (current ++ ch ∷ []) false rest in
    if ch == b'\n' || ch == b'\r' then current ∷ after else onward

unfoldable pub string_lines : List ℕ → List (List ℕ)
unfolding lines_from
string_lines [] = []
string_lines (ch ∷ rest) = lines_from false [] false (ch ∷ rest)

-- One round of `escape_string_for_literal`
abbrev pub escape : ℕ → List ℕ
escape ch =
    if ch == b'\\'
    then b'\\' ∷ b'\\' ∷ []
    else if ch == b'"'
    then b'\\' ∷ b'"' ∷ []
    else if ch == b'\n'
    then b'\\' ∷ b'n' ∷ []
    else if ch == b'\r'
    then b'\\' ∷ b'r' ∷ []
    else if ch == b'\t'
    then b'\\' ∷ b't' ∷ []
    else ch ∷ []

unfoldable pub escape_string_for_literal : List ℕ → List ℕ
escape_string_for_literal [] = []
escape_string_for_literal (ch ∷ input) = escape ch ++ escape_string_for_literal input

-- `if (i > 0) { text.push_back(','); }`
abbrev pub comma : ℕ → List ℕ
comma i = if ltb 0 i then b',' ∷ [] else []

-- The loop over the texts, from the index i on.
unfoldable pub strings_from : ℕ → List (List ℕ) → List ℕ
unfolding escape_string_for_literal
strings_from i [] = []
strings_from i (elem ∷ elems) =
    comma i ++ (b'"' ∷ (escape_string_for_literal elem ++ (b'"' ∷ strings_from (suc i) elems)))

unfoldable pub string_list_repr : List (List ℕ) → List ℕ
unfolding strings_from
string_list_repr elems = b'[' ∷ (strings_from 0 elems ++ b']' ∷ [])

unfoldable pub bools_from : ℕ → List ℕ → List ℕ
bools_from i [] = []
bools_from i (elem ∷ elems) =
    comma i ++ ((if elem == 0 then codes "false" else codes "true") ++ bools_from (suc i) elems)

unfoldable pub bool_list_repr : List ℕ → List ℕ
unfolding bools_from
bool_list_repr elems = b'[' ∷ (bools_from 0 elems ++ b']' ∷ [])
