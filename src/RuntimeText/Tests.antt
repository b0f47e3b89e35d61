-- ===== src/RuntimeText/Tests.antt =====
-- Runs of the texts of the runtime, and their theorems at concrete texts.
use styio.Prelude.{ℕ, some, List, [], ◌∷◌, ◌++◌, ◌≡◌, refl, arith}
use styio.Prelude.Scan.{codes}
use styio.RuntimeText.{
  lines_from, string_lines, escape_string_for_literal, strings_from, string_list_repr, bools_from,
  bool_list_repr,
}
use styio.RuntimeText.Lines.{Splits, string_lines-Splits}
use styio.RuntimeText.Literals.{read_list, read_list-string_list_repr}

mixed_ends :
    string_lines (codes "a" ++ (b'\r' ∷ b'\n' ∷ b'\r' ∷ b'b' ∷ b'\n' ∷ []))
    ≡ codes "a" ∷ [] ∷ codes "b" ∷ []
unfolding string_lines lines_from
mixed_ends = refl

string_lines-Splits_example :
    Splits
      (codes "a" ++ (b'\r' ∷ b'\n' ∷ b'b' ∷ []))
      (string_lines (codes "a" ++ (b'\r' ∷ b'\n' ∷ b'b' ∷ [])))
string_lines-Splits_example = string_lines-Splits (codes "a" ++ (b'\r' ∷ b'\n' ∷ b'b' ∷ []))

abbrev two_texts : List (List ℕ)
two_texts = codes "a\"b" ∷ (b'\n' ∷ []) ∷ []

quoted : string_list_repr two_texts ≡ codes "[\"a\\\"b\",\"\\n\"]"
unfolding string_list_repr strings_from escape_string_for_literal
quoted = refl

bools : bool_list_repr (1 ∷ 0 ∷ []) ≡ codes "[true,false]"
unfolding bool_list_repr bools_from
bools = refl

read_list-string_list_repr_example :
    read_list 2 (string_list_repr two_texts ++ codes ",1") ≡ some (two_texts, codes ",1")
read_list-string_list_repr_example =
    read_list-string_list_repr 2 two_texts (codes ",1") (omega arith)
