-- ===== src/RuntimeText/Literals.antt =====
-- The texts that `append_list_handle_repr` of src/StyioExtern/ExternLib.cpp prints can be read back.
use mathlib.Core.Option
use mathlib.Core.List.{append_assoc}
use styio.Prelude.{
  ℕ, zero, suc, ◌≤◌, not, Bool, true, false, Option, none, some, List, [], ◌∷◌, ◌++◌, length, ◌==◌,
  if◌then◌else◌, ◌≡◌, refl, ap, ◌∙◌, arith,
}
use styio.RuntimeText.{escape_string_for_literal, comma, strings_from, string_list_repr}

-- The byte that stands behind a backslash in a literal.
abbrev pub escaped : ℕ → ℕ
escaped ch =
    if ch == b'n' then b'\n' else if ch == b'r' then b'\r' else if ch == b't' then b'\t' else ch

abbrev pub add : ℕ → List ℕ × List ℕ → List ℕ × List ℕ
add ch (s, behind) = (ch ∷ s, behind)

-- The rest of a literal up to its closing quote, and what is behind it.
unfoldable pub read_body : Bool → List ℕ → Option (List ℕ × List ℕ)
read_body after_backslash [] = none
read_body true (ch ∷ rest) = Option.map (add (escaped ch)) (read_body false rest)
read_body false (ch ∷ rest) =
    let inside = Option.map (add ch) (read_body false rest) in
    let next = read_body true rest in
    if ch == b'"' then some ([], rest) else if ch == b'\\' then next else inside

-- An escaped text reads back as the text, whatever stands behind its quote.
read_body-escape :
    (input rest : List ℕ)
    → read_body false (escape_string_for_literal input ++ (b'"' ∷ rest)) ≡ some (input, rest)
unfolding read_body escape_string_for_literal
read_body-escape [] rest = refl
read_body-escape (ch ∷ input) rest = ground (arith, read_body-escape input rest)

abbrev pub with_elem : List ℕ → Option (List (List ℕ) × List ℕ) → Option (List (List ℕ) × List ℕ)
with_elem elem none = none
with_elem elem (some (elems, rest)) = some (elem ∷ elems, rest)

-- What stands behind an element, the reader of the next one given.
abbrev pub read_next :
    (List ℕ → Option (List (List ℕ) × List ℕ)) → List ℕ → Option (List (List ℕ) × List ℕ)
read_next more [] = none
read_next more (ch ∷ rest) =
    if ch == b']' then some ([], rest) else if ch == b',' then more rest else none

abbrev pub then_read :
    (List ℕ → Option (List (List ℕ) × List ℕ))
    → Option (List ℕ × List ℕ)
    → Option (List (List ℕ) × List ℕ)
then_read more none = none
then_read more (some (elem, behind)) = with_elem elem (read_next more behind)

-- The elements behind a bracket or a comma, and what is behind the closing bracket, on fuel.
unfoldable pub read_elems : ℕ → List ℕ → Option (List (List ℕ) × List ℕ)
unfolding read_body
read_elems n [] = none
read_elems zero (ch ∷ rest) = none
read_elems (suc n) (ch ∷ rest) =
    if ch == b'"' then then_read (read_elems n) (read_body false rest) else none

unfoldable pub read_list : ℕ → List ℕ → Option (List (List ℕ) × List ℕ)
unfolding read_elems
read_list n (bracket ∷ close ∷ rest) =
    if not (bracket == b'[')
    then none
    else if close == b']'
    then some ([], rest)
    else read_elems n (close ∷ rest)
read_list n _ = none

comma-suc : (i : ℕ) → comma (suc i) ≡ b',' ∷ []
comma-suc i = ground arith

read_elems-strings_from :
    (n i : ℕ) (elem : List ℕ) (elems : List (List ℕ)) (rest : List ℕ)
    → length elems ≤ n
    → then_read (read_elems n) (
        read_body false (
          escape_string_for_literal elem ++ (b'"' ∷ (strings_from (suc i) elems ++ (b']' ∷ rest)))))
      ≡ some (elem ∷ elems, rest)
unfolding read_elems strings_from
read_elems-strings_from n i elem [] rest h = rw (read_body-escape elem (b']' ∷ rest)) refl
read_elems-strings_from zero i elem (next ∷ elems) rest h = absurd (omega arith)
read_elems-strings_from (suc n) i elem (next ∷ elems) rest h =
    let more = read_elems-strings_from n (suc i) next elems rest (omega arith) in
    let behind = strings_from (suc (suc i)) elems in
    let apart : (escape_string_for_literal next ++ (b'"' ∷ behind)) ++ (b']' ∷ rest)
        ≡ escape_string_for_literal next ++ (b'"' ∷ (behind ++ (b']' ∷ rest))) =
      append_assoc (escape_string_for_literal next) (b'"' ∷ behind) (b']' ∷ rest) in
    ap (then_read (read_elems (suc n)))
      (read_body-escape elem (strings_from (suc i) (next ∷ elems) ++ (b']' ∷ rest)))
    ∙ ap
        (λ c. then_read (read_elems (suc n)) (
          some (
            elem,
            (c ++ (b'"' ∷ (escape_string_for_literal next ++ (b'"' ∷ behind)))) ++ (b']' ∷ rest),
          )))
        (comma-suc i)
    ∙ ap (with_elem elem) (ap (λ t. then_read (read_elems n) (read_body false t)) apart ∙ more)

-- A printed list of texts reads back as the list, whatever stands behind it, where the reader has
-- fuel for each of its texts.
pub read_list-string_list_repr :
    (n : ℕ) (elems : List (List ℕ)) (rest : List ℕ)
    → length elems ≤ n
    → read_list n (string_list_repr elems ++ rest) ≡ some (elems, rest)
unfolding read_list string_list_repr strings_from
read_list-string_list_repr n [] rest h = refl
read_list-string_list_repr zero (elem ∷ elems) rest h = absurd (omega arith)
read_list-string_list_repr (suc n) (elem ∷ elems) rest h =
    let inside = escape_string_for_literal elem ++ (b'"' ∷ strings_from 1 elems) in
    let apart : (inside ++ b']' ∷ []) ++ rest
        ≡ escape_string_for_literal elem ++ (b'"' ∷ (strings_from 1 elems ++ (b']' ∷ rest))) =
      append_assoc inside (b']' ∷ []) rest
      ∙ append_assoc (escape_string_for_literal elem) (b'"' ∷ strings_from 1 elems) (b']' ∷ rest) in
    ap (λ t. then_read (read_elems n) (read_body false t)) apart
    ∙ read_elems-strings_from n 0 elem elems rest (omega arith)
