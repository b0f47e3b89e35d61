-- ===== src/ParserLookahead/Tests.antt =====
-- The look-ahead of src/StyioParser/ParserLookahead.cpp on concrete tokens.
use styio.Prelude.{◌≡◌, refl, true, false, none, some, List, [], ◌∷◌, drop}
use styio.Prelude.Scan.{codes}
use styio.Token.{Token, token, same_type, tok_space, tok_lf, tok_colon, name}
use styio.ParserLookahead.{is_trivia_token, skip_from, try_check_non_trivia}
use styio.ParserLookahead.Targets.{first_non_trivia, try_check_non_trivia_lem}

-- A name, a blank, a line end, a colon.
abbrev tokens : List Token
tokens =
    token name (codes "x")
    ∷ token tok_space (codes " ")
    ∷ token tok_lf (b'\n' ∷ [])
    ∷ token tok_colon (codes ":")
    ∷ []

colon_after_blanks : try_check_non_trivia tokens 1 tok_colon ≡ true
unfolding skip_from is_trivia_token
colon_after_blanks = refl

nothing_behind_the_end : try_check_non_trivia tokens 9 tok_colon ≡ false
unfolding skip_from
nothing_behind_the_end = refl

try_check_non_trivia_example :
    try_check_non_trivia tokens 1 tok_colon ≡ (elim (first_non_trivia (drop 1 tokens)) [
      | none ↦ false
      | some t ↦ same_type t.kind tok_colon
    ])
try_check_non_trivia_example = try_check_non_trivia_lem tokens 1 tok_colon
