-- ===== src/ParserLookahead.antt =====
-- src/StyioParser/ParserLookahead.cpp: looking behind blanks, line ends and comments.
pub mod Targets
mod Tests
use styio.Prelude.{
  ℕ, zero, suc, ◌+◌, Bool, true, false, Option, none, some, List, [], ◌∷◌, length, get_elem?, drop,
  if◌then◌else◌,
}
use styio.Token.{
  TokenType, Token, same_type, tok_space, tok_lf, tok_cr, comment_line, comment_closed,
}

-- `styio_is_trivia_token`
unfoldable pub is_trivia_token : TokenType → Bool
is_trivia_token tok_space = true
is_trivia_token tok_lf = true
is_trivia_token tok_cr = true
is_trivia_token comment_line = true
is_trivia_token comment_closed = true
is_trivia_token _ = false

-- The loop of `styio_skip_trivia_tokens` on the tokens from its cursor on.
unfoldable pub skip_from : ℕ → List Token → ℕ
skip_from cursor [] = cursor
skip_from cursor (t ∷ tokens) =
    let further = skip_from (cursor + 1) tokens in
    if is_trivia_token t.kind then further else cursor

abbrev pub skip_trivia_tokens : List Token → ℕ → ℕ
skip_trivia_tokens tokens index = skip_from index (drop index tokens)

-- `probe >= tokens.size()` is a read out of range.
abbrev pub try_check_non_trivia : List Token → ℕ → TokenType → Bool
try_check_non_trivia tokens index target =
    elim (get_elem? tokens (skip_trivia_tokens tokens index)) [
      | none ↦ false
      | some t ↦ same_type t.kind target
    ]
