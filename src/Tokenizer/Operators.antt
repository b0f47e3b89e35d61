-- ===== src/Tokenizer/Operators.antt =====
-- The cases of the switch of `StyioTokenizer::tokenize` (src/StyioParser/Tokenizer.cpp) that read
-- operators: each takes what is left from the position on, and gives the token and by how many
-- bytes the position moves.
pub mod Takes
pub mod Shapes
use styio.Prelude.{ℕ, ◌+◌, Bool, ◌&&◌, List, [], ◌∷◌, drop, replicate, ◌==◌, if◌then◌else◌}
use styio.Prelude.Scan.{next_is, count_while}
use styio.Token.{
  TokenType, arrow_double_right, arrow_single_left, arrow_single_right, await_pipe, binop_eq,
  binop_ge, binop_le, binop_ne, binop_pow, bounded_buffer_close, bounded_buffer_open, compound_add,
  compound_div, compound_mod, compound_mul, compound_sub, dbquestion, double_sep_line, ellipsis,
  extractor, iterator, logic_and, logic_or, match, pipe_semicolon, print, return_pipe,
  single_sep_line, task_launch, tok_amp, tok_at, tok_backslash, tok_bquote, tok_colon, tok_comma,
  tok_dollar, tok_dot, tok_equal, tok_exclam, tok_hash, tok_hat, tok_langbrac, tok_lboxbrac,
  tok_lparen, tok_minus, tok_percent, tok_pipe, tok_plus, tok_quest, tok_rangbrac, tok_rboxbrac,
  tok_rcurbrac, tok_rparen, tok_semicolon, tok_slash, tok_squote, tok_star, tok_tilde, tok_undline,
  unknown, walrus, wave_left, wave_right, yield_pipe,
}

-- A token that was read, and how far the position moves.
pub record Lexeme : Type 0 where
  pub kind : TokenType
  pub literal : List ℕ
  pub width : ℕ

abbrev pub lexeme : TokenType → List ℕ → ℕ → Lexeme
lexeme kind literal width = record { kind = kind; literal = literal; width = width }

-- `count_consecutive(code, loc + k, target)`
unfoldable pub count_consecutive : List ℕ → ℕ → ℕ → ℕ
unfolding count_while
count_consecutive rest k target = count_while (λ c. c == target) (drop k rest)

unfoldable pub scan_exclam : List ℕ → Lexeme
scan_exclam rest =
    if next_is rest 1 b'='
    then lexeme binop_ne (b'!' ∷ b'=' ∷ []) 2
    else lexeme tok_exclam (b'!' ∷ []) 1

unfoldable pub scan_percent : List ℕ → Lexeme
scan_percent rest =
    if next_is rest 1 b'='
    then lexeme compound_mod (b'%' ∷ b'=' ∷ []) 2
    else lexeme tok_percent (b'%' ∷ []) 1

unfoldable pub scan_amp : List ℕ → Lexeme
scan_amp rest =
    if next_is rest 1 b'&'
    then lexeme logic_and (b'&' ∷ b'&' ∷ []) 2
    else lexeme tok_amp (b'&' ∷ []) 1

unfoldable pub scan_star : List ℕ → Lexeme
scan_star rest =
    if next_is rest 1 b'*'
    then lexeme binop_pow (b'*' ∷ b'*' ∷ []) 2
    else if next_is rest 1 b'='
    then lexeme compound_mul (b'*' ∷ b'=' ∷ []) 2
    else lexeme tok_star (b'*' ∷ []) 1

unfoldable pub scan_plus : List ℕ → Lexeme
scan_plus rest =
    if next_is rest 1 b'='
    then lexeme compound_add (b'+' ∷ b'=' ∷ []) 2
    else lexeme tok_plus (b'+' ∷ []) 1

unfoldable pub scan_slash : List ℕ → Lexeme
scan_slash rest =
    if next_is rest 1 b'='
    then lexeme compound_div (b'/' ∷ b'=' ∷ []) 2
    else lexeme tok_slash (b'/' ∷ []) 1

unfoldable pub scan_colon : List ℕ → Lexeme
scan_colon rest =
    if next_is rest 1 b'='
    then lexeme walrus (b':' ∷ b'=' ∷ []) 2
    else lexeme tok_colon (b':' ∷ []) 1

unfoldable pub scan_quest : List ℕ → Lexeme
scan_quest rest =
    if next_is rest 1 b'|'
    then lexeme await_pipe (b'?' ∷ b'|' ∷ []) 2
    else if next_is rest 1 b'='
    then lexeme match (b'?' ∷ b'=' ∷ []) 2
    else if next_is rest 1 b'?'
    then lexeme dbquestion (b'?' ∷ b'?' ∷ []) 2
    else lexeme tok_quest (b'?' ∷ []) 1

unfoldable pub scan_lboxbrac : List ℕ → Lexeme
scan_lboxbrac rest =
    if next_is rest 1 b'|'
    then lexeme bounded_buffer_open (b'[' ∷ b'|' ∷ []) 2
    else lexeme tok_lboxbrac (b'[' ∷ []) 1

unfoldable pub scan_tilde : List ℕ → Lexeme
scan_tilde rest =
    if next_is rest 1 b'>'
    then lexeme wave_right (b'~' ∷ b'>' ∷ []) 2
    else lexeme tok_tilde (b'~' ∷ []) 1

unfoldable pub scan_minus : List ℕ → Lexeme
unfolding count_consecutive
scan_minus rest =
    if next_is rest 1 b'>'
    then lexeme arrow_single_right (b'-' ∷ b'>' ∷ []) 2
    else if next_is rest 1 b'-'
    then (let count = 2 + count_consecutive rest 2 b'-' in
        lexeme single_sep_line (replicate count b'-') count)
    else if next_is rest 1 b'='
    then lexeme compound_sub (b'-' ∷ b'=' ∷ []) 2
    else lexeme tok_minus (b'-' ∷ []) 1

unfoldable pub scan_dot : List ℕ → Lexeme
unfolding count_consecutive
scan_dot rest =
    let count = 1 + count_consecutive rest 1 b'.' in
    if count == 1
    then lexeme tok_dot (b'.' ∷ []) count
    else lexeme ellipsis (replicate count b'.') count

unfoldable pub scan_langbrac : List ℕ → Lexeme
unfolding count_consecutive
scan_langbrac rest =
    let count = 1 + count_consecutive rest 1 b'<' in
    if count == 1
    then (if next_is rest 1 b'~'
        then lexeme wave_left (b'<' ∷ b'~' ∷ []) 2
        else if next_is rest 1 b'='
        then lexeme binop_le (b'<' ∷ b'=' ∷ []) 2
        else if next_is rest 1 b'|'
        then lexeme yield_pipe (b'<' ∷ b'|' ∷ []) 2
        else if next_is rest 1 b'-'
        then lexeme arrow_single_left (b'<' ∷ b'-' ∷ []) 2
        else lexeme tok_langbrac (b'<' ∷ []) 1)
    else lexeme extractor (replicate count b'<') count

unfoldable pub scan_equal : List ℕ → Lexeme
unfolding count_consecutive
scan_equal rest =
    if next_is rest 1 b'>'
    then lexeme arrow_double_right (b'=' ∷ b'>' ∷ []) 2
    else if next_is rest 1 b'='
    then (let count = 2 + count_consecutive rest 2 b'=' in
        if count == 2
        then lexeme binop_eq (b'=' ∷ b'=' ∷ []) count
        else lexeme double_sep_line (replicate count b'=') count)
    else lexeme tok_equal (b'=' ∷ []) 1

unfoldable pub scan_rangbrac : List ℕ → Lexeme
unfolding count_consecutive
scan_rangbrac rest =
    if next_is rest 1 b'_'
    then lexeme print (b'>' ∷ b'_' ∷ []) 2
    else if next_is rest 1 b'>'
    then (let count = 2 + count_consecutive rest 2 b'>' in
        lexeme iterator (replicate count b'>') count)
    else if next_is rest 1 b'='
    then lexeme binop_ge (b'>' ∷ b'=' ∷ []) 2
    else lexeme tok_rangbrac (b'>' ∷ []) 1

unfoldable pub scan_pipe : List ℕ → Lexeme
scan_pipe rest =
    if next_is rest 1 b'<' && next_is rest 2 b'|'
    then lexeme return_pipe (b'|' ∷ b'<' ∷ b'|' ∷ []) 3
    else if next_is rest 1 b'|' && next_is rest 2 b'>'
    then lexeme task_launch (b'|' ∷ b'|' ∷ b'>' ∷ []) 3
    else if next_is rest 1 b';'
    then lexeme pipe_semicolon (b'|' ∷ b';' ∷ []) 2
    else if next_is rest 1 b']'
    then lexeme bounded_buffer_close (b'|' ∷ b']' ∷ []) 2
    else if next_is rest 1 b'|'
    then lexeme logic_or (b'|' ∷ b'|' ∷ []) 2
    else lexeme tok_pipe (b'|' ∷ []) 1

-- The cases of one character, which read the character and nothing else.
unfoldable pub single_kind : ℕ → TokenType
single_kind c =
    if c == b'#'
    then tok_hash
    else if c == b'$'
    then tok_dollar
    else if c == b'\''
    then tok_squote
    else if c == b'('
    then tok_lparen
    else if c == b')'
    then tok_rparen
    else if c == b','
    then tok_comma
    else if c == b';'
    then tok_semicolon
    else if c == b'@'
    then tok_at
    else if c == b'\\'
    then tok_backslash
    else if c == b']'
    then tok_rboxbrac
    else if c == b'^'
    then tok_hat
    else if c == b'_'
    then tok_undline
    else if c == b'`'
    then tok_bquote
    else if c == b'}'
    then tok_rcurbrac
    else unknown

unfoldable pub scan_single : ℕ → Lexeme
unfolding single_kind
scan_single c = lexeme (single_kind c) (c ∷ []) 1
