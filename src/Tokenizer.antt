-- ===== src/Tokenizer.antt =====
-- src/StyioParser/Tokenizer.cpp: `StyioTokenizer::tokenize`. A text is the list of its bytes, and
-- the loop holds what is left of it from the position `loc` on. The tokens so far are held with
-- the last one first. A round gives the tokens that it pushes and by how far it moves `loc`.
pub mod Native
pub mod Operators
pub mod Rounds
pub mod Lossless
pub mod Shapes
mod Tests
use Native.{recent_tokens_open_native_extern_body, scanner, scan_body_end}
use Operators.{
  Lexeme, lexeme, scan_exclam, scan_percent, scan_amp, scan_star, scan_plus, scan_slash, scan_colon,
  scan_quest, scan_lboxbrac, scan_tilde, scan_minus, scan_dot, scan_langbrac, scan_equal,
  scan_rangbrac, scan_pipe, scan_single,
}
use styio.Prelude.Texts.{same_text}
use styio.Prelude.{
  ℕ, zero, suc, ◌+◌, Bool, true, false, not, ◌&&◌, ◌||◌, Option, none, some, List, [], ◌∷◌, ◌++◌,
  length, get_elem?, take, drop, reverse, leb, ◌==◌, if◌then◌else◌,
}
use styio.Prelude.Scan.{codes, next_is, starts_with, count_while, find}
use styio.Unicode.{is_digit, is_identifier_start, is_identifier_continue}
use styio.Token.{
  TokenType, tok_eof, tok_space, tok_lf, tok_cr, tok_undline, tok_lcurbrac, tok_rcurbrac, name,
  integer, decimal, string, comment_line, comment_closed, native_extern_body, Token, token,
}

-- The texts of `StyioLexError`, each with the offset that it names.
pub data LexError : Type 0 where
  unterminated_block_comment unterminated_string unterminated_native_block : ℕ → LexError

-- `out_of_fuel` is the model's own, and never comes with the fuel that `tokenize` gives.
pub data Outcome {ℓ} (A : Type ℓ) : Type ℓ where
  ok : A → Outcome A
  lex_error : LexError → Outcome A
  out_of_fuel : Outcome A

abbrev pub Pushed : Type 0
Pushed = List Token × ℕ

abbrev pub one_token : Lexeme → Outcome Pushed
one_token l = ok (token l.kind l.literal ∷ [], l.width)

unfoldable pub is_line_end : ℕ → Bool
is_line_end c = c == b'\n' || c == b'\r'

unfoldable pub scan_line_comment : List ℕ → Lexeme
unfolding is_line_end
scan_line_comment text =
    let n = count_while (λ c. not (is_line_end c)) (drop 2 text) in
    lexeme comment_line (codes "//" ++ take n (drop 2 text)) (2 + n)

unfoldable pub scan_block_comment : ℕ → List ℕ → Outcome Pushed
scan_block_comment loc text = elim (find (drop 2 text) (codes "*/")) [
  | none ↦ lex_error (unterminated_block_comment loc)
  | some n ↦
      one_token
        (lexeme comment_closed (codes "/*" ++ (take n (drop 2 text) ++ codes "*/")) (2 + n + 2))
]

unfoldable pub scan_identifier : List ℕ → Lexeme
scan_identifier text =
    let n = 1 + count_while is_identifier_continue (drop 1 text) in
    let literal = take n text in
    if same_text literal (codes "_") then lexeme tok_undline literal n else lexeme name literal n

abbrev digit_at : List ℕ → ℕ → Bool
digit_at text k = elim (get_elem? text k) [ none ↦ false | some c ↦ is_digit c ]

-- The digits behind the point, read by the second loop.
unfoldable pub scan_fraction : List ℕ → ℕ → Lexeme
scan_fraction text n =
    let m = 1 + count_while is_digit (drop (n + 2) text) in
    lexeme decimal (take (n + 1 + m) text) (n + 1 + m)

unfoldable pub scan_number : List ℕ → Lexeme
unfolding scan_fraction
scan_number text =
    let n = 1 + count_while is_digit (drop 1 text) in
    if next_is text n b'.' && digit_at text (n + 1)
    then scan_fraction text n
    else lexeme integer (take n text) n

unfoldable pub scan_string : ℕ → List ℕ → Outcome Pushed
scan_string loc text =
    let body = drop 1 text in
    let n = count_while (λ c. not (c == b'"')) body in
    if leb (length body) n
    then lex_error (unterminated_string loc)
    else one_token (lexeme string (b'"' ∷ (take n body ++ b'"' ∷ [])) (1 + n + 1))

-- The body of a native block, and its closing brace, behind the opening brace.
unfoldable pub scan_native : ℕ → List ℕ → Outcome Pushed
scan_native loc text =
    let body = drop 1 text in
    elim (scan_body_end scanner body) [
      | none ↦ lex_error (unterminated_native_block (loc + 1))
      | some n ↦ ok (
        token tok_lcurbrac (b'{' ∷ [])
            ∷ token native_extern_body (take n body)
            ∷ token tok_rcurbrac (b'}' ∷ [])
            ∷ [],
        1 + n + 1,
      )
    ]

unfoldable pub scan_lcurbrac : List Token → ℕ → List ℕ → Outcome Pushed
unfolding scan_native
scan_lcurbrac tokens loc text =
    if recent_tokens_open_native_extern_body tokens
    then scan_native loc text
    else one_token (lexeme tok_lcurbrac (b'{' ∷ []) 1)

-- The operators of the switch.
unfoldable pub scan_operator : ℕ → List ℕ → Lexeme
scan_operator c text =
    if c == b'!'
    then scan_exclam text
    else if c == b'%'
    then scan_percent text
    else if c == b'&'
    then scan_amp text
    else if c == b'*'
    then scan_star text
    else if c == b'+'
    then scan_plus text
    else if c == b'-'
    then scan_minus text
    else if c == b'.'
    then scan_dot text
    else if c == b'/'
    then scan_slash text
    else if c == b':'
    then scan_colon text
    else if c == b'<'
    then scan_langbrac text
    else if c == b'='
    then scan_equal text
    else if c == b'>'
    then scan_rangbrac text
    else if c == b'?'
    then scan_quest text
    else if c == b'['
    then scan_lboxbrac text
    else if c == b'|'
    then scan_pipe text
    else if c == b'~'
    then scan_tilde text
    else scan_single c

-- The switch on the character behind comments, names and numbers.
unfoldable pub scan_switch : List Token → ℕ → ℕ → List ℕ → Outcome Pushed
scan_switch tokens loc c text =
    if c == b'"'
    then scan_string loc text
    else if c == b'{'
    then scan_lcurbrac tokens loc text
    else one_token (scan_operator c text)

-- One round of the loop at the byte `c`, where `text` is what is left, `c` included.
unfoldable pub scan_round : List Token → ℕ → ℕ → List ℕ → Outcome Pushed
scan_round tokens loc c text =
    if c == b' ' || (c == 9 || (c == 11 || c == 12))
    then one_token (lexeme tok_space (c ∷ []) 1)
    else if c == b'\n'
    then one_token (lexeme tok_lf (b'\n' ∷ []) 1)
    else if c == b'\r'
    then one_token (lexeme tok_cr (b'\r' ∷ []) 1)
    else if starts_with text (codes "//")
    then one_token (scan_line_comment text)
    else if starts_with text (codes "/*")
    then scan_block_comment loc text
    else if is_identifier_start c
    then one_token (scan_identifier text)
    else if is_digit c
    then one_token (scan_number text)
    else scan_switch tokens loc c text

abbrev push_all : List Token → List Token → List Token
push_all tokens [] = tokens
push_all tokens (t ∷ ts) = push_all (t ∷ tokens) ts

-- The loop, on fuel. `tokens` are those pushed so far, the last one first.
unfoldable pub tokenize_from : ℕ → List Token → ℕ → List ℕ → Outcome (List Token)
tokenize_from fuel tokens loc [] = ok (reverse (token tok_eof [] ∷ tokens))
tokenize_from zero tokens loc (c ∷ rest) = out_of_fuel
tokenize_from (suc fuel) tokens loc (c ∷ rest) = elim (scan_round tokens loc c (c ∷ rest)) [
  | ok (pushed, width) ↦
      tokenize_from fuel (push_all tokens pushed) (loc + width) (drop width (c ∷ rest))
  | lex_error e ↦ lex_error e
  | out_of_fuel ↦ out_of_fuel
]

-- `StyioTokenizer::tokenize`: no round leaves `loc` where it is, so the length is fuel enough.
unfoldable pub tokenize : List ℕ → Outcome (List Token)
unfolding tokenize_from
tokenize code = tokenize_from (length code) [] 0 code
