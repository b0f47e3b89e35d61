-- ===== src/Token/Shape.antt =====
-- The texts that a token of each type (src/StyioToken/Token.hpp) may have for the tokenizer of
-- src/StyioParser/Tokenizer.cpp. These are not the grammar's in every place: a string literal ends at
-- the next quote, with no escape of a quote; two dots are an ellipsis, and two dashes a single
-- separating line. No text is a token of a type that the tokenizer does not produce.
use styio.Prelude.{
  ℕ, ◌+◌, ◌≡◌, ◌≢◌, Bool, true, not, ◌||◌, Option, none, some, List, [], ◌∷◌, ◌++◌, replicate, ◌==◌,
}
use styio.Prelude.Scan.{codes, All}
use styio.Unicode.{is_digit, is_identifier_start, is_identifier_continue}
use styio.Token.{
  TokenType, tok_exclam, binop_ne, tok_percent, compound_mod, tok_amp, logic_and, tok_star,
  binop_pow, compound_mul, tok_plus, compound_add, tok_slash, compound_div, tok_colon, walrus,
  tok_quest, await_pipe, match, dbquestion, tok_lboxbrac, bounded_buffer_open, tok_tilde,
  wave_right, arrow_single_right, compound_sub, tok_minus, tok_dot, wave_left, binop_le, yield_pipe,
  arrow_single_left, tok_langbrac, arrow_double_right, binop_eq, tok_equal, print, binop_ge,
  tok_rangbrac, return_pipe, task_launch, pipe_semicolon, bounded_buffer_close, logic_or, tok_pipe,
  tok_hash, tok_dollar, tok_squote, tok_lparen, tok_rparen, tok_comma, tok_semicolon, tok_at,
  tok_backslash, tok_rboxbrac, tok_hat, tok_undline, tok_bquote, tok_lcurbrac, tok_rcurbrac,
  tok_space, tok_lf, tok_cr, name, integer, decimal, string, comment_line, comment_closed,
  native_extern_body, single_sep_line, double_sep_line, ellipsis, extractor, iterator, unknown,
}

-- The one text of a token whose type leaves no choice.
abbrev pub spelling : TokenType → Option (List ℕ)
spelling tok_exclam = some (codes "!")
spelling binop_ne = some (codes "!=")
spelling tok_percent = some (codes "%")
spelling compound_mod = some (codes "%=")
spelling tok_amp = some (codes "&")
spelling logic_and = some (codes "&&")
spelling tok_star = some (codes "*")
spelling binop_pow = some (codes "**")
spelling compound_mul = some (codes "*=")
spelling tok_plus = some (codes "+")
spelling compound_add = some (codes "+=")
spelling tok_slash = some (codes "/")
spelling compound_div = some (codes "/=")
spelling tok_colon = some (codes ":")
spelling walrus = some (codes ":=")
spelling tok_quest = some (codes "?")
spelling await_pipe = some (codes "?|")
spelling match = some (codes "?=")
spelling dbquestion = some (codes "??")
spelling tok_lboxbrac = some (codes "[")
spelling bounded_buffer_open = some (codes "[|")
spelling tok_tilde = some (codes "~")
spelling wave_right = some (codes "~>")
spelling arrow_single_right = some (codes "->")
spelling compound_sub = some (codes "-=")
spelling tok_minus = some (codes "-")
spelling tok_dot = some (codes ".")
spelling wave_left = some (codes "<~")
spelling binop_le = some (codes "<=")
spelling yield_pipe = some (codes "<|")
spelling arrow_single_left = some (codes "<-")
spelling tok_langbrac = some (codes "<")
spelling arrow_double_right = some (codes "=>")
spelling binop_eq = some (codes "==")
spelling tok_equal = some (codes "=")
spelling print = some (codes ">_")
spelling binop_ge = some (codes ">=")
spelling tok_rangbrac = some (codes ">")
spelling return_pipe = some (codes "|<|")
spelling task_launch = some (codes "||>")
spelling pipe_semicolon = some (codes "|;")
spelling bounded_buffer_close = some (codes "|]")
spelling logic_or = some (codes "||")
spelling tok_pipe = some (codes "|")
spelling tok_hash = some (codes "#")
spelling tok_dollar = some (codes "$")
spelling tok_squote = some (codes "'")
spelling tok_lparen = some (codes "(")
spelling tok_rparen = some (codes ")")
spelling tok_comma = some (codes ",")
spelling tok_semicolon = some (codes ";")
spelling tok_at = some (codes "@")
spelling tok_backslash = some (codes "\\")
spelling tok_rboxbrac = some (codes "]")
spelling tok_hat = some (codes "^")
spelling tok_undline = some (codes "_")
spelling tok_bquote = some (codes "`")
spelling tok_lcurbrac = some (codes "{")
spelling tok_rcurbrac = some (codes "}")
spelling tok_lf = some (b'\n' ∷ [])
spelling tok_cr = some (b'\r' ∷ [])
spelling _ = none

-- A first character and more of a class.
abbrev pub Word : (ℕ → Bool) → (ℕ → Bool) → List ℕ → Type 0
Word first more [] = ⊥
Word first more (c ∷ cs) = (first c ≡ true) × All more cs

abbrev pub Digits : List ℕ → Type 0
Digits = Word is_digit is_digit

-- At least `k` of one character.
abbrev pub Run : ℕ → ℕ → List ℕ → Type 0
Run k b text = (n : ℕ) × (text ≡ replicate (k + n) b)

abbrev pub FixedText : Option (List ℕ) → List ℕ → Type 0
FixedText none text = ⊥
FixedText (some t) text = text ≡ t

-- The texts of a token of a type.
abbrev pub Shape : TokenType → List ℕ → Type 0
Shape name text = Word is_identifier_start is_identifier_continue text × (text ≢ codes "_")
Shape integer text = Digits text
Shape decimal text =
    (whole : List ℕ) × (part : List ℕ) × (text ≡ whole ++ (b'.' ∷ part))
    × Digits whole
    × Digits part
Shape string text =
    (body : List ℕ) × (text ≡ b'"' ∷ (body ++ b'"' ∷ [])) × All (λ c. not (c == b'"')) body
Shape comment_line text =
    (body : List ℕ) × (text ≡ codes "//" ++ body) × All (λ c. not (c == b'\n' || c == b'\r')) body
Shape comment_closed text = (body : List ℕ) × (text ≡ codes "/*" ++ (body ++ codes "*/"))
Shape native_extern_body text = Unit
Shape tok_space text =
    (c : ℕ) × (text ≡ c ∷ []) × ((c == b' ' || (c == 9 || (c == 11 || c == 12))) ≡ true)
Shape single_sep_line text = Run 2 b'-' text
Shape double_sep_line text = Run 3 b'=' text
Shape ellipsis text = Run 2 b'.' text
Shape extractor text = Run 2 b'<' text
Shape iterator text = Run 2 b'>' text
Shape unknown text = (c : ℕ) × (text ≡ c ∷ [])
Shape kind text = FixedText (spelling kind) text
