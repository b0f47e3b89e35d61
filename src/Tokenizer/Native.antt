-- ===== src/Tokenizer/Native.antt =====
-- The native extern blocks of src/StyioParser/Tokenizer.cpp: which tokens open one, and where its
-- body of C or C++ text ends. A text is what is left from the source's position on, and a
-- position is counted from there. Positions that the source jumps over, by `loc += 2` or to the
-- end of a raw string, are counted by `skip`.
pub mod Closes
use mathlib.Core.Option
use styio.Prelude.Texts.{same_text}
use styio.Prelude.{
  ℕ, zero, suc, ◌+◌, ◌-◌, Bool, true, false, not, ◌&&◌, ◌||◌, Option, none, some, List, [], ◌∷◌,
  ◌++◌, length, get_elem?, take, drop, map, ltb, leb, ◌==◌, if◌then◌else◌,
}
use styio.Prelude.Scan.{codes, next_is, starts_with, find}
use styio.Token.{
  TokenType, tok_space, tok_lf, tok_cr, comment_line, comment_closed, arrow_double_right,
  tok_rparen, tok_lparen, tok_plus, tok_at, name, Token, same_type,
}

-- `styio_tokenizer_is_trivia`
unfoldable pub is_trivia : TokenType → Bool
is_trivia tok_space = true
is_trivia tok_lf = true
is_trivia tok_cr = true
is_trivia comment_line = true
is_trivia comment_closed = true
is_trivia _ = false

-- `styio_prev_non_trivia_index`: the tokens so far, the last one first, from that token on.
unfoldable pub prev_non_trivia : List Token → List Token
unfolding is_trivia
prev_non_trivia [] = []
prev_non_trivia (t ∷ before) =
    let further = prev_non_trivia before in if is_trivia t.kind then further else t ∷ before

abbrev head_is : TokenType → List Token → Bool
head_is kind [] = false
head_is kind (t ∷ before) = same_type t.kind kind

abbrev head_text : List Token → List ℕ
head_text [] = []
head_text (t ∷ before) = t.original

abbrev before_head : List Token → List Token
before_head [] = []
before_head (t ∷ before) = prev_non_trivia before

-- std::tolower in the C locale
abbrev to_lower : ℕ → ℕ
to_lower ch = if leb b'A' ch && leb ch b'Z' then ch + 32 else ch

-- From the ABI's name backwards: `@ extern ( c`.
opens_after_name : List Token → Bool
opens_after_name cur =
    if not (head_is name cur)
    then false
    else if not (same_text (map to_lower (head_text cur)) (codes "c"))
    then false
    else (let paren = before_head cur in
        if not (head_is tok_lparen paren)
        then false
        else (let word = before_head paren in
            if not (head_is name word && same_text (head_text word) (codes "extern"))
            then false
            else head_is tok_at (before_head word)))

-- From behind the closing parenthesis backwards: a name, or a name and `++`.
opens_after_paren : List Token → Bool
unfolding opens_after_name
opens_after_paren cur =
    if head_is tok_plus cur
    then (let plus = before_head cur in
        if not (head_is tok_plus plus) then false else opens_after_name (before_head plus))
    else opens_after_name cur

-- `styio_recent_tokens_open_native_extern_body`, on the tokens so far, the last one first
unfoldable pub recent_tokens_open_native_extern_body : List Token → Bool
unfolding prev_non_trivia opens_after_paren
recent_tokens_open_native_extern_body tokens =
    let arrow = prev_non_trivia tokens in
    if not (head_is arrow_double_right arrow)
    then false
    else (let paren = before_head arrow in
        if not (head_is tok_rparen paren) then false else opens_after_paren (before_head paren))

-- The length of the prefix of a raw string literal, 0 where there is none.
unfoldable pub raw_prefix : List ℕ → ℕ
raw_prefix text =
    if starts_with text (codes "u8R")
    then 3
    else if starts_with text (codes "uR")
        || (starts_with text (codes "UR") || starts_with text (codes "LR"))
    then 2
    else if starts_with text (codes "R")
    then 1
    else 0

abbrev close_marker : List ℕ → List ℕ
close_marker delimiter = b')' ∷ (delimiter ++ b'"' ∷ [])

-- From behind the opening quote, at `quote + 1`, with the parenthesis `n` bytes further on.
raw_close : List ℕ → ℕ → Option ℕ
raw_close opened n =
    let marker = close_marker (take n opened) in
    Option.map (λ m. n + 1 + m + length marker) (find (drop (n + 1) opened) marker)

-- From the quote on: the end of the literal, counted from behind the quote.
raw_body : List ℕ → Option ℕ
unfolding raw_close
raw_body opened = elim (find opened (b'(' ∷ [])) [ none ↦ none | some n ↦ raw_close opened n ]

-- `styio_try_scan_raw_string_literal_end`
unfoldable pub raw_string_end : List ℕ → Option ℕ
unfolding raw_prefix raw_body
raw_string_end text =
    let prefix = raw_prefix text in
    if prefix == 0
    then none
    else if not (next_is text prefix b'"')
    then none
    else Option.map (λ n. prefix + 1 + n) (raw_body (drop (prefix + 1) text))

pub data Mode : Type 0 where
  normal line_comment block_comment string_literal char_literal : Mode

-- The variables of the loop of `styio_scan_native_extern_body_end`. `skip` counts the bytes that
-- the position has already passed.
pub record Scanner : Type 0 where
  pub mode : Mode
  pub escaped : Bool
  pub brace_depth : ℕ
  pub skip : ℕ

abbrev pub scanner : Scanner
scanner = record { mode = normal; escaped = false; brace_depth = 1; skip = 0 }

abbrev in_quotes : ℕ → Scanner → ℕ → Scanner
in_quotes quote s ch =
    if s.escaped
    then record s { escaped = false }
    else if ch == b'\\'
    then record s { escaped = true }
    else if ch == quote
    then record s { mode = normal }
    else s

-- The round in mode `Normal` behind the test for a raw string; `none` returns the position.
abbrev step_plain : Scanner → ℕ → List ℕ → Option Scanner
step_plain s ch rest =
    if ch == b'/' && next_is rest 0 b'/'
    then some (record s { mode = line_comment; skip = 1 })
    else if ch == b'/' && next_is rest 0 b'*'
    then some (record s { mode = block_comment; skip = 1 })
    else if ch == b'"'
    then some (record s { mode = string_literal; escaped = false })
    else if ch == b'\''
    then some (record s { mode = char_literal; escaped = false })
    else if ch == b'{'
    then some (record s { brace_depth = s.brace_depth + 1 })
    else if ch == b'}'
    then (if s.brace_depth - 1 == 0
        then none
        else some (record s { brace_depth = s.brace_depth - 1 }))
    else some s

abbrev step_normal : Scanner → ℕ → List ℕ → Option ℕ → Option Scanner
step_normal s ch rest (some end) = some (record s { skip = end - 1 })
step_normal s ch rest none = step_plain s ch rest

abbrev step_mode : Mode → Scanner → ℕ → List ℕ → Option Scanner
step_mode normal s ch rest = step_normal s ch rest (raw_string_end (ch ∷ rest))
step_mode line_comment s ch rest =
    some (if ch == b'\n' || ch == b'\r' then record s { mode = normal } else s)
step_mode block_comment s ch rest =
    some (if ch == b'*' && next_is rest 0 b'/' then record s { mode = normal; skip = 1 } else s)
step_mode string_literal s ch rest = some (in_quotes b'"' s ch)
step_mode char_literal s ch rest = some (in_quotes b'\'' s ch)

-- One round of the loop, at the byte `ch` with `rest` behind it.
unfoldable pub step_scanner : Scanner → ℕ → List ℕ → Option Scanner
unfolding raw_string_end
step_scanner s ch rest = step_mode s.mode s ch rest

-- `styio_scan_native_extern_body_end`: how many bytes the body has; `none` throws.
unfoldable pub scan_body_end : Scanner → List ℕ → Option ℕ
unfolding step_scanner
scan_body_end s [] = none
scan_body_end s (ch ∷ rest) = elim (ltb 0 s.skip) [
  | true ↦ Option.map suc (scan_body_end (record s { skip = s.skip - 1 }) rest)
  | false ↦ elim (step_scanner s ch rest) [
    | none ↦ some 0
    | some s' ↦ Option.map suc (scan_body_end s' rest)
  ]
]
