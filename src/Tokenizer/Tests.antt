-- ===== src/Tokenizer/Tests.antt =====
-- Runs of the tokenizer of src/StyioParser/Tokenizer.cpp on concrete texts.
use styio.Prelude.{◌≡◌, refl, [], ◌∷◌}
use styio.Prelude.Texts.{same_text}
use styio.Prelude.Scan.{codes, count_while}
use styio.Token.{tok_eof, tok_space, name, decimal, string, walrus, extractor, token}
use styio.Tokenizer.{
  tokenize, ok, lex_error, unterminated_string, scan_round, scan_switch, scan_operator,
  scan_identifier, scan_number, scan_string,
}
use styio.Unicode.{is_identifier_start, is_identifier_continue}
use styio.Tokenizer.Lossless.{Lossless, tokenize-Lossless}
use styio.Tokenizer.Shapes.{Lexed, tokenize-Lexed}
use styio.Tokenizer.Operators.{scan_colon, scan_langbrac}

binding :
    tokenize (codes "x1 := 3.14<<\"a b\"")
    ≡ ok (
        token name (codes "x1")
        ∷ token tok_space (codes " ")
        ∷ token walrus (codes ":=")
        ∷ token tok_space (codes " ")
        ∷ token decimal (codes "3.14")
        ∷ token extractor (codes "<<")
        ∷ token string (codes "\"a b\"")
        ∷ token tok_eof []
        ∷ [])
unfolding tokenize scan_round scan_switch scan_operator scan_identifier scan_number scan_string
    scan_colon scan_langbrac is_identifier_start is_identifier_continue same_text
binding = refl

-- Positions: an unterminated string names the offset of its quote.
unterminated : tokenize (codes "a \"b") ≡ lex_error (unterminated_string 2)
unfolding tokenize scan_round scan_switch scan_identifier scan_string count_while
    is_identifier_start is_identifier_continue same_text
unterminated = refl

tokenize-Lossless_example :
    Lossless (codes "x1 := 3.14<<\"a b\"") (tokenize (codes "x1 := 3.14<<\"a b\""))
tokenize-Lossless_example = tokenize-Lossless (codes "x1 := 3.14<<\"a b\"")

tokenize-Lexed_example : Lexed (tokenize (codes "x1 := 3.14<<\"a b\""))
tokenize-Lexed_example = tokenize-Lexed (codes "x1 := 3.14<<\"a b\"")
