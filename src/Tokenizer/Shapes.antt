-- ===== src/Tokenizer/Shapes.antt =====
-- The tokens of src/StyioParser/Tokenizer.cpp have the texts that belong to their types.
use mathlib.Core.Bool.{true≢false}
use mathlib.Core.List.{reverse-append}
use styio.Prelude.Texts.{same_text, same_text→≡}
use styio.Prelude.{
  ℕ, zero, suc, ◌+◌, ◌≡◌, refl, sym, ap, ◌∙◌, subst, Bool, true, not, ◌&&◌, ◌||◌, some, List, [],
  ◌∷◌, ◌++◌, length, take, drop, reverse, get_elem?, leb, ◌==◌, ==_iff, if_cases, Option-cases, inl,
  inr, take-add, arith,
}
use styio.Prelude.Scan.{codes, next_is, starts_with, count_while, find, take-count_while-All}
use styio.Unicode.{is_digit, is_identifier_start, is_identifier_continue}
use styio.Token.{tok_eof, Token, token}
use styio.Token.Shape.{Shape, Word, Digits}
use styio.Tokenizer.{
  Outcome, LexError, ok, lex_error, out_of_fuel, Pushed, one_token, is_line_end, scan_line_comment,
  scan_block_comment, scan_identifier, scan_number, scan_fraction, scan_string, scan_native,
  scan_lcurbrac, scan_switch, scan_round, digit_at, push_all, tokenize_from, tokenize,
}
use styio.Tokenizer.Native.{recent_tokens_open_native_extern_body, scanner, scan_body_end}
use styio.Tokenizer.Operators.{Lexeme}
use styio.Tokenizer.Operators.Shapes.{HasShape, scan_operator-HasShape}
use styio.Tokenizer.Lossless.{Lossless, lossless, tokenize-Lossless, after, tokenize_from-suc}

abbrev pub AllShaped : List Token → Type 0
AllShaped [] = Unit
AllShaped (t ∷ ts) = Shape t.kind t.original × AllShaped ts

-- What a round promises: tokens with the texts of their types, or an error.
pub data Shaped : Outcome Pushed → Type 0 where
  shaped : {p : Pushed} → AllShaped p.0 → Shaped (ok p)
  failed : {e : LexError} → Shaped (lex_error e)

one : {l : Lexeme} → HasShape l → Shaped (one_token l)
one h = shaped (h.shape, tt)

word :
    (first more : ℕ → Bool) (c : ℕ) (cs : List ℕ)
    → first c ≡ true
    → Word first more (take (1 + count_while more cs) (c ∷ cs))
word first more c cs h =
    let width : 1 + count_while more cs ≡ suc (count_while more cs) = omega arith in
    rw width (h, take-count_while-All more cs)

both : (a b : Bool) → (a && b) ≡ true → (a ≡ true) × (b ≡ true)
both a b h = ground arith

drop-get_elem? :
    (text : List ℕ) (n c : ℕ) → get_elem? text n ≡ some c → drop n text ≡ c ∷ drop (n + 1) text
drop-get_elem? [] n c h = ground arith
drop-get_elem? (x ∷ text) zero c h = ground arith
drop-get_elem? (x ∷ text) (suc n) c h =
    let step : suc n + 1 ≡ suc (n + 1) = omega arith in rw step (drop-get_elem? text n c h)

next_is→≡ : (text : List ℕ) (n b : ℕ) → next_is text n b ≡ true → get_elem? text n ≡ some b
next_is→≡ text n b h = elim (Option-cases (get_elem? text n)) [
  | inl e ↦ absurd (ground arith)
  | inr (c, e) ↦ e ∙ ap some ((==_iff c b).0 (ground arith))
]

underscore : same_text (codes "_") (codes "_") ≡ true
unfolding same_text
underscore = refl

digit_there :
    (text : List ℕ) (k : ℕ)
    → digit_at text k ≡ true
    → (d : ℕ) × (get_elem? text k ≡ some d) × (is_digit d ≡ true)
digit_there text k h = elim (Option-cases (get_elem? text k)) [
  | inl e ↦ absurd (ground arith)
  | inr (d, e) ↦ (d, e, ground arith)
]

-- A text that is split at a point.
split_at_point :
    (text : List ℕ) (n m : ℕ)
    → get_elem? text n ≡ some b'.'
    → take (n + 1 + m) text ≡ take n text ++ (b'.' ∷ take m (drop (n + 1) text))
split_at_point text n m h =
    let width : n + 1 + m ≡ n + suc m = omega arith in
    rw width (
      take-add n (suc m) text
      ∙ ap (λ x. take n text ++ take (suc m) x) (drop-get_elem? text n b'.' h))

-- The digits behind the point.
part-Digits :
    (text : List ℕ) (n d : ℕ)
    → get_elem? text (n + 1) ≡ some d
    → is_digit d ≡ true
    → Digits (take (1 + count_while is_digit (drop (n + 2) text)) (drop (n + 1) text))
part-Digits text n d h e =
    let further : n + 1 + 1 ≡ n + 2 = omega arith in
    let rest : drop (n + 1) text ≡ d ∷ drop (n + 2) text =
      drop-get_elem? text (n + 1) d h ∙ ap (λ k. d ∷ drop k text) further in
    rw rest (word is_digit is_digit d (drop (n + 2) text) e)

identifier-HasShape :
    (c : ℕ) (cs : List ℕ) → is_identifier_start c ≡ true → HasShape (scan_identifier (c ∷ cs))
unfolding scan_identifier
identifier-HasShape c cs h =
    let literal = take (1 + count_while is_identifier_continue cs) (c ∷ cs) in
    if_cases HasShape (same_text literal (codes "_"))
      (λ e. record { shape = same_text→≡ literal (codes "_") e })
      (λ e. record {
        shape = (
          word is_identifier_start is_identifier_continue c cs h,
          λ q. true≢false (sym (ap (λ x. same_text x (codes "_")) q ∙ underscore) ∙ e),
        );
      })

number-HasShape : (c : ℕ) (cs : List ℕ) → is_digit c ≡ true → HasShape (scan_number (c ∷ cs))
unfolding scan_number scan_fraction
number-HasShape c cs h =
    let text : List ℕ = c ∷ cs in
    let n = 1 + count_while is_digit cs in
    let m = count_while is_digit (drop (n + 2) text) in
    if_cases HasShape (next_is text n b'.' && digit_at text (n + 1))
      (λ e.
        let (point, digit) = both (next_is text n b'.') (digit_at text (n + 1)) e in
        let (d, at, is) = digit_there text (n + 1) digit in
        record {
          shape = (
            take n text,
            take (1 + m) (drop (n + 1) text),
            split_at_point text n (1 + m) (next_is→≡ text n b'.' point),
            word is_digit is_digit c cs h,
            part-Digits text n d at is,
          );
        })
      (λ _. record { shape = word is_digit is_digit c cs h })

string-Shaped : (loc : ℕ) (text : List ℕ) → Shaped (scan_string loc text)
unfolding scan_string
string-Shaped loc text =
    let body = drop 1 text in
    let n = count_while (λ c. not (c == b'"')) body in
    if_cases Shaped (leb (length body) n) (λ _. failed)
      (λ _.
        one (record {
          shape = (take n body, refl, take-count_while-All (λ c. not (c == b'"')) body);
        }))

line_comment-HasShape : (text : List ℕ) → HasShape (scan_line_comment text)
unfolding scan_line_comment is_line_end
line_comment-HasShape text =
    let p : ℕ → Bool = λ c. not (is_line_end c) in
    record {
      shape = (
        take (count_while p (drop 2 text)) (drop 2 text),
        refl,
        take-count_while-All p (drop 2 text),
      );
    }

block_comment-Shaped : (loc : ℕ) (text : List ℕ) → Shaped (scan_block_comment loc text)
unfolding scan_block_comment
block_comment-Shaped loc text = elim (Option-cases (find (drop 2 text) (codes "*/"))) [
  | inl e ↦ rw (e, scan_block_comment) failed
  | inr (n, e) ↦ rw (e, scan_block_comment) (one (record { shape = (take n (drop 2 text), refl) }))
]

native-Shaped : (loc : ℕ) (text : List ℕ) → Shaped (scan_native loc text)
unfolding scan_native
native-Shaped loc text = elim (Option-cases (scan_body_end scanner (drop 1 text))) [
  | inl e ↦ rw (e, scan_native) failed
  | inr (n, e) ↦ rw (e, scan_native) (shaped (refl, (tt, (refl, tt))))
]

round-Shaped :
    (tokens : List Token) (loc c : ℕ) (cs : List ℕ) → Shaped (scan_round tokens loc c (c ∷ cs))
unfolding scan_round scan_switch scan_lcurbrac
round-Shaped tokens loc c cs =
    let text : List ℕ = c ∷ cs in
    if_cases Shaped (c == b' ' || (c == 9 || (c == 11 || c == 12)))
      (λ e. one (record { shape = (c, refl, e) }))
      (λ _.
        if_cases Shaped (c == b'\n') (λ _. one (record { shape = refl }))
          (λ _.
            if_cases Shaped (c == b'\r') (λ _. one (record { shape = refl }))
              (λ _.
                if_cases Shaped (starts_with text (codes "//"))
                  (λ _. one (line_comment-HasShape text))
                  (λ _.
                    if_cases Shaped (starts_with text (codes "/*"))
                      (λ _. block_comment-Shaped loc text)
                      (λ _.
                        if_cases Shaped (is_identifier_start c)
                          (λ e. one (identifier-HasShape c cs e))
                          (λ _.
                            if_cases Shaped (is_digit c) (λ e. one (number-HasShape c cs e))
                              (λ _.
                                if_cases Shaped (c == b'"') (λ _. string-Shaped loc text)
                                  (λ _.
                                    if_cases Shaped (c == b'{')
                                      (λ _.
                                        if_cases Shaped
                                          (recent_tokens_open_native_extern_body tokens)
                                          (λ _. native-Shaped loc text)
                                          (λ _. one (record { shape = refl })))
                                      (λ _. one (scan_operator-HasShape c text))))))))))

AllShaped-append : (ts us : List Token) → AllShaped ts → AllShaped us → AllShaped (ts ++ us)
AllShaped-append [] us h k = k
AllShaped-append (t ∷ ts) us h k = (h.0, AllShaped-append ts us h.1 k)

AllShaped-reverse : (ts : List Token) → AllShaped ts → AllShaped (reverse ts)
AllShaped-reverse [] h = tt
AllShaped-reverse (t ∷ ts) h =
    subst AllShaped (sym (reverse-append (t ∷ []) ts))
      (AllShaped-append (reverse ts) (t ∷ []) (AllShaped-reverse ts h.1) (h.0, tt))

AllShaped-push_all :
    (tokens ts : List Token) → AllShaped tokens → AllShaped ts → AllShaped (push_all tokens ts)
AllShaped-push_all tokens [] h k = h
AllShaped-push_all tokens (t ∷ ts) h k = AllShaped-push_all (t ∷ tokens) ts (k.0, h) k.1

-- Tokens with the texts of their types and the end of the file behind them, or an error.
pub data WellShaped : Outcome (List Token) → Type 0 where
  tokens_then_eof : (ts : List Token) → AllShaped ts → WellShaped (ok (ts ++ token tok_eof [] ∷ []))
  refused : {e : LexError} → WellShaped (lex_error e)
  stopped : WellShaped out_of_fuel

after-WellShaped :
    (fuel : ℕ) (tokens : List Token) (loc : ℕ) (text : List ℕ) {r : Outcome Pushed}
    → AllShaped tokens
    → ((p : Pushed)
        → AllShaped (push_all tokens p.0)
        → WellShaped (tokenize_from fuel (push_all tokens p.0) (loc + p.1) (drop p.1 text)))
    → Shaped r
    → WellShaped (after fuel tokens loc text r)
after-WellShaped fuel tokens loc text h ih (shaped {p} s) = ih p (AllShaped-push_all tokens p.0 h s)
after-WellShaped fuel tokens loc text h ih failed = refused

from-WellShaped :
    (fuel : ℕ) (tokens : List Token) (loc : ℕ) (text : List ℕ)
    → AllShaped tokens
    → WellShaped (tokenize_from fuel tokens loc text)
from-WellShaped fuel tokens loc [] h =
    unfold tokenize_from in
    (subst (λ ts. WellShaped (ok ts)) (sym (reverse-append (token tok_eof [] ∷ []) tokens))
      (tokens_then_eof (reverse tokens) (AllShaped-reverse tokens h)))
from-WellShaped zero tokens loc (c ∷ cs) h = unfold tokenize_from in stopped
from-WellShaped (suc fuel) tokens loc (c ∷ cs) h = rw (tokenize_from-suc fuel tokens loc c cs) (
    after-WellShaped fuel tokens loc (c ∷ cs) h
      (λ p k. from-WellShaped fuel (push_all tokens p.0) (loc + p.1) (drop p.1 (c ∷ cs)) k)
      (round-Shaped tokens loc c cs))

abbrev Ends : Outcome (List Token) → Type 0
Ends (ok ts) = Unit
Ends (lex_error e) = Unit
Ends out_of_fuel = ⊥

Lossless-Ends : (code : List ℕ) {o : Outcome (List Token)} → Lossless code o → Ends o
Lossless-Ends code (lossless h) = tt
Lossless-Ends code Lossless.refused = tt

-- What the tokenizer makes of a source.
pub data Lexed : Outcome (List Token) → Type 0 where
  lexed : (ts : List Token) → AllShaped ts → Lexed (ok (ts ++ token tok_eof [] ∷ []))
  not_lexed : {e : LexError} → Lexed (lex_error e)

Lexed-Ends : {o : Outcome (List Token)} → Ends o → WellShaped o → Lexed o
Lexed-Ends h (tokens_then_eof ts s) = lexed ts s
Lexed-Ends h refused = not_lexed
Lexed-Ends h stopped = absurd h

-- Every source is refused by a lexical error, or read into tokens that each have a text that the
-- tokenizer takes for their type, none of them the end of the file, and one token for the end of the
-- file behind them. A string literal has no quote inside, an ellipsis two dots or more, and a single
-- separating line two dashes or more.
pub tokenize-Lexed : (code : List ℕ) → Lexed (tokenize code)
unfolding tokenize
tokenize-Lexed code =
    Lexed-Ends (Lossless-Ends code (tokenize-Lossless code))
      (from-WellShaped (length code) [] 0 code tt)
