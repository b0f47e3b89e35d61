-- ===== src/Tokenizer/Rounds.antt =====
-- One round of the tokenizer's loop (src/StyioParser/Tokenizer.cpp): the texts of the tokens that
-- it pushes, one behind the other, are what it moves over, and it moves over at least one byte.
use mathlib.Core.List.{append-nil}
use styio.Prelude.Texts.{same_text}
use styio.Prelude.{
  ℕ, suc, ◌+◌, ◌≤◌, ◌<◌, ◌≡◌, refl, sym, ap, subst, ◌||◌, ◌∙◌, Bool, true, false, not, ◌&&◌, List,
  [], ◌∷◌, ◌++◌, length, take, drop, get_elem?, leb, ◌==◌, if◌then◌else◌, ==_iff, Bool-cases,
  Option-cases, inl, inr, length-drop, take-add, get_elem?_bound, arith,
}
use styio.Prelude.Scan.{
  codes, next_is, starts_with, count_while, find, count_while-le, find_sound, take_stop,
  starts_with-take, starts_with-le,
}
use styio.Unicode.{is_digit, is_identifier_start, is_identifier_continue}
use styio.Token.{
  TokenType, tok_space, tok_lf, tok_cr, tok_lcurbrac, name, tok_undline, integer, decimal, Token,
}
use styio.Tokenizer.{
  Outcome, LexError, ok, lex_error, Pushed, one_token, is_line_end, scan_line_comment,
  scan_block_comment, scan_identifier, scan_number, scan_string, scan_native, scan_lcurbrac,
  scan_operator, scan_switch, scan_round, digit_at,
}
use styio.Tokenizer.Native.{recent_tokens_open_native_extern_body, scanner, scan_body_end}
use styio.Tokenizer.Operators.{
  Lexeme, lexeme, scan_exclam, scan_percent, scan_amp, scan_star, scan_plus, scan_minus, scan_dot,
  scan_slash, scan_colon, scan_langbrac, scan_equal, scan_rangbrac, scan_quest, scan_lboxbrac,
  scan_pipe, scan_tilde,
}
use styio.Tokenizer.Operators.Takes
use styio.Tokenizer.Native.Closes.{scan_body_end-Closes}

-- The texts of the tokens, one behind the other.
abbrev pub spelled : List Token → List ℕ
spelled [] = []
spelled (t ∷ ts) = t.original ++ spelled ts

-- The pushed tokens spell what the position moves over.
pub record Spells (text : List ℕ) (p : Pushed) : Type 0 where
  pub exact : spelled p.0 ≡ take p.1 text
  pub moves : 0 < p.1
  pub fits : p.1 ≤ length text

-- What a round promises: tokens that spell what it moves over, or a lexical error.
pub data Keeps (text : List ℕ) : Outcome Pushed → Type 0 where
  kept : {p : Pushed} → Spells text p → Keeps text (ok p)
  failed : {e : LexError} → Keeps text (lex_error e)

pub one_token-Keeps : (text : List ℕ) (l : Lexeme) → Takes.Takes text l → Keeps text (one_token l)
one_token-Keeps text l t =
    kept (record { exact = append-nil l.literal ∙ t.exact; moves = t.moves; fits = t.fits })

operator-Takes : (c : ℕ) (cs : List ℕ) → Takes.Takes (c ∷ cs) (scan_operator c (c ∷ cs))
unfolding scan_operator
operator-Takes c cs = Takes.at_char c b'!' cs scan_exclam (Takes.scan_exclam-Takes cs) (
    Takes.at_char c b'%' cs scan_percent (Takes.scan_percent-Takes cs) (
      Takes.at_char c b'&' cs scan_amp (Takes.scan_amp-Takes cs) (
        Takes.at_char c b'*' cs scan_star (Takes.scan_star-Takes cs) (
          Takes.at_char c b'+' cs scan_plus (Takes.scan_plus-Takes cs) (
            Takes.at_char c b'-' cs scan_minus (Takes.scan_minus-Takes cs) (
              Takes.at_char c b'.' cs scan_dot (Takes.scan_dot-Takes cs) (
                Takes.at_char c b'/' cs scan_slash (Takes.scan_slash-Takes cs) (
                  Takes.at_char c b':' cs scan_colon (Takes.scan_colon-Takes cs) (
                    Takes.at_char c b'<' cs scan_langbrac (Takes.scan_langbrac-Takes cs) (
                      Takes.at_char c b'=' cs scan_equal (Takes.scan_equal-Takes cs) (
                        Takes.at_char c b'>' cs scan_rangbrac (Takes.scan_rangbrac-Takes cs) (
                          Takes.at_char c b'?' cs scan_quest (Takes.scan_quest-Takes cs) (
                            Takes.at_char c b'[' cs scan_lboxbrac (Takes.scan_lboxbrac-Takes cs) (
                              Takes.at_char c b'|' cs scan_pipe (Takes.scan_pipe-Takes cs) (
                                Takes.at_char c b'~' cs scan_tilde (Takes.scan_tilde-Takes cs)
                                  (Takes.scan_single-Takes c cs))))))))))))))))

line_comment-Takes :
    (text : List ℕ)
    → starts_with text (codes "//") ≡ true
    → Takes.Takes text (scan_line_comment text)
unfolding scan_line_comment
line_comment-Takes text h = record {
  exact =
      let n = count_while (λ c. not (is_line_end c)) (drop 2 text) in
      ap (λ x. x ++ take n (drop 2 text)) (sym (starts_with-take text (codes "//") h))
      ∙ sym (take-add 2 n text);
  moves = omega arith;
  fits =
      let short = count_while-le (λ c. not (is_line_end c)) (drop 2 text) in
      omega (arith, short, length-drop 2 text, starts_with-le text (codes "//") h);
}

block_text :
    (text : List ℕ) (n : ℕ)
    → take 2 text ≡ codes "/*"
    → take 2 (drop n (drop 2 text)) ≡ codes "*/"
    → codes "/*" ++ (take n (drop 2 text) ++ codes "*/") ≡ take (2 + n + 2) text
block_text text n h k =
    let width : 2 + n + 2 ≡ 2 + (n + 2) = omega arith in
    let body = take n (drop 2 text) in
    ap (λ x. x ++ (body ++ codes "*/")) (sym h)
    ∙ ap (λ x. take 2 text ++ (body ++ x)) (sym k)
    ∙ ap (λ x. take 2 text ++ x) (sym (take-add n 2 (drop 2 text)))
    ∙ sym (take-add 2 (n + 2) text)
    ∙ ap (λ w. take w text) (sym width)

block_comment-Keeps :
    (loc : ℕ) (text : List ℕ)
    → starts_with text (codes "/*") ≡ true
    → Keeps text (scan_block_comment loc text)
unfolding scan_block_comment
block_comment-Keeps loc text h = elim (Option-cases (find (drop 2 text) (codes "*/"))) [
  | inl e ↦ rw (e, scan_block_comment) failed
  | inr (n, e) ↦
      let (inside, ends) = find_sound (drop 2 text) (codes "*/") n e in
      rw (e, scan_block_comment)
        (one_token-Keeps text _ (record {
          exact =
              block_text text n (starts_with-take text (codes "/*") h)
                (starts_with-take (drop n (drop 2 text)) (codes "*/") ends);
          moves = omega arith;
          fits = omega (arith, inside, length-drop 2 text, starts_with-le text (codes "/*") h);
        }))
]

prefix-Takes :
    (kind : TokenType) (n : ℕ) (text : List ℕ)
    → 0 < n
    → n ≤ length text
    → Takes.Takes text (lexeme kind (take n text) n)
prefix-Takes kind n text h k = record { exact = refl; moves = h; fits = k }

identifier-Takes : (c : ℕ) (cs : List ℕ) → Takes.Takes (c ∷ cs) (scan_identifier (c ∷ cs))
unfolding scan_identifier
identifier-Takes c cs =
    let n = 1 + count_while is_identifier_continue cs in
    let inside : n ≤ length (c ∷ cs) = omega (arith, count_while-le is_identifier_continue cs) in
    Takes.branch (c ∷ cs) (same_text (take n (c ∷ cs)) (codes "_"))
      (λ _. prefix-Takes tok_undline n (c ∷ cs) (omega arith) inside)
      (λ _. prefix-Takes name n (c ∷ cs) (omega arith) inside)

digit_at-lt : (text : List ℕ) (k : ℕ) → digit_at text k ≡ true → k < length text
digit_at-lt text k h = elim (Option-cases (get_elem? text k)) [
  | inl e ↦ absurd (ground arith)
  | inr (d, e) ↦ get_elem?_bound text k d e
]

number-Takes : (c : ℕ) (cs : List ℕ) → Takes.Takes (c ∷ cs) (scan_number (c ∷ cs))
unfolding scan_number
number-Takes c cs =
    let text : List ℕ = c ∷ cs in
    let n = 1 + count_while is_digit cs in
    let more = count_while is_digit (drop (n + 2) text) in
    let inside : n ≤ length text = omega (arith, count_while-le is_digit cs) in
    Takes.branch text (next_is text n b'.' && digit_at text (n + 1))
      (λ h.
        let digit = digit_at-lt text (n + 1) (ground arith) in
        prefix-Takes decimal (n + 1 + (1 + more)) text (omega arith)
          (omega (arith, count_while-le is_digit (drop (n + 2) text), length-drop (n + 2) text)))
      (λ _. prefix-Takes integer n text (omega arith) inside)

string-Keeps : (loc : ℕ) (cs : List ℕ) → Keeps (b'"' ∷ cs) (scan_string loc (b'"' ∷ cs))
unfolding scan_string
string-Keeps loc cs =
    let n = count_while (λ c. not (c == b'"')) cs in
    elim (Bool-cases (leb (length cs) n)) [
      | inl h ↦ rw h failed
      | inr h ↦
          let inside : n < length cs = ground arith in
          let width : 1 + n + 1 ≡ suc (n + 1) = omega arith in
          rw (h, width)
            (one_token-Keeps (b'"' ∷ cs) _ (record {
              exact = ap (◌∷◌ b'"') (sym (take_stop b'"' cs inside));
              moves = omega arith;
              fits = omega arith;
            }))
    ]

Keeps-if :
    (text : List ℕ) (b : Bool) {x y : Outcome Pushed}
    → (b ≡ true → Keeps text x)
    → (b ≡ false → Keeps text y)
    → Keeps text (if b then x else y)
Keeps-if text true p q = p refl
Keeps-if text false p q = q refl

Keeps-at :
    (c k : ℕ) (cs : List ℕ) (scan : List ℕ → Outcome Pushed)
    → (c == k) ≡ true
    → Keeps (k ∷ cs) (scan (k ∷ cs))
    → Keeps (c ∷ cs) (scan (c ∷ cs))
Keeps-at c k cs scan h p = subst (λ x. Keeps (x ∷ cs) (scan (x ∷ cs))) (sym ((==_iff c k).0 h)) p

native-Keeps : (loc : ℕ) (cs : List ℕ) → Keeps (b'{' ∷ cs) (scan_native loc (b'{' ∷ cs))
unfolding scan_native
native-Keeps loc cs = elim (Option-cases (scan_body_end scanner cs)) [
  | inl e ↦ rw (e, scan_native) failed
  | inr (n, e) ↦
      let (inside, brace) = scan_body_end-Closes cs scanner n e in
      let width : 1 + n + 1 ≡ suc (n + 1) = omega arith in
      rw (e, scan_native)
        (rw width (
          kept (record {
            exact = ap (◌∷◌ b'{') (sym brace);
            moves = omega arith;
            fits = omega arith;
          })))
]

lcurbrac-Keeps :
    (tokens : List Token) (loc : ℕ) (cs : List ℕ)
    → Keeps (b'{' ∷ cs) (scan_lcurbrac tokens loc (b'{' ∷ cs))
lcurbrac-Keeps tokens loc cs =
    unfold scan_lcurbrac in
    (Keeps-if (b'{' ∷ cs) (recent_tokens_open_native_extern_body tokens) (λ _. native-Keeps loc cs)
      (λ _.
        one_token-Keeps _ _ (prefix-Takes tok_lcurbrac 1 (b'{' ∷ cs) (omega arith) (omega arith))))

switch-Keeps :
    (tokens : List Token) (loc c : ℕ) (cs : List ℕ)
    → Keeps (c ∷ cs) (scan_switch tokens loc c (c ∷ cs))
unfolding scan_switch
switch-Keeps tokens loc c cs =
    Keeps-if (c ∷ cs) (c == b'"')
      (λ h. Keeps-at c b'"' cs (scan_string loc) h (string-Keeps loc cs))
      (λ _.
        Keeps-if (c ∷ cs) (c == b'{')
          (λ h. Keeps-at c b'{' cs (scan_lcurbrac tokens loc) h (lcurbrac-Keeps tokens loc cs))
          (λ _. one_token-Keeps (c ∷ cs) _ (operator-Takes c cs)))

char-Keeps :
    (kind : TokenType) (c k : ℕ) (cs : List ℕ)
    → (c == k) ≡ true
    → Keeps (c ∷ cs) (one_token (lexeme kind (k ∷ []) 1))
char-Keeps kind c k cs h = kept (record {
  exact = ap (λ x. x ∷ []) (sym ((==_iff c k).0 h));
  moves = omega arith;
  fits = omega arith;
})

pub round-Keeps :
    (tokens : List Token) (loc c : ℕ) (cs : List ℕ)
    → Keeps (c ∷ cs) (scan_round tokens loc c (c ∷ cs))
unfolding scan_round
round-Keeps tokens loc c cs =
    let text : List ℕ = c ∷ cs in
    Keeps-if text (c == b' ' || (c == 9 || (c == 11 || c == 12)))
      (λ _. one_token-Keeps _ _ (prefix-Takes tok_space 1 text (omega arith) (omega arith)))
      (λ _. Keeps-if text (c == b'\n') (char-Keeps tok_lf c b'\n' cs) (λ _.
        Keeps-if text (c == b'\r') (char-Keeps tok_cr c b'\r' cs) (λ _.
          Keeps-if text (starts_with text (codes "//"))
            (λ h. one_token-Keeps text _ (line_comment-Takes text h))
            (λ _. Keeps-if text (starts_with text (codes "/*")) (block_comment-Keeps loc text) (λ _.
              Keeps-if text (is_identifier_start c)
                (λ _. one_token-Keeps text _ (identifier-Takes c cs))
                (λ _.
                  Keeps-if text (is_digit c) (λ _. one_token-Keeps text _ (number-Takes c cs))
                    (λ _. switch-Keeps tokens loc c cs)))))))
