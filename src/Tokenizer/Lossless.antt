-- ===== src/Tokenizer/Lossless.antt =====
-- The tokenizer of src/StyioParser/Tokenizer.cpp loses nothing and always ends: the texts of the
-- tokens, one behind the other, are the source.
use mathlib.Core.List.{append-nil, append_assoc, reverse-append}
use styio.Prelude.{
  ℕ, zero, suc, ◌+◌, ◌≤◌, ◌≡◌, refl, sym, ap, ◌∙◌, List, [], ◌∷◌, ◌++◌, length, take, drop, reverse,
  length-drop, take-append-drop, arith,
}
use styio.Token.{tok_eof, Token, token}
use styio.Tokenizer.{
  Outcome, LexError, ok, lex_error, out_of_fuel, Pushed, scan_round, push_all, tokenize_from,
  tokenize,
}
use styio.Tokenizer.Rounds.{spelled, Spells, Keeps, kept, failed, round-Keeps}

-- The source's text, from tokens held with the last one first.
abbrev spelled_back : List Token → List ℕ
spelled_back [] = []
spelled_back (t ∷ ts) = spelled_back ts ++ t.original

spelled-append : (ts us : List Token) → spelled (ts ++ us) ≡ spelled ts ++ spelled us
spelled-append [] us = refl
spelled-append (t ∷ ts) us =
    ap (λ x. t.original ++ x) (spelled-append ts us)
    ∙ sym (append_assoc t.original (spelled ts) (spelled us))

spelled-reverse : (ts : List Token) → spelled (reverse ts) ≡ spelled_back ts
spelled-reverse [] = refl
spelled-reverse (t ∷ ts) =
    ap spelled (reverse-append (t ∷ []) ts)
    ∙ spelled-append (reverse ts) (t ∷ [])
    ∙ ap (λ x. x ++ (t.original ++ [])) (spelled-reverse ts)
    ∙ ap (λ x. spelled_back ts ++ x) (append-nil t.original)

spelled_back-push_all :
    (tokens ts : List Token) → spelled_back (push_all tokens ts) ≡ spelled_back tokens ++ spelled ts
spelled_back-push_all tokens [] = sym (append-nil (spelled_back tokens))
spelled_back-push_all tokens (t ∷ ts) =
    spelled_back-push_all (t ∷ tokens) ts
    ∙ append_assoc (spelled_back tokens) t.original (spelled ts)

-- The source `code` was read into tokens that spell it, or refused.
pub data Lossless (code : List ℕ) : Outcome (List Token) → Type 0 where
  lossless : {ts : List Token} → spelled ts ≡ code → Lossless code (ok ts)
  refused : {e : LexError} → Lossless code (lex_error e)

Lossless-eq :
    {code code' : List ℕ} {o : Outcome (List Token)}
    → code ≡ code'
    → Lossless code o
    → Lossless code' o
Lossless-eq e (lossless h) = lossless (h ∙ e)
Lossless-eq e refused = refused

abbrev pub after : ℕ → List Token → ℕ → List ℕ → Outcome Pushed → Outcome (List Token)
after fuel tokens loc text (ok p) =
    tokenize_from fuel (push_all tokens p.0) (loc + p.1) (drop p.1 text)
after fuel tokens loc text (lex_error e) = lex_error e
after fuel tokens loc text out_of_fuel = out_of_fuel

pub tokenize_from-suc :
    (fuel : ℕ) (tokens : List Token) (loc c : ℕ) (cs : List ℕ)
    → tokenize_from (suc fuel) tokens loc (c ∷ cs)
      ≡ after fuel tokens loc (c ∷ cs) (scan_round tokens loc c (c ∷ cs))
unfolding tokenize_from
tokenize_from-suc fuel tokens loc c cs = cases (scan_round tokens loc c (c ∷ cs)) refl
  where
    cases :
        (r : Outcome Pushed)
        → scan_round tokens loc c (c ∷ cs) ≡ r
        → tokenize_from (suc fuel) tokens loc (c ∷ cs) ≡ after fuel tokens loc (c ∷ cs) r
    cases (ok p) e = rw (e, tokenize_from) refl
    cases (lex_error x) e = rw (e, tokenize_from) refl
    cases out_of_fuel e = rw (e, tokenize_from) refl

-- What was spelled before a round and in it, and what is left behind it.
rejoin :
    (tokens : List Token) (text : List ℕ) (p : Pushed)
    → Spells text p
    → spelled_back (push_all tokens p.0) ++ drop p.1 text ≡ spelled_back tokens ++ text
rejoin tokens text p s =
    ap (λ x. x ++ drop p.1 text)
      (spelled_back-push_all tokens p.0 ∙ ap (λ x. spelled_back tokens ++ x) s.exact)
    ∙ append_assoc (spelled_back tokens) (take p.1 text) (drop p.1 text)
    ∙ ap (λ x. spelled_back tokens ++ x) (take-append-drop p.1 text)

after-Lossless :
    (fuel : ℕ) (tokens : List Token) (loc : ℕ) (text : List ℕ) {r : Outcome Pushed}
    → ((p : Pushed)
        → Spells text p
        → Lossless
            (spelled_back (push_all tokens p.0) ++ drop p.1 text)
            (tokenize_from fuel (push_all tokens p.0) (loc + p.1) (drop p.1 text)))
    → Keeps text r
    → Lossless (spelled_back tokens ++ text) (after fuel tokens loc text r)
after-Lossless fuel tokens loc text ih (kept {p} s) = Lossless-eq (rejoin tokens text p s) (ih p s)
after-Lossless fuel tokens loc text ih failed = refused

from-Lossless :
    (fuel : ℕ) (tokens : List Token) (loc : ℕ) (text : List ℕ)
    → length text ≤ fuel
    → Lossless (spelled_back tokens ++ text) (tokenize_from fuel tokens loc text)
from-Lossless fuel tokens loc [] h =
    unfold tokenize_from in (lossless (spelled-reverse (token tok_eof [] ∷ tokens)))
from-Lossless zero tokens loc (c ∷ cs) h = absurd (omega arith)
from-Lossless (suc fuel) tokens loc (c ∷ cs) h = rw (tokenize_from-suc fuel tokens loc c cs) (
    after-Lossless fuel tokens loc (c ∷ cs)
      (λ p s.
        from-Lossless fuel (push_all tokens p.0) (loc + p.1) (drop p.1 (c ∷ cs))
          (omega (arith, length-drop p.1 (c ∷ cs), s.moves)))
      (round-Keeps tokens loc c cs))

-- Every source is read into tokens whose texts, one behind the other, are the source, or it is
-- refused by a lexical error: the loop always ends.
pub tokenize-Lossless : (code : List ℕ) → Lossless code (tokenize code)
unfolding tokenize
tokenize-Lossless code = from-Lossless (length code) [] 0 code (omega arith)
