-- ===== src/ParserLookahead/Targets.antt =====
-- The look-ahead of src/StyioParser/ParserLookahead.cpp finds the first token that is not trivia.
use styio.Prelude.{
  ℕ, zero, suc, ◌+◌, ◌≡◌, refl, ap, ◌∙◌, sym, false, Option, none, some, List, [], ◌∷◌, get_elem?,
  drop, if◌then◌else◌, ◌||◌, Bool, arith, Bool-cases, inl, inr,
}
use styio.Token.{
  TokenType, Token, same_type, tok_space, tok_lf, tok_cr, comment_line, comment_closed,
}
use styio.ParserLookahead.{is_trivia_token, skip_from, try_check_non_trivia}

-- Blanks, line ends and both kinds of comment, by the names of the types.
abbrev pub is_blank : TokenType → Bool
is_blank kind =
    same_type kind tok_space
    || same_type kind tok_lf
    || same_type kind tok_cr
    || same_type kind comment_line
    || same_type kind comment_closed

-- The first token that is neither blank, line end nor comment.
unfoldable pub first_non_trivia : List Token → Option Token
first_non_trivia [] = none
first_non_trivia (t ∷ tokens) =
    let later = first_non_trivia tokens in if is_blank t.kind then later else some t

is_trivia_token-is_blank : (kind : TokenType) → is_trivia_token kind ≡ is_blank kind
unfolding is_trivia_token
is_trivia_token-is_blank kind = ground arith

get_elem?-drop :
    (n k : ℕ) (tokens : List Token) → get_elem? (drop n tokens) k ≡ get_elem? tokens (n + k)
get_elem?-drop zero k tokens = ap (get_elem? tokens) (omega arith)
get_elem?-drop (suc n) k [] = refl
get_elem?-drop (suc n) k (t ∷ tokens) =
    let step : suc n + k ≡ suc (n + k) = omega arith in rw step (get_elem?-drop n k tokens)

skip_from_lem :
    (n : ℕ) (tokens : List Token)
    → (k : ℕ) × (skip_from n tokens ≡ n + k) × (get_elem? tokens k ≡ first_non_trivia tokens)
unfolding skip_from first_non_trivia
skip_from_lem n [] = (0, omega arith, refl)
skip_from_lem n (t ∷ tokens) = elim (Bool-cases (is_blank t.kind)) [
  | inl e ↦
      let (k, at, found) = skip_from_lem (n + 1) tokens in
      rw (is_trivia_token-is_blank t.kind, e) (suc k, at ∙ omega arith, found)
  | inr e ↦ rw (is_trivia_token-is_blank t.kind, e) (0, omega arith, refl)
]

-- The check holds where there is a token from the index on that is neither blank, line end nor
-- comment, and the first such token is of the target's type; it fails where there is none, or where
-- the first is of another.
pub try_check_non_trivia_lem :
    (tokens : List Token) (index : ℕ) (target : TokenType)
    → try_check_non_trivia tokens index target ≡ (elim (first_non_trivia (drop index tokens)) [
      | none ↦ false
      | some t ↦ same_type t.kind target
    ])
try_check_non_trivia_lem tokens index target =
    let (k, at, found) = skip_from_lem index (drop index tokens) in
    let read = sym (get_elem?-drop index k tokens) ∙ found in
    rw (try_check_non_trivia, at, read) refl
