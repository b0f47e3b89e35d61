-- ===== src/Tokenizer/Operators/Takes.antt =====
-- The operators that src/StyioParser/Tokenizer.cpp reads: the literal of each token is what the
-- position moves over, and it moves over at least one byte.
use styio.Prelude.{
  ℕ, suc, ◌+◌, ◌≤◌, ◌<◌, ◌≡◌, refl, ap, Bool, true, false, ◌&&◌, List, [], ◌∷◌, length, take,
  replicate, ◌==◌, if◌then◌else◌, ==_iff, Bool-cases, inl, inr, arith,
}
use styio.Prelude.Scan.{next_is, count_while, count_while-le, take-count_while-replicate}
use styio.Token.{TokenType}
use styio.Tokenizer.Operators.{
  Lexeme, lexeme, count_consecutive, scan_exclam, scan_percent, scan_amp, scan_star, scan_plus,
  scan_slash, scan_colon, scan_quest, scan_lboxbrac, scan_tilde, scan_minus, scan_dot,
  scan_langbrac, scan_equal, scan_rangbrac, scan_pipe, scan_single,
}

-- The literal is the text that the position moves over.
pub record Takes (text : List ℕ) (l : Lexeme) : Type 0 where
  pub exact : l.literal ≡ take l.width text
  pub moves : 0 < l.width
  pub fits : l.width ≤ length text

-- a run of one character
run_one :
    (kind : TokenType) (b : ℕ) (cs : List ℕ)
    → let n = 1 + count_while (λ c. c == b) cs in Takes (b ∷ cs) (lexeme kind (replicate n b) n)
run_one kind b cs =
    let k = count_while (λ c. c == b) cs in
    let step : 1 + k ≡ suc k = omega arith in
    rw step (record {
      exact = ap (◌∷◌ b) (take-count_while-replicate b cs);
      moves = omega arith;
      fits = omega (arith, count_while-le (λ c. c == b) cs);
    })

run_two :
    (kind : TokenType) (b : ℕ) (cs : List ℕ)
    → let n = 2 + count_while (λ c. c == b) cs in Takes (b ∷ b ∷ cs) (lexeme kind (replicate n b) n)
run_two kind b cs =
    let k = count_while (λ c. c == b) cs in
    let step : 2 + k ≡ suc (suc k) = omega arith in
    rw step (record {
      exact = ap (λ l. b ∷ b ∷ l) (take-count_while-replicate b cs);
      moves = omega arith;
      fits = omega (arith, count_while-le (λ c. c == b) cs);
    })

fixed_one : (kind : TokenType) (a : ℕ) (cs : List ℕ) → Takes (a ∷ cs) (lexeme kind (a ∷ []) 1)
fixed_one kind a cs = record { exact = refl; moves = omega arith; fits = omega arith }

fixed_two :
    (kind : TokenType) (a b : ℕ) (cs : List ℕ)
    → next_is (a ∷ cs) 1 b ≡ true
    → Takes (a ∷ cs) (lexeme kind (a ∷ b ∷ []) 2)
fixed_two kind a b [] h = absurd (ground arith)
fixed_two kind a b (c ∷ cs) h = record {
  exact = ground arith;
  moves = omega arith;
  fits = omega arith;
}

fixed_three :
    (kind : TokenType) (a b d : ℕ) (cs : List ℕ)
    → (next_is (a ∷ cs) 1 b && next_is (a ∷ cs) 2 d) ≡ true
    → Takes (a ∷ cs) (lexeme kind (a ∷ b ∷ d ∷ []) 3)
fixed_three kind a b d [] h = absurd (ground arith)
fixed_three kind a b d (c ∷ []) h = absurd (ground arith)
fixed_three kind a b d (c ∷ e ∷ cs) h = record {
  exact = ground arith;
  moves = omega arith;
  fits = omega arith;
}

-- A test and its two branches.
pub branch :
    (text : List ℕ) (b : Bool) {x y : Lexeme}
    → (b ≡ true → Takes text x)
    → (b ≡ false → Takes text y)
    → Takes text (if b then x else y)
branch text true p q = p refl
branch text false p q = q refl

pub scan_exclam-Takes : (cs : List ℕ) → Takes (b'!' ∷ cs) (scan_exclam (b'!' ∷ cs))
unfolding scan_exclam
scan_exclam-Takes cs = branch _ _ (λ h. fixed_two _ _ b'=' cs h) (λ _. fixed_one _ _ cs)

pub scan_percent-Takes : (cs : List ℕ) → Takes (b'%' ∷ cs) (scan_percent (b'%' ∷ cs))
unfolding scan_percent
scan_percent-Takes cs = branch _ _ (λ h. fixed_two _ _ b'=' cs h) (λ _. fixed_one _ _ cs)

pub scan_amp-Takes : (cs : List ℕ) → Takes (b'&' ∷ cs) (scan_amp (b'&' ∷ cs))
unfolding scan_amp
scan_amp-Takes cs = branch _ _ (λ h. fixed_two _ _ b'&' cs h) (λ _. fixed_one _ _ cs)

pub scan_star-Takes : (cs : List ℕ) → Takes (b'*' ∷ cs) (scan_star (b'*' ∷ cs))
unfolding scan_star
scan_star-Takes cs =
    branch _ _ (λ h. fixed_two _ _ b'*' cs h)
      (λ _. branch _ _ (λ h. fixed_two _ _ b'=' cs h) (λ _. fixed_one _ _ cs))

pub scan_plus-Takes : (cs : List ℕ) → Takes (b'+' ∷ cs) (scan_plus (b'+' ∷ cs))
unfolding scan_plus
scan_plus-Takes cs = branch _ _ (λ h. fixed_two _ _ b'=' cs h) (λ _. fixed_one _ _ cs)

pub scan_slash-Takes : (cs : List ℕ) → Takes (b'/' ∷ cs) (scan_slash (b'/' ∷ cs))
unfolding scan_slash
scan_slash-Takes cs = branch _ _ (λ h. fixed_two _ _ b'=' cs h) (λ _. fixed_one _ _ cs)

pub scan_colon-Takes : (cs : List ℕ) → Takes (b':' ∷ cs) (scan_colon (b':' ∷ cs))
unfolding scan_colon
scan_colon-Takes cs = branch _ _ (λ h. fixed_two _ _ b'=' cs h) (λ _. fixed_one _ _ cs)

pub scan_quest-Takes : (cs : List ℕ) → Takes (b'?' ∷ cs) (scan_quest (b'?' ∷ cs))
unfolding scan_quest
scan_quest-Takes cs =
    branch _ _ (λ h. fixed_two _ _ b'|' cs h)
      (λ _.
        branch _ _ (λ h. fixed_two _ _ b'=' cs h)
          (λ _. branch _ _ (λ h. fixed_two _ _ b'?' cs h) (λ _. fixed_one _ _ cs)))

pub scan_lboxbrac-Takes : (cs : List ℕ) → Takes (b'[' ∷ cs) (scan_lboxbrac (b'[' ∷ cs))
unfolding scan_lboxbrac
scan_lboxbrac-Takes cs = branch _ _ (λ h. fixed_two _ _ b'|' cs h) (λ _. fixed_one _ _ cs)

pub scan_tilde-Takes : (cs : List ℕ) → Takes (b'~' ∷ cs) (scan_tilde (b'~' ∷ cs))
unfolding scan_tilde
scan_tilde-Takes cs = branch _ _ (λ h. fixed_two _ _ b'>' cs h) (λ _. fixed_one _ _ cs)

-- a run of a character that stands at the next place too
run_next :
    (kind : TokenType) (b : ℕ) (cs : List ℕ)
    → next_is (b ∷ cs) 1 b ≡ true
    → let n = 2 + count_consecutive (b ∷ cs) 2 b in Takes (b ∷ cs) (lexeme kind (replicate n b) n)
unfolding count_consecutive
run_next kind b [] h = absurd (ground arith)
run_next kind b (c ∷ cs) h = let e = (==_iff c b).0 h in rw e (run_two kind b cs)

pub scan_minus-Takes : (cs : List ℕ) → Takes (b'-' ∷ cs) (scan_minus (b'-' ∷ cs))
unfolding scan_minus
scan_minus-Takes cs =
    branch _ _ (λ h. fixed_two _ _ b'>' cs h)
      (λ _.
        branch _ _ (λ h. run_next _ b'-' cs h)
          (λ _. branch _ _ (λ h. fixed_two _ _ b'=' cs h) (λ _. fixed_one _ _ cs)))

-- a run of one character that was counted to be short
short_run :
    (kind : TokenType) (b n : ℕ) (cs : List ℕ)
    → (n == 1) ≡ true
    → Takes (b ∷ cs) (lexeme kind (b ∷ []) n)
short_run kind b n cs h = rw ((==_iff n 1).0 h) (fixed_one kind b cs)

pub scan_dot-Takes : (cs : List ℕ) → Takes (b'.' ∷ cs) (scan_dot (b'.' ∷ cs))
unfolding scan_dot
scan_dot-Takes cs =
    branch _ (1 + count_consecutive (b'.' ∷ cs) 1 b'.' == 1) (λ h. short_run _ b'.' _ cs h)
      (λ _. run_one _ b'.' cs)

pub scan_langbrac-Takes : (cs : List ℕ) → Takes (b'<' ∷ cs) (scan_langbrac (b'<' ∷ cs))
unfolding scan_langbrac
scan_langbrac-Takes cs =
    branch _ (1 + count_consecutive (b'<' ∷ cs) 1 b'<' == 1)
      (λ _.
        branch _ _ (λ h. fixed_two _ _ b'~' cs h)
          (λ _.
            branch _ _ (λ h. fixed_two _ _ b'=' cs h)
              (λ _.
                branch _ _ (λ h. fixed_two _ _ b'|' cs h)
                  (λ _. branch _ _ (λ h. fixed_two _ _ b'-' cs h) (λ _. fixed_one _ _ cs)))))
      (λ _. run_one _ b'<' cs)

two_counted :
    (kind : TokenType) (b n : ℕ) (cs : List ℕ)
    → next_is (b ∷ cs) 1 b ≡ true
    → (n == 2) ≡ true
    → Takes (b ∷ cs) (lexeme kind (b ∷ b ∷ []) n)
two_counted kind b n cs h k = rw ((==_iff n 2).0 k) (fixed_two kind b b cs h)

pub scan_equal-Takes : (cs : List ℕ) → Takes (b'=' ∷ cs) (scan_equal (b'=' ∷ cs))
unfolding scan_equal
scan_equal-Takes cs =
    branch _ _ (λ h. fixed_two _ _ b'>' cs h)
      (λ _.
        branch _ _
          (λ h.
            branch _ (2 + count_consecutive (b'=' ∷ cs) 2 b'=' == 2)
              (λ k. two_counted _ b'=' _ cs h k) (λ _. run_next _ b'=' cs h))
          (λ _. fixed_one _ _ cs))

pub scan_rangbrac-Takes : (cs : List ℕ) → Takes (b'>' ∷ cs) (scan_rangbrac (b'>' ∷ cs))
unfolding scan_rangbrac
scan_rangbrac-Takes cs =
    branch _ _ (λ h. fixed_two _ _ b'_' cs h)
      (λ _.
        branch _ _ (λ h. run_next _ b'>' cs h)
          (λ _. branch _ _ (λ h. fixed_two _ _ b'=' cs h) (λ _. fixed_one _ _ cs)))

pub scan_pipe-Takes : (cs : List ℕ) → Takes (b'|' ∷ cs) (scan_pipe (b'|' ∷ cs))
unfolding scan_pipe
scan_pipe-Takes cs =
    branch _ _ (λ h. fixed_three _ _ b'<' b'|' cs h)
      (λ _.
        branch _ _ (λ h. fixed_three _ _ b'|' b'>' cs h)
          (λ _.
            branch _ _ (λ h. fixed_two _ _ b';' cs h)
              (λ _.
                branch _ _ (λ h. fixed_two _ _ b']' cs h)
                  (λ _. branch _ _ (λ h. fixed_two _ _ b'|' cs h) (λ _. fixed_one _ _ cs)))))

pub scan_single-Takes : (c : ℕ) (cs : List ℕ) → Takes (c ∷ cs) (scan_single c)
unfolding scan_single
scan_single-Takes c cs = fixed_one _ c cs

-- A case of the switch: the scanner of `k` at that character, and another way elsewhere.
pub at_char :
    (c k : ℕ) (cs : List ℕ) (scan : List ℕ → Lexeme) {y : Lexeme}
    → Takes (k ∷ cs) (scan (k ∷ cs))
    → Takes (c ∷ cs) y
    → Takes (c ∷ cs) (if c == k then scan (c ∷ cs) else y)
at_char c k cs scan p q = elim (Bool-cases (c == k)) [
  | inl h ↦ rw h (rw ((==_iff c k).0 h) p)
  | inr h ↦ rw h q
]
