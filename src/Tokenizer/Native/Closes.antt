-- ===== src/Tokenizer/Native/Closes.antt =====
-- The scanner of native blocks (src/StyioParser/Tokenizer.cpp) stops at a closing brace.
use mathlib.Core.Option
use styio.Prelude.{
  ℕ, suc, ◌+◌, ◌-◌, ◌<◌, ◌≡◌, refl, ap, Option, none, some, List, [], ◌∷◌, ◌++◌, length, take, ltb,
  Bool-cases, Option-cases, inl, inr, arith,
}
use styio.Tokenizer.Native.{
  raw_string_end, Mode, normal, line_comment, block_comment, string_literal, char_literal,
  step_plain, step_mode, step_scanner, Scanner, scan_body_end,
}

-- The position `n` of `text` holds the closing brace.
abbrev pub Closes : ℕ → List ℕ → Type 0
Closes n text = (n < length text) × (take (n + 1) text ≡ take n text ++ b'}' ∷ [])

Closes-suc : (c : ℕ) (rest : List ℕ) (m : ℕ) → Closes m rest → Closes (suc m) (c ∷ rest)
Closes-suc c rest m h =
    let step : suc m + 1 ≡ suc (m + 1) = omega arith in (omega arith, rw step (ap (◌∷◌ c) h.1))

step_plain-none : (s : Scanner) (c : ℕ) (rest : List ℕ) → step_plain s c rest ≡ none → c ≡ b'}'
step_plain-none s c rest h = ground arith

step_mode-none :
    (m : Mode) (s : Scanner) (c : ℕ) (rest : List ℕ) → step_mode m s c rest ≡ none → c ≡ b'}'
step_mode-none normal s c rest h = elim (Option-cases (raw_string_end (c ∷ rest))) [
  | inl e ↦ step_plain-none s c rest (rw e at h)
  | inr (n, e) ↦ absurd (cc (rw e at h))
]
step_mode-none line_comment s c rest h = cc
step_mode-none block_comment s c rest h = cc
step_mode-none string_literal s c rest h = cc
step_mode-none char_literal s c rest h = cc

step_scanner-none : (s : Scanner) (c : ℕ) (rest : List ℕ) → step_scanner s c rest ≡ none → c ≡ b'}'
unfolding step_scanner
step_scanner-none s c rest h = step_mode-none s.mode s c rest h

map-suc : (o : Option ℕ) (n : ℕ) → Option.map suc o ≡ some n → (m : ℕ) × (o ≡ some m) × (n ≡ suc m)
map-suc none n h = absurd (cc h)
map-suc (some m) n h = (m, refl, ground arith)

Closes-map :
    (c : ℕ) (rest : List ℕ) (o : Option ℕ) (n : ℕ)
    → ((m : ℕ) → o ≡ some m → Closes m rest)
    → Option.map suc o ≡ some n
    → Closes n (c ∷ rest)
Closes-map c rest o n ih h = let (m, e, k) = map-suc o n h in rw k (Closes-suc c rest m (ih m e))

-- Where the body of a native block ends, its closing brace stands.
pub scan_body_end-Closes :
    (text : List ℕ) (s : Scanner) (n : ℕ) → scan_body_end s text ≡ some n → Closes n text
unfolding scan_body_end
scan_body_end-Closes [] s n h = absurd (ground arith)
scan_body_end-Closes (c ∷ rest) s n h = elim (Bool-cases (ltb 0 s.skip)) [
  | inl jumped ↦
      Closes-map c rest _ n (scan_body_end-Closes rest (record s { skip = s.skip - 1 }))
        (rw (jumped, scan_body_end) at h)
  | inr here ↦ elim (Option-cases (step_scanner s c rest)) [
    | inl e ↦
        let brace = step_scanner-none s c rest e in
        let found : 0 ≡ n = cc (rw (here, e, scan_body_end) at h) in
        rw (← found) (omega arith, ap (λ x. x ∷ []) brace)
    | inr (s', e) ↦
        Closes-map c rest _ n (scan_body_end-Closes rest s') (rw (here, e, scan_body_end) at h)
  ]
]
