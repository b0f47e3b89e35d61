-- ===== src/RuntimeText/Lines.antt =====
-- What `styio_string_lines` of src/StyioExtern/ExternLib.cpp splits a text into.
use mathlib.Core.List.{append-nil, append_assoc}
use styio.Prelude.{
  ℕ, Bool, true, false, not, ◌&&◌, ◌||◌, List, [], ◌∷◌, ◌++◌, ◌==◌, ◌≡◌, ◌≢◌, ◌⊎◌, refl, sym, ap,
  ◌∙◌, subst, inl, inr, Bool-cases, ==_iff, arith, or_split,
}
use styio.Prelude.Scan.{next_is, All}
use styio.RuntimeText.{lines_from, string_lines}

-- A byte of a line.
abbrev pub inner : ℕ → Bool
inner ch = not (ch == b'\n' || ch == b'\r')

-- What ends a line, by what comes behind it: a line feed, a carriage return that no line feed
-- follows, or both.
pub data LineEnd (rest : List ℕ) : List ℕ → Type 0 where
  line_feed : LineEnd rest (b'\n' ∷ [])
  carriage_return : next_is rest 0 b'\n' ≡ false → LineEnd rest (b'\r' ∷ [])
  both : LineEnd rest (b'\r' ∷ b'\n' ∷ [])

-- The lines of a text: each is ended, but for a last one that is not empty.
pub data Splits : List ℕ → List (List ℕ) → Type 0 where
  no_line : Splits [] []
  last_line : (line : List ℕ) → line ≢ [] → All inner line → Splits line (line ∷ [])
  a_line :
      (line ending rest text : List ℕ) (lines : List (List ℕ))
      → All inner line
      → LineEnd rest ending
      → Splits rest lines
      → text ≡ line ++ (ending ++ rest)
      → Splits text (line ∷ lines)

-- What the loop knows: it has just ended a line, or there is something to put into the next one.
abbrev Open : List ℕ → Bool → List ℕ → Type 0
Open current ended text =
    ((ended ≡ true) × (current ≡ [])) ⊎ ((ended ≡ false) × (current ++ text ≢ []))

All-concat :
    (line : List ℕ) (ch : ℕ) → All inner line → inner ch ≡ true → All inner (line ++ ch ∷ [])
All-concat [] ch h p = (p, tt)
All-concat (c ∷ line) ch h p = (h.0, All-concat line ch h.1 p)

not_empty : (current : List ℕ) (ch : ℕ) (rest : List ℕ) → (current ++ ch ∷ []) ++ rest ≢ []
not_empty [] ch rest q = absurd (ground arith)
not_empty (c ∷ current) ch rest q = absurd (ground arith)

one_end :
    (ch : ℕ) (rest : List ℕ)
    → (ch == b'\n' || ch == b'\r') ≡ true
    → (ch == b'\r' && next_is rest 0 b'\n') ≡ false
    → LineEnd rest (ch ∷ [])
one_end ch rest p q = elim (or_split (ch == b'\n') p) [
  | inl e ↦ subst (λ c. LineEnd rest (c ∷ [])) (sym ((==_iff ch b'\n').0 e)) line_feed
  | inr e ↦
      subst (λ c. LineEnd rest (c ∷ [])) (sym ((==_iff ch b'\r').0 e))
        (carriage_return (ground arith))
]

two_bytes :
    (ch ch' : ℕ) (rest : List ℕ)
    → (ch == b'\r' && ch' == b'\n') ≡ true
    → ch ∷ ch' ∷ rest ≡ b'\r' ∷ b'\n' ∷ rest
two_bytes ch ch' rest q = ground arith

lines_from-Splits :
    (current : List ℕ) (ended : Bool) (text : List ℕ)
    → All inner current
    → Open current ended text
    → Splits (current ++ text) (lines_from false current ended text)
unfolding lines_from
lines_from-Splits current ended [] a (inl (e, c)) = rw (e, c) no_line
lines_from-Splits current ended [] a (inr (e, n)) =
    rw (e, append-nil current) (last_line current (λ q. n (append-nil current ∙ q)) a)
lines_from-Splits current ended (ch ∷ []) a o = elim (Bool-cases (ch == b'\n' || ch == b'\r')) [
  | inl p ↦ rw p (
      a_line current (ch ∷ []) [] (current ++ ch ∷ []) [] a (one_end ch [] p (ground arith)) no_line
        refl)
  | inr p ↦ rw p (
      subst (λ t. Splits t ((current ++ ch ∷ []) ∷ [])) (append_assoc current (ch ∷ []) [])
        (lines_from-Splits (current ++ ch ∷ []) false [] (All-concat current ch a (ground arith))
          (inr (refl, not_empty current ch []))))
]
lines_from-Splits current ended (ch ∷ ch' ∷ rest) a o =
    elim (Bool-cases (ch == b'\n' || ch == b'\r')) [
      | inl p ↦ elim (Bool-cases (ch == b'\r' && ch' == b'\n')) [
        | inl q ↦
            let more = lines_from-Splits [] true rest tt (inl (refl, refl)) in
            rw (p, q)
              (a_line current (b'\r' ∷ b'\n' ∷ []) rest (current ++ ch ∷ ch' ∷ rest)
                (lines_from false [] true rest) a both more
                (ap (λ t. current ++ t) (two_bytes ch ch' rest q)))
        | inr q ↦
            let more = lines_from-Splits [] true (ch' ∷ rest) tt (inl (refl, refl)) in
            rw (p, q)
              (a_line current (ch ∷ []) (ch' ∷ rest) (current ++ ch ∷ ch' ∷ rest)
                (lines_from false [] true (ch' ∷ rest)) a (one_end ch (ch' ∷ rest) p q) more refl)
      ]
      | inr p ↦
          rw (p, sym (append_assoc current (ch ∷ []) (ch' ∷ rest)))
            (lines_from-Splits (current ++ ch ∷ []) false (ch' ∷ rest)
              (All-concat current ch a (ground arith))
              (inr (refl, not_empty current ch (ch' ∷ rest))))
    ]

-- The lines are those of the text, with what ends each taken off.
pub string_lines-Splits : (text : List ℕ) → Splits text (string_lines text)
unfolding string_lines
string_lines-Splits [] = no_line
string_lines-Splits (ch ∷ rest) =
    lines_from-Splits [] false (ch ∷ rest) tt (inr (refl, λ q. absurd (ground arith)))
