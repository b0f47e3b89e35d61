-- ===== src/Tokenizer/Operators/Shapes.antt =====
-- The operators that src/StyioParser/Tokenizer.cpp reads have the texts that belong to their types.
use styio.Prelude.{
  ℕ, ◌+◌, ◌-◌, ◌≡◌, refl, ap, false, List, [], ◌∷◌, replicate, ◌==◌, ==_iff, arith, if_cases, ◌&&◌,
}
use styio.Prelude.Scan.{next_is}
use styio.Token.{TokenType}
use styio.Token.Shape.{Shape, Run}
use styio.Tokenizer.{scan_operator}
use styio.Tokenizer.Operators.{
  Lexeme, lexeme, count_consecutive, scan_exclam, scan_percent, scan_amp, scan_star, scan_plus,
  scan_slash, scan_colon, scan_quest, scan_lboxbrac, scan_tilde, scan_minus, scan_dot,
  scan_langbrac, scan_equal, scan_rangbrac, scan_pipe, single_kind, scan_single,
}

pub record HasShape (l : Lexeme) : Type 0 where
  pub shape : Shape l.kind l.literal

scan_exclam-HasShape : (rest : List ℕ) → HasShape (scan_exclam rest)
unfolding scan_exclam
scan_exclam-HasShape rest =
    if_cases HasShape (next_is rest 1 b'=') (λ _. record { shape = refl })
      (λ _. record { shape = refl })

scan_percent-HasShape : (rest : List ℕ) → HasShape (scan_percent rest)
unfolding scan_percent
scan_percent-HasShape rest =
    if_cases HasShape (next_is rest 1 b'=') (λ _. record { shape = refl })
      (λ _. record { shape = refl })

scan_amp-HasShape : (rest : List ℕ) → HasShape (scan_amp rest)
unfolding scan_amp
scan_amp-HasShape rest =
    if_cases HasShape (next_is rest 1 b'&') (λ _. record { shape = refl })
      (λ _. record { shape = refl })

scan_star-HasShape : (rest : List ℕ) → HasShape (scan_star rest)
unfolding scan_star
scan_star-HasShape rest =
    if_cases HasShape (next_is rest 1 b'*') (λ _. record { shape = refl })
      (λ _.
        if_cases HasShape (next_is rest 1 b'=') (λ _. record { shape = refl })
          (λ _. record { shape = refl }))

scan_plus-HasShape : (rest : List ℕ) → HasShape (scan_plus rest)
unfolding scan_plus
scan_plus-HasShape rest =
    if_cases HasShape (next_is rest 1 b'=') (λ _. record { shape = refl })
      (λ _. record { shape = refl })

scan_slash-HasShape : (rest : List ℕ) → HasShape (scan_slash rest)
unfolding scan_slash
scan_slash-HasShape rest =
    if_cases HasShape (next_is rest 1 b'=') (λ _. record { shape = refl })
      (λ _. record { shape = refl })

scan_colon-HasShape : (rest : List ℕ) → HasShape (scan_colon rest)
unfolding scan_colon
scan_colon-HasShape rest =
    if_cases HasShape (next_is rest 1 b'=') (λ _. record { shape = refl })
      (λ _. record { shape = refl })

scan_quest-HasShape : (rest : List ℕ) → HasShape (scan_quest rest)
unfolding scan_quest
scan_quest-HasShape rest =
    if_cases HasShape (next_is rest 1 b'|') (λ _. record { shape = refl })
      (λ _.
        if_cases HasShape (next_is rest 1 b'=') (λ _. record { shape = refl })
          (λ _.
            if_cases HasShape (next_is rest 1 b'?') (λ _. record { shape = refl })
              (λ _. record { shape = refl })))

scan_lboxbrac-HasShape : (rest : List ℕ) → HasShape (scan_lboxbrac rest)
unfolding scan_lboxbrac
scan_lboxbrac-HasShape rest =
    if_cases HasShape (next_is rest 1 b'|') (λ _. record { shape = refl })
      (λ _. record { shape = refl })

scan_tilde-HasShape : (rest : List ℕ) → HasShape (scan_tilde rest)
unfolding scan_tilde
scan_tilde-HasShape rest =
    if_cases HasShape (next_is rest 1 b'>') (λ _. record { shape = refl })
      (λ _. record { shape = refl })

scan_minus-HasShape : (rest : List ℕ) → HasShape (scan_minus rest)
unfolding scan_minus
scan_minus-HasShape rest =
    if_cases HasShape (next_is rest 1 b'>') (λ _. record { shape = refl })
      (λ _.
        if_cases HasShape (next_is rest 1 b'-')
          (λ _. record { shape = (count_consecutive rest 2 b'-', refl) })
          (λ _.
            if_cases HasShape (next_is rest 1 b'=') (λ _. record { shape = refl })
              (λ _. record { shape = refl })))

-- A count that is not the least it can be.
longer : (k m b : ℕ) → (k + m == k) ≡ false → Run (k + 1) b (replicate (k + m) b)
longer k m b h =
    let more : k + m ≡ k + 1 + (m - 1) = ground arith in (m - 1, ap (λ n. replicate n b) more)

scan_dot-HasShape : (rest : List ℕ) → HasShape (scan_dot rest)
unfolding scan_dot
scan_dot-HasShape rest =
    if_cases HasShape (1 + count_consecutive rest 1 b'.' == 1) (λ _. record { shape = refl })
      (λ h. record { shape = longer 1 (count_consecutive rest 1 b'.') b'.' h })

scan_langbrac-HasShape : (rest : List ℕ) → HasShape (scan_langbrac rest)
unfolding scan_langbrac
scan_langbrac-HasShape rest =
    if_cases HasShape (1 + count_consecutive rest 1 b'<' == 1)
      (λ _.
        if_cases HasShape (next_is rest 1 b'~') (λ _. record { shape = refl })
          (λ _.
            if_cases HasShape (next_is rest 1 b'=') (λ _. record { shape = refl })
              (λ _.
                if_cases HasShape (next_is rest 1 b'|') (λ _. record { shape = refl })
                  (λ _.
                    if_cases HasShape (next_is rest 1 b'-') (λ _. record { shape = refl })
                      (λ _. record { shape = refl })))))
      (λ h. record { shape = longer 1 (count_consecutive rest 1 b'<') b'<' h })

scan_equal-HasShape : (rest : List ℕ) → HasShape (scan_equal rest)
unfolding scan_equal
scan_equal-HasShape rest =
    if_cases HasShape (next_is rest 1 b'>') (λ _. record { shape = refl })
      (λ _.
        if_cases HasShape (next_is rest 1 b'=')
          (λ _.
            if_cases HasShape (2 + count_consecutive rest 2 b'=' == 2)
              (λ _. record { shape = refl })
              (λ h. record { shape = longer 2 (count_consecutive rest 2 b'=') b'=' h }))
          (λ _. record { shape = refl }))

scan_rangbrac-HasShape : (rest : List ℕ) → HasShape (scan_rangbrac rest)
unfolding scan_rangbrac
scan_rangbrac-HasShape rest =
    if_cases HasShape (next_is rest 1 b'_') (λ _. record { shape = refl })
      (λ _.
        if_cases HasShape (next_is rest 1 b'>')
          (λ _. record { shape = (count_consecutive rest 2 b'>', refl) })
          (λ _.
            if_cases HasShape (next_is rest 1 b'=') (λ _. record { shape = refl })
              (λ _. record { shape = refl })))

scan_pipe-HasShape : (rest : List ℕ) → HasShape (scan_pipe rest)
unfolding scan_pipe
scan_pipe-HasShape rest =
    if_cases HasShape (next_is rest 1 b'<' && next_is rest 2 b'|') (λ _. record { shape = refl })
      (λ _.
        if_cases HasShape (next_is rest 1 b'|' && next_is rest 2 b'>')
          (λ _. record { shape = refl })
          (λ _.
            if_cases HasShape (next_is rest 1 b';') (λ _. record { shape = refl })
              (λ _.
                if_cases HasShape (next_is rest 1 b']') (λ _. record { shape = refl })
                  (λ _.
                    if_cases HasShape (next_is rest 1 b'|') (λ _. record { shape = refl })
                      (λ _. record { shape = refl })))))

scan_single-HasShape : (c : ℕ) → HasShape (scan_single c)
unfolding scan_single single_kind
scan_single-HasShape c =
    let P = λ (kind : TokenType). HasShape (lexeme kind (c ∷ []) 1) in
    if_cases P (c == b'#') (λ e. record { shape = ap (λ x. x ∷ []) ((==_iff c b'#').0 e) })
      (λ _.
        if_cases P (c == b'$') (λ e. record { shape = ap (λ x. x ∷ []) ((==_iff c b'$').0 e) })
          (λ _.
            if_cases P (c == b'\'')
              (λ e. record { shape = ap (λ x. x ∷ []) ((==_iff c b'\'').0 e) })
              (λ _.
                if_cases P (c == b'(')
                  (λ e. record { shape = ap (λ x. x ∷ []) ((==_iff c b'(').0 e) })
                  (λ _.
                    if_cases P (c == b')')
                      (λ e. record { shape = ap (λ x. x ∷ []) ((==_iff c b')').0 e) })
                      (λ _.
                        if_cases P (c == b',')
                          (λ e. record { shape = ap (λ x. x ∷ []) ((==_iff c b',').0 e) })
                          (λ _.
                            if_cases P (c == b';')
                              (λ e. record { shape = ap (λ x. x ∷ []) ((==_iff c b';').0 e) })
                              (λ _.
                                if_cases P (c == b'@')
                                  (λ e. record { shape = ap (λ x. x ∷ []) ((==_iff c b'@').0 e) })
                                  (λ _.
                                    if_cases P (c == b'\\')
                                      (λ e. record {
                                        shape = ap (λ x. x ∷ []) ((==_iff c b'\\').0 e);
                                      })
                                      (λ _.
                                        if_cases P (c == b']')
                                          (λ e. record {
                                            shape = ap (λ x. x ∷ []) ((==_iff c b']').0 e);
                                          })
                                          (λ _.
                                            if_cases P (c == b'^')
                                              (λ e. record {
                                                shape = ap (λ x. x ∷ []) ((==_iff c b'^').0 e);
                                              })
                                              (λ _.
                                                if_cases P (c == b'_')
                                                  (λ e. record {
                                                    shape = ap (λ x. x ∷ []) ((==_iff c b'_').0 e);
                                                  })
                                                  (λ _.
                                                    if_cases P (c == b'`')
                                                      (λ e. record {
                                                        shape =
                                                            ap (λ x. x ∷ []) ((==_iff c b'`').0 e);
                                                      })
                                                      (λ _.
                                                        if_cases P (c == b'}')
                                                          (λ e. record {
                                                            shape =
                                                            ap (λ x. x ∷ []) ((==_iff c b'}').0 e);
                                                          })
                                                          (λ _. record {
                                                            shape = (c, refl);
                                                          }))))))))))))))

pub scan_operator-HasShape : (c : ℕ) (rest : List ℕ) → HasShape (scan_operator c rest)
unfolding scan_operator
scan_operator-HasShape c rest =
    if_cases HasShape (c == b'!') (λ _. scan_exclam-HasShape rest)
      (λ _.
        if_cases HasShape (c == b'%') (λ _. scan_percent-HasShape rest)
          (λ _.
            if_cases HasShape (c == b'&') (λ _. scan_amp-HasShape rest)
              (λ _.
                if_cases HasShape (c == b'*') (λ _. scan_star-HasShape rest)
                  (λ _.
                    if_cases HasShape (c == b'+') (λ _. scan_plus-HasShape rest)
                      (λ _.
                        if_cases HasShape (c == b'-') (λ _. scan_minus-HasShape rest)
                          (λ _.
                            if_cases HasShape (c == b'.') (λ _. scan_dot-HasShape rest)
                              (λ _.
                                if_cases HasShape (c == b'/') (λ _. scan_slash-HasShape rest)
                                  (λ _.
                                    if_cases HasShape (c == b':') (λ _. scan_colon-HasShape rest)
                                      (λ _.
                                        if_cases HasShape (c == b'<')
                                          (λ _. scan_langbrac-HasShape rest)
                                          (λ _.
                                            if_cases HasShape (c == b'=')
                                              (λ _. scan_equal-HasShape rest)
                                              (λ _.
                                                if_cases HasShape (c == b'>')
                                                  (λ _. scan_rangbrac-HasShape rest)
                                                  (λ _.
                                                    if_cases HasShape (c == b'?')
                                                      (λ _. scan_quest-HasShape rest)
                                                      (λ _.
                                                        if_cases HasShape (c == b'[')
                                                          (λ _. scan_lboxbrac-HasShape rest)
                                                          (λ _.
                                                            if_cases HasShape (c == b'|')
                                                            (λ _. scan_pipe-HasShape rest)
                                                            (λ _.
                                                            if_cases HasShape (c == b'~')
                                                            (λ _. scan_tilde-HasShape rest)
                                                            (λ _.
                                                            scan_single-HasShape c))))))))))))))))
