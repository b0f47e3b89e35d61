-- ===== src/TextBuffer/Lines.antt =====
-- The lines of src/StyioIDE/Common.cpp: `build_line_seps` against the line starts, and where
-- `offset_at` may lead.
use styio.Prelude.{
  ℕ, zero, suc, ◌+◌, ◌-◌, ◌≤◌, ◌≡◌, refl, ap, ◌∙◌, Bool, true, false, not, List, [], ◌∷◌, ◌++◌, map,
  length, get_or, ◌==◌, if◌then◌else◌, arith, Bool-cases, ==_iff, subst, inl, inr,
}
use styio.TextBuffer.{
  Position, line_starts_from, rebuild_line_starts, reset, min, offset_at, LineSep, ends_open,
  line_seps_from, build_line_seps,
}

-- The offset behind a line's last byte and its line feed.
abbrev pub behind : LineSep → ℕ
behind sep = sep.start + sep.len + 1

-- Whether the text ends in a line that has no line feed, with `len` bytes of that line before it.
abbrev open_after : ℕ → List ℕ → Bool
open_after len [] = not (len == 0)
open_after len (c ∷ text) = ends_open (c ∷ text)

open_after-feed : (text : List ℕ) → ends_open (b'\n' ∷ text) ≡ open_after 0 text
open_after-feed [] = refl
open_after-feed (c ∷ text) = refl

open_after-start : (text : List ℕ) → ends_open text ≡ open_after 0 text
open_after-start [] = refl
open_after-start (c ∷ text) = refl

open_after-byte :
    (c : ℕ) (len : ℕ) (text : List ℕ)
    → (c == b'\n') ≡ false
    → ends_open (c ∷ text) ≡ open_after (len + 1) text
open_after-byte c len [] h = ground arith
open_after-byte c len (d ∷ text) h = refl

starts_lem :
    (last : Bool) (s len i : ℕ) (text : List ℕ)
    → s + len ≡ i
    → last ≡ open_after len text
    → s ∷ line_starts_from i text
      ≡ map (λ sep. sep.start) (line_seps_from last s len text)
        ++ (if last then [] else (i + length text) ∷ [])
unfolding line_starts_from line_seps_from
starts_lem true s len i [] h e = refl
starts_lem false s len i [] h e = let at_end : s ≡ i + 0 = ground arith in ap (λ n. n ∷ []) at_end
starts_lem last s len i (c ∷ text) h e =
    let along : i + suc (length text) ≡ suc i + length text = omega arith in
    elim (Bool-cases (c == b'\n')) [
      | inl n ↦
          let at_next : s + (len + 1) ≡ suc i = omega arith in
          let ends : last ≡ open_after 0 text =
            e ∙ ap (λ b. ends_open (b ∷ text)) ((==_iff c b'\n').0 n) ∙ open_after-feed text in
          rw n (
            rw along
              (rw at_next (ap (◌∷◌ s) (starts_lem last (suc i) 0 (suc i) text (omega arith) ends))))
      | inr n ↦ rw n (
          rw along (
            starts_lem last s (len + 1) (suc i) text (omega arith)
              (e ∙ open_after-byte c len text n)))
    ]

ends_lem :
    (last : Bool) (s len i : ℕ) (text : List ℕ)
    → s + len ≡ i
    → map behind (line_seps_from last s len text)
      ≡ line_starts_from i text ++ (if last then (i + length text + 1) ∷ [] else [])
unfolding line_starts_from line_seps_from
ends_lem true s len i [] h = ap (λ n. n ∷ []) (omega arith)
ends_lem false s len i [] h = refl
ends_lem last s len i (c ∷ text) h =
    let along : i + suc (length text) ≡ suc i + length text = omega arith in
    elim (Bool-cases (c == b'\n')) [
      | inl n ↦
          let at_next : s + (len + 1) ≡ suc i = omega arith in
          let feed : s + len + 1 ≡ suc i = omega arith in
          rw n (
            rw along (
              rw at_next
                (rw feed (ap (◌∷◌ (suc i)) (ends_lem last (suc i) 0 (suc i) text (omega arith))))))
      | inr n ↦ rw n (rw along (ends_lem last s (len + 1) (suc i) text (omega arith)))
    ]

-- The starts of `build_line_seps`, with the text's end behind them where the text is empty or ends
-- with a line feed, are the line starts of the buffer; and the offsets behind the lines' line
-- feeds are the line starts but the first, with one past the text's end behind them where the last
-- line has no line feed.
pub build_line_seps_lem :
    (text : List ℕ)
    → ((rebuild_line_starts text
        ≡ map (λ sep. sep.start) (build_line_seps (reset text))
          ++ (if ends_open text then [] else length text ∷ [])))
      × (map behind (build_line_seps (reset text))
          ≡ line_starts_from 0 text ++ (if ends_open text then (length text + 1) ∷ [] else []))
build_line_seps_lem text =
    let from_zero : 0 + length text ≡ length text = omega arith in
    let starts = starts_lem (ends_open text) 0 0 0 text (omega arith) (open_after-start text) in
    let ends = ends_lem (ends_open text) 0 0 0 text (omega arith) in
    (
      subst
          (λ n.
            rebuild_line_starts text
            ≡ map (λ sep. sep.start) (build_line_seps (reset text))
              ++ (if ends_open text then [] else n ∷ []))
          from_zero starts,
      subst
          (λ n.
            map behind (build_line_seps (reset text))
            ≡ line_starts_from 0 text ++ (if ends_open text then (n + 1) ∷ [] else []))
          from_zero ends,
    )

line_start_bound :
    (i k : ℕ) (text : List ℕ) → get_or (line_starts_from i text) k 0 ≤ i + length text
unfolding line_starts_from
line_start_bound i k [] = omega arith
line_start_bound i zero (c ∷ text) = ground (arith, line_start_bound (suc i) zero text)
line_start_bound i (suc k) (c ∷ text) =
    ground (arith, line_start_bound (suc i) k text, line_start_bound (suc i) (suc k) text)

start_bound : (k : ℕ) (text : List ℕ) → get_or (rebuild_line_starts text) k 0 ≤ length text
start_bound zero text = omega arith
start_bound (suc k) text = omega (arith, line_start_bound 0 k text)

-- Any position leads to an offset that is not behind the text.
pub offset_at_bound :
    (text : List ℕ) (position : Position) → offset_at (reset text) position ≤ length text
offset_at_bound text position = ground (
  arith,
  start_bound (min position.line (length (rebuild_line_starts text) - 1)) text,
  start_bound (min position.line (length (rebuild_line_starts text) - 1) + 1) text,
)
