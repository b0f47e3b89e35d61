-- ===== src/TextBuffer/Tests.antt =====
-- The buffer of src/StyioIDE/Common.cpp on concrete texts.
use styio.Prelude.{ℕ, ◌+◌, ◌≤◌, ◌≡◌, refl, List, [], ◌∷◌, ◌++◌, map, length, if◌then◌else◌}
use styio.Prelude.Scan.{codes}
use styio.TextBuffer.{
  reset, rebuild_line_starts, line_starts_from, position_at, offset_at, clamp, build_line_seps,
  ends_open,
}
use styio.TextBuffer.Positions.{walk, position_at-walk, offset_at-position_at}
use styio.TextBuffer.Lines.{behind, build_line_seps_lem, offset_at_bound}

-- "ab", a line feed, "c", a line feed, "de"
abbrev three_lines : List ℕ
three_lines = codes "ab" ++ (b'\n' ∷ (codes "c" ++ (b'\n' ∷ codes "de")))

starts_of_three_lines : rebuild_line_starts three_lines ≡ 0 ∷ 3 ∷ 5 ∷ []
unfolding line_starts_from
starts_of_three_lines = refl

-- A character behind a line's end leads to the start of the next line.
behind_the_line : offset_at (reset three_lines) (record { line = 0; character = 9 }) ≡ 3
unfolding line_starts_from
behind_the_line = refl

position_at-walk_example : position_at (reset three_lines) 4 ≡ walk 0 0 4 three_lines
position_at-walk_example = position_at-walk three_lines 4

offset_at-position_at_example :
    offset_at (reset three_lines) (position_at (reset three_lines) 6) ≡ clamp (length three_lines) 6
offset_at-position_at_example = offset_at-position_at three_lines 6

build_line_seps_example :
    (rebuild_line_starts three_lines
      ≡ map (λ sep. sep.start) (build_line_seps (reset three_lines))
        ++ (if ends_open three_lines then [] else length three_lines ∷ []))
    × (map behind (build_line_seps (reset three_lines))
        ≡ line_starts_from 0 three_lines
          ++ (if ends_open three_lines then (length three_lines + 1) ∷ [] else []))
build_line_seps_example = build_line_seps_lem three_lines

offset_at_bound_example :
    offset_at (reset three_lines) (record { line = 7; character = 9 }) ≤ length three_lines
offset_at_bound_example = offset_at_bound three_lines (record { line = 7; character = 9 })
