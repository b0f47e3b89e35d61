-- ===== src/IrOptimizer/Tests.antt =====
-- Runs of the passes on the intermediate representation, and their theorems at one machine.
use mathlib.Core.Logic.{◌↔◌}
use styio.Prelude.{
  ℕ, ◌+◌, Bool, true, false, some, List, [], ◌∷◌, ◌==◌, ◌≡◌, ◌⊎◌, refl, arith, if◌then◌else◌,
}
use styio.Prelude.Scan.{codes}
use styio.Prelude.Texts.{same_text}
use styio.IrOptimizer.{
  Ir, Arms, res_id, const_int, list_len, flex_bind, block, match_on, visited, main_entry, end, stmt,
  no_arm, arm,
}
use styio.IrOptimizer.Analysis.{
  ir_expr_equiv, ir_expr_is_speculatable, ir_expr_has_no_runtime_effects,
  stmt_is_rebind_hoist_transparent,
}
use styio.IrOptimizer.Analysis.Plain.{plain}
use styio.IrOptimizer.Analysis.Complete.{ir_expr_equiv-plain}
use styio.IrOptimizer.Rebind.{
  find_repeated_default_rebind, find_from, prior_conflict, prefix_writes_name, suffix_mentions_name,
  stmts_of, collect_expr_reads, has_name, expr_reads_name, stmt_writes_name, stmt_reads_name,
  stmt_writes_any,
}
use styio.IrOptimizer.Passes.{canonicalize_match_in_sequence, canonicalize_from, optimize, erase_at}
use styio.IrOptimizer.Meaning.{Machine, put, value_of, effect, arm_effect}
use styio.IrOptimizer.Hoist.{AllSimple, BindsSimple}
use styio.IrOptimizer.Hoist.Canonical.{
  has_arm, canonicalize_match-effect, canonicalize_match-default,
}

-- Nodes that have one address here: none.
abbrev apart : Ir → Ir → Bool
apart a b = false

apart_sound : (a b : Ir) → apart a b ≡ true → a ≡ b
apart_sound a b h = absurd (ground arith)

abbrev latest : List ℕ → Ir
latest name = res_id name false 0

abbrev bind_of : List ℕ → Ir → Ir
bind_of name value = flex_bind (some name) value

abbrev shown : List ℕ → Ir
shown name = visited 0 (stmt (latest name) end)

-- The default arm binds `y` to the one, and then `x` to the length that is matched.
abbrev default_arm : Ir
default_arm = block (
    stmt (bind_of (codes "y") (const_int (codes "1") 64)) (
      stmt (bind_of (codes "x") (list_len (latest (codes "l"))))
        (stmt (bind_of (codes "z") (latest (codes "x"))) end)))

abbrev arms : Arms
arms = arm 3 (block (stmt (shown (codes "l")) end)) no_arm

abbrev repeated : Ir
repeated = match_on (list_len (latest (codes "l"))) arms default_arm 0

bind_is_moved :
    optimize apart (main_entry (stmt repeated end))
    ≡ main_entry (
        stmt
          (block (
            stmt (bind_of (codes "x") (list_len (latest (codes "l")))) (
              stmt
                (match_on
                  (latest (codes "x"))
                  arms
                  (block (
                    stmt
                      (bind_of (codes "y") (const_int (codes "1") 64))
                      (stmt (bind_of (codes "z") (latest (codes "x"))) end)))
                  0)
                end)))
          end)
unfolding optimize canonicalize_from canonicalize_match_in_sequence find_repeated_default_rebind
    find_from prior_conflict prefix_writes_name suffix_mentions_name collect_expr_reads has_name
    expr_reads_name stmt_writes_name stmt_reads_name stmt_writes_any ir_expr_equiv
    ir_expr_is_speculatable ir_expr_has_no_runtime_effects stmt_is_rebind_hoist_transparent erase_at
    same_text
bind_is_moved = refl

name_written_before_blocks_it :
    canonicalize_match_in_sequence apart
      (bind_of (codes "x") (const_int (codes "0") 64) ∷ [])
      end
      (list_len (latest (codes "l")))
      arms
      default_arm
      0
    ≡ repeated
unfolding canonicalize_match_in_sequence find_repeated_default_rebind find_from prior_conflict
    prefix_writes_name suffix_mentions_name collect_expr_reads has_name expr_reads_name
    stmt_writes_name stmt_reads_name stmt_writes_any ir_expr_equiv ir_expr_is_speculatable
    ir_expr_has_no_runtime_effects stmt_is_rebind_hoist_transparent erase_at same_text
name_written_before_blocks_it = refl

-- A machine whose values are numbers; a variable holds one of them.
abbrev numbers : Machine ℕ
numbers = record {
  read = λ history offset value. value;
  write = λ held value. value;
  load = λ kind value. value;
  bool_of = λ b. if b then 1 else 0;
  int_of = λ text bits. bits;
  float_of = λ text. 0;
  string_of = λ text. 0;
  cast_of = λ from to. 0;
  operate = λ op type lhs rhs a b. a + b;
  compare_by = λ op a b. if a == b then 1 else 0;
  length_of = λ list. list + 1;
  size_of = λ dict. dict;
  item_of = λ elem list index. list + index;
  entry_of = λ elem dict key. dict + key;
  cell_of = λ elem matrix row col. matrix + (row + col);
  row_of = λ elem matrix row. matrix + row;
  number = λ value. value;
  other_value = λ ir env. 0;
  run = λ ir env. env;
}

abbrev start : List ℕ → ℕ
start name = if same_text name (codes "l") then 2 else 0

default_arm-AllSimple : AllSimple (stmts_of default_arm)
unfolding BindsSimple
default_arm-AllSimple = (tt, ((refl, refl), ((refl, refl), tt)))

canonicalize_match-effect_example :
    (effect numbers
        (canonicalize_match_in_sequence apart [] end
          (list_len (latest (codes "l")))
          arms
          default_arm
          0)
        start
      ≡ effect numbers repeated start)
    ⊎ ((name : List ℕ) × (prefix_writes_name [] name ≡ false)
        × (suffix_mentions_name end name ≡ false)
        × (effect numbers
              (canonicalize_match_in_sequence apart [] end
                (list_len (latest (codes "l")))
                arms
                default_arm
                0)
              start
            ≡ arm_effect numbers
                (value_of numbers (list_len (latest (codes "l"))) start)
                arms
                (effect numbers default_arm start)
                (put numbers start name (value_of numbers (list_len (latest (codes "l"))) start))))
canonicalize_match-effect_example =
    canonicalize_match-effect numbers apart apart_sound (λ a b. refl) [] end
      (list_len (latest (codes "l"))) arms default_arm 0 start (refl, refl) default_arm-AllSimple

abbrev empty_start : List ℕ → ℕ
empty_start name = 0

no_arm_for_one : has_arm 1 arms ≡ false
unfolding has_arm
no_arm_for_one = refl

canonicalize_match-default_example :
    effect numbers
      (canonicalize_match_in_sequence apart [] end
        (list_len (latest (codes "l")))
        arms
        default_arm
        0)
      empty_start
    ≡ effect numbers repeated empty_start
canonicalize_match-default_example =
    canonicalize_match-default numbers apart apart_sound (λ a b. refl) [] end
      (list_len (latest (codes "l"))) arms default_arm 0 empty_start (refl, refl)
      default_arm-AllSimple no_arm_for_one

ir_expr_equiv-plain_example :
    (ir_expr_equiv apart (list_len (latest (codes "l"))) (list_len (res_id (codes "l") true 1))
      ≡ true)
    ↔ (plain (list_len (latest (codes "l"))) ≡ plain (list_len (res_id (codes "l") true 1)))
unfolding ir_expr_is_speculatable
ir_expr_equiv-plain_example =
    ir_expr_equiv-plain apart (list_len (latest (codes "l"))) (list_len (res_id (codes "l") true 1))
      apart_sound refl
