-- ===== src/IrOptimizer/Rebind.antt =====
-- src/StyioLowering/StyioIROptimizer.cpp: the names that an expression or statement reads and writes,
-- the search for a bind that repeats a scrutinee, and the passes over sequences of statements. Where
-- the source takes the statements of a sequence before or behind an index, these are arguments.

use styio.Prelude.{
  ℕ, suc, Bool, false, ◌||◌, not, Option, none, some, List, [], ◌∷◌, ◌++◌, if◌then◌else◌,
}
use styio.Prelude.Texts.{same_text}
use styio.IrOptimizer.{
  Ir, Irs, Arms, res_id, dyn_load, bin_op, cond, list_len, dict_len, list_get, dict_get, flex_bind,
  final_bind, list_set, dict_set, block, match_on, loop, for_each, range_for, if_then, return_of,
  end, stmt, no_arm, arm,
}
use styio.IrOptimizer.Analysis.{
  res_id_name, ir_expr_equiv, ir_expr_is_speculatable, stmt_is_rebind_hoist_transparent,
}

-- The names read, put before those given.
unfoldable pub collect_expr_reads : Ir → List (List ℕ) → List (List ℕ)
collect_expr_reads (res_id id history offset) names = id ∷ names
collect_expr_reads (dyn_load var_name kind) names = var_name ∷ names
collect_expr_reads (bin_op op type lhs_type rhs_type l r) names =
    collect_expr_reads r (collect_expr_reads l names)
collect_expr_reads (cond op l r) names = collect_expr_reads r (collect_expr_reads l names)
collect_expr_reads (list_len list) names = collect_expr_reads list names
collect_expr_reads (dict_len dict) names = collect_expr_reads dict names
collect_expr_reads (list_get elem list index) names =
    collect_expr_reads index (collect_expr_reads list names)
collect_expr_reads (dict_get elem dict key) names =
    collect_expr_reads key (collect_expr_reads dict names)
collect_expr_reads _ names = names

-- `names.count(name) != 0`
unfoldable pub has_name : List (List ℕ) → List ℕ → Bool
has_name [] name = false
has_name (x ∷ names) name = same_text x name || has_name names name

unfoldable pub expr_reads_name : Ir → List ℕ → Bool
unfolding collect_expr_reads has_name
expr_reads_name ir name = has_name (collect_expr_reads ir []) name

-- `bind->var && bind->var->var_name && bind->var->var_name->as_str() == name`
abbrev pub binds : Option (List ℕ) → List ℕ → Bool
binds none name = false
binds (some var) name = same_text var name

-- `res_id_name(ir)` is `name`
abbrev pub is_named : Ir → List ℕ → Bool
is_named ir name = binds (res_id_name ir) name

unfoldable mutual
  pub stmt_writes_name : Ir → List ℕ → Bool
  stmt_writes_name (flex_bind var value) name = binds var name
  stmt_writes_name (final_bind var value) name = binds var name
  stmt_writes_name (list_set list index value) name = is_named list name
  stmt_writes_name (dict_set dict key value) name = is_named dict name
  stmt_writes_name (block stmts) name = any_writes_name stmts name
  stmt_writes_name (match_on scrutinee arms default kind) name =
      arm_writes_name arms name || stmt_writes_name default name
  stmt_writes_name (loop test body) name = stmt_writes_name body name
  stmt_writes_name (for_each var iterable body) name =
      same_text var name || stmt_writes_name body name
  stmt_writes_name (range_for var start stop step body) name =
      same_text var name || stmt_writes_name body name
  stmt_writes_name (if_then test then_block else_block) name =
      stmt_writes_name then_block name || stmt_writes_name else_block name
  stmt_writes_name _ name = false

  pub any_writes_name : Irs → List ℕ → Bool
  any_writes_name end name = false
  any_writes_name (stmt s stmts) name = stmt_writes_name s name || any_writes_name stmts name

  pub arm_writes_name : Arms → List ℕ → Bool
  arm_writes_name no_arm name = false
  arm_writes_name (arm value body arms) name =
      stmt_writes_name body name || arm_writes_name arms name

unfoldable pub stmt_writes_any : Ir → List (List ℕ) → Bool
unfolding stmt_writes_name
stmt_writes_any ir [] = false
stmt_writes_any ir (name ∷ names) = stmt_writes_name ir name || stmt_writes_any ir names

unfoldable mutual
  unfolding expr_reads_name

  pub stmt_reads_name : Ir → List ℕ → Bool
  stmt_reads_name (flex_bind var value) name = expr_reads_name value name
  stmt_reads_name (final_bind var value) name = expr_reads_name value name
  stmt_reads_name (block stmts) name = any_reads_name stmts name
  stmt_reads_name (match_on scrutinee arms default kind) name =
      expr_reads_name scrutinee name || (arm_reads_name arms name || stmt_reads_name default name)
  stmt_reads_name (loop test body) name = expr_reads_name test name || stmt_reads_name body name
  stmt_reads_name (for_each var iterable body) name =
      expr_reads_name iterable name || stmt_reads_name body name
  stmt_reads_name (range_for var start stop step body) name =
      expr_reads_name start name
      || (expr_reads_name stop name || (expr_reads_name step name || stmt_reads_name body name))
  stmt_reads_name (if_then test then_block else_block) name =
      expr_reads_name test name
      || (stmt_reads_name then_block name || stmt_reads_name else_block name)
  stmt_reads_name (list_set list index value) name =
      expr_reads_name list name || (expr_reads_name index name || expr_reads_name value name)
  stmt_reads_name (dict_set dict key value) name =
      expr_reads_name dict name || (expr_reads_name key name || expr_reads_name value name)
  stmt_reads_name (return_of expr) name = expr_reads_name expr name
  stmt_reads_name ir name = expr_reads_name ir name

  pub any_reads_name : Irs → List ℕ → Bool
  any_reads_name end name = false
  any_reads_name (stmt s stmts) name = stmt_reads_name s name || any_reads_name stmts name

  pub arm_reads_name : Arms → List ℕ → Bool
  arm_reads_name no_arm name = false
  arm_reads_name (arm value body arms) name = stmt_reads_name body name || arm_reads_name arms name

unfoldable pub suffix_mentions_name : Irs → List ℕ → Bool
unfolding stmt_reads_name stmt_writes_name
suffix_mentions_name end name = false
suffix_mentions_name (stmt s stmts) name =
    stmt_reads_name s name || (stmt_writes_name s name || suffix_mentions_name stmts name)

-- `suffix_reads_name`
abbrev pub suffix_reads_name : Irs → List ℕ → Bool
suffix_reads_name stmts name = any_reads_name stmts name

-- `prefix_writes_name`
unfoldable pub prefix_writes_name : List Ir → List ℕ → Bool
unfolding stmt_writes_name
prefix_writes_name [] name = false
prefix_writes_name (s ∷ stmts) name = stmt_writes_name s name || prefix_writes_name stmts name

pub record DefaultRebind : Type 0 where
  pub index : ℕ
  pub bind : Ir
  pub name : List ℕ

-- `prior_conflict`
unfoldable pub prior_conflict : List Ir → List ℕ → List (List ℕ) → Bool
unfolding stmt_reads_name stmt_writes_name stmt_writes_any stmt_is_rebind_hoist_transparent
prior_conflict [] target deps = false
prior_conflict (s ∷ before) target deps =
    stmt_reads_name s target
    || (stmt_writes_name s target
        || (stmt_writes_any s deps
            || (not (stmt_is_rebind_hoist_transparent s) || prior_conflict before target deps)))

-- One round of the search: the statement is the rebind that is looked for, and this is its name.
abbrev pub rebind_of : (Ir → Ir → Bool) → Ir → List (List ℕ) → List Ir → Ir → Irs → Option (List ℕ)
rebind_of same_node scrutinee deps before (flex_bind (some target) value) rest =
    if not (ir_expr_equiv same_node value scrutinee)
      || (not (suffix_reads_name rest target) || prior_conflict before target deps)
    then none
    else some target
rebind_of same_node scrutinee deps before _ rest = none

-- The loop over the statements, those before them first.
unfoldable pub find_from :
    (Ir → Ir → Bool) → Ir → List (List ℕ) → List Ir → ℕ → Irs → Option DefaultRebind
unfolding any_reads_name
find_from same_node scrutinee deps before i end = none
find_from same_node scrutinee deps before i (stmt s rest) =
    let later = find_from same_node scrutinee deps (before ++ s ∷ []) (suc i) rest in
    elim (rebind_of same_node scrutinee deps before s rest) [
      | none ↦ later
      | some target ↦ some record { index = i; bind = s; name = target }
    ]

-- The statements of a block, none of a null pointer.
abbrev pub stmts_of : Ir → Irs
stmts_of (block stmts) = stmts
stmts_of _ = end

unfoldable pub find_repeated_default_rebind : (Ir → Ir → Bool) → Ir → Ir → Option DefaultRebind
unfolding find_from collect_expr_reads ir_expr_is_speculatable
find_repeated_default_rebind same_node scrutinee default =
    if not (ir_expr_is_speculatable scrutinee)
    then none
    else find_from same_node scrutinee (collect_expr_reads scrutinee []) [] 0 (stmts_of default)
