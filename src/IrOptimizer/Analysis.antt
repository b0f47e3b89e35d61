-- ===== src/IrOptimizer/Analysis.antt =====
-- src/StyioLowering/StyioIROptimizer.cpp: what the passes find out about an expression or a
-- statement. Whether two nodes have one address is the parameter `same_node`; a set of names is a
-- list.
pub mod Equiv
pub mod Plain
pub mod Complete
use styio.Prelude.{
  ℕ, Bool, true, false, ◌&&◌, ◌||◌, not, Option, none, some, List, [], ◌∷◌, ◌==◌, if◌then◌else◌,
}
use styio.Prelude.Bits.{same_bool}
use styio.Prelude.Texts.{same_text}
use styio.IrOptimizer.{
  OpType, DataType, Ir, Irs, Arms, same_type, same_op, null, res_id, dyn_load, const_bool,
  const_int, const_float, const_string, cast, bin_op, cond, list_len, dict_len, list_get, dict_get,
  matrix_get, matrix_row, flex_bind, final_bind, list_set, dict_set, block, match_on, loop,
  for_each, range_for, if_then, return_of, main_entry, entry, visited, opaque, end, stmt, no_arm,
  arm,
}

-- `res_id_name`
abbrev pub res_id_name : Ir → Option (List ℕ)
res_id_name (res_id id history offset) = some id
res_id_name (dyn_load var_name kind) = some var_name
res_id_name _ = none

-- The right hand sides' `dynamic_cast`, with what is compared then.
abbrev pub is_null : Ir → Bool
is_null null = true
is_null _ = false

abbrev pub same_res_id : List ℕ → Ir → Bool
same_res_id id (res_id other history offset) = same_text id other
same_res_id id _ = false

abbrev pub same_dyn_load : List ℕ → ℕ → Ir → Bool
same_dyn_load var_name kind (dyn_load other other_kind) =
    same_text var_name other && kind == other_kind
same_dyn_load var_name kind _ = false

abbrev pub same_const_bool : Bool → Ir → Bool
same_const_bool value (const_bool other) = same_bool value other
same_const_bool value _ = false

abbrev pub same_const_int : List ℕ → ℕ → Ir → Bool
same_const_int value bits (const_int other other_bits) = same_text value other && bits == other_bits
same_const_int value bits _ = false

abbrev pub same_const_float : List ℕ → Ir → Bool
same_const_float value (const_float other) = same_text value other
same_const_float value _ = false

abbrev pub same_const_string : List ℕ → Ir → Bool
same_const_string value (const_string other) = same_text value other
same_const_string value _ = false

-- The comparisons of the operands are given as functions of the other ones.
abbrev pub same_bin_op :
    OpType → DataType → DataType → DataType → (Ir → Bool) → (Ir → Bool) → Ir → Bool
same_bin_op op type lhs_type rhs_type lhs rhs (bin_op op' type' lhs_type' rhs_type' lhs' rhs') =
    same_op op op'
    && (same_type type type'
        && (same_type lhs_type lhs_type'
            && (same_type rhs_type rhs_type' && (lhs lhs' && rhs rhs'))))
same_bin_op op type lhs_type rhs_type lhs rhs _ = false

abbrev pub same_cond : OpType → (Ir → Bool) → (Ir → Bool) → Ir → Bool
same_cond op lhs rhs (cond op' lhs' rhs') = same_op op op' && (lhs lhs' && rhs rhs')
same_cond op lhs rhs _ = false

abbrev pub same_list_len : (Ir → Bool) → Ir → Bool
same_list_len list (list_len list') = list list'
same_list_len list _ = false

abbrev pub same_dict_len : (Ir → Bool) → Ir → Bool
same_dict_len dict (dict_len dict') = dict dict'
same_dict_len dict _ = false

unfoldable pub ir_expr_equiv : (Ir → Ir → Bool) → Ir → Ir → Bool
unfolding same_type
ir_expr_equiv same_node null rhs = is_null rhs
ir_expr_equiv same_node (res_id id history offset) rhs =
    same_node (res_id id history offset) rhs || same_res_id id rhs
ir_expr_equiv same_node (dyn_load var_name kind) rhs =
    same_node (dyn_load var_name kind) rhs || same_dyn_load var_name kind rhs
ir_expr_equiv same_node (const_bool value) rhs =
    same_node (const_bool value) rhs || same_const_bool value rhs
ir_expr_equiv same_node (const_int value bits) rhs =
    same_node (const_int value bits) rhs || same_const_int value bits rhs
ir_expr_equiv same_node (const_float value) rhs =
    same_node (const_float value) rhs || same_const_float value rhs
ir_expr_equiv same_node (const_string value) rhs =
    same_node (const_string value) rhs || same_const_string value rhs
ir_expr_equiv same_node (bin_op op type lhs_type rhs_type l r) rhs =
    same_node (bin_op op type lhs_type rhs_type l r) rhs
    || same_bin_op op type lhs_type rhs_type (ir_expr_equiv same_node l) (ir_expr_equiv same_node r)
        rhs
ir_expr_equiv same_node (cond op l r) rhs =
    same_node (cond op l r) rhs
    || same_cond op (ir_expr_equiv same_node l) (ir_expr_equiv same_node r) rhs
ir_expr_equiv same_node (list_len list) rhs =
    same_node (list_len list) rhs || same_list_len (ir_expr_equiv same_node list) rhs
ir_expr_equiv same_node (dict_len dict) rhs =
    same_node (dict_len dict) rhs || same_dict_len (ir_expr_equiv same_node dict) rhs
ir_expr_equiv same_node lhs rhs = same_node lhs rhs

unfoldable pub is_speculatable_op : OpType → Bool
is_speculatable_op OpType.unary_positive = true
is_speculatable_op OpType.unary_negative = true
is_speculatable_op OpType.binary_add = true
is_speculatable_op OpType.binary_sub = true
is_speculatable_op OpType.binary_mul = true
is_speculatable_op OpType.bitwise_not = true
is_speculatable_op OpType.bitwise_and = true
is_speculatable_op OpType.bitwise_or = true
is_speculatable_op OpType.bitwise_xor = true
is_speculatable_op OpType.bitwise_left_shift = true
is_speculatable_op OpType.bitwise_right_shift = true
is_speculatable_op OpType.greater_than = true
is_speculatable_op OpType.less_than = true
is_speculatable_op OpType.greater_than_equal = true
is_speculatable_op OpType.less_than_equal = true
is_speculatable_op OpType.equal = true
is_speculatable_op OpType.not_equal = true
is_speculatable_op _ = false

unfoldable pub ir_expr_is_speculatable : Ir → Bool
unfolding is_speculatable_op
ir_expr_is_speculatable (res_id id history offset) = true
ir_expr_is_speculatable (dyn_load var_name kind) = true
ir_expr_is_speculatable (const_bool value) = true
ir_expr_is_speculatable (const_int value bits) = true
ir_expr_is_speculatable (const_float value) = true
ir_expr_is_speculatable (const_string value) = true
ir_expr_is_speculatable (bin_op op type lhs_type rhs_type l r) =
    is_speculatable_op op && (ir_expr_is_speculatable l && ir_expr_is_speculatable r)
ir_expr_is_speculatable (cond op l r) =
    is_speculatable_op op && (ir_expr_is_speculatable l && ir_expr_is_speculatable r)
ir_expr_is_speculatable (list_len list) = ir_expr_is_speculatable list
ir_expr_is_speculatable (dict_len dict) = ir_expr_is_speculatable dict
ir_expr_is_speculatable _ = false

unfoldable pub ir_expr_has_no_runtime_effects : Ir → Bool
ir_expr_has_no_runtime_effects null = true
ir_expr_has_no_runtime_effects (res_id id history offset) = true
ir_expr_has_no_runtime_effects (dyn_load var_name kind) = true
ir_expr_has_no_runtime_effects (const_bool value) = true
ir_expr_has_no_runtime_effects (const_int value bits) = true
ir_expr_has_no_runtime_effects (const_float value) = true
ir_expr_has_no_runtime_effects (const_string value) = true
ir_expr_has_no_runtime_effects (cast from to) = true
ir_expr_has_no_runtime_effects (bin_op op type lhs_type rhs_type l r) =
    ir_expr_has_no_runtime_effects l && ir_expr_has_no_runtime_effects r
ir_expr_has_no_runtime_effects (cond op l r) =
    ir_expr_has_no_runtime_effects l && ir_expr_has_no_runtime_effects r
ir_expr_has_no_runtime_effects (list_len list) = ir_expr_has_no_runtime_effects list
ir_expr_has_no_runtime_effects (dict_len dict) = ir_expr_has_no_runtime_effects dict
ir_expr_has_no_runtime_effects (list_get elem list index) =
    ir_expr_has_no_runtime_effects list && ir_expr_has_no_runtime_effects index
ir_expr_has_no_runtime_effects (dict_get elem dict key) =
    ir_expr_has_no_runtime_effects dict && ir_expr_has_no_runtime_effects key
ir_expr_has_no_runtime_effects (matrix_get elem matrix row col) =
    ir_expr_has_no_runtime_effects matrix
    && (ir_expr_has_no_runtime_effects row && ir_expr_has_no_runtime_effects col)
ir_expr_has_no_runtime_effects (matrix_row elem matrix row) =
    ir_expr_has_no_runtime_effects matrix && ir_expr_has_no_runtime_effects row
ir_expr_has_no_runtime_effects _ = false

unfoldable mutual
  pub stmt_is_rebind_hoist_transparent : Ir → Bool
  stmt_is_rebind_hoist_transparent null = true
  stmt_is_rebind_hoist_transparent (flex_bind var value) = ir_expr_has_no_runtime_effects value
  stmt_is_rebind_hoist_transparent (final_bind var value) = ir_expr_has_no_runtime_effects value
  stmt_is_rebind_hoist_transparent (block stmts) = all_transparent stmts
  stmt_is_rebind_hoist_transparent _ = false

  pub all_transparent : Irs → Bool
  all_transparent end = true
  all_transparent (stmt s stmts) = stmt_is_rebind_hoist_transparent s && all_transparent stmts
