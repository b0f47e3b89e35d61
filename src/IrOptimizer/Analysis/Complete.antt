-- ===== src/IrOptimizer/Analysis/Complete.antt =====
-- `ir_expr_equiv` of src/StyioLowering/StyioIROptimizer.cpp on the expressions that may be computed
-- early.
use mathlib.Core.Logic.{if_pos}
use styio.Prelude.{ℕ, Bool, true, false, ◌||◌, List, ◌≡◌, ◌↔◌, arith, refl, sym, and_split}
use styio.Prelude.Texts.{same_text_refl}
use styio.IrOptimizer.{
  OpType, OpType-discrete, DataType, Ir, same_type, same_op, null, res_id, dyn_load, const_bool,
  const_int, const_float, const_string, cast, bin_op, cond, list_len, dict_len, list_get, dict_get,
  matrix_get, matrix_row, flex_bind, final_bind, list_set, dict_set, block, match_on, loop,
  for_each, range_for, if_then, return_of, main_entry, entry, visited, opaque,
}
use styio.IrOptimizer.Analysis.{ir_expr_equiv, ir_expr_is_speculatable, is_speculatable_op}
use styio.IrOptimizer.Analysis.Equiv.{
  bin_op_shape, cond_shape, list_len_shape, dict_len_shape, res_id_shape,
}
use styio.IrOptimizer.Analysis.Plain.{plain, ir_expr_equiv_sound}

same_op_refl : (op : OpType) → same_op op op ≡ true
same_op_refl op = if_pos (OpType-discrete op op) refl true false

same_type_refl : (t : DataType) → same_type t t ≡ true
unfolding same_type
same_type_refl t = ground (
  arith,
  same_text_refl t.name,
  same_text_refl t.item_type_name,
  same_text_refl t.key_type_name,
  same_text_refl t.resource_value_type_name,
)

-- What an expression is whose plain one is known.
plain_res_id :
    (b : Ir) (id : List ℕ)
    → plain b ≡ res_id id false 0
    → (id' : List ℕ) × (history : Bool) × (offset : ℕ) × (b ≡ res_id id' history offset)
plain_res_id b id h = res_id_shape id b (ground (arith, same_text_refl id))

plain_bin_op :
    (b : Ir) (op : OpType) (s t u : DataType) (l r : Ir)
    → plain b ≡ bin_op op s t u l r
    → (op' : OpType) × (s' t' u' : DataType) × (l' r' : Ir) × (b ≡ bin_op op' s' t' u' l' r')
plain_bin_op b op s t u l r h =
    bin_op_shape op s t u (λ x. true) (λ x. true) b
      (ground (arith, same_op_refl op, same_type_refl s, same_type_refl t, same_type_refl u))

plain_cond :
    (b : Ir) (op : OpType) (l r : Ir)
    → plain b ≡ cond op l r
    → (op' : OpType) × (l' r' : Ir) × (b ≡ cond op' l' r')
plain_cond b op l r h = cond_shape op (λ x. true) (λ x. true) b (ground (arith, same_op_refl op))

plain_list_len : (b l : Ir) → plain b ≡ list_len l → (l' : Ir) × (b ≡ list_len l')
plain_list_len b l h = list_len_shape (λ x. true) b (ground arith)

plain_dict_len : (b l : Ir) → plain b ≡ dict_len l → (l' : Ir) × (b ≡ dict_len l')
plain_dict_len b l h = dict_len_shape (λ x. true) b (ground arith)

plain_dyn_load :
    (b : Ir) (name : List ℕ) (kind : ℕ) → plain b ≡ dyn_load name kind → b ≡ dyn_load name kind
plain_dyn_load b name kind h = ground arith

plain_const_bool : (b : Ir) (value : Bool) → plain b ≡ const_bool value → b ≡ const_bool value
plain_const_bool b value h = ground arith

plain_const_int :
    (b : Ir) (value : List ℕ) (bits : ℕ) → plain b ≡ const_int value bits → b ≡ const_int value bits
plain_const_int b value bits h = ground arith

plain_const_float : (b : Ir) (value : List ℕ) → plain b ≡ const_float value → b ≡ const_float value
plain_const_float b value h = ground arith

plain_const_string :
    (b : Ir) (value : List ℕ) → plain b ≡ const_string value → b ≡ const_string value
plain_const_string b value h = ground arith

or_right : (a : Bool) {b : Bool} → b ≡ true → (a || b) ≡ true
or_right true h = refl
or_right false h = h

module _ (same_node : Ir → Ir → Bool) where
  complete :
      (a b : Ir)
      → ir_expr_is_speculatable a ≡ true
      → plain a ≡ plain b
      → ir_expr_equiv same_node a b ≡ true
  unfolding ir_expr_equiv ir_expr_is_speculatable
  complete (res_id id history offset) b s h =
      let (id', history', offset', e) = plain_res_id b id (sym h) in
      let p : res_id id false 0 ≡ res_id id' false 0 = rw e at h in
      or_right (same_node (res_id id history offset) b) (rw e (ground (arith, same_text_refl id)))
  complete (dyn_load name kind) b s h =
      let e = plain_dyn_load b name kind (sym h) in
      or_right (same_node (dyn_load name kind) b) (rw e (ground (arith, same_text_refl name)))
  complete (const_bool value) b s h =
      let e = plain_const_bool b value (sym h) in
      or_right (same_node (const_bool value) b) (rw e (ground arith))
  complete (const_int value bits) b s h =
      let e = plain_const_int b value bits (sym h) in
      or_right (same_node (const_int value bits) b) (rw e (ground (arith, same_text_refl value)))
  complete (const_float value) b s h =
      let e = plain_const_float b value (sym h) in
      or_right (same_node (const_float value) b) (rw e (same_text_refl value))
  complete (const_string value) b s h =
      let e = plain_const_string b value (sym h) in
      or_right (same_node (const_string value) b) (rw e (same_text_refl value))
  complete (bin_op op t lt rt l r) b s h =
      let (op', t', lt', rt', l', r', e) = plain_bin_op b op t lt rt (plain l) (plain r) (sym h) in
      let g : bin_op op t lt rt (plain l) (plain r) ≡ bin_op op' t' lt' rt' (plain l') (plain r') =
        rw e at h in
      let p : plain l ≡ plain l' = cc g in
      let q : plain r ≡ plain r' = cc g in
      let k = and_split (is_speculatable_op op) s in
      let k' = and_split (ir_expr_is_speculatable l) k.1 in
      or_right (same_node (bin_op op t lt rt l r) b) (
        rw e (
          ground (
            arith,
            same_op_refl op,
            same_type_refl t,
            same_type_refl lt,
            same_type_refl rt,
            complete l l' k'.0 p,
            complete r r' k'.1 q,
          )))
  complete (cond op l r) b s h =
      let (op', l', r', e) = plain_cond b op (plain l) (plain r) (sym h) in
      let g : cond op (plain l) (plain r) ≡ cond op' (plain l') (plain r') = rw e at h in
      let p : plain l ≡ plain l' = cc g in
      let q : plain r ≡ plain r' = cc g in
      let k = and_split (is_speculatable_op op) s in
      let k' = and_split (ir_expr_is_speculatable l) k.1 in
      or_right (same_node (cond op l r) b)
        (rw e (ground (arith, same_op_refl op, complete l l' k'.0 p, complete r r' k'.1 q)))
  complete (list_len list) b s h =
      let (list', e) = plain_list_len b (plain list) (sym h) in
      let g : list_len (plain list) ≡ list_len (plain list') = rw e at h in
      let p : plain list ≡ plain list' = cc g in
      or_right (same_node (list_len list) b) (rw e (complete list list' s p))
  complete (dict_len dict) b s h =
      let (dict', e) = plain_dict_len b (plain dict) (sym h) in
      let g : dict_len (plain dict) ≡ dict_len (plain dict') = rw e at h in
      let p : plain dict ≡ plain dict' = cc g in
      or_right (same_node (dict_len dict) b) (rw e (complete dict dict' s p))
  complete null b s h = absurd (ground arith)
  complete (cast from to) b s h = absurd (ground arith)
  complete (list_get elem list index) b s h = absurd (ground arith)
  complete (dict_get elem dict key) b s h = absurd (ground arith)
  complete (matrix_get elem matrix row col) b s h = absurd (ground arith)
  complete (matrix_row elem matrix row) b s h = absurd (ground arith)
  complete (flex_bind var value) b s h = absurd (ground arith)
  complete (final_bind var value) b s h = absurd (ground arith)
  complete (list_set list index value) b s h = absurd (ground arith)
  complete (dict_set dict key value) b s h = absurd (ground arith)
  complete (block stmts) b s h = absurd (ground arith)
  complete (match_on scrutinee arms default kind) b s h = absurd (ground arith)
  complete (loop test body) b s h = absurd (ground arith)
  complete (for_each var iterable body) b s h = absurd (ground arith)
  complete (range_for var start stop step body) b s h = absurd (ground arith)
  complete (if_then test then_block else_block) b s h = absurd (ground arith)
  complete (return_of expr) b s h = absurd (ground arith)
  complete (main_entry stmts) b s h = absurd (ground arith)
  complete (entry stmts) b s h = absurd (ground arith)
  complete (visited kind children) b s h = absurd (ground arith)
  complete (opaque kind) b s h = absurd (ground arith)

  -- An expression that may be computed early compares equal to another exactly where the two are
  -- equal but for the earlier values of names that they ask for, if equal addresses are those of
  -- equal nodes.
  pub ir_expr_equiv-plain :
      (a b : Ir)
      → ((x y : Ir) → same_node x y ≡ true → x ≡ y)
      → ir_expr_is_speculatable a ≡ true
      → (ir_expr_equiv same_node a b ≡ true) ↔ (plain a ≡ plain b)
  ir_expr_equiv-plain a b h s = (λ k. ir_expr_equiv_sound same_node h a b k, λ k. complete a b s k)
