-- ===== src/IrOptimizer/Analysis/Plain.antt =====
-- `ir_expr_equiv` of src/StyioLowering/StyioIROptimizer.cpp compares all of two expressions but which
-- earlier value of a name is asked for.
use styio.Prelude.{Bool, true, false, ◌≡◌, inl, inr, refl, ap, ==_iff, and_split, or_split}
use styio.Prelude.Bits.{same_bool_eq}
use styio.Prelude.Texts.{same_text, same_text→≡}
use styio.IrOptimizer.{
  Ir, same_type, same_type→≡, same_op, null, res_id, dyn_load, const_bool, const_int, const_float,
  const_string, cast, bin_op, cond, list_len, dict_len, list_get, dict_get, matrix_get, matrix_row,
  flex_bind, final_bind, list_set, dict_set, block, match_on, loop, for_each, range_for, if_then,
  return_of, main_entry, entry, visited, opaque,
}
use styio.IrOptimizer.Analysis.{ir_expr_equiv}
use styio.IrOptimizer.Analysis.Equiv.{
  same_op→≡, bin_op_shape, cond_shape, list_len_shape, dict_len_shape, null_shape, res_id_shape,
  dyn_load_shape, const_bool_shape, const_int_shape, const_float_shape, const_string_shape,
}

-- An expression that asks for no earlier values, made of one that may.
abbrev pub plain : Ir → Ir
plain (res_id id history offset) = res_id id false 0
plain (bin_op op type lhs_type rhs_type l r) = bin_op op type lhs_type rhs_type (plain l) (plain r)
plain (cond op l r) = cond op (plain l) (plain r)
plain (list_len list) = list_len (plain list)
plain (dict_len dict) = dict_len (plain dict)
plain other = other

module _ (same_node : Ir → Ir → Bool)
    (same_node_sound : (a b : Ir) → same_node a b ≡ true → a ≡ b) where
  by_node : (a b : Ir) → same_node a b ≡ true → plain a ≡ plain b
  by_node a b h = ap plain (same_node_sound a b h)

  -- Expressions that compare equal are equal but for the earlier values that are asked for.
  pub ir_expr_equiv_sound : (a b : Ir) → ir_expr_equiv same_node a b ≡ true → plain a ≡ plain b
  unfolding ir_expr_equiv
  ir_expr_equiv_sound null b h = rw (null_shape b h) refl
  ir_expr_equiv_sound (res_id id history offset) b h =
      elim (or_split (same_node (res_id id history offset) b) h) [
        | inl n ↦ by_node (res_id id history offset) b n
        | inr s ↦
            let (id', history', offset', e) = res_id_shape id b s in
            rw e (ap (λ x. res_id x false 0) (same_text→≡ id id' (rw e at s)))
      ]
  ir_expr_equiv_sound (dyn_load name kind) b h =
      elim (or_split (same_node (dyn_load name kind) b) h) [
        | inl n ↦ by_node (dyn_load name kind) b n
        | inr s ↦
            let (name', kind', e) = dyn_load_shape name kind b s in
            let k = and_split (same_text name name') (rw e at s) in
            let p = same_text→≡ name name' k.0 in
            let q = (==_iff kind kind').0 k.1 in rw e (λ i. dyn_load (p i) (q i))
      ]
  ir_expr_equiv_sound (const_bool value) b h = elim (or_split (same_node (const_bool value) b) h) [
    | inl n ↦ by_node (const_bool value) b n
    | inr s ↦
        let (value', e) = const_bool_shape value b s in
        rw e (ap const_bool (same_bool_eq value value' (rw e at s)))
  ]
  ir_expr_equiv_sound (const_int value bits) b h =
      elim (or_split (same_node (const_int value bits) b) h) [
        | inl n ↦ by_node (const_int value bits) b n
        | inr s ↦
            let (value', bits', e) = const_int_shape value bits b s in
            let k = and_split (same_text value value') (rw e at s) in
            let p = same_text→≡ value value' k.0 in
            let q = (==_iff bits bits').0 k.1 in rw e (λ i. const_int (p i) (q i))
      ]
  ir_expr_equiv_sound (const_float value) b h =
      elim (or_split (same_node (const_float value) b) h) [
        | inl n ↦ by_node (const_float value) b n
        | inr s ↦
            let (value', e) = const_float_shape value b s in
            rw e (ap const_float (same_text→≡ value value' (rw e at s)))
      ]
  ir_expr_equiv_sound (const_string value) b h =
      elim (or_split (same_node (const_string value) b) h) [
        | inl n ↦ by_node (const_string value) b n
        | inr s ↦
            let (value', e) = const_string_shape value b s in
            rw e (ap const_string (same_text→≡ value value' (rw e at s)))
      ]
  ir_expr_equiv_sound (bin_op op t lt rt l r) b h =
      elim (or_split (same_node (bin_op op t lt rt l r) b) h) [
        | inl n ↦ by_node (bin_op op t lt rt l r) b n
        | inr s ↦
            let (op', t', lt', rt', l', r', e) =
              bin_op_shape op t lt rt (ir_expr_equiv same_node l) (ir_expr_equiv same_node r) b s in
            let k = and_split (same_op op op') (rw e at s) in
            let k1 = and_split (same_type t t') k.1 in
            let k2 = and_split (same_type lt lt') k1.1 in
            let k3 = and_split (same_type rt rt') k2.1 in
            let k4 = and_split (ir_expr_equiv same_node l l') k3.1 in
            let o = same_op→≡ op op' k.0 in
            let p = same_type→≡ t t' k1.0 in
            let q = same_type→≡ lt lt' k2.0 in
            let u = same_type→≡ rt rt' k3.0 in
            let v = ir_expr_equiv_sound l l' k4.0 in
            let w = ir_expr_equiv_sound r r' k4.1 in
            rw e (λ i. bin_op (o i) (p i) (q i) (u i) (v i) (w i))
      ]
  ir_expr_equiv_sound (cond op l r) b h = elim (or_split (same_node (cond op l r) b) h) [
    | inl n ↦ by_node (cond op l r) b n
    | inr s ↦
        let (op', l', r', e) =
          cond_shape op (ir_expr_equiv same_node l) (ir_expr_equiv same_node r) b s in
        let k = and_split (same_op op op') (rw e at s) in
        let k1 = and_split (ir_expr_equiv same_node l l') k.1 in
        let o = same_op→≡ op op' k.0 in
        let v = ir_expr_equiv_sound l l' k1.0 in
        let w = ir_expr_equiv_sound r r' k1.1 in rw e (λ i. cond (o i) (v i) (w i))
  ]
  ir_expr_equiv_sound (list_len list) b h = elim (or_split (same_node (list_len list) b) h) [
    | inl n ↦ by_node (list_len list) b n
    | inr s ↦
        let (list', e) = list_len_shape (ir_expr_equiv same_node list) b s in
        rw e (ap list_len (ir_expr_equiv_sound list list' (rw e at s)))
  ]
  ir_expr_equiv_sound (dict_len dict) b h = elim (or_split (same_node (dict_len dict) b) h) [
    | inl n ↦ by_node (dict_len dict) b n
    | inr s ↦
        let (dict', e) = dict_len_shape (ir_expr_equiv same_node dict) b s in
        rw e (ap dict_len (ir_expr_equiv_sound dict dict' (rw e at s)))
  ]
  ir_expr_equiv_sound (cast from to) b h = by_node (cast from to) b h
  ir_expr_equiv_sound (list_get elem list index) b h = by_node (list_get elem list index) b h
  ir_expr_equiv_sound (dict_get elem dict key) b h = by_node (dict_get elem dict key) b h
  ir_expr_equiv_sound (matrix_get elem matrix row col) b h =
      by_node (matrix_get elem matrix row col) b h
  ir_expr_equiv_sound (matrix_row elem matrix row) b h = by_node (matrix_row elem matrix row) b h
  ir_expr_equiv_sound (flex_bind var value) b h = by_node (flex_bind var value) b h
  ir_expr_equiv_sound (final_bind var value) b h = by_node (final_bind var value) b h
  ir_expr_equiv_sound (list_set list index value) b h = by_node (list_set list index value) b h
  ir_expr_equiv_sound (dict_set dict key value) b h = by_node (dict_set dict key value) b h
  ir_expr_equiv_sound (block stmts) b h = by_node (block stmts) b h
  ir_expr_equiv_sound (match_on scrutinee arms default kind) b h =
      by_node (match_on scrutinee arms default kind) b h
  ir_expr_equiv_sound (loop test body) b h = by_node (loop test body) b h
  ir_expr_equiv_sound (for_each var iterable body) b h = by_node (for_each var iterable body) b h
  ir_expr_equiv_sound (range_for var start stop step body) b h =
      by_node (range_for var start stop step body) b h
  ir_expr_equiv_sound (if_then test then_block else_block) b h =
      by_node (if_then test then_block else_block) b h
  ir_expr_equiv_sound (return_of expr) b h = by_node (return_of expr) b h
  ir_expr_equiv_sound (main_entry stmts) b h = by_node (main_entry stmts) b h
  ir_expr_equiv_sound (entry stmts) b h = by_node (entry stmts) b h
  ir_expr_equiv_sound (visited kind children) b h = by_node (visited kind children) b h
  ir_expr_equiv_sound (opaque kind) b h = by_node (opaque kind) b h
