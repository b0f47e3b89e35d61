-- ===== src/IrOptimizer/Hoist.antt =====
-- Statements that the search of src/StyioLowering/StyioIROptimizer.cpp lets a bind pass, and what they
-- mean.
pub mod Found
pub mod Canonical
use mathlib.Core.Bool.{true≢false}
use mathlib.Core.Path.{fun_ext}
use styio.Prelude.{
  ℕ, zero, suc, ◌+◌, Bool, true, false, ◌&&◌, ◌||◌, not, Option, none, some, List, [], ◌∷◌, ◌++◌,
  ◌==◌, if◌then◌else◌, ◌≡◌, refl, sym, ap, ◌∙◌, Bool-cases, inl, inr, arith, and_split, or_false,
  or_split, if_cases,
}
use styio.Prelude.Texts.{same_text, same_text→≡, same_text_refl}
use styio.IrOptimizer.{
  Ir, Irs, Arms, null, res_id, dyn_load, const_bool, const_int, const_float, const_string, cast,
  bin_op, cond, list_len, dict_len, list_get, dict_get, matrix_get, matrix_row, flex_bind,
  final_bind, list_set, dict_set, block, match_on, loop, for_each, range_for, if_then, return_of,
  main_entry, entry, visited, opaque, end, stmt, no_arm, arm,
}
use styio.IrOptimizer.Analysis.{stmt_is_rebind_hoist_transparent, all_transparent}
use styio.IrOptimizer.Analysis.Plain.{plain}
use styio.IrOptimizer.Rebind.{
  collect_expr_reads, has_name, expr_reads_name, binds, stmt_writes_name, any_writes_name,
  stmt_writes_any, stmt_reads_name, any_reads_name,
}
use styio.IrOptimizer.Meaning.{Machine, put, value_of, bound, effect, effects}

-- An expression of whose names all are collected, each read for its latest value.
abbrev pub Simple : Ir → Type 0
Simple (res_id id history offset) = (history ≡ false) × (offset ≡ 0)
Simple (dyn_load var_name kind) = Unit
Simple (const_bool value) = Unit
Simple (const_int value bits) = Unit
Simple (const_float value) = Unit
Simple (const_string value) = Unit
Simple (cast from to) = Unit
Simple (bin_op op type lhs_type rhs_type l r) = Simple l × Simple r
Simple (cond op l r) = Simple l × Simple r
Simple (list_len list) = Simple list
Simple (dict_len dict) = Simple dict
Simple (list_get elem list index) = Simple list × Simple index
Simple (dict_get elem dict key) = Simple dict × Simple key
Simple _ = ⊥

-- Statements that bind only such expressions, where they bind any.
unfoldable mutual
  pub BindsSimple : Ir → Type 0
  BindsSimple (flex_bind var value) = Simple value
  BindsSimple (final_bind var value) = Simple value
  BindsSimple (block stmts) = AllSimple stmts
  BindsSimple _ = Unit

  pub AllSimple : Irs → Type 0
  AllSimple end = Unit
  AllSimple (stmt s stmts) = BindsSimple s × AllSimple stmts

module _ {A : Type 0} (m : Machine A) where
  -- Environments with the same values of some names.
  abbrev pub Agree : List (List ℕ) → (List ℕ → A) → (List ℕ → A) → Type 0
  Agree names f g = (n : List ℕ) → has_name names n ≡ true → f n ≡ g n

  tail_agrees :
      (name : List ℕ) (names : List (List ℕ)) (f g : List ℕ → A)
      → Agree (name ∷ names) f g
      → (f name ≡ g name) × Agree names f g
  unfolding has_name
  tail_agrees name names f g h =
      (h name (ground (arith, same_text_refl name)), λ n k. h n (ground arith))

  -- The value depends on the names collected only.
  pub value_same :
      (e : Ir) (names : List (List ℕ)) (f g : List ℕ → A)
      → Simple e
      → Agree (collect_expr_reads e names) f g
      → (value_of m e f ≡ value_of m e g) × Agree names f g
  unfolding collect_expr_reads
  value_same (res_id id history offset) names f g s h =
      let (p, rest) = tail_agrees id names f g h in (ap (m.read history offset) p, rest)
  value_same (dyn_load name kind) names f g s h =
      let (p, rest) = tail_agrees name names f g h in (ap (m.load kind) p, rest)
  value_same (const_bool value) names f g s h = (refl, h)
  value_same (const_int value bits) names f g s h = (refl, h)
  value_same (const_float value) names f g s h = (refl, h)
  value_same (const_string value) names f g s h = (refl, h)
  value_same (cast from to) names f g s h = (refl, h)
  value_same (bin_op op t lt rt l r) names f g s h =
      let (q, rest) = value_same r (collect_expr_reads l names) f g s.1 h in
      let (p, last) = value_same l names f g s.0 rest in
      (λ i. m.operate op t lt rt (p i) (q i), last)
  value_same (cond op l r) names f g s h =
      let (q, rest) = value_same r (collect_expr_reads l names) f g s.1 h in
      let (p, last) = value_same l names f g s.0 rest in (λ i. m.compare_by op (p i) (q i), last)
  value_same (list_len list) names f g s h =
      let (p, last) = value_same list names f g s h in (ap m.length_of p, last)
  value_same (dict_len dict) names f g s h =
      let (p, last) = value_same dict names f g s h in (ap m.size_of p, last)
  value_same (list_get elem list index) names f g s h =
      let (q, rest) = value_same index (collect_expr_reads list names) f g s.1 h in
      let (p, last) = value_same list names f g s.0 rest in (λ i. m.item_of elem (p i) (q i), last)
  value_same (dict_get elem dict key) names f g s h =
      let (q, rest) = value_same key (collect_expr_reads dict names) f g s.1 h in
      let (p, last) = value_same dict names f g s.0 rest in (λ i. m.entry_of elem (p i) (q i), last)
  value_same null names f g s h = elim s [ ]
  value_same (matrix_get _ _ _ _) names f g s h = elim s [ ]
  value_same (matrix_row _ _ _) names f g s h = elim s [ ]
  value_same (flex_bind _ _) names f g s h = elim s [ ]
  value_same (final_bind _ _) names f g s h = elim s [ ]
  value_same (list_set _ _ _) names f g s h = elim s [ ]
  value_same (dict_set _ _ _) names f g s h = elim s [ ]
  value_same (block _) names f g s h = elim s [ ]
  value_same (match_on _ _ _ _) names f g s h = elim s [ ]
  value_same (loop _ _) names f g s h = elim s [ ]
  value_same (for_each _ _ _) names f g s h = elim s [ ]
  value_same (range_for _ _ _ _ _) names f g s h = elim s [ ]
  value_same (if_then _ _ _) names f g s h = elim s [ ]
  value_same (return_of _) names f g s h = elim s [ ]
  value_same (main_entry _) names f g s h = elim s [ ]
  value_same (entry _) names f g s h = elim s [ ]
  value_same (visited _ _) names f g s h = elim s [ ]
  value_same (opaque _) names f g s h = elim s [ ]

  -- A write of a name that is not read does not change the value.
  pub value_of-put :
      (e : Ir) (f : List ℕ → A) (t : List ℕ) (v : A)
      → Simple e
      → expr_reads_name e t ≡ false
      → value_of m e (put m f t v) ≡ value_of m e f
  unfolding expr_reads_name
  value_of-put e f t v s h =
      (value_same e [] (put m f t v) f s (λ n k.
        if_cases (λ x. x ≡ f n) (same_text t n)
          (λ q. absurd (
            true≢false
              (sym k ∙ ap (has_name (collect_expr_reads e [])) (sym (same_text→≡ t n q)) ∙ h)))
          (λ q. refl))).0

  -- Writes of two names can be swapped.
  put_swap :
      (f : List ℕ → A) (t x : List ℕ) (v w : A)
      → same_text x t ≡ false
      → put m (put m f t v) x w ≡ put m (put m f x w) t v
  put_swap f t x v w h = fun_ext (λ o. pointwise o)
    where
      pointwise : (o : List ℕ) → put m (put m f t v) x w o ≡ put m (put m f x w) t v o
      pointwise o = elim (Bool-cases (same_text x o)) [
        | inl p ↦ elim (Bool-cases (same_text t o)) [
          | inl q ↦ absurd (
              true≢false
                (sym (rw (same_text→≡ x o p ∙ sym (same_text→≡ t o q)) (same_text_refl t)) ∙ h))
          | inr q ↦ rw (p, q) refl
        ]
        | inr p ↦ elim (Bool-cases (same_text t o)) [
          | inl q ↦ rw (p, q) refl
          | inr q ↦ rw (p, q) refl
        ]
      ]

  bound_swap :
      (var : Option (List ℕ)) (e : Ir) (f : List ℕ → A) (t : List ℕ) (v : A)
      → Simple e
      → expr_reads_name e t ≡ false
      → binds var t ≡ false
      → bound m var (value_of m e (put m f t v)) (put m f t v)
        ≡ put m (bound m var (value_of m e f) f) t v
  bound_swap none e f t v s r w = refl
  bound_swap (some x) e f t v s r w =
      rw (value_of-put e f t v s r) (put_swap f t x v (value_of m e f) w)

  -- Such a statement can be run after a write of a name that it does not mention.
  mutual
    unfolding BindsSimple stmt_reads_name stmt_writes_name stmt_is_rebind_hoist_transparent effect

    pub effect_swap :
        (s : Ir) (f : List ℕ → A) (t : List ℕ) (v : A)
        → BindsSimple s
        → stmt_is_rebind_hoist_transparent s ≡ true
        → stmt_reads_name s t ≡ false
        → stmt_writes_name s t ≡ false
        → effect m s (put m f t v) ≡ put m (effect m s f) t v
    effect_swap null f t v b p r w = refl
    effect_swap (flex_bind var value) f t v b p r w = bound_swap var value f t v b r w
    effect_swap (final_bind var value) f t v b p r w = bound_swap var value f t v b r w
    effect_swap (block stmts) f t v b p r w = effects_swap stmts f t v b p r w
    effect_swap s f t v b p r w = absurd (ground arith)

    effects_swap :
        (stmts : Irs) (f : List ℕ → A) (t : List ℕ) (v : A)
        → AllSimple stmts
        → all_transparent stmts ≡ true
        → any_reads_name stmts t ≡ false
        → any_writes_name stmts t ≡ false
        → effects m stmts (put m f t v) ≡ put m (effects m stmts f) t v
    effects_swap end f t v b p r w = refl
    effects_swap (stmt s stmts) f t v b p r w =
        let (p1, p2) = and_split (stmt_is_rebind_hoist_transparent s) p in
        let (r1, r2) = or_false (stmt_reads_name s t) r in
        let (w1, w2) = or_false (stmt_writes_name s t) w in
        ap (effects m stmts) (effect_swap s f t v b.0 p1 r1 w1)
        ∙ effects_swap stmts (effect m s f) t v b.1 p2 r2 w2

  -- It leaves every name that it does not write.
  mutual
    unfolding stmt_writes_name stmt_is_rebind_hoist_transparent effect

    pub effect_keeps :
        (s : Ir) (f : List ℕ → A) (n : List ℕ)
        → stmt_is_rebind_hoist_transparent s ≡ true
        → stmt_writes_name s n ≡ false
        → effect m s f n ≡ f n
    effect_keeps null f n p w = refl
    effect_keeps (flex_bind none value) f n p w = refl
    effect_keeps (flex_bind (some x) value) f n p w = rw w refl
    effect_keeps (final_bind none value) f n p w = refl
    effect_keeps (final_bind (some x) value) f n p w = rw w refl
    effect_keeps (block stmts) f n p w = effects_keep stmts f n p w
    effect_keeps s f n p w = absurd (ground arith)

    effects_keep :
        (stmts : Irs) (f : List ℕ → A) (n : List ℕ)
        → all_transparent stmts ≡ true
        → any_writes_name stmts n ≡ false
        → effects m stmts f n ≡ f n
    effects_keep end f n p w = refl
    effects_keep (stmt s stmts) f n p w =
        let (p1, p2) = and_split (stmt_is_rebind_hoist_transparent s) p in
        let (w1, w2) = or_false (stmt_writes_name s n) w in
        effects_keep stmts (effect m s f) n p2 w2 ∙ effect_keeps s f n p1 w1
