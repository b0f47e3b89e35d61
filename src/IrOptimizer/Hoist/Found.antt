-- ===== src/IrOptimizer/Hoist/Found.antt =====
-- The bind that `find_repeated_default_rebind` of src/StyioLowering/StyioIROptimizer.cpp finds can be
-- moved before the statements in front of it.
use mathlib.Core.Option.{some-injective, some-ne-none}
use styio.Prelude.{
  ℕ, suc, ◌+◌, Bool, true, false, ◌||◌, not, some, List, [], ◌∷◌, ◌++◌, ◌≡◌, refl, sym, ap, ◌∙◌,
  subst, Option-cases, inl, inr, arith, or_false, or_split, if_split,
}
use styio.Prelude.Texts.{same_text, same_text→≡}
use styio.IrOptimizer.{
  Ir, Irs, null, res_id, dyn_load, const_bool, const_int, const_float, const_string, cast, bin_op,
  cond, list_len, dict_len, list_get, dict_get, matrix_get, matrix_row, flex_bind, final_bind,
  list_set, dict_set, block, match_on, loop, for_each, range_for, if_then, return_of, main_entry,
  entry, visited, opaque, end, stmt,
}
use styio.IrOptimizer.Analysis.{ir_expr_equiv, stmt_is_rebind_hoist_transparent}
use styio.IrOptimizer.Analysis.Plain.{plain, ir_expr_equiv_sound}
use styio.IrOptimizer.Rebind.{
  collect_expr_reads, has_name, stmt_writes_name, stmt_writes_any, stmt_reads_name,
  suffix_reads_name, DefaultRebind, prior_conflict, rebind_of, find_from,
}
use styio.IrOptimizer.Passes.{erase_at}
use styio.IrOptimizer.Meaning.{Machine, put, value_of, effect, effects}
use styio.IrOptimizer.Hoist.{Simple, BindsSimple, AllSimple, value_same, effect_swap, effect_keeps}

pub plain-Simple : (e : Ir) → Simple e → plain e ≡ e
plain-Simple (res_id id history offset) (h, o) = λ i. res_id id (sym h i) (sym o i)
plain-Simple (dyn_load var_name kind) s = refl
plain-Simple (const_bool value) s = refl
plain-Simple (const_int value bits) s = refl
plain-Simple (const_float value) s = refl
plain-Simple (const_string value) s = refl
plain-Simple (cast from to) s = refl
plain-Simple (bin_op op t lt rt l r) s =
    λ i. bin_op op t lt rt (plain-Simple l s.0 i) (plain-Simple r s.1 i)
plain-Simple (cond op l r) s = λ i. cond op (plain-Simple l s.0 i) (plain-Simple r s.1 i)
plain-Simple (list_len list) s = ap list_len (plain-Simple list s)
plain-Simple (dict_len dict) s = ap dict_len (plain-Simple dict s)
plain-Simple (list_get elem list index) s = refl
plain-Simple (dict_get elem dict key) s = refl
plain-Simple null s = elim s [ ]
plain-Simple (matrix_get _ _ _ _) s = elim s [ ]
plain-Simple (matrix_row _ _ _) s = elim s [ ]
plain-Simple (flex_bind _ _) s = elim s [ ]
plain-Simple (final_bind _ _) s = elim s [ ]
plain-Simple (list_set _ _ _) s = elim s [ ]
plain-Simple (dict_set _ _ _) s = elim s [ ]
plain-Simple (block _) s = elim s [ ]
plain-Simple (match_on _ _ _ _) s = elim s [ ]
plain-Simple (loop _ _) s = elim s [ ]
plain-Simple (for_each _ _ _) s = elim s [ ]
plain-Simple (range_for _ _ _ _ _) s = elim s [ ]
plain-Simple (if_then _ _ _) s = elim s [ ]
plain-Simple (return_of _) s = elim s [ ]
plain-Simple (main_entry _) s = elim s [ ]
plain-Simple (entry _) s = elim s [ ]
plain-Simple (visited _ _) s = elim s [ ]
plain-Simple (opaque _) s = elim s [ ]

rebind_shape :
    (same_node : Ir → Ir → Bool) (scrutinee : Ir) (deps : List (List ℕ)) (before : List Ir) (s : Ir)
    (rest : Irs) (t : List ℕ)
    → rebind_of same_node scrutinee deps before s rest ≡ some t
    → (x : List ℕ) × (value : Ir) × (s ≡ flex_bind (some x) value)
rebind_shape same_node scrutinee deps before s rest t h = ground arith

-- No conflict in a list is none in its parts.
prior_conflict-append :
    (xs ys : List Ir) (t : List ℕ) (deps : List (List ℕ))
    → prior_conflict (xs ++ ys) t deps ≡ false
    → (prior_conflict xs t deps ≡ false) × (prior_conflict ys t deps ≡ false)
unfolding prior_conflict
prior_conflict-append [] ys t deps h = (refl, h)
prior_conflict-append (x ∷ xs) ys t deps h = ground (arith, prior_conflict-append xs ys t deps)

writes_none :
    (s : Ir) (deps : List (List ℕ)) (n : List ℕ)
    → stmt_writes_any s deps ≡ false
    → has_name deps n ≡ true
    → stmt_writes_name s n ≡ false
unfolding stmt_writes_any has_name
writes_none s [] n h k = absurd (ground arith)
writes_none s (x ∷ deps) n h k =
    let (h1, h2) = or_false (stmt_writes_name s x) h in
    elim (or_split (same_text x n) k) [
      | inl p ↦ ap (stmt_writes_name s) (sym (same_text→≡ x n p)) ∙ h1
      | inr p ↦ writes_none s deps n h2 p
    ]

module _ {A : Type 0} (m : Machine A) (same_node : Ir → Ir → Bool) (scrutinee : Ir)
    (simple : Simple scrutinee) (same_node_sound : (a b : Ir) → same_node a b ≡ true → a ≡ b) where
  abbrev deps : List (List ℕ)
  deps = collect_expr_reads scrutinee []

  -- A statement without conflict leaves the scrutinee's value, and lets the write pass.
  passes :
      (s : Ir) (t : List ℕ) (f : List ℕ → A)
      → BindsSimple s
      → prior_conflict (s ∷ []) t deps ≡ false
      → put m (effect m s f) t (value_of m scrutinee (effect m s f))
        ≡ effect m s (put m f t (value_of m scrutinee f))
  unfolding prior_conflict
  passes s t f b h =
      let (r, h1) = or_false (stmt_reads_name s t) h in
      let (w, h2) = or_false (stmt_writes_name s t) h1 in
      let (d, h3) = or_false (stmt_writes_any s deps) h2 in
      let p : stmt_is_rebind_hoist_transparent s ≡ true = ground arith in
      let kept =
        (value_same m scrutinee [] (effect m s f) f simple
          (λ n k. effect_keeps m s f n p (writes_none s deps n d k))).0 in
      ap (put m (effect m s f) t) kept ∙ sym (effect_swap m s f t (value_of m scrutinee f) b p r w)

  -- The statement that is found binds the scrutinee's value.
  rebinds :
      (before : List Ir) (s : Ir) (rest : Irs) (t : List ℕ)
      → rebind_of same_node scrutinee deps before s rest ≡ some t
      → BindsSimple s
      → ((g : List ℕ → A) → effect m s g ≡ put m g t (value_of m scrutinee g))
        × (prior_conflict before t deps ≡ false)
  unfolding effect BindsSimple
  rebinds before s rest t h b =
      let (x, value, e) = rebind_shape same_node scrutinee deps before s rest t h in
      let differs = not (ir_expr_equiv same_node value scrutinee) in
      let clash = not (suffix_reads_name rest x) || prior_conflict before x deps in
      elim (if_split (differs || clash) (rw (e, rebind_of) at h)) [
        | inl (c, n) ↦ absurd (some-ne-none t (sym n))
        | inr (c, n) ↦
            let (d, c1) = or_false differs c in
            let (u, c2) = or_false (not (suffix_reads_name rest x)) c1 in
            let p : x ≡ t = some-injective x t n in
            let a : Simple value = subst BindsSimple e b in
            let same : ir_expr_equiv same_node value scrutinee ≡ true = ground arith in
            let q =
              sym (plain-Simple value a)
              ∙ ir_expr_equiv_sound same_node same_node_sound value scrutinee same
              ∙ plain-Simple scrutinee simple in
            (
              λ g. ap (λ y. effect m y g) e ∙ (λ i. put m g (p i) (value_of m (q i) g)),
              sym (ap (λ y. prior_conflict before y deps) p) ∙ c2,
            )
      ]

  -- What the search finds, and what the statements do with the bind moved to their front.
  pub found :
      (before : List Ir) (i : ℕ) (stmts : Irs) (r : DefaultRebind)
      → find_from same_node scrutinee deps before i stmts ≡ some r
      → AllSimple stmts
      → (prior_conflict before r.name deps ≡ false)
        × ((g : List ℕ → A) → effect m r.bind g ≡ put m g r.name (value_of m scrutinee g))
        × ((k : ℕ) × (r.index ≡ i + k)
            × ((f : List ℕ → A)
                → effects m stmts f
                  ≡ effects m (erase_at k stmts) (put m f r.name (value_of m scrutinee f))))
  unfolding find_from AllSimple erase_at effect
  found before i end r h b = absurd (some-ne-none r (sym h))
  found before i (stmt s rest) r h b =
      elim (Option-cases (rebind_of same_node scrutinee deps before s rest)) [
        | inr (t, e) ↦
            let (g, c) = rebinds before s rest t e b.0 in
            subst
              (λ (x : DefaultRebind).
                (prior_conflict before x.name deps ≡ false)
                × ((g' : List ℕ → A)
                    → effect m x.bind g' ≡ put m g' x.name (value_of m scrutinee g'))
                × ((k : ℕ) × (x.index ≡ i + k)
                    × ((f : List ℕ → A)
                        → effects m (stmt s rest) f
                          ≡ effects m (erase_at k (stmt s rest))
                              (put m f x.name (value_of m scrutinee f)))))
              (some-injective (record { index = i; bind = s; name = t }) r (rw (find_from, e) at h))
              (c, g, (0, omega arith, λ f. ap (effects m rest) (g f)))
        | inl e ↦
            let (c, g, (k, q, same)) =
              found (before ++ s ∷ []) (suc i) rest r (rw (find_from, e) at h) b.1 in
            let (c1, c2) = prior_conflict-append before (s ∷ []) r.name deps c in
            (
              c1,
              g,
              (
                suc k,
                omega (arith, q),
                λ f.
                    same (effect m s f)
                    ∙ ap (effects m (erase_at k rest)) (passes s r.name f b.0 c2),
              ),
            )
      ]
