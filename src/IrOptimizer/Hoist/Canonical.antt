-- ===== src/IrOptimizer/Hoist/Canonical.antt =====
-- `canonicalize_match_in_sequence` of src/StyioLowering/StyioIROptimizer.cpp and what a match does.
use mathlib.Core.Option.{some-ne-none}
use styio.Prelude.{
  ℕ, Bool, true, false, ◌||◌, not, some, List, [], ◌==◌, ◌≡◌, ◌⊎◌, refl, sym, ap, ◌∙◌, Bool-cases,
  Option-cases, inl, inr, arith, or_false, if_split,
}
use styio.Prelude.Texts.{same_text_refl}
use styio.IrOptimizer.{Ir, Irs, Arms, block, match_on, no_arm, arm}
use styio.IrOptimizer.Analysis.{ir_expr_is_speculatable}
use styio.IrOptimizer.Rebind.{
  collect_expr_reads, DefaultRebind, find_from, find_repeated_default_rebind, stmts_of,
  prefix_writes_name, suffix_mentions_name,
}
use styio.IrOptimizer.Passes.{erase_at, hoisted, canonicalize_match_in_sequence}
use styio.IrOptimizer.Meaning.{Machine, put, value_of, effect, effects, arm_effect}
use styio.IrOptimizer.Hoist.{Simple, AllSimple}
use styio.IrOptimizer.Hoist.Found.{found}

block_shape :
    (same_node : Ir → Ir → Bool) (scrutinee default : Ir) (r : DefaultRebind)
    → find_repeated_default_rebind same_node scrutinee default ≡ some r
    → (stmts : Irs) × (default ≡ block stmts)
unfolding find_repeated_default_rebind find_from
block_shape same_node scrutinee default r h = ground arith

find_of :
    (same_node : Ir → Ir → Bool) (scrutinee default : Ir) (r : DefaultRebind)
    → find_repeated_default_rebind same_node scrutinee default ≡ some r
    → find_from same_node scrutinee (collect_expr_reads scrutinee []) [] 0 (stmts_of default)
      ≡ some r
unfolding find_repeated_default_rebind
find_of same_node scrutinee default r h =
    elim (if_split (not (ir_expr_is_speculatable scrutinee)) h) [
      | inl (c, n) ↦ absurd (some-ne-none r (sym n))
      | inr (c, n) ↦ n
    ]

-- Some arm is for the number.
unfoldable pub has_arm : ℕ → Arms → Bool
has_arm n no_arm = false
has_arm n (arm value body arms) = value == n || has_arm n arms

module _ {A : Type 0} (m : Machine A) where
  no_arm_effect :
      (n : ℕ) (arms : Arms) (otherwise f g : List ℕ → A)
      → has_arm n arms ≡ false
      → arm_effect m n arms otherwise f ≡ arm_effect m n arms otherwise g
  unfolding has_arm effect
  no_arm_effect n no_arm otherwise f g h = refl
  no_arm_effect n (arm value body arms) otherwise f g h =
      let (p, q) = or_false (value == n) h in rw p (no_arm_effect n arms otherwise f g q)

  module _ (same_node : Ir → Ir → Bool)
      (same_node_sound : (a b : Ir) → same_node a b ≡ true → a ≡ b)
      (read-write : (a b : A) → m.read false 0 (m.write a b) ≡ b) where
    effect-hoisted :
        (scrutinee default : Ir) (arms : Arms) (kind : ℕ) (r : DefaultRebind) (f : List ℕ → A)
        → Simple scrutinee
        → AllSimple (stmts_of default)
        → find_repeated_default_rebind same_node scrutinee default ≡ some r
        → effect m (hoisted r arms default kind) f
          ≡ arm_effect m
              (m.number (value_of m scrutinee f))
              arms
              (effect m default f)
              (put m f r.name (value_of m scrutinee f))
    unfolding effect find_repeated_default_rebind
    effect-hoisted scrutinee default arms kind r f s b h =
        let v = value_of m scrutinee f in
        let g0 = put m f r.name v in
        let (stmts, d) = block_shape same_node scrutinee default r h in
        let inside = find_of same_node scrutinee default r h in
        let (c, g, (k, q, same)) =
          found m same_node scrutinee s same_node_sound [] 0 (stmts_of default) r inside b in
        let at : r.index ≡ k = omega (arith, q) in
        let default_arm : effects m (erase_at r.index (stmts_of default)) g0 ≡ effect m default f =
          ap (λ i. effects m (erase_at i (stmts_of default)) g0) at
          ∙ sym (same f)
          ∙ ap (λ e. effects m (stmts_of e) f) d
          ∙ ap (λ e. effect m e f) (sym d) in
        let number : m.read false 0 (g0 r.name) ≡ v =
          rw (same_text_refl r.name) (read-write (f r.name) v) in
        let after_bind = λ (env : List ℕ → A).
          arm_effect m (m.number (m.read false 0 (env r.name))) arms
            (effects m (erase_at r.index (stmts_of default)) env) env in
        ap after_bind (g f) ∙ (λ i. arm_effect m (m.number (number i)) arms (default_arm i) g0)

    -- What a match does and what its canonical form does are the same, or the form differs in this
    -- alone: the arms for numbers start with one more name bound, to the scrutinee's value. The
    -- statements before the match do not write that name, and those behind it do not mention it.
    -- The scrutinee and the values bound in the default arm are simple; equal addresses are those of
    -- equal nodes; a variable that was written reads as what was written.
    pub canonicalize_match-effect :
        (before : List Ir) (after : Irs) (scrutinee : Ir) (arms : Arms) (default : Ir) (kind : ℕ)
        (f : List ℕ → A)
        → Simple scrutinee
        → AllSimple (stmts_of default)
        → (effect m
              (canonicalize_match_in_sequence same_node before after scrutinee arms default kind)
              f
            ≡ effect m (match_on scrutinee arms default kind) f)
          ⊎ ((name : List ℕ) × (prefix_writes_name before name ≡ false)
              × (suffix_mentions_name after name ≡ false)
              × (effect m
                    (canonicalize_match_in_sequence same_node before after scrutinee arms default
                      kind)
                    f
                  ≡ arm_effect m
                      (m.number (value_of m scrutinee f))
                      arms
                      (effect m default f)
                      (put m f name (value_of m scrutinee f))))
    unfolding canonicalize_match_in_sequence
    canonicalize_match-effect before after scrutinee arms default kind f s b =
        elim (Option-cases (find_repeated_default_rebind same_node scrutinee default)) [
          | inl e ↦ inl (rw (canonicalize_match_in_sequence, e) refl)
          | inr (r, e) ↦
              elim (Bool-cases
                (prefix_writes_name before r.name || suffix_mentions_name after r.name)) [
                  | inl c ↦ inl (rw (canonicalize_match_in_sequence, e, c) refl)
                  | inr c ↦
                      let (p, q) = or_false (prefix_writes_name before r.name) c in
                      inr (
                        r.name,
                        p,
                        q,
                        rw (canonicalize_match_in_sequence, e, c)
                            (effect-hoisted scrutinee default arms kind r f s b e),
                      )
                ]
        ]

    -- Where no arm is for the scrutinee's number, the canonical form does exactly what the match did.
    pub canonicalize_match-default :
        (before : List Ir) (after : Irs) (scrutinee : Ir) (arms : Arms) (default : Ir) (kind : ℕ)
        (f : List ℕ → A)
        → Simple scrutinee
        → AllSimple (stmts_of default)
        → has_arm (m.number (value_of m scrutinee f)) arms ≡ false
        → effect m
            (canonicalize_match_in_sequence same_node before after scrutinee arms default kind)
            f
          ≡ effect m (match_on scrutinee arms default kind) f
    unfolding effect
    canonicalize_match-default before after scrutinee arms default kind f s b h =
        elim (canonicalize_match-effect before after scrutinee arms default kind f s b) [
          | inl e ↦ e
          | inr (name, p, q, e) ↦
              e
              ∙ no_arm_effect (m.number (value_of m scrutinee f)) arms (effect m default f)
                  (put m f name (value_of m scrutinee f)) f h
        ]
