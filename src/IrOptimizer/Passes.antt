-- ===== src/IrOptimizer/Passes.antt =====
-- src/StyioLowering/StyioIROptimizer.cpp: the canonical form of a match in a sequence of statements,
-- and the pass over a whole tree.
use styio.Prelude.{ℕ, zero, suc, Bool, false, ◌||◌, none, some, List, [], ◌∷◌, ◌++◌, if◌then◌else◌}
use styio.IrOptimizer.{
  Ir, Irs, Arms, res_id, bin_op, cond, list_len, dict_len, list_get, dict_get, matrix_get,
  matrix_row, flex_bind, final_bind, list_set, dict_set, block, match_on, loop, for_each, range_for,
  if_then, return_of, main_entry, entry, visited, end, stmt, no_arm, arm,
}
use styio.IrOptimizer.Rebind.{
  DefaultRebind, find_repeated_default_rebind, prefix_writes_name, suffix_mentions_name, stmts_of,
}

-- `stmts.erase(stmts.begin() + i)`
unfoldable pub erase_at : ℕ → Irs → Irs
erase_at i end = end
erase_at zero (stmt s rest) = rest
erase_at (suc i) (stmt s rest) = stmt s (erase_at i rest)

-- The block that replaces a match.
abbrev pub hoisted : DefaultRebind → Arms → Ir → ℕ → Ir
hoisted rebind arms default kind = block (
    stmt rebind.bind (
      stmt
        (match_on (res_id rebind.name false 0) arms
          (block (erase_at rebind.index (stmts_of default))) kind)
        end))

unfoldable pub canonicalize_match_in_sequence :
    (Ir → Ir → Bool) → List Ir → Irs → Ir → Arms → Ir → ℕ → Ir
unfolding erase_at find_repeated_default_rebind prefix_writes_name suffix_mentions_name
canonicalize_match_in_sequence same_node before after scrutinee arms default kind =
    elim (find_repeated_default_rebind same_node scrutinee default) [
      | none ↦ match_on scrutinee arms default kind
      | some rebind ↦
          if prefix_writes_name before rebind.name || suffix_mentions_name after rebind.name
          then match_on scrutinee arms default kind
          else hoisted rebind arms default kind
    ]

abbrev pub canonicalize_in : (Ir → Ir → Bool) → List Ir → Irs → Ir → Ir
canonicalize_in same_node before after (match_on scrutinee arms default kind) =
    canonicalize_match_in_sequence same_node before after scrutinee arms default kind
canonicalize_in same_node before after s = s

-- The second loop of `optimize_sequence`, the statements that it has done first.
unfoldable pub canonicalize_from : (Ir → Ir → Bool) → List Ir → Irs → Irs
unfolding canonicalize_match_in_sequence
canonicalize_from same_node before end = end
canonicalize_from same_node before (stmt s after) =
    let done = canonicalize_in same_node before after s in
    stmt done (canonicalize_from same_node (before ++ done ∷ []) after)

unfoldable mutual
  unfolding canonicalize_from

  pub optimize : (Ir → Ir → Bool) → Ir → Ir
  optimize same_node (block stmts) =
      block (canonicalize_from same_node [] (optimize_all same_node stmts))
  optimize same_node (main_entry stmts) =
      main_entry (canonicalize_from same_node [] (optimize_all same_node stmts))
  optimize same_node (entry stmts) =
      entry (canonicalize_from same_node [] (optimize_all same_node stmts))
  optimize same_node (flex_bind var value) = flex_bind var (optimize same_node value)
  optimize same_node (final_bind var value) = final_bind var (optimize same_node value)
  optimize same_node (bin_op op type lhs_type rhs_type l r) =
      bin_op op type lhs_type rhs_type (optimize same_node l) (optimize same_node r)
  optimize same_node (cond op l r) = cond op (optimize same_node l) (optimize same_node r)
  optimize same_node (return_of expr) = return_of (optimize same_node expr)
  optimize same_node (loop test body) = loop (optimize same_node test) (optimize same_node body)
  optimize same_node (for_each var iterable body) =
      for_each var (optimize same_node iterable) (optimize same_node body)
  optimize same_node (range_for var start stop step body) =
      range_for var (optimize same_node start) (optimize same_node stop) (optimize same_node step)
        (optimize same_node body)
  optimize same_node (if_then test then_block else_block) =
      if_then (optimize same_node test) (optimize same_node then_block)
        (optimize same_node else_block)
  optimize same_node (match_on scrutinee arms default kind) =
      match_on (optimize same_node scrutinee) (optimize_arms same_node arms)
        (optimize same_node default) kind
  optimize same_node (list_len list) = list_len (optimize same_node list)
  optimize same_node (dict_len dict) = dict_len (optimize same_node dict)
  optimize same_node (list_get elem list index) =
      list_get elem (optimize same_node list) (optimize same_node index)
  optimize same_node (dict_get elem dict key) =
      dict_get elem (optimize same_node dict) (optimize same_node key)
  optimize same_node (list_set list index value) =
      list_set (optimize same_node list) (optimize same_node index) (optimize same_node value)
  optimize same_node (dict_set dict key value) =
      dict_set (optimize same_node dict) (optimize same_node key) (optimize same_node value)
  optimize same_node (matrix_get elem matrix row col) =
      matrix_get elem (optimize same_node matrix) (optimize same_node row) (optimize same_node col)
  optimize same_node (matrix_row elem matrix row) =
      matrix_row elem (optimize same_node matrix) (optimize same_node row)
  optimize same_node (visited kind children) = visited kind (optimize_all same_node children)
  optimize same_node ir = ir

  pub optimize_all : (Ir → Ir → Bool) → Irs → Irs
  optimize_all same_node end = end
  optimize_all same_node (stmt s stmts) = stmt (optimize same_node s) (optimize_all same_node stmts)

  pub optimize_arms : (Ir → Ir → Bool) → Arms → Arms
  optimize_arms same_node no_arm = no_arm
  optimize_arms same_node (arm value body arms) =
      arm value (optimize same_node body) (optimize_arms same_node arms)
