-- ===== src/ResourceTopology/Ends.antt =====
-- `finalize` of src/StyioResourceTopology/ResourceTopology.cpp as a whole: the conflicts, the owners
-- and the graph that it leaves.
use mathlib.Core.Bool.{true≢false}
use mathlib.Core.Logic.{◌↔◌}
use styio.Prelude.{
  ℕ, ◌≡◌, ◌≢◌, refl, sym, Bool, true, false, ◌||◌, none, some, List, [], ◌∷◌, ◌++◌, ◌==◌,
  if◌then◌else◌, Bool-cases, inl, inr, arith, reverse,
}
use styio.Prelude.Scan.{codes}
use styio.ResourceTopology.{
  Edge, Graph, EdgeKind, sink, closed, no_node, add_node, add_edge, none_capability,
}
use styio.ResourceTopology.Finalize.{
  ValidationError, Builder, scope_drop_nodes, drop_edges, drop_scope, owner_errors, finished,
  finalize,
}
use styio.ResourceTopology.Checks.{Avoids, PairsCompatible, InGraph, check_accesses_lem}
use styio.ResourceTopology.Owners.{
  AllOwned, owner_errors-AllOwned, owner_errors-drop_scope, drop_label, commit_label,
}

-- The construction keeps to edges between nodes.
Avoids-concat :
    (edges : List Edge) (edge : Edge)
    → Avoids edges
    → edge.from ≢ no_node
    → edge.to ≢ no_node
    → Avoids (edges ++ edge ∷ [])
Avoids-concat [] edge h f t = (f, t, tt)
Avoids-concat (e ∷ edges) edge (p, q, h) f t = (p, q, Avoids-concat edges edge h f t)

pub add_edge-Avoids :
    (g : Graph) (kind : EdgeKind) (from to : ℕ) (label : List ℕ)
    → Avoids g.edges
    → Avoids (add_edge g kind from to label).edges
unfolding add_edge
add_edge-Avoids g kind from to label h = elim (Bool-cases (from == no_node || to == no_node)) [
  | inl e ↦ rw e h
  | inr e ↦ rw e (
      Avoids-concat g.edges (record { kind = kind; from = from; to = to; label = label }) h
        (λ q. (ground arith)) (λ q. (ground arith)))
]

drop_edges-Avoids :
    (ids : List ℕ) (g : Graph) (at : ℕ) → Avoids g.edges → Avoids (drop_edges g at ids).edges
unfolding drop_edges
drop_edges-Avoids [] g at h = h
drop_edges-Avoids (x ∷ ids) g at h =
    let first = add_edge-Avoids g EdgeKind.mutation x at drop_label h in
    let second =
      add_edge-Avoids (add_edge g EdgeKind.mutation x at drop_label) EdgeKind.commit x at
        commit_label first in
    drop_edges-Avoids ids
      (add_edge (add_edge g EdgeKind.mutation x at drop_label) EdgeKind.commit x at commit_label) at
      second

drop_scope-Avoids : (g : Graph) (ids : List ℕ) → Avoids g.edges → Avoids (drop_scope g ids).edges
unfolding drop_scope add_node
drop_scope-Avoids g [] h = h
drop_scope-Avoids g (x ∷ ids) h =
    let r = add_node g sink (codes "@()") none_capability closed none in
    drop_edges-Avoids (x ∷ ids) r.0 r.1 h

append_empty : (xs ys : List ValidationError) → (xs ++ ys ≡ []) ↔ ((xs ≡ []) × (ys ≡ []))
append_empty [] ys = (λ h. (refl, h), λ h. h.1)
append_empty (x ∷ xs) ys = (λ h. absurd (ground arith), λ h. absurd (let k = h.0 in ground arith))

-- The errors of a program whose owners are asked for.
owned_lem :
    (required : Bool) (errors : List ValidationError) (P : Type 0)
    → (errors ≡ []) ↔ P
    → ((if required then errors else []) ≡ []) ↔ (required ≡ true → P)
owned_lem true errors P h = (λ e k. h.0 e, λ k. h.1 (k refl))
owned_lem false errors P h = (λ e k. absurd (true≢false (sym k)), λ k. refl)

-- The checks end, in a graph without edges at the missing node and with the accesses to its nodes.
-- The errors that they add are none exactly where no two accesses conflict and, if the options ask
-- for it, every node that can be closed has an owner. The graph stays one without such edges.
pub finalize_lem :
    (b : Builder)
    → Avoids b.graph.edges
    → InGraph b.graph b.resource_accesses
    → (r : Builder) × (finalize b ≡ some r)
      × Avoids r.graph.edges
      × ((es : List ValidationError) × (r.errors ≡ b.errors ++ es)
          × ((es ≡ []) ↔ (
              PairsCompatible b.graph.edges b.unordered_execution_nodes b.resource_accesses
              × (b.require_close_owner ≡ true → AllOwned b.graph.edges b.graph.nodes))))
unfolding finalize
finalize_lem b h k =
    let ids = scope_drop_nodes b.destroyed_resources (reverse b.graph.nodes) in
    let dropped = drop_scope b.graph ids in
    let (conflicts, e, c) =
      check_accesses_lem b.phase b.graph b.unordered_execution_nodes h b.resource_accesses k in
    let owners = owner_errors b.phase dropped.edges dropped.nodes in
    let found = if b.require_close_owner then owners else [] in
    let o : (owners ≡ []) ↔ AllOwned b.graph.edges b.graph.nodes =
      rw (owner_errors-drop_scope b.phase b.graph ids)
        (owner_errors-AllOwned b.phase b.graph.edges b.graph.nodes) in
    let p = owned_lem b.require_close_owner owners (AllOwned b.graph.edges b.graph.nodes) o in
    let q = append_empty conflicts found in
    (
      finished b dropped (conflicts ++ found),
      rw (finalize, e) refl,
      drop_scope-Avoids b.graph ids h,
      (
        conflicts ++ found,
        refl,
        (λ z. (c.0 (q.0 z).0, p.0 (q.0 z).1), λ z. q.1 (c.1 z.0, p.1 z.1)),
      ),
    )
