-- ===== src/ResourceTopology/Drops.antt =====
-- The resources that `finalize` of src/StyioResourceTopology/ResourceTopology.cpp drops at the end
-- of the scope.
use mathlib.Core.Option.{some-injective, some-ne-none}
use mathlib.Core.List.{append-nil, append_assoc, reverse-append}
use mathlib.Core.Logic.{◌↔◌}
use styio.Prelude.{
  ℕ, suc, ◌+◌, ◌<◌, ◌≡◌, ◌≢◌, refl, sym, ap, ◌∙◌, ◌⊎◌, true, false, not, ◌||◌, none, some, List, [],
  ◌∷◌, ◌++◌, length, ◌==◌, Bool-cases, Option-cases, ==_iff, inl, inr, arith, reverse,
}
use styio.Prelude.Scan.{codes}
use styio.ResourceTopology.{
  Node, Edge, Graph, EdgeKind, sink, closed, no_node, contains, add_node, add_edge,
  close_capability, has_capability, none_capability,
}
use styio.ResourceTopology.Finalize.{
  Builder, check_accesses, scope_drop_nodes, drop_edges, drop_scope, finalize,
}
use styio.ResourceTopology.Checks.{Avoids, InGraph}
use styio.ResourceTopology.Owners.{drop_label, commit_label}
use styio.ResourceTopology.Ends.{finalize_lem}
use styio.ResourceTopology.Places.{
  Numbered, Below, Below-weaken, Falls-reverse, length-reverse, scope_drop_nodes-Below,
}

-- The id of a node that can be closed and was not destroyed.
abbrev pub Droppable : List ℕ → List Node → ℕ → Type 0
Droppable destroyed [] x = ⊥
Droppable destroyed (n ∷ nodes) x =
    ((has_capability n.capabilities close_capability ≡ true)
      × (contains destroyed n.id ≡ false)
      × (n.id ≡ x))
    ⊎ Droppable destroyed nodes x

-- The edges of the drops.
abbrev pub drops : List ℕ → ℕ → List Edge
drops [] at = []
drops (x ∷ ids) at =
    record { kind = EdgeKind.mutation; from = x; to = at; label = drop_label }
    ∷ record { kind = EdgeKind.commit; from = x; to = at; label = commit_label }
    ∷ drops ids at

Droppable-below :
    (destroyed : List ℕ) (k : ℕ) (nodes : List Node) (x : ℕ)
    → Numbered k nodes
    → Droppable destroyed nodes x
    → x < k + length nodes
Droppable-below destroyed k [] x h d = absurd d
Droppable-below destroyed k (n ∷ nodes) x (q, h) (inl (c, e, i)) = omega (arith, q, i)
Droppable-below destroyed k (n ∷ nodes) x (q, h) (inr d) =
    omega (arith, Droppable-below destroyed (suc k) nodes x h d)

Droppable-concat :
    (destroyed : List ℕ) (nodes : List Node) (n : Node) (x : ℕ)
    → Droppable destroyed (nodes ++ n ∷ []) x ↔ Droppable destroyed (n ∷ nodes) x
Droppable-concat destroyed [] n x = (λ d. d, λ d. d)
Droppable-concat destroyed (m ∷ nodes) n x =
    let rest = Droppable-concat destroyed nodes n x in
    (
      λ d. elim d [
        | inl p ↦ inr (inl p)
        | inr r ↦ elim (rest.0 r) [ inl p ↦ inl p | inr q ↦ inr (inr q) ]
      ],
      λ d. elim d [
        | inl p ↦ inr (rest.1 (inl p))
        | inr r ↦ elim r [ inl p ↦ inl p | inr q ↦ inr (rest.1 (inr q)) ]
      ],
    )

Droppable-reverse :
    (destroyed : List ℕ) (nodes : List Node) (x : ℕ)
    → Droppable destroyed (reverse nodes) x ↔ Droppable destroyed nodes x
Droppable-reverse destroyed [] x = (λ d. d, λ d. d)
Droppable-reverse destroyed (n ∷ nodes) x =
    let rest = Droppable-reverse destroyed nodes x in
    let end = Droppable-concat destroyed (reverse nodes) n x in
    rw (reverse-append (n ∷ []) nodes) (
      λ d. elim (end.0 d) [ inl p ↦ inl p | inr r ↦ inr (rest.0 r) ],
      λ d. end.1 (elim d [ inl p ↦ inl p | inr r ↦ inr (rest.1 r) ]),
    )

scope_drop_nodes-Droppable :
    (destroyed : List ℕ) (nodes : List Node) (x : ℕ)
    → (contains (scope_drop_nodes destroyed nodes) x ≡ true) ↔ Droppable destroyed nodes x
unfolding scope_drop_nodes contains
scope_drop_nodes-Droppable destroyed [] x = (λ h. absurd (ground arith), λ d. absurd d)
scope_drop_nodes-Droppable destroyed (n ∷ nodes) x =
    let rest = scope_drop_nodes-Droppable destroyed nodes x in
    elim (Bool-cases
      (not (has_capability n.capabilities close_capability) || contains destroyed n.id)) [
        | inl e ↦ rw e (
          λ h. inr (rest.0 h),
          λ d. elim d [ inl (c, f, i) ↦ absurd (ground arith) | inr r ↦ rest.1 r ],
        )
        | inr e ↦ rw e (
          λ h. elim (Bool-cases (n.id == x)) [
            | inl i ↦ inl (ground arith, ground arith, (==_iff n.id x).0 i)
            | inr i ↦ inr (rest.0 (ground arith))
          ],
          λ d. elim d [ inl (c, f, i) ↦ ground arith | inr r ↦ (let k = rest.1 r in ground arith) ],
        )
      ]

-- All but the missing node.
abbrev Present : List ℕ → Type 0
Present ids = (x : ℕ) → contains ids x ≡ true → x ≢ no_node

edges-add_edge :
    (g : Graph) (kind : EdgeKind) (from to : ℕ) (label : List ℕ)
    → from ≢ no_node
    → to ≢ no_node
    → (add_edge g kind from to label).edges
      ≡ g.edges ++ record { kind = kind; from = from; to = to; label = label } ∷ []
unfolding add_edge
edges-add_edge g kind from to label p q = elim (Bool-cases (from == no_node || to == no_node)) [
  | inl e ↦ absurd (ground arith)
  | inr e ↦ rw e refl
]

edges-drop_edges :
    (ids : List ℕ) (g : Graph) (at : ℕ)
    → Present ids
    → at ≢ no_node
    → (drop_edges g at ids).edges ≡ g.edges ++ drops ids at
unfolding drop_edges contains
edges-drop_edges [] g at h q = sym (append-nil g.edges)
edges-drop_edges (x ∷ ids) g at h q =
    let p : x ≢ no_node = h x (ground arith) in
    let g1 = add_edge g EdgeKind.mutation x at drop_label in
    let g2 = add_edge g1 EdgeKind.commit x at commit_label in
    let m : Edge = record { kind = EdgeKind.mutation; from = x; to = at; label = drop_label } in
    let c : Edge = record { kind = EdgeKind.commit; from = x; to = at; label = commit_label } in
    edges-drop_edges ids g2 at (λ y k. h y (ground arith)) q
    ∙ ap (λ es. es ++ drops ids at)
        (edges-add_edge g1 EdgeKind.commit x at commit_label p q
          ∙ ap (λ es. es ++ c ∷ []) (edges-add_edge g EdgeKind.mutation x at drop_label p q))
    ∙ append_assoc (g.edges ++ m ∷ []) (c ∷ []) (drops ids at)
    ∙ append_assoc g.edges (m ∷ []) (c ∷ drops ids at)

edges-drop_scope :
    (g : Graph) (ids : List ℕ)
    → Present ids
    → length g.nodes ≢ no_node
    → (drop_scope g ids).edges ≡ g.edges ++ drops ids (length g.nodes)
unfolding drop_scope add_node
edges-drop_scope g [] h q = sym (append-nil g.edges)
edges-drop_scope g (x ∷ ids) h q =
    let r = add_node g sink (codes "@()") none_capability closed none in
    edges-drop_edges (x ∷ ids) r.0 r.1 h q

graph-finalize :
    (b r : Builder)
    → finalize b ≡ some r
    → r.graph ≡ drop_scope b.graph (scope_drop_nodes b.destroyed_resources (reverse b.graph.nodes))
unfolding finalize
graph-finalize b r e =
    elim (Option-cases
      (check_accesses b.phase b.graph b.unordered_execution_nodes b.resource_accesses)) [
        | inl n ↦ absurd (some-ne-none r (sym (rw (finalize, n) at e)))
        | inr (es, n) ↦
            ap (λ (x : Builder). x.graph) (sym (some-injective _ r (rw (finalize, n) at e)))
      ]

-- The node that the drops end at, of a graph with so many nodes.
abbrev pub drop_sink : ℕ → Node
drop_sink at = record {
  id = at;
  kind = sink;
  label = codes "@()";
  capabilities = none_capability;
  state = closed;
  source = none;
}

-- The nodes of the graph, with a sink behind them where a node is dropped.
abbrev pub nodes_dropped : List Node → List ℕ → List Node
nodes_dropped nodes [] = nodes
nodes_dropped nodes (x ∷ ids) = nodes ++ drop_sink (length nodes) ∷ []

nodes-add_edge :
    (g : Graph) (kind : EdgeKind) (from to : ℕ) (label : List ℕ)
    → (add_edge g kind from to label).nodes ≡ g.nodes
unfolding add_edge
nodes-add_edge g kind from to label = ground arith

nodes-drop_edges : (ids : List ℕ) (g : Graph) (at : ℕ) → (drop_edges g at ids).nodes ≡ g.nodes
unfolding drop_edges
nodes-drop_edges [] g at = refl
nodes-drop_edges (x ∷ ids) g at =
    let g1 = add_edge g EdgeKind.mutation x at drop_label in
    let g2 = add_edge g1 EdgeKind.commit x at commit_label in
    nodes-drop_edges ids g2 at
    ∙ nodes-add_edge g1 EdgeKind.commit x at commit_label
    ∙ nodes-add_edge g EdgeKind.mutation x at drop_label

nodes-drop_scope : (g : Graph) (ids : List ℕ) → (drop_scope g ids).nodes ≡ nodes_dropped g.nodes ids
unfolding drop_scope add_node
nodes-drop_scope g [] = refl
nodes-drop_scope g (x ∷ ids) =
    let r = add_node g sink (codes "@()") none_capability closed none in
    nodes-drop_edges (x ∷ ids) r.0 r.1

-- In a graph whose node ids are their places and below the missing node, with its edges and
-- accesses at its nodes, the checks end and add to the edges, for a list of nodes, one edge of
-- mutation and one of commitment from each to a node placed behind all others. That list holds
-- the nodes that can be closed and were not destroyed, and no other, each once and the later ones
-- first. The node behind is a closed sink, and is added where the list is not empty; no other node
-- is added or changed.
pub finalize-drops :
    (b : Builder)
    → Avoids b.graph.edges
    → Numbered 0 b.graph.nodes
    → length b.graph.nodes < no_node
    → InGraph b.graph b.resource_accesses
    → (r : Builder) × (ids : List ℕ) × (finalize b ≡ some r)
      × (r.graph.edges ≡ b.graph.edges ++ drops ids (length b.graph.nodes))
      × (r.graph.nodes ≡ nodes_dropped b.graph.nodes ids)
      × Below (length b.graph.nodes) ids
      × ((x : ℕ) → (contains ids x ≡ true) ↔ Droppable b.destroyed_resources b.graph.nodes x)
unfolding finalize
finalize-drops b h n l k =
    let ids = scope_drop_nodes b.destroyed_resources (reverse b.graph.nodes) in
    let exact : (x : ℕ)
        → (contains ids x ≡ true) ↔ Droppable b.destroyed_resources b.graph.nodes x =
      λ x.
        (let p = scope_drop_nodes-Droppable b.destroyed_resources (reverse b.graph.nodes) x in
          let q = Droppable-reverse b.destroyed_resources b.graph.nodes x in
          (λ c. q.0 (p.0 c), λ d. p.1 (q.1 d))) in
    let present : Present ids = λ x c e.
      (let below = Droppable-below b.destroyed_resources 0 b.graph.nodes x n ((exact x).0 c) in
        absurd (omega arith)) in
    let (r, e, a, rest) = finalize_lem b h k in
    (
      r,
      ids,
      e,
      ap (λ g. g.edges) (graph-finalize b r e)
          ∙ edges-drop_scope b.graph ids present (λ q. (omega arith)),
      ap (λ g. g.nodes) (graph-finalize b r e) ∙ nodes-drop_scope b.graph ids,
      Below-weaken (0 + length (reverse b.graph.nodes)) (length b.graph.nodes) ids
          (omega (arith, length-reverse b.graph.nodes))
          (scope_drop_nodes-Below b.destroyed_resources 0 (reverse b.graph.nodes)
            (Falls-reverse 0 b.graph.nodes n)),
      exact,
    )
