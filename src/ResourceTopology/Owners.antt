-- ===== src/ResourceTopology/Owners.antt =====
-- `finalize` of src/StyioResourceTopology/ResourceTopology.cpp and the owners of the resources that
-- are to be closed; what is dropped at the end of the scope owns nothing.
use mathlib.Core.Bool.{true≢false}
use mathlib.Core.Logic.{◌↔◌}
use styio.Prelude.{
  ℕ, ◌+◌, ◌≡◌, refl, sym, ap, ◌∙◌, ◌⊎◌, true, false, ◌&&◌, ◌||◌, none, List, [], ◌∷◌, ◌++◌, length,
  ◌==◌, if◌then◌else◌, Bool-cases, inl, inr, arith,
}
use styio.Prelude.Scan.{codes}
use styio.ResourceTopology.{
  Node, Edge, Graph, EdgeKind, sink, closed, no_node, is_ownership, add_node, add_edge,
  close_capability, has_capability, none_capability,
}
use styio.ResourceTopology.Finalize.{drop_edges, drop_scope, owner_count, owner_errors}

-- An edge of ownership leads to the node.
abbrev pub Owned : List Edge → ℕ → Type 0
Owned [] id = ⊥
Owned (edge ∷ edges) id = ((is_ownership edge.kind ≡ true) × (edge.to ≡ id)) ⊎ Owned edges id

-- Every node that can be closed has an owner.
abbrev pub AllOwned : List Edge → List Node → Type 0
AllOwned edges [] = Unit
AllOwned edges (n ∷ nodes) =
    (has_capability n.capabilities close_capability ≡ true → Owned edges n.id)
    × AllOwned edges nodes

owner_count-Owned :
    (edges : List Edge) (id : ℕ)
    → ((owner_count edges id ≡ 0) × (¬ Owned edges id))
      ⊎ (((owner_count edges id == 0) ≡ false) × Owned edges id)
unfolding owner_count
owner_count-Owned [] id = inl (refl, λ o. o)
owner_count-Owned (edge ∷ edges) id = elim (Bool-cases (is_ownership edge.kind && edge.to == id)) [
  | inl e ↦ inr (ground arith, inl (ground arith, ground arith))
  | inr e ↦ elim (owner_count-Owned edges id) [
    | inl (z, n) ↦
        inl (ground arith, λ o. elim o [ inl (k, t) ↦ absurd (ground arith) | inr r ↦ n r ])
    | inr (z, o) ↦ inr (ground arith, inr o)
  ]
]

pub owner_errors-AllOwned :
    (phase : List ℕ) (edges : List Edge) (nodes : List Node)
    → (owner_errors phase edges nodes ≡ []) ↔ AllOwned edges nodes
unfolding owner_errors
owner_errors-AllOwned phase edges [] = (λ h. tt, λ h. refl)
owner_errors-AllOwned phase edges (n ∷ nodes) =
    let later = owner_errors-AllOwned phase edges nodes in
    elim (Bool-cases (has_capability n.capabilities close_capability)) [
      | inr c ↦ rw c (λ h. (λ k. absurd (true≢false (sym k)), later.0 h), λ h. later.1 h.1)
      | inl c ↦ elim (owner_count-Owned edges n.id) [
        | inl (z, o) ↦ rw (c, z) (λ h. absurd (ground arith), λ h. absurd (o (h.0 refl)))
        | inr (z, o) ↦ rw (c, z) (λ h. (λ k. o, later.0 h), λ h. later.1 h.1)
      ]
    ]

abbrev pub drop_label : List ℕ
drop_label = codes "scope-exit-drop"

abbrev pub commit_label : List ℕ
commit_label = codes "scope-exit-drop-commit"

-- The edges that the scope's end adds own nothing.
owner_count-concat :
    (edges : List Edge) (edge : Edge) (id : ℕ)
    → is_ownership edge.kind ≡ false
    → owner_count (edges ++ edge ∷ []) id ≡ owner_count edges id
unfolding owner_count
owner_count-concat [] edge id h = ground arith
owner_count-concat (e ∷ edges) edge id h =
    ap (λ k. (if is_ownership e.kind && e.to == id then 1 else 0) + k)
      (owner_count-concat edges edge id h)

owner_count-add_edge :
    (g : Graph) (kind : EdgeKind) (from to : ℕ) (label : List ℕ) (id : ℕ)
    → is_ownership kind ≡ false
    → owner_count (add_edge g kind from to label).edges id ≡ owner_count g.edges id
unfolding add_edge
owner_count-add_edge g kind from to label id h =
    elim (Bool-cases (from == no_node || to == no_node)) [
      | inl e ↦ rw e refl
      | inr e ↦ rw e (
          owner_count-concat g.edges (record { kind = kind; from = from; to = to; label = label })
            id h)
    ]

nodes-add_edge :
    (g : Graph) (kind : EdgeKind) (from to : ℕ) (label : List ℕ)
    → (add_edge g kind from to label).nodes ≡ g.nodes
unfolding add_edge
nodes-add_edge g kind from to label = elim (Bool-cases (from == no_node || to == no_node)) [
  | inl e ↦ rw e refl
  | inr e ↦ rw e refl
]

owner_count-drop_edges :
    (ids : List ℕ) (g : Graph) (at id : ℕ)
    → owner_count (drop_edges g at ids).edges id ≡ owner_count g.edges id
unfolding drop_edges
owner_count-drop_edges [] g at id = refl
owner_count-drop_edges (x ∷ ids) g at id = cc (
  owner_count-drop_edges ids
      (add_edge (add_edge g EdgeKind.mutation x at drop_label) EdgeKind.commit x at commit_label) at
      id,
  owner_count-add_edge (add_edge g EdgeKind.mutation x at drop_label) EdgeKind.commit x at
      commit_label id refl,
  owner_count-add_edge g EdgeKind.mutation x at drop_label id refl,
)

nodes-drop_edges : (ids : List ℕ) (g : Graph) (at : ℕ) → (drop_edges g at ids).nodes ≡ g.nodes
unfolding drop_edges
nodes-drop_edges [] g at = refl
nodes-drop_edges (x ∷ ids) g at = cc (
  nodes-drop_edges ids
      (add_edge (add_edge g EdgeKind.mutation x at drop_label) EdgeKind.commit x at commit_label)
      at,
  nodes-add_edge (add_edge g EdgeKind.mutation x at drop_label) EdgeKind.commit x at commit_label,
  nodes-add_edge g EdgeKind.mutation x at drop_label,
)

-- The errors depend on the owners counted, and not on a node without capabilities.
owner_errors_same :
    (phase : List ℕ) (edges edges' : List Edge) (nodes : List Node)
    → ((id : ℕ) → owner_count edges id ≡ owner_count edges' id)
    → owner_errors phase edges nodes ≡ owner_errors phase edges' nodes
unfolding owner_errors
owner_errors_same phase edges edges' [] h = refl
owner_errors_same phase edges edges' (n ∷ nodes) h =
    rw (h n.id, owner_errors_same phase edges edges' nodes h) refl

owner_errors-concat :
    (phase : List ℕ) (edges : List Edge) (nodes : List Node) (n : Node)
    → has_capability n.capabilities close_capability ≡ false
    → owner_errors phase edges (nodes ++ n ∷ []) ≡ owner_errors phase edges nodes
unfolding owner_errors
owner_errors-concat phase edges [] n h = rw h refl
owner_errors-concat phase edges (m ∷ nodes) n h =
    rw (owner_errors-concat phase edges nodes n h) refl

pub owner_errors-drop_scope :
    (phase : List ℕ) (g : Graph) (ids : List ℕ)
    → owner_errors phase (drop_scope g ids).edges (drop_scope g ids).nodes
      ≡ owner_errors phase g.edges g.nodes
unfolding drop_scope add_node
owner_errors-drop_scope phase g [] = refl
owner_errors-drop_scope phase g (x ∷ ids) =
    let r = add_node g sink (codes "@()") none_capability closed none in
    rw (nodes-drop_edges (x ∷ ids) r.0 r.1) (
      owner_errors-concat phase (drop_edges r.0 r.1 (x ∷ ids)).edges g.nodes
        (record {
          id = length g.nodes;
          kind = sink;
          label = codes "@()";
          capabilities = none_capability;
          state = closed;
          source = none;
        })
        refl
      ∙ owner_errors_same phase (drop_edges r.0 r.1 (x ∷ ids)).edges g.edges g.nodes
          (owner_count-drop_edges (x ∷ ids) r.0 r.1))
