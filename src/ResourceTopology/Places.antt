-- ===== src/ResourceTopology/Places.antt =====
-- The order of the resources that `finalize` of
-- src/StyioResourceTopology/ResourceTopology.cpp drops: the ids of nodes are their places, and the
-- later ones are dropped first.
use mathlib.Core.List.{reverse-append}
use styio.Prelude.{
  ℕ, suc, ◌+◌, ◌<◌, ◌≡◌, refl, ap, ◌∙◌, not, ◌||◌, Option, List, [], ◌∷◌, ◌++◌, length,
  length-concat, ◌≤◌, Bool-cases, inl, inr, arith, reverse,
}
use styio.ResourceTopology.{
  Node, Graph, NodeKind, TypeState, contains, add_node, close_capability, has_capability,
}
use styio.ResourceTopology.Finalize.{scope_drop_nodes}

-- The ids of nodes are their places.
abbrev pub Numbered : ℕ → List Node → Type 0
Numbered k [] = Unit
Numbered k (n ∷ nodes) = (n.id ≡ k) × Numbered (suc k) nodes

Numbered-concat :
    (k : ℕ) (nodes : List Node) (n : Node)
    → Numbered k nodes
    → n.id ≡ k + length nodes
    → Numbered k (nodes ++ n ∷ [])
Numbered-concat k [] n h e = (omega arith, tt)
Numbered-concat k (m ∷ nodes) n (q, h) e = (q, Numbered-concat (suc k) nodes n h (omega arith))

pub add_node-Numbered :
    (g : Graph) (kind : NodeKind) (label : List ℕ) (capabilities : ℕ) (state : TypeState)
    (source : Option ℕ)
    → Numbered 0 g.nodes
    → Numbered 0 (add_node g kind label capabilities state source).0.nodes
unfolding add_node
add_node-Numbered g kind label capabilities state source h =
    Numbered-concat 0 g.nodes
      (record {
        id = length g.nodes;
        kind = kind;
        label = label;
        capabilities = capabilities;
        state = state;
        source = source;
      })
      h (omega arith)

-- Falling numbers below `m`: each is there once, the larger one first.
abbrev pub Below : ℕ → List ℕ → Type 0
Below m [] = Unit
Below m (x ∷ xs) = (x < m) × Below x xs

-- The ids of nodes are their places, counted down from `k + length nodes` to `k`.
abbrev pub Falls : ℕ → List Node → Type 0
Falls k [] = Unit
Falls k (n ∷ nodes) = (n.id ≡ k + length nodes) × Falls k nodes

Falls-concat :
    (k : ℕ) (nodes : List Node) (n : Node)
    → Falls (suc k) nodes
    → n.id ≡ k
    → Falls k (nodes ++ n ∷ [])
Falls-concat k [] n h e = (omega (arith, e), tt)
Falls-concat k (m ∷ nodes) n (q, h) e =
    (omega (arith, q, length-concat nodes n), Falls-concat k nodes n h e)

pub Falls-reverse : (k : ℕ) (nodes : List Node) → Numbered k nodes → Falls k (reverse nodes)
Falls-reverse k [] h = tt
Falls-reverse k (n ∷ nodes) (q, h) =
    rw (reverse-append (n ∷ []) nodes)
      (Falls-concat k (reverse nodes) n (Falls-reverse (suc k) nodes h) q)

pub Below-weaken : (m m' : ℕ) (ids : List ℕ) → m ≤ m' → Below m ids → Below m' ids
Below-weaken m m' [] le h = tt
Below-weaken m m' (x ∷ ids) le (l, h) = (omega arith, h)

pub length-reverse : (nodes : List Node) → length (reverse nodes) ≡ length nodes
length-reverse [] = refl
length-reverse (n ∷ nodes) =
    rw (reverse-append (n ∷ []) nodes)
      (length-concat (reverse nodes) n ∙ ap suc (length-reverse nodes))

pub scope_drop_nodes-Below :
    (destroyed : List ℕ) (k : ℕ) (nodes : List Node)
    → Falls k nodes
    → Below (k + length nodes) (scope_drop_nodes destroyed nodes)
unfolding scope_drop_nodes
scope_drop_nodes-Below destroyed k [] h = tt
scope_drop_nodes-Below destroyed k (n ∷ nodes) (q, h) =
    let rest = scope_drop_nodes-Below destroyed k nodes h in
    elim (Bool-cases
      (not (has_capability n.capabilities close_capability) || contains destroyed n.id)) [
        | inl e ↦ rw e (Below-weaken (k + length nodes) _ _ (omega arith) rest)
        | inr e ↦
            rw e (omega (arith, q), Below-weaken (k + length nodes) _ _ (omega (arith, q)) rest)
      ]
