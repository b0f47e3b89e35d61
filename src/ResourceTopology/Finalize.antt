-- ===== src/ResourceTopology/Finalize.antt =====
-- src/StyioResourceTopology/ResourceTopology.cpp: the parts of `Builder` that collect accesses to
-- resources, and `finalize`, which checks them. An exception (`Graph::node` out of range) is `none`.
use mathlib.Core.Option
use styio.Prelude.{
  ℕ, ◌+◌, Bool, true, false, not, ◌&&◌, ◌||◌, Option, none, some, List, [], ◌∷◌, ◌++◌, reverse,
  ◌==◌, if◌then◌else◌,
}
use styio.Prelude.Scan.{codes}
use styio.ResourceTopology.{
  Node, Edge, Graph, sink, mutation, commit, ownership, closed, no_node, none_capability,
  close_capability, has_capability, add_node, add_edge, node, is_ownership, contains,
  ordered_before,
}

pub record ValidationError : Type 0 where
  pub message : List ℕ
  pub source : Option ℕ

pub record ResourceAccess : Type 0 where
  pub resource : ℕ
  pub owner : ℕ
  pub exclusive : Bool
  pub source : Option ℕ
  pub label : List ℕ

-- The members of `Builder` that `finalize` reads or writes.
pub record Builder : Type 0 where
  pub phase : List ℕ
  pub require_close_owner : Bool
  pub graph : Graph
  pub errors : List ValidationError
  pub resource_accesses : List ResourceAccess
  pub destroyed_resources : List ℕ
  pub unordered_execution_nodes : List ℕ

-- The error that `error` pushes.
abbrev pub error_of : List ℕ → List ℕ → Option ℕ → ValidationError
error_of phase msg source = record { message = phase ++ (codes ": " ++ msg); source = source }

abbrev with_error : Builder → List ℕ → Option ℕ → Builder
with_error b msg source = record {
  phase = b.phase;
  require_close_owner = b.require_close_owner;
  graph = b.graph;
  errors = b.errors ++ error_of b.phase msg source ∷ [];
  resource_accesses = b.resource_accesses;
  destroyed_resources = b.destroyed_resources;
  unordered_execution_nodes = b.unordered_execution_nodes;
}

unfoldable pub require_cap : Builder → ℕ → ℕ → List ℕ → Option ℕ → Option Builder
require_cap b node_id cap msg source =
    if node_id == no_node
    then some (with_error b (msg ++ codes " (missing node)") source)
    else Option.map
        (λ n.
          if has_capability n.capabilities cap
          then b
          else with_error b (msg ++ (codes ": " ++ n.label)) source)
        (node b.graph node_id)

unfoldable pub own_if_close : Graph → ℕ → ℕ → Option Graph
own_if_close g owner resource =
    if owner == no_node || resource == no_node
    then some g
    else Option.map
        (λ n.
          if has_capability n.capabilities close_capability
          then add_edge g ownership owner resource (codes "close-owner")
          else g)
        (node g resource)

unfoldable pub record_access :
    List ResourceAccess → ℕ → ℕ → Bool → Option ℕ → List ℕ → List ResourceAccess
record_access accesses resource owner exclusive source label =
    if resource == no_node
    then accesses
    else accesses
      ++ record {
        resource = resource;
        owner = if owner == no_node then 0 else owner;
        exclusive = exclusive;
        source = source;
        label = label;
      }
        ∷ []

abbrev or_else : Option ℕ → Option ℕ → Option ℕ
or_else none other = other
or_else (some x) other = some x

-- `happens_before(a, b) || happens_before(b, a)`
abbrev pub either_order : Graph → ℕ → ℕ → Option Bool
either_order g a b = elim (ordered_before g a b) [
  | none ↦ none
  | some true ↦ some true
  | some false ↦ ordered_before g b a
]

abbrev pub borrow_error : List ℕ → Graph → ResourceAccess → ResourceAccess → Option ValidationError
borrow_error phase g a b =
    Option.map
      (λ n.
        error_of phase
          (codes "unordered exclusive resource borrow: "
            ++ (n.label ++ (codes " via " ++ (a.label ++ (codes " and " ++ b.label)))))
          (or_else a.source b.source))
      (node g a.resource)

-- What `finalize` does for two accesses.
abbrev pub check_pair :
    List ℕ → Graph → List ℕ → ResourceAccess → ResourceAccess → Option (List ValidationError)
check_pair phase g unordered a b =
    if not (a.resource == b.resource)
    then some []
    else if not a.exclusive && not b.exclusive
    then some []
    else if a.owner == b.owner
    then some []
    else if not (contains unordered a.owner) || not (contains unordered b.owner)
    then some []
    else elim (either_order g a.owner b.owner) [
      | none ↦ none
      | some true ↦ some []
      | some false ↦ Option.map (λ e. e ∷ []) (borrow_error phase g a b)
    ]

abbrev pub both_lists :
    Option (List ValidationError) → Option (List ValidationError) → Option (List ValidationError)
both_lists none other = none
both_lists (some xs) none = none
both_lists (some xs) (some ys) = some (xs ++ ys)

unfoldable pub check_with :
    List ℕ → Graph → List ℕ → ResourceAccess → List ResourceAccess → Option (List ValidationError)
check_with phase g unordered a [] = some []
check_with phase g unordered a (b ∷ rest) =
    both_lists (check_pair phase g unordered a b) (check_with phase g unordered a rest)

unfoldable pub check_accesses :
    List ℕ → Graph → List ℕ → List ResourceAccess → Option (List ValidationError)
check_accesses phase g unordered [] = some []
check_accesses phase g unordered (a ∷ rest) =
    both_lists (check_with phase g unordered a rest) (check_accesses phase g unordered rest)

-- The ids of the nodes that are dropped at the scope's end, of the nodes given, the last one first.
unfoldable pub scope_drop_nodes : List ℕ → List Node → List ℕ
scope_drop_nodes destroyed [] = []
scope_drop_nodes destroyed (n ∷ nodes) =
    let later = scope_drop_nodes destroyed nodes in
    if not (has_capability n.capabilities close_capability) || contains destroyed n.id
    then later
    else n.id ∷ later

unfoldable pub drop_edges : Graph → ℕ → List ℕ → Graph
unfolding add_edge
drop_edges g destroy_sink [] = g
drop_edges g destroy_sink (id ∷ ids) =
    drop_edges
      (add_edge (add_edge g mutation id destroy_sink (codes "scope-exit-drop")) commit id
        destroy_sink (codes "scope-exit-drop-commit"))
      destroy_sink ids

unfoldable pub drop_scope : Graph → List ℕ → Graph
unfolding add_node drop_edges
drop_scope g [] = g
drop_scope g (id ∷ ids) =
    let r = add_node g sink (codes "@()") none_capability closed none in
    drop_edges r.0 r.1 (id ∷ ids)

-- `close_owner_count[id]`
unfoldable pub owner_count : List Edge → ℕ → ℕ
owner_count [] id = 0
owner_count (edge ∷ edges) id =
    (if is_ownership edge.kind && edge.to == id then 1 else 0) + owner_count edges id

unfoldable pub owner_errors : List ℕ → List Edge → List Node → List ValidationError
unfolding owner_count
owner_errors phase edges [] = []
owner_errors phase edges (n ∷ nodes) =
    let later = owner_errors phase edges nodes in
    if has_capability n.capabilities close_capability && owner_count edges n.id == 0
    then error_of phase (codes "close-capable resource has no owner: " ++ n.label) n.source ∷ later
    else later

abbrev pub finished : Builder → Graph → List ValidationError → Builder
finished b g errors = record {
  phase = b.phase;
  require_close_owner = b.require_close_owner;
  graph = g;
  errors = b.errors ++ errors;
  resource_accesses = b.resource_accesses;
  destroyed_resources = b.destroyed_resources;
  unordered_execution_nodes = b.unordered_execution_nodes;
}

unfoldable pub finalize : Builder → Option Builder
finalize b =
    let dropped =
      drop_scope b.graph (scope_drop_nodes b.destroyed_resources (reverse b.graph.nodes)) in
    elim (check_accesses b.phase b.graph b.unordered_execution_nodes b.resource_accesses) [
      | none ↦ none
      | some conflicts ↦ some (
          finished b dropped (
            conflicts
            ++ (if b.require_close_owner
                then owner_errors b.phase dropped.edges dropped.nodes
                else [])))
    ]
