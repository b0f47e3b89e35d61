-- ===== src/ResourceTopology/Tests.antt =====
-- Runs of the resource graph, and its theorems at concrete graphs.
use mathlib.Core.Logic.{◌↔◌}
use styio.Prelude.{
  ℕ, ◌≡◌, refl, ◌⊎◌, true, false, Option, none, some, List, [], ◌∷◌, ◌++◌, length, map, arith,
}
use styio.Prelude.Scan.{codes}
use styio.ResourceTopology.{
  Graph, Node, handle, task, happens_before, opened, unknown, add_node, add_edge, ordered_before,
  search_from, push_targets, contains,
}
use styio.ResourceTopology.Order.{Chain}
use styio.ResourceTopology.Decides.{ordered_before-Chain}
use styio.ResourceTopology.Finalize.{
  Builder, ResourceAccess, ValidationError, finalize, check_accesses, check_with, scope_drop_nodes,
  drop_scope, drop_edges, owner_errors, owner_count,
}
use styio.ResourceTopology.Checks.{Avoids, PairsCompatible, InGraph, not_from, not_to}
use styio.ResourceTopology.Owners.{AllOwned}
use styio.ResourceTopology.Ends.{finalize_lem}
use styio.ResourceTopology.Drops.{Droppable, drops, nodes_dropped, finalize-drops}
use styio.ResourceTopology.Places.{Below}

abbrev file_node : Node
file_node = record {
  id = 0;
  kind = handle;
  label = codes "f";
  capabilities = 11;
  state = opened;
  source = none;
}

-- A file that three tasks use, the first before the second, and nobody owns.
abbrev three_tasks : Graph
three_tasks = record {
  nodes =
      file_node
      ∷ record {
        id = 1;
        kind = task;
        label = codes "t";
        capabilities = 0;
        state = unknown;
        source = none;
      }
      ∷ record {
        id = 2;
        kind = task;
        label = codes "u";
        capabilities = 0;
        state = unknown;
        source = none;
      }
      ∷ record {
        id = 3;
        kind = task;
        label = codes "v";
        capabilities = 0;
        state = unknown;
        source = none;
      }
      ∷ [];
  edges =
      record { kind = happens_before; from = 1; to = 2; label = [] }
      ∷ record { kind = happens_before; from = 2; to = 1; label = [] }
      ∷ [];
}

three_tasks-Avoids : Avoids three_tasks.edges
three_tasks-Avoids = omega arith

first_before_second : ordered_before three_tasks 1 2 ≡ some true
unfolding ordered_before search_from push_targets contains
first_before_second = refl

cycle_never_leads_out : ordered_before three_tasks 1 3 ≡ some false
unfolding ordered_before search_from push_targets contains
cycle_never_leads_out = refl

ordered_before-Chain_example :
    ((ordered_before three_tasks 1 3 ≡ some true) × Chain three_tasks.edges 3 1)
    ⊎ ((ordered_before three_tasks 1 3 ≡ some false) × (¬ Chain three_tasks.edges 3 1))
ordered_before-Chain_example =
    ordered_before-Chain three_tasks 1 3 (not_from three_tasks.edges three_tasks-Avoids)
      (not_to three_tasks.edges three_tasks-Avoids)

abbrev written_by : ℕ → ResourceAccess
written_by owner = record {
  resource = 0;
  owner = owner;
  exclusive = true;
  source = none;
  label = codes "w";
}

abbrev built : List ResourceAccess → Builder
built accesses = record {
  phase = codes "p";
  require_close_owner = true;
  graph = three_tasks;
  errors = [];
  resource_accesses = accesses;
  destroyed_resources = [];
  unordered_execution_nodes = 1 ∷ 2 ∷ 3 ∷ [];
}

abbrev messages_of : Option Builder → List (List ℕ)
messages_of none = []
messages_of (some b) = map (λ e. e.message) b.errors

ordered_writes_only_lack_an_owner :
    messages_of (finalize (built (written_by 1 ∷ written_by 2 ∷ [])))
    ≡ codes "p: close-capable resource has no owner: f" ∷ []
unfolding finalize check_accesses check_with ordered_before search_from push_targets contains
    scope_drop_nodes drop_scope drop_edges owner_errors owner_count add_node add_edge
ordered_writes_only_lack_an_owner = refl

unordered_writes_conflict :
    messages_of (finalize (built (written_by 1 ∷ written_by 3 ∷ [])))
    ≡ codes "p: unordered exclusive resource borrow: f via w and w"
      ∷ codes "p: close-capable resource has no owner: f"
      ∷ []
unfolding finalize check_accesses check_with ordered_before search_from push_targets contains
    scope_drop_nodes drop_scope drop_edges owner_errors owner_count add_node add_edge
unordered_writes_conflict = refl

abbrev conflict : Builder
conflict = built (written_by 1 ∷ written_by 3 ∷ [])

conflict-InGraph : InGraph conflict.graph conflict.resource_accesses
conflict-InGraph = ((file_node, refl), ((file_node, refl), tt))

finalize_example :
    (r : Builder) × (finalize conflict ≡ some r)
    × Avoids r.graph.edges
    × ((es : List ValidationError) × (r.errors ≡ conflict.errors ++ es)
        × ((es ≡ []) ↔ (
            PairsCompatible conflict.graph.edges conflict.unordered_execution_nodes
              conflict.resource_accesses
            × (conflict.require_close_owner ≡ true
                → AllOwned conflict.graph.edges conflict.graph.nodes))))
finalize_example = finalize_lem conflict three_tasks-Avoids conflict-InGraph

finalize-drops_example :
    (r : Builder) × (ids : List ℕ) × (finalize conflict ≡ some r)
    × (r.graph.edges ≡ conflict.graph.edges ++ drops ids (length conflict.graph.nodes))
    × (r.graph.nodes ≡ nodes_dropped conflict.graph.nodes ids)
    × Below (length conflict.graph.nodes) ids
    × ((x : ℕ)
        → (contains ids x ≡ true) ↔ Droppable conflict.destroyed_resources conflict.graph.nodes x)
finalize-drops_example =
    finalize-drops conflict three_tasks-Avoids (omega arith) (omega arith) conflict-InGraph
