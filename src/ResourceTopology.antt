-- ===== src/ResourceTopology.antt =====
-- src/StyioResourceTopology/ResourceTopology.hpp and ResourceTopology.cpp: the graph of a
-- program's resources, the order of its executions, and the checks that finish its construction.
-- A pointer into the syntax tree is its address. An exception is `none`.
pub mod Order
pub mod Decides
pub mod Finalize
pub mod Checks
pub mod Owners
pub mod Ends
pub mod Places
pub mod Drops
mod Tests
use Prim.Native.Nat.{bit_and}
use styio.Prelude.{
  ℕ, zero, suc, ◌+◌, Bool, true, false, not, ◌&&◌, ◌||◌, Option, none, some, List, [], ◌∷◌, ◌++◌,
  length, get_elem?, ltb, ◌==◌, if◌then◌else◌,
}
use styio.Prelude.Scan.{codes}

-- `kNoNode`
abbrev pub no_node : ℕ
no_node = 18446744073709551615

-- `Capability` is a set of bits.
abbrev pub none_capability : ℕ
none_capability = 0

abbrev pub close_capability : ℕ
close_capability = 8

abbrev pub has_capability : ℕ → ℕ → Bool
has_capability caps cap = not (bit_and caps cap == 0)

pub data NodeKind : Type 0 where
  program driver_source handle stream_op state_slot hidden_ledger sink task failure_domain value :
      NodeKind

pub data EdgeKind : Type 0 where
  flow intent ownership borrow mutation backpressure commit happens_before failure placement :
      EdgeKind

pub data TypeState : Type 0 where
  unknown declared opened eof closed materialized ready : TypeState

pub record Node : Type 0 where
  pub id : ℕ
  pub kind : NodeKind
  pub label : List ℕ
  pub capabilities : ℕ
  pub state : TypeState
  pub source : Option ℕ

pub record Edge : Type 0 where
  pub kind : EdgeKind
  pub from : ℕ
  pub to : ℕ
  pub label : List ℕ

pub record Graph : Type 0 where
  pub nodes : List Node
  pub edges : List Edge

abbrev pub empty : Graph
empty = record { nodes = []; edges = [] }

unfoldable pub add_node : Graph → NodeKind → List ℕ → ℕ → TypeState → Option ℕ → Graph × ℕ
add_node g kind label capabilities state source = (
  record {
    nodes =
        g.nodes
        ++ record {
          id = length g.nodes;
          kind = kind;
          label = label;
          capabilities = capabilities;
          state = state;
          source = source;
        }
          ∷ [];
    edges = g.edges;
  },
  length g.nodes,
)

unfoldable pub add_edge : Graph → EdgeKind → ℕ → ℕ → List ℕ → Graph
add_edge g kind from to label = if from == no_node || to == no_node then g else record {
  nodes = g.nodes;
  edges = g.edges ++ record { kind = kind; from = from; to = to; label = label } ∷ [];
}

-- `Graph::node`, which throws out of range
abbrev pub node : Graph → ℕ → Option Node
node g id = get_elem? g.nodes id

abbrev pub is_happens_before : EdgeKind → Bool
is_happens_before happens_before = true
is_happens_before _ = false

abbrev pub is_ownership : EdgeKind → Bool
is_ownership ownership = true
is_ownership _ = false

-- `edge.kind == HappensBefore && edge.from == cur`
abbrev pub leaves : Edge → ℕ → Bool
leaves edge cur = is_happens_before edge.kind && edge.from == cur

unfoldable pub contains : List ℕ → ℕ → Bool
contains [] x = false
contains (y ∷ ys) x = y == x || contains ys x

-- The loop over the edges that leave `cur`: `none` where one leads to `after`, or the stack with
-- their targets on it.
unfoldable pub push_targets : List Edge → ℕ → ℕ → List ℕ → Option (List ℕ)
push_targets [] cur after stack = some stack
push_targets (edge ∷ edges) cur after stack =
    let pushed = push_targets edges cur after (edge.to ∷ stack) in
    let skipped = push_targets edges cur after stack in
    if not (leaves edge cur) then skipped else if edge.to == after then none else pushed

-- The loop over the stack, on fuel; `none` where the fuel runs out.
unfoldable pub search_from : List Edge → ℕ → ℕ → List ℕ → List ℕ → Option Bool
search_from edges after fuel [] seen = some false
search_from edges after zero (cur ∷ stack) seen = none
search_from edges after (suc fuel) (cur ∷ stack) seen =
    let again = search_from edges after fuel stack seen in
    let next : Option Bool = elim (push_targets edges cur after stack) [
      | none ↦ some true
      | some stack' ↦ search_from edges after fuel stack' (cur ∷ seen)
    ] in
    if contains seen cur then again else next

-- `happens_before`; the fuel is one more than the edges.
unfoldable pub ordered_before : Graph → ℕ → ℕ → Option Bool
unfolding search_from
ordered_before g before after =
    if before == no_node || (after == no_node || before == after)
    then some (before == after)
    else search_from g.edges after (suc (length g.edges)) (before ∷ []) []
