-- ===== src/ResourceTopology/Checks.antt =====
-- What the checks of `finalize` in src/StyioResourceTopology/ResourceTopology.cpp find.
use mathlib.Core.Logic.{◌↔◌}
use styio.Prelude.{
  ℕ, ◌≡◌, ◌≢◌, refl, ◌⊎◌, true, false, not, ◌&&◌, ◌||◌, Option, some, List, [], ◌∷◌, ◌++◌, ◌==◌,
  Bool-cases, Option-cases, inl, inr, arith,
}
use styio.ResourceTopology.{Node, Edge, Graph, no_node, node, contains}
use styio.ResourceTopology.Order.{Links, Chain}
use styio.ResourceTopology.Decides.{ordered_before-Chain}
use styio.ResourceTopology.Finalize.{
  ValidationError, ResourceAccess, either_order, borrow_error, check_pair, both_lists, check_with,
  check_accesses,
}

-- No edge touches the missing node.
abbrev pub Avoids : List Edge → Type 0
Avoids [] = Unit
Avoids (edge ∷ edges) = (edge.from ≢ no_node) × (edge.to ≢ no_node) × Avoids edges

pub not_from : (edges : List Edge) → Avoids edges → (b : ℕ) → ¬ Links edges no_node b
not_from [] h b l = l
not_from (edge ∷ edges) (f, t, h) b (inl (l, e)) = f (ground arith)
not_from (edge ∷ edges) (f, t, h) b (inr l) = not_from edges h b l

pub not_to : (edges : List Edge) → Avoids edges → (b : ℕ) → ¬ Links edges b no_node
not_to [] h b l = l
not_to (edge ∷ edges) (f, t, h) b (inl (l, e)) = t e
not_to (edge ∷ edges) (f, t, h) b (inr l) = not_to edges h b l

-- Two accesses do not conflict: if both are to one resource, one of them exclusive, by two owners
-- whose execution is not ordered, then the order has one owner before the other.
abbrev pub Compatible : List Edge → List ℕ → ResourceAccess → ResourceAccess → Type 0
Compatible edges unordered a b =
    a.resource ≡ b.resource
    → (a.exclusive ≡ true) ⊎ (b.exclusive ≡ true)
    → a.owner ≢ b.owner
    → contains unordered a.owner ≡ true
    → contains unordered b.owner ≡ true
    → Chain edges b.owner a.owner ⊎ Chain edges a.owner b.owner

abbrev pub AllCompatible : List Edge → List ℕ → ResourceAccess → List ResourceAccess → Type 0
AllCompatible edges unordered a [] = Unit
AllCompatible edges unordered a (b ∷ rest) =
    Compatible edges unordered a b × AllCompatible edges unordered a rest

-- So it is with every two of a list.
abbrev pub PairsCompatible : List Edge → List ℕ → List ResourceAccess → Type 0
PairsCompatible edges unordered [] = Unit
PairsCompatible edges unordered (a ∷ rest) =
    AllCompatible edges unordered a rest × PairsCompatible edges unordered rest

-- Every access is to a node of the graph.
abbrev pub InGraph : Graph → List ResourceAccess → Type 0
InGraph g [] = Unit
InGraph g (a ∷ rest) = ((n : Node) × (node g a.resource ≡ some n)) × InGraph g rest

either_order_lem :
    (g : Graph) (a b : ℕ)
    → Avoids g.edges
    → ((either_order g a b ≡ some true) × (Chain g.edges b a ⊎ Chain g.edges a b))
      ⊎ ((either_order g a b ≡ some false) × (¬ (Chain g.edges b a ⊎ Chain g.edges a b)))
either_order_lem g a b h =
    let f = not_from g.edges h in
    let t = not_to g.edges h in
    elim (ordered_before-Chain g a b f t) [
      | inl (e, c) ↦ inl (rw (either_order, e) refl, inl c)
      | inr (e, c) ↦ elim (ordered_before-Chain g b a f t) [
        | inl (e', d) ↦ inl (rw (either_order, e, e') refl, inr d)
        | inr (e', d) ↦
            inr (rw (either_order, e, e') refl, λ s. elim s [ inl x ↦ c x | inr x ↦ d x ])
      ]
    ]

-- The list of errors that some check gives is empty exactly where `P` holds.
abbrev pub Reports : Option (List ValidationError) → Type 0 → Type 0
Reports o P = (es : List ValidationError) × (o ≡ some es) × ((es ≡ []) ↔ P)

nothing : {o : Option (List ValidationError)} {P : Type 0} → o ≡ some [] → P → Reports o P
nothing e p = ([], e, (λ h. p, λ h. refl))

something :
    {o : Option (List ValidationError)} {P : Type 0} (x : ValidationError)
    → o ≡ some (x ∷ [])
    → ¬ P
    → Reports o P
something x e p = (x ∷ [], e, (λ h. absurd (ground arith), λ h. absurd (p h)))

both :
    (o o' : Option (List ValidationError)) {P Q : Type 0}
    → Reports o P
    → Reports o' Q
    → Reports (both_lists o o') (P × Q)
both o o' ([], e, p) (ys, e', q) = (ys, rw (e, e') refl, (λ h. (p.0 refl, q.0 h), λ h. q.1 h.1))
both o o' (x ∷ xs, e, p) (ys, e', q) = (
  x ∷ (xs ++ ys),
  rw (e, e') refl,
  (λ h. absurd (ground arith), λ h. absurd (let k = p.1 h.0 in ground arith)),
)

module _ (phase : List ℕ) (g : Graph) (unordered : List ℕ) (avoids : Avoids g.edges) where
  borrow_some :
      (a b : ResourceAccess) (n : Node)
      → node g a.resource ≡ some n
      → (e : ValidationError) × (borrow_error phase g a b ≡ some e)
  borrow_some a b n h = elim (Option-cases (borrow_error phase g a b)) [
    | inl k ↦ absurd (ground arith)
    | inr p ↦ p
  ]

  pair_lem :
      (a b : ResourceAccess) (n : Node)
      → node g a.resource ≡ some n
      → Reports (check_pair phase g unordered a b) (Compatible g.edges unordered a b)
  pair_lem a b n h = elim (Bool-cases (a.resource == b.resource)) [
    | inr e ↦ nothing (ground arith) (λ r. absurd (ground arith))
    | inl e ↦ elim (Bool-cases (not a.exclusive && not b.exclusive)) [
      | inl x ↦ nothing (ground arith) (λ r s. absurd (ground arith))
      | inr x ↦ elim (Bool-cases (a.owner == b.owner)) [
        | inl o ↦ nothing (ground arith) (λ r s d. absurd (ground arith))
        | inr o ↦
            elim (Bool-cases
              (not (contains unordered a.owner) || not (contains unordered b.owner))) [
                | inl u ↦ nothing (ground arith) (λ r s d k l. absurd (ground arith))
                | inr u ↦ elim (either_order_lem g a.owner b.owner avoids) [
                  | inl (q, c) ↦ nothing (rw (e, x, o, u, q) refl) (λ r s d k l. c)
                  | inr (q, c) ↦
                      let (z, w) = borrow_some a b n h in
                      something z (rw (e, x, o, u, q, w) refl) (λ k. c (
                        k (ground arith) (ground arith) (ground arith) (ground arith)
                          (ground arith)))
                ]
              ]
      ]
    ]
  ]

  with_lem :
      (a : ResourceAccess) (rest : List ResourceAccess) (n : Node)
      → node g a.resource ≡ some n
      → Reports (check_with phase g unordered a rest) (AllCompatible g.edges unordered a rest)
  unfolding check_with
  with_lem a [] n h = nothing refl tt
  with_lem a (b ∷ rest) n h =
      both (check_pair phase g unordered a b) (check_with phase g unordered a rest)
        (pair_lem a b n h) (with_lem a rest n h)

  pub check_accesses_lem :
      (accesses : List ResourceAccess)
      → InGraph g accesses
      → Reports
          (check_accesses phase g unordered accesses)
          (PairsCompatible g.edges unordered accesses)
  unfolding check_accesses
  check_accesses_lem [] h = nothing refl tt
  check_accesses_lem (a ∷ rest) ((n, e), h) =
      both (check_with phase g unordered a rest) (check_accesses phase g unordered rest)
        (with_lem a rest n e) (check_accesses_lem rest h)
