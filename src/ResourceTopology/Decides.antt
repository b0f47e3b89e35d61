-- ===== src/ResourceTopology/Decides.antt =====
-- The search of src/StyioResourceTopology/ResourceTopology.cpp is right whichever way it ends.
use mathlib.Core.Bool.{true≢false}
use mathlib.Core.Option.{some-injective, some-ne-none}
use styio.Prelude.{
  ℕ, zero, suc, ◌≤◌, ◌≡◌, ◌≢◌, refl, sym, ◌∙◌, ◌⊎◌, Bool, true, false, Option, some, List, [], ◌∷◌,
  length, ◌==◌, if_split, Bool-cases, Option-cases, ==_iff, inl, inr, subst, arith,
}
use styio.ResourceTopology.{
  Edge, Graph, no_node, contains, push_targets, search_from, ordered_before,
}
use styio.ResourceTopology.Order.{
  Links, Chain, here, onward, unseen, search_from_ends, push_targets-none, pushed, stays,
  all_targets,
}

in_cons :
    (c : ℕ) (cs : List ℕ) (x : ℕ) → contains (c ∷ cs) x ≡ true → (c ≡ x) ⊎ (contains cs x ≡ true)
unfolding contains
in_cons c cs x h = elim (Bool-cases (c == x)) [
  | inl e ↦ inl ((==_iff c x).0 e)
  | inr e ↦ inr (ground arith)
]

first : (c : ℕ) (cs : List ℕ) → contains (c ∷ cs) c ≡ true
unfolding contains
first c cs = ground arith

later : (c : ℕ) (cs : List ℕ) (x : ℕ) → contains cs x ≡ true → contains (c ∷ cs) x ≡ true
unfolding contains
later c cs x h = ground arith

-- A search that succeeds found its target from a node that was on the stack.
found_from :
    (edges : List Edge) (after fuel : ℕ) (stack seen : List ℕ)
    → search_from edges after fuel stack seen ≡ some true
    → (x : ℕ) × (contains stack x ≡ true) × Chain edges after x
unfolding search_from contains
found_from edges after fuel [] seen h = absurd (ground arith)
found_from edges after zero (cur ∷ stack) seen h = absurd (some-ne-none true (sym h))
found_from edges after (suc fuel) (cur ∷ stack) seen h = elim (if_split (contains seen cur) h) [
  | inl (b, e) ↦
      let (x, on, chain) = found_from edges after fuel stack seen e in
      (x, later cur stack x on, chain)
  | inr (b, e) ↦ elim (Option-cases (push_targets edges cur after stack)) [
    | inl n ↦
        (cur, first cur stack, onward cur after (push_targets-none edges cur after stack n) here)
    | inr (stack', n) ↦
        let (x, on, chain) = found_from edges after fuel stack' (cur ∷ seen) (rw n at e) in
        elim (pushed edges cur after stack stack' x n on) [
          | inl k ↦ (x, later cur stack x k, chain)
          | inr l ↦ (cur, first cur stack, onward cur x l chain)
        ]
  ]
]

-- A set of nodes that no edge leaves, and from which none leads to the node sought, but for those
-- that were seen before.
abbrev Closed : List Edge → ℕ → List ℕ → List ℕ → Type 0
Closed edges after seen nodes =
    (u : ℕ)
    → contains nodes u ≡ true
    → (contains seen u ≡ true)
      ⊎ ((w : ℕ) → Links edges u w → (contains nodes w ≡ true) × ((w == after) ≡ false))

-- A search that fails leaves such a set, with all of the stack in it.
nodes_when_failed :
    (edges : List Edge) (after fuel : ℕ) (stack seen : List ℕ)
    → search_from edges after fuel stack seen ≡ some false
    → (nodes : List ℕ) × ((x : ℕ) → contains stack x ≡ true → contains nodes x ≡ true)
      × ((x : ℕ) → contains seen x ≡ true → contains nodes x ≡ true)
      × Closed edges after seen nodes
unfolding search_from contains
nodes_when_failed edges after fuel [] seen h =
    (seen, λ x m. absurd (ground arith), λ x m. m, λ u m. inl m)
nodes_when_failed edges after zero (cur ∷ stack) seen h = absurd (some-ne-none false (sym h))
nodes_when_failed edges after (suc fuel) (cur ∷ stack) seen h =
    elim (if_split (contains seen cur) h) [
      | inl (b, e) ↦
          let (nodes, on, known, closed) = nodes_when_failed edges after fuel stack seen e in
          (
            nodes,
            λ x m. elim (in_cons cur stack x m) [
              | inl q ↦ subst (λ y. contains nodes y ≡ true) q (known cur b)
              | inr q ↦ on x q
            ],
            known,
            closed,
          )
      | inr (b, e) ↦ elim (Option-cases (push_targets edges cur after stack)) [
        | inl n ↦ absurd (true≢false (some-injective true false (rw n at e)))
        | inr (stack', n) ↦
            let (nodes, on, known, closed) =
              nodes_when_failed edges after fuel stack' (cur ∷ seen) (rw n at e) in
            (
              nodes,
              λ x m. elim (in_cons cur stack x m) [
                | inl q ↦ subst (λ y. contains nodes y ≡ true) q (known cur (first cur seen))
                | inr q ↦ on x (stays edges cur after stack stack' x n q)
              ],
              λ x m. known x (later cur seen x m),
              λ u m. elim (closed u m) [
                | inl k ↦ elim (in_cons cur seen u k) [
                  | inl q ↦ inr (λ w l.
                      let (there, other) =
                        all_targets edges cur after stack stack' w n
                          (subst (λ y. Links edges y w) (sym q) l) in
                      (on w there, other))
                  | inr q ↦ inl q
                ]
                | inr k ↦ inr k
              ],
            )
      ]
    ]

-- No chain leads out of such a set.
no_way :
    (edges : List Edge) (after : ℕ) (nodes : List ℕ) (a : ℕ)
    → ((u : ℕ)
        → contains nodes u ≡ true
        → (w : ℕ) → Links edges u w
        → (contains nodes w ≡ true) × ((w == after) ≡ false))
    → contains nodes a ≡ true
    → a ≢ after
    → Chain edges after a
    → ⊥
no_way edges after nodes a closed m d here = d refl
no_way edges after nodes a closed m d (onward _ w l chain) =
    let (there, other) = closed a m w l in
    no_way edges after nodes w closed there (λ q. true≢false (sym ((==_iff w after).1 q) ∙ other))
      chain

no_way_into :
    (edges : List Edge) (b a : ℕ) → ((u : ℕ) → ¬ Links edges u b) → a ≢ b → Chain edges b a → ⊥
no_way_into edges b a none_in d here = d refl
no_way_into edges b a none_in d (onward _ w l chain) =
    no_way_into edges b w none_in (λ q. none_in a (subst (Links edges a) q l)) chain

no_way_out :
    (edges : List Edge) (b a : ℕ) → ((u : ℕ) → ¬ Links edges a u) → a ≢ b → Chain edges b a → ⊥
no_way_out edges b a none_out d here = d refl
no_way_out edges b a none_out d (onward _ w l chain) = none_out w l

unseen-le : (edges : List Edge) → unseen edges [] ≤ length edges
unfolding contains
unseen-le [] = omega arith
unseen-le (edge ∷ edges) = ground (arith, unseen-le edges)

module _ (edges : List Edge) (before after : ℕ) (apart : before ≢ after) where
  abbrev result : Option Bool
  result = search_from edges after (suc (length edges)) (before ∷ []) []

  decided :
      (b : Bool)
      → result ≡ some b
      → ((result ≡ some true) × Chain edges after before)
        ⊎ ((result ≡ some false) × (¬ Chain edges after before))
  unfolding contains
  decided true e =
      let (x, on, chain) = found_from edges after (suc (length edges)) (before ∷ []) [] e in
      inl (
        e,
        elim (in_cons before [] x on) [
          | inl q ↦ subst (Chain edges after) (sym q) chain
          | inr q ↦ absurd (true≢false (sym q))
        ],
      )
  decided false e =
      let (nodes, on, known, closed) =
        nodes_when_failed edges after (suc (length edges)) (before ∷ []) [] e in
      inr (
        e,
        λ chain.
            no_way edges after nodes before
              (λ u m w l. elim (closed u m) [ inl q ↦ absurd (true≢false (sym q)) | inr c ↦ c w l ])
              (on before (first before [])) apart chain,
      )

  decides :
      ((result ≡ some true) × Chain edges after before)
      ⊎ ((result ≡ some false) × (¬ Chain edges after before))
  decides =
      let ends =
        search_from_ends edges after (suc (length edges)) (before ∷ []) []
          (omega (arith, unseen-le edges)) in
      decided ends.0 ends.1

-- The search ends. It says that a node comes before another exactly where a chain of edges of the
-- order leads from it to the other, in a graph whose edges do not leave the missing node, and
-- every node comes before itself.
pub ordered_before-Chain :
    (g : Graph) (before after : ℕ)
    → ((b : ℕ) → ¬ Links g.edges no_node b)
    → ((b : ℕ) → ¬ Links g.edges b no_node)
    → ((ordered_before g before after ≡ some true) × Chain g.edges after before)
      ⊎ ((ordered_before g before after ≡ some false) × (¬ Chain g.edges after before))
unfolding ordered_before
ordered_before-Chain g before after h k = elim (Bool-cases (before == after)) [
  | inl e ↦
      let same = (==_iff before after).0 e in
      inl (ground arith, subst (Chain g.edges after) (sym same) here)
  | inr e ↦
      let apart : before ≢ after = λ q. true≢false (sym ((==_iff before after).1 q) ∙ e) in
      elim (Bool-cases (before == no_node)) [
        | inl m ↦
            let at = (==_iff before no_node).0 m in
            inr (
              ground arith,
              λ chain.
                  no_way_out g.edges after before
                    (λ u. subst (λ x. ¬ Links g.edges x u) (sym at) (h u)) apart chain,
            )
        | inr m ↦ elim (Bool-cases (after == no_node)) [
          | inl n ↦
              let at = (==_iff after no_node).0 n in
              inr (
                ground arith,
                λ chain.
                    no_way_into g.edges after before
                      (λ u. subst (λ x. ¬ Links g.edges u x) (sym at) (k u)) apart chain,
              )
          | inr n ↦ rw (ordered_before, e, m, n) (decides g.edges before after apart)
        ]
      ]
]
