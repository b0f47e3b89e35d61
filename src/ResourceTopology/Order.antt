-- ===== src/ResourceTopology/Order.antt =====
-- `happens_before` of src/StyioResourceTopology/ResourceTopology.cpp decides whether a chain of
-- edges leads from one node to another.
use mathlib.Core.Option.{some-injective, some-ne-none}
use styio.Prelude.{
  ℕ, zero, suc, ◌+◌, ◌≤◌, ◌≡◌, refl, sym, ap, ◌∙◌, ◌⊎◌, Bool, true, false, not, ◌&&◌, none, some,
  List, [], ◌∷◌, length, ◌==◌, if◌then◌else◌, if_split, Bool-cases, Option-cases, ==_iff, inl, inr,
  arith,
}
use styio.ResourceTopology.{Edge, leaves, contains, push_targets, search_from, is_happens_before}

-- One edge of the order.
abbrev pub Links : List Edge → ℕ → ℕ → Type 0
Links [] a b = ⊥
Links (edge ∷ edges) a b = ((leaves edge a ≡ true) × (edge.to ≡ b)) ⊎ Links edges a b

-- Any number of them.
pub data Chain (edges : List Edge) (b : ℕ) : ℕ → Type 0 where
  here : Chain edges b b
  onward : (a m : ℕ) → Links edges a m → Chain edges b m → Chain edges b a

-- How many edges leave a node, and how many leave those that were not seen.
abbrev leaving : List Edge → ℕ → ℕ
leaving [] cur = 0
leaving (edge ∷ edges) cur = (if leaves edge cur then 1 else 0) + leaving edges cur

abbrev pub unseen : List Edge → List ℕ → ℕ
unseen [] seen = 0
unseen (edge ∷ edges) seen =
    (if is_happens_before edge.kind && not (contains seen edge.from) then 1 else 0)
    + unseen edges seen

length-push_targets :
    (edges : List Edge) (cur after : ℕ) (stack stack' : List ℕ)
    → push_targets edges cur after stack ≡ some stack'
    → length stack' ≡ length stack + leaving edges cur
unfolding push_targets
length-push_targets [] cur after stack stack' h =
    omega (arith, ap length (sym (some-injective stack stack' h)))
length-push_targets (edge ∷ edges) cur after stack stack' h = ground (
  arith,
  length-push_targets edges cur after (edge.to ∷ stack) stack',
  length-push_targets edges cur after stack stack',
)

unseen-cons :
    (edges : List Edge) (cur : ℕ) (seen : List ℕ)
    → contains seen cur ≡ false
    → unseen edges (cur ∷ seen) + leaving edges cur ≡ unseen edges seen
unfolding contains
unseen-cons [] cur seen h = omega arith
unseen-cons (edge ∷ edges) cur seen h = ground (arith, unseen-cons edges cur seen)

-- The fuel suffices: each round takes one node off the stack, and puts on it the targets of edges
-- that it will not follow again.
pub search_from_ends :
    (edges : List Edge) (after fuel : ℕ) (stack seen : List ℕ)
    → length stack + unseen edges seen ≤ fuel
    → (b : Bool) × (search_from edges after fuel stack seen ≡ some b)
unfolding search_from
search_from_ends edges after fuel [] seen h = (false, refl)
search_from_ends edges after zero (cur ∷ stack) seen h = absurd (omega arith)
search_from_ends edges after (suc fuel) (cur ∷ stack) seen h =
    elim (Bool-cases (contains seen cur)) [
      | inl e ↦ rw e (search_from_ends edges after fuel stack seen (omega arith))
      | inr e ↦ elim (Option-cases (push_targets edges cur after stack)) [
        | inl n ↦ (true, rw (e, n) refl)
        | inr (stack', n) ↦
            let more = length-push_targets edges cur after stack stack' n in
            let fewer = unseen-cons edges cur seen e in
            rw (e, n)
              (search_from_ends edges after fuel stack' (cur ∷ seen) (omega (arith, more, fewer)))
      ]
    ]

-- A target was found: an edge leads to it.
pub push_targets-none :
    (edges : List Edge) (cur after : ℕ) (stack : List ℕ)
    → push_targets edges cur after stack ≡ none
    → Links edges cur after
unfolding push_targets
push_targets-none [] cur after stack h = absurd (some-ne-none stack h)
push_targets-none (edge ∷ edges) cur after stack h = elim (if_split (not (leaves edge cur)) h) [
  | inl (b, e) ↦ inr (push_targets-none edges cur after stack e)
  | inr (b, e) ↦ elim (if_split (edge.to == after) e) [
    | inl (t, u) ↦ inl (ground arith, (==_iff edge.to after).0 t)
    | inr (t, u) ↦ inr (push_targets-none edges cur after (edge.to ∷ stack) u)
  ]
]

-- What is on the stack after the loop was there before, or an edge leads to it.
pub pushed :
    (edges : List Edge) (cur after : ℕ) (stack stack' : List ℕ) (x : ℕ)
    → push_targets edges cur after stack ≡ some stack'
    → contains stack' x ≡ true
    → (contains stack x ≡ true) ⊎ Links edges cur x
unfolding push_targets contains
pushed [] cur after stack stack' x h m =
    inl (ap (λ s. contains s x) (some-injective stack stack' h) ∙ m)
pushed (edge ∷ edges) cur after stack stack' x h m = elim (if_split (not (leaves edge cur)) h) [
  | inl (b, e) ↦ elim (pushed edges cur after stack stack' x e m) [
    | inl k ↦ inl k
    | inr l ↦ inr (inr l)
  ]
  | inr (b, e) ↦ elim (if_split (edge.to == after) e) [
    | inl (t, u) ↦ absurd (some-ne-none stack' (sym u))
    | inr (t, u) ↦ elim (pushed edges cur after (edge.to ∷ stack) stack' x u m) [
      | inl k ↦ elim (Bool-cases (edge.to == x)) [
        | inl q ↦ inr (inl (ground arith, (==_iff edge.to x).0 q))
        | inr q ↦ inl (ground arith)
      ]
      | inr l ↦ inr (inr l)
    ]
  ]
]

-- All that was on the stack stays, and so do all targets of the node, and none is the one sought.
pub stays :
    (edges : List Edge) (cur after : ℕ) (stack stack' : List ℕ) (x : ℕ)
    → push_targets edges cur after stack ≡ some stack'
    → contains stack x ≡ true
    → contains stack' x ≡ true
unfolding push_targets contains
stays [] cur after stack stack' x h m =
    ap (λ s. contains s x) (sym (some-injective stack stack' h)) ∙ m
stays (edge ∷ edges) cur after stack stack' x h m = elim (if_split (not (leaves edge cur)) h) [
  | inl (b, e) ↦ stays edges cur after stack stack' x e m
  | inr (b, e) ↦ elim (if_split (edge.to == after) e) [
    | inl (t, u) ↦ absurd (some-ne-none stack' (sym u))
    | inr (t, u) ↦ stays edges cur after (edge.to ∷ stack) stack' x u (ground arith)
  ]
]

pub all_targets :
    (edges : List Edge) (cur after : ℕ) (stack stack' : List ℕ) (x : ℕ)
    → push_targets edges cur after stack ≡ some stack'
    → Links edges cur x
    → (contains stack' x ≡ true) × ((x == after) ≡ false)
unfolding push_targets contains
all_targets [] cur after stack stack' x h l = elim l [ ]
all_targets (edge ∷ edges) cur after stack stack' x h (inl (l, t)) =
    elim (if_split (not (leaves edge cur)) h) [
      | inl (b, e) ↦ absurd (ground arith)
      | inr (b, e) ↦ elim (if_split (edge.to == after) e) [
        | inl (q, u) ↦ absurd (some-ne-none stack' (sym u))
        | inr (q, u) ↦ (
          stays edges cur after (edge.to ∷ stack) stack' x u (ground arith),
          ap (λ y. y == after) (sym t) ∙ q,
        )
      ]
    ]
all_targets (edge ∷ edges) cur after stack stack' x h (inr l) =
    elim (if_split (not (leaves edge cur)) h) [
      | inl (b, e) ↦ all_targets edges cur after stack stack' x e l
      | inr (b, e) ↦ elim (if_split (edge.to == after) e) [
        | inl (q, u) ↦ absurd (some-ne-none stack' (sym u))
        | inr (q, u) ↦ all_targets edges cur after (edge.to ∷ stack) stack' x u l
      ]
    ]
