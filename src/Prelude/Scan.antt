-- ===== src/Prelude/Scan.antt =====
-- Scanning a text, a list of bytes: the loops of the parsers as functions of what is left to read.
use Prim.Native.Nat.{ℕ, zero, suc, ◌+◌, ◌≤◌, ◌<◌}
use Prim.Native.Char.{code}
use Prim.Native.String.{String}
use mathlib.Core.Path.{◌≡◌, refl, ap}
use mathlib.Core.Bool.{Bool, true, false, not, ◌&&◌}
use mathlib.Core.Option
use mathlib.Core.Option.{Option, none, some}
use mathlib.Core.List.{List, [], ◌∷◌, ◌++◌}
use native.Mathlib.Omega.{arith}
use mathlib.Core.Logic.{inl, inr}
use styio.Prelude.Tests.{◌==◌, ==_iff, Bool-cases, if◌then◌else◌}
use styio.Prelude.Lists.{length, get_elem?, take, drop, replicate}

-- The bytes of an ASCII literal.
abbrev pub codes : String → List ℕ
codes String.[] = []
codes (String.◌∷◌ c s) = code c ∷ codes s

-- `loc + k < code.size() && code.at(loc + k) == b`, on what is left from `loc` on
abbrev pub next_is : List ℕ → ℕ → ℕ → Bool
next_is rest k b = elim (get_elem? rest k) [ none ↦ false | some c ↦ c == b ]

-- `code.compare(loc, n, prefix) == 0` for a prefix of n bytes
abbrev pub starts_with : List ℕ → List ℕ → Bool
starts_with rest [] = true
starts_with [] (p ∷ prefix) = false
starts_with (c ∷ rest) (p ∷ prefix) = c == p && starts_with rest prefix

-- How many bytes pass a test before the first that does not.
unfoldable pub count_while : (ℕ → Bool) → List ℕ → ℕ
count_while p [] = 0
count_while p (c ∷ rest) = let n = count_while p rest in if p c then suc n else 0

-- `find`: the first place where a text starts with another.
unfoldable pub find : List ℕ → List ℕ → Option ℕ
find [] word = if starts_with [] word then some 0 else none
find (c ∷ rest) word =
    let later = Option.map suc (find rest word) in
    if starts_with (c ∷ rest) word then some 0 else later

abbrev pub All : (ℕ → Bool) → List ℕ → Type 0
All p [] = Unit
All p (c ∷ cs) = (p c ≡ true) × All p cs

pub count_while-le : (p : ℕ → Bool) (rest : List ℕ) → count_while p rest ≤ length rest
unfolding count_while
count_while-le p [] = omega arith
count_while-le p (c ∷ rest) = ground (arith, count_while-le p rest)

pub take-count_while-All : (p : ℕ → Bool) (rest : List ℕ) → All p (take (count_while p rest) rest)
unfolding count_while
take-count_while-All p [] = tt
take-count_while-All p (c ∷ rest) = ground (arith, take-count_while-All p rest)

-- Bytes that all equal `b` are a replicate of it.
pub take-count_while-replicate :
    (b : ℕ) (rest : List ℕ)
    → replicate (count_while (λ c. c == b) rest) b ≡ take (count_while (λ c. c == b) rest) rest
unfolding count_while
take-count_while-replicate b [] = refl
take-count_while-replicate b (c ∷ rest) = ground (arith, take-count_while-replicate b rest)

pub starts_with-le : (rest word : List ℕ) → starts_with rest word ≡ true → length word ≤ length rest
starts_with-le rest [] h = omega arith
starts_with-le [] (p ∷ word) h = ground arith
starts_with-le (c ∷ rest) (p ∷ word) h = ground (arith, starts_with-le rest word)

pub starts_with-take :
    (rest word : List ℕ) → starts_with rest word ≡ true → take (length word) rest ≡ word
starts_with-take rest [] h = refl
starts_with-take [] (p ∷ word) h = ground arith
starts_with-take (c ∷ rest) (p ∷ word) h = ground (arith, starts_with-take rest word)

-- Where `find` finds a word, the word stands.
pub find_sound :
    (rest word : List ℕ) (n : ℕ)
    → find rest word ≡ some n
    → (n + length word ≤ length rest) × (starts_with (drop n rest) word ≡ true)
unfolding find
find_sound [] word n h = ground (arith, starts_with-le [] word)
find_sound (c ∷ rest) word zero h = ground (arith, starts_with-le (c ∷ rest) word)
find_sound (c ∷ rest) word (suc n) h = ground (arith, find_sound rest word n)

-- The loop that looks for one byte stops before it, unless the text ends.
pub take_stop :
    (b : ℕ) (rest : List ℕ)
    → count_while (λ c. not (c == b)) rest < length rest
    → take (count_while (λ c. not (c == b)) rest + 1) rest
      ≡ take (count_while (λ c. not (c == b)) rest) rest ++ b ∷ []
unfolding count_while
take_stop b [] h = absurd (omega arith)
take_stop b (c ∷ rest) h = elim (Bool-cases (c == b)) [
  | inl e ↦ rw e (ap (λ x. x ∷ []) ((==_iff c b).0 e))
  | inr e ↦
      let k = count_while (λ x. not (x == b)) rest in
      let step : suc k + 1 ≡ suc (k + 1) = omega arith in
      rw e (rw step (ap (◌∷◌ c) (take_stop b rest (ground arith))))
]
