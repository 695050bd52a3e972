-- ===== src/Prelude/Loops.antt =====
-- The loops of the source: `for` over a range, and the search for the first index that passes.
use Prim.Native.Nat.{ℕ, zero, suc, ◌+◌, ◌≤◌, ◌<◌}
use mathlib.Core.Path.{◌≡◌, subst}
use mathlib.Core.Logic.{inl, inr}
use mathlib.Core.Bool.{Bool, true, false}
use mathlib.Core.Option.{Option, none, some}
use native.Mathlib.Omega.{arith}
use octans.Prelude.Tests.{if◌then◌else◌, Bool-cases}

-- `left` rounds of a counted loop whose index stands at `at`.
unfoldable pub for_range {ℓ} : {T : Type ℓ} → ℕ → ℕ → (ℕ → T → T) → T → T
for_range zero at round t = t
for_range (suc left) at round t = for_range left (at + 1) round (round at t)

-- A property of index and state that holds when the loop starts, and that each round carries to the
-- next index between the loop's bounds, holds at its end.
pub for_range_inv {ℓ κ} :
    {T : Type ℓ} (Holds : ℕ → T → Type κ) (round : ℕ → T → T) (at stop : ℕ)
    → ((k : ℕ) (t : T) → at ≤ k → k < stop → Holds k t → Holds (k + 1) (round k t))
    → (left : ℕ) (t : T) → at + left ≡ stop
    → Holds at t
    → Holds stop (for_range left at round t)
unfolding for_range
for_range_inv Holds round at stop carry zero t bound start =
    subst (λ k. Holds k t) (omega arith) start
for_range_inv Holds round at stop carry (suc left) t bound start =
    let later = λ (k : ℕ) (u : _) (low : at + 1 ≤ k). carry k u (omega arith) in
    for_range_inv Holds round (at + 1) stop later left (round at t) (omega arith)
      (carry at t (omega arith) (omega arith) start)

-- for (k = i; k < i + n; k++) if (p k) return k; return none
unfoldable pub find_from : (ℕ → Bool) → ℕ → ℕ → Option ℕ
find_from p zero i = none
find_from p (suc n) i = if p i then some i else find_from p n (i + 1)

-- What the search found passes, lies in the range, and is the first that does.
pub find_from-some :
    (p : ℕ → Bool) (n i k : ℕ)
    → find_from p n i ≡ some k
    → (p k ≡ true) × (i ≤ k) × (k < i + n) × ((j : ℕ) → i ≤ j → j < k → p j ≡ false)
unfolding find_from
find_from-some p zero i k e = absurd (ground arith)
find_from-some p (suc n) i k e = elim (Bool-cases (p i)) [
  | inl hit ↦
      let same : i ≡ k = ground arith in
      (rw (← same) hit, omega arith, omega arith, λ j a b. absurd (omega arith))
  | inr miss ↦
      let (passes, low, high, first) = find_from-some p n (i + 1) k (ground arith) in
      (passes, omega arith, omega arith, later miss first)
]
  where
    later :
        p i ≡ false
        → ((j : ℕ) → i + 1 ≤ j → j < k → p j ≡ false)
        → (j : ℕ) → i ≤ j
        → j < k
        → p j ≡ false
    later miss first j a b = grind (arith, first)

-- A search that found nothing has looked at the whole range.
pub find_from-none :
    (p : ℕ → Bool) (n i j : ℕ) → find_from p n i ≡ none → i ≤ j → j < i + n → p j ≡ false
unfolding find_from
find_from-none p zero i j e a b = absurd (omega arith)
find_from-none p (suc n) i j e a b = grind (arith, find_from-none p n (i + 1) j)

-- Two searches in a row, the second from what the first found.
unfoldable pub find_pair : Option ℕ → (ℕ → Option ℕ) → Option (ℕ × ℕ)
find_pair a f = elim a [ none ↦ none | some r ↦ elim (f r) [ none ↦ none | some w ↦ some (r, w) ] ]

pub find_pair-some :
    (a : Option ℕ) (f : ℕ → Option ℕ) (r w : ℕ)
    → find_pair a f ≡ some (r, w)
    → (a ≡ some r) × (f r ≡ some w)
unfolding find_pair
find_pair-some a f r w e = ground arith
