-- ===== src/Prelude/Lists.antt =====
-- C arrays as lists with native indices, and the tests that loops over them make.
use Prim.Native.Nat.{ℕ, zero, suc, ◌+◌, ◌≤◌, ◌<◌, min}
use mathlib.Core.Path.{◌≡◌, refl, ap, ap₂}
use mathlib.Core.Logic.{◌≢◌, inl, inr}
use mathlib.Core.Bool.{Bool, true, false}
use mathlib.Core.List.{List, [], ◌∷◌, ◌++◌}
use native.Mathlib.Omega.{arith}
use octans.Prelude.Tests.{◌==◌, if◌then◌else◌, Bool-cases}

module _ {ℓ} {A : Type ℓ} where
  abbrev pub length : List A → ℕ
  length [] = 0
  length (x ∷ xs) = suc (length xs)

  abbrev pub get_or : List A → ℕ → A → A
  get_or [] i d = d
  get_or (x ∷ xs) zero d = x
  get_or (x ∷ xs) (suc i) d = get_or xs i d

  -- A write out of bounds changes nothing; the code's guards and the invariants rule it out.
  abbrev pub set : List A → ℕ → A → List A
  set [] i v = []
  set (x ∷ xs) zero v = v ∷ xs
  set (x ∷ xs) (suc i) v = x ∷ set xs i v

  abbrev pub take : ℕ → List A → List A
  take zero xs = []
  take (suc n) [] = []
  take (suc n) (x ∷ xs) = x ∷ take n xs

  abbrev pub drop : ℕ → List A → List A
  drop zero xs = xs
  drop (suc n) [] = []
  drop (suc n) (x ∷ xs) = drop n xs

  abbrev pub replicate : ℕ → A → List A
  replicate zero a = []
  replicate (suc n) a = a ∷ replicate n a

  -- `xs[i] = f(xs[i])`, with `d` for a read out of bounds.
  abbrev pub modify : List A → ℕ → (A → A) → A → List A
  modify xs i f d = set xs i (f (get_or xs i d))

  pub length-append : (xs ys : List A) → length (xs ++ ys) ≡ length xs + length ys
  length-append [] ys = omega arith
  length-append (x ∷ xs) ys = omega (arith, length-append xs ys)

  pub length-take : (n : ℕ) (xs : List A) → length (take n xs) ≡ min n (length xs)
  length-take zero xs = omega arith
  length-take (suc n) [] = omega arith
  length-take (suc n) (x ∷ xs) = omega (arith, length-take n xs)

  pub take_all : (n : ℕ) (xs : List A) → length xs ≤ n → take n xs ≡ xs
  take_all zero [] h = refl
  take_all zero (x ∷ xs) h = absurd (omega arith)
  take_all (suc n) [] h = refl
  take_all (suc n) (x ∷ xs) h = ap (◌∷◌ x) (take_all n xs (omega arith))

  -- Two lists of one length with the same entries are equal.
  pub list_ext :
      (xs ys : List A) (d : A)
      → length xs ≡ length ys
      → ((i : ℕ) → i < length xs → get_or xs i d ≡ get_or ys i d)
      → xs ≡ ys
  list_ext [] [] d e h = refl
  list_ext [] (y ∷ ys) d e h = absurd (omega arith)
  list_ext (x ∷ xs) [] d e h = absurd (omega arith)
  list_ext (x ∷ xs) (y ∷ ys) d e h =
      ap₂ ◌∷◌ (h 0 (omega arith)) (list_ext xs ys d (omega arith) (λ i q. h (suc i) (omega arith)))

  pub take-append-drop : (n : ℕ) (xs : List A) → take n xs ++ drop n xs ≡ xs
  take-append-drop zero xs = refl
  take-append-drop (suc n) [] = refl
  take-append-drop (suc n) (x ∷ xs) = ap (◌∷◌ x) (take-append-drop n xs)

  pub nil_of_length : (xs : List A) → length xs ≡ 0 → xs ≡ []
  nil_of_length [] h = refl
  nil_of_length (x ∷ xs) h = absurd (omega arith)

  pub length-replicate : (n : ℕ) (a : A) → length (replicate n a) ≡ n
  length-replicate zero a = refl
  length-replicate (suc n) a = ap suc (length-replicate n a)

  pub get_or-replicate : (n i : ℕ) (a : A) → get_or (replicate n a) i a ≡ a
  get_or-replicate zero i a = refl
  get_or-replicate (suc n) zero a = refl
  get_or-replicate (suc n) (suc i) a = get_or-replicate n i a

  pub get_or_beyond : (xs : List A) (i : ℕ) (d : A) → length xs ≤ i → get_or xs i d ≡ d
  get_or_beyond [] i d h = refl
  get_or_beyond (x ∷ xs) zero d h = absurd (omega arith)
  get_or_beyond (x ∷ xs) (suc i) d h = get_or_beyond xs i d (omega arith)

  pub length-set : (xs : List A) (i : ℕ) (v : A) → length (set xs i v) ≡ length xs
  length-set [] i v = refl
  length-set (x ∷ xs) zero v = refl
  length-set (x ∷ xs) (suc i) v = ap suc (length-set xs i v)

  pub get_or-set_self :
      (xs : List A) (i : ℕ) (v d : A) → i < length xs → get_or (set xs i v) i d ≡ v
  get_or-set_self [] i v d h = absurd (omega arith)
  get_or-set_self (x ∷ xs) zero v d h = refl
  get_or-set_self (x ∷ xs) (suc i) v d h = get_or-set_self xs i v d (omega arith)

  pub get_or-set_ne :
      (xs : List A) (i j : ℕ) (v d : A) → i ≢ j → get_or (set xs i v) j d ≡ get_or xs j d
  get_or-set_ne [] i j v d h = refl
  get_or-set_ne (x ∷ xs) zero zero v d h = absurd (h refl)
  get_or-set_ne (x ∷ xs) zero (suc j) v d h = refl
  get_or-set_ne (x ∷ xs) (suc i) zero v d h = refl
  get_or-set_ne (x ∷ xs) (suc i) (suc j) v d h = get_or-set_ne xs i j v d (λ e. h (ap suc e))

  pub set-get_or : (xs : List A) (i : ℕ) (d : A) → set xs i (get_or xs i d) ≡ xs
  set-get_or [] i d = refl
  set-get_or (x ∷ xs) zero d = refl
  set-get_or (x ∷ xs) (suc i) d = ap (◌∷◌ x) (set-get_or xs i d)

-- What a read sees after a write.
pub get_or-set {ℓ} :
    {A : Type ℓ} (xs : List A) (i j : ℕ) (v d : A)
    → i < length xs
    → get_or (set xs i v) j d ≡ (if i == j then v else get_or xs j d)
get_or-set xs i j v d h = elim (Bool-cases (i == j)) [
  | inl e ↦ let same : i ≡ j = ground arith in rw e (rw (← same) (get_or-set_self xs i v d h))
  | inr e ↦ rw e (get_or-set_ne xs i j v d (ground arith))
]

-- 1 for true, 0 for false.
abbrev pub bit : Bool → ℕ
bit true = 1
bit false = 0

module _ {ℓ} {A : Type ℓ} (p : A → Bool) where
  -- How many entries pass the test.
  unfoldable pub tally : List A → ℕ
  tally [] = 0
  tally (x ∷ xs) = bit (p x) + tally xs

  pub tally-le-length : (xs : List A) → tally xs ≤ length xs
  unfolding tally
  tally-le-length [] = omega arith
  tally-le-length (x ∷ xs) = ground (arith, tally-le-length xs)

  -- A write moves the tally by what it takes away and puts in.
  pub tally-set :
      (xs : List A) (i : ℕ) (v d : A)
      → i < length xs
      → tally (set xs i v) + bit (p (get_or xs i d)) ≡ tally xs + bit (p v)
  unfolding tally
  tally-set [] i v d h = absurd (omega arith)
  tally-set (x ∷ xs) zero v d h = omega arith
  tally-set (x ∷ xs) (suc i) v d h = omega (arith, tally-set xs i v d (omega arith))

  -- The tally of a prefix grows by its next entry.
  pub tally-take :
      (xs : List A) (i : ℕ) (d : A)
      → i < length xs
      → tally (take (suc i) xs) ≡ tally (take i xs) + bit (p (get_or xs i d))
  unfolding tally
  tally-take [] i d h = absurd (omega arith)
  tally-take (x ∷ xs) zero d h = omega arith
  tally-take (x ∷ xs) (suc i) d h = omega (arith, tally-take xs i d (omega arith))

  pub tally-take-le : (xs : List A) (i : ℕ) → tally (take i xs) ≤ tally xs
  unfolding tally
  tally-take-le xs zero = omega arith
  tally-take-le [] (suc i) = omega arith
  tally-take-le (x ∷ xs) (suc i) = omega (arith, tally-take-le xs i)

  -- An entry that passes is counted.
  pub tally_pos :
      (xs : List A) (i : ℕ) (d : A) → i < length xs → p (get_or xs i d) ≡ true → 0 < tally xs
  unfolding tally
  tally_pos [] i d h e = absurd (omega arith)
  tally_pos (x ∷ xs) zero d h e = ground arith
  tally_pos (x ∷ xs) (suc i) d h e = omega (arith, tally_pos xs i d (omega arith) e)

  -- A positive tally has an entry behind it.
  pub tally_zero :
      (xs : List A) (d : A) → ((i : ℕ) → i < length xs → p (get_or xs i d) ≡ false) → tally xs ≡ 0
  unfolding tally
  tally_zero [] d h = refl
  tally_zero (x ∷ xs) d h = ground (arith, h 0, tally_zero xs d (λ i q. h (suc i) (omega arith)))

-- Tests that agree on every entry count the same.
pub tally_ext {ℓ} :
    {A : Type ℓ} (p q : A → Bool) (xs : List A) (d : A)
    → ((i : ℕ) → i < length xs → p (get_or xs i d) ≡ q (get_or xs i d))
    → tally p xs ≡ tally q xs
unfolding tally
tally_ext p q [] d h = refl
tally_ext p q (x ∷ xs) d h =
    ground (arith, h 0, tally_ext p q xs d (λ i l. h (suc i) (omega arith)))
