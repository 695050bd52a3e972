-- ===== src/Prelude/Bits.antt =====
-- The bits of a machine word, and bit maps in an array of 32-bit words.
use Prim.Native.Nat.{ℕ, zero, suc, ◌+◌, ◌*◌, ◌/◌, ◌%◌, ◌<◌}
use mathlib.Core.Path.{◌≡◌, refl}
use mathlib.Core.Logic.{inl, inr}
use mathlib.Core.Bool.{Bool, true, false, ◌&&◌, ◌||◌, not}
use mathlib.Core.List.{List}
use native.Mathlib.Omega.{arith}
use octans.Prelude.Tests.{◌==◌, if◌then◌else◌, Bool-cases}
use octans.Prelude.Lists.{length, get_or, modify, get_or-set, length-set}

-- (w >> k) & 1
unfoldable pub test_bit : ℕ → ℕ → Bool
test_bit w zero = w % 2 == 1
test_bit w (suc k) = test_bit (w / 2) k

-- w | (1 << k)
unfoldable pub set_bit : ℕ → ℕ → ℕ
set_bit w zero = w / 2 * 2 + 1
set_bit w (suc k) = set_bit (w / 2) k * 2 + w % 2

-- w & ~(1 << k)
unfoldable pub clear_bit : ℕ → ℕ → ℕ
clear_bit w zero = w / 2 * 2
clear_bit w (suc k) = clear_bit (w / 2) k * 2 + w % 2

half : (x d : ℕ) → d < 2 → (x * 2 + d) / 2 ≡ x
half x d h = omega arith

half_even : (x : ℕ) → x * 2 / 2 ≡ x
half_even x = omega arith

suc-== : (k j : ℕ) → (suc k == suc j) ≡ (k == j)
suc-== k j = ground arith

pub test_bit-set_bit : (w k j : ℕ) → test_bit (set_bit w k) j ≡ (k == j || test_bit w j)
unfolding test_bit set_bit
test_bit-set_bit w zero zero = ground arith
test_bit-set_bit w zero (suc j) = ground (arith, half (w / 2) 1)
test_bit-set_bit w (suc k) zero = ground arith
test_bit-set_bit w (suc k) (suc j) =
    rw (half (set_bit (w / 2) k) (w % 2) (omega arith), suc-== k j) (test_bit-set_bit (w / 2) k j)

pub test_bit-clear_bit : (w k j : ℕ) → test_bit (clear_bit w k) j ≡ (not (k == j) && test_bit w j)
unfolding test_bit clear_bit
test_bit-clear_bit w zero zero = ground arith
test_bit-clear_bit w zero (suc j) = ground (arith, half_even (w / 2))
test_bit-clear_bit w (suc k) zero = ground arith
test_bit-clear_bit w (suc k) (suc j) =
    rw (half (clear_bit (w / 2) k) (w % 2) (omega arith), suc-== k j)
      (test_bit-clear_bit (w / 2) k j)

-- A bitwise operation on words of `n` bits.
unfoldable pub zip_bits : (Bool → Bool → Bool) → ℕ → ℕ → ℕ → ℕ
zip_bits f zero a b = 0
zip_bits f (suc n) a b =
    zip_bits f n (a / 2) (b / 2) * 2 + (if f (a % 2 == 1) (b % 2 == 1) then 1 else 0)

double_bit : (x : ℕ) (b : Bool) → (x * 2 + (if b then 1 else 0)) / 2 ≡ x
double_bit x true = half x 1 (omega arith)
double_bit x false = half x 0 (omega arith)

low_bit : (x : ℕ) (b : Bool) → ((x * 2 + (if b then 1 else 0)) % 2 == 1) ≡ b
low_bit x true = ground arith
low_bit x false = ground arith

pub test_bit-zip_bits :
    (f : Bool → Bool → Bool) (n a b k : ℕ)
    → k < n
    → test_bit (zip_bits f n a b) k ≡ f (test_bit a k) (test_bit b k)
unfolding test_bit zip_bits
test_bit-zip_bits f zero a b k h = absurd (omega arith)
test_bit-zip_bits f (suc n) a b zero h =
    low_bit (zip_bits f n (a / 2) (b / 2)) (f (a % 2 == 1) (b % 2 == 1))
test_bit-zip_bits f (suc n) a b (suc k) h =
    rw (double_bit (zip_bits f n (a / 2) (b / 2)) (f (a % 2 == 1) (b % 2 == 1)))
      (test_bit-zip_bits f n (a / 2) (b / 2) k (omega arith))

pub test_bit-zero : (k : ℕ) → test_bit 0 k ≡ false
unfolding test_bit
test_bit-zero zero = refl
test_bit-zero (suc k) = test_bit-zero k

-- `bits[i / 32]`, of an array of 32-bit words.
unfoldable pub bits_test : List ℕ → ℕ → Bool
unfolding test_bit
bits_test bits i = test_bit (get_or bits (i / 32) 0) (i % 32)

unfoldable pub bits_set : List ℕ → ℕ → List ℕ
unfolding set_bit
bits_set bits i = modify bits (i / 32) (λ w. set_bit w (i % 32)) 0

unfoldable pub bits_clear : List ℕ → ℕ → List ℕ
unfolding clear_bit
bits_clear bits i = modify bits (i / 32) (λ w. clear_bit w (i % 32)) 0

pub length-bits_set : (bits : List ℕ) (i : ℕ) → length (bits_set bits i) ≡ length bits
unfolding bits_set
length-bits_set bits i = length-set bits (i / 32) _

pub length-bits_clear : (bits : List ℕ) (i : ℕ) → length (bits_clear bits i) ≡ length bits
unfolding bits_clear
length-bits_clear bits i = length-set bits (i / 32) _

-- What a test sees after one bit is set or cleared.
pub bits_test-bits_set :
    (bits : List ℕ) (i j : ℕ)
    → i < 32 * length bits
    → bits_test (bits_set bits i) j ≡ (i == j || bits_test bits j)
unfolding bits_test bits_set
bits_test-bits_set bits i j h = ground (
  arith,
  get_or-set bits (i / 32) (j / 32) (set_bit (get_or bits (i / 32) 0) (i % 32)) 0 (omega arith),
  test_bit-set_bit (get_or bits (i / 32) 0) (i % 32) (j % 32),
)

pub bits_test-bits_clear :
    (bits : List ℕ) (i j : ℕ)
    → i < 32 * length bits
    → bits_test (bits_clear bits i) j ≡ (not (i == j) && bits_test bits j)
unfolding bits_test bits_clear
bits_test-bits_clear bits i j h = ground (
  arith,
  get_or-set bits (i / 32) (j / 32) (clear_bit (get_or bits (i / 32) 0) (i % 32)) 0 (omega arith),
  test_bit-clear_bit (get_or bits (i / 32) 0) (i % 32) (j % 32),
)

-- An array of bit maps, one of which is rewritten.
module _ (maps : List (List ℕ)) (c : ℕ) (f : List ℕ → List ℕ) (d : List ℕ) where
  pub bits_test-modify :
      (k j : ℕ)
      → c < length maps
      → bits_test (get_or (modify maps c f d) k d) j
        ≡ (if c == k then bits_test (f (get_or maps c d)) j else bits_test (get_or maps k d) j)
  bits_test-modify k j h = elim (Bool-cases (c == k)) [
    | inl e ↦ rw (get_or-set maps c k (f (get_or maps c d)) d h, e) refl
    | inr e ↦ rw (get_or-set maps c k (f (get_or maps c d)) d h, e) refl
  ]

  -- A bit that the rewriting leaves alone is what it was.
  pub bits_test-modify_same :
      (k j : ℕ)
      → c < length maps
      → bits_test (f (get_or maps c d)) j ≡ bits_test (get_or maps c d) j
      → bits_test (get_or (modify maps c f d) k d) j ≡ bits_test (get_or maps k d) j
  bits_test-modify_same k j h same = elim (Bool-cases (c == k)) [
    | inl e ↦ let eq : c ≡ k = ground arith in rw (bits_test-modify k j h, e) (rw (← eq) same)
    | inr e ↦ rw (bits_test-modify k j h, e) refl
  ]

  pub length-modify_row :
      (k n : ℕ)
      → c < length maps
      → length (f (get_or maps c d)) ≡ n
      → length (get_or maps k d) ≡ n
      → length (get_or (modify maps c f d) k d) ≡ n
  length-modify_row k n h new old = ground (arith, get_or-set maps c k (f (get_or maps c d)) d h)
