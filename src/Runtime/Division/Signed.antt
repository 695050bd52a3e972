-- ===== src/Runtime/Division/Signed.antt =====
-- Signed division rounds towards zero: `__divdi3` and `__moddi3`, by sign and magnitude.
use native.Mathlib.Nat.{div-le_self, mod-lt, le_trans}
use octans.Prelude.{
  leb, ◌||◌, ◌&&◌, not, ℕ, ◌/◌, ◌%◌, ◌^◌, ◌<◌, ◌≤◌, ◌≡◌, ◌≢◌, Bool, true, false, arith, ◌==◌,
  if◌then◌else◌, ap,
}
use octans.Runtime.Division.{
  u64_mod, is_negative, negate, uabsdi, differ, udivmoddi4, udivdi3, umoddi3, divdi3, moddi3,
}
use octans.Runtime.Division.Laws.{udivmoddi4_exact}

uabsdi_bounds : (v : ℕ) → v < u64_mod → v ≢ 0 → (0 < uabsdi v) × (uabsdi v ≤ 2 ^ 63)
uabsdi_bounds v h ne = ground arith

uabsdi-le : (v : ℕ) → v < u64_mod → uabsdi v ≤ 2 ^ 63
uabsdi-le v h = ground arith

-- The sign put on a magnitude is read back, and so is the magnitude.
signed_mag : (s : Bool) (m : ℕ) → m ≤ 2 ^ 63 → uabsdi (if s then negate m else m) ≡ m
signed_mag true m h = ground arith
signed_mag false m h = ground arith

signed_sign :
    (s : Bool) (m : ℕ)
    → m ≤ 2 ^ 63
    → is_negative (if s then negate m else m) ≡ (leb (2 ^ 63) m || s && not (m == 0))
signed_sign true m h = ground arith
signed_sign false m h = ground arith

-- The two unsigned calls on magnitudes.
magnitudes :
    (m n : ℕ) → m ≤ 2 ^ 63 → n ≤ 2 ^ 63 → n ≢ 0 → (udivdi3 m n ≡ m / n) × (umoddi3 m n ≡ m % n)
unfolding udivdi3 umoddi3
magnitudes m n hm hn ne =
    let test : (n == 0) ≡ false = ground arith in
    let both : udivmoddi4 m n ≡ (m / n, m % n) =
      rw test at (udivmoddi4_exact m n (omega arith) (omega arith)) in
    (ap (λ (p : ℕ × ℕ). p.0) both, ap (λ (p : ℕ × ℕ). p.1) both)

-- For operands of 64 bits, a divisor that is not 0 and magnitudes whose quotient is below 2 ^ 63, so
-- that nothing overflows: the quotient has the magnitude of the quotient of the magnitudes, and the
-- remainder that of their remainder; the quotient is negative exactly when the signs differ and it
-- is not 0; and the remainder is negative exactly when the dividend is and it is not 0.
pub signed_exact :
    (a b : ℕ)
    → a < u64_mod
    → b < u64_mod
    → b ≢ 0
    → uabsdi a / uabsdi b < 2 ^ 63
    → let q = uabsdi a / uabsdi b in
      let r = uabsdi a % uabsdi b in
      let signs = differ (is_negative a) (is_negative b) in
      (uabsdi (divdi3 a b) ≡ q)
      × (uabsdi (moddi3 a b) ≡ r)
      × (is_negative (divdi3 a b) ≡ (signs && not (q == 0)))
      × (is_negative (moddi3 a b) ≡ (is_negative a && not (r == 0)))
unfolding divdi3 moddi3
signed_exact a b ha hb ne fits =
    let m = uabsdi a in
    let n = uabsdi b in
    let hm : m ≤ 2 ^ 63 = uabsdi-le a ha in
    let bn = uabsdi_bounds b hb ne in
    let test : (b == 0) ≡ false = ground arith in
    let (eq, er) = magnitudes m n hm bn.1 (omega arith) in
    let q_le : m / n ≤ 2 ^ 63 = le_trans (div-le_self m n) hm in
    let r_le : m % n < 2 ^ 63 = omega (arith, mod-lt m bn.0) in
    let s = is_negative a in
    let d = differ s (is_negative b) in
    rw (test, eq, er)
      (
        signed_mag d (m / n) q_le,
        signed_mag s (m % n) (omega arith),
        (let small : leb (2 ^ 63) (m / n) ≡ false = ground arith in
            rw small at (signed_sign d (m / n) q_le)),
        (let small : leb (2 ^ 63) (m % n) ≡ false = ground arith in
            rw small at (signed_sign s (m % n) (omega arith))),
      )
