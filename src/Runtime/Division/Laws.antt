-- ===== src/Runtime/Division/Laws.antt =====
-- The loops of `__udivmoddi4` compute the quotient and the remainder.
use native.Mathlib.Nat.{
  pow-suc, mod-eq_of_lt, le_trans, add-zero, div-eq_of_lt, mul-add-div_right, div-add-mod',
}
use octans.Prelude.{
  ℕ, zero, suc, ◌+◌, ◌*◌, ◌/◌, ◌%◌, ◌^◌, ◌<◌, ◌≤◌, ◌≡◌, refl, ap, arith, inl, inr, Bool-cases, leb,
  ltb, ◌==◌, ◌&&◌, if◌then◌else◌,
}
use octans.Runtime.Division.{u64_mod, normalize, next_quot, next_rem, digits_loop, udivmoddi4}

le-mul_pos : (n m : ℕ) → 0 < m → n ≤ n * m
le-mul_pos n m h = grind arith

pow-pos : (n : ℕ) → 0 < 2 ^ n
pow-pos zero = omega arith
pow-pos (suc n) = omega (arith, pow-suc 2 n, pow-pos n)

pow-add-one : (b n : ℕ) → b ^ (n + 1) ≡ b ^ n * b
pow-add-one b n = let e : n + 1 ≡ suc n = omega arith in rw e (pow-suc b n)

-- The divisor has been doubled `shift` times, is below 2 ^ 64, and doubled once more exceeds `a`.
record IsNormal (a b : ℕ) (out : ℕ × ℕ) : Type 0 where
  scaled : out.0 ≡ b * 2 ^ out.1
  high : a < 2 * out.0

-- With as much fuel as doublings to the top bit, the loop ends by its test.
normalize-IsNormal :
    (fuel a b div shift : ℕ)
    → a < u64_mod
    → div < u64_mod
    → 2 ^ 63 ≤ div * 2 ^ fuel
    → div ≡ b * 2 ^ shift
    → IsNormal a b (normalize fuel a div shift)
unfolding normalize
normalize-IsNormal zero a b div shift ha hd top e = record { scaled = e; high = omega arith }
normalize-IsNormal (suc fuel) a b div shift ha hd top e =
    elim (Bool-cases (div / 2 ^ 63 == 0 && leb div (a / 2))) [
      | inr stop ↦ rw stop (record { scaled = e; high = ground arith })
      | inl go ↦
          let small : div < 2 ^ 63 = ground arith in
          let doubled : div * 2 % u64_mod ≡ div * 2 = omega arith in
          rw (go, doubled)
            (normalize-IsNormal fuel a b (div * 2) (shift + 1) ha (omega arith)
              (omega (arith, ap (λ (t : ℕ). div * t) (pow-suc 2 fuel)))
              (omega (arith, ap (λ (t : ℕ). b * t) (pow-add-one 2 shift))))
    ]

-- One digit: the remainder falls below the divisor, and nothing is lost or wraps.
digit_lem :
    (a div quot whole : ℕ)
    → 0 < div
    → quot * (2 * div) + a ≡ whole
    → whole < u64_mod
    → a < 2 * div
    → (next_quot a div quot * div + next_rem a div ≡ whole) × (next_rem a div < div)
digit_lem a div quot whole hd sum hw ha =
    let low : quot * 2 ≤ quot * 2 * div = le-mul_pos (quot * 2) div hd in
    let exact : quot * 2 % u64_mod ≡ quot * 2 = mod-eq_of_lt (omega arith) in
    elim (Bool-cases (leb div a)) [
      | inl fits ↦ let below : div ≤ a = ground arith in rw (exact, fits) (omega arith, omega arith)
      | inr over ↦ let above : a < div = ground arith in rw (exact, over) (omega arith, omega arith)
    ]

-- The loop over the digits keeps Quot * 2 * Div + A, with A below 2 * Div.
digits_loop_lem :
    (shift a b div quot whole : ℕ)
    → 0 < b
    → div ≡ b * 2 ^ shift
    → quot * (2 * div) + a ≡ whole
    → whole < u64_mod
    → a < 2 * div
    → let (q, r) = digits_loop shift a div quot in (q * b + r ≡ whole) × (r < b)
unfolding digits_loop
digits_loop_lem zero a b div quot whole hb e sum hw ha =
    let same : b ≡ div = omega arith in rw same (digit_lem a div quot whole (omega arith) sum hw ha)
digits_loop_lem (suc shift) a b div quot whole hb e sum hw ha =
    let halved : div ≡ 2 * (b * 2 ^ shift) =
      omega (arith, ap (λ (t : ℕ). b * t) (pow-suc 2 shift)) in
    let some_left : 0 < b * 2 ^ shift = le_trans hb (le-mul_pos b (2 ^ shift) (pow-pos shift)) in
    let (kept, low) = digit_lem a div quot whole (omega arith) sum hw ha in
    let back : 2 * (div / 2) ≡ div = omega arith in
    digits_loop_lem shift (next_rem a div) b (div / 2) (next_quot a div quot) whole hb (omega arith)
      (rw back kept) hw (rw back low)

-- Division with remainder has one answer.
quot_rem_unique :
    (a b : ℕ) (out : ℕ × ℕ) → 0 < b → out.0 * b + out.1 ≡ a → out.1 < b → out ≡ (a / b, a % b)
quot_rem_unique a b (q, r) hb e h =
    let quot : a / b ≡ q = rw (← e, mul-add-div_right hb q r, div-eq_of_lt h) (add-zero q) in
    let rem : a % b ≡ r = omega (arith, div-add-mod' a b, ap (λ (t : ℕ). t * b) quot) in
    rw (quot, rem) refl

-- For a dividend and a divisor of 64 bits, `__udivmoddi4` gives the quotient and the remainder, and
-- 0 twice for the divisor 0.
pub udivmoddi4_exact :
    (a b : ℕ)
    → a < u64_mod
    → b < u64_mod
    → udivmoddi4 a b ≡ (if b == 0 then (0, 0) else (a / b, a % b))
unfolding udivmoddi4
udivmoddi4_exact a b ha hb = elim (Bool-cases (b == 0)) [
  | inl zero_div ↦ rw zero_div refl
  | inr div ↦
      let some_b : 0 < b = ground arith in
      elim (Bool-cases (ltb a b)) [
        | inl below ↦
            let h : a < b = ground arith in rw (div, below, div-eq_of_lt h, mod-eq_of_lt h) refl
        | inr above ↦
            let n = normalize-IsNormal 63 a b b 0 ha hb (omega arith) (omega arith) in
            let (sum, low) =
              digits_loop_lem (normalize 63 a b 0).1 a b (normalize 63 a b 0).0 0 a some_b n.scaled
                (omega arith) ha n.high in
            rw (div, above) (quot_rem_unique a b _ some_b sum low)
      ]
]
