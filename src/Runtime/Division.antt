-- ===== src/Runtime/Division.antt =====
-- 64-bit division on a 32-bit target: src/compiler_rt_divmod.c. A `du_int` is a number below 2 ^ 64
-- and a `di_int` its bit pattern.
pub mod Laws
pub mod Signed
mod Tests
use octans.Prelude.{
  ℕ, zero, suc, ◌+◌, ◌-◌, ◌*◌, ◌/◌, ◌%◌, ◌^◌, Bool, true, false, ◌&&◌, ltb, leb, ◌==◌,
  if◌then◌else◌,
}

abbrev pub u64_mod : ℕ
u64_mod = 2 ^ 64

-- `while ((Div >> 63) == 0 && Div <= (A >> 1)) { Div <<= 1; ++Shift; }`, on fuel.
unfoldable pub normalize : ℕ → ℕ → ℕ → ℕ → ℕ × ℕ
normalize zero a div shift = (div, shift)
normalize (suc fuel) a div shift =
    let rest = normalize fuel a (div * 2 % u64_mod) (shift + 1) in
    if div / 2 ^ 63 == 0 && leb div (a / 2) then rest else (div, shift)

-- The quotient with one more digit, after `Quot <<= 1`: `Quot |= 1` on a number that is even.
abbrev pub next_quot : ℕ → ℕ → ℕ → ℕ
next_quot a div quot = if leb div a then quot * 2 % u64_mod + 1 else quot * 2 % u64_mod

abbrev pub next_rem : ℕ → ℕ → ℕ
next_rem a div = if leb div a then a - div else a

-- The loop over the digits; it ends with the round at `Shift == 0`. The result is `(Quot, A)`.
unfoldable pub digits_loop : ℕ → ℕ → ℕ → ℕ → ℕ × ℕ
digits_loop zero a div quot = (next_quot a div quot, next_rem a div)
digits_loop (suc shift) a div quot =
    digits_loop shift (next_rem a div) (div / 2) (next_quot a div quot)

-- `__udivmoddi4`: the quotient, and what is stored through `Rem`. 63 rounds of `normalize` are
-- enough, since a divisor that is not 0 reaches the top bit in as many doublings.
unfoldable pub udivmoddi4 : ℕ → ℕ → ℕ × ℕ
udivmoddi4 a b =
    if b == 0
    then (0, 0)
    else if ltb a b
    then (0, a)
    else let (div, shift) = normalize 63 a b 0 in digits_loop shift a div 0

-- `__udivdi3` and `__umoddi3`.
unfoldable pub udivdi3 : ℕ → ℕ → ℕ
udivdi3 a b = (udivmoddi4 a b).0

unfoldable pub umoddi3 : ℕ → ℕ → ℕ
umoddi3 a b = (udivmoddi4 a b).1

-- `V < 0` of a bit pattern, and 0 - V.
abbrev pub is_negative : ℕ → Bool
is_negative v = leb (2 ^ 63) v

abbrev pub negate : ℕ → ℕ
negate v = (u64_mod - v) % u64_mod

-- `uabsdi`.
abbrev pub uabsdi : ℕ → ℕ
uabsdi v = if is_negative v then negate v else v

-- `(A < 0) ^ (B < 0)`
abbrev pub differ : Bool → Bool → Bool
differ true true = false
differ true false = true
differ false b = b

-- `__divdi3`. The negation wraps here where it is undefined in C: for the lowest number divided by 1.
unfoldable pub divdi3 : ℕ → ℕ → ℕ
divdi3 a b =
    let q = udivdi3 (uabsdi a) (uabsdi b) in
    if b == 0 then 0 else if differ (is_negative a) (is_negative b) then negate q else q

-- `__moddi3`.
unfoldable pub moddi3 : ℕ → ℕ → ℕ
moddi3 a b =
    let r = umoddi3 (uabsdi a) (uabsdi b) in
    if b == 0 then 0 else if is_negative a then negate r else r
