-- ===== src/Runtime/Division/Tests.antt =====
-- Division at concrete operands.
use octans.Prelude.{true, ◌-◌, ◌/◌, ◌%◌, ◌^◌, ◌≡◌, refl, arith}
use octans.Runtime.Division.{
  udivmoddi4, divdi3, moddi3, normalize, digits_loop, is_negative, uabsdi, udivdi3, umoddi3, negate,
}
use octans.Runtime.Division.Laws.{udivmoddi4_exact}
use octans.Runtime.Division.Signed.{signed_exact}

divide_runs : udivmoddi4 1_000_000_007 10 ≡ (100_000_000, 7)
unfolding udivmoddi4 normalize digits_loop
divide_runs = refl

-- -7 / 2 is -3, and -7 % 2 is -1.
negative_runs : (divdi3 (negate 7) 2 ≡ negate 3) × (moddi3 (negate 7) 2 ≡ negate 1)
unfolding divdi3 moddi3 udivdi3 umoddi3 udivmoddi4 normalize digits_loop
negative_runs = (refl, refl)

udivmoddi4_exact_example : udivmoddi4 (2 ^ 64 - 1) 10 ≡ ((2 ^ 64 - 1) / 10, (2 ^ 64 - 1) % 10)
udivmoddi4_exact_example = udivmoddi4_exact (2 ^ 64 - 1) 10 (omega arith) (omega arith)

signed_exact_example :
    (uabsdi (divdi3 (negate 7) 2) ≡ 3)
    × (uabsdi (moddi3 (negate 7) 2) ≡ 1)
    × (is_negative (divdi3 (negate 7) 2) ≡ true)
    × (is_negative (moddi3 (negate 7) 2) ≡ true)
signed_exact_example =
    signed_exact (negate 7) 2 (omega arith) (omega arith) (omega arith) (omega arith)
