-- ===== src/Math/Tests.antt =====
-- Runs of the arithmetic at the edges of the words, and its theorems there.
use aws_c_common.Prelude.{
  ℕ, ◌+◌, ◌-◌, ◌*◌, ◌^◌, ◌≤◌, ◌<◌, min, ◌≡◌, ◌↔◌, refl, List, [], ◌∷◌, ok, err, overflow_detected,
  leb, if◌then◌else◌, true, false, arith,
}
use aws_c_common.Math.{
  u64_max, u32_max, mul_u64_saturating, mul_u64_checked, mul_u32_saturating, mul_u32_checked,
  add_u64_saturating, add_u64_checked, add_u32_saturating, add_u32_checked, sub_u64_saturating,
  sub_u64_checked, sub_u32_saturating, sub_u32_checked, add_size_checked_varargs, is_power_of_two,
  round_up_to_power_of_two,
}
use aws_c_common.Math.Checked.{
  fit, mul_exact, add_exact, sub_exact, sum, add_size_checked_varargs-sum,
}
use aws_c_common.Math.PowerOfTwo.{IsPowerOfTwo, LeastPower, round_up_least, is_power_of_two_iff}

mul_edge : mul_u64_checked (2 ^ 32) (2 ^ 32) ≡ err overflow_detected
unfolding mul_u64_checked
mul_edge = refl

round_edge : round_up_to_power_of_two (2 ^ 62 + 1) ≡ ok (2 ^ 63)
unfolding round_up_to_power_of_two
round_edge = refl

power_edge : is_power_of_two 0 ≡ false
unfolding is_power_of_two
power_edge = refl

mul_exact_example :
    (mul_u64_checked (2 ^ 40) 3 ≡ fit u64_max (2 ^ 40 * 3))
    × (mul_u64_saturating (2 ^ 40) 3 ≡ min (2 ^ 40 * 3) u64_max)
    × (mul_u32_checked (2 ^ 40) 3 ≡ fit u32_max (2 ^ 40 * 3))
    × (mul_u32_saturating (2 ^ 40) 3 ≡ min (2 ^ 40 * 3) u32_max)
mul_exact_example = mul_exact (2 ^ 40) 3

add_exact_example :
    (add_u64_checked u64_max 1 ≡ fit u64_max (u64_max + 1))
    × (add_u64_saturating u64_max 1 ≡ min (u64_max + 1) u64_max)
    × (add_u32_checked 5 7 ≡ fit u32_max (5 + 7))
    × (add_u32_saturating 5 7 ≡ min (5 + 7) u32_max)
add_exact_example = add_exact u64_max 1 5 7 (omega arith) (omega arith) (omega arith) (omega arith)

sub_exact_example :
    (sub_u64_checked 7 9 ≡ (if leb 9 7 then ok (7 - 9) else err overflow_detected))
    × (sub_u64_saturating 7 9 ≡ 7 - 9)
    × (sub_u32_checked 9 7 ≡ (if leb 7 9 then ok (9 - 7) else err overflow_detected))
    × (sub_u32_saturating 9 7 ≡ 9 - 7)
sub_exact_example = sub_exact 7 9 9 7 (omega arith) (omega arith) (omega arith) (omega arith)

abbrev sizes : List ℕ
sizes = 4 ∷ (2 ^ 63) ∷ 6 ∷ []

add_size_checked_varargs-sum_example : add_size_checked_varargs sizes ≡ fit u64_max (sum sizes)
add_size_checked_varargs-sum_example = add_size_checked_varargs-sum sizes (omega arith)

is_power_of_two_iff_example : (is_power_of_two 4096 ≡ true) ↔ IsPowerOfTwo 4096
is_power_of_two_iff_example = is_power_of_two_iff 4096 (omega arith)

round_up_least_example :
    (1000 ≤ 2 ^ 63 → (r : ℕ) × (round_up_to_power_of_two 1000 ≡ ok r) × LeastPower 1000 r)
    × (2 ^ 63 < 1000 → round_up_to_power_of_two 1000 ≡ err overflow_detected)
round_up_least_example = round_up_least 1000
