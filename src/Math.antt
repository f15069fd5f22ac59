-- ===== src/Math.antt =====
-- include/aws/common/math.fallback.inl, include/aws/common/math.inl and source/math.c: checked and
-- saturating arithmetic on 32-bit and 64-bit words, and powers of two. A word is a number below
-- 2 ^ 32 or 2 ^ 64, and arithmetic that can wrap is written with its `%`. `size_t` has 64 bits.
-- The result that C returns through the pointer `r` is the value of the `Result`.
pub mod Checked
pub mod PowerOfTwo
mod Tests
use aws_c_common.Prelude.{
  ℕ, ◌+◌, ◌-◌, ◌*◌, ◌/◌, ◌%◌, ◌^◌, Bool, not, ◌&&◌, List, [], ◌∷◌, ltb, leb, ◌==◌, if◌then◌else◌,
  Result, ok, err, overflow_detected, ◌>>=◌, bit_and, bit_or,
}

abbrev pub u64_max : ℕ
u64_max = 2 ^ 64 - 1

abbrev pub u32_max : ℕ
u32_max = 2 ^ 32 - 1

abbrev pub size_max : ℕ
size_max = u64_max

abbrev pub size_max_power_of_two : ℕ
size_max_power_of_two = 2 ^ 63

-- math.fallback.inl
pub mul_u64_saturating : ℕ → ℕ → ℕ
mul_u64_saturating a b =
    if ltb 0 a && ltb 0 b && ltb (u64_max / b) a then u64_max else a * b % 2 ^ 64

pub mul_u64_checked : ℕ → ℕ → Result ℕ
mul_u64_checked a b =
    if ltb 0 a && ltb 0 b && ltb (u64_max / b) a then err overflow_detected else ok (a * b % 2 ^ 64)

pub mul_u32_saturating : ℕ → ℕ → ℕ
mul_u32_saturating a b =
    if ltb 0 a && ltb 0 b && ltb (u32_max / b) a then u32_max else a * b % 2 ^ 32

pub mul_u32_checked : ℕ → ℕ → Result ℕ
mul_u32_checked a b =
    if ltb 0 a && ltb 0 b && ltb (u32_max / b) a then err overflow_detected else ok (a * b % 2 ^ 32)

pub add_u64_saturating : ℕ → ℕ → ℕ
add_u64_saturating a b = if ltb 0 b && ltb (u64_max - b) a then u64_max else (a + b) % 2 ^ 64

pub add_u64_checked : ℕ → ℕ → Result ℕ
add_u64_checked a b =
    if ltb 0 b && ltb (u64_max - b) a then err overflow_detected else ok ((a + b) % 2 ^ 64)

pub add_u32_saturating : ℕ → ℕ → ℕ
add_u32_saturating a b = if ltb 0 b && ltb (u32_max - b) a then u32_max else (a + b) % 2 ^ 32

pub add_u32_checked : ℕ → ℕ → Result ℕ
add_u32_checked a b =
    if ltb 0 b && ltb (u32_max - b) a then err overflow_detected else ok ((a + b) % 2 ^ 32)

-- math.inl; the subtractions run only where they do not wrap.
pub sub_u64_saturating : ℕ → ℕ → ℕ
sub_u64_saturating a b = if leb a b then 0 else (a + 2 ^ 64 - b) % 2 ^ 64

pub sub_u64_checked : ℕ → ℕ → Result ℕ
sub_u64_checked a b = if ltb a b then err overflow_detected else ok ((a + 2 ^ 64 - b) % 2 ^ 64)

pub sub_u32_saturating : ℕ → ℕ → ℕ
sub_u32_saturating a b = if leb a b then 0 else (a + 2 ^ 32 - b) % 2 ^ 32

pub sub_u32_checked : ℕ → ℕ → Result ℕ
sub_u32_checked a b = if ltb a b then err overflow_detected else ok ((a + 2 ^ 32 - b) % 2 ^ 32)

unfoldable pub mul_size_saturating : ℕ → ℕ → ℕ
unfolding mul_u64_saturating
mul_size_saturating a b = mul_u64_saturating a b

unfoldable pub mul_size_checked : ℕ → ℕ → Result ℕ
unfolding mul_u64_checked
mul_size_checked a b = mul_u64_checked a b

unfoldable pub add_size_saturating : ℕ → ℕ → ℕ
unfolding add_u64_saturating
add_size_saturating a b = add_u64_saturating a b

unfoldable pub add_size_checked : ℕ → ℕ → Result ℕ
unfolding add_u64_checked
add_size_checked a b = add_u64_checked a b

unfoldable pub sub_size_saturating : ℕ → ℕ → ℕ
unfolding sub_u64_saturating
sub_size_saturating a b = sub_u64_saturating a b

unfoldable pub sub_size_checked : ℕ → ℕ → Result ℕ
unfolding sub_u64_checked
sub_size_checked a b = sub_u64_checked a b

-- The loop of `aws_add_size_checked_varargs` over its `size_t` arguments.
add_varargs_loop : ℕ → List ℕ → Result ℕ
add_varargs_loop accum [] = ok accum
add_varargs_loop accum (next ∷ rest) =
    add_size_checked accum next >>= λ accum'. add_varargs_loop accum' rest

pub add_size_checked_varargs : List ℕ → Result ℕ
unfolding add_varargs_loop
add_size_checked_varargs arguments = add_varargs_loop 0 arguments

-- The first test is for the case that x is 0; there `x - 1` wraps.
pub is_power_of_two : ℕ → Bool
is_power_of_two x = not (x == 0) && (bit_and x ((x + 2 ^ 64 - 1) % 2 ^ 64) == 0)

-- n |= n >> w
smear : ℕ → ℕ → ℕ
smear w n = bit_or n (n / 2 ^ w)

smear_all : ℕ → ℕ
unfolding smear
smear_all n = smear 32 (smear 16 (smear 8 (smear 4 (smear 2 (smear 1 n)))))

pub round_up_to_power_of_two : ℕ → Result ℕ
unfolding smear_all
round_up_to_power_of_two n =
    if n == 0
    then ok 1
    else (if ltb size_max_power_of_two n
        then err overflow_detected
        else ok ((smear_all (n - 1) + 1) % 2 ^ 64))

unfoldable pub min_size : ℕ → ℕ → ℕ
min_size a b = if ltb a b then a else b

unfoldable pub max_size : ℕ → ℕ → ℕ
max_size a b = if ltb b a then a else b
