-- ===== src/Math/Checked.antt =====
-- Checked and saturating arithmetic against exact arithmetic on the naturals: a result that fits the
-- word is the exact one, and any other is refused or saturates.
use native.Mathlib.Nat.{div-lt_iff_lt-mul}
use aws_c_common.Prelude.{
  ℕ, suc, ◌+◌, ◌-◌, ◌*◌, ◌/◌, ◌≤◌, min, ◌≡◌, List, [], ◌∷◌, ltb, leb, if◌then◌else◌, arith, Result,
  ok, err, overflow_detected, Bool-cases, ◌&&◌, zero, ap, ◌∙◌, inl, inr,
}
use aws_c_common.Math.{
  u64_max, u32_max, mul_u64_saturating, mul_u64_checked, mul_u32_saturating, mul_u32_checked,
  add_u64_saturating, add_u64_checked, add_u32_saturating, add_u32_checked, sub_u64_saturating,
  sub_u64_checked, sub_u32_saturating, sub_u32_checked, mul_size_checked, add_size_checked,
  add_varargs_loop, add_size_checked_varargs,
}

-- The exact value, if it is at most `top`, and the overflow error otherwise.
unfoldable pub fit : ℕ → ℕ → Result ℕ
fit top v = if leb v top then ok v else err overflow_detected

-- The division test of the multiplications, at any largest value.
div_test : (top a b : ℕ) → (ltb 0 a && ltb 0 b && ltb (top / b) a) ≡ ltb top (a * b)
div_test top zero b = ground arith
div_test top (suc a) zero = ground arith
div_test top (suc a) (suc b) =
    let (there, back) = div-lt_iff_lt-mul {k = suc b} {x = top} {y = suc a} (omega arith) in
    ground (arith, there, back)

module _ (a b : ℕ) where
  -- At 64 and at 32 bits the checked product is the exact one or an overflow error, and the saturating
  -- product is the least of the exact one and the largest word.
  pub mul_exact :
      (mul_u64_checked a b ≡ fit u64_max (a * b))
      × (mul_u64_saturating a b ≡ min (a * b) u64_max)
      × (mul_u32_checked a b ≡ fit u32_max (a * b))
      × (mul_u32_saturating a b ≡ min (a * b) u32_max)
  unfolding mul_u64_checked mul_u64_saturating mul_u32_checked mul_u32_saturating fit
  mul_exact = (
    rw (div_test u64_max a b) (ground arith),
    rw (div_test u64_max a b) (ground arith),
    rw (div_test u32_max a b) (ground arith),
    rw (div_test u32_max a b) (ground arith),
  )

  pub mul_size_checked-fit : mul_size_checked a b ≡ fit u64_max (a * b)
  unfolding mul_size_checked fit
  mul_size_checked-fit = rw (div_test u64_max a b) (ground arith)

  pub add_size_checked-fit : a ≤ u64_max → b ≤ u64_max → add_size_checked a b ≡ fit u64_max (a + b)
  unfolding add_size_checked fit
  add_size_checked-fit h k = ground arith

-- Of two 64-bit words the checked sum is the exact one or an overflow error, and the saturating sum is
-- the least of the exact one and the largest word. So too of two 32-bit words, at 32 bits.
pub add_exact :
    (a b c d : ℕ)
    → a ≤ u64_max
    → b ≤ u64_max
    → c ≤ u32_max
    → d ≤ u32_max
    → (add_u64_checked a b ≡ fit u64_max (a + b))
      × (add_u64_saturating a b ≡ min (a + b) u64_max)
      × (add_u32_checked c d ≡ fit u32_max (c + d))
      × (add_u32_saturating c d ≡ min (c + d) u32_max)
unfolding add_u64_checked add_u64_saturating add_u32_checked add_u32_saturating fit
add_exact a b c d ha hb hc hd = (ground arith, ground arith, ground arith, ground arith)

-- Of two 64-bit words the checked difference is exact, or an overflow error when it would be negative,
-- and the saturating difference stops at 0. So too of two 32-bit words, at 32 bits.
pub sub_exact :
    (a b c d : ℕ)
    → a ≤ u64_max
    → b ≤ u64_max
    → c ≤ u32_max
    → d ≤ u32_max
    → (sub_u64_checked a b ≡ (if leb b a then ok (a - b) else err overflow_detected))
      × (sub_u64_saturating a b ≡ a - b)
      × (sub_u32_checked c d ≡ (if leb d c then ok (c - d) else err overflow_detected))
      × (sub_u32_saturating c d ≡ c - d)
unfolding sub_u64_checked sub_u64_saturating sub_u32_checked sub_u32_saturating
sub_exact a b c d ha hb hc hd = (ground arith, ground arith, ground arith, ground arith)

unfoldable pub sum : List ℕ → ℕ
sum [] = 0
sum (x ∷ xs) = x + sum xs

-- Every number of the list is a 64-bit word.
abbrev pub Words : List ℕ → Type 0
Words [] = Unit {0}
Words (x ∷ xs) = (x ≤ u64_max) × Words xs

add_varargs_loop-fit :
    (accum : ℕ) (xs : List ℕ)
    → accum ≤ u64_max
    → Words xs
    → add_varargs_loop accum xs ≡ fit u64_max (accum + sum xs)
unfolding add_varargs_loop fit sum
add_varargs_loop-fit accum [] h w = ground arith
add_varargs_loop-fit accum (x ∷ xs) h (hx, hs) = elim (Bool-cases (leb (accum + x) u64_max)) [
  | inl fits ↦
      rw (add_size_checked-fit accum x h hx, fits)
        (ground (arith, add_varargs_loop-fit (accum + x) xs))
  | inr over ↦ rw (add_size_checked-fit accum x h hx, over) (ground arith)
]

-- The sum of any number of words is the exact one, or an overflow error when that needs more than 64
-- bits, whatever the order of the words.
pub add_size_checked_varargs-sum :
    (xs : List ℕ) → Words xs → add_size_checked_varargs xs ≡ fit u64_max (sum xs)
unfolding add_size_checked_varargs
add_size_checked_varargs-sum xs w =
    add_varargs_loop-fit 0 xs (omega arith) w ∙ ap (fit u64_max) (omega arith)
