-- ===== src/Prelude/Bits.antt =====
-- Facts on `|`, `&` and shifts of native numbers, from one equation for the lowest binary digit.
use Prim.Native.Nat.{
  ℕ, zero, suc, ◌+◌, ◌-◌, ◌*◌, ◌/◌, ◌%◌, ◌^◌, ◌≤◌, ◌<◌, min, max, bit_and, bit_or, digits, bitwise,
  bit_and-bitwise, bit_or-bitwise,
}
use Prim.Native.Nat.add
use mathlib.Core.Path.{◌≡◌, refl, ap, ◌∙◌, sym}
use native.Mathlib.Decide.{dec_lt}
use native.Mathlib.Nat.{
  le_refl, mod-lt, mod-add-div, mod-eq_of_lt, add-mul-mod_self_left, pow-suc, pow-succ',
  div-div-eq-div-mul,
}
use native.Mathlib.Omega.{arith}

-- One unit of fuel beyond the first number is spare.
digits-suc :
    (rest : ℕ → ℕ) (op : ℕ → ℕ → ℕ) (fuel x y : ℕ)
    → x ≤ fuel
    → digits rest op (suc fuel) x y ≡ digits rest op fuel x y
digits-suc rest op zero zero y h = refl
digits-suc rest op zero (suc x) y h = elim h [ ]
digits-suc rest op (suc fuel) zero y h = refl
digits-suc rest op (suc fuel) (suc x) y h =
    ap (λ (t : ℕ). t * 2 + op (suc x % 2) (y % 2))
      (digits-suc rest op fuel (suc x / 2) (y / 2) (omega arith))

digits_spare :
    (rest : ℕ → ℕ) (op : ℕ → ℕ → ℕ) (k x y : ℕ) → digits rest op (k + x) x y ≡ digits rest op x x y
digits_spare rest op zero x y = rw (add.zero x)
digits_spare rest op (suc k) x y =
    rw (add.suc k x) (digits-suc rest op (k + x) x y (omega arith) ∙ digits_spare rest op k x y)

-- The native operations recur on the halves: the lowest digit stands apart.
bitwise-halves :
    (rest : ℕ → ℕ) (op : ℕ → ℕ → ℕ) (x y : ℕ)
    → 0 < x
    → bitwise rest op x y ≡ bitwise rest op (x / 2) (y / 2) * 2 + op (x % 2) (y % 2)
bitwise-halves rest op zero y h = elim h [ ]
bitwise-halves rest op (suc x) y h =
    let half = suc x / 2 in
    let whole : x - half + half ≡ x = omega arith in
    let spare = digits_spare rest op (x - half) half (y / 2) in omega (arith, rw whole at spare)

pub bit_or_step : (a b : ℕ) → bit_or a b ≡ bit_or (a / 2) (b / 2) * 2 + max (a % 2) (b % 2)
bit_or_step a b = elim (dec_lt 0 a) [
  | yes h ↦ simp bit_or-bitwise (bitwise-halves (λ t. t) max a b h)
  | no h ↦
      let e : a ≡ 0 = omega arith in
      let e' : a / 2 ≡ 0 = omega arith in rw (e', e) (simp bit_or-bitwise (omega arith))
]

pub bit_and_step : (a b : ℕ) → bit_and a b ≡ bit_and (a / 2) (b / 2) * 2 + min (a % 2) (b % 2)
bit_and_step a b = elim (dec_lt 0 a) [
  | yes h ↦ simp bit_and-bitwise (bitwise-halves (λ t. zero) min a b h)
  | no h ↦
      let e : a ≡ 0 = omega arith in
      let e' : a / 2 ≡ 0 = omega arith in rw (e', e) (simp bit_and-bitwise (omega arith))
]

-- `n >> i`, one place at a time, and the bit of weight 2 ^ i.
abbrev pub shift : ℕ → ℕ → ℕ
shift zero n = n
shift (suc i) n = shift i (n / 2)

abbrev pub bit : ℕ → ℕ → ℕ
bit i n = shift i n % 2

pub shift-eq-div : (i n : ℕ) → shift i n ≡ n / 2 ^ i
shift-eq-div zero n = omega arith
shift-eq-div (suc i) n = rw (shift-eq-div i (n / 2), pow-succ', ← div-div-eq-div-mul)

pub shift-shift : (i j n : ℕ) → shift i (shift j n) ≡ shift (j + i) n
shift-shift i zero n = rw (add.zero i)
shift-shift i (suc j) n = rw (add.suc j i) (shift-shift i j (n / 2))

pub bit-bit_or : (i a b : ℕ) → bit i (bit_or a b) ≡ max (bit i a) (bit i b)
bit-bit_or zero a b = omega (arith, bit_or_step a b)
bit-bit_or (suc i) a b =
    let e : bit_or a b / 2 ≡ bit_or (a / 2) (b / 2) = omega (arith, bit_or_step a b) in
    rw e (bit-bit_or i (a / 2) (b / 2))

eq-zero_fuel : (f n : ℕ) → n ≤ f → ((i : ℕ) → bit i n ≡ 0) → n ≡ 0
eq-zero_fuel zero n h z = omega arith
eq-zero_fuel (suc f) zero h z = refl
eq-zero_fuel (suc f) (suc n) h z =
    omega (arith, z 0, eq-zero_fuel f (suc n / 2) (omega arith) (λ i. z (suc i)))

-- A number whose n lowest bits alone are set is 2 ^ n - 1.
pub eq_of_ones :
    (n m : ℕ) → ((i : ℕ) → i < n → bit i m ≡ 1) → ((i : ℕ) → n ≤ i → bit i m ≡ 0) → m + 1 ≡ 2 ^ n
eq_of_ones zero m one zeros =
    omega (arith, eq-zero_fuel m m (le_refl m) (λ i. zeros i (omega arith)))
eq_of_ones (suc n) m one zeros = omega (
  arith,
  one 0 (omega arith),
  pow-suc 2 n,
  eq_of_ones n (m / 2) (λ i h. one (suc i) (omega arith)) (λ i h. zeros (suc i) (omega arith)),
)

bit_and-zero_fuel : (f n : ℕ) → n ≤ f → bit_and n 0 ≡ 0
bit_and-zero_fuel f zero h = refl
bit_and-zero_fuel zero (suc n) h = elim h [ ]
bit_and-zero_fuel (suc f) (suc n) h =
    omega (arith, bit_and_step (suc n) 0, bit_and-zero_fuel f (suc n / 2) (omega arith))

pub bit_and-one : (n : ℕ) → bit_and n 1 ≡ n % 2
bit_and-one n = omega (arith, bit_and_step n 1, bit_and-zero_fuel (n / 2) (n / 2) (le_refl (n / 2)))

pub bit_and-zero : (n : ℕ) → bit_and n 0 ≡ 0
bit_and-zero n = bit_and-zero_fuel n n (le_refl n)

-- The remainder by its quotient.
pub mod_unique : (x m q r : ℕ) → r < m → x ≡ r + m * q → x % m ≡ r
mod_unique x m q r h e = ap (λ (t : ℕ). t % m) e ∙ add-mul-mod_self_left r m q ∙ mod-eq_of_lt h

pub pow_pos : (k : ℕ) → 0 < 2 ^ k
pow_pos zero = omega arith
pow_pos (suc k) = omega (arith, pow-suc 2 k, pow_pos k)

-- `&` with n low ones is the remainder by 2 ^ n.
pub bit_and-mask : (k x : ℕ) → bit_and x (2 ^ k - 1) ≡ x % 2 ^ k
bit_and-mask zero x = omega (arith, bit_and-zero x)
bit_and-mask (suc k) x =
    let p : ℕ = 2 ^ k in
    let double : 2 ^ suc k ≡ p * 2 = pow-suc 2 k in
    let pos : 0 < p = pow_pos k in
    let half : (p * 2 - 1) / 2 ≡ p - 1 = omega arith in
    let odd : (p * 2 - 1) % 2 ≡ 1 = omega arith in
    let step = bit_and_step x (p * 2 - 1) in
    let ih = bit_and-mask k (x / 2) in
    let r = x / 2 % p in
    let split = mod-add-div (x / 2) p in
    let low = mod-lt (x / 2) pos in
    rw double (
      step
      ∙ ap (λ (t : ℕ). bit_and (x / 2) t * 2 + min (x % 2) ((p * 2 - 1) % 2)) half
      ∙ ap (λ (t : ℕ). t * 2 + min (x % 2) ((p * 2 - 1) % 2)) ih
      ∙ sym (
          mod_unique x (p * 2) (x / 2 / p) (r * 2 + min (x % 2) ((p * 2 - 1) % 2)) (omega arith)
            (let prod : p * 2 * (x / 2 / p) ≡ p * (x / 2 / p) * 2 = grind arith in omega arith)))

-- The bits of two numbers joined: at least each of them, and no wider than they are.
pub bit_or_bound : (k a b : ℕ) → a < 2 ^ k → b < 2 ^ k → bit_or a b < 2 ^ k
bit_or_bound zero a b ha hb =
    let za : a ≡ 0 = omega arith in let zb : b ≡ 0 = omega arith in rw (za, zb) (omega arith)
bit_or_bound (suc k) a b ha hb =
    let ih =
      bit_or_bound k (a / 2) (b / 2) (omega (arith, pow-suc 2 k)) (omega (arith, pow-suc 2 k)) in
    omega (arith, bit_or_step a b, pow-suc 2 k)

bit_or_above_fuel : (fuel a b : ℕ) → a ≤ fuel → b ≤ fuel → max a b ≤ bit_or a b
bit_or_above_fuel zero a b ha hb =
    let za : a ≡ 0 = omega arith in let zb : b ≡ 0 = omega arith in rw (za, zb) (omega arith)
bit_or_above_fuel (suc fuel) a b ha hb =
    let ih = bit_or_above_fuel fuel (a / 2) (b / 2) (omega arith) (omega arith) in
    omega (arith, bit_or_step a b)

pub bit_or_above : (a b : ℕ) → max a b ≤ bit_or a b
bit_or_above a b = bit_or_above_fuel (max a b) a b (omega arith) (omega arith)

bit_or_right_zero_fuel : (fuel a : ℕ) → a ≤ fuel → bit_or a 0 ≡ a
bit_or_right_zero_fuel zero a h = let z : a ≡ 0 = omega arith in rw z refl
bit_or_right_zero_fuel (suc fuel) a h =
    let ih = bit_or_right_zero_fuel fuel (a / 2) (omega arith) in
    let e : 0 / 2 ≡ 0 = omega arith in
    let step = bit_or_step a 0 in let step' = rw e at step in omega arith

-- Bits that do not overlap are joined by a sum.
pub bit_or_apart : (k a b : ℕ) → b < 2 ^ k → bit_or (a * 2 ^ k) b ≡ a * 2 ^ k + b
bit_or_apart zero a b h =
    let z : b ≡ 0 = omega arith in
    let e : a * 2 ^ 0 ≡ a = omega arith in
    rw (z, e) (bit_or_right_zero_fuel a a (le_refl a) ∙ (let t : a ≡ a + 0 = omega arith in t))
bit_or_apart (suc k) a b h =
    let p : ℕ = 2 ^ k in
    let double : 2 ^ suc k ≡ p * 2 = pow-suc 2 k in
    let whole : a * 2 ^ suc k ≡ a * p * 2 = ap (λ (t : ℕ). a * t) double ∙ (grind arith) in
    let ih = bit_or_apart k a (b / 2) (omega arith) in
    let half : a * p * 2 / 2 ≡ a * p = omega arith in
    let step = bit_or_step (a * p * 2) b in
    let step' = rw (half, ih) at step in rw whole (omega arith)
