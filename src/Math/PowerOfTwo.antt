-- ===== src/Math/PowerOfTwo.antt =====
-- `aws_is_power_of_two` and `aws_round_up_to_power_of_two` against the powers of two.
use native.Mathlib.Nat.{pow-suc, pow-le-pow_right, one-le-pow, le_refl, le_trans, add_comm}
use native.Mathlib.Nat.{div-eq_of_lt, div-eq_of_lt-le}
use native.Mathlib.Decide.{dec_lt, ℕ_discrete}
use aws_c_common.Prelude.{
  ℕ, zero, suc, ◌+◌, ◌-◌, ◌*◌, ◌/◌, ◌%◌, ◌^◌, ◌≤◌, ◌<◌, ◌≡◌, ◌↔◌, refl, ◌∙◌, true, arith, ok, err,
  overflow_detected, bit_and,
}
use aws_c_common.Prelude.Bits.{bit, bit_and_step, shift-eq-div, shift-shift, bit-bit_or, eq_of_ones}
use aws_c_common.Math.{is_power_of_two, smear, smear_all, round_up_to_power_of_two}

abbrev pub IsPowerOfTwo : ℕ → Type 0
IsPowerOfTwo x = (k : ℕ) × (x ≡ 2 ^ k)

bit_and_self_fuel : (f x : ℕ) → x ≤ f → bit_and x x ≡ x
bit_and_self_fuel f zero h = omega (arith, bit_and_step 0 0)
bit_and_self_fuel zero (suc x) h = absurd (omega arith)
bit_and_self_fuel (suc f) (suc x) h =
    omega (arith, bit_and_step (suc x) (suc x), bit_and_self_fuel f (suc x / 2) (omega arith))

-- The largest power of two in a positive number.
abbrev TopBit : ℕ → ℕ → Type 0
TopBit n k = (2 ^ k ≤ n) × (n < 2 ^ suc k)

TopBit-fuel : (f n : ℕ) → n ≤ f → 0 < n → (k : ℕ) × TopBit n k
TopBit-fuel f zero h p = absurd (omega arith)
TopBit-fuel zero (suc n) h p = absurd (omega arith)
TopBit-fuel (suc f) (suc zero) h p = (0, (omega arith, omega arith))
TopBit-fuel (suc f) (suc (suc n)) h p =
    let (k, (low, high)) = TopBit-fuel f (suc (suc n) / 2) (omega arith) (omega arith) in
    (suc k, (omega (arith, pow-suc 2 k), omega (arith, pow-suc 2 (suc k))))

module _ (n k : ℕ) (t : TopBit n k) where
  bit_top : bit k n ≡ 1
  bit_top = rw shift-eq-div (
      let e : n / 2 ^ k ≡ 1 =
        div-eq_of_lt-le {k = 1} (2 ^ k) {m = n} (omega arith) (omega (arith, pow-suc 2 k)) in
      rw e)

  bit_above : (i : ℕ) → k < i → bit i n ≡ 0
  bit_above i h = rw (shift-eq-div, div-eq_of_lt (le_trans t.1 (pow-le-pow_right (omega arith) h)))

-- The j highest bits up to place k are set, and none above.
record Ones (j k n : ℕ) : Type 0 where
  set : (i : ℕ) → i ≤ k → k < i + j → bit i n ≡ 1
  clear : (i : ℕ) → k < i → bit i n ≡ 0

bit-shift : (i w n : ℕ) → bit i (n / 2 ^ w) ≡ bit (i + w) n
bit-shift i w n = rw (← shift-eq-div w n, shift-shift, add_comm w i)

bit-le-one : (i n : ℕ) → bit i n ≤ 1
bit-le-one i n = omega arith

smear-Ones : (j k n : ℕ) → Ones j k n → Ones (j + j) k (smear j n)
unfolding smear
smear-Ones j k n o = record {
  set = λ i h p.
      rw (bit-bit_or, bit-shift)
        (elim (dec_lt k (i + j)) [
          | yes q ↦ omega (arith, o.set i h q, bit-le-one (i + j) n)
          | no q ↦ omega (arith, o.set (i + j) (omega arith) (omega arith), bit-le-one i n)
        ]);
  clear =
      λ i h. rw (bit-bit_or, bit-shift) (omega (arith, o.clear i h, o.clear (i + j) (omega arith)));
}

TopBit-Ones : (k n : ℕ) → TopBit n k → Ones 1 k n
TopBit-Ones k n t = record {
  set = λ i h p. let e : i ≡ k = omega arith in rw e (bit_top n k t);
  clear = bit_above n k t;
}

-- The six steps fill every bit below the highest one of a 64-bit word.
smear_all-ones : (k n : ℕ) → TopBit n k → k < 64 → smear_all n + 1 ≡ 2 ^ suc k
unfolding smear_all
smear_all-ones k n t h =
    let o = smear-Ones 32 k _ (
      smear-Ones 16 k _ (
        smear-Ones 8 k _
          (smear-Ones 4 k _ (smear-Ones 2 k _ (smear-Ones 1 k _ (TopBit-Ones k n t)))))) in
    eq_of_ones (suc k) (smear_all n) (λ i p. o.set i (omega arith) (omega arith))
      (λ i p. o.clear i (omega arith))

pub pow-lt-reflect : (i j : ℕ) → 2 ^ i < 2 ^ j → i < j
pow-lt-reflect i j h = elim (dec_lt i j) [
  | yes p ↦ p
  | no p ↦
      absurd (omega (arith, pow-le-pow_right {n = 2} (omega arith) {i = j} {j = i} (omega arith)))
]

-- `r` is the least power of two that is at least `n`.
abbrev pub LeastPower : ℕ → ℕ → Type 0
LeastPower n r = IsPowerOfTwo r × (n ≤ r) × ((j : ℕ) → n ≤ 2 ^ j → r ≤ 2 ^ j)

round_least : (n : ℕ) → 0 < n → n ≤ 2 ^ 63 → LeastPower n ((smear_all (n - 1) + 1) % 2 ^ 64)
unfolding smear_all smear
round_least zero p h = absurd (omega arith)
round_least (suc zero) p h = ((0, refl), omega arith, λ j q. q)
round_least (suc (suc m)) p h =
    let (k, (low, high)) = TopBit-fuel (suc m) (suc m) (le_refl _) (omega arith) in
    let small : k < 63 = pow-lt-reflect k 63 (omega arith) in
    let bound : 2 ^ suc k ≤ 2 ^ 63 =
      pow-le-pow_right {n = 2} (omega arith) {i = suc k} {j = 63} (omega arith) in
    let e : (smear_all (suc (suc m) - 1) + 1) % 2 ^ 64 ≡ 2 ^ suc k =
      let same : suc (suc m) - 1 ≡ suc m = omega arith in
      rw (same, smear_all-ones k (suc m) (low, high) (omega arith)) (omega arith) in
    rw e (
      (suc k, refl),
      omega arith,
      λ j q. pow-le-pow_right (omega arith) (pow-lt-reflect k j (omega arith)),
    )

-- Up to 2 ^ 63 the result is the least power of two that is at least n; beyond that, where no 64-bit
-- word is one, the call reports an overflow.
pub round_up_least :
    (n : ℕ)
    → (n ≤ 2 ^ 63 → (r : ℕ) × (round_up_to_power_of_two n ≡ ok r) × LeastPower n r)
      × (2 ^ 63 < n → round_up_to_power_of_two n ≡ err overflow_detected)
unfolding round_up_to_power_of_two
round_up_least zero = (
  λ h. (1, refl, ((0, refl), omega arith, λ j q. one-le-pow j 2 (omega arith))),
  λ h. absurd (omega arith),
)
round_up_least (suc m) =
    (λ h. (_, ground arith, round_least (suc m) (omega arith) h), λ h. ground arith)

-- `x & (x - 1)` drops the lowest set bit.
bit_and_pred_even :
    (x : ℕ) → 0 < x → x % 2 ≡ 0 → bit_and x (x - 1) ≡ bit_and (x / 2) (x / 2 - 1) * 2
bit_and_pred_even x p even =
    let e : (x - 1) / 2 ≡ x / 2 - 1 = omega arith in
    rw (← e) (omega (arith, bit_and_step x (x - 1)))

bit_and_pred_odd : (x : ℕ) → x % 2 ≡ 1 → bit_and x (x - 1) ≡ x / 2 * 2
bit_and_pred_odd x odd =
    let e : (x - 1) / 2 ≡ x / 2 = omega arith in
    let lowest : bit_and x (x - 1) ≡ bit_and (x / 2) ((x - 1) / 2) * 2 =
      omega (arith, bit_and_step x (x - 1)) in
    let step : bit_and x (x - 1) ≡ bit_and (x / 2) (x / 2) * 2 = rw e at lowest in
    omega (arith, bit_and_self_fuel (x / 2) (x / 2) (le_refl _))

power_of_bit_and : (f x : ℕ) → x ≤ f → 0 < x → bit_and x (x - 1) ≡ 0 → IsPowerOfTwo x
power_of_bit_and zero x h p e = absurd (omega arith)
power_of_bit_and (suc f) x h p e = elim (ℕ_discrete (x % 2) 0) [
  | yes even ↦
      let (k, q) =
        power_of_bit_and f (x / 2) (omega arith) (omega arith)
          (omega (arith, bit_and_pred_even x p even)) in
      (suc k, omega (arith, pow-suc 2 k))
  | no odd ↦ (0, omega (arith, bit_and_pred_odd x (omega arith)))
]

bit_and_power : (k : ℕ) → bit_and (2 ^ k) (2 ^ k - 1) ≡ 0
bit_and_power zero = refl
bit_and_power (suc k) =
    let half : 2 ^ suc k / 2 ≡ 2 ^ k = omega (arith, pow-suc 2 k) in
    let even =
      bit_and_pred_even (2 ^ suc k) (omega (arith, one-le-pow (suc k) 2))
        (omega (arith, pow-suc 2 k)) in
    rw half at even ∙ omega (arith, bit_and_power k)

-- Of a 64-bit word the test says exactly whether it is a power of two; 0 is none.
pub is_power_of_two_iff : (x : ℕ) → x < 2 ^ 64 → (is_power_of_two x ≡ true) ↔ IsPowerOfTwo x
unfolding is_power_of_two
is_power_of_two_iff zero h = (λ e. cc, λ (k, e). absurd (omega (arith, one-le-pow k 2)))
is_power_of_two_iff (suc m) h =
    let e : (suc m + 2 ^ 64 - 1) % 2 ^ 64 ≡ suc m - 1 = omega arith in
    rw e (
      λ t. power_of_bit_and (suc m) (suc m) (le_refl _) (omega arith) (ground arith),
      λ (k, q).
          let z : bit_and (suc m) (suc m - 1) ≡ 0 = rw (← q) at (bit_and_power k) in ground arith,
    )
