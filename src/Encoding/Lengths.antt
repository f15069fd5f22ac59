-- ===== src/Encoding/Lengths.antt =====
-- The lengths that `aws_hex_compute_encoded_len`, `aws_base64_compute_encoded_len` and their kin compute,
-- and how far the checks for overflow go.
use aws_c_common.Prelude.{
  ℕ, ◌+◌, ◌-◌, ◌*◌, ◌/◌, ◌%◌, ◌^◌, ◌≤◌, ◌<◌, ◌≡◌, ◌≢◌, refl, Bool-cases, inl, inr, ok, err,
  overflow_detected, arith, ltb, true, false,
}
use aws_c_common.Encoding.{hex_compute_encoded_len, base64_compute_encoded_len}

-- For the length n of the bytes to encode, below 2 ^ 64, the hex length is 2 * n + 1, and overflow is
-- found exactly when that is no word, but for n = 2 ^ 64 - 1: there the wrapped number passes the check.
pub hex_compute_encoded_len_exact :
    (n : ℕ)
    → (n < 2 ^ 63 → hex_compute_encoded_len n ≡ ok (2 * n + 1))
      × (2 ^ 63 ≤ n → n + 1 < 2 ^ 64 → hex_compute_encoded_len n ≡ err overflow_detected)
      × (n + 1 ≡ 2 ^ 64 → hex_compute_encoded_len n ≡ ok n)
unfolding hex_compute_encoded_len
hex_compute_encoded_len_exact n = (
  λ h.
      let e : (n * 2 % 2 ^ 64 + 1) % 2 ^ 64 ≡ 2 * n + 1 = omega arith in
      let t : ltb (2 * n + 1) n ≡ false = ground arith in rw (e, t) refl,
  λ h k. let t : ltb ((n * 2 % 2 ^ 64 + 1) % 2 ^ 64) n ≡ true = ground arith in rw t refl,
  λ h.
      let e : (n * 2 % 2 ^ 64 + 1) % 2 ^ 64 ≡ n = omega arith in
      let t : ltb n n ≡ false = ground arith in rw (e, t) refl,
)

-- For the length n of the bytes to encode, below 2 ^ 64, the base64 length is 4 for each three bytes or
-- part of them, and 1, as long as that is a word. From there on overflow is found, but for the largest
-- length whose sum with 2 is a word: there the check passes a wrapped number.
pub base64_compute_encoded_len_exact :
    (n : ℕ)
    → n < 2 ^ 64
    → ((n + 2) / 3 < 2 ^ 62 → base64_compute_encoded_len n ≡ ok (4 * ((n + 2) / 3) + 1))
      × (2 ^ 62 ≤ (n + 2) / 3
          → n + 3 ≢ 2 ^ 64
          → base64_compute_encoded_len n ≡ err overflow_detected)
      × (n + 3 ≡ 2 ^ 64 → base64_compute_encoded_len n ≡ ok ((n + 2) / 3))
unfolding base64_compute_encoded_len
base64_compute_encoded_len_exact n word = (
  λ h.
      let e : (n + 2) % 2 ^ 64 ≡ n + 2 = omega arith in
      let t : ltb (n + 2) n ≡ false = ground arith in
      let f : (4 * ((n + 2) / 3) + 1) % 2 ^ 64 ≡ 4 * ((n + 2) / 3) + 1 = omega arith in
      let u : ltb (4 * ((n + 2) / 3) + 1) ((n + 2) / 3) ≡ false = ground arith in
      rw (e, t, f, u) refl,
  λ h k. elim (Bool-cases (ltb n (2 ^ 64 - 2))) [
    | inl inside ↦
        let small : n < 2 ^ 64 - 3 = ground arith in
        let e : (n + 2) % 2 ^ 64 ≡ n + 2 = omega arith in
        let t : ltb (n + 2) n ≡ false = ground arith in
        let u : ltb ((4 * ((n + 2) / 3) + 1) % 2 ^ 64) ((n + 2) / 3) ≡ true = ground arith in
        rw (e, t, u) refl
    | inr wraps ↦ let t : ltb ((n + 2) % 2 ^ 64) n ≡ true = ground arith in rw t refl
  ],
  λ h.
      let e : (n + 2) % 2 ^ 64 ≡ n + 2 = omega arith in
      let t : ltb (n + 2) n ≡ false = ground arith in
      let f : (4 * ((n + 2) / 3) + 1) % 2 ^ 64 ≡ (n + 2) / 3 = omega arith in
      let u : ltb ((n + 2) / 3) ((n + 2) / 3) ≡ false = ground arith in rw (e, t, f, u) refl,
)
