-- ===== src/HashTable/Ring.antt =====
-- What the index arithmetic of the table does: the slots form a ring, on which an entry's probe is its
-- distance from the home of its hash code.
use native.Mathlib.Nat.{
  mod-lt, mod-add-mod, add-mod_right, mod-eq_of_lt, mod-mod_of_dvd, dvd-mul_right,
  add-mul-mod_self_left, pow-suc, pow-le-pow_right,
}
use aws_c_common.Prelude.{
  ℕ, zero, suc, ◌+◌, ◌-◌, ◌*◌, ◌%◌, ◌^◌, ◌≤◌, ◌<◌, ◌≡◌, refl, sym, ap, ◌∙◌, arith, bit_and,
}
use aws_c_common.Prelude.Bits.{bit_and-mask, pow_pos}
use aws_c_common.HashTable.{index_at, probe_of}

-- The laws that the searches rely on. The next index is `index_at mask i 1`.
pub record Ring (size mask : ℕ) : Type 0 where
  pub two : 2 ≤ size
  pub word : size ≤ 2 ^ 63
  pub home : (h : ℕ) → h < 2 ^ 64 → bit_and h mask ≡ index_at mask h 0
  pub index-lt : (h p : ℕ) → index_at mask h p < size
  pub index_add : (h p q : ℕ) → index_at mask (index_at mask h p) q ≡ index_at mask h (p + q)
  pub index-zero : (i : ℕ) → i < size → index_at mask i 0 ≡ i
  pub index_turn : (i : ℕ) → i < size → index_at mask i size ≡ i
  pub probe-lt : (i h : ℕ) → probe_of mask i h < size
  pub probe-index : (h p : ℕ) → h < 2 ^ 64 → p < size → probe_of mask (index_at mask h p) h ≡ p
  pub index-probe : (i h : ℕ) → h < 2 ^ 64 → i < size → index_at mask h (probe_of mask i h) ≡ i

module _ (k rest size : ℕ) (size_eq : size ≡ 2 ^ k) (whole : size * rest ≡ 2 ^ 64) (two : 2 ≤ size)
    (word : size ≤ 2 ^ 63) where
  wrapped : (x : ℕ) → x % 2 ^ 64 % size ≡ x % size
  wrapped x =
      ap (λ (t : ℕ). x % t % size) (sym whole) ∙ mod-mod_of_dvd size x (dvd-mul_right size rest)

  masked : (x : ℕ) → bit_and (x % 2 ^ 64) (size - 1) ≡ x % size
  masked x =
      ap (λ (t : ℕ). bit_and (x % 2 ^ 64) (t - 1)) size_eq
      ∙ bit_and-mask k (x % 2 ^ 64)
      ∙ ap (λ (t : ℕ). x % 2 ^ 64 % t) (sym size_eq)
      ∙ wrapped x

  index_lem : (h p : ℕ) → index_at (size - 1) h p ≡ (h + p) % size
  unfolding index_at
  index_lem h p = masked (h + p)

  probe_lem : (i h : ℕ) → probe_of (size - 1) i h ≡ (i + 2 ^ 64 - h) % size
  unfolding probe_of
  probe_lem i h = masked (i + 2 ^ 64 - h)

  -- A whole turn, or several, changes no remainder.
  turned : (x : ℕ) → (x + 2 ^ 64) % size ≡ x % size
  turned x = ap (λ (t : ℕ). (x + t) % size) (sym whole) ∙ add-mul-mod_self_left x size rest

  pos : 0 < size
  pos = omega arith

  mask_Ring : Ring size (size - 1)
  mask_Ring = record {
    two = two;
    word = word;
    home = λ h small.
        let same : h % 2 ^ 64 ≡ h = omega arith in
        let plus : h + 0 ≡ h = omega arith in
        ap (λ (t : ℕ). bit_and t (size - 1)) (sym same)
        ∙ masked h
        ∙ ap (λ (t : ℕ). t % size) (sym plus)
        ∙ sym (index_lem h 0);
    index-lt = λ h p. let l = mod-lt (h + p) pos in omega (arith, index_lem h p);
    index_add = λ h p q.
        let assoc : h + p + q ≡ h + (p + q) = omega arith in
        index_lem (index_at (size - 1) h p) q
        ∙ ap (λ (t : ℕ). (t + q) % size) (index_lem h p)
        ∙ mod-add-mod (h + p) size q
        ∙ ap (λ (t : ℕ). t % size) assoc
        ∙ sym (index_lem h (p + q));
    index-zero = λ i small.
        let plus : i + 0 ≡ i = omega arith in
        index_lem i 0 ∙ ap (λ (t : ℕ). t % size) plus ∙ mod-eq_of_lt small;
    index_turn = λ i small. index_lem i size ∙ add-mod_right i size ∙ mod-eq_of_lt small;
    probe-lt = λ i h. let l = mod-lt (i + 2 ^ 64 - h) pos in omega (arith, probe_lem i h);
    probe-index = λ h p small low.
        let first : (h + p) % size + 2 ^ 64 - h ≡ (h + p) % size + (2 ^ 64 - h) = omega arith in
        let second : h + p + (2 ^ 64 - h) ≡ p + 2 ^ 64 = omega arith in
        probe_lem (index_at (size - 1) h p) h
        ∙ ap (λ (t : ℕ). (t + 2 ^ 64 - h) % size) (index_lem h p)
        ∙ ap (λ (t : ℕ). t % size) first
        ∙ mod-add-mod (h + p) size (2 ^ 64 - h)
        ∙ ap (λ (t : ℕ). t % size) second
        ∙ turned p
        ∙ mod-eq_of_lt low;
    index-probe = λ i h small low.
        let swap : h + (i + 2 ^ 64 - h) % size ≡ (i + 2 ^ 64 - h) % size + h = omega arith in
        let back : i + 2 ^ 64 - h + h ≡ i + 2 ^ 64 = omega arith in
        index_lem h (probe_of (size - 1) i h)
        ∙ ap (λ (t : ℕ). (h + t) % size) (probe_lem i h)
        ∙ ap (λ (t : ℕ). t % size) swap
        ∙ mod-add-mod (i + 2 ^ 64 - h) size h
        ∙ ap (λ (t : ℕ). t % size) back
        ∙ turned i
        ∙ mod-eq_of_lt low;
  }

pow_split : (k j : ℕ) → 2 ^ k * 2 ^ j ≡ 2 ^ (k + j)
pow_split zero j = let e : 0 + j ≡ j = omega arith in rw e (omega arith)
pow_split (suc k) j =
    let e : suc k + j ≡ suc (k + j) = omega arith in
    let ih = pow_split k j in rw (e, pow-suc 2 k, pow-suc 2 (k + j)) (grind arith)

-- The laws hold for every table size: a power of two, from 2 to 2 ^ 63.
pub power-Ring : (k : ℕ) → 1 ≤ k → k ≤ 63 → Ring (2 ^ k) (2 ^ k - 1)
power-Ring k low high =
    let whole : 2 ^ k * 2 ^ (64 - k) ≡ 2 ^ 64 =
      let e : k + (64 - k) ≡ 64 = omega arith in pow_split k (64 - k) ∙ ap (λ (t : ℕ). 2 ^ t) e in
    let two : 2 ≤ 2 ^ k =
      let e : k ≡ suc (k - 1) = omega arith in
      let pos = pow_pos (k - 1) in rw e (omega (arith, pow-suc 2 (k - 1))) in
    let word : 2 ^ k ≤ 2 ^ 63 = pow-le-pow_right (omega arith) high in
    mask_Ring k (2 ^ (64 - k)) (2 ^ k) refl whole two word
