-- ===== src/HashTable/Keys.antt =====
-- The caller's `hash_fn` and `equals_fn`, and the keys that the table takes for the same.
use aws_c_common.Prelude.{
  ℕ, ◌^◌, ◌<◌, ◌≡◌, refl, sym, ap, ◌∙◌, Bool, true, ◌==◌, ◌⊎◌, inl, inr, arith, Bool-cases, ==_iff,
}
use aws_c_common.HashTable.{hash_for, safe_eq_check}

-- What the table needs of the two functions, on keys that are not NULL. The header asks that equality is
-- symmetric and consistent with the hash function; that it is transitive makes it an equality.
pub record Keys (hash_fn : ℕ → ℕ) (equals_fn : ℕ → ℕ → Bool) : Type 0 where
  pub word : (k : ℕ) → hash_fn k < 2 ^ 64
  pub symmetric : (a b : ℕ) → 0 < a → 0 < b → equals_fn a b ≡ true → equals_fn b a ≡ true
  pub transitive :
      (a b c : ℕ)
      → 0 < a
      → 0 < b
      → 0 < c
      → equals_fn a b ≡ true
      → equals_fn b c ≡ true
      → equals_fn a c ≡ true
  pub consistent : (a b : ℕ) → 0 < a → 0 < b → equals_fn a b ≡ true → hash_fn a ≡ hash_fn b

module _ (hash_fn : ℕ → ℕ) (equals_fn : ℕ → ℕ → Bool) (keys : Keys hash_fn equals_fn) where
  pub hash_for-word : (k : ℕ) → hash_for hash_fn k < 2 ^ 64
  unfolding hash_for
  hash_for-word k = let w = keys.word k in ground arith

  pub hash_for_positive : (k : ℕ) → 0 < hash_for hash_fn k
  unfolding hash_for
  hash_for_positive k = ground arith

  abbrev Same : ℕ → ℕ → Type 0
  Same a b = (a ≡ b) ⊎ ((0 < a) × (0 < b) × (equals_fn a b ≡ true))

  safe_eq_out : (a b : ℕ) → safe_eq_check equals_fn a b ≡ true → Same a b
  unfolding safe_eq_check
  safe_eq_out a b e = elim (Bool-cases (a == b)) [
    | inl same ↦ inl ((==_iff a b).0 same)
    | inr other ↦ inr (ground arith, ground arith, ground arith)
  ]

  safe_eq_in : (a b : ℕ) → Same a b → safe_eq_check equals_fn a b ≡ true
  unfolding safe_eq_check
  safe_eq_in a b (inl same) = let e : (a == b) ≡ true = (==_iff a b).1 same in rw e refl
  safe_eq_in a b (inr (pa, pb, e)) = ground arith

  pub safe_eq_check-symmetric :
      (a b : ℕ) → safe_eq_check equals_fn a b ≡ true → safe_eq_check equals_fn b a ≡ true
  safe_eq_check-symmetric a b e = elim (safe_eq_out a b e) [
    | inl same ↦ safe_eq_in b a (inl (sym same))
    | inr (pa, pb, h) ↦ safe_eq_in b a (inr (pb, pa, keys.symmetric a b pa pb h))
  ]

  pub safe_eq_check-transitive :
      (a b c : ℕ)
      → safe_eq_check equals_fn a b ≡ true
      → safe_eq_check equals_fn b c ≡ true
      → safe_eq_check equals_fn a c ≡ true
  safe_eq_check-transitive a b c e f = elim (safe_eq_out a b e) [
    | inl same ↦ ap (λ (t : ℕ). safe_eq_check equals_fn t c) same ∙ f
    | inr (pa, pb, h) ↦ elim (safe_eq_out b c f) [
      | inl same ↦ ap (safe_eq_check equals_fn a) (sym same) ∙ e
      | inr (_, pc, g) ↦ safe_eq_in a c (inr (pa, pc, keys.transitive a b c pa pb pc h g))
    ]
  ]

  -- Keys that are equal to each other are equal to the same keys.
  pub safe_eq_check_swap :
      (a b c : ℕ)
      → safe_eq_check equals_fn a b ≡ true
      → safe_eq_check equals_fn c a ≡ safe_eq_check equals_fn c b
  safe_eq_check_swap a b c e = elim (Bool-cases (safe_eq_check equals_fn c a)) [
    | inl one ↦ one ∙ sym (safe_eq_check-transitive c a b one e)
    | inr differs ↦ elim (Bool-cases (safe_eq_check equals_fn c b)) [
      | inr too ↦ differs ∙ sym too
      | inl two ↦
          let one = safe_eq_check-transitive c b a two (safe_eq_check-symmetric a b e) in
          absurd (ground arith)
    ]
  ]

  pub same_hash :
      (a b : ℕ) → safe_eq_check equals_fn a b ≡ true → hash_for hash_fn a ≡ hash_for hash_fn b
  unfolding hash_for
  same_hash a b e = elim (safe_eq_out a b e) [
    | inl same ↦ ap (hash_for hash_fn) same
    | inr (pa, pb, h) ↦ let same = keys.consistent a b pa pb h in ground arith
  ]
