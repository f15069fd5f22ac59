-- ===== src/HashTable/Expanding.antt =====
-- `s_expand_table`: a table twice as large, with the same elements.
use native.Mathlib.Nat.{pow-le-pow_right, pow-suc}
use aws_c_common.Prelude.{
  ℕ, suc, ◌+◌, ◌-◌, ◌*◌, ◌^◌, ◌≤◌, ◌<◌, ◌≡◌, refl, ap, ◌∙◌, Bool, true, false, ◌⊎◌, leb, ◌==◌,
  ==_iff, inl, inr, arith, Bool-cases, replicate, ok, err, overflow_detected,
}
use aws_c_common.Prelude.Weight.{weight, weight-replicate}
use aws_c_common.Math.{u64_max}
use aws_c_common.Math.Checked.{fit, mul_size_checked-fit}
use aws_c_common.Math.PowerOfTwo.{pow-lt-reflect}
use aws_c_common.HashTable.{Entry, empty_entry, State}
use aws_c_common.HashTable.Operations.{update_template_size, expand_table, emplace_all}
use aws_c_common.HashTable.Placing.{Counts}
use aws_c_common.HashTable.Inserting.{occupied, emplace_all-Inserted}
use aws_c_common.HashTable.Keys.{Keys}
use aws_c_common.HashTable.Lookup.{one_if, one_if-Counts, stray, stray-Counts}
use aws_c_common.HashTable.Table.{IsTable, sized-Ring}
use aws_c_common.HashTable.Growing.{
  bytes_of, HalfLoad, sized, at_least_two, fresh, load_limit-lt, half_load,
  update_template_size-runs, alloc_state-fit, fresh-IsTable,
}

module _ (max_load_of : ℕ → ℕ) where
  module _ (hash_fn : ℕ → ℕ) (equals_fn : ℕ → ℕ → Bool) (keys : Keys hash_fn equals_fn) where
    -- The larger table: twice as many slots, the same elements, and room for one more.
    pub record Grown (s r : State) : Type 0 where
      pub is_table : IsTable hash_fn equals_fn keys r
      pub count : r.entry_count ≡ s.entry_count
      pub spare : r.entry_count + 1 ≤ r.max_load
      pub weigh : (f : Entry → ℕ) → Counts f → weight f r.slots ≡ weight f s.slots

    abbrev pub bigger : State → State
    bigger s =
        let new = fresh max_load_of s (s.size * 2) in
        record new { slots = emplace_all new.size new.mask s.slots new.slots }

    module _ (half : HalfLoad max_load_of) (s : State) (t : IsTable hash_fn equals_fn keys s) where
      bigger-Grown : t.exponent < 63 → Grown s (bigger s)
      bigger-Grown small =
          let e : s.size * 2 ≡ 2 ^ suc t.exponent =
            omega (arith, pow-suc 2 t.exponent, t.size_eq) in
          let ring =
            sized-Ring (s.size * 2) (s.size * 2 - 1) (suc t.exponent) (omega arith) (omega arith) e
              refl in
          let new =
            fresh-IsTable max_load_of hash_fn equals_fn keys (record s { entry_count = 0 })
              (s.size * 2) (suc t.exponent) refl (omega arith) (omega arith) e in
          let empty : (f : Entry → ℕ)
              → Counts f
              → weight f (replicate (s.size * 2) empty_entry) ≡ 0 =
            λ f c. weight-replicate f (s.size * 2) empty_entry (c empty_entry refl) in
          let none = empty occupied (λ x gone. rw gone refl) in
          let done =
            emplace_all-Inserted (s.size * 2) (s.size * 2 - 1) ring s.slots
              (replicate (s.size * 2) empty_entry) new.chain new.words new.len t.words
              (omega (arith, t.counted, t.load, t.room)) in
          let weigh : (f : Entry → ℕ) → Counts f → weight f (bigger s).slots ≡ weight f s.slots =
            λ f c. omega (arith, done.weigh f c, empty f c) in
          let below = load_limit-lt max_load_of (s.size * 2) ring.two in
          let wide = half_load max_load_of half (s.size * 2) ring.two in
          record {
            is_table = record {
              exponent = suc t.exponent;
              low = omega arith;
              high = omega arith;
              size_eq = e;
              mask_eq = refl;
              load = omega (arith, t.load, t.room);
              room = below;
              counted = weigh occupied (λ x gone. rw gone refl) ∙ t.counted;
              chain = done.chain;
              words = done.words;
              len = done.len;
              hashed =
                  weigh (stray hash_fn equals_fn keys) (stray-Counts hash_fn equals_fn keys)
                  ∙ t.hashed;
              unique = λ key.
                  omega (
                    arith,
                    weigh (one_if equals_fn key) (one_if-Counts equals_fn key),
                    t.unique key,
                  );
            };
            count = refl;
            spare = omega (arith, t.load, t.room);
            weigh = weigh;
          }

      -- The size that `s_update_template_size` comes to is the one that is asked for.
      doubled :
          t.exponent < 63
          → update_template_size max_load_of s (s.size * 2) ≡ ok (sized max_load_of s (s.size * 2))
      doubled small =
          let e : s.size * 2 ≡ 2 ^ suc t.exponent =
            omega (arith, pow-suc 2 t.exponent, t.size_eq) in
          let bound : 2 ^ suc t.exponent ≤ 2 ^ 63 =
            pow-le-pow_right {n = 2} (omega arith) {i = suc t.exponent} {j = 63} (omega arith) in
          let two = (sized-Ring s.size s.mask t.exponent t.low t.high t.size_eq t.mask_eq).two in
          let (size, runs, (power, enough, least)) =
            update_template_size-runs max_load_of s (s.size * 2) (omega arith) in
          let wanted : at_least_two (s.size * 2) ≡ s.size * 2 = ground arith in
          let above = least (suc t.exponent) (omega arith) in
          let same : size ≡ s.size * 2 = omega arith in
          runs ∙ ap (λ (n : ℕ). ok (sized max_load_of s n)) same

      -- A table grows to twice its size, or its size in bytes is too large for a word and it is refused.
      pub expand_table-cases :
          ((expand_table max_load_of s ≡ ok (bigger s)) × Grown s (bigger s))
          ⊎ ((expand_table max_load_of s ≡ err overflow_detected)
              × (u64_max < bytes_of (s.size * 2)))
      unfolding expand_table fit
      expand_table-cases = elim (Bool-cases (leb (bytes_of (s.size * 2)) u64_max)) [
        | inl fits ↦
            let short : s.size < 2 ^ 63 = ground arith in
            let small : t.exponent < 63 = pow-lt-reflect t.exponent 63 (omega (arith, t.size_eq)) in
            let product : leb (s.size * 2) u64_max ≡ true = ground arith in
            inl (
              rw
                  (
                    mul_size_checked-fit s.size 2,
                    product,
                    doubled small,
                    alloc_state-fit max_load_of s (s.size * 2),
                    fits,
                  )
                  refl,
              bigger-Grown small,
            )
        | inr over ↦ inr (
          elim (Bool-cases (t.exponent == 63)) [
            | inl last ↦
                let e : s.size ≡ 2 ^ 63 =
                  t.size_eq ∙ ap (λ (k : ℕ). 2 ^ k) ((==_iff t.exponent 63).0 last) in
                let product : leb (s.size * 2) u64_max ≡ false = ground arith in
                rw (mul_size_checked-fit s.size 2, product) refl
            | inr less ↦
                let high = t.high in
                let small : t.exponent < 63 = ground arith in
                let e : s.size * 2 ≡ 2 ^ suc t.exponent =
                  omega (arith, pow-suc 2 t.exponent, t.size_eq) in
                let bound : 2 ^ suc t.exponent ≤ 2 ^ 63 =
                  pow-le-pow_right {n = 2} (omega arith) {i = suc t.exponent} {j = 63}
                    (omega arith) in
                let product : leb (s.size * 2) u64_max ≡ true = ground arith in
                rw
                  (
                    mul_size_checked-fit s.size 2,
                    product,
                    doubled small,
                    alloc_state-fit max_load_of s (s.size * 2),
                    over,
                  )
                  refl
          ],
          ground arith,
        )
      ]
