-- ===== src/HashTable/Finding.antt =====
-- What `s_find_entry` tells of a table, and `aws_hash_table_find` with it.
use aws_c_common.Prelude.{
  ℕ, suc, ◌+◌, ◌-◌, ◌≤◌, ◌<◌, ◌≡◌, refl, sym, ap, ◌∙◌, subst, Bool, true, false, ◌==◌, Option, none,
  some, ◌⊎◌, inl, inr, arith, Bool-cases,
}
use aws_c_common.Prelude.Weight.{weight}
use aws_c_common.HashTable.{
  Entry, slot, State, Found, index_at, hash_for, find_entry, entry_matches,
}
use aws_c_common.HashTable.Operations.{find}
use aws_c_common.HashTable.Ring.{Ring}
use aws_c_common.HashTable.Probing.{Miss, deep, after, find_entry-cases, stopped, deep-lt-size}
use aws_c_common.HashTable.Placing.{after_injective}
use aws_c_common.HashTable.Inserting.{gap_in}
use aws_c_common.HashTable.Keys.{Keys, hash_for-word, hash_for_positive}
use aws_c_common.HashTable.Lookup.{
  holds, lookup, one_if, value_if, absent-value, lookup-decoded, decoded, stray, weight_none,
  weight_all, entry_matches-holds,
}
use aws_c_common.HashTable.Table.{IsTable, sized-Ring, alone}

-- The value of what a search returned.
abbrev pub value_of : Option Entry → Option ℕ
value_of none = none
value_of (some e) = some e.value

module _ (hash_fn : ℕ → ℕ) (equals_fn : ℕ → ℕ → Bool) (keys : Keys hash_fn equals_fn) (s : State)
    (t : IsTable hash_fn equals_fn keys s) where
  pub table_Ring : Ring s.size s.mask
  table_Ring = sized-Ring s.size s.mask t.exponent t.low t.high t.size_eq t.mask_eq

  -- The search found the one element of the key.
  pub record Present (key : ℕ) (f : Found) : Type 0 where
    pub present : f.present ≡ true
    pub inside : f.index < s.size
    pub here : holds equals_fn key (slot s.slots f.index) ≡ true

  -- There is none, and the search tells where the insertion may begin.
  pub record Absent (key : ℕ) (f : Found) : Type 0 where
    pub absent : f.present ≡ false
    pub count : weight (one_if equals_fn key) s.slots ≡ 0
    pub low : f.probe_idx < s.size
    pub left :
        (i : ℕ)
        → i < s.size
        → after s.mask i ≡ index_at s.mask (hash_for hash_fn key) f.probe_idx
        → f.probe_idx ≤ deep s.mask s.slots i

  abbrev searched : ℕ → Found
  searched key = find_entry equals_fn s (hash_for hash_fn key) key

  right :
      (key i : ℕ)
      → i < s.size
      → entry_matches equals_fn (hash_for hash_fn key) key (slot s.slots i)
        ≡ holds equals_fn key (slot s.slots i)
  right key i inside =
      entry_matches-holds hash_fn equals_fn keys key (slot s.slots i)
        (weight_all (stray hash_fn equals_fn keys) s.slots i (omega (arith, t.len)) t.hashed)

  absent_lem :
      (key : ℕ)
      → Miss s.size s.mask table_Ring equals_fn s.slots
          (hash_for hash_fn key)
          key
          (hash_for-word hash_fn equals_fn keys key)
          (searched key)
      → Absent key (searched key)
  absent_lem key (absent, at, before, shallow) =
      let ring = table_Ring in
      let h = hash_for hash_fn key in
      let word = hash_for-word hash_fn equals_fn keys key in
      let pos = hash_for_positive hash_fn equals_fn keys key in
      let P = (searched key).probe_idx in
      let none_matches =
        stopped s.size s.mask ring equals_fn s.slots h key word t.chain (λ z. omega arith) P before
          (subst (λ (i : ℕ). deep s.mask s.slots i ≤ P) at shallow) in
      let (j, j_low, gap) = gap_in s.slots (omega (arith, t.counted, t.load, t.room, t.len)) in
      let last : (P ≡ 0) ⊎ ((0 < P) × (P ≤ deep s.mask s.slots (index_at s.mask h (P - 1)))) =
        elim (Bool-cases (P == 0)) [
          | inl z ↦ inl (ground arith)
          | inr more ↦
              let one : P - 1 + 1 ≡ P = ground arith in
              let (_, d) = before (P - 1) (omega arith) in inr (omega arith, omega arith)
        ] in
      record {
        absent = absent;
        count = weight_none (one_if equals_fn key) s.slots (λ i low.
            let out : holds equals_fn key (slot s.slots i) ≡ false =
              sym (right key i (omega (arith, t.len))) ∙ none_matches i (omega (arith, t.len)) in
            rw out refl);
        low = elim last [
          | inl z ↦ let two = ring.two in omega arith
          | inr (_, d) ↦
              let short =
                deep-lt-size s.size s.mask ring s.slots j t.chain t.words (omega (arith, t.len)) gap
                  (index_at s.mask h (P - 1)) (ring.index-lt h (P - 1)) in
              omega arith
        ];
        left = λ i low same. elim last [
          | inl z ↦ omega arith
          | inr (p, d) ↦
              let one : P - 1 + 1 ≡ P = omega arith in
              let behind : after s.mask (index_at s.mask h (P - 1)) ≡ index_at s.mask h P =
                ring.index_add h (P - 1) 1 ∙ ap (index_at s.mask h) one in
              let ie : i ≡ index_at s.mask h (P - 1) =
                after_injective s.size s.mask ring i (index_at s.mask h (P - 1)) low
                  (ring.index-lt h (P - 1)) (same ∙ sym behind) in
              subst (λ (u : ℕ). P ≤ deep s.mask s.slots u) (sym ie) d
        ];
      }

  pub find_entry-decides : (key : ℕ) → Present key (searched key) ⊎ Absent key (searched key)
  find_entry-decides key =
      let word = hash_for-word hash_fn equals_fn keys key in
      elim (find_entry-cases s.size s.mask table_Ring equals_fn s.slots (hash_for hash_fn key) key
        word s refl refl refl) [
          | inl (present, inside, found) ↦ inl (record {
            present = present;
            inside = inside;
            here = sym (right key (searched key).index inside) ∙ found;
          })
          | inr miss ↦ inr (absent_lem key miss)
        ]

  pub lookup-Present :
      (key : ℕ)
      → Present key (searched key)
      → lookup equals_fn s.slots key ≡ some (slot s.slots (searched key).index).value
  lookup-Present key p =
      let (_, values) =
        alone equals_fn s.size s.mask table_Ring s.slots (searched key).index key
          (omega (arith, t.len, p.inside)) (t.unique key) p.here in
      let mine : value_if equals_fn key (slot s.slots (searched key).index)
          ≡ (slot s.slots (searched key).index).value + 1 =
        rw p.here refl in
      let sum : weight (value_if equals_fn key) s.slots
          ≡ suc (slot s.slots (searched key).index).value =
        omega arith in
      lookup-decoded equals_fn key s.slots (t.unique key) ∙ ap decoded sum

  pub lookup_absent :
      (key : ℕ) → weight (one_if equals_fn key) s.slots ≡ 0 → lookup equals_fn s.slots key ≡ none
  lookup_absent key count =
      lookup-decoded equals_fn key s.slots (t.unique key)
      ∙ ap decoded (absent-value equals_fn key s.slots count)

  -- Let `Keys` hold of the caller's functions. In a table the search of a key returns the value that the
  -- slots, read one after the other, have for it, and nothing where they have none.
  pub find-lookup :
      (key : ℕ) → value_of (find hash_fn equals_fn s key) ≡ lookup equals_fn s.slots key
  unfolding find
  find-lookup key = elim (find_entry-decides key) [
    | inl p ↦ rw p.present (sym (lookup-Present key p))
    | inr a ↦ rw a.absent (sym (lookup_absent key a.count))
  ]
