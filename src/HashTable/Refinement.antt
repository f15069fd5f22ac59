-- ===== src/HashTable/Refinement.antt =====
-- The table is a map: what `aws_hash_table_put` and `aws_hash_table_remove` do to what the slots stand for.
use aws_c_common.Prelude.{
  ℕ, ◌+◌, ◌*◌, ◌≤◌, ◌<◌, ◌≡◌, refl, sym, ap, ◌∙◌, Bool, true, false, not, ◌&&◌, ◌⊎◌, leb, ltb, ◌==◌,
  if◌then◌else◌, Option, none, some, inl, inr, arith, Bool-cases, ok, err, List, [], ◌∷◌, ◌++◌,
  overflow_detected,
}
use aws_c_common.Prelude.Weight.{weight}
use aws_c_common.Math.{u64_max}
use aws_c_common.Math.Checked.{fit, add_size_checked-fit}
use aws_c_common.HashTable.{slot, State, Found, hash_for, safe_eq_check, find_entry}
use aws_c_common.HashTable.Operations.{
  Created, Destroyed, key_destroyed, value_destroyed, add_entry, create, put, remove,
}
use aws_c_common.HashTable.Keys.{Keys}
use aws_c_common.HashTable.Lookup.{
  lookup, one_if, value_if, one_if-Counts, value_if-Counts, lookup-decoded, decoded,
}
use aws_c_common.HashTable.Table.{IsTable, absent_swap}
use aws_c_common.HashTable.Finding.{
  table_Ring, find_entry-decides, lookup-Present, lookup_absent, value_of,
}
use aws_c_common.HashTable.Changing.{Mapped, filled, overwritten, removed}
use aws_c_common.HashTable.Adding.{added}
use aws_c_common.HashTable.Growing.{bytes_of, HalfLoad}
use aws_c_common.HashTable.Expanding.{Grown, bigger, expand_table-cases}

abbrev pub is_none : Option ℕ → Bool
is_none none = true
is_none (some v) = false

-- What a put destroys of the element that it found.
abbrev pub discarded : Created → (key : ℕ) → List Destroyed
discarded c key =
    let old = slot c.table.slots c.index in
    if c.was_created
    then []
    else (if not (old.key == key) && c.table.destroy_key then key_destroyed old.key ∷ [] else [])
      ++ (if c.table.destroy_value then value_destroyed old.value ∷ [] else [])

made : (s : State) (h key p : ℕ) → (add_entry s h key p).was_created ≡ true
unfolding add_entry
made s h key p = refl

module _ (max_load_of : ℕ → ℕ) (hash_fn : ℕ → ℕ) (equals_fn : ℕ → ℕ → Bool)
    (keys : Keys hash_fn equals_fn) (s : State) (t : IsTable hash_fn equals_fn keys s)
    (key : ℕ) where
  abbrev searched : Found
  searched = find_entry equals_fn s (hash_for hash_fn key) key

  -- The outcome of `aws_hash_table_put`, once the element is there.
  put-create :
      (value : ℕ) (c : Created)
      → create max_load_of hash_fn equals_fn s key ≡ ok c
      → put max_load_of hash_fn equals_fn s key value
        ≡ ok (filled c key value, c.was_created, discarded c key)
  unfolding put
  put-create value c e = rw e refl

  create-present :
      searched.present ≡ true
      → create max_load_of hash_fn equals_fn s key
        ≡ ok (record { table = s; index = searched.index; was_created = false })
  unfolding create
  create-present p = rw p refl

  put_error :
      (value : ℕ)
      → create max_load_of hash_fn equals_fn s key ≡ err overflow_detected
      → put max_load_of hash_fn equals_fn s key value ≡ err overflow_detected
  unfolding put
  put_error value e = rw e refl

  Grown-lookup :
      (b : State)
      → Grown max_load_of hash_fn equals_fn keys s b
      → (k : ℕ) → lookup equals_fn b.slots k ≡ lookup equals_fn s.slots k
  Grown-lookup b g k =
      let table = g.is_table in
      lookup-decoded equals_fn k b.slots (table.unique k)
      ∙ ap decoded (g.weigh (value_if equals_fn k) (value_if-Counts equals_fn k))
      ∙ sym (lookup-decoded equals_fn k s.slots (t.unique k))

  -- A new element in the table as it is, or in one that has grown first.
  create-cases :
      HalfLoad max_load_of
      → searched.present ≡ false
      → (value : ℕ) → (weight (one_if equals_fn key) s.slots ≡ 0)
      → ((s.entry_count + 1 ≤ s.max_load)
          → Mapped hash_fn equals_fn keys s
              (filled (add_entry s (hash_for hash_fn key) key searched.probe_idx) key value)
              key
              (some value))
      → ((c : Created) × (create max_load_of hash_fn equals_fn s key ≡ ok c)
          × (c.was_created ≡ true)
          × Mapped hash_fn equals_fn keys s (filled c key value) key (some value))
        ⊎ ((create max_load_of hash_fn equals_fn s key ≡ err overflow_detected)
            × (s.max_load < s.entry_count + 1)
            × (u64_max < bytes_of (s.size * 2)))
  unfolding create fit
  create-cases half absent value count place =
      let ring = table_Ring hash_fn equals_fn keys s t in
      let word = ring.word in
      let load = t.load in
      let room = t.room in
      let sum = add_size_checked-fit s.entry_count 1 (omega arith) (omega arith) in
      let fits : leb (s.entry_count + 1) u64_max ≡ true = ground arith in
      elim (Bool-cases (ltb s.max_load (s.entry_count + 1))) [
        | inr spare ↦ inl (
          add_entry s (hash_for hash_fn key) key searched.probe_idx,
          rw (absent, sum, fits, spare) refl,
          made s (hash_for hash_fn key) key searched.probe_idx,
          place (ground arith),
        )
        | inl full ↦ elim (expand_table-cases max_load_of hash_fn equals_fn keys half s t) [
          | inl (e, g) ↦
              let b = bigger max_load_of hash_fn equals_fn keys s in
              let wide = table_Ring hash_fn equals_fn keys b g.is_table in
              let two = wide.two in
              let m =
                added hash_fn equals_fn keys b g.is_table key 0 value
                  (g.weigh (one_if equals_fn key) (one_if-Counts equals_fn key) ∙ count) g.spare
                  (omega arith) (λ i low same. omega arith) in
              inl (
                add_entry b (hash_for hash_fn key) key 0,
                rw (absent, sum, fits, full, e) refl,
                made b (hash_for hash_fn key) key 0,
                record {
                  is_table = m.is_table;
                  looked_up = λ k.
                      let old = Grown-lookup b g k in
                      m.looked_up k
                      ∙ ap
                          (λ (o : Option ℕ).
                            if safe_eq_check equals_fn k key then some value else o)
                          old;
                },
              )
          | inr (e, large) ↦ inr (rw (absent, sum, fits, full, e) refl, ground arith, large)
        ]
      ]

  -- Let `Keys` hold of the caller's functions and `HalfLoad` of the maximal load. Putting a value into a
  -- table leaves a table, in which the keys that equal the new one have that value and all others what they
  -- had, and tells whether the key was new. It is refused only for a new key, in a table that is full
  -- and whose double does not fit a word in bytes.
  pub put-lookup :
      HalfLoad max_load_of
      → (value : ℕ)
      → ((r : State) × (gone : List Destroyed) × (put max_load_of hash_fn equals_fn s key value
            ≡ ok (r, is_none (lookup equals_fn s.slots key), gone))
          × Mapped hash_fn equals_fn keys s r key (some value))
        ⊎ ((put max_load_of hash_fn equals_fn s key value ≡ err overflow_detected)
            × (lookup equals_fn s.slots key ≡ none)
            × (s.max_load < s.entry_count + 1)
            × (u64_max < bytes_of (s.size * 2)))
  put-lookup half value = elim (find_entry-decides hash_fn equals_fn keys s t key) [
    | inl p ↦
        let c : Created = record { table = s; index = searched.index; was_created = false } in
        let e = put-create value c (create-present p.present) in
        let old : is_none (lookup equals_fn s.slots key) ≡ false =
          ap is_none (lookup-Present hash_fn equals_fn keys s t key p) in
        inl (
          filled c key value,
          discarded c key,
          rw old e,
          overwritten hash_fn equals_fn keys s t key searched.index value p.inside p.here,
        )
    | inr a ↦
        let nothing = lookup_absent hash_fn equals_fn keys s t key a.count in
        elim (create-cases half a.absent value a.count (λ spare.
          added hash_fn equals_fn keys s t key searched.probe_idx value a.count spare a.low
            a.left)) [
              | inl (c, e, new, m) ↦
                  let f = put-create value c e in
                  let old : is_none (lookup equals_fn s.slots key) ≡ c.was_created =
                    ap is_none nothing ∙ sym new in
                  inl (filled c key value, discarded c key, rw old f, m)
              | inr (e, full, large) ↦ inr (put_error value e, nothing, full, large)
            ]
  ]

module _ (hash_fn : ℕ → ℕ) (equals_fn : ℕ → ℕ → Bool) (keys : Keys hash_fn equals_fn) (s : State)
    (t : IsTable hash_fn equals_fn keys s) (key : ℕ) where
  untouched :
      weight (one_if equals_fn key) s.slots ≡ 0
      → (k : ℕ)
      → lookup equals_fn s.slots k
        ≡ (if safe_eq_check equals_fn k key then none else lookup equals_fn s.slots k)
  untouched absent k = elim (Bool-cases (safe_eq_check equals_fn k key)) [
    | inl same ↦ rw same (
        lookup_absent hash_fn equals_fn keys s t k
          (absent_swap hash_fn equals_fn keys k key s.slots same absent))
    | inr differ ↦ rw differ refl
  ]

  -- Let `Keys` hold of the caller's functions. Removing a key from a table returns the value that the map has
  -- for it, and leaves a table in which the keys that equal it have none and all others what they had.
  pub remove-lookup :
      (wanted : Bool)
      → let (r, taken, gone) = remove hash_fn equals_fn s key wanted in
        (value_of taken ≡ lookup equals_fn s.slots key) × Mapped hash_fn equals_fn keys s r key none
  unfolding remove
  remove-lookup wanted = elim (find_entry-decides hash_fn equals_fn keys s t key) [
    | inl p ↦
        let i = (find_entry equals_fn s (hash_for hash_fn key) key).index in
        rw p.present (
          sym (lookup-Present hash_fn equals_fn keys s t key p),
          removed hash_fn equals_fn keys s t key i p.inside p.here,
        )
    | inr a ↦
        let nothing = lookup_absent hash_fn equals_fn keys s t key a.count in
        rw a.absent (sym nothing, record { is_table = t; looked_up = untouched a.count })
  ]
