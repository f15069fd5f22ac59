-- ===== src/HashTable/Adding.antt =====
-- A new element in a table: the end of `aws_hash_table_create` with the write of `aws_hash_table_put`.
use aws_c_common.Prelude.{
  ℕ, ◌+◌, ◌≤◌, ◌<◌, ◌≡◌, refl, sym, ap, ◌∙◌, subst, Bool, true, false, ◌==◌, Option, none, some,
  inl, inr, arith, ==_iff, set,
}
use aws_c_common.Prelude.Weight.{weight}
use aws_c_common.HashTable.{
  Entry, empty_entry, slot, State, is_empty, index_at, hash_for, emplace_item,
}
use aws_c_common.HashTable.Operations.{Created, add_entry}
use aws_c_common.HashTable.Probing.{deep, after}
use aws_c_common.HashTable.Placing.{weight-set_slot}
use aws_c_common.HashTable.Inserting.{insert_one}
use aws_c_common.HashTable.Keys.{Keys, hash_for-word, hash_for_positive}
use aws_c_common.HashTable.Lookup.{holds, one_if, one_if-Counts, value_if-Counts, absent-value}
use aws_c_common.HashTable.Table.{IsTable, absent_swap}
use aws_c_common.HashTable.Finding.{table_Ring}
use aws_c_common.HashTable.Changing.{Mapped, filled, overwrite, changed, safe_eq-reflexive}

module _ (hash_fn : ℕ → ℕ) (equals_fn : ℕ → ℕ → Bool) (keys : Keys hash_fn equals_fn) (s : State)
    (t : IsTable hash_fn equals_fn keys s) (key : ℕ) where
  -- A key that no element has gets one.
  pub added :
      (p value : ℕ)
      → weight (one_if equals_fn key) s.slots ≡ 0
      → s.entry_count + 1 ≤ s.max_load
      → p < s.size
      → ((i : ℕ)
          → i < s.size
          → after s.mask i ≡ index_at s.mask (hash_for hash_fn key) p
          → p ≤ deep s.mask s.slots i)
      → Mapped hash_fn equals_fn keys s
          (filled (add_entry s (hash_for hash_fn key) key p) key value)
          key
          (some value)
  unfolding add_entry
  added p value absent load low left =
      let ring = table_Ring hash_fn equals_fn keys s t in
      let h = hash_for hash_fn key in
      let word = hash_for-word hash_fn equals_fn keys key in
      let pos = hash_for_positive hash_fn equals_fn keys key in
      let bare : Entry = record { key = key; value = 0; hash_code = h } in
      let new : Entry = record bare { value = value } in
      let full : is_empty new ≡ false = ground arith in
      let (ins, (i, first, inside, there)) =
        insert_one s.size s.mask ring s.slots t.chain t.words t.len
          (omega (arith, t.counted, t.load, t.room)) bare p full word low left in
      let r = (emplace_item s.size s.mask s.slots bare p none).0 in
      let bigger : State = record s { entry_count = s.entry_count + 1; slots = r } in
      let held : holds equals_fn key new ≡ true =
        rw (full, safe_eq-reflexive hash_fn equals_fn keys s t key key) refl in
      let same : (h == h) ≡ true = (==_iff h h).1 refl in
      let m =
        changed hash_fn equals_fn keys s t key (set r i new) (s.entry_count + 1) empty_entry new
          (overwrite s.size s.mask ring r i new
            (record { chain = ins.chain; words = ins.words; len = ins.len }) inside
            (sym (ap (λ (e : Entry). e.hash_code) there)))
          (λ f counts.
            let w = weight-set_slot s.size s.mask ring f r i new (omega (arith, ins.len)) in
            omega (arith, ins.weigh f counts, counts empty_entry refl, ap f there))
          (inl refl) (inr held)
          (λ k same_key.
            let none_k = absent_swap hash_fn equals_fn keys k key s.slots same_key absent in
            (
              none_k ∙ sym (one_if-Counts equals_fn k empty_entry refl),
              absent-value equals_fn k s.slots none_k
                  ∙ sym (value_if-Counts equals_fn k empty_entry refl),
            ))
          (rw (full, same) refl) (rw full (omega arith)) load in
      let place : add_entry s h key p ≡ record { table = bigger; index = i; was_created = true } =
        ap
          (λ (o : Option ℕ). record {
            table = bigger;
            index = elim o [ none ↦ 0 | some j ↦ j ];
            was_created = true;
          })
          first in
      let held_there : record (slot r i) { key = key; value = value } ≡ new =
        ap (λ (e : Entry). record e { key = key; value = value }) there in
      subst (λ (c : Created). Mapped hash_fn equals_fn keys s (filled c key value) key (some value))
        (sym place)
        (subst
          (λ (e : Entry).
            Mapped hash_fn equals_fn keys s (record bigger { slots = set r i e }) key (some value))
          (sym held_there) (record { is_table = m.is_table; looked_up = rw full at m.looked_up }))
