-- ===== src/HashTable/Changing.antt =====
-- One element of a table is overwritten, added or removed, and what is left is a table again.
use aws_c_common.Prelude.{
  ℕ, ◌+◌, ◌-◌, ◌≤◌, ◌<◌, ◌≡◌, refl, sym, ap, ◌∙◌, subst, Bool, true, false, ◌==◌, if◌then◌else◌,
  Option, none, some, inl, inr, arith, Bool-cases, ==_iff, length, set,
}
use aws_c_common.Prelude.Lists.{length-set}
use aws_c_common.Prelude.Weight.{weight}
use aws_c_common.HashTable.{
  Entry, empty_entry, Slots, slot, State, is_empty, index_at, safe_eq_check, hash_for, shift_back,
  remove_entry, probe_of,
}
use aws_c_common.HashTable.Operations.{Created}
use aws_c_common.HashTable.Ring.{Ring}
use aws_c_common.HashTable.Probing.{depth, deep, Chain, Words}
use aws_c_common.HashTable.Placing.{Counts, set-Chain, set-Words, weight-set_slot}
use aws_c_common.HashTable.Inserting.{occupied, gap_in}
use aws_c_common.HashTable.Shifting.{shift_back-Shifted}
use aws_c_common.HashTable.Keys.{Keys, same_hash}
use aws_c_common.HashTable.Lookup.{holds, lookup, one_if, value_if, stray, stray-Counts, weight_all}
use aws_c_common.HashTable.Table.{
  IsTable, alone, value_in, Belongs, holds_swap, replaced_unique, replaced_lookup,
}
use aws_c_common.HashTable.Finding.{table_Ring}

-- Slots that are in order.
pub record Ordered (size mask : ℕ) (r : Slots) : Type 0 where
  pub chain : Chain size mask r
  pub words : Words r
  pub len : length r ≡ size

-- The end of `aws_hash_table_put`: the element gets the key and the value.
abbrev pub filled : Created → (key value : ℕ) → State
filled c key value = record c.table {
  slots =
      set c.table.slots c.index (record (slot c.table.slots c.index) { key = key; value = value });
}

depth_same :
    (mask i : ℕ) (e d : Entry) → e.hash_code ≡ d.hash_code → depth mask i e ≡ depth mask i d
unfolding depth
depth_same mask i e d same = rw same refl

-- An entry is overwritten by one that has its hash code.
pub overwrite :
    (size mask : ℕ) (ring : Ring size mask) (slots : Slots) (i : ℕ) (e : Entry)
    → Ordered size mask slots
    → i < size
    → e.hash_code ≡ (slot slots i).hash_code
    → Ordered size mask (set slots i e)
overwrite size mask ring slots i e o inside same =
    let d = depth_same mask i e (slot slots i) same in
    let low : i < length slots = omega (arith, o.len) in
    record {
      chain =
          set-Chain size mask ring slots i e o.len inside o.chain
            (λ j j_low next.
              let step : deep mask slots i ≤ deep mask slots j + 1 =
                subst (λ (u : ℕ). deep mask slots u ≤ deep mask slots j + 1) next
                  (o.chain j j_low) in
              omega arith)
            (omega (arith, o.chain i inside));
      words = set-Words size mask ring slots i e low o.words (omega (arith, o.words i));
      len = length-set slots i e ∙ o.len;
    }

module _ (hash_fn : ℕ → ℕ) (equals_fn : ℕ → ℕ → Bool) (keys : Keys hash_fn equals_fn) where
  -- The table after the change: again one, and a map that differs at the key only.
  pub record Mapped (s r : State) (key : ℕ) (value : Option ℕ) : Type 0 where
    pub is_table : IsTable hash_fn equals_fn keys r
    pub looked_up :
        (k : ℕ)
        → lookup equals_fn r.slots k
          ≡ (if safe_eq_check equals_fn k key then value else lookup equals_fn s.slots k)

  module _ (s : State) (t : IsTable hash_fn equals_fn keys s) (key : ℕ) where
    pub changed :
        (r : Slots) (n : ℕ) (old new : Entry)
        → Ordered s.size s.mask r
        → ((f : Entry → ℕ) → Counts f → weight f r + f old ≡ weight f s.slots + f new)
        → Belongs hash_fn equals_fn keys key old
        → Belongs hash_fn equals_fn keys key new
        → ((k : ℕ)
            → safe_eq_check equals_fn k key ≡ true
            → (weight (one_if equals_fn k) s.slots ≡ one_if equals_fn k old)
              × (weight (value_if equals_fn k) s.slots ≡ value_if equals_fn k old))
        → stray hash_fn equals_fn keys new ≡ 0
        → n + occupied old ≡ s.entry_count + occupied new
        → n ≤ s.max_load
        → Mapped s (record s { slots = r; entry_count = n }) key (value_in new)
    changed r n old new o weigh old_is new_is only right count load = record {
      is_table = record {
        exponent = t.exponent;
        low = t.low;
        high = t.high;
        size_eq = t.size_eq;
        mask_eq = t.mask_eq;
        load = load;
        room = t.room;
        counted = let w = weigh occupied (λ e gone. rw gone refl) in omega (arith, t.counted);
        chain = o.chain;
        words = o.words;
        len = o.len;
        hashed =
            let w = weigh (stray hash_fn equals_fn keys) (stray-Counts hash_fn equals_fn keys) in
            omega (arith, t.hashed);
        unique =
            replaced_unique hash_fn equals_fn keys s.slots r key old new weigh t.unique old_is
              new_is only;
      };
      looked_up =
          replaced_lookup hash_fn equals_fn keys s.slots r key old new weigh t.unique old_is new_is
            only;
    }

    full_of : (e : Entry) → holds equals_fn key e ≡ true → is_empty e ≡ false
    full_of e here = ground arith

    only_at :
        (i : ℕ)
        → i < s.size
        → holds equals_fn key (slot s.slots i) ≡ true
        → (k : ℕ) → safe_eq_check equals_fn k key ≡ true
        → (weight (one_if equals_fn k) s.slots ≡ one_if equals_fn k (slot s.slots i))
          × (weight (value_if equals_fn k) s.slots ≡ value_if equals_fn k (slot s.slots i))
    only_at i inside here k same =
        alone equals_fn s.size s.mask (table_Ring hash_fn equals_fn keys s t) s.slots i k
          (omega (arith, t.len)) (t.unique k)
          (holds_swap hash_fn equals_fn keys k key (slot s.slots i) same ∙ here)

    ordered : Ordered s.size s.mask s.slots
    ordered = record { chain = t.chain; words = t.words; len = t.len }

    pub safe_eq-reflexive : (k : ℕ) → safe_eq_check equals_fn k k ≡ true
    unfolding safe_eq_check
    safe_eq-reflexive k = let e : (k == k) ≡ true = (==_iff k k).1 refl in rw e refl

    -- The element of the key gets a value, and the key itself.
    pub overwritten :
        (i value : ℕ)
        → i < s.size
        → holds equals_fn key (slot s.slots i) ≡ true
        → Mapped s
            (record s {
              slots = set s.slots i (record (slot s.slots i) { key = key; value = value });
            })
            key
            (some value)
    overwritten i value inside here =
        let ring = table_Ring hash_fn equals_fn keys s t in
        let old = slot s.slots i in
        let new : Entry = record old { key = key; value = value } in
        let full = full_of old here in
        let right =
          weight_all (stray hash_fn equals_fn keys) s.slots i (omega (arith, t.len)) t.hashed in
        let hashes : hash_for hash_fn key ≡ hash_for hash_fn old.key =
          same_hash hash_fn equals_fn keys key old.key (ground arith) in
        let code : old.hash_code ≡ hash_for hash_fn old.key = ground arith in
        let kept_code : (old.hash_code == hash_for hash_fn key) ≡ true =
          (==_iff old.hash_code (hash_for hash_fn key)).1 (code ∙ sym hashes) in
        let right_new : stray hash_fn equals_fn keys new ≡ 0 = rw (full, kept_code) refl in
        let held : holds equals_fn key new ≡ true = rw (full, safe_eq-reflexive key) refl in
        let m =
          changed (set s.slots i new) s.entry_count old new
            (overwrite s.size s.mask ring s.slots i new ordered inside refl)
            (λ f counts. weight-set_slot s.size s.mask ring f s.slots i new (omega (arith, t.len)))
            (inr here) (inr held) (only_at i inside here) right_new (rw full refl) t.load in
        record { is_table = m.is_table; looked_up = rw full at m.looked_up }

    -- The element of the key is taken out.
    pub removed :
        (i : ℕ)
        → i < s.size
        → holds equals_fn key (slot s.slots i) ≡ true
        → Mapped s (remove_entry s i).0 key none
    unfolding remove_entry
    removed i inside here =
        let ring = table_Ring hash_fn equals_fn keys s t in
        let old = slot s.slots i in
        let full = full_of old here in
        let word = ring.word in
        let (j, j_low, gap) = gap_in s.slots (omega (arith, t.counted, t.load, t.room, t.len)) in
        let m = probe_of s.mask j i in
        let at = ring.index-probe j i (omega arith) (omega (arith, t.len)) in
        let gap_at : is_empty (slot s.slots (index_at s.mask i m)) ≡ true =
          subst (λ (u : ℕ). is_empty (slot s.slots u) ≡ true) (sym at) gap in
        let pos : 0 < m = elim (Bool-cases (m == 0)) [
          | inl z ↦
              let e : i ≡ j =
                sym (ring.index-zero i inside)
                ∙ ap (index_at s.mask i) (sym ((==_iff m 0).0 z))
                ∙ at in
              let same : is_empty old ≡ true =
                subst (λ (u : ℕ). is_empty (slot s.slots u) ≡ true) (sym e) gap in
              absurd (ground arith)
          | inr more ↦ ground arith
        ] in
        let m_low = ring.probe-lt j i in
        let done =
          shift_back-Shifted s.size s.mask ring s.size s.slots i m
            (record {
              chain = t.chain;
              words = t.words;
              len = t.len;
              inside = inside;
              gap = gap_at;
              pos = pos;
              m_low = m_low;
            })
            m_low in
        let one : occupied old ≡ 1 = rw full refl in
        let taken = done.weigh occupied (λ e gone. rw gone refl) in
        changed (shift_back s.size s.mask s.slots i).0 (s.entry_count - 1) old empty_entry
          (record { chain = done.chain; words = done.words; len = done.len })
          (λ f counts. omega (arith, done.weigh f counts, counts empty_entry refl)) (inr here)
          (inl refl) (only_at i inside here) refl (omega (arith, t.counted)) (omega (arith, t.load))
