-- ===== src/HashTable/Growing.antt =====
-- How a table comes to its size: `s_update_template_size`, `s_alloc_state` and `aws_hash_table_init`.
use native.Mathlib.Nat.{pow-le-pow_right}
use aws_c_common.Prelude.{
  ℕ, zero, suc, ◌+◌, ◌-◌, ◌*◌, ◌^◌, ◌≤◌, ◌<◌, ◌≡◌, refl, sym, ap, ◌∙◌, Bool, false, ◌⊎◌, leb, ltb,
  ◌==◌, ==_iff, if◌then◌else◌, none, inl, inr, arith, Bool-cases, replicate, ok, err, [],
  overflow_detected,
}
use aws_c_common.Prelude.Lists.{length-replicate}
use aws_c_common.Prelude.Weight.{weight-replicate, get_or-replicate}
use aws_c_common.Math.{u64_max}
use aws_c_common.Math.Checked.{fit, mul_size_checked-fit, add_size_checked-fit}
use aws_c_common.Math.PowerOfTwo.{LeastPower, round_up_least, pow-lt-reflect}
use aws_c_common.HashTable.{Entry, empty_entry, slot, State}
use aws_c_common.HashTable.Operations.{required_bytes, alloc_state, update_template_size, init}
use aws_c_common.HashTable.Ring.{Ring}
use aws_c_common.HashTable.Probing.{depth, deep, after, Chain, Words, depth_empty}
use aws_c_common.HashTable.Inserting.{occupied}
use aws_c_common.HashTable.Keys.{Keys}
use aws_c_common.HashTable.Lookup.{lookup, one_if, one_if-Counts, stray}
use aws_c_common.HashTable.Table.{IsTable, sized-Ring}

-- The bytes of a table of `size` slots.
abbrev pub bytes_of : ℕ → ℕ
bytes_of size = size * 24 + 80

required_bytes-fit : (size : ℕ) → required_bytes size ≡ fit u64_max (bytes_of size)
unfolding required_bytes fit
required_bytes-fit size =
    rw (mul_size_checked-fit size 24) (elim (Bool-cases (leb (size * 24) u64_max)) [
      | inl fits ↦
          let small : size * 24 ≤ u64_max = ground arith in
          rw (fits, add_size_checked-fit (size * 24) 80 small (omega arith)) refl
      | inr over ↦
          let too : leb (bytes_of size) u64_max ≡ false = ground arith in rw (over, too) refl
    ])

-- What the caller's `max_load_of` has to do: for a table of 2 slots or more, half of them may be in use.
abbrev pub HalfLoad : (ℕ → ℕ) → Type 0
HalfLoad max_load_of = (size : ℕ) → 2 ≤ size → size ≤ 2 * max_load_of size

-- The least size that a table is given.
abbrev pub at_least_two : ℕ → ℕ
at_least_two n = if ltb n 2 then 2 else n

module _ (max_load_of : ℕ → ℕ) where
  abbrev pub load_limit : ℕ → ℕ
  load_limit size = if leb size (max_load_of size) then size - 1 else max_load_of size

  abbrev pub sized : State → ℕ → State
  sized template size = record template { size = size; max_load = load_limit size; mask = size - 1 }

  pub load_limit-lt : (size : ℕ) → 2 ≤ size → load_limit size < size
  load_limit-lt size two = ground arith

  pub half_load : HalfLoad max_load_of → (size : ℕ) → 2 ≤ size → size ≤ 2 * load_limit size
  half_load half size two = let h = half size two in ground arith

  -- The new size is the least power of two that is at least 2 and what is asked for.
  pub update_template_size-runs :
      (template : State) (n : ℕ)
      → n ≤ 2 ^ 63
      → (size : ℕ) × (update_template_size max_load_of template n ≡ ok (sized template size))
        × LeastPower (at_least_two n) size
  unfolding update_template_size
  update_template_size-runs template n small =
      let (size, e, least) = (round_up_least (at_least_two n)).0 (ground arith) in
      (size, rw e refl, least)

  update_template_size_overflow :
      (template : State) (n : ℕ)
      → 2 ^ 63 < n
      → update_template_size max_load_of template n ≡ err overflow_detected
  unfolding update_template_size
  update_template_size_overflow template n large =
      let e = (round_up_least (at_least_two n)).1 (ground arith) in rw e refl

  -- The exponent of such a size.
  pub exponent_of :
      (n size : ℕ)
      → n ≤ 2 ^ 63
      → LeastPower (at_least_two n) size
      → (k : ℕ) × (1 ≤ k) × (k ≤ 63) × (size ≡ 2 ^ k)
  exponent_of n size small ((k, e), enough, least) =
      let high : size ≤ 2 ^ 63 = least 63 (ground arith) in
      let below : k < 64 = pow-lt-reflect k 64 (omega arith) in
      let pos : 0 < k = elim (Bool-cases (k == 0)) [
        | inl z ↦
            let one : 2 ^ k ≡ 2 ^ 0 = ap (λ (t : ℕ). 2 ^ t) ((==_iff k 0).0 z) in
            let two : 2 ≤ at_least_two n = ground arith in absurd (omega arith)
        | inr more ↦ ground arith
      ] in
      (k, omega arith, omega arith, e)

  abbrev pub fresh : State → ℕ → State
  fresh template size = record (sized template size) { slots = replicate size empty_entry }

  pub alloc_state-fit :
      (template : State) (size : ℕ)
      → alloc_state (sized template size)
        ≡ (if leb (bytes_of size) u64_max then ok (fresh template size) else err overflow_detected)
  unfolding alloc_state fit
  alloc_state-fit template size =
      rw (required_bytes-fit size) (elim (Bool-cases (leb (bytes_of size) u64_max)) [
        | inl fits ↦ rw fits refl
        | inr over ↦ rw over refl
      ])

  module _ (hash_fn : ℕ → ℕ) (equals_fn : ℕ → ℕ → Bool) (keys : Keys hash_fn equals_fn) where
    pub fresh-Chain :
        (size mask : ℕ) → Ring size mask → Chain size mask (replicate size empty_entry)
    fresh-Chain size mask ring i low =
        let e : slot (replicate size empty_entry) (after mask i) ≡ empty_entry =
          get_or-replicate size (after mask i) empty_entry in
        let d : deep mask (replicate size empty_entry) (after mask i) ≡ 0 =
          ap (depth mask (after mask i)) e
          ∙ depth_empty size mask ring (after mask i) empty_entry refl in
        omega arith

    pub fresh-Words : (size : ℕ) → Words (replicate size empty_entry)
    fresh-Words size i =
        let e : slot (replicate size empty_entry) i ≡ empty_entry =
          get_or-replicate size i empty_entry in
        let z : (slot (replicate size empty_entry) i).hash_code ≡ 0 =
          ap (λ (t : Entry). t.hash_code) e in
        omega arith

    -- A new table without elements.
    pub fresh-IsTable :
        (template : State) (size k : ℕ)
        → template.entry_count ≡ 0
        → 1 ≤ k
        → k ≤ 63
        → size ≡ 2 ^ k
        → IsTable hash_fn equals_fn keys (fresh template size)
    fresh-IsTable template size k no_entries low high e =
        let ring = sized-Ring size (size - 1) k low high e refl in
        let below = load_limit-lt size ring.two in
        record {
          exponent = k;
          low = low;
          high = high;
          size_eq = e;
          mask_eq = refl;
          load = omega arith;
          room = below;
          counted = weight-replicate occupied size empty_entry refl ∙ sym no_entries;
          chain = fresh-Chain size (size - 1) ring;
          words = fresh-Words size;
          len = length-replicate size empty_entry;
          hashed = weight-replicate (stray hash_fn equals_fn keys) size empty_entry refl;
          unique = λ key. omega (
            arith,
            weight-replicate (one_if equals_fn key) size empty_entry
                (one_if-Counts equals_fn key empty_entry refl),
          );
        }

    lookup_empty : (size key : ℕ) → lookup equals_fn (replicate size empty_entry) key ≡ none
    unfolding lookup
    lookup_empty zero key = refl
    lookup_empty (suc n) key = lookup_empty n key

    -- For a size that is a 64-bit word, a new table stands for the empty map, and has as size the least power of
    -- two that is at least 2 and what is asked for; it is refused where the bytes of that size do not fit a word.
    -- The most entries that it takes before it grows are fewer than its size, so for a power of two
    -- that is at least 2 fewer than what is asked for.
    pub init_cases :
        (size : ℕ) (destroy_key destroy_value : Bool)
        → size < 2 ^ 64
        → ((s : State) × (init max_load_of size destroy_key destroy_value ≡ ok s)
            × IsTable hash_fn equals_fn keys s
            × LeastPower (at_least_two size) s.size
            × (s.max_load < s.size)
            × ((key : ℕ) → lookup equals_fn s.slots key ≡ none))
          ⊎ ((init max_load_of size destroy_key destroy_value ≡ err overflow_detected)
              × ((n : ℕ) × LeastPower (at_least_two size) n × (u64_max < bytes_of n)))
    unfolding init
    init_cases size destroy_key destroy_value word =
        let template : State = record {
          destroy_key = destroy_key;
          destroy_value = destroy_value;
          size = 0;
          entry_count = 0;
          max_load = 0;
          mask = 0;
          slots = [];
        } in
        elim (Bool-cases (leb size (2 ^ 63))) [
          | inr large ↦
              let runs = update_template_size_overflow template size (ground arith) in
              inr (
                rw runs refl,
                (
                  2 ^ 64,
                  (
                    (64, refl),
                    ground arith,
                    λ j wide.
                        let beyond : 63 < j = pow-lt-reflect 63 j (ground arith) in
                        pow-le-pow_right {n = 2} (omega arith) {i = 64} {j = j} (omega arith),
                  ),
                  omega arith,
                ),
              )
          | inl small ↦
              let (n, runs, least) = update_template_size-runs template size (ground arith) in
              let (k, low, high, e) = exponent_of size n (ground arith) least in
              elim (Bool-cases (leb (bytes_of n) u64_max)) [
                | inl fits ↦ inl (
                  fresh template n,
                  rw (runs, alloc_state-fit template n, fits) refl,
                  fresh-IsTable template n k refl low high e,
                  least,
                  IsTable.room (fresh-IsTable template n k refl low high e),
                  lookup_empty n,
                )
                | inr over ↦
                    inr (rw (runs, alloc_state-fit template n, over) refl, (n, least, ground arith))
              ]
        ]
