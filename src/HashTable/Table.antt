-- ===== src/HashTable/Table.antt =====
-- What holds of a table between the calls, and how one change of its slots shows in the map.
use aws_c_common.Prelude.{
  ℕ, suc, ◌+◌, ◌-◌, ◌^◌, ◌≤◌, ◌<◌, ◌≡◌, refl, sym, ap, ◌∙◌, subst, Bool, true, false, [], ◌∷◌,
  if◌then◌else◌, Option, none, some, ◌⊎◌, inl, inr, arith, Bool-cases, length, set,
}
use aws_c_common.Prelude.Weight.{weight}
use aws_c_common.HashTable.{Entry, empty_entry, Slots, slot, State, is_empty, safe_eq_check}
use aws_c_common.HashTable.Ring.{Ring, power-Ring}
use aws_c_common.HashTable.Probing.{Chain, Words}
use aws_c_common.HashTable.Placing.{Counts, weight-set_slot}
use aws_c_common.HashTable.Inserting.{occupied}
use aws_c_common.HashTable.Keys.{
  Keys, safe_eq_check-symmetric, safe_eq_check-transitive, safe_eq_check_swap,
}
use aws_c_common.HashTable.Lookup.{
  holds, lookup, one_if, value_if, one_if-Counts, value_if-Counts, absent-value, lookup-decoded,
  decoded, stray,
}

-- The sizes are as `hash_table_state_is_valid` has them, the slots are in order with their number counted,
-- and no two elements have equal keys.
pub record IsTable (hash_fn : ℕ → ℕ) (equals_fn : ℕ → ℕ → Bool) (keys : Keys hash_fn equals_fn)
    (s : State) : Type 0 where
  pub exponent : ℕ
  pub low : 1 ≤ exponent
  pub high : exponent ≤ 63
  pub size_eq : s.size ≡ 2 ^ exponent
  pub mask_eq : s.mask ≡ s.size - 1
  pub load : s.entry_count ≤ s.max_load
  pub room : s.max_load < s.size
  pub counted : weight occupied s.slots ≡ s.entry_count
  pub chain : Chain s.size s.mask s.slots
  pub words : Words s.slots
  pub len : length s.slots ≡ s.size
  pub hashed : weight (stray hash_fn equals_fn keys) s.slots ≡ 0
  pub unique : (key : ℕ) → weight (one_if equals_fn key) s.slots ≤ 1

pub sized-Ring :
    (size mask k : ℕ) → 1 ≤ k → k ≤ 63 → size ≡ 2 ^ k → mask ≡ size - 1 → Ring size mask
sized-Ring size mask k low high size_eq mask_eq =
    subst (λ (t : ℕ). Ring size t) (sym mask_eq)
      (subst (λ (t : ℕ). Ring t (t - 1)) (sym size_eq) (power-Ring k low high))

module _ (equals_fn : ℕ → ℕ → Bool) where
  -- What an element that is the only one of its key weighs is what all slots weigh.
  pub alone :
      (size mask : ℕ) (ring : Ring size mask) (slots : Slots) (i key : ℕ)
      → i < length slots
      → weight (one_if equals_fn key) slots ≤ 1
      → holds equals_fn key (slot slots i) ≡ true
      → (weight (one_if equals_fn key) slots ≡ one_if equals_fn key (slot slots i))
        × (weight (value_if equals_fn key) slots ≡ value_if equals_fn key (slot slots i))
  alone size mask ring slots i key inside unique here =
      let rest = set slots i empty_entry in
      let one : one_if equals_fn key (slot slots i) ≡ 1 = rw here refl in
      let none_one = one_if-Counts equals_fn key empty_entry refl in
      let none_value = value_if-Counts equals_fn key empty_entry refl in
      let ones = weight-set_slot size mask ring (one_if equals_fn key) slots i empty_entry inside in
      let values =
        weight-set_slot size mask ring (value_if equals_fn key) slots i empty_entry inside in
      let gone = absent-value equals_fn key rest (omega arith) in (omega arith, omega arith)

weight_same :
    (f g : Entry → ℕ) (slots : Slots) → ((e : Entry) → f e ≡ g e) → weight f slots ≡ weight g slots
weight_same f g [] same = refl
weight_same f g (e ∷ es) same = omega (arith, same e, weight_same f g es same)

-- The value that the entry stands for.
abbrev pub value_in : Entry → Option ℕ
value_in e = if is_empty e then none else some e.value

module _ (hash_fn : ℕ → ℕ) (equals_fn : ℕ → ℕ → Bool) (keys : Keys hash_fn equals_fn) where
  -- Equal keys hold the same elements.
  pub holds_swap :
      (k key : ℕ) (e : Entry)
      → safe_eq_check equals_fn k key ≡ true
      → holds equals_fn k e ≡ holds equals_fn key e
  holds_swap k key e same =
      let sym_eq = safe_eq_check-symmetric hash_fn equals_fn keys in
      let trans_eq = safe_eq_check-transitive hash_fn equals_fn keys in
      elim (Bool-cases (is_empty e)) [
        | inl gone ↦ rw gone refl
        | inr full ↦ rw full (elim (Bool-cases (safe_eq_check equals_fn key e.key)) [
          | inl t ↦ trans_eq k key e.key same t ∙ sym t
          | inr f ↦ elim (Bool-cases (safe_eq_check equals_fn k e.key)) [
            | inr g ↦ g ∙ sym f
            | inl t ↦ let u = trans_eq key k e.key (sym_eq k key same) t in absurd (ground arith)
          ]
        ])
      ]

  pub absent_swap :
      (k key : ℕ) (slots : Slots)
      → safe_eq_check equals_fn k key ≡ true
      → weight (one_if equals_fn key) slots ≡ 0
      → weight (one_if equals_fn k) slots ≡ 0
  absent_swap k key slots same absent =
      weight_same (one_if equals_fn k) (one_if equals_fn key) slots
        (λ e. rw (holds_swap k key e same) refl)
      ∙ absent

  -- The entry is none, or an element of the key.
  abbrev pub Belongs : (key : ℕ) → Entry → Type 0
  Belongs key e = (is_empty e ≡ true) ⊎ (holds equals_fn key e ≡ true)

  not_held :
      (k key : ℕ) (e : Entry)
      → safe_eq_check equals_fn k key ≡ false
      → Belongs key e
      → holds equals_fn k e ≡ false
  not_held k key e differ (inl gone) = rw gone refl
  not_held k key e differ (inr here) = elim (Bool-cases (is_empty e)) [
    | inl gone ↦ rw gone refl
    | inr full ↦
        let mine : safe_eq_check equals_fn key e.key ≡ true = ground arith in
        rw full (sym (safe_eq_check_swap hash_fn equals_fn keys key e.key k mine) ∙ differ)
  ]

  module _ (slots r : Slots) (key : ℕ) (old new : Entry)
      (weigh : (f : Entry → ℕ) → Counts f → weight f r + f old ≡ weight f slots + f new)
      (unique : (k : ℕ) → weight (one_if equals_fn k) slots ≤ 1) (old_is : Belongs key old)
      (new_is : Belongs key new)
      (only : (k : ℕ)
        → safe_eq_check equals_fn k key ≡ true
        → (weight (one_if equals_fn k) slots ≡ one_if equals_fn k old)
          × (weight (value_if equals_fn k) slots ≡ value_if equals_fn k old)) where
    one-le : (k : ℕ) (e : Entry) → one_if equals_fn k e ≤ 1
    one-le k e = elim (Bool-cases (holds equals_fn k e)) [
      | inl t ↦ rw t (omega arith)
      | inr f ↦ rw f (omega arith)
    ]

    pub replaced_unique : (k : ℕ) → weight (one_if equals_fn k) r ≤ 1
    replaced_unique k =
        let w = weigh (one_if equals_fn k) (one_if-Counts equals_fn k) in
        elim (Bool-cases (safe_eq_check equals_fn k key)) [
          | inl same ↦ let (ones, _) = only k same in omega (arith, one-le k new)
          | inr differ ↦
              let a : one_if equals_fn k old ≡ 0 = rw (not_held k key old differ old_is) refl in
              let b : one_if equals_fn k new ≡ 0 = rw (not_held k key new differ new_is) refl in
              omega (arith, unique k)
        ]

    decoded_new :
        (k : ℕ)
        → safe_eq_check equals_fn k key ≡ true
        → decoded (value_if equals_fn k new) ≡ value_in new
    decoded_new k same = elim (Bool-cases (is_empty new)) [
      | inl gone ↦ rw gone refl
      | inr full ↦
          let mine : holds equals_fn key new ≡ true = elim new_is [
            | inl gone ↦ absurd (ground arith)
            | inr here ↦ here
          ] in
          let held = holds_swap k key new same ∙ mine in
          let eq : safe_eq_check equals_fn k new.key ≡ true = ground arith in
          let next : new.value + 1 ≡ suc new.value = omega arith in rw (full, eq) (ap decoded next)
    ]

    -- The map after the change.
    pub replaced_lookup :
        (k : ℕ)
        → lookup equals_fn r k
          ≡ (if safe_eq_check equals_fn k key then value_in new else lookup equals_fn slots k)
    replaced_lookup k =
        let w = weigh (value_if equals_fn k) (value_if-Counts equals_fn k) in
        let after = lookup-decoded equals_fn k r (replaced_unique k) in
        elim (Bool-cases (safe_eq_check equals_fn k key)) [
          | inl same ↦
              let (_, values) = only k same in
              let sum : weight (value_if equals_fn k) r ≡ value_if equals_fn k new = omega arith in
              rw same (after ∙ ap decoded sum ∙ decoded_new k same)
          | inr differ ↦
              let a : value_if equals_fn k old ≡ 0 = rw (not_held k key old differ old_is) refl in
              let b : value_if equals_fn k new ≡ 0 = rw (not_held k key new differ new_is) refl in
              let sum : weight (value_if equals_fn k) r ≡ weight (value_if equals_fn k) slots =
                omega arith in
              rw differ (after ∙ ap decoded sum ∙ sym (lookup-decoded equals_fn k slots (unique k)))
        ]
