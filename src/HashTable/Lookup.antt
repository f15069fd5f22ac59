-- ===== src/HashTable/Lookup.antt =====
-- The map that the slots stand for: of a key, the value of the first element whose key equals it. It is
-- read off the sums of weights over the slots, which no order of the slots changes.
use aws_c_common.Prelude.{
  ℕ, zero, suc, ◌+◌, ◌≤◌, ◌<◌, ◌≡◌, refl, sym, ap, ◌∙◌, Bool, true, false, [], ◌∷◌, ◌==◌,
  if◌then◌else◌, Option, none, some, inl, inr, arith, Bool-cases, ==_iff, length,
}
use aws_c_common.Prelude.Weight.{weight}
use aws_c_common.HashTable.{Entry, Slots, slot, is_empty, safe_eq_check, hash_for, entry_matches}
use aws_c_common.HashTable.Keys.{Keys, hash_for_positive, same_hash}
use aws_c_common.HashTable.Placing.{Counts}

module _ (equals_fn : ℕ → ℕ → Bool) where
  -- The element's key equals the one that is asked for.
  abbrev pub holds : (key : ℕ) → Entry → Bool
  holds key e = if is_empty e then false else safe_eq_check equals_fn key e.key

  unfoldable pub lookup : Slots → (key : ℕ) → Option ℕ
  lookup [] key = none
  lookup (e ∷ es) key = if holds key e then some e.value else lookup es key

  -- The weights that count the elements of a key, and that hold their values.
  abbrev pub one_if : (key : ℕ) → Entry → ℕ
  one_if key e = if holds key e then 1 else 0

  abbrev pub value_if : (key : ℕ) → Entry → ℕ
  value_if key e = if holds key e then e.value + 1 else 0

  pub one_if-Counts : (key : ℕ) → Counts (one_if key)
  one_if-Counts key e gone = rw gone refl

  pub value_if-Counts : (key : ℕ) → Counts (value_if key)
  value_if-Counts key e gone = rw gone refl

  pub absent-value :
      (key : ℕ) (slots : Slots) → weight (one_if key) slots ≡ 0 → weight (value_if key) slots ≡ 0
  absent-value key [] e = refl
  absent-value key (x ∷ xs) e = elim (Bool-cases (holds key x)) [
    | inl here ↦ let one : one_if key x ≡ 1 = rw here refl in absurd (omega arith)
    | inr there ↦
        let none_here : value_if key x ≡ 0 = rw there refl in
        omega (arith, absent-value key xs (omega arith))
  ]

-- A weight of a value and one more, read back.
abbrev pub decoded : ℕ → Option ℕ
decoded zero = none
decoded (suc v) = some v

module _ (equals_fn : ℕ → ℕ → Bool) where
  -- Where no key has two elements, the map is read off the sum.
  pub lookup-decoded :
      (key : ℕ) (slots : Slots)
      → weight (one_if equals_fn key) slots ≤ 1
      → lookup equals_fn slots key ≡ decoded (weight (value_if equals_fn key) slots)
  unfolding lookup
  lookup-decoded key [] unique = refl
  lookup-decoded key (x ∷ xs) unique = elim (Bool-cases (holds equals_fn key x)) [
    | inl here ↦
        let one : one_if equals_fn key x ≡ 1 = rw here refl in
        let rest = absent-value equals_fn key xs (omega arith) in
        let sum : suc x.value ≡ x.value + 1 + weight (value_if equals_fn key) xs = omega arith in
        rw here (ap decoded sum)
    | inr there ↦
        let none_here : one_if equals_fn key x ≡ 0 = rw there refl in
        let sum : weight (value_if equals_fn key) xs ≡ 0 + weight (value_if equals_fn key) xs =
          omega arith in
        rw there (lookup-decoded key xs (omega arith) ∙ ap decoded sum)
  ]

-- A weight of 0 in every slot, and the converse.
pub weight_none :
    (f : Entry → ℕ) (slots : Slots)
    → ((i : ℕ) → i < length slots → f (slot slots i) ≡ 0)
    → weight f slots ≡ 0
weight_none f [] all = refl
weight_none f (e ∷ es) all =
    let here : f e ≡ 0 = all zero (omega arith) in
    omega (arith, weight_none f es (λ i low. all (suc i) (omega arith)))

pub weight_all :
    (f : Entry → ℕ) (slots : Slots) (i : ℕ)
    → i < length slots
    → weight f slots ≡ 0
    → f (slot slots i) ≡ 0
weight_all f [] i low e = absurd (omega arith)
weight_all f (x ∷ xs) zero low e = omega arith
weight_all f (x ∷ xs) (suc i) low e = weight_all f xs i (omega arith) (omega arith)

module _ (hash_fn : ℕ → ℕ) (equals_fn : ℕ → ℕ → Bool) (keys : Keys hash_fn equals_fn) where
  -- The weight that counts the elements whose hash code is not that of their key.
  abbrev pub stray : Entry → ℕ
  stray e = if is_empty e then 0 else if e.hash_code == hash_for hash_fn e.key then 0 else 1

  pub stray-Counts : Counts stray
  stray-Counts e gone = rw gone refl

  -- In a table whose hash codes are right, the searches look for exactly the equal keys.
  pub entry_matches-holds :
      (key : ℕ) (e : Entry)
      → stray e ≡ 0
      → entry_matches equals_fn (hash_for hash_fn key) key e ≡ holds equals_fn key e
  unfolding entry_matches
  entry_matches-holds key e right =
      let pos = hash_for_positive hash_fn equals_fn keys key in
      elim (Bool-cases (is_empty e)) [
        | inl gone ↦
            let other : (e.hash_code == hash_for hash_fn key) ≡ false = ground arith in
            rw (other, gone) refl
        | inr full ↦
            let code : e.hash_code ≡ hash_for hash_fn e.key = ground arith in
            elim (Bool-cases (safe_eq_check equals_fn key e.key)) [
              | inl same ↦
                  let hashes = same_hash hash_fn equals_fn keys key e.key same in
                  let equal : (e.hash_code == hash_for hash_fn key) ≡ true =
                    (==_iff e.hash_code (hash_for hash_fn key)).1 (code ∙ sym hashes) in
                  rw (full, equal) refl
              | inr differs ↦
                  rw (full, differs)
                    (elim (Bool-cases (e.hash_code == hash_for hash_fn key)) [
                      | inl t ↦ rw t refl
                      | inr t ↦ rw t refl
                    ])
            ]
      ]
