-- ===== src/HashTable/Tests.antt =====
-- The hash table on small inputs: a table of four slots, with two keys of one home.
use aws_c_common.Prelude.{
  ℕ, ◌+◌, ◌*◌, ◌/◌, ◌%◌, ◌^◌, ◌<◌, ◌≡◌, refl, ap, Bool, true, false, ◌==◌, none, some, arith,
  ==_iff, ok, err, overflow_detected, ◌⊎◌, List, [],
}
use aws_c_common.Math.{u64_max}
use aws_c_common.Math.PowerOfTwo.{LeastPower}
use aws_c_common.HashTable.{
  State, hash_for, safe_eq_check, find_entry, find_entry1, first_place, remove_entry, index_at,
  probe_of, emplace_item, shift_back, entry_matches,
}
use aws_c_common.HashTable.Operations.{Destroyed, init, put, find, remove, add_entry}
use aws_c_common.HashTable.Keys.{Keys}
use aws_c_common.HashTable.Lookup.{lookup}
use aws_c_common.HashTable.Table.{IsTable}
use aws_c_common.HashTable.Finding.{value_of, find-lookup}
use aws_c_common.HashTable.Changing.{Mapped, filled}
use aws_c_common.HashTable.Adding.{added}
use aws_c_common.HashTable.Growing.{
  bytes_of, HalfLoad, fresh, fresh-IsTable, at_least_two, init_cases,
}
use aws_c_common.HashTable.Refinement.{is_none, put-lookup, remove-lookup}

abbrev max_load_95 : ℕ → ℕ
max_load_95 size = size * 95 / 100

abbrev hash_13 : ℕ → ℕ
hash_13 key = key * 13 % 2 ^ 64

abbrev equals_exactly : ℕ → ℕ → Bool
equals_exactly a b = a == b

keys_13 : Keys hash_13 equals_exactly
keys_13 = record {
  word = λ k. omega arith;
  symmetric = λ a b pa pb e. ground arith;
  transitive = λ a b c pa pb pc e f. ground arith;
  consistent = λ a b pa pb e. ap hash_13 ((==_iff a b).0 e);
}

max_load_95-HalfLoad : HalfLoad max_load_95
max_load_95-HalfLoad size two = omega arith

abbrev blank : State
blank = record {
  destroy_key = false;
  destroy_value = true;
  size = 4;
  entry_count = 0;
  max_load = 3;
  mask = 3;
  slots = [];
}

abbrev no_items : State
no_items = fresh max_load_95 blank 4

no_items-IsTable : IsTable hash_13 equals_exactly keys_13 no_items
no_items-IsTable =
    fresh-IsTable max_load_95 hash_13 equals_exactly keys_13 blank 4 2 refl (omega arith)
      (omega arith) refl

abbrev one_item : State
one_item = filled (add_entry no_items (hash_for hash_13 5) 5 0) 5 50

one_item-IsTable : IsTable hash_13 equals_exactly keys_13 one_item
one_item-IsTable =
    (added hash_13 equals_exactly keys_13 no_items no_items-IsTable 5 0 50 refl (omega arith)
      (omega arith) (λ i low e. omega arith)).is_table

-- 5 and 9 have the same home.
abbrev two_items : State
two_items = filled (add_entry one_item (hash_for hash_13 9) 9 0) 9 90

two_items-IsTable : IsTable hash_13 equals_exactly keys_13 two_items
unfolding add_entry emplace_item hash_for index_at first_place safe_eq_check
two_items-IsTable =
    (added hash_13 equals_exactly keys_13 one_item one_item-IsTable 9 0 90 refl (omega arith)
      (omega arith) (λ i low e. omega arith)).is_table

-- A walk through the calls: a key is found, replaced, removed, and then gone.
find_present : value_of (find hash_13 equals_exactly two_items 9) ≡ some 90
unfolding find find_entry find_entry1 add_entry emplace_item hash_for index_at probe_of
    entry_matches safe_eq_check first_place
find_present = refl

find_removed :
    value_of (find hash_13 equals_exactly (remove hash_13 equals_exactly two_items 5 false).0 5)
    ≡ none
unfolding find remove remove_entry shift_back find_entry find_entry1 add_entry emplace_item hash_for
    index_at probe_of entry_matches safe_eq_check first_place
find_removed = refl

find_shifted :
    value_of (find hash_13 equals_exactly (remove hash_13 equals_exactly two_items 5 false).0 9)
    ≡ some 90
unfolding find remove remove_entry shift_back find_entry find_entry1 add_entry emplace_item hash_for
    index_at probe_of entry_matches safe_eq_check first_place
find_shifted = refl

find-lookup_example :
    value_of (find hash_13 equals_exactly two_items 9) ≡ lookup equals_exactly two_items.slots 9
find-lookup_example = find-lookup hash_13 equals_exactly keys_13 two_items two_items-IsTable 9

put-lookup_example :
    ((r : State) × (gone : List Destroyed) × (put max_load_95 hash_13 equals_exactly two_items 13 7
        ≡ ok (r, is_none (lookup equals_exactly two_items.slots 13), gone))
      × Mapped hash_13 equals_exactly keys_13 two_items r 13 (some 7))
    ⊎ ((put max_load_95 hash_13 equals_exactly two_items 13 7 ≡ err overflow_detected)
        × (lookup equals_exactly two_items.slots 13 ≡ none)
        × (two_items.max_load < two_items.entry_count + 1)
        × (u64_max < bytes_of (two_items.size * 2)))
put-lookup_example =
    put-lookup max_load_95 hash_13 equals_exactly keys_13 two_items two_items-IsTable 13
      max_load_95-HalfLoad 7

remove-lookup_example :
    (value_of (remove hash_13 equals_exactly two_items 5 false).1
      ≡ lookup equals_exactly two_items.slots 5)
    × Mapped hash_13 equals_exactly keys_13 two_items
        (remove hash_13 equals_exactly two_items 5 false).0
        5
        none
remove-lookup_example =
    remove-lookup hash_13 equals_exactly keys_13 two_items two_items-IsTable 5 false

init_cases_example :
    ((s : State) × (init max_load_95 6 false true ≡ ok s)
      × IsTable hash_13 equals_exactly keys_13 s
      × LeastPower (at_least_two 6) s.size
      × (s.max_load < s.size)
      × ((key : ℕ) → lookup equals_exactly s.slots key ≡ none))
    ⊎ ((init max_load_95 6 false true ≡ err overflow_detected)
        × ((n : ℕ) × LeastPower (at_least_two 6) n × (u64_max < bytes_of n)))
init_cases_example =
    init_cases max_load_95 hash_13 equals_exactly keys_13 6 false true (omega arith)
