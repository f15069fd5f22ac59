-- ===== src/HashTable/Operations.antt =====
-- The calls of source/hash_table.c. `max_load_of size` stands for `(size_t)(0.95 * (double)size)`. An
-- element is its key and its value. What the caller's destructors are called on is returned as a list.
use aws_c_common.Prelude.{
  ℕ, ◌+◌, Bool, true, false, not, ◌&&◌, ◌||◌, List, [], ◌∷◌, ◌++◌, ltb, leb, ◌==◌, if◌then◌else◌,
  Option, none, some, Result, ok, ◌>>=◌, ◌-◌, set, replicate,
}
use aws_c_common.Math.{
  mul_size_checked, add_size_checked, round_up_to_power_of_two, is_power_of_two,
}
use aws_c_common.HashTable.{
  Entry, empty_entry, Slots, slot, State, is_empty, hash_for, safe_eq_check, find_entry,
  emplace_item, remove_entry,
}

pub data Destroyed : Type 0 where
  key_destroyed value_destroyed : ℕ → Destroyed

abbrev pub entry_bytes : ℕ
entry_bytes = 24

abbrev pub state_bytes : ℕ
state_bytes = 80

unfoldable pub required_bytes : ℕ → Result ℕ
required_bytes size =
    mul_size_checked size entry_bytes >>= λ elemsize. add_size_checked elemsize state_bytes

unfoldable pub alloc_state : State → Result State
alloc_state template = required_bytes template.size >>= λ bytes.
    ok (record template { slots = replicate template.size empty_entry })

unfoldable pub get_entry_count : State → ℕ
get_entry_count s = s.entry_count

unfoldable pub state_is_valid : State → Bool
state_is_valid s =
    leb 2 s.size
    && is_power_of_two s.size
    && leb s.entry_count s.max_load
    && ltb s.max_load s.size
    && (s.mask + 1 == s.size)

-- The destructor calls of one element.
unfoldable pub destroy : State → Entry → List Destroyed
destroy s e =
    (if s.destroy_key then key_destroyed e.key ∷ [] else [])
    ++ (if s.destroy_value then value_destroyed e.value ∷ [] else [])

unfoldable pub destroy_all : State → Slots → List Destroyed
destroy_all s [] = []
destroy_all s (e ∷ es) = if is_empty e then destroy_all s es else destroy s e ++ destroy_all s es

unfoldable pub clear : State → State × List Destroyed
clear s = (
  record s { slots = replicate s.size empty_entry; entry_count = 0 },
  if s.destroy_key || s.destroy_value then destroy_all s s.slots else [],
)

-- The table behind the pointer, `none` once it is cleaned up.
unfoldable pub clean_up : Option State → Option State × List Destroyed
clean_up none = (none, [])
clean_up (some s) = (none, (clear s).1)

unfoldable pub swap : Option State → Option State → Option State × Option State
swap a b = (b, a)

-- What `to` and `from` are after `aws_hash_table_move`.
unfoldable pub move : (to from : Option State) → Option State × Option State
move to from = (from, none)

-- The slot of the key's element, and whether it was made.
pub record Created : Type 0 where
  pub table : State
  pub index : ℕ
  pub was_created : Bool

-- The end of `aws_hash_table_create`: a new element with no value yet.
unfoldable pub add_entry : State → (hash_code key probe_idx : ℕ) → Created
add_entry s hash_code key probe_idx =
    let new_entry : Entry = record { key = key; value = 0; hash_code = hash_code } in
    let (slots, place) = emplace_item s.size s.mask s.slots new_entry probe_idx none in
    record {
      table = record s { entry_count = s.entry_count + 1; slots = slots };
      index = elim place [ none ↦ 0 | some i ↦ i ];
      was_created = true;
    }

-- The other table's element has an equal value.
unfoldable pub same_in : (value_eq : ℕ → ℕ → Bool) → Entry → Option Entry → Bool
same_in value_eq e none = false
same_in value_eq e (some found) = safe_eq_check value_eq e.value found.value

-- The entries of the old table, in the order of its slots, go into the new one.
unfoldable pub emplace_all : (size mask : ℕ) → Slots → Slots → Slots
emplace_all size mask [] slots = slots
emplace_all size mask (e ∷ es) slots =
    emplace_all size mask es
      (if is_empty e then slots else (emplace_item size mask slots e 0 none).0)

module _ (hash_fn : ℕ → ℕ) (equals_fn : ℕ → ℕ → Bool) where
  unfoldable pub find : State → (key : ℕ) → Option Entry
  find s key =
      let found = find_entry equals_fn s (hash_for hash_fn key) key in
      if found.present then some (slot s.slots found.index) else none

  -- `wanted` says whether the caller takes the element, which is then not destroyed.
  unfoldable pub remove :
      State → (key : ℕ) → (wanted : Bool) → State × Option Entry × List Destroyed
  remove s key wanted =
      let found = find_entry equals_fn s (hash_for hash_fn key) key in
      let entry = slot s.slots found.index in
      if found.present
      then ((remove_entry s found.index).0, some entry, if wanted then [] else destroy s entry)
      else (s, none, [])

  -- The loop of `aws_hash_table_eq` over the slots of the first table.
  unfoldable pub eq_loop : (value_eq : ℕ → ℕ → Bool) → Slots → State → Bool
  eq_loop value_eq [] b = true
  eq_loop value_eq (e ∷ es) b =
      if is_empty e
      then eq_loop value_eq es b
      else same_in value_eq e (find b e.key) && eq_loop value_eq es b

  unfoldable pub eq : (value_eq : ℕ → ℕ → Bool) → (a b : State) → Bool
  eq value_eq a b =
      if get_entry_count a == get_entry_count b then eq_loop value_eq a.slots b else false

module _ (max_load_of : ℕ → ℕ) where
  unfoldable pub update_template_size : State → (expected_elements : ℕ) → Result State
  update_template_size template expected_elements =
      let min_size = if ltb expected_elements 2 then 2 else expected_elements in
      round_up_to_power_of_two min_size >>= λ size. ok (record template {
        size = size;
        max_load = if leb size (max_load_of size) then size - 1 else max_load_of size;
        mask = size - 1;
      })

  unfoldable pub init : (size : ℕ) → (destroy_key destroy_value : Bool) → Result State
  init size destroy_key destroy_value =
      update_template_size
        (record {
          destroy_key = destroy_key;
          destroy_value = destroy_value;
          size = 0;
          entry_count = 0;
          max_load = 0;
          mask = 0;
          slots = [];
        })
        size
      >>= alloc_state

  unfoldable pub expand_table : State → Result State
  expand_table old = mul_size_checked old.size 2 >>= λ new_size.
      (update_template_size old new_size >>= λ template.
      (alloc_state template >>= λ new.
      ok (record new { slots = emplace_all new.size new.mask old.slots new.slots })))

  module _ (hash_fn : ℕ → ℕ) (equals_fn : ℕ → ℕ → Bool) where
    unfoldable pub create : State → (key : ℕ) → Result Created
    create s key =
        let hash_code = hash_for hash_fn key in
        let found = find_entry equals_fn s hash_code key in
        if found.present
        then ok (record { table = s; index = found.index; was_created = false })
        else (add_size_checked s.entry_count 1 >>= λ incr_entry_count.
            if ltb s.max_load incr_entry_count
            then (expand_table s >>= λ bigger. ok (add_entry bigger hash_code key 0))
            else ok (add_entry s hash_code key found.probe_idx))

    unfoldable pub put : State → (key value : ℕ) → Result (State × Bool × List Destroyed)
    put s key value = create s key >>= λ c.
        (let old = slot c.table.slots c.index in
          let destroyed =
            (if not (old.key == key) && c.table.destroy_key then key_destroyed old.key ∷ [] else [])
            ++ (if c.table.destroy_value then value_destroyed old.value ∷ [] else []) in
          ok (
            record c.table {
              slots = set c.table.slots c.index (record old { key = key; value = value });
            },
            c.was_created,
            if c.was_created then [] else destroyed,
          ))

unfoldable pub remove_element : State → (index : ℕ) → State
remove_element s index = (remove_entry s index).0
