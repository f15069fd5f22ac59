-- ===== src/HashTable.antt =====
-- source/hash_table.c: a table with open addressing, where an item that is further from its home takes the
-- place of one that is nearer ("robin hood"), and a removal shifts the items behind it back. `slots` is
-- the array of `size` entries, a hash code of 0 marks an empty one, and keys and values are pointers,
-- 0 for NULL. `hash_fn` and `equals_fn` are the caller's. This file has the work on the slots; Operations
-- has the calls, and Iteration the iterators. Ring says what the index arithmetic does, Probing that no
-- search stops early, Placing, Emplacing, Inserting and Shifting that insertion and removal keep it so; Keys
-- and Lookup are the map that the table stands for, Table its invariant, and Finding, Changing, Adding, Growing,
-- Expanding and Refinement what the calls do to that map.
pub mod Ring
pub mod Probing
pub mod Placing
pub mod Emplacing
pub mod Inserting
pub mod Shifting
pub mod Keys
pub mod Lookup
pub mod Table
pub mod Finding
pub mod Changing
pub mod Adding
pub mod Growing
pub mod Expanding
pub mod Refinement
pub mod Operations
pub mod Iteration
mod Tests
use aws_c_common.Prelude.{
  ℕ, zero, suc, ◌+◌, ◌-◌, ◌*◌, ◌%◌, ◌^◌, Bool, true, false, not, ◌&&◌, ◌||◌, List, [], ◌∷◌, ltb,
  ◌==◌, if◌then◌else◌, Option, none, some, length, set, get_or, bit_and,
}

pub record Entry : Type 0 where
  pub key : ℕ
  pub value : ℕ
  pub hash_code : ℕ

abbrev pub empty_entry : Entry
empty_entry = record { key = 0; value = 0; hash_code = 0 }

abbrev pub Slots : Type 0
Slots = List Entry

abbrev pub slot : Slots → ℕ → Entry
slot slots i = get_or slots i empty_entry

-- The fields that are not the caller's functions. `destroy_key` and `destroy_value` say whether the table
-- was given those callbacks.
pub record State : Type 0 where
  pub destroy_key : Bool
  pub destroy_value : Bool
  pub size : ℕ
  pub entry_count : ℕ
  pub max_load : ℕ
  pub mask : ℕ
  pub slots : Slots

abbrev pub is_empty : Entry → Bool
is_empty e = e.hash_code == 0

-- `(hash_code + probe_idx) & mask`
unfoldable pub index_at : (mask hash_code probe_idx : ℕ) → ℕ
index_at mask hash_code probe_idx = bit_and ((hash_code + probe_idx) % 2 ^ 64) mask

-- `(index - hash_code) & mask`
unfoldable pub probe_of : (mask index hash_code : ℕ) → ℕ
probe_of mask index hash_code = bit_and ((index + 2 ^ 64 - hash_code) % 2 ^ 64) mask

-- Where a search ended, and whether it found its key there.
pub record Found : Type 0 where
  pub present : Bool
  pub index : ℕ
  pub probe_idx : ℕ

module _ (hash_fn : ℕ → ℕ) where
  unfoldable pub hash_for : ℕ → ℕ
  hash_for key = if key == 0 then 42 else if hash_fn key == 0 then 1 else hash_fn key

module _ (equals_fn : ℕ → ℕ → Bool) where
  unfoldable pub safe_eq_check : ℕ → ℕ → Bool
  safe_eq_check a b = if a == b then true else if (a == 0) || (b == 0) then false else equals_fn a b

  -- The test that both searches make at an entry.
  unfoldable pub entry_matches : (hash_code key : ℕ) → Entry → Bool
  entry_matches hash_code key e = (e.hash_code == hash_code) && safe_eq_check key e.key

  -- The loop of `s_find_entry1`. A probe never exceeds the mask, so `size` rounds are enough.
  unfoldable pub find_entry1 : ℕ → (mask : ℕ) → Slots → (hash_code key probe_idx : ℕ) → Found
  find_entry1 zero mask slots hash_code key probe_idx = record {
    present = false;
    index = index_at mask hash_code probe_idx;
    probe_idx = probe_idx;
  }
  find_entry1 (suc fuel) mask slots hash_code key probe_idx =
      let index = index_at mask hash_code probe_idx in
      let entry = slot slots index in
      let rest = find_entry1 fuel mask slots hash_code key (probe_idx + 1) in
      if is_empty entry
      then record { present = false; index = index; probe_idx = probe_idx }
      else if entry_matches hash_code key entry
      then record { present = true; index = index; probe_idx = probe_idx }
      else if ltb (probe_of mask index entry.hash_code) probe_idx
      then record { present = false; index = index; probe_idx = probe_idx }
      else rest

  -- The first slot is looked at before the loop.
  unfoldable pub find_entry : State → (hash_code key : ℕ) → Found
  find_entry s hash_code key =
      let index = bit_and hash_code s.mask in
      let entry = slot s.slots index in
      if is_empty entry
      then record { present = false; index = index; probe_idx = 0 }
      else if entry_matches hash_code key entry
      then record { present = true; index = index; probe_idx = 0 }
      else find_entry1 s.size s.mask s.slots hash_code key 1

-- The entry itself is the first that is put somewhere.
unfoldable pub first_place : Option ℕ → ℕ → Option ℕ
first_place none index = some index
first_place (some i) index = some i

-- The loop of `s_emplace_item`: the slots after it, and where the entry itself was put. There is an empty
-- slot, so `size` rounds are enough.
unfoldable pub emplace_item :
    ℕ → (mask : ℕ) → Slots → Entry → (probe_idx : ℕ) → Option ℕ → Slots × Option ℕ
emplace_item zero mask slots entry probe_idx rval = (slots, rval)
emplace_item (suc fuel) mask slots entry probe_idx rval =
    let index = index_at mask entry.hash_code probe_idx in
    let victim = slot slots index in
    let victim_probe_idx = probe_of mask index victim.hash_code in
    let placed =
      emplace_item fuel mask (set slots index entry) victim (victim_probe_idx + 1)
        (first_place rval index) in
    let further = emplace_item fuel mask slots entry (probe_idx + 1) rval in
    if is_empty entry
    then (slots, rval)
    else if is_empty victim || ltb victim_probe_idx probe_idx
    then placed
    else further

-- The loop of `s_remove_entry`: the slots after it, and the last slot that it touched. There is an empty
-- slot, so `size` rounds are enough.
unfoldable pub shift_back : ℕ → (mask : ℕ) → Slots → (index : ℕ) → Slots × ℕ
shift_back zero mask slots index = (set slots index empty_entry, index)
shift_back (suc fuel) mask slots index =
    let next_index = bit_and ((index + 1) % 2 ^ 64) mask in
    let next = slot slots next_index in
    let rest = shift_back fuel mask (set slots index next) next_index in
    if is_empty next || (bit_and next.hash_code mask == next_index)
    then (set slots index empty_entry, index)
    else rest

unfoldable pub remove_entry : State → (index : ℕ) → State × ℕ
remove_entry s index =
    let (slots, last) = shift_back s.size s.mask s.slots index in
    (record s { entry_count = s.entry_count - 1; slots = slots }, last)
