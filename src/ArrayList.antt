-- ===== src/ArrayList.antt =====
-- source/array_list.c and include/aws/common/array_list.inl: a growable array of items of one size, laid
-- out in bytes. `alloc` says whether the list is in dynamic mode, `data` is the memory that the list
-- points to, empty for NULL, and an item is a list of `item_size` bytes. `mem_acquire n` stands for what
-- the n bytes that `aws_mem_acquire` returns happen to hold: it aborts when memory runs out, so the NULL
-- checks behind its calls never fire. Items cross the interface as bytes where C passes a pointer.
-- A call returns the list after it, and the outcome. Children: Swap (the byte swap), Holds (the
-- invariant), Access, Growth, Store, Removal,
-- Erase, Making and Copy (the operations), Contents (items at the start of the data), Tests.
pub mod Swap
pub mod Holds
pub mod Access
pub mod Growth
pub mod Store
pub mod Removal
pub mod Erase
pub mod Contents
pub mod Making
pub mod Copy
mod Tests
use aws_c_common.Prelude.{
  bail, and_then, ℕ, zero, suc, ◌+◌, ◌-◌, ◌*◌, ◌/◌, ◌%◌, ◌^◌, Bool, true, false, not, ◌&&◌, ◌||◌,
  List, [], ◌∷◌, ◌++◌, ltb, leb, ◌==◌, if◌then◌else◌, Result, ok, err, Error, invalid_index,
  list_empty, list_exceeds_max_size, list_static_mode_cant_shrink, dest_copy_too_small, replicate,
  length, ◌>>=◌, Option, none, some,
}
use aws_c_common.Prelude.Bytes.{Bytes, read_at, write_at, move_within}
use aws_c_common.Math.{add_size_checked, mul_size_checked}

pub record ArrayList : Type 0 where
  pub alloc : Bool
  pub current_size : ℕ
  pub length : ℕ
  pub item_size : ℕ
  pub data' : Bytes

abbrev pub zeroed : ArrayList
zeroed = record { alloc = false; current_size = 0; length = 0; item_size = 0; data' = [] }

abbrev pub is_null : Bytes → Bool
is_null [] = true
is_null (b ∷ bs) = false

abbrev is_ok {ℓ} : {A : Type ℓ} → Result A → Bool
is_ok (ok a) = true
is_ok (err e) = false

-- The required size, where the call that computes it succeeds.
abbrev required_fits : Result ℕ → ℕ → Bool
required_fits (ok required) current = leb required current
required_fits (err e) current = false

unfoldable pub is_valid : ArrayList → Bool
is_valid l =
    is_ok (mul_size_checked l.length l.item_size)
    && required_fits (mul_size_checked l.length l.item_size) l.current_size
    && (if l.current_size == 0 then is_null l.data' else leb l.current_size (length l.data'))
    && not (l.item_size == 0)

-- The list over a static array, once its size is computed.
unfoldable pub made_static : Bytes → (item_size : ℕ) → Result ℕ → Option ArrayList
made_static raw_array item_size (err e) = none
made_static raw_array item_size (ok size) = some (record {
  alloc = false;
  current_size = size;
  length = 0;
  item_size = item_size;
  data' = raw_array;
})

-- `none` where a fatal precondition aborts the program: no array, no items, items of no bytes, or a size
-- that overflows.
unfoldable pub init_static : Bytes → (item_count item_size : ℕ) → Option ArrayList
init_static raw_array item_count item_size =
    if is_null raw_array || (item_count == 0) || (item_size == 0)
    then none
    else made_static raw_array item_size (mul_size_checked item_count item_size)

unfoldable pub clean_up : ArrayList → ArrayList
clean_up l = zeroed

unfoldable pub capacity : ArrayList → ℕ
capacity l = l.current_size / l.item_size

unfoldable pub calc_necessary_size : ArrayList → ℕ → Result ℕ
calc_necessary_size l index =
    add_size_checked index 1 >>= λ index_inc. mul_size_checked index_inc l.item_size

unfoldable pub get_at : ArrayList → ℕ → Result Bytes
get_at l index =
    if ltb index l.length
    then ok (read_at (l.item_size * index) l.item_size l.data')
    else err invalid_index

-- The pointer as an offset into the data.
unfoldable pub get_at_ptr : ArrayList → ℕ → Result ℕ
get_at_ptr l index = if ltb index l.length then ok (l.item_size * index) else err invalid_index

unfoldable pub front : ArrayList → Result Bytes
front l = if ltb 0 l.length then ok (read_at 0 l.item_size l.data') else err list_empty

unfoldable pub back : ArrayList → Result Bytes
back l =
    if ltb 0 l.length
    then ok (read_at (l.item_size * (l.length - 1)) l.item_size l.data')
    else err list_empty

unfoldable pub pop_back : ArrayList → ArrayList × Result (Unit {0})
pop_back l =
    if ltb 0 l.length
    then (
      record l {
        data' = write_at (l.item_size * (l.length - 1)) (replicate l.item_size 0) l.data';
        length = l.length - 1;
      },
      ok tt,
    )
    else (l, err list_empty)

unfoldable pub clear : ArrayList → ArrayList
clear l = if is_null l.data' then l else record l { length = 0 }

unfoldable pub pop_front_n : ArrayList → ℕ → ArrayList
unfolding clear
pop_front_n l n =
    if leb l.length n
    then clear l
    else if ltb 0 n
    then (let popping_bytes = l.item_size * n in
        let remaining_items = l.length - n in
        let remaining_bytes = remaining_items * l.item_size in
        record l {
          data' = move_within 0 popping_bytes remaining_bytes l.data';
          length = remaining_items;
        })
    else l

unfoldable pub pop_front : ArrayList → ArrayList × Result (Unit {0})
pop_front l = if ltb 0 l.length then (pop_front_n l 1, ok tt) else (l, err list_empty)

unfoldable pub erase : ArrayList → ℕ → ArrayList × Result (Unit {0})
erase l index =
    if leb l.length index
    then (l, err invalid_index)
    else if index == 0
    then ((pop_front l).0, ok tt)
    else if index == l.length - 1
    then ((pop_back l).0, ok tt)
    else (let item_ptr = index * l.item_size in
        let next_item_ptr = item_ptr + l.item_size in
        let trailing_items = l.length - index - 1 in
        let trailing_bytes = trailing_items * l.item_size in
        let moved = record l {
          data' = move_within item_ptr next_item_ptr trailing_bytes l.data';
        } in
        ((pop_back moved).0, ok tt))

unfoldable pub swap_contents : ArrayList → ArrayList → ArrayList × ArrayList
swap_contents list_a list_b = (list_b, list_a)

-- One slice of `aws_array_list_mem_swap`, through the temporary.
unfoldable pub swap_bytes : (item1 item2 n : ℕ) → Bytes → Bytes
swap_bytes item1 item2 n bs =
    let temp = read_at item1 n bs in write_at item2 temp (write_at item1 (read_at item2 n bs) bs)

unfoldable pub swap_slices : ℕ → (item1 item2 remainder : ℕ) → Bytes → Bytes
swap_slices zero item1 item2 remainder bs = swap_bytes item1 item2 remainder bs
swap_slices (suc k) item1 item2 remainder bs =
    swap_slices k (item1 + 128) (item2 + 128) remainder (swap_bytes item1 item2 128 bs)

-- 128 bytes at a time, then the rest.
unfoldable pub mem_swap : (item1 item2 item_size : ℕ) → Bytes → Bytes
mem_swap item1 item2 item_size bs = swap_slices (item_size / 128) item1 item2 (item_size % 128) bs

unfoldable pub swap : ArrayList → (a b : ℕ) → ArrayList
swap l a b =
    if a == b
    then l
    else record l { data' = mem_swap (l.item_size * a) (l.item_size * b) l.item_size l.data' }

-- The store of `aws_array_list_set_at` once there is room.
unfoldable pub store_at : ArrayList → Bytes → ℕ → ArrayList × Result (Unit {0})
store_at l val index =
    let stored = record l { data' = write_at (l.item_size * index) val l.data' } in
    if leb l.length index
    then (bail stored (add_size_checked index 1)
        λ length'. (record stored { length = length' }, ok tt))
    else (stored, ok tt)

-- In static mode a missing place means that the list is full.
unfoldable pub full_error : Bool → Result (Unit {0}) → Result (Unit {0})
full_error alloc (ok u) = ok u
full_error true (err e) = err e
full_error false (err invalid_index) = err list_exceeds_max_size
full_error false (err e) = err e

-- The operations that acquire memory.
module _ (mem_acquire : ℕ → Bytes) where
  -- `none` where the fatal precondition on the item size aborts the program.
  unfoldable pub init_dynamic : (initial_item_allocation item_size : ℕ) → Option (Result ArrayList)
  init_dynamic initial_item_allocation item_size =
      if item_size == 0
      then none
      else some (
          mul_size_checked initial_item_allocation item_size >>= λ allocation_size. ok (record {
            alloc = true;
            current_size = allocation_size;
            length = 0;
            item_size = item_size;
            data' = if ltb 0 allocation_size then mem_acquire allocation_size else [];
          }))

  unfoldable pub shrink_to_fit : ArrayList → ArrayList × Result (Unit {0})
  shrink_to_fit l =
      if l.alloc
      then (bail l (mul_size_checked l.length l.item_size) λ ideal_size.
          if ltb ideal_size l.current_size
          then (
            record l {
              data' =
                  if ltb 0 ideal_size
                  then write_at 0 (read_at 0 ideal_size l.data') (mem_acquire ideal_size)
                  else [];
              current_size = ideal_size;
            },
            ok tt,
          )
          else (l, ok tt))
      else (l, err list_static_mode_cant_shrink)

  -- The list copied to; `from` does not change.
  unfoldable pub copy_items : (from to : ArrayList) → ArrayList × Result (Unit {0})
  copy_items from to = bail to (mul_size_checked from.length from.item_size) λ copy_size.
      if leb copy_size to.current_size
      then (
        record to {
          data' =
              if ltb 0 copy_size
              then write_at 0 (read_at 0 copy_size from.data') to.data'
              else to.data';
          length = from.length;
        },
        ok tt,
      )
      else if to.alloc
      then (
        record to {
          data' = write_at 0 (read_at 0 copy_size from.data') (mem_acquire copy_size);
          length = from.length;
          current_size = copy_size;
        },
        ok tt,
      )
      else (to, err dest_copy_too_small)

  -- `none` where a fatal precondition aborts the program: items of different sizes, or a source with no
  -- memory.
  unfoldable pub copy : (from to : ArrayList) → Option (ArrayList × Result (Unit {0}))
  copy from to =
      if not (from.item_size == to.item_size) || is_null from.data'
      then none
      else some (copy_items from to)

  -- The growth by doubling of `aws_array_list_ensure_capacity`.
  unfoldable pub grow : ArrayList → (necessary_size : ℕ) → ArrayList × Result (Unit {0})
  grow l necessary_size =
      let next_allocation_size = l.current_size * 2 % 2 ^ 64 in
      let new_size =
        if ltb necessary_size next_allocation_size then next_allocation_size else necessary_size in
      if ltb new_size l.current_size then (l, err list_exceeds_max_size) else (
        record l {
          data' =
              if is_null l.data'
              then mem_acquire new_size
              else write_at 0 (read_at 0 l.current_size l.data') (mem_acquire new_size);
          current_size = new_size;
        },
        ok tt,
      )

  unfoldable pub ensure_capacity : ArrayList → ℕ → ArrayList × Result (Unit {0})
  ensure_capacity l index = bail l (calc_necessary_size l index) λ necessary_size.
      if ltb l.current_size necessary_size
      then (if l.alloc then grow l necessary_size else (l, err invalid_index))
      else (l, ok tt)

  unfoldable pub set_at : ArrayList → Bytes → ℕ → ArrayList × Result (Unit {0})
  set_at l val index = and_then (ensure_capacity l index) λ l'. store_at l' val index

  unfoldable pub push_back : ArrayList → Bytes → ArrayList × Result (Unit {0})
  unfolding full_error
  push_back l val = let (l', r) = set_at l val l.length in (l', full_error l'.alloc r)

  unfoldable pub push_front : ArrayList → Bytes → ArrayList × Result (Unit {0})
  unfolding full_error
  push_front l val =
      let (l', r) = ensure_capacity l l.length in
      (and_then (l', full_error l'.alloc r)
        λ l'.
          let moved =
            if ltb 0 l.length
            then move_within l'.item_size 0 (l.length * l'.item_size) l'.data'
            else l'.data' in
          (record l' { data' = write_at 0 val moved; length = l'.length + 1 }, ok tt))
