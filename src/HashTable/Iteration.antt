-- ===== src/HashTable/Iteration.antt =====
-- The iterators of source/hash_table.c. An iterator stands with the table that it points to.
use aws_c_common.Prelude.{
  ℕ, zero, suc, ◌+◌, ◌-◌, ◌*◌, ◌%◌, ◌/◌, ◌^◌, Bool, true, false, not, ◌&&◌, ◌||◌, List, [], ltb,
  leb, ◌==◌, if◌then◌else◌,
}
use aws_c_common.Math.{u64_max}
use aws_c_common.HashTable.{Entry, empty_entry, Slots, slot, State, is_empty, remove_entry}
use aws_c_common.HashTable.Operations.{Destroyed, destroy, state_is_valid}

pub data IterStatus : Type 0 where
  iter_done delete_called ready_for_use : IterStatus

pub record Iter : Type 0 where
  pub element : Entry
  pub slot' : ℕ
  pub limit : ℕ
  pub status : IterStatus

-- The loop of `s_get_next_element` over `k` slots from `i` on.
unfoldable pub get_next_loop : (k : ℕ) → Slots → (i limit : ℕ) → Iter
get_next_loop zero slots i limit = record {
  element = empty_entry;
  slot' = limit;
  limit = limit;
  status = iter_done;
}
get_next_loop (suc k) slots i limit =
    let entry = slot slots i in
    let rest = get_next_loop k slots (i + 1) limit in
    if is_empty entry
    then rest
    else record { element = entry; slot' = i; limit = limit; status = ready_for_use }

unfoldable pub get_next_element : State → (start_slot limit : ℕ) → Iter
get_next_element s start_slot limit = get_next_loop (limit - start_slot) s.slots start_slot limit

unfoldable pub iter_begin : State → Iter
iter_begin s = get_next_element s 0 s.size

unfoldable pub iter_is_done : Iter → Bool
iter_is_done iter = iter.slot' == iter.limit

unfoldable pub iter_next : State → Iter → Iter
iter_next s iter = get_next_element s ((iter.slot' + 1) % 2 ^ 64) iter.limit

unfoldable pub iter_delete :
    State → Iter → (destroy_contents : Bool) → State × Iter × List Destroyed
iter_delete s iter destroy_contents =
    let (s', last_index) = remove_entry s iter.slot' in
    (
      s',
      record iter {
        limit =
            if ltb last_index iter.slot' || leb iter.limit last_index
            then iter.limit - 1
            else iter.limit;
        slot' = (iter.slot' + 2 ^ 64 - 1) % 2 ^ 64;
        status = delete_called;
      },
      if destroy_contents then destroy s iter.element else [],
    )

unfoldable pub iter_is_valid : State → Iter → Bool
iter_is_valid s iter = state_is_valid s && leb iter.limit s.size && (elim iter.status [
  | iter_done ↦ iter.slot' == iter.limit
  | delete_called ↦ leb iter.slot' iter.limit || (iter.slot' == u64_max)
  | ready_for_use ↦ ltb iter.slot' iter.limit && not (is_empty (slot s.slots iter.slot'))
])

-- What a callback of `aws_hash_table_foreach` asks for by the bits of its result.
unfoldable pub wants_error : ℕ → Bool
wants_error rv = rv / 4 % 2 == 1

unfoldable pub wants_delete : ℕ → Bool
wants_delete rv = rv / 2 % 2 == 1

unfoldable pub wants_continue : ℕ → Bool
wants_continue rv = rv % 2 == 1

-- The state after the calls, the callback's context, and whether the iteration ended without an error.
-- Each round leaves a slot behind or removes an element, so twice the size in rounds is enough.
unfoldable pub foreach_loop :
    {C : Type 0} → ℕ → (callback : C → Entry → C × ℕ) → C → State → Iter → State × C × Bool
foreach_loop zero callback context s iter = (s, context, true)
foreach_loop (suc fuel) callback context s iter =
    let (context', rv) = callback context iter.element in
    let (s', iter', destroyed) =
      if wants_delete rv then iter_delete s iter false else (s, iter, []) in
    let rest = foreach_loop fuel callback context' s' (iter_next s' iter') in
    if iter_is_done iter
    then (s, context, true)
    else if wants_error rv
    then (s, context', false)
    else if wants_continue rv
    then rest
    else (s', context', true)

unfoldable pub foreach :
    {C : Type 0} → (callback : C → Entry → C × ℕ) → C → State → State × C × Bool
foreach callback context s = foreach_loop (s.size * 2 + 1) callback context s (iter_begin s)
