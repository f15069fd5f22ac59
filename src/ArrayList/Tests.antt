-- ===== src/ArrayList/Tests.antt =====
-- Array lists at concrete inputs: a dynamic list of two-byte items, with a byte of room left over.
use aws_c_common.Prelude.{
  ℕ, ◌+◌, ◌*◌, ◌≤◌, ◌<◌, ◌≡◌, refl, List, [], ◌∷◌, ◌++◌, ok, err, invalid_index,
  list_exceeds_max_size, overflow_detected, dest_copy_too_small, list_static_mode_cant_shrink, true,
  ◌⊎◌, none, some, false, arith, length, replicate, leb, if◌then◌else◌,
}
use aws_c_common.Prelude.Lists.{length-replicate}
use aws_c_common.Prelude.Bytes.{Bytes}
use aws_c_common.Math.{u64_max}
use aws_c_common.ArrayList.{
  ArrayList, is_valid, get_at, front, back, swap, pop_back, pop_front_n, erase, set_at, push_back,
  shrink_to_fit, copy,
}
use aws_c_common.ArrayList.Holds.{Holds, Holds-is_valid}
use aws_c_common.ArrayList.Access.{reads_items, swap-Holds}
use aws_c_common.ArrayList.Growth.{capable}
use aws_c_common.ArrayList.Store.{Became, set_at-Holds, push_back-Holds}
use aws_c_common.ArrayList.Removal.{pop_back-Holds, pop_front_n-Holds}
use aws_c_common.ArrayList.Erase.{erase-Holds}
use aws_c_common.ArrayList.Copy.{shrink_to_fit-Holds, copy-Holds}

abbrev memory : ℕ → Bytes
memory n = replicate n 205

fresh : (n : ℕ) → length (memory n) ≡ n
fresh n = length-replicate n 205

abbrev items : List Bytes
items = (1 ∷ 2 ∷ []) ∷ (3 ∷ 4 ∷ []) ∷ (5 ∷ 6 ∷ []) ∷ []

abbrev list : ArrayList
list = record {
  alloc = true;
  current_size = 7;
  length = 3;
  item_size = 2;
  data' = 1 ∷ 2 ∷ 3 ∷ 4 ∷ 5 ∷ 6 ∷ 9 ∷ [];
}

list-Holds : Holds list items
list-Holds = record {
  item_pos = omega arith;
  count = refl;
  sized = (refl, (refl, (refl, tt)));
  size = refl;
  word = omega arith;
  rest = 9 ∷ [];
  layout = refl;
}

abbrev other : ArrayList
other = record {
  alloc = false;
  current_size = 4;
  length = 0;
  item_size = 2;
  data' = 0 ∷ 0 ∷ 0 ∷ 0 ∷ [];
}

other-Holds : Holds other []
other-Holds = record {
  item_pos = omega arith;
  count = refl;
  sized = tt;
  size = refl;
  word = omega arith;
  rest = 0 ∷ 0 ∷ 0 ∷ 0 ∷ [];
  layout = refl;
}

Holds-is_valid_example : is_valid list ≡ true
Holds-is_valid_example = Holds-is_valid list items list-Holds

reads_items_example :
    (get_at list 1 ≡ ok (3 ∷ 4 ∷ []))
    × (front list ≡ ok (1 ∷ 2 ∷ []))
    × (back list ≡ ok (5 ∷ 6 ∷ []))
reads_items_example = reads_items list items list-Holds 1

swap-Holds_example : Holds (swap list 0 2) ((5 ∷ 6 ∷ []) ∷ (3 ∷ 4 ∷ []) ∷ (1 ∷ 2 ∷ []) ∷ [])
swap-Holds_example =
    swap-Holds list items list-Holds 0 2 (omega arith) (omega arith) (1 ∷ 2 ∷ []) (5 ∷ 6 ∷ []) refl
      refl

set_at-Holds_example :
    (l' : ArrayList) × (set_at memory list (7 ∷ 8 ∷ []) 1 ≡ (l', ok tt))
    × Became list ((1 ∷ 2 ∷ []) ∷ (7 ∷ 8 ∷ []) ∷ (5 ∷ 6 ∷ []) ∷ []) l'
set_at-Holds_example =
    set_at-Holds memory fresh list items list-Holds (7 ∷ 8 ∷ []) refl 1 (omega arith)

push_back-Holds_example :
    (capable list 8 ≡ true
      → (l' : ArrayList) × (push_back memory list (7 ∷ 8 ∷ []) ≡ (l', ok tt))
        × Became list (items ++ ((7 ∷ 8 ∷ []) ∷ [])) l')
    × (capable list 8 ≡ false
        → push_back memory list (7 ∷ 8 ∷ [])
          ≡ (list, err (if leb 8 u64_max then list_exceeds_max_size else overflow_detected)))
push_back-Holds_example = push_back-Holds memory fresh list items list-Holds (7 ∷ 8 ∷ []) refl

pop_back-Holds_example :
    (l' : ArrayList) × (pop_back list ≡ (l', ok tt))
    × Holds l' ((1 ∷ 2 ∷ []) ∷ (3 ∷ 4 ∷ []) ∷ [])
    × (l'.length + 1 ≡ 3)
pop_back-Holds_example =
    pop_back-Holds list ((1 ∷ 2 ∷ []) ∷ (3 ∷ 4 ∷ []) ∷ []) (5 ∷ 6 ∷ []) list-Holds

pop_front_n-Holds_example : Holds (pop_front_n list 2) ((5 ∷ 6 ∷ []) ∷ [])
pop_front_n-Holds_example = pop_front_n-Holds list items list-Holds 2

erase-Holds_example :
    (1 < 3
      → (l' : ArrayList) × (erase list 1 ≡ (l', ok tt))
        × Holds l' ((1 ∷ 2 ∷ []) ∷ (5 ∷ 6 ∷ []) ∷ []))
    × (3 ≤ 1 → erase list 1 ≡ (list, err invalid_index))
erase-Holds_example = erase-Holds list items list-Holds 1

shrink_to_fit-Holds_example :
    (true ≡ true
      → (l' : ArrayList) × (shrink_to_fit memory list ≡ (l', ok tt))
        × Became list items l'
        × (l'.current_size ≡ 3 * 2))
    × (true ≡ false → shrink_to_fit memory list ≡ (list, err list_static_mode_cant_shrink))
shrink_to_fit-Holds_example = shrink_to_fit-Holds memory fresh list items list-Holds

copy-Holds_example :
    ((other.data' ≡ []) × (copy memory other list ≡ none))
    ⊎ ((0 < length other.data')
        × (capable list 0 ≡ true)
        × (to' : ArrayList) × (copy memory other list ≡ some (to', ok tt))
        × Became list [] to')
    ⊎ ((0 < length other.data')
        × (capable list 0 ≡ false)
        × (copy memory other list ≡ some (list, err dest_copy_too_small)))
copy-Holds_example = copy-Holds memory fresh other list [] items other-Holds list-Holds refl

abbrev two : ℕ
two = 2
