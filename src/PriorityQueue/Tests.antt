-- ===== src/PriorityQueue/Tests.antt =====
-- A queue of numbers, smallest first, with one node at address 900 for the item 7.
use aws_c_common.Prelude.{
  ℕ, zero, suc, ◌+◌, ◌≡◌, refl, Bool, true, List, [], ◌∷◌, ltb, Option, none, some, ok, err,
  list_exceeds_max_size, arith, ◌⊎◌,
}
use aws_c_common.PriorityQueue.{
  PriorityQueue, push_ref, remove_node, pop, sift_down, sift_down_loop, sift_either, drop_item,
  drop_node, drop_last, swap, swap_items, swap_nodes, exchange, above, first_of, left_of, right_of,
}
use aws_c_common.Prelude.{false}
use aws_c_common.PriorityQueue.{push_item, link_new, sift_new, init_backpointers, store_backpointer}
use aws_c_common.PriorityQueue.Contents.{remove_node-weight, push_ref-weight}
use aws_c_common.Prelude.Weight.{weight}
use aws_c_common.Prelude.{if◌then◌else◌, ◌==◌, suc, zero, priority_queue_empty, get_elem?, ◌<◌}
use aws_c_common.PriorityQueue.{top, parent_of, compare_items}
use aws_c_common.PriorityQueue.Order.{Order, InOrder, compare-none}
use aws_c_common.PriorityQueue.Insertion.{push_ref-InOrder, top_first}
use aws_c_common.PriorityQueue.Removal.{remove_node-InOrder}

abbrev after : ℕ → ℕ → Bool
after x y = ltb y x

abbrev pointers : List (Option ℕ)
pointers = none ∷ some 900 ∷ none ∷ []

abbrev queue : PriorityQueue ℕ
queue = record {
  container = record {
    alloc = true;
    limit = 100;
    full = list_exceeds_max_size;
    items = 3 ∷ 7 ∷ 5 ∷ [];
  };
  backpointers = some pointers;
  nodes = λ m. 1;
}

-- 7 was pushed with the node at 900, and 1 comes with that at 901.
abbrev node_of_item : ℕ → Option ℕ
node_of_item x = if x == 7 then some 900 else if x == 1 then some 901 else none

abbrev all_one : ℕ → ℕ
all_one n = 1

-- After the pop of 3 the item 7 stays behind 5, where its node finds it.
pop_items : (pop after queue).0.container.items ≡ 5 ∷ 7 ∷ []
unfolding pop remove_node sift_either drop_item drop_node drop_last swap swap_items swap_nodes
    exchange sift_down sift_down_loop above compare_items first_of left_of right_of
pop_items = refl

remove_node-weight_example : weight (λ x. x) (remove_node after queue 0).0.container.items + 3 ≡ 15
remove_node-weight_example = remove_node-weight (λ x. x) after queue 0 3 refl

abbrev plain : PriorityQueue ℕ
plain = record {
  container = record {
    alloc = true;
    limit = 100;
    full = list_exceeds_max_size;
    items = 3 ∷ 7 ∷ 5 ∷ [];
  };
  backpointers = none;
  nodes = λ m. 0;
}

pushed_well : (push_ref after plain 1 none).1 ≡ ok tt
unfolding push_ref push_item link_new sift_new init_backpointers store_backpointer
pushed_well = refl

push_ref-weight_example : weight (λ x. x) (push_ref after plain 1 none).0.container.items ≡ 16
push_ref-weight_example = push_ref-weight (λ x. x) after plain 1 none pushed_well

after-Order : Order after
after-Order = record { asym = λ x y e. ground arith; trans = λ x y z e f. ground arith }

queue-InOrder : InOrder after after-Order (3 ∷ 7 ∷ 5 ∷ [])
unfolding parent_of compare_items
queue-InOrder zero pos = absurd (omega arith)
queue-InOrder (suc zero) pos = refl
queue-InOrder (suc (suc zero)) pos = refl
queue-InOrder (suc (suc (suc i))) pos =
    compare-none after (get_elem? (3 ∷ 7 ∷ 5 ∷ []) (parent_of (suc (suc (suc i)))))

push_ref-InOrder_example :
    InOrder after after-Order (push_ref after queue 1 (some 901)).0.container.items
push_ref-InOrder_example = push_ref-InOrder after after-Order queue 1 (some 901) queue-InOrder

top_first_example :
    ((queue.container.items ≡ []) × (top queue ≡ err priority_queue_empty))
    ⊎ ((x : ℕ) × (top queue ≡ ok x)
        × (some 3 ≡ some x)
        × ((i : ℕ) (y : ℕ) → 0 < i → get_elem? (3 ∷ 7 ∷ 5 ∷ []) i ≡ some y → after x y ≡ false))
top_first_example = top_first after after-Order queue queue-InOrder

remove_node-InOrder_example :
    InOrder after after-Order (remove_node after queue 0).0.container.items
remove_node-InOrder_example =
    remove_node-InOrder after after-Order queue 0 (omega arith) queue-InOrder
