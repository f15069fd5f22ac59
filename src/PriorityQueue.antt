-- ===== src/PriorityQueue.antt =====
-- source/priority_queue.c: a binary heap in an array list, with a second list of pointers to the callers'
-- nodes that are told where their item is. The array lists stand here as the lists of items that
-- ArrayList shows them to hold: `limit` is how many items the container may hold, its capacity in
-- static mode and the most whose size is a word in dynamic mode, and `full` is the error of
-- `push_back` beyond (ArrayList/Store). `nodes n` is the `current_index` of the node at address n, which
-- is the caller's memory. `pred_gt x y` stands for `pred(&x, &y) > 0`. Children: Places (what an exchange
-- does to the lists), Nodes (the swap), Keeping (the sifts), Dropping (the ends of the lists), Tracking (removal),
-- Linking and Pushing, which follow the pointers, Memory (the container against the array list in
-- memory), Contents (the items before and after), Order and
-- Insertion (the heap order), Tests.
pub mod Places
pub mod Nodes
pub mod Keeping
pub mod Dropping
pub mod Tracking
pub mod Linking
pub mod Pushing
pub mod Memory
pub mod Contents
pub mod Order
pub mod Insertion
pub mod Down
pub mod Sifting
pub mod Removal
mod Tests
use aws_c_common.Prelude.{
  ℕ, zero, suc, ◌+◌, ◌-◌, ◌*◌, ◌/◌, ◌%◌, ◌^◌, Bool, true, false, not, ◌&&◌, ◌||◌, List, [], ◌∷◌,
  ◌++◌, ltb, leb, ◌==◌, if◌then◌else◌, Option, none, some, Result, ok, err, Error, invalid_index,
  overflow_detected, unsupported_operation, priority_queue_empty, priority_queue_bad_node, length,
  get_elem?, set, take, replicate, bit_and,
}
use aws_c_common.Math.{u64_max}

pub record Container (A : Type 0) : Type 0 where
  pub alloc : Bool
  pub limit : ℕ
  pub full : Error
  pub items : List A

-- `backpointers` is `none` for the zeroed list; a null pointer in it is `none` again.
pub record PriorityQueue (A : Type 0) : Type 0 where
  pub container : Container A
  pub backpointers : Option (List (Option ℕ))
  pub nodes : ℕ → ℕ

abbrev pub node_size : ℕ
node_size = 8

abbrev pub removed : ℕ
removed = u64_max

unfoldable pub parent_of : ℕ → ℕ
parent_of index =
    if bit_and index 1 == 1 then index / 2 else if ltb 1 index then (index - 2) / 2 else 0

unfoldable pub left_of : ℕ → ℕ
left_of index = (index * 2 % 2 ^ 64 + 1) % 2 ^ 64

unfoldable pub right_of : ℕ → ℕ
right_of index = (index * 2 % 2 ^ 64 + 2) % 2 ^ 64

-- `node->current_index = i`, where there is a node.
unfoldable pub point : (ℕ → ℕ) → Option ℕ → ℕ → (ℕ → ℕ)
point nodes none i = nodes
point nodes (some n) i = λ m. if m == n then i else nodes m

module _ {A : Type 0} where
  -- `aws_array_list_push_back` on the container, to which PriorityQueue/Memory ties it.
  unfoldable pub push_item : Container A → A → Container A × Result (Unit {0})
  push_item c x =
      if ltb (length c.items) c.limit
      then (record c { items = c.items ++ (x ∷ []) }, ok tt)
      else (c, err c.full)

  unfoldable pub drop_last : List A → List A
  drop_last xs = take (length xs - 1) xs

  unfoldable pub exchange : Option A → Option A → List A → (a b : ℕ) → List A
  exchange (some x) (some y) xs a b = set (set xs a y) b x
  exchange none y xs a b = xs
  exchange (some x) none xs a b = xs

  -- Both places are within the list.
  unfoldable pub swap_items : List A → (a b : ℕ) → List A
  unfolding exchange
  swap_items xs a b = exchange (get_elem? xs a) (get_elem? xs b) xs a b

-- The node that a place of the list points to.
unfoldable pub node_at : List (Option ℕ) → ℕ → Option ℕ
node_at [] i = none
node_at (p ∷ ps) zero = p
node_at (p ∷ ps) (suc i) = node_at ps i

-- `aws_array_list_set_at` on the back pointers: memory behind the last is zeroed when the list is made.
unfoldable pub set_pointer : List (Option ℕ) → ℕ → Option ℕ → List (Option ℕ)
set_pointer ps i p =
    if ltb i (length ps) then set ps i p else ps ++ (replicate (i - length ps) none ++ (p ∷ []))

-- The second half of `s_swap`: the pointers, and what they point to.
unfoldable pub swap_nodes :
    Option (List (Option ℕ)) → (ℕ → ℕ) → (a b : ℕ) → Option (List (Option ℕ)) × (ℕ → ℕ)
swap_nodes none nodes a b = (none, nodes)
swap_nodes (some ps) nodes a b =
    let ps' = swap_items ps a b in
    (some ps', point (point nodes (node_at ps' a) a) (node_at ps' b) b)

module _ {A : Type 0} where
  unfoldable pub swap : PriorityQueue A → (a b : ℕ) → PriorityQueue A
  swap q a b =
      let (ps, nodes) = swap_nodes q.backpointers q.nodes a b in
      record {
        container = record q.container { items = swap_items q.container.items a b };
        backpointers = ps;
        nodes = nodes;
      }

-- The list of back pointers is made when the first pointer comes.
unfoldable pub init_backpointers :
    Option ℕ → Bool → (index : ℕ) → Option (List (Option ℕ)) → Result (Option (List (Option ℕ)))
init_backpointers (some n) alloc index none =
    if not alloc
    then err unsupported_operation
    else if ltb u64_max ((index + 1) * node_size)
    then err overflow_detected
    else ok (some [])
init_backpointers none alloc index none = ok none
init_backpointers p alloc index (some ps) = ok (some ps)

-- The new pointer in its place, where there is a list.
unfoldable pub store_backpointer :
    Option ℕ → (index : ℕ) → Option (List (Option ℕ)) → Result (Option (List (Option ℕ)))
store_backpointer p index none = ok none
store_backpointer p index (some ps) =
    if ltb u64_max ((index + 1) * node_size)
    then err overflow_detected
    else ok (some (set_pointer ps index p))

-- The node of a removed item is told so, and the last pointer is dropped.
unfoldable pub drop_node :
    Option (List (Option ℕ)) → (ℕ → ℕ) → ℕ → Option (List (Option ℕ)) × (ℕ → ℕ)
drop_node none nodes i = (none, nodes)
drop_node (some ps) nodes i = (some (drop_last ps), point nodes (node_at ps i) removed)

unfoldable pub has_backpointers : Option (List (Option ℕ)) → Bool
has_backpointers none = false
has_backpointers (some ps) = true

module _ {A : Type 0} where
  -- The label `backpointer_update_failed`.
  unfoldable pub back_out : PriorityQueue A → Error → PriorityQueue A × Result (Unit {0})
  back_out q e =
      (record q { container = record q.container { items = drop_last q.container.items } }, err e)

  -- The queue without its last item.
  unfoldable pub drop_item : PriorityQueue A → ℕ → PriorityQueue A
  drop_item q swap_with =
      let (ps, nodes) = drop_node q.backpointers q.nodes swap_with in
      record {
        container = record q.container { items = drop_last q.container.items };
        backpointers = ps;
        nodes = nodes;
      }

module _ {A : Type 0} (pred_gt : A → A → Bool) where
  unfoldable pub compare_items : Option A → Option A → Bool
  compare_items (some x) (some y) = pred_gt x y
  compare_items none y = false
  compare_items (some x) none = false

  -- `pred` on the items at two places, both within the list.
  unfoldable pub above : List A → (i j : ℕ) → Bool
  unfolding compare_items
  above xs i j = compare_items (get_elem? xs i) (get_elem? xs j)

  -- The place of the first of an item and its children.
  unfoldable pub first_of : List A → ℕ → ℕ
  first_of xs root =
      let first = if above xs root (left_of root) then left_of root else root in
      if ltb (right_of root) (length xs) && above xs first (right_of root)
      then right_of root
      else first

  -- The loop of `s_sift_down`. The place grows in each turn, so the length of the list is enough fuel.
  unfoldable pub sift_down_loop : ℕ → PriorityQueue A → (root : ℕ) → Bool → PriorityQueue A × Bool
  sift_down_loop zero q root did_move = (q, did_move)
  sift_down_loop (suc fuel) q root did_move =
      let first = first_of q.container.items root in
      let rest = sift_down_loop fuel (swap q first root) first true in
      if ltb (left_of root) (length q.container.items) && not (first == root)
      then rest
      else (q, did_move)

  unfoldable pub sift_down : PriorityQueue A → ℕ → PriorityQueue A × Bool
  sift_down q root = sift_down_loop (length q.container.items) q root false

  -- The loop of `s_sift_up`. The place falls in each turn, so the place is enough fuel.
  unfoldable pub sift_up_loop : ℕ → PriorityQueue A → (index : ℕ) → Bool → PriorityQueue A × Bool
  sift_up_loop zero q index did_move = (q, did_move)
  sift_up_loop (suc fuel) q index did_move =
      let parent = parent_of index in
      let rest = sift_up_loop fuel (swap q index parent) parent true in
      if not (index == 0) && above q.container.items parent index then rest else (q, did_move)

  unfoldable pub sift_up : PriorityQueue A → ℕ → PriorityQueue A × Bool
  sift_up q index = sift_up_loop index q index false

  unfoldable pub sift_either : PriorityQueue A → ℕ → PriorityQueue A
  sift_either q index =
      if index == 0
      then (sift_down q index).0
      else (let (q', did_move) = sift_up q index in if did_move then q' else (sift_down q' index).0)

  -- What follows the new pointer's store.
  unfoldable pub sift_new :
      PriorityQueue A
      → Option ℕ
      → (index : ℕ) → Result (Option (List (Option ℕ)))
      → PriorityQueue A × Result (Unit {0})
  sift_new q backpointer index (err e) = back_out q e
  sift_new q backpointer index (ok stored) = (
    (sift_up (record q { backpointers = stored; nodes = point q.nodes backpointer index }) index).0,
    ok tt,
  )

  -- What follows the making of the list of pointers.
  unfoldable pub link_new :
      PriorityQueue A
      → Option ℕ
      → (index : ℕ) → Result (Option (List (Option ℕ)))
      → PriorityQueue A × Result (Unit {0})
  link_new q backpointer index (err e) = back_out q e
  link_new q backpointer index (ok made) =
      sift_new (record q { backpointers = made }) backpointer index
        (store_backpointer backpointer index made)

  unfoldable pub push_ref : PriorityQueue A → A → Option ℕ → PriorityQueue A × Result (Unit {0})
  push_ref q item backpointer =
      let (c, r) = push_item q.container item in
      let index = length c.items - 1 in
      elim r [
        | err e ↦ (record q { container = c }, err e)
        | ok u ↦
            link_new (record q { container = c }) backpointer index
              (init_backpointers backpointer c.alloc index q.backpointers)
      ]

  unfoldable pub push : PriorityQueue A → A → PriorityQueue A × Result (Unit {0})
  push q item = push_ref q item none

  unfoldable pub remove_node : PriorityQueue A → (item_index : ℕ) → PriorityQueue A × Result A
  remove_node q item_index = elim (get_elem? q.container.items item_index) [
    | none ↦ (q, err invalid_index)
    | some item ↦
        let swap_with = length q.container.items - 1 in
        (
          if item_index == swap_with
              then drop_item q swap_with
              else sift_either (drop_item (swap q item_index swap_with) swap_with) item_index,
          ok item,
        )
  ]

  unfoldable pub remove : PriorityQueue A → (node : ℕ) → PriorityQueue A × Result A
  remove q node =
      if not (ltb (q.nodes node) (length q.container.items))
      then (q, err priority_queue_bad_node)
      else if not (has_backpointers q.backpointers)
      then (q, err priority_queue_bad_node)
      else remove_node q (q.nodes node)

  unfoldable pub pop : PriorityQueue A → PriorityQueue A × Result A
  pop q = if length q.container.items == 0 then (q, err priority_queue_empty) else remove_node q 0

module _ {A : Type 0} where
  unfoldable pub top : PriorityQueue A → Result A
  top q = elim q.container.items [ [] ↦ err priority_queue_empty | x ∷ xs ↦ ok x ]

  unfoldable pub size : PriorityQueue A → ℕ
  size q = length q.container.items
