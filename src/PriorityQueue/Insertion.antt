-- ===== src/PriorityQueue/Insertion.antt =====
-- Pushing keeps the heap order, and the top of a heap is behind no item.
use aws_c_common.Prelude.{
  ℕ, zero, suc, ◌-◌, ◌≤◌, ◌<◌, ◌≡◌, refl, sym, ap, ◌∙◌, subst, Bool, true, false, List, [], ◌∷◌,
  ◌++◌, ltb, ◌==◌, if◌then◌else◌, Option, none, some, Result, ok, err, arith, length, get_elem?,
  Bool-cases, inl, inr, ==_iff, priority_queue_empty, ◌⊎◌,
}
use mathlib.Core.Path.{ap₂}
use aws_c_common.Prelude.Lists.{length-append}
use aws_c_common.Prelude.Bytes.{take-append}
use aws_c_common.ArrayList.Holds.{get_elem?-beyond}
use aws_c_common.PriorityQueue.{
  Container, PriorityQueue, compare_items, parent_of, sift_up, push_item, push_ref, link_new,
  sift_new, back_out, init_backpointers, store_backpointer, drop_last, top,
}
use aws_c_common.PriorityQueue.Nodes.{parent_of-below}
use aws_c_common.PriorityQueue.Order.{
  Order, Almost, InOrder, compare-none, compare_trans, sift_up_loop-InOrder,
}

get_elem?-append_left :
    {A : Type 0} (xs ys : List A) (i : ℕ) → i < length xs → get_elem? (xs ++ ys) i ≡ get_elem? xs i
get_elem?-append_left [] ys i h = elim h [ ]
get_elem?-append_left (x ∷ xs) ys zero h = refl
get_elem?-append_left (x ∷ xs) ys (suc i) h = get_elem?-append_left xs ys i (omega arith)

module _ {A : Type 0} (pred_gt : A → A → Bool) (order : Order pred_gt) where
  -- With an item more at the end, its place is the only open one.
  extended :
      (xs : List A) (x : A)
      → InOrder pred_gt order xs
      → Almost pred_gt (λ i. get_elem? (xs ++ (x ∷ [])) i) (length xs)
  extended xs x heap = (
    λ i pos ne. elim (Bool-cases (ltb i (length xs))) [
      | inl inside ↦
          let l : i < length xs = ground arith in
          let low = parent_of-below i pos in
          ap₂ (compare_items pred_gt)
            (get_elem?-append_left xs (x ∷ []) (parent_of i) (omega arith))
            (get_elem?-append_left xs (x ∷ []) i l)
          ∙ heap i pos
      | inr outside ↦
          ap (compare_items pred_gt (get_elem? (xs ++ (x ∷ [])) (parent_of i)))
            (beyond i (ground arith))
          ∙ compare-none pred_gt (get_elem? (xs ++ (x ∷ [])) (parent_of i))
    ],
    λ i pos child pos'.
        ap (compare_items pred_gt (get_elem? (xs ++ (x ∷ [])) (parent_of (length xs))))
          (beyond i (let low = parent_of-below i pos in omega arith))
        ∙ compare-none pred_gt (get_elem? (xs ++ (x ∷ [])) (parent_of (length xs))),
  )
    where
      beyond : (i : ℕ) → length xs < i → get_elem? (xs ++ (x ∷ [])) i ≡ none
      beyond i h = get_elem?-beyond (xs ++ (x ∷ [])) i (omega (arith, length-append xs (x ∷ [])))

  sift_new-InOrder :
      (q : PriorityQueue A) (p : Option ℕ) (index : ℕ) (stored : Result (Option (List (Option ℕ))))
      → Almost pred_gt (λ i. get_elem? q.container.items i) index
      → InOrder pred_gt order (drop_last q.container.items)
      → InOrder pred_gt order (sift_new pred_gt q p index stored).0.container.items
  unfolding sift_new back_out sift_up
  sift_new-InOrder q p index (err e) almost old = old
  sift_new-InOrder q p index (ok stored) almost old =
      sift_up_loop-InOrder pred_gt order index _ index false (omega arith) almost

  link_new-InOrder :
      (q : PriorityQueue A) (p : Option ℕ) (index : ℕ) (made : Result (Option (List (Option ℕ))))
      → Almost pred_gt (λ i. get_elem? q.container.items i) index
      → InOrder pred_gt order (drop_last q.container.items)
      → InOrder pred_gt order (link_new pred_gt q p index made).0.container.items
  unfolding link_new back_out
  link_new-InOrder q p index (err e) almost old = old
  link_new-InOrder q p index (ok made) almost old =
      sift_new-InOrder (record q { backpointers = made }) p index (store_backpointer p index made)
        almost old

  -- Pushing onto a queue in heap order leaves it in heap order, whether the push succeeds or fails, for
  -- any order in which of two items at most one is behind the other, and being not behind is transitive.
  pub push_ref-InOrder :
      (q : PriorityQueue A) (item : A) (backpointer : Option ℕ)
      → InOrder pred_gt order q.container.items
      → InOrder pred_gt order (push_ref pred_gt q item backpointer).0.container.items
  unfolding push_ref push_item drop_last
  push_ref-InOrder q item p heap = by_room (ltb (length q.container.items) q.container.limit)
    where
      result : Container A × Result (Unit {0}) → PriorityQueue A × Result (Unit {0})
      result (c, err e) = (record q { container = c }, err e)
      result (c, ok u) =
          link_new pred_gt (record q { container = c }) p (length c.items - 1)
            (init_backpointers p c.alloc (length c.items - 1) q.backpointers)

      pushed : Container A
      pushed = record q.container { items = q.container.items ++ (item ∷ []) }

      place : length (q.container.items ++ (item ∷ [])) - 1 ≡ length q.container.items
      place = omega (arith, length-append q.container.items (item ∷ []))

      back : drop_last (q.container.items ++ (item ∷ [])) ≡ q.container.items
      back =
          take-append (length (q.container.items ++ (item ∷ [])) - 1) q.container.items (item ∷ [])
            place

      by_room :
          (b : Bool)
          → InOrder pred_gt order
              (result (
                if b
                then (pushed, ok tt)
                else (q.container, err q.container.full))).0.container.items
      by_room true =
          link_new-InOrder (record q { container = pushed }) p (length pushed.items - 1)
            (init_backpointers p pushed.alloc (length pushed.items - 1) q.backpointers)
            (subst (Almost pred_gt (λ i. get_elem? (q.container.items ++ (item ∷ [])) i))
              (sym place) (extended q.container.items item heap))
            (subst (InOrder pred_gt order) (sym back) heap)
      by_room false = heap

  top_below :
      (fuel : ℕ) (x : A) (xs : List A)
      → InOrder pred_gt order (x ∷ xs)
      → (i : ℕ) → i ≤ fuel
      → 0 < i
      → compare_items pred_gt (some x) (get_elem? (x ∷ xs) i) ≡ false
  top_below zero x xs heap i enough pos = absurd (omega arith)
  top_below (suc fuel) x xs heap i enough pos = elim (Bool-cases (parent_of i == 0)) [
    | inl root ↦
        let e : parent_of i ≡ 0 = (==_iff (parent_of i) 0).0 root in
        ap (λ (k : ℕ). compare_items pred_gt (get_elem? (x ∷ xs) k) (get_elem? (x ∷ xs) i)) (sym e)
        ∙ heap i pos
    | inr inner ↦
        let low = parent_of-below i pos in
        let up = top_below fuel x xs heap (parent_of i) (omega arith) (ground arith) in
        through (get_elem? (x ∷ xs) (parent_of i)) up (heap i pos) (parent_there i low)
  ]
    where
      through :
          (o : Option A)
          → compare_items pred_gt (some x) o ≡ false
          → compare_items pred_gt o (get_elem? (x ∷ xs) i) ≡ false
          → ((get_elem? (x ∷ xs) i ≡ none) ⊎ ((y : A) × (o ≡ some y)))
          → compare_items pred_gt (some x) (get_elem? (x ∷ xs) i) ≡ false
      through o e f (inl missing) =
          ap (compare_items pred_gt (some x)) missing ∙ compare-none pred_gt (some x)
      through o e f (inr (y, there)) =
          compare_trans pred_gt order (some x) (get_elem? (x ∷ xs) i) y
            (ap (compare_items pred_gt (some x)) (sym there) ∙ e)
            (ap (λ o. compare_items pred_gt o (get_elem? (x ∷ xs) i)) (sym there) ∙ f)

      parent_there :
          (i : ℕ)
          → parent_of i < i
          → (get_elem? (x ∷ xs) i ≡ none) ⊎ ((y : A) × (get_elem? (x ∷ xs) (parent_of i) ≡ some y))
      parent_there i low = at_parent (x ∷ xs) (parent_of i) i low
        where
          at_parent :
              (ys : List A) (j i : ℕ)
              → j < i
              → (get_elem? ys i ≡ none) ⊎ ((y : A) × (get_elem? ys j ≡ some y))
          at_parent [] j i h = inl refl
          at_parent (y ∷ ys) zero i h = inr (y, refl)
          at_parent (y ∷ ys) (suc j) zero h = absurd (omega arith)
          at_parent (y ∷ ys) (suc j) (suc i) h = at_parent ys j i (omega arith)

  -- Let the order be such that of two items at most one is behind the other, and that not being behind
  -- is transitive. Then the top of a queue in heap order is an item of the queue that is behind no item,
  -- and only an empty queue has none.
  pub top_first :
      (q : PriorityQueue A)
      → InOrder pred_gt order q.container.items
      → ((q.container.items ≡ []) × (top q ≡ err priority_queue_empty))
        ⊎ ((x : A) × (top q ≡ ok x)
            × (get_elem? q.container.items 0 ≡ some x)
            × ((i : ℕ) (y : A)
                → 0 < i
                → get_elem? q.container.items i ≡ some y
                → pred_gt x y ≡ false))
  unfolding top compare_items
  top_first q heap = by_items q.container.items heap
    where
      by_items :
          (items : List A)
          → InOrder pred_gt order items
          → ((items ≡ [])
              × (elim items as (λ t. Result A) [ [] ↦ err priority_queue_empty | x ∷ xs ↦ ok x ]
                  ≡ err priority_queue_empty))
            ⊎ ((x : A) × (elim items as (λ t. Result A) [
              | [] ↦ err priority_queue_empty
              | x ∷ xs ↦ ok x
            ]
                  ≡ ok x)
                × (get_elem? items 0 ≡ some x)
                × ((i : ℕ) (y : A) → 0 < i → get_elem? items i ≡ some y → pred_gt x y ≡ false))
      by_items [] heap = inl (refl, refl)
      by_items (x ∷ xs) heap = inr (
        x,
        refl,
        refl,
        λ i y pos e.
            ap (compare_items pred_gt (some x)) (sym e) ∙ top_below i x xs heap i (omega arith) pos,
      )
