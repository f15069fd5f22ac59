-- ===== src/PriorityQueue/Removal.antt =====
-- Removing an item keeps the heap order: `s_remove_node`, on which `aws_priority_queue_pop` and
-- `aws_priority_queue_remove` stand.
use mathlib.Core.Path.{ap₂}
use aws_c_common.Prelude.{
  ℕ, zero, suc, ◌-◌, ◌^◌, ◌≤◌, ◌<◌, ◌≡◌, ◌≢◌, refl, sym, ap, ◌∙◌, Bool, false, List, [], ◌∷◌, ltb,
  ◌==◌, none, some, arith, length, get_elem?, take, Bool-cases, Option-cases, inl, inr,
}
use aws_c_common.Prelude.Lists.{length-take}
use aws_c_common.Prelude.Weight.{get_elem?-below}
use aws_c_common.ArrayList.Holds.{get_elem?-beyond}
use aws_c_common.PriorityQueue.{
  PriorityQueue, compare_items, parent_of, swap, swap_items, drop_last, drop_item, remove_node,
}
use aws_c_common.PriorityQueue.Nodes.{parent_of-below, swap-length}
use aws_c_common.PriorityQueue.Places.{get_elem?-inside}
use aws_c_common.PriorityQueue.Order.{
  Order, At, BelowParent, InOrder, Heap, compare-none, compare_trans, swap_items-places,
}
use aws_c_common.PriorityQueue.Sifting.{Open, sift_either-InOrder}

get_elem?-take :
    {A : Type 0} (n : ℕ) (xs : List A) (i : ℕ) → i < n → get_elem? (take n xs) i ≡ get_elem? xs i
get_elem?-take zero xs i h = absurd (omega arith)
get_elem?-take (suc n) [] i h = refl
get_elem?-take (suc n) (x ∷ xs) zero h = refl
get_elem?-take (suc n) (x ∷ xs) (suc i) h = get_elem?-take n xs i (omega arith)

get_elem?-take_beyond :
    {A : Type 0} (n : ℕ) (xs : List A) (i : ℕ) → n ≤ i → get_elem? (take n xs) i ≡ none
get_elem?-take_beyond n xs i h = get_elem?-beyond (take n xs) i (omega (arith, length-take n xs))

module _ {A : Type 0} (pred_gt : A → A → Bool) (order : Order pred_gt) where
  -- The first n places of a heap, with the item at j replaced.
  module _ (g g' : At pred_gt) (n j : ℕ) (x : A) (at : g j ≡ some x) (heap : Heap pred_gt g)
      (beyond : (k : ℕ) → n ≤ k → g' k ≡ none) (same : (k : ℕ) → k < n → k ≢ j → g' k ≡ g k) where
    missing : (i k : ℕ) → n ≤ k → BelowParent pred_gt g' i k
    missing i k h = ap (compare_items pred_gt (g' i)) (beyond k h) ∙ compare-none pred_gt (g' i)

    replaced-Open : Open pred_gt order g' j
    replaced-Open = (
      λ i pos ne far. elim (Bool-cases (ltb i n)) [
        | inr out ↦ missing (parent_of i) i (ground arith)
        | inl inside ↦
            let low = parent_of-below i pos in
            let small : i < n = ground arith in
            ap₂ (compare_items pred_gt) (same (parent_of i) (omega arith) far) (same i small ne)
            ∙ heap i pos
      ],
      λ i pos child jpos. elim (Bool-cases (ltb i n)) [
        | inr out ↦ missing (parent_of j) i (ground arith)
        | inl inside ↦
            let low = parent_of-below i pos in
            let lower = parent_of-below j jpos in
            let small : i < n = ground arith in
            let down : compare_items pred_gt (g j) (g i) ≡ false =
              ap (λ (k : ℕ). compare_items pred_gt (g k) (g i)) (sym child) ∙ heap i pos in
            ap₂ (compare_items pred_gt) (same (parent_of j) (omega arith) (λ e. omega arith))
              (same i small (λ e. omega arith))
            ∙ compare_trans pred_gt order (g (parent_of j)) (g i) x
                (ap (compare_items pred_gt (g (parent_of j))) (sym at) ∙ heap j jpos)
                (ap (λ o. compare_items pred_gt o (g i)) (sym at) ∙ down)
      ],
    )

  shorter-InOrder :
      (n : ℕ) (xs : List A) → InOrder pred_gt order xs → InOrder pred_gt order (take n xs)
  shorter-InOrder n xs heap i pos = elim (Bool-cases (ltb i n)) [
    | inr out ↦
        ap (compare_items pred_gt (get_elem? (take n xs) (parent_of i)))
          (get_elem?-take_beyond n xs i (ground arith))
        ∙ compare-none pred_gt (get_elem? (take n xs) (parent_of i))
    | inl inside ↦
        let low = parent_of-below i pos in
        let small : i < n = ground arith in
        ap₂ (compare_items pred_gt) (get_elem?-take n xs (parent_of i) (omega arith))
          (get_elem?-take n xs i small)
        ∙ heap i pos
  ]

  -- Removing the item at a place, the first one included, leaves a queue in heap order in heap order, if it
  -- has fewer than 2 ^ 63 items, for any order as in pushing.
  pub remove_node-InOrder :
      (q : PriorityQueue A) (index : ℕ)
      → length q.container.items < 2 ^ 63
      → InOrder pred_gt order q.container.items
      → InOrder pred_gt order (remove_node pred_gt q index).0.container.items
  unfolding remove_node drop_item drop_last swap
  remove_node-InOrder q index short heap =
      let xs = q.container.items in
      let last = length xs - 1 in
      elim (Option-cases (get_elem? xs index)) [
        | inl gone ↦ rw (remove_node, gone) heap
        | inr (x, ex) ↦
            let inside = get_elem?-below xs index x ex in
            rw (remove_node, ex)
              (elim (Bool-cases (index == last)) [
                | inl ends ↦ rw ends (shorter-InOrder last xs heap)
                | inr inner ↦
                    let ne : index ≢ last = ground arith in
                    let (y, ey) = get_elem?-inside xs last (omega arith) in
                    let (_, at_last, rest) =
                      swap_items-places pred_gt order xs index last x y ne ex ey in
                    let sw = swap_items xs index last in
                    let len : length (swap_items xs index last) - 1 ≡ last =
                      ap (λ (n : ℕ). n - 1) (swap-length q index last) in
                    rw inner (
                      sift_either-InOrder pred_gt order (drop_item (swap q index last) last) index
                        (omega (arith, length-take (length sw - 1) sw)) (omega arith)
                        (replaced-Open (λ i. get_elem? xs i)
                          (λ i. get_elem? (take (length sw - 1) sw) i) last index x ex heap
                          (λ k h. get_elem?-take_beyond (length sw - 1) sw k (omega arith))
                          (λ k low far.
                            get_elem?-take (length sw - 1) sw k (omega arith)
                            ∙ rest k far (λ e. omega arith))))
              ])
      ]
