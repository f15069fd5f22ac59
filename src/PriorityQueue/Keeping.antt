-- ===== src/PriorityQueue/Keeping.antt =====
-- The loops of `s_sift_down` and `s_sift_up` keep the nodes informed.
use aws_c_common.Prelude.{
  ℕ, zero, suc, ◌<◌, ◌≡◌, refl, subst, Bool, true, not, ◌&&◌, List, ltb, ◌==◌, Option, arith,
  length, if_rule,
}
use aws_c_common.PriorityQueue.{
  PriorityQueue, parent_of, left_of, swap, above, first_of, sift_down_loop, sift_up_loop,
}
use aws_c_common.PriorityQueue.Nodes.{Tracked, swap-Tracked, swap-length, parent_of-below}

module _ {A : Type 0} (pred_gt : A → A → Bool) where
  first_of-inside :
      (xs : List A) (i : ℕ)
      → i < length xs
      → ltb (left_of i) (length xs) ≡ true
      → first_of pred_gt xs i < length xs
  unfolding first_of
  first_of-inside xs i h l = ground arith

module _ {A : Type 0} (pred_gt : A → A → Bool) (node_of : A → Option ℕ) (away : ℕ → ℕ) where
  -- The invariant of the sifts: tracked nodes and as many items as there were.
  abbrev pub Kept : ℕ → PriorityQueue A × Bool → Type 0
  Kept len (q, moved) = Tracked node_of away q × (length q.container.items ≡ len)

  pub sift_down_loop-Kept :
      (fuel : ℕ) (q : PriorityQueue A) (root : ℕ) (moved : Bool)
      → root < length q.container.items
      → Tracked node_of away q
      → Kept (length q.container.items) (sift_down_loop pred_gt fuel q root moved)
  unfolding sift_down_loop
  sift_down_loop-Kept zero q root moved h t = (t, refl)
  sift_down_loop-Kept (suc fuel) q root moved h t =
      if_rule (Kept (length q.container.items))
        (ltb (left_of root) (length q.container.items)
          && not (first_of pred_gt q.container.items root == root))
        (λ test.
          let first = first_of pred_gt q.container.items root in
          let left : ltb (left_of root) (length q.container.items) ≡ true = ground arith in
          let inside = first_of-inside pred_gt q.container.items root h left in
          subst (λ len. Kept len (sift_down_loop pred_gt fuel (swap q first root) first true))
            (swap-length q first root)
            (sift_down_loop-Kept fuel (swap q first root) first true
              (omega (arith, swap-length q first root))
              (swap-Tracked node_of away q first root inside h t)))
        (λ stop. (t, refl))

  pub sift_up_loop-Kept :
      (fuel : ℕ) (q : PriorityQueue A) (index : ℕ) (moved : Bool)
      → index < length q.container.items
      → Tracked node_of away q
      → Kept (length q.container.items) (sift_up_loop pred_gt fuel q index moved)
  unfolding sift_up_loop
  sift_up_loop-Kept zero q index moved h t = (t, refl)
  sift_up_loop-Kept (suc fuel) q index moved h t =
      if_rule (Kept (length q.container.items))
        (not (index == 0) && above pred_gt q.container.items (parent_of index) index)
        (λ test.
          let parent = parent_of index in
          let low : parent < index = parent_of-below index (ground arith) in
          subst (λ len. Kept len (sift_up_loop pred_gt fuel (swap q index parent) parent true))
            (swap-length q index parent)
            (sift_up_loop-Kept fuel (swap q index parent) parent true
              (omega (arith, swap-length q index parent))
              (swap-Tracked node_of away q index parent h (omega arith) t)))
        (λ stop. (t, refl))
