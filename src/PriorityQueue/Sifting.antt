-- ===== src/PriorityQueue/Sifting.antt =====
-- `s_sift_down` and `s_sift_either` restore the heap order around one place.
use aws_c_common.Prelude.{
  ℕ, zero, suc, ◌+◌, ◌-◌, ◌*◌, ◌^◌, ◌≤◌, ◌<◌, ◌≡◌, ◌≢◌, refl, sym, ap, ◌∙◌, Bool, true, false, not,
  ◌&&◌, List, ltb, ◌==◌, arith, length, get_elem?, Bool-cases, inl, inr, ==_iff, if_rule,
}
use aws_c_common.Prelude.Weight.{get_elem?-below}
use aws_c_common.ArrayList.Holds.{get_elem?-beyond}
use aws_c_common.PriorityQueue.{
  PriorityQueue, compare_items, above, parent_of, left_of, first_of, swap, swap_items,
  sift_down_loop, sift_down, sift_up_loop, sift_up, sift_either,
}
use aws_c_common.PriorityQueue.Nodes.{swap-length}
use aws_c_common.PriorityQueue.Order.{
  Order, At, Almost, BelowParent, InOrder, compare-none, compare_asym, compare_trans,
  swap_items-places, both_there, sift_up_loop-InOrder,
}
use aws_c_common.PriorityQueue.Down.{
  DownOpen, Chosen, child_of, first_of-cases, turn-DownOpen, left_of_lem,
}

module _ {A : Type 0} (pred_gt : A → A → Bool) (order : Order pred_gt) where
  -- No child of the open place is above it.
  closed :
      (xs : List A) (j : ℕ)
      → j < 2 ^ 63 - 1
      → DownOpen pred_gt (λ i. get_elem? xs i) j
      → compare_items pred_gt (get_elem? xs j) (get_elem? xs (j * 2 + 1)) ≡ false
      → compare_items pred_gt (get_elem? xs j) (get_elem? xs (j * 2 + 2)) ≡ false
      → InOrder pred_gt order xs
  closed xs j small open_at left right i pos = elim (Bool-cases (parent_of i == j)) [
    | inr far ↦ open_at.0 i pos (λ (e : parent_of i ≡ j). ground arith)
    | inl child ↦
        let e : parent_of i ≡ j = (==_iff (parent_of i) j).0 child in
        let up = ap (λ (k : ℕ). compare_items pred_gt (get_elem? xs k) (get_elem? xs i)) e in
        elim (child_of i j pos e) [
          | inl l ↦
              up ∙ ap (λ (k : ℕ). compare_items pred_gt (get_elem? xs j) (get_elem? xs k)) l ∙ left
          | inr r ↦
              up ∙ ap (λ (k : ℕ). compare_items pred_gt (get_elem? xs j) (get_elem? xs k)) r ∙ right
        ]
  ]

  leaf :
      (xs : List A) (j : ℕ)
      → j < 2 ^ 63 - 1
      → DownOpen pred_gt (λ i. get_elem? xs i) j
      → length xs ≤ j * 2 + 1
      → InOrder pred_gt order xs
  leaf xs j small open_at short =
      let gone : (k : ℕ)
          → length xs ≤ k
          → compare_items pred_gt (get_elem? xs j) (get_elem? xs k) ≡ false =
        λ k beyond.
          ap (compare_items pred_gt (get_elem? xs j)) (get_elem?-beyond xs k beyond)
          ∙ compare-none pred_gt (get_elem? xs j) in
      closed xs j small open_at (gone (j * 2 + 1) short) (gone (j * 2 + 2) (omega arith))

  down_turn :
      (xs : List A) (j f c : ℕ)
      → Chosen pred_gt xs j f c
      → DownOpen pred_gt (λ i. get_elem? xs i) j
      → DownOpen pred_gt (λ i. get_elem? (swap_items xs f j) i) f
  down_turn xs j f c (low, parent, kids, (x, ex), (y, ey), over, other) open_at =
      let (at_f, at_j, rest) =
        swap_items-places pred_gt order xs f j y x (λ e. omega arith) ey ex in
      turn-DownOpen pred_gt (λ i. get_elem? xs i) (λ i. get_elem? (swap_items xs f j) i) j f c low
        parent kids over other (at_j ∙ sym ey) (at_f ∙ sym ex) rest open_at

  sift_down_loop-InOrder :
      (fuel : ℕ) (q : PriorityQueue A) (root : ℕ) (moved : Bool)
      → length q.container.items ≤ fuel + root
      → length q.container.items < 2 ^ 63
      → root < 2 ^ 63 - 1
      → DownOpen pred_gt (λ i. get_elem? q.container.items i) root
      → InOrder pred_gt order (sift_down_loop pred_gt fuel q root moved).0.container.items
  unfolding sift_down_loop swap
  sift_down_loop-InOrder zero q root moved enough short small open_at =
      leaf q.container.items root small open_at (omega arith)
  sift_down_loop-InOrder (suc fuel) q root moved enough short small open_at =
      let xs = q.container.items in
      let first = first_of pred_gt xs root in
      if_rule (λ (r : PriorityQueue A × Bool). InOrder pred_gt order r.0.container.items)
        (ltb (left_of root) (length xs) && not (first == root))
        (λ go. elim (first_of-cases pred_gt order xs root small) [
          | inl (same, _, _) ↦
              let e : (first == root) ≡ true = (==_iff first root).1 same in absurd (ground arith)
          | inr (c, chosen) ↦
              let (low, parent, kids, x_there, (y, ey), over, fine) = chosen in
              let inside = get_elem?-below xs first y ey in
              let len = swap-length q first root in
              sift_down_loop-InOrder fuel (swap q first root) first true (omega arith) (omega arith)
                (omega arith) (down_turn xs root first c chosen open_at)
        ])
        (λ stop. elim (first_of-cases pred_gt order xs root small) [
          | inl (same, left, right) ↦ closed xs root small open_at left right
          | inr (c, chosen) ↦
              let low = chosen.0 in
              let l = left_of_lem root (omega arith) in
              let other : (first == root) ≡ false = ground arith in
              leaf xs root small open_at (ground arith)
        ])

  -- Everything is in order but for the item at one place.
  abbrev pub Open : At pred_gt → ℕ → Type 0
  Open g j =
      ((i : ℕ) → 0 < i → i ≢ j → parent_of i ≢ j → BelowParent pred_gt g (parent_of i) i)
      × ((i : ℕ) → 0 < i → parent_of i ≡ j → 0 < j → BelowParent pred_gt g (parent_of j) i)

  -- An item that goes up leaves its children below the one that comes down.
  going_up :
      (g : At pred_gt) (j : ℕ)
      → compare_items pred_gt (g (parent_of j)) (g j) ≡ true
      → 0 < j
      → Open g j
      → Almost pred_gt g j
  going_up g j behind pos open_at = (
    λ i ipos ne. elim (Bool-cases (parent_of i == j)) [
      | inr far ↦ open_at.0 i ipos ne (λ (e : parent_of i ≡ j). ground arith)
      | inl child ↦
          let e : parent_of i ≡ j = (==_iff (parent_of i) j).0 child in
          let (x, y, ex, ey) = both_there pred_gt order (g (parent_of j)) (g j) behind in
          let up = compare_asym pred_gt order (g (parent_of j)) (g j) behind in
          let down = open_at.1 i ipos e pos in
          ap (λ (k : ℕ). compare_items pred_gt (g k) (g i)) e
          ∙ compare_trans pred_gt order (g j) (g i) x
              (ap (compare_items pred_gt (g j)) (sym ex) ∙ up)
              (ap (λ o. compare_items pred_gt o (g i)) (sym ex) ∙ down)
    ],
    open_at.1,
  )

  sift_up_loop-moved :
      (fuel : ℕ) (q : PriorityQueue A) (i : ℕ) → (sift_up_loop pred_gt fuel q i true).1 ≡ true
  unfolding sift_up_loop
  sift_up_loop-moved zero q i = refl
  sift_up_loop-moved (suc fuel) q i =
      if_rule (λ (r : PriorityQueue A × Bool). r.1 ≡ true)
        (not (i == 0) && above pred_gt q.container.items (parent_of i) i)
        (λ go. sift_up_loop-moved fuel (swap q i (parent_of i)) (parent_of i)) (λ stop. refl)

  sift_up_stays :
      (q : PriorityQueue A) (i : ℕ)
      → above pred_gt q.container.items (parent_of i) i ≡ false
      → sift_up pred_gt q i ≡ (q, false)
  unfolding sift_up sift_up_loop
  sift_up_stays q zero fine = refl
  sift_up_stays q (suc i) fine =
      rw fine (elim (Bool-cases (not (suc i == 0))) [ inl t ↦ rw t refl | inr f ↦ rw f refl ])

  sift_up_goes :
      (q : PriorityQueue A) (i : ℕ)
      → 0 < i
      → above pred_gt q.container.items (parent_of i) i ≡ true
      → (sift_up pred_gt q i).1 ≡ true
  unfolding sift_up sift_up_loop
  sift_up_goes q zero pos behind = absurd (omega arith)
  sift_up_goes q (suc i) pos behind =
      let inner : (not (suc i == 0)) ≡ true = ground arith in
      rw (inner, behind)
        (sift_up_loop-moved i (swap q (suc i) (parent_of (suc i))) (parent_of (suc i)))

  pub sift_either-InOrder :
      (q : PriorityQueue A) (index : ℕ)
      → length q.container.items < 2 ^ 63
      → index < 2 ^ 63 - 1
      → Open (λ i. get_elem? q.container.items i) index
      → InOrder pred_gt order (sift_either pred_gt q index).container.items
  unfolding sift_either sift_down sift_up above
  sift_either-InOrder q index short small open_at =
      let xs = q.container.items in
      let down : DownOpen pred_gt (λ i. get_elem? xs i) index
          → InOrder pred_gt order
              (sift_down_loop pred_gt (length xs) q index false).0.container.items =
        λ d. sift_down_loop-InOrder (length xs) q index false (omega arith) short small d in
      elim (Bool-cases (index == 0)) [
        | inl root ↦
            let z : index ≡ 0 = (==_iff index 0).0 root in
            rw root (down (λ i pos ne. open_at.0 i pos (λ e. omega arith) ne, open_at.1))
        | inr inner ↦
            let pos : 0 < index = ground arith in
            elim (Bool-cases (above pred_gt xs (parent_of index) index)) [
              | inl behind ↦
                  rw (inner, sift_up_goes q index pos behind)
                    (sift_up_loop-InOrder pred_gt order index q index false (omega arith)
                      (going_up (λ i. get_elem? xs i) index behind pos open_at))
              | inr fine ↦
                  rw (inner, sift_up_stays q index fine)
                    (down (
                      λ i ipos ne. elim (Bool-cases (i == index)) [
                        | inl same ↦
                            let e : i ≡ index = (==_iff i index).0 same in
                            ap
                              (λ (k : ℕ).
                                compare_items pred_gt (get_elem? xs (parent_of k)) (get_elem? xs k))
                              e
                            ∙ fine
                        | inr other ↦ open_at.0 i ipos (λ (e : i ≡ index). ground arith) ne
                      ],
                      open_at.1,
                    ))
            ]
      ]
