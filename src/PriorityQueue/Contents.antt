-- ===== src/PriorityQueue/Contents.antt =====
-- What a priority queue contains: no operation loses, doubles or makes up an item. The items are weighed
-- by any function; one that is 1 at some items and 0 elsewhere counts those.
use aws_c_common.Prelude.{
  ℕ, zero, suc, ◌+◌, ◌-◌, ◌≡◌, refl, ap, ◌∙◌, subst, Bool, true, false, not, ◌&&◌, List, [], ◌∷◌,
  ◌++◌, ltb, ◌==◌, if◌then◌else◌, Option, none, some, Result, ok, err, arith, length, get_elem?,
  set, take, Bool-cases, inl, inr, ==_iff, if_rule, some_eq,
}
use aws_c_common.Prelude.Lists.{get_elem?-set_self, get_elem?-set_ne, length-set}
use aws_c_common.Prelude.Weight.{weight, weight-append, weight-set, get_elem?-below}
use aws_c_common.PriorityQueue.{
  Container, PriorityQueue, push_item, drop_last, exchange, swap_items, swap, above, first_of,
  left_of, parent_of, sift_down_loop, sift_down, sift_up_loop, sift_up, sift_either, drop_item,
  remove_node, init_backpointers, store_backpointer, back_out, sift_new, link_new, push_ref,
}
use aws_c_common.PriorityQueue.Nodes.{swap-length}
use aws_c_common.PriorityQueue.Places.{get_elem?-inside}

module _ {A : Type 0} (f : A → ℕ) where
  -- The place b after its exchange with a, before it is written: what a held is there already where the
  -- places are one.
  second_place :
      (xs : List A) (a b : ℕ) (x y : A)
      → get_elem? xs a ≡ some x
      → get_elem? xs b ≡ some y
      → get_elem? (set xs a y) b ≡ some y
  second_place xs a b x y ex ey = elim (Bool-cases (a == b)) [
    | inl same ↦
        subst (λ (k : ℕ). get_elem? (set xs a y) k ≡ some y) ((==_iff a b).0 same)
          (get_elem?-set_self xs a y (get_elem?-below xs a x ex))
    | inr other ↦ get_elem?-set_ne xs y (λ (e : a ≡ b). ground arith) ∙ ey
  ]

  weight-swap_items : (xs : List A) (a b : ℕ) → weight f (swap_items xs a b) ≡ weight f xs
  unfolding swap_items exchange
  weight-swap_items xs a b = by_option (get_elem? xs a) (get_elem? xs b) refl refl
    where
      by_option :
          (o p : Option A)
          → get_elem? xs a ≡ o
          → get_elem? xs b ≡ p
          → weight f (exchange o p xs a b) ≡ weight f xs
      by_option none p eo ep = refl
      by_option (some x) none eo ep = refl
      by_option (some x) (some y) eo ep = omega (
        arith,
        weight-set f (set xs a y) b x y (second_place xs a b x y eo ep),
        weight-set f xs a y x eo,
      )

  -- Two queues with the same contents.
  abbrev Weighs : ℕ → PriorityQueue A → Type 0
  Weighs n q = weight f q.container.items ≡ n

  swap-weight : (q : PriorityQueue A) (a b : ℕ) → Weighs (weight f q.container.items) (swap q a b)
  unfolding swap
  swap-weight q a b = weight-swap_items q.container.items a b

  module _ (pred_gt : A → A → Bool) where
    sift_down_loop-Weighs :
        (fuel : ℕ) (q : PriorityQueue A) (root : ℕ) (moved : Bool)
        → Weighs (weight f q.container.items) (sift_down_loop pred_gt fuel q root moved).0
    unfolding sift_down_loop
    sift_down_loop-Weighs zero q root moved = refl
    sift_down_loop-Weighs (suc fuel) q root moved =
        let first = first_of pred_gt q.container.items root in
        if_rule (λ (r : PriorityQueue A × Bool). Weighs (weight f q.container.items) r.0)
          (ltb (left_of root) (length q.container.items) && not (first == root))
          (λ go.
            sift_down_loop-Weighs fuel (swap q first root) first true ∙ swap-weight q first root)
          (λ stop. refl)

    sift_up_loop-Weighs :
        (fuel : ℕ) (q : PriorityQueue A) (index : ℕ) (moved : Bool)
        → Weighs (weight f q.container.items) (sift_up_loop pred_gt fuel q index moved).0
    unfolding sift_up_loop
    sift_up_loop-Weighs zero q index moved = refl
    sift_up_loop-Weighs (suc fuel) q index moved =
        let parent = parent_of index in
        if_rule (λ (r : PriorityQueue A × Bool). Weighs (weight f q.container.items) r.0)
          (not (index == 0) && above pred_gt q.container.items parent index)
          (λ go.
            sift_up_loop-Weighs fuel (swap q index parent) parent true ∙ swap-weight q index parent)
          (λ stop. refl)

    sift_up-Weighs :
        (q : PriorityQueue A) (i : ℕ) → Weighs (weight f q.container.items) (sift_up pred_gt q i).0
    unfolding sift_up
    sift_up-Weighs q i = sift_up_loop-Weighs i q i false

    sift_either-Weighs :
        (q : PriorityQueue A) (i : ℕ)
        → Weighs (weight f q.container.items) (sift_either pred_gt q i)
    unfolding sift_either sift_down
    sift_either-Weighs q i =
        if_rule (Weighs (weight f q.container.items)) (i == 0)
          (λ top. sift_down_loop-Weighs (length q.container.items) q i false)
          (λ lower.
            let r = sift_up pred_gt q i in
            if_rule (Weighs (weight f q.container.items)) r.1 (λ moved. sift_up-Weighs q i)
              (λ still.
                sift_down_loop-Weighs (length r.0.container.items) r.0 i false
                ∙ sift_up-Weighs q i))

  weight-take :
      (xs : List A) (k : ℕ) (x : A)
      → length xs ≡ k + 1
      → get_elem? xs k ≡ some x
      → weight f (take k xs) + f x ≡ weight f xs
  weight-take [] k x e g = absurd (omega arith)
  weight-take (y ∷ []) zero x e g = let same : f y ≡ f x = ap f (some_eq g) in omega arith
  weight-take (y ∷ z ∷ xs) zero x e g = absurd (omega arith)
  weight-take (y ∷ xs) (suc k) x e g = omega (arith, weight-take xs k x (omega arith) g)

  swapped_last :
      (xs : List A) (i k : ℕ) (x y : A)
      → get_elem? xs i ≡ some x
      → get_elem? xs k ≡ some y
      → get_elem? (swap_items xs i k) k ≡ some x
  unfolding swap_items exchange
  swapped_last xs i k x y ex ey =
      rw (ex, ey)
        (get_elem?-set_self (set xs i y) k x
          (omega (arith, get_elem?-below xs k y ey, length-set xs i y)))

  drop_item-weight :
      (q : PriorityQueue A) (k : ℕ) (x : A)
      → length q.container.items ≡ k + 1
      → get_elem? q.container.items k ≡ some x
      → weight f (drop_item q k).container.items + f x ≡ weight f q.container.items
  unfolding drop_item drop_last
  drop_item-weight q k x e g =
      let last : length q.container.items - 1 ≡ k = omega arith in
      rw last (weight-take q.container.items k x e g)

  -- Removing the item at a place takes that item out of the queue and leaves all others, however often
  -- each occurs: whatever the items weigh, the rest and the removed item weigh as much as the queue did.
  pub remove_node-weight :
      (pred_gt : A → A → Bool) (q : PriorityQueue A) (item_index : ℕ) (item : A)
      → get_elem? q.container.items item_index ≡ some item
      → weight f (remove_node pred_gt q item_index).0.container.items + f item
        ≡ weight f q.container.items
  unfolding remove_node swap
  remove_node-weight pred_gt q i item e =
      let items = q.container.items in
      let k : ℕ = length items - 1 in
      let inside = get_elem?-below items i item e in
      let size : length items ≡ k + 1 = omega arith in
      let (last, el) = get_elem?-inside items k (omega arith) in
      rw (remove_node, e)
        (if_rule (λ (r : PriorityQueue A). weight f r.container.items + f item ≡ weight f items)
          (i == k)
          (λ same.
            drop_item-weight q k item size
              (subst (λ (j : ℕ). get_elem? items j ≡ some item) ((==_iff i k).0 same) e))
          (λ other.
            let sifted = sift_either-Weighs pred_gt (drop_item (swap q i k) k) i in
            let dropped =
              drop_item-weight (swap q i k) k item (swap-length q i k ∙ size)
                (moved i k last e el) in
            omega (arith, sifted, dropped, swap-weight q i k)))
    where
      moved :
          (i k : ℕ) (last : A)
          → get_elem? q.container.items i ≡ some item
          → get_elem? q.container.items k ≡ some last
          → get_elem? (swap q i k).container.items k ≡ some item
      moved i k last e el = swapped_last q.container.items i k item last e el

  sift_new-weight :
      (pred_gt : A → A → Bool) (q : PriorityQueue A) (p : Option ℕ) (index : ℕ)
      (stored : Result (Option (List (Option ℕ))))
      → (sift_new pred_gt q p index stored).1 ≡ ok tt
      → Weighs (weight f q.container.items) (sift_new pred_gt q p index stored).0
  unfolding sift_new back_out
  sift_new-weight pred_gt q p index (err e) h = absurd (ground arith)
  sift_new-weight pred_gt q p index (ok stored) h = sift_up-Weighs pred_gt _ index

  link_new-weight :
      (pred_gt : A → A → Bool) (q : PriorityQueue A) (p : Option ℕ) (index : ℕ)
      (made : Result (Option (List (Option ℕ))))
      → (link_new pred_gt q p index made).1 ≡ ok tt
      → Weighs (weight f q.container.items) (link_new pred_gt q p index made).0
  unfolding link_new back_out
  link_new-weight pred_gt q p index (err e) h = absurd (ground arith)
  link_new-weight pred_gt q p index (ok made) h =
      sift_new-weight pred_gt (record q { backpointers = made }) p index
        (store_backpointer p index made) h

  -- A push that succeeds adds its item to the queue and keeps all others, however often each occurs.
  pub push_ref-weight :
      (pred_gt : A → A → Bool) (q : PriorityQueue A) (item : A) (backpointer : Option ℕ)
      → (push_ref pred_gt q item backpointer).1 ≡ ok tt
      → weight f (push_ref pred_gt q item backpointer).0.container.items
        ≡ weight f q.container.items + f item
  unfolding push_ref push_item
  push_ref-weight pred_gt q item p = by_room (ltb (length q.container.items) q.container.limit)
    where
      result : Container A × Result (Unit {0}) → PriorityQueue A × Result (Unit {0})
      result (c, err e) = (record q { container = c }, err e)
      result (c, ok u) =
          link_new pred_gt (record q { container = c }) p (length c.items - 1)
            (init_backpointers p c.alloc (length c.items - 1) q.backpointers)

      pushed : Container A
      pushed = record q.container { items = q.container.items ++ (item ∷ []) }

      by_room :
          (b : Bool)
          → (result (if b then (pushed, ok tt) else (q.container, err q.container.full))).1 ≡ ok tt
          → weight f
              (result (
                if b
                then (pushed, ok tt)
                else (q.container, err q.container.full))).0.container.items
            ≡ weight f q.container.items + f item
      by_room true h =
          link_new-weight pred_gt (record q { container = pushed }) p (length pushed.items - 1)
            (init_backpointers p pushed.alloc (length pushed.items - 1) q.backpointers) h
          ∙ weight-append f q.container.items (item ∷ [])
          ∙ omega arith
      by_room false h = absurd (ground arith)
