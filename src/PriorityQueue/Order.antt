-- ===== src/PriorityQueue/Order.antt =====
-- The heap order: no item is above its parent's, and `s_sift_up` restores it.
use aws_c_common.Prelude.{
  ℕ, zero, suc, ◌≤◌, ◌<◌, ◌≡◌, ◌≢◌, refl, sym, ap, ◌∙◌, subst, Bool, true, false, not, ◌&&◌, List,
  [], ◌∷◌, ◌==◌, Option, none, some, arith, length, get_elem?, set, Bool-cases, inl, inr, ==_iff,
  if_rule,
}
use mathlib.Core.Path.{ap₂}
use aws_c_common.Prelude.Lists.{length-set, get_elem?-set_self, get_elem?-set_ne}
use aws_c_common.PriorityQueue.{
  PriorityQueue, compare_items, above, parent_of, swap, swap_items, exchange, sift_up_loop,
}
use aws_c_common.PriorityQueue.Nodes.{parent_of-below}

-- The order of the callers' function: of two items at most one is behind the other, and being not
-- behind is transitive.
pub record Order {A : Type 0} (pred_gt : A → A → Bool) : Type 0 where
  pub asym : (x y : A) → pred_gt x y ≡ true → pred_gt y x ≡ false
  pub trans : (x y z : A) → pred_gt x y ≡ false → pred_gt y z ≡ false → pred_gt x z ≡ false

module _ {A : Type 0} (pred_gt : A → A → Bool) where
  abbrev pub At : Type 0
  At = ℕ → Option A

  abbrev pub BelowParent : At → (i j : ℕ) → Type 0
  BelowParent g i j = compare_items pred_gt (g i) (g j) ≡ false

  -- The heap order, and the heap order but for one place whose parent stands well above its children.
  abbrev pub Heap : At → Type 0
  Heap g = (i : ℕ) → 0 < i → BelowParent g (parent_of i) i

  abbrev pub Almost : At → ℕ → Type 0
  Almost g j =
      ((i : ℕ) → 0 < i → i ≢ j → BelowParent g (parent_of i) i)
      × ((i : ℕ) → 0 < i → parent_of i ≡ j → 0 < j → BelowParent g (parent_of j) i)

  pub compare-none : (o : Option A) → compare_items pred_gt o none ≡ false
  unfolding compare_items
  compare-none none = refl
  compare-none (some x) = refl

  module _ (order : Order pred_gt) where
    pub compare_asym :
        (o p : Option A) → compare_items pred_gt o p ≡ true → compare_items pred_gt p o ≡ false
    unfolding compare_items
    compare_asym none p e = compare-none p
    compare_asym (some x) none e = refl
    compare_asym (some x) (some y) e = order.asym x y e

    pub compare_trans :
        (o p : Option A) (y : A)
        → compare_items pred_gt o (some y) ≡ false
        → compare_items pred_gt (some y) p ≡ false
        → compare_items pred_gt o p ≡ false
    unfolding compare_items
    compare_trans none p y e f = refl
    compare_trans (some x) none y e f = refl
    compare_trans (some x) (some z) y e f = order.trans x y z e f

    -- One turn of `s_sift_up`: after the exchange with the parent, the parent's place is the open one.
    module _ (g g' : At) (j : ℕ) (x : A) (pos : 0 < j) (at_parent : g (parent_of j) ≡ some x)
        (first : g' j ≡ g (parent_of j)) (second : g' (parent_of j) ≡ g j)
        (others : (i : ℕ) → i ≢ j → i ≢ parent_of j → g' i ≡ g i)
        (behind : compare_items pred_gt (g (parent_of j)) (g j) ≡ true) (almost : Almost g j) where
      abbrev p : ℕ
      p = parent_of j

      low : p < j
      low = parent_of-below j pos

      up : compare_items pred_gt (g j) (g p) ≡ false
      up = compare_asym (g p) (g j) behind

      over :
          (o : Option A) (i : ℕ)
          → compare_items pred_gt o (g p) ≡ false
          → compare_items pred_gt (g p) (g i) ≡ false
          → compare_items pred_gt o (g i) ≡ false
      over o i e f =
          compare_trans o (g i) x (ap (compare_items pred_gt o) (sym at_parent) ∙ e)
            (ap (λ t. compare_items pred_gt t (g i)) (sym at_parent) ∙ f)

      turn-Almost : Almost g' p
      turn-Almost = (
        λ i ipos not_p. elim (Bool-cases (i == j)) [
          | inl same ↦
              let e : i ≡ j = (==_iff i j).0 same in
              ap₂ (compare_items pred_gt) (ap (λ (k : ℕ). g' (parent_of k)) e ∙ second)
                (ap g' e ∙ first)
              ∙ up
          | inr not_j ↦
              let ne : i ≢ j = ground arith in
              let here = others i ne not_p in
              elim (Bool-cases (parent_of i == j)) [
                | inl child ↦
                    let e : parent_of i ≡ j = (==_iff (parent_of i) j).0 child in
                    ap₂ (compare_items pred_gt) (ap g' e ∙ first) here ∙ almost.1 i ipos e pos
                | inr no_child ↦ elim (Bool-cases (parent_of i == p)) [
                  | inl sibling ↦
                      let e : parent_of i ≡ p = (==_iff (parent_of i) p).0 sibling in
                      ap₂ (compare_items pred_gt) (ap g' e ∙ second) here
                      ∙ over (g j) i up (
                          ap (λ (k : ℕ). compare_items pred_gt (g k) (g i)) (sym e)
                          ∙ almost.0 i ipos ne)
                  | inr far ↦
                      ap₂ (compare_items pred_gt)
                        (others (parent_of i) (λ e. ground arith) (λ e. ground arith)) here
                      ∙ almost.0 i ipos ne
                ]
              ]
        ],
        λ i ipos child ppos.
            let lower : parent_of p < p = parent_of-below p ppos in
            let l = low in
            let grand = others (parent_of p) (λ e. omega arith) (λ e. omega arith) in
            let p_ok = almost.0 p ppos (λ e. omega arith) in
            elim (Bool-cases (i == j)) [
              | inl same ↦
                  let e : i ≡ j = (==_iff i j).0 same in
                  ap₂ (compare_items pred_gt) grand (ap g' e ∙ first) ∙ p_ok
              | inr not_j ↦
                  let ne : i ≢ j = ground arith in
                  let above_i : parent_of i < i = parent_of-below i ipos in
                  ap₂ (compare_items pred_gt) grand (others i ne (λ e. omega arith))
                  ∙ over (g (parent_of p)) i p_ok (
                      ap (λ (k : ℕ). compare_items pred_gt (g k) (g i)) (sym child)
                      ∙ almost.0 i ipos ne)
            ],
      )

    -- A list is in heap order.
    abbrev pub InOrder : List A → Type 0
    InOrder xs = Heap (λ i. get_elem? xs i)

    pub swap_items-places :
        (xs : List A) (a b : ℕ) (x y : A)
        → a ≢ b
        → get_elem? xs a ≡ some x
        → get_elem? xs b ≡ some y
        → (get_elem? (swap_items xs a b) a ≡ some y)
          × (get_elem? (swap_items xs a b) b ≡ some x)
          × ((i : ℕ) → i ≢ a → i ≢ b → get_elem? (swap_items xs a b) i ≡ get_elem? xs i)
    unfolding swap_items exchange
    swap_items-places xs a b x y ne ex ey =
        let la = inside xs a x ex in
        let lb = inside xs b y ey in
        rw (ex, ey)
          (
            get_elem?-set_ne (set xs a y) x (λ e. ne (sym e)) ∙ get_elem?-set_self xs a y la,
            get_elem?-set_self (set xs a y) b x (omega (arith, length-set xs a y)),
            λ i not_a not_b.
                get_elem?-set_ne (set xs a y) x (λ e. not_b (sym e))
                ∙ get_elem?-set_ne xs y (λ e. not_a (sym e)),
          )
      where
        inside : (xs : List A) (i : ℕ) (x : A) → get_elem? xs i ≡ some x → i < length xs
        inside [] i x e = absurd (ground arith)
        inside (y ∷ xs) zero x e = omega arith
        inside (y ∷ xs) (suc i) x e = omega (arith, inside xs i x e)

    pub both_there :
        (o p : Option A)
        → compare_items pred_gt o p ≡ true
        → (x : A) × (y : A) × (o ≡ some x) × (p ≡ some y)
    unfolding compare_items
    both_there none p e = absurd (ground arith)
    both_there (some x) none e = absurd (ground arith)
    both_there (some x) (some y) e = (x, y, refl, refl)

    turn :
        (xs : List A) (j : ℕ)
        → 0 < j
        → above pred_gt xs (parent_of j) j ≡ true
        → Almost (λ i. get_elem? xs i) j
        → Almost (λ i. get_elem? (swap_items xs j (parent_of j)) i) (parent_of j)
    unfolding above
    turn xs j pos behind almost =
        let (x, y, ep, ej) = both_there (get_elem? xs (parent_of j)) (get_elem? xs j) behind in
        let low = parent_of-below j pos in
        let (at_j, at_p, others) =
          swap_items-places xs j (parent_of j) y x (λ e. omega arith) ej ep in
        turn-Almost (λ i. get_elem? xs i) (λ i. get_elem? (swap_items xs j (parent_of j)) i) j x pos
          ep (at_j ∙ sym ep) (at_p ∙ sym ej) others behind almost

    top_open : (xs : List A) → Almost (λ i. get_elem? xs i) 0 → InOrder xs
    top_open xs almost i pos = almost.0 i pos (λ e. omega arith)

    pub sift_up_loop-InOrder :
        (fuel : ℕ) (q : PriorityQueue A) (index : ℕ) (moved : Bool)
        → index ≤ fuel
        → Almost (λ i. get_elem? q.container.items i) index
        → InOrder (sift_up_loop pred_gt fuel q index moved).0.container.items
    unfolding sift_up_loop swap above
    sift_up_loop-InOrder zero q index moved enough almost =
        let z : index ≡ 0 = omega arith in
        top_open q.container.items (subst (Almost (λ i. get_elem? q.container.items i)) z almost)
    sift_up_loop-InOrder (suc fuel) q index moved enough almost =
        let parent = parent_of index in
        if_rule (λ (r : PriorityQueue A × Bool). InOrder r.0.container.items)
          (not (index == 0) && above pred_gt q.container.items parent index)
          (λ go.
            let pos : 0 < index = ground arith in
            let behind : above pred_gt q.container.items parent index ≡ true = ground arith in
            let low = parent_of-below index pos in
            sift_up_loop-InOrder fuel (swap q index parent) parent true (omega arith)
              (swapped q index (turn q.container.items index pos behind almost)))
          (λ stop. stopped q index almost stop)
      where
        swapped :
            (q : PriorityQueue A) (index : ℕ)
            → Almost
                (λ i. get_elem? (swap_items q.container.items index (parent_of index)) i)
                (parent_of index)
            → Almost
                (λ i. get_elem? (swap q index (parent_of index)).container.items i)
                (parent_of index)
        swapped q index h = h

        stopped :
            (q : PriorityQueue A) (index : ℕ)
            → Almost (λ i. get_elem? q.container.items i) index
            → (not (index == 0) && above pred_gt q.container.items (parent_of index) index) ≡ false
            → InOrder q.container.items
        stopped q index almost stop i pos = elim (Bool-cases (i == index)) [
          | inl same ↦
              let e : i ≡ index = (==_iff i index).0 same in
              let fine : above pred_gt q.container.items (parent_of index) index ≡ false =
                ground arith in
              subst (λ (k : ℕ). above pred_gt q.container.items (parent_of k) k ≡ false) (sym e)
                fine
          | inr other ↦ almost.0 i pos (λ (e : i ≡ index). ground arith)
        ]
