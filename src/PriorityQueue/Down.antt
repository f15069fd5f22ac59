-- ===== src/PriorityQueue/Down.antt =====
-- `s_sift_down` restores the heap order below a place.
use mathlib.Core.Path.{ap₂}
use aws_c_common.Prelude.{
  ℕ, ◌+◌, ◌-◌, ◌*◌, ◌^◌, ◌<◌, ◌≡◌, ◌≢◌, refl, sym, ap, ◌∙◌, Bool, true, false, ◌&&◌, List, ltb,
  ◌==◌, none, some, arith, length, get_elem?, Bool-cases, inl, inr, ◌⊎◌, ==_iff,
}
use aws_c_common.Prelude.Bits.{bit_and-one}
use aws_c_common.ArrayList.Holds.{get_elem?-beyond}
use aws_c_common.PriorityQueue.{compare_items, above, parent_of, left_of, right_of, first_of}
use aws_c_common.PriorityQueue.Nodes.{parent_of-below}
use aws_c_common.PriorityQueue.Order.{
  Order, At, BelowParent, compare-none, compare_asym, compare_trans, both_there,
}

-- The places whose parent is j are the two that `LEFT_OF` and `RIGHT_OF` name.
pub left_of_lem : (j : ℕ) → j < 2 ^ 63 → left_of j ≡ j * 2 + 1
unfolding left_of
left_of_lem j small = omega arith

pub right_of_lem : (j : ℕ) → j < 2 ^ 63 - 1 → right_of j ≡ j * 2 + 2
unfolding right_of
right_of_lem j small = omega arith

pub parent_of-left : (j : ℕ) → parent_of (j * 2 + 1) ≡ j
unfolding parent_of
parent_of-left j = ground (arith, bit_and-one (j * 2 + 1))

pub parent_of-right : (j : ℕ) → parent_of (j * 2 + 2) ≡ j
unfolding parent_of
parent_of-right j = ground (arith, bit_and-one (j * 2 + 2))

pub child_of : (i j : ℕ) → 0 < i → parent_of i ≡ j → (i ≡ j * 2 + 1) ⊎ (i ≡ j * 2 + 2)
unfolding parent_of
child_of i j pos e = ground (arith, bit_and-one i)

module _ {A : Type 0} (pred_gt : A → A → Bool) where
  -- The heap order but for the children of one place, which are below its parent all the same.
  abbrev pub DownOpen : At pred_gt → ℕ → Type 0
  DownOpen g j =
      ((i : ℕ) → 0 < i → parent_of i ≢ j → BelowParent pred_gt g (parent_of i) i)
      × ((i : ℕ) → 0 < i → parent_of i ≡ j → 0 < j → BelowParent pred_gt g (parent_of j) i)

  -- One turn of `s_sift_down`, at whose end f has the item that was above it.
  module _ (g g' : At pred_gt) (j f c : ℕ) (low : j < f) (parent : parent_of f ≡ j)
      (kids : (i : ℕ) → 0 < i → parent_of i ≡ j → (i ≡ f) ⊎ (i ≡ c))
      (over : compare_items pred_gt (g f) (g j) ≡ false)
      (over_other : compare_items pred_gt (g f) (g c) ≡ false) (first : g' j ≡ g f)
      (second : g' f ≡ g j) (others : (i : ℕ) → i ≢ f → i ≢ j → g' i ≡ g i)
      (open_at : DownOpen g j) where
    below_child : (i : ℕ) → 0 < i → i ≢ f → parent_of i ≡ j → BelowParent pred_gt g' (parent_of i) i
    below_child i pos ne child =
        let above_i = parent_of-below i pos in
        let other : i ≡ c = elim (kids i pos child) [ inl same ↦ absurd (ne same) | inr e ↦ e ] in
        ap₂ (compare_items pred_gt) (ap g' child ∙ first)
          (others i ne (λ e. omega arith) ∙ ap g other)
        ∙ over_other

    pub turn-DownOpen : DownOpen g' f
    turn-DownOpen = (
      λ i pos ne. elim (Bool-cases (i == f)) [
        | inl here ↦
            let e : i ≡ f = (==_iff i f).0 here in
            ap₂ (compare_items pred_gt) (ap (λ (k : ℕ). g' (parent_of k)) e ∙ ap g' parent ∙ first)
              (ap g' e ∙ second)
            ∙ over
        | inr not_f ↦
            let nf : i ≢ f = ground arith in
            elim (Bool-cases (parent_of i == j)) [
              | inl child ↦ below_child i pos nf ((==_iff (parent_of i) j).0 child)
              | inr far ↦
                  let nj : parent_of i ≢ j = ground arith in
                  let up = others (parent_of i) ne nj in
                  elim (Bool-cases (i == j)) [
                    | inl root ↦
                        let e : i ≡ j = (==_iff i j).0 root in
                        ap₂ (compare_items pred_gt) up (ap g' e ∙ first)
                        ∙ ap (λ (k : ℕ). compare_items pred_gt (g (parent_of k)) (g f)) e
                        ∙ open_at.1 f (omega arith) parent (omega arith)
                    | inr not_j ↦
                        let ni : i ≢ j = ground arith in
                        ap₂ (compare_items pred_gt) up (others i nf ni) ∙ open_at.0 i pos nj
                  ]
            ]
      ],
      λ i pos child fpos.
          let above_i = parent_of-below i pos in
          let up : parent_of i ≢ j = λ e. omega arith in
          ap₂ (compare_items pred_gt) (ap g' parent ∙ first)
            (others i (λ e. omega arith) (λ e. omega arith))
          ∙ ap (λ (k : ℕ). compare_items pred_gt (g k) (g i)) (sym child)
          ∙ open_at.0 i pos up,
    )

  -- The child that `s_sift_down` takes, c being the other one.
  abbrev pub Chosen : List A → (j f c : ℕ) → Type 0
  Chosen xs j f c =
      (j < f)
      × (parent_of f ≡ j)
      × ((i : ℕ) → 0 < i → parent_of i ≡ j → (i ≡ f) ⊎ (i ≡ c))
      × ((x : A) × (get_elem? xs j ≡ some x))
      × ((y : A) × (get_elem? xs f ≡ some y))
      × (compare_items pred_gt (get_elem? xs f) (get_elem? xs j) ≡ false)
      × (compare_items pred_gt (get_elem? xs f) (get_elem? xs c) ≡ false)

  module _ (order : Order pred_gt) (xs : List A) (j : ℕ) (small : j < 2 ^ 63 - 1) where
    abbrev pub cmp : (i k : ℕ) → Bool
    cmp i k = compare_items pred_gt (get_elem? xs i) (get_elem? xs k)

    left_taken :
        cmp j (j * 2 + 1) ≡ true
        → cmp (j * 2 + 1) (j * 2 + 2) ≡ false
        → Chosen xs j (j * 2 + 1) (j * 2 + 2)
    left_taken up fine =
        let (x, y, ex, ey) =
          both_there pred_gt order (get_elem? xs j) (get_elem? xs (j * 2 + 1)) up in
        (
          omega arith,
          parent_of-left j,
          λ i pos e. child_of i j pos e,
          (x, ex),
          (y, ey),
          compare_asym pred_gt order (get_elem? xs j) (get_elem? xs (j * 2 + 1)) up,
          fine,
        )

    right_taken :
        cmp (j * 2 + 2) j ≡ false
        → (x : A) → get_elem? xs j ≡ some x
        → (y : A) → get_elem? xs (j * 2 + 2) ≡ some y
        → cmp (j * 2 + 2) (j * 2 + 1) ≡ false
        → Chosen xs j (j * 2 + 2) (j * 2 + 1)
    right_taken over x ex y ey fine = (
      omega arith,
      parent_of-right j,
      λ i pos e. elim (child_of i j pos e) [ inl l ↦ inr l | inr r ↦ inl r ],
      (x, ex),
      (y, ey),
      over,
      fine,
    )

    -- The right child is behind neither.
    right_of_left :
        cmp j (j * 2 + 1) ≡ true
        → cmp (j * 2 + 1) (j * 2 + 2) ≡ true
        → Chosen xs j (j * 2 + 2) (j * 2 + 1)
    right_of_left up more =
        let (x, l, ex, el) =
          both_there pred_gt order (get_elem? xs j) (get_elem? xs (j * 2 + 1)) up in
        let (_, r, _, er) =
          both_there pred_gt order (get_elem? xs (j * 2 + 1)) (get_elem? xs (j * 2 + 2)) more in
        let one = compare_asym pred_gt order (get_elem? xs j) (get_elem? xs (j * 2 + 1)) up in
        let two =
          compare_asym pred_gt order (get_elem? xs (j * 2 + 1)) (get_elem? xs (j * 2 + 2)) more in
        right_taken
          (compare_trans pred_gt order (get_elem? xs (j * 2 + 2)) (get_elem? xs j) l
            (ap (compare_items pred_gt (get_elem? xs (j * 2 + 2))) (sym el) ∙ two)
            (ap (λ o. compare_items pred_gt o (get_elem? xs j)) (sym el) ∙ one))
          x ex r er two

    right_of_root :
        cmp j (j * 2 + 1) ≡ false → cmp j (j * 2 + 2) ≡ true → Chosen xs j (j * 2 + 2) (j * 2 + 1)
    right_of_root fine more =
        let (x, r, ex, er) =
          both_there pred_gt order (get_elem? xs j) (get_elem? xs (j * 2 + 2)) more in
        let two = compare_asym pred_gt order (get_elem? xs j) (get_elem? xs (j * 2 + 2)) more in
        right_taken two x ex r er (
          compare_trans pred_gt order (get_elem? xs (j * 2 + 2)) (get_elem? xs (j * 2 + 1)) x
            (ap (compare_items pred_gt (get_elem? xs (j * 2 + 2))) (sym ex) ∙ two)
            (ap (λ o. compare_items pred_gt o (get_elem? xs (j * 2 + 1))) (sym ex) ∙ fine))

    -- Without the test of the length, which only spares a comparison.
    right_test : (k : ℕ) → (ltb (j * 2 + 2) (length xs) && cmp k (j * 2 + 2)) ≡ cmp k (j * 2 + 2)
    right_test k = elim (Bool-cases (ltb (j * 2 + 2) (length xs))) [
      | inl inside ↦ rw inside refl
      | inr outside ↦
          let gone : get_elem? xs (j * 2 + 2) ≡ none =
            get_elem?-beyond xs (j * 2 + 2) (ground arith) in
          let no_more : cmp k (j * 2 + 2) ≡ false =
            ap (compare_items pred_gt (get_elem? xs k)) gone
            ∙ compare-none pred_gt (get_elem? xs k) in
          rw (outside, no_more) refl
    ]

    pub first_of-cases :
        ((first_of pred_gt xs j ≡ j) × (cmp j (j * 2 + 1) ≡ false) × (cmp j (j * 2 + 2) ≡ false))
        ⊎ ((c : ℕ) × Chosen xs j (first_of pred_gt xs j) c)
    unfolding first_of above
    first_of-cases =
        let l = left_of_lem j (omega arith) in
        let r = right_of_lem j small in
        elim (Bool-cases (cmp j (j * 2 + 1))) [
          | inl up ↦ elim (Bool-cases (cmp (j * 2 + 1) (j * 2 + 2))) [
            | inl more ↦
                inr (j * 2 + 1, rw (l, r, up, right_test (j * 2 + 1), more) (right_of_left up more))
            | inr fine ↦
                inr (j * 2 + 2, rw (l, r, up, right_test (j * 2 + 1), fine) (left_taken up fine))
          ]
          | inr fine ↦ elim (Bool-cases (cmp j (j * 2 + 2))) [
            | inl more ↦
                inr (j * 2 + 1, rw (l, r, fine, right_test j, more) (right_of_root fine more))
            | inr too ↦ inl (rw (l, r, fine, right_test j, too) refl, fine, too)
          ]
        ]
