-- ===== src/PriorityQueue/Linking.antt =====
-- The part of `aws_priority_queue_push_ref` behind the push onto the container: storing the pointer to the
-- node, and sifting or backing out.
use aws_c_common.Prelude.{
  ℕ, ◌+◌, ◌-◌, ◌*◌, ◌≡◌, refl, sym, ap, ◌∙◌, subst, Bool, true, false, not, List, [], ◌∷◌, ◌++◌,
  ltb, if◌then◌else◌, Option, none, some, Result, ok, err, Error, arith, length, replicate,
  Bool-cases, inl, inr, ◌⊎◌, unsupported_operation, overflow_detected,
}
use aws_c_common.Prelude.Lists.{length-append, length-replicate}
use aws_c_common.Prelude.Bytes.{take-append}
use aws_c_common.Math.{u64_max}
use aws_c_common.PriorityQueue.{
  PriorityQueue, point, drop_last, set_pointer, init_backpointers, store_backpointer, back_out,
  sift_new, link_new, node_size,
}
use aws_c_common.PriorityQueue.Nodes.{Tracks, Tracked, Labels, Leaves}
use aws_c_common.PriorityQueue.Places.{get_elem?-append_found}
use aws_c_common.PriorityQueue.Dropping.{
  Fresh, append-Tracks, append-Labels, append-Leaves, node_at-replicate, node_at-nulls,
}
use aws_c_common.PriorityQueue.Tracking.{sift_up-Kept}

module _ {A : Type 0} (pred_gt : A → A → Bool) (node_of : A → Option ℕ) (away : ℕ → ℕ)
    (q : PriorityQueue A) (old : List A) (item : A) (index : ℕ)
    (pushed : q.container.items ≡ old ++ (item ∷ [])) (place : length old ≡ index) where
  size : length q.container.items ≡ index + 1
  size = ap (length {A = A}) pushed ∙ length-append old (item ∷ []) ∙ ap (λ (n : ℕ). n + 1) place

  back : drop_last q.container.items ≡ old
  unfolding drop_last
  back =
      ap (drop_last {A = A}) pushed
      ∙ take-append (length (old ++ (item ∷ [])) - 1) old (item ∷ [])
          (omega (arith, length-append old (item ∷ [])))

  -- The push has succeeded, or the queue's items are those before it.
  abbrev pub Outcome : PriorityQueue A × Result (Unit {0}) → Type 0
  Outcome (r, res) =
      Tracked node_of away r
      × (((res ≡ ok tt) × (length r.container.items ≡ index + 1))
          ⊎ ((e : Error) × (res ≡ err e) × (r.container.items ≡ old)))

  -- The pointers and the nodes before the push, and those of the queue with the item at its end.
  abbrev pub Before : Option (List (Option ℕ)) → Type 0
  Before ps = Tracks ps q.nodes index × Labels node_of old ps × Leaves away ps q.nodes

  abbrev Stored : Option (List (Option ℕ)) → Option ℕ → Type 0
  Stored ps p =
      Tracks ps (point q.nodes p index) (index + 1)
      × Labels node_of (old ++ (item ∷ [])) ps
      × Leaves away ps (point q.nodes p index)

  sifted-Outcome :
      (stored : Option (List (Option ℕ))) (p : Option ℕ) (ps : Option (List (Option ℕ)))
      → Stored stored p
      → Outcome (sift_new pred_gt (record q { backpointers = ps }) p index (ok stored))
  unfolding sift_new
  sifted-Outcome stored p ps (t, l, o) =
      let start : PriorityQueue A = record q {
        backpointers = stored;
        nodes = point q.nodes p index;
      } in
      let kept = sift_up-Kept pred_gt node_of away start index (omega (arith, size)) (
        subst (Tracks stored (point q.nodes p index)) (sym size) t,
        subst (λ (xs : List A). Labels node_of xs stored) (sym pushed) l,
        o,
      ) in
      (kept.0, inl (refl, kept.1 ∙ size))

  backed-Outcome :
      (ps : Option (List (Option ℕ))) (e : Error)
      → Before ps
      → Outcome (back_out (record q { backpointers = ps }) e)
  unfolding back_out
  backed-Outcome ps e (t, l, o) = (
    (
      subst (λ (xs : List A). Tracks ps q.nodes (length xs)) (sym back)
          (subst (Tracks ps q.nodes) (sym place) t),
      subst (λ (xs : List A). Labels node_of xs ps) (sym back) l,
      o,
    ),
    inr (e, refl, back),
  )

  -- The new pointer goes behind the others.
  appended-Stored :
      (ps : List (Option ℕ)) (p : Option ℕ)
      → p ≡ node_of item
      → Before (some ps)
      → Fresh (some ps) p
      → Stored (some (ps ++ (p ∷ []))) p
  appended-Stored ps p own (t, l, o) fresh =
      let tracked =
        subst (λ (k : ℕ). Tracks (some (ps ++ (p ∷ []))) (point q.nodes p k) (k + 1)) t.0
          (append-Tracks ps q.nodes p t.1 fresh) in
      let labelled =
        subst (λ (r : Option ℕ). Labels node_of (old ++ (item ∷ [])) (some (ps ++ (r ∷ []))))
          (sym own) (append-Labels node_of old item ps (t.0 ∙ sym place) l) in
      let left =
        subst (λ (k : ℕ). Leaves away (some (ps ++ (p ∷ []))) (point q.nodes p k)) t.0
          (append-Leaves away ps q.nodes p o) in
      (tracked, labelled, left)

  stored-Outcome :
      (ps : List (Option ℕ)) (p : Option ℕ)
      → p ≡ node_of item
      → Before (some ps)
      → Fresh (some ps) p
      → Outcome (
          sift_new pred_gt
            (record q { backpointers = some ps })
            p
            index
            (store_backpointer p index (some ps)))
  unfolding store_backpointer set_pointer sift_new
  stored-Outcome ps p own (t, l, o) fresh =
      elim (Bool-cases (ltb u64_max ((index + 1) * node_size))) [
        | inl over ↦ rw over (backed-Outcome (some ps) overflow_detected (t, l, o))
        | inr fits ↦
            let outside : ltb index (length ps) ≡ false = ground (arith, t.0) in
            let none_between : index - length ps ≡ 0 = omega (arith, t.0) in
            rw (fits, outside, none_between)
              (sifted-Outcome (some (ps ++ (p ∷ []))) p (some ps)
                (appended-Stored ps p own (t, l, o) fresh))
      ]

  -- The first pointer goes behind null pointers for the items there are.
  nulls-Before : Before none → Before (some (replicate index none))
  nulls-Before (t, l, o) = (
    (length-replicate index _, λ i m e. absurd (node_at-replicate index i m e)),
    λ i x e. node_at-nulls index i ∙ l i x e,
    λ n h. o n (λ i e. h i (node_at-nulls index i ∙ e)),
  )

  first-Outcome :
      (n : ℕ)
      → some n ≡ node_of item
      → Before none
      → ltb u64_max ((index + 1) * node_size) ≡ false
      → Outcome (
          sift_new pred_gt
            (record q { backpointers = some [] })
            (some n)
            index
            (store_backpointer (some n) index (some [])))
  unfolding store_backpointer set_pointer
  first-Outcome n own before fits =
      let nulls : List (Option ℕ) = replicate index none in
      let outside : ltb index 0 ≡ false = ground arith in
      let all_between : index - 0 ≡ index = omega arith in
      rw (fits, outside, all_between)
        (sifted-Outcome (some (nulls ++ (some n ∷ []))) (some n) (some []) (
          appended-Stored nulls (some n) own (nulls-Before before)
            (λ i m e. node_at-replicate index i m)))

  -- Without a list of pointers and without a node nothing is stored.
  none-Stored : none ≡ node_of item → Before none → Stored none none
  unfolding point
  none-Stored own (t, l, o) = (
    tt,
    λ i x e. elim (get_elem?-append_found old item i x e) [
      | inl (low, here) ↦ l i x here
      | inr (at_end, new) ↦ own ∙ ap node_of new
    ],
    o,
  )

  pub link-Outcome :
      (ps : Option (List (Option ℕ))) (p : Option ℕ)
      → p ≡ node_of item
      → q.backpointers ≡ ps
      → Before ps
      → Fresh ps p
      → Outcome (link_new pred_gt q p index (init_backpointers p q.container.alloc index ps))
  unfolding link_new init_backpointers store_backpointer
  link-Outcome none none own same before fresh =
      sifted-Outcome none none none (none-Stored own before)
  link-Outcome (some ps) none own same before fresh = stored-Outcome ps none own before fresh
  link-Outcome (some ps) (some n) own same before fresh =
      stored-Outcome ps (some n) own before fresh
  link-Outcome none (some n) own same before fresh =
      elim (Bool-cases (ltb u64_max ((index + 1) * node_size))) [
        | inl over ↦
            by_alloc q.container.alloc
              (λ dynamic. rw over (backed-Outcome q.backpointers overflow_detected kept))
        | inr fits ↦
            by_alloc q.container.alloc (λ dynamic. rw fits (first-Outcome n own before fits))
      ]
    where
      kept : Before q.backpointers
      kept = subst Before (sym same) before

      by_alloc :
          (b : Bool)
          → (b ≡ true
              → Outcome (
                  link_new pred_gt q (some n) index (
                    if ltb u64_max ((index + 1) * node_size)
                    then err overflow_detected
                    else ok (some []))))
          → Outcome (
              link_new pred_gt q (some n) index (
                if not b
                then err unsupported_operation
                else if ltb u64_max ((index + 1) * node_size)
                then err overflow_detected
                else ok (some [])))
      by_alloc false k = backed-Outcome q.backpointers unsupported_operation kept
      by_alloc true k = k refl
