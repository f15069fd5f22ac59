-- ===== src/ArrayList/Erase.antt =====
-- Removing any one item: `aws_array_list_erase`.
use native.Mathlib.Nat.{mul_comm}
use mathlib.Core.List.{append-nil, append_assoc}
use aws_c_common.Prelude.{
  ℕ, suc, ◌+◌, ◌-◌, ◌*◌, ◌≤◌, ◌<◌, ◌≡◌, refl, sym, ap, ◌∙◌, List, [], ◌∷◌, ◌++◌, ok, err,
  invalid_index, true, false, arith, length, take, drop, ltb, leb, ◌==◌, Bool-cases, inl, inr,
  subst, ==_iff,
}
use aws_c_common.Prelude.Lists.{length-append}
use aws_c_common.Prelude.Bytes.{Bytes, move_within, cut, take-append, drop-append, length-eq-zero}
use aws_c_common.ArrayList.{ArrayList, pop_front, pop_front_n, erase}
use aws_c_common.ArrayList.Holds.{
  flat, Sized-append, Sized-left, Sized-right, flat-append, cut_at, Holds,
}
use aws_c_common.ArrayList.Removal.{pop_back-Holds, pop_front_n-Holds, moved-Holds}

-- The list after its items behind one were moved down over that one.
shifted : ArrayList → ℕ → ArrayList
shifted l i = record l {
  data' =
      move_within (i * l.item_size) (i * l.item_size + l.item_size)
        ((l.length - i - 1) * l.item_size) l.data';
}

module _ (l : ArrayList) (ys : List Bytes) (x : Bytes) (zs : List Bytes)
    (h : Holds l (ys ++ (x ∷ zs))) where
  counted : l.length ≡ length ys + suc (length zs)
  counted = h.count ∙ length-append ys (x ∷ zs)

  shifted-Holds : (junk : Bytes) × Holds (shifted l (length ys)) ((ys ++ zs) ++ (junk ∷ []))
  unfolding shifted
  shifted-Holds =
      let s = l.item_size in
      let i = length ys in
      let sy = Sized-left s ys (x ∷ zs) h.sized in
      let right = Sized-right s ys (x ∷ zs) h.sized in
      let left : l.length - i - 1 ≡ length zs = omega (arith, counted) in
      let (t, eq, len) =
        moved-Holds l ys (x ∷ []) zs (i * s) (i * s + s) ((l.length - i - 1) * s) h (mul_comm i s)
          (omega arith) (ap (λ (n : ℕ). n * s) left ∙ mul_comm (length zs) s) in
      let (junk, c, eq', len') = cut s t (omega arith) in
      (
        junk,
        record {
          item_pos = h.item_pos;
          count = omega (arith, counted, length-append (ys ++ zs) (junk ∷ []), length-append ys zs);
          sized =
              Sized-append s (ys ++ zs) (junk ∷ []) (Sized-append s ys zs sy right.1) (len', tt);
          size = omega (
            arith,
            h.size,
            ap length eq,
            ap length h.layout,
            length-append (flat ys) (flat zs ++ t),
            length-append (flat zs) t,
            length-append (flat (ys ++ (x ∷ zs))) h.rest,
            ap length (flat-append ys (x ∷ zs)),
            length-append (flat ys) (x ++ flat zs),
            length-append x (flat zs),
            right.0,
          );
          word = h.word;
          rest = c;
          layout =
              eq
              ∙ ap (λ t. flat ys ++ (flat zs ++ t)) eq'
              ∙ sym (
                  ap (λ t. t ++ c)
                    (flat-append (ys ++ zs) (junk ∷ [])
                      ∙ ap (λ t. t ++ flat (junk ∷ [])) (flat-append ys zs))
                  ∙ simp (append_assoc, append-nil));
        },
      )

  erase_at : (l' : ArrayList) × (erase l (length ys) ≡ (l', ok tt)) × Holds l' (ys ++ zs)
  unfolding erase pop_front shifted
  erase_at =
      let i = length ys in
      let inside : leb l.length i ≡ false = ground (arith, counted) in
      elim (Bool-cases (i == 0)) [
        | inl first ↦
            let some_items : ltb 0 l.length ≡ true = ground (arith, counted) in
            let none : ys ≡ [] = length-eq-zero ys ((==_iff i 0).0 first) in
            (
              (pop_front l).0,
              rw (inside, first) refl,
              rw some_items (
                  subst (λ t. Holds (pop_front_n l 1) t)
                    (ap (λ t. drop 1 (t ++ (x ∷ zs))) none ∙ sym (ap (λ t. t ++ zs) none))
                    (pop_front_n-Holds l (ys ++ (x ∷ zs)) h 1)),
            )
        | inr behind ↦ elim (Bool-cases (i == l.length - 1)) [
          | inl last ↦
              let none : zs ≡ [] =
                length-eq-zero zs (omega (arith, counted, (==_iff i (l.length - 1)).0 last)) in
              let (l', eq, holds, less) =
                pop_back-Holds l ys x (subst (λ t. Holds l (ys ++ (x ∷ t))) none h) in
              (
                l',
                rw (inside, behind, last) (ap (λ r. (r.0, ok tt)) eq),
                subst (Holds l') (sym (ap (λ t. ys ++ t) none ∙ append-nil ys)) holds,
              )
          | inr between ↦
              let (junk, moved) = shifted-Holds in
              let (l', eq, holds, less) = pop_back-Holds (shifted l i) (ys ++ zs) junk moved in
              (l', rw (inside, behind, between) (ap (λ r. (r.0, ok tt)) eq), holds)
        ]
      ]

-- Erasing the item at an index within the list succeeds and leaves the items before it and those behind
-- it, in order. Erasing at any other index changes nothing and fails.
pub erase-Holds :
    (l : ArrayList) (xs : List Bytes)
    → Holds l xs
    → (i : ℕ)
    → (i < l.length
        → (l' : ArrayList) × (erase l i ≡ (l', ok tt)) × Holds l' (take i xs ++ drop (i + 1) xs))
      × (l.length ≤ i → erase l i ≡ (l, err invalid_index))
unfolding erase
erase-Holds l xs h i = (inside, λ beyond. let e : leb l.length i ≡ true = ground arith in rw e refl)
  where
    inside :
        i < l.length
        → (l' : ArrayList) × (erase l i ≡ (l', ok tt)) × Holds l' (take i xs ++ drop (i + 1) xs)
    inside p =
        let c = cut_at xs i (omega (arith, h.count)) in
        let (l', eq, holds) = erase_at l c.before c.item c.after (subst (Holds l) c.whole h) in
        let left : take i xs ≡ c.before =
          ap (take i) c.whole ∙ take-append i c.before (c.item ∷ c.after) (sym c.place) in
        let right : drop (i + 1) xs ≡ c.after =
          ap (drop (i + 1)) (c.whole ∙ sym (append_assoc c.before (c.item ∷ []) c.after))
          ∙ drop-append (i + 1) (c.before ++ (c.item ∷ [])) c.after
              (omega (arith, c.place, length-append c.before (c.item ∷ []))) in
        (l', ap (erase l) (sym c.place) ∙ eq, rw (left, right) holds)
