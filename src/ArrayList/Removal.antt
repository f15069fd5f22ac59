-- ===== src/ArrayList/Removal.antt =====
-- Removals: `pop_back`, `pop_front_n`, `pop_front`, `clear` and `erase`.
use native.Mathlib.Nat.{mul_comm}
use mathlib.Core.List.{append-nil, append_assoc}
use aws_c_common.Prelude.{
  ℕ, suc, ◌+◌, ◌-◌, ◌*◌, ◌≡◌, refl, sym, ap, ◌∙◌, List, [], ◌∷◌, ◌++◌, ok, true, arith, length,
  replicate, take, drop, ltb, leb, if◌then◌else◌, Bool-cases, inl, inr, subst,
}
use aws_c_common.Prelude.Lists.{
  length-append, length-take, length-drop, take-append-drop, length-replicate,
}
use aws_c_common.Prelude.Bytes.{
  Bytes, read_at, write_at, move_within, read-middle, write-middle, cut,
  length-eq-zero as length-eq-zero-list,
}
use aws_c_common.ArrayList.{ArrayList, is_null, pop_back, clear, pop_front_n}
use aws_c_common.ArrayList.Holds.{flat, flat-append, length-flat, Sized-left, Sized-right, Holds}

-- Moving `c` down over `b` leaves some bytes behind it.
move-down :
    (p q n : ℕ) (a b c d : Bytes)
    → p ≡ length a
    → q ≡ length a + length b
    → n ≡ length c
    → (t : Bytes) × (move_within p q n (a ++ (b ++ (c ++ d))) ≡ a ++ (c ++ t))
      × (length t ≡ length b + length d)
unfolding move_within
move-down p q n a b c d hp hq hn =
    let (e, f, eq, len) =
      cut (length c) (b ++ (c ++ d)) (omega (arith, length-append b (c ++ d), length-append c d)) in
    let got : read_at q n (a ++ (b ++ (c ++ d))) ≡ c =
      ap (read_at q n) (sym (append_assoc a b (c ++ d)))
      ∙ read-middle q n (a ++ b) c d (omega (arith, length-append a b)) hn in
    (
      f,
      ap (λ v. write_at p v (a ++ (b ++ (c ++ d)))) got
          ∙ ap (λ t. write_at p c (a ++ t)) eq
          ∙ write-middle p a e f c hp (sym len),
      omega (arith, ap length eq, length-append e f, length-append b (c ++ d), length-append c d),
    )

module _ (l : ArrayList) where
  module _ (ys : List Bytes) (x : Bytes) (h : Holds l (ys ++ (x ∷ []))) where
    last_place :
        (l.length ≡ suc (length ys))
        × (l.item_size * (l.length - 1) ≡ length (flat ys))
        × (length x ≡ l.item_size)
    last_place =
        let s = l.item_size in
        let sy = Sized-left s ys (x ∷ []) h.sized in
        let n : l.length ≡ suc (length ys) = omega (arith, h.count, length-append ys (x ∷ [])) in
        let m : l.length - 1 ≡ length ys = omega arith in
        (
          n,
          ap (λ (k : ℕ). s * k) m ∙ sym (length-flat s ys sy),
          (Sized-right s ys (x ∷ []) h.sized).0,
        )

    -- Removing the last item leaves the others.
    pub pop_back-Holds :
        (l' : ArrayList) × (pop_back l ≡ (l', ok tt)) × Holds l' ys × (l'.length + 1 ≡ l.length)
    unfolding pop_back
    pop_back-Holds =
        let s = l.item_size in
        let (n, offset, one) = last_place in
        let some_items : ltb 0 l.length ≡ true = ground arith in
        let layout : l.data' ≡ flat ys ++ (x ++ h.rest) =
          h.layout
          ∙ ap (λ t. t ++ h.rest) (flat-append ys (x ∷ []))
          ∙ simp (append_assoc, append-nil) in
        let zeros : Bytes = replicate s 0 in
        let zeros_length : length zeros ≡ s = length-replicate s _ in
        let written =
          ap (write_at (s * (l.length - 1)) zeros) layout
          ∙ write-middle (s * (l.length - 1)) (flat ys) x h.rest zeros offset
              (zeros_length ∙ sym one) in
        (
          record l { data' = write_at (s * (l.length - 1)) zeros l.data'; length = l.length - 1 },
          rw some_items,
          record {
            item_pos = h.item_pos;
            count = omega arith;
            sized = Sized-left s ys (x ∷ []) h.sized;
            size = omega (
              arith,
              h.size,
              ap length written,
              ap length layout,
              one,
              zeros_length,
              length-append (flat ys) (x ++ h.rest),
              length-append x h.rest,
              length-append (flat ys) (zeros ++ h.rest),
              length-append zeros h.rest,
            );
            word = h.word;
            rest = zeros ++ h.rest;
            layout = written;
          },
          omega arith,
        )

  -- Items moved down over others.
  pub moved-Holds :
      (ys ms zs : List Bytes) (p q n : ℕ) (h : Holds l (ys ++ (ms ++ zs)))
      → p ≡ l.item_size * length ys
      → q ≡ p + l.item_size * length ms
      → n ≡ l.item_size * length zs
      → (t : Bytes) × (move_within p q n l.data' ≡ flat ys ++ (flat zs ++ t))
        × (length t ≡ l.item_size * length ms + length h.rest)
  moved-Holds ys ms zs p q n h hp hq hn =
      let s = l.item_size in
      let sy = Sized-left s ys (ms ++ zs) h.sized in
      let right = Sized-right s ys (ms ++ zs) h.sized in
      let sm = Sized-left s ms zs right in
      let sz = Sized-right s ms zs right in
      let layout : l.data' ≡ flat ys ++ (flat ms ++ (flat zs ++ h.rest)) =
        h.layout
        ∙ ap (λ t. t ++ h.rest)
            (flat-append ys (ms ++ zs) ∙ ap (λ t. flat ys ++ t) (flat-append ms zs))
        ∙ simp append_assoc in
      let (t, eq, len) =
        move-down p q n (flat ys) (flat ms) (flat zs) h.rest (omega (arith, length-flat s ys sy))
          (omega (arith, length-flat s ys sy, length-flat s ms sm))
          (omega (arith, length-flat s zs sz)) in
      (t, ap (move_within p q n) layout ∙ eq, omega (arith, length-flat s ms sm))

  -- Removing items from the front.
  drop_front :
      (ms zs : List Bytes) (h : Holds l (ms ++ zs))
      → Holds
          (record l {
            data' = move_within 0 (l.item_size * length ms) (length zs * l.item_size) l.data';
            length = length zs;
          })
          zs
  drop_front ms zs h =
      let s = l.item_size in
      let sm = Sized-left s ms zs h.sized in
      let sz = Sized-right s ms zs h.sized in
      let (t, eq, len) =
        moved-Holds [] ms zs 0 (s * length ms) (length zs * s) h (omega arith) (omega arith)
          (mul_comm (length zs) s) in
      record {
        item_pos = h.item_pos;
        count = refl;
        sized = sz;
        size = omega (
          arith,
          h.size,
          ap length eq,
          ap length h.layout,
          length-append (flat zs) t,
          length-append (flat (ms ++ zs)) h.rest,
          ap length (flat-append ms zs),
          length-append (flat ms) (flat zs),
          length-flat s ms sm,
        );
        word = h.word;
        rest = t;
        layout = eq;
      }

  clear-Holds : (xs : List Bytes) → Holds l xs → Holds (clear l) []
  unfolding clear
  clear-Holds xs h = by_data l.data' refl
    where
      by_data :
          (d : Bytes) → l.data' ≡ d → Holds (if is_null d then l else record l { length = 0 }) []
      by_data [] e =
          let none : length xs ≡ 0 =
            let pos = h.item_pos in
            let n = ap length (sym h.layout ∙ e) in
            grind (arith, length-append (flat xs) h.rest, length-flat l.item_size xs h.sized) in
          record {
            item_pos = h.item_pos;
            count = omega (arith, h.count);
            sized = tt;
            size = h.size;
            word = h.word;
            rest = l.data';
            layout = refl;
          }
      by_data (b ∷ bs) e = record {
        item_pos = h.item_pos;
        count = refl;
        sized = tt;
        size = h.size;
        word = h.word;
        rest = l.data';
        layout = refl;
      }

  -- Removing n items from the front leaves those behind them, if there are any.
  pub pop_front_n-Holds :
      (xs : List Bytes) → Holds l xs → (n : ℕ) → Holds (pop_front_n l n) (drop n xs)
  unfolding pop_front_n
  pop_front_n-Holds xs h n = elim (Bool-cases (leb l.length n)) [
    | inl all ↦
        let none : drop n xs ≡ [] =
          length-eq-zero-list (drop n xs) (ground (arith, length-drop n xs, h.count)) in
        rw (all, none) (clear-Holds xs h)
    | inr some_left ↦ elim (Bool-cases (ltb 0 n)) [
      | inr nothing ↦ let z : n ≡ 0 = ground arith in rw (some_left, nothing) (rw z h)
      | inl moving ↦
          let taken : length (take n xs) ≡ n = ground (arith, length-take n xs, h.count) in
          let left : length (drop n xs) ≡ l.length - n = omega (arith, length-drop n xs, h.count) in
          let whole = subst (Holds l) (sym (take-append-drop n xs)) h in
          rw (some_left, moving)
            (rw (← left) (
              subst
                (λ k.
                  Holds
                    (record l {
                      data' =
                          move_within 0 (l.item_size * k) (length (drop n xs) * l.item_size)
                            l.data';
                      length = length (drop n xs);
                    })
                    (drop n xs))
                taken (drop_front (take n xs) (drop n xs) whole)))
    ]
  ]
