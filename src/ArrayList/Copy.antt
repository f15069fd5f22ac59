-- ===== src/ArrayList/Copy.antt =====
-- Shrinking and copying lists: `aws_array_list_shrink_to_fit` and `aws_array_list_copy`.
use native.Mathlib.Nat.{mul_comm}
use aws_c_common.Prelude.{
  bail, ℕ, zero, suc, ◌*◌, ◌<◌, ◌≡◌, refl, sym, ap, ◌∙◌, List, [], ◌∷◌, ◌++◌, Result, ok, err,
  dest_copy_too_small, list_static_mode_cant_shrink, true, false, arith, length, ltb, leb,
  if◌then◌else◌, Bool-cases, inl, inr, ◌⊎◌, subst, leb→le, none, some, ◌==◌,
}
use aws_c_common.Prelude.Bytes.{Bytes, read_at, write_at}
use aws_c_common.Math.{mul_size_checked}
use aws_c_common.ArrayList.{ArrayList, shrink_to_fit, copy_items, copy}
use aws_c_common.ArrayList.Holds.{flat, Sized, Holds, Holds-room}
use aws_c_common.ArrayList.Growth.{capable}
use aws_c_common.ArrayList.Store.{Became}
use aws_c_common.ArrayList.Contents.{
  guarded_write, null_cases, placed-Holds, used, used_word, used_size, read_items, write_items,
}

module _ (mem_acquire : ℕ → Bytes) (fresh : (n : ℕ) → length (mem_acquire n) ≡ n) where
  acquired : (n : ℕ) → length (if ltb 0 n then mem_acquire n else []) ≡ n
  acquired zero = refl
  acquired (suc n) = let t : ltb 0 (suc n) ≡ true = ground arith in rw t (fresh (suc n))

  module _ (l : ArrayList) (xs : List Bytes) (h : Holds l xs) where
    -- Shrinking a dynamic list succeeds, keeps its items and leaves it just the memory they take. A
    -- static list stays as it is, and the call fails.
    pub shrink_to_fit-Holds :
        (l.alloc ≡ true
          → (l' : ArrayList) × (shrink_to_fit mem_acquire l ≡ (l', ok tt))
            × Became l xs l'
            × (l'.current_size ≡ l.length * l.item_size))
        × (l.alloc ≡ false → shrink_to_fit mem_acquire l ≡ (l, err list_static_mode_cant_shrink))
    unfolding shrink_to_fit
    shrink_to_fit-Holds = (
      λ dynamic. elim (Bool-cases (ltb n l.current_size)) [
        | inl less ↦
            let (tail, eq, len) = write_items l xs h (mem_acquire n) (omega (arith, fresh n)) in
            let blank : n ≡ 0 → flat xs ++ tail ≡ [] =
              λ z. empty (flat xs ++ tail) (omega (arith, fresh n)) in
            (
              small n,
              branch dynamic
                  ∙ ap (λ r. bail l r λ ideal_size. shrunk ideal_size) (used_size l xs h)
                  ∙ ap (λ b. if b then (small n, ok tt) else (l, ok tt)) less,
              (
                placed-Holds (small n) xs tail h.item_pos h.count h.sized (used_word l xs h)
                    (len ∙ fresh n)
                    (guarded (flat xs ++ tail) (write_at 0 (read_at 0 n l.data') (mem_acquire n)) eq
                      blank),
                refl,
                refl,
              ),
              refl,
            )
        | inr tight ↦
            let room = Holds-room l xs h in
            (
              l,
              branch dynamic
                  ∙ ap (λ r. bail l r λ ideal_size. shrunk ideal_size) (used_size l xs h)
                  ∙ ap (λ b. if b then (small n, ok tt) else (l, ok tt)) tight,
              (h, refl, refl),
              let product = mul_comm l.length l.item_size in ground arith,
            )
      ],
      λ static.
          ap
            (λ b.
              if b
              then bail l (mul_size_checked l.length l.item_size) shrunk
              else (l, err list_static_mode_cant_shrink))
            static,
    )
      where
        n : ℕ
        n = l.length * l.item_size

        small : ℕ → ArrayList
        small k = record l {
          data' = if ltb 0 k then write_at 0 (read_at 0 k l.data') (mem_acquire k) else [];
          current_size = k;
        }

        shrunk : ℕ → ArrayList × Result (Unit {0})
        shrunk k = if ltb k l.current_size then (small k, ok tt) else (l, ok tt)

        branch :
            l.alloc ≡ true
            → shrink_to_fit mem_acquire l ≡ bail l (mul_size_checked l.length l.item_size) shrunk
        branch e =
            ap
              (λ b.
                if b
                then bail l (mul_size_checked l.length l.item_size) shrunk
                else (l, err list_static_mode_cant_shrink))
              e

        empty : (bs : Bytes) → length bs ≡ 0 → bs ≡ []
        empty [] e = refl
        empty (b ∷ bs) e = absurd (omega arith)

        guarded :
            (bs written : Bytes)
            → written ≡ bs
            → (n ≡ 0 → bs ≡ [])
            → (if ltb 0 n then written else []) ≡ bs
        guarded bs written e z = elim (Bool-cases (ltb 0 n)) [
          | inl pos ↦ rw pos e
          | inr empty_now ↦ rw empty_now (sym (z (ground arith)))
        ]

  copy_items-Holds :
      (from to : ArrayList) (xs ys : List Bytes)
      → Holds from xs
      → Holds to ys
      → to.item_size ≡ from.item_size
      → (capable to (from.length * from.item_size) ≡ true
          → (to' : ArrayList) × (copy_items mem_acquire from to ≡ (to', ok tt)) × Became to xs to')
        × (capable to (from.length * from.item_size) ≡ false
            → copy_items mem_acquire from to ≡ (to, err dest_copy_too_small))
  unfolding copy_items
  copy_items-Holds from to xs ys h k same = elim (Bool-cases (leb n to.current_size)) [
    | inl room ↦
        let (tail, eq, len) =
          write_items from xs h to.data' (omega (arith, leb→le n to.current_size room, k.size)) in
        (
          λ can. (
            there,
            start ∙ ap (λ b. if b then (there, ok tt) else alloc_branch) room,
            (
              placed-Holds there xs tail k.item_pos h.count
                  (subst (λ s. Sized s xs) (sym same) h.sized) k.word (len ∙ k.size)
                  (guarded_write n (read_at 0 n from.data') to.data' read_length ∙ eq),
              refl,
              refl,
            ),
          ),
          λ cannot.
              absurd
                (let word = leb→le n to.current_size room in let word2 = k.word in ground arith),
        )
    | inr short ↦ elim (Bool-cases to.alloc) [
      | inl dynamic ↦
          let (tail, eq, len) = write_items from xs h (mem_acquire n) (omega (arith, fresh n)) in
          (
            λ can. (
              renewed,
              start
                  ∙ ap (λ b. if b then (there, ok tt) else alloc_branch) short
                  ∙ ap (λ b. if b then (renewed, ok tt) else (to, err dest_copy_too_small)) dynamic,
              (
                placed-Holds renewed xs tail k.item_pos h.count
                    (subst (λ s. Sized s xs) (sym same) h.sized) (used_word from xs h)
                    (len ∙ fresh n) eq,
                refl,
                refl,
              ),
            ),
            λ cannot. absurd (let word = used_word from xs h in ground arith),
          )
      | inr static ↦ (
        λ can. absurd (let word = used_word from xs h in ground arith),
        λ cannot.
            start
            ∙ ap (λ b. if b then (there, ok tt) else alloc_branch) short
            ∙ ap (λ b. if b then (renewed, ok tt) else (to, err dest_copy_too_small)) static,
      )
    ]
  ]
    where
      n : ℕ
      n = from.length * from.item_size

      there : ArrayList
      there = record to {
        data' = if ltb 0 n then write_at 0 (read_at 0 n from.data') to.data' else to.data';
        length = from.length;
      }

      renewed : ArrayList
      renewed = record to {
        data' = write_at 0 (read_at 0 n from.data') (mem_acquire n);
        length = from.length;
        current_size = n;
      }

      alloc_branch : ArrayList × Result (Unit {0})
      alloc_branch = if to.alloc then (renewed, ok tt) else (to, err dest_copy_too_small)

      read_length : length (read_at 0 n from.data') ≡ n
      read_length = ap length (read_items from xs h) ∙ sym (used from xs h)

      result : ℕ → ArrayList × Result (Unit {0})
      result c =
          if leb c to.current_size
          then (
            record to {
              data' = if ltb 0 c then write_at 0 (read_at 0 c from.data') to.data' else to.data';
              length = from.length;
            },
            ok tt,
          )
          else if to.alloc
          then (
            record to {
              data' = write_at 0 (read_at 0 c from.data') (mem_acquire c);
              length = from.length;
              current_size = c;
            },
            ok tt,
          )
          else (to, err dest_copy_too_small)

      start : copy_items mem_acquire from to ≡ result n
      start = ap (λ r. bail to r result) (used_size from xs h)

  -- Copying the items of a list over another list of items of that size aborts the program where the
  -- first has no memory. With memory, even for no items, it succeeds exactly when the other has the room or
  -- may take more. The other then holds the same items, in its own mode, and otherwise it stays as it is.
  pub copy-Holds :
      (from to : ArrayList) (xs ys : List Bytes)
      → Holds from xs
      → Holds to ys
      → to.item_size ≡ from.item_size
      → ((from.data' ≡ []) × (copy mem_acquire from to ≡ none))
        ⊎ ((0 < length from.data')
            × (capable to (from.length * from.item_size) ≡ true)
            × (to' : ArrayList) × (copy mem_acquire from to ≡ some (to', ok tt))
            × Became to xs to')
        ⊎ ((0 < length from.data')
            × (capable to (from.length * from.item_size) ≡ false)
            × (copy mem_acquire from to ≡ some (to, err dest_copy_too_small)))
  unfolding copy
  copy-Holds from to xs ys h k same =
      let (fits, refused) = copy_items-Holds from to xs ys h k same in
      let sizes : (from.item_size == to.item_size) ≡ true = ground arith in
      elim (null_cases from.data') [
        | inl (gone, null) ↦ inl (gone, rw (sizes, null) refl)
        | inr (there, null) ↦ elim (Bool-cases (capable to (from.length * from.item_size))) [
          | inl can ↦
              let (to', e, became) = fits can in
              inr (inl (there, can, to', rw (sizes, null) (ap some e), became))
          | inr cannot ↦ inr (inr (there, cannot, rw (sizes, null) (ap some (refused cannot))))
        ]
      ]
