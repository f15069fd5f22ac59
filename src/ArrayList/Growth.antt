-- ===== src/ArrayList/Growth.antt =====
-- Growth: `ensure_capacity`, `set_at`, `push_back` and `push_front`.
use mathlib.Core.List.{append-nil, append_assoc}
use aws_c_common.Prelude.{
  ℕ, ◌+◌, ◌*◌, ◌≤◌, ◌<◌, ◌%◌, ◌^◌, ◌≡◌, refl, sym, ap, ◌∙◌, List, [], ◌∷◌, ◌++◌, Result, ok, err,
  invalid_index, overflow_detected, Bool, true, false, ◌&&◌, ◌||◌, arith, length, ltb, leb,
  if◌then◌else◌, Bool-cases, inl, inr, ltb→lt, leb→le, ◌⊎◌,
}
use aws_c_common.Prelude.Lists.{length-append}
use aws_c_common.Prelude.Bytes.{Bytes, read_at, write_at, read-middle, write-middle, cut}
use aws_c_common.Math.{u64_max}
use aws_c_common.Math.Checked.{fit, add_size_checked-fit, mul_size_checked-fit}
use aws_c_common.ArrayList.{ArrayList, calc_necessary_size, grow, ensure_capacity, is_null}
use aws_c_common.ArrayList.Holds.{flat, Holds}

-- The list after a growth: nothing but the data and its size has changed, and `n` bytes fit.
pub record Grown (l l' : ArrayList) (n : ℕ) : Type 0 where
  pub alloc : l'.alloc ≡ l.alloc
  pub item_size : l'.item_size ≡ l.item_size
  pub length : l'.length ≡ l.length
  pub room : n ≤ l'.current_size

-- Whether a list can hold `n` bytes: dynamic lists up to the largest word, static ones what they have.
abbrev pub capable : ArrayList → ℕ → Bool
capable l n = leb n u64_max && (l.alloc || leb n l.current_size)

pub fit_ok : (top v : ℕ) → v ≤ top → fit top v ≡ ok v
unfolding fit
fit_ok top v h = ground arith

pub fit_err : (top v : ℕ) → top < v → fit top v ≡ err overflow_detected
unfolding fit
fit_err top v h = ground arith

necessary :
    (l : ArrayList) (index : ℕ)
    → 0 < l.item_size
    → index ≤ u64_max
    → calc_necessary_size l index ≡ fit u64_max ((index + 1) * l.item_size)
unfolding calc_necessary_size
necessary l index pos word = elim (Bool-cases (leb (index + 1) u64_max)) [
  | inl h ↦
      rw
        (add_size_checked-fit index 1 word (omega arith), fit_ok u64_max (index + 1) (leb→le _ _ h))
        (mul_size_checked-fit (index + 1) l.item_size)
  | inr h ↦
      let big : u64_max < index + 1 = ground arith in
      rw (
        add_size_checked-fit index 1 word (omega arith),
        fit_err u64_max (index + 1) big,
        fit_err u64_max ((index + 1) * l.item_size) (grind arith),
      )
]

read_all : (n : ℕ) (bs : Bytes) → length bs ≡ n → read_at 0 n bs ≡ bs
read_all n bs e = ap (read_at 0 n) (sym (append-nil bs)) ∙ read-middle 0 n [] bs [] refl (sym e)

lt→ltb_false : (a b : ℕ) → b ≤ a → ltb a b ≡ false
lt→ltb_false a b h = ground arith

abbrev new_size : ArrayList → ℕ → ℕ
new_size l n = if ltb n (l.current_size * 2 % 2 ^ 64) then l.current_size * 2 % 2 ^ 64 else n

new_size_bounds :
    (l : ArrayList) (n : ℕ) → n ≤ u64_max → (n ≤ new_size l n) × (new_size l n ≤ u64_max)
new_size_bounds l n h = ground arith

module _ (mem_acquire : ℕ → Bytes) (fresh : (n : ℕ) → length (mem_acquire n) ≡ n) where
  -- A copy of all of some bytes to the start of a larger allocation.
  pub copied :
      (n : ℕ) (bs : Bytes)
      → length bs ≤ n
      → (tail : Bytes) × (write_at 0 bs (mem_acquire n) ≡ bs ++ tail)
        × (length tail + length bs ≡ n)
  copied n bs h =
      let (a, c, e, len) = cut (length bs) (mem_acquire n) (omega (arith, fresh n)) in
      (
        c,
        ap (write_at 0 bs) e ∙ write-middle 0 [] a c bs refl (sym len),
        omega (arith, fresh n, ap length e, length-append a c),
      )

  module _ (l : ArrayList) (xs : List Bytes) (h : Holds l xs) where
    -- New memory with the old bytes in front holds the same items.
    regrown-Holds :
        (n : ℕ) (tail : Bytes)
        → n ≤ u64_max
        → length tail + length l.data' ≡ n
        → Holds (record l { data' = l.data' ++ tail; current_size = n }) xs
    regrown-Holds n tail word len = record {
      item_pos = h.item_pos;
      count = h.count;
      sized = h.sized;
      size = omega (arith, length-append l.data' tail);
      word = word;
      rest = h.rest ++ tail;
      layout = ap (λ t. t ++ tail) h.layout ∙ append_assoc (flat xs) h.rest tail;
    }

    grow_data :
        (n : ℕ)
        → l.current_size ≤ n
        → (tail : Bytes) × ((if is_null l.data'
              then mem_acquire n
              else write_at 0 (read_at 0 l.current_size l.data') (mem_acquire n))
            ≡ l.data' ++ tail)
          × (length tail + length l.data' ≡ n)
    grow_data n le = by_null l.data' h.size
      where
        by_null :
            (bs : Bytes)
            → length bs ≡ l.current_size
            → (tail : Bytes) × ((if is_null bs
                  then mem_acquire n
                  else write_at 0 (read_at 0 l.current_size bs) (mem_acquire n))
                ≡ bs ++ tail)
              × (length tail + length bs ≡ n)
        by_null [] e = (mem_acquire n, refl, omega (arith, fresh n))
        by_null (b ∷ bs) e =
            let (tail, eq, len) = copied n (b ∷ bs) (omega arith) in
            (
              tail,
              ap (λ t. write_at 0 t (mem_acquire n)) (read_all l.current_size (b ∷ bs) e) ∙ eq,
              len,
            )

    grow-Holds :
        (n : ℕ)
        → l.current_size < n
        → n ≤ u64_max
        → (l' : ArrayList) × (grow mem_acquire l n ≡ (l', ok tt)) × Holds l' xs × Grown l l' n
    unfolding grow
    grow-Holds n small word =
        let (low, high) = new_size_bounds l n word in
        let (tail, eq, len) = grow_data (new_size l n) (omega arith) in
        let test : ltb (new_size l n) l.current_size ≡ false =
          lt→ltb_false (new_size l n) l.current_size (omega arith) in
        (
          record l { data' = l.data' ++ tail; current_size = new_size l n },
          rw (test, eq),
          regrown-Holds (new_size l n) tail high len,
          record { alloc = refl; item_size = refl; length = refl; room = low },
        )

    -- What `ensure_capacity` does for `n` necessary bytes.
    abbrev pub Ensured : ℕ → ArrayList × Result (Unit {0}) → Type 0
    Ensured n r =
        ((l' : ArrayList) × (r ≡ (l', ok tt)) × Holds l' xs × Grown l l' n × (capable l n ≡ true))
        ⊎ ((r ≡ (l, err (if leb n u64_max then invalid_index else overflow_detected)))
            × (capable l n ≡ false))

    pub ensure-Ensured :
        (index : ℕ)
        → index ≤ u64_max
        → Ensured ((index + 1) * l.item_size) (ensure_capacity mem_acquire l index)
    unfolding ensure_capacity
    ensure-Ensured index word = elim (Bool-cases (leb n u64_max)) [
      | inr over ↦
          rw (necessary l index h.item_pos word, fit_err u64_max n (ground arith))
            (inr (rw over, rw over))
      | inl fits ↦
          rw (necessary l index h.item_pos word, fit_ok u64_max n (leb→le _ _ fits))
            (elim (Bool-cases (ltb l.current_size n)) [
              | inr there ↦ rw there (
                  inl (
                    l,
                    refl,
                    h,
                    record { alloc = refl; item_size = refl; length = refl; room = ground arith },
                    ground arith,
                  ))
              | inl short ↦ elim (Bool-cases l.alloc) [
                | inr static ↦
                    rw (short, fits)
                      (inr (
                        ap (λ b. if b then grow mem_acquire l n else (l, err invalid_index)) static,
                        ground arith,
                      ))
                | inl dynamic ↦
                    let (l', eq, holds, grown) =
                      grow-Holds n (ltb→lt _ _ short) (leb→le _ _ fits) in
                    let same =
                      ap (λ b. if b then grow mem_acquire l n else (l, err invalid_index))
                        dynamic in
                    rw short (inl (l', same ∙ eq, holds, grown, ground arith))
              ]
            ])
    ]
      where
        n : ℕ
        n = (index + 1) * l.item_size
