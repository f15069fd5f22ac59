-- ===== src/ArrayList/Swap.antt =====
-- `aws_array_list_mem_swap`: slice by slice it exchanges two regions that do not overlap, whichever comes
-- first in memory.
use mathlib.Core.List.{append_assoc}
use aws_c_common.Prelude.{
  ℕ, zero, suc, ◌+◌, ◌*◌, ◌/◌, ◌%◌, ◌≡◌, refl, sym, ap, ◌∙◌, ◌++◌, arith, length,
}
use aws_c_common.Prelude.Lists.{length-append}
use aws_c_common.Prelude.Bytes.{Bytes, read_at, write_at, read-middle, write-middle, cut}
use aws_c_common.ArrayList.{swap_bytes, swap_slices, mem_swap}

-- Memory with two regions `x` and `y`.
abbrev pub regions : (a x b y c : Bytes) → Bytes
regions a x b y c = a ++ (x ++ (b ++ (y ++ c)))

-- The second region as the middle.
regions_second : (a x b y c : Bytes) → regions a x b y c ≡ (a ++ (x ++ b)) ++ (y ++ c)
regions_second a x b y c = simp append_assoc

length_before : (a x b : Bytes) → length (a ++ (x ++ b)) ≡ length a + length x + length b
length_before a x b = omega (arith, length-append a (x ++ b), length-append x b)

pub length-regions :
    (a x b y c : Bytes)
    → length (regions a x b y c) ≡ length a + length x + length b + length y + length c
length-regions a x b y c = omega (
  arith,
  length-append a (x ++ (b ++ (y ++ c))),
  length-append x (b ++ (y ++ c)),
  length-append b (y ++ c),
  length-append y c,
)

module _ (p q n : ℕ) (a x b y c : Bytes) (hp : p ≡ length a)
    (hq : q ≡ length a + length x + length b) (hx : length x ≡ n) (hy : length y ≡ n) where
  read_first : read_at p n (regions a x b y c) ≡ x
  read_first = read-middle p n a x (b ++ (y ++ c)) hp (sym hx)

  read_second : read_at q n (regions a x b y c) ≡ y
  read_second =
      rw regions_second
        (read-middle q n (a ++ (x ++ b)) y c (omega (arith, length_before a x b)) (sym hy))

  write_first : (v : Bytes) → length v ≡ n → write_at p v (regions a x b y c) ≡ regions a v b y c
  write_first v h = write-middle p a x (b ++ (y ++ c)) v hp (omega arith)

  write_second : (v : Bytes) → length v ≡ n → write_at q v (regions a x b y c) ≡ regions a x b v c
  write_second v h =
      ap (write_at q v) (regions_second a x b y c)
      ∙ write-middle q (a ++ (x ++ b)) y c v (omega (arith, length_before a x b)) (omega arith)
      ∙ sym (regions_second a x b v c)

-- An exchange of two regions of n bytes at two offsets.
abbrev Exchanges : (ℕ → ℕ → ℕ → Bytes → Bytes) → Type 0
Exchanges sw =
    (p q n : ℕ) (a x b y c : Bytes)
    → p ≡ length a
    → q ≡ length a + length x + length b
    → length x ≡ n
    → length y ≡ n
    → sw p q n (regions a x b y c) ≡ regions a y b x c

swap_bytes-Exchanges : Exchanges swap_bytes
unfolding swap_bytes
swap_bytes-Exchanges p q n a x b y c hp hq hx hy =
    rw
      (
        read_first p q n a x b y c hp hq hx hy,
        read_second p q n a x b y c hp hq hx hy,
        write_first p q n a x b y c hp hq hx hy y hy,
      )
      (write_second p q n a y b y c hp (omega arith) hy hy x hx)

swap_bytes-Exchanges_flip : Exchanges (λ p q. swap_bytes q p)
unfolding swap_bytes
swap_bytes-Exchanges_flip p q n a x b y c hp hq hx hy =
    rw
      (
        read_first p q n a x b y c hp hq hx hy,
        read_second p q n a x b y c hp hq hx hy,
        write_second p q n a x b y c hp hq hx hy x hx,
      )
      (write_first p q n a x b x c hp hq hx hx y hy)

-- The loop over the slices, for either order of the two regions.
slices_with : (ℕ → ℕ → ℕ → Bytes → Bytes) → ℕ → (p q remainder : ℕ) → Bytes → Bytes
slices_with sw zero p q m bs = sw p q m bs
slices_with sw (suc k) p q m bs = slices_with sw k (p + 128) (q + 128) m (sw p q 128 bs)

-- One slice, where the rest of both regions is exchanged afterwards.
slices-split :
    (sw : ℕ → ℕ → ℕ → Bytes → Bytes)
    → Exchanges sw
    → (k p q m : ℕ) (a x1 x2 b y1 y2 c : Bytes) → p ≡ length a
    → q ≡ length a + length x1 + length x2 + length b
    → length x1 ≡ 128
    → length y1 ≡ 128
    → slices_with sw k (p + 128) (q + 128) m (regions (a ++ y1) x2 (b ++ x1) y2 c)
      ≡ regions (a ++ y1) y2 (b ++ x1) x2 c
    → slices_with sw (suc k) p q m (regions a (x1 ++ x2) b (y1 ++ y2) c)
      ≡ regions a (y1 ++ y2) b (x1 ++ x2) c
unfolding slices_with
slices-split sw ex k p q m a x1 x2 b y1 y2 c hp hq hx hy rest =
    let split : regions a (x1 ++ x2) b (y1 ++ y2) c ≡ regions a x1 (x2 ++ b) y1 (y2 ++ c) =
      simp append_assoc in
    let first =
      ex p q 128 a x1 (x2 ++ b) y1 (y2 ++ c) hp (omega (arith, length-append x2 b)) hx hy in
    let moved : regions a y1 (x2 ++ b) x1 (y2 ++ c) ≡ regions (a ++ y1) x2 (b ++ x1) y2 c =
      simp append_assoc in
    let joined : regions (a ++ y1) y2 (b ++ x1) x2 c ≡ regions a (y1 ++ y2) b (x1 ++ x2) c =
      simp append_assoc in
    let go = slices_with sw k (p + 128) (q + 128) m in
    ap (λ bs. go (sw p q 128 bs)) split ∙ ap go (first ∙ moved) ∙ rest ∙ joined

slices-Exchanges :
    (sw : ℕ → ℕ → ℕ → Bytes → Bytes)
    → Exchanges sw
    → (k p q m n : ℕ) (a x b y c : Bytes) → p ≡ length a
    → q ≡ length a + length x + length b
    → length x ≡ n
    → length y ≡ n
    → n ≡ k * 128 + m
    → slices_with sw k p q m (regions a x b y c) ≡ regions a y b x c
slices-Exchanges sw ex zero p q m n a x b y c hp hq hx hy e =
    unfold slices_with in ex p q m a x b y c hp hq (omega arith) (omega arith)
slices-Exchanges sw ex (suc k) p q m n a x b y c hp hq hx hy e =
    let (x1, x2, ex1, l1) = cut 128 x (omega arith) in
    let (y1, y2, ey1, m1) = cut 128 y (omega arith) in
    let cx : length x ≡ length x1 + length x2 = ap length ex1 ∙ length-append x1 x2 in
    let cy : length y ≡ length y1 + length y2 = ap length ey1 ∙ length-append y1 y2 in
    let go = slices_with sw (suc k) p q m in
    ap (λ v. go (regions a v b y c)) ex1
    ∙ ap (λ w. go (regions a (x1 ++ x2) b w c)) ey1
    ∙ slices-split sw ex k p q m a x1 x2 b y1 y2 c hp (omega arith) l1 m1 (
        slices-Exchanges sw ex k (p + 128) (q + 128) m (k * 128 + m) (a ++ y1) x2 (b ++ x1) y2 c
          (omega (arith, length-append a y1))
          (omega (arith, length-append a y1, length-append b x1)) (omega arith) (omega arith) refl)
    ∙ ap (λ w. regions a w b (x1 ++ x2) c) (sym ey1)
    ∙ ap (λ v. regions a y b v c) (sym ex1)

slices_first :
    (k p q m : ℕ) (bs : Bytes) → swap_slices k p q m bs ≡ slices_with swap_bytes k p q m bs
unfolding swap_slices slices_with
slices_first zero p q m bs = refl
slices_first (suc k) p q m bs = slices_first k (p + 128) (q + 128) m (swap_bytes p q 128 bs)

slices_flip :
    (k p q m : ℕ) (bs : Bytes)
    → swap_slices k q p m bs ≡ slices_with (λ p q. swap_bytes q p) k p q m bs
unfolding swap_slices slices_with
slices_flip zero p q m bs = refl
slices_flip (suc k) p q m bs = slices_flip k (p + 128) (q + 128) m (swap_bytes q p 128 bs)

-- Two regions of n bytes that do not overlap change places, in either order of the arguments.
pub mem_swap-regions :
    (p q n : ℕ) (a x b y c : Bytes)
    → p ≡ length a
    → q ≡ length a + length x + length b
    → length x ≡ n
    → length y ≡ n
    → (mem_swap p q n (regions a x b y c) ≡ regions a y b x c)
      × (mem_swap q p n (regions a x b y c) ≡ regions a y b x c)
unfolding mem_swap
mem_swap-regions p q n a x b y c hp hq hx hy = (
  slices_first (n / 128) p q (n % 128) _
      ∙ slices-Exchanges swap_bytes swap_bytes-Exchanges (n / 128) p q (n % 128) n a x b y c hp hq
          hx hy (omega arith),
  slices_flip (n / 128) p q (n % 128) _
      ∙ slices-Exchanges (λ p q. swap_bytes q p) swap_bytes-Exchanges_flip (n / 128) p q (n % 128) n
          a x b y c hp hq hx hy (omega arith),
)
