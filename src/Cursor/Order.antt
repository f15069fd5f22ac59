-- ===== src/Cursor/Order.antt =====
-- The conversions of include/aws/common/byte_order.inl: on a host of either byte order they leave an
-- integer's bytes in memory with the high one first, and they undo themselves.
use aws_c_common.Prelude.{
  ℕ, ◌+◌, ◌*◌, ◌/◌, ◌%◌, ◌^◌, ◌<◌, ◌≡◌, refl, sym, ap, ◌∙◌, Bool, true, false, ◌∷◌, ◌++◌, arith,
  bit_or,
}
use mathlib.Core.Path.{ap₂}
use aws_c_common.Prelude.Lists.{drop}
use aws_c_common.Prelude.Bytes.{Bytes}
use aws_c_common.Prelude.Bits.{bit_and-mask, bit_or_apart}
use aws_c_common.Cursor.{
  low_first, high_first, from_low_first, from_high_first, host_bytes, host_integer, hton16, ntoh16,
  hton32, ntoh32, hton64, ntoh64,
}

cons_eq : {a b : ℕ} {xs ys : Bytes} → a ≡ b → xs ≡ ys → (a ∷ xs) ≡ (b ∷ ys)
cons_eq e f = ap₂ ◌∷◌ e f

pub stored16 : (big : Bool) (y : ℕ) → y < 2 ^ 16 → host_bytes big 2 (hton16 big y) ≡ high_first 2 y
unfolding host_bytes hton16 high_first low_first
stored16 true y h = refl
stored16 false y h = cons_eq (omega arith) (cons_eq (omega arith) refl)

pub stored32 : (big : Bool) (y : ℕ) → y < 2 ^ 32 → host_bytes big 4 (hton32 big y) ≡ high_first 4 y
unfolding host_bytes hton32 high_first low_first
stored32 true y h = refl
stored32 false y h =
    cons_eq (omega arith)
      (cons_eq (omega arith) (cons_eq (omega arith) (cons_eq (omega arith) refl)))

swapped-lt : (y : ℕ) → hton32 false y < 2 ^ 32
unfolding hton32
swapped-lt y = omega arith

swapped_twice : (y : ℕ) → y < 2 ^ 32 → hton32 false (hton32 false y) ≡ y
unfolding hton32
swapped_twice y h = omega arith

halves : (y : ℕ) → hton64 false y ≡ hton32 false (y % 2 ^ 32) * 2 ^ 32 + hton32 false (y / 2 ^ 32)
unfolding hton64
halves y =
    let low = bit_and-mask 32 y in
    let l = swapped-lt (y % 2 ^ 32) in
    let fits : hton32 false (y % 2 ^ 32) * 2 ^ 32 % 2 ^ 64 ≡ hton32 false (y % 2 ^ 32) * 2 ^ 32 =
      omega arith in
    ap (λ (t : ℕ). bit_or (hton32 false t * 2 ^ 32 % 2 ^ 64) (hton32 false (y / 2 ^ 32))) low
    ∙ ap (λ (t : ℕ). bit_or t (hton32 false (y / 2 ^ 32))) fits
    ∙ bit_or_apart 32 (hton32 false (y % 2 ^ 32)) (hton32 false (y / 2 ^ 32))
        (swapped-lt (y / 2 ^ 32))

untouched : (y : ℕ) → hton64 true y ≡ y
unfolding hton64
untouched y = refl

hton64_twice : (big : Bool) (y : ℕ) → y < 2 ^ 64 → hton64 big (hton64 big y) ≡ y
hton64_twice true y h = untouched (hton64 true y) ∙ untouched y
hton64_twice false y h =
    let l = hton32 false (y % 2 ^ 32) in
    let u = hton32 false (y / 2 ^ 32) in
    let u_low = swapped-lt (y / 2 ^ 32) in
    let e = halves y in
    let first : hton64 false y % 2 ^ 32 ≡ u = omega arith in
    let second : hton64 false y / 2 ^ 32 ≡ l = omega arith in
    let a = swapped_twice (y % 2 ^ 32) (omega arith) in
    let b = swapped_twice (y / 2 ^ 32) (omega arith) in
    let sum : y / 2 ^ 32 * 2 ^ 32 + y % 2 ^ 32 ≡ y = omega arith in
    halves (hton64 false y)
    ∙ ap₂ (λ (s t : ℕ). hton32 false s * 2 ^ 32 + hton32 false t) first second
    ∙ ap₂ (λ (s t : ℕ). s * 2 ^ 32 + t) b a
    ∙ sum

hton64-lt : (y : ℕ) → hton64 false y < 2 ^ 64
hton64-lt y =
    let l = swapped-lt (y % 2 ^ 32) in
    let u = swapped-lt (y / 2 ^ 32) in let e = halves y in omega arith

low_first-sum :
    (l u : ℕ) → u < 2 ^ 32 → low_first 8 (l * 2 ^ 32 + u) ≡ low_first 4 u ++ low_first 4 l
unfolding low_first
low_first-sum l u h = cons_eq (omega arith) (
    cons_eq (omega arith) (
      cons_eq (omega arith) (
        cons_eq (omega arith) (
          cons_eq (omega arith)
            (cons_eq (omega arith) (cons_eq (omega arith) (cons_eq (omega arith) refl)))))))

high_first-halves :
    (y : ℕ) → high_first 4 (y / 2 ^ 32) ++ high_first 4 (y % 2 ^ 32) ≡ high_first 8 y
unfolding high_first
high_first-halves y = cons_eq (omega arith) (
    cons_eq (omega arith) (
      cons_eq (omega arith) (
        cons_eq (omega arith) (
          cons_eq (omega arith)
            (cons_eq (omega arith) (cons_eq (omega arith) (cons_eq (omega arith) refl)))))))

high_bytes : (n x : ℕ) → host_bytes true n x ≡ high_first n x
unfolding host_bytes
high_bytes n x = refl

low_bytes : (n x : ℕ) → host_bytes false n x ≡ low_first n x
unfolding host_bytes
low_bytes n x = refl

pub stored64 : (big : Bool) (y : ℕ) → y < 2 ^ 64 → host_bytes big 8 (hton64 big y) ≡ high_first 8 y
stored64 true y h = high_bytes 8 (hton64 true y) ∙ ap (high_first 8) (untouched y)
stored64 false y h =
    let l = hton32 false (y % 2 ^ 32) in
    let u = hton32 false (y / 2 ^ 32) in
    let upper = sym (low_bytes 4 u) ∙ stored32 false (y / 2 ^ 32) (omega arith) in
    let lower = sym (low_bytes 4 l) ∙ stored32 false (y % 2 ^ 32) (omega arith) in
    low_bytes 8 (hton64 false y)
    ∙ ap (low_first 8) (halves y)
    ∙ low_first-sum l u (swapped-lt (y / 2 ^ 32))
    ∙ ap₂ ◌++◌ upper lower
    ∙ high_first-halves y

-- The host's integer of the bytes that it stores.
integer16 : (big : Bool) (z : ℕ) → z < 2 ^ 16 → host_integer big (host_bytes big 2 z) ≡ z
unfolding host_integer host_bytes from_high_first from_low_first high_first low_first
integer16 true z h = omega arith
integer16 false z h = omega arith

integer32 : (big : Bool) (z : ℕ) → z < 2 ^ 32 → host_integer big (host_bytes big 4 z) ≡ z
unfolding host_integer host_bytes from_high_first from_low_first high_first low_first
integer32 true z h = omega arith
integer32 false z h = omega arith

integer64 : (big : Bool) (z : ℕ) → z < 2 ^ 64 → host_integer big (host_bytes big 8 z) ≡ z
unfolding host_integer host_bytes from_high_first from_low_first high_first low_first
integer64 true z h = omega arith
integer64 false z h = omega arith

pub ntoh16_lem :
    (big : Bool) (y : ℕ) → y < 2 ^ 16 → ntoh16 big (host_integer big (high_first 2 y)) ≡ y
unfolding ntoh16 hton16 high_first host_bytes
ntoh16_lem true y h = integer16 true y h
ntoh16_lem false y h =
    let back =
      ap (host_integer false) (sym (stored16 false y h))
      ∙ integer16 false (hton16 false y) (omega arith) in
    ap (hton16 false) back ∙ omega arith

pub ntoh32_lem :
    (big : Bool) (y : ℕ) → y < 2 ^ 32 → ntoh32 big (host_integer big (high_first 4 y)) ≡ y
unfolding ntoh32 hton32 high_first host_bytes
ntoh32_lem true y h = integer32 true y h
ntoh32_lem false y h =
    let back =
      ap (host_integer false) (sym (stored32 false y h))
      ∙ integer32 false (hton32 false y) (swapped-lt y) in
    ap (hton32 false) back ∙ swapped_twice y h

pub ntoh64_lem :
    (big : Bool) (y : ℕ) → y < 2 ^ 64 → ntoh64 big (host_integer big (high_first 8 y)) ≡ y
unfolding ntoh64
ntoh64_lem big y h =
    ap (λ (bs : Bytes). hton64 big (host_integer big bs)) (sym (stored64 big y h))
    ∙ ap (hton64 big) (integer64 big (hton64 big y) (below big))
    ∙ hton64_twice big y h
  where
    below : (b : Bool) → hton64 b y < 2 ^ 64
    below true = let e = untouched y in omega arith
    below false = hton64-lt y

-- Three bytes of four.
pub stored24 :
    (big : Bool) (y : ℕ) → y < 2 ^ 24 → drop 1 (host_bytes big 4 (hton32 big y)) ≡ high_first 3 y
unfolding high_first
stored24 big y h = ap (drop 1) (stored32 big y (omega arith))

pub below_zero_lem : (y : ℕ) → y < 2 ^ 24 → (0 ∷ high_first 3 y) ≡ high_first 4 y
unfolding high_first
below_zero_lem y h = cons_eq (omega arith) refl
