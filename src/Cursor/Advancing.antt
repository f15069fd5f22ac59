-- ===== src/Cursor/Advancing.antt =====
-- `aws_byte_cursor_advance_nospec` does what `aws_byte_cursor_advance` does, by a mask.
use aws_c_common.Prelude.{
  ℕ, ◌+◌, ◌-◌, ◌*◌, ◌/◌, ◌%◌, ◌^◌, ◌≤◌, ◌<◌, ◌≡◌, refl, ap, ◌∙◌, true, false, ◌&&◌, ◌||◌, ltb, leb,
  if◌then◌else◌, inl, inr, arith, Bool-cases, bit_and, bit_or,
}
use aws_c_common.Prelude.Bits.{bit_and-mask, bit_or_bound, bit_or_above}
use aws_c_common.Math.{u64_max}
use aws_c_common.Cursor.{Cursor, half_max, moved_ptr, nospec_mask, advance, advance_nospec}

-- From the joined bits to the mask: only the highest one counts.
mask_of :
    (m : ℕ)
    → m < 2 ^ 64
    → (u64_max - m) / (u64_max - half_max) * u64_max % 2 ^ 64
      ≡ (if ltb m (2 ^ 63) then u64_max else 0)
mask_of m small = elim (Bool-cases (ltb m (2 ^ 63))) [
  | inl low ↦
      let one : (u64_max - m) / (u64_max - half_max) ≡ 1 = ground arith in
      rw (one, low) (omega arith)
  | inr high ↦
      let none : (u64_max - m) / (u64_max - half_max) ≡ 0 = ground arith in
      rw (none, high) (omega arith)
]

-- The mask has all bits for an index below a bound without its highest bit, and none else.
pub nospec_mask-exact :
    (index bound : ℕ)
    → index < 2 ^ 64
    → bound < 2 ^ 64
    → nospec_mask index bound ≡ (if ltb index bound && ltb bound (2 ^ 63) then u64_max else 0)
unfolding nospec_mask
nospec_mask-exact index bound hi hb =
    let t = (bound + 2 ^ 64 - index + 2 ^ 64 - 1) % 2 ^ 64 in
    let t_low : t < 2 ^ 64 = omega arith in
    let n = bit_or index bound in
    let n_low = bit_or_bound 64 index bound hi hb in
    let n_above = bit_or_above index bound in
    let m_low = bit_or_bound 64 n t n_low t_low in
    let m_above = bit_or_above n t in
    mask_of (bit_or n t) m_low ∙ elim (Bool-cases (ltb index bound && ltb bound (2 ^ 63))) [
      | inl inside ↦
          let small = bit_or_bound 63 index bound (ground arith) (ground arith) in
          let t_small : t < 2 ^ 63 = ground arith in
          let all = bit_or_bound 63 n t small t_small in
          let low : ltb (bit_or n t) (2 ^ 63) ≡ true = ground arith in rw (low, inside) refl
      | inr outside ↦
          let high : ltb (bit_or n t) (2 ^ 63) ≡ false = ground arith in rw (high, outside) refl
    ]

word_mask : (x : ℕ) → x < 2 ^ 64 → bit_and x u64_max ≡ x
word_mask x small = bit_and-mask 64 x ∙ (let e : x % 2 ^ 64 ≡ x = omega arith in e)

-- What the two calls do where the check lets the length through.
abbrev masked : Cursor → (n mask : ℕ) → Cursor × Cursor
masked cursor n mask = (
  record {
    len = (bit_and cursor.len mask + 2 ^ 64 - bit_and n mask) % 2 ^ 64;
    ptr = moved_ptr (bit_and cursor.ptr mask) (bit_and n mask);
  },
  record { len = bit_and (bit_and n mask) mask; ptr = bit_and cursor.ptr mask },
)

abbrev plain : Cursor → (n : ℕ) → Cursor × Cursor
plain cursor n = (
  record { len = cursor.len - n; ptr = moved_ptr cursor.ptr n },
  record { len = n; ptr = cursor.ptr },
)

-- They do the same, with all bits of the mask set.
masked_move :
    (cursor : Cursor) (n mask : ℕ)
    → mask ≡ u64_max
    → n ≤ cursor.len
    → cursor.len < half_max
    → cursor.ptr < 2 ^ 64
    → masked cursor n mask ≡ plain cursor n
masked_move cursor n mask all inside short address =
    let a = word_mask n (omega arith) in
    let b = word_mask cursor.len (omega arith) in
    let c = word_mask cursor.ptr address in
    let d : (cursor.len + 2 ^ 64 - n) % 2 ^ 64 ≡ cursor.len - n = omega arith in
    rw (all, a, a, b, c, d) refl

-- For a cursor of less than SIZE_MAX / 2 bytes at a 64-bit address, advancing through the mask and advancing
-- by a plain check leave the same cursor and return the same one, whatever the length that is asked for.
pub advance_nospec-advance :
    (cursor : Cursor) (n : ℕ)
    → cursor.len < half_max
    → cursor.ptr < 2 ^ 64
    → advance_nospec cursor n ≡ advance cursor n
unfolding advance_nospec advance
advance_nospec-advance cursor n short address =
    elim (Bool-cases (leb n cursor.len && leb n half_max && leb cursor.len half_max)) [
      | inr refused ↦
          let out : (ltb half_max cursor.len || ltb half_max n || ltb cursor.len n) ≡ true =
            ground arith in
          rw (refused, out) refl
      | inl inside ↦
          let fits : (ltb half_max cursor.len || ltb half_max n || ltb cursor.len n) ≡ false =
            ground arith in
          let bound : (cursor.len + 1) % 2 ^ 64 ≡ cursor.len + 1 = omega arith in
          let below : (ltb n (cursor.len + 1) && ltb (cursor.len + 1) (2 ^ 63)) ≡ true =
            ground arith in
          let exact : nospec_mask n (cursor.len + 1)
              ≡ (if ltb n (cursor.len + 1) && ltb (cursor.len + 1) (2 ^ 63) then u64_max else 0) =
            nospec_mask-exact n (cursor.len + 1) (ground arith) (omega arith) in
          let all : nospec_mask n ((cursor.len + 1) % 2 ^ 64) ≡ u64_max =
            ap (nospec_mask n) bound ∙ exact ∙ (rw below refl) in
          rw (inside, fits)
            (masked_move cursor n (nospec_mask n ((cursor.len + 1) % 2 ^ 64)) all (ground arith)
              short address)
    ]
