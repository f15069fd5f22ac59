-- ===== src/Cursor/Integers.antt =====
-- Integers in network order: what is written to a buffer is read back by a cursor.
use aws_c_common.Prelude.{
  ℕ, zero, suc, ◌+◌, ◌-◌, ◌%◌, ◌^◌, ◌≤◌, ◌<◌, ◌≡◌, refl, sym, ap, ◌∙◌, Bool, true, false, ◌||◌, ltb,
  [], ◌∷◌, ◌==◌, Option, some, arith, length, get_or, Bool-cases, inl, inr, ◌⊎◌,
}
use aws_c_common.Prelude.Lists.{take, drop, length-take}
use aws_c_common.Prelude.Bytes.{Bytes, read_at, write_at, read-middle, length-write_at}
use aws_c_common.ByteBuf.{ByteBuf}
use aws_c_common.Cursor.{
  Cursor, half_max, advance, bytes_at, read, high_first, host_integer, ntoh16, ntoh32, ntoh64,
  integer_read, below_zero, read_be16, read_be24, read_be32, read_be64, write, write_be16,
  write_be24, write_be32, write_be64,
}
use aws_c_common.Cursor.Order.{
  stored16, stored24, stored32, stored64, ntoh16_lem, ntoh32_lem, ntoh64_lem, below_zero_lem,
}
use aws_c_common.Cursor.Advancing.{advance_nospec-advance}

-- A buffer that stands in memory from an address on.
unfoldable pub memory_of : (start : ℕ) → Bytes → (ℕ → ℕ)
memory_of start bytes address = get_or bytes (address - start) 0

-- The cursor over a part of it.
abbrev pub cursor_at : (start off n : ℕ) → Cursor
cursor_at start off n = record { len = n; ptr = start + off }

pub get_or-drop :
    (off : ℕ) (bs : Bytes) → off < length bs → drop off bs ≡ get_or bs off 0 ∷ drop (off + 1) bs
get_or-drop zero [] h = absurd (omega arith)
get_or-drop zero (b ∷ bs) h = refl
get_or-drop (suc off) [] h = absurd (omega arith)
get_or-drop (suc off) (b ∷ bs) h =
    let e : suc off + 1 ≡ suc (off + 1) = omega arith in rw e (get_or-drop off bs (omega arith))

pub bytes_at-memory_of :
    (start off n : ℕ) (bs : Bytes)
    → off + n ≤ length bs
    → bytes_at (memory_of start bs) (start + off) n ≡ read_at off n bs
unfolding bytes_at memory_of read_at
bytes_at-memory_of start off zero bs h = refl
bytes_at-memory_of start off (suc n) bs h =
    let here : start + off - start ≡ off = omega arith in
    let next : start + off + 1 ≡ start + (off + 1) = omega arith in
    rw (get_or-drop off bs (omega arith), here, next)
      (ap (◌∷◌ (get_or bs off 0)) (bytes_at-memory_of start (off + 1) n bs (omega arith)))

length-high_first : (n x : ℕ) → length (high_first n x) ≡ n
unfolding high_first
length-high_first zero x = refl
length-high_first (suc n) x = ap suc (length-high_first n x)

-- Reading from a buffer what stands at an offset of it.
read_lem :
    (start off n : ℕ) (bs : Bytes)
    → 0 < n
    → n < half_max
    → 0 < start
    → start + off + n < 2 ^ 64
    → off + n ≤ length bs
    → read (memory_of start bs) (cursor_at start off n) n
      ≡ (cursor_at start (off + n) 0, some (read_at off n bs))
unfolding read advance
read_lem start off n bs pos small there address inside =
    let move = advance_nospec-advance (cursor_at start off n) n small (omega arith) in
    let fits : (ltb half_max n || ltb half_max n || ltb n n) ≡ false = ground arith in
    let zero_n : (n == 0) ≡ false = ground arith in
    let zero_p : (start + off == 0) ≡ false = ground arith in
    let none_left : n - n ≡ 0 = omega arith in
    let place : start + off + n ≡ start + (off + n) = omega arith in
    rw (move, fits, zero_n, zero_p, none_left, place, bytes_at-memory_of start off n bs inside) refl

read_at-write_at :
    (off n : ℕ) (vs bs : Bytes)
    → length vs ≡ n
    → off ≤ length bs
    → read_at off n (write_at off vs bs) ≡ vs
unfolding write_at
read_at-write_at off n vs bs len inside =
    read-middle off n (take off bs) vs (drop (off + length vs) bs)
      (let l = length-take off bs in omega arith) (sym len)

-- The n bytes of a value go, the high one first, behind the old end of a buffer with room for them, and
-- are what a cursor over them reads, which it leaves at the new end. Without room nothing is written.
abbrev pub Comes :
    (start : ℕ)
    → ByteBuf
    → ByteBuf × Bool
    → ((ℕ → ℕ) → Cursor → Cursor × Option ℕ)
    → (n v : ℕ) → Type 0
Comes start buf written read_back n v =
    ((buf.len + n ≤ buf.capacity)
      × (written.1 ≡ true)
      × (written.0.len ≡ buf.len + n)
      × (read_at buf.len n written.0.buffer ≡ high_first n v)
      × (read_back (memory_of start written.0.buffer) (cursor_at start buf.len n)
          ≡ (cursor_at start (buf.len + n) 0, some v)))
    ⊎ ((buf.capacity < buf.len + n) × (written ≡ (buf, false)))

abbrev reading : (n : ℕ) → (Option Bytes → Option ℕ) → (ℕ → ℕ) → Cursor → Cursor × Option ℕ
reading n value memory cur = ((read memory cur n).0, value (read memory cur n).1)

module _ (start : ℕ) (buf : ByteBuf) (pos : 0 < start) (address : start + buf.capacity < 2 ^ 64)
    (small : buf.capacity < half_max) (whole : length buf.buffer ≡ buf.capacity)
    (inside : buf.len ≤ buf.capacity) where
  through :
      (n v : ℕ) (value : Option Bytes → Option ℕ)
      → 0 < n
      → n < 9
      → value (some (high_first n v)) ≡ some v
      → Comes start buf (write buf (high_first n v)) (reading n value) n v
  unfolding write
  through n v value some_bytes few valued =
      let len = length-high_first n v in
      let off = buf.len in
      let nonzero : (n == 0) ≡ false = ground arith in
      elim (Bool-cases (ltb buf.capacity (off + n))) [
        | inl over ↦
            let full : (ltb half_max off || ltb half_max n || ltb buf.capacity (off + n)) ≡ true =
              ground arith in
            inr (ground arith, rw (len, nonzero, full) refl)
        | inr room ↦
            let low : off + n ≤ buf.capacity = ground arith in
            let fits : (ltb half_max off || ltb half_max n || ltb buf.capacity (off + n)) ≡ false =
              ground arith in
            let back = read_at-write_at off n (high_first n v) buf.buffer len (omega arith) in
            let wide = length-write_at off (high_first n v) buf.buffer (omega arith) in
            let found =
              read_lem start off n (write_at off (high_first n v) buf.buffer) some_bytes
                (omega arith) pos (omega arith) (omega arith) in
            let got =
              ap (λ (r : Cursor × Option Bytes). (r.0, value r.1)) found
              ∙ ap (λ (b : Bytes). (cursor_at start (off + n) 0, value (some b))) back
              ∙ ap (λ (r : Option ℕ). (cursor_at start (off + n) 0, r)) valued in
            rw (len, nonzero, fits) (inl (low, refl, refl, back, got))
      ]

  -- On a host of either byte order, a 16-, 24-, 32- or 64-bit integer is written if and only if the buffer has
  -- room for its 2, 3, 4 or 8 bytes and, for 24 bits, it is below 2 ^ 24. The bytes then stand behind the
  -- old end in network order, a cursor over them reads the integer back, and that leaves the cursor at the
  -- new end. Else the buffer stays as it was. The buffer is not at NULL, lies within the address space,
  -- its length is at most its capacity, and it has less than SIZE_MAX / 2 bytes, those of its capacity.
  pub be_round_trip :
      (big_endian : Bool) (x : ℕ)
      → Comes start buf
          (write_be16 big_endian buf (x % 2 ^ 16))
          (read_be16 big_endian)
          2
          (x % 2 ^ 16)
        × (((x % 2 ^ 32 < 2 ^ 24)
              × Comes start buf
                  (write_be24 big_endian buf (x % 2 ^ 32))
                  (read_be24 big_endian)
                  3
                  (x % 2 ^ 32))
            ⊎ ((2 ^ 24 ≤ x % 2 ^ 32) × (write_be24 big_endian buf (x % 2 ^ 32) ≡ (buf, false))))
        × Comes start buf
            (write_be32 big_endian buf (x % 2 ^ 32))
            (read_be32 big_endian)
            4
            (x % 2 ^ 32)
        × Comes start buf
            (write_be64 big_endian buf (x % 2 ^ 64))
            (read_be64 big_endian)
            8
            (x % 2 ^ 64)
  unfolding write_be16 write_be24 write_be32 write_be64 read_be16 read_be24 read_be32 read_be64
  be_round_trip big x =
      let y16 = x % 2 ^ 16 in
      let y32 = x % 2 ^ 32 in
      let y64 = x % 2 ^ 64 in
      let l16 : y16 < 2 ^ 16 = omega arith in
      let l32 : y32 < 2 ^ 32 = omega arith in
      let l64 : y64 < 2 ^ 64 = omega arith in
      (
        rw (stored16 big y16 l16) (
            through 2 y16 (integer_read big (ntoh16 big)) (omega arith) (omega arith)
              (ap some (ntoh16_lem big y16 l16))),
        elim (Bool-cases (ltb 16777215 y32)) [
          | inl wide ↦ inr (ground arith, rw wide refl)
          | inr low ↦
              let l24 : y32 < 2 ^ 24 = ground arith in
              inl (
                l24,
                rw (low, stored24 big y32 l24)
                    (through 3 y32
                      (λ (d : Option Bytes). integer_read big (ntoh32 big) (below_zero big d))
                      (omega arith) (omega arith)
                      (ap (λ (bs : Bytes). some (ntoh32 big (host_integer big bs)))
                          (below_zero_lem y32 l24)
                        ∙ ap some (ntoh32_lem big y32 l32))),
              )
        ],
        rw (stored32 big y32 l32) (
            through 4 y32 (integer_read big (ntoh32 big)) (omega arith) (omega arith)
              (ap some (ntoh32_lem big y32 l32))),
        rw (stored64 big y64 l64) (
            through 8 y64 (integer_read big (ntoh64 big)) (omega arith) (omega arith)
              (ap some (ntoh64_lem big y64 l64))),
      )
