-- ===== src/Cursor.antt =====
-- `struct aws_byte_cursor` of include/aws/common/byte_buf.h and the functions of source/byte_buf.c that move
-- one, read integers by one and parse numbers. `ptr` is an address, 0 for NULL, and `memory` says which
-- byte is at each. Advancing has the two ways of moving, Numbers the parser, and Integers the
-- integers in network order.
pub mod Advancing
pub mod Numbers
pub mod Order
pub mod Integers
pub mod Splitting
pub mod Pieces
mod Tests
use aws_c_common.Prelude.{
  ℕ, zero, suc, ◌+◌, ◌-◌, ◌*◌, ◌/◌, ◌%◌, ◌^◌, Bool, true, false, not, ◌&&◌, ◌||◌, List, [], ◌∷◌,
  ◌++◌, ltb, leb, ◌==◌, if◌then◌else◌, Option, none, some, Result, ok, err, ◌>>=◌, invalid_argument,
  bit_and, bit_or, length, get_or, replicate,
}
use aws_c_common.Prelude.Lists.{drop}
use aws_c_common.Prelude.Bytes.{Bytes, write_at}
use aws_c_common.ByteBuf.{ByteBuf}
use aws_c_common.Math.{u64_max, mul_u64_checked, add_u64_checked}

pub record Cursor : Type 0 where
  pub len : ℕ
  pub ptr : ℕ

abbrev pub half_max : ℕ
half_max = 2 ^ 63 - 1

abbrev pub no_bytes : Cursor
no_bytes = record { len = 0; ptr = 0 }

-- All ones where the index is below the bound, without a branch.
unfoldable pub nospec_mask : (index bound : ℕ) → ℕ
nospec_mask index bound =
    let negative_mask = bit_or index bound in
    let toobig_mask = (bound + 2 ^ 64 - index + 2 ^ 64 - 1) % 2 ^ 64 in
    let combined_mask = bit_or negative_mask toobig_mask in
    (u64_max - combined_mask) / (u64_max - half_max) * u64_max % 2 ^ 64

-- `cursor->ptr + len`, which leaves NULL as it is.
abbrev pub moved_ptr : (ptr len : ℕ) → ℕ
moved_ptr ptr len = if ptr == 0 then 0 else ptr + len

-- The cursor after the call, and the one that is returned.
unfoldable pub advance : Cursor → (len : ℕ) → Cursor × Cursor
advance cursor len =
    if ltb half_max cursor.len || ltb half_max len || ltb cursor.len len
    then (cursor, no_bytes)
    else (
      record { len = cursor.len - len; ptr = moved_ptr cursor.ptr len },
      record { len = len; ptr = cursor.ptr },
    )

unfoldable pub advance_nospec : Cursor → (len : ℕ) → Cursor × Cursor
advance_nospec cursor len =
    let mask = nospec_mask len ((cursor.len + 1) % 2 ^ 64) in
    let len' = bit_and len mask in
    let ptr' = bit_and cursor.ptr mask in
    let cursor_len' = bit_and cursor.len mask in
    if leb len cursor.len && leb len half_max && leb cursor.len half_max
    then (
      record { len = (cursor_len' + 2 ^ 64 - len') % 2 ^ 64; ptr = moved_ptr ptr' len' },
      record { len = bit_and len' mask; ptr = ptr' },
    )
    else (cursor, no_bytes)

-- `s_hex_to_num_table`
unfoldable pub hex_to_num_table : List ℕ
hex_to_num_table =
    replicate 48 255
    ++ (0 ∷ 1 ∷ 2 ∷ 3 ∷ 4 ∷ 5 ∷ 6 ∷ 7 ∷ 8 ∷ 9 ∷ [])
    ++ (replicate 7 255)
    ++ (10 ∷ 11 ∷ 12 ∷ 13 ∷ 14 ∷ 15 ∷ [])
    ++ (replicate 26 255)
    ++ (10 ∷ 11 ∷ 12 ∷ 13 ∷ 14 ∷ 15 ∷ [])
    ++ (replicate 153 255)

unfoldable pub hex_to_num : ℕ → ℕ
hex_to_num c = get_or hex_to_num_table c 255

-- The loop of `s_read_unsigned` over the bytes that the cursor points at.
unfoldable pub read_unsigned_loop : (base val : ℕ) → List ℕ → Result ℕ
read_unsigned_loop base val [] = ok val
read_unsigned_loop base val (c ∷ cs) =
    let cval = hex_to_num c in
    if leb base cval
    then err invalid_argument
    else (mul_u64_checked val base >>= λ product.
        (add_u64_checked product cval >>= λ sum. read_unsigned_loop base sum cs))

unfoldable pub read_unsigned : List ℕ → (base : ℕ) → Result ℕ
read_unsigned bytes base =
    if length bytes == 0 then err invalid_argument else read_unsigned_loop base 0 bytes

unfoldable pub utf8_parse_u64 : List ℕ → Result ℕ
utf8_parse_u64 bytes = read_unsigned bytes 10

unfoldable pub utf8_parse_u64_hex : List ℕ → Result ℕ
utf8_parse_u64_hex bytes = read_unsigned bytes 16

unfoldable pub bytes_at : (memory : ℕ → ℕ) → (ptr n : ℕ) → Bytes
bytes_at memory ptr zero = []
bytes_at memory ptr (suc n) = memory ptr ∷ bytes_at memory (ptr + 1) n

-- The cursor after the call, and the bytes that are stored, if it succeeds.
unfoldable pub read : (memory : ℕ → ℕ) → Cursor → (len : ℕ) → Cursor × Option Bytes
read memory cur len =
    let (cur', slice) = advance_nospec cur len in
    if len == 0
    then (cur, some [])
    else if slice.ptr == 0
    then (cur', none)
    else (cur', some (bytes_at memory slice.ptr len))

-- The bytes of an n-byte integer in the memory of the host, whose byte order `big_endian` says, and the
-- integer of such bytes: the casts between `uint16_t *`, `uint32_t *`, `uint64_t *` and `uint8_t *`.
unfoldable pub low_first : (n x : ℕ) → Bytes
low_first zero x = []
low_first (suc n) x = x % 256 ∷ low_first n (x / 256)

unfoldable pub high_first : (n x : ℕ) → Bytes
high_first zero x = []
high_first (suc n) x = x / 256 ^ n % 256 ∷ high_first n x

unfoldable pub from_low_first : Bytes → ℕ
from_low_first [] = 0
from_low_first (b ∷ bs) = b + 256 * from_low_first bs

unfoldable pub from_high_first : (high : ℕ) → Bytes → ℕ
from_high_first high [] = high
from_high_first high (b ∷ bs) = from_high_first (high * 256 + b) bs

module _ (big_endian : Bool) where
  unfoldable pub host_bytes : (n x : ℕ) → Bytes
  host_bytes n x = if big_endian then high_first n x else low_first n x

  unfoldable pub host_integer : Bytes → ℕ
  host_integer bytes = if big_endian then from_high_first 0 bytes else from_low_first bytes

  -- `htons` and `ntohs`, which swap the bytes of a 16-bit integer on a little-endian host.
  unfoldable pub hton16 : ℕ → ℕ
  hton16 x = if big_endian then x else x % 256 * 256 + x / 256 % 256

  unfoldable pub ntoh16 : ℕ → ℕ
  ntoh16 x = hton16 x

  -- `htonl` and `ntohl`
  unfoldable pub hton32 : ℕ → ℕ
  hton32 x =
      if big_endian
      then x
      else x % 256 * 2 ^ 24 + x / 2 ^ 8 % 256 * 2 ^ 16 + x / 2 ^ 16 % 256 * 2 ^ 8 + x / 2 ^ 24 % 256

  unfoldable pub ntoh32 : ℕ → ℕ
  ntoh32 x = hton32 x

  -- The portable branch, where there is no instruction for it.
  unfoldable pub hton64 : ℕ → ℕ
  hton64 x =
      let low = bit_and x (2 ^ 32 - 1) in
      let high = x / 2 ^ 32 in
      if big_endian then x else bit_or (hton32 low * 2 ^ 32 % 2 ^ 64) (hton32 high)

  unfoldable pub ntoh64 : ℕ → ℕ
  ntoh64 x = hton64 x

  -- What the reads make of the bytes that they store in the integer.
  abbrev pub integer_read : (ℕ → ℕ) → Option Bytes → Option ℕ
  integer_read ntoh none = none
  integer_read ntoh (some bytes) = some (ntoh (host_integer bytes))

  unfoldable pub read_be16 : (memory : ℕ → ℕ) → Cursor → Cursor × Option ℕ
  read_be16 memory cur = let (cur', dest) = read memory cur 2 in (cur', integer_read ntoh16 dest)

  -- The bytes go into the last three of four, the first of which is zeroed.
  abbrev pub below_zero : Option Bytes → Option Bytes
  below_zero none = none
  below_zero (some bytes) = some (0 ∷ bytes)

  unfoldable pub read_be24 : (memory : ℕ → ℕ) → Cursor → Cursor × Option ℕ
  read_be24 memory cur =
      let (cur', dest) = read memory cur 3 in (cur', integer_read ntoh32 (below_zero dest))

  unfoldable pub read_be32 : (memory : ℕ → ℕ) → Cursor → Cursor × Option ℕ
  read_be32 memory cur = let (cur', dest) = read memory cur 4 in (cur', integer_read ntoh32 dest)

  unfoldable pub read_be64 : (memory : ℕ → ℕ) → Cursor → Cursor × Option ℕ
  read_be64 memory cur = let (cur', dest) = read memory cur 8 in (cur', integer_read ntoh64 dest)

-- `aws_byte_buf_write`
unfoldable pub write : ByteBuf → Bytes → ByteBuf × Bool
write buf src =
    let len = length src in
    if len == 0
    then (buf, true)
    else if ltb half_max buf.len || ltb half_max len || ltb buf.capacity (buf.len + len)
    then (buf, false)
    else (record buf { buffer = write_at buf.len src buf.buffer; len = buf.len + len }, true)

module _ (big_endian : Bool) where
  unfoldable pub write_be16 : ByteBuf → ℕ → ByteBuf × Bool
  write_be16 buf x = write buf (host_bytes big_endian 2 (hton16 big_endian x))

  -- The last three bytes of four.
  unfoldable pub write_be24 : ByteBuf → ℕ → ByteBuf × Bool
  write_be24 buf x =
      let be32_bytes = host_bytes big_endian 4 (hton32 big_endian x) in
      if ltb 16777215 x then (buf, false) else write buf (drop 1 be32_bytes)

  unfoldable pub write_be32 : ByteBuf → ℕ → ByteBuf × Bool
  write_be32 buf x = write buf (host_bytes big_endian 4 (hton32 big_endian x))

  unfoldable pub write_be64 : ByteBuf → ℕ → ByteBuf × Bool
  write_be64 buf x = write buf (host_bytes big_endian 8 (hton64 big_endian x))
