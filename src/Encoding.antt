-- ===== src/Encoding.antt =====
-- source/encoding.c and the text detection of include/aws/common/encoding.inl: hex and base64, without
-- the vectorised base64 of source/arch, as the build without USE_SIMD_ENCODING has it. A byte cursor is
-- the list of its bytes, and an encoder or a decoder writes into the memory of a byte buffer. Children:
-- Hex (the round trip of hex), Lengths (the computed lengths), Tests.
pub mod Hex
pub mod Lengths
mod Tests
use aws_c_common.Prelude.{
  ℕ, zero, suc, ◌+◌, ◌-◌, ◌*◌, ◌/◌, ◌%◌, ◌^◌, Bool, true, false, not, ◌&&◌, ◌||◌, List, [], ◌∷◌,
  ltb, leb, ◌==◌, if◌then◌else◌, Option, none, some, Result, ok, err, Error, overflow_detected,
  short_buffer, invalid_hex_str, invalid_base64_str, length, set, get_or, bail, and_then, ◌>>=◌,
  bit_and, bit_or,
}
use aws_c_common.Prelude.Bytes.{Bytes}
use aws_c_common.Math.{add_size_checked}
use aws_c_common.ByteBuf.{ByteBuf, reserve_relative}

abbrev pub hex_chars : Bytes
hex_chars = 48 ∷ 49 ∷ 50 ∷ 51 ∷ 52 ∷ 53 ∷ 54 ∷ 55 ∷ 56 ∷ 57 ∷ 97 ∷ 98 ∷ 99 ∷ 100 ∷ 101 ∷ 102 ∷ []

abbrev pub base64_encoding_table : Bytes
base64_encoding_table =
    65 ∷ 66 ∷ 67 ∷ 68 ∷ 69 ∷ 70 ∷ 71 ∷ 72 ∷ 73 ∷ 74 ∷ 75 ∷ 76 ∷ 77 ∷ 78 ∷ 79 ∷ 80 ∷ 81 ∷ 82 ∷ 83
    ∷ 84 ∷ 85 ∷ 86 ∷ 87 ∷ 88 ∷ 89 ∷ 90 ∷ 97 ∷ 98 ∷ 99 ∷ 100 ∷ 101 ∷ 102 ∷ 103 ∷ 104 ∷ 105 ∷ 106
    ∷ 107 ∷ 108 ∷ 109 ∷ 110 ∷ 111 ∷ 112 ∷ 113 ∷ 114 ∷ 115 ∷ 116 ∷ 117 ∷ 118 ∷ 119 ∷ 120 ∷ 121 ∷ 122
    ∷ 48 ∷ 49 ∷ 50 ∷ 51 ∷ 52 ∷ 53 ∷ 54 ∷ 55 ∷ 56 ∷ 57 ∷ 43 ∷ 47 ∷ []

abbrev pub base64_decoding_table : Bytes
base64_decoding_table =
    64 ∷ 221 ∷ 221 ∷ 221 ∷ 221 ∷ 221 ∷ 221 ∷ 221 ∷ 221 ∷ 221 ∷ 221 ∷ 221 ∷ 221 ∷ 221 ∷ 221 ∷ 221
    ∷ 221 ∷ 221 ∷ 221 ∷ 221 ∷ 221 ∷ 221 ∷ 221 ∷ 221 ∷ 221 ∷ 221 ∷ 221 ∷ 221 ∷ 221 ∷ 221 ∷ 221 ∷ 221
    ∷ 221 ∷ 221 ∷ 221 ∷ 221 ∷ 221 ∷ 221 ∷ 221 ∷ 221 ∷ 221 ∷ 221 ∷ 221 ∷ 62 ∷ 221 ∷ 221 ∷ 221 ∷ 63
    ∷ 52 ∷ 53 ∷ 54 ∷ 55 ∷ 56 ∷ 57 ∷ 58 ∷ 59 ∷ 60 ∷ 61 ∷ 221 ∷ 221 ∷ 221 ∷ 255 ∷ 221 ∷ 221 ∷ 221 ∷ 0
    ∷ 1 ∷ 2 ∷ 3 ∷ 4 ∷ 5 ∷ 6 ∷ 7 ∷ 8 ∷ 9 ∷ 10 ∷ 11 ∷ 12 ∷ 13 ∷ 14 ∷ 15 ∷ 16 ∷ 17 ∷ 18 ∷ 19 ∷ 20 ∷ 21
    ∷ 22 ∷ 23 ∷ 24 ∷ 25 ∷ 221 ∷ 221 ∷ 221 ∷ 221 ∷ 221 ∷ 221 ∷ 26 ∷ 27 ∷ 28 ∷ 29 ∷ 30 ∷ 31 ∷ 32 ∷ 33
    ∷ 34 ∷ 35 ∷ 36 ∷ 37 ∷ 38 ∷ 39 ∷ 40 ∷ 41 ∷ 42 ∷ 43 ∷ 44 ∷ 45 ∷ 46 ∷ 47 ∷ 48 ∷ 49 ∷ 50 ∷ 51 ∷ 221
    ∷ 221 ∷ 221 ∷ 221 ∷ 221 ∷ 221 ∷ 221 ∷ 221 ∷ 221 ∷ 221 ∷ 221 ∷ 221 ∷ 221 ∷ 221 ∷ 221 ∷ 221 ∷ 221
    ∷ 221 ∷ 221 ∷ 221 ∷ 221 ∷ 221 ∷ 221 ∷ 221 ∷ 221 ∷ 221 ∷ 221 ∷ 221 ∷ 221 ∷ 221 ∷ 221 ∷ 221 ∷ 221
    ∷ 221 ∷ 221 ∷ 221 ∷ 221 ∷ 221 ∷ 221 ∷ 221 ∷ 221 ∷ 221 ∷ 221 ∷ 221 ∷ 221 ∷ 221 ∷ 221 ∷ 221 ∷ 221
    ∷ 221 ∷ 221 ∷ 221 ∷ 221 ∷ 221 ∷ 221 ∷ 221 ∷ 221 ∷ 221 ∷ 221 ∷ 221 ∷ 221 ∷ 221 ∷ 221 ∷ 221 ∷ 221
    ∷ 221 ∷ 221 ∷ 221 ∷ 221 ∷ 221 ∷ 221 ∷ 221 ∷ 221 ∷ 221 ∷ 221 ∷ 221 ∷ 221 ∷ 221 ∷ 221 ∷ 221 ∷ 221
    ∷ 221 ∷ 221 ∷ 221 ∷ 221 ∷ 221 ∷ 221 ∷ 221 ∷ 221 ∷ 221 ∷ 221 ∷ 221 ∷ 221 ∷ 221 ∷ 221 ∷ 221 ∷ 221
    ∷ 221 ∷ 221 ∷ 221 ∷ 221 ∷ 221 ∷ 221 ∷ 221 ∷ 221 ∷ 221 ∷ 221 ∷ 221 ∷ 221 ∷ 221 ∷ 221 ∷ 221 ∷ 221
    ∷ 221 ∷ 221 ∷ 221 ∷ 221 ∷ 221 ∷ 221 ∷ 221 ∷ 221 ∷ 221 ∷ 221 ∷ 221 ∷ 221 ∷ 221 ∷ 221 ∷ 221 ∷ 221
    ∷ 221 ∷ 221 ∷ 221 ∷ 221 ∷ []

unfoldable pub hex_compute_encoded_len : ℕ → Result ℕ
hex_compute_encoded_len to_encode_len =
    let temp = (to_encode_len * 2 % 2 ^ 64 + 1) % 2 ^ 64 in
    if ltb temp to_encode_len then err overflow_detected else ok temp

-- The digits of one byte.
unfoldable pub high_digit : ℕ → ℕ
high_digit b = get_or hex_chars (bit_and (b / 16) 15) 0

unfoldable pub low_digit : ℕ → ℕ
low_digit b = get_or hex_chars (bit_and b 15) 0

-- The loop of both hex encoders, from `written` on.
unfoldable pub hex_encode_loop : Bytes → (written : ℕ) → Bytes → ℕ × Bytes
hex_encode_loop [] written buffer = (written, buffer)
hex_encode_loop (b ∷ bs) written buffer =
    hex_encode_loop bs (written + 2)
      (set (set buffer written (high_digit b)) (written + 1) (low_digit b))

unfoldable pub hex_encode : Bytes → ByteBuf → ByteBuf × Result (Unit {0})
hex_encode to_encode output =
    bail output (hex_compute_encoded_len (length to_encode)) λ encoded_len.
      if ltb output.capacity encoded_len
      then (output, err short_buffer)
      else (let (written, buffer) = hex_encode_loop to_encode 0 output.buffer in
          (record output { buffer = set buffer written 0; len = encoded_len }, ok tt))

unfoldable pub hex_encode_append_dynamic :
    (ℕ → Bytes) → Bytes → ByteBuf → ByteBuf × Result (Unit {0})
hex_encode_append_dynamic mem_acquire to_encode output =
    bail output (add_size_checked (length to_encode) (length to_encode)) λ encoded_len.
      and_then (reserve_relative mem_acquire output encoded_len) λ output.
        (let (written, buffer) = hex_encode_loop to_encode output.len output.buffer in
          (record output { buffer = buffer; len = output.len + encoded_len }, ok tt))

unfoldable pub hex_decode_char_to_int : ℕ → Option ℕ
hex_decode_char_to_int c =
    if leb 97 c && leb c 102
    then some (10 + (c - 97))
    else if leb 65 c && leb c 70
    then some (10 + (c - 65))
    else if leb 48 c && leb c 57
    then some (c - 48)
    else none

unfoldable pub hex_compute_decoded_len : ℕ → Result ℕ
hex_compute_decoded_len to_decode_len =
    let temp = (to_decode_len + 1) % 2 ^ 64 in
    if ltb temp to_decode_len then err overflow_detected else ok (temp / 2)

-- The value of two digits.
unfoldable pub hex_value : ℕ → ℕ → ℕ
hex_value high_value low_value = bit_or (high_value * 16 % 256) low_value

-- The value of two characters, where both are digits.
unfoldable pub pair_value : Option ℕ → Option ℕ → Option ℕ
pair_value (some high_value) (some low_value) = some (hex_value high_value low_value)
pair_value none low = none
pair_value (some high_value) none = none

-- The loop over pairs of digits. It is entered with an even number of them.
unfoldable pub hex_decode_loop : Bytes → (written : ℕ) → Bytes → Bytes × Result (Unit {0})
hex_decode_loop [] written buffer = (buffer, ok tt)
hex_decode_loop (c ∷ []) written buffer = (buffer, err invalid_hex_str)
hex_decode_loop (c ∷ d ∷ cs) written buffer =
    elim (pair_value (hex_decode_char_to_int c) (hex_decode_char_to_int d)) [
      | none ↦ (buffer, err invalid_hex_str)
      | some value ↦ hex_decode_loop cs (written + 1) (set buffer written value)
    ]

-- An odd number of digits is read as if a 0 came first.
unfoldable pub hex_decode_digits : Bytes → Bytes → Bytes × Result (Unit {0})
hex_decode_digits [] buffer = (buffer, ok tt)
hex_decode_digits (c ∷ cs) buffer =
    if bit_and (length (c ∷ cs)) 1 == 1
    then (elim (hex_decode_char_to_int c) [
      | none ↦ (buffer, err invalid_hex_str)
      | some low_value ↦ hex_decode_loop cs 1 (set buffer 0 low_value)
    ])
    else hex_decode_loop (c ∷ cs) 0 buffer

-- The length is set where the digits are good; the bytes written stay there in any case.
unfoldable pub decoded : ByteBuf → ℕ → Bytes × Result (Unit {0}) → ByteBuf × Result (Unit {0})
decoded output decoded_length (buffer, ok u) =
    (record output { buffer = buffer; len = decoded_length }, ok tt)
decoded output decoded_length (buffer, err e) = (record output { buffer = buffer }, err e)

unfoldable pub hex_decode : Bytes → ByteBuf → ByteBuf × Result (Unit {0})
hex_decode to_decode output =
    bail output (hex_compute_decoded_len (length to_decode)) λ decoded_length.
      if ltb output.capacity decoded_length
      then (output, err short_buffer)
      else decoded output decoded_length (hex_decode_digits to_decode output.buffer)

unfoldable pub base64_compute_encoded_len : ℕ → Result ℕ
base64_compute_encoded_len to_encode_len =
    let tmp = (to_encode_len + 2) % 2 ^ 64 in
    if ltb tmp to_encode_len
    then err overflow_detected
    else (let overflow_check = tmp / 3 in
        let tmp = (4 * overflow_check + 1) % 2 ^ 64 in
        if ltb tmp overflow_check then err overflow_detected else ok tmp)

unfoldable pub base64_compute_decoded_len : Bytes → Result ℕ
base64_compute_decoded_len input =
    let len = length input in
    if len == 0
    then ok 0
    else if not (bit_and len 3 == 0)
    then err invalid_base64_str
    else (let tmp = len * 3 % 2 ^ 64 in
        let padding =
          if leb 2 len && (get_or input (len - 1) 0 == 61) && (get_or input (len - 2) 0 == 61)
          then 2
          else if get_or input (len - 1) 0 == 61
          then 1
          else 0 in
        if ltb tmp len then err overflow_detected else ok (tmp / 4 - padding))

-- The four characters of a block of 24 bits.
unfoldable pub put_block : ℕ → (str_index : ℕ) → Bytes → Bytes
put_block block i buffer =
    set
      (set
        (set (set buffer i (get_or base64_encoding_table (bit_and (block / 2 ^ 18) 63) 0)) (i + 1)
          (get_or base64_encoding_table (bit_and (block / 2 ^ 12) 63) 0))
        (i + 2) (get_or base64_encoding_table (bit_and (block / 2 ^ 6) 63) 0))
      (i + 3) (get_or base64_encoding_table (bit_and block 63) 0)

-- `block <<= 8` on a 32-bit word.
unfoldable pub shift_byte : ℕ → ℕ
shift_byte block = block * 256 % 2 ^ 32

unfoldable pub base64_encode_loop : Bytes → (str_index : ℕ) → Bytes → Bytes
base64_encode_loop [] i buffer = buffer
base64_encode_loop (a ∷ []) i buffer = put_block (shift_byte (shift_byte a)) i buffer
base64_encode_loop (a ∷ b ∷ []) i buffer = put_block (shift_byte (bit_or (shift_byte a) b)) i buffer
base64_encode_loop (a ∷ b ∷ c ∷ bs) i buffer =
    base64_encode_loop bs (i + 4)
      (put_block (bit_or (shift_byte (bit_or (shift_byte a) b)) c) i buffer)

unfoldable pub pad : (remainder_count end : ℕ) → Bytes → Bytes
pad remainder_count end buffer =
    if ltb 0 remainder_count
    then (let one = set buffer (end - 1) 61 in
        if remainder_count == 1 then set one (end - 2) 61 else one)
    else buffer

unfoldable pub base64_encode : Bytes → ByteBuf → ByteBuf × Result (Unit {0})
base64_encode to_encode output =
    bail output (base64_compute_encoded_len (length to_encode)) λ terminated_length.
      bail output (add_size_checked output.len terminated_length) λ needed_capacity.
        if ltb output.capacity needed_capacity
        then (output, err short_buffer)
        else (let encoded_length = terminated_length - 1 in
            let block_count = (length to_encode + 2) / 3 in
            let remainder_count = length to_encode % 3 in
            let text = base64_encode_loop to_encode output.len output.buffer in
            let padded = pad remainder_count (output.len + block_count * 4) text in
            (
              record output {
                buffer = set padded (output.len + encoded_length) 0;
                len = output.len + encoded_length;
              },
              ok tt,
            ))

unfoldable pub base64_get_decoded_value : ℕ → (allow_sentinal : Bool) → Option ℕ
base64_get_decoded_value to_decode allow_sentinal =
    let decode_value = get_or base64_decoding_table to_decode 221 in
    if not (decode_value == 221) && (not (decode_value == 255) || allow_sentinal)
    then some decode_value
    else none

-- The values of four characters, the last two perhaps padding.
unfoldable pub four_values : Bool → (c1 c2 c3 c4 : ℕ) → Option (ℕ × ℕ × ℕ × ℕ)
four_values sentinal c1 c2 c3 c4 = elim (base64_get_decoded_value c1 false) [
  | none ↦ none
  | some v1 ↦ elim (base64_get_decoded_value c2 false) [
    | none ↦ none
    | some v2 ↦ elim (base64_get_decoded_value c3 sentinal) [
      | none ↦ none
      | some v3 ↦ elim (base64_get_decoded_value c4 sentinal) [
        | none ↦ none
        | some v4 ↦ some (v1, v2, v3, v4)
      ]
    ]
  ]
]

-- The bytes of four values.
unfoldable pub byte1 : ℕ → ℕ → ℕ
byte1 v1 v2 = bit_or (v1 * 4) (bit_and (v2 / 16) 3) % 256

unfoldable pub byte2 : ℕ → ℕ → ℕ
byte2 v2 v3 = bit_or (bit_and (v2 * 16) 240) (bit_and (v3 / 4) 15) % 256

unfoldable pub byte3 : ℕ → ℕ → ℕ
byte3 v3 v4 = bit_or (bit_and v3 3 * 64) v4 % 256

-- The last block, whose sentinels end the output.
unfoldable pub base64_decode_last : Bytes → (buffer_index : ℕ) → Bytes → Bytes × Result (Unit {0})
base64_decode_last (c1 ∷ c2 ∷ c3 ∷ c4 ∷ cs) i buffer = elim (four_values true c1 c2 c3 c4) [
  | none ↦ (buffer, err invalid_base64_str)
  | some (v1, v2, v3, v4) ↦
      let first = set buffer i (byte1 v1 v2) in
      let second = set first (i + 1) (byte2 v2 v3) in
      let third = set second (i + 2) (byte3 v3 v4) in
      (if v3 == 255 then first else if v4 == 255 then second else third, ok tt)
]
base64_decode_last cs i buffer = (buffer, err invalid_base64_str)

-- The blocks before the last, `k` of them, then the last.
unfoldable pub base64_decode_loop :
    (k : ℕ) → Bytes → (buffer_index : ℕ) → Bytes → Bytes × Result (Unit {0})
base64_decode_loop zero cs i buffer = base64_decode_last cs i buffer
base64_decode_loop (suc k) (c1 ∷ c2 ∷ c3 ∷ c4 ∷ cs) i buffer =
    elim (four_values false c1 c2 c3 c4) [
      | none ↦ (buffer, err invalid_base64_str)
      | some (v1, v2, v3, v4) ↦
          base64_decode_loop k cs (i + 3)
            (set (set (set buffer i (byte1 v1 v2)) (i + 1) (byte2 v2 v3)) (i + 2) (byte3 v3 v4))
    ]
base64_decode_loop (suc k) cs i buffer = (buffer, err invalid_base64_str)

unfoldable pub base64_decode_blocks : (block_count : ℕ) → Bytes → Bytes → Bytes × Result (Unit {0})
base64_decode_blocks zero cs buffer = (buffer, ok tt)
base64_decode_blocks (suc k) cs buffer = base64_decode_loop k cs 0 buffer

unfoldable pub base64_decode : Bytes → ByteBuf → ByteBuf × Result (Unit {0})
base64_decode to_decode output =
    bail output (base64_compute_decoded_len to_decode) λ decoded_length.
      if ltb output.capacity decoded_length
      then (output, err short_buffer)
      else decoded output decoded_length
          (base64_decode_blocks (length to_decode / 4) to_decode output.buffer)

pub data TextEncoding : Type 0 where
  text_unknown text_utf8 text_utf16 text_utf32 text_ascii : TextEncoding

-- `memcmp` with a byte order mark at the start of the bytes.
unfoldable pub starts_with : Bytes → Bytes → Bool
starts_with [] bs = true
starts_with (m ∷ ms) [] = false
starts_with (m ∷ ms) (b ∷ bs) = (m == b) && starts_with ms bs

unfoldable pub all_ascii : Bytes → Bool
all_ascii [] = true
all_ascii (b ∷ bs) = (bit_and b 128 == 0) && all_ascii bs

unfoldable pub text_detect_encoding : Bytes → TextEncoding
text_detect_encoding bytes =
    if starts_with (239 ∷ 187 ∷ 191 ∷ []) bytes
    then text_utf8
    else if starts_with (255 ∷ 254 ∷ 0 ∷ 0 ∷ []) bytes
    then text_utf32
    else if starts_with (0 ∷ 0 ∷ 254 ∷ 255 ∷ []) bytes
    then text_utf32
    else if starts_with (255 ∷ 254 ∷ []) bytes
    then text_utf16
    else if starts_with (254 ∷ 255 ∷ []) bytes
    then text_utf16
    else if all_ascii bytes
    then text_ascii
    else text_unknown

unfoldable pub text_is_utf8 : Bytes → Bool
text_is_utf8 bytes = elim (text_detect_encoding bytes) [
  | text_utf8 ↦ true
  | text_ascii ↦ true
  | _ ↦ false
]
