-- ===== src/Encoding/Tests.antt =====
-- Hex and the lengths at concrete inputs.
use aws_c_common.Prelude.{
  ◌/◌, ◌^◌, ◌≤◌, ◌<◌, ◌≡◌, ◌≢◌, refl, [], ◌∷◌, ok, err, overflow_detected, arith, false,
}
use aws_c_common.Math.{add_size_checked}
use aws_c_common.ByteBuf.{ByteBuf}
use aws_c_common.Encoding.{
  hex_encode, hex_decode, high_digit, low_digit, hex_compute_encoded_len,
  base64_compute_encoded_len, base64_encode, base64_decode, base64_encode_loop, put_block,
  shift_byte, pad, base64_compute_decoded_len, base64_decode_blocks, base64_decode_loop,
  base64_decode_last, four_values, base64_get_decoded_value, byte1, byte2, byte3, decoded,
}
use aws_c_common.Encoding.Hex.{hex_text, hex_round_trip}
use aws_c_common.Encoding.Lengths.{hex_compute_encoded_len_exact, base64_compute_encoded_len_exact}

abbrev output : ByteBuf
output = record { len = 0; buffer = 9 ∷ 9 ∷ 9 ∷ 9 ∷ 9 ∷ 9 ∷ []; capacity = 6; allocator = false }

abbrev back : ByteBuf
back = record { len = 0; buffer = 7 ∷ 7 ∷ 7 ∷ []; capacity = 3; allocator = false }

hex_text-digits : hex_text (202 ∷ 254 ∷ []) ≡ 99 ∷ 97 ∷ 102 ∷ 101 ∷ []
unfolding high_digit low_digit
hex_text-digits = refl

hex_round_trip_example :
    (hex_encode (202 ∷ 254 ∷ []) output ≡ (
      record output {
        buffer = high_digit 202 ∷ low_digit 202 ∷ high_digit 254 ∷ low_digit 254 ∷ 0 ∷ 9 ∷ [];
        len = 5;
      },
      ok tt,
    ))
    × (hex_decode (hex_text (202 ∷ 254 ∷ [])) back
        ≡ (record back { buffer = 202 ∷ 254 ∷ 7 ∷ []; len = 2 }, ok tt))
hex_round_trip_example =
    hex_round_trip (202 ∷ 254 ∷ []) output back (omega arith, (omega arith, tt)) refl (omega arith)
      refl (omega arith) (omega arith)

hex_compute_encoded_len_exact_example :
    (20 < 2 ^ 63 → hex_compute_encoded_len 20 ≡ ok 41)
    × (2 ^ 63 ≤ 20 → 21 < 2 ^ 64 → hex_compute_encoded_len 20 ≡ err overflow_detected)
    × (21 ≡ 2 ^ 64 → hex_compute_encoded_len 20 ≡ ok 20)
hex_compute_encoded_len_exact_example = hex_compute_encoded_len_exact 20

base64_compute_encoded_len_exact_example :
    (22 / 3 < 2 ^ 62 → base64_compute_encoded_len 20 ≡ ok 29)
    × (2 ^ 62 ≤ 22 / 3 → 23 ≢ 2 ^ 64 → base64_compute_encoded_len 20 ≡ err overflow_detected)
    × (23 ≡ 2 ^ 64 → base64_compute_encoded_len 20 ≡ ok 7)
base64_compute_encoded_len_exact_example = base64_compute_encoded_len_exact 20 (omega arith)

-- "Ma" in base64 is "TWE=".
base64_text :
    base64_encode (77 ∷ 97 ∷ []) output
    ≡ (record output { buffer = 84 ∷ 87 ∷ 69 ∷ 61 ∷ 0 ∷ 9 ∷ []; len = 4 }, ok tt)
unfolding base64_encode base64_compute_encoded_len base64_encode_loop put_block shift_byte pad
    add_size_checked
base64_text = refl

base64_bytes :
    base64_decode (84 ∷ 87 ∷ 69 ∷ 61 ∷ []) back
    ≡ (record back { buffer = 77 ∷ 97 ∷ 7 ∷ []; len = 2 }, ok tt)
unfolding base64_decode base64_compute_decoded_len base64_decode_blocks base64_decode_loop
    base64_decode_last four_values base64_get_decoded_value byte1 byte2 byte3 decoded
base64_bytes = refl
