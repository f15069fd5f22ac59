-- ===== src/Cursor/Tests.antt =====
-- Cursors on small inputs.
use aws_c_common.Prelude.{
  ℕ, ok, ◌-◌, ◌^◌, ◌≡◌, ◌<◌, ◌≤◌, refl, true, false, List, [], ◌∷◌, arith, err, Error,
  invalid_argument, length, ◌⊎◌,
}
use aws_c_common.Math.Checked.{fit}
use aws_c_common.Prelude.Bytes.{write_at}
use aws_c_common.ByteBuf.{ByteBuf}
use aws_c_common.Cursor.{
  Cursor, nospec_mask, advance, advance_nospec, hex_to_num, hex_to_num_table, read_unsigned,
  low_first, host_bytes, hton16, write, write_be16, write_be24, write_be32, write_be64, read_be16,
  read_be24, read_be32, read_be64,
}
use aws_c_common.Cursor.Advancing.{advance_nospec-advance}
use aws_c_common.Cursor.Numbers.{all_digits, number, read_unsigned-number}
use aws_c_common.Cursor.Integers.{Comes, be_round_trip, memory_of}
use aws_c_common.Cursor.Splitting.{split_on_char}
use aws_c_common.Cursor.Pieces.{pieces, append, texts, joined, split_on_char-pieces}

abbrev ten_bytes : Cursor
ten_bytes = record { len = 10; ptr = 4096 }

-- "1fG"
abbrev no_number : List ℕ
no_number = 49 ∷ 102 ∷ 71 ∷ []

abbrev half_full : ByteBuf
half_full = record {
  len = 1;
  buffer = 7 ∷ 0 ∷ 0 ∷ 0 ∷ 0 ∷ 0 ∷ 0 ∷ 0 ∷ 0 ∷ [];
  capacity = 9;
  allocator = true;
}

hex_digit : hex_to_num 102 ≡ 15
unfolding hex_to_num hex_to_num_table
hex_digit = refl

mask_closed : nospec_mask 10 10 ≡ 0
unfolding nospec_mask
mask_closed = refl

-- At the largest length that the check lets through the mask is closed.
advance_last :
    (advance_nospec (record { len = 2 ^ 63 - 1; ptr = 16 }) 1).1 ≡ record { len = 0; ptr = 0 }
unfolding advance_nospec nospec_mask
advance_last = refl

advance_nospec-advance_example : advance_nospec ten_bytes 4 ≡ advance ten_bytes 4
advance_nospec-advance_example = advance_nospec-advance ten_bytes 4 (omega arith) (omega arith)

read_unsigned-number_example :
    ((no_number ≡ []) × (read_unsigned no_number 16 ≡ err invalid_argument))
    ⊎ ((0 < length no_number)
        × (all_digits 16 no_number ≡ true)
        × (read_unsigned no_number 16 ≡ fit (2 ^ 64 - 1) (number 16 no_number)))
    ⊎ ((all_digits 16 no_number ≡ false) × ((e : Error) × (read_unsigned no_number 16 ≡ err e)))
read_unsigned-number_example = read_unsigned-number 16 (omega arith) (omega arith) no_number

-- Only the two bytes of a 16-bit integer fit.
two_left : ByteBuf.len (write_be16 false (record half_full { len = 7 }) 513).0 ≡ 9
unfolding write_be16 write host_bytes hton16 low_first write_at
two_left = refl

be_round_trip_example :
    Comes 4096 half_full (write_be16 false half_full 513) (read_be16 false) 2 513
    × (((66049 < 2 ^ 24)
          × Comes 4096 half_full (write_be24 false half_full 66049) (read_be24 false) 3 66049)
        ⊎ ((2 ^ 24 ≤ 66049) × (write_be24 false half_full 66049 ≡ (half_full, false))))
    × Comes 4096 half_full (write_be32 false half_full 66049) (read_be32 false) 4 66049
    × Comes 4096 half_full (write_be64 false half_full 66049) (read_be64 false) 8 66049
be_round_trip_example =
    be_round_trip 4096 half_full (omega arith) (omega arith) (omega arith) refl (omega arith) false
      66049

-- "a&&b" at '&'
abbrev query : List ℕ
query = 97 ∷ 38 ∷ 38 ∷ 98 ∷ []

query-pieces : pieces 38 query ≡ (97 ∷ []) ∷ [] ∷ (98 ∷ []) ∷ []
unfolding pieces
query-pieces = refl

split_on_char-pieces_example :
    (l : List Cursor) × (split_on_char 64
        (memory_of 4096 query)
        append
        (record { len = 4; ptr = 4096 })
        38
        []
      ≡ ok l)
    × (texts (memory_of 4096 query) l ≡ pieces 38 query)
    × (joined 38 (texts (memory_of 4096 query) l) ≡ query)
split_on_char-pieces_example = split_on_char-pieces 64 4096 query 38 (omega arith) (omega arith)
