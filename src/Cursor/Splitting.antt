-- ===== src/Cursor/Splitting.antt =====
-- Splitting the bytes of a cursor at a character: `aws_byte_cursor_next_split` and
-- `aws_byte_cursor_split_on_char_n` of source/byte_buf.c.
-- `literal` is the address of an empty string that is not NULL, and `push` is the caller's
-- `aws_array_list_push_back` on the list that is filled.
use aws_c_common.Prelude.{
  ℕ, zero, suc, ◌+◌, ◌-◌, ◌%◌, ◌^◌, Bool, true, false, ◌&&◌, ◌||◌, ltb, leb, ◌==◌, if◌then◌else◌,
  Option, none, some, Result, ok, ◌>>=◌,
}
use aws_c_common.Math.{u64_max}
use aws_c_common.Cursor.{Cursor, no_bytes}

-- How many of n bytes stand before the first that is c, which is where `memchr` finds it; all, if none is.
unfoldable pub bytes_before : (memory : ℕ → ℕ) → (c ptr n : ℕ) → ℕ
bytes_before memory c ptr zero = 0
bytes_before memory c ptr (suc n) =
    let rest = bytes_before memory c (ptr + 1) n in if memory ptr == c then 0 else rest + 1

-- The remainder behind the previous piece; `none` when that was the last.
unfoldable pub remainder : (input substr : Cursor) → Option Cursor
remainder input substr =
    let ptr = (substr.ptr + substr.len + 1) % 2 ^ 64 in
    if substr.ptr == 0
    then some input
    else if ltb (input.ptr + input.len) ptr || ltb ptr input.ptr
    then none
    else some (record { len = input.len - (ptr - input.ptr); ptr = ptr })

unfoldable pub next_piece : (memory : ℕ → ℕ) → (c : ℕ) → Option Cursor → Cursor × Bool
next_piece memory c none = (no_bytes, false)
next_piece memory c (some rest) =
    (record rest { len = bytes_before memory c rest.ptr rest.len }, true)

module _ (literal : ℕ) (memory : ℕ → ℕ) where
  unfoldable pub next_split : (input : Cursor) → (split_on : ℕ) → (substr : Cursor) → Cursor × Bool
  next_split input split_on substr =
      if input.ptr == 0
      then (if substr.ptr == 0
          then (record { len = 0; ptr = literal }, true)
          else (no_bytes, false))
      else next_piece memory split_on (remainder input substr)

  module _ {Out : Type 0} (push : Out → Cursor → Result Out) where
    -- The loop of `aws_byte_cursor_split_on_char_n`. Each piece but the last has a character behind it, so
    -- there are at most as many pieces as bytes, and one more.
    unfoldable pub split_loop :
        ℕ
        → (input : Cursor) → (split_on max_splits split_count : ℕ) → (substr : Cursor) → Out
        → Result Out
    split_loop zero input split_on max_splits split_count substr output = ok output
    split_loop (suc fuel) input split_on max_splits split_count substr output =
        let (next, more) = next_split input split_on substr in
        let taken =
          if split_count == max_splits
          then record next { len = input.len - (next.ptr - input.ptr) }
          else next in
        if leb split_count max_splits && more
        then (push output taken >>= λ output'.
            split_loop fuel input split_on max_splits (split_count + 1) taken output')
        else ok output

    unfoldable pub split_on_char_n : (input : Cursor) → (split_on n : ℕ) → Out → Result Out
    split_on_char_n input split_on n output =
        split_loop (input.len + 2) input split_on (if ltb 0 n then n else u64_max) 0 no_bytes output

    unfoldable pub split_on_char : (input : Cursor) → (split_on : ℕ) → Out → Result Out
    split_on_char input split_on output = split_on_char_n input split_on 0 output
