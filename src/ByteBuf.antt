-- ===== src/ByteBuf.antt =====
-- `struct aws_byte_buf` of include/aws/common/byte_buf.h and how source/byte_buf.c makes room in it.
-- `buffer` is the memory of `capacity` bytes that it points to, empty for NULL, and `allocator` says
-- whether it has one. A byte cursor is the list of the bytes that it points at, in the files that take one.
-- `mem_acquire n` stands for what the n bytes that `aws_mem_acquire` returns happen to hold.
use aws_c_common.Prelude.{
  ℕ, Bool, not, ◌&&◌, ◌||◌, ltb, leb, ◌==◌, if◌then◌else◌, Result, ok, err, invalid_argument,
  length, bail,
}
use aws_c_common.Prelude.Bytes.{Bytes, write_at}
use aws_c_common.Math.{add_size_checked}

pub record ByteBuf : Type 0 where
  pub len : ℕ
  pub buffer : Bytes
  pub capacity : ℕ
  pub allocator : Bool

unfoldable pub is_valid : ByteBuf → Bool
is_valid buf =
    ((buf.capacity == 0) && (buf.len == 0) && (length buf.buffer == 0))
    || (ltb 0 buf.capacity && leb buf.len buf.capacity && (length buf.buffer == buf.capacity))

module _ (mem_acquire : ℕ → Bytes) where
  unfoldable pub reserve : ByteBuf → ℕ → ByteBuf × Result (Unit {0})
  reserve buf requested_capacity =
      if not (buf.allocator && is_valid buf)
      then (buf, err invalid_argument)
      else if leb requested_capacity buf.capacity
      then (buf, ok tt)
      else if (length buf.buffer == 0) && (buf.capacity == 0)
      then (
        record buf {
          len = 0;
          buffer = mem_acquire requested_capacity;
          capacity = requested_capacity;
        },
        ok tt,
      )
      else (
        record buf {
          buffer = write_at 0 buf.buffer (mem_acquire requested_capacity);
          capacity = requested_capacity;
        },
        ok tt,
      )

  unfoldable pub reserve_relative : ByteBuf → ℕ → ByteBuf × Result (Unit {0})
  reserve_relative buf additional_length =
      if not (buf.allocator && is_valid buf)
      then (buf, err invalid_argument)
      else (bail buf (add_size_checked buf.len additional_length)
          λ requested_capacity. reserve buf requested_capacity)
