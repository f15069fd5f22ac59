-- ===== src/RingBuffer.antt =====
-- source/ring_buffer.c and include/aws/common/ring_buffer.inl: a ring of memory that vends contiguous
-- buffers, to be released in the order in which they were acquired. Pointers are numbers, 0 is NULL;
-- the two atomic pointers `head` and `tail` are fields, and what `acquire` loads of them are arguments
-- of its body, so that a release can come between the loads and the stores. Assertions that only a
-- debug build checks are hypotheses of the theorems. Children: Layout (what is vended), Acquire and
-- Release (each operation), Concurrent (interleavings), Tests.
pub mod Layout
pub mod Acquire
pub mod Release
pub mod Concurrent
mod Tests
use aws_c_common.Prelude.{
  ℕ, ◌+◌, ◌-◌, Bool, not, ◌&&◌, ◌||◌, ltb, leb, ◌==◌, if◌then◌else◌, Result, ok, err, oom,
  invalid_argument, Option, none, some,
}

-- `struct aws_byte_buf`; the ring never looks at the bytes.
pub record ByteBuf : Type 0 where
  pub len : ℕ
  pub buffer : ℕ
  pub capacity : ℕ
  pub allocator : ℕ

abbrev pub zeroed_buf : ByteBuf
zeroed_buf = record { len = 0; buffer = 0; capacity = 0; allocator = 0 }

-- `aws_byte_buf_from_empty_array`
unfoldable pub byte_buf_from_empty_array : ℕ → ℕ → ByteBuf
byte_buf_from_empty_array bytes capacity = record {
  len = 0;
  buffer = if ltb 0 capacity then bytes else 0;
  capacity = capacity;
  allocator = 0;
}

pub record RingBuffer : Type 0 where
  pub allocator : ℕ
  pub allocation : ℕ
  pub head : ℕ
  pub tail : ℕ
  pub allocation_end : ℕ

unfoldable pub check_atomic_ptr : RingBuffer → ℕ → Bool
check_atomic_ptr r p = not (p == 0) && (leb r.allocation p && leb p r.allocation_end)

unfoldable pub is_empty : RingBuffer → Bool
is_empty r = r.head == r.tail

unfoldable pub is_valid : RingBuffer → Bool
unfolding check_atomic_ptr
is_valid r =
    not (r.allocation == 0)
    && check_atomic_ptr r r.head
    && check_atomic_ptr r r.tail
    && (not (r.head == r.allocation) || (r.tail == r.allocation))
    && not (r.allocator == 0)

-- `memory` is what `aws_mem_acquire` returns; `none` is `AWS_OP_ERR`, and no error is raised here.
unfoldable pub init : (memory allocator size : ℕ) → Option RingBuffer
init memory allocator size =
    if memory == 0
    then none
    else some (record {
      allocator = allocator;
      allocation = memory;
      head = memory;
      tail = memory;
      allocation_end = memory + size;
    })

-- The zeroed structure; the allocation goes back to the allocator.
unfoldable pub clean_up : RingBuffer → RingBuffer
clean_up r = record { allocator = 0; allocation = 0; head = 0; tail = 0; allocation_end = 0 }

-- The body of `aws_ring_buffer_acquire` from the copies `tail_cpy` and `head_cpy` on.
unfoldable pub acquire_from :
    RingBuffer → (tail_cpy head_cpy requested : ℕ) → RingBuffer × Result ByteBuf
acquire_from r tail_cpy head_cpy requested =
    if head_cpy == tail_cpy
    then (let ring_space = if r.allocation_end == 0 then 0 else r.allocation_end - r.allocation in
        if ltb ring_space requested then (r, err oom) else (
          record r { head = r.allocation + requested; tail = r.allocation },
          ok (byte_buf_from_empty_array r.allocation requested),
        ))
    else if ltb head_cpy tail_cpy
    then (let space = tail_cpy - head_cpy - 1 in
        if leb requested space
        then (
          record r { head = head_cpy + requested },
          ok (byte_buf_from_empty_array head_cpy requested),
        )
        else (r, err oom))
    else if leb requested (r.allocation_end - head_cpy)
    then (
      record r { head = head_cpy + requested },
      ok (byte_buf_from_empty_array head_cpy requested),
    )
    else if ltb requested (tail_cpy - r.allocation)
    then (
      record r { head = r.allocation + requested },
      ok (byte_buf_from_empty_array r.allocation requested),
    )
    else (r, err oom)

unfoldable pub acquire : RingBuffer → ℕ → RingBuffer × Result ByteBuf
acquire r requested =
    if requested == 0 then (r, err invalid_argument) else acquire_from r r.tail r.head requested

-- The body of `aws_ring_buffer_acquire_up_to` from the copies on.
unfoldable pub acquire_up_to_from :
    RingBuffer → (tail_cpy head_cpy minimum requested : ℕ) → RingBuffer × Result ByteBuf
acquire_up_to_from r tail_cpy head_cpy minimum requested =
    if head_cpy == tail_cpy
    then (let ring_space = if r.allocation_end == 0 then 0 else r.allocation_end - r.allocation in
        let allocation_size = if ltb requested ring_space then requested else ring_space in
        if ltb allocation_size minimum then (r, err oom) else (
          record r { head = r.allocation + allocation_size; tail = r.allocation },
          ok (byte_buf_from_empty_array r.allocation allocation_size),
        ))
    else if ltb head_cpy tail_cpy
    then (let space = tail_cpy - head_cpy - 1 in
        let returnable_size = if ltb requested space then requested else space in
        if leb minimum returnable_size
        then (
          record r { head = head_cpy + returnable_size },
          ok (byte_buf_from_empty_array head_cpy returnable_size),
        )
        else (r, err oom))
    else (let head_space = r.allocation_end - head_cpy in
        let tail_space = tail_cpy - r.allocation in
        if leb requested head_space
        then (
          record r { head = head_cpy + requested },
          ok (byte_buf_from_empty_array head_cpy requested),
        )
        else if ltb requested tail_space
        then (
          record r { head = r.allocation + requested },
          ok (byte_buf_from_empty_array r.allocation requested),
        )
        else if leb minimum head_space && leb tail_space head_space
        then (
          record r { head = head_cpy + head_space },
          ok (byte_buf_from_empty_array head_cpy head_space),
        )
        else if ltb minimum tail_space
        then (
          record r { head = r.allocation + tail_space - 1 },
          ok (byte_buf_from_empty_array r.allocation (tail_space - 1)),
        )
        else (r, err oom))

unfoldable pub acquire_up_to : RingBuffer → (minimum requested : ℕ) → RingBuffer × Result ByteBuf
acquire_up_to r minimum requested =
    if (requested == 0) || (minimum == 0)
    then (r, err invalid_argument)
    else acquire_up_to_from r r.tail r.head minimum requested

-- `s_buf_belongs_to_pool`
unfoldable pub buf_belongs_to_pool : RingBuffer → ByteBuf → Bool
buf_belongs_to_pool r buf =
    not (buf.buffer == 0)
    && not (r.allocation == 0)
    && not (r.allocation_end == 0)
    && leb r.allocation buf.buffer
    && leb (buf.buffer + buf.capacity) r.allocation_end

-- The caller's buffer is zeroed.
unfoldable pub release : RingBuffer → ByteBuf → RingBuffer × ByteBuf
release r buf = (record r { tail = buf.buffer + buf.capacity }, zeroed_buf)
