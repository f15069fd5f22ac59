-- ===== src/Lib.antt =====
-- A model of the core of aws-c-common, and what has been shown of it.
--
-- The parts, and where they are modelled:
--   Math           include/aws/common/math.inl, math.fallback.inl and source/math.c: checked and
--                  saturating arithmetic on words, powers of two. Every part that computes a size of
--                  memory goes through `mul_size_checked` and `add_size_checked`.
--   RingBuffer     source/ring_buffer.c, ring_buffer.inl: `aws_ring_buffer_acquire`, `_acquire_up_to` and
--                  `_release`. Pointers are numbers; Concurrent lets one thread that acquires and one
--                  that releases take their steps in any order.
--   ArrayList      source/array_list.c, array_list.inl: a growable array over bytes. ArrayList/Holds says
--                  what list of items it holds, and the modules beside it what each operation
--                  makes of those items: Access, Store, Removal, Erase, Copy, Making, over Growth, Contents and
--                  Swap.
--   ByteBuf        the struct of byte_buf.h, with `aws_byte_buf_reserve` and `_reserve_relative` of
--                  source/byte_buf.c.
--   Encoding       source/encoding.c, encoding.inl: hex and base64, which write into a ByteBuf, and
--                  the detection of a text's encoding.
--   PriorityQueue  source/priority_queue.c: a heap over the items of an array list, which keeps the
--                  callers' nodes informed (PriorityQueue/Places, Nodes, Keeping, Dropping, Tracking,
--                  Linking, Pushing) and its items together (Contents) and in order (Order, Insertion,
--                  Down, Sifting, Removal). Its container is a list of items, which PriorityQueue/Memory
--                  ties to the array list in memory.
--   Cursor         the byte cursors of source/byte_buf.c: moving one with and without a mask against
--                  speculation (Advancing), integers in network order (Order, Integers) with
--                  the conversions of include/aws/common/byte_order.inl, numbers in decimal and
--                  hexadecimal text (Numbers), and splitting at a character (Splitting, Pieces).
--   HashTable      source/hash_table.c: the slots of a robin hood table, the calls over it
--                  (Operations) and its iterators (Iteration). Ring has the index arithmetic, Probing the
--                  order of the slots, Placing, Emplacing, Inserting and Shifting how it is kept, and
--                  Keys and Lookup the map that the slots stand for. Table is the invariant, and Finding, Changing,
--                  Adding, Growing, Expanding and Refinement are what the calls do to the map.
--   Prelude        what they share: tests, lists, bytes in memory, bits, and the error codes of
--                  include/aws/common/error.h.
-- A function keeps the name it has in C, without the prefix `aws_` and that of its part. What C writes
-- through a pointer is returned: a call gives the state after it and a `Result`, whose error is the
-- code given to `aws_raise_error`. Where a fatal precondition aborts the program, in every build, the result is
-- `none`: copying an array list and making one.
--
-- Numbers and bounds. `size_t` has 64 bits, and arithmetic that may wrap has its `% 2 ^ w` written out.
-- Loops recur on a list or on fuel. The fuel of `sift_up_loop` is the place it starts from, which
-- falls in each turn, and that of `sift_down_loop` the length of the heap, as its place grows; the blocks
-- of base64 and of `mem_swap` are counted. The loops of the hash table have its size as fuel: a table
-- has an empty slot, which is never a whole turn away. The loop that splits at a character has two rounds
-- more than there are bytes, and each round but the last passes a character.
--
-- Parameters. `mem_acquire n` stands for the bytes of fresh memory, of which the proofs use that
-- there are n of them; `aws_mem_acquire` aborts when memory runs out, so it returns some. The order
-- of a priority queue is the caller's function, and so are the `hash_fn` and `equals_fn` of a hash table, of
-- which the record `Keys` says what the table needs. `max_load_of size` stands for the product in
-- floating point with which the table computes its maximal load; `HalfLoad` says that it is at least half.
-- `big_endian` says in which order the host keeps the bytes of an integer. `node_of` says which node an
-- item of a priority queue was pushed with, and `away` what the nodes outside the queue say.
-- Splitting a text calls the caller's `push`, and `literal` is the address of the empty string in C.
--
-- Not modelled: the preconditions that only debug builds check, the vectorised base64 and the assembly
-- of source/arch, sorting, which is the C library's, the other functions of byte_buf.c, and the parts
-- that are not in the list above, among them the caches, the task scheduler, dates, XML,
-- threads and input and output.
pub mod Prelude
pub mod Math
pub mod RingBuffer
pub mod ArrayList
pub mod ByteBuf
pub mod Encoding
pub mod PriorityQueue
pub mod HashTable
pub mod Cursor
