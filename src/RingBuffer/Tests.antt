-- ===== src/RingBuffer/Tests.antt =====
-- Runs of the ring, and its theorems at a ring that has wrapped round.
use aws_c_common.Prelude.{
  ◌≡◌, refl, List, [], ◌∷◌, ok, err, oom, invalid_argument, ltb, leb, ◌&&◌, true, arith, none, ◌≤◌,
}
use aws_c_common.RingBuffer.{
  RingBuffer, ByteBuf, byte_buf_from_empty_array, acquire_from, acquire, acquire_up_to_from,
  acquire_up_to, release, zeroed_buf, is_valid,
}
use aws_c_common.RingBuffer.Layout.{
  Block, All, Within, Apart, nil, cons, linear, wrapped, Outstanding,
}
use aws_c_common.RingBuffer.Acquire.{Grants, acquire-Grants, acquire-room, room, succeeds}
use aws_c_common.RingBuffer.Release.{release-Outstanding, Outstanding-safe}
use aws_c_common.RingBuffer.Concurrent.{Reach, load, grant, free, here, next, interleaved_safe}

-- Ten bytes at address 100; two buffers at the upper end and one of three bytes at the start.
abbrev ring : RingBuffer
ring = record { allocator = 1; allocation = 100; head = 103; tail = 107; allocation_end = 110 }

abbrev blocks : List Block
blocks = (107, 1) ∷ (108, 2) ∷ (100, 3) ∷ []

ring-Outstanding : Outstanding ring blocks
ring-Outstanding = record {
  allocated = omega arith;
  owned = omega arith;
  tail_low = omega arith;
  tail_high = omega arith;
  head_low = omega arith;
  head_high = omega arith;
  vended =
      wrapped ((107, 1) ∷ (108, 2) ∷ []) ((100, 3) ∷ []) 110 refl
        (cons (omega arith) (cons (omega arith) (nil refl))) (omega arith)
        (cons (omega arith) (nil refl)) (omega arith) (omega arith);
}

acquire_three :
    (acquire ring 3).1 ≡ ok (record { len = 0; buffer = 103; capacity = 3; allocator = 0 })
unfolding acquire acquire_from byte_buf_from_empty_array
acquire_three = refl

acquire_four : acquire ring 4 ≡ (ring, err oom)
unfolding acquire acquire_from
acquire_four = refl

up_to_nine :
    (acquire_up_to ring 2 9).1 ≡ ok (record { len = 0; buffer = 103; capacity = 3; allocator = 0 })
unfolding acquire_up_to acquire_up_to_from byte_buf_from_empty_array
up_to_nine = refl

acquire-Grants_example :
    Grants ring blocks (λ c. c ≡ 3) (acquire ring 3)
    × Grants ring blocks (λ c. (2 ≤ c) × (c ≤ 3)) (acquire_up_to ring 2 3)
acquire-Grants_example = acquire-Grants ring blocks 2 3 ring-Outstanding (omega arith) (omega arith)

acquire-room_example :
    (succeeds (acquire ring 4) ≡ (ltb 0 4 && leb 4 (room ring)))
    × (succeeds (acquire_up_to ring 2 4) ≡ (ltb 0 2 && leb 2 (room ring)))
    × ((acquire ring 0).1 ≡ err invalid_argument)
    × ((acquire_up_to ring 0 4).1 ≡ err invalid_argument)
acquire-room_example = acquire-room ring blocks 2 4 ring-Outstanding (omega arith)

abbrev oldest : ByteBuf
oldest = record { len = 1; buffer = 107; capacity = 1; allocator = 0 }

release-Outstanding_example :
    Outstanding (release ring oldest).0 ((108, 2) ∷ (100, 3) ∷ [])
    × ((release ring oldest).1 ≡ zeroed_buf)
release-Outstanding_example =
    release-Outstanding ring oldest ((108, 2) ∷ (100, 3) ∷ []) ring-Outstanding

Outstanding-safe_example : All (Within 100 110) blocks × Apart blocks × (is_valid ring ≡ true)
Outstanding-safe_example = Outstanding-safe ring blocks ring-Outstanding

abbrev fresh : RingBuffer
fresh = record { allocator = 1; allocation = 100; head = 100; tail = 100; allocation_end = 110 }

fresh-Outstanding : Outstanding fresh []
fresh-Outstanding = record {
  allocated = omega arith;
  owned = omega arith;
  tail_low = omega arith;
  tail_high = omega arith;
  head_low = omega arith;
  head_high = omega arith;
  vended = linear (nil refl);
}

-- Seven bytes are acquired; while a second call is under way they are released; the call ends with the
-- old copy of the tail.
abbrev after : RingBuffer
after = record { allocator = 1; allocation = 100; head = 109; tail = 107; allocation_end = 110 }

schedule :
    Reach
      (record { ring = fresh; out = []; loaded = none })
      (record { ring = after; out = (107, 2) ∷ []; loaded = none })
unfolding acquire_from byte_buf_from_empty_array release
schedule =
    next
      (next (next (next (next here (load refl)) (grant 100 100 7 refl (omega arith))) (load refl))
        (free (record { len = 0; buffer = 100; capacity = 7; allocator = 0 }) [] refl))
      (grant 100 107 2 refl (omega arith))

interleaved_safe_example :
    All (Within 100 110) ((107, 2) ∷ []) × Apart ((107, 2) ∷ []) × (is_valid after ≡ true)
interleaved_safe_example = interleaved_safe fresh fresh-Outstanding schedule
