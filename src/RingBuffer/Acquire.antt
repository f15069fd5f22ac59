-- ===== src/RingBuffer/Acquire.antt =====
-- `aws_ring_buffer_acquire` and `aws_ring_buffer_acquire_up_to`: what they vend is new, in bounds and
-- of the size that was asked for, and they refuse only where the ring has no room.
use mathlib.Core.List.{append_assoc}
use native.Mathlib.Decide.{dec_le}
use aws_c_common.Prelude.{
  ℕ, ◌+◌, ◌-◌, ◌≤◌, ◌<◌, ◌≡◌, ◌⊎◌, inl, inr, refl, List, [], ◌∷◌, ◌++◌, arith, Result, ok, err, oom,
  invalid_argument, max, Bool, true, false, Bool-cases, if_rule, ltb, leb, ◌==◌, if◌then◌else◌,
  ◌&&◌,
}
use aws_c_common.RingBuffer.{
  RingBuffer, ByteBuf, byte_buf_from_empty_array, acquire_from, acquire, acquire_up_to_from,
  acquire_up_to,
}
use aws_c_common.RingBuffer.Layout.{
  Block, nil, cons, Chain-snoc, Chain-empty, Vended, linear, wrapped, Outstanding,
}

-- A copy `t` of the tail may be old: since it was taken the tail has moved on towards the head, or from
-- above the head to the end of its blocks and round to the start.
pub record Pending (t : ℕ) (r : RingBuffer) : Type 0 where
  pub low : r.allocation ≤ t
  pub high : t ≤ r.allocation_end
  pub below : t ≤ r.head → (t ≤ r.tail) × (r.tail ≤ r.head)
  pub above : r.head < t → (t ≤ r.tail) ⊎ (r.tail ≤ r.head)

module _ {r : RingBuffer} {bs : List Block} (o : Outstanding r bs) where
  pub now : Pending r.tail r
  now = record {
    low = o.tail_low;
    high = o.tail_high;
    below = λ h. (omega arith, h);
    above = λ h. inl (omega arith);
  }

  -- The three places where a buffer is put.
  put_at_reset :
      (n : ℕ)
      → r.head ≡ r.tail
      → 0 < n
      → r.allocation + n ≤ r.allocation_end
      → Outstanding
          (record r { head = r.allocation + n; tail = r.allocation })
          (bs ++ (r.allocation, n) ∷ [])
  put_at_reset n same p fits = record {
    allocated = o.allocated;
    owned = o.owned;
    tail_low = omega arith;
    tail_high = omega arith;
    head_low = omega arith;
    head_high = fits;
    vended = rw (none_left bs o.vended) (linear (cons p (nil refl)));
  }
    where
      none_left : (cs : List Block) → Vended r cs → cs ≡ []
      none_left cs (linear c) = Chain-empty c (omega arith)
      none_left cs (wrapped us ls e q cu he cl h k) = absurd (omega arith)

  put_at_head :
      (n : ℕ)
      → 0 < n
      → (r.tail ≤ r.head → r.head + n ≤ r.allocation_end)
      → (r.head < r.tail → r.head + n < r.tail)
      → Outstanding (record r { head = r.head + n }) (bs ++ (r.head, n) ∷ [])
  put_at_head n p below above = record {
    allocated = o.allocated;
    owned = o.owned;
    tail_low = o.tail_low;
    tail_high = o.tail_high;
    head_low = omega (arith, o.head_low);
    head_high = elim (dec_le r.tail r.head) [
      | yes q ↦ below q
      | no q ↦ omega (arith, above (omega arith), o.tail_high)
    ];
    vended = extend bs o.vended;
  }
    where
      extend :
          (cs : List Block)
          → Vended r cs
          → Vended (record r { head = r.head + n }) (cs ++ (r.head, n) ∷ [])
      extend cs (linear c) = linear (Chain-snoc n c p)
      extend cs (wrapped us ls e q cu he cl h k) =
          wrapped us (ls ++ (r.head, n) ∷ []) e (rw (q, append_assoc)) cu he (Chain-snoc n cl p)
            (omega arith) (above k)

  put_at_start :
      (n : ℕ)
      → 0 < n
      → r.tail ≤ r.head
      → r.allocation + n < r.tail
      → Outstanding (record r { head = r.allocation + n }) (bs ++ (r.allocation, n) ∷ [])
  put_at_start n p below fits = record {
    allocated = o.allocated;
    owned = o.owned;
    tail_low = o.tail_low;
    tail_high = o.tail_high;
    head_low = omega arith;
    head_high = omega (arith, o.tail_high);
    vended = turn bs o.vended;
  }
    where
      turn :
          (cs : List Block)
          → Vended r cs
          → Vended (record r { head = r.allocation + n }) (cs ++ (r.allocation, n) ∷ [])
      turn cs (linear c) =
          wrapped cs ((r.allocation, n) ∷ []) r.head refl c o.head_high (cons p (nil refl))
            (omega arith) fits
      turn cs (wrapped us ls e q cu he cl h k) = absurd (omega arith)

-- A call returns a new outstanding buffer that fits `P`, or out-of-memory and the ring as it was.
abbrev pub Grants : RingBuffer → List Block → (ℕ → Type 0) → RingBuffer × Result ByteBuf → Type 0
Grants r bs P (r', ok buf) = Outstanding r' (bs ++ (buf.buffer, buf.capacity) ∷ []) × P buf.capacity
Grants r bs P (r', err e) = (r' ≡ r) × (e ≡ oom)

buf_of :
    (p n : ℕ)
    → 0 < n
    → byte_buf_from_empty_array p n ≡ record { len = 0; buffer = p; capacity = n; allocator = 0 }
unfolding byte_buf_from_empty_array
buf_of p n h = ground arith

abbrev ring_space : RingBuffer → ℕ
ring_space r = if r.allocation_end == 0 then 0 else r.allocation_end - r.allocation

abbrev at_most : ℕ → ℕ → ℕ
at_most requested space = if ltb requested space then requested else space

granted :
    (r r' : RingBuffer) (bs : List Block) (P : ℕ → Type 0) (p n : ℕ)
    → 0 < n
    → Outstanding r' (bs ++ (p, n) ∷ [])
    → P n
    → Grants r bs P (r', ok (byte_buf_from_empty_array p n))
granted r r' bs P p n pos o h = rw (buf_of p n pos) (o, h)

module _ (r : RingBuffer) (bs : List Block) (o : Outstanding r bs) (t : ℕ)
    (pending : Pending t r) where
  pub acquire_from-Grants : (n : ℕ) → 0 < n → Grants r bs (λ c. c ≡ n) (acquire_from r t r.head n)
  unfolding acquire_from
  acquire_from-Grants n pos =
      if_rule G (r.head == t)
        (λ same.
          if_rule G (ltb (ring_space r) n) (λ full. (refl, refl))
            (λ fits. put r.allocation (
              put_at_reset o n (ground (arith, pending.below)) pos
                (ground (arith, o.head_low, o.head_high, o.allocated)))))
        (λ differ.
          if_rule G (ltb r.head t)
            (λ over.
              if_rule G (leb n (t - r.head - 1))
                (λ fits. put r.head (
                  put_at_head o n pos (λ h. ground (arith, pending.high))
                    (λ h. ground (arith, pending.above))))
                (λ full. (refl, refl)))
            (λ under.
              if_rule G (leb n (r.allocation_end - r.head))
                (λ fits.
                  put r.head
                    (put_at_head o n pos (λ h. ground arith) (λ h. ground (arith, pending.below))))
                (λ short.
                  if_rule G (ltb n (t - r.allocation))
                    (λ fits. put r.allocation (
                      put_at_start o n pos (ground (arith, pending.below))
                        (ground (arith, pending.below))))
                    (λ full. (refl, refl)))))
    where
      G : RingBuffer × Result ByteBuf → Type 0
      G = Grants r bs (λ c. c ≡ n)

      put :
          (p : ℕ) {r' : RingBuffer}
          → Outstanding r' (bs ++ (p, n) ∷ [])
          → G (r', ok (byte_buf_from_empty_array p n))
      put p o' = granted r _ bs (λ c. c ≡ n) p n pos o' refl

  pub acquire_up_to_from-Grants :
      (m n : ℕ)
      → 0 < m
      → m ≤ n
      → Grants r bs (λ c. (m ≤ c) × (c ≤ n)) (acquire_up_to_from r t r.head m n)
  unfolding acquire_up_to_from
  acquire_up_to_from-Grants m n pos le =
      if_rule G (r.head == t)
        (λ same.
          if_rule G (ltb (at_most n (ring_space r)) m) (λ full. (refl, refl))
            (λ fits.
              put r.allocation (at_most n (ring_space r))
                (put_at_reset o _ (ground (arith, pending.below)) (ground arith)
                  (ground (arith, o.head_low, o.head_high, o.allocated)))
                (ground arith) (ground arith)))
        (λ differ.
          if_rule G (ltb r.head t)
            (λ over.
              if_rule G (leb m (at_most n (t - r.head - 1)))
                (λ fits.
                  put r.head (at_most n (t - r.head - 1))
                    (put_at_head o _ (ground arith) (λ h. ground (arith, pending.high))
                      (λ h. ground (arith, pending.above)))
                    (ground arith) (ground arith))
                (λ full. (refl, refl)))
            (λ under.
              if_rule G (leb n (r.allocation_end - r.head))
                (λ fits.
                  put r.head n
                    (put_at_head o n (ground arith) (λ h. ground arith)
                      (λ h. ground (arith, pending.below)))
                    (ground arith) (ground arith))
                (λ short.
                  if_rule G (ltb n (t - r.allocation))
                    (λ fits.
                      put r.allocation n
                        (put_at_start o n (ground arith) (ground (arith, pending.below))
                          (ground (arith, pending.below)))
                        (ground arith) (ground arith))
                    (λ none.
                      if_rule G
                        (leb m (r.allocation_end - r.head)
                          && leb (t - r.allocation) (r.allocation_end - r.head))
                        (λ fits.
                          put r.head (r.allocation_end - r.head)
                            (put_at_head o _ (ground arith) (λ h. ground arith)
                              (λ h. ground (arith, pending.below)))
                            (ground arith) (ground arith))
                        (λ few.
                          if_rule G (ltb m (t - r.allocation))
                            (λ fits.
                              let e : r.allocation + (t - r.allocation) - 1
                                  ≡ r.allocation + (t - r.allocation - 1) =
                                ground arith in
                              rw e (
                                put r.allocation (t - r.allocation - 1)
                                  (put_at_start o _ (ground arith) (ground (arith, pending.below))
                                    (ground (arith, pending.below)))
                                  (ground arith) (ground arith)))
                            (λ full. (refl, refl)))))))
    where
      G : RingBuffer × Result ByteBuf → Type 0
      G = Grants r bs (λ c. (m ≤ c) × (c ≤ n))

      put :
          (p c : ℕ) {r' : RingBuffer}
          → Outstanding r' (bs ++ (p, c) ∷ [])
          → m ≤ c
          → c ≤ n
          → G (r', ok (byte_buf_from_empty_array p c))
      put p c o' low high = granted r _ bs (λ c. (m ≤ c) × (c ≤ n)) p c (omega arith) o' (low, high)

-- The largest buffer that the ring can vend: all of it while nothing is out, else the gap between head
-- and tail less one byte, or one of the two ends, the lower one less one byte.
unfoldable pub room : RingBuffer → ℕ
room r =
    if r.head == r.tail
    then r.allocation_end - r.allocation
    else if ltb r.head r.tail
    then r.tail - r.head - 1
    else max (r.allocation_end - r.head) (r.tail - r.allocation - 1)

abbrev pub succeeds : RingBuffer × Result ByteBuf → Bool
succeeds (r, ok buf) = true
succeeds (r, err e) = false

module _ (r : RingBuffer) (m n : ℕ) (pos : 0 < m) (le : m ≤ n) (base : r.allocation ≤ r.tail)
    (top : r.head ≤ r.allocation_end) (end_pos : 0 < r.allocation_end) where
  up_to_empty :
      (r.head == r.tail) ≡ true → succeeds (acquire_up_to_from r r.tail r.head m n) ≡ leb m (room r)
  unfolding acquire_up_to_from room
  up_to_empty same = rw same (ground arith)

  up_to_over :
      (r.head == r.tail) ≡ false
      → ltb r.head r.tail ≡ true
      → succeeds (acquire_up_to_from r r.tail r.head m n) ≡ leb m (room r)
  unfolding acquire_up_to_from room
  up_to_over differ over = rw (differ, over) (ground arith)

  up_to_under :
      (r.head == r.tail) ≡ false
      → ltb r.head r.tail ≡ false
      → succeeds (acquire_up_to_from r r.tail r.head m n) ≡ leb m (room r)
  unfolding acquire_up_to_from room
  up_to_under differ under = rw (differ, under) (ground arith)

  up_to_room : succeeds (acquire_up_to_from r r.tail r.head m n) ≡ leb m (room r)
  up_to_room = elim (Bool-cases (r.head == r.tail)) [
    | inl same ↦ up_to_empty same
    | inr differ ↦ elim (Bool-cases (ltb r.head r.tail)) [
      | inl over ↦ up_to_over differ over
      | inr under ↦ up_to_under differ under
    ]
  ]

-- A request is granted exactly when the ring has room for it, or for its minimum; a request for 0 bytes
-- is an invalid argument.
pub acquire-room :
    (r : RingBuffer) (bs : List Block) (m n : ℕ)
    → Outstanding r bs
    → m ≤ n
    → (succeeds (acquire r n) ≡ (ltb 0 n && leb n (room r)))
      × (succeeds (acquire_up_to r m n) ≡ (ltb 0 m && leb m (room r)))
      × ((acquire r 0).1 ≡ err invalid_argument)
      × ((acquire_up_to r 0 n).1 ≡ err invalid_argument)
unfolding acquire acquire_from acquire_up_to room
acquire-room r bs m n o le =
    let base = o.tail_low in
    let top = o.head_high in
    let last = o.head_low in
    (
      ground (arith, o.allocated, o.tail_low, o.tail_high, o.head_low, o.head_high),
      ground (arith, up_to_room r m n),
      refl,
      ground arith,
    )

-- With the outstanding buffers `bs`, a request for `n` bytes gets a buffer of just that capacity, and one
-- for `m` up to `n` bytes a capacity in that range. The new buffer joins `bs` as the newest, and the
-- invariant holds again. Otherwise the call reports out-of-memory and changes nothing.
pub acquire-Grants :
    (r : RingBuffer) (bs : List Block) (m n : ℕ)
    → Outstanding r bs
    → 0 < m
    → m ≤ n
    → Grants r bs (λ c. c ≡ n) (acquire r n)
      × Grants r bs (λ c. (m ≤ c) × (c ≤ n)) (acquire_up_to r m n)
unfolding acquire acquire_up_to
acquire-Grants r bs m n o pos le =
    let e : (n == 0) ≡ false = ground arith in
    let e' : (m == 0) ≡ false = ground arith in
    (
      rw e (acquire_from-Grants r bs o r.tail (now o) n (omega arith)),
      rw (e, e') (acquire_up_to_from-Grants r bs o r.tail (now o) m n pos le),
    )
