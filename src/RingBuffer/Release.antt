-- ===== src/RingBuffer/Release.antt =====
-- `aws_ring_buffer_init` and `aws_ring_buffer_release`, and what the invariant says of the buffers.
use aws_c_common.Prelude.{
  ℕ, ◌+◌, ◌≤◌, ◌<◌, ◌≡◌, ◌⊎◌, inl, inr, refl, true, List, [], ◌∷◌, ◌++◌, arith, some, sym, subst,
}
use aws_c_common.RingBuffer.{RingBuffer, ByteBuf, init, release, is_valid, zeroed_buf}
use aws_c_common.RingBuffer.Layout.{
  Block, All, Within, Apart, Chain, nil, cons, Chain-le, Chain-Within, Chain-Apart, Apart-append,
  All-append, All-mono, Vended, linear, wrapped, Outstanding,
}
use aws_c_common.RingBuffer.Acquire.{Pending}

Chain-uncons :
    {a b p n : ℕ} {bs : List Block}
    → Chain a b ((p, n) ∷ bs)
    → (p ≡ a) × (0 < n) × Chain (p + n) b bs
Chain-uncons (cons h c) = (refl, h, c)

module _ (r : RingBuffer) (p n : ℕ) (bs : List Block) where
  abbrev Released : Type 0
  Released =
      Vended (record r { tail = p + n }) bs
      × (r.tail ≤ p + n ⊎ p + n ≤ r.head)
      × (r.tail ≤ r.head → (r.tail ≤ p + n) × (p + n ≤ r.head))
      × (r.allocation < p + n)
      × (p + n ≤ r.allocation_end)

  release_wrapped :
      (us ls : List Block) (e : ℕ)
      → (p, n) ∷ bs ≡ us ++ ls
      → Chain r.tail e us
      → e ≤ r.allocation_end
      → Chain r.allocation r.head ls
      → r.allocation < r.head
      → r.head < r.tail
      → r.tail ≤ r.allocation_end
      → Released
  release_wrapped [] ls e q cu he cl low high top =
      let (at, pos, rest) = Chain-uncons (subst (Chain r.allocation r.head) (sym q) cl) in
      (
        linear rest,
        inr (Chain-le rest),
        λ h. absurd (omega arith),
        omega arith,
        omega (arith, Chain-le rest),
      )
  release_wrapped (u ∷ us) ls e q cu he cl low high top =
      let head_eq : u ≡ (p, n) = cc in
      let (at, pos, rest) = Chain-uncons (subst (λ v. Chain r.tail e (v ∷ us)) head_eq cu) in
      (
        wrapped us ls e (cc) rest he cl low (omega arith),
        inl (omega arith),
        λ h. absurd (omega arith),
        omega arith,
        omega (arith, Chain-le rest),
      )

  release_vended : Outstanding r ((p, n) ∷ bs) → Released
  release_vended o = go o.vended
    where
      go : Vended r ((p, n) ∷ bs) → Released
      go (linear c) =
          let (at, pos, rest) = Chain-uncons c in
          (
            linear rest,
            inl (omega arith),
            λ h. (omega arith, Chain-le rest),
            omega (arith, o.tail_low),
            omega (arith, Chain-le rest, o.head_high),
          )
      go (wrapped us ls e q cu he cl low high) =
          release_wrapped us ls e q cu he cl low high o.tail_high

  pub release-Pending :
      {t : ℕ} → Outstanding r ((p, n) ∷ bs) → Pending t r → Pending t (record r { tail = p + n })
  release-Pending o k =
      let (v, moved, under, low, high) = release_vended o in
      record {
        low = k.low;
        high = k.high;
        below = λ h. omega (arith, k.below h, under (k.below h).1);
        above = λ h. elim (k.above h) [ inl later ↦ omega arith | inr round ↦ inr (under round).1 ];
      }

-- Releasing the oldest outstanding buffer frees just that one: the others stay outstanding, in their
-- order, and the caller's structure is zeroed.
pub release-Outstanding :
    (r : RingBuffer) (buf : ByteBuf) (bs : List Block)
    → Outstanding r ((buf.buffer, buf.capacity) ∷ bs)
    → Outstanding (release r buf).0 bs × ((release r buf).1 ≡ zeroed_buf)
unfolding release
release-Outstanding r buf bs o =
    let (v, moved, under, low, high) = release_vended r buf.buffer buf.capacity bs o in
    (
      record {
        allocated = o.allocated;
        owned = o.owned;
        tail_low = omega arith;
        tail_high = high;
        head_low = o.head_low;
        head_high = o.head_high;
        vended = v;
      },
      refl,
    )

blocks_safe :
    (r : RingBuffer) (bs : List Block)
    → Outstanding r bs
    → All (Within r.allocation r.allocation_end) bs × Apart bs
blocks_safe r bs o = go o.vended
  where
    go : Vended r bs → All (Within r.allocation r.allocation_end) bs × Apart bs
    go (linear c) = (
      All-mono bs (λ b w. (omega (arith, o.tail_low), w.1, omega (arith, o.head_high)))
          (Chain-Within c),
      Chain-Apart c,
    )
    go (wrapped us ls e q cu he cl low high) = rw q (
      All-append _ us ls
          (All-mono us (λ b w. (omega (arith, o.tail_low), w.1, omega arith)) (Chain-Within cu))
          (All-mono ls (λ b w. (w.0, w.1, omega (arith, o.head_high))) (Chain-Within cl)),
      Apart-append us ls r.allocation r.tail e r.head (Chain-Within cu) (Chain-Within cl)
          (omega arith) (Chain-Apart cu) (Chain-Apart cl),
    )

-- Outstanding buffers lie in the allocation, share no byte with one another, and have at least one; and
-- the structure passes the library's own validity check.
pub Outstanding-safe :
    (r : RingBuffer) (bs : List Block)
    → Outstanding r bs
    → All (Within r.allocation r.allocation_end) bs × Apart bs × (is_valid r ≡ true)
unfolding is_valid
Outstanding-safe r bs o =
    let (inside, apart) = blocks_safe r bs o in
    let known = shape o.vended in
    (
      inside,
      apart,
      ground (arith, o.allocated, o.owned, o.tail_low, o.tail_high, o.head_low, o.head_high, known),
    )
  where
    shape : Vended r bs → (r.tail ≤ r.head) ⊎ (r.allocation < r.head)
    shape (linear c) = inl (Chain-le c)
    shape (wrapped us ls e q cu he cl low high) = inr low

-- A ring that `init` has made over `size` bytes at a non-null address has nothing outstanding.
pub init-Outstanding :
    (memory allocator size : ℕ)
    → 0 < memory
    → 0 < allocator
    → (r : RingBuffer) × (init memory allocator size ≡ some r) × Outstanding r []
unfolding init
init-Outstanding memory allocator size h k = (
  record {
    allocator = allocator;
    allocation = memory;
    head = memory;
    tail = memory;
    allocation_end = memory + size;
  },
  ground arith,
  record {
    allocated = h;
    owned = k;
    tail_low = omega arith;
    tail_high = omega arith;
    head_low = omega arith;
    head_high = omega arith;
    vended = linear (nil refl);
  },
)
