-- ===== src/RingBuffer/Layout.antt =====
-- What a ring has vended: the outstanding buffers, oldest first, as start and size, and the invariant
-- that ties them to the two pointers.
use aws_c_common.Prelude.{ℕ, ◌+◌, ◌≤◌, ◌<◌, ◌≡◌, ◌⊎◌, inl, inr, refl, List, [], ◌∷◌, ◌++◌, arith}
use aws_c_common.RingBuffer.{RingBuffer}

abbrev pub Block : Type 0
Block = ℕ × ℕ

abbrev pub All : (Block → Type 0) → List Block → Type 0
All P [] = Unit {0}
All P (b ∷ bs) = P b × All P bs

-- Two blocks share no address.
abbrev pub Disjoint : Block → Block → Type 0
Disjoint b c = (b.0 + b.1 ≤ c.0) ⊎ (c.0 + c.1 ≤ b.0)

-- A block of positive size between two addresses.
abbrev pub Within : ℕ → ℕ → Block → Type 0
Within lo hi b = (lo ≤ b.0) × (0 < b.1) × (b.0 + b.1 ≤ hi)

-- The blocks of the list are pairwise disjoint.
abbrev pub Apart : List Block → Type 0
Apart [] = Unit {0}
Apart (b ∷ bs) = All (Disjoint b) bs × Apart bs

-- The blocks follow one another without a gap from `a` to `b`.
pub data Chain : ℕ → ℕ → List Block → Type 0 where
  nil : {a b : ℕ} → a ≡ b → Chain a b []
  cons : {a b n : ℕ} {bs : List Block} → 0 < n → Chain (a + n) b bs → Chain a b ((a, n) ∷ bs)

pub Chain-le : {a b : ℕ} {bs : List Block} → Chain a b bs → a ≤ b
Chain-le (nil e) = omega arith
Chain-le (cons p c) = omega (arith, Chain-le c)

pub Chain-snoc :
    {a b : ℕ} {bs : List Block} (n : ℕ) → Chain a b bs → 0 < n → Chain a (b + n) (bs ++ (b, n) ∷ [])
Chain-snoc n (nil e) p = rw e (cons p (nil refl))
Chain-snoc n (cons q c) p = cons q (Chain-snoc n c p)

pub All-mono :
    {P Q : Block → Type 0} (bs : List Block) → ((b : Block) → P b → Q b) → All P bs → All Q bs
All-mono [] f h = tt
All-mono (b ∷ bs) f h = (f b h.0, All-mono bs f h.1)

pub All-append : (P : Block → Type 0) (bs cs : List Block) → All P bs → All P cs → All P (bs ++ cs)
All-append P [] cs h k = k
All-append P (b ∷ bs) cs h k = (h.0, All-append P bs cs h.1 k)

pub Chain-Within : {a b : ℕ} {bs : List Block} → Chain a b bs → All (Within a b) bs
Chain-Within (nil e) = tt
Chain-Within (cons {a} {b} {n} {bs} p c) =
    ((omega arith, p, Chain-le c), All-mono bs (λ x w. (omega arith, w.1, w.2)) (Chain-Within c))

pub Chain-Apart : {a b : ℕ} {bs : List Block} → Chain a b bs → Apart bs
Chain-Apart (nil e) = tt
Chain-Apart (cons {a} {b} {n} {bs} p c) =
    (All-mono bs (λ x w. inl w.0) (Chain-Within c), Chain-Apart c)

-- Lists on either side of an address are apart together.
pub Apart-append :
    (us ls : List Block) (a m e b : ℕ)
    → All (Within m e) us
    → All (Within a b) ls
    → b ≤ m
    → Apart us
    → Apart ls
    → Apart (us ++ ls)
Apart-append [] ls a m e b wu wl h pu pl = pl
Apart-append (u ∷ us) ls a m e b wu wl h pu pl = (
  All-append _ us ls pu.0 (All-mono ls (λ x w. inr (omega arith)) wl),
  Apart-append us ls a m e b wu.1 wl h pu.1 pl,
)

pub Chain-empty : {a b : ℕ} {bs : List Block} → Chain a b bs → b ≤ a → bs ≡ []
Chain-empty (nil e) h = refl
Chain-empty (cons p c) h = absurd (omega (arith, Chain-le c))

-- The blocks lie from the tail to the head, or they wrap: from the tail up to some end, and again from
-- the start of the allocation up to the head, which stays below the tail.
pub data Vended (r : RingBuffer) (bs : List Block) : Type 0 where
  linear : Chain r.tail r.head bs → Vended r bs
  wrapped :
      (us ls : List Block) (e : ℕ)
      → bs ≡ us ++ ls
      → Chain r.tail e us
      → e ≤ r.allocation_end
      → Chain r.allocation r.head ls
      → r.allocation < r.head
      → r.head < r.tail
      → Vended r bs

-- A ring whose outstanding buffers are `bs`, oldest first.
pub record Outstanding (r : RingBuffer) (bs : List Block) : Type 0 where
  pub allocated : 0 < r.allocation
  pub owned : 0 < r.allocator
  pub tail_low : r.allocation ≤ r.tail
  pub tail_high : r.tail ≤ r.allocation_end
  pub head_low : r.allocation ≤ r.head
  pub head_high : r.head ≤ r.allocation_end
  pub vended : Vended r bs
