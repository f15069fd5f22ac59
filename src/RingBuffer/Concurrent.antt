-- ===== src/RingBuffer/Concurrent.antt =====
-- One thread acquires while another releases: a release may come between the loads of the two pointers
-- by `acquire` and its stores. The two atomic pointers are read and written in one order that both
-- threads see. The acquiring thread alone writes `head`, so its two loads count as one step.
use aws_c_common.Prelude.{
  ℕ, ◌≤◌, ◌<◌, ◌≡◌, refl, true, List, [], ◌∷◌, ◌++◌, Option, none, some, Result, ok, err, subst,
  sym,
}
use aws_c_common.RingBuffer.{
  RingBuffer, ByteBuf, release, is_valid, acquire_from, acquire_up_to_from,
}
use aws_c_common.RingBuffer.Layout.{Block, All, Within, Apart, Outstanding}
use aws_c_common.RingBuffer.Acquire.{
  Pending, now, Grants, acquire_from-Grants, acquire_up_to_from-Grants,
}
use aws_c_common.RingBuffer.Release.{release-Pending, release-Outstanding, Outstanding-safe}

-- The ring, its outstanding buffers, oldest first, and the copies of tail and head that a call of
-- `acquire` in progress has loaded.
pub record System : Type 0 where
  pub ring : RingBuffer
  pub out : List Block
  pub loaded : Option (ℕ × ℕ)

-- The call ends: its buffer, if it got one, is handed out.
abbrev finish : System → RingBuffer × Result ByteBuf → System
finish s (r, ok buf) = record {
  ring = r;
  out = s.out ++ (buf.buffer, buf.capacity) ∷ [];
  loaded = none;
}
finish s (r, err e) = record { ring = r; out = s.out; loaded = none }

pub data Step (s : System) : System → Type 0 where
  load : s.loaded ≡ none → Step s (record s { loaded = some (s.ring.tail, s.ring.head) })
  grant :
      (t h n : ℕ) → s.loaded ≡ some (t, h) → 0 < n → Step s (finish s (acquire_from s.ring t h n))
  grant_up_to :
      (t h m n : ℕ)
      → s.loaded ≡ some (t, h)
      → 0 < m
      → m ≤ n
      → Step s (finish s (acquire_up_to_from s.ring t h m n))
  free :
      (buf : ByteBuf) (bs : List Block)
      → s.out ≡ (buf.buffer, buf.capacity) ∷ bs
      → Step s (record s { ring = (release s.ring buf).0; out = bs })

pub data Reach (s : System) : System → Type 0 where
  here : Reach s s
  next : {t u : System} → Reach s t → Step t u → Reach s u

abbrev Copies : Option (ℕ × ℕ) → RingBuffer → Type 0
Copies none r = Unit {0}
Copies (some (t, h)) r = Pending t r × (h ≡ r.head)

record Inv (s : System) : Type 0 where
  outstanding : Outstanding s.ring s.out
  copies : Copies s.loaded s.ring

finish-Inv :
    (s : System) (P : ℕ → Type 0) (o : Outstanding s.ring s.out) (x : RingBuffer × Result ByteBuf)
    → Grants s.ring s.out P x
    → Inv (finish s x)
finish-Inv s P o (r, ok buf) g = record { outstanding = g.0; copies = tt }
finish-Inv s P o (r, err e) g = record {
  outstanding = subst (λ q. Outstanding q s.out) (sym g.0) o;
  copies = tt;
}

module _ (s : System) (v : Inv s) where
  copied : (t h : ℕ) → s.loaded ≡ some (t, h) → Pending t s.ring × (h ≡ s.ring.head)
  copied t h e = subst (λ c. Copies c s.ring) e v.copies

  free-Copies :
      (buf : ByteBuf) (bs : List Block) (c : Option (ℕ × ℕ))
      → Outstanding s.ring ((buf.buffer, buf.capacity) ∷ bs)
      → Copies c s.ring
      → Copies c (release s.ring buf).0
  unfolding release
  free-Copies buf bs none o k = tt
  free-Copies buf bs (some (t, h)) o k =
      (release-Pending s.ring buf.buffer buf.capacity bs o k.0, k.1)

Step-Inv : {s u : System} → Step s u → Inv s → Inv u
Step-Inv {s} (load e) v = record { outstanding = v.outstanding; copies = (now v.outstanding, refl) }
Step-Inv {s} (grant t h n e p) v =
    let (k, at) = copied s v t h e in
    rw at (
      finish-Inv s (λ c. c ≡ n) v.outstanding _
        (acquire_from-Grants s.ring s.out v.outstanding t k n p))
Step-Inv {s} (grant_up_to t h m n e p q) v =
    let (k, at) = copied s v t h e in
    rw at (
      finish-Inv s (λ c. (m ≤ c) × (c ≤ n)) v.outstanding _
        (acquire_up_to_from-Grants s.ring s.out v.outstanding t k m n p q))
Step-Inv {s} (free buf bs e) v =
    let o : Outstanding s.ring ((buf.buffer, buf.capacity) ∷ bs) =
      subst (Outstanding s.ring) e v.outstanding in
    record {
      outstanding = (release-Outstanding s.ring buf bs o).0;
      copies = free-Copies s v buf bs s.loaded o v.copies;
    }

Reach-Inv : {s u : System} → Inv s → Reach s u → Inv u
Reach-Inv v here = v
Reach-Inv v (next r st) = Step-Inv st (Reach-Inv v r)

-- Start from a ring with nothing outstanding and no call in progress. However the steps of one acquiring
-- thread interleave with releases of the oldest buffer, the outstanding buffers always lie in the
-- allocation, have at least one byte, and are pairwise disjoint, and the structure stays valid.
pub interleaved_safe :
    (r : RingBuffer) {s : System}
    → Outstanding r []
    → Reach (record { ring = r; out = []; loaded = none }) s
    → All (Within s.ring.allocation s.ring.allocation_end) s.out
      × Apart s.out
      × (is_valid s.ring ≡ true)
interleaved_safe r {s} o steps =
    let v = Reach-Inv (record { outstanding = o; copies = tt }) steps in
    Outstanding-safe s.ring s.out v.outstanding
