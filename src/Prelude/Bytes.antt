-- ===== src/Prelude/Bytes.antt =====
-- Memory as lists of bytes: `memcpy`, `memmove` and `memset` into an allocation, and the laws that cut a
-- list where two parts meet.
use mathlib.Core.List.{append_assoc}
use aws_c_common.Prelude.Lists.{
  length, take, drop, length-append, length-take, length-drop, take-append-drop,
}
use Prim.Native.Nat.{ℕ, zero, suc, ◌+◌, ◌≤◌}
use mathlib.Core.Path.{◌≡◌, refl, sym, ap}
use mathlib.Core.List.{List, [], ◌∷◌, ◌++◌}
use native.Mathlib.Omega.{arith}

abbrev pub Bytes : Type 0
Bytes = List ℕ

-- The n bytes from offset `off` on.
unfoldable pub read_at : ℕ → ℕ → Bytes → Bytes
read_at off n bs = take n (drop off bs)

-- `memcpy(bs + off, vs, length vs)`
unfoldable pub write_at : ℕ → Bytes → Bytes → Bytes
write_at off vs bs = take off bs ++ (vs ++ drop (off + length vs) bs)

-- `memmove(bs + to, bs + from, n)`
unfoldable pub move_within : (to from n : ℕ) → Bytes → Bytes
unfolding read_at write_at
move_within to from n bs = write_at to (read_at from n bs) bs

module _ {ℓ} {A : Type ℓ} where
  pub take-append : (n : ℕ) (xs ys : List A) → n ≡ length xs → take n (xs ++ ys) ≡ xs
  take-append zero [] ys e = refl
  take-append zero (x ∷ xs) ys e = absurd (omega arith)
  take-append (suc n) [] ys e = absurd (omega arith)
  take-append (suc n) (x ∷ xs) ys e = ap (◌∷◌ x) (take-append n xs ys (omega arith))

  pub drop-append : (n : ℕ) (xs ys : List A) → n ≡ length xs → drop n (xs ++ ys) ≡ ys
  drop-append zero [] ys e = refl
  drop-append zero (x ∷ xs) ys e = absurd (omega arith)
  drop-append (suc n) [] ys e = absurd (omega arith)
  drop-append (suc n) (x ∷ xs) ys e = drop-append n xs ys (omega arith)

  pub length-eq-zero : (xs : List A) → length xs ≡ 0 → xs ≡ []
  length-eq-zero [] e = refl
  length-eq-zero (x ∷ xs) e = absurd (omega arith)

-- Reading and writing a part between two others.
pub read-middle :
    (off n : ℕ) (a b c : Bytes) → off ≡ length a → n ≡ length b → read_at off n (a ++ (b ++ c)) ≡ b
unfolding read_at
read-middle off n a b c e f = rw (drop-append off a (b ++ c) e, take-append n b c f)

pub write-middle :
    (off : ℕ) (a b c vs : Bytes)
    → off ≡ length a
    → length vs ≡ length b
    → write_at off vs (a ++ (b ++ c)) ≡ a ++ (vs ++ c)
unfolding write_at
write-middle off a b c vs e f = rw (
  take-append off a (b ++ c) e,
  ← append_assoc a b c,
  drop-append (off + length vs) (a ++ b) c (omega (arith, length-append a b)),
)

pub length-write_at :
    (off : ℕ) (vs bs : Bytes)
    → off + length vs ≤ length bs
    → length (write_at off vs bs) ≡ length bs
unfolding write_at
length-write_at off vs bs h = omega (
  arith,
  length-append (take off bs) (vs ++ drop (off + length vs) bs),
  length-append vs (drop (off + length vs) bs),
  length-take off bs,
  length-drop (off + length vs) bs,
)

-- A long enough list is a part of the wanted length and the rest.
pub cut :
    (n : ℕ) (bs : Bytes)
    → n ≤ length bs
    → (a : Bytes) × (c : Bytes) × (bs ≡ a ++ c) × (length a ≡ n)
cut n bs h = (take n bs, drop n bs, sym (take-append-drop n bs), omega (arith, length-take n bs))
