-- ===== src/Cursor/Numbers.antt =====
-- `s_read_unsigned` against the positional value of the digits.
use native.Mathlib.Nat.{one-le-pow, pow-suc, pow-zero}
use aws_c_common.Prelude.Table.{all_below, of_all_below}
use aws_c_common.Prelude.{
  ℕ, suc, ◌+◌, ◌-◌, ◌*◌, ◌^◌, ◌≤◌, ◌<◌, ◌≡◌, refl, sym, ap, ◌∙◌, Bool, true, false, ◌&&◌, List, [],
  ◌∷◌, ltb, leb, ◌==◌, inl, inr, ◌⊎◌, arith, Bool-cases, length, Result, ok, err, Error, ◌>>=◌,
  invalid_argument, if◌then◌else◌, ==_iff,
}
use aws_c_common.Prelude.Weight.{get_or-beyond}
use aws_c_common.Math.{u64_max, mul_u64_checked, add_u64_checked}
use aws_c_common.Math.Checked.{fit, mul_exact, add_exact}
use aws_c_common.Cursor.{hex_to_num, hex_to_num_table, read_unsigned_loop, read_unsigned}

-- The value of a digit by the range of characters that it is in: '0' to '9', 'A' to 'F' or 'a' to 'f'.
-- Any other byte has a value that is no digit's in a base of 8 bits.
unfoldable pub digit : ℕ → ℕ
digit c =
    if leb 48 c && leb c 57
    then c - 48
    else if leb 65 c && leb c 70
    then c - 55
    else if leb 97 c && leb c 102
    then c - 87
    else 255

table_digits : all_below 256 (λ c. hex_to_num c == digit c) ≡ true
unfolding all_below hex_to_num hex_to_num_table digit
table_digits = refl

no_digit : (c : ℕ) → 256 ≤ c → digit c ≡ 255
unfolding digit
no_digit c h = ground arith

beyond_table : (c : ℕ) → 256 ≤ c → hex_to_num c ≡ 255
unfolding hex_to_num hex_to_num_table
beyond_table c h = get_or-beyond hex_to_num_table c 255 h

-- The table has the value of each digit.
hex_to_num-digit : (c : ℕ) → hex_to_num c ≡ digit c
hex_to_num-digit c = elim (Bool-cases (ltb c 256)) [
  | inl byte ↦ (==_iff _ (digit c)).0 (of_all_below 256 _ table_digits c (ground arith))
  | inr large ↦ beyond_table c (ground arith) ∙ sym (no_digit c (ground arith))
]

-- All bytes are digits of the base.
unfoldable pub all_digits : (base : ℕ) → List ℕ → Bool
all_digits base [] = true
all_digits base (c ∷ cs) = ltb (digit c) base && all_digits base cs

-- The number they stand for, the first digit having the highest weight.
unfoldable pub number : (base : ℕ) → List ℕ → ℕ
number base [] = 0
number base (c ∷ cs) = digit c * base ^ length cs + number base cs

bind_fails :
    (r : Result ℕ) (f : ℕ → Result ℕ)
    → ((v : ℕ) → (e : Error) × (f v ≡ err e))
    → (e : Error) × ((r >>= f) ≡ err e)
bind_fails (ok v) f fails = fails v
bind_fails (err e) f fails = (e, refl)

module _ (base : ℕ) (pos : 0 < base) (word : base ≤ 255) where
  -- A value that is too large stays so, whatever digits follow.
  grows : (val n rest : ℕ) → val ≤ val * base ^ n + rest
  grows val n rest = let one = one-le-pow n base pos in grind arith

  -- Once the value is too large, so is the number, and the loop has stopped.
  read_unsigned_loop-fit :
      (cs : List ℕ) (val : ℕ)
      → val ≤ u64_max
      → all_digits base cs ≡ true
      → read_unsigned_loop base val cs ≡ fit u64_max (val * base ^ length cs + number base cs)
  unfolding read_unsigned_loop all_digits number fit
  read_unsigned_loop-fit [] val small digits =
      let z : base ^ 0 ≡ 1 = pow-zero base in
      let e : val * base ^ 0 + 0 ≡ val = rw z (omega arith) in
      let low : leb val u64_max ≡ true = ground arith in rw (e, low) refl
  read_unsigned_loop-fit (c ∷ cs) val small digits =
      let d = digit c in
      let p = base ^ length cs in
      let smaller : leb base d ≡ false = ground arith in
      let rest : all_digits base cs ≡ true = ground arith in
      let total = val * base ^ suc (length cs) + (d * p + number base cs) in
      let whole : total ≡ (val * base + d) * p + number base cs =
        let s = pow-suc base (length cs) in grind arith in
      let product = (mul_exact val base).0 in
      rw (hex_to_num-digit c, smaller, whole)
        (elim (Bool-cases (leb (val * base) u64_max)) [
          | inr over ↦
              let up = grows (val * base + d) (length cs) (number base cs) in
              let out : leb ((val * base + d) * p + number base cs) u64_max ≡ false =
                ground arith in
              rw (product, over, out) refl
          | inl fits ↦
              let l : val * base ≤ u64_max = ground arith in
              let sum =
                (add_exact (val * base) d 0 0 l (ground arith) (omega arith) (omega arith)).0 in
              elim (Bool-cases (leb (val * base + d) u64_max)) [
                | inr over ↦
                    let up = grows (val * base + d) (length cs) (number base cs) in
                    let out : leb ((val * base + d) * p + number base cs) u64_max ≡ false =
                      ground arith in
                    rw (product, fits, sum, over, out) refl
                | inl low ↦
                    rw (product, fits, sum, low)
                      (read_unsigned_loop-fit cs (val * base + d) (ground arith) rest)
              ]
        ])

  -- A byte that is no digit makes the call fail, at that byte or before.
  read_unsigned_loop_fails :
      (cs : List ℕ) (val : ℕ)
      → all_digits base cs ≡ false
      → (e : Error) × (read_unsigned_loop base val cs ≡ err e)
  unfolding read_unsigned_loop all_digits
  read_unsigned_loop_fails [] val bad = absurd (ground arith)
  read_unsigned_loop_fails (c ∷ cs) val bad = elim (Bool-cases (leb base (digit c))) [
    | inl wrong ↦ (invalid_argument, rw (hex_to_num-digit c, wrong) refl)
    | inr right ↦
        let rest : all_digits base cs ≡ false = ground arith in
        let fails : (r : Result ℕ)
            → (e : Error) × ((r >>= λ sum. read_unsigned_loop base sum cs) ≡ err e) =
          λ r.
            bind_fails r (λ sum. read_unsigned_loop base sum cs)
              (λ sum. read_unsigned_loop_fails cs sum rest) in
        let (e, stop) =
          bind_fails (mul_u64_checked val base)
            (λ product. add_u64_checked product (digit c) >>= λ sum. read_unsigned_loop base sum cs)
            (λ product. fails (add_u64_checked product (digit c))) in
        (e, rw (hex_to_num-digit c, right) stop)
  ]

  -- For a positive base of 8 bits, the text of a number is read as just that number, if it has a
  -- digit and the number fits 64 bits. No bytes are an invalid argument, a number that is too large is an
  -- overflow, and bytes among which one is no digit are an error.
  pub read_unsigned-number :
      (bytes : List ℕ)
      → ((bytes ≡ []) × (read_unsigned bytes base ≡ err invalid_argument))
        ⊎ ((0 < length bytes)
            × (all_digits base bytes ≡ true)
            × (read_unsigned bytes base ≡ fit u64_max (number base bytes)))
        ⊎ ((all_digits base bytes ≡ false) × ((e : Error) × (read_unsigned bytes base ≡ err e)))
  unfolding read_unsigned
  read_unsigned-number [] = inl (refl, refl)
  read_unsigned-number (c ∷ cs) =
      let e : (length (c ∷ cs) == 0) ≡ false = ground arith in
      elim (Bool-cases (all_digits base (c ∷ cs))) [
        | inl digits ↦
            let start : 0 * base ^ length (c ∷ cs) + number base (c ∷ cs) ≡ number base (c ∷ cs) =
              omega arith in
            inr (
              inl (
                omega arith,
                digits,
                rw e (
                    read_unsigned_loop-fit (c ∷ cs) 0 (omega arith) digits
                    ∙ ap (fit u64_max) start),
              ))
        | inr bad ↦
            let (stop, fails) = read_unsigned_loop_fails (c ∷ cs) 0 bad in
            inr (inr (bad, (stop, rw e fails)))
      ]
