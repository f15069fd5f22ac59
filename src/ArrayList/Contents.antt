-- ===== src/ArrayList/Contents.antt =====
-- What the copies of an array list's bytes need: lists that hold items placed at the start of their data.
use native.Mathlib.Nat.{mul_comm}
use aws_c_common.Prelude.{
  ℕ, zero, suc, ◌*◌, ◌≤◌, ◌<◌, ◌≡◌, refl, sym, ap, ◌∙◌, List, [], ◌∷◌, ◌++◌, ok, true, false, arith,
  length, ltb, if◌then◌else◌, inl, inr, ◌⊎◌,
}
use aws_c_common.Prelude.Lists.{length-append}
use aws_c_common.Prelude.Bytes.{Bytes, read_at, write_at, read-middle, write-middle, cut}
use aws_c_common.Math.{u64_max, mul_size_checked}
use aws_c_common.Math.Checked.{mul_size_checked-fit}
use aws_c_common.ArrayList.{ArrayList, is_null}
use aws_c_common.ArrayList.Holds.{flat, Sized, length-flat, Holds, Holds-room}
use aws_c_common.ArrayList.Growth.{fit_ok}

-- A guarded `memcpy` of nothing is a `memcpy` of nothing.
pub guarded_write :
    (n : ℕ) (v bs : Bytes)
    → length v ≡ n
    → (if ltb 0 n then write_at 0 v bs else bs) ≡ write_at 0 v bs
unfolding write_at
guarded_write zero [] bs e = refl
guarded_write zero (b ∷ v) bs e = absurd (omega arith)
guarded_write (suc n) v bs e = let t : ltb 0 (suc n) ≡ true = ground arith in rw t refl

pub null_cases :
    (bs : Bytes) → ((bs ≡ []) × (is_null bs ≡ true)) ⊎ ((0 < length bs) × (is_null bs ≡ false))
null_cases [] = inl (refl, refl)
null_cases (b ∷ bs) = inr (omega arith, refl)

pub not_null : (bs : Bytes) → 0 < length bs → is_null bs ≡ false
not_null [] h = absurd (omega arith)
not_null (b ∷ bs) h = refl

-- The items of a list at the start of other memory.
pub placed-Holds :
    (l : ArrayList) (xs : List Bytes) (tail : Bytes)
    → 0 < l.item_size
    → l.length ≡ length xs
    → Sized l.item_size xs
    → l.current_size ≤ u64_max
    → length (flat xs ++ tail) ≡ l.current_size
    → l.data' ≡ flat xs ++ tail
    → Holds l xs
placed-Holds l xs tail pos count sized word size e = record {
  item_pos = pos;
  count = count;
  sized = sized;
  size = ap length e ∙ size;
  word = word;
  rest = tail;
  layout = e;
}

module _ (l : ArrayList) (xs : List Bytes) (h : Holds l xs) where
  pub used : l.length * l.item_size ≡ length (flat xs)
  used =
      ap (λ (n : ℕ). n * l.item_size) h.count
      ∙ mul_comm (length xs) l.item_size
      ∙ sym (length-flat l.item_size xs h.sized)

  pub used_word : l.length * l.item_size ≤ u64_max
  used_word =
      let room = Holds-room l xs h in
      let word = h.word in omega (arith, mul_comm l.length l.item_size)

  pub used_size : mul_size_checked l.length l.item_size ≡ ok (l.length * l.item_size)
  used_size =
      mul_size_checked-fit l.length l.item_size ∙ fit_ok u64_max (l.length * l.item_size) used_word

  pub read_items : read_at 0 (l.length * l.item_size) l.data' ≡ flat xs
  read_items =
      ap (read_at 0 (l.length * l.item_size)) h.layout
      ∙ read-middle 0 (l.length * l.item_size) [] (flat xs) h.rest refl used

  -- Copying the items to the start of memory that is long enough.
  pub write_items :
      (bs : Bytes)
      → l.length * l.item_size ≤ length bs
      → (tail : Bytes) × (write_at 0 (read_at 0 (l.length * l.item_size) l.data') bs
          ≡ flat xs ++ tail)
        × (length (flat xs ++ tail) ≡ length bs)
  write_items bs room =
      let (a, c, e, len) = cut (l.length * l.item_size) bs room in
      (
        c,
        ap (λ t. write_at 0 t bs) read_items
            ∙ ap (write_at 0 (flat xs)) e
            ∙ write-middle 0 [] a c (flat xs) refl (sym used ∙ sym len),
        omega (arith, ap length e, length-append a c, length-append (flat xs) c, used),
      )
