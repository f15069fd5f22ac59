-- ===== src/Cursor/Pieces.antt =====
-- Splitting at a character, against the pieces that stand between the characters of a text.
use mathlib.Core.Path.{ap₂}
use aws_c_common.Prelude.{
  ℕ, zero, suc, ◌+◌, ◌-◌, ◌%◌, ◌^◌, ◌≤◌, ◌<◌, ◌≡◌, refl, sym, ap, ◌∙◌, true, false, ◌||◌, ltb, leb,
  List, [], ◌∷◌, ◌++◌, ◌==◌, if◌then◌else◌, none, some, Result, ok, inl, inr, arith, Bool-cases,
  ==_iff, length, map,
}
use aws_c_common.Prelude.Lists.{take, drop, length-drop}
use aws_c_common.Prelude.Bytes.{Bytes, read_at}
use aws_c_common.Math.{u64_max}
use aws_c_common.Cursor.{Cursor, no_bytes, bytes_at}
use aws_c_common.Cursor.Integers.{memory_of, bytes_at-memory_of, get_or-drop}
use aws_c_common.Cursor.Splitting.{
  bytes_before, remainder, next_piece, next_split, split_loop, split_on_char_n, split_on_char,
}

-- The pieces between the characters, one more than there are of those.
unfoldable pub pieces : (c : ℕ) → Bytes → List Bytes
pieces c [] = [] ∷ []
pieces c (b ∷ bs) =
    if b == c
    then [] ∷ pieces c bs
    else (elim (pieces c bs) [ [] ↦ (b ∷ []) ∷ [] | p ∷ ps ↦ (b ∷ p) ∷ ps ])

-- The number of bytes before the first c of a list.
before : (c : ℕ) → Bytes → ℕ
before c [] = 0
before c (b ∷ bs) = if b == c then 0 else before c bs + 1

-- The first piece, and the pieces behind the character that ends it.
behind_first : (c : ℕ) → Bytes → List Bytes
unfolding before
behind_first c bs = if before c bs == length bs then [] else pieces c (drop (before c bs + 1) bs)

pieces_step : (c : ℕ) (bs : Bytes) → pieces c bs ≡ take (before c bs) bs ∷ behind_first c bs
unfolding pieces before behind_first
pieces_step c [] = refl
pieces_step c (b ∷ bs) = elim (Bool-cases (b == c)) [
  | inl same ↦
      let some_left : (0 == length (b ∷ bs)) ≡ false = ground arith in rw (same, some_left) refl
  | inr other ↦
      let up : before c bs + 1 ≡ suc (before c bs) = omega arith in
      let test : (suc (before c bs) == length (b ∷ bs)) ≡ (before c bs == length bs) =
        ground arith in
      let twice : suc (before c bs) + 1 ≡ suc (before c bs + 1) = omega arith in
      rw (other, up, test, twice, pieces_step c bs) refl
]

before-le : (c : ℕ) (bs : Bytes) → before c bs ≤ length bs
unfolding before
before-le c [] = omega arith
before-le c (b ∷ bs) =
    let ih = before-le c bs in
    elim (Bool-cases (b == c)) [
      | inl same ↦ rw same (omega arith)
      | inr other ↦ rw other (omega arith)
    ]

drop-all : (n : ℕ) (bs : Bytes) → length bs ≤ n → drop n bs ≡ []
drop-all zero [] h = refl
drop-all zero (b ∷ bs) h = absurd (omega arith)
drop-all (suc n) [] h = refl
drop-all (suc n) (b ∷ bs) h = drop-all n bs (omega arith)

bytes_before-before :
    (start c : ℕ) (bs : Bytes) (n o : ℕ)
    → o + n ≡ length bs
    → bytes_before (memory_of start bs) c (start + o) n ≡ before c (drop o bs)
unfolding bytes_before before memory_of
bytes_before-before start c bs zero o whole = rw (drop-all o bs (omega arith)) refl
bytes_before-before start c bs (suc n) o whole =
    let here : start + o - start ≡ o = omega arith in
    let next : start + o + 1 ≡ start + (o + 1) = omega arith in
    let ih = bytes_before-before start c bs n (o + 1) (omega arith) in
    rw (get_or-drop o bs (omega arith), here, next, ih) refl

-- `aws_array_list_push_back` on a list that can grow, and what a list of cursors shows.
abbrev pub append : List Cursor → Cursor → Result (List Cursor)
append output piece = ok (output ++ (piece ∷ []))

abbrev pub texts : (memory : ℕ → ℕ) → List Cursor → List Bytes
texts memory output = map (λ x. bytes_at memory x.ptr x.len) output

append_assoc : (xs ys zs : List Cursor) → (xs ++ ys) ++ zs ≡ xs ++ (ys ++ zs)
append_assoc [] ys zs = refl
append_assoc (x ∷ xs) ys zs = ap (◌∷◌ x) (append_assoc xs ys zs)

drop-drop : (n m : ℕ) (bs : Bytes) → drop m (drop n bs) ≡ drop (n + m) bs
drop-drop zero m bs = let e : 0 + m ≡ m = omega arith in rw e refl
drop-drop (suc n) m [] = drop-all m [] (omega arith) ∙ sym (drop-all (suc n + m) [] (omega arith))
drop-drop (suc n) m (b ∷ bs) =
    let e : suc n + m ≡ suc (n + m) = omega arith in rw e (drop-drop n m bs)

-- The pieces with the character between them.
unfoldable pub joined_behind : (c : ℕ) → List Bytes → Bytes
joined_behind c [] = []
joined_behind c (p ∷ ps) = c ∷ (p ++ joined_behind c ps)

unfoldable pub joined : (c : ℕ) → List Bytes → Bytes
joined c [] = []
joined c (p ∷ ps) = p ++ joined_behind c ps

joined-pieces : (c : ℕ) (bs : Bytes) → joined c (pieces c bs) ≡ bs
unfolding joined joined_behind pieces
joined-pieces c [] = refl
joined-pieces c (b ∷ bs) = elim (Bool-cases (b == c)) [
  | inl same ↦
      let e : b ≡ c = (==_iff b c).0 same in
      rw (same, pieces_step c bs)
        (rw e (ap (◌∷◌ c) (ap (joined c) (sym (pieces_step c bs)) ∙ joined-pieces c bs)))
  | inr other ↦
      rw (other, pieces_step c bs)
        (ap (◌∷◌ b) (ap (joined c) (sym (pieces_step c bs)) ∙ joined-pieces c bs))
]

module _ (literal start : ℕ) (bs : Bytes) (c : ℕ) (pos : 0 < start)
    (address : start + length bs + 1 < 2 ^ 64) where
  abbrev input : Cursor
  input = record { len = length bs; ptr = start }

  abbrev run : ℕ → ℕ → Cursor → List Cursor → Result (List Cursor)
  run fuel count substr output =
      split_loop literal (memory_of start bs) append fuel input c u64_max count substr output

  nonnull : (start == 0) ≡ false
  nonnull = ground arith

  run_ends :
      (fuel count : ℕ) (substr : Cursor) (output : List Cursor)
      → remainder input substr ≡ none
      → run fuel count substr output ≡ ok output
  unfolding split_loop next_split next_piece
  run_ends zero count substr output e = refl
  run_ends (suc fuel) count substr output e = elim (Bool-cases (leb count u64_max)) [
    | inl t ↦ rw (nonnull, e, t) refl
    | inr f ↦ rw (nonnull, e, f) refl
  ]

  -- The cursor of a piece of k bytes at offset o, and what is behind it.
  abbrev piece : (o k : ℕ) → Cursor
  piece o k = record { len = k; ptr = start + o }

  remainder_last : (o k : ℕ) → o + k ≡ length bs → remainder input (piece o k) ≡ none
  unfolding remainder
  remainder_last o k whole =
      let full : (start + o == 0) ≡ false = ground arith in
      let next : (start + o + k + 1) % 2 ^ 64 ≡ start + length bs + 1 = omega arith in
      let past : (ltb (start + length bs) (start + length bs + 1)
            || ltb (start + length bs + 1) start)
          ≡ true =
        ground arith in
      rw (full, next, past) refl

  remainder_next :
      (o k : ℕ)
      → o + k + 1 ≤ length bs
      → remainder input (piece o k) ≡ some (piece (o + k + 1) (length bs - (o + k + 1)))
  unfolding remainder
  remainder_next o k more =
      let full : (start + o == 0) ≡ false = ground arith in
      let next : (start + o + k + 1) % 2 ^ 64 ≡ start + (o + k + 1) = omega arith in
      let within : (ltb (start + length bs) (start + (o + k + 1))
            || ltb (start + (o + k + 1)) start)
          ≡ false =
        ground arith in
      let back : start + (o + k + 1) - start ≡ o + k + 1 = omega arith in
      rw (full, next, within, back) refl

  -- One round takes the bytes before the next character.
  run_takes :
      (fuel count o : ℕ) (substr : Cursor) (output : List Cursor)
      → o ≤ length bs
      → count ≤ o
      → remainder input substr ≡ some (piece o (length bs - o))
      → run (suc fuel) count substr output
        ≡ run fuel
            (count + 1)
            (piece o (before c (drop o bs)))
            (output ++ (piece o (before c (drop o bs)) ∷ []))
  unfolding split_loop next_split next_piece
  run_takes fuel count o substr output inside few e =
      let k = bytes_before-before start c bs (length bs - o) o (omega arith) in
      let going : leb count u64_max ≡ true = ground arith in
      let not_last : (count == u64_max) ≡ false = ground arith in
      rw (nonnull, e, k, going, not_last) refl

  text_of :
      (o k : ℕ)
      → o + k ≤ length bs
      → bytes_at (memory_of start bs) (start + o) k ≡ take k (drop o bs)
  unfolding read_at
  text_of o k inside = bytes_at-memory_of start o k bs inside

  run-pieces :
      (fuel count o : ℕ) (substr : Cursor) (output : List Cursor)
      → o ≤ length bs
      → count ≤ o
      → length bs - o < fuel
      → remainder input substr ≡ some (piece o (length bs - o))
      → (l : List Cursor) × (run fuel count substr output ≡ ok (output ++ l))
        × (texts (memory_of start bs) l ≡ pieces c (drop o bs))
  unfolding behind_first
  run-pieces zero count o substr output inside few enough e = absurd (omega arith)
  run-pieces (suc fuel) count o substr output inside few enough e =
      let r = drop o bs in
      let k = before c r in
      let left = length-drop o bs in
      let low = before-le c r in
      let step = run_takes fuel count o substr output inside few e in
      let text = text_of o k (omega arith) in
      elim (Bool-cases (k == length r)) [
        | inl last ↦
            let whole : k ≡ length r = (==_iff k (length r)).0 last in
            let ends =
              run_ends fuel (count + 1) (piece o k) (output ++ (piece o k ∷ []))
                (remainder_last o k (omega arith)) in
            (
              piece o k ∷ [],
              step ∙ ends,
              rw (pieces_step c r, last) (ap (λ (t : Bytes). t ∷ []) text),
            )
        | inr inner ↦
            let short : k + 1 ≤ length r = ground arith in
            let next = remainder_next o k (omega arith) in
            let (l, runs, shows) =
              run-pieces fuel (count + 1) (o + k + 1) (piece o k) (output ++ (piece o k ∷ []))
                (omega arith) (omega arith) (omega arith) next in
            let sum : o + k + 1 ≡ o + (k + 1) = omega arith in
            let behind : pieces c (drop (o + k + 1) bs) ≡ pieces c (drop (k + 1) r) =
              ap (λ (n : ℕ). pieces c (drop n bs)) sum
              ∙ ap (pieces c) (sym (drop-drop o (k + 1) bs)) in
            (
              piece o k ∷ l,
              step ∙ runs ∙ ap (λ t. ok t) (append_assoc output (piece o k ∷ []) l),
              rw (pieces_step c r, inner) (ap₂ ◌∷◌ text (shows ∙ behind)),
            )
      ]

  -- For a text that is not at NULL and ends before the last address, splitting at a character fills the list,
  -- which can grow, with the pieces that stand between the characters, and joining those by the character
  -- gives the text again.
  pub split_on_char-pieces :
      (l : List Cursor) × (split_on_char literal (memory_of start bs) append input c [] ≡ ok l)
      × (texts (memory_of start bs) l ≡ pieces c bs)
      × (joined c (texts (memory_of start bs) l) ≡ bs)
  unfolding split_on_char split_on_char_n remainder
  split_on_char-pieces =
      let none_before : length bs - 0 ≡ length bs = omega arith in
      let here : start + 0 ≡ start = omega arith in
      let (l, runs, shows) =
        run-pieces (length bs + 2) 0 0 no_bytes [] (omega arith) (omega arith) (omega arith)
          (rw (none_before, here) refl) in
      (l, runs, shows, ap (joined c) shows ∙ joined-pieces c bs)
