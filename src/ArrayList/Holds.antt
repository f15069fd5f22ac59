-- ===== src/ArrayList/Holds.antt =====
-- What an array list holds: its items, in order, laid out one after another from the start of the data,
-- and behind them bytes that no operation reads.
use native.Mathlib.Nat.{mul_comm}
use mathlib.Core.List.{append_assoc}
use aws_c_common.Prelude.{
  ℕ, zero, suc, ◌+◌, ◌-◌, ◌*◌, ◌≤◌, ◌<◌, ◌≡◌, refl, sym, ap, ◌∙◌, List, [], ◌∷◌, ◌++◌, none, some,
  true, arith, length, get_elem?, set,
}
use aws_c_common.Prelude.Lists.{length-append}
use aws_c_common.Prelude.Bytes.{Bytes}
use aws_c_common.Math.{u64_max}
use aws_c_common.Math.Checked.{mul_size_checked-fit, fit}
use aws_c_common.ArrayList.{ArrayList, is_valid, is_null}

abbrev pub flat : List Bytes → Bytes
flat [] = []
flat (x ∷ xs) = x ++ flat xs

abbrev pub Sized : ℕ → List Bytes → Type 0
Sized s [] = Unit {0}
Sized s (x ∷ xs) = (length x ≡ s) × Sized s xs

pub flat-append : (xs ys : List Bytes) → flat (xs ++ ys) ≡ flat xs ++ flat ys
flat-append [] ys = refl
flat-append (x ∷ xs) ys =
    ap (λ t. x ++ t) (flat-append xs ys) ∙ sym (append_assoc x (flat xs) (flat ys))

pub length-flat : (s : ℕ) (xs : List Bytes) → Sized s xs → length (flat xs) ≡ s * length xs
length-flat s [] h = omega arith
length-flat s (x ∷ xs) h = omega (arith, length-append x (flat xs), length-flat s xs h.1)

pub Sized-append : (s : ℕ) (xs ys : List Bytes) → Sized s xs → Sized s ys → Sized s (xs ++ ys)
Sized-append s [] ys h k = k
Sized-append s (x ∷ xs) ys h k = (h.0, Sized-append s xs ys h.1 k)

pub Sized-left : (s : ℕ) (xs ys : List Bytes) → Sized s (xs ++ ys) → Sized s xs
Sized-left s [] ys h = tt
Sized-left s (x ∷ xs) ys h = (h.0, Sized-left s xs ys h.1)

pub Sized-right : (s : ℕ) (xs ys : List Bytes) → Sized s (xs ++ ys) → Sized s ys
Sized-right s [] ys h = h
Sized-right s (x ∷ xs) ys h = Sized-right s xs ys h.1

-- A list cut at one of its items.
pub record Parted {ℓ} {A : Type ℓ} (xs : List A) (i : ℕ) : Type ℓ where
  pub before : List A
  pub item : A
  pub after : List A
  pub whole : xs ≡ before ++ (item ∷ after)
  pub place : length before ≡ i

pub cut_at {ℓ} : {A : Type ℓ} (xs : List A) (i : ℕ) → i < length xs → Parted xs i
cut_at [] i h = elim h [ ]
cut_at (x ∷ xs) zero h = record { before = []; item = x; after = xs; whole = refl; place = refl }
cut_at (x ∷ xs) (suc i) h =
    let c = cut_at xs i (omega arith) in
    record {
      before = x ∷ c.before;
      item = c.item;
      after = c.after;
      whole = ap (◌∷◌ x) c.whole;
      place = ap suc c.place;
    }

pub get_elem?-middle {ℓ} :
    {A : Type ℓ} (ys : List A) (x : A) (zs : List A) (i : ℕ)
    → length ys ≡ i
    → get_elem? (ys ++ (x ∷ zs)) i ≡ some x
get_elem?-middle [] x zs zero e = refl
get_elem?-middle [] x zs (suc i) e = absurd (omega arith)
get_elem?-middle (y ∷ ys) x zs zero e = absurd (omega arith)
get_elem?-middle (y ∷ ys) x zs (suc i) e = get_elem?-middle ys x zs i (omega arith)

pub set-middle {ℓ} :
    {A : Type ℓ} (ys : List A) (x v : A) (zs : List A) (i : ℕ)
    → length ys ≡ i
    → set (ys ++ (x ∷ zs)) i v ≡ ys ++ (v ∷ zs)
set-middle [] x v zs zero e = refl
set-middle [] x v zs (suc i) e = absurd (omega arith)
set-middle (y ∷ ys) x v zs zero e = absurd (omega arith)
set-middle (y ∷ ys) x v zs (suc i) e = ap (◌∷◌ y) (set-middle ys x v zs i (omega arith))

-- A list cut at two of its items.
pub record Parted2 {ℓ} {A : Type ℓ} (xs : List A) (i j : ℕ) : Type ℓ where
  pub before : List A
  pub first : A
  pub between : List A
  pub second : A
  pub after : List A
  pub whole : xs ≡ before ++ (first ∷ (between ++ (second ∷ after)))
  pub place : length before ≡ i
  pub place2 : length before + 1 + length between ≡ j

pub cut_at2 {ℓ} : {A : Type ℓ} (xs : List A) (i j : ℕ) → i < j → j < length xs → Parted2 xs i j
cut_at2 xs i j h k =
    let c = cut_at xs i (omega arith) in
    let n : length xs ≡ length c.before + suc (length c.after) =
      ap length c.whole ∙ length-append c.before (c.item ∷ c.after) in
    let d = cut_at c.after (j - i - 1) (omega (arith, c.place)) in
    record {
      before = c.before;
      first = c.item;
      between = d.before;
      second = d.item;
      after = d.after;
      whole = c.whole ∙ ap (λ t. c.before ++ (c.item ∷ t)) d.whole;
      place = c.place;
      place2 = omega (arith, c.place, d.place);
    }

module _ {ℓ} {A : Type ℓ} (ys : List A) (x : A) (zs : List A) (y : A) (ws : List A) (i j : ℕ)
    (place : length ys ≡ i) (place2 : length ys + 1 + length zs ≡ j) where
  two_items : ys ++ (x ∷ (zs ++ (y ∷ ws))) ≡ (ys ++ (x ∷ zs)) ++ (y ∷ ws)
  two_items = sym (append_assoc ys (x ∷ zs) (y ∷ ws))

  pub get_elem?-first : get_elem? (ys ++ (x ∷ (zs ++ (y ∷ ws)))) i ≡ some x
  get_elem?-first = get_elem?-middle ys x (zs ++ (y ∷ ws)) i place

  pub get_elem?-second : get_elem? (ys ++ (x ∷ (zs ++ (y ∷ ws)))) j ≡ some y
  get_elem?-second =
      ap (λ t. get_elem? t j) two_items
      ∙ get_elem?-middle (ys ++ (x ∷ zs)) y ws j (omega (arith, length-append ys (x ∷ zs)))

  pub set-first : (v : A) → set (ys ++ (x ∷ (zs ++ (y ∷ ws)))) i v ≡ ys ++ (v ∷ (zs ++ (y ∷ ws)))
  set-first v = set-middle ys x v (zs ++ (y ∷ ws)) i place

  pub set-second : (v : A) → set (ys ++ (x ∷ (zs ++ (y ∷ ws)))) j v ≡ ys ++ (x ∷ (zs ++ (v ∷ ws)))
  set-second v =
      ap (λ t. set t j v) two_items
      ∙ set-middle (ys ++ (x ∷ zs)) y v ws j (omega (arith, length-append ys (x ∷ zs)))
      ∙ append_assoc ys (x ∷ zs) (v ∷ ws)

pub set_self {ℓ} :
    {A : Type ℓ} (xs : List A) (i : ℕ) (x : A) → get_elem? xs i ≡ some x → set xs i x ≡ xs
set_self [] i x e = refl
set_self (y ∷ xs) zero x e = cc
set_self (y ∷ xs) (suc i) x e = ap (◌∷◌ y) (set_self xs i x e)

pub get_elem?-beyond {ℓ} :
    {A : Type ℓ} (xs : List A) (i : ℕ) → length xs ≤ i → get_elem? xs i ≡ none
get_elem?-beyond [] i h = refl
get_elem?-beyond (x ∷ xs) zero h = absurd (omega arith)
get_elem?-beyond (x ∷ xs) (suc i) h = get_elem?-beyond xs i (omega arith)

-- The list `l` is well formed and holds the items `xs`.
pub record Holds (l : ArrayList) (xs : List Bytes) : Type 0 where
  pub item_pos : 0 < l.item_size
  pub count : l.length ≡ length xs
  pub sized : Sized l.item_size xs
  pub size : length l.data' ≡ l.current_size
  pub word : l.current_size ≤ u64_max
  pub rest : Bytes
  pub layout : l.data' ≡ flat xs ++ rest

-- The items fit the memory.
pub Holds-room :
    (l : ArrayList) (xs : List Bytes) (h : Holds l xs)
    → l.item_size * l.length + length h.rest ≡ l.current_size
Holds-room l xs h =
    let e = ap length h.layout ∙ length-append (flat xs) h.rest in
    let f = length-flat l.item_size xs h.sized in
    let g : l.item_size * l.length ≡ l.item_size * length xs =
      ap (λ (n : ℕ). l.item_size * n) h.count in
    omega arith

is_null-length : (bs : Bytes) → length bs ≡ 0 → is_null bs ≡ true
is_null-length [] e = refl
is_null-length (b ∷ bs) e = absurd (omega arith)

-- A list that holds items passes the library's own validity check.
pub Holds-is_valid : (l : ArrayList) (xs : List Bytes) → Holds l xs → is_valid l ≡ true
unfolding is_valid fit
Holds-is_valid l xs h =
    let room = Holds-room l xs h in
    let e : l.length * l.item_size ≡ l.item_size * l.length = mul_comm l.length l.item_size in
    rw (mul_size_checked-fit l.length l.item_size)
      (ground (arith, h.item_pos, h.word, h.size, is_null-length l.data'))
