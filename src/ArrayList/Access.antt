-- ===== src/ArrayList/Access.antt =====
-- Reading and exchanging items.
use mathlib.Core.Path.{subst₂, ap₂}
use mathlib.Core.List.{append_assoc}
use aws_c_common.Prelude.{
  ℕ, ◌+◌, ◌-◌, ◌*◌, ◌<◌, ◌≡◌, sym, ap, ◌∙◌, List, ◌∷◌, ◌++◌, Option, none, some, Result, ok, err,
  Error, invalid_index, list_empty, arith, length, get_elem?, set, ltb, ◌==◌, Bool-cases, inl, inr,
  subst, some_eq, ltb→lt, ==_iff,
}
use aws_c_common.Prelude.Lists.{length-append}
use aws_c_common.Prelude.Bytes.{Bytes, read_at, read-middle}
use aws_c_common.ArrayList.{ArrayList, get_at, front, back, swap, mem_swap}
use aws_c_common.ArrayList.Holds.{
  flat, Sized, flat-append, length-flat, Sized-append, Sized-left, Sized-right, cut_at, Holds,
  get_elem?-middle, get_elem?-beyond, cut_at2, get_elem?-first, get_elem?-second, set-first,
  set-second, set_self,
}
use aws_c_common.ArrayList.Swap.{mem_swap-regions, regions, length-regions}

-- The item, or the error of a missing one.
abbrev pub item_or {ℓ} : {A : Type ℓ} → Error → Option A → Result A
item_or e none = err e
item_or e (some x) = ok x

module _ (l : ArrayList) (xs : List Bytes) (h : Holds l xs) where
  -- The item at place i, where it lies in the data.
  read_item :
      (i : ℕ)
      → i < length xs
      → some (read_at (l.item_size * i) l.item_size l.data') ≡ get_elem? xs i
  read_item i p =
      let c = cut_at xs i p in
      let sized = subst (Sized l.item_size) c.whole h.sized in
      let offset : l.item_size * i ≡ length (flat c.before) =
        ap (λ (n : ℕ). l.item_size * n) (sym c.place)
        ∙ sym (
            length-flat l.item_size c.before
              (Sized-left l.item_size c.before (c.item ∷ c.after) sized)) in
      let layout : l.data' ≡ flat c.before ++ (c.item ++ (flat c.after ++ h.rest)) =
        h.layout
        ∙ ap (λ t. flat t ++ h.rest) c.whole
        ∙ ap (λ t. t ++ h.rest) (flat-append c.before (c.item ∷ c.after))
        ∙ simp append_assoc in
      ap some (
        ap (read_at (l.item_size * i) l.item_size) layout
        ∙ read-middle (l.item_size * i) l.item_size (flat c.before) c.item (flat c.after ++ h.rest)
            offset (sym (Sized-right l.item_size c.before (c.item ∷ c.after) sized).0))
      ∙ sym (ap (λ t. get_elem? t i) c.whole ∙ get_elem?-middle c.before c.item c.after i c.place)

  get_at-item : (i : ℕ) → get_at l i ≡ item_or invalid_index (get_elem? xs i)
  unfolding get_at
  get_at-item i = elim (Bool-cases (ltb i l.length)) [
    | inl p ↦ rw (p, ← read_item i (ground (arith, h.count)))
    | inr p ↦ rw (p, get_elem?-beyond xs i (ground (arith, h.count)))
  ]

  -- Each read gives the item at its place, and an error where the list has none: `get_at` anywhere,
  -- `front` at the first place and `back` at the last.
  pub reads_items :
      (i : ℕ)
      → (get_at l i ≡ item_or invalid_index (get_elem? xs i))
        × (front l ≡ item_or list_empty (get_elem? xs 0))
        × (back l ≡ item_or list_empty (get_elem? xs (length xs - 1)))
  unfolding front back
  reads_items i = (
    get_at-item i,
    elim (Bool-cases (ltb 0 l.length)) [
      | inl p ↦
          let e : l.item_size * 0 ≡ 0 = omega arith in
          rw (p, ← read_item 0 (ground (arith, h.count)), e)
      | inr p ↦ rw (p, get_elem?-beyond xs 0 (ground (arith, h.count)))
    ],
    elim (Bool-cases (ltb 0 l.length)) [
      | inl p ↦
          let e : length xs - 1 ≡ l.length - 1 = omega (arith, h.count) in
          rw (p, e, ← read_item (l.length - 1) (ground (arith, h.count)))
      | inr p ↦ rw (p, get_elem?-beyond xs (length xs - 1) (ground (arith, h.count)))
    ],
  )

  -- Two items at different places, in memory.
  module _ (ys : List Bytes) (x : Bytes) (zs : List Bytes) (y : Bytes) (ws : List Bytes)
      (whole : xs ≡ ys ++ (x ∷ (zs ++ (y ∷ ws)))) where
    parts :
        Sized l.item_size ys
        × (length x ≡ l.item_size)
        × Sized l.item_size zs
        × (length y ≡ l.item_size)
        × Sized l.item_size ws
    parts =
        let s = l.item_size in
        let all = subst (Sized s) whole h.sized in
        let right = Sized-right s ys (x ∷ (zs ++ (y ∷ ws))) all in
        let last = Sized-right s zs (y ∷ ws) right.1 in
        (
          Sized-left s ys (x ∷ (zs ++ (y ∷ ws))) all,
          right.0,
          Sized-left s zs (y ∷ ws) right.1,
          last.0,
          last.1,
        )

    two_regions : l.data' ≡ regions (flat ys) x (flat zs) y (flat ws ++ h.rest)
    two_regions =
        h.layout
        ∙ ap (λ t. flat t ++ h.rest) whole
        ∙ ap (λ t. t ++ h.rest) (flat-append ys (x ∷ (zs ++ (y ∷ ws))))
        ∙ ap (λ t. (flat ys ++ (x ++ t)) ++ h.rest) (flat-append zs (y ∷ ws))
        ∙ simp append_assoc

    exchanged-Holds :
        Holds
          (record l { data' = regions (flat ys) y (flat zs) x (flat ws ++ h.rest) })
          (ys ++ (y ∷ (zs ++ (x ∷ ws))))
    exchanged-Holds =
        let (sy, sx, sz, sy', sw) = parts in
        record {
          item_pos = h.item_pos;
          count = omega (
            arith,
            h.count,
            ap length whole,
            length-append ys (x ∷ (zs ++ (y ∷ ws))),
            length-append zs (y ∷ ws),
            length-append ys (y ∷ (zs ++ (x ∷ ws))),
            length-append zs (x ∷ ws),
          );
          sized =
              Sized-append l.item_size ys (y ∷ (zs ++ (x ∷ ws))) sy
                (sy', Sized-append l.item_size zs (x ∷ ws) sz (sx, sw));
          size = omega (
            arith,
            h.size,
            ap length two_regions,
            length-regions (flat ys) x (flat zs) y (flat ws ++ h.rest),
            length-regions (flat ys) y (flat zs) x (flat ws ++ h.rest),
          );
          word = h.word;
          rest = h.rest;
          layout = sym (
              ap (λ t. t ++ h.rest) (flat-append ys (y ∷ (zs ++ (x ∷ ws))))
              ∙ ap (λ t. (flat ys ++ (y ++ t)) ++ h.rest) (flat-append zs (x ∷ ws))
              ∙ simp append_assoc);
        }

    mem_swapped :
        (i j : ℕ)
        → length ys ≡ i
        → length ys + 1 + length zs ≡ j
        → (mem_swap (l.item_size * i) (l.item_size * j) l.item_size l.data'
            ≡ regions (flat ys) y (flat zs) x (flat ws ++ h.rest))
          × (mem_swap (l.item_size * j) (l.item_size * i) l.item_size l.data'
              ≡ regions (flat ys) y (flat zs) x (flat ws ++ h.rest))
    mem_swapped i j p q =
        let (sy, sx, sz, sy', sw) = parts in
        let s = l.item_size in
        let at_i : s * i ≡ length (flat ys) =
          ap (λ (n : ℕ). s * n) (sym p) ∙ sym (length-flat s ys sy) in
        let at_j : s * j ≡ length (flat ys) + length x + length (flat zs) =
          omega (arith, ap (λ (n : ℕ). s * n) q, length-flat s ys sy, length-flat s zs sz, sx) in
        let (one, two) =
          mem_swap-regions (s * i) (s * j) s (flat ys) x (flat zs) y (flat ws ++ h.rest) at_i at_j
            sx sy' in
        (
          ap (mem_swap (s * i) (s * j) s) two_regions ∙ one,
          ap (mem_swap (s * j) (s * i) s) two_regions ∙ two,
        )

    swapped-Holds :
        (i j : ℕ)
        → length ys ≡ i
        → length ys + 1 + length zs ≡ j
        → Holds
            (record l { data' = mem_swap (l.item_size * i) (l.item_size * j) l.item_size l.data' })
            (set (set xs i y) j x)
          × Holds
              (record l {
                data' = mem_swap (l.item_size * j) (l.item_size * i) l.item_size l.data';
              })
              (set (set xs j x) i y)
    swapped-Holds i j p q =
        let (one, two) = mem_swapped i j p q in
        let final : Bytes → List Bytes → Type 0 = λ d t. Holds (record l { data' = d }) t in
        let up : set (set xs i y) j x ≡ ys ++ (y ∷ (zs ++ (x ∷ ws))) =
          ap (λ t. set (set t i y) j x) whole
          ∙ ap (λ t. set t j x) (set-first ys x zs y ws i j p q y)
          ∙ set-second ys y zs y ws i j p q x in
        let down : set (set xs j x) i y ≡ ys ++ (y ∷ (zs ++ (x ∷ ws))) =
          ap (λ t. set (set t j x) i y) whole
          ∙ ap (λ t. set t i y) (set-second ys x zs y ws i j p q x)
          ∙ set-first ys x zs x ws i j p q y in
        (
          subst₂ final (sym one) (sym up) exchanged-Holds,
          subst₂ final (sym two) (sym down) exchanged-Holds,
        )

  swap_lower :
      (i j : ℕ)
      → i < j
      → j < length xs
      → (x y : Bytes) → get_elem? xs i ≡ some x
      → get_elem? xs j ≡ some y
      → Holds
          (record l { data' = mem_swap (l.item_size * i) (l.item_size * j) l.item_size l.data' })
          (set (set xs i y) j x)
        × Holds
            (record l { data' = mem_swap (l.item_size * j) (l.item_size * i) l.item_size l.data' })
            (set (set xs j x) i y)
  swap_lower i j p q x y ex ey =
      let c = cut_at2 xs i j p q in
      let same_x : some c.first ≡ some x =
        sym (
          ap (λ t. get_elem? t i) c.whole
          ∙ get_elem?-first c.before c.first c.between c.second c.after i j c.place c.place2)
        ∙ ex in
      let same_y : some c.second ≡ some y =
        sym (
          ap (λ t. get_elem? t j) c.whole
          ∙ get_elem?-second c.before c.first c.between c.second c.after i j c.place c.place2)
        ∙ ey in
      swapped-Holds c.before x c.between y c.after
        (c.whole
          ∙ ap₂ (λ u v. c.before ++ (u ∷ (c.between ++ (v ∷ c.after)))) (some_eq same_x)
              (some_eq same_y))
        i j c.place c.place2

  -- Swapping exchanges the items at two places, in either order of the places and also where they are
  -- one, and leaves the others.
  pub swap-Holds :
      (i j : ℕ)
      → i < length xs
      → j < length xs
      → (x y : Bytes) → get_elem? xs i ≡ some x
      → get_elem? xs j ≡ some y
      → Holds (swap l i j) (set (set xs i y) j x)
  unfolding swap
  swap-Holds i j p q x y ex ey = elim (Bool-cases (i == j)) [
    | inl same ↦
        let e : i ≡ j = (==_iff i j).0 same in
        let z : x ≡ y = some_eq (sym ex ∙ ap (λ k. get_elem? xs k) e ∙ ey) in
        let keep : set (set xs i y) j x ≡ xs =
          ap (λ t. set t j x) (set_self xs i y (ex ∙ ap some z))
          ∙ set_self xs j x (ey ∙ ap some (sym z)) in
        rw same (subst (Holds l) (sym keep) h)
    | inr differ ↦ rw differ (elim (Bool-cases (ltb i j)) [
      | inl lower ↦ (swap_lower i j (ltb→lt i j lower) q x y ex ey).0
      | inr upper ↦ (swap_lower j i (ground arith) p y x ey ex).1
    ])
  ]
