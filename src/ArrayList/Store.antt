-- ===== src/ArrayList/Store.antt =====
-- Stores: `set_at` within the list, `push_back` and `push_front`.
use native.Mathlib.Nat.{mul_comm}
use mathlib.Core.List.{append-nil, append_assoc}
use aws_c_common.Prelude.{
  ℕ, zero, suc, ◌+◌, ◌*◌, ◌≤◌, ◌<◌, ◌≡◌, refl, sym, ap, ◌∙◌, List, [], ◌∷◌, ◌++◌, ok, err,
  invalid_index, list_exceeds_max_size, overflow_detected, Bool, true, false, arith, length, set,
  leb, if◌then◌else◌, inl, inr, subst, ◌||◌, ◌&&◌,
}
use aws_c_common.Prelude.Lists.{length-append, length-set}
use aws_c_common.Prelude.Bytes.{Bytes, write_at, write-middle, cut}
use aws_c_common.Math.{u64_max}
use aws_c_common.Math.Checked.{add_size_checked-fit}
use aws_c_common.ArrayList.{ArrayList, store_at, set_at, push_back, full_error}
use aws_c_common.ArrayList.Holds.{
  flat, Sized, flat-append, length-flat, Sized-append, Sized-left, Sized-right, cut_at, Holds,
  Holds-room, set-middle,
}
use aws_c_common.ArrayList.Growth.{capable, ensure-Ensured, fit_ok}

Sized-set :
    (s : ℕ) (xs : List Bytes) (i : ℕ) (v : Bytes) → Sized s xs → length v ≡ s → Sized s (set xs i v)
Sized-set s [] i v h e = tt
Sized-set s (x ∷ xs) zero v h e = (e, h.1)
Sized-set s (x ∷ xs) (suc i) v h e = (h.0, Sized-set s xs i v h.1 e)

module _ (l : ArrayList) (xs : List Bytes) (h : Holds l xs) (v : Bytes)
    (fits : length v ≡ l.item_size) where
  pub length-word : l.length ≤ u64_max
  length-word =
      let pos = h.item_pos in let word = h.word in let room = Holds-room l xs h in grind arith

  -- A store over an item.
  set-Holds :
      (i : ℕ)
      → i < length xs
      → Holds (record l { data' = write_at (l.item_size * i) v l.data' }) (set xs i v)
  set-Holds i p =
      let s = l.item_size in
      let c = cut_at xs i p in
      let sized = subst (Sized s) c.whole h.sized in
      let offset : s * i ≡ length (flat c.before) =
        ap (λ (n : ℕ). s * n) (sym c.place)
        ∙ sym (length-flat s c.before (Sized-left s c.before (c.item ∷ c.after) sized)) in
      let one = (Sized-right s c.before (c.item ∷ c.after) sized).0 in
      let layout : l.data' ≡ flat c.before ++ (c.item ++ (flat c.after ++ h.rest)) =
        h.layout
        ∙ ap (λ t. flat t ++ h.rest) c.whole
        ∙ ap (λ t. t ++ h.rest) (flat-append c.before (c.item ∷ c.after))
        ∙ simp append_assoc in
      let written =
        ap (write_at (s * i) v) layout
        ∙ write-middle (s * i) (flat c.before) c.item (flat c.after ++ h.rest) v offset
            (fits ∙ sym one) in
      record {
        item_pos = h.item_pos;
        count = h.count ∙ sym (length-set xs i v);
        sized = Sized-set s xs i v h.sized fits;
        size = omega (
          arith,
          h.size,
          ap length written,
          ap length layout,
          fits,
          one,
          length-append (flat c.before) (c.item ++ (flat c.after ++ h.rest)),
          length-append c.item (flat c.after ++ h.rest),
          length-append (flat c.before) (v ++ (flat c.after ++ h.rest)),
          length-append v (flat c.after ++ h.rest),
        );
        word = h.word;
        rest = h.rest;
        layout =
            written
            ∙ sym (
                ap (λ t. flat t ++ h.rest)
                  (ap (λ t. set t i v) c.whole ∙ set-middle c.before c.item v c.after i c.place)
                ∙ ap (λ t. t ++ h.rest) (flat-append c.before (v ∷ c.after))
                ∙ simp append_assoc);
      }

  -- A store behind the last item.
  append-Holds :
      (l.length + 1) * l.item_size ≤ l.current_size
      → Holds
          (record l { data' = write_at (l.item_size * l.length) v l.data'; length = l.length + 1 })
          (xs ++ (v ∷ []))
  append-Holds room =
      let s = l.item_size in
      let used = Holds-room l xs h in
      let product : (l.length + 1) * s ≡ s * l.length + s = omega (arith, mul_comm l.length s) in
      let (b, c, eq, len) = cut s h.rest (omega arith) in
      let offset : s * l.length ≡ length (flat xs) =
        ap (λ (n : ℕ). s * n) h.count ∙ sym (length-flat s xs h.sized) in
      let layout : l.data' ≡ flat xs ++ (b ++ c) = h.layout ∙ ap (λ t. flat xs ++ t) eq in
      let written =
        ap (write_at (s * l.length) v) layout
        ∙ write-middle (s * l.length) (flat xs) b c v offset (fits ∙ sym len) in
      record {
        item_pos = h.item_pos;
        count = omega (arith, h.count, length-append xs (v ∷ []));
        sized = Sized-append s xs (v ∷ []) h.sized (fits, tt);
        size = omega (
          arith,
          h.size,
          ap length written,
          ap length layout,
          fits,
          len,
          length-append (flat xs) (b ++ c),
          length-append b c,
          length-append (flat xs) (v ++ c),
          length-append v c,
        );
        word = h.word;
        rest = c;
        layout =
            written
            ∙ sym (ap (λ t. t ++ c) (flat-append xs (v ∷ [])) ∙ simp (append_assoc, append-nil));
      }

  store-append :
      (l.length + 1) * l.item_size ≤ l.current_size
      → store_at l v l.length ≡ (
        record l { data' = write_at (l.item_size * l.length) v l.data'; length = l.length + 1 },
        ok tt,
      )
  unfolding store_at
  store-append room =
      let small : l.length + 1 ≤ u64_max =
        let pos = h.item_pos in let word = h.word in grind arith in
      let index : leb l.length l.length ≡ true = ground arith in
      rw (
        index,
        add_size_checked-fit l.length 1 length-word (omega arith),
        fit_ok u64_max (l.length + 1) small,
      )

  store-set :
      (i : ℕ)
      → i < l.length
      → store_at l v i ≡ (record l { data' = write_at (l.item_size * i) v l.data' }, ok tt)
  unfolding store_at
  store-set i p = let index : leb l.length i ≡ false = ground arith in rw index

item_end : (s i n c : ℕ) → i < n → s * n ≤ c → (i + 1) * s ≤ c
item_end s i n c p q = grind arith

full_cases :
    (alloc word room : Bool)
    → (word && (alloc || room)) ≡ false
    → full_error alloc (err (if word then invalid_index else overflow_detected))
      ≡ err (if word then list_exceeds_max_size else overflow_detected)
unfolding full_error
full_cases true true room e = cc
full_cases true false room e = refl
full_cases false true room e = refl
full_cases false false room e = refl

-- The list after a call: the same mode and item size, and other items.
abbrev pub Became : ArrayList → List Bytes → ArrayList → Type 0
Became l xs l' = Holds l' xs × (l'.alloc ≡ l.alloc) × (l'.item_size ≡ l.item_size)

module _ (mem_acquire : ℕ → Bytes) (fresh : (n : ℕ) → length (mem_acquire n) ≡ n) (l : ArrayList)
    (xs : List Bytes) (h : Holds l xs) (v : Bytes) (fits : length v ≡ l.item_size) where
  -- Storing over an item of a list replaces just that item, in the memory that there is.
  pub set_at-Holds :
      (i : ℕ)
      → i < length xs
      → (l' : ArrayList) × (set_at mem_acquire l v i ≡ (l', ok tt)) × Became l (set xs i v) l'
  unfolding set_at
  set_at-Holds i p = elim (ensure-Ensured mem_acquire fresh l xs h i index) [
    | inl (l', eq, h', g, can) ↦
        let fits' : length v ≡ l'.item_size = fits ∙ sym g.item_size in
        (
          record l' { data' = write_at (l'.item_size * i) v l'.data' },
          rw eq (store-set l' xs h' v fits' i (omega (arith, h'.count))),
          (set-Holds l' xs h' v fits' i p, g.alloc, g.item_size),
        )
    | inr (eq, cannot) ↦
        let room = Holds-room l xs h in
        let word = h.word in
        let inside : (i + 1) * l.item_size ≤ l.current_size =
          item_end l.item_size i l.length l.current_size (omega (arith, h.count)) (omega arith) in
        absurd (ground arith)
  ]
    where
      index : i ≤ u64_max
      index = omega (arith, h.count, length-word l xs h v fits)

  -- Appending an item puts it behind the others, in old or new memory, exactly when the list can hold one
  -- item more. Otherwise the list stays as it is, and the error says whether the size would overflow or
  -- a static list is full.
  pub push_back-Holds :
      (capable l ((l.length + 1) * l.item_size) ≡ true
        → (l' : ArrayList) × (push_back mem_acquire l v ≡ (l', ok tt))
          × Became l (xs ++ (v ∷ [])) l')
      × (capable l ((l.length + 1) * l.item_size) ≡ false
          → push_back mem_acquire l v ≡ (
            l,
            err (
                if leb ((l.length + 1) * l.item_size) u64_max
                then list_exceeds_max_size
                else overflow_detected),
          ))
  unfolding push_back set_at
  push_back-Holds =
      elim (ensure-Ensured mem_acquire fresh l xs h l.length (length-word l xs h v fits)) [
        | inl (l', eq, h', g, can) ↦
            let fits' : length v ≡ l'.item_size = fits ∙ sym g.item_size in
            let room : (l'.length + 1) * l'.item_size ≤ l'.current_size =
              rw (g.length, g.item_size) g.room in
            let stored = store-append l' xs h' v fits' room in
            (
              λ _. (
                record l' {
                  data' = write_at (l'.item_size * l'.length) v l'.data';
                  length = l'.length + 1;
                },
                rw (eq, ap (store_at l' v) (sym g.length) ∙ stored),
                (append-Holds l' xs h' v fits' room, g.alloc, g.item_size),
              ),
              λ cannot. absurd (ground arith),
            )
        | inr (eq, cannot) ↦ (
          λ can. absurd (ground arith),
          λ _.
              rw eq (
                ap (λ r. (l, r))
                  (full_cases l.alloc (leb n u64_max) (leb n l.current_size) cannot)),
        )
      ]
    where
      n : ℕ
      n = (l.length + 1) * l.item_size
