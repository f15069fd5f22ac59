-- ===== src/PriorityQueue/Places.antt =====
-- What an exchange of two places makes of the others, in the items and in the pointers, and what ends of
-- both lists keep.
use aws_c_common.Prelude.{
  ℕ, zero, suc, ◌<◌, ◌≡◌, ◌≢◌, refl, sym, ap, ◌∙◌, List, [], ◌∷◌, ◌++◌, ◌==◌, if◌then◌else◌, Option,
  none, some, arith, length, get_elem?, set, take, Bool-cases, inl, inr, ◌⊎◌, ==_iff, some_eq,
}
use aws_c_common.Prelude.Lists.{length-set, get_elem?-set_self, get_elem?-set_ne}
use aws_c_common.PriorityQueue.{exchange, swap_items, node_at}

-- Where the item at a place came from.
abbrev pub origin : (a b i : ℕ) → ℕ
origin a b i = if i == b then a else if i == a then b else i

pub origin_twice : (a b i : ℕ) → origin a b (origin a b i) ≡ i
origin_twice a b i = ground arith

pub origin-inside : (n a b i : ℕ) → a < n → b < n → i < n → origin a b i < n
origin-inside n a b i ha hb hi = ground arith

pub get_elem?-inside :
    {A : Type 0} (xs : List A) (i : ℕ) → i < length xs → (x : A) × (get_elem? xs i ≡ some x)
get_elem?-inside [] i h = elim h [ ]
get_elem?-inside (x ∷ xs) zero h = (x, refl)
get_elem?-inside (x ∷ xs) (suc i) h = get_elem?-inside xs i (omega arith)

pub get_elem?-swap_items :
    {A : Type 0} (xs : List A) (a b i : ℕ)
    → a < length xs
    → b < length xs
    → get_elem? (swap_items xs a b) i ≡ get_elem? xs (origin a b i)
unfolding swap_items exchange
get_elem?-swap_items xs a b i ha hb =
    let (x, ex) = get_elem?-inside xs a ha in
    let (y, ey) = get_elem?-inside xs b hb in
    let la = length-set xs a y in
    rw (ex, ey)
      (elim (Bool-cases (i == b)) [
        | inl at_b ↦
            let e : i ≡ b = (==_iff i b).0 at_b in
            rw (at_b, e) (get_elem?-set_self (set xs a y) b x (omega arith) ∙ sym ex)
        | inr not_b ↦ elim (Bool-cases (i == a)) [
          | inl at_a ↦
              let e : i ≡ a = (==_iff i a).0 at_a in
              let ne : b ≢ i = ground arith in
              rw (not_b, at_a)
                (get_elem?-set_ne (set xs a y) x ne
                  ∙ ap (get_elem? (set xs a y)) e
                  ∙ get_elem?-set_self xs a y ha
                  ∙ sym ey)
          | inr not_a ↦
              let ne_b : b ≢ i = ground arith in
              let ne_a : a ≢ i = ground arith in
              rw (not_b, not_a) (get_elem?-set_ne (set xs a y) x ne_b ∙ get_elem?-set_ne xs y ne_a)
        ]
      ])

pub get_elem?-node_at :
    (ps : List (Option ℕ)) (i : ℕ) → i < length ps → get_elem? ps i ≡ some (node_at ps i)
unfolding node_at
get_elem?-node_at [] i h = elim h [ ]
get_elem?-node_at (p ∷ ps) zero h = refl
get_elem?-node_at (p ∷ ps) (suc i) h = get_elem?-node_at ps i (omega arith)

pub node_at-below : (ps : List (Option ℕ)) (i n : ℕ) → node_at ps i ≡ some n → i < length ps
unfolding node_at
node_at-below [] i n e = absurd (ground arith)
node_at-below (p ∷ ps) zero n e = omega arith
node_at-below (p ∷ ps) (suc i) n e = omega (arith, node_at-below ps i n e)

pub length-swap_items :
    {A : Type 0} (xs : List A) (a b : ℕ) → length (swap_items xs a b) ≡ length xs
unfolding swap_items exchange
length-swap_items {A = A} xs a b = by_option (get_elem? xs a) (get_elem? xs b)
  where
    by_option : (x y : Option A) → length (exchange x y xs a b) ≡ length xs
    by_option none y = refl
    by_option (some x) none = refl
    by_option (some x) (some y) = length-set (set xs a y) b x ∙ length-set xs a y

pub node_at-swap_items :
    (ps : List (Option ℕ)) (a b i : ℕ)
    → a < length ps
    → b < length ps
    → i < length ps
    → node_at (swap_items ps a b) i ≡ node_at ps (origin a b i)
node_at-swap_items ps a b i ha hb hi =
    let len = length-swap_items ps a b in
    some_eq (
      sym (get_elem?-node_at (swap_items ps a b) i (omega arith))
      ∙ get_elem?-swap_items ps a b i ha hb
      ∙ get_elem?-node_at ps (origin a b i) (origin-inside (length ps) a b i ha hb hi))

pub node_at-take_below :
    (ps : List (Option ℕ)) (k i : ℕ) → i < k → node_at (take k ps) i ≡ node_at ps i
unfolding node_at
node_at-take_below ps zero i h = absurd (omega arith)
node_at-take_below [] (suc k) i h = refl
node_at-take_below (p ∷ ps) (suc k) zero h = refl
node_at-take_below (p ∷ ps) (suc k) (suc i) h = node_at-take_below ps k i (omega arith)

pub get_elem?-take_found :
    {A : Type 0} (xs : List A) (k i : ℕ) (x : A)
    → get_elem? (take k xs) i ≡ some x
    → (i < k) × (get_elem? xs i ≡ some x)
get_elem?-take_found xs zero i x e = absurd (ground arith)
get_elem?-take_found [] (suc k) i x e = absurd (ground arith)
get_elem?-take_found (y ∷ xs) (suc k) zero x e = (omega arith, e)
get_elem?-take_found (y ∷ xs) (suc k) (suc i) x e =
    let (l, f) = get_elem?-take_found xs k i x e in (omega arith, f)

pub node_at-append_old :
    (ps : List (Option ℕ)) (p : Option ℕ) (i : ℕ)
    → i < length ps
    → node_at (ps ++ (p ∷ [])) i ≡ node_at ps i
unfolding node_at
node_at-append_old [] p i h = elim h [ ]
node_at-append_old (q ∷ ps) p zero h = refl
node_at-append_old (q ∷ ps) p (suc i) h = node_at-append_old ps p i (omega arith)

pub node_at-append_new :
    (ps : List (Option ℕ)) (p : Option ℕ) → node_at (ps ++ (p ∷ [])) (length ps) ≡ p
unfolding node_at
node_at-append_new [] p = refl
node_at-append_new (q ∷ ps) p = node_at-append_new ps p

pub get_elem?-append_found :
    {A : Type 0} (xs : List A) (y : A) (i : ℕ) (x : A)
    → get_elem? (xs ++ (y ∷ [])) i ≡ some x
    → ((i < length xs) × (get_elem? xs i ≡ some x)) ⊎ ((i ≡ length xs) × (y ≡ x))
get_elem?-append_found [] y zero x e = inr (refl, some_eq e)
get_elem?-append_found [] y (suc i) x e = absurd (ground arith)
get_elem?-append_found (z ∷ xs) y zero x e = inl (omega arith, e)
get_elem?-append_found (z ∷ xs) y (suc i) x e = elim (get_elem?-append_found xs y i x e) [
  | inl (low, old) ↦ inl (omega arith, old)
  | inr (at_end, new) ↦ inr (ap suc at_end, new)
]
