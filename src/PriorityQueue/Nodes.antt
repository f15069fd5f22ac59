-- ===== src/PriorityQueue/Nodes.antt =====
-- Where the nodes say that their items are: `current_index` against the list of back pointers.
use aws_c_common.Prelude.{
  ℕ, zero, suc, ◌<◌, ◌≡◌, ◌≢◌, refl, sym, ap, ◌∙◌, subst, true, List, [], ◌∷◌, ◌==◌, Option, none,
  some, arith, length, get_elem?, set, Bool-cases, inl, inr, ==_iff, some_eq,
}
use aws_c_common.Prelude.Lists.{length-set}
use aws_c_common.Prelude.Bits.{bit_and-one}
use aws_c_common.Prelude.Weight.{get_elem?-below}
use aws_c_common.PriorityQueue.Places.{
  origin, origin_twice, origin-inside, get_elem?-swap_items, get_elem?-node_at, node_at-below,
  length-swap_items, node_at-swap_items,
}
use aws_c_common.PriorityQueue.{
  PriorityQueue, parent_of, point, exchange, swap_items, node_at, swap_nodes, swap,
}

pub point-same : (nodes : ℕ → ℕ) (p : Option ℕ) (n i : ℕ) → p ≡ some n → point nodes p i n ≡ i
unfolding point
point-same nodes none n i e = absurd (ground arith)
point-same nodes (some m) n i e =
    let s : m ≡ n = some_eq e in let t : (n == m) ≡ true = ground arith in rw t refl

pub point-other :
    (nodes : ℕ → ℕ) (p : Option ℕ) (n i : ℕ) → p ≢ some n → point nodes p i n ≡ nodes n
unfolding point
point-other nodes none n i h = refl
point-other nodes (some m) n i h = elim (Bool-cases (n == m)) [
  | inl same ↦ absurd (h (ap some (sym ((==_iff n m).0 same))))
  | inr other ↦ rw other refl
]

node_at-set_self :
    (ps : List (Option ℕ)) (i : ℕ) (v : Option ℕ) → i < length ps → node_at (set ps i v) i ≡ v
unfolding node_at
node_at-set_self [] i v h = elim h [ ]
node_at-set_self (p ∷ ps) zero v h = refl
node_at-set_self (p ∷ ps) (suc i) v h = node_at-set_self ps i v (omega arith)

node_at-set_ne :
    (ps : List (Option ℕ)) (i j : ℕ) (v : Option ℕ) → i ≢ j → node_at (set ps i v) j ≡ node_at ps j
unfolding node_at
node_at-set_ne [] i j v h = refl
node_at-set_ne (p ∷ ps) zero zero v h = absurd (h refl)
node_at-set_ne (p ∷ ps) zero (suc j) v h = refl
node_at-set_ne (p ∷ ps) (suc i) zero v h = refl
node_at-set_ne (p ∷ ps) (suc i) (suc j) v h = node_at-set_ne ps i j v (λ e. h (ap suc e))

-- Each node that is pointed to says the place of its pointer, and the pointers are as many as the items.
abbrev pub Tracks : Option (List (Option ℕ)) → (ℕ → ℕ) → ℕ → Type 0
Tracks none nodes len = Unit {0}
Tracks (some ps) nodes len = (length ps ≡ len) × ((i n : ℕ) → node_at ps i ≡ some n → nodes n ≡ i)

swap_nodes-Tracks :
    (ps : Option (List (Option ℕ))) (nodes : ℕ → ℕ) (len a b : ℕ)
    → a < len
    → b < len
    → Tracks ps nodes len
    → Tracks (swap_nodes ps nodes a b).0 (swap_nodes ps nodes a b).1 len
unfolding swap_nodes swap_items exchange
swap_nodes-Tracks none nodes len a b ha hb t = tt
swap_nodes-Tracks (some ps) nodes len a b ha hb t =
    let ga = get_elem?-node_at ps a (omega (arith, t.0)) in
    let gb = get_elem?-node_at ps b (omega (arith, t.0)) in
    rw (ga, gb)
      (
        length-set (set ps a (node_at ps b)) b (node_at ps a)
            ∙ length-set ps a (node_at ps b)
            ∙ t.0,
        places,
      )
  where
    pa : Option ℕ
    pa = node_at ps a

    pb : Option ℕ
    pb = node_at ps b

    swapped : List (Option ℕ)
    swapped = set (set ps a pb) b pa

    second : node_at swapped b ≡ pa
    second = node_at-set_self (set ps a pb) b pa (omega (arith, t.0, length-set ps a pb))

    first : a ≢ b → node_at swapped a ≡ pb
    first ne =
        node_at-set_ne (set ps a pb) b a pa (λ e. ne (sym e))
        ∙ node_at-set_self ps a pb (omega (arith, t.0))

    places :
        (i n : ℕ)
        → node_at swapped i ≡ some n
        → point (point nodes (node_at swapped a) a) (node_at swapped b) b n ≡ i
    places i n e = elim (Bool-cases (i == b)) [
      | inl at_b ↦
          let ib : i ≡ b = (==_iff i b).0 at_b in
          point-same (point nodes (node_at swapped a) a) (node_at swapped b) n b
            (ap (node_at swapped) (sym ib) ∙ e)
          ∙ sym ib
      | inr not_b ↦ elim (Bool-cases (i == a)) [
        | inl at_a ↦
            let ia : i ≡ a = (==_iff i a).0 at_a in
            let ne : a ≢ b = ground arith in
            let here : node_at swapped a ≡ some n = ap (node_at swapped) (sym ia) ∙ e in
            let old : nodes n ≡ b = t.1 b n (sym (first ne) ∙ here) in
            point-other (point nodes (node_at swapped a) a) (node_at swapped b) n b
              (λ f. ne (sym (t.1 a n (sym second ∙ f)) ∙ old))
            ∙ point-same nodes (node_at swapped a) n a here
            ∙ sym ia
        | inr not_a ↦
            let ne_b : b ≢ i = ground arith in
            let ne_a : a ≢ i = ground arith in
            let same : node_at ps i ≡ some n =
              sym (node_at-set_ne (set ps a pb) b i pa ne_b ∙ node_at-set_ne ps a i pb ne_a) ∙ e in
            let old : nodes n ≡ i = t.1 i n same in
            point-other (point nodes (node_at swapped a) a) (node_at swapped b) n b
              (λ f. ne_a (sym (t.1 a n (sym second ∙ f)) ∙ old))
            ∙ point-other nodes (node_at swapped a) n a (not_first old ne_b ne_a)
            ∙ old
      ]
    ]
      where
        not_first : nodes n ≡ i → b ≢ i → a ≢ i → node_at swapped a ≢ some n
        not_first old ne_b ne_a f = elim (Bool-cases (a == b)) [
          | inl same ↦ ne_a (
              sym (t.1 a n (sym second ∙ ap (node_at swapped) (sym ((==_iff a b).0 same)) ∙ f))
              ∙ old)
          | inr other ↦ ne_b (sym (t.1 b n (sym (first (ground arith)) ∙ f)) ∙ old)
        ]

-- The pointer at a place, of which the zeroed list has none.
abbrev pub pointer : Option (List (Option ℕ)) → ℕ → Option ℕ
pointer none i = none
pointer (some ps) i = node_at ps i

-- The pointer at the place of each item is that to the item's own node, if it has one.
abbrev pub Labels : {A : Type 0} → (A → Option ℕ) → List A → Option (List (Option ℕ)) → Type 0
Labels {A = A} node_of items ps =
    (i : ℕ) (x : A) → get_elem? items i ≡ some x → pointer ps i ≡ node_of x

-- A node that is not pointed to says what it said outside the queue.
abbrev pub Leaves : (away : ℕ → ℕ) → Option (List (Option ℕ)) → (ℕ → ℕ) → Type 0
Leaves away ps nodes = (n : ℕ) → ((i : ℕ) → pointer ps i ≢ some n) → nodes n ≡ away n

swap_nodes-Labels :
    {A : Type 0} (node_of : A → Option ℕ) (items : List A) (ps : Option (List (Option ℕ)))
    (nodes : ℕ → ℕ) (a b : ℕ)
    → a < length items
    → b < length items
    → Tracks ps nodes (length items)
    → Labels node_of items ps
    → Labels node_of (swap_items items a b) (swap_nodes ps nodes a b).0
unfolding swap_nodes
swap_nodes-Labels node_of items none nodes a b ha hb t l i x e =
    l (origin a b i) x (sym (get_elem?-swap_items items a b i ha hb) ∙ e)
swap_nodes-Labels node_of items (some ps) nodes a b ha hb t l i x e =
    let inside = get_elem?-below (swap_items items a b) i x e in
    let len = length-swap_items items a b in
    node_at-swap_items ps a b i (omega (arith, t.0)) (omega (arith, t.0)) (omega (arith, t.0))
    ∙ l (origin a b i) x (sym (get_elem?-swap_items items a b i ha hb) ∙ e)

swap_nodes-Leaves :
    (away : ℕ → ℕ) (ps : Option (List (Option ℕ))) (nodes : ℕ → ℕ) (len a b : ℕ)
    → a < len
    → b < len
    → Tracks ps nodes len
    → Leaves away ps nodes
    → Leaves away (swap_nodes ps nodes a b).0 (swap_nodes ps nodes a b).1
unfolding swap_nodes
swap_nodes-Leaves away none nodes len a b ha hb t l n h = l n h
swap_nodes-Leaves away (some ps) nodes len a b ha hb t l n h =
    let swapped = swap_items ps a b in
    let place = λ (j : ℕ) (e : node_at ps j ≡ some n).
      let low = node_at-below ps j n e in
      let back = origin_twice a b j in
      node_at-swap_items ps a b (origin a b j) (omega (arith, t.0)) (omega (arith, t.0))
        (origin-inside (length ps) a b j (omega (arith, t.0)) (omega (arith, t.0)) low)
      ∙ ap (node_at ps) back
      ∙ e in
    point-other (point nodes (node_at swapped a) a) (node_at swapped b) n b (h b)
    ∙ point-other nodes (node_at swapped a) n a (h a)
    ∙ l n (λ j e. h (origin a b j) (place j e))

-- The node of each item in the queue says the place of its item, and the others what they said outside,
-- which is `away`. `node_of` says which node an item was pushed with.
abbrev pub Tracked : {A : Type 0} → (A → Option ℕ) → (away : ℕ → ℕ) → PriorityQueue A → Type 0
Tracked node_of away q =
    Tracks q.backpointers q.nodes (length q.container.items)
    × Labels node_of q.container.items q.backpointers
    × Leaves away q.backpointers q.nodes

pub parent_of-below : (i : ℕ) → 0 < i → parent_of i < i
unfolding parent_of
parent_of-below i h = ground (arith, bit_and-one i)

module _ {A : Type 0} where
  pub swap-Tracked :
      (node_of : A → Option ℕ) (away : ℕ → ℕ) (q : PriorityQueue A) (a b : ℕ)
      → a < length q.container.items
      → b < length q.container.items
      → Tracked node_of away q
      → Tracked node_of away (swap q a b)
  unfolding swap
  swap-Tracked node_of away q a b ha hb (t, l, o) = (
    subst
        (Tracks (swap_nodes q.backpointers q.nodes a b).0 (swap_nodes q.backpointers q.nodes a b).1)
        (sym (length-swap_items q.container.items a b))
        (swap_nodes-Tracks q.backpointers q.nodes (length q.container.items) a b ha hb t),
    swap_nodes-Labels node_of q.container.items q.backpointers q.nodes a b ha hb t l,
    swap_nodes-Leaves away q.backpointers q.nodes (length q.container.items) a b ha hb t o,
  )

  pub swap-length :
      (q : PriorityQueue A) (a b : ℕ)
      → length (swap q a b).container.items ≡ length q.container.items
  unfolding swap
  swap-length q a b = length-swap_items q.container.items a b
