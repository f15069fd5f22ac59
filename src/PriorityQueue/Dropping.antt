-- ===== src/PriorityQueue/Dropping.antt =====
-- What the end of `s_remove_node` and the end of a push make of the list of pointers and of the nodes.
use aws_c_common.Prelude.{
  ℕ, zero, suc, ◌+◌, ◌-◌, ◌<◌, ◌≡◌, ◌≢◌, refl, sym, ap, ◌∙◌, List, [], ◌∷◌, ◌++◌, ◌==◌, Option,
  none, some, arith, length, take, replicate, inl, inr, Bool-cases, ==_iff, some_eq, ◌⊎◌,
}
use aws_c_common.Prelude.Lists.{length-append, length-take}
use aws_c_common.PriorityQueue.Places.{
  get_elem?-take_found, node_at-take_below, node_at-below, node_at-append_old, node_at-append_new,
  get_elem?-append_found,
}
use aws_c_common.PriorityQueue.{point, drop_last, node_at, drop_node, removed}
use aws_c_common.PriorityQueue.Nodes.{point-same, point-other, Tracks, Labels, Leaves, pointer}

pub length-drop_last : {A : Type 0} (xs : List A) → length (drop_last xs) ≡ length xs - 1
unfolding drop_last
length-drop_last xs = omega (arith, length-take (length xs - 1) xs)

node_at-take :
    (ps : List (Option ℕ)) (k i n : ℕ)
    → node_at (take k ps) i ≡ some n
    → (i < k) × (node_at ps i ≡ some n)
unfolding node_at
node_at-take ps zero i n e = absurd (ground arith)
node_at-take [] (suc k) i n e = absurd (ground arith)
node_at-take (p ∷ ps) (suc k) zero n e = (omega arith, e)
node_at-take (p ∷ ps) (suc k) (suc i) n e = let (l, f) = node_at-take ps k i n e in (omega arith, f)

pub drop_node-Tracks :
    (ps : Option (List (Option ℕ))) (nodes : ℕ → ℕ) (k : ℕ)
    → Tracks ps nodes (k + 1)
    → Tracks (drop_node ps nodes k).0 (drop_node ps nodes k).1 k
unfolding drop_node drop_last
drop_node-Tracks none nodes k t = tt
drop_node-Tracks (some ps) nodes k t = (
  omega (arith, t.0, length-take (length ps - 1) ps),
  λ i n e.
      let (low, f) = node_at-take ps (length ps - 1) i n e in
      let old : nodes n ≡ i = t.1 i n f in
      point-other nodes (node_at ps k) n removed
        (λ last. let at_end : nodes n ≡ k = t.1 k n last in omega (arith, t.0))
      ∙ old,
)

points_cases : (p : Option ℕ) (n : ℕ) → (p ≡ some n) ⊎ (p ≢ some n)
points_cases none n = inr (λ e. absurd (ground arith))
points_cases (some m) n = elim (Bool-cases (m == n)) [
  | inl same ↦ inl (ap some ((==_iff m n).0 same))
  | inr other ↦ inr (λ e. let same : m ≡ n = some_eq e in absurd (ground arith))
]

pub drop_node-Labels :
    {A : Type 0} (node_of : A → Option ℕ) (items : List A) (ps : Option (List (Option ℕ)))
    (nodes : ℕ → ℕ) (k : ℕ)
    → length items ≡ k + 1
    → Tracks ps nodes (k + 1)
    → Labels node_of items ps
    → Labels node_of (drop_last items) (drop_node ps nodes k).0
unfolding drop_node drop_last
drop_node-Labels node_of items none nodes k len t l i x e =
    l i x (get_elem?-take_found items (length items - 1) i x e).1
drop_node-Labels node_of items (some ps) nodes k len t l i x e =
    let (low, found) = get_elem?-take_found items (length items - 1) i x e in
    node_at-take_below ps (length ps - 1) i (omega (arith, t.0)) ∙ l i x found

pub drop_node-Leaves :
    (away : ℕ → ℕ) (ps : Option (List (Option ℕ))) (nodes : ℕ → ℕ) (k : ℕ) (p : Option ℕ)
    → pointer ps k ≡ p
    → Tracks ps nodes (k + 1)
    → Leaves away ps nodes
    → Leaves (point away p removed) (drop_node ps nodes k).0 (drop_node ps nodes k).1
unfolding drop_node drop_last
drop_node-Leaves away none nodes k p last t l n h =
    l n h ∙ sym (point-other away p n removed (λ e. h k (last ∙ e)))
drop_node-Leaves away (some ps) nodes k p last t l n h = elim (points_cases p n) [
  | inl e ↦
      point-same nodes (node_at ps k) n removed (last ∙ e) ∙ sym (point-same away p n removed e)
  | inr ne ↦
      point-other nodes (node_at ps k) n removed (λ e. ne (sym last ∙ e))
      ∙ l n (λ j e. elim (Bool-cases (j == k)) [
        | inl at_k ↦ ne (sym last ∙ ap (node_at ps) (sym ((==_iff j k).0 at_k)) ∙ e)
        | inr before ↦
            let low = node_at-below ps j n e in
            let inside : j < length ps - 1 = ground (arith, t.0) in
            h j (node_at-take_below ps (length ps - 1) j inside ∙ e)
      ])
      ∙ sym (point-other away p n removed ne)
]

node_at-append :
    (ps : List (Option ℕ)) (p : Option ℕ) (i n : ℕ)
    → node_at (ps ++ (p ∷ [])) i ≡ some n
    → (node_at ps i ≡ some n) ⊎ ((i ≡ length ps) × (p ≡ some n))
unfolding node_at
node_at-append [] p zero n e = inr (refl, e)
node_at-append [] p (suc i) n e = absurd (ground arith)
node_at-append (q ∷ ps) p zero n e = inl e
node_at-append (q ∷ ps) p (suc i) n e = elim (node_at-append ps p i n e) [
  | inl old ↦ inl old
  | inr (at_end, new) ↦ inr (ap suc at_end, new)
]

pub node_at-replicate : (k i n : ℕ) → node_at (replicate k none) i ≢ some n
unfolding node_at
node_at-replicate zero i n e = ground arith
node_at-replicate (suc k) zero n e = ground arith
node_at-replicate (suc k) (suc i) n e = node_at-replicate k i n e

-- A node that is not in the list yet.
abbrev pub Fresh : Option (List (Option ℕ)) → Option ℕ → Type 0
Fresh none p = Unit {0}
Fresh (some ps) p = (i n : ℕ) → p ≡ some n → node_at ps i ≢ some n

pub append-Tracks :
    (ps : List (Option ℕ)) (nodes : ℕ → ℕ) (p : Option ℕ)
    → ((i n : ℕ) → node_at ps i ≡ some n → nodes n ≡ i)
    → Fresh (some ps) p
    → Tracks (some (ps ++ (p ∷ []))) (point nodes p (length ps)) (length ps + 1)
append-Tracks ps nodes p t fresh = (
  length-append ps (p ∷ []),
  λ i n e. elim (node_at-append ps p i n e) [
    | inl old ↦ point-other nodes p n (length ps) (λ new. fresh i n new old) ∙ t i n old
    | inr (at_end, new) ↦ point-same nodes p n (length ps) new ∙ sym at_end
  ],
)

-- A node of the new item is not in the list yet.
pub append-Labels :
    {A : Type 0} (node_of : A → Option ℕ) (items : List A) (item : A) (ps : List (Option ℕ))
    → length ps ≡ length items
    → Labels node_of items (some ps)
    → Labels node_of (items ++ (item ∷ [])) (some (ps ++ (node_of item ∷ [])))
append-Labels node_of items item ps len l i x e = elim (get_elem?-append_found items item i x e) [
  | inl (low, old) ↦ node_at-append_old ps (node_of item) i (omega arith) ∙ l i x old
  | inr (at_end, new) ↦
      ap (node_at (ps ++ (node_of item ∷ []))) (at_end ∙ sym len)
      ∙ node_at-append_new ps (node_of item)
      ∙ ap node_of new
]

pub append-Leaves :
    (away : ℕ → ℕ) (ps : List (Option ℕ)) (nodes : ℕ → ℕ) (p : Option ℕ)
    → Leaves away (some ps) nodes
    → Leaves away (some (ps ++ (p ∷ []))) (point nodes p (length ps))
append-Leaves away ps nodes p l n h =
    point-other nodes p n (length ps) (λ e. h (length ps) (node_at-append_new ps p ∙ e))
    ∙ l n (λ j e. h j (node_at-append_old ps p j (node_at-below ps j n e) ∙ e))

pub node_at-nulls : (k i : ℕ) → node_at (replicate k none) i ≡ none
unfolding node_at
node_at-nulls zero i = refl
node_at-nulls (suc k) zero = refl
node_at-nulls (suc k) (suc i) = node_at-nulls k i
