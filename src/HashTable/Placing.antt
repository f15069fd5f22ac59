-- ===== src/HashTable/Placing.antt =====
-- `s_emplace_item` keeps the order of the slots, and adds its entry to those that there are.
use aws_c_common.Prelude.{
  ℕ, zero, suc, ◌+◌, ◌-◌, ◌^◌, ◌≤◌, ◌<◌, ◌≡◌, ◌≢◌, refl, sym, ap, ◌∙◌, subst, true, false, ◌==◌,
  Option, inl, inr, arith, Bool-cases, ==_iff, length, set,
}
use aws_c_common.Prelude.Lists.{length-set}
use aws_c_common.Prelude.Weight.{
  weight, weight-set, get_elem?-get_or, get_or-set_self, get_or-set_ne,
}
use aws_c_common.HashTable.{
  Entry, empty_entry, Slots, slot, is_empty, index_at, probe_of, emplace_item,
}
use aws_c_common.HashTable.Ring.{Ring}
use aws_c_common.HashTable.Probing.{
  depth, deep, after, Chain, Words, depth_occupied, depth_empty, index_after,
}

-- A weight that counts no empty slot.
abbrev pub Counts : (Entry → ℕ) → Type 0
Counts f = (e : Entry) → is_empty e ≡ true → f e ≡ 0

module _ (size mask : ℕ) (ring : Ring size mask) where
  pub after_injective : (i j : ℕ) → i < size → j < size → after mask i ≡ after mask j → i ≡ j
  after_injective i j hi hj e =
      let two = ring.two in
      let turn : 1 + (size - 1) ≡ size = omega arith in
      let back : (k : ℕ) → k < size → index_at mask (after mask k) (size - 1) ≡ k = λ k low.
        ring.index_add k 1 (size - 1) ∙ ap (index_at mask k) turn ∙ ring.index_turn k low in
      sym (back i hi) ∙ ap (λ (t : ℕ). index_at mask t (size - 1)) e ∙ back j hj

  -- Two places of a ring that are counted from one start.
  pub same_place :
      (i a b : ℕ) → i < size → a < size → b < size → index_at mask i a ≡ index_at mask i b → a ≡ b
  same_place i a b hi ha hb e =
      let word = ring.word in
      let small : i < 2 ^ 64 = omega arith in
      sym (ring.probe-index i a small ha)
      ∙ ap (λ (t : ℕ). probe_of mask t i) e
      ∙ ring.probe-index i b small hb

  pub after_apart : (i : ℕ) → i < size → i ≢ after mask i
  after_apart i low same =
      let two = ring.two in
      let z = same_place i 0 1 low (omega arith) (omega arith) (ring.index-zero i low ∙ same) in
      omega arith

  -- One place of slots in order is changed: it and its two neighbours are to be looked at.
  pub set-Chain :
      (slots : Slots) (cur : ℕ) (e : Entry)
      → length slots ≡ size
      → cur < size
      → Chain size mask slots
      → ((i : ℕ) → i < size → after mask i ≡ cur → depth mask cur e ≤ deep mask slots i + 1)
      → deep mask slots (after mask cur) ≤ depth mask cur e + 1
      → Chain size mask (set slots cur e)
  set-Chain slots cur e len inside chain left right i low =
      let at_self : deep mask (set slots cur e) cur ≡ depth mask cur e =
        ap (depth mask cur) (get_or-set_self slots cur e empty_entry (omega arith)) in
      let other : (j : ℕ) → cur ≢ j → deep mask (set slots cur e) j ≡ deep mask slots j =
        λ j ne. ap (depth mask j) (get_or-set_ne slots cur j e empty_entry ne) in
      let step = chain i low in
      elim (Bool-cases (after mask i == cur)) [
        | inl next_is ↦
            let ne : after mask i ≡ cur = (==_iff (after mask i) cur).0 next_is in
            let there : deep mask (set slots cur e) (after mask i) ≡ depth mask cur e =
              ap (deep mask (set slots cur e)) ne ∙ at_self in
            let o = other i (λ same. after_apart i low (sym same ∙ sym ne)) in
            omega (arith, left i low ne)
        | inr next_not ↦
            let n = other (after mask i) (λ (t : cur ≡ after mask i). ground arith) in
            elim (Bool-cases (i == cur)) [
              | inl here_too ↦
                  let ie : i ≡ cur = (==_iff i cur).0 here_too in
                  let same : deep mask (set slots cur e) i ≡ depth mask cur e =
                    ap (deep mask (set slots cur e)) ie ∙ at_self in
                  let old : deep mask slots (after mask i) ≡ deep mask slots (after mask cur) =
                    ap (λ (t : ℕ). deep mask slots (after mask t)) ie in
                  omega arith
              | inr before ↦ let o = other i (λ (t : cur ≡ i). ground arith) in omega arith
            ]
      ]

  pub set-Words :
      (slots : Slots) (cur : ℕ) (e : Entry)
      → cur < length slots
      → Words slots
      → e.hash_code < 2 ^ 64
      → Words (set slots cur e)
  set-Words slots cur e inside words small i = elim (Bool-cases (cur == i)) [
    | inl same ↦
        let ie : cur ≡ i = (==_iff cur i).0 same in
        subst (λ (t : ℕ). (slot (set slots cur e) t).hash_code < 2 ^ 64) ie
          (subst (λ (t : Entry). t.hash_code < 2 ^ 64)
            (sym (get_or-set_self slots cur e empty_entry inside)) small)
    | inr other ↦
        subst (λ (t : Entry). t.hash_code < 2 ^ 64)
          (sym (get_or-set_ne slots cur i e empty_entry (λ (t : cur ≡ i). ground arith))) (words i)
  ]

  pub weight-set_slot :
      (f : Entry → ℕ) (slots : Slots) (cur : ℕ) (e : Entry)
      → cur < length slots
      → weight f (set slots cur e) + f (slot slots cur) ≡ weight f slots + f e
  weight-set_slot f slots cur e inside =
      weight-set f slots cur e (slot slots cur) (get_elem?-get_or slots cur empty_entry inside)

  -- The slots after an entry has been put into those before: in order again, with the entry added, and as
  -- they were outside the `m` places behind `cur` and `cur` itself.
  pub record Emplaced (slots : Slots) (e : Entry) (cur m : ℕ) (r : Slots) : Type 0 where
    pub chain : Chain size mask r
    pub words : Words r
    pub len : length r ≡ size
    pub weigh : (f : Entry → ℕ) → Counts f → weight f r ≡ weight f slots + f e
    pub kept : (j : ℕ) → ((t : ℕ) → t ≤ m → j ≢ index_at mask cur t) → slot r j ≡ slot slots j

-- An empty entry is put nowhere.
pub emplace_item-empty :
    (mask fuel p : ℕ) (slots : Slots) (e : Entry) (rval : Option ℕ)
    → is_empty e ≡ true
    → emplace_item fuel mask slots e p rval ≡ (slots, rval)
unfolding emplace_item
emplace_item-empty mask zero p slots e rval gone = refl
emplace_item-empty mask (suc fuel) p slots e rval gone = rw gone refl

module _ (size mask : ℕ) (ring : Ring size mask) where
  -- Going on at the place behind.
  pub behind : (cur m : ℕ) → 0 < m → index_at mask (after mask cur) (m - 1) ≡ index_at mask cur m
  behind cur m pos =
      let e : 1 + (m - 1) ≡ m = omega arith in
      ring.index_add cur 1 (m - 1) ∙ ap (index_at mask cur) e

  module _ (slots : Slots) (e : Entry) (cur m p : ℕ) (occupied : is_empty e ≡ false)
      (small : e.hash_code < 2 ^ 64) (p_low : p < size) (inside : cur < size)
      (at : index_at mask e.hash_code p ≡ cur) (len : length slots ≡ size) (words : Words slots)
      (chain : Chain size mask slots)
      (left : (i : ℕ) → i < size → after mask i ≡ cur → p ≤ deep mask slots i) where
    pub here_deep : depth mask cur e ≡ p + 1
    here_deep =
        depth_occupied size mask ring cur e occupied
        ∙ ap (λ (t : ℕ). probe_of mask t e.hash_code + 1) (sym at)
        ∙ ap (λ (t : ℕ). t + 1) (ring.probe-index e.hash_code p small p_low)

    pub put_Chain : deep mask slots cur ≤ p → Chain size mask (set slots cur e)
    put_Chain shallow =
        let here = here_deep in
        set-Chain size mask ring slots cur e len inside chain
          (λ i low same. omega (arith, left i low same)) (omega (arith, chain cur inside))

    pub put_Words : Words (set slots cur e)
    put_Words = set-Words size mask ring slots cur e (omega arith) words small

    cur_first : index_at mask cur 0 ≡ cur
    cur_first = ring.index-zero cur inside

    -- The end of the loop, in an empty slot.
    pub put_last :
        is_empty (slot slots cur) ≡ true → Emplaced size mask ring slots e cur m (set slots cur e)
    put_last gone =
        let shallow = depth_empty size mask ring cur (slot slots cur) gone in
        record {
          chain = put_Chain (omega arith);
          words = put_Words;
          len = length-set slots cur e ∙ len;
          weigh = λ f counts. omega (
            arith,
            weight-set_slot size mask ring f slots cur e (omega arith),
            counts (slot slots cur) gone,
          );
          kept = λ j far.
              get_or-set_ne slots cur j e empty_entry
                (λ same. far 0 (omega arith) (sym same ∙ sym cur_first));
        }

    -- The entry takes the victim's place, and the victim goes on.
    pub put_on :
        (r : Slots)
        → is_empty (slot slots cur) ≡ false
        → 0 < m
        → m < size
        → Emplaced size mask ring (set slots cur e) (slot slots cur) (after mask cur) (m - 1) r
        → Emplaced size mask ring slots e cur m r
    put_on r full pos m_low rest = record {
      chain = rest.chain;
      words = rest.words;
      len = rest.len;
      weigh = λ f counts.
          omega (
            arith,
            weight-set_slot size mask ring f slots cur e (omega arith),
            rest.weigh f counts,
          );
      kept = λ j far.
          rest.kept j (λ t low same. far (1 + t) (omega arith) (same ∙ ring.index_add cur 1 t))
          ∙ get_or-set_ne slots cur j e empty_entry
              (λ same. far 0 (omega arith) (sym same ∙ sym cur_first));
    }

    -- The entry goes on.
    pub go_on :
        (r : Slots)
        → 0 < m
        → Emplaced size mask ring slots e (after mask cur) (m - 1) r
        → Emplaced size mask ring slots e cur m r
    go_on r pos rest = record {
      chain = rest.chain;
      words = rest.words;
      len = rest.len;
      weigh = rest.weigh;
      kept = λ j far.
          rest.kept j (λ t low same. far (1 + t) (omega arith) (same ∙ ring.index_add cur 1 t));
    }

    pub victim_next :
        (v : Entry)
        → v ≡ slot slots cur
        → index_at mask v.hash_code (probe_of mask cur v.hash_code + 1) ≡ after mask cur
    victim_next v same =
        let vs : v.hash_code < 2 ^ 64 =
          subst (λ (t : Entry). t.hash_code < 2 ^ 64) (sym same) (words cur) in
        sym (index_after size mask ring v.hash_code (probe_of mask cur v.hash_code))
        ∙ ap (after mask) (ring.index-probe cur v.hash_code vs inside)
