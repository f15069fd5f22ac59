-- ===== src/HashTable/Inserting.antt =====
-- Putting one entry, or all entries of another table, into slots that have room: what `s_emplace_item`
-- returns, and the loop of `s_expand_table`.
use aws_c_common.Prelude.{
  ℕ, zero, suc, ◌+◌, ◌-◌, ◌^◌, ◌≤◌, ◌<◌, ◌≡◌, ◌≢◌, refl, sym, ap, ◌∙◌, subst, true, false, ◌||◌, [],
  ◌∷◌, ltb, if◌then◌else◌, Option, none, some, inl, inr, arith, Bool-cases, length, set, if_rule,
}
use aws_c_common.Prelude.Weight.{weight, get_or-set_self}
use aws_c_common.HashTable.{
  Entry, empty_entry, Slots, slot, is_empty, index_at, probe_of, first_place, emplace_item,
}
use aws_c_common.HashTable.Operations.{emplace_all}
use aws_c_common.HashTable.Ring.{Ring}
use aws_c_common.HashTable.Probing.{deep, after, Chain, Words}
use aws_c_common.HashTable.Placing.{Counts, same_place, emplace_item-empty}
use aws_c_common.HashTable.Emplacing.{
  Carrying, carry_victim, carry_on, ahead, emplace_item-Emplaced,
}

-- The weight that counts the entries.
abbrev pub occupied : Entry → ℕ
occupied e = if is_empty e then 0 else 1

pub gap_in :
    (slots : Slots)
    → weight occupied slots < length slots
    → (j : ℕ) × (j < length slots) × (is_empty (slot slots j) ≡ true)
gap_in [] h = elim h [ ]
gap_in (e ∷ es) h = elim (Bool-cases (is_empty e)) [
  | inl gone ↦ (zero, omega arith, gone)
  | inr full ↦
      let one : occupied e ≡ 1 = ground arith in
      let (j, low, gone) = gap_in es (omega arith) in (suc j, omega arith, gone)
]

emplace_item-keeps_first :
    (mask fuel p i : ℕ) (slots : Slots) (e : Entry)
    → (emplace_item fuel mask slots e p (some i)).1 ≡ some i
unfolding emplace_item first_place
emplace_item-keeps_first mask zero p i slots e = refl
emplace_item-keeps_first mask (suc fuel) p i slots e =
    let index = index_at mask e.hash_code p in
    let v = slot slots index in
    if_rule (λ (r : Slots × Option ℕ). r.1 ≡ some i) (is_empty e) (λ gone. refl)
      (λ full.
        if_rule (λ (r : Slots × Option ℕ). r.1 ≡ some i)
          (is_empty v || ltb (probe_of mask index v.hash_code) p)
          (λ near.
            emplace_item-keeps_first mask fuel (probe_of mask index v.hash_code + 1) i
              (set slots index e) v)
          (λ far. emplace_item-keeps_first mask fuel (p + 1) i slots e))

module _ (size mask : ℕ) (ring : Ring size mask) where
  -- The place that is returned holds the entry in the end.
  emplace_item-place :
      (fuel : ℕ) (slots : Slots) (e : Entry) (cur m p : ℕ)
      → Carrying size mask ring slots e cur m p
      → m < fuel
      → (i : ℕ) × ((emplace_item fuel mask slots e p none).1 ≡ some i)
        × (i < size)
        × (slot (emplace_item fuel mask slots e p none).0 i ≡ e)
  unfolding emplace_item first_place
  emplace_item-place zero slots e cur m p c enough = absurd (omega arith)
  emplace_item-place (suc fuel) slots e cur m p c enough =
      let v = slot slots cur in
      let there : slot (set slots cur e) cur ≡ e =
        get_or-set_self slots cur e empty_entry (omega (arith, c.len, c.inside)) in
      rw (c.occupied, c.at)
        (elim (Bool-cases (is_empty v)) [
          | inl gone ↦
              let stop =
                emplace_item-empty mask fuel (probe_of mask cur v.hash_code + 1) (set slots cur e) v
                  (first_place none cur) gone in
              (
                cur,
                rw gone (ap (λ (r : Slots × Option ℕ). r.1) stop ∙ first_lem cur),
                c.inside,
                rw gone (ap (λ (r : Slots × Option ℕ). slot r.0 cur) stop ∙ there),
              )
          | inr full ↦
              let pos = ahead size mask ring slots e cur m p c full in
              elim (Bool-cases (ltb (probe_of mask cur v.hash_code) p)) [
                | inl near ↦
                    let first : (emplace_item fuel mask (set slots cur e) v
                          (probe_of mask cur v.hash_code + 1) (first_place none cur)).1
                        ≡ some cur =
                      ap
                        (λ r.
                          (emplace_item fuel mask (set slots cur e) v
                            (probe_of mask cur v.hash_code + 1) r).1)
                        (first_lem cur)
                      ∙ emplace_item-keeps_first mask fuel (probe_of mask cur v.hash_code + 1) cur
                          (set slots cur e) v in
                    let rest =
                      emplace_item-Emplaced size mask ring fuel (set slots cur e) v (after mask cur)
                        (m - 1) (probe_of mask cur v.hash_code + 1) (first_place none cur)
                        (carry_victim size mask ring slots e cur m p c full near) (omega arith) in
                    let m_low = c.m_low in
                    let away : (t : ℕ) → t ≤ m - 1 → cur ≢ index_at mask (after mask cur) t =
                      λ t low same.
                        let z =
                          same_place size mask ring cur 0 (1 + t) c.inside (omega arith)
                            (omega arith)
                            (ring.index-zero cur c.inside ∙ same ∙ ring.index_add cur 1 t) in
                        omega arith in
                    (
                      cur,
                      rw (full, near) first,
                      c.inside,
                      rw (full, near) (rest.kept cur away ∙ there),
                    )
                | inr far ↦
                    let (i, first, inside, holds) =
                      emplace_item-place fuel slots e (after mask cur) (m - 1) (p + 1)
                        (carry_on size mask ring slots e cur m p c full far) (omega arith) in
                    (i, rw (full, far) first, inside, rw (full, far) holds)
              ]
        ])
    where
      first_lem : (i : ℕ) → first_place none i ≡ some i
      first_lem i = refl

  -- The slots after an insertion, without the places.
  pub record Inserted (f_new : (Entry → ℕ) → ℕ) (slots r : Slots) : Type 0 where
    pub chain : Chain size mask r
    pub words : Words r
    pub len : length r ≡ size
    pub weigh : (f : Entry → ℕ) → Counts f → weight f r ≡ weight f slots + f_new f

  module _ (slots : Slots) (chain : Chain size mask slots) (words : Words slots)
      (len : length slots ≡ size) (room : weight occupied slots < size) where
    -- A round that may start at a place where the entry belongs finds the slots as it needs them.
    start :
        (e : Entry) (p : ℕ)
        → is_empty e ≡ false
        → e.hash_code < 2 ^ 64
        → p < size
        → ((i : ℕ) → i < size → after mask i ≡ index_at mask e.hash_code p → p ≤ deep mask slots i)
        → (m : ℕ) × Carrying size mask ring slots e (index_at mask e.hash_code p) m p
    start e p full small low left =
        let cur = index_at mask e.hash_code p in
        let word = ring.word in
        let inside = ring.index-lt e.hash_code p in
        let (j, j_low, gone) = gap_in slots (omega arith) in
        let j_in : j < size = omega arith in
        let m = probe_of mask j cur in
        let at = ring.index-probe j cur (omega arith) j_in in
        (
          m,
          record {
            occupied = full;
            small = small;
            p_low = low;
            inside = inside;
            at = refl;
            len = len;
            words = words;
            chain = chain;
            left = left;
            gap = subst (λ (t : ℕ). is_empty (slot slots t) ≡ true) (sym at) gone;
            m_low = ring.probe-lt j cur;
          },
        )

    pub insert_one :
        (e : Entry) (p : ℕ)
        → is_empty e ≡ false
        → e.hash_code < 2 ^ 64
        → p < size
        → ((i : ℕ) → i < size → after mask i ≡ index_at mask e.hash_code p → p ≤ deep mask slots i)
        → Inserted (λ f. f e) slots (emplace_item size mask slots e p none).0
          × ((i : ℕ) × ((emplace_item size mask slots e p none).1 ≡ some i)
              × (i < size)
              × (slot (emplace_item size mask slots e p none).0 i ≡ e))
    insert_one e p full small low left =
        let (m, c) = start e p full small low left in
        let cur = index_at mask e.hash_code p in
        let done = emplace_item-Emplaced size mask ring size slots e cur m p none c c.m_low in
        (
          record { chain = done.chain; words = done.words; len = done.len; weigh = done.weigh },
          emplace_item-place size slots e cur m p c c.m_low,
        )

  -- All entries of some old slots go into new ones that have room for them.
  pub emplace_all-Inserted :
      (old slots : Slots)
      → Chain size mask slots
      → Words slots
      → length slots ≡ size
      → Words old
      → weight occupied old + weight occupied slots < size
      → Inserted (λ f. weight f old) slots (emplace_all size mask old slots)
  unfolding emplace_all
  emplace_all-Inserted [] slots chain words len olds room = record {
    chain = chain;
    words = words;
    len = len;
    weigh = λ f c. omega arith;
  }
  emplace_all-Inserted (e ∷ es) slots chain words len olds room = elim (Bool-cases (is_empty e)) [
    | inl gone ↦
        let none_here : occupied e ≡ 0 = ground arith in
        let rest =
          emplace_all-Inserted es slots chain words len (λ i. olds (suc i)) (omega arith) in
        rw gone (record {
          chain = rest.chain;
          words = rest.words;
          len = rest.len;
          weigh = λ f c. omega (arith, rest.weigh f c, c e gone);
        })
    | inr full ↦
        let one : occupied e ≡ 1 = ground arith in
        let two = ring.two in
        let done =
          (insert_one slots chain words len (omega arith) e 0 full (olds zero) (omega arith)
            (λ i low same. omega arith)).0 in
        let counted : weight occupied (emplace_item size mask slots e 0 none).0
            ≡ weight occupied slots + occupied e =
          done.weigh occupied (λ t gone. ground arith) in
        let rest =
          emplace_all-Inserted es (emplace_item size mask slots e 0 none).0 done.chain done.words
            done.len (λ i. olds (suc i)) (omega arith) in
        rw full (record {
          chain = rest.chain;
          words = rest.words;
          len = rest.len;
          weigh = λ f c. omega (arith, rest.weigh f c, done.weigh f c);
        })
  ]
