-- ===== src/HashTable/Emplacing.antt =====
-- The loop of `s_emplace_item`, on slots in order one of which is empty.
use aws_c_common.Prelude.{
  ℕ, zero, suc, ◌+◌, ◌-◌, ◌^◌, ◌≤◌, ◌<◌, ◌≡◌, ◌≢◌, refl, sym, ap, ◌∙◌, subst, true, false, ltb,
  ◌==◌, Option, inl, inr, arith, Bool-cases, ==_iff, length, set,
}
use aws_c_common.Prelude.Lists.{length-set}
use aws_c_common.Prelude.Weight.{get_or-set_self, get_or-set_ne}
use aws_c_common.HashTable.{
  Entry, empty_entry, Slots, slot, is_empty, index_at, probe_of, first_place, emplace_item,
}
use aws_c_common.HashTable.Ring.{Ring}
use aws_c_common.HashTable.Probing.{
  depth, deep, after, Chain, Words, depth_occupied, index_after, deep-lt-size,
}
use aws_c_common.HashTable.Placing.{
  Emplaced, after_injective, same_place, emplace_item-empty, behind, here_deep, put_Chain,
  put_Words, put_last, put_on, go_on, victim_next,
}

module _ (size mask : ℕ) (ring : Ring size mask) where
  -- What the loop may rely on in each round, with the empty slot `m` places ahead.
  pub record Carrying (slots : Slots) (e : Entry) (cur m p : ℕ) : Type 0 where
    pub occupied : is_empty e ≡ false
    pub small : e.hash_code < 2 ^ 64
    pub p_low : p < size
    pub inside : cur < size
    pub at : index_at mask e.hash_code p ≡ cur
    pub len : length slots ≡ size
    pub words : Words slots
    pub chain : Chain size mask slots
    pub left : (i : ℕ) → i < size → after mask i ≡ cur → p ≤ deep mask slots i
    pub gap : is_empty (slot slots (index_at mask cur m)) ≡ true
    pub m_low : m < size

  module _ (slots : Slots) (e : Entry) (cur m p : ℕ) (c : Carrying slots e cur m p)
      (full : is_empty (slot slots cur) ≡ false) where
    pub ahead : 0 < m
    ahead = elim (Bool-cases (m == 0)) [
      | inr more ↦ ground arith
      | inl zero_m ↦
          let e0 : m ≡ 0 = (==_iff m 0).0 zero_m in
          let gap : is_empty (slot slots cur) ≡ true =
            subst (λ (t : ℕ). is_empty (slot slots t) ≡ true)
              (ap (index_at mask cur) e0 ∙ ring.index-zero cur c.inside) c.gap in
          absurd (ground arith)
    ]

    next_inside : after mask cur < size
    next_inside = ring.index-lt cur 1

    next_only : (i : ℕ) → i < size → after mask i ≡ after mask cur → i ≡ cur
    next_only i low same = after_injective size mask ring i cur low c.inside same

    -- The victim is carried on from the place behind.
    pub carry_victim :
        ltb (probe_of mask cur (slot slots cur).hash_code) p ≡ true
        → Carrying
            (set slots cur e)
            (slot slots cur)
            (after mask cur)
            (m - 1)
            (probe_of mask cur (slot slots cur).hash_code + 1)
    carry_victim near =
        let pos = ahead in
        let p_low = c.p_low in
        let m_low = c.m_low in
        let here =
          here_deep size mask ring slots e cur m p c.occupied c.small c.p_low c.inside c.at c.len
            c.words c.chain c.left in
        let d = depth_occupied size mask ring cur (slot slots cur) full in
        let self : deep mask (set slots cur e) cur ≡ p + 1 =
          ap (depth mask cur)
            (get_or-set_self slots cur e empty_entry (omega (arith, c.len, c.inside)))
          ∙ here in
        let away : cur ≢ index_at mask cur m = λ same.
          let z =
            same_place size mask ring cur 0 m c.inside (omega arith) c.m_low
              (ring.index-zero cur c.inside ∙ same) in
          omega arith in
        record {
          occupied = full;
          small = c.words cur;
          p_low = ground arith;
          inside = next_inside;
          at =
              victim_next size mask ring slots e cur m p c.occupied c.small c.p_low c.inside c.at
                c.len c.words c.chain c.left (slot slots cur) refl;
          len = length-set slots cur e ∙ c.len;
          words =
              put_Words size mask ring slots e cur m p c.occupied c.small c.p_low c.inside c.at
                c.len c.words c.chain c.left;
          chain =
              put_Chain size mask ring slots e cur m p c.occupied c.small c.p_low c.inside c.at
                c.len c.words c.chain c.left (ground arith);
          left = λ i low same.
              let ie = next_only i low same in
              let there : deep mask (set slots cur e) i ≡ p + 1 =
                ap (deep mask (set slots cur e)) ie ∙ self in
              ground arith;
          gap =
              subst (λ (t : Entry). is_empty t ≡ true)
                (sym (get_or-set_ne slots cur (index_at mask cur m) e empty_entry away)
                  ∙ ap (slot (set slots cur e)) (sym (behind size mask ring cur m pos)))
                c.gap;
          m_low = omega arith;
        }

    -- The entry is carried on where it does not stand deeper than the one that is there.
    pub carry_on :
        ltb (probe_of mask cur (slot slots cur).hash_code) p ≡ false
        → Carrying slots e (after mask cur) (m - 1) (p + 1)
    carry_on far =
        let pos = ahead in
        let m_low = c.m_low in
        let d = depth_occupied size mask ring cur (slot slots cur) full in
        let short =
          deep-lt-size size mask ring slots (index_at mask cur m) c.chain c.words
            (ring.index-lt cur m) c.gap cur c.inside in
        record {
          occupied = c.occupied;
          small = c.small;
          p_low = ground arith;
          inside = next_inside;
          at = sym (index_after size mask ring e.hash_code p) ∙ ap (after mask) c.at;
          len = c.len;
          words = c.words;
          chain = c.chain;
          left = λ i low same.
              let ie = next_only i low same in
              let there : deep mask slots i ≡ deep mask slots cur = ap (deep mask slots) ie in
              ground arith;
          gap =
              subst (λ (t : ℕ). is_empty (slot slots t) ≡ true)
                (sym (behind size mask ring cur m pos)) c.gap;
          m_low = omega arith;
        }

  -- The loop puts its entry in, whatever it displaces on the way.
  pub emplace_item-Emplaced :
      (fuel : ℕ) (slots : Slots) (e : Entry) (cur m p : ℕ) (rval : Option ℕ)
      → Carrying slots e cur m p
      → m < fuel
      → Emplaced size mask ring slots e cur m (emplace_item fuel mask slots e p rval).0
  unfolding emplace_item
  emplace_item-Emplaced zero slots e cur m p rval c enough = absurd (omega arith)
  emplace_item-Emplaced (suc fuel) slots e cur m p rval c enough =
      rw (c.occupied, c.at)
        (elim (Bool-cases (is_empty (slot slots cur))) [
          | inl gone ↦
              rw
                (
                  gone,
                  emplace_item-empty mask fuel (probe_of mask cur (slot slots cur).hash_code + 1)
                      (set slots cur e) (slot slots cur) (first_place rval cur) gone,
                )
                (put_last size mask ring slots e cur m p c.occupied c.small c.p_low c.inside c.at
                  c.len c.words c.chain c.left gone)
          | inr full ↦
              let pos = ahead slots e cur m p c full in
              elim (Bool-cases (ltb (probe_of mask cur (slot slots cur).hash_code) p)) [
                | inl near ↦
                    rw (full, near)
                      (put_on size mask ring slots e cur m p c.occupied c.small c.p_low c.inside
                        c.at c.len c.words c.chain c.left _ full pos c.m_low
                        (emplace_item-Emplaced fuel (set slots cur e) (slot slots cur)
                          (after mask cur) (m - 1)
                          (probe_of mask cur (slot slots cur).hash_code + 1) (first_place rval cur)
                          (carry_victim slots e cur m p c full near) (omega arith)))
                | inr far ↦
                    rw (full, far)
                      (go_on size mask ring slots e cur m p c.occupied c.small c.p_low c.inside c.at
                        c.len c.words c.chain c.left _ pos
                        (emplace_item-Emplaced fuel slots e (after mask cur) (m - 1) (p + 1) rval
                          (carry_on slots e cur m p c full far) (omega arith)))
              ]
        ])
