-- ===== src/HashTable/Shifting.antt =====
-- The loop of `s_remove_entry` keeps the order of the slots, and takes one entry out of them.
use aws_c_common.Prelude.{
  ℕ, zero, suc, ◌+◌, ◌-◌, ◌^◌, ◌≤◌, ◌<◌, ◌≡◌, ◌≢◌, refl, sym, ap, ◌∙◌, subst, true, false, ◌==◌,
  inl, inr, arith, Bool-cases, ==_iff, length, set, bit_and,
}
use aws_c_common.Prelude.Lists.{length-set}
use aws_c_common.Prelude.Weight.{weight, get_or-set_ne}
use aws_c_common.HashTable.{
  Entry, empty_entry, Slots, slot, is_empty, index_at, probe_of, shift_back,
}
use aws_c_common.HashTable.Ring.{Ring}
use aws_c_common.HashTable.Probing.{
  depth, deep, after, Chain, Words, depth_occupied, depth_empty, index_after,
}
use aws_c_common.HashTable.Placing.{
  Counts, after_injective, after_apart, same_place, set-Chain, set-Words, weight-set_slot, behind,
}

module _ (size mask : ℕ) (ring : Ring size mask) where
  -- The slots after the entry at `index` has been taken out.
  pub record Shifted (slots : Slots) (index : ℕ) (r : Slots) : Type 0 where
    pub chain : Chain size mask r
    pub words : Words r
    pub len : length r ≡ size
    pub weigh : (f : Entry → ℕ) → Counts f → weight f r + f (slot slots index) ≡ weight f slots

  -- What the loop may rely on in each round, with an empty slot `m` places ahead.
  pub record Shift (slots : Slots) (index m : ℕ) : Type 0 where
    pub chain : Chain size mask slots
    pub words : Words slots
    pub len : length slots ≡ size
    pub inside : index < size
    pub gap : is_empty (slot slots (index_at mask index m)) ≡ true
    pub pos : 0 < m
    pub m_low : m < size

  -- An entry that is not at home stands one less deep in the place before.
  nearer :
      (index : ℕ) (e : Entry)
      → index < size
      → is_empty e ≡ false
      → e.hash_code < 2 ^ 64
      → index_at mask e.hash_code 0 ≢ after mask index
      → depth mask index e + 1 ≡ depth mask (after mask index) e
  nearer index e inside full small away =
      let h = e.hash_code in
      let next = after mask index in
      let q = probe_of mask next h in
      let at : index_at mask h q ≡ next = ring.index-probe next h small (ring.index-lt index 1) in
      let pos : 0 < q = elim (Bool-cases (q == 0)) [
        | inl zero_q ↦ absurd (away (ap (index_at mask h) (sym ((==_iff q 0).0 zero_q)) ∙ at))
        | inr more ↦ ground arith
      ] in
      let back : q - 1 + 1 ≡ q = omega arith in
      let before : index_at mask h (q - 1) ≡ index =
        after_injective size mask ring (index_at mask h (q - 1)) index (ring.index-lt h (q - 1))
          inside (index_after size mask ring h (q - 1) ∙ ap (index_at mask h) back ∙ at) in
      let low = ring.probe-lt next h in
      let probe : probe_of mask index h ≡ q - 1 =
        ap (λ (t : ℕ). probe_of mask t h) (sym before)
        ∙ ring.probe-index h (q - 1) small (omega arith) in
      omega (
        arith,
        depth_occupied size mask ring index e full,
        depth_occupied size mask ring next e full,
      )

  module _ (slots : Slots) (index m : ℕ) (s : Shift slots index m) where
    -- The place behind is empty, or the entry there is at home.
    stop :
        deep mask slots (after mask index) ≤ 1 → Shifted slots index (set slots index empty_entry)
    stop shallow =
        let none = depth_empty size mask ring index empty_entry refl in
        record {
          chain =
              set-Chain size mask ring slots index empty_entry s.len s.inside s.chain
                (λ i low same. omega arith) (omega arith);
          words =
              set-Words size mask ring slots index empty_entry (omega (arith, s.len, s.inside))
                s.words (omega arith);
          len = length-set slots index empty_entry ∙ s.len;
          weigh = λ f counts. omega (
            arith,
            weight-set_slot size mask ring f slots index empty_entry
                (omega (arith, s.len, s.inside)),
            counts empty_entry refl,
          );
        }

    module _ (full : is_empty (slot slots (after mask index)) ≡ false)
        (away : index_at mask (slot slots (after mask index)).hash_code 0 ≢ after mask index) where
      further : 1 < m
      further = elim (Bool-cases (m == 1)) [
        | inl one ↦
            let gap : is_empty (slot slots (after mask index)) ≡ true =
              subst (λ (t : ℕ). is_empty (slot slots (index_at mask index t)) ≡ true)
                ((==_iff m 1).0 one) s.gap in
            absurd (ground arith)
        | inr other ↦ let pos = s.pos in ground arith
      ]

      moved : Shift (set slots index (slot slots (after mask index))) (after mask index) (m - 1)
      moved =
          let e = slot slots (after mask index) in
          let small = s.words (after mask index) in
          let pos = further in
          let m_low = s.m_low in
          let down = nearer index e s.inside full small away in
          let apart : index ≢ index_at mask index m = λ same.
            let z =
              same_place size mask ring index 0 m s.inside (omega arith) s.m_low
                (ring.index-zero index s.inside ∙ same) in
            omega arith in
          record {
            chain =
                set-Chain size mask ring slots index e s.len s.inside s.chain
                  (λ i low same.
                    let step : deep mask slots index ≤ deep mask slots i + 1 =
                      subst (λ (t : ℕ). deep mask slots t ≤ deep mask slots i + 1) same
                        (s.chain i low) in
                    omega (arith, s.chain index s.inside))
                  (omega arith);
            words =
                set-Words size mask ring slots index e (omega (arith, s.len, s.inside)) s.words
                  small;
            len = length-set slots index e ∙ s.len;
            inside = ring.index-lt index 1;
            gap =
                subst (λ (t : Entry). is_empty t ≡ true)
                  (sym (get_or-set_ne slots index (index_at mask index m) e empty_entry apart)
                    ∙ ap (slot (set slots index e)) (sym (behind size mask ring index m s.pos)))
                  s.gap;
            pos = omega arith;
            m_low = omega arith;
          }

      step :
          (r : Slots)
          → Shifted (set slots index (slot slots (after mask index))) (after mask index) r
          → Shifted slots index r
      step r rest =
          let e = slot slots (after mask index) in
          let there : slot (set slots index e) (after mask index) ≡ e =
            get_or-set_ne slots index (after mask index) e empty_entry
              (after_apart size mask ring index s.inside) in
          record {
            chain = rest.chain;
            words = rest.words;
            len = rest.len;
            weigh = λ f counts. omega (
              arith,
              weight-set_slot size mask ring f slots index e (omega (arith, s.len, s.inside)),
              rest.weigh f counts,
              ap f there,
            );
          }

  pub shift_back-Shifted :
      (fuel : ℕ) (slots : Slots) (index m : ℕ)
      → Shift slots index m
      → m < fuel
      → Shifted slots index (shift_back fuel mask slots index).0
  unfolding shift_back index_at
  shift_back-Shifted zero slots index m s enough = absurd (omega arith)
  shift_back-Shifted (suc fuel) slots index m s enough =
      let next = after mask index in
      let e = slot slots next in
      let home = ring.home e.hash_code (s.words next) in
      let low = ring.index-lt index 1 in
      elim (Bool-cases (is_empty e)) [
        | inl gone ↦
            let d = depth_empty size mask ring next e gone in
            rw gone (stop slots index m s (omega arith))
        | inr full ↦ elim (Bool-cases (bit_and e.hash_code mask == next)) [
          | inl at_home ↦
              let at : bit_and e.hash_code mask ≡ next =
                (==_iff (bit_and e.hash_code mask) next).0 at_home in
              let probe : probe_of mask next e.hash_code ≡ 0 =
                ap (λ (t : ℕ). probe_of mask t e.hash_code) (sym at ∙ home)
                ∙ ring.probe-index e.hash_code 0 (s.words next) (omega arith) in
              let d = depth_occupied size mask ring next e full in
              rw (full, at_home) (stop slots index m s (omega arith))
          | inr not_home ↦
              let away : index_at mask e.hash_code 0 ≢ next =
                λ same. (let at : bit_and e.hash_code mask ≡ next = home ∙ same in ground arith) in
              let pos = further slots index m s full away in
              rw (full, not_home)
                (step slots index m s full away (shift_back fuel mask (set slots index e) next).0 (
                  shift_back-Shifted fuel (set slots index e) next (m - 1)
                    (moved slots index m s full away) (omega arith)))
        ]
      ]
