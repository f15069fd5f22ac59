-- ===== src/HashTable/Probing.antt =====
-- The order of the slots under robin hood hashing, and what a search makes of it.
use aws_c_common.Prelude.{
  ℕ, zero, suc, ◌+◌, ◌-◌, ◌^◌, ◌≤◌, ◌<◌, ◌≡◌, ◌≢◌, refl, sym, ap, ◌∙◌, subst, Bool, true, false,
  ltb, ◌==◌, if◌then◌else◌, ◌⊎◌, inl, inr, arith, Bool-cases, ==_iff, bit_and,
}
use aws_c_common.HashTable.{
  Entry, Slots, slot, State, Found, is_empty, index_at, probe_of, entry_matches, find_entry1,
  find_entry,
}
use aws_c_common.HashTable.Ring.{Ring}

-- How deep an entry stands at a place: 0 for none, else one more than its probe.
unfoldable pub depth : (mask i : ℕ) → Entry → ℕ
depth mask i e = if is_empty e then 0 else probe_of mask i e.hash_code + 1

abbrev pub deep : (mask : ℕ) → Slots → ℕ → ℕ
deep mask slots i = depth mask i (slot slots i)

abbrev pub after : (mask i : ℕ) → ℕ
after mask i = index_at mask i 1

-- From a slot to the one behind it the depth grows by one at most.
abbrev pub Chain : (size mask : ℕ) → Slots → Type 0
Chain size mask slots = (i : ℕ) → i < size → deep mask slots (after mask i) ≤ deep mask slots i + 1

-- Hash codes are words.
abbrev pub Words : Slots → Type 0
Words slots = (i : ℕ) → (slot slots i).hash_code < 2 ^ 64

module _ (size mask : ℕ) (ring : Ring size mask) where
  pub depth-le : (i : ℕ) (e : Entry) → depth mask i e ≤ size
  unfolding depth
  depth-le i e = let l = ring.probe-lt i e.hash_code in ground arith

  pub depth_occupied :
      (i : ℕ) (e : Entry) → is_empty e ≡ false → depth mask i e ≡ probe_of mask i e.hash_code + 1
  unfolding depth
  depth_occupied i e h = rw h refl

  pub depth_empty : (i : ℕ) (e : Entry) → is_empty e ≡ true → depth mask i e ≡ 0
  unfolding depth
  depth_empty i e h = rw h refl

  pub index_after : (h p : ℕ) → after mask (index_at mask h p) ≡ index_at mask h (p + 1)
  index_after h p = ring.index_add h p 1

  -- A place that is as deep as the search has such places before it.
  pub depth_back :
      (slots : Slots) (h : ℕ)
      → Chain size mask slots
      → (p k : ℕ) → p + k + 1 ≤ deep mask slots (index_at mask h (p + k))
      → p + 1 ≤ deep mask slots (index_at mask h p)
  depth_back slots h chain p zero deep_there =
      let e : p + 0 ≡ p = omega arith in
      subst (λ (t : ℕ). t + 1 ≤ deep mask slots (index_at mask h t)) e deep_there
  depth_back slots h chain p (suc k) deep_there =
      let e : p + suc k ≡ p + k + 1 = omega arith in
      let there : p + k + 1 + 1 ≤ deep mask slots (index_at mask h (p + k + 1)) =
        subst (λ (t : ℕ). t + 1 ≤ deep mask slots (index_at mask h t)) e deep_there in
      let moved : p + k + 1 + 1 ≤ deep mask slots (after mask (index_at mask h (p + k))) =
        subst (λ (t : ℕ). p + k + 1 + 1 ≤ deep mask slots t) (sym (index_after h (p + k))) there in
      let step = chain (index_at mask h (p + k)) (ring.index-lt h (p + k)) in
      depth_back slots h chain p k (omega arith)

  -- With an empty slot, no entry stands so deep that it has gone round.
  pub deep-lt-size :
      (slots : Slots) (j : ℕ)
      → Chain size mask slots
      → Words slots
      → j < size
      → is_empty (slot slots j) ≡ true
      → (i : ℕ) → i < size
      → deep mask slots i < size
  deep-lt-size slots j chain words low empty i inside =
      elim (Bool-cases (is_empty (slot slots i))) [
        | inl none ↦ let d = depth_empty i (slot slots i) none in let two = ring.two in omega arith
        | inr occupied ↦
            let h = (slot slots i).hash_code in
            let d = depth_occupied i (slot slots i) occupied in
            let q = probe_of mask i h in
            let at : index_at mask h q ≡ i = ring.index-probe i h (words i) inside in
            let k = probe_of mask j h in
            let at_j : index_at mask h k ≡ j = ring.index-probe j h (words i) low in
            let none : deep mask slots j ≡ 0 = depth_empty j (slot slots j) empty in
            elim (Bool-cases (ltb q k)) [
              | inl beyond ↦ let l = ring.probe-lt j h in ground arith
              | inr within ↦
                  let sum : k + (q - k) ≡ q = ground arith in
                  let there : k + (q - k) + 1 ≤ deep mask slots (index_at mask h (k + (q - k))) =
                    subst (λ (t : ℕ). t + 1 ≤ deep mask slots (index_at mask h t)) (sym sum)
                      (subst (λ (t : ℕ). q + 1 ≤ deep mask slots t) (sym at) (omega arith)) in
                  let here = depth_back slots h chain k (q - k) there in
                  let back : k + 1 ≤ deep mask slots j =
                    subst (λ (t : ℕ). k + 1 ≤ deep mask slots t) at_j here in
                  absurd (omega arith)
            ]
      ]

  module _ (equals_fn : ℕ → ℕ → Bool) (slots : Slots) (h key : ℕ) (small : h < 2 ^ 64) where
    abbrev pub matches : Entry → Bool
    matches e = entry_matches equals_fn h key e

    -- The first `p` places of the search have entries that stand as deep as the search, none of them
    -- the one that is looked for.
    abbrev pub Scanned : ℕ → Type 0
    Scanned p =
        (q : ℕ)
        → q < p
        → (matches (slot slots (index_at mask h q)) ≡ false)
          × (q + 1 ≤ deep mask slots (index_at mask h q))

    abbrev pub Hit : Found → Type 0
    Hit f = (f.present ≡ true) × (f.index < size) × (matches (slot slots f.index) ≡ true)

    abbrev pub Miss : Found → Type 0
    Miss f =
        (f.present ≡ false)
        × (f.index ≡ index_at mask h f.probe_idx)
        × Scanned f.probe_idx
        × (deep mask slots f.index ≤ f.probe_idx)

    Scanned-suc :
        (p : ℕ)
        → Scanned p
        → matches (slot slots (index_at mask h p)) ≡ false
        → p + 1 ≤ deep mask slots (index_at mask h p)
        → Scanned (p + 1)
    Scanned-suc p before miss here q less = elim (Bool-cases (q == p)) [
      | inl same ↦
          let e : q ≡ p = (==_iff q p).0 same in
          subst
            (λ (t : ℕ).
              (matches (slot slots (index_at mask h t)) ≡ false)
              × (t + 1 ≤ deep mask slots (index_at mask h t)))
            (sym e) (miss, here)
      | inr other ↦ before q (ground arith)
    ]

    find_entry1-cases :
        (fuel p : ℕ)
        → size ≤ fuel + p
        → Scanned p
        → Hit (find_entry1 equals_fn fuel mask slots h key p)
          ⊎ Miss (find_entry1 equals_fn fuel mask slots h key p)
    unfolding find_entry1
    find_entry1-cases zero p enough before =
        let l = depth-le (index_at mask h p) (slot slots (index_at mask h p)) in
        inr (refl, refl, before, omega arith)
    find_entry1-cases (suc fuel) p enough before =
        let i = index_at mask h p in
        let e = slot slots i in
        elim (Bool-cases (is_empty e)) [
          | inl empty ↦
              let d = depth_empty i e empty in rw empty (inr (refl, refl, before, omega arith))
          | inr occupied ↦ elim (Bool-cases (matches e)) [
            | inl found ↦ rw (occupied, found) (inl (refl, ring.index-lt h p, found))
            | inr differs ↦
                let d = depth_occupied i e occupied in
                elim (Bool-cases (ltb (probe_of mask i e.hash_code) p)) [
                  | inl near ↦ rw (occupied, differs, near) (inr (refl, refl, before, ground arith))
                  | inr far ↦
                      rw (occupied, differs, far)
                        (find_entry1-cases fuel (p + 1) (omega arith)
                          (Scanned-suc p before differs (ground arith)))
                ]
          ]
        ]

    -- The whole search ends with a match, or at the place where the key would stand.
    pub find_entry-cases :
        (s : State)
        → s.size ≡ size
        → s.mask ≡ mask
        → s.slots ≡ slots
        → Hit (find_entry equals_fn s h key) ⊎ Miss (find_entry equals_fn s h key)
    unfolding find_entry
    find_entry-cases s es em el =
        let home = ring.home h small in
        let i = index_at mask h 0 in
        let e = slot slots i in
        let none_yet : Scanned 0 = λ q less. absurd (omega arith) in
        let place : bit_and h s.mask ≡ i = ap (λ (t : ℕ). bit_and h t) em ∙ home in
        rw (place, el, em, es)
          (elim (Bool-cases (is_empty e)) [
            | inl empty ↦
                let d = depth_empty i e empty in rw empty (inr (refl, refl, none_yet, omega arith))
            | inr occupied ↦ elim (Bool-cases (matches e)) [
              | inl found ↦ rw (occupied, found) (inl (refl, ring.index-lt h 0, found))
              | inr differs ↦
                  let d = depth_occupied i e occupied in
                  rw (occupied, differs)
                    (find_entry1-cases size 1 (omega arith) (λ q less.
                      let z : q ≡ 0 = omega arith in
                      subst
                        (λ (t : ℕ).
                          (matches (slot slots (index_at mask h t)) ≡ false)
                          × (t + 1 ≤ deep mask slots (index_at mask h t)))
                        (sym z) (differs, omega arith)))
            ]
          ])

    -- Where the search stops, no slot of the table matches.
    pub stopped :
        Chain size mask slots
        → h ≢ 0
        → (P : ℕ) → Scanned P
        → deep mask slots (index_at mask h P) ≤ P
        → (i : ℕ) → i < size
        → matches (slot slots i) ≡ false
    unfolding entry_matches
    stopped chain nonzero P before shallow i inside = elim (Bool-cases (matches (slot slots i))) [
      | inr differs ↦ differs
      | inl found ↦
          let e = slot slots i in
          let code : e.hash_code ≡ h = ground arith in
          let occupied : is_empty e ≡ false = ground arith in
          let q = probe_of mask i h in
          let at : index_at mask h q ≡ i = ring.index-probe i h small inside in
          let d : deep mask slots i ≡ q + 1 =
            depth_occupied i e occupied ∙ ap (λ (t : ℕ). probe_of mask i t + 1) code in
          elim (Bool-cases (ltb q P)) [
            | inl within ↦
                sym (ap (λ (t : ℕ). matches (slot slots t)) at) ∙ (before q (ground arith)).0
            | inr beyond ↦
                let sum : P + (q - P) ≡ q = ground arith in
                let there : P + (q - P) + 1 ≤ deep mask slots (index_at mask h (P + (q - P))) =
                  subst (λ (t : ℕ). t + 1 ≤ deep mask slots (index_at mask h t)) (sym sum)
                    (subst (λ (t : ℕ). q + 1 ≤ deep mask slots t) (sym at) (omega arith)) in
                let here = depth_back slots h chain P (q - P) there in absurd (omega arith)
          ]
    ]
