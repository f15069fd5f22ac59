-- ===== src/PriorityQueue/Memory.antt =====
-- The container of a priority queue and the array list in memory that it stands for.
use native.Mathlib.Nat.{div-mul-le_self, lt-div-mul-add}
use aws_c_common.Prelude.{
  ℕ, ◌+◌, ◌*◌, ◌/◌, ◌≤◌, ◌<◌, ◌≡◌, refl, ap, ◌∙◌, Bool, true, false, ◌&&◌, ◌||◌, List, ltb, leb,
  if◌then◌else◌, err, Error, arith, length, Bool-cases, inl, inr, list_exceeds_max_size,
  overflow_detected, ltb→lt,
}
use aws_c_common.Prelude.Bytes.{Bytes}
use aws_c_common.Math.{u64_max}
use aws_c_common.ArrayList.{ArrayList, push_back}
use aws_c_common.ArrayList.Holds.{Holds, Holds-room}
use aws_c_common.ArrayList.Growth.{capable}
use aws_c_common.ArrayList.Store.{push_back-Holds}
use aws_c_common.PriorityQueue.{Container, push_item}

-- The memory that a list has or may take, in items, and the error of a list that is full.
abbrev pub room_of : ArrayList → ℕ
room_of l = if l.alloc then u64_max else l.current_size

abbrev pub full_of : ArrayList → Error
full_of l =
    if leb ((room_of l / l.item_size + 1) * l.item_size) u64_max
    then list_exceeds_max_size
    else overflow_detected

abbrev pub container_of : ArrayList → List Bytes → Container Bytes
container_of l xs = record {
  alloc = l.alloc;
  limit = room_of l / l.item_size;
  full = full_of l;
  items = xs;
}

-- One item more fits some room exactly when the room's count of items is not reached.
below_fits : (room s n q : ℕ) → q * s ≤ room → n < q → (n + 1) * s ≤ room
below_fits room s n q h k = grind arith

beyond_fails : (room s n q : ℕ) → room < q * s + s → q ≤ n → room < (n + 1) * s
beyond_fails room s n q h k = grind arith

held_below : (room s n q : ℕ) → 0 < s → room < q * s + s → s * n ≤ room → n ≤ q
held_below room s n q pos h k = grind arith

-- What a list of the wanted mode can hold is what its room can.
capable-room : (l : ArrayList) (n : ℕ) → l.current_size ≤ u64_max → capable l n ≡ leb n (room_of l)
capable-room l n word = by_alloc l.alloc
  where
    by_alloc :
        (b : Bool)
        → (leb n u64_max && (b || leb n l.current_size))
          ≡ leb n (if b then u64_max else l.current_size)
    by_alloc true = ground arith
    by_alloc false = ground arith

room_of-big : (l : ArrayList) → l.current_size ≤ u64_max → l.current_size ≤ room_of l
room_of-big l word = ground arith

module _ (mem_acquire : ℕ → Bytes) (fresh : (n : ℕ) → length (mem_acquire n) ≡ n) (l : ArrayList)
    (xs : List Bytes) (h : Holds l xs) (v : Bytes) (fits : length v ≡ l.item_size) where
  -- Pushing onto an array list in memory ends as pushing onto the container that stands for it, with
  -- success or the same error, and the list then holds the items of the container.
  pub push_back-push_item :
      ((push_back mem_acquire l v).1 ≡ (push_item (container_of l xs) v).1)
      × Holds (push_back mem_acquire l v).0 (push_item (container_of l xs) v).0.items
  unfolding push_item
  push_back-push_item =
      let s = l.item_size in
      let q = room_of l / s in
      let low = div-mul-le_self (room_of l) s in
      let high = lt-div-mul-add {a = room_of l} {b = s} h.item_pos in
      let both = push_back-Holds mem_acquire fresh l xs h v fits in
      elim (Bool-cases (ltb (length xs) q)) [
        | inl below ↦
            let fit =
              below_fits (room_of l) s l.length q low
                (omega (arith, h.count, ltb→lt (length xs) q below)) in
            let can : capable l ((l.length + 1) * s) ≡ true =
              capable-room l ((l.length + 1) * s) h.word ∙ le→leb fit in
            let (l', eq, became) = both.0 can in rw (below, eq) (refl, became.0)
        | inr beyond ↦
            let over = beyond_fails (room_of l) s l.length q high (ground (arith, h.count)) in
            let cannot : capable l ((l.length + 1) * s) ≡ false =
              capable-room l ((l.length + 1) * s) h.word ∙ lt→leb_false over in
            let room = Holds-room l xs h in
            let held =
              held_below (room_of l) s l.length q h.item_pos high
                (omega (arith, room_of-big l h.word)) in
            let reached : l.length ≡ q = ground (arith, h.count) in
            rw (beyond, both.1 cannot)
              (
                ap
                    (λ (n : ℕ). err (
                      if leb ((n + 1) * s) u64_max
                      then list_exceeds_max_size
                      else overflow_detected))
                    reached,
                h,
              )
      ]
    where
      le→leb : {a b : ℕ} → a ≤ b → leb a b ≡ true
      le→leb p = ground arith

      lt→leb_false : {a b : ℕ} → b < a → leb a b ≡ false
      lt→leb_false p = ground arith
