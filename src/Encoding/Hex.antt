-- ===== src/Encoding/Hex.antt =====
-- Hex: what `aws_hex_encode` writes and how `aws_hex_decode` reads it back.
use aws_c_common.Prelude.Table.{all_below, of_all_below}
use aws_c_common.Prelude.{
  ℕ, zero, suc, ◌+◌, ◌*◌, ◌/◌, ◌%◌, ◌^◌, ◌≤◌, ◌<◌, ◌≡◌, refl, sym, ap, ◌∙◌, Bool, true, false, [],
  ◌∷◌, ◌++◌, Option, none, some, ok, arith, length, set, take, drop, ltb, ◌==◌, ==_iff, bit_and,
}
use aws_c_common.Prelude.Lists.{length-append, length-take, length-drop, take-append-drop}
use aws_c_common.Prelude.Bits.{bit_and-one}
use aws_c_common.Prelude.Bytes.{Bytes}
use mathlib.Core.List.{append_assoc}
use aws_c_common.ArrayList.Holds.{set-middle, set-first, set-second}
use aws_c_common.ByteBuf.{ByteBuf}
use aws_c_common.Encoding.{
  hex_compute_encoded_len, high_digit, low_digit, hex_encode_loop, hex_encode, hex_value,
  hex_decode_char_to_int, hex_compute_decoded_len, hex_decode_loop, pair_value, hex_decode_digits,
  hex_decode, decoded,
}

-- The digits of some bytes.
abbrev pub hex_text : Bytes → Bytes
hex_text [] = []
hex_text (b ∷ bs) = high_digit b ∷ low_digit b ∷ hex_text bs

abbrev pub AllBytes : Bytes → Type 0
AllBytes [] = Unit {0}
AllBytes (b ∷ bs) = (b < 256) × AllBytes bs

pub length-hex_text : (bs : Bytes) → length (hex_text bs) ≡ 2 * length bs
length-hex_text [] = refl
length-hex_text (b ∷ bs) = omega (arith, length-hex_text bs)

-- Two digits that were read are those of a byte.
values_match : Option ℕ → Option ℕ → ℕ → Bool
values_match (some h) (some l) b = hex_value h l == b
values_match none l b = false
values_match (some h) none b = false

reads_back : ℕ → Bool
reads_back b =
    values_match (hex_decode_char_to_int (high_digit b)) (hex_decode_char_to_int (low_digit b)) b

every_byte : all_below 256 reads_back ≡ true
unfolding all_below reads_back values_match hex_decode_char_to_int high_digit low_digit hex_value
every_byte = refl

matched :
    (o p : Option ℕ) (b : ℕ)
    → values_match o p b ≡ true
    → (h : ℕ) × (l : ℕ) × (o ≡ some h) × (p ≡ some l) × (hex_value h l ≡ b)
unfolding values_match
matched none p b e = absurd (ground arith)
matched (some h) none b e = absurd (ground arith)
matched (some h) (some l) b e = (h, l, refl, refl, (==_iff (hex_value h l) b).0 e)

-- Both digits of a byte are digits, and they give the byte back.
digits_back :
    (b : ℕ)
    → b < 256
    → (h : ℕ) × (l : ℕ) × (hex_decode_char_to_int (high_digit b) ≡ some h)
      × (hex_decode_char_to_int (low_digit b) ≡ some l)
      × (hex_value h l ≡ b)
unfolding reads_back
digits_back b p =
    matched (hex_decode_char_to_int (high_digit b)) (hex_decode_char_to_int (low_digit b)) b
      (of_all_below 256 reads_back every_byte b p)

-- The loop of the encoders writes the digits and nothing else.
hex_encode_loop-writes :
    (bs pre mid post : Bytes) (w : ℕ)
    → length pre ≡ w
    → length mid ≡ 2 * length bs
    → hex_encode_loop bs w (pre ++ (mid ++ post))
      ≡ (w + 2 * length bs, pre ++ (hex_text bs ++ post))
unfolding hex_encode_loop
hex_encode_loop-writes [] pre [] post w e f = ap (λ (n : ℕ). (n, pre ++ post)) (omega arith)
hex_encode_loop-writes [] pre (x ∷ mid) post w e f = absurd (omega arith)
hex_encode_loop-writes (b ∷ bs) pre [] post w e f = absurd (omega arith)
hex_encode_loop-writes (b ∷ bs) pre (x ∷ []) post w e f = absurd (omega arith)
hex_encode_loop-writes (b ∷ bs) pre (x ∷ y ∷ mid) post w e f =
    let h = high_digit b in
    let l = low_digit b in
    let written : set (set (pre ++ (x ∷ y ∷ (mid ++ post))) w h) (w + 1) l
        ≡ (pre ++ (h ∷ l ∷ [])) ++ (mid ++ post) =
      ap (λ t. set t (w + 1) l) (set-first pre x [] y (mid ++ post) w (w + 1) e (omega arith) h)
      ∙ set-second pre h [] y (mid ++ post) w (w + 1) e (omega arith) l
      ∙ sym (append_assoc pre (h ∷ l ∷ []) (mid ++ post)) in
    let n : w + 2 + 2 * length bs ≡ w + 2 * suc (length bs) = omega arith in
    ap (hex_encode_loop bs (w + 2)) written
    ∙ hex_encode_loop-writes bs (pre ++ (h ∷ l ∷ [])) mid post (w + 2)
        (omega (arith, length-append pre (h ∷ l ∷ []))) (omega arith)
    ∙ ap (λ (n : ℕ). (n, (pre ++ (h ∷ l ∷ [])) ++ (hex_text bs ++ post))) n
    ∙ ap (λ t. (w + 2 * suc (length bs), t)) (append_assoc pre (h ∷ l ∷ []) (hex_text bs ++ post))

decode_pair :
    (c d : ℕ) (cs : Bytes) (w : ℕ) (buffer : Bytes) (h l : ℕ)
    → hex_decode_char_to_int c ≡ some h
    → hex_decode_char_to_int d ≡ some l
    → hex_decode_loop (c ∷ d ∷ cs) w buffer
      ≡ hex_decode_loop cs (w + 1) (set buffer w (hex_value h l))
unfolding hex_decode_loop pair_value
decode_pair c d cs w buffer h l e f =
    let v : pair_value (hex_decode_char_to_int c) (hex_decode_char_to_int d)
        ≡ some (hex_value h l) =
      values e f in
    rw (hex_decode_loop, v) refl
  where
    values : {o p : Option ℕ} → o ≡ some h → p ≡ some l → pair_value o p ≡ some (hex_value h l)
    values e f = rw (e, f) refl

hex_decode_loop-reads :
    (bs pre mid post : Bytes) (w : ℕ)
    → AllBytes bs
    → length pre ≡ w
    → length mid ≡ length bs
    → hex_decode_loop (hex_text bs) w (pre ++ (mid ++ post)) ≡ (pre ++ (bs ++ post), ok tt)
unfolding hex_decode_loop
hex_decode_loop-reads [] pre [] post w a e f = refl
hex_decode_loop-reads [] pre (x ∷ mid) post w a e f = absurd (omega arith)
hex_decode_loop-reads (b ∷ bs) pre [] post w a e f = absurd (omega arith)
hex_decode_loop-reads (b ∷ bs) pre (x ∷ mid) post w a e f =
    let (h, l, eh, el, ev) = digits_back b a.0 in
    let written : set (pre ++ (x ∷ (mid ++ post))) w b ≡ (pre ++ (b ∷ [])) ++ (mid ++ post) =
      set-middle pre x b (mid ++ post) w e ∙ sym (append_assoc pre (b ∷ []) (mid ++ post)) in
    decode_pair (high_digit b) (low_digit b) (hex_text bs) w (pre ++ (x ∷ (mid ++ post))) h l eh el
    ∙ ap (λ v. hex_decode_loop (hex_text bs) (w + 1) (set (pre ++ (x ∷ (mid ++ post))) w v)) ev
    ∙ ap (hex_decode_loop (hex_text bs) (w + 1)) written
    ∙ hex_decode_loop-reads bs (pre ++ (b ∷ [])) mid post (w + 1) a.1
        (omega (arith, length-append pre (b ∷ []))) (omega arith)
    ∙ ap (λ t. (t, ok tt)) (append_assoc pre (b ∷ []) (bs ++ post))

hex_decode_digits-reads :
    (bs mid post : Bytes)
    → AllBytes bs
    → length mid ≡ length bs
    → hex_decode_digits (hex_text bs) (mid ++ post) ≡ (bs ++ post, ok tt)
unfolding hex_decode_digits
hex_decode_digits-reads [] [] post a f = refl
hex_decode_digits-reads [] (x ∷ mid) post a f = absurd (omega arith)
hex_decode_digits-reads (b ∷ bs) mid post a f =
    let text = hex_text (b ∷ bs) in
    let even : (bit_and (length text) 1 == 1) ≡ false =
      ground (arith, bit_and-one (length text), length-hex_text (b ∷ bs)) in
    rw even (hex_decode_loop-reads (b ∷ bs) [] mid post 0 a refl f)

encoded_len : (n : ℕ) → 2 * n + 1 < 2 ^ 64 → hex_compute_encoded_len n ≡ ok (2 * n + 1)
unfolding hex_compute_encoded_len
encoded_len n h =
    let e : (n * 2 % 2 ^ 64 + 1) % 2 ^ 64 ≡ 2 * n + 1 = omega arith in
    let t : ltb (2 * n + 1) n ≡ false = ground arith in rw (e, t) refl

decoded_len : (m n : ℕ) → m ≡ 2 * n → 2 * n + 1 < 2 ^ 64 → hex_compute_decoded_len m ≡ ok n
unfolding hex_compute_decoded_len
decoded_len m n e h =
    let f : (m + 1) % 2 ^ 64 ≡ m + 1 = omega arith in
    let t : ltb (m + 1) m ≡ false = ground arith in
    let g : (m + 1) / 2 ≡ n = omega arith in rw (f, t, g) refl

-- A store just behind some bytes that were put in front of a memory.
set_end :
    (text : Bytes) (n : ℕ) (bs : Bytes)
    → length text ≡ n
    → n < length bs
    → set (text ++ drop n bs) n 0 ≡ text ++ (0 ∷ drop (n + 1) bs)
set_end text n bs e h =
    let (x, rest, eq) = head_of n bs h in
    ap (λ t. set (text ++ t) n 0) eq
    ∙ set-middle text x 0 rest n e
    ∙ ap (λ t. text ++ (0 ∷ t)) (sym (next_of n bs x rest eq))
  where
    head_of :
        (n : ℕ) (bs : Bytes) → n < length bs → (x : ℕ) × (rest : Bytes) × (drop n bs ≡ x ∷ rest)
    head_of n [] h = elim h [ ]
    head_of zero (b ∷ bs) h = (b, bs, refl)
    head_of (suc n) (b ∷ bs) h = head_of n bs (omega arith)

    next_of :
        (n : ℕ) (bs : Bytes) (x : ℕ) (rest : Bytes) → drop n bs ≡ x ∷ rest → drop (n + 1) bs ≡ rest
    next_of n [] x rest e = absurd (let l = ap length e in grind (arith, length-drop {A = ℕ} n []))
    next_of zero (b ∷ bs) x rest e = cc
    next_of (suc n) (b ∷ bs) x rest e =
        let k : suc n + 1 ≡ suc (n + 1) = omega arith in rw k (next_of n bs x rest e)

-- Encoding to hex and decoding the text again gives the bytes back: given room for the digits and a
-- terminator, and then for the bytes, both calls succeed. The text is the two digits of each byte in
-- order and a 0 behind them, the lengths are those of the text with its terminator and of the bytes,
-- and what lies behind in each buffer stays.
pub hex_round_trip :
    (bs : Bytes) (output back : ByteBuf)
    → AllBytes bs
    → length output.buffer ≡ output.capacity
    → 2 * length bs + 1 ≤ output.capacity
    → length back.buffer ≡ back.capacity
    → length bs ≤ back.capacity
    → output.capacity < 2 ^ 64
    → (hex_encode bs output ≡ (
      record output {
        buffer = hex_text bs ++ (0 ∷ drop (2 * length bs + 1) output.buffer);
        len = 2 * length bs + 1;
      },
      ok tt,
    ))
      × (hex_decode (hex_text bs) back
          ≡ (record back { buffer = bs ++ drop (length bs) back.buffer; len = length bs }, ok tt))
unfolding hex_encode hex_decode decoded
hex_round_trip bs output back a size room size' room' word =
    let n : ℕ = length bs in
    let text_length = length-hex_text bs in
    let mid : Bytes = take (2 * n) output.buffer in
    let mid_length : length mid ≡ 2 * n = omega (arith, length-take (2 * n) output.buffer) in
    let fits : hex_compute_encoded_len n ≡ ok (2 * n + 1) = encoded_len n (omega arith) in
    let fits' : hex_compute_decoded_len (length (hex_text bs)) ≡ ok n =
      decoded_len (length (hex_text bs)) n text_length (omega arith) in
    let loop = hex_encode_loop-writes bs [] mid (drop (2 * n) output.buffer) 0 refl mid_length in
    let split = take-append-drop (2 * n) output.buffer in
    let start : 0 + 2 * n ≡ 2 * n = omega arith in
    let loop' : hex_encode_loop bs 0 output.buffer
        ≡ (2 * n, hex_text bs ++ drop (2 * n) output.buffer) =
      ap (hex_encode_loop bs 0) (sym split)
      ∙ loop
      ∙ ap (λ (k : ℕ). (k, hex_text bs ++ drop (2 * n) output.buffer)) start in
    let room_enc : ltb output.capacity (2 * n + 1) ≡ false = ground arith in
    let room_dec : ltb back.capacity n ≡ false = ground arith in
    let mid' : length (take n back.buffer) ≡ n = omega (arith, length-take n back.buffer) in
    let reads : hex_decode_digits (hex_text bs) back.buffer ≡ (bs ++ drop n back.buffer, ok tt) =
      ap (hex_decode_digits (hex_text bs)) (sym (take-append-drop n back.buffer))
      ∙ hex_decode_digits-reads bs (take n back.buffer) (drop n back.buffer) a mid' in
    (
      rw (fits, room_enc, loop')
          (ap (λ b. (record output { buffer = b; len = 2 * n + 1 }, ok tt))
            (set_end (hex_text bs) (2 * n) output.buffer text_length (omega arith))),
      rw (fits', room_dec, reads) refl,
    )
