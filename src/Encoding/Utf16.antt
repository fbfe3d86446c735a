-- ===== src/Encoding/Utf16.antt =====
-- The UTF-16 decoder against the encoding form that it decodes:
-- crates/xenolith/src/io/encoding/builtin.rs.
use xenolith.Common.{
  ℕ, ◌+◌, ◌-◌, ◌%◌, ◌/◌, ◌≡◌, refl, ◌∙◌, ap, inl, inr, Bool, true, false, not, ◌&&◌, Bool-cases,
  List, [], ◌∷◌, ◌++◌, some, arith, ltb, leb, if◌then◌else◌, length, length-append, all, within,
}
use xenolith.Text.{Text}
use xenolith.Encoding.{
  consumed, ByteOrder, from_mark, little, big, prepend, from_u32, unit, push_char, is_low, is_high,
  pair_code, utf16_loop, shifted, decode_utf16,
}

-- A Unicode scalar value.
abbrev pub is_scalar : ℕ → Bool
is_scalar c = leb c 0x10_FFFF && not (within 0xD800 0xDFFF c)

unfoldable pub first_byte : ByteOrder → ℕ → ℕ
first_byte big u = u / 256
first_byte _ u = u % 256

unfoldable pub second_byte : ByteOrder → ℕ → ℕ
second_byte big u = u % 256
second_byte _ u = u / 256

abbrev pub unit_bytes : ByteOrder → ℕ → List ℕ
unit_bytes order u = first_byte order u ∷ second_byte order u ∷ []

abbrev pub high_of : ℕ → ℕ
high_of c = 0xD800 + (c - 0x1_0000) / 1024

abbrev pub low_of : ℕ → ℕ
low_of c = 0xDC00 + (c - 0x1_0000) % 1024

unfoldable pub char_bytes : ByteOrder → ℕ → List ℕ
char_bytes order c =
    if ltb c 0x1_0000
    then unit_bytes order c
    else unit_bytes order (high_of c) ++ unit_bytes order (low_of c)

unfoldable pub encode_utf16 : ByteOrder → Text → List ℕ
encode_utf16 order [] = []
encode_utf16 order (c ∷ s) = char_bytes order c ++ encode_utf16 order s

-- One unit that is no surrogate.
loop_unit :
    (order : ByteOrder) (a b : ℕ) (src : List ℕ) (i : ℕ) (last : Bool)
    → is_low (unit order a b) ≡ false
    → is_high (unit order a b) ≡ false
    → from_u32 (unit order a b) ≡ some (unit order a b)
    → utf16_loop order (a ∷ b ∷ src) i last
      ≡ prepend (unit order a b) (utf16_loop order src (i + 2) last)
unfolding utf16_loop
loop_unit order a b [] i last l h f = rw (l, h, f) refl
loop_unit order a b (c ∷ []) i last l h f = rw (l, h, f) refl
loop_unit order a b (c ∷ d ∷ src) i last l h f = rw (l, h, f, utf16_loop) refl

loop_pair :
    (order : ByteOrder) (a b c d : ℕ) (src : List ℕ) (i : ℕ) (last : Bool)
    → is_low (unit order a b) ≡ false
    → is_high (unit order a b) ≡ true
    → is_low (unit order c d) ≡ true
    → utf16_loop order (a ∷ b ∷ c ∷ d ∷ src) i last
      ≡ push_char i
          (from_u32 (pair_code (unit order a b) (unit order c d)))
          (utf16_loop order src (i + 4) last)
unfolding utf16_loop
loop_pair order a b c d src i last l h k = rw (l, h, k, utf16_loop) refl

unit-bytes : (order : ByteOrder) (u : ℕ) → unit order (first_byte order u) (second_byte order u) ≡ u
unfolding unit first_byte second_byte
unit-bytes from_mark u = omega arith
unit-bytes little u = omega arith
unit-bytes big u = omega arith

pair-code : (c : ℕ) → ltb c 0x1_0000 ≡ false → pair_code (high_of c) (low_of c) ≡ c
pair-code c h = ground arith

-- One character of the text.
loop_char :
    (order : ByteOrder) (c : ℕ) (src : List ℕ) (i : ℕ) (last : Bool)
    → is_scalar c ≡ true
    → utf16_loop order (char_bytes order c ++ src) i last
      ≡ prepend c (utf16_loop order src (i + length (char_bytes order c)) last)
unfolding char_bytes
loop_char order c src i last h = elim (Bool-cases (ltb c 0x1_0000)) [
  | inl e ↦
      let same = unit-bytes order c in
      rw e (
        loop_unit order (first_byte order c) (second_byte order c) src i last
          (rw same (ground arith)) (rw same (ground arith)) (rw same (ground arith))
        ∙ rw same refl)
  | inr e ↦
      let high = unit-bytes order (high_of c) in
      let low = unit-bytes order (low_of c) in
      let valid : from_u32 c ≡ some c = ground arith in
      rw e (
        loop_pair order (first_byte order (high_of c)) (second_byte order (high_of c))
          (first_byte order (low_of c)) (second_byte order (low_of c)) src i last
          (rw high (ground arith)) (rw high (ground arith)) (rw low (ground arith))
        ∙ rw (high, low, pair-code c e, valid) refl)
]

decode_loop :
    (order : ByteOrder) (s : Text) (i : ℕ) (last : Bool)
    → all is_scalar s ≡ true
    → utf16_loop order (encode_utf16 order s) i last
      ≡ (consumed (i + length (encode_utf16 order s)), s)
unfolding encode_utf16
decode_loop order [] i last h = unfold utf16_loop in ap (λ n. (consumed n, [])) (omega arith)
decode_loop order (c ∷ s) i last h =
    loop_char order c (encode_utf16 order s) i last (ground arith)
    ∙ ap (prepend c) (decode_loop order s (i + length (char_bytes order c)) last (ground arith))
    ∙ ap (λ n. (consumed n, c ∷ s))
        (omega (arith, length-append (char_bytes order c) (encode_utf16 order s)))

decode_start :
    (order : ByteOrder) (s : Text) (last : Bool)
    → all is_scalar s ≡ true
    → utf16_loop order (encode_utf16 order s) 0 last ≡ (consumed (length (encode_utf16 order s)), s)
decode_start order s last h = decode_loop order s 0 last h ∙ ap (λ n. (consumed n, s)) (omega arith)

-- Decoding UTF-16 gives the text back that was encoded in the same byte order, whether or not the
-- input ends there, and takes every byte; a decoder that looks for a mark finds the order of the
-- mark, takes the mark too and leaves it out of the text.
pub decode-encode_utf16 :
    (s : Text) (last : Bool)
    → all is_scalar s ≡ true
    → (decode_utf16 little (encode_utf16 little s) last
        ≡ (little, (consumed (length (encode_utf16 little s)), s)))
      × ((decode_utf16 big (encode_utf16 big s) last
            ≡ (big, (consumed (length (encode_utf16 big s)), s)))
          × ((decode_utf16 from_mark (0xFF ∷ 0xFE ∷ encode_utf16 little s) last
                ≡ (little, (consumed (2 + length (encode_utf16 little s)), s)))
              × (decode_utf16 from_mark (0xFE ∷ 0xFF ∷ encode_utf16 big s) last
                  ≡ (big, (consumed (2 + length (encode_utf16 big s)), s)))))
unfolding decode_utf16
decode-encode_utf16 s last h =
    let small = decode_start little s last h in
    let large = decode_start big s last h in
    (
      ap (λ r. (little, r)) small,
      (
        ap (λ r. (big, r)) large,
        (ap (λ r. (little, shifted 2 r)) small, ap (λ r. (big, shifted 2 r)) large),
      ),
    )
