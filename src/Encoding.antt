-- ===== src/Encoding.antt =====
-- Decoders and encoders: crates/xenolith/src/io/encoding/builtin.rs and encoder.rs. A call returns how
-- many bytes it took, or the offset of the fault, beside the text that it appended, which a fault
-- leaves there. The UTF-8 decoder is the check of the standard library and is not modelled.
mod Utf16
mod SingleByte
mod Tests
use xenolith.Common.{
  ℕ, zero, suc, ◌+◌, ◌-◌, ◌*◌, ◌/◌, ◌%◌, Bool, true, false, not, ◌&&◌, ◌||◌, List, [], ◌∷◌, ◌++◌,
  Option, none, some, ltb, leb, within, if◌then◌else◌, length, drop, ◌==◌,
}
use xenolith.Text.{Text, encode_utf8}

pub data Decoded : Type 0 where
  consumed malformed : ℕ → Decoded

pub data ByteOrder : Type 0 where
  from_mark little big : ByteOrder

abbrev pub prepend : ℕ → Decoded × Text → Decoded × Text
prepend c (r, out) = (r, c ∷ out)

-- `char::from_u32`
abbrev pub from_u32 : ℕ → Option ℕ
from_u32 c = if ltb 0x10_FFFF c || within 0xD800 0xDFFF c then none else some c

-- `unit`: the order is no longer `from_mark` where it is called.
unfoldable pub unit : ByteOrder → ℕ → ℕ → ℕ
unit big a b = a * 256 + b
unit _ a b = b * 256 + a

abbrev pub push_char : ℕ → Option ℕ → Decoded × Text → Decoded × Text
push_char i none rest = (malformed i, [])
push_char i (some c) rest = prepend c rest

-- What is left at the end of a slice.
abbrev pub ended : ℕ → Bool → Decoded × Text
ended i true = (malformed i, [])
ended i false = (consumed i, [])

abbrev pub is_low : ℕ → Bool
is_low u = within 0xDC00 0xDFFF u

abbrev pub is_high : ℕ → Bool
is_high u = within 0xD800 0xDBFF u

abbrev pub pair_code : ℕ → ℕ → ℕ
pair_code high low = 0x1_0000 + (high - 0xD800) * 1024 + (low - 0xDC00)

-- The loop of the UTF-16 decoder, at an offset.
unfoldable pub utf16_loop : ByteOrder → List ℕ → ℕ → Bool → Decoded × Text
utf16_loop order [] i last = (consumed i, [])
utf16_loop order (a ∷ []) i last = ended i last
utf16_loop order (a ∷ b ∷ []) i last =
    let u = unit order a b in
    if is_low u
    then (malformed i, [])
    else if is_high u
    then ended i last
    else push_char i (from_u32 u) (consumed (i + 2), [])
utf16_loop order (a ∷ b ∷ c ∷ []) i last =
    let u = unit order a b in
    if is_low u
    then (malformed i, [])
    else if is_high u
    then ended i last
    else push_char i (from_u32 u) (ended (i + 2) last)
utf16_loop order (a ∷ b ∷ c ∷ d ∷ src) i last = elim (is_low (unit order a b)) [
  | true ↦ (malformed i, [])
  | false ↦ elim (is_high (unit order a b)) [
    | true ↦ elim (is_low (unit order c d)) [
      | true ↦
          push_char i (from_u32 (pair_code (unit order a b) (unit order c d)))
            (utf16_loop order src (i + 4) last)
      | false ↦ (malformed i, [])
    ]
    | false ↦ push_char i (from_u32 (unit order a b)) (utf16_loop order (c ∷ d ∷ src) (i + 2) last)
  ]
]

-- A decoder that has read a mark takes its order from then on.
abbrev pub shifted : ℕ → Decoded × Text → Decoded × Text
shifted mark (consumed n, out) = (consumed (mark + n), out)
shifted mark (malformed n, out) = (malformed (n + mark), out)

abbrev pub marked : ℕ → ℕ → List ℕ → Bool → ByteOrder × (Decoded × Text)
marked a b src last =
    if a == 0xFF && b == 0xFE
    then (little, shifted 2 (utf16_loop little src 0 last))
    else if a == 0xFE && b == 0xFF
    then (big, shifted 2 (utf16_loop big src 0 last))
    else (little, shifted 0 (utf16_loop little (a ∷ b ∷ src) 0 last))

-- `Utf16Decoder::decode`, with the order that the decoder has afterwards.
unfoldable pub decode_utf16 : ByteOrder → List ℕ → Bool → ByteOrder × (Decoded × Text)
decode_utf16 from_mark [] last = (from_mark, (consumed 0, []))
decode_utf16 from_mark (a ∷ []) last = (from_mark, ended 0 last)
decode_utf16 from_mark (a ∷ b ∷ src) last = marked a b src last
decode_utf16 little src last = (little, utf16_loop little src 0 last)
decode_utf16 big src last = (big, utf16_loop big src 0 last)

unfoldable pub ascii_loop : List ℕ → ℕ → Decoded × Text
ascii_loop [] i = (consumed i, [])
ascii_loop (byte ∷ src) i =
    if leb 0x80 byte then (malformed i, []) else prepend byte (ascii_loop src (i + 1))

abbrev pub decode_ascii : List ℕ → Decoded × Text
decode_ascii src = ascii_loop src 0

abbrev pub decode_latin1 : List ℕ → Decoded × Text
decode_latin1 src = (consumed (length src), src)

-- Encoders.
pub data Encoded : Type 0 where
  encoded : List ℕ → Encoded
  unrepresentable : ℕ → Encoded

unfoldable pub encode_text_utf8 : Text → List ℕ
encode_text_utf8 [] = []
encode_text_utf8 (c ∷ s) = encode_utf8 c ++ encode_text_utf8 s

unfoldable pub find_over : ℕ → Text → Option ℕ
find_over limit [] = none
find_over limit (c ∷ s) = if leb limit c then some c else find_over limit s

-- `u32::from(c) as u8`
unfoldable pub bytes_of : Text → List ℕ
bytes_of [] = []
bytes_of (c ∷ s) = c % 256 ∷ bytes_of s

abbrev pub encode_found : Text → Option ℕ → Encoded
encode_found s none = encoded (bytes_of s)
encode_found s (some c) = unrepresentable c

-- `SingleByteEncoder::encode`, for the limit 0x80 of US-ASCII or 0x100 of ISO-8859-1.
unfoldable pub encode_single : ℕ → Text → Encoded
encode_single limit s = encode_found s (find_over limit s)

-- The decimal digits of a number, for at most `fuel` of them; 7 hold any code point.
unfoldable pub decimal_loop : ℕ → ℕ → List ℕ → List ℕ
decimal_loop zero n digits = digits
decimal_loop (suc fuel) n digits =
    if ltb n 10 then (48 + n) ∷ digits else decimal_loop fuel (n / 10) ((48 + n % 10) ∷ digits)

unfoldable pub reference_bytes : ℕ → List ℕ
reference_bytes c = b'&' ∷ b'#' ∷ (decimal_loop 7 c [] ++ b';' ∷ [])

unfoldable pub encode_with_references : ℕ → Text → List ℕ
encode_with_references limit [] = []
encode_with_references limit (c ∷ s) =
    if ltb c limit
    then c % 256 ∷ encode_with_references limit s
    else reference_bytes c ++ encode_with_references limit s
