-- ===== src/Encoding/Tests.antt =====
-- Decoders and encoders at concrete inputs, and the theorems applied there.
use xenolith.Common.{◌+◌, ◌≡◌, refl, true, false, [], ◌∷◌, length}
use xenolith.Text.{codes}
use xenolith.Encoding.{
  consumed, malformed, little, big, from_mark, unit, utf16_loop, decode_utf16, decode_ascii,
  encoded, find_over, bytes_of, encode_single, decimal_loop, reference_bytes,
  encode_with_references,
}
use xenolith.Encoding.Utf16.{encode_utf16, decode-encode_utf16}
use xenolith.Encoding.SingleByte.{decode-encode_ascii}

decode_half :
    decode_utf16 little (0x61 ∷ 0 ∷ 0x3D ∷ 0xD8 ∷ []) false ≡ (little, (consumed 2, codes "a"))
unfolding decode_utf16 utf16_loop unit
decode_half = refl

decode_low :
    decode_utf16 from_mark (0xFE ∷ 0xFF ∷ 0 ∷ 0x61 ∷ 0xDC ∷ 0 ∷ []) true
    ≡ (big, (malformed 4, codes "a"))
unfolding decode_utf16 utf16_loop unit
decode_low = refl

encode_euro :
    encode_with_references 0x100 (0x20AC ∷ 0xE9 ∷ [])
    ≡ (b'&' ∷ b'#' ∷ b'8' ∷ b'3' ∷ b'6' ∷ b'4' ∷ b';' ∷ 0xE9 ∷ [])
unfolding encode_with_references reference_bytes decimal_loop
encode_euro = refl

decode-encode_utf16_example :
    (decode_utf16 little (encode_utf16 little (codes "a😀")) true
      ≡ (little, (consumed (length (encode_utf16 little (codes "a😀"))), codes "a😀")))
    × ((decode_utf16 big (encode_utf16 big (codes "a😀")) true
          ≡ (big, (consumed (length (encode_utf16 big (codes "a😀"))), codes "a😀")))
        × ((decode_utf16 from_mark (0xFF ∷ 0xFE ∷ encode_utf16 little (codes "a😀")) true
              ≡ (little, (consumed (2 + length (encode_utf16 little (codes "a😀"))), codes "a😀")))
            × (decode_utf16 from_mark (0xFE ∷ 0xFF ∷ encode_utf16 big (codes "a😀")) true
                ≡ (big, (consumed (2 + length (encode_utf16 big (codes "a😀"))), codes "a😀")))))
decode-encode_utf16_example = decode-encode_utf16 (codes "a😀") true refl

encode_cafe : encode_single 0x100 (codes "café") ≡ encoded (codes "café")
unfolding encode_single find_over bytes_of
encode_cafe = refl

encode_plain : encode_single 0x80 (codes "cafe") ≡ encoded (codes "cafe")
unfolding encode_single find_over bytes_of
encode_plain = refl

decode-encode_ascii_example :
    (decode_ascii (codes "cafe") ≡ (consumed (length (codes "cafe")), codes "cafe"))
    × (encode_with_references 0x80 (codes "cafe") ≡ codes "cafe")
decode-encode_ascii_example = decode-encode_ascii (codes "cafe") (codes "cafe") encode_plain
