-- ===== src/Detect/Tests.antt =====
-- Encoding detection at concrete inputs, and the theorem applied there.
use xenolith.Common.{◌≡◌, refl, [], ◌∷◌, ◌++◌, none, some}
use xenolith.Text.{Text, codes, starts_with, after, eq_text}
use xenolith.Chars.{is_enc_name}
use xenolith.Utf8.{from_utf8, utf8_loop}
use xenolith.Detect.{
  bom, initial_bytes, declaration, determined, incomplete, default_detection, first_match,
  could_extend, match_signature_incremental, parse_pseudo_attribute, encoding_loop,
  scan_for_encoding, before_end, detect_declaration_incremental, detect,
}
use xenolith.Detect.Signatures.{detected, detect-marks}

detect_mark : detect (0xFF ∷ 0xFE ∷ []) ≡ incomplete
unfolding detect match_signature_incremental first_match could_extend starts_with
detect_mark = refl

detect_declared :
    detect (codes "<?xml version='1.0' encoding='ISO-8859-1'?>")
    ≡ determined (record { encoding = codes "ISO-8859-1"; bom_length = 0; source = declaration })
unfolding detect match_signature_incremental first_match could_extend starts_with
    detect_declaration_incremental before_end scan_for_encoding encoding_loop parse_pseudo_attribute
    after eq_text is_enc_name from_utf8 utf8_loop
detect_declared = refl

-- A value that is not UTF-8 ends the scan, though a declared encoding follows it.
detect_broken :
    detect (codes "<?xml encoding='" ++ 0xFF ∷ codes "' encoding='ISO-8859-1'?>")
    ≡ determined default_detection
unfolding detect match_signature_incremental first_match could_extend starts_with
    detect_declaration_incremental before_end scan_for_encoding encoding_loop parse_pseudo_attribute
    after eq_text is_enc_name from_utf8 utf8_loop
detect_broken = refl

utf8_runs :
    from_utf8 (0x61 ∷ 0xE6 ∷ 0x97 ∷ 0xA5 ∷ 0xF0 ∷ 0x9F ∷ 0x98 ∷ 0x80 ∷ [])
    ≡ some (0x61 ∷ 0x65E5 ∷ 0x1F600 ∷ [])
unfolding from_utf8 utf8_loop
utf8_runs = refl

surrogate : from_utf8 (0xED ∷ 0xA0 ∷ 0x80 ∷ []) ≡ none
unfolding from_utf8 utf8_loop
surrogate = refl

abbrev tail : Text
tail = b'a' ∷ []

detect-marks_example :
    (detect (0 ∷ 0 ∷ 0xFE ∷ 0xFF ∷ tail) ≡ detected (codes "UTF-32BE") 4 bom)
    × ((detect (0xFF ∷ 0xFE ∷ 0 ∷ 0 ∷ tail) ≡ detected (codes "UTF-32LE") 4 bom)
        × ((detect (0xEF ∷ 0xBB ∷ 0xBF ∷ tail) ≡ detected (codes "UTF-8") 3 bom)
            × ((detect (0xFE ∷ 0xFF ∷ tail) ≡ detected (codes "UTF-16BE") 2 bom)
                × ((detect (0xFF ∷ 0xFE ∷ 0x3C ∷ 0 ∷ tail) ≡ detected (codes "UTF-16LE") 2 bom)
                    × ((detect (0 ∷ 0 ∷ 0 ∷ 0x3C ∷ tail)
                          ≡ detected (codes "UTF-32BE") 0 initial_bytes)
                        × ((detect (0x3C ∷ 0 ∷ 0 ∷ 0 ∷ tail)
                              ≡ detected (codes "UTF-32LE") 0 initial_bytes)
                            × ((detect (0 ∷ 0x3C ∷ 0 ∷ 0x3F ∷ tail)
                                  ≡ detected (codes "UTF-16BE") 0 initial_bytes)
                                × ((detect (0x3C ∷ 0 ∷ 0x3F ∷ 0 ∷ tail)
                                      ≡ detected (codes "UTF-16LE") 0 initial_bytes)
                                    × ((detect (0x4C ∷ 0x6F ∷ 0xA7 ∷ 0x94 ∷ tail)
                                          ≡ detected (codes "EBCDIC") 0 initial_bytes)
                                        × ((detect (0xFF ∷ 0xFE ∷ []) ≡ incomplete)
                                            × (detect (0xFF ∷ 0xFE ∷ 0 ∷ []) ≡ incomplete)))))))))))
detect-marks_example = detect-marks 0x3C 0 tail refl
