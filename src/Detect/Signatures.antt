-- ===== src/Detect/Signatures.antt =====
-- More input does not change what the signatures decide:
-- crates/xenolith/src/io/encoding/detect.rs.
use xenolith.Common.{
  ℕ, ◌≡◌, ◌<◌, refl, ◌∙◌, sym, inl, inr, Bool, true, false, ◌&&◌, Bool-cases, and-both, List, [],
  ◌∷◌, ◌++◌, Option, none, some, arith, ◌==◌, ==_iff, ltb, length, length-append, is_empty,
}
use xenolith.Text.{Text, codes, starts_with}
use xenolith.Scan.Append.{starts_with-append}
use xenolith.Scan.Lengths.{length-starts_with}
use xenolith.Detect.{
  Detection, DetectionSource, bom, initial_bytes, Detected, incomplete, Signature, signatures,
  determined, match_determined, first_match, could_extend, matched, match_signature_incremental,
  detect,
}

-- A text that two texts begin: the shorter of them begins the longer.
starts_with-prefix :
    (s bytes more : Text)
    → length bytes < length s
    → starts_with s (bytes ++ more) ≡ true
    → starts_with bytes s ≡ true
unfolding starts_with
starts_with-prefix s [] more l h = refl
starts_with-prefix [] (b ∷ bytes) more l h = absurd (omega arith)
starts_with-prefix (c ∷ s) (b ∷ bytes) more l h =
    let (same, rest) = and-both (c == b) (starts_with s (bytes ++ more)) h in
    let swapped : (b == c) ≡ true = (==_iff b c).1 (sym ((==_iff c b).0 same)) in
    rw (swapped, starts_with-prefix s bytes more (omega arith) rest) refl

starts_with-longer :
    (s bytes more : Text) → starts_with (bytes ++ more) s ≡ true → starts_with bytes s ≡ true
unfolding starts_with
starts_with-longer s [] more h = refl
starts_with-longer [] (b ∷ bytes) more h = ground arith
starts_with-longer (c ∷ s) (b ∷ bytes) more h =
    let (same, rest) = and-both (b == c) (starts_with (bytes ++ more) s) h in
    rw (same, starts_with-longer s bytes more rest) refl

-- A signature that the bytes do not begin is in the longer input just where it is in the bytes.
signature-append :
    (s bytes more : Text)
    → (ltb (length bytes) (length s) && starts_with bytes s) ≡ false
    → starts_with s (bytes ++ more) ≡ starts_with s bytes
signature-append s bytes more h = elim (Bool-cases (ltb (length bytes) (length s))) [
  | inr e ↦ starts_with-append s bytes more (ground arith)
  | inl e ↦
      let shorter : length bytes < length s = ground arith in
      elim (Bool-cases (starts_with s bytes)) [
        | inl f ↦ absurd (omega (arith, length-starts_with s bytes f))
        | inr f ↦ elim (Bool-cases (starts_with s (bytes ++ more))) [
          | inl g ↦ ground (arith, starts_with-prefix s bytes more shorter g)
          | inr g ↦ g ∙ sym f
        ]
      ]
]

matches-append :
    (list : List Signature) (bytes more : Text)
    → could_extend list bytes ≡ false
    → (first_match list (bytes ++ more) ≡ first_match list bytes)
      × (could_extend list (bytes ++ more) ≡ false)
unfolding first_match could_extend
matches-append [] bytes more h = (refl, refl)
matches-append (s ∷ list) bytes more h =
    let here : (ltb (length bytes) (length s.bytes) && starts_with bytes s.bytes) ≡ false =
      ground arith in
    let (same, closed) = matches-append list bytes more (ground arith) in
    (
      rw (signature-append s.bytes bytes more here, same) refl,
      ground (arith, closed, starts_with-longer s.bytes bytes more, length-append bytes more),
    )

matched_inv :
    (o : Option Detection) (extends : Bool) (d : Detection)
    → matched o extends ≡ match_determined d
    → (o ≡ some d) × (extends ≡ false)
matched_inv none true d h = ground arith
matched_inv none false d h = ground arith
matched_inv (some e) true d h = ground arith
matched_inv (some e) false d h = (ground arith, refl)

detect-determined :
    (bytes : Text) (d : Detection)
    → is_empty bytes ≡ false
    → match_signature_incremental bytes ≡ match_determined d
    → detect bytes ≡ determined d
unfolding detect
detect-determined bytes d e h = rw (e, h) refl

is_empty-append :
    (bytes more : Text) (d : Detection)
    → match_signature_incremental bytes ≡ match_determined d
    → is_empty (bytes ++ more) ≡ false
unfolding match_signature_incremental first_match could_extend starts_with
is_empty-append [] more d h = ground arith
is_empty-append (b ∷ bytes) more d h = refl

detect-append :
    (bytes more : Text) (d : Detection)
    → match_signature_incremental bytes ≡ match_determined d
    → detect (bytes ++ more) ≡ determined d
unfolding match_signature_incremental
detect-append bytes more d h =
    let (first, closed) =
      matched_inv (first_match signatures bytes) (could_extend signatures bytes) d h in
    let (same, closed') = matches-append signatures bytes more closed in
    detect-determined (bytes ++ more) d (is_empty-append bytes more d h)
      (rw (same, first, closed') refl)

abbrev pub detected : Text → ℕ → DetectionSource → Detected
detected encoding bom_length source =
    determined (record { encoding = encoding; bom_length = bom_length; source = source })

utf_16le-match :
    (a b : ℕ)
    → (a == 0 && b == 0) ≡ false
    → match_signature_incremental (0xFF ∷ 0xFE ∷ a ∷ b ∷ [])
      ≡ match_determined (record { encoding = codes "UTF-16LE"; bom_length = 2; source = bom })
unfolding match_signature_incremental first_match could_extend starts_with
utf_16le-match a b h = ground arith

-- The byte order marks of UTF-32, UTF-8 and UTF-16, and the first bytes of a declaration in UTF-32,
-- UTF-16 and EBCDIC, give their encoding whatever follows them; a mark has its length, and first bytes
-- are no mark. Of the mark of UTF-16LE, which begins that of UTF-32LE, this holds once two more bytes
-- are there that are not both zero; before them, and with one zero byte, detection waits.
pub detect-marks :
    (a b : ℕ) (more : Text)
    → (a == 0 && b == 0) ≡ false
    → (detect (0 ∷ 0 ∷ 0xFE ∷ 0xFF ∷ more) ≡ detected (codes "UTF-32BE") 4 bom)
      × ((detect (0xFF ∷ 0xFE ∷ 0 ∷ 0 ∷ more) ≡ detected (codes "UTF-32LE") 4 bom)
          × ((detect (0xEF ∷ 0xBB ∷ 0xBF ∷ more) ≡ detected (codes "UTF-8") 3 bom)
              × ((detect (0xFE ∷ 0xFF ∷ more) ≡ detected (codes "UTF-16BE") 2 bom)
                  × ((detect (0xFF ∷ 0xFE ∷ a ∷ b ∷ more) ≡ detected (codes "UTF-16LE") 2 bom)
                      × ((detect (0 ∷ 0 ∷ 0 ∷ 0x3C ∷ more)
                            ≡ detected (codes "UTF-32BE") 0 initial_bytes)
                          × ((detect (0x3C ∷ 0 ∷ 0 ∷ 0 ∷ more)
                                ≡ detected (codes "UTF-32LE") 0 initial_bytes)
                              × ((detect (0 ∷ 0x3C ∷ 0 ∷ 0x3F ∷ more)
                                    ≡ detected (codes "UTF-16BE") 0 initial_bytes)
                                  × ((detect (0x3C ∷ 0 ∷ 0x3F ∷ 0 ∷ more)
                                        ≡ detected (codes "UTF-16LE") 0 initial_bytes)
                                      × ((detect (0x4C ∷ 0x6F ∷ 0xA7 ∷ 0x94 ∷ more)
                                            ≡ detected (codes "EBCDIC") 0 initial_bytes)
                                          × ((detect (0xFF ∷ 0xFE ∷ []) ≡ incomplete)
                                              × (detect (0xFF ∷ 0xFE ∷ 0 ∷ [])
                                                  ≡ incomplete)))))))))))
unfolding match_signature_incremental first_match could_extend starts_with detect
detect-marks a b more h = (
  detect-append (0 ∷ 0 ∷ 0xFE ∷ 0xFF ∷ []) more _ refl,
  (
    detect-append (0xFF ∷ 0xFE ∷ 0 ∷ 0 ∷ []) more _ refl,
    (
      detect-append (0xEF ∷ 0xBB ∷ 0xBF ∷ []) more _ refl,
      (
        detect-append (0xFE ∷ 0xFF ∷ []) more _ refl,
        (
          detect-append (0xFF ∷ 0xFE ∷ a ∷ b ∷ []) more _ (utf_16le-match a b h),
          (
            detect-append (0 ∷ 0 ∷ 0 ∷ 0x3C ∷ []) more _ refl,
            (
              detect-append (0x3C ∷ 0 ∷ 0 ∷ 0 ∷ []) more _ refl,
              (
                detect-append (0 ∷ 0x3C ∷ 0 ∷ 0x3F ∷ []) more _ refl,
                (
                  detect-append (0x3C ∷ 0 ∷ 0x3F ∷ 0 ∷ []) more _ refl,
                  (detect-append (0x4C ∷ 0x6F ∷ 0xA7 ∷ 0x94 ∷ []) more _ refl, (refl, refl)),
                ),
              ),
            ),
          ),
        ),
      ),
    ),
  ),
)
