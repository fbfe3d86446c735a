-- ===== src/Encoding/SingleByte.antt =====
-- The single-byte encoders against the decoders of the same encodings:
-- crates/xenolith/src/io/encoding/encoder.rs and builtin.rs.
use xenolith.Common.{
  ℕ, ◌+◌, ◌%◌, ◌≡◌, ◌≤◌, refl, ◌∙◌, sym, ap, inl, inr, true, false, List, [], ◌∷◌, none,
  Option-cases, arith, ltb, leb, length,
}
use xenolith.Text.{Text}
use xenolith.Encoding.{
  consumed, ascii_loop, decode_ascii, decode_latin1, encoded, find_over, bytes_of, encode_single,
  encode_with_references,
}

bytes_of-small :
    (limit : ℕ) (s : Text)
    → limit ≤ 256
    → find_over limit s ≡ none
    → (bytes_of s ≡ s) × (encode_with_references limit s ≡ s)
unfolding find_over bytes_of encode_with_references
bytes_of-small limit [] l h = (refl, refl)
bytes_of-small limit (c ∷ s) l h =
    let small : ltb c limit ≡ true = ground arith in
    let same : c % 256 ≡ c = ground arith in
    let (rest, rest') = bytes_of-small limit s l (ground arith) in
    (rw (same, rest) refl, rw (small, same, rest') refl)

encode_single_inv :
    (limit : ℕ) (s : Text) (bytes : List ℕ)
    → limit ≤ 256
    → encode_single limit s ≡ encoded bytes
    → (find_over limit s ≡ none) × ((s ≡ bytes) × (encode_with_references limit s ≡ bytes))
unfolding encode_single
encode_single_inv limit s bytes l h = elim (Option-cases (find_over limit s)) [
  | inl e ↦
      let (same, same') = bytes_of-small limit s l e in
      let written : bytes_of s ≡ bytes = ground (arith, rw e at h) in
      (e, (sym same ∙ written, same' ∙ sym same ∙ written))
  | inr (c, e) ↦ ground (arith, rw e at h)
]

ascii_loop-small :
    (s : Text) (i : ℕ) → find_over 0x80 s ≡ none → ascii_loop s i ≡ (consumed (i + length s), s)
unfolding ascii_loop find_over
ascii_loop-small [] i h = ap (λ n. (consumed n, [])) (omega arith)
ascii_loop-small (c ∷ s) i h =
    let small : leb 0x80 c ≡ false = ground arith in
    let rest : find_over 0x80 s ≡ none = ground arith in
    rw (small, ascii_loop-small s (i + 1) rest) (ap (λ n. (consumed n, c ∷ s)) (omega arith))

-- Text that the encoder for US-ASCII accepts is given back by the decoder of that encoding, which
-- takes every byte; and the encoder that writes references writes the same bytes.
pub decode-encode_ascii :
    (s : Text) (bytes : List ℕ)
    → encode_single 0x80 s ≡ encoded bytes
    → (decode_ascii bytes ≡ (consumed (length bytes), s)) × (encode_with_references 0x80 s ≡ bytes)
decode-encode_ascii s bytes h =
    let (free, (same, same')) = encode_single_inv 0x80 s bytes (omega arith) h in
    (
      ap (λ b. decode_ascii b) (sym same)
          ∙ ascii_loop-small s 0 free
          ∙ ap (λ b. (consumed b, s)) (omega (arith, ap (λ (b : List ℕ). length b) same)),
      same',
    )

-- Text that the encoder for ISO-8859-1 accepts is given back by the decoder of that encoding, which
-- takes every byte; and the encoder that writes references writes the same bytes.
pub decode-encode_latin1 :
    (s : Text) (bytes : List ℕ)
    → encode_single 0x100 s ≡ encoded bytes
    → (decode_latin1 bytes ≡ (consumed (length bytes), s))
      × (encode_with_references 0x100 s ≡ bytes)
decode-encode_latin1 s bytes h =
    let (free, (same, same')) = encode_single_inv 0x100 s bytes (omega arith) h in
    (ap (λ b. (consumed (length bytes), b)) (sym same), same')
