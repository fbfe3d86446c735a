-- ===== src/Detect.antt =====
-- Encoding detection (XML 1.0, Appendix F): crates/xenolith/src/io/encoding/detect.rs. The input is a
-- list of bytes.
mod Signatures
mod Fuel
mod Tests
use xenolith.Common.{
  ℕ, zero, suc, ◌+◌, Bool, true, false, not, ◌&&◌, ◌||◌, List, [], ◌∷◌, Option, none, some, ◌==◌,
  ltb, if◌then◌else◌, length, drop, is_empty, take_while, drop_while,
}
use xenolith.Text.{Text, codes, starts_with, before, after, eq_text}
use xenolith.Utf8.{from_utf8}
use xenolith.Chars.{is_enc_name}

pub data DetectionSource : Type 0 where
  bom initial_bytes declaration default_source : DetectionSource

pub record Detection : Type 0 where
  pub encoding : Text
  pub bom_length : ℕ
  pub source : DetectionSource

pub record Signature : Type 0 where
  pub bytes : List ℕ
  pub detection : Detection

abbrev signature : List ℕ → Text → ℕ → DetectionSource → Signature
signature bytes encoding bom_length source = record {
  bytes = bytes;
  detection = record { encoding = encoding; bom_length = bom_length; source = source };
}

abbrev pub signatures : List Signature
signatures =
    signature (0 ∷ 0 ∷ 0xFE ∷ 0xFF ∷ []) (codes "UTF-32BE") 4 bom
    ∷ signature (0xFF ∷ 0xFE ∷ 0 ∷ 0 ∷ []) (codes "UTF-32LE") 4 bom
    ∷ signature (0xEF ∷ 0xBB ∷ 0xBF ∷ []) (codes "UTF-8") 3 bom
    ∷ signature (0xFE ∷ 0xFF ∷ []) (codes "UTF-16BE") 2 bom
    ∷ signature (0xFF ∷ 0xFE ∷ []) (codes "UTF-16LE") 2 bom
    ∷ signature (0 ∷ 0 ∷ 0 ∷ 0x3C ∷ []) (codes "UTF-32BE") 0 initial_bytes
    ∷ signature (0x3C ∷ 0 ∷ 0 ∷ 0 ∷ []) (codes "UTF-32LE") 0 initial_bytes
    ∷ signature (0 ∷ 0x3C ∷ 0 ∷ 0x3F ∷ []) (codes "UTF-16BE") 0 initial_bytes
    ∷ signature (0x3C ∷ 0 ∷ 0x3F ∷ 0 ∷ []) (codes "UTF-16LE") 0 initial_bytes
    ∷ signature (0x4C ∷ 0x6F ∷ 0xA7 ∷ 0x94 ∷ []) (codes "EBCDIC") 0 initial_bytes
    ∷ []

pub data Detected : Type 0 where
  determined : Detection → Detected
  incomplete : Detected

abbrev pub default_detection : Detection
default_detection = record { encoding = codes "UTF-8"; bom_length = 0; source = default_source }

abbrev pub or_default : Detected → Detection
or_default (determined d) = d
or_default incomplete = default_detection

pub data SignatureMatch : Type 0 where
  match_determined : Detection → SignatureMatch
  match_incomplete not_a_signature : SignatureMatch

-- The first signature that the bytes contain, and whether they are the start of a longer one.
unfoldable pub first_match : List Signature → List ℕ → Option Detection
first_match [] bytes = none
first_match (s ∷ rest) bytes =
    if starts_with s.bytes bytes then some s.detection else first_match rest bytes

unfoldable pub could_extend : List Signature → List ℕ → Bool
could_extend [] bytes = false
could_extend (s ∷ rest) bytes =
    (ltb (length bytes) (length s.bytes) && starts_with bytes s.bytes) || could_extend rest bytes

abbrev pub matched : Option Detection → Bool → SignatureMatch
matched (some d) false = match_determined d
matched (some d) true = match_incomplete
matched none true = match_incomplete
matched none false = not_a_signature

unfoldable pub match_signature_incremental : List ℕ → SignatureMatch
match_signature_incremental bytes =
    matched (first_match signatures bytes) (could_extend signatures bytes)

-- `u8::is_ascii_whitespace`
abbrev pub is_ascii_whitespace : ℕ → Bool
is_ascii_whitespace b = b == 9 || (b == 10 || (b == 12 || (b == 13 || b == b' ')))

abbrev pub skip_whitespace : List ℕ → List ℕ
skip_whitespace bytes = drop_while is_ascii_whitespace bytes

abbrev pub ends_name : ℕ → Bool
ends_name b = b == b'=' || is_ascii_whitespace b

abbrev pub quoted : Text → ℕ → Text → Option (Text × (Text × Text))
quoted name quote body = close (before quote body) (after quote body)
  where
    close : Text → Option Text → Option (Text × (Text × Text))
    close value none = none
    close value (some rest) = some (name, (value, rest))

abbrev pub value_of : Text → Text → Option (Text × (Text × Text))
value_of name [] = some ([], ([], []))
value_of name (quote ∷ body) =
    if quote == b'"' || quote == b'\''
    then quoted name quote body
    else some ([], ([], quote ∷ body))

abbrev pub after_name : Text → Text → Option (Text × (Text × Text))
after_name name [] = some ([], ([], []))
after_name name (c ∷ rest) =
    if c == b'=' then value_of name (skip_whitespace rest) else some ([], ([], c ∷ rest))

unfoldable pub parse_pseudo_attribute : Text → Option (Text × (Text × Text))
parse_pseudo_attribute bytes =
    let start = skip_whitespace bytes in
    if is_empty start
    then none
    else after_name (take_while (λ b. not (ends_name b)) start)
        (skip_whitespace (drop_while (λ b. not (ends_name b)) start))

-- The loop of `scan_for_encoding`, for at most `fuel` rounds. A value that is not UTF-8 ends it.
unfoldable pub encoding_loop : ℕ → Text → Option Text
encoding_loop zero decl = none
encoding_loop (suc fuel) decl = elim (parse_pseudo_attribute decl) [
  | none ↦ none
  | some (name, (value, rest)) ↦ elim (eq_text name (codes "encoding")) [
    | false ↦ encoding_loop fuel rest
    | true ↦ elim (from_utf8 value) [
      | none ↦ none
      | some encoding ↦ elim (is_enc_name encoding) [
        | true ↦ some encoding
        | false ↦ encoding_loop fuel rest
      ]
    ]
  ]
]

-- Every round takes a byte at least.
unfoldable pub scan_for_encoding : Text → Option Text
scan_for_encoding decl = encoding_loop (suc (length decl)) decl

abbrev pub cons_front : ℕ → Option Text → Option Text
cons_front b none = none
cons_front b (some front) = some (b ∷ front)

-- The bytes before the first `?>`.
unfoldable pub before_end : Text → Option Text
before_end [] = none
before_end (b ∷ bytes) =
    if starts_with (codes "?>") (b ∷ bytes) then some [] else cons_front b (before_end bytes)

abbrev pub declared : Detected → Option Text → Detected
declared otherwise none = otherwise
declared otherwise (some encoding) =
    determined (record { encoding = encoding; bom_length = 0; source = declaration })

abbrev pub default_encoding : Detected
default_encoding = determined default_detection

abbrev pub declaration_at : Text → Option Text → Detected
declaration_at rest (some front) = declared default_encoding (scan_for_encoding front)
declaration_at rest none = declared incomplete (scan_for_encoding rest)

-- What follows `<?xml`.
abbrev pub after_start : Text → Detected
after_start [] = incomplete
after_start (b ∷ rest) =
    if is_ascii_whitespace b
    then declaration_at (b ∷ rest) (before_end (b ∷ rest))
    else default_encoding

unfoldable pub detect_declaration_incremental : List ℕ → Detected
detect_declaration_incremental bytes =
    let rest = skip_whitespace bytes in
    if ltb (length rest) 5
    then (if starts_with rest (codes "<?xml") then incomplete else default_encoding)
    else if starts_with (codes "<?xml") rest
    then after_start (drop 5 rest)
    else default_encoding

abbrev pub by_signature : List ℕ → SignatureMatch → Detected
by_signature bytes (match_determined d) = determined d
by_signature bytes match_incomplete = incomplete
by_signature bytes not_a_signature = detect_declaration_incremental bytes

unfoldable pub detect : List ℕ → Detected
detect bytes =
    if is_empty bytes then incomplete else by_signature bytes (match_signature_incremental bytes)
