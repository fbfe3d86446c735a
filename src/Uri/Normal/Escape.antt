-- ===== src/Uri/Normal/Escape.antt =====
-- `escape_uri`: its output is made of the characters of a URI and stands for the same octets.
use xenolith.Common.{
  ℕ, ◌+◌, ◌*◌, ◌/◌, ◌%◌, ◌≡◌, ◌<◌, refl, ◌∙◌, sym, ap, inl, inr, Bool, true, false, Bool-cases, ltb,
  List, [], ◌∷◌, ◌++◌, Option, none, some, Option-cases, arith, ◌==◌, ==_iff, all, all-append,
}
use xenolith.Text.{Text, encode_utf8}
use xenolith.Uri.{is_uri_char}
use xenolith.Uri.Normal.{hex_digit, hex, digits, escape_bytes, escape_char, escape_uri}
use xenolith.Uri.Normal.Percent.{
  octets, octets-some, octets-none, octets-plain, digits-hex, hex_lem,
}

abbrev pub is_code_point : ℕ → Bool
is_code_point c = ltb c 0x11_0000

abbrev is_byte : ℕ → Bool
is_byte b = ltb b 256

all_bytes-encode : (c : ℕ) → is_code_point c ≡ true → all is_byte (encode_utf8 c) ≡ true
unfolding encode_utf8
all_bytes-encode c h = ground arith

is_uri_char-hex : (n : ℕ) → n < 16 → is_uri_char (hex n) ≡ true
unfolding is_uri_char
is_uri_char-hex n h = rw (hex_lem n h) (ground arith)

all_uri-escape_bytes :
    (bytes : List ℕ) → all is_byte bytes ≡ true → all is_uri_char (escape_bytes bytes) ≡ true
unfolding escape_bytes
all_uri-escape_bytes [] h = refl
all_uri-escape_bytes (b ∷ bytes) h =
    let high : b / 16 < 16 = ground arith in
    let low : b % 16 < 16 = ground arith in
    let percent : is_uri_char b'%' ≡ true = unfold is_uri_char in refl in
    ground (
      arith,
      is_uri_char-hex (b / 16) high,
      is_uri_char-hex (b % 16) low,
      all_uri-escape_bytes bytes,
    )

octets-escape_bytes :
    (bytes : List ℕ) (s : Text)
    → all is_byte bytes ≡ true
    → octets (escape_bytes bytes ++ s) ≡ bytes ++ octets s
unfolding escape_bytes
octets-escape_bytes [] s h = refl
octets-escape_bytes (b ∷ bytes) s h =
    let high : b / 16 < 16 = ground arith in
    let low : b % 16 < 16 = ground arith in
    octets-some b'%' (hex (b / 16)) (hex (b % 16)) (escape_bytes bytes ++ s) (b / 16) (b % 16)
      (digits-hex (b / 16) (b % 16) high low)
    ∙ rw (octets-escape_bytes bytes s (ground arith)) (ap (◌∷ (bytes ++ octets s)) (omega arith))

-- An escaped text has only characters of a URI.
pub all_uri-escape_uri :
    (s : Text) → all is_code_point s ≡ true → all is_uri_char (escape_uri s) ≡ true
unfolding escape_uri
all_uri-escape_uri [] h = refl
all_uri-escape_uri (c ∷ s) h =
    all-append is_uri_char (escape_char c) (escape_uri s) (char c (ground arith))
      (all_uri-escape_uri s (ground arith))
  where
    char : (c : ℕ) → is_code_point c ≡ true → all is_uri_char (escape_char c) ≡ true
    char c h =
        unfold escape_char in
        ground (arith, all_uri-escape_bytes (encode_utf8 c) (all_bytes-encode c h))

escape_uri-uri : (c : ℕ) (s : Text) → is_uri_char c ≡ true → escape_uri (c ∷ s) ≡ c ∷ escape_uri s
unfolding escape_uri escape_char
escape_uri-uri c s h = rw h refl

escape_uri_fixed : (s : Text) → all is_uri_char s ≡ true → escape_uri s ≡ s
escape_uri_fixed [] h = unfold escape_uri in refl
escape_uri_fixed (c ∷ s) h =
    rw (escape_uri-uri c s (ground arith)) (ap (c ∷◌) (escape_uri_fixed s (ground arith)))

-- The digits at the start of an escaped text are those of the text itself.
abbrev pub first_digit : Text → Option ℕ
first_digit [] = none
first_digit (c ∷ s) = hex_digit c

is_uri_char-digit : (c n : ℕ) → hex_digit c ≡ some n → is_uri_char c ≡ true
unfolding hex_digit is_uri_char
is_uri_char-digit c n h = ground arith

escape_bytes-encode : (c : ℕ) (s : Text) → first_digit (escape_bytes (encode_utf8 c) ++ s) ≡ none
unfolding encode_utf8 escape_bytes hex_digit
escape_bytes-encode c s = ground arith

first_digit-escape : (s : Text) → first_digit s ≡ none → first_digit (escape_uri s) ≡ none
first_digit-escape [] h = unfold escape_uri in refl
first_digit-escape (c ∷ s) h = elim (Bool-cases (is_uri_char c)) [
  | inl e ↦ rw (escape_uri-uri c s e) h
  | inr e ↦ unfold escape_uri escape_char in rw e (escape_bytes-encode c (escape_uri s))
]

-- A `%` that no two digits follow stands for itself.
octets-first : (s : Text) → first_digit s ≡ none → octets (b'%' ∷ s) ≡ b'%' ∷ octets s
octets-first [] h = unfold octets encode_utf8 in refl
octets-first (b ∷ []) h = unfold octets encode_utf8 in refl
octets-first (b ∷ c ∷ s) h =
    octets-none b'%' b c s (unfold digits in rw h refl) ∙ unfold encode_utf8 in refl

octets-second :
    (b : ℕ) (s : Text) → first_digit s ≡ none → octets (b'%' ∷ b ∷ s) ≡ b'%' ∷ octets (b ∷ s)
octets-second b [] h = unfold octets encode_utf8 in refl
octets-second b (c ∷ s) h =
    octets-none b'%' b c s (unfold digits in rw h (ground arith)) ∙ unfold encode_utf8 in refl

octets-escape_char :
    (c : ℕ) (s : Text)
    → is_code_point c ≡ true
    → (c == b'%') ≡ false
    → octets (escape_char c ++ s) ≡ encode_utf8 c ++ octets s
octets-escape_char c s h e = elim (Bool-cases (is_uri_char c)) [
  | inl f ↦ unfold escape_char in rw f (octets-plain c s e)
  | inr f ↦
      unfold escape_char in rw f (octets-escape_bytes (encode_utf8 c) s (all_bytes-encode c h))
]

octets-escape_plain :
    (a : ℕ) (s : Text)
    → is_code_point a ≡ true
    → (a == b'%') ≡ false
    → octets (escape_uri s) ≡ octets s
    → octets (escape_uri (a ∷ s)) ≡ octets (a ∷ s)
octets-escape_plain a s h e same =
    unfold escape_uri in
    octets-escape_char a (escape_uri s) h e ∙ ap (encode_utf8 a ++◌) same ∙ sym (octets-plain a s e)

escape_uri-percent : (s : Text) → escape_uri (b'%' ∷ s) ≡ b'%' ∷ escape_uri s
escape_uri-percent s = escape_uri-uri b'%' s (unfold is_uri_char in refl)

octets-escape_first :
    (s : Text)
    → first_digit s ≡ none
    → octets (escape_uri s) ≡ octets s
    → octets (escape_uri (b'%' ∷ s)) ≡ octets (b'%' ∷ s)
octets-escape_first s h same = rw (escape_uri-percent s) (
    octets-first (escape_uri s) (first_digit-escape s h)
    ∙ ap (b'%' ∷◌) same
    ∙ sym (octets-first s h))

octets-escape_second :
    (b n : ℕ) (s : Text)
    → hex_digit b ≡ some n
    → first_digit s ≡ none
    → octets (escape_uri (b ∷ s)) ≡ octets (b ∷ s)
    → octets (escape_uri (b'%' ∷ b ∷ s)) ≡ octets (b'%' ∷ b ∷ s)
octets-escape_second b n s e h same =
    let uri = escape_uri-uri b s (is_uri_char-digit b n e) in
    rw (escape_uri-percent (b ∷ s), uri)
      (octets-second b (escape_uri s) (first_digit-escape s h)
        ∙ ap (b'%' ∷◌) (ap octets (sym uri) ∙ same)
        ∙ sym (octets-second b s h))

octets-escape_both :
    (b c n m : ℕ) (s : Text)
    → hex_digit b ≡ some n
    → hex_digit c ≡ some m
    → octets (escape_uri s) ≡ octets s
    → octets (escape_uri (b'%' ∷ b ∷ c ∷ s)) ≡ octets (b'%' ∷ b ∷ c ∷ s)
octets-escape_both b c n m s e f same =
    let both : digits b'%' b c ≡ some (n, m) = unfold digits in rw (e, f) refl in
    rw
      (
        escape_uri-percent (b ∷ c ∷ s),
        escape_uri-uri b (c ∷ s) (is_uri_char-digit b n e),
        escape_uri-uri c s (is_uri_char-digit c m f),
      )
      (octets-some b'%' b c (escape_uri s) n m both
        ∙ ap ((n * 16 + m) ∷◌) same
        ∙ sym (octets-some b'%' b c s n m both))

-- A `%` and at least two characters more.
octets-escape_percent :
    (b c : ℕ) (s : Text)
    → octets (escape_uri (b ∷ c ∷ s)) ≡ octets (b ∷ c ∷ s)
    → octets (escape_uri s) ≡ octets s
    → octets (escape_uri (b'%' ∷ b ∷ c ∷ s)) ≡ octets (b'%' ∷ b ∷ c ∷ s)
octets-escape_percent b c s one three = elim (Option-cases (hex_digit b)) [
  | inl e ↦ octets-escape_first (b ∷ c ∷ s) e one
  | inr (n, e) ↦ elim (Option-cases (hex_digit c)) [
    | inl f ↦ octets-escape_second b n (c ∷ s) e f one
    | inr (m, f) ↦ octets-escape_both b c n m s e f three
  ]
]

octets-escape_percent_last :
    (b : ℕ)
    → octets (escape_uri (b ∷ [])) ≡ octets (b ∷ [])
    → octets (escape_uri (b'%' ∷ b ∷ [])) ≡ octets (b'%' ∷ b ∷ [])
octets-escape_percent_last b one = elim (Option-cases (hex_digit b)) [
  | inl e ↦ octets-escape_first (b ∷ []) e one
  | inr (n, e) ↦ octets-escape_second b n [] e refl one
]

-- The octets that a text stands for are those that it stands for once escaped, whether or not its
-- own `%` start encoded octets.
pub octets-escape_uri : (s : Text) → all is_code_point s ≡ true → octets (escape_uri s) ≡ octets s
octets-escape_uri [] h = unfold escape_uri in refl
octets-escape_uri (a ∷ []) h = elim (Bool-cases (a == b'%')) [
  | inl e ↦
      let same : octets (escape_uri (b'%' ∷ [])) ≡ octets (b'%' ∷ []) =
        octets-escape_first [] refl (unfold escape_uri in refl) in
      rw ((==_iff a b'%').0 e) same
  | inr e ↦ octets-escape_plain a [] (ground arith) e (unfold escape_uri in refl)
]
octets-escape_uri (a ∷ b ∷ []) h = elim (Bool-cases (a == b'%')) [
  | inl e ↦
      rw ((==_iff a b'%').0 e)
        (octets-escape_percent_last b (octets-escape_uri (b ∷ []) (ground arith)))
  | inr e ↦
      octets-escape_plain a (b ∷ []) (ground arith) e (octets-escape_uri (b ∷ []) (ground arith))
]
octets-escape_uri (a ∷ b ∷ c ∷ s) h = elim (Bool-cases (a == b'%')) [
  | inl e ↦ rw ((==_iff a b'%').0 e) (
      octets-escape_percent b c s (octets-escape_uri (b ∷ c ∷ s) (ground arith))
        (octets-escape_uri s (ground arith)))
  | inr e ↦
      octets-escape_plain a (b ∷ c ∷ s) (ground arith) e
        (octets-escape_uri (b ∷ c ∷ s) (ground arith))
]

-- Escaping once more changes nothing.
pub escape_uri_idem :
    (s : Text) → all is_code_point s ≡ true → escape_uri (escape_uri s) ≡ escape_uri s
escape_uri_idem s h = escape_uri_fixed (escape_uri s) (all_uri-escape_uri s h)
