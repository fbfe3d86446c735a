-- ===== src/Write/Read.antt =====
-- Reading back what is written: the references and sections of XML 1.0, against
-- crates/xenolith/src/io/write/escape.rs.
use xenolith.Common.{
  ℕ, zero, suc, ◌-◌, ◌≡◌, refl, ◌∙◌, ap, inl, inr, true, false, ◌||◌, Bool-cases, List, [], ◌∷◌,
  ◌++◌, Option, none, some, ◌==◌, ==_iff, if◌then◌else◌, length,
}
use xenolith.Text.{Text, codes, starts_with}
use xenolith.Write.{text_char, push_text, attribute_char, push_attribute}

-- The references that are written, and what each stands for.
abbrev pub references : List (Text × ℕ)
references =
    (codes "&amp;", b'&')
    ∷ (codes "&lt;", b'<')
    ∷ (codes "&gt;", b'>')
    ∷ (codes "&quot;", b'"')
    ∷ (codes "&#9;", 9)
    ∷ (codes "&#10;", 10)
    ∷ (codes "&#13;", 13)
    ∷ []

-- The reference at the start of a text: its character, and the characters of it after the `&`.
abbrev pub lookup : List (Text × ℕ) → Text → Option (ℕ × ℕ)
lookup [] s = none
lookup ((name, c) ∷ rs) s = if starts_with name s then some (c, length name - 1) else lookup rs s

abbrev pub prepend : Option ℕ → Option Text → Option Text
prepend (some c) (some s) = some (c ∷ s)
prepend _ _ = none

abbrev pub referred : Option (ℕ × ℕ) → Option ℕ
referred none = none
referred (some (c, n)) = some c

abbrev pub skip_of : Option (ℕ × ℕ) → ℕ
skip_of none = 0
skip_of (some (c, n)) = n

-- How a text reads, where `literal` says what a literal character reads as, if it may stand there.
unfoldable pub read : (ℕ → Option ℕ) → ℕ → Text → Option Text
read literal skip [] = some []
read literal (suc skip) (c ∷ s) = read literal skip s
read literal zero (c ∷ s) = elim (c == b'&') [
  | true ↦
      prepend (referred (lookup references (c ∷ s)))
        (read literal (skip_of (lookup references (c ∷ s))) s)
  | false ↦ prepend (literal c) (read literal 0 s)
]

-- Character data: a carriage return reads as a line feed.
abbrev pub text_literal : ℕ → Option ℕ
text_literal c = if c == b'<' || c == b'>' then none else if c == 13 then some 10 else some c

-- An attribute value in double quotes: white space reads as a space.
abbrev pub attribute_literal : ℕ → Option ℕ
attribute_literal c =
    if c == b'<' || c == b'"'
    then none
    else if c == 9 || (c == 10 || c == 13)
    then some b' '
    else some c

read-literal :
    (literal : ℕ → Option ℕ) (c : ℕ) (s : Text)
    → (c == b'&') ≡ false
    → literal c ≡ some c
    → read literal 0 (c ∷ s) ≡ prepend (some c) (read literal 0 s)
unfolding read
read-literal literal c s e h = rw (e, h, read) refl

read-text_char :
    (c : ℕ) (s : Text)
    → read text_literal 0 (text_char c ++ s) ≡ prepend (some c) (read text_literal 0 s)
unfolding read text_char starts_with
read-text_char c s = elim (Bool-cases (c == b'&')) [
  | inl e ↦ rw (e, (==_iff c b'&').0 e) refl
  | inr e ↦ elim (Bool-cases (c == b'<')) [
    | inl f ↦ rw (e, f, (==_iff c b'<').0 f) refl
    | inr f ↦ elim (Bool-cases (c == b'>')) [
      | inl g ↦ rw (e, f, g, (==_iff c b'>').0 g) refl
      | inr g ↦ elim (Bool-cases (c == 13)) [
        | inl k ↦ rw (e, f, g, k, (==_iff c 13).0 k) refl
        | inr k ↦ rw (e, f, g, k) (read-literal text_literal c s e (rw (f, g, k) refl))
      ]
    ]
  ]
]

read-attribute_char :
    (c : ℕ) (s : Text)
    → read attribute_literal 0 (attribute_char c ++ s)
      ≡ prepend (some c) (read attribute_literal 0 s)
unfolding read attribute_char starts_with
read-attribute_char c s = elim (Bool-cases (c == b'&')) [
  | inl e ↦ rw (e, (==_iff c b'&').0 e) refl
  | inr e ↦ elim (Bool-cases (c == b'<')) [
    | inl f ↦ rw (e, f, (==_iff c b'<').0 f) refl
    | inr f ↦ elim (Bool-cases (c == b'"')) [
      | inl g ↦ rw (e, f, g, (==_iff c b'"').0 g) refl
      | inr g ↦ elim (Bool-cases (c == 9)) [
        | inl k ↦ rw (e, f, g, k, (==_iff c 9).0 k) refl
        | inr k ↦ elim (Bool-cases (c == 10)) [
          | inl l ↦ rw (e, f, g, k, l, (==_iff c 10).0 l) refl
          | inr l ↦ elim (Bool-cases (c == 13)) [
            | inl m ↦ rw (e, f, g, k, l, m, (==_iff c 13).0 m) refl
            | inr m ↦
                rw (e, f, g, k, l, m)
                  (read-literal attribute_literal c s e (rw (f, g, k, l, m) refl))
          ]
        ]
      ]
    ]
  ]
]

-- Written character data and a written attribute value read back as what was written, white space
-- and line ends included, although literal ones would not.
pub read-push :
    (s : Text)
    → (read text_literal 0 (push_text s) ≡ some s)
      × (read attribute_literal 0 (push_attribute s) ≡ some s)
unfolding push_text push_attribute
read-push [] = (unfold read in refl, unfold read in refl)
read-push (c ∷ s) =
    let (text, attribute) = read-push s in
    (
      read-text_char c (push_text s) ∙ ap (prepend (some c)) text,
      read-attribute_char c (push_attribute s) ∙ ap (prepend (some c)) attribute,
    )
