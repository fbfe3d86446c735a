-- ===== src/Text.antt =====
-- Text as the list of its code points, and what the sources use of Rust's `str` and `char`.
-- A position found in a text is used only to cut it, so cutting is modelled by the parts.
use Prim.Native.Char.{code}
use Prim.Native.String.{String}
use xenolith.Common.{
  ℕ, ◌+◌, ◌/◌, ◌%◌, ◌≡◌, ◌↔◌, Bool, true, false, not, ◌&&◌, ◌||◌, List, [], ◌∷◌, Option, none, some,
  arith, ◌==◌, ltb, within, if◌then◌else◌, take_while, drop_while,
}

abbrev pub Text : Type 0
Text = List ℕ

-- A literal.
abbrev pub codes : String → Text
codes String.[] = []
codes (String.◌∷◌ c s) = code c ∷ codes s

abbrev pub is_ascii_lowercase : ℕ → Bool
is_ascii_lowercase c = within b'a' b'z' c

abbrev pub is_ascii_uppercase : ℕ → Bool
is_ascii_uppercase c = within b'A' b'Z' c

abbrev pub is_ascii_alphabetic : ℕ → Bool
is_ascii_alphabetic c = is_ascii_lowercase c || is_ascii_uppercase c

abbrev pub is_ascii_digit : ℕ → Bool
is_ascii_digit c = within b'0' b'9' c

abbrev pub is_ascii_alphanumeric : ℕ → Bool
is_ascii_alphanumeric c = is_ascii_alphabetic c || is_ascii_digit c

unfoldable pub to_lower : ℕ → ℕ
to_lower c = if is_ascii_uppercase c then c + 32 else c

unfoldable pub to_ascii_lowercase : Text → Text
to_ascii_lowercase [] = []
to_ascii_lowercase (c ∷ s) = to_lower c ∷ to_ascii_lowercase s

unfoldable pub starts_with : Text → Text → Bool
starts_with [] s = true
starts_with (c ∷ prefix) [] = false
starts_with (c ∷ prefix) (d ∷ s) = c == d && starts_with prefix s

-- The text before the first `c`, and the text from it on.
abbrev pub before : ℕ → Text → Text
before c = take_while (λ d. not (d == c))

abbrev pub from : ℕ → Text → Text
from c = drop_while (λ d. not (d == c))

-- The text after the first `c`; `none` where there is no `c`.
unfoldable pub after : ℕ → Text → Option Text
after c [] = none
after c (d ∷ s) = if d == c then some s else after c s

unfoldable pub eq_text : Text → Text → Bool
eq_text [] [] = true
eq_text (c ∷ s) (d ∷ t) = c == d && eq_text s t
eq_text _ _ = false

unfoldable pub eq_option : Option Text → Option Text → Bool
unfolding eq_text
eq_option none none = true
eq_option (some s) (some t) = eq_text s t
eq_option _ _ = false

pub eq_text_iff : (s t : Text) → (eq_text s t ≡ true) ↔ (s ≡ t)
unfolding eq_text
eq_text_iff (c ∷ s) (d ∷ t) = ground (arith, eq_text_iff s t)
eq_text_iff _ _ = ground arith

pub eq_option_iff : (s t : Option Text) → (eq_option s t ≡ true) ↔ (s ≡ t)
unfolding eq_option
eq_option_iff (some s) (some t) = ground (arith, eq_text_iff s t)
eq_option_iff _ _ = ground arith

-- `char::encode_utf8`: the bytes of a code point.
unfoldable pub encode_utf8 : ℕ → List ℕ
encode_utf8 c =
    if ltb c 0x80
    then c ∷ []
    else if ltb c 0x800
    then (0xC0 + c / 0x40) ∷ (0x80 + c % 0x40) ∷ []
    else if ltb c 0x1_0000
    then (0xE0 + c / 0x1000) ∷ (0x80 + c / 0x40 % 0x40) ∷ (0x80 + c % 0x40) ∷ []
    else (0xF0 + c / 0x4_0000)
      ∷ (0x80 + c / 0x1000 % 0x40)
      ∷ (0x80 + c / 0x40 % 0x40)
      ∷ (0x80 + c % 0x40)
      ∷ []
