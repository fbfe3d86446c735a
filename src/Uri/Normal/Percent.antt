-- ===== src/Uri/Normal/Percent.antt =====
-- The octets that a URI text stands for, and `normalize_percent` against them.
use xenolith.Common.{
  ℕ, zero, suc, ◌+◌, ◌*◌, ◌≡◌, ◌<◌, refl, ◌∙◌, sym, ap, inl, inr, Bool, true, false, Bool-cases,
  ◌||◌, ◌+◌, ltb, List, [], ◌∷◌, ◌++◌, none, some, Option-cases, arith, ◌==◌, if◌then◌else◌, get_or,
  append-nil, ◌&&◌, ==_iff, length,
}
use xenolith.Text.{Text, encode_utf8}
use xenolith.Uri.Normal.{
  hex_digit, hex_digits, hex, is_unreserved, digits, normal_octet, normalize_percent,
}

-- Encoded octets stand for themselves, and every other character for its bytes in UTF-8.
unfoldable pub octets : Text → List ℕ
octets (a ∷ b ∷ c ∷ s) = elim (digits a b c) [
  | some (high, low) ↦ (high * 16 + low) ∷ octets s
  | none ↦ encode_utf8 a ++ octets (b ∷ c ∷ s)
]
octets (a ∷ b ∷ []) = encode_utf8 a ++ encode_utf8 b
octets (a ∷ []) = encode_utf8 a
octets [] = []

-- Every `%` starts an encoded octet.
unfoldable pub is_percent_formed : Text → Bool
is_percent_formed (a ∷ b ∷ c ∷ s) = elim (digits a b c) [
  | some (high, low) ↦ is_percent_formed s
  | none ↦ if a == b'%' then false else is_percent_formed (b ∷ c ∷ s)
]
is_percent_formed (a ∷ b ∷ []) = if a == b'%' || b == b'%' then false else true
is_percent_formed (a ∷ []) = if a == b'%' then false else true
is_percent_formed [] = true

pub digits-high :
    (a b c high low : ℕ) → digits a b c ≡ some (high, low) → (a ≡ b'%') × ((high < 16) × (low < 16))
unfolding digits hex_digit
digits-high a b c high low e = ground arith

-- Whether a table holds the values of a function, from an argument on.
abbrev tabulates : (ℕ → ℕ) → ℕ → List ℕ → Bool
tabulates f k [] = true
tabulates f k (x ∷ xs) = x == f k && tabulates f (suc k) xs

get_or-tabulates :
    (f : ℕ → ℕ) (k i : ℕ) (xs : List ℕ)
    → tabulates f k xs ≡ true
    → i < length xs
    → get_or xs i 0 ≡ f (i + k)
get_or-tabulates f k i [] h l = absurd (omega arith)
get_or-tabulates f k zero (x ∷ xs) h l = ground (arith, ==_iff x (f k))
get_or-tabulates f k (suc i) (x ∷ xs) h l =
    get_or-tabulates f (suc k) i xs (ground arith) (omega arith) ∙ ap f (omega arith)

pub hex_lem : (n : ℕ) → n < 16 → hex n ≡ (if ltb n 10 then 48 + n else 55 + n)
unfolding hex
hex_lem n h =
    get_or-tabulates (λ n. if ltb n 10 then 48 + n else 55 + n) 0 n hex_digits refl h ∙ ground arith

pub hex_digit-hex : (n : ℕ) → n < 16 → hex_digit (hex n) ≡ some n
unfolding hex_digit
hex_digit-hex n h = rw (hex_lem n h) (ground arith)

-- `elim` on the digits, at the digits that are there.
pub normalize_percent-some :
    (a b c : ℕ) (s : Text) (high low : ℕ)
    → digits a b c ≡ some (high, low)
    → normalize_percent (a ∷ b ∷ c ∷ s) ≡ normal_octet high low ++ normalize_percent s
unfolding normalize_percent
normalize_percent-some a b c s high low e = rw (e, normalize_percent) refl

normalize_percent-none :
    (a b c : ℕ) (s : Text)
    → digits a b c ≡ none
    → normalize_percent (a ∷ b ∷ c ∷ s) ≡ a ∷ normalize_percent (b ∷ c ∷ s)
unfolding normalize_percent
normalize_percent-none a b c s e = rw (e, normalize_percent) refl

pub octets-some :
    (a b c : ℕ) (s : Text) (high low : ℕ)
    → digits a b c ≡ some (high, low)
    → octets (a ∷ b ∷ c ∷ s) ≡ (high * 16 + low) ∷ octets s
unfolding octets
octets-some a b c s high low e = rw (e, octets) refl

pub octets-none :
    (a b c : ℕ) (s : Text)
    → digits a b c ≡ none
    → octets (a ∷ b ∷ c ∷ s) ≡ encode_utf8 a ++ octets (b ∷ c ∷ s)
unfolding octets
octets-none a b c s e = rw (e, octets) refl

-- A character that is not `%` stands for itself.
pub octets-plain :
    (a : ℕ) (s : Text) → (a == b'%') ≡ false → octets (a ∷ s) ≡ encode_utf8 a ++ octets s
unfolding octets
octets-plain a [] e = sym (append-nil (encode_utf8 a))
octets-plain a (b ∷ []) e = refl
octets-plain a (b ∷ c ∷ s) e = octets-none a b c s (unfold digits in rw e refl)

pub digits-hex :
    (high low : ℕ) → high < 16 → low < 16 → digits b'%' (hex high) (hex low) ≡ some (high, low)
unfolding digits
digits-hex high low h l = rw (hex_digit-hex high h, hex_digit-hex low l) refl

normalize_percent-plain :
    (a : ℕ) (s : Text) → (a == b'%') ≡ false → normalize_percent (a ∷ s) ≡ a ∷ normalize_percent s
unfolding normalize_percent
normalize_percent-plain a [] e = refl
normalize_percent-plain a (b ∷ []) e = refl
normalize_percent-plain a (b ∷ c ∷ s) e =
    normalize_percent-none a b c s (unfold digits in rw e refl)

unreserved-plain : (octet : ℕ) → is_unreserved octet ≡ true → (octet == b'%') ≡ false
unfolding is_unreserved
unreserved-plain octet h = ground arith

unreserved-ascii : (octet : ℕ) → is_unreserved octet ≡ true → encode_utf8 octet ≡ octet ∷ []
unfolding is_unreserved encode_utf8
unreserved-ascii octet h = ground arith

octets-normal_octet :
    (high low : ℕ) (s : Text)
    → high < 16
    → low < 16
    → octets (normal_octet high low ++ s) ≡ (high * 16 + low) ∷ octets s
octets-normal_octet high low s h l = elim (Bool-cases (is_unreserved (high * 16 + low))) [
  | inl e ↦
      unfold normal_octet in
      rw
        (
          e,
          octets-plain (high * 16 + low) s (unreserved-plain (high * 16 + low) e),
          unreserved-ascii (high * 16 + low) e,
        )
        refl
  | inr e ↦
      unfold normal_octet in
      rw (e, octets-some b'%' (hex high) (hex low) s high low (digits-hex high low h l)) refl
]

normalize_percent-normal_octet :
    (high low : ℕ) (s : Text)
    → high < 16
    → low < 16
    → normalize_percent (normal_octet high low ++ s) ≡ normal_octet high low ++ normalize_percent s
normalize_percent-normal_octet high low s h l =
    elim (Bool-cases (is_unreserved (high * 16 + low))) [
      | inl e ↦
          unfold normal_octet in
          rw (e, normalize_percent-plain (high * 16 + low) s (unreserved-plain (high * 16 + low) e))
            refl
      | inr e ↦
          let same =
            normalize_percent-some b'%' (hex high) (hex low) s high low (digits-hex high low h l) in
          unfold normal_octet in rw e (rw same (rw e refl))
    ]

formed-some :
    (a b c : ℕ) (s : Text) (high low : ℕ)
    → digits a b c ≡ some (high, low)
    → is_percent_formed (a ∷ b ∷ c ∷ s) ≡ is_percent_formed s
unfolding is_percent_formed
formed-some a b c s high low e = rw (e, is_percent_formed) refl

formed-none :
    (a b c : ℕ) (s : Text)
    → digits a b c ≡ none
    → is_percent_formed (a ∷ b ∷ c ∷ s) ≡ true
    → ((a == b'%') ≡ false) × (is_percent_formed (b ∷ c ∷ s) ≡ true)
formed-none a b c s e h =
    let shape : is_percent_formed (a ∷ b ∷ c ∷ s)
        ≡ (if a == b'%' then false else is_percent_formed (b ∷ c ∷ s)) =
      unfold is_percent_formed in rw (e, is_percent_formed) refl in
    ground arith

-- Where every `%` starts an encoded octet, `normalize_percent` keeps the octets that the text
-- stands for, and a second run changes nothing.
pub normalize_percent_lem :
    (s : Text)
    → is_percent_formed s ≡ true
    → (octets (normalize_percent s) ≡ octets s)
      × (normalize_percent (normalize_percent s) ≡ normalize_percent s)
normalize_percent_lem [] h = (unfold normalize_percent in refl, unfold normalize_percent in refl)
normalize_percent_lem (a ∷ []) h =
    (unfold normalize_percent in refl, unfold normalize_percent in refl)
normalize_percent_lem (a ∷ b ∷ []) h =
    (unfold normalize_percent in refl, unfold normalize_percent in refl)
normalize_percent_lem (a ∷ b ∷ c ∷ s) h = elim (Option-cases (digits a b c)) [
  | inl e ↦
      let (plain, formed) = formed-none a b c s e h in
      let (same, again) = normalize_percent_lem (b ∷ c ∷ s) formed in
      rw (normalize_percent-plain a (b ∷ c ∷ s) plain) (
        octets-plain a (normalize_percent (b ∷ c ∷ s)) plain
            ∙ ap (encode_utf8 a ++◌) same
            ∙ sym (octets-plain a (b ∷ c ∷ s) plain),
        normalize_percent-plain a (normalize_percent (b ∷ c ∷ s)) plain ∙ ap (a ∷◌) again,
      )
  | inr ((high, low), e) ↦
      let (percent, (below, below')) = digits-high a b c high low e in
      let (same, again) = normalize_percent_lem s (rw (formed-some a b c s high low e) at h) in
      rw (normalize_percent-some a b c s high low e) (
        octets-normal_octet high low (normalize_percent s) below below'
            ∙ ap ((high * 16 + low) ∷◌) same
            ∙ sym (octets-some a b c s high low e),
        normalize_percent-normal_octet high low (normalize_percent s) below below'
            ∙ ap (normal_octet high low ++◌) again,
      )
]
