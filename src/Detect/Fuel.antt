-- ===== src/Detect/Fuel.antt =====
-- The loop of `scan_for_encoding` ends by its own test: crates/xenolith/src/io/encoding/detect.rs.
use xenolith.Common.{
  ℕ, zero, suc, ◌≡◌, ◌≢◌, ◌≤◌, ◌<◌, refl, ap, inl, inr, Bool, true, false, not, ◌||◌, Bool-cases,
  [], ◌∷◌, Option, none, some, Option-cases, arith, ◌==◌, if◌then◌else◌, length, is_empty,
  take_while, drop_while,
}
use xenolith.Text.{Text, codes, after, eq_text}
use xenolith.Utf8.{from_utf8}
use xenolith.Chars.{is_enc_name}
use xenolith.Detect.{
  is_ascii_whitespace, skip_whitespace, ends_name, quoted, value_of, after_name,
  parse_pseudo_attribute, encoding_loop,
}

length-drop_while : (p : ℕ → Bool) (s : Text) → length (drop_while p s) ≤ length s
length-drop_while p [] = omega arith
length-drop_while p (c ∷ s) = ground (arith, length-drop_while p s)

length-after : (c : ℕ) (s t : Text) → after c s ≡ some t → length t < length s
unfolding after
length-after c [] t e = ground arith
length-after c (d ∷ s) t e = ground (arith, length-after c s t)

-- How much is left after a pseudo-attribute, if one is found.
abbrev Leaves : ℕ → Option (Text × (Text × Text)) → Type 0
Leaves n none = Unit {0}
Leaves n (some (name, (value, rest))) = length rest ≤ n

Leaves-quoted :
    (name : Text) (quote : ℕ) (body : Text) (n : ℕ)
    → length body ≤ n
    → Leaves n (quoted name quote body)
Leaves-quoted name quote body n h = elim (Option-cases (after quote body)) [
  | inl e ↦ rw e tt
  | inr (t, e) ↦ rw e (omega (arith, length-after quote body t e))
]

Leaves-value_of : (name s : Text) (n : ℕ) → length s ≤ n → Leaves n (value_of name s)
Leaves-value_of name [] n h = omega arith
Leaves-value_of name (c ∷ s) n h = elim (Bool-cases (c == b'"' || c == b'\'')) [
  | inl e ↦ rw e (Leaves-quoted name c s n (omega arith))
  | inr e ↦ rw e h
]

Leaves-after_name :
    (name s : Text) (n : ℕ)
    → length s ≤ suc n
    → ((c : ℕ) (t : Text) → s ≡ c ∷ t → (c == b'=') ≡ false → length s ≤ n)
    → Leaves n (after_name name s)
Leaves-after_name name [] n h k = omega arith
Leaves-after_name name (c ∷ s) n h k = elim (Bool-cases (c == b'=')) [
  | inl e ↦ rw e (
      Leaves-value_of name (skip_whitespace s) n
        (omega (arith, length-drop_while is_ascii_whitespace s)))
  | inr e ↦ rw e (k c s refl e)
]

skip-head : (s t : Text) (c : ℕ) → skip_whitespace s ≡ c ∷ t → is_ascii_whitespace c ≡ false
skip-head [] t c h = ground arith
skip-head (d ∷ s) t c h = elim (Bool-cases (is_ascii_whitespace d)) [
  | inl e ↦ skip-head s t c (rw e at h)
  | inr e ↦ let h : d ∷ s ≡ c ∷ t = rw e at h in let same : d ≡ c = ground arith in rw same at e
]

abbrev in_name : ℕ → Bool
in_name b = not (ends_name b)

-- What follows the name is shorter than the text, unless it starts with `=`.
name_taken :
    (c : ℕ) (t : Text)
    → is_ascii_whitespace c ≡ false
    → (d : ℕ) (u : Text) → skip_whitespace (drop_while in_name (c ∷ t)) ≡ d ∷ u
    → (d == b'=') ≡ false
    → length (skip_whitespace (drop_while in_name (c ∷ t))) ≤ length t
name_taken c t w d u h e = elim (Bool-cases (c == b'=')) [
  | inl f ↦
      let stays : in_name c ≡ false = ground arith in
      let same : c ∷ t ≡ d ∷ u = rw (stays, w) at h in
      ground (arith, ap (λ (s : Text). is_equals s) same)
  | inr f ↦
      let goes : in_name c ≡ true = ground arith in
      rw goes (
        omega (
          arith,
          length-drop_while in_name t,
          length-drop_while is_ascii_whitespace (drop_while in_name t),
        ))
]
  where
    is_equals : Text → Bool
    is_equals [] = false
    is_equals (x ∷ s) = x == b'='

Leaves-parse : (decl : Text) (n : ℕ) → length decl ≤ suc n → Leaves n (parse_pseudo_attribute decl)
unfolding parse_pseudo_attribute
Leaves-parse decl n h = go (skip_whitespace decl) refl
  where
    go :
        (start : Text)
        → skip_whitespace decl ≡ start
        → Leaves n (
            if is_empty start
            then none
            else after_name (take_while in_name start) (skip_whitespace (drop_while in_name start)))
    go [] e = tt
    go (c ∷ t) e =
        let trimmed : length (skip_whitespace decl) ≤ suc n =
          omega (arith, length-drop_while is_ascii_whitespace decl) in
        let less : length (c ∷ t) ≤ suc n = rw e at trimmed in
        Leaves-after_name (take_while in_name (c ∷ t))
          (skip_whitespace (drop_while in_name (c ∷ t))) n
          (omega (
            arith,
            length-drop_while in_name (c ∷ t),
            length-drop_while is_ascii_whitespace (drop_while in_name (c ∷ t)),
          ))
          (λ d u s f. omega (arith, name_taken c t (skip-head decl t c e) d u s f))

parse-shorter :
    (decl name value rest : Text)
    → parse_pseudo_attribute decl ≡ some (name, (value, rest))
    → length rest < length decl
parse-shorter [] name value rest e = absurd (nothing e)
  where
    nothing : parse_pseudo_attribute [] ≢ some (name, (value, rest))
    nothing e = unfold parse_pseudo_attribute in ground arith
parse-shorter (c ∷ decl) name value rest e =
    let left = Leaves-parse (c ∷ decl) (length decl) (omega arith) in
    let less : length rest ≤ length decl = rw e at left in omega arith

-- Fuel beyond the length of the text changes nothing: every round of the loop takes a byte at
-- least, so the loop has ended by its own test.
pub encoding_loop-fuel :
    (fuel more : ℕ) (decl : Text)
    → length decl < fuel
    → length decl < more
    → encoding_loop fuel decl ≡ encoding_loop more decl
unfolding encoding_loop
encoding_loop-fuel zero more decl h k = absurd (omega arith)
encoding_loop-fuel (suc fuel) zero decl h k = absurd (omega arith)
encoding_loop-fuel (suc fuel) (suc more) decl h k =
    elim (Option-cases (parse_pseudo_attribute decl)) [
      | inl e ↦ rw (e, encoding_loop) refl
      | inr ((name, (value, rest)), e) ↦
          let shorter = parse-shorter decl name value rest e in
          let again = encoding_loop-fuel fuel more rest (omega arith) (omega arith) in
          elim (Bool-cases (eq_text name (codes "encoding"))) [
            | inr f ↦ rw (e, f, encoding_loop) again
            | inl f ↦ elim (Option-cases (from_utf8 value)) [
              | inl g ↦ rw (e, f, g, encoding_loop) refl
              | inr (encoding, g) ↦ elim (Bool-cases (is_enc_name encoding)) [
                | inl t ↦ rw (e, f, g, t, encoding_loop) refl
                | inr t ↦ rw (e, f, g, t, encoding_loop) again
              ]
            ]
          ]
    ]
