-- ===== src/Scan/Lengths.antt =====
-- Lengths of what the scanner cuts off: crates/xenolith/src/io/parse/scan.rs.
use xenolith.Common.{
  ℕ, zero, suc, ◌+◌, ◌≡◌, ◌≤◌, refl, sym, inl, inr, true, Bool-cases, and-both, ==_iff, [], ◌∷◌,
  Option, none, some, arith, ◌==◌, length, drop,
}
use xenolith.Text.{Text, starts_with}
use xenolith.Scan.{len_utf8, byte_len, cut, cut_further}

pub len_utf8_pos : (c : ℕ) → 1 ≤ len_utf8 c
unfolding len_utf8
len_utf8_pos c = ground arith

pub byte_len-drop : (n : ℕ) (s : Text) → n ≤ length s → byte_len (drop n s) + n ≤ byte_len s
unfolding byte_len
byte_len-drop zero s h = omega arith
byte_len-drop (suc n) [] h = absurd (omega arith)
byte_len-drop (suc n) (c ∷ s) h = omega (arith, byte_len-drop n s (omega arith), len_utf8_pos c)

pub byte_len-starts_with :
    (t s : Text) → starts_with t s ≡ true → byte_len s ≡ byte_len t + byte_len (drop (length t) s)
unfolding starts_with byte_len
byte_len-starts_with [] s h = omega arith
byte_len-starts_with (c ∷ t) [] h = ground arith
byte_len-starts_with (c ∷ t) (d ∷ s) h =
    let same : c ≡ d = (==_iff c d).0 (and-both (c == d) (starts_with t s) h).0 in
    rw same (omega (arith, byte_len-starts_with t s (and-both (c == d) (starts_with t s) h).1))

pub cut_further_inv :
    (n at : ℕ) (o : Option (ℕ × Text)) (rest : Text)
    → cut_further n o ≡ some (at, rest)
    → (m : ℕ) × ((o ≡ some (m, rest)) × (at ≡ n + m))
cut_further_inv n at none rest h = ground arith
cut_further_inv n at (some (m, r)) rest h =
    let (same, same') : (n + m ≡ at) × (r ≡ rest) = ground arith in (m, (rw same' refl, sym same))

pub byte_len-cut :
    (t s : Text) (n : ℕ) (rest : Text) → cut t s ≡ some (n, rest) → byte_len s ≡ n + byte_len rest
unfolding cut byte_len
byte_len-cut t [] n rest h = ground arith
byte_len-cut t (c ∷ s) n rest h = elim (Bool-cases (starts_with t (c ∷ s))) [
  | inl e ↦
      let (same, same') : (byte_len t ≡ n) × (drop (length t) (c ∷ s) ≡ rest) =
        ground (arith, rw e at h) in
      rw (← same, ← same') (byte_len-starts_with t (c ∷ s) e)
  | inr e ↦
      let (m, (found', same)) = cut_further_inv (len_utf8 c) n (cut t s) rest (rw e at h) in
      omega (arith, byte_len-cut t s m rest found', same)
]

pub length-starts_with : (t s : Text) → starts_with t s ≡ true → length t ≤ length s
unfolding starts_with
length-starts_with [] s h = omega arith
length-starts_with (c ∷ t) [] h = ground arith
length-starts_with (c ∷ t) (d ∷ s) h =
    omega (arith, length-starts_with t s (and-both (c == d) (starts_with t s) h).1)
