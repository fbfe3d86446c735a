-- ===== src/Scan/Append.antt =====
-- What the scanner cuts off does not depend on what follows it:
-- crates/xenolith/src/io/parse/scan.rs.
use xenolith.Common.{
  ℕ, zero, suc, ◌+◌, ◌≡◌, ◌≤◌, refl, inl, inr, Bool, false, Bool-cases, [], ◌∷◌, ◌++◌, Option, none,
  some, Option-cases, arith, ◌==◌, leb, if◌then◌else◌, length, drop,
}
use xenolith.Text.{Text, starts_with}
use xenolith.Scan.{
  TokenKind, found, reference, pending, Scanned, ok, err, len_utf8, byte_len, bounded, cut,
  delimited, is_quote, tag_loop,
}
use xenolith.Scan.Lengths.{length-starts_with, cut_further_inv}

pub starts_with-append :
    (t s m : Text) → length t ≤ length s → starts_with t (s ++ m) ≡ starts_with t s
unfolding starts_with
starts_with-append [] s m h = refl
starts_with-append (c ∷ t) [] m h = absurd (omega arith)
starts_with-append (c ∷ t) (d ∷ s) m h = rw (starts_with-append t s m (omega arith)) refl

pub drop-append : (n : ℕ) (s m : Text) → n ≤ length s → drop n (s ++ m) ≡ drop n s ++ m
drop-append zero s m h = refl
drop-append (suc n) [] m h = absurd (omega arith)
drop-append (suc n) (c ∷ s) m h = drop-append n s m (omega arith)

pub length-cut :
    (t s : Text) (n : ℕ) (rest : Text)
    → cut t s ≡ some (n, rest)
    → length t + length rest ≤ length s
unfolding cut
length-cut t [] n rest h = ground arith
length-cut t (c ∷ s) n rest h = elim (Bool-cases (starts_with t (c ∷ s))) [
  | inl e ↦
      let same : drop (length t) (c ∷ s) ≡ rest = ground (arith, rw e at h) in
      rw (← same) (omega (arith, length_drop (length t) (c ∷ s) (length-starts_with t (c ∷ s) e)))
  | inr e ↦
      let (m, (found', same)) = cut_further_inv (len_utf8 c) n (cut t s) rest (rw e at h) in
      omega (arith, length-cut t s m rest found')
]
  where
    length_drop : (n : ℕ) (s : Text) → n ≤ length s → n + length (drop n s) ≤ length s
    length_drop zero s h = omega arith
    length_drop (suc n) [] h = absurd (omega arith)
    length_drop (suc n) (c ∷ s) h = omega (arith, length_drop n s (omega arith))

pub cut-append :
    (t s m : Text) (n : ℕ) (rest : Text)
    → cut t s ≡ some (n, rest)
    → cut t (s ++ m) ≡ some (n, rest ++ m)
unfolding cut
cut-append t [] m n rest h = ground arith
cut-append t (c ∷ s) m n rest h =
    let long = length-cut t (c ∷ s) n rest h in
    let same = starts_with-append t (c ∷ s) m (omega arith) in
    elim (Bool-cases (starts_with t (c ∷ s))) [
      | inl e ↦
          let (first, second) : (byte_len t ≡ n) × (drop (length t) (c ∷ s) ≡ rest) =
            ground (arith, rw e at h) in
          rw (same, e) (rw (drop-append (length t) (c ∷ s) m (omega arith), first, second) refl)
      | inr e ↦
          let (k, (found', at)) = cut_further_inv (len_utf8 c) n (cut t s) rest (rw e at h) in
          rw (same, e) (rw (cut-append t s m k rest found', at) refl)
    ]

pub tag_loop-append :
    (s m : Text) (i : ℕ) (quote : Option ℕ) (complete : Bool) (kind : TokenKind) (n : ℕ)
    → tag_loop s i quote false ≡ ok (found kind n)
    → tag_loop (s ++ m) i quote complete ≡ ok (found kind n)
unfolding tag_loop
tag_loop-append [] m i quote complete kind n h = ground arith
tag_loop-append (c ∷ s) m i (some q) complete kind n h =
    tag_loop-append s m (i + len_utf8 c) (if c == q then none else some q) complete kind n h
tag_loop-append (c ∷ s) m i none complete kind n h = ground (
  arith,
  tag_loop-append s m (i + len_utf8 c) (if is_quote c then some c else none) complete kind n,
)

pub bounded_inv :
    (max : Option ℕ) (rest : Text) (r : Scanned) (kind : TokenKind) (n : ℕ)
    → bounded max rest r ≡ ok (found kind n)
    → r ≡ ok (found kind n)
bounded_inv max rest (err e) kind n h = ground arith
bounded_inv none rest (ok r) kind n h = h
bounded_inv (some max) rest (ok pending) kind n h = ground arith
bounded_inv (some max) rest (ok (found k m)) kind n h = h
bounded_inv (some max) rest (ok (reference m)) kind n h = h

pub bounded_found :
    (max : Option ℕ) (rest : Text) (r : Scanned) (kind : TokenKind) (n : ℕ)
    → r ≡ ok (found kind n)
    → bounded max rest r ≡ ok (found kind n)
bounded_found none rest r kind n h = rw h refl
bounded_found (some max) rest r kind n h = rw h refl

pub byte_len-append : (s m : Text) → byte_len (s ++ m) ≡ byte_len s + byte_len m
unfolding byte_len
byte_len-append [] m = omega arith
byte_len-append (c ∷ s) m = omega (arith, byte_len-append s m)

pub delimited-append :
    (rest m : Text) (kind : TokenKind) (from : ℕ) (t : Text) (complete : Bool) (k : TokenKind)
    (n : ℕ)
    → from ≤ length rest
    → delimited rest kind from t false ≡ ok (found k n)
    → delimited (rest ++ m) kind from t complete ≡ ok (found k n)
unfolding delimited
delimited-append rest m kind from t complete k n long h =
    elim (Bool-cases (leb (byte_len rest) from)) [
      | inl e ↦ ground (arith, rw e at h)
      | inr e ↦ elim (Option-cases (cut t (drop from rest))) [
        | inl f ↦ ground (arith, rw (e, f) at h)
        | inr ((at, r), f) ↦
            let longer : leb (byte_len (rest ++ m)) from ≡ false =
              ground (arith, byte_len-append rest m) in
            rw (longer, drop-append from rest m long, cut-append t (drop from rest) m at r f)
              (rw (e, f) at h)
      ]
    ]
