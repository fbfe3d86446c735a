-- ===== src/Decl/Span.antt =====
-- The span of a text declaration: crates/xenolith/src/io/decl.rs.
use xenolith.Common.{
  ℕ, ◌+◌, ◌≡◌, ◌≢◌, refl, sym, ap, ◌∙◌, inl, inr, Bool, true, false, not, ◌&&◌, Bool-cases,
  and-both, List, [], ◌∷◌, ◌++◌, Option, none, some, Option-cases, arith, leb, drop, length, ◌==◌,
  ==_iff,
}
use xenolith.Text.{Text, codes, starts_with}
use xenolith.Chars.{is_whitespace}
use xenolith.Scan.{byte_len, len_utf8}
use xenolith.Scan.Append.{byte_len-append}
use xenolith.Detect.{before_end, cons_front}
use xenolith.Decl.{
  Parsed, ok, err, TextDecl, absent, need_more, present, span_of, span_to, span_from,
  text_declaration_span,
}

-- What a result says of the input and of its being at its end. The span of a declaration that is
-- found starts with `<?xml` and goes through the first `?>`; more input is asked for only before the end
-- and while there is no `?>`; there is none where `<?xml` and white space do not begin the input; and
-- an error is about an input that begins with `<?xml`.
abbrev pub Spans : Text → Bool → Parsed TextDecl → Type 0
Spans rem last (ok (present n)) =
    (front : Text) × ((rest : Text) × ((rem ≡ front ++ codes "?>" ++ rest)
        × ((n ≡ byte_len (front ++ codes "?>"))
            × ((starts_with (codes "<?xml") rem ≡ true)
                × ((a b : Text) → front ≢ a ++ codes "?>" ++ b)))))
Spans rem last (ok need_more) = (last ≡ false) × ((a b : Text) → rem ≢ a ++ codes "?>" ++ b)
Spans rem last (ok absent) =
    (c : ℕ) (s : Text) → is_whitespace c ≡ true → rem ≢ codes "<?xml" ++ c ∷ s
Spans rem last (err e) = starts_with (codes "<?xml") rem ≡ true

cons_front_inv :
    (c : ℕ) (o : Option Text) (front : Text)
    → cons_front c o ≡ some front
    → (rest : Text) × ((o ≡ some rest) × (front ≡ c ∷ rest))
cons_front_inv c none front h = ground arith
cons_front_inv c (some rest) front h = (rest, (refl, ground arith))

mark_inv :
    (c : ℕ) (s : Text)
    → starts_with (codes "?>") (c ∷ s) ≡ true
    → (t : Text) × (c ∷ s ≡ codes "?>" ++ t)
unfolding starts_with
mark_inv c [] h = ground arith
mark_inv c (d ∷ t) h =
    let (first, second) = and-both (b'?' == c) (b'>' == d && true) h in
    let same_first : c ≡ b'?' = ground arith in
    let same_second : d ≡ b'>' = ground arith in (t, rw (same_first, same_second) refl)

-- The text is cut at its first mark.
before_end-cut :
    (s front : Text) → before_end s ≡ some front → (rest : Text) × (s ≡ front ++ codes "?>" ++ rest)
unfolding before_end
before_end-cut [] front h = ground arith
before_end-cut (c ∷ s) front h = elim (Bool-cases (starts_with (codes "?>") (c ∷ s))) [
  | inl e ↦ let nothing : front ≡ [] = ground (arith, rw e at h) in rw nothing (mark_inv c s e)
  | inr e ↦
      let (later, (found', same)) = cons_front_inv c (before_end s) front (rw e at h) in
      let (rest, cut) = before_end-cut s later found' in (rest, rw same (ap (c ∷◌) cut))
]

before_end-first : (s front a b : Text) → before_end s ≡ some front → front ≢ a ++ codes "?>" ++ b
unfolding before_end starts_with
before_end-first [] front a b h k = ground arith
before_end-first (c ∷ s) front a b h k = elim (Bool-cases (starts_with (codes "?>") (c ∷ s))) [
  | inl e ↦ let nothing : front ≡ [] = ground (arith, rw e at h) in nonempty a (sym nothing ∙ k)
  | inr e ↦
      let (later, (found', same)) = cons_front_inv c (before_end s) front (rw e at h) in
      elsewhere a later e found' (λ t. before_end-first s later t b found') (sym same ∙ k)
]
  where
    nonempty : (a : Text) → [] ≢ a ++ codes "?>" ++ b
    nonempty [] e = ground arith
    nonempty (x ∷ a) e = ground arith

    elsewhere :
        (a later : Text)
        → starts_with (codes "?>") (c ∷ s) ≡ false
        → before_end s ≡ some later
        → ((t : Text) → later ≢ t ++ codes "?>" ++ b)
        → c ∷ later ≢ a ++ codes "?>" ++ b
    elsewhere (x ∷ a) later e found' ih k = ih a (ground arith)
    elsewhere [] later e found' ih k =
        let (rest, cut) = before_end-cut s later found' in
        let here : c ≡ b'?' = ground arith in
        let next : later ≡ b'>' ∷ b = ground arith in
        let whole : s ≡ b'>' ∷ (b ++ codes "?>" ++ rest) =
          cut ∙ ap (λ (t : Text). t ++ codes "?>" ++ rest) next in
        ground (arith, rw (here, whole) at e)

before_end-none : (s a b : Text) → before_end s ≡ none → s ≢ a ++ codes "?>" ++ b
unfolding before_end starts_with
before_end-none [] [] b h k = ground arith
before_end-none [] (x ∷ a) b h k = ground arith
before_end-none (c ∷ s) [] b h k =
    let here : c ≡ b'?' = ground arith in
    let next : s ≡ b'>' ∷ b = ground arith in ground (arith, rw (here, next) at h)
before_end-none (c ∷ s) (x ∷ a) b h k =
    let next : s ≡ a ++ codes "?>" ++ b = ground arith in
    ground (arith, λ (n : before_end s ≡ none). before_end-none s a b n next)

cons_front-none : (c : ℕ) (o : Option Text) → cons_front c o ≡ none → o ≡ none
cons_front-none c none h = refl
cons_front-none c (some front) h = ground arith

starts_with_trans :
    (u s t : Text) → starts_with u s ≡ true → starts_with s t ≡ true → starts_with u t ≡ true
unfolding starts_with
starts_with_trans [] s t h k = refl
starts_with_trans (x ∷ u) [] t h k = ground arith
starts_with_trans (x ∷ u) (c ∷ s) [] h k = ground arith
starts_with_trans (x ∷ u) (c ∷ s) (d ∷ t) h k =
    let (first, rest) = and-both (x == c) (starts_with u s) h in
    let (second, rest') = and-both (c == d) (starts_with s t) k in
    let same : (x == d) ≡ true = rw (← (==_iff c d).0 second) first in
    rw (same, starts_with_trans u s t rest rest') refl

starts_with-cut : (s r : Text) → starts_with s r ≡ true → r ≡ s ++ drop (length s) r
unfolding starts_with
starts_with-cut [] r h = refl
starts_with-cut (c ∷ s) [] h = ground arith
starts_with-cut (c ∷ s) (d ∷ r) h =
    let (first, rest) = and-both (c == d) (starts_with s r) h in
    rw (← (==_iff c d).0 first) (ap (c ∷◌) (starts_with-cut s r rest))

-- What begins a text without a mark has none.
before_end-part : (s t : Text) → starts_with s t ≡ true → before_end t ≡ none → before_end s ≡ none
unfolding before_end starts_with
before_end-part [] t h k = refl
before_end-part (c ∷ s) [] h k = ground arith
before_end-part (c ∷ s) (d ∷ t) h k = elim (Bool-cases (starts_with (codes "?>") (d ∷ t))) [
  | inl e ↦ ground (arith, rw e at k)
  | inr e ↦
      let (same, parts) = and-both (c == d) (starts_with s t) h in
      let later : before_end t ≡ none = cons_front-none d (before_end t) (rw e at k) in
      elim (Bool-cases (starts_with (codes "?>") (c ∷ s))) [
        | inl f ↦ ground (arith, starts_with_trans (codes "?>") (c ∷ s) (d ∷ t) f h)
        | inr f ↦ rw (f, before_end-part s t parts later) refl
      ]
]

Spans-span_of :
    (rem front rest : Text) (last : Bool) (r : Parsed (List Text))
    → rem ≡ front ++ codes "?>" ++ rest
    → starts_with (codes "<?xml") rem ≡ true
    → ((a b : Text) → front ≢ a ++ codes "?>" ++ b)
    → Spans rem last (span_of (byte_len front + 2) r)
Spans-span_of rem front rest last (err e) cut begins first = begins
Spans-span_of rem front rest last (ok seen) cut begins first =
    (front, (rest, (cut, (size, (begins, first)))))
  where
    two : byte_len (codes "?>") ≡ 2
    two = unfold byte_len in unfold len_utf8 in refl

    size : byte_len front + 2 ≡ byte_len (front ++ codes "?>")
    size = omega (arith, byte_len-append front (codes "?>"), two)

Spans-span_to :
    (rem : Text) (last : Bool)
    → starts_with (codes "<?xml") rem ≡ true
    → Spans rem last (span_to last (before_end rem))
Spans-span_to rem last begins = elim (Option-cases (before_end rem)) [
  | inl e ↦ rw e (unclosed last (λ a b. before_end-none rem a b e))
  | inr (front, e) ↦
      let (rest, cut) = before_end-cut rem front e in
      rw e (go last front rest cut (λ a b. before_end-first rem front a b e))
]
  where
    unclosed :
        (last : Bool)
        → ((a b : Text) → rem ≢ a ++ codes "?>" ++ b)
        → Spans rem last (span_to last none)
    unclosed true unmarked = begins
    unclosed false unmarked = (refl, unmarked)

    go :
        (last : Bool) (front rest : Text)
        → rem ≡ front ++ codes "?>" ++ rest
        → ((a b : Text) → front ≢ a ++ codes "?>" ++ b)
        → Spans rem last (span_to last (some front))
    go true front rest cut first = Spans-span_of rem front rest true _ cut begins first
    go false front rest cut first = Spans-span_of rem front rest false _ cut begins first

-- What follows `<?xml` decides whether there is a declaration.
absent-after :
    (rem s : Text)
    → drop 5 rem ≡ s
    → ((c : ℕ) (t : Text) → is_whitespace c ≡ true → s ≢ c ∷ t)
    → (c : ℕ) (t : Text) → is_whitespace c ≡ true
    → rem ≢ codes "<?xml" ++ c ∷ t
absent-after rem s e other c t w same = other c t w (sym e ∙ ap (λ (r : Text). drop 5 r) same)

Spans-span_from :
    (rem s : Text) (last : Bool)
    → drop 5 rem ≡ s
    → starts_with (codes "<?xml") rem ≡ true
    → Spans rem last (span_from rem last s)
Spans-span_from rem [] true e begins = absent-after rem [] e (λ c t w f. ground arith)
Spans-span_from rem [] false e begins =
    (refl, λ a b same. before_end-none rem a b (short rem e begins) same)
  where
    short : (r : Text) → drop 5 r ≡ [] → starts_with (codes "<?xml") r ≡ true → before_end r ≡ none
    short r e begins =
        let whole : r ≡ codes "<?xml" =
          starts_with-cut (codes "<?xml") r begins ∙ ap (codes "<?xml" ++◌) e in
        rw whole (unfold before_end in unfold starts_with in refl)
Spans-span_from rem (c ∷ s) last e begins = elim (Bool-cases (is_whitespace c)) [
  | inl f ↦ rw f (Spans-span_to rem last begins)
  | inr f ↦ rw f (absent-after rem (c ∷ s) e (λ d t w same. ground arith))
]

-- The span of a declaration that is found is that of its text: it begins the input with `<?xml` and
-- goes through the first `?>`, that mark included. More input is asked for only while the entity has not
-- ended and holds no `?>` yet. An input that begins with `<?xml` and white space is never taken for one
-- without a declaration, and one that does not begin with `<?xml` never gives an error.
pub text_declaration_span-Spans :
    (rem : Text) (last : Bool) → Spans rem last (text_declaration_span rem last)
unfolding text_declaration_span
text_declaration_span-Spans rem last =
    elim (Bool-cases (not last && (leb (byte_len rem) 5 && starts_with rem (codes "<?xml")))) [
      | inl e ↦
          let open' : last ≡ false = ground arith in
          let part : starts_with rem (codes "<?xml") ≡ true = ground arith in
          rw e (
            open',
            λ a b. before_end-none rem a b (before_end-part rem (codes "<?xml") part unmarked),
          )
      | inr e ↦ elim (Bool-cases (starts_with (codes "<?xml") rem)) [
        | inl f ↦ rw (e, f) (Spans-span_from rem (drop 5 rem) last refl f)
        | inr f ↦ rw (e, f) (λ c s w same. not_begun rem f c s same)
      ]
    ]
  where
    unmarked : before_end (codes "<?xml") ≡ none
    unmarked = unfold before_end in unfold starts_with in refl

    not_begun :
        (rem : Text)
        → starts_with (codes "<?xml") rem ≡ false
        → (c : ℕ) (s : Text) → rem ≢ codes "<?xml" ++ c ∷ s
    not_begun rem f c s same = unfold starts_with in ground (arith, (rw same at f))
