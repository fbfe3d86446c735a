-- ===== src/Write/Cdata.antt =====
-- CDATA sections read back: `push_cdata` of crates/xenolith/src/io/write/escape.rs.
use xenolith.Common.{
  ℕ, zero, suc, ◌≡◌, ◌≤◌, refl, ◌∙◌, sym, ap, inl, inr, Bool, true, false, not, ◌&&◌, Bool-cases,
  [], ◌∷◌, ◌++◌, Option, none, some, Option-cases, ◌==◌, ==_iff, if◌then◌else◌, length,
  length-append, drop, arith, contains, contains-append, append_assoc, append-nil,
}
use xenolith.Text.{Text, codes, starts_with}
use xenolith.Scan.Append.{starts_with-append}
use xenolith.Write.{push_section, ahead, find_end, section_unless_empty, cdata_loop, push_cdata}
use xenolith.Write.Read.{lookup, references, referred, skip_of, prepend, text_literal}

abbrev pub end_mark : Text
end_mark = codes "]]>"

-- A literal character of a section: a carriage return reads as a line feed.
abbrev pub section_literal : ℕ → Option ℕ
section_literal c = if c == 13 then some 10 else some c

-- How content of sections and character data reads: whether it stands in a section, and how many
-- characters of a mark are left to skip.
unfoldable pub read_content : Bool → ℕ → Text → Option Text
read_content false skip [] = some []
read_content true skip [] = none
read_content section (suc skip) (c ∷ s) = read_content section skip s
read_content true zero (c ∷ s) = elim (starts_with end_mark (c ∷ s)) [
  | true ↦ read_content false 2 s
  | false ↦ prepend (section_literal c) (read_content true 0 s)
]
read_content false zero (c ∷ s) = elim (starts_with (codes "<![CDATA[") (c ∷ s)) [
  | true ↦ read_content true 8 s
  | false ↦ elim (c == b'&') [
    | true ↦
        prepend (referred (lookup references (c ∷ s)))
          (read_content false (skip_of (lookup references (c ∷ s))) s)
    | false ↦ prepend (text_literal c) (read_content false 0 s)
  ]
]

abbrev pub prepend_all : Text → Option Text → Option Text
prepend_all [] o = o
prepend_all (c ∷ s) o = prepend (some c) (prepend_all s o)

prepend_all-some : (s t : Text) → prepend_all s (some t) ≡ some (s ++ t)
prepend_all-some [] t = refl
prepend_all-some (c ∷ s) t = ap (prepend (some c)) (prepend_all-some s t)

-- No end mark starts within the text, where an end mark follows it.
abbrev pub is_clean : Text → Bool
is_clean [] = true
is_clean (c ∷ s) = not (starts_with end_mark ((c ∷ s) ++ end_mark)) && is_clean s

mark_later :
    (c : ℕ) (s : Text)
    → starts_with end_mark (c ∷ s) ≡ false
    → starts_with end_mark ((c ∷ s) ++ end_mark) ≡ false
unfolding starts_with
mark_later c [] h = ground arith
mark_later c (d ∷ []) h = ground arith
mark_later c (d ∷ e ∷ s) h = h

clean_none : (s : Text) → find_end s ≡ none → is_clean s ≡ true
unfolding find_end
clean_none [] h = refl
clean_none (c ∷ s) h = elim (Bool-cases (starts_with end_mark (c ∷ s))) [
  | inl e ↦ ground (arith, rw e at h)
  | inr e ↦
      let rest : find_end s ≡ none = later (find_end s) (rw e at h) in
      rw (mark_later c s e, clean_none s rest) refl
]
  where
    later : (o : Option (Text × Text)) → ahead c o ≡ none → o ≡ none
    later none k = refl
    later (some (front, back)) k = ground arith

ahead_inv :
    (c : ℕ) (o : Option (Text × Text)) (front back : Text)
    → ahead c o ≡ some (front, back)
    → (rest : Text) × ((o ≡ some (rest, back)) × (front ≡ c ∷ rest))
ahead_inv c none front back h = ground arith
ahead_inv c (some (f, b)) front back h =
    let (same, same') : (c ∷ f ≡ front) × (b ≡ back) = ground arith in
    (f, (rw same' refl, sym same))

starts_end : (s : Text) → starts_with end_mark s ≡ true → s ≡ end_mark ++ drop 3 s
unfolding starts_with
starts_end [] h = ground arith
starts_end (a ∷ []) h = ground arith
starts_end (a ∷ b ∷ []) h = ground arith
starts_end (a ∷ b ∷ c ∷ s) h = ground (arith, ==_iff b']' a, ==_iff b']' b, ==_iff b'>' c)

find_end-some :
    (s front back : Text)
    → find_end s ≡ some (front, back)
    → (s ≡ front ++ (end_mark ++ back)) × (is_clean front ≡ true)
unfolding find_end
find_end-some [] front back h = ground arith
find_end-some (c ∷ s) front back h = elim (Bool-cases (starts_with end_mark (c ∷ s))) [
  | inl e ↦
      let (same, same') : ([] ≡ front) × (drop 3 (c ∷ s) ≡ back) = ground (arith, rw e at h) in
      (starts_end (c ∷ s) e ∙ rw (← same, ← same') refl, rw (← same) refl)
  | inr e ↦
      let (rest, (found', same)) = ahead_inv c (find_end s) front back (rw e at h) in
      let (whole, clean) = find_end-some s rest back found' in
      let free : starts_with end_mark ((c ∷ rest) ++ end_mark) ≡ false =
        sym (
          starts_with-append end_mark ((c ∷ rest) ++ end_mark) back
            (omega (arith, length-append rest end_mark)))
        ∙ ap (starts_with end_mark) (append_assoc (c ∷ rest) end_mark back ∙ ap (c ∷◌) (sym whole))
        ∙ e in
      rw same (ap (c ∷◌) whole, rw (free, clean) refl)
]

read-section_char :
    (c : ℕ) (s : Text)
    → starts_with end_mark (c ∷ s) ≡ false
    → (13 == c) ≡ false
    → read_content true 0 (c ∷ s) ≡ prepend (some c) (read_content true 0 s)
unfolding read_content
read-section_char c s h e =
    let literal : section_literal c ≡ some c = ground arith in rw (h, literal, read_content) refl

-- The content of a section that ends at the first end mark.
read-section :
    (front r : Text)
    → is_clean front ≡ true
    → contains front 13 ≡ false
    → read_content true 0 (front ++ (end_mark ++ r)) ≡ prepend_all front (read_content false 0 r)
read-section [] r h k = unfold read_content starts_with in refl
read-section (c ∷ front) r h k =
    let here : starts_with end_mark ((c ∷ front) ++ (end_mark ++ r)) ≡ false =
      ap (starts_with end_mark) (sym (append_assoc (c ∷ front) end_mark r))
      ∙ starts_with-append end_mark ((c ∷ front) ++ end_mark) r
          (omega (arith, length-append front end_mark))
      ∙ ground arith in
    read-section_char c (front ++ (end_mark ++ r)) here (ground arith)
    ∙ ap (prepend (some c)) (read-section front r (ground arith) (ground arith))

read-push_section :
    (front r : Text)
    → is_clean front ≡ true
    → contains front 13 ≡ false
    → read_content false 0 (push_section front ++ r) ≡ prepend_all front (read_content false 0 r)
unfolding push_section
read-push_section front r h k =
    ap (read_content false 0) (ap (codes "<![CDATA[" ++◌) (append_assoc front end_mark r))
    ∙ unfold read_content starts_with in read-section front r h k

read-unless_empty :
    (front r : Text)
    → is_clean front ≡ true
    → contains front 13 ≡ false
    → read_content false 0 (section_unless_empty front ++ r)
      ≡ prepend_all front (read_content false 0 r)
read-unless_empty [] r h k = refl
read-unless_empty (c ∷ front) r h k = read-push_section (c ∷ front) r h k

read-mark :
    (r : Text)
    → read_content false 0 (codes "]]&gt;" ++ r) ≡ prepend_all end_mark (read_content false 0 r)
unfolding read_content starts_with
read-mark r = refl

prepend_all-append :
    (s t : Text) (o : Option Text) → prepend_all (s ++ t) o ≡ prepend_all s (prepend_all t o)
prepend_all-append [] t o = refl
prepend_all-append (c ∷ s) t o = ap (prepend (some c)) (prepend_all-append s t o)

read-last :
    (s : Text)
    → find_end s ≡ none
    → contains s 13 ≡ false
    → read_content false 0 (section_unless_empty s) ≡ some s
read-last s e k =
    ap (read_content false 0) (sym (append-nil (section_unless_empty s)))
    ∙ read-unless_empty s [] (clean_none s e) k
    ∙ ap (prepend_all s) nothing
    ∙ prepend_all-some s []
    ∙ ap some (append-nil s)
  where
    nothing : read_content false 0 [] ≡ some []
    nothing = unfold read_content in refl

find_end-nil : find_end [] ≡ none
unfolding find_end
find_end-nil = refl

read-cdata_loop :
    (fuel : ℕ) (s : Text)
    → length s ≤ fuel
    → contains s 13 ≡ false
    → read_content false 0 (cdata_loop fuel s) ≡ some s
unfolding cdata_loop
read-cdata_loop zero [] l k = read-last [] find_end-nil k
read-cdata_loop zero (c ∷ s) l k = absurd (omega arith)
read-cdata_loop (suc fuel) s l k = elim (Option-cases (find_end s)) [
  | inl e ↦ rw (e, cdata_loop) (read-last s e k)
  | inr ((front, back), e) ↦
      let (whole, clean) = find_end-some s front back e in
      let front_free : contains front 13 ≡ false =
        ground
          (arith, ap (λ t. contains t 13) whole, contains-append front (end_mark ++ back) 13) in
      let back_free : contains back 13 ≡ false =
        ground
          (arith, ap (λ t. contains t 13) whole, contains-append front (end_mark ++ back) 13) in
      let less : length back ≤ fuel =
        omega (arith, ap (λ (t : Text). length t) whole, length-append front (end_mark ++ back)) in
      let rest = read-cdata_loop fuel back less back_free in
      rw (e, cdata_loop)
        (read-unless_empty front (codes "]]&gt;" ++ cdata_loop fuel back) clean front_free
          ∙ ap (prepend_all front)
              (read-mark (cdata_loop fuel back) ∙ ap (prepend_all end_mark) rest)
          ∙ ap (prepend_all front) (prepend_all-some end_mark back)
          ∙ prepend_all-some front (end_mark ++ back)
          ∙ ap some (sym whole))
]

-- What is written for a CDATA section reads back as the data, wherever and however often the end
-- mark of a section stands in it, for data without a carriage return; and the fuel is enough.
pub read-push_cdata :
    (s : Text) → contains s 13 ≡ false → read_content false 0 (push_cdata s) ≡ some s
unfolding push_cdata
read-push_cdata [] k = unfold push_section read_content starts_with in refl
read-push_cdata (c ∷ s) k = read-cdata_loop (length (c ∷ s)) (c ∷ s) (omega arith) k
