-- ===== src/Stream/Lines.antt =====
-- Line ends and characters do not depend on how the text arrives: `append` of
-- crates/xenolith/src/io/stream.rs against XML 1.0, 2.11, which replaces CR LF and then CR by LF.
use xenolith.Common.{
  ◌+◌, ◌≡◌, refl, ◌∙◌, ap, Bool, false, ◌&&◌, List, [], ◌∷◌, ◌++◌, arith, ◌==◌, if◌then◌else◌,
  length, all, append_assoc, append-nil,
}
use xenolith.Text.{Text}
use xenolith.Chars.{is_char}
use mathlib.Core.Path.{fun_ext}
use xenolith.Stream.{CharStream, Result, ok, err, and_then, bad_character, append}

-- CR LF becomes LF; a LF after a CR that came before the text goes too.
abbrev pub join_pairs : Bool → Text → Text
join_pairs after_cr [] = []
join_pairs after_cr (c ∷ s) =
    let rest = join_pairs (c == 13) s in if after_cr && c == 10 then rest else c ∷ rest

abbrev pub cr_to_lf : Text → Text
cr_to_lf [] = []
cr_to_lf (c ∷ s) = (if c == 13 then 10 else c) ∷ cr_to_lf s

abbrev pub line_ends : Bool → Text → Text
line_ends after_cr s = cr_to_lf (join_pairs after_cr s)

abbrev pub ends_in_cr : Bool → Text → Bool
ends_in_cr after_cr [] = after_cr
ends_in_cr after_cr (c ∷ s) = ends_in_cr (c == 13) s

abbrev pub joined : List Text → Text
joined [] = []
joined (s ∷ pieces) = s ++ joined pieces

module _ {D : Type 0} where
  abbrev pub appended : Text → CharStream D → Result (CharStream D)
  appended s stream =
      let out = line_ends stream.after_cr s in
      if all is_char out
      then ok (record stream {
        after_cr = ends_in_cr stream.after_cr s;
        rest = stream.rest ++ out;
        chars_appended = stream.chars_appended + length out;
      })
      else err bad_character

  pub append-appended : (s : Text) (stream : CharStream D) → append s stream ≡ appended s stream
  unfolding append
  append-appended [] stream = ground (arith, append-nil stream.rest)
  append-appended (c ∷ s) stream =
      let d = if c == 13 then 10 else c in
      ground (
        arith,
        append-appended s (record stream { after_cr = false }),
        append-appended s (record stream {
          after_cr = c == 13;
          rest = stream.rest ++ d ∷ [];
          chars_appended = stream.chars_appended + 1;
        }),
        append_assoc stream.rest (d ∷ []) (line_ends (c == 13) s),
      )

  pub append-append :
      (s t : Text) (stream : CharStream D)
      → append (s ++ t) stream ≡ and_then (append t) (append s stream)
  unfolding append
  append-append [] t stream = refl
  append-append (c ∷ s) t stream = ground (
    arith,
    append-append s t (record stream { after_cr = false }),
    append-append s t (record stream {
      after_cr = c == 13;
      rest = stream.rest ++ (if c == 13 then 10 else c) ∷ [];
      chars_appended = stream.chars_appended + 1;
    }),
  )

  -- The text in pieces, one call after another.
  abbrev pub append_all : List Text → CharStream D → Result (CharStream D)
  append_all [] stream = ok stream
  append_all (s ∷ pieces) stream = and_then (append_all pieces) (append s stream)

  append_all-joined :
      (pieces : List Text) (stream : CharStream D)
      → append_all pieces stream ≡ append (joined pieces) stream
  unfolding append
  append_all-joined [] stream = refl
  append_all-joined (s ∷ pieces) stream =
      rw (append-append s (joined pieces) stream)
        (ap (λ f. and_then f (append s stream)) (fun_ext (append_all-joined pieces)))

  -- However a text is cut into pieces, the stream holds what it held before and then the text with its
  -- line ends replaced as a whole, and has counted its characters; where one of these may not stand in a
  -- document, the call fails.
  pub append_all-line_ends :
      (pieces : List Text) (stream : CharStream D)
      → append_all pieces stream ≡ appended (joined pieces) stream
  append_all-line_ends pieces stream =
      append_all-joined pieces stream ∙ append-appended (joined pieces) stream
