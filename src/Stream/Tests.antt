-- ===== src/Stream/Tests.antt =====
-- Runs of a character stream on one byte per character: crates/xenolith/src/io/stream.rs.
use xenolith.Common.{
  ℕ, ◌≡◌, refl, Bool, true, false, List, [], ◌∷◌, Option, some, arith, length, drop, length-append,
}
use xenolith.Text.{Text, codes}
use xenolith.Chars.{is_char}
use xenolith.Stream.{CharStream, ok, err, bad_character, append, decode, decoding, new_stream}
use xenolith.Stream.Lines.{append_all, appended, joined, append_all-line_ends}
use xenolith.Stream.Pieces.{IsIncremental, decode-append}

abbrev Latin : Type 0
Latin = Unit {0}

abbrev latin : Latin → List ℕ → Bool → Option (ℕ × (Text × Latin))
latin d bytes last = some (length bytes, (bytes, tt))

drop-length : (xs : List ℕ) → drop (length xs) xs ≡ []
drop-length [] = refl
drop-length (x ∷ xs) = drop-length xs

latin-IsIncremental : IsIncremental latin
latin-IsIncremental d d' n s input more last h =
    let taken : n ≡ length input = ground arith in
    let same : s ≡ input = ground arith in
    (omega arith, rw (taken, same, drop-length input, length-append input more) refl)

abbrev opened : CharStream Latin
opened = record new_stream { state = decoding tt }

-- A CR LF that falls into two pieces is one line end.
cut_line_end :
    append_all (codes "a\r" ∷ codes "\nb" ∷ []) opened
    ≡ ok (record opened { rest = codes "a\nb"; chars_appended = 3 })
unfolding append is_char
cut_line_end = refl

refused : append (0 ∷ []) opened ≡ err bad_character
unfolding append is_char
refused = refl

append_all-line_ends_example :
    append_all (codes "a\r" ∷ codes "\nb" ∷ []) opened
    ≡ appended (joined (codes "a\r" ∷ codes "\nb" ∷ [])) opened
append_all-line_ends_example = append_all-line_ends (codes "a\r" ∷ codes "\nb" ∷ []) opened

abbrev first_fed : CharStream Latin
first_fed = record opened {
  rest = codes "a\n";
  after_cr = true;
  chars_appended = 2;
  bytes_decoded = 2;
}

first_feeds : decode latin (codes "a\r") false opened ≡ ok first_fed
unfolding decode append is_char
first_feeds = refl

decode-append_example :
    decode latin (codes "\nb") true first_fed ≡ decode latin (codes "a\r\nb") true opened
decode-append_example =
    decode-append latin latin-IsIncremental opened first_fed (codes "a\r") (codes "\nb") true
      first_feeds
