-- ===== src/Stream/Pieces.antt =====
-- Bytes may arrive in any pieces: `decode` of crates/xenolith/src/io/stream.rs, for a decoder that
-- keeps the trait's promise on incomplete input.
use xenolith.Common.{
  ℕ, zero, suc, ◌+◌, ◌≤◌, ◌≡◌, ◌≢◌, refl, sym, ◌∙◌, ap, Bool, true, false, List, [], ◌∷◌, ◌++◌,
  Option, none, some, arith, length, drop, all, append_assoc, Bool-cases, inl, inr, ◌⊎◌, ltb,
}
use xenolith.Text.{Text}
use xenolith.Stream.{
  CharStream, State, StreamError, sniffing, decoding, Result, ok, err, append, decode, decoded,
  whole_input, bad_encoding, bad_character, internal,
}
use xenolith.Chars.{is_char}
use xenolith.Stream.Lines.{append-appended, append-append, line_ends, ends_in_cr}

module _ {D : Type 0} where
  -- What a call took and gave, put before those of a later call.
  abbrev pub after_call : ℕ → Text → Option (ℕ × (Text × D)) → Option (ℕ × (Text × D))
  after_call n s none = none
  after_call n s (some (m, (t, d))) = some (n + m, (s ++ t, d))

module _ {D : Type 0} (decode_with : D → List ℕ → Bool → Option (ℕ × (Text × D))) where
  -- A decoder that stops before incomplete input goes on there when more comes.
  abbrev pub IsIncremental : Type 0
  IsIncremental =
      (d d' : D) (n : ℕ) (s : Text) (input more : List ℕ) (last : Bool)
      → decode_with d input false ≡ some (n, (s, d'))
      → (n ≤ length input)
        × (decode_with d (input ++ more) last
            ≡ after_call n s (decode_with d' (drop n input ++ more) last))

whole_input-append : (pending bytes : List ℕ) → whole_input pending bytes ≡ pending ++ bytes
whole_input-append [] bytes = refl
whole_input-append (b ∷ pending) bytes = refl

drop-append :
    {A : Type 0} (n m : ℕ) (xs ys : List A)
    → n ≤ length xs
    → drop (n + m) (xs ++ ys) ≡ drop m (drop n xs ++ ys)
drop-append zero m xs ys h = let e : zero + m ≡ m = omega arith in ap (λ k. drop k (xs ++ ys)) e
drop-append (suc n) m [] ys h = absurd (omega arith)
drop-append (suc n) m (x ∷ xs) ys h =
    let e : suc n + m ≡ suc (n + m) = omega arith in
    ap (λ k. drop k (x ∷ xs ++ ys)) e ∙ drop-append n m xs ys (omega arith)

abbrev ok_or : {A : Type 0} → A → Result A → A
ok_or a (ok b) = b
ok_or a (err e) = a

err_ok : {A : Type 0} (e : StreamError) (a : A) → err e ≢ ok a
err_ok e a h = cc

module _ {D : Type 0} (stream : CharStream D) (s : Text) where
  -- The stream after a call that took `n` bytes for `s`.
  abbrev after_first : D → List ℕ → ℕ → Bool → CharStream D
  after_first decoder left n last = record stream {
    state = decoding decoder;
    pending = left;
    bytes_decoded = stream.bytes_decoded + n;
    finished = last;
    after_cr = ends_in_cr stream.after_cr s;
    rest = stream.rest ++ line_ends stream.after_cr s;
    chars_appended = stream.chars_appended + length (line_ends stream.after_cr s);
  }

  append-after_first :
      all is_char (line_ends stream.after_cr s) ≡ true
      → (decoder : D) (left : List ℕ) (n : ℕ) (last : Bool)
      → append s (record stream {
        state = decoding decoder;
        pending = left;
        bytes_decoded = stream.bytes_decoded + n;
        finished = last;
      })
        ≡ ok (after_first decoder left n last)
  append-after_first fine decoder left n last =
      rw
        (
          append-appended s (record stream {
            state = decoding decoder;
            pending = left;
            bytes_decoded = stream.bytes_decoded + n;
            finished = last;
          }),
          fine,
        )
        refl

  -- One call more, or the same call with more bytes.
  decoded-after_first :
      all is_char (line_ends stream.after_cr s) ≡ true
      → (decoder : D) (n : ℕ) (input more : List ℕ) (last : Bool) (second : Option (ℕ × (Text × D)))
      → n ≤ length input
      → decoded (after_first decoder (drop n input) n false) (drop n input ++ more) last second
        ≡ decoded stream (input ++ more) last (after_call n s second)
  decoded-after_first fine decoder n input more last none h = refl
  decoded-after_first fine decoder n input more last (some (m, (t, later))) h =
      let left = drop m (drop n input ++ more) in
      let whole = record stream {
        state = decoding later;
        pending = left;
        bytes_decoded = stream.bytes_decoded + (n + m);
        finished = last;
      } in
      let assoc : stream.bytes_decoded + n + m ≡ stream.bytes_decoded + (n + m) = omega arith in
      let same : append t (record (after_first decoder (drop n input) n false) {
        state = decoding later;
        pending = left;
        bytes_decoded = stream.bytes_decoded + n + m;
        finished = last;
      })
          ≡ append (s ++ t) whole =
        rw (append-append s t whole, append-after_first fine later left (n + m) last)
          (ap (λ k. append t (record (after_first later left (n + m) last) { bytes_decoded = k }))
            assoc) in
      rw (drop-append n m input more h, same) refl

  -- What a first call that went well says.
  decoded-ok :
      (later : D) (n : ℕ) (input : List ℕ) (next : CharStream D)
      → decoded stream input false (some (n, (s, later))) ≡ ok next
      → (all is_char (line_ends stream.after_cr s) ≡ true)
        × (next ≡ after_first later (drop n input) n false)
  decoded-ok later n input next h = elim (Bool-cases (ltb 16 (length (drop n input)))) [
    | inl k ↦ absurd (err_ok bad_encoding next (rw k at h))
    | inr k ↦
        let plain = record stream {
          state = decoding later;
          pending = drop n input;
          bytes_decoded = stream.bytes_decoded + n;
          finished = false;
        } in
        let added : append s plain ≡ ok next = rw k at h in
        elim (Bool-cases (all is_char (line_ends stream.after_cr s))) [
          | inl fine ↦ (
            fine,
            sym (
                ap (ok_or next)
                  (sym (append-after_first fine later (drop n input) n false) ∙ added)),
          )
          | inr bad ↦
              absurd
                (err_ok bad_character next (sym (append-appended s plain ∙ rw bad refl) ∙ added))
        ]
  ]

module _ {D : Type 0} (decode_with : D → List ℕ → Bool → Option (ℕ × (Text × D)))
    (law : IsIncremental decode_with) where
  decode_at :
      (decoder : D) (stream : CharStream D) (bytes : List ℕ) (last : Bool)
      → stream.state ≡ decoding decoder
      → decode decode_with bytes last stream
        ≡ decoded stream
            (whole_input stream.pending bytes)
            last
            (decode_with decoder (whole_input stream.pending bytes) last)
  unfolding decode
  decode_at decoder stream bytes last e = simp (e, decode) refl

  decode_state :
      (decoder : D) (stream : CharStream D) (bytes : List ℕ) (last : Bool)
      → stream.state ≡ decoding decoder
      → decode decode_with bytes last stream
        ≡ decoded stream
            (stream.pending ++ bytes)
            last
            (decode_with decoder (stream.pending ++ bytes) last)
  decode_state decoder stream bytes last e =
      rw (sym (whole_input-append stream.pending bytes)) (decode_at decoder stream bytes last e)

  decoded-pieces :
      (decoder : D) (stream next : CharStream D) (a b : List ℕ) (last : Bool)
      (first : Option (ℕ × (Text × D)))
      → stream.state ≡ decoding decoder
      → decode_with decoder (stream.pending ++ a) false ≡ first
      → decoded stream (stream.pending ++ a) false first ≡ ok next
      → decode decode_with b last next ≡ decode decode_with (a ++ b) last stream
  decoded-pieces decoder stream next a b last none st e h = cc
  decoded-pieces decoder stream next a b last (some (n, (s, later))) st e h =
      let input = stream.pending ++ a in
      let (fits, more) = law decoder later n s input b last e in
      let left = drop n input in
      let (fine, is_next) = decoded-ok stream s later n input next h in
      let start = after_first stream s later left n false in
      let second = decode_with later (left ++ b) last in
      let same : decoded stream (input ++ b) last (decode_with decoder (input ++ b) last)
          ≡ decoded stream (stream.pending ++ (a ++ b)) last
              (decode_with decoder (stream.pending ++ (a ++ b)) last) =
        ap (λ i. decoded stream i last (decode_with decoder i last))
          (append_assoc stream.pending a b) in
      ap (decode decode_with b last) is_next
      ∙ decode_state later start b last refl
      ∙ decoded-after_first stream s fine later n input b last second fits
      ∙ ap (decoded stream (input ++ b) last) (sym more)
      ∙ same
      ∙ sym (decode_state decoder stream (a ++ b) last st)

  decode_sniffing :
      (sniffed : List ℕ) (stream : CharStream D) (bytes : List ℕ) (last : Bool)
      → stream.state ≡ sniffing sniffed
      → decode decode_with bytes last stream ≡ err internal
  unfolding decode
  decode_sniffing sniffed stream bytes last e = simp (e, decode) refl

  decode_cases :
      (state : State D)
      → ((sniffed : List ℕ) × (state ≡ sniffing sniffed))
        ⊎ ((decoder : D) × (state ≡ decoding decoder))
  decode_cases (sniffing sniffed) = inl (sniffed, refl)
  decode_cases (decoding decoder) = inr (decoder, refl)

  -- Bytes that arrive in two pieces leave the stream, its text, its counts and the bytes that it holds
  -- back, as the same bytes in one piece do, and fail where these fail. The first piece has been read
  -- without an error, and the decoder goes on after incomplete input where it stopped.
  pub decode-append :
      (stream next : CharStream D) (a b : List ℕ) (last : Bool)
      → decode decode_with a false stream ≡ ok next
      → decode decode_with b last next ≡ decode decode_with (a ++ b) last stream
  decode-append stream next a b last h = elim (decode_cases stream.state) [
    | inl (sniffed, e) ↦
        absurd (err_ok internal next (sym (decode_sniffing sniffed stream a false e) ∙ h))
    | inr (decoder, e) ↦
        decoded-pieces decoder stream next a b last
          (decode_with decoder (stream.pending ++ a) false) e refl
          (rw (decode_state decoder stream a false e) at h)
  ]
