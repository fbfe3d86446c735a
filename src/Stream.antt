-- ===== src/Stream.antt =====
-- The character stream of an entity: crates/xenolith/src/io/stream.rs. The
-- buffer is its consumed part and the rest. After an error a stream is not used again, so an error
-- gives no stream back. `Box<dyn Decoder>` is a type `D`, whose `decode` gives back how many bytes it
-- took, the text, and the decoder after them.
pub mod Lines
pub mod Pieces
mod Tests
use xenolith.Common.{
  ℕ, zero, suc, ◌+◌, ◌-◌, ◌*◌, Bool, true, false, not, ◌&&◌, List, [], ◌∷◌, ◌++◌, Option, none,
  some, ◌==◌, ltb, leb, if◌then◌else◌, length, drop, is_empty,
}
use xenolith.Text.{Text}
use xenolith.Chars.{is_char}
use xenolith.Scan.{byte_len, len_utf8}
use xenolith.Detect.{Detection, Detected, determined, incomplete, detect, or_default}
use xenolith.Decl
use xenolith.Decl.{text_declaration_span, present, absent, need_more}
use xenolith.Location.{Location, new_location, advance_over}

pub data StreamError : Type 0 where
  internal bad_encoding bad_character bad_declaration : StreamError

pub data Result {ℓ} (A : Type ℓ) : Type ℓ where
  ok : A → Result A
  err : StreamError → Result A

abbrev pub and_then {ℓ κ} : {A : Type ℓ} {B : Type κ} → (A → Result B) → Result A → Result B
and_then f (ok a) = f a
and_then f (err e) = err e

pub data State (D : Type 0) : Type 0 where
  sniffing : List ℕ → State D
  decoding : D → State D

pub record CharStream (D : Type 0) : Type 0 where
  pub state : State D
  pub encoding : Option Text
  pub before : Text
  pub rest : Text
  pub pending : List ℕ
  pub after_cr : Bool
  pub finished : Bool
  pub chars_appended : ℕ
  pub bytes_decoded : ℕ
  pub at : Location

abbrev pub sniff_limit : ℕ
sniff_limit = 256

abbrev pub compact_threshold : ℕ
compact_threshold = 8192

abbrev pub max_pending : ℕ
max_pending = 16

-- The rest split after so many bytes; not within a character, and not beyond the end.
abbrev pub split_bytes : ℕ → Text → Option (Text × Text)
split_bytes zero s = some ([], s)
split_bytes (suc n) [] = none
split_bytes (suc n) (c ∷ s) =
    if ltb (suc n) (len_utf8 c) then none else elim (split_bytes (suc n - len_utf8 c) s) [
      | none ↦ none
      | some (front, back) ↦ some (c ∷ front, back)
    ]

-- The first so many characters, or all, and the rest.
abbrev pub split_chars : ℕ → Text → Text × Text
split_chars zero s = ([], s)
split_chars (suc n) [] = ([], [])
split_chars (suc n) (c ∷ s) = let (front, back) = split_chars n s in (c ∷ front, back)

module _ {D : Type 0} where
  abbrev pub new_stream : CharStream D
  new_stream = record {
    state = sniffing [];
    encoding = none;
    before = [];
    rest = [];
    pending = [];
    after_cr = false;
    finished = false;
    chars_appended = 0;
    bytes_decoded = 0;
    at = new_location;
  }

  -- The loop of `append`.
  unfoldable pub append : Text → CharStream D → Result (CharStream D)
  append [] stream = ok stream
  append (c ∷ s) stream =
      if stream.after_cr && c == 10
      then append s (record stream { after_cr = false })
      else let d = if c == 13 then 10 else c in
        if not (is_char d)
        then err bad_character
        else append s (record stream {
          after_cr = c == 13;
          rest = stream.rest ++ d ∷ [];
          chars_appended = stream.chars_appended + 1;
        })

  unfoldable pub compact : CharStream D → CharStream D
  compact stream =
      let start = byte_len stream.before in
      let held = start + byte_len stream.rest in
      if leb compact_threshold start && leb held (start * 2)
      then record stream { before = [] }
      else stream

  -- The text that is consumed, and the rest.
  abbrev pub consume : Text → Text → CharStream D → CharStream D
  consume front back stream = compact (record stream {
    at = advance_over front stream.at;
    before = stream.before ++ front;
    rest = back;
  })

  -- A panic where the bytes go beyond the rest, or end within a character.
  unfoldable pub advance : ℕ → CharStream D → Option (CharStream D)
  advance len stream = elim (split_bytes len stream.rest) [
    | none ↦ none
    | some (front, back) ↦ some (consume front back stream)
  ]

  unfoldable pub advance_chars : ℕ → CharStream D → CharStream D
  advance_chars count stream =
      let (front, back) = split_chars count stream.rest in consume front back stream

  -- `strip_text_declaration` of decl.rs; a panic of `advance` is `none` here.
  unfoldable pub strip_text_declaration : CharStream D → Option (Result (CharStream D))
  strip_text_declaration stream = elim (text_declaration_span stream.rest true) [
    | Decl.err e ↦ some (err bad_declaration)
    | Decl.ok absent ↦ some (ok stream)
    | Decl.ok need_more ↦ some (err internal)
    | Decl.ok (present len) ↦ elim (advance len stream) [
      | none ↦ none
      | some stream' ↦ some (ok stream')
    ]
  ]

  abbrev pub is_fully_read : CharStream D → Bool
  is_fully_read stream = stream.finished && is_empty stream.rest

-- The bytes carried over and the new ones as one slice.
abbrev pub whole_input : List ℕ → List ℕ → List ℕ
whole_input [] bytes = bytes
whole_input (b ∷ pending) bytes = b ∷ pending ++ bytes

module _ {D : Type 0} where
  -- `decode` once the decoder has taken its bytes.
  abbrev pub decoded :
      CharStream D → List ℕ → Bool → Option (ℕ × (Text × D)) → Result (CharStream D)
  decoded stream input last none = err bad_encoding
  decoded stream input last (some (taken, (s, decoder))) =
      let left = drop taken input in
      if last && not (is_empty left)
      then err bad_encoding
      else if ltb max_pending (length left)
      then err bad_encoding
      else append s (record stream {
        state = decoding decoder;
        pending = left;
        bytes_decoded = stream.bytes_decoded + taken;
        finished = last;
      })

-- What the decoder does is `decode_with`.
module _ {D : Type 0} (decode_with : D → List ℕ → Bool → Option (ℕ × (Text × D))) where
  unfoldable pub decode : List ℕ → Bool → CharStream D → Result (CharStream D)
  decode bytes last stream = elim stream.state [
    | sniffing _ ↦ err internal
    | decoding decoder ↦
        let input = whole_input stream.pending bytes in
        decoded stream input last (decode_with decoder input last)
  ]

-- What the decoders of the process do.
module _ {D : Type 0} (decode_with : D → List ℕ → Bool → Option (ℕ × (Text × D)))
    (name_of : D → Text) (decoder_for : Text → Option D) where
  unfoldable pub start_decoding : D → List ℕ → Bool → CharStream D → Result (CharStream D)
  start_decoding decoder bytes last stream =
      decode decode_with bytes last
        (record stream { encoding = some (name_of decoder); state = decoding decoder })

  abbrev pub is_incomplete : Detected → Bool
  is_incomplete incomplete = true
  is_incomplete (determined _) = false

  -- The stream while the encoding is open.
  abbrev pub sniff : List ℕ → Bool → CharStream D → Result (CharStream D)
  sniff sniffed last stream =
      let detected = detect sniffed in
      let detection = or_default detected in
      if is_incomplete detected && (not last && ltb (length sniffed) sniff_limit)
      then ok (record stream { state = sniffing sniffed })
      else elim (decoder_for detection.encoding) [
        | none ↦ err bad_encoding
        | some decoder ↦ start_decoding decoder (drop detection.bom_length sniffed) last stream
      ]

  unfoldable pub feed_bytes : List ℕ → Bool → CharStream D → Result (CharStream D)
  feed_bytes bytes last stream = if stream.finished then err internal else elim stream.state [
    | sniffing sniffed ↦ sniff (sniffed ++ bytes) last stream
    | decoding _ ↦ decode decode_with bytes last stream
  ]

  unfoldable pub feed : List ℕ → Bool → CharStream D → Result (ℕ × CharStream D)
  feed bytes last stream =
      and_then (λ (after : CharStream D). ok (after.chars_appended - stream.chars_appended, after))
        (feed_bytes bytes last stream)

  unfoldable pub use_encoding : Text → CharStream D → Result (CharStream D)
  use_encoding encoding stream = elim stream.state [
    | decoding _ ↦ err internal
    | sniffing sniffed ↦ elim (decoder_for encoding) [
      | none ↦ err bad_encoding
      | some decoder ↦ start_decoding decoder sniffed false stream
    ]
  ]

  unfoldable pub with_encoding : Text → Result (CharStream D)
  with_encoding encoding = elim (decoder_for encoding) [
    | none ↦ err bad_encoding
    | some decoder ↦
        ok (record new_stream { encoding = some (name_of decoder); state = decoding decoder })
  ]

  -- `NoDecoder` is the decoder of a stream that takes no bytes.
  unfoldable pub from_text : D → Text → Result (CharStream D)
  from_text no_decoder s =
      and_then (λ (stream : CharStream D). ok (record stream { finished = true }))
        (append s (record new_stream { state = decoding no_decoder }))
