-- ===== src/Utf8.antt =====
-- `str::from_utf8` of Rust's standard library, which crates/xenolith/src/io/encoding/detect.rs calls on
-- the value of a declaration.
use xenolith.Common.{
  ℕ, zero, suc, ◌+◌, ◌-◌, ◌*◌, List, [], ◌∷◌, Option, none, some, ◌==◌, ltb, within, if◌then◌else◌,
}
use xenolith.Text.{Text}

-- What follows a first byte: how many bytes, the range of the next, and the bits so far.
pub record Sequence : Type 0 where
  pub left : ℕ
  pub low : ℕ
  pub high : ℕ
  pub bits : ℕ

abbrev sequence : ℕ → ℕ → ℕ → ℕ → Sequence
sequence left low high bits = record { left = left; low = low; high = high; bits = bits }

-- By the table of well-formed sequences: none too long, no surrogate, none beyond U+10FFFF.
abbrev pub first_byte : ℕ → Option Sequence
first_byte b =
    if ltb b 0x80
    then some (sequence 0 0 0 b)
    else if within 0xC2 0xDF b
    then some (sequence 1 0x80 0xBF (b - 0xC0))
    else if b == 0xE0
    then some (sequence 2 0xA0 0xBF 0)
    else if b == 0xED
    then some (sequence 2 0x80 0x9F 13)
    else if within 0xE1 0xEF b
    then some (sequence 2 0x80 0xBF (b - 0xE0))
    else if b == 0xF0
    then some (sequence 3 0x90 0xBF 0)
    else if within 0xF1 0xF3 b
    then some (sequence 3 0x80 0xBF (b - 0xF0))
    else if b == 0xF4
    then some (sequence 3 0x80 0x8F 4)
    else none

-- A character once its last byte has been read.
abbrev pub push_complete : ℕ → ℕ → Option Text → Option Text
push_complete left c none = none
push_complete zero c (some s) = some (c ∷ s)
push_complete (suc left) c (some s) = some s

unfoldable pub utf8_loop : ℕ → ℕ → ℕ → ℕ → List ℕ → Option Text
utf8_loop zero low high bits [] = some []
utf8_loop (suc left) low high bits [] = none
utf8_loop zero low high bits (b ∷ bytes) = elim (first_byte b) [
  | none ↦ none
  | some s ↦ push_complete s.left s.bits (utf8_loop s.left s.low s.high s.bits bytes)
]
utf8_loop (suc left) low high bits (b ∷ bytes) =
    let more = bits * 64 + (b - 0x80) in
    let rest = utf8_loop left 0x80 0xBF more bytes in
    if within low high b then push_complete left more rest else none

unfoldable pub from_utf8 : List ℕ → Option Text
from_utf8 bytes = utf8_loop 0 0 0 0 bytes
