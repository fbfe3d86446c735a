-- ===== src/Location.antt =====
-- Where a reader is in an entity: `Location` of crates/xenolith/src/error.rs.
use xenolith.Common.{ℕ, ◌+◌, Bool, ◌&&◌, [], ◌∷◌, Option, none, ◌==◌, if◌then◌else◌}
use xenolith.Text.{Text}

pub record Location : Type 0 where
  pub system_id : Option Text
  pub public_id : Option Text
  pub line : ℕ
  pub column : ℕ
  pub offset : ℕ

abbrev pub new_location : Location
new_location = record { system_id = none; public_id = none; line = 1; column = 1; offset = 0 }

unfoldable pub is_unknown : Location → Bool
is_unknown at = at.line == 0 && (at.column == 0 && at.offset == 0)

unfoldable pub advance_char : ℕ → Location → Location
advance_char c at =
    if is_unknown at
    then at
    else if c == 10
    then record at { line = at.line + 1; column = 1; offset = at.offset + 1 }
    else record at { column = at.column + 1; offset = at.offset + 1 }

abbrev pub advance_each : Text → Location → Location
advance_each [] at = at
advance_each (c ∷ s) at = advance_each s (advance_char c at)

unfoldable pub advance_over : Text → Location → Location
advance_over s at = if is_unknown at then at else advance_each s at
