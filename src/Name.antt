-- ===== src/Name.antt =====
-- Interned names: crates/xenolith/src/name.rs. A pool holds each name once, and the handle of a name
-- carries the pool that it first went into. The identity of a new pool comes from a counter of the
-- process, and is an argument here.
pub mod Handles
mod Tests
use xenolith.Common.{
  ℕ, ◌+◌, ◌-◌, ◌^◌, Bool, true, false, not, ◌&&◌, ◌||◌, List, [], ◌∷◌, ◌++◌, Option, none, some,
  ◌==◌, ltb, leb, if◌then◌else◌, length, get_or,
}
use xenolith.Text.{Text, codes, eq_text}
use xenolith.Chars.{is_ncname}

pub record NameId : Type 0 where
  pub pool : ℕ
  pub index : ℕ

pub record NamePool : Type 0 where
  pub id : ℕ
  pub lineage : List (ℕ × ℕ)
  pub names : List Text
  pub index : List (Text × ℕ)

abbrev pub reserved_names : List Text
reserved_names =
    []
    ∷ codes "xml"
    ∷ codes "xmlns"
    ∷ codes "http://www.w3.org/XML/1998/namespace"
    ∷ codes "http://www.w3.org/2000/xmlns/"
    ∷ []

abbrev pub root : ℕ
root = 1

abbrev pub reserved : ℕ → NameId
reserved i = record { pool = root; index = i }

-- The map `index`.
abbrev pub lookup : Text → List (Text × ℕ) → Option ℕ
lookup name [] = none
lookup name ((key, i) ∷ rest) = if eq_text key name then some i else lookup name rest

-- `u32::try_from(held).ok().filter(|&index| index < u32::MAX - 1)`
unfoldable pub next_index : ℕ → Option ℕ
next_index held = if ltb held (2 ^ 32) && ltb held (2 ^ 32 - 2) then some held else none

-- `find` on the lineage.
abbrev pub find_origin : List (ℕ × ℕ) → ℕ → ℕ → ℕ
find_origin [] id i = id
find_origin ((pool, end) ∷ rest) id i = if ltb i end then pool else find_origin rest id i

unfoldable pub origin : NamePool → ℕ → ℕ
origin pool i = find_origin pool.lineage pool.id i

-- A pool that is full fails.
unfoldable pub intern : Text → NamePool → Option NameId × NamePool
intern name pool = elim (lookup name pool.index) [
  | some i ↦ (some (record { pool = origin pool i; index = i }), pool)
  | none ↦ elim (next_index (length pool.names)) [
    | none ↦ (none, pool)
    | some i ↦ (
      some (record { pool = pool.id; index = i }),
      record pool { names = pool.names ++ name ∷ []; index = (name, i) ∷ pool.index },
    )
  ]
]

unfoldable pub intern_all : List Text → NamePool → NamePool
intern_all [] pool = pool
intern_all (name ∷ rest) pool = intern_all rest (intern name pool).1

unfoldable pub new_pool : ℕ → NamePool
new_pool id =
    let pool =
      intern_all reserved_names (record { id = id; lineage = []; names = []; index = [] }) in
    record pool { lineage = pool.lineage ++ (root, length reserved_names) ∷ [] }

unfoldable pub get : Text → NamePool → Option NameId
get name pool = elim (lookup name pool.index) [
  | some i ↦ some (record { pool = origin pool i; index = i })
  | none ↦ none
]

unfoldable pub owns : NamePool → NameId → Bool
owns pool id = ltb id.index (length pool.names) && id.pool == origin pool id.index

unfoldable pub resolve : NamePool → NameId → Option Text
resolve pool id = if owns pool id then some (get_or pool.names id.index []) else none

-- The end of the last pool of the lineage.
abbrev pub last_end : List (ℕ × ℕ) → Option ℕ
last_end [] = none
last_end ((pool, end) ∷ []) = some end
last_end ((pool, end) ∷ next ∷ rest) = last_end (next ∷ rest)

-- `is_none_or(|&(_, end)| end < held)`
abbrev pub holds_own : Option ℕ → ℕ → Bool
holds_own none held = true
holds_own (some end) held = ltb end held

unfoldable pub fork : ℕ → NamePool → NamePool
fork id pool =
    let held = length pool.names in
    let lineage =
      if holds_own (last_end pool.lineage) held
      then pool.lineage ++ (pool.id, held) ∷ []
      else pool.lineage in
    record pool { id = id; lineage = lineage }

unfoldable pub intern_ncname : Text → NamePool → Option NameId × NamePool
intern_ncname name pool = if is_ncname name then intern name pool else (none, pool)

unfoldable pub is_empty : NamePool → Bool
is_empty pool = leb (length pool.names) (length reserved_names)
