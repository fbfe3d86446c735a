-- ===== src/Name/Handles.antt =====
-- A handle keeps its name: crates/xenolith/src/name.rs, `intern`, `resolve` and `fork`.
use xenolith.Common.{
  ℕ, ◌≤◌, ◌<◌, ◌≡◌, refl, sym, subst, ◌⊎◌, List, [], ◌∷◌, ◌++◌, Option, none, some, arith, ltb,
  length, get_or, length-append, get_or-append_left, get_or-append_last, Bool-cases, Option-cases,
  inl, inr,
}
use xenolith.Text.{Text, eq_text, eq_text_iff}
use xenolith.Name.{
  NameId, NamePool, lookup, next_index, find_origin, origin, intern, intern_all, new_pool, owns,
  resolve, last_end, fork, reserved_names,
}

-- The map gives the place of every name that it has, and the pools of the lineage end within the
-- names that there are.
abbrev AllBelow : List (ℕ × ℕ) → ℕ → Type 0
AllBelow [] n = Unit
AllBelow ((pool, end) ∷ rest) n = (end ≤ n) × AllBelow rest n

pub record IsConsistent (pool : NamePool) : Type 0 where
  pub found :
      (name : Text) (i : ℕ)
      → lookup name pool.index ≡ some i
      → (i < length pool.names) × (get_or pool.names i [] ≡ name)
  pub ends : AllBelow pool.lineage (length pool.names)

AllBelow-le : (l : List (ℕ × ℕ)) (m n : ℕ) → m ≤ n → AllBelow l m → AllBelow l n
AllBelow-le [] m n h a = tt
AllBelow-le ((pool, end) ∷ rest) m n h a = (omega arith, AllBelow-le rest m n h a.1)

find_origin-above : (l : List (ℕ × ℕ)) (id i : ℕ) → AllBelow l i → find_origin l id i ≡ id
find_origin-above [] id i a = refl
find_origin-above ((pool, end) ∷ rest) id i a = ground (arith, find_origin-above rest id i a.1)

-- A new name that fits.
abbrev pub added : Text → NamePool → NamePool
added name pool = record pool {
  names = pool.names ++ name ∷ [];
  index = (name, length pool.names) ∷ pool.index;
}

added-IsConsistent :
    (name : Text) (pool : NamePool) → IsConsistent pool → IsConsistent (added name pool)
added-IsConsistent name pool good = record {
  found = λ other i h. ground (
    arith,
    good.found other i,
    length-append pool.names (name ∷ []),
    get_or-append_left pool.names (name ∷ []) i [],
    get_or-append_last pool.names name [],
    eq_text_iff name other,
  );
  ends =
      AllBelow-le pool.lineage (length pool.names) (length (pool.names ++ name ∷ []))
        (omega (arith, length-append pool.names (name ∷ []))) good.ends;
}

-- What a call that interned `name` gives.
abbrev pub Interns : Text → NamePool → Option NameId × NamePool → Type 0
Interns name pool (none, pool') = pool' ≡ pool
Interns name pool (some id, pool') =
    (resolve pool' id ≡ some name)
    × IsConsistent pool'
    × ((old : NameId) (s : Text) → resolve pool old ≡ some s → resolve pool' old ≡ some s)

resolve-added :
    (name : Text) (pool : NamePool) (old : NameId) (s : Text)
    → resolve pool old ≡ some s
    → resolve (added name pool) old ≡ some s
unfolding resolve owns origin
resolve-added name pool old s h = ground (
  arith,
  get_or-append_left pool.names (name ∷ []) old.index [],
  length-append pool.names (name ∷ []),
)

resolve-found :
    (name : Text) (i : ℕ) (pool : NamePool)
    → IsConsistent pool
    → lookup name pool.index ≡ some i
    → resolve pool (record { pool = origin pool i; index = i }) ≡ some name
unfolding resolve owns
resolve-found name i pool good e = ground (arith, good.found name i e)

resolve-new :
    (name : Text) (pool : NamePool)
    → IsConsistent pool
    → resolve (added name pool) (record { pool = pool.id; index = length pool.names }) ≡ some name
unfolding resolve owns origin
resolve-new name pool good = ground (
  arith,
  length-append pool.names (name ∷ []),
  get_or-append_last pool.names name [],
  find_origin-above pool.lineage pool.id (length pool.names) good.ends,
)

next_index-held : (held i : ℕ) → next_index held ≡ some i → i ≡ held
unfolding next_index
next_index-held held i h = ground arith

-- The three ways a call ends: the name is there, the pool is full, or the name is new.
intern_cases :
    (name : Text) (pool : NamePool)
    → ((i : ℕ) × (lookup name pool.index ≡ some i)
        × (intern name pool ≡ (some (record { pool = origin pool i; index = i }), pool)))
      ⊎ (intern name pool ≡ (none, pool))
      ⊎ (intern name pool
          ≡ (some (record { pool = pool.id; index = length pool.names }), added name pool))
unfolding intern
intern_cases name pool = elim (Option-cases (lookup name pool.index)) [
  | inr (i, e) ↦ inl (i, e, rw (intern, e) refl)
  | inl e ↦ elim (Option-cases (next_index (length pool.names))) [
    | inl d ↦ inr (inl (rw (intern, e, d) refl))
    | inr (i, d) ↦ inr (inr (rw (intern, e, d, next_index-held (length pool.names) i d) refl))
  ]
]

-- A name that goes into a consistent pool comes back from its handle, every older handle still gives
-- its own name, and the pool stays consistent. Where the pool is full, it is left as it was.
pub intern-Interns :
    (name : Text) (pool : NamePool) → IsConsistent pool → Interns name pool (intern name pool)
intern-Interns name pool good = elim (intern_cases name pool) [
  | inl (i, e, same) ↦
      subst (Interns name pool) (sym same) (resolve-found name i pool good e, good, λ old s h. h)
  | inr (inl same) ↦ subst (Interns name pool) (sym same) refl
  | inr (inr same) ↦
      subst (Interns name pool) (sym same)
        (resolve-new name pool good, added-IsConsistent name pool good, resolve-added name pool)
]

last_end-below :
    (l : List (ℕ × ℕ)) (end i : ℕ) (id id' : ℕ)
    → last_end l ≡ some end
    → i < end
    → find_origin l id i ≡ find_origin l id' i
last_end-below [] end i id id' h k = cc
last_end-below ((pool, e) ∷ []) end i id id' h k = ground arith
last_end-below ((pool, e) ∷ next ∷ rest) end i id id' h k =
    ground (arith, last_end-below (next ∷ rest) end i id id')

find_origin-append :
    (l : List (ℕ × ℕ)) (own held id i : ℕ)
    → i < held
    → find_origin (l ++ (own, held) ∷ []) id i ≡ find_origin l own i
find_origin-append [] own held id i h = ground arith
find_origin-append ((pool, e) ∷ rest) own held id i h =
    ground (arith, find_origin-append rest own held id i h)

fork-origin :
    (id : ℕ) (pool : NamePool) (i : ℕ)
    → i < length pool.names
    → origin (fork id pool) i ≡ origin pool i
unfolding fork origin
fork-origin id pool i h = elim (Option-cases (last_end pool.lineage)) [
  | inl e ↦ rw e (find_origin-append pool.lineage pool.id (length pool.names) id i h)
  | inr (end, e) ↦ elim (Bool-cases (ltb end (length pool.names))) [
    | inl k ↦ rw (e, k) (find_origin-append pool.lineage pool.id (length pool.names) id i h)
    | inr k ↦ rw (e, k) (last_end-below pool.lineage end i id pool.id e (ground arith))
  ]
]

names-fork : (id : ℕ) (pool : NamePool) → (fork id pool).names ≡ pool.names
unfolding fork
names-fork id pool = refl

resolve-fork :
    (id : ℕ) (pool : NamePool) (old : NameId) (s : Text)
    → resolve pool old ≡ some s
    → resolve (fork id pool) old ≡ some s
unfolding resolve owns
resolve-fork id pool old s h =
    let names : (fork id pool).names ≡ pool.names = names-fork id pool in
    rw names (ground (arith, fork-origin id pool old.index))

intern-resolve :
    (name : Text) (pool : NamePool) (old : NameId) (s : Text)
    → resolve pool old ≡ some s
    → resolve (intern name pool).1 old ≡ some s
intern-resolve name pool old s h = elim (intern_cases name pool) [
  | inl (i, e, same) ↦ rw same h
  | inr (inl same) ↦ rw same h
  | inr (inr same) ↦ rw same (resolve-added name pool old s h)
]

intern_all-resolve :
    (names : List Text) (pool : NamePool) (old : NameId) (s : Text)
    → resolve pool old ≡ some s
    → resolve (intern_all names pool) old ≡ some s
unfolding intern_all
intern_all-resolve [] pool old s h = h
intern_all-resolve (name ∷ names) pool old s h =
    intern_all-resolve names (intern name pool).1 old s (intern-resolve name pool old s h)

-- Every handle of a pool gives the same name in a fork of it, whatever names the fork takes in later.
pub resolve-intern_all-fork :
    (id : ℕ) (pool : NamePool) (names : List Text) (old : NameId) (s : Text)
    → resolve pool old ≡ some s
    → resolve (intern_all names (fork id pool)) old ≡ some s
resolve-intern_all-fork id pool names old s h =
    intern_all-resolve names (fork id pool) old s (resolve-fork id pool old s h)

intern-IsConsistent :
    (name : Text) (pool : NamePool) → IsConsistent pool → IsConsistent (intern name pool).1
intern-IsConsistent name pool good = elim (intern_cases name pool) [
  | inl (i, e, same) ↦ rw same good
  | inr (inl same) ↦ rw same good
  | inr (inr same) ↦ rw same (added-IsConsistent name pool good)
]

intern_all-IsConsistent :
    (names : List Text) (pool : NamePool) → IsConsistent pool → IsConsistent (intern_all names pool)
unfolding intern_all
intern_all-IsConsistent [] pool good = good
intern_all-IsConsistent (name ∷ names) pool good =
    intern_all-IsConsistent names (intern name pool).1 (intern-IsConsistent name pool good)

abbrev empty_pool : ℕ → NamePool
empty_pool id = record { id = id; lineage = []; names = []; index = [] }

length-reserved : (id : ℕ) → length (intern_all reserved_names (empty_pool id)).names ≡ 5
unfolding intern_all intern next_index eq_text
length-reserved id = refl

pub new_pool-IsConsistent : (id : ℕ) → IsConsistent (new_pool id)
unfolding new_pool intern_all intern next_index eq_text
new_pool-IsConsistent id =
    let good =
      intern_all-IsConsistent reserved_names (empty_pool id)
        (record { found = λ name i h. cc; ends = tt }) in
    record { found = good.found; ends = (rw (length-reserved id) (omega arith), tt) }
