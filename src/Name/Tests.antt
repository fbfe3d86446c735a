-- ===== src/Name/Tests.antt =====
-- Runs of a name pool: crates/xenolith/src/name.rs.
use xenolith.Common.{◌≡◌, refl, [], ◌∷◌, some, none}
use xenolith.Text.{codes, eq_text}
use xenolith.Name.{
  new_pool, intern, intern_all, get, resolve, owns, origin, fork, next_index, reserved,
}
use xenolith.Name.Handles.{Interns, intern-Interns, resolve-intern_all-fork, new_pool-IsConsistent}

get-reserved : get (codes "xml") (new_pool 9) ≡ some (reserved 1)
unfolding get new_pool intern_all intern next_index eq_text origin
get-reserved = refl

get_missing : get (codes "a") (new_pool 9) ≡ none
unfolding get new_pool intern_all intern next_index eq_text
get_missing = refl

-- A name that the fork takes in is not one of the pool that it comes from.
alien : resolve (new_pool 9) (record { pool = 10; index = 5 }) ≡ none
unfolding resolve owns origin new_pool intern_all intern next_index eq_text
alien = refl

intern-Interns_example : Interns (codes "a") (new_pool 9) (intern (codes "a") (new_pool 9))
intern-Interns_example = intern-Interns (codes "a") (new_pool 9) (new_pool-IsConsistent 9)

xml_name : resolve (new_pool 9) (reserved 1) ≡ some (codes "xml")
unfolding resolve owns origin new_pool intern_all intern next_index eq_text
xml_name = refl

resolve-intern_all-fork_example :
    resolve (intern_all (codes "a" ∷ codes "b" ∷ []) (fork 10 (new_pool 9))) (reserved 1)
    ≡ some (codes "xml")
resolve-intern_all-fork_example =
    resolve-intern_all-fork 10 (new_pool 9) (codes "a" ∷ codes "b" ∷ []) (reserved 1) (codes "xml")
      xml_name
