-- ===== src/Namespace/Tests.antt =====
-- Namespace scopes at concrete inputs, and the theorem applied there. The names are numbers: 1 is
-- `xml`, 2 its namespace.
use xenolith.Common.{ℕ, ◌≡◌, refl, Option, none, some, List, [], ◌∷◌}
use xenolith.Namespace.{NamespaceScope, new_scope, mark, revert, bind, resolve}
use xenolith.Namespace.Scoping.{bind_all, declared, resolve-revert}

abbrev outer : NamespaceScope
outer = new_scope 1 2

abbrev declarations : List (Option ℕ × Option ℕ)
declarations = (none, some 7) ∷ (some 3, some 8) ∷ (none, none) ∷ []

resolve-undeclared : resolve none (bind_all declarations outer) ≡ none
unfolding resolve bind
resolve-undeclared = refl

resolve-revert_example :
    ((prefix : Option ℕ)
      → resolve prefix (bind_all declarations outer)
        ≡ declared declarations prefix (resolve prefix outer))
    × (revert (mark outer) (bind_all declarations outer) ≡ outer)
resolve-revert_example = resolve-revert declarations outer
