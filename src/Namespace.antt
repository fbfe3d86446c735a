-- ===== src/Namespace.antt =====
-- The namespace bindings in scope while parsing: crates/xenolith/src/io/parse/namespace.rs. The vector
-- of bindings is the list of them, the innermost first. A name of the pool is its index.
mod Scoping
mod Tests
use xenolith.Common.{
  ℕ, zero, suc, ◌+◌, ◌-◌, Bool, true, false, List, [], ◌∷◌, ◌++◌, Option, none, some, ◌==◌,
  if◌then◌else◌, length, drop,
}

pub record Binding : Type 0 where
  pub prefix : Option ℕ
  pub namespace : Option ℕ

pub record NamespaceScope : Type 0 where
  pub bindings : List Binding

abbrev pub same_prefix : Option ℕ → Option ℕ → Bool
same_prefix none none = true
same_prefix (some p) (some q) = p == q
same_prefix _ _ = false

-- The indices of the names `xml` and of its namespace, which the pool begins with.
module _ (xml xml_ns : ℕ) where
  abbrev pub new_scope : NamespaceScope
  new_scope = record { bindings = record { prefix = some xml; namespace = some xml_ns } ∷ [] }

abbrev pub mark : NamespaceScope → ℕ
mark scope = length scope.bindings

-- `truncate`: the bindings beyond the first `mark`, which are the innermost, go.
unfoldable pub revert : ℕ → NamespaceScope → NamespaceScope
revert mark scope = record { bindings = drop (length scope.bindings - mark) scope.bindings }

unfoldable pub bind : Option ℕ → Option ℕ → NamespaceScope → NamespaceScope
bind prefix namespace scope = record {
  bindings = record { prefix = prefix; namespace = namespace } ∷ scope.bindings;
}

abbrev find_binding : Option ℕ → List Binding → Option ℕ
find_binding prefix [] = none
find_binding prefix (b ∷ bindings) =
    if same_prefix b.prefix prefix then b.namespace else find_binding prefix bindings

unfoldable pub resolve : Option ℕ → NamespaceScope → Option ℕ
resolve prefix scope = find_binding prefix scope.bindings
