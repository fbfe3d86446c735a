-- ===== src/Namespace/Scoping.antt =====
-- The scope of a namespace declaration: crates/xenolith/src/io/parse/namespace.rs.
use xenolith.Common.{
  ℕ, suc, ◌-◌, ◌≡◌, ◌≤◌, refl, ◌∙◌, ap, List, [], ◌∷◌, Option, arith, if◌then◌else◌,
}
use xenolith.Namespace.{NamespaceScope, same_prefix, mark, revert, bind, resolve}

-- The declarations of a start tag, bound one after the other.
abbrev pub bind_all : List (Option ℕ × Option ℕ) → NamespaceScope → NamespaceScope
bind_all [] scope = scope
bind_all ((prefix, namespace) ∷ declarations) scope =
    bind_all declarations (bind prefix namespace scope)

-- What the declarations of a start tag bind a prefix to: the last of them decides.
abbrev pub declared : List (Option ℕ × Option ℕ) → Option ℕ → Option ℕ → Option ℕ
declared [] prefix outer = outer
declared ((p, namespace) ∷ declarations) prefix outer =
    declared declarations prefix (if same_prefix p prefix then namespace else outer)

resolve-bind :
    (p namespace prefix : Option ℕ) (scope : NamespaceScope)
    → resolve prefix (bind p namespace scope)
      ≡ (if same_prefix p prefix then namespace else resolve prefix scope)
unfolding resolve bind
resolve-bind p namespace prefix scope = refl

resolve-bind_all :
    (declarations : List (Option ℕ × Option ℕ)) (prefix : Option ℕ) (scope : NamespaceScope)
    → resolve prefix (bind_all declarations scope)
      ≡ declared declarations prefix (resolve prefix scope)
resolve-bind_all [] prefix scope = refl
resolve-bind_all ((p, namespace) ∷ declarations) prefix scope =
    resolve-bind_all declarations prefix (bind p namespace scope)
    ∙ ap (declared declarations prefix) (resolve-bind p namespace prefix scope)

revert-bind :
    (n : ℕ) (p namespace : Option ℕ) (scope : NamespaceScope)
    → n ≤ mark scope
    → revert n (bind p namespace scope) ≡ revert n scope
unfolding revert bind
revert-bind n p namespace scope h =
    let less : suc (mark scope) - n ≡ suc (mark scope - n) = omega arith in rw less refl

revert-bind_all :
    (declarations : List (Option ℕ × Option ℕ)) (n : ℕ) (scope : NamespaceScope)
    → n ≤ mark scope
    → revert n (bind_all declarations scope) ≡ revert n scope
revert-bind_all [] n scope h = refl
revert-bind_all ((p, namespace) ∷ declarations) n scope h =
    revert-bind_all declarations n (bind p namespace scope) (unfold bind in omega arith)
    ∙ revert-bind n p namespace scope h

revert-mark : (scope : NamespaceScope) → revert (mark scope) scope ≡ scope
unfolding revert
revert-mark scope = let none_over : mark scope - mark scope ≡ 0 = omega arith in rw none_over refl

-- Within an element a prefix, or the default namespace, resolves to what the last declaration of it
-- on the start tag binds, and else to what it resolves to outside; reverting to the mark that was
-- taken before the declarations gives the scope outside again.
pub resolve-revert :
    (declarations : List (Option ℕ × Option ℕ)) (scope : NamespaceScope)
    → ((prefix : Option ℕ)
        → resolve prefix (bind_all declarations scope)
          ≡ declared declarations prefix (resolve prefix scope))
      × (revert (mark scope) (bind_all declarations scope) ≡ scope)
resolve-revert declarations scope = (
  λ prefix. resolve-bind_all declarations prefix scope,
  revert-bind_all declarations (mark scope) scope (omega arith) ∙ revert-mark scope,
)
