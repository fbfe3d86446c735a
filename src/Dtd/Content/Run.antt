-- ===== src/Dtd/Content/Run.antt =====
-- Running a compiled content model over child names, and the determinism test: the second half of
-- crates/xenolith/src/dtd/validate/content.rs.
use xenolith.Common.{
  ℕ, Bool, true, false, not, List, [], ◌∷◌, ◌++◌, Option, none, some, map, ◌==◌, leb, if◌then◌else◌,
  get_or, is_empty, contains, keep, any, all,
}
use xenolith.Dtd.Content.{ContentModel}

-- `self.symbols[p]` and `self.follow[p]`. The indices are in range in a compiled model (`Build`).
abbrev pub symbol : ContentModel → ℕ → ℕ
symbol model p = get_or model.symbols p 0

abbrev pub follows : ContentModel → ℕ → List ℕ
follows model p = get_or model.follow p []

-- `sort_unstable` on numbers, where equal keys are equal values.
unfoldable pub sort_insert : ℕ → List ℕ → List ℕ
sort_insert x [] = x ∷ []
sort_insert x (y ∷ ys) = if leb x y then x ∷ y ∷ ys else y ∷ sort_insert x ys

unfoldable pub sort : List ℕ → List ℕ
sort [] = []
sort (x ∷ xs) = sort_insert x (sort xs)

-- `Vec::dedup`: of equal neighbours the first is kept.
unfoldable pub dedup_after : ℕ → List ℕ → List ℕ
dedup_after x [] = []
dedup_after x (y ∷ ys) = if y == x then dedup_after x ys else y ∷ dedup_after y ys

unfoldable pub dedup_adjacent : List ℕ → List ℕ
dedup_adjacent [] = []
dedup_adjacent (x ∷ xs) = x ∷ dedup_after x xs

unfoldable pub dedup : List ℕ → List ℕ
dedup positions = dedup_adjacent (sort positions)

unfoldable pub symbols_of : ContentModel → List ℕ → List ℕ
symbols_of model positions = dedup_adjacent (sort (map (symbol model) positions))

pub record MatchFailure : Type 0 where
  pub at : Option ℕ
  pub allowed : List ℕ

pub data MatchResult : Type 0 where
  ok : MatchResult
  err : MatchFailure → MatchResult

-- `active.iter().copied().filter(|&p| self.symbols[p] == child)`
unfoldable pub matching : ContentModel → ℕ → List ℕ → List ℕ
matching model child = keep (λ p. symbol model p == child)

-- `next.iter().flat_map(|&p| self.follow[p].iter().copied())`
unfoldable pub reachable : ContentModel → List ℕ → List ℕ
reachable model [] = []
reachable model (p ∷ next) = follows model p ++ reachable model next

-- After the loop: `accepts`, and the result.
unfoldable pub finish : ContentModel → Bool → List ℕ → List ℕ → MatchResult
finish model no_children active matched =
    if (if no_children then model.nullable else any (contains model.last) matched)
    then ok
    else err (record { at = none; allowed = symbols_of model active })

-- The loop of `matches` over the children left, then what follows it.
unfoldable pub run : ContentModel → Bool → List ℕ → List ℕ → List ℕ → MatchResult
run model no_children [] active matched = finish model no_children active matched
run model no_children (child ∷ children) active matched =
    let next = matching model child active in
    if is_empty next
    then err (record { at = some child; allowed = symbols_of model active })
    else run model no_children children (dedup (reachable model next)) next

unfoldable pub matches : ContentModel → List ℕ → MatchResult
matches model children = run model (is_empty children) children model.first []

unfoldable pub duplicate_after : List ℕ → List ℕ → List ℕ → Bool
duplicate_after symbols seen [] = false
duplicate_after symbols seen (p ∷ positions) =
    if contains seen (get_or symbols p 0)
    then true
    else duplicate_after symbols (seen ++ get_or symbols p 0 ∷ []) positions

unfoldable pub has_duplicate_symbol : List ℕ → List ℕ → Bool
has_duplicate_symbol positions symbols = duplicate_after symbols [] positions

unfoldable pub is_deterministic : ContentModel → Bool
is_deterministic model =
    if has_duplicate_symbol model.first model.symbols
    then false
    else all (λ targets. not (has_duplicate_symbol targets model.symbols)) model.follow
