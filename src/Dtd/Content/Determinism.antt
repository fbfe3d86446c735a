-- ===== src/Dtd/Content/Determinism.antt =====
-- `ContentModel::is_deterministic` (XML 1.0, appendix E).
use xenolith.Common.{
  ℕ, ◌+◌, ◌≤◌, ◌≡◌, refl, ◌↔◌, true, false, not, List, [], ◌∷◌, ◌++◌, arith, if◌then◌else◌,
  and-both, length, all, contains, contains-append, ==_iff, ==-self,
}
use xenolith.Dtd.Content.{ContentModel}
use xenolith.Dtd.Content.Run.{
  symbol, matching, duplicate_after, has_duplicate_symbol, is_deterministic,
}

-- At most one position of the set has any given name.
abbrev pub Unambiguous : ContentModel → List ℕ → Type 0
Unambiguous m positions = (c : ℕ) → length (matching m c positions) ≤ 1

abbrev pub AllUnambiguous : ContentModel → List (List ℕ) → Type 0
AllUnambiguous m [] = Unit {0}
AllUnambiguous m (targets ∷ follow) = Unambiguous m targets × AllUnambiguous m follow

abbrev seen_once : List ℕ → ℕ → ℕ
seen_once seen c = if contains seen c then 1 else 0

module _ (m : ContentModel) where
  no_duplicate :
      (positions seen : List ℕ)
      → duplicate_after m.symbols seen positions ≡ false
      → (c : ℕ) → seen_once seen c + length (matching m c positions) ≤ 1
  unfolding duplicate_after matching
  no_duplicate [] seen e c = ground arith
  no_duplicate (p ∷ positions) seen e c = ground (
    arith,
    no_duplicate positions (seen ++ symbol m p ∷ []) (ground arith) c,
    contains-append seen (symbol m p ∷ []) c,
    ==_iff (symbol m p) c,
  )

  duplicate-free :
      (positions seen : List ℕ)
      → ((c : ℕ) → seen_once seen c + length (matching m c positions) ≤ 1)
      → duplicate_after m.symbols seen positions ≡ false
  unfolding duplicate_after matching
  duplicate-free [] seen h = refl
  duplicate-free (p ∷ positions) seen h =
      let rest = duplicate-free positions (seen ++ symbol m p ∷ []) (λ c.
        ground (arith, h c, contains-append seen (symbol m p ∷ []) c, ==_iff (symbol m p) c)) in
      ground (arith, h (symbol m p), ==-self (symbol m p), rest)

  pub has_duplicate_symbol_lem :
      (positions : List ℕ)
      → (has_duplicate_symbol positions m.symbols ≡ false) ↔ Unambiguous m positions
  unfolding has_duplicate_symbol
  has_duplicate_symbol_lem positions = (
    λ e c. omega (arith, no_duplicate positions [] e c),
    λ h. duplicate-free positions [] (λ c. omega (arith, h c)),
  )

  all_follow :
      (follow : List (List ℕ))
      → (all (λ targets. not (has_duplicate_symbol targets m.symbols)) follow ≡ true)
        ↔ AllUnambiguous m follow
  all_follow [] = (λ e. tt, λ u. refl)
  all_follow (targets ∷ follow) = (
    λ e.
        let (a, b) = and-both _ _ e in
        ((has_duplicate_symbol_lem targets).0 (ground arith), (all_follow follow).0 b),
    λ (u, v). rw ((has_duplicate_symbol_lem targets).1 u) ((all_follow follow).1 v),
  )

  -- `is_deterministic` says that the next child always picks its position: at most one of the
  -- positions where a match may begin has any given name, and so for the positions that may follow
  -- any one position.
  pub is_deterministic_lem :
      (is_deterministic m ≡ true) ↔ (Unambiguous m m.first × AllUnambiguous m m.follow)
  unfolding is_deterministic
  is_deterministic_lem = (
    λ e.
        let starts : has_duplicate_symbol m.first m.symbols ≡ false = ground arith in
        ((has_duplicate_symbol_lem m.first).0 starts, (all_follow m.follow).0 (rw starts at e)),
    λ h. rw ((has_duplicate_symbol_lem m.first).1 h.0) ((all_follow m.follow).1 h.1),
  )
