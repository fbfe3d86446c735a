-- ===== src/Dtd/Content/Tests.antt =====
-- Content models at concrete inputs, and the theorems applied there.
use xenolith.Common.{ℕ, ◌≡◌, refl, ◌↔◌, true, false, List, [], ◌∷◌, some, none}
use xenolith.Dtd.Content.{
  ContentParticle, name, choice, seq, nil, cons, once, zero_or_more, one_or_more, compile, build,
  sequence, choices, apply, seq_fragment, choice_fragment, link, link_one, extend_unique,
  push_unique,
}
use xenolith.Dtd.Content.Run.{
  MatchResult, ok, err, matches, is_deterministic, run, finish, matching, reachable, dedup,
  dedup_adjacent, dedup_after, sort, sort_insert, symbols_of, has_duplicate_symbol, duplicate_after,
}
use xenolith.Dtd.Content.Language.{Allows}
use xenolith.Dtd.Content.Correct.{matches-compile}
use xenolith.Dtd.Content.Failure.{Explains, matches-Explains}
use xenolith.Dtd.Content.Determinism.{Unambiguous, AllUnambiguous, is_deterministic_lem}

-- (1, 2*, (3 | 4)+)
abbrev sample : ContentParticle
sample =
    seq
      (cons (name 1 once) (
        cons (name 2 zero_or_more)
          (cons (choice (cons (name 3 once) (cons (name 4 once) nil)) one_or_more) nil)))
      once

-- ((1, 2) | (1, 3))
abbrev ambiguous : ContentParticle
ambiguous =
    choice
      (cons (seq (cons (name 1 once) (cons (name 2 once) nil)) once)
        (cons (seq (cons (name 1 once) (cons (name 3 once) nil)) once) nil))
      once

-- Everything that `compile` and `matches` call.
accepts : ContentParticle → List ℕ → MatchResult
unfolding compile build sequence choices apply seq_fragment choice_fragment link link_one
    extend_unique push_unique matches run finish matching reachable dedup dedup_adjacent dedup_after
    sort sort_insert symbols_of
accepts particle children = matches (compile particle) children

accepts-sample : accepts sample (1 ∷ 2 ∷ 2 ∷ 4 ∷ 3 ∷ []) ≡ ok
unfolding accepts
accepts-sample = refl

refuses-sample : accepts sample (1 ∷ 2 ∷ []) ≡ err (record { at = none; allowed = 2 ∷ 3 ∷ 4 ∷ [] })
unfolding accepts
refuses-sample = refl

refuses-second :
    accepts sample (1 ∷ 2 ∷ 1 ∷ []) ≡ err (record { at = some 1; allowed = 2 ∷ 3 ∷ 4 ∷ [] })
unfolding accepts
refuses-second = refl

ambiguous-is_deterministic : is_deterministic (compile ambiguous) ≡ false
unfolding accepts is_deterministic has_duplicate_symbol duplicate_after
ambiguous-is_deterministic = refl

matches-compile_example :
    (matches (compile sample) (1 ∷ 2 ∷ 3 ∷ []) ≡ ok) ↔ Allows sample (1 ∷ 2 ∷ 3 ∷ [])
matches-compile_example = matches-compile sample (1 ∷ 2 ∷ 3 ∷ [])

matches-Explains_example :
    Explains sample (1 ∷ 2 ∷ 1 ∷ []) (record { at = some 1; allowed = 2 ∷ 3 ∷ 4 ∷ [] })
unfolding accepts
matches-Explains_example =
    matches-Explains sample (1 ∷ 2 ∷ 1 ∷ []) (record { at = some 1; allowed = 2 ∷ 3 ∷ 4 ∷ [] })
      (tt, (tt, (((tt, (tt, tt)), tt), tt))) refl

is_deterministic_lem_example : (is_deterministic (compile sample) ≡ true) ↔ (
    Unambiguous (compile sample) (compile sample).first
    × AllUnambiguous (compile sample) (compile sample).follow)
is_deterministic_lem_example = is_deterministic_lem (compile sample)
