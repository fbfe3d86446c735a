-- ===== src/Dtd/Content/Language.antt =====
-- What a content particle means (XML 1.0, section 3.2.1): the sequences of child names it allows,
-- with no automaton in sight.
use xenolith.Common.{ℕ, ◌≡◌, ◌⊎◌, List, [], ◌∷◌, ◌++◌}
use xenolith.Dtd.Content.{
  Occurs, once, optional, zero_or_more, one_or_more, ContentParticle, name, choice, seq, Particles,
  nil, cons,
}

abbrev pub Words : Type 1
Words = List ℕ → Type 0

-- A word of `K` followed by a word of `L`.
pub record Concat (K L : Words) (w : List ℕ) : Type 0 where
  pub front : List ℕ
  pub back : List ℕ
  pub splits : w ≡ front ++ back
  pub in_front : K front
  pub in_back : L back

pub data Star (L : Words) : List ℕ → Type 0 where
  done : Star L []
  more : {u v w : List ℕ} → w ≡ u ++ v → L u → Star L v → Star L w

abbrev pub Repeated : Words → Occurs → Words
Repeated L once w = L w
Repeated L optional w = (w ≡ []) ⊎ L w
Repeated L zero_or_more w = Star L w
Repeated L one_or_more w = Concat L (Star L) w

abbrev mutual
  pub Allows : ContentParticle → Words
  Allows (name n occurs) = Repeated (λ w. w ≡ n ∷ []) occurs
  Allows (choice parts occurs) = Repeated (AllowsOne parts) occurs
  Allows (seq parts occurs) = Repeated (AllowsAll parts) occurs

  pub AllowsOne : Particles → Words
  AllowsOne nil w = ⊥
  AllowsOne (cons part parts) w = Allows part w ⊎ AllowsOne parts w

  pub AllowsAll : Particles → Words
  AllowsAll nil w = w ≡ []
  AllowsAll (cons part parts) w = Concat (Allows part) (AllowsAll parts) w
