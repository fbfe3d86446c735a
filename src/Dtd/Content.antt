-- ===== src/Dtd/Content.antt =====
-- Compiling an element content model to a Glushkov automaton and matching children against it:
-- crates/xenolith/src/dtd/validate/content.rs, with the particles of crates/xenolith/src/dtd/model.rs.
pub mod Run
pub mod Language
pub mod Paths
pub mod Sequence
pub mod Choice
pub mod Repeat
pub mod Built
pub mod Build
pub mod Sets
pub mod Correct
pub mod Alive
pub mod Failure
pub mod Determinism
mod Tests
use xenolith.Common.{
  ℕ, Bool, true, false, not, ◌&&◌, ◌||◌, List, [], ◌∷◌, ◌++◌, if◌then◌else◌, length, modify,
  contains,
}

pub data Occurs : Type 0 where
  once optional zero_or_more one_or_more : Occurs

-- A `NameId` is a number: the handles that reach a content model are all of the DTD's pool, where
-- two are equal exactly when their indices are.
mutual
  pub data ContentParticle : Type 0 where
    name : ℕ → Occurs → ContentParticle
    choice : Particles → Occurs → ContentParticle
    seq : Particles → Occurs → ContentParticle

  pub data Particles : Type 0 where
    nil : Particles
    cons : ContentParticle → Particles → Particles

pub record ContentModel : Type 0 where
  pub symbols : List ℕ
  pub first : List ℕ
  pub last : List ℕ
  pub follow : List (List ℕ)
  pub nullable : Bool

pub record Fragment : Type 0 where
  pub nullable : Bool
  pub first : List ℕ
  pub last : List ℕ

unfoldable pub push_unique : List ℕ → ℕ → List ℕ
push_unique target value = if not (contains target value) then target ++ value ∷ [] else target

unfoldable pub extend_unique : List ℕ → List ℕ → List ℕ
extend_unique target [] = target
extend_unique target (value ∷ values) = extend_unique (push_unique target value) values

-- `for &f in firsts { push_unique(&mut follow[l], f) }`
unfoldable pub link_one : ℕ → List ℕ → List (List ℕ) → List (List ℕ)
link_one l [] follow = follow
link_one l (f ∷ firsts) follow =
    link_one l firsts (modify (λ targets. push_unique targets f) l follow)

-- `for &l in lasts { for &f in firsts { push_unique(&mut follow[l], f) } }`
unfoldable pub link : List ℕ → List ℕ → List (List ℕ) → List (List ℕ)
link [] firsts follow = follow
link (l ∷ lasts) firsts follow = link lasts firsts (link_one l firsts follow)

abbrev repeatable : Occurs → Bool
repeatable zero_or_more = true
repeatable one_or_more = true
repeatable _ = false

abbrev omittable : Occurs → Bool
omittable optional = true
omittable zero_or_more = true
omittable _ = false

unfoldable pub apply : Fragment → Occurs → ContentModel → Fragment × ContentModel
apply fragment occurs model = (
  record fragment { nullable = fragment.nullable || omittable occurs },
  if repeatable occurs
      then record model { follow = link fragment.last fragment.first model.follow }
      else model,
)

-- The body of the loop of `sequence`, after the part is built: the new accumulators.
unfoldable pub seq_fragment : Fragment → Fragment → Fragment
seq_fragment before part = record {
  nullable = before.nullable && part.nullable;
  first = if before.nullable then extend_unique before.first part.first else before.first;
  last = if part.nullable then extend_unique before.last part.last else part.last;
}

-- The body of the loop of `choice`, after the part is built.
unfoldable pub choice_fragment : Fragment → Fragment → Fragment
choice_fragment before part = record {
  nullable = before.nullable || part.nullable;
  first = extend_unique before.first part.first;
  last = extend_unique before.last part.last;
}

abbrev pub name_fragment : ℕ → Fragment
name_fragment position = record { nullable = false; first = position ∷ []; last = position ∷ [] }

abbrev pub push_position : ℕ → ContentModel → ContentModel
push_position n model = record model {
  symbols = model.symbols ++ n ∷ [];
  follow = model.follow ++ [] ∷ [];
}

abbrev pub link_model : Fragment → Fragment → ContentModel → ContentModel
link_model before part model = record model { follow = link before.last part.first model.follow }

unfoldable mutual
  pub build : ContentParticle → ContentModel → Fragment × ContentModel
  build (name n occurs) model =
      apply (name_fragment (length model.symbols)) occurs (push_position n model)
  build (choice parts occurs) model =
      let (fragment, model') =
        choices parts (record { nullable = false; first = []; last = [] }) model in
      apply fragment occurs model'
  build (seq parts occurs) model =
      let (fragment, model') =
        sequence parts (record { nullable = true; first = []; last = [] }) model in
      apply fragment occurs model'

  -- The loop of `sequence`, with what it has accumulated before `parts`.
  pub sequence : Particles → Fragment → ContentModel → Fragment × ContentModel
  sequence nil before model = (before, model)
  sequence (cons part parts) before model =
      let (fragment, model') = build part model in
      sequence parts (seq_fragment before fragment) (link_model before fragment model')

  -- The loop of `choice`.
  pub choices : Particles → Fragment → ContentModel → Fragment × ContentModel
  choices nil before model = (before, model)
  choices (cons part parts) before model =
      let (fragment, model') = build part model in
      choices parts (choice_fragment before fragment) model'

abbrev pub empty_model : ContentModel
empty_model = record { symbols = []; first = []; last = []; follow = []; nullable = false }

unfoldable pub compile : ContentParticle → ContentModel
compile particle =
    let (root, model) = build particle empty_model in
    record model { first = root.first; last = root.last; nullable = root.nullable }
