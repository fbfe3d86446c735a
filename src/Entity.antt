-- ===== src/Entity.antt =====
-- The entities being read and the limits on them: crates/xenolith/src/io/parse/entity.rs, with the
-- limits of crates/xenolith/src/io/parse/config.rs. A vector of entities is the list of them, the
-- innermost first. The stream of an entity is the section parameter: the stack only asks it for its
-- system identifier and its count of characters, and feeds it. A message is left out of an error.
pub mod Count
mod Steps
pub mod Safety
mod Tests
use xenolith.Common.{
  ℕ, zero, suc, ◌+◌, ◌^◌, Bool, true, false, not, ◌&&◌, ◌||◌, List, [], ◌∷◌, Option, none, some,
  ltb, leb, if◌then◌else◌, any, length,
}
use xenolith.Text.{Text, eq_text}
use xenolith.Uri.{UriReference, Result, ok, err, parse}

pub data EntityKind : Type 0 where
  document internal_general external_general : EntityKind

abbrev pub is_external : EntityKind → Bool
is_external internal_general = false
is_external _ = true

abbrev pub is_expansion : EntityKind → Bool
is_expansion document = false
is_expansion _ = true

pub data StackError : Type 0 where
  recursion : Text → StackError
  depth_limit expansions_limit chars_limit : ℕ → StackError
  stream_error : StackError

-- What the stack uses of a character stream; `feed` returns how many characters were decoded.
pub record Stream (S : Type 0) : Type 0 where
  pub system_id : S → Option Text
  pub chars_decoded : S → ℕ
  pub feed_stream : S → List ℕ → Bool → Option (ℕ × S)

pub record Entity (S : Type 0) : Type 0 where
  pub name : Option Text
  pub kind : EntityKind
  pub stream : S
  pub base_uri : Option UriReference

pub record EntityLimits : Type 0 where
  pub max_depth : Option ℕ
  pub max_expansions : Option ℕ
  pub max_expansion_chars : Option ℕ

abbrev pub default_limits : EntityLimits
default_limits = record {
  max_depth = some 64;
  max_expansions = some 100_000;
  max_expansion_chars = some 67_108_864;
}

abbrev pub unlimited : EntityLimits
unlimited = record { max_depth = none; max_expansions = none; max_expansion_chars = none }

pub record EntityStack (S : Type 0) : Type 0 where
  pub entities : List (Entity S)
  pub limits : EntityLimits
  pub expansions : ℕ
  pub expansion_chars : ℕ

-- `Result<()>`, beside the stack that the call leaves behind, which a failure may have changed too.
pub data Outcome : Type 0 where
  done : Outcome
  failed : StackError → Outcome

-- `saturating_add` on `u32` and on `u64`.
abbrev pub saturating_add : ℕ → ℕ → ℕ → ℕ
saturating_add max a b = if leb (a + b) max then a + b else max

abbrev pub max_u32 : ℕ
max_u32 = 4_294_967_295

abbrev pub max_u64 : ℕ
max_u64 = 18_446_744_073_709_551_615

-- Whether a limit is reached, and whether it is exceeded.
abbrev pub reaches : Option ℕ → ℕ → Bool
reaches none n = false
reaches (some max) n = leb max n

abbrev pub exceeds : Option ℕ → ℕ → Bool
exceeds none n = false
exceeds (some max) n = ltb max n

abbrev pub or_zero : Option ℕ → ℕ
or_zero none = 0
or_zero (some n) = n

abbrev parsed : Result UriReference → Option UriReference
parsed (ok u) = some u
parsed (err e) = none

abbrev base_of : Option Text → Option UriReference
base_of none = none
base_of (some id) = parsed (parse id)

abbrev name_is : Option Text → Text → Bool
name_is none name = false
name_is (some n) name = eq_text n name

abbrev name_of : Option Text → Text
name_of none = []
name_of (some name) = name

abbrev or_below : Option UriReference → Option UriReference → Option UriReference
or_below none below = below
or_below (some u) below = some u

module _ {S : Type 0} (io : Stream S) where
  unfoldable pub new_entity : Option Text → EntityKind → S → Option UriReference → Entity S
  new_entity name kind stream inherited_base = record {
    name = name;
    kind = kind;
    stream = stream;
    base_uri = if is_external kind then base_of (io.system_id stream) else inherited_base;
  }

  abbrev pub document_entity : S → Entity S
  document_entity stream = new_entity none document stream none

module _ {S : Type 0} where
  abbrev pub new_stack : Entity S → EntityLimits → EntityStack S
  new_stack entity limits = record {
    entities = entity ∷ [];
    limits = limits;
    expansions = 0;
    expansion_chars = 0;
  }

  unfoldable pub is_open : List (Entity S) → Text → Bool
  is_open entities name = any (λ e. name_is e.name name) entities

  unfoldable pub count_expansion_chars : ℕ → EntityStack S → Outcome × EntityStack S
  count_expansion_chars chars stack =
      let total = saturating_add max_u64 stack.expansion_chars chars in
      let counted : EntityStack S = record stack { expansion_chars = total } in
      if exceeds stack.limits.max_expansion_chars total
      then (failed (chars_limit (or_zero stack.limits.max_expansion_chars)), counted)
      else (done, counted)

  unfoldable pub count_expansion : ℕ → EntityStack S → Outcome × EntityStack S
  count_expansion chars stack =
      if reaches stack.limits.max_expansions stack.expansions
      then (failed (expansions_limit (or_zero stack.limits.max_expansions)), stack)
      else count_expansion_chars chars
          (record stack { expansions = saturating_add max_u32 stack.expansions 1 })

  abbrev pub recurses : Option Text → List (Entity S) → Bool
  recurses none entities = false
  recurses (some name) entities = is_open entities name

  abbrev pub push_entity : Entity S → Outcome × EntityStack S → Outcome × EntityStack S
  push_entity entity (failed e, stack) = (failed e, stack)
  push_entity entity (done, stack) = (done, record stack { entities = entity ∷ stack.entities })

  unfoldable pub push : Stream S → Entity S → EntityStack S → Outcome × EntityStack S
  push io entity stack =
      if recurses entity.name stack.entities
      then (failed (recursion (name_of entity.name)), stack)
      else if reaches stack.limits.max_depth (length stack.entities)
      then (failed (depth_limit (or_zero stack.limits.max_depth)), stack)
      else if is_expansion entity.kind
      then push_entity entity (count_expansion (io.chars_decoded entity.stream) stack)
      else push_entity entity (done, stack)

  -- The document entity, at the bottom, is never popped.
  abbrev pub pop_entities : List (Entity S) → EntityStack S → Option (Entity S) × EntityStack S
  pop_entities (e ∷ f ∷ entities) stack = (some e, record stack { entities = f ∷ entities })
  pop_entities _ stack = (none, stack)

  unfoldable pub pop : EntityStack S → Option (Entity S) × EntityStack S
  pop stack = pop_entities stack.entities stack

  abbrev pub fed_entities :
      Entity S → List (Entity S) → EntityStack S → Option (ℕ × S) → Outcome × EntityStack S
  fed_entities current below stack none = (failed stream_error, stack)
  fed_entities current below stack (some (grew, stream)) =
      let fed : EntityStack S = record stack {
        entities = record current { stream = stream } ∷ below;
      } in
      if is_expansion current.kind then count_expansion_chars grew fed else (done, fed)

  abbrev pub feed_entities :
      Stream S → List ℕ → Bool → List (Entity S) → EntityStack S → Outcome × EntityStack S
  feed_entities io bytes last [] stack = (done, stack)
  feed_entities io bytes last (current ∷ below) stack =
      fed_entities current below stack (io.feed_stream current.stream bytes last)

  -- A stream that fails is left as it was: what a failure leaves in it is up to the stream.
  unfoldable pub feed : Stream S → List ℕ → Bool → EntityStack S → Outcome × EntityStack S
  feed io bytes last stack = feed_entities io bytes last stack.entities stack

  abbrev pub depth : EntityStack S → ℕ
  depth stack = length stack.entities

  abbrev find_base : List (Entity S) → Option UriReference
  find_base [] = none
  find_base (e ∷ entities) = or_below e.base_uri (find_base entities)

  abbrev pub stack_base_uri : EntityStack S → Option UriReference
  stack_base_uri stack = find_base stack.entities

  abbrev pub set_limits : EntityLimits → EntityStack S → EntityStack S
  set_limits limits stack = record stack { limits = limits }
