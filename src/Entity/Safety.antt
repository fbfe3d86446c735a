-- ===== src/Entity/Safety.antt =====
-- What the entity stack guarantees whatever document is read: `EntityStack` of
-- crates/xenolith/src/io/parse/entity.rs over any sequence of its operations.
use xenolith.Common.{
  ℕ, suc, ◌≡◌, refl, ap, inl, inr, Bool, true, false, Bool-cases, List, [], ◌∷◌, is_empty, some,
  arith, if◌then◌else◌,
}
use xenolith.Entity.{
  is_expansion, Stream, Entity, EntityLimits, EntityStack, done, new_entity, document_entity,
  new_stack, count_expansion, push_entity, push, pop_entities, pop, feed,
}
use xenolith.Entity.Count.{fits, IsSound, count-IsSound}
use xenolith.Entity.Steps.{
  push-IsSound, popped_shape, feed_shape, opened_same, push_passed, count_same,
}

-- The stacks that successful calls lead to, with the number of expansions among the calls.
pub data Run {S : Type 0} (io : Stream S) (first : EntityStack S) : ℕ → EntityStack S → Type 0 where
  start : Run io first 0 first
  counted :
      {n : ℕ} {stack : EntityStack S} (chars : ℕ)
      → Run io first n stack
      → (count_expansion chars stack).0 ≡ done
      → Run io first (suc n) (count_expansion chars stack).1
  pushed :
      {n : ℕ} {stack : EntityStack S} (entity : Entity S)
      → Run io first n stack
      → (push io entity stack).0 ≡ done
      → Run io first (if is_expansion entity.kind then suc n else n) (push io entity stack).1
  popped : {n : ℕ} {stack : EntityStack S} → Run io first n stack → Run io first n (pop stack).1
  fed :
      {n : ℕ} {stack : EntityStack S} (bytes : List ℕ) (last : Bool)
      → Run io first n stack
      → (feed io bytes last stack).0 ≡ done
      → Run io first n (feed io bytes last stack).1

-- Whatever sequence of expansions, pushes, pops and feeds succeeds from the stack of the document
-- entity alone, with limits that a `u32` and its saturating count can hold: no open entity has the
-- name of another one, the depth is within its limit unless only the document is open, and neither
-- the number of expansions among the calls nor the characters counted exceeds its limit.
pub Run-IsSound :
    {S : Type 0} (io : Stream S) (stream : S) (limits : EntityLimits) (n : ℕ)
    (stack : EntityStack S)
    → fits limits.max_expansions ≡ true
    → Run io (new_stack (document_entity io stream) limits) n stack
    → IsSound limits n stack
unfolding new_entity pop feed
Run-IsSound io stream limits n stack small start = record {
  limits_kept = refl;
  no_recursion = (refl, tt);
  depth_within = ground arith;
  expansions_counted = refl;
  expansions_within = ground arith;
  chars_within = ground arith;
}
Run-IsSound io stream limits n stack small (counted chars run h) =
    count-IsSound limits _ chars _ small (Run-IsSound io stream limits _ _ small run) h
Run-IsSound io stream limits n stack small (pushed entity run h) =
    push-IsSound io limits _ _ entity small (Run-IsSound io stream limits _ _ small run) h
Run-IsSound io stream limits n stack small (popped run) =
    popped_shape limits _ _ _ (Run-IsSound io stream limits _ _ small run) refl
Run-IsSound io stream limits n stack small (fed bytes last run h) =
    feed_shape io limits _ bytes last _ _ (Run-IsSound io stream limits _ _ small run) refl h

pop_pushed :
    {S : Type 0} (entity : Entity S) (stack : EntityStack S) (below : List (Entity S))
    → stack.entities ≡ entity ∷ below
    → is_empty below ≡ false
    → pop stack ≡ (some entity, record stack { entities = below })
unfolding pop
pop_pushed entity stack [] e h = ground arith
pop_pushed entity stack (f ∷ below) e h = ap (λ entities. pop_entities entities stack) e

push-entities :
    {S : Type 0} (io : Stream S) (entity : Entity S) (stack : EntityStack S)
    → (push io entity stack).0 ≡ done
    → (push io entity stack).1.entities ≡ entity ∷ stack.entities
push-entities io entity stack h =
    let (_, (_, same)) = push_passed io entity stack h in
    elim (Bool-cases (is_expansion entity.kind)) [
      | inl e ↦
          let same : push io entity stack
              ≡ push_entity entity (count_expansion (io.chars_decoded entity.stream) stack) =
            rw e at same in
          let (_, opened) =
            opened_same entity (count_expansion (io.chars_decoded entity.stream) stack)
              (rw same at h) in
          let (entities, _) = count_same (io.chars_decoded entity.stream) stack in
          rw (same, opened) (ap (entity ∷◌) entities)
      | inr e ↦
          let same : push io entity stack ≡ push_entity entity (done, stack) = rw e at same in
          rw same refl
    ]

-- A push that succeeds on a stack that is not empty opens the entity on top of the same entities:
-- the next pop returns it and leaves those, with the counts of the push.
pub pop-push :
    {S : Type 0} (io : Stream S) (entity : Entity S) (stack : EntityStack S)
    → is_empty stack.entities ≡ false
    → (push io entity stack).0 ≡ done
    → pop (push io entity stack).1
      ≡ (some entity, record (push io entity stack).1 { entities = stack.entities })
pop-push io entity stack h opened =
    pop_pushed entity (push io entity stack).1 stack.entities (push-entities io entity stack opened)
      h
