-- ===== src/Entity/Steps.antt =====
-- Pushing, popping and feeding keep the invariant of the entity stack:
-- crates/xenolith/src/io/parse/entity.rs.
use xenolith.Common.{
  ℕ, suc, ◌≡◌, refl, ◌∙◌, inl, inr, Bool, true, false, not, ◌||◌, Bool-cases, List, [], ◌∷◌, Option,
  none, some, arith, ◌==◌, if◌then◌else◌, length,
}
use xenolith.Entity.{
  is_expansion, Stream, Entity, EntityLimits, EntityStack, Outcome, done, failed, reaches, exceeds,
  recurses, count_expansion_chars, count_expansion, push_entity, push, pop_entities, fed_entities,
  feed_entities, depth,
}
use xenolith.Entity.Count.{
  fits, IsSound, count_chars_lem, count_chars_same, within_same, once_more, count-IsSound,
}

module _ {S : Type 0} where
  -- One entity more.
  opened-IsSound :
      (limits : EntityLimits) (n : ℕ) (stack : EntityStack S) (entity : Entity S)
      → IsSound limits n stack
      → recurses entity.name stack.entities ≡ false
      → reaches limits.max_depth (depth stack) ≡ false
      → IsSound limits n (record stack { entities = entity ∷ stack.entities })
  opened-IsSound limits n stack entity w free room = record {
    limits_kept = w.limits_kept;
    no_recursion = (free, w.no_recursion);
    depth_within = ground arith;
    expansions_counted = w.expansions_counted;
    expansions_within = w.expansions_within;
    chars_within = w.chars_within;
  }

  pub opened_same :
      (entity : Entity S) (r : Outcome × EntityStack S)
      → (push_entity entity r).0 ≡ done
      → (r.0 ≡ done)
        × ((push_entity entity r).1 ≡ record (r.1) { entities = entity ∷ r.1.entities })
  opened_same entity (done, stack) h = (refl, refl)
  opened_same entity (failed e, stack) h = ground arith

  pub push_passed :
      (io : Stream S) (entity : Entity S) (stack : EntityStack S)
      → (push io entity stack).0 ≡ done
      → (recurses entity.name stack.entities ≡ false)
        × ((reaches stack.limits.max_depth (depth stack) ≡ false)
            × (push io entity stack
                ≡ push_entity entity (
                    if is_expansion entity.kind
                    then count_expansion (io.chars_decoded entity.stream) stack
                    else (done, stack))))
  unfolding push
  push_passed io entity stack h = elim (Bool-cases (recurses entity.name stack.entities)) [
    | inl e ↦ ground (arith, rw e at h)
    | inr e ↦ elim (Bool-cases (reaches stack.limits.max_depth (depth stack))) [
      | inl f ↦ ground (arith, rw (e, f) at h)
      | inr f ↦ elim (Bool-cases (is_expansion entity.kind)) [
        | inl g ↦ (e, (f, rw (e, f, g) refl))
        | inr g ↦ (e, (f, rw (e, f, g) refl))
      ]
    ]
  ]

  pub count_same :
      (chars : ℕ) (stack : EntityStack S)
      → ((count_expansion chars stack).1.entities ≡ stack.entities)
        × ((count_expansion chars stack).1.limits ≡ stack.limits)
  unfolding count_expansion
  count_same chars stack =
      let (entities, (kept, _)) = count_chars_same chars (once_more stack) in ground arith

  pub push-IsSound :
      (io : Stream S) (limits : EntityLimits) (n : ℕ) (stack : EntityStack S) (entity : Entity S)
      → fits limits.max_expansions ≡ true
      → IsSound limits n stack
      → (push io entity stack).0 ≡ done
      → IsSound limits (if is_expansion entity.kind then suc n else n) (push io entity stack).1
  push-IsSound io limits n stack entity small w h =
      let (free, (room, same)) = push_passed io entity stack h in
      let room : reaches limits.max_depth (depth stack) ≡ false = rw w.limits_kept at room in
      elim (Bool-cases (is_expansion entity.kind)) [
        | inl e ↦
            let same : push io entity stack
                ≡ push_entity entity (count_expansion (io.chars_decoded entity.stream) stack) =
              rw e at same in
            let (ok, opened) =
              opened_same entity (count_expansion (io.chars_decoded entity.stream) stack)
                (rw same at h) in
            let (entities, _) = count_same (io.chars_decoded entity.stream) stack in
            rw (e, same, opened)
              (opened-IsSound limits (suc n)
                (count_expansion (io.chars_decoded entity.stream) stack).1 entity
                (count-IsSound limits n (io.chars_decoded entity.stream) stack small w ok)
                (rw entities free) (rw entities room))
        | inr e ↦
            let same : push io entity stack ≡ push_entity entity (done, stack) = rw e at same in
            rw (e, same) (opened-IsSound limits n stack entity w free room)
      ]

  pub popped_shape :
      (limits : EntityLimits) (n : ℕ) (stack : EntityStack S) (entities : List (Entity S))
      → IsSound limits n stack
      → stack.entities ≡ entities
      → IsSound limits n (pop_entities entities stack).1
  popped_shape limits n stack [] w e = w
  popped_shape limits n stack (f ∷ []) w e = w
  popped_shape limits n stack (f ∷ g ∷ entities) w e = record {
    limits_kept = w.limits_kept;
    no_recursion = (rw e at w.no_recursion).1;
    depth_within = ground (arith, shorter);
    expansions_counted = w.expansions_counted;
    expansions_within = w.expansions_within;
    chars_within = w.chars_within;
  }
    where
      shorter :
          (not (exceeds limits.max_depth (suc (suc (length entities))))
            || suc (suc (length entities)) == 1)
          ≡ true
      shorter = rw e at w.depth_within

  -- Feeding the innermost entity.
  fed_same :
      (current : Entity S) (stream : S) (below : List (Entity S)) (stack : EntityStack S)
      (limits : EntityLimits) (n : ℕ)
      → IsSound limits n stack
      → stack.entities ≡ current ∷ below
      → IsSound limits n (record stack { entities = record current { stream = stream } ∷ below })
  fed_same current stream below stack limits n w e = record {
    limits_kept = w.limits_kept;
    no_recursion = rw e at w.no_recursion;
    depth_within = rw e at w.depth_within;
    expansions_counted = w.expansions_counted;
    expansions_within = w.expansions_within;
    chars_within = w.chars_within;
  }

  chars-IsSound :
      (limits : EntityLimits) (n chars : ℕ) (stack : EntityStack S)
      → IsSound limits n stack
      → (count_expansion_chars chars stack).0 ≡ done
      → IsSound limits n (count_expansion_chars chars stack).1
  chars-IsSound limits n chars stack w h =
      let (entities, (kept, count)) = count_chars_same chars stack in
      record {
        limits_kept = kept ∙ w.limits_kept;
        no_recursion = rw entities w.no_recursion;
        depth_within = rw entities w.depth_within;
        expansions_counted = count ∙ w.expansions_counted;
        expansions_within = w.expansions_within;
        chars_within = within_same _ w.limits_kept (count_chars_lem chars stack h);
      }

  fed_shape :
      (limits : EntityLimits) (n : ℕ) (current : Entity S) (below : List (Entity S))
      (stack : EntityStack S) (r : Option (ℕ × S))
      → IsSound limits n stack
      → stack.entities ≡ current ∷ below
      → (fed_entities current below stack r).0 ≡ done
      → IsSound limits n (fed_entities current below stack r).1
  fed_shape limits n current below stack none w e h = ground arith
  fed_shape limits n current below stack (some (grew, stream)) w e h =
      let w' = fed_same current stream below stack limits n w e in
      elim (Bool-cases (is_expansion current.kind)) [
        | inl f ↦ rw f (chars-IsSound limits n grew _ w' (rw f at h))
        | inr f ↦ rw f w'
      ]

  pub feed_shape :
      (io : Stream S) (limits : EntityLimits) (n : ℕ) (bytes : List ℕ) (last : Bool)
      (entities : List (Entity S)) (stack : EntityStack S)
      → IsSound limits n stack
      → stack.entities ≡ entities
      → (feed_entities io bytes last entities stack).0 ≡ done
      → IsSound limits n (feed_entities io bytes last entities stack).1
  feed_shape io limits n bytes last [] stack w e h = w
  feed_shape io limits n bytes last (f ∷ below) stack w e h =
      fed_shape limits n f below stack (io.feed_stream f.stream bytes last) w e h
