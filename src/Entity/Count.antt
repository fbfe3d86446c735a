-- ===== src/Entity/Count.antt =====
-- The invariant of the entity stack, and counting expansions and characters:
-- crates/xenolith/src/io/parse/entity.rs.
use xenolith.Common.{
  ℕ, suc, ◌≡◌, refl, ◌∙◌, inl, inr, Bool, true, false, not, ◌||◌, Bool-cases, List, [], ◌∷◌, Option,
  none, some, arith, leb, ◌==◌,
}
use xenolith.Entity.{
  Entity, EntityLimits, EntityStack, done, saturating_add, max_u32, reaches, exceeds, recurses,
  count_expansion_chars, count_expansion, depth,
}

module _ {S : Type 0} where
  -- No open entity has the name of one below it.
  abbrev pub NoRecursion : List (Entity S) → Type 0
  NoRecursion [] = Unit {0}
  NoRecursion (e ∷ entities) = (recurses e.name entities ≡ false) × NoRecursion entities

abbrev pub fits : Option ℕ → Bool
fits none = true
fits (some max) = leb max max_u32

pub record IsSound {S : Type 0} (limits : EntityLimits) (n : ℕ) (stack : EntityStack S)
    : Type 0 where
  pub limits_kept : stack.limits ≡ limits
  pub no_recursion : NoRecursion stack.entities
  pub depth_within : (not (exceeds limits.max_depth (depth stack)) || depth stack == 1) ≡ true
  pub expansions_counted : stack.expansions ≡ saturating_add max_u32 n 0
  pub expansions_within : exceeds limits.max_expansions n ≡ false
  pub chars_within : exceeds limits.max_expansion_chars stack.expansion_chars ≡ false

-- The counter is one more, as long as the limit keeps it from saturating.
counter :
    (limit : Option ℕ) (n c : ℕ)
    → fits limit ≡ true
    → c ≡ saturating_add max_u32 n 0
    → exceeds limit n ≡ false
    → reaches limit c ≡ false
    → (saturating_add max_u32 c 1 ≡ saturating_add max_u32 (suc n) 0)
      × (exceeds limit (suc n) ≡ false)
counter none n c small e x r = (ground arith, refl)
counter (some m) n c small e x r = ground arith

pub within_same :
    (n : ℕ) {a b : EntityLimits}
    → a ≡ b
    → exceeds a.max_expansion_chars n ≡ false
    → exceeds b.max_expansion_chars n ≡ false
within_same n e h = rw e at h

module _ {S : Type 0} where
  pub count_chars_lem :
      (chars : ℕ) (stack : EntityStack S)
      → (count_expansion_chars chars stack).0 ≡ done
      → exceeds stack.limits.max_expansion_chars
          (count_expansion_chars chars stack).1.expansion_chars
        ≡ false
  unfolding count_expansion_chars
  count_chars_lem chars stack h = ground arith

  pub count_chars_same :
      (chars : ℕ) (stack : EntityStack S)
      → ((count_expansion_chars chars stack).1.entities ≡ stack.entities)
        × (((count_expansion_chars chars stack).1.limits ≡ stack.limits)
            × ((count_expansion_chars chars stack).1.expansions ≡ stack.expansions))
  unfolding count_expansion_chars
  count_chars_same chars stack = ground arith

  abbrev pub once_more : EntityStack S → EntityStack S
  once_more stack = record stack { expansions = saturating_add max_u32 stack.expansions 1 }

  count-once_more :
      (chars : ℕ) (stack : EntityStack S)
      → (count_expansion chars stack).0 ≡ done
      → (reaches stack.limits.max_expansions stack.expansions ≡ false)
        × (count_expansion chars stack ≡ count_expansion_chars chars (once_more stack))
  unfolding count_expansion
  count-once_more chars stack h =
      elim (Bool-cases (reaches stack.limits.max_expansions stack.expansions)) [
        | inl e ↦ ground (arith, rw e at h)
        | inr e ↦ (e, rw e refl)
      ]

  pub count-IsSound :
      (limits : EntityLimits) (n chars : ℕ) (stack : EntityStack S)
      → fits limits.max_expansions ≡ true
      → IsSound limits n stack
      → (count_expansion chars stack).0 ≡ done
      → IsSound limits (suc n) (count_expansion chars stack).1
  count-IsSound limits n chars stack small w h =
      let (free, same) = count-once_more chars stack h in
      let (entities, (kept, count)) = count_chars_same chars (once_more stack) in
      let (more, within) =
        counter limits.max_expansions n stack.expansions small w.expansions_counted
          w.expansions_within (rw w.limits_kept at free) in
      rw same (record {
        limits_kept = kept ∙ w.limits_kept;
        no_recursion = rw entities w.no_recursion;
        depth_within = rw entities w.depth_within;
        expansions_counted = count ∙ more;
        expansions_within = within;
        chars_within =
            within_same _ w.limits_kept (count_chars_lem chars (once_more stack) (rw same at h));
      })
