-- ===== src/Dom/Siblings/Bound.antt =====
-- Distinct numbers below a bound are no more than the bound: the fuel that the loops over the arena
-- of crates/xenolith/src/dom/document.rs need.
use xenolith.Common.{ℕ, zero, suc, ◌≤◌, ◌<◌, ◌≡◌, true, List, [], ◌∷◌, arith, contains, length}
use xenolith.Dom.Siblings.{Distinct, without, without-absent, without-Distinct, contains-without}

length-without : (c : ℕ) (xs : List ℕ) → Distinct xs → length xs ≤ suc (length (without c xs))
length-without c [] d = omega arith
length-without c (x ∷ xs) d = ground (arith, length-without c xs, without-absent c xs)

pub Distinct-length :
    (n : ℕ) (xs : List ℕ) → Distinct xs → ((x : ℕ) → contains xs x ≡ true → x < n) → length xs ≤ n
Distinct-length n [] d h = omega arith
Distinct-length zero (x ∷ xs) d h = absurd (ground (arith, h x))
Distinct-length (suc n) xs d h =
    let rest =
      Distinct-length n (without n xs) (without-Distinct n xs d)
        (λ x k. ground (arith, contains-without n x xs, h x)) in
    omega (arith, rest, length-without n xs d)
