-- ===== src/Dom/Rooted/Avoiding.antt =====
-- Which paths of parents avoid a node: those from a node that it is not above, also after other nodes
-- off the path have moved.
use xenolith.Common.{ℕ, ◌≡◌, ◌≢◌, sym, ◌∙◌, false, some, arith, ◌==◌, ==_iff}
use xenolith.Dom.{Document}
use xenolith.Dom.Rooted.{Rooted, top, under, Avoids, away, past}

module _ (doc : Document) where
  pub Avoids-ne : {c x : ℕ} → Avoids doc c x → (x == c) ≡ false
  Avoids-ne (away n e) = n
  Avoids-ne (past n e r) = n

  -- A node without children is above no other.
  pub Avoids-leaf :
      {c x : ℕ}
      → ((y : ℕ) → (doc.slot y).parent ≢ some c)
      → (x == c) ≡ false
      → Rooted doc x
      → Avoids doc c x
  Avoids-leaf leaf n (top e) = away n e
  Avoids-leaf {c} {x} leaf n (under {p = p} e r) =
      past n e (Avoids-leaf leaf (ground (arith, leaf x)) r)

  -- A child of a node that is not above `x` is not above `x` either.
  pub Avoids-child : {c g x : ℕ} → (doc.slot g).parent ≡ some c → Avoids doc c x → Avoids doc g x
  Avoids-child {c} {g} {x} h (away n e) = away (ground (arith, ==_iff x g)) e
  Avoids-child {c} {g} {x} h (past {p = p} n e r) =
      past (ground (arith, ==_iff x g, Avoids-ne r)) e (Avoids-child h r)

  -- Moving `g` off the path changes nothing on it.
  pub Avoids-moved :
      (doc' : Document) {c g x y : ℕ}
      → ((z : ℕ) → (z == g) ≡ false → (doc'.slot z).parent ≡ (doc.slot z).parent)
      → x ≡ y
      → Avoids doc g x
      → Avoids doc c y
      → Avoids doc' c y
  Avoids-moved doc' {c} {g} {x} {y} h q (away n e) (away m d) = away m (h y (rw (sym q) n) ∙ d)
  Avoids-moved doc' {c} {g} {x} {y} h q (away n e) (past m d s) = cc
  Avoids-moved doc' {c} {g} {x} {y} h q (past n e r) (away m d) = cc
  Avoids-moved doc' {c} {g} {x} {y} h q (past {p = p} n e r) (past {p = p'} m d s) =
      let same : p ≡ p' = cc in past m (h y (rw (sym q) n) ∙ d) (Avoids-moved doc' h same r s)
