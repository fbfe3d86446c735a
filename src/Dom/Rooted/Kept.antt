-- ===== src/Dom/Rooted/Kept.antt =====
-- Unlinking a node, and linking one below a node that is not under it, leave every node rooted.
use xenolith.Common.{ℕ, ◌≡◌, refl, none, some, arith, ◌==◌, if◌then◌else◌, Bool-cases, inl, inr}
use xenolith.Dom.{Document}
use xenolith.Dom.Rooted.{Rooted, top, under, Avoids, away, past}

module _ (doc doc' : Document) (c : ℕ) where
  pub Rooted-detached :
      ((x : ℕ) → (doc'.slot x).parent ≡ (if c == x then none else (doc.slot x).parent))
      → {x : ℕ} → Rooted doc x
      → Rooted doc' x
  Rooted-detached h {x} (top e) = top (ground (arith, h x))
  Rooted-detached h {x} (under {p = p} e r) = elim (Bool-cases (c == x)) [
    | inl k ↦ top (rw (h x, k) refl)
    | inr k ↦ under (rw (h x, k) e) (Rooted-detached h r)
  ]

  module _ (p : ℕ)
      (linked : (x : ℕ)
        → (doc'.slot x).parent ≡ (if c == x then some p else (doc.slot x).parent)) where
    Avoids-Rooted : {x : ℕ} → Avoids doc c x → Rooted doc' x
    Avoids-Rooted {x} (away n e) = top (ground (arith, linked x))
    Avoids-Rooted {x} (past {p = q} n e r) = under (ground (arith, linked x)) (Avoids-Rooted r)

    pub Rooted-linked : Avoids doc c p → {x : ℕ} → Rooted doc x → Rooted doc' x
    Rooted-linked a {x} (top e) = elim (Bool-cases (c == x)) [
      | inl k ↦ under (rw (linked x, k) refl) (Avoids-Rooted a)
      | inr k ↦ top (rw (linked x, k) e)
    ]
    Rooted-linked a {x} (under {p = q} e r) = elim (Bool-cases (c == x)) [
      | inl k ↦ under (rw (linked x, k) refl) (Avoids-Rooted a)
      | inr k ↦ under (rw (linked x, k) e) (Rooted-linked a r)
    ]

  -- Unlinking `c` itself leaves a path that avoids it.
  pub Avoids-detached :
      ((x : ℕ) → (doc'.slot x).parent ≡ (if c == x then none else (doc.slot x).parent))
      → {x : ℕ} → Avoids doc c x
      → Avoids doc' c x
  Avoids-detached h {x} (away n e) = away n (ground (arith, h x))
  Avoids-detached h {x} (past n e r) = past n (ground (arith, h x)) (Avoids-detached h r)
