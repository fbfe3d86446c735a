-- ===== src/Dom/Siblings/Splice.antt =====
-- Several nodes taken out of a list, and put into one together: what moving the children of a fragment
-- does, `insert_before` of crates/xenolith/src/dom/document.rs.
use xenolith.Common.{
  ℕ, ◌≡◌, refl, true, false, List, [], ◌∷◌, ◌++◌, Option, none, some, arith, ◌==◌, if◌then◌else◌,
  contains, append-nil, append_assoc,
}
use xenolith.Dom.Siblings.{is_some_of, without, without-absent, put_before}

abbrev pub without_all : List ℕ → List ℕ → List ℕ
without_all [] xs = xs
without_all (g ∷ gs) xs = without_all gs (without g xs)

-- `gs` before the reference, or at the end.
abbrev pub splice : Option ℕ → List ℕ → List ℕ → List ℕ
splice none gs xs = xs ++ gs
splice (some r) gs [] = []
splice (some r) gs (x ∷ xs) = if x == r then gs ++ x ∷ xs else x ∷ splice (some r) gs xs

abbrev pub put_one : Option ℕ → ℕ → List ℕ → List ℕ
put_one none g xs = xs ++ g ∷ []
put_one (some r) g xs = put_before g r xs

-- No node of the list is the reference.
abbrev pub IsApart : Option ℕ → List ℕ → Type 0
IsApart reference [] = Unit
IsApart reference (g ∷ gs) = (is_some_of reference g ≡ false) × IsApart reference gs

without-append :
    (h g : ℕ) (xs : List ℕ) → (g == h) ≡ false → without h (xs ++ g ∷ []) ≡ without h xs ++ g ∷ []
without-append h g [] n = ground arith
without-append h g (x ∷ xs) n = ground (arith, without-append h g xs)

without-put_before :
    (h g r : ℕ) (xs : List ℕ)
    → (g == h) ≡ false
    → (r == h) ≡ false
    → without h (put_before g r xs) ≡ put_before g r (without h xs)
without-put_before h g r [] n m = refl
without-put_before h g r (x ∷ xs) n m = ground (arith, without-put_before h g r xs)

without-put_one :
    (h g : ℕ) (reference : Option ℕ) (xs : List ℕ)
    → (g == h) ≡ false
    → is_some_of reference h ≡ false
    → without h (put_one reference g xs) ≡ put_one reference g (without h xs)
without-put_one h g none xs n m = without-append h g xs n
without-put_one h g (some r) xs n m = without-put_before h g r xs n m

pub without_all-put_one :
    (gs : List ℕ) (g : ℕ) (reference : Option ℕ) (xs : List ℕ)
    → contains gs g ≡ false
    → IsApart reference gs
    → without_all gs (put_one reference g xs) ≡ put_one reference g (without_all gs xs)
without_all-put_one [] g reference xs n a = refl
without_all-put_one (h ∷ gs) g reference xs n a =
    rw (without-put_one h g reference xs (ground arith) a.0)
      (without_all-put_one gs g reference (without h xs) (ground arith) a.1)

splice-put_before :
    (gs : List ℕ) (g r : ℕ) (xs : List ℕ)
    → (r == g) ≡ false
    → splice (some r) gs (put_before g r xs) ≡ splice (some r) (g ∷ gs) xs
splice-put_before gs g r [] n = refl
splice-put_before gs g r (x ∷ xs) n = ground (arith, splice-put_before gs g r xs)

pub splice-put_one :
    (gs : List ℕ) (g : ℕ) (reference : Option ℕ) (xs : List ℕ)
    → is_some_of reference g ≡ false
    → splice reference gs (put_one reference g xs) ≡ splice reference (g ∷ gs) xs
splice-put_one gs g none xs n = append_assoc xs (g ∷ []) gs
splice-put_one gs g (some r) xs n = splice-put_before gs g r xs n

pub without_all-disjoint :
    (gs xs : List ℕ)
    → ((g : ℕ) → contains gs g ≡ true → contains xs g ≡ false)
    → without_all gs xs ≡ xs
without_all-disjoint [] xs h = refl
without_all-disjoint (g ∷ gs) xs h =
    rw (without-absent g xs (h g (ground arith)))
      (without_all-disjoint gs xs (λ x k. h x (ground arith)))

pub splice-nil : (reference : Option ℕ) (xs : List ℕ) → splice reference [] xs ≡ xs
splice-nil none xs = append-nil xs
splice-nil (some r) [] = refl
splice-nil (some r) (x ∷ xs) = ground (arith, splice-nil (some r) xs)
