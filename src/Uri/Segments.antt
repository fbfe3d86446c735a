-- ===== src/Uri/Segments.antt =====
-- Paths as segments, for `remove_dot_segments` of crates/xenolith/src/uri.rs: what one round of its loop
-- does on the first segment.
use xenolith.Common.{
  ℕ, zero, suc, ◌≤◌, ◌≡◌, refl, ap, Bool, true, false, List, [], ◌∷◌, ◌++◌, arith, if◌then◌else◌,
  contains, contains-append, append-nil, append_assoc, ==_iff, or-right,
}
use xenolith.Text.{Text, before, from, eq_text}
use xenolith.Uri.Resolve.{slash, pop_segment, step, remove_loop, but_last}

abbrev pub IsSlashFree : Text → Type 0
IsSlashFree s = contains s slash ≡ false

abbrev pub AllSlashFree : List Text → Type 0
AllSlashFree [] = Unit {0}
AllSlashFree (s ∷ segments) = IsSlashFree s × AllSlashFree segments

-- An absolute path, from its segments.
unfoldable pub render : List Text → Text
render [] = []
render (s ∷ segments) = slash ∷ (s ++ render segments)

abbrev pub is_dot : Text → Bool
is_dot s = eq_text s (b'.' ∷ [])

abbrev pub is_dot_dot : Text → Bool
is_dot_dot s = eq_text s (b'.' ∷ b'.' ∷ [])

-- One segment that others follow, on the stack of those kept.
abbrev pub settle_one : List Text → Text → List Text
settle_one kept s =
    if is_dot s then kept else if is_dot_dot s then but_last kept else kept ++ s ∷ []

-- The last segment: a dot segment there leaves an empty one.
abbrev pub settle_last : List Text → Text → List Text
settle_last kept s =
    if is_dot s
    then kept ++ [] ∷ []
    else if is_dot_dot s
    then but_last kept ++ [] ∷ []
    else kept ++ s ∷ []

-- What the segments of a path come to.
unfoldable pub settle : List Text → List Text → List Text
settle kept [] = kept
settle kept (s ∷ []) = settle_last kept s
settle kept (s ∷ t ∷ segments) = settle (settle_one kept s) (t ∷ segments)

pub before-segment :
    (s : Text) (segments : List Text) → IsSlashFree s → before slash (s ++ render segments) ≡ s
unfolding render
before-segment [] [] h = refl
before-segment [] (t ∷ segments) h = refl
before-segment (c ∷ s) segments h = ground (arith, before-segment s segments, ==_iff c slash)

pub from-segment :
    (s : Text) (segments : List Text)
    → IsSlashFree s
    → from slash (s ++ render segments) ≡ render segments
unfolding render
from-segment [] [] h = refl
from-segment [] (t ∷ segments) h = refl
from-segment (c ∷ s) segments h = ground (arith, from-segment s segments, ==_iff c slash)

pop_segment-append :
    (s t : Text) → contains t slash ≡ true → pop_segment (s ++ t) ≡ s ++ pop_segment t
unfolding pop_segment
pop_segment-append [] t h = refl
pop_segment-append (c ∷ s) t h =
    rw (contains-append, h, or-right (contains s slash) true refl)
      (ap (◌∷◌ c) (pop_segment-append s t h))

pub pop_segment-render :
    (segments : List Text)
    → AllSlashFree segments
    → pop_segment (render segments) ≡ render (but_last segments)
unfolding pop_segment render but_last
pop_segment-render [] h = refl
pop_segment-render (s ∷ []) (h, k) = rw (append-nil, h) refl
pop_segment-render (s ∷ t ∷ segments) (h, k) =
    let more : contains (slash ∷ (t ++ render segments)) slash ≡ true = refl in
    rw (contains-append, more, or-right (contains s slash) true refl, pop_segment-append s _ more)
      (ap (λ r. slash ∷ (s ++ r)) (pop_segment-render (t ∷ segments) k))

pub render-append : (xs ys : List Text) → render (xs ++ ys) ≡ render xs ++ render ys
unfolding render
render-append [] ys = refl
render-append (x ∷ xs) ys = simp (render-append xs ys, append_assoc)

-- One round of the loop on a path of at least two segments.
pub step-segment :
    (s t : Text) (segments : List Text) (out : Text)
    → IsSlashFree s
    → step (render (s ∷ t ∷ segments)) out ≡ (
        if is_dot s
        then (render (t ∷ segments), out)
        else if is_dot_dot s
        then (render (t ∷ segments), pop_segment out)
        else (render (t ∷ segments), out ++ slash ∷ s))
unfolding step render
step-segment [] t segments out h = refl
step-segment (c ∷ []) t segments out h = ground arith
step-segment (c ∷ d ∷ []) t segments out h = ground arith
step-segment (c ∷ d ∷ e ∷ s) t segments out h =
    ground (arith, before-segment s (t ∷ segments), from-segment s (t ∷ segments))

before-free : (s : Text) → IsSlashFree s → before slash s ≡ s
before-free [] h = refl
before-free (c ∷ s) h = ground (arith, before-free s)

from-free : (s : Text) → IsSlashFree s → from slash s ≡ []
from-free [] h = refl
from-free (c ∷ s) h = ground (arith, from-free s)

-- One round on the last segment.
pub step-last :
    (s : Text) (out : Text)
    → IsSlashFree s
    → step (slash ∷ s) out ≡ (
        if is_dot s
        then (slash ∷ [], out)
        else if is_dot_dot s
        then (slash ∷ [], pop_segment out)
        else ([], out ++ slash ∷ s))
unfolding step
step-last [] out h = refl
step-last (c ∷ []) out h = ground arith
step-last (c ∷ d ∷ []) out h = ground arith
step-last (c ∷ d ∷ e ∷ s) out h = ground (arith, before-free s, from-free s)

-- What is left after a dot segment at the end.
pub remove_loop-slash :
    (n : ℕ) (out : Text) → 1 ≤ n → remove_loop n (slash ∷ []) out ≡ out ++ slash ∷ []
unfolding remove_loop step
remove_loop-slash zero out h = absurd (omega arith)
remove_loop-slash (suc zero) out h = refl
remove_loop-slash (suc (suc n)) out h = refl

pub remove_loop-done : (n : ℕ) (out : Text) → remove_loop n [] out ≡ out
unfolding remove_loop
remove_loop-done zero out = refl
remove_loop-done (suc n) out = refl

pub but_last-AllSlashFree :
    (segments : List Text) → AllSlashFree segments → AllSlashFree (but_last segments)
unfolding but_last
but_last-AllSlashFree [] h = tt
but_last-AllSlashFree (s ∷ []) h = tt
but_last-AllSlashFree (s ∷ t ∷ segments) (h, k) = (h, but_last-AllSlashFree (t ∷ segments) k)

pub AllSlashFree-append :
    (xs ys : List Text) → AllSlashFree xs → AllSlashFree ys → AllSlashFree (xs ++ ys)
AllSlashFree-append [] ys h k = k
AllSlashFree-append (x ∷ xs) ys (h, h') k = (h, AllSlashFree-append xs ys h' k)

pub settle_one-AllSlashFree :
    (kept : List Text) (s : Text)
    → AllSlashFree kept
    → IsSlashFree s
    → AllSlashFree (settle_one kept s)
settle_one-AllSlashFree kept s h k =
    ground (arith, but_last-AllSlashFree kept h, AllSlashFree-append kept (s ∷ []) h (k, tt))
