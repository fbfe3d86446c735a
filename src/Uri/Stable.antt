-- ===== src/Uri/Stable.antt =====
-- Paths with no dot segments: removing dot segments leaves such a path, and leaves it alone.
use xenolith.Common.{
  ℕ, zero, suc, ◌≤◌, ◌≡◌, refl, sym, ap, ◌∙◌, inl, inr, Bool, true, false, not, ◌&&◌, List, [], ◌∷◌,
  ◌++◌, arith, ◌==◌, Bool-cases, length, length-append, append-nil, append_assoc, ==_iff,
}
use xenolith.Text.{Text, eq_text}
use xenolith.Uri.Resolve.{slash, step, remove_loop, remove_dot_segments, but_last, split, push_head}
use xenolith.Uri.Dots.{remove_loop_once, remove_dot_segments-settle}
use xenolith.Uri.Segments.{
  IsSlashFree, AllSlashFree, render, is_dot, is_dot_dot, settle, settle_one, step-segment,
  step-last, before-segment, from-segment, remove_loop-done, but_last-AllSlashFree,
  AllSlashFree-append, settle_one-AllSlashFree,
}

abbrev pub is_plain : Text → Bool
is_plain s = not (is_dot s) && not (is_dot_dot s)

-- No segment is `.` or `..`.
abbrev pub AllPlain : List Text → Type 0
AllPlain [] = Unit {0}
AllPlain (s ∷ segments) = (is_plain s ≡ true) × AllPlain segments

abbrev pub IsDotless : Text → Type 0
IsDotless path = AllPlain (split path)

AllPlain-append : (xs ys : List Text) → AllPlain xs → AllPlain ys → AllPlain (xs ++ ys)
AllPlain-append [] ys h k = k
AllPlain-append (x ∷ xs) ys (h, h') k = (h, AllPlain-append xs ys h' k)

but_last-AllPlain : (xs : List Text) → AllPlain xs → AllPlain (but_last xs)
unfolding but_last
but_last-AllPlain [] h = tt
but_last-AllPlain (x ∷ []) h = tt
but_last-AllPlain (x ∷ y ∷ xs) (h, k) = (h, but_last-AllPlain (y ∷ xs) k)

settle-AllPlain : (kept segments : List Text) → AllPlain kept → AllPlain (settle kept segments)
unfolding settle eq_text
settle-AllPlain kept [] h = h
settle-AllPlain kept (s ∷ []) h = ground (
  arith,
  AllPlain-append kept ([] ∷ []) h (refl, tt),
  AllPlain-append (but_last kept) ([] ∷ []) (but_last-AllPlain kept h) (refl, tt),
  λ (e : is_plain s ≡ true). AllPlain-append kept (s ∷ []) h (e, tt),
)
settle-AllPlain kept (s ∷ t ∷ segments) h = settle-AllPlain (settle_one kept s) (t ∷ segments) (
    ground (
      arith,
      but_last-AllPlain kept h,
      λ (e : is_plain s ≡ true). AllPlain-append kept (s ∷ []) h (e, tt),
    ))

settle-AllSlashFree :
    (kept segments : List Text)
    → AllSlashFree kept
    → AllSlashFree segments
    → AllSlashFree (settle kept segments)
unfolding settle
settle-AllSlashFree kept [] h k = h
settle-AllSlashFree kept (s ∷ []) h (k, _) = ground (
  arith,
  AllSlashFree-append kept ([] ∷ []) h (refl, tt),
  AllSlashFree-append (but_last kept) ([] ∷ []) (but_last-AllSlashFree kept h) (refl, tt),
  AllSlashFree-append kept (s ∷ []) h (k, tt),
)
settle-AllSlashFree kept (s ∷ t ∷ segments) h (k, k') =
    settle-AllSlashFree (settle_one kept s) (t ∷ segments) (settle_one-AllSlashFree kept s h k) k'

settle_plain :
    (kept segments : List Text) → AllPlain segments → settle kept segments ≡ kept ++ segments
unfolding settle
settle_plain kept [] h = sym (append-nil kept)
settle_plain kept (s ∷ []) (h, k) = ground arith
settle_plain kept (s ∷ t ∷ segments) (h, k) =
    ap (λ one. settle one (t ∷ segments)) (ground arith)
    ∙ settle_plain (kept ++ s ∷ []) (t ∷ segments) k
    ∙ append_assoc kept (s ∷ []) (t ∷ segments)

-- The text is its segments, and each holds no `/`.
render-push_head :
    (c : ℕ) (segments : List Text) (p : Text)
    → render segments ≡ slash ∷ p
    → render (push_head c segments) ≡ slash ∷ c ∷ p
unfolding render
render-push_head c [] p e = cc
render-push_head c (s ∷ segments) p e = cc

pub render-split : (p : Text) → render (split p) ≡ slash ∷ p
unfolding split render
render-split [] = refl
render-split (c ∷ p) = elim (Bool-cases (c == slash)) [
  | inl e ↦ rw (e, (==_iff c slash).0 e) (ap (◌∷◌ slash) (render-split p))
  | inr e ↦ rw e (render-push_head c (split p) p (render-split p))
]

push_head-AllSlashFree :
    (c : ℕ) (segments : List Text)
    → (c == slash) ≡ false
    → AllSlashFree segments
    → AllSlashFree (push_head c segments)
push_head-AllSlashFree c [] e h = (ground arith, tt)
push_head-AllSlashFree c (s ∷ segments) e (h, k) = (ground arith, k)

pub split-AllSlashFree : (p : Text) → AllSlashFree (split p)
unfolding split
split-AllSlashFree [] = (refl, tt)
split-AllSlashFree (c ∷ p) = elim (Bool-cases (c == slash)) [
  | inl e ↦ rw e (refl, split-AllSlashFree p)
  | inr e ↦ rw e (push_head-AllSlashFree c (split p) e (split-AllSlashFree p))
]

-- Removing dot segments from an absolute path, by its segments.
pub remove_dot_segments-split :
    (p : Text) → remove_dot_segments (slash ∷ p) ≡ render (settle [] (split p))
remove_dot_segments-split p = go (split p) refl
  where
    go :
        (segments : List Text)
        → split p ≡ segments
        → remove_dot_segments (slash ∷ p) ≡ render (settle [] segments)
    go [] e = let nil : render [] ≡ [] = unfold render in refl in cc (nil, rw e at (render-split p))
    go (s ∷ segments) e =
        rw (← rw e at (render-split p))
          (remove_dot_segments-settle s segments (rw e at (split-AllSlashFree p)))

-- What is left of an absolute path has no dot segment.
pub remove_dot_segments-AllPlain :
    (p : Text)
    → (segments : List Text) × (remove_dot_segments (slash ∷ p) ≡ render segments)
      × AllPlain segments
      × AllSlashFree segments
remove_dot_segments-AllPlain p = (
  settle [] (split p),
  remove_dot_segments-split p,
  settle-AllPlain [] (split p) tt,
  settle-AllSlashFree [] (split p) tt (split-AllSlashFree p),
)

-- Removing dot segments twice from an absolute path is removing them once.
pub remove_dot_segments_idem :
    (p : Text)
    → remove_dot_segments (remove_dot_segments (slash ∷ p)) ≡ remove_dot_segments (slash ∷ p)
remove_dot_segments_idem p = go (settle [] (split p)) refl
  where
    go :
        (segments : List Text)
        → settle [] (split p) ≡ segments
        → remove_dot_segments (remove_dot_segments (slash ∷ p)) ≡ remove_dot_segments (slash ∷ p)
    go [] e =
        rw (remove_dot_segments-split p, e)
          (unfold render remove_dot_segments in remove_loop-done 0 [])
    go (s ∷ segments) e =
        let plain = rw e at (settle-AllPlain [] (split p) tt) in
        let free = rw e at (settle-AllSlashFree [] (split p) tt (split-AllSlashFree p)) in
        rw (remove_dot_segments-split p, e, remove_dot_segments-settle s segments free)
          (ap render (settle_plain [] (s ∷ segments) plain))

-- Plain segments go over to the output as they are.
remove_loop_plain :
    (n : ℕ) (segments : List Text) (out : Text)
    → length (render segments) ≤ n
    → AllPlain segments
    → AllSlashFree segments
    → remove_loop n (render segments) out ≡ out ++ render segments
remove_loop_plain n [] out h a f = unfold render in remove_loop-done n out ∙ sym (append-nil out)
remove_loop_plain zero (s ∷ segments) out h a f = absurd (unfold render in omega arith)
remove_loop_plain (suc n) (s ∷ []) out h (a, _) (f, _) =
    let e : render (s ∷ []) ≡ slash ∷ s = unfold render in rw append-nil refl in
    let moved : step (slash ∷ s) out ≡ ([], out ++ slash ∷ s) = step-last s out f ∙ ground arith in
    rw e
      (remove_loop_once n (slash ∷ s) out refl ∙ rw moved (remove_loop-done n (out ++ slash ∷ s)))
remove_loop_plain (suc n) (s ∷ t ∷ segments) out h (a, a') (f, f') =
    let moved : step (render (s ∷ t ∷ segments)) out ≡ (render (t ∷ segments), out ++ slash ∷ s) =
      step-segment s t segments out f ∙ ground arith in
    let shorter : length (render (t ∷ segments)) ≤ n =
      unfold render in omega (arith, length-append s (slash ∷ (t ++ render segments))) in
    remove_loop_once n (render (s ∷ t ∷ segments)) out (unfold render in refl)
    ∙ rw moved (
        remove_loop_plain n (t ∷ segments) (out ++ slash ∷ s) shorter a' f'
        ∙ append_assoc out (slash ∷ s) (render (t ∷ segments))
        ∙ unfold render in refl)

render-cons :
    (s : Text) (segments : List Text) → render (s ∷ segments) ≡ slash ∷ (s ++ render segments)
unfolding render
render-cons s segments = refl

step-rootless :
    (c : ℕ) (s : Text) (segments : List Text) (out : Text)
    → (c == slash) ≡ false
    → IsSlashFree s
    → is_plain (c ∷ s) ≡ true
    → step (c ∷ (s ++ render segments)) out ≡ (render segments, out ++ c ∷ s)
unfolding step render
step-rootless c [] [] out h f a = ground arith
step-rootless c [] (t ∷ segments) out h f a = ground arith
step-rootless c (d ∷ []) [] out h f a = ground arith
step-rootless c (d ∷ []) (t ∷ segments) out h f a = ground arith
step-rootless c (d ∷ e ∷ s) segments out h f a =
    ground (arith, before-segment s segments, from-segment s segments)

rootless :
    (c : ℕ) (s : Text) (segments : List Text)
    → (c == slash) ≡ false
    → IsSlashFree s
    → AllSlashFree segments
    → AllPlain ((c ∷ s) ∷ segments)
    → remove_dot_segments (c ∷ (s ++ render segments)) ≡ c ∷ (s ++ render segments)
unfolding remove_dot_segments
rootless c s segments h f f' (a, a') =
    remove_loop_once (length (s ++ render segments)) (c ∷ (s ++ render segments)) [] refl
    ∙ rw (step-rootless c s segments [] h f a) (
        remove_loop_plain (length (s ++ render segments)) segments (c ∷ s)
          (omega (arith, length-append s (render segments))) a' f')

-- Removing dot segments leaves a path alone that has none, absolute or not.
pub remove_dot_segments_plain : (path : Text) → IsDotless path → remove_dot_segments path ≡ path
unfolding split
remove_dot_segments_plain [] h = unfold remove_dot_segments in remove_loop-done 0 []
remove_dot_segments_plain (c ∷ p) h = elim (Bool-cases (c == slash)) [
  | inl e ↦
      rw
        ((==_iff c slash).0 e, remove_dot_segments-split p, settle_plain [] (split p) (rw e at h).1)
        (render-split p)
  | inr e ↦ go (split p) refl (rw e at h) e
]
  where
    go :
        (segments : List Text)
        → split p ≡ segments
        → AllPlain (push_head c (split p))
        → (c == slash) ≡ false
        → remove_dot_segments (c ∷ p) ≡ c ∷ p
    go [] e a h =
        let nil : render [] ≡ [] = unfold render in refl in cc (nil, rw e at (render-split p))
    go (s ∷ segments) e a h =
        let (f, f') = rw e at (split-AllSlashFree p) in
        let whole : p ≡ s ++ render segments =
          cc (rw e at (render-split p), render-cons s segments) in
        rw whole (rootless c s segments h f f' (rw e at a))
