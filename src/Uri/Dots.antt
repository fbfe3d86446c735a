-- ===== src/Uri/Dots.antt =====
-- Removing dot segments (RFC 3986, section 5.2.4): the loop on text ends, and on an absolute path
-- it does what a stack of segments does.
use native.Mathlib.Nat.{le_refl}
use xenolith.Common.{
  ℕ, zero, suc, ◌≤◌, ◌<◌, ◌≡◌, refl, ap, ◌∙◌, inl, inr, true, false, List, [], ◌∷◌, ◌++◌, arith,
  Bool-cases, length, length-append, drop, is_empty, append-nil,
}
use xenolith.Text.{Text, from, eq_text, eq_text_iff}
use xenolith.Uri.Resolve.{slash, step, remove_loop, remove_dot_segments, but_last}
use xenolith.Uri.Segments.{
  IsSlashFree, AllSlashFree, render, is_dot, is_dot_dot, settle_one, settle_last, settle,
  pop_segment-render, render-append, step-segment, step-last, remove_loop-slash, remove_loop-done,
  settle_one-AllSlashFree,
}

length-drop-le {ℓ} : {A : Type ℓ} (n : ℕ) (xs : List A) → length (drop n xs) ≤ length xs
length-drop-le zero xs = le_refl _
length-drop-le (suc n) [] = le_refl _
length-drop-le (suc n) (x ∷ xs) = omega (arith, length-drop-le n xs)

length-from-le : (c : ℕ) (s : Text) → length (from c s) ≤ length s
length-from-le c [] = le_refl _
length-from-le c (d ∷ s) = ground (arith, length-from-le c s)

-- Each round of the loop takes something off the input.
step-shorter : (c : ℕ) (input out : Text) → length (step (c ∷ input) out).0 < length (c ∷ input)
unfolding step
step-shorter c input out = ground (
  arith,
  length-drop-le 1 input,
  length-drop-le 2 input,
  length-from-le slash input,
  eq_text_iff (c ∷ input) (slash ∷ b'.' ∷ []),
  eq_text_iff (c ∷ input) (slash ∷ b'.' ∷ b'.' ∷ []),
)

-- The rounds of the loop of `remove_dot_segments` from an input and an output, until the input is
-- empty: what the output is then.
pub data Rounds : Text → Text → Text → Type 0 where
  ended : (out : Text) → Rounds [] out out
  round :
      (c : ℕ) (input out result : Text)
      → Rounds (step (c ∷ input) out).0 (step (c ∷ input) out).1 result
      → Rounds (c ∷ input) out result

-- The loop ends: from any input and output, finitely many rounds empty the input, and fuel of the
-- length of the input or more gives the output that they end with.
pub remove_loop-Rounds :
    (fuel : ℕ) (input out : Text)
    → length input ≤ fuel
    → Rounds input out (remove_loop fuel input out)
unfolding remove_loop
remove_loop-Rounds fuel [] out h = ended out
remove_loop-Rounds zero (c ∷ input) out h = absurd (omega arith)
remove_loop-Rounds (suc fuel) (c ∷ input) out h =
    let shorter = step-shorter c input out in
    let after = step (c ∷ input) out in
    round c input out (remove_loop fuel after.0 after.1)
      (remove_loop-Rounds fuel after.0 after.1 (omega arith))

-- A dot segment has a character.
dot_room :
    (n : ℕ) (s dots : Text)
    → eq_text s dots ≡ true
    → 1 ≤ length dots
    → suc (length s) ≤ suc n
    → 1 ≤ n
dot_room n s dots e k h = omega (arith, ap (λ (t : Text). length t) ((eq_text_iff s dots).0 e))

pub remove_loop_once :
    (n : ℕ) (input out : Text)
    → is_empty input ≡ false
    → remove_loop (suc n) input out ≡ remove_loop n (step input out).0 (step input out).1
unfolding remove_loop
remove_loop_once n [] out h = cc
remove_loop_once n (c ∷ input) out h = refl

remove_loop-last :
    (n : ℕ) (s : Text) (kept : List Text)
    → suc (length s) ≤ n
    → IsSlashFree s
    → AllSlashFree kept
    → remove_loop n (slash ∷ s) (render kept) ≡ render (settle_last kept s)
remove_loop-last zero s kept h k l = absurd (omega arith)
remove_loop-last (suc n) s kept h k l =
    remove_loop_once n (slash ∷ s) (render kept) refl ∙ elim (Bool-cases (is_dot s)) [
      | inl dot ↦
          rw (step-last s (render kept) k, dot, render-append)
            (unfold render in
              remove_loop-slash n (render kept) (dot_room n s (b'.' ∷ []) dot (omega arith) h))
      | inr other ↦ elim (Bool-cases (is_dot_dot s)) [
        | inl dots ↦
            rw (step-last s (render kept) k, other, dots, render-append, pop_segment-render kept l)
              (unfold render in
                remove_loop-slash n (render (but_last kept))
                  (dot_room n s (b'.' ∷ b'.' ∷ []) dots (omega arith) h))
        | inr name ↦
            rw (step-last s (render kept) k, other, name, render-append)
              (unfold render in rw append-nil (remove_loop-done n (render kept ++ slash ∷ s)))
      ]
    ]

step-settle :
    (s t : Text) (segments kept : List Text)
    → IsSlashFree s
    → AllSlashFree kept
    → step (render (s ∷ t ∷ segments)) (render kept)
      ≡ (render (t ∷ segments), render (settle_one kept s))
step-settle s t segments kept k l =
    step-segment s t segments (render kept) k ∙ elim (Bool-cases (is_dot s)) [
      | inl dot ↦ rw dot refl
      | inr other ↦ elim (Bool-cases (is_dot_dot s)) [
        | inl dots ↦ rw (other, dots, pop_segment-render kept l) refl
        | inr name ↦ rw (other, name, render-append) (unfold render in rw append-nil refl)
      ]
    ]

remove_loop-step :
    (n : ℕ) (s t : Text) (segments kept : List Text)
    → IsSlashFree s
    → AllSlashFree kept
    → remove_loop (suc n) (render (s ∷ t ∷ segments)) (render kept)
      ≡ remove_loop n (render (t ∷ segments)) (render (settle_one kept s))
remove_loop-step n s t segments kept k l =
    remove_loop_once n (render (s ∷ t ∷ segments)) (render kept) (unfold render in refl)
    ∙ rw (step-settle s t segments kept k l) refl

remove_loop-settle :
    (n : ℕ) (s : Text) (segments kept : List Text)
    → length (render (s ∷ segments)) ≤ n
    → AllSlashFree (s ∷ segments)
    → AllSlashFree kept
    → remove_loop n (render (s ∷ segments)) (render kept) ≡ render (settle kept (s ∷ segments))
unfolding settle
remove_loop-settle n s [] kept h (k, _) l =
    let e : render (s ∷ []) ≡ slash ∷ s = unfold render in rw append-nil refl in
    rw e (remove_loop-last n s kept (rw e at h) k l)
remove_loop-settle zero s (t ∷ segments) kept h (k, k') l = absurd (unfold render in omega arith)
remove_loop-settle (suc n) s (t ∷ segments) kept h (k, k') l =
    let shorter : length (render (t ∷ segments)) ≤ n =
      unfold render in omega (arith, length-append s (slash ∷ (t ++ render segments))) in
    remove_loop-step n s t segments kept k l
    ∙ remove_loop-settle n t segments (settle_one kept s) shorter k'
        (settle_one-AllSlashFree kept s l k)

-- On an absolute path, whose segments hold no `/`, the loop over text does what a stack of segments
-- does: a segment `.` is dropped, `..` takes back the one before it, and either leaves an empty
-- segment where it was the last.
pub remove_dot_segments-settle :
    (s : Text) (segments : List Text)
    → AllSlashFree (s ∷ segments)
    → remove_dot_segments (render (s ∷ segments)) ≡ render (settle [] (s ∷ segments))
unfolding remove_dot_segments render
remove_dot_segments-settle s segments h =
    remove_loop-settle (length (render (s ∷ segments))) s segments [] (le_refl _) h tt
