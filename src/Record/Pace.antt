-- ===== src/Record/Pace.antt =====
-- Which frames are recorded, where the numbers involved are exact.
use mathlib.Core.List.{foldl}
use native.Mathlib.Nat.{zero-add, mod-lt, div-eq_of_lt, mod-eq_of_lt}
use xtrack.Prelude.{
  ℕ, suc, ◌+◌, ◌-◌, ◌*◌, ◌/◌, ◌%◌, ◌<◌, ◌≤◌, ◌≡◌, ◌∙◌, refl, sym, ap, true, false, Bool-cases, inl,
  inr, some, List, [], ◌∷◌, All, map, leb, length, Outcome, ok, ◌>>=◌, arith,
}
use xtrack.Floating.{Floating, ◌⊕◌, ◌⊖◌}
use xtrack.OpenCv.{OpenCv}
use xtrack.Record.Recorder.{CameraRecorder, record_frame}
use xtrack.Record.Chosen.{
  over, under, rounds, no_rounds, chosen, chosen-over, chosen-under, length-chosen,
}

-- The multiples of 1/q that the progress goes through are exact: the sums, the differences to 1 and the
-- comparisons with 1. (A power of two is such a number of parts.)
pub record IsExact {D : Type 0} ⦃d : Floating D⦄ (q : ℕ) (part : ℕ → D) : Type 0 where
  pub positive : 0 < q
  pub start : d.literal 0 1 ≡ part 0
  pub sum : (a b : ℕ) → a < q → b ≤ q → part a ⊕ part b ≡ part (a + b)
  pub difference : (a : ℕ) → q ≤ a → a < 2 * q → part a ⊖ d.literal 1 1 ≡ part (a - q)
  pub comparison : (a : ℕ) → a < 2 * q → d.le (d.literal 1 1) (part a) ≡ leb q a

module _ {D : Type 0} ⦃d : Floating D⦄ (cv : OpenCv D) where
  -- `recordFrame` for one frame after the other.
  unfoldable pub record_frames : CameraRecorder cv → List cv.Mat → Outcome (CameraRecorder cv)
  record_frames r [] = ok r
  record_frames r (m ∷ ms) = record_frame cv r m >>= λ r'. record_frames r' ms

  module _ (p q : ℕ) (part : ℕ → D) (exact : IsExact q part) (slow : p ≤ q)
      (small : cv.Mat → cv.Mat) where
    after : CameraRecorder cv → ℕ → List cv.Mat → CameraRecorder cv
    after r total ms = record r {
      video_writer = foldl cv.write r.video_writer (map small (chosen p q total ms));
      frame_progress = some (part ((total + length ms * p) % q));
    }

    module _ (r : CameraRecorder cv) (total : ℕ) (ratio : r.frame_rate_ratio ≡ part p)
        (progress : r.frame_progress ≡ some (part (total % q))) where
      record_due :
          (m : cv.Mat)
          → cv.resize m r.record_size ≡ ok (small m)
          → q ≤ total % q + p
          → record_frame cv r m
            ≡ ok (record r {
              video_writer = cv.write r.video_writer (small m);
              frame_progress = some (part ((total + p) % q));
            })
      unfolding record_frame
      record_due m resizes due =
          let before = mod-lt total exact.positive in
          let test : leb q (total % q + p) ≡ true = ground arith in
          rw
            (
              progress,
              ratio,
              exact.sum (total % q) p before slow,
              exact.comparison (total % q + p) (omega arith),
              test,
              resizes,
              exact.difference (total % q + p) due (omega arith),
              (over total p q exact.positive slow due).1,
            )
            refl

      record_early :
          (m : cv.Mat)
          → total % q + p < q
          → record_frame cv r m ≡ ok (record r { frame_progress = some (part ((total + p) % q)) })
      unfolding record_frame
      record_early m early =
          let before = mod-lt total exact.positive in
          let test : leb q (total % q + p) ≡ false = ground arith in
          rw
            (
              progress,
              ratio,
              exact.sum (total % q) p before slow,
              exact.comparison (total % q + p) (omega arith),
              test,
              (under total p q exact.positive early).1,
            )
            refl

    moved :
        (r : CameraRecorder cv) (total : ℕ) (ms : List cv.Mat)
        → ◌≡◌ {A = Outcome (CameraRecorder cv)} (ok (after r (total + p) ms)) (
            ok (record r {
              video_writer = foldl cv.write r.video_writer (map small (chosen p q (total + p) ms));
              frame_progress = some (part ((total + suc (length ms) * p) % q));
            }))
    unfolding after
    moved r total ms =
        ap
          (λ x. ok (record r {
            video_writer = foldl cv.write r.video_writer (map small (chosen p q (total + p) ms));
            frame_progress = some (part (x % q));
          }))
          (rounds total p (length ms))

    record_frames-after :
        (r : CameraRecorder cv) (total : ℕ) (ms : List cv.Mat)
        → All (λ m. cv.resize m r.record_size ≡ ok (small m)) ms
        → r.frame_rate_ratio ≡ part p
        → r.frame_progress ≡ some (part (total % q))
        → record_frames r ms ≡ ok (after r total ms)
    unfolding record_frames after
    record_frames-after r total [] resizes ratio progress =
        ap (λ x. ok (record r { frame_progress = x }))
          (progress ∙ ap (λ x. some (part (x % q))) (sym (no_rounds total p)))
    record_frames-after r total (m ∷ ms) resizes ratio progress =
        elim (Bool-cases (leb q (total % q + p))) [
          | inl due ↦
              let step = record_due r total ratio progress m resizes.0 (ground arith) in
              let (e, _) = over total p q exact.positive slow (ground arith) in
              rw (step, chosen-over p q total m ms e)
                (record_frames-after
                    (record r {
                      video_writer = cv.write r.video_writer (small m);
                      frame_progress = some (part ((total + p) % q));
                    })
                    (total + p) ms resizes.1 ratio refl
                  ∙ moved (record r { video_writer = cv.write r.video_writer (small m) }) total ms)
          | inr early ↦
              let step = record_early r total ratio progress m (ground arith) in
              let (e, _) = under total p q exact.positive (ground arith) in
              rw (step, chosen-under p q total m ms e)
                (record_frames-after (record r { frame_progress = some (part ((total + p) % q)) })
                    (total + p) ms resizes.1 ratio refl
                  ∙ moved r total ms)
        ]

    -- From the start of a recording, with a rate of p/q of the camera's and numbers that are exact: of n
    -- frames, those are written, resized and in order, at which the total of p for each frame gets over a
    -- multiple of q, which are n * p / q frames, and the progress is what remains of the total.
    pub record_frames_exact :
        (r : CameraRecorder cv) (ms : List cv.Mat)
        → All (λ m. cv.resize m r.record_size ≡ ok (small m)) ms
        → r.frame_rate_ratio ≡ part p
        → r.frame_progress ≡ some (d.literal 0 1)
        → (record_frames r ms
            ≡ ok (record r {
              video_writer = foldl cv.write r.video_writer (map small (chosen p q 0 ms));
              frame_progress = some (part (length ms * p % q));
            }))
          × (length (chosen p q 0 ms) ≡ length ms * p / q)
    unfolding after
    record_frames_exact r ms resizes ratio progress = (
      record_frames-after r 0 ms resizes ratio (
            progress
            ∙ ap some exact.start
            ∙ ap (λ x. some (part x)) (sym (mod-eq_of_lt exact.positive)))
          ∙ ap
              (λ x. ok (record r {
                video_writer = foldl cv.write r.video_writer (map small (chosen p q 0 ms));
                frame_progress = some (part (x % q));
              }))
              (zero-add (length ms * p)),
      sym (zero-add _)
          ∙ ap (λ x. x + length (chosen p q 0 ms)) (sym (div-eq_of_lt exact.positive))
          ∙ length-chosen p q 0 ms exact.positive slow
          ∙ ap (λ x. x / q) (zero-add (length ms * p)),
    )
