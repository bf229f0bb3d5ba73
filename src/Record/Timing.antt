-- ===== src/Record/Timing.antt =====
-- The pace of the playback: it shows the frames of a recording at the times at which they were recorded.
use xtrack.Prelude.{
  ℕ, zero, suc, ◌+◌, ◌%◌, ◌<◌, ◌≤◌, ◌≡◌, ◌∙◌, refl, sym, ap, true, false, Bool-cases, inl, inr,
  some, List, [], ◌∷◌, All, map, leb, length, get_elem?, take, Outcome, ok, ◌>>=◌, Yields, yields,
  Yields-then, arith,
}
use mathlib.Core.Path.{subst}
use native.Mathlib.Nat.{mod-lt}
use xtrack.Floating.{Floating}
use xtrack.OpenCv.{OpenCv}
use xtrack.Record.Recorder.{CameraRecorder, live}
use xtrack.Record.Player.{is_empty, next_frame, playback_frame}
use xtrack.Record.Chosen.{over, under, chosen, chosen-over, chosen-under}
use xtrack.Record.Pace.{IsExact}

-- The last item, or what was there before.
abbrev pub latest {ℓ} : {A : Type ℓ} → A → List A → A
latest a [] = a
latest a (b ∷ bs) = latest b bs

module _ {D : Type 0} ⦃d : Floating D⦄ (cv : OpenCv D) where
  -- A reader whose next frames are these.
  pub data Holds : cv.Reader → List cv.Mat → Type 0 where
    no_more : {reader : cv.Reader} → Holds reader []
    next :
        {reader rest : cv.Reader} {m : cv.Mat} {ms : List cv.Mat}
        → cv.read reader ≡ (m, rest)
        → is_empty cv m ≡ false
        → Holds rest ms
        → Holds reader (m ∷ ms)

  first_held :
      {reader : cv.Reader} {m : cv.Mat} {ms : List cv.Mat}
      → Holds reader (m ∷ ms)
      → (rest : cv.Reader) × (cv.read reader ≡ (m, rest)) × (is_empty cv m ≡ false) × Holds rest ms
  first_held (next {rest = rest} reads filled others) = (rest, reads, filled, others)

  -- `playbackFrame` in one round after the other, and the images that it gives.
  unfoldable pub playback_frames :
      cv.World → ℕ → CameraRecorder cv → ℕ → Outcome (List cv.Mat × CameraRecorder cv)
  playback_frames world fuel r zero = ok ([], r)
  playback_frames world fuel r (suc n) = do
    (image, r') ← playback_frame cv world fuel r
    (images, last) ← playback_frames world fuel r' n
    ok (image ∷ images, last)

  -- The image of each round is the last one of the frames recorded up to the same round.
  abbrev pub InTime :
      (p q : ℕ)
      → (cv.Mat → cv.Mat)
      → (cv.Mat → cv.Mat)
      → ℕ
      → cv.Mat
      → List cv.Mat
      → List cv.Mat
      → Type 0
  InTime p q small back total c ms images =
      (length images ≡ length ms)
      × ((i : ℕ)
          → i < length ms
          → get_elem? images i
            ≡ some (latest c (map back (map small (chosen p q total (take (suc i) ms))))))

  module _ (p q : ℕ) (part : ℕ → D) (exact : IsExact q part) (slow : p ≤ q)
      (small back : cv.Mat → cv.Mat) (world : cv.World) (fuel : ℕ) where
    module _ (r : CameraRecorder cv) (total : ℕ) (ratio : r.frame_rate_ratio ≡ part p)
        (progress : r.frame_progress ≡ some (part (total % q))) where
      playback_due :
          (m c : cv.Mat) (rest : cv.Reader)
          → q ≤ total % q + p
          → r.last_played_frame ≡ live c
          → cv.read r.video_reader ≡ (m, rest)
          → is_empty cv m ≡ false
          → cv.resize m r.orig_size ≡ ok (back m)
          → playback_frame cv world (suc fuel) r
            ≡ ok (
              back m,
              record r {
                video_reader = rest;
                frame_progress = some (part ((total + p) % q));
                last_played_frame = live (back m);
              },
            )
      unfolding playback_frame next_frame
      playback_due m c rest due shown reads filled resizes =
          let before = mod-lt total exact.positive in
          let test : leb q (total % q + p) ≡ true = ground arith in
          rw
            (
              progress,
              ratio,
              exact.sum (total % q) p before slow,
              exact.comparison (total % q + p) (omega arith),
              test,
              shown,
              reads,
              filled,
              resizes,
              exact.difference (total % q + p) due (omega arith),
              (over total p q exact.positive slow due).1,
            )
            refl

      playback_early :
          (c : cv.Mat)
          → total % q + p < q
          → r.last_played_frame ≡ live c
          → playback_frame cv world (suc fuel) r
            ≡ ok (c, record r { frame_progress = some (part ((total + p) % q)) })
      unfolding playback_frame
      playback_early c early shown =
          let before = mod-lt total exact.positive in
          let test : leb q (total % q + p) ≡ false = ground arith in
          rw
            (
              progress,
              ratio,
              exact.sum (total % q) p before slow,
              exact.comparison (total % q + p) (omega arith),
              test,
              shown,
              (under total p q exact.positive early).1,
            )
            refl

    -- The first round in front of the others.
    InTime-first :
        (total : ℕ) (c first m : cv.Mat) (ms images : List cv.Mat)
        → ((k : List cv.Mat)
            → latest c (map back (map small (chosen p q total (m ∷ k))))
              ≡ latest first (map back (map small (chosen p q (total + p) k))))
        → InTime p q small back (total + p) first ms images
        → InTime p q small back total c (m ∷ ms) (first ∷ images)
    InTime-first total c first m ms images step (l, h) = (ap suc l, λ i. go i)
      where
        go :
            (i : ℕ)
            → i < suc (length ms)
            → get_elem? (first ∷ images) i
              ≡ some (latest c (map back (map small (chosen p q total (take (suc i) (m ∷ ms))))))
        go zero _ = ap some (sym (step []))
        go (suc i) small_i = h i (omega arith) ∙ ap some (sym (step (take (suc i) ms)))

    pub playback_frames-InTime :
        (ms : List cv.Mat) (r : CameraRecorder cv) (total : ℕ) (c : cv.Mat)
        → Holds r.video_reader (map small (chosen p q total ms))
        → All (λ m. cv.resize (small m) r.orig_size ≡ ok (back (small m))) ms
        → r.frame_rate_ratio ≡ part p
        → r.frame_progress ≡ some (part (total % q))
        → r.last_played_frame ≡ live c
        → Yields
            (λ res. InTime p q small back total c ms res.0)
            (playback_frames world (suc fuel) r (length ms))
    unfolding playback_frames
    playback_frames-InTime [] r total c held resizes ratio progress shown =
        yields (refl, λ i none_left. absurd (omega arith))
    playback_frames-InTime (m ∷ ms) r total c held (resize, resizes) ratio progress shown =
        elim (Bool-cases (leb q (total % q + p))) [
          | inl due ↦
              let (e, _) = over total p q exact.positive slow (ground arith) in
              let (rest, reads, filled, others) = first_held (
                subst (Holds r.video_reader) (ap (map small) (chosen-over p q total m ms e))
                  held) in
              rw
                (playback_due r total ratio progress (small m) c rest (ground arith) shown reads
                  filled resize)
                (Yields-then
                  (playback_frames-InTime ms
                    (record r {
                      video_reader = rest;
                      frame_progress = some (part ((total + p) % q));
                      last_played_frame = live (back (small m));
                    })
                    (total + p) (back (small m)) others resizes ratio refl refl)
                  (λ res h. yields (
                    InTime-first total c (back (small m)) m ms res.0
                      (λ k.
                        ap (λ l. latest c (map back (map small l))) (chosen-over p q total m k e))
                      h)))
          | inr early ↦
              let (e, _) = under total p q exact.positive (ground arith) in
              rw (playback_early r total ratio progress c (ground arith) shown) (
                Yields-then
                  (playback_frames-InTime ms
                    (record r { frame_progress = some (part ((total + p) % q)) }) (total + p) c
                    (subst (Holds r.video_reader) (ap (map small) (chosen-under p q total m ms e))
                      held)
                    resizes ratio refl shown)
                  (λ res h. yields (
                    InTime-first total c c m ms res.0
                      (λ k.
                        ap (λ l. latest c (map back (map small l))) (chosen-under p q total m k e))
                      h)))
        ]
