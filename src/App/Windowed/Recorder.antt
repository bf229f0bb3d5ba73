-- ===== src/App/Windowed/Recorder.antt =====
-- Recording an image that can be shown, and playing back, give a result, and keep the recorder ready.
use xtrack.Prelude.{
  ℕ, ◌<◌, ◌^◌, ◌≡◌, refl, false, Bool-cases, inl, inr, Option, none, some, InInt, Yields, yields,
  Yields-if, Yields-then, Yields-and, Returns-Yields, arith,
}
use xtrack.Text.{Text}
use xtrack.Floating.{Floating, ◌⊕◌}
use xtrack.OpenCv.{OpenCv, CvSize}
use xtrack.Record.Recorder.{
  CameraRecorder, FramePointer, live, unset, null, freed, record_frame, initialized, pointed,
}
use xtrack.Record.Player.{Found, is_empty, next_frame, playback_frame}
use xtrack.Record.Playback.{IsLive, IsPresent}
use xtrack.Record.Ranges.{next_frame-Gives}
use xtrack.Record.Ends.{stops, next_frame_ends}
use xtrack.Display.{CameraDisplay}
use xtrack.App.Total.{deleted-Returns}
use xtrack.App.Windowed.{
  sized, HasSize, IsFilled, SizeLaws, IsShowable, HasVideos, PointerFits, ReadyRecorder,
}
use xtrack.App.Windowed.Images.{HasSize-IsShowable}

initialized-Yields {ℓ} :
    {A : Type ℓ} (o : Option A) → IsPresent o → Yields (λ _. Unit {0}) (initialized o)
initialized-Yields none h = absurd h
initialized-Yields (some a) h = yields tt

pointed-Yields : {M : Type 0} (p : FramePointer M) → IsLive p → Yields (λ m. p ≡ live m) (pointed p)
pointed-Yields unset h = absurd h
pointed-Yields null h = absurd h
pointed-Yields (live m) h = yields refl
pointed-Yields freed h = absurd h

live_injective : {M : Type 0} (m n : M) → live m ≡ live n → m ≡ n
live_injective m n e = cc

module _ {D : Type 0} ⦃d : Floating D⦄ (cv : OpenCv D) where
  not_empty : (m : cv.Mat) → is_empty cv m ≡ false → IsFilled cv m
  not_empty m e = ground arith

  -- The frame that is found is not empty.
  next_frame-IsFilled :
      (world : cv.World) (dir : Text) (fuel : ℕ) (found : Found cv)
      → HasVideos cv dir world
      → InInt found.number
      → 2 ^ 33 < fuel
      → Yields (λ last. IsFilled cv last.frame) (next_frame cv world dir fuel found)
  next_frame-IsFilled world dir fuel found (listed, signs, (target, readable)) fits enough =
      elim (Bool-cases (is_empty cv found.frame)) [
        | inr e ↦
            rw
              (stops cv world dir listed signs target readable fuel found (omega (arith, enough)) e)
              (yields (not_empty found.frame e))
        | inl e ↦
            let (n, ends, first) =
              next_frame_ends cv world dir listed signs target readable fuel found fits e enough in
            rw ends (yields (not_empty _ first.0.1))
      ]

  next_frame-Yields :
      (world : cv.World) (dir : Text) (fuel : ℕ) (found : Found cv)
      → HasVideos cv dir world
      → InInt found.number
      → 2 ^ 33 < fuel
      → Yields
          (λ last. IsFilled cv last.frame × InInt last.number)
          (next_frame cv world dir fuel found)
  next_frame-Yields world dir fuel found videos fits enough =
      Yields-and (next_frame-IsFilled world dir fuel found videos fits enough)
        (next_frame-Gives cv world dir fuel found fits)

module _ {D : Type 0} ⦃d : Floating D⦄ (cv : OpenCv D) (laws : SizeLaws cv)
    (window : CameraDisplay) where
  pub live-PointerFits : (m : cv.Mat) → IsShowable cv window m → PointerFits cv window (live m)
  live-PointerFits m h n e = rw⁻¹ (live_injective m n e) h

  resize-Yields :
      (m : cv.Mat) (size : CvSize) (w h : ℕ)
      → size ≡ sized w h
      → IsFilled cv m
      → 0 < w
      → 0 < h
      → Yields (HasSize cv w h) (cv.resize m size)
  resize-Yields m size w h e filled a b =
      let (n, resized, here) = laws.resize_filled m w h filled a b in rw (e, resized) (yields here)

  -- The recorder stays ready, with its directory.
  abbrev pub StaysReady : CameraRecorder cv → CameraRecorder cv → Type 0
  StaysReady r r' = ReadyRecorder cv window r' × (r'.video_dir ≡ r.video_dir)

  pub record_frame-Ready :
      (r : CameraRecorder cv) (m : cv.Mat)
      → IsPresent r.frame_progress
      → IsFilled cv m
      → ReadyRecorder cv window r
      → Yields (StaysReady r) (record_frame cv r m)
  unfolding record_frame
  record_frame-Ready r m there filled h =
      let (w, h', size, a, b) = h.small in
      Yields-then (initialized-Yields r.frame_progress there) (λ p _.
        Yields-if (d.le (d.literal 1 1) (p ⊕ r.frame_rate_ratio))
          (Yields-then (resize-Yields m r.record_size w h' size filled a b) (λ small _. yields (
            record { small = h.small; orig = h.orig; pointer = h.pointer; number = h.number },
            refl,
          )))
          (λ _. yields (
            record { small = h.small; orig = h.orig; pointer = h.pointer; number = h.number },
            refl,
          )))

  -- The image that is played back can be shown.
  pub playback_frame-Ready :
      (world : cv.World) (fuel : ℕ) (r : CameraRecorder cv)
      → IsPresent r.frame_progress
      → IsLive r.last_played_frame
      → ReadyRecorder cv window r
      → HasVideos cv r.video_dir world
      → 2 ^ 33 < fuel
      → Yields
          (λ res. IsShowable cv window res.0 × StaysReady r res.1)
          (playback_frame cv world fuel r)
  unfolding playback_frame
  playback_frame-Ready world fuel r there alive h videos enough =
      let (w, h', size, a, b, c, c') = h.orig in
      Yields-then (initialized-Yields r.frame_progress there) (λ p _.
        Yields-if (d.le (d.literal 1 1) (p ⊕ r.frame_rate_ratio))
          (Yields-then (Returns-Yields (deleted-Returns r.last_played_frame alive)) (λ _ _.
            Yields-then (next_frame-Yields cv world r.video_dir fuel _ videos h.number enough)
              (λ found q.
                Yields-then (resize-Yields found.frame r.orig_size w h' size q.0 a b)
                  (λ output here.
                    let shown = HasSize-IsShowable cv laws window w h' output here a b c c' in
                    yields (
                      shown,
                      (
                        record {
                          small = h.small;
                          orig = h.orig;
                          pointer = live-PointerFits output shown;
                          number = q.1;
                        },
                        refl,
                      ),
                    )))))
          (λ _. Yields-then (pointed-Yields r.last_played_frame alive) (λ m at. yields (
            h.pointer m at,
            (
              record { small = h.small; orig = h.orig; pointer = h.pointer; number = h.number },
              refl,
            ),
          ))))
