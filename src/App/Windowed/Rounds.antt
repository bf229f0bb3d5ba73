-- ===== src/App/Windowed/Rounds.antt =====
-- With the window, a round gives a state from which the next one goes on.
use mathlib.Core.Path.{subst}
use xtrack.Prelude.{
  suc, sym, ◌∙◌, ◌≡◌, refl, ℕ, ◌<◌, ◌^◌, Option, none, some, List, [], ◌∷◌, ok, raise, undefined,
  ◌>>=◌, Yields, yields, Yields-then, Yields-ensured, Returns-Yields,
}
use xtrack.Text.{Text}
use xtrack.Floating.{Floating}
use xtrack.OpenCv.{OpenCv, OpenCvLaws}
use xtrack.Fiducials.Libfidtrack.{FidTrack}
use xtrack.Tuio.Wosclib.{Wosc}
use xtrack.Record.Recorder.{RecordMode, normal, recording, playback, CameraRecorder}
use xtrack.Display.{CameraDisplay}
use xtrack.Display.Drawing.{display_tracked_image}
use xtrack.App.{Config, AppState, Tick, Output, input}
use xtrack.App.Loop.{show_input, run_recorder, process_frame}
use xtrack.App.Safety.{IsSafe, Fits}
use xtrack.App.Process.{show_input-Ensures, run_recorder-Ensures}
use xtrack.App.Windowed.{
  SizeLaws, IsWide, IsFullFrame, IsShowable, HasVideos, WriterLaws, Stocks, IsStocked, IsReady,
  IsDrawn,
}
use xtrack.App.Windowed.Images.{
  cut_frame-IsShowable, turned-IsShowable, display_tracked_image-Returns,
  draw_tracking_info-IsShowable,
}
use xtrack.App.Windowed.Recorder.{record_frame-Ready, playback_frame-Ready}
use xtrack.App.Windowed.Keys.{press_key-Ready}

module _ {F D : Type 0} ⦃f : Floating F⦄ ⦃d : Floating D⦄ (lib : FidTrack F) (osc : Wosc F)
    (cv : OpenCv D) (narrow : D → F) (data_of : cv.Mat → lib.Image) (laws : SizeLaws cv)
    (dir : Text) (count : ℕ) (window : CameraDisplay) where
  shown-Yields :
      (m : cv.Mat)
      → IsShowable cv window m
      → Yields (λ _. Unit {0}) (display_tracked_image cv window m)
  shown-Yields m h = Returns-Yields (display_tracked_image-Returns cv laws window m h)

  abbrev DrawnResult : AppState F D lib cv × List (Output cv) → Type 0
  DrawnResult res = IsDrawn count dir window res.0

  show_window :
      (mode : RecordMode) (flipped : cv.Mat) (s : AppState F D lib cv)
      → s.record_mode ≡ mode
      → IsShowable cv window flipped
      → IsStocked count dir window s
      → Yields DrawnResult (show_input lib osc cv narrow data_of (some window) mode flipped s)
  unfolding show_input
  show_window playback flipped s e shows h = yields (h, λ e'. cc)
  show_window _ flipped s e shows h =
      Yields-then
        (draw_tracking_info-IsShowable cv laws window flipped s.finder.tracked_fiducials shows)
        (λ drawn p. Yields-then (shown-Yields drawn p) (λ _ _. yields (h, λ _. p.0)))

  show_input-Drawn :
      (display : Option CameraDisplay) (mode : RecordMode) (flipped : cv.Mat)
      (s : AppState F D lib cv)
      → display ≡ some window
      → s.record_mode ≡ mode
      → IsShowable cv window flipped
      → IsStocked count dir window s
      → Yields DrawnResult (show_input lib osc cv narrow data_of display mode flipped s)
  show_input-Drawn display mode flipped s there e shows h =
      rw there (show_window mode flipped s e shows h)

  played-Stocked :
      (s : AppState F D lib cv) (frame : cv.Mat) (r : CameraRecorder cv)
      (display : Option CameraDisplay)
      → display ≡ some window
      → IsShowable cv window frame
      → s.display ≡ some window
      → Stocks cv count dir window s.world r
      → Yields
          (λ (res : AppState F D lib cv × List (Output cv)). IsStocked count dir window res.0)
          (elim display [
            | none ↦ raise undefined
            | some shown_in ↦
                (display_tracked_image cv shown_in frame >>= λ shown.
                ok (record s { recorder = r }, input shown ∷ []))
          ])
  played-Stocked s frame r display there shows shown stocks =
      rw there (Yields-then (shown-Yields frame shows) (λ _ _. yields (shown, stocks)))

  run_recorder-Stocked :
      (fuel : ℕ) (mode : RecordMode) (s : AppState F D lib cv)
      → 2 ^ 33 < fuel
      → s.record_mode ≡ mode
      → IsSafe s
      → IsDrawn count dir window s
      → Yields
          (λ res. IsStocked count dir window res.0)
          (run_recorder lib osc cv narrow data_of fuel mode s)
  unfolding run_recorder
  run_recorder-Stocked fuel normal s enough e safe h = yields h.0
  run_recorder-Stocked fuel recording s enough e safe ((shown, (ready, same, stock)), drawn) =
      let (_, present) =
        subst (λ m. Fits m s.display s.recorder.last_played_frame s.recorder.frame_progress) e
          safe in
      Yields-then
        (record_frame-Ready cv laws window s.recorder s.display_mat present (drawn e) ready)
        (λ r p. yields (shown, (p.0, p.1 ∙ same, stock)))
  run_recorder-Stocked fuel playback s enough e safe ((shown, (ready, same, stock)), drawn) =
      let (alive, present, _) =
        subst (λ m. Fits m s.display s.recorder.last_played_frame s.recorder.frame_progress) e
          safe in
      Yields-then
        (playback_frame-Ready cv laws window s.world fuel s.recorder present alive ready
          (subst (λ x. HasVideos cv x s.world) (sym same) stock.0) enough)
        (λ res p.
          played-Stocked s res.0 res.1 s.display shown p.0 shown (p.1.0, p.1.1 ∙ same, stock))

module _ {F D : Type 0} ⦃f : Floating F⦄ ⦃d : Floating D⦄ (lib : FidTrack F) (osc : Wosc F)
    (cv : OpenCv D) (narrow : D → F) (data_of : cv.Mat → lib.Image) (refusals : OpenCvLaws cv)
    (laws : SizeLaws cv) (dir : Text) (disk : WriterLaws cv dir) (window : CameraDisplay) where
  pub process_frame-Ready :
      (left fuel : ℕ) (config : Config) (tick : Tick cv) (s : AppState F D lib cv)
      → 2 ^ 33 < fuel
      → IsWide config.make_quadratic window
      → IsFullFrame cv window tick.frame
      → IsReady (suc left) dir window s
      → Yields
          (λ res. IsReady left dir window res.0)
          (process_frame lib osc cv narrow data_of fuel config tick s)
  unfolding process_frame
  process_frame-Ready left fuel config tick s enough wide full (safe, stocked) =
      Yields-then (cut_frame-IsShowable cv laws window config.make_quadratic tick.frame wide full)
        (λ quadratic shows.
          let flipped = turned-IsShowable cv laws window config.rotate_image quadratic shows in
          Yields-then
            (Yields-ensured
              (show_input-Drawn lib osc cv narrow data_of laws dir (suc left) window s.display
                s.record_mode _ _ stocked.0 refl flipped stocked)
              (show_input-Ensures lib osc cv narrow data_of refusals s.display s.record_mode _ _
                safe))
            (λ first p.
              Yields-then
                (Yields-ensured
                  (run_recorder-Stocked lib osc cv narrow data_of laws dir (suc left) window fuel
                    first.0.record_mode first.0 enough refl p.1 p.0)
                  (run_recorder-Ensures lib osc cv narrow data_of refusals fuel first.0.record_mode
                    first.0 refl p.1))
                (λ second q.
                  Yields-then
                    (press_key-Ready laws dir disk window left tick.key second.0 (q.1, q.0))
                    (λ last ready. yields ready))))
