-- ===== src/App/Windowed/Run.antt =====
-- A whole run with the window.
use mathlib.Core.Path.{subst}
use xtrack.Prelude.{
  length, [], ◌≡◌, refl, ℕ, ◌<◌, ◌^◌, false, ◌||◌, ◌==◌, some, List, All, ok, ◌>>=◌, Returns, Gives,
  Gives-ok, Ensures-ok, Returns-eq-ok, Ensures, Yields, yields, Yields-map, Outcome,
}
use xtrack.Text.{Text}
use xtrack.CommandLine.{status, add_params, main}
use xtrack.Parameters.{Parameters}
use xtrack.Floating.{Floating}
use xtrack.OpenCv.{OpenCv, OpenCvLaws}
use xtrack.Fiducials.Libfidtrack.{FidTrack}
use xtrack.Tuio.Wosclib.{Wosc}
use xtrack.Display.{CameraDisplay}
use xtrack.App.{Config, AppState, Tick, Output}
use xtrack.App.Setup.{Devices, set_up}
use xtrack.App.Loop.{process_loop, finish}
use xtrack.App.Process.{process}
use xtrack.App.Safety.{IsSafe}
use xtrack.App.Start.{set_up-Ensures}
use xtrack.App.Total.{stop_current-Returns}
use xtrack.App.Sending.{Seen, Sends}
use xtrack.App.Datagrams.{Starts, set_up-Starts}
use xtrack.App.Ending.{process_loop_ends}
use xtrack.App.Windowed.{
  sized, IsWide, IsFullFrame, SizeLaws, HasVideos, WriterLaws, HasRoom, IsReady,
}
use xtrack.App.Windowed.Rounds.{process_frame-Ready}
use xtrack.App.Windowed.Start.{StartsSized, set_up-StartsSized, start-Ready}

module _ {F D : Type 0} ⦃f : Floating F⦄ ⦃d : Floating D⦄ (lib : FidTrack F) (osc : Wosc F)
    (cv : OpenCv D) (narrow : D → F) (data_of : cv.Mat → lib.Image) (refusals : OpenCvLaws cv)
    (laws : SizeLaws cv) (dir : Text) (disk : WriterLaws cv dir) where
  -- A frame that is not empty has the size of the window.
  abbrev pub FrameFills : CameraDisplay → Tick cv → Type 0
  FrameFills window tick =
      cv.rows tick.frame == 0 || cv.cols tick.frame == 0 ≡ false → IsFullFrame cv window tick.frame

  finish-Returns :
      (left : ℕ) (window : CameraDisplay) (s : AppState F D lib cv)
      → IsReady left dir window s
      → Returns (finish lib osc cv narrow data_of s)
  unfolding finish
  finish-Returns left window s h = stop_current-Returns s.record_mode s.display s.recorder h.0

  finishes :
      {P : AppState F D lib cv × List (Output cv) → Type 0}
      {m : Outcome (AppState F D lib cv × List (Output cv))} (window : CameraDisplay)
      → Yields (λ res. ((left : ℕ) × IsReady left dir window res.0) × P res) m
      → ◌≡◌ {A = Outcome (Unit {0})}
          (m >>= λ res. finish lib osc cv narrow data_of res.0 >>= λ r. ok tt)
          (ok tt)
  finishes window (yields {a} p) =
      let (r, e) = Returns-eq-ok (finish-Returns p.0.0 window a.0 p.0.1) in rw e refl

  -- What is in front of the loop gave this state, which is ready.
  started-Ready :
      (devices : Devices cv) (ps : Parameters) (config : Config) (s : AppState F D lib cv)
      (window : CameraDisplay) (w h count : ℕ)
      → set_up lib cv devices ps ≡ ok (config, s)
      → s.display ≡ some window
      → IsWide config.make_quadratic window
      → s.recorder.record_size ≡ sized w h
      → 0 < w
      → 0 < h
      → s.recorder.video_dir ≡ dir
      → HasVideos cv dir s.world
      → HasRoom cv count dir s.world
      → IsReady count dir window s
  started-Ready devices ps config s window w h count started shown wide small a b same videos room =
      let sizes : StartsSized lib cv (config, s) =
        Gives-ok
          (subst (Gives (StartsSized lib cv)) started (set_up-StartsSized lib cv devices ps)) in
      (
        Ensures-ok
            (subst (Ensures (λ res. IsSafe res.1)) started (set_up-Ensures lib cv devices ps)),
        (
          shown,
          (
            start-Ready config.make_quadratic window s.recorder w h wide (sizes window shown) small
                a b,
            same,
            (videos, room),
          ),
        ),
      )

  process_windowed :
      (fuel : ℕ) (devices : Devices cv) (ps : Parameters) {ticks : List (Tick cv)}
      (frames : List (lib.Image × D)) (config : Config) (s : AppState F D lib cv)
      (window : CameraDisplay)
      → 2 ^ 33 < fuel
      → set_up lib cv devices ps ≡ ok (config, s)
      → IsWide config.make_quadratic window
      → IsReady (length ticks) dir window s
      → Seen lib cv data_of config ticks frames
      → All (FrameFills window) ticks
      → Yields
          (Sends lib osc cv narrow data_of s.finder s.server frames)
          (process_loop lib osc cv narrow data_of fuel config ticks s)
        × (process lib osc cv narrow data_of fuel devices ticks ps ≡ ok tt)
  unfolding process
  process_windowed fuel devices ps frames config s window enough started wide ready seen fill =
      let start : Starts lib cv devices ps (config, s) =
        Gives-ok
          (subst (Gives (Starts lib cv devices ps)) started (set_up-Starts lib cv devices ps)) in
      let ends =
        process_loop_ends lib osc cv narrow data_of fuel config (λ left. IsReady left dir window)
          (FrameFills window)
          (λ left tick s' image e full here h.
            process_frame-Ready lib osc cv narrow data_of refusals laws dir disk window left fuel
              config tick s' enough wide (here full) h)
          s seen fill ready start.0 in
      (Yields-map ends (λ res p. p.1), rw started (finishes window ends))

  -- If the arguments give parameters with which what is in front of the loop gives a state with the window for
  -- the input image, a positive size for recordings, and a directory, the frames of the camera are of the
  -- positive size of the window, which is wide enough where a square is wanted, and they go up to an empty one or
  -- to a round in which the end is asked for; if, in the directory, all names that the search gives fit its
  -- pattern, none has a negative number, some file gives a frame, and the numbers are so far below 2^31 that
  -- there is room for a recording in each round; and if the fuel is for more than 2^33 files in a round of
  -- playback: then, whatever keys are pressed, the rounds end without an exception and send what the server
  -- sends of the tables that the finder makes of the images and the times, and the program ends with the status
  -- 0. (OpenCV is as OpenCvLaws and SizeLaws say, and opening a file for writing as WriterLaws say: the search
  -- gives the same files and at most this one besides, and the others stay readable.)
  pub main_windowed :
      (fuel : ℕ) (devices : Devices cv) (args : List Text) (ps : Parameters)
      {ticks : List (Tick cv)} (frames : List (lib.Image × D)) (config : Config)
      (s : AppState F D lib cv) (window : CameraDisplay) (w h : ℕ)
      → 2 ^ 33 < fuel
      → add_params [] args ≡ ok ps
      → set_up lib cv devices ps ≡ ok (config, s)
      → s.display ≡ some window
      → IsWide config.make_quadratic window
      → s.recorder.record_size ≡ sized w h
      → 0 < w
      → 0 < h
      → s.recorder.video_dir ≡ dir
      → HasVideos cv dir s.world
      → HasRoom cv (length ticks) dir s.world
      → Seen lib cv data_of config ticks frames
      → All (FrameFills window) ticks
      → Yields
          (Sends lib osc cv narrow data_of s.finder s.server frames)
          (process_loop lib osc cv narrow data_of fuel config ticks s)
        × (main (process lib osc cv narrow data_of fuel devices ticks) args ≡ status 0)
  unfolding main
  main_windowed fuel devices args ps {ticks} frames config s window w h enough parsed started shown
        wide small a b same videos room seen fill =
      let (sends, returns) =
        process_windowed fuel devices ps frames config s window enough started wide
          (started-Ready devices ps config s window w h (length ticks) started shown wide small a b
            same videos room)
          seen fill in
      (sends, rw (parsed, returns) refl)
