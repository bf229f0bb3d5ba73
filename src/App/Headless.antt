-- ===== src/App/Headless.antt =====
-- A run without the window for the input image in which nothing is recorded.
use xtrack.Prelude.{
  Yields-map, ◌≡◌, refl, ℕ, false, ◌||◌, Option, none, List, All, ℤ, ok, ◌>>=◌, Yields, yields,
  Yields-if, Yields-then, Yields-before,
}
use xtrack.Floating.{Floating}
use xtrack.OpenCv.{OpenCv}
use xtrack.Fiducials.Libfidtrack.{FidTrack}
use xtrack.Tuio.Wosclib.{Wosc}
use xtrack.Record.Recorder.{RecordMode, normal}
use xtrack.Display.{CameraDisplay}
use xtrack.App.{Config, AppState, Tick, Output}
use xtrack.App.Keys.{stop_current, press_stop, begin_playback, press_play, key_is, press_key}
use xtrack.App.Loop.{cut_frame, show_input, run_recorder, process_frame, process_loop}
use xtrack.App.Ending.{process_loop_ends}
use xtrack.App.Sending.{image_of, Seen, Sends}

module _ {F D : Type 0} ⦃f : Floating F⦄ ⦃d : Floating D⦄ (lib : FidTrack F) (osc : Wosc F)
    (cv : OpenCv D) (narrow : D → F) (data_of : cv.Mat → lib.Image) where
  abbrev pub IsHeadless : AppState F D lib cv → Type 0
  IsHeadless s = (s.display ≡ none) × (s.record_mode ≡ normal)

  begin_playback-IsHeadless :
      (display : Option CameraDisplay) (s : AppState F D lib cv)
      → display ≡ none
      → IsHeadless s
      → Yields IsHeadless (begin_playback display s)
  unfolding begin_playback
  begin_playback-IsHeadless display s hidden h = rw hidden (yields h)

  stop_current-IsHeadless :
      (mode : RecordMode) (s : AppState F D lib cv)
      → mode ≡ normal
      → IsHeadless s
      → Yields IsHeadless (
          stop_current mode s.recorder >>= λ r.
          ok (record s { recorder = r; record_mode = normal }))
  unfolding stop_current
  stop_current-IsHeadless mode s is_normal h = rw is_normal (yields (h.0, refl))

  press_play-IsHeadless :
      (mode : RecordMode) (s : AppState F D lib cv)
      → mode ≡ normal
      → IsHeadless s
      → Yields IsHeadless (press_play mode s)
  unfolding press_play
  press_play-IsHeadless mode s is_normal h =
      rw is_normal (begin_playback-IsHeadless s.display s h.0 h)

  press_key-IsHeadless :
      (key : ℤ) (s : AppState F D lib cv)
      → key_is key b'r' ≡ false
      → IsHeadless s
      → Yields IsHeadless (press_key key s)
  unfolding press_key press_stop
  press_key-IsHeadless key s no_r h = rw no_r (
      Yields-if (key_is key 27 || key_is key b'q') (yields h) (λ _.
        Yields-if (key_is key b's') (stop_current-IsHeadless s.record_mode s h.1 h) (λ _.
          Yields-if (key_is key b'p') (press_play-IsHeadless s.record_mode s h.1 h)
            (λ _. yields h))))

  cut_Yields :
      (config : Config) (tick : Tick cv) (image : lib.Image)
      → image_of lib cv data_of config tick ≡ ok image
      → Yields (λ _. Unit {0}) (cut_frame cv config.make_quadratic tick.frame)
  cut_Yields config tick image e =
      Yields-before (cut_frame cv config.make_quadratic tick.frame) _ image e

  show_input-IsHeadless :
      (display : Option CameraDisplay) (mode : RecordMode) (flipped : cv.Mat)
      (s : AppState F D lib cv)
      → display ≡ none
      → IsHeadless s
      → Yields
          (λ res. IsHeadless res.0)
          (show_input lib osc cv narrow data_of display mode flipped s)
  unfolding show_input
  show_input-IsHeadless display mode flipped s hidden h = rw hidden (yields h)

  run_recorder-IsHeadless :
      (fuel : ℕ) (mode : RecordMode) (s : AppState F D lib cv)
      → mode ≡ normal
      → IsHeadless s
      → Yields (λ res. IsHeadless res.0) (run_recorder lib osc cv narrow data_of fuel mode s)
  unfolding run_recorder
  run_recorder-IsHeadless fuel mode s is_normal h = rw is_normal (yields h)

  process_frame-IsHeadless :
      (fuel : ℕ) (config : Config) (tick : Tick cv) (s : AppState F D lib cv) (image : lib.Image)
      → image_of lib cv data_of config tick ≡ ok image
      → key_is tick.key b'r' ≡ false
      → IsHeadless s
      → Yields
          (λ res. IsHeadless res.0)
          (process_frame lib osc cv narrow data_of fuel config tick s)
  unfolding process_frame show_input run_recorder
  process_frame-IsHeadless fuel config tick s image e no_r h =
      Yields-then (cut_Yields config tick image e) (λ quadratic _.
        Yields-then (show_input-IsHeadless s.display s.record_mode _ _ h.0 h) (λ shown p.
          Yields-then (run_recorder-IsHeadless fuel shown.0.record_mode shown.0 p.1 p) (λ played q.
            Yields-then (press_key-IsHeadless tick.key played.0 no_r q) (λ last k. yields k))))

  abbrev pub Ends :
      AppState F D lib cv → List (lib.Image × D) → AppState F D lib cv × List (Output cv) → Type 0
  Ends s frames res =
      IsHeadless res.0 × Sends lib osc cv narrow data_of s.finder s.server frames res

  pub process_loop_headless :
      (fuel : ℕ) (config : Config) {ticks : List (Tick cv)} {frames : List (lib.Image × D)}
      (s : AppState F D lib cv)
      → Seen lib cv data_of config ticks frames
      → All (λ tick. key_is tick.key b'r' ≡ false) ticks
      → IsHeadless s
      → s.term_requested ≡ false
      → Yields (Ends s frames) (process_loop lib osc cv narrow data_of fuel config ticks s)
  process_loop_headless fuel config s seen keys h runs =
      Yields-map
        (process_loop_ends lib osc cv narrow data_of fuel config (λ left. IsHeadless)
          (λ tick. key_is tick.key b'r' ≡ false)
          (λ left tick s' image e _ no_r h'.
            process_frame-IsHeadless fuel config tick s' image e no_r h')
          s seen keys h runs)
        (λ res p. (p.0.1, p.1))
