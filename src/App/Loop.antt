-- ===== src/App/Loop.antt =====
-- xtrack/xtrack.cpp, the loop of `process`.
use xtrack.Prelude.{
  ℕ, ◌+◌, Bool, true, false, ◌||◌, Option, none, some, List, [], ◌∷◌, ◌++◌, ◌==◌, if◌then◌else◌, ℤ,
  pos, negsuc, ◌+ℤ◌, ◌-ℤ◌, Outcome, ok, raise, undefined, running, take, ◌>>=◌,
}
use xtrack.Floating.{Floating, ◌⊗◌, ◌⊘◌}
use xtrack.OpenCv.{OpenCv, Point}
use xtrack.Fiducials.{max_fiducials, find_fiducials}
use xtrack.Fiducials.Tracked.{TrackedFiducial, pi}
use xtrack.Fiducials.Libfidtrack.{FidTrack}
use xtrack.Tuio.{send_message}
use xtrack.Tuio.Wosclib.{Wosc}
use xtrack.Record.Recorder.{RecordMode, normal, recording, playback, CameraRecorder, record_frame}
use xtrack.Record.Player.{playback_frame}
use xtrack.Display.{CameraDisplay}
use xtrack.Display.Drawing.{half, draw_tracking_info, display_tracked_image}
use xtrack.App.{Config, AppState, Tick, Output, Printed, sent, printed, contrast, input, waited}
use xtrack.App.Keys.{wait_time, press_key, stop_current}

module _ {D : Type 0} (cv : OpenCv D) where
  open cv use {
    Mat, cols, rows, Color, scalar, line, circle, fill_convex_poly, sub_image, turn_round, channels,
    to_gray,
  }

  abbrev point : ℤ → ℤ → Point
  point x y = record { x = x; y = y }

  -- `displayContrastImage`: the center, the arena, and a symbol for the mode.
  unfoldable pub contrast_image : Mat → RecordMode → ℤ → Mat
  unfolding half
  contrast_image frame mode arena_radius =
      let x = half (pos (cols frame)) in
      let y = half (pos (rows frame)) in
      let color = scalar 160 0 0 in
      let across = line frame (point (x -ℤ pos 20) y) (point (x +ℤ pos 20) y) color (pos 2) in
      let down = line across (point x (y -ℤ pos 20)) (point x (y +ℤ pos 20)) color (pos 2) in
      let arena = circle down (point x y) arena_radius color (pos 2) in
      elim mode [
        | normal ↦ arena
        | recording ↦ circle arena (point (pos 50) (pos 50)) (pos 20) color (negsuc 0)
        | playback ↦
            fill_convex_poly arena
              (point (pos 30) (pos 30) ∷ point (pos 70) (pos 50) ∷ point (pos 30) (pos 70) ∷ [])
              color
      ]

  -- The part of the frame that is processed.
  unfoldable pub cut_frame : Bool → Mat → Outcome Mat
  unfolding half
  cut_frame true frame =
      sub_image frame (point (half (pos (cols frame) -ℤ pos (rows frame))) (pos 0))
        (record { width = pos (rows frame); height = pos (rows frame) })
  cut_frame false frame =
      sub_image frame (point (pos 0) (pos 0))
        (record { width = pos (cols frame); height = pos (rows frame) })

  -- The image in which fiducials are sought, before the threshold.
  unfoldable pub gray_of : Mat → Mat
  gray_of flipped = if channels flipped == 3 then to_gray flipped else flipped

module _ {F D : Type 0} ⦃f : Floating F⦄ where
  -- What `printFiducials` prints of one fiducial: its id, its position and its angle in degrees.
  unfoldable pub print_fiducial : ℕ → TrackedFiducial F D → Printed
  unfolding pi
  print_fiducial i fid = record {
    id = i;
    x = f.to_int fid.x;
    y = f.to_int fid.y;
    degrees = f.to_int (fid.a ⊘ (f.of_int (pos 2) ⊗ pi) ⊗ f.of_int (pos 360));
  }

  -- The loop of `printFiducials`, from the index `i` on.
  unfoldable pub print_from : ℕ → List (TrackedFiducial F D) → List Printed
  unfolding print_fiducial
  print_from i [] = []
  print_from i (fid ∷ fids) =
      if fid.is_tracked
      then print_fiducial i fid ∷ print_from (i + 1) fids
      else print_from (i + 1) fids

module _ {F D : Type 0} ⦃f : Floating F⦄ ⦃d : Floating D⦄ (lib : FidTrack F) (osc : Wosc F)
    (cv : OpenCv D) (narrow : D → F) (data_of : cv.Mat → lib.Image) where
  open cv use {Mat, cols, rows, turn_round, threshold}

  -- The tracking information is drawn into the frame and shown, but for the mode PLAYBACK.
  unfoldable pub show_input :
      Option CameraDisplay
      → RecordMode
      → Mat
      → AppState F D lib cv
      → Outcome (AppState F D lib cv × List (Output cv))
  unfolding draw_tracking_info display_tracked_image
  show_input none mode flipped s = ok (s, [])
  show_input (some display) playback flipped s = ok (s, [])
  show_input (some display) _ flipped s = do
    drawn ← draw_tracking_info cv display flipped s.finder.tracked_fiducials
    shown ← display_tracked_image cv display drawn
    ok (record s { display_mat = drawn }, input shown ∷ [])

  -- A frame is recorded or played back. In the mode PLAYBACK `cameraDisplay` is used without a test.
  unfoldable pub run_recorder :
      ℕ → RecordMode → AppState F D lib cv → Outcome (AppState F D lib cv × List (Output cv))
  unfolding display_tracked_image
  run_recorder fuel normal s = ok (s, [])
  run_recorder fuel recording s = do
    recorder ← record_frame cv s.recorder s.display_mat
    ok (record s { recorder = recorder }, [])
  run_recorder fuel playback s = do
    (frame, recorder) ← playback_frame cv s.world fuel s.recorder
    elim s.display [
      | none ↦ raise undefined
      | some display ↦ (do
        shown ← display_tracked_image cv display frame
        ok (record s { recorder = recorder }, input shown ∷ []))
    ]

  -- One round behind the capture of a frame that is not empty.
  unfoldable pub process_frame :
      ℕ → Config → Tick cv → AppState F D lib cv → Outcome (AppState F D lib cv × List (Output cv))
  process_frame fuel config tick s = do
    quadratic ← cut_frame cv config.make_quadratic tick.frame
    let flipped = if config.rotate_image then turn_round quadratic else quadratic
    let black_white = threshold (gray_of cv flipped) config.threshold
    let (finder, found) = find_fiducials lib narrow s.finder (data_of black_white) tick.start_clock
    let (server, datagram) = send_message osc s.server finder.tracked_fiducials
    let shown_contrast =
        (if config.show_contrast_window
          then contrast (contrast_image cv black_white s.record_mode config.arena_radius) ∷ []
          else [])
    let print =
        (if config.print_data
          then printed (print_from 0 (take max_fiducials finder.tracked_fiducials)) ∷ []
          else [])
    (s₁, shown) ←
        show_input s.display s.record_mode flipped (record s { finder = finder; server = server })
    (s₂, played) ← run_recorder fuel s₁.record_mode s₁
    let wait = wait_time config.frame_time tick.start_clock tick.end_clock
    s₃ ← press_key tick.key s₂
    ok (
      record s₃ { term_requested = s₃.term_requested || tick.signalled },
      sent datagram ∷ (shown_contrast ++ (print ++ (shown ++ (played ++ waited wait ∷ [])))),
    )

  -- What is stopped behind the loop.
  unfoldable pub finish : AppState F D lib cv → Outcome (CameraRecorder cv)
  unfolding stop_current
  finish s = stop_current s.record_mode s.recorder

  -- The rounds, as long as there are ticks; `fuel` bounds the files that one round of playback opens.
  unfoldable pub process_loop :
      ℕ
      → Config
      → List (Tick cv)
      → AppState F D lib cv
      → Outcome (AppState F D lib cv × List (Output cv))
  process_loop fuel config [] s = running
  process_loop fuel config (tick ∷ ticks) s =
      if rows tick.frame == 0 || cols tick.frame == 0 then ok (s, []) else (do
        (s', outputs) ← process_frame fuel config tick s
        if s'.term_requested
            then ok (s', outputs)
            else (do (last, rest) ← process_loop fuel config ticks s'; ok (last, outputs ++ rest)))
