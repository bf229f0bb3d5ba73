-- ===== src/Mac/Loop.antt =====
-- xtrack-mac/xtrack.cpp, `process`: the setup, the rounds and the end.
use xtrack.Prelude.{
  ℕ, Bool, false, ◌||◌, ◌==◌, ◌++◌, Option, List, [], ◌∷◌, take, if◌then◌else◌, ℤ, pos, negsuc,
  Outcome, ok, raise, running, thrown, undefined, ◌>>=◌,
}
use xtrack.Text.{Text}
use xtrack.Parameters.{Parameters}
use xtrack.Floating.{Floating}
use xtrack.OpenCv.{OpenCv}
use xtrack.Fiducials.{max_fiducials}
use xtrack.Fiducials.Tracked.{Size}
use xtrack.Fiducials.Libfidtrack.{FidTrack}
use xtrack.Tuio.Wosclib.{Wosc}
use xtrack.Record.Recorder.{normal}
use xtrack.App.{Config, AppState, Tick, Output, printed, contrast, waited}
use xtrack.App.Setup.{optional_display}
use xtrack.App.Keys
use xtrack.App.Keys.{wait_time, stop_current}
use xtrack.App.Loop.{cut_frame, gray_of, show_input, run_recorder}
use xtrack.Mac.Names.{
  param_camera, default_camera, param_frame_width, default_frame_width, param_frame_height,
  default_frame_height,
}
use xtrack.Mac.Common.{
  int_param, new_finder, find_fiducials, contrast_image, print_from, read_config,
}
use xtrack.Mac.Tuio.{open_server, send_message}
use xtrack.Mac.Recorder.{port, new_recorder}

-- The camera, the conversion to double, CV_FOURCC, what the field `sock` holds, and the closed video files.
pub record Devices {D : Type 0} (cv : OpenCv D) : Type 0 where
  pub camera_opens : ℤ → Bool
  pub extract_double : Text → Option D
  pub fourcc : ℕ → ℕ → ℕ → ℕ → ℤ
  pub held_socket : ℤ
  pub writer : cv.Writer
  pub reader : cv.Reader
  pub world : cv.World

-- A side of the frame. What libfidtrack does with a negative one is not known.
abbrev pub frame_side : ℤ → Outcome ℕ
frame_side (pos n) = ok n
frame_side (negsuc n) = raise undefined

module _ {F D : Type 0} ⦃f : Floating F⦄ ⦃d : Floating D⦄ (lib : FidTrack F) (cv : OpenCv D) where
  abbrev pub PortState : Type 0
  PortState = AppState F D lib (port cv)

  -- The size of the frame is the one that is asked for.
  unfoldable pub set_up : Devices cv → Parameters → Outcome (Config × PortState)
  set_up devices ps = do
    camera ← int_param ps param_camera default_camera
    opened ← (if devices.camera_opens camera then ok camera else raise (thrown 1))
    frame_width ← int_param ps param_frame_width default_frame_width
    frame_height ← int_param ps param_frame_height default_frame_height
    config ← read_config ps
    width ← frame_side frame_width
    height ← frame_side frame_height
    let tracked : Size = record {
      width = if config.make_quadratic then height else width;
      height = height;
    }
    display ←
        optional_display config.show_input_window ps (record { width = width; height = height })
    server ← open_server devices.held_socket ps
    recorder ←
        new_recorder cv devices.extract_double devices.fourcc devices.writer devices.reader ps
          (record { width = pos tracked.width; height = pos height })
    ok (
      config,
      record {
        finder = new_finder lib tracked;
        server = server;
        recorder = recorder;
        display = display;
        record_mode = normal;
        display_mat = cv.empty_mat;
        term_requested = false;
        world = devices.world;
      },
    )

module _ {F D : Type 0} ⦃f : Floating F⦄ ⦃d : Floating D⦄ (lib : FidTrack F) (osc : Wosc F)
    (cv : OpenCv D) (narrow : D → F) (data_of : cv.Mat → lib.Image) where
  open cv use {cols, rows, turn_round, threshold}

  abbrev pub press_key : ℤ → PortState lib cv → Outcome (PortState lib cv)
  press_key = Keys.press_key

  -- One round. Nothing is sent.
  unfoldable pub process_frame :
      ℕ
      → Config
      → Tick (port cv)
      → PortState lib cv
      → Outcome (PortState lib cv × List (Output (port cv)))
  process_frame fuel config tick s = do
    quadratic ← cut_frame (port cv) config.make_quadratic tick.frame
    let flipped = if config.rotate_image then turn_round quadratic else quadratic
    let black_white = threshold (gray_of (port cv) flipped) config.threshold
    let (finder, found) = find_fiducials lib narrow s.finder (data_of black_white) tick.start_clock
    let (server, bundle) = send_message osc s.server finder.tracked_fiducials
    let shown_contrast =
        (if config.show_contrast_window
          then contrast (contrast_image (port cv) black_white s.record_mode config.arena_radius)
            ∷ []
          else [])
    let print =
        (if config.print_data
          then printed (print_from 0 (take max_fiducials finder.tracked_fiducials)) ∷ []
          else [])
    (s₁, shown) ←
        show_input lib osc (port cv) narrow data_of s.display s.record_mode flipped
          (record s { finder = finder; server = server })
    (s₂, played) ← run_recorder lib osc (port cv) narrow data_of fuel s₁.record_mode s₁
    let wait = wait_time config.frame_time tick.start_clock tick.end_clock
    s₃ ← press_key tick.key s₂
    ok (
      record s₃ { term_requested = s₃.term_requested || tick.signalled },
      shown_contrast ++ (print ++ (shown ++ (played ++ waited wait ∷ []))),
    )

  unfoldable pub process_loop :
      ℕ
      → Config
      → List (Tick (port cv))
      → PortState lib cv
      → Outcome (PortState lib cv × List (Output (port cv)))
  process_loop fuel config [] s = running
  process_loop fuel config (tick ∷ ticks) s =
      if rows tick.frame == 0 || cols tick.frame == 0 then ok (s, []) else (do
        (s', outputs) ← process_frame fuel config tick s
        if s'.term_requested
            then ok (s', outputs)
            else (do (last, rest) ← process_loop fuel config ticks s'; ok (last, outputs ++ rest)))

  unfoldable pub process : ℕ → Devices cv → List (Tick (port cv)) → Parameters → Outcome (Unit {0})
  unfolding set_up process_loop
  process fuel devices ticks ps = do
    (config, start) ← set_up lib cv devices ps
    (last, outputs) ← process_loop fuel config ticks start
    recorder ← stop_current last.record_mode last.recorder
    ok tt
