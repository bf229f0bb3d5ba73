-- ===== src/App/Setup.antt =====
-- xtrack/xtrack.cpp, the part of `process` in front of the loop.
use xtrack.Prelude.{
  ℕ, Bool, true, false, Option, none, some, if◌then◌else◌, ℤ, pos, Outcome, ok, raise, thrown,
  ◌>>=◌,
}
use xtrack.Text.{Text}
use xtrack.Parameters.{Parameters, int_param, bool_param}
use xtrack.Parameters.Names.{
  param_camera, default_camera, param_frame_width, default_frame_width, param_frame_height,
  default_frame_height, param_frame_time, default_frame_time, param_threshold, default_threshold,
  param_rotate, default_rotate, param_quadratic, default_quadratic, param_show_input,
  default_show_input, param_show_contrast, default_show_contrast, param_print, default_print,
  param_arena_radius, default_arena_radius,
}
use xtrack.Floating.{Floating}
use xtrack.OpenCv.{OpenCv}
use xtrack.Fiducials.{new_finder}
use xtrack.Fiducials.Tracked.{Size}
use xtrack.Fiducials.Libfidtrack.{FidTrack}
use xtrack.Tuio.{open_server}
use xtrack.Tuio.Wosclib.{Sockets}
use xtrack.Record.Recorder.{normal, new_recorder}
use xtrack.Display.{CameraDisplay, new_display}
use xtrack.App.{Config, AppState}

-- The camera: whether the device with a number opens, and the frame size that it takes when one is asked
-- for; the conversion to double and CV_FOURCC; the sockets; and the closed video files.
pub record Devices {D : Type 0} (cv : OpenCv D) : Type 0 where
  pub camera_opens : ℤ → Bool
  pub frame_size : ℤ → ℤ → Size
  pub extract_double : Text → Option D
  pub fourcc : ℕ → ℕ → ℕ → ℕ → ℤ
  pub sockets : Sockets
  pub writer : cv.Writer
  pub reader : cv.Reader
  pub world : cv.World

unfoldable pub read_config : Parameters → Outcome Config
unfolding int_param bool_param
read_config ps = do
  frame_time ← int_param ps param_frame_time default_frame_time
  threshold ← int_param ps param_threshold default_threshold
  let rotate_image = bool_param ps param_rotate default_rotate
  let make_quadratic = bool_param ps param_quadratic default_quadratic
  let show_input_window = bool_param ps param_show_input default_show_input
  let show_contrast_window = bool_param ps param_show_contrast default_show_contrast
  let print_data = bool_param ps param_print default_print
  arena_radius ← int_param ps param_arena_radius default_arena_radius
  ok (record {
    frame_time = frame_time;
    threshold = threshold;
    rotate_image = rotate_image;
    make_quadratic = make_quadratic;
    show_input_window = show_input_window;
    show_contrast_window = show_contrast_window;
    print_data = print_data;
    arena_radius = arena_radius;
  })

-- The display, if the window is wanted.
unfoldable pub optional_display : Bool → Parameters → Size → Outcome (Option CameraDisplay)
unfolding new_display
optional_display false ps screen_size = ok none
optional_display true ps screen_size = do display ← new_display ps screen_size; ok (some display)

module _ {F D : Type 0} ⦃f : Floating F⦄ ⦃d : Floating D⦄ (lib : FidTrack F) (cv : OpenCv D) where
  unfoldable pub set_up : Devices cv → Parameters → Outcome (Config × AppState F D lib cv)
  unfolding int_param read_config optional_display new_finder open_server new_recorder
  set_up devices ps = do
    camera ← int_param ps param_camera default_camera
    opened ← (if devices.camera_opens camera then ok camera else raise (thrown 1))
    width ← int_param ps param_frame_width default_frame_width
    height ← int_param ps param_frame_height default_frame_height
    config ← read_config ps
    let actual = devices.frame_size width height
    let tracked : Size = record {
      width = if config.make_quadratic then actual.height else actual.width;
      height = actual.height;
    }
    display ← optional_display config.show_input_window ps actual
    server ← open_server devices.sockets ps
    recorder ←
        new_recorder cv devices.extract_double devices.fourcc devices.writer devices.reader ps
          (record { width = pos tracked.width; height = pos tracked.height })
    ok (
      config,
      record {
        finder = new_finder lib tracked;
        server = server;
        recorder = recorder;
        display = display;
        record_mode = normal;
        display_mat = cv.empty_mat;
        term_requested = false;
        world = devices.world;
      },
    )
