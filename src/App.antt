-- ===== src/App.antt =====
-- xtrack/xtrack.cpp, `process`: the main loop over the frames of the camera. The camera, OpenCV, the sockets
-- and libfidtrack are parameters; what one round of the loop takes from outside is a `Tick`.
pub mod Setup
pub mod Keys
pub mod Loop
pub mod Safety
pub mod Total
pub mod Start
pub mod Refusal
pub mod Process
pub mod Modes
pub mod Outputs
pub mod Silent
pub mod Sending
pub mod Ending
pub mod Sharing
pub mod Windowed
pub mod Headless
pub mod Datagrams
pub mod Observed
pub mod Returning
pub mod Shown
pub mod Filming
pub mod Viewing
use xtrack.Prelude.{ℕ, Bool, Option, List, ℤ}
use xtrack.Text.{Text}
use xtrack.OpenCv.{OpenCv}
use xtrack.Record.Recorder.{RecordMode, CameraRecorder}
use xtrack.Display.{CameraDisplay}
use xtrack.Fiducials.{FiducialFinder}
use xtrack.Fiducials.Libfidtrack.{FidTrack}
use xtrack.Tuio.{TuioServer, Datagram}

-- The parameters that `process` reads before the loop.
pub record Config : Type 0 where
  pub frame_time : ℤ
  pub threshold : ℤ
  pub rotate_image : Bool
  pub make_quadratic : Bool
  pub show_input_window : Bool
  pub show_contrast_window : Bool
  pub print_data : Bool
  pub arena_radius : ℤ

-- The variables of `process` that live through the loop, and the world.
pub record AppState (F D : Type 0) (lib : FidTrack F) (cv : OpenCv D) : Type 0 where
  pub finder : FiducialFinder F D lib
  pub server : TuioServer
  pub recorder : CameraRecorder cv
  pub display : Option CameraDisplay
  pub record_mode : RecordMode
  pub display_mat : cv.Mat
  pub term_requested : Bool
  pub world : cv.World

-- One round: the clock before and behind the work in milliseconds, the frame from the camera, the key
-- that `waitKey` returns, and whether a signal came in.
pub record Tick {D : Type 0} (cv : OpenCv D) : Type 0 where
  pub start_clock : D
  pub frame : cv.Mat
  pub end_clock : D
  pub key : ℤ
  pub signalled : Bool

-- A fiducial on the console.
pub record Printed : Type 0 where
  pub id : ℕ
  pub x : ℤ
  pub y : ℤ
  pub degrees : ℤ

-- What a round shows, prints and sends.
pub data Output {D : Type 0} (cv : OpenCv D) : Type 0 where
  sent : Datagram → Output cv
  printed : List Printed → Output cv
  contrast : cv.Mat → Output cv
  input : cv.Mat → Output cv
  waited : ℤ → Output cv
