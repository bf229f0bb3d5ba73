-- ===== src/Mac/Common.antt =====
-- xtrack-mac: the files whose code is that of the directory xtrack.
use xtrack.Prelude.{ℕ, Bool, Option, List, ℤ, Outcome}
use xtrack.Text.{Text}
use xtrack.Parameters
use xtrack.Parameters.{Parameters}
use xtrack.CommandLine
use xtrack.CommandLine.{Exit}
use xtrack.Floating.{Floating}
use xtrack.OpenCv.{OpenCv}
use xtrack.Fiducials
use xtrack.Fiducials.{Freed}
use xtrack.Fiducials.Tracked
use xtrack.Fiducials.Tracked.{Size}
use xtrack.Fiducials.Libfidtrack.{FidTrack}
use xtrack.Record.Recorder.{RecordMode}
use xtrack.Display
use xtrack.Display.Drawing
use xtrack.App.{Config, Printed}
use xtrack.App.Loop
use xtrack.App.Setup

abbrev pub int_param : Parameters → Text → ℤ → Outcome ℤ
int_param = Parameters.int_param

abbrev pub string_param : Parameters → Text → Text → Text
string_param = Parameters.string_param

abbrev pub bool_param : Parameters → Text → Bool → Bool
bool_param = Parameters.bool_param

abbrev pub double_param : {D : Type 0} → (Text → Option D) → Parameters → Text → D → Outcome D
double_param = Parameters.double_param

abbrev pub main : (Parameters → Outcome (Unit {0})) → List Text → Exit
main = CommandLine.main

abbrev pub TrackedFiducial : Type 0 → Type 0 → Type 0
TrackedFiducial = Tracked.TrackedFiducial

abbrev pub FiducialFinder : (F D : Type 0) → FidTrack F → Type 0
FiducialFinder = Fiducials.FiducialFinder

module _ {F D : Type 0} ⦃f : Floating F⦄ ⦃d : Floating D⦄ (lib : FidTrack F) where
  abbrev pub new_finder : Size → FiducialFinder F D lib
  new_finder = Fiducials.new_finder lib

  abbrev pub find_fiducials :
      (D → F) → FiducialFinder F D lib → lib.Image → D → FiducialFinder F D lib × ℤ
  find_fiducials narrow = Fiducials.find_fiducials lib narrow

abbrev pub close_finder : List Freed
close_finder = Fiducials.close_finder

abbrev pub CameraDisplay : Type 0
CameraDisplay = Display.CameraDisplay

abbrev pub new_display : Parameters → Size → Outcome CameraDisplay
new_display = Display.new_display

module _ {F D : Type 0} ⦃f : Floating F⦄ (cv : OpenCv D) where
  abbrev pub draw_tracking_info :
      CameraDisplay → cv.Mat → List (TrackedFiducial F D) → Outcome cv.Mat
  draw_tracking_info = Drawing.draw_tracking_info cv

module _ {D : Type 0} (cv : OpenCv D) where
  abbrev pub display_tracked_image : CameraDisplay → cv.Mat → Outcome cv.Mat
  display_tracked_image = Drawing.display_tracked_image cv

  abbrev pub contrast_image : cv.Mat → RecordMode → ℤ → cv.Mat
  contrast_image = Loop.contrast_image cv

abbrev pub print_from :
    {F D : Type 0} ⦃f : Floating F⦄ → ℕ → List (TrackedFiducial F D) → List Printed
print_from = Loop.print_from

abbrev pub read_config : Parameters → Outcome Config
read_config = Setup.read_config
