-- ===== src/App/Sharing/Channels.antt =====
-- The drawing into the frame keeps the type of its pixels.
use xtrack.Prelude.{◌≡◌, Bool, List, Gives}
use xtrack.Floating.{Floating}
use xtrack.OpenCv.{OpenCv}
use xtrack.Fiducials.Tracked.{TrackedFiducial}
use xtrack.Display.{CameraDisplay}
use xtrack.Display.Drawing.{draw_tracking_info}
use xtrack.Display.Keeping
use xtrack.App.Sharing.Apart.{SharingLaws}

module _ {F D : Type 0} ⦃f : Floating F⦄ (cv : OpenCv D) (reuses : cv.Mat → cv.Mat → Bool)
    (laws : SharingLaws cv reuses) where
  pub draw_tracking_info-Gives :
      (display : CameraDisplay) (m : cv.Mat) (fids : List (TrackedFiducial F D))
      → Gives (λ r. cv.channels r ≡ cv.channels m) (draw_tracking_info cv display m fids)
  draw_tracking_info-Gives display m fids =
      Keeping.draw_tracking_info-Gives cv cv.channels laws.poly_channels laws.lines_channels
        laws.text_channels display m fids
