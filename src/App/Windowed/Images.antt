-- ===== src/App/Windowed/Images.antt =====
-- The images of a round are not empty and fit the window, so none is refused.
use xtrack.Prelude.{
  ℕ, ◌-◌, ◌/◌, ◌<◌, ◌≤◌, ◌≡◌, refl, ap, Bool, true, false, List, if◌then◌else◌, Returns,
  Returns-Yields, Yields, yields, Yields-and, Yields-map, Gives-map, arith,
}
use xtrack.Floating.{Floating}
use xtrack.OpenCv.{OpenCv}
use xtrack.Fiducials.Tracked.{TrackedFiducial}
use xtrack.Display.{CameraDisplay}
use xtrack.Display.Drawing.{draw_tracking_info, display_tracked_image}
use xtrack.Display.Placing.{half_sub, corner_of_inside, draw_tracking_info-Returns}
use xtrack.Display.Keeping.{draw_tracking_info-Gives}
use xtrack.App.Loop.{cut_frame}
use xtrack.App.Windowed.{HasSize, IsWide, IsFullFrame, SameSize, SizeLaws, IsShowable}

module _ {D : Type 0} (cv : OpenCv D) (laws : SizeLaws cv) (window : CameraDisplay) where
  pub HasSize-IsShowable :
      (w h : ℕ) (m : cv.Mat)
      → HasSize cv w h m
      → 0 < w
      → 0 < h
      → w ≤ window.screen_size.width
      → h ≤ window.screen_size.height
      → IsShowable cv window m
  HasSize-IsShowable w h m (e, e') a b c d = rw (e, e') ((a, b), c, d)

  pub SameSize-IsShowable :
      (m n : cv.Mat) → SameSize cv m n → IsShowable cv window m → IsShowable cv window n
  SameSize-IsShowable m n (e, e') h = rw (e, e') h

  Size-eq :
      (m n : cv.Mat)
      → SameSize cv m n
      → ◌≡◌ {A = ℕ × ℕ} (cv.cols n, cv.rows n) (cv.cols m, cv.rows m)
  Size-eq m n (e, e') = λ i. (e i, e' i)

  pub cut_frame-IsShowable :
      (quadratic : Bool) (frame : cv.Mat)
      → IsWide quadratic window
      → IsFullFrame cv window frame
      → Yields (IsShowable cv window) (cut_frame cv quadratic frame)
  unfolding cut_frame
  cut_frame-IsShowable true frame (a, b, square) (e, e') =
      let narrow : cv.rows frame ≤ cv.cols frame = omega (arith, e, e', square refl) in
      let (n, cut, size) =
        laws.sub_image_inside frame ((cv.cols frame - cv.rows frame) / 2) 0 (cv.rows frame)
          (cv.rows frame) (omega (arith, narrow)) (omega arith) in
      rw (cut_frame, half_sub _ _ narrow, cut)
        (yields (
          HasSize-IsShowable _ _ n size (omega (arith, e')) (omega (arith, e'))
            (omega (arith, e, narrow)) (omega (arith, e'))))
  cut_frame-IsShowable false frame (a, b, square) (e, e') =
      let (n, cut, size) =
        laws.sub_image_inside frame 0 0 (cv.cols frame) (cv.rows frame) (omega arith)
          (omega arith) in
      rw cut (
        yields (
          HasSize-IsShowable _ _ n size (omega (arith, e)) (omega (arith, e')) (omega (arith, e))
            (omega (arith, e'))))

  pub turned-IsShowable :
      (rotate : Bool) (m : cv.Mat)
      → IsShowable cv window m
      → IsShowable cv window (if rotate then cv.turn_round m else m)
  turned-IsShowable true m h = SameSize-IsShowable m _ (laws.turn_round_size m) h
  turned-IsShowable false m h = h

  pub display_tracked_image-Returns :
      (m : cv.Mat) → IsShowable cv window m → Returns (display_tracked_image cv window m)
  unfolding display_tracked_image
  display_tracked_image-Returns m (_, w, h) =
      let (x, y, e, inside, inside', _, _, _, _) =
        corner_of_inside cv window (cv.cols m) (cv.rows m) w h in
      rw (display_tracked_image, e) (laws.copy_inside m m x y _ _ inside inside')

module _ {F D : Type 0} ⦃f : Floating F⦄ (cv : OpenCv D) (laws : SizeLaws cv)
    (window : CameraDisplay) where
  pub draw_tracking_info-IsShowable :
      (m : cv.Mat) (fids : List (TrackedFiducial F D))
      → IsShowable cv window m
      → Yields (IsShowable cv window) (draw_tracking_info cv window m fids)
  draw_tracking_info-IsShowable m fids h =
      Yields-map
        (Yields-and (Returns-Yields (draw_tracking_info-Returns cv window m fids)) (
          Gives-map
            (draw_tracking_info-Gives cv (λ n. (cv.cols n, cv.rows n))
              (λ n points c. Size-eq cv laws window n _ (laws.poly_size n points c))
              (λ n points c t. Size-eq cv laws window n _ (laws.lines_size n points c t))
              (λ n text p c. Size-eq cv laws window n _ (laws.text_size_kept n text p c)) window m
              fids)
            (λ n e. SameSize-IsShowable cv laws window m n (ap (λ x. x.0) e, ap (λ x. x.1) e) h)))
        (λ n p. p.1)
