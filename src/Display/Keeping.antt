-- ===== src/Display/Keeping.antt =====
-- The drawing of the tracking information keeps what its steps keep.
use xtrack.Prelude.{
  ℕ, ◌+◌, ◌%◌, ◌==◌, ◌≡◌, ◌∙◌, refl, List, [], ◌∷◌, get_elem?, length, take, ℤ, Gives, given,
  raised, Gives-then, Gives-if, Gives-map, Option-cases, inl, inr,
}
use xtrack.Text.{Text}
use xtrack.Floating.{Floating}
use xtrack.OpenCv.{OpenCv, Point}
use xtrack.Fiducials.{max_fiducials}
use xtrack.Fiducials.Tracked.{TrackedFiducial}
use xtrack.Display.{CameraDisplay}
use xtrack.Display.Drawing.{draw_name, draw_fiducial, draw_from, draw_tracking_info}

module _ {F D X : Type 0} ⦃f : Floating F⦄ (cv : OpenCv D) (measure : cv.Mat → X)
    (poly : (m : cv.Mat) (points : List Point) (c : cv.Color)
      → measure (cv.fill_convex_poly m points c) ≡ measure m)
    (lines : (m : cv.Mat) (points : List Point) (c : cv.Color) (t : ℤ)
      → measure (cv.polylines m points c t) ≡ measure m)
    (texts : (m : cv.Mat) (text : Text) (p : Point) (c : cv.Color)
      → measure (cv.put_text m text p c) ≡ measure m) where
  draw_name-Gives :
      (display : CameraDisplay) (m : cv.Mat) (i : ℕ) (x y : F)
      → Gives (λ r. measure r ≡ measure m) (draw_name cv display m i x y)
  unfolding draw_name
  draw_name-Gives display m i x y =
      Gives-if (length display.track_names == 0) (λ _. given refl)
        (elim (Option-cases (get_elem? display.track_names (i % length display.track_names))) [
          | inl e ↦ rw e raised
          | inr (name, e) ↦ rw e (given (texts _ _ _ _))
        ])

  draw_from-Gives :
      (display : CameraDisplay) (m : cv.Mat) (i : ℕ) (fids : List (TrackedFiducial F D))
      → Gives (λ r. measure r ≡ measure m) (draw_from cv display m i fids)
  unfolding draw_from draw_fiducial
  draw_from-Gives display m i [] = given refl
  draw_from-Gives display m i (fid ∷ fids) =
      Gives-then
        (Gives-if fid.is_tracked
          (λ _. Gives-map (draw_name-Gives display _ i _ _) (λ r e. e ∙ lines _ _ _ _ ∙ poly _ _ _))
          (given refl))
        (λ m' e. Gives-map (draw_from-Gives display m' (i + 1) fids) (λ r e'. e' ∙ e))

  pub draw_tracking_info-Gives :
      (display : CameraDisplay) (m : cv.Mat) (fids : List (TrackedFiducial F D))
      → Gives (λ r. measure r ≡ measure m) (draw_tracking_info cv display m fids)
  unfolding draw_tracking_info
  draw_tracking_info-Gives display m fids = draw_from-Gives display m 0 (take max_fiducials fids)
