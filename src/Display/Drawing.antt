-- ===== src/Display/Drawing.antt =====
-- xtrack/display.cpp, `drawTrackingInfo` and `displayTrackedImage`.
use xtrack.Prelude.{
  ℕ, ◌+◌, ◌/◌, ◌%◌, none, some, List, [], ◌∷◌, ◌==◌, if◌then◌else◌, length, get_elem?, take, ℤ, pos,
  negsuc, ◌+ℤ◌, ◌-ℤ◌, Outcome, ok, raise, out_of_range, ◌>>=◌,
}
use xtrack.Floating.{Floating, ◌⊕◌, ◌⊗◌}
use xtrack.OpenCv.{OpenCv, Point}
use xtrack.Fiducials.{max_fiducials}
use xtrack.Fiducials.Tracked.{TrackedFiducial, pi}
use xtrack.Display.{CameraDisplay}

-- n / 2 of C, which rounds towards zero
unfoldable pub half : ℤ → ℤ
half (pos n) = pos (n / 2)
half (negsuc n) = pos 0 -ℤ pos ((n + 1) / 2)

module _ {D : Type 0} (cv : OpenCv D) where
  open cv use {Color, scalar}

  -- The two colors take turns.
  unfoldable pub track_color : ℕ → Color
  track_color i = if i % 2 == 0 then scalar 209 145 88 else scalar 96 88 218

module _ {F D : Type 0} ⦃f : Floating F⦄ (cv : OpenCv D) where
  open cv use {Mat, cols, rows, scalar, dim, fill_convex_poly, polylines, text_size, put_text}

  -- A point at a distance from the center, in the direction `part` quarters of a half turn from `angle`.
  abbrev around : F → F → F → F → F → Point
  around center_x center_y distance angle part = record {
    x = f.to_int (center_x ⊕ distance ⊗ f.cos (angle ⊕ part ⊗ pi));
    y = f.to_int (center_y ⊕ distance ⊗ f.sin (angle ⊕ part ⊗ pi));
  }

  -- The corners of the rectangle and the head of its arrow, in the order in which they are drawn.
  unfoldable pub outline : CameraDisplay → F → F → F → List Point
  unfolding pi
  outline display x y angle =
      let size = f.of_int display.track_rect_size in
      around x y size angle (f.literal 75 100)
      ∷ around x y size angle (f.literal 25 100)
      ∷ around x y size angle (f.literal 175 100)
      ∷ around x y (size ⊗ f.literal 13 10) angle (f.literal 15 10)
      ∷ around x y size angle (f.literal 125 100)
      ∷ []

  unfoldable pub draw_name : CameraDisplay → Mat → ℕ → F → F → Outcome Mat
  unfolding half
  draw_name display frame i x y =
      if length display.track_names == 0
      then ok frame
      else elim (get_elem? display.track_names (i % length display.track_names)) [
        | none ↦ raise out_of_range
        | some name ↦
            let size = text_size name in
            let place : Point = record {
              x = f.to_int x -ℤ half size.width;
              y = f.to_int y +ℤ half size.height;
            } in
            ok (put_text frame name place (scalar 230 230 230))
      ]

  unfoldable pub draw_fiducial : CameraDisplay → Mat → ℕ → TrackedFiducial F D → Outcome Mat
  unfolding outline track_color
  draw_fiducial display frame i fid =
      let x = fid.x ⊗ f.of_int (pos (cols frame)) in
      let y = fid.y ⊗ f.of_int (pos (rows frame)) in
      let points = outline display x y fid.a in
      let filled = fill_convex_poly frame points (track_color cv i) in
      draw_name display (polylines filled points (dim (track_color cv i)) (pos 3)) i x y

  -- The loop of `drawTrackingInfo`, from the index `i` on.
  unfoldable pub draw_from : CameraDisplay → Mat → ℕ → List (TrackedFiducial F D) → Outcome Mat
  draw_from display frame i [] = ok frame
  draw_from display frame i (fid ∷ fids) =
      (if fid.is_tracked then draw_fiducial display frame i fid else ok frame) >>= λ frame'.
      draw_from display frame' (i + 1) fids

  unfoldable pub draw_tracking_info : CameraDisplay → Mat → List (TrackedFiducial F D) → Outcome Mat
  unfolding draw_from
  draw_tracking_info display frame fiducials =
      draw_from display frame 0 (take max_fiducials fiducials)

module _ {D : Type 0} (cv : OpenCv D) where
  open cv use {Mat, cols, rows, zeros, copy_into}

  -- Where the image is put: its corner in the window.
  unfoldable pub corner_of : CameraDisplay → ℕ → ℕ → Point
  unfolding half
  corner_of display width height = record {
    x = half (pos display.screen_size.width -ℤ pos width);
    y = half (pos display.screen_size.height -ℤ pos height);
  }

  -- The image that `imshow` is given.
  unfoldable pub display_tracked_image : CameraDisplay → Mat → Outcome Mat
  unfolding corner_of
  display_tracked_image display frame =
      let screen = display.screen_size in
      copy_into (zeros (record { width = pos screen.width; height = pos screen.height }) frame)
        (corner_of display (cols frame) (rows frame)) frame
