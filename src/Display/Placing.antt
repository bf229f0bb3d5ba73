-- ===== src/Display/Placing.antt =====
-- The drawing never fails, and where the image is put in the window.
use xtrack.Prelude.{
  ◌≡◌, refl, ℕ, zero, suc, ◌+◌, ◌-◌, ◌/◌, ◌%◌, ◌<◌, ◌≤◌, false, Bool-cases, inl, inr, some, List,
  [], ◌∷◌, length, get_elem?, take, ◌==◌, pos, ◌-ℤ◌, Returns, result, Returns-bind, Returns-if,
  arith,
}
use xtrack.Floating.{Floating}
use xtrack.OpenCv.{OpenCv}
use xtrack.Fiducials.{max_fiducials}
use xtrack.Fiducials.Tracked.{TrackedFiducial}
use xtrack.Display.{CameraDisplay}
use xtrack.Display.Drawing.{
  half, draw_name, draw_fiducial, draw_from, draw_tracking_info, corner_of,
}

get_elem?-within {ℓ} :
    {A : Type ℓ} (xs : List A) (i : ℕ) → i < length xs → (a : A) × (get_elem? xs i ≡ some a)
get_elem?-within [] i h = elim h [ ]
get_elem?-within (x ∷ xs) zero h = (x, refl)
get_elem?-within (x ∷ xs) (suc i) h = get_elem?-within xs i (omega arith)

name_index {ℓ} :
    {A : Type ℓ} (names : List A) (i : ℕ)
    → (length names == 0) ≡ false
    → (name : A) × (get_elem? names (i % length names) ≡ some name)
name_index names i h =
    get_elem?-within names (i % length names)
      (let p : 0 < length names = ground arith in omega arith)

module _ {F D : Type 0} ⦃f : Floating F⦄ (cv : OpenCv D) (display : CameraDisplay) where
  draw_name-Returns :
      (frame : cv.Mat) (i : ℕ) (x y : F) → Returns (draw_name cv display frame i x y)
  unfolding draw_name
  draw_name-Returns frame i x y = elim (Bool-cases (length display.track_names == 0)) [
    | inl nameless ↦ rw nameless (result frame)
    | inr named ↦ let (name, e) = name_index display.track_names i named in rw (named, e) (result _)
  ]

  draw_from-Returns :
      (frame : cv.Mat) (i : ℕ) (fids : List (TrackedFiducial F D))
      → Returns (draw_from cv display frame i fids)
  unfolding draw_from draw_fiducial
  draw_from-Returns frame i [] = result frame
  draw_from-Returns frame i (fid ∷ fids) =
      Returns-bind (Returns-if _ (draw_name-Returns _ i _ _) (result frame))
        (λ drawn. draw_from-Returns drawn (i + 1) fids)

  -- Drawing the tracking information never throws: the index into the names is in range, for any number
  -- of names.
  pub draw_tracking_info-Returns :
      (frame : cv.Mat) (fids : List (TrackedFiducial F D))
      → Returns (draw_tracking_info cv display frame fids)
  unfolding draw_tracking_info
  draw_tracking_info-Returns frame fids = draw_from-Returns frame 0 (take max_fiducials fids)

pub half_sub : (a b : ℕ) → b ≤ a → half (pos a -ℤ pos b) ≡ pos ((a - b) / 2)
unfolding half ◌-ℤ◌
half_sub a b h = ground arith

module _ {D : Type 0} (cv : OpenCv D) (display : CameraDisplay) where
  -- An image that is not larger than the window is put inside of it: the corner is not left of or above
  -- the window's, and the image ends within the window. The margins on the left and on the right differ by
  -- one pixel at most, and so do those above and below.
  pub corner_of_inside :
      (width height : ℕ)
      → width ≤ display.screen_size.width
      → height ≤ display.screen_size.height
      → (x : ℕ) × (y : ℕ) × (corner_of cv display width height ≡ record { x = pos x; y = pos y })
        × (x + width ≤ display.screen_size.width)
        × (y + height ≤ display.screen_size.height)
        × (display.screen_size.width - (x + width) ≤ x + 1)
        × (x ≤ display.screen_size.width - (x + width))
        × (display.screen_size.height - (y + height) ≤ y + 1)
        × (y ≤ display.screen_size.height - (y + height))
  unfolding corner_of
  corner_of_inside width height hw hh = (
    (display.screen_size.width - width) / 2,
    (display.screen_size.height - height) / 2,
    rw (half_sub _ _ hw, half_sub _ _ hh),
    omega arith,
    omega arith,
    omega arith,
    omega arith,
    omega arith,
    omega arith,
  )
