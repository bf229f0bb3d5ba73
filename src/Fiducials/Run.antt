-- ===== src/Fiducials/Run.antt =====
-- The table of tracked fiducials over a run.
use mathlib.Core.Path.{subst}
use xtrack.Prelude.{
  ◌≡◌, ◌∙◌, refl, sym, ap, ℕ, ◌<◌, true, false, Option, none, some, List, [], ◌∷◌, get_elem?,
}
use xtrack.Floating.{Floating}
use xtrack.Fiducials.{max_fiducials, FiducialFinder, find_fiducials}
use xtrack.Fiducials.Tracked.{Size, TrackedFiducial, update}
use xtrack.Fiducials.Libfidtrack.{FidTrack, FiducialX}
use xtrack.Fiducials.Transfer.{first_with, update_stamp}
use xtrack.Fiducials.Seen.{seconds, raws_of, find_fiducials_entry}

module _ {F D : Type 0} ⦃f : Floating F⦄ ⦃d : Floating D⦄ (lib : FidTrack F) (narrow : D → F) where
  open lib use {Image, Segmenter, FidtrackerX, columns, rows, step_segmenter, find_fiducials_x}

  -- The finder alone on images and clocks, and its tables.
  abbrev pub track_all :
      FiducialFinder F D lib
      → List (Image × D)
      → FiducialFinder F D lib × List (List (TrackedFiducial F D))
  track_all finder [] = (finder, [])
  track_all finder ((image, clock) ∷ frames) =
      let next = (find_fiducials lib narrow finder image clock).0 in
      let rest = track_all next frames in (rest.0, next.tracked_fiducials ∷ rest.1)

  -- What libfidtrack finds in the frames, and the seconds.
  abbrev pub found_all : Segmenter → FidtrackerX → List (Image × D) → List (List (FiducialX F) × D)
  found_all segmenter tracker [] = []
  found_all segmenter tracker ((image, clock) ∷ frames) =
      let res =
        find_fiducials_x max_fiducials tracker (step_segmenter segmenter image) (columns image)
          (rows image) in
      (res.0, seconds lib narrow clock) ∷ found_all res.2 res.1 frames

  -- A frame at the entry of one id: the first fiducial with the id updates it, and where there is none it
  -- is marked.
  abbrev pub meet : Size → D → Option (FiducialX F) → TrackedFiducial F D → TrackedFiducial F D
  meet fsize sec none t = record t { is_tracked = false }
  meet fsize sec (some raw) t = update narrow fsize sec raw t

  -- The entry of one id alone over what is found in a run.
  abbrev pub follow :
      Size → ℕ → List (List (FiducialX F) × D) → TrackedFiducial F D → TrackedFiducial F D
  follow fsize i [] t = t
  follow fsize i ((raws, sec) ∷ found) t =
      follow fsize i found (meet fsize sec (first_with i raws) t)

  -- The times are no NaN, and all different from each other and from `stamp`.
  abbrev pub Apart : D → List (Image × D) → Type 0
  Apart stamp [] = Unit {0}
  Apart stamp ((image, clock) ∷ frames) =
      (d.eq (seconds lib narrow clock) (seconds lib narrow clock) ≡ true)
      × (d.eq stamp (seconds lib narrow clock) ≡ false)
      × Apart stamp frames
      × Apart (seconds lib narrow clock) frames

  pub meet-Apart :
      (fsize : Size) (sec : D) (o : Option (FiducialX F)) (t : TrackedFiducial F D)
      (frames : List (Image × D))
      → d.eq sec sec ≡ true
      → Apart t.timestamp frames
      → Apart sec frames
      → Apart (meet fsize sec o t).timestamp frames
  meet-Apart fsize sec none t frames ticks old new = old
  meet-Apart fsize sec (some raw) t frames ticks old new =
      subst (λ stamp. Apart stamp frames) (sym (update_stamp narrow fsize sec ticks raw t).1) new

  pub meet_lem :
      (fsize : Size) (sec : D) (o : Option (FiducialX F)) (t : TrackedFiducial F D)
      → elim o [ none ↦ record t { is_tracked = false } | some raw ↦ update narrow fsize sec raw t ]
        ≡ meet fsize sec o t
  meet_lem fsize sec none t = refl
  meet_lem fsize sec (some raw) t = refl

  -- Over a run whose times are no NaN, and different from each other and from the entry's, the entry `i`,
  -- below 4, of the table is what the fiducials with the id `i` alone make of it, frame by frame: the
  -- other ids, and further fiducials with the same id in a frame, have no influence.
  pub track_all_entry :
      (finder : FiducialFinder F D lib) (frames : List (Image × D)) (i : ℕ)
      (t : TrackedFiducial F D)
      → i < max_fiducials
      → get_elem? finder.tracked_fiducials i ≡ some t
      → Apart t.timestamp frames
      → get_elem? (track_all finder frames).0.tracked_fiducials i
        ≡ some (follow finder.fsize i (found_all finder.segmenter finder.fidtracker frames) t)
  unfolding find_fiducials
  track_all_entry finder [] i t known entry apart = entry
  track_all_entry finder ((image, clock) ∷ frames) i t known entry apart =
      let o = first_with i (raws_of lib narrow finder image) in
      let sec = seconds lib narrow clock in
      track_all_entry (find_fiducials lib narrow finder image clock).0 frames i
        (meet finder.fsize sec o t) known
        (find_fiducials_entry lib narrow finder image clock i t apart.0 known entry apart.1
          ∙ ap some (meet_lem finder.fsize sec o t))
        (meet-Apart finder.fsize sec o t frames apart.0 apart.2 apart.3)
