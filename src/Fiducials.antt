-- ===== src/Fiducials.antt =====
-- xtrack/fiducials.cpp and fiducials.h: the raw fiducials of a frame update the table of tracked ones.
-- libfidtrack is the parameter `FidTrack`.
pub mod Libfidtrack
pub mod Tracked
pub mod Transfer
pub mod Seen
pub mod Run
pub mod Motion
pub mod Dmap
use xtrack.Prelude.{
  ℕ, zero, suc, ◌+◌, ◌-◌, ◌%◌, ◌++◌, Bool, true, false, not, ◌||◌, List, [], ◌∷◌, map, ltb,
  if◌then◌else◌, replicate, modify, ℤ, pos, negsuc,
}
use xtrack.Floating.{Floating, ◌⊘◌}
use xtrack.Fiducials.Libfidtrack.{FiducialX, ShortPoint, FidTrack}
use xtrack.Fiducials.Tracked.{TrackedFiducial, Size, fresh, update}

abbrev pub max_fiducials : ℕ
max_fiducials = 4

module _ {F D : Type 0} ⦃f : Floating F⦄ ⦃d : Floating D⦄ where
  module _ (narrow : D → F) (fsize : Size) (sec_time : D) where
    -- Only the first raw fiducial with an id counts in one frame.
    unfoldable pub touch : FiducialX F → TrackedFiducial F D → TrackedFiducial F D
    touch raw old =
        if not old.is_tracked || not (d.eq old.timestamp sec_time)
        then update narrow fsize sec_time raw old
        else old

    -- The id is a C int: libfidtrack gives a negative one to what it cannot identify.
    unfoldable pub transfer_one :
        FiducialX F → List (TrackedFiducial F D) → List (TrackedFiducial F D)
    transfer_one raw table = elim raw.id [
      | negsuc _ ↦ table
      | pos id ↦ if ltb id max_fiducials then modify table id (touch raw) else table
    ]

    unfoldable pub transfer :
        List (FiducialX F) → List (TrackedFiducial F D) → List (TrackedFiducial F D)
    transfer [] table = table
    transfer (raw ∷ raws) table = transfer raws (transfer_one raw table)

  module _ (sec_time : D) where
    unfoldable pub mark : TrackedFiducial F D → TrackedFiducial F D
    mark t = if not (d.eq t.timestamp sec_time) then record t { is_tracked = false } else t

    unfoldable pub mark_lost : List (TrackedFiducial F D) → List (TrackedFiducial F D)
    mark_lost = map mark

-- The conversion of an int that is not negative to a 16-bit short.
unfoldable pub to_short : ℕ → ℤ
to_short n = let low = n % 65536 in if ltb low 32768 then pos low else negsuc (65535 - low)

-- The table `dmap` of a frame: each pixel is mapped to itself. A row from the pixel `x` on, and the rows
-- from `y` on, with the number of pixels and of rows that are left.
unfoldable pub dmap_row : ℕ → ℕ → ℕ → List ShortPoint
unfolding to_short
dmap_row y x zero = []
dmap_row y x (suc left) = record { x = to_short x; y = to_short y } ∷ dmap_row y (x + 1) left

unfoldable pub dmap_rows : ℕ → ℕ → ℕ → List ShortPoint
unfolding dmap_row
dmap_rows width y zero = []
dmap_rows width y (suc left) = dmap_row y 0 width ++ dmap_rows width (y + 1) left

-- The object, with the state of libfidtrack and the raw fiducials that it found last.
pub record FiducialFinder (F D : Type 0) (lib : FidTrack F) : Type 0 where
  pub tracked_fiducials : List (TrackedFiducial F D)
  pub raw_fiducials : List (FiducialX F)
  pub segmenter : lib.Segmenter
  pub fidtracker : lib.FidtrackerX
  pub fsize : Size

-- What the destructor frees, in its order. The map of the pixels, an array, is given to `delete`.
pub data Freed : Type 0 where
  segmenter_terminated fidtracker_terminated treeidmap_terminated dmap_deleted : Freed

abbrev pub close_finder : List Freed
close_finder =
    segmenter_terminated ∷ fidtracker_terminated ∷ treeidmap_terminated ∷ dmap_deleted ∷ []

module _ {F D : Type 0} ⦃f : Floating F⦄ ⦃d : Floating D⦄ (lib : FidTrack F) where
  open lib use {initialize_treeidmap, initialize_fidtracker, initialize_segmenter, max_adjacencies}

  unfoldable pub new_finder : Size → FiducialFinder F D lib
  unfolding fresh dmap_rows
  new_finder fsize =
      let treeidmap = initialize_treeidmap in
      let dmap = dmap_rows fsize.width 0 fsize.height in
      record {
        tracked_fiducials = replicate max_fiducials fresh;
        raw_fiducials = [];
        segmenter = initialize_segmenter fsize.width fsize.height (max_adjacencies treeidmap);
        fidtracker = initialize_fidtracker treeidmap dmap;
        fsize = fsize;
      }

module _ {F D : Type 0} ⦃f : Floating F⦄ ⦃d : Floating D⦄ (lib : FidTrack F) (narrow : D → F) where
  open lib use {Image, columns, rows, step_segmenter, find_fiducials_x}

  -- The timestamp is in milliseconds. The result beside the object is the returned int.
  unfoldable pub find_fiducials : FiducialFinder F D lib → Image → D → FiducialFinder F D lib × ℤ
  find_fiducials finder frame timestamp =
      let segmented = step_segmenter finder.segmenter frame in
      let (raws, fidtracker, segmenter) =
        find_fiducials_x max_fiducials finder.fidtracker segmented (columns frame) (rows frame) in
      let sec_time = timestamp ⊘ d.of_int (pos 1000) in
      let tracked = pos 0 in
      let table = transfer narrow finder.fsize sec_time raws finder.tracked_fiducials in
      (
        record finder {
          tracked_fiducials = mark_lost sec_time table;
          raw_fiducials = raws;
          segmenter = segmenter;
          fidtracker = fidtracker;
        },
        tracked,
      )
