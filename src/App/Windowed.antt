-- ===== src/App/Windowed.antt =====
-- A run with the window for the input image: what is known of OpenCV and of the files, so that the run ends.
pub mod Images
pub mod Recorder
pub mod Disk
pub mod Keys
pub mod Rounds
pub mod Start
pub mod Run
use xtrack.Prelude.{
  Bool, true, ℕ, ◌+◌, ◌<◌, ◌≤◌, ◌≡◌, Option, some, List, ℤ, pos, InInt, ◌^◌, ◌++◌, ◌≢◌, ◌⊎◌, Any,
  false, ok, Returns,
}
use xtrack.Text.{Text, print_padded}
use xtrack.Floating.{Floating}
use xtrack.OpenCv.{OpenCv, Point, CvSize}
use xtrack.Fiducials.Libfidtrack.{FidTrack}
use xtrack.Record.{FileData, file_prefix, file_ext, pattern_of, get_file_name}
use xtrack.Record.Last.{AllListed, AllBelow}
use xtrack.Record.Next.{HasNoNegative}
use xtrack.Record.Ends.{opened, IsReadable}
use xtrack.Record.Player.{is_empty}
use xtrack.Record.Recorder.{CameraRecorder, FramePointer, live, recording}
use xtrack.Display.{CameraDisplay}
use xtrack.App.{AppState}
use xtrack.App.Safety.{IsSafe}

abbrev pub sized : ℕ → ℕ → CvSize
sized w h = record { width = pos w; height = pos h }

-- The file that `getFileName` names, as the directory search gives it.
abbrev pub written : ℕ → FileData
written n = record {
  is_directory = false;
  file_name = file_prefix ++ (print_padded 3 b'0' (pos n) ++ file_ext);
}

abbrev pub corner : ℕ → ℕ → Point
corner x y = record { x = pos x; y = pos y }

-- The size of the window, that of the camera's frames, is positive, and where a square is wanted it can be
-- cut out of it.
abbrev pub IsWide : Bool → CameraDisplay → Type 0
IsWide quadratic window =
    (0 < window.screen_size.width)
    × (0 < window.screen_size.height)
    × (quadratic ≡ true → window.screen_size.height ≤ window.screen_size.width)

module _ {D : Type 0} (cv : OpenCv D) where
  open cv use {World, Mat, Color, cols, rows}

  abbrev pub HasSize : ℕ → ℕ → Mat → Type 0
  HasSize w h m = (cols m ≡ w) × (rows m ≡ h)

  abbrev pub SameSize : Mat → Mat → Type 0
  SameSize m n = (cols n ≡ cols m) × (rows n ≡ rows m)

  abbrev pub IsFullFrame : CameraDisplay → Mat → Type 0
  IsFullFrame window = HasSize window.screen_size.width window.screen_size.height

  abbrev pub IsFilled : Mat → Type 0
  IsFilled m = (0 < cols m) × (0 < rows m)

  -- Documented behaviour: the sizes of images, and which arguments are not refused.
  pub record SizeLaws : Type 0 where
    pub new_mat_size : (w h : ℕ) → HasSize w h (cv.new_mat (sized w h))
    pub sub_image_inside :
        (m : Mat) (x y w h : ℕ)
        → x + w ≤ cols m
        → y + h ≤ rows m
        → (n : Mat) × (cv.sub_image m (corner x y) (sized w h) ≡ ok n) × HasSize w h n
    pub resize_filled :
        (m : Mat) (w h : ℕ)
        → IsFilled m
        → 0 < w
        → 0 < h
        → (n : Mat) × (cv.resize m (sized w h) ≡ ok n) × HasSize w h n
    pub copy_inside :
        (m n : Mat) (x y w h : ℕ)
        → x + cols n ≤ w
        → y + rows n ≤ h
        → Returns (cv.copy_into (cv.zeros (sized w h) m) (corner x y) n)
    pub turn_round_size : (m : Mat) → SameSize m (cv.turn_round m)
    pub poly_size :
        (m : Mat) (points : List Point) (c : Color) → SameSize m (cv.fill_convex_poly m points c)
    pub lines_size :
        (m : Mat) (points : List Point) (c : Color) (t : ℤ) → SameSize m (cv.polylines m points c t)
    pub text_size_kept :
        (m : Mat) (text : Text) (p : Point) (c : Color) → SameSize m (cv.put_text m text p c)

  -- Not empty, and not larger than the window.
  abbrev pub IsShowable : CameraDisplay → Mat → Type 0
  IsShowable window m =
      IsFilled m × (cols m ≤ window.screen_size.width) × (rows m ≤ window.screen_size.height)

module _ {D : Type 0} ⦃d : Floating D⦄ (cv : OpenCv D) where
  open cv use {World, Mat}

  -- The directory search gives names that its pattern fits and no negative numbers, and some of the files
  -- gives a frame.
  abbrev pub HasVideos : Text → World → Type 0
  HasVideos dir world =
      AllListed (cv.search_files world (pattern_of dir))
      × HasNoNegative (cv.search_files world (pattern_of dir))
      × ((n : ℕ) × IsReadable cv world dir n)

  abbrev pub PointerFits : CameraDisplay → FramePointer Mat → Type 0
  PointerFits window pointer = (m : Mat) → pointer ≡ live m → IsShowable cv window m

  -- The sizes of the recorder are positive, an image that is played back fits the window, and the file's number
  -- is an int.
  pub record ReadyRecorder (window : CameraDisplay) (r : CameraRecorder cv) : Type 0 where
    pub small : (w : ℕ) × (h : ℕ) × (r.record_size ≡ sized w h) × (0 < w) × (0 < h)
    pub orig :
        (w : ℕ) × (h : ℕ) × (r.orig_size ≡ sized w h)
        × (0 < w)
        × (0 < h)
        × (w ≤ window.screen_size.width)
        × (h ≤ window.screen_size.height)
    pub pointer : PointerFits window r.last_played_frame
    pub number : InInt r.last_played_file_num

  -- No number of a file comes within `count` of the largest int.
  abbrev pub HasRoom : ℕ → Text → World → Type 0
  HasRoom count dir world =
      (bound : ℕ) × (bound + count + 1 < 2 ^ 31)
      × AllBelow bound (cv.search_files world (pattern_of dir))

  -- What opening the file with a number in the directory for writing leaves, where the number is an int that is
  -- not negative: the directory search gives the same files, and this file at most besides; and the other files
  -- that give a frame still give one.
  pub record WriterLaws (dir : Text) : Type 0 where
    pub listed_after :
        (world : World) (n : ℕ) (codec : ℤ) (rate : D) (size : CvSize) (file : FileData)
        → n < 2 ^ 31
        → Any
            (λ g. g ≡ file)
            (cv.search_files
              (cv.writer_open world (get_file_name dir (pos n)) codec rate size).1
              (pattern_of dir))
        → Any (λ g. g ≡ file) (cv.search_files world (pattern_of dir)) ⊎ (file ≡ written n)
    pub kept_after :
        (world : World) (n : ℕ) (codec : ℤ) (rate : D) (size : CvSize) (file : FileData)
        → n < 2 ^ 31
        → Any (λ g. g ≡ file) (cv.search_files world (pattern_of dir))
        → Any
            (λ g. g ≡ file)
            (cv.search_files
              (cv.writer_open world (get_file_name dir (pos n)) codec rate size).1
              (pattern_of dir))
    pub read_after :
        (world : World) (n m : ℕ) (codec : ℤ) (rate : D) (size : CvSize)
        → n < 2 ^ 31
        → m ≢ n
        → is_empty cv (opened cv world dir (pos m)).frame ≡ false
        → is_empty cv
            (opened cv
              (cv.writer_open world (get_file_name dir (pos n)) codec rate size).1
              dir
              (pos m)).frame
          ≡ false

  -- The directory has videos, and room for more of them.
  abbrev pub Stock : ℕ → Text → World → Type 0
  Stock count dir world = HasVideos dir world × HasRoom count dir world

  -- A recorder that is ready, and the videos of its directory.
  abbrev pub Stocks : ℕ → Text → CameraDisplay → World → CameraRecorder cv → Type 0
  Stocks count dir window world r =
      ReadyRecorder window r × (r.video_dir ≡ dir) × Stock count dir world

module _ {F D : Type 0} ⦃d : Floating D⦄ {lib : FidTrack F} {cv : OpenCv D} where
  -- The window, a recorder that is ready, and videos.
  abbrev pub IsStocked : ℕ → Text → CameraDisplay → AppState F D lib cv → Type 0
  IsStocked count dir window s =
      (s.display ≡ some window) × Stocks cv count dir window s.world s.recorder

  -- A state from which the rounds with the window go on, as many as are counted.
  abbrev pub IsReady : ℕ → Text → CameraDisplay → AppState F D lib cv → Type 0
  IsReady count dir window s = IsSafe s × IsStocked count dir window s

  -- Behind the drawing: what is recorded is not empty.
  abbrev pub IsDrawn : ℕ → Text → CameraDisplay → AppState F D lib cv → Type 0
  IsDrawn count dir window s =
      IsStocked count dir window s × (s.record_mode ≡ recording → IsFilled cv s.display_mat)
