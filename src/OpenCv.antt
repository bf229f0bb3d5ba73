-- ===== src/OpenCv.antt =====
-- What the program uses of OpenCV: images, video files and windows. `World` is what other programs and the
-- library can change, the files above all.
use xtrack.Prelude.{ℕ, ◌≡◌, Bool, false, List, ℤ, Outcome, raise, cv_exception, IsDefined}
use xtrack.Text.{Text}
use xtrack.Record.{FileData}

-- cv::Point and cv::Size, whose fields are ints
pub record Point : Type 0 where
  pub x : ℤ
  pub y : ℤ

pub record CvSize : Type 0 where
  pub width : ℤ
  pub height : ℤ

pub record OpenCv (D : Type 0) : Type 1 where
  pub World : Type 0
  pub Mat : Type 0
  pub Writer : Type 0
  pub Reader : Type 0
  -- the files that fit a pattern
  pub search_files : World → Text → List FileData
  -- Mat: an image without pixels, one with the given size, and the sizes of an image
  pub empty_mat : Mat
  pub new_mat : CvSize → Mat
  pub cols : Mat → ℕ
  pub rows : Mat → ℕ
  pub resize : Mat → CvSize → Outcome Mat
  -- the part of an image at a corner with a size, refused where it is not inside; an image turned by 180
  -- degrees; the number of channels; the gray image; the image with a threshold applied
  pub sub_image : Mat → Point → CvSize → Outcome Mat
  pub turn_round : Mat → Mat
  pub channels : Mat → ℕ
  pub to_gray : Mat → Mat
  pub threshold : Mat → ℤ → Mat
  -- a black image of the given size and the type of another; an image copied into another at a corner,
  -- refused where it does not fit
  pub zeros : CvSize → Mat → Mat
  pub copy_into : Mat → Point → Mat → Outcome Mat
  -- drawing: colors (`dim` is the multiplication by 0.7), lines with a thickness, circles with a radius
  -- (a negative thickness fills them), polygons, and text with its size
  pub Color : Type 0
  pub scalar : ℕ → ℕ → ℕ → Color
  pub dim : Color → Color
  pub line : Mat → Point → Point → Color → ℤ → Mat
  pub circle : Mat → Point → ℤ → Color → ℤ → Mat
  pub fill_convex_poly : Mat → List Point → Color → Mat
  pub polylines : Mat → List Point → Color → ℤ → Mat
  pub text_size : Text → CvSize
  pub put_text : Mat → Text → Point → Color → Mat
  -- VideoWriter: open(name, codec, rate, size), isOpened, <<, release
  pub writer_open : World → Text → ℤ → D → CvSize → Writer × World
  pub writer_is_opened : Writer → Bool
  pub write : Writer → Mat → Writer
  pub writer_release : Writer → Writer
  -- VideoCapture: open(name), isOpened, >>, release
  pub reader_open : World → Text → Reader
  pub reader_is_opened : Reader → Bool
  pub read : Reader → Mat × Reader
  pub reader_release : Reader → Reader

-- Documented behaviour that theorems rely on.
pub record OpenCvLaws {D : Type 0} (cv : OpenCv D) : Type 0 where
  -- a writer that is released is not open
  pub released : (w : cv.Writer) → cv.writer_is_opened (cv.writer_release w) ≡ false
  -- `resize` refuses an image without pixels
  pub resize_empty : (size : CvSize) → cv.resize cv.empty_mat size ≡ raise cv_exception
  -- the calls that may refuse their arguments do it by an exception
  pub resize_defined : (m : cv.Mat) (size : CvSize) → IsDefined (cv.resize m size)
  pub sub_image_defined :
      (m : cv.Mat) (p : Point) (size : CvSize) → IsDefined (cv.sub_image m p size)
  pub copy_into_defined : (m : cv.Mat) (p : Point) (n : cv.Mat) → IsDefined (cv.copy_into m p n)
