-- ===== src/Tests/Stubs.antt =====
-- Stand-ins for what is not code of the repository: numbers, OpenCV, WOscLib and libfidtrack.
use xtrack.Prelude.{
  ◌≡◌, refl, ℕ, ◌+◌, ◌*◌, ◌/◌, ◌==◌, ◌&&◌, ◌||◌, Bool, true, false, Option, none, some, List, [],
  ◌∷◌, ◌++◌, if◌then◌else◌, length, take, ℤ, pos, pos_part, neg_part, sub_ℕ, ltb_ℤ, leb_ℤ, Outcome,
  ok, raise, cv_exception, IsDefined, returns, raises, arith,
}
use xtrack.Text.{Text, print_int}
use xtrack.Floating.{Floating, ◌≺◌}
use xtrack.Fiducials.Tracked.{Size}
use xtrack.Fiducials.Libfidtrack.{FiducialX, FidTrack}
use xtrack.Tuio.Wosclib.{Wosc, Sockets}
use xtrack.Record.{FileData}
use xtrack.OpenCv.{CvSize, OpenCv, OpenCvLaws}

-- Whole numbers, and `none` for NaN.
abbrev pub Number : Type 0
Number = Option ℤ

abbrev lift : (ℤ → ℤ → ℤ) → Number → Number → Number
lift f none b = none
lift f (some a) none = none
lift f (some a) (some b) = some (f a b)

abbrev compared : (ℤ → ℤ → Bool) → Number → Number → Bool
compared f none b = false
compared f (some a) none = false
compared f (some a) (some b) = f a b

abbrev plus_ℤ : ℤ → ℤ → ℤ
plus_ℤ a b = sub_ℕ (pos_part a + pos_part b) (neg_part a + neg_part b)

abbrev minus_ℤ : ℤ → ℤ → ℤ
minus_ℤ a b = sub_ℕ (pos_part a + neg_part b) (neg_part a + pos_part b)

abbrev times_ℤ : ℤ → ℤ → ℤ
times_ℤ a b =
    sub_ℕ (pos_part a * pos_part b + neg_part a * neg_part b)
      (pos_part a * neg_part b + neg_part a * pos_part b)

-- The quotient of the absolute values: enough for the tests, which divide what is not negative.
abbrev over_ℤ : ℤ → ℤ → ℤ
over_ℤ a b = pos ((pos_part a + neg_part a) / (pos_part b + neg_part b))

abbrev size_of : Number → Number
size_of none = none
size_of (some a) = some (pos (pos_part a + neg_part a))

abbrev whole : Number → ℤ
whole none = pos 0
whole (some a) = a

instance abbrev pub numbers : Floating Number
numbers = record {
  literal = λ n m. some (pos (n / m));
  nan = none;
  plus = lift plus_ℤ;
  minus = lift minus_ℤ;
  times = lift times_ℤ;
  over = lift over_ℤ;
  lt = compared ltb_ℤ;
  le = compared leb_ℤ;
  eq = compared (λ a b. leb_ℤ a b && leb_ℤ b a);
  sqrt = size_of;
  abs = size_of;
  sin = λ a. a;
  cos = λ a. a;
  of_int = some;
  to_int = whole;
}

pub asymmetric : (a b : Number) → a ≺ b → numbers.lt b a ≡ false
asymmetric none b h = cc
asymmetric (some a) none h = cc
asymmetric (some a) (some b) h = ground arith

pub transitive : (a b c : Number) → a ≺ b → b ≺ c → a ≺ c
transitive none b c h k = cc
transitive (some a) none c h k = cc
transitive (some a) (some b) none h k = cc
transitive (some a) (some b) (some c) h k = ground arith

-- An image is its size. A video file can be read exactly if there is a file at all, and a reader that is
-- open gives frames of one size.
abbrev pub image : ℕ → ℕ → Size
image w h = record { width = w; height = h }

abbrev sized : CvSize → Size
sized s = image (pos_part s.width) (pos_part s.height)

abbrev resized : Size → CvSize → Outcome Size
resized m s = if m.width == 0 || m.height == 0 then raise cv_exception else ok (sized s)

abbrev has_files : List FileData → Bool
has_files [] = false
has_files (file ∷ files) = true

abbrev pub cv : OpenCv Number
cv = record {
  World = List FileData;
  Mat = Size;
  Writer = Bool;
  Reader = Bool;
  search_files = λ files pattern. files;
  empty_mat = image 0 0;
  new_mat = sized;
  cols = λ m. m.width;
  rows = λ m. m.height;
  resize = resized;
  sub_image = λ m corner s. ok (sized s);
  turn_round = λ m. m;
  channels = λ m. 3;
  to_gray = λ m. m;
  threshold = λ m t. m;
  zeros = λ s m. sized s;
  copy_into = λ m corner n. ok n;
  Color = ℕ;
  scalar = λ r g b. r;
  dim = λ c. c;
  line = λ m a b c t. m;
  circle = λ m a r c t. m;
  fill_convex_poly = λ m ps c. m;
  polylines = λ m ps c t. m;
  text_size = λ s. record { width = pos (length s); height = pos 1 };
  put_text = λ m s p c. m;
  writer_open =
      λ files name codec rate s. (true, record { is_directory = false; file_name = name } ∷ files);
  writer_is_opened = λ w. w;
  write = λ w m. w;
  writer_release = λ w. false;
  reader_open = λ files name. has_files files;
  reader_is_opened = λ r. r;
  read = λ r. (if r then image 2 2 else image 0 0, r);
  reader_release = λ r. false;
}

pub resized-IsDefined : (m : Size) (s : CvSize) → IsDefined (resized m s)
resized-IsDefined m s =
    elim (m.width == 0 || m.height == 0)
      as (λ b. IsDefined (if b then raise cv_exception else ok (sized s))) [
        | true ↦ raises cv_exception (λ e. cc)
        | false ↦ returns (sized s) tt
      ]

abbrev pub cv_laws : OpenCvLaws cv
cv_laws = record {
  released = λ w. refl;
  resize_empty = λ s. refl;
  resize_defined = resized-IsDefined;
  sub_image_defined = λ m corner s. returns _ tt;
  copy_into_defined = λ m corner n. returns _ tt;
}

-- A message is the texts and ints in it, one behind the other.
abbrev pub osc : Wosc Number
osc = record {
  Message = Text;
  Bundle = Text;
  new_message = λ path. path;
  add_text = λ m s. m ++ s;
  add_int = λ m n. m ++ print_int n;
  add_float = λ m v. m ++ print_int (whole v);
  new_bundle = [];
  add_message = λ b m. b ++ m;
  get_buffer = λ b. b;
}

abbrev pub sockets : Sockets
sockets = record { startup = pos 0; socket = pos 7 }

-- An image is the fiducials in it.
abbrev pub lib : FidTrack Number
lib = record {
  Image = List (FiducialX Number);
  columns = λ m. 640;
  rows = λ m. 480;
  TreeIdMap = Unit;
  Segmenter = List (FiducialX Number);
  FidtrackerX = Unit;
  initialize_treeidmap = tt;
  max_adjacencies = λ t. 5;
  initialize_fidtracker = λ t ps. tt;
  initialize_segmenter = λ w h n. [];
  step_segmenter = λ s m. m;
  find_fiducials_x = λ n t s w h. (take n s, t, s);
}
