-- ===== src/Record.antt =====
-- xtrack/record.cpp and record.h: the numbered video files, their names, and the search for them in the
-- directory.
pub mod Names
pub mod Next
pub mod Ends
pub mod Last
pub mod Recorder
pub mod Player
pub mod Ranges
pub mod Chosen
pub mod Pace
pub mod Replay
pub mod Timing
pub mod Replayed
pub mod Playback
use xtrack.Prelude.{
  ℕ, zero, suc, ◌+◌, ◌-◌, ◌%◌, ◌^◌, Bool, true, false, ◌&&◌, ◌||◌, Option, none, some, List, [],
  ◌∷◌, ◌++◌, ltb, if◌then◌else◌, length, ℤ, pos, negsuc, ltb_ℤ, leb_ℤ, Outcome, ok, raise, ◌>>=◌,
}
use xtrack.Text.{Text, codes, substr, extract_int, print_padded}

abbrev pub file_prefix : Text
file_prefix = codes "xtrack"

abbrev pub file_ext : Text
file_ext = codes ".avi"

-- What the search says of one file: WIN32_FIND_DATA.
pub record FileData : Type 0 where
  pub is_directory : Bool
  pub file_name : Text

-- The number in a file's name; `none` where the conversion fails. The subtraction is that of size_t.
unfoldable pub file_number : Text → Outcome (Option ℤ)
unfolding substr extract_int
file_number name = do
  let count = (length name + 2 ^ 64 - length file_prefix - length file_ext) % 2 ^ 64
  digits ← substr name (length file_prefix) count
  ok (extract_int digits)

abbrev pub is_negative : ℤ → Bool
is_negative (pos n) = false
is_negative (negsuc n) = true

-- The test of `getNextFileNum` on one number.
unfoldable pub is_nearer : (current next number : ℤ) → Bool
is_nearer current next number =
    is_negative next
    || (ltb_ℤ current number && (leb_ℤ next current || ltb_ℤ number next))
    || (leb_ℤ next current && ltb_ℤ number next)

abbrev pub closer : ℤ → ℤ → Option ℤ → ℤ
closer current next none = next
closer current next (some number) = if is_nearer current next number then number else next

-- The loop of `getNextFileNum` over the files that the search finds.
unfoldable pub next_among : ℤ → ℤ → List FileData → Outcome ℤ
next_among current next [] = ok next
next_among current next (file ∷ files) =
    if file.is_directory then next_among current next files else (do
      number ← file_number file.file_name
      next_among current (closer current next number) files)

abbrev pub later : ℤ → Option ℤ → ℤ
later last none = last
later last (some number) = if ltb_ℤ last number then number else last

-- The loop of `getLastFileNum`.
unfoldable pub last_among : ℤ → List FileData → Outcome ℤ
last_among last [] = ok last
last_among last (file ∷ files) =
    if file.is_directory
    then last_among last files
    else (do number ← file_number file.file_name; last_among (later last number) files)

abbrev pub pattern_of : Text → Text
pattern_of video_dir = video_dir ++ (file_prefix ++ (codes "*" ++ file_ext))

-- `search_files pattern` are the files of FindFirstFile and FindNextFile, none for INVALID_HANDLE_VALUE.
module _ (search_files : Text → List FileData) (video_dir : Text) where
  unfoldable pub get_next_file_num : ℤ → Outcome ℤ
  get_next_file_num current = next_among current (negsuc 0) (search_files (pattern_of video_dir))

  unfoldable pub get_last_file_num : Outcome ℤ
  get_last_file_num = last_among (pos 0) (search_files (pattern_of video_dir))

unfoldable pub get_file_name : Text → ℤ → Text
unfolding print_padded
get_file_name video_dir number =
    video_dir ++ (file_prefix ++ (print_padded 3 b'0' number ++ file_ext))
