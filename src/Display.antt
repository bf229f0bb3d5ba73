-- ===== src/Display.antt =====
-- xtrack/display.cpp and display.h: what the window for the input image keeps, and where an image is put
-- in it.
pub mod Names
pub mod Drawing
pub mod Placing
pub mod Keeping
use xtrack.Prelude.{
  ℕ, zero, suc, ◌+◌, ◌-◌, ◌/◌, ◌≤◌, Bool, true, false, ◌&&◌, Option, none, some, List, [], ◌∷◌,
  ◌++◌, leb, ltb, if◌then◌else◌, length, ℤ, pos, negsuc, Outcome, ok, raise, running, cv_exception,
  ◌>>=◌,
}
use xtrack.Text.{Text, find_first_of, substr}
use xtrack.Parameters.{Parameters, int_param, string_param}
use xtrack.Parameters.Names.{
  param_track_rect_size, default_track_rect_size, param_track_names, default_track_names,
}
use xtrack.Fiducials.Tracked.{Size}

pub record CameraDisplay : Type 0 where
  pub track_rect_size : ℤ
  pub screen_size : Size
  pub track_names : List Text

-- The loop over the commas; the fuel bounds its rounds.
unfoldable pub split_names : ℕ → Text → ℕ → Option ℕ → List Text → Outcome (List Text)
split_names zero s last_pos comma names = running
split_names (suc fuel) s last_pos none names =
    if ltb last_pos (length s)
    then (do name ← substr s last_pos (length s - last_pos); ok (names ++ name ∷ []))
    else ok names
split_names (suc fuel) s last_pos (some comma) names = do
  name ← substr s last_pos (comma - last_pos)
  split_names fuel s (comma + 1) (find_first_of b',' s (comma + 1)) (names ++ name ∷ [])

-- The names of the tracked objects: there are at most as many commas as bytes.
unfoldable pub track_names_of : Text → Outcome (List Text)
unfolding split_names
track_names_of s = split_names (length s + 1) s 0 (find_first_of b',' s 0) []

unfoldable pub new_display : Parameters → Size → Outcome CameraDisplay
unfolding int_param string_param
new_display ps screen_size = do
  size ← int_param ps param_track_rect_size default_track_rect_size
  names ← track_names_of (string_param ps param_track_names default_track_names)
  ok (record { track_rect_size = size; screen_size = screen_size; track_names = names })
