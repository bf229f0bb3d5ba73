-- ===== src/Mac/Recorder.antt =====
-- xtrack-mac/record.h and record.cpp: the recorder, whose search for files is not there.
use xtrack.Prelude.{
  ◌≡◌, refl, ℕ, Bool, true, Option, some, [], ℤ, pos, negsuc, Outcome, ok, running, ◌>>=◌,
}
use xtrack.Text.{Text}
use xtrack.Parameters.{Parameters}
use xtrack.Floating.{Floating}
use xtrack.OpenCv.{OpenCv, CvSize}
use xtrack.Record
use xtrack.Record.{FileData, next_among, last_among}
use xtrack.Record.Recorder
use xtrack.Record.Player
use xtrack.Record.Recorder.{CameraRecorder, null}
use xtrack.Record.Player.{Found, is_empty}
use xtrack.App.Modes.{next_frame_diverges}

-- The code of the search is commented out.
abbrev pub get_next_file_num : ℤ → Outcome ℤ
get_next_file_num current = ok (negsuc 0)

abbrev pub get_last_file_num : Outcome ℤ
get_last_file_num = ok (pos 0)

abbrev pub get_file_name : Text → ℤ → Text
get_file_name = Record.get_file_name

-- OpenCV and a search that finds no file: with it the two functions of the directory xtrack come to the
-- constants.
abbrev pub port : {D : Type 0} → OpenCv D → OpenCv D
port cv = record cv { search_files = λ world pattern. [] }

get_next_file_num-port :
    {D : Type 0} (cv : OpenCv D) (world : cv.World) (dir : Text) (current : ℤ)
    → Record.get_next_file_num ((port cv).search_files world) dir current
      ≡ get_next_file_num current
unfolding Record.get_next_file_num next_among
get_next_file_num-port cv world dir current = refl

module _ {D : Type 0} ⦃d : Floating D⦄ (cv : OpenCv D) where
  abbrev pub PortRecorder : Type 0
  PortRecorder = CameraRecorder (port cv)

  -- The constructor also sets the progress and the pointer.
  unfoldable pub new_recorder :
      (Text → Option D)
      → (ℕ → ℕ → ℕ → ℕ → ℤ)
      → cv.Writer
      → cv.Reader
      → Parameters
      → CvSize
      → Outcome PortRecorder
  new_recorder extract_double fourcc writer reader ps fsize = do
    recorder ← Recorder.new_recorder (port cv) extract_double fourcc writer reader ps fsize
    ok (record recorder { frame_progress = some (d.literal 0 1); last_played_frame = null })

  abbrev pub start_recording : cv.World → PortRecorder → Outcome (Bool × PortRecorder × cv.World)
  start_recording = Recorder.start_recording (port cv)

  abbrev pub record_frame : PortRecorder → cv.Mat → Outcome PortRecorder
  record_frame = Recorder.record_frame (port cv)

  abbrev pub stop_recording : PortRecorder → PortRecorder
  stop_recording = Recorder.stop_recording (port cv)

  abbrev pub start_playback : cv.World → PortRecorder → Outcome (Bool × PortRecorder)
  start_playback = Player.start_playback (port cv)

  abbrev pub playback_frame : cv.World → ℕ → PortRecorder → Outcome (cv.Mat × PortRecorder)
  playback_frame = Player.playback_frame (port cv)

  abbrev pub stop_playback : PortRecorder → Outcome PortRecorder
  stop_playback = Player.stop_playback (port cv)

  -- Where the file of the number -1 gives no frame, the search for a frame never ends once a video file is
  -- at its end: no number of rounds is enough.
  playback_ends_never :
      (world : cv.World) (dir : Text) (fuel : ℕ) (found : Found (port cv))
      → (cv.read (cv.reader_open world (get_file_name dir (negsuc 0)))).0 ≡ cv.empty_mat
      → is_empty (port cv) cv.empty_mat ≡ true
      → is_empty (port cv) found.frame ≡ true
      → Player.next_frame (port cv) world dir fuel found ≡ running
  playback_ends_never world dir fuel found unread e e' =
      next_frame_diverges (port cv) world dir fuel found (λ pattern. refl) unread e e'
