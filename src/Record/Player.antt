-- ===== src/Record/Player.antt =====
-- xtrack/record.cpp, `class CameraRecorder`: playing back the video files. The console output is left out.
use xtrack.Prelude.{
  ℕ, zero, suc, Bool, true, false, ◌||◌, some, ◌==◌, if◌then◌else◌, ℤ, Outcome, ok, running, ◌>>=◌,
}
use xtrack.Text.{Text}
use xtrack.Floating.{Floating, ◌⊕◌, ◌⊖◌}
use xtrack.OpenCv.{OpenCv}
use xtrack.Record.{is_negative, get_next_file_num, get_file_name}
use xtrack.Record.Recorder.{CameraRecorder, initialized, deleted, pointed, live}

module _ {D : Type 0} ⦃d : Floating D⦄ (cv : OpenCv D) where
  open cv use {
    World, Mat, Reader, search_files, new_mat, cols, rows, resize, reader_open, reader_is_opened,
    read, reader_release,
  }

  unfoldable pub start_playback : World → CameraRecorder cv → Outcome (Bool × CameraRecorder cv)
  unfolding get_next_file_num get_file_name
  start_playback world r = do
    number ←
        (if is_negative r.last_played_file_num
          then get_next_file_num (search_files world) r.video_dir r.last_played_file_num
          else ok r.last_played_file_num)
    let reader = reader_open world (get_file_name r.video_dir number)
    if reader_is_opened reader
        then ok (
          true,
          record r {
            video_reader = reader;
            last_played_file_num = number;
            frame_progress = some (d.literal 0 1);
            last_played_frame = live (new_mat r.orig_size);
          },
        )
        else ok (false, record r { video_reader = reader })

  -- What the loop of `playbackFrame` leaves: the frame that is read, the reader, and the file's number.
  pub record Found : Type 0 where
    pub frame : Mat
    pub reader : Reader
    pub number : ℤ

  abbrev pub is_empty : Mat → Bool
  is_empty frame = rows frame == 0 || cols frame == 0

  -- While the frame is empty, the next file is opened and read.
  unfoldable pub next_frame : World → Text → ℕ → Found → Outcome Found
  unfolding get_next_file_num get_file_name
  next_frame world dir zero found = running
  next_frame world dir (suc fuel) found =
      if is_empty found.frame
      then (do
        number ← get_next_file_num (search_files world) dir found.number
        let (frame, reader) = read (reader_open world (get_file_name dir number))
        next_frame world dir fuel (record { frame = frame; reader = reader; number = number }))
      else ok found

  -- The frame to be shown, and the object.
  unfoldable pub playback_frame : World → ℕ → CameraRecorder cv → Outcome (Mat × CameraRecorder cv)
  playback_frame world fuel r = do
    before ← initialized r.frame_progress
    let progress = before ⊕ r.frame_rate_ratio
    if d.le (d.literal 1 1) progress
        then (do
          dangling ← deleted r.last_played_frame
          let (frame, reader) = read r.video_reader
          found ←
              next_frame world r.video_dir fuel
                (record { frame = frame; reader = reader; number = r.last_played_file_num })
          output ← resize found.frame r.orig_size
          ok (
            output,
            record r {
              video_reader = found.reader;
              last_played_file_num = found.number;
              frame_progress = some (progress ⊖ d.literal 1 1);
              last_played_frame = live output;
            },
          ))
        else (do
          shown ← pointed r.last_played_frame
          ok (shown, record r { frame_progress = some progress }))

  unfoldable pub stop_playback : CameraRecorder cv → Outcome (CameraRecorder cv)
  stop_playback r = do
    pointer ← deleted r.last_played_frame
    ok (record r { video_reader = reader_release r.video_reader; last_played_frame = pointer })
