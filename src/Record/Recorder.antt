-- ===== src/Record/Recorder.antt =====
-- xtrack/record.cpp and record.h, `class CameraRecorder`: recording to a video file and playing back the
-- files. The console output is left out.
use xtrack.Prelude.{
  ℕ, ◌-◌, Bool, true, false, ◌||◌, Option, none, some, [], ◌∷◌, ◌++◌, ◌==◌, if◌then◌else◌, length,
  ℤ, pos, negsuc, next_int, leb_ℤ, Outcome, ok, raise, thrown, undefined, ◌>>=◌,
}
use xtrack.Text.{Text, codes, at}
use xtrack.Parameters.{Parameters, int_param, string_param, double_param}
use xtrack.Parameters.Names.{
  param_frame_time, default_frame_time, param_record_dir, default_record_dir,
  param_record_fps_scale, default_record_fps_scale_tenths, param_record_scale,
  default_record_scale_tenths, param_codec, default_codec,
}
use xtrack.Floating.{Floating, ◌⊕◌, ◌⊖◌, ◌⊗◌, ◌⊘◌}
use xtrack.OpenCv.{OpenCv, CvSize}
use xtrack.Record.{get_last_file_num, get_file_name}

pub data RecordMode : Type 0 where
  normal recording playback : RecordMode

-- The pointer `lastPlayedFrame`: not initialized, NULL, to an image, or to one that is deleted.
pub data FramePointer (M : Type 0) : Type 0 where
  unset : FramePointer M
  null : FramePointer M
  live : M → FramePointer M
  freed : FramePointer M

-- `frame_progress` is `none` until it is initialized.
pub record CameraRecorder {D : Type 0} (cv : OpenCv D) : Type 0 where
  pub video_writer : cv.Writer
  pub video_reader : cv.Reader
  pub video_dir : Text
  pub record_frame_rate : D
  pub frame_rate_ratio : D
  pub frame_progress : Option D
  pub codec : ℤ
  pub orig_size : CvSize
  pub record_size : CvSize
  pub last_played_file_num : ℤ
  pub last_played_frame : FramePointer cv.Mat

abbrev pub initialized {ℓ} : {A : Type ℓ} → Option A → Outcome A
initialized none = raise undefined
initialized (some a) = ok a

-- `delete` wants a pointer to a live object or NULL.
abbrev pub deleted : {M : Type 0} → FramePointer M → Outcome (FramePointer M)
deleted unset = raise undefined
deleted null = ok null
deleted (live m) = ok freed
deleted freed = raise undefined

abbrev pub pointed : {M : Type 0} → FramePointer M → Outcome M
pointed unset = raise undefined
pointed null = raise undefined
pointed (live m) = ok m
pointed freed = raise undefined

-- CV_FOURCC of the four bytes of a codec, -1 for another length
unfoldable pub codec_of : (ℕ → ℕ → ℕ → ℕ → ℤ) → Text → ℤ
codec_of fourcc (a ∷ b ∷ c ∷ e ∷ []) = fourcc a b c e
codec_of fourcc _ = negsuc 0

-- The directory with a backslash at its end.
unfoldable pub dir_of : Text → Outcome Text
unfolding at
dir_of dir = do
  last ← at dir (length dir - 1)
  ok (if last == b'\\' then dir else dir ++ codes "\\")

module _ {D : Type 0} ⦃d : Floating D⦄ (cv : OpenCv D) where
  open cv use {
    World, Mat, Writer, Reader, search_files, new_mat, cols, rows, resize, writer_open,
    writer_is_opened, write, writer_release, reader_open, reader_is_opened, read, reader_release,
  }

  -- The frame time, which must be positive.
  unfoldable pub frame_time_of : Parameters → Outcome ℤ
  unfolding int_param
  frame_time_of ps = do
    frame_time ← int_param ps param_frame_time default_frame_time
    if leb_ℤ frame_time (pos 0) then raise (thrown 1) else ok frame_time

  -- The rate of the recorded video, which is above 0 and at most that of the camera.
  unfoldable pub rate_of : (Text → Option D) → Parameters → D → Outcome D
  unfolding double_param
  rate_of extract_double ps orig_rate = do
    scale ←
        double_param extract_double ps param_record_fps_scale
          (d.literal default_record_fps_scale_tenths 10)
    let rate = orig_rate ⊗ scale
    if d.le rate (d.literal 0 1) || d.lt orig_rate rate then raise (thrown 1) else ok rate

  -- The constructor. The video files start closed, with the writer and the reader that are given.
  unfoldable pub new_recorder :
      (Text → Option D)
      → (ℕ → ℕ → ℕ → ℕ → ℤ)
      → Writer
      → Reader
      → Parameters
      → CvSize
      → Outcome (CameraRecorder cv)
  unfolding frame_time_of rate_of dir_of string_param codec_of double_param
  new_recorder extract_double fourcc writer reader ps fsize = do
    frame_time ← frame_time_of ps
    dir ← dir_of (string_param ps param_record_dir default_record_dir)
    let orig_rate = d.literal 1000 1 ⊘ d.of_int frame_time
    rate ← rate_of extract_double ps orig_rate
    scale ←
        double_param extract_double ps param_record_scale (d.literal default_record_scale_tenths 10)
    ok (record {
      video_writer = writer;
      video_reader = reader;
      video_dir = dir;
      record_frame_rate = rate;
      frame_rate_ratio = rate ⊘ orig_rate;
      frame_progress = none;
      codec = codec_of fourcc (string_param ps param_codec default_codec);
      orig_size = fsize;
      record_size = record {
        width = d.to_int (scale ⊗ d.of_int fsize.width);
        height = d.to_int (scale ⊗ d.of_int fsize.height);
      };
      last_played_file_num = negsuc 0;
      last_played_frame = unset;
    })

  unfoldable pub start_recording :
      World → CameraRecorder cv → Outcome (Bool × CameraRecorder cv × World)
  unfolding get_last_file_num get_file_name next_int
  start_recording world r = do
    last ← get_last_file_num (search_files world) r.video_dir
    let number = next_int last
    let (writer, world') =
        writer_open world (get_file_name r.video_dir number) r.codec r.record_frame_rate
          r.record_size
    if writer_is_opened writer
        then ok (
          true,
          record r {
            video_writer = writer;
            last_played_file_num = number;
            frame_progress = some (d.literal 0 1);
          },
          world',
        )
        else ok (false, record r { video_writer = writer }, world')

  unfoldable pub record_frame : CameraRecorder cv → Mat → Outcome (CameraRecorder cv)
  record_frame r input = do
    before ← initialized r.frame_progress
    let progress = before ⊕ r.frame_rate_ratio
    if d.le (d.literal 1 1) progress
        then (do
          resized ← resize input r.record_size
          ok (record r {
            video_writer = write r.video_writer resized;
            frame_progress = some (progress ⊖ d.literal 1 1);
          }))
        else ok (record r { frame_progress = some progress })

  unfoldable pub stop_recording : CameraRecorder cv → CameraRecorder cv
  stop_recording r = record r { video_writer = writer_release r.video_writer }
