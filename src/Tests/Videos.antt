-- ===== src/Tests/Videos.antt =====
-- Tests of recording and playing back.
use mathlib.Core.List.{foldl}
use xtrack.Prelude.{
  arith, ◌≡◌, refl, ℕ, ◌+◌, ◌*◌, ◌/◌, ◌%◌, ◌^◌, true, some, List, [], ◌∷◌, length, map, pos, ok,
  ◌>>=◌, Yields, inl,
}
use xtrack.Text.{codes}
use xtrack.Fiducials.Tracked.{Size}
use xtrack.Record.{get_last_file_num, last_among, file_number}
use xtrack.Record.Recorder.{CameraRecorder, start_recording, stop_recording}
use xtrack.Record.Player.{Found, next_frame, start_playback}
use xtrack.Record.Ends.{opened, IsFirstReadable, next_frame_ends}
use xtrack.Record.Chosen.{chosen}
use xtrack.Record.Pace.{IsExact, record_frames, record_frames_exact}
use xtrack.Record.Timing.{no_more, next, playback_frames}
use xtrack.Record.Replayed.{IsReplayed, recording_in_time}
use xtrack.Tests.Stubs.{Number, numbers, image, cv}
use xtrack.Tests.Files.{files, listed, signs, number_7}
use xtrack.Tests.Program.{recorder}

abbrev at_end : Found cv
at_end = record { frame = image 0 0; reader = true; number = pos 5 }

next_frame_ends_example :
    (n : ℕ) × (next_frame cv files (codes "C:\\") (2 ^ 33 + 1) at_end
      ≡ ok (opened cv files (codes "C:\\") (pos n)))
    × IsFirstReadable cv files (codes "C:\\") (pos 5) n
next_frame_ends_example =
    next_frame_ends cv files (codes "C:\\") listed signs 7 (inl (refl, number_7), refl) (2 ^ 33 + 1)
      at_end (omega arith, omega arith) refl (omega arith)

abbrev whole_part : ℕ → Number
whole_part n = some (pos n)

-- Where every frame is recorded, the progress is a whole number.
whole_IsExact : IsExact 1 whole_part
whole_IsExact = record {
  positive = omega arith;
  start = refl;
  sum = λ a b ha hb. ground arith;
  difference = λ a ha hb. ground arith;
  comparison = λ a ha. ground arith;
}

abbrev shots : List Size
shots = image 640 480 ∷ image 320 240 ∷ []

abbrev small : Size → Size
small m = image 640 480

record_frames_exact_example :
    (record_frames cv recorder shots
      ≡ ok (record recorder {
        video_writer = foldl cv.write recorder.video_writer (map small (chosen 1 1 0 shots));
        frame_progress = some (whole_part (length shots * 1 % 1));
      }))
    × (length (chosen 1 1 0 shots) ≡ length shots * 1 / 1)
record_frames_exact_example =
    record_frames_exact cv 1 1 whole_part whole_IsExact (omega arith) small recorder shots
      (refl, (refl, tt)) refl refl

last_is_7 : get_last_file_num (cv.search_files files) recorder.video_dir ≡ ok (pos 7)
unfolding get_last_file_num last_among file_number
last_is_7 = refl

abbrev small_recorder : CameraRecorder cv
small_recorder = record recorder { record_size = record { width = pos 2; height = pos 2 } }

abbrev shrunk : Size → Size
shrunk m = image 2 2

recording_in_time_example : Yields (IsReplayed cv 1 1 shrunk small files small_recorder shots 7) (do
  (success, started, behind) ← start_recording cv files small_recorder
  last ← record_frames cv started shots
  (again, player) ← start_playback cv files (stop_recording cv last)
  (images, done) ← playback_frames cv files 1 player (length shots)
  ok (last.video_writer, images))
recording_in_time_example =
    recording_in_time cv 1 1 whole_part whole_IsExact (omega arith) shrunk small files files 0
      small_recorder shots 7 last_is_7 (omega arith) refl refl
      (next refl refl (next refl refl no_more)) refl (refl, (refl, tt)) (refl, (refl, tt))
