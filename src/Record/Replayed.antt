-- ===== src/Record/Replayed.antt =====
-- A recording and its playback, round for round.
use mathlib.Core.List.{foldl}
use native.Mathlib.Nat.{mod-eq_of_lt}
use xtrack.Prelude.{
  ℕ, suc, ◌+◌, ◌<◌, ◌≤◌, ◌^◌, ◌%◌, ◌≡◌, ◌∙◌, refl, sym, ap, true, some, List, All, map, length, pos,
  next_int-pos, ok, ◌>>=◌, Yields, yields, Yields-then,
}
use xtrack.Text.{Text}
use xtrack.Floating.{Floating}
use xtrack.OpenCv.{OpenCv}
use xtrack.Record.{get_last_file_num, get_file_name}
use xtrack.Record.Recorder.{CameraRecorder, live, start_recording, stop_recording}
use xtrack.Record.Player.{start_playback}
use xtrack.Record.Chosen.{chosen}
use xtrack.Record.Pace.{IsExact, record_frames, record_frames_exact}
use xtrack.Record.Timing.{Holds, InTime, playback_frames, playback_frames-InTime}

module _ {D : Type 0} ⦃d : Floating D⦄ (cv : OpenCv D) where
  -- The name of the new file.
  abbrev pub new_name : CameraRecorder cv → ℕ → Text
  new_name r n = get_file_name r.video_dir (pos (n + 1))

  abbrev pub opened : cv.World → CameraRecorder cv → ℕ → cv.Writer
  opened world r n =
      (cv.writer_open world (new_name r n) r.codec r.record_frame_rate r.record_size).0

  abbrev started : cv.World → CameraRecorder cv → ℕ → CameraRecorder cv
  started world r n = record r {
    video_writer = opened world r n;
    last_played_file_num = pos (n + 1);
    frame_progress = some (d.literal 0 1);
  }

module _ {D : Type 0} ⦃d : Floating D⦄ (cv : OpenCv D) (p q : ℕ)
    (small back : cv.Mat → cv.Mat) where
  abbrev player : cv.World → cv.World → CameraRecorder cv → List cv.Mat → ℕ → CameraRecorder cv
  player world later r ms n = record r {
    video_writer =
        cv.writer_release (foldl cv.write (opened cv world r n) (map small (chosen p q 0 ms)));
    video_reader = cv.reader_open later (new_name cv r n);
    last_played_file_num = pos (n + 1);
    frame_progress = some (d.literal 0 1);
    last_played_frame = live (cv.new_mat r.orig_size);
  }

  -- What is written into the file, and what is shown of it.
  abbrev pub IsReplayed :
      cv.World → CameraRecorder cv → List cv.Mat → ℕ → cv.Writer × List cv.Mat → Type 0
  IsReplayed world r ms n (written, images) =
      (written ≡ foldl cv.write (opened cv world r n) (map small (chosen p q 0 ms)))
      × InTime cv p q small back 0 (cv.new_mat r.orig_size) ms images

module _ {D : Type 0} ⦃d : Floating D⦄ (cv : OpenCv D) (p q : ℕ) (part : ℕ → D)
    (exact : IsExact q part) (slow : p ≤ q) (small back : cv.Mat → cv.Mat) where
  start : some (d.literal 0 1) ≡ some (part (0 % q))
  start = ap some exact.start ∙ ap (λ x. some (part x)) (sym (mod-eq_of_lt exact.positive))

  -- A recording and the playback behind it, with one rate of p/q of the camera's and numbers that are exact: if
  -- the last number that is found is `n`, below the largest int, the file with the number n + 1 opens for
  -- writing and later for reading, and the later file gives the frames that are written into it, none of them
  -- empty, then all this runs without an exception. What is written are the frames at which the total of p for
  -- each frame gets over a multiple of q, resized and in order. The playback, for as many rounds, shows in
  -- each round the last of the frames that had been written when the recording was in that round, resized
  -- again, and a new image as long as there was none.
  pub recording_in_time :
      (world later : cv.World) (fuel : ℕ) (r : CameraRecorder cv) (ms : List cv.Mat) (n : ℕ)
      → get_last_file_num (cv.search_files world) r.video_dir ≡ ok (pos n)
      → n + 1 < 2 ^ 31
      → cv.writer_is_opened (opened cv world r n) ≡ true
      → cv.reader_is_opened (cv.reader_open later (new_name cv r n)) ≡ true
      → Holds cv (cv.reader_open later (new_name cv r n)) (map small (chosen p q 0 ms))
      → r.frame_rate_ratio ≡ part p
      → All (λ m. cv.resize m r.record_size ≡ ok (small m)) ms
      → All (λ m. cv.resize (small m) r.orig_size ≡ ok (back (small m))) ms
      → Yields (IsReplayed cv p q small back world r ms n) (do
        (success, started, behind) ← start_recording cv world r
        last ← record_frames cv started ms
        (again, player) ← start_playback cv later (stop_recording cv last)
        (images, done) ← playback_frames cv later (suc fuel) player (length ms)
        ok (last.video_writer, images))
  unfolding start_recording start_playback stop_recording
  recording_in_time world later fuel r ms n last fits writes reads held ratio resizes backs =
      rw (last, next_int-pos n fits, writes)
        (rw
          ((record_frames_exact cv p q part exact slow small (started cv world r n) ms resizes ratio
            refl).0)
          (rw reads (
            Yields-then
              (playback_frames-InTime cv p q part exact slow small back later fuel ms
                (player cv p q small back world later r ms n) 0 (cv.new_mat r.orig_size) held backs
                ratio start refl)
              (λ res h. yields (refl, h)))))
