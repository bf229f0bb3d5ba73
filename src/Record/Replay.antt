-- ===== src/Record/Replay.antt =====
-- A recording and the playback behind it.
use xtrack.Prelude.{
  ℕ, ◌+◌, ◌<◌, ◌^◌, ◌≡◌, ◌∙◌, refl, true, some, List, [], ◌∷◌, All, pos, next_int-pos, ok, ◌>>=◌,
  Returns, Returns-Yields, Yields, yields, Yields-if, Yields-then, Yields-map,
}
use xtrack.Floating.{Floating, ◌⊕◌}
use xtrack.OpenCv.{OpenCv}
use xtrack.Record.{get_last_file_num, get_file_name}
use xtrack.Record.Recorder.{CameraRecorder, start_recording, record_frame, stop_recording}
use xtrack.Record.Player.{start_playback}
use xtrack.Record.Pace.{record_frames}

module _ {D : Type 0} ⦃d : Floating D⦄ (cv : OpenCv D) where
  -- What recording a frame leaves alone, but for the progress, which stays initialized.
  Keeps : CameraRecorder cv → CameraRecorder cv → Type 0
  Keeps r r' =
      (r'.video_dir ≡ r.video_dir)
      × (r'.last_played_file_num ≡ r.last_played_file_num)
      × (r'.record_size ≡ r.record_size)
      × ((p : D) × (r'.frame_progress ≡ some p))

  record_frame-Keeps :
      (r : CameraRecorder cv) (m : cv.Mat) (p : D)
      → r.frame_progress ≡ some p
      → Returns (cv.resize m r.record_size)
      → Yields (Keeps r) (record_frame cv r m)
  unfolding record_frame Keeps
  record_frame-Keeps r m p e resizes = rw e (
      Yields-if (d.le (d.literal 1 1) (p ⊕ r.frame_rate_ratio))
        (Yields-then (Returns-Yields resizes) (λ small _. yields (refl, refl, refl, (_, refl))))
        (λ _. yields (refl, refl, refl, (_, refl))))

  record_frames-Keeps :
      (r : CameraRecorder cv) (ms : List cv.Mat) (p : D)
      → r.frame_progress ≡ some p
      → All (λ m. Returns (cv.resize m r.record_size)) ms
      → Yields (Keeps r) (record_frames cv r ms)
  unfolding record_frames Keeps
  record_frames-Keeps r [] p e resize = yields (refl, refl, refl, (p, e))
  record_frames-Keeps r (m ∷ ms) p e (resize, resizes) =
      Yields-then (record_frame-Keeps r m p e resize) (λ r' k.
        Yields-map (record_frames-Keeps r' ms k.3.0 k.3.1 (rw k.2 resizes))
          (λ r'' l. (l.0 ∙ k.0, l.1 ∙ k.1, l.2 ∙ k.2, l.3)))

  -- A recording, after any frames that can be resized, is what is played back next: if the last number that
  -- is found is `n`, below the largest int, and the file with the number n + 1 opens for writing and later for
  -- reading, the recording starts, records and stops without an exception, and the playback that is started
  -- then succeeds with the reader of this very file, and with its number as the last one.
  recording_is_played :
      (world later : cv.World) (r : CameraRecorder cv) (ms : List cv.Mat) (n : ℕ)
      → get_last_file_num (cv.search_files world) r.video_dir ≡ ok (pos n)
      → n + 1 < 2 ^ 31
      → cv.writer_is_opened
          (cv.writer_open world
            (get_file_name r.video_dir (pos (n + 1)))
            r.codec
            r.record_frame_rate
            r.record_size).0
        ≡ true
      → cv.reader_is_opened (cv.reader_open later (get_file_name r.video_dir (pos (n + 1)))) ≡ true
      → All (λ m. Returns (cv.resize m r.record_size)) ms
      → Yields
          (λ res.
            (res.0 ≡ true)
            × (res.1.video_reader ≡ cv.reader_open later (get_file_name r.video_dir (pos (n + 1))))
            × (res.1.last_played_file_num ≡ pos (n + 1)))
          (do
            (success, recorder, behind) ← start_recording cv world r
            last ← record_frames cv recorder ms
            start_playback cv later (stop_recording cv last))
  unfolding start_recording start_playback stop_recording Keeps
  recording_is_played world later r ms n last fits writes reads resizes =
      rw (last, next_int-pos n fits, writes)
        (Yields-then (record_frames-Keeps _ ms (d.literal 0 1) refl resizes)
          (λ r' k. rw (k.1, k.0, reads) (yields (refl, refl, refl))))
