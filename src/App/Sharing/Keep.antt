-- ===== src/App/Sharing/Keep.antt =====
-- The keys, the recording and the playback do the same whatever image is displayed, and keep it.
use xtrack.Prelude.{
  ℕ, ◌≡◌, ◌≢◌, refl, Bool, ◌||◌, Option, none, some, List, [], ◌∷◌, ℤ, ok, raise, undefined, ◌>>=◌,
  Matches, both, both_raise, Matches-after, Matches-if,
}
use xtrack.Floating.{Floating}
use xtrack.OpenCv.{OpenCv}
use xtrack.Fiducials.Libfidtrack.{FidTrack}
use xtrack.Tuio.Wosclib.{Wosc}
use xtrack.Record.Recorder.{
  RecordMode, normal, recording, playback, CameraRecorder, record_frame, start_recording,
  stop_recording,
}
use xtrack.Record.Player.{playback_frame, start_playback}
use xtrack.Display.{CameraDisplay}
use xtrack.Display.Drawing.{display_tracked_image}
use xtrack.App.{AppState, Output, input}
use xtrack.App.Keys.{
  press_record, stop_current, press_stop, begin_playback, press_play, key_is, press_key,
}
use xtrack.App.Loop.{run_recorder}
use xtrack.App.Sharing.{record_shared}

module _ {F D : Type 0} ⦃d : Floating D⦄ {lib : FidTrack F} {cv : OpenCv D} (m : cv.Mat) where
  -- The states are the same but for the displayed image, which is `m` in the second.
  abbrev pub Kept : Option CameraDisplay → AppState F D lib cv → AppState F D lib cv → Type 0
  Kept display a b = (b ≡ record a { display_mat = m }) × (a.display ≡ display)

  press_record-Kept :
      (mode : RecordMode) (s : AppState F D lib cv)
      → Matches
          (Kept s.display)
          (press_record mode s)
          (press_record mode (record s { display_mat = m }))
  unfolding press_record
  press_record-Kept normal s =
      Matches-after (start_recording cv s.world s.recorder) (λ res _. both (refl, refl))
  press_record-Kept recording s = both (refl, refl)
  press_record-Kept playback s = both (refl, refl)

  press_stop-Kept :
      (s : AppState F D lib cv)
      → Matches (Kept s.display) (press_stop s) (press_stop (record s { display_mat = m }))
  unfolding press_stop
  press_stop-Kept s =
      Matches-after (stop_current s.record_mode s.recorder) (λ r _. both (refl, refl))

  begin_playback-Kept :
      (display : Option CameraDisplay) (s : AppState F D lib cv)
      → Matches
          (Kept s.display)
          (begin_playback display s)
          (begin_playback display (record s { display_mat = m }))
  unfolding begin_playback
  begin_playback-Kept none s = both (refl, refl)
  begin_playback-Kept (some shown) s =
      Matches-after (start_playback cv s.world s.recorder) (λ res _. both (refl, refl))

  press_play-Kept :
      (mode : RecordMode) (s : AppState F D lib cv)
      → Matches
          (Kept s.display)
          (press_play mode s)
          (press_play mode (record s { display_mat = m }))
  unfolding press_play
  press_play-Kept normal s = begin_playback-Kept s.display s
  press_play-Kept recording s =
      begin_playback-Kept s.display (record s { recorder = stop_recording cv s.recorder })
  press_play-Kept playback s = both (refl, refl)

  pub press_key-Kept :
      (key : ℤ) (s : AppState F D lib cv)
      → Matches (Kept s.display) (press_key key s) (press_key key (record s { display_mat = m }))
  unfolding press_key
  press_key-Kept key s = Matches-if (key_is key 27 || key_is key b'q') (both (refl, refl)) (
      Matches-if (key_is key b'r') (press_record-Kept s.record_mode s) (
        Matches-if (key_is key b's') (press_stop-Kept s)
          (Matches-if (key_is key b'p') (press_play-Kept s.record_mode s) (both (refl, refl)))))

module _ {F D : Type 0} ⦃f : Floating F⦄ ⦃d : Floating D⦄ (lib : FidTrack F) (osc : Wosc F)
    (cv : OpenCv D) (narrow : D → F) (data_of : cv.Mat → lib.Image)
    (reuses : cv.Mat → cv.Mat → Bool) where
  abbrev pub KeptResult :
      cv.Mat
      → Option CameraDisplay
      → AppState F D lib cv × List (Output cv)
      → AppState F D lib cv × List (Output cv)
      → Type 0
  KeptResult m display a b = Kept m display a.0 b.0 × (a.1 ≡ b.1)

  played-Kept :
      (m : cv.Mat) (s : AppState F D lib cv) (frame : cv.Mat) (r : CameraRecorder cv)
      (display : Option CameraDisplay)
      → Matches
          (KeptResult m s.display)
          (elim display [
            | none ↦ raise undefined
            | some shown_in ↦
                (display_tracked_image cv shown_in frame >>= λ shown.
                ok (record s { recorder = r }, input shown ∷ []))
          ])
          (elim display [
            | none ↦ raise undefined
            | some shown_in ↦
                (display_tracked_image cv shown_in frame >>= λ shown.
                ok (record s { recorder = r; display_mat = m }, input shown ∷ []))
          ])
  played-Kept m s frame r none = both_raise
  played-Kept m s frame r (some shown_in) =
      Matches-after (display_tracked_image cv shown_in frame) (λ shown _. both ((refl, refl), refl))

  -- `shown` is what the header of the displayed image reads, where it is read.
  pub record_shared-Kept :
      (fuel : ℕ) (mode : RecordMode) (shown m : cv.Mat) (s : AppState F D lib cv)
      → (mode ≢ playback → shown ≡ m)
      → Matches
          (KeptResult m s.display)
          (record_shared lib osc cv narrow data_of reuses fuel mode shown s)
          (run_recorder lib osc cv narrow data_of fuel mode (record s { display_mat = m }))
  unfolding record_shared run_recorder
  record_shared-Kept fuel normal shown m s e = both ((refl, refl), refl)
  record_shared-Kept fuel recording shown m s e =
      rw (e (λ x. cc))
        (Matches-after (record_frame cv s.recorder m) (λ r _. both ((refl, refl), refl)))
  record_shared-Kept fuel playback shown m s e =
      Matches-after (playback_frame cv s.world fuel s.recorder)
        (λ res _. played-Kept m s res.0 res.1 s.display)
