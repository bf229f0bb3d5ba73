-- ===== src/App/Silent.antt =====
-- What a round leaves alone behind the sending: showing, recording, playing back, and the keys.
use xtrack.Prelude.{
  ◌≡◌, refl, ℕ, Bool, true, ◌||◌, Option, none, some, List, [], ◌∷◌, if◌then◌else◌, ℤ, ok, raise,
  undefined, ◌>>=◌, Gives, given, raised, Gives-bind, Gives-if, Gives-test,
}
use xtrack.Floating.{Floating}
use xtrack.OpenCv.{OpenCv}
use xtrack.Fiducials.Libfidtrack.{FidTrack}
use xtrack.Tuio.Wosclib.{Wosc}
use xtrack.Record.Recorder.{
  RecordMode, normal, recording, playback, CameraRecorder, record_frame, start_recording,
}
use xtrack.Record.Player.{playback_frame, start_playback}
use xtrack.Display.{CameraDisplay}
use xtrack.Display.Drawing.{draw_tracking_info, display_tracked_image}
use xtrack.App.{AppState, Output, input}
use xtrack.App.Keys.{
  press_record, stop_current, press_stop, begin_playback, press_play, key_is, press_key,
}
use xtrack.App.Loop.{show_input, run_recorder}
use xtrack.App.Outputs.{datagrams_of}

-- The keys that ask for the end of the run: Escape and q.
abbrev pub quits : ℤ → Bool
quits key = key_is key 27 || key_is key b'q'

module _ {F D : Type 0} ⦃f : Floating F⦄ ⦃d : Floating D⦄ (lib : FidTrack F) (osc : Wosc F)
    (cv : OpenCv D) (narrow : D → F) (data_of : cv.Mat → lib.Image) where
  -- The table, the server and the request to end are left alone, and nothing is sent.
  abbrev pub IsSilent : AppState F D lib cv → AppState F D lib cv × List (Output cv) → Type 0
  IsSilent s res =
      (res.0.finder ≡ s.finder)
      × (res.0.server ≡ s.server)
      × (res.0.term_requested ≡ s.term_requested)
      × (datagrams_of res.1 ≡ [])

  pub show_input-Gives :
      (display : Option CameraDisplay) (mode : RecordMode) (flipped : cv.Mat)
      (s : AppState F D lib cv)
      → Gives (IsSilent s) (show_input lib osc cv narrow data_of display mode flipped s)
  unfolding show_input
  show_input-Gives none mode flipped s = given (refl, refl, refl, refl)
  show_input-Gives (some display) playback flipped s = given (refl, refl, refl, refl)
  show_input-Gives (some display) _ flipped s =
      Gives-bind (draw_tracking_info cv display flipped s.finder.tracked_fiducials) (λ drawn.
        Gives-bind (display_tracked_image cv display drawn)
          (λ shown. given (refl, refl, refl, refl)))

  played-Gives :
      (s : AppState F D lib cv) (frame : cv.Mat) (r : CameraRecorder cv)
      (display : Option CameraDisplay)
      → Gives (IsSilent s) (elim display [
        | none ↦ raise undefined
        | some shown_in ↦
            (display_tracked_image cv shown_in frame >>= λ shown.
            ok (record s { recorder = r }, input shown ∷ []))
      ])
  played-Gives s frame r none = raised
  played-Gives s frame r (some shown_in) =
      Gives-bind (display_tracked_image cv shown_in frame) (λ shown. given (refl, refl, refl, refl))

  pub run_recorder-Gives :
      (fuel : ℕ) (mode : RecordMode) (s : AppState F D lib cv)
      → Gives (IsSilent s) (run_recorder lib osc cv narrow data_of fuel mode s)
  unfolding run_recorder
  run_recorder-Gives fuel normal s = given (refl, refl, refl, refl)
  run_recorder-Gives fuel recording s =
      Gives-bind (record_frame cv s.recorder s.display_mat) (λ r. given (refl, refl, refl, refl))
  run_recorder-Gives fuel playback s =
      Gives-bind (playback_frame cv s.world fuel s.recorder)
        (λ res. played-Gives s res.0 res.1 s.display)

  abbrev pub Leaves : Bool → AppState F D lib cv → AppState F D lib cv → Type 0
  Leaves asked s s' = (s'.finder ≡ s.finder) × (s'.server ≡ s.server) × (s'.term_requested ≡ asked)

  begin_playback-Gives :
      (display : Option CameraDisplay) (s : AppState F D lib cv)
      → Gives (Leaves s.term_requested s) (begin_playback display s)
  unfolding begin_playback
  begin_playback-Gives none s = given (refl, refl, refl)
  begin_playback-Gives (some display) s =
      Gives-bind (start_playback cv s.world s.recorder) (λ res. given (refl, refl, refl))

  press_play-Gives :
      (mode : RecordMode) (s : AppState F D lib cv)
      → Gives (Leaves s.term_requested s) (press_play mode s)
  unfolding press_play
  press_play-Gives normal s = begin_playback-Gives s.display s
  press_play-Gives recording s = begin_playback-Gives s.display _
  press_play-Gives playback s = given (refl, refl, refl)

  press_record-Gives :
      (mode : RecordMode) (s : AppState F D lib cv)
      → Gives (Leaves s.term_requested s) (press_record mode s)
  unfolding press_record
  press_record-Gives normal s =
      Gives-bind (start_recording cv s.world s.recorder) (λ res. given (refl, refl, refl))
  press_record-Gives recording s = given (refl, refl, refl)
  press_record-Gives playback s = given (refl, refl, refl)

  press_other-Gives :
      (key : ℤ) (s : AppState F D lib cv)
      → Gives (Leaves s.term_requested s) (
          if key_is key b'r'
          then press_record s.record_mode s
          else if key_is key b's'
          then press_stop s
          else if key_is key b'p'
          then press_play s.record_mode s
          else ok s)
  unfolding press_stop
  press_other-Gives key s =
      Gives-if _ (λ _. press_record-Gives s.record_mode s)
        (Gives-if _
          (λ _.
            Gives-bind (stop_current s.record_mode s.recorder)
              (λ r. given {a = record s { recorder = r; record_mode = normal }} (refl, refl, refl)))
          (Gives-if _ (λ _. press_play-Gives s.record_mode s) (given {a = s} (refl, refl, refl))))

  pub press_key-Gives :
      (key : ℤ) (s : AppState F D lib cv)
      → Gives (Leaves (quits key || s.term_requested) s) (press_key key s)
  unfolding press_key
  press_key-Gives key s =
      Gives-test (quits key)
        (λ e. given {a = record s { term_requested = true }} (refl, refl, rw e refl))
        (λ e. rw e (press_other-Gives key s))
