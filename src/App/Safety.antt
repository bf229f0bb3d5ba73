-- ===== src/App/Safety.antt =====
-- No pointer of the recorder is misused, whatever keys are pressed and whatever the camera shows.
use mathlib.Core.Path.{subst}
use xtrack.Prelude.{
  sym, ◌≡◌, refl, Bool, true, false, Option, none, some, if◌then◌else◌, ℤ, Ensures, returns,
  Ensures-bind, Ensures-if,
}
use xtrack.Floating.{Floating}
use xtrack.OpenCv.{OpenCv}
use xtrack.Fiducials.Libfidtrack.{FidTrack}
use xtrack.Record.Recorder.{
  RecordMode, normal, recording, playback, CameraRecorder, FramePointer, stop_recording,
}
use xtrack.Record.Playback.{
  IsLive, IsPresent, start_recording-Ensures, start_playback-Ensures, stop_playback-Ensures,
}
use xtrack.Display.{CameraDisplay}
use xtrack.App.{AppState}
use xtrack.App.Keys.{press_record, stop_current, press_stop, begin_playback, press_play, press_key}

-- The pointer is to a live image exactly in the mode PLAYBACK, where a display is there too; the progress
-- is initialized in the modes RECORDING and PLAYBACK.
abbrev pub Fits :
    {M D : Type 0} → RecordMode → Option CameraDisplay → FramePointer M → Option D → Type 0
Fits normal display pointer progress = ¬ IsLive pointer
Fits recording display pointer progress = (¬ IsLive pointer) × IsPresent progress
Fits playback display pointer progress = IsLive pointer × IsPresent progress × IsPresent display

started-Fits :
    {M D : Type 0} (started : Bool) (display : Option CameraDisplay) (p p' : FramePointer M)
    (o' : Option D)
    → ¬ IsLive p
    → (started ≡ true → IsPresent o')
    → p' ≡ p
    → Fits (if started then recording else normal) display p' o'
started-Fits true display p p' o' h present same =
    (subst (λ q. ¬ IsLive q) (sym same) h, present refl)
started-Fits false display p p' o' h present same = subst (λ q. ¬ IsLive q) (sym same) h

played-Fits :
    {M D : Type 0} (started : Bool) (mode : RecordMode) (display : CameraDisplay)
    (p p' : FramePointer M) (o o' : Option D)
    → Fits mode (some display) p o
    → (started ≡ true → IsLive p' × IsPresent o')
    → (started ≡ false → (p' ≡ p) × (o' ≡ o))
    → Fits (if started then playback else mode) (some display) p' o'
played-Fits true mode display p p' o o' h live' same = ((live' refl).0, (live' refl).1, tt)
played-Fits false mode display p p' o o' h live' same = rw ((same refl).0, (same refl).1) h

module _ {D : Type 0} ⦃d : Floating D⦄ {cv : OpenCv D} where
  abbrev pub FitsMode : RecordMode → Option CameraDisplay → CameraRecorder cv → Type 0
  FitsMode mode display r = Fits mode display r.last_played_frame r.frame_progress

  pub stop_current-Ensures :
      (mode : RecordMode) (display : Option CameraDisplay) (r : CameraRecorder cv)
      → FitsMode mode display r
      → Ensures (λ r'. ¬ IsLive r'.last_played_frame) (stop_current mode r)
  unfolding stop_current stop_recording
  stop_current-Ensures normal display r h = returns r h
  stop_current-Ensures recording display r h = returns _ h.0
  stop_current-Ensures playback display r h = stop_playback-Ensures cv r h.0

module _ {F D : Type 0} ⦃d : Floating D⦄ {lib : FidTrack F} {cv : OpenCv D} where
  abbrev pub IsSafe : AppState F D lib cv → Type 0
  IsSafe s = FitsMode s.record_mode s.display s.recorder

  press_record-Ensures :
      (mode : RecordMode) (s : AppState F D lib cv)
      → s.record_mode ≡ mode
      → IsSafe s
      → Ensures IsSafe (press_record mode s)
  unfolding press_record
  press_record-Ensures normal s e h =
      Ensures-bind (start_recording-Ensures cv s.world s.recorder) (λ res p. returns _ (
        started-Fits res.0 s.display s.recorder.last_played_frame _ _
          (subst (λ m. FitsMode m s.display s.recorder) e h) p.0 p.1))
  press_record-Ensures recording s e h = returns s h
  press_record-Ensures playback s e h = returns s h

  press_stop-Ensures : (s : AppState F D lib cv) → IsSafe s → Ensures IsSafe (press_stop s)
  unfolding press_stop
  press_stop-Ensures s h =
      Ensures-bind (stop_current-Ensures s.record_mode s.display s.recorder h) (λ r p. returns _ p)

  begin_playback-Ensures :
      (display : Option CameraDisplay) (s : AppState F D lib cv)
      → s.display ≡ display
      → IsSafe s
      → Ensures IsSafe (begin_playback display s)
  unfolding begin_playback
  begin_playback-Ensures none s e h = returns s h
  begin_playback-Ensures (some display) s e h =
      Ensures-bind (start_playback-Ensures cv s.world s.recorder) (λ res p. returns _ (
        rw e (
          played-Fits res.0 s.record_mode display s.recorder.last_played_frame _
            s.recorder.frame_progress _ (subst (λ o. FitsMode s.record_mode o s.recorder) e h) p.0
            p.1)))

  press_play-Ensures :
      (mode : RecordMode) (s : AppState F D lib cv)
      → s.record_mode ≡ mode
      → IsSafe s
      → Ensures IsSafe (press_play mode s)
  unfolding press_play stop_recording
  press_play-Ensures playback s e h = returns s h
  press_play-Ensures normal s e h = begin_playback-Ensures s.display s refl h
  press_play-Ensures recording s e h = begin_playback-Ensures s.display _ refl h

  -- Whatever key is pressed, a safe state stays safe or an exception other than an undefined use ends the
  -- program: no image is deleted twice, and none is used after it is deleted.
  pub press_key-Ensures :
      (key : ℤ) (s : AppState F D lib cv) → IsSafe s → Ensures IsSafe (press_key key s)
  unfolding press_key
  press_key-Ensures key s h = Ensures-if _ (returns _ h) (
      Ensures-if _ (press_record-Ensures s.record_mode s refl h) (
        Ensures-if _ (press_stop-Ensures s h)
          (Ensures-if _ (press_play-Ensures s.record_mode s refl h) (returns s h))))
