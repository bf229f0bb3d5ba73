-- ===== src/App/Keys.antt =====
-- xtrack/xtrack.cpp, the end of a round: the waiting time, the keys, and what is stopped behind the loop.
use xtrack.Prelude.{
  ℕ, Bool, true, false, ◌||◌, Option, none, some, ◌==◌, if◌then◌else◌, ℤ, pos, negsuc, ◌-ℤ◌, leb_ℤ,
  Outcome, ok, ◌>>=◌,
}
use xtrack.Floating.{Floating, ◌⊕◌, ◌⊖◌}
use xtrack.OpenCv.{OpenCv}
use xtrack.Fiducials.Libfidtrack.{FidTrack}
use xtrack.Record.Recorder.{
  RecordMode, normal, recording, playback, CameraRecorder, start_recording, stop_recording,
}
use xtrack.Record.Player.{start_playback, stop_playback}
use xtrack.Display.{CameraDisplay}
use xtrack.App.{AppState}

module _ {D : Type 0} ⦃d : Floating D⦄ where
  -- The time to wait for a key, in milliseconds; 0 or less would be to wait for ever.
  unfoldable pub wait_time : ℤ → D → D → ℤ
  wait_time frame_time start_clock end_clock =
      let time = frame_time -ℤ d.to_int (end_clock ⊖ start_clock ⊕ d.literal 5 10) in
      if leb_ℤ time (pos 0) then pos 1 else time

module _ {D : Type 0} ⦃d : Floating D⦄ {cv : OpenCv D} where
  -- Whatever is recorded or played back is stopped.
  unfoldable pub stop_current : RecordMode → CameraRecorder cv → Outcome (CameraRecorder cv)
  unfolding stop_recording
  stop_current normal r = ok r
  stop_current recording r = ok (stop_recording cv r)
  stop_current playback r = stop_playback cv r

abbrev pub key_is : ℤ → ℕ → Bool
key_is (pos k) n = k == n
key_is (negsuc k) n = false

module _ {F D : Type 0} ⦃d : Floating D⦄ {lib : FidTrack F} {cv : OpenCv D} where
  -- The record button: only in the normal mode.
  unfoldable pub press_record : RecordMode → AppState F D lib cv → Outcome (AppState F D lib cv)
  press_record normal s = do
    (started, recorder, world) ← start_recording cv s.world s.recorder
    ok (record s {
      recorder = recorder;
      world = world;
      record_mode = if started then recording else normal;
    })
  press_record recording s = ok s
  press_record playback s = ok s

  unfoldable pub press_stop : AppState F D lib cv → Outcome (AppState F D lib cv)
  press_stop s = do
    recorder ← stop_current s.record_mode s.recorder
    ok (record s { recorder = recorder; record_mode = normal })

  -- The playback, in the modes NORMAL and RECORDING: where it does not start the mode stays.
  unfoldable pub begin_playback :
      Option CameraDisplay → AppState F D lib cv → Outcome (AppState F D lib cv)
  begin_playback none s = ok s
  begin_playback (some _) s = do
    (started, recorder) ← start_playback cv s.world s.recorder
    ok (record s { recorder = recorder; record_mode = if started then playback else s.record_mode })

  unfoldable pub press_play : RecordMode → AppState F D lib cv → Outcome (AppState F D lib cv)
  unfolding stop_recording
  press_play playback s = ok s
  press_play normal s = begin_playback s.display s
  press_play recording s =
      begin_playback s.display (record s { recorder = stop_recording cv s.recorder })

  -- The switch on the key; 27 is Escape.
  unfoldable pub press_key : ℤ → AppState F D lib cv → Outcome (AppState F D lib cv)
  press_key key s =
      if key_is key 27 || key_is key b'q'
      then ok (record s { term_requested = true })
      else if key_is key b'r'
      then press_record s.record_mode s
      else if key_is key b's'
      then press_stop s
      else if key_is key b'p'
      then press_play s.record_mode s
      else ok s
