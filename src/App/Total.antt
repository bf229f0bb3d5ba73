-- ===== src/App/Total.antt =====
-- A key press neither throws nor hangs.
use xtrack.Prelude.{
  true, false, Option, none, some, List, [], ◌∷◌, if◌then◌else◌, ℤ, ok, ◌>>=◌, Returns, result,
  Returns-bind, Returns-if,
}
use xtrack.Text.{extract_int}
use xtrack.Floating.{Floating}
use xtrack.OpenCv.{OpenCv}
use xtrack.Fiducials.Libfidtrack.{FidTrack}
use xtrack.Record.{
  FileData, file_number, pattern_of, later, closer, last_among, next_among, is_negative,
  get_last_file_num, get_next_file_num,
}
use xtrack.Record.Names.{file_number-IsListed}
use xtrack.Record.Last.{AllListed}
use xtrack.Record.Recorder.{
  RecordMode, normal, recording, playback, CameraRecorder, FramePointer, unset, null, live, freed,
  deleted, start_recording, stop_recording,
}
use xtrack.Record.Player.{start_playback, stop_playback}
use xtrack.Record.Playback.{IsLive}
use xtrack.Display.{CameraDisplay}
use xtrack.App.{AppState}
use xtrack.App.Keys.{press_record, stop_current, press_stop, begin_playback, press_play, press_key}
use xtrack.App.Safety.{FitsMode, IsSafe}

last_among-Returns :
    (last : ℤ) (files : List FileData) → AllListed files → Returns (last_among last files)
unfolding last_among
last_among-Returns last [] h = result last
last_among-Returns last (file ∷ files) (l, ls) =
    elim file.is_directory
      as (λ b. Returns (
        if b
        then last_among last files
        else file_number file.file_name >>= λ n. last_among (later last n) files)) [
          | true ↦ last_among-Returns last files ls
          | false ↦
              rw (file_number-IsListed file.file_name l)
                (last_among-Returns (later last (extract_int l.middle)) files ls)
        ]

next_among-Returns :
    (current next : ℤ) (files : List FileData)
    → AllListed files
    → Returns (next_among current next files)
unfolding next_among
next_among-Returns current next [] h = result next
next_among-Returns current next (file ∷ files) (l, ls) =
    elim file.is_directory
      as (λ b. Returns (
        if b
        then next_among current next files
        else file_number file.file_name >>= λ n.
            next_among current (closer current next n) files)) [
              | true ↦ next_among-Returns current next files ls
              | false ↦
                  rw (file_number-IsListed file.file_name l) (
                    next_among-Returns current (closer current next (extract_int l.middle)) files
                      ls)
            ]

pub deleted-Returns : {M : Type 0} (p : FramePointer M) → IsLive p → Returns (deleted p)
deleted-Returns unset h = absurd h
deleted-Returns null h = absurd h
deleted-Returns (live m) h = result freed
deleted-Returns freed h = absurd h

module _ {D : Type 0} ⦃d : Floating D⦄ (cv : OpenCv D) (world : cv.World)
    (r : CameraRecorder cv) where
  abbrev pub FindsListed : Type 0
  FindsListed = AllListed (cv.search_files world (pattern_of r.video_dir))

  start_recording-Returns : FindsListed → Returns (start_recording cv world r)
  unfolding start_recording get_last_file_num
  start_recording-Returns h =
      Returns-bind (last_among-Returns _ _ h) (λ n. Returns-if _ (result _) (result _))

  number-Returns :
      (n : ℤ)
      → FindsListed
      → Returns
          (if is_negative n then get_next_file_num (cv.search_files world) r.video_dir n else ok n)
  unfolding get_next_file_num
  number-Returns n h = Returns-if _ (next_among-Returns _ _ _ h) (result n)

  start_playback-Returns : FindsListed → Returns (start_playback cv world r)
  unfolding start_playback
  start_playback-Returns h =
      Returns-bind (number-Returns r.last_played_file_num h)
        (λ n. Returns-if _ (result _) (result _))

module _ {D : Type 0} ⦃d : Floating D⦄ {cv : OpenCv D} where
  pub stop_current-Returns :
      (mode : RecordMode) (display : Option CameraDisplay) (r : CameraRecorder cv)
      → FitsMode mode display r
      → Returns (stop_current mode r)
  unfolding stop_current stop_playback
  stop_current-Returns normal display r h = result r
  stop_current-Returns recording display r h = result _
  stop_current-Returns playback display r h =
      Returns-bind (deleted-Returns r.last_played_frame h.0) (λ p. result _)

module _ {F D : Type 0} ⦃d : Floating D⦄ {lib : FidTrack F} {cv : OpenCv D} where
  begin_playback-Returns :
      (display : Option CameraDisplay) (s : AppState F D lib cv)
      → FindsListed cv s.world s.recorder
      → Returns (begin_playback display s)
  unfolding begin_playback
  begin_playback-Returns none s h = result s
  begin_playback-Returns (some display) s h =
      Returns-bind (start_playback-Returns cv s.world s.recorder h) (λ res. result _)

  press_play-Returns :
      (mode : RecordMode) (s : AppState F D lib cv)
      → FindsListed cv s.world s.recorder
      → Returns (press_play mode s)
  unfolding press_play stop_recording
  press_play-Returns normal s h = begin_playback-Returns s.display s h
  press_play-Returns recording s h = begin_playback-Returns s.display _ h
  press_play-Returns playback s h = result s

  press_record-Returns :
      (mode : RecordMode) (s : AppState F D lib cv)
      → FindsListed cv s.world s.recorder
      → Returns (press_record mode s)
  unfolding press_record
  press_record-Returns normal s h =
      Returns-bind (start_recording-Returns cv s.world s.recorder h) (λ res. result _)
  press_record-Returns recording s h = result s
  press_record-Returns playback s h = result s

  -- In a state that is safe, with a directory search that gives only names that its pattern fits, no key
  -- throws an exception and none is handled without end.
  pub press_key-Returns :
      (key : ℤ) (s : AppState F D lib cv)
      → IsSafe s
      → FindsListed cv s.world s.recorder
      → Returns (press_key key s)
  unfolding press_key press_stop
  press_key-Returns key s safe h = Returns-if _ (result _) (
      Returns-if _ (press_record-Returns s.record_mode s h) (
        Returns-if _
          (Returns-bind (stop_current-Returns s.record_mode s.display s.recorder safe)
            (λ r. result _))
          (Returns-if _ (press_play-Returns s.record_mode s h) (result s))))
