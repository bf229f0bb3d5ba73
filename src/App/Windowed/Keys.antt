-- ===== src/App/Windowed/Keys.antt =====
-- With the window, a key press gives a state from which the rounds go on.
use mathlib.Core.Path.{subst}
use xtrack.Prelude.{
  ℕ, suc, sym, arith, ◌≡◌, ◌∙◌, refl, Option, none, some, ℤ, InInt, next_int, ok, Gives, given,
  raised, Gives-then, Gives-bind, Gives-if, Gives-result, Gives-map, Gives-and, Yields, Yields-both,
  true, if◌then◌else◌,
}
use xtrack.Text.{Text}
use xtrack.Floating.{Floating}
use xtrack.OpenCv.{OpenCv}
use xtrack.Fiducials.Libfidtrack.{FidTrack}
use xtrack.Record.{is_negative, get_last_file_num, get_next_file_num, get_file_name}
use xtrack.Record.Recorder.{
  RecordMode, normal, recording, playback, CameraRecorder, FramePointer, unset, null, live, freed,
  deleted, start_recording, stop_recording,
}
use xtrack.Record.Player.{start_playback, stop_playback}
use xtrack.Record.Ranges.{start_recording-Gives, start_playback-Gives}
use xtrack.Display.{CameraDisplay}
use xtrack.App.{AppState}
use xtrack.App.Keys.{press_record, stop_current, press_stop, begin_playback, press_play, press_key}
use xtrack.App.Safety.{press_key-Ensures}
use xtrack.App.Total.{press_key-Returns}
use xtrack.App.Windowed.{
  SizeLaws, HasVideos, PointerFits, ReadyRecorder, WriterLaws, Stock, Stocks, IsStocked, IsReady,
}
use xtrack.App.Windowed.Disk.{started_room}
use xtrack.App.Windowed.Images.{HasSize-IsShowable}
use xtrack.App.Windowed.Recorder.{live-PointerFits}

module _ {D : Type 0} ⦃d : Floating D⦄ (cv : OpenCv D) (laws : SizeLaws cv) (dir : Text)
    (disk : WriterLaws cv dir) (window : CameraDisplay) where
  -- The sizes and the directory stay, and what is played back fits the window.
  abbrev Renews : CameraRecorder cv → CameraRecorder cv → Type 0
  Renews r r' =
      (r'.record_size ≡ r.record_size)
      × (r'.orig_size ≡ r.orig_size)
      × (r'.video_dir ≡ r.video_dir)
      × PointerFits cv window r'.last_played_frame

  Renews-Ready :
      (r r' : CameraRecorder cv)
      → ReadyRecorder cv window r
      → Renews r r'
      → InInt r'.last_played_file_num
      → ReadyRecorder cv window r'
  Renews-Ready r r' h p number = record {
    small = (h.small.0, h.small.1, p.0 ∙ h.small.2, h.small.3, h.small.4);
    orig = (h.orig.0, h.orig.1, p.1 ∙ h.orig.2, h.orig.3, h.orig.4, h.orig.5, h.orig.6);
    pointer = p.3;
    number = number;
  }

  Renews-Stocks :
      (count : ℕ) (world' : cv.World) (r r' : CameraRecorder cv)
      → ReadyRecorder cv window r
      → r.video_dir ≡ dir
      → Stock cv count dir world'
      → Renews r r'
      → InInt r'.last_played_file_num
      → Stocks cv count dir window world' r'
  Renews-Stocks count world' r r' h e stock p number =
      (Renews-Ready r r' h p number, p.2 ∙ e, stock)

  started-Stock :
      (count : ℕ) (world : cv.World) (r : CameraRecorder cv) (last : ℤ)
      → get_last_file_num (cv.search_files world) r.video_dir ≡ ok last
      → r.video_dir ≡ dir
      → Stock cv (suc count) dir world
      → Stock cv count dir
          (cv.writer_open world
            (get_file_name r.video_dir (next_int last))
            r.codec
            r.record_frame_rate
            r.record_size).1
  started-Stock count world r last found e stock =
      let (videos, room) = subst (λ x. Stock cv (suc count) x world) (sym e) stock in
      subst
        (λ x.
          Stock cv count x
            (cv.writer_open world (get_file_name r.video_dir (next_int last)) r.codec
              r.record_frame_rate r.record_size).1)
        e
        (started_room cv r.video_dir (subst (WriterLaws cv) (sym e) disk) world r.codec
          r.record_frame_rate r.record_size count last found videos room)

  start_recording-Stocks :
      (count : ℕ) (world : cv.World) (r : CameraRecorder cv)
      → Stocks cv (suc count) dir window world r
      → Gives (λ res. Stocks cv count dir window res.2 res.1) (start_recording cv world r)
  unfolding start_recording
  start_recording-Stocks count world r (h, same, stock) =
      Gives-map
        (Gives-and
          (Gives-then (Gives-result (get_last_file_num (cv.search_files world) r.video_dir))
            (λ last e.
              let stock' = started-Stock count world r last e same stock in
              Gives-if {P = λ res. Renews r res.1 × Stock cv count dir res.2}
                (cv.writer_is_opened
                  (cv.writer_open world (get_file_name r.video_dir (next_int last)) r.codec
                    r.record_frame_rate r.record_size).0)
                (λ _. given ((refl, refl, refl, h.pointer), stock'))
                (given ((refl, refl, refl, h.pointer), stock'))))
          (start_recording-Gives cv world r h.number))
        (λ res p. Renews-Stocks count res.2 r res.1 h same p.0.1 p.0.0 p.1)

  start_playback-Stocks :
      (count : ℕ) (world : cv.World) (r : CameraRecorder cv)
      → Stocks cv count dir window world r
      → Gives (λ res. Stocks cv count dir window world res.1) (start_playback cv world r)
  unfolding start_playback
  start_playback-Stocks count world r (h, same, stock) =
      let (w, h', size, a, b, c, c') = h.orig in
      let fresh =
        HasSize-IsShowable cv laws window w h' (cv.new_mat r.orig_size)
          (rw size (laws.new_mat_size w h')) a b c c' in
      Gives-map
        (Gives-and
          (Gives-bind
            (if is_negative r.last_played_file_num
              then get_next_file_num (cv.search_files world) r.video_dir r.last_played_file_num
              else ok r.last_played_file_num)
            (λ number.
              Gives-if {P = λ res. Renews r res.1}
                (cv.reader_is_opened (cv.reader_open world (get_file_name r.video_dir number)))
                (λ _. given (refl, refl, refl, live-PointerFits cv laws window _ fresh))
                (given (refl, refl, refl, h.pointer))))
          (start_playback-Gives cv world r h.number))
        (λ res p. Renews-Stocks count world r res.1 h same stock p.0 p.1)

  deleted-Gives :
      (p : FramePointer cv.Mat)
      → PointerFits cv window p
      → Gives (PointerFits cv window) (deleted p)
  deleted-Gives unset h = raised
  deleted-Gives null h = given h
  deleted-Gives (live m) h = given (λ n e. cc)
  deleted-Gives freed h = raised

  stop_current-Stocks :
      (count : ℕ) (mode : RecordMode) (world : cv.World) (r : CameraRecorder cv)
      → Stocks cv count dir window world r
      → Gives (Stocks cv count dir window world) (stop_current mode r)
  unfolding stop_current stop_recording stop_playback
  stop_current-Stocks count normal world r h = given h
  stop_current-Stocks count recording world r (h, same, stock) =
      given (Renews-Ready r _ h (refl, refl, refl, h.pointer) h.number, same, stock)
  stop_current-Stocks count playback world r (h, same, stock) =
      Gives-then (deleted-Gives r.last_played_frame h.pointer)
        (λ p fits. given (Renews-Ready r _ h (refl, refl, refl, fits) h.number, same, stock))

module _ {F D : Type 0} ⦃d : Floating D⦄ {lib : FidTrack F} {cv : OpenCv D} (laws : SizeLaws cv)
    (dir : Text) (disk : WriterLaws cv dir) (window : CameraDisplay) where
  -- Room for one more is room.
  weakened :
      (count : ℕ) (s : AppState F D lib cv)
      → IsStocked (suc count) dir window s
      → IsStocked count dir window s
  weakened count s (shown, (ready, same, (videos, (bound, small, below)))) =
      (shown, (ready, same, (videos, (bound, omega arith, below))))

  press_record-Stocked :
      (count : ℕ) (mode : RecordMode) (s : AppState F D lib cv)
      → IsStocked (suc count) dir window s
      → Gives (IsStocked count dir window) (press_record mode s)
  unfolding press_record
  press_record-Stocked count normal s (shown, stocks) =
      Gives-then (start_recording-Stocks cv laws dir disk window count s.world s.recorder stocks)
        (λ res p. given (shown, p))
  press_record-Stocked count recording s h = given (weakened count s h)
  press_record-Stocked count playback s h = given (weakened count s h)

  begin_playback-Stocked :
      (count : ℕ) (display : Option CameraDisplay) (s : AppState F D lib cv)
      → IsStocked count dir window s
      → Gives (IsStocked count dir window) (begin_playback display s)
  unfolding begin_playback
  begin_playback-Stocked count none s h = given h
  begin_playback-Stocked count (some display) s (shown, stocks) =
      Gives-then (start_playback-Stocks cv laws dir disk window count s.world s.recorder stocks)
        (λ res p. given (shown, p))

  press_stop-Stocked :
      (count : ℕ) (s : AppState F D lib cv)
      → IsStocked count dir window s
      → Gives (IsStocked count dir window) (press_stop s)
  unfolding press_stop
  press_stop-Stocked count s (shown, stocks) =
      Gives-then
        (stop_current-Stocks cv laws dir disk window count s.record_mode s.world s.recorder stocks)
        (λ r p. given (shown, p))

  press_play-Stocked :
      (count : ℕ) (mode : RecordMode) (s : AppState F D lib cv)
      → IsStocked count dir window s
      → Gives (IsStocked count dir window) (press_play mode s)
  unfolding press_play stop_recording
  press_play-Stocked count normal s h = begin_playback-Stocked count s.display s h
  press_play-Stocked count recording s (shown, (ready, same, stock)) =
      begin_playback-Stocked count s.display _ (
        shown,
        (
          record {
            small = ready.small;
            orig = ready.orig;
            pointer = ready.pointer;
            number = ready.number;
          },
          same,
          stock,
        ),
      )
  press_play-Stocked count playback s h = given h

  press_key-Stocked :
      (count : ℕ) (key : ℤ) (s : AppState F D lib cv)
      → IsStocked (suc count) dir window s
      → Gives (IsStocked count dir window) (press_key key s)
  unfolding press_key
  press_key-Stocked count key s h =
      let less = weakened count s h in
      Gives-if _ (λ _. given {a = record s { term_requested = true }} less)
        (Gives-if _ (λ _. press_record-Stocked count s.record_mode s h)
          (Gives-if _ (λ _. press_stop-Stocked count s less)
            (Gives-if _ (λ _. press_play-Stocked count s.record_mode s less) (given {a = s} less))))

  pub press_key-Ready :
      (count : ℕ) (key : ℤ) (s : AppState F D lib cv)
      → IsReady (suc count) dir window s
      → Yields (IsReady count dir window) (press_key key s)
  press_key-Ready count key s (safe, stocked) =
      let listed = subst (λ x. HasVideos cv x s.world) (sym stocked.1.1) stocked.1.2.0 in
      Yields-both (press_key-Returns key s safe listed.0) (press_key-Ensures key s safe)
        (press_key-Stocked count key s stocked)
