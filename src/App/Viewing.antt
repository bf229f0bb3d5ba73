-- ===== src/App/Viewing.antt =====
-- What a run shows while it plays back: the images of the recorder.
use mathlib.Core.Path.{subst}
use xtrack.Prelude.{
  ℕ, ◌∙◌, sym, Gives-test, Gives-and, ◌≡◌, refl, true, false, ◌||◌, Option, none, some, List, [],
  ◌∷◌, ◌++◌, All, map, length, ℤ, ok, raise, undefined, ◌>>=◌, Gives, given, endless, Gives-bind,
  Gives-then, Gives-if, Gives-result,
}
use xtrack.Floating.{Floating}
use xtrack.OpenCv.{OpenCv}
use xtrack.Fiducials.Libfidtrack.{FidTrack}
use xtrack.Tuio.Wosclib.{Wosc}
use xtrack.Record.Recorder.{RecordMode, playback, CameraRecorder}
use xtrack.Record.Player.{playback_frame}
use xtrack.Record.Timing.{playback_frames}
use xtrack.Display.{CameraDisplay}
use xtrack.Display.Drawing.{display_tracked_image}
use xtrack.App.{Config, AppState, Tick, Output, input}
use xtrack.App.Keys.{key_is, press_record, press_play, press_key}
use xtrack.App.Loop.{cut_frame, show_input, run_recorder, process_frame, process_loop}
use xtrack.App.Sending.{asked, process_frame-Gives}
use xtrack.App.Shown.{
  inputs_of, inputs_of-append, one_played, no_frame_in, rounds_of, rounds_none, rounds_last,
  rounds_more,
}

module _ {F D : Type 0} ⦃f : Floating F⦄ ⦃d : Floating D⦄ (lib : FidTrack F) (osc : Wosc F)
    (cv : OpenCv D) (narrow : D → F) (data_of : cv.Mat → lib.Image) (window : CameraDisplay) where
  -- The mode PLAYBACK, with a window.
  abbrev pub Plays : AppState F D lib cv → Type 0
  Plays s = (s.display ≡ some window) × (s.record_mode ≡ playback)

  show_input_lem :
      (display : Option CameraDisplay) (mode : RecordMode) (flipped : cv.Mat)
      (s : AppState F D lib cv)
      → display ≡ some window
      → mode ≡ playback
      → show_input lib osc cv narrow data_of display mode flipped s ≡ ok (s, [])
  unfolding show_input
  show_input_lem display mode flipped s e e' = rw (e, e') refl

  -- An image of the recorder and what the window shows of it.
  abbrev Viewed : ℕ → AppState F D lib cv → AppState F D lib cv × List (Output cv) → Type 0
  Viewed fuel s res =
      (m : cv.Mat) × (image : cv.Mat) × (r : CameraRecorder cv) × (display_tracked_image cv window m
        ≡ ok image)
      × (playback_frame cv s.world fuel s.recorder ≡ ok (m, r))
      × (res ≡ (record s { recorder = r }, input image ∷ []))

  played-Viewed :
      (fuel : ℕ) (display : Option CameraDisplay) (s : AppState F D lib cv) (m : cv.Mat)
      (r : CameraRecorder cv)
      → display ≡ some window
      → playback_frame cv s.world fuel s.recorder ≡ ok (m, r)
      → Gives (Viewed fuel s) (elim display [
        | none ↦ raise undefined
        | some shown_in ↦
            (display_tracked_image cv shown_in m >>= λ shown.
            ok (record s { recorder = r }, input shown ∷ []))
      ])
  played-Viewed fuel display s m r e read = rw e (
      Gives-then (Gives-result (display_tracked_image cv window m))
        (λ image placed. given (m, image, r, placed, read, refl)))

  run_recorder-Viewed :
      (fuel : ℕ) (mode : RecordMode) (s : AppState F D lib cv)
      → mode ≡ playback
      → s.display ≡ some window
      → Gives (Viewed fuel s) (run_recorder lib osc cv narrow data_of fuel mode s)
  unfolding run_recorder
  run_recorder-Viewed fuel mode s e shown = rw e (
      Gives-then (Gives-result (playback_frame cv s.world fuel s.recorder))
        (λ (m, r) read. played-Viewed fuel s.display s m r shown read))

  -- Of the keys, only s ends a playback.
  abbrev SameView : AppState F D lib cv → AppState F D lib cv → Type 0
  SameView s s' = Plays s' × (s'.recorder ≡ s.recorder) × (s'.world ≡ s.world)

  press_record-Plays :
      (mode : RecordMode) (s : AppState F D lib cv)
      → mode ≡ playback
      → Plays s
      → Gives (SameView s) (press_record mode s)
  unfolding press_record
  press_record-Plays mode s e h = rw e (given (h, refl, refl))

  press_play-Plays :
      (mode : RecordMode) (s : AppState F D lib cv)
      → mode ≡ playback
      → Plays s
      → Gives (SameView s) (press_play mode s)
  unfolding press_play
  press_play-Plays mode s e h = rw e (given (h, refl, refl))

  press_key-Plays :
      (key : ℤ) (s : AppState F D lib cv)
      → key_is key b's' ≡ false
      → Plays s
      → Gives (SameView s) (press_key key s)
  unfolding press_key
  press_key-Plays key s no_s h = rw no_s (
      Gives-if (key_is key 27 || key_is key b'q')
        (λ _. given {a = record s { term_requested = true }} (h, refl, refl))
        (Gives-if (key_is key b'r') (λ _. press_record-Plays s.record_mode s h.1 h)
          (Gives-if (key_is key b'p') (λ _. press_play-Plays s.record_mode s h.1 h)
            (given {a = s} (h, refl, refl)))))

  -- A round shows one image of the recorder.
  abbrev ViewedOne : ℕ → AppState F D lib cv → AppState F D lib cv × List (Output cv) → Type 0
  ViewedOne fuel s res =
      Plays res.0
      × (res.0.world ≡ s.world)
      × ((m : cv.Mat) × (image : cv.Mat) × (display_tracked_image cv window m ≡ ok image)
          × (inputs_of res.1 ≡ image ∷ [])
          × (playback_frame cv s.world fuel s.recorder ≡ ok (m, res.0.recorder)))

  process_frame-Plays :
      (fuel : ℕ) (config : Config) (tick : Tick cv) (s : AppState F D lib cv)
      → key_is tick.key b's' ≡ false
      → Plays s
      → Gives (ViewedOne fuel s) (process_frame lib osc cv narrow data_of fuel config tick s)
  unfolding process_frame
  process_frame-Plays fuel config tick s no_s h =
      Gives-bind (cut_frame cv config.make_quadratic tick.frame) (λ quadratic.
        rw (show_input_lem s.display s.record_mode _ _ h.0 h.1) (
          Gives-then (run_recorder-Viewed fuel s.record_mode _ h.1 h.0)
            (λ b (m, image, r, placed, read, e). rw e (
              Gives-then (press_key-Plays tick.key _ no_s h) (λ last (plays, same, same_world).
                given (
                  plays,
                  same_world,
                  (
                    m,
                    image,
                    placed,
                    one_played cv config.show_contrast_window config.print_data _ image _ _,
                    rw same read,
                  ),
                ))))))

  -- What the recorder gives and what is shown, in pairs, one for each round.
  abbrev pub IsViewed :
      ℕ → ℕ → AppState F D lib cv → AppState F D lib cv × List (Output cv) → Type 0
  IsViewed rounds fuel s res =
      Plays res.0
      × ((shots : List (cv.Mat × cv.Mat)) × (length shots ≡ rounds)
          × All (λ shot. display_tracked_image cv window shot.0 ≡ ok shot.1) shots
          × (inputs_of res.1 ≡ map (λ shot. shot.1) shots)
          × (playback_frames cv s.world fuel s.recorder rounds
              ≡ ok (map (λ shot. shot.0) shots, res.0.recorder)))

  -- From a state in the mode PLAYBACK with the window for the input image, in which no end is asked for, and as
  -- long as s is not pressed: if a run gives a result, the images that one call of `playbackFrame` for each of
  -- its rounds gives are, placed in the window and in their order, exactly what it showed; there is one
  -- for each round, and the mode and the window stay.
  pub process_loop_shows :
      (fuel : ℕ) (config : Config) (ticks : List (Tick cv)) (s : AppState F D lib cv)
      → All (λ tick. key_is tick.key b's' ≡ false) ticks
      → Plays s
      → s.term_requested ≡ false
      → Gives
          (IsViewed (rounds_of cv ticks) fuel s)
          (process_loop lib osc cv narrow data_of fuel config ticks s)
  unfolding process_loop playback_frames
  process_loop_shows fuel config [] s no_s h runs = endless
  process_loop_shows fuel config (tick ∷ ticks) s (no_s, more) h runs =
      Gives-test (no_frame_in cv tick)
        (λ e.
          given {a = (s, [])} (
            h,
            ([], rounds_none cv tick ticks e, tt, refl, rw⁻¹ (rounds_none cv tick ticks e) refl),
          ))
        (λ full.
          Gives-then
            (Gives-and (process_frame-Plays fuel config tick s no_s h)
              (process_frame-Gives lib osc cv narrow data_of fuel config tick s))
            (λ res ((plays, same, (m, image, placed, shown, read)), round).
              Gives-test res.0.term_requested
                (λ t.
                  let asks =
                    asked tick.key tick.signalled s.term_requested runs (sym round.2 ∙ t) in
                  let one = rounds_last cv tick ticks full asks in
                  given {a = res}
                    (plays, ((m, image) ∷ [], one, (placed, tt), shown, rw⁻¹ one (rw read refl))))
                (λ t.
                  let asks =
                    asked tick.key tick.signalled s.term_requested runs (sym round.2 ∙ t) in
                  Gives-then (process_loop_shows fuel config ticks res.0 more plays t)
                    (λ last (plays', (shots, count, all_placed, all_shown, all_read)).
                      let more_rounds =
                        rounds_more cv tick ticks (rounds_of cv ticks) full asks refl in
                      let rest =
                        subst
                          (λ w.
                            playback_frames cv w fuel res.0.recorder (rounds_of cv ticks)
                            ≡ ok (map (λ shot. shot.0) shots, last.0.recorder))
                          same all_read in
                      given {a = (last.0, res.1 ++ last.1)} (
                        plays',
                        (
                          (m, image) ∷ shots,
                          rounds_more cv tick ticks (length shots) full asks count,
                          (placed, all_placed),
                          rw (inputs_of-append, shown, all_shown) refl,
                          rw⁻¹ more_rounds (rw read (rw rest refl)),
                        ),
                      )))))
