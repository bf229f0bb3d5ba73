-- ===== src/App/Filming.antt =====
-- What a run gives to the recorder: the images that it shows.
use xtrack.Prelude.{
  ℕ, length, Gives-test, Gives-and, ◌≡◌, ◌∙◌, refl, sym, ap, true, false, ◌||◌, Option, some, List,
  [], ◌∷◌, ◌++◌, All, map, ℤ, ok, ◌>>=◌, Gives, given, endless, Gives-bind, Gives-then, Gives-if,
  Gives-result,
}
use xtrack.Floating.{Floating}
use xtrack.OpenCv.{OpenCv}
use xtrack.Fiducials.Libfidtrack.{FidTrack}
use xtrack.Tuio.Wosclib.{Wosc}
use xtrack.Record.Recorder.{RecordMode, recording, CameraRecorder, record_frame, stop_recording}
use xtrack.Record.Pace.{record_frames}
use xtrack.Display.{CameraDisplay}
use xtrack.Display.Drawing.{draw_tracking_info, display_tracked_image}
use xtrack.App.{Config, AppState, Tick, Output, input}
use xtrack.App.Keys.{key_is, press_record, stop_current, press_key}
use xtrack.App.Loop.{cut_frame, show_input, run_recorder, process_frame, process_loop, finish}
use xtrack.App.Shown.{
  inputs_of, inputs_of-append, one_input, no_frame_in, rounds_of, rounds_none, rounds_last,
  rounds_more,
}
use xtrack.App.Sending.{asked, process_frame-Gives}

module _ {F D : Type 0} ⦃f : Floating F⦄ ⦃d : Floating D⦄ (lib : FidTrack F) (osc : Wosc F)
    (cv : OpenCv D) (narrow : D → F) (data_of : cv.Mat → lib.Image) (window : CameraDisplay) where
  -- The mode RECORDING, with a window.
  abbrev pub Films : AppState F D lib cv → Type 0
  Films s = (s.display ≡ some window) × (s.record_mode ≡ recording)

  show_input-Films :
      (display : Option CameraDisplay) (mode : RecordMode) (flipped : cv.Mat)
      (s : AppState F D lib cv)
      → display ≡ some window
      → mode ≡ recording
      → Gives
          (λ res.
            (m : cv.Mat) × (image : cv.Mat) × (display_tracked_image cv window m ≡ ok image)
            × (res ≡ (record s { display_mat = m }, input image ∷ [])))
          (show_input lib osc cv narrow data_of display mode flipped s)
  unfolding show_input
  show_input-Films display mode flipped s e e' =
      rw (e, e')
        (Gives-bind (draw_tracking_info cv window flipped s.finder.tracked_fiducials) (λ m.
          Gives-then (Gives-result (display_tracked_image cv window m))
            (λ image placed. given (m, image, placed, refl))))

  run_recorder-Films :
      (fuel : ℕ) (mode : RecordMode) (s : AppState F D lib cv)
      → mode ≡ recording
      → Gives
          (λ res.
            (r : CameraRecorder cv) × (record_frame cv s.recorder s.display_mat ≡ ok r)
            × (res ≡ (record s { recorder = r }, [])))
          (run_recorder lib osc cv narrow data_of fuel mode s)
  unfolding run_recorder
  run_recorder-Films fuel mode s e = rw e (
      Gives-then (Gives-result (record_frame cv s.recorder s.display_mat))
        (λ r recorded. given (r, recorded, refl)))

  -- The keys that do not end a recording: all but s and p.
  abbrev pub GoesOn : ℤ → Type 0
  GoesOn key = (key_is key b's' ≡ false) × (key_is key b'p' ≡ false)

  abbrev SameFilm : AppState F D lib cv → AppState F D lib cv → Type 0
  SameFilm s s' = Films s' × (s'.recorder ≡ s.recorder)

  press_record-Films :
      (mode : RecordMode) (s : AppState F D lib cv)
      → mode ≡ recording
      → Films s
      → Gives (SameFilm s) (press_record mode s)
  unfolding press_record
  press_record-Films mode s e h = rw e (given (h, refl))

  press_key-Films :
      (key : ℤ) (s : AppState F D lib cv)
      → GoesOn key
      → Films s
      → Gives (SameFilm s) (press_key key s)
  unfolding press_key
  press_key-Films key s (no_s, no_p) h =
      rw (no_s, no_p)
        (Gives-if (key_is key 27 || key_is key b'q')
          (λ _. given {a = record s { term_requested = true }} (h, refl))
          (Gives-if (key_is key b'r') (λ _. press_record-Films s.record_mode s h.1 h)
            (given {a = s} (h, refl))))

  -- A round shows one image and records it.
  abbrev FilmedOne : AppState F D lib cv → AppState F D lib cv × List (Output cv) → Type 0
  FilmedOne s res =
      Films res.0
      × ((m : cv.Mat) × (image : cv.Mat) × (display_tracked_image cv window m ≡ ok image)
          × (inputs_of res.1 ≡ image ∷ [])
          × (record_frame cv s.recorder m ≡ ok res.0.recorder))

  process_frame-Films :
      (fuel : ℕ) (config : Config) (tick : Tick cv) (s : AppState F D lib cv)
      → GoesOn tick.key
      → Films s
      → Gives (FilmedOne s) (process_frame lib osc cv narrow data_of fuel config tick s)
  unfolding process_frame
  process_frame-Films fuel config tick s goes_on h =
      Gives-bind (cut_frame cv config.make_quadratic tick.frame) (λ quadratic.
        Gives-then (show_input-Films s.display s.record_mode _ _ h.0 h.1)
          (λ a (m, image, placed, e). rw e (
            Gives-then (run_recorder-Films fuel s.record_mode _ h.1) (λ b (r, recorded, e'). rw e' (
              Gives-then (press_key-Films tick.key _ goes_on h) (λ last (films, same). given (
                films,
                (
                  m,
                  image,
                  placed,
                  one_input cv config.show_contrast_window config.print_data _ image _ _,
                  recorded ∙ ap ok (sym same),
                ),
              )))))))

  -- What is shown and given to `recordFrame`: for each round a pair of an image and of what the window
  -- shows of it.
  abbrev pub IsFilmed : ℕ → AppState F D lib cv → AppState F D lib cv × List (Output cv) → Type 0
  IsFilmed rounds s res =
      Films res.0
      × ((shots : List (cv.Mat × cv.Mat)) × (length shots ≡ rounds)
          × All (λ shot. display_tracked_image cv window shot.0 ≡ ok shot.1) shots
          × (inputs_of res.1 ≡ map (λ shot. shot.1) shots)
          × (record_frames cv s.recorder (map (λ shot. shot.0) shots) ≡ ok res.0.recorder))

  process_loop-Films :
      (fuel : ℕ) (config : Config) (ticks : List (Tick cv)) (s : AppState F D lib cv)
      → All (λ tick. GoesOn tick.key) ticks
      → Films s
      → s.term_requested ≡ false
      → Gives
          (IsFilmed (rounds_of cv ticks) s)
          (process_loop lib osc cv narrow data_of fuel config ticks s)
  unfolding process_loop record_frames
  process_loop-Films fuel config [] s goes_on h runs = endless
  process_loop-Films fuel config (tick ∷ ticks) s (goes_on, more) h runs =
      Gives-test (no_frame_in cv tick)
        (λ e. given {a = (s, [])} (h, ([], rounds_none cv tick ticks e, tt, refl, refl)))
        (λ full.
          Gives-then
            (Gives-and (process_frame-Films fuel config tick s goes_on h)
              (process_frame-Gives lib osc cv narrow data_of fuel config tick s))
            (λ res ((films, (m, image, placed, shown, recorded)), round).
              Gives-test res.0.term_requested
                (λ t.
                  let asks =
                    asked tick.key tick.signalled s.term_requested runs (sym round.2 ∙ t) in
                  given {a = res} (
                    films,
                    (
                      (m, image) ∷ [],
                      rounds_last cv tick ticks full asks,
                      (placed, tt),
                      shown,
                      rw recorded refl,
                    ),
                  ))
                (λ t.
                  let asks =
                    asked tick.key tick.signalled s.term_requested runs (sym round.2 ∙ t) in
                  Gives-then (process_loop-Films fuel config ticks res.0 more films t)
                    (λ last (films', (shots, count, all_placed, all_shown, all_recorded)).
                      given {a = (last.0, res.1 ++ last.1)} (
                        films',
                        (
                          (m, image) ∷ shots,
                          rounds_more cv tick ticks (length shots) full asks count,
                          (placed, all_placed),
                          rw (inputs_of-append, shown, all_shown) refl,
                          rw recorded all_recorded,
                        ),
                      )))))

  -- The run and what is stopped behind it.
  abbrev pub Recorded : ℕ → AppState F D lib cv → CameraRecorder cv × List (Output cv) → Type 0
  Recorded rounds s (closed, outputs) =
      (shots : List (cv.Mat × cv.Mat)) × (r : CameraRecorder cv) × (length shots ≡ rounds)
      × All (λ shot. display_tracked_image cv window shot.0 ≡ ok shot.1) shots
      × (inputs_of outputs ≡ map (λ shot. shot.1) shots)
      × (record_frames cv s.recorder (map (λ shot. shot.0) shots) ≡ ok r)
      × (closed ≡ stop_recording cv r)

  closed-Films :
      (mode : RecordMode) (rounds : ℕ) (s : AppState F D lib cv)
      (res : AppState F D lib cv × List (Output cv))
      → mode ≡ recording
      → IsFilmed rounds s res
      → Gives (Recorded rounds s) (stop_current mode res.0.recorder >>= λ r. ok (r, res.1))
  unfolding stop_current
  closed-Films mode rounds s res e (films, (shots, count, placed, shown, recorded)) =
      rw e (given (shots, res.0.recorder, count, placed, shown, recorded, refl))

  -- From a state in the mode RECORDING with the window for the input image, in which no end is asked for, and
  -- as long as neither s nor p is pressed: if a run gives a result, there is one image for each of its rounds,
  -- such that the window showed these images, placed in it, in their order, and the recorder is what one call
  -- of `recordFrame` for each of them makes, in the same order, with its file closed behind the loop.
  pub process_loop_records :
      (fuel : ℕ) (config : Config) (ticks : List (Tick cv)) (s : AppState F D lib cv)
      → All (λ tick. GoesOn tick.key) ticks
      → Films s
      → s.term_requested ≡ false
      → Gives (Recorded (rounds_of cv ticks) s) (do
        res ← process_loop lib osc cv narrow data_of fuel config ticks s
        r ← finish lib osc cv narrow data_of res.0
        ok (r, res.1))
  unfolding finish
  process_loop_records fuel config ticks s goes_on h runs =
      Gives-then (process_loop-Films fuel config ticks s goes_on h runs)
        (λ res filmed. closed-Films res.0.record_mode (rounds_of cv ticks) s res filmed.0.1 filmed)
