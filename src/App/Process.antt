-- ===== src/App/Process.antt =====
-- xtrack/xtrack.cpp, `process` as a whole: it is set up, goes round, and stops what is still running.
use mathlib.Core.Path.{subst}
use xtrack.Prelude.{
  ◌≡◌, refl, sym, true, false, ◌≢◌, ℕ, Bool, List, [], ◌∷◌, Option, none, some, Outcome, ok, raise,
  undefined, ◌>>=◌, Ensures, returns, runs, IsDefined, Ensures-bind, Ensures-if,
  Ensures-ne-undefined, Returns, result,
}
use xtrack.Parameters.{Parameters}
use xtrack.Floating.{Floating}
use xtrack.OpenCv.{OpenCv, OpenCvLaws}
use xtrack.Fiducials.Libfidtrack.{FidTrack}
use xtrack.Tuio.Wosclib.{Wosc}
use xtrack.Record.Recorder.{RecordMode, normal, recording, playback, CameraRecorder}
use xtrack.Record.Playback.{IsLive, IsPresent, record_frame-Ensures, playback_frame-Ensures}
use xtrack.Display.{CameraDisplay}
use xtrack.Display.Drawing.{display_tracked_image}
use xtrack.Display.Placing.{draw_tracking_info-Returns}
use xtrack.App.{Config, AppState, Tick, Output, input}
use xtrack.App.Setup.{Devices, set_up}
use xtrack.App.Loop.{cut_frame, show_input, run_recorder, process_frame, process_loop, finish}
use xtrack.App.Start.{set_up-Ensures}
use xtrack.App.Safety.{IsSafe, Fits, press_key-Ensures, stop_current-Ensures}

module _ {F D : Type 0} ⦃f : Floating F⦄ ⦃d : Floating D⦄ (lib : FidTrack F) (osc : Wosc F)
    (cv : OpenCv D) (narrow : D → F) (data_of : cv.Mat → lib.Image) where
  -- The ticks are those that the run takes from outside.
  unfoldable pub process : ℕ → Devices cv → List (Tick cv) → Parameters → Outcome (Unit {0})
  unfolding set_up process_loop finish
  process fuel devices ticks ps = do
    (config, start) ← set_up lib cv devices ps
    (last, outputs) ← process_loop lib osc cv narrow data_of fuel config ticks start
    recorder ← finish lib osc cv narrow data_of last
    ok tt

  module _ (laws : OpenCvLaws cv) where
    abbrev pub SafeResult : AppState F D lib cv × List (Output cv) → Type 0
    SafeResult res = IsSafe res.0

    pub cut_frame-IsDefined :
        (quadratic : Bool) (frame : cv.Mat) → IsDefined (cut_frame cv quadratic frame)
    unfolding cut_frame
    cut_frame-IsDefined true frame = laws.sub_image_defined _ _ _
    cut_frame-IsDefined false frame = laws.sub_image_defined _ _ _

    Returns-IsDefined {ℓ} : {A : Type ℓ} {m : Outcome A} → Returns m → IsDefined m
    Returns-IsDefined (result a) = returns a tt

    shown-IsDefined :
        (display : CameraDisplay) (frame : cv.Mat)
        → IsDefined (display_tracked_image cv display frame)
    unfolding display_tracked_image
    shown-IsDefined display frame = laws.copy_into_defined _ _ _

    pub show_input-Ensures :
        (display : Option CameraDisplay) (mode : RecordMode) (flipped : cv.Mat)
        (s : AppState F D lib cv)
        → IsSafe s
        → Ensures SafeResult (show_input lib osc cv narrow data_of display mode flipped s)
    unfolding show_input
    show_input-Ensures none mode flipped s h = returns _ h
    show_input-Ensures (some display) playback flipped s h = returns _ h
    show_input-Ensures (some display) _ flipped s h =
        Ensures-bind
          (Returns-IsDefined
            (draw_tracking_info-Returns cv display flipped s.finder.tracked_fiducials))
          (λ drawn _. Ensures-bind (shown-IsDefined display drawn) (λ shown _. returns _ h))

    played-Ensures :
        (s : AppState F D lib cv) (frame : cv.Mat) (r : CameraRecorder cv)
        (display : Option CameraDisplay)
        → IsPresent display
        → IsSafe (record s { recorder = r })
        → Ensures SafeResult (elim display [
          | none ↦ raise undefined
          | some shown_in ↦
              (display_tracked_image cv shown_in frame >>= λ shown.
              ok (record s { recorder = r }, input shown ∷ []))
        ])
    played-Ensures s frame r none present h = absurd present
    played-Ensures s frame r (some display) present h =
        Ensures-bind (shown-IsDefined display frame) (λ shown _. returns _ h)

    pub run_recorder-Ensures :
        (fuel : ℕ) (mode : RecordMode) (s : AppState F D lib cv)
        → s.record_mode ≡ mode
        → IsSafe s
        → Ensures SafeResult (run_recorder lib osc cv narrow data_of fuel mode s)
    unfolding run_recorder
    run_recorder-Ensures fuel normal s e h = returns _ h
    run_recorder-Ensures fuel recording s e h =
        let (dead, present) =
          subst (λ m. Fits m s.display s.recorder.last_played_frame s.recorder.frame_progress) e
            h in
        Ensures-bind (record_frame-Ensures cv laws s.recorder s.display_mat present)
          (λ r p. returns _ (rw e (subst (λ q. ¬ IsLive q) (sym p.1) dead, p.0)))
    run_recorder-Ensures fuel playback s e h =
        let (alive, present, shown) =
          subst (λ m. Fits m s.display s.recorder.last_played_frame s.recorder.frame_progress) e
            h in
        Ensures-bind (playback_frame-Ensures cv laws s.world fuel s.recorder present alive)
          (λ res p. played-Ensures s res.0 res.1 s.display shown (rw e (p.0, p.1, shown)))

    process_frame-Ensures :
        (fuel : ℕ) (config : Config) (tick : Tick cv) (s : AppState F D lib cv)
        → IsSafe s
        → Ensures SafeResult (process_frame lib osc cv narrow data_of fuel config tick s)
    unfolding process_frame
    process_frame-Ensures fuel config tick s h =
        Ensures-bind (cut_frame-IsDefined config.make_quadratic tick.frame) (λ quadratic _.
          Ensures-bind (show_input-Ensures s.display s.record_mode _ _ h) (λ first p.
            Ensures-bind (run_recorder-Ensures fuel first.0.record_mode first.0 refl p) (λ second q.
              Ensures-bind (press_key-Ensures tick.key second.0 q) (λ last safe. returns _ safe))))

    pub process_loop-Ensures :
        (fuel : ℕ) (config : Config) (ticks : List (Tick cv)) (s : AppState F D lib cv)
        → IsSafe s
        → Ensures SafeResult (process_loop lib osc cv narrow data_of fuel config ticks s)
    unfolding process_loop
    process_loop-Ensures fuel config [] s h = runs
    process_loop-Ensures fuel config (tick ∷ ticks) s h = Ensures-if _ (returns _ h) (
        Ensures-bind (process_frame-Ensures fuel config tick s h) (λ res p.
          Ensures-if _ (returns _ p) (
            Ensures-bind (process_loop-Ensures fuel config ticks res.0 p) (λ rest q. returns _ q))))

    -- Whatever the parameters are and whatever comes from outside (frames, clocks, keys, the file system), the
    -- program makes no undefined use: it deletes no image twice, uses none behind its deletion, and reads
    -- no progress of the recorder and no display that is not there. (OpenCV refuses arguments by exceptions,
    -- as OpenCvLaws says, and the destructor of the finder is not a part of this.)
    pub process_defined :
        (fuel : ℕ) (devices : Devices cv) (ticks : List (Tick cv)) (ps : Parameters)
        → process fuel devices ticks ps ≢ raise undefined
    unfolding process finish
    process_defined fuel devices ticks ps = Ensures-ne-undefined {P = λ _. Unit {0}} (
        Ensures-bind (set_up-Ensures lib cv devices ps) (λ start safe.
          Ensures-bind (process_loop-Ensures fuel start.0 ticks start.1 safe) (λ res p.
            Ensures-bind (stop_current-Ensures res.0.record_mode res.0.display res.0.recorder p)
              (λ r _. returns tt tt))))
