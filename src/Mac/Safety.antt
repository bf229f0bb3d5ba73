-- ===== src/Mac/Safety.antt =====
-- The port makes no undefined use.
use xtrack.Prelude.{
  ◌≡◌, ◌≢◌, refl, ℕ, Option, List, [], ◌∷◌, ℤ, pos, ok, raise, undefined, Ensures, returns, runs,
  IsDefined, Ensures-bind, Ensures-if, Ensures-ne-undefined,
}
use xtrack.Text.{Text}
use xtrack.Parameters.{Parameters}
use xtrack.Floating.{Floating}
use xtrack.OpenCv.{OpenCv, OpenCvLaws, CvSize}
use xtrack.Fiducials.Libfidtrack.{FidTrack}
use xtrack.Tuio.Wosclib.{Wosc}
use xtrack.Record.Playback.{IsLive}
use xtrack.App.{Config, Tick, Output}
use xtrack.App.Safety.{IsSafe, press_key-Ensures, stop_current-Ensures}
use xtrack.App.Start.{
  thrown-IsDefined, int_param-IsDefined, read_config-IsDefined, optional_display-IsDefined,
}
use xtrack.App.Start
use xtrack.App.Process.{cut_frame-IsDefined, show_input-Ensures, run_recorder-Ensures}
use xtrack.Mac.Names.{
  param_frame_width, default_frame_width, param_frame_height, default_frame_height,
}
use xtrack.Mac.Common.{int_param}
use xtrack.Mac.Tuio.{open_server}
use xtrack.Mac.Recorder.{port, new_recorder}
use xtrack.Mac.Loop.{Devices, PortState, set_up, process_frame, process_loop, process}

abbrev port_laws : {D : Type 0} {cv : OpenCv D} → OpenCvLaws cv → OpenCvLaws (port cv)
port_laws laws = record {
  released = laws.released;
  resize_empty = laws.resize_empty;
  resize_defined = laws.resize_defined;
  sub_image_defined = laws.sub_image_defined;
  copy_into_defined = laws.copy_into_defined;
}

open_server-IsDefined : (held : ℤ) (ps : Parameters) → IsDefined (open_server held ps)
unfolding open_server
open_server-IsDefined held ps = Ensures-bind (int_param-IsDefined ps _ _) (λ n _. returns _ tt)

module _ {F D : Type 0} ⦃f : Floating F⦄ ⦃d : Floating D⦄ (lib : FidTrack F) (cv : OpenCv D) where
  new_recorder-Ensures :
      (extract : Text → Option D) (fourcc : ℕ → ℕ → ℕ → ℕ → ℤ) (writer : cv.Writer)
      (reader : cv.Reader) (ps : Parameters) (size : CvSize)
      → Ensures
          (λ r. ¬ IsLive r.last_played_frame)
          (new_recorder cv extract fourcc writer reader ps size)
  unfolding new_recorder
  new_recorder-Ensures extract fourcc writer reader ps size =
      Ensures-bind (Start.new_recorder-Ensures lib (port cv) extract fourcc writer reader ps size)
        (λ r _. returns _ (λ h. h))

  set_up-Ensures :
      (devices : Devices cv) (ps : Parameters) (width height : ℕ)
      → int_param ps param_frame_width default_frame_width ≡ ok (pos width)
      → int_param ps param_frame_height default_frame_height ≡ ok (pos height)
      → Ensures (λ res. IsSafe res.1) (set_up lib cv devices ps)
  unfolding set_up
  set_up-Ensures devices ps width height w h =
      Ensures-bind (int_param-IsDefined ps _ _) (λ camera _.
        Ensures-bind
          (Ensures-if (devices.camera_opens camera) (returns camera tt) (thrown-IsDefined 1))
          (λ _ _.
            rw (w, h)
              (Ensures-bind (read_config-IsDefined ps) (λ config _.
                Ensures-bind
                  (optional_display-IsDefined config.show_input_window ps
                    (record { width = width; height = height }))
                  (λ _ _. Ensures-bind (open_server-IsDefined devices.held_socket ps) (λ _ _.
                    Ensures-bind
                      (new_recorder-Ensures devices.extract_double devices.fourcc devices.writer
                        devices.reader ps _)
                      (λ _ e. returns _ e)))))))

module _ {F D : Type 0} ⦃f : Floating F⦄ ⦃d : Floating D⦄ (lib : FidTrack F) (osc : Wosc F)
    (cv : OpenCv D) (narrow : D → F) (data_of : cv.Mat → lib.Image) (laws : OpenCvLaws cv) where
  abbrev SafeResult : PortState lib cv × List (Output (port cv)) → Type 0
  SafeResult res = IsSafe res.0

  process_frame-Ensures :
      (fuel : ℕ) (config : Config) (tick : Tick (port cv)) (s : PortState lib cv)
      → IsSafe s
      → Ensures SafeResult (process_frame lib osc cv narrow data_of fuel config tick s)
  unfolding process_frame
  process_frame-Ensures fuel config tick s h =
      Ensures-bind
        (cut_frame-IsDefined lib osc (port cv) narrow data_of (port_laws laws) config.make_quadratic
          tick.frame)
        (λ quadratic _.
          Ensures-bind
            (show_input-Ensures lib osc (port cv) narrow data_of (port_laws laws) s.display
              s.record_mode _ _ h)
            (λ first p.
              Ensures-bind
                (run_recorder-Ensures lib osc (port cv) narrow data_of (port_laws laws) fuel
                  first.0.record_mode first.0 refl p)
                (λ second q.
                  Ensures-bind (press_key-Ensures tick.key second.0 q)
                    (λ last safe. returns _ safe))))

  process_loop-Ensures :
      (fuel : ℕ) (config : Config) (ticks : List (Tick (port cv))) (s : PortState lib cv)
      → IsSafe s
      → Ensures SafeResult (process_loop lib osc cv narrow data_of fuel config ticks s)
  unfolding process_loop
  process_loop-Ensures fuel config [] s h = runs
  process_loop-Ensures fuel config (tick ∷ ticks) s h = Ensures-if _ (returns _ h) (
      Ensures-bind (process_frame-Ensures fuel config tick s h) (λ res p.
        Ensures-if _ (returns _ p)
          (Ensures-bind (process_loop-Ensures fuel config ticks res.0 p) (λ rest q. returns _ q))))

  -- The port makes no undefined use either, if the sides of the frame that are asked for are ints that are
  -- not negative. (OpenCV refuses arguments by exceptions, as OpenCvLaws says.)
  pub port_defined :
      (fuel : ℕ) (devices : Devices cv) (ticks : List (Tick (port cv))) (ps : Parameters)
      (width height : ℕ)
      → int_param ps param_frame_width default_frame_width ≡ ok (pos width)
      → int_param ps param_frame_height default_frame_height ≡ ok (pos height)
      → process lib osc cv narrow data_of fuel devices ticks ps ≢ raise undefined
  unfolding process
  port_defined fuel devices ticks ps width height w h = Ensures-ne-undefined {P = λ _. Unit {0}} (
      Ensures-bind (set_up-Ensures lib cv devices ps width height w h) (λ start safe.
        Ensures-bind (process_loop-Ensures fuel start.0 ticks start.1 safe) (λ res p.
          Ensures-bind (stop_current-Ensures res.0.record_mode res.0.display res.0.recorder p)
            (λ r _. returns tt tt))))
