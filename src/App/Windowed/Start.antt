-- ===== src/App/Windowed/Start.antt =====
-- In front of the first round with the window.
use xtrack.Prelude.{
  ◌≡◌, ◌∙◌, refl, sym, ap, ℕ, ◌<◌, Bool, true, false, Option, some, if◌then◌else◌, ℤ, negsuc, ok,
  raise, thrown, Gives, given, Gives-bind, Gives-then, arith,
}
use xtrack.Text.{Text}
use xtrack.Parameters.{Parameters, int_param, string_param, double_param}
use xtrack.Parameters.Names.{
  param_camera, default_camera, param_frame_width, default_frame_width, param_frame_height,
  default_frame_height, param_record_scale, param_record_dir, default_record_dir,
  default_record_scale_tenths, param_track_rect_size, default_track_rect_size, param_track_names,
  default_track_names,
}
use xtrack.Floating.{Floating, ◌⊘◌}
use xtrack.OpenCv.{OpenCv, CvSize}
use xtrack.Fiducials.Tracked.{Size}
use xtrack.Fiducials.Libfidtrack.{FidTrack}
use xtrack.Tuio.{open_server}
use xtrack.Record.Recorder.{
  CameraRecorder, unset, live, frame_time_of, rate_of, dir_of, new_recorder,
}
use xtrack.Record.Ranges.{none_yet}
use xtrack.Display.{CameraDisplay, track_names_of, new_display}
use xtrack.App.{Config, AppState}
use xtrack.App.Setup.{Devices, read_config, optional_display, set_up}
use xtrack.App.Windowed.{sized, IsWide, ReadyRecorder}

unset_not_live : {M A : Type 0} (m : M) → unset ≡ live m → A
unset_not_live m e = cc

some_injective {ℓ} : {A : Type ℓ} {a b : A} → some a ≡ some b → a ≡ b
some_injective e = cc

new_display-Gives :
    (ps : Parameters) (size : Size)
    → Gives (λ display. display.screen_size ≡ size) (new_display ps size)
unfolding new_display
new_display-Gives ps size =
    Gives-bind (int_param ps param_track_rect_size default_track_rect_size) (λ n.
      Gives-bind (track_names_of (string_param ps param_track_names default_track_names))
        (λ names. given refl))

optional_display-Gives :
    (shown : Bool) (ps : Parameters) (size : Size)
    → Gives
        (λ display. (window : CameraDisplay) → display ≡ some window → window.screen_size ≡ size)
        (optional_display shown ps size)
unfolding optional_display
optional_display-Gives false ps size = given (λ window e. cc)
optional_display-Gives true ps size =
    Gives-then (new_display-Gives ps size)
      (λ display p. given (λ window e. ap (λ x. x.screen_size) (sym (some_injective e)) ∙ p))

module _ {F D : Type 0} ⦃f : Floating F⦄ ⦃d : Floating D⦄ (lib : FidTrack F) (cv : OpenCv D) where
  new_recorder-Starts :
      (extract : Text → Option D) (fourcc : ℕ → ℕ → ℕ → ℕ → ℤ) (writer : cv.Writer)
      (reader : cv.Reader) (ps : Parameters) (size : CvSize)
      → Gives
          (λ r.
            (r.orig_size ≡ size)
            × (r.last_played_frame ≡ unset)
            × (r.last_played_file_num ≡ negsuc 0))
          (new_recorder cv extract fourcc writer reader ps size)
  unfolding new_recorder
  new_recorder-Starts extract fourcc writer reader ps size =
      Gives-bind (frame_time_of cv ps) (λ time.
        Gives-bind (dir_of (string_param ps param_record_dir default_record_dir)) (λ dir.
          Gives-bind (rate_of cv extract ps (d.literal 1000 1 ⊘ d.of_int time)) (λ rate.
            Gives-bind
              (double_param extract ps param_record_scale
                (d.literal default_record_scale_tenths 10))
              (λ scale. given (refl, refl, refl)))))

  -- The image of the window, or the square in it.
  abbrev pub StartsSized : Config × AppState F D lib cv → Type 0
  StartsSized start =
      (window : CameraDisplay)
      → start.1.display ≡ some window
      → (start.1.recorder.orig_size
          ≡ sized
              (if start.0.make_quadratic
                then window.screen_size.height
                else window.screen_size.width)
              window.screen_size.height)
        × (start.1.recorder.last_played_frame ≡ unset)
        × (start.1.recorder.last_played_file_num ≡ negsuc 0)

  pub set_up-StartsSized :
      (devices : Devices cv) (ps : Parameters) → Gives StartsSized (set_up lib cv devices ps)
  unfolding set_up
  set_up-StartsSized devices ps = Gives-bind (int_param ps param_camera default_camera) (λ camera.
      Gives-bind (if devices.camera_opens camera then ok camera else raise (thrown 1)) (λ _.
        Gives-bind (int_param ps param_frame_width default_frame_width) (λ width.
          Gives-bind (int_param ps param_frame_height default_frame_height) (λ height.
            Gives-bind (read_config ps) (λ config.
              Gives-then
                (optional_display-Gives config.show_input_window ps
                  (devices.frame_size width height))
                (λ display size. Gives-bind (open_server devices.sockets ps) (λ server.
                  Gives-then
                    (new_recorder-Starts devices.extract_double devices.fourcc devices.writer
                      devices.reader ps _)
                    (λ r p. given (λ window e. (
                      p.0
                          ∙ ap
                              (λ (x : Size).
                                sized (if config.make_quadratic then x.height else x.width)
                                  x.height)
                              (sym (size window e)),
                      p.1,
                      p.2,
                    ))))))))))

module _ {D : Type 0} ⦃d : Floating D⦄ {cv : OpenCv D} where
  pub start-Ready :
      (quadratic : Bool) (window : CameraDisplay) (r : CameraRecorder cv) (w h : ℕ)
      → IsWide quadratic window
      → (r.orig_size
          ≡ sized
              (if quadratic then window.screen_size.height else window.screen_size.width)
              window.screen_size.height)
        × (r.last_played_frame ≡ unset)
        × (r.last_played_file_num ≡ negsuc 0)
      → r.record_size ≡ sized w h
      → 0 < w
      → 0 < h
      → ReadyRecorder cv window r
  start-Ready true window r w h (a, b, square) (orig, pointer, number) small c e = record {
    small = (w, h, small, c, e);
    orig = (
      window.screen_size.height,
      window.screen_size.height,
      orig,
      b,
      b,
      square refl,
      omega arith,
    );
    pointer = λ m p. unset_not_live m (sym pointer ∙ p);
    number = rw number none_yet;
  }
  start-Ready false window r w h (a, b, square) (orig, pointer, number) small c e = record {
    small = (w, h, small, c, e);
    orig =
        (window.screen_size.width, window.screen_size.height, orig, a, b, omega arith, omega arith);
    pointer = λ m p. unset_not_live m (sym pointer ∙ p);
    number = rw number none_yet;
  }
