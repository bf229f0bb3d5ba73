-- ===== src/App/Start.antt =====
-- The part of `process` in front of the loop makes no undefined use, and leaves the recorder's pointer alone.
use xtrack.Prelude.{
  ℕ, zero, suc, Bool, true, false, Option, none, some, List, [], ◌∷◌, ℤ, ok, raise, thrown,
  out_of_range, Ensures, returns, raises, runs, IsDefined, Ensures-bind, Ensures-if,
}
use xtrack.Text.{Text, at, extract_int}
use xtrack.Parameters.{Parameters, find, converted, int_param, string_param, double_param}
use xtrack.Parameters.Names.{
  param_record_dir, default_record_dir, param_record_scale, default_record_scale_tenths,
}
use xtrack.Floating.{Floating}
use xtrack.OpenCv.{OpenCv, CvSize}
use xtrack.Fiducials.Tracked.{Size}
use xtrack.Fiducials.Libfidtrack.{FidTrack}
use xtrack.Tuio.{open_server}
use xtrack.Tuio.Wosclib.{Sockets}
use xtrack.Record.Recorder.{dir_of, frame_time_of, rate_of, new_recorder}
use xtrack.Record.Playback.{IsLive, substr-IsDefined}
use xtrack.Display.{split_names, track_names_of, new_display}
use xtrack.App.Setup.{Devices, set_up, read_config, optional_display}
use xtrack.App.Safety.{IsSafe}

pub thrown-IsDefined {ℓ} : {A : Type ℓ} (n : ℕ) → IsDefined {A = A} (raise (thrown n))
thrown-IsDefined n = raises (thrown n) (λ e. cc)

at-IsDefined : (s : Text) (i : ℕ) → IsDefined (at s i)
unfolding at
at-IsDefined [] i = raises out_of_range (λ e. cc)
at-IsDefined (c ∷ s) zero = returns c tt
at-IsDefined (c ∷ s) (suc i) = at-IsDefined s i

converted-IsDefined {ℓ} : {A : Type ℓ} (o : Option A) → IsDefined (converted o)
converted-IsDefined none = thrown-IsDefined 1
converted-IsDefined (some a) = returns a tt

pub int_param-IsDefined :
    (ps : Parameters) (key : Text) (default : ℤ) → IsDefined (int_param ps key default)
unfolding int_param
int_param-IsDefined ps key default =
    elim (find ps key)
      as (λ o. IsDefined (elim o [ none ↦ ok default | some s ↦ converted (extract_int s) ])) [
        | none ↦ returns default tt
        | some s ↦ converted-IsDefined (extract_int s)
      ]

double_param-IsDefined :
    {D : Type 0} (extract : Text → Option D) (ps : Parameters) (key : Text) (default : D)
    → IsDefined (double_param extract ps key default)
unfolding double_param
double_param-IsDefined extract ps key default =
    elim (find ps key)
      as (λ o. IsDefined (elim o [ none ↦ ok default | some s ↦ converted (extract s) ])) [
        | none ↦ returns default tt
        | some s ↦ converted-IsDefined (extract s)
      ]

split_names-IsDefined :
    (fuel : ℕ) (s : Text) (last : ℕ) (comma : Option ℕ) (names : List Text)
    → IsDefined (split_names fuel s last comma names)
unfolding split_names
split_names-IsDefined zero s last comma names = runs
split_names-IsDefined (suc fuel) s last none names =
    Ensures-if _ (Ensures-bind (substr-IsDefined s _ _) (λ name _. returns _ tt)) (returns names tt)
split_names-IsDefined (suc fuel) s last (some comma) names =
    Ensures-bind (substr-IsDefined s _ _) (λ name _. split_names-IsDefined fuel s _ _ _)

track_names_of-IsDefined : (s : Text) → IsDefined (track_names_of s)
unfolding track_names_of
track_names_of-IsDefined s = split_names-IsDefined _ s _ _ _

new_display-IsDefined : (ps : Parameters) (size : Size) → IsDefined (new_display ps size)
unfolding new_display
new_display-IsDefined ps size =
    Ensures-bind (int_param-IsDefined ps _ _)
      (λ n _. Ensures-bind (track_names_of-IsDefined _) (λ names _. returns _ tt))

pub optional_display-IsDefined :
    (b : Bool) (ps : Parameters) (size : Size) → IsDefined (optional_display b ps size)
unfolding optional_display
optional_display-IsDefined false ps size = returns none tt
optional_display-IsDefined true ps size =
    Ensures-bind (new_display-IsDefined ps size) (λ display _. returns _ tt)

pub read_config-IsDefined : (ps : Parameters) → IsDefined (read_config ps)
unfolding read_config
read_config-IsDefined ps = Ensures-bind (int_param-IsDefined ps _ _) (λ _ _.
    Ensures-bind (int_param-IsDefined ps _ _)
      (λ _ _. Ensures-bind (int_param-IsDefined ps _ _) (λ _ _. returns _ tt)))

open_server-IsDefined : (net : Sockets) (ps : Parameters) → IsDefined (open_server net ps)
unfolding open_server
open_server-IsDefined net ps =
    Ensures-bind (int_param-IsDefined ps _ _)
      (λ port _. Ensures-if _ (thrown-IsDefined 1) (returns _ tt))

dir_of-IsDefined : (dir : Text) → IsDefined (dir_of dir)
unfolding dir_of
dir_of-IsDefined dir = Ensures-bind (at-IsDefined dir _) (λ c _. returns _ tt)

module _ {F D : Type 0} ⦃f : Floating F⦄ ⦃d : Floating D⦄ (lib : FidTrack F) (cv : OpenCv D) where
  frame_time_of-IsDefined : (ps : Parameters) → IsDefined (frame_time_of cv ps)
  unfolding frame_time_of
  frame_time_of-IsDefined ps =
      Ensures-bind (int_param-IsDefined ps _ _)
        (λ n _. Ensures-if _ (thrown-IsDefined 1) (returns n tt))

  rate_of-IsDefined :
      (extract : Text → Option D) (ps : Parameters) (rate : D)
      → IsDefined (rate_of cv extract ps rate)
  unfolding rate_of
  rate_of-IsDefined extract ps rate =
      Ensures-bind (double_param-IsDefined extract ps _ _)
        (λ x _. Ensures-if _ (thrown-IsDefined 1) (returns _ tt))

  pub new_recorder-Ensures :
      (extract : Text → Option D) (fourcc : ℕ → ℕ → ℕ → ℕ → ℤ) (writer : cv.Writer)
      (reader : cv.Reader) (ps : Parameters) (size : CvSize)
      → Ensures
          (λ r. ¬ IsLive r.last_played_frame)
          (new_recorder cv extract fourcc writer reader ps size)
  unfolding new_recorder
  new_recorder-Ensures extract fourcc writer reader ps size =
      Ensures-bind (frame_time_of-IsDefined ps) (λ _ _.
        Ensures-bind (dir_of-IsDefined (string_param ps param_record_dir default_record_dir))
          (λ _ _. Ensures-bind (rate_of-IsDefined extract ps _) (λ _ _.
            Ensures-bind
              (double_param-IsDefined extract ps param_record_scale
                (d.literal default_record_scale_tenths 10))
              (λ _ _. returns _ (λ h. h)))))

  pub set_up-Ensures :
      (devices : Devices cv) (ps : Parameters)
      → Ensures (λ res. IsSafe res.1) (set_up lib cv devices ps)
  unfolding set_up
  set_up-Ensures devices ps = Ensures-bind (int_param-IsDefined ps _ _) (λ camera _.
      Ensures-bind
        (Ensures-if (devices.camera_opens camera) (returns camera tt) (thrown-IsDefined 1))
        (λ _ _. Ensures-bind (int_param-IsDefined ps _ _) (λ width _.
          Ensures-bind (int_param-IsDefined ps _ _) (λ height _.
            Ensures-bind (read_config-IsDefined ps) (λ config _.
              Ensures-bind
                (optional_display-IsDefined config.show_input_window ps
                  (devices.frame_size width height))
                (λ _ _. Ensures-bind (open_server-IsDefined devices.sockets ps) (λ _ _.
                  Ensures-bind
                    (new_recorder-Ensures devices.extract_double devices.fourcc devices.writer
                      devices.reader ps _)
                    (λ _ h. returns _ h))))))))
