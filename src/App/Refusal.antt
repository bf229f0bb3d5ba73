-- ===== src/App/Refusal.antt =====
-- How the part of `process` in front of the loop fails.
use xtrack.Prelude.{
  ◌≡◌, ◌≢◌, refl, ℕ, zero, suc, ◌<◌, Bool, true, false, Option, none, some, List, [], ◌∷◌,
  if◌then◌else◌, length, ℤ, Outcome, ok, raise, thrown, ◌>>=◌, Returns, result, arith,
}
use xtrack.Text.{Text, at, extract_int}
use xtrack.Parameters.{Parameters, find, converted, int_param, string_param, double_param}
use xtrack.Parameters.Names.{
  param_record_dir, default_record_dir, param_record_scale, default_record_scale_tenths,
}
use xtrack.Parameters.Laws.{HasNoEmpty, find_ne_nil}
use xtrack.CommandLine.{add_params}
use xtrack.CommandLine.Laws.{add_params_total}
use xtrack.Floating.{Floating}
use xtrack.OpenCv.{OpenCv, CvSize}
use xtrack.Fiducials.Tracked.{Size}
use xtrack.Fiducials.Libfidtrack.{FidTrack}
use xtrack.Tuio.{open_server}
use xtrack.Tuio.Wosclib.{Sockets}
use xtrack.Record.Recorder.{dir_of, frame_time_of, rate_of, new_recorder}
use xtrack.Display.{new_display}
use xtrack.Display.Names.{track_names_of-Returns}
use xtrack.App.Setup.{Devices, set_up, read_config, optional_display}

-- The computation returns or throws the int 1.
pub data ReturnsOrOne {ℓ} {A : Type ℓ} : Outcome A → Type ℓ where
  returned : {a : A} → ReturnsOrOne (ok a)
  one : ReturnsOrOne (raise (thrown 1))

bind {ℓ κ} :
    {A : Type ℓ} {B : Type κ} {m : Outcome A} {f : A → Outcome B}
    → ReturnsOrOne m
    → ((a : A) → ReturnsOrOne (f a))
    → ReturnsOrOne (m >>= f)
bind returned k = k _
bind one k = one

branch {ℓ} :
    {A : Type ℓ} {m n : Outcome A} (b : Bool)
    → ReturnsOrOne m
    → ReturnsOrOne n
    → ReturnsOrOne (if b then m else n)
branch true h k = h
branch false h k = k

of_Returns {ℓ} : {A : Type ℓ} {m : Outcome A} → Returns m → ReturnsOrOne m
of_Returns (result a) = returned

converted_lem {ℓ} : {A : Type ℓ} (o : Option A) → ReturnsOrOne (converted o)
converted_lem none = one
converted_lem (some a) = returned

int_param_lem :
    (ps : Parameters) (key : Text) (default : ℤ) → ReturnsOrOne (int_param ps key default)
unfolding int_param
int_param_lem ps key default =
    elim (find ps key)
      as (λ o. ReturnsOrOne (elim o [ none ↦ ok default | some s ↦ converted (extract_int s) ])) [
        | none ↦ returned
        | some s ↦ converted_lem (extract_int s)
      ]

double_param_lem :
    {D : Type 0} (extract : Text → Option D) (ps : Parameters) (key : Text) (default : D)
    → ReturnsOrOne (double_param extract ps key default)
unfolding double_param
double_param_lem extract ps key default =
    elim (find ps key)
      as (λ o. ReturnsOrOne (elim o [ none ↦ ok default | some s ↦ converted (extract s) ])) [
        | none ↦ returned
        | some s ↦ converted_lem (extract s)
      ]

new_display_lem : (ps : Parameters) (size : Size) → ReturnsOrOne (new_display ps size)
unfolding new_display
new_display_lem ps size =
    bind (int_param_lem ps _ _)
      (λ n. bind (of_Returns (track_names_of-Returns _)) (λ names. returned))

optional_display_lem :
    (b : Bool) (ps : Parameters) (size : Size) → ReturnsOrOne (optional_display b ps size)
unfolding optional_display
optional_display_lem false ps size = returned
optional_display_lem true ps size = bind (new_display_lem ps size) (λ display. returned)

read_config_lem : (ps : Parameters) → ReturnsOrOne (read_config ps)
unfolding read_config
read_config_lem ps =
    bind (int_param_lem ps _ _)
      (λ _. bind (int_param_lem ps _ _) (λ _. bind (int_param_lem ps _ _) (λ _. returned)))

open_server_lem : (net : Sockets) (ps : Parameters) → ReturnsOrOne (open_server net ps)
unfolding open_server
open_server_lem net ps = bind (int_param_lem ps _ _) (λ port. branch _ one returned)

at-Returns : (s : Text) (i : ℕ) → i < length s → Returns (at s i)
unfolding at
at-Returns [] i h = elim h [ ]
at-Returns (c ∷ s) zero h = result c
at-Returns (c ∷ s) (suc i) h = at-Returns s i (omega arith)

dir_of_lem : (dir : Text) → dir ≢ [] → ReturnsOrOne (dir_of dir)
unfolding dir_of
dir_of_lem [] h = absurd (h refl)
dir_of_lem (c ∷ dir) h = bind (of_Returns (at-Returns (c ∷ dir) _ (omega arith))) (λ last. returned)

found-ne-nil :
    (ps : Parameters) (key default : Text)
    → HasNoEmpty ps
    → default ≢ []
    → (o : Option Text) → find ps key ≡ o
    → elim o [ none ↦ default | some s ↦ s ] ≢ []
found-ne-nil ps key default full h none e = h
found-ne-nil ps key default full h (some s) e = find_ne_nil ps key s full e

string_param-ne-nil :
    (ps : Parameters) (key default : Text)
    → HasNoEmpty ps
    → default ≢ []
    → string_param ps key default ≢ []
unfolding string_param
string_param-ne-nil ps key default full h = found-ne-nil ps key default full h (find ps key) refl

module _ {F D : Type 0} ⦃f : Floating F⦄ ⦃d : Floating D⦄ (lib : FidTrack F) (cv : OpenCv D) where
  frame_time_of_lem : (ps : Parameters) → ReturnsOrOne (frame_time_of cv ps)
  unfolding frame_time_of
  frame_time_of_lem ps = bind (int_param_lem ps _ _) (λ n. branch _ one returned)

  rate_of_lem :
      (extract : Text → Option D) (ps : Parameters) (rate : D)
      → ReturnsOrOne (rate_of cv extract ps rate)
  unfolding rate_of
  rate_of_lem extract ps rate = bind (double_param_lem extract ps _ _) (λ x. branch _ one returned)

  new_recorder_lem :
      (extract : Text → Option D) (fourcc : ℕ → ℕ → ℕ → ℕ → ℤ) (writer : cv.Writer)
      (reader : cv.Reader) (ps : Parameters) (size : CvSize)
      → HasNoEmpty ps
      → ReturnsOrOne (new_recorder cv extract fourcc writer reader ps size)
  unfolding new_recorder
  new_recorder_lem extract fourcc writer reader ps size full = bind (frame_time_of_lem ps) (λ _.
      bind
        (dir_of_lem (string_param ps param_record_dir default_record_dir)
          (string_param-ne-nil ps _ _ full (λ e. cc)))
        (λ _. bind (rate_of_lem extract ps _) (λ _.
          bind
            (double_param_lem extract ps param_record_scale
              (d.literal default_record_scale_tenths 10))
            (λ _. returned))))

  set_up_lem :
      (devices : Devices cv) (ps : Parameters)
      → HasNoEmpty ps
      → ReturnsOrOne (set_up lib cv devices ps)
  unfolding set_up
  set_up_lem devices ps full = bind (int_param_lem ps _ _) (λ camera.
      bind (branch (devices.camera_opens camera) returned one) (λ _.
        bind (int_param_lem ps _ _) (λ width. bind (int_param_lem ps _ _) (λ height.
          bind (read_config_lem ps) (λ config.
            bind
              (optional_display_lem config.show_input_window ps (devices.frame_size width height))
              (λ _. bind (open_server_lem devices.sockets ps) (λ _.
                bind
                  (new_recorder_lem devices.extract_double devices.fourcc devices.writer
                    devices.reader ps _ full)
                  (λ _. returned))))))))

  -- Whatever the arguments of the program and the devices are, what stands in front of the loop returns or
  -- throws the int 1: it throws nothing else, and its loops end.
  pub set_up_refusal :
      (devices : Devices cv) (args : List Text)
      → (qs : Parameters) × (add_params [] args ≡ ok qs) × ReturnsOrOne (set_up lib cv devices qs)
  set_up_refusal devices args =
      let (qs, e, full) = add_params_total [] args tt in (qs, e, set_up_lem devices qs full)
