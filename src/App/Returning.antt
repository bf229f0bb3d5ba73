-- ===== src/App/Returning.antt =====
-- A whole run that returns.
use mathlib.Core.Path.{subst}
use xtrack.Prelude.{
  [], ◌≡◌, refl, ℕ, false, List, All, Outcome, ok, ◌>>=◌, Gives, Gives-ok, Yields, yields,
  Yields-map,
}
use xtrack.Text.{Text}
use xtrack.CommandLine.{status, add_params, main}
use xtrack.Parameters.{Parameters}
use xtrack.Floating.{Floating}
use xtrack.OpenCv.{OpenCv}
use xtrack.Fiducials.Libfidtrack.{FidTrack}
use xtrack.Tuio.Wosclib.{Wosc}
use xtrack.App.{Config, AppState, Tick, Output}
use xtrack.App.Setup.{Devices, set_up}
use xtrack.App.Keys.{key_is, stop_current}
use xtrack.App.Loop.{process_loop, finish}
use xtrack.App.Process.{process}
use xtrack.App.Sending.{Seen, Sends}
use xtrack.App.Datagrams.{Starts, set_up-Starts}
use xtrack.App.Headless.{Ends, process_loop_headless}

module _ {F D : Type 0} ⦃f : Floating F⦄ ⦃d : Floating D⦄ (lib : FidTrack F) (osc : Wosc F)
    (cv : OpenCv D) (narrow : D → F) (data_of : cv.Mat → lib.Image) where
  finishes :
      {m : Outcome (AppState F D lib cv × List (Output cv))} (s : AppState F D lib cv)
      (frames : List (lib.Image × D))
      → Yields (Ends lib osc cv narrow data_of s frames) m
      → ◌≡◌ {A = Outcome (Unit {0})}
          (m >>= λ res. finish lib osc cv narrow data_of res.0 >>= λ r. ok tt)
          (ok tt)
  unfolding finish stop_current
  finishes s frames (yields p) = rw p.0.1 refl

  process_headless :
      (fuel : ℕ) (devices : Devices cv) (ps : Parameters) {ticks : List (Tick cv)}
      (frames : List (lib.Image × D)) (config : Config) (s : AppState F D lib cv)
      → set_up lib cv devices ps ≡ ok (config, s)
      → config.show_input_window ≡ false
      → Seen lib cv data_of config ticks frames
      → All (λ tick. key_is tick.key b'r' ≡ false) ticks
      → Yields
          (Sends lib osc cv narrow data_of s.finder s.server frames)
          (process_loop lib osc cv narrow data_of fuel config ticks s)
        × (process lib osc cv narrow data_of fuel devices ticks ps ≡ ok tt)
  unfolding process finish
  process_headless fuel devices ps frames config s started hidden seen keys =
      let start : Starts lib cv devices ps (config, s) =
        Gives-ok
          (subst (Gives (Starts lib cv devices ps)) started (set_up-Starts lib cv devices ps)) in
      let ends =
        process_loop_headless lib osc cv narrow data_of fuel config s seen keys
          (start.2 hidden, start.1) start.0 in
      (Yields-map ends (λ res p. p.1), rw started (finishes s frames ends))

  -- If the arguments give parameters with which what is in front of the loop gives a state, and the window for
  -- the input image is not asked for, with frames of the camera that can be cut and that go up to an empty
  -- one or to a round in which the end is asked for, and without the key r: the rounds end without an
  -- exception and send what the server sends of the tables that the finder makes of the images and the times,
  -- and the program ends with the status 0.
  pub main_headless :
      (fuel : ℕ) (devices : Devices cv) (args : List Text) (ps : Parameters)
      {ticks : List (Tick cv)} (frames : List (lib.Image × D)) (config : Config)
      (s : AppState F D lib cv)
      → add_params [] args ≡ ok ps
      → set_up lib cv devices ps ≡ ok (config, s)
      → config.show_input_window ≡ false
      → Seen lib cv data_of config ticks frames
      → All (λ tick. key_is tick.key b'r' ≡ false) ticks
      → Yields
          (Sends lib osc cv narrow data_of s.finder s.server frames)
          (process_loop lib osc cv narrow data_of fuel config ticks s)
        × (main (process lib osc cv narrow data_of fuel devices ticks) args ≡ status 0)
  unfolding main
  main_headless fuel devices args ps frames config s parsed started hidden seen keys =
      let (sends, returns) =
        process_headless fuel devices ps frames config s started hidden seen keys in
      (sends, rw (parsed, returns) refl)
