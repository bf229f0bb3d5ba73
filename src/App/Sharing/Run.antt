-- ===== src/App/Sharing/Run.antt =====
-- The whole of `process` with the images that share their pixels.
use xtrack.Prelude.{
  ℕ, Bool, ◌≡◌, ◌∙◌, ap, refl, List, Outcome, ok, ◌>>=◌, both, Matches-bind, Matches-after,
  Matches-then, Matches-eq, Matches-dropped, arith,
}
use xtrack.Parameters.{Parameters}
use xtrack.Floating.{Floating}
use xtrack.OpenCv.{OpenCv}
use xtrack.Fiducials.Libfidtrack.{FidTrack}
use xtrack.Tuio.Wosclib.{Wosc}
use xtrack.Record.Recorder.{CameraRecorder}
use xtrack.App.{Tick, Output}
use xtrack.App.Keys.{stop_current}
use xtrack.App.Setup.{Devices, set_up}
use xtrack.App.Loop.{process_loop, finish}
use xtrack.App.Datagrams.{set_up-Starts}
use xtrack.App.Process.{process}
use xtrack.App.Sharing.{shared_process}
use xtrack.App.Sharing.Apart.{SharingLaws}
use xtrack.App.Sharing.Rounds.{rounds-SameEnd}

module _ {F D : Type 0} ⦃f : Floating F⦄ ⦃d : Floating D⦄ (lib : FidTrack F) (osc : Wosc F)
    (cv : OpenCv D) (narrow : D → F) (data_of : cv.Mat → lib.Image)
    (reuses : cv.Mat → cv.Mat → Bool) (laws : SharingLaws cv reuses) where
  -- The process of Process.antt, in which each image has its own pixels, with its results.
  abbrev plain :
      ℕ → Devices cv → List (Tick cv) → Parameters → Outcome (CameraRecorder cv × List (Output cv))
  plain fuel devices ticks ps = do
    (config, start) ← set_up lib cv devices ps
    (last, outputs) ← process_loop lib osc cv narrow data_of fuel config ticks start
    recorder ← finish lib osc cv narrow data_of last
    ok (recorder, outputs)

  plain-process :
      (fuel : ℕ) (devices : Devices cv) (ticks : List (Tick cv)) (ps : Parameters)
      → (plain fuel devices ticks ps >>= λ _. ok tt)
        ≡ process lib osc cv narrow data_of fuel devices ticks ps
  unfolding process
  plain-process fuel devices ticks ps = Matches-dropped (
      Matches-after (set_up lib cv devices ps) (λ start _.
        Matches-after (process_loop lib osc cv narrow data_of fuel start.0 ticks start.1)
          (λ res _. Matches-after (finish lib osc cv narrow data_of res.0) (λ r _. both tt))))

  shared_process-plain :
      (fuel : ℕ) (devices : Devices cv) (ticks : List (Tick cv)) (ps : Parameters)
      → shared_process lib osc cv narrow data_of reuses fuel devices ticks ps
        ≡ plain fuel devices ticks ps
  unfolding shared_process finish
  shared_process-plain fuel devices ticks ps = Matches-eq (
      Matches-then (set_up-Starts lib cv devices ps) (λ (config, start) begun.
        Matches-bind
          (rounds-SameEnd lib osc cv narrow data_of reuses laws fuel config ticks _ _ start
            start.display_mat
            (record {
              some_next = ground arith;
              flip_old = ground arith;
              gray_old = ground arith;
              thresh_old = ground arith;
              thresh_flip = λ filled. absurd (filled refl);
              thresh_gray = λ filled. absurd (filled refl);
              colored = λ filled. absurd (filled refl);
              empty = refl;
            })
            (λ _. (refl, begun.3)))
          (λ a b (m, e).
            rw e (Matches-after (stop_current a.0.record_mode a.0.recorder) (λ r _. both refl)))))

  -- If pixels are reused for images of the same type only and drawing keeps the type: `process` with headers
  -- that may share their pixels gives the outputs and the recorder that it gives with an image of its own
  -- for each variable, with the same exceptions and endless runs, and it ends as `process` does.
  pub process_sharing :
      (fuel : ℕ) (devices : Devices cv) (ticks : List (Tick cv)) (ps : Parameters)
      → (shared_process lib osc cv narrow data_of reuses fuel devices ticks ps ≡ (do
        (config, start) ← set_up lib cv devices ps
        (last, outputs) ← process_loop lib osc cv narrow data_of fuel config ticks start
        recorder ← finish lib osc cv narrow data_of last
        ok (recorder, outputs)))
        × ((shared_process lib osc cv narrow data_of reuses fuel devices ticks ps >>= λ _. ok tt)
            ≡ process lib osc cv narrow data_of fuel devices ticks ps)
  process_sharing fuel devices ticks ps =
      let e = shared_process-plain fuel devices ticks ps in
      (e, ap (λ m. m >>= λ _. ok tt) e ∙ plain-process fuel devices ticks ps)
