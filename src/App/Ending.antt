-- ===== src/App/Ending.antt =====
-- A run whose rounds all give a state from which the next one goes on.
use xtrack.Tuio.{send_all}
use xtrack.Prelude.{
  suc, length, Yields-map, Yields-else, Yields-first, ok_injective, ◌≡◌, ◌∙◌, refl, sym, ℕ, false,
  ◌||◌, ◌==◌, List, [], ◌∷◌, All, ok, Yields, yields, Yields-then, Yields-and,
}
use xtrack.Floating.{Floating}
use xtrack.OpenCv.{OpenCv}
use xtrack.Fiducials.Libfidtrack.{FidTrack}
use xtrack.Tuio.Wosclib.{Wosc}
use xtrack.App.{Config, AppState, Tick, Output}
use xtrack.App.Loop.{process_frame, process_loop}
use xtrack.App.Silent.{quits}
use xtrack.App.Sending.{
  asked, image_of, Seen, no_frame, last_round, round, Sends, Sends-append, process_frame-Gives,
}

module _ {F D : Type 0} ⦃f : Floating F⦄ ⦃d : Floating D⦄ (lib : FidTrack F) (osc : Wosc F)
    (cv : OpenCv D) (narrow : D → F) (data_of : cv.Mat → lib.Image) (fuel : ℕ) (config : Config)
    (GoesOn : ℕ → AppState F D lib cv → Type 0) (IsRegular : Tick cv → Type 0)
    (goes_on : (left : ℕ) (tick : Tick cv) (s : AppState F D lib cv) (image : lib.Image)
      → image_of lib cv data_of config tick ≡ ok image
      → cv.rows tick.frame == 0 || cv.cols tick.frame == 0 ≡ false
      → IsRegular tick
      → GoesOn (suc left) s
      → Yields
          (λ res. GoesOn left res.0)
          (process_frame lib osc cv narrow data_of fuel config tick s)) where
  -- What a round sends, and whether it ends the run.
  Runs :
      ℕ
      → Tick cv
      → lib.Image
      → AppState F D lib cv
      → AppState F D lib cv × List (Output cv)
      → Type 0
  Runs left tick image s res =
      GoesOn left res.0
      × (res.0.term_requested ≡ (quits tick.key || tick.signalled))
      × Sends lib osc cv narrow data_of s.finder s.server ((image, tick.start_clock) ∷ []) res

  round-Yields :
      (left : ℕ) (tick : Tick cv) (s : AppState F D lib cv) (image : lib.Image)
      → image_of lib cv data_of config tick ≡ ok image
      → cv.rows tick.frame == 0 || cv.cols tick.frame == 0 ≡ false
      → IsRegular tick
      → GoesOn (suc left) s
      → s.term_requested ≡ false
      → Yields (Runs left tick image s) (process_frame lib osc cv narrow data_of fuel config tick s)
  unfolding Runs send_all
  round-Yields left tick s image e full regular h runs =
      Yields-map
        (Yields-and (goes_on left tick s image e full regular h)
          (process_frame-Gives lib osc cv narrow data_of fuel config tick s))
        (λ res p. (
          p.0,
          sym (asked tick.key tick.signalled s.term_requested runs (sym p.1.2)),
          rw (ok_injective (sym e ∙ p.1.1)) p.1.3,
        ))

  -- The state behind the rounds, and what they sent.
  abbrev pub Ended :
      AppState F D lib cv → List (lib.Image × D) → AppState F D lib cv × List (Output cv) → Type 0
  Ended s frames res =
      ((left : ℕ) × GoesOn left res.0)
      × Sends lib osc cv narrow data_of s.finder s.server frames res

  pub process_loop_ends :
      {ticks : List (Tick cv)} {frames : List (lib.Image × D)} (s : AppState F D lib cv)
      → Seen lib cv data_of config ticks frames
      → All IsRegular ticks
      → GoesOn (length ticks) s
      → s.term_requested ≡ false
      → Yields (Ended s frames) (process_loop lib osc cv narrow data_of fuel config ticks s)
  unfolding process_loop send_all Runs
  process_loop_ends s (no_frame e) regular h runs = rw e (yields ((_, h), (refl, refl, refl)))
  process_loop_ends s (last_round {tick} {image = image} e i asks) (here, regular) h runs = rw e (
      Yields-then (round-Yields _ tick s image i e here h runs)
        (λ res p. Yields-first res.0.term_requested _ (p.1 ∙ asks) (yields ((_, p.0), p.2))))
  process_loop_ends s (round {tick} {ticks} {image} {frames} e i asks seen) (here, regular) h runs =
      rw e (
        Yields-then (round-Yields _ tick s image i e here h runs) (λ res p.
          Yields-else res.0.term_requested (ok res) (p.1 ∙ asks) (
            Yields-then (process_loop_ends res.0 seen regular p.0 (p.1 ∙ asks)) (λ last q. yields (
              q.0,
              Sends-append lib osc cv narrow data_of s.finder s.server image tick.start_clock frames
                  res last p.2 q.1,
            )))))
