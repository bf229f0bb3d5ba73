-- ===== src/App/Observed.antt =====
-- What other programs get to see of the fiducials over a run.
use mathlib.Core.Path.{subst}
use xtrack.Prelude.{
  ◌≡◌, ◌∙◌, refl, sym, ap, ℕ, zero, suc, ◌<◌, some, List, ok, ok_injective, Gives, Gives-ok,
  Gives-map, replicate, length-replicate, get_elem?, arith,
}
use xtrack.Parameters.{Parameters}
use xtrack.Floating.{Floating}
use xtrack.OpenCv.{OpenCv}
use xtrack.Fiducials.{max_fiducials, new_finder}
use xtrack.Fiducials.Tracked.{TrackedFiducial, Size, fresh}
use xtrack.Fiducials.Libfidtrack.{FidTrack}
use xtrack.Fiducials.Run.{Apart, found_all}
use xtrack.Tuio.Wosclib.{Wosc}
use xtrack.Tuio.Observed.{Holds, observed, send_all-observed}
use xtrack.App.{Config, AppState, Tick}
use xtrack.App.Setup.{Devices, set_up}
use xtrack.App.Loop.{process_loop}
use xtrack.App.Outputs.{datagrams_of}
use xtrack.App.Sending.{Seen, no_frame, last_round, round, process_loop_sends}
use xtrack.App.Datagrams.{Starts, set_up-Starts}

get_elem?-replicate {ℓ} :
    {A : Type ℓ} (n : ℕ) (a : A) (i : ℕ) → i < n → get_elem? (replicate n a) i ≡ some a
get_elem?-replicate zero a i h = absurd (omega arith)
get_elem?-replicate (suc n) a zero h = refl
get_elem?-replicate (suc n) a (suc i) h = get_elem?-replicate n a i (omega arith)

module _ {F D : Type 0} (lib : FidTrack F) (cv : OpenCv D) (data_of : cv.Mat → lib.Image)
    (config : Config) where
  -- The rounds of a run are determined by what comes from outside.
  Seen-unique :
      {ticks : List (Tick cv)} {frames others : List (lib.Image × D)}
      → Seen lib cv data_of config ticks frames
      → Seen lib cv data_of config ticks others
      → frames ≡ others
  Seen-unique (no_frame e) (no_frame e') = refl
  Seen-unique (no_frame e) (last_round e' i q) = cc
  Seen-unique (no_frame e) (round e' i q seen) = cc
  Seen-unique (last_round e i q) (no_frame e') = cc
  Seen-unique (last_round e i q) (last_round e' i' q') = let same = ok_injective (sym i ∙ i') in cc
  Seen-unique (last_round e i q) (round e' i' q' seen) = cc
  Seen-unique (round e i q seen) (no_frame e') = cc
  Seen-unique (round e i q seen) (last_round e' i' q') = cc
  Seen-unique (round e i q seen) (round e' i' q' seen') =
      let same = ok_injective (sym i ∙ i') in let others = Seen-unique seen seen' in cc

module _ {F D : Type 0} ⦃f : Floating F⦄ ⦃d : Floating D⦄ (lib : FidTrack F) where
  new_finder-Holds : (size : Size) → Holds {D = D} lib (new_finder lib size) (λ i. fresh)
  unfolding new_finder
  new_finder-Holds size = (
    length-replicate {A = TrackedFiducial F D} max_fiducials fresh,
    λ i known. get_elem?-replicate max_fiducials fresh i known,
  )

module _ {F D : Type 0} ⦃f : Floating F⦄ ⦃d : Floating D⦄ (lib : FidTrack F) (osc : Wosc F)
    (cv : OpenCv D) (narrow : D → F) (data_of : cv.Mat → lib.Image) where
  -- From the state that what is in front of the loop gives, with frames whose times are no NaN and differ from
  -- each other and from 0: if the rounds give a result, the datagrams that they send are those of four
  -- trackers that know nothing of each other. The tracker of an id starts fresh, is updated by the first
  -- fiducial with this id that libfidtrack finds in a frame, and is sent in the datagram of this frame; in
  -- a frame in which its id is not found it is only marked as not tracked, and not sent.
  pub process_observed :
      (fuel : ℕ) (devices : Devices cv) (ps : Parameters) {ticks : List (Tick cv)}
      (frames : List (lib.Image × D)) (config : Config) (s : AppState F D lib cv)
      → set_up lib cv devices ps ≡ ok (config, s)
      → Seen lib cv data_of config ticks frames
      → Apart lib narrow (d.literal 0 1) frames
      → Gives
          (λ res.
            datagrams_of res.1
            ≡ observed lib osc narrow s.server s.finder.fsize
                (λ i. fresh)
                (found_all lib narrow s.finder.segmenter s.finder.fidtracker frames))
          (process_loop lib osc cv narrow data_of fuel config ticks s)
  unfolding fresh
  process_observed fuel devices ps frames config s started seen apart =
      let start : Starts lib cv devices ps (config, s) =
        Gives-ok
          (subst (Gives (Starts lib cv devices ps)) started (set_up-Starts lib cv devices ps)) in
      let holds : Holds lib s.finder (λ i. fresh) =
        subst (λ x. Holds lib x (λ i. fresh)) (sym start.5) (new_finder-Holds lib s.finder.fsize) in
      Gives-map (process_loop_sends lib osc cv narrow data_of fuel config _ s start.0) (λ res p.
        let same : p.0 ≡ frames = Seen-unique lib cv data_of config p.1 seen in
        p.2.2
        ∙ send_all-observed lib osc narrow s.finder s.server p.0 (λ i. fresh) holds
            (λ i. subst (λ x. Apart lib narrow (d.literal 0 1) x) (sym same) apart)
        ∙ ap
            (λ x.
              observed lib osc narrow s.server s.finder.fsize (λ i. fresh)
                (found_all lib narrow s.finder.segmenter s.finder.fidtracker x))
            same)
