-- ===== src/App/Sending.antt =====
-- What a run sends, whatever it displays, records and plays back.
use xtrack.Prelude.{
  arith, ◌≡◌, ◌∙◌, refl, sym, ap, ℕ, Bool, true, false, ◌==◌, ◌||◌, List, [], ◌∷◌, ◌++◌,
  if◌then◌else◌, ℤ, Outcome, ok, ◌>>=◌, Gives, given, endless, Gives-then, Gives-test, Gives-result,
}
use xtrack.Floating.{Floating}
use xtrack.OpenCv.{OpenCv}
use xtrack.Fiducials.{FiducialFinder, find_fiducials}
use xtrack.Fiducials.Run.{track_all}
use xtrack.Fiducials.Libfidtrack.{FidTrack}
use xtrack.Tuio.{TuioServer, send_message, send_all}
use xtrack.Tuio.Wosclib.{Wosc}
use xtrack.App.{Config, AppState, Tick, Output}
use xtrack.App.Loop.{cut_frame, gray_of, process_frame, process_loop}
use xtrack.App.Outputs.{datagrams_of, datagrams_of-append, one_datagram}
use xtrack.App.Silent.{quits, show_input-Gives, run_recorder-Gives, press_key-Gives}

pub asked :
    {b : Bool} (key : ℤ) (signalled requested : Bool)
    → requested ≡ false
    → (quits key || requested || signalled) ≡ b
    → (quits key || signalled) ≡ b
asked key signalled requested h k = ground arith

module _ {F D : Type 0} (lib : FidTrack F) (cv : OpenCv D) (data_of : cv.Mat → lib.Image) where
  -- The image in which the fiducials of a round are sought.
  abbrev pub image_of : Config → Tick cv → Outcome lib.Image
  image_of config tick = do
    quadratic ← cut_frame cv config.make_quadratic tick.frame
    let flipped = if config.rotate_image then cv.turn_round quadratic else quadratic
    ok (data_of (cv.threshold (gray_of cv flipped) config.threshold))

  -- The images and clocks of the rounds of a run: up to a camera frame that is empty, or up to the
  -- round in which a key or a signal asks for the end.
  pub data Seen (config : Config) : List (Tick cv) → List (lib.Image × D) → Type 0 where
    no_frame :
        {tick : Tick cv} {ticks : List (Tick cv)}
        → cv.rows tick.frame == 0 || cv.cols tick.frame == 0 ≡ true
        → Seen config (tick ∷ ticks) []
    last_round :
        {tick : Tick cv} {ticks : List (Tick cv)} {image : lib.Image}
        → cv.rows tick.frame == 0 || cv.cols tick.frame == 0 ≡ false
        → image_of config tick ≡ ok image
        → quits tick.key || tick.signalled ≡ true
        → Seen config (tick ∷ ticks) ((image, tick.start_clock) ∷ [])
    round :
        {tick : Tick cv} {ticks : List (Tick cv)} {image : lib.Image}
        {frames : List (lib.Image × D)}
        → cv.rows tick.frame == 0 || cv.cols tick.frame == 0 ≡ false
        → image_of config tick ≡ ok image
        → quits tick.key || tick.signalled ≡ false
        → Seen config ticks frames
        → Seen config (tick ∷ ticks) ((image, tick.start_clock) ∷ frames)

module _ {F D : Type 0} ⦃f : Floating F⦄ ⦃d : Floating D⦄ (lib : FidTrack F) (osc : Wosc F)
    (cv : OpenCv D) (narrow : D → F) (data_of : cv.Mat → lib.Image) where
  abbrev pub IsRound :
      Config → Tick cv → AppState F D lib cv → AppState F D lib cv × List (Output cv) → Type 0
  IsRound config tick s res =
      (image : lib.Image) × (image_of lib cv data_of config tick ≡ ok image)
      × (res.0.term_requested ≡ (quits tick.key || s.term_requested || tick.signalled))
      × (let finder = (find_fiducials lib narrow s.finder image tick.start_clock).0 in
          let sending = send_message osc s.server finder.tracked_fiducials in
          (res.0.finder ≡ finder)
          × (res.0.server ≡ sending.0)
          × (datagrams_of res.1 ≡ sending.1 ∷ []))

  pub process_frame-Gives :
      (fuel : ℕ) (config : Config) (tick : Tick cv) (s : AppState F D lib cv)
      → Gives (IsRound config tick s) (process_frame lib osc cv narrow data_of fuel config tick s)
  unfolding process_frame
  process_frame-Gives fuel config tick s =
      Gives-then (Gives-result (cut_frame cv config.make_quadratic tick.frame)) (λ quadratic e.
        Gives-then (show_input-Gives lib osc cv narrow data_of s.display s.record_mode _ _)
          (λ shown p.
            Gives-then
              (run_recorder-Gives lib osc cv narrow data_of fuel shown.0.record_mode shown.0)
              (λ played q.
                Gives-then (press_key-Gives lib osc cv narrow data_of tick.key played.0) (λ last k.
                  given (
                    _,
                    rw e refl,
                    ap (λ b. b || tick.signalled) (k.2 ∙ ap (λ b. quits tick.key || b) (q.2 ∙ p.2)),
                    (
                      k.0 ∙ q.0 ∙ p.0,
                      k.1 ∙ q.1 ∙ p.1,
                      one_datagram _ config.show_contrast_window config.print_data _ _ shown.1
                          played.1 _ p.3 q.3,
                    ),
                  )))))

  -- The finder on the images, and the server on the finder's tables.
  abbrev pub Sends :
      FiducialFinder F D lib
      → TuioServer
      → List (lib.Image × D)
      → AppState F D lib cv × List (Output cv)
      → Type 0
  Sends finder server frames res =
      let found = track_all lib narrow finder frames in
      let sending = send_all osc server found.1 in
      (res.0.finder ≡ found.0) × (res.0.server ≡ sending.0) × (datagrams_of res.1 ≡ sending.1)

  pub Sends-append :
      (finder : FiducialFinder F D lib) (server : TuioServer) (image : lib.Image) (clock : D)
      (frames : List (lib.Image × D)) (first last : AppState F D lib cv × List (Output cv))
      → Sends finder server ((image, clock) ∷ []) first
      → Sends first.0.finder first.0.server frames last
      → Sends finder server ((image, clock) ∷ frames) (last.0, first.1 ++ last.1)
  unfolding send_all
  Sends-append finder server image clock frames first last one others =
      let next = (find_fiducials lib narrow finder image clock).0 in
      (
        others.0 ∙ ap (λ x. (track_all lib narrow x frames).0) one.0,
        rw (others.1, one.0, one.1) refl,
        rw (datagrams_of-append, one.2, others.2, one.0, one.1) refl,
      )

  abbrev pub IsRun :
      Config
      → List (Tick cv)
      → AppState F D lib cv
      → AppState F D lib cv × List (Output cv)
      → Type 0
  IsRun config ticks s res =
      (frames : List (lib.Image × D)) × Seen lib cv data_of config ticks frames
      × Sends s.finder s.server frames res

  -- From a state in which no end is asked for: if the rounds end with a result, the datagrams that they sent
  -- are, in order, those of the server on the tables that the finder makes of the images of the rounds and
  -- their times, and the finder and the server are left as those leave them. The rounds are those in front
  -- of an empty frame of the camera, or up to the first one in which q, Escape or a signal asks for the end.
  -- So nothing that is shown, printed, recorded or played back changes what is sent.
  pub process_loop_sends :
      (fuel : ℕ) (config : Config) (ticks : List (Tick cv)) (s : AppState F D lib cv)
      → s.term_requested ≡ false
      → Gives (IsRun config ticks s) (process_loop lib osc cv narrow data_of fuel config ticks s)
  unfolding process_loop send_all
  process_loop_sends fuel config [] s runs = endless
  process_loop_sends fuel config (tick ∷ ticks) s runs =
      Gives-test (cv.rows tick.frame == 0 || cv.cols tick.frame == 0)
        (λ e. given {a = (s, [])} ([], no_frame e, (refl, refl, refl)))
        (λ e. Gives-then (process_frame-Gives fuel config tick s) (λ res first.
          Gives-test res.0.term_requested
            (λ t. given {a = res} (
              (first.0, tick.start_clock) ∷ [],
              last_round e first.1
                  (asked tick.key tick.signalled s.term_requested runs (sym first.2 ∙ t)),
              first.3,
            ))
            (λ t. Gives-then (process_loop_sends fuel config ticks res.0 t) (λ last run.
              given {a = (last.0, res.1 ++ last.1)} (
                (first.0, tick.start_clock) ∷ run.0,
                round e first.1
                    (asked tick.key tick.signalled s.term_requested runs (sym first.2 ∙ t)) run.1,
                Sends-append s.finder s.server first.0 tick.start_clock run.0 res last first.3
                    run.2,
              )))))
