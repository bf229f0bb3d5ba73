-- ===== src/App/Sharing/Rounds.antt =====
-- The loop with the images that share their pixels does what the loop does in which each has its own.
use xtrack.Prelude.{
  ℕ, ◌==◌, ◌||◌, ◌≡◌, ◌≢◌, ◌∙◌, refl, sym, ap, Bool, true, false, Option, none, some, List, [], ◌∷◌,
  ◌++◌, ℤ, if◌then◌else◌, ok, ◌>>=◌, Matches-then, Matches, both, both_run, Matches-bind,
  Matches-after, Matches-if,
}
use xtrack.Floating.{Floating}
use xtrack.OpenCv.{OpenCv}
use xtrack.Fiducials.Libfidtrack.{FidTrack}
use xtrack.Tuio.Wosclib.{Wosc}
use xtrack.Record.Recorder.{RecordMode, playback}
use xtrack.Display.{CameraDisplay}
use xtrack.Display.Drawing.{display_tracked_image}
use xtrack.App.{Config, AppState, Tick, Output, waited}
use xtrack.App.Keys.{wait_time, press_key}
use xtrack.App.Loop.{
  cut_frame, contrast_image, gray_of, run_recorder, show_input, process_frame, process_loop,
}
use xtrack.App.Sharing.{Store, Images, write, show_shared, record_shared, shared_frame, shared_loop}
use xtrack.App.Sharing.Pixels.{cell-write}
use xtrack.App.Sharing.Apart.{SharingLaws, Apart, marked-Apart, drawn-Apart}
use xtrack.App.Sharing.Prepare.{prepare-Prepared}
use xtrack.App.Sharing.Channels.{draw_tracking_info-Gives}
use xtrack.App.Sharing.Keep.{press_key-Kept, record_shared-Kept}

module _ {F D : Type 0} ⦃f : Floating F⦄ ⦃d : Floating D⦄ (lib : FidTrack F) (osc : Wosc F)
    (cv : OpenCv D) (narrow : D → F) (data_of : cv.Mat → lib.Image)
    (reuses : cv.Mat → cv.Mat → Bool) (laws : SharingLaws cv reuses) where
  -- Without a window for the input image its header is empty.
  abbrev pub IsBlank : Option CameraDisplay → Images → cv.Mat → Type 0
  IsBlank display im m = display ≡ none → (im.display ≡ 0) × (m ≡ cv.empty_mat)

  -- What is known behind the display.
  pub record Shown (display : Option CameraDisplay) (mode : RecordMode) (s : AppState F D lib cv)
      (a : Images × Store cv.Mat × List (Output cv)) (b : AppState F D lib cv × List (Output cv))
      : Type 0 where
    pub image : cv.Mat
    pub same : b ≡ (record s { display_mat = image }, a.2)
    pub apart : Apart cv reuses a.0 a.1
    pub blank : IsBlank display a.0 image
    pub reads : mode ≢ playback → a.1.cell a.0.display ≡ image

  show_shared-Shown :
      (display : Option CameraDisplay) (mode : RecordMode) (im : Images) (st : Store cv.Mat)
      (s : AppState F D lib cv) (m flipped : cv.Mat)
      → Apart cv reuses im st
      → im.flip ≢ 0
      → st.cell im.flip ≡ flipped
      → IsBlank display im m
      → Matches
          (Shown display mode s)
          (show_shared lib osc cv narrow data_of reuses display mode im st s)
          (show_input lib osc cv narrow data_of display mode flipped (record s { display_mat = m }))
  unfolding show_shared show_input
  show_shared-Shown none mode im st s m flipped h filled holds blank = both (record {
    image = m;
    same = refl;
    apart = h;
    blank = blank;
    reads = λ _. ap (λ a. st.cell a) (blank refl).0 ∙ h.empty ∙ sym (blank refl).1;
  })
  show_shared-Shown (some display) playback im st s m flipped h filled holds blank =
      both (record {
        image = m;
        same = refl;
        apart = h;
        blank = λ e. cc;
        reads = λ e. absurd (e refl);
      })
  show_shared-Shown (some display) _ im st s m flipped h filled holds blank = rw (sym holds) (
      Matches-then
        (draw_tracking_info-Gives cv reuses laws display (st.cell im.flip)
          s.finder.tracked_fiducials)
        (λ drawn e. Matches-after (display_tracked_image cv display drawn) (λ shown _.
          both (record {
            image = drawn;
            same = refl;
            apart = drawn-Apart cv reuses laws im st drawn h filled e;
            blank = λ x. cc;
            reads = λ _. cell-write reuses st im.flip drawn;
          }))))

  -- What is known behind a round. `m` is the image of the second state.
  abbrev Round :
      (Images × Store cv.Mat × AppState F D lib cv) × List (Output cv)
      → AppState F D lib cv × List (Output cv)
      → Type 0
  Round a b =
      (m : cv.Mat) × (b ≡ (record a.0.2 { display_mat = m }, a.1))
      × Apart cv reuses a.0.0 a.0.1
      × IsBlank a.0.2.display a.0.0 m

  -- The contrast image is drawn into pixels of its own.
  marked_if-Apart :
      (shown : Bool) (im : Images) (st : Store cv.Mat) (marked : cv.Mat)
      → Apart cv reuses im st
      → im.thresh ≢ 0
      → im.flip ≢ 0
      → Apart cv reuses im (if shown then write reuses st im.thresh marked else st)
        × ((if shown then write reuses st im.thresh marked else st).cell im.flip ≡ st.cell im.flip)
  marked_if-Apart true im st marked h filled flip_filled =
      marked-Apart cv reuses laws im st marked h filled flip_filled
  marked_if-Apart false im st marked h filled flip_filled = (h, refl)

  -- A round behind the images: the display, the recorder and the key.
  ending-Round :
      (fuel : ℕ) (key wait : ℤ) (signalled : Bool) (im : Images) (st : Store cv.Mat)
      (s : AppState F D lib cv) (m flipped : cv.Mat) (first : Output cv)
      (second third : List (Output cv))
      → Apart cv reuses im st
      → im.flip ≢ 0
      → st.cell im.flip ≡ flipped
      → IsBlank s.display im m
      → Matches Round
          (do
            (im₂, st₃, shown) ←
                show_shared lib osc cv narrow data_of reuses s.display s.record_mode im st s
            (s₂, played) ←
                record_shared lib osc cv narrow data_of reuses fuel s.record_mode
                  (st₃.cell im₂.display)
                  s
            s₃ ← press_key key s₂
            ok (
              (im₂, st₃, record s₃ { term_requested = s₃.term_requested || signalled }),
              first ∷ (second ++ (third ++ (shown ++ (played ++ waited wait ∷ [])))),
            ))
          (do
            (s₁, shown) ←
                show_input lib osc cv narrow data_of s.display s.record_mode flipped
                  (record s { display_mat = m })
            (s₂, played) ← run_recorder lib osc cv narrow data_of fuel s₁.record_mode s₁
            s₃ ← press_key key s₂
            ok (
              record s₃ { term_requested = s₃.term_requested || signalled },
              first ∷ (second ++ (third ++ (shown ++ (played ++ waited wait ∷ [])))),
            ))
  ending-Round fuel key wait signalled im st s m flipped first second third h filled holds blank =
      Matches-bind
        (show_shared-Shown s.display s.record_mode im st s m flipped h filled holds blank)
        (λ a b shown. rw shown.same (
          Matches-bind
            (record_shared-Kept lib osc cv narrow data_of reuses fuel s.record_mode
              (a.1.cell a.0.display) shown.image s shown.reads)
            (λ x y kept.
              rw (kept.0.0, sym kept.1)
                (Matches-bind (press_key-Kept shown.image key x.0) (λ u v last. both (
                  shown.image,
                  rw last.0 refl,
                  shown.apart,
                  λ e. shown.blank (sym (last.1 ∙ kept.0.1) ∙ e),
                ))))))

  shared_frame-Round :
      (fuel : ℕ) (config : Config) (tick : Tick cv) (im : Images) (st : Store cv.Mat)
      (s : AppState F D lib cv) (m : cv.Mat)
      → Apart cv reuses im st
      → IsBlank s.display im m
      → Matches Round
          (shared_frame lib osc cv narrow data_of reuses fuel config tick im st s)
          (process_frame lib osc cv narrow data_of fuel config tick (record s { display_mat = m }))
  unfolding shared_frame process_frame
  shared_frame-Round fuel config tick im st s m h blank =
      Matches-after (cut_frame cv config.make_quadratic tick.frame) (λ quadratic _.
        let p = prepare-Prepared cv reuses laws config quadratic im st h in
        let black_white =
          cv.threshold
            (gray_of cv (if config.rotate_image then cv.turn_round quadratic else quadratic))
            config.threshold in
        let (apart, same) =
          marked_if-Apart config.show_contrast_window _ _
            (contrast_image cv black_white s.record_mode config.arena_radius) p.apart
            p.thresh_filled p.flip_filled in
        rw p.black_white (
          ending-Round fuel tick.key (wait_time config.frame_time tick.start_clock tick.end_clock)
            tick.signalled _ _ _ m _ _ _ _ apart p.flip_filled (same ∙ p.flipped)
            (λ e. (p.same_display ∙ (blank e).0, (blank e).1))))

  abbrev pub SameEnd :
      AppState F D lib cv × List (Output cv) → AppState F D lib cv × List (Output cv) → Type 0
  SameEnd a b = (m : cv.Mat) × (b ≡ (record a.0 { display_mat = m }, a.1))

  pub rounds-SameEnd :
      (fuel : ℕ) (config : Config) (ticks : List (Tick cv)) (im : Images) (st : Store cv.Mat)
      (s : AppState F D lib cv) (m : cv.Mat)
      → Apart cv reuses im st
      → IsBlank s.display im m
      → Matches SameEnd
          (shared_loop lib osc cv narrow data_of reuses fuel config ticks im st s)
          (process_loop lib osc cv narrow data_of fuel config ticks (record s { display_mat = m }))
  unfolding shared_loop process_loop
  rounds-SameEnd fuel config [] im st s m h blank = both_run
  rounds-SameEnd fuel config (tick ∷ ticks) im st s m h blank =
      Matches-if (cv.rows tick.frame == 0 || cv.cols tick.frame == 0) (both (m, refl)) (
        Matches-bind (shared_frame-Round fuel config tick im st s m h blank)
          (λ a b (m', same, apart, blank'). rw same (
            Matches-if a.0.2.term_requested (both (m', refl)) (
              Matches-bind (rounds-SameEnd fuel config ticks a.0.0 a.0.1 a.0.2 m' apart blank')
                (λ x y (last, e). both (last, rw e refl))))))
