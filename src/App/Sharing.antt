-- ===== src/App/Sharing.antt =====
-- xtrack/xtrack.cpp, the loop of `process`, with the images that share their pixels: a cv::Mat is a
-- header for pixels, `=` copies the header, and drawing changes the pixels for every header of them. The camera
-- gives each frame in pixels of its own.
pub mod Pixels
pub mod Apart
pub mod Prepare
pub mod Keep
pub mod Channels
pub mod Rounds
pub mod Run
use xtrack.Prelude.{
  ℕ, suc, ◌+◌, ◌==◌, ◌||◌, ◌&&◌, not, Bool, true, false, Option, none, some, List, [], ◌∷◌, ◌++◌,
  take, if◌then◌else◌, ℤ, Outcome, ok, raise, running, ◌>>=◌,
}
use xtrack.Floating.{Floating}
use xtrack.OpenCv.{OpenCv}
use xtrack.Fiducials.{max_fiducials, find_fiducials}
use xtrack.Fiducials.Libfidtrack.{FidTrack}
use xtrack.Tuio.{send_message}
use xtrack.Tuio.Wosclib.{Wosc}
use xtrack.Record.Recorder.{RecordMode, normal, recording, playback, CameraRecorder, record_frame}
use xtrack.Display.{CameraDisplay}
use xtrack.Display.Drawing.{draw_tracking_info, display_tracked_image}
use xtrack.App.{Config, AppState, Tick, Output, sent, printed, contrast, input, waited}
use xtrack.App.Keys.{wait_time, press_key}
use xtrack.App.Loop.{cut_frame, contrast_image, print_from, run_recorder, finish}
use xtrack.App.Setup.{Devices, set_up}
use xtrack.Parameters.{Parameters}

-- The pixels at their addresses. The address 0 is that of an empty header and has no pixels.
pub record Store (Mat : Type 0) : Type 0 where
  pub next : ℕ
  pub cell : ℕ → Mat

-- The headers of `process` that live through the loop: flipMat, grayScaleMat, thresholdMat, displayMat.
pub record Images : Type 0 where
  pub flip : ℕ
  pub gray : ℕ
  pub thresh : ℕ
  pub display : ℕ

-- `reuses old new` is whether the pixels of a header are overwritten by a new image: a function with an output
-- image keeps them where the size and the type are the same, and takes new ones where not.
module _ {Mat : Type 0} (reuses : Mat → Mat → Bool) where
  unfoldable pub write : Store Mat → ℕ → Mat → Store Mat
  write st a m = record st { cell = λ b. if b == a then m else st.cell b }

  unfoldable pub alloc : Store Mat → Mat → ℕ × Store Mat
  unfolding write
  alloc st m = (st.next, record (write st st.next m) { next = st.next + 1 })

  unfoldable pub create : Store Mat → ℕ → Mat → ℕ × Store Mat
  unfolding write alloc
  create st a m = if not (a == 0) && reuses (st.cell a) m then (a, write st a m) else alloc st m

module _ {D : Type 0} (cv : OpenCv D) (reuses : cv.Mat → cv.Mat → Bool) where
  open cv use {Mat, turn_round, channels, to_gray, threshold}

  -- The steps from the part of the frame to the image with the threshold. Behind the cut nothing reads the
  -- rest of the frame, so its pixels are those of the part.
  unfoldable pub flip_image : Bool → Mat → ℕ → Store Mat → ℕ × Store Mat
  unfolding alloc create
  flip_image true quadratic flip st =
      let (quadr, st₁) = alloc reuses st quadratic in
      create reuses st₁ flip (turn_round (st₁.cell quadr))
  flip_image false quadratic flip st = alloc reuses st quadratic

  unfoldable pub gray_image : ℕ → ℕ → Store Mat → ℕ × Store Mat
  unfolding create
  gray_image flip gray st =
      if channels (st.cell flip) == 3
      then create reuses st gray (to_gray (st.cell flip))
      else (flip, st)

  unfoldable pub prepare : Config → Mat → Images → Store Mat → Images × Store Mat
  unfolding create
  prepare config quadratic im st =
      let (flip, st₁) = flip_image config.rotate_image quadratic im.flip st in
      let (gray, st₂) = gray_image flip im.gray st₁ in
      let (thresh, st₃) =
        create reuses st₂ im.thresh (threshold (st₂.cell gray) config.threshold) in
      (record im { flip = flip; gray = gray; thresh = thresh }, st₃)

module _ {F D : Type 0} ⦃f : Floating F⦄ ⦃d : Floating D⦄ (lib : FidTrack F) (osc : Wosc F)
    (cv : OpenCv D) (narrow : D → F) (data_of : cv.Mat → lib.Image)
    (reuses : cv.Mat → cv.Mat → Bool) where
  open cv use {Mat, cols, rows}

  -- `displayMat = flipMat` copies the header, and the tracking information is drawn into its pixels.
  unfoldable pub show_shared :
      Option CameraDisplay
      → RecordMode
      → Images
      → Store Mat
      → AppState F D lib cv
      → Outcome (Images × Store Mat × List (Output cv))
  show_shared none mode im st s = ok (im, st, [])
  show_shared (some display) playback im st s = ok (im, st, [])
  show_shared (some display) _ im st s = do
    drawn ← draw_tracking_info cv display (st.cell im.flip) s.finder.tracked_fiducials
    shown ← display_tracked_image cv display drawn
    ok (record im { display = im.flip }, write reuses st im.flip drawn, input shown ∷ [])

  -- `recordFrame(displayMat)` reads the pixels that the header has now.
  unfoldable pub record_shared :
      ℕ → RecordMode → Mat → AppState F D lib cv → Outcome (AppState F D lib cv × List (Output cv))
  record_shared fuel recording shown s = do
    recorder ← record_frame cv s.recorder shown
    ok (record s { recorder = recorder }, [])
  record_shared fuel mode shown s = run_recorder lib osc cv narrow data_of fuel mode s

  -- One round; `display_mat` of the state is not used.
  unfoldable pub shared_frame :
      ℕ
      → Config
      → Tick cv
      → Images
      → Store Mat
      → AppState F D lib cv
      → Outcome ((Images × Store Mat × AppState F D lib cv) × List (Output cv))
  shared_frame fuel config tick im₀ st₀ s = do
    quadratic ← cut_frame cv config.make_quadratic tick.frame
    let (im₁, st₁) = prepare cv reuses config quadratic im₀ st₀
    let (finder, found) =
        find_fiducials lib narrow s.finder (data_of (st₁.cell im₁.thresh)) tick.start_clock
    let (server, datagram) = send_message osc s.server finder.tracked_fiducials
    let marked = contrast_image cv (st₁.cell im₁.thresh) s.record_mode config.arena_radius
    let st₂ = (if config.show_contrast_window then write reuses st₁ im₁.thresh marked else st₁)
    let shown_contrast = (if config.show_contrast_window then contrast marked ∷ [] else [])
    let print =
        (if config.print_data
          then printed (print_from 0 (take max_fiducials finder.tracked_fiducials)) ∷ []
          else [])
    let s₁ = record s { finder = finder; server = server }
    (im₂, st₃, shown) ← show_shared s.display s.record_mode im₁ st₂ s₁
    (s₂, played) ← record_shared fuel s.record_mode (st₃.cell im₂.display) s₁
    let wait = wait_time config.frame_time tick.start_clock tick.end_clock
    s₃ ← press_key tick.key s₂
    ok (
      (im₂, st₃, record s₃ { term_requested = s₃.term_requested || tick.signalled }),
      sent datagram ∷ (shown_contrast ++ (print ++ (shown ++ (played ++ waited wait ∷ [])))),
    )

  unfoldable pub shared_loop :
      ℕ
      → Config
      → List (Tick cv)
      → Images
      → Store Mat
      → AppState F D lib cv
      → Outcome (AppState F D lib cv × List (Output cv))
  shared_loop fuel config [] im st s = running
  shared_loop fuel config (tick ∷ ticks) im st s =
      if rows tick.frame == 0 || cols tick.frame == 0 then ok (s, []) else (do
        ((im', st', s'), outputs) ← shared_frame fuel config tick im st s
        if s'.term_requested then ok (s', outputs) else (do
          (last, rest) ← shared_loop fuel config ticks im' st' s'
          ok (last, outputs ++ rest)))

  -- The whole, whose result is the recorder in the end and all outputs. In front of the loop the headers are
  -- empty.
  unfoldable pub shared_process :
      ℕ → Devices cv → List (Tick cv) → Parameters → Outcome (CameraRecorder cv × List (Output cv))
  shared_process fuel devices ticks ps = do
    (config, start) ← set_up lib cv devices ps
    (last, outputs) ←
        shared_loop fuel config ticks (record { flip = 0; gray = 0; thresh = 0; display = 0 })
          (record { next = 1; cell = λ a. cv.empty_mat }) start
    recorder ← finish lib osc cv narrow data_of last
    ok (recorder, outputs)
